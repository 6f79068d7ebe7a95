-- ===== src/EventBus.antt =====
-- core/runtime/eventbus.go: subscribers of event types, each with a channel of 100 events. The
-- bus and the subscriber share the channel; it is named by its place among the type's channels.
pub mod Delivery
use node_decent_system.Prelude.{
  ℕ, ◌≡◌, refl, Bool-cases, Option, none, some, Option-cases, inl, inr, List, [], ◌∷◌, ◌++◌, map,
  if◌then◌else◌, Bytes, str_eq, str_eq_iff, length,
}
use node_decent_system.Chan.{Chan, make_chan, try_send}
use node_decent_system.GoMap.{GoMap, get-put, get-put_self}
use node_decent_system.GoMap

pub record Event (Payload : Type 0) : Type 0 where
  pub kind : Bytes
  pub emitter : Bytes
  pub payload : Payload

abbrev pub EventBus : Type 0 → Type 0
EventBus Payload = GoMap (List (Chan (Event Payload)))

module _ {Payload : Type 0} where
  unfoldable pub new_event_bus : EventBus Payload
  new_event_bus = []

  -- The channels of a type; a missing one reads as nil.
  unfoldable pub subscribers : Option (List (Chan (Event Payload))) → List (Chan (Event Payload))
  subscribers none = []
  subscribers (some chans) = chans

  -- The new bus, with the place of the new channel.
  unfoldable pub subscribe : EventBus Payload → Bytes → EventBus Payload × ℕ
  subscribe eb kind =
      let subs = subscribers (GoMap.get eb kind) in
      (GoMap.put eb kind (subs ++ make_chan 100 ∷ []), length subs)

  publish_to :
      EventBus Payload → Event Payload → Option (List (Chan (Event Payload))) → EventBus Payload
  publish_to eb e none = eb
  publish_to eb e (some subs) = GoMap.put eb e.kind (map (λ ch. try_send ch e) subs)

  unfoldable pub publish : EventBus Payload → Event Payload → EventBus Payload
  unfolding publish_to
  publish eb e = publish_to eb e (GoMap.get eb e.kind)

  -- An event reaches every channel of its own type, and no other.
  pub publish_lem :
      (eb : EventBus Payload) (e : Event Payload) (kind : Bytes)
      → subscribers (GoMap.get (publish eb e) kind) ≡ (
          if str_eq e.kind kind
          then map (λ ch. try_send ch e) (subscribers (GoMap.get eb kind))
          else subscribers (GoMap.get eb kind))
  unfolding publish publish_to subscribers
  publish_lem eb e kind = elim (Option-cases (GoMap.get eb e.kind)) [
    | inl h ↦
        rw (h, publish)
          (elim (Bool-cases (str_eq e.kind kind)) [
            | inl same ↦ rw (same, ← (str_eq_iff e.kind kind).0 same, h) refl
            | inr other ↦ rw other refl
          ])
    | inr (subs, h) ↦
        rw (h, publish)
          (elim (Bool-cases (str_eq e.kind kind)) [
            | inl same ↦
                rw
                  (
                    get-put eb e.kind kind (map (λ ch. try_send ch e) subs),
                    same,
                    ← (str_eq_iff e.kind kind).0 same,
                    h,
                  )
                  refl
            | inr other ↦ rw (get-put eb e.kind kind (map (λ ch. try_send ch e) subs), other) refl
          ])
  ]
