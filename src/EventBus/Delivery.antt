-- ===== src/EventBus/Delivery.antt =====
-- eventbus.go: what a subscriber's channel holds after any sequence of publications.
use node_decent_system.Prelude.{
  ℕ, zero, suc, ◌-◌, ◌≤◌, ◌<◌, ◌≡◌, refl, sym, ap, ◌∙◌, Bool-cases, some, inl, inr, List, [], ◌∷◌,
  ◌++◌, map, arith, if◌then◌else◌, ltb, Bytes, str_eq, length, length-append, get_elem?, take,
}
use mathlib.Core.List.{append-nil, append_assoc}
use node_decent_system.Chan.{
  Chan, try_send, Fits, try_send-Fits, try_send-room, try_send-full, cap-try_send,
}
use node_decent_system.GoMap
use node_decent_system.EventBus.{Event, EventBus, subscribers, publish, publish_lem}

map_same : {A : Type 0} (xs : List A) → map (λ x. x) xs ≡ xs
map_same [] = refl
map_same (x ∷ xs) = ap (◌∷◌ x) (map_same xs)

map-map :
    {A B C : Type 0} (f : B → C) (g : A → B) (xs : List A)
    → map f (map g xs) ≡ map (λ x. f (g x)) xs
map-map f g [] = refl
map-map f g (x ∷ xs) = ap (◌∷◌ (f (g x))) (map-map f g xs)

get_elem?-map :
    {A B : Type 0} (f : A → B) (xs : List A) (i : ℕ) (x : A)
    → get_elem? xs i ≡ some x
    → get_elem? (map f xs) i ≡ some (f x)
get_elem?-map f [] i x h = absurd (ground arith)
get_elem?-map f (y ∷ xs) zero x h = ground arith
get_elem?-map f (y ∷ xs) (suc i) x h = get_elem?-map f xs i x h

module _ {A : Type 0} where
  -- The sends to one channel, in order.
  abbrev pub send_all : Chan A → List A → Chan A
  send_all c [] = c
  send_all c (x ∷ xs) = send_all (try_send c x) xs

  send_all-full : (c : Chan A) (xs : List A) → c.cap ≤ length c.items → send_all c xs ≡ c
  send_all-full c [] h = refl
  send_all-full c (x ∷ xs) h = rw (try_send-full c x h) (send_all-full c xs h)

  take_nil : (n : ℕ) → take {A = A} n [] ≡ []
  take_nil zero = refl
  take_nil (suc n) = refl

  take_cons : (n k : ℕ) (x : A) (xs : List A) → n ≡ suc k → x ∷ take k xs ≡ take n (x ∷ xs)
  take_cons n k x xs h = rw h refl

  sent_one :
      (c : Chan A) (x : A) (xs : List A)
      → length c.items < c.cap
      → (try_send c x).items ++ take ((try_send c x).cap - length (try_send c x).items) xs
        ≡ c.items ++ take (c.cap - length c.items) (x ∷ xs)
  sent_one c x xs room =
      let left : c.cap - length c.items ≡ suc (c.cap - length (c.items ++ x ∷ [])) =
        omega (arith, length-append c.items (x ∷ [])) in
      rw (try_send-room c x room, cap-try_send c x)
        (append_assoc c.items (x ∷ []) (take (c.cap - length (c.items ++ x ∷ [])) xs)
          ∙ ap (◌++◌ c.items)
              (take_cons (c.cap - length c.items) (c.cap - length (c.items ++ x ∷ [])) x xs left))

  -- A channel takes as many of the values as it has room for, and drops the rest.
  items-send_all :
      (c : Chan A) (xs : List A)
      → Fits c
      → ((send_all c xs).items ≡ c.items ++ take (c.cap - length c.items) xs)
        × ((send_all c xs).cap ≡ c.cap)
  items-send_all c [] h = (rw (take_nil (c.cap - length c.items)) (sym (append-nil c.items)), refl)
  items-send_all c (x ∷ xs) h = elim (Bool-cases (ltb (length c.items) c.cap)) [
    | inl room ↦
        let ih = items-send_all (try_send c x) xs (try_send-Fits c x h) in
        (ih.0 ∙ sent_one c x xs (ground arith), ih.1 ∙ cap-try_send c x)
    | inr no_room ↦
        let full : c.cap ≤ length c.items = ground arith in
        let none_left : c.cap - length c.items ≡ 0 = omega arith in
        (
          ap (λ d. d.items) (send_all-full c (x ∷ xs) full)
              ∙ rw none_left (sym (append-nil c.items)),
          ap (λ d. d.cap) (send_all-full c (x ∷ xs) full),
        )
  ]

module _ {Payload : Type 0} where
  abbrev pub publish_all : EventBus Payload → List (Event Payload) → EventBus Payload
  publish_all eb [] = eb
  publish_all eb (e ∷ es) = publish_all (publish eb e) es

  -- The events of one type.
  abbrev pub of_kind : Bytes → List (Event Payload) → List (Event Payload)
  of_kind kind [] = []
  of_kind kind (e ∷ es) =
      let rest = of_kind kind es in if str_eq e.kind kind then e ∷ rest else rest

  subscribers-publish_all :
      (eb : EventBus Payload) (es : List (Event Payload)) (kind : Bytes)
      → subscribers (GoMap.get (publish_all eb es) kind)
        ≡ map (λ ch. send_all ch (of_kind kind es)) (subscribers (GoMap.get eb kind))
  subscribers-publish_all eb [] kind = sym (map_same (subscribers (GoMap.get eb kind)))
  subscribers-publish_all eb (e ∷ es) kind =
      subscribers-publish_all (publish eb e) es kind
      ∙ ap (map (λ ch. send_all ch (of_kind kind es))) (publish_lem eb e kind)
      ∙ elim (Bool-cases (str_eq e.kind kind)) [
        | inl h ↦ rw h (
            map-map (λ ch. send_all ch (of_kind kind es)) (λ ch. try_send ch e)
              (subscribers (GoMap.get eb kind)))
        | inr h ↦ rw h refl
      ]

  -- Whatever is published, a subscriber's channel gets the events of its type, in their order, as
  -- many of them as it has room for, and nothing else; a full channel drops them without an effect
  -- on the other channels.
  pub publish_all-delivers :
      (eb : EventBus Payload) (es : List (Event Payload)) (kind : Bytes) (i : ℕ)
      (ch : Chan (Event Payload))
      → get_elem? (subscribers (GoMap.get eb kind)) i ≡ some ch
      → Fits ch
      → (ch' : Chan (Event Payload)) × (get_elem?
            (subscribers (GoMap.get (publish_all eb es) kind))
            i
          ≡ some ch')
        × (ch'.cap ≡ ch.cap)
        × (ch'.items ≡ ch.items ++ take (ch.cap - length ch.items) (of_kind kind es))
  publish_all-delivers eb es kind i ch h fits =
      let sent = items-send_all ch (of_kind kind es) fits in
      (
        send_all ch (of_kind kind es),
        rw (subscribers-publish_all eb es kind) (
            get_elem?-map (λ c. send_all c (of_kind kind es)) (subscribers (GoMap.get eb kind)) i ch
              h),
        sent.1,
        sent.0,
      )
