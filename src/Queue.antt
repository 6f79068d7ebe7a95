-- ===== src/Queue.antt =====
-- applications/dist-queue/queuestate.go: first-in first-out queues by topic.
pub mod Order
use node_decent_system.Prelude.{
  ℕ, ◌≡◌, refl, Bool, true, false, Option, none, some, List, [], ◌∷◌, ◌++◌, arith, Result, ok, err,
  if◌then◌else◌, length, Bytes, Error, lit, str_eq, hex,
}
use node_decent_system.GoMap.{GoMap, keys}
use node_decent_system.GoMap
use node_decent_system.GoMap.Range.{RangeOrder}

unfoldable pub action_enqueue : Bytes
unfolding lit
action_enqueue = lit "ENQUEUE"

unfoldable pub action_dequeue : Bytes
unfolding lit
action_dequeue = lit "DEQUEUE"

-- The field `Data` is `item`.
pub record QueuePayload : Type 0 where
  pub action : Bytes
  pub topic : Bytes
  pub item : Bytes

pub record QueueState : Type 0 where
  pub queues : GoMap (List Bytes)
  pub state_root : Bytes

unfoldable pub new_queue_state : QueueState
new_queue_state = record { queues = []; state_root = lit "queue_genesis_root" }

-- A missing topic reads as the empty queue.
abbrev pub items_of : Option (List Bytes) → List Bytes
items_of none = []
items_of (some q) = q

write_items : List Bytes → Bytes
write_items [] = []
write_items (x ∷ xs) = x ++ write_items xs

-- What the loop writes to the hash: each topic with its items, in the order of the loop.
unfoldable pub hash_input : GoMap (List Bytes) → List Bytes → Bytes
unfolding write_items
hash_input m [] = []
hash_input m (t ∷ ts) = t ++ (write_items (items_of (GoMap.get m t)) ++ hash_input m ts)

unfoldable pub depth : QueueState → Bytes → ℕ
depth qs topic = length (items_of (GoMap.get qs.queues topic))

module _ (sha256 : Bytes → Bytes) (unmarshal : Bytes → Result Error QueuePayload) where
  -- The keys are not sorted here.
  unfoldable pub recalculate_root : RangeOrder → QueueState → QueueState
  recalculate_root order qs = record qs {
    state_root = hex (sha256 (hash_input qs.queues (order (keys qs.queues))));
  }

  unfoldable pub finish : RangeOrder → QueueState → QueueState × Result Error Bytes
  finish order qs = let qs' = recalculate_root order qs in (qs', ok qs'.state_root)

  unfoldable pub enqueue : RangeOrder → QueueState → QueuePayload → QueueState × Result Error Bytes
  enqueue order qs p = finish order (record qs {
    queues = GoMap.put qs.queues p.topic (items_of (GoMap.get qs.queues p.topic) ++ p.item ∷ []);
  })

  take_first : RangeOrder → QueueState → QueuePayload → List Bytes → QueueState × Result Error Bytes
  take_first order qs p [] = (qs, err (lit "queue for topic " ++ (p.topic ++ lit " is empty")))
  take_first order qs p (x ∷ q) =
      finish order (record qs { queues = GoMap.put qs.queues p.topic q })

  -- A topic that does not exist and one without items are refused alike.
  unfoldable pub dequeue : RangeOrder → QueueState → QueuePayload → QueueState × Result Error Bytes
  unfolding take_first
  dequeue order qs p = take_first order qs p (items_of (GoMap.get qs.queues p.topic))

  unfoldable pub apply_payload :
      RangeOrder → QueueState → QueuePayload → QueueState × Result Error Bytes
  apply_payload order qs p =
      if str_eq p.action action_enqueue
      then enqueue order qs p
      else if str_eq p.action action_dequeue
      then dequeue order qs p
      else (qs, err (lit "unsupported queue action: " ++ p.action))

  unfoldable pub apply : RangeOrder → QueueState → Bytes → QueueState × Result Error Bytes
  apply order qs commit_log = elim (unmarshal commit_log) [
    | err e ↦ (qs, err (lit "dist-queue failed to unmarshal payload: " ++ e))
    | ok p ↦ apply_payload order qs p
  ]
