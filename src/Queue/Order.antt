-- ===== src/Queue/Order.antt =====
-- queuestate.go: what a payload does to the items of the topics.
use node_decent_system.Prelude.{
  ◌+◌, ◌≡◌, ◌≢◌, refl, sym, ap, ◌∙◌, Bool, true, false, Bool-cases, inl, inr, Option, some, List,
  [], ◌∷◌, ◌++◌, arith, Result, ok, err, if◌then◌else◌, length, Bytes, Error, lit, str_eq,
  str_eq_iff, str_eq_refl,
}
use node_decent_system.GoMap.{get-put}
use node_decent_system.GoMap
use node_decent_system.GoMap.Range.{RangeOrder}
use node_decent_system.Queue.{
  QueuePayload, QueueState, action_enqueue, action_dequeue, items_of, recalculate_root, finish,
  enqueue, dequeue, take_first, apply_payload, depth,
}

-- A topic's items, oldest first.
abbrev pub items : QueueState → Bytes → List Bytes
items qs topic = items_of (GoMap.get qs.queues topic)

-- What a payload means to the queues: an item joins its topic at the end, or the oldest leaves.
abbrev pub tail_of : List Bytes → List Bytes
tail_of [] = []
tail_of (x ∷ xs) = xs

abbrev pub meaning : QueuePayload → (Bytes → List Bytes) → Bytes → List Bytes
meaning p view t =
    if str_eq p.action action_enqueue
    then (if str_eq p.topic t then view p.topic ++ p.item ∷ [] else view t)
    else if str_eq p.action action_dequeue
    then (if str_eq p.topic t then tail_of (view p.topic) else view t)
    else view t

items_of-if :
    (b : Bool) (x y : Option (List Bytes))
    → items_of (if b then x else y) ≡ (if b then items_of x else items_of y)
items_of-if true x y = refl
items_of-if false x y = refl

module _ (sha256 : Bytes → Bytes) (unmarshal : Bytes → Result Error QueuePayload)
    (order : RangeOrder) where
  items-put :
      (qs : QueueState) (k t : Bytes) (q : List Bytes)
      → items (finish sha256 unmarshal order (record qs { queues = GoMap.put qs.queues k q })).0 t
        ≡ (if str_eq k t then q else items qs t)
  unfolding finish recalculate_root
  items-put qs k t q =
      rw (get-put qs.queues k t q) (items_of-if (str_eq k t) (some q) (GoMap.get qs.queues t))

  take_first-meaning :
      (qs : QueueState) (p : QueuePayload) (t : Bytes) (q : List Bytes)
      → items qs p.topic ≡ q
      → items (take_first sha256 unmarshal order qs p q).0 t
        ≡ (if str_eq p.topic t then tail_of q else items qs t)
  unfolding take_first
  take_first-meaning qs p t (x ∷ q) h = items-put qs p.topic t q
  take_first-meaning qs p t [] h = elim (Bool-cases (str_eq p.topic t)) [
    | inl e ↦ rw e (ap (items qs) (sym ((str_eq_iff p.topic t).0 e)) ∙ h)
    | inr e ↦ rw e refl
  ]

  -- `Apply` refines the meaning of its payload, at every topic: in particular an empty topic stays
  -- empty, and no other topic is touched.
  pub items-apply :
      (qs : QueueState) (p : QueuePayload) (t : Bytes)
      → items (apply_payload sha256 unmarshal order qs p).0 t ≡ meaning p (items qs) t
  unfolding apply_payload
  items-apply qs p t = elim (Bool-cases (str_eq p.action action_enqueue)) [
    | inl h ↦ rw h (unfold enqueue in items-put qs p.topic t _)
    | inr h ↦ elim (Bool-cases (str_eq p.action action_dequeue)) [
      | inl d ↦ rw (h, d) (unfold dequeue in take_first-meaning qs p t (items qs p.topic) refl)
      | inr d ↦ rw (h, d)
    ]
  ]

  -- A dequeue is refused exactly when its topic has no item, and then changes nothing; else it gives
  -- the new root and leaves one item less.
  pub dequeue-refused :
      (qs : QueueState) (p : QueuePayload)
      → (depth qs p.topic ≡ 0
          → (dequeue sha256 unmarshal order qs p)
            ≡ (qs, err (lit "queue for topic " ++ (p.topic ++ lit " is empty"))))
        × (depth qs p.topic ≢ 0
            → ((dequeue sha256 unmarshal order qs p).1
                ≡ ok (dequeue sha256 unmarshal order qs p).0.state_root)
              × (depth (dequeue sha256 unmarshal order qs p).0 p.topic + 1 ≡ depth qs p.topic))
  unfolding dequeue depth
  dequeue-refused qs p = go (items qs p.topic) refl
    where
      go :
          (q : List Bytes)
          → items qs p.topic ≡ q
          → (length (items qs p.topic) ≡ 0
              → take_first sha256 unmarshal order qs p (items qs p.topic)
                ≡ (qs, err (lit "queue for topic " ++ (p.topic ++ lit " is empty"))))
            × (length (items qs p.topic) ≢ 0
                → ((take_first sha256 unmarshal order qs p (items qs p.topic)).1
                    ≡ ok (take_first sha256 unmarshal order qs p (items qs p.topic)).0.state_root)
                  × (length (
                          items
                            (take_first sha256 unmarshal order qs p (items qs p.topic)).0
                            p.topic)
                        + 1
                      ≡ length (items qs p.topic)))
      go [] e = rw e (λ h. refl, λ h. absurd (h refl))
      go (x ∷ q) e = rw e (
        λ h. absurd (omega arith),
        λ h. (
          unfold finish in refl,
          rw (items-put qs p.topic p.topic q, str_eq_refl p.topic) (omega arith),
        ),
      )
