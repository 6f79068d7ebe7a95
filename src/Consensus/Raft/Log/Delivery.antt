-- ===== src/Consensus/Raft/Log/Delivery.antt =====
-- raft_engine.go: what the loop over the committed entries sends to the commit channel.
use node_decent_system.Prelude.{
  true, false, ◌&&◌, leb, Bool-cases, inl, inr, ap₂, get_elem?, ◌-◌, ℕ, zero, suc, ◌+◌, ◌≤◌, ◌<◌,
  ◌≡◌, refl, sym, ap, ◌∙◌, Option, none, some, List, [], ◌∷◌, ◌++◌, arith, ltb, if◌then◌else◌,
  length, length-append, Bytes,
}
use mathlib.Core.List.{append-nil, append_assoc}
use node_decent_system.Chan.{Chan, try_send-room, cap-try_send}
use node_decent_system.Consensus.Raft.Types.{LogEntry, RaftEngine}
use node_decent_system.Consensus.Raft.Log.Shape.{Contiguous, WellFormed}
use node_decent_system.Consensus.Raft.Append.{deliver, slot, apply_next, apply_rounds}

-- The payload that a slot gives to the channel: none for a gap or an empty payload.
abbrev pub payload_of : Option LogEntry → List Bytes
payload_of none = []
payload_of (some e) = if ltb 0 (length e.payload) then e.payload ∷ [] else []

-- The payloads of the `n` entries after index `i`, in the order of the log.
unfoldable pub payloads : {Store : Type 0} → RaftEngine Store → ℕ → ℕ → List Bytes
payloads re zero i = []
payloads re (suc n) i = payload_of (slot re (i + 1)) ++ payloads re n (i + 1)

deliver-room :
    (ch : Chan Bytes) (o : Option LogEntry)
    → length ch.items < ch.cap
    → ((deliver ch o).items ≡ ch.items ++ payload_of o)
      × ((deliver ch o).cap ≡ ch.cap)
      × (length (deliver ch o).items ≤ length ch.items + 1)
unfolding deliver
deliver-room ch none h = (sym (append-nil _), refl, omega arith)
deliver-room ch (some e) h = ground (
  arith,
  append-nil ch.items,
  try_send-room ch e.payload,
  cap-try_send ch e.payload,
  length-append ch.items (e.payload ∷ []),
)

module _ {Store : Type 0} where
  payloads-next : (re : RaftEngine Store) (n i : ℕ) → payloads (apply_next re) n i ≡ payloads re n i
  unfolding payloads apply_next
  payloads-next re zero i = refl
  payloads-next re (suc n) i = ap (◌++◌ (payload_of (slot re (i + 1)))) (payloads-next re n (i + 1))

  next_room :
      (n : ℕ) (re : RaftEngine Store)
      → length re.commit_chan.items + suc n ≤ re.commit_chan.cap
      → ((apply_next re).commit_chan.items
          ≡ re.commit_chan.items ++ payload_of (slot re (re.last_applied + 1)))
        × (length (apply_next re).commit_chan.items + n ≤ (apply_next re).commit_chan.cap)
        × ((apply_next re).last_applied ≡ re.last_applied + 1)
  unfolding apply_next
  next_room n re h =
      let d = deliver-room re.commit_chan (slot re (re.last_applied + 1)) (omega arith) in
      (d.0, omega (arith, d.1, d.2), refl)

  apply_rounds-slots :
      (n : ℕ) (re : RaftEngine Store)
      → length re.commit_chan.items + n ≤ re.commit_chan.cap
      → ((apply_rounds n re).commit_chan.items
          ≡ re.commit_chan.items ++ payloads re n re.last_applied)
        × ((apply_rounds n re).last_applied ≡ re.last_applied + n)
  unfolding apply_rounds payloads
  apply_rounds-slots zero re h = (sym (append-nil _), omega arith)
  apply_rounds-slots (suc n) re h =
      let d = next_room n re h in
      let ih = apply_rounds-slots n (apply_next re) d.1 in
      (
        ih.0
            ∙ rw (d.0, d.2, payloads-next re n (re.last_applied + 1))
                (append_assoc re.commit_chan.items (payload_of (slot re (re.last_applied + 1)))
                  (payloads re n (re.last_applied + 1))),
        omega (arith, ih.1, d.2),
      )

-- What the entries of a log give that are numbered above `i` and up to `j`, by their own indices and
-- in the order of the log.
select : ℕ → ℕ → LogEntry → List Bytes
select i j e = if ltb i e.index && leb e.index j then payload_of (some e) else []

unfoldable pub numbered_payloads : ℕ → ℕ → List LogEntry → List Bytes
unfolding select
numbered_payloads i j [] = []
numbered_payloads i j (e ∷ es) = select i j e ++ numbered_payloads i j es

-- The slot of index `i` in a log that is numbered from `b` on.
abbrev entry_at : ℕ → List LogEntry → ℕ → Option LogEntry
entry_at b xs i = if leb b i then get_elem? xs (i - b) else none

entry_at-below : (b i : ℕ) (xs : List LogEntry) → i < b → entry_at b xs i ≡ none
entry_at-below b i xs h = let out : leb b i ≡ false = ground arith in rw out refl

entry_at-first : (b : ℕ) (x : LogEntry) (xs : List LogEntry) → entry_at b (x ∷ xs) b ≡ some x
entry_at-first b x xs =
    let fits : leb b b ≡ true = ground arith in
    let zeroth : b - b ≡ 0 = omega arith in rw fits (ap (get_elem? (x ∷ xs)) zeroth)

entry_at-next :
    (b i : ℕ) (x : LogEntry) (xs : List LogEntry)
    → b < i
    → entry_at b (x ∷ xs) i ≡ entry_at (suc b) xs i
entry_at-next b i x xs h =
    let fits : leb b i ≡ true = ground arith in
    let fits' : leb (suc b) i ≡ true = ground arith in
    let later : i - b ≡ suc (i - suc b) = omega arith in
    rw (fits, fits') (ap (get_elem? (x ∷ xs)) later)

select-out : (i j : ℕ) (e : LogEntry) → ¬ ((i < e.index) × (e.index ≤ j)) → select i j e ≡ []
unfolding select
select-out i j e h =
    let out : (ltb i e.index && leb e.index j) ≡ false = ground arith in rw out refl

select-in :
    (i j : ℕ) (e : LogEntry) → i < e.index → e.index ≤ j → select i j e ≡ payload_of (some e)
unfolding select
select-in i j e h k =
    let inside : (ltb i e.index && leb e.index j) ≡ true = ground arith in rw inside refl

select-later : (i j : ℕ) (e : LogEntry) → suc i < e.index → select i j e ≡ select (suc i) j e
unfolding select
select-later i j e h =
    let a : ltb i e.index ≡ true = ground arith in
    let b : ltb (suc i) e.index ≡ true = ground arith in rw (a, b) refl

-- The first index of a range is the slot of that index.
numbered-first :
    (b i n : ℕ) (xs : List LogEntry)
    → Contiguous b xs
    → numbered_payloads i (i + suc n) xs
      ≡ payload_of (entry_at b xs (suc i)) ++ numbered_payloads (suc i) (i + suc n) xs
unfolding numbered_payloads
numbered-first b i n [] c = elim (Bool-cases (leb b (suc i))) [
  | inl h ↦ rw h refl
  | inr h ↦ rw h refl
]
numbered-first b i n (x ∷ xs) c = elim (Bool-cases (ltb (suc i) b)) [
  | inl below ↦
      let rest =
        numbered-first (suc b) i n xs c.1
        ∙ ap (λ o. payload_of o ++ numbered_payloads (suc i) (i + suc n) xs)
            (entry_at-below (suc b) (suc i) xs (ground arith)) in
      rw (entry_at-below b (suc i) (x ∷ xs) (ground arith))
        (ap₂ ◌++◌ (select-later i (i + suc n) x (ground arith)) rest)
  | inr at_least ↦ elim (Bool-cases (ltb b (suc i))) [
    | inl above ↦
        rw
          (
            entry_at-next b (suc i) x xs (ground arith),
            select-out i (i + suc n) x (λ h. ground arith),
            select-out (suc i) (i + suc n) x (λ h. ground arith),
          )
          (numbered-first (suc b) i n xs c.1)
    | inr equal ↦
        let same : b ≡ suc i = ground arith in
        let rest =
          numbered-first (suc b) i n xs c.1
          ∙ ap (λ o. payload_of o ++ numbered_payloads (suc i) (i + suc n) xs)
              (entry_at-below (suc b) (suc i) xs (ground arith)) in
        ap₂ ◌++◌ (select-in i (i + suc n) x (ground arith) (ground arith)) rest
        ∙ ap₂ (λ o ys. payload_of o ++ (ys ++ numbered_payloads (suc i) (i + suc n) xs))
            (sym (ap (λ k. entry_at k (x ∷ xs) (suc i)) same ∙ entry_at-first (suc i) x xs))
            (sym (select-out (suc i) (i + suc n) x (λ h. ground arith)))
  ]
]

numbered-none : (i : ℕ) (xs : List LogEntry) → numbered_payloads i i xs ≡ []
unfolding numbered_payloads
numbered-none i [] = refl
numbered-none i (x ∷ xs) = rw (select-out i i x (λ h. ground arith)) (numbered-none i xs)

module _ {Store : Type 0} where
  payloads-numbered :
      (re : RaftEngine Store) (n i : ℕ)
      → Contiguous re.snapshot.last_included_index re.log
      → payloads re n i ≡ numbered_payloads i (i + n) re.log
  unfolding payloads
  payloads-numbered re zero i c =
      let same : i ≡ i + 0 = omega arith in
      sym (numbered-none i re.log) ∙ ap (λ j. numbered_payloads i j re.log) same
  payloads-numbered re (suc n) i c =
      let next : i + 1 ≡ suc i = omega arith in
      let last : i + 1 + n ≡ i + suc n = omega arith in
      ap₂ (λ o ys. payload_of o ++ ys) (ap (slot re) next)
        (payloads-numbered re n (i + 1) c ∙ ap₂ (λ k j. numbered_payloads k j re.log) next last)
      ∙ sym (numbered-first re.snapshot.last_included_index i n re.log c)

  -- While the channel has room for a value in each round, `n` rounds of the loop over a well-formed
  -- log send the payloads that are not empty of the entries whose own index is above the applied
  -- index and at most `n` above it, each once and in the order of the log, and count the rounds.
  pub apply_rounds-delivers :
      (n : ℕ) (re : RaftEngine Store)
      → WellFormed re
      → length re.commit_chan.items + n ≤ re.commit_chan.cap
      → ((apply_rounds n re).commit_chan.items
          ≡ re.commit_chan.items ++ numbered_payloads re.last_applied (re.last_applied + n) re.log)
        × ((apply_rounds n re).last_applied ≡ re.last_applied + n)
  apply_rounds-delivers n re w room =
      let sent = apply_rounds-slots n re room in
      (
        sent.0
            ∙ ap (◌++◌ re.commit_chan.items) (payloads-numbered re n re.last_applied w.contiguous),
        sent.1,
      )
