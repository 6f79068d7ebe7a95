-- ===== src/Consensus/Simple/History.antt =====
-- raft.go of modules/consensus: any sequence of calls of the engine.
use node_decent_system.Prelude.{
  ℕ, ◌≤◌, ◌<◌, ◌≡◌, refl, sym, ap, subst, ◌∙◌, Option-cases, pair_injective, none-ne-some, Bool,
  true, false, Bool-cases, Option, none, some, inl, inr, List, [], ◌∷◌, ◌++◌, ltb, if◌then◌else◌,
  Bytes, Error, lit, length, length-append, arith,
}
use mathlib.Core.List.{append-nil, append_assoc}
use node_decent_system.Chan.{Chan, make_chan}
use node_decent_system.Interfaces.{Select}
use node_decent_system.Consensus.Simple.{
  sent, with_room, without_room, select_send, never, RaftConsensus, new_raft_consensus, set_leader,
  proposed, raft_propose, raft_commit,
}
use node_decent_system.Consensus.Simple.Laws.{
  kept, raft_propose-kept, raft_commit-some, raft_commit-none,
}

-- A call of the engine, or a receive from the channel of `Commit`.
pub data Call : Type 0 where
  proposes : Select → Bytes → Call
  receives : Call
  sets_leader : Bool → Call

-- The engine, the proposals whose call returned no error, and the entries that were received.
pub record Trace : Type 0 where
  pub engine : RaftConsensus
  pub accepted : List Bytes
  pub delivered : List Bytes

-- A call that waits leaves all as it is.
after_propose : Trace → Bytes → Option (RaftConsensus × Option Error) → Trace
after_propose t d none = t
after_propose t d (some (r, none)) = record t { engine = r; accepted = t.accepted ++ d ∷ [] }
after_propose t d (some (r, some e)) = record t { engine = r }

after_commit : Trace → Option (Bytes × RaftConsensus) → Trace
after_commit t none = t
after_commit t (some (d, r)) = record t { engine = r; delivered = t.delivered ++ d ∷ [] }

unfoldable pub call : Trace → Call → Trace
unfolding after_propose after_commit
call t (proposes sel d) = after_propose t d (raft_propose sel t.engine d)
call t receives = after_commit t (raft_commit t.engine)
call t (sets_leader b) = record t { engine = set_leader t.engine b }

unfoldable pub calls : Trace → List Call → Trace
calls t [] = t
calls t (c ∷ cs) = calls (call t c) cs

abbrev pub trace_of_new : Bytes → Bool → Trace
trace_of_new node_id is_leader = record {
  engine = new_raft_consensus node_id is_leader;
  accepted = [];
  delivered = [];
}

-- A channel of `cap` places that holds no more.
abbrev Fits : ℕ → Chan Bytes → Type 0
Fits n c = (c.cap ≡ n) × (length c.items ≤ n)

with_room-Fits :
    (n : ℕ) (takes_done : Bool) (c c' : Chan Bytes) (d : Bytes) (o e : Option Error)
    → Fits n c
    → length c.items < c.cap
    → with_room takes_done c d o ≡ some (c', e)
    → Fits n c'
unfolding with_room sent
with_room-Fits n t c c' d none e f room h = ground (
  arith,
  ap (λ x. x.cap) (pair_injective h).0,
  ap (λ x. x.items) (pair_injective h).0,
  length-append c.items (d ∷ []),
)
with_room-Fits n true c c' d (some x) e f room h =
    ground (arith, ap (λ x. x.cap) (pair_injective h).0, ap (λ x. x.items) (pair_injective h).0)
with_room-Fits n false c c' d (some x) e f room h = ground (
  arith,
  ap (λ x. x.cap) (pair_injective h).0,
  ap (λ x. x.items) (pair_injective h).0,
  length-append c.items (d ∷ []),
)

select_send-Fits :
    (n : ℕ) (sel : Select) (c c' : Chan Bytes) (d : Bytes) (e : Option Error)
    → Fits n c
    → select_send sel c d ≡ some (c', e)
    → Fits n c'
unfolding select_send without_room
select_send-Fits n sel c c' d e f h =
    let choice : Bool → Option (Chan Bytes × Option Error) =
      λ b. if b then with_room sel.takes_done c d sel.done else without_room c sel.done in
    elim (Bool-cases (ltb (length c.items) c.cap)) [
      | inl room ↦
          with_room-Fits n sel.takes_done c c' d sel.done e f (ground arith)
            (sym (ap choice room) ∙ h)
      | inr full ↦ waits sel.done (sym (ap choice full) ∙ h)
    ]
  where
    waits : (o : Option Error) → without_room c o ≡ some (c', e) → Fits n c'
    waits none k = absurd (none-ne-some k)
    waits (some x) k = subst (Fits n) (pair_injective k).0 f

raft_propose-Fits :
    (n : ℕ) (sel : Select) (r r' : RaftConsensus) (d : Bytes) (e : Option Error)
    → Fits n r.commit_chan
    → raft_propose sel r d ≡ some (r', e)
    → Fits n r'.commit_chan
unfolding raft_propose proposed
raft_propose-Fits n sel r r' d e f h =
    let on_channel =
      proposed (λ c. record r { commit_chan = c }) (select_send sel r.commit_chan d) in
    let refused = some (lit "node " ++ (r.node_id ++ lit " is not the Raft leader")) in
    let choice : Bool → Option (RaftConsensus × Option Error) =
      λ b. if b then on_channel else some (r, refused) in
    elim (Bool-cases r.is_leader) [
      | inl leads ↦ elim (Option-cases (select_send sel r.commit_chan d)) [
        | inl waits ↦ absurd (
            none-ne-some (
              sym (ap (proposed (λ c. record r { commit_chan = c })) waits)
              ∙ sym (ap choice leads)
              ∙ h))
        | inr ((c, e'), sends) ↦
            let (same, error) = pair_injective (
              sym (ap (proposed (λ c. record r { commit_chan = c })) sends)
              ∙ sym (ap choice leads)
              ∙ h) in
            subst (λ x. Fits n x.commit_chan) same
              (select_send-Fits n sel r.commit_chan c d e' f sends)
      ]
      | inr follows ↦
          let (same, error) = pair_injective (sym (ap choice follows) ∙ h) in
          subst (λ x. Fits n x.commit_chan) same f
    ]

-- All that was accepted was received or waits in the channel, which is never overfull.
abbrev Accounts : Trace → Type 0
Accounts t =
    (t.accepted ≡ t.delivered ++ t.engine.commit_chan.items) × Fits 1000 t.engine.commit_chan

call-Accounts : (t : Trace) (c : Call) → Accounts t → Accounts (call t c)
unfolding call set_leader
call-Accounts t (sets_leader b) h = h
call-Accounts t (proposes sel d) h = settled (raft_propose sel t.engine d) refl
  where
    settled :
        (o : Option (RaftConsensus × Option Error))
        → raft_propose sel t.engine d ≡ o
        → Accounts (after_propose t d o)
    settled none e = h
    settled (some (r, none)) e = (
      ap (λ xs. xs ++ d ∷ []) h.0
          ∙ append_assoc t.delivered t.engine.commit_chan.items (d ∷ [])
          ∙ ap (◌++◌ t.delivered) (sym (unfold kept in raft_propose-kept sel t.engine r d none e)),
      raft_propose-Fits 1000 sel t.engine r d none h.1 e,
    )
    settled (some (r, some x)) e = (
      h.0
          ∙ ap (◌++◌ t.delivered)
              (sym (unfold kept in raft_propose-kept sel t.engine r d (some x) e)),
      raft_propose-Fits 1000 sel t.engine r d (some x) h.1 e,
    )
call-Accounts t receives h = settled (raft_commit t.engine) refl
  where
    settled :
        (o : Option (Bytes × RaftConsensus))
        → raft_commit t.engine ≡ o
        → Accounts (after_commit t o)
    settled none e = h
    settled (some (d, r)) e =
        let first = raft_commit-some t.engine r d e in
        (
          h.0
              ∙ ap (◌++◌ t.delivered) first.0
              ∙ sym (append_assoc t.delivered (d ∷ []) r.commit_chan.items),
          (first.1 ∙ h.1.0, omega (arith, h.1, ap length first.0)),
        )

calls-Accounts_from : (t : Trace) (cs : List Call) → Accounts t → Accounts (calls t cs)
unfolding calls
calls-Accounts_from t [] h = h
calls-Accounts_from t (c ∷ cs) h = calls-Accounts_from (call t c) cs (call-Accounts t c h)

-- Whatever calls are made of a new engine, in any order and under any contexts, and whoever leads:
-- what was received, with what waits in the channel behind it, is just the accepted proposals, each
-- once and in the order of acceptance; at most 1000 wait; when a receive has to wait, all accepted
-- proposals have been received. While less than 1000 wait, a leader accepts a further proposal under a
-- context that is not done, behind those that wait; a node that does not lead refuses it and keeps
-- its state.
pub raft_calls-Accounts :
    (node_id : Bytes) (is_leader : Bool) (cs : List Call)
    → let t = calls (trace_of_new node_id is_leader) cs in
      (t.accepted ≡ t.delivered ++ t.engine.commit_chan.items)
      × (length t.engine.commit_chan.items ≤ 1000)
      × (raft_commit t.engine ≡ none → t.accepted ≡ t.delivered)
      × ((d : Bytes)
          → t.engine.is_leader ≡ true
          → length t.engine.commit_chan.items < 1000
          → (r : RaftConsensus) × (raft_propose never t.engine d ≡ some (r, none))
            × (r.commit_chan.items ≡ t.engine.commit_chan.items ++ d ∷ []))
      × ((d : Bytes) (sel : Select)
          → t.engine.is_leader ≡ false
          → (e : Error) × (raft_propose sel t.engine d ≡ some (t.engine, some e)))
unfolding raft_propose proposed select_send with_room sent
raft_calls-Accounts node_id is_leader cs =
    let t = calls (trace_of_new node_id is_leader) cs in
    let h =
      calls-Accounts_from (trace_of_new node_id is_leader) cs
        (unfold new_raft_consensus make_chan in (refl, (refl, ground arith))) in
    (
      h.0,
      h.1.1,
      λ w. h.0 ∙ ap (◌++◌ t.delivered) (raft_commit-none t.engine w) ∙ append-nil t.delivered,
      λ d leads room.
          let fits : ltb (length t.engine.commit_chan.items) t.engine.commit_chan.cap ≡ true =
            ltb_of h.1.0 room in
          (
            record t.engine {
              commit_chan = record t.engine.commit_chan {
                items = t.engine.commit_chan.items ++ d ∷ [];
              };
            },
            rw (leads, fits) refl,
            refl,
          ),
      λ d sel follows.
          (lit "node " ++ (t.engine.node_id ++ lit " is not the Raft leader"), rw follows refl),
    )
  where
    ltb_of : {k n m : ℕ} → n ≡ m → k < m → ltb k n ≡ true
    ltb_of e h = ground arith
