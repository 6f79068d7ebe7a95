-- ===== src/Consensus/Simple/Laws.antt =====
-- mock.go, pow.go and raft.go: what a send and a receive do to the channel of an engine.
use node_decent_system.Prelude.{
  ◌≡◌, refl, sym, ap, ap₂, ◌∙◌, Option-cases, pair_injective, none-ne-some, Bool, true, false,
  Bool-cases, Option, none, some, inl, inr, List, [], ◌∷◌, ◌++◌, ltb, if◌then◌else◌, Bytes, Error,
  lit, length,
}
use node_decent_system.Chan.{Chan, receive}
use node_decent_system.Interfaces.{Select, ConsensusLaws}
use node_decent_system.Consensus.Simple.{
  sent, with_room, without_room, select_send, never, plain_send, RaftConsensus, proposed, received,
  mock_propose, pow_propose, raft_propose, mock_commit, pow_commit, raft_commit, mock_consensus,
  pow_consensus, raft_consensus,
}

-- What a send does to the channel, as the value is taken or not.
unfoldable pub kept : List Bytes → Bytes → Option Error → List Bytes
kept xs d none = xs ++ d ∷ []
kept xs d (some e) = xs

with_room-kept :
    (takes_done : Bool) (c c' : Chan Bytes) (d : Bytes) (o e : Option Error)
    → with_room takes_done c d o ≡ some (c', e)
    → c'.items ≡ kept c.items d e
unfolding with_room sent kept
with_room-kept t c c' d none e h =
    let (same, none_failed) = pair_injective h in
    sym (ap (λ x. x.items) same) ∙ ap (kept c.items d) none_failed
with_room-kept true c c' d (some x) e h =
    let (same, failed) = pair_injective h in
    sym (ap (λ x. x.items) same) ∙ ap (kept c.items d) failed
with_room-kept false c c' d (some x) e h =
    let (same, none_failed) = pair_injective h in
    sym (ap (λ x. x.items) same) ∙ ap (kept c.items d) none_failed

without_room-kept :
    (c c' : Chan Bytes) (d : Bytes) (o e : Option Error)
    → without_room c o ≡ some (c', e)
    → c'.items ≡ kept c.items d e
unfolding without_room kept
without_room-kept c c' d none e h = absurd (none-ne-some h)
without_room-kept c c' d (some x) e h =
    let (same, failed) = pair_injective h in
    sym (ap (λ x. x.items) same) ∙ ap (kept c.items d) failed

select_send-kept :
    (sel : Select) (c c' : Chan Bytes) (d : Bytes) (e : Option Error)
    → select_send sel c d ≡ some (c', e)
    → c'.items ≡ kept c.items d e
unfolding select_send
select_send-kept sel c c' d e h = elim (Bool-cases (ltb (length c.items) c.cap)) [
  | inl room ↦ with_room-kept sel.takes_done c c' d sel.done e (
      sym (
        ap (λ b. if b then with_room sel.takes_done c d sel.done else without_room c sel.done) room)
      ∙ h)
  | inr full ↦ without_room-kept c c' d sel.done e (
      sym (
        ap (λ b. if b then with_room sel.takes_done c d sel.done else without_room c sel.done) full)
      ∙ h)
]

-- A receive takes the first value, and waits for an empty buffer only.
module _ {State : Type 0} (chan_of : State → Chan Bytes) (with_chan : Chan Bytes → State)
    (back : (c : Chan Bytes) → chan_of (with_chan c) ≡ c) where
  proposed-kept :
      (sel : Select) (c : Chan Bytes) (s' : State) (d : Bytes) (e : Option Error)
      → proposed with_chan (select_send sel c d) ≡ some (s', e)
      → (chan_of s').items ≡ kept c.items d e
  unfolding proposed
  proposed-kept sel c s' d e h = elim (Option-cases (select_send sel c d)) [
    | inl n ↦ absurd (none-ne-some (sym (ap (proposed with_chan) n) ∙ h))
    | inr ((c', e'), n) ↦
        let (same, same_error) = pair_injective (sym (ap (proposed with_chan) n) ∙ h) in
        ap (λ s. (chan_of s).items) (sym same)
        ∙ ap (λ x. x.items) (back c')
        ∙ select_send-kept sel c c' d e' n
        ∙ ap (kept c.items d) same_error
  ]

  received-some :
      (c : Chan Bytes) (s' : State) (d : Bytes)
      → received with_chan (receive c) ≡ some (d, s')
      → c.items ≡ d ∷ (chan_of s').items
  unfolding received receive
  received-some c s' d h = oldest c.items h
    where
      oldest :
          (xs : List Bytes)
          → received with_chan (receive (record { cap = c.cap; items = xs })) ≡ some (d, s')
          → xs ≡ d ∷ (chan_of s').items
      oldest [] h = absurd (none-ne-some h)
      oldest (x ∷ xs) h =
          let (same, rest) = pair_injective h in
          ap₂ ◌∷◌ same (
            sym (
              ap (λ s. (chan_of s).items) (sym rest)
              ∙ ap (λ k. k.items) (back (record { cap = c.cap; items = xs }))))

  received-none : (c : Chan Bytes) → received with_chan (receive c) ≡ none → c.items ≡ []
  unfolding received receive
  received-none c h = oldest c.items h
    where
      oldest :
          (xs : List Bytes)
          → received with_chan (receive (record { cap = c.cap; items = xs })) ≡ none
          → xs ≡ []
      oldest [] h = refl
      oldest (x ∷ xs) h = absurd (none-ne-some (sym h))

  received-cap :
      (c : Chan Bytes) (s' : State) (d : Bytes)
      → received with_chan (receive c) ≡ some (d, s')
      → (chan_of s').cap ≡ c.cap
  unfolding received receive
  received-cap c s' d h = oldest c.items h
    where
      oldest :
          (xs : List Bytes)
          → received with_chan (receive (record { cap = c.cap; items = xs })) ≡ some (d, s')
          → (chan_of s').cap ≡ c.cap
      oldest [] h = absurd (none-ne-some h)
      oldest (x ∷ xs) h =
          ap (λ s. (chan_of s).cap) (sym (pair_injective h).1)
          ∙ ap (λ k. k.cap) (back (record { cap = c.cap; items = xs }))

-- The three engines keep ConsensusLaws.
pub mock_laws : ConsensusLaws mock_consensus
unfolding mock_propose mock_commit plain_send kept
mock_laws = record {
  backlog = λ m. m.commit_chan.items;
  propose-ok = λ sel s s' d h.
      proposed-kept (λ m. m.commit_chan) (λ c. record s { commit_chan = c }) (λ c. refl) never
        s.commit_chan s' d none h;
  propose-err = λ sel s s' d e h.
      proposed-kept (λ m. m.commit_chan) (λ c. record s { commit_chan = c }) (λ c. refl) never
        s.commit_chan s' d (some e) h;
  commit-some = λ s s' d h.
      received-some (λ m. m.commit_chan) (λ c. record s { commit_chan = c }) (λ c. refl)
        s.commit_chan s' d h;
  commit-none = λ s h.
      received-none (λ m. m.commit_chan) (λ c. record s { commit_chan = c }) (λ c. refl)
        s.commit_chan h;
}

pub pow_laws : ConsensusLaws pow_consensus
unfolding pow_propose pow_commit kept
pow_laws = record {
  backlog = λ m. m.commit_chan.items;
  propose-ok = λ sel s s' d h.
      proposed-kept (λ m. m.commit_chan) (λ c. record s { commit_chan = c }) (λ c. refl) sel
        s.commit_chan s' d none h;
  propose-err = λ sel s s' d e h.
      proposed-kept (λ m. m.commit_chan) (λ c. record s { commit_chan = c }) (λ c. refl) sel
        s.commit_chan s' d (some e) h;
  commit-some = λ s s' d h.
      received-some (λ m. m.commit_chan) (λ c. record s { commit_chan = c }) (λ c. refl)
        s.commit_chan s' d h;
  commit-none = λ s h.
      received-none (λ m. m.commit_chan) (λ c. record s { commit_chan = c }) (λ c. refl)
        s.commit_chan h;
}

pub raft_propose-kept :
    (sel : Select) (r r' : RaftConsensus) (d : Bytes) (e : Option Error)
    → raft_propose sel r d ≡ some (r', e)
    → r'.commit_chan.items ≡ kept r.commit_chan.items d e
unfolding raft_propose kept
raft_propose-kept sel r r' d e h =
    let on_channel =
      proposed (λ c. record r { commit_chan = c }) (select_send sel r.commit_chan d) in
    let refused = some (lit "node " ++ (r.node_id ++ lit " is not the Raft leader")) in
    let choice : Bool → Option (RaftConsensus × Option Error) =
      λ b. if b then on_channel else some (r, refused) in
    elim (Bool-cases r.is_leader) [
      | inl leads ↦
          proposed-kept (λ m. m.commit_chan) (λ c. record r { commit_chan = c }) (λ c. refl) sel
            r.commit_chan r' d e (sym (ap choice leads) ∙ h)
      | inr follows ↦
          let (same, error) = pair_injective (sym (ap choice follows) ∙ h) in
          ap (λ x. x.commit_chan.items) (sym same) ∙ ap (kept r.commit_chan.items d) error
    ]

pub raft_commit-some :
    (r r' : RaftConsensus) (d : Bytes)
    → raft_commit r ≡ some (d, r')
    → (r.commit_chan.items ≡ d ∷ r'.commit_chan.items) × (r'.commit_chan.cap ≡ r.commit_chan.cap)
unfolding raft_commit
raft_commit-some r r' d h = (
  received-some (λ m. m.commit_chan) (λ c. record r { commit_chan = c }) (λ c. refl) r.commit_chan
      r' d h,
  received-cap (λ m. m.commit_chan) (λ c. record r { commit_chan = c }) (λ c. refl) r.commit_chan r'
      d h,
)

pub raft_commit-none : (r : RaftConsensus) → raft_commit r ≡ none → r.commit_chan.items ≡ []
unfolding raft_commit
raft_commit-none r h =
    received-none (λ m. m.commit_chan) (λ c. record r { commit_chan = c }) (λ c. refl) r.commit_chan
      h

pub raft_laws : ConsensusLaws raft_consensus
unfolding raft_commit kept
raft_laws = record {
  backlog = λ r. r.commit_chan.items;
  propose-ok = λ sel s s' d h. raft_propose-kept sel s s' d none h;
  propose-err = λ sel s s' d e h. raft_propose-kept sel s s' d (some e) h;
  commit-some = λ s s' d h. (raft_commit-some s s' d h).0;
  commit-none = λ s h. raft_commit-none s h;
}

-- The entries that wait in a Raft engine are those of its channel.
pub backlog-raft_laws : (r : RaftConsensus) → raft_laws.backlog r ≡ r.commit_chan.items
unfolding raft_laws
backlog-raft_laws r = refl
