-- ===== src/Consensus/Service.antt =====
-- What the clients of a consensus engine see, if it is one that keeps ConsensusLaws.
use node_decent_system.Prelude.{
  ◌≡◌, refl, sym, ap, ◌∙◌, Option, none, some, List, [], ◌∷◌, ◌++◌, Bytes, Error,
}
use mathlib.Core.List.{append-nil, append_assoc}
use node_decent_system.Interfaces.{Select, Consensus, ConsensusLaws}

-- A client's call.
pub data Call : Type 0 where
  proposes : Select → Bytes → Call
  receives : Call

module _ (C : Consensus) where
  -- The engine, the proposals that it has accepted, and the entries that were received from it.
  pub record Trace : Type 0 where
    pub state : C.State
    pub accepted : List Bytes
    pub delivered : List Bytes

  -- A call that waits leaves all as it is.
  after_propose : Trace → Bytes → Option (C.State × Option Error) → Trace
  after_propose t d none = t
  after_propose t d (some (s, none)) = record t { state = s; accepted = t.accepted ++ d ∷ [] }
  after_propose t d (some (s, some e)) = record t { state = s }

  after_commit : Trace → Option (Bytes × C.State) → Trace
  after_commit t none = t
  after_commit t (some (d, s)) = record t { state = s; delivered = t.delivered ++ d ∷ [] }

  unfoldable pub call : Trace → Call → Trace
  unfolding after_propose after_commit
  call t (proposes sel d) = after_propose t d (C.propose sel t.state d)
  call t receives = after_commit t (C.commit t.state)

  unfoldable pub calls : Trace → List Call → Trace
  calls t [] = t
  calls t (c ∷ cs) = calls (call t c) cs

module _ (C : Consensus) (laws : ConsensusLaws C) where
  -- All that was accepted was received or waits in the engine, in order.
  abbrev pub Accounts : Trace C → Type 0
  Accounts t = t.accepted ≡ t.delivered ++ laws.backlog t.state

  call-Accounts : (t : Trace C) (c : Call) → Accounts t → Accounts (call C t c)
  unfolding call
  call-Accounts t (proposes sel d) h = settled (C.propose sel t.state d) refl
    where
      settled :
          (o : Option (C.State × Option Error))
          → C.propose sel t.state d ≡ o
          → Accounts (after_propose C t d o)
      settled none e = h
      settled (some (s, none)) e =
          ap (λ xs. xs ++ d ∷ []) h
          ∙ append_assoc t.delivered (laws.backlog t.state) (d ∷ [])
          ∙ ap (◌++◌ t.delivered) (sym (laws.propose-ok sel t.state s d e))
      settled (some (s, some x)) e =
          h ∙ ap (◌++◌ t.delivered) (sym (laws.propose-err sel t.state s d x e))
  call-Accounts t receives h = settled (C.commit t.state) refl
    where
      settled :
          (o : Option (Bytes × C.State)) → C.commit t.state ≡ o → Accounts (after_commit C t o)
      settled none e = h
      settled (some (d, s)) e =
          h
          ∙ ap (◌++◌ t.delivered) (laws.commit-some t.state s d e)
          ∙ sym (append_assoc t.delivered (d ∷ []) (laws.backlog s))

  -- Whatever calls clients make, and whichever of them wait or fail, an engine that keeps the laws
  -- delivers just the proposals that it has accepted, each once and in the order of acceptance;
  -- when a receive waits, all of them are delivered.
  pub calls-Accounts :
      (t : Trace C) (cs : List Call)
      → Accounts t
      → Accounts (calls C t cs)
        × (C.commit (calls C t cs).state ≡ none
            → (calls C t cs).accepted ≡ (calls C t cs).delivered)
  unfolding calls
  calls-Accounts t [] h = (
    h,
    λ waits. h ∙ ap (◌++◌ t.delivered) (laws.commit-none t.state waits) ∙ append-nil t.delivered,
  )
  calls-Accounts t (c ∷ cs) h = calls-Accounts (call C t c) cs (call-Accounts t c h)
