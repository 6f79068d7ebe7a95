-- ===== src/Chain/Roots.antt =====
-- state.go: what the root and the storage say of the applied blocks.
use node_decent_system.Prelude.{
  ◌≡◌, refl, subst, sym, ap, ◌∙◌, none, ◌++◌, Result, ok, Bytes, Error, hex, str_eq, str_eq_iff,
  str_eq_refl, ◌≢◌, false, arith,
}
use node_decent_system.Interfaces.{Storage, StorageLaws}
use node_decent_system.Block.{Block}
use node_decent_system.Chain.{ChainState, block_key, advance_root, apply_block, apply}

module _ (S : Storage) (laws : StorageLaws S) (sha256 : Bytes → Bytes) {Tx : Type 0}
    (unmarshal : Bytes → Result Error (Block Tx)) where
  -- A commit that is a block, and that the storage takes, is accepted: the new root is the hash of
  -- the old root with the block's hash, and the storage has the commit under the block's index.
  pub apply_lem :
      (cs : ChainState S.Store) (log : Bytes) (b : Block Tx)
      → unmarshal log ≡ ok b
      → (S.put cs.storage (block_key b.index) log).1 ≡ none
      → ((apply S sha256 unmarshal cs log).1 ≡ ok ((apply S sha256 unmarshal cs log).0).state_root)
        × (((apply S sha256 unmarshal cs log).0).state_root
            ≡ hex (sha256 (cs.state_root ++ b.hash)))
        × (S.get ((apply S sha256 unmarshal cs log).0).storage (block_key b.index) ≡ ok log)
  unfolding apply apply_block advance_root
  apply_lem cs log b decoded stored =
      let split : S.put cs.storage (block_key b.index) log
          ≡ ((S.put cs.storage (block_key b.index) log).0, none) =
        ap (λ o. ((S.put cs.storage (block_key b.index) log).0, o)) stored in
      let run : apply S sha256 unmarshal cs log
          ≡ advance_root S sha256 unmarshal cs b
              ((S.put cs.storage (block_key b.index) log).0, none) =
        rw (decoded, apply) (ap (advance_root S sha256 unmarshal cs b) split) in
      subst
        (λ out.
          (out.1 ≡ ok (out.0).state_root)
          × ((out.0).state_root ≡ hex (sha256 (cs.state_root ++ b.hash)))
          × (S.get (out.0).storage (block_key b.index) ≡ ok log))
        (sym run)
        (
          refl,
          refl,
          laws.get-put cs.storage (block_key b.index) log (block_key b.index) stored
              ∙ rw (str_eq_refl (block_key b.index)) refl,
        )

  -- An accepted commit leaves what the storage has under other keys than that of its block.
  pub get-apply_other :
      (cs : ChainState S.Store) (log : Bytes) (b : Block Tx) (k : Bytes)
      → unmarshal log ≡ ok b
      → (S.put cs.storage (block_key b.index) log).1 ≡ none
      → k ≢ block_key b.index
      → S.get (apply S sha256 unmarshal cs log).0.storage k ≡ S.get cs.storage k
  unfolding apply apply_block advance_root
  get-apply_other cs log b k decoded stored other =
      let split : S.put cs.storage (block_key b.index) log
          ≡ ((S.put cs.storage (block_key b.index) log).0, none) =
        ap (λ o. ((S.put cs.storage (block_key b.index) log).0, o)) stored in
      let run : apply S sha256 unmarshal cs log
          ≡ advance_root S sha256 unmarshal cs b
              ((S.put cs.storage (block_key b.index) log).0, none) =
        rw (decoded, apply) (ap (advance_root S sha256 unmarshal cs b) split) in
      let differ : str_eq (block_key b.index) k ≡ false =
        ground (arith, str_eq_iff (block_key b.index) k) in
      subst (λ out. S.get (out.0).storage k ≡ S.get cs.storage k) (sym run)
        (laws.get-put cs.storage (block_key b.index) log k stored ∙ rw differ refl)
