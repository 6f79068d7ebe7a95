-- ===== src/Storage/Pebble.antt =====
-- modules/storage/pebble.go: the storage on disk. Pebble and the file system are parameters.
use node_decent_system.Prelude.{
  ◌≡◌, refl, sym, ap, false, ◌∙◌, Bool-cases, inl, inr, Option, none, some, [], ◌∷◌, ◌++◌, Result,
  ok, err, Bytes, Error, lit, str_eq, str_eq_iff,
}
use node_decent_system.Interfaces.{Storage, StorageLaws}

-- What the calls of the library return. A read returns the value with a closer, which is called
-- once the value is copied.
pub record PebbleLib : Type 1 where
  pub Db : Type 0
  pub mkdir_all : Bytes → Option Error
  pub open_db : Bytes → Result Error Db
  pub set_sync : Db → Bytes → Bytes → Db × Option Error
  pub get : Db → Bytes → Result Error Bytes
  pub delete_sync : Db → Bytes → Db × Option Error
  pub close : Db → Db × Option Error

-- What Pebble documents: a synced write is visible to the reads after it, `ErrNotFound` is the
-- error of a missing key.
pub record PebbleLaws (lib : PebbleLib) : Type 0 where
  pub not_found : Error
  pub get-set :
      (db : lib.Db) (k v : Bytes)
      → (lib.set_sync db k v).1 ≡ none
      → lib.get (lib.set_sync db k v).0 k ≡ ok v
  pub get-set_other :
      (db : lib.Db) (k v j : Bytes)
      → (lib.set_sync db k v).1 ≡ none
      → str_eq k j ≡ false
      → lib.get (lib.set_sync db k v).0 j ≡ lib.get db j
  pub get-delete :
      (db : lib.Db) (k : Bytes)
      → (lib.delete_sync db k).1 ≡ none
      → lib.get (lib.delete_sync db k).0 k ≡ err not_found
  pub get-delete_other :
      (db : lib.Db) (k j : Bytes)
      → (lib.delete_sync db k).1 ≡ none
      → str_eq k j ≡ false
      → lib.get (lib.delete_sync db k).0 j ≡ lib.get db j

module _ (lib : PebbleLib) where
  pub record PebbleStorage : Type 0 where
    pub db : lib.Db

  opened : Result Error lib.Db → Result Error PebbleStorage
  opened (err e) = err (lit "failed to open pebble db: " ++ e)
  opened (ok db) = ok (record { db = db })

  at_directory : Option Error → Result Error lib.Db → Result Error PebbleStorage
  unfolding opened
  at_directory (some e) db = err (lit "failed to create storage directory: " ++ e)
  at_directory none db = opened db

  unfoldable pub new_pebble_storage : Bytes → Result Error PebbleStorage
  unfolding at_directory
  new_pebble_storage path = at_directory (lib.mkdir_all path) (lib.open_db path)

  unfoldable pub put : PebbleStorage → Bytes → Bytes → PebbleStorage × Option Error
  put p key value = let (db', e) = lib.set_sync p.db key value in (record { db = db' }, e)

  -- The loop of `copy` into a buffer of the same length.
  copied : Bytes → Bytes
  copied [] = []
  copied (b ∷ bs) = b ∷ copied bs

  value_or_error : Result Error Bytes → Result Error Bytes
  unfolding copied
  value_or_error (err e) = err e
  value_or_error (ok v) = ok (copied v)

  unfoldable pub get : PebbleStorage → Bytes → Result Error Bytes
  unfolding value_or_error
  get p key = value_or_error (lib.get p.db key)

  unfoldable pub delete : PebbleStorage → Bytes → PebbleStorage × Option Error
  delete p key = let (db', e) = lib.delete_sync p.db key in (record { db = db' }, e)

  unfoldable pub close : PebbleStorage → PebbleStorage × Option Error
  close p = let (db', e) = lib.close p.db in (record { db = db' }, e)

  -- The backend behind the interface.
  abbrev pub pebble_storage : Storage
  pebble_storage = record {
    Store = PebbleStorage;
    put = put;
    get = get;
    delete = delete;
    close = close;
  }

  copied_same : (v : Bytes) → copied v ≡ v
  unfolding copied
  copied_same [] = refl
  copied_same (b ∷ bs) = ap (◌∷◌ b) (copied_same bs)

  value_or_error_same : (r : Result Error Bytes) → value_or_error r ≡ r
  unfolding value_or_error
  value_or_error_same (err e) = refl
  value_or_error_same (ok v) = ap ok (copied_same v)

  -- A storage on Pebble keeps the laws of the storage interface, like the one in memory: what was
  -- put is read back as a copy, a deleted key is missing, and other keys are not touched.
  pub pebble_storage-laws : PebbleLaws lib → StorageLaws pebble_storage
  unfolding put get delete
  pebble_storage-laws laws = record {
    get-put = λ s k v j h.
        value_or_error_same (lib.get (lib.set_sync s.db k v).0 j) ∙ elim (Bool-cases (str_eq k j)) [
          | inl e ↦ rw (e, ← (str_eq_iff k j).0 e) (laws.get-set s.db k v h)
          | inr e ↦
              rw e (laws.get-set_other s.db k v j h e ∙ sym (value_or_error_same (lib.get s.db j)))
        ];
    missing = laws.not_found;
    get-delete = λ s k j h.
        value_or_error_same (lib.get (lib.delete_sync s.db k).0 j)
        ∙ elim (Bool-cases (str_eq k j)) [
          | inl e ↦ rw (e, ← (str_eq_iff k j).0 e) (laws.get-delete s.db k h)
          | inr e ↦
              rw e (laws.get-delete_other s.db k j h e ∙ sym (value_or_error_same (lib.get s.db j)))
        ];
  }
