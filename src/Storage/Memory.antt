-- ===== src/Storage/Memory.antt =====
-- modules/storage/memory.go: the in-memory storage, which implements `interfaces.Storage`.
use node_decent_system.Prelude.{
  ◌≡◌, refl, Bool, true, false, Option, none, some, [], Result, ok, err, if◌then◌else◌, Bytes,
  Error, lit, str_eq,
}
use node_decent_system.GoMap.{GoMap, IsMap, get-put, get-delete, put-IsMap, delete-IsMap}
use node_decent_system.GoMap
use node_decent_system.Interfaces.{Storage, StorageLaws}

pub record MemoryStorage : Type 0 where
  pub entries : GoMap Bytes

unfoldable pub new_memory_storage : MemoryStorage
new_memory_storage = record { entries = [] }

unfoldable pub put : MemoryStorage → Bytes → Bytes → MemoryStorage × Option Error
put m key value = (record { entries = GoMap.put m.entries key value }, none)

abbrev found : Option Bytes → Result Error Bytes
found none = err (lit "key not found in memory storage")
found (some v) = ok v

unfoldable pub get : MemoryStorage → Bytes → Result Error Bytes
get m key = found (GoMap.get m.entries key)

unfoldable pub delete : MemoryStorage → Bytes → MemoryStorage × Option Error
delete m key = (record { entries = GoMap.delete m.entries key }, none)

unfoldable pub close : MemoryStorage → MemoryStorage × Option Error
close m = (record { entries = [] }, none)

-- The backend behind the interface.
abbrev pub memory_storage : Storage
memory_storage = record {
  Store = MemoryStorage;
  put = put;
  get = get;
  delete = delete;
  close = close;
}

found-if :
    (b : Bool) (x y : Option Bytes) → found (if b then x else y) ≡ (if b then found x else found y)
found-if true x y = refl
found-if false x y = refl

-- A value that was put is read back, a deleted key is missing, and other keys are not touched.
pub memory_storage-laws : StorageLaws memory_storage
unfolding put get delete
memory_storage-laws = record {
  get-put = λ s k v j h. rw (get-put s.entries k j v) (found-if (str_eq k j) _ _);
  missing = lit "key not found in memory storage";
  get-delete = λ s k j h. rw (get-delete s.entries k j) (found-if (str_eq k j) _ _);
}

-- The error of a missing key.
pub missing-memory_storage : memory_storage-laws.missing ≡ lit "key not found in memory storage"
unfolding memory_storage-laws
missing-memory_storage = refl
