-- ===== src/Consensus/Raft/Log/Shape.antt =====
-- raft_engine.go: the numbering of the log's entries, from the snapshot on.
use node_decent_system.Prelude.{
  ℕ, zero, suc, ◌+◌, ◌≤◌, ◌<◌, ◌≡◌, refl, some, List, [], ◌∷◌, ◌++◌, arith, length, get_elem?, take,
  drop,
}
use node_decent_system.Consensus.Raft.Types.{LogEntry, RaftEngine, last_index, get_last_log_index}

-- The entries are numbered from `i` on.
abbrev pub Contiguous : ℕ → List LogEntry → Type 0
Contiguous i [] = Unit
Contiguous i (e ∷ es) = (e.index ≡ i) × Contiguous (suc i) es

-- The first slot stands for the snapshot, the others follow it, and the commit index is in the log.
pub record WellFormed {Store : Type 0} (re : RaftEngine Store) : Type 0 where
  pub contiguous : Contiguous re.snapshot.last_included_index re.log
  pub nonempty : 0 < length re.log
  pub committed : re.commit_index ≤ get_last_log_index re

pub last_index-Contiguous :
    (i d : ℕ) (log : List LogEntry)
    → Contiguous i log
    → 0 < length log
    → last_index d log + 1 ≡ i + length log
last_index-Contiguous i d [] c h = absurd (omega arith)
last_index-Contiguous i d (e ∷ []) c h = omega arith
last_index-Contiguous i d (e ∷ f ∷ es) c h =
    omega (arith, last_index-Contiguous (suc i) e.index (f ∷ es) c.1 (omega arith))

pub Contiguous-at : (m n : ℕ) (xs : List LogEntry) → m ≡ n → Contiguous m xs → Contiguous n xs
Contiguous-at m n xs e c = rw (← e) c

pub Contiguous-append :
    (i : ℕ) (xs ys : List LogEntry)
    → Contiguous i xs
    → Contiguous (i + length xs) ys
    → Contiguous i (xs ++ ys)
Contiguous-append i [] ys c d = Contiguous-at (i + 0) i ys (omega arith) d
Contiguous-append i (x ∷ xs) ys c d = (
  c.0,
  Contiguous-append (suc i) xs ys c.1
      (Contiguous-at (i + suc (length xs)) (suc i + length xs) ys (omega arith) d),
)

pub Contiguous-take : (n i : ℕ) (xs : List LogEntry) → Contiguous i xs → Contiguous i (take n xs)
Contiguous-take zero i xs c = tt
Contiguous-take (suc n) i [] c = tt
Contiguous-take (suc n) i (x ∷ xs) c = (c.0, Contiguous-take n (suc i) xs c.1)

pub Contiguous-drop :
    (n i : ℕ) (xs : List LogEntry) → Contiguous i xs → Contiguous (i + n) (drop n xs)
Contiguous-drop zero i xs c = Contiguous-at i (i + 0) xs (omega arith) c
Contiguous-drop (suc n) i [] c = tt
Contiguous-drop (suc n) i (x ∷ xs) c =
    Contiguous-at (suc i + n) (i + suc n) (drop n xs) (omega arith)
      (Contiguous-drop n (suc i) xs c.1)

pub index-get_elem? :
    (k i : ℕ) (xs : List LogEntry) (e : LogEntry)
    → Contiguous i xs
    → get_elem? xs k ≡ some e
    → e.index ≡ i + k
index-get_elem? k i [] e c h = absurd (ground arith)
index-get_elem? zero i (x ∷ xs) e c h = ground arith
index-get_elem? (suc k) i (x ∷ xs) e c h = omega (arith, index-get_elem? k (suc i) xs e c.1 h)

pub get_elem?-lt :
    (k : ℕ) (xs : List LogEntry) (e : LogEntry) → get_elem? xs k ≡ some e → k < length xs
get_elem?-lt k [] e h = absurd (ground arith)
get_elem?-lt zero (x ∷ xs) e h = omega arith
get_elem?-lt (suc k) (x ∷ xs) e h = omega (arith, get_elem?-lt k xs e h)

pub last_index-append :
    (d : ℕ) (xs ys : List LogEntry) → last_index d (xs ++ ys) ≡ last_index (last_index d xs) ys
last_index-append d [] ys = refl
last_index-append d (x ∷ xs) ys = last_index-append x.index xs ys
