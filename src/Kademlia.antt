-- ===== src/Kademlia.antt =====
-- modules/networking/kademlia.go: the table of peers, in 256 buckets, and the peers' scores.
pub mod Distance
pub mod Buckets
pub mod Table
use node_decent_system.Prelude.{
  ℕ, zero, suc, ◌+◌, ◌-◌, ◌%◌, ◌^◌, Bool, true, false, Option, none, some, List, [], ◌∷◌, ◌++◌,
  Bytes, ltb, if◌then◌else◌, str_eq, length,
}
use node_decent_system.GoMap.{GoMap, get, put}
use node_decent_system.Kademlia.Distance.{xor_bytes, set_bytes, bit_len}

-- `Score` is an `int`: a word of 64 bits, read modulo 2 ^ 64.
pub record PeerInfo : Type 0 where
  pub id : Bytes
  pub address : Bytes
  pub score : ℕ
  pub last_seen : Bytes
  pub latency_ms : ℕ

pub record KademliaDht : Type 0 where
  pub local_node_id : Bytes
  pub buckets : List (List PeerInfo)
  pub peer_scores : GoMap ℕ

-- The loop of the constructor.
pub empty_buckets : ℕ → List (List PeerInfo)
empty_buckets zero = []
empty_buckets (suc n) = [] ∷ empty_buckets n

unfoldable pub new_kademlia_dht : Bytes → KademliaDht
unfolding empty_buckets
new_kademlia_dht node_id = record {
  local_node_id = node_id;
  buckets = empty_buckets 256;
  peer_scores = [];
}

-- `a + b` on words of 64 bits.
abbrev pub add64 : ℕ → ℕ → ℕ
add64 a b = (a + b) % 2 ^ 64

-- A missing key reads as 0.
abbrev pub score_or_zero : Option ℕ → ℕ
score_or_zero none = 0
score_or_zero (some s) = s

-- `k.buckets[i]`, of an index in range.
unfoldable pub bucket_at : List (List PeerInfo) → ℕ → List PeerInfo
bucket_at [] i = []
bucket_at (b ∷ bs) zero = b
bucket_at (b ∷ bs) (suc i) = bucket_at bs i

unfoldable pub set_bucket : List (List PeerInfo) → ℕ → List PeerInfo → List (List PeerInfo)
set_bucket [] i c = []
set_bucket (b ∷ bs) zero c = c ∷ bs
set_bucket (b ∷ bs) (suc i) c = b ∷ set_bucket bs i c

-- The loop over the bucket: whether it has the peer, and the bucket with it replaced.
unfoldable pub known : Bytes → List PeerInfo → Bool
known i [] = false
known i (p ∷ ps) = let rest = known i ps in if str_eq p.id i then true else rest

unfoldable pub replace : PeerInfo → List PeerInfo → List PeerInfo
replace peer [] = []
replace peer (p ∷ ps) =
    let rest = replace peer ps in if str_eq p.id peer.id then peer ∷ ps else p ∷ rest

-- `append`, up to the capacity.
unfoldable pub append_below_20 : PeerInfo → List PeerInfo → List PeerInfo
append_below_20 peer ps = if ltb (length ps) 20 then ps ++ peer ∷ [] else ps

unfoldable pub get_peer_score : KademliaDht → Bytes → ℕ
get_peer_score k peer_id = score_or_zero (get k.peer_scores peer_id)

unfoldable pub adjust_peer_score : KademliaDht → Bytes → ℕ → KademliaDht
adjust_peer_score k peer_id delta = record k {
  peer_scores = put k.peer_scores peer_id (add64 (get_peer_score k peer_id) delta);
}

-- What a node does with its table.
pub data Operation : Type 0 where
  add : PeerInfo → Operation
  adjust : Bytes → ℕ → Operation

-- The hash is not part of this code.
module _ (sha256 : Bytes → Bytes) where
  unfoldable pub xor_distance : Bytes → Bytes → ℕ
  xor_distance local target = set_bytes (xor_bytes (sha256 local) (sha256 target))

  -- `dist.BitLen() - 1`, brought into 0, …, 255; the subtraction from 0 stops at 0, where the code
  -- has -1 and sets it to 0.
  unfoldable pub bucket_index : Bytes → Bytes → ℕ
  bucket_index local target =
      let i = bit_len (xor_distance local target) - 1 in if ltb i 256 then i else 255

  unfoldable pub add_peer : KademliaDht → PeerInfo → KademliaDht
  add_peer k peer =
      let i = bucket_index k.local_node_id peer.id in
      let bucket = bucket_at k.buckets i in
      if known peer.id bucket
      then (record k { buckets = set_bucket k.buckets i (replace peer bucket) })
      else (record k {
        buckets = set_bucket k.buckets i (append_below_20 peer bucket);
        peer_scores = put k.peer_scores peer.id peer.score;
      })

  unfoldable pub perform : KademliaDht → List Operation → KademliaDht
  perform k [] = k
  perform k (add peer ∷ os) = perform (add_peer k peer) os
  perform k (adjust peer_id delta ∷ os) = perform (adjust_peer_score k peer_id delta) os
