-- ===== src/Kademlia/Distance.antt =====
-- kademlia.go: the XOR distance between two nodes and the bucket that it selects, on the
-- big-endian number that `big.Int` makes of bytes.
use Prim.Native.Nat.{bit_xor}
use native.Mathlib.Nat.{pow-suc, mul_assoc, mul_comm}
use node_decent_system.Prelude.{
  ℕ, zero, suc, ◌+◌, ◌*◌, ◌/◌, ◌^◌, ◌≤◌, ◌<◌, ◌≡◌, ◌↔◌, refl, sym, ap, ap₂, subst, ◌∙◌, Bool, true,
  false, if◌then◌else◌, [], ◌∷◌, arith, ltb, ltb→lt, ◌==◌, ==_iff, Bytes, length, All,
}

-- `h1[i] ^ h2[i]` for each index of two digests of one length.
unfoldable pub xor_bytes : Bytes → Bytes → Bytes
xor_bytes [] ys = []
xor_bytes (x ∷ xs) [] = []
xor_bytes (x ∷ xs) (y ∷ ys) = bit_xor x y ∷ xor_bytes xs ys

-- `new(big.Int).SetBytes(b)`, from the number of the bytes before.
value_from : ℕ → Bytes → ℕ
value_from acc [] = acc
value_from acc (b ∷ bs) = value_from (acc * 256 + b) bs

unfoldable pub set_bytes : Bytes → ℕ
unfolding value_from
set_bytes bs = value_from 0 bs

-- `BitLen`: how often the number can be halved until it is 0; the number itself is fuel enough.
bits_from : ℕ → ℕ → ℕ
bits_from zero n = 0
bits_from (suc f) zero = 0
bits_from (suc f) (suc n) = suc (bits_from f (suc n / 2))

unfoldable pub bit_len : ℕ → ℕ
unfolding bits_from
bit_len n = bits_from n n

-- A test of each of the numbers 0, …, n - 1, which is run.
each_passes : (ℕ → Bool) → ℕ → Bool
each_passes test zero = true
each_passes test (suc n) = if test n then each_passes test n else false

each_passes-lt : (test : ℕ → Bool) (n k : ℕ) → k < n → each_passes test n ≡ true → test k ≡ true
unfolding each_passes
each_passes-lt test zero k below run = absurd (omega arith)
each_passes-lt test (suc n) k below run = ground (arith, each_passes-lt test n k)

-- Two equal tests.
same_test : Bool → Bool → Bool
same_test true b = b
same_test false true = false
same_test false false = true

same_test_sound : (a b : Bool) → same_test a b ≡ true → a ≡ b
unfolding same_test
same_test_sound true true h = refl
same_test_sound true false h = sym h
same_test_sound false true h = h
same_test_sound false false h = refl

-- Over all pairs of bytes.
all_bytes : (ℕ → ℕ → Bool) → Bool
unfolding each_passes
all_bytes p = each_passes (λ a. each_passes (p a) 256) 256

module _ (a b : ℕ) (ha : a < 256) (hb : b < 256) where
  all_bytes_sound : (p : ℕ → ℕ → Bool) → all_bytes p ≡ true → p a b ≡ true
  unfolding all_bytes
  all_bytes_sound p h =
      each_passes-lt (p a) 256 b hb (each_passes-lt (λ a. each_passes (p a) 256) 256 a ha h)

  bit_xor_byte : bit_xor a b < 256
  unfolding all_bytes each_passes
  bit_xor_byte = ltb→lt _ _ (all_bytes_sound (λ a b. ltb (bit_xor a b) 256) table)
    where
      table : all_bytes (λ a b. ltb (bit_xor a b) 256) ≡ true
      table = refl

  bit_xor_comm : bit_xor a b ≡ bit_xor b a
  unfolding all_bytes each_passes
  bit_xor_comm = (==_iff _ _).0 (all_bytes_sound (λ a b. bit_xor a b == bit_xor b a) table)
    where
      table : all_bytes (λ a b. bit_xor a b == bit_xor b a) ≡ true
      table = refl

  bit_xor_zero_test : (bit_xor a b == 0) ≡ (a == b)
  unfolding all_bytes each_passes same_test
  bit_xor_zero_test =
      same_test_sound (bit_xor a b == 0) (a == b)
        (all_bytes_sound (λ a b. same_test (bit_xor a b == 0) (a == b)) table)
    where
      table : all_bytes (λ a b. same_test (bit_xor a b == 0) (a == b)) ≡ true
      table = refl

  bit_xor_zero : bit_xor a b ≡ 0 → a ≡ b
  bit_xor_zero h = (==_iff a b).0 (sym bit_xor_zero_test ∙ (==_iff (bit_xor a b) 0).1 h)

bit_xor_self : (a : ℕ) → a < 256 → bit_xor a a ≡ 0
bit_xor_self a h = (==_iff (bit_xor a a) 0).0 (bit_xor_zero_test a a h h ∙ (==_iff a a).1 refl)

-- What SHA-256 returns.
abbrev pub AreBytes : Bytes → Type 0
AreBytes = All (λ b. b < 256)

abbrev pub IsDigest : Bytes → Type 0
IsDigest bs = (length bs ≡ 32) × AreBytes bs

xor_bytes-AreBytes : (xs ys : Bytes) → AreBytes xs → AreBytes ys → AreBytes (xor_bytes xs ys)
unfolding xor_bytes
xor_bytes-AreBytes [] ys hx hy = tt
xor_bytes-AreBytes (x ∷ xs) [] hx hy = tt
xor_bytes-AreBytes (x ∷ xs) (y ∷ ys) hx hy =
    (bit_xor_byte x y hx.0 hy.0, xor_bytes-AreBytes xs ys hx.1 hy.1)

length-xor_bytes : (xs ys : Bytes) → length xs ≡ length ys → length (xor_bytes xs ys) ≡ length xs
unfolding xor_bytes
length-xor_bytes [] ys h = refl
length-xor_bytes (x ∷ xs) [] h = absurd (omega arith)
length-xor_bytes (x ∷ xs) (y ∷ ys) h = ap suc (length-xor_bytes xs ys (omega arith))

pub xor_bytes_comm : (xs ys : Bytes) → AreBytes xs → AreBytes ys → xor_bytes xs ys ≡ xor_bytes ys xs
unfolding xor_bytes
xor_bytes_comm [] [] hx hy = refl
xor_bytes_comm [] (y ∷ ys) hx hy = refl
xor_bytes_comm (x ∷ xs) [] hx hy = refl
xor_bytes_comm (x ∷ xs) (y ∷ ys) hx hy =
    ap₂ ◌∷◌ (bit_xor_comm x y hx.0 hy.0) (xor_bytes_comm xs ys hx.1 hy.1)

value_from-zero : (acc : ℕ) (bs : Bytes) → value_from acc bs ≡ 0 → (acc ≡ 0) × All (λ b. b ≡ 0) bs
unfolding value_from
value_from-zero acc [] h = (h, tt)
value_from-zero acc (b ∷ bs) h =
    let rest = value_from-zero (acc * 256 + b) bs h in
    let both : (acc ≡ 0) × (b ≡ 0) = (omega (arith, rest.0), omega (arith, rest.0)) in
    (both.0, (both.1, rest.1))

xor_bytes-zero :
    (xs ys : Bytes)
    → length xs ≡ length ys
    → AreBytes xs
    → AreBytes ys
    → All (λ b. b ≡ 0) (xor_bytes xs ys)
    → xs ≡ ys
unfolding xor_bytes
xor_bytes-zero [] [] l hx hy h = refl
xor_bytes-zero [] (y ∷ ys) l hx hy h = absurd (omega arith)
xor_bytes-zero (x ∷ xs) [] l hx hy h = absurd (omega arith)
xor_bytes-zero (x ∷ xs) (y ∷ ys) l hx hy h =
    ap₂ ◌∷◌ (bit_xor_zero x y hx.0 hy.0 h.0) (xor_bytes-zero xs ys (omega arith) hx.1 hy.1 h.1)

value_from-xor_self : (xs : Bytes) → AreBytes xs → value_from 0 (xor_bytes xs xs) ≡ 0
unfolding value_from xor_bytes
value_from-xor_self [] h = refl
value_from-xor_self (x ∷ xs) h = rw (bit_xor_self x h.0) (value_from-xor_self xs h.1)

mul_mono : (a b p : ℕ) → a ≤ b → a * p ≤ b * p
mul_mono a b zero h = omega arith
mul_mono a b (suc p) h = omega (arith, mul_mono a b p h)

value_from-bound :
    (acc : ℕ) (bs : Bytes) → AreBytes bs → value_from acc bs < suc acc * 256 ^ length bs
unfolding value_from
value_from-bound acc [] h = omega arith
value_from-bound acc (b ∷ bs) h =
    next_byte (value_from (acc * 256 + b) bs) (256 ^ length bs) (256 ^ suc (length bs))
      (value_from-bound (acc * 256 + b) bs h.1) (pow-suc 256 (length bs))
  where
    next_byte : (v p q : ℕ) → v < suc (acc * 256 + b) * p → q ≡ p * 256 → v < suc acc * q
    next_byte v p q lt e =
        let most = mul_mono (suc (acc * 256 + b)) (suc acc * 256) p (omega arith) in
        let same : suc acc * 256 * p ≡ suc acc * q =
          mul_assoc (suc acc) 256 p ∙ ap (◌*◌ (suc acc)) (mul_comm 256 p ∙ sym e) in
        omega (arith, most, same)

bits_from-below : (f n k : ℕ) → n < 2 ^ k → bits_from f n ≤ k
unfolding bits_from
bits_from-below zero n k h = omega arith
bits_from-below (suc f) zero k h = omega arith
bits_from-below (suc f) (suc n) zero h = absurd (omega arith)
bits_from-below (suc f) (suc n) (suc k) h =
    omega (arith, bits_from-below f (suc n / 2) k (omega arith))

bits_from-range : (f n : ℕ) → n ≤ f → (n < 2 ^ bits_from f n) × (0 < n → 2 ^ bits_from f n ≤ 2 * n)
unfolding bits_from
bits_from-range zero zero h = (omega arith, λ p. absurd (omega arith))
bits_from-range zero (suc n) h = absurd (omega arith)
bits_from-range (suc f) zero h = (omega arith, λ p. absurd (omega arith))
bits_from-range (suc f) (suc n) h =
    half n (2 ^ bits_from f (suc n / 2)) (2 ^ suc (bits_from f (suc n / 2)))
      (bits_from-range f (suc n / 2) (omega arith)) (λ e. rw e (ap (λ k. 2 ^ k) (bits_from_zero f)))
      (pow-suc 2 (bits_from f (suc n / 2)))
  where
    bits_from_zero : (f : ℕ) → bits_from f 0 ≡ 0
    bits_from_zero zero = refl
    bits_from_zero (suc f) = refl

    half :
        (n p q : ℕ)
        → (suc n / 2 < p) × (0 < suc n / 2 → p ≤ 2 * (suc n / 2))
        → (n ≡ 0 → p ≡ 1)
        → q ≡ p * 2
        → (suc n < q) × (0 < suc n → q ≤ 2 * suc n)
    half zero p q h one e = (omega (arith, one refl), λ r. omega (arith, one refl))
    half (suc n) p q h one e = (omega (arith, h.0), λ r. omega (arith, h.1 (omega arith)))

-- A number below 2 ^ k has at most k bits.
pub bit_len-below : (n k : ℕ) → n < 2 ^ k → bit_len n ≤ k
unfolding bit_len
bit_len-below n k h = bits_from-below n n k h

-- The bits of a number that is not 0 locate it between two powers of 2.
pub bit_len-range : (n : ℕ) → (n < 2 ^ bit_len n) × (0 < n → 2 ^ bit_len n ≤ 2 * n)
unfolding bit_len
bit_len-range n = bits_from-range n n (omega arith)

-- Two digests are at a distance below 2 ^ 256, the same both ways, and at 0 just when they are one.
pub xor_bytes-below :
    (xs ys : Bytes) → IsDigest xs → IsDigest ys → set_bytes (xor_bytes xs ys) < 2 ^ 256
unfolding set_bytes
xor_bytes-below xs ys hx hy =
    subst (λ n. value_from 0 (xor_bytes xs ys) < 1 * 256 ^ n)
      (length-xor_bytes xs ys (hx.0 ∙ sym hy.0) ∙ hx.0)
      (value_from-bound 0 (xor_bytes xs ys) (xor_bytes-AreBytes xs ys hx.1 hy.1))

pub set_bytes-zero_iff :
    (xs ys : Bytes) → IsDigest xs → IsDigest ys → (set_bytes (xor_bytes xs ys) ≡ 0) ↔ (xs ≡ ys)
unfolding set_bytes
set_bytes-zero_iff xs ys hx hy = (
  λ e. xor_bytes-zero xs ys (hx.0 ∙ sym hy.0) hx.1 hy.1 (value_from-zero 0 (xor_bytes xs ys) e).1,
  λ e. rw (sym e) (value_from-xor_self xs hx.1),
)
