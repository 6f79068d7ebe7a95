-- ===== src/Prelude/Text.antt =====
-- Go strings and byte slices: sequences of bytes, with the comparison that `==` and `<` make.
use Prim.Native.Nat.{ℕ, zero, suc, ◌+◌, ◌/◌, ◌%◌}
use Prim.Native.Char.{code}
use Prim.Native.String.{String}
use mathlib.Core.Path.{◌≡◌, refl}
use mathlib.Core.Logic.{◌↔◌, ◌⊎◌, inl, inr}
use mathlib.Core.Bool.{Bool, true, false, ◌&&◌}
use mathlib.Core.List.{List, [], ◌∷◌}
use native.Mathlib.Omega.{arith}
use node_decent_system.Prelude.Tests.{ltb, ◌==◌, if◌then◌else◌}

-- `string` and `[]byte`; the conversions between the two keep the bytes.
abbrev pub Bytes : Type 0
Bytes = List ℕ

-- The bytes of an ASCII literal.
abbrev pub codes : String → Bytes
codes String.[] = []
codes (String.◌∷◌ c s) = code c ∷ codes s

unfoldable pub str_eq : Bytes → Bytes → Bool
str_eq [] [] = true
str_eq [] (y ∷ ys) = false
str_eq (x ∷ xs) [] = false
str_eq (x ∷ xs) (y ∷ ys) = x == y && str_eq xs ys

-- A literal of the source; shut, so that proofs do not compute its bytes.
unfoldable pub lit : String → Bytes
lit = codes

-- The message of a Go `error`, which is all that the program reads of one.
abbrev pub Error : Type 0
Error = Bytes

-- Decimal digits, most significant first: `fmt.Sprintf("%d", n)` of a natural number. The fuel
-- `suc n` suffices, since each round divides by 10.
digits_from : ℕ → ℕ → Bytes → Bytes
digits_from zero n acc = acc
digits_from (suc f) n acc =
    let acc' = (n % 10 + 48) ∷ acc in
    let rest = digits_from f (n / 10) acc' in if ltb n 10 then acc' else rest

unfoldable pub decimal : ℕ → Bytes
unfolding digits_from
decimal n = digits_from (suc n) n []

decimal_example : decimal 1205 ≡ codes "1205"
unfolding decimal
decimal_example = refl

-- `strings.HasPrefix`
unfoldable pub has_prefix : Bytes → Bytes → Bool
has_prefix s [] = true
has_prefix [] (p ∷ ps) = false
has_prefix (x ∷ s) (p ∷ ps) = x == p && has_prefix s ps

-- `strings.Contains`
unfoldable pub contains : Bytes → Bytes → Bool
unfolding has_prefix
contains [] p = has_prefix [] p
contains (x ∷ s) p = let rest = contains s p in if has_prefix (x ∷ s) p then true else rest

-- `a <= b` on strings: the lexicographic order of the bytes.
unfoldable pub str_le : Bytes → Bytes → Bool
str_le [] ys = true
str_le (x ∷ xs) [] = false
str_le (x ∷ xs) (y ∷ ys) =
    let rest = str_le xs ys in if ltb x y then true else if ltb y x then false else rest

-- The lower-case hexadecimal digits of each byte: `fmt.Sprintf("%x", b)`, `hex.EncodeToString(b)`.
hex_digit : ℕ → ℕ
hex_digit d = if ltb d 10 then d + 48 else d + 87

unfoldable pub hex : Bytes → Bytes
unfolding hex_digit
hex [] = []
hex (b ∷ bs) = hex_digit (b / 16) ∷ hex_digit (b % 16) ∷ hex bs

hex_digit-injective : (d e : ℕ) → hex_digit d ≡ hex_digit e → d ≡ e
unfolding hex_digit
hex_digit-injective d e h = ground arith

-- Two byte sequences with the same hexadecimal digits are the same.
pub hex-injective : (a b : Bytes) → hex a ≡ hex b → a ≡ b
unfolding hex
hex-injective [] [] h = refl
hex-injective [] (y ∷ b) h = ground arith
hex-injective (x ∷ a) [] h = ground arith
hex-injective (x ∷ a) (y ∷ b) h = ground (arith, hex-injective a b)

str_eq_sound : (a b : Bytes) → str_eq a b ≡ true → a ≡ b
unfolding str_eq
str_eq_sound [] [] h = refl
str_eq_sound [] (y ∷ b) h = ground arith
str_eq_sound (x ∷ a) [] h = ground arith
str_eq_sound (x ∷ a) (y ∷ b) h = ground (arith, str_eq_sound a b)

pub str_eq_refl : (a : Bytes) → str_eq a a ≡ true
unfolding str_eq
str_eq_refl [] = refl
str_eq_refl (x ∷ a) = ground (arith, str_eq_refl a)

pub str_eq_iff : (a b : Bytes) → (str_eq a b ≡ true) ↔ (a ≡ b)
str_eq_iff a b = (str_eq_sound a b, λ e. rw e (str_eq_refl b))

pub str_le_total : (a b : Bytes) → (str_le a b ≡ true) ⊎ (str_le b a ≡ true)
unfolding str_le
str_le_total [] b = inl refl
str_le_total (x ∷ a) [] = inr refl
str_le_total (x ∷ a) (y ∷ b) = ground (arith, str_le_total a b)

pub str_le_antisymm : (a b : Bytes) → str_le a b ≡ true → str_le b a ≡ true → a ≡ b
unfolding str_le
str_le_antisymm [] [] h k = refl
str_le_antisymm [] (y ∷ b) h k = ground arith
str_le_antisymm (x ∷ a) [] h k = ground arith
str_le_antisymm (x ∷ a) (y ∷ b) h k = ground (arith, str_le_antisymm a b)

pub str_le_trans : (a b c : Bytes) → str_le a b ≡ true → str_le b c ≡ true → str_le a c ≡ true
unfolding str_le
str_le_trans [] b c h k = refl
str_le_trans (x ∷ a) [] c h k = ground arith
str_le_trans (x ∷ a) (y ∷ b) [] h k = ground arith
str_le_trans (x ∷ a) (y ∷ b) (z ∷ c) h k = ground (arith, str_le_trans a b c)
