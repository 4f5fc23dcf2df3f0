-- ===== src/Base/Text.antt =====
-- Text as its UTF-8 bytes, which is what a `String` of the source holds, and `Display` of a number.
use Prim.Native.Char.{code}
use Prim.Native.Nat.{ℕ, zero, suc, ◌+◌, ◌/◌, ◌%◌}
use Prim.Native.String.{String}
use mathlib.Core.Bool.{Bool, true, false, ◌&&◌}
use mathlib.Core.List.{List, [], ◌∷◌}
use mathlib.Core.Path.{◌≡◌, refl}
use mathlib.Core.Logic.{◌≢◌}
use native.Mathlib.Omega.{arith}
use temporal_kt_bridge.Base.Tests.{ltb, ◌==◌, if◌then◌else◌}

abbrev pub Bytes : Type 0
Bytes = List ℕ

-- The bytes of an ASCII literal.
unfoldable pub text : String → Bytes
text String.[] = []
text (String.◌∷◌ c s) = code c ∷ text s

-- The decimal digits of a number, by fuel: a u64 has at most 20 of them.
digits_text : ℕ → ℕ → Bytes → Bytes
digits_text zero n rest = rest
digits_text (suc fuel) n rest =
    let more = digits_text fuel (n / 10) ((n % 10 + b'0') ∷ rest) in
    if ltb n 10 then (n + b'0') ∷ rest else more

unfoldable pub decimal : ℕ → Bytes
unfolding digits_text
decimal n = digits_text 20 n []

-- Equality of two texts.
abbrev pub eqb : Bytes → Bytes → Bool
eqb [] [] = true
eqb [] (b ∷ bs) = false
eqb (a ∷ xs) [] = false
eqb (a ∷ xs) (b ∷ bs) = let rest = eqb xs bs in a == b && rest

pub eqb_refl : (a : Bytes) → eqb a a ≡ true
eqb_refl [] = refl
eqb_refl (x ∷ a) = ground (arith, eqb_refl a)

pub eqb-eq : (a b : Bytes) → eqb a b ≡ true → a ≡ b
eqb-eq [] [] h = refl
eqb-eq [] (y ∷ b) h = cc
eqb-eq (x ∷ a) [] h = cc
eqb-eq (x ∷ a) (y ∷ b) h = ground (arith, eqb-eq a b)

pub eqb_ne : (a b : Bytes) → a ≢ b → eqb a b ≡ false
eqb_ne a b n = ground (arith, eqb-eq a b)
