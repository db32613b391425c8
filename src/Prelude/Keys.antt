-- ===== src/Prelude/Keys.antt =====
-- Keys of Go maps: a type with a Boolean equality, and texts as lists of bytes.
use Prim.Native.Char.{code}
use Prim.Native.Nat.{ℕ}
use Prim.Native.String.{String}
use mathlib.Core.Bool.{Bool, true, false, ◌&&◌}
use mathlib.Core.List.{List, [], ◌∷◌}
use mathlib.Core.Logic.{◌↔◌}
use mathlib.Core.Path.{◌≡◌}
use native.Mathlib.Omega.{arith}
use stealthpipe_relay.Prelude.Tests.{nat_beq, nat_beq_iff}

-- The equality that Go uses on the keys of a map.
pub record Key {ℓ} (K : Type ℓ) : Type ℓ where
  pub beq : K → K → Bool
  pub beq_iff : (j k : K) → (beq j k ≡ true) ↔ (j ≡ k)

infix 50 ◌==◌
abbrev pub ◌==◌ {ℓ} : {K : Type ℓ} ⦃key : Key K⦄ → K → K → Bool
◌==◌ ⦃key⦄ = key.beq

instance abbrev pub nat_key : Key ℕ
nat_key = record { beq = nat_beq; beq_iff = nat_beq_iff }

-- A Go string: its bytes.
abbrev pub Text : Type 0
Text = List ℕ

-- The bytes of an ASCII literal.
abbrev pub codes : String → Text
codes String.[] = []
codes (String.◌∷◌ c s) = code c ∷ codes s

abbrev pub is_empty : Text → Bool
is_empty [] = true
is_empty (c ∷ t) = false

abbrev pub text_beq : Text → Text → Bool
text_beq [] [] = true
text_beq [] (d ∷ t) = false
text_beq (c ∷ s) [] = false
text_beq (c ∷ s) (d ∷ t) = nat_beq c d && text_beq s t

pub text_beq_iff : (s t : Text) → (text_beq s t ≡ true) ↔ (s ≡ t)
text_beq_iff [] [] = ground arith
text_beq_iff [] (d ∷ t) = ground arith
text_beq_iff (c ∷ s) [] = ground arith
text_beq_iff (c ∷ s) (d ∷ t) = ground (arith, text_beq_iff s t)

instance abbrev pub text_key : Key Text
text_key = record { beq = text_beq; beq_iff = text_beq_iff }
