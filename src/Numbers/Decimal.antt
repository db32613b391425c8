-- ===== src/Numbers/Decimal.antt =====
-- Printing and reading decimal numbers.
use stealthpipe_relay.Prelude.{
  ℕ, zero, suc, ◌+◌, ◌-◌, ◌*◌, ◌/◌, ◌%◌, ◌^◌, ◌≤◌, ◌<◌, false, some, [], ◌∷◌, Text, ltb, ◌≡◌, refl,
  ◌∙◌, arith, inl, inr, Bool-cases, ap,
}
use stealthpipe_relay.Numbers.{
  ℤ, pos, negsuc, print_from, print_nat, print_int, parse_from, parse_nat, to_int64, with_sign,
  parse_int64,
}

pub parse_from-digit :
    (a d : ℕ) (acc : Text) → d < 10 → parse_from a ((b'0' + d) ∷ acc) ≡ parse_from (a * 10 + d) acc
unfolding parse_from
parse_from-digit a d acc h = let e : b'0' + d - b'0' ≡ d = omega arith in rw e (ground arith)

-- Reading what was printed goes on with the number in front of the rest.
parse_from-print_from :
    (fuel n : ℕ) (acc : Text) → n < fuel → parse_from 0 (print_from fuel n acc) ≡ parse_from n acc
unfolding print_from
parse_from-print_from zero n acc h = elim h [ ]
parse_from-print_from (suc fuel) n acc h = elim (Bool-cases (ltb n 10)) [
  | inl small ↦
      rw small (parse_from-digit 0 n acc (ground arith) ∙ ap (λ k. parse_from k acc) (omega arith))
  | inr big ↦ rw big (
      parse_from-print_from fuel (n / 10) ((b'0' + n % 10) ∷ acc) (ground arith)
      ∙ parse_from-digit (n / 10) (n % 10) acc (omega arith)
      ∙ ap (λ k. parse_from k acc) (omega arith))
]

-- Only digits come out, and at least one.
abbrev pub IsNumeral : Text → Type 0
IsNumeral [] = ⊥
IsNumeral (c ∷ t) = (b'0' ≤ c) × (c ≤ b'9')

pub print_from-IsNumeral : (fuel n : ℕ) (acc : Text) → n < fuel → IsNumeral (print_from fuel n acc)
unfolding print_from
print_from-IsNumeral zero n acc h = elim h [ ]
print_from-IsNumeral (suc fuel) n acc h =
    ground (arith, print_from-IsNumeral fuel (n / 10) ((b'0' + n % 10) ∷ acc))

pub parse_nat-numeral : (t : Text) → IsNumeral t → parse_nat t ≡ parse_from 0 t
unfolding parse_nat
parse_nat-numeral [] h = absurd h
parse_nat-numeral (c ∷ t) h = refl

-- Reading back a printed number gives the number.
pub parse_nat-print_nat : (n : ℕ) → parse_nat (print_nat n) ≡ some n
unfolding print_nat
parse_nat-print_nat n =
    parse_nat-numeral _ (print_from-IsNumeral (suc n) n [] (omega arith))
    ∙ parse_from-print_from (suc n) n [] (omega arith)
    ∙ (unfold parse_from in refl)

parse_int64-numeral : (t : Text) → IsNumeral t → parse_int64 t ≡ with_sign false (parse_nat t)
unfolding parse_int64
parse_int64-numeral [] h = absurd h
parse_int64-numeral (c ∷ t) h = ground arith

-- The integers of 64 bits.
abbrev pub IsInt64 : ℤ → Type 0
IsInt64 (pos n) = n < 2 ^ 63
IsInt64 (negsuc n) = n < 2 ^ 63

-- `ParseInt` reads back every 64-bit integer that `Itoa` or `%d` prints.
pub parse_int64-print_int : (z : ℤ) → IsInt64 z → parse_int64 (print_int z) ≡ some z
unfolding print_int print_nat
parse_int64-print_int (pos n) h =
    rw
      (
        parse_int64-numeral _ (print_from-IsNumeral (suc n) n [] (omega arith)),
        parse_nat-print_nat n,
      )
      (unfold with_sign to_int64 in ground arith)
parse_int64-print_int (negsuc n) h =
    unfold parse_int64 in rw (parse_nat-print_nat (suc n)) (ground arith)
