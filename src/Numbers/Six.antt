-- ===== src/Numbers/Six.antt =====
-- The codes that `generateRandomId` prints with `%06d`.
use native.Mathlib.Nat.{pow-suc}
use stealthpipe_relay.Prelude.{
  ℕ, zero, suc, ◌+◌, ◌-◌, ◌/◌, ◌%◌, ◌^◌, ◌≤◌, ◌<◌, some, [], ◌∷◌, ◌++◌, Text, replicate, length,
  length-append, ◌≡◌, refl, sym, ◌∙◌, arith,
}
use stealthpipe_relay.Numbers.{print_from, print_nat, print_six, parse_from, parse_nat}
use stealthpipe_relay.Numbers.Decimal.{
  parse_from-digit, parse_nat-print_nat, parse_nat-numeral, print_from-IsNumeral, IsNumeral,
}

length-print_from-le :
    (k fuel n : ℕ) (acc : Text)
    → n < fuel
    → n < 10 ^ (suc k)
    → length (print_from fuel n acc) ≤ suc k + length acc
unfolding print_from
length-print_from-le k zero n acc h b = elim h [ ]
length-print_from-le zero (suc fuel) n acc h b = ground arith
length-print_from-le (suc k) (suc fuel) n acc h b =
    ground (arith, length-print_from-le k fuel (n / 10) ((b'0' + n % 10) ∷ acc), pow-suc 10 (suc k))

length-print_nat-le : (n : ℕ) → n < 1000000 → length (print_nat n) ≤ 6
unfolding print_nat
length-print_nat-le n h =
    omega (arith, length-print_from-le 5 (suc n) n [] (omega arith) (omega arith))

length-replicate : (k c : ℕ) → length (replicate k c) ≡ k
length-replicate zero c = refl
length-replicate (suc k) c = omega (arith, length-replicate k c)

parse_from-zeros : (k : ℕ) (t : Text) → parse_from 0 (replicate k b'0' ++ t) ≡ parse_from 0 t
parse_from-zeros zero t = refl
parse_from-zeros (suc k) t =
    parse_from-digit 0 0 (replicate k b'0' ++ t) (omega arith) ∙ parse_from-zeros k t

parse_nat-zeros : (k : ℕ) (t : Text) → IsNumeral t → parse_nat (replicate k b'0' ++ t) ≡ parse_nat t
parse_nat-zeros zero t h = refl
parse_nat-zeros (suc k) t h =
    parse_nat-numeral (replicate (suc k) b'0' ++ t) (omega arith)
    ∙ parse_from-zeros (suc k) t
    ∙ sym (parse_nat-numeral t h)

pub length-print_six : (n : ℕ) → n < 1000000 → length (print_six n) ≡ 6
unfolding print_six
length-print_six n h = omega (
  arith,
  length-append (replicate (6 - length (print_nat n)) b'0') (print_nat n),
  length-replicate (6 - length (print_nat n)) b'0',
  length-print_nat-le n h,
)

pub parse_nat-print_six : (n : ℕ) → parse_nat (print_six n) ≡ some n
unfolding print_six
parse_nat-print_six n =
    parse_nat-zeros (6 - length (print_nat n)) (print_nat n) (numeral n) ∙ parse_nat-print_nat n
  where
    numeral : (n : ℕ) → IsNumeral (print_nat n)
    numeral n = unfold print_nat in print_from-IsNumeral (suc n) n [] (omega arith)
