-- ===== src/Numbers.antt =====
-- What the sources use of `strconv` and `fmt` on numbers: `Itoa`, `%d`, `%06d` and `ParseInt`.
pub mod Decimal
pub mod Six
use stealthpipe_relay.Prelude.{
  ℕ, zero, suc, ◌+◌, ◌-◌, ◌*◌, ◌/◌, ◌%◌, ◌^◌, ◌≤◌, Bool, true, false, ◌&&◌, Option, none, some,
  List, [], ◌∷◌, ◌++◌, Text, ltb, leb, if◌then◌else◌, replicate, length, nat_beq,
}

-- `negsuc n` is -(n + 1).
pub data ℤ : Type 0 where
  pos : ℕ → ℤ
  negsuc : ℕ → ℤ

-- The digits of `n` in front of `acc`; each round takes one digit off, so fuel above `n` is enough.
unfoldable pub print_from : ℕ → ℕ → Text → Text
print_from zero n acc = acc
print_from (suc fuel) n acc =
    let rest = print_from fuel (n / 10) ((b'0' + n % 10) ∷ acc) in
    if ltb n 10 then (b'0' + n) ∷ acc else rest

-- `strconv.Itoa(n)` and `%d`, for a number that is not negative
unfoldable pub print_nat : ℕ → Text
unfolding print_from
print_nat n = print_from (suc n) n []

unfoldable pub print_int : ℤ → Text
unfolding print_nat
print_int (pos n) = print_nat n
print_int (negsuc n) = b'-' ∷ print_nat (suc n)

-- `%06d`: zeros up to six digits
unfoldable pub print_six : ℕ → Text
unfolding print_nat
print_six n = let digits = print_nat n in replicate (6 - length digits) b'0' ++ digits

abbrev pub is_digit : ℕ → Bool
is_digit c = leb b'0' c && leb c b'9'

unfoldable pub parse_from : ℕ → Text → Option ℕ
parse_from acc [] = some acc
parse_from acc (c ∷ t) =
    let rest = parse_from (acc * 10 + (c - b'0')) t in if is_digit c then rest else none

-- At least one digit, and only digits.
unfoldable pub parse_nat : Text → Option ℕ
unfolding parse_from
parse_nat [] = none
parse_nat (c ∷ t) = parse_from 0 (c ∷ t)

-- The integer with this absolute value, where 64 bits hold it.
unfoldable pub to_int64 : Bool → ℕ → Option ℤ
to_int64 false n = if ltb n (2 ^ 63) then some (pos n) else none
to_int64 true zero = some (pos zero)
to_int64 true (suc n) = if leb (suc n) (2 ^ 63) then some (negsuc n) else none

unfoldable pub with_sign : Bool → Option ℕ → Option ℤ
with_sign negative none = none
with_sign negative (some n) = to_int64 negative n

-- `strconv.ParseInt(s, 10, 64)`; every error is `none`
unfoldable pub parse_int64 : Text → Option ℤ
unfolding parse_nat with_sign to_int64
parse_int64 [] = none
parse_int64 (c ∷ t) =
    if nat_beq c b'+'
    then with_sign false (parse_nat t)
    else if nat_beq c b'-'
    then with_sign true (parse_nat t)
    else with_sign false (parse_nat (c ∷ t))
