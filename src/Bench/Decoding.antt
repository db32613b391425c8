-- ===== src/Bench/Decoding.antt =====
-- The decoding of a token that is written as the jwt library writes it.
use stealthpipe_relay.Prelude.{
  ℕ, ◌+◌, ◌-◌, ◌*◌, ◌/◌, ◌%◌, ◌<◌, false, ◌||◌, Option, some, List, [], ◌∷◌, ◌++◌, Text, nat_beq,
  ltb, if◌then◌else◌, All, ◌≡◌, refl, arith, ap,
}
use stealthpipe_relay.Bench.Tokens.{
  split_dots, digit_value, digit_values, bytes_of_values, decode_string, TokenPayload,
  or_no_payload, decode_jwt_payload,
}

-- The digit of a value, and the values of some bytes, as `base64.RawURLEncoding` encodes.
abbrev pub digit : ℕ → ℕ
digit v =
    if ltb v 26
    then b'A' + v
    else if ltb v 52
    then b'a' + (v - 26)
    else if ltb v 62
    then b'0' + (v - 52)
    else if nat_beq v 62
    then b'-'
    else b'_'

abbrev pub values_of_bytes : List ℕ → List ℕ
values_of_bytes [] = []
values_of_bytes (x ∷ []) = (x / 4) ∷ ((x % 4) * 16) ∷ []
values_of_bytes (x ∷ y ∷ []) = (x / 4) ∷ ((x % 4) * 16 + y / 16) ∷ ((y % 16) * 4) ∷ []
values_of_bytes (x ∷ y ∷ z ∷ bytes) =
    (x / 4) ∷ ((x % 4) * 16 + y / 16) ∷ ((y % 16) * 4 + z / 64) ∷ (z % 64) ∷ values_of_bytes bytes

abbrev pub digits : List ℕ → Text
digits [] = []
digits (v ∷ values) = digit v ∷ digits values

abbrev pub encode_to_string : Text → Text
encode_to_string bytes = digits (values_of_bytes bytes)

abbrev pub AreBytes : Text → Type 0
AreBytes = All (λ b. b < 256)

digit_value-digit : (v : ℕ) → v < 64 → digit_value (digit v) ≡ some v
unfolding digit_value
digit_value-digit v h = ground arith

digit-visible : (v : ℕ) → v < 64 → (nat_beq (digit v) 10 || nat_beq (digit v) 13) ≡ false
digit-visible v h = ground arith

digit_values-digits :
    (values : List ℕ) → All (λ v. v < 64) values → digit_values (digits values) ≡ some values
unfolding digit_values
digit_values-digits [] h = refl
digit_values-digits (v ∷ values) h =
    let rest = digit_values-digits values h.1 in
    let first = digit_value-digit v h.0 in
    let visible = digit-visible v h.0 in rw (visible, first, rest) refl

values_of_bytes-small :
    (bytes : List ℕ) → AreBytes bytes → All (λ v. v < 64) (values_of_bytes bytes)
values_of_bytes-small [] h = tt
values_of_bytes-small (x ∷ []) h = (omega arith, (omega arith, tt))
values_of_bytes-small (x ∷ y ∷ []) h = (omega arith, (omega arith, (omega arith, tt)))
values_of_bytes-small (x ∷ y ∷ z ∷ bytes) h =
    (omega arith, (omega arith, (omega arith, (omega arith, values_of_bytes-small bytes h.1.1.1))))

bytes_of_values-values_of_bytes :
    (bytes : List ℕ) → AreBytes bytes → bytes_of_values (values_of_bytes bytes) ≡ some bytes
unfolding bytes_of_values
bytes_of_values-values_of_bytes [] h = refl
bytes_of_values-values_of_bytes (x ∷ []) h = ap some (ap (λ b. b ∷ []) (omega arith))
bytes_of_values-values_of_bytes (x ∷ y ∷ []) h = ground arith
bytes_of_values-values_of_bytes (x ∷ y ∷ z ∷ bytes) h =
    let rest = bytes_of_values-values_of_bytes bytes h.1.1.1 in ground arith

decode_string-encode_to_string :
    (bytes : Text) → AreBytes bytes → decode_string (encode_to_string bytes) ≡ some bytes
unfolding decode_string
decode_string-encode_to_string bytes h =
    rw (digit_values-digits (values_of_bytes bytes) (values_of_bytes-small bytes h))
      (bytes_of_values-values_of_bytes bytes h)

abbrev pub HasNoDot : Text → Type 0
HasNoDot = All (λ c. nat_beq c b'.' ≡ false)

digits-HasNoDot : (values : List ℕ) → All (λ v. v < 64) values → HasNoDot (digits values)
digits-HasNoDot [] h = tt
digits-HasNoDot (v ∷ values) h = ((ground arith), digits-HasNoDot values h.1)

split_dots-append :
    (part token : Text)
    → HasNoDot part
    → split_dots (part ++ b'.' ∷ token) ≡ part ∷ split_dots token
unfolding split_dots
split_dots-append [] token h = refl
split_dots-append (c ∷ part) token h = rw (h.0, split_dots-append part token h.1) refl

split_dots-last : (part : Text) → HasNoDot part → split_dots part ≡ part ∷ []
unfolding split_dots
split_dots-last [] h = refl
split_dots-last (c ∷ part) h = rw (h.0, split_dots-last part h.1) refl

-- A token as the jwt library writes it: a header, the claims and a signature, with dots between them.
abbrev pub written : Text → Text → Text → Text
written header json signature = header ++ b'.' ∷ (encode_to_string json ++ b'.' ∷ signature)

-- The load generator reads of a token, whose parts are written in digits of raw URL base64 with dots
-- between them, exactly what `json.Unmarshal` reads of the claims that were encoded, or the zero
-- payload if it fails.
pub decode_jwt_payload-written :
    (unmarshal : Text → Option TokenPayload) (header json signature : Text)
    → HasNoDot header
    → HasNoDot signature
    → AreBytes json
    → decode_jwt_payload unmarshal (written header json signature) ≡ or_no_payload (unmarshal json)
unfolding decode_jwt_payload
decode_jwt_payload-written unmarshal header json signature h s bytes =
    rw
      (
        split_dots-append header _ h,
        split_dots-append (encode_to_string json) signature
            (digits-HasNoDot (values_of_bytes json) (values_of_bytes-small json bytes)),
        split_dots-last signature s,
      )
      (rw (decode_string-encode_to_string json bytes) refl)
