-- ===== src/Bench/Tokens.antt =====
-- benchmark/src/core/RoomCreation.go: the decoding of a token's claims and of a room's code.
use stealthpipe_relay.Prelude.{
  ℕ, ◌+◌, ◌-◌, ◌*◌, ◌/◌, ◌%◌, ◌&&◌, ◌||◌, Option, none, some, List, [], ◌∷◌, Text, nat_beq, leb,
  if◌then◌else◌,
}

-- `strings.Split(token, ".")`
abbrev pub add_first : ℕ → List Text → List Text
add_first c [] = (c ∷ []) ∷ []
add_first c (part ∷ parts) = (c ∷ part) ∷ parts

unfoldable pub split_dots : Text → List Text
split_dots [] = [] ∷ []
split_dots (c ∷ token) =
    let parts = split_dots token in if nat_beq c b'.' then [] ∷ parts else add_first c parts

-- The value of a digit of `base64.RawURLEncoding`.
unfoldable pub digit_value : ℕ → Option ℕ
digit_value c =
    if leb b'A' c && leb c b'Z'
    then some (c - b'A')
    else if leb b'a' c && leb c b'z'
    then some (c - b'a' + 26)
    else if leb b'0' c && leb c b'9'
    then some (c - b'0' + 52)
    else if nat_beq c b'-'
    then some 62
    else if nat_beq c b'_'
    then some 63
    else none

abbrev pub add_value : Option ℕ → Option (List ℕ) → Option (List ℕ)
add_value none values = none
add_value (some v) none = none
add_value (some v) (some values) = some (v ∷ values)

-- The values of a text's digits; the decoder skips line breaks.
unfoldable pub digit_values : Text → Option (List ℕ)
unfolding digit_value
digit_values [] = some []
digit_values (c ∷ text) =
    let values = digit_values text in
    if nat_beq c 10 || nat_beq c 13 then values else add_value (digit_value c) values

abbrev add_bytes : ℕ → ℕ → ℕ → Option (List ℕ) → Option (List ℕ)
add_bytes x y z none = none
add_bytes x y z (some bytes) = some (x ∷ y ∷ z ∷ bytes)

-- Four values make three bytes; without padding, two make one and three make two, and the bits that
-- are left over are not looked at.
unfoldable pub bytes_of_values : List ℕ → Option (List ℕ)
bytes_of_values [] = some []
bytes_of_values (a ∷ []) = none
bytes_of_values (a ∷ b ∷ []) = some ((a * 4 + b / 16) ∷ [])
bytes_of_values (a ∷ b ∷ c ∷ []) = some ((a * 4 + b / 16) ∷ ((b % 16) * 16 + c / 4) ∷ [])
bytes_of_values (a ∷ b ∷ c ∷ d ∷ values) =
    add_bytes (a * 4 + b / 16) ((b % 16) * 16 + c / 4) ((c % 4) * 64 + d) (bytes_of_values values)

abbrev bytes_of : Option (List ℕ) → Option (List ℕ)
bytes_of none = none
bytes_of (some values) = bytes_of_values values

-- `base64.RawURLEncoding.DecodeString`; `none` is its error.
unfoldable pub decode_string : Text → Option Text
unfolding digit_values bytes_of_values
decode_string text = bytes_of (digit_values text)

pub record TokenPayload : Type 0 where
  pub salt : Text
  pub diff : ℕ
  pub exp : ℕ

abbrev pub no_payload : TokenPayload
no_payload = record { salt = []; diff = 0; exp = 0 }

abbrev pub or_no_payload : Option TokenPayload → TokenPayload
or_no_payload none = no_payload
or_no_payload (some payload) = payload

-- The second of exactly three parts.
abbrev pub middle : List Text → Option Text
middle (header ∷ payload ∷ signature ∷ []) = some payload
middle _ = none

module _ (unmarshal : Text → Option TokenPayload) where
  abbrev unmarshaled : Option Text → TokenPayload
  unmarshaled none = no_payload
  unmarshaled (some json) = or_no_payload (unmarshal json)

  abbrev decoded : Option Text → TokenPayload
  decoded none = no_payload
  decoded (some part) = unmarshaled (decode_string part)

  -- `decodeJwtPayload`, with `json.Unmarshal` as a parameter: each error gives the zero payload.
  unfoldable pub decode_jwt_payload : Text → TokenPayload
  decode_jwt_payload token = decoded (middle (split_dots token))

-- `FlexString.UnmarshalJSON` on a value that was `old`: `unquote` is `json.Unmarshal` into a string, and
-- `none` is its error.
unfoldable pub unmarshal_flex_string : (Text → Option Text) → Text → Text → Option Text
unmarshal_flex_string unquote old [] = some old
unmarshal_flex_string unquote old (b ∷ bytes) =
    if nat_beq b 34 then unquote (b ∷ bytes) else some (b ∷ bytes)
