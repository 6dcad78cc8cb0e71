-- ===== src/Telegram/Base64.antt =====
-- `_b64url` and `_b64url_decode` of src/forge_controller/telegram_governance.py: base64 with `-` and `_`, the
-- padding left out, over bytes.
pub mod RoundTrip
use hermes_dev_team_vm.Prelude.{
  ℕ, ◌+◌, ◌-◌, ◌*◌, ◌/◌, ◌%◌, ◌<◌, ◌≡◌, refl, Bool, true, false, ◌&&◌, Option, none, some, List, [],
  ◌∷◌, ◌++◌, ltb, leb, eqb, if◌then◌else◌, Text, length, All, arith,
}

-- The alphabet, by the value of six bits.
unfoldable pub digit : ℕ → ℕ
digit n =
    if ltb n 26
    then b'A' + n
    else if ltb n 52
    then b'a' + (n - 26)
    else if ltb n 62
    then b'0' + (n - 52)
    else if eqb n 62
    then b'-'
    else b'_'

-- The six bits of a character. `+` and `/` are still read: `altchars` only adds `-` and `_`.
unfoldable pub digit_value : ℕ → Option ℕ
digit_value c =
    if leb b'A' c && leb c b'Z'
    then some (c - b'A')
    else if leb b'a' c && leb c b'z'
    then some (c - b'a' + 26)
    else if leb b'0' c && leb c b'9'
    then some (c - b'0' + 52)
    else if eqb c b'-'
    then some 62
    else if eqb c b'_'
    then some 63
    else if eqb c b'+'
    then some 62
    else if eqb c b'/'
    then some 63
    else none

-- _b64url
unfoldable pub b64url : List ℕ → Text
unfolding digit
b64url [] = []
b64url (a ∷ []) = digit (a / 4) ∷ digit (a % 4 * 16) ∷ []
b64url (a ∷ b ∷ []) = digit (a / 4) ∷ digit (a % 4 * 16 + b / 16) ∷ digit (b % 16 * 4) ∷ []
b64url (a ∷ b ∷ c ∷ rest) =
    digit (a / 4)
    ∷ digit (a % 4 * 16 + b / 16)
    ∷ digit (b % 16 * 4 + c / 64)
    ∷ digit (c % 64)
    ∷ b64url rest

-- The bytes of a whole group, before those of the rest.
abbrev pub group : Option ℕ → Option ℕ → Option ℕ → Option ℕ → Option (List ℕ) → Option (List ℕ)
group (some p) (some q) (some r) (some s) (some rest) =
    some ((p * 4 + q / 16) ∷ (q % 16 * 16 + r / 4) ∷ (r % 4 * 64 + s) ∷ rest)
group _ _ _ _ _ = none

-- The last group, of which one or two characters are padding.
abbrev pub one_byte : Option ℕ → Option ℕ → Option (List ℕ)
one_byte (some p) (some q) = some ((p * 4 + q / 16) ∷ [])
one_byte _ _ = none

abbrev pub two_bytes : Option ℕ → Option ℕ → Option ℕ → Option (List ℕ)
two_bytes (some p) (some q) (some r) = some ((p * 4 + q / 16) ∷ (q % 16 * 16 + r / 4) ∷ [])
two_bytes _ _ _ = none

abbrev pub last_group : ℕ → ℕ → ℕ → ℕ → Option (List ℕ)
last_group a b c d =
    if eqb d b'='
    then (if eqb c b'='
        then one_byte (digit_value a) (digit_value b)
        else two_bytes (digit_value a) (digit_value b) (digit_value c))
    else group (digit_value a) (digit_value b) (digit_value c) (digit_value d) (some [])

-- base64.b64decode(text, altchars=b"-_", validate=True); none where it raises
unfoldable pub b64decode : Text → Option (List ℕ)
unfolding digit_value
b64decode [] = some []
b64decode (a ∷ []) = none
b64decode (a ∷ b ∷ []) = none
b64decode (a ∷ b ∷ c ∷ []) = none
b64decode (a ∷ b ∷ c ∷ d ∷ []) = last_group a b c d
b64decode (a ∷ b ∷ c ∷ d ∷ e ∷ rest) =
    group (digit_value a) (digit_value b) (digit_value c) (digit_value d) (b64decode (e ∷ rest))

-- "=" * ((4 - len(value) % 4) % 4)
abbrev pub padding : ℕ → Text
padding n =
    if eqb (n % 4) 1
    then b'=' ∷ b'=' ∷ b'=' ∷ []
    else if eqb (n % 4) 2
    then b'=' ∷ b'=' ∷ []
    else if eqb (n % 4) 3
    then b'=' ∷ []
    else []

-- _b64url_decode
unfoldable pub b64url_decode : Text → Option (List ℕ)
unfolding b64decode
b64url_decode value = b64decode (value ++ padding (length value))

abbrev pub IsByte : ℕ → Type 0
IsByte b = b < 256

digit_value-digit : (n : ℕ) → n < 64 → digit_value (digit n) ≡ some n
unfolding digit digit_value
digit_value-digit n h = ground arith

-- Neither the padding nor a colon is in the alphabet.
pub digit-alphabet : (n : ℕ) → n < 64 → (eqb (digit n) b'=' ≡ false) × (eqb (digit n) b':' ≡ false)
unfolding digit
digit-alphabet n h = ground arith
