-- ===== src/Telegram/Codec.antt =====
-- `CallbackCodec` of src/forge_controller/telegram_governance.py: the data of a button, which names a
-- decision and an action under a code that is bound to the owner. The hash functions are `hashlib`'s
-- and `hmac`'s.
pub mod RoundTrip
pub mod Authentic
use hermes_dev_team_vm.Prelude.{
  ℕ, zero, suc, ◌+◌, ◌-◌, ◌/◌, ◌%◌, ◌≡◌, String, Bool, true, false, not, ◌||◌, Option, none, some,
  List, [], ◌∷◌, ◌++◌, ltb, leb, eqb, if◌then◌else◌, Text, codes, text_eq, length, All, Result, ok,
  err, Check, ◌>>=◌, ◌>>◌, checks, or_raise, ℤ, pos, negsuc, ◌<◌, refl, Bool-cases, inl, inr, arith,
}
use hermes_dev_team_vm.Models.{DecisionAction, yes_action, no_action, defer, more_info}
use hermes_dev_team_vm.Trust.Utf8.{utf8_encode}
use hermes_dev_team_vm.Telegram.{TelegramError}
use hermes_dev_team_vm.Telegram.Base64.{b64url, b64url_decode, IsByte}

-- SHA-256 and HMAC-SHA-256: digests of 32 bytes.
pub record Hashing : Type 0 where
  pub sha256 : List ℕ → List ℕ
  pub sha256_bytes : (m : List ℕ) → All IsByte (sha256 m) × (length (sha256 m) ≡ 32)
  pub hmac_sha256 : List ℕ → List ℕ → List ℕ
  pub hmac_bytes :
      (key m : List ℕ) → All IsByte (hmac_sha256 key m) × (length (hmac_sha256 key m) ≡ 32)

pub record CallbackCodec : Type 0 where
  pub key : List ℕ
  pub owner_chat_id : ℤ
  pub owner_user_id : ℤ

-- _CALLBACK_MAX_BYTES, _CALLBACK_MAC_BYTES
abbrev pub callback_max_bytes : ℕ
callback_max_bytes = 64

abbrev pub callback_mac_bytes : ℕ
callback_mac_bytes = 9

-- xs[:n]
abbrev pub take {ℓ} : {A : Type ℓ} → ℕ → List A → List A
take zero xs = []
take (suc n) [] = []
take (suc n) (x ∷ xs) = x ∷ take n xs

-- str(n): the fuel is one more than the number of digits needs
unfoldable pub decimal_from : ℕ → ℕ → Text
decimal_from zero n = []
decimal_from (suc fuel) n = elim (ltb n 10) [
  | true ↦ (b'0' + n) ∷ []
  | false ↦ decimal_from fuel (n / 10) ++ ((b'0' + n % 10) ∷ [])
]

-- Any fuel above the number gives the same digits.
decimal_from_enough :
    (fuel other n : ℕ) → n < fuel → n < other → decimal_from fuel n ≡ decimal_from other n
unfolding decimal_from
decimal_from_enough zero other n h k = ground arith
decimal_from_enough (suc fuel) zero n h k = ground arith
decimal_from_enough (suc fuel) (suc other) n h k = elim (Bool-cases (ltb n 10)) [
  | inl small ↦ rw (small, decimal_from) refl
  | inr large ↦
      rw
        (large, decimal_from, decimal_from_enough fuel other (n / 10) (ground arith) (ground arith))
        refl
]

unfoldable pub decimal : ℤ → Text
unfolding decimal_from
decimal (pos n) = decimal_from (suc n) n
decimal (negsuc n) = b'-' ∷ decimal_from (suc (suc n)) (suc n)

-- _ACTION_CODE
abbrev pub action_code : DecisionAction → ℕ
action_code yes_action = b'Y'
action_code no_action = b'N'
action_code defer = b'D'
action_code more_info = b'M'

-- _CODE_ACTION
unfoldable pub code_action : Text → Option DecisionAction
code_action (c ∷ []) =
    if eqb c b'Y'
    then some yes_action
    else if eqb c b'N'
    then some no_action
    else if eqb c b'D'
    then some defer
    else if eqb c b'M'
    then some more_info
    else none
code_action _ = none

abbrev pub with_head : ℕ → List Text → List Text
with_head c [] = (c ∷ []) ∷ []
with_head c (part ∷ parts) = (c ∷ part) ∷ parts

-- text.split(separator)
abbrev pub split : ℕ → Text → List Text
split separator [] = [] ∷ []
split separator (c ∷ s) =
    let rest = split separator s in if eqb c separator then [] ∷ rest else with_head c rest

-- f"{version}:{code}:{key}", with `code` one character for an action that is encoded
abbrev pub body_of : Text → Text → Text → Text
body_of version code key = version ++ (b':' ∷ code ++ (b':' ∷ key))

abbrev pub with_action :
    Text
    → Text
    → Text
    → Text
    → Option DecisionAction
    → Option (Text × Text × Text × Text × DecisionAction)
with_action version code key mac none = none
with_action version code key mac (some chosen) = some (version, code, key, mac, chosen)

-- The four parts of a text that names a known action under version "1".
abbrev pub known_parts : List Text → Option (Text × Text × Text × Text × DecisionAction)
known_parts (version ∷ code ∷ key ∷ mac ∷ []) =
    if text_eq version (b'1' ∷ [])
    then with_action version code key mac (code_action code)
    else none
known_parts _ = none

-- not 1 <= len(value.encode("utf-8")) <= _CALLBACK_MAX_BYTES
abbrev pub bad_length : List ℕ → Bool
bad_length encoded = ltb (length encoded) 1 || ltb callback_max_bytes (length encoded)

module _ (hashing : Hashing) where
  unfoldable pub decision_key : String → Result TelegramError Text
  decision_key decision_id = do
    encoded ← or_raise (utf8_encode (codes decision_id)) TelegramError.encode_error
    ok (b64url (take 12 (hashing.sha256 encoded)))

  -- self._bound(body), and the first bytes of its code
  unfoldable pub mac_of : CallbackCodec → Text → Result TelegramError (List ℕ)
  mac_of codec body = do
    bound ←
        or_raise
          (utf8_encode
            (body ++ (b'|' ∷ decimal codec.owner_chat_id ++ (b'|' ∷ decimal codec.owner_user_id))))
          TelegramError.encode_error
    ok (take callback_mac_bytes (hashing.hmac_sha256 codec.key bound))

  unfoldable pub encode : CallbackCodec → String → DecisionAction → Result TelegramError Text
  encode codec decision_id chosen = do
    key ← decision_key decision_id
    let body = body_of (b'1' ∷ []) (action_code chosen ∷ []) key
    mac ← mac_of codec body
    let value = body ++ (b':' ∷ b64url mac)
    encoded ← or_raise (utf8_encode value) TelegramError.encode_error
    checks ((bad_length encoded, TelegramError.data_too_long) ∷ [])
    ok value

  unfoldable pub decode : CallbackCodec → Text → Result TelegramError (Text × DecisionAction)
  decode codec value = do
    encoded ← or_raise (utf8_encode value) TelegramError.encode_error
    checks ((bad_length encoded, TelegramError.bad_data_length) ∷ [])
    parts ← or_raise (known_parts (split b':' value)) TelegramError.bad_data
    expected ← mac_of codec (body_of parts.0 parts.1 parts.2)
    supplied ← or_raise (b64url_decode parts.3) TelegramError.bad_signature
    checks ((not (text_eq expected supplied), TelegramError.not_authentic) ∷ [])
    ok (parts.2, parts.4)
