-- ===== src/Telegram/Codec/RoundTrip.antt =====
-- What `CallbackCodec.encode` of src/forge_controller/telegram_governance.py writes on a button, `decode`
-- reads.
use hermes_dev_team_vm.Prelude.{
  length-append, ℕ, zero, suc, ◌+◌, ◌*◌, ◌/◌, ◌%◌, ◌<◌, ◌≤◌, ◌≡◌, refl, ap, String, Bool, true,
  false, some, List, [], ◌∷◌, ◌++◌, eqb, ltb, Text, codes, text_eq_refl, length, All, All-append,
  All-map, ok, >>=-eq-ok, arith, ℤ, pos, negsuc, or_raise, ok_unique, subst,
}
use hermes_dev_team_vm.Models.{DecisionAction, yes_action, no_action, defer, more_info}
use hermes_dev_team_vm.Trust.Utf8.{utf8_encode, utf8_encode-ascii}
use hermes_dev_team_vm.Telegram.{TelegramError}
use hermes_dev_team_vm.Telegram.Base64.{digit, b64url, IsByte}
use hermes_dev_team_vm.Telegram.Base64.RoundTrip.{b64url_decode-b64url}
use hermes_dev_team_vm.Telegram.Codec.{
  Hashing, CallbackCodec, callback_mac_bytes, take, decimal_from, decimal, action_code, code_action,
  split, body_of, known_parts, decision_key, mac_of, encode, decode,
}

-- In ASCII, and no colon.
abbrev pub IsPlain : ℕ → Type 0
IsPlain c = (c < 0x80) × (eqb c b':' ≡ false)

digit-IsPlain : (n : ℕ) → n < 64 → IsPlain (digit n)
unfolding digit
digit-IsPlain n h = ground arith

b64url-IsPlain : (bytes : List ℕ) → All IsByte bytes → All IsPlain (b64url bytes)
unfolding b64url
b64url-IsPlain [] h = tt
b64url-IsPlain (a ∷ []) h =
    (digit-IsPlain (a / 4) (omega arith), (digit-IsPlain (a % 4 * 16) (omega arith), tt))
b64url-IsPlain (a ∷ b ∷ []) h = (
  digit-IsPlain (a / 4) (omega arith),
  (
    digit-IsPlain (a % 4 * 16 + b / 16) (omega arith),
    (digit-IsPlain (b % 16 * 4) (omega arith), tt),
  ),
)
b64url-IsPlain (a ∷ b ∷ c ∷ rest) h = (
  digit-IsPlain (a / 4) (omega arith),
  (
    digit-IsPlain (a % 4 * 16 + b / 16) (omega arith),
    (
      digit-IsPlain (b % 16 * 4 + c / 64) (omega arith),
      (digit-IsPlain (c % 64) (omega arith), b64url-IsPlain rest h.1.1.1),
    ),
  ),
)

length-b64url : (k : ℕ) (bytes : List ℕ) → length bytes ≡ 3 * k → length (b64url bytes) ≡ 4 * k
unfolding b64url
length-b64url zero [] h = refl
length-b64url zero (a ∷ bytes) h = absurd (omega (arith, h))
length-b64url (suc k) [] h = absurd (omega (arith, h))
length-b64url (suc k) (a ∷ []) h = absurd (omega (arith, h))
length-b64url (suc k) (a ∷ b ∷ []) h = absurd (omega (arith, h))
length-b64url (suc k) (a ∷ b ∷ c ∷ rest) h = omega (arith, length-b64url k rest (omega (arith, h)))

take-All : (n : ℕ) (xs : List ℕ) → All IsByte xs → All IsByte (take n xs)
take-All zero xs h = tt
take-All (suc n) [] h = tt
take-All (suc n) (x ∷ xs) h = (h.0, take-All n xs h.1)

length-take : (n : ℕ) (xs : List ℕ) → n ≤ length xs → length (take n xs) ≡ n
length-take zero xs h = refl
length-take (suc n) [] h = absurd (omega arith)
length-take (suc n) (x ∷ xs) h = ap suc (length-take n xs (omega arith))

abbrev IsAscii : ℕ → Type 0
IsAscii c = c < 0x80

decimal_from-ascii : (fuel n : ℕ) → All IsAscii (decimal_from fuel n)
unfolding decimal_from
decimal_from-ascii zero n = tt
decimal_from-ascii (suc fuel) n = by_size (decimal_from-ascii fuel (n / 10)) (ltb n 10) refl
  where
    by_size :
        All IsAscii (decimal_from fuel (n / 10))
        → (b : Bool) → ltb n 10 ≡ b
        → All IsAscii (elim b [
          | true ↦ (b'0' + n) ∷ []
          | false ↦ decimal_from fuel (n / 10) ++ ((b'0' + n % 10) ∷ [])
        ])
    by_size smaller true small = (ground arith, tt)
    by_size smaller false large =
        All-append IsAscii (decimal_from fuel (n / 10)) _ smaller (omega arith, tt)

decimal-ascii : (n : ℤ) → All IsAscii (decimal n)
unfolding decimal
decimal-ascii (pos n) = decimal_from-ascii (suc n) n
decimal-ascii (negsuc n) = (omega arith, decimal_from-ascii (suc (suc n)) (suc n))

split-plain : (s : Text) → All IsPlain s → split b':' s ≡ s ∷ []
split-plain [] h = refl
split-plain (c ∷ s) h = rw (h.0.1, split-plain s h.1) refl

split-append : (s t : Text) → All IsPlain s → split b':' (s ++ (b':' ∷ t)) ≡ s ∷ split b':' t
split-append [] t h = refl
split-append (c ∷ s) t h = rw (h.0.1, split-append s t h.1) refl

abbrev plain-ascii : (s : Text) → All IsPlain s → All IsAscii s
plain-ascii s h = All-map s (λ c p. p.0) h

-- The code of an ASCII text: nine bytes, always.
mac_of-bytes :
    (hashing : Hashing) (codec : CallbackCodec) (body : Text)
    → All IsAscii body
    → (mac : List ℕ) × (mac_of hashing codec body ≡ ok mac) × All IsByte mac × (length mac ≡ 9)
unfolding mac_of
mac_of-bytes hashing codec body h =
    let bound =
      body ++ (b'|' ∷ decimal codec.owner_chat_id ++ (b'|' ∷ decimal codec.owner_user_id)) in
    let ascii : All IsAscii bound = All-append IsAscii body _ h (
      omega arith,
      All-append IsAscii (decimal codec.owner_chat_id) _ (decimal-ascii codec.owner_chat_id)
          (omega arith, decimal-ascii codec.owner_user_id),
    ) in
    let (bytes, size) = hashing.hmac_bytes codec.key bound in
    (
      take callback_mac_bytes (hashing.hmac_sha256 codec.key bound),
      rw (utf8_encode-ascii bound ascii) refl,
      take-All 9 (hashing.hmac_sha256 codec.key bound) bytes,
      length-take 9 (hashing.hmac_sha256 codec.key bound) (omega (arith, size)),
    )

decision_key-IsPlain :
    (hashing : Hashing) (decision_id : String) {key : Text}
    → decision_key hashing decision_id ≡ ok key
    → All IsPlain key × (length key ≡ 16)
unfolding decision_key
decision_key-IsPlain hashing decision_id {key} h =
    let (encoded, _, made) =
      >>=-eq-ok (or_raise (utf8_encode (codes decision_id)) TelegramError.encode_error) _ h in
    let (bytes, size) = hashing.sha256_bytes encoded in
    let digest = take 12 (hashing.sha256 encoded) in
    let same : b64url digest ≡ key = ok_unique {E = TelegramError} refl made in
    subst (λ (k : Text). All IsPlain k × (length k ≡ 16)) same
      (
        b64url-IsPlain digest (take-All 12 (hashing.sha256 encoded) bytes),
        length-b64url 4 digest (length-take 12 (hashing.sha256 encoded) (omega (arith, size))),
      )

split-value :
    (chosen : DecisionAction) (key mac : Text)
    → All IsPlain key
    → All IsPlain mac
    → known_parts (split b':' (body_of (b'1' ∷ []) (action_code chosen ∷ []) key ++ (b':' ∷ mac)))
      ≡ some (b'1' ∷ [], action_code chosen ∷ [], key, mac, chosen)
unfolding code_action
split-value yes_action key mac h k = rw (split-append key mac h, split-plain mac k) refl
split-value no_action key mac h k = rw (split-append key mac h, split-plain mac k) refl
split-value defer key mac h k = rw (split-append key mac h, split-plain mac k) refl
split-value more_info key mac h k = rw (split-append key mac h, split-plain mac k) refl

body_of-ascii :
    (chosen : DecisionAction) (key : Text)
    → All IsAscii key
    → All IsAscii (body_of (b'1' ∷ []) (action_code chosen ∷ []) key)
body_of-ascii yes_action key h = (omega arith, (omega arith, (omega arith, (omega arith, h))))
body_of-ascii no_action key h = (omega arith, (omega arith, (omega arith, (omega arith, h))))
body_of-ascii defer key h = (omega arith, (omega arith, (omega arith, (omega arith, h))))
body_of-ascii more_info key h = (omega arith, (omega arith, (omega arith, (omega arith, h))))

length-value :
    (chosen : DecisionAction) (key mac : Text)
    → length key ≡ 16
    → length mac ≡ 12
    → length (body_of (b'1' ∷ []) (action_code chosen ∷ []) key ++ (b':' ∷ mac)) ≡ 33
length-value chosen key mac h k = omega (arith, length-append key (b':' ∷ mac))

-- For a decision whose identifier has a key, `encode` returns the data of a button for each
-- action, of 33 characters, and `decode` gives the key and the action back.
pub decode-encode :
    (hashing : Hashing) (codec : CallbackCodec) (decision_id : String) (chosen : DecisionAction)
    (key : Text)
    → decision_key hashing decision_id ≡ ok key
    → (value : Text) × (encode hashing codec decision_id chosen ≡ ok value)
      × (length value ≡ 33)
      × (decode hashing codec value ≡ ok (key, chosen))
unfolding encode decode
decode-encode hashing codec decision_id chosen key found =
    let (plain, size) = decision_key-IsPlain hashing decision_id found in
    let body = body_of (b'1' ∷ []) (action_code chosen ∷ []) key in
    let body_ascii = body_of-ascii chosen key (plain-ascii key plain) in
    let (mac, coded, bytes, nine) = mac_of-bytes hashing codec body body_ascii in
    let value = body ++ (b':' ∷ b64url mac) in
    let plain_mac = b64url-IsPlain mac bytes in
    let long : length value ≡ 33 =
      length-value chosen key (b64url mac) size (length-b64url 3 mac nine) in
    let ascii : All IsAscii value =
      All-append IsAscii body (b':' ∷ b64url mac) body_ascii
        (omega arith, plain-ascii (b64url mac) plain_mac) in
    (
      value,
      rw (found, coded, utf8_encode-ascii value ascii, long) refl,
      long,
      rw
          (
            utf8_encode-ascii value ascii,
            long,
            split-value chosen key (b64url mac) plain plain_mac,
            coded,
            b64url_decode-b64url mac bytes,
            text_eq_refl mac,
          )
          refl,
    )
