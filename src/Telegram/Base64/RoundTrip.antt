-- ===== src/Telegram/Base64/RoundTrip.antt =====
-- `_b64url` of src/forge_controller/telegram_governance.py is undone by `_b64url_decode`.
use hermes_dev_team_vm.Prelude.{
  ℕ, ◌+◌, ◌*◌, ◌/◌, ◌%◌, ◌≡◌, refl, ap, Option, some, List, [], ◌∷◌, ◌++◌, Text, length, All, arith,
  suc, ◌≢◌,
}
use hermes_dev_team_vm.Telegram.Base64.{
  digit, digit_value, b64url, group, one_byte, two_bytes, b64decode, padding, b64url_decode, IsByte,
  digit_value-digit, digit-alphabet,
}

module _ (a b c : ℕ) (ha : IsByte a) (hb : IsByte b) (hc : IsByte c) where
  -- A whole group gives its three bytes back.
  group-digits :
      (rest : List ℕ)
      → group
          (digit_value (digit (a / 4)))
          (digit_value (digit (a % 4 * 16 + b / 16)))
          (digit_value (digit (b % 16 * 4 + c / 64)))
          (digit_value (digit (c % 64)))
          (some rest)
        ≡ some (a ∷ b ∷ c ∷ rest)
  group-digits rest =
      rw
        (
          digit_value-digit (a / 4) (omega arith),
          digit_value-digit (a % 4 * 16 + b / 16) (omega arith),
          digit_value-digit (b % 16 * 4 + c / 64) (omega arith),
          digit_value-digit (c % 64) (omega arith),
        )
        (three (omega arith) (omega arith) (omega arith))
    where
      three :
          {p q r : ℕ}
          → p ≡ a
          → q ≡ b
          → r ≡ c
          → ◌≡◌ {A = Option (List ℕ)} (some (p ∷ q ∷ r ∷ rest)) (some (a ∷ b ∷ c ∷ rest))
      three e f g = rw (e, f, g) refl

padding-length : (n : ℕ) → padding (suc (suc (suc (suc n)))) ≡ padding n
padding-length n = let e : suc (suc (suc (suc n))) % 4 ≡ n % 4 = omega arith in rw e refl

b64decode-group :
    (a b c d : ℕ) (t : Text)
    → t ≢ []
    → b64decode (a ∷ b ∷ c ∷ d ∷ t)
      ≡ group (digit_value a) (digit_value b) (digit_value c) (digit_value d) (b64decode t)
unfolding b64decode
b64decode-group a b c d [] h = absurd (h refl)
b64decode-group a b c d (e ∷ t) h = refl

b64url-nonempty : (d : ℕ) (rest : List ℕ) (more : Text) → b64url (d ∷ rest) ++ more ≢ []
unfolding b64url
b64url-nonempty d [] more e = cc
b64url-nonempty d (x ∷ []) more e = cc
b64url-nonempty d (x ∷ y ∷ rest) more e = cc

one :
    (a : ℕ)
    → IsByte a
    → one_byte (digit_value (digit (a / 4))) (digit_value (digit (a % 4 * 16))) ≡ some (a ∷ [])
one a h =
    rw (digit_value-digit (a / 4) (omega arith), digit_value-digit (a % 4 * 16) (omega arith))
      (ap (λ (n : ℕ). some (n ∷ [])) (omega arith))

two :
    (a b : ℕ)
    → IsByte a
    → IsByte b
    → two_bytes
        (digit_value (digit (a / 4)))
        (digit_value (digit (a % 4 * 16 + b / 16)))
        (digit_value (digit (b % 16 * 4)))
      ≡ some (a ∷ b ∷ [])
two a b h k =
    rw
      (
        digit_value-digit (a / 4) (omega arith),
        digit_value-digit (a % 4 * 16 + b / 16) (omega arith),
        digit_value-digit (b % 16 * 4) (omega arith),
      )
      (both (omega arith) (omega arith))
  where
    both :
        {p q : ℕ}
        → p ≡ a
        → q ≡ b
        → ◌≡◌ {A = Option (List ℕ)} (some (p ∷ q ∷ [])) (some (a ∷ b ∷ []))
    both e f = rw (e, f) refl

-- What `_b64url` encodes, `_b64url_decode` decodes: the bytes come back, with the padding that was
-- left out.
pub b64url_decode-b64url :
    (bytes : List ℕ) → All IsByte bytes → b64url_decode (b64url bytes) ≡ some bytes
unfolding b64url_decode b64url b64decode
b64url_decode-b64url [] h = refl
b64url_decode-b64url (a ∷ []) h = one a h.0
b64url_decode-b64url (a ∷ b ∷ []) h =
    rw ((digit-alphabet (b % 16 * 4) (omega arith)).0) (two a b h.0 h.1.0)
b64url_decode-b64url (a ∷ b ∷ c ∷ []) h =
    rw ((digit-alphabet (c % 64) (omega arith)).0) (group-digits a b c h.0 h.1.0 h.1.1.0 [])
b64url_decode-b64url (a ∷ b ∷ c ∷ d ∷ rest) h =
    rw
      (
        padding-length (length (b64url (d ∷ rest))),
        b64decode-group (digit (a / 4)) (digit (a % 4 * 16 + b / 16)) (digit (b % 16 * 4 + c / 64))
            (digit (c % 64)) (b64url (d ∷ rest) ++ padding (length (b64url (d ∷ rest))))
            (b64url-nonempty d rest _),
        b64url_decode-b64url (d ∷ rest) h.1.1.1,
      )
      (group-digits a b c h.0 h.1.0 h.1.1.0 (d ∷ rest))
