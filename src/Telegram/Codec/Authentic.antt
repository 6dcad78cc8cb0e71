-- ===== src/Telegram/Codec/Authentic.antt =====
-- What `CallbackCodec.decode` of src/forge_controller/telegram_governance.py accepts.
use hermes_dev_team_vm.Prelude.{
  ℕ, ◌≡◌, refl, sym, ◌∙◌, ap, subst, not, Option, none, some, List, [], ◌∷◌, ◌++◌, eqb, Text,
  text_eq, text_eq_sound, ok, >>=-eq-ok, >>-eq-ok, or_raise, or_raise-eq-ok, checks, checks_iff,
  arith, not-false_iff, some_unique, ok_unique, Bool-cases, inl, inr, ◌≢◌,
}
use hermes_dev_team_vm.Models.{DecisionAction}
use hermes_dev_team_vm.Trust.Utf8.{utf8_encode}
use hermes_dev_team_vm.Telegram.{TelegramError}
use hermes_dev_team_vm.Telegram.Base64.{b64url_decode}
use hermes_dev_team_vm.Telegram.Codec.{
  Hashing, CallbackCodec, code_action, with_head, split, body_of, known_parts, bad_length, mac_of,
  decode, with_action, decimal, take,
}
use mathlib.Core.List.{append_assoc}

abbrev join : ℕ → List Text → Text
join separator [] = []
join separator (part ∷ []) = part
join separator (part ∷ next ∷ parts) = part ++ (separator ∷ join separator (next ∷ parts))

join-with_head :
    (separator c : ℕ) (parts : List Text)
    → join separator (with_head c parts) ≡ c ∷ join separator parts
join-with_head separator c [] = refl
join-with_head separator c (part ∷ []) = refl
join-with_head separator c (part ∷ next ∷ parts) = refl

join-cons :
    (separator : ℕ) (parts : List Text)
    → parts ≢ []
    → join separator ([] ∷ parts) ≡ separator ∷ join separator parts
join-cons separator [] h = absurd (h refl)
join-cons separator (part ∷ parts) h = refl

with_head-nonempty : (c : ℕ) (parts : List Text) → with_head c parts ≢ []
with_head-nonempty c [] e = cc
with_head-nonempty c (part ∷ parts) e = cc

split-nonempty : (separator : ℕ) (s : Text) → split separator s ≢ []
split-nonempty separator [] e = cc
split-nonempty separator (c ∷ s) e = elim (Bool-cases (eqb c separator)) [
  | inl same ↦ cc (rw same at e)
  | inr other ↦ absurd (with_head-nonempty c (split separator s) (rw other at e))
]

-- Splitting loses nothing.
join-split : (separator : ℕ) (s : Text) → join separator (split separator s) ≡ s
join-split separator [] = refl
join-split separator (c ∷ s) = elim (Bool-cases (eqb c separator)) [
  | inl same ↦
      let e : separator ≡ c = ground arith in
      rw
        (
          same,
          join-cons separator (split separator s) (split-nonempty separator s),
          join-split separator s,
          e,
        )
        refl
  | inr other ↦
      rw (other, join-with_head separator c (split separator s), join-split separator s) refl
]

join-body :
    (code key mac : Text)
    → join b':' ((b'1' ∷ []) ∷ code ∷ key ∷ mac ∷ []) ≡ body_of (b'1' ∷ []) code key ++ (b':' ∷ mac)
join-body code key mac = simp append_assoc refl

-- A text that names a decision and an action under a code of the owner's key, chat and user.
pub record IsSignedCallback (hashing : Hashing) (codec : CallbackCodec) (value key : Text)
    (chosen : DecisionAction) : Type 0 where
  pub code : Text
  pub mac_text : Text
  pub mac : List ℕ
  pub shape : value ≡ body_of (b'1' ∷ []) code key ++ (b':' ∷ mac_text)
  pub known : code_action code ≡ some chosen
  pub decoded : b64url_decode mac_text ≡ some mac
  pub bound : List ℕ
  pub binding :
      utf8_encode (
        body_of (b'1' ∷ []) code key
        ++ (b'|' ∷ decimal codec.owner_chat_id ++ (b'|' ∷ decimal codec.owner_user_id)))
      ≡ some bound
  pub signed : take 9 (hashing.hmac_sha256 codec.key bound) ≡ mac

mac_of-bound :
    (hashing : Hashing) (codec : CallbackCodec) (body : Text) (mac : List ℕ)
    → mac_of hashing codec body ≡ ok mac
    → (bound : List ℕ) × (utf8_encode
          (body ++ (b'|' ∷ decimal codec.owner_chat_id ++ (b'|' ∷ decimal codec.owner_user_id)))
        ≡ some bound)
      × (take 9 (hashing.hmac_sha256 codec.key bound) ≡ mac)
unfolding mac_of
mac_of-bound hashing codec body mac h =
    let (bound, encoded, e) = >>=-eq-ok (or_raise _ TelegramError.encode_error) _ h in
    (bound, or_raise-eq-ok _ _ encoded, ok_unique {E = TelegramError} refl e)

with_action-some :
    (version code key mac : Text) (o : Option DecisionAction)
    {parts : Text × Text × Text × Text × DecisionAction}
    → with_action version code key mac o ≡ some parts
    → (code ≡ parts.1)
      × (key ≡ parts.2)
      × (mac ≡ parts.3)
      × (version ≡ parts.0)
      × (o ≡ some parts.4)
with_action-some version code key mac none h = cc
with_action-some version code key mac (some chosen) {parts} h =
    let Parts : Type 0 = Text × Text × Text × Text × DecisionAction in
    let same : ◌≡◌ {A = Parts} (version, code, key, mac, chosen) parts = some_unique refl h in
    (
      ap (λ (p : Parts). p.1) same,
      ap (λ (p : Parts). p.2) same,
      ap (λ (p : Parts). p.3) same,
      ap (λ (p : Parts). p.0) same,
      ap (λ (p : Parts). some p.4) same,
    )

known_parts-shape :
    (texts : List Text) (parts : Text × Text × Text × Text × DecisionAction)
    → known_parts texts ≡ some parts
    → (texts ≡ (b'1' ∷ []) ∷ parts.1 ∷ parts.2 ∷ parts.3 ∷ [])
      × (parts.0 ≡ b'1' ∷ [])
      × (code_action parts.1 ≡ some parts.4)
known_parts-shape [] parts h = cc
known_parts-shape (a ∷ []) parts h = cc
known_parts-shape (a ∷ b ∷ []) parts h = cc
known_parts-shape (a ∷ b ∷ c ∷ []) parts h = cc
known_parts-shape (a ∷ b ∷ c ∷ d ∷ e ∷ rest) parts h = cc
known_parts-shape (a ∷ b ∷ c ∷ d ∷ []) parts h = elim (Bool-cases (text_eq a (b'1' ∷ []))) [
  | inl one ↦
      let first = text_eq_sound a (b'1' ∷ []) one in
      let (code, key, mac, version, known) =
        with_action-some a b c d (code_action b) (rw one at h) in
      (
        cc (first, code, key, mac),
        sym version ∙ first,
        subst (λ (t : Text). code_action t ≡ some parts.4) code known,
      )
  | inr other ↦ cc (rw other at h)
]

-- What `decode` accepts is the version, the code of the action that it returns, the key that it
-- returns and a signature, with colons between; the signature decodes to the first nine bytes of
-- the HMAC, under the key of the codec, of the other parts followed by the chat and the owner.
pub decode-IsSignedCallback :
    (hashing : Hashing) (codec : CallbackCodec) (value key : Text) (chosen : DecisionAction)
    → decode hashing codec value ≡ ok (key, chosen)
    → IsSignedCallback hashing codec value key chosen
unfolding decode
decode-IsSignedCallback hashing codec value key chosen h =
    let (encoded, _, h₁) =
      >>=-eq-ok (or_raise (utf8_encode value) TelegramError.encode_error) _ h in
    let (_, h₂) =
      >>-eq-ok (checks ((bad_length encoded, TelegramError.bad_data_length) ∷ [])) _ h₁ in
    let (parts, split_parts, h₃) =
      >>=-eq-ok (or_raise (known_parts (split b':' value)) TelegramError.bad_data) _ h₂ in
    let (mac, signed, h₄) =
      >>=-eq-ok (mac_of hashing codec (body_of parts.0 parts.1 parts.2)) _ h₃ in
    let (supplied, decoded, h₅) =
      >>=-eq-ok (or_raise (b64url_decode parts.3) TelegramError.bad_signature) _ h₄ in
    let (same, h₆) =
      >>-eq-ok (checks ((not (text_eq mac supplied), TelegramError.not_authentic) ∷ [])) _ h₅ in
    let (shape, version, known) =
      known_parts-shape (split b':' value) parts (or_raise-eq-ok _ _ split_parts) in
    let macs = text_eq_sound mac supplied (
      (not-false_iff _).0
        ((checks_iff ((not (text_eq mac supplied), TelegramError.not_authentic) ∷ [])).0 same).0) in
    let result = ok_unique {E = TelegramError} refl h₆ in
    let key_same : parts.2 ≡ key = ap (λ (r : Text × DecisionAction). r.0) result in
    let action_same : parts.4 ≡ chosen = ap (λ (r : Text × DecisionAction). r.1) result in
    let body_signed =
      subst (λ (k : Text). mac_of hashing codec (body_of (b'1' ∷ []) parts.1 k) ≡ ok mac) key_same
        (subst (λ (v : Text). mac_of hashing codec (body_of v parts.1 parts.2) ≡ ok mac) version
          signed) in
    let (bound, binding, code_of) = mac_of-bound hashing codec _ mac body_signed in
    record {
      code = parts.1;
      mac_text = parts.3;
      mac = mac;
      shape =
          sym (join-split b':' value)
          ∙ ap (join b':') shape
          ∙ join-body parts.1 parts.2 parts.3
          ∙ ap (λ (k : Text). body_of (b'1' ∷ []) parts.1 k ++ (b':' ∷ parts.3)) key_same;
      known = known ∙ ap some action_same;
      decoded = or_raise-eq-ok _ _ decoded ∙ ap some (sym macs);
      bound = bound;
      binding = binding;
      signed = code_of;
    }
