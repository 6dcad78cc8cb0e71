-- ===== src/Telegram/Notices.antt =====
-- `register_notification`, `_keyboard` and the texts of src/forge_controller/telegram_governance.py: what
-- leaves Forge for the owner's chat.
pub mod Registering
pub mod Repeating
use hermes_dev_team_vm.Prelude.{
  ℕ, zero, suc, String, Bool, true, false, not, ◌&&◌, ◌||◌, Option, none, some, List, [], ◌∷◌, ◌++◌,
  eqb, ltb, ◌==◌, if◌then◌else◌, is_empty, is_space, strip, lookup, Text, codes, text_eq, length,
  Result, ok, err, then_run, or_raise, ℤ, pos, negsuc,
}
use hermes_dev_team_vm.Models.{
  AuthorityLevel, l0, l1, l2, l3, DecisionAction, yes_action, no_action, defer, more_info,
}
use hermes_dev_team_vm.Governance.{DecisionRecord, is_closed}
use hermes_dev_team_vm.Calls.{Call, pure, raise, lift, gets, ◌>>=◌, ◌>>◌}
use hermes_dev_team_vm.Telegram.{
  TelegramError, MobileNotificationRequest, NotificationState, TelegramState, Keyboard, Event,
  TelegramHost, Session, perform, modify,
}
use hermes_dev_team_vm.Telegram.Codec.{Hashing, CallbackCodec, take, decision_key, encode}
use hermes_dev_team_vm.Telegram.Updates.{Action, may_defer, read_decision}
use hermes_dev_team_vm.Telegram.Updates.Polling.{save_state}

-- value.split(), behind the letters of a word so far
unfoldable pub words_from : Text → Text → List Text
unfolding is_space
words_from word [] = if is_empty word then [] else word ∷ []
words_from word (c ∷ s) =
    let rest = words_from (if is_space c then [] else word ++ (c ∷ [])) s in
    if is_space c && not (is_empty word) then word ∷ rest else rest

-- " ".join(parts)
abbrev pub spaced : List Text → Text
spaced [] = []
spaced (part ∷ []) = part
spaced (part ∷ next ∷ parts) = part ++ (b' ' ∷ spaced (next ∷ parts))

-- _clean_summary
unfoldable pub clean_summary : Option Text → Option Text
unfolding words_from
clean_summary none = none
clean_summary (some value) = some (spaced (words_from [] value))

-- The validators of `MobileNotificationRequest`.
unfoldable pub is_valid_request : MobileNotificationRequest → Bool
unfolding strip
is_valid_request payload =
    not (is_empty (codes payload.decision_id))
    && not (ltb 128 (length (codes payload.decision_id)))
    && elim payload.mobile_safe_summary [
      | none ↦ not payload.mobile_safe
      | some summary ↦
          payload.mobile_safe && not (is_empty (strip summary)) && not (ltb 600 (length summary))
    ]

-- a == b, for optional texts
abbrev pub summary_eq : Option Text → Option Text → Bool
summary_eq none none = true
summary_eq (some a) (some b) = text_eq a b
summary_eq _ _ = false

abbrev pub same_bool : Bool → Bool → Bool
same_bool true b = b
same_bool false b = not b

-- decision.authority.value
unfoldable pub authority_text : AuthorityLevel → Text
authority_text l0 = codes "L0"
authority_text l1 = codes "L1"
authority_text l2 = codes "L2"
authority_text l3 = codes "L3"

-- " · "
abbrev pub dot : Text
dot = b' ' ∷ 183 ∷ b' ' ∷ []

-- The first line of both texts, with the first eight characters of the key.
abbrev pub heading : AuthorityLevel → Text → Text
heading authority key =
    codes "Forge gate" ++ dot ++ authority_text authority ++ dot ++ take 8 key ++ (10 ∷ [])

-- _restricted_text, which reads the level and the identifier alone
unfoldable pub restricted_text : Hashing → AuthorityLevel → String → Result TelegramError Text
restricted_text hashing authority decision_id =
    then_run
      (λ key. ok (
        heading authority key
        ++ codes
            "Details withheld from Telegram by policy. Review this gate in a trusted Forge interface."))
      (decision_key hashing decision_id)

-- _mobile_safe_text
unfoldable pub mobile_safe_text :
    Hashing → AuthorityLevel → String → Text → Result TelegramError Text
mobile_safe_text hashing authority decision_id summary =
    then_run (λ key. ok (heading authority key ++ summary ++ (10 ∷ 10 ∷ codes "Choose one:")))
      (decision_key hashing decision_id)

unfoldable pub label : DecisionAction → String
label yes_action = "YES"
label no_action = "NO"
label defer = "DEFER"
label more_info = "MORE INFO"

unfoldable pub buttons :
    Hashing
    → CallbackCodec
    → String
    → List DecisionAction
    → Result TelegramError (List (String × Text))
buttons hashing codec decision_id [] = ok []
buttons hashing codec decision_id (chosen ∷ rest) =
    let others = buttons hashing codec decision_id rest in
    then_run (λ value. then_run (λ row. ok ((label chosen, value) ∷ row)) others)
      (encode hashing codec decision_id chosen)

-- _keyboard: two rows, of which none is empty
unfoldable pub keyboard :
    {Score : Type 0}
    → Hashing
    → CallbackCodec
    → DecisionRecord Score
    → Result TelegramError Keyboard
keyboard hashing codec decision =
    then_run
      (λ first.
        then_run (λ second. ok (first ∷ second ∷ []))
          (buttons hashing codec decision.decision_id
            (if may_defer decision then defer ∷ more_info ∷ [] else more_info ∷ [])))
      (buttons hashing codec decision.decision_id (yes_action ∷ no_action ∷ []))

abbrev pub or_empty : Option Text → Text
or_empty none = []
or_empty (some value) = value

-- The text and the buttons of a notice.
abbrev pub notice_of :
    {Score : Type 0}
    → Hashing
    → CallbackCodec
    → DecisionRecord Score
    → Option Text
    → Bool
    → Result TelegramError (Text × Option Keyboard)
notice_of hashing codec decision summary true =
    then_run (λ text. then_run (λ rows. ok (text, some rows)) (keyboard hashing codec decision))
      (mobile_safe_text hashing decision.authority decision.decision_id (or_empty summary))
notice_of hashing codec decision summary false =
    then_run (λ text. ok (text, none))
      (restricted_text hashing decision.authority decision.decision_id)

-- items[name] = value
abbrev pub put {ℓ} : {V : Type ℓ} → String → V → List (String × V) → List (String × V)
put name value [] = (name, value) ∷ []
put name value ((key, old) ∷ items) =
    let rest = put name value items in
    if key == name then (name, value) ∷ items else (key, old) ∷ rest

-- The `gt=0` of `message_id`.
abbrev pub is_positive : ℤ → Bool
is_positive (pos (suc n)) = true
is_positive _ = false

module _ {World Score : Type 0} (host : TelegramHost World Score) (hashing : Hashing)
    (codec : CallbackCodec) where
  unfoldable pub send : Text × Option Keyboard → Action host hashing codec ℤ
  send (text, rows) = perform (host.send_message text rows) (λ _. Event.message_sent text rows ∷ [])

  abbrev pub the_open : Option (DecisionRecord Score) → Result TelegramError (DecisionRecord Score)
  the_open none = err TelegramError.no_decision
  the_open (some decision) =
      if is_closed decision.status then err TelegramError.not_open_decision else ok decision

  abbrev pub new_notification :
      MobileNotificationRequest → DecisionRecord Score → ℤ → Result TelegramError NotificationState
  new_notification payload decision message_id =
      if is_positive message_id
      then ok (record {
        decision_id = decision.decision_id;
        mobile_safe = payload.mobile_safe;
        mobile_safe_summary = clean_summary payload.mobile_safe_summary;
        message_id = message_id;
      })
      else err TelegramError.validation_error

  -- The same policy as the one that was registered, or an error.
  abbrev pub same_policy :
      MobileNotificationRequest → NotificationState → Result TelegramError NotificationState
  same_policy payload existing =
      if same_bool existing.mobile_safe payload.mobile_safe
        && summary_eq existing.mobile_safe_summary (clean_summary payload.mobile_safe_summary)
      then ok existing
      else err TelegramError.other_policy

  unfoldable pub register_new :
      MobileNotificationRequest → Action host hashing codec NotificationState
  register_new payload = do
    found ← read_decision host hashing codec payload.decision_id
    decision ← lift (the_open found)
    notice ← lift (
        notice_of hashing codec decision (clean_summary payload.mobile_safe_summary)
          payload.mobile_safe)
    message_id ← send notice
    notification ← lift (new_notification payload decision message_id)
    modify (λ state. record state {
      notifications = put decision.decision_id notification state.notifications;
    })
    save_state host hashing codec
    pure notification

  abbrev pub register_known :
      MobileNotificationRequest
      → Option NotificationState
      → Action host hashing codec NotificationState
  register_known payload (some existing) = lift (same_policy payload existing)
  register_known payload none = register_new payload

  unfoldable pub register_notification :
      MobileNotificationRequest → Action host hashing codec NotificationState
  register_notification payload = gets (λ s. s.state.notifications) >>= λ notifications.
      register_known payload (lookup payload.decision_id notifications)
