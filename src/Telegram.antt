-- ===== src/Telegram.antt =====
-- src/forge_controller/telegram_governance.py: errors, state, and the outside world of the service, with a
-- log of what it sent. `Codec` has the data of the buttons, `Updates` what a press does, `Notices`
-- what leaves Forge.
pub mod Base64
pub mod Codec
pub mod Updates
pub mod Notices
mod Samples
use hermes_dev_team_vm.Prelude.{
  ℕ, String, Bool, true, false, Option, none, some, List, [], ◌∷◌, ◌++◌, Text, Result, ok, err, ℤ,
}
use hermes_dev_team_vm.Json.{Json, Members}
use hermes_dev_team_vm.Models.{DecisionAction}
use hermes_dev_team_vm.Governance.{DecisionRecord}
use hermes_dev_team_vm.Calls.{Call}

-- `TelegramGovernanceError` by message, and what else the calls let through.
pub data TelegramError : Type 0 where
  data_too_long bad_data_length bad_data bad_signature not_authentic : TelegramError
  other_policy no_decision not_open_decision : TelegramError
  -- of the clients of the Bot API and of Forge
  client_failed : TelegramError
  -- UnicodeEncodeError, TypeError, the `OSError` of a save and ValidationError, which no handler expects
  encode_error type_error save_failed validation_error : TelegramError

-- except TelegramGovernanceError
unfoldable pub is_governance_error : TelegramError → Bool
is_governance_error TelegramError.encode_error = false
is_governance_error TelegramError.type_error = false
is_governance_error TelegramError.save_failed = false
is_governance_error TelegramError.validation_error = false
is_governance_error _ = true

pub record MobileNotificationRequest : Type 0 where
  pub decision_id : String
  pub mobile_safe : Bool
  pub mobile_safe_summary : Option Text

pub record NotificationState : Type 0 where
  pub decision_id : String
  pub mobile_safe : Bool
  pub mobile_safe_summary : Option Text
  pub message_id : ℤ

-- `notifications` is a dictionary, by the identifier of the decision.
pub record TelegramState : Type 0 where
  pub update_offset : ℕ
  pub notifications : List (String × NotificationState)
  pub processed_callback_ids : List String
  pub last_digest_date : Option String

-- A row of buttons, each with its label and the data of its callback.
abbrev pub Keyboard : Type 0
Keyboard = List (List (String × Text))

-- What the service sent, the latest first.
pub data Event (Score : Type 0) : Type 0 where
  decision_read : String → Option (DecisionRecord Score) → Event Score
  applied : String → DecisionAction → Event Score
  message_sent : Text → Option Keyboard → Event Score
  answered : String → String → Event Score
  keyboard_cleared : ℤ → Event Score

-- The clients of the Bot API and of the governance API of Forge, and the file of the state. An owner
-- action returns whether it was handled before.
pub record TelegramHost (World Score : Type 0) : Type 0 where
  pub get_updates : ℕ → ℕ → Call TelegramError World (List Members)
  pub send_message : Text → Option Keyboard → Call TelegramError World ℤ
  pub answer_callback_query : String → String → Call TelegramError World (Unit {0})
  pub clear_keyboard : ℤ → Call TelegramError World (Unit {0})
  pub get_decision : String → Call TelegramError World (Option (DecisionRecord Score))
  pub apply_action : String → DecisionAction → Call TelegramError World Bool
  pub save : TelegramState → Call TelegramError World (Unit {0})
  -- `int(value)` of a text or a float, where it does not raise
  pub int_of : Json → Option ℤ

pub record Session (World Score : Type 0) : Type 0 where
  pub world : World
  pub state : TelegramState
  pub log : List (Event Score)

-- A call on the outside, and what the log keeps of it.
unfoldable pub perform :
    {World Score A : Type 0}
    → Call TelegramError World A
    → (Result TelegramError A → List (Event Score))
    → Call TelegramError (Session World Score) A
perform call note s =
    let (r, world) = call s.world in
    (r, record { world = world; state = s.state; log = note r ++ s.log })

unfoldable pub modify :
    {World Score : Type 0}
    → (TelegramState → TelegramState)
    → Call TelegramError (Session World Score) (Unit {0})
modify change s = (ok tt, record { world = s.world; state = change s.state; log = s.log })
