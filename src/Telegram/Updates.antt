-- ===== src/Telegram/Updates.antt =====
-- `poll_once`, `_handle_update` and `_mark_callback_processed` of
-- src/forge_controller/telegram_governance.py: what a press of a button does.
pub mod Handling
pub mod Confirming
pub mod Polling
pub mod Steadiness
pub mod Acknowledging
pub mod Acting
pub mod Blocking
use hermes_dev_team_vm.Prelude.{
  ℕ, zero, suc, ◌+◌, ◌-◌, max, String, Bool, true, false, not, ◌&&◌, ◌||◌, Option, none, some, List,
  [], ◌∷◌, ◌++◌, eqb, leb, if◌then◌else◌, member, option_eq, Text, codes, text_eq, length, Result,
  ok, err, or_raise, ℤ, pos, negsuc, then_run,
}
use hermes_dev_team_vm.Json.{
  Json, Members, get, get_if_object, as_text, as_object, as_int, equals_int, integer, boolean,
}
use hermes_dev_team_vm.Models.{DecisionAction, yes_action, no_action, defer, more_info}
use hermes_dev_team_vm.Governance.{DecisionRecord, is_closed}
use hermes_dev_team_vm.Calls.{Call, pure, raise, lift, gets, ◌>>=◌, ◌>>◌}
use hermes_dev_team_vm.Telegram.{
  TelegramError, is_governance_error, NotificationState, TelegramState, Event, TelegramHost,
  Session, perform, modify,
}
use hermes_dev_team_vm.Telegram.Codec.{Hashing, CallbackCodec, decision_key, decode}

-- _MAX_PROCESSED_CALLBACKS
abbrev pub max_processed_callbacks : ℕ
max_processed_callbacks = 256

abbrev pub drop {ℓ} : {A : Type ℓ} → ℕ → List A → List A
drop zero xs = xs
drop (suc n) [] = []
drop (suc n) (x ∷ xs) = drop n xs

-- values[-n:], for n > 0
abbrev pub last {ℓ} : {A : Type ℓ} → ℕ → List A → List A
last n xs = drop (length xs - n) xs

-- The first text of the row whose test holds.
abbrev pub first_fault : List (Bool × String) → Option String
first_fault [] = none
first_fault ((true, answer) ∷ row) = some answer
first_fault ((false, answer) ∷ row) = first_fault row

abbrev pub is_missing {ℓ} : {A : Type ℓ} → Option A → Bool
is_missing none = true
is_missing (some value) = false

-- Who pressed the button, and where: the tests before the data is read.
abbrev pub context_faults : CallbackCodec → Members → List (Bool × String)
context_faults codec callback =
    (
      not (equals_int (get_if_object "id" (get "from" callback)) codec.owner_user_id),
      "Not authorised",
    )
    ∷ (
      is_missing (as_object (get_if_object "chat" (get "message" callback))),
      "Invalid message context",
    )
    ∷ (
      not (
            equals_int (get_if_object "id" (get_if_object "chat" (get "message" callback)))
              codec.owner_chat_id)
          || not (
              option_eq
                (as_text (get_if_object "type" (get_if_object "chat" (get "message" callback))))
                (some "private")),
      "Not authorised",
    )
    ∷ (is_missing (as_text (get "data" callback)), "Invalid action")
    ∷ []

abbrev pub with_match : Bool → NotificationState → List NotificationState → List NotificationState
with_match true item items = item ∷ items
with_match false item items = items

-- The notifications whose decision has the key.
unfoldable pub matching :
    Hashing
    → Text
    → List (String × NotificationState)
    → Result TelegramError (List NotificationState)
matching hashing key [] = ok []
matching hashing key ((_, item) ∷ items) =
    let rest = matching hashing key items in
    then_run (λ own. then_run (λ others. ok (with_match (text_eq own key) item others)) rest)
      (decision_key hashing item.decision_id)

-- decision.classification is not None and decision.classification.defer_allowed
unfoldable pub may_defer : {Score : Type 0} → DecisionRecord Score → Bool
may_defer decision = elim decision.classification [
  | none ↦ false
  | some classification ↦ classification.defer_allowed
]

unfoldable pub is_defer : DecisionAction → Bool
is_defer defer = true
is_defer _ = false

-- action in {DecisionAction.YES, DecisionAction.NO}
unfoldable pub is_final : DecisionAction → Bool
is_final yes_action = true
is_final no_action = true
is_final _ = false

unfoldable pub status_text : DecisionAction → String
status_text yes_action = "Approved"
status_text no_action = "Rejected"
status_text defer = "Deferred"
status_text more_info = "More information requested"

module _ {World Score : Type 0} (host : TelegramHost World Score) (hashing : Hashing)
    (codec : CallbackCodec) where
  abbrev pub Action : Type 0 → Type 0
  Action A = Call TelegramError (Session World Score) A

  unfoldable pub answer : String → String → Action (Unit {0})
  answer callback_id text =
      perform (host.answer_callback_query callback_id text)
        (λ _. Event.answered callback_id text ∷ [])

  unfoldable pub clear : ℤ → Action (Unit {0})
  clear message_id =
      perform (host.clear_keyboard message_id) (λ _. Event.keyboard_cleared message_id ∷ [])

  abbrev pub note_decision :
      String → Result TelegramError (Option (DecisionRecord Score)) → List (Event Score)
  note_decision decision_id (ok found) = Event.decision_read decision_id found ∷ []
  note_decision decision_id (err e) = []

  unfoldable pub read_decision : String → Action (Option (DecisionRecord Score))
  read_decision decision_id = perform (host.get_decision decision_id) (note_decision decision_id)

  unfoldable pub apply : String → DecisionAction → Action Bool
  apply decision_id chosen =
      perform (host.apply_action decision_id chosen) (λ _. Event.applied decision_id chosen ∷ [])

  -- _mark_callback_processed
  unfoldable pub mark : String → Action (Unit {0})
  mark callback_id = modify (λ state. record state {
    processed_callback_ids =
        last max_processed_callbacks (state.processed_callback_ids ++ (callback_id ∷ []));
  })

  -- The two lines of every refusal.
  unfoldable pub reject : String → String → Action (Unit {0})
  reject callback_id text = do answer callback_id text; mark callback_id

  -- if isinstance(message_id, int): clear_keyboard(...)
  unfoldable pub clear_pressed : Bool → Option ℤ → Action (Unit {0})
  clear_pressed true (some message_id) = clear message_id
  clear_pressed _ _ = pure tt

  -- The action is sent to Forge; the callback counts as processed after that.
  unfoldable pub act : String → Members → String → DecisionAction → Action (Unit {0})
  act callback_id callback decision_id chosen = do
    already ← apply decision_id chosen
    answer callback_id (if already then "Already handled" else status_text chosen)
    clear_pressed (is_final chosen || already)
        (as_int (get_if_object "message_id" (get "message" callback)))
    mark callback_id

  -- The tests of the decision, as Forge has it now.
  abbrev pub decision_fault : DecisionAction → Option (DecisionRecord Score) → Option String
  decision_fault chosen none = some "Decision is no longer open"
  decision_fault chosen (some decision) = first_fault (
      (is_closed decision.status, "Decision is no longer open")
      ∷ (is_defer chosen && not (may_defer decision), "DEFER is not allowed for this gate")
      ∷ [])

  -- `apply_action` names the decision by what Forge returned.
  abbrev pub decide :
      String
      → Members
      → DecisionAction
      → Option (DecisionRecord Score)
      → Option String
      → Action (Unit {0})
  decide callback_id callback chosen found (some text) = reject callback_id text
  decide callback_id callback chosen none none = reject callback_id "Decision is no longer open"
  decide callback_id callback chosen (some decision) none =
      act callback_id callback decision.decision_id chosen

  -- The one notification that the key names, and whether it is mobile-safe.
  abbrev pub handle_item :
      String → Members → DecisionAction → NotificationState → Bool → Action (Unit {0})
  handle_item callback_id callback chosen item false =
      reject callback_id "This decision cannot be actioned in Telegram"
  handle_item callback_id callback chosen item true = read_decision item.decision_id >>= λ found.
      decide callback_id callback chosen found (decision_fault chosen found)

  unfoldable pub handle_match :
      String → Members → DecisionAction → List NotificationState → Action (Unit {0})
  handle_match callback_id callback chosen (item ∷ []) =
      handle_item callback_id callback chosen item item.mobile_safe
  handle_match callback_id callback chosen _ = reject callback_id "Decision is no longer available"

  -- What `decode` made of the data; any other exception is raised on.
  unfoldable pub handle_decoded :
      String → Members → Result TelegramError (Text × DecisionAction) → Action (Unit {0})
  handle_decoded callback_id callback (err e) =
      if is_governance_error e then reject callback_id "Invalid or expired action" else raise e
  handle_decoded callback_id callback (ok (key, chosen)) = do
    notifications ← gets (λ s. s.state.notifications)
    matches ← lift (matching hashing key notifications)
    handle_match callback_id callback chosen matches

  abbrev pub handle_payload : String → Members → Option String → Action (Unit {0})
  handle_payload callback_id callback none = reject callback_id "Invalid action"
  handle_payload callback_id callback (some payload) =
      handle_decoded callback_id callback (decode hashing codec (codes payload))

  abbrev pub handle_in_context : String → Members → Option String → Action (Unit {0})
  handle_in_context callback_id callback (some text) = reject callback_id text
  handle_in_context callback_id callback none =
      handle_payload callback_id callback (as_text (get "data" callback))

  unfoldable pub handle_callback : String → Members → Action (Unit {0})
  handle_callback callback_id callback =
      handle_in_context callback_id callback (first_fault (context_faults codec callback))

  abbrev pub handle_once : String → Members → Bool → Action (Unit {0})
  handle_once callback_id callback true = answer callback_id "Already processed"
  handle_once callback_id callback false = handle_callback callback_id callback

  abbrev pub handle_identified : Members → Option String → Action (Unit {0})
  handle_identified callback none = pure tt
  handle_identified callback (some callback_id) =
      gets (λ s. s.state.processed_callback_ids) >>= λ processed.
      handle_once callback_id callback (member callback_id processed)

  abbrev pub handle_query : Option Members → Action (Unit {0})
  handle_query none = pure tt
  handle_query (some callback) = handle_identified callback (as_text (get "id" callback))

  -- _handle_update
  unfoldable pub handle_update : Members → Action (Unit {0})
  handle_update update = handle_query (as_object (get "callback_query" update))
