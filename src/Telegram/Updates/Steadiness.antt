-- ===== src/Telegram/Updates/Steadiness.antt =====
-- What handling an update leaves of the state of the service of
-- src/forge_controller/telegram_governance.py.
use hermes_dev_team_vm.Prelude.{
  ℕ, zero, suc, ◌-◌, ◌≤◌, ◌≡◌, refl, ◌∙◌, String, Bool, true, false, Option, none, some, List, [],
  ◌∷◌, ◌++◌, if◌then◌else◌, length, Result, ok, err, ℤ, arith, Text,
}
use hermes_dev_team_vm.Json.{Members, get}
use hermes_dev_team_vm.Models.{DecisionAction}
use hermes_dev_team_vm.Governance.{DecisionRecord}
use hermes_dev_team_vm.Calls.{Call, raise}
use hermes_dev_team_vm.Calls.Keeps.{
  IsChained, Keeps, Keeps-pure, Keeps-lift, Keeps-gets, Keeps-bind,
}
use hermes_dev_team_vm.Telegram.{
  TelegramError, is_governance_error, NotificationState, TelegramState, Event, TelegramHost,
  Session, perform, modify,
}
use hermes_dev_team_vm.Telegram.Codec.{Hashing, CallbackCodec}
use hermes_dev_team_vm.Telegram.Updates.{
  max_processed_callbacks, drop, last, answer, clear, read_decision, apply, mark, reject,
  clear_pressed, act, decide, handle_item, handle_match, handle_decoded, handle_payload,
  handle_in_context, handle_callback, handle_once, handle_identified, handle_query, handle_update,
}
use hermes_dev_team_vm.Json.{as_object}

-- The offset does not fall, the processed callbacks stay within their bound, and no notification is
-- lost or made.
pub record IsSteady (before after : TelegramState) : Type 0 where
  pub forward : before.update_offset ≤ after.update_offset
  pub bounded :
      length before.processed_callback_ids ≤ max_processed_callbacks
      → length after.processed_callback_ids ≤ max_processed_callbacks
  pub notified : after.notifications ≡ before.notifications

length-drop : (n : ℕ) (xs : List String) → length (drop n xs) ≡ length xs - n
length-drop zero xs = omega arith
length-drop (suc n) [] = omega arith
length-drop (suc n) (x ∷ xs) = omega (arith, length-drop n xs)

length-last : (n : ℕ) (xs : List String) → length (last n xs) ≤ n
length-last n xs = omega (arith, length-drop (length xs - n) xs)

module _ {World Score : Type 0} where
  abbrev pub Steady : Bool → Session World Score → Session World Score → Type 0
  Steady returned s t = IsSteady s.state t.state

  pub steady : IsChained Steady
  steady = record {
    same = λ b s. record { forward = omega arith; bounded = λ h. h; notified = refl };
    chain = λ a b s t u h k. record {
      forward = omega (arith, h.forward, k.forward);
      bounded = λ x. k.bounded (h.bounded x);
      notified = k.notified ∙ h.notified;
    };
  }

  pub perform-Steady :
      {A : Type 0} (call : Call TelegramError World A)
      (note : Result TelegramError A → List (Event Score))
      → Keeps Steady (perform call note)
  unfolding perform
  perform-Steady call note = record { holds = λ s. steady.same true s }

  raise-Steady : {A : Type 0} (e : TelegramError) → Keeps Steady (raise {A = A} e)
  unfolding raise
  raise-Steady e = record { holds = λ s. steady.same false s }

module _ {World Score : Type 0} (host : TelegramHost World Score) (hashing : Hashing)
    (codec : CallbackCodec) where
  mark-Steady : (callback_id : String) → Keeps Steady (mark host hashing codec callback_id)
  unfolding mark modify
  mark-Steady callback_id = record {
    holds = λ s. record {
      forward = omega arith;
      bounded = λ _.
          length-last max_processed_callbacks
            (s.state.processed_callback_ids ++ (callback_id ∷ []));
      notified = refl;
    };
  }

  answer-Steady :
      (callback_id text : String) → Keeps Steady (answer host hashing codec callback_id text)
  unfolding answer
  answer-Steady callback_id text = perform-Steady (host.answer_callback_query callback_id text) _

  reject-Steady :
      (callback_id text : String) → Keeps Steady (reject host hashing codec callback_id text)
  unfolding reject
  reject-Steady callback_id text =
      Keeps-bind steady _ _ (answer-Steady callback_id text) (λ _. mark-Steady callback_id)

  clear_pressed-Steady :
      (final : Bool) (message_id : Option ℤ)
      → Keeps Steady (clear_pressed host hashing codec final message_id)
  unfolding clear_pressed clear
  clear_pressed-Steady true (some message_id) = perform-Steady (host.clear_keyboard message_id) _
  clear_pressed-Steady true none = Keeps-pure steady tt
  clear_pressed-Steady false message_id = Keeps-pure steady tt

  act-Steady :
      (callback_id : String) (callback : Members) (decision_id : String) (chosen : DecisionAction)
      → Keeps Steady (act host hashing codec callback_id callback decision_id chosen)
  unfolding act apply
  act-Steady callback_id callback decision_id chosen =
      Keeps-bind steady _ _ (perform-Steady (host.apply_action decision_id chosen) _) λ already.
        Keeps-bind steady _ _ (answer-Steady callback_id _)
          λ _. Keeps-bind steady _ _ (clear_pressed-Steady _ _) λ _. mark-Steady callback_id

  decide-Steady :
      (callback_id : String) (callback : Members) (chosen : DecisionAction)
      (found : Option (DecisionRecord Score)) (fault : Option String)
      → Keeps Steady (decide host hashing codec callback_id callback chosen found fault)
  decide-Steady callback_id callback chosen found (some text) = reject-Steady callback_id text
  decide-Steady callback_id callback chosen none none = reject-Steady callback_id _
  decide-Steady callback_id callback chosen (some decision) none =
      act-Steady callback_id callback decision.decision_id chosen

  handle_item-Steady :
      (callback_id : String) (callback : Members) (chosen : DecisionAction)
      (item : NotificationState) (safe : Bool)
      → Keeps Steady (handle_item host hashing codec callback_id callback chosen item safe)
  unfolding read_decision
  handle_item-Steady callback_id callback chosen item false = reject-Steady callback_id _
  handle_item-Steady callback_id callback chosen item true =
      Keeps-bind steady _ _ (perform-Steady (host.get_decision item.decision_id) _)
        λ found. decide-Steady callback_id callback chosen found _

  handle_match-Steady :
      (callback_id : String) (callback : Members) (chosen : DecisionAction)
      (matches : List NotificationState)
      → Keeps Steady (handle_match host hashing codec callback_id callback chosen matches)
  unfolding handle_match
  handle_match-Steady callback_id callback chosen [] = reject-Steady callback_id _
  handle_match-Steady callback_id callback chosen (item ∷ []) =
      handle_item-Steady callback_id callback chosen item item.mobile_safe
  handle_match-Steady callback_id callback chosen (item ∷ other ∷ items) =
      reject-Steady callback_id _

  if_expected-Steady :
      (expected : Bool) (e : TelegramError) (callback_id : String)
      → Keeps Steady (
          if expected
          then reject host hashing codec callback_id "Invalid or expired action"
          else raise e)
  if_expected-Steady true e callback_id = reject-Steady callback_id _
  if_expected-Steady false e callback_id = raise-Steady e

  handle_decoded-Steady :
      (callback_id : String) (callback : Members) (r : Result TelegramError (Text × DecisionAction))
      → Keeps Steady (handle_decoded host hashing codec callback_id callback r)
  unfolding handle_decoded
  handle_decoded-Steady callback_id callback (err e) =
      if_expected-Steady (is_governance_error e) e callback_id
  handle_decoded-Steady callback_id callback (ok (key, chosen)) =
      Keeps-bind steady _ _ (Keeps-gets steady _) λ notifications.
        Keeps-bind steady _ _ (Keeps-lift steady _)
          λ matches. handle_match-Steady callback_id callback chosen matches

  handle_in_context-Steady :
      (callback_id : String) (callback : Members) (fault : Option String)
      → Keeps Steady (handle_in_context host hashing codec callback_id callback fault)
  handle_in_context-Steady callback_id callback (some text) = reject-Steady callback_id text
  handle_in_context-Steady callback_id callback none = by_payload _
    where
      by_payload :
          (given : Option String)
          → Keeps Steady (handle_payload host hashing codec callback_id callback given)
      by_payload none = reject-Steady callback_id _
      by_payload (some payload) = handle_decoded-Steady callback_id callback _

  handle_once-Steady :
      (callback_id : String) (callback : Members) (seen : Bool)
      → Keeps Steady (handle_once host hashing codec callback_id callback seen)
  unfolding handle_callback
  handle_once-Steady callback_id callback true = answer-Steady callback_id _
  handle_once-Steady callback_id callback false = handle_in_context-Steady callback_id callback _

  handle_query-Steady :
      (query : Option Members) → Keeps Steady (handle_query host hashing codec query)
  handle_query-Steady none = Keeps-pure steady tt
  handle_query-Steady (some callback) = by_identifier _
    where
      by_identifier :
          (identified : Option String)
          → Keeps Steady (handle_identified host hashing codec callback identified)
      by_identifier none = Keeps-pure steady tt
      by_identifier (some callback_id) =
          Keeps-bind steady _ _ (Keeps-gets steady _)
            λ processed. handle_once-Steady callback_id callback _

  pub handle_update-Steady :
      (update : Members) → Keeps Steady (handle_update host hashing codec update)
  unfolding handle_update
  handle_update-Steady update = handle_query-Steady (as_object (get "callback_query" update))
