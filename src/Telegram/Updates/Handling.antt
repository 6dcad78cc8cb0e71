-- ===== src/Telegram/Updates/Handling.antt =====
-- When a press of a button reaches Forge: `_handle_update` of
-- src/forge_controller/telegram_governance.py.
use hermes_dev_team_vm.Prelude.{
  ◌≡◌, refl, ◌∙◌, ap, String, Bool, true, false, ◌||◌, Option, none, some, List, [], ◌∷◌, ◌++◌,
  if◌then◌else◌, member, Text, codes, Result, ok, err, Memᴰ, Memᴰ_right, ℤ, ok_unique,
}
use hermes_dev_team_vm.Json.{Members, get, get_if_object, as_text, as_object, as_int}
use hermes_dev_team_vm.Models.{DecisionAction}
use hermes_dev_team_vm.Governance.{DecisionRecord, is_closed}
use hermes_dev_team_vm.Calls.{Call}
use hermes_dev_team_vm.Calls.Keeps.{IsChained, Keeps, Keeps-pure, Keeps-bind, bind_cases}
use hermes_dev_team_vm.Telegram.{
  TelegramError, NotificationState, TelegramState, Event, TelegramHost, Session, perform, modify,
}
use hermes_dev_team_vm.Telegram.Codec.{Hashing, CallbackCodec}
use hermes_dev_team_vm.Telegram.Codec.Authentic.{IsSignedCallback}
use hermes_dev_team_vm.Telegram.Updates.{
  first_fault, context_faults, matching, may_defer, is_defer, answer, clear, read_decision,
  note_decision, apply, mark, reject, clear_pressed, act, is_final, status_text,
}

module _ {Score : Type 0} where
  -- The actions that were sent to Forge, the latest first.
  abbrev pub actions : List (Event Score) → List (String × DecisionAction)
  actions [] = []
  actions (Event.applied decision_id chosen ∷ log) = (decision_id, chosen) ∷ actions log
  actions (_ ∷ log) = actions log

  pub record IsQuiet (log later : List (Event Score)) : Type 0 where
    pub kept : (e : Event Score) → Memᴰ e log → Memᴰ e later
    pub same : actions later ≡ actions log

module _ {World Score : Type 0} where
  abbrev pub Quiet : Bool → Session World Score → Session World Score → Type 0
  Quiet returned s t = IsQuiet s.log t.log

  pub quiet : IsChained Quiet
  quiet = record {
    same = λ b s. record { kept = λ e m. m; same = refl };
    chain = λ a b s t u h k. record { kept = λ e m. k.kept e (h.kept e m); same = k.same ∙ h.same };
  }

  pub perform-Quiet :
      {A : Type 0} (call : Call TelegramError World A)
      (note : Result TelegramError A → List (Event Score))
      → ((r : Result TelegramError A) (log : List (Event Score))
          → actions (note r ++ log) ≡ actions log)
      → Keeps Quiet (perform call note)
  unfolding perform
  perform-Quiet call note same = record {
    holds = λ s. record {
      kept = λ e m. Memᴰ_right (note (call s.world).0) s.log m;
      same = same (call s.world).0 s.log;
    };
  }

  pub modify-Quiet : (change : TelegramState → TelegramState) → Keeps Quiet (modify change)
  unfolding modify
  modify-Quiet change = record { holds = λ s. record { kept = λ e m. m; same = refl } }

module _ {World Score : Type 0} (host : TelegramHost World Score) (hashing : Hashing)
    (codec : CallbackCodec) where
  pub answer-Quiet :
      (callback_id text : String) → Keeps Quiet (answer host hashing codec callback_id text)
  unfolding answer
  answer-Quiet callback_id text =
      perform-Quiet (host.answer_callback_query callback_id text) _ (λ _ _. refl)

  pub note_decision-quiet :
      (decision_id : String) (r : Result TelegramError (Option (DecisionRecord Score)))
      (log : List (Event Score))
      → actions (note_decision host hashing codec decision_id r ++ log) ≡ actions log
  note_decision-quiet decision_id (ok found) log = refl
  note_decision-quiet decision_id (err e) log = refl

  pub read_decision-Quiet :
      (decision_id : String) → Keeps Quiet (read_decision host hashing codec decision_id)
  unfolding read_decision
  read_decision-Quiet decision_id =
      perform-Quiet (host.get_decision decision_id) _ (note_decision-quiet decision_id)

  pub mark-Quiet : (callback_id : String) → Keeps Quiet (mark host hashing codec callback_id)
  unfolding mark
  mark-Quiet callback_id = modify-Quiet _

  pub reject-Quiet :
      (callback_id text : String) → Keeps Quiet (reject host hashing codec callback_id text)
  unfolding reject
  reject-Quiet callback_id text =
      Keeps-bind quiet _ _ (answer-Quiet callback_id text) (λ _. mark-Quiet callback_id)

  pub clear_pressed-Quiet :
      (final : Bool) (message_id : Option ℤ)
      → Keeps Quiet (clear_pressed host hashing codec final message_id)
  unfolding clear_pressed clear
  clear_pressed-Quiet true (some message_id) =
      perform-Quiet (host.clear_keyboard message_id) _ (λ _ _. refl)
  clear_pressed-Quiet true none = Keeps-pure quiet tt
  clear_pressed-Quiet false message_id = Keeps-pure quiet tt

  -- Why an action may be sent: the callback is new, the owner pressed a button in the private chat, the
  -- button is signed for the owner, it names one mobile-safe notification, and its decision is open,
  -- by what Forge answered, and can be deferred if that is the action.
  pub record IsConfirmed (state : TelegramState) (update : Members) (decision_id : String)
      (chosen : DecisionAction) (log : List (Event Score)) : Type 0 where
    pub callback : Members
    pub pressed : as_object (get "callback_query" update) ≡ some callback
    pub callback_id : String
    pub identified : as_text (get "id" callback) ≡ some callback_id
    pub fresh : member callback_id state.processed_callback_ids ≡ false
    pub in_context : first_fault (context_faults codec callback) ≡ none
    pub payload : String
    pub given : as_text (get "data" callback) ≡ some payload
    pub key : Text
    pub signed : IsSignedCallback hashing codec (codes payload) key chosen
    pub item : NotificationState
    pub unique : matching hashing key state.notifications ≡ ok (item ∷ [])
    pub safe : item.mobile_safe ≡ true
    pub decision : DecisionRecord Score
    pub read : Memᴰ (Event.decision_read item.decision_id (some decision)) log
    pub named : decision.decision_id ≡ decision_id
    pub is_open : is_closed decision.status ≡ false
    pub deferrable : is_defer chosen ≡ true → may_defer decision ≡ true

  -- What a call that handles the update did: it sent nothing to Forge, or one action that was confirmed.
  pub data HandleOutcome (state : TelegramState) (update : Members) (log later : List (Event Score))
      : Type 0 where
    idle : actions later ≡ actions log → HandleOutcome state update log later
    acted :
        (decision_id : String) (chosen : DecisionAction)
        → actions later ≡ (decision_id, chosen) ∷ actions log
        → IsConfirmed state update decision_id chosen later
        → HandleOutcome state update log later

  apply-actions :
      (decision_id : String) (chosen : DecisionAction) (s : Session World Score)
      → (actions (apply host hashing codec decision_id chosen s).1.log
          ≡ (decision_id, chosen) ∷ actions s.log)
        × ((e : Event Score)
            → Memᴰ e s.log
            → Memᴰ e (apply host hashing codec decision_id chosen s).1.log)
  unfolding apply perform
  apply-actions decision_id chosen s = (refl, λ e m. Memᴰ.tail m)

  pub act-actions :
      (callback_id : String) (callback : Members) (decision_id : String) (chosen : DecisionAction)
      (s : Session World Score)
      → (actions (act host hashing codec callback_id callback decision_id chosen s).1.log
          ≡ (decision_id, chosen) ∷ actions s.log)
        × ((e : Event Score)
            → Memᴰ e s.log
            → Memᴰ e (act host hashing codec callback_id callback decision_id chosen s).1.log)
  unfolding act
  act-actions callback_id callback decision_id chosen s =
      bind_cases
        (λ (o : Result TelegramError (Unit {0}) × Session World Score).
          (actions o.1.log ≡ (decision_id, chosen) ∷ actions s.log)
          × ((e : Event Score) → Memᴰ e s.log → Memᴰ e o.1.log))
        (apply host hashing codec decision_id chosen) _ s
        (λ e h. apply-actions decision_id chosen s)
        (λ already h.
          let rest =
            (Keeps-bind quiet _ _
                (answer-Quiet callback_id
                  (if already then "Already handled" else status_text chosen))
                (λ _.
                  Keeps-bind quiet _ _
                    (clear_pressed-Quiet (is_final chosen || already)
                      (as_int (get_if_object "message_id" (get "message" callback))))
                    (λ _. mark-Quiet callback_id))).holds
              (apply host hashing codec decision_id chosen s).1 in
          let first = apply-actions decision_id chosen s in
          (rest.same ∙ first.0, λ e m. rest.kept e (first.1 e m)))

  pub read_decision-logged :
      (decision_id : String) (s : Session World Score) {found : Option (DecisionRecord Score)}
      → (read_decision host hashing codec decision_id s).0 ≡ ok found
      → Memᴰ
          (Event.decision_read decision_id found)
          (read_decision host hashing codec decision_id s).1.log
  unfolding read_decision perform
  read_decision-logged decision_id s h =
      noted decision_id (host.get_decision decision_id s.world).0 h
    where
      noted :
          (decision_id : String) (r : Result TelegramError (Option (DecisionRecord Score)))
          {found : Option (DecisionRecord Score)}
          → r ≡ ok found
          → Memᴰ
              (Event.decision_read decision_id found)
              (note_decision host hashing codec decision_id r ++ s.log)
      noted decision_id (ok found) h =
          Memᴰ.head (ap (Event.decision_read decision_id) (ok_unique {E = TelegramError} h refl))
      noted decision_id (err e) h = cc
