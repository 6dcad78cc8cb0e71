-- ===== src/Telegram/Updates/Blocking.antt =====
-- Where the Bot API refuses an answer to a callback: what `_handle_update` and `poll_once` of
-- src/forge_controller/telegram_governance.py leave of the state.
use hermes_dev_team_vm.Prelude.{
  ℕ, ◌≡◌, refl, ◌∙◌, String, Bool, true, false, Option, none, some, List, [], ◌∷◌, Text, Result, ok,
  err, Bool-cases, inl, inr, ℤ,
}
use hermes_dev_team_vm.Json.{Members, get, as_text, as_object}
use hermes_dev_team_vm.Models.{DecisionAction}
use hermes_dev_team_vm.Governance.{DecisionRecord}
use hermes_dev_team_vm.Calls.{Call, raise, lift, gets, ◌>>=◌}
use hermes_dev_team_vm.Calls.Keeps.{is_ok, bind_cases}
use hermes_dev_team_vm.Telegram.{
  TelegramError, is_governance_error, NotificationState, TelegramHost, Session, perform,
}
use hermes_dev_team_vm.Telegram.Codec.{Hashing, CallbackCodec}
use hermes_dev_team_vm.Telegram.Updates.{
  matching, answer, read_decision, apply, reject, act, decide, handle_item, handle_match,
  handle_decoded, handle_payload, handle_in_context, handle_callback, handle_once, handle_update,
}
use hermes_dev_team_vm.Telegram.Updates.Polling.{
  Keyed, with_keys, sorted, update_number, handle_all, poll_once,
}

module _ {World Score : Type 0} where
  -- A call that leaves the state.
  pub record Leaves {A : Type 0} (m : Call TelegramError (Session World Score) A) : Type 0 where
    pub left : (s : Session World Score) → (m s).1.state ≡ s.state

  -- A call that raises, and leaves the state.
  pub record Blocks {A : Type 0} (m : Call TelegramError (Session World Score) A) : Type 0 where
    pub raised : (s : Session World Score) → is_ok (m s).0 ≡ false
    pub leaves : Leaves m

  module _ {A B : Type 0} (m : Call TelegramError (Session World Score) A)
      (f : A → Call TelegramError (Session World Score) B) where
    Blocks-first : Blocks m → Blocks (m >>= f)
    Blocks-first h = record {
      raised = λ s.
          bind_cases (λ (o : Result TelegramError B × Session World Score). is_ok o.0 ≡ false) m f s
            (λ e k. refl) (λ value k. cc (k, h.raised s));
      leaves = record {
        left = λ s.
            bind_cases (λ (o : Result TelegramError B × Session World Score). o.1.state ≡ s.state) m
              f s (λ e k. h.leaves.left s) (λ value k. cc (k, h.raised s));
      };
    }

    Blocks-later : Leaves m → ((value : A) → Blocks (f value)) → Blocks (m >>= f)
    Blocks-later h later = record {
      raised = λ s.
          bind_cases (λ (o : Result TelegramError B × Session World Score). is_ok o.0 ≡ false) m f s
            (λ e k. refl) (λ value k. (later value).raised _);
      leaves = record {
        left = λ s.
            bind_cases (λ (o : Result TelegramError B × Session World Score). o.1.state ≡ s.state) m
              f s (λ e k. h.left s) (λ value k. (later value).leaves.left _ ∙ h.left s);
      };
    }

  Blocks-raise : {A : Type 0} (e : TelegramError) → Blocks {A = A} (raise e)
  unfolding raise
  Blocks-raise e = record { raised = λ s. refl; leaves = record { left = λ s. refl } }

  Leaves-gets : {A : Type 0} (g : Session World Score → A) → Leaves (gets g)
  unfolding gets
  Leaves-gets g = record { left = λ s. refl }

  Leaves-lift : {A : Type 0} (r : Result TelegramError A) → Leaves (lift r)
  unfolding lift
  Leaves-lift r = record { left = λ s. refl }

module _ {World Score : Type 0} (host : TelegramHost World Score) (hashing : Hashing)
    (codec : CallbackCodec) (callback_id : String)
    (unanswered : (text : String) (w : World)
      → is_ok (host.answer_callback_query callback_id text w).0 ≡ false) where
  answer-Blocks : (text : String) → Blocks (answer host hashing codec callback_id text)
  unfolding answer perform
  answer-Blocks text = record {
    raised = λ s. unanswered text s.world;
    leaves = record { left = λ s. refl };
  }

  reject-Blocks : (text : String) → Blocks (reject host hashing codec callback_id text)
  unfolding reject
  reject-Blocks text = Blocks-first _ _ (answer-Blocks text)

  apply-Leaves :
      (decision_id : String) (chosen : DecisionAction)
      → Leaves (apply host hashing codec decision_id chosen)
  unfolding apply perform
  apply-Leaves decision_id chosen = record { left = λ s. refl }

  read_decision-Leaves :
      (decision_id : String) → Leaves (read_decision host hashing codec decision_id)
  unfolding read_decision perform
  read_decision-Leaves decision_id = record { left = λ s. refl }

  act-Blocks :
      (callback : Members) (decision_id : String) (chosen : DecisionAction)
      → Blocks (act host hashing codec callback_id callback decision_id chosen)
  unfolding act
  act-Blocks callback decision_id chosen =
      Blocks-later _ _ (apply-Leaves decision_id chosen)
        λ already. Blocks-first _ _ (answer-Blocks _)

  decide-Blocks :
      (callback : Members) (chosen : DecisionAction) (found : Option (DecisionRecord Score))
      (fault : Option String)
      → Blocks (decide host hashing codec callback_id callback chosen found fault)
  decide-Blocks callback chosen found (some text) = reject-Blocks text
  decide-Blocks callback chosen none none = reject-Blocks _
  decide-Blocks callback chosen (some decision) none =
      act-Blocks callback decision.decision_id chosen

  handle_item-Blocks :
      (callback : Members) (chosen : DecisionAction) (item : NotificationState) (safe : Bool)
      → Blocks (handle_item host hashing codec callback_id callback chosen item safe)
  handle_item-Blocks callback chosen item false = reject-Blocks _
  handle_item-Blocks callback chosen item true =
      Blocks-later _ _ (read_decision-Leaves item.decision_id)
        λ found. decide-Blocks callback chosen found _

  handle_match-Blocks :
      (callback : Members) (chosen : DecisionAction) (matches : List NotificationState)
      → Blocks (handle_match host hashing codec callback_id callback chosen matches)
  unfolding handle_match
  handle_match-Blocks callback chosen [] = reject-Blocks _
  handle_match-Blocks callback chosen (item ∷ []) =
      handle_item-Blocks callback chosen item item.mobile_safe
  handle_match-Blocks callback chosen (item ∷ other ∷ items) = reject-Blocks _

  handle_decoded-Blocks :
      (callback : Members) (r : Result TelegramError (Text × DecisionAction))
      → Blocks (handle_decoded host hashing codec callback_id callback r)
  unfolding handle_decoded
  handle_decoded-Blocks callback (err e) = elim (Bool-cases (is_governance_error e)) [
    | inl expected ↦ rw expected (reject-Blocks _)
    | inr unexpected ↦ rw unexpected (Blocks-raise e)
  ]
  handle_decoded-Blocks callback (ok (key, chosen)) =
      Blocks-later _ _ (Leaves-gets _) λ notifications.
        Blocks-later _ _ (Leaves-lift (matching hashing key notifications))
          λ matches. handle_match-Blocks callback chosen matches

  handle_payload-Blocks :
      (callback : Members) (payload : Option String)
      → Blocks (handle_payload host hashing codec callback_id callback payload)
  handle_payload-Blocks callback none = reject-Blocks _
  handle_payload-Blocks callback (some payload) = handle_decoded-Blocks callback _

  handle_in_context-Blocks :
      (callback : Members) (fault : Option String)
      → Blocks (handle_in_context host hashing codec callback_id callback fault)
  handle_in_context-Blocks callback (some text) = reject-Blocks text
  handle_in_context-Blocks callback none = handle_payload-Blocks callback _

  handle_once-Blocks :
      (callback : Members) (processed : Bool)
      → Blocks (handle_once host hashing codec callback_id callback processed)
  unfolding handle_callback
  handle_once-Blocks callback true = answer-Blocks _
  handle_once-Blocks callback false = handle_in_context-Blocks callback _

  module _ (update callback : Members)
      (pressed : as_object (get "callback_query" update) ≡ some callback)
      (identified : as_text (get "id" callback) ≡ some callback_id) where
    handle_update-Blocks : Blocks (handle_update host hashing codec update)
    unfolding handle_update
    handle_update-Blocks =
        rw (pressed, identified)
          (Blocks-later _ _ (Leaves-gets _) λ processed. handle_once-Blocks callback _)

    handle_all-Blocks :
        (key : _) (batch : List Keyed) (number processed : ℕ)
        → update_number update ≡ some number
        → Blocks (handle_all host hashing codec ((key, update) ∷ batch) processed)
    unfolding handle_all
    handle_all-Blocks key batch number processed numbered =
        rw numbered (Blocks-first _ _ (Blocks-first _ _ handle_update-Blocks))

    -- If the batch that Telegram sends begins, in the order of the numbers, with a numbered
    -- callback query that has an identifier, and every answer to that callback raises, then
    -- `poll_once` raises and leaves the state as it was, on every branch of `_handle_update`: the
    -- offset does not pass the update, and the callback does not count as processed.
    pub poll_once_blocked :
        (timeout number : ℕ) (s : Session World Score) (updates : List Members) (key : ℤ)
        (keyed batch : List Keyed)
        → (host.get_updates s.state.update_offset timeout s.world).0 ≡ ok updates
        → with_keys host updates ≡ ok keyed
        → sorted keyed ≡ (key, update) ∷ batch
        → update_number update ≡ some number
        → let (r, t) = poll_once host hashing codec timeout s in
          (is_ok r ≡ false) × (t.state ≡ s.state)
    unfolding poll_once gets lift perform ◌>>=◌
    poll_once_blocked timeout number s updates key keyed batch sent numbers order numbered =
        let blocked = handle_all-Blocks key batch number 0 numbered in
        rw (sent, numbers, order) (blocked.raised _, blocked.leaves.left _)
