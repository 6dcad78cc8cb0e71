-- ===== src/Telegram/Notices/Registering.antt =====
-- What `register_notification` of src/forge_controller/telegram_governance.py sends, and when.
use hermes_dev_team_vm.Prelude.{
  ◌≡◌, refl, sym, ◌∙◌, ap, subst, String, Bool, true, false, Option, none, some, List, [], ◌∷◌,
  ◌++◌, lookup, Text, Result, ok, err, then_run, ℤ, Bool-cases, inl, inr, ok_unique,
}
use hermes_dev_team_vm.Governance.{DecisionRecord, is_closed}
use hermes_dev_team_vm.Calls.{pure, lift, gets, ◌>>=◌, ◌>>◌}
use hermes_dev_team_vm.Calls.Keeps.{
  IsChained, Keeps, Keeps-pure, Keeps-lift, Keeps-gets, Keeps-bind, bind_cases, is_ok,
}
use hermes_dev_team_vm.Telegram.{
  TelegramError, MobileNotificationRequest, NotificationState, TelegramState, Keyboard, Event,
  TelegramHost, Session, perform, modify,
}
use hermes_dev_team_vm.Telegram.Codec.{Hashing, CallbackCodec}
use hermes_dev_team_vm.Telegram.Updates.{Action, read_decision, note_decision}
use hermes_dev_team_vm.Telegram.Updates.Polling.{save_state}
use hermes_dev_team_vm.Telegram.Notices.{
  clean_summary, restricted_text, mobile_safe_text, keyboard, or_empty, notice_of, put, send,
  the_open, new_notification, register_new, register_known, register_notification, same_policy,
}

module _ {Score : Type 0} where
  -- The messages that were sent, the latest first.
  abbrev pub messages : List (Event Score) → List (Text × Option Keyboard)
  messages [] = []
  messages (Event.message_sent text rows ∷ log) = (text, rows) ∷ messages log
  messages (_ ∷ log) = messages log

module _ {World Score : Type 0} where
  abbrev Silent : Bool → Session World Score → Session World Score → Type 0
  Silent returned s t = messages t.log ≡ messages s.log

  silently : IsChained Silent
  silently = record { same = λ b s. refl; chain = λ a b s t u h k. k ∙ h }

module _ {World Score : Type 0} (host : TelegramHost World Score) (hashing : Hashing)
    (codec : CallbackCodec) where
  note_decision-silent :
      (decision_id : String) (r : Result TelegramError (Option (DecisionRecord Score)))
      (log : List (Event Score))
      → messages (note_decision host hashing codec decision_id r ++ log) ≡ messages log
  note_decision-silent decision_id (ok found) log = refl
  note_decision-silent decision_id (err e) log = refl

  read_decision-Silent :
      (decision_id : String) → Keeps Silent (read_decision host hashing codec decision_id)
  unfolding read_decision perform
  read_decision-Silent decision_id = record {
    holds = λ s. note_decision-silent decision_id (host.get_decision decision_id s.world).0 s.log;
  }

  save_state-Silent : Keeps Silent (save_state host hashing codec)
  unfolding save_state perform
  save_state-Silent =
      Keeps-bind silently _ _ (Keeps-gets silently _) λ state. record { holds = λ s. refl }

  modify-Silent :
      (change : TelegramState → TelegramState)
      → Keeps {E = TelegramError} Silent (modify {World = World} {Score = Score} change)
  unfolding modify
  modify-Silent change = record { holds = λ s. refl }

  -- The one message of a registration: of an open decision that Forge has; if the decision is not
  -- mobile-safe, it is the text that reads only the level and the identifier, without buttons, and
  -- otherwise it has the summary of the request and the buttons of the decision.
  pub record IsNotice (payload : MobileNotificationRequest) (s : Session World Score)
      (notice : Text × Option Keyboard) : Type 0 where
    pub decision : DecisionRecord Score
    pub known : (host.get_decision payload.decision_id s.world).0 ≡ ok (some decision)
    pub is_open : is_closed decision.status ≡ false
    pub fresh : lookup payload.decision_id s.state.notifications ≡ none
    pub withheld :
        payload.mobile_safe ≡ false
        → (restricted_text hashing decision.authority decision.decision_id ≡ ok notice.0)
          × (notice.1 ≡ none)
    pub shown :
        payload.mobile_safe ≡ true
        → (rows : Keyboard) × (mobile_safe_text hashing decision.authority decision.decision_id
              (or_empty (clean_summary payload.mobile_safe_summary))
            ≡ ok notice.0)
          × (keyboard hashing codec decision ≡ ok rows)
          × (notice.1 ≡ some rows)

  -- How the call ended: it raised and sent nothing, it compared the request with a notification that
  -- was registered and changed nothing, or it sent one message.
  pub data NoticeOutcome (payload : MobileNotificationRequest) (s : Session World Score)
      (r : Result TelegramError NotificationState) (t : Session World Score) : Type 0 where
    refused : is_ok r ≡ false → messages t.log ≡ messages s.log → NoticeOutcome payload s r t
    compared :
        (existing : NotificationState)
        → lookup payload.decision_id s.state.notifications ≡ some existing
        → r ≡ same_policy host hashing codec payload existing
        → t ≡ s
        → NoticeOutcome payload s r t
    noticed :
        (notice : Text × Option Keyboard)
        → messages t.log ≡ notice ∷ messages s.log
        → IsNotice payload s notice
        → NoticeOutcome payload s r t

  restricted_notice :
      (r : Result TelegramError Text) {notice : Text × Option Keyboard}
      → then_run (λ text. ok (text, none)) r ≡ ok notice
      → (r ≡ ok notice.0) × (notice.1 ≡ none)
  restricted_notice (err e) h = cc
  restricted_notice (ok text) {notice} h =
      let same : ◌≡◌ {A = Text × Option Keyboard} (text, none) notice =
        ok_unique {E = TelegramError} refl h in
      (
        ap (λ (n : Text × Option Keyboard). ok n.0) same,
        sym (ap (λ (n : Text × Option Keyboard). n.1) same),
      )

  safe_notice :
      (r : Result TelegramError Text) (k : Result TelegramError Keyboard)
      {notice : Text × Option Keyboard}
      → then_run (λ text. then_run (λ rows. ok (text, some rows)) k) r ≡ ok notice
      → (rows : Keyboard) × (r ≡ ok notice.0) × (k ≡ ok rows) × (notice.1 ≡ some rows)
  safe_notice (err e) k h = cc
  safe_notice (ok text) (err e) h = cc
  safe_notice (ok text) (ok rows) {notice} h =
      let same : ◌≡◌ {A = Text × Option Keyboard} (text, some rows) notice =
        ok_unique {E = TelegramError} refl h in
      (
        rows,
        ap (λ (n : Text × Option Keyboard). ok n.0) same,
        refl,
        sym (ap (λ (n : Text × Option Keyboard). n.1) same),
      )

  the_open-eq-ok :
      (found : Option (DecisionRecord Score)) {decision : DecisionRecord Score}
      → the_open host hashing codec found ≡ ok decision
      → (found ≡ some decision) × (is_closed decision.status ≡ false)
  the_open-eq-ok none h = cc
  the_open-eq-ok (some d) {decision} h = elim (Bool-cases (is_closed d.status)) [
    | inl closed ↦ cc (rw closed at h)
    | inr is_open ↦
        let same : d ≡ decision = ok_unique {E = TelegramError} refl (rw is_open at h) in
        (
          ap some same,
          subst (λ (x : DecisionRecord Score). is_closed x.status ≡ false) same is_open,
        )
  ]

  notice_of-IsNotice :
      (payload : MobileNotificationRequest) (s : Session World Score)
      (decision : DecisionRecord Score) (notice : Text × Option Keyboard)
      → (host.get_decision payload.decision_id s.world).0 ≡ ok (some decision)
      → is_closed decision.status ≡ false
      → lookup payload.decision_id s.state.notifications ≡ none
      → (safe : Bool) → payload.mobile_safe ≡ safe
      → notice_of hashing codec decision (clean_summary payload.mobile_safe_summary) safe
        ≡ ok notice
      → IsNotice payload s notice
  notice_of-IsNotice payload s decision notice known is_open fresh true safe h = record {
    decision = decision;
    known = known;
    is_open = is_open;
    fresh = fresh;
    withheld = λ restricted. cc (safe, restricted);
    shown = λ _. safe_notice _ _ h;
  }
  notice_of-IsNotice payload s decision notice known is_open fresh false safe h = record {
    decision = decision;
    known = known;
    is_open = is_open;
    fresh = fresh;
    withheld = λ _. restricted_notice _ h;
    shown = λ shown. cc (safe, shown);
  }

  abbrev Ends :
      MobileNotificationRequest
      → Session World Score
      → Result TelegramError NotificationState × Session World Score
      → Type 0
  Ends payload s (r, t) = NoticeOutcome payload s r t

  -- What follows the message.
  abbrev pub recording :
      MobileNotificationRequest
      → DecisionRecord Score
      → ℤ
      → Action host hashing codec NotificationState
  recording payload decision message_id = do
    notification ← lift (new_notification host hashing codec payload decision message_id)
    modify (λ state. record state {
      notifications = put decision.decision_id notification state.notifications;
    })
    save_state host hashing codec
    pure notification

  recording-Silent :
      (payload : MobileNotificationRequest) (decision : DecisionRecord Score) (message_id : ℤ)
      → Keeps Silent (recording payload decision message_id)
  recording-Silent payload decision message_id =
      Keeps-bind silently _ _ (Keeps-lift silently _) λ notification.
        Keeps-bind silently _ _ (modify-Silent _)
          λ _. Keeps-bind silently _ _ save_state-Silent λ _. Keeps-pure silently notification

  register_new-NoticeOutcome :
      (payload : MobileNotificationRequest) (s : Session World Score)
      → lookup payload.decision_id s.state.notifications ≡ none
      → Ends payload s (register_new host hashing codec payload s)
  unfolding register_new lift send perform read_decision
  register_new-NoticeOutcome payload s fresh =
      let reading = read_decision host hashing codec payload.decision_id in
      let t = (reading s).1 in
      let quiet = (read_decision-Silent payload.decision_id).holds s in
      bind_cases (Ends payload s) reading _ s (λ e h. refused refl quiet)
        λ found h.
          bind_cases (Ends payload s) (lift (the_open host hashing codec found)) _ t
            (λ e k. refused refl quiet)
            λ decision k.
              bind_cases (Ends payload s)
                (lift (
                  notice_of hashing codec decision (clean_summary payload.mobile_safe_summary)
                    payload.mobile_safe))
                _ t (λ e n. refused refl quiet)
                λ notice n.
                  let (same, is_open) = the_open-eq-ok found k in
                  let proper =
                    notice_of-IsNotice payload s decision notice (h ∙ ap ok same) is_open fresh
                      payload.mobile_safe refl n in
                  let first : messages (send host hashing codec notice t).1.log
                      ≡ notice ∷ messages s.log =
                    ap (λ (xs : List (Text × Option Keyboard)). notice ∷ xs) quiet in
                  bind_cases (Ends payload s) (send host hashing codec notice) _ t
                    (λ e m. noticed notice first proper)
                    λ message_id m.
                      noticed notice
                        ((recording-Silent payload decision message_id).holds
                            (send host hashing codec notice t).1
                          ∙ first)
                        proper

  -- However `register_notification` ends, it raised and sent nothing; or the decision was
  -- registered, and it compared the request with that notification and changed nothing; or it
  -- sent exactly one message, of a decision that was not registered and that Forge reported as
  -- open: if the request is not mobile-safe, the text that reads only the level and the
  -- identifier of the decision, without buttons; otherwise the text with the cleaned summary, and
  -- the buttons of the decision.
  pub register_notification-NoticeOutcome :
      (payload : MobileNotificationRequest) (s : Session World Score)
      → let (r, t) = register_notification host hashing codec payload s in
        NoticeOutcome payload s r t
  unfolding register_notification gets lift
  register_notification-NoticeOutcome payload s =
      bind_cases (Ends payload s) (gets (λ (u : Session World Score). u.state.notifications)) _ s
        (λ e h. refused refl refl)
        (λ notifications h.
          by_known notifications (ok_unique {E = TelegramError} refl h)
            (lookup payload.decision_id notifications) refl)
    where
      by_known :
          (notifications : List (String × NotificationState))
          → s.state.notifications ≡ notifications
          → (existing : Option NotificationState)
          → lookup payload.decision_id notifications ≡ existing
          → Ends payload s (register_known host hashing codec payload existing s)
      by_known notifications same (some existing) e =
          compared existing
            (subst
              (λ (items : List (String × NotificationState)).
                lookup payload.decision_id items ≡ some existing)
              (sym same) e)
            refl refl
      by_known notifications same none e = register_new-NoticeOutcome payload s (
          subst
            (λ (items : List (String × NotificationState)). lookup payload.decision_id items ≡ none)
            (sym same) e)
