-- ===== src/Telegram/Notices/Repeating.antt =====
-- A registration that is repeated: `register_notification` of
-- src/forge_controller/telegram_governance.py sends one message for a decision.
use hermes_dev_team_vm.Prelude.{
  ◌≡◌, refl, sym, ◌∙◌, ap, subst, String, Bool, true, false, ◌&&◌, Option, none, some, List, [],
  ◌∷◌, ◌==◌, eq_refl, lookup, Text, text_eq_refl, ok, ℤ, Bool-cases, inl, inr, ok_unique,
}
use hermes_dev_team_vm.Governance.{DecisionRecord}
use hermes_dev_team_vm.Calls.{pure, lift, gets, ◌>>=◌}
use hermes_dev_team_vm.Calls.Keeps.{bind_returned}
use hermes_dev_team_vm.Telegram.{
  TelegramError, MobileNotificationRequest, NotificationState, TelegramState, TelegramHost, Session,
  perform, modify,
}
use hermes_dev_team_vm.Telegram.Codec.{Hashing, CallbackCodec}
use hermes_dev_team_vm.Telegram.Updates.{read_decision}
use hermes_dev_team_vm.Telegram.Updates.Polling.{save_state}
use hermes_dev_team_vm.Telegram.Notices.{
  clean_summary, summary_eq, same_bool, notice_of, put, send, the_open, new_notification,
  same_policy, register_new, register_known, register_notification, is_positive,
}
use hermes_dev_team_vm.Telegram.Notices.Registering.{recording}

lookup-put :
    (name : String) (value : NotificationState) (items : List (String × NotificationState))
    → lookup name (put name value items) ≡ some value
lookup-put name value [] = rw (eq_refl name) refl
lookup-put name value ((key, old) ∷ items) = elim (Bool-cases (key == name)) [
  | inl same ↦ rw (same, eq_refl name) refl
  | inr other ↦ rw other (rw (other, lookup-put name value items) refl)
]

summary_eq_refl : (a : Option Text) → summary_eq a a ≡ true
summary_eq_refl none = refl
summary_eq_refl (some a) = text_eq_refl a

same_bool_refl : (b : Bool) → same_bool b b ≡ true
same_bool_refl true = refl
same_bool_refl false = refl

module _ {World Score : Type 0} (host : TelegramHost World Score) (hashing : Hashing)
    (codec : CallbackCodec) where
  -- The state has the notification, under the policy of the request.
  record IsRegistered (payload : MobileNotificationRequest) (n : NotificationState)
      (t : Session World Score) : Type 0 where
    found : lookup payload.decision_id t.state.notifications ≡ some n
    policy : same_policy host hashing codec payload n ≡ ok n

  registered :
      (payload : MobileNotificationRequest) (n : NotificationState) (t : Session World Score)
      → IsRegistered payload n t
      → register_notification host hashing codec payload t ≡ (ok n, t)
  unfolding register_notification gets lift ◌>>=◌
  registered payload n t r = rw (r.found, r.policy) refl

  same_policy-eq-ok :
      (payload : MobileNotificationRequest) (existing n : NotificationState)
      → same_policy host hashing codec payload existing ≡ ok n
      → existing ≡ n
  same_policy-eq-ok payload existing n h =
      elim (Bool-cases (
        same_bool existing.mobile_safe payload.mobile_safe
        && summary_eq existing.mobile_safe_summary (clean_summary payload.mobile_safe_summary))) [
          | inl same ↦ ok_unique {E = TelegramError} refl (rw same at h)
          | inr other ↦ cc (rw other at h)
        ]

  new_notification-policy :
      (payload : MobileNotificationRequest) (decision : DecisionRecord Score) (message_id : ℤ)
      (n : NotificationState)
      → new_notification host hashing codec payload decision message_id ≡ ok n
      → (n.decision_id ≡ decision.decision_id) × (same_policy host hashing codec payload n ≡ ok n)
  new_notification-policy payload decision message_id n h =
      elim (Bool-cases (is_positive message_id)) [
        | inl positive ↦
            let made : NotificationState = record {
              decision_id = decision.decision_id;
              mobile_safe = payload.mobile_safe;
              mobile_safe_summary = clean_summary payload.mobile_safe_summary;
              message_id = message_id;
            } in
            let same : made ≡ n = ok_unique {E = TelegramError} refl (rw positive at h) in
            subst
              (λ (x : NotificationState).
                (x.decision_id ≡ decision.decision_id)
                × (same_policy host hashing codec payload x ≡ ok x))
              same
              (
                refl,
                rw
                    (
                      same_bool_refl payload.mobile_safe,
                      summary_eq_refl (clean_summary payload.mobile_safe_summary),
                    )
                    refl,
              )
        | inr other ↦ cc (rw other at h)
      ]

  save_state-state : (s : Session World Score) → (save_state host hashing codec s).1.state ≡ s.state
  unfolding save_state perform gets ◌>>=◌
  save_state-state s = refl

  recording-IsRegistered :
      (payload : MobileNotificationRequest) (decision : DecisionRecord Score) (message_id : ℤ)
      (u : Session World Score) (n : NotificationState)
      → (recording host hashing codec payload decision message_id u).0 ≡ ok n
      → n.decision_id ≡ payload.decision_id
      → IsRegistered payload n (recording host hashing codec payload decision message_id u).1
  unfolding lift modify pure
  recording-IsRegistered payload decision message_id u n h asked =
      let (made, new, h₁, e₁) =
        bind_returned (lift (new_notification host hashing codec payload decision message_id)) _ u
          h in
      let v : Session World Score = record {
        world = u.world;
        state = record u.state {
          notifications = put decision.decision_id made u.state.notifications;
        };
        log = u.log;
      } in
      let (_, _, h₂, e₂) =
        bind_returned
          (modify {World = World} {Score = Score} (λ state. record state {
            notifications = put decision.decision_id made state.notifications;
          }))
          _ u h₁ in
      let (_, _, h₃, e₃) = bind_returned (save_state host hashing codec) _ v h₂ in
      let same : made ≡ n = ok_unique {E = TelegramError} refl h₃ in
      let (named, policy) = new_notification-policy payload decision message_id made new in
      subst (λ (t : Session World Score). IsRegistered payload n t) (sym (e₁ ∙ e₂ ∙ e₃))
        (record {
          found =
              ap (λ (state : TelegramState). lookup payload.decision_id state.notifications)
                (save_state-state v)
              ∙ subst (λ (name : String). lookup name v.state.notifications ≡ some n)
                  (sym named ∙ ap (λ (x : NotificationState). x.decision_id) same ∙ asked)
                  (lookup-put decision.decision_id made u.state.notifications ∙ ap some same);
          policy =
              subst (λ (x : NotificationState). same_policy host hashing codec payload x ≡ ok x)
                same policy;
        })

  register_new-IsRegistered :
      (payload : MobileNotificationRequest) (s : Session World Score) (n : NotificationState)
      → (register_new host hashing codec payload s).0 ≡ ok n
      → n.decision_id ≡ payload.decision_id
      → IsRegistered payload n (register_new host hashing codec payload s).1
  unfolding register_new
  register_new-IsRegistered payload s n h asked =
      let (found, _, h₁, e₁) =
        bind_returned (read_decision host hashing codec payload.decision_id) _ s h in
      let (decision, _, h₂, e₂) = bind_returned (lift (the_open host hashing codec found)) _ _ h₁ in
      let (notice, _, h₃, e₃) =
        bind_returned
          (lift (
            notice_of hashing codec decision (clean_summary payload.mobile_safe_summary)
              payload.mobile_safe))
          _ _ h₂ in
      let (message_id, _, h₄, e₄) = bind_returned (send host hashing codec notice) _ _ h₃ in
      subst (λ (t : Session World Score). IsRegistered payload n t) (sym (e₁ ∙ e₂ ∙ e₃ ∙ e₄))
        (recording-IsRegistered payload decision message_id _ n h₄ asked)

  known-IsRegistered :
      (payload : MobileNotificationRequest) (s : Session World Score) (n : NotificationState)
      (existing : Option NotificationState)
      → lookup payload.decision_id s.state.notifications ≡ existing
      → (register_known host hashing codec payload existing s).0 ≡ ok n
      → n.decision_id ≡ payload.decision_id
      → IsRegistered payload n (register_known host hashing codec payload existing s).1
  unfolding lift
  known-IsRegistered payload s n none e h asked = register_new-IsRegistered payload s n h asked
  known-IsRegistered payload s n (some existing) e h asked =
      let same = same_policy-eq-ok payload existing n h in
      record {
        found = e ∙ ap some same;
        policy =
            subst (λ (x : NotificationState). same_policy host hashing codec payload x ≡ ok n) same
              h;
      }

  first-IsRegistered :
      (payload : MobileNotificationRequest) (s : Session World Score) (n : NotificationState)
      → (register_notification host hashing codec payload s).0 ≡ ok n
      → n.decision_id ≡ payload.decision_id
      → IsRegistered payload n (register_notification host hashing codec payload s).1
  unfolding register_notification gets
  first-IsRegistered payload s n h asked =
      let (items, known, h₁, e) =
        bind_returned (gets (λ (u : Session World Score). u.state.notifications)) _ s h in
      let same : s.state.notifications ≡ items = ok_unique {E = TelegramError} refl known in
      subst (λ (t : Session World Score). IsRegistered payload n t) (sym e)
        (known-IsRegistered payload s n (lookup payload.decision_id items)
          (ap (λ (xs : List (String × NotificationState)). lookup payload.decision_id xs) same) h₁
          asked)

  -- A registration that returned a notification of the decision asked for returns the same one
  -- when it is repeated: nothing is sent, and the session stays as it is.
  pub register_notification_repeats :
      (payload : MobileNotificationRequest) (s : Session World Score) (n : NotificationState)
      → (register_notification host hashing codec payload s).0 ≡ ok n
      → n.decision_id ≡ payload.decision_id
      → let t = (register_notification host hashing codec payload s).1 in
        register_notification host hashing codec payload t ≡ (ok n, t)
  register_notification_repeats payload s n h asked =
      registered payload n (register_notification host hashing codec payload s).1
        (first-IsRegistered payload s n h asked)
