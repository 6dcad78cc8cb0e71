-- ===== src/Telegram/Updates/Confirming.antt =====
-- Every action that `_handle_update` of src/forge_controller/telegram_governance.py sends is confirmed.
use hermes_dev_team_vm.Prelude.{
  ◌≡◌, refl, sym, ◌∙◌, ap, subst, inl, inr, String, Bool, true, false, not, ◌&&◌, Option, none,
  some, List, [], ◌∷◌, member, Text, codes, Result, ok, err, Memᴰ, Bool-cases, not-false_iff,
  and-false_iff, ok_unique,
}
use hermes_dev_team_vm.Json.{Members, get, as_text, as_object}
use hermes_dev_team_vm.Models.{DecisionAction}
use hermes_dev_team_vm.Governance.{DecisionRecord, is_closed}
use hermes_dev_team_vm.Calls.{raise, lift, gets}
use hermes_dev_team_vm.Calls.Keeps.{bind_cases}
use hermes_dev_team_vm.Telegram.{
  TelegramError, is_governance_error, NotificationState, Event, TelegramHost, Session,
}
use hermes_dev_team_vm.Telegram.Codec.{Hashing, CallbackCodec, decode}
use hermes_dev_team_vm.Telegram.Codec.Authentic.{IsSignedCallback, decode-IsSignedCallback}
use hermes_dev_team_vm.Telegram.Updates.{
  first_fault, context_faults, matching, may_defer, is_defer, read_decision, reject, decision_fault,
  decide, handle_match, handle_decoded, handle_callback, handle_item, handle_payload,
}
use hermes_dev_team_vm.Telegram.Updates.Handling.{
  IsQuiet, quiet, read_decision-Quiet, reject-Quiet, HandleOutcome, idle, acted, act-actions,
  read_decision-logged,
}

module _ {World Score : Type 0} (host : TelegramHost World Score) (hashing : Hashing)
    (codec : CallbackCodec) (update callback : Members) (callback_id : String)
    (s : Session World Score) (pressed : as_object (get "callback_query" update) ≡ some callback)
    (identified : as_text (get "id" callback) ≡ some callback_id)
    (fresh : member callback_id s.state.processed_callback_ids ≡ false)
    (in_context : first_fault (context_faults codec callback) ≡ none) where
  abbrev Ends : {A : Type 0} → Result TelegramError A × Session World Score → Type 0
  Ends (r, t) = HandleOutcome host hashing codec s.state update s.log t.log

  rejected :
      (text : String) (t : Session World Score)
      → IsQuiet s.log t.log
      → Ends (reject host hashing codec callback_id text t)
  rejected text t q =
      idle (((reject-Quiet host hashing codec callback_id text).holds t).same ∙ q.same)

  decide-Outcome :
      (payload : String) (key : Text) (chosen : DecisionAction) (item : NotificationState)
      (found : Option (DecisionRecord Score)) (t : Session World Score)
      → as_text (get "data" callback) ≡ some payload
      → IsSignedCallback hashing codec (codes payload) key chosen
      → matching hashing key s.state.notifications ≡ ok (item ∷ [])
      → item.mobile_safe ≡ true
      → IsQuiet s.log t.log
      → Memᴰ (Event.decision_read item.decision_id found) t.log
      → Ends (
          decide host hashing codec callback_id callback chosen found
            (decision_fault host hashing codec chosen found)
            t)
  decide-Outcome payload key chosen item none t given signed unique safe q read =
      rejected "Decision is no longer open" t q
  decide-Outcome payload key chosen item (some decision) t given signed unique safe q read =
      elim (Bool-cases (is_closed decision.status)) [
        | inl closed ↦ rw closed (rejected "Decision is no longer open" t q)
        | inr is_open ↦ elim (Bool-cases (is_defer chosen && not (may_defer decision))) [
          | inl undeferrable ↦
              rw (is_open, undeferrable) (rejected "DEFER is not allowed for this gate" t q)
          | inr deferrable ↦
              let (sent, kept) =
                act-actions host hashing codec callback_id callback decision.decision_id chosen t in
              rw (is_open, deferrable)
                (acted decision.decision_id chosen
                  (sent
                    ∙ ap
                        (λ (xs : List (String × DecisionAction)).
                          (decision.decision_id, chosen) ∷ xs)
                        q.same)
                  (record {
                    callback = callback;
                    pressed = pressed;
                    callback_id = callback_id;
                    identified = identified;
                    fresh = fresh;
                    in_context = in_context;
                    payload = payload;
                    given = given;
                    key = key;
                    signed = signed;
                    item = item;
                    unique = unique;
                    safe = safe;
                    decision = decision;
                    read = kept _ read;
                    named = refl;
                    is_open = is_open;
                    deferrable = λ d. (not-false_iff _).0 ((and-false_iff _ _).0 deferrable d);
                  }))
        ]
      ]

  handle_match-Outcome :
      (payload : String) (key : Text) (chosen : DecisionAction) (matches : List NotificationState)
      → as_text (get "data" callback) ≡ some payload
      → IsSignedCallback hashing codec (codes payload) key chosen
      → matching hashing key s.state.notifications ≡ ok matches
      → Ends (handle_match host hashing codec callback_id callback chosen matches s)
  unfolding handle_match
  handle_match-Outcome payload key chosen [] given signed found =
      rejected "Decision is no longer available" s (quiet.same true s)
  handle_match-Outcome payload key chosen (item ∷ other ∷ items) given signed found =
      rejected "Decision is no longer available" s (quiet.same true s)
  handle_match-Outcome payload key chosen (item ∷ []) given signed found =
      by_safe item.mobile_safe refl
    where
      by_safe :
          (safe : Bool)
          → item.mobile_safe ≡ safe
          → Ends (handle_item host hashing codec callback_id callback chosen item safe s)
      by_safe false e =
          rejected "This decision cannot be actioned in Telegram" s (quiet.same true s)
      by_safe true e =
          let here = (read_decision-Quiet host hashing codec item.decision_id).holds s in
          bind_cases (Ends {A = Unit {0}}) (read_decision host hashing codec item.decision_id) _ s
            (λ x h. idle here.same)
            (λ found_decision h.
              decide-Outcome payload key chosen item found_decision
                (read_decision host hashing codec item.decision_id s).1 given signed found e here
                (read_decision-logged host hashing codec item.decision_id s h))

  handle_decoded-Outcome :
      (payload : String)
      → as_text (get "data" callback) ≡ some payload
      → Ends (
          handle_decoded host hashing codec callback_id callback
            (decode hashing codec (codes payload))
            s)
  unfolding handle_decoded lift gets raise
  handle_decoded-Outcome payload given =
      by_result (decode hashing codec (codes payload))
        (λ key chosen. decode-IsSignedCallback hashing codec (codes payload) key chosen)
    where
      by_result :
          (r : Result TelegramError (Text × DecisionAction))
          → ((key : Text) (chosen : DecisionAction)
              → r ≡ ok (key, chosen)
              → IsSignedCallback hashing codec (codes payload) key chosen)
          → Ends (handle_decoded host hashing codec callback_id callback r s)
      by_result (err e) signed = elim (Bool-cases (is_governance_error e)) [
        | inl expected ↦
            rw (expected, handle_decoded)
              (rejected "Invalid or expired action" s (quiet.same true s))
        | inr other ↦ rw (other, handle_decoded) (idle refl)
      ]
      by_result (ok (key, chosen)) signed =
          bind_cases (Ends {A = Unit {0}})
            (gets (λ (u : Session World Score). u.state.notifications)) _ s (λ e h. idle refl)
            (λ notifications h.
              bind_cases (Ends {A = Unit {0}}) (lift (matching hashing key notifications)) _ s
                (λ e k. idle refl)
                (λ matches k.
                  handle_match-Outcome payload key chosen matches given (signed key chosen refl) (
                    subst
                      (λ (items : List (String × NotificationState)).
                        matching hashing key items ≡ ok matches)
                      (sym (ok_unique {E = TelegramError} refl h)) k)))

  pub handle_callback-Outcome : Ends (handle_callback host hashing codec callback_id callback s)
  unfolding handle_callback
  handle_callback-Outcome = rw in_context (by_payload (as_text (get "data" callback)) refl)
    where
      by_payload :
          (given : Option String)
          → as_text (get "data" callback) ≡ given
          → Ends (handle_payload host hashing codec callback_id callback given s)
      by_payload none e = rejected "Invalid action" s (quiet.same true s)
      by_payload (some payload) e = handle_decoded-Outcome payload e
