-- ===== src/Telegram/Updates/Acting.antt =====
-- The other direction of `Confirming`, of `_handle_update` in src/forge_controller/telegram_governance.py:
-- what the owner presses is sent.
use hermes_dev_team_vm.Prelude.{
  ℕ, zero, suc, ◌≤◌, ◌++◌, arith, length, length-append, eq_refl, ◌≡◌, refl, ◌∙◌, ap, String, true,
  false, none, some, List, [], ◌∷◌, member, Text, codes, Result, ok,
}
use hermes_dev_team_vm.Json.{Members, get, as_text, as_object}
use hermes_dev_team_vm.Models.{DecisionAction}
use hermes_dev_team_vm.Governance.{DecisionRecord}
use hermes_dev_team_vm.Calls.{lift, gets, ◌>>=◌}
use hermes_dev_team_vm.Calls.Keeps.{is_ok, bind_cases}
use hermes_dev_team_vm.Telegram.{
  TelegramError, NotificationState, TelegramHost, Session, perform, modify,
}
use hermes_dev_team_vm.Telegram.Codec.{Hashing, CallbackCodec, decode}
use hermes_dev_team_vm.Telegram.Updates.{
  first_fault, context_faults, matching, read_decision, decision_fault, act, mark, drop, last,
  apply, answer, handle_match, handle_decoded, handle_callback, handle_update,
}
use hermes_dev_team_vm.Telegram.Updates.Handling.{actions, read_decision-Quiet, act-actions}

drop-member :
    (n : ℕ) (x : String) (xs : List String)
    → n ≤ length xs
    → member x (drop n (xs ++ (x ∷ []))) ≡ true
drop-member zero x [] h = rw eq_refl refl
drop-member zero x (y ∷ xs) h = ground (arith, drop-member zero x xs (omega arith))
drop-member (suc n) x [] h = ground arith
drop-member (suc n) x (y ∷ xs) h = drop-member n x xs (omega arith)

member-last :
    (n : ℕ) (x : String) (xs : List String) → member x (last (suc n) (xs ++ (x ∷ []))) ≡ true
member-last n x xs = drop-member _ x xs (omega (arith, length-append xs (x ∷ [])))

module _ {World Score : Type 0} (host : TelegramHost World Score) (hashing : Hashing)
    (codec : CallbackCodec) where
  -- A press that passes every test of the handler, with what the handler learns on the way.
  pub record IsPress (update : Members) (s : Session World Score) (chosen : DecisionAction)
      (decision : DecisionRecord Score) : Type 0 where
    pub callback : Members
    pub pressed : as_object (get "callback_query" update) ≡ some callback
    pub callback_id : String
    pub identified : as_text (get "id" callback) ≡ some callback_id
    pub fresh : member callback_id s.state.processed_callback_ids ≡ false
    pub in_context : first_fault (context_faults codec callback) ≡ none
    pub payload : String
    pub given : as_text (get "data" callback) ≡ some payload
    pub key : Text
    pub decoded : decode hashing codec (codes payload) ≡ ok (key, chosen)
    pub item : NotificationState
    pub unique : matching hashing key s.state.notifications ≡ ok (item ∷ [])
    pub safe : item.mobile_safe ≡ true
    pub known : (host.get_decision item.decision_id s.world).0 ≡ ok (some decision)
    pub faultless : decision_fault host hashing codec chosen (some decision) ≡ none

  -- The handler then comes down to reading the decision and acting on it.
  handle_update-act :
      (update : Members) (s : Session World Score) (chosen : DecisionAction)
      (decision : DecisionRecord Score) (p : IsPress update s chosen decision)
      → handle_update host hashing codec update s
        ≡ act host hashing codec p.callback_id p.callback decision.decision_id chosen
            (read_decision host hashing codec p.item.decision_id s).1
  unfolding handle_update handle_callback handle_decoded handle_match gets lift ◌>>=◌ read_decision
      perform
  handle_update-act update s chosen decision p =
      rw
        (
          p.pressed, p.identified, p.fresh, p.in_context, p.given, p.decoded, p.unique, p.safe,
          p.known, p.faultless,
        )
        refl

  mark-member :
      (callback_id : String) (s : Session World Score)
      → member callback_id (mark host hashing codec callback_id s).1.state.processed_callback_ids
        ≡ true
  unfolding mark modify
  mark-member callback_id s = member-last 255 callback_id s.state.processed_callback_ids

  -- Where the call that acts returns, the callback counts as processed.
  act-member :
      (callback_id : String) (callback : Members) (decision_id : String) (chosen : DecisionAction)
      (s : Session World Score)
      → let (r, t) = act host hashing codec callback_id callback decision_id chosen s in
        is_ok r ≡ true → member callback_id t.state.processed_callback_ids ≡ true
  unfolding act
  act-member callback_id callback decision_id chosen s =
      bind_cases
        (λ (o : Result TelegramError (Unit {0}) × Session World Score).
          is_ok o.0 ≡ true → member callback_id o.1.state.processed_callback_ids ≡ true)
        (apply host hashing codec decision_id chosen) _ s (λ e h returned. cc)
        λ already h.
          bind_cases
            (λ (o : Result TelegramError (Unit {0}) × Session World Score).
              is_ok o.0 ≡ true → member callback_id o.1.state.processed_callback_ids ≡ true)
            _ _ _ (λ e k returned. cc)
            λ _ k.
              bind_cases
                (λ (o : Result TelegramError (Unit {0}) × Session World Score).
                  is_ok o.0 ≡ true → member callback_id o.1.state.processed_callback_ids ≡ true)
                _ _ _ (λ e m returned. cc) λ _ m returned. mark-member callback_id _

  -- A callback that counts as processed is answered, and nothing else.
  handle_update-repeated :
      (update : Members) (s : Session World Score) (callback : Members) (callback_id : String)
      → as_object (get "callback_query" update) ≡ some callback
      → as_text (get "id" callback) ≡ some callback_id
      → member callback_id s.state.processed_callback_ids ≡ true
      → actions (handle_update host hashing codec update s).1.log ≡ actions s.log
  unfolding handle_update gets ◌>>=◌ answer perform
  handle_update-repeated update s callback callback_id pressed identified processed =
      rw (pressed, identified, processed) refl

  -- A press that passes the tests of `_handle_update` is acted on: for a callback not seen
  -- before, of the owner in the private chat, whose data decodes to an action and the key of one
  -- registered notification that is mobile-safe, on a decision that Forge reports and whose tests
  -- find no fault, exactly that action is sent for that decision; and if the call returns, the
  -- same update delivered again sends no action.
  pub handle_update_acts :
      (update : Members) (s : Session World Score) (chosen : DecisionAction)
      (decision : DecisionRecord Score)
      → IsPress update s chosen decision
      → let (r, t) = handle_update host hashing codec update s in
        (actions t.log ≡ (decision.decision_id, chosen) ∷ actions s.log)
        × (is_ok r ≡ true
            → actions (handle_update host hashing codec update t).1.log ≡ actions t.log)
  handle_update_acts update s chosen decision p =
      let t = (read_decision host hashing codec p.item.decision_id s).1 in
      let same = handle_update-act update s chosen decision p in
      let acted =
        act-actions host hashing codec p.callback_id p.callback decision.decision_id chosen t in
      let quiet = (read_decision-Quiet host hashing codec p.item.decision_id).holds s in
      rw same (
        acted.0
            ∙ ap (λ (xs : List (String × DecisionAction)). (decision.decision_id, chosen) ∷ xs)
                quiet.same,
        λ returned.
            handle_update-repeated update _ p.callback p.callback_id p.pressed p.identified
              (act-member p.callback_id p.callback decision.decision_id chosen t returned),
      )
