-- ===== src/Telegram/Samples.antt =====
-- Tests of the model of src/forge_controller/telegram_governance.py, and its theorems at a concrete
-- service.
use hermes_dev_team_vm.Prelude.{
  ℕ, zero, suc, ◌≡◌, refl, ◌<◌, true, false, none, some, List, [], ◌∷◌, Text, codes, length, ok,
  All, pos, arith, ◌+◌, ◌%◌, ap, is_space, err,
}
use hermes_dev_team_vm.Json.{Members, object, text, integer, field, nothing_more, get, as_object}
use hermes_dev_team_vm.Models.{l1, yes_action}
use hermes_dev_team_vm.Governance.{DecisionRecord, opened, is_closed}
use hermes_dev_team_vm.Calls.{Call, ◌>>=◌, lift, gets, pure, raise}
use hermes_dev_team_vm.Telegram.{
  TelegramError, MobileNotificationRequest, NotificationState, TelegramHost, Session, perform,
  modify, is_governance_error,
}
use hermes_dev_team_vm.Telegram.Base64.{
  IsByte, b64url, b64url_decode, b64decode, digit_value, digit,
}
use hermes_dev_team_vm.Telegram.Codec.{
  Hashing, CallbackCodec, decision_key, encode, decode, mac_of, decimal, decimal_from, code_action,
}
use hermes_dev_team_vm.Telegram.Codec.RoundTrip.{decode-encode}
use hermes_dev_team_vm.Telegram.Codec.Authentic.{IsSignedCallback, decode-IsSignedCallback}
use hermes_dev_team_vm.Telegram.Updates.{
  handle_update, answer, clear, read_decision, apply, mark, reject, clear_pressed, act,
  handle_match, handle_decoded, handle_callback, matching, may_defer, is_defer, is_final,
  status_text,
}
use hermes_dev_team_vm.Telegram.Updates.Handling.{actions}
use hermes_dev_team_vm.Telegram.Updates.Acting.{IsPress, handle_update_acts}
use hermes_dev_team_vm.Telegram.Updates.Polling.{
  poll_once, save_state, acknowledge, handle_all, sorted, with_keys,
}
use hermes_dev_team_vm.Telegram.Updates.Steadiness.{IsSteady}
use hermes_dev_team_vm.Telegram.Updates.Acknowledging.{HasAcknowledged, poll_once-IsSteady}
use hermes_dev_team_vm.Telegram.Notices.{
  register_notification, clean_summary, words_from, restricted_text, mobile_safe_text, label,
  buttons, keyboard, authority_text, send, register_new,
}
use hermes_dev_team_vm.Telegram.Notices.Registering.{
  NoticeOutcome, register_notification-NoticeOutcome,
}
use hermes_dev_team_vm.Telegram.Notices.Repeating.{register_notification_repeats}
use hermes_dev_team_vm.Trust.Utf8.{utf8_encode}
use hermes_dev_team_vm.Calls.Keeps.{is_ok}
-- A digest that is the sum of the bytes, 32 times.
use hermes_dev_team_vm.Telegram.Updates.Blocking.{poll_once_blocked}

abbrev sum : List ℕ → ℕ
sum [] = 0
sum (b ∷ bytes) = b + sum bytes

abbrev times : ℕ → ℕ → List ℕ
times zero b = []
times (suc n) b = b ∷ times n b

abbrev digest : List ℕ → List ℕ
digest m = times 32 (sum m % 256)

times_bytes : (n b : ℕ) → b < 256 → All IsByte (times n b) × (length (times n b) ≡ n)
times_bytes zero b h = (tt, refl)
times_bytes (suc n) b h = let (bytes, size) = times_bytes n b h in ((h, bytes), ap suc size)

abbrev hashing : Hashing
hashing = record {
  sha256 = digest;
  sha256_bytes = λ m. times_bytes 32 (sum m % 256) (omega arith);
  hmac_sha256 = λ key m. digest m;
  hmac_bytes = λ key m. times_bytes 32 (sum m % 256) (omega arith);
}

abbrev codec : CallbackCodec
codec = record { key = []; owner_chat_id = pos 7; owner_user_id = pos 5 }

key_runs : decision_key hashing "d-1" ≡ ok (codes "wsLCwsLCwsLCwsLC")
unfolding decision_key utf8_encode b64url
key_runs = refl

abbrev button : Text
button = codes "1:Y:wsLCwsLCwsLCwsLC:RkZGRkZGRkZG"

encode_runs : encode hashing codec "d-1" yes_action ≡ ok button
unfolding encode decision_key utf8_encode mac_of b64url decimal decimal_from
encode_runs = refl

decode_runs : decode hashing codec button ≡ ok (codes "wsLCwsLCwsLCwsLC", yes_action)
unfolding decode utf8_encode code_action mac_of decimal decimal_from b64url_decode b64decode
    digit_value
decode_runs = refl

decode-encode_example :
    (value : Text) × (encode hashing codec "d-1" yes_action ≡ ok value)
    × (length value ≡ 33)
    × (decode hashing codec value ≡ ok (codes "wsLCwsLCwsLCwsLC", yes_action))
decode-encode_example =
    decode-encode hashing codec "d-1" yes_action (codes "wsLCwsLCwsLCwsLC") key_runs

decode-IsSignedCallback_example :
    IsSignedCallback hashing codec button (codes "wsLCwsLCwsLCwsLC") yes_action
decode-IsSignedCallback_example =
    decode-IsSignedCallback hashing codec button (codes "wsLCwsLCwsLCwsLC") yes_action decode_runs

abbrev World : Type 0
World = Unit {0}

abbrev Score : Type 0
Score = Unit {0}

abbrev decision : DecisionRecord Score
decision = record {
  decision_id = "d-1";
  project_id = "p";
  task_id = none;
  question = "q";
  recommendation = "r";
  authority = l1;
  classification = none;
  status = opened;
  owner_action = none;
  evidence_refs = [];
  blocked_refs = [];
  created_at = record { instant = 0; aware = true };
  resolved_at = none;
  supersedes = none;
}

abbrev replies : {A : Type 0} → A → Call TelegramError World A
replies value s = (ok value, s)

abbrev press : Members
press = field "update_id" (integer (pos 3)) (
    field "callback_query"
      (object (
        field "id" (text "cb-1") (
          field "from" (object (field "id" (integer (pos 5)) nothing_more)) (
            field "message"
              (object (
                field "message_id" (integer (pos 9)) (
                  field "chat"
                    (object
                      (field "id" (integer (pos 7)) (field "type" (text "private") nothing_more)))
                    nothing_more)))
              (field "data" (text "1:Y:wsLCwsLCwsLCwsLC:RkZGRkZGRkZG") nothing_more)))))
      nothing_more)

abbrev host : TelegramHost World Score
host = record {
  get_updates = λ offset timeout. replies (press ∷ press ∷ []);
  send_message = λ text rows. replies (pos 9);
  answer_callback_query = λ callback_id text. replies tt;
  clear_keyboard = λ message_id. replies tt;
  get_decision = λ decision_id. replies (some decision);
  apply_action = λ decision_id chosen. replies false;
  save = λ state. replies tt;
  int_of = λ value. none;
}

abbrev payload : MobileNotificationRequest
payload = record {
  decision_id = "d-1";
  mobile_safe = true;
  mobile_safe_summary = some (codes " deploy  now ");
}

abbrev notification : NotificationState
notification = record {
  decision_id = "d-1";
  mobile_safe = true;
  mobile_safe_summary = some (codes "deploy now");
  message_id = pos 9;
}

abbrev empty : Session World Score
empty = record {
  world = tt;
  state = record {
    update_offset = 0;
    notifications = [];
    processed_callback_ids = [];
    last_digest_date = none;
  };
  log = [];
}

abbrev session : Session World Score
session = record empty { state = record empty.state { notifications = ("d-1", notification) ∷ [] } }

-- The update is delivered twice, and the action is sent once.
poll_once_acts_once :
    ((poll_once host hashing codec 50 session).0 ≡ ok 2)
    × (actions (poll_once host hashing codec 50 session).1.log ≡ ("d-1", yes_action) ∷ [])
unfolding ◌>>=◌ lift gets pure raise perform modify utf8_encode b64url b64url_decode b64decode
    digit_value digit mac_of decimal decimal_from code_action decision_key encode decode answer
    clear read_decision apply mark reject clear_pressed act handle_match handle_decoded
    handle_callback handle_update matching may_defer is_defer is_final status_text is_closed
    is_governance_error save_state acknowledge handle_all poll_once sorted with_keys
poll_once_acts_once = (refl, refl)

register_notification_runs :
    (register_notification host hashing codec payload empty).0 ≡ ok notification
unfolding ◌>>=◌ lift gets pure raise perform modify utf8_encode b64url b64url_decode b64decode
    digit_value digit mac_of decimal decimal_from code_action decision_key encode decode
    clean_summary words_from restricted_text mobile_safe_text label buttons keyboard authority_text
    send register_new register_notification may_defer is_closed read_decision save_state is_space
register_notification_runs = refl

abbrev callback : Members
callback = elim (as_object (get "callback_query" press)) [
  | none ↦ nothing_more
  | some members ↦ members
]

press-IsPress : IsPress host hashing codec press session yes_action decision
unfolding matching decision_key utf8_encode b64url is_closed is_defer may_defer
press-IsPress = record {
  callback = callback;
  pressed = refl;
  callback_id = "cb-1";
  identified = refl;
  fresh = refl;
  in_context = refl;
  payload = "1:Y:wsLCwsLCwsLCwsLC:RkZGRkZGRkZG";
  given = refl;
  key = codes "wsLCwsLCwsLCwsLC";
  decoded = decode_runs;
  item = notification;
  unique = refl;
  safe = refl;
  known = refl;
  faultless = refl;
}

handle_update_acts_example :
    let (r, t) = handle_update host hashing codec press session in
    (actions t.log ≡ ("d-1", yes_action) ∷ [])
    × (is_ok r ≡ true → actions (handle_update host hashing codec press t).1.log ≡ actions t.log)
handle_update_acts_example =
    handle_update_acts host hashing codec press session yes_action decision press-IsPress

poll_once-IsSteady_example :
    let (r, after) = poll_once host hashing codec 50 session in
    IsSteady session.state after.state
    × ((count : ℕ) → r ≡ ok count → HasAcknowledged host hashing codec 50 session after)
poll_once-IsSteady_example = poll_once-IsSteady host hashing codec 50 session

-- The Bot API answers no callback: a query is too old.
abbrev silent_host : TelegramHost World Score
silent_host = record host {
  answer_callback_query = λ callback_id text s. (err TelegramError.client_failed, s);
}

press_keys : with_keys silent_host (press ∷ press ∷ []) ≡ ok ((pos 3, press) ∷ (pos 3, press) ∷ [])
unfolding with_keys
press_keys = refl

press_order : sorted ((pos 3, press) ∷ (pos 3, press) ∷ []) ≡ (pos 3, press) ∷ (pos 3, press) ∷ []
unfolding sorted
press_order = refl

poll_once_blocked_example :
    let (r, t) = poll_once silent_host hashing codec 50 session in
    (is_ok r ≡ false) × (t.state ≡ session.state)
poll_once_blocked_example =
    poll_once_blocked silent_host hashing codec "cb-1" (λ text w. refl) press callback refl refl 50
      3 session (press ∷ press ∷ []) (pos 3) ((pos 3, press) ∷ (pos 3, press) ∷ [])
      ((pos 3, press) ∷ []) refl press_keys press_order refl

register_notification-NoticeOutcome_example :
    let (r, t) = register_notification host hashing codec payload empty in
    NoticeOutcome host hashing codec payload empty r t
register_notification-NoticeOutcome_example =
    register_notification-NoticeOutcome host hashing codec payload empty

register_notification_repeats_example :
    let t = (register_notification host hashing codec payload empty).1 in
    register_notification host hashing codec payload t ≡ (ok notification, t)
register_notification_repeats_example =
    register_notification_repeats host hashing codec payload empty notification
      register_notification_runs refl
