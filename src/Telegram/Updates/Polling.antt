-- ===== src/Telegram/Updates/Polling.antt =====
-- `poll_once` of src/forge_controller/telegram_governance.py: a batch of updates in the order of their
-- numbers, and what it leaves of the state.
use hermes_dev_team_vm.Prelude.{
  ℕ, ◌+◌, max, Bool, true, false, Option, none, some, List, [], ◌∷◌, leb, if◌then◌else◌, Result, ok,
  or_raise, ℤ, pos, negsuc, then_run,
}
use hermes_dev_team_vm.Json.{Json, Members, get, as_int, integer, boolean}
use hermes_dev_team_vm.Calls.{pure, lift, gets, ◌>>=◌, ◌>>◌}
use hermes_dev_team_vm.Telegram.{TelegramError, TelegramHost, perform, modify}
use hermes_dev_team_vm.Telegram.Codec.{Hashing, CallbackCodec}
use hermes_dev_team_vm.Telegram.Updates.{Action, handle_update}

-- Python's `<=` on integers
abbrev pub leb_ℤ : ℤ → ℤ → Bool
leb_ℤ (pos m) (pos n) = leb m n
leb_ℤ (pos m) (negsuc n) = false
leb_ℤ (negsuc m) (pos n) = true
leb_ℤ (negsuc m) (negsuc n) = leb n m

abbrev pub Keyed : Type 0
Keyed = ℤ × Members

abbrev pub insert : Keyed → List Keyed → List Keyed
insert x [] = x ∷ []
insert x (y ∷ ys) = let rest = insert x ys in if leb_ℤ x.0 y.0 then x ∷ y ∷ ys else y ∷ rest

-- sorted: equal keys keep their order
unfoldable pub sorted : List Keyed → List Keyed
sorted [] = []
sorted (x ∷ xs) = insert x (sorted xs)

-- update.get("update_id"), if it is an integer and not negative
abbrev pub natural : Option ℤ → Option ℕ
natural (some (pos n)) = some n
natural _ = none

abbrev pub update_number : Members → Option ℕ
update_number update = natural (as_int (get "update_id" update))

module _ {World Score : Type 0} (host : TelegramHost World Score) where
  -- int(value): an integer, or what `int` makes of a text or a float
  abbrev pub int_key : Json → Option ℤ
  int_key (integer n) = some n
  int_key (boolean true) = some (pos 1)
  int_key (boolean false) = some (pos 0)
  int_key other = host.int_of other

  -- int(item.get("update_id", -1))
  abbrev pub key_of : Option Json → Result TelegramError ℤ
  key_of none = ok (negsuc 0)
  key_of (some value) = or_raise (int_key value) TelegramError.type_error

  unfoldable pub with_keys : List Members → Result TelegramError (List Keyed)
  with_keys [] = ok []
  with_keys (update ∷ updates) =
      let rest = with_keys updates in
      then_run (λ key. then_run (λ keyed. ok ((key, update) ∷ keyed)) rest)
        (key_of (get "update_id" update))

module _ {World Score : Type 0} (host : TelegramHost World Score) (hashing : Hashing)
    (codec : CallbackCodec) where
  -- self.state_store.save(self.state)
  unfoldable pub save_state : Action host hashing codec (Unit {0})
  save_state = gets (λ s. s.state) >>= λ state. perform (host.save state) (λ _. [])

  unfoldable pub acknowledge : ℕ → Action host hashing codec (Unit {0})
  acknowledge number =
      modify (λ state. record state { update_offset = max state.update_offset (number + 1) })
      >> save_state

  -- One turn of the loop of `poll_once`, and what it adds to the number of updates.
  abbrev pub handle_numbered : Members → Option ℕ → Action host hashing codec ℕ
  handle_numbered update none = pure 0
  handle_numbered update (some number) = do
    handle_update host hashing codec update
    acknowledge number
    pure 1

  unfoldable pub handle_all : List Keyed → ℕ → Action host hashing codec ℕ
  handle_all [] processed = pure processed
  handle_all ((_, update) ∷ batch) processed = do
    more ← handle_numbered update (update_number update)
    handle_all batch (processed + more)

  unfoldable pub poll_once : ℕ → Action host hashing codec ℕ
  poll_once timeout = do
    offset ← gets (λ s. s.state.update_offset)
    updates ← perform (host.get_updates offset timeout) (λ _. [])
    keyed ← lift (with_keys host updates)
    handle_all (sorted keyed) 0
