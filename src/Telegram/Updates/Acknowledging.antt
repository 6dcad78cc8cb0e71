-- ===== src/Telegram/Updates/Acknowledging.antt =====
-- What `poll_once` of src/forge_controller/telegram_governance.py leaves of the state, and what it has
-- acknowledged when it returns.
use hermes_dev_team_vm.Prelude.{
  ℕ, ◌+◌, max, ◌<◌, ◌≡◌, refl, sym, ◌∙◌, subst, Option, none, some, List, [], ◌∷◌, ok, All, arith,
  ok_unique, some_unique, Bool-cases, inl, inr, Result, err, ℤ, then_run,
}
use hermes_dev_team_vm.Json.{Members}
use hermes_dev_team_vm.Calls.{pure, lift, gets, ◌>>=◌}
use hermes_dev_team_vm.Calls.Keeps.{
  Keeps, Keeps-pure, Keeps-lift, Keeps-gets, Keeps-bind, bind_returned,
}
use hermes_dev_team_vm.Telegram.{TelegramError, TelegramHost, Session, perform, modify}
use hermes_dev_team_vm.Telegram.Codec.{Hashing, CallbackCodec}
use hermes_dev_team_vm.Telegram.Updates.{handle_update}
use hermes_dev_team_vm.Telegram.Updates.Polling.{
  Keyed, sorted, update_number, with_keys, save_state, acknowledge, handle_numbered, handle_all,
  poll_once, insert, leb_ℤ,
}
use hermes_dev_team_vm.Telegram.Updates.Steadiness.{
  IsSteady, Steady, steady, perform-Steady, handle_update-Steady,
}

-- Telegram will not send the update again: the offset is past its number.
abbrev pub IsPast : ℕ → Members → Type 0
IsPast offset update = (number : ℕ) → update_number update ≡ some number → number < offset

abbrev pub IsAcknowledged : ℕ → Keyed → Type 0
IsAcknowledged offset (_, update) = IsPast offset update

-- Sorting loses nothing.
All-insert :
    (P : Keyed → Type 0) (x : Keyed) (ys : List Keyed) → All P (insert x ys) → P x × All P ys
All-insert P x [] h = h
All-insert P x (y ∷ ys) h = elim (Bool-cases (leb_ℤ x.0 y.0)) [
  | inl low ↦ rw low at h
  | inr high ↦
      let q = rw high at h in let (first, rest) = All-insert P x ys q.1 in (first, (q.0, rest))
]

All-sorted : (P : Keyed → Type 0) (xs : List Keyed) → All P (sorted xs) → All P xs
unfolding sorted
All-sorted P [] h = tt
All-sorted P (x ∷ xs) h =
    let (first, rest) = All-insert P x (sorted xs) h in (first, All-sorted P xs rest)

module _ {World Score : Type 0} (host : TelegramHost World Score) (hashing : Hashing)
    (codec : CallbackCodec) where
  save_state-Steady : Keeps Steady (save_state host hashing codec)
  unfolding save_state
  save_state-Steady =
      Keeps-bind steady _ _ (Keeps-gets steady _) λ state. perform-Steady (host.save state) _

  offset-Steady :
      (number : ℕ)
      → Keeps {E = TelegramError} Steady (
          modify {World = World} {Score = Score}
            (λ state. record state { update_offset = max state.update_offset (number + 1) }))
  unfolding modify
  offset-Steady number = record {
    holds = λ s. record { forward = omega arith; bounded = λ h. h; notified = refl };
  }

  acknowledge-Steady : (number : ℕ) → Keeps Steady (acknowledge host hashing codec number)
  unfolding acknowledge
  acknowledge-Steady number = Keeps-bind steady _ _ (offset-Steady number) λ _. save_state-Steady

  acknowledge-past :
      (number : ℕ) (s : Session World Score)
      → number < (acknowledge host hashing codec number s).1.state.update_offset
  unfolding acknowledge modify ◌>>=◌
  acknowledge-past number s =
      let t : Session World Score = record {
        world = s.world;
        state = record s.state { update_offset = max s.state.update_offset (number + 1) };
        log = s.log;
      } in
      let later = save_state-Steady.holds t in omega (arith, later.forward)

  handle_numbered-Steady :
      (update : Members) (number : Option ℕ)
      → Keeps Steady (handle_numbered host hashing codec update number)
  handle_numbered-Steady update none = Keeps-pure steady 0
  handle_numbered-Steady update (some number) =
      Keeps-bind steady _ _ (handle_update-Steady host hashing codec update)
        λ _. Keeps-bind steady _ _ (acknowledge-Steady number) λ _. Keeps-pure steady 1

  handle_all-Steady :
      (batch : List Keyed) (processed : ℕ)
      → Keeps Steady (handle_all host hashing codec batch processed)
  unfolding handle_all
  handle_all-Steady [] processed = Keeps-pure steady processed
  handle_all-Steady ((key, update) ∷ batch) processed =
      Keeps-bind steady _ _ (handle_numbered-Steady update (update_number update))
        λ more. handle_all-Steady batch (processed + more)

  handle_numbered-past :
      (update : Members) (found : Option ℕ) (s : Session World Score) {more : ℕ}
      → (handle_numbered host hashing codec update found s).0 ≡ ok more
      → (number : ℕ) → found ≡ some number
      → number < (handle_numbered host hashing codec update found s).1.state.update_offset
  unfolding pure
  handle_numbered-past update none s h number e = cc
  handle_numbered-past update (some n) s h number e =
      let (_, _, rest, same) = bind_returned (handle_update host hashing codec update) _ s h in
      let t = (handle_update host hashing codec update s).1 in
      let (_, _, _, same₁) = bind_returned (acknowledge host hashing codec n) _ t rest in
      let n_same : n ≡ number = some_unique refl e in
      subst (λ (u : Session World Score). number < u.state.update_offset) (sym (same ∙ same₁))
        (subst (λ (m : ℕ). m < (acknowledge host hashing codec n t).1.state.update_offset) n_same
          (acknowledge-past n t))

  handle_all-IsAcknowledged :
      (batch : List Keyed) (processed : ℕ) (s : Session World Score) {count : ℕ}
      → (handle_all host hashing codec batch processed s).0 ≡ ok count
      → All
          (IsAcknowledged (handle_all host hashing codec batch processed s).1.state.update_offset)
          batch
  unfolding handle_all
  handle_all-IsAcknowledged [] processed s h = tt
  handle_all-IsAcknowledged ((key, update) ∷ batch) processed s h =
      let turn = handle_numbered host hashing codec update (update_number update) in
      let (more, first, rest, same) = bind_returned turn _ s h in
      let later = (handle_all-Steady batch (processed + more)).holds (turn s).1 in
      subst
        (λ (t : Session World Score).
          All (IsAcknowledged t.state.update_offset) ((key, update) ∷ batch))
        (sym same)
        (
          λ number e.
              let past = handle_numbered-past update (update_number update) s first number e in
              omega (arith, past, later.forward),
          handle_all-IsAcknowledged batch (processed + more) (turn s).1 rest,
        )

  poll_once-Steady : (timeout : ℕ) → Keeps Steady (poll_once host hashing codec timeout)
  unfolding poll_once
  poll_once-Steady timeout = Keeps-bind steady _ _ (Keeps-gets steady _) λ offset.
      Keeps-bind steady _ _ (perform-Steady (host.get_updates offset timeout) _) λ updates.
        Keeps-bind steady _ _ (Keeps-lift steady _) λ keyed. handle_all-Steady (sorted keyed) 0

  keyed_update :
      (P : Members → Type 0) (update : Members) (updates : List Members)
      (key : Result TelegramError ℤ) (rest : Result TelegramError (List Keyed)) (keyed : List Keyed)
      → ((tail : List Keyed) → rest ≡ ok tail → All (λ (k : Keyed). P k.1) tail → All P updates)
      → then_run (λ k. then_run (λ others. ok ((k, update) ∷ others)) rest) key ≡ ok keyed
      → All (λ (k : Keyed). P k.1) keyed
      → All P (update ∷ updates)
  keyed_update P update updates (err e) rest keyed ih h all = cc
  keyed_update P update updates (ok key) (err e) keyed ih h all = cc
  keyed_update P update updates (ok key) (ok tail) keyed ih h all =
      let same : (key, update) ∷ tail ≡ keyed = ok_unique {E = TelegramError} refl h in
      let given = subst (λ (ks : List Keyed). All (λ (k : Keyed). P k.1) ks) (sym same) all in
      (given.0, ih tail refl given.1)

  All-with_keys :
      (P : Members → Type 0) (updates : List Members) (keyed : List Keyed)
      → with_keys host updates ≡ ok keyed
      → All (λ (k : Keyed). P k.1) keyed
      → All P updates
  unfolding with_keys
  All-with_keys P [] keyed h all = tt
  All-with_keys P (update ∷ updates) keyed h all =
      keyed_update P update updates _ (with_keys host updates) keyed (All-with_keys P updates) h all

  -- What a poll that returned has done with the batch that Telegram sent.
  pub record HasAcknowledged (timeout : ℕ) (before after : Session World Score) : Type 0 where
    pub updates : List Members
    pub sent : (host.get_updates before.state.update_offset timeout before.world).0 ≡ ok updates
    pub keyed : List Keyed
    pub numbered : with_keys host updates ≡ ok keyed
    pub past : All (IsPast after.state.update_offset) updates

  poll_once-HasAcknowledged :
      (timeout : ℕ) (s : Session World Score) {count : ℕ}
      → (poll_once host hashing codec timeout s).0 ≡ ok count
      → HasAcknowledged timeout s (poll_once host hashing codec timeout s).1
  unfolding poll_once gets lift perform
  poll_once-HasAcknowledged timeout s h =
      let (offset, known, h₁, same) =
        bind_returned (gets (λ (u : Session World Score). u.state.update_offset)) _ s h in
      let (updates, sent, h₂, same₁) =
        bind_returned
          (perform {World = World} {Score = Score} (host.get_updates offset timeout) (λ _. [])) _ s
          h₁ in
      let t =
        (perform {World = World} {Score = Score} (host.get_updates offset timeout) (λ _. []) s).1 in
      let (keyed, numbered, h₃, same₂) = bind_returned (lift (with_keys host updates)) _ t h₂ in
      let offset_same : s.state.update_offset ≡ offset = ok_unique {E = TelegramError} refl known in
      record {
        updates = updates;
        sent =
            subst (λ (n : ℕ). (host.get_updates n timeout s.world).0 ≡ ok updates) (sym offset_same)
              sent;
        keyed = keyed;
        numbered = numbered;
        past = All-with_keys (IsPast _) updates keyed numbered (
            All-sorted (λ (k : Keyed). IsPast _ k.1) keyed
              (subst
                (λ (u : Session World Score).
                  All (IsAcknowledged u.state.update_offset) (sorted keyed))
                (sym (same ∙ same₁ ∙ same₂)) (handle_all-IsAcknowledged (sorted keyed) 0 t h₃)));
      }

  -- However `poll_once` ends, the offset of the updates has not fallen, no more than 256
  -- processed callbacks are kept if no more were before, and the notifications are those before;
  -- if it returns, the offset is past every numbered update of the batch that Telegram sent.
  pub poll_once-IsSteady :
      (timeout : ℕ) (s : Session World Score)
      → let (r, after) = poll_once host hashing codec timeout s in
        IsSteady s.state after.state
        × ((count : ℕ) → r ≡ ok count → HasAcknowledged timeout s after)
  poll_once-IsSteady timeout s =
      ((poll_once-Steady timeout).holds s, λ count h. poll_once-HasAcknowledged timeout s h)
