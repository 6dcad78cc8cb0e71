-- ===== src/Governance/Streaks.antt =====
-- Whole histories of src/forge_controller/governance_store.py: the counters are those of the history, and
-- the owner is interrupted when they say so.
use hermes_dev_team_vm.Prelude.{
  ℕ, ◌+◌, ◌≡◌, refl, sym, ap, ◌∙◌, Bool, true, false, ◌&&◌, ◌||◌, Option, none, some, List, [], ◌∷◌,
  leb, if◌then◌else◌, Result, ok, err, Bool-cases, inl, inr, ensure_utc,
}
use hermes_dev_team_vm.Governance.{GovernanceError}
use hermes_dev_team_vm.Governance.Denials.{
  DenialState, DenialOutcome, Denied, active_policy, escalates, record_policy_denial,
  record_safe_alternative_success, Key, same_key, Table, row_for, state_of, set_row, persist,
  insert_row, Attempt, committed, failed, integrity_error, attempt_with, retry_with, after_persist,
  record_denial_once, record_denial, record_safe_alternative, alternative_with, get_state,
}
use hermes_dev_team_vm.Governance.History.{
  same_key_iff, row_for-set_row_self, row_for-set_row_other, record_denial_counts,
}

-- What callers do to the store, one transaction at a time.
pub data Event : Type 0 where
  denied : Key → Denied → Event
  succeeded : Key → Event

abbrev table_after : Table → Attempt DenialOutcome → Table
table_after old (committed outcome new) = new
table_after old (failed e) = old
table_after old integrity_error = old

unfoldable pub step : Table → Event → Table
step table (denied key d) = table_after table (record_denial key d table table table)
step table (succeeded key) = (record_safe_alternative key table).1

unfoldable pub replay : Table → List Event → Table
replay table [] = table
replay table (e ∷ events) = replay (step table e) events

-- The counters that the history gives a key, from `n` on: the denials at an aware time, in all, and
-- since the last success.
abbrev pub counts : Key → Key → Denied → Bool
counts key k d = same_key k key && d.timestamp.aware

unfoldable pub total_from : Key → ℕ → List Event → ℕ
total_from key n [] = n
total_from key n (denied k d ∷ events) = total_from key (if counts key k d then n + 1 else n) events
total_from key n (succeeded k ∷ events) = total_from key n events

unfoldable pub streak_from : Key → ℕ → List Event → ℕ
streak_from key n [] = n
streak_from key n (denied k d ∷ events) =
    streak_from key (if counts key k d then n + 1 else n) events
streak_from key n (succeeded k ∷ events) = streak_from key (if same_key k key then 0 else n) events

persist_other :
    (row : Option DenialState) (key j : Key) (state : DenialState) (table new : Table)
    → same_key key j ≡ false
    → persist row key state table ≡ some new
    → row_for j new ≡ row_for j table
unfolding persist row_for
persist_other (some old) key j state table new apart h =
    let e : new ≡ set_row key state table = cc in
    rw (e, row_for-set_row_other key j state table apart)
persist_other none key j state table new apart h = by_row (row_for key table) h
  where
    by_row :
        (o : Option DenialState)
        → insert_row o key state table ≡ some new
        → row_for j new ≡ row_for j table
    by_row none e = let same : new ≡ (key, state) ∷ table = cc in rw (same, apart)
    by_row (some other) e = cc

retry_same : (m : Attempt DenialOutcome) → retry_with m m ≡ m
retry_same (committed o t) = refl
retry_same (failed e) = refl
retry_same integrity_error = refl

attempt_other :
    (row : Option DenialState) (key j : Key) (table : Table)
    (r : Result GovernanceError DenialOutcome)
    → same_key key j ≡ false
    → row_for j (table_after table (attempt_with row key table r)) ≡ row_for j table
attempt_other row key j table (err e) apart = refl
attempt_other row key j table (ok o) apart = by_table (persist row key o.state table) refl
  where
    by_table :
        (p : Option Table)
        → persist row key o.state table ≡ p
        → row_for j (table_after table (after_persist o p)) ≡ row_for j table
    by_table none e = refl
    by_table (some new) e = persist_other row key j o.state table new apart e

record_denial_other :
    (key j : Key) (d : Denied) (table : Table)
    → same_key key j ≡ false
    → row_for j (table_after table (record_denial key d table table table)) ≡ row_for j table
unfolding record_denial record_denial_once
record_denial_other key j d table apart = rw retry_same (
    attempt_other (row_for key table) key j table
      (record_policy_denial (state_of (row_for key table) key.signature) d) apart)

record_denial_naive :
    (key : Key) (d : Denied) (table : Table)
    → d.timestamp.aware ≡ false
    → table_after table (record_denial key d table table table) ≡ table
unfolding record_denial record_denial_once record_policy_denial
record_denial_naive key d table naive = rw naive

record_safe_alternative_other :
    (key j : Key) (table : Table)
    → same_key key j ≡ false
    → row_for j (record_safe_alternative key table).1 ≡ row_for j table
unfolding record_safe_alternative
record_safe_alternative_other key j table apart = by_row (row_for key table)
  where
    by_row : (o : Option DenialState) → row_for j (alternative_with o key table).1 ≡ row_for j table
    by_row none = refl
    by_row (some old) =
        row_for-set_row_other key j
          (record_safe_alternative_success (state_of (some old) key.signature)) table apart

-- The counters of a key in a table.
abbrev Counters : Key → Table → ℕ → ℕ → Type 0
Counters key table total consecutive =
    ((get_state key table).total ≡ total) × ((get_state key table).consecutive ≡ consecutive)

Counters-row :
    (key : Key) (table : Table) (s : DenialState)
    → row_for key table ≡ some s
    → Counters key table s.total s.consecutive
unfolding get_state state_of
Counters-row key table s e = (rw e, rw e)

Counters-other :
    (key : Key) (old new : Table)
    → row_for key new ≡ row_for key old
    → Counters key new (get_state key old).total (get_state key old).consecutive
unfolding get_state
Counters-other key old new e = (rw e, rw e)

record_safe_alternative_self :
    (key : Key) (table : Table)
    → Counters key (record_safe_alternative key table).1 (get_state key table).total 0
unfolding record_safe_alternative state_of record_safe_alternative_success
record_safe_alternative_self key table = by_row (row_for key table) refl
  where
    by_row :
        (o : Option DenialState)
        → row_for key table ≡ o
        → Counters key (alternative_with o key table).1 (get_state key table).total 0
    by_row none e = (refl, unfold get_state in rw e)
    by_row (some s) e =
        let state : DenialState = record s {
          consecutive = 0;
          last_reason = none;
          last_denied_at = ensure_utc s.last_denied_at;
        } in
        let c =
          Counters-row key (set_row key state table) state
            (row_for-set_row_self key state s table e) in
        (c.0 ∙ sym (Counters-row key table s e).0, c.1)

record_denial_self :
    (key : Key) (d : Denied) (table : Table) (aware : Bool)
    → d.timestamp.aware ≡ aware
    → Counters key
        (table_after table (record_denial key d table table table))
        (if aware then (get_state key table).total + 1 else (get_state key table).total)
        (if aware then (get_state key table).consecutive + 1 else (get_state key table).consecutive)
record_denial_self key d table false e = rw (record_denial_naive key d table e) (refl, refl)
record_denial_self key d table true e =
    let c = record_denial_counts key d table table table e (λ s h. h) (λ s h. h) in
    let r = Counters-row key c.table c.outcome.state c.stored in
    rw c.done (r.0 ∙ c.total, r.1 ∙ c.consecutive)

step_counts :
    (key : Key) (e : Event) (table : Table)
    → Counters key
        (step table e)
        (total_from key (get_state key table).total (e ∷ []))
        (streak_from key (get_state key table).consecutive (e ∷ []))
unfolding step total_from streak_from
step_counts key (denied k d) table = elim (Bool-cases (same_key k key)) [
  | inr apart ↦ rw apart (Counters-other key table _ (record_denial_other k key d table apart))
  | inl same ↦
      rw (same, (same_key_iff k key).0 same) (record_denial_self key d table d.timestamp.aware refl)
]
step_counts key (succeeded k) table = elim (Bool-cases (same_key k key)) [
  | inr apart ↦
      rw apart (Counters-other key table _ (record_safe_alternative_other k key table apart))
  | inl same ↦ rw (same, (same_key_iff k key).0 same) (record_safe_alternative_self key table)
]

total_from_cons :
    (key : Key) (n : ℕ) (e : Event) (events : List Event)
    → total_from key n (e ∷ events) ≡ total_from key (total_from key n (e ∷ [])) events
unfolding total_from
total_from_cons key n (denied k d) events = refl
total_from_cons key n (succeeded k) events = refl

streak_from_cons :
    (key : Key) (n : ℕ) (e : Event) (events : List Event)
    → streak_from key n (e ∷ events) ≡ streak_from key (streak_from key n (e ∷ [])) events
unfolding streak_from
streak_from_cons key n (denied k d) events = refl
streak_from_cons key n (succeeded k) events = refl

-- After any history of denials and successes, from any table, the counters that `get_state`
-- returns for a key are those that the history gives it: all its denials at an aware time, and
-- those since its last success, on top of the counters before.
pub replay_counts :
    (key : Key) (events : List Event) (table : Table)
    → Counters key
        (replay table events)
        (total_from key (get_state key table).total events)
        (streak_from key (get_state key table).consecutive events)
unfolding replay total_from streak_from
replay_counts key [] table = (refl, refl)
replay_counts key (e ∷ events) table =
    let c = step_counts key e table in
    rw
      (
        total_from_cons key (get_state key table).total e events,
        streak_from_cons key (get_state key table).consecutive e events,
        ← c.0,
        ← c.1,
      )
      (replay_counts key events (step table e))

-- After any history of denials and successes from an empty table, a denial at an aware time is
-- committed, and the owner is interrupted exactly if the denial is material, or the denials of
-- the key since its last success, this one counted, reach the consecutive limit, or all its
-- denials reach the total limit.
pub replay_interrupts :
    (key : Key) (events : List Event) (d : Denied)
    → d.timestamp.aware ≡ true
    → (o : DenialOutcome) × (table : Table) × (record_denial key d
          (replay [] events)
          (replay [] events)
          (replay [] events)
        ≡ committed o table)
      × (o.owner_interrupt_required ≡ (
          d.material
          || (leb
                (active_policy d.policy).consecutive_before_escalate
                (streak_from key 0 events + 1)
              || leb (active_policy d.policy).total_before_escalate (total_from key 0 events + 1))))
unfolding escalates get_state row_for state_of
replay_interrupts key events d aware =
    let now = replay [] events in
    let c = record_denial_counts key d now now now aware (λ s h. h) (λ s h. h) in
    let n = replay_counts key events [] in
    let total : c.outcome.state.total ≡ total_from key 0 events + 1 =
      c.total ∙ ap (λ k. k + 1) n.0 in
    let streak : c.outcome.state.consecutive ≡ streak_from key 0 events + 1 =
      c.consecutive ∙ ap (λ k. k + 1) n.1 in
    (c.outcome, c.table, c.done, rw (c.interrupt, total, streak))
