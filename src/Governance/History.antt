-- ===== src/Governance/History.antt =====
-- The counters of src/forge_controller/governance_store.py against the history of denials and successes.
use hermes_dev_team_vm.Prelude.{
  IsOk-eq, ◌+◌, ◌≡◌, ◌↔◌, inl, inr, refl, true, false, Option, none, some, [], ◌∷◌, eq_iff, ok,
  arith, Bool-cases,
}
use hermes_dev_team_vm.Governance.Denials.{
  DenialState, DenialOutcome, Denied, active_policy, escalates, record_policy_denial, Key, same_key,
  Table, row_for, state_of, set_row, persist, Attempt, committed, integrity_error,
  record_denial_once, record_denial, retry_with, get_state,
}

pub same_key_iff : (a b : Key) → (same_key a b ≡ true) ↔ (a ≡ b)
unfolding same_key
same_key_iff a b = ground (
  arith,
  eq_iff a.project_id b.project_id,
  eq_iff a.task_id b.task_id,
  eq_iff a.signature b.signature,
)

same_key_refl : (a : Key) → same_key a a ≡ true
same_key_refl a = (same_key_iff a a).1 refl

pub row_for-set_row_self :
    (key : Key) (state old : DenialState) (table : Table)
    → row_for key table ≡ some old
    → row_for key (set_row key state table) ≡ some state
unfolding row_for set_row
row_for-set_row_self key state old [] h = cc
row_for-set_row_self key state old ((k, other) ∷ rows) h = elim (Bool-cases (same_key k key)) [
  | inl same ↦ rw (same, same)
  | inr differ ↦ rw (differ, differ) (row_for-set_row_self key state old rows (rw differ at h))
]

pub row_for-set_row_other :
    (key j : Key) (state : DenialState) (table : Table)
    → same_key key j ≡ false
    → row_for j (set_row key state table) ≡ row_for j table
unfolding row_for set_row
row_for-set_row_other key j state [] h = refl
row_for-set_row_other key j state ((k, other) ∷ rows) h = elim (Bool-cases (same_key k key)) [
  | inl same ↦
      rw same (let apart : same_key k j ≡ false = rw ((same_key_iff k key).0 same) h in rw apart)
  | inr differ ↦ rw (differ, row_for-set_row_other key j state rows h)
]

-- The attempt has committed one more denial than `base` counts.
pub record IsCounted (key : Key) (denied : Denied) (base : DenialState)
    (attempt : Attempt DenialOutcome) : Type 0 where
  pub outcome : DenialOutcome
  pub table : Table
  pub done : attempt ≡ committed outcome table
  pub stored : row_for key table ≡ some outcome.state
  pub total : outcome.state.total ≡ base.total + 1
  pub consecutive : outcome.state.consecutive ≡ base.consecutive + 1
  pub interrupt :
      outcome.owner_interrupt_required
      ≡ escalates (active_policy denied.policy) denied.material outcome.state

denial_outcome :
    (state : DenialState) (denied : Denied)
    → denied.timestamp.aware ≡ true
    → (o : DenialOutcome) × (record_policy_denial state denied ≡ ok o)
      × (o.state.total ≡ state.total + 1)
      × (o.state.consecutive ≡ state.consecutive + 1)
      × (o.owner_interrupt_required
          ≡ escalates (active_policy denied.policy) denied.material o.state)
unfolding record_policy_denial
denial_outcome state denied aware =
    let (o, e) = IsOk-eq (record_policy_denial state denied) (rw aware tt) in
    (o, e, ground arith, ground arith, ground arith)

module _ (key : Key) (denied : Denied) (before now : Table)
    (aware : denied.timestamp.aware ≡ true) where
  once_known :
      (s : DenialState)
      → row_for key before ≡ some s
      → row_for key now ≡ some s
      → IsCounted key denied
          (state_of (some s) key.signature)
          (record_denial_once key denied before now)
  unfolding record_denial_once persist state_of record_policy_denial denial_outcome set_row
  once_known s was is =
      let (o, e, total, consecutive, interrupt) =
        denial_outcome (state_of (some s) key.signature) denied aware in
      record {
        outcome = o;
        table = set_row key o.state now;
        done = rw (was, e);
        stored = row_for-set_row_self key o.state s now is;
        total = total;
        consecutive = consecutive;
        interrupt = interrupt;
      }

  once_new :
      row_for key before ≡ none
      → row_for key now ≡ none
      → IsCounted key denied
          (state_of none key.signature)
          (record_denial_once key denied before now)
  unfolding record_denial_once persist row_for
  once_new was is =
      let (o, e, total, consecutive, interrupt) =
        denial_outcome (state_of none key.signature) denied aware in
      record {
        outcome = o;
        table = (key, o.state) ∷ now;
        done = rw (was, e, is);
        stored = rw (same_key_refl key);
        total = total;
        consecutive = consecutive;
        interrupt = interrupt;
      }

  once_raced :
      (s : DenialState)
      → row_for key before ≡ none
      → row_for key now ≡ some s
      → record_denial_once key denied before now ≡ integrity_error
  unfolding record_denial_once persist
  once_raced s was is =
      let (o, e, _, _, _) = denial_outcome (state_of none key.signature) denied aware in
      rw (was, e, is)

first_counts :
    (key : Key) (denied : Denied) (base : DenialState) (first again : Attempt DenialOutcome)
    → IsCounted key denied base first
    → IsCounted key denied base (retry_with first again)
first_counts key denied base first again c = record {
  outcome = c.outcome;
  table = c.table;
  done = rw c.done;
  stored = c.stored;
  total = c.total;
  consecutive = c.consecutive;
  interrupt = c.interrupt;
}

-- No recurrence is lost, also where two first denials race: if the clock is aware, and rows stay
-- as they are between a read and its commit, `record_denial` commits, and what it stores counts
-- one denial more, in all and in a row, than the table held when the first attempt was committed;
-- the owner is interrupted as the limits say.
pub record_denial_counts :
    (key : Key) (denied : Denied) (before now now' : Table)
    → denied.timestamp.aware ≡ true
    → ((s : DenialState) → row_for key before ≡ some s → row_for key now ≡ some s)
    → ((s : DenialState) → row_for key now ≡ some s → row_for key now' ≡ some s)
    → IsCounted key denied (get_state key now) (record_denial key denied before now now')
unfolding record_denial get_state state_of
record_denial_counts key denied before now now' aware lock lock' =
    by_rows (row_for key before) (row_for key now) refl refl
  where
    by_rows :
        (b n : Option DenialState)
        → row_for key before ≡ b
        → row_for key now ≡ n
        → IsCounted key denied (state_of (row_for key now) key.signature) (
            retry_with
              (record_denial_once key denied before now)
              (record_denial_once key denied now now'))
    by_rows (some s) n was is =
        rw (lock s was) (
          first_counts key denied _ _ _ (once_known key denied before now aware s was (lock s was)))
    by_rows none none was is =
        rw is (first_counts key denied _ _ _ (once_new key denied before now aware was is))
    by_rows none (some s) was is =
        rw (once_raced key denied before now aware s was is, is)
          (once_known key denied now now' aware s is (lock' s is))
