-- ===== src/Governance/DenialSamples.antt =====
-- Tests of the denial counters of src/forge_controller/governance_store.py, and their theorems at a
-- concrete history, with a race of two first denials.
use hermes_dev_team_vm.Prelude.{
  ◌+◌, ◌≡◌, refl, true, false, none, some, List, [], ◌∷◌, ◌||◌, leb, arith,
}
use hermes_dev_team_vm.Governance.Denials.{
  Key, Denied, DenialState, DenialOutcome, Table, committed, record_denial, get_state,
  active_policy, row_for,
}
use hermes_dev_team_vm.Governance.History.{IsCounted, record_denial_counts}
use hermes_dev_team_vm.Governance.Streaks.{
  Event, denied, succeeded, replay, total_from, streak_from, replay_counts, replay_interrupts,
}

abbrev key : Key
key = record { project_id = "p"; task_id = "t"; signature = "net" }

abbrev other : Key
other = record key { task_id = "u" }

abbrev denial : Denied
denial = record {
  reason = "blocked";
  policy = none;
  material = false;
  timestamp = record { instant = 1; aware = true };
}

-- Denied twice, then a success, with a denial of another task between; then denied once more.
abbrev history : List Event
history =
    denied key denial
    ∷ denied other denial
    ∷ denied key denial
    ∷ succeeded key
    ∷ denied key denial
    ∷ []

total_test : total_from key 0 history ≡ 3
unfolding total_from hermes_dev_team_vm.Governance.Denials.same_key
total_test = refl

streak_test : streak_from key 0 history ≡ 1
unfolding streak_from hermes_dev_team_vm.Governance.Denials.same_key
streak_test = refl

-- What another session has committed between the read and the insert.
abbrev raced : Table
raced =
    (
      key,
      record {
        signature = "net";
        consecutive = 1;
        total = 1;
        last_reason = some "blocked";
        last_denied_at = some record { instant = 1; aware = true };
      },
    )
    ∷ []

record_denial_counts_example :
    IsCounted key denial (get_state key raced) (record_denial key denial [] raced raced)
unfolding row_for
record_denial_counts_example =
    record_denial_counts key denial [] raced raced refl (λ s h. ground arith) (λ s h. h)

replay_counts_example :
    ((get_state key (replay [] history)).total ≡ total_from key (get_state key []).total history)
    × ((get_state key (replay [] history)).consecutive
        ≡ streak_from key (get_state key []).consecutive history)
replay_counts_example = replay_counts key history []

replay_interrupts_example :
    (o : DenialOutcome) × (table : Table) × (record_denial key denial
        (replay [] history)
        (replay [] history)
        (replay [] history)
      ≡ committed o table)
    × (o.owner_interrupt_required ≡ (
        false
        || (leb (active_policy none).consecutive_before_escalate (streak_from key 0 history + 1)
            || leb (active_policy none).total_before_escalate (total_from key 0 history + 1))))
replay_interrupts_example = replay_interrupts key history denial refl
