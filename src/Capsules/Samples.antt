-- ===== src/Capsules/Samples.antt =====
-- Tests of the model of save_capsule in src/forge_controller/repository.py, and its theorems where two
-- writers race for the second revision.
use hermes_dev_team_vm.Prelude.{◌≡◌, refl, inl, inr, none, [], ◌∷◌, eqb, ok, err, Memᴰ, arith}
use hermes_dev_team_vm.Capsules.{
  TaskCapsule, CapsuleStore, checkpointed, already_exists, save_capsule, save_once,
  recorded_revision, latest_row, is_revision, is_replay, is_taken, ℕ,
}
use hermes_dev_team_vm.Capsules.Chain.{IsChain, insert-IsChain}
use hermes_dev_team_vm.Capsules.History.{IsSaved, save_capsule-IsSaved}
use hermes_dev_team_vm.Capsules.Gapless.{HasRevision, save_capsule_gapless}

abbrev first : TaskCapsule ℕ
first = record {
  capsule_id = "c";
  project_id = "p";
  task_id = "t";
  kanban_task_id = none;
  revision = 1;
  payload = 10;
}

abbrev second : TaskCapsule ℕ
second = record first { revision = 2; payload = 20 }

abbrev nothing : CapsuleStore ℕ
nothing = record { rows = []; events = [] }

abbrev one : CapsuleStore ℕ
one = record { rows = first ∷ []; events = checkpointed first ∷ [] }

abbrev two : CapsuleStore ℕ
two = record { rows = second ∷ first ∷ []; events = checkpointed second ∷ checkpointed first ∷ [] }

save_test : save_capsule eqb second one one one ≡ ok two
unfolding save_capsule save_once recorded_revision latest_row is_revision is_taken
save_test = refl

replay_test : save_capsule eqb first two two two ≡ ok two
unfolding save_capsule save_once recorded_revision is_revision is_replay
replay_test = refl

rewrite_test : save_capsule eqb (record second { payload = 21 }) two two two ≡ err already_exists
unfolding save_capsule save_once recorded_revision is_revision is_replay
rewrite_test = refl

-- The same checkpoint was committed by another writer after the read.
race_test : save_capsule eqb second one two two ≡ ok two
unfolding save_capsule save_once recorded_revision latest_row is_revision is_taken is_replay
race_test = refl

nothing-IsChain : IsChain nothing
nothing-IsChain = record {
  linked = λ row m. elim m [ ];
  unique = λ a b m. elim m [ ];
  logged = refl;
}

one-IsChain : IsChain one
unfolding is_taken
one-IsChain = insert-IsChain eqb first nothing nothing-IsChain refl (inl refl)

two-IsChain : IsChain two
unfolding is_taken is_revision
two-IsChain =
    insert-IsChain eqb second one one-IsChain refl (inr (first, Memᴰ.head refl, refl, refl, refl))

save_capsule-IsSaved_example : IsSaved eqb second two two
save_capsule-IsSaved_example =
    save_capsule-IsSaved eqb second one two two two two-IsChain two-IsChain (λ row m. Memᴰ.tail m)
      (λ row m. m) race_test

save_capsule_gapless_example : HasRevision two second 1
save_capsule_gapless_example =
    save_capsule_gapless eqb second one two two two two-IsChain two-IsChain (λ row m. Memᴰ.tail m)
      (λ row m. m) race_test second 1 (Memᴰ.head refl) (ground arith) (ground arith)
