-- ===== src/Capability/Names/Patterns.antt =====
-- The validator of repository names of src/forge_controller/capabilities.py, and the language of its
-- pattern.
use hermes_dev_team_vm.Prelude.{
  ℕ, ◌≡◌, ◌↔◌, inl, inr, refl, ap, String, Bool, true, false, not, ◌||◌, [], ◌∷◌, ◌++◌, eqb,
  is_empty, all, Text, codes, arith, and-true_iff, Bool-cases,
}
use hermes_dev_team_vm.Capability.Names.{is_name_char, is_name, owner_slash_name, is_repository}

-- The text is an owner, a slash and a name, both nonempty and of name characters.
pub record IsOwnerSlashName (s : Text) : Type 0 where
  pub owner : Text
  pub name : Text
  pub split : s ≡ owner ++ b'/' ∷ name
  pub owner_valid : is_name owner ≡ true
  pub name_valid : is_name name ≡ true

record IsRest (seen : Bool) (s : Text) : Type 0 where
  owner : Text
  name : Text
  split : s ≡ owner ++ b'/' ∷ name
  owner_chars : all is_name_char owner ≡ true
  owner_seen : (seen || not (is_empty owner)) ≡ true
  name_valid : is_name name ≡ true

owner_slash_name-IsRest : (seen : Bool) (s : Text) → owner_slash_name seen s ≡ true → IsRest seen s
unfolding owner_slash_name
owner_slash_name-IsRest seen [] h = cc
owner_slash_name-IsRest seen (c ∷ s) h = elim (Bool-cases (eqb c b'/')) [
  | inl slash ↦
      let p = (and-true_iff seen (is_name s)).0 (rw slash at h) in
      record {
        owner = [];
        name = s;
        split = ground arith;
        owner_chars = refl;
        owner_seen = ground arith;
        name_valid = p.1;
      }
  | inr other ↦
      let p = (and-true_iff (is_name_char c) (owner_slash_name true s)).0 (rw other at h) in
      let r = owner_slash_name-IsRest true s p.1 in
      record {
        owner = c ∷ r.owner;
        name = r.name;
        split = ap (λ t. c ∷ t) r.split;
        owner_chars = (and-true_iff _ _).1 (p.0, r.owner_chars);
        owner_seen = ground arith;
        name_valid = r.name_valid;
      }
]

name_char-ne-slash : (c : ℕ) → is_name_char c ≡ true → eqb c b'/' ≡ false
unfolding is_name_char
name_char-ne-slash c h = ground arith

IsRest-owner_slash_name :
    (owner name : Text) (seen : Bool)
    → all is_name_char owner ≡ true
    → (seen || not (is_empty owner)) ≡ true
    → is_name name ≡ true
    → owner_slash_name seen (owner ++ b'/' ∷ name) ≡ true
unfolding owner_slash_name
IsRest-owner_slash_name [] name seen chars some_seen valid = ground arith
IsRest-owner_slash_name (c ∷ owner) name seen chars some_seen valid =
    let p = (and-true_iff (is_name_char c) (all is_name_char owner)).0 chars in
    ground (arith, name_char-ne-slash c p.0, IsRest-owner_slash_name owner name true p.1 refl valid)

-- A resource passes the repository pattern exactly if it is an owner and a name, both not empty
-- and of the allowed characters, with one slash between.
pub is_repository_iff :
    (value : String) → (is_repository value ≡ true) ↔ IsOwnerSlashName (codes value)
unfolding is_repository is_name
is_repository_iff value = (
  λ h.
      let r = owner_slash_name-IsRest false (codes value) h in
      record {
        owner = r.owner;
        name = r.name;
        split = r.split;
        owner_valid = (and-true_iff _ _).1 (r.owner_seen, r.owner_chars);
        name_valid = r.name_valid;
      },
  λ r.
      let p = (and-true_iff _ _).0 r.owner_valid in
      rw r.split (IsRest-owner_slash_name r.owner r.name false p.1 p.0 r.name_valid),
)
