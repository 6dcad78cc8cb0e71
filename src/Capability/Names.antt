-- ===== src/Capability/Names.antt =====
-- src/forge_controller/capabilities.py: the patterns `_REPOSITORY` and `_BRANCH`, `_validate_branch`.
pub mod Patterns
use hermes_dev_team_vm.Prelude.{
  ℕ, zero, suc, ◌+◌, ◌≤◌, ◌≡◌, refl, String, Bool, true, false, not, ◌&&◌, ◌||◌, List, [], ◌∷◌,
  ◌++◌, leb, eqb, ltb, if◌then◌else◌, is_empty, all, length, Text, text_eq, codes, is_alnum, arith,
}

-- [A-Za-z0-9_.-]
unfoldable pub is_name_char : ℕ → Bool
is_name_char c = is_alnum c || eqb c b'_' || eqb c b'.' || eqb c b'-'

-- [A-Za-z0-9._/-]
unfoldable pub is_branch_char : ℕ → Bool
unfolding is_name_char
is_branch_char c = is_name_char c || eqb c b'/'

-- The part of `_REPOSITORY` behind the slash: one or more name characters to the end.
unfoldable pub is_name : Text → Bool
unfolding is_name_char
is_name s = not (is_empty s) && all is_name_char s

-- `^[A-Za-z0-9_.-]+/[A-Za-z0-9_.-]+$`. No name character is a slash, so the first slash is the one
-- of the pattern; `seen` says that a character stands before it.
unfoldable pub owner_slash_name : Bool → Text → Bool
unfolding is_name is_name_char
owner_slash_name seen [] = false
owner_slash_name seen (c ∷ s) =
    let rest = owner_slash_name true s in
    if eqb c b'/' then seen && is_name s else is_name_char c && rest

unfoldable pub is_repository : String → Bool
unfolding owner_slash_name
is_repository value = owner_slash_name false (codes value)

-- [a, b] in s
unfoldable pub has_pair : ℕ → ℕ → Text → Bool
has_pair a b [] = false
has_pair a b (c ∷ []) = false
has_pair a b (c ∷ d ∷ s) = (eqb c a && eqb d b) || has_pair a b (d ∷ s)

-- s.endswith(suffix)
unfoldable pub ends_with : Text → Text → Bool
ends_with suffix [] = is_empty suffix
ends_with suffix (c ∷ s) = text_eq suffix (c ∷ s) || ends_with suffix s

unfoldable pub starts_with_char : (ℕ → Bool) → Text → Bool
starts_with_char p [] = false
starts_with_char p (c ∷ s) = p c

-- `^[A-Za-z0-9][A-Za-z0-9._/-]{0,254}$`
unfoldable pub is_branch_pattern : Text → Bool
unfolding starts_with_char is_branch_char
is_branch_pattern s = starts_with_char is_alnum s && (all is_branch_char s && leb (length s) 255)

-- `_validate_branch` raises nothing
unfoldable pub is_branch : String → Bool
unfolding is_branch_pattern has_pair ends_with starts_with_char
is_branch value =
    let s = codes value in
    is_branch_pattern s
    && (not (has_pair b'.' b'.' s)
        && (not (has_pair b'/' b'/' s)
            && (not (has_pair b'@' b'{' s)
                && (not (ends_with (codes ".lock") s || ends_with (codes "/") s)
                    && not (starts_with_char (λ c. eqb c b'-') s)))))
