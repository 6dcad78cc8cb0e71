-- ===== src/Secrets/Registry.antt =====
-- The binding that src/forge_controller/secret_broker.py resolves a capability to.
use hermes_dev_team_vm.Prelude.{
  ℕ, ◌≡◌, ◌↔◌, refl, sym, ◌∙◌, String, true, false, ◌&&◌, Option, none, some, List, [], ◌∷◌, any,
  keep, member, is_empty, is_blank, option_eq, ◌==◌, eq_iff, ok, checks, checks_iff, >>-eq-ok,
  >>=-eq-ok, ok_unique, Memᴰ, Bool-cases, inl, inr, arith, not-false_iff, or-false_iff, subst,
}
use hermes_dev_team_vm.Capability.{AuthorizedCapability}
use hermes_dev_team_vm.Secrets.{
  CredentialBinding, no_binding, FileInfo, same_identity, has_duplicate, read_registry, is_match,
  only_one, binding_faults, resolve, file_faults, duplicate_binding,
}

-- The binding serves the capability.
pub record IsServed (capability : AuthorizedCapability) (bindings : List CredentialBinding)
    (binding : CredentialBinding) : Type 0 where
  pub named : is_blank capability.credential_binding ≡ false
  pub listed : Memᴰ binding bindings
  pub matches : is_match capability binding ≡ true
  pub operation : member capability.operation binding.operations ≡ true
  pub resource :
      is_empty binding.resources ≡ false → member capability.resource binding.resources ≡ true

read_registry-distinct :
    (required_owner : ℕ) (info : Option FileInfo) (parsed : Option (List CredentialBinding))
    (bindings : List CredentialBinding)
    → read_registry required_owner info parsed ≡ ok bindings
    → has_duplicate bindings ≡ false
unfolding read_registry
read_registry-distinct required_owner none parsed bindings h = cc
read_registry-distinct required_owner (some file) none bindings h =
    let (_, k) = >>-eq-ok (checks (file_faults required_owner file)) _ h in cc
read_registry-distinct required_owner (some file) (some found) bindings h =
    let (_, k) = >>-eq-ok (checks (file_faults required_owner file)) _ h in
    let row = (has_duplicate found, duplicate_binding) ∷ [] in
    let (pass, e) = >>-eq-ok (checks row) _ k in
    let same : found ≡ bindings = ok_unique refl e in rw (← same) ((checks_iff row).0 pass).0

module _ (capability : AuthorizedCapability) where
  match_identity :
      (a b : CredentialBinding)
      → is_match capability a ≡ true
      → is_match capability b ≡ true
      → same_identity a b ≡ true
  unfolding is_match same_identity
  match_identity a b p q = by_binding capability.credential_binding refl p q
    where
      by_binding :
          (o : Option String)
          → capability.credential_binding ≡ o
          → (option_eq (some a.binding_id) o && a.service == capability.service) ≡ true
          → (option_eq (some b.binding_id) o && b.service == capability.service) ≡ true
          → (a.binding_id == b.binding_id && a.service == b.service) ≡ true
      by_binding none e p q = cc
      by_binding (some id) e p q =
          let i = (eq_iff a.binding_id id).0 (ground arith) in
          let j = (eq_iff b.binding_id id).0 (ground arith) in
          let s = (eq_iff a.service capability.service).0 (ground arith) in
          let t = (eq_iff b.service capability.service).0 (ground arith) in
          let id_same = (eq_iff a.binding_id b.binding_id).1 (i ∙ sym j) in
          let service_same = (eq_iff a.service b.service).1 (s ∙ sym t) in ground arith

  keep_empty :
      (a : CredentialBinding) (bindings : List CredentialBinding)
      → is_match capability a ≡ true
      → any (same_identity a) bindings ≡ false
      → keep (is_match capability) bindings ≡ []
  keep_empty a [] p h = refl
  keep_empty a (b ∷ bindings) p h =
      let q = (or-false_iff (same_identity a b) (any (same_identity a) bindings)).0 h in
      elim (Bool-cases (is_match capability b)) [
        | inl hit ↦ let s = match_identity a b p hit in let d = q.0 in cc
        | inr miss ↦ rw (miss, keep_empty a bindings p q.1)
      ]

  distinct_member :
      (a b : CredentialBinding) (bindings : List CredentialBinding)
      → any (same_identity a) bindings ≡ false
      → Memᴰ b bindings
      → same_identity a b ≡ false
  distinct_member a b [] h m = elim m [ ]
  distinct_member a b (c ∷ bindings) h (Memᴰ.head e) = rw e ((or-false_iff _ _).0 h).0
  distinct_member a b (c ∷ bindings) h (Memᴰ.tail m) =
      distinct_member a b bindings ((or-false_iff _ _).0 h).1 m

  keep_single :
      (b : CredentialBinding) (bindings : List CredentialBinding)
      → has_duplicate bindings ≡ false
      → Memᴰ b bindings
      → is_match capability b ≡ true
      → keep (is_match capability) bindings ≡ b ∷ []
  unfolding has_duplicate
  keep_single b [] h m p = elim m [ ]
  keep_single b (c ∷ bindings) h (Memᴰ.head e) p =
      let q = (or-false_iff _ _).0 h in rw (← e, p, keep_empty b bindings p (rw e q.0))
  keep_single b (c ∷ bindings) h (Memᴰ.tail m) p =
      let q = (or-false_iff _ _).0 h in
      elim (Bool-cases (is_match capability c)) [
        | inl hit ↦
            let s = match_identity c b hit p in let d = distinct_member c b bindings q.0 m in cc
        | inr miss ↦ rw (miss, keep_single b bindings q.1 m p)
      ]

  keep_listed :
      (b : CredentialBinding) (bindings : List CredentialBinding)
      → Memᴰ b (keep (is_match capability) bindings)
      → Memᴰ b bindings × (is_match capability b ≡ true)
  keep_listed b [] m = elim m [ ]
  keep_listed b (c ∷ bindings) m = elim (Bool-cases (is_match capability c)) [
    | inr miss ↦ let q = keep_listed b bindings (rw miss at m) in (Memᴰ.tail q.0, q.1)
    | inl hit ↦ by_place hit (λ k. keep_listed b bindings k) (rw hit at m)
  ]
    where
      by_place :
          is_match capability c ≡ true
          → (Memᴰ b (keep (is_match capability) bindings)
              → Memᴰ b bindings × (is_match capability b ≡ true))
          → Memᴰ b (c ∷ keep (is_match capability) bindings)
          → Memᴰ b (c ∷ bindings) × (is_match capability b ≡ true)
      by_place hit rest (Memᴰ.head e) = (Memᴰ.head e, rw e hit)
      by_place hit rest (Memᴰ.tail k) = let q = rest k in (Memᴰ.tail q.0, q.1)

  only_one-eq :
      (found : List CredentialBinding) (b : CredentialBinding)
      → only_one found ≡ ok b
      → Memᴰ b found
  only_one-eq [] b h = cc
  only_one-eq (c ∷ []) b h = Memᴰ.head (sym (ok_unique refl h))
  only_one-eq (c ∷ d ∷ rest) b h = cc

  -- On a registry that `_read` has accepted, `resolve` returns a binding exactly if it is
  -- registered for the binding and the service of the capability, permits its operation, and
  -- names its resource unless it names none.
  pub resolve_iff :
      (required_owner : ℕ) (info : Option FileInfo) (parsed : Option (List CredentialBinding))
      (bindings : List CredentialBinding) (binding : CredentialBinding)
      → read_registry required_owner info parsed ≡ ok bindings
      → (resolve capability bindings ≡ ok binding) ↔ IsServed capability bindings binding
  unfolding resolve
  resolve_iff required_owner info parsed bindings binding registry = (
    λ h.
        let (p, h₁) =
          >>-eq-ok (checks ((is_blank capability.credential_binding, no_binding) ∷ [])) _ h in
        let (b, one, h₂) = >>=-eq-ok (only_one (keep (is_match capability) bindings)) _ h₁ in
        let (pass, h₃) = >>-eq-ok (checks (binding_faults capability b)) _ h₂ in
        let same : b ≡ binding = ok_unique refl h₃ in
        let q = keep_listed b bindings (only_one-eq (keep (is_match capability) bindings) b one) in
        let r = (checks_iff (binding_faults capability b)).0 pass in
        subst (IsServed capability bindings) same (record {
          named = ((checks_iff ((is_blank capability.credential_binding, no_binding) ∷ [])).0 p).0;
          listed = q.0;
          matches = q.1;
          operation = (not-false_iff _).0 r.0;
          resource = λ e. ground arith;
        }),
    λ s.
        rw
          (
            s.named,
            keep_single binding bindings
                (read_registry-distinct required_owner info parsed bindings registry) s.listed
                s.matches,
            (checks_iff (binding_faults capability binding)).1
                ((not-false_iff _).1 s.operation, (ground (arith, s.resource), tt)),
          )
          refl,
  )
