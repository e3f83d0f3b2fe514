-- ===== src/AuthzConfig/Laws.antt =====
-- What a policy that is accepted is like.
use csar_core.Prelude.{
  String, ◌≡◌, refl, sym, ◌∙◌, ◌≢◌, inl, inr, true, false, ◌||◌, List, [], ◌∷◌, map, arith, eq_iff,
  ltb, string_eq, ◌==◌, nat_eq, Bool-cases, length, any, List-cases, All, All-mono, fail_if, ◌>>◌,
  Result-cases, >>-ok, ok,
}
use csar_core.AuthzConfig.{
  Permission, Role, BootstrapAssignment, has_name, check_parents, check_permissions, check_role,
  check_roles, check_assignable, check_bootstrap, validate_roles, assignments_unsupported,
}

-- Each role has a new name, and its parents are itself or roles before it.
abbrev pub Layered : List String → List Role → Type 0
Layered names [] = Unit
Layered names (r ∷ rest) =
    (r.name ≢ "")
    × (has_name names r.name ≡ false)
    × All (λ p. has_name (r.name ∷ names) p ≡ true) r.parents
    × All (λ q. (q.resource ≢ "") × (q.action ≢ "")) r.permissions
    × Layered (r.name ∷ names) rest

check_parents-All :
    (names : List String) (role : String) (parents : List String)
    → check_parents names role parents ≡ ok tt
    → All (λ p. has_name names p ≡ true) parents
unfolding check_parents
check_parents-All names role [] h = tt
check_parents-All names role (p ∷ rest) h = elim (Bool-cases (has_name names p)) [
  | inr e ↦ absurd (ground arith)
  | inl e ↦ (e, check_parents-All names role rest (ground arith))
]

check_permissions-All :
    (permissions : List Permission)
    → check_permissions permissions ≡ ok tt
    → All (λ q. (q.resource ≢ "") × (q.action ≢ "")) permissions
unfolding check_permissions
check_permissions-All [] h = tt
check_permissions-All (p ∷ rest) h =
    let resource = eq_iff p.resource "" in
    let action = eq_iff p.action "" in
    elim (Bool-cases (p.resource == "")) [
      | inl e ↦ absurd (ground arith)
      | inr e ↦ elim (Bool-cases (p.action == "")) [
        | inl f ↦ absurd (ground arith)
        | inr f ↦ (
          (λ x. absurd (ground arith), λ x. absurd (ground arith)),
          check_permissions-All rest (ground arith),
        )
      ]
    ]

check_roles-Layered :
    (names : List String) (roles : List Role) (all_names : List String)
    → check_roles names roles ≡ ok all_names
    → Layered names roles
unfolding check_roles check_role
check_roles-Layered names [] all_names h = tt
check_roles-Layered names (r ∷ rest) all_names h =
    let named = eq_iff r.name "" in
    let (this, others) =
      (>>-ok (check_role names r) (check_roles (r.name ∷ names) rest) all_names).0 h in
    elim (Bool-cases (r.name == "")) [
      | inl e ↦ absurd (ground arith)
      | inr e ↦ elim (Bool-cases (has_name names r.name)) [
        | inl f ↦ absurd (ground arith)
        | inr f ↦
            let same : check_role names r ≡ (
                check_parents (r.name ∷ names) r.name r.parents
                >> check_permissions r.permissions) =
              ground arith in
            let (parents, permissions) =
              (>>-ok (check_parents (r.name ∷ names) r.name r.parents)
                  (check_permissions r.permissions) tt).0
                (sym same ∙ this) in
            (
              λ x. absurd (ground arith),
              f,
              check_parents-All (r.name ∷ names) r.name r.parents parents,
              check_permissions-All r.permissions permissions,
              check_roles-Layered (r.name ∷ names) rest all_names others,
            )
      ]
    ]

-- The names at the end are those at the start and those of the roles.
check_roles-names :
    (names : List String) (roles : List Role) (all_names : List String) (n : String)
    → check_roles names roles ≡ ok all_names
    → has_name all_names n ≡ (has_name names n || any (λ r. r.name == n) roles)
unfolding check_roles any
check_roles-names names [] all_names n h = ground arith
check_roles-names names (r ∷ rest) all_names n h =
    let (_, others) =
      (>>-ok (check_role names r) (check_roles (r.name ∷ names) rest) all_names).0 h in
    ground (arith, check_roles-names (r.name ∷ names) rest all_names n others)

check_assignable-All :
    (names assignable : List String)
    → check_assignable names assignable ≡ ok tt
    → All (λ role. has_name names role ≡ true) assignable
unfolding check_assignable
check_assignable-All names [] h = tt
check_assignable-All names (role ∷ rest) h = elim (Bool-cases (has_name names role)) [
  | inr e ↦ absurd (ground arith)
  | inl e ↦ (e, check_assignable-All names rest (ground arith))
]

check_bootstrap-All :
    (names : List String) (bootstrap : List BootstrapAssignment)
    → check_bootstrap names bootstrap ≡ ok tt
    → All (λ a. has_name names a.role ≡ true) bootstrap
unfolding check_bootstrap
check_bootstrap-All names [] h = tt
check_bootstrap-All names (a ∷ rest) h = elim (Bool-cases (has_name names a.role)) [
  | inr e ↦ absurd (ground arith)
  | inl e ↦ (e, check_bootstrap-All names rest (ground arith))
]

abbrev pub Defined : List Role → String → Type 0
Defined roles name = any (λ r. r.name == name) roles ≡ true

-- In a policy that is accepted each role has a new name, that is not empty, and complete
-- permissions, its parents are itself or roles before it, there are no assignments, and the roles
-- that services may assign and those of the bootstrap assignments are defined.
pub validate_roles-Layered :
    {A : Type 0} (roles : List Role) (assignments : List A) (assignable : List String)
    (bootstrap : List BootstrapAssignment)
    → validate_roles roles assignments assignable bootstrap ≡ ok tt
    → Layered [] roles
      × (assignments ≡ [])
      × All (Defined roles) assignable
      × All (λ a. Defined roles a.role) bootstrap
unfolding validate_roles any
validate_roles-Layered roles assignments assignable bootstrap h =
    elim (Result-cases (check_roles [] roles)) [
      | inr (e, bad) ↦ absurd (ground arith)
      | inl (names, good) ↦
          let later = check_assignable names assignable >> check_bootstrap names bootstrap in
          let (none_left, rest) =
            (>>-ok (fail_if (ltb 0 (length assignments)) assignments_unsupported) later tt).0
              (ground arith) in
          let (first, last) =
            (>>-ok (check_assignable names assignable) (check_bootstrap names bootstrap) tt).0
              rest in
          let defined : (n : String) → has_name names n ≡ true → Defined roles n =
            λ n e. sym (check_roles-names [] roles names n good) ∙ e in
          (
            check_roles-Layered [] roles names good,
            elim (List-cases assignments) [
              | inl empty ↦ empty
              | inr (x, xs, e) ↦ absurd (ground arith)
            ],
            All-mono (λ role. has_name names role ≡ true) (Defined roles) assignable defined
                (check_assignable-All names assignable first),
            All-mono (λ (a : BootstrapAssignment). has_name names a.role ≡ true)
                (λ a. Defined roles a.role) bootstrap (λ a e. defined a.role e)
                (check_bootstrap-All names bootstrap last),
          )
    ]

-- The role with its own name before its parents.
abbrev pub own_parent : Role → Role
own_parent r = record r { parents = r.name ∷ r.parents }

check_role-own_parent :
    (names : List String) (r : Role) → check_role names (own_parent r) ≡ check_role names r
unfolding check_role check_parents any
check_role-own_parent names r =
    let own : check_parents (r.name ∷ names) r.name (r.name ∷ r.parents)
        ≡ check_parents (r.name ∷ names) r.name r.parents =
      ground (arith, eq_iff r.name r.name) in
    ground (arith, own)

check_roles-own_parent :
    (names : List String) (roles : List Role)
    → check_roles names (map own_parent roles) ≡ check_roles names roles
unfolding check_roles
check_roles-own_parent names [] = refl
check_roles-own_parent names (r ∷ rest) =
    rw (check_role-own_parent names r, check_roles-own_parent (r.name ∷ names) rest) refl

-- The validation does not see that a role is its own parent: when every role of a policy names
-- itself as a further parent, the policy is accepted or refused as before, with the same error,
-- although a parent must appear earlier in the list.
pub validate_roles-own_parent :
    {A : Type 0} (roles : List Role) (assignments : List A) (assignable : List String)
    (bootstrap : List BootstrapAssignment)
    → validate_roles (map own_parent roles) assignments assignable bootstrap
      ≡ validate_roles roles assignments assignable bootstrap
unfolding validate_roles
validate_roles-own_parent roles assignments assignable bootstrap =
    rw (check_roles-own_parent [] roles) refl
