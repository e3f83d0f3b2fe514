-- ===== src/AuthzConfig.antt =====
-- authzconfig/config.go: the roles of the policy and the places that name roles.
pub mod Laws
mod Tests
use csar_core.Prelude.{
  String, Bool, not, List, [], ◌∷◌, ltb, if◌then◌else◌, string_eq, ◌==◌, nat_eq, length, any,
  Result, ◌>>=◌, fail_if, ◌>>◌, ok, err,
}

pub record Permission : Type 0 where
  pub resource : String
  pub action : String

pub record Role : Type 0 where
  pub name : String
  pub parents : List String
  pub permissions : List Permission

pub record BootstrapAssignment : Type 0 where
  pub subject : String
  pub role : String
  pub scope_type : String
  pub scope_id : String

pub data RoleError : Type 0 where
  name_required : RoleError
  duplicate_name : String → RoleError
  parent_undefined : String → String → RoleError
  resource_required action_required : RoleError
  assignments_unsupported assignable_empty : RoleError
  assignable_undefined : String → RoleError
  subject_required role_required scope_type_required : RoleError
  role_undefined : String → RoleError

-- The set of the names of roles that were met, as a list.
abbrev pub has_name : List String → String → Bool
has_name names name = any (λ n. n == name) names

unfoldable pub check_parents : List String → String → List String → Result RoleError (Unit {0})
check_parents names role [] = ok tt
check_parents names role (p ∷ rest) =
    let others = check_parents names role rest in
    if not (has_name names p) then err (parent_undefined role p) else others

unfoldable pub check_permissions : List Permission → Result RoleError (Unit {0})
check_permissions [] = ok tt
check_permissions (p ∷ rest) =
    let others = check_permissions rest in
    if p.resource == ""
    then err resource_required
    else if p.action == ""
    then err action_required
    else others

-- One round of the loop over the roles: the name is added before the parents are looked up.
unfoldable pub check_role : List String → Role → Result RoleError (Unit {0})
check_role names r =
    if r.name == ""
    then err name_required
    else if has_name names r.name
    then err (duplicate_name r.name)
    else (check_parents (r.name ∷ names) r.name r.parents >> check_permissions r.permissions)

-- The loop, with the names at its end.
unfoldable pub check_roles : List String → List Role → Result RoleError (List String)
check_roles names [] = ok names
check_roles names (r ∷ rest) = check_role names r >> check_roles (r.name ∷ names) rest

unfoldable pub check_assignable : List String → List String → Result RoleError (Unit {0})
check_assignable names [] = ok tt
check_assignable names (role ∷ rest) =
    let others = check_assignable names rest in
    if role == ""
    then err assignable_empty
    else if not (has_name names role)
    then err (assignable_undefined role)
    else others

unfoldable pub check_bootstrap :
    List String → List BootstrapAssignment → Result RoleError (Unit {0})
check_bootstrap names [] = ok tt
check_bootstrap names (a ∷ rest) =
    let others = check_bootstrap names rest in
    if a.subject == ""
    then err subject_required
    else if a.role == ""
    then err role_required
    else if not (has_name names a.role)
    then err (role_undefined a.role)
    else if a.scope_type == ""
    then err scope_type_required
    else others

-- The part of `validate` that is about roles; `assignments` are those of the policy, which are no
-- longer supported.
unfoldable pub validate_roles :
    {A : Type 0}
    → List Role
    → List A
    → List String
    → List BootstrapAssignment
    → Result RoleError (Unit {0})
validate_roles roles assignments assignable bootstrap = check_roles [] roles >>= λ names.
    fail_if (ltb 0 (length assignments)) assignments_unsupported
    >> (check_assignable names assignable >> check_bootstrap names bootstrap)
