-- ===== src/AuthzConfig/Tests.antt =====
-- The theorems on roles at a concrete policy.
use csar_core.Prelude.{String, ◌≡◌, refl, List, [], ◌∷◌, map, any, All, ok}
use csar_core.AuthzConfig.{
  Role, BootstrapAssignment, check_parents, check_permissions, check_role, check_roles,
  check_assignable, check_bootstrap, validate_roles,
}
use csar_core.AuthzConfig.Laws.{
  Layered, Defined, validate_roles-Layered, own_parent, validate_roles-own_parent,
}
use csar_core.AuthzConfig.Laws

abbrev roles : List Role
roles =
    record { name = "reader"; parents = []; permissions = [] }
    ∷ record {
      name = "admin";
      parents = "reader" ∷ [];
      permissions = record { resource = "user"; action = "write" } ∷ [];
    }
    ∷ []

roles_valid : validate_roles {A = String} roles [] ("reader" ∷ []) [] ≡ ok tt
unfolding validate_roles check_roles check_role check_parents check_permissions check_assignable
    check_bootstrap any
roles_valid = refl

validate_roles-Layered_example :
    Layered [] roles
    × (◌≡◌ {A = List String} [] [])
    × All (Defined roles) ("reader" ∷ [])
    × All (λ (a : BootstrapAssignment). Defined roles a.role) []
validate_roles-Layered_example = Laws.validate_roles-Layered roles [] ("reader" ∷ []) [] roles_valid

validate_roles-own_parent_example :
    validate_roles {A = String} (map Laws.own_parent roles) [] ("reader" ∷ []) []
    ≡ validate_roles {A = String} roles [] ("reader" ∷ []) []
validate_roles-own_parent_example = Laws.validate_roles-own_parent roles [] ("reader" ∷ []) []
