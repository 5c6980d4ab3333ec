-- ===== src/Roles/Examples.antt =====
-- A user in two groups.
use alluredeck.Prelude.{◌≡◌, [], ◌∷◌, codes}
use alluredeck.Roles.{OidcConfig, resolve_role}
use alluredeck.Roles.Privilege.{role_of, resolve_role_lem}

abbrev staff : OidcConfig
staff = record {
  admin_groups = codes "ops" ∷ [];
  editor_groups = codes "qa" ∷ [];
  default_role = codes "viewer";
}

resolve_role_lem_example :
    resolve_role (codes "qa" ∷ codes "ops" ∷ []) staff
    ≡ role_of (codes "qa" ∷ codes "ops" ∷ []) staff
resolve_role_lem_example = resolve_role_lem (codes "qa" ∷ codes "ops" ∷ []) staff
