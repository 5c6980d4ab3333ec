-- ===== src/Roles.antt =====
-- The role of an OIDC user, ResolveRole of api/internal/security/role_mapping.go. A set of groups is
-- the list it is made from.
pub mod Privilege
mod Examples
use alluredeck.Prelude.{
  ℕ, Bool, true, false, ◌&&◌, ◌||◌, List, [], ◌∷◌, Text, text_eq, codes, any, if◌then◌else◌, length,
  ◌==◌,
}

-- The columns of config.OIDCConfig that decide the role.
pub record OidcConfig : Type 0 where
  pub admin_groups : List Text
  pub editor_groups : List Text
  pub default_role : Text

abbrev pub is_in : List Text → Text → Bool
is_in set g = any (λ (x : Text). text_eq x g) set

-- The loop with its two flags.
unfoldable pub scan_groups : OidcConfig → Bool → Bool → List Text → Bool × Bool
scan_groups cfg is_admin is_editor [] = (is_admin, is_editor)
scan_groups cfg is_admin is_editor (g ∷ gs) =
    scan_groups cfg (if is_in cfg.admin_groups g then true else is_admin)
      (if is_in cfg.editor_groups g then true else is_editor) gs

unfoldable pub resolve_role : List Text → OidcConfig → Text
resolve_role groups cfg =
    let (is_admin, is_editor) = scan_groups cfg false false groups in
    if length cfg.admin_groups == 0 && length cfg.editor_groups == 0
    then cfg.default_role
    else (if is_admin
        then codes "admin"
        else (if is_editor then codes "editor" else cfg.default_role))
