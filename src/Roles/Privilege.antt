-- ===== src/Roles/Privilege.antt =====
-- Who gets which role.
use alluredeck.Prelude.{
  ◌≡◌, refl, ◌∙◌, ap, Bool, true, false, ◌&&◌, ◌||◌, List, [], ◌∷◌, arith, Text, codes, any,
  if◌then◌else◌, length, ◌==◌, Bool-cases, inl, inr,
}
use alluredeck.Roles.{OidcConfig, is_in, scan_groups, resolve_role}

-- A user in one of the groups.
abbrev pub is_member : List Text → List Text → Bool
is_member set groups = any (is_in set) groups

-- The role by the membership alone: administrators come before editors, and everyone else has the
-- default.
abbrev pub role_of : List Text → OidcConfig → Text
role_of groups cfg =
    if is_member cfg.admin_groups groups
    then codes "admin"
    else (if is_member cfg.editor_groups groups then codes "editor" else cfg.default_role)

scan_groups-is_member :
    (cfg : OidcConfig) (a e : Bool) (groups : List Text)
    → scan_groups cfg a e groups
      ≡ (a || is_member cfg.admin_groups groups, e || is_member cfg.editor_groups groups)
unfolding scan_groups
scan_groups-is_member cfg a e [] = ground arith
scan_groups-is_member cfg a e (g ∷ gs) =
    scan_groups-is_member cfg (if is_in cfg.admin_groups g then true else a)
      (if is_in cfg.editor_groups g then true else e) gs
    ∙ ground arith

none_in : (groups : List Text) → is_member [] groups ≡ false
none_in [] = refl
none_in (g ∷ gs) = none_in gs

empty_list : (set : List Text) → (length set == 0) ≡ true → set ≡ []
empty_list [] h = refl
empty_list (x ∷ xs) h = absurd (ground (arith, h))

-- The loop with its flags, and its early return, give the role that the membership alone decides:
-- admin exactly to the members of an admin group, editor to those of an editor group who are in no
-- admin group, and the default role to everyone else.
pub resolve_role_lem :
    (groups : List Text) (cfg : OidcConfig) → resolve_role groups cfg ≡ role_of groups cfg
unfolding resolve_role
resolve_role_lem groups cfg =
    elim (Bool-cases (length cfg.admin_groups == 0 && length cfg.editor_groups == 0)) [
      | inl unmapped ↦
          let no_admins =
            ap (λ (s : List Text). is_member s groups) (empty_list cfg.admin_groups (ground arith))
            ∙ none_in groups in
          let no_editors =
            ap (λ (s : List Text). is_member s groups) (empty_list cfg.editor_groups (ground arith))
            ∙ none_in groups in
          rw (unmapped, no_admins, no_editors) refl
      | inr mapped ↦ rw (mapped, scan_groups-is_member cfg false false groups) refl
    ]
