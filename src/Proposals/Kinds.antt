-- ===== src/Proposals/Kinds.antt =====
-- The three kinds of proposal keep their laws.
use alluredeck.Prelude.{◌≡◌, refl, subst, some, none, Bool, true, false, if◌then◌else◌, arith}
use alluredeck.Proposals.{Db}
use alluredeck.Proposals.Handlers.{defect_kind, issue_kind, flaky_kind}
use alluredeck.Proposals.Effects.{IsKept, IsKind}

-- A change whose result keeps something does so.
pub kept_by : (P : Db → Type 0) (new after : Db) → some new ≡ some after → P new → P after
kept_by P new after h p = let e : new ≡ after = ground (arith, h) in subst P e p

pub kept_if :
    (P : Db → Type 0) (b : Bool) (new after : Db)
    → (if b then some new else none) ≡ some after
    → P new
    → P after
kept_if P true new after h p = kept_by P new after h p
kept_if P false new after h p = absurd (cc)

pub defect_kind-IsKind : IsKind defect_kind
defect_kind-IsKind = record {
  put-IsKept = λ t db. record { users = refl; audit_log = refl };
  table-audited = λ r db. refl;
  table-put = λ t db. refl;
  apply-IsKept =
      λ now p db after h. kept_by (IsKept db) _ after h (record { users = refl; audit_log = refl });
  table-apply =
      λ now p db after h. kept_by (λ d. d.defect_proposals ≡ db.defect_proposals) _ after h refl;
}

pub issue_kind-IsKind : IsKind issue_kind
issue_kind-IsKind = record {
  put-IsKept = λ t db. record { users = refl; audit_log = refl };
  table-audited = λ r db. refl;
  table-put = λ t db. refl;
  apply-IsKept = λ now p db after h.
      kept_if (IsKept db) _ _ after h (record { users = refl; audit_log = refl });
  table-apply = λ now p db after h.
      kept_if (λ d. d.known_issue_proposals ≡ db.known_issue_proposals) _ _ after h refl;
}

pub flaky_kind-IsKind : IsKind flaky_kind
flaky_kind-IsKind = record {
  put-IsKept = λ t db. record { users = refl; audit_log = refl };
  table-audited = λ r db. refl;
  table-put = λ t db. refl;
  apply-IsKept =
      λ now p db after h. kept_by (IsKept db) _ after h (record { users = refl; audit_log = refl });
  table-apply =
      λ now p db after h. kept_by (λ d. d.flaky_proposals ≡ db.flaky_proposals) _ after h refl;
}
