-- ===== src/ClusterVersions/Queries.antt =====
-- internal/servers/private_cluster_versions_server.go: the filters by which requests look for other
-- versions.
use osac_fulfillment_service.Prelude.{
  ℕ, zero, suc, Bool, false, not, ◌||◌, String, List, [], ◌∷◌, eqb, if◌then◌else◌,
}
use osac_fulfillment_service.Prelude.Compare.{◌==◌, string_comparable}
use osac_fulfillment_service.Dao.{Row}
use osac_fulfillment_service.Dao.Filter.{Expr, operand, call, logical_and, logical_not}
use osac_fulfillment_service.Dao.Listing.{Conditions}
use osac_fulfillment_service.ClusterVersions.{ClusterVersion, spec_or_empty, flag, version_names}

-- The filters, with each comparison as one condition. The last one is left out for an empty
-- identifier.
abbrev pub default_filter : String → Expr
default_filter exclude =
    let filter = call logical_and (operand 0) (logical_not (operand 1)) in
    if exclude == "" then filter else call logical_and filter (operand 2)

abbrev pub default_condition : String → ℕ → Row ClusterVersion → Bool
default_condition exclude zero row = flag (spec_or_empty row.document.spec).is_default
default_condition exclude (suc zero) row = not (eqb row.deletion_timestamp 0)
default_condition exclude _ row = not (row.id == exclude)

abbrev pub has_name : List String → String → Bool
has_name [] name = false
has_name (n ∷ names) name = n == name || has_name names name

abbrev pub name_condition : List String → ℕ → Row ClusterVersion → Bool
name_condition names zero row = has_name names row.name
name_condition names _ row = not (eqb row.deletion_timestamp 0)

abbrev pub upgrade_condition : String → ℕ → Row ClusterVersion → Bool
upgrade_condition name zero row = has_name (version_names (spec_or_empty row.document.spec)) name
upgrade_condition name _ row = not (eqb row.deletion_timestamp 0)

abbrev pub name_filter : Expr
name_filter = call logical_and (operand 0) (logical_not (operand 1))

abbrev pub conditions : (ℕ → Row ClusterVersion → Bool) → Conditions ClusterVersion
conditions holds = record { holds = holds; other = λ op a b. false }
