-- ===== src/PublicIps/Requests.antt =====
-- internal/servers/private_public_ips_server.go and field_mask.go: the requests.
use Prim.Native.String.{◌++◌, len, slice}
use osac_fulfillment_service.Prelude.{
  ℕ, zero, suc, Bool, true, false, not, ◌||◌, ◌&&◌, String, List, [], ◌∷◌, Option, none, some, eqb,
  leb, if◌then◌else◌,
}
use osac_fulfillment_service.Prelude.Compare.{Comparable, ◌==◌, string_comparable}
use osac_fulfillment_service.Prelude.Int.{ℤ, pos, negsuc}
use osac_fulfillment_service.Errors.{
  Error, status, invalid_argument, failed_precondition, internal, Result, ok, err, ◌>>=◌, ◌>>◌,
  refuse,
}
use osac_fulfillment_service.Dao.{Object, Row}
use osac_fulfillment_service.Dao.Requests.{translated}
use osac_fulfillment_service.Dao.Filter.{logical_and, Expr, operand, call}
use osac_fulfillment_service.Dao.Listing.{Conditions, list}
use osac_fulfillment_service.Servers.Generic.{UpdateRequest}
use osac_fulfillment_service.Servers.Generic as Generic
use osac_fulfillment_service.PublicIps.{
  PublicIp, PublicIpSpec, PublicIpState, ip_unspecified, ip_pending, ip_allocated, ip_failed,
  ip_deleting, ip_state_number, IpFamily, family_unspecified, ipv4, ipv6, family_number, Pool,
  Tables, Service, spec_of, status_of, pool_status_of, pool_family_of, is_positive,
  valid_transition,
}
use osac_fulfillment_service.PublicIps.Pools.{
  is_ready, validate_pool_reference, update_pool_capacity,
}

abbrev has_prefix : String → String → Bool
has_prefix s t = leb (len t) (len s) && slice s 0 (len t) == t

abbrev pub field_in_path : String → String → Bool
field_in_path path field =
    path == field || has_prefix path (field ++ ".") || has_prefix field (path ++ ".")

unfoldable pub field_in_paths : List String → String → Bool
field_in_paths [] field = false
field_in_paths (path ∷ paths) field = field_in_path path field || field_in_paths paths field

-- `updateIncludesField`, for one field.
unfoldable pub update_includes_field : Option (List String) → String → Bool
unfolding field_in_paths
update_includes_field none field = true
update_includes_field (some []) field = true
update_includes_field (some (path ∷ paths)) field = field_in_paths (path ∷ paths) field

abbrev pub same_state : PublicIpState → PublicIpState → Bool
same_state ip_unspecified ip_unspecified = true
same_state ip_pending ip_pending = true
same_state ip_allocated ip_allocated = true
same_state ip_failed ip_failed = true
same_state ip_deleting ip_deleting = true
same_state (ip_state_number m) (ip_state_number n) = eqb m n
same_state _ _ = false

abbrev pub same_family : IpFamily → IpFamily → Bool
same_family family_unspecified family_unspecified = true
same_family ipv4 ipv4 = true
same_family ipv6 ipv6 = true
same_family (family_number m) (family_number n) = eqb m n
same_family _ _ = false

abbrev is_known_family : IpFamily → Bool
is_known_family (family_number n) = false
is_known_family _ = true

unfoldable pub validate_public_ip : Option (Object PublicIp) → Result (Object PublicIp)
validate_public_ip none = err (status invalid_argument)
validate_public_ip (some ip) = elim ip.payload.spec [
  | none ↦ err (status invalid_argument)
  | some spec ↦ (do
    refuse (not (is_known_family spec.ip_family)) (status invalid_argument)
    refuse (not (spec.pool == "") && not (same_family spec.ip_family family_unspecified))
        (status invalid_argument)
    ok ip)
]

abbrev set_spec : PublicIpSpec → Object PublicIp → Object PublicIp
set_spec spec ip = record ip { payload = record ip.payload { spec = some spec } }

abbrev pub set_state : PublicIpState → Object PublicIp → Object PublicIp
set_state state ip = record ip {
  payload = record ip.payload { status = some (record (status_of ip.payload) { state = state }) };
}

abbrev pub default_family : IpFamily → IpFamily
default_family family_unspecified = ipv4
default_family family = family

-- `state == READY && ip_family == … && available > 0`, each comparison being one condition.
abbrev pub selection_filter : Expr
selection_filter = call logical_and (call logical_and (operand 0) (operand 1)) (operand 2)

abbrev pub selection_condition : IpFamily → ℕ → Row Pool → Bool
selection_condition family zero row = is_ready (pool_status_of row.document).state
selection_condition family (suc zero) row = same_family (pool_family_of row.document) family
selection_condition family _ row = is_positive (pool_status_of row.document).available

abbrev pub selection : IpFamily → Conditions Pool
selection family = record { holds = selection_condition family; other = λ op a b. false }

abbrev pub greater : ℤ → ℤ → Bool
greater (pos a) (pos b) = not (leb a b)
greater (pos a) (negsuc b) = true
greater (negsuc a) (pos b) = false
greater (negsuc a) (negsuc b) = not (leb b a)

-- The loop keeps the first pool with the most available addresses.
unfoldable pub best_pool : Object Pool → List (Object Pool) → Object Pool
best_pool best [] = best
best_pool best (pool ∷ pools) =
    best_pool
      (if greater (pool_status_of pool.payload).available (pool_status_of best.payload).available
        then pool
        else best)
      pools

abbrev pub first_of : List (Object Pool) → Result String
first_of [] = err (status failed_precondition)
first_of (pool ∷ pools) = ok (best_pool pool pools).id

abbrev to_internal : Error → Error
to_internal _ = status internal

module _ (service : Service) where
  unfoldable pub select_pool : Object PublicIp → Tables → Result (Object PublicIp)
  unfolding best_pool
  select_pool ip tables = do
    let family = default_family (spec_of ip.payload).ip_family
    found ← translated to_internal (do
      visible ← service.server.tenancy.visible_tenants
      list (selection family) 100 1000 visible (some selection_filter) (pos 0) (pos 0) tables.pools)
    id ← first_of found.items
    ok (set_spec (record { pool = id; ip_family = family }) ip)

  abbrev pub with_pool : Object PublicIp → Tables → Result (Object PublicIp)
  with_pool ip tables = if (spec_of ip.payload).pool == "" then select_pool ip tables else ok ip

  unfoldable pub create : Option (Object PublicIp) → Tables → Result (Object PublicIp × Tables)
  create request tables = do
    valid ← validate_public_ip request
    ip ← with_pool valid tables
    let pool = (spec_of ip.payload).pool
    validate_pool_reference service pool tables
    created ←
        Generic.create service.server (some (set_state ip_pending ip))
          (record { spec = none; status = none }) tables.ips
    tables' ← update_pool_capacity service pool (pos 1) (record tables { ips = created.1 })
    ok (created.0, tables')

  -- The three guards of an update.
  abbrev pub pool_changes : Option (List String) → PublicIp → PublicIp → Bool
  pool_changes mask new current =
      update_includes_field mask "spec.pool" && not ((spec_of new).pool == (spec_of current).pool)

  abbrev pub family_changes : Option (List String) → PublicIp → PublicIp → Bool
  family_changes mask new current =
      update_includes_field mask "spec.ip_family"
      && not (same_family (spec_of new).ip_family (spec_of current).ip_family)

  abbrev pub wrong_transition : Option (List String) → PublicIp → PublicIp → Bool
  wrong_transition mask new current =
      let from = (status_of current).state in
      let to = (status_of new).state in
      update_includes_field mask "status.state"
      && not (same_state to from)
      && not (valid_transition from to)

  abbrev pub object_or_empty : Option (Object PublicIp) → Object PublicIp
  object_or_empty none = record {
    id = "";
    metadata = none;
    payload = record { spec = none; status = none };
  }
  object_or_empty (some object) = object

  module _ ⦃c : Comparable PublicIp⦄ where
    unfoldable pub update : UpdateRequest PublicIp → Tables → Result (Object PublicIp × Tables)
    update request tables = do
      let new = object_or_empty request.object
      refuse (new.id == "") (status invalid_argument)
      current ← Generic.get service.server new.id tables.ips
      refuse (pool_changes request.mask new.payload current.payload) (status invalid_argument)
      refuse (family_changes request.mask new.payload current.payload) (status invalid_argument)
      refuse (wrong_transition request.mask new.payload current.payload)
          (status failed_precondition)
      updated ← Generic.update service.server request tables.ips
      ok (updated.0, record tables { ips = updated.1 })

  abbrev pub release : String → Tables → Result Tables
  release pool tables =
      if not (pool == "") then update_pool_capacity service pool (negsuc 0) tables else ok tables

  unfoldable pub delete : String → Tables → Result Tables
  delete id tables = do
    refuse (id == "") (status invalid_argument)
    current ← Generic.get service.server id tables.ips
    refuse (not (same_state (status_of current.payload).state ip_allocated))
        (status failed_precondition)
    ips ← Generic.delete service.server id tables.ips
    release (spec_of current.payload).pool (record tables { ips = ips })
