-- ===== src/PublicIps.antt =====
-- internal/servers/private_public_ips_server.go: public IP addresses, and the counters of the pools
-- that they come from. The generic server and the DAO of the pools share one transaction.
pub mod Pools
pub mod Requests
pub mod Capacity
pub mod Counters
pub mod Transitions
pub mod Reachability
pub mod Equality
pub mod Selection
pub mod Sample
mod Examples
use osac_fulfillment_service.Prelude.{
  ℕ, ◌+◌, ◌-◌, ◌^◌, Bool, true, false, not, ◌||◌, ◌&&◌, String, List, [], ◌∷◌, Option, none, some,
  ltb, if◌then◌else◌,
}
use osac_fulfillment_service.Prelude.Int.{ℤ, pos, negsuc, ◌+ℤ◌, ◌-ℤ◌}
use osac_fulfillment_service.Dao.{Store, Database}
use osac_fulfillment_service.Servers.Generic.{Server}

-- `PublicIPState`. The wire format allows values without a name.
pub data PublicIpState : Type 0 where
  ip_unspecified ip_pending ip_allocated ip_failed ip_deleting : PublicIpState
  ip_state_number : ℕ → PublicIpState

pub data IpFamily : Type 0 where
  family_unspecified ipv4 ipv6 : IpFamily
  family_number : ℕ → IpFamily

pub data PoolState : Type 0 where
  pool_unspecified pool_pending pool_ready pool_failed pool_deleting pool_delete_failed : PoolState
  pool_state_number : ℕ → PoolState

pub record PublicIpSpec : Type 0 where
  pub pool : String
  pub ip_family : IpFamily

pub record PublicIpStatus : Type 0 where
  pub state : PublicIpState
  pub message : Option String
  pub hub : String
  pub address : String
  pub pool : String
  pub attached : Bool

pub record PublicIp : Type 0 where
  pub spec : Option PublicIpSpec
  pub status : Option PublicIpStatus

-- The counters are values of Go's `int64`.
pub record PoolStatus : Type 0 where
  pub state : PoolState
  pub message : Option String
  pub hub : String
  pub total : ℤ
  pub allocated : ℤ
  pub available : ℤ

pub record PoolSpec : Type 0 where
  pub cidrs : List String
  pub ip_family : IpFamily
  pub implementation_strategy : String

pub record Pool : Type 0 where
  pub spec : Option PoolSpec
  pub status : Option PoolStatus

-- The two tables.
pub record Tables : Type 0 where
  pub ips : Store PublicIp
  pub pools : Store Pool

pub record Service : Type 0 where
  pub server : Server PublicIp
  pub pools : Database Pool

-- The getters of the generated code answer with the zero value where a message is missing.
abbrev pub spec_of : PublicIp → PublicIpSpec
spec_of ip = elim ip.spec [
  | none ↦ record { pool = ""; ip_family = family_unspecified }
  | some spec ↦ spec
]

abbrev pub empty_status : PublicIpStatus
empty_status = record {
  state = ip_unspecified;
  message = none;
  hub = "";
  address = "";
  pool = "";
  attached = false;
}

abbrev pub status_of : PublicIp → PublicIpStatus
status_of ip = elim ip.status [ none ↦ empty_status | some status ↦ status ]

abbrev pub pool_status_of : Pool → PoolStatus
pool_status_of pool = elim pool.status [
  | none ↦ record {
    state = pool_unspecified;
    message = none;
    hub = "";
    total = pos 0;
    allocated = pos 0;
    available = pos 0;
  }
  | some status ↦ status
]

abbrev pub pool_family_of : Pool → IpFamily
pool_family_of pool = elim pool.spec [ none ↦ family_unspecified | some spec ↦ spec.ip_family ]

-- A sum of two values of `int64`, wrapped around.
abbrev pub wrap64 : ℤ → ℤ
wrap64 (pos n) = if ltb n (2 ^ 63) then pos n else negsuc (2 ^ 64 - n - 1)
wrap64 (negsuc n) = if ltb n (2 ^ 63) then negsuc n else pos (2 ^ 64 - n - 1)

abbrev pub is_negative : ℤ → Bool
is_negative (pos n) = false
is_negative (negsuc n) = true

abbrev pub is_positive : ℤ → Bool
is_positive (pos n) = ltb 0 n
is_positive (negsuc n) = false

-- `updatePoolCapacity`, on the status of the pool: nothing, where it is refused.
unfoldable pub move_counters : ℤ → PoolStatus → Option PoolStatus
unfolding ◌+ℤ◌ ◌-ℤ◌
move_counters delta status =
    let allocated = wrap64 (status.allocated +ℤ delta) in
    let available = wrap64 (status.available -ℤ delta) in
    if is_negative available
    then none
    else if is_negative allocated
    then none
    else some (record status { allocated = allocated; available = available })

-- `validPublicIPTransitions`
unfoldable pub valid_transition : PublicIpState → PublicIpState → Bool
valid_transition ip_pending ip_allocated = true
valid_transition ip_pending ip_failed = true
valid_transition ip_allocated ip_failed = true
valid_transition ip_allocated ip_deleting = true
valid_transition ip_failed ip_allocated = true
valid_transition _ _ = false
