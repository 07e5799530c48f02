-- ===== src/PublicIps/Equality.antt =====
-- internal/servers/generic_server.go: the equality of public IP addresses that an update tests.
use osac_fulfillment_service.Prelude.{
  Bool, true, false, ◌&&◌, ◌≡◌, ◌↔◌, String, Option, none, some, arith, eq_iff,
}
use osac_fulfillment_service.Prelude.Compare.{Comparable, ◌==◌, string_comparable}
use osac_fulfillment_service.PublicIps.{
  PublicIp, PublicIpSpec, PublicIpStatus, PublicIpState, IpFamily,
}
use osac_fulfillment_service.PublicIps.Requests.{same_state, same_family}

same_state_iff : (a b : PublicIpState) → (same_state a b ≡ true) ↔ (a ≡ b)
same_state_iff a b = ground arith

pub same_family_iff : (a b : IpFamily) → (same_family a b ≡ true) ↔ (a ≡ b)
same_family_iff a b = ground arith

abbrev same_bool : Bool → Bool → Bool
same_bool true b = b
same_bool false true = false
same_bool false false = true

abbrev pub same_text : Option String → Option String → Bool
same_text none none = true
same_text (some a) (some b) = a == b
same_text _ _ = false

pub same_text_iff : (a b : Option String) → (same_text a b ≡ true) ↔ (a ≡ b)
same_text_iff none none = ground arith
same_text_iff none (some b) = ground arith
same_text_iff (some a) none = ground arith
same_text_iff (some a) (some b) = ground (arith, eq_iff a b)

abbrev pub same_spec : Option PublicIpSpec → Option PublicIpSpec → Bool
same_spec none none = true
same_spec (some a) (some b) = a.pool == b.pool && same_family a.ip_family b.ip_family
same_spec _ _ = false

pub same_spec_iff : (a b : Option PublicIpSpec) → (same_spec a b ≡ true) ↔ (a ≡ b)
same_spec_iff none none = ground arith
same_spec_iff none (some b) = ground arith
same_spec_iff (some a) none = ground arith
same_spec_iff (some a) (some b) =
    ground (arith, eq_iff a.pool b.pool, same_family_iff a.ip_family b.ip_family)

abbrev pub same_status : Option PublicIpStatus → Option PublicIpStatus → Bool
same_status none none = true
same_status (some a) (some b) =
    same_state a.state b.state
    && same_text a.message b.message
    && a.hub == b.hub
    && a.address == b.address
    && a.pool == b.pool
    && same_bool a.attached b.attached
same_status _ _ = false

pub same_status_iff : (a b : Option PublicIpStatus) → (same_status a b ≡ true) ↔ (a ≡ b)
same_status_iff none none = ground arith
same_status_iff none (some b) = ground arith
same_status_iff (some a) none = ground arith
same_status_iff (some a) (some b) = ground (
  arith,
  same_state_iff a.state b.state,
  same_text_iff a.message b.message,
  eq_iff a.hub b.hub,
  eq_iff a.address b.address,
  eq_iff a.pool b.pool,
)

instance abbrev pub public_ip_comparable : Comparable PublicIp
public_ip_comparable = record {
  same = λ a b. same_spec a.spec b.spec && same_status a.status b.status;
  same_iff = λ a b. ground (arith, same_spec_iff a.spec b.spec, same_status_iff a.status b.status);
}
