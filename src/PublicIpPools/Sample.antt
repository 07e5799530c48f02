-- ===== src/PublicIpPools/Sample.antt =====
-- A sample of networks with what net/netip documents, for concrete runs.
use osac_fulfillment_service.Prelude.{
  ℕ, ◌≤◌, ◌+◌, ◌*◌, ◌/◌, ◌^◌, ◌&&◌, eqb, Bool, true, false, ◌≡◌, refl, String, Option, none, some,
  arith, if◌then◌else◌,
}
use osac_fulfillment_service.Prelude.Compare.{◌==◌, string_comparable}
use osac_fulfillment_service.Prelude.Int.{pos}
use osac_fulfillment_service.PublicIpPools.{Networks}
use osac_fulfillment_service.PublicIpPools.Capacity.{Documented, host_bits}

-- Three networks, two of them of IPv4.
pub data Net : Type 0 where
  office lab wide : Net

abbrev pub text_of : Net → String
text_of office = "10.0.0.0/24"
text_of lab = "10.0.1.0/30"
text_of wide = "fd00::/64"

abbrev pub parse : String → Option Net
parse s =
    if s == "10.0.0.0/24"
    then some office
    else if s == "10.0.1.0/30"
    then some lab
    else if s == "fd00::/64"
    then some wide
    else none

abbrev pub is_4 : Net → Bool
is_4 wide = false
is_4 _ = true

abbrev pub bit_len : Net → ℕ
bit_len wide = 128
bit_len _ = 32

abbrev pub ones : Net → ℕ
ones office = 24
ones lab = 30
ones wide = 64

abbrev pub same_net : Net → Net → Bool
same_net office office = true
same_net lab lab = true
same_net wide wide = true
same_net _ _ = false

abbrev pub net : Networks Net
net = record {
  parse_prefix = parse;
  is_4 = is_4;
  bit_len = bit_len;
  bits = λ p. pos (ones p);
  contains_address = same_net;
  masked = text_of;
}

ones_in : (p : Net) → ones p ≤ bit_len p
ones_in office = omega arith
ones_in lab = omega arith
ones_in wide = omega arith

length_4 : (p : Net) → is_4 p ≡ true → bit_len p ≡ 32
length_4 office h = refl
length_4 lab h = refl
length_4 wide h = absurd (ground arith)

abbrev address : Net → ℕ
address office = 10 * 2 ^ 24
address lab = 10 * 2 ^ 24 + 2 ^ 8
address wide = 0xfd00 * 2 ^ 112

includes :
    (p q : Net)
    → same_net p q ≡ (
        eqb (bit_len p) (bit_len q)
        && eqb (address p / 2 ^ host_bits net p) (address q / 2 ^ host_bits net p))
includes office office = refl
includes office lab = refl
includes office wide = refl
includes lab office = refl
includes lab lab = refl
includes lab wide = refl
includes wide office = refl
includes wide lab = refl
includes wide wide = refl

abbrev Reparsed : Net → Type 0
Reparsed p =
    (q : Net) × (parse (text_of p) ≡ some q)
    × (is_4 q ≡ is_4 p)
    × (bit_len q ≡ bit_len p)
    × (net.bits q ≡ net.bits p)
    × (address q ≡ address p / 2 ^ host_bits net p * 2 ^ host_bits net p)
    × (text_of q ≡ text_of p)

reparse : (p : Net) → Reparsed p
reparse office = (office, refl, refl, refl, refl, refl, refl)
reparse lab = (lab, refl, refl, refl, refl, refl, refl)
reparse wide = (wide, refl, refl, refl, refl, refl, refl)

pub documented : Documented net
documented = record {
  length_4 = length_4;
  bits_in = λ s p e. (ones p, refl, ones_in p);
  address = address;
  includes = λ s t p q a b. includes p q;
  reparse = λ s p e. reparse p;
}
