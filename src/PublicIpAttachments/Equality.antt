-- ===== src/PublicIpAttachments/Equality.antt =====
-- internal/servers/generic_server.go: the equality of attachments that an update tests.
use osac_fulfillment_service.Prelude.{
  Bool, true, false, ◌&&◌, ◌≡◌, ◌↔◌, Option, none, some, arith, eq_iff, eqb,
}
use osac_fulfillment_service.Prelude.Compare.{Comparable, ◌==◌, string_comparable}
use osac_fulfillment_service.PublicIps.Equality.{same_text, same_text_iff}
use osac_fulfillment_service.PublicIpAttachments.{
  Attachment, AttachmentSpec, AttachmentStatus, AttachmentState, attachment_unspecified,
  attachment_pending, attachment_ready, attachment_failed, attachment_deleting,
  attachment_state_number,
}

abbrev pub same_state : AttachmentState → AttachmentState → Bool
same_state attachment_unspecified attachment_unspecified = true
same_state attachment_pending attachment_pending = true
same_state attachment_ready attachment_ready = true
same_state attachment_failed attachment_failed = true
same_state attachment_deleting attachment_deleting = true
same_state (attachment_state_number m) (attachment_state_number n) = eqb m n
same_state _ _ = false

same_state_iff : (a b : AttachmentState) → (same_state a b ≡ true) ↔ (a ≡ b)
same_state_iff a b = ground arith

abbrev pub same_spec : Option AttachmentSpec → Option AttachmentSpec → Bool
same_spec none none = true
same_spec (some a) (some b) =
    a.public_ip == b.public_ip && same_text a.compute_instance b.compute_instance
same_spec _ _ = false

pub same_spec_iff : (a b : Option AttachmentSpec) → (same_spec a b ≡ true) ↔ (a ≡ b)
same_spec_iff none none = ground arith
same_spec_iff none (some b) = ground arith
same_spec_iff (some a) none = ground arith
same_spec_iff (some a) (some b) =
    ground
      (arith, eq_iff a.public_ip b.public_ip, same_text_iff a.compute_instance b.compute_instance)

abbrev pub same_status : Option AttachmentStatus → Option AttachmentStatus → Bool
same_status none none = true
same_status (some a) (some b) =
    same_state a.state b.state
    && a.public_ip_address == b.public_ip_address
    && same_text a.message b.message
    && a.hub == b.hub
same_status _ _ = false

pub same_status_iff : (a b : Option AttachmentStatus) → (same_status a b ≡ true) ↔ (a ≡ b)
same_status_iff none none = ground arith
same_status_iff none (some b) = ground arith
same_status_iff (some a) none = ground arith
same_status_iff (some a) (some b) = ground (
  arith,
  same_state_iff a.state b.state,
  eq_iff a.public_ip_address b.public_ip_address,
  same_text_iff a.message b.message,
  eq_iff a.hub b.hub,
)

instance abbrev pub attachment_comparable : Comparable Attachment
attachment_comparable = record {
  same = λ a b. same_spec a.spec b.spec && same_status a.status b.status;
  same_iff = λ a b. ground (arith, same_spec_iff a.spec b.spec, same_status_iff a.status b.status);
}
