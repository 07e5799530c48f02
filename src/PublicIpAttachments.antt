-- ===== src/PublicIpAttachments.antt =====
-- internal/servers/private_public_ip_attachments_server.go: attachments of public IP addresses to compute
-- instances. The generic server and the DAOs of addresses, instances and attachments share one
-- transaction.
pub mod Requests
pub mod Flags
pub mod Attaching
pub mod Detaching
pub mod Targets
pub mod Invariant
pub mod Reachability
pub mod Equality
mod Examples
use osac_fulfillment_service.Prelude.{ℕ, Bool, String, Option, none, some}
use osac_fulfillment_service.Dao.{Store, Database}
use osac_fulfillment_service.Servers.Generic.{Server}
use osac_fulfillment_service.PublicIps.{PublicIp}

-- `PublicIPAttachmentState`. The wire format allows values without a name.
pub data AttachmentState : Type 0 where
  attachment_unspecified attachment_pending attachment_ready : AttachmentState
  attachment_failed attachment_deleting : AttachmentState
  attachment_state_number : ℕ → AttachmentState

pub record AttachmentSpec : Type 0 where
  pub public_ip : String
  pub compute_instance : Option String

pub record AttachmentStatus : Type 0 where
  pub state : AttachmentState
  pub public_ip_address : String
  pub message : Option String
  pub hub : String

pub record Attachment : Type 0 where
  pub spec : Option AttachmentSpec
  pub status : Option AttachmentStatus

-- The getters of the generated code answer with the zero value where a message is missing.
abbrev pub spec_of : Attachment → AttachmentSpec
spec_of attachment = elim attachment.spec [
  | none ↦ record { public_ip = ""; compute_instance = none }
  | some spec ↦ spec
]

abbrev pub instance_of : AttachmentSpec → String
instance_of spec = elim spec.compute_instance [ none ↦ "" | some id ↦ id ]

abbrev pub with_state : AttachmentState → Option AttachmentStatus → AttachmentStatus
with_state state none = record { state = state; public_ip_address = ""; message = none; hub = "" }
with_state state (some status) = record status { state = state }

-- The three tables, with compute instances of a type of which only one test is read.
pub record Tables (I : Type 0) : Type 0 where
  pub attachments : Store Attachment
  pub ips : Store PublicIp
  pub instances : Store I

pub record Service (I : Type 0) : Type 0 where
  pub server : Server Attachment
  pub ips : Database PublicIp
  pub is_running : I → Bool
