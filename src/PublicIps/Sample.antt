-- ===== src/PublicIps/Sample.antt =====
-- internal/servers/private_public_ips_server.go: a table of addresses and a pool with one of them.
use osac_fulfillment_service.Prelude.{refl, true, false, String, List, [], ◌∷◌, none, some, arith}
use osac_fulfillment_service.Prelude.Compare.{string_comparable}
use osac_fulfillment_service.Prelude.Int.{pos}
use osac_fulfillment_service.Errors.{Result, ok, err}
use osac_fulfillment_service.Auth.{Subject, default_tenancy_logic}
use osac_fulfillment_service.Dao.{Row, Database}
use osac_fulfillment_service.Dao.Requests as Dao
use osac_fulfillment_service.Dao.Rows.{Unique}
use osac_fulfillment_service.PublicIps.Capacity.{IsSound}
use osac_fulfillment_service.PublicIps.{
  PublicIp, ip_allocated, family_unspecified, ipv4, Pool, PoolStatus, pool_ready, Tables, Service,
}
use osac_fulfillment_service.PublicIps.Equality.{public_ip_comparable}

abbrev pub ready_status : PoolStatus
ready_status = record {
  state = pool_ready;
  message = none;
  hub = "h";
  total = pos 8;
  allocated = pos 1;
  available = pos 7;
}

abbrev pool : Pool
pool = record {
  spec = some (record {
    cidrs = "10.0.0.0/29" ∷ [];
    ip_family = ipv4;
    implementation_strategy = "metallb";
  });
  status = some ready_status;
}

abbrev address : PublicIp
address = record {
  spec = some (record { pool = "p1"; ip_family = family_unspecified });
  status = some (record {
    state = ip_allocated;
    message = none;
    hub = "h";
    address = "10.0.0.1";
    pool = "p1";
    attached = false;
  });
}

abbrev pub row_of_tenant : {D : Type 0} → String → List String → D → Row D
row_of_tenant id finalizers document = record {
  id = id;
  name = "";
  creation_timestamp = 3;
  deletion_timestamp = 0;
  finalizers = finalizers;
  creator = "alice";
  tenant = "acme";
  project = "";
  labels = [];
  annotations = [];
  version = 0;
  document = document;
}

abbrev pub permissive : {D : Type 0} → Database D
permissive = record {
  now = 7;
  new_uuid = "u1";
  insert_check = λ rows row. none;
  update_check = λ rows old row. none;
  archive_check = λ row. none;
  remove_check = λ rows row. none;
  notify = λ event. none;
}

abbrev pub alice : Subject
alice = record { user = "alice"; tenants = record { infinite = false; items = "acme" ∷ [] } }

abbrev pub service : Service
service = record {
  server = record {
    database = permissive;
    tenancy = default_tenancy_logic alice;
    creator = ok "alice";
    dry_run = false;
    valid = λ object. true;
    apply_path = λ path request current. ok (record current { payload = request.payload });
  };
  pools = permissive;
}

abbrev pub address_row : Row PublicIp
address_row = row_of_tenant "i1" ("f" ∷ []) address

abbrev pub tables : Tables
tables = record {
  ips = record { rows = address_row ∷ []; archived = []; events = [] };
  pools = record { rows = row_of_tenant "p1" [] pool ∷ []; archived = []; events = [] };
}

pub ips-Unique : Unique tables.ips.rows
unfolding Dao.has_row
ips-Unique = ground arith

pools-Unique : Unique tables.pools.rows
unfolding Dao.has_row
pools-Unique = ground arith

pub pools-IsSound : IsSound tables.pools
pools-IsSound = record { unique = pools-Unique; pending = (refl, tt); counted = ((refl, refl), tt) }

abbrev pub ok_or {ℓ} : {A : Type ℓ} → A → Result A → A
ok_or default (ok a) = a
ok_or default (err e) = default
