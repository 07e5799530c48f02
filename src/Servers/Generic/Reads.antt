-- ===== src/Servers/Generic/Reads.antt =====
-- internal/servers/generic_server.go: the requests that change no object, List and Signal.
use osac_fulfillment_service.Prelude.{String, Option}
use osac_fulfillment_service.Prelude.Compare.{◌==◌, string_comparable}
use osac_fulfillment_service.Prelude.Int.{ℤ}
use osac_fulfillment_service.Errors.{
  Error, status, denied_error, deadlock_error, invalid_argument, permission_denied, aborted,
  internal, Result, ◌>>=◌, ◌>>◌, refuse,
}
use osac_fulfillment_service.Dao.{Object, Store}
use osac_fulfillment_service.Dao.Requests.{translated}
use osac_fulfillment_service.Dao.Requests as Dao
use osac_fulfillment_service.Dao.Filter.{Expr}
use osac_fulfillment_service.Dao.Listing.{Conditions, ListResponse}
use osac_fulfillment_service.Dao.Listing as Listing
use osac_fulfillment_service.Servers.Generic.{Server, get_status}

abbrev pub list_status : Error → Error
list_status denied_error = status permission_denied
list_status deadlock_error = status aborted
list_status _ = status internal

module _ {D : Type 0} (server : Server D) where
  unfoldable pub list_objects :
      Conditions D → Option Expr → ℤ → ℤ → Store D → Result (ListResponse D)
  list_objects sql filter offset limit store = translated list_status (do
    visible ← server.tenancy.visible_tenants
    Listing.list sql 100 1000 visible filter offset limit store)

  -- The object of the event that is published. A notifier that fails is only logged.
  unfoldable pub signal : String → Store D → Result (Object D)
  signal id store = do
    refuse (id == "") (status invalid_argument)
    translated get_status (do visible ← server.tenancy.visible_tenants; Dao.get visible id store)
