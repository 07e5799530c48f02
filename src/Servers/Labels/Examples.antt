-- ===== src/Servers/Labels/Examples.antt =====
-- internal/servers/generic_server.go: the theorems on keys at a concrete key.
use osac_fulfillment_service.Prelude.{ℕ, true, ◌≡◌, ◌↔◌, List}
use osac_fulfillment_service.Servers.Labels.{characters, validate_label_key}
use osac_fulfillment_service.Servers.Labels.Keys.{IsKey, validate_label_key_iff}

abbrev key : List ℕ
key = characters "osac.dev/team"

validate_label_key_iff_example : (validate_label_key key ≡ true) ↔ IsKey key
validate_label_key_iff_example = validate_label_key_iff key
