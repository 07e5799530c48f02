-- ===== src/Console/Examples.antt =====
-- internal/console/manager.go: the theorems at concrete runs.
use osac_fulfillment_service.Prelude.{
  true, false, ◌||◌, ◌≡◌, refl, List, [], ◌∷◌, String, some, none, arith,
}
use osac_fulfillment_service.Prelude.Compare.{texts_differ}
use osac_fulfillment_service.Console.{
  Session, Target, Manager, admitted, lookup, delete_key, find_token, has_token, has_backend,
  connect, admit, new_session, holds_key, close, active_sessions, new_manager,
}
use osac_fulfillment_service.Console.Steps.{Reach, here, next, connects, is_ending}
use osac_fulfillment_service.Console.Exclusion.{
  one_holder, connect_spares, close_spares, active_sessions-close_all, close_all,
}

abbrev kinds : List String
kinds = "compute_instance" ∷ []

abbrev vm : Target
vm = record { resource_type = "compute_instance"; backend_uri = "vm"; backend_token = "t" }

abbrev db : Target
db = record { resource_type = "compute_instance"; backend_uri = "db"; backend_token = "t" }

abbrev idle : Manager
idle = new_manager kinds

abbrev first : Session
first = new_session "vm" "alice" "laptop" 5 idle

abbrev second : Session
second = record {
  token = 1;
  resource_key = "vm";
  user = "alice";
  client_id = "laptop";
  started_at = 9;
}

abbrev working : Manager
working = record {
  backends = kinds;
  sessions = ("vm", first) ∷ [];
  live = first ∷ [];
  cancelled = [];
  doomed = [];
  next = 1;
}

abbrev resumed : Manager
resumed = record {
  backends = kinds;
  sessions = ("vm", second) ∷ [];
  live = second ∷ first ∷ [];
  cancelled = [];
  doomed = 0 ∷ [];
  next = 2;
}

opens : connect vm "alice" "laptop" 5 idle ≡ admitted first working
unfolding connect lookup delete_key has_backend
opens = refl

evicts : connect vm "alice" "laptop" 9 working ≡ admitted second resumed
unfolding connect lookup delete_key has_backend
evicts = refl

abbrev path : Reach idle working
path = next here (connects vm "alice" "laptop" 5 first opens)

abbrev longer : Reach idle resumed
longer = next path (connects vm "alice" "laptop" 9 second evicts)

one_holder_example : (is_ending 1 resumed || is_ending 0 resumed) ≡ true
unfolding find_token
one_holder_example = one_holder longer second first refl refl refl (ground arith)

abbrev visitor : Session
visitor = new_session "db" "bob" "phone" 7 working

connect_spares_example :
    (holds_key (lookup "vm" (admit visitor none working).sessions) 0 ≡ true)
    × (is_ending 0 (admit visitor none working) ≡ false)
unfolding find_token has_token connect lookup delete_key has_backend
connect_spares_example =
    connect_spares path db "bob" "phone" 7 visitor (admit visitor none working) refl first refl
      (texts_differ "alice" "bob" refl) refl

close_spares_example :
    (find_token 1 (close 0 resumed).live ≡ some second)
    × (has_token 1 (close 0 resumed).cancelled ≡ has_token 1 resumed.cancelled)
    × (has_token 1 (close 0 resumed).doomed ≡ has_token 1 resumed.doomed)
    × (holds_key (lookup "vm" (close 0 resumed).sessions) 1
        ≡ holds_key (lookup "vm" resumed.sessions) 1)
unfolding find_token
close_spares_example = close_spares longer 0 second refl (ground arith)

active_sessions-close_all_example : active_sessions (close_all (1 ∷ 0 ∷ []) resumed) ≡ 0
active_sessions-close_all_example = active_sessions-close_all longer
