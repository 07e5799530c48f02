-- ===== src/Console.antt =====
-- internal/console/manager.go: the sessions of the console manager. A session is a pointer in the
-- source: here it has a number of its own. The state has, beside the map of sessions, what decides
-- who still holds a session: the calls of `Connect` that wait for their backend and the connections
-- that are not closed (`live`), the contexts that are cancelled, and those that a call of `Connect`
-- is about to cancel since it took their place (`doomed`). The part of `Connect` under the lock is
-- one step; so are the end of a call whose backend refuses, and the closing of a connection: what
-- other calls do between their parts does not depend on how far they are.
pub mod Sessions
pub mod Steps
pub mod Invariant
mod Exclusion
mod Examples
use osac_fulfillment_service.Prelude.{
  ℕ, suc, Bool, true, false, not, ◌&&◌, ◌||◌, String, List, [], ◌∷◌, Option, none, some, eqb,
  length, map, if◌then◌else◌,
}
use osac_fulfillment_service.Prelude.Compare.{◌==◌, string_comparable}

pub record Session : Type 0 where
  pub token : ℕ
  pub resource_key : String
  pub user : String
  pub client_id : String
  pub started_at : ℕ

pub record Target : Type 0 where
  pub resource_type : String
  pub backend_uri : String
  pub backend_token : String

pub record Manager : Type 0 where
  pub backends : List String
  pub sessions : List (String × Session)
  pub live : List Session
  pub cancelled : List ℕ
  pub doomed : List ℕ
  pub next : ℕ

pub data ConnectError : Type 0 where
  no_backend_uri unsupported_type : ConnectError
  session_exists : (resource user : String) (since : ℕ) → ConnectError

-- `m.sessions[key]`, and `delete(m.sessions, key)`.
unfoldable pub lookup : String → List (String × Session) → Option Session
lookup key [] = none
lookup key ((k, s) ∷ rest) = if k == key then some s else lookup key rest

unfoldable pub delete_key : String → List (String × Session) → List (String × Session)
delete_key key [] = []
delete_key key ((k, s) ∷ rest) =
    let others = delete_key key rest in if k == key then others else (k, s) ∷ others

-- The session with a number, among those that are held.
unfoldable pub find_token : ℕ → List Session → Option Session
find_token n [] = none
find_token n (s ∷ rest) = if eqb s.token n then some s else find_token n rest

unfoldable pub remove_token : ℕ → List Session → List Session
remove_token n [] = []
remove_token n (s ∷ rest) =
    let others = remove_token n rest in if eqb s.token n then others else s ∷ others

unfoldable pub has_token : ℕ → List ℕ → Bool
has_token n [] = false
has_token n (m ∷ rest) = eqb m n || has_token n rest

unfoldable pub has_backend : List String → String → Bool
has_backend [] type = false
has_backend (b ∷ rest) type = b == type || has_backend rest type

-- The test under the lock: may this caller take the place of the session that is there?
abbrev pub may_evict : Session → String → String → Bool
may_evict existing user client_id =
    not (client_id == "") && existing.client_id == client_id && existing.user == user

abbrev pub token_of : Option Session → List ℕ
token_of none = []
token_of (some s) = s.token ∷ []

pub data Admission : Type 0 where
  admitted : Session → Manager → Admission
  refused : ConnectError → Admission

abbrev pub append_tokens : List ℕ → List ℕ → List ℕ
append_tokens [] ns = ns
append_tokens (m ∷ ms) ns = m ∷ append_tokens ms ns

abbrev pub new_session : String → (user client_id : String) → ℕ → Manager → Session
new_session key user client_id now m = record {
  token = m.next;
  resource_key = key;
  user = user;
  client_id = client_id;
  started_at = now;
}

-- The session takes its place in the map, and the context of the one that it evicts is doomed.
abbrev pub admit : Session → Option Session → Manager → Manager
admit s old m = record m {
  sessions = (s.resource_key, s) ∷ delete_key s.resource_key m.sessions;
  live = s ∷ m.live;
  doomed = append_tokens (token_of old) m.doomed;
  next = suc m.next;
}

-- `Connect` up to the call of the backend.
unfoldable pub connect : Target → (user client_id : String) → ℕ → Manager → Admission
connect target user client_id now m =
    let key = target.backend_uri in
    let s = new_session key user client_id now m in
    if key == ""
    then refused no_backend_uri
    else if not (has_backend m.backends target.resource_type)
    then refused unsupported_type
    else elim (lookup key m.sessions) [
      | none ↦ admitted s (admit s none m)
      | some old ↦
          if may_evict old user client_id
          then admitted s (admit s (some old) m)
          else refused (session_exists key old.user old.started_at)
    ]

abbrev pub holds_key : Option Session → ℕ → Bool
holds_key none n = false
holds_key (some s) n = eqb s.token n

-- `removeSession`: only the session that is still there under its key is removed.
unfoldable pub remove_session : String → ℕ → List (String × Session) → List (String × Session)
remove_session key owner sessions =
    if holds_key (lookup key sessions) owner then delete_key key sessions else sessions

-- The end of a session: the backend refused it, or its connection is closed for the first time.
abbrev pub end_session : Option Session → Manager → Manager
end_session none m = m
end_session (some s) m = record m {
  sessions = remove_session s.resource_key s.token m.sessions;
  live = remove_token s.token m.live;
  cancelled = s.token ∷ m.cancelled;
}

-- `managedConnection.Close`: it does nothing the second time.
unfoldable pub close : ℕ → Manager → Manager
unfolding remove_session
close n m = end_session (find_token n m.live) m

abbrev pub tokens : List (String × Session) → List ℕ
tokens [] = []
tokens ((k, s) ∷ rest) = s.token ∷ tokens rest

unfoldable pub cancel_sessions : Manager → Manager
cancel_sessions m = record m { cancelled = append_tokens (tokens m.sessions) m.cancelled }

-- `oldCancel()`, and a context whose time is over or whose parent is cancelled.
unfoldable pub cancel : ℕ → Manager → Manager
cancel n m = record m { cancelled = n ∷ m.cancelled }

unfoldable pub active_sessions : Manager → ℕ
active_sessions m = length m.sessions

-- What `Build` returns.
abbrev pub new_manager : List String → Manager
new_manager backends = record {
  backends = backends;
  sessions = [];
  live = [];
  cancelled = [];
  doomed = [];
  next = 0;
}
