-- ===== src/Console/Steps.antt =====
-- internal/console/manager.go: the steps of concurrent calls, and a well-formed state.
use osac_fulfillment_service.Prelude.{
  ℕ, ◌≤◌, Bool, true, ◌||◌, ◌≡◌, inl, inr, String, none, some, arith, eq_iff, Option-cases,
}
use osac_fulfillment_service.Prelude.Compare.{string_comparable}
use osac_fulfillment_service.Console.{
  Session, Target, Manager, admitted, lookup, find_token, has_token, connect, admit, holds_key,
  close, cancel_sessions, cancel,
}

-- A context that is cancelled, or that a call is about to cancel.
abbrev pub is_ending : ℕ → Manager → Bool
is_ending n m = has_token n m.cancelled || has_token n m.doomed

-- Each session of the map is held by somebody, and stands under its own key; who holds a session that
-- is not in the map any more has a context that is cancelled or about to be.
pub record IsValid (m : Manager) : Type 0 where
  pub owned :
      (k : String) (s : Session)
      → lookup k m.sessions ≡ some s
      → (find_token s.token m.live ≡ some s) × (s.resource_key ≡ k)
  pub superseded :
      (n : ℕ) (s : Session)
      → find_token n m.live ≡ some s
      → (s.token ≡ n) × ((holds_key (lookup s.resource_key m.sessions) n || is_ending n m) ≡ true)
  pub fresh : (n : ℕ) → m.next ≤ n → find_token n m.live ≡ none

-- One atomic step of one of the calls that run at the same time, or of time itself.
pub data Step (m : Manager) : Manager → Type 0 where
  connects :
      {t : Manager} (target : Target) (user client_id : String) (now : ℕ) (s : Session)
      → connect target user client_id now m ≡ admitted s t
      → Step m t
  ends : (n : ℕ) → Step m (close n m)
  cancels : (n : ℕ) → Step m (cancel n m)
  cancels_all : Step m (cancel_sessions m)

pub data Reach (m : Manager) : Manager → Type 0 where
  here : Reach m m
  next : {t u : Manager} → Reach m t → Step t u → Reach m u

-- What an admission leaves.
pub connect-admit :
    (target : Target) (user client_id : String) (now : ℕ) (m t : Manager) (s : Session)
    → connect target user client_id now m ≡ admitted s t
    → (t ≡ admit s (lookup target.backend_uri m.sessions) m)
      × (s.resource_key ≡ target.backend_uri)
      × (s.token ≡ m.next)
      × (s.user ≡ user)
unfolding connect
connect-admit target user client_id now m t s h =
    elim (Option-cases (lookup target.backend_uri m.sessions)) [
      | inl e ↦ (rw e (ground arith), ground arith, ground arith, ground arith)
      | inr (old, e) ↦ (rw e (ground arith), ground arith, ground arith, ground arith)
    ]

-- It takes the place of a session of the same user only, from the same client.
pub connect_evicts :
    (target : Target) (user client_id : String) (now : ℕ) (m t : Manager) (s old : Session)
    → connect target user client_id now m ≡ admitted s t
    → lookup target.backend_uri m.sessions ≡ some old
    → (old.user ≡ user) × (old.client_id ≡ client_id)
unfolding connect
connect_evicts target user client_id now m t s old h e =
    (ground (arith, eq_iff old.user user), ground (arith, eq_iff old.client_id client_id))
