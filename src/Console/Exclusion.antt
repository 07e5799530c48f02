-- ===== src/Console/Exclusion.antt =====
-- internal/console/manager.go: who holds the console of a resource, after any interleaving of calls.
use osac_fulfillment_service.Prelude.{
  ℕ, true, false, ◌||◌, ◌≡◌, ◌≢◌, inl, inr, refl, sym, ap, ◌∙◌, String, List, [], ◌∷◌, none, some,
  eqb, length, arith, eq_iff, if◌then◌else◌, Option-cases, Bool-cases,
}
use osac_fulfillment_service.Prelude.Compare.{string_comparable}
use osac_fulfillment_service.Console.{
  has_token, Session, Target, Manager, admitted, lookup, find_token, remove_token, connect,
  holds_key, close, active_sessions, new_manager,
}
use osac_fulfillment_service.Console.Sessions.{
  lookup-delete_key, find_token-remove_token, nothing_found,
}
use osac_fulfillment_service.Console.Steps.{
  IsValid, is_ending, Reach, connect-admit, connect_evicts,
}
use osac_fulfillment_service.Console.Invariant.{Reach-IsValid, new_manager-IsValid, close-IsValid}

-- Everybody who holds one of these sessions closes it.
abbrev pub close_all : List ℕ → Manager → Manager
close_all [] m = m
close_all (n ∷ ns) m = close_all ns (close n m)

abbrev held_tokens : List Session → List ℕ
held_tokens [] = []
held_tokens (s ∷ rest) = s.token ∷ held_tokens rest

live_close :
    (m : Manager) (i n : ℕ)
    → IsValid m
    → find_token i (close n m).live ≡ (if eqb n i then none else find_token i m.live)
unfolding close
live_close m i n v = elim (Option-cases (find_token n m.live)) [
  | inl e ↦ elim (Bool-cases (eqb n i)) [
    | inl same ↦
        let back : n ≡ i = ground arith in
        rw (e, same) (sym (ap (λ j. find_token j m.live) back) ∙ e)
    | inr apart ↦ rw (e, apart) refl
  ]
  | inr (s, e) ↦
      let named = (v.superseded n s e).0 in
      let off = find_token-remove_token i s.token m.live in rw e (ground arith)
]

live_close_all :
    (ns : List ℕ) (m : Manager) (i : ℕ)
    → IsValid m
    → find_token i (close_all ns m).live ≡ (if has_token i ns then none else find_token i m.live)
unfolding has_token
live_close_all [] m i v = refl
live_close_all (n ∷ ns) m i v =
    let rest = live_close_all ns (close n m) i (close-IsValid m v n) in
    let here = live_close m i n v in ground arith

close_all-IsValid : (ns : List ℕ) (m : Manager) → IsValid m → IsValid (close_all ns m)
close_all-IsValid [] m v = v
close_all-IsValid (n ∷ ns) m v = close_all-IsValid ns (close n m) (close-IsValid m v n)

held_all :
    (i : ℕ) (held : List Session)
    → has_token i (held_tokens held) ≡ false
    → find_token i held ≡ none
unfolding has_token find_token
held_all i [] h = refl
held_all i (s ∷ rest) h = ground (arith, held_all i rest)

nobody-active_sessions :
    (m : Manager) → IsValid m → ((n : ℕ) → find_token n m.live ≡ none) → active_sessions m ≡ 0
unfolding active_sessions
nobody-active_sessions m v idle = ap length (
    nothing_found m.sessions (λ k. elim (Option-cases (lookup k m.sessions)) [
      | inl e ↦ e
      | inr (s, e) ↦ ground (arith, v.owned k s e, idle s.token)
    ]))

module _ {backends : List String} {m : Manager} (path : Reach (new_manager backends) m) where
  v : IsValid m
  v = Reach-IsValid path (new_manager-IsValid backends)

  -- After any interleaving of connections, closings, cancellations and time-outs, of two different
  -- sessions that are held for one resource at least one has a context that is cancelled, or that
  -- the call of `Connect` which took its place is about to cancel.
  pub one_holder :
      (s r : Session)
      → find_token s.token m.live ≡ some s
      → find_token r.token m.live ≡ some r
      → s.resource_key ≡ r.resource_key
      → s.token ≢ r.token
      → (is_ending s.token m || is_ending r.token m) ≡ true
  one_holder s r held others same apart = elim (Option-cases (lookup s.resource_key m.sessions)) [
    | inl e ↦ ground (arith, v.superseded s.token s)
    | inr (t, e) ↦ ground (arith, v.superseded s.token s, v.superseded r.token r)
  ]

  -- The session of the map under a key is not the session of somebody else.
  lodgers_apart :
      (k : String) (old : Session)
      → lookup k m.sessions ≡ some old
      → (r : Session) → find_token r.token m.live ≡ some r
      → r.user ≢ old.user
      → eqb old.token r.token ≡ false
  lodgers_apart k old taken r held other = elim (Bool-cases (eqb old.token r.token)) [
    | inl e ↦
        let same : r.token ≡ old.token = ground arith in
        let one = sym held ∙ ap (λ i. find_token i m.live) same ∙ (v.owned k old taken).0 in
        absurd (other (ground arith))
    | inr e ↦ e
  ]

  -- After any interleaving, a connection that is admitted leaves every session of another user
  -- alone that is held and not ending: that session is still the one of its resource, and its
  -- context is not ending.
  pub connect_spares :
      (target : Target) (user client_id : String) (now : ℕ) (s : Session) (t : Manager)
      → connect target user client_id now m ≡ admitted s t
      → (r : Session) → find_token r.token m.live ≡ some r
      → r.user ≢ user
      → is_ending r.token m ≡ false
      → (holds_key (lookup r.resource_key t.sessions) r.token ≡ true)
        × (is_ending r.token t ≡ false)
  unfolding lookup has_token
  connect_spares target user client_id now s t h r held other awake =
      let (e, key, numbered, _) = connect-admit target user client_id now m t s h in
      let off = lookup-delete_key r.resource_key s.resource_key m.sessions in
      let stays = v.superseded r.token r held in
      elim (Option-cases (lookup target.backend_uri m.sessions)) [
        | inl free ↦
            rw (e, free) (ground (arith, eq_iff s.resource_key r.resource_key), ground arith)
        | inr (old, taken) ↦
            let mine = connect_evicts target user client_id now m t s old h taken in
            let apart =
              lodgers_apart target.backend_uri old taken r held (λ same. other (same ∙ mine.0)) in
            rw (e, taken)
              (ground (arith, eq_iff s.resource_key r.resource_key, apart), ground (arith, apart))
      ]

  -- Closing a session a second time does nothing.
  pub close-close : (n : ℕ) → close n (close n m) ≡ close n m
  unfolding close
  close-close n = elim (Option-cases (find_token n m.live)) [
    | inl e ↦ rw (e, e) refl
    | inr (s, e) ↦
        let named = (v.superseded n s e).0 in
        let off = find_token-remove_token n s.token m.live in
        let gone : find_token n (remove_token s.token m.live) ≡ none = ground arith in
        rw e (rw gone refl)
  ]

  -- After any interleaving, closing one session leaves another one that is held as it is: it is
  -- still held, its context is cancelled, or about to be cancelled by a call of `Connect`, exactly
  -- if it was so before, and it is in the map exactly if it was there before. So closing a session
  -- that was evicted keeps its successor.
  pub close_spares :
      (n : ℕ) (s : Session)
      → find_token s.token m.live ≡ some s
      → s.token ≢ n
      → (find_token s.token (close n m).live ≡ some s)
        × (has_token s.token (close n m).cancelled ≡ has_token s.token m.cancelled)
        × (has_token s.token (close n m).doomed ≡ has_token s.token m.doomed)
        × (holds_key (lookup s.resource_key (close n m).sessions) s.token
            ≡ holds_key (lookup s.resource_key m.sessions) s.token)
  unfolding close has_token
  close_spares n s held apart = elim (Option-cases (find_token n m.live)) [
    | inl e ↦ rw e (held, refl, refl, refl)
    | inr (r, e) ↦
        let left = find_token-remove_token s.token r.token m.live in
        let off = lookup-delete_key s.resource_key r.resource_key m.sessions in
        let named = (v.superseded n r e).0 in
        rw e
          (ground arith, ground arith, refl, ground (arith, eq_iff r.resource_key s.resource_key))
  ]

  -- Sessions do not leak: after any interleaving, once everybody who holds a session has closed it,
  -- no session is left in the map.
  pub active_sessions-close_all : active_sessions (close_all (held_tokens m.live) m) ≡ 0
  active_sessions-close_all =
      let all = held_tokens m.live in
      nobody-active_sessions (close_all all m) (close_all-IsValid all m v)
        (λ i. let gone = live_close_all all m i v in ground (arith, held_all i m.live))
