-- ===== src/Console/Invariant.antt =====
-- internal/console/manager.go: what every interleaving of calls keeps.
use osac_fulfillment_service.Prelude.{
  ℕ, ◌≤◌, true, ◌&&◌, ◌||◌, ◌≡◌, refl, sym, ap, ◌∙◌, inl, inr, String, List, none, some, arith,
  eq_iff, if◌then◌else◌, Option-cases,
}
use osac_fulfillment_service.Prelude.Compare.{◌==◌, string_comparable}
use osac_fulfillment_service.Console.{
  Session, Target, Manager, admitted, lookup, find_token, has_token, token_of, connect, admit,
  holds_key, remove_session, end_session, close, tokens, cancel_sessions, cancel, new_manager,
}
use osac_fulfillment_service.Console.Sessions.{
  lookup-delete_key, find_token-remove_token, has_token-append_tokens,
}
use osac_fulfillment_service.Console.Steps.{
  is_ending, IsValid, Step, connects, ends, cancels, cancels_all, Reach, here, next, connect-admit,
}

module _ (m : Manager) (v : IsValid m) where
  module _ (s : Session) (numbered : s.token ≡ m.next) where
    abbrev after : Manager
    after = admit s (lookup s.resource_key m.sessions) m

    admit_owned :
        (k : String) (r : Session)
        → lookup k after.sessions ≡ some r
        → (find_token r.token after.live ≡ some r) × (r.resource_key ≡ k)
    unfolding lookup find_token
    admit_owned k r h =
        let off = lookup-delete_key k s.resource_key m.sessions in
        ground (arith, eq_iff s.resource_key k, v.owned k r, v.fresh r.token)

    admit_fresh : (n : ℕ) → after.next ≤ n → find_token n after.live ≡ none
    unfolding find_token
    admit_fresh n h = ground (arith, v.fresh n)

    admit_ending : (n : ℕ) → is_ending n m ≡ true → is_ending n after ≡ true
    unfolding has_token
    admit_ending n h =
        let grown =
          has_token-append_tokens n (token_of (lookup s.resource_key m.sessions)) m.doomed in
        ground arith

    admit_dooms :
        (r : Session) → lookup s.resource_key m.sessions ≡ some r → is_ending r.token after ≡ true
    unfolding has_token
    admit_dooms r h = rw h (ground arith)

    admit_superseded :
        (n : ℕ) (r : Session)
        → find_token n after.live ≡ some r
        → (r.token ≡ n)
          × ((holds_key (lookup r.resource_key after.sessions) n || is_ending n after) ≡ true)
    unfolding lookup find_token
    admit_superseded n r h =
        let off = lookup-delete_key r.resource_key s.resource_key m.sessions in
        elim (Option-cases (lookup s.resource_key m.sessions)) [
          | inl e ↦
              ground (arith, eq_iff s.resource_key r.resource_key, v.superseded n r, admit_ending n)
          | inr (old, e) ↦ ground (
            arith,
            eq_iff s.resource_key r.resource_key,
            v.superseded n r,
            admit_ending n,
            admit_dooms old e,
            v.owned s.resource_key old e,
          )
        ]

    admit-IsValid : IsValid after
    admit-IsValid = record {
      owned = admit_owned;
      superseded = admit_superseded;
      fresh = admit_fresh;
    }

  module _ (s : Session) (held : find_token s.token m.live ≡ some s) where
    abbrev ended : Manager
    ended = end_session (some s) m

    removed :
        (k : String)
        → lookup k ended.sessions ≡ (
            if holds_key (lookup s.resource_key m.sessions) s.token && s.resource_key == k
            then none
            else lookup k m.sessions)
    unfolding remove_session
    removed k =
        let off = lookup-delete_key k s.resource_key m.sessions in
        ground (arith, eq_iff s.resource_key k)

    end_owned :
        (k : String) (r : Session)
        → lookup k ended.sessions ≡ some r
        → (find_token r.token ended.live ≡ some r) × (r.resource_key ≡ k)
    end_owned k r h =
        let off = find_token-remove_token r.token s.token m.live in
        ground (arith, eq_iff s.resource_key k, v.owned k r, removed k)

    end_superseded :
        (n : ℕ) (r : Session)
        → find_token n ended.live ≡ some r
        → (r.token ≡ n)
          × ((holds_key (lookup r.resource_key ended.sessions) n || is_ending n ended) ≡ true)
    unfolding has_token
    end_superseded n r h =
        let off = find_token-remove_token n s.token m.live in
        elim (Option-cases (lookup s.resource_key m.sessions)) [
          | inl e ↦ ground (
            arith,
            eq_iff s.resource_key r.resource_key,
            v.superseded n r,
            removed r.resource_key,
          )
          | inr (old, e) ↦ ground (
            arith,
            eq_iff s.resource_key r.resource_key,
            v.superseded n r,
            removed r.resource_key,
          )
        ]

    end_fresh : (n : ℕ) → m.next ≤ n → find_token n ended.live ≡ none
    end_fresh n h = ground (arith, v.fresh n, find_token-remove_token n s.token m.live)

    end-IsValid : IsValid ended
    end-IsValid = record { owned = end_owned; superseded = end_superseded; fresh = end_fresh }

  pub close-IsValid : (n : ℕ) → IsValid (close n m)
  unfolding close
  close-IsValid n = elim (Option-cases (find_token n m.live)) [
    | inl e ↦ rw e v
    | inr (s, e) ↦ rw e (end-IsValid s (ap (λ i. find_token i m.live) (v.superseded n s e).0 ∙ e))
  ]

  cancel-IsValid : (n : ℕ) → IsValid (cancel n m)
  unfolding cancel has_token
  cancel-IsValid n = record {
    owned = v.owned;
    superseded = λ i r h. ground (arith, v.superseded i r h);
    fresh = v.fresh;
  }

  cancel_sessions-IsValid : IsValid (cancel_sessions m)
  unfolding cancel_sessions
  cancel_sessions-IsValid = record {
    owned = v.owned;
    superseded = λ i r h.
        ground
          (arith, v.superseded i r h, has_token-append_tokens i (tokens m.sessions) m.cancelled);
    fresh = v.fresh;
  }

  connect-IsValid :
      (target : Target) (user client_id : String) (now : ℕ) (s : Session) {t : Manager}
      → connect target user client_id now m ≡ admitted s t
      → IsValid t
  connect-IsValid target user client_id now s {t} h =
      let (e, key, numbered, _) = connect-admit target user client_id now m t s h in
      rw (e, sym key) (admit-IsValid s numbered)

  Step-IsValid : {t : Manager} → Step m t → IsValid t
  Step-IsValid (connects target user client_id now s h) =
      connect-IsValid target user client_id now s h
  Step-IsValid (ends n) = close-IsValid n
  Step-IsValid (cancels n) = cancel-IsValid n
  Step-IsValid cancels_all = cancel_sessions-IsValid

pub new_manager-IsValid : (backends : List String) → IsValid (new_manager backends)
unfolding lookup find_token
new_manager-IsValid backends = record {
  owned = λ k s h. ground arith;
  superseded = λ n s h. ground arith;
  fresh = λ n h. refl;
}

pub Reach-IsValid : {m t : Manager} → Reach m t → IsValid m → IsValid t
Reach-IsValid here v = v
Reach-IsValid (next path last) v = Step-IsValid _ (Reach-IsValid path v) last
