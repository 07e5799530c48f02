-- ===== src/Console/Sessions.antt =====
-- internal/console/manager.go: facts about the map of sessions.
use osac_fulfillment_service.Prelude.{
  ℕ, ◌||◌, ◌≡◌, refl, String, List, [], ◌∷◌, none, eqb, arith, eq_iff, eq_refl, if◌then◌else◌,
}
use osac_fulfillment_service.Prelude.Compare.{◌==◌, string_comparable}
use osac_fulfillment_service.Console.{
  Session, lookup, delete_key, find_token, remove_token, has_token, append_tokens,
}

pub lookup-delete_key :
    (j k : String) (ss : List (String × Session))
    → lookup j (delete_key k ss) ≡ (if k == j then none else lookup j ss)
unfolding lookup delete_key
lookup-delete_key j k [] = ground arith
lookup-delete_key j k ((i, s) ∷ ss) =
    ground (arith, eq_iff i k, eq_iff k j, eq_iff i j, lookup-delete_key j k ss)

pub find_token-remove_token :
    (i n : ℕ) (ss : List Session)
    → find_token i (remove_token n ss) ≡ (if eqb n i then none else find_token i ss)
unfolding find_token remove_token
find_token-remove_token i n [] = ground arith
find_token-remove_token i n (s ∷ ss) = ground (arith, find_token-remove_token i n ss)

pub has_token-append_tokens :
    (n : ℕ) (ms ns : List ℕ)
    → has_token n (append_tokens ms ns) ≡ (has_token n ms || has_token n ns)
unfolding has_token
has_token-append_tokens n [] ns = refl
has_token-append_tokens n (m ∷ ms) ns = ground (arith, has_token-append_tokens n ms ns)

-- A map in which nothing is found has no entries.
pub nothing_found : (ss : List (String × Session)) → ((k : String) → lookup k ss ≡ none) → ss ≡ []
unfolding lookup
nothing_found [] h = refl
nothing_found ((k, s) ∷ ss) h = absurd (ground (arith, h k, eq_refl k))
