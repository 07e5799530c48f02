-- ===== src/PublicIpAttachments/Targets.antt =====
-- internal/servers/private_public_ip_attachments_server.go: the addresses and instances that a table of
-- attachments names.
use osac_fulfillment_service.Prelude.{
  Bool, false, ◌||◌, ◌≡◌, refl, ap, inl, inr, String, List, [], ◌∷◌, some, arith, All, Bool-cases,
  eq_iff,
}
use osac_fulfillment_service.Prelude.Compare.{◌==◌, string_comparable}
use osac_fulfillment_service.Dao.{Database, Row, Store, find_row, set_row, remove_row}
use osac_fulfillment_service.Dao.Requests.{has_row}
use osac_fulfillment_service.Dao.Rows.{Unique, row_at, set_row-Unique, remove_row-Unique}
use osac_fulfillment_service.Dao.Lifecycle.{Ends}
use osac_fulfillment_service.PublicIpAttachments.{Attachment}
use osac_fulfillment_service.PublicIpAttachments.Attaching.{ip_of, target_of}

abbrev pub Pair : Type 0
Pair = String × String

abbrev pub pair_of : Attachment → Pair
pair_of attachment = (ip_of attachment, target_of attachment)

abbrev pub pairs : List (Row Attachment) → List Pair
pairs [] = []
pairs (row ∷ rows) = pair_of row.document ∷ pairs rows

-- The second pair names the address or the instance of the first one.
abbrev pub clash : Pair → Pair → Bool
clash (ip, target) (ip', target') = ip' == ip || target' == target

-- No address and no instance stands in two pairs.
abbrev pub Exclusive : List Pair → Type 0
Exclusive [] = Unit
Exclusive (p ∷ ps) = All (λ (q : Pair). clash p q ≡ false) ps × Exclusive ps

set_row_absent :
    (new : Row Attachment) (rows : List (Row Attachment))
    → has_row new.id rows ≡ false
    → set_row new rows ≡ rows
unfolding set_row has_row
set_row_absent new [] h = refl
set_row_absent new (row ∷ rows) h = ground (arith, set_row_absent new rows)

-- Writing a row with the same pair leaves the pairs as they are.
pub pairs-set_row :
    (new old : Row Attachment) (rows : List (Row Attachment))
    → Unique rows
    → row_at new.id rows ≡ some old
    → pair_of new.document ≡ pair_of old.document
    → pairs (set_row new rows) ≡ pairs rows
unfolding set_row find_row
pairs-set_row new old [] u at same = refl
pairs-set_row new old (row ∷ rows) u at same = elim (Bool-cases (row.id == new.id)) [
  | inl here ↦
      let e : row.id ≡ new.id = (eq_iff row.id new.id).0 here in
      let found : row ≡ old = ground arith in
      let rest = set_row_absent new rows (rw e at u.0) in rw (here, rest, same, found)
  | inr there ↦
      rw there
        (ap (λ ps. pair_of row.document ∷ ps) (pairs-set_row new old rows u.1 (ground arith) same))
]

All-remove_row :
    (P : Pair → Type 0) (id : String) (rows : List (Row Attachment))
    → All P (pairs rows)
    → All P (pairs (remove_row id rows))
unfolding remove_row
All-remove_row P id [] h = tt
All-remove_row P id (row ∷ rows) h = elim (Bool-cases (row.id == id)) [
  | inl here ↦ rw here (All-remove_row P id rows h.1)
  | inr there ↦ rw there (h.0, All-remove_row P id rows h.1)
]

remove_row-Exclusive :
    (id : String) (rows : List (Row Attachment))
    → Exclusive (pairs rows)
    → Exclusive (pairs (remove_row id rows))
unfolding remove_row
remove_row-Exclusive id [] h = tt
remove_row-Exclusive id (row ∷ rows) h = elim (Bool-cases (row.id == id)) [
  | inl here ↦ rw here (remove_row-Exclusive id rows h.1)
  | inr there ↦ rw there (All-remove_row _ id rows h.0, remove_row-Exclusive id rows h.1)
]

-- Identifiers are unique, and no address and no instance stands in two attachments.
pub record IsExclusive (store : Store Attachment) : Type 0 where
  pub unique : Unique store.rows
  pub exclusive : Exclusive (pairs store.rows)

-- A request of the DAO that writes or archives a row with the pair that was there.
pub Ends-IsExclusive :
    (db : Database Attachment) (row old : Row Attachment) (s t : Store Attachment)
    → row_at row.id s.rows ≡ some old
    → pair_of row.document ≡ pair_of old.document
    → Ends db row s t
    → IsExclusive s
    → IsExclusive t
Ends-IsExclusive db row old s t at same (inl (p, r, a)) v = record {
  unique = rw r (set_row-Unique row s.rows v.unique);
  exclusive = rw (r, pairs-set_row row old s.rows v.unique at same) v.exclusive;
}
Ends-IsExclusive db row old s t at same (inr (p, r, a)) v = record {
  unique =
      rw r (remove_row-Unique row.id (set_row row s.rows) (set_row-Unique row s.rows v.unique));
  exclusive = rw r (
      remove_row-Exclusive row.id (set_row row s.rows)
        (rw (pairs-set_row row old s.rows v.unique at same) v.exclusive));
}
