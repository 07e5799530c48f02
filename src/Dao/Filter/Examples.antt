-- ===== src/Dao/Filter/Examples.antt =====
-- internal/database/dao: the theorems on filters at concrete filters.
use osac_fulfillment_service.Prelude.{
  ℕ, Bool, true, false, not, ◌&&◌, ◌-◌, ◌≡◌, ◌≢◌, refl, String, [], ◌∷◌, some, eqb, arith,
}
use osac_fulfillment_service.Prelude.Compare.{string_comparable}
use osac_fulfillment_service.Prelude.Sort.{sort_strings, insert_sorted}
use osac_fulfillment_service.Errors.{ok}
use osac_fulfillment_service.Collections.{Set, contains, empty, universal, inclusions}
use osac_fulfillment_service.Prelude.{All, length, ◌≤◌}
use osac_fulfillment_service.Prelude.Int.{pos}
use osac_fulfillment_service.Errors.{err}
use osac_fulfillment_service.Collections.Maps.{has_key}
use osac_fulfillment_service.Dao.{Store, admits, object_of, make_metadata}
use osac_fulfillment_service.Dao.Listing.{
  ListResponse, list, matching, where_text, numbered, order_by_id, insert_by_id, page_limit,
}
use osac_fulfillment_service.Dao.Page.{IsListed, list_sound}
use osac_fulfillment_service.Dao.{Row, TenancyFilter, tenant_any, tenancy_filter}
use osac_fulfillment_service.Dao.Filter.{
  BinaryOp, logical_and, logical_or, Expr, operand, call, logical_not, translate,
}
use osac_fulfillment_service.Dao.Filter.Reading.{read}
use osac_fulfillment_service.Dao.Filter.Meaning.{
  meaning, value, IsReadable, precedence_of, value-translate,
}
use osac_fulfillment_service.Dao.Listing.{Conditions, selects, says, apply}
use osac_fulfillment_service.Dao.Selection.{selects_visible, or_filter_escapes, and_assoc, or_assoc}

abbrev either : Expr
either = call logical_or (operand 0) (logical_not (operand 1))

-- Conditions on a row whose document is a number: its value is 10, and it is 11.
abbrev sql : Conditions ℕ
sql = record { holds = λ n row. eqb row.document (11 - n); other = λ op a b. false }

abbrev env : ℕ → Bool
env n = eqb n 0

either-IsReadable : IsReadable either
either-IsReadable = (tt, tt, refl, refl)

value-translate_example :
    value env (apply sql) not (read (translate either).sql) ≡ meaning env (apply sql) not either
value-translate_example =
    value-translate env (apply sql) not and_assoc or_assoc either either-IsReadable

abbrev numbers : BinaryOp → ℕ → ℕ → ℕ
numbers op a b = a - b

abbrev acme : Set String
acme = record { infinite = false; items = "acme" ∷ [] }

abbrev acme_clause : TenancyFilter
acme_clause = tenant_any ("acme" ∷ [])

clause_of_acme : tenancy_filter acme ≡ ok acme_clause
unfolding tenancy_filter universal empty inclusions sort_strings insert_sorted
clause_of_acme = refl

abbrev globex_row : Row ℕ
globex_row = record {
  id = "c2";
  name = "two";
  creation_timestamp = 3;
  deletion_timestamp = 0;
  finalizers = [];
  creator = "bob";
  tenant = "globex";
  project = "";
  labels = [];
  annotations = [];
  version = 0;
  document = 10;
}

abbrev both : Expr
both = call logical_and (operand 0) (operand 1)

both-IsReadable : IsReadable both
both-IsReadable = (tt, tt, refl, refl)

both_tight : precedence_of both ≢ 0
both_tight = ground arith

selects_visible_example :
    selects sql acme_clause (some both) globex_row
    ≡ (contains acme globex_row.tenant && says sql both globex_row)
selects_visible_example =
    selects_visible sql acme acme_clause both globex_row clause_of_acme both-IsReadable both_tight

said : says sql (operand 1) globex_row ≡ true
unfolding meaning
said = refl

or_filter_escapes_example :
    selects sql acme_clause (some (call logical_or (operand 0) (operand 1))) globex_row ≡ true
or_filter_escapes_example =
    or_filter_escapes sql acme_clause (operand 0) (operand 1) globex_row tt tt said

abbrev table : Store ℕ
table = record {
  rows = globex_row ∷ record globex_row { id = "c1"; tenant = "acme" } ∷ [];
  archived = [];
  events = [];
}

abbrev response : ListResponse ℕ
response = elim (list sql 100 1000 acme (some (operand 1)) (pos 0) (pos 5) table) [
  | ok page ↦ page
  | err e ↦ record { size = 0; total = 0; items = [] }
]

listing : list sql 100 1000 acme (some (operand 1)) (pos 0) (pos 5) table ≡ ok response
unfolding list matching selects where_text numbered translate read value order_by_id insert_by_id
    tenancy_filter universal empty inclusions sort_strings insert_sorted admits has_key object_of
    make_metadata
listing = refl

operand_tight : precedence_of (operand 1) ≢ 0
operand_tight = ground arith

list_sound_example :
    All (IsListed sql 100 1000 acme (operand 1) table.rows) response.items
    × (response.size ≡ length response.items)
    × (response.size ≤ page_limit 100 1000 (pos 5))
list_sound_example =
    list_sound sql 100 1000 acme (operand 1) (pos 0) (pos 5) table response tt operand_tight listing
