-- ===== src/Dao/Selection.antt =====
-- internal/database/dao/generic_dao_list.go: which rows the where clause of a list request selects.
use osac_fulfillment_service.Prelude.{
  ℕ, ◌≤◌, Bool, true, false, ltb, not, ◌||◌, ◌&&◌, ◌≡◌, ◌≢◌, ◌∙◌, ap, inl, refl, String, some,
  arith,
}
use osac_fulfillment_service.Errors.{ok}
use osac_fulfillment_service.Prelude.Compare.{string_comparable}
use osac_fulfillment_service.Collections.{Set, contains}
use osac_fulfillment_service.Dao.{
  Row, TenancyFilter, no_filter, always_false, tenant_any, tenancy_filter, admits,
}
use osac_fulfillment_service.Dao.Rows.{admits-tenancy_filter}
use osac_fulfillment_service.Dao.Filter.{
  BinaryOp, logical_and, logical_or, Expr, operand, call, logical_not, Text, single, snoc, atom,
  join, translate, wrap_below, Translation,
}
use osac_fulfillment_service.Dao.Filter.Reading.{read}
use osac_fulfillment_service.Dao.Filter.Binding.{
  AtLeast, AtLeast-mono, AtLeast-join, translate-AtLeast,
}
use osac_fulfillment_service.Dao.Filter.Meaning.{
  value, meaning, IsReadable, precedence_of, precedence-translate, value-translate, value-join,
}
use osac_fulfillment_service.Dao.Listing.{
  numbered, where_text, selects, Conditions, apply, condition, says,
}

precedence-numbered : (e : Expr) → precedence_of (numbered e) ≡ precedence_of e
unfolding numbered
precedence-numbered (operand n) = refl
precedence-numbered (call op l r) = refl
precedence-numbered (logical_not e) = refl

numbered-IsReadable : (e : Expr) → IsReadable e → IsReadable (numbered e)
unfolding numbered
numbered-IsReadable (operand n) h = h
numbered-IsReadable (call op l r) h = (
  numbered-IsReadable l h.0,
  numbered-IsReadable r h.1,
  rw (precedence-numbered r) h.2,
  rw (precedence-numbered l) h.3,
)
numbered-IsReadable (logical_not e) h = numbered-IsReadable e h

join_assoc :
    (t : Text) (p : BinaryOp) (u : Text) (q : BinaryOp) (v : Text)
    → join t p (join u q v) ≡ join (join t p u) q v
unfolding join
join_assoc t p u q (single x) = refl
join_assoc t p u q (snoc v o x) = rw (join_assoc t p u q v)

pub and_assoc : (a b c : Bool) → ((a && b) && c) ≡ (a && (b && c))
and_assoc a b c = ground arith

pub or_assoc : (a b c : Bool) → ((a || b) || c) ≡ (a || (b || c))
or_assoc a b c = ground arith

module _ {D : Type 0} (sql : Conditions D) (clause : TenancyFilter) (row : Row D) where
  abbrev env : ℕ → Bool
  env n = condition sql clause row n

  meaning-numbered : (e : Expr) → meaning env (apply sql) not (numbered e) ≡ says sql e row
  unfolding numbered meaning
  meaning-numbered (operand n) = refl
  meaning-numbered (call op l r) = rw (meaning-numbered l, meaning-numbered r)
  meaning-numbered (logical_not e) = rw (meaning-numbered e)

  value-numbered :
      (e : Expr)
      → IsReadable e
      → value env (apply sql) not (read (translate (numbered e)).sql) ≡ says sql e row
  value-numbered e h =
      value-translate env (apply sql) not and_assoc or_assoc (numbered e) (numbered-IsReadable e h)
      ∙ meaning-numbered e

  value-tenant : value env (apply sql) not (read (single (atom 0))) ≡ admits clause row.tenant
  unfolding value read
  value-tenant = refl

  conjoined :
      (e : Expr)
      → IsReadable e
      → precedence_of e ≢ 0
      → value env
          (apply sql)
          not
          (read (join (single (atom 0)) logical_and (translate (numbered e)).sql))
        ≡ (admits clause row.tenant && says sql e row)
  conjoined e h tight =
      let t = translate (numbered e) in
      let low : 1 ≤ t.precedence =
        omega (arith, precedence-translate (numbered e), precedence-numbered e) in
      value-join env (apply sql) not and_assoc or_assoc (single (atom 0)) logical_and t.sql
        (omega arith) (AtLeast-mono 1 t.precedence t.sql low (translate-AtLeast (numbered e)))
        (inl refl)
      ∙ rw (value-tenant, value-numbered e h)

  unwrapped : (t : Translation) → AtLeast t.precedence t.sql → AtLeast 0 (wrap_below 0 t)
  unwrapped t h =
      let no : ltb t.precedence 0 ≡ false = ground arith in
      rw no (AtLeast-mono 0 t.precedence t.sql (omega arith) h)

  conjoined_or :
      (a b : Expr)
      → IsReadable b
      → says sql b row ≡ true
      → value env (apply sql) not (
          read
            (join (single (atom 0)) logical_and (translate (numbered (call logical_or a b))).sql))
        ≡ true
  unfolding numbered translate
  conjoined_or a b h hit =
      let ta = translate (numbered a) in
      let tb = translate (numbered b) in
      let left = join (single (atom 0)) logical_and (wrap_below 0 ta) in
      let low_b = unwrapped tb (translate-AtLeast (numbered b)) in
      let low_a : AtLeast 0 left =
        AtLeast-join 0 (single (atom 0)) logical_and (wrap_below 0 ta) (omega arith) (omega arith)
          (unwrapped ta (translate-AtLeast (numbered a))) in
      let plain : wrap_below 0 tb ≡ tb.sql =
        (let no : ltb tb.precedence 0 ≡ false = ground arith in rw no refl) in
      let right : value env (apply sql) not (read (wrap_below 0 tb)) ≡ true =
        rw plain (value-numbered b h ∙ hit) in
      ap (λ t. value env (apply sql) not (read t))
        (join_assoc (single (atom 0)) logical_and (wrap_below 0 ta) logical_or (wrap_below 0 tb))
      ∙ value-join env (apply sql) not and_assoc or_assoc left logical_or (wrap_below 0 tb) low_a
          low_b (inl refl)
      ∙ rw right (ground arith)

module _ {D : Type 0} (sql : Conditions D) where
  selects_conjoined :
      (clause : TenancyFilter) (e : Expr) (row : Row D)
      → clause ≢ no_filter
      → IsReadable e
      → precedence_of e ≢ 0
      → selects sql clause (some e) row ≡ (admits clause row.tenant && says sql e row)
  unfolding selects where_text
  selects_conjoined no_filter e row c h tight = absurd (c refl)
  selects_conjoined always_false e row c h tight = conjoined sql always_false row e h tight
  selects_conjoined (tenant_any ids) e row c h tight = conjoined sql (tenant_any ids) row e h tight

  selects_unrestricted :
      (e : Expr) (row : Row D) → IsReadable e → selects sql no_filter (some e) row ≡ says sql e row
  unfolding selects where_text
  selects_unrestricted e row h = value-numbered sql no_filter row e h

  -- A list request whose filter does not have `||` as its outermost operator selects exactly the
  -- rows whose tenant the caller sees and that the filter selects, for a filter that PostgreSQL
  -- reads as it was written.
  pub selects_visible :
      (visible : Set String) (clause : TenancyFilter) (e : Expr) (row : Row D)
      → tenancy_filter visible ≡ ok clause
      → IsReadable e
      → precedence_of e ≢ 0
      → selects sql clause (some e) row ≡ (contains visible row.tenant && says sql e row)
  unfolding admits
  selects_visible visible no_filter e row c h tight =
      selects_unrestricted e row h
      ∙ ap (λ seen. seen && says sql e row) (admits-tenancy_filter visible no_filter row.tenant c)
  selects_visible visible clause e row c h tight =
      selects_conjoined clause e row (ground arith) h tight
      ∙ ap (λ seen. seen && says sql e row) (admits-tenancy_filter visible clause row.tenant c)

  -- A list request whose filter is `a || b` selects every row that `b` selects, whatever the
  -- tenants that the caller sees: the filter stands behind the condition on the tenant without
  -- parentheses. PostgreSQL is to read `a` and `b` as they were written.
  pub or_filter_escapes :
      (clause : TenancyFilter) (a b : Expr) (row : Row D)
      → IsReadable a
      → IsReadable b
      → says sql b row ≡ true
      → selects sql clause (some (call logical_or a b)) row ≡ true
  unfolding selects where_text meaning
  or_filter_escapes no_filter a b row g h hit =
      value-numbered sql no_filter row (call logical_or a b) (g, h, refl, refl)
      ∙ rw hit (ground arith)
  or_filter_escapes always_false a b row g h hit = conjoined_or sql always_false row a b h hit
  or_filter_escapes (tenant_any ids) a b row g h hit =
      conjoined_or sql (tenant_any ids) row a b h hit
