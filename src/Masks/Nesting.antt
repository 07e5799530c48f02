-- ===== src/Masks/Nesting.antt =====
-- internal/masks/mask_path.go and internal/servers/generic_server.go: an update with paths into a field
-- that is a message.
use osac_fulfillment_service.Prelude.{
  false, ◌≡◌, ◌≢◌, refl, ap, ◌∙◌, inl, inr, String, List, [], ◌∷◌, ◌++◌, map, Option, none, some,
  Option-cases,
}
use osac_fulfillment_service.Prelude.Compare.{◌==◌, string_comparable}
use osac_fulfillment_service.Prelude.Int.{ℤ}
use osac_fulfillment_service.Masks.{
  Kind, scalar_kind, message_kind, list_kind, map_kind, Field, Schema, Value, message, Fields,
  lookup, put, get_field, Outcome, done, failed, panicked, ◌>>=◌,
}
use osac_fulfillment_service.Masks.Paths.{
  PathStep, field_step, list_index, get, get_step, set, descend, clear, enter,
}
use osac_fulfillment_service.Masks.Compiler.{by_name, compile, prepend, compile_step, next_type}
use osac_fulfillment_service.Masks.Calculator.{FieldPath, below}
use osac_fulfillment_service.Masks.Merging.{set_or_clear, merge_steps, merge_path, merge_paths}
use osac_fulfillment_service.Masks.Slots.{lookup-put_self, lookup-put_other}

pub >>=-done {ℓ κ} :
    {A : Type ℓ} {B : Type κ} (m : Outcome A) (f : A → Outcome B) {b : B}
    → (m >>= f) ≡ done b
    → (a : A) × (m ≡ done a) × (f a ≡ done b)
>>=-done (done a) f h = (a, refl, h)
>>=-done failed f h = cc
>>=-done panicked f h = cc

-- What an update with a path does to a message that both objects have is what it does in the message.
module _ (schema : Schema) (atoi : String → Option ℤ) where
  prepend-ne-nil : (step : PathStep) (o : Outcome (List PathStep)) → prepend step o ≢ done []
  prepend-ne-nil step (done steps) h = cc
  prepend-ne-nil step failed h = cc
  prepend-ne-nil step panicked h = cc

  compile_step-ne-nil :
      (field : Field) (second : String) (from_second from_third : Outcome (List PathStep))
      (kind : Kind)
      → compile_step schema atoi field second from_second from_third kind ≢ done []
  compile_step-ne-nil field second o p (list_kind element) h = elim (Option-cases (atoi second)) [
    | inl missing ↦ let e = rw missing at h in cc
    | inr (index, found) ↦ prepend-ne-nil (list_index field index) p (rw found at h)
  ]
  compile_step-ne-nil field second o p (map_kind element) h = prepend-ne-nil _ p h
  compile_step-ne-nil field second o p (scalar_kind tracked z) h = prepend-ne-nil _ o h
  compile_step-ne-nil field second o p (message_kind t) h = prepend-ne-nil _ o h

  compile-ne-nil :
      (type_name name : String) (rest : List String)
      → compile schema atoi type_name (name ∷ rest) ≢ done []
  unfolding compile
  compile-ne-nil type_name name [] h =
      elim (Option-cases (by_name name (schema.fields type_name))) [
        | inl missing ↦ let e = rw missing at h in cc
        | inr (field, found) ↦ let e = rw found at h in cc
      ]
  compile-ne-nil type_name name (second ∷ rest) h =
      elim (Option-cases (by_name name (schema.fields type_name))) [
        | inl missing ↦ let e = rw missing at h in cc
        | inr (field, found) ↦ compile_step-ne-nil field second _ _ field.kind (rw found at h)
      ]

  compile_step-message :
      (type_name inner : String) (field : Field) (first : String) (rest : List String) (kind : Kind)
      → kind ≡ message_kind inner
      → compile_step schema atoi field first
          (compile schema atoi (next_type kind type_name) (first ∷ rest))
          (compile schema atoi (next_type kind type_name) rest)
          kind
        ≡ prepend (field_step field) (compile schema atoi inner (first ∷ rest))
  compile_step-message type_name inner field first rest kind e = rw e

  compile-below :
      (type_name inner : String) (field : Field) (first : String) (rest : List String)
      → by_name field.name (schema.fields type_name) ≡ some field
      → field.kind ≡ message_kind inner
      → compile schema atoi type_name (field.name ∷ first ∷ rest)
        ≡ prepend (field_step field) (compile schema atoi inner (first ∷ rest))
  unfolding compile
  compile-below type_name inner field first rest listed kind =
      rw listed (compile_step-message type_name inner field first rest field.kind kind)

  get-below :
      (field : Field) (steps : List PathStep) (a ma : Fields)
      → get_field field a ≡ some (message ma)
      → get (field_step field ∷ steps) (message a) ≡ get steps (message ma)
  unfolding get_step get
  get-below field steps a ma in_a = rw in_a

  set_or_clear-below :
      (field : Field) (step : PathStep) (steps : List PathStep) (r x : Fields)
      → get_field field r ≡ some (message x)
      → (value : Option Value)
      → set_or_clear (field_step field ∷ step ∷ steps) value r
        ≡ (set_or_clear (step ∷ steps) value x >>= λ y. done (put field.name (message y) r))
  unfolding set clear descend enter
  set_or_clear-below field step steps r x in_r (some value) = rw in_r
  set_or_clear-below field step steps r x in_r none = rw (in_r, clear)

  bind-lift :
      (outcome : Outcome (Option Value)) (f g : Option Value → Outcome Fields)
      (k : Fields → Outcome Fields)
      → ((value : Option Value) → f value ≡ (g value >>= k))
      → (outcome >>= f) ≡ ((outcome >>= g) >>= k)
  bind-lift (done value) f g k same = same value
  bind-lift failed f g k same = refl
  bind-lift panicked f g k same = refl

  merge_steps-below :
      (field : Field) (step : PathStep) (steps : List PathStep) (a r ma x : Fields)
      → get_field field a ≡ some (message ma)
      → get_field field r ≡ some (message x)
      → merge_steps (field_step field ∷ step ∷ steps) a r
        ≡ (merge_steps (step ∷ steps) ma x >>= λ y. done (put field.name (message y) r))
  unfolding merge_steps
  merge_steps-below field step steps a r ma x in_a in_r =
      rw (get-below field (step ∷ steps) a ma in_a) (
        bind-lift (get (step ∷ steps) (message ma)) _ _ _
          (set_or_clear-below field step steps r x in_r))

  module _ (field : Field) (a r ma x y : Fields) (in_a : get_field field a ≡ some (message ma))
      (in_r : get_field field r ≡ some (message x)) where
    merge-prepend :
        (compiled : Outcome (List PathStep))
        → compiled ≢ done []
        → (compiled >>= λ steps. merge_steps steps ma x) ≡ done y
        → (prepend (field_step field) compiled >>= λ steps. merge_steps steps a r)
          ≡ done (put field.name (message y) r)
    merge-prepend (done []) proper h = absurd (proper refl)
    merge-prepend (done (step ∷ steps)) proper h =
        rw (merge_steps-below field step steps a r ma x in_a in_r, h)
    merge-prepend failed proper h = absurd (cc)
    merge-prepend panicked proper h = absurd (cc)

    -- A whole path.
    merge_path-below :
        (type_name inner : String) (path : FieldPath)
        → by_name field.name (schema.fields type_name) ≡ some field
        → field.kind ≡ message_kind inner
        → merge_path schema atoi inner ma path x ≡ done y
        → merge_path schema atoi type_name a (below field.name path) r
          ≡ done (put field.name (message y) r)
    merge_path-below type_name inner (first, rest) listed kind h =
        rw (compile-below type_name inner field first rest listed kind) (
          merge-prepend (compile schema atoi inner (first ∷ rest)) (compile-ne-nil inner first rest)
            h)

  pub merge_paths-cons :
      (type_name : String) (a : Fields) (path : FieldPath) (paths : List FieldPath) (r y : Fields)
      → merge_path schema atoi type_name a path r ≡ done y
      → merge_paths schema atoi type_name a (path ∷ paths) r
        ≡ merge_paths schema atoi type_name a paths y
  unfolding merge_paths
  merge_paths-cons type_name a path paths r y h = rw h

  pub merge_paths-append :
      (type_name : String) (a : Fields) (ps qs : List FieldPath) (r y : Fields)
      → merge_paths schema atoi type_name a ps r ≡ done y
      → merge_paths schema atoi type_name a (ps ++ qs) r ≡ merge_paths schema atoi type_name a qs y
  unfolding merge_paths
  merge_paths-append type_name a [] qs r y h = ap (merge_paths schema atoi type_name a qs) (cc)
  merge_paths-append type_name a (p ∷ ps) qs r y h =
      let (next, first, others) = >>=-done (merge_path schema atoi type_name a p r) _ h in
      rw first (merge_paths-append type_name a ps qs next y others)

  -- Paths in a field: the other fields stay as they are.
  pub merge_paths-below :
      (type_name inner : String) (field : Field) (a ma : Fields)
      → by_name field.name (schema.fields type_name) ≡ some field
      → field.kind ≡ message_kind inner
      → lookup field.name a ≡ some (message ma)
      → (paths : List FieldPath) (r x y : Fields) → lookup field.name r ≡ some (message x)
      → merge_paths schema atoi inner ma paths x ≡ done y
      → (r' : Fields) × (merge_paths schema atoi type_name a (map (below field.name) paths) r
          ≡ done r')
        × (lookup field.name r' ≡ some (message y))
        × ((key : String) → (field.name == key) ≡ false → lookup key r' ≡ lookup key r)
  unfolding merge_paths
  merge_paths-below type_name inner field a ma listed kind in_a [] r x y in_r h =
      (r, refl, in_r ∙ (let e : x ≡ y = cc in rw e), λ key differ. refl)
  merge_paths-below type_name inner field a ma listed kind in_a (path ∷ paths) r x y in_r h =
      let (next, first, others) = >>=-done (merge_path schema atoi inner ma path x) _ h in
      let here =
        merge_path-below field a r ma x next (rw (in_a, kind)) (rw (in_r, kind)) type_name inner
          path listed kind first in
      let (r', done_rest, at_rest, same) =
        merge_paths-below type_name inner field a ma listed kind in_a paths
          (put field.name (message next) r) next y (lookup-put_self field.name (message next) r)
          others in
      (
        r',
        rw here done_rest,
        at_rest,
        λ key differ. same key differ ∙ lookup-put_other field.name key r differ (message next),
      )
