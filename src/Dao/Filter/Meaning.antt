-- ===== src/Dao/Filter/Meaning.antt =====
-- internal/database/dao/filter_translator.go: the SQL text means what the filter means.
use osac_fulfillment_service.Prelude.{
  ℕ, suc, ◌≤◌, ◌<◌, true, false, ◌≡◌, ◌∙◌, ◌⊎◌, inl, inr, refl, ap, ltb, eqb, ◌&&◌, ◌||◌, not,
  arith, Bool-cases,
}
use osac_fulfillment_service.Dao.Filter.{
  BinaryOp, logical_and, logical_or, Expr, operand, call, logical_not, Text, single, snoc, Operand,
  atom, group, negated, join, wrap_below, precedence, not_precedence, max_precedence, Translation,
  translate,
}
use osac_fulfillment_service.Dao.Filter.Reading.{
  Tree, leaf, paren, node, negation, push, read, read_operand, top, push-top,
}
use osac_fulfillment_service.Dao.Filter.Binding.{
  is_logical, IsLogical, logical_only, logical_loose, precedence_bound, AtLeast, top-push, top-read,
  AtLeast-mono, AtLeast-wrap_below, precedence_small, translate-AtLeast, read-join, read-prefix_not,
}

-- `s` is `u` with `t op` put before the operands that `op` joins.
data Prefixed (op : BinaryOp) (t : Tree) : Tree → Tree → Type 0 where
  first : (u : Tree) → suc (precedence op) ≤ top u → Prefixed op t (node op t u) u
  later : {s u : Tree} (x : Tree) → Prefixed op t s u → Prefixed op t (node op s x) (node op u x)

Prefixed-top :
    {op : BinaryOp} {t s u : Tree}
    → Prefixed op t s u
    → (precedence op ≤ top s) × (precedence op ≤ top u)
Prefixed-top (first u h) = (omega arith, omega arith)
Prefixed-top (later x p) = (omega arith, omega arith)

operand_top : {k : ℕ} (x : Operand) → k ≤ not_precedence → k ≤ top (read_operand x)
unfolding read
operand_top (atom n) h = omega arith
operand_top (group t) h = omega arith
operand_top (negated x) h = h

module _ (op : BinaryOp) (logical : IsLogical op) (t : Tree) where
  push-loose :
      {s u : Tree} (x : Tree) → Prefixed op t s u → Prefixed op t (push s op x) (push u op x)
  push-loose {s} {u} x p =
      let tops = Prefixed-top p in rw (push-top s op x tops.0, push-top u op x tops.1) (later x p)

  push-tight :
      {s u : Tree} (o : BinaryOp) (x : Tree)
      → precedence op < precedence o
      → Prefixed op t s u
      → Prefixed op t (push s o x) (push u o x)
  unfolding push
  push-tight o x h (first u i) =
      let e : ltb (precedence op) (precedence o) ≡ true = ground arith in
      rw e (first (push u o x) (top-push (suc (precedence op)) u o x i h))
  push-tight o x h (later y p) =
      let e : ltb (precedence op) (precedence o) ≡ true = ground arith in
      rw e (later (push y o x) p)

  push-Prefixed :
      {s u : Tree} (o : BinaryOp) (x : Tree)
      → precedence op ≤ precedence o
      → Prefixed op t s u
      → Prefixed op t (push s o x) (push u o x)
  push-Prefixed {s} {u} o x h p = elim (Bool-cases (ltb (precedence op) (precedence o))) [
    | inl b ↦ push-tight o x (ground arith) p
    | inr b ↦ rw (logical_only op o logical (ground arith)) (push-loose x p)
  ]

  read-join-Prefixed :
      (left u : Text)
      → read left ≡ t
      → AtLeast (precedence op) left
      → AtLeast (precedence op) u
      → Prefixed op t (read (join left op u)) (read u)
  unfolding read join
  read-join-Prefixed left (single x) e a b =
      let low : precedence op ≤ top t = rw (← e) (top-read (precedence op) left a) in
      rw (e, push-top t op (read_operand x) low)
        (first (read_operand x) (operand_top x (logical_loose op logical)))
  read-join-Prefixed left (snoc u o x) e a b =
      push-Prefixed o (read_operand x) b.1 (read-join-Prefixed left u e a b.0)

abbrev pub precedence_of : Expr → ℕ
precedence_of (operand n) = max_precedence
precedence_of (call op l r) = precedence op
precedence_of (logical_not e) = not_precedence

pub precedence-translate : (e : Expr) → (translate e).precedence ≡ precedence_of e
unfolding translate
precedence-translate (operand n) = refl
precedence-translate (call op l r) = refl
precedence-translate (logical_not e) = refl

-- No right operand has an operator of the precedence of its parent, unless that is `&&` or `||`; and
-- no left operand of a comparison is a comparison, which PostgreSQL would refuse.
abbrev pub IsReadable : Expr → Type 0
IsReadable (operand n) = Unit
IsReadable (call op l r) =
    IsReadable l
    × IsReadable r
    × ((is_logical op || not (eqb (precedence_of r) (precedence op))) ≡ true)
    × (not (eqb (precedence op) 3 && eqb (precedence_of l) 3) ≡ true)
IsReadable (logical_not e) = IsReadable e

atom_unwrapped : (op : BinaryOp) → ltb max_precedence (precedence op) ≡ false
atom_unwrapped op = ground arith

right_operand :
    (op : BinaryOp) (r : Expr)
    → (is_logical op || not (eqb (precedence_of r) (precedence op))) ≡ true
    → IsLogical op ⊎ AtLeast (suc (precedence op)) (wrap_below (precedence op) (translate r))
right_operand op r h = elim (Bool-cases (is_logical op)) [
  | inl l ↦ inl l
  | inr n ↦ inr (elim (Bool-cases (ltb (translate r).precedence (precedence op))) [
    | inl b ↦ rw b (omega (arith, precedence_bound op))
    | inr b ↦ rw b (
        AtLeast-mono (suc (precedence op)) (translate r).precedence (translate r).sql
          (ground (arith, precedence-translate r)) (translate-AtLeast r))
  ])
]

-- What an expression means, for any meaning of the operands and of the operators.
module _ {V : Type 0} (env : ℕ → V) (apply : BinaryOp → V → V → V) (complement : V → V) where
  unfoldable pub meaning : Expr → V
  meaning (operand n) = env n
  meaning (call op l r) = apply op (meaning l) (meaning r)
  meaning (logical_not e) = complement (meaning e)

  unfoldable pub value : Tree → V
  value (leaf n) = env n
  value (paren t) = value t
  value (node op l r) = apply op (value l) (value r)
  value (negation t) = complement (value t)

  abbrev pub Associative : BinaryOp → Type 0
  Associative op = (a b c : V) → apply op (apply op a b) c ≡ apply op a (apply op b c)

  value-Prefixed :
      {op : BinaryOp} {t s u : Tree}
      → Associative op
      → Prefixed op t s u
      → value s ≡ apply op (value t) (value u)
  unfolding value
  value-Prefixed assoc (first u h) = refl
  value-Prefixed {op} {t} assoc (later {s} {u} x p) =
      rw (value-Prefixed assoc p) (assoc (value t) (value u) (value x))

  module _ (assoc_and : Associative logical_and) (assoc_or : Associative logical_or) where
    assoc_of : (op : BinaryOp) → IsLogical op → Associative op
    assoc_of logical_and l = assoc_and
    assoc_of logical_or l = assoc_or
    assoc_of _ l = cc

    pub value-join :
        (left : Text) (op : BinaryOp) (right : Text)
        → AtLeast (precedence op) left
        → AtLeast (precedence op) right
        → (IsLogical op ⊎ AtLeast (suc (precedence op)) right)
        → value (read (join left op right)) ≡ apply op (value (read left)) (value (read right))
    unfolding value
    value-join left op right a b (inl l) =
        value-Prefixed (assoc_of op l) (read-join-Prefixed op l (read left) left right refl a b)
    value-join left op right a b (inr tight) = rw (read-join left op right a tight)

    value-wrap_below :
        (p : ℕ) (t : Translation) → value (read (wrap_below p t)) ≡ value (read t.sql)
    unfolding read value
    value-wrap_below p t = ground arith

    value-not :
        (e : Expr)
        → value (read (translate e).sql) ≡ meaning e
        → value (read (translate (logical_not e)).sql) ≡ meaning (logical_not e)
    unfolding translate meaning value
    value-not e h =
        let t = wrap_below not_precedence (translate e) in
        let reads =
          read-prefix_not t
            (AtLeast-wrap_below not_precedence (translate e) (omega arith) (translate-AtLeast e)) in
        ap value reads ∙ ap complement (value-wrap_below not_precedence (translate e) ∙ h)

    -- PostgreSQL reads the text of a filter as the filter: for any meaning of the operands and
    -- operators in which `&&` and `||` are associative, the value of the text is the meaning of the
    -- expression, if no right operand has an operator of its parent's precedence other than `&&`
    -- and `||`, and no comparison is the left operand of a comparison.
    pub value-translate : (e : Expr) → IsReadable e → value (read (translate e).sql) ≡ meaning e
    unfolding translate meaning
    value-translate (operand n) h = unfold value read in refl
    value-translate (call op l r) h =
        let p = precedence op in
        let left = wrap_below p (translate l) in
        let right = wrap_below p (translate r) in
        value-join left op right
          (AtLeast-wrap_below p (translate l) (precedence_small op) (translate-AtLeast l))
          (AtLeast-wrap_below p (translate r) (precedence_small op) (translate-AtLeast r))
          (right_operand op r h.2)
        ∙ ap (λ v. apply op v (value (read right)))
            (value-wrap_below p (translate l) ∙ value-translate l h.0)
        ∙ ap (apply op (meaning l)) (value-wrap_below p (translate r) ∙ value-translate r h.1)
    value-translate (logical_not e) h = value-not e (value-translate e h)

  -- A right operand of its parent's precedence loses its parentheses: `a op (b o c)` is read as
  -- `(a op b) o c`, for operands a, b and c and any meaning of the operators. So `a - (b - c)`
  -- is read as `(a - b) - c`.
  pub same_precedence_regroups :
      (op o : BinaryOp) (a b c : ℕ)
      → precedence o ≡ precedence op
      → value (read (translate (call op (operand a) (call o (operand b) (operand c)))).sql)
        ≡ apply o (apply op (env a) (env b)) (env c)
  unfolding translate join read push value
  same_precedence_regroups op o a b c h =
      let p : ltb (precedence o) (precedence op) ≡ false = ground arith in
      let q : ltb (precedence op) (precedence o) ≡ false = ground arith in
      rw (atom_unwrapped op, atom_unwrapped o, p) (unfold join read push value in rw q)
