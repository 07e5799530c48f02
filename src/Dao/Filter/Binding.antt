-- ===== src/Dao/Filter/Binding.antt =====
-- internal/database/dao/filter_translator.go: how tight the operators of the SQL text bind.
use osac_fulfillment_service.Prelude.{
  ℕ, suc, ◌≤◌, Bool, true, false, ◌≡◌, ◌≢◌, inl, inr, refl, ltb, arith, Bool-cases,
}
use osac_fulfillment_service.Dao.Filter.{
  BinaryOp, logical_and, logical_or, Expr, operand, call, logical_not, Text, single, snoc, Operand,
  atom, group, negated, join, prefix_not, wrap_below, precedence, not_precedence, max_precedence,
  Translation, translate,
}
use osac_fulfillment_service.Dao.Filter.Reading.{
  Tree, leaf, paren, node, negation, push, read, read_operand, top, push-top,
}

abbrev pub is_logical : BinaryOp → Bool
is_logical logical_and = true
is_logical logical_or = true
is_logical _ = false

abbrev pub IsLogical : BinaryOp → Type 0
IsLogical op = is_logical op ≡ true

pub logical_only : (op o : BinaryOp) → IsLogical op → precedence o ≡ precedence op → o ≡ op
logical_only op o l h = ground arith

pub logical_loose : (op : BinaryOp) → IsLogical op → suc (precedence op) ≤ not_precedence
logical_loose op l = ground arith

precedence_ne_not : (op : BinaryOp) → precedence op ≢ not_precedence
precedence_ne_not op = ground arith

pub precedence_bound : (op : BinaryOp) → precedence op ≤ 8
precedence_bound op = ground arith

-- Every operator outside parentheses binds at least as tight as `k`.
abbrev OperandAtLeast : ℕ → Operand → Type 0
OperandAtLeast k (negated x) = k ≤ not_precedence
OperandAtLeast k _ = k ≤ max_precedence

abbrev pub AtLeast : ℕ → Text → Type 0
AtLeast k (single x) = OperandAtLeast k x
AtLeast k (snoc t o x) = AtLeast k t × (k ≤ precedence o)

pub top-push :
    (k : ℕ) (t : Tree) (o : BinaryOp) (x : Tree)
    → k ≤ top t
    → k ≤ precedence o
    → k ≤ top (push t o x)
unfolding push
top-push k (node p l r) o x h i = ground arith
top-push k (negation t) o x h i = ground arith
top-push k (leaf n) o x h i = i
top-push k (paren t) o x h i = i

pub top-read : (k : ℕ) (t : Text) → AtLeast k t → k ≤ top (read t)
unfolding read
top-read k (single (atom n)) h = h
top-read k (single (group t)) h = h
top-read k (single (negated x)) h = h
top-read k (snoc t o x) h = top-push k (read t) o (read_operand x) (top-read k t h.0) h.1

pub AtLeast-mono : (j k : ℕ) (t : Text) → j ≤ k → AtLeast k t → AtLeast j t
AtLeast-mono j k (single (atom n)) le h = omega arith
AtLeast-mono j k (single (group t)) le h = omega arith
AtLeast-mono j k (single (negated x)) le h = omega arith
AtLeast-mono j k (snoc t o x) le h = (AtLeast-mono j k t le h.0, omega arith)

pub AtLeast-join :
    (k : ℕ) (t : Text) (op : BinaryOp) (u : Text)
    → AtLeast k t
    → k ≤ precedence op
    → AtLeast k u
    → AtLeast k (join t op u)
unfolding join
AtLeast-join k t op (single x) a h b = (a, h)
AtLeast-join k t op (snoc u o x) a h b = (AtLeast-join k t op u a h b.0, b.1)

AtLeast-prefix_not : (t : Text) → AtLeast not_precedence t → AtLeast not_precedence (prefix_not t)
unfolding prefix_not
AtLeast-prefix_not (single x) h = omega arith
AtLeast-prefix_not (snoc t o x) h = (AtLeast-prefix_not t h.0, h.1)

pub AtLeast-wrap_below :
    (p : ℕ) (t : Translation)
    → p ≤ max_precedence
    → AtLeast t.precedence t.sql
    → AtLeast p (wrap_below p t)
AtLeast-wrap_below p t small h = elim (Bool-cases (ltb t.precedence p)) [
  | inl b ↦ rw b small
  | inr b ↦ rw b (AtLeast-mono p t.precedence t.sql (ground arith) h)
]

pub precedence_small : (op : BinaryOp) → precedence op ≤ max_precedence
precedence_small op = ground arith

pub translate-AtLeast : (e : Expr) → AtLeast (translate e).precedence (translate e).sql
unfolding translate
translate-AtLeast (operand n) = omega arith
translate-AtLeast (call op l r) =
    AtLeast-join (precedence op) (wrap_below (precedence op) (translate l)) op
      (wrap_below (precedence op) (translate r))
      (AtLeast-wrap_below (precedence op) (translate l) (precedence_small op) (translate-AtLeast l))
      (omega arith)
      (AtLeast-wrap_below (precedence op) (translate r) (precedence_small op) (translate-AtLeast r))
translate-AtLeast (logical_not e) =
    AtLeast-prefix_not (wrap_below not_precedence (translate e))
      (AtLeast-wrap_below not_precedence (translate e) (omega arith) (translate-AtLeast e))

-- A text whose operators bind tighter than `op` is its right operand.
pub read-join :
    (t : Text) (op : BinaryOp) (u : Text)
    → AtLeast (precedence op) t
    → AtLeast (suc (precedence op)) u
    → read (join t op u) ≡ node op (read t) (read u)
unfolding read join push
read-join t op (single x) a b = push-top (read t) op (read_operand x) (top-read (precedence op) t a)
read-join t op (snoc u o x) a b = rw (read-join t op u a b.0) (ground arith)

pub read-prefix_not :
    (t : Text) → AtLeast not_precedence t → read (prefix_not t) ≡ negation (read t)
unfolding read prefix_not push
read-prefix_not (single x) h = refl
read-prefix_not (snoc t o x) h = rw (read-prefix_not t h.0) (ground (arith, precedence_ne_not o))
