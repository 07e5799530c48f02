-- ===== src/Dao/Filter/Reading.antt =====
-- How PostgreSQL reads the text of a where clause: operators of higher precedence bind tighter, and
-- those of one precedence group to the left. (It refuses a chain of comparisons.)
use osac_fulfillment_service.Prelude.{ℕ, ◌≤◌, ◌≡◌, refl, ltb, arith, if◌then◌else◌}
use osac_fulfillment_service.Dao.Filter.{
  BinaryOp, Text, single, snoc, Operand, atom, group, negated, precedence, not_precedence,
  max_precedence,
}

pub data Tree : Type 0 where
  leaf : ℕ → Tree
  paren : Tree → Tree
  node : BinaryOp → Tree → Tree → Tree
  negation : Tree → Tree

-- The next operator and operand, after what was read so far.
unfoldable pub push : Tree → BinaryOp → Tree → Tree
push (node o l r) op x =
    let inner = push r op x in
    if ltb (precedence o) (precedence op) then node o l inner else node op (node o l r) x
push (negation t) op x =
    let inner = push t op x in
    if ltb not_precedence (precedence op) then negation inner else node op (negation t) x
push (leaf n) op x = node op (leaf n) x
push (paren t) op x = node op (paren t) x

unfoldable mutual
  pub read : Text → Tree
  read (single x) = read_operand x
  read (snoc t op x) = push (read t) op (read_operand x)

  pub read_operand : Operand → Tree
  read_operand (atom n) = leaf n
  read_operand (group t) = paren (read t)
  read_operand (negated x) = negation (read_operand x)

-- The precedence at the top of a tree.
abbrev pub top : Tree → ℕ
top (node o l r) = precedence o
top (negation t) = not_precedence
top (leaf n) = max_precedence
top (paren t) = max_precedence

pub push-top :
    (t : Tree) (op : BinaryOp) (x : Tree) → precedence op ≤ top t → push t op x ≡ node op t x
unfolding push
push-top (node o l r) op x h = ground arith
push-top (negation t) op x h = ground arith
push-top (leaf n) op x h = refl
push-top (paren t) op x h = refl
