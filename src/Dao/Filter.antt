-- ===== src/Dao/Filter.antt =====
-- internal/database/dao/filter_translator.go: how operators of a CEL filter are put together as SQL
-- text. The names, literals, selections, indexes, `in` and text functions of a filter stand for
-- themselves: each is an operand of the highest precedence. Equality with null, with an entry of a
-- map and with an enum has texts of its own and is left out.
pub mod Reading
pub mod Binding
pub mod Meaning
mod Examples
use osac_fulfillment_service.Prelude.{ℕ, ◌-◌, ◌^◌, Bool, ltb, if◌then◌else◌}

pub data BinaryOp : Type 0 where
  add subtract multiply divide modulo : BinaryOp
  greater greater_equals less less_equals equals not_equals : BinaryOp
  logical_and logical_or : BinaryOp

pub data Expr : Type 0 where
  operand : ℕ → Expr
  call : BinaryOp → Expr → Expr → Expr
  logical_not : Expr → Expr

-- SQL text with its parentheses matched: operands that operators separate, each one a name, a text
-- in parentheses, or another operand behind `not`.
mutual
  pub data Text : Type 0 where
    single : Operand → Text
    snoc : Text → BinaryOp → Operand → Text

  pub data Operand : Type 0 where
    atom : ℕ → Operand
    group : Text → Operand
    negated : Operand → Operand

-- `left op right`, and `not text`, written one behind the other.
unfoldable pub join : Text → BinaryOp → Text → Text
join left op (single x) = snoc left op x
join left op (snoc right o x) = snoc (join left op right) o x

unfoldable pub prefix_not : Text → Text
prefix_not (single x) = single (negated x)
prefix_not (snoc left o x) = snoc (prefix_not left) o x

abbrev pub parens : Text → Text
parens t = single (group t)

abbrev pub max_precedence : ℕ
max_precedence = 2 ^ 63 - 1

abbrev pub not_precedence : ℕ
not_precedence = 2

-- The precedences of `binaryOps`, and that of `=` and `!=`.
abbrev pub precedence : BinaryOp → ℕ
precedence add = 7
precedence subtract = 7
precedence multiply = 8
precedence divide = 8
precedence modulo = 8
precedence logical_and = 1
precedence logical_or = 0
precedence _ = 3

-- `filterTranslatorResult`
pub record Translation : Type 0 where
  pub sql : Text
  pub precedence : ℕ

abbrev pub wrap_below : ℕ → Translation → Text
wrap_below p t = if ltb t.precedence p then parens t.sql else t.sql

unfoldable pub assemble_binary_sql : Translation → Translation → BinaryOp → Translation
assemble_binary_sql left right op = record {
  sql = join (wrap_below (precedence op) left) op (wrap_below (precedence op) right);
  precedence = precedence op;
}

unfoldable pub translate_not : Translation → Translation
translate_not value = record {
  sql = prefix_not (wrap_below not_precedence value);
  precedence = not_precedence;
}

unfoldable pub translate : Expr → Translation
unfolding assemble_binary_sql translate_not
translate (operand n) = record { sql = single (atom n); precedence = max_precedence }
translate (call op left right) = assemble_binary_sql (translate left) (translate right) op
translate (logical_not e) = translate_not (translate e)
