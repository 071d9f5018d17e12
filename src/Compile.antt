-- ===== src/Compile.antt =====
-- `parser_open` of p1/parser.c, which joins the lexer to the parser. The allocation of its struct, which
-- can fail like the others, is left out.
pub mod Correct
pub mod Tests
use operating_systems_cs.Common.{ℕ, ◌+◌, ◌*◌, Bool, if◌then◌else◌, ◌==◌, List, [], length}
use operating_systems_cs.Common.Text.{CString}
use operating_systems_cs.Parser.{Dag, Parser, Parse, top}
use operating_systems_cs.Parser.Parse.{ok, null_ptr, no_fuel}
use operating_systems_cs.Lexer.{Lexer, Lexing, in_order, lexer_open}

-- The tree of the new parser, the null pointer, or neither: a write out of bounds or no end.
pub data Opened (D : Type 0) : Type 0 where
  opened : Dag D → Opened D
  refused : Opened D
  stuck : Opened D

abbrev pub from_top : {D : Type 0} → Parse (Dag D × Parser D) → Opened D
from_top (ok r) = opened r.0
from_top null_ptr = refused
from_top no_fuel = stuck

module _ {D : Type 0} (strtod : CString → D × ℕ) (room alloc : ℕ → Bool) (zero_val : D) where
  -- The rest of `parser_open` behind the lexer.
  pub with_lexer : Lexer D → Opened D
  with_lexer lexer =
      let tokens = in_order lexer.newest [] in
      if lexer.size == 0
      then refused
      else from_top (top alloc zero_val (4 * length tokens + 4) tokens)

  pub parser_open : CString → Opened D
  parser_open s = elim (lexer_open strtod room zero_val s (length s)) [
    | Lexing.ok lexer ↦ with_lexer lexer
    | Lexing.failed ↦ refused
    | Lexing.overrun ↦ stuck
    | Lexing.no_fuel ↦ stuck
  ]
