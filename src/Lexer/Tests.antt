-- ===== src/Lexer/Tests.antt =====
-- Tests and witnesses of the lexer of p1/lexer.c, with a `strtod` of decimal digits.
use operating_systems_cs.Common.{
  ℕ, ◌+◌, ◌*◌, ◌-◌, ◌&&◌, Bool, true, false, leb, if◌then◌else◌, List, [], ◌∷◌, length, ◌≡◌, refl,
  ◌⊎◌, arith,
}
use operating_systems_cs.Common.Text.{CString, isspace, advance}
use operating_systems_cs.Parser.{op_val, op_mul, Token}
use operating_systems_cs.Lexer.{
  Lexer, ok, failed, in_order, find_operator, grow_tokens, push_token, mktoken, assign_val,
  number_end, lex_round, tokenize, lexer_open,
}
use operating_systems_cs.Lexer.Array.{Fits}
use operating_systems_cs.Lexer.Reads.{Lexes}
use operating_systems_cs.Lexer.Whole.{lexer_open-Lexes}

abbrev pub digits_from : CString → ℕ → ℕ → ℕ × ℕ
digits_from [] v k = (v, k)
digits_from (c ∷ s) v k =
    let rest = digits_from s (10 * v + (c - 48)) (k + 1) in
    if leb 48 c && leb c 57 then rest else (v, k)

abbrev pub digits : CString → ℕ × ℕ
digits s = digits_from s 0 0

abbrev pub always : ℕ → Bool
always n = true

-- `12 *3`
abbrev pub text : CString
text = 49 ∷ 50 ∷ 32 ∷ 42 ∷ 51 ∷ []

lexer_open_test :
    lexer_open digits always 0 text 5
    ≡ ok (record {
      size = 3;
      capacity = 100;
      newest =
          record { op = op_val; val = 3 }
          ∷ record { op = op_mul; val = 0 }
          ∷ record { op = op_val; val = 12 }
          ∷ [];
    })
unfolding lexer_open tokenize lex_round find_operator isspace advance grow_tokens push_token mktoken
    assign_val number_end
lexer_open_test = refl

-- `a` is no number.
lexer_open_letter_test : lexer_open digits always 0 (97 ∷ []) 1 ≡ failed
unfolding lexer_open tokenize lex_round find_operator isspace advance grow_tokens push_token mktoken
    assign_val number_end
lexer_open_letter_test = refl

lexer_open-Lexes_example :
    ((l : Lexer ℕ) × (lexer_open digits always 0 text (length text) ≡ ok l)
      × Fits l
      × Lexes digits 0 text (in_order l.newest []))
    ⊎ ((lexer_open digits always 0 text (length text) ≡ failed)
        × ((us : List (Token ℕ)) → Lexes digits 0 text us → (n : ℕ) × (always n ≡ false)))
lexer_open-Lexes_example = lexer_open-Lexes digits 0 always text (omega arith)
