-- ===== src/Compile/Tests.antt =====
-- Witnesses on the text, the parser and the generator of p1 together.
use operating_systems_cs.Common.{ℕ, ◌≡◌, ◌⊎◌, arith}
use operating_systems_cs.Parser.{Dag}
use operating_systems_cs.Lexer.Tests.{digits, always, text}
use operating_systems_cs.Codegen.Tests.{double, all_printed}
use operating_systems_cs.Compile.{refused, opened, parser_open}
use operating_systems_cs.Compile.Correct.{Compiled, Wronged, parser_open-Compiled}

parser_open-Compiled_example :
    (parser_open digits always always 0 text ≡ refused) × ¬ Wronged double digits always always text
    ⊎ ((d : Dag ℕ) × (parser_open digits always always 0 text ≡ opened d)
        × Compiled double digits text d)
parser_open-Compiled_example =
    parser_open-Compiled double digits always always text (omega arith) (λ ts x. all_printed ts)
