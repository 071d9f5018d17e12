-- ===== src/Session/Tests.antt =====
-- Tests and witnesses for main of p3/main.c, with files that are empty.
use mathlib.Core.List.{Permᴰ}
use operating_systems_cs.Common.{ℕ, Bool, true, false, none, some, List, [], ◌∷◌, ◌≡◌, refl}
use operating_systems_cs.Common.Text.{CString, strcmp}
use operating_systems_cs.Avl.{Scm, Node, null}
use operating_systems_cs.Commands.{World}
use operating_systems_cs.Session.{
  Files, parsed, invalid, truncate_word, nocolor_word, no_flags, parse_args, branch, same_text,
  starts_dash, is_null_path,
}
use operating_systems_cs.Session.Order.{parse_args-Perm}

-- A region knows the words and whether it is in use.
abbrev Content : Type 0
Content = Bool × (ℕ × (ℕ × Node))

abbrev kept_words : Scm
kept_words = record {
  Region = Content;
  scm_malloc = λ r n. (true, r);
  scm_strdup = λ r s. (true, r);
}

abbrev no_words : Content
no_words = (false, (0, (0, null)))

abbrev in_use : Bool → ℕ
in_use true = 1
in_use false = 0

abbrev no_files : World kept_words
no_files = record { lines = λ name. none; utilized = λ r. in_use r.0; capacity = λ r. 9 }

abbrev drive : Files kept_words
drive = record { scm_open = λ name truncate. some no_words; scm_mbase = λ r. r.1 }

-- `insert b` and `quit`.
abbrev some_keys : List ℕ
some_keys = 105 ∷ 110 ∷ 115 ∷ 101 ∷ 114 ∷ 116 ∷ 32 ∷ 98 ∷ 10 ∷ 113 ∷ 117 ∷ 105 ∷ 116 ∷ 10 ∷ []

abbrev path : CString
path = 97 ∷ []

-- `--truncate a`, and a second name.
parse_args_test :
    (parse_args (truncate_word ∷ path ∷ []) no_flags
      ≡ parsed (record { pathname = some path; truncate = true; nocolor = false }))
    × (parse_args (path ∷ nocolor_word ∷ path ∷ []) no_flags ≡ invalid path)
unfolding parse_args branch same_text starts_dash is_null_path strcmp
parse_args_test = (refl, refl)

parse_args-Perm_example :
    parse_args (path ∷ truncate_word ∷ []) no_flags
    ≡ parsed (record { pathname = some path; truncate = true; nocolor = false })
parse_args-Perm_example =
    parse_args-Perm no_flags (record { pathname = some path; truncate = true; nocolor = false })
      (Permᴰ.swap refl refl) parse_args_test.0
