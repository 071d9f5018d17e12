-- ===== src/Shell/Tests.antt =====
-- Tests and witnesses of `shell_strtrim` of p3/shell.c.
use operating_systems_cs.Common.{[], ◌∷◌, ◌≡◌, refl}
use operating_systems_cs.Common.Text.{CString, isspace, advance, first_bytes}
use operating_systems_cs.Shell.{skip_front, skip_back, shell_strtrim}
use operating_systems_cs.Shell.Trim.{Trimmed, shell_strtrim-Trimmed}

-- Two spaces, `a b` and a tab.
abbrev line : CString
line = 32 ∷ 32 ∷ 97 ∷ 32 ∷ 98 ∷ 9 ∷ []

shell_strtrim_test : shell_strtrim line ≡ 97 ∷ 32 ∷ 98 ∷ []
unfolding shell_strtrim skip_front skip_back first_bytes isspace advance
shell_strtrim_test = refl

shell_strtrim_blank_test : shell_strtrim (32 ∷ 9 ∷ []) ≡ []
unfolding shell_strtrim skip_front skip_back first_bytes isspace advance
shell_strtrim_blank_test = refl

shell_strtrim-Trimmed_example : Trimmed line (shell_strtrim line)
shell_strtrim-Trimmed_example = shell_strtrim-Trimmed line
