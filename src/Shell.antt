-- ===== src/Shell.antt =====
-- `shell_strtrim` of p3/shell.c. The pointers are positions in the string, and `e` is the position
-- behind the one in C, so that it is not negative.
pub mod Trim
pub mod Tests
use operating_systems_cs.Common.{
  ℕ, zero, suc, ◌+◌, ◌-◌, Bool, true, false, if◌then◌else◌, ltb, ◌&&◌, List, [], ◌∷◌, length,
  get_or,
}
use operating_systems_cs.Common.Text.{CString, isspace, advance, first_bytes}

-- The first loop with `n` rounds left.
unfoldable pub skip_front : ℕ → ℕ → ℕ → CString → ℕ
skip_front zero b e s = b
skip_front (suc n) b e s =
    let rest = skip_front n (b + 1) e s in if ltb b e && isspace (get_or s b 0) then rest else b

-- The second loop, down to the start of the string.
unfoldable pub skip_back : ℕ → CString → ℕ
skip_back zero s = zero
skip_back (suc e) s = let rest = skip_back e s in if isspace (get_or s e 0) then rest else suc e

-- What the buffer holds up to the new closing 0.
unfoldable pub shell_strtrim : CString → CString
shell_strtrim s =
    let e = length s in
    let b = skip_front e 0 e s in
    let e' = skip_back e s in first_bytes (if ltb b e' then e' - b else 0) (advance b s)
