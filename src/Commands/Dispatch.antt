-- ===== src/Commands/Dispatch.antt =====
-- Which command `shell_fnc` of p3/main.c runs on a line, and with which argument.
use mathlib.Core.List.{Memᴰ}
use operating_systems_cs.Common.{
  ◌==◌, ◌&&◌, ◌||◌, not, Bool, true, false, Bool-cases, if◌then◌else◌, Option, List, [], ◌∷◌, ◌++◌,
  length, ◌≡◌, refl, sym, ap, ap₂, ◌∙◌, ◌⊎◌, inl, inr, arith, ==_iff,
}
use operating_systems_cs.Common.Text.{CString, advance}
use operating_systems_cs.Shell.{shell_strtrim}
use operating_systems_cs.Avl.{Scm, Avl}
use operating_systems_cs.Commands.{
  World, Ran, Cmd, cmds, same_start, run, complain, try_cmds, shell_fnc,
}

-- A command that takes an argument has one, and one that takes none has none.
abbrev pub suits : Bool → CString → Bool
suits true [] = false
suits true (c ∷ arg) = true
suits false [] = true
suits false (c ∷ arg) = false

-- A line that begins with the name of a command of a table.
abbrev pub Given : List Cmd → CString → Type 0
Given cs s = (c : Cmd) × Memᴰ c cs × (rest : CString) × (s ≡ c.face ++ rest)

start-append : (f s : CString) → same_start (length f) f s ≡ true → s ≡ f ++ advance (length f) s
unfolding same_start advance
start-append [] s e = refl
start-append (a ∷ f) [] e = absurd (ground arith)
start-append (a ∷ f) (b ∷ s) e = elim (Bool-cases (a == b)) [
  | inl same ↦
      ap₂ (λ x t. x ∷ t) (sym ((==_iff a b).0 same)) (start-append f s (sym (rw same refl) ∙ e))
  | inr other ↦ absurd (ground arith)
]

append-start : (f s : CString) → same_start (length f) f (f ++ s) ≡ true
unfolding same_start
append-start [] s = refl
append-start (a ∷ f) s = rw ((==_iff a a).1 refl) (append-start f s)

suits_lem :
    (argc : Bool) (arg : CString)
    → (argc && (length arg == 0)) || (not argc && not (length arg == 0)) ≡ not (suits argc arg)
suits_lem true [] = refl
suits_lem true (c ∷ arg) = ground arith
suits_lem false [] = refl
suits_lem false (c ∷ arg) = ground arith

if_not {ℓ} : {A : Type ℓ} (b : Bool) (x y : A) → (if not b then x else y) ≡ (if b then y else x)
if_not true x y = refl
if_not false x y = refl

module _ (scm : Scm) (world : World scm) (avl : Avl scm) where
  -- The run of a command on its argument or the complaint about it, and what becomes of the line.
  abbrev pub answer : Cmd → CString → Option (Ran scm) × CString
  answer c arg = (
    if suits c.argc arg then run scm world avl c.fnc arg else complain scm world avl arg,
    c.face ++ arg,
  )

  abbrev pub Answered : List Cmd → CString → Option (Ran scm) × CString → Type 0
  Answered cs s o =
      ((g : Given cs s) × (o ≡ answer g.0 (shell_strtrim g.2)))
      ⊎ (¬ Given cs s × (o ≡ (complain scm world avl s, s)))

  skipped :
      (c : Cmd) (cs : List Cmd) (s : CString) (o : Option (Ran scm) × CString)
      → same_start (length c.face) c.face s ≡ false
      → Answered cs s o
      → Answered (c ∷ cs) s o
  skipped c cs s o e (inl (g, ran)) = inl ((g.0, Memᴰ.tail g.1, g.2, g.3), ran)
  skipped c cs s o e (inr (never, same)) = inr (
    λ g. elim g.1 [
      | Memᴰ.head here ↦ other g.0 g.2 here g.3
      | Memᴰ.tail behind ↦ never (g.0, behind, g.2, g.3)
    ],
    same,
  )
    where
      true_false : true ≡ false → ⊥
      true_false h = cc

      other : (d : Cmd) (rest : CString) → d ≡ c → s ≡ d.face ++ rest → ⊥
      other d rest here begins =
          let whole = begins ∙ ap (λ (x : Cmd). x.face ++ rest) here in
          true_false (
            sym (append-start c.face rest) ∙ ap (same_start (length c.face) c.face) (sym whole) ∙ e)

  try_cmds-Answered : (cs : List Cmd) (s : CString) → Answered cs s (try_cmds scm world avl cs s)
  unfolding try_cmds
  try_cmds-Answered [] s = inr (λ g. elim g.1 [ ], refl)
  try_cmds-Answered (c ∷ cs) s = elim (Bool-cases (same_start (length c.face) c.face s)) [
    | inl e ↦
        let rest = advance (length c.face) s in
        let arg = shell_strtrim rest in
        inl (
          (c, Memᴰ.head refl, rest, start-append c.face s e),
          rw e (
              ap (λ x. (x, c.face ++ arg))
                (ap (λ b. if b then complain scm world avl arg else run scm world avl c.fnc arg)
                    (suits_lem c.argc arg)
                  ∙ if_not (suits c.argc arg) (complain scm world avl arg)
                      (run scm world avl c.fnc arg))),
        )
    | inr e ↦ rw e (skipped c cs s (try_cmds scm world avl cs s) e (try_cmds-Answered cs s))
  ]

  -- A line that begins with the name of a command runs that command on the rest of the line, trimmed, if the
  -- command takes an argument and there is one, or takes none and there is none, and is complained about
  -- otherwise; the buffer of the line then holds the name with the trimmed rest directly behind it. Any other
  -- line is complained about and left as it is.
  pub shell_fnc-Answered : (s : CString) → Answered cmds s (shell_fnc scm world avl s)
  unfolding shell_fnc
  shell_fnc-Answered s = try_cmds-Answered cmds s
