-- ===== src/Commands/Valid.antt =====
-- The commands of p3/main.c on a well-formed word tree, and what `load` adds to it.
use operating_systems_cs.Common.{
  ◌==◌, Bool, true, false, Bool-cases, if◌then◌else◌, Option, none, some, List, [], ◌∷◌, length,
  ◌≡◌, refl, sym, ap, subst, ◌∙◌, inl, inr, arith, not, ◌||◌,
}
use operating_systems_cs.Common.Text.{CString}
use operating_systems_cs.Shell.{shell_strtrim}
use operating_systems_cs.Avl.{Scm, Avl, avl_traverse}
use operating_systems_cs.Avl.Entries.{Entries, tally}
use operating_systems_cs.Avl.Insert.{has_room}
use operating_systems_cs.Avl.Words.{IsValid, is_null, avl_insert-IsValid}
use operating_systems_cs.Commands.{
  World, Ran, Message, Fnc, Cmd, cmds, load_failed, same_start, load_words, run, complain, try_cmds,
  shell_fnc,
}

module _ (scm : Scm) where
  -- A command that ends without following a null pointer, on a tree that is well-formed again.
  abbrev pub Ends : Option (Ran scm) → Type 0
  Ends none = ⊥
  Ends (some r) = IsValid r.avl

  load_rest :
      (word : CString) (lines : List CString) (r : Bool × Avl scm)
      → Ends (load_words scm r.1 lines)
      → IsValid r.1
      → Ends (elim r.0 [
        | true ↦ load_words scm r.1 lines
        | false ↦ some (record { avl = r.1; said = load_failed word ∷ []; leaves = false })
      ])
  load_rest word lines (true, avl) e v = e
  load_rest word lines (false, avl) e v = v

  load_words-Ends :
      (avl : Avl scm) (lines : List CString) → IsValid avl → Ends (load_words scm avl lines)
  unfolding load_words
  load_words-Ends avl [] v = v
  load_words-Ends avl (line ∷ lines) v = elim (Bool-cases (length (shell_strtrim line) == 0)) [
    | inl blank ↦ rw (blank, load_words) (load_words-Ends avl lines v)
    | inr word ↦
        let (r, e, v', words, status) = avl_insert-IsValid avl (shell_strtrim line) v in
        rw (word, e, load_words)
          (load_rest (shell_strtrim line) lines r (load_words-Ends r.1 lines v') v')
  ]

  module _ (world : World scm) (avl : Avl scm) (v : IsValid avl) where
    opened_rest :
        (s : CString) (o : Option (List CString))
        → Ends (elim o [
          | none ↦ some (record { avl = avl; said = Message.open_failed s ∷ []; leaves = false })
          | some lines ↦ load_words scm avl lines
        ])
    opened_rest s none = v
    opened_rest s (some lines) = load_words-Ends avl lines v

    run-Ends : (f : Fnc) (s : CString) → Ends (run scm world avl f s)
    unfolding run
    run-Ends Fnc.quit s = v
    run-Ends Fnc.help s = v
    run-Ends Fnc.info s = v
    run-Ends Fnc.list s = v
    run-Ends Fnc.load s = opened_rest s (world.lines s)
    run-Ends Fnc.insert s =
        let (r, e, v', words, status) = avl_insert-IsValid avl s v in rw (e, run) v'
    run-Ends Fnc.exists s = v

    complain-Ends : (s : CString) → Ends (complain scm world avl s)
    unfolding complain
    complain-Ends s = v

    one_of : (b : Bool) (x y : Option (Ran scm)) → Ends x → Ends y → Ends (if b then x else y)
    one_of true x y h k = h
    one_of false x y h k = k

    try_cmds-Ends : (cs : List Cmd) (s : CString) → Ends (try_cmds scm world avl cs s).0
    unfolding try_cmds
    try_cmds-Ends [] s = complain-Ends s
    try_cmds-Ends (c ∷ cs) s = elim (Bool-cases (same_start (length c.face) c.face s)) [
      | inl e ↦ rw e (one_of _ _ _ (complain-Ends _) (run-Ends c.fnc _))
      | inr e ↦ rw e (try_cmds-Ends cs s)
    ]

    -- Whatever line comes, on a well-formed tree `shell_fnc` ends without following a null pointer,
    -- and the tree is well-formed again, also where a file is loaded and the region runs out of room.
    pub shell_fnc-Ends : (s : CString) → Ends (shell_fnc scm world avl s).0
    unfolding shell_fnc
    shell_fnc-Ends s = try_cmds-Ends cmds s

-- A word added to the entries, unless it is empty.
pub add_word : CString → Entries → Entries
add_word [] es = es
add_word (c ∷ word) es = tally true (c ∷ word) es

-- The words of a file, trimmed and without the blank lines, added to the entries one after the other.
pub tally_lines : List CString → Entries → Entries
tally_lines [] es = es
tally_lines (line ∷ lines) es = tally_lines lines (add_word (shell_strtrim line) es)

add_blank : (word : CString) (es : Entries) → (length word == 0) ≡ true → add_word word es ≡ es
unfolding add_word
add_blank [] es e = refl
add_blank (c ∷ word) es e = absurd (ground arith)

add_more :
    (word : CString) (es : Entries)
    → (length word == 0) ≡ false
    → add_word word es ≡ tally true word es
unfolding add_word
add_more [] es e = absurd (ground arith)
add_more (c ∷ word) es e = refl

or_true : (b c : Bool) → c ≡ true → (b || c) ≡ true
or_true b c e = ground arith

module _ (scm : Scm) (roomy : (avl : Avl scm) (item : CString) → has_room avl item ≡ true) where
  -- All lines are read, nothing is reported, and the entries are those.
  abbrev pub Loads : Entries → Option (Ran scm) → Type 0
  Loads es none = ⊥
  Loads es (some r) = IsValid r.avl × (avl_traverse r.avl ≡ es) × (r.said ≡ []) × (r.leaves ≡ false)

  next_word :
      (word : CString) (lines : List CString) (es : Entries) (r : Bool × Avl scm)
      → r.0 ≡ true
      → Loads es (load_words scm r.1 lines)
      → Loads es (elim r.0 [
        | true ↦ load_words scm r.1 lines
        | false ↦ some (record { avl = r.1; said = load_failed word ∷ []; leaves = false })
      ])
  next_word word lines es (b, avl) e l = rw e l

  -- In a region that always has room, `load` adds every line of a file to a well-formed tree, trimmed
  -- and unless it is blank, and reports nothing.
  pub load_words-Loads :
      (avl : Avl scm) (lines : List CString)
      → IsValid avl
      → Loads (tally_lines lines (avl_traverse avl)) (load_words scm avl lines)
  unfolding load_words tally_lines
  load_words-Loads avl [] v = (v, refl, refl, refl)
  load_words-Loads avl (line ∷ lines) v =
      let w = shell_strtrim line in
      let es = avl_traverse avl in
      elim (Bool-cases (length w == 0)) [
        | inl blank ↦ rw (blank, add_blank w es blank, load_words) (load_words-Loads avl lines v)
        | inr word ↦
            let (r, e, v', words, status) = avl_insert-IsValid avl w v in
            let entries = words ∙ ap (λ b. tally b w es) (roomy avl w) ∙ sym (add_more w es word) in
            let done = status ∙ or_true (not (is_null avl.root)) (has_room avl w) (roomy avl w) in
            rw (word, e, load_words)
              (next_word w lines (tally_lines lines (add_word w es)) r done (
                subst (λ x. Loads (tally_lines lines x) (load_words scm r.1 lines)) entries
                  (load_words-Loads r.1 lines v')))
      ]
