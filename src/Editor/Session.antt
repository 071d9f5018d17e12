-- ===== src/Editor/Session.antt =====
-- A whole line from `read_line` of p3/shell.c: the history stays inside its slots.
use operating_systems_cs.Common.{
  ℕ, zero, suc, ◌+◌, ◌<◌, true, false, Bool-cases, if◌then◌else◌, ltb, ltb→lt, lt→ltb, ◌==◌, List,
  [], ◌∷◌, length, get_or, set, length-set, get_or-set_self, get_or-set_ne, ◌≡◌, ◌≢◌, refl, sym,
  ◌∙◌, ◌⊎◌, inl, inr, arith,
}
use operating_systems_cs.Common.Text.{CString}
use operating_systems_cs.Shell.{shell_strtrim}
use operating_systems_cs.Shell.Trim.{length-shell_strtrim}
use operating_systems_cs.Editor.{
  history_slots, Line, History, Checked, ok, overrun, Awaits, first_byte, Edited, entered, waiting,
  edit, first_line, keep_line, Read, got_line, read_line,
}
use operating_systems_cs.Editor.Keys.{IsLine, AllFit, get_or-AllFit, Result, edit-Result}

-- There is a slot behind the history, and every text is in its slot.
pub record IsHistory (state : History) : Type 0 where
  pub slots : length state.history ≡ 96
  pub room : state.n < 96
  pub fit : AllFit state.history

-- The line is in the slot behind the old history, which grows by it unless it is empty.
pub record Got (state state' : History) (s : CString) : Type 0 where
  pub valid : IsHistory state'
  pub short : length s < 160
  pub stored : get_or state'.history state.n [] ≡ s
  pub grown : state'.n ≡ (if length s == 0 then state.n else state.n + 1)

-- What `read_line` gives for the bytes: the trimmed text of the line that was entered; or the bytes end
-- before the line does; or a line that is not blank was entered with no slot behind its own, or a blank
-- came in a line of 159 bytes.
abbrev pub Kept : (state : History) → AllFit state.history → List ℕ → Read → Type 0
Kept state fit keys (got_line state' s rest) =
    Got state state' s
    × ((line : Line) × (edit state first_byte (first_line state) keys ≡ entered line rest)
        × (s ≡ shell_strtrim line.buf))
Kept state fit keys Read.waiting =
    (w : Awaits) × (line : Line) × (edit state first_byte (first_line state) keys ≡ waiting w line)
Kept state fit keys Read.overrun =
    (state.n ≡ 95)
      × ((line : Line) × (rest : List ℕ) × (edit state first_byte (first_line state) keys
            ≡ entered line rest)
          × (shell_strtrim line.buf ≢ []))
    ⊎ Result state fit first_byte (first_line state) keys Edited.overrun

pub set-AllFit :
    (slots : List CString) (j : ℕ) (s : CString)
    → AllFit slots
    → length s < 160
    → AllFit (set slots j s)
set-AllFit [] j s h l = h
set-AllFit (t ∷ slots) zero s h l = (l, h.1)
set-AllFit (t ∷ slots) (suc j) s h l = (h.0, set-AllFit slots j s h.1 l)

abbrev Lined : History → Line → Checked (History × CString) → Type 0
Lined state line (ok r) = Got state r.0 r.1 × (r.1 ≡ shell_strtrim line.buf)
Lined state line overrun = (state.n ≡ 95) × (shell_strtrim line.buf ≢ [])

module _ (state : History) (h : IsHistory state) where
  keep_line-Lined : (line : Line) → length line.buf < 160 → Lined state line (keep_line state line)
  unfolding keep_line
  keep_line-Lined line l =
      let buf = shell_strtrim line.buf in
      let small : length buf < 160 = omega (arith, l, length-shell_strtrim line.buf) in
      let kept = set state.history state.n buf in
      let fit = set-AllFit state.history state.n buf h.fit small in
      let long = length-set state.history state.n buf in
      let here = get_or-set_self state.history state.n buf [] (omega (arith, h.slots, h.room)) in
      elim (Bool-cases (length buf == 0)) [
        | inl none ↦ rw none (
          record {
            valid = record { slots = long ∙ h.slots; room = h.room; fit = fit };
            short = omega arith;
            stored = here ∙ no_bytes buf none;
            grown = refl;
          },
          sym (no_bytes buf none),
        )
        | inr some ↦ elim (Bool-cases (ltb (state.n + 1) history_slots)) [
          | inl room ↦
              rw (some, room, room)
                (
                  record {
                    valid = record {
                      slots = length-set kept (state.n + 1) [] ∙ long ∙ h.slots;
                      room = ltb→lt _ _ room;
                      fit = set-AllFit kept (state.n + 1) [] fit (omega arith);
                    };
                    short = small;
                    stored = get_or-set_ne kept (state.n + 1) state.n [] [] (suc_ne state.n) ∙ here;
                    grown = rw some refl;
                  },
                  refl,
                )
          | inr last ↦ rw (some, last) (ground (arith, last, h.room), some_bytes buf some)
        ]
      ]
    where
      no_bytes : (s : CString) → (length s == 0) ≡ true → s ≡ []
      no_bytes [] e = refl
      no_bytes (c ∷ s) e = absurd (ground arith)

      some_bytes : (s : CString) → (length s == 0) ≡ false → s ≢ []
      some_bytes [] e = absurd (ground arith)
      some_bytes (c ∷ s) e = λ f. cc f

      suc_ne : (n : ℕ) → n + 1 ≢ n
      suc_ne n e = omega (arith, e)

  first_line-IsLine : IsLine state (first_line state)
  unfolding first_line
  first_line-IsLine = record {
    cursor = omega arith;
    measured = refl;
    inside = get_or-AllFit state.history state.n h.fit;
    shown = omega arith;
  }

  abbrev Keeps : List ℕ → Read → Type 0
  Keeps keys r = Kept state h.fit keys r

  Keeps-keep_line :
      (keys rest : List ℕ) (line : Line) (c : Checked (History × CString))
      → edit state first_byte (first_line state) keys ≡ entered line rest
      → Lined state line c
      → Keeps keys
          (elim c [ Checked.ok r ↦ got_line r.0 r.1 rest | Checked.overrun ↦ Read.overrun ])
  Keeps-keep_line keys rest line (ok r) e g = (g.0, (line, e, g.1))
  Keeps-keep_line keys rest line overrun e g = inl (g.0, (line, rest, e, g.1))

  Keeps-edit :
      (keys : List ℕ) (e : Edited)
      → edit state first_byte (first_line state) keys ≡ e
      → Result state h.fit first_byte (first_line state) keys e
      → Keeps keys (elim e [
        | entered l rest ↦ elim (keep_line state l) [
          | Checked.ok r ↦ got_line r.0 r.1 rest
          | Checked.overrun ↦ Read.overrun
        ]
        | Edited.waiting w l ↦ Read.waiting
        | Edited.overrun ↦ Read.overrun
      ])
  Keeps-edit keys (entered l rest) f g =
      let valid = g.valid in
      Keeps-keep_line keys rest l (keep_line state l) f
        (keep_line-Lined l (omega (arith, valid.inside, valid.measured)))
  Keeps-edit keys (waiting w l) f g = (w, l, f)
  Keeps-edit keys Edited.overrun f g = inr g

  -- On a history with a free slot, whatever bytes come, read_line returns the trimmed text of the line that
  -- the bytes up to an Enter edit, which is less than 160 bytes and is kept in the slot behind the old
  -- history, and the new history has a free slot again; or the bytes end before the line does, and it waits;
  -- or it overruns, and then a line that is not blank was entered in the last slot, or a space or a tab
  -- came when the bytes before it had left a line of 159 bytes.
  pub read_line-Kept : (keys : List ℕ) → Kept state h.fit keys (read_line state keys)
  unfolding read_line
  read_line-Kept keys = rw (lt→ltb state.n history_slots h.room) (
      Keeps-edit keys (edit state first_byte (first_line state) keys) refl
        (edit-Result state h.fit first_byte (first_line state) keys first_line-IsLine))
