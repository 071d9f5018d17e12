-- ===== src/Editor.antt =====
-- The line editor of p3/shell.c: `read_line` on the bytes that the terminal sends, with the slots of the
-- history. What is written on the screen is left out.
pub mod Cursor
pub mod Keys
pub mod Session
pub mod Bytes
pub mod Tests
use operating_systems_cs.Common.{
  ℕ, zero, suc, ◌+◌, ◌-◌, Bool, true, false, if◌then◌else◌, ltb, leb, ◌==◌, ◌&&◌, ◌||◌, Option,
  none, some, List, [], ◌∷◌, ◌++◌, length, get_or, set,
}
use operating_systems_cs.Common.Text.{CString, advance, first_bytes}
use operating_systems_cs.Shell.{shell_strtrim}

-- H and N
abbrev pub history_slots : ℕ
history_slots = 96

abbrev pub slot_size : ℕ
slot_size = 160

-- The variables of `read_line`: the slot `j` of the history that is shown, the cursor `i`, the length
-- `n`, and the text in `buf`.
pub record Line : Type 0 where
  pub j : ℕ
  pub i : ℕ
  pub n : ℕ
  pub buf : CString

-- `state`: the number of lines in the history, and the texts in its slots.
pub record History : Type 0 where
  pub n : ℕ
  pub history : List CString

-- A value, or a write behind the end of a slot or of the history.
pub data Checked {ℓ} (A : Type ℓ) : Type ℓ where
  ok : A → Checked A
  overrun : Checked A

-- A text in a slot, with its closing 0.
pub fits : Line → Checked Line
fits line = if ltb (length line.buf) slot_size then ok line else overrun

-- `isprint` of the C locale.
pub isprint : ℕ → Bool
isprint k = leb 32 k && leb k 126

-- A byte before the cursor.
pub insert_at : Line → ℕ → Line
insert_at line c = record line {
  i = line.i + 1;
  n = line.n + 1;
  buf = first_bytes line.i line.buf ++ c ∷ advance line.i line.buf;
}

-- ^K and ^D, backspace, a blank and a printing character.
pub cut_line : Line → Line
cut_line line =
    let buf = first_bytes line.i line.buf in
    record line { i = length buf; n = length buf; buf = buf }

pub delete_next : Line → Line
delete_next line =
    if ltb line.i line.n
    then record line {
      n = line.n - 1;
      buf = first_bytes line.i line.buf ++ advance (line.i + 1) line.buf;
    }
    else line

pub delete_last : Line → Line
delete_last line =
    if ltb 0 line.i
    then record line {
      i = line.i - 1;
      n = line.n - 1;
      buf = first_bytes (line.i - 1) line.buf ++ advance line.i line.buf;
    }
    else line

pub blank : Line → Checked Line
blank line = if ltb line.n slot_size then fits (insert_at line 32) else ok line

pub printing : Line → ℕ → Checked Line
printing line c = if ltb (line.n + 1) slot_size then fits (insert_at line c) else ok line

-- A key other than the escape sequences and the end of the line.
pub press : Line → ℕ → Checked Line
press line k =
    if k == 11
    then ok (cut_line line)
    else if k == 12
    then ok line
    else if k == 4
    then ok (delete_next line)
    else if (k == 8) || (k == 127)
    then ok (delete_last line)
    else if (k == 32) || (k == 9)
    then blank line
    else if isprint k
    then printing line k
    else ok line

-- The slot `j` in place of the text: nothing where it is the slot of the text itself.
pub show_slot : History → Line → ℕ → Line
show_slot state line j =
    let buf = if j == state.n then [] else get_or state.history j [] in
    record { j = j; i = length buf; n = length buf; buf = buf }

-- The last byte of an escape sequence, `A` to `D`.
pub arrow : History → Line → ℕ → Line
arrow state line k =
    if k == 65
    then (if ltb 0 line.j then show_slot state line (line.j - 1) else line)
    else if k == 66
    then (if ltb line.j state.n then show_slot state line (line.j + 1) else line)
    else if k == 67
    then record line { i = if ltb line.i line.n then line.i + 1 else line.n }
    else if k == 68
    then record line { i = if ltb 0 line.i then line.i - 1 else 0 }
    else line

-- What the next byte is: a key, or the second or the third byte of an escape sequence.
pub data Awaits : Type 0 where
  first_byte second_byte third_byte : Awaits

-- How the loop ends: at the end of a line, with the bytes behind it, or waiting for a byte.
pub data Edited : Type 0 where
  entered : Line → List ℕ → Edited
  waiting : Awaits → Line → Edited
  overrun : Edited

pub edit : History → Awaits → Line → List ℕ → Edited
edit state w line [] = waiting w line
edit state second_byte line (k ∷ keys) = edit state third_byte line keys
edit state third_byte line (k ∷ keys) = edit state first_byte (arrow state line k) keys
edit state first_byte line (k ∷ keys) = elim (k == 27) [
  | true ↦ edit state second_byte line keys
  | false ↦ elim (k == 10) [
    | true ↦ entered line keys
    | false ↦ elim (press line k) [
      | Checked.ok line' ↦ edit state first_byte line' keys
      | Checked.overrun ↦ Edited.overrun
    ]
  ]
]

-- The slot behind the history.
pub first_line : History → Line
first_line state =
    let buf = get_or state.history state.n [] in
    record { j = state.n; i = length buf; n = length buf; buf = buf }

-- The end of `read_line`: a line that is not blank stays in the history, and the next slot is emptied.
pub keep_line : History → Line → Checked (History × CString)
keep_line state line =
    let buf = shell_strtrim line.buf in
    let n = if ltb (state.n + 1) history_slots then state.n + 1 else history_slots in
    let kept = set state.history state.n buf in
    if length buf == 0
    then Checked.ok (record state { history = kept }, [])
    else if ltb n history_slots
    then Checked.ok (record { n = n; history = set kept n [] }, buf)
    else Checked.overrun

-- How `read_line` ends: with a line, empty for the null pointer, or waiting for a byte.
pub data Read : Type 0 where
  got_line : History → CString → List ℕ → Read
  waiting : Read
  overrun : Read

pub read_line : History → List ℕ → Read
read_line state keys =
    if ltb state.n history_slots
    then elim (edit state first_byte (first_line state) keys) [
      | entered l rest ↦ elim (keep_line state l) [
        | Checked.ok r ↦ got_line r.0 r.1 rest
        | Checked.overrun ↦ Read.overrun
      ]
      | Edited.waiting w l ↦ Read.waiting
      | Edited.overrun ↦ Read.overrun
    ]
    else Read.overrun
