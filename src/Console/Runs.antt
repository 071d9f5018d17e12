-- ===== src/Console/Runs.antt =====
-- Runs of the shell of p3: every line is read in the bounds of the history, and every command leaves a
-- well-formed word tree.
use operating_systems_cs.Common.{
  ℕ, zero, suc, ◌<◌, ◌≤◌, Bool, true, false, Bool-cases, ◌==◌, ==_iff, Option, none, some, List,
  ◌++◌, length, length-append, length-set, ◌≡◌, refl, ap, ◌∙◌, inl, inr, arith,
}
use operating_systems_cs.Common.Text.{CString}
use operating_systems_cs.Shell.{shell_strtrim}
use operating_systems_cs.Shell.Trim.{length-shell_strtrim}
use operating_systems_cs.Avl.{Scm, Avl}
use operating_systems_cs.Avl.Words.{IsValid}
use operating_systems_cs.Editor.{History, Read, got_line, read_line}
use operating_systems_cs.Editor.Session.{IsHistory, Kept, read_line-Kept, set-AllFit}
use operating_systems_cs.Editor.Bytes.{Shorter, read_line-Shorter}
use operating_systems_cs.Commands.{World, Ran, Message, cmds, shell_fnc}
use operating_systems_cs.Commands.Valid.{Ends, shell_fnc-Ends}
use operating_systems_cs.Commands.Dispatch.{Answered, shell_fnc-Answered}
use operating_systems_cs.Console.{Left, left, waits, overrun, fault, spent, write_slot, shell}

write_slot-IsHistory :
    (state : History) (j : ℕ) (s : CString)
    → IsHistory state
    → length s < 160
    → IsHistory (write_slot state j s)
write_slot-IsHistory state j s h l = record {
  slots = length-set state.history j s ∙ h.slots;
  room = h.room;
  fit = set-AllFit state.history j s h.fit l;
}

module _ (scm : Scm) (world : World scm) where
  -- The command never makes the text in the buffer longer.
  Answered-length :
      (avl : Avl scm) (s : CString) (o : Option (Ran scm) × CString)
      → Answered scm world avl cmds s o
      → length o.1 ≤ length s
  Answered-length avl s o (inl (g, e)) =
      let after = ap (λ (x : Option (Ran scm) × CString). length x.1) e in
      omega (
        arith,
        after,
        ap length g.3,
        length-append g.0.face (shell_strtrim g.2),
        length-append g.0.face g.2,
        length-shell_strtrim g.2,
      )
  Answered-length avl s o (inr (never, e)) =
      omega (arith, ap (λ (x : Option (Ran scm) × CString). length x.1) e)

  -- The loop between two lines: the history, the tree, what was printed, and the bytes to come.
  pub record Point : Type 0 where
    pub state : History
    pub avl : Avl scm
    pub said : List Message
    pub keys : List ℕ

  -- A line from `read_line`, which is not blank, with what its command does.
  pub record Command (p : Point) (leaves : Bool) (q : Point) : Type 0 where
    pub state' : History
    pub s : CString
    pub s' : CString
    pub ran : Ran scm
    pub reads : read_line p.state p.keys ≡ got_line state' s q.keys
    pub line : 0 < length s
    pub runs : shell_fnc scm world p.avl s ≡ (some ran, s')
    pub leaving : ran.leaves ≡ leaves
    pub after : q.state ≡ write_slot state' p.state.n s'
    pub tree : q.avl ≡ ran.avl
    pub printed : q.said ≡ p.said ++ ran.said

  -- One round, with a blank line or with a command that does not leave the shell, and any number of them.
  pub data Rounds : Point → Point → Type 0 where
    none_yet : (p : Point) → Rounds p p
    empty_line :
        (p q : Point) (state' : History) (s : CString) (rest : List ℕ)
        → read_line p.state p.keys ≡ got_line state' s rest
        → length s ≡ 0
        → Rounds (record { state = state'; avl = p.avl; said = p.said; keys = rest }) q
        → Rounds p q
    command : (p p' q : Point) → Command p false p' → Rounds p' q → Rounds p q

  -- Every end of the loop is reached by rounds from the start: it leaves behind a command that returns 1,
  -- and waits or overruns where `read_line` does; the history is inside its slots and the tree well-formed.
  abbrev pub Sound : Point → Left scm → Type 0
  Sound start (left state avl said keys) =
      IsHistory state
      × IsValid avl
      × ((p : Point) × Rounds start p
          × Command p true (record { state = state; avl = avl; said = said; keys = keys }))
  Sound start (waits state avl said) =
      IsHistory state
      × IsValid avl
      × ((keys : List ℕ) × Rounds start
            (record { state = state; avl = avl; said = said; keys = keys })
          × (read_line state keys ≡ Read.waiting))
  Sound start overrun =
      (p : Point) × Rounds start p
      × IsValid p.avl
      × ((h : IsHistory p.state) × Kept p.state h.fit p.keys Read.overrun)
      × (read_line p.state p.keys ≡ Read.overrun)
  Sound start fault = ⊥
  Sound start spent = ⊥

  Sound-later :
      (p p' : Point)
      → ((q : Point) → Rounds p' q → Rounds p q)
      → (l : Left scm) → Sound p' l
      → Sound p l
  Sound-later p p' step (left state avl said keys) (h, v, (q, r, c)) = (h, v, (q, step q r, c))
  Sound-later p p' step (waits state avl said) (h, v, (keys, r, e)) = (h, v, (keys, step _ r, e))
  Sound-later p p' step overrun (q, r, v, k, e) = (q, step q r, v, k, e)
  Sound-later p p' step fault x = x
  Sound-later p p' step spent x = x

  ran_end :
      (fuel : ℕ) (p : Point) (state' : History) (s s' : CString) (keys : List ℕ)
      (o : Option (Ran scm))
      → read_line p.state p.keys ≡ got_line state' s keys
      → 0 < length s
      → shell_fnc scm world p.avl s ≡ (o, s')
      → IsHistory (write_slot state' p.state.n s')
      → Ends scm o
      → ((avl : Avl scm) (more : List Message)
          → IsValid avl
          → Sound
              (record {
                state = write_slot state' p.state.n s';
                avl = avl;
                said = more;
                keys = keys;
              })
              (shell scm world fuel (write_slot state' p.state.n s') avl more keys))
      → Sound p (elim o [
        | none ↦ fault
        | some ran ↦ elim ran.leaves [
          | true ↦ left (write_slot state' p.state.n s') ran.avl (p.said ++ ran.said) keys
          | false ↦
              shell scm world fuel
                (write_slot state' p.state.n s')
                ran.avl
                (p.said ++ ran.said)
                keys
        ]
      ])
  ran_end fuel p state' s s' keys none reads line runs h e rest = e
  ran_end fuel p state' s s' keys (some ran) reads line runs h e rest =
      let here : Point = record {
        state = write_slot state' p.state.n s';
        avl = ran.avl;
        said = p.said ++ ran.said;
        keys = keys;
      } in
      elim (Bool-cases ran.leaves) [
        | inl leaves ↦
            rw leaves (h, e, (p, Rounds.none_yet p, taken true here leaves refl refl refl refl))
        | inr stays ↦ rw stays (
            Sound-later p here
              (λ q r. Rounds.command p here q (taken false here stays refl refl refl refl) r) _
              (rest ran.avl (p.said ++ ran.said) e))
      ]
    where
      taken :
          (b : Bool) (q : Point)
          → ran.leaves ≡ b
          → q.state ≡ write_slot state' p.state.n s'
          → q.avl ≡ ran.avl
          → q.said ≡ p.said ++ ran.said
          → keys ≡ q.keys
          → Command p b q
      taken b q l a t d k = record {
        state' = state';
        s = s;
        s' = s';
        ran = ran;
        reads = reads ∙ ap (got_line state' s) k;
        line = line;
        runs = runs;
        leaving = l;
        after = a;
        tree = t;
        printed = d;
      }

  line_end :
      (fuel : ℕ) (p : Point) (r : Read) (h : IsHistory p.state)
      → IsValid p.avl
      → read_line p.state p.keys ≡ r
      → Kept p.state h.fit p.keys r
      → Shorter p.keys r
      → length p.keys ≤ fuel
      → ((q : Point)
          → IsHistory q.state
          → IsValid q.avl
          → length q.keys < fuel
          → Sound q (shell scm world fuel q.state q.avl q.said q.keys))
      → Sound p (elim r [
        | Read.waiting ↦ waits p.state p.avl p.said
        | Read.overrun ↦ overrun
        | got_line state' s rest ↦ elim (length s == 0) [
          | true ↦ shell scm world fuel state' p.avl p.said rest
          | false ↦
              let (o, s') = shell_fnc scm world p.avl s in
              let state'' = write_slot state' p.state.n s' in
              elim o [
                | none ↦ fault
                | some ran ↦ elim ran.leaves [
                  | true ↦ left state'' ran.avl (p.said ++ ran.said) rest
                  | false ↦ shell scm world fuel state'' ran.avl (p.said ++ ran.said) rest
                ]
              ]
        ]
      ])
  line_end fuel p Read.waiting h v e k l f next = (h, v, (p.keys, Rounds.none_yet p, e))
  line_end fuel p Read.overrun h v e k l f next = (p, Rounds.none_yet p, v, (h, k), e)
  line_end fuel p (got_line state' s rest) h v e k l f next =
      let got = k.0 in
      elim (Bool-cases (length s == 0)) [
        | inl blank ↦ rw blank (
            Sound-later p (record { state = state'; avl = p.avl; said = p.said; keys = rest })
              (λ q r. Rounds.empty_line p q state' s rest e ((==_iff (length s) 0).0 blank) r) _
              (next (record { state = state'; avl = p.avl; said = p.said; keys = rest }) got.valid v
                (omega (arith, l, f))))
        | inr line ↦
            let run = shell_fnc scm world p.avl s in
            let short = Answered-length p.avl s run (shell_fnc-Answered scm world p.avl s) in
            let h' =
              write_slot-IsHistory state' p.state.n run.1 got.valid
                (omega (arith, short, got.short)) in
            rw line (
              ran_end fuel p state' s run.1 rest run.0 e (positive (length s) line) refl h'
                (shell_fnc-Ends scm world p.avl v s)
                (λ avl' more v'.
                  next
                    (record {
                      state = write_slot state' p.state.n run.1;
                      avl = avl';
                      said = more;
                      keys = rest;
                    })
                    h' v' (omega (arith, l, f))))
      ]
    where
      positive : (n : ℕ) → (n == 0) ≡ false → 0 < n
      positive n e = ground arith

  -- From a history with a free slot and a well-formed tree, whatever bytes come, the shell runs its rounds
  -- until a command that returns 1, and leaves; or until read_line waits for a byte; or until read_line
  -- overruns a slot or the history, as it does only at a blank in a line of 159 bytes or a line in the last
  -- slot. At each of these ends there is such a history and such a tree again. The shell follows no null
  -- pointer, and a round for each byte and one more is enough.
  pub shell-Sound :
      (fuel : ℕ) (start : Point)
      → IsHistory start.state
      → IsValid start.avl
      → length start.keys < fuel
      → Sound start (shell scm world fuel start.state start.avl start.said start.keys)
  unfolding shell
  shell-Sound zero p h v f = absurd (omega arith)
  shell-Sound (suc fuel) p h v f =
      line_end fuel p (read_line p.state p.keys) h v refl (read_line-Kept p.state h p.keys)
        (read_line-Shorter p.state h.fit p.keys h.room) (omega (arith, f))
        (λ q h' v' l. shell-Sound fuel q h' v' l)
