-- ===== src/Session/Order.antt =====
-- The command line of p3/main.c: the order of the arguments does not matter.
use mathlib.Core.List.{Permᴰ}
use operating_systems_cs.Common.{
  Bool, true, false, Bool-cases, Option-cases, if◌then◌else◌, Option, none, some, Ordering-cases,
  List, ◌∷◌, ◌≡◌, refl, sym, ◌∙◌, subst, inl, inr,
}
use operating_systems_cs.Common.Text.{CString, strcmp, strcmp_refl, eq_of_strcmp}
use operating_systems_cs.Session.{
  truncate_word, nocolor_word, help_word, Flags, Parsed, parsed, helped, invalid, Branch, changes,
  asks, refuses, same_text, starts_dash, is_null_path, branch, parse_args,
}

-- What an argument does, whatever the flags are.
data Effect : Type 0 where
  truncates : Effect
  uncolors : Effect
  names : CString → Effect
  stops : Effect

-- The flags behind it, if the loop goes on.
after : Effect → Flags → Option Flags
after truncates o = if o.truncate then none else some (record o { truncate = true })
after uncolors o = if o.nocolor then none else some (record o { nocolor = true })
after (names a) o = if is_null_path o.pathname then some (record o { pathname = some a }) else none
after stops o = none

goes_on : Branch → Option Flags
goes_on (changes o) = some o
goes_on asks = none
goes_on (refuses a) = none

same_text-eq : (a b : CString) → same_text a b ≡ true → a ≡ b
unfolding same_text
same_text-eq a b e = elim (Ordering-cases (strcmp a b)) [
  | inl l ↦ absurd (cc (rw (same_text, l) at e))
  | inr (inl same) ↦ eq_of_strcmp a b same
  | inr (inr g) ↦ absurd (cc (rw (same_text, g) at e))
]

-- An argument and what it does.
record Acts (a : CString) : Type 0 where
  effect : Effect
  acts : (o : Flags) → goes_on (branch a o) ≡ after effect o

same_text_refl : (a : CString) → same_text a a ≡ true
unfolding same_text
same_text_refl a = rw (strcmp_refl a, same_text) refl

words_differ :
    (same_text truncate_word nocolor_word ≡ false)
    × (same_text truncate_word help_word ≡ false)
    × (same_text nocolor_word truncate_word ≡ false)
    × (same_text nocolor_word help_word ≡ false)
unfolding same_text strcmp
words_differ = (refl, refl, refl, refl)

truncate_acts : (o : Flags) → goes_on (branch truncate_word o) ≡ after truncates o
unfolding branch after goes_on starts_dash
truncate_acts o = elim (Bool-cases o.truncate) [
  | inl e ↦ rw (same_text_refl truncate_word, words_differ.0, words_differ.1, e, branch) refl
  | inr e ↦ rw (same_text_refl truncate_word, e, branch) refl
]

nocolor_acts : (o : Flags) → goes_on (branch nocolor_word o) ≡ after uncolors o
unfolding branch after goes_on starts_dash
nocolor_acts o = elim (Bool-cases o.nocolor) [
  | inl e ↦ rw (same_text_refl nocolor_word, words_differ.2, words_differ.3, e, branch) refl
  | inr e ↦ rw (same_text_refl nocolor_word, words_differ.2, e, branch) refl
]

other_acts :
    (a : CString) → same_text a truncate_word ≡ false → same_text a nocolor_word ≡ false → Acts a
unfolding branch after goes_on
other_acts a t n = elim (Bool-cases (same_text a help_word)) [
  | inl h ↦ record { effect = stops; acts = λ o. rw (t, n, h, branch) refl }
  | inr h ↦ elim (Bool-cases (starts_dash a)) [
    | inl d ↦ record { effect = stops; acts = λ o. rw (t, n, h, d, branch) refl }
    | inr d ↦ record {
      effect = names a;
      acts = λ o. elim (Bool-cases (is_null_path o.pathname)) [
        | inl p ↦ rw (t, n, h, d, p, branch) refl
        | inr p ↦ rw (t, n, h, d, p, branch) refl
      ];
    }
  ]
]

acts_of : (a : CString) → Acts a
acts_of a = elim (Bool-cases (same_text a truncate_word)) [
  | inl t ↦
      subst Acts (sym (same_text-eq a truncate_word t))
        (record { effect = truncates; acts = truncate_acts })
  | inr t ↦ elim (Bool-cases (same_text a nocolor_word)) [
    | inl n ↦
        subst Acts (sym (same_text-eq a nocolor_word n))
          (record { effect = uncolors; acts = nocolor_acts })
    | inr n ↦ other_acts a t n
  ]
]

-- An argument that does not end the loop.
step_in :
    (a : CString) (rest : List CString) (o x : Flags)
    → parse_args (a ∷ rest) o ≡ parsed x
    → (o' : Flags) × (after (acts_of a).effect o ≡ some o') × (parse_args rest o' ≡ parsed x)
unfolding parse_args goes_on
step_in a rest o x e = by_branch (branch a o) ((acts_of a).acts o) e
  where
    by_branch :
        (b : Branch)
        → goes_on b ≡ after (acts_of a).effect o
        → (elim b as (λ y. Parsed) [
          | changes o' ↦ parse_args rest o'
          | asks ↦ helped
          | refuses c ↦ invalid c
        ])
          ≡ parsed x
        → (o' : Flags) × (after (acts_of a).effect o ≡ some o') × (parse_args rest o' ≡ parsed x)
    by_branch (changes o') f p = (o', sym f, p)
    by_branch asks f p = absurd (cc p)
    by_branch (refuses c) f p = absurd (cc p)

some-injective : {q r : Flags} → some q ≡ some r → q ≡ r
some-injective h = cc h

step_out :
    (a : CString) (rest : List CString) (o o' x : Flags)
    → after (acts_of a).effect o ≡ some o'
    → parse_args rest o' ≡ parsed x
    → parse_args (a ∷ rest) o ≡ parsed x
unfolding parse_args goes_on
step_out a rest o o' x e p = by_branch (branch a o) ((acts_of a).acts o ∙ e)
  where
    by_branch :
        (b : Branch)
        → goes_on b ≡ some o'
        → (elim b as (λ y. Parsed) [
          | changes o'' ↦ parse_args rest o''
          | asks ↦ helped
          | refuses c ↦ invalid c
        ])
          ≡ parsed x
    by_branch (changes o'') f = subst (λ q. parse_args rest q ≡ parsed x) (sym (some-injective f)) p
    by_branch asks f = absurd (cc f)
    by_branch (refuses c) f = absurd (cc f)

-- Two arguments one after the other.
both_after : Effect → Effect → Flags → Option Flags
both_after k l o = elim (after k o) [ none ↦ none | some o' ↦ after l o' ]

abbrev flags : Option CString → Bool → Bool → Flags
flags p t n = record { pathname = p; truncate = t; nocolor = n }

both_commute :
    (k l : Effect) (p : Option CString) (t n : Bool) (x : Flags)
    → both_after k l (flags p t n) ≡ some x
    → both_after l k (flags p t n) ≡ some x
unfolding both_after after is_null_path
both_commute truncates truncates p t n x e = e
both_commute uncolors uncolors p t n x e = e
both_commute stops l p t n x e = absurd (cc e)
both_commute truncates uncolors p false false x e = e
both_commute truncates uncolors p true n x e = absurd (cc e)
both_commute truncates uncolors p false true x e = absurd (cc e)
both_commute uncolors truncates p false false x e = e
both_commute uncolors truncates p t true x e = absurd (cc e)
both_commute uncolors truncates p true false x e = absurd (cc e)
both_commute truncates (names a) none false n x e = e
both_commute truncates (names a) p true n x e = absurd (cc e)
both_commute truncates (names a) (some b) false n x e = absurd (cc e)
both_commute (names a) truncates none false n x e = e
both_commute (names a) truncates (some b) t n x e = absurd (cc e)
both_commute (names a) truncates none true n x e = absurd (cc e)
both_commute uncolors (names a) none t false x e = e
both_commute uncolors (names a) p t true x e = absurd (cc e)
both_commute uncolors (names a) (some b) t false x e = absurd (cc e)
both_commute (names a) uncolors none t false x e = e
both_commute (names a) uncolors (some b) t n x e = absurd (cc e)
both_commute (names a) uncolors none t true x e = absurd (cc e)
both_commute (names a) (names b) none t n x e = absurd (cc e)
both_commute (names a) (names b) (some c) t n x e = absurd (cc e)
both_commute truncates stops p true n x e = absurd (cc e)
both_commute truncates stops p false n x e = absurd (cc e)
both_commute uncolors stops p t true x e = absurd (cc e)
both_commute uncolors stops p t false x e = absurd (cc e)
both_commute (names a) stops none t n x e = absurd (cc e)
both_commute (names a) stops (some b) t n x e = absurd (cc e)

-- The way through two arguments, by the flags between them.
between :
    (k l : Effect) (o x : Flags)
    → both_after k l o ≡ some x
    → (o' : Flags) × (after k o ≡ some o') × (after l o' ≡ some x)
unfolding both_after
between k l o x e = elim (Option-cases (after k o)) [
  | inl f ↦ absurd (cc (rw (both_after, f) at e))
  | inr (o', f) ↦ (o', f, rw (both_after, f) at e)
]

together :
    (k l : Effect) (o o1 o2 : Flags)
    → after k o ≡ some o1
    → after l o1 ≡ some o2
    → both_after k l o ≡ some o2
unfolding both_after
together k l o o1 o2 f g = rw (f, both_after) g

swap_lem :
    (a b : CString) (rest : List CString) (o x : Flags)
    → parse_args (a ∷ b ∷ rest) o ≡ parsed x
    → parse_args (b ∷ a ∷ rest) o ≡ parsed x
swap_lem a b rest o x e =
    let (o1, f, p) = step_in a (b ∷ rest) o x e in
    let (o2, g, q) = step_in b rest o1 x p in
    let (o3, h, r) = between (acts_of b).effect (acts_of a).effect o o2 (
      both_commute (acts_of a).effect (acts_of b).effect o.pathname o.truncate o.nocolor o2
        (together (acts_of a).effect (acts_of b).effect o o1 o2 f g)) in
    step_out b (a ∷ rest) o o3 x h (step_out a rest o3 o2 x r q)

-- The order of the arguments does not matter: where main of p3/main.c takes a command line, it takes the same
-- arguments in any other order, with the same flags and the same path name.
pub parse_args-Perm :
    {args args' : List CString} (o x : Flags)
    → Permᴰ args args'
    → parse_args args o ≡ parsed x
    → parse_args args' o ≡ parsed x
parse_args-Perm o x Permᴰ.nil e = e
parse_args-Perm o x (Permᴰ.cons {a = a} {l₁ = l₁} {l₂ = l₂} same p) e =
    let (o', f, q) = step_in a l₁ o x e in
    subst (λ c. parse_args (c ∷ l₂) o ≡ parsed x) same
      (step_out a l₂ o o' x f (parse_args-Perm o' x p q))
parse_args-Perm o x (Permᴰ.swap {a = a} {b = b} {b' = b'} {l = l} p q) e =
    subst (λ c. parse_args (c ∷ b' ∷ l) o ≡ parsed x) q
      (subst (λ c. parse_args (b ∷ c ∷ l) o ≡ parsed x) p (swap_lem a b l o x e))
parse_args-Perm o x (Permᴰ.trans p q) e = parse_args-Perm o x q (parse_args-Perm o x p e)
