-- ===== src/Avl/Words.antt =====
-- The public calls of p3/avl.c on a well-formed tree: the invariant, the counts that `avl_exists`
-- reports, what a full region does, and the height.
use mathlib.Core.Option.{some-injective}
use operating_systems_cs.Common.{
  subst, ap₂, ℕ, suc, ◌%◌, ◌^◌, Bool, true, false, ◌||◌, not, if◌then◌else◌, some, [], ◌∷◌, ◌++◌,
  Ordering, ◌≡◌, refl, sym, ap, ◌∙◌, arith, length, length-append,
}
use operating_systems_cs.Common.Text.{CString, strcmp}
use operating_systems_cs.Avl.{
  Scm, Node, null, node, Avl, inc64, set_root, avl_insert, search_from, traverse, avl_exists,
  avl_traverse, avl_items, avl_unique,
}
use operating_systems_cs.Avl.Balance.{IsAvl, height, Grown}
use operating_systems_cs.Avl.Entries.{
  IsSorted, tally, tally-IsSorted, tally-no_room, count_of, count_of-tally, has, total, total-tally,
  length-tally,
}
use operating_systems_cs.Avl.Insert.{
  search_from-count_of, has_room, update-IsAvl, update-Updated, Updated,
}

traverse-height : (t : Node) → height t ≡ 0 → traverse t ≡ []
unfolding traverse
traverse-height null h = refl
traverse-height (node d c k l r) h = absurd (omega arith)

length_counter :
    (here room : Bool) (n : ℕ)
    → (if here then n % 2 ^ 64 else if room then inc64 (n % 2 ^ 64) else n % 2 ^ 64)
      ≡ (if here then n else if room then suc n else n) % 2 ^ 64
length_counter here room n = ground arith

abbrev pub is_null : Node → Bool
is_null null = true
is_null (node d c k l r) = false

-- A node is returned for a tree that had one, and for a new word.
status_lem :
    (t l r : Node) (k item : CString) (c : ℕ) (room : Bool)
    → traverse l ++ (k, c) ∷ traverse r ≡ tally room item (traverse t)
    → true ≡ not (is_null t) || room
unfolding traverse tally
status_lem (node d' c' k' l' r') l r k item c room h = refl
status_lem null l r k item c true h = refl
status_lem null l r k item c false h =
    let e = ap length h in
    absurd (omega (arith, e, length-append (traverse l) ((k, c) ∷ traverse r)))

empty_status :
    (t : Node) (item : CString) (room : Bool)
    → height t ≡ 0
    → [] ≡ tally room item []
    → false ≡ not (is_null t) || room
unfolding tally
empty_status (node d c k l r) item room h e = absurd (omega arith)
empty_status null item true h e = absurd (omega (arith, ap length e))
empty_status null item false h e = refl

module _ {scm : Scm} where
  -- The well-formed trees: balanced, in strict order, and with counters that agree with the words.
  pub record IsValid (avl : Avl scm) : Type 0 where
    pub balanced : IsAvl avl.root
    pub sorted : IsSorted (avl_traverse avl)
    pub items : avl_items avl ≡ total (avl_traverse avl) % 2 ^ 64
    pub unique : avl_unique avl ≡ length (avl_traverse avl) % 2 ^ 64

  pub empty-IsValid :
      (region : scm.Region)
      → IsValid (record { items = 0; unique = 0; root = null; region = region })
  unfolding avl_traverse avl_items avl_unique traverse total
  empty-IsValid region = record { balanced = tt; sorted = tt; items = refl; unique = refl }

  -- The region does not matter.
  pub IsValid-kept :
      (avl avl' : Avl scm)
      → avl'.items ≡ avl.items
      → avl'.unique ≡ avl.unique
      → avl'.root ≡ avl.root
      → IsValid avl
      → IsValid avl'
  unfolding avl_traverse avl_items avl_unique
  IsValid-kept avl avl' i u r v = record {
    balanced = subst IsAvl (sym r) v.balanced;
    sorted = subst (λ t. IsSorted (traverse t)) (sym r) v.sorted;
    items = i ∙ v.items ∙ ap (λ t. total (traverse t) % 2 ^ 64) (sym r);
    unique = u ∙ v.unique ∙ ap (λ t. length (traverse t) % 2 ^ 64) (sym r);
  }

  -- What `avl_insert` leaves behind `update`: the words, and the balance.
  set_root_lem :
      (avl : Avl scm) (item : CString) (u : Node × Avl scm)
      → IsAvl avl.root
      → IsAvl u.0
      → Grown item (height avl.root) u.0
      → Updated avl avl.root item u
      → IsAvl (set_root scm u.0 u.1).1.root
        × (traverse (set_root scm u.0 u.1).1.root
            ≡ tally (has_room avl item) item (traverse avl.root))
        × ((set_root scm u.0 u.1).0 ≡ not (is_null avl.root) || has_room avl item)
        × ((set_root scm u.0 u.1).1.items ≡ u.1.items)
        × ((set_root scm u.0 u.1).1.unique ≡ u.1.unique)
  unfolding set_root
  set_root_lem avl item (null, avl') a b g w =
      let empty = traverse-height avl.root (ground arith) in
      let none_left : [] ≡ tally (has_room avl item) item [] =
        unfold traverse in (w.entries ∙ ap (tally (has_room avl item) item) empty) in
      (
        rw w.root a,
        ap traverse w.root ∙ empty ∙ unfold traverse in w.entries,
        empty_status avl.root item (has_room avl item) (ground arith) none_left,
        refl,
        refl,
      )
  set_root_lem avl item (node d c k l r, avl') a b g w = (
    b,
    w.entries,
    status_lem avl.root l r k item c (has_room avl item) (unfold traverse in w.entries),
    refl,
    refl,
  )

  -- On a well-formed tree `avl_insert` follows no null pointer and leaves a well-formed tree, whose
  -- words are the old ones with one more occurrence of the item, which is added as a new word only
  -- if the region has room for it. It returns 0 if the tree was not empty or there was room, and
  -- -1 otherwise.
  pub avl_insert-IsValid :
      (avl : Avl scm) (item : CString)
      → IsValid avl
      → (r : Bool × Avl scm) × (avl_insert scm avl item ≡ some r)
        × IsValid r.1
        × (avl_traverse r.1 ≡ tally (has_room avl item) item (avl_traverse avl))
        × (r.0 ≡ not (is_null avl.root) || has_room avl item)
  unfolding avl_insert avl_traverse avl_items avl_unique
  avl_insert-IsValid avl item v =
      let (u, run, a, g) = update-IsAvl avl avl.root item v.balanced in
      let w = update-Updated avl avl.root item u v.sorted run in
      let (b, words, status, i, n) = set_root_lem avl item u v.balanced a g w in
      let room = has_room avl item in
      let es = traverse avl.root in
      (
        set_root scm u.0 u.1,
        rw run,
        record {
          balanced = b;
          sorted = rw words (tally-IsSorted room item es v.sorted);
          items =
              i
              ∙ w.items
              ∙ ap (λ x. if has item es || room then inc64 x else x) v.items
              ∙ sym (total-tally room item es v.sorted)
              ∙ ap (λ x. total x % 2 ^ 64) (sym words);
          unique =
              n
              ∙ w.unique
              ∙ ap (λ x. if has item es then x else if room then inc64 x else x) v.unique
              ∙ length_counter (has item es) room (length es)
              ∙ ap (λ x. x % 2 ^ 64) (sym (length-tally room item es v.sorted))
              ∙ ap (λ x. length x % 2 ^ 64) (sym words);
        },
        words,
        status,
      )

  -- Where there is room, one more occurrence of the item is read back, and the count of every other
  -- word is as before.
  pub avl_exists-avl_insert :
      (avl : Avl scm) (item word : CString) (r : Bool × Avl scm)
      → IsValid avl
      → has_room avl item ≡ true
      → avl_insert scm avl item ≡ some r
      → avl_exists r.1 word ≡ elim (strcmp word item) [
        | Ordering.eq ↦ inc64 (avl_exists avl item)
        | _ ↦ avl_exists avl word
      ]
  unfolding avl_exists avl_traverse
  avl_exists-avl_insert avl item word r v room run =
      let (r', run', v', words, _) = avl_insert-IsValid avl item v in
      let same : r' ≡ r = some-injective _ _ (sym run' ∙ run) in
      let old = λ (w : CString). sym (search_from-count_of avl.root w v.sorted) in
      ap (λ (x : Bool × Avl scm). search_from x.1.root word) (sym same)
      ∙ search_from-count_of r'.1.root word v'.sorted
      ∙ ap (count_of word) words
      ∙ ap (λ b. count_of word (tally b item (traverse avl.root))) room
      ∙ count_of-tally item word (traverse avl.root) v.sorted
      ∙ ap₂ (λ a b. elim (strcmp word item) [ Ordering.eq ↦ inc64 a | _ ↦ b ]) (old item) (old word)

  -- A word that a full region cannot take: in a tree that is not empty `avl_insert` returns 0 as
  -- if it had stored the word, and the words and both counters are as before.
  pub avl_insert-full :
      (avl : Avl scm) (item : CString)
      → IsValid avl
      → has_room avl item ≡ false
      → has item (avl_traverse avl) ≡ false
      → is_null avl.root ≡ false
      → (r : Bool × Avl scm) × (avl_insert scm avl item ≡ some r)
        × (r.0 ≡ true)
        × (avl_traverse r.1 ≡ avl_traverse avl)
        × (avl_items r.1 ≡ avl_items avl)
        × (avl_unique r.1 ≡ avl_unique avl)
  avl_insert-full avl item v full absent kept =
      let (r, run, v', words, status) = avl_insert-IsValid avl item v in
      let same =
        words ∙ ap (λ b. tally b item (avl_traverse avl)) full ∙ tally-no_room item _ absent in
      (
        r,
        run,
        status ∙ rw kept refl,
        same,
        v'.items ∙ ap (λ x. total x % 2 ^ 64) same ∙ sym v.items,
        v'.unique ∙ ap (λ x. length x % 2 ^ 64) same ∙ sym v.unique,
      )
