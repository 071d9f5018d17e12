-- ===== src/Index/Rehash.antt =====
-- The loop of `grow` of p4/index.c, from the old table to the larger one.
use mathlib.Core.Option.{some-injective}
use operating_systems_cs.Common.{
  ℕ, zero, suc, ◌+◌, ◌<◌, ◌≤◌, true, false, if◌then◌else◌, ◌==◌, Bool-cases, Option-cases,
  bind_some, Option, none, some, List, [], ◌∷◌, length, ◌≡◌, ◌≢◌, refl, sym, ap, ◌∙◌, subst, inl,
  inr, arith, ==_iff,
}
use operating_systems_cs.Index.{
  Map, Index, map_at, update, lookup_loop, lookup_key, write_off, read_off, rehash,
}
use operating_systems_cs.Index.Probe.{lookup_pos, lookup-found}
use operating_systems_cs.Index.Table.{
  used, IsValid, view, eq_or_ne, none-ne-some, update-Referred, write_off-Written,
}

-- The offset under a key in the slots, by a search through all of them.
unfoldable pub assoc : ℕ → List Map → Option ℕ
assoc q [] = none
assoc q (m ∷ maps) =
    let rest = assoc q maps in if m.key == 0 then rest else if m.key == q then some m.off else rest

-- A slot in use that holds the key with the offset.
abbrev pub Holds : ℕ → List Map → ℕ → Type 0
Holds q maps off =
    (p : ℕ) × (p < length maps) × ((map_at maps p).key ≡ q) × (q ≢ 0) × ((map_at maps p).off ≡ off)

Holds-cons :
    (q : ℕ) (m : Map) (maps : List Map) (off : ℕ) → Holds q maps off → Holds q (m ∷ maps) off
Holds-cons q m maps off (p, b, k, n, o) = (suc p, omega arith, k, n, o)

pub assoc-some : (q : ℕ) (maps : List Map) (off : ℕ) → assoc q maps ≡ some off → Holds q maps off
unfolding assoc
assoc-some q [] off h = cc
assoc-some q (m ∷ maps) off h = elim (Bool-cases (m.key == 0)) [
  | inl free ↦ Holds-cons q m maps off (assoc-some q maps off (rw free at h))
  | inr taken ↦ elim (Bool-cases (m.key == q)) [
    | inl here ↦ (0, omega arith, (==_iff _ _).0 here, ground arith, ground arith)
    | inr other ↦ Holds-cons q m maps off (assoc-some q maps off (rw (taken, other) at h))
  ]
]

pub assoc-none :
    (q : ℕ) (maps : List Map) (p : ℕ)
    → assoc q maps ≡ none
    → p < length maps
    → q ≢ 0
    → (map_at maps p).key ≢ q
unfolding assoc
assoc-none q [] p h b n = elim b [ ]
assoc-none q (m ∷ maps) zero h b n = ground arith
assoc-none q (m ∷ maps) (suc p) h b n = ground (arith, assoc-none q maps p)

-- In a well-formed table the search through all slots is the lookup.
pub view-assoc : (index : Index) (q : ℕ) → IsValid index → view index q ≡ assoc q index.maps
unfolding view lookup_key
view-assoc index q v = elim (Option-cases (assoc q index.maps)) [
  | inr (off, e) ↦
      let (p, b, k, n, o) = assoc-some q index.maps off e in
      let seen =
        subst (λ t. lookup_loop index.capacity 0 index.capacity index.maps t ≡ some p) k
          (v.placed p (rw (← v.width) b) (λ z. n (sym k ∙ z))) in
      rw (seen, view, e) (ap some (unfold read_off in o))
  | inl e ↦ elim (Option-cases (lookup_key index q)) [
    | inl x ↦ rw (x, view, e) refl
    | inr (p, x) ↦
        let (k, n, b) =
          lookup-found index.capacity 0 index.capacity index.maps q p
            (lookup_pos index.capacity 0 index.capacity index.maps q x) x in
        absurd (assoc-none q index.maps p e (rw v.width b) n k)
  ]
]

-- No key stands in two slots.
abbrev pub IsUnique : List Map → Type 0
IsUnique maps =
    (p p' : ℕ)
    → p < length maps
    → p' < length maps
    → (map_at maps p).key ≢ 0
    → (map_at maps p).key ≡ (map_at maps p').key
    → p ≡ p'

pub IsValid-IsUnique : (index : Index) → IsValid index → IsUnique index.maps
IsValid-IsUnique index v p p' b b' n e = some-injective _ _ (
    sym (v.placed p (rw (← v.width) b) n)
    ∙ ap (lookup_loop index.capacity 0 index.capacity index.maps) e
    ∙ v.placed p' (rw (← v.width) b') (λ z. n (e ∙ z)))

IsUnique-tail : (m : Map) (maps : List Map) → IsUnique (m ∷ maps) → IsUnique maps
IsUnique-tail m maps u p p' b b' n e =
    omega (arith, u (suc p) (suc p') (omega arith) (omega arith) n e)

IsUnique-head :
    (m : Map) (maps : List Map) → IsUnique (m ∷ maps) → m.key ≢ 0 → assoc m.key maps ≡ none
IsUnique-head m maps u n = elim (Option-cases (assoc m.key maps)) [
  | inl e ↦ e
  | inr (off, e) ↦
      let (p, b, k, _, _) = assoc-some m.key maps off e in
      absurd (omega (arith, u 0 (suc p) (omega arith) (omega arith) n (sym k)))
]

abbrev pub either : Option ℕ → Option ℕ → Option ℕ
either none o = o
either (some a) o = some a

-- The keys still to be moved are not yet in the new table.
abbrev pub Apart : List Map → Index → Type 0
Apart maps fresh = (q off : ℕ) → assoc q maps ≡ some off → view fresh q ≡ none

assoc-free :
    (q : ℕ) (m : Map) (maps : List Map) → (m.key == 0) ≡ true → assoc q (m ∷ maps) ≡ assoc q maps
unfolding assoc
assoc-free q m maps free = ground arith

assoc-here : (m : Map) (maps : List Map) → m.key ≢ 0 → assoc m.key (m ∷ maps) ≡ some m.off
unfolding assoc
assoc-here m maps n = ground arith

assoc-other : (q : ℕ) (m : Map) (maps : List Map) → q ≢ m.key → assoc q (m ∷ maps) ≡ assoc q maps
unfolding assoc
assoc-other q m maps d = ground arith

pub taken_zero : (k : ℕ) → (k == 0) ≡ false → k ≢ 0
taken_zero k h = ground arith

-- The move of one slot.
pub record Step (m : Map) (fresh next : Index) : Type 0 where
  pub valid : IsValid next
  pub capacity : next.capacity ≡ fresh.capacity
  pub size : next.size ≤ fresh.size + 1
  pub reads : view next m.key ≡ some m.off
  pub others : (q : ℕ) → q ≢ m.key → view next q ≡ view fresh q

pub move_one :
    (m : Map) (fresh : Index) (j : ℕ) (index' : Index)
    → IsValid fresh
    → m.key ≢ 0
    → update fresh m.key ≡ some (j, index')
    → Step m fresh (write_off index' j m.off)
move_one m fresh j index' v n run =
    let r = update-Referred fresh m.key j index' v n run in
    let w = write_off-Written index' m.key j m.off r.valid r.place in
    record {
      valid = w.valid;
      capacity = w.capacity ∙ r.capacity;
      size = omega (arith, w.size, r.size);
      reads = w.reads;
      others = λ q d. w.others q d ∙ r.others q d;
    }

Apart-tail :
    (m : Map) (maps : List Map) (fresh next : Index)
    → IsUnique (m ∷ maps)
    → m.key ≢ 0
    → Apart (m ∷ maps) fresh
    → Step m fresh next
    → Apart maps next
Apart-tail m maps fresh next u n a step q off h = elim (eq_or_ne q m.key) [
  | inl e ↦
      absurd (none-ne-some _ (IsUnique-head m maps u n) (subst (λ t. assoc t maps ≡ some off) e h))
  | inr d ↦ step.others q d ∙ a q off (assoc-other q m maps d ∙ h)
]

reads_after :
    (m : Map) (maps : List Map) (fresh next : Index) (q : ℕ)
    → m.key ≢ 0
    → Apart (m ∷ maps) fresh
    → Step m fresh next
    → either (view next q) (assoc q maps) ≡ either (view fresh q) (assoc q (m ∷ maps))
reads_after m maps fresh next q n a step = elim (eq_or_ne q m.key) [
  | inl e ↦
      let here = assoc-here m maps n in
      subst (λ t. either (view next t) (assoc t maps) ≡ either (view fresh t) (assoc t (m ∷ maps)))
        (sym e) (rw (step.reads, a m.key m.off here, here) refl)
  | inr d ↦ rw (step.others q d, assoc-other q m maps d) refl
]

nothing_moved : (q : ℕ) (o : Option ℕ) → o ≡ either o (assoc q [])
unfolding assoc
nothing_moved q none = refl
nothing_moved q (some off) = refl

-- A completed move into a fresh table: it holds the keys of both.
pub record Moved (maps : List Map) (fresh fresh' : Index) : Type 0 where
  pub valid : IsValid fresh'
  pub capacity : fresh'.capacity ≡ fresh.capacity
  pub size : fresh'.size ≤ fresh.size + used maps
  pub reads : (q : ℕ) → view fresh' q ≡ either (view fresh q) (assoc q maps)

pub rehash-Moved :
    (maps : List Map) (fresh fresh' : Index)
    → IsValid fresh
    → IsUnique maps
    → Apart maps fresh
    → rehash maps fresh ≡ some fresh'
    → Moved maps fresh fresh'
unfolding rehash used
rehash-Moved [] fresh fresh' v u a e = subst (Moved [] fresh) (some-injective _ _ e) (record {
  valid = v;
  capacity = refl;
  size = omega arith;
  reads = λ q. nothing_moved q (view fresh q);
})
rehash-Moved (m ∷ maps) fresh fresh' v u a e = elim (Bool-cases (m.key == 0)) [
  | inl free ↦
      let same = λ (q : ℕ). assoc-free q m maps free in
      let rest =
        rehash-Moved maps fresh fresh' v (IsUnique-tail m maps u) (λ q off h. a q off (same q ∙ h))
          (rw (free, rehash) at e) in
      record {
        valid = rest.valid;
        capacity = rest.capacity;
        size = rw (free, used) rest.size;
        reads = λ q. rest.reads q ∙ ap (either (view fresh q)) (sym (same q));
      }
  | inr taken ↦
      let (r, run, e') = bind_some (update fresh m.key) _ fresh' (rw (taken, rehash) at e) in
      let n = λ (z : m.key ≡ 0). taken_zero m.key taken z in
      let step = move_one m fresh r.0 r.1 v n run in
      let rest =
        rehash-Moved maps (write_off r.1 r.0 m.off) fresh' step.valid (IsUnique-tail m maps u)
          (Apart-tail m maps fresh _ u n a step) e' in
      record {
        valid = rest.valid;
        capacity = rest.capacity ∙ step.capacity;
        size = rw (taken, used) (omega (arith, rest.size, step.size));
        reads = λ q. rest.reads q ∙ reads_after m maps fresh _ q n a step;
      }
]
