-- ===== src/Index/Table.antt =====
-- The table of p4/index.c as a finite map from hashes to offsets: the invariant, `update`, and
-- writes through the reference that it returns.
use operating_systems_cs.Common.{
  ℕ, zero, suc, ◌+◌, ◌^◌, ◌<◌, ◌≤◌, if◌then◌else◌, ◌==◌, Bool-cases, Option-cases, Option, none,
  some, List, [], ◌∷◌, set, length, ◌≡◌, ◌≢◌, refl, sym, ap, ◌∙◌, subst, ◌⊎◌, inl, inr, arith,
  get_or-set_self, get_or-set_ne, length-set, ==_iff,
}
use operating_systems_cs.Index.{
  Map, no_map, Index, map_at, update_loop, update, lookup_loop, lookup_key, write_off, read_off,
}
use operating_systems_cs.Index.Probe.{
  lookup_pos, lookup-found, lookup-set_free, lookup-set_same, key_set_same, Updated, update-Updated,
  added,
}

-- The slots in use.
unfoldable pub used : List Map → ℕ
used [] = 0
used (m ∷ maps) = if m.key == 0 then used maps else suc (used maps)

-- Every slot in use is the one that a lookup of its key finds.
abbrev pub IsPlaced : ℕ → List Map → Type 0
IsPlaced capacity maps =
    (p : ℕ)
    → p < capacity
    → (map_at maps p).key ≢ 0
    → lookup_loop capacity 0 capacity maps (map_at maps p).key ≡ some p

pub record IsValid (index : Index) : Type 0 where
  pub width : length index.maps ≡ index.capacity
  pub small : index.capacity < 2 ^ 49
  pub counted : index.size ≡ used index.maps
  pub placed : IsPlaced index.capacity index.maps

-- The abstract map: the offset under a hash.
unfoldable pub view : Index → ℕ → Option ℕ
view index key = elim (lookup_key index key) [ none ↦ none | some j ↦ some (read_off index j) ]

pub used-le : (maps : List Map) → used maps ≤ length maps
unfolding used
used-le [] = omega arith
used-le (m ∷ maps) = ground (arith, used-le maps)

used-set_same :
    (maps : List Map) (j : ℕ) (m : Map)
    → m.key ≡ (map_at maps j).key
    → used (set maps j m) ≡ used maps
unfolding used
used-set_same [] j m e = refl
used-set_same (x ∷ maps) zero m e = rw e
used-set_same (x ∷ maps) (suc j) m e = ground (arith, used-set_same maps j m e)

used-set_free :
    (maps : List Map) (j : ℕ) (m : Map)
    → j < length maps
    → (map_at maps j).key ≡ 0
    → m.key ≢ 0
    → used (set maps j m) ≡ suc (used maps)
unfolding used
used-set_free [] j m b f n = elim b [ ]
used-set_free (x ∷ maps) zero m b f n = ground arith
used-set_free (x ∷ maps) (suc j) m b f n = ground (arith, used-set_free maps j m)

pub eq_or_ne : (p q : ℕ) → (p ≡ q) ⊎ (p ≢ q)
eq_or_ne p q = elim (Bool-cases (p == q)) [
  | inl e ↦ inl ((==_iff p q).0 e)
  | inr e ↦ inr (ground arith)
]

pub none-ne-some {ℓ} : {A : Type ℓ} {a : A} (o : Option A) → o ≡ none → o ≡ some a → ⊥
none-ne-some o p q = cc

view_congr :
    (index index' : Index) (q : ℕ)
    → lookup_key index' q ≡ lookup_key index q
    → ((p : ℕ) → lookup_key index q ≡ some p → read_off index' p ≡ read_off index p)
    → view index' q ≡ view index q
unfolding view
view_congr index index' q e h = elim (Option-cases (lookup_key index q)) [
  | inl a ↦ rw (e, view, a) refl
  | inr (p, a) ↦ rw (e, view, a) (ap some (h p a))
]

-- A new key in a free slot.
module _ (capacity : ℕ) (maps : List Map) (key j : ℕ) (width : length maps ≡ capacity)
    (placed : IsPlaced capacity maps) (some_key : key ≢ 0) (free : (map_at maps j).key ≡ 0)
    (inside : j < capacity)
    (found : lookup_loop capacity 0 capacity (set maps j (record { key = key; off = 0 })) key
      ≡ some j) where
  at_j : map_at (set maps j (record { key = key; off = 0 })) j ≡ record { key = key; off = 0 }
  at_j = get_or-set_self maps j _ no_map (rw width inside)

  add-IsPlaced : IsPlaced capacity (set maps j (record { key = key; off = 0 }))
  add-IsPlaced p b n = elim (eq_or_ne j p) [
    | inl e ↦
        let maps' = set maps j (record { key = key; off = 0 }) in
        subst (λ p. lookup_loop capacity 0 capacity maps' (map_at maps' p).key ≡ some p) e
          (ap (λ (m : Map). lookup_loop capacity 0 capacity maps' m.key) at_j ∙ found)
    | inr e ↦
        let away = get_or-set_ne maps j p (record { key = key; off = 0 }) no_map e in
        rw away (lookup-set_free capacity 0 capacity maps _ p j _ free (placed p b (rw away at n)))
  ]

  lookup-add_other :
      (q : ℕ)
      → q ≢ key
      → lookup_loop capacity 0 capacity (set maps j (record { key = key; off = 0 })) q
        ≡ lookup_loop capacity 0 capacity maps q
  lookup-add_other q d = elim (Option-cases (lookup_loop capacity 0 capacity maps q)) [
    | inr (p, e) ↦ lookup-set_free capacity 0 capacity maps q p j _ free e ∙ sym e
    | inl e ↦
        elim (Option-cases
          (lookup_loop capacity 0 capacity (set maps j (record { key = key; off = 0 })) q)) [
            | inl e' ↦ e' ∙ sym e
            | inr (p, e') ↦
                let (k, n, b) = lookup-found capacity 0 capacity _ q p (omega arith) e' in
                let apart = λ (x : j ≡ p). d (
                  sym k
                  ∙ ap (λ t. (map_at (set maps j (record { key = key; off = 0 })) t).key) (sym x)
                  ∙ ap (λ (m : Map). m.key) at_j) in
                let here : (map_at maps p).key ≡ q =
                  ap (λ (m : Map). m.key) (sym (get_or-set_ne maps j p _ no_map apart)) ∙ k in
                let seen =
                  subst (λ t. lookup_loop capacity 0 capacity maps t ≡ some p) here
                    (placed p b (λ z. n (sym here ∙ z))) in
                absurd (none-ne-some _ e seen)
          ]
  ]

-- What `update` did for a key on a well-formed table: the reference is that of the key, and the
-- map is as before but that the key has an offset, 0 if it had none.
pub record Referred (index : Index) (key j : ℕ) (index' : Index) : Type 0 where
  pub valid : IsValid index'
  pub place : lookup_key index' key ≡ some j
  pub reads : read_off index' j ≡ (elim (view index key) [ none ↦ 0 | some off ↦ off ])
  pub others : (q : ℕ) → q ≢ key → view index' q ≡ view index q
  pub capacity : index'.capacity ≡ index.capacity
  pub size : index'.size ≤ index.size + 1

module _ (index : Index) (key j : ℕ) (v : IsValid index) (some_key : key ≢ 0)
    (free : (map_at index.maps j).key ≡ 0) (inside : j < index.capacity)
    (absent : lookup_key index key ≡ none)
    (found : lookup_loop index.capacity 0 index.capacity
        (set index.maps j (record { key = key; off = 0 }))
        key
      ≡ some j) where
  added-IsValid : IsValid (added index key j)
  added-IsValid = record {
    width = length-set index.maps j _ ∙ v.width;
    small = v.small;
    counted = omega (
      arith,
      v.counted,
      used-le index.maps,
      used-set_free index.maps j (record { key = key; off = 0 }) (rw v.width inside) free some_key,
    );
    placed =
        add-IsPlaced index.capacity index.maps key j v.width v.placed some_key free inside found;
  }

  added-Referred : Referred index key j (added index key j)
  unfolding view lookup_key read_off
  added-Referred = record {
    valid = added-IsValid;
    place = found;
    reads =
        ap (λ (m : Map). m.off)
          (at_j index.capacity index.maps key j v.width v.placed some_key free inside found)
        ∙ sym (rw (absent, view) refl);
    others = λ q d.
        view_congr index (added index key j) q
          (lookup-add_other index.capacity index.maps key j v.width v.placed some_key free inside
            found q d)
          (λ p e.
            ap (λ (m : Map). m.off) (get_or-set_ne index.maps j p _ no_map (elsewhere q p e)));
    capacity = refl;
    size = omega arith;
  }
    where
      elsewhere : (q p : ℕ) → lookup_key index q ≡ some p → j ≢ p
      elsewhere q p e x =
          let (k, n, b) =
            lookup-found index.capacity 0 index.capacity index.maps q p (omega arith) e in
          n (sym k ∙ ap (λ t. (map_at index.maps t).key) (sym x) ∙ free)

capacity-pos :
    (index : Index) (key : ℕ) {r : ℕ × Index} → update index key ≡ some r → 0 < index.capacity
unfolding update
capacity-pos index key e = go index.capacity e
  where
    go : (n : ℕ) {r : ℕ × Index} → update_loop n 0 index key ≡ some r → 0 < n
    go zero e = unfold update_loop in cc
    go (suc n) e = omega arith

-- `update` refers the key to a slot of its own: the table stays well-formed, the slot is the one
-- that lookups find, an old key keeps its offset, a new one has the offset 0, and every other key
-- reads as before.
pub update-Referred :
    (index : Index) (key j : ℕ) (index' : Index)
    → IsValid index
    → key ≢ 0
    → update index key ≡ some (j, index')
    → Referred index key j index'
unfolding update lookup_key view
update-Referred index key j index' v n e =
    outcome
      (update-Updated index.capacity 0 index key j index' (capacity-pos index key e) v.width n e)
  where
    outcome : Updated index.capacity 0 index key j index' → Referred index key j index'
    outcome (inl (found, same)) = subst (Referred index key j) (sym same) (record {
      valid = v;
      place = found;
      reads = rw (found, view) refl;
      others = λ q d. refl;
      capacity = refl;
      size = omega arith;
    })
    outcome (inr (absent, free, inside, found, same)) =
        subst (Referred index key j) (sym same)
          (added-Referred index key j v n free inside absent found)

-- A write through the reference of a key changes the offset of that key alone.
pub record Written (index : Index) (key off : ℕ) (index' : Index) : Type 0 where
  pub valid : IsValid index'
  pub reads : view index' key ≡ some off
  pub others : (q : ℕ) → q ≢ key → view index' q ≡ view index q
  pub capacity : index'.capacity ≡ index.capacity
  pub size : index'.size ≡ index.size

pub write_off-Written :
    (index : Index) (key j off : ℕ)
    → IsValid index
    → lookup_key index key ≡ some j
    → Written index key off (write_off index j off)
unfolding write_off lookup_key view read_off
write_off-Written index key j off v e =
    let inside = found.2 in
    record {
      valid = record {
        width = length-set index.maps j _ ∙ v.width;
        small = v.small;
        counted = v.counted ∙ sym (used-set_same index.maps j _ refl);
        placed = λ p b n.
            let k = key_set_same index.maps j p _ (rw v.width inside) refl in
            same _
            ∙ ap (lookup_loop index.capacity 0 index.capacity index.maps) k
            ∙ v.placed p b (λ z. n (k ∙ z));
      };
      reads = rw (same key, view, e) (ap some (ap (λ (m : Map). m.off) back));
      others = λ q d. view_congr index (write_off index j off) q (same q) (λ p x.
          ap (λ (m : Map). m.off) (get_or-set_ne index.maps j p _ no_map (elsewhere q p d x)));
      capacity = refl;
      size = refl;
    }
  where
    found : ((map_at index.maps j).key ≡ key) × (key ≢ 0) × (j < index.capacity)
    found =
        lookup-found index.capacity 0 index.capacity index.maps key j
          (lookup_pos index.capacity 0 index.capacity index.maps key e) e

    back :
        map_at (set index.maps j (record (map_at index.maps j) { off = off })) j
        ≡ record (map_at index.maps j) { off = off }
    back = get_or-set_self index.maps j _ no_map (rw v.width found.2)

    elsewhere : (q p : ℕ) → q ≢ key → lookup_key index q ≡ some p → j ≢ p
    elsewhere q p d x y =
        let k =
          lookup-found index.capacity 0 index.capacity index.maps q p
            (lookup_pos index.capacity 0 index.capacity index.maps q x) x in
        d (sym k.0 ∙ ap (λ t. (map_at index.maps t).key) (sym y) ∙ found.0)

    same :
        (q : ℕ)
        → lookup_loop index.capacity 0 index.capacity
            (set index.maps j (record (map_at index.maps j) { off = off }))
            q
          ≡ lookup_loop index.capacity 0 index.capacity index.maps q
    same q =
        lookup-set_same index.capacity 0 index.capacity index.maps q j _ (rw v.width found.2) refl
