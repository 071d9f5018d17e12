-- ===== src/Index/Open.antt =====
-- The empty table of `new_index` of p4/index.c.
use operating_systems_cs.Common.{ℕ, none, ◌≡◌, refl, arith}
use operating_systems_cs.Index.{new_index, lookup_key, lookup_loop}
use operating_systems_cs.Index.Table.{used, IsValid, view}

pub new_index-IsValid : IsValid new_index
unfolding new_index used
new_index-IsValid = record {
  width = refl;
  small = omega arith;
  counted = refl;
  placed = λ p b n. absurd (n refl);
}

pub new_index-view : (q : ℕ) → view new_index q ≡ none
unfolding new_index view lookup_key lookup_loop
new_index-view q = refl
