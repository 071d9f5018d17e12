-- ===== src/Index/Tests.antt =====
-- The hash index of p4/index.c: runs, and the theorems at concrete tables.
use operating_systems_cs.Common.{
  ℕ, ◌*◌, ◌%◌, ◌^◌, Bool, true, false, some, List, [], ◌∷◌, ◌≡◌, ◌≢◌, refl, ◌⊎◌, arith,
}
use operating_systems_cs.Index.{
  Index, probe, update_loop, update, lookup_loop, lookup_key, write_off, read_off, create, rehash,
  overloaded, next_capacity, Outcome, ok, failed, or_exit, grow, new_index, key_of, index_update,
  index_lookup,
}
use operating_systems_cs.Index.Hash.{hash}
use operating_systems_cs.Index.Table.{used, IsValid, view}
use operating_systems_cs.Index.Grow.{or_zero, index_update-refers}
use operating_systems_cs.Index.Bounds.{Few, new_index-Few, index_update-Few}
use operating_systems_cs.Index.Total.{index_update_total}

unfoldable pub program : Unit {0}
unfolding hash probe update_loop update lookup_loop lookup_key write_off read_off create rehash
    overloaded next_capacity or_exit grow new_index key_of index_update index_lookup used view
program = tt

abbrev plenty : ℕ → Bool
plenty n = true

abbrev letter : List ℕ
letter = b'K' ∷ []

open_table : IsValid new_index
unfolding new_index used
open_table = record {
  width = refl;
  small = omega arith;
  counted = refl;
  placed = λ p b n. absurd (n refl);
}

-- The first `index_update` of an empty table takes it to 145 slots.
first : Outcome (ℕ × Index)
unfolding program
first = index_update plenty new_index letter

-- The value that a call left, or the empty table.
abbrev value_of : Outcome (ℕ × Index) → ℕ × Index
value_of (ok r) = r
value_of _ = (0, new_index)

first_size : ((value_of first).1.size ≡ 1) × ((value_of first).1.capacity ≡ 145)
unfolding program first
first_size = (refl, refl)

index_update-refers_example :
    IsValid (value_of first).1
    × (index_lookup (value_of first).1 letter ≡ some (value_of first).0)
    × (read_off (value_of first).1 (value_of first).0 ≡ or_zero (view new_index (key_of letter)))
    × ((q : ℕ) → q ≢ key_of letter → view (value_of first).1 q ≡ view new_index q)
index_update-refers_example =
    index_update-refers plenty new_index letter (value_of first).0 (value_of first).1 open_table
      (unfold new_index in omega arith) (unfold first in refl)

index_update_total_example :
    ((r : ℕ × Index) × (index_update plenty new_index letter ≡ ok r))
    ⊎ (index_update plenty new_index letter ≡ failed)
      × (overloaded new_index ≡ true)
      × (plenty (next_capacity new_index.capacity * 16 % 2 ^ 64) ≡ false)
unfolding new_index
index_update_total_example =
    index_update_total plenty new_index letter open_table (omega arith) tt
      (unfold program in omega arith)

index_update-Few_example : Few 1 (value_of first).1
unfolding first
index_update-Few_example =
    index_update-Few plenty 0 new_index letter (value_of first).0 (value_of first).1 open_table
      (unfold new_index in omega arith) new_index-Few (unfold program in omega arith) refl
