-- ===== src/Avl/Tests.antt =====
-- The word tree of p3/avl.c over a region that counts its free bytes: runs, and the theorems at
-- concrete trees.
use operating_systems_cs.Common.{
  ℕ, ◌+◌, ◌-◌, Bool, true, false, not, ◌||◌, leb, if◌then◌else◌, Option, some, ◌>>=◌, [], ◌∷◌,
  Ordering, ◌≡◌, refl, arith, length,
}
use operating_systems_cs.Common.Int.{pos}
use operating_systems_cs.Common.Text.{CString, strcmp}
use operating_systems_cs.Avl.{
  Scm, Node, null, node, Avl, inc64, delta, balance, depth, refresh, rotate_right, rotate_left,
  rotate_left_right, rotate_right_left, turn_right, turn_left, item_of, fix_left, fix_right,
  new_node, update, set_root, avl_insert, search_from, traverse, avl_exists, avl_traverse,
  avl_items, avl_unique,
}
use operating_systems_cs.Avl.Entries.{tally, has, total}
use operating_systems_cs.Avl.Insert.{has_room}
use operating_systems_cs.Avl.Words.{
  IsValid, is_null, avl_insert-IsValid, avl_exists-avl_insert, avl_insert-full,
}

-- A region is the number of its free bytes.
abbrev take_bytes : ℕ → ℕ → Bool × ℕ
take_bytes free n = if leb n free then (true, free - n) else (false, free)

abbrev bytes : Scm
bytes = record {
  Region = ℕ;
  scm_malloc = take_bytes;
  scm_strdup = λ free s. take_bytes free (length s + 1);
}

abbrev empty : ℕ → Avl bytes
empty free = record { items = 0; unique = 0; root = null; region = free }

program : Unit {0}
unfolding strcmp delta balance depth refresh rotate_right rotate_left rotate_left_right
    rotate_right_left turn_right turn_left item_of fix_left fix_right new_node update set_root
    avl_insert search_from traverse avl_exists avl_traverse avl_items avl_unique has_room tally has
    total
program = tt

abbrev word : ℕ → CString
word c = c ∷ []

-- The words c, a and b, which takes a double rotation; then c again.
abbrev session : Option (Bool × Avl bytes)
session = avl_insert bytes (empty 1000) (word b'c') >>= λ r.
    avl_insert bytes r.1 (word b'a') >>= λ r.
    avl_insert bytes r.1 (word b'b') >>= λ r. avl_insert bytes r.1 (word b'c')

leaf : ℕ → ℕ → Node
leaf n c = node (pos 0) n (word c) null null

abbrev three : Avl bytes
three = record {
  items = 4;
  unique = 3;
  root = node (pos 1) 1 (word b'b') (leaf 1 b'a') (leaf 2 b'c');
  region = 874;
}

session_lem : session ≡ some (true, three)
unfolding program leaf
session_lem = refl

three-IsValid : IsValid three
unfolding program leaf
three-IsValid = record {
  balanced = ground arith;
  sorted = ((refl, (refl, tt)), ((refl, tt), (tt, tt)));
  items = refl;
  unique = refl;
}

avl_insert-IsValid_example :
    (r : Bool × Avl bytes) × (avl_insert bytes three (word b'd') ≡ some r)
    × IsValid r.1
    × (avl_traverse r.1 ≡ tally (has_room three (word b'd')) (word b'd') (avl_traverse three))
    × (r.0 ≡ not (is_null three.root) || has_room three (word b'd'))
avl_insert-IsValid_example = avl_insert-IsValid three (word b'd') three-IsValid

abbrev four : Avl bytes
four = record {
  items = 5;
  unique = 4;
  root = node (pos 2) 1 (word b'b') (leaf 1 b'a') (node (pos 1) 2 (word b'c') null (leaf 1 b'd'));
  region = 832;
}

insert_four : avl_insert bytes three (word b'd') ≡ some (true, four)
unfolding program leaf
insert_four = refl

room_three : has_room three (word b'd') ≡ true
unfolding program
room_three = refl

avl_exists-avl_insert_example :
    avl_exists four (word b'd') ≡ elim (strcmp (word b'd') (word b'd')) [
      | Ordering.eq ↦ inc64 (avl_exists three (word b'd'))
      | _ ↦ avl_exists three (word b'd')
    ]
avl_exists-avl_insert_example =
    avl_exists-avl_insert three (word b'd') (word b'd') (true, four) three-IsValid room_three
      insert_four

-- The same tree over a region with no byte left.
abbrev stuffed : Avl bytes
stuffed = record three { region = 0 }

stuffed-IsValid : IsValid stuffed
unfolding avl_traverse avl_items avl_unique
stuffed-IsValid = record {
  balanced = three-IsValid.balanced;
  sorted = three-IsValid.sorted;
  items = three-IsValid.items;
  unique = three-IsValid.unique;
}

no_room : has_room stuffed (word b'd') ≡ false
unfolding program
no_room = refl

no_word : has (word b'd') (avl_traverse stuffed) ≡ false
unfolding program leaf
no_word = refl

avl_insert-full_example :
    (r : Bool × Avl bytes) × (avl_insert bytes stuffed (word b'd') ≡ some r)
    × (r.0 ≡ true)
    × (avl_traverse r.1 ≡ avl_traverse stuffed)
    × (avl_items r.1 ≡ avl_items stuffed)
    × (avl_unique r.1 ≡ avl_unique stuffed)
avl_insert-full_example = avl_insert-full stuffed (word b'd') stuffed-IsValid no_room no_word refl
