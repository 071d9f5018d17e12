-- ===== src/Kvdb/Tests.antt =====
-- Tests and witnesses of the database of p4/kvdb.c on a log in memory.
use operating_systems_cs.Common.{
  ℕ, ◌+◌, ◌<◌, ◌≤◌, ◌^◌, Bool, true, false, Option, none, some, [], ◌∷◌, ◌≡◌, refl, arith,
}
use operating_systems_cs.Common.Text.{CString, advance, first_bytes}
use operating_systems_cs.Kvraw.{
  le_bytes, le_value, encode, decode, checked, read_meta, kvraw_lookup, append_all, end_append,
  kvraw_append, kvraw_open, new_kvraw,
}
use operating_systems_cs.Index.{index_open, key_of}
use operating_systems_cs.Index.Bounds.{new_index-Few}
use operating_systems_cs.Kvraw.Tests.{memory, all_bytes, memory-IsLogfs}
use operating_systems_cs.Index.Tests.{program}
use operating_systems_cs.Kvdb.{
  Kvdb, done, refused, insert, mutate, mutate_from, mutate_end, apply_mode, payload, count,
  count_first, refuses, append_through, through_end, chain_lookup, chain_loop, mismatch, same_bytes,
  full_key, lookup_at, lookup_end, kvdb_insert, kvdb_lookup, kvdb_open, with_index,
}
use operating_systems_cs.Kvdb.Store.{value_of, IsValid}
use operating_systems_cs.Kvdb.Calls.{new_value, Looked, kvdb_lookup-Looked}
use operating_systems_cs.Kvdb.Answers.{Answers, mutate-Answers}
use operating_systems_cs.Index.Total.{IsLow}
use operating_systems_cs.Kvdb.Sequence.{kvdb_lookup-mutate}
use operating_systems_cs.Kvdb.Open.{no_records, Opened, kvdb_open-Opened}

abbrev plenty : ℕ → Bool
plenty n = true

is_empty : (log : CString) → ◌≡◌ {A = Option CString} (some []) (some log) → log ≡ []
is_empty log e = cc e

kvdb_open-Opened_example :
    Opened memory all_bytes memory-IsLogfs plenty (some []) 7 (kvdb_open memory plenty (some []) 7)
kvdb_open-Opened_example =
    kvdb_open-Opened memory all_bytes memory-IsLogfs plenty (some []) 7 is_empty (omega arith)

-- The new database.
new : Kvdb memory
unfolding kvdb_open kvraw_open index_open with_index new_kvraw kvraw_append append_all end_append
    encode le_bytes first_bytes
new = elim (kvdb_open memory plenty (some []) 7) [
  | none ↦ record {
    size = 0;
    waste = 0;
    kvraw = record { size = 0; log = [] };
    index = record { size = 0; capacity = 0; maps = [] };
  }
  | some db ↦ db
]

new_small : new.kvraw.size < 2 ^ 63
unfolding new kvdb_open kvraw_open index_open with_index new_kvraw kvraw_append append_all
    end_append encode le_bytes first_bytes
new_small = omega arith

new_slots : new.index.capacity < 2 ^ 48
unfolding program new kvdb_open kvraw_open index_open with_index new_kvraw kvraw_append append_all
    end_append encode le_bytes first_bytes
new_slots = omega arith

new-IsLow : IsLow new.index.maps
unfolding new kvdb_open kvraw_open index_open with_index new_kvraw kvraw_append append_all
    end_append encode le_bytes first_bytes
new-IsLow = new_index-Few.low

new-IsValid : IsValid memory all_bytes new no_records
unfolding new kvdb_open kvraw_open index_open with_index new_kvraw kvraw_append append_all
    end_append encode le_bytes first_bytes
new-IsValid =
    (kvdb_open-Opened memory all_bytes memory-IsLogfs plenty (some []) 7 is_empty (omega arith)).0

abbrev key : CString
key = 107 ∷ []

key_low : key_of key + 2 ^ 49 ≤ 2 ^ 64
unfolding program
key_low = omega arith

abbrev value : CString
value = 120 ∷ 121 ∷ []

-- Insert a value, look it up, insert again, remove the key, and look it up again.
after_insert : Kvdb memory
unfolding program kvdb_insert mutate
after_insert = (kvdb_insert memory plenty new key value).1

insert_test :
    ((kvdb_insert memory plenty new key value).0 ≡ done)
    × (kvdb_lookup memory plenty after_insert key 8 ≡ (done, (2, value)))
    × ((kvdb_insert memory plenty after_insert key value).0 ≡ refused)
unfolding program new after_insert kvdb_open kvraw_open index_open with_index new_kvraw kvraw_append
    append_all end_append encode le_bytes first_bytes advance le_value decode checked read_meta
    kvraw_lookup kvdb_insert kvdb_lookup mutate mutate_from mutate_end apply_mode payload count
    count_first refuses append_through through_end chain_lookup chain_loop mismatch same_bytes
    full_key lookup_at lookup_end
insert_test = (refl, refl, refl)

mutate-Answers_example :
    Answers memory all_bytes memory-IsLogfs plenty insert new no_records key value 0
      (mutate memory plenty insert new key value 0)
mutate-Answers_example =
    mutate-Answers memory all_bytes memory-IsLogfs plenty insert new no_records key value 0
      new-IsValid new-IsLow key_low new_small new_slots (omega arith) (omega arith)

kvdb_lookup-Looked_example :
    Looked memory all_bytes memory-IsLogfs plenty
      (value_of no_records key)
      8
      (kvdb_lookup memory plenty new key 8)
kvdb_lookup-Looked_example =
    kvdb_lookup-Looked memory all_bytes memory-IsLogfs plenty new no_records key 8 new-IsValid
      new_small

insert_done : (mutate memory plenty insert new key value 0).0 ≡ done
unfolding program new after_insert kvdb_open kvraw_open index_open with_index new_kvraw kvraw_append
    append_all end_append encode le_bytes first_bytes advance le_value decode checked read_meta
    kvraw_lookup mutate mutate_from mutate_end apply_mode payload count count_first refuses
    append_through through_end chain_lookup chain_loop mismatch same_bytes full_key
insert_done = refl

insert_small : (mutate memory plenty insert new key value 0).1.kvraw.size < 2 ^ 63
unfolding program new after_insert kvdb_open kvraw_open index_open with_index new_kvraw kvraw_append
    append_all end_append encode le_bytes first_bytes advance le_value decode checked read_meta
    kvraw_lookup mutate mutate_from mutate_end apply_mode payload count count_first refuses
    append_through through_end chain_lookup chain_loop mismatch same_bytes full_key
insert_small = omega arith

other_key : same_bytes key value ≡ false
unfolding same_bytes
other_key = refl

kvdb_lookup-mutate_example :
    Looked memory all_bytes memory-IsLogfs plenty
      (new_value insert value)
      8
      (kvdb_lookup memory plenty (mutate memory plenty insert new key value 0).1 key 8)
    × Looked memory all_bytes memory-IsLogfs plenty
        (value_of no_records value)
        8
        (kvdb_lookup memory plenty (mutate memory plenty insert new key value 0).1 value 8)
kvdb_lookup-mutate_example =
    kvdb_lookup-mutate memory all_bytes memory-IsLogfs plenty insert new no_records key value value
      0 8 new-IsValid new_small new_slots (omega arith) (omega arith) insert_done insert_small
      other_key
