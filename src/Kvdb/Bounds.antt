-- ===== src/Kvdb/Bounds.antt =====
-- How far the log and the table of a database of p4/kvdb.c grow with the calls.
use operating_systems_cs.Common.{
  ℕ, suc, ◌+◌, ◌%◌, ◌^◌, ◌<◌, ◌≤◌, Bool, true, false, Bool-cases, length, ◌≡◌, refl, inl, inr,
  arith,
}
use operating_systems_cs.Common.Text.{CString}
use operating_systems_cs.Kvraw.{Logfs, Kvraw, end_append, kvraw_append}
use operating_systems_cs.Index.{Index, Outcome, read_off, key_of, index_update}
use operating_systems_cs.Index.Table
use operating_systems_cs.Index.Bounds.{Few, index_update-Few, write_off-Few}
use operating_systems_cs.Kvdb.{
  Kvdb, Mode, remove, insert, update, replace, Chained, ended, no_fuel, count, count_first, refuses,
  payload, through_end, append_through, apply_mode, mutate_end, mutate_from, mutate,
}

pub length-payload : (mode : Mode) (val : CString) → length (payload mode val) ≤ length val
unfolding payload
length-payload remove val = omega arith
length-payload insert val = omega arith
length-payload update val = omega arith
length-payload replace val = omega arith

Few-more : (m : ℕ) (index : Index) → Few m index → Few (suc m) index
Few-more m index f = record {
  slots = omega (arith, f.slots);
  space = omega (arith, f.space);
  low = f.low;
}

module _ (fs : Logfs) where
  -- After `m` calls, with a log of at most `bytes` bytes.
  pub record Bounded (m bytes : ℕ) (db : Kvdb fs) : Type 0 where
    pub table : Few m db.index
    pub log : db.kvraw.size ≤ bytes

  end_append-size :
      (kvraw : Kvraw fs) (k v : ℕ) (r : Bool × fs.Log)
      → (end_append fs kvraw k v r).1.size ≤ kvraw.size + 16 + k + v
  unfolding end_append
  end_append-size kvraw k v (true, log) = omega arith
  end_append-size kvraw k v (false, log) = omega arith

  pub kvraw_append-size :
      (kvraw : Kvraw fs) (key val : CString) (off : ℕ)
      → (kvraw_append fs kvraw key val off).1.size ≤ kvraw.size + 16 + length key + length val
  unfolding kvraw_append
  kvraw_append-size kvraw key val off =
      omega (arith, end_append-size kvraw (length key % 2 ^ 16) (length val % 2 ^ 32) _)

  through_end-Bounded :
      (m bytes : ℕ) (db : Kvdb fs) (j : ℕ) (r : Bool × Kvraw fs)
      → Few m db.index
      → r.1.size ≤ bytes
      → Bounded m bytes (through_end fs db j r).1
  unfolding through_end
  through_end-Bounded m bytes db j (true, kvraw) f l = record {
    table = write_off-Few m db.index j db.kvraw.size f;
    log = l;
  }
  through_end-Bounded m bytes db j (false, kvraw) f l = record { table = f; log = l }

  count-Bounded :
      (mode : Mode) (m bytes : ℕ) (db : Kvdb fs)
      → Bounded m bytes db
      → Bounded m bytes (count mode db)
  unfolding count
  count-Bounded remove m bytes db b = record { table = b.table; log = b.log }
  count-Bounded insert m bytes db b = record { table = b.table; log = b.log }
  count-Bounded update m bytes db b = b
  count-Bounded replace m bytes db b = record { table = b.table; log = b.log }

  count_first-Bounded :
      (mode : Mode) (is_known : Bool) (m bytes : ℕ) (db : Kvdb fs)
      → Bounded m bytes db
      → Bounded m bytes (count_first mode is_known db)
  unfolding count_first
  count_first-Bounded remove is_known m bytes db b = b
  count_first-Bounded insert is_known m bytes db b = b
  count_first-Bounded update true m bytes db b = record { table = b.table; log = b.log }
  count_first-Bounded update false m bytes db b = record { table = b.table; log = b.log }
  count_first-Bounded replace is_known m bytes db b = b

  wider : (m bytes more : ℕ) (db : Kvdb fs) → Bounded m bytes db → bytes ≤ more → Bounded m more db
  wider m bytes more db b l = record { table = b.table; log = omega (arith, b.log, l) }

  apply_mode-Bounded :
      (mode : Mode) (m bytes : ℕ) (db : Kvdb fs) (key val : CString) (j : ℕ) (is_known : Bool)
      → Bounded m bytes db
      → Bounded m
          (bytes + 16 + length key + length val)
          (apply_mode fs mode db key val j is_known).1
  unfolding apply_mode append_through
  apply_mode-Bounded mode m bytes db key val j is_known b =
      let first = count_first mode is_known db in
      let c = count_first-Bounded mode is_known m bytes db b in
      let size = kvraw_append-size first.kvraw key (payload mode val) (read_off first.index j) in
      let r = append_through fs first key (payload mode val) j in
      let t =
        through_end-Bounded m (bytes + 16 + length key + length val) first j
          (kvraw_append fs first.kvraw key (payload mode val) (read_off first.index j)) c.table
          (omega (arith, size, c.log, length-payload mode val)) in
      elim (Bool-cases (refuses mode is_known)) [
        | inl bad ↦ rw bad (wider m bytes _ db b (omega arith))
        | inr good ↦ elim (Bool-cases r.0) [
          | inl fine ↦ rw (good, fine) (count-Bounded mode m _ r.1 t)
          | inr lost ↦ rw (good, lost) t
        ]
      ]

  mutate_end-Bounded :
      (mode : Mode) (m bytes : ℕ) (db : Kvdb fs) (key val : CString) (room_len j : ℕ) (c : Chained)
      → Bounded m bytes db
      → Bounded m
          (bytes + 16 + length key + length val)
          (mutate_end fs mode db key val room_len j c).1
  unfolding mutate_end
  mutate_end-Bounded mode m bytes db key val room_len j (ended off val_len out) b =
      apply_mode-Bounded mode m bytes db key val j _ b
  mutate_end-Bounded mode m bytes db key val room_len j Chained.failed b =
      wider m bytes _ db b (omega arith)
  mutate_end-Bounded mode m bytes db key val room_len j no_fuel b =
      wider m bytes _ db b (omega arith)

  -- One more call, whatever its end is.
  pub mutate-Bounded :
      (room : ℕ → Bool) (mode : Mode) (m bytes : ℕ) (db : Kvdb fs) (key val : CString)
      (room_len : ℕ)
      → Table.IsValid db.index
      → db.index.capacity < 2 ^ 48
      → key_of key + 2 ^ 49 ≤ 2 ^ 64
      → Bounded m bytes db
      → Bounded
          (suc m)
          (bytes + 16 + length key + length val)
          (mutate fs room mode db key val room_len).1
  unfolding mutate mutate_from
  mutate-Bounded room mode m bytes db key val room_len v small near b =
      by_update (index_update room db.index key) refl
    where
      by_update :
          (o : Outcome (ℕ × Index))
          → index_update room db.index key ≡ o
          → Bounded
              (suc m)
              (bytes + 16 + length key + length val)
              (mutate_from fs room mode db key val room_len o).1
      by_update (Outcome.ok (j, index)) e =
          mutate_end-Bounded mode (suc m) bytes (record db { index = index }) key val room_len j _
            (record {
              table = index_update-Few room m db.index key j index v small b.table near e;
              log = b.log;
            })
      by_update Outcome.failed e = record {
        table = Few-more m db.index b.table;
        log = omega (arith, b.log);
      }
      by_update Outcome.exited e = record {
        table = Few-more m db.index b.table;
        log = omega (arith, b.log);
      }
