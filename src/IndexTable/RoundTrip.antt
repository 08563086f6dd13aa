-- ===== src/IndexTable/RoundTrip.antt =====
-- mxf_write_index_table_segment and mxf_read_index_table_segment of mxf/mxf_index_table.c.
use ebu_libmxf.Base.{
  ℕ, zero, suc, ◌+◌, ◌*◌, ◌%◌, ◌/◌, ◌^◌, ◌≤◌, ◌<◌, ◌≡◌, ◌≢◌, refl, ◌∙◌, false, List, [], ◌++◌,
  length, ◌==◌, if◌then◌else◌, arith, All, append-nil, le→ltb_false, ==_self,
}
use ebu_libmxf.File.Ops.{FileOps, ByteFile}
use ebu_libmxf.File.Monad.{MxfFile, M, give, check, ◌>>=◌, ◌>>◌}
use ebu_libmxf.File.Length.{get_llen}
use ebu_libmxf.File.Klv.{Key, read_kl, write_kl}
use ebu_libmxf.File.Laws.{IsOpen, Wrote, Writes, Reads, Writes-bind, Reads-bind}
use ebu_libmxf.File.Laws.Primitives.{give-Reads, Reads-give, check-Reads, Reads-bytes}
use ebu_libmxf.File.Laws.Length.{ber, llen_for, llen_for-Fits}
use ebu_libmxf.File.Laws.Klv.{write_kl-Writes, read_kl-Reads}
use ebu_libmxf.File.Laws.Replay.{replay, replay-Writes}
use ebu_libmxf.Keys.{index_table_segment_key}
use ebu_libmxf.IndexTable.Defs.{
  IndexTableSegment, index_entry_len, index_entries_len, optional_len, options_len,
  delta_entries_len, segment_len, write_items, write_counts, write_options, write_delta_array,
  write_index_array, write_index_table_segment,
}
use ebu_libmxf.IndexTable.Size.{index_array_size, counts_size}
use ebu_libmxf.IndexTable.Exact.{value_size, entries_split}
use ebu_libmxf.IndexTable.Read.{
  Memory, default_callbacks, create_index_table_segment, read_items, read_index_table_segment_2,
  read_index_table_segment,
}
use ebu_libmxf.IndexTable.Coded.{Coded, Coded-is, Coded-then}
use ebu_libmxf.IndexTable.Items.{
  IsSegment, with_items, with_counts, items-Coded, counts-Coded, options-Coded,
}
use ebu_libmxf.IndexTable.Deltas.{IsDeltaEntry, delta_array-Coded}
use ebu_libmxf.IndexTable.Entries.{IsEntryOf, IsMemory}
use ebu_libmxf.IndexTable.EntriesRead.{index_array-Coded}

-- The counts are lost if they are not written, and the wish to write one always is.
abbrev pub as_read : IndexTableSegment → IndexTableSegment
as_read s =
    let m = length s.index_entry_array in
    record s {
      slice_count =
          if m == 0
          then (if s.force_write_slice_count then s.slice_count else 0)
          else s.slice_count;
      pos_table_count = if m == 0 then 0 else s.pos_table_count;
      force_write_slice_count = false;
    }

-- The arrays fit their 16-bit local lengths, and their entries fit the segment.
pub record HasArrays (s : IndexTableSegment) : Type 0 where
  pub deltas_ok : All IsDeltaEntry s.delta_entry_array
  pub entries_ok : All (IsEntryOf s.slice_count s.pos_table_count) s.index_entry_array
  pub deltas_fit : 8 + length s.delta_entry_array * 6 < 2 ^ 16
  pub entries_fit :
      8 + length s.index_entry_array * index_entry_len s.slice_count s.pos_table_count < 2 ^ 16

optional_small : (v size : ℕ) → optional_len v size ≤ 4 + size
optional_small v size = ground arith

deltas_small : (n : ℕ) → delta_entries_len n ≤ 12 + n * 6
deltas_small n = ground arith

entries_small :
    (s : IndexTableSegment) (m : ℕ)
    → index_entries_len s m ≤ 22 + m * index_entry_len s.slice_count s.pos_table_count
entries_small s m = ground arith

value_small : (s : IndexTableSegment) → HasArrays s → value_size s < 2 ^ 64
value_small s h = omega (
  arith,
  deltas_small (length s.delta_entry_array),
  entries_small s (length s.index_entry_array),
  optional_small s.ext_start_offset 8,
  optional_small s.vbe_byte_count 8,
  optional_small s.single_index_location 1,
  optional_small s.single_essence_location 1,
  optional_small s.forward_index_direction 1,
  h.deltas_fit,
  h.entries_fit,
)

-- The counts of a segment that has index entries.
counts_read :
    (s r : IndexTableSegment)
    → length s.index_entry_array ≢ 0
    → ((with_counts s (length s.index_entry_array) r).slice_count ≡ s.slice_count)
      × ((with_counts s (length s.index_entry_array) r).pos_table_count ≡ s.pos_table_count)
counts_read s r n =
    let some_left : (length s.index_entry_array == 0) ≡ false = ground arith in
    rw some_left (refl, refl)

module _ {S : Type 0} ⦃ops : FileOps S⦄ (mem : Memory) where
  -- The KLV header of a segment, and the segment.
  abbrev pub read_kl_segment : M S (Key × ℕ × ℕ × IndexTableSegment)
  read_kl_segment = do
    (key, llen, len) ← read_kl
    s ← read_index_table_segment mem len
    give (key, llen, len, s)

module _ {S : Type 0} ⦃ops : FileOps S⦄ (laws : ByteFile ops) (ml : ℕ) (mem : Memory)
    (s : IndexTableSegment) (ok : IsSegment s) (arrays : HasArrays s) (fresh : IsMemory mem) where
  value-Coded :
      Coded laws ml mem default_callbacks
        (value_size s)
        (value_small s arrays)
        (do
          write_items s
          write_counts s (length s.index_entry_array)
          write_options s
          write_delta_array s.delta_entry_array
          write_index_array s.slice_count s.pos_table_count s.index_entry_array)
        (value_size s)
        (tt, create_index_table_segment)
        (tt, as_read s)
  unfolding create_index_table_segment
  value-Coded =
      Coded-is laws ml mem default_callbacks (value_size s) (value_small s arrays) (value_size s)
        (omega (arith, entries_split s (length s.index_entry_array)))
        (Coded-then laws ml mem default_callbacks (value_size s) (value_small s arrays)
          (write_items s) _ 80 _
          (items-Coded laws ml mem default_callbacks (value_size s) (value_small s arrays) tt s
            create_index_table_segment ok)
          (Coded-then laws ml mem default_callbacks (value_size s) (value_small s arrays)
            (write_counts s m) _ (counts_size s.force_write_slice_count m) _
            (counts-Coded laws ml mem default_callbacks (value_size s) (value_small s arrays) tt s _
              m ok refl refl)
            (Coded-then laws ml mem default_callbacks (value_size s) (value_small s arrays)
              (write_options s) _ (options_len s) _
              (options-Coded laws ml mem default_callbacks (value_size s) (value_small s arrays) tt
                s _ ok
                (record {
                  no_offset = refl;
                  no_vbe = refl;
                  no_index_location = refl;
                  no_essence_location = refl;
                  no_direction = refl;
                }))
              (Coded-then laws ml mem default_callbacks (value_size s) (value_small s arrays)
                (write_delta_array s.delta_entry_array) _
                (delta_entries_len (length s.delta_entry_array))
                (index_array_size m (index_entry_len s.slice_count s.pos_table_count))
                (delta_array-Coded laws ml mem (value_size s) (value_small s arrays) _
                  s.delta_entry_array refl arrays.deltas_ok arrays.deltas_fit)
                (index_array-Coded laws mem ml (value_size s) (value_small s arrays) _ s.slice_count
                  s.pos_table_count s.index_entry_array fresh refl
                  (counts_read s (with_items s create_index_table_segment)) arrays.entries_ok
                  ok.slices_ok ok.positions_ok arrays.entries_fit)))))
    where
      m : ℕ
      m = length s.index_entry_array

  -- The loop ends at the end of the value.
  ends :
      (left next : ℕ) (t : Unit {0} × IndexTableSegment)
      → next ≡ value_size s
      → value_size s < next + 4 * left
      → Reads laws
          (read_items mem default_callbacks left (value_size s) next t)
          (value_size s, t)
          []
  unfolding read_items
  ends zero next t e h = absurd (omega arith)
  ends (suc left) next t e h =
      rw (e, le→ltb_false (value_size s) (value_size s) (omega arith))
        (give-Reads laws (value_size s, t))

  segment-Reads :
      Reads laws (read_index_table_segment mem (value_size s)) (as_read s) value-Coded.bytes
  unfolding read_index_table_segment read_index_table_segment_2
  segment-Reads = Reads-bytes laws bytes_same (
      Reads-give laws (read_index_table_segment_2 mem default_callbacks (value_size s) tt)
        (λ t. t.1) ((value-Coded.bytes ++ []) ++ [])
        (Reads-bind laws
          (read_items mem default_callbacks (value_size s / 4 + 2) (value_size s) 0
            (tt, create_index_table_segment))
          _ (value-Coded.bytes ++ []) []
          (value-Coded.steps (value_size s / 4 + 2) 0 (value_size s, (tt, as_read s)) []
            (omega arith) (omega arith)
            (λ left next e h. ends left next (tt, as_read s) (omega arith) h))
          (Reads-bind laws (check (value_size s == value_size s)) _ [] []
            (check-Reads laws (value_size s == value_size s) (==_self (value_size s)))
            (give-Reads laws (tt, as_read s)))))
    where
      bytes_same : (value-Coded.bytes ++ []) ++ [] ≡ value-Coded.bytes
      bytes_same = append-nil _ ∙ append-nil _

  write-Writes :
      ml ≤ 9
      → Writes laws ml (write_index_table_segment s) tt (
          (index_table_segment_key ++ ber (llen_for ml (value_size s)) (value_size s))
          ++ value-Coded.bytes)
  unfolding write_index_table_segment segment_len
  write-Writes m =
      let small : value_size s % 2 ^ 64 ≡ value_size s = omega (arith, value_small s arrays) in
      rw small (
        Writes-bind laws ml (write_kl index_table_segment_key (value_size s)) _
          (index_table_segment_key ++ ber (llen_for ml (value_size s)) (value_size s))
          value-Coded.bytes
          (write_kl-Writes laws ml index_table_segment_key (value_size s) refl
            (value_small s arrays) m)
          value-Coded.writes)

module _ {S : Type 0} ⦃ops : FileOps S⦄ (laws : ByteFile ops) (mem : Memory) where
  -- A segment that is written to an open file and read again is the segment that was written,
  -- behind its key and the length of the value, with the default callbacks. The wish to write the
  -- slice count is not read, the slice count is 0 if it was not written, and the position table
  -- count is 0 if there are no index entries. The fields and the entries fit their types, optional
  -- Booleans are 0, 1 or 2, both arrays fit their 16-bit local lengths, fresh memory is as long as
  -- it is asked to be, and the minimum length of a length field is at most 9.
  pub index_table_segment_round_trip :
      (f : MxfFile S) (s : IndexTableSegment)
      → IsOpen laws f
      → IsSegment s
      → HasArrays s
      → IsMemory mem
      → f.min_llen ≤ 9
      → (bs : List ℕ) × Wrote laws f
          (replay (write_index_table_segment s) (read_kl_segment mem) f)
          (index_table_segment_key, get_llen f (value_size s), value_size s, as_read s)
          ((index_table_segment_key ++ ber (get_llen f (value_size s)) (value_size s)) ++ bs)
  unfolding get_llen
  index_table_segment_round_trip f s o ok arrays fresh m = (
    value.bytes,
    replay-Writes laws f
        ((index_table_segment_key ++ ber (llen_for f.min_llen len) len) ++ value.bytes) o
        (write-Writes laws f.min_llen mem s ok arrays fresh m)
        (Reads-bind laws read_kl _ (index_table_segment_key ++ ber (llen_for f.min_llen len) len)
          value.bytes
          (read_kl-Reads laws index_table_segment_key (llen_for f.min_llen len) len refl
            (llen_for-Fits f.min_llen len (value_small s arrays) m))
          (Reads-give laws (read_index_table_segment mem len)
            (λ t. (index_table_segment_key, llen_for f.min_llen len, len, t)) value.bytes
            (segment-Reads laws f.min_llen mem s ok arrays fresh))),
  )
    where
      len : ℕ
      len = value_size s

      value :
          Coded laws f.min_llen mem default_callbacks
            (value_size s)
            (value_small s arrays)
            (do
              write_items s
              write_counts s (length s.index_entry_array)
              write_options s
              write_delta_array s.delta_entry_array
              write_index_array s.slice_count s.pos_table_count s.index_entry_array)
            (value_size s)
            (tt, create_index_table_segment)
            (tt, as_read s)
      value = value-Coded laws f.min_llen mem s ok arrays fresh
