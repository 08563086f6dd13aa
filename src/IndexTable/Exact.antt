-- ===== src/IndexTable/Exact.antt =====
-- mxf_write_index_table_segment of mxf/mxf_index_table.c: its length field and its bytes.
use ebu_libmxf.Base.{
  ℕ, ◌+◌, ◌^◌, ◌≤◌, ◌<◌, ◌≡◌, refl, ◌∙◌, List, ◌++◌, length, All, ◌==◌, arith, Bool-cases, inl, inr,
}
use ebu_libmxf.File.Ops.{FileOps, ByteFile}
use ebu_libmxf.File.Monad.{MxfFile, ◌>>◌}
use ebu_libmxf.File.Length.{get_llen}
use ebu_libmxf.File.Klv.{IsKey, write_kl}
use ebu_libmxf.File.Laws.{IsOpen, Wrote, Writes-bind}
use ebu_libmxf.File.Laws.Length.{ber, llen_for}
use ebu_libmxf.File.Laws.Klv.{write_kl-Writes}
use ebu_libmxf.Keys.{index_table_segment_key}
use ebu_libmxf.IndexTable.Defs.{
  IndexTableSegment, index_entry_len, options_len, delta_entries_len, index_entries_len,
  segment_len, write_items, write_counts, write_options, write_delta_array, write_index_array,
  write_index_table_segment,
}
use ebu_libmxf.IndexTable.Size.{
  IsIndexEntry, Sized, Sized-then, Sized-is, index_array_size, counts_size, items-Sized,
  options-Sized, delta_array-Sized, index_array-Sized, counts-Sized,
}

-- The length before it is cut to 64 bits.
abbrev pub value_size : IndexTableSegment → ℕ
value_size s =
    80
    + delta_entries_len (length s.delta_entry_array)
    + index_entries_len s (length s.index_entry_array)
    + options_len s

pub entries_split :
    (s : IndexTableSegment) (m : ℕ)
    → counts_size s.force_write_slice_count m
        + index_array_size m (index_entry_len s.slice_count s.pos_table_count)
      ≡ index_entries_len s m
entries_split s m = elim (Bool-cases (m == 0)) [
  | inl null ↦ rw null (omega arith)
  | inr some_left ↦ rw some_left (omega arith)
]

module _ {S : Type 0} ⦃ops : FileOps S⦄ (laws : ByteFile ops) where
  value-Sized :
      (ml : ℕ) (s : IndexTableSegment)
      → IsKey s.instance_uid
      → All (IsIndexEntry s.slice_count s.pos_table_count) s.index_entry_array
      → Sized laws ml
          (do
            write_items s
            write_counts s (length s.index_entry_array)
            write_options s
            write_delta_array s.delta_entry_array
            write_index_array s.slice_count s.pos_table_count s.index_entry_array)
          (value_size s)
  value-Sized ml s k h =
      Sized-is laws ml (value_size s) (omega (arith, entries_split s (length s.index_entry_array)))
        (Sized-then laws ml (write_items s) _ 80 _ (items-Sized laws ml s k) (
          Sized-then laws ml (write_counts s (length s.index_entry_array)) _
            (counts_size s.force_write_slice_count (length s.index_entry_array)) _
            (counts-Sized laws ml s (length s.index_entry_array))
            (Sized-then laws ml (write_options s) _ (options_len s) _ (options-Sized laws ml s) (
              Sized-then laws ml (write_delta_array s.delta_entry_array) _
                (delta_entries_len (length s.delta_entry_array))
                (index_array_size (length s.index_entry_array)
                  (index_entry_len s.slice_count s.pos_table_count))
                (delta_array-Sized laws ml s.delta_entry_array)
                (index_array-Sized laws ml s.slice_count s.pos_table_count s.index_entry_array
                  h)))))

  -- A segment that is written to an open file is the key, a length, and exactly as many bytes as
  -- the length says, for every combination of arrays and optional items. The identifier has 16
  -- octets, the arrays of each index entry are as long as the segment says, the length fits 64
  -- bits, and the minimum length of a length field is at most 9.
  pub write_index_table_segment-exact :
      (f : MxfFile S) (s : IndexTableSegment)
      → IsOpen laws f
      → IsKey s.instance_uid
      → All (IsIndexEntry s.slice_count s.pos_table_count) s.index_entry_array
      → value_size s < 2 ^ 64
      → f.min_llen ≤ 9
      → (let len = segment_len s (length s.delta_entry_array) (length s.index_entry_array) in
          (bs : List ℕ) × Wrote laws f
            (write_index_table_segment s f)
            tt
            ((index_table_segment_key ++ ber (get_llen f len) len) ++ bs)
          × (length bs ≡ len))
  unfolding write_index_table_segment get_llen
  write_index_table_segment-exact f s o k h b m = (
    value.0,
    Writes-bind laws f.min_llen (write_kl index_table_segment_key len) _
        (index_table_segment_key ++ ber (llen_for f.min_llen len) len) value.0
        (write_kl-Writes laws f.min_llen index_table_segment_key len refl (omega (arith, len_is)) m)
        value.1 f o refl,
    value.2 ∙ omega (arith, len_is),
  )
    where
      len : ℕ
      len = segment_len s (length s.delta_entry_array) (length s.index_entry_array)

      len_is : len ≡ value_size s
      len_is = unfold segment_len in omega arith

      value :
          Sized laws f.min_llen
            (do
              write_items s
              write_counts s (length s.index_entry_array)
              write_options s
              write_delta_array s.delta_entry_array
              write_index_array s.slice_count s.pos_table_count s.index_entry_array)
            (value_size s)
      value = value-Sized f.min_llen s k h
