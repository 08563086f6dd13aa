-- ===== src/IndexTable/Streamed.antt =====
-- Writing an index table segment part by part, with the functions that mxf/mxf_index_table.c has
-- for its parts, against writing it at once.
use ebu_libmxf.Base.{
  ℕ, ◌+◌, ◌*◌, ◌^◌, ◌≤◌, ◌<◌, ◌≡◌, refl, sym, subst, List, ◌++◌, length, All, arith,
}
use ebu_libmxf.File.Ops.{FileOps, ByteFile}
use ebu_libmxf.File.Monad.{MxfFile, M, Outcome, done, failed, continue, ◌>>◌}
use ebu_libmxf.File.Klv.{IsKey, write_kl}
use ebu_libmxf.File.Length.{get_llen}
use ebu_libmxf.File.Laws.{IsOpen, Wrote}
use ebu_libmxf.File.Laws.Length.{ber}
use ebu_libmxf.Keys.{index_table_segment_key}
use ebu_libmxf.IndexTable.Defs.{
  IndexTableSegment, index_entry_len, segment_len, header_segment_len, write_items, write_counts,
  write_options, write_delta_array, write_index_array, write_index_table_segment_header,
  write_index_table_segment,
}
use ebu_libmxf.IndexTable.Exact.{value_size, write_index_table_segment-exact}
use ebu_libmxf.IndexTable.Size.{IsIndexEntry}

module _ {S : Type 0} where
  -- A program behind a sequence goes on behind the sequence's second part.
  then_assoc :
      (m k l k' : M S (Unit {0}))
      → ((g : MxfFile S) → (k >> l) g ≡ k' g)
      → (f : MxfFile S) → ((m >> k) >> l) f ≡ (m >> k') f
  then_assoc m k l k' h f = go (m f)
    where
      go :
          (o : Outcome S (Unit {0}))
          → continue (continue o (λ _. k)) (λ _. l) ≡ continue o (λ _. k')
      go (done a g) = h g
      go (failed g) = refl

-- The size of each array's part fits 32 bits.
abbrev pub PartsFit : IndexTableSegment → Type 0
PartsFit s =
    (12 + length s.delta_entry_array * 6 < 2 ^ 32)
    × (22 + length s.index_entry_array * index_entry_len s.slice_count s.pos_table_count < 2 ^ 32)

header_segment_len-fits :
    (s : IndexTableSegment)
    → PartsFit s
    → header_segment_len s (length s.delta_entry_array) (length s.index_entry_array)
      ≡ segment_len s (length s.delta_entry_array) (length s.index_entry_array)
unfolding header_segment_len segment_len
header_segment_len-fits s (p, q) = ground arith

-- Past 32 bits the size of the index entries' part wraps around, and the length of the header is
-- too small by 2 to the 32.
pub header_segment_len-wraps :
    (s : IndexTableSegment) (n m : ℕ)
    → 12 + n * 6 < 2 ^ 32
    → 0 < m
    → 2 ^ 32 ≤ 22 + m * index_entry_len s.slice_count s.pos_table_count
    → 22 + m * index_entry_len s.slice_count s.pos_table_count < 2 ^ 33
    → header_segment_len s n m + 2 ^ 32 ≡ segment_len s n m
unfolding header_segment_len segment_len
header_segment_len-wraps s n m p q h k = ground arith

value_size-small : (s : IndexTableSegment) → PartsFit s → value_size s < 2 ^ 64
value_size-small s (p, q) = ground arith

module _ {S : Type 0} ⦃ops : FileOps S⦄ where
  -- A program that writes a segment part by part.
  abbrev pub write_parts : IndexTableSegment → M S (Unit {0})
  write_parts s = do
    write_index_table_segment_header s (length s.delta_entry_array) (length s.index_entry_array)
    write_delta_array s.delta_entry_array
    write_index_array s.slice_count s.pos_table_count s.index_entry_array

  write_parts-is :
      (s : IndexTableSegment) (f : MxfFile S)
      → PartsFit s
      → write_parts s f ≡ write_index_table_segment s f
  unfolding write_index_table_segment_header write_index_table_segment
  write_parts-is s f h =
      let arrays : M S (Unit {0}) = (do
        write_delta_array s.delta_entry_array
        write_index_array s.slice_count s.pos_table_count s.index_entry_array) in
      let counts = write_counts s (length s.index_entry_array) in
      rw (header_segment_len-fits s h) (
        then_assoc
          (write_kl index_table_segment_key
            (segment_len s (length s.delta_entry_array) (length s.index_entry_array)))
          (write_items s >> (counts >> write_options s)) arrays
          (write_items s >> (counts >> (write_options s >> arrays)))
          (then_assoc (write_items s) (counts >> write_options s) arrays
            (counts >> (write_options s >> arrays))
            (then_assoc counts (write_options s) arrays (write_options s >> arrays) (λ g. refl)))
          f)

  -- On an open file, the header of a segment with the numbers of its entries and then its arrays,
  -- written part by part, are the key, the length that `header_segment_len` computes, and exactly
  -- as many bytes as it says; and the outcome is that of writing the segment at once. The
  -- identifier has 16 octets, each index entry has as many slice offsets and positions as the
  -- segment says, the size of each array's part fits 32 bits, and the minimum length of a length
  -- field is at most 9.
  pub write_index_table_segment-streamed :
      (laws : ByteFile ops) (f : MxfFile S) (s : IndexTableSegment)
      → IsOpen laws f
      → IsKey s.instance_uid
      → All (IsIndexEntry s.slice_count s.pos_table_count) s.index_entry_array
      → PartsFit s
      → f.min_llen ≤ 9
      → (let len = header_segment_len s (length s.delta_entry_array) (length s.index_entry_array) in
          (bs : List ℕ) × Wrote laws f
            (write_parts s f)
            tt
            ((index_table_segment_key ++ ber (get_llen f len) len) ++ bs)
          × (length bs ≡ len)
          × (write_parts s f ≡ write_index_table_segment s f))
  write_index_table_segment-streamed laws f s o k h p m =
      let size = segment_len s (length s.delta_entry_array) (length s.index_entry_array) in
      let (bs, w, n) = write_index_table_segment-exact laws f s o k h (value_size-small s p) m in
      subst
        (λ (len : ℕ).
          (bs : List ℕ) × Wrote laws f (write_parts s f) tt
            ((index_table_segment_key ++ ber (get_llen f len) len) ++ bs)
          × (length bs ≡ len)
          × (write_parts s f ≡ write_index_table_segment s f))
        (sym (header_segment_len-fits s p))
        (
          bs,
          subst
              (λ r.
                Wrote laws f r tt ((index_table_segment_key ++ ber (get_llen f size) size) ++ bs))
              (sym (write_parts-is s f p)) w,
          n,
          write_parts-is s f p,
        )
