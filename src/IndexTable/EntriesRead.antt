-- ===== src/IndexTable/EntriesRead.antt =====
-- The index entry array of mxf/mxf_index_table.c, written and read.
use ebu_libmxf.Base.{
  ℕ, zero, suc, ◌+◌, ◌*◌, ◌%◌, ◌^◌, ◌≤◌, ◌<◌, ◌≡◌, ◌≢◌, refl, sym, true, List, [], ◌∷◌, ◌++◌,
  length, ◌==◌, arith, subst, All, append-nil, append_assoc, length-append, lt→ltb, le→ltb_false,
}
use ebu_libmxf.File.Ops.{FileOps, ByteFile}
use ebu_libmxf.File.Monad.{give, check, ◌>>◌}
use ebu_libmxf.File.Words.{read_uint8, read_uint32, read_uint64, write_uint32}
use ebu_libmxf.File.Klv.{write_local_tl}
use ebu_libmxf.File.Laws.{Writes, Reads, Writes-bind, Reads-bind}
use ebu_libmxf.File.Laws.Primitives.{give-Reads, Reads-give, check-Reads, Reads-bytes}
use ebu_libmxf.File.Laws.Words.{
  be32, be64, read_uint8-Reads, read_uint32-Reads, read_uint64-Reads, write_uint32-Writes,
}
use ebu_libmxf.IndexTable.Defs.{
  IndexEntry, IndexTableSegment, index_entry_len, index_array_len, write_index_entries,
  write_index_entry_array_header, write_index_array,
}
use ebu_libmxf.IndexTable.Size.{index_array_size}
use ebu_libmxf.IndexTable.Read.{
  Memory, default_callbacks, read_item, read_slice_offsets, read_pos_table, read_index_entries,
  read_index_array,
}
use ebu_libmxf.IndexTable.Coded.{Coded, Coded-is, nothing-Coded, item-Coded, then_assoc}
use ebu_libmxf.IndexTable.Entries.{
  IsEntryOf, IsMemory, slice_bytes, position_bytes, entries_bytes, holding_entries,
  add-holding_entries, write_entries-Writes,
}

fewer : (n m len : ℕ) → 8 + (n + suc m) * len < 2 ^ 16 → 8 + (n + 1) * len < 2 ^ 16
fewer n m len h = omega arith

moved : (n m len k : ℕ) → k ≡ n + 1 → 8 + (n + suc m) * len < 2 ^ 16 → 8 + (k + m) * len < 2 ^ 16
moved n m len k e h = rw e (omega arith)

count_small : (n sc pc : ℕ) → 8 + n * index_entry_len sc pc < 2 ^ 16 → n < 2 ^ 32
count_small n sc pc h = omega arith

short_count : (n sc pc : ℕ) → 8 + n * index_entry_len sc pc < 2 ^ 16 → n % 2 ^ 32 ≡ n
short_count n sc pc h = omega (arith, count_small n sc pc h)

whole : (size : ℕ) → size < 2 ^ 16 → (size == size % 2 ^ 32) ≡ true
whole size h = ground arith

short : (size : ℕ) → size < 2 ^ 16 → size % 2 ^ 16 ≡ size
short size h = omega arith

zero_more : (n len : ℕ) → 8 + n * len < 2 ^ 16 → 8 + (0 + n) * len < 2 ^ 16
zero_more n len h = omega arith

sized : (n len : ℕ) → 0 < n → 4 + (8 + n * len) ≡ index_array_size n len
sized n len h = ground arith

module _ {S : Type 0} ⦃ops : FileOps S⦄ (laws : ByteFile ops) where
  read_slices-Reads :
      (n : ℕ) (vs buffer : List ℕ) (actual len end : ℕ)
      → length vs ≡ n
      → length buffer ≡ n
      → All (λ (v : ℕ). v < 2 ^ 32) vs
      → end ≡ actual + n * 4
      → end ≤ len
      → Reads laws (read_slice_offsets n buffer actual len) (vs, end) (slice_bytes vs)
  unfolding read_slice_offsets
  read_slices-Reads zero [] [] actual len end h k a e b =
      let arrived : end ≡ actual = omega arith in rw arrived (give-Reads laws _)
  read_slices-Reads zero (v ∷ vs) buffer actual len end h k a e b = absurd (omega arith)
  read_slices-Reads zero [] (o ∷ os) actual len end h k a e b = absurd (omega arith)
  read_slices-Reads (suc n) [] buffer actual len end h k a e b = absurd (omega arith)
  read_slices-Reads (suc n) (v ∷ vs) [] actual len end h k a e b = absurd (omega arith)
  read_slices-Reads (suc n) (v ∷ vs) (o ∷ os) actual len end h k a e b =
      rw (lt→ltb actual len (omega arith)) (
        Reads-bind laws read_uint32 _ (be32 v) (slice_bytes vs) (read_uint32-Reads laws v a.0) (
          Reads-give laws (read_slice_offsets n os (actual + 4) len) (λ r. (v ∷ r.0, r.1))
            (slice_bytes vs)
            (read_slices-Reads n vs os (actual + 4) len end (omega arith) (omega arith) a.1
              (omega arith) b)))

  read_positions-Reads :
      (n : ℕ) (vs buffer : List (ℕ × ℕ)) (actual len end : ℕ)
      → length vs ≡ n
      → length buffer ≡ n
      → All (λ (v : ℕ × ℕ). (v.0 < 2 ^ 32) × (v.1 < 2 ^ 32)) vs
      → end ≡ actual + n * 8
      → end ≤ len
      → Reads laws (read_pos_table n buffer actual len) (vs, end) (position_bytes vs)
  unfolding read_pos_table
  read_positions-Reads zero [] [] actual len end h k a e b =
      let arrived : end ≡ actual = omega arith in rw arrived (give-Reads laws _)
  read_positions-Reads zero (v ∷ vs) buffer actual len end h k a e b = absurd (omega arith)
  read_positions-Reads zero [] (o ∷ os) actual len end h k a e b = absurd (omega arith)
  read_positions-Reads (suc n) [] buffer actual len end h k a e b = absurd (omega arith)
  read_positions-Reads (suc n) (v ∷ vs) [] actual len end h k a e b = absurd (omega arith)
  read_positions-Reads (suc n) (v ∷ vs) (o ∷ os) actual len end h k a e b =
      rw (lt→ltb actual len (omega arith)) (
        Reads-bind laws read_uint32 _ (be32 v.0) (be32 v.1 ++ position_bytes vs)
          (read_uint32-Reads laws v.0 a.0.0)
          (Reads-bind laws read_uint32 _ (be32 v.1) (position_bytes vs)
            (read_uint32-Reads laws v.1 a.0.1)
            (Reads-give laws (read_pos_table n os (actual + 8) len) (λ r. ((v.0, v.1) ∷ r.0, r.1))
              (position_bytes vs)
              (read_positions-Reads n vs os (actual + 8) len end (omega arith) (omega arith) a.1
                (omega arith) b))))

  module _ (mem : Memory) where
    read_entries-Reads :
        (r : IndexTableSegment) (count : ℕ) (es xs : List IndexEntry) (slices : List ℕ)
        (positions : List (ℕ × ℕ))
        → All (IsEntryOf r.slice_count r.pos_table_count) es
        → length slices ≡ r.slice_count
        → length positions ≡ r.pos_table_count
        → 8 + (length xs + length es) * index_entry_len r.slice_count r.pos_table_count < 2 ^ 16
        → Reads laws
            (read_index_entries mem default_callbacks
              (length es)
              count
              (index_entry_len r.slice_count r.pos_table_count)
              slices
              positions
              (tt, holding_entries r xs))
            (tt, holding_entries r (xs ++ es))
            (entries_bytes es)
    unfolding read_index_entries
    read_entries-Reads r count [] xs slices positions h k p b =
        rw append-nil (give-Reads laws (tt, holding_entries r xs))
    read_entries-Reads r count (e ∷ es) xs slices positions h k p b =
        let sc : ℕ = r.slice_count in
        let pc : ℕ = r.pos_table_count in
        let len : ℕ = index_entry_len sc pc in
        Reads-bytes laws
          (rw
            (append_assoc (slice_bytes e.slice_offset) (position_bytes e.pos_table)
              (entries_bytes es))
            refl)
          (Reads-bind laws read_uint8 _ (e.temporal_offset ∷ []) _
            (read_uint8-Reads laws e.temporal_offset)
            (Reads-bind laws read_uint8 _ (e.key_frame_offset ∷ []) _
              (read_uint8-Reads laws e.key_frame_offset)
              (Reads-bind laws read_uint8 _ (e.flags ∷ []) _ (read_uint8-Reads laws e.flags) (
                Reads-bind laws read_uint64 _ (be64 e.stream_offset) _
                  (read_uint64-Reads laws e.stream_offset h.0.offset_ok)
                  (Reads-bind laws (read_slice_offsets sc slices 11 len) _
                    (slice_bytes e.slice_offset) _
                    (read_slices-Reads sc e.slice_offset slices 11 len (11 + sc * 4) h.0.arrays_ok.0
                      k h.0.slices_ok refl (omega arith))
                    (Reads-bind laws (read_pos_table pc positions (11 + sc * 4) len) _
                      (position_bytes e.pos_table) (entries_bytes es)
                      (read_positions-Reads pc e.pos_table positions (11 + sc * 4) len len
                        h.0.arrays_ok.1 p h.0.positions_ok refl (omega arith))
                      (rw
                        (
                          add-holding_entries r xs e (fewer (length xs) (length es) len b)
                              h.0.arrays_ok,
                          le→ltb_false len len (omega arith),
                        )
                        (rw append_assoc at (
                          read_entries-Reads r count es (xs ++ (e ∷ [])) e.slice_offset e.pos_table
                            h.1 h.0.arrays_ok.0 h.0.arrays_ok.1
                            (moved (length xs) (length es) len (length (xs ++ (e ∷ [])))
                              (length-append xs (e ∷ [])) b))))))))))

    read_array-Reads :
        (r : IndexTableSegment) (es : List IndexEntry)
        → IsMemory mem
        → All (IsEntryOf r.slice_count r.pos_table_count) es
        → r.slice_count < 2 ^ 8
        → r.pos_table_count < 2 ^ 8
        → 8 + length es * index_entry_len r.slice_count r.pos_table_count < 2 ^ 16
        → Reads laws
            (read_index_array mem default_callbacks
              (8 + length es * index_entry_len r.slice_count r.pos_table_count)
              (tt, holding_entries r []))
            (tt, holding_entries r es)
            ((be32 (length es) ++ be32 (index_entry_len r.slice_count r.pos_table_count))
              ++ entries_bytes es)
    unfolding read_index_array
    read_array-Reads r es m h hs hp b =
        let n : ℕ = length es in
        let len : ℕ = index_entry_len r.slice_count r.pos_table_count in
        Reads-bind laws read_uint32 _ (be32 n) (be32 len ++ entries_bytes es)
          (read_uint32-Reads laws n (count_small n r.slice_count r.pos_table_count b))
          (Reads-bind laws read_uint32 _ (be32 len) (entries_bytes es)
            (read_uint32-Reads laws len (omega arith))
            (Reads-bind laws (check (8 + n * len == (8 + n * len) % 2 ^ 32)) _ [] (entries_bytes es)
              (check-Reads laws _ (whole (8 + n * len) b))
              (read_entries-Reads r n es [] (mem.words r.slice_count)
                (mem.rationals r.pos_table_count) h (m.words_ok r.slice_count)
                (m.rationals_ok r.pos_table_count) (zero_more n len b))))

    module _ (ml : ℕ) where
      write_array-Writes :
          (sc pc : ℕ) (es : List IndexEntry)
          → All (IsEntryOf sc pc) es
          → Writes laws ml
              ((do write_uint32 (length es); write_uint32 (index_entry_len sc pc))
                >> write_index_entries sc pc es)
              tt
              ((be32 (length es) ++ be32 (index_entry_len sc pc)) ++ entries_bytes es)
      write_array-Writes sc pc es h =
          Writes-bind laws ml (do write_uint32 (length es); write_uint32 (index_entry_len sc pc))
            (λ _. write_index_entries sc pc es) (be32 (length es) ++ be32 (index_entry_len sc pc))
            (entries_bytes es)
            (Writes-bind laws ml (write_uint32 (length es))
              (λ _. write_uint32 (index_entry_len sc pc)) (be32 (length es))
              (be32 (index_entry_len sc pc)) (write_uint32-Writes laws ml (length es))
              (write_uint32-Writes laws ml (index_entry_len sc pc)))
            (write_entries-Writes laws ml sc pc es h)

      module _ (segment_len : ℕ) (fits : segment_len < 2 ^ 64) where
        array_item-Coded :
            (r : IndexTableSegment) (es : List IndexEntry)
            → IsMemory mem
            → All (IsEntryOf r.slice_count r.pos_table_count) es
            → r.slice_count < 2 ^ 8
            → r.pos_table_count < 2 ^ 8
            → 8 + length es * index_entry_len r.slice_count r.pos_table_count < 2 ^ 16
            → Coded laws ml mem default_callbacks segment_len fits
                (write_index_entry_array_header r.slice_count r.pos_table_count (length es)
                  >> write_index_entries r.slice_count r.pos_table_count es)
                (4 + (8 + length es * index_entry_len r.slice_count r.pos_table_count))
                (tt, holding_entries r [])
                (tt, holding_entries r es)
        unfolding write_index_entry_array_header read_item index_array_len
        array_item-Coded r es m h hs hp b =
            let sc : ℕ = r.slice_count in
            let pc : ℕ = r.pos_table_count in
            let size : ℕ = 8 + length es * index_entry_len sc pc in
            rw
              (
                short size b,
                then_assoc laws ml mem default_callbacks segment_len fits
                    (write_local_tl 0x3f0a size)
                    (do write_uint32 (length es); write_uint32 (index_entry_len sc pc))
                    (write_index_entries sc pc es),
              )
              (item-Coded laws ml mem default_callbacks segment_len fits 0x3f0a size _ _
                (omega arith) b (write_array-Writes sc pc es h) (read_array-Reads r es m h hs hp b))

        -- An array that is not empty is written for the counts of the segment that has been read.
        pub index_array-Coded :
            (r : IndexTableSegment) (sc pc : ℕ) (es : List IndexEntry)
            → IsMemory mem
            → r.index_entry_array ≡ []
            → (length es ≢ 0 → (r.slice_count ≡ sc) × (r.pos_table_count ≡ pc))
            → All (IsEntryOf sc pc) es
            → sc < 2 ^ 8
            → pc < 2 ^ 8
            → 8 + length es * index_entry_len sc pc < 2 ^ 16
            → Coded laws ml mem default_callbacks segment_len fits
                (write_index_array sc pc es)
                (index_array_size (length es) (index_entry_len sc pc))
                (tt, r)
                (tt, holding_entries r es)
        unfolding write_index_array
        index_array-Coded r sc pc [] m n c h hs hp b =
            subst
              (λ (t : IndexTableSegment).
                Coded laws ml mem default_callbacks segment_len fits (give tt) 0 (tt, r) (tt, t))
              (λ i. holding_entries r (n i))
              (nothing-Coded laws ml mem default_callbacks segment_len fits (tt, r))
        index_array-Coded r sc pc (e ∷ es) m n c h hs hp b =
            let k : ℕ = length (e ∷ es) in
            let counts : (r.slice_count ≡ sc) × (r.pos_table_count ≡ pc) = c (omega arith) in
            rw (short_count k sc pc b) (
              Coded-is laws ml mem default_callbacks segment_len fits
                (index_array_size k (index_entry_len sc pc))
                (sized k (index_entry_len sc pc) (omega arith))
                (subst
                  (λ (a : ℕ × ℕ × List IndexEntry).
                    All (IsEntryOf a.0 a.1) (e ∷ es)
                    → a.0 < 2 ^ 8
                    → a.1 < 2 ^ 8
                    → 8 + k * index_entry_len a.0 a.1 < 2 ^ 16
                    → Coded laws ml mem default_callbacks segment_len fits
                        (write_index_entry_array_header a.0 a.1 k
                          >> write_index_entries a.0 a.1 (e ∷ es))
                        (4 + (8 + k * index_entry_len a.0 a.1)) (tt, holding_entries r a.2)
                        (tt, holding_entries r (e ∷ es)))
                  (λ i. (counts.0 i, counts.1 i, sym n i)) (array_item-Coded r (e ∷ es) m) h hs hp
                  b))
