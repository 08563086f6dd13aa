-- ===== src/IndexTable/Size.antt =====
-- The bytes that the writers of mxf/mxf_index_table.c put after the length field.
use ebu_libmxf.Base.{
  ℕ, zero, suc, ◌+◌, ◌*◌, ◌%◌, ◌^◌, ◌≡◌, refl, ◌∙◌, Bool, false, List, [], ◌∷◌, ◌++◌, length, All,
  ◌==◌, if◌then◌else◌, arith, length-append, Bool-cases, inl, inr,
}
use ebu_libmxf.File.Ops.{FileOps, ByteFile}
use ebu_libmxf.File.Monad.{M, give, ◌>>◌}
use ebu_libmxf.File.Words.{write_uint8, write_uint32, write_uint64}
use ebu_libmxf.File.Klv.{IsKey, write_uid, write_local_tl}
use ebu_libmxf.File.Laws.{Writes, Writes-bind}
use ebu_libmxf.File.Laws.Primitives.{give-Writes}
use ebu_libmxf.File.Laws.Words.{
  be16, be32, be64, write_uint8-Writes, write_uint32-Writes, write_uint64-Writes,
}
use ebu_libmxf.File.Laws.Klv.{write_uid-Writes, write_local_tl-Writes}
use ebu_libmxf.IndexTable.Defs.{
  DeltaEntry, IndexEntry, IndexTableSegment, index_entry_len, delta_array_len, index_array_len,
  optional_len, options_len, delta_entries_len, write_delta_entry_array_header, write_delta_entry,
  write_index_entry_array_header, write_slice_offsets, write_pos_table, write_index_entry,
  write_items, write_counts, write_optional_uint64, write_optional_bool, write_options,
  write_delta_entries, write_index_entries, write_delta_array, write_index_array,
}

-- The arrays of an entry are as long as the segment says.
abbrev pub IsIndexEntry : ℕ → ℕ → IndexEntry → Type 0
IsIndexEntry slice_count pos_table_count e =
    (length e.slice_offset ≡ slice_count) × (length e.pos_table ≡ pos_table_count)

-- The item of the index entries, and the counts.
abbrev pub index_array_size : ℕ → ℕ → ℕ
index_array_size n len = if n == 0 then 0 else 12 + n * len

abbrev pub counts_size : Bool → ℕ → ℕ
counts_size force m = if m == 0 then (if force then 5 else 0) else 10

module _ {S : Type 0} ⦃ops : FileOps S⦄ (laws : ByteFile ops) (ml : ℕ) where
  -- A program that writes `n` bytes.
  abbrev pub Sized : M S (Unit {0}) → ℕ → Type 0
  Sized m n = (bs : List ℕ) × Writes laws ml m tt bs × (length bs ≡ n)

  pub Sized-then : (m k : M S (Unit {0})) (a b : ℕ) → Sized m a → Sized k b → Sized (m >> k) (a + b)
  Sized-then m k a b p q = (
    p.0 ++ q.0,
    Writes-bind laws ml m (λ _. k) p.0 q.0 p.1 q.1,
    omega (arith, length-append p.0 q.0, p.2, q.2),
  )

  pub Sized-is : {m : M S (Unit {0})} {a : ℕ} (b : ℕ) → a ≡ b → Sized m a → Sized m b
  Sized-is b e p = (p.0, p.1, p.2 ∙ e)

  nothing : Sized (give tt) 0
  nothing = ([], give-Writes laws ml tt, refl)

  u8 : (v : ℕ) → Sized (write_uint8 v) 1
  u8 v = (v ∷ [], write_uint8-Writes laws ml v, refl)

  u32 : (v : ℕ) → Sized (write_uint32 v) 4
  u32 v = (be32 v, write_uint32-Writes laws ml v, refl)

  u64 : (v : ℕ) → Sized (write_uint64 v) 8
  u64 v = (be64 v, write_uint64-Writes laws ml v, refl)

  tl : (tag len : ℕ) → Sized (write_local_tl tag len) 4
  tl tag len = (be16 tag ++ be16 len, write_local_tl-Writes laws ml tag len, refl)

  pub items-Sized : (s : IndexTableSegment) → IsKey s.instance_uid → Sized (write_items s) 80
  unfolding write_items
  items-Sized s h = Sized-then (write_local_tl 0x3c0a 16) _ 4 76 (tl 0x3c0a 16) (
      Sized-then (write_uid s.instance_uid) _ 16 60
        (s.instance_uid, write_uid-Writes laws ml s.instance_uid h, h)
        (Sized-then (write_local_tl 0x3f0b 8) _ 4 56 (tl 0x3f0b 8) (
          Sized-then (write_uint32 s.edit_rate_numerator) _ 4 52 (u32 s.edit_rate_numerator) (
            Sized-then (write_uint32 s.edit_rate_denominator) _ 4 48 (u32 s.edit_rate_denominator) (
              Sized-then (write_local_tl 0x3f0c 8) _ 4 44 (tl 0x3f0c 8) (
                Sized-then (write_uint64 s.index_start_position) _ 8 36 (u64 s.index_start_position)
                  (Sized-then (write_local_tl 0x3f0d 8) _ 4 32 (tl 0x3f0d 8) (
                    Sized-then (write_uint64 s.index_duration) _ 8 24 (u64 s.index_duration) (
                      Sized-then (write_local_tl 0x3f05 4) _ 4 20 (tl 0x3f05 4) (
                        Sized-then (write_uint32 s.edit_unit_byte_count) _ 4 16
                          (u32 s.edit_unit_byte_count)
                          (Sized-then (write_local_tl 0x3f06 4) _ 4 12 (tl 0x3f06 4) (
                            Sized-then (write_uint32 s.index_sid) _ 4 8 (u32 s.index_sid) (
                              Sized-then (write_local_tl 0x3f07 4) _ 4 4 (tl 0x3f07 4)
                                (u32 s.body_sid))))))))))))))

  optional_uint64-Sized : (tag v : ℕ) → Sized (write_optional_uint64 tag v) (optional_len v 8)
  unfolding write_optional_uint64
  optional_uint64-Sized tag v = elim (Bool-cases (v == 0)) [
    | inl null ↦ rw null nothing
    | inr some_left ↦
        rw some_left (Sized-then (write_local_tl tag 8) (write_uint64 v) 4 8 (tl tag 8) (u64 v))
  ]

  optional_bool-Sized : (tag v : ℕ) → Sized (write_optional_bool tag v) (optional_len v 1)
  unfolding write_optional_bool
  optional_bool-Sized tag v = elim (Bool-cases (v == 0)) [
    | inl null ↦ rw null nothing
    | inr some_left ↦
        rw some_left
          (Sized-then (write_local_tl tag 1) _ 4 1 (tl tag 1) (u8 (if v == 1 then 1 else 0)))
  ]

  pub options-Sized : (s : IndexTableSegment) → Sized (write_options s) (options_len s)
  unfolding write_options
  options-Sized s = Sized-is (options_len s) (omega arith) (
      Sized-then (write_optional_uint64 0x3f0f s.ext_start_offset) _ _ _
        (optional_uint64-Sized 0x3f0f s.ext_start_offset)
        (Sized-then (write_optional_uint64 0x3f10 s.vbe_byte_count) _ _ _
          (optional_uint64-Sized 0x3f10 s.vbe_byte_count)
          (Sized-then (write_optional_bool 0x3f11 s.single_index_location) _ _ _
            (optional_bool-Sized 0x3f11 s.single_index_location)
            (Sized-then (write_optional_bool 0x3f12 s.single_essence_location) _ _ _
              (optional_bool-Sized 0x3f12 s.single_essence_location)
              (optional_bool-Sized 0x3f13 s.forward_index_direction)))))

  deltas-Sized : (es : List DeltaEntry) → Sized (write_delta_entries es) (length es * 6)
  unfolding write_delta_entries write_delta_entry
  deltas-Sized [] = nothing
  deltas-Sized (e ∷ es) = Sized-is (length (e ∷ es) * 6) (omega arith) (
      Sized-then (write_delta_entry e) (write_delta_entries es) 6 (length es * 6)
        (Sized-then (write_uint8 e.pos_table_index) _ 1 5 (u8 e.pos_table_index)
          (Sized-then (write_uint8 e.slice) _ 1 4 (u8 e.slice) (u32 e.element_data)))
        (deltas-Sized es))

  pub delta_array-Sized :
      (es : List DeltaEntry) → Sized (write_delta_array es) (delta_entries_len (length es))
  unfolding write_delta_array write_delta_entry_array_header
  delta_array-Sized [] = nothing
  delta_array-Sized (e ∷ es) =
      let some_left : (length (e ∷ es) == 0) ≡ false = ground arith in
      let n : ℕ = length (e ∷ es) % 2 ^ 32 in
      rw some_left (
        Sized-then (write_delta_entry_array_header n) (write_delta_entries (e ∷ es)) 12
          (length (e ∷ es) * 6)
          (Sized-then (write_local_tl 0x3f09 (delta_array_len n)) _ 4 8
            (tl 0x3f09 (delta_array_len n)) (Sized-then (write_uint32 n) _ 4 4 (u32 n) (u32 6)))
          (deltas-Sized (e ∷ es)))

  slices-Sized : (n : ℕ) (xs : List ℕ) → length xs ≡ n → Sized (write_slice_offsets n xs) (n * 4)
  unfolding write_slice_offsets
  slices-Sized zero xs h = nothing
  slices-Sized (suc n) [] h = absurd (omega arith)
  slices-Sized (suc n) (x ∷ xs) h =
      Sized-is (suc n * 4) (omega arith)
        (Sized-then (write_uint32 x) _ 4 (n * 4) (u32 x) (slices-Sized n xs (omega arith)))

  positions-Sized :
      (n : ℕ) (xs : List (ℕ × ℕ)) → length xs ≡ n → Sized (write_pos_table n xs) (n * 8)
  unfolding write_pos_table
  positions-Sized zero xs h = nothing
  positions-Sized (suc n) [] h = absurd (omega arith)
  positions-Sized (suc n) (x ∷ xs) h = Sized-is (suc n * 8) (omega arith) (
      Sized-then (write_uint32 x.0) _ 4 (4 + n * 8) (u32 x.0)
        (Sized-then (write_uint32 x.1) _ 4 (n * 8) (u32 x.1) (positions-Sized n xs (omega arith))))

  entry-Sized :
      (sc pc : ℕ) (e : IndexEntry)
      → IsIndexEntry sc pc e
      → Sized (write_index_entry sc pc e) (index_entry_len sc pc)
  unfolding write_index_entry
  entry-Sized sc pc e h = Sized-is (index_entry_len sc pc) (omega arith) (
      Sized-then (write_uint8 e.temporal_offset) _ 1 _ (u8 e.temporal_offset) (
        Sized-then (write_uint8 e.key_frame_offset) _ 1 _ (u8 e.key_frame_offset) (
          Sized-then (write_uint8 e.flags) _ 1 _ (u8 e.flags) (
            Sized-then (write_uint64 e.stream_offset) _ 8 _ (u64 e.stream_offset) (
              Sized-then (write_slice_offsets sc e.slice_offset) _ (sc * 4) (pc * 8)
                (slices-Sized sc e.slice_offset h.0) (positions-Sized pc e.pos_table h.1))))))

  entries-Sized :
      (sc pc : ℕ) (es : List IndexEntry)
      → All (IsIndexEntry sc pc) es
      → Sized (write_index_entries sc pc es) (length es * index_entry_len sc pc)
  unfolding write_index_entries
  entries-Sized sc pc [] h = Sized-is (0 * index_entry_len sc pc) (omega arith) nothing
  entries-Sized sc pc (e ∷ es) h =
      let len : ℕ = index_entry_len sc pc in
      Sized-is (suc (length es) * len) (one_more (length es) len) (
        Sized-then (write_index_entry sc pc e) _ len (length es * len) (entry-Sized sc pc e h.0)
          (entries-Sized sc pc es h.1))
    where
      one_more : (n len : ℕ) → len + n * len ≡ suc n * len
      one_more n len = omega arith

  pub index_array-Sized :
      (sc pc : ℕ) (es : List IndexEntry)
      → All (IsIndexEntry sc pc) es
      → Sized (write_index_array sc pc es) (index_array_size (length es) (index_entry_len sc pc))
  unfolding write_index_array write_index_entry_array_header
  index_array-Sized sc pc [] h = nothing
  index_array-Sized sc pc (e ∷ es) h =
      let some_left : (length (e ∷ es) == 0) ≡ false = ground arith in
      let n : ℕ = length (e ∷ es) % 2 ^ 32 in
      let len : ℕ = index_entry_len sc pc in
      rw some_left (
        Sized-then (write_index_entry_array_header sc pc n) (write_index_entries sc pc (e ∷ es)) 12
          (length (e ∷ es) * len)
          (Sized-then (write_local_tl 0x3f0a (index_array_len n len)) _ 4 8
            (tl 0x3f0a (index_array_len n len))
            (Sized-then (write_uint32 n) _ 4 4 (u32 n) (u32 len)))
          (entries-Sized sc pc (e ∷ es) h))

  pub counts-Sized :
      (s : IndexTableSegment) (m : ℕ)
      → Sized (write_counts s m) (counts_size s.force_write_slice_count m)
  unfolding write_counts
  counts-Sized s m = elim (Bool-cases (m == 0)) [
    | inr some_left ↦ rw some_left (
        Sized-then (write_local_tl 0x3f08 1) _ 4 6 (tl 0x3f08 1) (
          Sized-then (write_uint8 s.slice_count) _ 1 5 (u8 s.slice_count)
            (Sized-then (write_local_tl 0x3f0e 1) _ 4 1 (tl 0x3f0e 1) (u8 s.pos_table_count))))
    | inl null ↦ elim (Bool-cases s.force_write_slice_count) [
      | inl force ↦
          rw (null, force)
            (Sized-then (write_local_tl 0x3f08 1) _ 4 1 (tl 0x3f08 1) (u8 s.slice_count))
      | inr quiet ↦ rw (null, quiet) nothing
    ]
  ]
