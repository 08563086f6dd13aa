-- ===== src/IndexTable/Entries.antt =====
-- The index entries of mxf/mxf_index_table.c: their bytes, and writing them.
use ebu_libmxf.Base.{
  ℕ, zero, suc, ◌+◌, ◌*◌, ◌%◌, ◌^◌, ◌≤◌, ◌<◌, ◌≡◌, refl, List, [], ◌∷◌, ◌++◌, length, arith, All,
  some, take-all, le→leb,
}
use ebu_libmxf.File.Ops.{FileOps, ByteFile}
use ebu_libmxf.File.Words.{write_uint8, write_uint32, write_uint64}
use ebu_libmxf.File.Laws.{Writes, Writes-bind}
use ebu_libmxf.File.Laws.Primitives.{give-Writes}
use ebu_libmxf.File.Laws.Words.{
  be32, be64, write_uint8-Writes, write_uint32-Writes, write_uint64-Writes,
}
use ebu_libmxf.IndexTable.Defs.{
  IndexEntry, IndexTableSegment, index_entry_len, add_index_entry, copied_entry,
  default_add_index_entry, write_slice_offsets, write_pos_table, write_index_entry,
  write_index_entries,
}
use ebu_libmxf.IndexTable.Size.{IsIndexEntry}
use ebu_libmxf.IndexTable.Read.{Memory}

-- The arrays have the right lengths, and the words fit.
pub record IsEntryOf (sc pc : ℕ) (e : IndexEntry) : Type 0 where
  pub arrays_ok : IsIndexEntry sc pc e
  pub offset_ok : e.stream_offset < 2 ^ 64
  pub slices_ok : All (λ (v : ℕ). v < 2 ^ 32) e.slice_offset
  pub positions_ok : All (λ (v : ℕ × ℕ). (v.0 < 2 ^ 32) × (v.1 < 2 ^ 32)) e.pos_table

-- Fresh memory is as long as it is asked to be.
pub record IsMemory (mem : Memory) : Type 0 where
  pub words_ok : (n : ℕ) → length (mem.words n) ≡ n
  pub rationals_ok : (n : ℕ) → length (mem.rationals n) ≡ n

abbrev pub slice_bytes : List ℕ → List ℕ
slice_bytes [] = []
slice_bytes (v ∷ vs) = be32 v ++ slice_bytes vs

abbrev pub position_bytes : List (ℕ × ℕ) → List ℕ
position_bytes [] = []
position_bytes (v ∷ vs) = be32 v.0 ++ (be32 v.1 ++ position_bytes vs)

abbrev pub entry_bytes : IndexEntry → List ℕ
entry_bytes e =
    (e.temporal_offset ∷ [])
    ++ ((e.key_frame_offset ∷ [])
        ++ ((e.flags ∷ [])
            ++ (be64 e.stream_offset
                ++ (slice_bytes e.slice_offset ++ position_bytes e.pos_table))))

abbrev pub entries_bytes : List IndexEntry → List ℕ
entries_bytes [] = []
entries_bytes (e ∷ es) = entry_bytes e ++ entries_bytes es

abbrev pub holding_entries : IndexTableSegment → List IndexEntry → IndexTableSegment
holding_entries r es = record r { index_entry_array = es }

add_index_entry-fits :
    (len : ℕ) (es : List IndexEntry) (e : IndexEntry)
    → 8 + (length es + 1) * len < 2 ^ 16
    → add_index_entry len es e ≡ some (es ++ (e ∷ []))
unfolding add_index_entry
add_index_entry-fits len [] e h = refl
add_index_entry-fits len (x ∷ xs) e h =
    rw (le→leb ((8 + length xs * len) % 2 ^ 32) 65535 (small (length xs) len h)) refl
  where
    small : (n len : ℕ) → 8 + (suc n + 1) * len < 2 ^ 16 → (8 + n * len) % 2 ^ 32 ≤ 65535
    small n len h = omega arith

pub add-holding_entries :
    (r : IndexTableSegment) (xs : List IndexEntry) (e : IndexEntry)
    → 8 + (length xs + 1) * index_entry_len r.slice_count r.pos_table_count < 2 ^ 16
    → IsIndexEntry r.slice_count r.pos_table_count e
    → default_add_index_entry (holding_entries r xs) e ≡ some (holding_entries r (xs ++ (e ∷ [])))
unfolding default_add_index_entry
add-holding_entries r xs e h i =
    rw
      (
        add_index_entry-fits (index_entry_len r.slice_count r.pos_table_count) xs (copied_entry r e)
            h,
        take-all r.slice_count e.slice_offset (omega arith),
        take-all r.pos_table_count e.pos_table (omega arith),
      )
      refl

module _ {S : Type 0} ⦃ops : FileOps S⦄ (laws : ByteFile ops) where
  module _ (ml : ℕ) where
    write_slices-Writes :
        (n : ℕ) (vs : List ℕ)
        → length vs ≡ n
        → Writes laws ml (write_slice_offsets n vs) tt (slice_bytes vs)
    unfolding write_slice_offsets
    write_slices-Writes zero [] h = give-Writes laws ml tt
    write_slices-Writes zero (v ∷ vs) h = absurd (omega arith)
    write_slices-Writes (suc n) [] h = absurd (omega arith)
    write_slices-Writes (suc n) (v ∷ vs) h =
        Writes-bind laws ml (write_uint32 v) (λ _. write_slice_offsets n vs) (be32 v)
          (slice_bytes vs) (write_uint32-Writes laws ml v) (write_slices-Writes n vs (omega arith))

    write_positions-Writes :
        (n : ℕ) (vs : List (ℕ × ℕ))
        → length vs ≡ n
        → Writes laws ml (write_pos_table n vs) tt (position_bytes vs)
    unfolding write_pos_table
    write_positions-Writes zero [] h = give-Writes laws ml tt
    write_positions-Writes zero (v ∷ vs) h = absurd (omega arith)
    write_positions-Writes (suc n) [] h = absurd (omega arith)
    write_positions-Writes (suc n) (v ∷ vs) h =
        Writes-bind laws ml (write_uint32 v.0) _ (be32 v.0) (be32 v.1 ++ position_bytes vs)
          (write_uint32-Writes laws ml v.0)
          (Writes-bind laws ml (write_uint32 v.1) (λ _. write_pos_table n vs) (be32 v.1)
            (position_bytes vs) (write_uint32-Writes laws ml v.1)
            (write_positions-Writes n vs (omega arith)))

    write_entry-Writes :
        (sc pc : ℕ) (e : IndexEntry)
        → IsIndexEntry sc pc e
        → Writes laws ml (write_index_entry sc pc e) tt (entry_bytes e)
    unfolding write_index_entry
    write_entry-Writes sc pc e h =
        Writes-bind laws ml (write_uint8 e.temporal_offset) _ (e.temporal_offset ∷ []) _
          (write_uint8-Writes laws ml e.temporal_offset)
          (Writes-bind laws ml (write_uint8 e.key_frame_offset) _ (e.key_frame_offset ∷ []) _
            (write_uint8-Writes laws ml e.key_frame_offset)
            (Writes-bind laws ml (write_uint8 e.flags) _ (e.flags ∷ []) _
              (write_uint8-Writes laws ml e.flags)
              (Writes-bind laws ml (write_uint64 e.stream_offset) _ (be64 e.stream_offset)
                (slice_bytes e.slice_offset ++ position_bytes e.pos_table)
                (write_uint64-Writes laws ml e.stream_offset)
                (Writes-bind laws ml (write_slice_offsets sc e.slice_offset)
                  (λ _. write_pos_table pc e.pos_table) (slice_bytes e.slice_offset)
                  (position_bytes e.pos_table) (write_slices-Writes sc e.slice_offset h.0)
                  (write_positions-Writes pc e.pos_table h.1)))))

    pub write_entries-Writes :
        (sc pc : ℕ) (es : List IndexEntry)
        → All (IsEntryOf sc pc) es
        → Writes laws ml (write_index_entries sc pc es) tt (entries_bytes es)
    unfolding write_index_entries
    write_entries-Writes sc pc [] h = give-Writes laws ml tt
    write_entries-Writes sc pc (e ∷ es) h =
        Writes-bind laws ml (write_index_entry sc pc e) (λ _. write_index_entries sc pc es)
          (entry_bytes e) (entries_bytes es) (write_entry-Writes sc pc e h.0.arrays_ok)
          (write_entries-Writes sc pc es h.1)
