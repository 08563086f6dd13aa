-- ===== src/IndexTable/Deltas.antt =====
-- The delta entry array of mxf/mxf_index_table.c, written and read.
use ebu_libmxf.Base.{
  ℕ, ◌+◌, ◌*◌, ◌%◌, ◌^◌, ◌<◌, ◌≡◌, refl, sym, List, [], ◌∷◌, ◌++◌, length, ◌==◌, ◌||◌, arith, subst,
  All, append-nil, append_assoc, length-append, some,
}
use ebu_libmxf.File.Ops.{FileOps, ByteFile}
use ebu_libmxf.File.Monad.{give, check, ◌>>◌}
use ebu_libmxf.File.Words.{read_uint8, read_uint32, write_uint8, write_uint32}
use ebu_libmxf.File.Klv.{write_local_tl}
use ebu_libmxf.File.Laws.{Writes, Reads, Writes-bind, Reads-bind}
use ebu_libmxf.File.Laws.Primitives.{give-Writes, give-Reads, check-Reads}
use ebu_libmxf.File.Laws.Words.{
  be32, read_uint8-Reads, read_uint32-Reads, write_uint8-Writes, write_uint32-Writes,
}
use ebu_libmxf.IndexTable.Defs.{
  DeltaEntry, IndexTableSegment, delta_entries_len, delta_array_len, default_add_delta_entry,
  write_delta_entry, write_delta_entries, write_delta_entry_array_header, write_delta_array,
}
use ebu_libmxf.IndexTable.Arrays.{add_delta_entry-fits}
use ebu_libmxf.IndexTable.Read.{
  Memory, default_callbacks, read_item, read_delta_entries, read_delta_array,
}
use ebu_libmxf.IndexTable.Coded.{Coded, Coded-is, nothing-Coded, item-Coded, then_assoc}

abbrev pub IsDeltaEntry : DeltaEntry → Type 0
IsDeltaEntry e = e.element_data < 2 ^ 32

abbrev delta_bytes : List DeltaEntry → List ℕ
delta_bytes [] = []
delta_bytes (e ∷ es) =
    (e.pos_table_index ∷ []) ++ ((e.slice ∷ []) ++ (be32 e.element_data ++ delta_bytes es))

abbrev holding_deltas : IndexTableSegment → List DeltaEntry → IndexTableSegment
holding_deltas r es = record r { delta_entry_array = es }

add-holding_deltas :
    (r : IndexTableSegment) (xs : List DeltaEntry) (e : DeltaEntry)
    → 8 + (length xs + 1) * 6 < 2 ^ 16
    → default_add_delta_entry (holding_deltas r xs) e ≡ some (holding_deltas r (xs ++ (e ∷ [])))
unfolding default_add_delta_entry
add-holding_deltas r xs e h = rw ((add_delta_entry-fits xs e h).0) refl

module _ {S : Type 0} ⦃ops : FileOps S⦄ (laws : ByteFile ops) (ml : ℕ) (mem : Memory) where
  write_deltas-Writes :
      (es : List DeltaEntry) → Writes laws ml (write_delta_entries es) tt (delta_bytes es)
  unfolding write_delta_entries write_delta_entry
  write_deltas-Writes [] = give-Writes laws ml tt
  write_deltas-Writes (e ∷ es) =
      Writes-bind laws ml (write_delta_entry e) (λ _. write_delta_entries es)
        ((e.pos_table_index ∷ []) ++ ((e.slice ∷ []) ++ be32 e.element_data)) (delta_bytes es)
        (Writes-bind laws ml (write_uint8 e.pos_table_index) _ (e.pos_table_index ∷ []) _
          (write_uint8-Writes laws ml e.pos_table_index)
          (Writes-bind laws ml (write_uint8 e.slice) _ (e.slice ∷ []) (be32 e.element_data)
            (write_uint8-Writes laws ml e.slice) (write_uint32-Writes laws ml e.element_data)))
        (write_deltas-Writes es)

  read_deltas-Reads :
      (r : IndexTableSegment) (count : ℕ) (es xs : List DeltaEntry)
      → All IsDeltaEntry es
      → 8 + (length xs + length es) * 6 < 2 ^ 16
      → Reads laws
          (read_delta_entries mem default_callbacks (length es) count (tt, holding_deltas r xs))
          (tt, holding_deltas r (xs ++ es))
          (delta_bytes es)
  unfolding read_delta_entries
  read_deltas-Reads r count [] xs h b = rw append-nil (give-Reads laws (tt, holding_deltas r xs))
  read_deltas-Reads r count (e ∷ es) xs h b =
      Reads-bind laws read_uint8 _ (e.pos_table_index ∷ []) _
        (read_uint8-Reads laws e.pos_table_index)
        (Reads-bind laws read_uint8 _ (e.slice ∷ []) _ (read_uint8-Reads laws e.slice) (
          Reads-bind laws read_uint32 _ (be32 e.element_data) (delta_bytes es)
            (read_uint32-Reads laws e.element_data h.0)
            (rw (add-holding_deltas r xs e (omega arith)) (
              rw append_assoc at (
                read_deltas-Reads r count es (xs ++ (e ∷ [])) h.1
                  (omega (arith, length-append xs (e ∷ []))))))))

  read_array-Reads :
      (r : IndexTableSegment) (es : List DeltaEntry)
      → All IsDeltaEntry es
      → 8 + length es * 6 < 2 ^ 16
      → Reads laws
          (read_delta_array mem default_callbacks (8 + length es * 6) (tt, holding_deltas r []))
          (tt, holding_deltas r es)
          ((be32 (length es) ++ be32 6) ++ delta_bytes es)
  unfolding read_delta_array
  read_array-Reads r es h b =
      let n : ℕ = length es in
      Reads-bind laws read_uint32 _ (be32 n) (be32 6 ++ delta_bytes es)
        (read_uint32-Reads laws n (omega arith))
        (Reads-bind laws read_uint32 _ (be32 6) (delta_bytes es)
          (read_uint32-Reads laws 6 (omega arith))
          (Reads-bind laws (check (n == 0 || 6 == 6)) _ [] (delta_bytes es)
            (check-Reads laws (n == 0 || 6 == 6) (ground arith))
            (Reads-bind laws (check (8 + n * 6 == (8 + n * 6) % 2 ^ 32)) _ [] (delta_bytes es)
              (check-Reads laws _ (ground arith)) (read_deltas-Reads r n es [] h (omega arith)))))

  write_array-Writes :
      (es : List DeltaEntry)
      → Writes laws ml
          ((do write_uint32 (length es); write_uint32 6) >> write_delta_entries es)
          tt
          ((be32 (length es) ++ be32 6) ++ delta_bytes es)
  write_array-Writes es =
      Writes-bind laws ml (do write_uint32 (length es); write_uint32 6)
        (λ _. write_delta_entries es) (be32 (length es) ++ be32 6) (delta_bytes es)
        (Writes-bind laws ml (write_uint32 (length es)) (λ _. write_uint32 6) (be32 (length es))
          (be32 6) (write_uint32-Writes laws ml (length es)) (write_uint32-Writes laws ml 6))
        (write_deltas-Writes es)

  module _ (segment_len : ℕ) (fits : segment_len < 2 ^ 64) where
    array_item-Coded :
        (r : IndexTableSegment) (es : List DeltaEntry)
        → All IsDeltaEntry es
        → 8 + length es * 6 < 2 ^ 16
        → Coded laws ml mem default_callbacks segment_len fits
            (write_delta_entry_array_header (length es) >> write_delta_entries es)
            (4 + (8 + length es * 6))
            (tt, holding_deltas r [])
            (tt, holding_deltas r es)
    unfolding write_delta_entry_array_header read_item delta_array_len
    array_item-Coded r es h b =
        let short : (8 + length es * 6) % 2 ^ 16 ≡ 8 + length es * 6 = omega arith in
        rw
          (
            short,
            then_assoc laws ml mem default_callbacks segment_len fits
                (write_local_tl 0x3f09 (8 + length es * 6))
                (do write_uint32 (length es); write_uint32 6) (write_delta_entries es),
          )
          (item-Coded laws ml mem default_callbacks segment_len fits 0x3f09 (8 + length es * 6) _ _
            (omega arith) b (write_array-Writes es) (read_array-Reads r es h b))

    pub delta_array-Coded :
        (r : IndexTableSegment) (es : List DeltaEntry)
        → r.delta_entry_array ≡ []
        → All IsDeltaEntry es
        → 8 + length es * 6 < 2 ^ 16
        → Coded laws ml mem default_callbacks segment_len fits
            (write_delta_array es)
            (delta_entries_len (length es))
            (tt, r)
            (tt, holding_deltas r es)
    unfolding write_delta_array
    delta_array-Coded r [] n h b =
        subst
          (λ (t : IndexTableSegment).
            Coded laws ml mem default_callbacks segment_len fits (give tt) 0 (tt, r) (tt, t))
          (λ i. holding_deltas r (n i))
          (nothing-Coded laws ml mem default_callbacks segment_len fits (tt, r))
    delta_array-Coded r (e ∷ es) n h b =
        let small : length (e ∷ es) % 2 ^ 32 ≡ length (e ∷ es) = omega arith in
        let len : 4 + (8 + length (e ∷ es) * 6) ≡ delta_entries_len (length (e ∷ es)) =
          ground arith in
        rw small (
          Coded-is laws ml mem default_callbacks segment_len fits
            (delta_entries_len (length (e ∷ es))) len
            (subst
              (λ (xs : List DeltaEntry).
                Coded laws ml mem default_callbacks segment_len fits
                  (write_delta_entry_array_header (length (e ∷ es)) >> write_delta_entries (e ∷ es))
                  (4 + (8 + length (e ∷ es) * 6)) (tt, holding_deltas r xs)
                  (tt, holding_deltas r (e ∷ es)))
              (sym n) (array_item-Coded r (e ∷ es) h b)))
