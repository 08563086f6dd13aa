-- ===== src/Tests/IndexTable.antt =====
-- mxf/mxf_index_table.c on a small segment.
use ebu_libmxf.Base.{
  ℕ, ◌^◌, ◌+◌, ◌*◌, ◌≡◌, refl, false, some, List, [], ◌∷◌, ◌++◌, length, replicate,
  length-replicate, arith,
}
use ebu_libmxf.File.Length.{get_llen}
use ebu_libmxf.File.Laws.{Wrote}
use ebu_libmxf.File.Laws.Length.{ber}
use ebu_libmxf.Keys.{null_key, index_table_segment_key}
use ebu_libmxf.IndexTable.Defs.{
  DeltaEntry, IndexEntry, IndexTableSegment, add_delta_entry, delta_array_len, segment_len,
  header_segment_len, write_index_table_segment,
}
use ebu_libmxf.IndexTable.Arrays.{add_delta_entry-fits, add_delta_entry-overflows}
use ebu_libmxf.IndexTable.Exact.{write_index_table_segment-exact}
use ebu_libmxf.IndexTable.Streamed.{
  write_parts, header_segment_len-wraps, write_index_table_segment-streamed,
}
use ebu_libmxf.File.Monad.{MxfFile}
use ebu_libmxf.File.Laws.{IsOpen}
use ebu_libmxf.File.Laws.Replay.{replay}
use ebu_libmxf.MemoryFile.Defs.{MemFile, mem_file_ops, mem_file_open_new}
use ebu_libmxf.MemoryFile.Valid.{mem_file_open_new-IsValid}
use ebu_libmxf.MemoryFile.Laws.{mem_file}
use ebu_libmxf.IndexTable.Exact.{value_size}
use ebu_libmxf.IndexTable.Read.{Memory}
use ebu_libmxf.IndexTable.Items.{IsSegment}
use ebu_libmxf.IndexTable.Entries.{IsMemory}
use ebu_libmxf.IndexTable.RoundTrip.{
  HasArrays, as_read, read_kl_segment, index_table_segment_round_trip,
}
use ebu_libmxf.Tests.MemoryFile.{fresh, fresh-IsMalloc}
use ebu_libmxf.Tests.Plain.{plain, plain_file, blank, plain-IsOpen}

abbrev delta : DeltaEntry
delta = record { pos_table_index = 0; slice = 1; element_data = 100 }

abbrev entry : IndexEntry
entry = record {
  temporal_offset = 0;
  key_frame_offset = 0;
  flags = 0x80;
  stream_offset = 4096;
  slice_offset = 7 ∷ [];
  pos_table = [];
}

abbrev segment : IndexTableSegment
segment = record {
  instance_uid = null_key;
  edit_rate_numerator = 25;
  edit_rate_denominator = 1;
  index_start_position = 0;
  index_duration = 1;
  edit_unit_byte_count = 0;
  index_sid = 1;
  body_sid = 2;
  slice_count = 1;
  force_write_slice_count = false;
  pos_table_count = 0;
  delta_entry_array = delta ∷ [];
  index_entry_array = entry ∷ [];
  ext_start_offset = 0;
  vbe_byte_count = 9;
  single_index_location = 2;
  single_essence_location = 0;
  forward_index_direction = 0;
}

-- Fresh memory for the reader.
abbrev memory : Memory
memory = record { words = λ n. replicate n 0; rationals = λ n. replicate n (0, 0) }

memory-IsMemory : IsMemory memory
memory-IsMemory = record {
  words_ok = λ n. length-replicate n 0;
  rationals_ok = λ n. length-replicate n (0, 0);
}

segment-IsSegment : IsSegment segment
segment-IsSegment = record {
  uid_ok = refl;
  numerator_ok = omega arith;
  denominator_ok = omega arith;
  start_ok = omega arith;
  duration_ok = omega arith;
  byte_count_ok = omega arith;
  index_sid_ok = omega arith;
  body_sid_ok = omega arith;
  slices_ok = omega arith;
  positions_ok = omega arith;
  offset_ok = omega arith;
  vbe_ok = omega arith;
  index_location_ok = omega arith;
  essence_location_ok = omega arith;
  direction_ok = omega arith;
}

segment-HasArrays : HasArrays segment
segment-HasArrays = record {
  deltas_ok = (omega arith, tt);
  entries_ok = (
    record {
      arrays_ok = (refl, refl);
      offset_ok = omega arith;
      slices_ok = (omega arith, tt);
      positions_ok = tt;
    },
    tt,
  );
  deltas_fit = omega arith;
  entries_fit = omega arith;
}

-- An empty memory file with chunks of 64 bytes.
abbrev memory_file : MxfFile MemFile
memory_file = record { sys = mem_file_open_new 64 0; min_llen = 4; runin_len = 0; zeros_size = 0 }

memory_file-IsOpen : IsOpen ⦃ops = mem_file_ops fresh⦄ (mem_file fresh fresh-IsMalloc) memory_file
unfolding mem_file
memory_file-IsOpen = record {
  is_ready = mem_file_open_new-IsValid 64 (omega arith);
  small_zeros = omega arith;
}

index_table_segment_round_trip_example :
    (bs : List ℕ) × Wrote ⦃ops = mem_file_ops fresh⦄
      (mem_file fresh fresh-IsMalloc)
      memory_file
      (replay ⦃ops = mem_file_ops fresh⦄
        (write_index_table_segment ⦃ops = mem_file_ops fresh⦄ segment)
        (read_kl_segment ⦃ops = mem_file_ops fresh⦄ memory)
        memory_file)
      (
        index_table_segment_key,
        get_llen memory_file (value_size segment),
        value_size segment,
        as_read segment,
      )
      ((index_table_segment_key
          ++ ber (get_llen memory_file (value_size segment)) (value_size segment))
        ++ bs)
index_table_segment_round_trip_example =
    index_table_segment_round_trip ⦃ops = mem_file_ops fresh⦄ (mem_file fresh fresh-IsMalloc) memory
      memory_file segment memory_file-IsOpen segment-IsSegment segment-HasArrays memory-IsMemory
      (omega arith)

-- 80, 18 for the delta entry, 37 for the index entry, 12 and 5 for the optional items
segment_len_example : segment_len segment 1 1 ≡ 152
unfolding segment_len
segment_len_example = refl

write_index_table_segment-exact_example :
    (let len = segment_len segment 1 1 in
      (bs : List ℕ) × Wrote plain_file blank
        (write_index_table_segment segment blank)
        tt
        ((index_table_segment_key ++ ber (get_llen blank len) len) ++ bs)
      × (length bs ≡ len))
write_index_table_segment-exact_example =
    write_index_table_segment-exact plain_file blank segment (plain-IsOpen [] []) refl
      ((refl, refl), tt) (omega arith) (omega arith)

write_index_table_segment-streamed_example :
    (let len = header_segment_len segment 1 1 in
      (bs : List ℕ) × Wrote plain_file blank
        (write_parts segment blank)
        tt
        ((index_table_segment_key ++ ber (get_llen blank len) len) ++ bs)
      × (length bs ≡ len)
      × (write_parts segment blank ≡ write_index_table_segment segment blank))
write_index_table_segment-streamed_example =
    write_index_table_segment-streamed plain_file blank segment (plain-IsOpen [] []) refl
      ((refl, refl), tt) (omega arith, omega arith) (omega arith)

-- The length that the header says of 2 to the 29 index entries is short by 2 to the 32.
header_wraps : header_segment_len segment 1 (2 ^ 29) + 2 ^ 32 ≡ segment_len segment 1 (2 ^ 29)
header_wraps =
    header_segment_len-wraps segment 1 (2 ^ 29) (omega arith) (omega arith) (omega arith)
      (omega arith)

add_delta_entry-fits_example :
    (add_delta_entry (delta ∷ []) delta ≡ some (delta ∷ delta ∷ []))
    × (delta_array_len 2 ≡ 8 + 2 * 6)
add_delta_entry-fits_example = add_delta_entry-fits (delta ∷ []) delta (omega arith)

add_delta_entry-overflows_example :
    (add_delta_entry (replicate 10921 delta) delta ≡ some (replicate 10921 delta ++ (delta ∷ [])))
    × (delta_array_len (length (replicate 10921 delta ++ (delta ∷ []))) ≡ 4)
add_delta_entry-overflows_example =
    add_delta_entry-overflows (replicate 10921 delta) delta (length-replicate 10921 delta)
