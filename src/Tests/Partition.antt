-- ===== src/Tests/Partition.antt =====
-- mxf/mxf_partition.c on small files.
use ebu_libmxf.Base.{
  ℕ, ◌+◌, ◌-◌, ◌%◌, ◌^◌, ◌≤◌, ◌≡◌, refl, true, inr, none, some, List, [], ◌∷◌, ◌++◌, length,
  get_elem?, get_or, take, drop, ap, arith,
}
use ebu_libmxf.File.Ops.{View}
use ebu_libmxf.File.Monad.{MxfFile, done, failed, ◌>>=◌, ◌>>◌, get_min_llen}
use ebu_libmxf.File.Length.{get_llen}
use ebu_libmxf.File.Klv.{Key}
use ebu_libmxf.File.Skip.{write_zeros}
use ebu_libmxf.File.Laws.{IsOpen, Ran, Wrote, Read}
use ebu_libmxf.File.Laws.Length.{ber, Fits}
use ebu_libmxf.File.Laws.Words.{be32}
use ebu_libmxf.File.Laws.Replay.{replay}
use ebu_libmxf.File.Laws.Skip.{zeros, write_zeros-Writes}
use ebu_libmxf.MxfList.Refine.{of_list}
use ebu_libmxf.Keys.{pp_key, klv_fill_key, null_key}
use ebu_libmxf.Partition.Defs.{
  Partition, is_header_partition_pack, is_footer_partition_pack, mark_header_start, mark_header_end,
}
use ebu_libmxf.Partition.Pack.{update_partitions_in_memory, write_partition}
use ebu_libmxf.Partition.Fill.{
  fill_room, fill_size, fill_to_position, allocate_space, allocate_space_to_kag,
  read_next_nonfiller_kl,
}
use ebu_libmxf.Partition.Rip.{read_rip_and_size, write_rip}
use ebu_libmxf.Partition.Runin.{read_header_pp_kl_with_runin}
use ebu_libmxf.Partition.Links.{
  update_partitions_in_memory-links, update_partitions_in_memory-twice,
}
use ebu_libmxf.Partition.Marks.{mark_header-counts}
use ebu_libmxf.Partition.Codec.{
  IsPartition, located, len_of, kept, partition_bytes, read_kl_partition, partition_round_trip,
}
use ebu_libmxf.Partition.Filled.{
  filler, NoneOrFiller, allocate_space-exact, fill_to_position-reaches, fill_room-short,
}
use ebu_libmxf.Partition.Kag.{allocate_space_to_kag-aligned}
use ebu_libmxf.Partition.Scan.{SameButVersion, filler_run, read_next_nonfiller_kl-passes}
use ebu_libmxf.Partition.RuninSearch.{searched_octets, read_header_pp_kl_with_runin-finds}
use ebu_libmxf.Partition.RuninMiss.{read_header_pp_kl_with_runin-misses}
use ebu_libmxf.Partition.RipCodec.{pack_bytes, pack_size, entries_of, rip_round_trip}
use ebu_libmxf.Tests.Plain.{plain, plain_file, plain_with, blank, plain-IsOpen}

abbrev at_offset : ℕ → ℕ → Partition
at_offset kind offset = record {
  key = pp_key 1 kind 4;
  major_version = 1;
  minor_version = 2;
  kag_size = 512;
  this_partition = offset;
  previous_partition = 0;
  footer_partition = 0;
  header_byte_count = 0;
  index_byte_count = 0;
  index_sid = 0;
  body_offset = 0;
  body_sid = 1;
  operational_pattern = null_key;
  essence_containers = of_list (klv_fill_key ∷ []);
  header_mark_in_pos = none;
  index_mark_in_pos = none;
}

abbrev partitions : List Partition
partitions = at_offset 2 0 ∷ at_offset 3 1024 ∷ at_offset 4 4096 ∷ []

update_partitions_in_memory-links_example :
    (let updated = update_partitions_in_memory (of_list partitions) in
      (get_elem? updated.elements 1
        ≡ some (record (at_offset 3 1024) { previous_partition = 0; footer_partition = 4096 }))
      × (length updated.elements ≡ 3))
unfolding is_footer_partition_pack
update_partitions_in_memory-links_example =
    update_partitions_in_memory-links (at_offset 2 0 ∷ at_offset 3 1024 ∷ []) (at_offset 4 4096) 1
      (at_offset 3 1024) refl

update_partitions_in_memory-twice_example :
    update_partitions_in_memory (update_partitions_in_memory (of_list partitions))
    ≡ update_partitions_in_memory (of_list partitions)
update_partitions_in_memory-twice_example = update_partitions_in_memory-twice partitions

mark_header-counts_example :
    Wrote plain_file blank
      ((do q ← mark_header_start (at_offset 2 0); _ ← write_zeros 3; mark_header_end q) blank)
      (record (at_offset 2 0) { header_byte_count = 3; header_mark_in_pos = none })
      (zeros 3)
mark_header-counts_example =
    mark_header-counts plain_file blank (at_offset 2 0) (write_zeros 3) tt (zeros 3)
      (plain-IsOpen [] []) (write_zeros-Writes plain_file 0 3)

body-IsPartition : IsPartition (located (at_offset 3 7) 0 0)
unfolding is_footer_partition_pack
body-IsPartition = record {
  key_ok = refl;
  major_ok = omega arith;
  minor_ok = omega arith;
  kag_ok = omega arith;
  this_ok = omega arith;
  previous_ok = omega arith;
  footer_ok = omega arith;
  header_count_ok = omega arith;
  index_count_ok = omega arith;
  index_sid_ok = omega arith;
  body_offset_ok = omega arith;
  body_sid_ok = omega arith;
  pattern_ok = refl;
  chain_ok = refl;
  labels_ok = (refl, tt);
  len_ok = omega arith;
}

partition_round_trip_example :
    (let q = located (at_offset 3 7) 0 0 in
      Wrote plain_file blank
        (replay (write_partition (at_offset 3 7)) read_kl_partition blank)
        (q.key, get_llen blank (len_of q), len_of q, kept q q.essence_containers.elements)
        (partition_bytes 0 q))
partition_round_trip_example =
    partition_round_trip plain_file blank (at_offset 3 7) (plain-IsOpen [] []) body-IsPartition
      (omega arith)

allocate_space-exact_example :
    (llen : ℕ) × (n : ℕ) × Wrote plain_file blank
      (allocate_space klv_fill_key 100 blank)
      tt
      (filler klv_fill_key llen n)
    × (length (filler klv_fill_key llen n) ≡ 100)
    × Fits llen n
allocate_space-exact_example =
    allocate_space-exact plain_file klv_fill_key refl blank 100 (plain-IsOpen [] []) (omega arith)
      (omega arith) (omega arith) (omega arith)

fill_to_position-reaches_example :
    (bs : List ℕ) × Wrote plain_file blank (fill_to_position klv_fill_key 50 blank) tt bs
    × (0 + length bs ≡ 50)
    × NoneOrFiller klv_fill_key bs
fill_to_position-reaches_example =
    fill_to_position-reaches plain_file klv_fill_key refl blank 50 (plain-IsOpen [] [])
      (inr (omega arith, omega arith)) (omega arith) (omega arith)

fill_room-short_example :
    (fill_room (get_min_llen blank) 100 110 ≡ true)
    × (fill_size 100 110 ≡ 2 ^ 64 - (100 + 16 - 110))
fill_room-short_example =
    fill_room-short blank 100 110 (omega arith) (omega arith) (omega arith) (omega arith)

abbrev five : MxfFile View
five = plain_with (1 ∷ 2 ∷ 3 ∷ 4 ∷ 5 ∷ []) []

-- A file with a run-in of 3 bytes.
abbrev behind_runin : MxfFile View
behind_runin = record five { runin_len = 3 }

behind_runin-IsOpen : IsOpen plain_file behind_runin
behind_runin-IsOpen =
    let o = plain-IsOpen (1 ∷ 2 ∷ 3 ∷ 4 ∷ 5 ∷ []) [] in
    record { is_ready = o.is_ready; small_zeros = o.small_zeros }

allocate_space_to_kag-aligned_example :
    (bs : List ℕ) × Wrote plain_file behind_runin
      (allocate_space_to_kag klv_fill_key (at_offset 2 0) 8 behind_runin)
      tt
      bs
    × (8 ≤ length bs)
    × ((5 + length bs - 3 + 3) % 512 ≡ 0)
    × NoneOrFiller klv_fill_key bs
allocate_space_to_kag-aligned_example =
    allocate_space_to_kag-aligned plain_file klv_fill_key refl behind_runin (at_offset 2 0) 3 8
      behind_runin-IsOpen refl (omega arith) (omega arith) (omega arith) (omega arith) (omega arith)
      (omega arith)

-- The key of fillers with the octet of the registry version set to 2.
abbrev fill_key_2 : Key
fill_key_2 = take 7 klv_fill_key ++ (2 ∷ drop 8 klv_fill_key)

abbrev two_fillers : List (Key × ℕ × List ℕ)
two_fillers = (fill_key_2, 1, 7 ∷ 8 ∷ []) ∷ (klv_fill_key, 3, []) ∷ []

abbrev filled_bytes : List ℕ
filled_bytes = filler_run two_fillers ++ (null_key ++ ber 1 7)

null_key-other : ¬ SameButVersion null_key klv_fill_key
null_key-other e = omega (arith, ap (λ xs. get_or xs 0 0) e.0)

read_next_nonfiller_kl-passes_example :
    Read plain_file
      (plain_with [] (filled_bytes ++ (9 ∷ [])))
      (read_next_nonfiller_kl klv_fill_key 2 (plain_with [] (filled_bytes ++ (9 ∷ []))))
      (null_key, 1, 7)
      filled_bytes
      (9 ∷ [])
read_next_nonfiller_kl-passes_example =
    read_next_nonfiller_kl-passes plain_file klv_fill_key (plain_with [] (filled_bytes ++ (9 ∷ [])))
      two_fillers null_key 1 7 (9 ∷ []) (plain-IsOpen [] (filled_bytes ++ (9 ∷ []))) refl
      (
        (refl, (refl, refl), omega arith, omega arith),
        ((refl, (refl, refl), (omega arith, omega arith, refl), omega arith), tt),
      )
      refl null_key-other (omega arith) refl

abbrev runin_bytes : List ℕ
runin_bytes =
    ((1 ∷ 2 ∷ []) ++ searched_octets) ++ ((1 ∷ 1 ∷ 2 ∷ 4 ∷ 0 ∷ []) ++ (ber 1 88 ++ (9 ∷ [])))

read_header_pp_kl_with_runin-finds_example :
    (g : MxfFile View) × (read_header_pp_kl_with_runin (plain_with [] runin_bytes)
      ≡ done (pp_key 1 2 4, 1, 88) g)
    × (g.runin_len ≡ 2)
    × (g.sys.after ≡ 9 ∷ [])
unfolding is_header_partition_pack
read_header_pp_kl_with_runin-finds_example =
    read_header_pp_kl_with_runin-finds plain_file (plain_with [] runin_bytes) (1 ∷ 2 ∷ [])
      (1 ∷ 1 ∷ 2 ∷ 4 ∷ 0 ∷ []) 1 88 (9 ∷ []) (plain-IsOpen [] runin_bytes)
      ((λ e. omega arith), ((λ e. omega arith), tt)) (omega arith) refl refl (omega arith) refl

-- The key of a header partition pack with a length, a label, and the key of a body partition pack.
abbrev hidden : List ℕ
hidden = (1 ∷ 1 ∷ 2 ∷ 4 ∷ 0 ∷ []) ++ (ber 1 16 ++ (klv_fill_key ++ (pp_key 1 3 4 ++ ber 1 0)))

abbrev hidden_bytes : List ℕ
hidden_bytes = (1 ∷ []) ++ (0x06 ∷ (searched_octets ++ hidden))

read_header_pp_kl_with_runin-misses_example :
    (g : MxfFile View) × (read_header_pp_kl_with_runin (plain_with [] hidden_bytes) ≡ failed g)
unfolding is_header_partition_pack
read_header_pp_kl_with_runin-misses_example =
    read_header_pp_kl_with_runin-misses plain_file (plain_with [] hidden_bytes) (1 ∷ []) hidden
      (plain-IsOpen [] hidden_bytes) ((λ e. omega arith), tt) refl refl

rip_round_trip_example :
    Ran plain_file five
      ((do write_rip (of_list partitions); read_rip_and_size) five)
      (of_list (entries_of partitions), pack_size 0 partitions)
      (record {
        before = (1 ∷ 2 ∷ 3 ∷ 4 ∷ 5 ∷ []) ++ pack_bytes 0 partitions;
        after = be32 (pack_size 0 partitions);
      })
rip_round_trip_example =
    rip_round_trip plain_file five (of_list partitions) (plain-IsOpen (1 ∷ 2 ∷ 3 ∷ 4 ∷ 5 ∷ []) [])
      refl refl
      ((omega arith, omega arith), ((omega arith, omega arith), ((omega arith, omega arith), tt)))
      (omega arith) (omega arith) (omega arith)
