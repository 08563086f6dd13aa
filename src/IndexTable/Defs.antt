-- ===== src/IndexTable/Defs.antt =====
-- The entries of an index table segment, and writing it. A signed field is held as the word that
-- the functions for signed words cast it to.
use ebu_libmxf.Base.{
  ℕ, zero, suc, ◌+◌, ◌*◌, ◌%◌, ◌^◌, Bool, Option, none, some, List, [], ◌∷◌, ◌++◌, length, take,
  leb, ◌==◌, if◌then◌else◌,
}
use ebu_libmxf.File.Ops.{FileOps}
use ebu_libmxf.File.Monad.{M, ◌>>◌, give, fail}
use ebu_libmxf.File.Words.{write_uint8, write_uint32, write_uint64}
use ebu_libmxf.File.Klv.{Key, write_kl, write_uid, write_local_tl}
use ebu_libmxf.MxfList.Defs.{is_empty}
use ebu_libmxf.Keys.{equals_key, index_table_segment_key}

pub record DeltaEntry : Type 0 where
  pub pos_table_index : ℕ
  pub slice : ℕ
  pub element_data : ℕ

-- A position is its numerator and its denominator.
pub record IndexEntry : Type 0 where
  pub temporal_offset : ℕ
  pub key_frame_offset : ℕ
  pub flags : ℕ
  pub stream_offset : ℕ
  pub slice_offset : List ℕ
  pub pos_table : List (ℕ × ℕ)

-- An optional Boolean is 0 if it is not present, 1 for true and 2 for false.
pub record IndexTableSegment : Type 0 where
  pub instance_uid : Key
  pub edit_rate_numerator : ℕ
  pub edit_rate_denominator : ℕ
  pub index_start_position : ℕ
  pub index_duration : ℕ
  pub edit_unit_byte_count : ℕ
  pub index_sid : ℕ
  pub body_sid : ℕ
  pub slice_count : ℕ
  pub force_write_slice_count : Bool
  pub pos_table_count : ℕ
  pub delta_entry_array : List DeltaEntry
  pub index_entry_array : List IndexEntry
  pub ext_start_offset : ℕ
  pub vbe_byte_count : ℕ
  pub single_index_location : ℕ
  pub single_essence_location : ℕ
  pub forward_index_direction : ℕ

unfoldable pub is_index_table_segment : Key → Bool
is_index_table_segment key = equals_key key index_table_segment_key

-- `11 + sliceCount * 4 + posTableCount * 8`
abbrev pub index_entry_len : ℕ → ℕ → ℕ
index_entry_len slice_count pos_table_count = 11 + slice_count * 4 + pos_table_count * 8

-- `(uint16_t)(8 + deltaEntryArrayLen * 6)`, and the same of the index entries, in uint32_t
-- arithmetic.
unfoldable pub delta_array_len : ℕ → ℕ
delta_array_len n = (8 + n * 6) % 2 ^ 16

unfoldable pub index_array_len : ℕ → ℕ → ℕ
index_array_len n entry_len = (8 + n * entry_len) % 2 ^ 16

-- The loop counts the entries before the last one, and the assertion is about these.
unfoldable pub add_delta_entry : List DeltaEntry → DeltaEntry → Option (List DeltaEntry)
add_delta_entry [] e = some (e ∷ [])
add_delta_entry (x ∷ xs) e =
    if leb ((8 + length xs * 6) % 2 ^ 32) 65535 then some ((x ∷ xs) ++ (e ∷ [])) else none

unfoldable pub add_index_entry : ℕ → List IndexEntry → IndexEntry → Option (List IndexEntry)
add_index_entry entry_len [] e = some (e ∷ [])
add_index_entry entry_len (x ∷ xs) e =
    if leb ((8 + length xs * entry_len) % 2 ^ 32) 65535 then some ((x ∷ xs) ++ (e ∷ [])) else none

abbrev pub with_deltas : IndexTableSegment → Option (List DeltaEntry) → Option IndexTableSegment
with_deltas segment none = none
with_deltas segment (some es) = some (record segment { delta_entry_array = es })

abbrev pub with_entries : IndexTableSegment → Option (List IndexEntry) → Option IndexTableSegment
with_entries segment none = none
with_entries segment (some es) = some (record segment { index_entry_array = es })

unfoldable pub default_add_delta_entry : IndexTableSegment → DeltaEntry → Option IndexTableSegment
default_add_delta_entry segment e =
    with_deltas segment (add_delta_entry segment.delta_entry_array e)

-- The two calls of memcpy, of as many elements as the segment says. The arrays of the caller are at
-- least that long.
abbrev pub copied_entry : IndexTableSegment → IndexEntry → IndexEntry
copied_entry segment e = record e {
  slice_offset = take segment.slice_count e.slice_offset;
  pos_table = take segment.pos_table_count e.pos_table;
}

unfoldable pub default_add_index_entry : IndexTableSegment → IndexEntry → Option IndexTableSegment
default_add_index_entry segment e = with_entries segment (
    add_index_entry (index_entry_len segment.slice_count segment.pos_table_count)
      segment.index_entry_array (copied_entry segment e))

-- The bytes of an item that is written if its value is not 0: 4 for the tag and the length.
abbrev pub optional_len : ℕ → ℕ → ℕ
optional_len value size = if value == 0 then 0 else 4 + size

-- The optional items behind the arrays' counts.
abbrev pub options_len : IndexTableSegment → ℕ
options_len segment =
    optional_len segment.ext_start_offset 8
    + optional_len segment.vbe_byte_count 8
    + optional_len segment.single_index_location 1
    + optional_len segment.single_essence_location 1
    + optional_len segment.forward_index_direction 1

-- The items of the delta entries and of the index entries, of which there are `n`.
abbrev pub delta_entries_len : ℕ → ℕ
delta_entries_len n = if n == 0 then 0 else 12 + n * 6

abbrev pub index_entries_len : IndexTableSegment → ℕ → ℕ
index_entries_len segment n =
    if n == 0
    then (if segment.force_write_slice_count then 5 else 0)
    else 22 + n * index_entry_len segment.slice_count segment.pos_table_count

-- `segmentLen`, a uint64_t, for `n` delta entries and `m` index entries.
unfoldable pub segment_len : IndexTableSegment → ℕ → ℕ → ℕ
segment_len segment n m =
    (80 + delta_entries_len n + index_entries_len segment m + options_len segment) % 2 ^ 64

-- `segmentLen` of the function that writes the header alone, which adds up each array in uint32_t
-- arithmetic.
unfoldable pub header_segment_len : IndexTableSegment → ℕ → ℕ → ℕ
header_segment_len segment n m =
    let deltas = if n == 0 then 0 else (12 + n * 6) % 2 ^ 32 in
    let entries =
      if m == 0
      then (if segment.force_write_slice_count then 5 else 0)
      else (22 + m * index_entry_len segment.slice_count segment.pos_table_count) % 2 ^ 32 in
    (80 + deltas + entries + options_len segment) % 2 ^ 64

module _ {S : Type 0} ⦃ops : FileOps S⦄ where
  unfoldable pub write_delta_entry_array_header : ℕ → M S (Unit {0})
  write_delta_entry_array_header n = do
    write_local_tl 0x3f09 (delta_array_len n)
    write_uint32 n
    write_uint32 6

  unfoldable pub write_delta_entry : DeltaEntry → M S (Unit {0})
  write_delta_entry e = do
    write_uint8 e.pos_table_index
    write_uint8 e.slice
    write_uint32 e.element_data

  unfoldable pub write_index_entry_array_header : ℕ → ℕ → ℕ → M S (Unit {0})
  write_index_entry_array_header slice_count pos_table_count n = do
    write_local_tl 0x3f0a (index_array_len n (index_entry_len slice_count pos_table_count))
    write_uint32 n
    write_uint32 (index_entry_len slice_count pos_table_count)

  -- An array that is too short would be read out of bounds, which is a failure here.
  unfoldable pub write_slice_offsets : ℕ → List ℕ → M S (Unit {0})
  write_slice_offsets zero xs = give tt
  write_slice_offsets (suc n) [] = fail
  write_slice_offsets (suc n) (x ∷ xs) = do write_uint32 x; write_slice_offsets n xs

  unfoldable pub write_pos_table : ℕ → List (ℕ × ℕ) → M S (Unit {0})
  write_pos_table zero xs = give tt
  write_pos_table (suc n) [] = fail
  write_pos_table (suc n) (x ∷ xs) = do write_uint32 x.0; write_uint32 x.1; write_pos_table n xs

  unfoldable pub write_index_entry : ℕ → ℕ → IndexEntry → M S (Unit {0})
  write_index_entry slice_count pos_table_count e = do
    write_uint8 e.temporal_offset
    write_uint8 e.key_frame_offset
    write_uint8 e.flags
    write_uint64 e.stream_offset
    write_slice_offsets slice_count e.slice_offset
    write_pos_table pos_table_count e.pos_table

  -- The items that every segment has.
  unfoldable pub write_items : IndexTableSegment → M S (Unit {0})
  write_items segment = do
    write_local_tl 0x3c0a 16
    write_uid segment.instance_uid
    write_local_tl 0x3f0b 8
    write_uint32 segment.edit_rate_numerator
    write_uint32 segment.edit_rate_denominator
    write_local_tl 0x3f0c 8
    write_uint64 segment.index_start_position
    write_local_tl 0x3f0d 8
    write_uint64 segment.index_duration
    write_local_tl 0x3f05 4
    write_uint32 segment.edit_unit_byte_count
    write_local_tl 0x3f06 4
    write_uint32 segment.index_sid
    write_local_tl 0x3f07 4
    write_uint32 segment.body_sid

  -- The counts of slices and positions, for `m` index entries.
  unfoldable pub write_counts : IndexTableSegment → ℕ → M S (Unit {0})
  write_counts segment m =
      let counts = (do
        write_local_tl 0x3f08 1
        write_uint8 segment.slice_count
        write_local_tl 0x3f0e 1
        write_uint8 segment.pos_table_count) in
      let slices = (do write_local_tl 0x3f08 1; write_uint8 segment.slice_count) in
      if m == 0 then (if segment.force_write_slice_count then slices else give tt) else counts

  unfoldable pub write_optional_uint64 : ℕ → ℕ → M S (Unit {0})
  write_optional_uint64 tag value =
      if value == 0 then give tt else (do write_local_tl tag 8; write_uint64 value)

  unfoldable pub write_optional_bool : ℕ → ℕ → M S (Unit {0})
  write_optional_bool tag value =
      if value == 0
      then give tt
      else (do write_local_tl tag 1; write_uint8 (if value == 1 then 1 else 0))

  unfoldable pub write_options : IndexTableSegment → M S (Unit {0})
  write_options segment = do
    write_optional_uint64 0x3f0f segment.ext_start_offset
    write_optional_uint64 0x3f10 segment.vbe_byte_count
    write_optional_bool 0x3f11 segment.single_index_location
    write_optional_bool 0x3f12 segment.single_essence_location
    write_optional_bool 0x3f13 segment.forward_index_direction

  unfoldable pub write_index_table_segment_header : IndexTableSegment → ℕ → ℕ → M S (Unit {0})
  write_index_table_segment_header segment n m = do
    write_kl index_table_segment_key (header_segment_len segment n m)
    write_items segment
    write_counts segment m
    write_options segment

  unfoldable pub write_delta_entries : List DeltaEntry → M S (Unit {0})
  write_delta_entries [] = give tt
  write_delta_entries (e ∷ es) = do write_delta_entry e; write_delta_entries es

  unfoldable pub write_index_entries : ℕ → ℕ → List IndexEntry → M S (Unit {0})
  write_index_entries slice_count pos_table_count [] = give tt
  write_index_entries slice_count pos_table_count (e ∷ es) = do
    write_index_entry slice_count pos_table_count e
    write_index_entries slice_count pos_table_count es

  unfoldable pub write_delta_array : List DeltaEntry → M S (Unit {0})
  write_delta_array es =
      if is_empty es
      then give tt
      else (do write_delta_entry_array_header (length es % 2 ^ 32); write_delta_entries es)

  unfoldable pub write_index_array : ℕ → ℕ → List IndexEntry → M S (Unit {0})
  write_index_array slice_count pos_table_count es = if is_empty es then give tt else (do
    write_index_entry_array_header slice_count pos_table_count (length es % 2 ^ 32)
    write_index_entries slice_count pos_table_count es)

  -- A segment in memory at once.
  unfoldable pub write_index_table_segment : IndexTableSegment → M S (Unit {0})
  write_index_table_segment segment = do
    write_kl index_table_segment_key
        (segment_len segment (length segment.delta_entry_array) (length segment.index_entry_array))
    write_items segment
    write_counts segment (length segment.index_entry_array)
    write_options segment
    write_delta_array segment.delta_entry_array
    write_index_array segment.slice_count segment.pos_table_count segment.index_entry_array
