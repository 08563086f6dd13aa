-- ===== src/IndexTable/Read.antt =====
-- mxf_read_index_table_segment_2 and mxf_read_index_table_segment of mxf/mxf_index_table.c. The
-- callbacks and their data are parameters, and so is what fresh memory holds.
use ebu_libmxf.Base.{
  ℕ, zero, suc, ◌+◌, ◌-◌, ◌*◌, ◌/◌, ◌%◌, ◌^◌, false, ◌||◌, Option, none, some, List, [], ◌∷◌, ltb,
  ◌==◌, if◌then◌else◌,
}
use ebu_libmxf.File.Ops.{FileOps}
use ebu_libmxf.File.Monad.{M, ◌>>=◌, ◌>>◌, give, fail, check}
use ebu_libmxf.File.Words.{read_uint8, read_uint32, read_uint64}
use ebu_libmxf.File.Klv.{read_uid, read_local_tl}
use ebu_libmxf.File.Skip.{skip}
use ebu_libmxf.Keys.{null_key}
use ebu_libmxf.IndexTable.Defs.{
  DeltaEntry, IndexEntry, IndexTableSegment, default_add_delta_entry, default_add_index_entry,
}

-- `memset(newSegment, 0, sizeof(MXFIndexTableSegment))`
unfoldable pub create_index_table_segment : IndexTableSegment
create_index_table_segment = record {
  instance_uid = null_key;
  edit_rate_numerator = 0;
  edit_rate_denominator = 0;
  index_start_position = 0;
  index_duration = 0;
  edit_unit_byte_count = 0;
  index_sid = 0;
  body_sid = 0;
  slice_count = 0;
  force_write_slice_count = false;
  pos_table_count = 0;
  delta_entry_array = [];
  index_entry_array = [];
  ext_start_offset = 0;
  vbe_byte_count = 0;
  single_index_location = 0;
  single_essence_location = 0;
  forward_index_direction = 0;
}

-- What `malloc` gives for that many words, and for that many rationals.
pub record Memory : Type 0 where
  pub words : ℕ → List ℕ
  pub rationals : ℕ → List (ℕ × ℕ)

-- The callbacks, which are not called if they are NULL. Each is given its data, the number of the
-- entries, the segment and the entry; `X` is what both have for data.
pub record Callbacks (X : Type 0) : Type 0 where
  pub add_delta : Option (ℕ → X × IndexTableSegment → DeltaEntry → Option (X × IndexTableSegment))
  pub add_index : Option (ℕ → X × IndexTableSegment → IndexEntry → Option (X × IndexTableSegment))

abbrev pub opt_bool : ℕ → ℕ
opt_bool v = if v == 0 then 2 else 1

abbrev pub call :
    {X E : Type 0}
    → Option (ℕ → X × IndexTableSegment → E → Option (X × IndexTableSegment))
    → ℕ
    → X × IndexTableSegment
    → E
    → Option (X × IndexTableSegment)
call none n s e = some s
call (some add) n s e = add n s e

module _ {S : Type 0} ⦃ops : FileOps S⦄ where
  -- CHK_OFAIL of a callback.
  abbrev pub called : {A : Type 0} → Option A → M S A
  called none = fail
  called (some a) = give a

  -- The loops over the two buffers stop where the entry ends. A buffer that is too short would be
  -- written out of bounds, which is a failure here.
  unfoldable pub read_slice_offsets : ℕ → List ℕ → ℕ → ℕ → M S (List ℕ × ℕ)
  read_slice_offsets zero buffer actual len = give (buffer, actual)
  read_slice_offsets (suc n) [] actual len = if ltb actual len then fail else give ([], actual)
  read_slice_offsets (suc n) (old ∷ olds) actual len =
      let more = (do
        v ← read_uint32
        (vs, actual') ← read_slice_offsets n olds (actual + 4) len
        give (v ∷ vs, actual')) in
      if ltb actual len then more else give (old ∷ olds, actual)

  unfoldable pub read_pos_table : ℕ → List (ℕ × ℕ) → ℕ → ℕ → M S (List (ℕ × ℕ) × ℕ)
  read_pos_table zero buffer actual len = give (buffer, actual)
  read_pos_table (suc n) [] actual len = if ltb actual len then fail else give ([], actual)
  read_pos_table (suc n) (old ∷ olds) actual len =
      let more = (do
        numerator ← read_uint32
        denominator ← read_uint32
        (vs, actual') ← read_pos_table n olds (actual + 8) len
        give ((numerator, denominator) ∷ vs, actual')) in
      if ltb actual len then more else give (old ∷ olds, actual)

  module _ {X : Type 0} (mem : Memory) (callbacks : Callbacks X) where
    unfoldable pub read_delta_entries : ℕ → ℕ → X × IndexTableSegment → M S (X × IndexTableSegment)
    read_delta_entries zero count s = give s
    read_delta_entries (suc n) count s = do
      pos_table_index ← read_uint8
      slice ← read_uint8
      element_data ← read_uint32
      let e : DeltaEntry = record {
        pos_table_index = pos_table_index;
        slice = slice;
        element_data = element_data;
      }
      s' ← called (call callbacks.add_delta count s e)
      read_delta_entries n count s'

    -- The buffers keep what an entry leaves in them.
    unfoldable pub read_index_entries :
        ℕ → ℕ → ℕ → List ℕ → List (ℕ × ℕ) → X × IndexTableSegment → M S (X × IndexTableSegment)
    read_index_entries zero count len slice_offset pos_table s = give s
    read_index_entries (suc n) count len slice_offset pos_table s = do
      temporal_offset ← read_uint8
      key_frame_offset ← read_uint8
      flags ← read_uint8
      stream_offset ← read_uint64
      (slice_offset', actual) ← read_slice_offsets s.1.slice_count slice_offset 11 len
      (pos_table', actual') ← read_pos_table s.1.pos_table_count pos_table actual len
      let e : IndexEntry = record {
        temporal_offset = temporal_offset;
        key_frame_offset = key_frame_offset;
        flags = flags;
        stream_offset = stream_offset;
        slice_offset = slice_offset';
        pos_table = pos_table';
      }
      s' ← called (call callbacks.add_index count s e)
      _ ← (if ltb actual' len then skip (len - actual') else give tt)
      read_index_entries n count len slice_offset' pos_table' s'

    unfoldable pub read_delta_array : ℕ → X × IndexTableSegment → M S (X × IndexTableSegment)
    read_delta_array local_len s = do
      count ← read_uint32
      len ← read_uint32
      check (count == 0 || len == 6)
      check (local_len == (8 + count * 6) % 2 ^ 32)
      read_delta_entries count count s

    unfoldable pub read_index_array : ℕ → X × IndexTableSegment → M S (X × IndexTableSegment)
    read_index_array local_len s = do
      count ← read_uint32
      len ← read_uint32
      check (local_len == (8 + count * len) % 2 ^ 32)
      read_index_entries count count len (mem.words s.1.slice_count)
          (mem.rationals s.1.pos_table_count) s

    -- The cases of the switch. An item that is not known is skipped.
    unfoldable pub read_item : ℕ → ℕ → X × IndexTableSegment → M S (X × IndexTableSegment)
    read_item tag len (x, s) =
        if tag == 0x3c0a
        then (do check (len == 16); v ← read_uid; give (x, record s { instance_uid = v }))
        else if tag == 0x3f0b
        then (do
          check (len == 8)
          n ← read_uint32
          d ← read_uint32
          give (x, record s { edit_rate_numerator = n; edit_rate_denominator = d }))
        else if tag == 0x3f0c
        then (do check (len == 8); v ← read_uint64; give (x, record s { index_start_position = v }))
        else if tag == 0x3f0d
        then (do check (len == 8); v ← read_uint64; give (x, record s { index_duration = v }))
        else if tag == 0x3f05
        then (do check (len == 4); v ← read_uint32; give (x, record s { edit_unit_byte_count = v }))
        else if tag == 0x3f06
        then (do check (len == 4); v ← read_uint32; give (x, record s { index_sid = v }))
        else if tag == 0x3f07
        then (do check (len == 4); v ← read_uint32; give (x, record s { body_sid = v }))
        else if tag == 0x3f08
        then (do check (len == 1); v ← read_uint8; give (x, record s { slice_count = v }))
        else if tag == 0x3f0e
        then (do check (len == 1); v ← read_uint8; give (x, record s { pos_table_count = v }))
        else if tag == 0x3f0f
        then (do check (len == 8); v ← read_uint64; give (x, record s { ext_start_offset = v }))
        else if tag == 0x3f10
        then (do check (len == 8); v ← read_uint64; give (x, record s { vbe_byte_count = v }))
        else if tag == 0x3f11
        then (do
          check (len == 1)
          v ← read_uint8
          give (x, record s { single_index_location = opt_bool v }))
        else if tag == 0x3f12
        then (do
          check (len == 1)
          v ← read_uint8
          give (x, record s { single_essence_location = opt_bool v }))
        else if tag == 0x3f13
        then (do
          check (len == 1)
          v ← read_uint8
          give (x, record s { forward_index_direction = opt_bool v }))
        else if tag == 0x3f09
        then read_delta_array len (x, s)
        else if tag == 0x3f0a
        then read_index_array len (x, s)
        else (do skip len; give (x, s))

    -- `while (totalLen < segmentLen)`, each round of which reads 4 bytes at least.
    unfoldable pub read_items :
        ℕ → ℕ → ℕ → X × IndexTableSegment → M S (ℕ × (X × IndexTableSegment))
    read_items zero segment_len total s = fail
    read_items (suc fuel) segment_len total s =
        let more = (do
          (tag, len) ← read_local_tl
          s' ← read_item tag len s
          read_items fuel segment_len ((total + 4 + len) % 2 ^ 64) s') in
        if ltb total segment_len then more else give (total, s)

    unfoldable pub read_index_table_segment_2 : ℕ → X → M S (X × IndexTableSegment)
    read_index_table_segment_2 segment_len x = do
      (total, s) ← read_items (segment_len / 4 + 2) segment_len 0 (x, create_index_table_segment)
      check (total == segment_len)
      give s

abbrev with_no_data : Option IndexTableSegment → Option (Unit {0} × IndexTableSegment)
with_no_data none = none
with_no_data (some s) = some (tt, s)

-- The default callbacks, which have no data.
abbrev pub default_callbacks : Callbacks (Unit {0})
default_callbacks = record {
  add_delta = some (λ n s e. with_no_data (default_add_delta_entry s.1 e));
  add_index = some (λ n s e. with_no_data (default_add_index_entry s.1 e));
}

module _ {S : Type 0} ⦃ops : FileOps S⦄ (mem : Memory) where
  unfoldable pub read_index_table_segment : ℕ → M S IndexTableSegment
  read_index_table_segment segment_len = do
    s ← read_index_table_segment_2 mem default_callbacks segment_len tt
    give s.1
