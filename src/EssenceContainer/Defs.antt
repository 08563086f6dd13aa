-- ===== src/EssenceContainer/Defs.antt =====
-- The functions of mxf/mxf_essence_container.c. Those that change an element and then return 0 give
-- the element together with what they return.
use ebu_libmxf.Base.{
  ◌*◌, ◌/◌, bit_and, bit_or, ◌&&◌, ◌||◌, ℕ, ◌+◌, ◌-◌, ◌%◌, ◌^◌, Bool, Option, none, some, List, [],
  length, ltb, leb, ◌==◌, if◌then◌else◌,
}
use ebu_libmxf.Base.Int.{pos, to_int64}
use ebu_libmxf.File.Ops.{FileOps, seek_set}
use ebu_libmxf.File.Monad.{M, done, give, ◌>>=◌, ◌>>◌, file_read, file_write, file_seek, file_tell}
use ebu_libmxf.File.Length.{write_fixed_l}
use ebu_libmxf.File.Klv.{Key, write_k}
use ebu_libmxf.Keys.{octet_of}

pub record EssenceElement : Type 0 where
  pub key : Key
  pub llen : ℕ
  pub start_file_pos : ℕ
  pub current_file_pos : ℕ
  pub total_len : ℕ

-- `(uint64_t)(currentFilePos - startFilePos)`, of two uint64_t
abbrev pub passed_len : EssenceElement → ℕ
passed_len e = (e.current_file_pos + (2 ^ 64 - e.start_file_pos)) % 2 ^ 64

abbrev pub actual_len : EssenceElement → ℕ → ℕ
actual_len e len =
    if ltb e.total_len ((len + passed_len e) % 2 ^ 64)
    then (e.total_len - passed_len e) % 2 ^ 32
    else len

abbrev pub get_essence_element_size : EssenceElement → ℕ
get_essence_element_size e = e.total_len

abbrev pub is_gc_essence_element : Key → Bool
is_gc_essence_element key =
    let front =
      octet_of key 0 == 0x06
      && octet_of key 1 == 0x0e
      && octet_of key 2 == 0x2b
      && octet_of key 3 == 0x34 in
    let back =
      octet_of key 6 == 0x01
      && octet_of key 8 == 0x0d
      && octet_of key 9 == 0x01
      && octet_of key 10 == 0x03
      && octet_of key 11 == 0x01 in
    front && octet_of key 4 == 0x01 && back || front && octet_of key 4 == 0x02 && back

abbrev pub get_track_number : Key → ℕ
get_track_number key =
    bit_or
      (bit_or (bit_or (octet_of key 12 * 2 ^ 24 % 2 ^ 32) (octet_of key 13 * 2 ^ 16 % 2 ^ 32))
        (octet_of key 14 * 2 ^ 8 % 2 ^ 32))
      (octet_of key 15)

abbrev pub get_essence_element_item_type : ℕ → ℕ
get_essence_element_item_type track_number = bit_and track_number 0xff000000 / 2 ^ 24 % 256

abbrev pub get_essence_element_count : ℕ → ℕ
get_essence_element_count track_number = bit_and track_number 0x00ff0000 / 2 ^ 16 % 256

abbrev pub get_essence_element_type : ℕ → ℕ
get_essence_element_type track_number = bit_and track_number 0x0000ff00 / 2 ^ 8 % 256

abbrev pub get_essence_element_number : ℕ → ℕ
get_essence_element_number track_number = bit_and track_number 0x000000ff % 256

module _ {S : Type 0} ⦃ops : FileOps S⦄ where
  unfoldable pub open_essence_element_write : Key → ℕ → ℕ → M S EssenceElement
  open_essence_element_write key llen len = do
    file_pos ← file_tell
    write_k key
    write_fixed_l llen len
    give (record {
      key = key;
      llen = llen;
      start_file_pos = file_pos % 2 ^ 64;
      current_file_pos = file_pos % 2 ^ 64;
      total_len = 0;
    })

  unfoldable pub write_essence_element_data : EssenceElement → List ℕ → M S (Bool × EssenceElement)
  write_essence_element_data e bytes f =
      let (num_written, f') = file_write f bytes in
      let e' : EssenceElement = record e {
        total_len = (e.total_len + num_written) % 2 ^ 64;
        current_file_pos = (e.current_file_pos + num_written) % 2 ^ 64;
      } in
      done (num_written == length bytes, e') f'

  unfoldable pub finalize_essence_element_write : EssenceElement → M S (Unit {0})
  finalize_essence_element_write e = do
    file_pos ← file_tell
    file_seek (to_int64 ((e.start_file_pos + 16) % 2 ^ 64)) seek_set
    write_fixed_l e.llen e.total_len
    file_seek (pos file_pos) seek_set

  unfoldable pub open_essence_element_read : Key → ℕ → ℕ → M S EssenceElement
  open_essence_element_read key llen len = do
    file_pos ← file_tell
    give (record {
      key = key;
      llen = llen;
      start_file_pos = file_pos % 2 ^ 64;
      current_file_pos = file_pos % 2 ^ 64;
      total_len = len;
    })

  -- The bytes that have been read; none of them if the file ends too soon, which is a 0.
  unfoldable pub read_essence_element_data :
      EssenceElement → ℕ → M S (Option (List ℕ) × EssenceElement)
  read_essence_element_data e len f =
      let n = actual_len e len in
      let (bs, f') = file_read f n in
      let e' : EssenceElement = record e {
        current_file_pos = (e.current_file_pos + length bs) % 2 ^ 64;
      } in
      if leb e.total_len (passed_len e)
      then done (some [], e) f
      else done ((if length bs == n then some bs else none), e') f'
