-- ===== src/Partition/Defs.antt =====
-- The partition, the kinds of partition pack keys, and the byte counts of header and index.
use ebu_libmxf.Base.{
  ℕ, ◌-◌, Bool, false, not, ◌&&◌, ◌||◌, Option, none, some, List, [], ◌∷◌, leb, ◌==◌, if◌then◌else◌,
}
use ebu_libmxf.File.Ops.{FileOps}
use ebu_libmxf.File.Monad.{M, ◌>>=◌, ◌>>◌, give, fail, check, file_tell}
use ebu_libmxf.File.Klv.{Key}
use ebu_libmxf.MxfList.Defs.{MxfList, initialise_list, append_list_element}
use ebu_libmxf.Keys.{equals_key_prefix, equals_key_mod_regver, octet_of, null_key, pp_key}

-- The marks are -1 (`none`) when nothing is being measured.
pub record Partition : Type 0 where
  pub key : Key
  pub major_version : ℕ
  pub minor_version : ℕ
  pub kag_size : ℕ
  pub this_partition : ℕ
  pub previous_partition : ℕ
  pub footer_partition : ℕ
  pub header_byte_count : ℕ
  pub index_byte_count : ℕ
  pub index_sid : ℕ
  pub body_offset : ℕ
  pub body_sid : ℕ
  pub operational_pattern : Key
  pub essence_containers : MxfList Key
  pub header_mark_in_pos : Option ℕ
  pub index_mark_in_pos : Option ℕ

-- g_PartitionPackPrefix_key
abbrev pub pp_prefix_key : Key
pp_prefix_key = pp_key 0x01 0x00 0x00

abbrev pub has_pp_prefix : Key → Bool
has_pp_prefix key = equals_key_prefix key pp_prefix_key 13

unfoldable pub is_header_partition_pack : Key → Bool
is_header_partition_pack key = has_pp_prefix key && octet_of key 13 == 0x02

unfoldable pub is_body_partition_pack : Key → Bool
is_body_partition_pack key = has_pp_prefix key && octet_of key 13 == 0x03

unfoldable pub is_generic_stream_partition_pack : Key → Bool
is_generic_stream_partition_pack key =
    has_pp_prefix key && octet_of key 13 == 0x03 && octet_of key 14 == 0x11

unfoldable pub is_footer_partition_pack : Key → Bool
is_footer_partition_pack key = has_pp_prefix key && octet_of key 13 == 0x04

unfoldable pub is_partition_pack : Key → Bool
is_partition_pack key =
    has_pp_prefix key && leb 0x02 (octet_of key 13) && leb (octet_of key 13) 0x04

-- The key of fillers, `g_KLVFill_key`, is a variable that an application may set; the functions that
-- use it take it as an argument.
unfoldable pub is_filler : Key → Key → Bool
is_filler fill_key key = equals_key_mod_regver key fill_key

unfoldable pub partition_is_closed : Key → Bool
unfolding is_partition_pack
partition_is_closed key =
    if not (is_partition_pack key)
    then false
    else octet_of key 14 == 0x02 || octet_of key 14 == 0x04

unfoldable pub partition_is_complete : Key → Bool
unfolding is_partition_pack
partition_is_complete key =
    if not (is_partition_pack key)
    then false
    else octet_of key 14 == 0x03 || octet_of key 14 == 0x04

unfoldable pub partition_is_closed_and_complete : Key → Bool
unfolding is_partition_pack
partition_is_closed_and_complete key =
    if not (is_partition_pack key) then false else octet_of key 14 == 0x04

-- mxf_initialise_partition; the key is 16 zeros, as memset leaves it.
unfoldable pub initialise_partition : Partition
unfolding initialise_list
initialise_partition = record {
  key = null_key;
  major_version = 0x0001;
  minor_version = 0x0002;
  kag_size = 1;
  this_partition = 0;
  previous_partition = 0;
  footer_partition = 0;
  header_byte_count = 0;
  index_byte_count = 0;
  index_sid = 0;
  body_offset = 0;
  body_sid = 0;
  operational_pattern = null_key;
  essence_containers = initialise_list;
  header_mark_in_pos = none;
  index_mark_in_pos = none;
}

unfoldable pub append_partition_esscont_label : Partition → Key → Option Partition
append_partition_esscont_label p label = elim (append_list_element p.essence_containers label) [
  | none ↦ none
  | some l ↦ some (record p { essence_containers = l })
]

abbrev pub and_then : Option Partition → (Partition → Option Partition) → Option Partition
and_then none k = none
and_then (some p) k = k p

-- The loop of mxf_initialise_with_partition over the labels of the source.
unfoldable pub append_labels : List Key → Partition → Option Partition
append_labels [] p = some p
append_labels (label ∷ labels) p =
    and_then (append_partition_esscont_label p label) (append_labels labels)

unfoldable pub initialise_with_partition : Partition → Option Partition
unfolding append_labels initialise_partition
initialise_with_partition source =
    append_labels source.essence_containers.elements (record initialise_partition {
      key = null_key;
      major_version = source.major_version;
      minor_version = source.minor_version;
      kag_size = source.kag_size;
      operational_pattern = source.operational_pattern;
    })

-- A list of partitions; `MXFFilePartitions` is an `MXFList`.
abbrev pub FilePartitions : Type 0
FilePartitions = MxfList Partition

unfoldable pub append_partition : FilePartitions → Partition → Option FilePartitions
append_partition ps p = append_list_element ps p

unfoldable pub append_new_partition : FilePartitions → Option FilePartitions
unfolding append_partition initialise_partition
append_new_partition ps = append_partition ps initialise_partition

unfoldable pub append_new_from_partition : FilePartitions → Partition → Option FilePartitions
unfolding append_partition initialise_with_partition
append_new_from_partition ps source = elim (initialise_with_partition source) [
  | none ↦ none
  | some p ↦ append_partition ps p
]

-- The distance from a mark to the file position, which lies behind it.
abbrev pub distance : {S : Type 0} → Option ℕ → M S ℕ → M S ℕ
distance none tell = fail
distance (some mark) tell = do pos ← tell; check (leb mark pos); give (pos - mark)

module _ {S : Type 0} ⦃ops : FileOps S⦄ where
  unfoldable pub mark_header_start : Partition → M S Partition
  mark_header_start p = do pos ← file_tell; give (record p { header_mark_in_pos = some pos })

  unfoldable pub mark_header_end : Partition → M S Partition
  mark_header_end p = do
    count ← distance p.header_mark_in_pos file_tell
    give (record p { header_byte_count = count; header_mark_in_pos = none })

  unfoldable pub mark_index_start : Partition → M S Partition
  mark_index_start p = do pos ← file_tell; give (record p { index_mark_in_pos = some pos })

  unfoldable pub mark_index_end : Partition → M S Partition
  mark_index_end p = do
    count ← distance p.index_mark_in_pos file_tell
    give (record p { index_byte_count = count; index_mark_in_pos = none })
