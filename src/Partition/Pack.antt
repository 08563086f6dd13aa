-- ===== src/Partition/Pack.antt =====
-- Writing, updating and reading partition packs.
use ebu_libmxf.Base.{
  ℕ, zero, suc, ◌+◌, ◌-◌, ◌*◌, ◌%◌, ◌^◌, ◌&&◌, ◌||◌, Option, none, some, List, [], ◌∷◌, ltb, leb,
  ◌==◌, if◌then◌else◌,
}
use ebu_libmxf.Base.Int.{to_int64, pos}
use ebu_libmxf.File.Ops.{FileOps, seek_set, seek_cur, seek_end}
use ebu_libmxf.File.Monad.{M, ◌>>=◌, ◌>>◌, give, fail, check, file_tell, file_seek}
use ebu_libmxf.File.Words.{
  read_uint16, read_uint32, read_uint64, write_uint16, write_uint32, write_uint64,
  read_batch_header, write_batch_header,
}
use ebu_libmxf.File.Klv.{Key, write_kl, write_ul, read_ul}
use ebu_libmxf.MxfList.Defs.{get_list_length, get_last_list_element}
use ebu_libmxf.Partition.Defs.{
  Partition, FilePartitions, initialise_partition, is_footer_partition_pack,
  append_partition_esscont_label,
}

-- `(uint32_t)mxf_get_list_length`
abbrev pub essence_container_len : Partition → ℕ
essence_container_len p = get_list_length p.essence_containers % 2 ^ 32

-- `88 + mxfUL_extlen * essenceContainerLen`, a uint32_t
abbrev pub pack_len : ℕ → ℕ
pack_len n = (88 + 16 * n) % 2 ^ 32

-- `filePos - mxf_get_runin_len`, as a uint64_t; a footer refers to itself.
unfoldable pub placed : Partition → ℕ → ℕ → Partition
placed p file_pos runin =
    let this = (file_pos + 2 ^ 64 - runin) % 2 ^ 64 in
    if is_footer_partition_pack p.key
    then record p { this_partition = this; footer_partition = this }
    else record p { this_partition = this }

abbrev pub lift_partition : {S : Type 0} → Option Partition → M S Partition
lift_partition none = fail
lift_partition (some p) = give p

module _ {S : Type 0} ⦃ops : FileOps S⦄ where
  unfoldable pub write_labels : List Key → M S (Unit {0})
  write_labels [] = give tt
  write_labels (label ∷ labels) = do write_ul label; write_labels labels

  -- The part of mxf_write_partition that writes.
  unfoldable pub write_pack : Partition → M S (Unit {0})
  write_pack p =
      let n = essence_container_len p in
      do
        write_kl p.key (pack_len n)
        write_uint16 p.major_version
        write_uint16 p.minor_version
        write_uint32 p.kag_size
        write_uint64 p.this_partition
        write_uint64 p.previous_partition
        write_uint64 p.footer_partition
        write_uint64 p.header_byte_count
        write_uint64 p.index_byte_count
        write_uint32 p.index_sid
        write_uint64 p.body_offset
        write_uint32 p.body_sid
        write_ul p.operational_pattern
        write_batch_header n 16
        write_labels p.essence_containers.elements

  -- Returns the partition with the fields that the function sets.
  unfoldable pub write_partition : Partition → M S Partition
  write_partition p f =
      (do
        file_pos ← file_tell
        write_pack (placed p file_pos f.runin_len)
        give (placed p file_pos f.runin_len))
        f

  unfoldable pub read_labels : ℕ → Partition → M S Partition
  read_labels zero p = give p
  read_labels (suc n) p = do
    label ← read_ul
    p' ← lift_partition (append_partition_esscont_label p label)
    read_labels n p'

  -- The labels, and the bytes behind them that the length still counts.
  unfoldable pub read_batch : ℕ → Partition → M S Partition
  read_batch len p = do
    (num_labels, label_len) ← read_batch_header
    check (num_labels == 0 || label_len == 16)
    check (leb (88 + num_labels * label_len) len)
    p' ← read_labels num_labels p
    if ltb (88 + num_labels * label_len) len
        then (do file_seek (to_int64 (len - (88 + num_labels * label_len))) seek_cur; give p')
        else give p'

  unfoldable pub read_partition : Key → ℕ → M S Partition
  read_partition key len = do
    check (leb 88 len && leb len (2 ^ 63 - 1))
    major ← read_uint16
    minor ← read_uint16
    kag_size ← read_uint32
    this ← read_uint64
    previous ← read_uint64
    footer ← read_uint64
    header_byte_count ← read_uint64
    index_byte_count ← read_uint64
    index_sid ← read_uint32
    body_offset ← read_uint64
    body_sid ← read_uint32
    operational_pattern ← read_ul
    read_batch len (record initialise_partition {
      key = key;
      major_version = major;
      minor_version = minor;
      kag_size = kag_size;
      this_partition = this;
      previous_partition = previous;
      footer_partition = footer;
      header_byte_count = header_byte_count;
      index_byte_count = index_byte_count;
      index_sid = index_sid;
      body_offset = body_offset;
      body_sid = body_sid;
      operational_pattern = operational_pattern;
    })

-- The loop of mxf_update_partitions_in_memory. `footer` is the footer's offset, if there is one;
-- `previous` is the offset of the partition before. The loop changes no `this_partition`.
abbrev pub with_previous : Option ℕ → Partition → Partition
with_previous none p = p
with_previous (some offset) p = record p { previous_partition = offset }

abbrev pub with_footer : Option ℕ → Partition → Partition
with_footer none p = p
with_footer (some offset) p = record p { footer_partition = offset }

unfoldable pub link : Option ℕ → Option ℕ → List Partition → List Partition
link footer previous [] = []
link footer previous (p ∷ ps) =
    with_footer footer (with_previous previous p) ∷ link footer (some p.this_partition) ps

-- The offset of the last partition, if it is a footer.
abbrev pub footer_of : Option Partition → Option ℕ
footer_of none = none
footer_of (some p) = if is_footer_partition_pack p.key then some p.this_partition else none

unfoldable pub update_partitions_in_memory : FilePartitions → FilePartitions
update_partitions_in_memory ps =
    if get_list_length ps == 0
    then ps
    else record ps { elements = link (footer_of (get_last_list_element ps)) none ps.elements }

module _ {S : Type 0} ⦃ops : FileOps S⦄ where
  unfoldable pub seek_to_partition : Partition → M S (Unit {0})
  seek_to_partition p f =
      file_seek (to_int64 ((p.this_partition + f.runin_len) % 2 ^ 64)) seek_set f

  -- Returns the partitions as they are written.
  unfoldable pub rewrite_each : List Partition → M S (List Partition)
  rewrite_each [] = give []
  rewrite_each (p ∷ ps) = do
    seek_to_partition p
    p' ← write_partition p
    ps' ← rewrite_each ps
    give (p' ∷ ps')

  unfoldable pub rewrite_partitions : FilePartitions → M S FilePartitions
  rewrite_partitions ps = do
    elements ← rewrite_each ps.elements
    file_seek (pos 0) seek_end
    give (record ps { elements = elements })

  unfoldable pub update_partitions : FilePartitions → M S FilePartitions
  update_partitions ps = rewrite_partitions (update_partitions_in_memory ps)
