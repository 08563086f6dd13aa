-- ===== src/Partition/Kinds.antt =====
-- The tests of mxf/mxf_partition.c on the kind and the status of a partition pack.
use ebu_libmxf.Base.{
  ℕ, ◌+◌, ◌≡◌, refl, Bool, true, false, not, ◌&&◌, ◌||◌, leb, ◌==◌, if◌then◌else◌, arith,
}
use ebu_libmxf.File.Klv.{Key}
use ebu_libmxf.Keys.{octet_of}
use ebu_libmxf.Partition.Defs.{
  has_pp_prefix, is_header_partition_pack, is_body_partition_pack, is_footer_partition_pack,
  is_partition_pack, partition_is_closed, partition_is_complete, partition_is_closed_and_complete,
}

abbrev pub count_true : Bool → ℕ
count_true true = 1
count_true false = 0

-- A key is that of a partition pack exactly if it is that of a header, of a body or of a footer
-- partition, and it is never two of these.
pub kinds-partition :
    (key : Key)
    → count_true (is_header_partition_pack key)
        + (count_true (is_body_partition_pack key) + count_true (is_footer_partition_pack key))
      ≡ count_true (is_partition_pack key)
unfolding is_header_partition_pack is_body_partition_pack is_footer_partition_pack is_partition_pack
kinds-partition key = by_octet (has_pp_prefix key) (octet_of key 13)
  where
    by_octet :
        (b : Bool) (n : ℕ)
        → count_true (b && n == 2) + (count_true (b && n == 3) + count_true (b && n == 4))
          ≡ count_true (b && leb 2 n && leb n 4)
    by_octet true n = ground arith
    by_octet false n = refl

-- A partition is closed and complete, by its key, exactly if it is closed and it is complete.
pub closed_complete :
    (key : Key)
    → (partition_is_closed key && partition_is_complete key) ≡ partition_is_closed_and_complete key
unfolding partition_is_closed partition_is_complete partition_is_closed_and_complete
closed_complete key = by_status (is_partition_pack key) (octet_of key 14)
  where
    by_status :
        (b : Bool) (n : ℕ)
        → ((if not b then false else n == 2 || n == 4)
            && (if not b then false else n == 3 || n == 4))
          ≡ (if not b then false else n == 4)
    by_status true n = ground arith
    by_status false n = refl
