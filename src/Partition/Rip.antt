-- ===== src/Partition/Rip.antt =====
-- mxf/mxf_partition.c: the random index pack.
use ebu_libmxf.Base.{
  ℕ, zero, suc, ◌+◌, ◌-◌, ◌*◌, ◌/◌, ◌%◌, ◌^◌, Option, none, some, not, List, [], ◌∷◌, leb, ◌==◌,
}
use ebu_libmxf.Base.Int.{negsuc}
use ebu_libmxf.File.Ops.{FileOps, seek_cur, seek_end}
use ebu_libmxf.File.Monad.{M, ◌>>=◌, ◌>>◌, give, fail, check, file_seek}
use ebu_libmxf.File.Words.{read_uint32, read_uint64, write_uint32, write_uint64}
use ebu_libmxf.File.Length.{read_l, write_l}
use ebu_libmxf.File.Klv.{read_k, write_k}
use ebu_libmxf.MxfList.Defs.{MxfList, initialise_list, append_list_element, get_list_length}
use ebu_libmxf.Keys.{equals_key, random_index_pack_key}
use ebu_libmxf.Partition.Defs.{Partition, FilePartitions}

pub record RipEntry : Type 0 where
  pub body_sid : ℕ
  pub this_partition : ℕ

-- `MXFRIP` is a list of entries.
abbrev pub Rip : Type 0
Rip = MxfList RipEntry

abbrev pub lift_rip : {S : Type 0} → Option Rip → M S Rip
lift_rip none = fail
lift_rip (some r) = give r

-- `(4 + 8) * numPartitions + 4`, a uint32_t
abbrev pub rip_len : ℕ → ℕ
rip_len n = (12 * n + 4) % 2 ^ 32

-- `(uint32_t)len - 4`
abbrev pub entries_len : ℕ → ℕ
entries_len len = (len + 2 ^ 32 - 4) % 2 ^ 32

module _ {S : Type 0} ⦃ops : FileOps S⦄ where
  -- The entries are appended to `rip`.
  unfoldable pub read_rip_entries : ℕ → Rip → M S Rip
  read_rip_entries zero rip = give rip
  read_rip_entries (suc n) rip = do
    body_sid ← read_uint32
    this ← read_uint64
    rip' ←
        lift_rip (append_list_element rip (record { body_sid = body_sid; this_partition = this }))
    read_rip_entries n rip'

  -- The pack from its key on; `rip_size` was read at the end of the file.
  unfoldable pub read_rip_pack : M S Rip
  read_rip_pack = do
    key ← read_k
    check (equals_key key random_index_pack_key)
    (llen, len) ← read_l
    check (entries_len len % 12 == 0)
    read_rip_entries (entries_len len / 12) initialise_list

  -- Returns the entries and the size.
  unfoldable pub read_rip_and_size : M S (Rip × ℕ)
  read_rip_and_size = do
    file_seek (negsuc 3) seek_end
    rip_size ← read_uint32
    check (leb 33 rip_size)
    file_seek (negsuc (rip_size - 1)) seek_cur
    rip ← read_rip_pack
    give (rip, rip_size)

  unfoldable pub read_rip : M S Rip
  read_rip = do (rip, _) ← read_rip_and_size; give rip

  unfoldable pub write_rip_entries : List Partition → M S (Unit {0})
  write_rip_entries [] = give tt
  write_rip_entries (p ∷ ps) = do
    write_uint32 p.body_sid
    write_uint64 p.this_partition
    write_rip_entries ps

  unfoldable pub write_rip : FilePartitions → M S (Unit {0})
  write_rip ps =
      let len = rip_len (get_list_length ps % 2 ^ 32) in
      do
        write_k random_index_pack_key
        llen ← write_l len
        check (not (llen == 0))
        write_rip_entries ps.elements
        write_uint32 ((16 + llen + len) % 2 ^ 32)
