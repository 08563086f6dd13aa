-- ===== src/Partition/Runin.antt =====
-- mxf/mxf_partition.c: the header of the header partition pack, behind a run-in or not.
use ebu_libmxf.Base.{ℕ, zero, suc, ◌+◌, ◌%◌, ◌^◌, ◌&&◌, take, ◌++◌, ltb, leb, ◌==◌, if◌then◌else◌}
use ebu_libmxf.File.Ops.{FileOps}
use ebu_libmxf.File.Monad.{M, ◌>>=◌, ◌>>◌, give, fail, check, getc_ok, read_exactly, set_runin_len}
use ebu_libmxf.File.Length.{read_l}
use ebu_libmxf.File.Klv.{Key, read_k}
use ebu_libmxf.Keys.{octet_of}
use ebu_libmxf.Partition.Defs.{pp_prefix_key, is_header_partition_pack}

abbrev pub max_runin_len : ℕ
max_runin_len = 0xffff

-- The octets of the key that the search looks for.
abbrev pub searched : ℕ
searched = 11

-- Each round reads a byte, so that `count + matched` grows by one.
abbrev pub runin_rounds : ℕ
runin_rounds = max_runin_len + searched + 1

module _ {S : Type 0} ⦃ops : FileOps S⦄ where
  unfoldable pub read_header_pp_kl : M S (Key × ℕ × ℕ)
  read_header_pp_kl = do
    key ← read_k
    check (is_header_partition_pack key)
    (llen, len) ← read_l
    give (key, llen, len)

  -- `count` is `runinCheckCount`, `matched` is `keyCompareByte`. Returns the count.
  unfoldable pub search_key : ℕ → ℕ → ℕ → M S ℕ
  search_key zero count matched = fail
  search_key (suc fuel) count matched =
      let more = (do
        byte ← getc_ok
        if byte == octet_of pp_prefix_key matched
            then search_key fuel count (matched + 1)
            else search_key fuel (count + (matched + 1)) 0) in
      if leb count max_runin_len && ltb matched searched then more else give count

  -- What follows the search.
  unfoldable pub read_found_pp_kl : ℕ → M S (Key × ℕ × ℕ)
  read_found_pp_kl count = do
    check (leb count max_runin_len)
    tail ← read_exactly 5
    let key = take searched pp_prefix_key ++ tail
    check (is_header_partition_pack key)
    (llen, len) ← read_l
    set_runin_len (count % 2 ^ 16)
    give (key, llen, len)

  unfoldable pub read_header_pp_kl_with_runin : M S (Key × ℕ × ℕ)
  read_header_pp_kl_with_runin = do count ← search_key runin_rounds 0 0; read_found_pp_kl count
