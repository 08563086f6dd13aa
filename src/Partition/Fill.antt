-- ===== src/Partition/Fill.antt =====
-- mxf/mxf_partition.c: fillers, which allocate space, align to the KAG or reach a position.
use ebu_libmxf.Base.{
  ℕ, zero, suc, ◌+◌, ◌-◌, ◌*◌, ◌%◌, ◌^◌, Bool, not, ◌&&◌, ◌||◌, ltb, leb, ◌==◌, if◌then◌else◌,
}
use ebu_libmxf.File.Ops.{FileOps}
use ebu_libmxf.File.Monad.{MxfFile, M, ◌>>=◌, ◌>>◌, give, fail, check, file_tell, get_min_llen}
use ebu_libmxf.File.Length.{get_llen, write_fixed_l}
use ebu_libmxf.File.Klv.{Key, write_k, read_kl}
use ebu_libmxf.File.Skip.{skip, write_zeros}
use ebu_libmxf.Partition.Defs.{Partition, is_filler}

-- The guard of mxf_fill_to_position, in uint64_t arithmetic.
unfoldable pub fill_room : ℕ → ℕ → ℕ → Bool
fill_room min_llen file_pos position = leb file_pos ((position + 2 ^ 64 - min_llen + 16) % 2 ^ 64)

-- `position - filePos - mxfKey_extlen`, as a uint64_t
unfoldable pub fill_size : ℕ → ℕ → ℕ
fill_size file_pos position = (position + 2 * 2 ^ 64 - file_pos - 16) % 2 ^ 64

-- `fillSize` plus 16, as the loop of mxf_allocate_space_to_kag leaves it; with `fillSize` negative
-- the length field counts 0.
unfoldable pub llen_at : {S : Type 0} → MxfFile S → ℕ → ℕ
llen_at f gap = if leb 16 gap then get_llen f (gap - 16) else 0

unfoldable pub kag_loop : {S : Type 0} → ℕ → MxfFile S → ℕ → ℕ → ℕ
kag_loop zero f kag gap = gap
kag_loop (suc fuel) f kag gap =
    let rest = kag_loop fuel f kag (gap + kag) in if ltb gap (16 + llen_at f gap) then rest else gap

-- The rounds until the gap holds a key and the longest length field, in steps of at least 1.
abbrev pub kag_rounds : {S : Type 0} → MxfFile S → ℕ
kag_rounds f = 25 + f.min_llen

-- `fillSize` plus 16, before the loop
unfoldable pub kag_gap : ℕ → ℕ → ℕ → ℕ
kag_gap kag relative size = if ltb 1 kag then size + (kag - relative % kag) else size

module _ {S : Type 0} ⦃ops : FileOps S⦄ where
  -- The part that the three functions share: `room` counts the length field and the zeros.
  unfoldable pub write_fill_value : ℕ → M S (Unit {0})
  write_fill_value room f =
      let llen = get_llen f room in
      (do check (leb llen room); write_fixed_l llen (room - llen); write_zeros (room - llen)) f

  -- The loop has come to `gap`, which holds the key, the length field and the zeros.
  unfoldable pub write_kag_value : ℕ → M S (Unit {0})
  write_kag_value gap f =
      let llen = llen_at f gap in
      (do write_fixed_l llen (gap - 16 - llen); write_zeros (gap - 16 - llen)) f

  module _ (fill_key : Key) where
    unfoldable pub fill_to_position : ℕ → M S (Unit {0})
    fill_to_position position f =
        (do
          file_pos ← file_tell
          if file_pos == position then give tt else (do
            check (fill_room (get_min_llen f) file_pos position)
            write_k fill_key
            write_fill_value (fill_size file_pos position)))
          f

    unfoldable pub fill_gap : ℕ → ℕ → M S (Unit {0})
    fill_gap kag gap = do
      write_k fill_key
      λ f. write_kag_value (kag_loop (kag_rounds f) f kag gap) f

    unfoldable pub allocate_space_to_kag : Partition → ℕ → M S (Unit {0})
    allocate_space_to_kag p size = do
      check (ltb 0 p.kag_size)
      if size == 0 && p.kag_size == 1 then give tt else (do
        file_pos ← file_tell
        check (ltb p.this_partition file_pos)
        if not (size == 0) || not ((file_pos + size - p.this_partition) % p.kag_size == 0)
            then fill_gap p.kag_size (kag_gap p.kag_size (file_pos + size - p.this_partition) size)
            else give tt)

    unfoldable pub fill_to_kag : Partition → M S (Unit {0})
    fill_to_kag p = allocate_space_to_kag p 0

    unfoldable pub allocate_space : ℕ → M S (Unit {0})
    allocate_space size f =
        (do check (leb (get_min_llen f + 16) size); write_k fill_key; write_fill_value (size - 16))
          f

    unfoldable pub write_fill : ℕ → M S (Unit {0})
    write_fill size = allocate_space size

    -- The loop that passes over fillers, with the header that was read last; one unit of fuel is
    -- spent for each filler.
    unfoldable pub pass_fillers : ℕ → Key × ℕ × ℕ → M S (Key × ℕ × ℕ)
    pass_fillers zero (key, llen, len) =
        if is_filler fill_key key then fail else give (key, llen, len)
    pass_fillers (suc fuel) (key, llen, len) =
        let more = (do skip len; kl ← read_kl; pass_fillers fuel kl) in
        if is_filler fill_key key then more else give (key, llen, len)

    unfoldable pub read_next_nonfiller_kl : ℕ → M S (Key × ℕ × ℕ)
    read_next_nonfiller_kl fuel = do kl ← read_kl; pass_fillers fuel kl
