-- ===== src/File/Length.antt =====
-- mxf/mxf_file.c: the BER length field of a KLV triplet.
use ebu_libmxf.Base.{
  ℕ, zero, suc, ◌+◌, ◌-◌, ◌*◌, ◌/◌, ◌%◌, ◌^◌, not, ◌&&◌, List, [], ◌∷◌, bit_and, bit_or, ltb, leb,
  ◌==◌, if◌then◌else◌,
}
use ebu_libmxf.File.Ops.{FileOps}
use ebu_libmxf.File.Monad.{MxfFile, M, ◌>>=◌, ◌>>◌, give, check, getc_ok, putc_ok, write_exactly}
use ebu_libmxf.File.Words.{octet}

-- The length of the length field by `len` alone: the ladder of tests in mxf_get_llen.
unfoldable pub ber_llen : ℕ → ℕ
ber_llen len =
    if ltb len 0x80
    then 1
    else if not (len / 2 ^ 56 == 0)
    then 9
    else if not (len / 2 ^ 48 == 0)
    then 8
    else if not (len / 2 ^ 40 == 0)
    then 7
    else if not (len / 2 ^ 32 == 0)
    then 6
    else if not (len / 2 ^ 24 == 0)
    then 5
    else if not (len / 2 ^ 16 == 0)
    then 4
    else if not (len / 2 ^ 8 == 0)
    then 3
    else 2

-- mxf_get_llen of an open file.
unfoldable pub get_llen : {S : Type 0} → MxfFile S → ℕ → ℕ
get_llen f len = let llen = ber_llen len in if ltb llen f.min_llen then f.min_llen else llen

-- The loop that fills `buffer` with the `n` low bytes of `len`, most significant first.
unfoldable pub length_buffer : ℕ → ℕ → List ℕ
length_buffer zero len = []
length_buffer (suc i) len = octet len (i * 8) ∷ length_buffer i len

module _ {S : Type 0} ⦃ops : FileOps S⦄ where
  -- The loop over the bytes that follow the first; `length` is a uint64_t.
  unfoldable pub read_l_loop : ℕ → ℕ → M S ℕ
  read_l_loop zero len = give len
  read_l_loop (suc n) len = do c ← getc_ok; read_l_loop n (bit_or (len * 2 ^ 8 % 2 ^ 64) c)

  unfoldable pub read_l_rest : ℕ → M S (ℕ × ℕ)
  read_l_rest c =
      let bytes_to_read = bit_and c 0x7f in
      do
        check (leb bytes_to_read 8)
        len ← read_l_loop bytes_to_read 0
        give (1 + bytes_to_read, len)

  -- Returns the length of the length field and the length.
  unfoldable pub read_l : M S (ℕ × ℕ)
  read_l = do c ← getc_ok; if ltb c 0x80 then give (1, c) else read_l_rest c

  unfoldable pub write_fixed_l : ℕ → ℕ → M S (Unit {0})
  write_fixed_l llen len = do
    check (ltb 0 llen && leb llen 9)
    if llen == 1 then (do check (ltb len 0x80); putc_ok len) else (do
      check (not (not (llen == 9) && ltb 0 (len / 2 ^ ((llen - 1) * 8))))
      putc_ok (0x80 + llen - 1)
      write_exactly (length_buffer (llen - 1) len))

  unfoldable pub write_l : ℕ → M S ℕ
  write_l len f = let llen = get_llen f len in (do write_fixed_l llen len; give llen) f
