-- ===== src/File/Words.antt =====
-- mxf/mxf_file.c: big-endian words of 1, 2, 4 and 8 bytes, and batch headers.
-- A word is a number below 2 ^ w. The functions for signed words are casts of these.
use ebu_libmxf.Base.{ℕ, ◌*◌, ◌/◌, ◌^◌, [], ◌∷◌, get_or, bit_and, bit_or}
use ebu_libmxf.File.Ops.{FileOps}
use ebu_libmxf.File.Monad.{M, ◌>>=◌, ◌>>◌, give, read_exactly, write_exactly}

-- `(uint8_t)((value >> n) & 0xff)`
abbrev pub octet : ℕ → ℕ → ℕ
octet value n = bit_and (value / 2 ^ n) 0xff

module _ {S : Type 0} ⦃ops : FileOps S⦄ where
  unfoldable pub read_uint8 : M S ℕ
  read_uint8 = do buffer ← read_exactly 1; give (get_or buffer 0 0)

  unfoldable pub read_uint16 : M S ℕ
  read_uint16 = do
    buffer ← read_exactly 2
    give (bit_or (get_or buffer 0 0 * 2 ^ 8) (get_or buffer 1 0))

  unfoldable pub read_uint32 : M S ℕ
  read_uint32 = do
    buffer ← read_exactly 4
    give (
        bit_or
          (bit_or (bit_or (get_or buffer 0 0 * 2 ^ 24) (get_or buffer 1 0 * 2 ^ 16))
            (get_or buffer 2 0 * 2 ^ 8))
          (get_or buffer 3 0))

  unfoldable pub read_uint64 : M S ℕ
  read_uint64 = do
    buffer ← read_exactly 8
    let b = λ (i : ℕ). get_or buffer i 0
    let high = bit_or (bit_or (bit_or (b 0 * 2 ^ 56) (b 1 * 2 ^ 48)) (b 2 * 2 ^ 40)) (b 3 * 2 ^ 32)
    give (bit_or (bit_or (bit_or (bit_or high (b 4 * 2 ^ 24)) (b 5 * 2 ^ 16)) (b 6 * 2 ^ 8)) (b 7))

  unfoldable pub write_uint8 : ℕ → M S (Unit {0})
  write_uint8 value = write_exactly (value ∷ [])

  unfoldable pub write_uint16 : ℕ → M S (Unit {0})
  write_uint16 value = write_exactly (octet value 8 ∷ bit_and value 0xff ∷ [])

  unfoldable pub write_uint32 : ℕ → M S (Unit {0})
  write_uint32 value =
      write_exactly (octet value 24 ∷ octet value 16 ∷ octet value 8 ∷ bit_and value 0xff ∷ [])

  unfoldable pub write_uint64 : ℕ → M S (Unit {0})
  write_uint64 value = write_exactly (
      octet value 56
      ∷ octet value 48
      ∷ octet value 40
      ∷ octet value 32
      ∷ octet value 24
      ∷ octet value 16
      ∷ octet value 8
      ∷ bit_and value 0xff
      ∷ [])

  -- The length and the element length of a batch or an array.
  unfoldable pub read_batch_header : M S (ℕ × ℕ)
  read_batch_header = do len ← read_uint32; ele_len ← read_uint32; give (len, ele_len)

  unfoldable pub write_batch_header : ℕ → ℕ → M S (Unit {0})
  write_batch_header len ele_len = do write_uint32 len; write_uint32 ele_len

  unfoldable pub read_array_header : M S (ℕ × ℕ)
  read_array_header = read_batch_header

  unfoldable pub write_array_header : ℕ → ℕ → M S (Unit {0})
  write_array_header len ele_len = write_batch_header len ele_len
