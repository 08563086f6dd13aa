-- ===== src/File/Laws/RoundTrip.antt =====
-- The numbers, length fields and KLV headers of mxf/mxf_file.c, and `skip` and `write_zeros`.
use ebu_libmxf.Base.{ℕ, ◌^◌, ◌≤◌, ◌<◌, ◌≡◌, refl, List, ◌++◌, length}
use ebu_libmxf.File.Ops.{FileOps, ByteFile}
use ebu_libmxf.File.Monad.{MxfFile}
use ebu_libmxf.File.Words.{read_uint64, write_uint64}
use ebu_libmxf.File.Length.{ber_llen, get_llen, read_l, write_l, write_fixed_l}
use ebu_libmxf.File.Klv.{Key, IsKey, read_kl, write_kl, read_local_tl, write_local_tl}
use ebu_libmxf.File.Skip.{skip, write_zeros}
use ebu_libmxf.File.Laws.{IsOpen, Wrote, Read}
use ebu_libmxf.File.Laws.Words.{be16, be64, read_uint64-Reads, write_uint64-Writes}
use ebu_libmxf.File.Laws.Length.{
  ber, Fits-of_ber_llen, llen_for, llen_for-Fits, read_l-Reads, write_l-Writes,
  write_fixed_l-Writes,
}
use ebu_libmxf.File.Laws.Klv.{
  read_kl-Reads, write_kl-Writes, read_local_tl-Reads, write_local_tl-Writes,
}
use ebu_libmxf.File.Laws.Skip.{zeros, skip-Reads, write_zeros-Writes}
use ebu_libmxf.File.Laws.Replay.{replay, replay-Writes}

module _ {S : Type 0} ⦃ops : FileOps S⦄ (laws : ByteFile ops) (f : MxfFile S) where
  -- A 64-bit number that is written to an open file and read again is the same number, and its
  -- eight bytes stand in the file, the most significant first.
  pub uint64_round_trip :
      (v : ℕ)
      → IsOpen laws f
      → v < 2 ^ 64
      → Wrote laws f (replay (write_uint64 v) read_uint64 f) v (be64 v)
  uint64_round_trip v o h =
      replay-Writes laws f (be64 v) o (write_uint64-Writes laws f.min_llen v)
        (read_uint64-Reads laws v h)

  -- A 64-bit length that is written to an open file with a minimum of at most 9 and read again is
  -- the same length, in a field of the length that `get_llen` gives.
  pub length_round_trip :
      (len : ℕ)
      → IsOpen laws f
      → len < 2 ^ 64
      → f.min_llen ≤ 9
      → Wrote laws f
          (replay (write_l len) read_l f)
          (get_llen f len, len)
          (ber (get_llen f len) len)
  unfolding get_llen
  length_round_trip len o h m =
      replay-Writes laws f (ber (llen_for f.min_llen len) len) o
        (write_l-Writes laws f.min_llen len h m)
        (read_l-Reads laws (llen_for f.min_llen len) len (llen_for-Fits f.min_llen len h m))

  -- A 64-bit length that is written to an open file in a field of a given length, not shorter than
  -- `ber_llen` of it and at most 9, is read back, with the length of the field.
  pub fixed_length_round_trip :
      (llen len : ℕ)
      → IsOpen laws f
      → len < 2 ^ 64
      → ber_llen len ≤ llen
      → llen ≤ 9
      → Wrote laws f (replay (write_fixed_l llen len) read_l f) (llen, len) (ber llen len)
  fixed_length_round_trip llen len o h p q =
      replay-Writes laws f (ber llen len) o
        (write_fixed_l-Writes laws f.min_llen llen len (Fits-of_ber_llen llen len h p q))
        (read_l-Reads laws llen len (Fits-of_ber_llen llen len h p q))

  -- A key of 16 octets and a 64-bit length that are written to an open file with a minimum of at
  -- most 9 are read back, with the length of the length field.
  pub kl_round_trip :
      (key : Key) (len : ℕ)
      → IsOpen laws f
      → IsKey key
      → len < 2 ^ 64
      → f.min_llen ≤ 9
      → Wrote laws f
          (replay (write_kl key len) read_kl f)
          (key, get_llen f len, len)
          (key ++ ber (get_llen f len) len)
  unfolding get_llen
  kl_round_trip key len o k h m =
      replay-Writes laws f (key ++ ber (llen_for f.min_llen len) len) o
        (write_kl-Writes laws f.min_llen key len k h m)
        (read_kl-Reads laws key (llen_for f.min_llen len) len k (llen_for-Fits f.min_llen len h m))

  -- A local tag and a length, of 16 bits each, that are written to an open file are read back.
  pub local_tl_round_trip :
      (tag len : ℕ)
      → IsOpen laws f
      → tag < 2 ^ 16
      → len < 2 ^ 16
      → Wrote laws f
          (replay (write_local_tl tag len) read_local_tl f)
          (tag, len)
          (be16 tag ++ be16 len)
  local_tl_round_trip tag len o h p =
      replay-Writes laws f (be16 tag ++ be16 len) o (write_local_tl-Writes laws f.min_llen tag len)
        (read_local_tl-Reads laws tag len h p)

  -- `skip` on an open file passes over the bytes that come next, fewer than 2 to the 63, whether
  -- the file can seek or not; the bound on the rounds is enough.
  pub skip_passes :
      (bs rest : List ℕ)
      → IsOpen laws f
      → length bs < 2 ^ 63
      → (laws.view f.sys).after ≡ bs ++ rest
      → Read laws f (skip (length bs) f) tt bs rest
  skip_passes bs rest o h e = skip-Reads laws (length bs) bs refl h f rest o e

  -- `write_zeros` on an open file writes as many zeros as it is told to.
  pub write_zeros_writes :
      (len : ℕ) → IsOpen laws f → Wrote laws f (write_zeros len f) tt (zeros len)
  write_zeros_writes len o = write_zeros-Writes laws f.min_llen len f o refl
