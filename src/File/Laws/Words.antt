-- ===== src/File/Laws/Words.antt =====
-- The big-endian words of mxf/mxf_file.c over a file of bytes.
use ebu_libmxf.Base.{
  ℕ, ◌+◌, ◌*◌, ◌/◌, ◌%◌, ◌^◌, ◌<◌, ◌≡◌, refl, ◌∙◌, List, [], ◌∷◌, ◌++◌, bit_or, get_or, arith,
}
use ebu_libmxf.Base.Bits.{and_0xff, or_shift}
use ebu_libmxf.File.Ops.{FileOps, ByteFile}
use ebu_libmxf.File.Monad.{give, read_exactly}
use ebu_libmxf.File.Words.{
  read_uint8, read_uint16, read_uint32, read_uint64, write_uint8, write_uint16, write_uint32,
  write_uint64, read_batch_header, write_batch_header,
}
use ebu_libmxf.File.Laws.{Writes, Reads, Writes-bind, Reads-bind}
use ebu_libmxf.File.Laws.Primitives.{give-Reads, write_exactly-Writes, read_exactly-Reads}

-- The encodings, by arithmetic.
abbrev pub be16 : ℕ → List ℕ
be16 v = v / 2 ^ 8 % 256 ∷ v % 256 ∷ []

abbrev pub be32 : ℕ → List ℕ
be32 v = v / 2 ^ 24 % 256 ∷ v / 2 ^ 16 % 256 ∷ v / 2 ^ 8 % 256 ∷ v % 256 ∷ []

abbrev pub be64 : ℕ → List ℕ
be64 v =
    v / 2 ^ 56 % 256
    ∷ v / 2 ^ 48 % 256
    ∷ v / 2 ^ 40 % 256
    ∷ v / 2 ^ 32 % 256
    ∷ v / 2 ^ 24 % 256
    ∷ v / 2 ^ 16 % 256
    ∷ v / 2 ^ 8 % 256
    ∷ v % 256
    ∷ []

join16 : (v : ℕ) → v < 2 ^ 16 → bit_or (v / 2 ^ 8 % 256 * 2 ^ 8) (v % 256) ≡ v
join16 v h = or_shift 8 (v / 2 ^ 8 % 256) (v % 256) (omega arith) ∙ omega arith

-- Bits that do not overlap: `x` is a multiple of `2 ^ n`, and `y` lies below it.
or_add : (n hi x y : ℕ) → x ≡ hi * 2 ^ n → y < 2 ^ n → bit_or x y ≡ x + y
or_add n hi x y e h = rw e (or_shift n hi y h)

or3 :
    (a b c d : ℕ)
    → b < 256
    → c < 256
    → d < 256
    → bit_or (bit_or (bit_or (a * 2 ^ 24) (b * 2 ^ 16)) (c * 2 ^ 8)) d
      ≡ a * 2 ^ 24 + b * 2 ^ 16 + c * 2 ^ 8 + d
or3 a b c d hb hc hd = rw (
  or_add 24 a (a * 2 ^ 24) (b * 2 ^ 16) refl (omega arith),
  or_add 16 (a * 2 ^ 8 + b) (a * 2 ^ 24 + b * 2 ^ 16) (c * 2 ^ 8) (omega arith) (omega arith),
  or_add 8 (a * 2 ^ 16 + b * 2 ^ 8 + c) (a * 2 ^ 24 + b * 2 ^ 16 + c * 2 ^ 8) d (omega arith)
      (omega arith),
)

join32 :
    (v : ℕ)
    → v < 2 ^ 32
    → bit_or
        (bit_or
          (bit_or (v / 2 ^ 24 % 256 * 2 ^ 24) (v / 2 ^ 16 % 256 * 2 ^ 16))
          (v / 2 ^ 8 % 256 * 2 ^ 8))
        (v % 256)
      ≡ v
join32 v h =
    or3 (v / 2 ^ 24 % 256) (v / 2 ^ 16 % 256) (v / 2 ^ 8 % 256) (v % 256) (omega arith)
      (omega arith) (omega arith)
    ∙ omega arith

or7 :
    (a b c d e g h i : ℕ)
    → b < 256
    → c < 256
    → d < 256
    → e < 256
    → g < 256
    → h < 256
    → i < 256
    → bit_or
        (bit_or
          (bit_or
            (bit_or
              (bit_or (bit_or (bit_or (a * 2 ^ 56) (b * 2 ^ 48)) (c * 2 ^ 40)) (d * 2 ^ 32))
              (e * 2 ^ 24))
            (g * 2 ^ 16))
          (h * 2 ^ 8))
        i
      ≡ a * 2 ^ 56 + b * 2 ^ 48 + c * 2 ^ 40 + d * 2 ^ 32 + e * 2 ^ 24 + g * 2 ^ 16 + h * 2 ^ 8 + i
or7 a b c d e g h i hb hc hd he hg hh hi = rw (
  or_add 56 a (a * 2 ^ 56) (b * 2 ^ 48) refl (omega arith),
  or_add 48 (a * 2 ^ 8 + b) (a * 2 ^ 56 + b * 2 ^ 48) (c * 2 ^ 40) (omega arith) (omega arith),
  or_add 40 (a * 2 ^ 16 + b * 2 ^ 8 + c) (a * 2 ^ 56 + b * 2 ^ 48 + c * 2 ^ 40) (d * 2 ^ 32)
      (omega arith) (omega arith),
  or_add 32 (a * 2 ^ 24 + b * 2 ^ 16 + c * 2 ^ 8 + d)
      (a * 2 ^ 56 + b * 2 ^ 48 + c * 2 ^ 40 + d * 2 ^ 32) (e * 2 ^ 24) (omega arith) (omega arith),
  or_add 24 (a * 2 ^ 32 + b * 2 ^ 24 + c * 2 ^ 16 + d * 2 ^ 8 + e)
      (a * 2 ^ 56 + b * 2 ^ 48 + c * 2 ^ 40 + d * 2 ^ 32 + e * 2 ^ 24) (g * 2 ^ 16) (omega arith)
      (omega arith),
  or_add 16 (a * 2 ^ 40 + b * 2 ^ 32 + c * 2 ^ 24 + d * 2 ^ 16 + e * 2 ^ 8 + g)
      (a * 2 ^ 56 + b * 2 ^ 48 + c * 2 ^ 40 + d * 2 ^ 32 + e * 2 ^ 24 + g * 2 ^ 16) (h * 2 ^ 8)
      (omega arith) (omega arith),
  or_add 8 (a * 2 ^ 48 + b * 2 ^ 40 + c * 2 ^ 32 + d * 2 ^ 24 + e * 2 ^ 16 + g * 2 ^ 8 + h)
      (a * 2 ^ 56 + b * 2 ^ 48 + c * 2 ^ 40 + d * 2 ^ 32 + e * 2 ^ 24 + g * 2 ^ 16 + h * 2 ^ 8) i
      (omega arith) (omega arith),
)

join64 :
    (v : ℕ)
    → v < 2 ^ 64
    → bit_or
        (bit_or
          (bit_or
            (bit_or
              (bit_or
                (bit_or
                  (bit_or (v / 2 ^ 56 % 256 * 2 ^ 56) (v / 2 ^ 48 % 256 * 2 ^ 48))
                  (v / 2 ^ 40 % 256 * 2 ^ 40))
                (v / 2 ^ 32 % 256 * 2 ^ 32))
              (v / 2 ^ 24 % 256 * 2 ^ 24))
            (v / 2 ^ 16 % 256 * 2 ^ 16))
          (v / 2 ^ 8 % 256 * 2 ^ 8))
        (v % 256)
      ≡ v
join64 v h =
    or7 (v / 2 ^ 56 % 256) (v / 2 ^ 48 % 256) (v / 2 ^ 40 % 256) (v / 2 ^ 32 % 256)
      (v / 2 ^ 24 % 256) (v / 2 ^ 16 % 256) (v / 2 ^ 8 % 256) (v % 256) (omega arith) (omega arith)
      (omega arith) (omega arith) (omega arith) (omega arith) (omega arith)
    ∙ omega arith

module _ {S : Type 0} ⦃ops : FileOps S⦄ (laws : ByteFile ops) where
  pub write_uint8-Writes : (ml v : ℕ) → Writes laws ml (write_uint8 v) tt (v ∷ [])
  unfolding write_uint8
  write_uint8-Writes ml v = write_exactly-Writes laws ml (v ∷ []) (omega arith)

  pub read_uint8-Reads : (v : ℕ) → Reads laws read_uint8 v (v ∷ [])
  unfolding read_uint8
  read_uint8-Reads v =
      Reads-bind laws (read_exactly 1) (λ b. give (get_or b 0 0)) (v ∷ []) []
        (read_exactly-Reads laws (v ∷ []) 1 refl (omega arith)) (give-Reads laws v)

  pub write_uint16-Writes : (ml v : ℕ) → Writes laws ml (write_uint16 v) tt (be16 v)
  unfolding write_uint16
  write_uint16-Writes ml v = simp and_0xff (write_exactly-Writes laws ml (be16 v) (omega arith))

  pub read_uint16-Reads : (v : ℕ) → v < 2 ^ 16 → Reads laws read_uint16 v (be16 v)
  unfolding read_uint16
  read_uint16-Reads v h =
      Reads-bind laws (read_exactly 2) (λ b. give (bit_or (get_or b 0 0 * 2 ^ 8) (get_or b 1 0)))
        (be16 v) [] (read_exactly-Reads laws (be16 v) 2 refl (omega arith))
        (rw (join16 v h) (give-Reads laws v))

  pub write_uint32-Writes : (ml v : ℕ) → Writes laws ml (write_uint32 v) tt (be32 v)
  unfolding write_uint32
  write_uint32-Writes ml v = simp and_0xff (write_exactly-Writes laws ml (be32 v) (omega arith))

  pub read_uint32-Reads : (v : ℕ) → v < 2 ^ 32 → Reads laws read_uint32 v (be32 v)
  unfolding read_uint32
  read_uint32-Reads v h =
      Reads-bind laws (read_exactly 4) _ (be32 v) []
        (read_exactly-Reads laws (be32 v) 4 refl (omega arith))
        (rw (join32 v h) (give-Reads laws v))

  pub write_uint64-Writes : (ml v : ℕ) → Writes laws ml (write_uint64 v) tt (be64 v)
  unfolding write_uint64
  write_uint64-Writes ml v = simp and_0xff (write_exactly-Writes laws ml (be64 v) (omega arith))

  pub read_uint64-Reads : (v : ℕ) → v < 2 ^ 64 → Reads laws read_uint64 v (be64 v)
  unfolding read_uint64
  read_uint64-Reads v h =
      Reads-bind laws (read_exactly 8) _ (be64 v) []
        (read_exactly-Reads laws (be64 v) 8 refl (omega arith))
        (rw (join64 v h) (give-Reads laws v))

  pub write_batch_header-Writes :
      (ml n m : ℕ) → Writes laws ml (write_batch_header n m) tt (be32 n ++ be32 m)
  unfolding write_batch_header
  write_batch_header-Writes ml n m =
      Writes-bind laws ml (write_uint32 n) (λ _. write_uint32 m) (be32 n) (be32 m)
        (write_uint32-Writes ml n) (write_uint32-Writes ml m)

  pub read_batch_header-Reads :
      (n m : ℕ)
      → n < 2 ^ 32
      → m < 2 ^ 32
      → Reads laws read_batch_header (n, m) (be32 n ++ (be32 m ++ []))
  unfolding read_batch_header
  read_batch_header-Reads n m hn hm =
      Reads-bind laws read_uint32 _ (be32 n) (be32 m ++ []) (read_uint32-Reads n hn) (
        Reads-bind laws read_uint32 _ (be32 m) [] (read_uint32-Reads m hm) (give-Reads laws (n, m)))
