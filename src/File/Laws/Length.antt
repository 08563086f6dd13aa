-- ===== src/File/Laws/Length.antt =====
-- The BER length field of mxf/mxf_file.c over a file of bytes, and `get_llen`.
use ebu_libmxf.Base.{
  ℕ, zero, suc, ◌+◌, ◌-◌, ◌*◌, ◌/◌, ◌%◌, ◌^◌, ◌≤◌, ◌<◌, ◌≡◌, refl, ap, false, not, ◌&&◌, List, [],
  ◌∷◌, length, bit_or, ltb, leb, ◌==◌, if◌then◌else◌, arith, le→leb, lt→ltb, ltb→lt, Bool-cases,
  le→ltb_false, inl, inr,
}
use ebu_libmxf.Base.Bits.{and_0xff, and_0x7f, or_shift}
use ebu_libmxf.File.Ops.{FileOps, ByteFile}
use ebu_libmxf.File.Monad.{MxfFile, failed, check, getc_ok, putc_ok}
use ebu_libmxf.File.Length.{
  ber_llen, get_llen, length_buffer, read_l_loop, read_l_rest, read_l, write_fixed_l, write_l,
}
use ebu_libmxf.File.Laws.{Writes, Reads, Writes-bind, Reads-bind}
use ebu_libmxf.File.Laws.Primitives.{
  give-Reads, check-Writes, check-Reads, putc_ok-Writes, getc_ok-Reads, write_exactly-Writes,
  Reads-give, Writes-give,
}
use native.Mathlib.Nat.{div-div-eq-div-mul, div-le_self, div-one}
use native.Mathlib.Numerals.{towards_suc}

-- The `n` low bytes of a number, most significant first.
abbrev pub be_bytes : ℕ → ℕ → List ℕ
be_bytes zero v = []
be_bytes (suc i) v = v / 2 ^ (i * 8) % 256 ∷ be_bytes i v

-- The length field of `llen` bytes.
abbrev pub ber : ℕ → ℕ → List ℕ
ber zero len = []
ber (suc zero) len = len ∷ []
ber (suc (suc n)) len = (0x81 + n) ∷ be_bytes (suc n) len

-- A length field of `llen` bytes can hold the length `len`.
abbrev pub Fits : ℕ → ℕ → Type 0
Fits zero len = ⊥
Fits (suc zero) len = len < 0x80
Fits (suc (suc n)) len = (n ≤ 7) × (len < 2 ^ 64) × (len / 2 ^ (suc n * 8) ≡ 0)

length_buffer-be_bytes : (n v : ℕ) → length_buffer n v ≡ be_bytes n v
unfolding length_buffer
length_buffer-be_bytes zero v = refl
length_buffer-be_bytes (suc i) v = rw (and_0xff, length_buffer-be_bytes i v)

length-be_bytes : (n v : ℕ) → length (be_bytes n v) ≡ n
length-be_bytes zero v = refl
length-be_bytes (suc i) v = ap suc (length-be_bytes i v)

pow_step : (i : ℕ) → 2 ^ (suc i * 8) ≡ 2 ^ (i * 8) * 256
pow_step i = let e : suc i * 8 ≡ i * 8 + 8 = omega arith in rw e (eight (i * 8))
  where
    eight : (s : ℕ) → 2 ^ (s + 8) ≡ 2 ^ s * 256
    eight s = simp towards_suc (omega arith)

-- One round of the reading loop puts the next byte behind those read.
push_byte : (q : ℕ) → q < 2 ^ 64 → bit_or (q / 256 * 2 ^ 8 % 2 ^ 64) (q % 256) ≡ q
push_byte q h =
    let e : q / 256 * 2 ^ 8 % 2 ^ 64 ≡ q / 256 * 2 ^ 8 = omega arith in
    rw (e, or_shift 8 (q / 256) (q % 256) (omega arith)) (omega arith)

module _ {S : Type 0} ⦃ops : FileOps S⦄ (laws : ByteFile ops) where
  read_l_loop-Reads :
      (n v : ℕ) → v < 2 ^ 64 → Reads laws (read_l_loop n (v / 2 ^ (n * 8))) v (be_bytes n v)
  unfolding read_l_loop
  read_l_loop-Reads zero v h = rw (div-one v) (give-Reads laws v)
  read_l_loop-Reads (suc i) v h =
      Reads-bind laws getc_ok _ (v / 2 ^ (i * 8) % 256 ∷ []) (be_bytes i v)
        (getc_ok-Reads laws (v / 2 ^ (i * 8) % 256))
        (rw
          (
            pow_step i,
            ← div-div-eq-div-mul,
            push_byte (v / 2 ^ (i * 8)) (omega (arith, div-le_self v (2 ^ (i * 8)))),
          )
          (read_l_loop-Reads i v h))

  -- `read_l` on a short field, and on a long one.
  pub read_l-Reads : (llen len : ℕ) → Fits llen len → Reads laws read_l (llen, len) (ber llen len)
  unfolding read_l read_l_rest
  read_l-Reads zero len h = absurd h
  read_l-Reads (suc zero) len h =
      Reads-bind laws getc_ok _ (len ∷ []) [] (getc_ok-Reads laws len)
        (rw (lt→ltb len 0x80 h) (give-Reads laws (1, len)))
  read_l-Reads (suc (suc n)) len h =
      Reads-bind laws getc_ok _ ((0x81 + n) ∷ []) (be_bytes (suc n) len)
        (getc_ok-Reads laws (0x81 + n))
        (rw (le→ltb_false (0x81 + n) 0x80 (omega arith), and_0x7f, count, total)
          (Reads-bind laws (check (leb (suc n) 8)) _ [] (be_bytes (suc n) len)
            (check-Reads laws (leb (suc n) 8) (le→leb _ _ (omega arith)))
            (Reads-give laws (read_l_loop (suc n) 0) (λ len'. (suc (suc n), len'))
              (be_bytes (suc n) len) loop)))
    where
      count : (0x81 + n) % 128 ≡ suc n
      count = omega arith

      total : 1 + suc n ≡ suc (suc n)
      total = omega arith

      loop : Reads laws (read_l_loop (suc n) 0) len (be_bytes (suc n) len)
      loop = rw h.2 at (read_l_loop-Reads (suc n) len h.1)

  pub write_fixed_l-Writes :
      (ml llen len : ℕ) → Fits llen len → Writes laws ml (write_fixed_l llen len) tt (ber llen len)
  unfolding write_fixed_l
  write_fixed_l-Writes ml zero len h = absurd h
  write_fixed_l-Writes ml (suc zero) len h =
      rw (lt→ltb len 0x80 h) (putc_ok-Writes laws ml len (omega arith))
  write_fixed_l-Writes ml (suc (suc n)) len h =
      Writes-bind laws ml (check (ltb 0 (suc (suc n)) && leb (suc (suc n)) 9)) _ [] bytes
        (check-Writes laws ml _ (ground arith))
        (rw (long, less, first)
          (Writes-bind laws ml
            (check (not (not (suc (suc n) == 9) && ltb 0 (len / 2 ^ (suc n * 8))))) _ [] bytes
            (check-Writes laws ml _ (rw h.2 (ground arith)))
            (Writes-bind laws ml (putc_ok (0x81 + n)) _ ((0x81 + n) ∷ []) (be_bytes (suc n) len)
              (putc_ok-Writes laws ml (0x81 + n) (omega arith))
              (rw (length_buffer-be_bytes (suc n) len) (
                write_exactly-Writes laws ml (be_bytes (suc n) len)
                  (rw (length-be_bytes (suc n) len) (omega arith)))))))
    where
      bytes : List ℕ
      bytes = ber (suc (suc n)) len

      long : (suc (suc n) == 1) ≡ false
      long = ground arith

      less : suc (suc n) - 1 ≡ suc n
      less = omega arith

      first : 0x80 + suc (suc n) - 1 ≡ 0x81 + n
      first = omega arith

-- A field fits exactly if it is as long as the ladder of tests says, or longer.
pub Fits-of_ber_llen : (m len : ℕ) → len < 2 ^ 64 → ber_llen len ≤ m → m ≤ 9 → Fits m len
unfolding ber_llen
Fits-of_ber_llen zero len h p q = ground arith
Fits-of_ber_llen (suc zero) len h p q = ground arith
Fits-of_ber_llen (suc (suc zero)) len h p q = ground arith
Fits-of_ber_llen (suc (suc (suc zero))) len h p q = ground arith
Fits-of_ber_llen (suc (suc (suc (suc zero)))) len h p q = ground arith
Fits-of_ber_llen (suc (suc (suc (suc (suc zero))))) len h p q = ground arith
Fits-of_ber_llen (suc (suc (suc (suc (suc (suc zero)))))) len h p q = ground arith
Fits-of_ber_llen (suc (suc (suc (suc (suc (suc (suc zero))))))) len h p q = ground arith
Fits-of_ber_llen (suc (suc (suc (suc (suc (suc (suc (suc zero)))))))) len h p q = ground arith
Fits-of_ber_llen (suc (suc (suc (suc (suc (suc (suc (suc (suc n))))))))) len h p q =
    let e : n ≡ 0 = omega arith in rw e (ground arith)

ber_llen-le : (len : ℕ) → ber_llen len ≤ 9
unfolding ber_llen
ber_llen-le len = ground arith

module _ {S : Type 0} ⦃ops : FileOps S⦄ where
  -- A 64-bit length in a field shorter than `ber_llen` of it is refused, and the file stays as it
  -- was.
  pub write_fixed_l-refuses :
      (f : MxfFile S) (m len : ℕ)
      → len < 2 ^ 64
      → m < ber_llen len
      → write_fixed_l m len f ≡ failed f
  unfolding write_fixed_l ber_llen
  write_fixed_l-refuses f zero len h p = ground arith
  write_fixed_l-refuses f (suc zero) len h p = ground arith
  write_fixed_l-refuses f (suc (suc zero)) len h p = ground arith
  write_fixed_l-refuses f (suc (suc (suc zero))) len h p = ground arith
  write_fixed_l-refuses f (suc (suc (suc (suc zero)))) len h p = ground arith
  write_fixed_l-refuses f (suc (suc (suc (suc (suc zero))))) len h p = ground arith
  write_fixed_l-refuses f (suc (suc (suc (suc (suc (suc zero)))))) len h p = ground arith
  write_fixed_l-refuses f (suc (suc (suc (suc (suc (suc (suc zero))))))) len h p = ground arith
  write_fixed_l-refuses f (suc (suc (suc (suc (suc (suc (suc (suc zero)))))))) len h p =
      ground arith
  write_fixed_l-refuses f (suc (suc (suc (suc (suc (suc (suc (suc (suc n))))))))) len h p =
      absurd (omega (arith, ber_llen-le len))

-- The length of the length field that `get_llen` chooses, by the minimum of the file.
abbrev pub llen_for : ℕ → ℕ → ℕ
llen_for ml len = if ltb (ber_llen len) ml then ml else ber_llen len

pub llen_for-Fits : (ml len : ℕ) → len < 2 ^ 64 → ml ≤ 9 → Fits (llen_for ml len) len
llen_for-Fits ml len h p = elim (Bool-cases (ltb (ber_llen len) ml)) [
  | inl more ↦ rw more (Fits-of_ber_llen ml len h (omega (arith, ltb→lt _ _ more)) p)
  | inr less ↦ rw less (Fits-of_ber_llen (ber_llen len) len h (omega arith) (ber_llen-le len))
]

pub llen_for-le : (ml len : ℕ) → ml ≤ 9 → llen_for ml len ≤ 9
llen_for-le ml len h = ground (arith, ber_llen-le len)

pub length-ber : (llen len : ℕ) → length (ber llen len) ≡ llen
length-ber zero len = refl
length-ber (suc zero) len = refl
length-ber (suc (suc n)) len = ap suc (length-be_bytes (suc n) len)

module _ {S : Type 0} ⦃ops : FileOps S⦄ (laws : ByteFile ops) where
  pub write_l-Writes :
      (ml len : ℕ)
      → len < 2 ^ 64
      → ml ≤ 9
      → Writes laws ml (write_l len) (llen_for ml len) (ber (llen_for ml len) len)
  unfolding write_l get_llen
  write_l-Writes ml len h p f o e =
      let fits = llen_for-Fits f.min_llen len h (rw e p) in
      rw (← e) (
        Writes-give laws f.min_llen (write_fixed_l (llen_for f.min_llen len) len)
          (λ _. llen_for f.min_llen len) (ber (llen_for f.min_llen len) len)
          (write_fixed_l-Writes laws f.min_llen (llen_for f.min_llen len) len fits) f o refl)
