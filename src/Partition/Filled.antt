-- ===== src/Partition/Filled.antt =====
-- The fillers of mxf/mxf_partition.c.
use ebu_libmxf.Base.{
  ℕ, zero, suc, ◌+◌, ◌-◌, ◌^◌, ◌≤◌, ◌<◌, ◌≡◌, refl, ap, true, false, ◌⊎◌, inl, inr, List, [], ◌++◌,
  length, leb, ◌==◌, arith, length-append, length-replicate, le→leb,
}
use ebu_libmxf.File.Ops.{FileOps, ByteFile, put}
use ebu_libmxf.File.Monad.{MxfFile, check, file_tell, get_min_llen, ◌>>◌}
use ebu_libmxf.File.Length.{ber_llen, get_llen, write_fixed_l}
use ebu_libmxf.File.Klv.{Key, IsKey, write_k}
use ebu_libmxf.File.Laws.{IsOpen, Ran, Wrote, Writes, Writes-bind, Ran-bind, Ran-view}
use ebu_libmxf.File.Laws.Primitives.{give-Writes, check-Writes, file_tell-Ran}
use ebu_libmxf.File.Laws.Length.{
  ber, Fits, llen_for, llen_for-Fits, length-ber, write_fixed_l-Writes,
}
use ebu_libmxf.File.Laws.Klv.{write_k-Writes}
use ebu_libmxf.File.Laws.Skip.{zeros, write_zeros-Writes}
use ebu_libmxf.Partition.Fill.{
  fill_room, fill_size, write_fill_value, fill_to_position, allocate_space,
}

-- A filler with a length field of `llen` bytes and `n` zeros.
abbrev pub filler : Key → ℕ → ℕ → List ℕ
filler fill_key llen n = fill_key ++ (ber llen n ++ zeros n)

pub length-filler :
    (fill_key : Key) (llen n : ℕ) → IsKey fill_key → length (filler fill_key llen n) ≡ 16 + llen + n
length-filler fill_key llen n k = omega (
  arith,
  k,
  length-append fill_key (ber llen n ++ zeros n),
  length-append (ber llen n) (zeros n),
  length-ber llen n,
  length-replicate {A = ℕ} n 0,
)

-- Nothing, or a filler whose length fits its length field.
abbrev pub NoneOrFiller : Key → List ℕ → Type 0
NoneOrFiller fill_key bs =
    (bs ≡ []) ⊎ ((llen : ℕ) × (n : ℕ) × (bs ≡ filler fill_key llen n) × Fits llen n)

-- A length field that holds a length holds the smaller ones.
pub Fits-le : (m : ℕ) {a b : ℕ} → a ≤ b → Fits m b → Fits m a
Fits-le zero h p = absurd p
Fits-le (suc zero) h p = omega arith
Fits-le (suc (suc zero)) h p = (omega (arith, p.0), omega (arith, p.1), omega (arith, p.2))
Fits-le (suc (suc (suc zero))) h p = (omega (arith, p.0), omega (arith, p.1), omega (arith, p.2))
Fits-le (suc (suc (suc (suc zero)))) h p =
    (omega (arith, p.0), omega (arith, p.1), omega (arith, p.2))
Fits-le (suc (suc (suc (suc (suc zero))))) h p =
    (omega (arith, p.0), omega (arith, p.1), omega (arith, p.2))
Fits-le (suc (suc (suc (suc (suc (suc zero)))))) h p =
    (omega (arith, p.0), omega (arith, p.1), omega (arith, p.2))
Fits-le (suc (suc (suc (suc (suc (suc (suc zero))))))) h p =
    (omega (arith, p.0), omega (arith, p.1), omega (arith, p.2))
Fits-le (suc (suc (suc (suc (suc (suc (suc (suc zero)))))))) h p =
    (omega (arith, p.0), omega (arith, p.1), omega (arith, p.2))
Fits-le (suc (suc (suc (suc (suc (suc (suc (suc (suc zero))))))))) h p =
    (omega (arith, p.0), omega (arith, p.1), omega (arith, p.2))
Fits-le (suc (suc (suc (suc (suc (suc (suc (suc (suc (suc n)))))))))) h p =
    absurd (omega (arith, p.0))

-- The length field of a filler that fills `room` bytes is not longer than these.
llen_for-room : (ml room : ℕ) → ml ≤ room → 0 < room → llen_for ml room ≤ room
unfolding ber_llen
llen_for-room ml room h p = ground arith

fill_size_if :
    (here position : ℕ)
    → here + 16 ≤ position
    → position < 2 ^ 63
    → fill_size here position ≡ position - here - 16
unfolding fill_size
fill_size_if here position h b = omega arith

fill_room_if :
    {S : Type 0} (f : MxfFile S) (here position : ℕ)
    → here + 16 ≤ position
    → position < 2 ^ 63
    → f.min_llen ≤ 9
    → fill_room (get_min_llen f) here position ≡ true
unfolding fill_room get_min_llen
fill_room_if f here position h b m = ground arith

module _ {S : Type 0} ⦃ops : FileOps S⦄ (laws : ByteFile ops) where
  value-Writes :
      (ml room : ℕ)
      → ml ≤ room
      → 0 < room
      → room < 2 ^ 64
      → ml ≤ 9
      → Writes laws ml
          (write_fill_value room)
          tt
          (ber (llen_for ml room) (room - llen_for ml room) ++ zeros (room - llen_for ml room))
  unfolding write_fill_value get_llen
  value-Writes ml room h p b m f o e = rw (← e) (
      Writes-bind laws f.min_llen (check (leb k room)) _ [] (ber k (room - k) ++ zeros (room - k))
        (check-Writes laws f.min_llen (leb k room) (le→leb k room fits))
        (Writes-bind laws f.min_llen (write_fixed_l k (room - k)) _ (ber k (room - k))
          (zeros (room - k))
          (write_fixed_l-Writes laws f.min_llen k (room - k)
            (Fits-le k (omega arith) (llen_for-Fits f.min_llen room b (rw e m))))
          (write_zeros-Writes laws f.min_llen (room - k)))
        f o refl)
    where
      k : ℕ
      k = llen_for f.min_llen room

      fits : k ≤ room
      fits = llen_for-room f.min_llen room (rw e h) p

  module _ (fill_key : Key) (is_key : IsKey fill_key) where
    -- A key, a length field and zeros.
    filler-Writes :
        (ml size : ℕ)
        → ml + 16 ≤ size
        → 16 < size
        → size < 2 ^ 64
        → ml ≤ 9
        → Writes laws ml
            (do write_k fill_key; write_fill_value (size - 16))
            tt
            (filler fill_key (llen_for ml (size - 16)) (size - 16 - llen_for ml (size - 16)))
    filler-Writes ml size h p b m =
        Writes-bind laws ml (write_k fill_key) _ fill_key _ (write_k-Writes laws ml fill_key is_key)
          (value-Writes ml (size - 16) (omega arith) (omega arith) (omega arith) m)

    -- `allocate_space` on an open file writes a filler (key, length field, zeros) of exactly
    -- `size` bytes, if these are at least 17, have room for the key and the minimum length field,
    -- and fit 32 bits, and that minimum is at most 9. The key is the application's, of 16 octets.
    pub allocate_space-exact :
        (f : MxfFile S) (size : ℕ)
        → IsOpen laws f
        → 17 ≤ size
        → f.min_llen + 16 ≤ size
        → size < 2 ^ 32
        → f.min_llen ≤ 9
        → (llen : ℕ) × (n : ℕ) × Wrote laws f
            (allocate_space fill_key size f)
            tt
            (filler fill_key llen n)
          × (length (filler fill_key llen n) ≡ size)
          × Fits llen n
    unfolding allocate_space get_min_llen
    allocate_space-exact f size o h p b m = (
      k,
      size - 16 - k,
      Writes-bind laws f.min_llen (check (leb (get_min_llen f + 16) size)) _ []
          (filler fill_key k (size - 16 - k)) (check-Writes laws f.min_llen _ (ground arith))
          (filler-Writes f.min_llen size p h (omega arith) m) f o refl,
      omega (
        arith,
        length-filler fill_key k (size - 16 - k) is_key,
        llen_for-room f.min_llen (size - 16) (omega arith) (omega arith),
      ),
      Fits-le k (omega arith) (llen_for-Fits f.min_llen (size - 16) (omega arith) m),
    )
      where
        k : ℕ
        k = llen_for f.min_llen (size - 16)

    -- `fill_to_position` on an open file writes nothing or one filler (key, length field that
    -- fits, zeros), which ends at the position, below 2 to the 63, if that is the file's own
    -- position, or is ahead with room for the key, a byte and the minimum length field, and that
    -- minimum is at most 9. The key is the application's, of 16 octets.
    pub fill_to_position-reaches :
        (f : MxfFile S) (position : ℕ)
        → IsOpen laws f
        → (let here = length (laws.view f.sys).before in
            (here ≡ position) ⊎ ((here + 17 ≤ position) × (here + 16 + f.min_llen ≤ position)))
        → position < 2 ^ 63
        → f.min_llen ≤ 9
        → (bs : List ℕ) × Wrote laws f (fill_to_position fill_key position f) tt bs
          × (length (laws.view f.sys).before + length bs ≡ position)
          × NoneOrFiller fill_key bs
    unfolding fill_to_position
    fill_to_position-reaches f position o (inl e) b m = (
      [],
      Ran-bind laws (file_tell f) _ told (
          Ran-view laws (ap (put []) told.bytes)
            (rw at_position (give-Writes laws f.min_llen tt told.file told.is_open told.llen))),
      omega (arith, e),
      inl refl,
    )
      where
        told : Ran laws f (file_tell f) (length (laws.view f.sys).before) (laws.view f.sys)
        told = file_tell-Ran laws f o

        at_position : (length (laws.view f.sys).before == position) ≡ true
        at_position = ground (arith, e)
    fill_to_position-reaches f position o (inr h) b m = (
      filler fill_key k (room - k),
      Ran-bind laws (file_tell f) _ told (
          Ran-view laws (ap (put (filler fill_key k (room - k))) told.bytes) (
            rw (elsewhere, size_is)
              (Writes-bind laws f.min_llen (check (fill_room (get_min_llen f) here position)) _ []
                (filler fill_key k (room - k))
                (check-Writes laws f.min_llen _
                  (fill_room_if f here position (omega (arith, h)) b m))
                (filler-Writes f.min_llen (position - here) (omega (arith, h)) (omega (arith, h))
                  (omega arith) m)
                told.file told.is_open told.llen))),
      omega (
        arith,
        length-filler fill_key k (room - k) is_key,
        llen_for-room f.min_llen room (omega (arith, h)) (omega (arith, h)),
      ),
      inr (
        k,
        room - k,
        refl,
        Fits-le k (omega arith) (llen_for-Fits f.min_llen room (omega arith) m),
      ),
    )
      where
        here : ℕ
        here = length (laws.view f.sys).before

        room : ℕ
        room = position - here - 16

        k : ℕ
        k = llen_for f.min_llen room

        told : Ran laws f (file_tell f) here (laws.view f.sys)
        told = file_tell-Ran laws f o

        elsewhere : (here == position) ≡ false
        elsewhere = ground (arith, h)

        size_is : fill_size here position ≡ room
        size_is = fill_size_if here position (omega (arith, h)) b

-- With a minimum length field of at most 9, the guard of `fill_to_position` lets a position
-- through that is ahead by fewer than 16 bytes, the length of a key, and the size of the filler
-- wraps around.
pub fill_room-short :
    {S : Type 0} (f : MxfFile S) (here position : ℕ)
    → here < position
    → position < here + 16
    → position < 2 ^ 63
    → f.min_llen ≤ 9
    → (fill_room (get_min_llen f) here position ≡ true)
      × (fill_size here position ≡ 2 ^ 64 - (here + 16 - position))
unfolding fill_room get_min_llen fill_size
fill_room-short f here position h p b m = (ground arith, omega arith)
