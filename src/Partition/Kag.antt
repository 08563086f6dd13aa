-- ===== src/Partition/Kag.antt =====
-- mxf_allocate_space_to_kag of mxf/mxf_partition.c.
use ebu_libmxf.Base.{
  ℕ, zero, suc, ◌+◌, ◌-◌, ◌*◌, ◌/◌, ◌%◌, ◌^◌, ◌≤◌, ◌<◌, ◌≡◌, refl, ap, ◌∙◌, true, false, not, ◌&&◌,
  ◌||◌, ◌⊎◌, inl, inr, List, [], ◌++◌, length, ltb, leb, ◌==◌, arith, le→leb, lt→ltb, ltb→lt,
  Bool-cases,
}
use ebu_libmxf.File.Ops.{FileOps, ByteFile, put}
use ebu_libmxf.File.Monad.{MxfFile, file_tell}
use ebu_libmxf.File.Length.{get_llen, write_fixed_l}
use ebu_libmxf.File.Klv.{Key, IsKey, write_k}
use ebu_libmxf.File.Laws.{IsOpen, Ran, Wrote, Writes-bind, Ran-bind, Ran-view, put-put}
use ebu_libmxf.File.Laws.Primitives.{give-Writes, file_tell-Ran}
use ebu_libmxf.File.Laws.Length.{ber, llen_for, llen_for-Fits, llen_for-le, write_fixed_l-Writes}
use ebu_libmxf.File.Laws.Klv.{write_k-Writes}
use ebu_libmxf.File.Laws.Skip.{zeros, write_zeros-Writes}
use ebu_libmxf.Partition.Defs.{Partition}
use ebu_libmxf.Partition.Fill.{
  llen_at, kag_loop, kag_rounds, kag_gap, write_kag_value, fill_gap, allocate_space_to_kag,
}
use ebu_libmxf.Partition.Filled.{filler, NoneOrFiller, length-filler, Fits-le}
use native.Mathlib.Nat.{add-mod_right, mod-lt, div-add-mod, mul-mod_right}

-- What the loop gives for a gap: room for the key and the length field, and the same alignment.
record Padded {S : Type 0} (f : MxfFile S) (kag base gap padded : ℕ) : Type 0 where
  room : 16 + llen_at f padded ≤ padded
  not_less : gap ≤ padded
  bound : (padded ≤ gap) ⊎ (padded < 25 + f.min_llen + kag)
  aligned : (base + padded) % kag ≡ 0

llen_at-le : {S : Type 0} (f : MxfFile S) (gap : ℕ) → f.min_llen ≤ 9 → llen_at f gap ≤ 9
unfolding llen_at get_llen
llen_at-le f gap m = ground (arith, llen_for-le f.min_llen (gap - 16) m)

llen_at-n :
    {S : Type 0} (f : MxfFile S) (gap ml : ℕ)
    → f.min_llen ≡ ml
    → 16 + llen_at f gap ≤ gap
    → 16 + llen_for ml (gap - 16) ≤ gap
unfolding llen_at get_llen
llen_at-n f gap ml e h =
    let long : leb 16 gap ≡ true = le→leb 16 gap (omega arith) in rw (← e) (rw long at h)

kag_loop-Padded :
    {S : Type 0} (fuel : ℕ) (f : MxfFile S) (kag base gap : ℕ)
    → 0 < kag
    → f.min_llen ≤ 9
    → 25 + f.min_llen ≤ fuel + gap
    → (base + gap) % kag ≡ 0
    → Padded f kag base gap (kag_loop fuel f kag gap)
unfolding kag_loop
kag_loop-Padded zero f kag base gap k m h a = record {
  room = omega (arith, llen_at-le f gap m);
  not_less = omega arith;
  bound = inl (omega arith);
  aligned = a;
}
kag_loop-Padded (suc fuel) f kag base gap k m h a =
    elim (Bool-cases (ltb gap (16 + llen_at f gap))) [
      | inl more ↦
          let small : gap < 25 = omega (arith, ltb→lt _ _ more, llen_at-le f gap m) in
          let rest = kag_loop-Padded fuel f kag base (gap + kag) k m (omega arith) (next a) in
          rw more (record {
            room = rest.room;
            not_less = omega (arith, rest.not_less);
            bound = inr (elim rest.bound [ inl e ↦ omega arith | inr e ↦ e ]);
            aligned = rest.aligned;
          })
      | inr enough ↦ rw enough (record {
        room = ground arith;
        not_less = omega arith;
        bound = inl (omega arith);
        aligned = a;
      })
    ]
  where
    next : (base + gap) % kag ≡ 0 → (base + (gap + kag)) % kag ≡ 0
    next e =
        let assoc : base + (gap + kag) ≡ base + gap + kag = omega arith in
        rw assoc (add-mod_right (base + gap) kag ∙ e)

-- The gap ends at a multiple of the KAG size, before the loop.
kag_gap-aligned : (kag base size : ℕ) → 0 < kag → (base + kag_gap kag (base + size) size) % kag ≡ 0
unfolding kag_gap
kag_gap-aligned kag base size k = elim (Bool-cases (ltb 1 kag)) [
  | inl more ↦
      rw (more, sum)
        (add-mod_right (kag * ((base + size) / kag)) kag ∙ mul-mod_right kag ((base + size) / kag))
  | inr one ↦ let e : kag ≡ 1 = ground arith in rw e (omega arith)
]
  where
    sum : base + (size + (kag - (base + size) % kag)) ≡ kag * ((base + size) / kag) + kag
    sum = omega (arith, div-add-mod (base + size) kag, mod-lt (base + size) {m = kag} k)

shift_aligned :
    (this here n kag : ℕ) → this < here → (here - this + n) % kag ≡ 0 → (here + n - this) % kag ≡ 0
shift_aligned this here n kag h a =
    let e : here + n - this ≡ here - this + n = omega arith in rw e a

kag_gap-bounds :
    (kag relative size : ℕ)
    → (size ≤ kag_gap kag relative size) × (kag_gap kag relative size ≤ size + kag)
unfolding kag_gap
kag_gap-bounds kag relative size = ground arith

module _ {S : Type 0} ⦃ops : FileOps S⦄ (laws : ByteFile ops) where
  -- With room for the key and the length field, the rest of a filler is written.
  kag_value-Writes :
      (ml gap : ℕ)
      → (f : MxfFile S) → IsOpen laws f
      → f.min_llen ≡ ml
      → 16 + llen_at f gap ≤ gap
      → gap < 2 ^ 64
      → ml ≤ 9
      → Wrote laws f (write_kag_value gap f) tt (
          ber (llen_for ml (gap - 16)) (gap - 16 - llen_for ml (gap - 16))
          ++ zeros (gap - 16 - llen_for ml (gap - 16)))
  unfolding write_kag_value llen_at get_llen
  kag_value-Writes ml gap f o e r b m =
      rw (← e, le→leb 16 gap (omega arith))
        (Writes-bind laws f.min_llen (write_fixed_l k (gap - 16 - k)) _ (ber k (gap - 16 - k))
          (zeros (gap - 16 - k))
          (write_fixed_l-Writes laws f.min_llen k (gap - 16 - k)
            (Fits-le k (omega arith) (llen_for-Fits f.min_llen (gap - 16) (omega arith) (rw e m))))
          (write_zeros-Writes laws f.min_llen (gap - 16 - k)) f o refl)
    where
      k : ℕ
      k = llen_for f.min_llen (gap - 16)

  module _ (fill_key : Key) (is_key : IsKey fill_key) where
    -- The filler for a gap that ends at a multiple of the KAG size.
    fill_gap-aligned :
        (f : MxfFile S) (kag base gap : ℕ)
        → IsOpen laws f
        → 0 < kag
        → gap + kag < 2 ^ 63
        → (base + gap) % kag ≡ 0
        → f.min_llen ≤ 9
        → (bs : List ℕ) × Wrote laws f (fill_gap fill_key kag gap f) tt bs
          × (gap ≤ length bs)
          × ((base + length bs) % kag ≡ 0)
          × NoneOrFiller fill_key bs
    unfolding fill_gap
    fill_gap-aligned f kag base gap o k b a m = (
      filler fill_key n (padded - 16 - n),
      Ran-bind laws (write_k fill_key f) _ key (
          Ran-view laws (ap (put value) key.bytes ∙ put-put fill_key value (laws.view f.sys))
            (kag_value-Writes f.min_llen padded key.file key.is_open key.llen pad.room small m)),
      rw total pad.not_less,
      rw total pad.aligned,
      inr (
        n,
        padded - 16 - n,
        refl,
        Fits-le n (omega arith) (llen_for-Fits f.min_llen (padded - 16) (omega (arith, small)) m),
      ),
    )
      where
        key : Wrote laws f (write_k fill_key f) tt fill_key
        key = write_k-Writes laws f.min_llen fill_key is_key f o refl

        padded : ℕ
        padded = kag_loop (kag_rounds key.file) key.file kag gap

        pad : Padded key.file kag base gap padded
        pad =
            kag_loop-Padded (kag_rounds key.file) key.file kag base gap k (rw key.llen m)
              (omega arith) a

        small : padded < 2 ^ 64
        small = elim pad.bound [ inl e ↦ omega arith | inr e ↦ omega (arith, key.llen) ]

        n : ℕ
        n = llen_for f.min_llen (padded - 16)

        value : List ℕ
        value = ber n (padded - 16 - n) ++ zeros (padded - 16 - n)

        total : length (filler fill_key n (padded - 16 - n)) ≡ padded
        total = omega (
          arith,
          length-filler fill_key n (padded - 16 - n) is_key,
          pad.room,
          llen_at-n key.file padded f.min_llen key.llen pad.room,
        )

    -- The part of `allocate_space_to_kag` behind the tests on its arguments.
    from_position :
        (f : MxfFile S) (p : Partition) (size : ℕ)
        → IsOpen laws f
        → 0 < p.kag_size
        → p.kag_size < 2 ^ 32
        → size < 2 ^ 32
        → p.this_partition < length (laws.view f.sys).before
        → f.min_llen ≤ 9
        → (size == 0 && p.kag_size == 1) ≡ false
        → (bs : List ℕ) × Wrote laws f (allocate_space_to_kag fill_key p size f) tt bs
          × (size ≤ length bs)
          × ((length (laws.view f.sys).before + length bs - p.this_partition) % p.kag_size ≡ 0)
          × NoneOrFiller fill_key bs
    unfolding allocate_space_to_kag
    from_position f p size o k b s h m n =
        elim (Bool-cases (not (size == 0) || not (relative % p.kag_size == 0))) [
          | inl fill ↦ (
            filled.0,
            rw (lt→ltb 0 p.kag_size k, n)
                (Ran-bind laws (file_tell f) _ told (
                  rw (lt→ltb p.this_partition here h, fill)
                    (Ran-view laws (ap (put filled.0) told.bytes) filled.1))),
            (omega (arith, kag_gap-bounds p.kag_size relative size, filled.2)),
            shift_aligned p.this_partition here (length filled.0) p.kag_size h filled.3,
            filled.4,
          )
          | inr none_left ↦ (
            [],
            rw (lt→ltb 0 p.kag_size k, n)
                (Ran-bind laws (file_tell f) _ told (
                  rw (lt→ltb p.this_partition here h, none_left)
                    (Ran-view laws (ap (put []) told.bytes)
                      (give-Writes laws f.min_llen tt told.file told.is_open told.llen)))),
            ground arith,
            (let e : size ≡ 0 = ground arith in
                let r : relative % p.kag_size ≡ 0 = ground arith in rw e at r),
            inl refl,
          )
        ]
      where
        here : ℕ
        here = length (laws.view f.sys).before

        relative : ℕ
        relative = here + size - p.this_partition

        base : ℕ
        base = here - p.this_partition

        gap : ℕ
        gap = kag_gap p.kag_size relative size

        told : Ran laws f (file_tell f) here (laws.view f.sys)
        told = file_tell-Ran laws f o

        split : relative ≡ base + size
        split = omega arith

        filled :
            (bs : List ℕ) × Wrote laws told.file (fill_gap fill_key p.kag_size gap told.file) tt bs
            × (gap ≤ length bs)
            × ((base + length bs) % p.kag_size ≡ 0)
            × NoneOrFiller fill_key bs
        filled =
            fill_gap-aligned told.file p.kag_size base gap told.is_open k
              (omega (arith, kag_gap-bounds p.kag_size relative size))
              (rw split (kag_gap-aligned p.kag_size base size k)) (rw told.llen m)

    -- Relative to the field `this_partition`.
    to_kag-aligned :
        (f : MxfFile S) (p : Partition) (size : ℕ)
        → IsOpen laws f
        → 0 < p.kag_size
        → p.kag_size < 2 ^ 32
        → size < 2 ^ 32
        → p.this_partition < length (laws.view f.sys).before
        → f.min_llen ≤ 9
        → (bs : List ℕ) × Wrote laws f (allocate_space_to_kag fill_key p size f) tt bs
          × (size ≤ length bs)
          × ((length (laws.view f.sys).before + length bs - p.this_partition) % p.kag_size ≡ 0)
          × NoneOrFiller fill_key bs
    unfolding allocate_space_to_kag
    to_kag-aligned f p size o k b s h m = elim (Bool-cases (size == 0 && p.kag_size == 1)) [
      | inl nothing ↦ (
        [],
        rw (lt→ltb 0 p.kag_size k, nothing) (give-Writes laws f.min_llen tt f o refl),
        ground arith,
        (let e : p.kag_size ≡ 1 = ground arith in rw e (omega arith)),
        inl refl,
      )
      | inr some_left ↦ from_position f p size o k b s h m some_left
    ]

    -- `allocate_space_to_kag` on an open file writes nothing or one filler, of at least `size`
    -- bytes, after which the distance from the start of the partition, with the length of the
    -- run-in added to it, is a multiple of the KAG size. The start of the partition is its
    -- `this_partition` and the length of the run-in; the position is not before it, and behind
    -- `this_partition`. The KAG size is not 0, both sizes fit 32 bits, the key of fillers has 16
    -- octets, and the minimum length of a length field is at most 9.
    pub allocate_space_to_kag-aligned :
        (f : MxfFile S) (p : Partition) (start size : ℕ)
        → IsOpen laws f
        → start ≡ p.this_partition + f.runin_len
        → start ≤ length (laws.view f.sys).before
        → p.this_partition < length (laws.view f.sys).before
        → 0 < p.kag_size
        → p.kag_size < 2 ^ 32
        → size < 2 ^ 32
        → f.min_llen ≤ 9
        → (bs : List ℕ) × Wrote laws f (allocate_space_to_kag fill_key p size f) tt bs
          × (size ≤ length bs)
          × ((length (laws.view f.sys).before + length bs - start + f.runin_len) % p.kag_size ≡ 0)
          × NoneOrFiller fill_key bs
    allocate_space_to_kag-aligned f p start size o e u h k b s m =
        let (bs, w, n, a, c) = to_kag-aligned f p size o k b s h m in
        let here = length (laws.view f.sys).before in
        let same : here + length bs - start + f.runin_len ≡ here + length bs - p.this_partition =
          omega arith in
        (bs, w, n, ap (λ (d : ℕ). d % p.kag_size) same ∙ a, c)
