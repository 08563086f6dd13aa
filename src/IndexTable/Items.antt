-- ===== src/IndexTable/Items.antt =====
-- The items of a segment that are not arrays, as mxf_write_index_table_segment writes them and
-- mxf_read_index_table_segment_2 reads them.
use ebu_libmxf.Base.{
  ℕ, ◌^◌, ◌<◌, ◌≡◌, ◌≢◌, ◌∙◌, sym, [], ◌∷◌, ◌++◌, ◌==◌, if◌then◌else◌, arith, Bool-cases, inl, inr,
  subst,
}
use ebu_libmxf.File.Ops.{FileOps, ByteFile}
use ebu_libmxf.File.Monad.{give}
use ebu_libmxf.File.Words.{
  read_uint8, read_uint32, read_uint64, write_uint8, write_uint32, write_uint64,
}
use ebu_libmxf.File.Klv.{IsKey, read_uid, write_uid}
use ebu_libmxf.File.Laws.{Reads, Writes-bind, Reads-bind}
use ebu_libmxf.File.Laws.Primitives.{Reads-give}
use ebu_libmxf.File.Laws.Words.{
  be32, be64, read_uint8-Reads, read_uint32-Reads, read_uint64-Reads, write_uint8-Writes,
  write_uint32-Writes, write_uint64-Writes,
}
use ebu_libmxf.File.Laws.Klv.{read_uid-Reads, write_uid-Writes}
use ebu_libmxf.IndexTable.Defs.{
  IndexTableSegment, optional_len, options_len, write_items, write_counts, write_options,
  write_optional_uint64, write_optional_bool,
}
use ebu_libmxf.IndexTable.Size.{counts_size}
use ebu_libmxf.IndexTable.Read.{Memory, Callbacks, opt_bool, read_item}
use ebu_libmxf.IndexTable.Coded.{
  Coded, nothing-Coded, Coded-then, Coded-is, item-Coded, item_then-Coded, item_then_then-Coded,
}

-- The fields that are no arrays fit their types, and an optional Boolean is 0, 1 or 2.
pub record IsSegment (s : IndexTableSegment) : Type 0 where
  pub uid_ok : IsKey s.instance_uid
  pub numerator_ok : s.edit_rate_numerator < 2 ^ 32
  pub denominator_ok : s.edit_rate_denominator < 2 ^ 32
  pub start_ok : s.index_start_position < 2 ^ 64
  pub duration_ok : s.index_duration < 2 ^ 64
  pub byte_count_ok : s.edit_unit_byte_count < 2 ^ 32
  pub index_sid_ok : s.index_sid < 2 ^ 32
  pub body_sid_ok : s.body_sid < 2 ^ 32
  pub slices_ok : s.slice_count < 2 ^ 8
  pub positions_ok : s.pos_table_count < 2 ^ 8
  pub offset_ok : s.ext_start_offset < 2 ^ 64
  pub vbe_ok : s.vbe_byte_count < 2 ^ 64
  pub index_location_ok : s.single_index_location < 3
  pub essence_location_ok : s.single_essence_location < 3
  pub direction_ok : s.forward_index_direction < 3

-- What the items, the counts and the options of `s` make of the segment that has been read so far.
abbrev pub with_items : IndexTableSegment → IndexTableSegment → IndexTableSegment
with_items s r = record r {
  instance_uid = s.instance_uid;
  edit_rate_numerator = s.edit_rate_numerator;
  edit_rate_denominator = s.edit_rate_denominator;
  index_start_position = s.index_start_position;
  index_duration = s.index_duration;
  edit_unit_byte_count = s.edit_unit_byte_count;
  index_sid = s.index_sid;
  body_sid = s.body_sid;
}

-- The counts are read only if they are written, for `m` index entries.
abbrev pub with_counts : IndexTableSegment → ℕ → IndexTableSegment → IndexTableSegment
with_counts s m r = record r {
  slice_count =
      if m == 0 then (if s.force_write_slice_count then s.slice_count else 0) else s.slice_count;
  pos_table_count = if m == 0 then 0 else s.pos_table_count;
}

abbrev pub with_options : IndexTableSegment → IndexTableSegment → IndexTableSegment
with_options s r = record r {
  ext_start_offset = s.ext_start_offset;
  vbe_byte_count = s.vbe_byte_count;
  single_index_location = s.single_index_location;
  single_essence_location = s.single_essence_location;
  forward_index_direction = s.forward_index_direction;
}

-- No option has been read.
pub record HasNoOptions (r : IndexTableSegment) : Type 0 where
  pub no_offset : r.ext_start_offset ≡ 0
  pub no_vbe : r.vbe_byte_count ≡ 0
  pub no_index_location : r.single_index_location ≡ 0
  pub no_essence_location : r.single_essence_location ≡ 0
  pub no_direction : r.forward_index_direction ≡ 0

module _ {S : Type 0} ⦃ops : FileOps S⦄ (laws : ByteFile ops) (ml : ℕ) {X : Type 0} (mem : Memory)
    (callbacks : Callbacks X) (segment_len : ℕ) (fits : segment_len < 2 ^ 64) (x : X) where
  optional_uint64-Coded :
      (tag v : ℕ) (s t : X × IndexTableSegment)
      → tag < 2 ^ 16
      → (v ≡ 0 → t ≡ s)
      → Reads laws (read_item mem callbacks tag 8 s) t (be64 v)
      → Coded laws ml mem callbacks segment_len fits
          (write_optional_uint64 tag v)
          (optional_len v 8)
          s
          t
  unfolding write_optional_uint64
  optional_uint64-Coded tag v s t ht e r = elim (Bool-cases (v == 0)) [
    | inl null ↦
        rw (null, e (ground arith)) (nothing-Coded laws ml mem callbacks segment_len fits s)
    | inr some_left ↦ rw some_left (
        item-Coded laws ml mem callbacks segment_len fits tag 8 (write_uint64 v) (be64 v) ht
          (omega arith) (write_uint64-Writes laws ml v) r)
  ]

  -- The octet 1 is read as true, and 0 as false.
  opt_bool-octet : (v : ℕ) → v < 3 → v ≢ 0 → opt_bool (if v == 1 then 1 else 0) ≡ v
  opt_bool-octet v h n = ground arith

  optional_bool-Coded :
      (tag v : ℕ) (s t : X × IndexTableSegment)
      → tag < 2 ^ 16
      → (v ≡ 0 → t ≡ s)
      → (v ≢ 0 → Reads laws (read_item mem callbacks tag 1 s) t ((if v == 1 then 1 else 0) ∷ []))
      → Coded laws ml mem callbacks segment_len fits
          (write_optional_bool tag v)
          (optional_len v 1)
          s
          t
  unfolding write_optional_bool
  optional_bool-Coded tag v s t ht e r = elim (Bool-cases (v == 0)) [
    | inl null ↦
        rw (null, e (ground arith)) (nothing-Coded laws ml mem callbacks segment_len fits s)
    | inr some_left ↦ rw some_left (
        item-Coded laws ml mem callbacks segment_len fits tag 1
          (write_uint8 (if v == 1 then 1 else 0)) ((if v == 1 then 1 else 0) ∷ []) ht (omega arith)
          (write_uint8-Writes laws ml _) (r (ground arith)))
  ]

  pub items-Coded :
      (s r : IndexTableSegment)
      → IsSegment s
      → Coded laws ml mem callbacks segment_len fits (write_items s) 80 (x, r) (x, with_items s r)
  unfolding write_items read_item
  items-Coded s r h =
      item_then-Coded laws ml mem callbacks segment_len fits 0x3c0a 16 60 (write_uid s.instance_uid)
        _ s.instance_uid (omega arith) (omega arith)
        (write_uid-Writes laws ml s.instance_uid h.uid_ok)
        (Reads-give laws read_uid _ s.instance_uid (read_uid-Reads laws s.instance_uid h.uid_ok))
        (item_then_then-Coded laws ml mem callbacks segment_len fits 0x3f0b 8 48
          (write_uint32 s.edit_rate_numerator) (write_uint32 s.edit_rate_denominator) _
          (be32 s.edit_rate_numerator ++ be32 s.edit_rate_denominator) (omega arith) (omega arith)
          (Writes-bind laws ml (write_uint32 s.edit_rate_numerator) _ (be32 s.edit_rate_numerator)
            (be32 s.edit_rate_denominator) (write_uint32-Writes laws ml s.edit_rate_numerator)
            (write_uint32-Writes laws ml s.edit_rate_denominator))
          (Reads-bind laws read_uint32 _ (be32 s.edit_rate_numerator) (be32 s.edit_rate_denominator)
            (read_uint32-Reads laws s.edit_rate_numerator h.numerator_ok)
            (Reads-give laws read_uint32 _ (be32 s.edit_rate_denominator)
              (read_uint32-Reads laws s.edit_rate_denominator h.denominator_ok)))
          (item_then-Coded laws ml mem callbacks segment_len fits 0x3f0c 8 36
            (write_uint64 s.index_start_position) _ (be64 s.index_start_position) (omega arith)
            (omega arith) (write_uint64-Writes laws ml s.index_start_position)
            (Reads-give laws read_uint64 _ (be64 s.index_start_position)
              (read_uint64-Reads laws s.index_start_position h.start_ok))
            (item_then-Coded laws ml mem callbacks segment_len fits 0x3f0d 8 24
              (write_uint64 s.index_duration) _ (be64 s.index_duration) (omega arith) (omega arith)
              (write_uint64-Writes laws ml s.index_duration)
              (Reads-give laws read_uint64 _ (be64 s.index_duration)
                (read_uint64-Reads laws s.index_duration h.duration_ok))
              (item_then-Coded laws ml mem callbacks segment_len fits 0x3f05 4 16
                (write_uint32 s.edit_unit_byte_count) _ (be32 s.edit_unit_byte_count) (omega arith)
                (omega arith) (write_uint32-Writes laws ml s.edit_unit_byte_count)
                (Reads-give laws read_uint32 _ (be32 s.edit_unit_byte_count)
                  (read_uint32-Reads laws s.edit_unit_byte_count h.byte_count_ok))
                (item_then-Coded laws ml mem callbacks segment_len fits 0x3f06 4 8
                  (write_uint32 s.index_sid) _ (be32 s.index_sid) (omega arith) (omega arith)
                  (write_uint32-Writes laws ml s.index_sid)
                  (Reads-give laws read_uint32 _ (be32 s.index_sid)
                    (read_uint32-Reads laws s.index_sid h.index_sid_ok))
                  (item-Coded laws ml mem callbacks segment_len fits 0x3f07 4
                    (write_uint32 s.body_sid) (be32 s.body_sid) (omega arith) (omega arith)
                    (write_uint32-Writes laws ml s.body_sid)
                    (Reads-give laws read_uint32 _ (be32 s.body_sid)
                      (read_uint32-Reads laws s.body_sid h.body_sid_ok))))))))

  ext_start_offset-Coded :
      (s r : IndexTableSegment)
      → IsSegment s
      → r.ext_start_offset ≡ 0
      → Coded laws ml mem callbacks segment_len fits
          (write_optional_uint64 0x3f0f s.ext_start_offset)
          (optional_len s.ext_start_offset 8)
          (x, r)
          (x, record r { ext_start_offset = s.ext_start_offset })
  unfolding read_item
  ext_start_offset-Coded s r h n =
      optional_uint64-Coded 0x3f0f s.ext_start_offset (x, r)
        (x, record r { ext_start_offset = s.ext_start_offset }) (omega arith)
        (λ z i. (x, record r { ext_start_offset = (z ∙ sym n) i }))
        (Reads-give laws read_uint64 _ (be64 s.ext_start_offset)
          (read_uint64-Reads laws s.ext_start_offset h.offset_ok))

  vbe_byte_count-Coded :
      (s r : IndexTableSegment)
      → IsSegment s
      → r.vbe_byte_count ≡ 0
      → Coded laws ml mem callbacks segment_len fits
          (write_optional_uint64 0x3f10 s.vbe_byte_count)
          (optional_len s.vbe_byte_count 8)
          (x, r)
          (x, record r { vbe_byte_count = s.vbe_byte_count })
  unfolding read_item
  vbe_byte_count-Coded s r h n =
      optional_uint64-Coded 0x3f10 s.vbe_byte_count (x, r)
        (x, record r { vbe_byte_count = s.vbe_byte_count }) (omega arith)
        (λ z i. (x, record r { vbe_byte_count = (z ∙ sym n) i }))
        (Reads-give laws read_uint64 _ (be64 s.vbe_byte_count)
          (read_uint64-Reads laws s.vbe_byte_count h.vbe_ok))

  single_index_location-Coded :
      (s r : IndexTableSegment)
      → IsSegment s
      → r.single_index_location ≡ 0
      → Coded laws ml mem callbacks segment_len fits
          (write_optional_bool 0x3f11 s.single_index_location)
          (optional_len s.single_index_location 1)
          (x, r)
          (x, record r { single_index_location = s.single_index_location })
  unfolding read_item
  single_index_location-Coded s r h n =
      optional_bool-Coded 0x3f11 s.single_index_location (x, r)
        (x, record r { single_index_location = s.single_index_location }) (omega arith)
        (λ z i. (x, record r { single_index_location = (z ∙ sym n) i }))
        (λ nz.
          subst
            (λ (v : ℕ).
              Reads laws (read_item mem callbacks 0x3f11 1 (x, r))
                (x, record r { single_index_location = v }) (octet ∷ []))
            (opt_bool-octet s.single_index_location h.index_location_ok nz)
            (Reads-give laws read_uint8 _ (octet ∷ []) (read_uint8-Reads laws octet)))
    where
      octet : ℕ
      octet = if s.single_index_location == 1 then 1 else 0

  single_essence_location-Coded :
      (s r : IndexTableSegment)
      → IsSegment s
      → r.single_essence_location ≡ 0
      → Coded laws ml mem callbacks segment_len fits
          (write_optional_bool 0x3f12 s.single_essence_location)
          (optional_len s.single_essence_location 1)
          (x, r)
          (x, record r { single_essence_location = s.single_essence_location })
  unfolding read_item
  single_essence_location-Coded s r h n =
      optional_bool-Coded 0x3f12 s.single_essence_location (x, r)
        (x, record r { single_essence_location = s.single_essence_location }) (omega arith)
        (λ z i. (x, record r { single_essence_location = (z ∙ sym n) i }))
        (λ nz.
          subst
            (λ (v : ℕ).
              Reads laws (read_item mem callbacks 0x3f12 1 (x, r))
                (x, record r { single_essence_location = v }) (octet ∷ []))
            (opt_bool-octet s.single_essence_location h.essence_location_ok nz)
            (Reads-give laws read_uint8 _ (octet ∷ []) (read_uint8-Reads laws octet)))
    where
      octet : ℕ
      octet = if s.single_essence_location == 1 then 1 else 0

  forward_index_direction-Coded :
      (s r : IndexTableSegment)
      → IsSegment s
      → r.forward_index_direction ≡ 0
      → Coded laws ml mem callbacks segment_len fits
          (write_optional_bool 0x3f13 s.forward_index_direction)
          (optional_len s.forward_index_direction 1)
          (x, r)
          (x, record r { forward_index_direction = s.forward_index_direction })
  unfolding read_item
  forward_index_direction-Coded s r h n =
      optional_bool-Coded 0x3f13 s.forward_index_direction (x, r)
        (x, record r { forward_index_direction = s.forward_index_direction }) (omega arith)
        (λ z i. (x, record r { forward_index_direction = (z ∙ sym n) i }))
        (λ nz.
          subst
            (λ (v : ℕ).
              Reads laws (read_item mem callbacks 0x3f13 1 (x, r))
                (x, record r { forward_index_direction = v }) (octet ∷ []))
            (opt_bool-octet s.forward_index_direction h.direction_ok nz)
            (Reads-give laws read_uint8 _ (octet ∷ []) (read_uint8-Reads laws octet)))
    where
      octet : ℕ
      octet = if s.forward_index_direction == 1 then 1 else 0

  pub counts-Coded :
      (s r : IndexTableSegment) (m : ℕ)
      → IsSegment s
      → r.slice_count ≡ 0
      → r.pos_table_count ≡ 0
      → Coded laws ml mem callbacks segment_len fits
          (write_counts s m)
          (counts_size s.force_write_slice_count m)
          (x, r)
          (x, with_counts s m r)
  unfolding write_counts read_item
  counts-Coded s r m h n p = elim (Bool-cases (m == 0)) [
    | inr some_left ↦ rw some_left (
        item_then-Coded laws ml mem callbacks segment_len fits 0x3f08 1 5
          (write_uint8 s.slice_count) _ (s.slice_count ∷ []) (omega arith) (omega arith)
          (write_uint8-Writes laws ml s.slice_count)
          (Reads-give laws read_uint8 _ (s.slice_count ∷ []) (read_uint8-Reads laws s.slice_count))
          (item-Coded laws ml mem callbacks segment_len fits 0x3f0e 1
            (write_uint8 s.pos_table_count) (s.pos_table_count ∷ []) (omega arith) (omega arith)
            (write_uint8-Writes laws ml s.pos_table_count)
            (Reads-give laws read_uint8 _ (s.pos_table_count ∷ [])
              (read_uint8-Reads laws s.pos_table_count))))
    | inl null ↦ elim (Bool-cases s.force_write_slice_count) [
      | inl force ↦
          rw (null, force)
            (item-Coded laws ml mem callbacks segment_len fits 0x3f08 1 (write_uint8 s.slice_count)
              (s.slice_count ∷ []) (omega arith) (omega arith)
              (write_uint8-Writes laws ml s.slice_count)
              (subst
                (λ (v : ℕ).
                  Reads laws (read_item mem callbacks 0x3f08 1 (x, r))
                    (x, record r { slice_count = s.slice_count; pos_table_count = v })
                    (s.slice_count ∷ []))
                p
                (Reads-give laws read_uint8 _ (s.slice_count ∷ [])
                  (read_uint8-Reads laws s.slice_count))))
      | inr quiet ↦
          rw (null, quiet)
            (subst
              (λ (t : IndexTableSegment).
                Coded laws ml mem callbacks segment_len fits (give tt) 0 (x, r) (x, t))
              (λ i. record r { slice_count = n i; pos_table_count = p i })
              (nothing-Coded laws ml mem callbacks segment_len fits (x, r)))
    ]
  ]

  pub options-Coded :
      (s r : IndexTableSegment)
      → IsSegment s
      → HasNoOptions r
      → Coded laws ml mem callbacks segment_len fits
          (write_options s)
          (options_len s)
          (x, r)
          (x, with_options s r)
  unfolding write_options
  options-Coded s r h n =
      Coded-is laws ml mem callbacks segment_len fits (options_len s) (omega arith) (
        Coded-then laws ml mem callbacks segment_len fits
          (write_optional_uint64 0x3f0f s.ext_start_offset) _ _ _
          (ext_start_offset-Coded s r h n.no_offset)
          (Coded-then laws ml mem callbacks segment_len fits
            (write_optional_uint64 0x3f10 s.vbe_byte_count) _ _ _
            (vbe_byte_count-Coded s _ h n.no_vbe)
            (Coded-then laws ml mem callbacks segment_len fits
              (write_optional_bool 0x3f11 s.single_index_location) _ _ _
              (single_index_location-Coded s _ h n.no_index_location)
              (Coded-then laws ml mem callbacks segment_len fits
                (write_optional_bool 0x3f12 s.single_essence_location) _ _ _
                (single_essence_location-Coded s _ h n.no_essence_location)
                (forward_index_direction-Coded s _ h n.no_direction)))))
