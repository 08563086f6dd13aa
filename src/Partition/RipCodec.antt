-- ===== src/Partition/RipCodec.antt =====
-- mxf_write_rip and mxf_read_rip_and_size of mxf/mxf_partition.c.
use ebu_libmxf.Base.{
  ℕ, zero, suc, ◌+◌, ◌-◌, ◌*◌, ◌/◌, ◌%◌, ◌^◌, ◌≤◌, ◌<◌, ◌≡◌, refl, ap, sym, ◌∙◌, true, false, not,
  some, List, [], ◌∷◌, ◌++◌, length, take, drop, All, ◌==◌, arith, append_assoc, append-nil,
  length-append, le→leb, take-append_at, drop-append_at, drop-nil,
}
use ebu_libmxf.Base.Int.{negsuc}
use ebu_libmxf.File.Ops.{FileOps, View, ByteFile, at, contents, seek_cur, seek_end}
use ebu_libmxf.File.Monad.{MxfFile, check, file_seek, ◌>>◌}
use ebu_libmxf.File.Words.{read_uint32, read_uint64, write_uint32, write_uint64}
use ebu_libmxf.File.Length.{read_l, write_l}
use ebu_libmxf.File.Klv.{read_k, write_k}
use ebu_libmxf.File.Laws.{
  IsOpen, Ran, Wrote, Read, Writes, Reads, Writes-bind, Reads-bind, Ran-bind, Ran-view,
}
use ebu_libmxf.File.Laws.Primitives.{give-Writes, give-Reads, check-Writes, Writes-bytes, give-Ran}
use ebu_libmxf.File.Laws.Words.{
  be32, be64, read_uint32-Reads, write_uint32-Writes, read_uint64-Reads, write_uint64-Writes,
}
use ebu_libmxf.File.Laws.Length.{
  ber, Fits, llen_for, llen_for-Fits, llen_for-le, length-ber, read_l-Reads, write_l-Writes,
}
use ebu_libmxf.File.Laws.Klv.{read_k-Reads, write_k-Writes}
use ebu_libmxf.MxfList.Defs.{npos, append_list_element, initialise_list, get_list_length}
use ebu_libmxf.MxfList.Refine.{of_list, append-of_list}
use ebu_libmxf.Keys.{random_index_pack_key}
use ebu_libmxf.Partition.Defs.{Partition, FilePartitions}
use ebu_libmxf.Partition.Rip.{
  RipEntry, rip_len, entries_len, read_rip_entries, read_rip_pack, read_rip_and_size,
  write_rip_entries, write_rip,
}

abbrev pub entries_of : List Partition → List RipEntry
entries_of [] = []
entries_of (p ∷ ps) =
    record { body_sid = p.body_sid; this_partition = p.this_partition } ∷ entries_of ps

-- The two fields of a partition that an entry holds fit their types.
abbrev pub IsIndexed : Partition → Type 0
IsIndexed p = (p.body_sid < 2 ^ 32) × (p.this_partition < 2 ^ 64)

abbrev pub entry_bytes : List Partition → List ℕ
entry_bytes [] = []
entry_bytes (p ∷ ps) = be32 p.body_sid ++ (be64 p.this_partition ++ entry_bytes ps)

length-entry_bytes : (ps : List Partition) → length (entry_bytes ps) ≡ 12 * length ps
length-entry_bytes [] = refl
length-entry_bytes (p ∷ ps) = omega (arith, length-entry_bytes ps)

-- The pack up to the field that counts its bytes, and that field's value.
abbrev pub pack_bytes : ℕ → List Partition → List ℕ
pack_bytes ml ps =
    let len = 12 * length ps + 4 in
    random_index_pack_key ++ (ber (llen_for ml len) len ++ entry_bytes ps)

abbrev pub pack_size : ℕ → List Partition → ℕ
pack_size ml ps = let len = 12 * length ps + 4 in 16 + llen_for ml len + len

length-pack_bytes : (ml : ℕ) (ps : List Partition) → length (pack_bytes ml ps) + 4 ≡ pack_size ml ps
length-pack_bytes ml ps = omega (
  arith,
  length-append (ber (llen_for ml (12 * length ps + 4)) (12 * length ps + 4)) (entry_bytes ps),
  length-ber (llen_for ml (12 * length ps + 4)) (12 * length ps + 4),
  length-entry_bytes ps,
)

Fits-positive : (m len : ℕ) → Fits m len → 0 < m
Fits-positive zero len h = absurd h
Fits-positive (suc m) len h = omega arith

positive : (m len : ℕ) → Fits m len → not (m == 0) ≡ true
positive m len h = ground (arith, Fits-positive m len h)

at-split :
    (v : View) (n : ℕ) (xs ys : List ℕ)
    → contents v ≡ xs ++ ys
    → n ≡ length xs
    → at n v ≡ record { before = xs; after = ys }
at-split v n xs ys e h = λ i. record {
  before = (ap (take n) e ∙ take-append_at n xs ys h) i;
  after = (ap (drop n) e ∙ drop-append_at n xs ys h) i;
}

module _ {S : Type 0} ⦃ops : FileOps S⦄ (laws : ByteFile ops) where
  write_rip_entries-Writes :
      (ml : ℕ) (ps : List Partition) → Writes laws ml (write_rip_entries ps) tt (entry_bytes ps)
  unfolding write_rip_entries
  write_rip_entries-Writes ml [] = give-Writes laws ml tt
  write_rip_entries-Writes ml (p ∷ ps) =
      Writes-bind laws ml (write_uint32 p.body_sid) _ (be32 p.body_sid) _
        (write_uint32-Writes laws ml p.body_sid)
        (Writes-bind laws ml (write_uint64 p.this_partition) _ (be64 p.this_partition) _
          (write_uint64-Writes laws ml p.this_partition) (write_rip_entries-Writes ml ps))

  write_rip-Writes :
      (ml : ℕ) (ps : FilePartitions)
      → ps ≡ of_list ps.elements
      → 12 * length ps.elements + 29 < 2 ^ 32
      → ml ≤ 9
      → Writes laws ml
          (write_rip ps)
          tt
          (pack_bytes ml ps.elements ++ be32 (pack_size ml ps.elements))
  unfolding write_rip get_list_length
  write_rip-Writes ml ps c b m = Writes-bytes laws ml whole (
      rw len_is (
        Writes-bind laws ml (write_k random_index_pack_key) _ random_index_pack_key _
          (write_k-Writes laws ml random_index_pack_key refl)
          (Writes-bind laws ml (write_l len) _ (ber k len)
            (entry_bytes ps.elements ++ be32 (pack_size ml ps.elements))
            (write_l-Writes laws ml len (omega arith) m)
            (Writes-bind laws ml (check (not (k == 0))) _ []
              (entry_bytes ps.elements ++ be32 (pack_size ml ps.elements))
              (check-Writes laws ml _ (positive k len (llen_for-Fits ml len (omega arith) m)))
              (Writes-bind laws ml (write_rip_entries ps.elements) _ (entry_bytes ps.elements)
                (be32 (pack_size ml ps.elements)) (write_rip_entries-Writes ml ps.elements)
                (rw size_is (write_uint32-Writes laws ml (pack_size ml ps.elements))))))))
    where
      len : ℕ
      len = 12 * length ps.elements + 4

      k : ℕ
      k = llen_for ml len

      len_is : rip_len (ps.len % 2 ^ 32) ≡ 12 * length ps.elements + 4
      len_is = omega (arith, ap (λ l. l.len) c)

      size_is : (16 + k + len) % 2 ^ 32 ≡ pack_size ml ps.elements
      size_is = omega (arith, llen_for-le ml len m)

      whole :
          random_index_pack_key
            ++ (ber k len ++ (entry_bytes ps.elements ++ be32 (pack_size ml ps.elements)))
          ≡ pack_bytes ml ps.elements ++ be32 (pack_size ml ps.elements)
      whole =
          ap (λ xs. random_index_pack_key ++ xs)
            (sym (
              append_assoc (ber k len) (entry_bytes ps.elements) (be32 (pack_size ml ps.elements))))

  read_rip_entries-Reads :
      (ps : List Partition) (xs : List RipEntry)
      → All IsIndexed ps
      → length xs + length ps < npos
      → Reads laws
          (read_rip_entries (length ps) (of_list xs))
          (of_list (xs ++ entries_of ps))
          (entry_bytes ps)
  unfolding read_rip_entries
  read_rip_entries-Reads [] xs h b = rw append-nil (give-Reads laws (of_list xs))
  read_rip_entries-Reads (p ∷ ps) xs h b =
      Reads-bind laws read_uint32 _ (be32 p.body_sid) _ (read_uint32-Reads laws p.body_sid h.0.0) (
        Reads-bind laws read_uint64 _ (be64 p.this_partition) (entry_bytes ps)
          (read_uint64-Reads laws p.this_partition h.0.1)
          (rw (appended) (
            rw append_assoc at (
              read_rip_entries-Reads ps (xs ++ (entry ∷ [])) h.1
                (omega (arith, length-append xs (entry ∷ [])))))))
    where
      entry : RipEntry
      entry = record { body_sid = p.body_sid; this_partition = p.this_partition }

      appended : append_list_element (of_list xs) entry ≡ some (of_list (xs ++ (entry ∷ [])))
      appended =
          let room : (length xs + 1 == npos) ≡ false = ground arith in
          append-of_list xs entry (omega arith) ∙ rw room refl

  read_rip_pack-Reads :
      (ml : ℕ) (ps : List Partition)
      → All IsIndexed ps
      → 12 * length ps + 29 < 2 ^ 32
      → ml ≤ 9
      → Reads laws read_rip_pack (of_list (entries_of ps)) (pack_bytes ml ps)
  unfolding read_rip_pack initialise_list
  read_rip_pack-Reads ml ps h b m =
      Reads-bind laws read_k _ random_index_pack_key (ber k len ++ entry_bytes ps)
        (read_k-Reads laws random_index_pack_key refl)
        (Reads-bind laws read_l _ (ber k len) (entry_bytes ps)
          (read_l-Reads laws k len (llen_for-Fits ml len (omega arith) m))
          (rw (exact, multiple, count) (read_rip_entries-Reads ps [] h (omega arith))))
    where
      len : ℕ
      len = 12 * length ps + 4

      k : ℕ
      k = llen_for ml len

      exact : entries_len len ≡ 12 * length ps
      exact = omega arith

      multiple : 12 * length ps % 12 ≡ 0
      multiple = omega arith

      count : 12 * length ps / 12 ≡ length ps
      count = omega arith

  -- Going back from the end of the file.
  from_end :
      (f : MxfFile S) (n : ℕ) (xs ys : List ℕ)
      → IsOpen laws f
      → contents (laws.view f.sys) ≡ xs ++ ys
      → length ys ≡ suc n
      → Ran laws f (file_seek (negsuc n) seek_end f) tt (record { before = xs; after = ys })
  unfolding file_seek
  from_end f n xs ys o e h = record {
    file = record f { sys = (ops.seek f.sys (negsuc n) seek_end).1 };
    result = rw (laws.seek_end_ok f.sys n o.is_ready fits);
    is_open = record {
      is_ready = laws.seek_end_ready f.sys n o.is_ready fits;
      small_zeros = o.small_zeros;
    };
    llen = refl;
    runin = refl;
    bytes =
        laws.seek_end_view f.sys n o.is_ready fits
        ∙ at-split (laws.view f.sys) (length (contents (laws.view f.sys)) - (n + 1)) xs ys e
            (omega (arith, total));
  }
    where
      total : length (contents (laws.view f.sys)) ≡ length xs + length ys
      total = rw e (length-append xs ys)

      fits : n < length (contents (laws.view f.sys))
      fits = omega (arith, total)

  -- Going back from the position.
  from_here :
      (f : MxfFile S) (n : ℕ) (xs ys zs : List ℕ)
      → IsOpen laws f
      → laws.view f.sys ≡ record { before = xs ++ ys; after = zs }
      → length ys ≡ suc n
      → Ran laws f (file_seek (negsuc n) seek_cur f) tt (record { before = xs; after = ys ++ zs })
  unfolding file_seek
  from_here f n xs ys zs o e h = record {
    file = record f { sys = (ops.seek f.sys (negsuc n) seek_cur).1 };
    result = rw (laws.seek_back_ok f.sys n o.is_ready fits);
    is_open = record {
      is_ready = laws.seek_back_ready f.sys n o.is_ready fits;
      small_zeros = o.small_zeros;
    };
    llen = refl;
    runin = refl;
    bytes =
        laws.seek_back_view f.sys n o.is_ready fits
        ∙ at-split (laws.view f.sys) (length (laws.view f.sys).before - (n + 1)) xs (ys ++ zs)
            (ap contents e ∙ append_assoc xs ys zs) (omega (arith, total));
  }
    where
      total : length (laws.view f.sys).before ≡ length xs + length ys
      total = rw e (length-append xs ys)

      fits : n < length (laws.view f.sys).before
      fits = omega (arith, total)

  -- A random index pack that is written at the end of an open file is found there and read back:
  -- the stream identifier and the offset of each partition, in order, and the size of the pack.
  -- The list is sound and has a partition at least, the fields fit their types, the size fits 32
  -- bits, and the minimum length of a length field is at most 9.
  pub rip_round_trip :
      (f : MxfFile S) (ps : FilePartitions)
      → IsOpen laws f
      → (laws.view f.sys).after ≡ []
      → ps ≡ of_list ps.elements
      → All IsIndexed ps.elements
      → 0 < length ps.elements
      → 12 * length ps.elements + 29 < 2 ^ 32
      → f.min_llen ≤ 9
      → Ran laws f
          ((do write_rip ps; read_rip_and_size) f)
          (of_list (entries_of ps.elements), pack_size f.min_llen ps.elements)
          (record {
            before = (laws.view f.sys).before ++ pack_bytes f.min_llen ps.elements;
            after = be32 (pack_size f.min_llen ps.elements);
          })
  unfolding read_rip_and_size
  rip_round_trip f ps o last c h some_left b m = Ran-bind laws (write_rip ps f) _ wrote (
      Ran-bind laws (file_seek (negsuc 3) seek_end wrote.file) _ ended (
        Ran-bind laws (read_uint32 ended.file) _ counted (
          rw (le→leb 33 size large) (
            Ran-bind laws (file_seek (negsuc (size - 1)) seek_cur counted.file) _ back (
              Ran-bind laws (read_rip_pack back.file) _ pack_read (
                Ran-view laws (pack_read.bytes ∙ end_view)
                  (give-Ran laws pack_read.file _ pack_read.is_open)))))))
    where
      front : List ℕ
      front = (laws.view f.sys).before

      len : ℕ
      len = 12 * length ps.elements + 4

      k : ℕ
      k = llen_for f.min_llen len

      fits : Fits k len
      fits = llen_for-Fits f.min_llen len (omega arith) m

      pack : List ℕ
      pack = pack_bytes f.min_llen ps.elements

      size : ℕ
      size = pack_size f.min_llen ps.elements

      large : 33 ≤ size
      large = omega (arith, Fits-positive k len fits)

      small : size < 2 ^ 32
      small = omega (arith, llen_for-le f.min_llen len m)

      wrote : Wrote laws f (write_rip ps f) tt (pack ++ be32 size)
      wrote = write_rip-Writes f.min_llen ps c b m f o refl

      written : contents (laws.view wrote.file.sys) ≡ (front ++ pack) ++ be32 size
      written =
          ap contents wrote.bytes
          ∙ ap (λ xs. (front ++ (pack ++ be32 size)) ++ drop (length (pack ++ be32 size)) xs) last
          ∙ ap (λ xs. (front ++ (pack ++ be32 size)) ++ xs) (drop-nil (length (pack ++ be32 size)))
          ∙ append-nil (front ++ (pack ++ be32 size))
          ∙ sym (append_assoc front pack (be32 size))

      ended :
          Ran laws wrote.file
            (file_seek (negsuc 3) seek_end wrote.file)
            tt
            (record { before = front ++ pack; after = be32 size })
      ended = from_end wrote.file 3 (front ++ pack) (be32 size) wrote.is_open written refl

      counted : Read laws ended.file (read_uint32 ended.file) size (be32 size) []
      counted =
          read_uint32-Reads laws size small ended.file [] ended.is_open
            (ap (λ (v : View). v.after) ended.bytes)

      counted_view :
          laws.view counted.file.sys ≡ record { before = front ++ (pack ++ be32 size); after = [] }
      counted_view =
          counted.bytes
          ∙ ap (λ (v : View). record { before = v.before ++ be32 size; after = [] }) ended.bytes
          ∙ (λ i. record { before = append_assoc front pack (be32 size) i; after = [] })

      size_is : length (pack ++ be32 size) ≡ suc (size - 1)
      size_is =
          omega
            (arith, length-append pack (be32 size), length-pack_bytes f.min_llen ps.elements, large)

      back :
          Ran laws counted.file
            (file_seek (negsuc (size - 1)) seek_cur counted.file)
            tt
            (record { before = front; after = (pack ++ be32 size) ++ [] })
      back =
          from_here counted.file (size - 1) front (pack ++ be32 size) [] counted.is_open
            counted_view size_is

      pack_read :
          Read laws back.file
            (read_rip_pack back.file)
            (of_list (entries_of ps.elements))
            pack
            (be32 size)
      pack_read =
          read_rip_pack-Reads f.min_llen ps.elements h b m back.file (be32 size) back.is_open
            (ap (λ (v : View). v.after) back.bytes ∙ append-nil (pack ++ be32 size))

      before_size : List ℕ → View
      before_size xs = record { before = xs; after = be32 size }

      end_view :
          before_size ((laws.view back.file.sys).before ++ pack) ≡ before_size (front ++ pack)
      end_view = ap (λ (v : View). before_size (v.before ++ pack)) back.bytes
