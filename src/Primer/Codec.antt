-- ===== src/Primer/Codec.antt =====
-- mxf_write_primer_pack and mxf_read_primer_pack of mxf/mxf_primer.c.
use ebu_libmxf.Base.{
  ℕ, ◌+◌, ◌-◌, ◌*◌, ◌^◌, ◌≤◌, ◌<◌, ◌≡◌, refl, ap, false, some, List, [], ◌∷◌, ◌++◌, length, All,
  ◌==◌, arith, append_assoc, append-nil, length-append,
}
use ebu_libmxf.File.Ops.{FileOps, ByteFile}
use ebu_libmxf.File.Monad.{MxfFile, M, give, ◌>>=◌}
use ebu_libmxf.File.Words.{
  read_array_header, write_array_header, read_uint16, write_uint16, read_batch_header,
  write_batch_header,
}
use ebu_libmxf.File.Length.{get_llen}
use ebu_libmxf.File.Klv.{
  Key, IsKey, read_local_tag, read_uid, write_local_tag, write_uid, write_kl, read_kl,
}
use ebu_libmxf.File.Laws.{IsOpen, Wrote, Writes, Reads, Writes-bind, Reads-bind}
use ebu_libmxf.File.Laws.Primitives.{give-Writes, give-Reads, Reads-give}
use ebu_libmxf.File.Laws.Words.{
  be16, be32, read_uint16-Reads, write_uint16-Writes, read_batch_header-Reads,
  write_batch_header-Writes,
}
use ebu_libmxf.File.Laws.Length.{ber, llen_for, llen_for-Fits, llen_for-le, length-ber}
use ebu_libmxf.File.Laws.Klv.{read_uid-Reads, write_uid-Writes, write_kl-Writes, read_kl-Reads}
use ebu_libmxf.File.Laws.Replay.{replay, replay-Writes}
use ebu_libmxf.MxfList.Defs.{npos, initialise_list, get_list_length}
use ebu_libmxf.MxfList.Refine.{of_list, append-of_list}
use ebu_libmxf.Keys.{primer_pack_key}
use ebu_libmxf.Primer.Defs.{
  Entry, PrimerPack, create_primer_pack_entry, number_of_items, primer_len, read_entries,
  read_primer_pack, write_entries, write_primer_pack, get_primer_pack_size,
}

-- A tag of 16 bits and a UID of 16 octets.
abbrev pub IsEntry : Entry → Type 0
IsEntry e = (e.local_tag < 2 ^ 16) × IsKey e.uid

abbrev pub entry_bytes : List Entry → List ℕ
entry_bytes [] = []
entry_bytes (e ∷ es) = be16 e.local_tag ++ (e.uid ++ entry_bytes es)

length-entry_bytes : (es : List Entry) → All IsEntry es → length (entry_bytes es) ≡ 18 * length es
length-entry_bytes [] h = refl
length-entry_bytes (e ∷ es) h =
    omega (arith, length-append e.uid (entry_bytes es), length-entry_bytes es h.1, h.0)

-- The pack of the entries `es`, with its counter at the top.
abbrev pub pack_of : List Entry → PrimerPack
pack_of es = record { entries = of_list es; next_tag = 2 ^ 16 - 1 }

create-pack_of :
    (xs : List Entry) (e : Entry)
    → length xs + 1 < npos
    → create_primer_pack_entry (pack_of xs) e ≡ some (pack_of (xs ++ (e ∷ [])))
unfolding create_primer_pack_entry
create-pack_of xs e h =
    let room : (length xs + 1 == npos) ≡ false = ground arith in
    rw (append-of_list xs e (omega arith), room, create_primer_pack_entry)

abbrev pub pack_bytes : ℕ → List Entry → List ℕ
pack_bytes ml es =
    let n = length es in
    let len = 8 + 18 * n in
    (primer_pack_key ++ ber (llen_for ml len) len) ++ (be32 n ++ (be32 18 ++ entry_bytes es))

length-pack_bytes :
    (ml : ℕ) (es : List Entry)
    → All IsEntry es
    → length (pack_bytes ml es) ≡ 16 + llen_for ml (8 + 18 * length es) + 8 + 18 * length es
length-pack_bytes ml es h = omega (
  arith,
  length-append (ber (llen_for ml (8 + 18 * length es)) (8 + 18 * length es))
      (be32 (length es) ++ (be32 18 ++ entry_bytes es)),
  length-ber (llen_for ml (8 + 18 * length es)) (8 + 18 * length es),
  length-entry_bytes es h,
)

number_small :
    (p : PrimerPack)
    → p.entries ≡ of_list p.entries.elements
    → length p.entries.elements < 2 ^ 32
    → number_of_items p ≡ length p.entries.elements
unfolding get_list_length
number_small p c h = omega (arith, ap (λ l. l.len) c)

primer_small : (n : ℕ) → 8 + 18 * n < 2 ^ 32 → primer_len n ≡ 8 + 18 * n
primer_small n h = omega arith

module _ {S : Type 0} ⦃ops : FileOps S⦄ where
  -- The KLV header of a pack, and the pack.
  abbrev pub read_kl_pack : M S (Key × ℕ × ℕ × PrimerPack)
  read_kl_pack = do (key, llen, len) ← read_kl; p ← read_primer_pack; give (key, llen, len, p)

module _ {S : Type 0} ⦃ops : FileOps S⦄ (laws : ByteFile ops) where
  write_entries-Writes :
      (ml : ℕ) (es : List Entry)
      → All IsEntry es
      → Writes laws ml (write_entries es) tt (entry_bytes es)
  unfolding write_entries write_local_tag
  write_entries-Writes ml [] h = give-Writes laws ml tt
  write_entries-Writes ml (e ∷ es) h =
      Writes-bind laws ml (write_uint16 e.local_tag) _ (be16 e.local_tag) (e.uid ++ entry_bytes es)
        (write_uint16-Writes laws ml e.local_tag)
        (Writes-bind laws ml (write_uid e.uid) (λ _. write_entries es) e.uid (entry_bytes es)
          (write_uid-Writes laws ml e.uid h.0.1) (write_entries-Writes ml es h.1))

  -- Reading appends the entries to those read so far.
  read_entries-Reads :
      (es xs : List Entry)
      → All IsEntry es
      → length xs + length es < npos
      → Reads laws (read_entries (length es) (pack_of xs)) (pack_of (xs ++ es)) (entry_bytes es)
  unfolding read_entries read_local_tag
  read_entries-Reads [] xs h b = rw append-nil (give-Reads laws (pack_of xs))
  read_entries-Reads (e ∷ es) xs h b =
      Reads-bind laws read_uint16 _ (be16 e.local_tag) (e.uid ++ entry_bytes es)
        (read_uint16-Reads laws e.local_tag h.0.0)
        (Reads-bind laws read_uid _ e.uid (entry_bytes es) (read_uid-Reads laws e.uid h.0.1) (
          rw (create-pack_of xs e (omega arith)) (
            rw append_assoc at (
              read_entries-Reads es (xs ++ (e ∷ [])) h.1
                (omega (arith, length-append xs (e ∷ [])))))))

  write_primer_pack-Writes :
      (ml : ℕ) (p : PrimerPack)
      → p.entries ≡ of_list p.entries.elements
      → All IsEntry p.entries.elements
      → 8 + 18 * length p.entries.elements < 2 ^ 32
      → ml ≤ 9
      → Writes laws ml (write_primer_pack p) tt (pack_bytes ml p.entries.elements)
  unfolding write_primer_pack write_array_header write_batch_header
  write_primer_pack-Writes ml p c h b m =
      rw (number_small p c (omega arith), primer_small (length p.entries.elements) b)
        (Writes-bind laws ml (write_kl primer_pack_key (8 + 18 * length p.entries.elements)) _
          (primer_pack_key
            ++ ber (llen_for ml (8 + 18 * length p.entries.elements))
                (8 + 18 * length p.entries.elements))
          (be32 (length p.entries.elements) ++ (be32 18 ++ entry_bytes p.entries.elements))
          (write_kl-Writes laws ml primer_pack_key (8 + 18 * length p.entries.elements) refl
            (omega arith) m)
          (Writes-bind laws ml (write_array_header (length p.entries.elements) 18)
            (λ _. write_entries p.entries.elements) (be32 (length p.entries.elements) ++ be32 18)
            (entry_bytes p.entries.elements)
            (write_batch_header-Writes laws ml (length p.entries.elements) 18)
            (write_entries-Writes ml p.entries.elements h)))

  read_primer_pack-Reads :
      (es : List Entry)
      → All IsEntry es
      → length es < 2 ^ 32
      → Reads laws read_primer_pack (pack_of es) (be32 (length es) ++ (be32 18 ++ entry_bytes es))
  unfolding read_primer_pack read_array_header initialise_list
  read_primer_pack-Reads es h b =
      Reads-bind laws read_batch_header _ (be32 (length es) ++ be32 18) (entry_bytes es)
        (read_batch_header-Reads laws (length es) 18 b (omega arith))
        (read_entries-Reads es [] h (omega arith))

  -- A primer pack that is written to an open file and read again is the pack of the same entries
  -- in the same order, with its counter at the top, behind the key of a primer pack and the length
  -- of the value. The list is sound, the entries fit their types, the length fits 32 bits, and the
  -- minimum length of a length field is at most 9.
  pub primer_pack_round_trip :
      (f : MxfFile S) (p : PrimerPack)
      → IsOpen laws f
      → p.entries ≡ of_list p.entries.elements
      → All IsEntry p.entries.elements
      → 8 + 18 * length p.entries.elements < 2 ^ 32
      → f.min_llen ≤ 9
      → (let len = 8 + 18 * length p.entries.elements in
          Wrote laws f
            (replay (write_primer_pack p) read_kl_pack f)
            (primer_pack_key, get_llen f len, len, pack_of p.entries.elements)
            (pack_bytes f.min_llen p.entries.elements))
  unfolding get_llen
  primer_pack_round_trip f p o c h b m =
      replay-Writes laws f (pack_bytes f.min_llen p.entries.elements) o
        (write_primer_pack-Writes f.min_llen p c h b m)
        (Reads-bind laws read_kl _ (primer_pack_key ++ ber (llen_for f.min_llen len) len)
          (be32 (length p.entries.elements) ++ (be32 18 ++ entry_bytes p.entries.elements))
          (read_kl-Reads laws primer_pack_key (llen_for f.min_llen len) len refl
            (llen_for-Fits f.min_llen len (omega arith) m))
          (Reads-give laws read_primer_pack
            (λ q. (primer_pack_key, llen_for f.min_llen len, len, q))
            (be32 (length p.entries.elements) ++ (be32 18 ++ entry_bytes p.entries.elements))
            (read_primer_pack-Reads p.entries.elements h (omega arith))))
    where
      len : ℕ
      len = 8 + 18 * length p.entries.elements

  -- Under the conditions of the round trip, and if the size fits 32 bits, writing a primer pack
  -- succeeds, and the number of bytes is the size that `get_primer_pack_size` gives.
  pub get_primer_pack_size-exact :
      (f : MxfFile S) (p : PrimerPack)
      → IsOpen laws f
      → p.entries ≡ of_list p.entries.elements
      → All IsEntry p.entries.elements
      → 34 + 18 * length p.entries.elements < 2 ^ 32
      → f.min_llen ≤ 9
      → (bs : List ℕ) × Wrote laws f (write_primer_pack p f) tt bs
        × (length bs ≡ get_primer_pack_size f p)
  unfolding get_primer_pack_size
  get_primer_pack_size-exact f p o c h b m = (
    pack_bytes f.min_llen p.entries.elements,
    write_primer_pack-Writes f.min_llen p c h (omega arith) m f o refl,
    rw (number_small p c (omega arith), primer_small (length p.entries.elements) (omega arith))
        (omega (
          arith,
          length-pack_bytes f.min_llen p.entries.elements h,
          llen_for-le f.min_llen (8 + 18 * length p.entries.elements) m,
        )),
  )
