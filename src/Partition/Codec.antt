-- ===== src/Partition/Codec.antt =====
-- mxf_write_partition and mxf_read_partition of mxf/mxf_partition.c.
use ebu_libmxf.Base.{
  ℕ, ◌+◌, ◌-◌, ◌*◌, ◌%◌, ◌^◌, ◌≤◌, ◌<◌, ◌≡◌, refl, ap, ◌∙◌, Bool, true, false, if◌then◌else◌, none,
  some, List, [], ◌∷◌, ◌++◌, length, All, leb, ◌==◌, ◌&&◌, ◌||◌, arith, append_assoc, append-nil,
  length-append, le→leb, le→ltb_false,
}
use ebu_libmxf.File.Ops.{FileOps, View, ByteFile, put}
use ebu_libmxf.File.Monad.{MxfFile, M, give, check, file_tell, ◌>>=◌}
use ebu_libmxf.File.Words.{
  read_uint16, read_uint32, read_uint64, write_uint16, write_uint32, write_uint64,
  read_batch_header, write_batch_header,
}
use ebu_libmxf.File.Length.{get_llen}
use ebu_libmxf.File.Klv.{Key, IsKey, read_ul, write_ul, write_kl, read_kl}
use ebu_libmxf.File.Laws.{
  IsOpen, Ran, Wrote, Writes, Reads, Writes-bind, Reads-bind, Ran-bind, Ran-view,
}
use ebu_libmxf.File.Laws.Primitives.{
  give-Writes, give-Reads, Reads-give, Writes-give, check-Reads, file_tell-Ran,
}
use ebu_libmxf.File.Laws.Words.{
  be16, be32, be64, read_uint16-Reads, write_uint16-Writes, read_uint32-Reads, write_uint32-Writes,
  read_uint64-Reads, write_uint64-Writes, read_batch_header-Reads, write_batch_header-Writes,
}
use ebu_libmxf.File.Laws.Length.{ber, llen_for, llen_for-Fits}
use ebu_libmxf.File.Laws.Klv.{read_ul-Reads, write_ul-Writes, write_kl-Writes, read_kl-Reads}
use ebu_libmxf.File.Laws.Replay.{replay, WritesAt, replay-WritesAt}
use ebu_libmxf.MxfList.Defs.{npos, initialise_list, get_list_length}
use ebu_libmxf.MxfList.Refine.{of_list, append-of_list}
use ebu_libmxf.Partition.Defs.{
  Partition, is_footer_partition_pack, initialise_partition, append_partition_esscont_label,
}
use ebu_libmxf.Partition.Pack.{
  essence_container_len, pack_len, placed, write_labels, write_pack, write_partition, read_labels,
  read_batch, read_partition,
}

-- Each field fits its type, and the list of labels is sound.
pub record IsPartition (p : Partition) : Type 0 where
  pub key_ok : IsKey p.key
  pub major_ok : p.major_version < 2 ^ 16
  pub minor_ok : p.minor_version < 2 ^ 16
  pub kag_ok : p.kag_size < 2 ^ 32
  pub this_ok : p.this_partition < 2 ^ 64
  pub previous_ok : p.previous_partition < 2 ^ 64
  pub footer_ok : p.footer_partition < 2 ^ 64
  pub header_count_ok : p.header_byte_count < 2 ^ 64
  pub index_count_ok : p.index_byte_count < 2 ^ 64
  pub index_sid_ok : p.index_sid < 2 ^ 32
  pub body_offset_ok : p.body_offset < 2 ^ 64
  pub body_sid_ok : p.body_sid < 2 ^ 32
  pub pattern_ok : IsKey p.operational_pattern
  pub chain_ok : p.essence_containers ≡ of_list p.essence_containers.elements
  pub labels_ok : All IsKey p.essence_containers.elements
  pub len_ok : 88 + 16 * length p.essence_containers.elements < 2 ^ 32

abbrev pub label_bytes : List Key → List ℕ
label_bytes [] = []
label_bytes (label ∷ labels) = label ++ label_bytes labels

-- The fields that come in front of the labels, and the labels.
abbrev pub value_bytes : Partition → List ℕ
value_bytes p =
    be16 p.major_version
    ++ (be16 p.minor_version
        ++ (be32 p.kag_size
            ++ (be64 p.this_partition
                ++ (be64 p.previous_partition
                    ++ (be64 p.footer_partition
                        ++ (be64 p.header_byte_count
                            ++ (be64 p.index_byte_count
                                ++ (be32 p.index_sid
                                    ++ (be64 p.body_offset
                                        ++ (be32 p.body_sid
                                            ++ (p.operational_pattern
                                                ++ ((be32 (length p.essence_containers.elements)
                                                      ++ be32 16)
                                                    ++ label_bytes
                                                        p.essence_containers.elements))))))))))))

abbrev pub len_of : Partition → ℕ
len_of p = 88 + 16 * length p.essence_containers.elements

abbrev pub partition_bytes : ℕ → Partition → List ℕ
partition_bytes ml p = (p.key ++ ber (llen_for ml (len_of p)) (len_of p)) ++ value_bytes p

-- What a reader keeps of a partition, with the labels `xs` so far.
abbrev pub kept : Partition → List Key → Partition
kept p xs = record p {
  essence_containers = of_list xs;
  header_mark_in_pos = none;
  index_mark_in_pos = none;
}

append-kept :
    (p : Partition) (xs : List Key) (label : Key)
    → length xs + 1 < npos
    → append_partition_esscont_label (kept p xs) label ≡ some (kept p (xs ++ (label ∷ [])))
unfolding append_partition_esscont_label
append-kept p xs label h =
    let room : (length xs + 1 == npos) ≡ false = ground arith in
    rw (append-of_list xs label (omega arith), room, append_partition_esscont_label)

count_small :
    (p : Partition) → IsPartition p → essence_container_len p ≡ length p.essence_containers.elements
unfolding get_list_length
count_small p h = omega (arith, ap (λ l. l.len) h.chain_ok, h.len_ok)

len_small :
    (p : Partition) → IsPartition p → pack_len (length p.essence_containers.elements) ≡ len_of p
len_small p h = omega (arith, h.len_ok)

-- The partition that starts `runin` bytes before the position, modulo 2 to the 64; a footer
-- partition is its own footer.
abbrev pub located : Partition → ℕ → ℕ → Partition
located p position runin = record p {
  this_partition = (position + 2 ^ 64 - runin) % 2 ^ 64;
  footer_partition =
      if is_footer_partition_pack p.key
      then (position + 2 ^ 64 - runin) % 2 ^ 64
      else p.footer_partition;
}

placed-located :
    (p : Partition) (position runin : ℕ) → placed p position runin ≡ located p position runin
unfolding placed
placed-located p position runin = go (is_footer_partition_pack p.key)
  where
    this : ℕ
    this = (position + 2 ^ 64 - runin) % 2 ^ 64

    go :
        (b : Bool)
        → (if b
            then record p { this_partition = this; footer_partition = this }
            else record p { this_partition = this })
          ≡ record p {
            this_partition = this;
            footer_partition = if b then this else p.footer_partition;
          }
    go true = refl
    go false = refl

module _ {S : Type 0} ⦃ops : FileOps S⦄ where
  -- The KLV header of a pack, and the pack.
  abbrev pub read_kl_partition : M S (Key × ℕ × ℕ × Partition)
  read_kl_partition = do
    (key, llen, len) ← read_kl
    p ← read_partition key len
    give (key, llen, len, p)

module _ {S : Type 0} ⦃ops : FileOps S⦄ (laws : ByteFile ops) where
  write_labels-Writes :
      (ml : ℕ) (ls : List Key) → All IsKey ls → Writes laws ml (write_labels ls) tt (label_bytes ls)
  unfolding write_labels
  write_labels-Writes ml [] h = give-Writes laws ml tt
  write_labels-Writes ml (l ∷ ls) h =
      Writes-bind laws ml (write_ul l) (λ _. write_labels ls) l (label_bytes ls)
        (write_ul-Writes laws ml l h.0) (write_labels-Writes ml ls h.1)

  read_labels-Reads :
      (p : Partition) (ls xs : List Key)
      → All IsKey ls
      → length xs + length ls < npos
      → Reads laws (read_labels (length ls) (kept p xs)) (kept p (xs ++ ls)) (label_bytes ls)
  unfolding read_labels
  read_labels-Reads p [] xs h b = rw append-nil (give-Reads laws (kept p xs))
  read_labels-Reads p (l ∷ ls) xs h b =
      Reads-bind laws read_ul _ l (label_bytes ls) (read_ul-Reads laws l h.0) (
        rw (append-kept p xs l (omega arith)) (
          rw append_assoc at (
            read_labels-Reads p ls (xs ++ (l ∷ [])) h.1
              (omega (arith, length-append xs (l ∷ []))))))

  write_pack-Writes :
      (ml : ℕ) (p : Partition)
      → IsPartition p
      → ml ≤ 9
      → Writes laws ml (write_pack p) tt (partition_bytes ml p)
  unfolding write_pack
  write_pack-Writes ml p h m =
      rw (count_small p h, len_small p h)
        (Writes-bind laws ml (write_kl p.key (len_of p)) _ _ (value_bytes p)
          (write_kl-Writes laws ml p.key (len_of p) h.key_ok (omega (arith, h.len_ok)) m)
          (Writes-bind laws ml (write_uint16 p.major_version) _ _ _
            (write_uint16-Writes laws ml p.major_version)
            (Writes-bind laws ml (write_uint16 p.minor_version) _ _ _
              (write_uint16-Writes laws ml p.minor_version)
              (Writes-bind laws ml (write_uint32 p.kag_size) _ _ _
                (write_uint32-Writes laws ml p.kag_size)
                (Writes-bind laws ml (write_uint64 p.this_partition) _ _ _
                  (write_uint64-Writes laws ml p.this_partition)
                  (Writes-bind laws ml (write_uint64 p.previous_partition) _ _ _
                    (write_uint64-Writes laws ml p.previous_partition)
                    (Writes-bind laws ml (write_uint64 p.footer_partition) _ _ _
                      (write_uint64-Writes laws ml p.footer_partition)
                      (Writes-bind laws ml (write_uint64 p.header_byte_count) _ _ _
                        (write_uint64-Writes laws ml p.header_byte_count)
                        (Writes-bind laws ml (write_uint64 p.index_byte_count) _ _ _
                          (write_uint64-Writes laws ml p.index_byte_count)
                          (Writes-bind laws ml (write_uint32 p.index_sid) _ _ _
                            (write_uint32-Writes laws ml p.index_sid)
                            (Writes-bind laws ml (write_uint64 p.body_offset) _ _ _
                              (write_uint64-Writes laws ml p.body_offset)
                              (Writes-bind laws ml (write_uint32 p.body_sid) _ _ _
                                (write_uint32-Writes laws ml p.body_sid)
                                (Writes-bind laws ml (write_ul p.operational_pattern) _ _ _
                                  (write_ul-Writes laws ml p.operational_pattern h.pattern_ok)
                                  (Writes-bind laws ml
                                    (write_batch_header (length p.essence_containers.elements) 16) _
                                    _ _
                                    (write_batch_header-Writes laws ml
                                      (length p.essence_containers.elements) 16)
                                    (write_labels-Writes ml p.essence_containers.elements
                                      h.labels_ok)))))))))))))))

  read_batch-Reads :
      (p : Partition)
      → IsPartition p
      → Reads laws (read_batch (len_of p) (kept p [])) (kept p p.essence_containers.elements) (
          (be32 (length p.essence_containers.elements) ++ be32 16)
          ++ label_bytes p.essence_containers.elements)
  unfolding read_batch
  read_batch-Reads p h =
      let n : ℕ = length p.essence_containers.elements in
      let ls : List Key = p.essence_containers.elements in
      Reads-bind laws read_batch_header _ (be32 n ++ be32 16) (label_bytes ls)
        (read_batch_header-Reads laws n 16 (omega (arith, h.len_ok)) (omega arith))
        (Reads-bind laws (check (n == 0 || 16 == 16)) _ [] (label_bytes ls)
          (check-Reads laws (n == 0 || 16 == 16) (ground arith))
          (Reads-bind laws (check (leb (88 + n * 16) (len_of p))) _ [] (label_bytes ls)
            (check-Reads laws _ (le→leb (88 + n * 16) (len_of p) (omega arith)))
            (rw (le→ltb_false (88 + n * 16) (len_of p) (omega arith)) (
              Reads-give laws (read_labels n (kept p [])) (λ p'. p') (label_bytes ls)
                (read_labels-Reads p ls [] h.labels_ok (omega (arith, h.len_ok)))))))

  read_partition-Reads :
      (p : Partition)
      → IsPartition p
      → Reads laws
          (read_partition p.key (len_of p))
          (kept p p.essence_containers.elements)
          (value_bytes p)
  unfolding read_partition initialise_partition initialise_list
  read_partition-Reads p h =
      Reads-bind laws (check (leb 88 (len_of p) && leb (len_of p) (2 ^ 63 - 1))) _ []
        (value_bytes p) (check-Reads laws _ (ground (arith, h.len_ok)))
        (Reads-bind laws read_uint16 _ _ _ (read_uint16-Reads laws p.major_version h.major_ok) (
          Reads-bind laws read_uint16 _ _ _ (read_uint16-Reads laws p.minor_version h.minor_ok) (
            Reads-bind laws read_uint32 _ _ _ (read_uint32-Reads laws p.kag_size h.kag_ok) (
              Reads-bind laws read_uint64 _ _ _ (read_uint64-Reads laws p.this_partition h.this_ok)
                (Reads-bind laws read_uint64 _ _ _
                  (read_uint64-Reads laws p.previous_partition h.previous_ok)
                  (Reads-bind laws read_uint64 _ _ _
                    (read_uint64-Reads laws p.footer_partition h.footer_ok)
                    (Reads-bind laws read_uint64 _ _ _
                      (read_uint64-Reads laws p.header_byte_count h.header_count_ok)
                      (Reads-bind laws read_uint64 _ _ _
                        (read_uint64-Reads laws p.index_byte_count h.index_count_ok)
                        (Reads-bind laws read_uint32 _ _ _
                          (read_uint32-Reads laws p.index_sid h.index_sid_ok)
                          (Reads-bind laws read_uint64 _ _ _
                            (read_uint64-Reads laws p.body_offset h.body_offset_ok)
                            (Reads-bind laws read_uint32 _ _ _
                              (read_uint32-Reads laws p.body_sid h.body_sid_ok)
                              (Reads-bind laws read_ul _ _ _
                                (read_ul-Reads laws p.operational_pattern h.pattern_ok)
                                (read_batch-Reads p h)))))))))))))

  write_placed :
      (f : MxfFile S) (p q : Partition)
      → IsOpen laws f
      → placed p (length (laws.view f.sys).before) f.runin_len ≡ q
      → IsPartition q
      → f.min_llen ≤ 9
      → WritesAt laws f (write_partition p) q (partition_bytes f.min_llen q)
  unfolding write_partition
  write_placed f p q o e h m g og eml erun eview = Ran-bind laws (file_tell g) _ told (
      Ran-view laws (ap (put (partition_bytes f.min_llen q)) told.bytes) (
        rw (erun, ap (λ (v : View). length v.before) eview, e)
          (Writes-give laws f.min_llen (write_pack q) (λ _. q) (partition_bytes f.min_llen q)
            (write_pack-Writes f.min_llen q h m) told.file told.is_open (told.llen ∙ eml))))
    where
      told : Ran laws g (file_tell g) (length (laws.view g.sys).before) (laws.view g.sys)
      told = file_tell-Ran laws g og

  -- A partition pack that is written to an open file and read again is the partition that was
  -- written, placed at the position of the file less the run-in (a footer partition refers to
  -- itself as the footer), with its labels and without the marks, behind the key of the pack and
  -- the length of the value. The fields of the placed partition fit their types, its list of
  -- labels is sound, the length fits 32 bits, and the minimum length of a length field is at most
  -- 9.
  pub partition_round_trip :
      (f : MxfFile S) (p : Partition)
      → IsOpen laws f
      → IsPartition (located p (length (laws.view f.sys).before) f.runin_len)
      → f.min_llen ≤ 9
      → (let q = located p (length (laws.view f.sys).before) f.runin_len in
          Wrote laws f
            (replay (write_partition p) read_kl_partition f)
            (q.key, get_llen f (len_of q), len_of q, kept q q.essence_containers.elements)
            (partition_bytes f.min_llen q))
  unfolding get_llen
  partition_round_trip f p o h m =
      replay-WritesAt laws f (partition_bytes f.min_llen q) o
        (write_placed f p q o (placed-located p (length (laws.view f.sys).before) f.runin_len) h m)
        (Reads-bind laws read_kl _ (q.key ++ ber (llen_for f.min_llen (len_of q)) (len_of q))
          (value_bytes q)
          (read_kl-Reads laws q.key (llen_for f.min_llen (len_of q)) (len_of q) h.key_ok
            (llen_for-Fits f.min_llen (len_of q) (omega (arith, h.len_ok)) m))
          (Reads-give laws (read_partition q.key (len_of q))
            (λ r. (q.key, llen_for f.min_llen (len_of q), len_of q, r)) (value_bytes q)
            (read_partition-Reads q h)))
    where
      q : Partition
      q = located p (length (laws.view f.sys).before) f.runin_len
