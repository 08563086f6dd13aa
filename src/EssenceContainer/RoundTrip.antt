-- ===== src/EssenceContainer/RoundTrip.antt =====
-- An essence element that is written with mxf/mxf_essence_container.c and read again.
use ebu_libmxf.Base.{
  ℕ, ◌+◌, ◌<◌, ◌^◌, ◌≡◌, refl, ap, ◌∙◌, subst, List, ◌++◌, length, append_assoc, arith,
}
use ebu_libmxf.File.Ops.{FileOps, View, ByteFile}
use ebu_libmxf.File.Monad.{MxfFile, M, give, ◌>>=◌, file_tell}
use ebu_libmxf.File.Klv.{Key, IsKey, read_kl}
use ebu_libmxf.File.Laws.{IsOpen, Ran, Wrote, Reads, Reads-bind, Ran-bind, Ran-view}
use ebu_libmxf.File.Laws.Primitives.{file_tell-Ran, Reads-give}
use ebu_libmxf.File.Laws.Length.{Fits, ber}
use ebu_libmxf.File.Laws.Klv.{read_kl-Reads}
use ebu_libmxf.File.Laws.Replay.{replay, replay-WritesAt}
use ebu_libmxf.EssenceContainer.Defs.{open_essence_element_read}
use ebu_libmxf.EssenceContainer.Laws.{
  joined, Buffers, grown, opened, write_essence_element, write_essence_element-Wrote,
}
use ebu_libmxf.EssenceContainer.Read.{read_buffers, read_buffers-Reads}

module _ {S : Type 0} ⦃ops : FileOps S⦄ where
  -- A program that reads the data of an element with a buffer of `size` bytes, in no more rounds
  -- than the element has bytes and one.
  abbrev pub read_data : ℕ → Key → ℕ → ℕ → M S (List ℕ)
  read_data size key llen len =
      open_essence_element_read key llen len >>= (λ e. read_buffers (len + 1) size e)

  -- A program that reads the header of an element and then its data.
  abbrev pub read_essence_element : ℕ → M S (Key × List ℕ)
  read_essence_element size = do
    (key, llen, len) ← read_kl
    d ← read_data size key llen len
    give (key, d)

  module _ (laws : ByteFile ops) where
    open-Ran :
        (f : MxfFile S) (key : Key) (llen len : ℕ)
        → IsOpen laws f
        → Ran laws f
            (open_essence_element_read key llen len f)
            (record (opened key llen (length (laws.view f.sys).before)) { total_len = len })
            (laws.view f.sys)
    unfolding open_essence_element_read
    open-Ran f key llen len o =
        let t = file_tell-Ran laws f o in
        Ran-bind laws (file_tell f) _ t (record {
          file = t.file;
          result = refl;
          is_open = t.is_open;
          llen = refl;
          runin = refl;
          bytes = t.bytes;
        })

    read_data-Reads :
        (size : ℕ) (key : Key) (llen : ℕ) (d : List ℕ)
        → 0 < size
        → size < 2 ^ 32
        → length d + 2 ^ 32 < 2 ^ 64
        → Reads laws (read_data size key llen (length d)) d d
    read_data-Reads size key llen d z k h f rest o v =
        let r = open-Ran f key llen (length d) o in
        Ran-bind laws (open_essence_element_read key llen (length d) f) _ r (
          Ran-view laws (ap (λ (u : View). record { before = u.before ++ d; after = rest }) r.bytes)
            (read_buffers-Reads laws (length d + 1) size 0 _ d (omega arith) z k
              (omega arith, omega arith) (omega arith) h r.file rest r.is_open
              (ap (λ (u : View). u.after) r.bytes ∙ v)))

    -- On an open file, an element that is opened with any length, written in buffers and
    -- finalized, and then read again with a buffer of any size that is not 0, has its key and all
    -- the bytes of the buffers, and the file has the key, the true length and these bytes. The key
    -- has 16 octets, both lengths fit the length field, each buffer and the reader's have fewer
    -- than 2 to the 32 bytes, the length is below 2 to the 64 less 2 to the 32, the position of
    -- the length field is below 2 to the 63, and that of the end of the data below 2 to the 64.
    pub essence_element_round_trip :
        (f : MxfFile S) (key : Key) (llen len size : ℕ) (buffers : List (List ℕ))
        → IsOpen laws f
        → IsKey key
        → Buffers buffers
        → Fits llen len
        → Fits llen (length (joined buffers))
        → length (joined buffers) + 2 ^ 32 < 2 ^ 64
        → 0 < size
        → size < 2 ^ 32
        → length (laws.view f.sys).before + 16 < 2 ^ 63
        → length (laws.view f.sys).before + length (joined buffers) < 2 ^ 64
        → Wrote laws f
            (replay (write_essence_element key llen len buffers) (read_essence_element size) f)
            (key, joined buffers)
            (key ++ (ber llen (length (joined buffers)) ++ joined buffers))
    essence_element_round_trip f key llen len size buffers o k hb fits fits' h z kz small room =
        let d = joined buffers in
        let l = ber llen (length d) in
        replay-WritesAt laws f (key ++ (l ++ d)) o
          (λ g og _ _ e.
            let same : length (laws.view g.sys).before ≡ length (laws.view f.sys).before =
              ap (λ (u : View). length u.before) e in
            subst
              (λ p.
                Wrote laws g (write_essence_element key llen len buffers g)
                  (grown (length d) (opened key llen p)) (key ++ (l ++ d)))
              same
              (write_essence_element-Wrote laws g key llen len buffers og k hb fits fits'
                (omega (arith, same)) (omega (arith, same))))
          (subst (Reads laws (read_essence_element size) (key, d)) (append_assoc key l d) (
            Reads-bind laws read_kl _ (key ++ l) d (read_kl-Reads laws key llen (length d) k fits')
              (Reads-give laws (read_data size key llen (length d)) (λ x. (key, x)) d
                (read_data-Reads size key llen d z kz h))))
