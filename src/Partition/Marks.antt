-- ===== src/Partition/Marks.antt =====
-- The byte counts that the marks of a partition measure.
use ebu_libmxf.Base.{
  ℕ, ◌+◌, ◌-◌, ◌≡◌, ap, ◌∙◌, none, some, List, length, arith, length-append, le→leb,
}
use ebu_libmxf.File.Ops.{FileOps, View, ByteFile, put}
use ebu_libmxf.File.Monad.{MxfFile, M, file_tell, ◌>>=◌}
use ebu_libmxf.File.Laws.{IsOpen, Ran, Wrote, Writes, Ran-bind, Ran-view}
use ebu_libmxf.File.Laws.Primitives.{file_tell-Ran, give-Ran}
use ebu_libmxf.Partition.Defs.{
  Partition, distance, mark_header_start, mark_header_end, mark_index_start, mark_index_end,
}

module _ {S : Type 0} ⦃ops : FileOps S⦄ (laws : ByteFile ops) where
  -- The distance from a mark is the number of bytes written since.
  distance-Ran :
      (f : MxfFile S) (mark n : ℕ)
      → IsOpen laws f
      → length (laws.view f.sys).before ≡ mark + n
      → Ran laws f (distance (some mark) file_tell f) n (laws.view f.sys)
  distance-Ran f mark n o e = Ran-bind laws (file_tell f) _ told (
      rw (le→leb mark (length (laws.view f.sys).before) (omega arith), exact)
        (Ran-view laws told.bytes (give-Ran laws told.file n told.is_open)))
    where
      told : Ran laws f (file_tell f) (length (laws.view f.sys).before) (laws.view f.sys)
      told = file_tell-Ran laws f o

      exact : length (laws.view f.sys).before - mark ≡ n
      exact = omega arith

  -- A start that notes the position, a body that writes `bs`, and an end that measures.
  measured :
      {A : Type 0} (f : MxfFile S) (start end : Partition → M S Partition) (p q r : Partition)
      (body : M S A) (a : A) (bs : List ℕ)
      → IsOpen laws f
      → Ran laws f (start p f) q (laws.view f.sys)
      → Writes laws f.min_llen body a bs
      → ((g : MxfFile S)
          → IsOpen laws g
          → length (laws.view g.sys).before ≡ length (laws.view f.sys).before + length bs
          → Ran laws g (end q g) r (laws.view g.sys))
      → Wrote laws f ((do q' ← start p; _ ← body; end q') f) r bs
  measured f start end p q r body a bs o s w e =
      Ran-bind laws (start p f) (λ q'. body >>= (λ _. end q')) s
        (Ran-bind laws (body s.file) (λ _. end q) wrote
          (Ran-view laws view_is (e wrote.file wrote.is_open position)))
    where
      wrote : Wrote laws s.file (body s.file) a bs
      wrote = w s.file s.is_open s.llen

      view_is : laws.view wrote.file.sys ≡ put bs (laws.view f.sys)
      view_is = wrote.bytes ∙ ap (put bs) s.bytes

      position :
          length (laws.view wrote.file.sys).before ≡ length (laws.view f.sys).before + length bs
      position =
          ap (λ (v : View). length v.before) view_is ∙ length-append (laws.view f.sys).before bs

  module _ {A : Type 0} (f : MxfFile S) (p : Partition) (body : M S A) (a : A) (bs : List ℕ) where
    -- On an open file, the number of bytes that a program writes between `mark_header_start` and
    -- `mark_header_end` becomes the header byte count, and the mark is taken away; nothing else in
    -- the partition changes.
    pub mark_header-counts :
        IsOpen laws f
        → Writes laws f.min_llen body a bs
        → Wrote laws f
            ((do q ← mark_header_start p; _ ← body; mark_header_end q) f)
            (record p { header_byte_count = length bs; header_mark_in_pos = none })
            bs
    unfolding mark_header_start mark_header_end
    mark_header-counts o w =
        measured f mark_header_start mark_header_end p _ _ body a bs o
          (let told = file_tell-Ran laws f o in
            Ran-bind laws (file_tell f) _ told
              (Ran-view laws told.bytes (give-Ran laws told.file _ told.is_open)))
          w
          (λ g og e.
            let n = distance-Ran g (length (laws.view f.sys).before) (length bs) og e in
            Ran-bind laws (distance (some (length (laws.view f.sys).before)) file_tell g) _ n
              (Ran-view laws n.bytes (give-Ran laws n.file _ n.is_open)))

    -- On an open file, the number of bytes that a program writes between `mark_index_start` and
    -- `mark_index_end` becomes the index byte count, and the mark is taken away; nothing else in
    -- the partition changes.
    pub mark_index-counts :
        IsOpen laws f
        → Writes laws f.min_llen body a bs
        → Wrote laws f
            ((do q ← mark_index_start p; _ ← body; mark_index_end q) f)
            (record p { index_byte_count = length bs; index_mark_in_pos = none })
            bs
    unfolding mark_index_start mark_index_end
    mark_index-counts o w =
        measured f mark_index_start mark_index_end p _ _ body a bs o
          (let told = file_tell-Ran laws f o in
            Ran-bind laws (file_tell f) _ told
              (Ran-view laws told.bytes (give-Ran laws told.file _ told.is_open)))
          w
          (λ g og e.
            let n = distance-Ran g (length (laws.view f.sys).before) (length bs) og e in
            Ran-bind laws (distance (some (length (laws.view f.sys).before)) file_tell g) _ n
              (Ran-view laws n.bytes (give-Ran laws n.file _ n.is_open)))
