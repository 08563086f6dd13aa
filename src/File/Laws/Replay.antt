-- ===== src/File/Laws/Replay.antt =====
-- Writing, going back and reading.
use ebu_libmxf.Base.{
  ℕ, ◌≤◌, ◌≡◌, ap, ◌∙◌, List, ◌++◌, length, take, drop, take-append, drop-append, length-append,
  append_assoc, arith,
}
use ebu_libmxf.Base.Int.{pos}
use ebu_libmxf.File.Ops.{FileOps, View, ByteFile, put, at, contents, seek_set}
use ebu_libmxf.File.Monad.{MxfFile, M, ◌>>=◌, ◌>>◌, file_tell, file_seek}
use ebu_libmxf.File.Laws.{IsOpen, Ran, Wrote, Writes, Reads, Ran-bind, Ran-view}
use ebu_libmxf.File.Laws.Primitives.{file_tell-Ran, file_seek_set-Ran}

at-put :
    (bs : List ℕ) (v : View)
    → at (length v.before) (put bs v)
      ≡ record { before = v.before; after = bs ++ drop (length bs) v.after }
at-put bs v = λ i. record {
  before = (ap (take (length v.before)) whole ∙ take-append v.before _) i;
  after = (ap (drop (length v.before)) whole ∙ drop-append v.before _) i;
}
  where
    whole : contents (put bs v) ≡ v.before ++ (bs ++ drop (length bs) v.after)
    whole = append_assoc v.before bs (drop (length bs) v.after)

module _ {S : Type 0} ⦃ops : FileOps S⦄ where
  -- Note the position, write, go back to the position, and read.
  abbrev pub replay : {A B : Type 0} → M S A → M S B → M S B
  replay write read = do p ← file_tell; _ ← write; file_seek (pos p) seek_set; read

  module _ (laws : ByteFile ops) where
    -- A program that writes `bs` on the files that are as `f`.
    abbrev pub WritesAt : {A : Type 0} → MxfFile S → M S A → A → List ℕ → Type 0
    WritesAt f m a bs =
        (g : MxfFile S)
        → IsOpen laws g
        → g.min_llen ≡ f.min_llen
        → g.runin_len ≡ f.runin_len
        → laws.view g.sys ≡ laws.view f.sys
        → Wrote laws g (m g) a bs

    -- If the reader reads what the writer writes, the round trip gives the reader's result, and
    -- leaves the file as after the writing.
    pub replay-WritesAt :
        {A B : Type 0} {write : M S A} {read : M S B} (f : MxfFile S) (bs : List ℕ) {a : A} {b : B}
        → IsOpen laws f
        → WritesAt f write a bs
        → Reads laws read b bs
        → Wrote laws f (replay write read f) b bs
    replay-WritesAt {A} {B} {write = write} {read = read} f bs {a} {b} o w r =
        Ran-bind laws (file_tell f) (rest_of write read) told (
          Ran-bind laws (write told.file) _ wrote (
            Ran-bind laws (file_seek (pos p) seek_set wrote.file) _ back (
              Ran-view laws reread
                (r back.file left back.is_open (ap (λ (v : View). v.after) there)))))
      where
        p : ℕ
        p = length (laws.view f.sys).before

        left : List ℕ
        left = drop (length bs) (laws.view f.sys).after

        rest_of : M S A → M S B → ℕ → M S B
        rest_of w' r' q = do _ ← w'; file_seek (pos q) seek_set; r'

        told : Ran laws f (file_tell f) p (laws.view f.sys)
        told = file_tell-Ran laws f o

        wrote : Wrote laws told.file (write told.file) a bs
        wrote = w told.file told.is_open told.llen told.runin told.bytes

        written : laws.view wrote.file.sys ≡ put bs (laws.view f.sys)
        written = wrote.bytes ∙ ap (put bs) told.bytes

        fits : p ≤ length (contents (laws.view wrote.file.sys))
        fits = rw written (rw length-append (rw length-append (omega arith)))

        back :
            Ran laws wrote.file
              (file_seek (pos p) seek_set wrote.file)
              tt
              (at p (laws.view wrote.file.sys))
        back = file_seek_set-Ran laws wrote.file p wrote.is_open fits

        there :
            laws.view back.file.sys
            ≡ record { before = (laws.view f.sys).before; after = bs ++ left }
        there = back.bytes ∙ ap (at p) written ∙ at-put bs (laws.view f.sys)

        reread :
            record { before = (laws.view back.file.sys).before ++ bs; after = left }
            ≡ put bs (laws.view f.sys)
        reread = ap (λ (v : View). record v { before = v.before ++ bs; after = left }) there

    pub replay-Writes :
        {A B : Type 0} {write : M S A} {read : M S B} (f : MxfFile S) (bs : List ℕ) {a : A} {b : B}
        → IsOpen laws f
        → Writes laws f.min_llen write a bs
        → Reads laws read b bs
        → Wrote laws f (replay write read f) b bs
    replay-Writes f bs o w r = replay-WritesAt f bs o (λ g og e _ _. w g og e) r
