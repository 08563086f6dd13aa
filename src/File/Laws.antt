-- ===== src/File/Laws.antt =====
-- What a function of mxf/mxf_file.c does to the byte file behind the function table.
pub mod Primitives
pub mod Words
pub mod Length
pub mod Klv
pub mod Skip
pub mod Replay
pub mod RoundTrip
use ebu_libmxf.Base.{
  ℕ, ◌+◌, ◌≤◌, ◌≡◌, refl, sym, ap, ap₂, ◌∙◌, List, ◌++◌, length, drop, length-append, drop-drop,
  append_assoc, arith,
}
use ebu_libmxf.File.Ops.{FileOps, View, ByteFile, put}
use ebu_libmxf.File.Monad.{MxfFile, M, Outcome, done, failed, continue, ◌>>=◌}
use ebu_libmxf.File.Skip.{max_zeros_buffer_size}

pub put-put : (bs cs : List ℕ) (v : View) → put cs (put bs v) ≡ put (bs ++ cs) v
put-put bs cs v = λ i. record { before = front i; after = back i }
  where
    front : (v.before ++ bs) ++ cs ≡ v.before ++ (bs ++ cs)
    front = append_assoc v.before bs cs

    back : drop (length cs) (drop (length bs) v.after) ≡ drop (length (bs ++ cs)) v.after
    back =
        drop-drop (length bs) (length cs) v.after
        ∙ ap (λ (k : ℕ). drop k v.after) (sym (length-append bs cs))

module _ {S : Type 0} ⦃ops : FileOps S⦄ (laws : ByteFile ops) where
  -- A file that the functions can work on.
  pub record IsOpen (f : MxfFile S) : Type 0 where
    pub is_ready : laws.Ready f.sys
    pub small_zeros : f.zeros_size ≤ max_zeros_buffer_size

  -- The outcome is a success with the result `a`, and the byte file has become `v`.
  pub record Ran {A : Type 0} (f : MxfFile S) (o : Outcome S A) (a : A) (v : View) : Type 0 where
    pub file : MxfFile S
    pub result : o ≡ done a file
    pub is_open : IsOpen file
    pub llen : file.min_llen ≡ f.min_llen
    pub runin : file.runin_len ≡ f.runin_len
    pub bytes : laws.view file.sys ≡ v

  -- The outcome is a success with the result `a`, and the bytes `bs` have been written.
  abbrev pub Wrote : {A : Type 0} → MxfFile S → Outcome S A → A → List ℕ → Type 0
  Wrote f o a bs = Ran f o a (put bs (laws.view f.sys))

  -- The outcome is a success with the result `a`, and the bytes `bs` have been read.
  abbrev pub Read : {A : Type 0} → MxfFile S → Outcome S A → A → List ℕ → List ℕ → Type 0
  Read f o a bs rest = Ran f o a (record { before = (laws.view f.sys).before ++ bs; after = rest })

  -- A program that writes `bs`, on every open file with the minimum length `ml`.
  abbrev pub Writes : {A : Type 0} → ℕ → M S A → A → List ℕ → Type 0
  Writes ml m a bs = (f : MxfFile S) → IsOpen f → f.min_llen ≡ ml → Wrote f (m f) a bs

  -- A program that reads `bs`, on every open file that has them next.
  abbrev pub Reads : {A : Type 0} → M S A → A → List ℕ → Type 0
  Reads m a bs =
      (f : MxfFile S) (rest : List ℕ)
      → IsOpen f
      → (laws.view f.sys).after ≡ bs ++ rest
      → Read f (m f) a bs rest

  -- The rule of sequence.
  pub Ran-bind :
      {A B : Type 0} {f : MxfFile S} (o : Outcome S A) {a : A} {v w : View} {b : B} (k : A → M S B)
      → (r : Ran f o a v) → Ran r.file (k a r.file) b w
      → Ran f (continue o k) b w
  Ran-bind o k r t = record {
    file = t.file;
    result = ap (λ x. continue x k) r.result ∙ t.result;
    is_open = t.is_open;
    llen = t.llen ∙ r.llen;
    runin = t.runin ∙ r.runin;
    bytes = t.bytes;
  }

  pub Ran-view :
      {A : Type 0} {f : MxfFile S} {o : Outcome S A} {a : A} {v w : View}
      → v ≡ w
      → Ran f o a v
      → Ran f o a w
  Ran-view e r = record {
    file = r.file;
    result = r.result;
    is_open = r.is_open;
    llen = r.llen;
    runin = r.runin;
    bytes = r.bytes ∙ e;
  }

  pub Writes-bind :
      {A B : Type 0} (ml : ℕ) (m : M S A) (k : A → M S B) (bs cs : List ℕ) {a : A} {b : B}
      → Writes ml m a bs
      → Writes ml (k a) b cs
      → Writes ml (m >>= k) b (bs ++ cs)
  Writes-bind ml m k bs cs p q f o e =
      let r = p f o e in
      let t = q r.file r.is_open (r.llen ∙ e) in
      Ran-bind (m f) k r (Ran-view (ap (put cs) r.bytes ∙ put-put bs cs (laws.view f.sys)) t)

  pub Reads-bind :
      {A B : Type 0} (m : M S A) (k : A → M S B) (bs cs : List ℕ) {a : A} {b : B}
      → Reads m a bs
      → Reads (k a) b cs
      → Reads (m >>= k) b (bs ++ cs)
  Reads-bind m k bs cs p q f rest o e =
      let r = p f (cs ++ rest) o (e ∙ append_assoc bs cs rest) in
      let t = q r.file rest r.is_open (ap (λ v. v.after) r.bytes) in
      Ran-bind (m f) k r (
        Ran-view
          (λ i. record {
            before =
                (ap (λ (v : View). v.before ++ cs) r.bytes
                    ∙ append_assoc (laws.view f.sys).before bs cs)
                  i;
            after = rest;
          })
          t)
