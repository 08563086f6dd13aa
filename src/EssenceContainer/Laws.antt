-- ===== src/EssenceContainer/Laws.antt =====
-- Writing an essence element with mxf/mxf_essence_container.c.
use ebu_libmxf.Base.{
  ℕ, ◌+◌, ◌≤◌, ◌<◌, ◌^◌, ◌%◌, ◌≡◌, refl, sym, ap, ap₂, ◌∙◌, subst, Bool, true, List, [], ◌∷◌, ◌++◌,
  length, drop, take-append, drop-append, take-append_at, drop-append_at, length-append,
  append_assoc, append-nil, arith, if◌then◌else◌, ==_self, lt→ltb,
}
use ebu_libmxf.Base.Int.{pos, to_int64}
use ebu_libmxf.File.Ops.{FileOps, View, ByteFile, put, at, contents, seek_set}
use ebu_libmxf.File.Monad.{
  MxfFile, M, done, give, fail, ◌>>=◌, ◌>>◌, file_write, file_seek, file_tell,
}
use ebu_libmxf.File.Length.{write_fixed_l}
use ebu_libmxf.File.Klv.{Key, IsKey, write_k}
use ebu_libmxf.File.Laws.{IsOpen, Ran, Wrote, Writes, Ran-bind, Ran-view, Writes-bind, put-put}
use ebu_libmxf.File.Laws.Primitives.{file_tell-Ran, file_seek_set-Ran, give-Writes}
use ebu_libmxf.File.Laws.Length.{Fits, ber, length-ber, write_fixed_l-Writes}
use ebu_libmxf.File.Laws.Klv.{write_k-Writes}
use ebu_libmxf.EssenceContainer.Defs.{
  EssenceElement, open_essence_element_write, write_essence_element_data,
  finalize_essence_element_write,
}

-- All the bytes of some buffers.
abbrev pub joined : List (List ℕ) → List ℕ
joined [] = []
joined (bs ∷ rest) = bs ++ joined rest

abbrev pub Buffers : List (List ℕ) → Type 0
Buffers [] = Unit
Buffers (bs ∷ rest) = (length bs < 2 ^ 32) × Buffers rest

-- The element after that many more bytes.
abbrev pub grown : ℕ → EssenceElement → EssenceElement
grown n e = record e { total_len = e.total_len + n; current_file_pos = e.current_file_pos + n }

module _ {S : Type 0} ⦃ops : FileOps S⦄ where
  abbrev pub or_fail : Bool × EssenceElement → M S EssenceElement
  or_fail (ok, e) = if ok then give e else fail

  -- A program that writes the buffers in turn, and stops at the first failure.
  abbrev pub write_each : EssenceElement → List (List ℕ) → M S EssenceElement
  write_each e [] = give e
  write_each e (bs ∷ rest) = do
    r ← write_essence_element_data e bs
    e' ← or_fail r
    write_each e' rest

  abbrev pub write_essence_element : Key → ℕ → ℕ → List (List ℕ) → M S EssenceElement
  write_essence_element key llen len buffers = do
    e ← open_essence_element_write key llen len
    e' ← write_each e buffers
    finalize_essence_element_write e'
    give e'

  module _ (laws : ByteFile ops) where
    -- The counters of the element do not wrap around.
    abbrev pub Room : ℕ → EssenceElement → Type 0
    Room n e = (e.total_len + n < 2 ^ 64) × (e.current_file_pos + n < 2 ^ 64)

    same_counts :
        (e : EssenceElement) (t t' c c' : ℕ)
        → t ≡ t'
        → c ≡ c'
        → (record e { total_len = t; current_file_pos = c })
          ≡ (record e { total_len = t'; current_file_pos = c' })
    same_counts e t t' c c' p q = ap₂ (λ a b. record e { total_len = a; current_file_pos = b }) p q

    write_data-Writes :
        (ml : ℕ) (e : EssenceElement) (bs : List ℕ)
        → length bs < 2 ^ 32
        → Room (length bs) e
        → Writes laws ml (write_essence_element_data e bs) (true, grown (length bs) e) bs
    unfolding write_essence_element_data file_write
    write_data-Writes ml e bs h (t, c) f o q = record {
      file = record f { sys = (ops.write f.sys bs).1 };
      result =
          rw (laws.write_count f.sys bs o.is_ready h, ==_self (length bs))
            (ap (λ u. done (true, u) (record f { sys = (ops.write f.sys bs).1 }))
              (same_counts e _ _ _ _ (omega arith) (omega arith)));
      is_open = record {
        is_ready = laws.write_ready f.sys bs o.is_ready h;
        small_zeros = o.small_zeros;
      };
      llen = refl;
      runin = refl;
      bytes = laws.write_view f.sys bs o.is_ready h;
    }

    write_each-Writes :
        (ml : ℕ) (e : EssenceElement) (buffers : List (List ℕ))
        → Buffers buffers
        → Room (length (joined buffers)) e
        → Writes laws ml (write_each e buffers) (grown (length (joined buffers)) e) (joined buffers)
    write_each-Writes ml e [] h r =
        subst (λ u. Writes laws ml (give e) u [])
          (same_counts e _ _ _ _ (omega arith) (omega arith)) (give-Writes laws ml e)
    write_each-Writes ml e (bs ∷ rest) (h, hs) (t, c) =
        let n = length-append bs (joined rest) in
        Writes-bind laws ml (write_essence_element_data e bs) _ bs (joined rest)
          (write_data-Writes ml e bs h (omega arith, omega arith))
          (subst (λ u. Writes laws ml (write_each (grown (length bs) e) rest) u (joined rest))
            (same_counts e _ _ _ _ (omega arith) (omega arith))
            (write_each-Writes ml (grown (length bs) e) rest hs (omega arith, omega arith)))

-- An element that has just been opened for writing at the position `p`.
abbrev pub opened : Key → ℕ → ℕ → EssenceElement
opened key llen p = record {
  key = key;
  llen = llen;
  start_file_pos = p % 2 ^ 64;
  current_file_pos = p % 2 ^ 64;
  total_len = 0;
}

-- Writing over the middle of what has been written, and going back to the end of it.
over :
    (a h h' b r : List ℕ)
    → length h' ≡ length h
    → put h' (at (length a) (record { before = a ++ (h ++ b); after = r }))
      ≡ record { before = a ++ h'; after = b ++ r }
over a h h' b r e =
    rw
      (
        whole,
        take-append a (h ++ (b ++ r)),
        drop-append a (h ++ (b ++ r)),
        drop-append_at (length h') h (b ++ r) e,
      )
      refl
  where
    whole : (a ++ (h ++ b)) ++ r ≡ a ++ (h ++ (b ++ r))
    whole = append_assoc a (h ++ b) r ∙ ap (λ v. a ++ v) (append_assoc h b r)

back :
    (a h h' b r : List ℕ)
    → length h' ≡ length h
    → at (length (a ++ (h ++ b))) (record { before = a ++ h'; after = b ++ r })
      ≡ record { before = a ++ (h' ++ b); after = r }
back a h h' b r e =
    rw (whole, take-append_at _ (a ++ (h' ++ b)) r same, drop-append_at _ (a ++ (h' ++ b)) r same)
      refl
  where
    whole : (a ++ h') ++ (b ++ r) ≡ (a ++ (h' ++ b)) ++ r
    whole =
        append_assoc a h' (b ++ r)
        ∙ ap (λ v. a ++ v) (sym (append_assoc h' b r))
        ∙ sym (append_assoc a (h' ++ b) r)

    same : length (a ++ (h ++ b)) ≡ length (a ++ (h' ++ b))
    same = omega (
      arith,
      e,
      length-append a (h ++ b),
      length-append h b,
      length-append a (h' ++ b),
      length-append h' b,
    )

module _ {S : Type 0} ⦃ops : FileOps S⦄ (laws : ByteFile ops) where
  module _ (f : MxfFile S) (o : IsOpen laws f) (e : EssenceElement) (a h b r : List ℕ)
      (v : laws.view f.sys ≡ record { before = a ++ (h ++ b); after = r })
      (start : length a ≡ e.start_file_pos + 16) (small : e.start_file_pos + 16 < 2 ^ 63)
      (old : length h ≡ e.llen) (fits : Fits e.llen e.total_len) where
    offset : to_int64 ((e.start_file_pos + 16) % 2 ^ 64) ≡ pos (length a)
    offset =
        let once : (e.start_file_pos + 16) % 2 ^ 64 ≡ length a = omega arith in
        rw (once, lt→ltb (length a) (2 ^ 63) (omega arith)) refl

    finalize-Ran :
        Ran laws f
          (finalize_essence_element_write e f)
          tt
          (record { before = a ++ (ber e.llen e.total_len ++ b); after = r })
    unfolding finalize_essence_element_write
    finalize-Ran =
        let field = ber e.llen e.total_len in
        let p = length (laws.view f.sys).before in
        let len : length field ≡ length h = length-ber e.llen e.total_len ∙ sym old in
        let t = file_tell-Ran laws f o in
        let tv : laws.view t.file.sys ≡ record { before = a ++ (h ++ b); after = r } =
          t.bytes ∙ v in
        let s = file_seek_set-Ran laws t.file (length a) t.is_open (
          subst (λ u. length a ≤ length (contents u)) (sym tv)
            (omega (arith, length-append (a ++ (h ++ b)) r, length-append a (h ++ b)))) in
        let w =
          write_fixed_l-Writes laws s.file.min_llen e.llen e.total_len fits s.file s.is_open refl in
        let wv : laws.view w.file.sys ≡ record { before = a ++ field; after = b ++ r } =
          w.bytes ∙ ap (put field) (s.bytes ∙ ap (at (length a)) tv) ∙ over a h field b r len in
        let pe : p ≡ length (a ++ (h ++ b)) = ap (λ (u : View). length u.before) v in
        let z = file_seek_set-Ran laws w.file p w.is_open (
          subst (λ u. p ≤ length (contents u)) (sym wv)
            (omega (
              arith,
              pe,
              len,
              length-append a (h ++ b),
              length-append h b,
              length-append (a ++ field) (b ++ r),
              length-append a field,
              length-append b r,
            ))) in
        let final : at p (laws.view w.file.sys) ≡ record { before = a ++ (field ++ b); after = r } =
          ap₂ at pe wv ∙ back a h field b r len in
        Ran-bind laws (file_tell f) _ t (
          subst
            (λ q.
              Ran laws t.file
                ((file_seek q seek_set
                    >> (write_fixed_l e.llen e.total_len >> file_seek (pos p) seek_set))
                  t.file)
                tt (record { before = a ++ (field ++ b); after = r }))
            (sym offset)
            (Ran-bind laws (file_seek (pos (length a)) seek_set t.file) _ s (
              Ran-bind laws (write_fixed_l e.llen e.total_len s.file) _ w (Ran-view laws final z))))

  open-Wrote :
      (f : MxfFile S) (key : Key) (llen len : ℕ)
      → IsOpen laws f
      → IsKey key
      → Fits llen len
      → Wrote laws f
          (open_essence_element_write key llen len f)
          (opened key llen (length (laws.view f.sys).before))
          (key ++ ber llen len)
  unfolding open_essence_element_write
  open-Wrote f key llen len o k fits =
      let t = file_tell-Ran laws f o in
      let e = opened key llen (length (laws.view f.sys).before) in
      let w =
        Writes-bind laws t.file.min_llen (write_k key) (λ _. write_fixed_l llen len >> give e) key
          (ber llen len) (write_k-Writes laws t.file.min_llen key k)
          (subst (Writes laws t.file.min_llen (write_fixed_l llen len >> give e) e)
            (append-nil (ber llen len))
            (Writes-bind laws t.file.min_llen (write_fixed_l llen len) (λ _. give e) (ber llen len)
              [] (write_fixed_l-Writes laws t.file.min_llen llen len fits)
              (give-Writes laws t.file.min_llen e)))
          t.file t.is_open refl in
      Ran-bind laws (file_tell f) _ t (Ran-view laws (ap (put (key ++ ber llen len)) t.bytes) w)

  -- After opening, writing each buffer and finalizing, the file has the key, the number of the bytes
  -- of the buffers as the length, and these bytes.
  pub write_essence_element-Wrote :
      (f : MxfFile S) (key : Key) (llen len : ℕ) (buffers : List (List ℕ))
      → IsOpen laws f
      → IsKey key
      → Buffers buffers
      → Fits llen len
      → Fits llen (length (joined buffers))
      → length (laws.view f.sys).before + 16 < 2 ^ 63
      → length (laws.view f.sys).before + length (joined buffers) < 2 ^ 64
      → Wrote laws f
          (write_essence_element key llen len buffers f)
          (grown (length (joined buffers)) (opened key llen (length (laws.view f.sys).before)))
          (key ++ (ber llen (length (joined buffers)) ++ joined buffers))
  write_essence_element-Wrote f key llen len buffers o k hb fits fits' small room =
      let d = joined buffers in
      let v = laws.view f.sys in
      let l = ber llen len in
      let r₁ = open-Wrote f key llen len o k fits in
      let r₂ =
        write_each-Writes laws r₁.file.min_llen (opened key llen (length v.before)) buffers hb
          (omega arith, omega arith) r₁.file r₁.is_open refl in
      let q : v.before ++ ((key ++ l) ++ d) ≡ (v.before ++ key) ++ (l ++ d) =
        ap (λ z. v.before ++ z) (append_assoc key l d) ∙ sym (append_assoc v.before key (l ++ d)) in
      let none_yet : 0 + length d ≡ length d = omega arith in
      let l' = ber llen (length d) in
      let q' : (v.before ++ key) ++ (ber llen (0 + length d) ++ d)
          ≡ v.before ++ (key ++ (l' ++ d)) =
        ap (λ z. (v.before ++ key) ++ (ber llen z ++ d)) none_yet
        ∙ append_assoc v.before key (l' ++ d) in
      let n : length ((key ++ l) ++ d) ≡ length (key ++ (l' ++ d)) = omega (
        arith,
        length-append (key ++ l) d,
        length-append key l,
        length-append key (l' ++ d),
        length-append l' d,
        length-ber llen len,
        length-ber llen (length d),
      ) in
      let fv : laws.view r₂.file.sys ≡ record {
        before = (v.before ++ key) ++ (l ++ d);
        after = drop (length ((key ++ l) ++ d)) v.after;
      } =
        r₂.bytes
        ∙ ap (put d) r₁.bytes
        ∙ put-put (key ++ l) d v
        ∙ (λ i. record { before = q i; after = drop (length ((key ++ l) ++ d)) v.after }) in
      let r₃ =
        finalize-Ran r₂.file r₂.is_open (grown (length d) (opened key llen (length v.before)))
          (v.before ++ key) l d _ fv (omega (arith, length-append v.before key, k)) (omega arith)
          (length-ber llen len) (subst (Fits llen) (sym none_yet) fits') in
      Ran-bind laws (open_essence_element_write key llen len f) _ r₁ (
        Ran-bind laws (write_each (opened key llen (length v.before)) buffers r₁.file) _ r₂ (
          Ran-bind laws (finalize_essence_element_write _ r₂.file) _ r₃ (record {
            file = r₃.file;
            result = refl;
            is_open = r₃.is_open;
            llen = refl;
            runin = refl;
            bytes = r₃.bytes ∙ (λ i. record { before = q' i; after = drop (n i) v.after });
          })))
