-- ===== src/File/Laws/Primitives.antt =====
-- The checked calls of the function table: `read_exactly`, `write_exactly`, `getc_ok`, `putc_ok`,
-- `file_tell` and `file_seek`.
use ebu_libmxf.Base.{
  ℕ, ◌≤◌, ◌<◌, ◌^◌, ◌≡◌, refl, sym, ◌∙◌, Bool, true, List, [], ◌∷◌, ◌++◌, length, take, drop,
  take-append_at, drop-append_at, ==_self, append-nil,
}
use ebu_libmxf.Base.Int.{pos}
use ebu_libmxf.File.Ops.{FileOps, ByteFile, forward, at, contents, seek_set}
use ebu_libmxf.File.Monad.{
  MxfFile, M, failed, give, check, file_seek, file_tell, read_exactly, write_exactly, getc_ok,
  putc_ok, ◌>>=◌,
}
use ebu_libmxf.File.Laws.{IsOpen, Ran, Writes, Reads, Writes-bind, Reads-bind}

module _ {S : Type 0} ⦃ops : FileOps S⦄ (laws : ByteFile ops) where
  pub give-Writes : {A : Type 0} (ml : ℕ) (a : A) → Writes laws ml (give a) a []
  give-Writes ml a f o e = record {
    file = f;
    result = refl;
    is_open = o;
    llen = refl;
    runin = refl;
    bytes = λ i. record {
      before = sym (append-nil (laws.view f.sys).before) i;
      after = (laws.view f.sys).after;
    };
  }

  pub write_exactly-Writes :
      (ml : ℕ) (bs : List ℕ) → length bs < 2 ^ 32 → Writes laws ml (write_exactly bs) tt bs
  unfolding write_exactly
  write_exactly-Writes ml bs h f o e = record {
    file = record f { sys = (ops.write f.sys bs).1 };
    result = rw (laws.write_count f.sys bs o.is_ready h, ==_self (length bs));
    is_open = record {
      is_ready = laws.write_ready f.sys bs o.is_ready h;
      small_zeros = o.small_zeros;
    };
    llen = refl;
    runin = refl;
    bytes = laws.write_view f.sys bs o.is_ready h;
  }

  pub read_exactly-Reads :
      (bs : List ℕ) (n : ℕ) → n ≡ length bs → n < 2 ^ 32 → Reads laws (read_exactly n) bs bs
  unfolding read_exactly
  read_exactly-Reads bs n en h f rest o e = record {
    file = record f { sys = (ops.read f.sys n).1 };
    result = rw (got, ← en, ==_self n);
    is_open = record { is_ready = laws.read_ready f.sys n o.is_ready; small_zeros = o.small_zeros };
    llen = refl;
    runin = refl;
    bytes = laws.read_view f.sys n o.is_ready h ∙ view_eq;
  }
    where
      taken : take n (laws.view f.sys).after ≡ bs
      taken = rw e (take-append_at n bs rest en)

      got : (ops.read f.sys n).0 ≡ bs
      got = laws.read_bytes f.sys n o.is_ready h ∙ taken

      left : drop n (laws.view f.sys).after ≡ rest
      left = rw e (drop-append_at n bs rest en)

      view_eq :
          forward n (laws.view f.sys)
          ≡ record { before = (laws.view f.sys).before ++ bs; after = rest }
      view_eq = λ i. record { before = (laws.view f.sys).before ++ taken i; after = left i }

  pub give-Reads : {A : Type 0} (a : A) → Reads laws (give a) a []
  give-Reads a f rest o e = record {
    file = f;
    result = refl;
    is_open = o;
    llen = refl;
    runin = refl;
    bytes = λ i. record { before = sym (append-nil (laws.view f.sys).before) i; after = e i };
  }

  pub check-Writes : (ml : ℕ) (b : Bool) → b ≡ true → Writes laws ml (check b) tt []
  check-Writes ml b h = rw h (give-Writes ml tt)

  pub check-Reads : (b : Bool) → b ≡ true → Reads laws (check b) tt []
  check-Reads b h = rw h (give-Reads tt)

  pub putc_ok-Writes : (ml c : ℕ) → c < 256 → Writes laws ml (putc_ok c) tt (c ∷ [])
  unfolding putc_ok
  putc_ok-Writes ml c h f o e = record {
    file = record f { sys = (ops.put_char f.sys c).1 };
    result = rw (laws.put_char_byte f.sys c o.is_ready h, putc_ok, ==_self c);
    is_open = record {
      is_ready = laws.put_char_ready f.sys c o.is_ready h;
      small_zeros = o.small_zeros;
    };
    llen = refl;
    runin = refl;
    bytes = laws.put_char_view f.sys c o.is_ready h;
  }

  pub getc_ok-Reads : (c : ℕ) → Reads laws getc_ok c (c ∷ [])
  unfolding getc_ok
  getc_ok-Reads c f rest o e = record {
    file = record f { sys = (ops.get_char f.sys).1 };
    result = rw (laws.get_char_byte f.sys o.is_ready, getc_ok, e);
    is_open = record {
      is_ready = laws.get_char_ready f.sys o.is_ready;
      small_zeros = o.small_zeros;
    };
    llen = refl;
    runin = refl;
    bytes =
        laws.get_char_view f.sys o.is_ready
        ∙ (λ i. record { before = (laws.view f.sys).before ++ take 1 (e i); after = drop 1 (e i) });
  }

  -- At the end of the bytes, getc fails.
  pub getc_ok-end :
      (f : MxfFile S)
      → IsOpen laws f
      → (laws.view f.sys).after ≡ []
      → getc_ok f ≡ failed (record f { sys = (ops.get_char f.sys).1 })
  unfolding getc_ok
  getc_ok-end f o e = rw (laws.get_char_byte f.sys o.is_ready, getc_ok, e)

  pub file_tell-Ran :
      (f : MxfFile S)
      → IsOpen laws f
      → Ran laws f (file_tell f) (length (laws.view f.sys).before) (laws.view f.sys)
  unfolding file_tell
  file_tell-Ran f o = record {
    file = f;
    result = rw (laws.tell_position f.sys o.is_ready, file_tell);
    is_open = o;
    llen = refl;
    runin = refl;
    bytes = refl;
  }

  pub file_seek_set-Ran :
      (f : MxfFile S) (p : ℕ)
      → IsOpen laws f
      → p ≤ length (contents (laws.view f.sys))
      → Ran laws f (file_seek (pos p) seek_set f) tt (at p (laws.view f.sys))
  unfolding file_seek
  file_seek_set-Ran f p o h = record {
    file = record f { sys = (ops.seek f.sys (pos p) seek_set).1 };
    result = rw (laws.seek_set_ok f.sys p o.is_ready h);
    is_open = record {
      is_ready = laws.seek_set_ready f.sys p o.is_ready h;
      small_zeros = o.small_zeros;
    };
    llen = refl;
    runin = refl;
    bytes = laws.seek_set_view f.sys p o.is_ready h;
  }

  -- A program that ends in a `give`.
  pub Reads-give :
      {A B : Type 0} (m : M S A) (g : A → B) (bs : List ℕ) {a : A}
      → Reads laws m a bs
      → Reads laws (m >>= λ x. give (g x)) (g a) bs
  Reads-give m g bs {a} p =
      rw append-nil at (Reads-bind laws m (λ x. give (g x)) bs [] p (give-Reads (g a)))

  pub Writes-give :
      {A B : Type 0} (ml : ℕ) (m : M S A) (g : A → B) (bs : List ℕ) {a : A}
      → Writes laws ml m a bs
      → Writes laws ml (m >>= λ x. give (g x)) (g a) bs
  Writes-give ml m g bs {a} p =
      rw append-nil at (Writes-bind laws ml m (λ x. give (g x)) bs [] p (give-Writes ml (g a)))

  -- Bytes that are written in another way.
  pub Reads-bytes :
      {A : Type 0} {m : M S A} {a : A} {bs cs : List ℕ}
      → bs ≡ cs
      → Reads laws m a bs
      → Reads laws m a cs
  Reads-bytes e r = rw (← e) r

  pub Writes-bytes :
      {A : Type 0} {m : M S A} {a : A} {bs cs : List ℕ} (ml : ℕ)
      → bs ≡ cs
      → Writes laws ml m a bs
      → Writes laws ml m a cs
  Writes-bytes ml e r = rw (← e) r

  pub give-Ran :
      {A : Type 0} (f : MxfFile S) (a : A)
      → IsOpen laws f
      → Ran laws f (give a f) a (laws.view f.sys)
  give-Ran f a o = record {
    file = f;
    result = refl;
    is_open = o;
    llen = refl;
    runin = refl;
    bytes = refl;
  }
