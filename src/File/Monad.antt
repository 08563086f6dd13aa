-- ===== src/File/Monad.antt =====
-- mxf/mxf_file.h and mxf/mxf_macros.h: the `MXFFile`, and the functions of it that return 1 or 0.
-- A function that fails with `return 0` still leaves the file where its calls have brought it.
use ebu_libmxf.Base.{ℕ, Bool, not, Option, none, some, List, length, ◌==◌, if◌then◌else◌}
use ebu_libmxf.Base.Int.{ℤ}
use ebu_libmxf.File.Ops.{FileOps, Whence}

-- `sys` is the implementation's `sysData`. The zeros buffer holds `zeros_size` zeros.
pub record MxfFile (S : Type 0) : Type 0 where
  pub sys : S
  pub min_llen : ℕ
  pub runin_len : ℕ
  pub zeros_size : ℕ

pub data Outcome (S A : Type 0) : Type 0 where
  done : A → MxfFile S → Outcome S A
  failed : MxfFile S → Outcome S A

abbrev pub M : Type 0 → Type 0 → Type 0
M S A = MxfFile S → Outcome S A

abbrev pub continue : {S A B : Type 0} → Outcome S A → (A → M S B) → Outcome S B
continue (done a f) k = k a f
continue (failed f) k = failed f

infixl 5 ◌>>=◌ ◌>>◌
abbrev pub ◌>>=◌ : {S A B : Type 0} → M S A → (A → M S B) → M S B
◌>>=◌ m k f = continue (m f) k

abbrev pub ◌>>◌ : {S A B : Type 0} → M S A → M S B → M S B
◌>>◌ m k f = continue (m f) (λ _. k)

abbrev pub give : {S A : Type 0} → A → M S A
give a f = done a f

abbrev pub fail : {S A : Type 0} → M S A
fail f = failed f

-- CHK_ORET of a condition; an `assert` that fails ends the program, and is a failure too.
abbrev pub check : {S : Type 0} → Bool → M S (Unit {0})
check b = if b then give tt else fail

module _ {S : Type 0} ⦃ops : FileOps S⦄ where
  unfoldable pub file_read : MxfFile S → ℕ → List ℕ × MxfFile S
  file_read f n = let (bs, s) = ops.read f.sys n in (bs, record f { sys = s })

  unfoldable pub file_write : MxfFile S → List ℕ → ℕ × MxfFile S
  file_write f bs = let (n, s) = ops.write f.sys bs in (n, record f { sys = s })

  unfoldable pub file_getc : MxfFile S → Option ℕ × MxfFile S
  file_getc f = let (c, s) = ops.get_char f.sys in (c, record f { sys = s })

  unfoldable pub file_putc : MxfFile S → ℕ → Option ℕ × MxfFile S
  file_putc f c = let (r, s) = ops.put_char f.sys c in (r, record f { sys = s })

  unfoldable pub file_seek : ℤ → Whence → M S (Unit {0})
  file_seek offset whence f =
      let (r, s) = ops.seek f.sys offset whence in
      let f' : MxfFile S = record f { sys = s } in if r then done tt f' else failed f'

  unfoldable pub file_tell : M S ℕ
  file_tell f = elim (ops.tell f.sys) [ some p ↦ done p f | none ↦ failed f ]

  unfoldable pub file_is_seekable : MxfFile S → Bool
  file_is_seekable f = ops.is_seekable f.sys

  -- CHK_ORET(mxf_file_read(f, buffer, n) == n), which leaves the bytes in the buffer.
  unfoldable pub read_exactly : ℕ → M S (List ℕ)
  unfolding file_read
  read_exactly n f =
      let (bs, f') = file_read f n in if length bs == n then done bs f' else failed f'

  -- CHK_ORET(mxf_file_write(f, buffer, n) == n) of a buffer of `n` bytes.
  unfoldable pub write_exactly : List ℕ → M S (Unit {0})
  unfolding file_write
  write_exactly bs f =
      let (n, f') = file_write f bs in if n == length bs then done tt f' else failed f'

  -- CHK_ORET((c = mxf_file_getc(f)) != EOF)
  unfoldable pub getc_ok : M S ℕ
  unfolding file_getc
  getc_ok f = let (c, f') = file_getc f in elim c [ some b ↦ done b f' | none ↦ failed f' ]

  -- CHK_ORET(mxf_file_putc(f, c) == c)
  unfoldable pub putc_ok : ℕ → M S (Unit {0})
  unfolding file_putc
  putc_ok c f =
      let (r, f') = file_putc f c in
      elim r [ some d ↦ if d == c then done tt f' else failed f' | none ↦ failed f' ]

  unfoldable pub set_min_llen : ℕ → M S (Unit {0})
  set_min_llen llen f = done tt (record f { min_llen = llen })

  unfoldable pub set_runin_len : ℕ → M S (Unit {0})
  set_runin_len n f = done tt (record f { runin_len = n })

unfoldable pub get_min_llen : {S : Type 0} → MxfFile S → ℕ
get_min_llen f = if not (f.min_llen == 0) then f.min_llen else 1
