-- ===== src/File/Laws/Skip.antt =====
-- mxf_skip and mxf_write_zeros of mxf/mxf_file.c, on both kinds of file.
use ebu_libmxf.Base.{
  ℕ, zero, suc, ◌+◌, ◌-◌, ◌*◌, ◌/◌, ◌%◌, ◌^◌, ◌≤◌, ◌<◌, ◌≡◌, refl, ap, ◌∙◌, true, false, ◌⊎◌, inl,
  inr, List, [], ◌∷◌, ◌++◌, length, take, drop, replicate, ltb, leb, ◌==◌, if◌then◌else◌, arith,
  Bool-cases, ltb→lt, lt→ltb, le→ltb_false, le→leb, take-append_at, drop-append_at,
  take-append-drop, length-append, length-take, length-drop, length-replicate, replicate-append,
}
use ebu_libmxf.Base.Int.{pos}
use ebu_libmxf.File.Ops.{FileOps, ByteFile, seek_cur}
use ebu_libmxf.File.Monad.{
  MxfFile, M, give, file_seek, file_is_seekable, read_exactly, write_exactly,
}
use ebu_libmxf.File.Skip.{
  zeros_buffer_for, skip_loop, skip, skip_buffer_size, write_buffers, write_zeros_from, write_zeros,
}
use ebu_libmxf.File.Laws.{IsOpen, Ran, Writes, Reads, Writes-bind, Reads-bind}
use ebu_libmxf.File.Laws.Primitives.{
  give-Reads, give-Writes, check-Reads, read_exactly-Reads, write_exactly-Writes,
}
use native.Mathlib.Nat.{div-add-mod, mod-lt}

abbrev pub zeros : ℕ → List ℕ
zeros n = replicate n 0

-- A round takes a whole buffer, or all that is left.
chunk :
    (n len : ℕ)
    → n ≡ len
    → (((if ltb skip_buffer_size n then skip_buffer_size else n) ≡ 2048) × (2048 < len))
      ⊎ (((if ltb skip_buffer_size n then skip_buffer_size else n) ≡ len) × (len ≤ 2048))
chunk n len e = elim (Bool-cases (ltb skip_buffer_size n)) [
  | inl more ↦ inl (rw more, omega (arith, ltb→lt _ _ more))
  | inr less ↦ inr (rw less e, ground arith)
]

zeros_buffer_bounds :
    (size n : ℕ)
    → size ≤ 16384
    → (0 < zeros_buffer_for size (suc n)) × (zeros_buffer_for size (suc n) ≤ 16384)
unfolding zeros_buffer_for
zeros_buffer_bounds size n h = ground arith

module _ {S : Type 0} ⦃ops : FileOps S⦄ (laws : ByteFile ops) where
  seek_cur-Ran :
      (f : MxfFile S) (n : ℕ) (bs rest : List ℕ)
      → IsOpen laws f
      → ops.is_seekable f.sys ≡ true
      → n ≡ length bs
      → (laws.view f.sys).after ≡ bs ++ rest
      → Ran laws f
          (file_seek (pos n) seek_cur f)
          tt
          (record { before = (laws.view f.sys).before ++ bs; after = rest })
  unfolding file_seek
  seek_cur-Ran f n bs rest o seekable en e = record {
    file = record f { sys = (ops.seek f.sys (pos n) seek_cur).1 };
    result = rw (laws.seek_cur_ok f.sys n o.is_ready seekable fits);
    is_open = record {
      is_ready = laws.seek_cur_ready f.sys n o.is_ready seekable fits;
      small_zeros = o.small_zeros;
    };
    llen = refl;
    runin = refl;
    bytes =
        laws.seek_cur_view f.sys n o.is_ready seekable fits
        ∙ (λ i. record { before = (laws.view f.sys).before ++ taken i; after = left i });
  }
    where
      fits : n ≤ length (laws.view f.sys).after
      fits = rw (e, length-append) (omega arith)

      taken : take n (laws.view f.sys).after ≡ bs
      taken = rw e (take-append_at n bs rest en)

      left : drop n (laws.view f.sys).after ≡ rest
      left = rw e (drop-append_at n bs rest en)

  -- With `total` bytes read, the loop reads the `bs` that are left.
  skip_loop-Reads :
      (fuel len total : ℕ) (bs : List ℕ)
      → len ≡ total + length bs
      → (length bs + 2047) / 2048 ≤ fuel
      → Reads laws (skip_loop fuel len total) tt bs
  unfolding skip_loop
  skip_loop-Reads zero len total [] e h =
      check-Reads laws (leb len total) (le→leb len total (omega arith))
  skip_loop-Reads zero len total (b ∷ bs) e h = absurd (omega arith)
  skip_loop-Reads (suc fuel) len total [] e h =
      rw (le→ltb_false total len (omega arith)) (give-Reads laws tt)
  skip_loop-Reads (suc fuel) len total (b ∷ bs) e h = rw (lt→ltb total len (omega arith)) (
      rw whole at (
        Reads-bind laws (read_exactly num) (λ _. skip_loop fuel len (total + num)) (take num xs)
          (drop num xs)
          (read_exactly-Reads laws (take num xs) num (omega (arith, size, length-take num xs))
            (omega (arith, size)))
          (skip_loop-Reads fuel len (total + num) (drop num xs)
            (omega (arith, size, length-drop num xs)) (omega (arith, size, length-drop num xs)))))
    where
      xs : List ℕ
      xs = b ∷ bs

      num : ℕ
      num = if ltb skip_buffer_size (len - total) then skip_buffer_size else len - total

      size : ((num ≡ 2048) × (2048 < length xs)) ⊎ ((num ≡ length xs) × (length xs ≤ 2048))
      size = chunk (len - total) (length xs) (omega arith)

      whole : take num xs ++ drop num xs ≡ xs
      whole = take-append-drop num xs

  pub skip-Reads : (n : ℕ) (bs : List ℕ) → n ≡ length bs → n < 2 ^ 63 → Reads laws (skip n) tt bs
  unfolding skip file_is_seekable
  skip-Reads n bs en h f rest o e = elim (Bool-cases (ops.is_seekable f.sys)) [
    | inl s ↦ rw (s, lt→ltb n (2 ^ 63) h) (seek_cur-Ran f n bs rest o s en e)
    | inr s ↦ rw s (skip_loop-Reads (n / 2048 + 1) n 0 bs (omega arith) (omega arith) f rest o e)
  ]

  write_buffers-Writes :
      (ml n size : ℕ) → size < 2 ^ 32 → Writes laws ml (write_buffers n size) tt (zeros (n * size))
  unfolding write_buffers
  write_buffers-Writes ml zero size h =
      let e : 0 * size ≡ 0 = omega arith in rw e (give-Writes laws ml tt)
  write_buffers-Writes ml (suc n) size h = rw e at (
      Writes-bind laws ml (write_exactly (zeros size)) (λ _. write_buffers n size) (zeros size)
        (zeros (n * size)) (write_exactly-Writes laws ml (zeros size) (rw length-replicate h))
        (write_buffers-Writes ml n size h))
    where
      e : zeros size ++ zeros (n * size) ≡ zeros (suc n * size)
      e = replicate-append size (n * size) 0 ∙ ap zeros (omega arith)

  write_zeros_from-Writes :
      (ml size len : ℕ)
      → size < 2 ^ 32
      → 0 < size
      → Writes laws ml (write_zeros_from size len) tt (zeros len)
  unfolding write_zeros_from
  write_zeros_from-Writes ml size len h p = rw e at (
      Writes-bind laws ml (write_buffers (len / size) size) (λ _. tail) (zeros (len / size * size))
        (zeros (len % size)) (write_buffers-Writes ml (len / size) size h) last)
    where
      e : zeros (len / size * size) ++ zeros (len % size) ≡ zeros len
      e =
          replicate-append (len / size * size) (len % size) 0
          ∙ ap zeros (omega (arith, div-add-mod len size))

      tail : M S (Unit {0})
      tail = if ltb 0 (len % size) then write_exactly (zeros (len % size)) else give tt

      last : Writes laws ml tail tt (zeros (len % size))
      last = elim (Bool-cases (ltb 0 (len % size))) [
        | inl more ↦ rw more (
            write_exactly-Writes laws ml (zeros (len % size))
              (rw length-replicate (omega (arith, mod-lt len {m = size} p))))
        | inr less ↦
            let none_left : len % size ≡ 0 = ground arith in
            rw (less, none_left) (give-Writes laws ml tt)
      ]

  -- `write_zeros` writes `len` zeros, whatever the size of the zeros buffer so far.
  pub write_zeros-Writes : (ml len : ℕ) → Writes laws ml (write_zeros len) tt (zeros len)
  unfolding write_zeros
  write_zeros-Writes ml zero f o e = give-Writes laws ml tt f o e
  write_zeros-Writes ml (suc n) f o e =
      let size : ℕ = zeros_buffer_for f.zeros_size (suc n) in
      let small = zeros_buffer_bounds f.zeros_size n o.small_zeros in
      let r =
        write_zeros_from-Writes ml size (suc n) (omega (arith, small)) small.0
          (record f { zeros_size = size }) (record { is_ready = o.is_ready; small_zeros = small.1 })
          e in
      rw some_left (record {
        file = r.file;
        result = r.result;
        is_open = r.is_open;
        llen = r.llen;
        runin = r.runin;
        bytes = r.bytes;
      })
    where
      some_left : (suc n == 0) ≡ false
      some_left = ground arith
