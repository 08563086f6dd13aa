-- ===== src/MemoryFile/Laws.antt =====
-- The function table that mxf/mxf_memory_file.c sets up, as a byte file.
use ebu_libmxf.Base.{
  ℕ, ◌%◌, ◌^◌, ◌<◌, ◌≡◌, refl, ap, sym, ◌∙◌, subst, some, List, [], ◌∷◌, length, take, arith,
  length-take,
}
use ebu_libmxf.File.Ops.{ByteFile, head?, forward}
use ebu_libmxf.MemoryFile.Defs.{
  MemFile, mem_file_ops, mem_file_write, mem_file_getchar, mem_file_putchar, mem_file_tell, defined,
}
use ebu_libmxf.MemoryFile.Valid.{IsValid, contents_of, view_of}
use ebu_libmxf.MemoryFile.Read.{mem_file_read_lem}
use ebu_libmxf.MemoryFile.Extend.{IsMalloc}
use ebu_libmxf.MemoryFile.Write.{Stores, mem_file_write_lem}
use ebu_libmxf.MemoryFile.Seek.{seek_set-Moved, seek_cur-Moved, seek_back-Moved, seek_end-Moved}

module _ (malloc : ℕ → ℕ → List ℕ) (m : IsMalloc malloc) where
  pub getchar_byte : (s : MemFile) → IsValid s → (mem_file_getchar s).0 ≡ head? (view_of s).after
  unfolding mem_file_getchar
  getchar_byte s v = ap head? ((mem_file_read_lem s 1 v).0) ∙ first (view_of s).after
    where
      first : (xs : List ℕ) → head? (take 1 xs) ≡ head? xs
      first [] = refl
      first (x ∷ xs) = refl

  pub getchar_view :
      (s : MemFile) → IsValid s → view_of (mem_file_getchar s).1 ≡ forward 1 (view_of s)
  unfolding mem_file_getchar
  getchar_view s v = (mem_file_read_lem s 1 v).2

  pub getchar-IsValid : (s : MemFile) → IsValid s → IsValid (mem_file_getchar s).1
  unfolding mem_file_getchar
  getchar-IsValid s v = (mem_file_read_lem s 1 v).1

  module _ (s : MemFile) (c : ℕ) (v : IsValid s) (h : c < 256) where
    pub put_one : Stores malloc s (c ∷ [])
    put_one = mem_file_write_lem malloc m s v (c ∷ []) (omega arith)

    pub putchar_is : mem_file_putchar malloc s c ≡ (some c, put_one.file)
    unfolding mem_file_putchar
    putchar_is = let octet : c % 256 ≡ c = omega arith in rw (octet, put_one.result) refl

  module _ (s : MemFile) (bs : List ℕ) (v : IsValid s) (h : length bs < 2 ^ 32) where
    pub stored : Stores malloc s bs
    stored = mem_file_write_lem malloc m s v bs h

    pub write_is : defined malloc s (mem_file_write malloc s bs) ≡ (length bs, stored.file)
    write_is = rw stored.result refl

  pub tell_is : (s : MemFile) → IsValid s → mem_file_tell s ≡ length (view_of s).before
  unfolding mem_file_tell
  tell_is s v = omega (arith, length-take s.position (contents_of s), v.inside, v.no_start)

  -- The functions of a memory file as the function table of a byte file; one is ready if it is valid.
  unfoldable pub mem_file : ByteFile (mem_file_ops malloc)
  mem_file = record {
    Ready = IsValid;
    view = view_of;
    read_bytes = λ s n v h. (mem_file_read_lem s n v).0;
    read_view = λ s n v h. (mem_file_read_lem s n v).2;
    read_ready = λ s n v. (mem_file_read_lem s n v).1;
    write_count = λ s bs v h. ap (λ r. r.0) (write_is s bs v h);
    write_view = λ s bs v h. ap (λ r. view_of r.1) (write_is s bs v h) ∙ (stored s bs v h).view;
    write_ready =
        λ s bs v h. subst (λ r. IsValid r.1) (sym (write_is s bs v h)) (stored s bs v h).valid;
    get_char_byte = getchar_byte;
    get_char_view = λ s v. getchar_view s v;
    get_char_ready = λ s v. getchar-IsValid s v;
    put_char_byte = λ s c v h. ap (λ r. r.0) (putchar_is s c v h);
    put_char_view = λ s c v h. ap (λ r. view_of r.1) (putchar_is s c v h) ∙ (put_one s c v h).view;
    put_char_ready =
        λ s c v h. subst (λ r. IsValid r.1) (sym (putchar_is s c v h)) (put_one s c v h).valid;
    tell_position = λ s v. ap some (tell_is s v);
    seek_set_ok = λ s p v h. (seek_set-Moved s v p h).fine;
    seek_set_view = λ s p v h. (seek_set-Moved s v p h).view;
    seek_set_ready = λ s p v h. (seek_set-Moved s v p h).valid;
    seek_cur_ok = λ s n v k h. (seek_cur-Moved s v n h).fine;
    seek_cur_view = λ s n v k h. (seek_cur-Moved s v n h).view;
    seek_cur_ready = λ s n v k h. (seek_cur-Moved s v n h).valid;
    seek_back_ok = λ s n v h. (seek_back-Moved s v n h).fine;
    seek_back_view = λ s n v h. (seek_back-Moved s v n h).view;
    seek_back_ready = λ s n v h. (seek_back-Moved s v n h).valid;
    seek_end_ok = λ s n v h. (seek_end-Moved s v n h).fine;
    seek_end_view = λ s n v h. (seek_end-Moved s v n h).view;
    seek_end_ready = λ s n v h. (seek_end-Moved s v n h).valid;
  }
