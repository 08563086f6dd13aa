-- ===== src/MemoryFile/Seek.antt =====
-- mem_file_seek of mxf/mxf_memory_file.c.
use ebu_libmxf.Base.{
  ℕ, ◌+◌, ◌-◌, ◌≤◌, ◌<◌, ◌≡◌, refl, ap, sym, ◌∙◌, Bool, true, length, take, drop, arith, leb, ltb,
  le→leb, lt→ltb, take-append-drop, take-add, drop-drop, length-take, length-drop,
}
use ebu_libmxf.Base.Int.{pos, negsuc}
use ebu_libmxf.File.Ops.{View, contents, at, forward, seek_set, seek_cur, seek_end}
use ebu_libmxf.MemoryFile.Defs.{MemFile, go_to, mem_file_seek, mem_file_get_size}
use ebu_libmxf.MemoryFile.Valid.{IsValid, contents_of, view_of, mem_file_get_size-IsValid}

pub whole_view : (s : MemFile) → contents (view_of s) ≡ contents_of s
whole_view s = take-append-drop s.position (contents_of s)

-- The file at the position `p`.
pub record Moved (s : MemFile) (r : Bool × MemFile) (v : View) : Type 0 where
  pub fine : r.0 ≡ true
  pub valid : IsValid r.1
  pub view : view_of r.1 ≡ v

module _ (s : MemFile) (v : IsValid s) where
  there : (p : ℕ) → p ≤ length (contents_of s) → Moved s (go_to s true p) (at p (view_of s))
  there p h = record {
    fine = refl;
    valid = record {
      some_size = v.some_size;
      size_fits = v.size_fits;
      can_write = v.can_write;
      no_start = v.no_start;
      layout = v.layout;
      tight = v.tight;
      inside = h;
    };
    view = λ i. record {
      before = take p (sym (whole_view s) i);
      after = drop p (sym (whole_view s) i);
    };
  }

  ahead : (n : ℕ) → at (s.position + n) (view_of s) ≡ forward n (view_of s)
  ahead n = λ i. record {
    before =
        (ap (take (s.position + n)) (whole_view s) ∙ sym (take-add s.position n (contents_of s))) i;
    after =
        (ap (drop (s.position + n)) (whole_view s) ∙ sym (drop-drop s.position n (contents_of s)))
          i;
  }

  to :
      (p q : ℕ) (fits : Bool)
      → fits ≡ true
      → q ≡ p
      → p ≤ length (contents_of s)
      → Moved s (go_to s fits q) (at p (view_of s))
  to p q fits e f h = rw (e, f) (there p h)

  pub seek_set-Moved :
      (p : ℕ)
      → p ≤ length (contents (view_of s))
      → Moved s (mem_file_seek s (pos p) seek_set) (at p (view_of s))
  unfolding mem_file_seek
  seek_set-Moved p h =
      to p (p - s.virtual_start_pos) (leb s.virtual_start_pos p)
        (le→leb _ _ (omega (arith, v.no_start))) (omega (arith, v.no_start))
        (rw (whole_view s) at h)

  pub seek_cur-Moved :
      (n : ℕ)
      → n ≤ length (view_of s).after
      → Moved s (mem_file_seek s (pos n) seek_cur) (forward n (view_of s))
  unfolding mem_file_seek
  seek_cur-Moved n h =
      let m =
        there (s.position + n) (omega (arith, length-drop s.position (contents_of s), v.inside)) in
      record { fine = m.fine; valid = m.valid; view = m.view ∙ ahead n }

  front : length (view_of s).before ≡ s.position
  front = omega (arith, length-take s.position (contents_of s), v.inside)

  pub seek_back-Moved :
      (n : ℕ)
      → n < length (view_of s).before
      → Moved s
          (mem_file_seek s (negsuc n) seek_cur)
          (at (length (view_of s).before - (n + 1)) (view_of s))
  unfolding mem_file_seek
  seek_back-Moved n h =
      to (length (view_of s).before - (n + 1)) (s.position - (n + 1)) (ltb n s.position)
        (lt→ltb _ _ (omega (arith, front))) (omega (arith, front)) (omega (arith, front, v.inside))

  size : length (contents (view_of s)) ≡ mem_file_get_size s
  size = ap length (whole_view s) ∙ sym (mem_file_get_size-IsValid v)

  pub seek_end-Moved :
      (n : ℕ)
      → n < length (contents (view_of s))
      → Moved s
          (mem_file_seek s (negsuc n) seek_end)
          (at (length (contents (view_of s)) - (n + 1)) (view_of s))
  unfolding mem_file_seek
  seek_end-Moved n h =
      to (length (contents (view_of s)) - (n + 1)) (mem_file_get_size s - (n + 1))
        (ltb n (mem_file_get_size s)) (lt→ltb _ _ (omega (arith, size))) (omega (arith, size))
        (omega (arith, size, mem_file_get_size-IsValid v))
