-- ===== src/MemoryFile/Locate.antt =====
-- get_chunk_pos and mxf_mem_file_get_size of mxf/mxf_memory_file.c.
use native.Mathlib.Nat.{div-add-mod, mod-lt, div-lt_iff_lt-mul}
use ebu_libmxf.Base.{
  ℕ, zero, suc, ◌+◌, ◌-◌, ◌*◌, ◌/◌, ◌≤◌, ◌<◌, ◌≡◌, refl, false, some, length, min, ◌==◌, arith,
  le→ltb_false, Bool-cases, ==_iff, ==_self, inl, inr,
}
use ebu_libmxf.MemoryFile.Defs.{MemFile, get_chunk_pos, within}
use ebu_libmxf.MemoryFile.Layout.{Layout, Layout-room, get_elem?-Layout}

-- The place of `position`: the chunk, and the place in it.
pub record At (s : MemFile) (total index p : ℕ) : Type 0 where
  pub found : get_chunk_pos s ≡ some (index, p)
  pub place : s.chunk_size * index + p ≡ s.position
  pub exists : index < length s.chunks
  pub inside : p ≤ s.chunk_size
  pub held : p ≤ total - s.chunk_size * index

back : (k n : ℕ) → 0 < n → k * n ≡ k * (n - 1) + k
back k zero h = absurd (omega arith)
back k (suc n) h = let e : suc n - 1 ≡ n = omega arith in rw e (omega arith)

pub quotient : (k p : ℕ) → 0 < k → (k * (p / k) ≤ p) × (p < k * (p / k) + k)
quotient k p h = omega (arith, div-add-mod p k, mod-lt p h)

module _ (s : MemFile) (total : ℕ) (layout : Layout s.chunk_size s.chunks total) where
  within-ok :
      (i p : ℕ)
      → i < length s.chunks
      → p ≤ min s.chunk_size (total - s.chunk_size * i)
      → within s i p ≡ some (i, p)
  within-ok i p h b =
      let r = get_elem?-Layout s.chunk_size i s.chunks total h layout in
      rw (r.1, within) (rw (le→ltb_false r.0.size p (omega (arith, r.2))) refl)

  room : total ≤ s.chunk_size * length s.chunks
  room = Layout-room s.chunk_size s.chunks total layout

  only-At : length s.chunks ≡ 1 → s.position ≤ total → At s total 0 s.position
  unfolding get_chunk_pos
  only-At one b =
      let whole : s.chunk_size * length s.chunks ≡ s.chunk_size = rw one (omega arith) in
      record {
        found = rw one (within-ok 0 s.position (omega (arith, one)) (omega (arith, room, whole)));
        place = omega arith;
        exists = omega (arith, one);
        inside = omega (arith, room, whole);
        held = omega arith;
      }

  -- The position at the end of the last chunk, which is full.
  end-At :
      1 < length s.chunks
      → 0 < s.chunk_size
      → s.position ≤ total
      → s.position / s.chunk_size ≡ length s.chunks
      → At s total (length s.chunks - 1) (s.position - s.chunk_size * (length s.chunks - 1))
  unfolding get_chunk_pos
  end-At n k b e = record {
    found =
        rw
          (
            not_none,
            not_one,
            e,
            le→ltb_false (length s.chunks) (length s.chunks) (omega arith),
            ==_self (length s.chunks),
          )
          (within-ok (length s.chunks - 1) (s.position - s.chunk_size * (length s.chunks - 1))
            (omega arith) (omega (arith, room, at_end, last)));
    place = omega (arith, at_end, last);
    exists = omega arith;
    inside = omega (arith, at_end, last, room);
    held = omega (arith, at_end, last);
  }
    where
      not_none : (length s.chunks == 0) ≡ false
      not_none = ground arith

      not_one : (length s.chunks == 1) ≡ false
      not_one = ground arith

      last : s.chunk_size * length s.chunks ≡ s.chunk_size * (length s.chunks - 1) + s.chunk_size
      last = back s.chunk_size (length s.chunks) (omega arith)

      at_end : s.chunk_size * length s.chunks ≤ s.position
      at_end = rw e at ((quotient s.chunk_size s.position k).0)

  middle-At :
      1 < length s.chunks
      → 0 < s.chunk_size
      → s.position ≤ total
      → s.position / s.chunk_size < length s.chunks
      → At s total
          (s.position / s.chunk_size)
          (s.position - s.chunk_size * (s.position / s.chunk_size))
  unfolding get_chunk_pos
  middle-At n k b e = record {
    found =
        rw
          (
            not_none,
            not_one,
            not_end,
            le→ltb_false (length s.chunks) (s.position / s.chunk_size) (omega arith),
          )
          (within-ok (s.position / s.chunk_size)
            (s.position - s.chunk_size * (s.position / s.chunk_size)) e (omega (arith, q)));
    place = omega (arith, q);
    exists = e;
    inside = omega (arith, q);
    held = omega (arith, q);
  }
    where
      not_none : (length s.chunks == 0) ≡ false
      not_none = ground arith

      not_one : (length s.chunks == 1) ≡ false
      not_one = ground arith

      not_end : (s.position / s.chunk_size == length s.chunks) ≡ false
      not_end = ground arith

      q :
          (s.chunk_size * (s.position / s.chunk_size) ≤ s.position)
          × (s.position < s.chunk_size * (s.position / s.chunk_size) + s.chunk_size)
      q = quotient s.chunk_size s.position k

  pub get_chunk_pos-At :
      0 < s.chunk_size
      → 0 < length s.chunks
      → s.position ≤ total
      → (i : ℕ) × (p : ℕ) × At s total i p
  get_chunk_pos-At k n b = elim (Bool-cases (length s.chunks == 1)) [
    | inl one ↦ (0, s.position, only-At ((==_iff _ _).0 one) b)
    | inr more ↦ elim (Bool-cases (s.position / s.chunk_size == length s.chunks)) [
      | inl end ↦ (_, _, end-At (ground arith) k b ((==_iff _ _).0 end))
      | inr middle ↦ (_, _, middle-At (ground arith) k b (ground (arith, at_most)))
    ]
  ]
    where
      at_most : s.position / s.chunk_size < suc (length s.chunks)
      at_most = (div-lt_iff_lt-mul k).1 (omega (arith, room))
