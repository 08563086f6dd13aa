-- ===== src/MemoryFile/Extend.antt =====
-- extend_mem_file of mxf/mxf_memory_file.c.
use native.Mathlib.Nat.{div-lt_iff_lt-mul}
use ebu_libmxf.Base.{
  ℕ, zero, suc, ◌+◌, ◌-◌, ◌*◌, ◌/◌, ◌%◌, ◌^◌, ◌≤◌, ◌<◌, ◌≡◌, refl, ap, ◌∙◌, subst, true, false,
  List, [], ◌∷◌, ◌++◌, length, arith, length-append, leb, Bool-cases, inl, inr, leb→le, append-nil,
}
use ebu_libmxf.MemoryFile.Defs.{Chunk, MemFile, last?, remainder_of, new_chunks, extend_mem_file}
use ebu_libmxf.MemoryFile.Layout.{flat, Layout, Layout-room, last-Layout, flat-append}
use ebu_libmxf.MemoryFile.Locate.{quotient}
use ebu_libmxf.MemoryFile.Valid.{IsValid, contents_of}

-- `malloc` gives as many bytes as it is asked for.
abbrev pub IsMalloc : (ℕ → ℕ → List ℕ) → Type 0
IsMalloc malloc = (index size : ℕ) → length (malloc index size) ≡ size

-- The chunks that are needed for `x` more bytes.
chunks_for :
    (k x : ℕ)
    → 0 < k
    → 0 < x
    → (x ≤ k * ((x + k - 1) / k)) × (k * ((x + k - 1) / k) < x + k) × ((x + k - 1) / k ≤ x)
chunks_for k x p q = (
  omega (arith, (quotient k (x + k - 1) p).1),
  omega (arith, (quotient k (x + k - 1) p).0),
  omega (arith, (div-lt_iff_lt-mul {x = x + k - 1} {y = x + 1} p).1 (more x k p)),
)
  where
    more : (x k : ℕ) → 0 < k → x + k - 1 < (x + 1) * k
    more x zero h = absurd (omega arith)
    more x (suc k) h = omega arith

spare_sum :
    (k n total alloc size : ℕ)
    → alloc ≡ k
    → k * n + size ≡ total
    → total ≤ k * suc n
    → total + (alloc - size) ≡ k * suc n
spare_sum k n total alloc size e h b = omega arith

Layout-append :
    (k : ℕ) (cs ds : List Chunk) (total : ℕ)
    → Layout k cs total
    → Layout k ds 0
    → Layout k (cs ++ ds) total
Layout-append k [] ds total h g = rw h g
Layout-append k (c ∷ cs) ds total h g = (h.0, h.1, h.2, Layout-append k cs ds (total - k) h.3 g)

module _ (malloc : ℕ → ℕ → List ℕ) (m : IsMalloc malloc) where
  new-Layout : (n index k : ℕ) → Layout k (new_chunks malloc n index k) 0
  unfolding new_chunks
  new-Layout zero index k = refl
  new-Layout (suc n) index k = (
    m index k,
    refl,
    omega arith,
    subst (λ (t : ℕ). Layout k (new_chunks malloc n (suc index) k) t) (omega arith)
        (new-Layout n (suc index) k),
  )

  new-flat : (n index k : ℕ) → flat (new_chunks malloc n index k) ≡ []
  unfolding new_chunks
  new-flat zero index k = refl
  new-flat (suc n) index k = new-flat n (suc index) k

  new-length : (n index k : ℕ) → length (new_chunks malloc n index k) ≡ n
  unfolding new_chunks
  new-length zero index k = refl
  new-length (suc n) index k = ap suc (new-length n (suc index) k)

  -- What `extend_mem_file` makes of a file that lacks `missing` bytes.
  pub record Extends (s : MemFile) (missing : ℕ) : Type 0 where
    pub chunks : List Chunk
    pub result : extend_mem_file malloc s missing ≡ record s { chunks = chunks }
    pub layout : Layout s.chunk_size chunks (length (contents_of s))
    pub bytes : flat chunks ≡ contents_of s
    pub room : length (contents_of s) + missing ≤ s.chunk_size * length chunks
    pub close : s.chunk_size * length chunks < length (contents_of s) + missing + s.chunk_size

  spare_lem :
      (k : ℕ) (cs : List Chunk) (total : ℕ)
      → Layout k cs total
      → k * length cs < total + k
      → total + remainder_of (last? cs) ≡ k * length cs
  spare_lem k [] total h t = omega (arith, h)
  spare_lem k (c ∷ cs) total h t =
      let r = last-Layout k c cs total h (omega arith) in
      rw (r.1) (
        spare_sum k (length cs) total r.0.alloc_size r.0.size r.2 r.3
          (Layout-room k (c ∷ cs) total h))

  module _ (s : MemFile) (missing : ℕ) (v : IsValid s) (p : 0 < missing)
      (q : missing < 2 ^ 32) where
    more : ℕ
    more = (missing - remainder_of (last? s.chunks) + s.chunk_size - 1) / s.chunk_size

    spare : length (contents_of s) + remainder_of (last? s.chunks) ≡ s.chunk_size * length s.chunks
    spare = spare_lem s.chunk_size s.chunks (length (contents_of s)) v.layout v.tight

    enough-Extends : leb missing (remainder_of (last? s.chunks)) ≡ true → Extends s missing
    unfolding extend_mem_file
    enough-Extends e = record {
      chunks = s.chunks;
      result = rw e refl;
      layout = v.layout;
      bytes = refl;
      room = omega (arith, spare, leb→le missing (remainder_of (last? s.chunks)) e);
      close = omega (arith, v.tight);
    }

    adds-Extends : leb missing (remainder_of (last? s.chunks)) ≡ false → Extends s missing
    unfolding extend_mem_file more
    adds-Extends e = record {
      chunks = s.chunks ++ new_chunks malloc more (length s.chunks) s.chunk_size;
      result = rw (e, small) refl;
      layout =
          Layout-append s.chunk_size s.chunks _ (length (contents_of s)) v.layout
            (new-Layout more (length s.chunks) s.chunk_size);
      bytes =
          flat-append s.chunk_size s.chunks _
          ∙ ap (λ (t : List ℕ). contents_of s ++ t) (new-flat more (length s.chunks) s.chunk_size)
          ∙ append-nil _;
      room = rw number (omega (arith, spare, needed.0, over));
      close = rw number (omega (arith, spare, needed.1, over));
    }
      where
        over : remainder_of (last? s.chunks) < missing
        over = ground arith

        needed :
            (missing - remainder_of (last? s.chunks) ≤ s.chunk_size * more)
            × (s.chunk_size * more < missing - remainder_of (last? s.chunks) + s.chunk_size)
            × (more ≤ missing - remainder_of (last? s.chunks))
        needed =
            chunks_for s.chunk_size (missing - remainder_of (last? s.chunks)) v.some_size
              (omega (arith, over))

        small : more % 2 ^ 32 ≡ more
        small = omega (arith, needed.2)

        number :
            length (s.chunks ++ new_chunks malloc more (length s.chunks) s.chunk_size)
            ≡ length s.chunks + more
        number = omega (
          arith,
          length-append s.chunks (new_chunks malloc more (length s.chunks) s.chunk_size),
          new-length more (length s.chunks) s.chunk_size,
        )

    pub extend-Extends : Extends s missing
    extend-Extends = elim (Bool-cases (leb missing (remainder_of (last? s.chunks)))) [
      | inl e ↦ enough-Extends e
      | inr e ↦ adds-Extends e
    ]
