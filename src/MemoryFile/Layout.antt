-- ===== src/MemoryFile/Layout.antt =====
-- How the bytes of a memory file of mxf/mxf_memory_file.c lie in its chunks.
use ebu_libmxf.Base.{
  ℕ, zero, suc, ◌+◌, ◌-◌, ◌*◌, ◌≤◌, ◌<◌, ◌≡◌, refl, ap, subst, some, List, [], ◌∷◌, ◌++◌, length,
  get_elem?, take, drop, min, arith, length-append, length-take, take-append_split,
  drop-append_split, take-all, drop-all, append_assoc,
}
use ebu_libmxf.MemoryFile.Defs.{Chunk, last?}

-- The bytes that the chunks hold.
abbrev pub flat : List Chunk → List ℕ
flat [] = []
flat (c ∷ cs) = take c.size c.bytes ++ flat cs

-- `total` bytes lie in chunks of `k`: each chunk is full before the next one is begun.
abbrev pub Layout : ℕ → List Chunk → ℕ → Type 0
Layout k [] total = total ≡ 0
Layout k (c ∷ cs) total =
    (length c.bytes ≡ k) × (c.alloc_size ≡ k) × (c.size ≡ min k total) × Layout k cs (total - k)

pub length-flat :
    (k : ℕ) (cs : List Chunk) (total : ℕ) → Layout k cs total → length (flat cs) ≡ total
length-flat k [] total h = omega arith
length-flat k (c ∷ cs) total h = omega (
  arith,
  length-append (take c.size c.bytes) (flat cs),
  length-take c.size c.bytes,
  length-flat k cs (total - k) h.3,
)

pub Layout-room : (k : ℕ) (cs : List Chunk) (total : ℕ) → Layout k cs total → total ≤ k * length cs
Layout-room k [] total h = omega arith
Layout-room k (c ∷ cs) total h = omega (arith, Layout-room k cs (total - k) h.3)

module _ (k : ℕ) where
  length-held :
      (c : Chunk) (total : ℕ)
      → length c.bytes ≡ k
      → c.size ≡ min k total
      → length (take c.size c.bytes) ≡ min k total
  length-held c total h e = omega (arith, length-take c.size c.bytes)

  pub Layout-drop :
      (i : ℕ) (cs : List Chunk) (total : ℕ)
      → i ≤ length cs
      → Layout k cs total
      → Layout k (drop i cs) (total - k * i)
  Layout-drop zero cs total b h = subst (λ (t : ℕ). Layout k cs t) (omega arith) h
  Layout-drop (suc i) [] total b h = absurd (omega arith)
  Layout-drop (suc i) (c ∷ cs) total b h =
      subst (λ (t : ℕ). Layout k (drop i cs) t) (omega arith)
        (Layout-drop i cs (total - k) (omega arith) h.3)

  -- A place in the chunk `i` is a place in all the bytes.
  pub flat-drop :
      (i p : ℕ) (cs : List Chunk) (total : ℕ)
      → i ≤ length cs
      → k * i ≤ total
      → Layout k cs total
      → drop (k * i + p) (flat cs) ≡ drop p (flat (drop i cs))
  flat-drop zero p cs total b t h = ap (λ (n : ℕ). drop n (flat cs)) (omega arith)
  flat-drop (suc i) p [] total b t h = absurd (omega arith)
  flat-drop (suc i) p (c ∷ cs) total b t h =
      rw
        (
          drop-append_split (k * suc i + p) (take c.size c.bytes) (flat cs),
          drop-all (k * suc i + p) (take c.size c.bytes)
              (omega (arith, length-held c total h.0 h.2)),
          moved,
        )
        (flat-drop i p cs (total - k) (omega arith) (omega arith) h.3)
    where
      moved : k * suc i + p - length (take c.size c.bytes) ≡ k * i + p
      moved = omega (arith, length-held c total h.0 h.2)

  pub flat-take :
      (i : ℕ) (cs : List Chunk) (total : ℕ)
      → i ≤ length cs
      → k * i ≤ total
      → Layout k cs total
      → flat (take i cs) ≡ take (k * i) (flat cs)
  flat-take zero cs total b t h = let none_left : k * 0 ≡ 0 = omega arith in rw none_left refl
  flat-take (suc i) [] total b t h = absurd (omega arith)
  flat-take (suc i) (c ∷ cs) total b t h =
      rw
        (
          take-append_split (k * suc i) (take c.size c.bytes) (flat cs),
          take-all (k * suc i) (take c.size c.bytes) (omega (arith, length-held c total h.0 h.2)),
          moved,
          flat-take i cs (total - k) (omega arith) (omega arith) h.3,
        )
        refl
    where
      moved : k * suc i - length (take c.size c.bytes) ≡ k * i
      moved = omega (arith, length-held c total h.0 h.2)

  pub flat-append : (cs ds : List Chunk) → flat (cs ++ ds) ≡ flat cs ++ flat ds
  flat-append [] ds = refl
  flat-append (c ∷ cs) ds = rw (flat-append cs ds, append_assoc) refl

  -- New chunks behind full ones.
  pub Layout-join :
      (i : ℕ) (cs ds : List Chunk) (total more : ℕ)
      → i ≤ length cs
      → k * i ≤ total
      → Layout k cs total
      → Layout k ds more
      → Layout k (take i cs ++ ds) (k * i + more)
  Layout-join zero cs ds total more b t h g = subst (λ (n : ℕ). Layout k ds n) (omega arith) g
  Layout-join (suc i) [] ds total more b t h g = absurd (omega arith)
  Layout-join (suc i) (c ∷ cs) ds total more b t h g = (
    h.0,
    h.1,
    omega (arith, h.2),
    subst (λ (n : ℕ). Layout k (take i cs ++ ds) n) (omega arith)
        (Layout-join i cs ds (total - k) more (omega arith) (omega arith) h.3 g),
  )

  -- The last chunk holds what the others leave.
  pub last-Layout :
      (c : Chunk) (cs : List Chunk) (total : ℕ)
      → Layout k (c ∷ cs) total
      → k * length cs ≤ total
      → (d : Chunk) × (last? (c ∷ cs) ≡ some d)
        × (d.alloc_size ≡ k)
        × (k * length cs + d.size ≡ total)
  last-Layout c [] total h b = (c, refl, h.1, omega (arith, h.2, h.3))
  last-Layout c (d ∷ cs) total h b =
      let r = last-Layout d cs (total - k) h.3 (omega arith) in (r.0, r.1, r.2, omega (arith, r.3))

  pub get_elem?-Layout :
      (i : ℕ) (cs : List Chunk) (total : ℕ)
      → i < length cs
      → Layout k cs total
      → (d : Chunk) × (get_elem? cs i ≡ some d) × (d.size ≡ min k (total - k * i))
  get_elem?-Layout i [] total b h = absurd (omega arith)
  get_elem?-Layout zero (c ∷ cs) total b h = (c, refl, omega (arith, h.2))
  get_elem?-Layout (suc i) (c ∷ cs) total b h =
      let r = get_elem?-Layout i cs (total - k) (omega arith) h.3 in (r.0, r.1, omega (arith, r.2))
