-- ===== src/MemoryFile/WriteLoop.antt =====
-- The writing loop of mem_file_write in mxf/mxf_memory_file.c.
use ebu_libmxf.Base.{
  ℕ, ◌+◌, ◌-◌, ◌*◌, ◌≤◌, ◌<◌, ◌≡◌, refl, ap, ap₂, sym, ◌∙◌, subst, false, true, some, List, [], ◌∷◌,
  ◌++◌, min, max, length, take, drop, leb→le, if◌then◌else◌, ◌==◌, leb, ltb, arith, ==_iff,
  Bool-cases, inl, inr, length-drop, take-append-drop, append_assoc,
}
use ebu_libmxf.MemoryFile.Defs.{Chunk, written, write_loop}
use ebu_libmxf.MemoryFile.Layout.{flat, Layout}
use ebu_libmxf.MemoryFile.Chunks.{take-front, filled, part, written-Layout, drop-over}

-- The chunks `cs'` are `cs` with `bs` written at `p`.
pub record Overwrites (k : ℕ) (cs : List Chunk) (total p : ℕ) (bs : List ℕ) : Type 0 where
  pub chunks : List Chunk
  pub result : write_loop cs p bs ≡ some chunks
  pub layout : Layout k chunks (max total (p + length bs))
  pub bytes : flat chunks ≡ take p (flat cs) ++ (bs ++ drop (p + length bs) (flat cs))
  pub number : length chunks ≡ length cs

written-alloc : (c : Chunk) (p n : ℕ) (bs : List ℕ) → (written c p n bs).alloc_size ≡ c.alloc_size
written-alloc c p n bs = elim (Bool-cases (n == 0)) [
  | inl null ↦ rw null refl
  | inr some_left ↦ rw some_left refl
]

written-size :
    (c : Chunk) (p n : ℕ) (bs : List ℕ) → p ≤ c.size → (written c p n bs).size ≡ max c.size (p + n)
written-size c p n bs h = elim (Bool-cases (n == 0)) [
  | inl null ↦ rw null (omega (arith, (==_iff n 0).0 null))
  | inr some_left ↦ rw some_left (size (c.size) (p + n))
]
  where
    size : (a b : ℕ) → (if ltb a b then b else a) ≡ max a b
    size a b = ground arith

joined :
    (n : ℕ) (front bs back : List ℕ)
    → (front ++ take n bs) ++ (drop n bs ++ back) ≡ front ++ (bs ++ back)
joined n front bs back =
    append_assoc front (take n bs) (drop n bs ++ back)
    ∙ ap (λ (t : List ℕ). front ++ t)
        (sym (append_assoc (take n bs) (drop n bs) back)
          ∙ ap (λ (t : List ℕ). t ++ back) (take-append-drop n bs))

grouped :
    (front bs mid back : List ℕ) → (front ++ (bs ++ mid)) ++ back ≡ front ++ (bs ++ (mid ++ back))
grouped front bs mid back =
    append_assoc front (bs ++ mid) back ∙ ap (λ (t : List ℕ). front ++ t) (append_assoc bs mid back)

nothing-Overwrites :
    (k : ℕ) (cs : List Chunk) (total p : ℕ)
    → Layout k cs total
    → p ≤ total
    → Overwrites k cs total p []
unfolding write_loop
nothing-Overwrites k cs total p h b = record {
  chunks = cs;
  result = refl;
  layout = subst (λ (t : ℕ). Layout k cs t) (omega arith) h;
  bytes =
      sym (take-append-drop p (flat cs))
      ∙ ap (λ (n : ℕ). take p (flat cs) ++ drop n (flat cs)) (let e : p ≡ p + 0 = omega arith in e);
  number = refl;
}

module _ (k : ℕ) (c : Chunk) (cs : List Chunk) (total p x : ℕ) (bs : List ℕ)
    (h : Layout k (c ∷ cs) total) (b : p ≤ min k total) where
  amount : ℕ
  amount = min (c.alloc_size - p) (length (x ∷ bs))

  -- The chunk is filled, and the loop goes on with the next one.
  fills :
      leb c.alloc_size (p + amount) ≡ true
      → Overwrites k cs (total - k) 0 (drop amount (x ∷ bs))
      → Overwrites k (c ∷ cs) total p (x ∷ bs)
  unfolding write_loop amount
  fills on rest = record {
    chunks = written c p amount (x ∷ bs) ∷ rest.chunks;
    result = rw (on, rest.result) refl;
    layout = (
      written-Layout k total c p amount (x ∷ bs) h.0 (omega (arith, h.1)) (omega arith),
      written-alloc c p amount (x ∷ bs) ∙ h.1,
      written-size c p amount (x ∷ bs) (omega (arith, h.2)) ∙ omega (arith, reach, h.1, h.2),
      subst (λ (t : ℕ). Layout k rest.chunks t) (omega (arith, reach, left, h.1)) rest.layout,
    );
    bytes =
        ap₂ (λ (u v : List ℕ). u ++ v)
          (filled c p amount (x ∷ bs) (omega (arith, reach, h.0, h.1)) (omega (arith, h.2))
            (omega (arith, h.0, h.2)) (omega arith))
          rest.bytes
        ∙ joined amount (take p c.bytes) (x ∷ bs)
            (drop (0 + length (drop amount (x ∷ bs))) (flat cs))
        ∙ ap₂ (λ (u v : List ℕ). u ++ ((x ∷ bs) ++ v))
            (sym (take-front c (flat cs) p (omega (arith, h.2)) (omega (arith, h.0, h.2))))
            (ap (λ (m : ℕ). drop m (flat cs)) behind
              ∙ sym
                  ((drop-over k total (p + length (x ∷ bs)) c cs h).0 (omega (arith, reach, h.1))));
    number = omega (arith, rest.number);
  }
    where
      reach : c.alloc_size ≤ p + amount
      reach = leb→le c.alloc_size (p + amount) on

      left : length (drop amount (x ∷ bs)) ≡ length (x ∷ bs) - amount
      left = length-drop amount (x ∷ bs)

      behind : 0 + length (drop amount (x ∷ bs)) ≡ p + length (x ∷ bs) - k
      behind = omega (arith, reach, left, h.1)

  -- The chunk has room for the rest.
  fits : leb c.alloc_size (p + amount) ≡ false → Overwrites k (c ∷ cs) total p (x ∷ bs)
  unfolding write_loop amount
  fits stop = record {
    chunks = written c p amount (x ∷ bs) ∷ cs;
    result = rw stop refl;
    layout = (
      written-Layout k total c p amount (x ∷ bs) h.0 (omega (arith, h.1)) (omega arith),
      written-alloc c p amount (x ∷ bs) ∙ h.1,
      written-size c p amount (x ∷ bs) (omega (arith, h.2)) ∙ omega (arith, all, room, h.1, h.2),
      subst (λ (t : ℕ). Layout k cs t) (omega (arith, all, room, h.1)) h.3,
    );
    bytes =
        ap (λ (u : List ℕ). u ++ flat cs)
          (ap (λ (n : ℕ). take (written c p n (x ∷ bs)).size (written c p n (x ∷ bs)).bytes) all
            ∙ part c p (x ∷ bs) (omega (arith, room, all, h.0, h.1)) (omega (arith, h.2))
                (omega (arith, h.0, h.2)) (omega arith))
        ∙ grouped (take p c.bytes) (x ∷ bs) (drop (p + length (x ∷ bs)) (take c.size c.bytes))
            (flat cs)
        ∙ ap₂ (λ (u v : List ℕ). u ++ ((x ∷ bs) ++ v))
            (sym (take-front c (flat cs) p (omega (arith, h.2)) (omega (arith, h.0, h.2))))
            (sym
              ((drop-over k total (p + length (x ∷ bs)) c cs h).1 (omega (arith, room, all, h.1))));
    number = refl;
  }
    where
      room : p + amount < c.alloc_size
      room = ground arith

      all : amount ≡ length (x ∷ bs)
      all = omega (arith, room)

pub write_loop_lem :
    (k : ℕ) (cs : List Chunk) (total p : ℕ) (bs : List ℕ)
    → Layout k cs total
    → p ≤ min k total
    → p + length bs ≤ k * length cs
    → Overwrites k cs total p bs
unfolding amount
write_loop_lem k cs total p [] h b r = nothing-Overwrites k cs total p h (omega arith)
write_loop_lem k [] total p (x ∷ bs) h b r = absurd (omega arith)
write_loop_lem k (c ∷ cs) total p (x ∷ bs) h b r =
    elim (Bool-cases (leb c.alloc_size (p + amount k c cs total p x bs h b))) [
      | inl on ↦ fills k c cs total p x bs h b on (
          write_loop_lem k cs (total - k) 0 (drop (amount k c cs total p x bs h b) (x ∷ bs)) h.3
            (omega arith)
            (omega (
              arith,
              leb→le c.alloc_size _ on,
              length-drop (amount k c cs total p x bs h b) (x ∷ bs),
              h.1,
            )))
      | inr stop ↦ fits k c cs total p x bs h b stop
    ]
