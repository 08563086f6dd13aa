-- ===== src/MemoryFile/Chunks.antt =====
-- What a round of the writing loop of mem_file_write in mxf/mxf_memory_file.c makes of a chunk.
use ebu_libmxf.Base.{
  ℕ, ◌+◌, ◌-◌, ◌≤◌, ◌<◌, ◌≡◌, refl, ap, sym, ◌∙◌, false, List, [], ◌∷◌, ◌++◌, min, length, take,
  drop, drop-take, take-take, leb→le, if◌then◌else◌, ◌==◌, leb, ltb, arith, Bool-cases, inl, inr,
  ==_iff, length-take, length-drop, length-append, take-append_split, drop-append_split, drop-nil,
  drop-all, take-all, append-nil,
}
use ebu_libmxf.MemoryFile.Defs.{Chunk, written}
use ebu_libmxf.MemoryFile.Layout.{flat, Layout, length-flat}

-- What lies in front of a place in the first chunk.
pub take-front :
    (c : Chunk) (rest : List ℕ) (p : ℕ)
    → p ≤ c.size
    → c.size ≤ length c.bytes
    → take p (take c.size c.bytes ++ rest) ≡ take p c.bytes
take-front c rest p b h =
    let small : min p c.size ≡ p = omega arith in
    let none_left : p - length (take c.size c.bytes) ≡ 0 =
      omega (arith, length-take c.size c.bytes) in
    rw
      (take-append_split p (take c.size c.bytes) rest, take-take p c.size c.bytes, small, none_left)
      (append-nil _)

-- The bytes of a chunk with `n` bytes of `bs` written at `p`.
abbrev pub over : Chunk → ℕ → ℕ → List ℕ → List ℕ
over c p n bs = take p c.bytes ++ (take n bs ++ drop (p + n) c.bytes)

length-over :
    (c : Chunk) (p n : ℕ) (bs : List ℕ)
    → p + n ≤ length c.bytes
    → n ≤ length bs
    → length (over c p n bs) ≡ length c.bytes
length-over c p n bs h b = omega (
  arith,
  length-append (take p c.bytes) (take n bs ++ drop (p + n) c.bytes),
  length-append (take n bs) (drop (p + n) c.bytes),
  length-take p c.bytes,
  length-take n bs,
  length-drop (p + n) c.bytes,
)

-- A round that fills the chunk.
pub filled :
    (c : Chunk) (p n : ℕ) (bs : List ℕ)
    → p + n ≡ length c.bytes
    → p ≤ c.size
    → c.size ≤ length c.bytes
    → n ≤ length bs
    → take (written c p n bs).size (written c p n bs).bytes ≡ take p c.bytes ++ take n bs
filled c p n bs e b h m = elim (Bool-cases (n == 0)) [
  | inl null ↦
      let zero_n : n ≡ 0 = (==_iff n 0).0 null in
      let at_end : p ≡ length c.bytes = omega arith in
      let full : c.size ≡ length c.bytes = omega arith in
      rw (null, zero_n, full, at_end) (sym (append-nil _))
  | inr some_left ↦
      let whole : (if ltb c.size (p + n) then p + n else c.size) ≡ length c.bytes = ground arith in
      rw
        (
          some_left,
          whole,
          take-all (length c.bytes) (over c p n bs)
              (omega (arith, length-over c p n bs (omega arith) m)),
          drop-all (p + n) c.bytes (omega arith),
          append-nil,
        )
        refl
]

take-through :
    (n : ℕ) (xs ys zs : List ℕ)
    → length xs + length ys ≤ n
    → take n (xs ++ (ys ++ zs)) ≡ xs ++ (ys ++ take (n - (length xs + length ys)) zs)
take-through n xs ys zs h =
    let left : n - length xs - length ys ≡ n - (length xs + length ys) = omega arith in
    rw
      (
        take-append_split n xs (ys ++ zs),
        take-all n xs (omega arith),
        take-append_split (n - length xs) ys zs,
        take-all (n - length xs) ys (omega arith),
        left,
      )
      refl

-- A round that writes all of `bs`, which is not empty.
pub part :
    (c : Chunk) (p : ℕ) (bs : List ℕ)
    → p + length bs ≤ length c.bytes
    → p ≤ c.size
    → c.size ≤ length c.bytes
    → 0 < length bs
    → take (written c p (length bs) bs).size (written c p (length bs) bs).bytes
      ≡ take p c.bytes ++ (bs ++ drop (p + length bs) (take c.size c.bytes))
part c p bs e b h m =
    let some_left : (length bs == 0) ≡ false = ground arith in
    let all : take (length bs) bs ≡ bs = take-all (length bs) bs (omega arith) in
    let size : ℕ = if ltb c.size (p + length bs) then p + length bs else c.size in
    let front : length (take p c.bytes) ≡ p = omega (arith, length-take p c.bytes) in
    let reaches : p + length bs ≤ size = ground arith in
    let left : size - (length (take p c.bytes) + length bs) ≡ c.size - (p + length bs) =
      ground arith in
    rw (some_left, all, drop-take (p + length bs) c.size c.bytes)
      (take-through size (take p c.bytes) bs (drop (p + length bs) c.bytes) (omega (arith, front))
        ∙ ap (λ (n : ℕ). take p c.bytes ++ (bs ++ take n (drop (p + length bs) c.bytes))) left)

pub written-Layout :
    (k total : ℕ) (c : Chunk) (p n : ℕ) (bs : List ℕ)
    → length c.bytes ≡ k
    → p + n ≤ k
    → n ≤ length bs
    → length (written c p n bs).bytes ≡ k
written-Layout k total c p n bs e h b = elim (Bool-cases (n == 0)) [
  | inl null ↦ rw null e
  | inr some_left ↦ rw some_left (length-over c p n bs (omega arith) b ∙ e)
]

-- Chunks that hold too little for one hold nothing behind it.
empty-behind : (k total : ℕ) (cs : List Chunk) → Layout k cs (total - k) → total ≤ k → flat cs ≡ []
empty-behind k total cs h b = bare (flat cs) (omega (arith, length-flat k cs (total - k) h))
  where
    bare : (xs : List ℕ) → length xs ≡ 0 → xs ≡ []
    bare [] e = refl
    bare (x ∷ xs) e = absurd (omega arith)

-- The bytes behind what is written over a chunk and the next ones.
pub drop-over :
    (k total n : ℕ) (c : Chunk) (cs : List Chunk)
    → Layout k (c ∷ cs) total
    → (k ≤ n → drop n (flat (c ∷ cs)) ≡ drop (n - k) (flat cs))
      × (n ≤ k → drop n (flat (c ∷ cs)) ≡ drop n (take c.size c.bytes) ++ flat cs)
drop-over k total n c cs h = (beyond, inside)
  where
    held : length (take c.size c.bytes) ≡ min k total
    held = omega (arith, length-take c.size c.bytes, h.0, h.2)

    beyond : k ≤ n → drop n (flat (c ∷ cs)) ≡ drop (n - k) (flat cs)
    beyond b = elim (Bool-cases (leb k total)) [
      | inl big ↦
          let left : n - length (take c.size c.bytes) ≡ n - k =
            omega (arith, held, leb→le k total big) in
          rw
            (
              drop-append_split n (take c.size c.bytes) (flat cs),
              drop-all n (take c.size c.bytes) (omega (arith, held)),
              left,
            )
            refl
      | inr small ↦
          rw
            (
              drop-append_split n (take c.size c.bytes) (flat cs),
              drop-all n (take c.size c.bytes) (omega (arith, held)),
              empty-behind k total cs h.3 (ground arith),
              drop-nil (n - length (take c.size c.bytes)),
              drop-nil (n - k),
            )
            refl
    ]

    inside : n ≤ k → drop n (flat (c ∷ cs)) ≡ drop n (take c.size c.bytes) ++ flat cs
    inside b = elim (Bool-cases (leb k total)) [
      | inl big ↦
          let left : n - length (take c.size c.bytes) ≡ 0 =
            omega (arith, held, leb→le k total big) in
          rw (drop-append_split n (take c.size c.bytes) (flat cs), left) refl
      | inr small ↦
          rw
            (
              drop-append_split n (take c.size c.bytes) (flat cs),
              empty-behind k total cs h.3 (ground arith),
              drop-nil (n - length (take c.size c.bytes)),
            )
            refl
    ]
