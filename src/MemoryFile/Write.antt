-- ===== src/MemoryFile/Write.antt =====
-- mem_file_write of mxf/mxf_memory_file.c, which extends the file where it must.
use ebu_libmxf.Base.{
  ℕ, zero, suc, ◌+◌, ◌-◌, ◌*◌, ◌^◌, ◌≤◌, ◌<◌, ◌≡◌, refl, ap, sym, ◌∙◌, subst, false, some, List, [],
  ◌∷◌, ◌++◌, max, length, take, drop, arith, length-take, length-append, append_assoc, ltb, ◌==◌,
  Bool-cases, inl, inr, ltb→lt, lt→ltb, le→ltb_false, ==_iff, append-nil, take-append_at,
  drop-append_at, ◌||◌, drop-drop,
}
use ebu_libmxf.File.Ops.{put}
use ebu_libmxf.MemoryFile.Defs.{Chunk, MemFile, mem_file_write}
use ebu_libmxf.MemoryFile.Layout.{flat, Layout, Layout-room, length-flat}
use ebu_libmxf.MemoryFile.Valid.{IsValid, contents_of, view_of, mem_file_get_size-IsValid}
use ebu_libmxf.MemoryFile.WriteAt.{WritesHere, write_at_pos_lem}
use ebu_libmxf.MemoryFile.Extend.{IsMalloc, Extends, extend-Extends}

-- A write that has stored `bs` at the position, whose file is `file`.
pub record Stores (malloc : ℕ → ℕ → List ℕ) (s : MemFile) (bs : List ℕ) : Type 0 where
  pub file : MemFile
  pub result : mem_file_write malloc s bs ≡ some (length bs, file)
  pub valid : IsValid file
  pub view : view_of file ≡ put bs (view_of s)

-- The file with chunks that hold `bs` at the position.
module _ (s : MemFile) (v : IsValid s) (bs : List ℕ) (cs : List Chunk) where
  after_write : MemFile
  after_write = record s { chunks = cs; position = s.position + length bs }

  module _ (h : Layout s.chunk_size cs (max (length (contents_of s)) (s.position + length bs)))
      (e : flat cs
        ≡ take s.position (contents_of s) ++ (bs ++ drop (s.position + length bs) (contents_of s)))
      (t : s.chunk_size * length cs
        < max (length (contents_of s)) (s.position + length bs) + s.chunk_size) where
    size : length (flat cs) ≡ max (length (contents_of s)) (s.position + length bs)
    size = length-flat s.chunk_size cs _ h

    after-IsValid : IsValid after_write
    unfolding after_write
    after-IsValid = record {
      some_size = v.some_size;
      size_fits = v.size_fits;
      can_write = v.can_write;
      no_start = v.no_start;
      layout = subst (λ (n : ℕ). Layout s.chunk_size cs n) (sym size) h;
      tight = omega (arith, size);
      inside = omega (arith, size);
    }

    front_len : length (take s.position (contents_of s) ++ bs) ≡ s.position + length bs
    front_len = omega (
      arith,
      length-append (take s.position (contents_of s)) bs,
      length-take s.position (contents_of s),
      v.inside,
    )

    parted :
        flat cs
        ≡ (take s.position (contents_of s) ++ bs) ++ drop (s.position + length bs) (contents_of s)
    parted = e ∙ sym (append_assoc (take s.position (contents_of s)) bs _)

    after-view : view_of after_write ≡ put bs (view_of s)
    unfolding after_write
    after-view = λ i. record {
      before =
          (ap (take (s.position + length bs)) parted
              ∙ take-append_at (s.position + length bs) (take s.position (contents_of s) ++ bs) _
                  (sym front_len))
            i;
      after =
          (ap (drop (s.position + length bs)) parted
              ∙ drop-append_at (s.position + length bs) (take s.position (contents_of s) ++ bs) _
                  (sym front_len)
              ∙ sym (drop-drop s.position (length bs) (contents_of s)))
            i;
    }

some_chunk : (k n x : ℕ) → 0 < x → x ≤ k * n → 0 < n
some_chunk k zero x p h = absurd (omega arith)
some_chunk k (suc n) x p h = omega arith

module _ (malloc : ℕ → ℕ → List ℕ) (m : IsMalloc malloc) (s : MemFile) (v : IsValid s)
    (bs : List ℕ) where
  -- Within the file.
  stays : 0 < length bs → s.position + length bs ≤ length (contents_of s) → Stores malloc s bs
  unfolding mem_file_write after_write
  stays n b = record {
    file = after_write s v bs w.chunks;
    result =
        rw
          (
            may,
            mem_file_get_size-IsValid v,
            le→ltb_false (length (contents_of s)) (s.position + length bs) b,
          )
          (w.result);
    valid = after-IsValid s v bs w.chunks w.layout w.bytes close;
    view = after-view s v bs w.chunks w.layout w.bytes close;
  }
    where
      may : (length bs == 0 || s.read_only) ≡ false
      may =
          let some_left : (length bs == 0) ≡ false = ground arith in
          rw (some_left, v.can_write) refl

      room : length (contents_of s) ≤ s.chunk_size * length s.chunks
      room = Layout-room s.chunk_size s.chunks (length (contents_of s)) v.layout

      w : WritesHere s (length (contents_of s)) bs
      w =
          write_at_pos_lem s (length (contents_of s)) bs v.layout v.inside (omega (arith, room))
            v.some_size
            (some_chunk s.chunk_size (length s.chunks) (s.position + length bs) (omega arith)
              (omega (arith, room)))

      close :
          s.chunk_size * length w.chunks
          < max (length (contents_of s)) (s.position + length bs) + s.chunk_size
      close = rw (w.number) (omega (arith, v.tight))

  -- Past the end of the file.
  grows : length bs < 2 ^ 32 → length (contents_of s) < s.position + length bs → Stores malloc s bs
  unfolding mem_file_write after_write
  grows f b = record {
    file = after_write s v bs w.chunks;
    result =
        rw
          (
            may,
            mem_file_get_size-IsValid v,
            lt→ltb (length (contents_of s)) (s.position + length bs) b,
            le→ltb_false (2 ^ 32 - 1) missing (omega (arith, v.inside)),
            x.result,
            le→ltb_false (length (contents_of s)) s.position v.inside,
          )
          (w.result);
    valid = after-IsValid s v bs w.chunks w.layout same close;
    view = after-view s v bs w.chunks w.layout same close;
  }
    where
      missing : ℕ
      missing = s.position + length bs - length (contents_of s)

      may : (length bs == 0 || s.read_only) ≡ false
      may =
          let some_left : (length bs == 0) ≡ false = ground (arith, v.inside) in
          rw (some_left, v.can_write) refl

      x : Extends malloc m s missing
      x = extend-Extends malloc m s missing v (omega arith) (omega (arith, v.inside))

      extended : MemFile
      extended = record s { chunks = x.chunks }

      w : WritesHere extended (length (contents_of s)) bs
      w =
          write_at_pos_lem extended (length (contents_of s)) bs x.layout v.inside
            (omega (arith, x.room)) v.some_size
            (some_chunk s.chunk_size (length x.chunks) (s.position + length bs) (omega (arith, b))
              (omega (arith, x.room)))

      same :
          flat w.chunks
          ≡ take s.position (contents_of s) ++ (bs ++ drop (s.position + length bs) (contents_of s))
      same =
          w.bytes
          ∙ ap (λ (t : List ℕ). take s.position t ++ (bs ++ drop (s.position + length bs) t))
              x.bytes

      close :
          s.chunk_size * length w.chunks
          < max (length (contents_of s)) (s.position + length bs) + s.chunk_size
      close = rw (w.number) (omega (arith, x.close))

  -- Writing fewer than 2 to the 32 bytes to a valid memory file writes them all: the write is
  -- defined, its count is their number, the file stays valid, and its byte file has them over what
  -- followed the position, past the end if need be. `malloc` gives as many bytes as it is asked
  -- for.
  pub mem_file_write_lem : length bs < 2 ^ 32 → Stores malloc s bs
  unfolding mem_file_write
  mem_file_write_lem f = elim (Bool-cases (length bs == 0)) [
    | inl null ↦
        let none_left : bs ≡ [] = empty bs ((==_iff _ 0).0 null) in
        record {
          file = s;
          result = rw null (ap (λ (n : ℕ). some (n, s)) (sym ((==_iff _ 0).0 null)));
          valid = v;
          view = rw none_left (λ i. record {
            before = sym (append-nil (take s.position (contents_of s))) i;
            after = drop s.position (contents_of s);
          });
        }
    | inr some_left ↦ elim (Bool-cases (ltb (length (contents_of s)) (s.position + length bs))) [
      | inl past ↦ grows f (ltb→lt _ _ past)
      | inr within ↦ stays (ground arith) (ground arith)
    ]
  ]
    where
      empty : (xs : List ℕ) → length xs ≡ 0 → xs ≡ []
      empty [] h = refl
      empty (y ∷ ys) h = absurd (omega arith)
