-- ===== src/MemoryFile/Read.antt =====
-- mem_file_read of mxf/mxf_memory_file.c.
use ebu_libmxf.Base.{
  ℕ, ◌+◌, ◌-◌, ◌*◌, ◌≤◌, ◌<◌, ◌≡◌, refl, ap, sym, ◌∙◌, false, List, [], ◌∷◌, ◌++◌, min, length,
  take, drop, drop-take, drop-taken, take-take, leb→le, ◌==◌, leb, ltb, arith, Bool-cases, inl, inr,
  ==_iff, length-take, length-drop, take-append_split, drop-append_split, take-nil, drop-nil,
  append-nil, take-drop-more, drop-drop,
}
use ebu_libmxf.File.Ops.{forward}
use ebu_libmxf.MemoryFile.Defs.{Chunk, MemFile, get_chunk_pos, read_loop, mem_file_read}
use ebu_libmxf.MemoryFile.Layout.{flat, Layout, Layout-drop, flat-drop}
use ebu_libmxf.MemoryFile.Locate.{At, get_chunk_pos-At}
use ebu_libmxf.MemoryFile.Valid.{IsValid, contents_of, view_of}

-- What comes from a place in the first chunk on: the rest of the chunk, and the next ones.
take-chunk :
    (c : Chunk) (rest : List ℕ) (p count : ℕ)
    → p ≤ c.size
    → c.size ≤ length c.bytes
    → take count (drop p (take c.size c.bytes ++ rest))
      ≡ take (min (c.size - p) count) (drop p c.bytes) ++ take (count - (c.size - p)) rest
take-chunk c rest p count b h =
    rw
      (
        drop-append_split p (take c.size c.bytes) rest,
        drop-take p c.size c.bytes,
        none_left,
        take-append_split count (take (c.size - p) (drop p c.bytes)) rest,
        take-take count (c.size - p) (drop p c.bytes),
        part,
        swapped,
      )
      refl
  where
    none_left : p - length (take c.size c.bytes) ≡ 0
    none_left = omega (arith, length-take c.size c.bytes)

    part : length (take (c.size - p) (drop p c.bytes)) ≡ c.size - p
    part = omega (arith, length-take (c.size - p) (drop p c.bytes), length-drop p c.bytes)

    swapped : min count (c.size - p) ≡ min (c.size - p) count
    swapped = omega arith

-- The loop reads on through the chunks.
read_loop_lem :
    (k : ℕ) (cs : List Chunk) (total p count : ℕ)
    → Layout k cs total
    → p ≤ min k total
    → read_loop cs p count ≡ take count (drop p (flat cs))
unfolding read_loop
read_loop_lem k [] total p count h b = rw (drop-nil p, take-nil count) refl
read_loop_lem k (c ∷ cs) total p count h b =
    let whole = take-chunk c (flat cs) p count (omega (arith, h.2)) (omega (arith, h.0, h.2)) in
    elim (Bool-cases (leb c.size (p + min (c.size - p) count))) [
      | inl on ↦
          let left : count - min (c.size - p) count ≡ count - (c.size - p) =
            omega (arith, leb→le c.size (p + min (c.size - p) count) on) in
          rw (on, whole, left)
            (ap (λ t. take (min (c.size - p) count) (drop p c.bytes) ++ t)
              (read_loop_lem k cs (total - k) 0 (count - (c.size - p)) h.3 (omega arith)))
      | inr stop ↦
          let none_left : count - (c.size - p) ≡ 0 = ground arith in
          rw (stop, whole, none_left) (sym (append-nil _))
    ]

-- What the file is after the bytes `bs` have been read.
abbrev past : MemFile → ℕ → List ℕ → MemFile
past s count bs = record s { position = s.position + length bs; eof = ltb (length bs) count }

module _ (s : MemFile) (count : ℕ) (v : IsValid s) where
  next : List ℕ
  next = take count (drop s.position (contents_of s))

  loop_reads :
      (i p : ℕ) → At s (length (contents_of s)) i p → read_loop (drop i s.chunks) p count ≡ next
  unfolding next
  loop_reads i p a =
      read_loop_lem s.chunk_size (drop i s.chunks) (length (contents_of s) - s.chunk_size * i) p
        count
        (Layout-drop s.chunk_size i s.chunks (length (contents_of s)) (omega (arith, a.exists))
          v.layout)
        (omega (arith, a.inside, a.held))
      ∙ ap (take count) (
          sym (
            flat-drop s.chunk_size i p s.chunks (length (contents_of s)) (omega (arith, a.exists))
              (omega (arith, a.place)) v.layout)
          ∙ ap (λ (n : ℕ). drop n (contents_of s)) a.place)

  read_found :
      0 < length s.chunks → (count == 0) ≡ false → mem_file_read s count ≡ (next, past s count next)
  unfolding mem_file_read
  read_found n nz =
      let a = get_chunk_pos-At s (length (contents_of s)) v.layout v.some_size n v.inside in
      rw (nz, a.2.found, mem_file_read) (rw (loop_reads a.0 a.1 a.2) refl)

  past-IsValid : IsValid (past s count next)
  unfolding next
  past-IsValid = record {
    some_size = v.some_size;
    size_fits = v.size_fits;
    can_write = v.can_write;
    no_start = v.no_start;
    layout = v.layout;
    tight = v.tight;
    inside = omega (
      arith,
      v.inside,
      length-take count (drop s.position (contents_of s)),
      length-drop s.position (contents_of s),
    );
  }

  past-view : view_of (past s count next) ≡ forward count (view_of s)
  unfolding next
  past-view = λ i. record {
    before = (sym (take-drop-more s.position count (contents_of s))) i;
    after =
        (sym (
              drop-drop s.position (length (take count (drop s.position (contents_of s))))
                (contents_of s))
            ∙ drop-taken count (drop s.position (contents_of s)))
          i;
  }

-- Reading from a valid memory file gives the bytes that come next, as many as there are, keeps the
-- file valid, and goes past them in its byte file.
pub mem_file_read_lem :
    (s : MemFile) (count : ℕ)
    → IsValid s
    → ((mem_file_read s count).0 ≡ take count (view_of s).after)
      × IsValid (mem_file_read s count).1
      × (view_of (mem_file_read s count).1 ≡ forward count (view_of s))
unfolding next
mem_file_read_lem s count v = elim (Bool-cases (count == 0)) [
  | inl null ↦
      let e : mem_file_read s count ≡ ([], s) = unfold mem_file_read in rw null refl in
      let zero_count : count ≡ 0 = (==_iff count 0).0 null in
      rw (e, zero_count)
        (
          refl,
          v,
          λ i. record {
            before = sym (append-nil (take s.position (contents_of s))) i;
            after = drop s.position (contents_of s);
          },
        )
  | inr some_left ↦ elim (Bool-cases (length s.chunks == 0)) [
    | inl empty ↦
        let e : mem_file_read s count ≡ ([], s) =
          unfold mem_file_read get_chunk_pos in rw (some_left, empty, mem_file_read) refl in
        let bare : contents_of s ≡ [] = nothing s.chunks ((==_iff _ _).0 empty) in
        rw (e, bare, drop-nil s.position, take-nil s.position, take-nil count, drop-nil count)
          (refl, v, refl)
    | inr full ↦
        rw (read_found s count v (ground arith) some_left)
          (refl, past-IsValid s count v, past-view s count v)
  ]
]
  where
    nothing : (cs : List Chunk) → length cs ≡ 0 → flat cs ≡ []
    nothing [] h = refl
    nothing (c ∷ cs) h = absurd (omega arith)
