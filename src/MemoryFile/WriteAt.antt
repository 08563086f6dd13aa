-- ===== src/MemoryFile/WriteAt.antt =====
-- mem_file_write of mxf/mxf_memory_file.c where the chunks have room: the loop from the position on.
use ebu_libmxf.Base.{
  ℕ, ◌+◌, ◌-◌, ◌*◌, ◌≤◌, ◌<◌, ◌≡◌, refl, ap, ap₂, sym, ◌∙◌, subst, some, List, ◌++◌, max, length,
  take, drop, arith, length-drop, length-take, length-append, append_assoc, take-add,
}
use ebu_libmxf.MemoryFile.Defs.{Chunk, MemFile, write_at_pos, with_front}
use ebu_libmxf.MemoryFile.Layout.{
  flat, Layout, Layout-drop, Layout-join, flat-drop, flat-take, flat-append,
}
use ebu_libmxf.MemoryFile.Locate.{At, get_chunk_pos-At}
use ebu_libmxf.MemoryFile.WriteLoop.{Overwrites, write_loop_lem}

-- The file with `bs` written at its position.
pub record WritesHere (s : MemFile) (total : ℕ) (bs : List ℕ) : Type 0 where
  pub chunks : List Chunk
  pub result :
      write_at_pos s bs
      ≡ some (length bs, record s { chunks = chunks; position = s.position + length bs })
  pub layout : Layout s.chunk_size chunks (max total (s.position + length bs))
  pub bytes :
      flat chunks
      ≡ take s.position (flat s.chunks) ++ (bs ++ drop (s.position + length bs) (flat s.chunks))
  pub number : length chunks ≡ length s.chunks

sub_mul : (k n i : ℕ) → i ≤ n → k * (n - i) + k * i ≡ k * n
sub_mul k n i h = sum (n - i) (omega arith)
  where
    sum : (d : ℕ) → n ≡ d + i → k * d + k * i ≡ k * n
    sum d e = rw e (omega arith)

module _ (s : MemFile) (total : ℕ) (bs : List ℕ) (h : Layout s.chunk_size s.chunks total)
    (b : s.position ≤ total) (r : s.position + length bs ≤ s.chunk_size * length s.chunks) where
  -- In the chunk `i` at the place `p`.
  module _ (i p : ℕ) (a : At s total i p) where
    less : i ≤ length s.chunks
    less = omega (arith, a.exists)

    full : s.chunk_size * i ≤ total
    full = omega (arith, a.place)

    length-left : length (drop i s.chunks) ≡ length s.chunks - i
    length-left = length-drop i s.chunks

    loop : Overwrites s.chunk_size (drop i s.chunks) (total - s.chunk_size * i) p bs
    loop =
        write_loop_lem s.chunk_size (drop i s.chunks) (total - s.chunk_size * i) p bs
          (Layout-drop s.chunk_size i s.chunks total less h) (omega (arith, a.inside, a.held))
          (rw length-left (omega (arith, a.place, sub_mul s.chunk_size (length s.chunks) i less)))

    front :
        take (s.chunk_size * i) (flat s.chunks) ++ take p (flat (drop i s.chunks))
        ≡ take s.position (flat s.chunks)
    front =
        ap (λ (t : List ℕ). take (s.chunk_size * i) (flat s.chunks) ++ take p t) whole
        ∙ take-add (s.chunk_size * i) p (flat s.chunks)
        ∙ ap (λ (n : ℕ). take n (flat s.chunks)) a.place
      where
        whole : flat (drop i s.chunks) ≡ drop (s.chunk_size * i) (flat s.chunks)
        whole =
            sym (flat-drop s.chunk_size i 0 s.chunks total less full h)
            ∙ ap (λ (n : ℕ). drop n (flat s.chunks))
                (let e : s.chunk_size * i + 0 ≡ s.chunk_size * i = omega arith in e)

    behind :
        drop (p + length bs) (flat (drop i s.chunks))
        ≡ drop (s.position + length bs) (flat s.chunks)
    behind =
        sym (flat-drop s.chunk_size i (p + length bs) s.chunks total less full h)
        ∙ ap (λ (n : ℕ). drop n (flat s.chunks)) (omega (arith, a.place))

    here-At : WritesHere s total bs
    unfolding write_at_pos
    here-At = record {
      chunks = take i s.chunks ++ loop.chunks;
      result = rw (a.found, write_at_pos) (rw (loop.result, with_front) refl);
      layout =
          subst (λ (t : ℕ). Layout s.chunk_size (take i s.chunks ++ loop.chunks) t)
            (omega (arith, a.place))
            (Layout-join s.chunk_size i s.chunks loop.chunks total _ less full h loop.layout);
      bytes =
          flat-append s.chunk_size (take i s.chunks) loop.chunks
          ∙ ap₂ (λ (u v : List ℕ). u ++ v) (flat-take s.chunk_size i s.chunks total less full h)
              loop.bytes
          ∙ sym (
              append_assoc (take (s.chunk_size * i) (flat s.chunks))
                (take p (flat (drop i s.chunks))) _)
          ∙ ap₂ (λ (u v : List ℕ). u ++ (bs ++ v)) front behind;
      number = omega (
        arith,
        length-append (take i s.chunks) loop.chunks,
        length-take i s.chunks,
        loop.number,
        length-left,
        less,
      );
    }

  pub write_at_pos_lem : 0 < s.chunk_size → 0 < length s.chunks → WritesHere s total bs
  write_at_pos_lem k n = let a = get_chunk_pos-At s total h k n b in here-At a.0 a.1 a.2
