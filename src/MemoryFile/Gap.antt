-- ===== src/MemoryFile/Gap.antt =====
-- mem_file_write of mxf/mxf_memory_file.c behind the end of the file.
use ebu_libmxf.Base.{
  ◌==◌, ℕ, ◌+◌, ◌-◌, ◌^◌, ◌≤◌, ◌<◌, ◌≡◌, refl, false, none, some, List, [], ◌∷◌, length, arith,
  le→leb, lt→ltb, le→ltb_false, ==_self,
}
use ebu_libmxf.MemoryFile.Defs.{
  MemFile, get_chunk_pos, extend_mem_file, fill_chunks, fill_to_pos, write_at_pos, mem_file_write,
  mem_file_get_size,
}

-- A file of one chunk of `k` bytes that holds the first `size` of `bytes`, at `position`.
abbrev pub one_chunk : ℕ → List ℕ → ℕ → ℕ → MemFile
one_chunk k bytes size position = record {
  chunk_size = k;
  read_only = false;
  virtual_start_pos = 0;
  chunks = (record { bytes = bytes; alloc_size = k; size = size }) ∷ [];
  position = position;
  eof = false;
}

at-one_chunk :
    (k : ℕ) (bytes : List ℕ) (size position p : ℕ)
    → p ≤ size
    → get_chunk_pos (record (one_chunk k bytes size position) { position = p }) ≡ some (0, p)
unfolding get_chunk_pos
at-one_chunk k bytes size position p h = rw (le→ltb_false size p h) refl

past-one_chunk :
    (k : ℕ) (bytes : List ℕ) (size position : ℕ)
    → size < position
    → get_chunk_pos (one_chunk k bytes size position) ≡ none
unfolding get_chunk_pos
past-one_chunk k bytes size position h = rw (lt→ltb size position h) refl

extend-one_chunk :
    (malloc : ℕ → ℕ → List ℕ) (k : ℕ) (bytes : List ℕ) (size position m : ℕ)
    → m ≤ k - size
    → extend_mem_file malloc (one_chunk k bytes size position) m ≡ one_chunk k bytes size position
unfolding extend_mem_file
extend-one_chunk malloc k bytes size position m h = rw (le→leb m (k - size) h) refl

-- The gap is filled with a size that does not count what the chunk holds.
fill-one_chunk :
    (k : ℕ) (bytes : List ℕ) (size position : ℕ)
    → size ≤ k
    → position ≤ k
    → fill_to_pos (one_chunk k bytes size position) size
      ≡ some (one_chunk k bytes (position - size) position)
unfolding fill_to_pos fill_chunks
fill-one_chunk k bytes size position h b =
    rw (at-one_chunk k bytes size position size (omega arith), fill_to_pos)
      (rw (==_self size) (rw (le→leb position (size + (k - size)) (omega arith)) refl))

write-one_chunk :
    (k : ℕ) (bytes : List ℕ) (size position : ℕ) (bs : List ℕ)
    → size < position
    → write_at_pos (one_chunk k bytes size position) bs ≡ none
unfolding write_at_pos
write-one_chunk k bytes size position bs h =
    rw (past-one_chunk k bytes size position h, write_at_pos) refl

size-one_chunk :
    (k : ℕ) (bytes : List ℕ) (size position : ℕ)
    → mem_file_get_size (one_chunk k bytes size position) ≡ size
unfolding mem_file_get_size
size-one_chunk k bytes size position = omega arith

-- On a memory file of one chunk that holds some bytes, a write of some bytes at a position behind
-- these and within the chunk is not defined: the gap is filled with a size that does not count the
-- bytes before it, and the place of the position is not found. The chunk size fits 32 bits.
pub mem_file_write-gap :
    (malloc : ℕ → ℕ → List ℕ) (k : ℕ) (bytes : List ℕ) (size position b : ℕ) (bs : List ℕ)
    → 0 < size
    → size < position
    → position + length (b ∷ bs) ≤ k
    → k < 2 ^ 32
    → mem_file_write malloc (one_chunk k bytes size position) (b ∷ bs) ≡ none
unfolding mem_file_write
mem_file_write-gap malloc k bytes size position b bs p q r s =
    rw
      (
        some_left,
        size-one_chunk k bytes size position,
        lt→ltb size (position + length (b ∷ bs)) (omega arith),
        le→ltb_false (2 ^ 32 - 1) (position + length (b ∷ bs) - size) (omega arith),
        extend-one_chunk malloc k bytes size position (position + length (b ∷ bs) - size)
            (omega arith),
        lt→ltb size position q,
        fill-one_chunk k bytes size position (omega arith) (omega arith),
      )
      (write-one_chunk k bytes (position - size) position (b ∷ bs) (omega arith))
  where
    some_left : (length (b ∷ bs) == 0) ≡ false
    some_left = ground arith
