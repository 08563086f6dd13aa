-- ===== src/MemoryFile/Defs.antt =====
-- The chunks of a memory file, and the functions that mxf/mxf_memory_file.c puts in the function
-- table. Positions and sizes are not cut to 63 bits, and the virtual start is not negative. Where
-- the code reads or writes out of bounds or uses a value that it has not set, the result is `none`.
use ebu_libmxf.Base.{
  ℕ, zero, suc, ◌+◌, ◌-◌, ◌*◌, ◌/◌, ◌%◌, ◌^◌, Bool, true, false, ◌||◌, Option, none, some, List, [],
  ◌∷◌, ◌++◌, length, get_elem?, take, drop, min, ltb, leb, ◌==◌, if◌then◌else◌,
}
use ebu_libmxf.Base.Int.{ℤ, pos, negsuc}
use ebu_libmxf.File.Ops.{FileOps, Whence, seek_set, seek_cur, seek_end, head?}

pub record Chunk : Type 0 where
  pub bytes : List ℕ
  pub alloc_size : ℕ
  pub size : ℕ

pub record MemFile : Type 0 where
  pub chunk_size : ℕ
  pub read_only : Bool
  pub virtual_start_pos : ℕ
  pub chunks : List Chunk
  pub position : ℕ
  pub eof : Bool

abbrev pub last? : List Chunk → Option Chunk
last? [] = none
last? (c ∷ []) = some c
last? (c ∷ d ∷ cs) = last? (d ∷ cs)

-- `chunkRemainder`: what the last chunk has left.
abbrev pub remainder_of : Option Chunk → ℕ
remainder_of none = 0
remainder_of (some c) = c.alloc_size - c.size

unfoldable pub mem_file_get_size : MemFile → ℕ
mem_file_get_size s = elim (last? s.chunks) [
  | none ↦ 0
  | some c ↦ s.chunk_size * (length s.chunks - 1) + c.size
]

unfoldable pub mem_file_size : MemFile → ℕ
mem_file_size s = s.virtual_start_pos + mem_file_get_size s

-- The chunk of the position and the place in it, and the test at the end of `get_chunk_pos`.
abbrev pub within : MemFile → ℕ → ℕ → Option (ℕ × ℕ)
within s index p = elim (get_elem? s.chunks index) [
  | none ↦ none
  | some c ↦ if ltb c.size p then none else some (index, p)
]

unfoldable pub get_chunk_pos : MemFile → Option (ℕ × ℕ)
get_chunk_pos s =
    let n = length s.chunks in
    let i = s.position / s.chunk_size in
    let index = if i == n then i - 1 else i in
    if n == 0
    then none
    else if n == 1
    then within s 0 s.position
    else if ltb n i
    then none
    else within s index (s.position - s.chunk_size * index)

-- What `malloc` gives for the chunk with that index, of that size.
module _ (malloc : ℕ → ℕ → List ℕ) where
  unfoldable pub new_chunks : ℕ → ℕ → ℕ → List Chunk
  new_chunks zero index size = []
  new_chunks (suc n) index size =
      (record { bytes = malloc index size; alloc_size = size; size = 0 })
      ∷ new_chunks n (suc index) size

  -- `(uint32_t)((minSize - chunkRemainder + chunkSize - 1) / chunkSize)` chunks are added.
  unfoldable pub extend_mem_file : MemFile → ℕ → MemFile
  extend_mem_file s min_size =
      let remainder = remainder_of (last? s.chunks) in
      let more = (min_size - remainder + s.chunk_size - 1) / s.chunk_size % 2 ^ 32 in
      if leb min_size remainder
      then s
      else record s { chunks = s.chunks ++ new_chunks more (length s.chunks) s.chunk_size }

abbrev pub with_front : {A : Type 0} → List A → Option (List A) → Option (List A)
with_front front none = none
with_front front (some xs) = some (front ++ xs)

-- The loop that adds data from the end of the file to the position.
unfoldable pub fill_chunks : List Chunk → ℕ → ℕ → Option (List Chunk)
fill_chunks [] file_size position = none
fill_chunks (c ∷ cs) file_size position =
    let remainder = c.alloc_size - c.size in
    let rest = fill_chunks cs (file_size + remainder) position in
    if leb position (file_size + remainder)
    then some (record c { size = position - file_size } ∷ cs)
    else with_front (record c { size = c.alloc_size } ∷ []) rest

-- It starts at the chunk of the end of the file, whose place there is asserted to be its size.
unfoldable pub fill_to_pos : MemFile → ℕ → Option MemFile
fill_to_pos s file_size = elim (get_chunk_pos (record s { position = file_size })) [
  | none ↦ none
  | some (index, p) ↦ elim (get_elem? s.chunks index) [
    | none ↦ none
    | some c ↦
        if p == c.size
        then elim (with_front (take index s.chunks)
            (fill_chunks (drop index s.chunks) file_size s.position)) [
              | none ↦ none
              | some cs ↦ some (record s { chunks = cs })
            ]
        else none
  ]
]

-- One round of the writing loop, on the chunk at hand: `n` bytes go to the place `p`.
abbrev pub written : Chunk → ℕ → ℕ → List ℕ → Chunk
written c p n bs = if n == 0 then c else record c {
  bytes = take p c.bytes ++ (take n bs ++ drop (p + n) c.bytes);
  size = if ltb c.size (p + n) then p + n else c.size;
}

unfoldable pub write_loop : List Chunk → ℕ → List ℕ → Option (List Chunk)
write_loop cs p [] = some cs
write_loop [] p (b ∷ bs) = none
write_loop (c ∷ cs) p (b ∷ bs) =
    let n = min (c.alloc_size - p) (length (b ∷ bs)) in
    let rest = write_loop cs 0 (drop n (b ∷ bs)) in
    if leb c.alloc_size (p + n)
    then with_front (written c p n (b ∷ bs) ∷ []) rest
    else some (written c p n (b ∷ bs) ∷ cs)

-- The loop from the position on, which goes forward.
unfoldable pub write_at_pos : MemFile → List ℕ → Option (ℕ × MemFile)
write_at_pos s bs = elim (get_chunk_pos s) [
  | none ↦ none
  | some (index, p) ↦
      elim (with_front (take index s.chunks) (write_loop (drop index s.chunks) p bs)) [
        | none ↦ none
        | some cs ↦ some (length bs, record s { chunks = cs; position = s.position + length bs })
      ]
]

-- After the file has been extended.
abbrev pub fill_and_write : MemFile → ℕ → List ℕ → Option (ℕ × MemFile)
fill_and_write s file_size bs =
    if ltb file_size s.position
    then elim (fill_to_pos s file_size) [ none ↦ none | some s' ↦ write_at_pos s' bs ]
    else write_at_pos s bs

unfoldable pub read_loop : List Chunk → ℕ → ℕ → List ℕ
read_loop [] p count = []
read_loop (c ∷ cs) p count =
    let n = min (c.size - p) count in
    let rest = read_loop cs 0 (count - n) in
    let got = take n (drop p c.bytes) in if leb c.size (p + n) then got ++ rest else got

unfoldable pub mem_file_read : MemFile → ℕ → List ℕ × MemFile
mem_file_read s count = if count == 0 then ([], s) else elim (get_chunk_pos s) [
  | none ↦ ([], s)
  | some (index, p) ↦
      let bs = read_loop (drop index s.chunks) p count in
      (bs, record s { position = s.position + length bs; eof = ltb (length bs) count })
]

unfoldable pub mem_file_getchar : MemFile → Option ℕ × MemFile
mem_file_getchar s = let (bs, s') = mem_file_read s 1 in (head? bs, s')

-- A negative position is refused.
abbrev pub go_to : MemFile → Bool → ℕ → Bool × MemFile
go_to s fits position =
    if fits then (true, record s { eof = false; position = position }) else (false, s)

unfoldable pub mem_file_seek : MemFile → ℤ → Whence → Bool × MemFile
mem_file_seek s (pos n) seek_set = go_to s (leb s.virtual_start_pos n) (n - s.virtual_start_pos)
mem_file_seek s (negsuc n) seek_set = (false, s)
mem_file_seek s (pos n) seek_cur = go_to s true (s.position + n)
mem_file_seek s (negsuc n) seek_cur = go_to s (ltb n s.position) (s.position - (n + 1))
mem_file_seek s (pos n) seek_end = go_to s true (mem_file_get_size s + n)
mem_file_seek s (negsuc n) seek_end =
    go_to s (ltb n (mem_file_get_size s)) (mem_file_get_size s - (n + 1))

unfoldable pub mem_file_tell : MemFile → ℕ
mem_file_tell s = s.virtual_start_pos + s.position

unfoldable pub mem_file_open_new : ℕ → ℕ → MemFile
mem_file_open_new chunk_size virtual_start_pos = record {
  chunk_size = if chunk_size == 0 then 4096 else chunk_size;
  read_only = false;
  virtual_start_pos = virtual_start_pos;
  chunks = [];
  position = 0;
  eof = false;
}

-- One chunk that is not written to; the chunk size stays 0.
unfoldable pub mem_file_open_read : List ℕ → ℕ → MemFile
mem_file_open_read bs virtual_start_pos = record {
  chunk_size = 0;
  read_only = true;
  virtual_start_pos = virtual_start_pos;
  chunks = (record { bytes = bs; alloc_size = length bs; size = length bs }) ∷ [];
  position = 0;
  eof = false;
}

module _ (malloc : ℕ → ℕ → List ℕ) where
  unfoldable pub mem_file_write : MemFile → List ℕ → Option (ℕ × MemFile)
  mem_file_write s bs =
      let count = length bs in
      let file_size = mem_file_get_size s in
      let missing = s.position + count - file_size in
      let s' = extend_mem_file malloc s missing in
      if count == 0 || s.read_only
      then some (0, s)
      else if ltb file_size (s.position + count)
      then (if ltb (2 ^ 32 - 1) missing then some (0, s) else fill_and_write s' file_size bs)
      else write_at_pos s bs

  -- The function table holds total functions: a write that is not defined is given as one of
  -- nothing.
  abbrev pub defined : MemFile → Option (ℕ × MemFile) → ℕ × MemFile
  defined s none = (0, s)
  defined s (some r) = r

  unfoldable pub mem_file_putchar : MemFile → ℕ → Option ℕ × MemFile
  mem_file_putchar s c =
      let (n, s') = defined s (mem_file_write s (c % 256 ∷ [])) in
      (if n == 0 then none else some c, s')

  abbrev pub mem_file_ops : FileOps MemFile
  mem_file_ops = record {
    read = mem_file_read;
    write = λ s bs. defined s (mem_file_write s bs);
    get_char = mem_file_getchar;
    put_char = mem_file_putchar;
    seek = mem_file_seek;
    tell = λ s. some (mem_file_tell s);
    is_seekable = λ s. true;
  }
