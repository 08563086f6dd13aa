-- ===== src/MemoryFile/Valid.antt =====
-- The state of a memory file of mxf/mxf_memory_file.c that is open for writing.
use ebu_libmxf.Base.{
  ℕ, ◌+◌, ◌-◌, ◌*◌, ◌^◌, ◌≤◌, ◌<◌, ◌≡◌, refl, false, none, some, List, [], ◌∷◌, length, take, drop,
  arith,
}
use ebu_libmxf.File.Ops.{View}
use ebu_libmxf.MemoryFile.Defs.{Chunk, MemFile, last?, mem_file_get_size, mem_file_open_new}
use ebu_libmxf.MemoryFile.Layout.{flat, Layout, last-Layout}

abbrev pub contents_of : MemFile → List ℕ
contents_of s = flat s.chunks

-- Every chunk but the last is full, and the last holds something; the position lies in the file.
pub record IsValid (s : MemFile) : Type 0 where
  pub some_size : 0 < s.chunk_size
  pub size_fits : s.chunk_size < 2 ^ 32
  pub can_write : s.read_only ≡ false
  pub no_start : s.virtual_start_pos ≡ 0
  pub layout : Layout s.chunk_size s.chunks (length (contents_of s))
  pub tight : s.chunk_size * length s.chunks < length (contents_of s) + s.chunk_size
  pub inside : s.position ≤ length (contents_of s)

-- The byte file that it stands for.
abbrev pub view_of : MemFile → View
view_of s = record {
  before = take s.position (contents_of s);
  after = drop s.position (contents_of s);
}

get_size_chunks :
    (k : ℕ) (cs : List Chunk) (total : ℕ)
    → 0 < k
    → Layout k cs total
    → k * length cs < total + k
    → elim (last? cs) as (λ _. ℕ) [ none ↦ 0 | some c ↦ k * (length cs - 1) + c.size ] ≡ total
get_size_chunks k [] total p h t = omega (arith, h)
get_size_chunks k (c ∷ cs) total p h t =
    let r = last-Layout k c cs total h (omega arith) in
    let less : length (c ∷ cs) - 1 ≡ length cs = omega arith in rw (r.1, less) (omega (arith, r.3))

pub mem_file_get_size-IsValid :
    {s : MemFile} → IsValid s → mem_file_get_size s ≡ length (contents_of s)
unfolding mem_file_get_size
mem_file_get_size-IsValid {s} v =
    get_size_chunks s.chunk_size s.chunks (length (contents_of s)) v.some_size v.layout v.tight

pub mem_file_open_new-IsValid :
    (chunk_size : ℕ) → chunk_size < 2 ^ 32 → IsValid (mem_file_open_new chunk_size 0)
unfolding mem_file_open_new
mem_file_open_new-IsValid chunk_size h = record {
  some_size = ground arith;
  size_fits = ground arith;
  can_write = refl;
  no_start = refl;
  layout = refl;
  tight = ground arith;
  inside = omega arith;
}
