-- ===== src/Tests/MemoryFile.antt =====
-- mxf/mxf_memory_file.c on chunks of four bytes.
use ebu_libmxf.Base.{false, ℕ, ◌≡◌, refl, none, List, [], ◌∷◌, replicate, length-replicate, arith}
use ebu_libmxf.File.Ops.{forward}
use ebu_libmxf.MemoryFile.Defs.{MemFile, mem_file_open_new, mem_file_read, mem_file_write}
use ebu_libmxf.MemoryFile.Valid.{IsValid, view_of, mem_file_open_new-IsValid}
use ebu_libmxf.MemoryFile.Read.{mem_file_read_lem}
use ebu_libmxf.MemoryFile.Extend.{IsMalloc}
use ebu_libmxf.MemoryFile.Write.{Stores, mem_file_write_lem}
use ebu_libmxf.MemoryFile.Gap.{one_chunk, mem_file_write-gap}

-- Fresh memory is full of 0xcd.
abbrev pub fresh : ℕ → ℕ → List ℕ
fresh index size = replicate size 0xcd

pub fresh-IsMalloc : IsMalloc fresh
fresh-IsMalloc index size = length-replicate size 0xcd

abbrev six : List ℕ
six = 1 ∷ 2 ∷ 3 ∷ 4 ∷ 5 ∷ 6 ∷ []

abbrev empty : MemFile
empty = mem_file_open_new 4 0

mem_file_write_lem_example : Stores fresh empty six
mem_file_write_lem_example =
    mem_file_write_lem fresh fresh-IsMalloc empty (mem_file_open_new-IsValid 4 (omega arith)) six
      (omega arith)

-- The file of six bytes, at its third byte.
abbrev halfway : MemFile
halfway = record {
  chunk_size = 4;
  read_only = false;
  virtual_start_pos = 0;
  chunks =
      (record { bytes = 1 ∷ 2 ∷ 3 ∷ 4 ∷ []; alloc_size = 4; size = 4 })
      ∷ (record { bytes = 5 ∷ 6 ∷ 0xcd ∷ 0xcd ∷ []; alloc_size = 4; size = 2 })
      ∷ [];
  position = 2;
  eof = false;
}

halfway-IsValid : IsValid halfway
halfway-IsValid = record {
  some_size = omega arith;
  size_fits = omega arith;
  can_write = refl;
  no_start = refl;
  layout = omega arith;
  tight = omega arith;
  inside = omega arith;
}

mem_file_read_lem_example :
    ((mem_file_read halfway 3).0 ≡ 3 ∷ 4 ∷ 5 ∷ [])
    × IsValid (mem_file_read halfway 3).1
    × (view_of (mem_file_read halfway 3).1 ≡ forward 3 (view_of halfway))
mem_file_read_lem_example = mem_file_read_lem halfway 3 halfway-IsValid

mem_file_write-gap_example :
    mem_file_write fresh (one_chunk 8 (1 ∷ 2 ∷ 0 ∷ 0 ∷ 0 ∷ 0 ∷ 0 ∷ 0 ∷ []) 2 5) (9 ∷ 9 ∷ []) ≡ none
mem_file_write-gap_example =
    mem_file_write-gap fresh 8 (1 ∷ 2 ∷ 0 ∷ 0 ∷ 0 ∷ 0 ∷ 0 ∷ 0 ∷ []) 2 5 9 (9 ∷ []) (omega arith)
      (omega arith) (omega arith) (omega arith)
