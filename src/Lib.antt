-- ===== src/Lib.antt =====
-- libMXF, the C library in mxf/ that reads and writes files of the Material Exchange Format: a
-- model of its file layer, its file in memory, its list, its tree, its primer pack, its partitions,
-- its index table segments and its essence elements, with theorems about them.
--
-- How the parts interact. An `MXFFile` (mxf/mxf_file.h) is a table of functions that an
-- implementation sets, with a little state of its own: the minimum length of a length field, the
-- length of the run-in and the size of the zeros buffer. mxf/mxf_file.c builds numbers, length
-- fields and KLV headers on the table. mxf/mxf_list.c is the list that all other parts keep their
-- data in. mxf/mxf_primer.c maps local tags to identifiers; mxf/mxf_partition.c writes, links and
-- reads partition packs, fillers and the random index pack. mxf/mxf_index_table.c writes and reads the
-- segments of an index table, and mxf/mxf_essence_container.c writes and reads essence elements. All
-- of these call the file functions; the primer and the partitions keep their entries and labels in
-- lists. mxf/mxf_memory_file.c is an implementation of the table, which `mem_file` of MemoryFile/Laws
-- gives as a byte file. mxf/mxf_tree.c is a search tree that the parts modelled here do not use.
--
-- Files, and the code they model:
--   Base            numbers, tests, lists, bits and signed offsets that the parts share
--   File/Ops        mxf/mxf_file.h: the function table, a parameter; and the laws of a byte file that
--                   the code relies on of an implementation (a record, a parameter of the theorems)
--   File/Monad      mxf/mxf_file.h, mxf/mxf_macros.h: `MxfFile`, and the functions that return 1 or
--                   0 as state-passing functions into an outcome; `mxf_file_read` is `file_read`, ...
--   File/Words, File/Length, File/Klv, File/Skip
--                   mxf/mxf_file.c: `mxf_read_uint32` is `read_uint32`, `mxf_write_l` is `write_l`,
--                   and so on, with the loops as functions of their own
--   File/Laws       what these functions do to the byte file, and the rule of sequence
--   MxfList         mxf/mxf_list.c: operations, iterators, the abstract sequence and the refinement
--   Keys            mxf/mxf_utils.c, mxf/mxf_labels_and_keys.h: comparison of keys, and the keys used
--   Primer          mxf/mxf_primer.c: operations, registration, codec
--   Partition       mxf/mxf_partition.c: Defs (kinds, marks), Pack (codec, links), Fill, Rip, Runin,
--                   and the proofs about each
--   IndexTable      mxf/mxf_index_table.c: Defs (adding entries to a segment, and writing it), Read
--                   (reading it), and the proofs about each; Coded, Items, Deltas, EntriesRead and
--                   RoundTrip are the steps of the round trip
--   MemoryFile      mxf/mxf_memory_file.c: Defs (the chunks, and the functions of the table), Layout
--                   and Locate (the chunk of a position), Valid (well-formed files, and the bytes that
--                   one stands for), Read, Extend, WriteLoop, Write, Seek, Gap (a write that goes
--                   wrong), and Laws (the table as a byte file)
--   EssenceContainer
--                   mxf/mxf_essence_container.c: Defs (elements and track numbers), Laws (writing an
--                   element), Read and RoundTrip
--   Tree            mxf/mxf_tree.c: Defs (the nodes and the operations), Balance, Rotate, Mirror and Join
--                   (rebalancing), Order (sorted data), Insert, Remove, Search, Reached
--   Tests           a byte file in memory, and the theorems at concrete inputs
--
-- How the state corresponds. A function that takes an `MXFFile *` takes and returns an `MxfFile`; what
-- it stores through other pointers it returns, if it succeeds. A `return 0` is the outcome `failed`,
-- with the file as the calls so far have left it; a failing `assert` is a failure too. A list is the
-- chain of its data; a pointer to an element is the place of the element. The functions that change an
-- essence element and then fail give it together with what they return. The heights of a tree are
-- natural numbers. Other machine words are natural numbers with the wrap-around written out.
--
-- Fuel. `skip_loop` has a round for each buffer of 2048 bytes and one more. `create_tag_loop` has
-- 0x8001 rounds: the counter falls by one in each round and the loop ends below 0x8000. `kag_loop` has
-- 25 rounds and the minimum length: each adds at least 1, and it ends once there is room for the key
-- and the longest length field. The search for the key behind a run-in has one round for each byte
-- it may read, 65535 and 12. `read_items` has a round for each four bytes of the segment and two more:
-- each takes a tag and a length of two bytes each at least, and lengths are added without wrap-around
-- below 64 bits. `balance` gives `balance_tree` the two heights and 6 more: each round but a few goes
-- on with a lower tree. `read_next_nonfiller_kl` takes the number of fillers it may pass as an
-- argument.
--
-- The key of fillers, `g_KLVFill_key`, is a variable that the application may set, so the functions that
-- write or pass over fillers take it as an argument.
--
-- What memory holds is a parameter. `Memory` is what `malloc` gives for the two buffers of the index
-- entries, and `malloc` is what it gives for each chunk of a memory file. A memory file that would be
-- read or written outside its chunks, or at a place that the code has not set, gives `none`, which the
-- function table, of total functions, passes on as a write of nothing.
--
-- Not modelled: failure of allocation, freeing, logging (the warning about the length of an index entry
-- with it), the disk file and the standard streams, the casts for signed words, the limit of 63 bits of
-- a position in a memory file, closing and flushing a memory file and the access to its chunks, the
-- search for the footer partition, and the parts of mxf/ not named above.
pub mod Base
pub mod File
pub mod MxfList
pub mod Keys
pub mod Primer
pub mod Partition
pub mod IndexTable
pub mod MemoryFile
pub mod Tree
pub mod EssenceContainer
pub mod Tests
