-- ===== src/File/Skip.antt =====
-- mxf/mxf_file.c: skipping input and writing zeros.
use ebu_libmxf.Base.{
  ℕ, zero, suc, ◌+◌, ◌-◌, ◌/◌, ◌%◌, ◌&&◌, replicate, ltb, leb, ◌==◌, if◌then◌else◌,
}
use ebu_libmxf.Base.Int.{to_int64}
use ebu_libmxf.File.Ops.{FileOps, seek_cur}
use ebu_libmxf.File.Monad.{
  M, done, ◌>>=◌, ◌>>◌, give, check, read_exactly, write_exactly, file_seek, file_is_seekable,
}

-- SKIP_BUFFER_SIZE, MAX_ZEROS_BUFFER_SIZE and ZEROS_BUFFER_INCREMENT
abbrev pub skip_buffer_size : ℕ
skip_buffer_size = 2048

abbrev pub max_zeros_buffer_size : ℕ
max_zeros_buffer_size = 16384

abbrev pub zeros_buffer_increment : ℕ
zeros_buffer_increment = 2048

-- The size that the zeros buffer has once `len` zeros are asked for.
unfoldable pub zeros_buffer_for : ℕ → ℕ → ℕ
zeros_buffer_for size len =
    if ltb size len && ltb size max_zeros_buffer_size
    then (if leb max_zeros_buffer_size len
        then max_zeros_buffer_size
        else len + (zeros_buffer_increment - len % zeros_buffer_increment))
    else size

module _ {S : Type 0} ⦃ops : FileOps S⦄ where
  -- The loop that reads and discards; one unit of fuel is spent for each buffer that is read.
  unfoldable pub skip_loop : ℕ → ℕ → ℕ → M S (Unit {0})
  skip_loop zero len total_read = check (leb len total_read)
  skip_loop (suc fuel) len total_read =
      let num_read =
        if ltb skip_buffer_size (len - total_read) then skip_buffer_size else len - total_read in
      let more = (do _ ← read_exactly num_read; skip_loop fuel len (total_read + num_read)) in
      if ltb total_read len then more else give tt

  -- Each round but the last takes a whole buffer.
  unfoldable pub skip : ℕ → M S (Unit {0})
  skip len f =
      if file_is_seekable f
      then file_seek (to_int64 len) seek_cur f
      else skip_loop (len / skip_buffer_size + 1) len 0 f

  unfoldable pub write_buffers : ℕ → ℕ → M S (Unit {0})
  write_buffers zero size = give tt
  write_buffers (suc n) size = do write_exactly (replicate size 0); write_buffers n size

  unfoldable pub write_zeros_from : ℕ → ℕ → M S (Unit {0})
  write_zeros_from size len =
      let partial_count = len % size in
      do
        write_buffers (len / size) size
        if ltb 0 partial_count then write_exactly (replicate partial_count 0) else give tt

  unfoldable pub write_zeros : ℕ → M S (Unit {0})
  write_zeros len f =
      let size = zeros_buffer_for f.zeros_size len in
      if len == 0 then done tt f else write_zeros_from size len (record f { zeros_size = size })
