-- ===== src/File/Klv.antt =====
-- mxf/mxf_file.c: keys, local tags and the headers of KLV triplets. A key is its 16 octets.
use ebu_libmxf.Base.{ℕ, ◌≡◌, List, length}
use ebu_libmxf.File.Ops.{FileOps}
use ebu_libmxf.File.Monad.{M, ◌>>=◌, ◌>>◌, give, read_exactly, write_exactly}
use ebu_libmxf.File.Words.{read_uint16, write_uint16}
use ebu_libmxf.File.Length.{read_l, write_l, write_fixed_l}

abbrev pub Key : Type 0
Key = List ℕ

abbrev pub IsKey : Key → Type 0
IsKey k = length k ≡ 16

module _ {S : Type 0} ⦃ops : FileOps S⦄ where
  unfoldable pub read_k : M S Key
  read_k = read_exactly 16

  unfoldable pub read_ul : M S Key
  read_ul = read_exactly 16

  unfoldable pub read_uid : M S Key
  read_uid = read_ul

  -- The key, the length of the length field, and the length.
  unfoldable pub read_kl : M S (Key × ℕ × ℕ)
  read_kl = do key ← read_k; (llen, len) ← read_l; give (key, llen, len)

  unfoldable pub read_local_tag : M S ℕ
  read_local_tag = read_uint16

  unfoldable pub read_local_tl : M S (ℕ × ℕ)
  read_local_tl = do tag ← read_local_tag; len ← read_uint16; give (tag, len)

  unfoldable pub write_local_tag : ℕ → M S (Unit {0})
  write_local_tag tag = write_uint16 tag

  unfoldable pub write_local_tl : ℕ → ℕ → M S (Unit {0})
  write_local_tl tag len = do write_local_tag tag; write_uint16 len

  unfoldable pub write_k : Key → M S (Unit {0})
  write_k key = write_exactly key

  unfoldable pub write_ul : Key → M S (Unit {0})
  write_ul label = write_k label

  unfoldable pub write_uid : Key → M S (Unit {0})
  write_uid uid = write_k uid

  unfoldable pub write_kl : Key → ℕ → M S (Unit {0})
  write_kl key len = do write_k key; _ ← write_l len; give tt

  unfoldable pub write_fixed_kl : Key → ℕ → ℕ → M S (Unit {0})
  write_fixed_kl key llen len = do write_k key; write_fixed_l llen len
