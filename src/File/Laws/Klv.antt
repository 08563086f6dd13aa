-- ===== src/File/Laws/Klv.antt =====
-- The keys, local tags and KLV headers of mxf/mxf_file.c over a file of bytes.
use ebu_libmxf.Base.{ℕ, ◌^◌, ◌≤◌, ◌<◌, sym, ◌++◌, arith}
use ebu_libmxf.File.Ops.{FileOps, ByteFile}
use ebu_libmxf.File.Words.{read_uint16, write_uint16}
use ebu_libmxf.File.Length.{read_l, write_l, write_fixed_l}
use ebu_libmxf.File.Klv.{
  Key, IsKey, read_k, read_ul, read_uid, read_kl, read_local_tag, read_local_tl, write_local_tag,
  write_local_tl, write_k, write_ul, write_uid, write_kl, write_fixed_kl,
}
use ebu_libmxf.File.Laws.{Writes, Reads, Writes-bind, Reads-bind}
use ebu_libmxf.File.Laws.Primitives.{
  Reads-give, Writes-give, read_exactly-Reads, write_exactly-Writes,
}
use ebu_libmxf.File.Laws.Words.{be16, read_uint16-Reads, write_uint16-Writes}
use ebu_libmxf.File.Laws.Length.{
  Fits, ber, llen_for, read_l-Reads, write_l-Writes, write_fixed_l-Writes,
}

module _ {S : Type 0} ⦃ops : FileOps S⦄ (laws : ByteFile ops) where
  pub write_k-Writes : (ml : ℕ) (key : Key) → IsKey key → Writes laws ml (write_k key) tt key
  unfolding write_k
  write_k-Writes ml key h = write_exactly-Writes laws ml key (omega arith)

  pub read_k-Reads : (key : Key) → IsKey key → Reads laws read_k key key
  unfolding read_k
  read_k-Reads key h = read_exactly-Reads laws key 16 (sym h) (omega arith)

  pub write_ul-Writes : (ml : ℕ) (key : Key) → IsKey key → Writes laws ml (write_ul key) tt key
  unfolding write_ul
  write_ul-Writes ml key h = write_k-Writes ml key h

  pub read_ul-Reads : (key : Key) → IsKey key → Reads laws read_ul key key
  unfolding read_ul
  read_ul-Reads key h = read_exactly-Reads laws key 16 (sym h) (omega arith)

  pub write_uid-Writes : (ml : ℕ) (key : Key) → IsKey key → Writes laws ml (write_uid key) tt key
  unfolding write_uid
  write_uid-Writes ml key h = write_k-Writes ml key h

  pub read_uid-Reads : (key : Key) → IsKey key → Reads laws read_uid key key
  unfolding read_uid
  read_uid-Reads key h = read_ul-Reads key h

  pub write_local_tl-Writes :
      (ml tag len : ℕ) → Writes laws ml (write_local_tl tag len) tt (be16 tag ++ be16 len)
  unfolding write_local_tl write_local_tag
  write_local_tl-Writes ml tag len =
      Writes-bind laws ml (write_uint16 tag) (λ _. write_uint16 len) (be16 tag) (be16 len)
        (write_uint16-Writes laws ml tag) (write_uint16-Writes laws ml len)

  pub read_local_tl-Reads :
      (tag len : ℕ)
      → tag < 2 ^ 16
      → len < 2 ^ 16
      → Reads laws read_local_tl (tag, len) (be16 tag ++ be16 len)
  unfolding read_local_tl read_local_tag
  read_local_tl-Reads tag len ht hl =
      Reads-bind laws read_uint16 _ (be16 tag) (be16 len) (read_uint16-Reads laws tag ht)
        (Reads-give laws read_uint16 (λ l. (tag, l)) (be16 len) (read_uint16-Reads laws len hl))

  pub write_fixed_kl-Writes :
      (ml : ℕ) (key : Key) (llen len : ℕ)
      → IsKey key
      → Fits llen len
      → Writes laws ml (write_fixed_kl key llen len) tt (key ++ ber llen len)
  unfolding write_fixed_kl
  write_fixed_kl-Writes ml key llen len hk hf =
      Writes-bind laws ml (write_k key) (λ _. write_fixed_l llen len) key (ber llen len)
        (write_k-Writes ml key hk) (write_fixed_l-Writes laws ml llen len hf)

  pub write_kl-Writes :
      (ml : ℕ) (key : Key) (len : ℕ)
      → IsKey key
      → len < 2 ^ 64
      → ml ≤ 9
      → Writes laws ml (write_kl key len) tt (key ++ ber (llen_for ml len) len)
  unfolding write_kl
  write_kl-Writes ml key len hk hl hm =
      Writes-bind laws ml (write_k key) _ key (ber (llen_for ml len) len) (write_k-Writes ml key hk)
        (Writes-give laws ml (write_l len) (λ _. tt) (ber (llen_for ml len) len)
          (write_l-Writes laws ml len hl hm))

  pub read_kl-Reads :
      (key : Key) (llen len : ℕ)
      → IsKey key
      → Fits llen len
      → Reads laws read_kl (key, llen, len) (key ++ ber llen len)
  unfolding read_kl
  read_kl-Reads key llen len hk hf =
      Reads-bind laws read_k _ key (ber llen len) (read_k-Reads key hk) (
        Reads-give laws read_l (λ p. (key, p.0, p.1)) (ber llen len)
          (read_l-Reads laws llen len hf))
