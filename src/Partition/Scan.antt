-- ===== src/Partition/Scan.antt =====
-- mxf_read_next_nonfiller_kl of mxf/mxf_partition.c.
use ebu_libmxf.Base.{
  ℕ, zero, suc, ◌^◌, ◌<◌, ◌≡◌, refl, ap, sym, ◌∙◌, Bool-cases, inl, inr, true, false, List, [], ◌∷◌,
  ◌++◌, length, take, drop, All, append_assoc, append-nil, arith, take-all, length-drop, list_eq,
  list_eq_self, list_eq→eq,
}
use ebu_libmxf.File.Ops.{FileOps, ByteFile}
use ebu_libmxf.File.Monad.{MxfFile}
use ebu_libmxf.File.Klv.{Key, IsKey, read_kl}
use ebu_libmxf.File.Skip.{skip}
use ebu_libmxf.File.Laws.{IsOpen, Read, Reads, Reads-bind}
use ebu_libmxf.File.Laws.Primitives.{give-Reads, Reads-bytes}
use ebu_libmxf.File.Laws.Length.{ber, Fits}
use ebu_libmxf.File.Laws.Klv.{read_kl-Reads}
use ebu_libmxf.File.Laws.Skip.{skip-Reads}
use ebu_libmxf.Partition.Defs.{is_filler}
use ebu_libmxf.Partition.Fill.{pass_fillers, read_next_nonfiller_kl}

-- The octets of two keys agree but for the registry version, which is the octet at place 7.
abbrev pub SameButVersion : Key → Key → Type 0
SameButVersion a b = (take 7 a ≡ take 7 b) × (drop 8 a ≡ drop 8 b)

-- The key, the length of the length field and the contents of each filler, in order.
abbrev pub filler_run : List (Key × ℕ × List ℕ) → List ℕ
filler_run [] = []
filler_run ((key, llen, xs) ∷ fs) = (key ++ ber llen (length xs)) ++ (xs ++ filler_run fs)

abbrev pub IsFiller : Key → Key × ℕ × List ℕ → Type 0
IsFiller fill_key (key, llen, xs) =
    IsKey key × SameButVersion key fill_key × Fits llen (length xs) × (length xs < 2 ^ 63)

take-last_octets : (k : Key) → IsKey k → take 8 (drop 8 k) ≡ drop 8 k
take-last_octets k h = take-all 8 (drop 8 k) (omega (arith, length-drop 8 k))

same-is_filler : (fill_key key : Key) → SameButVersion key fill_key → is_filler fill_key key ≡ true
unfolding is_filler
same-is_filler fill_key key s =
    rw (s.0, s.1, list_eq_self (take 7 fill_key), list_eq_self (take 8 (drop 8 fill_key))) refl

other-is_filler :
    (fill_key key : Key)
    → IsKey fill_key
    → IsKey key
    → ¬ SameButVersion key fill_key
    → is_filler fill_key key ≡ false
unfolding is_filler
other-is_filler fill_key key h k n = elim (Bool-cases (is_filler fill_key key)) [
  | inl e ↦
      let first : list_eq (take 7 key) (take 7 fill_key) ≡ true = ground arith in
      let last : list_eq (take 8 (drop 8 key)) (take 8 (drop 8 fill_key)) ≡ true = ground arith in
      absurd (
        n (
          list_eq→eq (take 7 key) (take 7 fill_key) first,
          sym (take-last_octets key k)
              ∙ list_eq→eq (take 8 (drop 8 key)) (take 8 (drop 8 fill_key)) last
              ∙ take-last_octets fill_key h,
        ))
  | inr e ↦ e
]

run_split :
    (head xs run tail : List ℕ) → head ++ (xs ++ (run ++ tail)) ≡ (head ++ (xs ++ run)) ++ tail
run_split head xs run tail =
    ap (λ ys. head ++ ys) (sym (append_assoc xs run tail))
    ∙ sym (append_assoc head (xs ++ run) tail)

module _ {S : Type 0} ⦃ops : FileOps S⦄ (laws : ByteFile ops) (fill_key : Key) where
  read_next-Reads :
      (fs : List (Key × ℕ × List ℕ)) (key : Key) (llen len : ℕ)
      → All (IsFiller fill_key) fs
      → IsKey key
      → Fits llen len
      → is_filler fill_key key ≡ false
      → Reads laws
          (read_next_nonfiller_kl fill_key (length fs))
          (key, llen, len)
          (filler_run fs ++ (key ++ ber llen len))
  unfolding read_next_nonfiller_kl pass_fillers
  read_next-Reads [] key llen len h k q other =
      Reads-bytes laws (append-nil (key ++ ber llen len)) (
        Reads-bind laws read_kl (pass_fillers fill_key zero) (key ++ ber llen len) []
          (read_kl-Reads laws key llen len k q) (rw other (give-Reads laws (key, llen, len))))
  read_next-Reads ((filler_key, m, xs) ∷ fs) key llen len h k q other =
      let head = filler_key ++ ber m (length xs) in
      Reads-bytes laws (run_split head xs (filler_run fs) (key ++ ber llen len)) (
        Reads-bind laws read_kl (pass_fillers fill_key (suc (length fs))) head
          (xs ++ (filler_run fs ++ (key ++ ber llen len)))
          (read_kl-Reads laws filler_key m (length xs) h.0.0 h.0.2)
          (rw (same-is_filler fill_key filler_key h.0.1) (
            Reads-bind laws (skip (length xs)) (λ _. read_next_nonfiller_kl fill_key (length fs)) xs
              (filler_run fs ++ (key ++ ber llen len)) (skip-Reads laws (length xs) xs refl h.0.3)
              (read_next-Reads fs key llen len h.1 k q other))))

  -- On an open file that has fillers next, each with a key that is the application's but for the
  -- registry version and with any contents, and then the header of a KLV triplet whose key differs
  -- in some other octet, `read_next_nonfiller_kl` reads all of these and returns that header; a
  -- round for each filler is enough. Keys have 16 octets, the lengths fit their fields, and those
  -- of fillers are below 2 to the 63.
  pub read_next_nonfiller_kl-passes :
      (f : MxfFile S) (fs : List (Key × ℕ × List ℕ)) (key : Key) (llen len : ℕ) (rest : List ℕ)
      → IsOpen laws f
      → IsKey fill_key
      → All (IsFiller fill_key) fs
      → IsKey key
      → ¬ SameButVersion key fill_key
      → Fits llen len
      → (laws.view f.sys).after ≡ (filler_run fs ++ (key ++ ber llen len)) ++ rest
      → Read laws f
          (read_next_nonfiller_kl fill_key (length fs) f)
          (key, llen, len)
          (filler_run fs ++ (key ++ ber llen len))
          rest
  read_next_nonfiller_kl-passes f fs key llen len rest o i h k n q e =
      read_next-Reads fs key llen len h k q (other-is_filler fill_key key i k n) f rest o e
