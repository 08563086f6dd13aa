-- ===== src/Partition/RuninSearch.antt =====
-- mxf_read_header_pp_kl_with_runin: the search for the header partition pack behind a run-in.
use ebu_libmxf.Base.{
  ℕ, zero, suc, ◌+◌, ◌%◌, ◌^◌, ◌≤◌, ◌<◌, ◌≡◌, ◌≢◌, refl, ap, sym, true, false, List, [], ◌∷◌, ◌++◌,
  length, take, All, ◌==◌, arith, le→leb, lt→ltb, ==_self,
}
use ebu_libmxf.File.Ops.{FileOps, View, ByteFile}
use ebu_libmxf.File.Monad.{MxfFile, done, getc_ok, read_exactly, set_runin_len}
use ebu_libmxf.File.Length.{read_l}
use ebu_libmxf.File.Laws.{IsOpen, Read, Reads, Reads-bind}
use ebu_libmxf.File.Laws.Primitives.{give-Reads, getc_ok-Reads, read_exactly-Reads}
use ebu_libmxf.File.Laws.Length.{ber, Fits, read_l-Reads}
use ebu_libmxf.Keys.{octet_of}
use ebu_libmxf.Partition.Defs.{pp_prefix_key, is_header_partition_pack}
use ebu_libmxf.Partition.Runin.{
  max_runin_len, searched, runin_rounds, search_key, read_found_pp_kl, read_header_pp_kl_with_runin,
}

-- The octets of the key that the search looks for.
abbrev pub searched_octets : List ℕ
searched_octets = take searched pp_prefix_key

-- The octets are those of the key from place `m` on, up to the last that is searched.
abbrev Matches : ℕ → List ℕ → Type 0
Matches m [] = m ≡ searched
Matches m (y ∷ ys) = (y ≡ octet_of pp_prefix_key m) × (m < searched) × Matches (m + 1) ys

searched-Matches : Matches 0 searched_octets
searched-Matches = (
  refl,
  omega arith,
  (
    refl,
    omega arith,
    (
      refl,
      omega arith,
      (
        refl,
        omega arith,
        (
          refl,
          omega arith,
          (
            refl,
            omega arith,
            (
              refl,
              omega arith,
              (
                refl,
                omega arith,
                (refl, omega arith, (refl, omega arith, (refl, omega arith, refl))),
              ),
            ),
          ),
        ),
      ),
    ),
  ),
)

module _ {S : Type 0} ⦃ops : FileOps S⦄ (laws : ByteFile ops) where
  matched-Reads :
      (ys : List ℕ) (fuel count m : ℕ)
      → Matches m ys
      → count ≤ max_runin_len
      → length ys < fuel
      → Reads laws (search_key fuel count m) count ys
  unfolding search_key
  matched-Reads ys zero count m h c l = absurd (omega arith)
  matched-Reads [] (suc fuel) count m h c l =
      rw (le→leb count max_runin_len c, h) (give-Reads laws count)
  matched-Reads (y ∷ ys) (suc fuel) count m h c l =
      rw (le→leb count max_runin_len c, lt→ltb m searched h.1)
        (Reads-bind laws getc_ok _ (y ∷ []) ys (getc_ok-Reads laws y) (
          rw (h.0, ==_self (octet_of pp_prefix_key m))
            (matched-Reads ys fuel count (m + 1) h.2 c (omega arith))))

  -- A run-in without the first octet of the key is counted.
  runin-Reads :
      (xs : List ℕ) (fuel count : ℕ)
      → All (λ x. x ≢ 0x06) xs
      → count + length xs ≤ max_runin_len
      → length xs + 11 < fuel
      → Reads laws (search_key fuel count 0) (count + length xs) (xs ++ searched_octets)
  unfolding search_key
  runin-Reads xs zero count h c l = absurd (omega arith)
  runin-Reads [] (suc fuel) count h c l =
      let e : count + 0 ≡ count = omega arith in
      rw e (
        matched-Reads searched_octets (suc fuel) count 0 searched-Matches (omega arith)
          (omega arith))
  runin-Reads (x ∷ xs) (suc fuel) count h c l =
      let other : (x == 0x06) ≡ false = ground arith in
      let more : count + suc (length xs) ≡ count + 1 + length xs = omega arith in
      rw (le→leb count max_runin_len (omega arith), more)
        (Reads-bind laws getc_ok _ (x ∷ []) (xs ++ searched_octets) (getc_ok-Reads laws x)
          (rw other (runin-Reads xs fuel (count + 1) h.1 (omega arith) (omega arith))))

  -- On an open file that has next a run-in of at most 65535 bytes, none of them 0x06, and then a
  -- key that is that of a header partition pack and a length, the key and the length are returned,
  -- the length of the run-in is noted in the file, and the position is behind the length field.
  pub read_header_pp_kl_with_runin-finds :
      (f : MxfFile S) (xs tail : List ℕ) (llen len : ℕ) (rest : List ℕ)
      → IsOpen laws f
      → All (λ x. x ≢ 0x06) xs
      → length xs ≤ 65535
      → length tail ≡ 5
      → is_header_partition_pack (searched_octets ++ tail) ≡ true
      → Fits llen len
      → (laws.view f.sys).after ≡ (xs ++ searched_octets) ++ (tail ++ (ber llen len ++ rest))
      → (g : MxfFile S) × (read_header_pp_kl_with_runin f
          ≡ done (searched_octets ++ tail, llen, len) g)
        × (g.runin_len ≡ length xs)
        × ((laws.view g.sys).after ≡ rest)
  unfolding read_header_pp_kl_with_runin read_found_pp_kl set_runin_len
  read_header_pp_kl_with_runin-finds f xs tail llen len rest o h c t p q e = (
    record field.file { runin_len = length xs },
    rw (search.result, le→leb (length xs) max_runin_len c, five.result, p, field.result, small)
        refl,
    refl,
    ap (λ (v : View). v.after) field.bytes,
  )
    where
      search :
          Read laws f
            (search_key runin_rounds 0 0 f)
            (length xs)
            (xs ++ searched_octets)
            (tail ++ (ber llen len ++ rest))
      search =
          let left : 0 + length xs ≡ length xs = omega arith in
          rw left at (
            runin-Reads xs runin_rounds 0 h (omega arith) (omega arith) f
              (tail ++ (ber llen len ++ rest)) o e)

      five : Read laws search.file (read_exactly 5 search.file) tail tail (ber llen len ++ rest)
      five =
          read_exactly-Reads laws tail 5 (sym t) (omega arith) search.file (ber llen len ++ rest)
            search.is_open (ap (λ (v : View). v.after) search.bytes)

      field : Read laws five.file (read_l five.file) (llen, len) (ber llen len) rest
      field =
          read_l-Reads laws llen len q five.file rest five.is_open
            (ap (λ (v : View). v.after) five.bytes)

      small : length xs % 2 ^ 16 ≡ length xs
      small = omega arith
