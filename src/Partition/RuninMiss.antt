-- ===== src/Partition/RuninMiss.antt =====
-- mxf_read_header_pp_kl_with_runin: a run-in that ends with the first octet of the key.
use ebu_libmxf.Base.{
  ℕ, zero, suc, ◌+◌, ◌≤◌, ◌<◌, ◌≡◌, ◌≢◌, refl, ap, sym, ◌^◌, ◌∙◌, subst, Bool, Bool-cases, inl, inr,
  true, false, ◌&&◌, ◌||◌, List, [], ◌∷◌, ◌++◌, append_assoc, length, take, drop, All, ltb, leb,
  ◌==◌, arith, get_or, le→leb, leb→le, length-take, take-append-drop,
}
use ebu_libmxf.File.Ops.{FileOps, View, ByteFile}
use ebu_libmxf.File.Monad.{MxfFile, failed, getc_ok, read_exactly, ◌>>=◌}
use ebu_libmxf.File.Laws.{IsOpen, Read}
use ebu_libmxf.File.Laws.Primitives.{getc_ok-Reads, getc_ok-end, read_exactly-Reads}
use ebu_libmxf.Keys.{octet_of}
use ebu_libmxf.Partition.Defs.{pp_prefix_key, is_header_partition_pack}
use ebu_libmxf.Partition.Runin.{
  max_runin_len, searched, runin_rounds, search_key, read_found_pp_kl, read_header_pp_kl_with_runin,
}
use ebu_libmxf.Partition.RuninSearch.{searched_octets}

-- Some 16 octets of the list, in a row, are the key of a header partition pack.
abbrev pub has_header_key : List ℕ → Bool
has_header_key [] = false
has_header_key (z ∷ zs) =
    (leb 15 (length zs) && is_header_partition_pack (z ∷ take 15 zs)) || has_header_key zs

has_header_key-behind :
    (xs zs : List ℕ) → has_header_key (xs ++ zs) ≡ false → has_header_key zs ≡ false
has_header_key-behind [] zs h = h
has_header_key-behind (x ∷ xs) zs h = has_header_key-behind xs zs (ground arith)

take-more :
    (m : ℕ) (xs : List ℕ) → m < length xs → take (suc m) xs ≡ take m xs ++ (get_or xs m 0 ∷ [])
take-more m [] h = absurd (omega arith)
take-more zero (x ∷ xs) h = refl
take-more (suc m) (x ∷ xs) h = ap (λ ys. x ∷ ys) (take-more m xs (omega arith))

-- The octets that have matched, with those behind them.
abbrev from_match : ℕ → List ℕ → List ℕ
from_match m zs = take m pp_prefix_key ++ zs

from_match-more :
    (m : ℕ) (zs : List ℕ)
    → m < searched
    → from_match m (octet_of pp_prefix_key m ∷ zs) ≡ from_match (suc m) zs
from_match-more m zs h =
    sym (append_assoc (take m pp_prefix_key) (octet_of pp_prefix_key m ∷ []) zs)
    ∙ ap (λ ys. ys ++ zs) (sym (take-more m pp_prefix_key (omega arith)))

first_part : (a b c : Bool) → a ≡ true → (a && b) || c ≡ false → b ≡ false
first_part a b c h k = ground arith

no_header_found :
    (zs : List ℕ)
    → has_header_key (from_match searched zs) ≡ false
    → 5 ≤ length zs
    → is_header_partition_pack (searched_octets ++ take 5 zs) ≡ false
no_header_found zs h n =
    first_part true (is_header_partition_pack (searched_octets ++ take 5 zs)) _ refl (rw long at h)
  where
    long : leb 15 (length (drop 1 searched_octets ++ zs)) ≡ true
    long = le→leb 15 (length (drop 1 searched_octets ++ zs)) (omega arith)

module _ {S : Type 0} ⦃ops : FileOps S⦄ (laws : ByteFile ops) where
  got :
      (f : MxfFile S) (x : ℕ) (xs : List ℕ)
      → IsOpen laws f
      → (laws.view f.sys).after ≡ x ∷ xs
      → Read laws f (getc_ok f) x (x ∷ []) xs
  got f x xs o e = getc_ok-Reads laws x f xs o e

  read_exactly-short :
      (f : MxfFile S) (n : ℕ)
      → IsOpen laws f
      → n < 2 ^ 32
      → length (laws.view f.sys).after < n
      → read_exactly n f ≡ failed (record f { sys = (ops.read f.sys n).1 })
  unfolding read_exactly
  read_exactly-short f n o h s =
      let e : (length (take n (laws.view f.sys).after) == n) ≡ false =
        ground (arith, length-take n (laws.view f.sys).after) in
      rw (laws.read_bytes f.sys n o.is_ready h, e) refl

  -- The matched octets are those of a partition pack, but not of a header.
  read_found_pp_kl-fails :
      (f : MxfFile S) (count : ℕ) (zs : List ℕ)
      → IsOpen laws f
      → (laws.view f.sys).after ≡ zs
      → has_header_key (from_match searched zs) ≡ false
      → (g : MxfFile S) × (read_found_pp_kl count f ≡ failed g)
  unfolding read_found_pp_kl
  read_found_pp_kl-fails f count zs o e h = elim (Bool-cases (leb count max_runin_len)) [
    | inr over ↦ (f, rw over refl)
    | inl fine ↦ elim (Bool-cases (leb 5 (length zs))) [
      | inr short ↦ (
        record f { sys = (ops.read f.sys 5).1 },
        rw (fine, read_exactly-short f 5 o (omega arith) (ground (arith, ap length e))) refl,
      )
      | inl enough ↦
          let n = leb→le 5 (length zs) enough in
          let r =
            read_exactly-Reads laws (take 5 zs) 5 (omega (arith, length-take 5 zs)) (omega arith) f
              (drop 5 zs) o (e ∙ sym (take-append-drop 5 zs)) in
          (r.file, rw (fine, r.result, no_header_found zs h n) refl)
    ]
  ]

  stopped :
      (zs : List ℕ) (fuel count m : ℕ) (f : MxfFile S)
      → IsOpen laws f
      → (laws.view f.sys).after ≡ zs
      → m ≤ searched
      → has_header_key (from_match m zs) ≡ false
      → (leb count max_runin_len && ltb m searched) ≡ false
      → (g : MxfFile S) × (read_found_pp_kl count f ≡ failed g)
  unfolding read_found_pp_kl
  stopped zs fuel count m f o e hm h over = elim (Bool-cases (ltb m searched)) [
    | inl less ↦ let long : leb count max_runin_len ≡ false = ground arith in (f, rw long refl)
    | inr whole ↦
        let all : m ≡ searched = ground arith in
        read_found_pp_kl-fails f count zs o e
          (subst (λ n. has_header_key (from_match n zs) ≡ false) all h)
  ]

  -- The search comes to the end of the file, to the longest run-in, or to the octets of a
  -- partition pack that is not that of the header.
  search_fails :
      (zs : List ℕ) (fuel count m : ℕ) (f : MxfFile S)
      → IsOpen laws f
      → (laws.view f.sys).after ≡ zs
      → m ≤ searched
      → count + m ≤ max_runin_len + searched
      → count + m + fuel ≡ runin_rounds
      → has_header_key (from_match m zs) ≡ false
      → (g : MxfFile S) × ((do n ← search_key fuel count m; read_found_pp_kl n) f ≡ failed g)
  unfolding search_key
  search_fails zs zero count m f o e hm hc hf h = absurd (omega arith)
  search_fails [] (suc fuel) count m f o e hm hc hf h =
      elim (Bool-cases (leb count max_runin_len && ltb m searched)) [
        | inr over ↦ rw over (stopped [] fuel count m f o e hm h over)
        | inl more ↦
            (record f { sys = (ops.get_char f.sys).1 }, rw (more, getc_ok-end laws f o e) refl)
      ]
  search_fails (z ∷ zs) (suc fuel) count m f o e hm hc hf h =
      elim (Bool-cases (leb count max_runin_len && ltb m searched)) [
        | inr over ↦ rw over (stopped (z ∷ zs) fuel count m f o e hm h over)
        | inl more ↦
            let r = got f z zs o e in
            let next = ap (λ (v : View). v.after) r.bytes in
            let less : m < searched = ground arith in
            let small : count ≤ max_runin_len = ground arith in
            elim (Bool-cases (z == octet_of pp_prefix_key m)) [
              | inl same ↦
                  let matched : z ≡ octet_of pp_prefix_key m = ground arith in
                  let one_more : m + 1 ≡ suc m = omega arith in
                  let (g, q) =
                    search_fails zs fuel count (suc m) r.file r.is_open next (omega arith)
                      (omega arith) (omega arith)
                      (ap has_header_key (sym (from_match-more m zs less))
                        ∙ ap (λ x. has_header_key (from_match m (x ∷ zs))) (sym matched)
                        ∙ h) in
                  (g, rw (more, r.result, same, one_more) q)
              | inr other ↦
                  let (g, q) =
                    search_fails zs fuel (count + (m + 1)) 0 r.file r.is_open next (omega arith)
                      (ground arith) (omega arith)
                      (has_header_key-behind (z ∷ []) zs
                        (has_header_key-behind (take m pp_prefix_key) (z ∷ zs) h)) in
                  (g, rw (more, r.result, other) q)
            ]
      ]

  -- Behind the last octet of the run-in stands the key.
  restart_missed :
      (xs zs : List ℕ) (fuel count : ℕ) (f : MxfFile S)
      → IsOpen laws f
      → (laws.view f.sys).after ≡ xs ++ (0x06 ∷ 0x06 ∷ zs)
      → All (λ x. x ≢ 0x06) xs
      → count ≤ max_runin_len + searched
      → count + fuel ≡ runin_rounds
      → has_header_key zs ≡ false
      → (g : MxfFile S) × ((do n ← search_key fuel count 0; read_found_pp_kl n) f ≡ failed g)
  unfolding search_key read_found_pp_kl
  restart_missed xs zs zero count f o e h c l k = absurd (omega arith)
  restart_missed [] zs (suc zero) count f o e h c l k =
      let over : leb count max_runin_len ≡ false = ground arith in (f, rw (over, over) refl)
  restart_missed [] zs (suc (suc fuel)) count f o e h c l k =
      elim (Bool-cases (leb count max_runin_len)) [
        | inr over ↦ (f, rw (over, over) refl)
        | inl fine ↦
            let small : count ≤ max_runin_len = ground arith in
            let r = got f 0x06 (0x06 ∷ zs) o e in
            let t = got r.file 0x06 zs r.is_open (ap (λ (v : View). v.after) r.bytes) in
            let (g, q) =
              search_fails zs fuel (count + 2) 0 t.file t.is_open
                (ap (λ (v : View). v.after) t.bytes) (omega arith) (omega arith) (omega arith) k in
            (g, rw (fine, r.result, t.result) q)
      ]
  restart_missed (x ∷ xs) zs (suc fuel) count f o e h c l k =
      elim (Bool-cases (leb count max_runin_len)) [
        | inr over ↦ (f, rw (over, over) refl)
        | inl fine ↦
            let small : count ≤ max_runin_len = ground arith in
            let other : (x == 0x06) ≡ false = ground arith in
            let r = got f x (xs ++ (0x06 ∷ 0x06 ∷ zs)) o e in
            let (g, q) =
              restart_missed xs zs fuel (count + 1) r.file r.is_open
                (ap (λ (v : View). v.after) r.bytes) h.1 (omega arith) (omega arith) k in
            (g, rw (fine, r.result, other) q)
      ]

  -- On an open file that has next a run-in whose last byte is 0x06 and whose other bytes are not,
  -- and then the first 11 octets of a partition pack key and any bytes,
  -- `read_header_pp_kl_with_runin` fails, unless the key of a header partition pack stands
  -- somewhere behind the first of these octets.
  pub read_header_pp_kl_with_runin-misses :
      (f : MxfFile S) (xs ys : List ℕ)
      → IsOpen laws f
      → All (λ x. x ≢ 0x06) xs
      → has_header_key (drop 1 searched_octets ++ ys) ≡ false
      → (laws.view f.sys).after ≡ xs ++ (0x06 ∷ (searched_octets ++ ys))
      → (g : MxfFile S) × (read_header_pp_kl_with_runin f ≡ failed g)
  unfolding read_header_pp_kl_with_runin
  read_header_pp_kl_with_runin-misses f xs ys o h k e =
      restart_missed xs (drop 1 searched_octets ++ ys) runin_rounds 0 f o e h (omega arith) refl k
