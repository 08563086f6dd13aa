-- ===== src/EssenceContainer/Read.antt =====
-- Reading an essence element with mxf/mxf_essence_container.c.
use ebu_libmxf.Base.{
  ℕ, zero, suc, ◌+◌, ◌<◌, ◌^◌, ◌%◌, ◌≡◌, refl, sym, ap, ◌∙◌, subst, false, Option, none, some, List,
  [], ◌∷◌, ◌++◌, length, take, drop, min, length-take, take-append-drop, take-append_at,
  drop-append_at, length-append, arith, leb, ◌==◌, if◌then◌else◌, ==_self, le→leb,
}
use ebu_libmxf.File.Ops.{FileOps, ByteFile}
use ebu_libmxf.File.Monad.{M, done, give, fail, ◌>>=◌, file_read}
use ebu_libmxf.File.Laws.{Reads, Reads-bind}
use ebu_libmxf.File.Laws.Primitives.{give-Reads, Reads-give}
use ebu_libmxf.EssenceContainer.Defs.{
  EssenceElement, passed_len, actual_len, read_essence_element_data,
}

-- So many bytes of the element have been passed.
abbrev pub Passed : ℕ → EssenceElement → Type 0
Passed n e = (e.start_file_pos < 2 ^ 64) × (e.current_file_pos ≡ (e.start_file_pos + n) % 2 ^ 64)

passed_len-is : (n : ℕ) (e : EssenceElement) → Passed n e → n < 2 ^ 64 → passed_len e ≡ n
passed_len-is n e (s, c) h = omega arith

abbrev pub advanced : ℕ → EssenceElement → EssenceElement
advanced n e = record e { current_file_pos = (e.current_file_pos + n) % 2 ^ 64 }

advanced-Passed : (n m : ℕ) (e : EssenceElement) → Passed n e → Passed (n + m) (advanced m e)
advanced-Passed n m e (s, c) = (s, omega arith)

actual_len-is :
    (n len : ℕ) (e : EssenceElement) (left : ℕ)
    → Passed n e
    → e.total_len ≡ n + left
    → e.total_len + 2 ^ 32 < 2 ^ 64
    → len < 2 ^ 32
    → actual_len e len ≡ min len left
actual_len-is n len e left p t h k =
    let q = passed_len-is n e p (omega arith) in rw q (ground arith)

le→leb_false : (a b : ℕ) → b < a → leb a b ≡ false
le→leb_false a b h = ground arith

answer :
    (e : EssenceElement) (bs xs : List ℕ) (m : ℕ)
    → xs ≡ bs
    → m ≡ length bs
    → ◌≡◌ {A = Option (List ℕ) × EssenceElement}
        ((if length xs == m then some xs else none), advanced (length xs) e)
        (some bs, advanced (length bs) e)
answer e bs xs m g h = rw (g, h, ==_self (length bs)) refl

module _ {S : Type 0} ⦃ops : FileOps S⦄ where
  abbrev pub collect : M S (List ℕ) → Option (List ℕ) → M S (List ℕ)
  collect more none = fail
  collect more (some []) = give []
  collect more (some (b ∷ bs)) = more >>= (λ rest. give ((b ∷ bs) ++ rest))

  -- A program that reads with a buffer of `size` bytes until nothing comes.
  unfoldable pub read_buffers : ℕ → ℕ → EssenceElement → M S (List ℕ)
  read_buffers zero size e = fail
  read_buffers (suc fuel) size e =
      read_essence_element_data e size >>= (λ r. collect (read_buffers fuel size r.1) r.0)

  module _ (laws : ByteFile ops) where
    end-Reads :
        (n len : ℕ) (e : EssenceElement)
        → Passed n e
        → e.total_len ≡ n
        → n < 2 ^ 64
        → Reads laws (read_essence_element_data e len) (some [], e) []
    unfolding read_essence_element_data
    end-Reads n len e p t h =
        let q = passed_len-is n e p h in
        rw (le→leb e.total_len (passed_len e) (omega arith)) (give-Reads laws (some [], e))

    data-Reads :
        (n len : ℕ) (e : EssenceElement) (bs left : List ℕ)
        → Passed n e
        → e.total_len ≡ n + length (bs ++ left)
        → e.total_len + 2 ^ 32 < 2 ^ 64
        → len < 2 ^ 32
        → length bs ≡ min len (length (bs ++ left))
        → 0 < length (bs ++ left)
        → Reads laws (read_essence_element_data e len) (some bs, advanced (length bs) e) bs
    unfolding read_essence_element_data file_read
    data-Reads n len e bs left p t h k b z f rest o v = record {
      file = record f { sys = (ops.read f.sys (actual_len e len)).1 };
      result = rw (le→leb_false e.total_len (passed_len e) (omega (arith, q))) (
          ap (λ u. done u (record f { sys = (ops.read f.sys (actual_len e len)).1 }))
            (answer e bs _ _ got enough));
      is_open = record {
        is_ready = laws.read_ready f.sys (actual_len e len) o.is_ready;
        small_zeros = o.small_zeros;
      };
      llen = refl;
      runin = refl;
      bytes =
          laws.read_view f.sys (actual_len e len) o.is_ready fits
          ∙ (λ i. record { before = (laws.view f.sys).before ++ taken i; after = others i });
    }
      where
        q : passed_len e ≡ n
        q = passed_len-is n e p (omega arith)

        enough : actual_len e len ≡ length bs
        enough = actual_len-is n len e (length (bs ++ left)) p t h k ∙ sym b

        fits : actual_len e len < 2 ^ 32
        fits = omega (arith, enough, b)

        taken : take (actual_len e len) (laws.view f.sys).after ≡ bs
        taken = rw v (take-append_at (actual_len e len) bs rest enough)

        others : drop (actual_len e len) (laws.view f.sys).after ≡ rest
        others = rw v (drop-append_at (actual_len e len) bs rest enough)

        got : (ops.read f.sys (actual_len e len)).0 ≡ bs
        got = laws.read_bytes f.sys (actual_len e len) o.is_ready fits ∙ taken

    pub read_buffers-Reads :
        (fuel size n : ℕ) (e : EssenceElement) (d : List ℕ)
        → length d < fuel
        → 0 < size
        → size < 2 ^ 32
        → Passed n e
        → e.total_len ≡ n + length d
        → e.total_len + 2 ^ 32 < 2 ^ 64
        → Reads laws (read_buffers fuel size e) d d
    unfolding read_buffers
    read_buffers-Reads zero size n e d u z k p t h = absurd (omega arith)
    read_buffers-Reads (suc fuel) size n e [] u z k p t h =
        Reads-bind laws (read_essence_element_data e size) _ [] []
          (end-Reads n size e p (omega arith) (omega arith)) (give-Reads laws [])
    read_buffers-Reads (suc fuel) zero n e (x ∷ xs) u z k p t h = absurd (omega arith)
    read_buffers-Reads (suc fuel) (suc size) n e (x ∷ xs) u z k p t h =
        let bs = x ∷ take size xs in
        let left = drop size xs in
        let whole : bs ++ left ≡ x ∷ xs = ap (λ v. x ∷ v) (take-append-drop size xs) in
        let lens : length (bs ++ left) ≡ length (x ∷ xs) = ap length whole in
        let lb : length bs ≡ min (suc size) (length (bs ++ left)) =
          omega (arith, length-take size xs, lens) in
        let r =
          data-Reads n (suc size) e bs left p (omega (arith, t, lens)) h k lb
            (omega (arith, lens)) in
        let ll = length-append bs left in
        let more =
          read_buffers-Reads fuel (suc size) (n + length bs) (advanced (length bs) e) left
            (omega (arith, ll, lens)) z k (advanced-Passed n (length bs) e p)
            (omega (arith, t, ll, lens)) h in
        subst (λ v. Reads laws (read_buffers (suc fuel) (suc size) e) v v) whole
          (Reads-bind laws (read_essence_element_data e (suc size)) _ bs left r (
            Reads-give laws (read_buffers fuel (suc size) (advanced (length bs) e)) (λ v. bs ++ v)
              left more))
