-- ===== src/IndexTable/Coded.antt =====
-- The items of an index table segment, as mxf_write_index_table_segment writes them and the loop
-- of mxf_read_index_table_segment_2 reads them.
use ebu_libmxf.Base.{
  ℕ, zero, suc, ◌+◌, ◌*◌, ◌%◌, ◌^◌, ◌≤◌, ◌<◌, ◌≡◌, refl, sym, subst, true, List, [], ◌++◌, ltb,
  arith, append_assoc, lt→ltb,
}
use mathlib.Core.Path.{fun_ext}
use ebu_libmxf.File.Ops.{FileOps, ByteFile}
use ebu_libmxf.File.Monad.{MxfFile, M, continue, done, failed, give, ◌>>◌}
use ebu_libmxf.File.Klv.{read_local_tl, write_local_tl}
use ebu_libmxf.File.Laws.{Writes, Reads, Writes-bind, Reads-bind}
use ebu_libmxf.File.Laws.Primitives.{give-Writes, Reads-bytes}
use ebu_libmxf.File.Laws.Words.{be16}
use ebu_libmxf.File.Laws.Klv.{read_local_tl-Reads, write_local_tl-Writes}
use ebu_libmxf.IndexTable.Defs.{IndexTableSegment}
use ebu_libmxf.IndexTable.Read.{Memory, Callbacks, read_item, read_items}

module _ {S : Type 0} ⦃ops : FileOps S⦄ (laws : ByteFile ops) (ml : ℕ) {X : Type 0} (mem : Memory)
    (callbacks : Callbacks X) (segment_len : ℕ) (fits : segment_len < 2 ^ 64) where
  -- Whatever follows, the loop gets from the state `s` to the state `t` by the `n` bytes `bs`.
  abbrev pub Steps : ℕ → List ℕ → X × IndexTableSegment → X × IndexTableSegment → Type 0
  Steps n bs s t =
      (fuel total : ℕ) (r : ℕ × (X × IndexTableSegment)) (rest : List ℕ)
      → total + n ≤ segment_len
      → segment_len < total + 4 * fuel
      → ((left next : ℕ)
          → next ≡ total + n
          → segment_len < next + 4 * left
          → Reads laws (read_items mem callbacks left segment_len next t) r rest)
      → Reads laws (read_items mem callbacks fuel segment_len total s) r (bs ++ rest)

  -- A program that writes what the loop reads from `s` to `t`.
  pub record Coded (m : M S (Unit {0})) (n : ℕ) (s t : X × IndexTableSegment) : Type 0 where
    pub bytes : List ℕ
    pub writes : Writes laws ml m tt bytes
    pub steps : Steps n bytes s t

  pub nothing-Coded : (s : X × IndexTableSegment) → Coded (give tt) 0 s s
  nothing-Coded s = record {
    bytes = [];
    writes = give-Writes laws ml tt;
    steps = λ fuel total r rest h e k. k fuel total (omega arith) e;
  }

  pub Coded-then :
      (m k : M S (Unit {0})) (a b : ℕ) {s t u : X × IndexTableSegment}
      → Coded m a s t
      → Coded k b t u
      → Coded (m >> k) (a + b) s u
  Coded-then m k a b p q = record {
    bytes = p.bytes ++ q.bytes;
    writes = Writes-bind laws ml m (λ _. k) p.bytes q.bytes p.writes q.writes;
    steps = λ fuel total r rest h e after.
        Reads-bytes laws (sym (append_assoc p.bytes q.bytes rest)) (
          p.steps fuel total r (q.bytes ++ rest) (omega arith) e (λ left next at lt.
            q.steps left next r rest (omega arith) lt
              (λ left' next' at' lt'. after left' next' (omega arith) lt')));
  }

  pub Coded-is :
      {m : M S (Unit {0})} {a : ℕ} (b : ℕ) {s t : X × IndexTableSegment}
      → a ≡ b
      → Coded m a s t
      → Coded m b s t
  Coded-is {m} b {s} {t} e p = subst (λ (n : ℕ). Coded m n s t) e p

  -- One item: its tag and its length, and a body that `read_item` reads.
  item-Steps :
      (tag len : ℕ) (bs : List ℕ) (s t : X × IndexTableSegment)
      → tag < 2 ^ 16
      → len < 2 ^ 16
      → Reads laws (read_item mem callbacks tag len s) t bs
      → Steps (4 + len) ((be16 tag ++ be16 len) ++ bs) s t
  unfolding read_items
  item-Steps tag len bs s t ht hl body zero total r rest h e after = absurd (omega arith)
  item-Steps tag len bs s t ht hl body (suc fuel) total r rest h e after =
      let more : ltb total segment_len ≡ true = lt→ltb total segment_len (omega arith) in
      rw more (
        Reads-bytes laws (sym (append_assoc (be16 tag ++ be16 len) bs rest)) (
          Reads-bind laws read_local_tl _ (be16 tag ++ be16 len) (bs ++ rest)
            (read_local_tl-Reads laws tag len ht hl)
            (Reads-bind laws (read_item mem callbacks tag len s) _ bs rest body
              (after fuel ((total + 4 + len) % 2 ^ 64) (omega arith) (omega arith)))))

  -- An item that is written as its tag, its length and a body.
  pub item-Coded :
      (tag len : ℕ) (m : M S (Unit {0})) (bs : List ℕ) {s t : X × IndexTableSegment}
      → tag < 2 ^ 16
      → len < 2 ^ 16
      → Writes laws ml m tt bs
      → Reads laws (read_item mem callbacks tag len s) t bs
      → Coded (write_local_tl tag len >> m) (4 + len) s t
  item-Coded tag len m bs {s} {t} ht hl w r = record {
    bytes = (be16 tag ++ be16 len) ++ bs;
    writes =
        Writes-bind laws ml (write_local_tl tag len) (λ _. m) (be16 tag ++ be16 len) bs
          (write_local_tl-Writes laws ml tag len) w;
    steps = item-Steps tag len bs s t ht hl r;
  }

  pub then_assoc : (a b k : M S (Unit {0})) → ((a >> b) >> k) ≡ (a >> (b >> k))
  then_assoc a b k = fun_ext same
    where
      same : (f : MxfFile S) → ((a >> b) >> k) f ≡ (a >> (b >> k)) f
      same f =
          elim (a f)
            as (λ o.
              continue (continue o (λ _. b)) (λ _. k)
              ≡ continue o (λ _ f'. continue (b f') (λ _. k))) [
                | done x f' ↦ refl
                | failed f' ↦ refl
              ]

  -- An item whose body is one step, and what follows it.
  pub item_then-Coded :
      (tag len n : ℕ) (m k : M S (Unit {0})) (bs : List ℕ) {s t u : X × IndexTableSegment}
      → tag < 2 ^ 16
      → len < 2 ^ 16
      → Writes laws ml m tt bs
      → Reads laws (read_item mem callbacks tag len s) t bs
      → Coded k n t u
      → Coded (write_local_tl tag len >> (m >> k)) (4 + len + n) s u
  item_then-Coded tag len n m k bs {s} {t} {u} ht hl w r c =
      subst (λ p. Coded p (4 + len + n) s u) (then_assoc (write_local_tl tag len) m k)
        (Coded-then (write_local_tl tag len >> m) k (4 + len) n (item-Coded tag len m bs ht hl w r)
          c)

  -- An item whose body is two steps, and what follows it.
  pub item_then_then-Coded :
      (tag len n : ℕ) (m m' k : M S (Unit {0})) (bs : List ℕ) {s t u : X × IndexTableSegment}
      → tag < 2 ^ 16
      → len < 2 ^ 16
      → Writes laws ml (m >> m') tt bs
      → Reads laws (read_item mem callbacks tag len s) t bs
      → Coded k n t u
      → Coded (write_local_tl tag len >> (m >> (m' >> k))) (4 + len + n) s u
  item_then_then-Coded tag len n m m' k bs {s} {t} {u} ht hl w r c =
      subst (λ p. Coded (write_local_tl tag len >> p) (4 + len + n) s u) (then_assoc m m' k)
        (item_then-Coded tag len n (m >> m') k bs ht hl w r c)
