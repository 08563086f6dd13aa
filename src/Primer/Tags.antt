-- ===== src/Primer/Tags.antt =====
-- Registration in the primer pack of mxf/mxf_primer.c.
use ebu_libmxf.Base.{
  ℕ, zero, suc, ◌+◌, ◌-◌, ◌%◌, ◌^◌, ◌≤◌, ◌<◌, ◌≡◌, ◌≢◌, refl, ap, ◌∙◌, Bool, true, false, none,
  some, List, [], ◌∷◌, ◌++◌, length, ltb, ◌==◌, if◌then◌else◌, arith, ==_iff, list_eq, list_eq→eq,
  list_eq_self, Option-cases, inl, inr, length-append,
}
use ebu_libmxf.File.Klv.{Key}
use ebu_libmxf.MxfList.Defs.{npos, find_in, find_list_element, append_list_element}
use ebu_libmxf.MxfList.Refine.{of_list, append-of_list}
use ebu_libmxf.Primer.Defs.{
  Entry, PrimerPack, entry_eq_uid, entry_eq_tag, find_tag, find_uid, create_tag_loop, add_new,
  get_item_key, get_item_tag,
}

module _ {A : Type 0} where
  find_in-append_none :
      (q : A → Bool) (xs : List A) (a : A)
      → find_in q xs ≡ none
      → find_in q (xs ++ (a ∷ [])) ≡ (if q a then some a else none)
  unfolding find_in
  find_in-append_none q [] a h = refl
  find_in-append_none q (x ∷ xs) a h = ground (arith, find_in-append_none q xs a)

  find_in-append_some :
      (q : A → Bool) (xs ys : List A) {a : A}
      → find_in q xs ≡ some a
      → find_in q (xs ++ ys) ≡ some a
  unfolding find_in
  find_in-append_some q [] ys h = cc
  find_in-append_some q (x ∷ xs) ys {a} h = ground (arith, find_in-append_some q xs ys {a = a})

  -- What is found has the property, and not one that nothing in the list has.
  pub find_in_holds : (q : A → Bool) (xs : List A) (a : A) → find_in q xs ≡ some a → q a ≡ true
  unfolding find_in
  find_in_holds q [] a h = cc
  find_in_holds q (x ∷ xs) a h = ground (arith, find_in_holds q xs a)

  find_in_apart :
      (q r : A → Bool) (xs : List A) (a : A)
      → find_in q xs ≡ none
      → find_in r xs ≡ some a
      → q a ≡ false
  unfolding find_in
  find_in_apart q r [] a h k = cc
  find_in_apart q r (x ∷ xs) a h k = ground (arith, find_in_apart q r xs a)

-- No two entries share a tag or a UID.
abbrev pub Distinct : List Entry → Type 0
Distinct [] = Unit
Distinct (e ∷ es) =
    (find_in (entry_eq_tag e.local_tag) es ≡ none)
    × (find_in (entry_eq_uid e.uid) es ≡ none)
    × Distinct es

pub record IsValid (p : PrimerPack) : Type 0 where
  pub chain : p.entries ≡ of_list p.entries.elements
  pub bounded : length p.entries.elements < npos
  pub distinct : Distinct p.entries.elements
  pub next_range : p.next_tag < 2 ^ 16

eq_tag_sym : (a b : Entry) → entry_eq_tag a.local_tag b ≡ entry_eq_tag b.local_tag a
unfolding entry_eq_tag
eq_tag_sym a b = ground arith

eq_tag_self : (a : Entry) → entry_eq_tag a.local_tag a ≡ true
unfolding entry_eq_tag
eq_tag_self a = ground arith

list_eq_sym : (xs ys : List ℕ) → list_eq xs ys ≡ list_eq ys xs
list_eq_sym [] [] = refl
list_eq_sym [] (y ∷ ys) = refl
list_eq_sym (x ∷ xs) [] = refl
list_eq_sym (x ∷ xs) (y ∷ ys) = ground (arith, list_eq_sym xs ys)

eq_uid_sym : (a b : Entry) → entry_eq_uid a.uid b ≡ entry_eq_uid b.uid a
unfolding entry_eq_uid
eq_uid_sym a b = list_eq_sym a.uid b.uid

Distinct-append :
    (es : List Entry) (e : Entry)
    → Distinct es
    → find_in (entry_eq_tag e.local_tag) es ≡ none
    → find_in (entry_eq_uid e.uid) es ≡ none
    → Distinct (es ++ (e ∷ []))
unfolding find_in
Distinct-append [] e d ht hu = (refl, refl, tt)
Distinct-append (x ∷ xs) e d ht hu = (
  ground (arith, eq_tag_sym x e, find_in-append_none (entry_eq_tag x.local_tag) xs e d.0),
  ground (arith, eq_uid_sym x e, find_in-append_none (entry_eq_uid x.uid) xs e d.1),
  Distinct-append xs e d.2 (ground arith) (ground arith),
)

-- The entry that is found by its UID is the one that is found by its tag.
pub find_tag_of_uid :
    (es : List Entry) (u : Key) (e : Entry)
    → Distinct es
    → find_in (entry_eq_uid u) es ≡ some e
    → find_in (entry_eq_tag e.local_tag) es ≡ some e
unfolding find_in
find_tag_of_uid [] u e d h = cc
find_tag_of_uid (x ∷ xs) u e d h = ground (
  arith,
  find_tag_of_uid xs u e d.2,
  find_in_apart (entry_eq_tag x.local_tag) (entry_eq_uid u) xs e d.0,
  eq_tag_sym x e,
  eq_tag_self x,
)

pub entry_eq_uid→eq : (u : Key) (e : Entry) → entry_eq_uid u e ≡ true → u ≡ e.uid
unfolding entry_eq_uid
entry_eq_uid→eq u e h = list_eq→eq u e.uid h

eq_uid_self : (e : Entry) → entry_eq_uid e.uid e ≡ true
unfolding entry_eq_uid
eq_uid_self e = list_eq_self e.uid

-- If a tag is free, the loop returns one, at least as large, and stops counting just below it.
-- `next - u` rounds and one more are enough.
pub create_tag_loop_finds :
    (fuel : ℕ) (p : PrimerPack) (next u : ℕ)
    → next < 2 ^ 16
    → 0x8000 ≤ u
    → u ≤ next
    → next - u < fuel
    → find_tag p u ≡ none
    → (t : ℕ) × (create_tag_loop fuel p next ≡ (some t, t - 1))
      × (u ≤ t)
      × (t ≤ next)
      × (find_tag p t ≡ none)
unfolding create_tag_loop
create_tag_loop_finds zero p next u hn lo hu hf free = absurd (omega arith)
create_tag_loop_finds (suc fuel) p next u hn lo hu hf free = elim (Option-cases (find_tag p next)) [
  | inl e ↦ (next, rw (range, lower, e), hu, omega arith, e)
  | inr (b, e) ↦
      let (t, r, above, below, unused) =
        create_tag_loop_finds fuel p (next - 1) u (omega arith) lo (down b e)
          (omega (arith, down b e)) free in
      (t, rw (range, lower, e) r, above, omega arith, unused)
]
  where
    range : ltb next 0x8000 ≡ false
    range = ground arith

    lower : (next + 2 ^ 16 - 1) % 2 ^ 16 ≡ next - 1
    lower = omega arith

    differ : (b : Entry) → find_tag p next ≡ some b → u ≢ next
    differ b e q = cc (ap (find_tag p) q)

    down : (b : Entry) → find_tag p next ≡ some b → u ≤ next - 1
    down b e = omega (arith, differ b e)

-- A tag that the loop returns is free and in the dynamic range.
pub create_tag_loop_sound :
    (fuel : ℕ) (p : PrimerPack) (next t n : ℕ)
    → next < 2 ^ 16
    → create_tag_loop fuel p next ≡ (some t, n)
    → (0x8000 ≤ t) × (t ≤ next) × (find_tag p t ≡ none) × (n < 2 ^ 16)
unfolding create_tag_loop
create_tag_loop_sound zero p next t n hn e = cc
create_tag_loop_sound (suc fuel) p next t n hn e =
    ground (arith, create_tag_loop_sound fuel p ((next + 2 ^ 16 - 1) % 2 ^ 16) t n)

pub create_tag_loop_range :
    (fuel : ℕ) (p : PrimerPack) (next : ℕ)
    → next < 2 ^ 16
    → (create_tag_loop fuel p next).1 < 2 ^ 16
unfolding create_tag_loop
create_tag_loop_range zero p next h = h
create_tag_loop_range (suc fuel) p next h =
    ground (arith, create_tag_loop_range fuel p ((next + 2 ^ 16 - 1) % 2 ^ 16))

abbrev pub added : PrimerPack → Key → ℕ → PrimerPack
added p uid tag = record p {
  entries = of_list (p.entries.elements ++ (record { local_tag = tag; uid = uid } ∷ []));
}

module _ (p : PrimerPack) (uid : Key) (tag : ℕ) (v : IsValid p) where
  appended :
      append_list_element p.entries (record { local_tag = tag; uid = uid })
      ≡ (if length p.entries.elements + 1 == npos then none else some (added p uid tag).entries)
  appended =
      ap (λ l. append_list_element l (record { local_tag = tag; uid = uid })) v.chain
      ∙ append-of_list p.entries.elements _ v.bounded

  -- A pack that is full is left as it was.
  pub add_new_full : length p.entries.elements + 1 ≡ npos → add_new p uid tag ≡ (none, p)
  unfolding add_new
  add_new_full h = rw (appended, (==_iff (length p.entries.elements + 1) npos).1 h, add_new)

  pub add_new_room :
      length p.entries.elements + 1 ≢ npos → add_new p uid tag ≡ (some tag, added p uid tag)
  unfolding add_new
  add_new_room h =
      let room : (length p.entries.elements + 1 == npos) ≡ false = ground arith in
      rw (appended, room, add_new)

  module _ (free : find_tag p tag ≡ none) (fresh : find_uid p uid ≡ none) where
    pub added-IsValid : length p.entries.elements + 1 ≢ npos → IsValid (added p uid tag)
    unfolding find_tag find_uid find_list_element
    added-IsValid h = record {
      chain = refl;
      bounded = omega (
        arith,
        length-append p.entries.elements (record { local_tag = tag; uid = uid } ∷ []),
        v.bounded,
      );
      distinct = Distinct-append p.entries.elements _ v.distinct free fresh;
      next_range = v.next_range;
    }

    pub get_item_tag-added : get_item_tag (added p uid tag) uid ≡ some tag
    unfolding get_item_tag find_uid find_list_element
    get_item_tag-added = rw (
      find_in-append_none (entry_eq_uid uid) p.entries.elements
          (record { local_tag = tag; uid = uid }) fresh,
      eq_uid_self (record { local_tag = tag; uid = uid }),
      get_item_tag,
    )

    pub get_item_key-added : get_item_key (added p uid tag) tag ≡ some uid
    unfolding get_item_key find_tag find_list_element
    get_item_key-added = rw (
      find_in-append_none (entry_eq_tag tag) p.entries.elements
          (record { local_tag = tag; uid = uid }) free,
      eq_tag_self (record { local_tag = tag; uid = uid }),
      get_item_key,
    )

  pub find_uid-added :
      (q : Key) {e : Entry} → find_uid p q ≡ some e → find_uid (added p uid tag) q ≡ some e
  unfolding find_uid find_list_element
  find_uid-added q h = find_in-append_some (entry_eq_uid q) p.entries.elements _ h
