-- ===== src/Primer/Register.antt =====
-- mxf_register_primer_entry and mxf_create_item_tag, on every branch.
use ebu_libmxf.Base.{
  ℕ, ◌+◌, ◌-◌, ◌^◌, ◌≤◌, ◌<◌, ◌≡◌, ◌≢◌, refl, ap, sym, subst, Option, none, some, length, ◌==◌,
  arith, ==_iff, Bool-cases, Option-cases, inl, inr,
}
use ebu_libmxf.File.Klv.{Key}
use ebu_libmxf.MxfList.Defs.{npos, find_list_element, initialise_list}
use ebu_libmxf.Primer.Defs.{
  Entry, PrimerPack, entry_eq_uid, create_primer_pack, find_tag, find_uid, create_tag_loop,
  tag_rounds, create_item_tag, add_new, add_created, register_new, register_primer_entry,
  get_item_key, get_item_tag, null_local_tag,
}
use ebu_libmxf.Primer.Tags.{
  IsValid, find_tag_of_uid, entry_eq_uid→eq, create_tag_loop_finds, create_tag_loop_sound,
  create_tag_loop_range, added, add_new_full, add_new_room, added-IsValid, get_item_tag-added,
  get_item_key-added, find_uid-added, find_in_holds,
}

-- A new pack is valid.
pub create_primer_pack-IsValid : IsValid create_primer_pack
unfolding create_primer_pack initialise_list
create_primer_pack-IsValid = record {
  chain = refl;
  bounded = omega arith;
  distinct = tt;
  next_range = omega arith;
}

-- If, in a valid pack, some dynamic tag at or below the counter is free, `create_item_tag` assigns
-- a free one at or above it and at or below the counter, and sets the counter to one less.
pub create_item_tag_finds :
    (p : PrimerPack) (u : ℕ)
    → IsValid p
    → 0x8000 ≤ u
    → u ≤ p.next_tag
    → find_tag p u ≡ none
    → (t : ℕ) × (create_item_tag p ≡ (some t, record p { next_tag = t - 1 }))
      × (u ≤ t)
      × (t ≤ p.next_tag)
      × (find_tag p t ≡ none)
unfolding create_item_tag
create_item_tag_finds p u v lo hu free =
    let (t, r, above, below, unused) =
      create_tag_loop_finds tag_rounds p p.next_tag u v.next_range lo hu
        (omega (arith, v.next_range)) free in
    (t, rw r, above, below, unused)

some_eq : {a b : ℕ} → some a ≡ some b → a ≡ b
some_eq h = cc

-- The tag belongs to the UID, and the UID to the tag.
abbrev pub Owned : PrimerPack → Key → ℕ → Type 0
Owned p uid t = (get_item_tag p uid ≡ some t) × (get_item_key p t ≡ some uid)

Owned-of_found :
    (p : PrimerPack) (uid : Key) (e : Entry)
    → IsValid p
    → find_uid p uid ≡ some e
    → Owned p uid e.local_tag
unfolding get_item_tag get_item_key find_uid find_tag find_list_element
Owned-of_found p uid e v seen = (
  rw (seen, get_item_tag),
  rw (find_tag_of_uid p.entries.elements uid e v.distinct seen, get_item_key)
      (ap some
        (sym (entry_eq_uid→eq uid e (find_in_holds (entry_eq_uid uid) p.entries.elements e seen)))),
)

found_of_tag :
    (p : PrimerPack) (q : Key) (t : ℕ)
    → get_item_tag p q ≡ some t
    → (e : Entry) × (find_uid p q ≡ some e) × (e.local_tag ≡ t)
unfolding get_item_tag
found_of_tag p q t h = go (find_uid p q) refl
  where
    go :
        (o : Option Entry)
        → find_uid p q ≡ o
        → (e : Entry) × (find_uid p q ≡ some e) × (e.local_tag ≡ t)
    go none e = absurd (ground arith)
    go (some b) e = (b, e, ground arith)

-- What registration of `uid` that answers `o` and leaves `p'` has done.
pub record Registered (p : PrimerPack) (uid : Key) (o : Option ℕ) (p' : PrimerPack) : Type 0 where
  pub valid : IsValid p'
  pub known : (t : ℕ) → o ≡ some t → Owned p' uid t
  pub kept : (q : Key) (e : Entry) → find_uid p q ≡ some e → find_uid p' q ≡ some e

add_new-Registered :
    (p : PrimerPack) (uid : Key) (tag : ℕ)
    → IsValid p
    → find_tag p tag ≡ none
    → find_uid p uid ≡ none
    → Registered p uid (add_new p uid tag).0 (add_new p uid tag).1
add_new-Registered p uid tag v free fresh =
    elim (Bool-cases (length p.entries.elements + 1 == npos)) [
      | inl full ↦
          rw (add_new_full p uid tag v ((==_iff _ _).0 full))
            (record { valid = v; known = λ t e. cc; kept = λ q e h. h })
      | inr room ↦ rw (add_new_room p uid tag v (ground arith)) (record {
        valid = added-IsValid p uid tag v free fresh (ground arith);
        known = λ t e.
            subst (Owned (added p uid tag) uid) (some_eq e) (
              get_item_tag-added p uid tag v free fresh,
              get_item_key-added p uid tag v free fresh,
            );
        kept = λ q e h. find_uid-added p uid tag v q h;
      })
    ]

-- With the counter moved a pack is as valid as before, and finds the same entries.
moved_counter :
    (p : PrimerPack) (n : ℕ) → IsValid p → n < 2 ^ 16 → IsValid (record p { next_tag = n })
moved_counter p n v h = record {
  chain = v.chain;
  bounded = v.bounded;
  distinct = v.distinct;
  next_range = h;
}

created-Registered :
    (p : PrimerPack) (uid : Key) (o : Option ℕ) (n : ℕ)
    → IsValid p
    → find_uid p uid ≡ none
    → create_tag_loop tag_rounds p p.next_tag ≡ (o, n)
    → (let (r, p') = add_created (o, record p { next_tag = n }) uid in Registered p uid r p')
unfolding add_created find_tag find_uid find_list_element
created-Registered p uid none n v fresh e = record {
  valid =
      moved_counter p n v (
        omega (arith, ap (λ x. x.1) e, create_tag_loop_range tag_rounds p p.next_tag v.next_range));
  known = λ t q. cc;
  kept = λ q b h. h;
}
created-Registered p uid (some t) n v fresh e =
    let sound = create_tag_loop_sound tag_rounds p p.next_tag t n v.next_range e in
    let r =
      add_new-Registered (record p { next_tag = n }) uid t (moved_counter p n v sound.3) sound.2
        fresh in
    record { valid = r.valid; known = r.known; kept = r.kept }

register_new-Registered :
    (p : PrimerPack) (uid : Key) (new_tag : ℕ)
    → IsValid p
    → find_uid p uid ≡ none
    → Registered p uid (register_new p uid new_tag).0 (register_new p uid new_tag).1
unfolding register_new create_item_tag
register_new-Registered p uid new_tag v fresh = elim (Bool-cases (new_tag == null_local_tag)) [
  | inl null ↦
      rw (null, register_new)
        (created-Registered p uid (create_tag_loop tag_rounds p p.next_tag).0
          (create_tag_loop tag_rounds p p.next_tag).1 v fresh refl)
  | inr given ↦ elim (Option-cases (find_tag p new_tag)) [
    | inl free ↦ rw (given, free, register_new) (add_new-Registered p uid new_tag v free fresh)
    | inr (e, used) ↦
        rw (given, used, register_new) (record { valid = v; known = λ t q. cc; kept = λ q b h. h })
  ]
]

-- Registration keeps the pack valid and every entry where it was; a tag that it answers belongs to
-- the UID, and the UID to the tag.
pub register_primer_entry-Registered :
    (p : PrimerPack) (uid : Key) (new_tag : ℕ)
    → IsValid p
    → (let (o, p') = register_primer_entry p uid new_tag in Registered p uid o p')
unfolding register_primer_entry
register_primer_entry-Registered p uid new_tag v = elim (Option-cases (find_uid p uid)) [
  | inl fresh ↦ rw (fresh, register_primer_entry) (register_new-Registered p uid new_tag v fresh)
  | inr (e, seen) ↦
      rw (seen, register_primer_entry)
        (record {
          valid = v;
          known = λ t q. subst (Owned p uid) (some_eq q) (Owned-of_found p uid e v seen);
          kept = λ q b h. h;
        })
]

-- Registration, with any UID and any tag, leaves a valid pack valid: no two entries share a tag or
-- a UID, the list is sound and the counter fits 16 bits.
pub register_primer_entry-IsValid :
    (p : PrimerPack) (uid : Key) (new_tag : ℕ)
    → IsValid p
    → IsValid (register_primer_entry p uid new_tag).1
register_primer_entry-IsValid p uid new_tag v =
    (register_primer_entry-Registered p uid new_tag v).valid

-- If registration in a valid pack answers a tag, then in the new pack that is the tag of the UID,
-- and the UID is the key of that tag.
pub register_primer_entry-Owned :
    (p : PrimerPack) (uid : Key) (new_tag t : ℕ)
    → IsValid p
    → (register_primer_entry p uid new_tag).0 ≡ some t
    → Owned (register_primer_entry p uid new_tag).1 uid t
register_primer_entry-Owned p uid new_tag t v e =
    (register_primer_entry-Registered p uid new_tag v).known t e

-- A tag and a UID that belong to each other in a valid pack still do after the registration of any
-- UID with any tag.
pub register_primer_entry-keeps :
    (p : PrimerPack) (uid q : Key) (new_tag t : ℕ)
    → IsValid p
    → Owned p q t
    → Owned (register_primer_entry p uid new_tag).1 q t
register_primer_entry-keeps p uid q new_tag t v h =
    let r = register_primer_entry-Registered p uid new_tag v in
    let (e, found, same) = found_of_tag p q t h.0 in
    let p' = (register_primer_entry p uid new_tag).1 in
    subst (Owned p' q) same (Owned-of_found p' q e r.valid (r.kept q e found))

-- The registration of a UID that the pack does not have, under a tag that is not null and that
-- another UID has, is refused, and the pack stays as it was.
pub register_primer_entry-refuses :
    (p : PrimerPack) (uid q : Key) (new_tag : ℕ)
    → new_tag ≢ null_local_tag
    → get_item_tag p uid ≡ none
    → get_item_key p new_tag ≡ some q
    → register_primer_entry p uid new_tag ≡ (none, p)
unfolding register_primer_entry register_new get_item_tag get_item_key
register_primer_entry-refuses p uid q new_tag nz fresh used = ground arith
