-- ===== src/Primer/Defs.antt =====
-- The operations of mxf/mxf_primer.c.
use ebu_libmxf.Base.{
  ℕ, zero, suc, ◌+◌, ◌-◌, ◌*◌, ◌%◌, ◌^◌, Bool, true, false, not, Option, none, some, List, [], ◌∷◌,
  ltb, ◌==◌, if◌then◌else◌,
}
use ebu_libmxf.File.Ops.{FileOps}
use ebu_libmxf.File.Monad.{MxfFile, M, ◌>>=◌, ◌>>◌, give, fail}
use ebu_libmxf.File.Words.{read_array_header, write_array_header}
use ebu_libmxf.File.Length.{get_llen}
use ebu_libmxf.File.Klv.{Key, read_local_tag, read_uid, write_local_tag, write_uid, write_kl}
use ebu_libmxf.MxfList.Defs.{
  MxfList, initialise_list, append_list_element, find_list_element, get_list_length,
}
use ebu_libmxf.Keys.{equals_uid, primer_pack_key}

pub record Entry : Type 0 where
  pub local_tag : ℕ
  pub uid : Key

-- `next_tag` is a uint16_t.
pub record PrimerPack : Type 0 where
  pub entries : MxfList Entry
  pub next_tag : ℕ

-- g_Null_LocalTag
abbrev pub null_local_tag : ℕ
null_local_tag = 0

unfoldable pub entry_eq_uid : Key → Entry → Bool
entry_eq_uid uid e = equals_uid uid e.uid

unfoldable pub entry_eq_tag : ℕ → Entry → Bool
entry_eq_tag tag e = tag == e.local_tag

-- We count down when assigning dynamic tags.
unfoldable pub create_primer_pack : PrimerPack
create_primer_pack = record { entries = initialise_list; next_tag = 2 ^ 16 - 1 }

-- create_primer_pack_entry, with the fields that its callers set at once.
unfoldable pub create_primer_pack_entry : PrimerPack → Entry → Option PrimerPack
create_primer_pack_entry p e = elim (append_list_element p.entries e) [
  | none ↦ none
  | some l ↦ some (record p { entries = l })
]

unfoldable pub find_tag : PrimerPack → ℕ → Option Entry
unfolding entry_eq_tag
find_tag p tag = find_list_element p.entries (entry_eq_tag tag)

unfoldable pub find_uid : PrimerPack → Key → Option Entry
unfolding entry_eq_uid
find_uid p uid = find_list_element p.entries (entry_eq_uid uid)

unfoldable pub is_none {ℓ} : {A : Type ℓ} → Option A → Bool
is_none none = true
is_none (some a) = false

-- The loop of mxf_create_item_tag. `nextTag--` on a uint16_t wraps; each round but the last lowers
-- it by one from at least 0x8000. The first part is the tag, the second the new `nextTag`.
unfoldable pub create_tag_loop : ℕ → PrimerPack → ℕ → Option ℕ × ℕ
unfolding is_none
create_tag_loop zero p next = (none, next)
create_tag_loop (suc fuel) p next =
    let lower = (next + 2 ^ 16 - 1) % 2 ^ 16 in
    let more = create_tag_loop fuel p lower in
    if ltb next 0x8000
    then (none, lower)
    else if is_none (find_tag p next)
    then (some next, lower)
    else more

-- Below 0x8000 the loop ends, so 0x8001 rounds are enough.
abbrev pub tag_rounds : ℕ
tag_rounds = 0x8001

unfoldable pub create_item_tag : PrimerPack → Option ℕ × PrimerPack
create_item_tag p =
    let (tag, next) = create_tag_loop tag_rounds p p.next_tag in (tag, record p { next_tag = next })

-- Returns the assigned tag and the pack; a tag that is refused may still have used up `next_tag`.
unfoldable pub add_new : PrimerPack → Key → ℕ → Option ℕ × PrimerPack
unfolding create_primer_pack_entry
add_new p uid tag = elim (create_primer_pack_entry p (record { local_tag = tag; uid = uid })) [
  | none ↦ (none, p)
  | some p' ↦ (some tag, p')
]

unfoldable pub add_created : Option ℕ × PrimerPack → Key → Option ℕ × PrimerPack
unfolding add_new
add_created (none, p) uid = (none, p)
add_created (some tag, p) uid = add_new p uid tag

unfoldable pub register_new : PrimerPack → Key → ℕ → Option ℕ × PrimerPack
unfolding add_new add_created is_none
register_new p uid new_tag =
    if not (new_tag == null_local_tag)
    then (if not (is_none (find_tag p new_tag)) then (none, p) else add_new p uid new_tag)
    else add_created (create_item_tag p) uid

unfoldable pub register_primer_entry : PrimerPack → Key → ℕ → Option ℕ × PrimerPack
register_primer_entry p uid new_tag = elim (find_uid p uid) [
  | some e ↦ (some e.local_tag, p)
  | none ↦ register_new p uid new_tag
]

unfoldable pub get_item_key : PrimerPack → ℕ → Option Key
get_item_key p tag = elim (find_tag p tag) [ some e ↦ some e.uid | none ↦ none ]

unfoldable pub get_item_tag : PrimerPack → Key → Option ℕ
get_item_tag p uid = elim (find_uid p uid) [ some e ↦ some e.local_tag | none ↦ none ]

abbrev pub lift_option : {S A : Type 0} → Option A → M S A
lift_option none = fail
lift_option (some a) = give a

-- `(uint32_t)mxf_get_list_length`
abbrev pub number_of_items : PrimerPack → ℕ
number_of_items p = get_list_length p.entries % 2 ^ 32

-- `8 + 18 * numberOfItems`, a uint32_t
abbrev pub primer_len : ℕ → ℕ
primer_len n = (8 + 18 * n) % 2 ^ 32

module _ {S : Type 0} ⦃ops : FileOps S⦄ where
  unfoldable pub read_entries : ℕ → PrimerPack → M S PrimerPack
  read_entries zero p = give p
  read_entries (suc n) p = do
    tag ← read_local_tag
    uid ← read_uid
    p' ← lift_option (create_primer_pack_entry p (record { local_tag = tag; uid = uid }))
    read_entries n p'

  unfoldable pub read_primer_pack : M S PrimerPack
  unfolding create_primer_pack
  read_primer_pack = do
    (number, item_length) ← read_array_header
    read_entries number create_primer_pack

  unfoldable pub write_entries : List Entry → M S (Unit {0})
  write_entries [] = give tt
  write_entries (e ∷ es) = do write_local_tag e.local_tag; write_uid e.uid; write_entries es

  unfoldable pub write_primer_pack : PrimerPack → M S (Unit {0})
  write_primer_pack p = do
    write_kl primer_pack_key (primer_len (number_of_items p))
    write_array_header (number_of_items p) 18
    write_entries p.entries.elements

unfoldable pub get_primer_pack_size : {S : Type 0} → MxfFile S → PrimerPack → ℕ
unfolding get_llen
get_primer_pack_size f p =
    let len = primer_len (number_of_items p) in
    (16 + get_llen f len + 8 + 18 * number_of_items p) % 2 ^ 32
