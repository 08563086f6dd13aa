-- ===== src/Tests/Primer.antt =====
-- mxf/mxf_primer.c: registration in a small pack, and its bytes.
use ebu_libmxf.Base.{ℕ, ◌-◌, ◌≤◌, ◌≡◌, refl, none, some, List, [], ◌∷◌, length, arith}
use ebu_libmxf.File.Length.{get_llen}
use ebu_libmxf.File.Laws.{Wrote}
use ebu_libmxf.File.Laws.Replay.{replay}
use ebu_libmxf.MxfList.Defs.{find_in, find_list_element, append_list_element}
use ebu_libmxf.Keys.{null_key, klv_fill_key, primer_pack_key}
use ebu_libmxf.Primer.Defs.{
  PrimerPack, find_tag, find_uid, register_new, create_item_tag, register_primer_entry,
  get_item_tag, get_item_key, write_primer_pack, get_primer_pack_size,
}
use ebu_libmxf.Primer.Tags.{IsValid}
use ebu_libmxf.Primer.Register.{
  Owned, create_item_tag_finds, register_primer_entry-IsValid, register_primer_entry-Owned,
  register_primer_entry-keeps,
}
use ebu_libmxf.Primer.Codec.{
  pack_of, pack_bytes, read_kl_pack, primer_pack_round_trip, get_primer_pack_size-exact,
}
use ebu_libmxf.Tests.Plain.{plain, plain_file, blank, plain-IsOpen}

abbrev one : PrimerPack
one = pack_of (record { local_tag = 0x3c0a; uid = klv_fill_key } ∷ [])

one-IsValid : IsValid one
unfolding find_in
one-IsValid = record {
  chain = refl;
  bounded = omega arith;
  distinct = (refl, refl, tt);
  next_range = omega arith;
}

one-Owned : Owned one klv_fill_key 0x3c0a
unfolding get_item_tag get_item_key find_uid find_tag find_list_element
one-Owned = (refl, refl)

create_item_tag_finds_example :
    (t : ℕ) × (create_item_tag one ≡ (some t, record one { next_tag = t - 1 }))
    × (0xfff0 ≤ t)
    × (t ≤ 0xffff)
    × (find_tag one t ≡ none)
unfolding find_tag find_list_element
create_item_tag_finds_example =
    create_item_tag_finds one 0xfff0 one-IsValid (omega arith) (omega arith) refl

register_primer_entry-IsValid_example : IsValid (register_primer_entry one null_key 0x0102).1
register_primer_entry-IsValid_example =
    register_primer_entry-IsValid one null_key 0x0102 one-IsValid

register_primer_entry-Owned_example :
    Owned (register_primer_entry one null_key 0x0102).1 null_key 0x0102
unfolding register_primer_entry register_new find_uid find_tag find_list_element append_list_element
register_primer_entry-Owned_example =
    register_primer_entry-Owned one null_key 0x0102 0x0102 one-IsValid refl

register_primer_entry-keeps_example :
    Owned (register_primer_entry one null_key 0x0102).1 klv_fill_key 0x3c0a
register_primer_entry-keeps_example =
    register_primer_entry-keeps one null_key klv_fill_key 0x0102 0x3c0a one-IsValid one-Owned

primer_pack_round_trip_example :
    Wrote plain_file blank
      (replay (write_primer_pack one) read_kl_pack blank)
      (primer_pack_key, get_llen blank 26, 26, one)
      (pack_bytes 0 one.entries.elements)
primer_pack_round_trip_example =
    primer_pack_round_trip plain_file blank one (plain-IsOpen [] []) refl ((omega arith, refl), tt)
      (omega arith) (omega arith)

get_primer_pack_size-exact_example :
    (bs : List ℕ) × Wrote plain_file blank (write_primer_pack one blank) tt bs
    × (length bs ≡ get_primer_pack_size blank one)
get_primer_pack_size-exact_example =
    get_primer_pack_size-exact plain_file blank one (plain-IsOpen [] []) refl
      ((omega arith, refl), tt) (omega arith) (omega arith)
