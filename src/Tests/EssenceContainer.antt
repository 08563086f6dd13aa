-- ===== src/Tests/EssenceContainer.antt =====
-- mxf/mxf_essence_container.c on a byte file in memory.
use ebu_libmxf.Base.{ℕ, ◌≡◌, refl, true, List, [], ◌∷◌, ◌++◌, arith}
use ebu_libmxf.File.Klv.{Key}
use ebu_libmxf.File.Laws.{Wrote}
use ebu_libmxf.File.Laws.Length.{ber}
use ebu_libmxf.File.Laws.Replay.{replay}
use ebu_libmxf.EssenceContainer.Defs.{
  is_gc_essence_element, get_track_number, get_essence_element_item_type, get_essence_element_count,
  get_essence_element_type, get_essence_element_number,
}
use ebu_libmxf.EssenceContainer.Laws.{write_essence_element}
use ebu_libmxf.EssenceContainer.RoundTrip.{read_essence_element, essence_element_round_trip}
use ebu_libmxf.Tests.Plain.{plain, plain_file, blank, plain-IsOpen}

-- A picture element of the generic container.
abbrev picture_key : Key
picture_key =
    0x06 ∷ 0x0e ∷ 0x2b ∷ 0x34 ∷ 0x01 ∷ 0x02 ∷ 0x01 ∷ 0x01 ∷ 0x0d ∷ 0x01 ∷ 0x03 ∷ 0x01 ∷ 0x15 ∷ 0x01
    ∷ 0x05 ∷ 0x01 ∷ []

abbrev two_buffers : List (List ℕ)
two_buffers = (1 ∷ 2 ∷ 3 ∷ []) ∷ (4 ∷ 5 ∷ []) ∷ []

essence_element_round_trip_example :
    Wrote plain_file blank
      (replay (write_essence_element picture_key 4 0 two_buffers) (read_essence_element 2) blank)
      (picture_key, 1 ∷ 2 ∷ 3 ∷ 4 ∷ 5 ∷ [])
      (picture_key ++ (ber 4 5 ++ (1 ∷ 2 ∷ 3 ∷ 4 ∷ 5 ∷ [])))
essence_element_round_trip_example =
    essence_element_round_trip plain_file blank picture_key 4 0 2 two_buffers (plain-IsOpen [] [])
      refl (omega arith, (omega arith, tt)) (omega arith, omega arith, refl)
      (omega arith, omega arith, refl) (omega arith) (omega arith) (omega arith) (omega arith)
      (omega arith)

-- The parts of the track number in a key.
track_number_of_picture :
    ◌≡◌ {A = ℕ × ℕ × ℕ × ℕ}
      (
        get_essence_element_item_type (get_track_number picture_key),
        get_essence_element_count (get_track_number picture_key),
        get_essence_element_type (get_track_number picture_key),
        get_essence_element_number (get_track_number picture_key),
      )
      (0x15, 0x01, 0x05, 0x01)
track_number_of_picture = refl

is_element_of_picture : is_gc_essence_element picture_key ≡ true
is_element_of_picture = refl
