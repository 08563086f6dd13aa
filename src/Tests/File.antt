-- ===== src/Tests/File.antt =====
-- mxf/mxf_file.c on a byte file in memory.
use ebu_libmxf.Base.{◌^◌, ◌≡◌, refl, [], ◌∷◌, arith}
use ebu_libmxf.File.Monad.{failed}
use ebu_libmxf.File.Length.{ber_llen, get_llen, read_l, write_l, write_fixed_l}
use ebu_libmxf.File.Skip.{skip}
use ebu_libmxf.File.Laws.{Wrote, Read}
use ebu_libmxf.File.Laws.Length.{ber, write_fixed_l-refuses}
use ebu_libmxf.File.Laws.Replay.{replay}
use ebu_libmxf.File.Laws.RoundTrip.{length_round_trip, skip_passes}
use ebu_libmxf.Tests.Plain.{plain, plain_file, plain_with, blank, plain-IsOpen}

llen_of_300 : ber_llen 300 ≡ 3
unfolding ber_llen
llen_of_300 = refl

llen_of_2_56 : ber_llen (2 ^ 56) ≡ 9
unfolding ber_llen
llen_of_2_56 = refl

length_round_trip_example :
    Wrote plain_file blank
      (replay (write_l 300) read_l blank)
      (get_llen blank 300, 300)
      (ber (get_llen blank 300) 300)
length_round_trip_example =
    length_round_trip plain_file blank 300 (plain-IsOpen [] []) (omega arith) (omega arith)

skip_passes_example :
    Read plain_file
      (plain_with [] (1 ∷ 2 ∷ 3 ∷ []))
      (skip 2 (plain_with [] (1 ∷ 2 ∷ 3 ∷ [])))
      tt
      (1 ∷ 2 ∷ [])
      (3 ∷ [])
skip_passes_example =
    skip_passes plain_file (plain_with [] (1 ∷ 2 ∷ 3 ∷ [])) (1 ∷ 2 ∷ []) (3 ∷ [])
      (plain-IsOpen [] (1 ∷ 2 ∷ 3 ∷ [])) (omega arith) refl

write_fixed_l-refuses_example : write_fixed_l 2 300 blank ≡ failed blank
unfolding ber_llen
write_fixed_l-refuses_example = write_fixed_l-refuses blank 2 300 (omega arith) (omega arith)
