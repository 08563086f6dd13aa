-- ===== src/Tests/MxfList.antt =====
-- mxf/mxf_list.c on short lists of numbers.
use ebu_libmxf.Base.{ℕ, ◌≡◌, refl, true, none, some, List, [], ◌∷◌, arith}
use ebu_libmxf.MxfList.Defs.{MxfList}
use ebu_libmxf.MxfList.Iter.{
  initialise_list_iter, initialise_list_iter_at, nexts, standing, nexts-initialise,
  nexts-initialise_at,
}
use ebu_libmxf.MxfList.Spec.{
  Op, append, prepend, remove_index, get, size, status, found, count, run, spec_step, spec_run,
}
use ebu_libmxf.MxfList.Refine.{of_list, run-of_list}

abbrev three : MxfList ℕ
three = of_list (10 ∷ 20 ∷ 30 ∷ [])

abbrev calls : List (Op ℕ)
calls = append 3 ∷ prepend 1 ∷ remove_index 1 ∷ size ∷ get 1 ∷ []

spec_replies :
    spec_run [] calls ≡ (status true ∷ status true ∷ found (some 3) ∷ count 1 ∷ found none ∷ [])
unfolding spec_run spec_step
spec_replies = refl

run-of_list_example : run (of_list []) calls ≡ spec_run [] calls
run-of_list_example = run-of_list calls [] (omega arith)

nexts-initialise_example : nexts 2 (initialise_list_iter three) ≡ standing (10 ∷ 20 ∷ 30 ∷ []) 1 1
nexts-initialise_example = nexts-initialise three 1 (omega arith) (omega arith)

nexts-initialise_at_example :
    nexts 1 (initialise_list_iter_at three 1) ≡ standing (10 ∷ 20 ∷ 30 ∷ []) 1 2
nexts-initialise_at_example = nexts-initialise_at three 1 0 (omega arith) (omega arith)
