-- ===== src/MxfList/Spec.antt =====
-- What mxf/mxf_list.c promises, over plain sequences.
use ebu_libmxf.Base.{
  ℕ, ◌+◌, ◌-◌, Bool, true, false, not, ◌&&◌, Option, none, some, List, [], ◌∷◌, ◌++◌, length, take,
  drop, get_elem?, leb, ◌==◌, if◌then◌else◌,
}
use ebu_libmxf.MxfList.Defs.{
  MxfList, npos, erase_at, clear_list, append_list_element, prepend_list_element,
  insert_list_element, get_list_length, find_list_element, remove_list_element,
  remove_list_element_at_index, get_list_element, get_first_list_element, get_last_list_element,
}

-- The calls of a client. A predicate stands for `eqFunc` with its `info`.
pub data Op {ℓ} (A : Type ℓ) : Type ℓ where
  append prepend : A → Op A
  insert : ℕ → Bool → A → Op A
  find remove : (A → Bool) → Op A
  remove_index get : ℕ → Op A
  first last size clear : Op A

-- What a call returns: a status, an element or NULL, a length, or the data that were freed.
pub data Reply {ℓ} (A : Type ℓ) : Type ℓ where
  status : Bool → Reply A
  found : Option A → Reply A
  count : ℕ → Reply A
  freed : List A → Reply A

module _ {ℓ} {A : Type ℓ} where
  abbrev pub settle : MxfList A → Option (MxfList A) → Reply A × MxfList A
  settle old none = (status false, old)
  settle old (some l) = (status true, l)

  unfoldable pub step : MxfList A → Op A → Reply A × MxfList A
  step l (append a) = settle l (append_list_element l a)
  step l (prepend a) = settle l (prepend_list_element l a)
  step l (insert i before a) = settle l (insert_list_element l i before a)
  step l (find eq) = (found (find_list_element l eq), l)
  step l (remove eq) = let (r, l') = remove_list_element l eq in (found r, l')
  step l (remove_index i) = let (r, l') = remove_list_element_at_index l i in (found r, l')
  step l (get i) = (found (get_list_element l i), l)
  step l first = (found (get_first_list_element l), l)
  step l last = (found (get_last_list_element l), l)
  step l size = (count (get_list_length l), l)
  step l clear = let (data_freed, l') = clear_list l in (freed data_freed, l')

  unfoldable pub run : MxfList A → List (Op A) → List (Reply A)
  run l [] = []
  run l (op ∷ ops) = let (r, l') = step l op in r ∷ run l' ops

  -- The sequence after a call that adds, unless it is as long as a list may be.
  abbrev pub grow : List A → Bool → List A → Reply A × List A
  grow xs may ys =
      if length xs + 1 == npos
      then (status false, xs)
      else if may
      then (status true, ys)
      else (status false, xs)

  -- An insertion before the position after the last appends. Into an empty sequence any index but
  -- the largest inserts.
  abbrev pub insert_place : List A → ℕ → Bool → ℕ
  insert_place [] i before = 0
  insert_place (x ∷ xs) i before = if before then i else i + 1

  -- The first element that the predicate holds of, and the sequence without it.
  abbrev pub first_that : (A → Bool) → List A → Option A
  first_that eq [] = none
  first_that eq (x ∷ xs) = if eq x then some x else first_that eq xs

  abbrev pub without_first : (A → Bool) → List A → List A
  without_first eq [] = []
  without_first eq (x ∷ xs) = if eq x then xs else x ∷ without_first eq xs

  unfoldable pub spec_step : List A → Op A → Reply A × List A
  spec_step xs (append a) = grow xs true (xs ++ (a ∷ []))
  spec_step xs (prepend a) = grow xs true (a ∷ xs)
  spec_step xs (insert i before a) =
      let place = insert_place xs i before in
      grow xs (not (i == npos) && leb place (length xs)) (take place xs ++ (a ∷ drop place xs))
  spec_step xs (find eq) = (found (first_that eq xs), xs)
  spec_step xs (remove eq) = (found (first_that eq xs), without_first eq xs)
  spec_step xs (remove_index i) = (found (get_elem? xs i), erase_at i xs)
  spec_step xs (get i) = (found (get_elem? xs i), xs)
  spec_step xs first = (found (get_elem? xs 0), xs)
  spec_step xs last = (found (get_elem? xs (length xs - 1)), xs)
  spec_step xs size = (count (length xs), xs)
  spec_step xs clear = (freed xs, [])

  unfoldable pub spec_run : List A → List (Op A) → List (Reply A)
  spec_run xs [] = []
  spec_run xs (op ∷ ops) = let (r, xs') = spec_step xs op in r ∷ spec_run xs' ops
