-- ===== src/MxfList/Refine.antt =====
-- The operations of mxf/mxf_list.c and the sequence of the data of a list.
use ebu_libmxf.Base.{
  ℕ, zero, suc, ◌+◌, ◌-◌, ◌≤◌, ◌<◌, min, ◌≡◌, refl, ap, Bool, true, false, not, ◌&&◌, Option, none,
  some, List, [], ◌∷◌, ◌++◌, length, take, drop, get_elem?, leb, ◌==◌, if◌then◌else◌, arith,
  Bool-cases, inl, inr, length-append, length-take, length-drop,
}
use ebu_libmxf.MxfList.Defs.{
  MxfList, npos, erase_at, is_empty, clear_list, remove_at, link_behind, append_list_element,
  prepend_list_element, walk, insert_at, insert_list_element, find_index, find_in,
  remove_list_element, remove_list_element_at_index, get_list_length, find_list_element,
  get_list_element, get_first_list_element, get_last_list_element, data_at,
}
use ebu_libmxf.MxfList.Spec.{
  Op, append, prepend, insert, find, remove, remove_index, get, first, last, size, clear, step, run,
  insert_place, first_that, without_first, found, spec_step, spec_run,
}

abbrev pub last_position : ℕ → Option ℕ
last_position zero = none
last_position (suc n) = some n

last_position_pos : (n : ℕ) → 0 < n → last_position n ≡ some (n - 1)
last_position_pos zero h = absurd (omega arith)
last_position_pos (suc n) h = ap some (omega arith)

module _ {A : Type 0} where
  -- The list of the elements `xs` with consistent pointers: `lastElement` is the last of the
  -- chain, and `len` counts the chain.
  abbrev pub of_list : List A → MxfList A
  of_list xs = record { elements = xs; last_element = last_position (length xs); len = length xs }

  length-erase_at : (i : ℕ) (xs : List A) → i < length xs → length (erase_at i xs) ≡ length xs - 1
  length-erase_at i [] h = absurd (omega arith)
  length-erase_at zero (x ∷ xs) h = omega arith
  length-erase_at (suc i) (x ∷ xs) h = omega (arith, length-erase_at i xs (omega arith))

  is_empty-length : (xs : List A) → is_empty xs ≡ (length xs == 0)
  is_empty-length [] = refl
  is_empty-length (x ∷ xs) = ground arith

  take_all : (xs : List A) → take (length xs) xs ≡ xs
  take_all [] = refl
  take_all (x ∷ xs) = ap (λ t. x ∷ t) (take_all xs)

  drop_all : (n : ℕ) (xs : List A) → length xs ≤ n → drop n xs ≡ []
  drop_all zero [] h = refl
  drop_all zero (x ∷ xs) h = absurd (omega arith)
  drop_all (suc n) [] h = refl
  drop_all (suc n) (x ∷ xs) h = drop_all n xs (omega arith)

  chain-append :
      (xs : List A) (a : A)
      → (if is_empty xs then a ∷ [] else link_behind (last_position (length xs)) xs a)
        ≡ xs ++ (a ∷ [])
  chain-append [] a = refl
  chain-append (x ∷ xs) a =
      let e : length xs + 1 ≡ suc (length xs) = omega arith in rw (e, take_all xs)

  pub append-of_list :
      (xs : List A) (a : A)
      → length xs < npos
      → append_list_element (of_list xs) a
        ≡ (if length xs + 1 == npos then none else some (of_list (xs ++ (a ∷ []))))
  unfolding append_list_element
  append-of_list xs a h = ground (
    arith,
    chain-append xs a,
    length-append xs (a ∷ []),
    last_position_pos (length (xs ++ (a ∷ []))),
  )

  pub prepend-of_list :
      (xs : List A) (a : A)
      → length xs < npos
      → prepend_list_element (of_list xs) a
        ≡ (if length xs + 1 == npos then none else some (of_list (a ∷ xs)))
  unfolding prepend_list_element
  prepend-of_list [] a h = refl
  prepend-of_list (x ∷ xs) a h = ground arith

  pub remove_at-of_list :
      (xs : List A) (i : ℕ)
      → i < length xs
      → length xs < npos
      → remove_at (of_list xs) i ≡ of_list (erase_at i xs)
  unfolding remove_at
  remove_at-of_list xs zero h n = ground (
    arith,
    length-erase_at 0 xs,
    is_empty-length (erase_at 0 xs),
    last_position_pos (length xs),
    last_position_pos (length xs - 1),
  )
  remove_at-of_list xs (suc j) h n = ground (
    arith,
    length-erase_at (suc j) xs,
    is_empty-length (drop (suc (suc j)) xs),
    length-drop (suc (suc j)) xs,
    last_position_pos (length xs),
    last_position_pos (length xs - 1),
  )

  -- The walk stops at the bound or at the end.
  walk_lem :
      (bound : ℕ) (xs : List A) (current : ℕ)
      → current ≤ bound
      → walk bound xs current ≡ min bound (current + length xs)
  unfolding walk
  walk_lem bound [] current h = omega arith
  walk_lem bound (x ∷ xs) current h = ground (arith, walk_lem bound xs (current + 1))

  insert_at-of_list :
      (xs : List A) (i : ℕ) (a : A)
      → length xs + 1 < npos
      → i ≤ length xs
      → insert_at (of_list xs) i a ≡ of_list (take i xs ++ (a ∷ drop i xs))
  unfolding insert_at
  insert_at-of_list xs i a h hi = ground (
    arith,
    is_empty-length (drop i xs),
    length-drop i xs,
    length-take i xs,
    length-append (take i xs) (a ∷ drop i xs),
    last_position_pos (length xs),
    last_position_pos (length (take i xs ++ (a ∷ drop i xs))),
  )

  pub insert-of_list :
      (xs : List A) (i : ℕ) (before : Bool) (a : A)
      → length xs < npos
      → insert_list_element (of_list xs) i before a ≡ (
          let place = insert_place xs i before in
          if length xs + 1 == npos
          then none
          else if not (i == npos) && leb place (length xs)
          then some (of_list (take place xs ++ (a ∷ drop place xs)))
          else none)
  unfolding insert_list_element
  insert-of_list [] i before a h = ground arith
  insert-of_list (x ∷ xs) i true a h =
      ground (arith, walk_lem i (x ∷ xs) 0, insert_at-of_list (x ∷ xs) i a)
  insert-of_list (x ∷ xs) i false a h =
      ground (arith, walk_lem (i + 1) (x ∷ xs) 0, insert_at-of_list (x ∷ xs) (i + 1) a)

  get_elem?-none : (xs : List A) (i : ℕ) → length xs ≤ i → get_elem? xs i ≡ none
  get_elem?-none [] i h = refl
  get_elem?-none (x ∷ xs) zero h = absurd (omega arith)
  get_elem?-none (x ∷ xs) (suc i) h = get_elem?-none xs i (omega arith)

  erase_at_end : (i : ℕ) (xs : List A) → length xs ≤ i → erase_at i xs ≡ xs
  erase_at_end i [] h = refl
  erase_at_end zero (x ∷ xs) h = absurd (omega arith)
  erase_at_end (suc i) (x ∷ xs) h = ap (λ t. x ∷ t) (erase_at_end i xs (omega arith))

  pub remove_index-of_list :
      (xs : List A) (i : ℕ)
      → length xs < npos
      → remove_list_element_at_index (of_list xs) i ≡ (get_elem? xs i, of_list (erase_at i xs))
  unfolding remove_list_element_at_index
  remove_index-of_list xs i h =
      ground (arith, get_elem?-none xs i, erase_at_end i xs, remove_at-of_list xs i)

  pub last-of_list :
      (xs : List A) → data_at (last_position (length xs)) xs ≡ get_elem? xs (length xs - 1)
  last-of_list [] = refl
  last-of_list (x ∷ xs) = ap (λ (k : ℕ). get_elem? (x ∷ xs) k) (omega arith)

  pub get-of_list :
      (xs : List A) (i : ℕ) → length xs < npos → get_list_element (of_list xs) i ≡ get_elem? xs i
  unfolding get_list_element
  get-of_list xs i h = ground (arith, get_elem?-none xs i, last-of_list xs)

  find_in-first_that : (eq : A → Bool) (xs : List A) → find_in eq xs ≡ first_that eq xs
  unfolding find_in
  find_in-first_that eq [] = refl
  find_in-first_that eq (x ∷ xs) = elim (Bool-cases (eq x)) [
    | inl e ↦ rw (first_that, e) refl
    | inr e ↦ rw (first_that, e) (find_in-first_that eq xs)
  ]

  -- The search comes to no element, and there is none to take out.
  find_index-none :
      (eq : A → Bool) (xs : List A) (k : ℕ)
      → find_index eq xs k ≡ none
      → (first_that eq xs ≡ none) × (without_first eq xs ≡ xs)
  unfolding find_index
  find_index-none eq [] k h = (refl, refl)
  find_index-none eq (x ∷ xs) k h = elim (Bool-cases (eq x)) [
    | inl e ↦ (let i : some k ≡ none = (rw e at h) in cc)
    | inr e ↦
        let (a, b) = find_index-none eq xs (k + 1) (rw e at h) in
        (rw (first_that, e) a, rw (without_first, e) (ap (λ ys. x ∷ ys) b))
  ]

  -- The search comes to the first element, which is the one to take out.
  find_index-some :
      (eq : A → Bool) (xs : List A) (k i : ℕ)
      → find_index eq xs k ≡ some i
      → (j : ℕ) × (k + j ≡ i)
        × (j < length xs)
        × (get_elem? xs j ≡ first_that eq xs)
        × (erase_at j xs ≡ without_first eq xs)
  unfolding find_index
  find_index-some eq [] k i h = cc
  find_index-some eq (x ∷ xs) k i h = elim (Bool-cases (eq x)) [
    | inl e ↦
        let place : k ≡ i = ground arith in
        (0, omega arith, omega arith, rw (first_that, e) refl, rw (without_first, e) refl)
    | inr e ↦
        let (j, place, less, a, b) = find_index-some eq xs (k + 1) i (rw e at h) in
        (
          suc j,
          omega arith,
          omega arith,
          rw (first_that, e) a,
          rw (without_first, e) (ap (λ ys. x ∷ ys) b),
        )
  ]

  remove_step :
      (xs : List A) (eq : A → Bool) (o : Option ℕ)
      → find_index eq xs 0 ≡ o
      → length xs < npos
      → step (of_list xs) (remove eq) ≡ (found (first_that eq xs), of_list (without_first eq xs))
  unfolding step remove_list_element
  remove_step xs eq none e n =
      let (a, b) = find_index-none eq xs 0 e in rw (e, remove_list_element, a, b)
  remove_step xs eq (some i) e n =
      let (j, place, less, a, b) = find_index-some eq xs 0 i e in
      let same : j ≡ i = omega arith in
      rw (e, remove_list_element, ← same, remove_at-of_list xs j less n, a, b)

  length-without_first_le : (eq : A → Bool) (xs : List A) → length (without_first eq xs) ≤ length xs
  length-without_first_le eq [] = omega arith
  length-without_first_le eq (x ∷ xs) = elim (Bool-cases (eq x)) [
    | inl e ↦ rw (without_first, e) (omega arith)
    | inr e ↦ rw (without_first, e) (omega (arith, length-without_first_le eq xs))
  ]

  length-erase_at_le : (i : ℕ) (xs : List A) → length (erase_at i xs) ≤ length xs
  length-erase_at_le i [] = omega arith
  length-erase_at_le zero (x ∷ xs) = omega arith
  length-erase_at_le (suc i) (x ∷ xs) = omega (arith, length-erase_at_le i xs)

  -- One call: the same reply, and the list of the sequence that the call leads to.
  step-of_list :
      (xs : List A) (op : Op A)
      → length xs < npos
      → step (of_list xs) op ≡ ((spec_step xs op).0, of_list (spec_step xs op).1)
  unfolding step spec_step
  step-of_list xs (append a) h = ground (arith, append-of_list xs a h)
  step-of_list xs (prepend a) h = ground (arith, prepend-of_list xs a h)
  step-of_list xs (insert i before a) h = ground (arith, insert-of_list xs i before a h)
  step-of_list xs (find eq) h =
      unfold find_list_element in ap (λ o. (found o, of_list xs)) (find_in-first_that eq xs)
  step-of_list xs (remove eq) h = remove_step xs eq (find_index eq xs 0) refl h
  step-of_list xs (remove_index i) h = rw (remove_index-of_list xs i h)
  step-of_list xs (get i) h = rw (get-of_list xs i h)
  step-of_list xs first h = unfold get_first_list_element in refl
  step-of_list xs last h = rw (← last-of_list xs) (unfold get_last_list_element in refl)
  step-of_list xs size h = unfold get_list_length in refl
  step-of_list xs clear h = unfold clear_list in refl

  -- No call makes a sequence too long.
  spec_step_bounded :
      (xs : List A) (op : Op A) → length xs < npos → length (spec_step xs op).1 < npos
  unfolding spec_step
  spec_step_bounded xs (append a) h = ground (arith, length-append xs (a ∷ []))
  spec_step_bounded xs (prepend a) h = ground arith
  spec_step_bounded xs (insert i before a) h =
      let place : ℕ = insert_place xs i before in
      ground (
        arith,
        length-append (take place xs) (a ∷ drop place xs),
        length-take place xs,
        length-drop place xs,
      )
  spec_step_bounded xs (find eq) h = h
  spec_step_bounded xs (remove eq) h = omega (arith, length-without_first_le eq xs)
  spec_step_bounded xs (remove_index i) h = omega (arith, length-erase_at_le i xs)
  spec_step_bounded xs (get i) h = h
  spec_step_bounded xs first h = h
  spec_step_bounded xs last h = h
  spec_step_bounded xs size h = h
  spec_step_bounded xs clear h = omega arith

  -- From a list of fewer than 2 to the 64 less 1 elements, any sequence of calls gives the replies
  -- that the same calls on the plain sequence of its elements give.
  pub run-of_list :
      (ops : List (Op A)) (xs : List A) → length xs < npos → run (of_list xs) ops ≡ spec_run xs ops
  unfolding run spec_run
  run-of_list [] xs h = refl
  run-of_list (op ∷ ops) xs h =
      rw (step-of_list xs op h, run-of_list ops (spec_step xs op).1 (spec_step_bounded xs op h))
