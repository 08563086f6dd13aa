-- ===== src/MxfList/Iter.antt =====
-- The iterators of mxf/mxf_list.c. An iterator holds the chain from its next element on.
use ebu_libmxf.Base.{
  ℕ, zero, suc, ◌+◌, ◌<◌, ◌≤◌, ◌≡◌, refl, ap, ◌∙◌, ◌^◌, drop-drop, length-drop, Bool, true, false,
  Option, none, some, List, [], ◌∷◌, length, drop, get_elem?, ◌==◌, if◌then◌else◌, arith,
}
use ebu_libmxf.MxfList.Defs.{MxfList, npos, add_size}

pub record Iter {ℓ} (A : Type ℓ) : Type ℓ where
  pub next_element : List A
  pub current : Option A
  pub index : ℕ

module _ {ℓ} {A : Type ℓ} where
  unfoldable pub initialise_list_iter : MxfList A → Iter A
  initialise_list_iter l = record { next_element = l.elements; current = none; index = npos }

  -- `while (iter->index != index && iter->nextElement)`
  unfoldable pub skip_to : ℕ → List A → ℕ → Iter A
  skip_to target [] i = record { next_element = []; current = none; index = i }
  skip_to target (x ∷ xs) i =
      if i == target
      then record { next_element = x ∷ xs; current = none; index = i }
      else skip_to target xs (add_size i 1)

  unfoldable pub initialise_list_iter_at : MxfList A → ℕ → Iter A
  unfolding initialise_list_iter skip_to
  initialise_list_iter_at l index =
      if index == npos then initialise_list_iter l else skip_to index l.elements 0

  unfoldable pub advance : List A → ℕ → Bool × Iter A
  advance [] i = (false, record { next_element = []; current = none; index = npos })
  advance (x ∷ xs) i = (true, record { next_element = xs; current = some x; index = add_size i 1 })

  unfoldable pub next_list_iter_element : Iter A → Bool × Iter A
  unfolding advance
  next_list_iter_element it = advance it.next_element it.index

  unfoldable pub get_iter_element : Iter A → Option A
  get_iter_element it = it.current

  unfoldable pub get_list_iter_index : Iter A → ℕ
  get_list_iter_index it = it.index

  -- `n` calls of mxf_next_list_iter_element.
  unfoldable pub nexts : ℕ → Iter A → Iter A
  nexts zero it = it
  nexts (suc n) it = nexts n (next_list_iter_element it).1

module _ {A : Type 0} where
  -- Where an iterator stands that has gone `i` elements into `xs` and one further.
  abbrev pub standing : List A → ℕ → ℕ → Iter A
  standing xs i index = record {
    next_element = drop (suc i) xs;
    current = get_elem? xs i;
    index = index;
  }

  nexts_lem :
      (n : ℕ) (xs : List A) (c : Option A) (j : ℕ)
      → n < length xs
      → j + suc n < 2 ^ 64
      → nexts (suc n) (record { next_element = xs; current = c; index = j })
        ≡ standing xs n (j + suc n)
  unfolding nexts next_list_iter_element
  nexts_lem n [] c j h b = absurd (omega arith)
  nexts_lem zero (x ∷ xs) c j h b =
      let e : add_size j 1 ≡ j + 1 = omega arith in
      ap (λ (k : ℕ). record { next_element = xs; current = some x; index = k }) e
  nexts_lem (suc n) (x ∷ xs) c j h b =
      let e : add_size j 1 ≡ j + 1 = omega arith in
      let e' : j + suc (suc n) ≡ j + 1 + suc n = omega arith in
      rw (e, e') (nexts_lem n xs (some x) (j + 1) (omega arith) (omega arith))

  -- On a list of fewer than 2 to the 64 less 1 elements, an iterator over the whole list is, after
  -- `k + 1` steps, at element `k`, which the list has, with index `k`.
  pub nexts-initialise :
      (l : MxfList A) (k : ℕ)
      → length l.elements < npos
      → k < length l.elements
      → nexts (suc k) (initialise_list_iter l) ≡ standing l.elements k k
  unfolding nexts next_list_iter_element initialise_list_iter
  nexts-initialise l k b h = go l.elements k b h
    where
      go :
          (xs : List A) (k : ℕ)
          → length xs < npos
          → k < length xs
          → nexts (suc k) (record { next_element = xs; current = none; index = npos })
            ≡ standing xs k k
      go [] k b h = absurd (omega arith)
      go (x ∷ xs) zero b h = refl
      go (x ∷ xs) (suc k) b h =
          nexts_lem k xs (some x) 0 (omega arith) (omega arith)
          ∙ ap (λ (n : ℕ). standing (x ∷ xs) (suc k) n) (omega arith)

  -- The step that comes after the last element returns false, and resets the index.
  pub nexts-end :
      (it : Iter A)
      → it.next_element ≡ []
      → next_list_iter_element it
        ≡ (false, record { next_element = []; current = none; index = npos })
  unfolding next_list_iter_element
  nexts-end it e = rw e

  get_elem?-drop : (i k : ℕ) (xs : List A) → get_elem? (drop i xs) k ≡ get_elem? xs (i + k)
  get_elem?-drop zero k xs = ap (λ (n : ℕ). get_elem? xs n) (omega arith)
  get_elem?-drop (suc i) k [] = refl
  get_elem?-drop (suc i) k (x ∷ xs) =
      get_elem?-drop i k xs
      ∙ ap (λ (n : ℕ). get_elem? (x ∷ xs) n) (let e : suc (i + k) ≡ suc i + k = omega arith in e)

  skip_to_lem :
      (n : ℕ) (xs : List A) (i target : ℕ)
      → target ≡ i + n
      → n ≤ length xs
      → i + length xs < npos
      → skip_to target xs i ≡ record { next_element = drop n xs; current = none; index = target }
  unfolding skip_to
  skip_to_lem zero [] i target e h b =
      ap (λ (k : ℕ). record { next_element = []; current = none; index = k }) (omega arith)
  skip_to_lem (suc n) [] i target e h b = absurd (omega arith)
  skip_to_lem zero (x ∷ xs) i target e h b = ground arith
  skip_to_lem (suc n) (x ∷ xs) i target e h b =
      let s : add_size i 1 ≡ i + 1 = omega arith in
      let ne : (i == target) ≡ false = ground arith in
      rw (ne, s) (skip_to_lem n xs (i + 1) target (omega arith) (omega arith) (omega arith))

  -- On a list of fewer than 2 to the 64 less 1 elements, an iterator that starts at `i` is, after
  -- `k + 1` steps, at element `i + k`, which the list has, but its index is `i + k + 1`.
  pub nexts-initialise_at :
      (l : MxfList A) (i k : ℕ)
      → length l.elements < npos
      → i + k < length l.elements
      → nexts (suc k) (initialise_list_iter_at l i) ≡ standing l.elements (i + k) (i + k + 1)
  unfolding initialise_list_iter_at
  nexts-initialise_at l i k b h =
      rw (small, skip_to_lem i l.elements 0 i (omega arith) (omega arith) (omega arith))
        (nexts_lem k (drop i l.elements) none i (omega (arith, length-drop i l.elements))
            (omega arith)
          ∙ place)
    where
      small : (i == npos) ≡ false
      small = ground arith

      place : standing (drop i l.elements) k (i + suc k) ≡ standing l.elements (i + k) (i + k + 1)
      place = λ d. record {
        next_element =
            (drop-drop i (suc k) l.elements
                ∙ ap (λ (n : ℕ). drop n l.elements)
                    (let e : i + suc k ≡ suc (i + k) = omega arith in e))
              d;
        current = get_elem?-drop i k l.elements d;
        index = (let e : i + suc k ≡ i + k + 1 = omega arith in e) d;
      }
