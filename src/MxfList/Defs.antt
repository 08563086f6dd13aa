-- ===== src/MxfList/Defs.antt =====
-- The operations of mxf/mxf_list.c. The elements of a list are reachable through that list alone,
-- so a list is the chain of the data that its elements hold, and a pointer to an element is the
-- element's position in the chain. The data pointers are not NULL, and allocation succeeds.
use ebu_libmxf.Base.{
  ℕ, zero, suc, ◌+◌, ◌-◌, ◌%◌, ◌^◌, Bool, true, false, not, ◌||◌, Option, none, some, List, [], ◌∷◌,
  ◌++◌, length, take, drop, get_elem?, ltb, leb, ◌==◌, if◌then◌else◌,
}

-- `freeFunc` is not kept: what is handed to it is returned by the operation.
pub record MxfList {ℓ} (A : Type ℓ) : Type ℓ where
  pub elements : List A
  pub last_element : Option ℕ
  pub len : ℕ

-- MXF_LIST_NPOS, which is `(size_t)(-1)`
abbrev pub npos : ℕ
npos = 2 ^ 64 - 1

-- `size_t` addition
abbrev pub add_size : ℕ → ℕ → ℕ
add_size a b = (a + b) % 2 ^ 64

-- The position of an element after the element at `i` is gone, or after one is put at `i`.
abbrev pub shift_down : ℕ → ℕ → Option ℕ
shift_down i p = if p == i then none else if ltb i p then some (p - 1) else some p

abbrev pub shift_up : ℕ → ℕ → ℕ
shift_up i p = if ltb p i then p else p + 1

abbrev pub moved : (ℕ → Option ℕ) → Option ℕ → Option ℕ
moved f none = none
moved f (some p) = f p

module _ {ℓ} {A : Type ℓ} where
  abbrev pub erase_at : ℕ → List A → List A
  erase_at i [] = []
  erase_at zero (x ∷ xs) = xs
  erase_at (suc i) (x ∷ xs) = x ∷ erase_at i xs

  abbrev pub is_empty : List A → Bool
  is_empty [] = true
  is_empty (x ∷ xs) = false

  unfoldable pub initialise_list : MxfList A
  initialise_list = record { elements = []; last_element = none; len = 0 }

  -- Also returns what the free function is called with, in order.
  unfoldable pub clear_list : MxfList A → List A × MxfList A
  clear_list l = (l.elements, record { elements = []; last_element = none; len = 0 })

  -- remove_list_element of the element at `i`: `prevElement` is NULL exactly at the front.
  unfoldable pub remove_at : MxfList A → ℕ → MxfList A
  remove_at l zero =
      let rest = erase_at 0 l.elements in
      record {
        elements = rest;
        last_element = if is_empty rest then none else moved (shift_down 0) l.last_element;
        len = (l.len + (2 ^ 64 - 1)) % 2 ^ 64;
      }
  remove_at l (suc j) = record {
    elements = erase_at (suc j) l.elements;
    last_element =
        if is_empty (drop (suc (suc j)) l.elements)
        then some j
        else moved (shift_down (suc j)) l.last_element;
    len = (l.len + (2 ^ 64 - 1)) % 2 ^ 64;
  }

  -- `lastElement->next = newElement`: what stood behind the last element is cut off.
  abbrev pub link_behind : Option ℕ → List A → A → List A
  link_behind none xs a = xs
  link_behind (some p) xs a = take (p + 1) xs ++ (a ∷ [])

  unfoldable pub append_list_element : MxfList A → A → Option (MxfList A)
  append_list_element l a =
      let chain = if is_empty l.elements then a ∷ [] else link_behind l.last_element l.elements a in
      if add_size l.len 1 == npos
      then none
      else some (record {
        elements = chain;
        last_element = some (length chain - 1);
        len = add_size l.len 1;
      })

  unfoldable pub prepend_list_element : MxfList A → A → Option (MxfList A)
  prepend_list_element l a =
      if add_size l.len 1 == npos
      then none
      else some (record {
        elements = a ∷ l.elements;
        last_element =
            if is_empty l.elements then some 0 else moved (λ p. some (p + 1)) l.last_element;
        len = add_size l.len 1;
      })

  -- `while (currentIndex < bound && nextElement)`: the index at which the loop stops.
  unfoldable pub walk : ℕ → List A → ℕ → ℕ
  walk bound [] current = current
  walk bound (x ∷ xs) current = if ltb current bound then walk bound xs (current + 1) else current

  unfoldable pub insert_at : MxfList A → ℕ → A → MxfList A
  insert_at l i a = record {
    elements = take i l.elements ++ (a ∷ drop i l.elements);
    last_element =
        if is_empty (drop i l.elements)
        then some i
        else moved (λ p. some (shift_up i p)) l.last_element;
    len = add_size l.len 1;
  }

  -- The bound is a size_t: `currentIndex <= index` is `currentIndex < index + 1`.
  unfoldable pub insert_list_element : MxfList A → ℕ → Bool → A → Option (MxfList A)
  unfolding walk insert_at
  insert_list_element l index before a =
      let bound = if before then index else index + 1 in
      let current = walk bound l.elements 0 in
      if add_size l.len 1 == npos
      then none
      else if index == npos
      then none
      else if is_empty l.elements
      then some (record { elements = a ∷ []; last_element = some 0; len = add_size l.len 1 })
      else if not (current == bound)
      then none
      else some (insert_at l current a)

  unfoldable pub get_list_length : MxfList A → ℕ
  get_list_length l = l.len

  -- `eq x` is `eqFunc(element->data, info)`.
  unfoldable pub find_in : (A → Bool) → List A → Option A
  find_in eq [] = none
  find_in eq (x ∷ xs) = if eq x then some x else find_in eq xs

  unfoldable pub find_list_element : MxfList A → (A → Bool) → Option A
  unfolding find_in
  find_list_element l eq = find_in eq l.elements

  unfoldable pub find_index : (A → Bool) → List A → ℕ → Option ℕ
  find_index eq [] i = none
  find_index eq (x ∷ xs) i = if eq x then some i else find_index eq xs (i + 1)

  unfoldable pub remove_list_element : MxfList A → (A → Bool) → Option A × MxfList A
  unfolding find_index remove_at
  remove_list_element l eq = elim (find_index eq l.elements 0) [
    | none ↦ (none, l)
    | some i ↦ (get_elem? l.elements i, remove_at l i)
  ]

  unfoldable pub remove_list_element_at_index : MxfList A → ℕ → Option A × MxfList A
  unfolding remove_at
  remove_list_element_at_index l index =
      if index == npos || leb l.len index
      then (none, l)
      else (get_elem? l.elements index, remove_at l index)

  abbrev pub data_at : Option ℕ → List A → Option A
  data_at none xs = none
  data_at (some p) xs = get_elem? xs p

  unfoldable pub get_list_element : MxfList A → ℕ → Option A
  get_list_element l index =
      if index == npos || leb l.len index
      then none
      else if index == 0
      then get_elem? l.elements 0
      else if index == l.len - 1
      then data_at l.last_element l.elements
      else get_elem? l.elements index

  unfoldable pub get_first_list_element : MxfList A → Option A
  get_first_list_element l = get_elem? l.elements 0

  unfoldable pub get_last_list_element : MxfList A → Option A
  get_last_list_element l = data_at l.last_element l.elements
