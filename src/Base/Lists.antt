-- ===== src/Base/Lists.antt =====
-- Lists measured and indexed by native numbers, under the library's names.
use Prim.Native.Nat.{ℕ, zero, suc, ◌+◌, ◌-◌, ◌≤◌, min}
use mathlib.Core.Path.{◌≡◌, refl, ap, sym, ◌∙◌}
use mathlib.Core.Bool.{Bool, true, false, ◌&&◌}
use mathlib.Core.List.{List, [], ◌∷◌, ◌++◌}
use mathlib.Core.Option.{Option, none, some}
use native.Mathlib.Omega.{arith}
use ebu_libmxf.Base.Tests.{◌==◌}

module _ {ℓ} {A : Type ℓ} where
  abbrev pub length : List A → ℕ
  length [] = 0
  length (x ∷ xs) = suc (length xs)

  abbrev pub get_elem? : List A → ℕ → Option A
  get_elem? [] i = none
  get_elem? (x ∷ xs) zero = some x
  get_elem? (x ∷ xs) (suc i) = get_elem? xs i

  abbrev pub get_or : List A → ℕ → A → A
  get_or [] i d = d
  get_or (x ∷ xs) zero d = x
  get_or (x ∷ xs) (suc i) d = get_or xs i d

  abbrev pub take : ℕ → List A → List A
  take zero xs = []
  take (suc n) [] = []
  take (suc n) (x ∷ xs) = x ∷ take n xs

  abbrev pub drop : ℕ → List A → List A
  drop zero xs = xs
  drop (suc n) [] = []
  drop (suc n) (x ∷ xs) = drop n xs

  abbrev pub replicate : ℕ → A → List A
  replicate zero a = []
  replicate (suc n) a = a ∷ replicate n a

  abbrev pub All {κ} : (A → Type κ) → List A → Type κ
  All P [] = Unit {κ}
  All P (x ∷ xs) = P x × All P xs

module _ {ℓ} {A : Type ℓ} where
  pub length-append : (xs ys : List A) → length (xs ++ ys) ≡ length xs + length ys
  length-append [] ys = omega arith
  length-append (x ∷ xs) ys = omega (arith, length-append xs ys)

  pub take-append-drop : (n : ℕ) (xs : List A) → take n xs ++ drop n xs ≡ xs
  take-append-drop zero xs = refl
  take-append-drop (suc n) [] = refl
  take-append-drop (suc n) (x ∷ xs) = rw (take-append-drop n xs)

  pub length-take : (n : ℕ) (xs : List A) → length (take n xs) ≡ min n (length xs)
  length-take zero xs = omega arith
  length-take (suc n) [] = omega arith
  length-take (suc n) (x ∷ xs) = omega (arith, length-take n xs)

  pub length-drop : (n : ℕ) (xs : List A) → length (drop n xs) ≡ length xs - n
  length-drop zero xs = omega arith
  length-drop (suc n) [] = omega arith
  length-drop (suc n) (x ∷ xs) = omega (arith, length-drop n xs)

  pub length-replicate : (n : ℕ) (a : A) → length (replicate n a) ≡ n
  length-replicate zero a = refl
  length-replicate (suc n) a = ap suc (length-replicate n a)

  -- Taking and dropping exactly the front part.
  pub take-append : (xs ys : List A) → take (length xs) (xs ++ ys) ≡ xs
  take-append [] ys = refl
  take-append (x ∷ xs) ys = ap (λ t. x ∷ t) (take-append xs ys)

  pub drop-append : (xs ys : List A) → drop (length xs) (xs ++ ys) ≡ ys
  drop-append [] ys = refl
  drop-append (x ∷ xs) ys = drop-append xs ys

  pub take-append_at : (n : ℕ) (xs ys : List A) → n ≡ length xs → take n (xs ++ ys) ≡ xs
  take-append_at n xs ys h = rw h (take-append xs ys)

  pub drop-append_at : (n : ℕ) (xs ys : List A) → n ≡ length xs → drop n (xs ++ ys) ≡ ys
  drop-append_at n xs ys h = rw h (drop-append xs ys)

  pub take-all : (n : ℕ) (xs : List A) → length xs ≤ n → take n xs ≡ xs
  take-all zero [] h = refl
  take-all zero (x ∷ xs) h = absurd (omega arith)
  take-all (suc n) [] h = refl
  take-all (suc n) (x ∷ xs) h = ap (λ t. x ∷ t) (take-all n xs (omega arith))

  pub drop-all : (n : ℕ) (xs : List A) → length xs ≤ n → drop n xs ≡ []
  drop-all zero [] h = refl
  drop-all zero (x ∷ xs) h = absurd (omega arith)
  drop-all (suc n) [] h = refl
  drop-all (suc n) (x ∷ xs) h = drop-all n xs (omega arith)

  pub take-nil : (n : ℕ) → take {A = A} n [] ≡ []
  take-nil zero = refl
  take-nil (suc n) = refl

  pub drop-take : (p n : ℕ) (xs : List A) → drop p (take n xs) ≡ take (n - p) (drop p xs)
  drop-take zero n xs = ap (λ (k : ℕ). take k xs) (omega arith)
  drop-take (suc p) n [] = rw (take-nil n, take-nil (n - suc p)) refl
  drop-take (suc p) zero (x ∷ xs) = let e : 0 - suc p ≡ 0 = omega arith in rw e refl
  drop-take (suc p) (suc n) (x ∷ xs) =
      let e : suc n - suc p ≡ n - p = omega arith in rw e (drop-take p n xs)

  pub take-take : (m n : ℕ) (xs : List A) → take m (take n xs) ≡ take (min m n) xs
  take-take m n [] = rw (take-nil n, take-nil m, take-nil (min m n)) refl
  take-take zero n (x ∷ xs) = let e : min 0 n ≡ 0 = omega arith in rw e refl
  take-take (suc m) zero (x ∷ xs) = let e : min (suc m) 0 ≡ 0 = omega arith in rw e refl
  take-take (suc m) (suc n) (x ∷ xs) =
      let e : min (suc m) (suc n) ≡ suc (min m n) = omega arith in
      rw e (ap (λ t. x ∷ t) (take-take m n xs))

  pub drop-taken : (n : ℕ) (xs : List A) → drop (length (take n xs)) xs ≡ drop n xs
  drop-taken zero xs = refl
  drop-taken (suc n) [] = refl
  drop-taken (suc n) (x ∷ xs) = drop-taken n xs

  pub take-add : (a p : ℕ) (xs : List A) → take a xs ++ take p (drop a xs) ≡ take (a + p) xs
  take-add zero p xs = ap (λ (n : ℕ). take n xs) (omega arith)
  take-add (suc a) p [] = rw (take-nil p, take-nil (suc a + p)) refl
  take-add (suc a) p (x ∷ xs) =
      let e : suc a + p ≡ suc (a + p) = omega arith in rw e (ap (λ t. x ∷ t) (take-add a p xs))

  -- A cut anywhere in two lists.
  pub take-append_split :
      (n : ℕ) (xs ys : List A) → take n (xs ++ ys) ≡ take n xs ++ take (n - length xs) ys
  take-append_split n [] ys =
      ap (λ (k : ℕ). take k ys) (omega arith) ∙ sym (nothing n (take (n - 0) ys))
    where
      nothing : (n : ℕ) (zs : List A) → take n [] ++ zs ≡ zs
      nothing zero zs = refl
      nothing (suc n) zs = refl
  take-append_split zero (x ∷ xs) ys =
      let none_left : 0 - suc (length xs) ≡ 0 = omega arith in rw none_left refl
  take-append_split (suc n) (x ∷ xs) ys =
      let left : suc n - suc (length xs) ≡ n - length xs = omega arith in
      rw left (ap (λ t. x ∷ t) (take-append_split n xs ys))

  pub drop-append_split :
      (n : ℕ) (xs ys : List A) → drop n (xs ++ ys) ≡ drop n xs ++ drop (n - length xs) ys
  drop-append_split n [] ys =
      ap (λ (k : ℕ). drop k ys) (omega arith) ∙ sym (nothing n (drop (n - 0) ys))
    where
      nothing : (n : ℕ) (zs : List A) → drop n [] ++ zs ≡ zs
      nothing zero zs = refl
      nothing (suc n) zs = refl
  drop-append_split zero (x ∷ xs) ys =
      let none_left : 0 - suc (length xs) ≡ 0 = omega arith in rw none_left refl
  drop-append_split (suc n) (x ∷ xs) ys =
      let left : suc n - suc (length xs) ≡ n - length xs = omega arith in
      rw left (drop-append_split n xs ys)

  -- The front part and what is taken behind it.
  pub take-drop-more :
      (p n : ℕ) (xs : List A)
      → take p xs ++ take n (drop p xs) ≡ take (p + length (take n (drop p xs))) xs
  take-drop-more zero n xs = take_taken n xs ∙ ap (λ (k : ℕ). take k xs) (omega arith)
    where
      take_taken : (n : ℕ) (xs : List A) → take n xs ≡ take (length (take n xs)) xs
      take_taken zero xs = refl
      take_taken (suc n) [] = refl
      take_taken (suc n) (x ∷ xs) = ap (λ t. x ∷ t) (take_taken n xs)
  take-drop-more (suc p) zero [] = sym (take-nil (suc p + 0))
  take-drop-more (suc p) (suc n) [] = sym (take-nil (suc p + 0))
  take-drop-more (suc p) n (x ∷ xs) =
      ap (λ t. x ∷ t) (take-drop-more p n xs)
      ∙ ap (λ (k : ℕ). take k (x ∷ xs))
          (let e : suc (p + length (take n (drop p xs))) ≡ suc p + length (take n (drop p xs)) =
              omega arith in
            e)

  pub drop-nil : (n : ℕ) → drop {A = A} n [] ≡ []
  drop-nil zero = refl
  drop-nil (suc n) = refl

  pub drop-drop : (n : ℕ) (m : ℕ) (xs : List A) → drop m (drop n xs) ≡ drop (n + m) xs
  drop-drop zero m xs = ap (λ (k : ℕ). drop k xs) (omega arith)
  drop-drop (suc n) m [] = drop-nil m ∙ sym (drop-nil (suc n + m))
  drop-drop (suc n) m (x ∷ xs) =
      drop-drop n m xs
      ∙ ap (λ (k : ℕ). drop k (x ∷ xs)) (let e : suc (n + m) ≡ suc n + m = omega arith in e)

  pub replicate-append : (n m : ℕ) (a : A) → replicate n a ++ replicate m a ≡ replicate (n + m) a
  replicate-append zero m a = ap (λ (k : ℕ). replicate k a) (omega arith)
  replicate-append (suc n) m a =
      ap (λ t. a ∷ t) (replicate-append n m a)
      ∙ ap (λ (k : ℕ). replicate k a) (let e : suc (n + m) ≡ suc n + m = omega arith in e)

-- `memcmp(a, b, n) == 0` on two byte strings of one length.
abbrev pub list_eq : List ℕ → List ℕ → Bool
list_eq [] [] = true
list_eq [] (y ∷ ys) = false
list_eq (x ∷ xs) [] = false
list_eq (x ∷ xs) (y ∷ ys) = (x == y) && list_eq xs ys

pub list_eq→eq : (xs ys : List ℕ) → list_eq xs ys ≡ true → xs ≡ ys
list_eq→eq [] [] h = refl
list_eq→eq [] (y ∷ ys) h = cc
list_eq→eq (x ∷ xs) [] h = cc
list_eq→eq (x ∷ xs) (y ∷ ys) h = ground (arith, list_eq→eq xs ys)

pub list_eq_self : (xs : List ℕ) → list_eq xs xs ≡ true
list_eq_self [] = refl
list_eq_self (x ∷ xs) = ground (arith, list_eq_self xs)
