-- ===== src/Tree/Order.antt =====
-- The order that `compare_f` of mxf/mxf_tree.c gives, and sorted sequences of data.
use Prim.Native.Nat.{Ordering}
use ebu_libmxf.Base.{
  ◌≡◌, ◌≢◌, refl, sym, ap, ◌∙◌, ◌⊎◌, inl, inr, Bool, true, false, List, [], ◌∷◌, ◌++◌,
}
use ebu_libmxf.Base.Int.{ℤ}
use ebu_libmxf.Tree.Defs.{sign}

abbrev pub opposite : Ordering → Ordering
opposite Ordering.lt = Ordering.gt
opposite Ordering.eq = Ordering.eq
opposite Ordering.gt = Ordering.lt

pub Ordering-cases : (v : Ordering) → (v ≡ Ordering.lt) ⊎ ((v ≡ Ordering.eq) ⊎ (v ≡ Ordering.gt))
Ordering-cases Ordering.lt = inl refl
Ordering-cases Ordering.eq = inr (inl refl)
Ordering-cases Ordering.gt = inr (inr refl)

eq≢gt : Ordering.eq ≢ Ordering.gt
eq≢gt e = cc

eq≢lt : Ordering.eq ≢ Ordering.lt
eq≢lt e = cc

module _ {A : Type 0} where
  abbrev pub All : (A → Type 0) → List A → Type 0
  All P [] = Unit
  All P (x ∷ xs) = P x × All P xs

  abbrev pub IsSorted : (A → A → Type 0) → List A → Type 0
  IsSorted R [] = Unit
  IsSorted R (x ∷ xs) = All (R x) xs × IsSorted R xs

  pub All-imp : (P Q : A → Type 0) → ((x : A) → P x → Q x) → (xs : List A) → All P xs → All Q xs
  All-imp P Q f [] a = tt
  All-imp P Q f (x ∷ xs) (p, a) = (f x p, All-imp P Q f xs a)

  pub All-append : (P : A → Type 0) (xs ys : List A) → All P xs → All P ys → All P (xs ++ ys)
  All-append P [] ys a b = b
  All-append P (x ∷ xs) ys (p, a) b = (p, All-append P xs ys a b)

  pub All-split : (P : A → Type 0) (xs ys : List A) → All P (xs ++ ys) → All P xs × All P ys
  All-split P [] ys a = (tt, a)
  All-split P (x ∷ xs) ys (p, a) = let (b, c) = All-split P xs ys a in ((p, b), c)

  -- What a sorted sequence is around one of its elements.
  pub record Around (R : A → A → Type 0) (xs : List A) (y : A) (ys : List A) : Type 0 where
    pub front : IsSorted R xs
    pub below : All (λ x. R x y) xs
    pub above : All (R y) ys
    pub back : IsSorted R ys

  pub IsSorted-Around :
      (R : A → A → Type 0) (xs : List A) (y : A) (ys : List A)
      → IsSorted R (xs ++ (y ∷ ys))
      → Around R xs y ys
  IsSorted-Around R [] y ys (a, s) = record { front = tt; below = tt; above = a; back = s }
  IsSorted-Around R (x ∷ xs) y ys (a, s) =
      let (b, c) = All-split (R x) xs (y ∷ ys) a in
      let r = IsSorted-Around R xs y ys s in
      record { front = (b, r.front); below = (c.0, r.below); above = r.above; back = r.back }

  pub Around-IsSorted :
      (R : A → A → Type 0)
      → ((a b c : A) → R a b → R b c → R a c)
      → (xs : List A) (y : A) (ys : List A) → Around R xs y ys
      → IsSorted R (xs ++ (y ∷ ys))
  Around-IsSorted R t [] y ys r = (r.above, r.back)
  Around-IsSorted R t (x ∷ xs) y ys r =
      let (p, b) = r.below in
      let (a, s) = r.front in
      (
        All-append (R x) xs (y ∷ ys) a (p, All-imp (R y) (R x) (λ z q. t x y z p q) ys r.above),
        Around-IsSorted R t xs y ys
            (record { front = s; below = b; above = r.above; back = r.back }),
      )

  module _ (compare_f : A → A → ℤ) where
    abbrev pub compared : A → A → Ordering
    compared a b = sign (compare_f a b)

    abbrev pub AtMost : A → A → Type 0
    AtMost a b = ¬ (compared a b ≡ Ordering.gt)

    -- `compare_f` orders the data.
    pub record IsOrder : Type 0 where
      pub turn : (a b : A) → compared b a ≡ opposite (compared a b)
      pub chain : (a b c : A) → AtMost a b → AtMost b c → AtMost a c

    -- The order of the data of a tree, which is strict if it has no duplicates.
    abbrev pub Before : Bool → A → A → Type 0
    Before true a b = AtMost a b
    Before false a b = compared a b ≡ Ordering.lt

    module _ (o : IsOrder) where
      pub lt-AtMost : (a b : A) → compared a b ≡ Ordering.lt → AtMost a b
      lt-AtMost a b e g = cc

      -- `a` is before what comes after `b`, and before what `b` is before.
      pub lt_chain :
          (a b c : A) → compared a b ≡ Ordering.lt → AtMost b c → compared a c ≡ Ordering.lt
      lt_chain a b c e p = elim (Ordering-cases (compared a c)) [
        | inl u ↦ u
        | inr (inl u) ↦
            let back = o.turn a c ∙ ap opposite u in
            absurd (o.chain b c a p (λ g. eq≢gt (sym back ∙ g)) (o.turn a b ∙ ap opposite e))
        | inr (inr u) ↦ absurd (o.chain a b c (lt-AtMost a b e) p u)
      ]

      pub chain_lt :
          (a b c : A) → AtMost a b → compared b c ≡ Ordering.lt → compared a c ≡ Ordering.lt
      chain_lt a b c p e = elim (Ordering-cases (compared a c)) [
        | inl u ↦ u
        | inr (inl u) ↦
            let back = o.turn a c ∙ ap opposite u in
            absurd (o.chain c a b (λ g. eq≢gt (sym back ∙ g)) p (o.turn b c ∙ ap opposite e))
        | inr (inr u) ↦ absurd (o.chain a b c p (lt-AtMost b c e) u)
      ]

      pub gt-lt : (a b : A) → compared a b ≡ Ordering.gt → compared b a ≡ Ordering.lt
      gt-lt a b e = o.turn a b ∙ ap opposite e

      pub lt-gt : (a b : A) → compared a b ≡ Ordering.lt → compared b a ≡ Ordering.gt
      lt-gt a b e = o.turn a b ∙ ap opposite e

      pub Before-AtMost : (d : Bool) (a b : A) → Before d a b → AtMost a b
      Before-AtMost true a b p = p
      Before-AtMost false a b p = lt-AtMost a b p

      pub lt-Before : (d : Bool) (a b : A) → compared a b ≡ Ordering.lt → Before d a b
      lt-Before true a b e = lt-AtMost a b e
      lt-Before false a b e = e

      pub self-eq : (a : A) → compared a a ≡ Ordering.eq
      self-eq a = elim (Ordering-cases (compared a a)) [
        | inl u ↦ absurd (let v = sym u ∙ o.turn a a ∙ ap opposite u in cc)
        | inr (inl u) ↦ u
        | inr (inr u) ↦ absurd (let v = sym u ∙ o.turn a a ∙ ap opposite u in cc)
      ]

      -- Equal data may stand in any order in a tree with duplicates.
      pub eq-Before : (d : Bool) (a b : A) → d ≡ true → compared a b ≡ Ordering.eq → Before d b a
      eq-Before true a b t e = λ g. eq≢gt (sym (o.turn a b ∙ ap opposite e) ∙ g)
      eq-Before false a b t e = absurd (cc)

      pub Before-chain : (d : Bool) (a b c : A) → Before d a b → Before d b c → Before d a c
      Before-chain true a b c p q = o.chain a b c p q
      Before-chain false a b c p q = lt_chain a b c p (lt-AtMost b c q)

      -- The data on the side that a search does not take.
      pub below-differ :
          (d : Bool) (y key : A) (xs : List A)
          → compared y key ≡ Ordering.lt
          → All (λ x. Before d x y) xs
          → All (λ x. compared x key ≢ Ordering.eq) xs
      below-differ d y key xs e =
          All-imp _ _ (λ x p q. eq≢lt (sym q ∙ chain_lt x y key (Before-AtMost d x y p) e)) xs

      pub above-differ :
          (d : Bool) (y key : A) (ys : List A)
          → compared y key ≡ Ordering.gt
          → All (Before d y) ys
          → All (λ x. compared x key ≢ Ordering.eq) ys
      above-differ d y key ys e =
          All-imp _ _
            (λ x p q.
              eq≢gt
                (sym q ∙ lt-gt key x (lt_chain key y x (gt-lt y key e) (Before-AtMost d y x p))))
            ys
