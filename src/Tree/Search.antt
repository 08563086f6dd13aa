-- ===== src/Tree/Search.antt =====
-- `mxf_tree_find` and `mxf_tree_traverse` of mxf/mxf_tree.c.
use Prim.Native.Nat.{Ordering}
use ebu_libmxf.Base.{
  ◌≡◌, ◌≢◌, refl, sym, ap, ◌∙◌, subst, inl, inr, Bool, true, false, Option, none, some, List, [],
  ◌∷◌, ◌++◌, append_assoc,
}
use ebu_libmxf.Base.Int.{ℤ}
use ebu_libmxf.Tree.Defs.{
  TreeNode, MxfTree, null, node, find_node, tree_insert, tree_find, if_so, traverse_node,
  tree_traverse,
}
use ebu_libmxf.Tree.Balance.{in_order}
use ebu_libmxf.Tree.Order.{
  All-append, All-split, IsSorted, IsSorted-Around, compared, IsOrder, Before, Ordering-cases,
  below-differ, above-differ, self-eq,
}
use ebu_libmxf.Tree.Insert.{Differ, Change, IsValid, tree_insert_lem}

module _ {A : Type 0} (compare_f : A → A → ℤ) where
  -- The answer of a search among `xs`.
  abbrev pub Found : A → List A → Option A → Type 0
  Found key xs none = Differ compare_f key xs
  Found key xs (some y) =
      (compared compare_f y key ≡ Ordering.eq)
      × (front : List A) × (back : List A) × (xs ≡ front ++ (y ∷ back))

  Found-right :
      (key : A) (xs : List A) (y : A) (ys : List A) (r : Option A)
      → Differ compare_f key xs
      → compared compare_f y key ≢ Ordering.eq
      → Found key ys r
      → Found key (xs ++ (y ∷ ys)) r
  Found-right key xs y ys none a n f = All-append _ xs (y ∷ ys) a (n, f)
  Found-right key xs y ys (some z) a n (e, f, b, i) =
      (e, xs ++ (y ∷ f), b, ap (λ v. xs ++ (y ∷ v)) i ∙ sym (append_assoc xs (y ∷ f) (z ∷ b)))

  Found-left :
      (key : A) (xs : List A) (y : A) (ys : List A) (r : Option A)
      → Differ compare_f key ys
      → compared compare_f y key ≢ Ordering.eq
      → Found key xs r
      → Found key (xs ++ (y ∷ ys)) r
  Found-left key xs y ys none a n f = All-append _ xs (y ∷ ys) f (n, a)
  Found-left key xs y ys (some z) a n (e, f, b, i) =
      (e, f, b ++ (y ∷ ys), ap (λ v. v ++ (y ∷ ys)) i ∙ append_assoc f (z ∷ b) (y ∷ ys))

  module _ (o : IsOrder compare_f) (d : Bool) (key : A) where
    find_node-Found :
        (t : TreeNode A)
        → IsSorted (Before compare_f d) (in_order t)
        → Found key (in_order t) (find_node compare_f t key)
    unfolding find_node
    find_node-Found null s = tt
    find_node-Found (node l h y r) s =
        let a = IsSorted-Around (Before compare_f d) (in_order l) y (in_order r) s in
        elim (Ordering-cases (compared compare_f y key)) [
          | inl u ↦
              rw (u, find_node)
                (Found-right key (in_order l) y (in_order r) _
                  (below-differ compare_f o d y key (in_order l) u a.below) (λ q. cc)
                  (find_node-Found r a.back))
          | inr (inr u) ↦
              rw (u, find_node)
                (Found-left key (in_order l) y (in_order r) _
                  (above-differ compare_f o d y key (in_order r) u a.above) (λ q. cc)
                  (find_node-Found l a.front))
          | inr (inl u) ↦ rw (u, find_node) (u, in_order l, in_order r, refl)
        ]

  -- With an order that is total and transitive, a search in a valid tree answers a datum of the
  -- tree that is equal to the key, or answers NULL and no datum of the tree is equal to the key.
  pub tree_find_lem :
      (o : IsOrder compare_f) (tree : MxfTree A) (key : A)
      → IsValid compare_f tree
      → Found key (in_order tree.root) (tree_find compare_f tree key)
  unfolding tree_find
  tree_find_lem o tree key v = find_node-Found o tree.allow_duplicates key tree.root v.1

  present :
      (o : IsOrder compare_f) (d : Bool) (x : A) (t : TreeNode A) (s : Bool) (t' : TreeNode A)
      → Change compare_f d x t s t'
      → ¬ Differ compare_f x (in_order t')
  present o d x t true t' ((f, b, e, e'), fresh) a =
      (All-split _ f (x ∷ b) (subst (Differ compare_f x) e' a)).1.0 (self-eq compare_f o x)
  present o d x t false t' (same, nd, (y, e, f, b, i)) a =
      (All-split _ f (y ∷ b) (subst (Differ compare_f x) (ap in_order same ∙ i) a)).1.0 e

  Found-some :
      (key : A) (xs : List A) (r : Option A)
      → Found key xs r
      → ¬ Differ compare_f key xs
      → (y : A) × (r ≡ some y) × (compared compare_f y key ≡ Ordering.eq)
  Found-some key xs none f n = absurd (n f)
  Found-some key xs (some y) f n = (y, refl, f.0)

  -- With an order that is total and transitive, an insertion into a valid tree returns, and then a
  -- search for the datum answers one that is equal to it, whatever the status of the insertion.
  pub tree_find-tree_insert :
      (o : IsOrder compare_f) (tree : MxfTree A) (x : A)
      → IsValid compare_f tree
      → (s : Bool) × (tree' : MxfTree A) × (y : A) × (tree_insert compare_f tree x
          ≡ some (s, tree'))
        × (tree_find compare_f tree' x ≡ some y)
        × (compared compare_f y x ≡ Ordering.eq)
  tree_find-tree_insert o tree x v =
      let (s, tree', e, v', c) = tree_insert_lem compare_f o tree x v in
      let (y, f, q) =
        Found-some x (in_order tree'.root) _ (tree_find_lem o tree' x v')
          (present o tree.allow_duplicates x tree.root s tree'.root c) in
      (s, tree', y, e, f, q)

module _ {A D : Type 0} (process_f : A → D → Bool × D) where
  -- The data in the order of the visits: a node before its left and its right tree.
  abbrev pub pre_order : TreeNode A → List A
  pre_order null = []
  pre_order (node l h x r) = x ∷ (pre_order l ++ pre_order r)

  -- Each in turn, up to the first that answers 0.
  abbrev pub process_all : List A → D → Bool × D
  process_all [] d = (true, d)
  process_all (x ∷ xs) d = elim (process_f x d).0 [
    | true ↦ process_all xs (process_f x d).1
    | false ↦ (false, (process_f x d).1)
  ]

  if_so-cong :
      (s : Bool × D) (f g : D → Bool × D)
      → ((d : D) → f d ≡ g d)
      → if_so process_f s f ≡ if_so process_f s g
  if_so-cong (true, d) f g e = e d
  if_so-cong (false, d) f g e = refl

  if_so_assoc :
      (s : Bool × D) (f g : D → Bool × D)
      → if_so process_f (if_so process_f s f) g ≡ if_so process_f s (λ d. if_so process_f (f d) g)
  if_so_assoc (true, d) f g = refl
  if_so_assoc (false, d) f g = refl

  -- The loop goes on with what the node has left.
  process_all-cons :
      (x : A) (xs : List A) (d : D)
      → process_all (x ∷ xs) d ≡ if_so process_f (process_f x d) (process_all xs)
  process_all-cons x xs d = go (process_f x d)
    where
      go :
          (r : Bool × D)
          → ◌≡◌ {A = Bool × D}
              (elim r.0 [ true ↦ process_all xs r.1 | false ↦ (false, r.1) ])
              (if_so process_f r (process_all xs))
      go (true, d') = refl
      go (false, d') = refl

  process_all-append :
      (xs ys : List A) (d : D)
      → process_all (xs ++ ys) d ≡ if_so process_f (process_all xs d) (process_all ys)
  process_all-append [] ys d = refl
  process_all-append (x ∷ xs) ys d =
      process_all-cons x (xs ++ ys) d
      ∙ if_so-cong (process_f x d) _ _ (process_all-append xs ys)
      ∙ sym (if_so_assoc (process_f x d) (process_all xs) (process_all ys))
      ∙ ap (λ s. if_so process_f s (process_all ys)) (sym (process_all-cons x xs d))

  traverse_node-pre_order :
      (t : TreeNode A) (d : D) → traverse_node process_f t d ≡ process_all (pre_order t) d
  unfolding traverse_node
  traverse_node-pre_order null d = refl
  traverse_node-pre_order (node l h x r) d =
      if_so_assoc (process_f x d) (traverse_node process_f l) (traverse_node process_f r)
      ∙ if_so-cong (process_f x d) _ _ (λ d.
        ap (λ s. if_so process_f s (traverse_node process_f r)) (traverse_node-pre_order l d)
        ∙ if_so-cong (process_all (pre_order l) d) _ _ (traverse_node-pre_order r)
        ∙ sym (process_all-append (pre_order l) (pre_order r) d))
      ∙ sym (process_all-cons x (pre_order l ++ pre_order r) d)

  -- A traversal processes the data in turn, each node before its left tree and that before its
  -- right tree, up to the first that `process_f` answers 0 for.
  pub tree_traverse-pre_order :
      (tree : MxfTree A) (d : D)
      → tree_traverse process_f tree d ≡ process_all (pre_order tree.root) d
  unfolding tree_traverse
  tree_traverse-pre_order tree d = traverse_node-pre_order tree.root d
