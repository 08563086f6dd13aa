-- ===== src/Tree/Remove.antt =====
-- `remove_node` and `mxf_tree_remove` of mxf/mxf_tree.c.
use Prim.Native.Nat.{Ordering}
use ebu_libmxf.Base.{
  ◌≡◌, ◌≢◌, refl, sym, ap, ◌∙◌, subst, inl, inr, Bool, true, false, some, List, [], ◌∷◌, ◌++◌,
  append_assoc,
}
use ebu_libmxf.Base.Int.{ℤ}
use ebu_libmxf.Tree.Defs.{TreeNode, MxfTree, null, node, move_right, remove_node, tree_remove}
use ebu_libmxf.Tree.Balance.{in_order, IsBalanced}
use ebu_libmxf.Tree.Join.{balance-Joined}
use ebu_libmxf.Tree.Order.{
  All, IsSorted, All-append, All-split, IsSorted-Around, compared, IsOrder, Before, Ordering-cases,
  below-differ, above-differ,
}
use ebu_libmxf.Tree.Insert.{Put, Put-left, Put-right, Differ, IsValidNode, IsValid}

module _ {A : Type 0} where
  move_right-Joins :
      (l r : TreeNode A)
      → IsBalanced l
      → IsBalanced r
      → (t : TreeNode A) × (move_right l r ≡ some t)
        × IsBalanced t
        × (in_order t ≡ in_order l ++ in_order r)
  unfolding move_right
  move_right-Joins null r bl br = (r, refl, br, refl)
  move_right-Joins (node l h x m) r bl br =
      let (t', e', b', i') = move_right-Joins m r bl.1 br in
      let (t, g, j) = balance-Joined l h x t' bl.0 b' in
      (
        t,
        rw e' g,
        j.balanced,
        j.ordered
            ∙ ap (λ v. in_order l ++ (x ∷ v)) i'
            ∙ sym (append_assoc (in_order l) (x ∷ in_order m) (in_order r)),
      )

  IsSorted-without :
      (R : A → A → Type 0) (xs : List A) (y : A) (ys : List A)
      → IsSorted R (xs ++ (y ∷ ys))
      → IsSorted R (xs ++ ys)
  IsSorted-without R [] y ys (a, s) = s
  IsSorted-without R (x ∷ xs) y ys (a, s) =
      let (b, c) = All-split (R x) xs (y ∷ ys) a in
      (All-append (R x) xs ys b c.1, IsSorted-without R xs y ys s)

  module _ (compare_f : A → A → ℤ) where
    -- With the status 1 one datum that is equal to the key has gone; with the status 0 the data are
    -- as they were, and none is equal to the key.
    abbrev pub Less : A → List A → Bool → List A → Type 0
    Less key xs true ys = (y : A) × (compared compare_f y key ≡ Ordering.eq) × Put y ys xs
    Less key xs false ys = (ys ≡ xs) × Differ compare_f key xs

    Less-IsSorted :
        (R : A → A → Type 0) (key : A) (xs : List A) (s : Bool) (ys : List A)
        → Less key xs s ys
        → IsSorted R xs
        → IsSorted R ys
    Less-IsSorted R key xs true ys (y, e, (f, b, e₁, e₂)) s =
        subst (IsSorted R) (sym e₁) (IsSorted-without R f y b (subst (IsSorted R) e₂ s))
    Less-IsSorted R key xs false ys (same, a) s = subst (IsSorted R) (sym same) s

    abbrev Removal : TreeNode A → A → Type 0
    Removal t key =
        (s : Bool) × (t' : TreeNode A) × (remove_node compare_f t key ≡ some (s, t'))
        × IsBalanced t'
        × Less key (in_order t) s (in_order t')

    Less-right :
        (key : A) (xs : List A) (y : A) (ys : List A) (s : Bool) (ys' : List A)
        → All (λ x. compared compare_f x key ≢ Ordering.eq) xs
        → compared compare_f y key ≢ Ordering.eq
        → Less key ys s ys'
        → Less key (xs ++ (y ∷ ys)) s (xs ++ (y ∷ ys'))
    Less-right key xs y ys true ys' a n (z, e, p) =
        (z, e, Put-right z xs (y ∷ ys') (y ∷ ys) (Put-right z (y ∷ []) ys' ys p))
    Less-right key xs y ys false ys' a n (same, b) =
        (ap (λ v. xs ++ (y ∷ v)) same, All-append _ xs (y ∷ ys) a (n, b))

    Less-left :
        (key : A) (xs : List A) (y : A) (ys : List A) (s : Bool) (xs' : List A)
        → All (λ x. compared compare_f x key ≢ Ordering.eq) ys
        → compared compare_f y key ≢ Ordering.eq
        → Less key xs s xs'
        → Less key (xs ++ (y ∷ ys)) s (xs' ++ (y ∷ ys))
    Less-left key xs y ys true xs' a n (z, e, p) = (z, e, Put-left z xs' xs (y ∷ ys) p)
    Less-left key xs y ys false xs' a n (same, b) =
        (ap (λ v. v ++ (y ∷ ys)) same, All-append _ xs (y ∷ ys) b (n, a))

    module _ (o : IsOrder compare_f) (d : Bool) (key : A) where
      remove_node-Removal : (t : TreeNode A) → IsValidNode compare_f d t → Removal t key
      unfolding remove_node
      remove_node-Removal null v = (false, null, refl, tt, (refl, tt))
      remove_node-Removal (node l h y r) v =
          let a = IsSorted-Around (Before compare_f d) (in_order l) y (in_order r) v.1 in
          let (rs, r', er, br, cr) = remove_node-Removal r (v.0.1, a.back) in
          let (ls, l', el, bl, cl) = remove_node-Removal l (v.0.0, a.front) in
          elim (Ordering-cases (compared compare_f y key)) [
            | inl u ↦
                let (t, g, j) = balance-Joined l h y r' v.0.0 br in
                (
                  rs,
                  t,
                  rw (u, remove_node, er, g) refl,
                  j.balanced,
                  subst (Less key (in_order (node l h y r)) rs) (sym j.ordered) (
                      Less-right key (in_order l) y (in_order r) rs (in_order r')
                        (below-differ compare_f o d y key (in_order l) u a.below) (λ q. cc) cr),
                )
            | inr (inr u) ↦
                let (t, g, j) = balance-Joined l' h y r bl v.0.1 in
                (
                  ls,
                  t,
                  rw (u, remove_node, el, g) refl,
                  j.balanced,
                  subst (Less key (in_order (node l h y r)) ls) (sym j.ordered) (
                      Less-left key (in_order l) y (in_order r) ls (in_order l')
                        (above-differ compare_f o d y key (in_order r) u a.above) (λ q. cc) cl),
                )
            | inr (inl u) ↦
                let (t, g, b, i) = move_right-Joins l r v.0.0 v.0.1 in
                (true, t, rw (u, remove_node, g) refl, b, (y, u, (in_order l, in_order r, i, refl)))
          ]

    -- With an order that is total and transitive, a removal from a valid tree returns, and the
    -- tree stays valid. With the status 1 one datum that is equal to the key has gone and the
    -- others are as they were, in order; with the status 0 all data are as they were, and none is
    -- equal to the key.
    pub tree_remove_lem :
        (o : IsOrder compare_f) (tree : MxfTree A) (key : A)
        → IsValid compare_f tree
        → (s : Bool) × (tree' : MxfTree A) × (tree_remove compare_f tree key ≡ some (s, tree'))
          × IsValid compare_f tree'
          × Less key (in_order tree.root) s (in_order tree'.root)
    unfolding tree_remove
    tree_remove_lem o tree key v =
        let (s, t, e, b, c) = remove_node-Removal o tree.allow_duplicates key tree.root v in
        (
          s,
          record tree { root = t },
          rw e refl,
          (
            b,
            Less-IsSorted (Before compare_f tree.allow_duplicates) key (in_order tree.root) s
                (in_order t) c v.1,
          ),
          c,
        )
