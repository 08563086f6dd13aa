-- ===== src/Tree/Insert.antt =====
-- `insert_node` and `mxf_tree_insert` of mxf/mxf_tree.c.
use Prim.Native.Nat.{Ordering}
use ebu_libmxf.Base.{
  ℕ, ◌≡◌, ◌≢◌, refl, sym, ap, ◌∙◌, subst, ◌⊎◌, inl, inr, Bool, true, false, some, List, [], ◌∷◌,
  ◌++◌, append_assoc, arith, Bool-cases,
}
use ebu_libmxf.Base.Int.{ℤ}
use ebu_libmxf.Tree.Defs.{
  TreeNode, MxfTree, null, node, and_then, way_back, insert_node, tree_insert,
}
use ebu_libmxf.Tree.Balance.{in_order, IsBalanced}
use ebu_libmxf.Tree.Join.{balance-Joined}
use ebu_libmxf.Tree.Order.{
  All, IsSorted, All-append, All-split, Around, IsSorted-Around, Around-IsSorted, compared, IsOrder,
  Before, Ordering-cases, lt-Before, gt-lt, Before-chain, eq-Before, below-differ, above-differ,
}

module _ {A : Type 0} where
  -- `ys` is `xs` with `x` at one place.
  abbrev pub Put : A → List A → List A → Type 0
  Put x xs ys =
      (front : List A) × (back : List A) × (xs ≡ front ++ back) × (ys ≡ front ++ (x ∷ back))

  pub Put-left : (x : A) (xs xs' ys : List A) → Put x xs xs' → Put x (xs ++ ys) (xs' ++ ys)
  Put-left x xs xs' ys (f, b, e, e') = (
    f,
    b ++ ys,
    ap (λ v. v ++ ys) e ∙ append_assoc f b ys,
    ap (λ v. v ++ ys) e' ∙ append_assoc f (x ∷ b) ys,
  )

  pub Put-right : (x : A) (xs ys ys' : List A) → Put x ys ys' → Put x (xs ++ ys) (xs ++ ys')
  Put-right x xs ys ys' (f, b, e, e') = (
    xs ++ f,
    b,
    ap (λ v. xs ++ v) e ∙ sym (append_assoc xs f b),
    ap (λ v. xs ++ v) e' ∙ sym (append_assoc xs f (x ∷ b)),
  )

  pub Put-All : (P : A → Type 0) (x : A) (xs ys : List A) → Put x xs ys → P x → All P xs → All P ys
  Put-All P x xs ys (f, b, e, e') p a =
      let (af, ab) = All-split P f b (subst (All P) e a) in
      subst (All P) (sym e') (All-append P f (x ∷ b) af (p, ab))

  module _ (compare_f : A → A → ℤ) where
    abbrev pub IsValidNode : Bool → TreeNode A → Type 0
    IsValidNode d t = IsBalanced t × IsSorted (Before compare_f d) (in_order t)

    abbrev pub Differ : A → List A → Type 0
    Differ x xs = All (λ y. compared compare_f y x ≢ Ordering.eq) xs

    abbrev pub Holds : A → List A → Type 0
    Holds x xs =
        (y : A) × (compared compare_f y x ≡ Ordering.eq)
        × (front : List A) × (back : List A) × (xs ≡ front ++ (y ∷ back))

    -- With the status 1 the datum is in the tree, at one more place; with the status 0 the tree is
    -- as it was, and has one that is equal to it.
    abbrev pub Change : Bool → A → TreeNode A → Bool → TreeNode A → Type 0
    Change d x t true t' = Put x (in_order t) (in_order t') × ((d ≡ true) ⊎ Differ x (in_order t))
    Change d x t false t' = (t' ≡ t) × (d ≡ false) × Holds x (in_order t)

    abbrev pub Outcome : Bool → TreeNode A → A → Type 0
    Outcome d t x =
        (s : Bool) × (t' : TreeNode A) × (insert_node compare_f d t x ≡ some (s, t'))
        × IsValidNode d t'
        × Change d x t s t'

    module _ (o : IsOrder compare_f) (d : Bool) (x : A) where
      abbrev R : A → A → Type 0
      R = Before compare_f d

      -- The node whose subtree has been inserted into.
      module _ (l : TreeNode A) (h : ℕ) (y : A) (r : TreeNode A)
          (v : IsValidNode d (node l h y r)) where
        abbrev around : Around R (in_order l) y (in_order r)
        around = IsSorted-Around R (in_order l) y (in_order r) v.1

        fresh_right :
            compared compare_f y x ≡ Ordering.lt
            → (d ≡ true) ⊎ Differ x (in_order r)
            → (d ≡ true) ⊎ Differ x (in_order (node l h y r))
        fresh_right e (inl t) = inl t
        fresh_right e (inr a) = inr (
            All-append _ (in_order l) (y ∷ in_order r)
              (below-differ compare_f o d y x (in_order l) e around.below) ((λ q. cc), a))

        fresh_left :
            (d ≡ true) ⊎ (compared compare_f y x ≡ Ordering.gt)
            → (d ≡ true) ⊎ Differ x (in_order l)
            → (d ≡ true) ⊎ Differ x (in_order (node l h y r))
        fresh_left (inl t) a = inl t
        fresh_left (inr e) (inl t) = inl t
        fresh_left (inr e) (inr a) = inr (
            All-append _ (in_order l) (y ∷ in_order r) a
              ((λ q. cc), above-differ compare_f o d y x (in_order r) e around.above))

        insert_right :
            insert_node compare_f d (node l h y r) x
              ≡ and_then (insert_node compare_f d r x) (way_back (λ r'. node l h y r'))
            → compared compare_f y x ≡ Ordering.lt
            → Outcome d r x
            → Outcome d (node l h y r) x
        insert_right e b (false, r', er, vr, (same, nd, (z, eq, f, k, ef))) = (
          false,
          node l h y r',
          e ∙ rw er refl,
          subst (λ t. IsValidNode d (node l h y t)) (sym same) v,
          (
            ap (λ t. node l h y t) same,
            nd,
            (
              z,
              eq,
              in_order l ++ (y ∷ f),
              k,
              ap (λ t. in_order l ++ (y ∷ t)) ef ∙ sym (append_assoc (in_order l) (y ∷ f) (z ∷ k)),
            ),
          ),
        )
        insert_right e b (true, r', er, vr, (put, fresh)) =
            let (t, g, j) = balance-Joined l h y r' v.0.0 vr.0 in
            (
              true,
              t,
              e ∙ rw (er, g) refl,
              (
                j.balanced,
                subst (IsSorted R) (sym j.ordered) (
                    Around-IsSorted R (Before-chain compare_f o d) (in_order l) y (in_order r')
                      (record {
                        front = around.front;
                        below = around.below;
                        above =
                            Put-All (R y) x (in_order r) (in_order r') put
                              (lt-Before compare_f o d y x b) around.above;
                        back = vr.1;
                      })),
              ),
              (
                subst (Put x (in_order (node l h y r))) (sym j.ordered) (
                    Put-right x (in_order l) (y ∷ in_order r) (y ∷ in_order r')
                      (Put-right x (y ∷ []) (in_order r) (in_order r') put)),
                fresh_right b fresh,
              ),
            )

        insert_left :
            insert_node compare_f d (node l h y r) x
              ≡ and_then (insert_node compare_f d l x) (way_back (λ l'. node l' h y r))
            → R x y
            → (d ≡ true) ⊎ (compared compare_f y x ≡ Ordering.gt)
            → Outcome d l x
            → Outcome d (node l h y r) x
        insert_left e b c (false, l', el, vl, (same, nd, (z, eq, f, k, ef))) = (
          false,
          node l' h y r,
          e ∙ rw el refl,
          subst (λ t. IsValidNode d (node t h y r)) (sym same) v,
          (
            ap (λ t. node t h y r) same,
            nd,
            (
              z,
              eq,
              f,
              k ++ (y ∷ in_order r),
              ap (λ t. t ++ (y ∷ in_order r)) ef ∙ append_assoc f (z ∷ k) (y ∷ in_order r),
            ),
          ),
        )
        insert_left e b c (true, l', el, vl, (put, fresh)) =
            let (t, g, j) = balance-Joined l' h y r vl.0 v.0.1 in
            (
              true,
              t,
              e ∙ rw (el, g) refl,
              (
                j.balanced,
                subst (IsSorted R) (sym j.ordered) (
                    Around-IsSorted R (Before-chain compare_f o d) (in_order l') y (in_order r)
                      (record {
                        front = vl.1;
                        below =
                            Put-All (λ a. R a y) x (in_order l) (in_order l') put b around.below;
                        above = around.above;
                        back = around.back;
                      })),
              ),
              (
                subst (Put x (in_order (node l h y r))) (sym j.ordered)
                    (Put-left x (in_order l) (in_order l') (y ∷ in_order r) put),
                fresh_left c fresh,
              ),
            )

      insert_node-Outcome : (t : TreeNode A) → IsValidNode d t → Outcome d t x
      unfolding insert_node
      insert_node-Outcome null v = (
        true,
        node null 0 x null,
        refl,
        ((tt, tt, inr (refl, refl, refl), omega arith, omega arith), (tt, tt)),
        (([], [], refl, refl), inr tt),
      )
      insert_node-Outcome (node l h y r) v =
          let a = IsSorted-Around R (in_order l) y (in_order r) v.1 in
          let right = insert_node-Outcome r (v.0.1, a.back) in
          let left = insert_node-Outcome l (v.0.0, a.front) in
          elim (Ordering-cases (compared compare_f y x)) [
            | inl u ↦ insert_right l h y r v (rw (u, insert_node) refl) u right
            | inr (inr u) ↦
                insert_left l h y r v (rw (u, insert_node) refl)
                  (lt-Before compare_f o d x y (gt-lt compare_f o y x u)) (inr u) left
            | inr (inl u) ↦ elim (Bool-cases d) [
              | inl dup ↦
                  insert_left l h y r v (rw (u, dup, insert_node) refl)
                    (eq-Before compare_f o d y x dup u) (inl dup) left
              | inr dup ↦ (
                false,
                node l h y r,
                rw (u, dup, insert_node) refl,
                v,
                (refl, dup, (y, u, in_order l, in_order r, refl)),
              )
            ]
          ]

    abbrev pub IsValid : MxfTree A → Type 0
    IsValid tree = IsValidNode tree.allow_duplicates tree.root

    -- With an order that is total and transitive, an insertion into a valid tree returns, and the
    -- tree stays valid. With the status 1 the datum is at one place among the others, and these
    -- hold none that is equal to it unless duplicates are allowed; with the status 0 the nodes are
    -- as they were, duplicates are not allowed and a datum is equal to it.
    pub tree_insert_lem :
        (o : IsOrder compare_f) (tree : MxfTree A) (x : A)
        → IsValid tree
        → (s : Bool) × (tree' : MxfTree A) × (tree_insert compare_f tree x ≡ some (s, tree'))
          × IsValid tree'
          × Change tree.allow_duplicates x tree.root s tree'.root
    unfolding tree_insert
    tree_insert_lem o tree x v =
        let (s, t, e, v', c) = insert_node-Outcome o tree.allow_duplicates x tree.root v in
        (s, record tree { root = t }, rw e refl, v', c)
