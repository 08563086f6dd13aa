-- ===== src/Tree/Mirror.antt =====
-- The rebalancing of mxf/mxf_tree.c treats the two sides alike.
use ebu_libmxf.Base.{
  ℕ, zero, suc, max, ◌≡◌, refl, sym, ap, ◌∙◌, subst, ◌⊎◌, inl, inr, Bool, true, false, Option, none,
  some, [], ◌∷◌, ◌++◌, append_assoc, arith, ltb, le→ltb_false, if◌then◌else◌,
}
use mathlib.Core.List.{reverse, reverse-cons, reverse-append, reverse-reverse}
use ebu_libmxf.Tree.Defs.{
  TreeNode, null, node, height, and_then, rotate_left, rotate_right, turned_left, turned_right,
  balance_tree,
}
use ebu_libmxf.Tree.Balance.{in_order, IsNoted, IsBalanced, Joined, Gives, Balances, le-cases}

module _ {A : Type 0} where
  unfoldable pub mirror : TreeNode A → TreeNode A
  mirror null = null
  mirror (node l h x r) = node (mirror r) h x (mirror l)

  abbrev mirrored : Option (TreeNode A) → Option (TreeNode A)
  mirrored none = none
  mirrored (some t) = some (mirror t)

  pub height-mirror : (t : TreeNode A) → height (mirror t) ≡ height t
  unfolding mirror
  height-mirror null = refl
  height-mirror (node l h x r) = refl

  mirror-mirror : (t : TreeNode A) → mirror (mirror t) ≡ t
  unfolding mirror
  mirror-mirror null = refl
  mirror-mirror (node l h x r) = rw (mirror-mirror l, mirror-mirror r) refl

  pub mirror-IsBalanced : (t : TreeNode A) → IsBalanced t → IsBalanced (mirror t)
  unfolding mirror
  mirror-IsBalanced null b = tt
  mirror-IsBalanced (node l h x r) (bl, br, e, p, q) =
      rw (height-mirror l, height-mirror r)
        (mirror-IsBalanced r br, mirror-IsBalanced l bl, noted e, q, p)
    where
      noted :
          IsNoted l h r
          → (h ≡ suc (max (height r) (height l)))
            ⊎ ((h ≡ 0) × (mirror r ≡ null) × (mirror l ≡ null))
      noted (inl e) = inl (omega arith)
      noted (inr (e, el, er)) = inr (e, ap mirror er, ap mirror el)

  if-mirrored :
      (c : Bool) (u v u' v' : Option (TreeNode A))
      → u ≡ mirrored u'
      → v ≡ mirrored v'
      → (if c then u else v) ≡ mirrored (if c then u' else v')
  if-mirrored true u v u' v' e f = e
  if-mirrored false u v u' v' e f = f

  module _ (b : TreeNode A → Option (TreeNode A)) where
    module _ (alike : (t : TreeNode A) → b (mirror t) ≡ mirrored (b t)) where
      chain-mirrored :
          (o : Option (TreeNode A)) (f g : TreeNode A → Option (TreeNode A))
          → ((t : TreeNode A) → f (mirror t) ≡ mirrored (g t))
          → and_then (mirrored o) f ≡ mirrored (and_then o g)
      chain-mirrored none f g e = refl
      chain-mirrored (some t) f g e = e t

      rotate_left-mirror : (t : TreeNode A) → rotate_left b (mirror t) ≡ mirrored (rotate_right b t)
      unfolding mirror
      rotate_left-mirror null = refl
      rotate_left-mirror (node null h x r) = refl
      rotate_left-mirror (node (node ll lh lx lr) h x r) =
          rw (alike (node lr h x r))
            (chain-mirrored (b (node lr h x r)) _ _ (λ t. alike (node ll lh lx t)))

      rotate_right-mirror :
          (t : TreeNode A) → rotate_right b (mirror t) ≡ mirrored (rotate_left b t)
      unfolding mirror
      rotate_right-mirror null = refl
      rotate_right-mirror (node l h x null) = refl
      rotate_right-mirror (node l h x (node rl rh rx rr)) =
          rw (alike (node l h x rl))
            (chain-mirrored (b (node l h x rl)) _ _ (λ t. alike (node t rh rx rr)))

      turned_left-mirror : (t : TreeNode A) → turned_left b (mirror t) ≡ mirrored (turned_right b t)
      unfolding mirror
      turned_left-mirror null = refl
      turned_left-mirror (node l h x r) =
          rw (height-mirror l, height-mirror r)
            (if-mirrored (ltb (height r) (height l)) _ _ _ _ (rotate_left-mirror (node l h x r))
              refl)

      turned_right-mirror :
          (t : TreeNode A) → turned_right b (mirror t) ≡ mirrored (turned_left b t)
      unfolding mirror
      turned_right-mirror null = refl
      turned_right-mirror (node l h x r) =
          rw (height-mirror l, height-mirror r)
            (if-mirrored (ltb (height l) (height r)) _ _ _ _ (rotate_right-mirror (node l h x r))
              refl)

      leftwards-mirror :
          (l : TreeNode A) (h : ℕ) (x : A) (r : TreeNode A)
          → and_then (turned_left b (mirror r)) (λ t. rotate_right b (node t h x (mirror l)))
            ≡ mirrored (and_then (turned_right b r) (λ t. rotate_left b (node l h x t)))
      unfolding mirror
      leftwards-mirror l h x r =
          rw (turned_left-mirror r)
            (chain-mirrored (turned_right b r) _ _ (λ t. rotate_right-mirror (node l h x t)))

      rightwards-mirror :
          (l : TreeNode A) (h : ℕ) (x : A) (r : TreeNode A)
          → and_then (turned_right b (mirror l)) (λ t. rotate_left b (node (mirror r) h x t))
            ≡ mirrored (and_then (turned_left b l) (λ t. rotate_right b (node t h x r)))
      unfolding mirror
      rightwards-mirror l h x r =
          rw (turned_right-mirror l)
            (chain-mirrored (turned_left b l) _ _ (λ t. rotate_left-mirror (node t h x r)))

  made-mirror :
      (l : TreeNode A) (x : A) (r : TreeNode A)
      → some (node (mirror r) (suc (max (height r) (height l))) x (mirror l))
        ≡ mirrored (some (node l (suc (max (height l) (height r))) x r))
  unfolding mirror
  made-mirror l x r = ap (λ k. some (node (mirror r) k x (mirror l))) (omega arith)

  balance_tree-mirror :
      (n : ℕ) (t : TreeNode A) → balance_tree n (mirror t) ≡ mirrored (balance_tree n t)
  unfolding balance_tree mirror
  balance_tree-mirror zero t = refl
  balance_tree-mirror (suc n) null = refl
  balance_tree-mirror (suc n) (node l h x r) =
      rw (height-mirror l, height-mirror r)
        (elim (le-cases (height l) (height r)) [
          | inl p ↦ rw (le→ltb_false (suc (height r)) (height l) (omega arith)) (
              if-mirrored (ltb (suc (height l)) (height r)) _ _ _ _
                (leftwards-mirror (balance_tree n) (balance_tree-mirror n) l h x r)
                (made-mirror l x r))
          | inr p ↦ rw (le→ltb_false (suc (height l)) (height r) (omega arith)) (
              if-mirrored (ltb (suc (height r)) (height l)) _ _ _ _
                (rightwards-mirror (balance_tree n) (balance_tree-mirror n) l h x r)
                (made-mirror l x r))
        ])

  in_order-mirror : (t : TreeNode A) → in_order (mirror t) ≡ reverse (in_order t)
  unfolding mirror
  in_order-mirror null = refl
  in_order-mirror (node l h x r) =
      rw
        (
          in_order-mirror l,
          in_order-mirror r,
          reverse-append (in_order l) (x ∷ in_order r),
          reverse-cons x (in_order r),
        )
        (sym (append_assoc (reverse (in_order r)) (x ∷ []) (reverse (in_order l))))

  mirror-Joined :
      (l : TreeNode A) (x : A) (r t : TreeNode A)
      → Joined (mirror r) x (mirror l) t
      → Joined l x r (mirror t)
  unfolding mirror
  mirror-Joined l x r t j = record {
    balanced = mirror-IsBalanced t j.balanced;
    ordered =
        in_order-mirror t
        ∙ ap reverse (j.ordered ∙ in_order-mirror (node l 0 x r))
        ∙ reverse-reverse (in_order l ++ (x ∷ in_order r));
    low = omega (arith, j.low, height-mirror l, height-mirror r, height-mirror t);
    high = omega (arith, j.high, height-mirror l, height-mirror r, height-mirror t);
  }

  pub mirror-Balances :
      (n : ℕ) (l : TreeNode A) (h : ℕ) (x : A) (r : TreeNode A)
      → Balances n (mirror r) h x (mirror l)
      → Balances n l h x r
  unfolding mirror
  mirror-Balances n l h x r (t, g, j) = (
    mirror t,
    subst (λ u. Gives n u (mirror t)) (mirror-mirror (node l h x r))
        (balance_tree-mirror n (node (mirror r) h x (mirror l)) ∙ ap mirrored g),
    mirror-Joined l x r t j,
  )
