-- ===== src/Tree/Rotate.antt =====
-- The rotations of `balance_tree` of mxf/mxf_tree.c to the left, on balanced trees.
use ebu_libmxf.Base.{ℕ, suc, ◌≤◌, ◌<◌, max, ◌≡◌, refl, arith}
use ebu_libmxf.Tree.Defs.{TreeNode, node, height}
use ebu_libmxf.Tree.Balance.{
  IsBalanced, Balances, near-Gives, once-Gives, twice-Gives, made, made-IsBalanced, made-Joined,
  chain-Joined, turned,
}

module _ {A : Type 0} where
  -- The right tree is the higher one, and its outer child is not lower than the inner one.
  pub once-Balances :
      (n : ℕ) (l : TreeNode A) (h : ℕ) (x : A) (rl : TreeNode A) (rh : ℕ) (rx : A) (rr : TreeNode A)
      (b : Balances (suc n) l h x rl)
      → IsBalanced rr
      → suc (height l) < rh
      → height rl ≤ height rr
      → rh ≡ suc (height rr)
      → height rr ≤ suc (height b.0)
      → Balances (suc (suc n)) l h x (node rl rh rx rr)
  once-Balances n l h x rl rh rx rr (l', g, j) brr p q e near =
      let high = j.high in
      (
        made l' rx rr,
        once-Gives (suc n) l h x rl rh rx rr l' _ p q g
            (near-Gives n l' rh rx rr (omega arith) near),
        chain-Joined l x (node rl rh rx rr) rl rh rx rr l' _ refl j
            (made-Joined l' rx rr j.balanced brr (omega arith) near) (omega arith) (omega arith),
      )

  -- The inner child `node a ah ax b` is the higher one, and its own inner child is not.
  pub twice-Balances :
      (n : ℕ) (l : TreeNode A) (h : ℕ) (x : A) (a : TreeNode A) (ah : ℕ) (ax : A) (b : TreeNode A)
      (rh : ℕ) (rx : A) (rr : TreeNode A) (j : Balances (suc n) l h x a)
      → IsBalanced b
      → IsBalanced rr
      → suc (height l) < rh
      → rh ≡ suc ah
      → ah ≡ suc (height rr)
      → height a ≡ height rr
      → height b ≤ height rr
      → height rr ≤ suc (height b)
      → Balances (suc (suc n)) l h x (node (node a ah ax b) rh rx rr)
  twice-Balances n l h x a ah ax b rh rx rr (l', g, j) bb brr p eh ea e q₁ q₂ =
      let b' = made b rx rr in
      let low = j.low in
      let high = j.high in
      let bb' = made-IsBalanced b rx rr bb brr (omega arith) q₂ in
      (
        made l' ax b',
        twice-Gives (suc n) l h x a ah ax b rh rx rr b' a _ ax b' l' _ p (omega arith)
            (near-Gives n b rh rx rr (omega arith) q₂)
            (near-Gives n a ah ax b' (omega arith) (omega arith)) g
            (near-Gives n l' _ ax b' (omega arith) (omega arith)),
        chain-Joined l x (node (node a ah ax b) rh rx rr) a rh ax b' l' _
            (turned a ah ax b rh rx rr rh) j
            (made-Joined l' ax b' j.balanced bb' (omega arith) (omega arith)) (omega arith)
            (omega arith),
      )

  -- The inner child of the inner child is higher too: the first rotation is taken back, and the left
  -- tree of the result is that of the left tree with the whole inner child.
  pub back-Balances :
      (n : ℕ) (l : TreeNode A) (h : ℕ) (x : A) (a : TreeNode A) (ah : ℕ) (ax : A) (b : TreeNode A)
      (rh : ℕ) (rx : A) (rr : TreeNode A) (j : Balances (suc (suc n)) l h x (made a ax b))
      (k : Balances
        (suc (suc n))
        j.0
        (suc (max (suc (max (height a) (height b))) (height rr)))
        rx
        rr)
      → suc (height l) < rh
      → rh ≡ suc ah
      → ah ≡ suc (height rr)
      → height b ≡ height rr
      → suc (height a) ≡ height b
      → rh ≤ height k.0
      → height k.0 ≤ suc rh
      → Balances (suc (suc (suc n))) l h x (node (node a ah ax b) rh rx rr)
  back-Balances n l h x a ah ax b rh rx rr (l', g, j) (t, g', k) p eh ea e e' low high =
      let b' = made b rx rr in
      (
        t,
        twice-Gives (suc (suc n)) l h x a ah ax b rh rx rr b' (made a ax b) _ rx rr l' t p
            (omega arith) (near-Gives (suc n) b rh rx rr (omega arith) (omega arith))
            (once-Gives (suc n) a ah ax b _ rx rr (made a ax b) _ (omega arith) (omega arith)
              (near-Gives n a ah ax b (omega arith) (omega arith))
              (near-Gives n (made a ax b) _ rx rr (omega arith) (omega arith)))
            g g',
        chain-Joined l x (node (node a ah ax b) rh rx rr) (made a ax b) rh rx rr l' t refl j k
            (omega arith) (omega arith),
      )
