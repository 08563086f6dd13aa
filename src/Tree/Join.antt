-- ===== src/Tree/Join.antt =====
-- `balance_tree` of mxf/mxf_tree.c on two balanced trees of any heights.
use ebu_libmxf.Base.{
  ℕ, zero, suc, ◌+◌, ◌≤◌, ◌<◌, max, ◌≡◌, subst, inl, inr, some, append_assoc, arith,
}
use ebu_libmxf.Tree.Defs.{TreeNode, null, node, height, balance}
use ebu_libmxf.Tree.Balance.{
  IsBalanced, Joined, Gives, Balances, le-cases, near-Gives, near-Balances, made, made-IsBalanced,
  made-Joined, noted-IsMax, twice_back-Gives,
}
use ebu_libmxf.Tree.Rotate.{once-Balances, twice-Balances, back-Balances}
use ebu_libmxf.Tree.Mirror.{mirror, height-mirror, mirror-IsBalanced, mirror-Balances}

module _ {A : Type 0} where
  -- What is left to do after the first rotation has been taken back.
  taken_back :
      (n : ℕ) (l : TreeNode A) (h : ℕ) (x : A) (a : TreeNode A) (ax : A) (b : TreeNode A) (rx : A)
      (rr : TreeNode A)
      → IsBalanced l
      → IsBalanced a
      → IsBalanced b
      → IsBalanced rr
      → height l ≡ height rr
      → height b ≡ height rr
      → suc (height a) ≡ height rr
      → Gives
          (suc (suc n))
          (node (made l x (made a ax b)) h rx rr)
          (made (made l x a) ax (made b rx rr))
        × Joined (made l x (made a ax b)) rx rr (made (made l x a) ax (made b rx rr))
  taken_back n l h x a ax b rx rr bl ba bb brr e e₁ e₂ = (
    twice_back-Gives (suc n) l _ x a _ ax b h rx rr (made l x a) (made l x a) _ ax b (made b rx rr)
        _ (omega arith) (omega arith) (near-Gives n l _ x a (omega arith) (omega arith))
        (near-Gives n (made l x a) _ ax b (omega arith) (omega arith))
        (near-Gives n b h rx rr (omega arith) (omega arith))
        (near-Gives n (made l x a) _ ax (made b rx rr) (omega arith) (omega arith)),
    record {
      balanced =
          made-IsBalanced (made l x a) ax (made b rx rr)
            (made-IsBalanced l x a bl ba (omega arith) (omega arith))
            (made-IsBalanced b rx rr bb brr (omega arith) (omega arith)) (omega arith)
            (omega arith);
      ordered = simp append_assoc;
      low = omega arith;
      high = omega arith;
    },
  )

  -- A right tree that is higher by two.
  two-Balances :
      (n : ℕ) (l : TreeNode A) (h : ℕ) (x : A) (r : TreeNode A)
      → IsBalanced l
      → IsBalanced r
      → height r ≡ height l + 2
      → Balances (suc (suc (suc n))) l h x r
  two-Balances n l h x null bl br e = absurd (omega arith)
  two-Balances n l h x (node rl rh rx rr) bl (brl, brr, nr, p, q) e =
      let top = noted-IsMax rl rh rr nr (omega arith) in
      elim (le-cases (height rl) (height rr)) [
        | inl c ↦
            once-Balances (suc n) l h x rl rh rx rr
              (
                made l x rl,
                near-Gives (suc n) l h x rl (omega arith) (omega arith),
                made-Joined l x rl bl brl (omega arith) (omega arith),
              )
              brr (omega arith) c (omega arith) (omega arith)
        | inr c ↦ inner rl brl top c p
      ]
    where
      inner :
          (rl : TreeNode A)
          → IsBalanced rl
          → rh ≡ suc (max (height rl) (height rr))
          → height rr < height rl
          → height rl ≤ suc (height rr)
          → Balances (suc (suc (suc n))) l h x (node rl rh rx rr)
      inner null b top c p = absurd (omega arith)
      inner (node a ah ax b) (ba, bb, na, pa, qa) top c p =
          let top' = noted-IsMax a ah b na (omega arith) in
          elim (le-cases (height b) (height a)) [
            | inl d ↦
                twice-Balances (suc n) l h x a ah ax b rh rx rr
                  (near-Balances (suc n) l h x a bl ba (omega arith) (omega arith)) bb brr
                  (omega arith) (omega arith) (omega arith) (omega arith) (omega arith)
                  (omega arith)
            | inr d ↦
                let back =
                  taken_back n l _ x a ax b rx rr bl ba bb brr (omega arith) (omega arith)
                    (omega arith) in
                back-Balances n l h x a ah ax b rh rx rr
                  (
                    made l x (made a ax b),
                    near-Gives (suc n) l h x (made a ax b) (omega arith) (omega arith),
                    made-Joined l x (made a ax b) bl
                        (made-IsBalanced a ax b ba bb (omega arith) (omega arith)) (omega arith)
                        (omega arith),
                  )
                  (_, back.0, back.1) (omega arith) (omega arith) (omega arith) (omega arith)
                  (omega arith) (omega arith) (omega arith)
          ]

  -- The left tree with the whole inner child, and the rest of the right tree, which is lower by one
  -- or by two.
  lower_right :
      (n : ℕ) (l : TreeNode A) (h : ℕ) (x : A) (r : TreeNode A)
      → IsBalanced l
      → IsBalanced r
      → suc (height r) ≤ height l
      → height l ≤ height r + 2
      → (k : Balances (suc (suc (suc (suc n)))) l h x r) × (suc (height r) < height k.0)
        × (height l ≤ height k.0)
        × (height k.0 ≤ suc (max (height l) (suc (suc (height r)))))
  lower_right n l h x r bl br p q = elim (le-cases (height l) (suc (height r))) [
    | inl c ↦ (
      (
        made l x r,
        near-Gives (suc (suc (suc n))) l h x r c (omega arith),
        made-Joined l x r bl br c (omega arith),
      ),
      omega arith,
      omega arith,
      omega arith,
    )
    | inr c ↦
        let k = mirror-Balances (suc (suc (suc (suc n)))) l h x r (
          two-Balances (suc n) (mirror r) h x (mirror l) (mirror-IsBalanced r br)
            (mirror-IsBalanced l bl) (omega (arith, height-mirror l, height-mirror r))) in
        let low = k.2.low in let high = k.2.high in (k, omega arith, omega arith, omega arith)
  ]

  higher_right :
      (n : ℕ) (l : TreeNode A)
      → ((h : ℕ) (x : A) (r : TreeNode A)
          → IsBalanced r
          → height l + height r ≤ n
          → Balances (suc (suc (suc (suc n)))) l h x r)
      → (h : ℕ) (x : A) (r : TreeNode A) → IsBalanced r
      → height l + height r ≤ suc n
      → suc (height l) < height r
      → Balances (suc (suc (suc (suc (suc n))))) l h x r
  higher_right n l ih h x null br s u = absurd (omega arith)
  higher_right n l ih h x (node rl rh rx rr) (brl, brr, nr, p, q) s u =
      let top = noted-IsMax rl rh rr nr (omega arith) in
      elim (le-cases (height rl) (height rr)) [
        | inl c ↦
            let k = ih h x rl brl (omega arith) in
            let low = k.2.low in
            once-Balances (suc (suc (suc n))) l h x rl rh rx rr k brr u c (omega arith)
              (omega arith)
        | inr c ↦ inner rl brl top c p
      ]
    where
      inner :
          (rl : TreeNode A)
          → IsBalanced rl
          → rh ≡ suc (max (height rl) (height rr))
          → height rr < height rl
          → height rl ≤ suc (height rr)
          → Balances (suc (suc (suc (suc (suc n))))) l h x (node rl rh rx rr)
      inner null b top c p = absurd (omega arith)
      inner (node a ah ax b) (ba, bb, na, pa, qa) top c p =
          let top' = noted-IsMax a ah b na (omega arith) in
          elim (le-cases (height b) (height a)) [
            | inl d ↦
                twice-Balances (suc (suc (suc n))) l h x a ah ax b rh rx rr
                  (ih h x a ba (omega arith)) bb brr u (omega arith) (omega arith) (omega arith)
                  (omega arith) (omega arith)
            | inr d ↦
                let whole = made-IsBalanced a ax b ba bb (omega arith) (omega arith) in
                let j = ih h x (made a ax b) whole (omega arith) in
                let low = j.2.low in
                let high = j.2.high in
                let k = lower_right n j.0 _ rx rr j.2.balanced brr (omega arith) (omega arith) in
                back-Balances (suc (suc n)) l h x a ah ax b rh rx rr j k.0 u (omega arith)
                  (omega arith) (omega arith) (omega arith) (omega (arith, k.1))
                  (omega (arith, k.2))
          ]

  join-Balances :
      (n : ℕ) (l : TreeNode A) (h : ℕ) (x : A) (r : TreeNode A)
      → IsBalanced l
      → IsBalanced r
      → height l + height r ≤ n
      → Balances (suc (suc (suc (suc n)))) l h x r
  join-Balances zero l h x r bl br s = near-Balances 3 l h x r bl br (omega arith) (omega arith)
  join-Balances (suc n) l h x r bl br s = elim (le-cases (height r) (suc (height l))) [
    | inr c ↦ higher_right n l (λ h x r br. join-Balances n l h x r bl br) h x r br s c
    | inl c ↦ elim (le-cases (height l) (suc (height r))) [
      | inl d ↦ near-Balances (suc (suc (suc (suc n)))) l h x r bl br d c
      | inr d ↦ mirror-Balances (suc (suc (suc (suc (suc n))))) l h x r (
          higher_right n (mirror r)
            (λ h x t bt. join-Balances n (mirror r) h x t (mirror-IsBalanced r br) bt) h x
            (mirror l) (mirror-IsBalanced l bl) (omega (arith, s, height-mirror l, height-mirror r))
            (omega (arith, d, height-mirror l, height-mirror r)))
    ]
  ]

  -- For two balanced trees of any heights and a datum, `balance` returns: the fuel is enough, and
  -- no null pointer is followed. The result is a balanced tree of the left data, the datum and the
  -- right data, in this order, and is not lower than the higher tree, and at most one higher.
  pub balance-Joined :
      (l : TreeNode A) (h : ℕ) (x : A) (r : TreeNode A)
      → IsBalanced l
      → IsBalanced r
      → (t : TreeNode A) × (balance (node l h x r) ≡ some t) × Joined l x r t
  unfolding balance
  balance-Joined l h x r bl br =
      let (t, g, j) = join-Balances (height l + height r + 2) l h x r bl br (omega arith) in
      let e : suc (suc (suc (suc (height l + height r + 2)))) ≡ height l + height r + 6 =
        omega arith in
      (t, subst (λ n. Gives n (node l h x r) t) e g, j)
