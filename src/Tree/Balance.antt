-- ===== src/Tree/Balance.antt =====
-- The rebalancing of mxf/mxf_tree.c.
use ebu_libmxf.Base.{
  ℕ, suc, ◌≤◌, ◌<◌, max, ◌≡◌, refl, sym, ap, ◌∙◌, ◌⊎◌, inl, inr, some, List, [], ◌∷◌, ◌++◌,
  append_assoc, arith, lt→ltb, le→ltb_false,
}
use ebu_libmxf.Tree.Defs.{TreeNode, null, node, height, balance_tree}

pub le-cases : (a b : ℕ) → (a ≤ b) ⊎ (b < a)
le-cases a b = ground arith

module _ {A : Type 0} where
  abbrev pub in_order : TreeNode A → List A
  in_order null = []
  in_order (node l h x r) = in_order l ++ (x ∷ in_order r)

  -- The height that a node notes: 0 or 1 in a leaf, and one more than that of the higher child.
  abbrev pub IsNoted : TreeNode A → ℕ → TreeNode A → Type 0
  IsNoted l h r = (h ≡ suc (max (height l) (height r))) ⊎ ((h ≡ 0) × (l ≡ null) × (r ≡ null))

  abbrev pub IsBalanced : TreeNode A → Type 0
  IsBalanced null = Unit
  IsBalanced (node l h x r) =
      IsBalanced l
      × IsBalanced r
      × IsNoted l h r
      × (height l ≤ suc (height r))
      × (height r ≤ suc (height l))

  -- `t` is a balanced tree of the left tree, the datum and the right tree.
  pub record Joined (l : TreeNode A) (x : A) (r t : TreeNode A) : Type 0 where
    pub balanced : IsBalanced t
    pub ordered : in_order t ≡ in_order l ++ (x ∷ in_order r)
    pub low : max (height l) (height r) ≤ height t
    pub high : height t ≤ suc (max (height l) (height r))

  -- The rules of `balance_tree`.
  abbrev pub Gives : ℕ → TreeNode A → TreeNode A → Type 0
  Gives n t t' = balance_tree n t ≡ some t'

  pub near-Gives :
      (n : ℕ) (l : TreeNode A) (h : ℕ) (x : A) (r : TreeNode A)
      → height l ≤ suc (height r)
      → height r ≤ suc (height l)
      → Gives (suc n) (node l h x r) (node l (suc (max (height l) (height r))) x r)
  unfolding balance_tree
  near-Gives n l h x r p q =
      rw (le→ltb_false (suc (height l)) (height r) q, le→ltb_false (suc (height r)) (height l) p)
        refl

  pub once-Gives :
      (n : ℕ) (l : TreeNode A) (h : ℕ) (x : A) (rl : TreeNode A) (rh : ℕ) (rx : A)
      (rr l' t : TreeNode A)
      → suc (height l) < rh
      → height rl ≤ height rr
      → Gives n (node l h x rl) l'
      → Gives n (node l' rh rx rr) t
      → Gives (suc n) (node l h x (node rl rh rx rr)) t
  unfolding balance_tree
  once-Gives n l h x rl rh rx rr l' t p q a b =
      rw (lt→ltb (suc (height l)) rh p, le→ltb_false (height rr) (height rl) q, a) b

  pub twice-Gives :
      (n : ℕ) (l : TreeNode A) (h : ℕ) (x : A) (a : TreeNode A) (ah : ℕ) (ax : A) (b : TreeNode A)
      (rh : ℕ) (rx : A) (rr b' c : TreeNode A) (ch : ℕ) (cx : A) (d l' t : TreeNode A)
      → suc (height l) < rh
      → height rr < ah
      → Gives n (node b rh rx rr) b'
      → Gives n (node a ah ax b') (node c ch cx d)
      → Gives n (node l h x c) l'
      → Gives n (node l' ch cx d) t
      → Gives (suc n) (node l h x (node (node a ah ax b) rh rx rr)) t
  unfolding balance_tree
  twice-Gives n l h x a ah ax b rh rx rr b' c ch cx d l' t p q g1 g2 g3 g4 =
      rw (lt→ltb (suc (height l)) rh p, lt→ltb (height rr) ah q, g1, g2, g3) g4

  pub twice_back-Gives :
      (n : ℕ) (ll : TreeNode A) (lh : ℕ) (lx : A) (a : TreeNode A) (ah : ℕ) (ax : A)
      (b : TreeNode A) (h : ℕ) (x : A) (r a' c : TreeNode A) (ch : ℕ) (cx : A) (d r' t : TreeNode A)
      → suc (height r) < lh
      → height ll < ah
      → Gives n (node ll lh lx a) a'
      → Gives n (node a' ah ax b) (node c ch cx d)
      → Gives n (node d h x r) r'
      → Gives n (node c ch cx r') t
      → Gives (suc n) (node (node ll lh lx (node a ah ax b)) h x r) t
  unfolding balance_tree
  twice_back-Gives n ll lh lx a ah ax b h x r a' c ch cx d r' t p q g1 g2 g3 g4 =
      rw
        (
          le→ltb_false (suc lh) (height r) (omega arith),
          lt→ltb (suc (height r)) lh p,
          lt→ltb (height ll) ah q,
          g1,
          g2,
          g3,
        )
        g4

  -- A node with the height that the code notes.
  abbrev pub made : TreeNode A → A → TreeNode A → TreeNode A
  made l x r = node l (suc (max (height l) (height r))) x r

  pub made-IsBalanced :
      (l : TreeNode A) (x : A) (r : TreeNode A)
      → IsBalanced l
      → IsBalanced r
      → height l ≤ suc (height r)
      → height r ≤ suc (height l)
      → IsBalanced (made l x r)
  made-IsBalanced l x r bl br p q = (bl, br, inl refl, p, q)

  pub made-Joined :
      (l : TreeNode A) (x : A) (r : TreeNode A)
      → IsBalanced l
      → IsBalanced r
      → height l ≤ suc (height r)
      → height r ≤ suc (height l)
      → Joined l x r (made l x r)
  made-Joined l x r bl br p q = record {
    balanced = made-IsBalanced l x r bl br p q;
    ordered = refl;
    low = omega arith;
    high = omega arith;
  }

  -- `c`, `cx` and `d` are what the right tree is turned into.
  pub chain-Joined :
      (l : TreeNode A) (x : A) (r c : TreeNode A) (ch : ℕ) (cx : A) (d l' t : TreeNode A)
      → in_order (node c ch cx d) ≡ in_order r
      → Joined l x c l'
      → Joined l' cx d t
      → max (height l) (height r) ≤ height t
      → height t ≤ suc (max (height l) (height r))
      → Joined l x r t
  chain-Joined l x r c ch cx d l' t e j k low high = record {
    balanced = k.balanced;
    ordered =
        k.ordered
        ∙ ap (λ v. v ++ (cx ∷ in_order d)) j.ordered
        ∙ append_assoc (in_order l) (x ∷ in_order c) (cx ∷ in_order d)
        ∙ ap (λ v. in_order l ++ (x ∷ v)) e;
    low = low;
    high = high;
  }

  abbrev pub Balances : ℕ → TreeNode A → ℕ → A → TreeNode A → Type 0
  Balances n l h x r = (t : TreeNode A) × Gives n (node l h x r) t × Joined l x r t

  pub turned :
      (a : TreeNode A) (ah : ℕ) (ax : A) (b : TreeNode A) (rh : ℕ) (rx : A) (rr : TreeNode A)
      (k : ℕ)
      → in_order (node a k ax (made b rx rr)) ≡ in_order (node (node a ah ax b) rh rx rr)
  turned a ah ax b rh rx rr k = sym (append_assoc (in_order a) (ax ∷ in_order b) (rx ∷ in_order rr))

  pub near-Balances :
      (n : ℕ) (l : TreeNode A) (h : ℕ) (x : A) (r : TreeNode A)
      → IsBalanced l
      → IsBalanced r
      → height l ≤ suc (height r)
      → height r ≤ suc (height l)
      → Balances (suc n) l h x r
  near-Balances n l h x r bl br p q = (_, near-Gives n l h x r p q, made-Joined l x r bl br p q)

  pub noted-IsMax :
      (l : TreeNode A) (h : ℕ) (r : TreeNode A)
      → IsNoted l h r
      → 0 < h
      → h ≡ suc (max (height l) (height r))
  noted-IsMax l h r (inl e) p = e
  noted-IsMax l h r (inr (e, el, er)) p = absurd (omega arith)
