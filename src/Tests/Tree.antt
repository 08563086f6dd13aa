-- ===== src/Tests/Tree.antt =====
-- mxf/mxf_tree.c on trees of numbers.
use Prim.Native.Nat.{Ordering}
use ebu_libmxf.Base.{
  ℕ, ◌+◌, ◌≡◌, refl, inl, inr, Bool, true, false, Option, some, List, [], ◌∷◌, ltb, ◌==◌,
  if◌then◌else◌, arith,
}
use ebu_libmxf.Base.Int.{ℤ, pos, negsuc}
use ebu_libmxf.Tree.Defs.{
  TreeNode, MxfTree, null, node, and_then, balance_tree, balance, insert_node, tree_init,
  tree_insert, tree_remove, tree_find, tree_traverse,
}
use ebu_libmxf.Tree.Balance.{Joined, IsBalanced, in_order}
use ebu_libmxf.Tree.Join.{balance-Joined}
use ebu_libmxf.Tree.Order.{compared, IsOrder}
use ebu_libmxf.Tree.Insert.{IsValid, Change, tree_insert_lem}
use ebu_libmxf.Tree.Remove.{Less, tree_remove_lem}
use ebu_libmxf.Tree.Search.{
  Found, tree_find_lem, tree_find-tree_insert, process_all, tree_traverse-pre_order,
}
use ebu_libmxf.Tree.Reached.{started, inserted, Reached-IsValid}

-- The sign of the difference.
abbrev by_size : ℕ → ℕ → ℤ
by_size a b = if ltb a b then negsuc 0 else if a == b then pos 0 else pos 1

by_size-IsOrder : IsOrder by_size
by_size-IsOrder = record { turn = λ a b. ground arith; chain = λ a b c p q. ground arith }

abbrev two_one_three : MxfTree ℕ
two_one_three = record {
  root = node (node null 0 1 null) 1 2 (node null 0 3 null);
  allow_duplicates = false;
}

two_one_three-IsValid : IsValid by_size two_one_three
two_one_three-IsValid = (
  (
    (tt, tt, inr (refl, refl, refl), omega arith, omega arith),
    (tt, tt, inr (refl, refl, refl), omega arith, omega arith),
    inl refl,
    omega arith,
    omega arith,
  ),
  ((refl, (refl, tt)), ((refl, tt), (tt, tt))),
)

insert_all : List ℕ → MxfTree ℕ → Option (MxfTree ℕ)
insert_all [] tree = some tree
insert_all (x ∷ xs) tree = and_then (tree_insert by_size tree x) (λ r. insert_all xs r.1)

-- A new node has the height of none, so three nodes in a chain are left as they are.
chain_of_three :
    insert_all (1 ∷ 2 ∷ 3 ∷ []) (tree_init false)
    ≡ some (record {
      root = node null 2 1 (node null 1 2 (node null 0 3 null));
      allow_duplicates = false;
    })
unfolding insert_all tree_insert insert_node balance balance_tree
chain_of_three = refl

abbrev five_up : TreeNode ℕ
five_up = node null 2 5 (node null 1 6 (node null 0 7 null))

five_up-IsBalanced : IsBalanced five_up
five_up-IsBalanced = (
  tt,
  (
    tt,
    (tt, tt, inr (refl, refl, refl), omega arith, omega arith),
    inl refl,
    omega arith,
    omega arith,
  ),
  inl refl,
  omega arith,
  omega arith,
)

balance-Joined_example :
    (t : TreeNode ℕ) × (balance (node null 0 4 five_up) ≡ some t) × Joined null 4 five_up t
balance-Joined_example = balance-Joined null 0 4 five_up tt five_up-IsBalanced

tree_insert_lem_example :
    (s : Bool) × (tree' : MxfTree ℕ) × (tree_insert by_size two_one_three 2 ≡ some (s, tree'))
    × IsValid by_size tree'
    × Change by_size false 2 two_one_three.root s tree'.root
tree_insert_lem_example =
    tree_insert_lem by_size by_size-IsOrder two_one_three 2 two_one_three-IsValid

tree_remove_lem_example :
    (s : Bool) × (tree' : MxfTree ℕ) × (tree_remove by_size two_one_three 2 ≡ some (s, tree'))
    × IsValid by_size tree'
    × Less by_size 2 (1 ∷ 2 ∷ 3 ∷ []) s (in_order tree'.root)
tree_remove_lem_example =
    tree_remove_lem by_size by_size-IsOrder two_one_three 2 two_one_three-IsValid

tree_find_lem_example : Found by_size 3 (1 ∷ 2 ∷ 3 ∷ []) (tree_find by_size two_one_three 3)
tree_find_lem_example = tree_find_lem by_size by_size-IsOrder two_one_three 3 two_one_three-IsValid

tree_find-tree_insert_example :
    (s : Bool) × (tree' : MxfTree ℕ) × (y : ℕ) × (tree_insert by_size two_one_three 4
      ≡ some (s, tree'))
    × (tree_find by_size tree' 4 ≡ some y)
    × (compared by_size y 4 ≡ Ordering.eq)
tree_find-tree_insert_example =
    tree_find-tree_insert by_size by_size-IsOrder two_one_three 4 two_one_three-IsValid

-- Adds up to the first 3.
abbrev add_up : ℕ → ℕ → Bool × ℕ
add_up x d = if x == 3 then (false, d) else (true, x + d)

tree_traverse-pre_order_example :
    tree_traverse add_up two_one_three 0 ≡ process_all add_up (2 ∷ 1 ∷ 3 ∷ []) 0
tree_traverse-pre_order_example = tree_traverse-pre_order add_up two_one_three 0

Reached-IsValid_example : IsValid by_size (record two_one_three { root = node null 0 7 null })
unfolding tree_insert insert_node
Reached-IsValid_example =
    Reached-IsValid by_size by_size-IsOrder _
      (inserted (tree_init false) 7 true _ (started false) refl)
