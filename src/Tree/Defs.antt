-- ===== src/Tree/Defs.antt =====
-- The nodes and the operations of mxf/mxf_tree.c. A null pointer is the node `null`, and a pointer
-- that is followed although it is null gives `none`, as does a rotation without fuel.
use Prim.Native.Nat.{Ordering}
use ebu_libmxf.Base.{
  ℕ, zero, suc, ◌+◌, max, Bool, true, false, Option, none, some, ltb, if◌then◌else◌,
}
use ebu_libmxf.Base.Int.{ℤ, pos, negsuc}

-- left, height, data, right
pub data TreeNode (A : Type 0) : Type 0 where
  null : TreeNode A
  node : TreeNode A → ℕ → A → TreeNode A → TreeNode A

pub record MxfTree (A : Type 0) : Type 0 where
  pub root : TreeNode A
  pub allow_duplicates : Bool

-- The tests of the result of `compare_f`, against 0.
abbrev pub sign : ℤ → Ordering
sign (negsuc n) = Ordering.lt
sign (pos zero) = Ordering.eq
sign (pos (suc n)) = Ordering.gt

abbrev pub and_then : {B C : Type 0} → Option B → (B → Option C) → Option C
and_then none f = none
and_then (some b) f = f b

module _ {A : Type 0} where
  abbrev pub height : TreeNode A → ℕ
  height null = 0
  height (node l h x r) = h

  -- `balance` is the recursive call of `balance_tree`.
  module _ (balance : TreeNode A → Option (TreeNode A)) where
    abbrev pub rotate_left : TreeNode A → Option (TreeNode A)
    rotate_left null = none
    rotate_left (node l h x null) = none
    rotate_left (node l h x (node rl rh rx rr)) =
        and_then (balance (node l h x rl)) (λ l'. balance (node l' rh rx rr))

    abbrev pub rotate_right : TreeNode A → Option (TreeNode A)
    rotate_right null = none
    rotate_right (node null h x r) = none
    rotate_right (node (node ll lh lx lr) h x r) =
        and_then (balance (node lr h x r)) (λ r'. balance (node ll lh lx r'))

    -- Rotates the child first, if its inner child is the higher one.
    abbrev pub turned_right : TreeNode A → Option (TreeNode A)
    turned_right null = none
    turned_right (node l h x r) =
        if ltb (height r) (height l) then rotate_right (node l h x r) else some (node l h x r)

    abbrev pub turned_left : TreeNode A → Option (TreeNode A)
    turned_left null = none
    turned_left (node l h x r) =
        if ltb (height l) (height r) then rotate_left (node l h x r) else some (node l h x r)

  unfoldable pub balance_tree : ℕ → TreeNode A → Option (TreeNode A)
  balance_tree zero t = none
  balance_tree (suc fuel) null = none
  balance_tree (suc fuel) (node l h x r) =
      let leftwards =
        and_then (turned_right (balance_tree fuel) r)
          (λ r'. rotate_left (balance_tree fuel) (node l h x r')) in
      let rightwards =
        and_then (turned_left (balance_tree fuel) l)
          (λ l'. rotate_right (balance_tree fuel) (node l' h x r)) in
      if ltb (suc (height l)) (height r)
      then leftwards
      else if ltb (suc (height r)) (height l)
      then rightwards
      else some (node l (suc (max (height l) (height r))) x r)

  -- Bounds the depth of the calls.
  abbrev pub enough : TreeNode A → ℕ
  enough null = 0
  enough (node l h x r) = height l + height r + 6

  unfoldable pub balance : TreeNode A → Option (TreeNode A)
  balance t = balance_tree (enough t) t

  abbrev pub rebalance : Bool → TreeNode A → Option (Bool × TreeNode A)
  rebalance status t = and_then (balance t) (λ t'. some (status, t'))

  -- The way back up of `insert_node`, which leaves the nodes as they are if it has failed.
  abbrev pub way_back : (TreeNode A → TreeNode A) → Bool × TreeNode A → Option (Bool × TreeNode A)
  way_back at (false, t) = some (false, at t)
  way_back at (true, t) = rebalance true (at t)

  unfoldable pub move_right : TreeNode A → TreeNode A → Option (TreeNode A)
  move_right null right = some right
  move_right (node l h x r) right = and_then (move_right r right) (λ r'. balance (node l h x r'))

  module _ (compare_f : A → A → ℤ) where
    -- A new node has the height 0.
    unfoldable pub insert_node : Bool → TreeNode A → A → Option (Bool × TreeNode A)
    insert_node allow_duplicates null x = some (true, node null 0 x null)
    insert_node allow_duplicates (node l h y r) x =
        let right = and_then (insert_node allow_duplicates r x) (way_back (λ r'. node l h y r')) in
        let left = and_then (insert_node allow_duplicates l x) (way_back (λ l'. node l' h y r)) in
        elim (sign (compare_f y x)) [
          | Ordering.lt ↦ right
          | Ordering.gt ↦ left
          | Ordering.eq ↦ if allow_duplicates then left else some (false, node l h y r)
        ]

    unfoldable pub remove_node : TreeNode A → A → Option (Bool × TreeNode A)
    remove_node null key = some (false, null)
    remove_node (node l h y r) key =
        let right = and_then (remove_node r key) (λ s. rebalance s.0 (node l h y s.1)) in
        let left = and_then (remove_node l key) (λ s. rebalance s.0 (node s.1 h y r)) in
        elim (sign (compare_f y key)) [
          | Ordering.eq ↦ and_then (move_right l r) (λ t. some (true, t))
          | Ordering.lt ↦ right
          | Ordering.gt ↦ left
        ]

    unfoldable pub find_node : TreeNode A → A → Option A
    find_node null key = none
    find_node (node l h y r) key =
        let right = find_node r key in
        let left = find_node l key in
        elim (sign (compare_f y key)) [
          | Ordering.eq ↦ some y
          | Ordering.lt ↦ right
          | Ordering.gt ↦ left
        ]

    abbrev pub at_root : MxfTree A → Option (Bool × TreeNode A) → Option (Bool × MxfTree A)
    at_root tree r = and_then r (λ s. some (s.0, record tree { root = s.1 }))

    unfoldable pub tree_insert : MxfTree A → A → Option (Bool × MxfTree A)
    tree_insert tree x = at_root tree (insert_node tree.allow_duplicates tree.root x)

    unfoldable pub tree_remove : MxfTree A → A → Option (Bool × MxfTree A)
    tree_remove tree key = at_root tree (remove_node tree.root key)

    unfoldable pub tree_find : MxfTree A → A → Option A
    tree_find tree key = find_node tree.root key

  abbrev pub tree_init : Bool → MxfTree A
  tree_init allow_duplicates = record { root = null; allow_duplicates = allow_duplicates }

  unfoldable pub tree_clear : MxfTree A → MxfTree A
  tree_clear tree = record tree { root = null }

  -- `process_f` takes and returns its data.
  module _ {D : Type 0} (process_f : A → D → Bool × D) where
    abbrev pub if_so : Bool × D → (D → Bool × D) → Bool × D
    if_so (false, d) next = (false, d)
    if_so (true, d) next = next d

    unfoldable pub traverse_node : TreeNode A → D → Bool × D
    traverse_node null d = (true, d)
    traverse_node (node l h x r) d =
        if_so (if_so (process_f x d) (traverse_node l)) (traverse_node r)

    unfoldable pub tree_traverse : MxfTree A → D → Bool × D
    tree_traverse tree d = traverse_node tree.root d
