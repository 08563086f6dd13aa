-- ===== src/Tree/Reached.antt =====
-- The trees that the functions of mxf/mxf_tree.c make.
use ebu_libmxf.Base.{◌≡◌, sym, ap, ◌∙◌, subst, Bool, Option, none, some}
use ebu_libmxf.Base.Int.{ℤ}
use ebu_libmxf.Tree.Defs.{MxfTree, tree_init, tree_clear, tree_insert, tree_remove}
use ebu_libmxf.Tree.Order.{IsOrder}
use ebu_libmxf.Tree.Insert.{IsValid, tree_insert_lem}
use ebu_libmxf.Tree.Remove.{tree_remove_lem}

module _ {A : Type 0} (compare_f : A → A → ℤ) where
  -- By any calls in any order, with any results.
  pub data Reached : MxfTree A → Type 0 where
    started : (allow_duplicates : Bool) → Reached (tree_init allow_duplicates)
    cleared : (tree : MxfTree A) → Reached tree → Reached (tree_clear tree)
    inserted :
        (tree : MxfTree A) (x : A) (s : Bool) (tree' : MxfTree A)
        → Reached tree
        → tree_insert compare_f tree x ≡ some (s, tree')
        → Reached tree'
    removed :
        (tree : MxfTree A) (key : A) (s : Bool) (tree' : MxfTree A)
        → Reached tree
        → tree_remove compare_f tree key ≡ some (s, tree')
        → Reached tree'

  of_result : {B : Type 0} → B → Option (Bool × B) → B
  of_result b none = b
  of_result b (some r) = r.1

  same_result : {B : Type 0} (r r' : Bool × B) → some r ≡ some r' → r.1 ≡ r'.1
  unfolding of_result
  same_result r r' e = ap (of_result r.1) e

  -- With an order that is total and transitive, a tree that insertions, removals and clearings
  -- have made from a new one, with any results, is valid: at each node the noted heights of the
  -- two sides differ by at most 1, and its own is one more than the higher, or 0 in a leaf; the
  -- data are sorted, and no two of them are equal if duplicates are not allowed.
  pub Reached-IsValid :
      IsOrder compare_f → (tree : MxfTree A) → Reached tree → IsValid compare_f tree
  unfolding tree_clear
  Reached-IsValid o tree (started d) = (tt, tt)
  Reached-IsValid o tree (cleared t r) = (tt, tt)
  Reached-IsValid o tree (inserted t x s t' r e) =
      let (s₀, t₀, e₀, v, c) = tree_insert_lem compare_f o t x (Reached-IsValid o t r) in
      subst (IsValid compare_f) (same_result (s₀, t₀) (s, t') (sym e₀ ∙ e)) v
  Reached-IsValid o tree (removed t k s t' r e) =
      let (s₀, t₀, e₀, v, c) = tree_remove_lem compare_f o t k (Reached-IsValid o t r) in
      subst (IsValid compare_f) (same_result (s₀, t₀) (s, t') (sym e₀ ∙ e)) v
