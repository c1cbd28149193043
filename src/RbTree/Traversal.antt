-- ===== src/RbTree/Traversal.antt =====
-- src/main/c/src/com/rbtree.c: rb_pre_traversal, which prints a tree.
use mw_race_service_mesh_c.Base.{
  ℕ, zero, suc, ◌<◌, ◌≡◌, ◌≢◌, refl, ap, ◌∙◌, Option, none, some, List, [], ◌∷◌, ◌++◌, arith, ◌==◌,
  if◌then◌else◌, ≢→not_==,
}
use mw_race_service_mesh_c.Base.Int.{ℤ, pos, negsuc, eqb_ℤ}
use mw_race_service_mesh_c.RbTree.{Color, RbNode, RbTree, nil}
use mw_race_service_mesh_c.RbTree.Shape.{Tree, leaf, node, address, Holds, size}

-- What a call of printf prints: a key with the color, or a parenthesis.
pub data Printed : Type 0 where
  entry : ℤ → Color → Printed
  opened : Printed
  closed : Printed

-- What is printed before a part of a tree and behind it. A part that fails ends the traversal.
abbrev pub within :
    List Printed → Option (ℤ × List Printed) → Option (ℤ × List Printed) → Option (ℤ × List Printed)
within first none rest = none
within first (some (e, out)) rest =
    if eqb_ℤ e (negsuc 0) then some (negsuc 0, first ++ out) else with_rest (first ++ out) rest
  where
    with_rest : List Printed → Option (ℤ × List Printed) → Option (ℤ × List Printed)
    with_rest out none = none
    with_rest out (some (e, more)) = some (e, out ++ more)

-- rb_pre_traversal: its result and what it prints. `none` means that the fuel ran out.
unfoldable pub pre_traversal : ℕ → RbTree → Option ℕ → Option (ℤ × List Printed)
pre_traversal zero t p = none
pre_traversal (suc fuel) t none = some (negsuc 0, [])
pre_traversal (suc fuel) t (some p) =
    let n = t.nodes p in
    let left = pre_traversal fuel t (some n.lchild) in
    let right = pre_traversal fuel t (some n.rchild) in
    if p == nil
    then some (pos 1, [])
    else within (entry n.key n.color ∷ opened ∷ []) left
        (within (closed ∷ opened ∷ []) right (some (pos 1, closed ∷ [])))

-- The preorder of a tree, with parentheses around each of its parts.
abbrev pub preorder : Tree → List Printed
preorder leaf = []
preorder (node c l a k r) =
    entry k c ∷ opened ∷ (preorder l ++ (closed ∷ opened ∷ (preorder r ++ (closed ∷ []))))

traversal_step :
    (fuel : ℕ) (t : RbTree) (a : ℕ) (v : RbNode)
    → a ≢ nil
    → t.nodes a ≡ v
    → pre_traversal (suc fuel) t (some a)
      ≡ within (entry v.key v.color ∷ opened ∷ []) (pre_traversal fuel t (some v.lchild)) (
          within
            (closed ∷ opened ∷ [])
            (pre_traversal fuel t (some v.rchild))
            (some (pos 1, closed ∷ [])))
unfolding pre_traversal
traversal_step fuel t a v some_a e = rw (≢→not_== a nil some_a) (
    ap
      (λ (n : RbNode).
        within (entry n.key n.color ∷ opened ∷ []) (pre_traversal fuel t (some n.lchild)) (
          within (closed ∷ opened ∷ []) (pre_traversal fuel t (some n.rchild))
            (some (pos 1, closed ∷ []))))
      e)

-- rb_pre_traversal of a subtree prints its preorder and answers 1, with more fuel than there are
-- nodes in it.
pub pre_traversal-preorder :
    (fuel : ℕ) (t : RbTree) (p : ℕ) (s : Tree)
    → Holds t.nodes p s
    → size s < fuel
    → pre_traversal fuel t (some (address s)) ≡ some (pos 1, preorder s)
unfolding pre_traversal
pre_traversal-preorder zero t p s held enough = absurd (omega arith)
pre_traversal-preorder (suc fuel) t p leaf held enough = refl
pre_traversal-preorder (suc fuel) t p (node c l a k r) (some_a, at_a, left, right) enough =
    traversal_step fuel t a _ some_a at_a
    ∙ rw (pre_traversal-preorder fuel t a l left (omega arith))
        (rw (pre_traversal-preorder fuel t a r right (omega arith)) refl)
