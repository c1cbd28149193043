-- ===== src/RbTree/Delete/Least.antt =====
-- rb_tree_minimum, and places inside a subtree.
use mw_race_service_mesh_c.Base.{
  ℕ, zero, suc, ◌<◌, ◌≡◌, ◌≢◌, refl, sym, ap, ◌∙◌, subst, Option, some, [], ◌∷◌, ◌++◌, append_assoc,
  arith, ≢→not_==,
}
use mw_race_service_mesh_c.Base.Int.{ℤ}
use mw_race_service_mesh_c.RbTree.{Color, RbNode, RbTree, nil}
use mw_race_service_mesh_c.RbTree.Shape.{
  Tree, leaf, node, from_left, from_right, Context, fill, plug, keys, size, At,
}
use mw_race_service_mesh_c.RbTree.Shape.Moves.{At-up_left, At-up_right, At-down_left, At-down_right}
use mw_race_service_mesh_c.RbTree.Balance.{Hole, black_left, black_right, red_left, red_right}
use mw_race_service_mesh_c.RbTree.Order.{before}
use mw_race_service_mesh_c.RbTree.Insert.{BalancedAt, left_child}
use mw_race_service_mesh_c.RbTree.Delete.{minimum}

pub plug-append : (gs fs : Context) (s : Tree) → plug (gs ++ fs) s ≡ plug fs (plug gs s)
plug-append [] fs s = refl
plug-append (g ∷ gs) fs s = plug-append gs fs (fill g s)

-- From a place inside a subtree to the subtree, and back.
pub At-outward : (t : RbTree) (gs fs : Context) (s : Tree) → At t (gs ++ fs) s → At t fs (plug gs s)
At-outward t [] fs s at = at
At-outward t (from_left c a k o ∷ gs) fs s at =
    At-outward t gs fs (node c s a k o) (At-up_left t (gs ++ fs) c a k s o at)
At-outward t (from_right c a k o ∷ gs) fs s at =
    At-outward t gs fs (node c o a k s) (At-up_right t (gs ++ fs) c a k o s at)

pub At-inward : (t : RbTree) (gs fs : Context) (s : Tree) → At t fs (plug gs s) → At t (gs ++ fs) s
At-inward t [] fs s at = at
At-inward t (from_left c a k o ∷ gs) fs s at =
    At-down_left t (gs ++ fs) c a k s o (At-inward t gs fs (node c s a k o) at)
At-inward t (from_right c a k o ∷ gs) fs s at =
    At-down_right t (gs ++ fs) c a k o s (At-inward t gs fs (node c o a k s) at)

-- The colors around a place do not name the nodes.
pub Hole-renamed :
    (gs : Context) (d : Color) (a b : ℕ) (k k' : ℤ) (l : Tree) (fs : Context) {c : Color} {n : ℕ}
    → Hole c n (gs ++ (from_right d a k l ∷ fs))
    → Hole c n (gs ++ (from_right d b k' l ∷ fs))
Hole-renamed [] d a b k k' l fs (black_right o up) = black_right o up
Hole-renamed [] d a b k k' l fs (red_right o up) = red_right o up
Hole-renamed (from_left _ _ _ _ ∷ gs) d a b k k' l fs (black_left o up) =
    black_left o (Hole-renamed gs d a b k k' l fs up)
Hole-renamed (from_left _ _ _ _ ∷ gs) d a b k k' l fs (red_left o up) =
    red_left o (Hole-renamed gs d a b k k' l fs up)
Hole-renamed (from_right _ _ _ _ ∷ gs) d a b k k' l fs (black_right o up) =
    black_right o (Hole-renamed gs d a b k k' l fs up)
Hole-renamed (from_right _ _ _ _ ∷ gs) d a b k k' l fs (red_right o up) =
    red_right o (Hole-renamed gs d a b k k' l fs up)

-- The least node of a subtree: it has no left child, and no keys of the subtree are before it.
pub data Least (t : RbTree) (fs : Context) (s : Tree) : Option ℕ → Type 0 where
  least :
      (gs : Context) (c : Color) (y : ℕ) (k : ℤ) (r : Tree)
      → plug gs (node c leaf y k r) ≡ s
      → before gs ≡ []
      → At t (gs ++ fs) (node c leaf y k r)
      → BalancedAt (gs ++ fs) (node c leaf y k r)
      → Least t fs s (some y)

before-left :
    (gs : Context) (c : Color) (a : ℕ) (k : ℤ) (r : Tree)
    → before (gs ++ (from_left c a k r ∷ [])) ≡ before gs
before-left [] c a k r = refl
before-left (from_left _ _ _ _ ∷ gs) c a k r = before-left gs c a k r
before-left (from_right c' a' k' l' ∷ gs) c a k r =
    ap (λ ks. ks ++ (keys l' ++ (k' ∷ []))) (before-left gs c a k r)

-- The least node of a left child is that of the parent.
Least-left :
    (t : RbTree) (fs : Context) (c : Color) (l : Tree) (a : ℕ) (k : ℤ) (r : Tree) (o : Option ℕ)
    → Least t (from_left c a k r ∷ fs) l o
    → Least t fs (node c l a k r) o
Least-left t fs c l a k r _ (least gs cy y ky ry whole first at b) =
    let f = from_left c a k r in
    let s = node cy leaf y ky ry in
    let same = append_assoc gs (f ∷ []) fs in
    least (gs ++ (f ∷ [])) cy y ky ry (plug-append gs (f ∷ []) s ∙ ap (fill f) whole)
      (before-left gs c a k r ∙ first) (subst (λ i. At t i s) (sym same) at)
      (subst (λ i. BalancedAt i s) (sym same) b)

minimum_step :
    (fuel : ℕ) (t : RbTree) (a b : ℕ)
    → (t.nodes a).lchild ≡ b
    → b ≢ nil
    → minimum (suc fuel) t a ≡ minimum fuel t b
unfolding minimum
minimum_step fuel t a b e some_b = rw e (rw (≢→not_== b nil some_b) refl)

minimum_end :
    (fuel : ℕ) (t : RbTree) (a : ℕ) → (t.nodes a).lchild ≡ nil → minimum (suc fuel) t a ≡ some a
unfolding minimum
minimum_end fuel t a e = rw e refl

-- rb_tree_minimum finds it, with more fuel than there are nodes on a way down.
pub minimum-Least :
    (fuel : ℕ) (t : RbTree) (fs : Context) (c : Color) (l : Tree) (a : ℕ) (k : ℤ) (r : Tree)
    → At t fs (node c l a k r)
    → BalancedAt fs (node c l a k r)
    → size l < fuel
    → Least t fs (node c l a k r) (minimum fuel t a)
minimum-Least zero t fs c l a k r at b enough = absurd (omega arith)
minimum-Least (suc fuel) t fs c leaf a k r at b enough =
    subst (Least t fs (node c leaf a k r))
      (sym (minimum_end fuel t a (ap (λ (x : RbNode). x.lchild) at.subtree.1)))
      (least [] c a k r refl refl at b)
minimum-Least (suc fuel) t fs c (node c' l' a' k' r') a k r at b enough =
    let f = from_left c a k r in
    let s = node c' l' a' k' r' in
    let below = At-down_left t fs c a k s r at in
    subst (Least t fs (node c s a k r))
      (sym (minimum_step fuel t a a' (ap (λ (x : RbNode). x.lchild) at.subtree.1) below.subtree.0))
      (Least-left t fs c s a k r (minimum fuel t a') (
        minimum-Least fuel t (f ∷ fs) c' l' a' k' r' below (left_child b.hole b.balanced)
          (omega arith)))
