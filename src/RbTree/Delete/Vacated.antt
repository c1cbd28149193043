-- ===== src/RbTree/Delete/Vacated.antt =====
-- A node is out of the tree: the rest of rb_delete makes it a red-black tree.
use mw_race_service_mesh_c.Base.{
  ℕ, suc, ◌<◌, ◌≡◌, refl, sym, ap, subst, inl, inr, Option, some, ◌∷◌, arith, ltb, ◌==◌, ==_iff,
  Bool-cases, ltb→lt, not_ltb→le, length,
}
use mw_race_service_mesh_c.Base.Int.{ℤ}
use mw_race_service_mesh_c.RbTree.{Color, red, black, RbTree}
use mw_race_service_mesh_c.RbTree.Shape.{
  Tree, leaf, node, from_left, from_right, Context, address, hits, occurs, plug, At,
}
use mw_race_service_mesh_c.RbTree.Shape.Moves.{At-plug, At-down_left, At-down_right}
use mw_race_service_mesh_c.RbTree.Balance.{
  Balanced, bottom, red_node, black_node, Hole, Hole-black, plug-IsBalanced,
}
use mw_race_service_mesh_c.RbTree.Fixup.Rounds.{Same-refl}
use mw_race_service_mesh_c.RbTree.Insert.{BalancedAt, left_child, right_child}
use mw_race_service_mesh_c.RbTree.Insert.Inserted.{Fixed, fixed}
use mw_race_service_mesh_c.RbTree.Delete.{Spliced, deleted, restore, delete_fixup}
use mw_race_service_mesh_c.RbTree.Delete.Sentinel.{Below}
use mw_race_service_mesh_c.RbTree.Delete.Light.{darkens, lacks}
use mw_race_service_mesh_c.RbTree.Delete.Fixed.{delete_fixup-Fixed}
use mw_race_service_mesh_c.RbTree.Delete.Moved.{Replaced}

-- A node with one child at most has left its place to it.
pub data Vacated (fs : Context) (s : Tree) : Color → Type 0 where
  red_left : {n : ℕ} → Hole black n fs → Balanced black n s → Vacated fs s red
  black_left : {n : ℕ} {c : Color} → Hole black (suc n) fs → Balanced c n s → Vacated fs s black

pub no_left-Vacated :
    {fs : Context} {d c : Color} {n a : ℕ} {k : ℤ} {r : Tree}
    → Hole d n fs
    → Balanced d n (node c leaf a k r)
    → Vacated fs r c
no_left-Vacated hole (red_node bottom br) = red_left (Hole-black hole) br
no_left-Vacated hole (black_node bottom br) = black_left hole br

pub no_right-Vacated :
    {fs : Context} {d c : Color} {n a : ℕ} {k : ℤ} {l : Tree}
    → Hole d n fs
    → Balanced d n (node c l a k leaf)
    → Vacated fs l c
no_right-Vacated hole (red_node bl bottom) = red_left (Hole-black hole) bl
no_right-Vacated hole (black_node bl bottom) = black_left hole bl

-- A result of rb_delete with the keys and the nodes of a tree.
pub data Restored (whole : Tree) : Option (ℤ × RbTree) → Type 0 where
  restored : (o : Option RbTree) → Fixed whole o → Restored whole (deleted o)

lightened :
    (fuel : ℕ) (t : RbTree) (fs : Context) (s : Tree) {n : ℕ} {c : Color}
    → Below t fs s
    → Hole black (suc n) fs
    → Balanced c n s
    → length fs < fuel
    → Fixed (plug fs s) (delete_fixup fuel t (address s))
lightened fuel t fs s {n = n} below hole bottom enough =
    delete_fixup-Fixed fuel t fs s n (length fs)
      (record { below = below; hole = hole; light = lacks bottom }) enough
lightened fuel t fs s {n = n} below hole (red_node bl br) enough =
    delete_fixup-Fixed fuel t fs s n 0
      (record { below = below; hole = hole; light = darkens bl br }) (omega arith)
lightened fuel t fs s {n = n} below hole (black_node bl br) enough =
    delete_fixup-Fixed fuel t fs s n (length fs)
      (record { below = below; hole = hole; light = lacks (black_node bl br) }) enough

-- The rest of rb_delete.
pub restore-Restored :
    (fuel : ℕ) (sp : Spliced) (fs : Context) (s : Tree) (c : Color)
    → Replaced sp fs s c
    → Vacated fs s c
    → length fs < fuel
    → Restored (plug fs s) (restore fuel (some sp))
restore-Restored fuel sp fs s _ rep (red_left hole balanced) enough =
    subst (Restored (plug fs s)) (sym (rw rep.color refl)) (
      restored (some sp.tree) (
        fixed sp.tree (plug fs s) (At-plug sp.tree fs s rep.below.at)
          (plug-IsBalanced hole balanced) (Same-refl (plug fs s))))
restore-Restored fuel sp fs s _ rep (black_left hole balanced) enough =
    subst (Restored (plug fs s)) (sym (rw rep.color refl)) (
      restored (delete_fixup fuel sp.tree sp.replacing) (
        subst (λ i. Fixed (plug fs s) (delete_fixup fuel sp.tree i)) (sym rep.place)
          (lightened fuel sp.tree fs s rep.below hole balanced enough)))

-- A node of a tree is at a place.
pub data Located (t : RbTree) (z : ℕ) (whole : Tree) : Type 0 where
  located :
      (fs : Context) (c : Color) (l : Tree) (k : ℤ) (r : Tree)
      → plug fs (node c l z k r) ≡ whole
      → At t fs (node c l z k r)
      → BalancedAt fs (node c l z k r)
      → Located t z whole

pub occurs-Located :
    (t : RbTree) (z : ℕ) (fs : Context) (s : Tree)
    → At t fs s
    → BalancedAt fs s
    → 0 < occurs z s
    → Located t z (plug fs s)
occurs-Located t z fs leaf at b there = absurd (omega arith)
occurs-Located t z fs (node c l a k r) at b there = elim (Bool-cases (z == a)) [
  | inl same ↦
      let e = (==_iff z a).0 same in
      located fs c l k r (ap (λ i. plug fs (node c l i k r)) e)
        (subst (λ i. At t fs (node c l i k r)) (sym e) at)
        (subst (λ i. BalancedAt fs (node c l i k r)) (sym e) b)
  | inr other ↦
      let none_here : hits z a ≡ 0 = rw other refl in
      elim (Bool-cases (ltb 0 (occurs z l))) [
        | inl left ↦
            occurs-Located t z (from_left c a k r ∷ fs) l (At-down_left t fs c a k l r at)
              (left_child b.hole b.balanced) (ltb→lt 0 (occurs z l) left)
        | inr not_left ↦
            occurs-Located t z (from_right c a k l ∷ fs) r (At-down_right t fs c a k l r at)
              (right_child b.hole b.balanced)
              (let le = not_ltb→le 0 (occurs z l) not_left in omega (arith, le, none_here, there))
      ]
]
