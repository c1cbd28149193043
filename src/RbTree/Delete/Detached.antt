-- ===== src/RbTree/Delete/Detached.antt =====
-- The case of rb_delete with two children, when the least node is not the right child.
use mw_race_service_mesh_c.Base.{
  ℕ, ◌+◌, ◌≤◌, ◌≡◌, ◌≢◌, refl, sym, ap, ap₂, ◌∙◌, subst, false, [], ◌∷◌, ◌++◌, arith, ◌==◌,
  ≢→not_==,
}
use mw_race_service_mesh_c.Base.Int.{ℤ}
use mw_race_service_mesh_c.RbTree.{
  Color, black, RbNode, RbTree, nil, store, set_rchild, set_parent, parent_of,
}
use mw_race_service_mesh_c.RbTree.Shape.{
  Tree, leaf, node, Frame, from_left, from_right, Context, address, frame_address, above, rb_node,
  Holds, HoldsContext, hits, occurs, occurs_around, plug, At,
}
use mw_race_service_mesh_c.RbTree.Shape.Writes.{
  hits_self, hits_ne, update_self, update_ne, Holds-update, HoldsContext-update,
}
use mw_race_service_mesh_c.RbTree.Shape.Moves.{At-down_right, parent_of-At}
use mw_race_service_mesh_c.RbTree.Insert.Correct.{occurs-plug}
use mw_race_service_mesh_c.RbTree.Delete.{transplant, detach, inherit, splice_least}
use mw_race_service_mesh_c.RbTree.Delete.Sentinel.{Below, Below-kept, store-nil}
use mw_race_service_mesh_c.RbTree.Delete.Transplant.{
  address-free, address-free_around, set_parent-Holds, set_parent-black_nil, transplant-Below,
  transplant-read,
}
use mw_race_service_mesh_c.RbTree.Delete.Least.{At-outward, At-inward}
use mw_race_service_mesh_c.RbTree.Delete.Inherit.{inherit-At, inherit-nil}
use mw_race_service_mesh_c.RbTree.Delete.Moved.{store-At, address-ne, plug_frame-some, Replaced}

occurs_around-append :
    (x : ℕ) (gs fs : Context) → occurs_around x (gs ++ fs) ≡ occurs_around x gs + occurs_around x fs
occurs_around-append x [] fs = omega arith
occurs_around-append x (g ∷ gs) fs = omega (arith, occurs_around-append x gs fs)

module _ (t : RbTree) (fs : Context) (z : ℕ) (c : Color) (k : ℤ) (l : Tree) (g : Frame)
    (gs : Context) (y : ℕ) (cy : Color) (ky : ℤ) (r : Tree) (some_l : address l ≢ nil)
    (at : At t (g ∷ (gs ++ (from_right c z k l ∷ fs))) (node cy leaf y ky r)) where
  abbrev inner : Context
  inner = g ∷ gs

  abbrev outer : Context
  outer = from_right c z k l ∷ fs

  abbrev whole : Tree
  whole = plug inner r

  distinct :
      (x : ℕ)
      → hits x y + hits x z + occurs x leaf + occurs x l + occurs x whole + occurs_around x fs ≤ 1
  distinct x = omega (arith, at.distinct x, occurs_around-append x gs outer, occurs-plug x inner r)

  some_y : y ≢ nil
  some_y = at.subtree.0

  right_child : (t.nodes y).rchild ≡ address r
  right_child = ap (λ (x : RbNode). x.rchild) at.subtree.1

  abbrev t1 : RbTree
  t1 = transplant t y (address r)

  below1 : Below t1 (inner ++ outer) r
  below1 =
      transplant-Below t (inner ++ outer) y r some_y
        (parent_of-At t (inner ++ outer) cy leaf y ky r at) at.around
        (λ x. omega (arith, at.distinct x)) y at.subtree.3 at.black_nil

  own1 : t1.nodes y ≡ rb_node cy ky nil (address r) (frame_address g)
  own1 =
      transplant-read t (inner ++ outer) y r some_y
        (parent_of-At t (inner ++ outer) cy leaf y ky r at) at.around
        (λ x. omega (arith, at.distinct x)) y (omega (arith, at.distinct y, hits_self y))
        (address-ne r y some_y (omega (arith, at.distinct y, hits_self y)))
      ∙ at.subtree.1

  at1 : At t1 outer whole
  at1 = At-outward t1 inner outer r below1.at

  -- The node that moves gets the right child of the one that goes.
  abbrev v2 : RbNode
  v2 = record (t1.nodes y) { rchild = (t1.nodes z).rchild }

  abbrev t2 : RbTree
  t2 = store t1 y v2

  own2 : t2.nodes y ≡ rb_node cy ky nil (address whole) (frame_address g)
  own2 =
      update_self t1.nodes y v2
      ∙ ap₂ (λ (i j : RbNode). record i { rchild = j.rchild }) own1 at1.around.1

  at2 : At t2 outer whole
  at2 =
      store-At t1 outer whole y v2 some_y (omega (arith, distinct y, hits_self y))
        (omega (arith, distinct y, hits_self y)) at1

  some_whole : address whole ≢ nil
  some_whole = plug_frame-some t2.nodes z g gs r at2.subtree

  -- That child gets it as its parent.
  abbrev v3 : RbNode
  v3 = record (t2.nodes (address whole)) { parent = y }

  abbrev t3 : RbTree
  t3 = store t2 (address whole) v3

  detach-parts : detach t z y ≡ t3
  unfolding detach
  detach-parts =
      ap
        (λ i.
          let u2 = set_rchild (transplant t y i) y ((transplant t y i).nodes z).rchild in
          set_parent u2 (u2.nodes y).rchild y)
        right_child
      ∙ ap (λ i. set_parent t2 i y) (ap (λ (x : RbNode). x.rchild) own2)

  -- What the last steps need.
  at_z : t3.nodes z ≡ rb_node c k (address l) (address whole) (above fs)
  at_z =
      update_ne t2.nodes (address whole) z v3
        (address-ne whole z at2.around.0 (omega (arith, distinct z, hits_self z)))
      ∙ at2.around.1

  around3 : HoldsContext t3.nodes t3.root z fs
  around3 =
      HoldsContext-update t2.nodes t2.root z fs (address whole) v3
        (address-free_around t2.nodes t2.root z whole fs at2.around.3
          (λ x. omega (arith, distinct x)))
        at2.around.3

  held_l : Holds t3.nodes z l
  held_l =
      Holds-update t2.nodes z l (address whole) v3
        (address-free t2.nodes z whole l at2.around.2 (λ x. omega (arith, distinct x))) at2.around.2

  held_y : Holds t3.nodes (frame_address g) (node cy leaf y ky whole)
  held_y = (
    some_y,
    update_ne t2.nodes (address whole) y v3
          (address-ne whole y some_y (omega (arith, distinct y, hits_self y)))
        ∙ own2,
    tt,
    set_parent-Holds t2 z y whole (λ x. omega (arith, distinct x)) at2.subtree,
  )

  dark3 : (t3.nodes nil).color ≡ black
  dark3 = set_parent-black_nil t2 (address whole) y at2.black_nil

  abbrev after : RbTree → RbTree
  after u = inherit (transplant u z y) z y

  not_child : (parent_of t y == z) ≡ false
  not_child =
      ap (λ i. i == z) (parent_of-At t (inner ++ outer) cy leaf y ky r at)
      ∙ ≢→not_== (frame_address g) z
          (hits_ne (frame_address g) z (apart g (at.distinct (frame_address g))))
    where
      apart :
          (f : Frame)
          → occurs (frame_address f) (node cy leaf y ky r)
              + occurs_around (frame_address f) (f ∷ (gs ++ outer))
            ≤ 1
          → hits (frame_address f) z ≡ 0
      apart (from_left _ a _ _) once =
          omega (arith, once, hits_self a, occurs_around-append a gs outer)
      apart (from_right _ a _ _) once =
          omega (arith, once, hits_self a, occurs_around-append a gs outer)

  after-Below : Below (after t3) (inner ++ (from_right c y ky l ∷ fs)) r
  after-Below =
      let moved =
        inherit-At t3 fs z c k l (address whole) y cy ky whole (frame_address g) at2.around.0 some_y
          some_l distinct at_z around3 held_l held_y dark3 in
      let kept =
        inherit-nil t3 fs z c k l (address whole) y cy ky whole (frame_address g) at2.around.0
          some_y some_l distinct at_z around3 held_l held_y dark3 in
      Below-kept t1 (after t3) (inner ++ outer) (inner ++ (from_right c y ky l ∷ fs)) r below1
        (kept ∙ store-nil t2 (address whole) v3 some_whole ∙ store-nil t1 y v2 some_y) refl
        (At-inward (after t3) inner (from_right c y ky l ∷ fs) r
          (At-down_right (after t3) fs c y ky l whole moved))

  pub splice_far-Replaced :
      Replaced (splice_least t z y) (g ∷ (gs ++ (from_right c y ky l ∷ fs))) r cy
  unfolding splice_least
  splice_far-Replaced = rw not_child (record {
    below =
        subst (λ u. Below (after u) (inner ++ (from_right c y ky l ∷ fs)) r) (sym detach-parts)
          after-Below;
    place = right_child;
    color = ap (λ (x : RbNode). x.color) at.subtree.1;
  })
