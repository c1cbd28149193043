-- ===== src/RbTree/Delete/Inherit.antt =====
-- The case of rb_delete with two children: the least node behind the one that goes takes its place.
use mw_race_service_mesh_c.Base.{ℕ, ◌+◌, ◌≤◌, ◌≡◌, ◌≢◌, sym, ap, ap₂, ◌∙◌, subst, arith}
use mw_race_service_mesh_c.Base.Int.{ℤ}
use mw_race_service_mesh_c.RbTree.{Color, black, RbNode, RbTree, nil, set_lchild, set_parent, adopt}
use mw_race_service_mesh_c.RbTree.Shape.{
  Tree, leaf, node, Context, address, above, rb_node, Holds, HoldsContext, hits, occurs,
  occurs_around, At,
}
use mw_race_service_mesh_c.RbTree.Shape.Writes.{hits_self, hits_ne, adopt-node}
use mw_race_service_mesh_c.RbTree.Rotate.Pieces.{Pieces, write_n, adopt_second}
use mw_race_service_mesh_c.RbTree.Delete.{transplant, inherit}
use mw_race_service_mesh_c.RbTree.Delete.Sentinel.{store-nil}
use mw_race_service_mesh_c.RbTree.Delete.Transplant.{
  transplant-Below, transplant-Holds, transplant-read, transplant-nil,
}

-- The node `z` at its place, and `y` with what is behind it.
module _ (u : RbTree) (fs : Context) (z : ℕ) (c : Color) (k : ℤ) (l : Tree) (rz : ℕ) (y : ℕ)
    (cy : Color) (ky : ℤ) (r : Tree) (p : ℕ) (some_z : z ≢ nil) (some_y : y ≢ nil)
    (some_l : address l ≢ nil)
    (distinct : (x : ℕ)
      → hits x y + hits x z + occurs x leaf + occurs x l + occurs x r + occurs_around x fs ≤ 1)
    (at_z : u.nodes z ≡ rb_node c k (address l) rz (above fs))
    (around : HoldsContext u.nodes u.root z fs) (held_l : Holds u.nodes z l)
    (held_y : Holds u.nodes p (node cy leaf y ky r)) (dark : (u.nodes nil).color ≡ black) where
  y_ne_z : y ≢ z
  y_ne_z = hits_ne y z (omega (arith, distinct y, hits_self y))

  parts :
      Pieces y z leaf l r fs some_y some_z distinct
        (transplant u z y)
        (rb_node cy ky nil (address r) (above fs))
        (rb_node c k (address l) rz (above fs))
        z
        z
        y
        y
  parts =
      let placed =
        transplant-Below u fs z (node cy leaf y ky r) some_z (ap (λ (x : RbNode). x.parent) at_z)
          around (λ x. omega (arith, distinct x)) p held_y dark in
      record {
        at_n = placed.at.subtree.1;
        at_y =
            transplant-read u fs z (node cy leaf y ky r) some_z (ap (λ (x : RbNode). x.parent) at_z)
              around (λ x. omega (arith, distinct x)) z (omega (arith, distinct z, hits_self z))
              y_ne_z
            ∙ at_z;
        first = tt;
        second =
            transplant-Holds u fs z (node cy leaf y ky r) some_z
              (ap (λ (x : RbNode). x.parent) at_z) around (λ x. omega (arith, distinct x)) z l
              (λ x. omega (arith, distinct x)) held_l;
        third = placed.at.subtree.3;
        around = placed.at.around;
        black_nil = placed.at.black_nil;
      }

  abbrev with_left : RbTree
  with_left = set_lchild (transplant u z y) y ((transplant u z y).nodes z).lchild

  left_parts :
      Pieces y z leaf l r fs some_y some_z distinct with_left
        (rb_node cy ky (address l) (address r) (above fs))
        (rb_node c k (address l) rz (above fs))
        z
        z
        y
        y
  left_parts =
      write_n y z leaf l r fs some_y some_z distinct (transplant u z y) _ _ _ _ _ _ _
        (rb_node cy ky (address l) (address r) (above fs)) parts
        (ap₂ (λ (i j : RbNode). record i { lchild = j.lchild }) parts.at_n parts.at_y)

  left_address : (with_left.nodes y).lchild ≡ address l
  left_address = ap (λ (x : RbNode). x.lchild) left_parts.at_n

  -- `y` is the node at the place.
  pub inherit-At : At (inherit (transplant u z y) z y) fs (node c l y ky r)
  inherit-At =
      let u3 = with_left in
      let u4 = set_parent u3 (u3.nodes y).lchild y in
      let adopts : adopt u3 (u3.nodes y).lchild y ≡ u4 =
        adopt-node u3 (u3.nodes y).lchild y (λ e. some_l (sym left_address ∙ e)) in
      let p4 =
        subst
          (λ (i : RbTree).
            Pieces y z leaf l r fs some_y some_z distinct i
              (rb_node cy ky (address l) (address r) (above fs))
              (rb_node c k (address l) rz (above fs)) z y y y)
          adopts
          (adopt_second y z leaf l r fs some_y some_z distinct u3 _ _ _ _ _ _ y (u3.nodes y).lchild
            left_parts left_address) in
      let p5 =
        write_n y z leaf l r fs some_y some_z distinct u4 _ _ _ _ _ _ _
          (rb_node c ky (address l) (address r) (above fs)) p4
          (ap₂ (λ (i j : RbNode). record i { color = j.color }) p4.at_n p4.at_y) in
      record {
        subtree = (some_y, p5.at_n, p5.second, p5.third);
        around = p5.around;
        distinct = λ x. omega (arith, distinct x);
        black_nil = p5.black_nil;
      }

  pub inherit-nil : (inherit (transplant u z y) z y).nodes nil ≡ u.nodes nil
  inherit-nil =
      let u2 = transplant u z y in
      let u3 = with_left in
      let u4 = set_parent u3 (u3.nodes y).lchild y in
      store-nil u4 y (record (u4.nodes y) { color = (u4.nodes z).color }) some_y
      ∙ store-nil u3 (u3.nodes y).lchild (record (u3.nodes (u3.nodes y).lchild) { parent = y })
          (λ e. some_l (sym left_address ∙ e))
      ∙ store-nil u2 y (record (u2.nodes y) { lchild = (u2.nodes z).lchild }) some_y
      ∙ transplant-nil u fs z (node cy leaf y ky r) some_z (ap (λ (x : RbNode). x.parent) at_z)
          around (λ x. omega (arith, distinct x)) some_y
