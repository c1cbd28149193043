-- ===== src/RbTree/Delete/Moved.antt =====
-- The case of rb_delete with two children.
use mw_race_service_mesh_c.Base.{
  ℕ, ◌+◌, ◌≤◌, ◌≡◌, ◌≢◌, refl, sym, ap, ◌∙◌, subst, true, [], ◌∷◌, arith, ◌==◌, ==_refl,
}
use mw_race_service_mesh_c.Base.Int.{ℤ}
use mw_race_service_mesh_c.RbTree.{Color, RbNode, RbTree, nil, store, set_parent, parent_of}
use mw_race_service_mesh_c.RbTree.Shape.{
  Tree, leaf, node, Frame, from_left, from_right, Context, address, above, Holds, hits, occurs,
  occurs_around, plug, At,
}
use mw_race_service_mesh_c.RbTree.Shape.Writes.{
  hits_self, update_self, update_ne, Holds-update, HoldsContext-update,
}
use mw_race_service_mesh_c.RbTree.Shape.Moves.{At-up_right, At-down_right}
use mw_race_service_mesh_c.RbTree.Delete.{transplant, inherit, Spliced, splice_least}
use mw_race_service_mesh_c.RbTree.Delete.Sentinel.{Below, Below-kept}
use mw_race_service_mesh_c.RbTree.Delete.Transplant.{
  address-free_around, set_parent-Holds, set_parent-black_nil,
}
use mw_race_service_mesh_c.RbTree.Delete.Inherit.{inherit-At, inherit-nil}

-- A subtree gets the parent that it has, and the sentinel that of a leaf.
pub set_parent-Below :
    (t : RbTree) (fs : Context) (s : Tree)
    → At t fs s
    → Below (set_parent t (address s) (above fs)) fs s
set_parent-Below t fs s at =
    let v = record (t.nodes (address s)) { parent = above fs } in
    record {
      at = record {
        subtree =
            set_parent-Holds t (above fs) (above fs) s (λ x. omega (arith, at.distinct x))
              at.subtree;
        around =
            HoldsContext-update t.nodes t.root (address s) fs (address s) v
              (address-free_around t.nodes t.root (address s) s fs at.around at.distinct) at.around;
        distinct = at.distinct;
        black_nil = set_parent-black_nil t (address s) (above fs) at.black_nil;
      };
      linked = ap (λ (x : RbNode). x.parent) (update_self t.nodes (address s) v);
    }

-- A write to a node that is nowhere.
pub store-At :
    (t : RbTree) (fs : Context) (s : Tree) (a : ℕ) (v : RbNode)
    → a ≢ nil
    → occurs a s ≡ 0
    → occurs_around a fs ≡ 0
    → At t fs s
    → At (store t a v) fs s
store-At t fs s a v some_a none_in none_around at = record {
  subtree = Holds-update t.nodes (above fs) s a v none_in at.subtree;
  around = HoldsContext-update t.nodes t.root (address s) fs a v none_around at.around;
  distinct = at.distinct;
  black_nil = ap (λ (x : RbNode). x.color) (update_ne t.nodes a nil v some_a) ∙ at.black_nil;
}

pub address-ne : (s : Tree) (a : ℕ) → a ≢ nil → occurs a s ≡ 0 → address s ≢ a
address-ne leaf a some_a free e = some_a (sym e)
address-ne (node c l b k r) a some_a free e =
    absurd (omega (arith, free, hits_self b, ap (λ i. hits i b) e))

plug-some :
    (h : ℕ → RbNode) (p : ℕ) (gs : Context) (c : Color) (l : Tree) (a : ℕ) (k : ℤ) (r : Tree)
    → Holds h p (plug gs (node c l a k r))
    → address (plug gs (node c l a k r)) ≢ nil
plug-some h p [] c l a k r held = held.0
plug-some h p (from_left c' a' k' o ∷ gs) c l a k r held = plug-some h p gs c' _ a' k' o held
plug-some h p (from_right c' a' k' o ∷ gs) c l a k r held = plug-some h p gs c' o a' k' _ held

pub plug_frame-some :
    (h : ℕ → RbNode) (p : ℕ) (g : Frame) (gs : Context) (s : Tree)
    → Holds h p (plug (g ∷ gs) s)
    → address (plug (g ∷ gs) s) ≢ nil
plug_frame-some h p (from_left c a k o) gs s held = plug-some h p gs c s a k o held
plug_frame-some h p (from_right c a k o) gs s held = plug-some h p gs c o a k s held

-- The node that moved left its place to its right child, and has the place of the one that went.
pub record Replaced (sp : Spliced) (fs : Context) (s : Tree) (c : Color) : Type 0 where
  pub below : Below sp.tree fs s
  pub place : sp.replacing ≡ address s
  pub color : sp.ori_color ≡ c

module _ (t : RbTree) (fs : Context) (z : ℕ) (c : Color) (k : ℤ) (l : Tree) (y : ℕ) (cy : Color)
    (ky : ℤ) (r : Tree) (some_l : address l ≢ nil) where
  -- The least node is the right child.
  pub splice_child-Replaced :
      At t (from_right c z k l ∷ fs) (node cy leaf y ky r)
      → Replaced (splice_least t z y) (from_right c y ky l ∷ fs) r cy
  unfolding splice_least
  splice_child-Replaced at =
      let t1 = set_parent t (address r) y in
      let child : (t.nodes y).rchild ≡ address r = ap (λ (x : RbNode). x.rchild) at.subtree.1 in
      let is_child : (parent_of t y == z) ≡ true =
        ap (λ i. i == z) (ap (λ (x : RbNode). x.parent) at.subtree.1) ∙ ==_refl z in
      let lower =
        set_parent-Below t (from_right cy y ky leaf ∷ from_right c z k l ∷ fs) r
          (At-down_right t (from_right c z k l ∷ fs) cy y ky leaf r at) in
      let at1 = At-up_right t1 (from_right c z k l ∷ fs) cy y ky leaf r lower.at in
      let distinct : (x : ℕ)
          → hits x y + hits x z + occurs x leaf + occurs x l + occurs x r + occurs_around x fs ≤ 1 =
        λ x. omega (arith, at.distinct x) in
      let t' = inherit (transplant t1 z y) z y in
      let at' =
        inherit-At t1 fs z c k l y y cy ky r z at1.around.0 at1.subtree.0 some_l distinct
          at1.around.1 at1.around.3 at1.around.2 at1.subtree at1.black_nil in
      let kept =
        inherit-nil t1 fs z c k l y y cy ky r z at1.around.0 at1.subtree.0 some_l distinct
          at1.around.1 at1.around.3 at1.around.2 at1.subtree at1.black_nil in
      let below =
        Below-kept t1 t' (from_right cy y ky leaf ∷ from_right c z k l ∷ fs)
          (from_right c y ky l ∷ fs) r lower kept refl (At-down_right t' fs c y ky l r at') in
      rw is_child (record {
        below =
            subst
              (λ i.
                Below (inherit (transplant (set_parent t i y) z y) z y) (from_right c y ky l ∷ fs)
                  r)
              (sym child) below;
        place = child;
        color = ap (λ (x : RbNode). x.color) at.subtree.1;
      })
