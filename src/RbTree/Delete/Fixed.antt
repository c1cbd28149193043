-- ===== src/RbTree/Delete/Fixed.antt =====
-- The loop of rb_delete_fixup.
use mw_race_service_mesh_c.Base.{
  ℕ, zero, suc, ◌≤◌, ◌<◌, ◌≡◌, ◌≢◌, refl, sym, ap, ◌∙◌, subst, inl, inr, true, false, Option, some,
  [], ◌∷◌, arith, ◌==◌, ==_refl, Bool-cases, length,
}
use mw_race_service_mesh_c.Base.Int.{ℤ}
use mw_race_service_mesh_c.RbTree.{
  Color, red, black, is_red, RbNode, RbTree, nil, set_color, parent_of,
}
use mw_race_service_mesh_c.RbTree.Shape.{
  Tree, leaf, node, Frame, from_left, from_right, Context, address, occurs_around, plug,
  HoldsContext, At,
}
use mw_race_service_mesh_c.RbTree.Shape.Writes.{hits_self, update_self}
use mw_race_service_mesh_c.RbTree.Shape.Moves.{At-plug, set_color-At}
use mw_race_service_mesh_c.RbTree.Balance.{
  Balanced, bottom, red_node, black_node, Hole, black_right, red_right, plug-IsBalanced,
}
use mw_race_service_mesh_c.RbTree.Fixup.Rounds.{Same, Same-refl, Same-trans, Same-plug}
use mw_race_service_mesh_c.RbTree.Insert.Inserted.{Fixed, fixed}
use mw_race_service_mesh_c.RbTree.Delete.{
  has_red, lighten_left, lighten_right, lighten, delete_fixup,
}
use mw_race_service_mesh_c.RbTree.Delete.Sentinel.{Below}
use mw_race_service_mesh_c.RbTree.Delete.Light.{
  Light, darkens, lacks, Lighter, Lightens, lightens, address-apart, has_red-Holds,
}
use mw_race_service_mesh_c.RbTree.Delete.Left.Steps.{lighten_left-Lightens}
use mw_race_service_mesh_c.RbTree.Delete.Right.Steps.{lighten_right-Lightens}

-- Which child the node is.
module _ (t : RbTree) (c : Color) (p : ℕ) (k : ℤ) (o : Tree) (rest : Context) (s : Tree) where
  is_left :
      Below t (from_left c p k o ∷ rest) s → lighten t (address s) ≡ lighten_left t (address s)
  unfolding lighten
  is_left below =
      let same : (address s == (t.nodes (parent_of t (address s))).lchild) ≡ true =
        ap (λ (i : ℕ). address s == (t.nodes i).lchild) below.linked
        ∙ ap (λ (x : RbNode). address s == x.lchild) below.at.around.1
        ∙ ==_refl (address s) in
      rw same refl

  is_right :
      Below t (from_right c p k o ∷ rest) s
      → (address s == address o) ≡ false
      → lighten t (address s) ≡ lighten_right t (address s)
  unfolding lighten
  is_right below apart =
      let other : (address s == (t.nodes (parent_of t (address s))).lchild) ≡ false =
        ap (λ (i : ℕ). address s == (t.nodes i).lchild) below.linked
        ∙ ap (λ (x : RbNode). address s == x.lchild) below.at.around.1
        ∙ apart in
      rw other refl

-- The other child of a right child's parent is a node.
right-apart :
    (t : RbTree) (c : Color) (p : ℕ) (k : ℤ) (o : Tree) (rest : Context) (s : Tree) (n : ℕ)
    → At t (from_right c p k o ∷ rest) s
    → Hole black (suc n) (from_right c p k o ∷ rest)
    → (address s == address o) ≡ false
right-apart t black p k _ rest s n at (black_right (black_node {a = a} bl br) up) =
    address-apart t _ s a at at.around.2.0 (omega (arith, hits_self a))
right-apart t black p k _ rest s n at (black_right (red_node {a = a} bl br) up) =
    address-apart t _ s a at at.around.2.0 (omega (arith, hits_self a))
right-apart t red p k _ rest s n at (red_right (black_node {a = a} bl br) up) =
    address-apart t _ s a at at.around.2.0 (omega (arith, hits_self a))

-- A round.
lighten-Lightens :
    (t : RbTree) (f : Frame) (rest : Context) (s : Tree) (n : ℕ)
    → Below t (f ∷ rest) s
    → Hole black (suc n) (f ∷ rest)
    → Balanced black n s
    → Lightens (plug (f ∷ rest) s) (length (f ∷ rest)) (lighten t (address s))
lighten-Lightens t (from_left c p k o) rest s n below hole balanced =
    subst (Lightens (plug (from_left c p k o ∷ rest) s) (length (from_left c p k o ∷ rest)))
      (sym (is_left t c p k o rest s below))
      (lighten_left-Lightens t p k rest s n balanced c o below hole)
lighten-Lightens t (from_right c p k o) rest s n below hole balanced =
    subst (Lightens (plug (from_right c p k o ∷ rest) s) (length (from_right c p k o ∷ rest)))
      (sym (is_right t c p k o rest s below (right-apart t c p k o rest s n below.at hole)))
      (lighten_right-Lightens t p k rest s n balanced c o below hole)

-- The root is above.
pub root-occurs :
    (h : ℕ → RbNode) (root x : ℕ) (f : Frame) (fs : Context)
    → HoldsContext h root x (f ∷ fs)
    → 0 < occurs_around root (f ∷ fs)
root-occurs h root x (from_left c a k o) [] held =
    omega (arith, hits_self a, ap (λ i. occurs_around i (from_left c a k o ∷ [])) held.3)
root-occurs h root x (from_right c a k o) [] held =
    omega (arith, hits_self a, ap (λ i. occurs_around i (from_right c a k o ∷ [])) held.3)
root-occurs h root x (from_left c a k o) (g ∷ fs) held =
    omega (arith, root-occurs h root a g fs held.3)
root-occurs h root x (from_right c a k o) (g ∷ fs) held =
    omega (arith, root-occurs h root a g fs held.3)

root-some :
    (h : ℕ → RbNode) (root x : ℕ) (f : Frame) (fs : Context)
    → HoldsContext h root x (f ∷ fs)
    → root ≢ nil
root-some h root x (from_left c a k o) [] held = λ e. held.0 (sym held.3 ∙ e)
root-some h root x (from_right c a k o) [] held = λ e. held.0 (sym held.3 ∙ e)
root-some h root x (from_left c a k o) (g ∷ fs) held = root-some h root a g fs held.3
root-some h root x (from_right c a k o) (g ∷ fs) held = root-some h root a g fs held.3

-- The end of the loop.
darkened-Fixed :
    (t : RbTree) (fs : Context) (l : Tree) (a : ℕ) (k : ℤ) (r : Tree) (n : ℕ) {cl cr : Color}
    → At t fs (node red l a k r)
    → Hole black (suc n) fs
    → Balanced cl n l
    → Balanced cr n r
    → Fixed (plug fs (node red l a k r)) (some (set_color t a black))
darkened-Fixed t fs l a k r n at hole bl br =
    let s = node black l a k r in
    fixed (set_color t a black) (plug fs s)
      (At-plug (set_color t a black) fs s (set_color-At t fs red a k l r black at))
      (plug-IsBalanced hole (black_node bl br))
      (Same-plug fs s (node red l a k r) (record { same_keys = refl; same_nodes = λ x. refl }))

root-Fixed :
    (t : RbTree) (s : Tree) (n : ℕ)
    → At t [] s
    → Balanced black n s
    → Fixed s (some (set_color t (address s) black))
root-Fixed t _ _ at bottom =
    fixed (set_color t nil black) leaf
      (record {
        subtree = tt;
        around = at.around;
        distinct = at.distinct;
        black_nil =
            ap (λ (x : RbNode). x.color)
              (update_self t.nodes nil (record (t.nodes nil) { color = black }));
      })
      (record { height = 0; balanced = bottom }) (Same-refl leaf)
root-Fixed t _ _ at (black_node {a = a} {k = k} {l = l} {r = r} bl br) =
    fixed (set_color t a black) (node black l a k r) (set_color-At t [] black a k l r black at)
      (record { height = _; balanced = black_node bl br }) (Same-refl (node black l a k r))

-- What the loop tests.
module _ (fuel : ℕ) (t : RbTree) (x : ℕ) where
  stops_at_red : has_red t x ≡ true → delete_fixup (suc fuel) t x ≡ some (set_color t x black)
  unfolding delete_fixup
  stops_at_red e = elim (Bool-cases (x == t.root)) [
    | inl h ↦ rw e (rw h refl)
    | inr h ↦ rw e (rw h refl)
  ]

  stops_at_root : (x == t.root) ≡ true → delete_fixup (suc fuel) t x ≡ some (set_color t x black)
  unfolding delete_fixup
  stops_at_root e = rw e refl

  goes_on :
      (x == t.root) ≡ false
      → has_red t x ≡ false
      → delete_fixup (suc fuel) t x ≡ delete_fixup fuel (lighten t x).0 (lighten t x).1
  unfolding delete_fixup
  goes_on e f = rw e (rw f refl)

abbrev pub RestoresAll : ℕ → Type 0
RestoresAll fuel =
    (t : RbTree) (fs : Context) (s : Tree) (n m : ℕ)
    → Lighter t fs s n m
    → m < fuel
    → Fixed (plug fs s) (delete_fixup fuel t (address s))

Fixed-Same : (a b : Tree) (o : Option RbTree) → Same a b → Fixed a o → Fixed b o
Fixed-Same a b _ same (fixed t s at balanced e) = fixed t s at balanced (Same-trans s a b e same)

go_on :
    (fuel m : ℕ) (whole : Tree) (p : RbTree × ℕ)
    → RestoresAll fuel
    → m ≤ fuel
    → Lightens whole m p
    → Fixed whole (delete_fixup fuel p.0 p.1)
go_on fuel m whole _ ih enough (lightens t fs s n rounds st same fewer) =
    Fixed-Same (plug fs s) whole (delete_fixup fuel t (address s)) same
      (ih t fs s n rounds st (omega arith))

restore_step :
    (fuel : ℕ) (t : RbTree) (fs : Context) (s : Tree) (n m : ℕ)
    → RestoresAll fuel
    → Below t fs s
    → Hole black (suc n) fs
    → Light fs n m s
    → m < suc fuel
    → Fixed (plug fs s) (delete_fixup (suc fuel) t (address s))
restore_step fuel t fs _ n _ ih below hole (darkens {l = l} {r = r} {a = a} {k = k} bl br) enough =
    subst (Fixed (plug fs (node red l a k r)))
      (sym (stops_at_red fuel t a (ap (λ (x : RbNode). is_red x.color) below.at.subtree.1)))
      (darkened-Fixed t fs l a k r n below.at hole bl br)
restore_step fuel t [] s n _ ih below hole (lacks balanced) enough =
    subst (Fixed s)
      (sym (
        stops_at_root fuel t (address s)
          (ap (λ (i : ℕ). address s == i) below.at.around ∙ ==_refl (address s))))
      (root-Fixed t s n below.at balanced)
restore_step fuel t (f ∷ rest) s n _ ih below hole (lacks balanced) enough =
    let around = below.at.around in
    subst (Fixed (plug (f ∷ rest) s))
      (sym (
        goes_on fuel t (address s)
          (address-apart t (f ∷ rest) s t.root below.at
            (root-some t.nodes t.root (address s) f rest around)
            (root-occurs t.nodes t.root (address s) f rest around))
          (has_red-Holds t _ s black n below.at.subtree below.at.black_nil balanced)))
      (go_on fuel (length (f ∷ rest)) (plug (f ∷ rest) s) (lighten t (address s)) ih (omega arith)
        (lighten-Lightens t f rest s n below hole balanced))

-- rb_delete_fixup balances a tree with a subtree that lacks a black node on its ways down.
pub delete_fixup-Fixed : (fuel : ℕ) → RestoresAll fuel
delete_fixup-Fixed zero t fs s n m st enough = absurd (omega arith)
delete_fixup-Fixed (suc fuel) t fs s n m st enough =
    restore_step fuel t fs s n m (delete_fixup-Fixed fuel) st.below st.hole st.light enough
