-- ===== src/RbTree/Shape/Moves.antt =====
-- Moves to a parent or a child of the subtree that an rb_tree is at, and writes to its top.
use mw_race_service_mesh_c.Base.{ℕ, ◌≡◌, ap, ◌∙◌, subst, [], ◌∷◌, arith}
use mw_race_service_mesh_c.Base.Int.{ℤ}
use mw_race_service_mesh_c.RbTree.{
  Color, black, RbNode, RbTree, nil, set_color, parent_of, grandparent_of,
}
use mw_race_service_mesh_c.RbTree.Shape.{
  Tree, leaf, node, Frame, from_left, from_right, Context, frame_address, frame_color, top_color,
  address, above, Holds, fill, plug, At,
}
use mw_race_service_mesh_c.RbTree.Shape.Writes.{
  update_self, update_ne, hits_self, Holds-update, HoldsContext-update,
}

module _ (t : RbTree) (fs : Context) (c : Color) (a : ℕ) (k : ℤ) where
  pub At-up_left : (l r : Tree) → At t (from_left c a k r ∷ fs) l → At t fs (node c l a k r)
  At-up_left l r at =
      let (some_a, at_a, other, up) = at.around in
      record {
        subtree = (some_a, at_a, at.subtree, other);
        around = up;
        distinct = λ x. omega (arith, at.distinct x);
        black_nil = at.black_nil;
      }

  pub At-up_right : (l r : Tree) → At t (from_right c a k l ∷ fs) r → At t fs (node c l a k r)
  At-up_right l r at =
      let (some_a, at_a, other, up) = at.around in
      record {
        subtree = (some_a, at_a, other, at.subtree);
        around = up;
        distinct = λ x. omega (arith, at.distinct x);
        black_nil = at.black_nil;
      }

  pub At-down_left : (l r : Tree) → At t fs (node c l a k r) → At t (from_left c a k r ∷ fs) l
  At-down_left l r at =
      let (some_a, at_a, left, right) = at.subtree in
      record {
        subtree = left;
        around = (some_a, at_a, right, at.around);
        distinct = λ x. omega (arith, at.distinct x);
        black_nil = at.black_nil;
      }

  pub At-down_right : (l r : Tree) → At t fs (node c l a k r) → At t (from_right c a k l ∷ fs) r
  At-down_right l r at =
      let (some_a, at_a, left, right) = at.subtree in
      record {
        subtree = right;
        around = (some_a, at_a, left, at.around);
        distinct = λ x. omega (arith, at.distinct x);
        black_nil = at.black_nil;
      }

  -- The top of the subtree gets a color.
  pub set_color-At :
      (l r : Tree) (c' : Color)
      → At t fs (node c l a k r)
      → At (set_color t a c') fs (node c' l a k r)
  set_color-At l r c' at =
      let (some_a, at_a, left, right) = at.subtree in
      let v = record (t.nodes a) { color = c' } in
      record {
        subtree = (
          some_a,
          update_self t.nodes a v ∙ ap (λ (x : RbNode). record x { color = c' }) at_a,
          Holds-update t.nodes a l a v (omega (arith, at.distinct a, hits_self a)) left,
          Holds-update t.nodes a r a v (omega (arith, at.distinct a, hits_self a)) right,
        );
        around =
            HoldsContext-update t.nodes t.root a fs a v (omega (arith, at.distinct a, hits_self a))
              at.around;
        distinct = λ x. omega (arith, at.distinct x);
        black_nil = ap (λ (x : RbNode). x.color) (update_ne t.nodes a nil v some_a) ∙ at.black_nil;
      }

-- From any place to the root.
pub At-plug : (t : RbTree) (fs : Context) (s : Tree) → At t fs s → At t [] (plug fs s)
At-plug t [] s at = at
At-plug t (from_left c a k r ∷ fs) s at =
    At-plug t fs (node c s a k r) (At-up_left t fs c a k s r at)
At-plug t (from_right c a k l ∷ fs) s at =
    At-plug t fs (node c l a k s) (At-up_right t fs c a k l s at)

pub At-up :
    (t : RbTree) (fs : Context) (f : Frame) (s : Tree) → At t (f ∷ fs) s → At t fs (fill f s)
At-up t fs (from_left c a k r) s at = At-up_left t fs c a k s r at
At-up t fs (from_right c a k l) s at = At-up_right t fs c a k l s at

pub At-down :
    (t : RbTree) (fs : Context) (f : Frame) (s : Tree) → At t fs (fill f s) → At t (f ∷ fs) s
At-down t fs (from_left c a k r) s at = At-down_left t fs c a k s r at
At-down t fs (from_right c a k l) s at = At-down_right t fs c a k l s at

-- A frame with another color.
abbrev pub paint : Color → Frame → Frame
paint c (from_left _ a k r) = from_left c a k r
paint c (from_right _ a k l) = from_right c a k l

-- A frame with another subtree on its other side.
abbrev pub beside : Tree → Frame → Frame
beside s (from_left c a k r) = from_left c a k s
beside s (from_right c a k l) = from_right c a k s

abbrev pub other : Frame → Tree
other (from_left c a k r) = r
other (from_right c a k l) = l

pub set_color-above :
    (t : RbTree) (fs : Context) (f : Frame) (s : Tree) (c' : Color)
    → At t (f ∷ fs) s
    → At (set_color t (frame_address f) c') (paint c' f ∷ fs) s
set_color-above t fs (from_left c a k r) s c' at =
    At-down_left (set_color t a c') fs c' a k s r
      (set_color-At t fs c a k s r c' (At-up_left t fs c a k s r at))
set_color-above t fs (from_right c a k l) s c' at =
    At-down_right (set_color t a c') fs c' a k l s
      (set_color-At t fs c a k l s c' (At-up_right t fs c a k l s at))

pub set_color-above_two :
    (t : RbTree) (fs : Context) (g f : Frame) (s : Tree) (c' : Color)
    → At t (g ∷ f ∷ fs) s
    → At (set_color t (frame_address f) c') (g ∷ paint c' f ∷ fs) s
set_color-above_two t fs g f s c' at =
    At-down (set_color t (frame_address f) c') (paint c' f ∷ fs) g s
      (set_color-above t fs f (fill g s) c' (At-up t (f ∷ fs) g s at))

-- The other subtree of a frame gets a color.
pub set_color-beside :
    (t : RbTree) (fs : Context) (f : Frame) (s : Tree) (c c' : Color) (l : Tree) (a : ℕ) (k : ℤ)
    (r : Tree)
    → other f ≡ node c l a k r
    → At t (f ∷ fs) s
    → At (set_color t a c') (beside (node c' l a k r) f ∷ fs) s
set_color-beside t fs (from_left cf b kb u) s c c' l a k r e at =
    let t' = set_color t a c' in
    let here = subst (λ x. At t (from_left cf b kb x ∷ fs) s) e at in
    let there =
      At-down_right t fs cf b kb s (node c l a k r)
        (At-up_left t fs cf b kb s (node c l a k r) here) in
    let after = set_color-At t (from_right cf b kb s ∷ fs) c a k l r c' there in
    At-down_left t' fs cf b kb s (node c' l a k r)
      (At-up_right t' fs cf b kb s (node c' l a k r) after)
set_color-beside t fs (from_right cf b kb u) s c c' l a k r e at =
    let t' = set_color t a c' in
    let here = subst (λ x. At t (from_right cf b kb x ∷ fs) s) e at in
    let there =
      At-down_left t fs cf b kb (node c l a k r) s
        (At-up_right t fs cf b kb (node c l a k r) s here) in
    let after = set_color-At t (from_left cf b kb s ∷ fs) c a k l r c' there in
    At-down_right t' fs cf b kb (node c' l a k r) s
      (At-up_left t' fs cf b kb (node c' l a k r) s after)

-- What is read on the way up.
pub parent_of-At :
    (t : RbTree) (fs : Context) (c : Color) (l : Tree) (a : ℕ) (k : ℤ) (r : Tree)
    → At t fs (node c l a k r)
    → parent_of t a ≡ above fs
parent_of-At t fs c l a k r at = ap (λ (x : RbNode). x.parent) at.subtree.1

pub parent_of-frame :
    (t : RbTree) (fs : Context) (f : Frame) (s : Tree)
    → At t (f ∷ fs) s
    → parent_of t (frame_address f) ≡ above fs
parent_of-frame t fs (from_left c a k r) s at = ap (λ (x : RbNode). x.parent) at.around.1
parent_of-frame t fs (from_right c a k l) s at = ap (λ (x : RbNode). x.parent) at.around.1

pub color-frame :
    (t : RbTree) (fs : Context) (f : Frame) (s : Tree)
    → At t (f ∷ fs) s
    → (t.nodes (frame_address f)).color ≡ frame_color f
color-frame t fs (from_left c a k r) s at = ap (λ (x : RbNode). x.color) at.around.1
color-frame t fs (from_right c a k l) s at = ap (λ (x : RbNode). x.color) at.around.1

pub grandparent_of-At :
    (t : RbTree) (fs : Context) (f : Frame) (c : Color) (l : Tree) (a : ℕ) (k : ℤ) (r : Tree)
    → At t (f ∷ fs) (node c l a k r)
    → grandparent_of t a ≡ above fs
grandparent_of-At t fs f c l a k r at =
    ap (parent_of t) (parent_of-At t (f ∷ fs) c l a k r at)
    ∙ parent_of-frame t fs f (node c l a k r) at

-- The colors of a subtree's root, the sentinel's among them.
pub color-address :
    (t : RbTree) (p : ℕ) (s : Tree)
    → Holds t.nodes p s
    → (t.nodes nil).color ≡ black
    → (t.nodes (address s)).color ≡ top_color s
color-address t p leaf held e = e
color-address t p (node c l a k r) held e = ap (λ (x : RbNode). x.color) held.1
