-- ===== src/RbTree/Fixup.antt =====
-- The steps of rb_insert_fixup on the tree that the nodes make up.
pub mod Rounds
pub mod Cases
pub mod Climb
use mw_race_service_mesh_c.Base.{
  ℕ, zero, suc, ◌+◌, ◌-◌, ◌*◌, ◌/◌, ◌%◌, ◌^◌, ◌≤◌, ◌<◌, bit_and, bit_or, min, ◌≡◌, ◌≢◌, refl, sym,
  ap, ap₂, ◌∙◌, subst, ◌↔◌, ◌⊎◌, inl, inr, Bool, true, false, not, ◌&&◌, ◌||◌, Option, none, some,
  some-injective, none-ne-some, List, [], ◌∷◌, ◌++◌, append_assoc, append-nil, arith, ltb, leb,
  ◌==◌, if◌then◌else◌, ltb→lt, not_ltb→le, lt→ltb, le→not_ltb, leb→le, not_leb→lt, ==_iff, ==_refl,
  not_==→≢, le→leb, lt→not_leb, not_zero, pos→not_zero, both, not_both, ≢→not_==, true≢false,
  Bool-cases, Option-cases, length, get_elem?, get_or, set, take, drop, replicate, write_at, All,
  All-append, length-append, length-set, set-set, get_or-set_self, get_or-set_ne, length-take,
  length-drop, length-replicate,
}
use mw_race_service_mesh_c.Base.Int.{ℤ}
use mw_race_service_mesh_c.RbTree.{
  Color, red, black, is_red, RbNode, RbTree, nil, set_color, parent_of, grandparent_of, left_rotate,
  right_rotate, recolor, swap_colors, settle_left, settle_right, fixup_left, fixup_right,
  fixup_round,
}
use mw_race_service_mesh_c.RbTree.Shape.{
  Tree, leaf, node, Frame, from_left, from_right, Context, address, frame_address, frame_color,
  top_color, above, Holds, hits, occurs, occurs_frame, occurs_around, fill, plug, At,
}
use mw_race_service_mesh_c.RbTree.Shape.Writes.{hits_self, address-occurs}
use mw_race_service_mesh_c.RbTree.Shape.Moves.{
  At-up, At-down, At-up_left, At-up_right, At-down_left, At-down_right, set_color-At, paint, beside,
  other, set_color-above, set_color-above_two, set_color-beside, parent_of-At, parent_of-frame,
  color-frame, grandparent_of-At, color-address,
}
use mw_race_service_mesh_c.RbTree.Rotate.{left_rotate-At, right_rotate-At}

address-fill : (f : Frame) (s : Tree) → address (fill f s) ≡ frame_address f
address-fill (from_left c a k r) s = refl
address-fill (from_right c a k l) s = refl

occurs-fill_self : (f : Frame) (s : Tree) → 0 < occurs (frame_address f) (fill f s)
occurs-fill_self (from_left c a k r) s = omega (arith, hits_self a)
occurs-fill_self (from_right c a k l) s = omega (arith, hits_self a)

frame-ne-nil :
    (t : RbTree) (fs : Context) (f : Frame) (s : Tree) → At t (f ∷ fs) s → frame_address f ≢ nil
frame-ne-nil t fs (from_left c a k r) s at = at.around.0
frame-ne-nil t fs (from_right c a k l) s at = at.around.0

-- The round looks at a red node below two frames.
module _ (t : RbTree) (f : Frame) (c : Color) (g : ℕ) (kg : ℤ) (u : Tree) (rest : Context)
    (l : Tree) (z : ℕ) (k : ℤ) (r : Tree) where
  pub goes_left :
      At t (f ∷ from_left c g kg u ∷ rest) (node red l z k r) → fixup_round t z ≡ fixup_left t z
  unfolding fixup_round
  goes_left at =
      let s = node red l z k r in
      let up = At-up t (from_left c g kg u ∷ rest) f s at in
      let same : (parent_of t z == (t.nodes (grandparent_of t z)).lchild) ≡ true =
        ap₂ (λ (a b : ℕ). a == (t.nodes b).lchild) (parent_of-At t _ red l z k r at)
          (grandparent_of-At t (from_left c g kg u ∷ rest) f red l z k r at)
        ∙ ap (λ (x : RbNode). frame_address f == x.lchild) up.around.1
        ∙ ap (λ (x : ℕ). frame_address f == x) (address-fill f s)
        ∙ ==_refl (frame_address f) in
      rw same refl

  pub goes_right :
      At t (f ∷ from_right c g kg u ∷ rest) (node red l z k r) → fixup_round t z ≡ fixup_right t z
  unfolding fixup_round
  goes_right at =
      let s = node red l z k r in
      let up = At-up t (from_right c g kg u ∷ rest) f s at in
      let p = frame_address f in
      let apart : p ≢ address u = λ e. absurd (
        omega (
          arith,
          occurs-fill_self f s,
          up.distinct p,
          address-occurs t.nodes g u up.around.2 (λ e'. frame-ne-nil t _ f s at (e ∙ e')),
          ap (λ x. occurs x u) e,
        )) in
      let ne : (parent_of t z == (t.nodes (grandparent_of t z)).lchild) ≡ false =
        ap₂ (λ (a b : ℕ). a == (t.nodes b).lchild) (parent_of-At t _ red l z k r at)
          (grandparent_of-At t (from_right c g kg u ∷ rest) f red l z k r at)
        ∙ ap (λ (x : RbNode). p == x.lchild) up.around.1
        ∙ ≢→not_== p (address u) apart in
      rw ne refl

  -- The uncle.
  pub uncle_left :
      At t (f ∷ from_left c g kg u ∷ rest) (node red l z k r)
      → (t.nodes (grandparent_of t z)).rchild ≡ address u
  uncle_left at =
      ap (λ (b : ℕ). (t.nodes b).rchild)
        (grandparent_of-At t (from_left c g kg u ∷ rest) f red l z k r at)
      ∙ ap (λ (x : RbNode). x.rchild)
          (At-up t (from_left c g kg u ∷ rest) f (node red l z k r) at).around.1

  pub uncle_right :
      At t (f ∷ from_right c g kg u ∷ rest) (node red l z k r)
      → (t.nodes (grandparent_of t z)).lchild ≡ address u
  uncle_right at =
      ap (λ (b : ℕ). (t.nodes b).lchild)
        (grandparent_of-At t (from_right c g kg u ∷ rest) f red l z k r at)
      ∙ ap (λ (x : RbNode). x.lchild)
          (At-up t (from_right c g kg u ∷ rest) f (node red l z k r) at).around.1

  pub uncle_color_left :
      At t (f ∷ from_left c g kg u ∷ rest) (node red l z k r)
      → (t.nodes (t.nodes (grandparent_of t z)).rchild).color ≡ top_color u
  uncle_color_left at =
      let up = At-up t (from_left c g kg u ∷ rest) f (node red l z k r) at in
      ap (λ a. (t.nodes a).color) (uncle_left at) ∙ color-address t g u up.around.2 up.black_nil

  pub uncle_color_right :
      At t (f ∷ from_right c g kg u ∷ rest) (node red l z k r)
      → (t.nodes (t.nodes (grandparent_of t z)).lchild).color ≡ top_color u
  uncle_color_right at =
      let up = At-up t (from_right c g kg u ∷ rest) f (node red l z k r) at in
      ap (λ a. (t.nodes a).color) (uncle_right at) ∙ color-address t g u up.around.2 up.black_nil

-- The case of a red uncle.
module _ (t : RbTree) (f1 f2 : Frame) (rest : Context) (l : Tree) (z : ℕ) (k : ℤ) (r : Tree)
    (c : Color) (ul : Tree) (ua : ℕ) (uk : ℤ) (ur : Tree)
    (at : At t (f1 ∷ f2 ∷ rest) (node red l z k r)) (is_uncle : other f2 ≡ node c ul ua uk ur) where
  abbrev s : Tree
  s = node red l z k r

  abbrev f2' : Frame
  f2' = beside (node black ul ua uk ur) f2

  pub recolor-At : At (recolor t z ua).0 (paint black f1 ∷ paint red f2' ∷ rest) s
  unfolding recolor
  recolor-At =
      let t1 = set_color t (parent_of t z) black in
      let one =
        subst (λ a. At (set_color t a black) (paint black f1 ∷ f2 ∷ rest) s)
          (sym (parent_of-At t (f1 ∷ f2 ∷ rest) red l z k r at))
          (set_color-above t (f2 ∷ rest) f1 s black at) in
      let t2 = set_color t1 ua black in
      let two = At-down t2 (f2' ∷ rest) (paint black f1) s (
        set_color-beside t1 rest f2 (fill (paint black f1) s) c black ul ua uk ur is_uncle
          (At-up t1 (f2 ∷ rest) (paint black f1) s one)) in
      subst (λ a. At (set_color t2 a red) (paint black f1 ∷ paint red f2' ∷ rest) s)
        (sym (grandparent_of-At t2 (f2' ∷ rest) (paint black f1) red l z k r two))
        (set_color-above_two t2 rest (paint black f1) f2' s red two)

  pub recolor-next : (recolor t z ua).1 ≡ frame_address (paint red f2')
  unfolding recolor
  recolor-next =
      grandparent_of-At (recolor t z ua).0 (paint red f2' ∷ rest) (paint black f1) red l z k r
        recolor-At

-- The third case.
pub swap_colors-At :
    (t : RbTree) (f1 f2 : Frame) (rest : Context) (l : Tree) (z : ℕ) (k : ℤ) (r : Tree)
    → At t (f1 ∷ f2 ∷ rest) (node red l z k r)
    → At (swap_colors t z) (paint black f1 ∷ paint red f2 ∷ rest) (node red l z k r)
unfolding swap_colors
swap_colors-At t f1 f2 rest l z k r at =
    let s = node red l z k r in
    let t1 = set_color t (parent_of t z) black in
    let one =
      subst (λ a. At (set_color t a black) (paint black f1 ∷ f2 ∷ rest) s)
        (sym (parent_of-At t (f1 ∷ f2 ∷ rest) red l z k r at))
        (set_color-above t (f2 ∷ rest) f1 s black at) in
    subst (λ a. At (set_color t1 a red) (paint black f1 ∷ paint red f2 ∷ rest) s)
      (sym (grandparent_of-At t1 (f2 ∷ rest) (paint black f1) red l z k r one))
      (set_color-above_two t1 rest (paint black f1) f2 s red one)

module _ (t : RbTree) (p : ℕ) (kp : ℤ) (b : Tree) (g : ℕ) (kg : ℤ) (u : Tree) (rest : Context)
    (l : Tree) (z : ℕ) (k : ℤ) (r : Tree) where
  pub settle_left-At :
      At t (from_left red p kp b ∷ from_left black g kg u ∷ rest) (node red l z k r)
      → At (settle_left t z) (from_left black p kp (node red b g kg u) ∷ rest) (node red l z k r)
  unfolding settle_left
  settle_left-At at =
      let s = node red l z k r in
      let t1 = swap_colors t z in
      let swapped =
        swap_colors-At t (from_left red p kp b) (from_left black g kg u) rest l z k r at in
      let up =
        At-up_left t1 rest red g kg (node black s p kp b) u
          (At-up_left t1 (from_left red g kg u ∷ rest) black p kp s b swapped) in
      let turned = right_rotate-At t1 rest black red s p kp b g kg u up in
      subst (λ a. At (right_rotate t1 a).1 (from_left black p kp (node red b g kg u) ∷ rest) s)
        (sym (
          grandparent_of-At t1 (from_left red g kg u ∷ rest) (from_left black p kp b) red l z k r
            swapped))
        (At-down_left (right_rotate t1 g).1 rest black p kp s (node red b g kg u) turned)

  pub settle_right-At :
      At t (from_right red p kp b ∷ from_right black g kg u ∷ rest) (node red l z k r)
      → At (settle_right t z) (from_right black p kp (node red u g kg b) ∷ rest) (node red l z k r)
  unfolding settle_right
  settle_right-At at =
      let s = node red l z k r in
      let t1 = swap_colors t z in
      let swapped =
        swap_colors-At t (from_right red p kp b) (from_right black g kg u) rest l z k r at in
      let up =
        At-up_right t1 rest red g kg u (node black b p kp s)
          (At-up_right t1 (from_right red g kg u ∷ rest) black p kp b s swapped) in
      let turned = left_rotate-At t1 rest red black u g kg b p kp s up in
      subst (λ a. At (left_rotate t1 a).1 (from_right black p kp (node red u g kg b) ∷ rest) s)
        (sym (
          grandparent_of-At t1 (from_right red g kg u ∷ rest) (from_right black p kp b) red l z k r
            swapped))
        (At-down_right (left_rotate t1 g).1 rest black p kp (node red u g kg b) s turned)
