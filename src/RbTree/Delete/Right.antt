-- ===== src/RbTree/Delete/Right.antt =====
-- The steps of rb_delete_fixup at a right child, on the tree that the nodes make up.
pub mod Rounds
pub mod Steps
use mw_race_service_mesh_c.Base.{ℕ, ◌≡◌, ◌≢◌, refl, sym, ap, ap₂, ◌∙◌, subst, ◌∷◌}
use mw_race_service_mesh_c.Base.Int.{ℤ}
use mw_race_service_mesh_c.RbTree.{
  Color, red, black, RbNode, RbTree, nil, set_color, right_rotate, left_rotate, parent_of,
}
use mw_race_service_mesh_c.RbTree.Shape.{
  Tree, node, Frame, from_right, from_left, Context, address, At,
}
use mw_race_service_mesh_c.RbTree.Shape.Moves.{
  At-up_right, At-up_left, At-down_right, At-down_left, set_color-At, set_color-above,
  set_color-beside,
}
use mw_race_service_mesh_c.RbTree.Rotate.{right_rotate-At, left_rotate-At}
use mw_race_service_mesh_c.RbTree.Delete.{raise_right, turn_inner_right, share_right}
use mw_race_service_mesh_c.RbTree.Delete.Sentinel.{
  store-nil, right_rotate-nil, left_rotate-nil, Below, Below-kept,
}

-- The node with one black too many, its parent and its brother.
module _ (t : RbTree) (cp : Color) (p : ℕ) (kp : ℤ) (cw : Color) (wi : Tree) (w : ℕ) (kw : ℤ)
    (wo : Tree) (rest : Context) (s : Tree)
    (here : Below t (from_right cp p kp (node cw wo w kw wi) ∷ rest) s) where
  some_parent : p ≢ nil
  some_parent = here.at.around.0

  some_brother : w ≢ nil
  some_brother = here.at.around.2.0

  pub brother_right : (t.nodes (parent_of t (address s))).lchild ≡ w
  brother_right =
      ap (λ (i : ℕ). (t.nodes i).lchild) here.linked
      ∙ ap (λ (x : RbNode). x.lchild) here.at.around.1

  -- A write of a color to the brother and to the parent.
  pub paint_brother_right :
      (c : Color) → Below (set_color t w c) (from_right cp p kp (node c wo w kw wi) ∷ rest) s
  paint_brother_right c =
      let fs = from_right cp p kp (node cw wo w kw wi) ∷ rest in
      Below-kept t (set_color t w c) fs (from_right cp p kp (node c wo w kw wi) ∷ rest) s here
        (store-nil t w (record (t.nodes w) { color = c }) some_brother) refl
        (set_color-beside t rest (from_right cp p kp (node cw wo w kw wi)) s cw c wo w kw wi refl
          here.at)

  pub paint_parent_right :
      (c : Color)
      → Below
          (set_color t (parent_of t (address s)) c)
          (from_right c p kp (node cw wo w kw wi) ∷ rest)
          s
  paint_parent_right c =
      let fs = from_right cp p kp (node cw wo w kw wi) ∷ rest in
      let fs' = from_right c p kp (node cw wo w kw wi) ∷ rest in
      subst (λ i. Below (set_color t i c) fs' s) (sym here.linked)
        (Below-kept t (set_color t p c) fs fs' s here
          (store-nil t p (record (t.nodes p) { color = c }) some_parent) refl
          (set_color-above t rest (from_right cp p kp (node cw wo w kw wi)) s c here.at))

  -- The rotation at the parent.
  pub turn_parent_right-At :
      At (right_rotate t (parent_of t (address s))).1 rest (node cw wo w kw (node cp wi p kp s))
  turn_parent_right-At =
      subst (λ i. At (right_rotate t i).1 rest (node cw wo w kw (node cp wi p kp s)))
        (sym here.linked)
        (right_rotate-At t rest cw cp wo w kw wi p kp s
          (At-up_right t rest cp p kp (node cw wo w kw wi) s here.at))

  turn_parent_right-Below :
      Below
        (right_rotate t (parent_of t (address s))).1
        (from_right cp p kp wi ∷ from_right cw w kw wo ∷ rest)
        s
  turn_parent_right-Below =
      let u = (right_rotate t (parent_of t (address s))).1 in
      Below-kept t u (from_right cp p kp (node cw wo w kw wi) ∷ rest)
        (from_right cp p kp wi ∷ from_right cw w kw wo ∷ rest) s here
        (right_rotate-nil t (parent_of t (address s)) (λ e. some_parent (sym here.linked ∙ e))) refl
        (At-down_right u (from_right cw w kw wo ∷ rest) cp p kp wi s
          (At-down_right u rest cw w kw wo (node cp wi p kp s) turn_parent_right-At))

-- The first case: a red brother is raised above the parent.
pub raise_right-Below :
    (t : RbTree) (cp : Color) (p : ℕ) (kp : ℤ) (cw : Color) (wi : Tree) (w : ℕ) (kw : ℤ) (wo : Tree)
    (rest : Context) (s : Tree)
    → Below t (from_right cp p kp (node cw wo w kw wi) ∷ rest) s
    → Below
        (raise_right t (address s) w)
        (from_right red p kp wi ∷ from_right black w kw wo ∷ rest)
        s
unfolding raise_right
raise_right-Below t cp p kp cw wi w kw wo rest s here =
    let t1 = set_color t w black in
    let one = paint_brother_right t cp p kp cw wi w kw wo rest s here black in
    let t2 = set_color t1 (parent_of t1 (address s)) red in
    let two = paint_parent_right t1 cp p kp black wi w kw wo rest s one red in
    turn_parent_right-Below t2 red p kp black wi w kw wo rest s two

-- The third case: the red inner child of the brother takes its place.
pub turn_inner_right-Below :
    (t : RbTree) (cp : Color) (p : ℕ) (kp : ℤ) (cw cq : Color) (a : Tree) (q : ℕ) (kq : ℤ)
    (b : Tree) (w : ℕ) (kw : ℤ) (wo : Tree) (rest : Context) (s : Tree)
    → Below t (from_right cp p kp (node cw wo w kw (node cq b q kq a)) ∷ rest) s
    → Below
        (turn_inner_right t w)
        (from_right cp p kp (node black (node red wo w kw b) q kq a) ∷ rest)
        s
unfolding turn_inner_right
turn_inner_right-Below t cp p kp cw cq a q kq b w kw wo rest s here =
    let fs = from_left cp p kp s ∷ rest in
    let at0 =
      At-down_left t rest cp p kp (node cw wo w kw (node cq b q kq a)) s
        (At-up_right t rest cp p kp (node cw wo w kw (node cq b q kq a)) s here.at) in
    let t1 = set_color t w red in
    let at1 = set_color-At t fs cw w kw wo (node cq b q kq a) red at0 in
    let child : (t1.nodes w).rchild ≡ q = ap (λ (x : RbNode). x.rchild) at1.subtree.1 in
    let t2 = set_color t1 q black in
    let at2 = At-up_right t2 fs red w kw wo (node black b q kq a) (
      set_color-At t1 (from_right red w kw wo ∷ fs) cq q kq b a black
        (At-down_right t1 fs red w kw wo (node cq b q kq a) at1)) in
    let t3 = (left_rotate t2 w).1 in
    let at3 = left_rotate-At t2 fs red black wo w kw b q kq a at2 in
    let after = node black (node red wo w kw b) q kq a in
    let some_w = at0.subtree.0 in
    let some_q = at0.subtree.3.0 in
    subst (λ i. Below (left_rotate (set_color t1 i black) w).1 (from_right cp p kp after ∷ rest) s)
      (sym child)
      (Below-kept t t3 (from_right cp p kp (node cw wo w kw (node cq b q kq a)) ∷ rest)
        (from_right cp p kp after ∷ rest) s here
        (left_rotate-nil t2 w some_w
          ∙ store-nil t1 q (record (t1.nodes q) { color = black }) some_q
          ∙ store-nil t w (record (t.nodes w) { color = red }) some_w)
        refl (At-down_right t3 rest cp p kp after s (At-up_left t3 rest cp p kp after s at3)))

abbrev share_right_from : RbTree → ℕ → ℕ → Color → RbTree
share_right_from t x w c =
    let t1 = set_color t w c in
    let t2 = set_color t1 (parent_of t1 x) black in
    let t3 = set_color t2 (t2.nodes w).lchild black in (right_rotate t3 (parent_of t3 x)).1

-- The fourth case: the parent and the outer child of the brother become black below it.
pub share_right-At :
    (t : RbTree) (cp : Color) (p : ℕ) (kp : ℤ) (cw cv : Color) (wi : Tree) (w : ℕ) (kw : ℤ)
    (a : Tree) (v : ℕ) (kv : ℤ) (b : Tree) (rest : Context) (s : Tree)
    → Below t (from_right cp p kp (node cw (node cv b v kv a) w kw wi) ∷ rest) s
    → At
        (share_right t (address s) w).0
        rest
        (node cp (node black b v kv a) w kw (node black wi p kp s))
unfolding share_right
share_right-At t cp p kp cw cv wi w kw a v kv b rest s here =
    let parent_color : (t.nodes (parent_of t (address s))).color ≡ cp =
      ap (λ (i : ℕ). (t.nodes i).color) here.linked
      ∙ ap (λ (x : RbNode). x.color) here.at.around.1 in
    subst
      (λ c.
        At (share_right_from t (address s) w c) rest
          (node cp (node black b v kv a) w kw (node black wi p kp s)))
      (sym parent_color) shared
  where
    shared :
        At
          (share_right_from t (address s) w cp)
          rest
          (node cp (node black b v kv a) w kw (node black wi p kp s))
    shared =
        let wo = node cv b v kv a in
        let t1 = set_color t w cp in
        let one = paint_brother_right t cp p kp cw wi w kw wo rest s here cp in
        let t2 = set_color t1 (parent_of t1 (address s)) black in
        let two = paint_parent_right t1 cp p kp cp wi w kw wo rest s one black in
        let fs2 = from_left black p kp s ∷ rest in
        let at2 =
          At-down_left t2 rest black p kp (node cp wo w kw wi) s
            (At-up_right t2 rest black p kp (node cp wo w kw wi) s two.at) in
        let child : (t2.nodes w).lchild ≡ v = ap (λ (x : RbNode). x.lchild) at2.subtree.1 in
        let t3 = set_color t2 v black in
        let brother = node cp (node black b v kv a) w kw wi in
        let at3 = At-up_left t3 fs2 cp w kw (node black b v kv a) wi (
          set_color-At t2 (from_left cp w kw wi ∷ fs2) cv v kv b a black
            (At-down_left t2 fs2 cp w kw wo wi at2)) in
        let three =
          Below-kept t2 t3 (from_right black p kp (node cp wo w kw wi) ∷ rest)
            (from_right black p kp brother ∷ rest) s two
            (store-nil t2 v (record (t2.nodes v) { color = black }) at2.subtree.2.0) refl
            (At-down_right t3 rest black p kp brother s
              (At-up_left t3 rest black p kp brother s at3)) in
        subst
          (λ i.
            At
              (right_rotate (set_color t2 i black) (parent_of (set_color t2 i black) (address s))).1
              rest (node cp (node black b v kv a) w kw (node black wi p kp s)))
          (sym child)
          (turn_parent_right-At t3 black p kp cp wi w kw (node black b v kv a) rest s three)
