-- ===== src/RbTree/Delete/Left.antt =====
-- The steps of rb_delete_fixup at a left child, on the tree that the nodes make up.
pub mod Rounds
pub mod Steps
use mw_race_service_mesh_c.Base.{ℕ, ◌≡◌, ◌≢◌, refl, sym, ap, ap₂, ◌∙◌, subst, ◌∷◌}
use mw_race_service_mesh_c.Base.Int.{ℤ}
use mw_race_service_mesh_c.RbTree.{
  Color, red, black, RbNode, RbTree, nil, set_color, left_rotate, right_rotate, parent_of,
}
use mw_race_service_mesh_c.RbTree.Shape.{
  Tree, node, Frame, from_left, from_right, Context, address, At,
}
use mw_race_service_mesh_c.RbTree.Shape.Moves.{
  At-up_left, At-up_right, At-down_left, At-down_right, set_color-At, set_color-above,
  set_color-beside,
}
use mw_race_service_mesh_c.RbTree.Rotate.{left_rotate-At, right_rotate-At}
use mw_race_service_mesh_c.RbTree.Delete.{raise_left, turn_inner_left, share_left}
use mw_race_service_mesh_c.RbTree.Delete.Sentinel.{
  store-nil, left_rotate-nil, right_rotate-nil, Below, Below-kept,
}

-- The node with one black too many, its parent and its brother.
module _ (t : RbTree) (cp : Color) (p : ℕ) (kp : ℤ) (cw : Color) (wi : Tree) (w : ℕ) (kw : ℤ)
    (wo : Tree) (rest : Context) (s : Tree)
    (here : Below t (from_left cp p kp (node cw wi w kw wo) ∷ rest) s) where
  some_parent : p ≢ nil
  some_parent = here.at.around.0

  some_brother : w ≢ nil
  some_brother = here.at.around.2.0

  pub brother_left : (t.nodes (parent_of t (address s))).rchild ≡ w
  brother_left =
      ap (λ (i : ℕ). (t.nodes i).rchild) here.linked
      ∙ ap (λ (x : RbNode). x.rchild) here.at.around.1

  -- A write of a color to the brother and to the parent.
  pub paint_brother_left :
      (c : Color) → Below (set_color t w c) (from_left cp p kp (node c wi w kw wo) ∷ rest) s
  paint_brother_left c =
      let fs = from_left cp p kp (node cw wi w kw wo) ∷ rest in
      Below-kept t (set_color t w c) fs (from_left cp p kp (node c wi w kw wo) ∷ rest) s here
        (store-nil t w (record (t.nodes w) { color = c }) some_brother) refl
        (set_color-beside t rest (from_left cp p kp (node cw wi w kw wo)) s cw c wi w kw wo refl
          here.at)

  pub paint_parent_left :
      (c : Color)
      → Below
          (set_color t (parent_of t (address s)) c)
          (from_left c p kp (node cw wi w kw wo) ∷ rest)
          s
  paint_parent_left c =
      let fs = from_left cp p kp (node cw wi w kw wo) ∷ rest in
      let fs' = from_left c p kp (node cw wi w kw wo) ∷ rest in
      subst (λ i. Below (set_color t i c) fs' s) (sym here.linked)
        (Below-kept t (set_color t p c) fs fs' s here
          (store-nil t p (record (t.nodes p) { color = c }) some_parent) refl
          (set_color-above t rest (from_left cp p kp (node cw wi w kw wo)) s c here.at))

  -- The rotation at the parent.
  pub turn_parent_left-At :
      At (left_rotate t (parent_of t (address s))).1 rest (node cw (node cp s p kp wi) w kw wo)
  turn_parent_left-At =
      subst (λ i. At (left_rotate t i).1 rest (node cw (node cp s p kp wi) w kw wo))
        (sym here.linked)
        (left_rotate-At t rest cp cw s p kp wi w kw wo
          (At-up_left t rest cp p kp s (node cw wi w kw wo) here.at))

  turn_parent_left-Below :
      Below
        (left_rotate t (parent_of t (address s))).1
        (from_left cp p kp wi ∷ from_left cw w kw wo ∷ rest)
        s
  turn_parent_left-Below =
      let u = (left_rotate t (parent_of t (address s))).1 in
      Below-kept t u (from_left cp p kp (node cw wi w kw wo) ∷ rest)
        (from_left cp p kp wi ∷ from_left cw w kw wo ∷ rest) s here
        (left_rotate-nil t (parent_of t (address s)) (λ e. some_parent (sym here.linked ∙ e))) refl
        (At-down_left u (from_left cw w kw wo ∷ rest) cp p kp s wi
          (At-down_left u rest cw w kw (node cp s p kp wi) wo turn_parent_left-At))

-- The first case: a red brother is raised above the parent.
pub raise_left-Below :
    (t : RbTree) (cp : Color) (p : ℕ) (kp : ℤ) (cw : Color) (wi : Tree) (w : ℕ) (kw : ℤ) (wo : Tree)
    (rest : Context) (s : Tree)
    → Below t (from_left cp p kp (node cw wi w kw wo) ∷ rest) s
    → Below (raise_left t (address s) w) (from_left red p kp wi ∷ from_left black w kw wo ∷ rest) s
unfolding raise_left
raise_left-Below t cp p kp cw wi w kw wo rest s here =
    let t1 = set_color t w black in
    let one = paint_brother_left t cp p kp cw wi w kw wo rest s here black in
    let t2 = set_color t1 (parent_of t1 (address s)) red in
    let two = paint_parent_left t1 cp p kp black wi w kw wo rest s one red in
    turn_parent_left-Below t2 red p kp black wi w kw wo rest s two

-- The third case: the red inner child of the brother takes its place.
pub turn_inner_left-Below :
    (t : RbTree) (cp : Color) (p : ℕ) (kp : ℤ) (cw cq : Color) (a : Tree) (q : ℕ) (kq : ℤ)
    (b : Tree) (w : ℕ) (kw : ℤ) (wo : Tree) (rest : Context) (s : Tree)
    → Below t (from_left cp p kp (node cw (node cq a q kq b) w kw wo) ∷ rest) s
    → Below
        (turn_inner_left t w)
        (from_left cp p kp (node black a q kq (node red b w kw wo)) ∷ rest)
        s
unfolding turn_inner_left
turn_inner_left-Below t cp p kp cw cq a q kq b w kw wo rest s here =
    let fs = from_right cp p kp s ∷ rest in
    let at0 =
      At-down_right t rest cp p kp s (node cw (node cq a q kq b) w kw wo)
        (At-up_left t rest cp p kp s (node cw (node cq a q kq b) w kw wo) here.at) in
    let t1 = set_color t w red in
    let at1 = set_color-At t fs cw w kw (node cq a q kq b) wo red at0 in
    let child : (t1.nodes w).lchild ≡ q = ap (λ (x : RbNode). x.lchild) at1.subtree.1 in
    let t2 = set_color t1 q black in
    let at2 = At-up_left t2 fs red w kw (node black a q kq b) wo (
      set_color-At t1 (from_left red w kw wo ∷ fs) cq q kq a b black
        (At-down_left t1 fs red w kw (node cq a q kq b) wo at1)) in
    let t3 = (right_rotate t2 w).1 in
    let at3 = right_rotate-At t2 fs black red a q kq b w kw wo at2 in
    let after = node black a q kq (node red b w kw wo) in
    let some_w = at0.subtree.0 in
    let some_q = at0.subtree.2.0 in
    subst (λ i. Below (right_rotate (set_color t1 i black) w).1 (from_left cp p kp after ∷ rest) s)
      (sym child)
      (Below-kept t t3 (from_left cp p kp (node cw (node cq a q kq b) w kw wo) ∷ rest)
        (from_left cp p kp after ∷ rest) s here
        (right_rotate-nil t2 w some_w
          ∙ store-nil t1 q (record (t1.nodes q) { color = black }) some_q
          ∙ store-nil t w (record (t.nodes w) { color = red }) some_w)
        refl (At-down_left t3 rest cp p kp s after (At-up_right t3 rest cp p kp s after at3)))

abbrev share_left_from : RbTree → ℕ → ℕ → Color → RbTree
share_left_from t x w c =
    let t1 = set_color t w c in
    let t2 = set_color t1 (parent_of t1 x) black in
    let t3 = set_color t2 (t2.nodes w).rchild black in (left_rotate t3 (parent_of t3 x)).1

-- The fourth case: the parent and the outer child of the brother become black below it.
pub share_left-At :
    (t : RbTree) (cp : Color) (p : ℕ) (kp : ℤ) (cw cv : Color) (wi : Tree) (w : ℕ) (kw : ℤ)
    (a : Tree) (v : ℕ) (kv : ℤ) (b : Tree) (rest : Context) (s : Tree)
    → Below t (from_left cp p kp (node cw wi w kw (node cv a v kv b)) ∷ rest) s
    → At
        (share_left t (address s) w).0
        rest
        (node cp (node black s p kp wi) w kw (node black a v kv b))
unfolding share_left
share_left-At t cp p kp cw cv wi w kw a v kv b rest s here =
    let parent_color : (t.nodes (parent_of t (address s))).color ≡ cp =
      ap (λ (i : ℕ). (t.nodes i).color) here.linked
      ∙ ap (λ (x : RbNode). x.color) here.at.around.1 in
    subst
      (λ c.
        At (share_left_from t (address s) w c) rest
          (node cp (node black s p kp wi) w kw (node black a v kv b)))
      (sym parent_color) shared
  where
    shared :
        At
          (share_left_from t (address s) w cp)
          rest
          (node cp (node black s p kp wi) w kw (node black a v kv b))
    shared =
        let wo = node cv a v kv b in
        let t1 = set_color t w cp in
        let one = paint_brother_left t cp p kp cw wi w kw wo rest s here cp in
        let t2 = set_color t1 (parent_of t1 (address s)) black in
        let two = paint_parent_left t1 cp p kp cp wi w kw wo rest s one black in
        let fs2 = from_right black p kp s ∷ rest in
        let at2 =
          At-down_right t2 rest black p kp s (node cp wi w kw wo)
            (At-up_left t2 rest black p kp s (node cp wi w kw wo) two.at) in
        let child : (t2.nodes w).rchild ≡ v = ap (λ (x : RbNode). x.rchild) at2.subtree.1 in
        let t3 = set_color t2 v black in
        let brother = node cp wi w kw (node black a v kv b) in
        let at3 = At-up_right t3 fs2 cp w kw wi (node black a v kv b) (
          set_color-At t2 (from_right cp w kw wi ∷ fs2) cv v kv a b black
            (At-down_right t2 fs2 cp w kw wi wo at2)) in
        let three =
          Below-kept t2 t3 (from_left black p kp (node cp wi w kw wo) ∷ rest)
            (from_left black p kp brother ∷ rest) s two
            (store-nil t2 v (record (t2.nodes v) { color = black }) at2.subtree.3.0) refl
            (At-down_left t3 rest black p kp s brother
              (At-up_right t3 rest black p kp s brother at3)) in
        subst
          (λ i.
            At (left_rotate (set_color t2 i black) (parent_of (set_color t2 i black) (address s))).1
              rest (node cp (node black s p kp wi) w kw (node black a v kv b)))
          (sym child)
          (turn_parent_left-At t3 black p kp cp wi w kw (node black a v kv b) rest s three)
