-- ===== src/RbTree/Delete/Right/Rounds.antt =====
-- A round of rb_delete_fixup at a right child.
use mw_race_service_mesh_c.Base.{
  ℕ, suc, ◌≡◌, refl, sym, ap, ◌∙◌, subst, Bool, true, false, ◌∷◌, arith, length,
}
use mw_race_service_mesh_c.Base.Int.{ℤ}
use mw_race_service_mesh_c.RbTree.{Color, red, black, is_red, RbNode, RbTree, set_color, parent_of}
use mw_race_service_mesh_c.RbTree.Shape.{
  Tree, node, from_right, from_left, Context, address, plug, At,
}
use mw_race_service_mesh_c.RbTree.Shape.Moves.{At-up_right}
use mw_race_service_mesh_c.RbTree.Balance.{Balanced, red_node, black_node, Hole-black}
use mw_race_service_mesh_c.RbTree.Fixup.Rounds.{Same, Same-trans, Same-plug}
use mw_race_service_mesh_c.RbTree.Delete.{
  has_red, turn_inner_right, turn_brother_right, share_right, spread_right,
}
use mw_race_service_mesh_c.RbTree.Delete.Sentinel.{Below, node-Below}
use mw_race_service_mesh_c.RbTree.Delete.Light.{
  darkens, lacks, Lightens, lightens, Parent, black_parent, red_parent, Same-sym, Same-rotated_back,
  settled-Lightens, has_red-Holds,
}
use mw_race_service_mesh_c.RbTree.Delete.Right.{
  brother_right, paint_brother_right, turn_inner_right-Below, share_right-At,
}

module _ (t : RbTree) (x w : ℕ) where
  spread_right-passes :
      has_red t (t.nodes w).rchild ≡ false
      → has_red t (t.nodes w).lchild ≡ false
      → spread_right t x w ≡ (set_color t w red, parent_of (set_color t w red) x)
  unfolding spread_right
  spread_right-passes near far = rw near (rw far refl)

  spread_right-shares :
      (b : Bool)
      → has_red t (t.nodes w).rchild ≡ b
      → has_red t (t.nodes w).lchild ≡ true
      → spread_right t x w ≡ share_right t x w
  unfolding spread_right turn_brother_right
  spread_right-shares true near far = rw near (rw far refl)
  spread_right-shares false near far = rw near (rw far refl)

  spread_right-turns :
      has_red t (t.nodes w).rchild ≡ true
      → has_red t (t.nodes w).lchild ≡ false
      → spread_right t x w
        ≡ (let t3 = turn_inner_right t w in share_right t3 x (t3.nodes (parent_of t3 x)).lchild)
  unfolding spread_right turn_brother_right
  spread_right-turns near far = rw near (rw far refl)

-- The colors of the children of a black brother.
module _ (t : RbTree) (p : ℕ) (cp : Color) (kp : ℤ) (wi : Tree) (w : ℕ) (kw : ℤ) (wo : Tree)
    (rest : Context) (s : Tree)
    (below : Below t (from_right cp p kp (node black wo w kw wi) ∷ rest) s) where
  near : {c : Color} {n : ℕ} → Balanced c n wi → has_red t (t.nodes w).rchild ≡ is_red c
  near b =
      let (some_w, at_w, held_r, held_l) = below.at.around.2 in
      ap (λ (x : RbNode). has_red t x.rchild) at_w
      ∙ has_red-Holds t w wi _ _ held_l below.at.black_nil b

  far : {c : Color} {n : ℕ} → Balanced c n wo → has_red t (t.nodes w).lchild ≡ is_red c
  far b =
      let (some_w, at_w, held_r, held_l) = below.at.around.2 in
      ap (λ (x : RbNode). has_red t x.lchild) at_w
      ∙ has_red-Holds t w wo _ _ held_r below.at.black_nil b

-- A subtree `s`, its parent and a black brother.
module _ (p : ℕ) (kp : ℤ) (rest : Context) (s : Tree) (n : ℕ) (whole : Tree)
    (balanced : Balanced black n s) where
  -- The fourth case.
  share_right-Lightens :
      (t : RbTree) (cp : Color) (m : ℕ) (cl ca cb : Color) (wi : Tree) (w : ℕ) (kw : ℤ) (a : Tree)
      (v : ℕ) (kv : ℤ) (b : Tree)
      → Below t (from_right cp p kp (node black (node red b v kv a) w kw wi) ∷ rest) s
      → Parent rest n cp m
      → Balanced cl n wi
      → Balanced ca n a
      → Balanced cb n b
      → Same (plug rest (node cp (node black (node red b v kv a) w kw wi) p kp s)) whole
      → Lightens whole (suc m) (share_right t (address s) w)
  unfolding share_right
  share_right-Lightens t cp m cl ca cb wi w kw a v kv b below parent bl ba bb same =
      settled (share_right-At t cp p kp black red wi w kw a v kv b rest s below) parent
    where
      after : Color → Tree
      after c = node c (node black b v kv a) w kw (node black wi p kp s)

      kept :
          (c : Color)
          → Same (plug rest (node c (node black b v kv a) w kw (node black wi p kp s))) whole
      kept c =
          Same-trans (plug rest (node c (node black b v kv a) w kw (node black wi p kp s)))
            (plug rest (node cp (node black (node red b v kv a) w kw wi) p kp s)) whole
            (Same-plug rest _ _ (rotates c)) same
        where
          rotates :
              (c : Color)
              → Same
                  (node c (node black b v kv a) w kw (node black wi p kp s))
                  (node cp (node black (node red b v kv a) w kw wi) p kp s)
          rotates c = record {
            same_keys =
                (Same-rotated_back s wi (node red b v kv a) p w kp kw c black cp black).same_keys;
            same_nodes = λ x. omega arith;
          }

      settled :
          {c : Color} {i : ℕ}
          → At
              (share_right t (address s) w).0
              rest
              (node c (node black b v kv a) w kw (node black wi p kp s))
          → Parent rest n c i
          → Lightens whole (suc m) (share_right t (address s) w)
      settled at (black_parent up) =
          settled-Lightens (share_right t (address s) w).0 rest black _ w kw _ black _ m whole at up
            (black_node (black_node bb ba) (black_node bl balanced)) (kept black)
      settled at (red_parent up) =
          settled-Lightens (share_right t (address s) w).0 rest red _ w kw _ red _ m whole at up
            (red_node (black_node bb ba) (black_node bl balanced)) (kept red)

  -- The second case.
  pass_right-Lightens :
      (t : RbTree) (cp : Color) (m : ℕ) (wi : Tree) (w : ℕ) (kw : ℤ) (wo : Tree)
      → Below t (from_right cp p kp (node black wo w kw wi) ∷ rest) s
      → Parent rest n cp m
      → Balanced black n wi
      → Balanced black n wo
      → Same (plug rest (node cp (node black wo w kw wi) p kp s)) whole
      → Lightens whole (suc m) (set_color t w red, parent_of (set_color t w red) (address s))
  pass_right-Lightens t cp m wi w kw wo below parent bl br same =
      let t1 = set_color t w red in
      let one = paint_brother_right t cp p kp black wi w kw wo rest s below red in
      subst (λ i. Lightens whole (suc m) (t1, i)) (sym one.linked)
        (passed (At-up_right t1 rest cp p kp (node red wo w kw wi) s one.at) parent same)
    where
      passed :
          {c : Color} {i : ℕ}
          → At (set_color t w red) rest (node c (node red wo w kw wi) p kp s)
          → Parent rest n c i
          → Same (plug rest (node c (node black wo w kw wi) p kp s)) whole
          → Lightens whole (suc i) (set_color t w red, p)
      passed at (black_parent up) same =
          lightens (set_color t w red) rest (node black (node red wo w kw wi) p kp s) (suc n)
            (length rest)
            (record {
              below = node-Below at;
              hole = up;
              light = lacks (black_node (red_node br bl) balanced);
            })
            (Same-trans (plug rest (node black (node red wo w kw wi) p kp s))
              (plug rest (node black (node black wo w kw wi) p kp s)) whole
              (Same-plug rest _ _ (record { same_keys = refl; same_nodes = λ x. refl })) same)
            (omega arith)
      passed at (red_parent up) same =
          lightens (set_color t w red) rest (node red (node red wo w kw wi) p kp s) n 0
            (record {
              below = node-Below at;
              hole = Hole-black up;
              light = darkens (red_node br bl) balanced;
            })
            (Same-trans (plug rest (node red (node red wo w kw wi) p kp s))
              (plug rest (node red (node black wo w kw wi) p kp s)) whole
              (Same-plug rest _ _ (record { same_keys = refl; same_nodes = λ x. refl })) same)
            (omega arith)

  -- The colors of the brother's children choose the case.
  pub spread_right-Lightens :
      (t : RbTree) (cp : Color) (m : ℕ) (cl cr : Color) (wi : Tree) (w : ℕ) (kw : ℤ) (wo : Tree)
      → Below t (from_right cp p kp (node black wo w kw wi) ∷ rest) s
      → Parent rest n cp m
      → Balanced cl n wi
      → Balanced cr n wo
      → Same (plug rest (node cp (node black wo w kw wi) p kp s)) whole
      → Lightens whole (suc m) (spread_right t (address s) w)
  spread_right-Lightens t cp m cl red wi w kw _ below parent bl (red_node bb ba) same =
      subst (Lightens whole (suc m))
        (sym (
          spread_right-shares t (address s) w (is_red cl) (near t p cp kp wi w kw _ rest s below bl)
            (far t p cp kp wi w kw _ rest s below (red_node bb ba))))
        (share_right-Lightens t cp m cl black black wi w kw _ _ _ _ below parent bl ba bb same)
  spread_right-Lightens t cp m black black wi w kw wo below parent bl br same =
      subst (Lightens whole (suc m))
        (sym (
          spread_right-passes t (address s) w (near t p cp kp wi w kw wo rest s below bl)
            (far t p cp kp wi w kw wo rest s below br)))
        (pass_right-Lightens t cp m wi w kw wo below parent bl br same)
  spread_right-Lightens t cp m red black _ w kw wo below parent
        (red_node {a = q} {k = kq} {l = b} {r = a} bb ba) br same =
      let wi = node red b q kq a in
      let t3 = turn_inner_right t w in
      let turned = turn_inner_right-Below t cp p kp black red a q kq b w kw wo rest s below in
      let round =
        spread_right-turns t (address s) w (near t p cp kp wi w kw wo rest s below (red_node bb ba))
          (far t p cp kp wi w kw wo rest s below br)
        ∙ ap (share_right t3 (address s))
            (brother_right t3 cp p kp black a q kq (node red wo w kw b) rest s turned) in
      subst (Lightens whole (suc m)) (sym round) (
        share_right-Lightens t3 cp m black black black a q kq b w kw wo turned parent ba bb br (
          Same-trans (plug rest (node cp (node black (node red wo w kw b) q kq a) p kp s))
            (plug rest (node cp (node black wo w kw wi) p kp s)) whole
            (Same-plug (from_left cp p kp s ∷ rest) _ _
              (Same-sym _ _ (Same-rotated_back a b wo q w kq kw black red black red)))
            same))
