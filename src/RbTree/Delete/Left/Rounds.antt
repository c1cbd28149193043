-- ===== src/RbTree/Delete/Left/Rounds.antt =====
-- A round of rb_delete_fixup at a left child.
use mw_race_service_mesh_c.Base.{
  ℕ, suc, ◌≡◌, refl, sym, ap, ◌∙◌, subst, Bool, true, false, ◌∷◌, arith, length,
}
use mw_race_service_mesh_c.Base.Int.{ℤ}
use mw_race_service_mesh_c.RbTree.{Color, red, black, is_red, RbNode, RbTree, set_color, parent_of}
use mw_race_service_mesh_c.RbTree.Shape.{
  Tree, node, from_left, from_right, Context, address, plug, At,
}
use mw_race_service_mesh_c.RbTree.Shape.Moves.{At-up_left}
use mw_race_service_mesh_c.RbTree.Balance.{Balanced, red_node, black_node, Hole-black}
use mw_race_service_mesh_c.RbTree.Fixup.Rounds.{Same, Same-trans, Same-plug}
use mw_race_service_mesh_c.RbTree.Delete.{
  has_red, turn_inner_left, turn_brother_left, share_left, spread_left,
}
use mw_race_service_mesh_c.RbTree.Delete.Sentinel.{Below, node-Below}
use mw_race_service_mesh_c.RbTree.Delete.Light.{
  darkens, lacks, Lightens, lightens, Parent, black_parent, red_parent, Same-sym, Same-rotated,
  settled-Lightens, has_red-Holds,
}
use mw_race_service_mesh_c.RbTree.Delete.Left.{
  brother_left, paint_brother_left, turn_inner_left-Below, share_left-At,
}

module _ (t : RbTree) (x w : ℕ) where
  spread_left-passes :
      has_red t (t.nodes w).lchild ≡ false
      → has_red t (t.nodes w).rchild ≡ false
      → spread_left t x w ≡ (set_color t w red, parent_of (set_color t w red) x)
  unfolding spread_left
  spread_left-passes near far = rw near (rw far refl)

  spread_left-shares :
      (b : Bool)
      → has_red t (t.nodes w).lchild ≡ b
      → has_red t (t.nodes w).rchild ≡ true
      → spread_left t x w ≡ share_left t x w
  unfolding spread_left turn_brother_left
  spread_left-shares true near far = rw near (rw far refl)
  spread_left-shares false near far = rw near (rw far refl)

  spread_left-turns :
      has_red t (t.nodes w).lchild ≡ true
      → has_red t (t.nodes w).rchild ≡ false
      → spread_left t x w
        ≡ (let t3 = turn_inner_left t w in share_left t3 x (t3.nodes (parent_of t3 x)).rchild)
  unfolding spread_left turn_brother_left
  spread_left-turns near far = rw near (rw far refl)

-- The colors of the children of a black brother.
module _ (t : RbTree) (p : ℕ) (cp : Color) (kp : ℤ) (wi : Tree) (w : ℕ) (kw : ℤ) (wo : Tree)
    (rest : Context) (s : Tree)
    (below : Below t (from_left cp p kp (node black wi w kw wo) ∷ rest) s) where
  near : {c : Color} {n : ℕ} → Balanced c n wi → has_red t (t.nodes w).lchild ≡ is_red c
  near b =
      let (some_w, at_w, held_l, held_r) = below.at.around.2 in
      ap (λ (x : RbNode). has_red t x.lchild) at_w
      ∙ has_red-Holds t w wi _ _ held_l below.at.black_nil b

  far : {c : Color} {n : ℕ} → Balanced c n wo → has_red t (t.nodes w).rchild ≡ is_red c
  far b =
      let (some_w, at_w, held_l, held_r) = below.at.around.2 in
      ap (λ (x : RbNode). has_red t x.rchild) at_w
      ∙ has_red-Holds t w wo _ _ held_r below.at.black_nil b

-- A subtree `s`, its parent and a black brother.
module _ (p : ℕ) (kp : ℤ) (rest : Context) (s : Tree) (n : ℕ) (whole : Tree)
    (balanced : Balanced black n s) where
  -- The fourth case.
  share_left-Lightens :
      (t : RbTree) (cp : Color) (m : ℕ) (cl ca cb : Color) (wi : Tree) (w : ℕ) (kw : ℤ) (a : Tree)
      (v : ℕ) (kv : ℤ) (b : Tree)
      → Below t (from_left cp p kp (node black wi w kw (node red a v kv b)) ∷ rest) s
      → Parent rest n cp m
      → Balanced cl n wi
      → Balanced ca n a
      → Balanced cb n b
      → Same (plug rest (node cp s p kp (node black wi w kw (node red a v kv b)))) whole
      → Lightens whole (suc m) (share_left t (address s) w)
  unfolding share_left
  share_left-Lightens t cp m cl ca cb wi w kw a v kv b below parent bl ba bb same =
      settled (share_left-At t cp p kp black red wi w kw a v kv b rest s below) parent
    where
      after : Color → Tree
      after c = node c (node black s p kp wi) w kw (node black a v kv b)

      kept :
          (c : Color)
          → Same (plug rest (node c (node black s p kp wi) w kw (node black a v kv b))) whole
      kept c =
          Same-trans (plug rest (node c (node black s p kp wi) w kw (node black a v kv b)))
            (plug rest (node cp s p kp (node black wi w kw (node red a v kv b)))) whole
            (Same-plug rest _ _ (rotates c)) same
        where
          rotates :
              (c : Color)
              → Same
                  (node c (node black s p kp wi) w kw (node black a v kv b))
                  (node cp s p kp (node black wi w kw (node red a v kv b)))
          rotates c = record {
            same_keys =
                (Same-rotated s wi (node red a v kv b) p w kp kw c black cp black).same_keys;
            same_nodes = λ x. omega arith;
          }

      settled :
          {c : Color} {i : ℕ}
          → At
              (share_left t (address s) w).0
              rest
              (node c (node black s p kp wi) w kw (node black a v kv b))
          → Parent rest n c i
          → Lightens whole (suc m) (share_left t (address s) w)
      settled at (black_parent up) =
          settled-Lightens (share_left t (address s) w).0 rest black _ w kw _ black _ m whole at up
            (black_node (black_node balanced bl) (black_node ba bb)) (kept black)
      settled at (red_parent up) =
          settled-Lightens (share_left t (address s) w).0 rest red _ w kw _ red _ m whole at up
            (red_node (black_node balanced bl) (black_node ba bb)) (kept red)

  -- The second case.
  pass_left-Lightens :
      (t : RbTree) (cp : Color) (m : ℕ) (wi : Tree) (w : ℕ) (kw : ℤ) (wo : Tree)
      → Below t (from_left cp p kp (node black wi w kw wo) ∷ rest) s
      → Parent rest n cp m
      → Balanced black n wi
      → Balanced black n wo
      → Same (plug rest (node cp s p kp (node black wi w kw wo))) whole
      → Lightens whole (suc m) (set_color t w red, parent_of (set_color t w red) (address s))
  pass_left-Lightens t cp m wi w kw wo below parent bl br same =
      let t1 = set_color t w red in
      let one = paint_brother_left t cp p kp black wi w kw wo rest s below red in
      subst (λ i. Lightens whole (suc m) (t1, i)) (sym one.linked)
        (passed (At-up_left t1 rest cp p kp s (node red wi w kw wo) one.at) parent same)
    where
      passed :
          {c : Color} {i : ℕ}
          → At (set_color t w red) rest (node c s p kp (node red wi w kw wo))
          → Parent rest n c i
          → Same (plug rest (node c s p kp (node black wi w kw wo))) whole
          → Lightens whole (suc i) (set_color t w red, p)
      passed at (black_parent up) same =
          lightens (set_color t w red) rest (node black s p kp (node red wi w kw wo)) (suc n)
            (length rest)
            (record {
              below = node-Below at;
              hole = up;
              light = lacks (black_node balanced (red_node bl br));
            })
            (Same-trans (plug rest (node black s p kp (node red wi w kw wo)))
              (plug rest (node black s p kp (node black wi w kw wo))) whole
              (Same-plug rest _ _ (record { same_keys = refl; same_nodes = λ x. refl })) same)
            (omega arith)
      passed at (red_parent up) same =
          lightens (set_color t w red) rest (node red s p kp (node red wi w kw wo)) n 0
            (record {
              below = node-Below at;
              hole = Hole-black up;
              light = darkens balanced (red_node bl br);
            })
            (Same-trans (plug rest (node red s p kp (node red wi w kw wo)))
              (plug rest (node red s p kp (node black wi w kw wo))) whole
              (Same-plug rest _ _ (record { same_keys = refl; same_nodes = λ x. refl })) same)
            (omega arith)

  -- The colors of the brother's children choose the case.
  pub spread_left-Lightens :
      (t : RbTree) (cp : Color) (m : ℕ) (cl cr : Color) (wi : Tree) (w : ℕ) (kw : ℤ) (wo : Tree)
      → Below t (from_left cp p kp (node black wi w kw wo) ∷ rest) s
      → Parent rest n cp m
      → Balanced cl n wi
      → Balanced cr n wo
      → Same (plug rest (node cp s p kp (node black wi w kw wo))) whole
      → Lightens whole (suc m) (spread_left t (address s) w)
  spread_left-Lightens t cp m cl red wi w kw _ below parent bl (red_node ba bb) same =
      subst (Lightens whole (suc m))
        (sym (
          spread_left-shares t (address s) w (is_red cl) (near t p cp kp wi w kw _ rest s below bl)
            (far t p cp kp wi w kw _ rest s below (red_node ba bb))))
        (share_left-Lightens t cp m cl black black wi w kw _ _ _ _ below parent bl ba bb same)
  spread_left-Lightens t cp m black black wi w kw wo below parent bl br same =
      subst (Lightens whole (suc m))
        (sym (
          spread_left-passes t (address s) w (near t p cp kp wi w kw wo rest s below bl)
            (far t p cp kp wi w kw wo rest s below br)))
        (pass_left-Lightens t cp m wi w kw wo below parent bl br same)
  spread_left-Lightens t cp m red black _ w kw wo below parent
        (red_node {a = q} {k = kq} {l = a} {r = b} ba bb) br same =
      let wi = node red a q kq b in
      let t3 = turn_inner_left t w in
      let turned = turn_inner_left-Below t cp p kp black red a q kq b w kw wo rest s below in
      let round =
        spread_left-turns t (address s) w (near t p cp kp wi w kw wo rest s below (red_node ba bb))
          (far t p cp kp wi w kw wo rest s below br)
        ∙ ap (share_left t3 (address s))
            (brother_left t3 cp p kp black a q kq (node red b w kw wo) rest s turned) in
      subst (Lightens whole (suc m)) (sym round) (
        share_left-Lightens t3 cp m black black black a q kq b w kw wo turned parent ba bb br (
          Same-trans (plug rest (node cp s p kp (node black a q kq (node red b w kw wo))))
            (plug rest (node cp s p kp (node black wi w kw wo))) whole
            (Same-plug (from_right cp p kp s ∷ rest) _ _
              (Same-sym _ _ (Same-rotated a b wo q w kq kw black red black red)))
            same))
