-- ===== src/RbTree/Delete/Right/Steps.antt =====
-- The brother of a right child becomes black first, and the round goes on.
use mw_race_service_mesh_c.Base.{
  ℕ, suc, ◌≡◌, refl, sym, ap, ◌∙◌, subst, true, false, ◌∷◌, arith, length,
}
use mw_race_service_mesh_c.Base.Int.{ℤ}
use mw_race_service_mesh_c.RbTree.{Color, red, black, is_red, RbNode, RbTree, parent_of}
use mw_race_service_mesh_c.RbTree.Shape.{Tree, node, from_right, Context, address, plug}
use mw_race_service_mesh_c.RbTree.Balance.{
  Balanced, red_node, black_node, Hole, black_right, red_right,
}
use mw_race_service_mesh_c.RbTree.Fixup.Rounds.{Same-refl, Same-plug}
use mw_race_service_mesh_c.RbTree.Delete.{
  has_red, raise_right, find_brother_right, spread_right, lighten_right,
}
use mw_race_service_mesh_c.RbTree.Delete.Sentinel.{Below}
use mw_race_service_mesh_c.RbTree.Delete.Light.{
  Lightens, Lightens-weaken, Parent, black_parent, red_parent, Same-rotated_back,
}
use mw_race_service_mesh_c.RbTree.Delete.Right.{brother_right, raise_right-Below}
use mw_race_service_mesh_c.RbTree.Delete.Right.Rounds.{spread_right-Lightens}

module _ (t : RbTree) (x w : ℕ) (is_brother : (t.nodes (parent_of t x)).lchild ≡ w) where
  lighten_right-spreads : has_red t w ≡ false → lighten_right t x ≡ spread_right t x w
  unfolding lighten_right find_brother_right
  lighten_right-spreads e = rw is_brother (rw e refl)

  lighten_right-raises :
      has_red t w ≡ true
      → lighten_right t x
        ≡ (let t3 = raise_right t x w in spread_right t3 x (t3.nodes (parent_of t3 x)).lchild)
  unfolding lighten_right find_brother_right
  lighten_right-raises e = rw is_brother (rw e refl)

module _ (t : RbTree) (p : ℕ) (kp : ℤ) (rest : Context) (s : Tree) (n : ℕ)
    (balanced : Balanced black n s) where
  -- A black brother.
  spreads :
      (cp : Color) (m : ℕ) {cl cr : Color} {wi wo : Tree} {w : ℕ} {kw : ℤ}
      → Below t (from_right cp p kp (node black wo w kw wi) ∷ rest) s
      → Parent rest n cp m
      → Balanced cl n wi
      → Balanced cr n wo
      → Lightens
          (plug rest (node cp (node black wo w kw wi) p kp s))
          (suc m)
          (lighten_right t (address s))
  spreads cp m {wi = wi} {wo = wo} {w = w} {kw = kw} below parent bl br =
      let whole = plug rest (node cp (node black wo w kw wi) p kp s) in
      let is_black : has_red t w ≡ false =
        ap (λ (x : RbNode). is_red x.color) below.at.around.2.1 in
      subst (Lightens whole (suc m))
        (sym (
          lighten_right-spreads t (address s) w
            (brother_right t cp p kp black wi w kw wo rest s below) is_black))
        (spread_right-Lightens p kp rest s n whole balanced t cp m _ _ wi w kw wo below parent bl br
          (Same-refl whole))

  -- A red brother, whose inner child is the next brother.
  raises :
      {ca cb cr : Color} {a b wo : Tree} {v w : ℕ} {kv kw : ℤ}
      → Below t (from_right black p kp (node red wo w kw (node black b v kv a)) ∷ rest) s
      → Hole black (suc (suc n)) rest
      → Balanced ca n a
      → Balanced cb n b
      → Balanced cr (suc n) wo
      → Lightens
          (plug rest (node black (node red wo w kw (node black b v kv a)) p kp s))
          (suc (length rest))
          (lighten_right t (address s))
  raises {a = a} {b = b} {wo = wo} {v = v} {w = w} {kv = kv} {kw = kw} below up ba bb br =
      let wi = node black b v kv a in
      let whole = plug rest (node black (node red wo w kw wi) p kp s) in
      let rest' = from_right black w kw wo ∷ rest in
      let t3 = raise_right t (address s) w in
      let raised = raise_right-Below t black p kp red wi w kw wo rest s below in
      let is_high : has_red t w ≡ true = ap (λ (x : RbNode). is_red x.color) below.at.around.2.1 in
      let round =
        lighten_right-raises t (address s) w
          (brother_right t black p kp red wi w kw wo rest s below) is_high
        ∙ ap (spread_right t3 (address s))
            (brother_right t3 red p kp black a v kv b rest' s raised) in
      subst (Lightens whole (suc (length rest))) (sym round) (
        Lightens-weaken whole 1 (suc (length rest)) _ (omega arith) (
          spread_right-Lightens p kp rest' s n whole balanced t3 red 0 _ _ a v kv b raised
            (red_parent (black_right br up)) ba bb
            (Same-plug rest _ _ (Same-rotated_back s wi wo p w kp kw black red black red))))

  -- A round at a right child.
  pub lighten_right-Lightens :
      (cp : Color) (o : Tree)
      → Below t (from_right cp p kp o ∷ rest) s
      → Hole black (suc n) (from_right cp p kp o ∷ rest)
      → Lightens (plug rest (node cp o p kp s)) (suc (length rest)) (lighten_right t (address s))
  lighten_right-Lightens black _ below (black_right (black_node br bl) up) =
      spreads black (length rest) below (black_parent up) bl br
  lighten_right-Lightens black _ below (black_right (red_node br (black_node bb ba)) up) =
      raises below up ba bb br
  lighten_right-Lightens red _ below (red_right (black_node br bl) up) =
      Lightens-weaken _ 1 (suc (length rest)) _ (omega arith)
        (spreads red 0 below (red_parent up) bl br)
