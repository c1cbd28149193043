-- ===== src/RbTree/Delete/Left/Steps.antt =====
-- The brother of a left child becomes black first, and the round goes on.
use mw_race_service_mesh_c.Base.{
  ℕ, suc, ◌≡◌, refl, sym, ap, ◌∙◌, subst, true, false, ◌∷◌, arith, length,
}
use mw_race_service_mesh_c.Base.Int.{ℤ}
use mw_race_service_mesh_c.RbTree.{Color, red, black, is_red, RbNode, RbTree, parent_of}
use mw_race_service_mesh_c.RbTree.Shape.{Tree, node, from_left, Context, address, plug}
use mw_race_service_mesh_c.RbTree.Balance.{
  Balanced, red_node, black_node, Hole, black_left, red_left,
}
use mw_race_service_mesh_c.RbTree.Fixup.Rounds.{Same-refl, Same-plug}
use mw_race_service_mesh_c.RbTree.Delete.{
  has_red, raise_left, find_brother_left, spread_left, lighten_left,
}
use mw_race_service_mesh_c.RbTree.Delete.Sentinel.{Below}
use mw_race_service_mesh_c.RbTree.Delete.Light.{
  Lightens, Lightens-weaken, Parent, black_parent, red_parent, Same-rotated,
}
use mw_race_service_mesh_c.RbTree.Delete.Left.{brother_left, raise_left-Below}
use mw_race_service_mesh_c.RbTree.Delete.Left.Rounds.{spread_left-Lightens}

module _ (t : RbTree) (x w : ℕ) (is_brother : (t.nodes (parent_of t x)).rchild ≡ w) where
  lighten_left-spreads : has_red t w ≡ false → lighten_left t x ≡ spread_left t x w
  unfolding lighten_left find_brother_left
  lighten_left-spreads e = rw is_brother (rw e refl)

  lighten_left-raises :
      has_red t w ≡ true
      → lighten_left t x
        ≡ (let t3 = raise_left t x w in spread_left t3 x (t3.nodes (parent_of t3 x)).rchild)
  unfolding lighten_left find_brother_left
  lighten_left-raises e = rw is_brother (rw e refl)

module _ (t : RbTree) (p : ℕ) (kp : ℤ) (rest : Context) (s : Tree) (n : ℕ)
    (balanced : Balanced black n s) where
  -- A black brother.
  spreads :
      (cp : Color) (m : ℕ) {cl cr : Color} {wi wo : Tree} {w : ℕ} {kw : ℤ}
      → Below t (from_left cp p kp (node black wi w kw wo) ∷ rest) s
      → Parent rest n cp m
      → Balanced cl n wi
      → Balanced cr n wo
      → Lightens
          (plug rest (node cp s p kp (node black wi w kw wo)))
          (suc m)
          (lighten_left t (address s))
  spreads cp m {wi = wi} {wo = wo} {w = w} {kw = kw} below parent bl br =
      let whole = plug rest (node cp s p kp (node black wi w kw wo)) in
      let is_black : has_red t w ≡ false =
        ap (λ (x : RbNode). is_red x.color) below.at.around.2.1 in
      subst (Lightens whole (suc m))
        (sym (
          lighten_left-spreads t (address s) w
            (brother_left t cp p kp black wi w kw wo rest s below) is_black))
        (spread_left-Lightens p kp rest s n whole balanced t cp m _ _ wi w kw wo below parent bl br
          (Same-refl whole))

  -- A red brother, whose inner child is the next brother.
  raises :
      {ca cb cr : Color} {a b wo : Tree} {v w : ℕ} {kv kw : ℤ}
      → Below t (from_left black p kp (node red (node black a v kv b) w kw wo) ∷ rest) s
      → Hole black (suc (suc n)) rest
      → Balanced ca n a
      → Balanced cb n b
      → Balanced cr (suc n) wo
      → Lightens
          (plug rest (node black s p kp (node red (node black a v kv b) w kw wo)))
          (suc (length rest))
          (lighten_left t (address s))
  raises {a = a} {b = b} {wo = wo} {v = v} {w = w} {kv = kv} {kw = kw} below up ba bb br =
      let wi = node black a v kv b in
      let whole = plug rest (node black s p kp (node red wi w kw wo)) in
      let rest' = from_left black w kw wo ∷ rest in
      let t3 = raise_left t (address s) w in
      let raised = raise_left-Below t black p kp red wi w kw wo rest s below in
      let is_high : has_red t w ≡ true = ap (λ (x : RbNode). is_red x.color) below.at.around.2.1 in
      let round =
        lighten_left-raises t (address s) w (brother_left t black p kp red wi w kw wo rest s below)
          is_high
        ∙ ap (spread_left t3 (address s))
            (brother_left t3 red p kp black a v kv b rest' s raised) in
      subst (Lightens whole (suc (length rest))) (sym round) (
        Lightens-weaken whole 1 (suc (length rest)) _ (omega arith) (
          spread_left-Lightens p kp rest' s n whole balanced t3 red 0 _ _ a v kv b raised
            (red_parent (black_left br up)) ba bb
            (Same-plug rest _ _ (Same-rotated s wi wo p w kp kw black red black red))))

  -- A round at a left child.
  pub lighten_left-Lightens :
      (cp : Color) (o : Tree)
      → Below t (from_left cp p kp o ∷ rest) s
      → Hole black (suc n) (from_left cp p kp o ∷ rest)
      → Lightens (plug rest (node cp s p kp o)) (suc (length rest)) (lighten_left t (address s))
  lighten_left-Lightens black _ below (black_left (black_node bl br) up) =
      spreads black (length rest) below (black_parent up) bl br
  lighten_left-Lightens black _ below (black_left (red_node (black_node ba bb) br) up) =
      raises below up ba bb br
  lighten_left-Lightens red _ below (red_left (black_node bl br) up) =
      Lightens-weaken _ 1 (suc (length rest)) _ (omega arith)
        (spreads red 0 below (red_parent up) bl br)
