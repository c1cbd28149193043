-- ===== src/RbTree/Fixup/Cases/Left.antt =====
-- A round of rb_insert_fixup with a black uncle below a left child.
use mw_race_service_mesh_c.Base.{
  ℕ, suc, ◌≡◌, sym, ap, ◌∙◌, subst, true, false, ◌∷◌, append_assoc, arith, ◌==◌, ==_refl, length,
}
use mw_race_service_mesh_c.Base.Int.{ℤ}
use mw_race_service_mesh_c.RbTree.{
  red, black, RbNode, RbTree, parent_of, left_rotate, settle_left, fixup_round,
}
use mw_race_service_mesh_c.RbTree.Shape.{
  Tree, node, from_left, from_right, Context, top_color, plug, keys, At,
}
use mw_race_service_mesh_c.RbTree.Shape.Moves.{At-up_right, At-down_left, parent_of-At}
use mw_race_service_mesh_c.RbTree.Rotate.{left_rotate-At}
use mw_race_service_mesh_c.RbTree.Balance.{Balanced, red_node, Hole, black_left}
use mw_race_service_mesh_c.RbTree.Fixup.{goes_left, uncle_color_left, settle_left-At}
use mw_race_service_mesh_c.RbTree.Fixup.Rounds.{
  Same-plug, Climbs, climbs, fixup_left-settles, fixup_left-turns,
}
use mw_race_service_mesh_c.RbTree.Fixup.Cases.{other_child}

-- A black uncle, below a left child.
module _ (t : RbTree) (p : ℕ) (kp : ℤ) (b : Tree) (g : ℕ) (kg : ℤ) (u : Tree) (rest : Context)
    (l : Tree) (z : ℕ) (k : ℤ) (r : Tree) (n : ℕ) (is_black : top_color u ≡ black)
    (uncle : Balanced black n u) (hole : Hole black (suc n) rest) (brother : Balanced black n b)
    (left : Balanced black n l) (right : Balanced black n r) where
  pub outer_left-Climbs :
      At t (from_left red p kp b ∷ from_left black g kg u ∷ rest) (node red l z k r)
      → Climbs
          (plug (from_left red p kp b ∷ from_left black g kg u ∷ rest) (node red l z k r))
          (suc (suc (length rest)))
          (fixup_round t z)
  outer_left-Climbs at =
      let s = node red l z k r in
      let f = from_left red p kp b in
      let fs = from_left black p kp (node red b g kg u) ∷ rest in
      let straight : (z == (t.nodes (parent_of t z)).rchild) ≡ false =
        ap (λ (i : ℕ). z == (t.nodes i).rchild) (parent_of-At t _ red l z k r at)
        ∙ ap (λ (i : RbNode). z == i.rchild) at.around.1
        ∙ other_child t _ f l z k r at in
      let round : fixup_round t z ≡ (settle_left t z, z) =
        goes_left t f black g kg u rest l z k r at
        ∙ fixup_left-settles t z (uncle_color_left t f black g kg u rest l z k r at ∙ is_black)
            straight in
      subst (Climbs (plug (f ∷ from_left black g kg u ∷ rest) s) (suc (suc (length rest))))
        (sym round)
        (climbs (settle_left t z) fs l z k r n
          (record {
            at = settle_left-At t p kp b g kg u rest l z k r at;
            hole = black_left (red_node brother uncle) hole;
            left = left;
            right = right;
          })
          (Same-plug rest (node black s p kp (node red b g kg u))
            (node black (node red s p kp b) g kg u)
            (record {
              same_keys = sym (append_assoc (keys s) (kp ∷ keys b) (kg ∷ keys u));
              same_nodes = λ x. omega arith;
            }))
          (omega arith))

  pub inner_left-Climbs :
      At t (from_right red p kp b ∷ from_left black g kg u ∷ rest) (node red l z k r)
      → Climbs
          (plug (from_right red p kp b ∷ from_left black g kg u ∷ rest) (node red l z k r))
          (suc (suc (length rest)))
          (fixup_round t z)
  inner_left-Climbs at =
      let s = node red l z k r in
      let f = from_right red p kp b in
      let t1 = (left_rotate t p).1 in
      let fs = from_left black z k (node red r g kg u) ∷ rest in
      let parent = parent_of-At t (f ∷ from_left black g kg u ∷ rest) red l z k r at in
      let bent : (z == (t.nodes (parent_of t z)).rchild) ≡ true =
        ap (λ (i : ℕ). z == (t.nodes i).rchild) parent
        ∙ ap (λ (i : RbNode). z == i.rchild) at.around.1
        ∙ ==_refl z in
      let round : fixup_round t z ≡ (settle_left t1 p, p) =
        goes_left t f black g kg u rest l z k r at
        ∙ fixup_left-turns t z (uncle_color_left t f black g kg u rest l z k r at ∙ is_black) bent
        ∙ ap (λ (i : ℕ). (settle_left (left_rotate t i).1 i, i)) parent in
      let turned = At-down_left t1 (from_left black g kg u ∷ rest) red z k (node red b p kp l) r (
        left_rotate-At t (from_left black g kg u ∷ rest) red red b p kp l z k r
          (At-up_right t (from_left black g kg u ∷ rest) red p kp b s at)) in
      subst (Climbs (plug (f ∷ from_left black g kg u ∷ rest) s) (suc (suc (length rest))))
        (sym round)
        (climbs (settle_left t1 p) fs b p kp l n
          (record {
            at = settle_left-At t1 z k r g kg u rest b p kp l turned;
            hole = black_left (red_node right uncle) hole;
            left = brother;
            right = left;
          })
          (Same-plug rest (node black (node red b p kp l) z k (node red r g kg u))
            (node black (node red b p kp s) g kg u)
            (record { same_keys = simp append_assoc; same_nodes = λ x. omega arith }))
          (omega arith))
