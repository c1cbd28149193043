-- ===== src/RbTree/Fixup/Cases/Right.antt =====
-- A round of rb_insert_fixup with a black uncle below a right child.
use mw_race_service_mesh_c.Base.{
  ℕ, suc, ◌≡◌, sym, ap, ◌∙◌, subst, true, false, ◌∷◌, append_assoc, arith, ◌==◌, ==_refl, length,
}
use mw_race_service_mesh_c.Base.Int.{ℤ}
use mw_race_service_mesh_c.RbTree.{
  red, black, RbNode, RbTree, parent_of, right_rotate, settle_right, fixup_round,
}
use mw_race_service_mesh_c.RbTree.Shape.{
  Tree, node, from_left, from_right, Context, top_color, plug, keys, At,
}
use mw_race_service_mesh_c.RbTree.Shape.Moves.{At-up_left, At-down_right, parent_of-At}
use mw_race_service_mesh_c.RbTree.Rotate.{right_rotate-At}
use mw_race_service_mesh_c.RbTree.Balance.{Balanced, red_node, Hole, black_right}
use mw_race_service_mesh_c.RbTree.Fixup.{goes_right, uncle_color_right, settle_right-At}
use mw_race_service_mesh_c.RbTree.Fixup.Rounds.{
  Same-plug, Climbs, climbs, fixup_right-settles, fixup_right-turns,
}
use mw_race_service_mesh_c.RbTree.Fixup.Cases.{other_child}

-- A black uncle, below a right child.
module _ (t : RbTree) (p : ℕ) (kp : ℤ) (b : Tree) (g : ℕ) (kg : ℤ) (u : Tree) (rest : Context)
    (l : Tree) (z : ℕ) (k : ℤ) (r : Tree) (n : ℕ) (is_black : top_color u ≡ black)
    (uncle : Balanced black n u) (hole : Hole black (suc n) rest) (brother : Balanced black n b)
    (left : Balanced black n l) (right : Balanced black n r) where
  pub outer_right-Climbs :
      At t (from_right red p kp b ∷ from_right black g kg u ∷ rest) (node red l z k r)
      → Climbs
          (plug (from_right red p kp b ∷ from_right black g kg u ∷ rest) (node red l z k r))
          (suc (suc (length rest)))
          (fixup_round t z)
  outer_right-Climbs at =
      let s = node red l z k r in
      let f = from_right red p kp b in
      let fs = from_right black p kp (node red u g kg b) ∷ rest in
      let straight : (z == (t.nodes (parent_of t z)).lchild) ≡ false =
        ap (λ (i : ℕ). z == (t.nodes i).lchild) (parent_of-At t _ red l z k r at)
        ∙ ap (λ (i : RbNode). z == i.lchild) at.around.1
        ∙ other_child t _ f l z k r at in
      let round : fixup_round t z ≡ (settle_right t z, z) =
        goes_right t f black g kg u rest l z k r at
        ∙ fixup_right-settles t z (uncle_color_right t f black g kg u rest l z k r at ∙ is_black)
            straight in
      subst (Climbs (plug (f ∷ from_right black g kg u ∷ rest) s) (suc (suc (length rest))))
        (sym round)
        (climbs (settle_right t z) fs l z k r n
          (record {
            at = settle_right-At t p kp b g kg u rest l z k r at;
            hole = black_right (red_node uncle brother) hole;
            left = left;
            right = right;
          })
          (Same-plug rest (node black (node red u g kg b) p kp s)
            (node black u g kg (node red b p kp s))
            (record {
              same_keys = append_assoc (keys u) (kg ∷ keys b) (kp ∷ keys s);
              same_nodes = λ x. omega arith;
            }))
          (omega arith))

  pub inner_right-Climbs :
      At t (from_left red p kp b ∷ from_right black g kg u ∷ rest) (node red l z k r)
      → Climbs
          (plug (from_left red p kp b ∷ from_right black g kg u ∷ rest) (node red l z k r))
          (suc (suc (length rest)))
          (fixup_round t z)
  inner_right-Climbs at =
      let s = node red l z k r in
      let f = from_left red p kp b in
      let t1 = (right_rotate t p).1 in
      let fs = from_right black z k (node red u g kg l) ∷ rest in
      let parent = parent_of-At t (f ∷ from_right black g kg u ∷ rest) red l z k r at in
      let bent : (z == (t.nodes (parent_of t z)).lchild) ≡ true =
        ap (λ (i : ℕ). z == (t.nodes i).lchild) parent
        ∙ ap (λ (i : RbNode). z == i.lchild) at.around.1
        ∙ ==_refl z in
      let round : fixup_round t z ≡ (settle_right t1 p, p) =
        goes_right t f black g kg u rest l z k r at
        ∙ fixup_right-turns t z (uncle_color_right t f black g kg u rest l z k r at ∙ is_black) bent
        ∙ ap (λ (i : ℕ). (settle_right (right_rotate t i).1 i, i)) parent in
      let turned = At-down_right t1 (from_right black g kg u ∷ rest) red z k l (node red r p kp b) (
        right_rotate-At t (from_right black g kg u ∷ rest) red red l z k r p kp b
          (At-up_left t (from_right black g kg u ∷ rest) red p kp s b at)) in
      subst (Climbs (plug (f ∷ from_right black g kg u ∷ rest) s) (suc (suc (length rest))))
        (sym round)
        (climbs (settle_right t1 p) fs r p kp b n
          (record {
            at = settle_right-At t1 z k l g kg u rest r p kp b turned;
            hole = black_right (red_node uncle left) hole;
            left = right;
            right = brother;
          })
          (Same-plug rest (node black (node red u g kg l) z k (node red r p kp b))
            (node black u g kg (node red s p kp b))
            (record { same_keys = simp append_assoc; same_nodes = λ x. omega arith }))
          (omega arith))
