-- ===== src/RbTree/Fixup/Cases.antt =====
-- The cases of a round of rb_insert_fixup.
pub mod Left
pub mod Right
use mw_race_service_mesh_c.Base.{
  ℕ, suc, ◌+◌, ◌≡◌, ◌≢◌, refl, sym, ap, ◌∙◌, subst, true, false, ◌∷◌, ◌++◌, append_assoc, arith,
  ◌==◌, ==_refl, ≢→not_==, length,
}
use mw_race_service_mesh_c.Base.Int.{ℤ}
use mw_race_service_mesh_c.RbTree.{
  Color, red, black, RbNode, RbTree, parent_of, left_rotate, right_rotate, recolor, settle_left,
  settle_right, fixup_round,
}
use mw_race_service_mesh_c.RbTree.Shape.{
  Tree, node, Frame, from_left, from_right, Context, address, top_color, hits, occurs, fill, plug,
  keys, At,
}
use mw_race_service_mesh_c.RbTree.Shape.Writes.{hits_self, address-occurs}
use mw_race_service_mesh_c.RbTree.Shape.Moves.{
  At-up, At-up_left, At-up_right, At-down_left, At-down_right, paint, other, parent_of-At,
}
use mw_race_service_mesh_c.RbTree.Rotate.{left_rotate-At, right_rotate-At}
use mw_race_service_mesh_c.RbTree.Balance.{
  Balanced, red_node, black_node, Hole, black_left, black_right,
}
use mw_race_service_mesh_c.RbTree.Fixup.{
  goes_left, goes_right, uncle_left, uncle_right, uncle_color_left, uncle_color_right, recolor-At,
  recolor-next, settle_left-At, settle_right-At,
}
use mw_race_service_mesh_c.RbTree.Fixup.Rounds.{
  Same, Same-plug, Climbs, climbs, fixup_left-recolors, fixup_left-settles, fixup_left-turns,
  fixup_right-recolors, fixup_right-settles, fixup_right-turns,
}

Same-paint : (c : Color) (f : Frame) (s : Tree) → Same (fill (paint c f) s) (fill f s)
Same-paint c (from_left _ a k r) s = record { same_keys = refl; same_nodes = λ x. refl }
Same-paint c (from_right _ a k l) s = record { same_keys = refl; same_nodes = λ x. refl }

darkened :
    {n : ℕ} {c : Color} {ul : Tree} {ua : ℕ} {uk : ℤ} {ur : Tree}
    → Balanced c n (node red ul ua uk ur)
    → Balanced black (suc n) (node black ul ua uk ur)
darkened (red_node a b) = black_node a b

-- A red uncle.
module _ (t : RbTree) (f : Frame) (g : ℕ) (kg : ℤ) (ul : Tree) (ua : ℕ) (uk : ℤ) (ur : Tree)
    (rest : Context) (l : Tree) (z : ℕ) (k : ℤ) (r : Tree) (n : ℕ) (cu : Color)
    (uncle : Balanced cu n (node red ul ua uk ur)) (hole : Hole black (suc n) rest)
    (parent : Balanced black (suc n) (fill (paint black f) (node red l z k r))) where
  pub recolor_left-Climbs :
      At t (f ∷ from_left black g kg (node red ul ua uk ur) ∷ rest) (node red l z k r)
      → Climbs
          (plug (f ∷ from_left black g kg (node red ul ua uk ur) ∷ rest) (node red l z k r))
          (suc (suc (length rest)))
          (fixup_round t z)
  recolor_left-Climbs at =
      let s = node red l z k r in
      let u = node red ul ua uk ur in
      let ub = node black ul ua uk ur in
      let p = fill (paint black f) s in
      let f2 = from_left black g kg u in
      let v = recolor t z ua in
      let at' = At-up_left v.0 rest red g kg p ub (
        At-up v.0 (from_left red g kg ub ∷ rest) (paint black f) s
          (recolor-At t f f2 rest l z k r red ul ua uk ur at refl)) in
      let lower = Same-paint black f s in
      let round : fixup_round t z ≡ v =
        goes_left t f black g kg u rest l z k r at
        ∙ fixup_left-recolors t z (uncle_color_left t f black g kg u rest l z k r at)
        ∙ ap (recolor t z) (uncle_left t f black g kg u rest l z k r at) in
      subst (Climbs (plug (f ∷ f2 ∷ rest) s) (suc (suc (length rest)))) (sym round) (
        subst (λ a. Climbs (plug (f ∷ f2 ∷ rest) s) (suc (suc (length rest))) (v.0, a))
          (sym (recolor-next t f f2 rest l z k r red ul ua uk ur at refl))
          (climbs v.0 rest p g kg ub (suc n)
            (record { at = at'; hole = hole; left = parent; right = darkened uncle })
            (Same-plug rest (node red p g kg ub) (node black (fill f s) g kg u) (record {
              same_keys = ap (λ ks. ks ++ (kg ∷ keys u)) lower.same_keys;
              same_nodes = λ x. ap (λ i. hits x g + i + occurs x u) (lower.same_nodes x);
            }))
            (omega arith)))

  pub recolor_right-Climbs :
      At t (f ∷ from_right black g kg (node red ul ua uk ur) ∷ rest) (node red l z k r)
      → Climbs
          (plug (f ∷ from_right black g kg (node red ul ua uk ur) ∷ rest) (node red l z k r))
          (suc (suc (length rest)))
          (fixup_round t z)
  recolor_right-Climbs at =
      let s = node red l z k r in
      let u = node red ul ua uk ur in
      let ub = node black ul ua uk ur in
      let p = fill (paint black f) s in
      let f2 = from_right black g kg u in
      let v = recolor t z ua in
      let at' = At-up_right v.0 rest red g kg ub p (
        At-up v.0 (from_right red g kg ub ∷ rest) (paint black f) s
          (recolor-At t f f2 rest l z k r red ul ua uk ur at refl)) in
      let lower = Same-paint black f s in
      let round : fixup_round t z ≡ v =
        goes_right t f black g kg u rest l z k r at
        ∙ fixup_right-recolors t z (uncle_color_right t f black g kg u rest l z k r at)
        ∙ ap (recolor t z) (uncle_right t f black g kg u rest l z k r at) in
      subst (Climbs (plug (f ∷ f2 ∷ rest) s) (suc (suc (length rest)))) (sym round) (
        subst (λ a. Climbs (plug (f ∷ f2 ∷ rest) s) (suc (suc (length rest))) (v.0, a))
          (sym (recolor-next t f f2 rest l z k r red ul ua uk ur at refl))
          (climbs v.0 rest ub g kg p (suc n)
            (record { at = at'; hole = hole; left = darkened uncle; right = parent })
            (Same-plug rest (node red ub g kg p) (node black u g kg (fill f s)) (record {
              same_keys = ap (λ ks. keys u ++ (kg ∷ ks)) lower.same_keys;
              same_nodes = λ x. ap (λ i. hits x g + occurs x u + i) (lower.same_nodes x);
            }))
            (omega arith)))

-- The other child of a parent is another node.
pub other_child :
    (t : RbTree) (fs : Context) (f : Frame) (l : Tree) (z : ℕ) (k : ℤ) (r : Tree)
    → At t (f ∷ fs) (node red l z k r)
    → (z == address (other f)) ≡ false
other_child t fs f l z k r at = ≢→not_== z (address (other f)) (apart f at)
  where
    apart : (f : Frame) → At t (f ∷ fs) (node red l z k r) → z ≢ address (other f)
    apart (from_left c a k' b) at e = absurd (
        omega (
          arith,
          at.distinct z,
          hits_self z,
          address-occurs t.nodes a b at.around.2 (λ e'. at.subtree.0 (e ∙ e')),
          ap (λ x. occurs x b) e,
        ))
    apart (from_right c a k' b) at e = absurd (
        omega (
          arith,
          at.distinct z,
          hits_self z,
          address-occurs t.nodes a b at.around.2 (λ e'. at.subtree.0 (e ∙ e')),
          ap (λ x. occurs x b) e,
        ))
