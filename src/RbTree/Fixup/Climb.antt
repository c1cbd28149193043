-- ===== src/RbTree/Fixup/Climb.antt =====
-- Every round of rb_insert_fixup moves the red node up.
use mw_race_service_mesh_c.Base.{ℕ, ◌≡◌, refl, sym, ap, ◌∙◌, true, [], ◌∷◌, true≢false, length}
use mw_race_service_mesh_c.Base.Int.{ℤ}
use mw_race_service_mesh_c.RbTree.{red, black, is_red, RbTree, parent_of, fixup_round}
use mw_race_service_mesh_c.RbTree.Shape.{Tree, node, Frame, Context, plug, At}
use mw_race_service_mesh_c.RbTree.Shape.Moves.{other, parent_of-At}
use mw_race_service_mesh_c.RbTree.Balance.{
  Balanced, bottom, red_node, black_node, Hole, at_root, black_left, black_right, red_left,
  red_right,
}
use mw_race_service_mesh_c.RbTree.Fixup.Rounds.{State, Climbs}
use mw_race_service_mesh_c.RbTree.Shape.{frame_color}
use mw_race_service_mesh_c.RbTree.Shape.Moves.{color-frame}
use mw_race_service_mesh_c.RbTree.Fixup.Cases.{recolor_left-Climbs, recolor_right-Climbs}
use mw_race_service_mesh_c.RbTree.Fixup.Cases.Left.{outer_left-Climbs, inner_left-Climbs}
use mw_race_service_mesh_c.RbTree.Fixup.Cases.Right.{outer_right-Climbs, inner_right-Climbs}

abbrev Rises : RbTree → Context → Tree → ℕ → Type 0
Rises t fs s z = Climbs (plug fs s) (length fs) (fixup_round t z)

pub black_above :
    (t : RbTree) (fs : Context) (f : Frame) (l : Tree) (z : ℕ) (k : ℤ) (r : Tree)
    → At t (f ∷ fs) (node red l z k r)
    → is_red (t.nodes (parent_of t z)).color ≡ is_red (frame_color f)
black_above t fs f l z k r at =
    ap (λ (i : ℕ). is_red (t.nodes i).color) (parent_of-At t (f ∷ fs) red l z k r at)
    ∙ ap is_red (color-frame t fs f (node red l z k r) at)

rise :
    (t : RbTree) {fs : Context} (l : Tree) (z : ℕ) (k : ℤ) (r : Tree) {n : ℕ}
    → Hole black n fs
    → Balanced black n l
    → Balanced black n r
    → At t fs (node red l z k r)
    → is_red (t.nodes (parent_of t z)).color ≡ true
    → Rises t fs (node red l z k r) z
rise t l z k r at_root left right at is_above = absurd (
    true≢false (
      sym is_above
      ∙ ap (λ (i : ℕ). is_red (t.nodes i).color) (parent_of-At t [] red l z k r at)
      ∙ ap is_red at.black_nil))
rise t l z k r (black_left other up) left right at is_above =
    absurd (true≢false (sym is_above ∙ black_above t _ _ l z k r at))
rise t l z k r (black_right other up) left right at is_above =
    absurd (true≢false (sym is_above ∙ black_above t _ _ l z k r at))
rise t l z k r (red_left b (black_left bottom up)) left right at is_above =
    outer_left-Climbs t _ _ _ _ _ _ _ l z k r _ refl bottom up b left right at
rise t l z k r (red_left b (black_left (red_node ua ub) up)) left right at is_above =
    recolor_left-Climbs t _ _ _ _ _ _ _ _ l z k r _ _ (red_node ua ub) up
      (black_node (red_node left right) b) at
rise t l z k r (red_left b (black_left (black_node ua ub) up)) left right at is_above =
    outer_left-Climbs t _ _ _ _ _ _ _ l z k r _ refl (black_node ua ub) up b left right at
rise t l z k r (red_left b (black_right bottom up)) left right at is_above =
    inner_right-Climbs t _ _ _ _ _ _ _ l z k r _ refl bottom up b left right at
rise t l z k r (red_left b (black_right (red_node ua ub) up)) left right at is_above =
    recolor_right-Climbs t _ _ _ _ _ _ _ _ l z k r _ _ (red_node ua ub) up
      (black_node (red_node left right) b) at
rise t l z k r (red_left b (black_right (black_node ua ub) up)) left right at is_above =
    inner_right-Climbs t _ _ _ _ _ _ _ l z k r _ refl (black_node ua ub) up b left right at
rise t l z k r (red_right b (black_left bottom up)) left right at is_above =
    inner_left-Climbs t _ _ _ _ _ _ _ l z k r _ refl bottom up b left right at
rise t l z k r (red_right b (black_left (red_node ua ub) up)) left right at is_above =
    recolor_left-Climbs t _ _ _ _ _ _ _ _ l z k r _ _ (red_node ua ub) up
      (black_node b (red_node left right)) at
rise t l z k r (red_right b (black_left (black_node ua ub) up)) left right at is_above =
    inner_left-Climbs t _ _ _ _ _ _ _ l z k r _ refl (black_node ua ub) up b left right at
rise t l z k r (red_right b (black_right bottom up)) left right at is_above =
    outer_right-Climbs t _ _ _ _ _ _ _ l z k r _ refl bottom up b left right at
rise t l z k r (red_right b (black_right (red_node ua ub) up)) left right at is_above =
    recolor_right-Climbs t _ _ _ _ _ _ _ _ l z k r _ _ (red_node ua ub) up
      (black_node b (red_node left right)) at
rise t l z k r (red_right b (black_right (black_node ua ub) up)) left right at is_above =
    outer_right-Climbs t _ _ _ _ _ _ _ l z k r _ refl (black_node ua ub) up b left right at

-- A round of rb_insert_fixup with a red parent moves the red node up.
pub round-Climbs :
    (t : RbTree) (fs : Context) (l : Tree) (z : ℕ) (k : ℤ) (r : Tree) (n : ℕ)
    → State t fs l z k r n
    → is_red (t.nodes (parent_of t z)).color ≡ true
    → Climbs (plug fs (node red l z k r)) (length fs) (fixup_round t z)
round-Climbs t fs l z k r n st is_above = rise t l z k r st.hole st.left st.right st.at is_above
