-- ===== src/RbTree/Insert/Inserted.antt =====
-- rb_insert on a red-black tree.
use mw_race_service_mesh_c.Base.{
  ℕ, zero, suc, ◌≤◌, ◌<◌, ◌≡◌, refl, sym, ap, ◌∙◌, subst, inl, inr, false, Option, some, [], arith,
  true≢false, Bool-cases, length,
}
use mw_race_service_mesh_c.Base.Int.{ℤ}
use mw_race_service_mesh_c.RbTree.{
  red, black, is_red, RbNode, RbTree, nil, set_color, parent_of, fixup_round, insert_fixup,
}
use mw_race_service_mesh_c.RbTree.Shape.{Tree, node, Context, plug, At}
use mw_race_service_mesh_c.RbTree.Shape.Writes.{update_self}
use mw_race_service_mesh_c.RbTree.Shape.Moves.{At-plug, set_color-At}
use mw_race_service_mesh_c.RbTree.Balance.{
  Balanced, bottom, red_node, black_node, Hole, at_root, black_left, black_right, red_left,
  red_right, IsBalanced, plug-IsBalanced,
}
use mw_race_service_mesh_c.RbTree.Fixup.Rounds.{Same, Same-refl, Same-trans, State, Climbs, climbs}
use mw_race_service_mesh_c.RbTree.Fixup.Climb.{round-Climbs, black_above}

-- A balanced tree with the keys and the nodes of another one.
pub data Fixed (whole : Tree) : Option RbTree → Type 0 where
  fixed : (t : RbTree) (s : Tree) → At t [] s → IsBalanced s → Same s whole → Fixed whole (some t)

Fixed-Same : (a b : Tree) (o : Option RbTree) → Same a b → Fixed a o → Fixed b o
Fixed-Same a b _ same (fixed t s at balanced e) = fixed t s at balanced (Same-trans s a b e same)

-- A root that is black stays so.
finish-At :
    (t : RbTree) (s : Tree) {n : ℕ}
    → Balanced black n s
    → At t [] s
    → At (set_color t t.root black) [] s
finish-At t _ bottom at = record {
  subtree = tt;
  around = at.around;
  distinct = at.distinct;
  black_nil =
      ap (λ (i : ℕ). ((set_color t i black).nodes nil).color) at.around
      ∙ ap (λ (x : RbNode). x.color)
          (update_self t.nodes nil (record (t.nodes nil) { color = black }));
}
finish-At t _ (black_node {a = a} {k = k} {l = l} {r = r} bl br) at =
    subst (λ i. At (set_color t i black) [] (node black l a k r)) (sym at.around)
      (set_color-At t [] black a k l r black at)

-- The end of the loop: the parent is black, or there is none.
finish-Fixed :
    (t : RbTree) (fs : Context) (l : Tree) (z : ℕ) (k : ℤ) (r : Tree) {n : ℕ}
    → Hole black n fs
    → Balanced black n l
    → Balanced black n r
    → At t fs (node red l z k r)
    → is_red (t.nodes (parent_of t z)).color ≡ false
    → Fixed (plug fs (node red l z k r)) (some (set_color t t.root black))
finish-Fixed t _ l z k r at_root left right at black_parent =
    fixed (set_color t t.root black) (node black l z k r)
      (subst (λ i. At (set_color t i black) [] (node black l z k r)) (sym at.around)
        (set_color-At t [] red z k l r black at))
      (record { height = _; balanced = black_node left right })
      (record { same_keys = refl; same_nodes = λ x. refl })
finish-Fixed t _ l z k r (black_left {a = a} {k = ka} {r = b} {fs = fs} other up) left right at
      black_parent =
    let whole = plug fs (node black (node red l z k r) a ka b) in
    let b = plug-IsBalanced up (black_node (red_node left right) other) in
    fixed (set_color t t.root black) whole
      (finish-At t whole b.balanced (At-plug t _ (node red l z k r) at)) b (Same-refl whole)
finish-Fixed t _ l z k r (black_right {a = a} {k = ka} {l = b} {fs = fs} other up) left right at
      black_parent =
    let whole = plug fs (node black b a ka (node red l z k r)) in
    let b = plug-IsBalanced up (black_node other (red_node left right)) in
    fixed (set_color t t.root black) whole
      (finish-At t whole b.balanced (At-plug t _ (node red l z k r) at)) b (Same-refl whole)
finish-Fixed t _ l z k r (red_left other up) left right at black_parent =
    absurd (true≢false (sym (black_above t _ _ l z k r at) ∙ black_parent))
finish-Fixed t _ l z k r (red_right other up) left right at black_parent =
    absurd (true≢false (sym (black_above t _ _ l z k r at) ∙ black_parent))

abbrev pub FixesAll : ℕ → Type 0
FixesAll fuel =
    (t : RbTree) (fs : Context) (l : Tree) (z : ℕ) (k : ℤ) (r : Tree) (n : ℕ)
    → State t fs l z k r n
    → length fs < fuel
    → Fixed (plug fs (node red l z k r)) (insert_fixup fuel t z)

go_on :
    (fuel m : ℕ) (whole : Tree) (p : RbTree × ℕ)
    → FixesAll fuel
    → m ≤ fuel
    → Climbs whole m p
    → Fixed whole (insert_fixup fuel p.0 p.1)
go_on fuel m whole _ ih enough (climbs t fs l z k r n st same shorter) =
    Fixed-Same (plug fs (node red l z k r)) whole (insert_fixup fuel t z) same
      (ih t fs l z k r n st (omega arith))

-- rb_insert_fixup gives a balanced tree, with as many rounds as there are nodes above.
pub insert_fixup-Fixed : (fuel : ℕ) → FixesAll fuel
unfolding insert_fixup
insert_fixup-Fixed zero t fs l z k r n st enough = absurd (omega arith)
insert_fixup-Fixed (suc fuel) t fs l z k r n st enough =
    elim (Bool-cases (is_red (t.nodes (parent_of t z)).color)) [
      | inl is_above ↦ rw is_above (
          go_on fuel (length fs) (plug fs (node red l z k r)) (fixup_round t z)
            (insert_fixup-Fixed fuel) (omega arith) (round-Climbs t fs l z k r n st is_above))
      | inr none_above ↦
          rw none_above (finish-Fixed t fs l z k r st.hole st.left st.right st.at none_above)
    ]
