-- ===== src/RbTree/Rotate.antt =====
-- The rotations of an rb_tree.
pub mod Pieces
use mw_race_service_mesh_c.Base.{
  ℕ, ◌+◌, ◌≤◌, ◌≡◌, ◌≢◌, refl, sym, ap, ap₂, ◌∙◌, subst, arith, ◌==◌, if◌then◌else◌, ≢→not_==,
}
use mw_race_service_mesh_c.Base.Int.{ℤ, pos, negsuc}
use mw_race_service_mesh_c.RbTree.{
  Color, black, RbNode, RbTree, nil, store, set_lchild, set_rchild, set_parent, adopt,
  replace_left_first, replace_right_first, turn_left, left_rotate, turn_right, right_rotate,
}
use mw_race_service_mesh_c.RbTree.Shape.{
  Tree, node, Context, address, above, rb_node, Holds, HoldsContext, hits, occurs, occurs_around,
  At,
}
use mw_race_service_mesh_c.RbTree.Shape.Writes.{
  update_self, update_ne, hits_self, hits_ne, Holds-update, HoldsContext-update, Holds-touch,
  HoldsContext-touch, read-touch, nil-touch, adopt-Touches, adopt-Holds, adopt-root, repointed,
  repointed-HoldsContext, repointed-Touches, replace_left_first-repointed,
  replace_right_first-repointed,
}
use mw_race_service_mesh_c.RbTree.Rotate.Pieces.{turned_left, turned_right}

-- A left rotation of an rb_tree at the subtree that it is at.
pub left_rotate-At :
    (t : RbTree) (fs : Context) (cn cy : Color) (a : Tree) (n : ℕ) (kn : ℤ) (b : Tree) (y : ℕ)
    (ky : ℤ) (c : Tree)
    → At t fs (node cn a n kn (node cy b y ky c))
    → At (left_rotate t n).1 fs (node cy (node cn a n kn b) y ky c)
unfolding left_rotate
left_rotate-At t fs cn cy a n kn b y ky c at =
    let (some_n, at_n, first, (some_y, at_y, second, third)) = at.subtree in
    let distinct : (x : ℕ)
        → hits x n + hits x y + occurs x a + occurs x b + occurs x c + occurs_around x fs ≤ 1 =
      λ x. omega (arith, at.distinct x) in
    let p = turned_left n y a b c fs some_n some_y distinct t cn cy kn ky (record {
      at_n = at_n;
      at_y = at_y;
      first = first;
      second = second;
      third = third;
      around = at.around;
      black_nil = at.black_nil;
    }) in
    let turns : ◌≡◌ {A = ℤ × RbTree}
        (if (t.nodes n).rchild == nil
          then (negsuc 0, t)
          else (pos 1, turn_left t n (t.nodes n).rchild))
        (pos 1, turn_left t n y) =
      ap
        (λ (v : RbNode). if v.rchild == nil then (negsuc 0, t) else (pos 1, turn_left t n v.rchild))
        at_n
      ∙ (rw (≢→not_== y nil some_y) refl) in
    subst (λ (u : ℤ × RbTree). At u.1 fs (node cy (node cn a n kn b) y ky c)) (sym turns)
      (record {
        subtree = (some_y, p.at_y, (some_n, p.at_n, p.first, p.second), p.third);
        around = p.around;
        distinct = λ x. omega (arith, at.distinct x);
        black_nil = p.black_nil;
      })

pub right_rotate-At :
    (t : RbTree) (fs : Context) (cn cy : Color) (a : Tree) (n : ℕ) (kn : ℤ) (b : Tree) (y : ℕ)
    (ky : ℤ) (c : Tree)
    → At t fs (node cy (node cn a n kn b) y ky c)
    → At (right_rotate t y).1 fs (node cn a n kn (node cy b y ky c))
unfolding right_rotate
right_rotate-At t fs cn cy a n kn b y ky c at =
    let (some_y, at_y, (some_n, at_n, first, second), third) = at.subtree in
    let distinct : (x : ℕ)
        → hits x n + hits x y + occurs x a + occurs x b + occurs x c + occurs_around x fs ≤ 1 =
      λ x. omega (arith, at.distinct x) in
    let p = turned_right n y a b c fs some_n some_y distinct t cn cy kn ky (record {
      at_n = at_n;
      at_y = at_y;
      first = first;
      second = second;
      third = third;
      around = at.around;
      black_nil = at.black_nil;
    }) in
    let turns : ◌≡◌ {A = ℤ × RbTree}
        (if (t.nodes y).lchild == nil
          then (negsuc 0, t)
          else (pos 1, turn_right t y (t.nodes y).lchild))
        (pos 1, turn_right t y n) =
      ap
        (λ (v : RbNode).
          if v.lchild == nil then (negsuc 0, t) else (pos 1, turn_right t y v.lchild))
        at_y
      ∙ (rw (≢→not_== n nil some_n) refl) in
    subst (λ (u : ℤ × RbTree). At u.1 fs (node cn a n kn (node cy b y ky c))) (sym turns)
      (record {
        subtree = (some_n, p.at_n, p.first, (some_y, p.at_y, p.second, p.third));
        around = p.around;
        distinct = λ x. omega (arith, at.distinct x);
        black_nil = p.black_nil;
      })
