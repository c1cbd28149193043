-- ===== src/RbTree/Rotate/Pieces.antt =====
-- The writes of a rotation of an rb_tree.
use mw_race_service_mesh_c.Base.{ℕ, ◌+◌, ◌≤◌, ◌≡◌, ◌≢◌, sym, ap, ap₂, ◌∙◌, subst, arith}
use mw_race_service_mesh_c.Base.Int.{ℤ}
use mw_race_service_mesh_c.RbTree.{
  Color, black, RbNode, RbTree, nil, store, set_lchild, set_rchild, set_parent, adopt,
  replace_left_first, replace_right_first, turn_left, turn_right,
}
use mw_race_service_mesh_c.RbTree.Shape.{
  Tree, Context, address, above, rb_node, Holds, HoldsContext, hits, occurs, occurs_around,
}
use mw_race_service_mesh_c.RbTree.Shape.Writes.{
  update_self, update_ne, hits_self, hits_ne, Holds-update, HoldsContext-update, Holds-touch,
  HoldsContext-touch, read-touch, nil-touch, adopt-Touches, adopt-Holds, adopt-root, repointed,
  repointed-HoldsContext, repointed-Touches, replace_left_first-repointed,
  replace_right_first-repointed,
}

-- Two nodes, the three subtrees that hang on them, and what is around.
module _ (n y : ℕ) (a b c : Tree) (fs : Context) (some_n : n ≢ nil) (some_y : y ≢ nil)
    (distinct : (x : ℕ)
      → hits x n + hits x y + occurs x a + occurs x b + occurs x c + occurs_around x fs ≤ 1) where
  pub record Pieces (t : RbTree) (vn vy : RbNode) (pa pb pc top : ℕ) : Type 0 where
    pub at_n : t.nodes n ≡ vn
    pub at_y : t.nodes y ≡ vy
    pub first : Holds t.nodes pa a
    pub second : Holds t.nodes pb b
    pub third : Holds t.nodes pc c
    pub around : HoldsContext t.nodes t.root top fs
    pub black_nil : (t.nodes nil).color ≡ black

  n_ne_y : n ≢ y
  n_ne_y = hits_ne n y (omega (arith, distinct n, hits_self n))

  pub write_n :
      (t : RbTree) (vn vy : RbNode) (pa pb pc top : ℕ) (v v' : RbNode)
      → Pieces t vn vy pa pb pc top
      → v ≡ v'
      → Pieces (store t n v) v' vy pa pb pc top
  write_n t vn vy pa pb pc top v v' p e = record {
    at_n = update_self t.nodes n v ∙ e;
    at_y = update_ne t.nodes n y v n_ne_y ∙ p.at_y;
    first = Holds-update t.nodes pa a n v (omega (arith, distinct n, hits_self n)) p.first;
    second = Holds-update t.nodes pb b n v (omega (arith, distinct n, hits_self n)) p.second;
    third = Holds-update t.nodes pc c n v (omega (arith, distinct n, hits_self n)) p.third;
    around =
        HoldsContext-update t.nodes t.root top fs n v (omega (arith, distinct n, hits_self n))
          p.around;
    black_nil = ap (λ (x : RbNode). x.color) (update_ne t.nodes n nil v some_n) ∙ p.black_nil;
  }

  write_y :
      (t : RbTree) (vn vy : RbNode) (pa pb pc top : ℕ) (v v' : RbNode)
      → Pieces t vn vy pa pb pc top
      → v ≡ v'
      → Pieces (store t y v) vn v' pa pb pc top
  write_y t vn vy pa pb pc top v v' p e = record {
    at_n = update_ne t.nodes y n v (λ e'. n_ne_y (sym e')) ∙ p.at_n;
    at_y = update_self t.nodes y v ∙ e;
    first = Holds-update t.nodes pa a y v (omega (arith, distinct y, hits_self y)) p.first;
    second = Holds-update t.nodes pb b y v (omega (arith, distinct y, hits_self y)) p.second;
    third = Holds-update t.nodes pc c y v (omega (arith, distinct y, hits_self y)) p.third;
    around =
        HoldsContext-update t.nodes t.root top fs y v (omega (arith, distinct y, hits_self y))
          p.around;
    black_nil = ap (λ (x : RbNode). x.color) (update_ne t.nodes y nil v some_y) ∙ p.black_nil;
  }

  pub adopt_second :
      (t : RbTree) (vn vy : RbNode) (pa pb pc top q m : ℕ)
      → Pieces t vn vy pa pb pc top
      → m ≡ address b
      → Pieces (adopt t m q) vn vy pa q pc top
  adopt_second t vn vy pa pb pc top q m p e =
      let t' = adopt t (address b) q in
      let w = adopt-Touches t pb q b p.second in
      let may : ℕ → ℕ = λ x. occurs x b in
      subst (λ i. Pieces (adopt t i q) vn vy pa q pc top) (sym e)
        (record {
          at_n =
              read-touch t.nodes t'.nodes may n w (omega (arith, distinct n, hits_self n)) ∙ p.at_n;
          at_y =
              read-touch t.nodes t'.nodes may y w (omega (arith, distinct y, hits_self y)) ∙ p.at_y;
          first = Holds-touch t.nodes t'.nodes may pa a w (λ x. omega (arith, distinct x)) p.first;
          second = adopt-Holds t pb q b (λ x. omega (arith, distinct x)) p.second;
          third = Holds-touch t.nodes t'.nodes may pc c w (λ x. omega (arith, distinct x)) p.third;
          around =
              subst (λ r. HoldsContext t'.nodes r top fs) (sym (adopt-root t (address b) q))
                (HoldsContext-touch t.nodes t'.nodes may t.root top fs w
                  (λ x. omega (arith, distinct x)) p.around);
          black_nil = ap (λ (x : RbNode). x.color) (nil-touch t.nodes t'.nodes may w) ∙ p.black_nil;
        })

  repoint :
      (t t' : RbTree) (vn vy : RbNode) (pa pb pc top z : ℕ)
      → Pieces t vn vy pa pb pc top
      → t' ≡ repointed t top z fs
      → Pieces t' vn vy pa pb pc z
  repoint t t' vn vy pa pb pc top z p e =
      let u = repointed t top z fs in
      let w = repointed-Touches t top z fs p.around in
      let may : ℕ → ℕ = λ x. occurs_around x fs in
      subst (λ i. Pieces i vn vy pa pb pc z) (sym e)
        (record {
          at_n =
              read-touch t.nodes u.nodes may n w (omega (arith, distinct n, hits_self n)) ∙ p.at_n;
          at_y =
              read-touch t.nodes u.nodes may y w (omega (arith, distinct y, hits_self y)) ∙ p.at_y;
          first = Holds-touch t.nodes u.nodes may pa a w (λ x. omega (arith, distinct x)) p.first;
          second = Holds-touch t.nodes u.nodes may pb b w (λ x. omega (arith, distinct x)) p.second;
          third = Holds-touch t.nodes u.nodes may pc c w (λ x. omega (arith, distinct x)) p.third;
          around = repointed-HoldsContext t top z fs (λ x. omega (arith, distinct x)) p.around;
          black_nil = ap (λ (x : RbNode). x.color) (nil-touch t.nodes u.nodes may w) ∙ p.black_nil;
        })

  -- The left rotation at `n`.
  pub turned_left :
      (t : RbTree) (cn cy : Color) (kn ky : ℤ)
      → Pieces t
          (rb_node cn kn (address a) y (above fs))
          (rb_node cy ky (address b) (address c) n)
          n
          y
          y
          n
      → Pieces
          (turn_left t n y)
          (rb_node cn kn (address a) (address b) y)
          (rb_node cy ky n (address c) (above fs))
          n
          n
          y
          y
  unfolding turn_left
  turned_left t cn cy kn ky p0 =
      let up = above fs in
      let p1 =
        write_n t _ _ _ _ _ _ _ (rb_node cn kn (address a) (address b) up) p0
          (ap₂ (λ (i j : RbNode). record i { rchild = j.lchild }) p0.at_n p0.at_y) in
      let t1 = set_rchild t n (t.nodes y).lchild in
      let p2 =
        adopt_second t1 _ _ _ _ _ _ n (t1.nodes y).lchild p1
          (ap (λ (i : RbNode). i.lchild) p1.at_y) in
      let t2 = adopt t1 (t1.nodes y).lchild n in
      let p3 =
        write_y t2 _ _ _ _ _ _ _ (rb_node cy ky (address b) (address c) up) p2
          (ap₂ (λ (i j : RbNode). record i { parent = j.parent }) p2.at_y p2.at_n) in
      let t3 = set_parent t2 y (t2.nodes n).parent in
      let free : occurs_around n fs ≡ 0 = omega (arith, distinct n, hits_self n) in
      let p4 = repoint t3 (replace_left_first t3 (t3.nodes n).parent n y) _ _ _ _ _ n y p3 (
        ap (λ (i : RbNode). replace_left_first t3 i.parent n y) p3.at_n
        ∙ replace_left_first-repointed t3 n y fs some_n free p3.around) in
      let t4 = replace_left_first t3 (t3.nodes n).parent n y in
      let p5 =
        write_y t4 _ _ _ _ _ _ _ (rb_node cy ky n (address c) up) p4
          (ap (λ (i : RbNode). record i { lchild = n }) p4.at_y) in
      let t5 = set_lchild t4 y n in
      write_n t5 _ _ _ _ _ _ _ (rb_node cn kn (address a) (address b) y) p5
        (ap (λ (i : RbNode). record i { parent = y }) p5.at_n)

  -- The right rotation at `y`.
  pub turned_right :
      (t : RbTree) (cn cy : Color) (kn ky : ℤ)
      → Pieces t
          (rb_node cn kn (address a) (address b) y)
          (rb_node cy ky n (address c) (above fs))
          n
          n
          y
          y
      → Pieces
          (turn_right t y n)
          (rb_node cn kn (address a) y (above fs))
          (rb_node cy ky (address b) (address c) n)
          n
          y
          y
          n
  unfolding turn_right
  turned_right t cn cy kn ky p0 =
      let up = above fs in
      let p1 =
        write_y t _ _ _ _ _ _ _ (rb_node cy ky (address b) (address c) up) p0
          (ap₂ (λ (i j : RbNode). record i { lchild = j.rchild }) p0.at_y p0.at_n) in
      let t1 = set_lchild t y (t.nodes n).rchild in
      let p2 =
        adopt_second t1 _ _ _ _ _ _ y (t1.nodes n).rchild p1
          (ap (λ (i : RbNode). i.rchild) p1.at_n) in
      let t2 = adopt t1 (t1.nodes n).rchild y in
      let p3 =
        write_n t2 _ _ _ _ _ _ _ (rb_node cn kn (address a) (address b) up) p2
          (ap₂ (λ (i j : RbNode). record i { parent = j.parent }) p2.at_n p2.at_y) in
      let t3 = set_parent t2 n (t2.nodes y).parent in
      let free : occurs_around y fs ≡ 0 = omega (arith, distinct y, hits_self y) in
      let p4 = repoint t3 (replace_right_first t3 (t3.nodes y).parent y n) _ _ _ _ _ y n p3 (
        ap (λ (i : RbNode). replace_right_first t3 i.parent y n) p3.at_y
        ∙ replace_right_first-repointed t3 y n fs some_y free p3.around) in
      let t4 = replace_right_first t3 (t3.nodes y).parent y n in
      let p5 =
        write_n t4 _ _ _ _ _ _ _ (rb_node cn kn (address a) y up) p4
          (ap (λ (i : RbNode). record i { rchild = y }) p4.at_n) in
      let t5 = set_rchild t4 n y in
      write_y t5 _ _ _ _ _ _ _ (rb_node cy ky (address b) (address c) n) p5
        (ap (λ (i : RbNode). record i { parent = n }) p5.at_y)
