-- ===== src/RbTree/Insert/Linked.antt =====
-- The new node at its place.
use mw_race_service_mesh_c.Base.{
  ℕ, ◌+◌, ◌≤◌, ◌≡◌, ◌≢◌, refl, sym, ap, ap₂, ◌∙◌, subst, inl, inr, true, false, [], ◌∷◌, ◌++◌,
  arith, ◌==◌, if◌then◌else◌, ==_iff, ≢→not_==, Bool-cases, All,
}
use mw_race_service_mesh_c.Base.Int.{ℤ, ltb_ℤ, ◌<ℤ◌, lt→ltb_ℤ, lt→not_ltb_ℤ}
use mw_race_service_mesh_c.RbTree.{
  red, black, RbNode, RbTree, nil, store, set_parent, set_lchild, set_rchild, set_color, link,
}
use mw_race_service_mesh_c.RbTree.Shape.{
  leaf, node, from_left, from_right, Context, above, HoldsContext, occurs, occurs_around, keys, At,
}
use mw_race_service_mesh_c.RbTree.Shape.Writes.{
  update_self, update_ne, HoldsContext-update, repointed, repointed-HoldsContext, repointed-Touches,
  read-touch, nil-touch,
}
use mw_race_service_mesh_c.RbTree.Order.{before, behind, All-parts}

-- The pointer from above to the new node.
abbrev pointed : RbTree → ℕ → ℕ → RbTree
pointed t pre new =
    if pre == nil
    then record t { root = new }
    else (if ltb_ℤ (t.nodes new).key (t.nodes pre).key
        then set_lchild t pre new
        else set_rchild t pre new)

pointed-repointed :
    (t : RbTree) (fs : Context) (new : ℕ) (key : ℤ)
    → (t.nodes new).key ≡ key
    → HoldsContext t.nodes t.root nil fs
    → All (λ x. x <ℤ key) (before fs)
    → All (λ x. key <ℤ x) (behind fs)
    → pointed t (above fs) new ≡ repointed t nil new fs
pointed-repointed t [] new key e held less more = refl
pointed-repointed t (from_left c a k r ∷ fs) new key e held less more =
    let lt : ltb_ℤ (t.nodes new).key (t.nodes a).key ≡ true =
      ap₂ ltb_ℤ e (ap (λ (x : RbNode). x.key) held.1) ∙ lt→ltb_ℤ key k more.0 in
    rw (≢→not_== a nil held.0) (rw lt refl)
pointed-repointed t (from_right c a k l ∷ fs) new key e held less more =
    let k_less =
      (All-parts (λ x. x <ℤ key) (keys l) (k ∷ [])
        (All-parts (λ x. x <ℤ key) (before fs) (keys l ++ (k ∷ [])) less).1).1.0 in
    let ge : ltb_ℤ (t.nodes new).key (t.nodes a).key ≡ false =
      ap₂ ltb_ℤ e (ap (λ (x : RbNode). x.key) held.1) ∙ lt→not_ltb_ℤ key k k_less in
    rw (≢→not_== a nil held.0) (rw ge refl)

-- A store to a node that has no place in the tree yet.
store_new :
    (t : RbTree) (fs : Context) (x new : ℕ) (v : RbNode)
    → new ≢ nil
    → occurs_around new fs ≡ 0
    → HoldsContext t.nodes t.root x fs
    → HoldsContext (store t new v).nodes (store t new v).root x fs
store_new t fs x new v some_new free held = HoldsContext-update t.nodes t.root x fs new v free held

once :
    (t : RbTree) (fs : Context) (new : ℕ) (key : ℤ)
    → occurs_around new fs ≡ 0
    → At t fs leaf
    → (x : ℕ) → occurs x (node red leaf new key leaf) + occurs_around x fs ≤ 1
once t fs new key free at x = elim (Bool-cases (x == new)) [
  | inl e ↦ rw e (omega (arith, free, ap (λ i. occurs_around i fs) ((==_iff x new).0 e)))
  | inr e ↦ rw e (omega (arith, at.distinct x))
]

pub link-At :
    (t : RbTree) (fs : Context) (new : ℕ)
    → new ≢ nil
    → occurs_around new fs ≡ 0
    → At t fs leaf
    → All (λ x. x <ℤ (t.nodes new).key) (before fs)
    → All (λ x. (t.nodes new).key <ℤ x) (behind fs)
    → At (link t (above fs) new) fs (node red leaf new (t.nodes new).key leaf)
unfolding link
link-At t fs new some_new free at less more =
    let key = (t.nodes new).key in
    let pre = above fs in
    let v1 = record (t.nodes new) { parent = pre } in
    let t1 = set_parent t new pre in
    let own1 = update_self t.nodes new v1 in
    let held1 = store_new t fs nil new v1 some_new free at.around in
    let u = repointed t1 nil new fs in
    let same = pointed-repointed t1 fs new key (ap (λ (x : RbNode). x.key) own1) held1 less more in
    let w = repointed-Touches t1 nil new fs held1 in
    let own2 : u.nodes new ≡ v1 =
      read-touch t1.nodes u.nodes (λ x. occurs_around x fs) new w free ∙ own1 in
    let held2 = repointed-HoldsContext t1 nil new fs (λ x. omega (arith, at.distinct x)) held1 in
    let nil2 =
      ap (λ (x : RbNode). x.color)
        (nil-touch t1.nodes u.nodes (λ x. occurs_around x fs) w
          ∙ update_ne t.nodes new nil v1 some_new)
      ∙ at.black_nil in
    subst
      (λ (t2 : RbTree).
        At (set_color (set_lchild (set_rchild t2 new nil) new nil) new red) fs
          (node red leaf new key leaf))
      (sym same) (colored u own2 held2 nil2)
  where
    colored :
        (u : RbTree)
        → u.nodes new ≡ record (t.nodes new) { parent = above fs }
        → HoldsContext u.nodes u.root new fs
        → (u.nodes nil).color ≡ black
        → At
            (set_color (set_lchild (set_rchild u new nil) new nil) new red)
            fs
            (node red leaf new (t.nodes new).key leaf)
    colored u own held dark =
        let u1 = set_rchild u new nil in
        let u2 = set_lchild u1 new nil in
        let w1 = record (u.nodes new) { rchild = nil } in
        let w2 = record (u1.nodes new) { lchild = nil } in
        let w3 = record (u2.nodes new) { color = red } in
        let e1 : u1.nodes new ≡ record (t.nodes new) { parent = above fs; rchild = nil } =
          update_self u.nodes new w1 ∙ ap (λ (x : RbNode). record x { rchild = nil }) own in
        let e2 : u2.nodes new
            ≡ record (t.nodes new) { parent = above fs; rchild = nil; lchild = nil } =
          update_self u1.nodes new w2 ∙ ap (λ (x : RbNode). record x { lchild = nil }) e1 in
        let e3 = update_self u2.nodes new w3 ∙ ap (λ (x : RbNode). record x { color = red }) e2 in
        record {
          subtree = (some_new, e3, tt, tt);
          around = store_new u2 fs new new w3 some_new free (
              store_new u1 fs new new w2 some_new free
                (store_new u fs new new w1 some_new free held));
          distinct = once t fs new (t.nodes new).key free at;
          black_nil =
              ap (λ (x : RbNode). x.color)
                (update_ne u2.nodes new nil w3 some_new
                  ∙ update_ne u1.nodes new nil w2 some_new
                  ∙ update_ne u.nodes new nil w1 some_new)
              ∙ dark;
        }
