-- ===== src/RbTree/Shape/Writes.antt =====
-- Writes to nodes that a tree or a context does not have.
use mw_race_service_mesh_c.Base.{
  ℕ, ◌+◌, ◌≤◌, ◌<◌, ◌≡◌, ◌≢◌, refl, sym, ap, ◌∙◌, subst, inl, inr, true, false, [], ◌∷◌, arith,
  ◌==◌, ==_iff, ==_refl, ≢→not_==, Bool-cases,
}
use mw_race_service_mesh_c.RbTree.{
  RbNode, RbTree, nil, update, adopt, replace_left_first, replace_right_first, set_parent,
  set_lchild, set_rchild,
}
use mw_race_service_mesh_c.RbTree.Shape.{
  Tree, leaf, node, from_left, from_right, Context, address, above, Holds, HoldsContext, hits,
  occurs, occurs_around,
}

pub update_self : (h : ℕ → RbNode) (a : ℕ) (n : RbNode) → update h a n a ≡ n
unfolding update
update_self h a n = rw (==_refl a) refl

pub update_ne : (h : ℕ → RbNode) (a b : ℕ) (n : RbNode) → a ≢ b → update h a n b ≡ h b
unfolding update
update_ne h a b n ne = elim (Bool-cases (a == b)) [
  | inl e ↦ absurd (ne ((==_iff a b).0 e))
  | inr e ↦ rw e refl
]

pub hits_self : (a : ℕ) → hits a a ≡ 1
hits_self a = rw (==_refl a) refl

pub hits_ne : (a b : ℕ) → hits a b ≡ 0 → a ≢ b
hits_ne a b h e = absurd (omega (arith, h, hits_self b, ap (λ x. hits x b) e))

pub Holds-update :
    (h : ℕ → RbNode) (p : ℕ) (s : Tree) (x : ℕ) (n : RbNode)
    → occurs x s ≡ 0
    → Holds h p s
    → Holds (update h x n) p s
Holds-update h p leaf x n none_there held = tt
Holds-update h p (node c l a k r) x n none_there (some_a, at_a, left, right) = (
  some_a,
  update_ne h x a n (hits_ne x a (omega arith)) ∙ at_a,
  Holds-update h a l x n (omega arith) left,
  Holds-update h a r x n (omega arith) right,
)

pub HoldsContext-update :
    (h : ℕ → RbNode) (root y : ℕ) (fs : Context) (x : ℕ) (n : RbNode)
    → occurs_around x fs ≡ 0
    → HoldsContext h root y fs
    → HoldsContext (update h x n) root y fs
HoldsContext-update h root y [] x n none_there held = held
HoldsContext-update h root y (from_left c a k r ∷ fs) x n none_there (some_a, at_a, other, up) = (
  some_a,
  update_ne h x a n (hits_ne x a (omega arith)) ∙ at_a,
  Holds-update h a r x n (omega arith) other,
  HoldsContext-update h root a fs x n (omega arith) up,
)
HoldsContext-update h root y (from_right c a k l ∷ fs) x n none_there (some_a, at_a, other, up) = (
  some_a,
  update_ne h x a n (hits_ne x a (omega arith)) ∙ at_a,
  Holds-update h a l x n (omega arith) other,
  HoldsContext-update h root a fs x n (omega arith) up,
)

-- An address that occurs is not the sentinel's.
pub address-occurs :
    (h : ℕ → RbNode) (p : ℕ) (s : Tree) → Holds h p s → address s ≢ nil → 0 < occurs (address s) s
address-occurs h p leaf held ne = absurd (ne refl)
address-occurs h p (node c l a k r) held ne = omega (arith, hits_self a)

-- At most one node is written, one that is counted by `may`.
pub data Touches (h h' : ℕ → RbNode) (may : ℕ → ℕ) : Type 0 where
  untouched : h' ≡ h → Touches h h' may
  touched : (x : ℕ) (n : RbNode) → 0 < may x → x ≢ nil → h' ≡ update h x n → Touches h h' may

module _ (h h' : ℕ → RbNode) (may : ℕ → ℕ) where
  pub Holds-touch :
      (p : ℕ) (s : Tree)
      → Touches h h' may
      → ((x : ℕ) → may x + occurs x s ≤ 1)
      → Holds h p s
      → Holds h' p s
  Holds-touch p s (untouched e) apart held = subst (λ g. Holds g p s) (sym e) held
  Holds-touch p s (touched x n counts ne e) apart held =
      subst (λ g. Holds g p s) (sym e) (Holds-update h p s x n (omega (arith, apart x)) held)

  pub HoldsContext-touch :
      (root y : ℕ) (fs : Context)
      → Touches h h' may
      → ((x : ℕ) → may x + occurs_around x fs ≤ 1)
      → HoldsContext h root y fs
      → HoldsContext h' root y fs
  HoldsContext-touch root y fs (untouched e) apart held =
      subst (λ g. HoldsContext g root y fs) (sym e) held
  HoldsContext-touch root y fs (touched x n counts ne e) apart held =
      subst (λ g. HoldsContext g root y fs) (sym e)
        (HoldsContext-update h root y fs x n (omega (arith, apart x)) held)

  pub read-touch : (v : ℕ) → Touches h h' may → may v ≡ 0 → h' v ≡ h v
  read-touch v (untouched e) free = ap (λ g. g v) e
  read-touch v (touched x n counts ne e) free =
      ap (λ g. g v) e ∙ update_ne h x v n (λ same. absurd (omega (arith, ap may same)))

  pub nil-touch : Touches h h' may → h' nil ≡ h nil
  nil-touch (untouched e) = ap (λ g. g nil) e
  nil-touch (touched x n counts ne e) = ap (λ g. g nil) e ∙ update_ne h x nil n ne

-- The child that a rotation moves.
pub adopt-node : (t : RbTree) (a q : ℕ) → a ≢ nil → adopt t a q ≡ set_parent t a q
unfolding adopt
adopt-node t a q some_a = rw (≢→not_== a nil some_a) refl

pub adopt-Touches :
    (t : RbTree) (p q : ℕ) (s : Tree)
    → Holds t.nodes p s
    → Touches t.nodes (adopt t (address s) q).nodes (λ x. occurs x s)
unfolding adopt
adopt-Touches t p q leaf held = untouched refl
adopt-Touches t p q (node c l a k r) held =
    touched a (record (t.nodes a) { parent = q }) (omega (arith, hits_self a)) held.0
      (ap (λ (u : RbTree). u.nodes) (adopt-node t a q held.0))

pub adopt-Holds :
    (t : RbTree) (p q : ℕ) (s : Tree)
    → ((x : ℕ) → occurs x s ≤ 1)
    → Holds t.nodes p s
    → Holds (adopt t (address s) q).nodes q s
adopt-Holds t p q leaf distinct held = tt
adopt-Holds t p q (node c l a k r) distinct (some_a, at_a, left, right) =
    let v = record (t.nodes a) { parent = q } in
    subst (λ (u : RbTree). Holds u.nodes q (node c l a k r)) (sym (adopt-node t a q some_a))
      (
        some_a,
        update_self t.nodes a v ∙ ap (λ (x : RbNode). record x { parent = q }) at_a,
        Holds-update t.nodes a l a v (omega (arith, distinct a, hits_self a)) left,
        Holds-update t.nodes a r a v (omega (arith, distinct a, hits_self a)) right,
      )

pub adopt-root : (t : RbTree) (b q : ℕ) → (adopt t b q).root ≡ t.root
unfolding adopt
adopt-root t b q = elim (Bool-cases (b == nil)) [ inl e ↦ rw e refl | inr e ↦ rw e refl ]

-- The pointer from above.
module _ (t : RbTree) (x z : ℕ) where
  -- The context with the pointer that it has to `x` as one to `z`.
  abbrev pub repointed : Context → RbTree
  repointed [] = record t { root = z }
  repointed (from_left c a k r ∷ fs) = set_lchild t a z
  repointed (from_right c a k l ∷ fs) = set_rchild t a z

  pub repointed-HoldsContext :
      (fs : Context)
      → ((v : ℕ) → occurs_around v fs ≤ 1)
      → HoldsContext t.nodes t.root x fs
      → HoldsContext (repointed fs).nodes (repointed fs).root z fs
  repointed-HoldsContext [] distinct held = refl
  repointed-HoldsContext (from_left c a k r ∷ fs) distinct (some_a, at_a, other, up) =
      let v = record (t.nodes a) { lchild = z } in
      (
        some_a,
        update_self t.nodes a v ∙ ap (λ (n : RbNode). record n { lchild = z }) at_a,
        Holds-update t.nodes a r a v (omega (arith, distinct a, hits_self a)) other,
        HoldsContext-update t.nodes t.root a fs a v (omega (arith, distinct a, hits_self a)) up,
      )
  repointed-HoldsContext (from_right c a k l ∷ fs) distinct (some_a, at_a, other, up) =
      let v = record (t.nodes a) { rchild = z } in
      (
        some_a,
        update_self t.nodes a v ∙ ap (λ (n : RbNode). record n { rchild = z }) at_a,
        Holds-update t.nodes a l a v (omega (arith, distinct a, hits_self a)) other,
        HoldsContext-update t.nodes t.root a fs a v (omega (arith, distinct a, hits_self a)) up,
      )

  pub repointed-Touches :
      (fs : Context)
      → HoldsContext t.nodes t.root x fs
      → Touches t.nodes (repointed fs).nodes (λ v. occurs_around v fs)
  repointed-Touches [] held = untouched refl
  repointed-Touches (from_left c a k r ∷ fs) held =
      touched a (record (t.nodes a) { lchild = z }) (omega (arith, hits_self a)) held.0 refl
  repointed-Touches (from_right c a k l ∷ fs) held =
      touched a (record (t.nodes a) { rchild = z }) (omega (arith, hits_self a)) held.0 refl

  not_other_child :
      (p : ℕ) (s : Tree) → x ≢ nil → Holds t.nodes p s → occurs x s ≡ 0 → (x == address s) ≡ false
  not_other_child p s some_x held free = ≢→not_== x (address s) (λ e. absurd (
      omega
        (arith, address-occurs t.nodes p s held (λ e'. some_x (e ∙ e')), ap (λ v. occurs v s) e)))

  pub replace_left_first-repointed :
      (fs : Context)
      → x ≢ nil
      → occurs_around x fs ≡ 0
      → HoldsContext t.nodes t.root x fs
      → replace_left_first t (above fs) x z ≡ repointed fs
  unfolding replace_left_first
  replace_left_first-repointed [] some_x free held = refl
  replace_left_first-repointed (from_left c a k r ∷ fs) some_x free (some_a, at_a, other, up) =
      let first : (x == (t.nodes a).lchild) ≡ true =
        ap (λ (n : RbNode). x == n.lchild) at_a ∙ ==_refl x in
      rw (≢→not_== a nil some_a) (rw first refl)
  replace_left_first-repointed (from_right c a k l ∷ fs) some_x free (some_a, at_a, other, up) =
      let second : (x == (t.nodes a).lchild) ≡ false =
        ap (λ (n : RbNode). x == n.lchild) at_a ∙ not_other_child a l some_x other (omega arith) in
      rw (≢→not_== a nil some_a) (rw second refl)

  pub replace_right_first-repointed :
      (fs : Context)
      → x ≢ nil
      → occurs_around x fs ≡ 0
      → HoldsContext t.nodes t.root x fs
      → replace_right_first t (above fs) x z ≡ repointed fs
  unfolding replace_right_first
  replace_right_first-repointed [] some_x free held = refl
  replace_right_first-repointed (from_left c a k r ∷ fs) some_x free (some_a, at_a, other, up) =
      let second : (x == (t.nodes a).rchild) ≡ false =
        ap (λ (n : RbNode). x == n.rchild) at_a ∙ not_other_child a r some_x other (omega arith) in
      rw (≢→not_== a nil some_a) (rw second refl)
  replace_right_first-repointed (from_right c a k l ∷ fs) some_x free (some_a, at_a, other, up) =
      let first : (x == (t.nodes a).rchild) ≡ true =
        ap (λ (n : RbNode). x == n.rchild) at_a ∙ ==_refl x in
      rw (≢→not_== a nil some_a) (rw first refl)
