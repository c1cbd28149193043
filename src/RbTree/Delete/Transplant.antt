-- ===== src/RbTree/Delete/Transplant.antt =====
-- rb_transplant on the tree that the nodes make up.
use mw_race_service_mesh_c.Base.{
  ℕ, ◌+◌, ◌≤◌, ◌≡◌, ◌≢◌, refl, sym, ap, ◌∙◌, subst, inl, inr, false, [], ◌∷◌, arith, ◌==◌, ==_iff,
  ==_refl, ≢→not_==, Bool-cases,
}
use mw_race_service_mesh_c.RbTree.{
  black, RbNode, RbTree, nil, update, set_parent, replace_left_first, parent_of,
}
use mw_race_service_mesh_c.RbTree.Shape.{
  Tree, leaf, node, Frame, from_left, from_right, Context, address, above, Holds, HoldsContext,
  hits, occurs, occurs_around,
}
use mw_race_service_mesh_c.RbTree.Shape.Writes.{
  update_self, update_ne, hits_self, Holds-update, HoldsContext-update, Holds-touch, Touches,
  read-touch, nil-touch, repointed, repointed-HoldsContext, repointed-Touches,
  replace_left_first-repointed,
}
use mw_race_service_mesh_c.RbTree.Delete.{replace_root_first, transplant}
use mw_race_service_mesh_c.RbTree.Delete.Sentinel.{Below, store-nil}
use mw_race_service_mesh_c.RbTree.Delete.Fixed.{root-occurs}

-- The sentinel is no node of a tree.
hits-nil : (a : ℕ) → a ≢ nil → hits nil a ≡ 0
hits-nil a some_a = rw (≢→not_== nil a (λ e. some_a (sym e))) refl

occurs-nil : (h : ℕ → RbNode) (p : ℕ) (s : Tree) → Holds h p s → occurs nil s ≡ 0
occurs-nil h p leaf held = refl
occurs-nil h p (node c l a k r) (some_a, at_a, left, right) =
    omega (arith, hits-nil a some_a, occurs-nil h a l left, occurs-nil h a r right)

occurs_around-nil :
    (h : ℕ → RbNode) (root x : ℕ) (fs : Context)
    → HoldsContext h root x fs
    → occurs_around nil fs ≡ 0
occurs_around-nil h root x [] held = refl
occurs_around-nil h root x (from_left c a k o ∷ fs) (some_a, at_a, other, up) =
    omega (arith, hits-nil a some_a, occurs-nil h a o other, occurs_around-nil h root a fs up)
occurs_around-nil h root x (from_right c a k o ∷ fs) (some_a, at_a, other, up) =
    omega (arith, hits-nil a some_a, occurs-nil h a o other, occurs_around-nil h root a fs up)

-- The address of a subtree, or the sentinel's, is not in another one.
pub address-free :
    (h : ℕ → RbNode) (p : ℕ) (s o : Tree)
    → Holds h p o
    → ((x : ℕ) → occurs x s + occurs x o ≤ 1)
    → occurs (address s) o ≡ 0
address-free h p leaf o held apart = occurs-nil h p o held
address-free h p (node c l a k r) o held apart = omega (arith, apart a, hits_self a)

pub address-free_around :
    (h : ℕ → RbNode) (root x : ℕ) (s : Tree) (fs : Context)
    → HoldsContext h root x fs
    → ((x : ℕ) → occurs x s + occurs_around x fs ≤ 1)
    → occurs_around (address s) fs ≡ 0
address-free_around h root x leaf fs held apart = occurs_around-nil h root x fs held
address-free_around h root x (node c l a k r) fs held apart = omega (arith, apart a, hits_self a)

-- A subtree gets a parent; a leaf lets the sentinel get it.
pub set_parent-Holds :
    (t : RbTree) (p q : ℕ) (s : Tree)
    → ((x : ℕ) → occurs x s ≤ 1)
    → Holds t.nodes p s
    → Holds (set_parent t (address s) q).nodes q s
set_parent-Holds t p q leaf distinct held = tt
set_parent-Holds t p q (node c l a k r) distinct (some_a, at_a, left, right) =
    let v = record (t.nodes a) { parent = q } in
    (
      some_a,
      update_self t.nodes a v ∙ ap (λ (x : RbNode). record x { parent = q }) at_a,
      Holds-update t.nodes a l a v (omega (arith, distinct a, hits_self a)) left,
      Holds-update t.nodes a r a v (omega (arith, distinct a, hits_self a)) right,
    )

pub set_parent-black_nil :
    (t : RbTree) (a q : ℕ)
    → (t.nodes nil).color ≡ black
    → ((set_parent t a q).nodes nil).color ≡ black
unfolding update
set_parent-black_nil t a q dark = elim (Bool-cases (a == nil)) [
  | inl e ↦ rw e (ap (λ i. (t.nodes i).color) ((==_iff a nil).0 e) ∙ dark)
  | inr e ↦ rw e dark
]

-- A node `z` with its place in a context, and a subtree that gets the place.
module _ (t : RbTree) (fs : Context) (z : ℕ) (s : Tree) (some_z : z ≢ nil)
    (parent_z : parent_of t z ≡ above fs) (around : HoldsContext t.nodes t.root z fs)
    (distinct : (x : ℕ) → hits x z + occurs x s + occurs_around x fs ≤ 1) where
  free : occurs_around z fs ≡ 0
  free = omega (arith, distinct z, hits_self z)

  abbrev moved : RbTree
  moved = repointed t z (address s) fs

  not_root :
      (f : Frame) (rest : Context)
      → HoldsContext t.nodes t.root z (f ∷ rest)
      → occurs_around z (f ∷ rest) ≡ 0
      → (z == t.root) ≡ false
  not_root f rest held none_there = ≢→not_== z t.root (λ e. absurd (
      omega (
        arith,
        none_there,
        root-occurs t.nodes t.root z f rest held,
        ap (λ i. occurs_around i (f ∷ rest)) e,
      )))

  above_child :
      (p a : ℕ)
      → (z == t.root) ≡ false
      → p ≢ nil
      → replace_root_first t p z a ≡ replace_left_first t p z a
  unfolding replace_root_first replace_left_first
  above_child p a e some_p = rw (≢→not_== z nil some_z) (rw e (rw (≢→not_== p nil some_p) refl))

  replaced :
      (gs : Context)
      → HoldsContext t.nodes t.root z gs
      → occurs_around z gs ≡ 0
      → replace_root_first t (above gs) z (address s) ≡ repointed t z (address s) gs
  unfolding replace_root_first
  replaced [] held none_there =
      rw (≢→not_== z nil some_z) (rw (ap (λ i. z == i) held ∙ ==_refl z) refl)
  replaced (from_left c a k o ∷ rest) held none_there =
      above_child a (address s) (not_root (from_left c a k o) rest held none_there) held.0
      ∙ replace_left_first-repointed t z (address s) (from_left c a k o ∷ rest) some_z none_there
          held
  replaced (from_right c a k o ∷ rest) held none_there =
      above_child a (address s) (not_root (from_right c a k o) rest held none_there) held.0
      ∙ replace_left_first-repointed t z (address s) (from_right c a k o ∷ rest) some_z none_there
          held

  -- A node that is not around keeps what it holds.
  moved-read : (v : ℕ) → occurs_around v fs ≡ 0 → moved.nodes v ≡ t.nodes v
  moved-read v none_there =
      read-touch t.nodes moved.nodes (λ x. occurs_around x fs) v
        (repointed-Touches t z (address s) fs around) none_there

  pub transplant-repointed : transplant t z (address s) ≡ set_parent moved (address s) (above fs)
  unfolding transplant
  transplant-repointed =
      let t1 = replace_root_first t (parent_of t z) z (address s) in
      let same : t1 ≡ moved =
        ap (λ i. replace_root_first t i z (address s)) parent_z ∙ replaced fs around free in
      ap (λ (u : RbTree). set_parent u (address s) (parent_of u z)) same
      ∙ ap (set_parent moved (address s))
          (ap (λ (x : RbNode). x.parent) (moved-read z free) ∙ parent_z)

  -- What the transplant leaves alone: the nodes that are neither around nor the one that gets the place.
  pub transplant-read :
      (v : ℕ)
      → occurs_around v fs ≡ 0
      → address s ≢ v
      → (transplant t z (address s)).nodes v ≡ t.nodes v
  transplant-read v none_there ne =
      ap (λ (u : RbTree). u.nodes v) transplant-repointed
      ∙ update_ne moved.nodes (address s) v (record (moved.nodes (address s)) { parent = above fs })
          ne
      ∙ moved-read v none_there

  -- Other subtrees stay.
  pub transplant-Holds :
      (q : ℕ) (o : Tree)
      → ((x : ℕ) → occurs x o + occurs x s + occurs_around x fs ≤ 1)
      → Holds t.nodes q o
      → Holds (transplant t z (address s)).nodes q o
  transplant-Holds q o apart held =
      let kept =
        Holds-touch t.nodes moved.nodes (λ x. occurs_around x fs) q o
          (repointed-Touches t z (address s) fs around) (λ x. omega (arith, apart x)) held in
      subst (λ (u : RbTree). Holds u.nodes q o) (sym transplant-repointed)
        (Holds-update moved.nodes q o (address s)
          (record (moved.nodes (address s)) { parent = above fs })
          (address-free moved.nodes q s o kept (λ x. omega (arith, apart x))) kept)

  -- The subtree is at the place.
  pub transplant-Below :
      (q : ℕ)
      → Holds t.nodes q s
      → (t.nodes nil).color ≡ black
      → Below (transplant t z (address s)) fs s
  transplant-Below q held dark =
      subst (λ (u : RbTree). Below u fs s) (sym transplant-repointed)
        (record {
          at = record {
            subtree =
                set_parent-Holds moved q (above fs) s (λ x. omega (arith, distinct x))
                  (Holds-touch t.nodes moved.nodes (λ x. occurs_around x fs) q s touches
                    (λ x. omega (arith, distinct x)) held);
            around =
                HoldsContext-update moved.nodes moved.root (address s) fs (address s) v
                  (address-free_around t.nodes t.root z s fs around
                    (λ x. omega (arith, distinct x)))
                  (repointed-HoldsContext t z (address s) fs (λ x. omega (arith, distinct x))
                    around);
            distinct = λ x. omega (arith, distinct x);
            black_nil = set_parent-black_nil moved (address s) (above fs) (
                ap (λ (x : RbNode). x.color)
                  (nil-touch t.nodes moved.nodes (λ x. occurs_around x fs) touches)
                ∙ dark);
          };
          linked = ap (λ (x : RbNode). x.parent) (update_self moved.nodes (address s) v);
        })
    where
      touches : Touches t.nodes moved.nodes (λ x. occurs_around x fs)
      touches = repointed-Touches t z (address s) fs around

      v : RbNode
      v = record (moved.nodes (address s)) { parent = above fs }

  -- A node that gets the place leaves the sentinel alone.
  pub transplant-nil : address s ≢ nil → (transplant t z (address s)).nodes nil ≡ t.nodes nil
  transplant-nil some_s =
      ap (λ (u : RbTree). u.nodes nil) transplant-repointed
      ∙ store-nil moved (address s) (record (moved.nodes (address s)) { parent = above fs }) some_s
      ∙ nil-touch t.nodes moved.nodes (λ x. occurs_around x fs)
          (repointed-Touches t z (address s) fs around)
