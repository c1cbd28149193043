-- ===== src/RbTree/Fixup/Rounds.antt =====
-- A round of rb_insert_fixup: the red node below a red parent moves up, and the keys stay in order.
use mw_race_service_mesh_c.Base.{
  ℕ, ◌+◌, ◌<◌, ◌≡◌, refl, ap, ◌∙◌, true, false, [], ◌∷◌, ◌++◌, ◌==◌, length,
}
use mw_race_service_mesh_c.Base.Int.{ℤ}
use mw_race_service_mesh_c.RbTree.{
  red, black, RbTree, parent_of, grandparent_of, left_rotate, right_rotate, recolor, settle_left,
  settle_right, fixup_left, fixup_right,
}
use mw_race_service_mesh_c.RbTree.Shape.{
  Tree, node, Frame, from_left, from_right, Context, hits, occurs, fill, plug, keys, At,
}
use mw_race_service_mesh_c.RbTree.Balance.{Balanced, Hole}

-- Two trees with the same keys in the same order, of the same nodes.
pub record Same (s s' : Tree) : Type 0 where
  pub same_keys : keys s ≡ keys s'
  pub same_nodes : (x : ℕ) → occurs x s ≡ occurs x s'

pub Same-refl : (s : Tree) → Same s s
Same-refl s = record { same_keys = refl; same_nodes = λ x. refl }

pub Same-trans : (s t u : Tree) → Same s t → Same t u → Same s u
Same-trans s t u p q = record {
  same_keys = p.same_keys ∙ q.same_keys;
  same_nodes = λ x. p.same_nodes x ∙ q.same_nodes x;
}

pub Same-fill : (f : Frame) (s s' : Tree) → Same s s' → Same (fill f s) (fill f s')
Same-fill (from_left c a k r) s s' p = record {
  same_keys = ap (λ ks. ks ++ (k ∷ keys r)) p.same_keys;
  same_nodes = λ x. ap (λ n. hits x a + n + occurs x r) (p.same_nodes x);
}
Same-fill (from_right c a k l) s s' p = record {
  same_keys = ap (λ ks. keys l ++ (k ∷ ks)) p.same_keys;
  same_nodes = λ x. ap (λ n. hits x a + occurs x l + n) (p.same_nodes x);
}

pub Same-plug : (fs : Context) (s s' : Tree) → Same s s' → Same (plug fs s) (plug fs s')
Same-plug [] s s' p = p
Same-plug (f ∷ fs) s s' p = Same-plug fs (fill f s) (fill f s') (Same-fill f s s' p)

-- A red node at a place where a black subtree would be balanced.
pub record State (t : RbTree) (fs : Context) (l : Tree) (z : ℕ) (k : ℤ) (r : Tree) (n : ℕ)
    : Type 0 where
  pub at : At t fs (node red l z k r)
  pub hole : Hole black n fs
  pub left : Balanced black n l
  pub right : Balanced black n r

-- A round ends in such a state, higher up in a tree with the same keys and nodes.
pub data Climbs (whole : Tree) (m : ℕ) : RbTree × ℕ → Type 0 where
  climbs :
      (t : RbTree) (fs : Context) (l : Tree) (z : ℕ) (k : ℤ) (r : Tree) (n : ℕ)
      → State t fs l z k r n
      → Same (plug fs (node red l z k r)) whole
      → length fs < m
      → Climbs whole m (t, z)

module _ (t : RbTree) (z : ℕ) where
  pub fixup_left-recolors :
      (t.nodes (t.nodes (grandparent_of t z)).rchild).color ≡ red
      → fixup_left t z ≡ recolor t z (t.nodes (grandparent_of t z)).rchild
  unfolding fixup_left
  fixup_left-recolors e = rw e refl

  pub fixup_left-settles :
      (t.nodes (t.nodes (grandparent_of t z)).rchild).color ≡ black
      → (z == (t.nodes (parent_of t z)).rchild) ≡ false
      → fixup_left t z ≡ (settle_left t z, z)
  unfolding fixup_left
  fixup_left-settles e o = rw e (rw o refl)

  pub fixup_left-turns :
      (t.nodes (t.nodes (grandparent_of t z)).rchild).color ≡ black
      → (z == (t.nodes (parent_of t z)).rchild) ≡ true
      → fixup_left t z
        ≡ (settle_left (left_rotate t (parent_of t z)).1 (parent_of t z), parent_of t z)
  unfolding fixup_left
  fixup_left-turns e o = rw e (rw o refl)

  pub fixup_right-recolors :
      (t.nodes (t.nodes (grandparent_of t z)).lchild).color ≡ red
      → fixup_right t z ≡ recolor t z (t.nodes (grandparent_of t z)).lchild
  unfolding fixup_right
  fixup_right-recolors e = rw e refl

  pub fixup_right-settles :
      (t.nodes (t.nodes (grandparent_of t z)).lchild).color ≡ black
      → (z == (t.nodes (parent_of t z)).lchild) ≡ false
      → fixup_right t z ≡ (settle_right t z, z)
  unfolding fixup_right
  fixup_right-settles e o = rw e (rw o refl)

  pub fixup_right-turns :
      (t.nodes (t.nodes (grandparent_of t z)).lchild).color ≡ black
      → (z == (t.nodes (parent_of t z)).lchild) ≡ true
      → fixup_right t z
        ≡ (settle_right (right_rotate t (parent_of t z)).1 (parent_of t z), parent_of t z)
  unfolding fixup_right
  fixup_right-turns e o = rw e (rw o refl)
