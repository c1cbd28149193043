-- ===== src/RbTree/Delete/Removed.antt =====
-- What is left of a tree without a node, and rb_delete of a node with one child at most.
use mw_race_service_mesh_c.Base.{
  ℕ, ◌+◌, ◌<◌, ◌≡◌, ◌≢◌, refl, sym, ap, ◌∙◌, subst, Option, some, List, [], ◌∷◌, ◌++◌, append_assoc,
  arith, ◌==◌, if◌then◌else◌, ≢→not_==, All-append, length,
}
use mw_race_service_mesh_c.Base.Int.{ℤ, pos, ◌<ℤ◌}
use mw_race_service_mesh_c.RbTree.{Color, RbNode, RbTree, nil}
use mw_race_service_mesh_c.RbTree.Shape.{
  Tree, leaf, node, Context, address, hits, occurs, plug, keys, At,
}
use mw_race_service_mesh_c.RbTree.Order.{IsSorted, before, behind, keys-plug, All-parts}
use mw_race_service_mesh_c.RbTree.Insert.{BalancedAt}
use mw_race_service_mesh_c.RbTree.Insert.Inserted.{fixed}
use mw_race_service_mesh_c.RbTree.Insert.Correct.{IsRbTree, occurs-plug}
use mw_race_service_mesh_c.RbTree.Delete.{
  transplant, minimum, Spliced, spliced_least, splice, restore,
}
use mw_race_service_mesh_c.RbTree.Delete.Transplant.{transplant-Below}
use mw_race_service_mesh_c.RbTree.Delete.Moved.{Replaced}
use mw_race_service_mesh_c.RbTree.Delete.Vacated.{
  no_left-Vacated, no_right-Vacated, Restored, restored, restore-Restored,
}

-- The tree without a node and its key.
pub data Deletes (t : RbTree) (s : Tree) (z : ℕ) : Option (ℤ × RbTree) → Type 0 where
  deletes :
      (t' : RbTree) (s' : Tree) (xs ys : List ℤ)
      → keys s ≡ xs ++ ((t.nodes z).key ∷ ys)
      → keys s' ≡ xs ++ ys
      → ((x : ℕ) → occurs x s ≡ occurs x s' + hits x z)
      → IsRbTree t' s'
      → Deletes t s z (some (pos 1, t'))

IsSorted-without :
    (xs : List ℤ) (k : ℤ) (ys : List ℤ) → IsSorted (xs ++ (k ∷ ys)) → IsSorted (xs ++ ys)
IsSorted-without [] k ys h = h.1
IsSorted-without (x ∷ xs) k ys (first, h) =
    let (a, b) = All-parts (λ y. x <ℤ y) xs (k ∷ ys) first in
    (All-append (λ y. x <ℤ y) xs ys a b.1, IsSorted-without xs k ys h)

pub shrunk :
    (t : RbTree) (s w : Tree) (z : ℕ) (k : ℤ) (xs ys : List ℤ) (o : Option (ℤ × RbTree))
    → (t.nodes z).key ≡ k
    → IsSorted (keys s)
    → keys s ≡ xs ++ (k ∷ ys)
    → keys w ≡ xs ++ ys
    → ((x : ℕ) → occurs x s ≡ occurs x w + hits x z)
    → Restored w o
    → Deletes t s z o
shrunk t s w z k xs ys _ key sorted old new nodes (restored _ (fixed t' s' at balanced same)) =
    deletes t' s' xs ys (old ∙ ap (λ i. xs ++ (i ∷ ys)) (sym key)) (same.same_keys ∙ new)
      (λ x. nodes x ∙ ap (λ i. i + hits x z) (sym (same.same_nodes x)))
      (record {
        at = at;
        balanced = balanced;
        sorted =
            subst IsSorted (sym (same.same_keys ∙ new))
              (IsSorted-without xs k ys (subst IsSorted old sorted));
      })

-- What rb_delete looks at.
module _ (fuel : ℕ) (t : RbTree) (z : ℕ) (v : RbNode) (at_z : t.nodes z ≡ v) where
  splice-parts : splice fuel t z ≡ (
      if v.lchild == nil
      then some
          (record { tree = transplant t z v.rchild; replacing = v.rchild; ori_color = v.color })
      else (if v.rchild == nil
          then some
              (record { tree = transplant t z v.lchild; replacing = v.lchild; ori_color = v.color })
          else spliced_least t z (minimum fuel t v.rchild)))
  unfolding splice
  splice-parts =
      ap
        (λ (n : RbNode).
          if n.lchild == nil
          then some
              (record { tree = transplant t z n.rchild; replacing = n.rchild; ori_color = n.color })
          else (if n.rchild == nil
              then some (record {
                tree = transplant t z n.lchild;
                replacing = n.lchild;
                ori_color = n.color;
              })
              else spliced_least t z (minimum fuel t n.rchild)))
        at_z

  no_left :
      v.lchild ≡ nil
      → splice fuel t z
        ≡ some
            (record { tree = transplant t z v.rchild; replacing = v.rchild; ori_color = v.color })
  no_left e = splice-parts ∙ rw e refl

  no_right :
      v.lchild ≢ nil
      → v.rchild ≡ nil
      → splice fuel t z
        ≡ some
            (record { tree = transplant t z v.lchild; replacing = v.lchild; ori_color = v.color })
  no_right some_l e = splice-parts ∙ rw (≢→not_== v.lchild nil some_l) (rw e refl)

  pub two_children :
      v.lchild ≢ nil
      → v.rchild ≢ nil
      → splice fuel t z ≡ spliced_least t z (minimum fuel t v.rchild)
  two_children some_l some_r =
      splice-parts ∙ rw (≢→not_== v.lchild nil some_l) (rw (≢→not_== v.rchild nil some_r) refl)

module _ (fuel : ℕ) (t : RbTree) (fs : Context) (c : Color) (z : ℕ) (k : ℤ) where
  -- One child at most.
  pub without_left :
      (r : Tree)
      → At t fs (node c leaf z k r)
      → BalancedAt fs (node c leaf z k r)
      → IsSorted (keys (plug fs (node c leaf z k r)))
      → length fs < fuel
      → Deletes t (plug fs (node c leaf z k r)) z (restore fuel (splice fuel t z))
  without_left r at b sorted enough =
      let s = node c leaf z k r in
      let sp : Spliced = record {
        tree = transplant t z (address r);
        replacing = address r;
        ori_color = c;
      } in
      let rep : Replaced sp fs r c = record {
        below =
            transplant-Below t fs z r at.subtree.0 (ap (λ (x : RbNode). x.parent) at.subtree.1)
              at.around (λ x. omega (arith, at.distinct x)) z at.subtree.3 at.black_nil;
        place = refl;
        color = refl;
      } in
      subst (λ o. Deletes t (plug fs s) z (restore fuel o))
        (sym (no_left fuel t z _ at.subtree.1 refl))
        (shrunk t (plug fs s) (plug fs r) z k (before fs) (keys r ++ behind fs)
          (restore fuel (some sp)) (ap (λ (x : RbNode). x.key) at.subtree.1) sorted (keys-plug fs s)
          (keys-plug fs r) (λ x. omega (arith, occurs-plug x fs s, occurs-plug x fs r))
          (restore-Restored fuel sp fs r c rep (no_left-Vacated b.hole b.balanced) enough))

  pub without_right :
      (l : Tree)
      → address l ≢ nil
      → At t fs (node c l z k leaf)
      → BalancedAt fs (node c l z k leaf)
      → IsSorted (keys (plug fs (node c l z k leaf)))
      → length fs < fuel
      → Deletes t (plug fs (node c l z k leaf)) z (restore fuel (splice fuel t z))
  without_right l some_l at b sorted enough =
      let s = node c l z k leaf in
      let sp : Spliced = record {
        tree = transplant t z (address l);
        replacing = address l;
        ori_color = c;
      } in
      let rep : Replaced sp fs l c = record {
        below =
            transplant-Below t fs z l at.subtree.0 (ap (λ (x : RbNode). x.parent) at.subtree.1)
              at.around (λ x. omega (arith, at.distinct x)) z at.subtree.2 at.black_nil;
        place = refl;
        color = refl;
      } in
      subst (λ o. Deletes t (plug fs s) z (restore fuel o))
        (sym (no_right fuel t z _ at.subtree.1 some_l refl))
        (shrunk t (plug fs s) (plug fs l) z k (before fs ++ keys l) (behind fs)
          (restore fuel (some sp)) (ap (λ (x : RbNode). x.key) at.subtree.1) sorted
          (keys-plug fs s ∙ simp append_assoc)
          (keys-plug fs l ∙ sym (append_assoc (before fs) (keys l) (behind fs)))
          (λ x. omega (arith, occurs-plug x fs s, occurs-plug x fs l))
          (restore-Restored fuel sp fs l c rep (no_right-Vacated b.hole b.balanced) enough))
