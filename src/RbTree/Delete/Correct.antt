-- ===== src/RbTree/Delete/Correct.antt =====
-- What rb_delete does to a red-black tree.
use mw_race_service_mesh_c.Base.{
  ℕ, suc, ◌<◌, ◌≡◌, ◌≢◌, refl, sym, ap, ◌∙◌, subst, Option, some, [], ◌∷◌, ◌++◌, append_assoc,
  arith, length,
}
use mw_race_service_mesh_c.Base.Int.{ℤ}
use mw_race_service_mesh_c.RbTree.{Color, black, RbNode, RbTree, nil}
use mw_race_service_mesh_c.RbTree.Shape.{
  Tree, leaf, node, Frame, from_right, Context, address, occurs, plug, keys, size, At,
}
use mw_race_service_mesh_c.RbTree.Shape.Moves.{At-down_right}
use mw_race_service_mesh_c.RbTree.Balance.{at_root}
use mw_race_service_mesh_c.RbTree.Order.{IsSorted, before, behind, keys-plug}
use mw_race_service_mesh_c.RbTree.Insert.{BalancedAt, right_child}
use mw_race_service_mesh_c.RbTree.Insert.Correct.{IsRbTree, occurs-plug, size-plug}
use mw_race_service_mesh_c.RbTree.Delete.{
  minimum, splice_least, spliced_least, splice, restore, delete,
}
use mw_race_service_mesh_c.RbTree.Delete.Least.{
  Least, least, minimum-Least, Hole-renamed, plug-append,
}
use mw_race_service_mesh_c.RbTree.Delete.Moved.{Replaced, splice_child-Replaced}
use mw_race_service_mesh_c.RbTree.Delete.Detached.{splice_far-Replaced}
use mw_race_service_mesh_c.RbTree.Delete.Vacated.{
  no_left-Vacated, Restored, restore-Restored, Located, located, occurs-Located,
}
use mw_race_service_mesh_c.RbTree.Delete.Removed.{
  Deletes, shrunk, two_children, without_left, without_right,
}

-- The node that takes the place of one with two children, and what it leaves.
splice_least-Replaced :
    (t : RbTree) (fs : Context) (z : ℕ) (c : Color) (k : ℤ) (l : Tree) (gs : Context) (y : ℕ)
    (cy : Color) (ky : ℤ) (r : Tree)
    → address l ≢ nil
    → At t (gs ++ (from_right c z k l ∷ fs)) (node cy leaf y ky r)
    → Replaced (splice_least t z y) (gs ++ (from_right c y ky l ∷ fs)) r cy
splice_least-Replaced t fs z c k l [] y cy ky r some_l at =
    splice_child-Replaced t fs z c k l y cy ky r some_l at
splice_least-Replaced t fs z c k l (g ∷ gs) y cy ky r some_l at =
    splice_far-Replaced t fs z c k l g gs y cy ky r some_l at

-- The least key is the first one.
keys-least :
    (gs : Context) (cy : Color) (y : ℕ) (ky : ℤ) (r : Tree)
    → before gs ≡ []
    → keys (plug gs (node cy leaf y ky r)) ≡ ky ∷ keys (plug gs r)
keys-least gs cy y ky r first =
    keys-plug gs (node cy leaf y ky r)
    ∙ ap (λ i. i ++ (ky ∷ (keys r ++ behind gs))) first
    ∙ ap (λ i. ky ∷ (i ++ (keys r ++ behind gs))) (sym first)
    ∙ ap (λ i. ky ∷ i) (sym (keys-plug gs r))

length-frame : (gs fs : Context) (f g : Frame) → length (gs ++ (f ∷ fs)) ≡ length (gs ++ (g ∷ fs))
length-frame [] fs f g = refl
length-frame (h ∷ gs) fs f g = ap suc (length-frame gs fs f g)

-- Two children.
module _ (fuel : ℕ) (t : RbTree) (fs : Context) (c : Color) (l : Tree) (z : ℕ) (k : ℤ) where
  with_least :
      (gs : Context) (y : ℕ) (cy : Color) (ky : ℤ) (r : Tree)
      → before gs ≡ []
      → address l ≢ nil
      → (t.nodes z).key ≡ k
      → At t (gs ++ (from_right c z k l ∷ fs)) (node cy leaf y ky r)
      → BalancedAt (gs ++ (from_right c z k l ∷ fs)) (node cy leaf y ky r)
      → IsSorted (keys (plug fs (node c l z k (plug gs (node cy leaf y ky r)))))
      → size (plug fs (node c l z k (plug gs (node cy leaf y ky r)))) < fuel
      → Deletes t
          (plug fs (node c l z k (plug gs (node cy leaf y ky r))))
          z
          (restore fuel (some (splice_least t z y)))
  with_least gs y cy ky r first some_l key at b sorted enough =
      let sy = node cy leaf y ky r in
      let old = node c l z k (plug gs sy) in
      let new = node c l y ky (plug gs r) in
      let f = from_right c z k l in
      let f' = from_right c y ky l in
      let whole = plug-append gs (f ∷ fs) sy in
      let moved = plug-append gs (f' ∷ fs) r in
      let fuel_left : length (gs ++ (f' ∷ fs)) < fuel =
        omega
          (arith, enough, size-plug (gs ++ (f ∷ fs)) sy, ap size whole, length-frame gs fs f f') in
      shrunk t (plug fs old) (plug fs new) z k (before fs ++ keys l)
        (keys (plug gs sy) ++ behind fs) (restore fuel (some (splice_least t z y))) key sorted
        (keys-plug fs old ∙ simp append_assoc)
        (keys-plug fs new
          ∙ ap (λ i. before fs ++ ((keys l ++ i) ++ behind fs))
              (sym (keys-least gs cy y ky r first))
          ∙ simp append_assoc)
        (λ x. omega (
          arith,
          occurs-plug x fs old,
          occurs-plug x fs new,
          occurs-plug x gs sy,
          occurs-plug x gs r,
        ))
        (subst (λ i. Restored i (restore fuel (some (splice_least t z y)))) moved
          (restore-Restored fuel (splice_least t z y) (gs ++ (f' ∷ fs)) r cy
            (splice_least-Replaced t fs z c k l gs y cy ky r some_l at)
            (no_left-Vacated (Hole-renamed gs c z y k ky l fs b.hole) b.balanced) fuel_left))

  with_both :
      (r : Tree) (o : Option ℕ)
      → address l ≢ nil
      → At t fs (node c l z k r)
      → IsSorted (keys (plug fs (node c l z k r)))
      → size (plug fs (node c l z k r)) < fuel
      → Least t (from_right c z k l ∷ fs) r o
      → Deletes t (plug fs (node c l z k r)) z (restore fuel (spliced_least t z o))
  with_both r _ some_l at sorted enough (least gs cy y ky ry whole first at_y b) =
      let P : Tree → Type 0 =
        λ i. Deletes t (plug fs (node c l z k i)) z (restore fuel (some (splice_least t z y))) in
      subst P whole (
        with_least gs y cy ky ry first some_l (ap (λ (x : RbNode). x.key) at.subtree.1) at_y b
          (subst (λ i. IsSorted (keys (plug fs (node c l z k i)))) (sym whole) sorted)
          (subst (λ i. size (plug fs (node c l z k i)) < fuel) (sym whole) enough))

without :
    (fuel : ℕ) (t : RbTree) (fs : Context) (c : Color) (l : Tree) (z : ℕ) (k : ℤ) (r : Tree)
    → At t fs (node c l z k r)
    → BalancedAt fs (node c l z k r)
    → IsSorted (keys (plug fs (node c l z k r)))
    → size (plug fs (node c l z k r)) < fuel
    → Deletes t (plug fs (node c l z k r)) z (restore fuel (splice fuel t z))
without fuel t fs c leaf z k r at b sorted enough =
    without_left fuel t fs c z k r at b sorted
      (omega (arith, size-plug fs (node c leaf z k r), enough))
without fuel t fs c (node cl ll al kl rl) z k leaf at b sorted enough =
    let l = node cl ll al kl rl in
    without_right fuel t fs c z k l at.subtree.2.0 at b sorted
      (omega (arith, size-plug fs (node c l z k leaf), enough))
without fuel t fs c (node cl ll al kl rl) z k (node cr lr ar kr rr) at b sorted enough =
    let l = node cl ll al kl rl in
    let r = node cr lr ar kr rr in
    subst (λ o. Deletes t (plug fs (node c l z k r)) z (restore fuel o))
      (sym (two_children fuel t z _ at.subtree.1 at.subtree.2.0 at.subtree.3.0))
      (with_both fuel t fs c l z k r (minimum fuel t ar) at.subtree.2.0 at sorted enough (
        minimum-Least fuel t (from_right c z k l ∷ fs) cr lr ar kr rr
          (At-down_right t fs c z k l r at) (right_child b.hole b.balanced)
          (omega (arith, size-plug fs (node c l z k r), enough))))

deleted_at :
    (fuel : ℕ) (t : RbTree) (s : Tree) (z : ℕ)
    → IsRbTree t s
    → size s < fuel
    → Located t z s
    → Deletes t s z (restore fuel (splice fuel t z))
deleted_at fuel t s z tree enough (located fs c l k r whole at b) =
    subst (λ i. Deletes t i z (restore fuel (splice fuel t z))) whole
      (without fuel t fs c l z k r at b (subst (λ i. IsSorted (keys i)) (sym whole) tree.sorted)
        (subst (λ i. size i < fuel) (sym whole) enough))

-- rb_delete of a node of a red-black search tree answers 1 and gives a red-black search tree of the
-- other nodes with their keys, in order. With more fuel than there are nodes its loops end.
pub delete-Deletes :
    (fuel : ℕ) (t : RbTree) (s : Tree) (z : ℕ)
    → IsRbTree t s
    → 0 < occurs z s
    → size s < fuel
    → Deletes t s z (delete fuel t (some z))
unfolding delete
delete-Deletes fuel t s z tree there enough = deleted_at fuel t s z tree enough (
    occurs-Located t z [] s tree.at
      (record {
        color = black;
        height = tree.balanced.height;
        hole = at_root;
        balanced = tree.balanced.balanced;
      })
      there)
