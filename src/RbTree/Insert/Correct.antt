-- ===== src/RbTree/Insert/Correct.antt =====
-- What rb_insert does to a red-black tree.
use mw_race_service_mesh_c.Base.{
  ℕ, ◌+◌, ◌≤◌, ◌<◌, ◌≡◌, ◌≢◌, sym, ap, ◌∙◌, subst, Option, some, List, [], ◌∷◌, ◌++◌, arith, length,
  All,
}
use mw_race_service_mesh_c.Base.Int.{ℤ, pos, negsuc, ◌<ℤ◌}
use mw_race_service_mesh_c.RbTree.{
  red, black, RbTree, nil, insert_fixup, Place, find_place, link, inserted, insert_at, insert,
}
use mw_race_service_mesh_c.RbTree.Shape.{
  Tree, leaf, node, from_left, from_right, Context, above, hits, occurs, occurs_around, plug, keys,
  size, At,
}
use mw_race_service_mesh_c.RbTree.Balance.{bottom, at_root, IsBalanced}
use mw_race_service_mesh_c.RbTree.Fixup.Rounds.{State}
use mw_race_service_mesh_c.RbTree.Order.{IsSorted, Has, before, behind, keys-plug, IsSorted-between}
use mw_race_service_mesh_c.RbTree.Insert.{present, absent, Finds, finds, find_place-Finds}
use mw_race_service_mesh_c.RbTree.Insert.Linked.{link-At}
use mw_race_service_mesh_c.RbTree.Insert.Inserted.{Fixed, fixed, insert_fixup-Fixed}

-- The nodes of an rb_tree make up a red-black search tree.
pub record IsRbTree (t : RbTree) (s : Tree) : Type 0 where
  pub at : At t [] s
  pub balanced : IsBalanced s
  pub sorted : IsSorted (keys s)

-- A new node with a key that is there is refused; with another one it goes between the lesser and the
-- greater keys of a red-black search tree, which has no other new nodes.
pub data Inserts (t : RbTree) (s : Tree) (new : ℕ) : Option (ℤ × RbTree) → Type 0 where
  refuses : Has (t.nodes new).key (keys s) → Inserts t s new (some (negsuc 0, t))
  inserts :
      (t' : RbTree) (s' : Tree) (xs ys : List ℤ)
      → keys s ≡ xs ++ ys
      → keys s' ≡ xs ++ ((t.nodes new).key ∷ ys)
      → ((x : ℕ) → occurs x s' ≡ occurs x s + hits x new)
      → IsRbTree t' s'
      → Inserts t s new (some (pos 1, t'))

pub size-plug : (fs : Context) (s : Tree) → length fs + size s ≤ size (plug fs s)
size-plug [] s = omega arith
size-plug (from_left c a k r ∷ fs) s = omega (arith, size-plug fs (node c s a k r))
size-plug (from_right c a k l ∷ fs) s = omega (arith, size-plug fs (node c l a k s))

pub occurs-plug :
    (x : ℕ) (fs : Context) (s : Tree) → occurs x (plug fs s) ≡ occurs x s + occurs_around x fs
occurs-plug x [] s = omega arith
occurs-plug x (from_left c a k r ∷ fs) s = omega (arith, occurs-plug x fs (node c s a k r))
occurs-plug x (from_right c a k l ∷ fs) s = omega (arith, occurs-plug x fs (node c l a k s))

-- A tree that the fixup gives has the new key and the new node.
grown :
    (t : RbTree) (fs : Context) (new : ℕ) (o : Option RbTree)
    → IsSorted (keys (plug fs leaf))
    → All (λ x. x <ℤ (t.nodes new).key) (before fs)
    → All (λ x. (t.nodes new).key <ℤ x) (behind fs)
    → Fixed (plug fs (node red leaf new (t.nodes new).key leaf)) o
    → Inserts t (plug fs leaf) new (inserted o)
grown t fs new _ sorted less more (fixed t' s' at balanced same) =
    let key = (t.nodes new).key in
    let s = node red leaf new key leaf in
    let old = keys-plug fs leaf in
    let all = same.same_keys ∙ keys-plug fs s in
    inserts t' s' (before fs) (behind fs) old all
      (λ x. same.same_nodes x ∙ omega (arith, occurs-plug x fs s, occurs-plug x fs leaf))
      (record {
        at = at;
        balanced = balanced;
        sorted =
            subst IsSorted (sym all)
              (IsSorted-between (before fs) key (behind fs) (subst IsSorted old sorted) less more);
      })

placed :
    (fuel : ℕ) (t : RbTree) (s : Tree) (new : ℕ) (o : Option Place)
    → IsRbTree t s
    → new ≢ nil
    → occurs new s ≡ 0
    → size s < fuel
    → Finds t (t.nodes new).key s o
    → Inserts t s new (insert_at fuel t new o)
placed fuel t s new _ tree some_new fresh enough (finds _ (present has)) = refuses has
placed fuel t s new _ tree some_new fresh enough (finds _ (absent fs at hole whole less more)) =
    let key = (t.nodes new).key in
    let free : occurs_around new fs ≡ 0 =
      omega (arith, occurs-plug new fs leaf, ap (occurs new) whole, fresh) in
    let st : State (link t (above fs) new) fs leaf new key leaf 0 = record {
      at = link-At t fs new some_new free at less more;
      hole = hole;
      left = bottom;
      right = bottom;
    } in
    subst (λ (w : Tree). Inserts t w new (inserted (insert_fixup fuel (link t (above fs) new) new)))
      whole
      (grown t fs new (insert_fixup fuel (link t (above fs) new) new)
        (subst (λ (w : Tree). IsSorted (keys w)) (sym whole) tree.sorted) less more
        (insert_fixup-Fixed fuel (link t (above fs) new) fs leaf new key leaf 0 st
          (omega (arith, size-plug fs leaf, ap size whole, enough))))

-- rb_insert of a node that is not in a red-black search tree: it refuses a key that is there, and
-- otherwise gives a red-black search tree with the key at its place in the order.
-- With more fuel than there are nodes its loops end.
pub insert-Inserts :
    (fuel : ℕ) (t : RbTree) (s : Tree) (new : ℕ)
    → IsRbTree t s
    → new ≢ nil
    → occurs new s ≡ 0
    → size s < fuel
    → Inserts t s new (insert fuel t (some new))
unfolding insert
insert-Inserts fuel t s new tree some_new fresh enough =
    let finding =
      find_place-Finds fuel t (t.nodes new).key [] s tree.at
        (record {
          color = black;
          height = tree.balanced.height;
          hole = at_root;
          balanced = tree.balanced.balanced;
        })
        tree.sorted tt tt enough in
    placed fuel t s new (find_place fuel t (t.nodes new).key nil t.root) tree some_new fresh enough
      (subst (λ i. Finds t (t.nodes new).key s (find_place fuel t (t.nodes new).key nil i))
        (sym tree.at.around) finding)
