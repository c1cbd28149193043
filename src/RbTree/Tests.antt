-- ===== src/RbTree/Tests.antt =====
-- Concrete runs of the red-black tree.
use mw_race_service_mesh_c.Base.{
  ℕ, ◌+◌, ◌-◌, ◌*◌, ◌≡◌, refl, Option, none, some, List, [], ◌∷◌, arith, ◌==◌, if◌then◌else◌,
}
use mw_race_service_mesh_c.Base.Int.{ℤ, pos}
use mw_race_service_mesh_c.RbTree.{red, black, RbNode, RbTree, nil, init, update, insert}
use mw_race_service_mesh_c.RbTree.Shape.{Tree, leaf, node, rb_node}
use mw_race_service_mesh_c.RbTree.Balance.{bottom, red_node, black_node}
use mw_race_service_mesh_c.RbTree.Insert.Correct.{IsRbTree, Inserts, insert-Inserts}
use mw_race_service_mesh_c.RbTree.Shape.{hits}
use mw_race_service_mesh_c.RbTree.History.{History, begins, adds, removes}
use mw_race_service_mesh_c.RbTree.History.Serves.{Serves, History-Serves}
use mw_race_service_mesh_c.RbTree.Delete.{delete}
use mw_race_service_mesh_c.RbTree.Delete.Removed.{Deletes}
use mw_race_service_mesh_c.RbTree.Delete.Correct.{delete-Deletes}
use mw_race_service_mesh_c.RbTree.Traversal.{
  Printed, pre_traversal, preorder, pre_traversal-preorder,
}

-- A node at each address, with ten times the address as its key.
abbrev memory : ℕ → RbNode
memory a = rb_node red (pos (a * 10)) 7 8 9

abbrev insert_all : Option (ℤ × RbTree) → List ℕ → Option (ℤ × RbTree)
insert_all none news = none
insert_all (some (e, t)) [] = some (e, t)
insert_all (some (e, t)) (a ∷ news) = insert_all (insert 20 t (some a)) news

abbrev root_of : Option (ℤ × RbTree) → ℕ
root_of none = nil
root_of (some (e, t)) = t.root

-- Keys that rise turn the root to the left.
rises : root_of (insert_all (some (pos 1, init memory)) (1 ∷ 2 ∷ 3 ∷ 4 ∷ 5 ∷ 6 ∷ 7 ∷ 8 ∷ [])) ≡ 4
unfolding init update insert
rises = refl

falls : root_of (insert_all (some (pos 1, init memory)) (8 ∷ 7 ∷ 6 ∷ 5 ∷ 4 ∷ 3 ∷ 2 ∷ 1 ∷ [])) ≡ 5
unfolding init update insert
falls = refl

zigzags : root_of (insert_all (some (pos 1, init memory)) (5 ∷ 1 ∷ 3 ∷ [])) ≡ 3
unfolding init update insert
zigzags = refl

-- Two nodes, and a third one whose place asks for a rotation.
abbrev two_nodes : ℕ → RbNode
two_nodes a =
    if a == 0
    then rb_node black (pos 0) 0 0 0
    else (if a == 1
        then rb_node black (pos 10) 0 2 0
        else (if a == 2 then rb_node red (pos 20) 0 0 1 else memory a))

abbrev two : RbTree
two = record { root = 1; nodes = two_nodes }

abbrev two_tree : Tree
two_tree = node black leaf 1 (pos 10) (node red leaf 2 (pos 20) leaf)

two-IsRbTree : IsRbTree two two_tree
two-IsRbTree = record {
  at = record {
    subtree = (omega arith, refl, tt, (omega arith, refl, tt, tt));
    around = refl;
    distinct = λ x. ground arith;
    black_nil = refl;
  };
  balanced = record { height = 1; balanced = black_node bottom (red_node bottom bottom) };
  sorted = omega arith;
}

insert-Inserts_example : Inserts two two_tree 3 (insert 3 two (some 3))
insert-Inserts_example =
    insert-Inserts 3 two two_tree 3 two-IsRbTree (omega arith) refl (omega arith)

abbrev delete_all : Option (ℤ × RbTree) → List ℕ → Option (ℤ × RbTree)
delete_all none gone = none
delete_all (some (e, t)) [] = some (e, t)
delete_all (some (e, t)) (a ∷ gone) = delete_all (delete 20 t (some a)) gone

abbrev eight : Option (ℤ × RbTree)
eight = insert_all (some (pos 1, init memory)) (1 ∷ 2 ∷ 3 ∷ 4 ∷ 5 ∷ 6 ∷ 7 ∷ 8 ∷ [])

abbrev print_root : Option (ℤ × RbTree) → Option (ℤ × List Printed)
print_root none = none
print_root (some (e, t)) = pre_traversal 20 t (some t.root)

-- The root has two children, and the least node behind it takes its place.
shrinks :
    print_root (delete_all eight (4 ∷ 1 ∷ 2 ∷ 8 ∷ 6 ∷ []))
    ≡ some (
      pos 1,
      preorder (
          node black
            (node black leaf 3 (pos 30) leaf)
            5
            (pos 50)
            (node black leaf 7 (pos 70) leaf)),
    )
unfolding init update insert delete pre_traversal
shrinks = refl

pre_traversal-preorder_example : pre_traversal 3 two (some 1) ≡ some (pos 1, preorder two_tree)
pre_traversal-preorder_example =
    pre_traversal-preorder 3 two 0 two_tree two-IsRbTree.at.subtree (omega arith)

delete-Deletes_example : Deletes two two_tree 1 (delete 3 two (some 1))
delete-Deletes_example = delete-Deletes 3 two two_tree 1 two-IsRbTree (omega arith) (omega arith)

-- Two nodes are inserted, and the first one is deleted.
abbrev tree_of : Option (ℤ × RbTree) → RbTree
tree_of none = init memory
tree_of (some (e, t)) = t

abbrev one_in : RbTree
one_in = tree_of (insert 1 (init memory) (some 1))

abbrev two_in : RbTree
two_in = tree_of (insert 2 one_in (some 2))

abbrev one_out : RbTree
one_out = tree_of (delete 3 two_in (some 1))

short-History : History memory 3 one_out (pos 20 ∷ []) (λ x. 0 + hits x 1 + hits x 2 - hits x 1)
unfolding init update insert delete
short-History =
    removes (adds (adds begins 1 one_in (omega arith) refl refl) 2 two_in (omega arith) refl refl) 1
      (pos 1) one_out (omega arith) refl

History-Serves_example : Serves 3 one_out (pos 20 ∷ []) (λ x. 0 + hits x 1 + hits x 2 - hits x 1)
History-Serves_example = History-Serves short-History
