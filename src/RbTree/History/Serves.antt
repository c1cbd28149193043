-- ===== src/RbTree/History/Serves.antt =====
-- What a red-black tree does for its users from rb_init on.
use mw_race_service_mesh_c.Base.{
  ℕ, suc, ◌<◌, ◌≡◌, ◌≢◌, sym, ◌∙◌, subst, Option, none, some, List, arith, none-ne-some,
}
use mw_race_service_mesh_c.Base.Int.{ℤ}
use mw_race_service_mesh_c.RbTree.{RbNode, RbTree, nil, search, insert}
use mw_race_service_mesh_c.RbTree.Shape.{Tree, occurs, keys}
use mw_race_service_mesh_c.RbTree.Order.{Has}
use mw_race_service_mesh_c.RbTree.Insert.Correct.{Inserts, refuses, inserts, insert-Inserts}
use mw_race_service_mesh_c.RbTree.Search.{Searches, hit, miss, search-Searches}
use mw_race_service_mesh_c.RbTree.Delete.{delete}
use mw_race_service_mesh_c.RbTree.Delete.Removed.{Deletes, deletes}
use mw_race_service_mesh_c.RbTree.Delete.Correct.{delete-Deletes}
use mw_race_service_mesh_c.RbTree.History.{History, Represents, History-Represents}

-- What the tree answers as the set.
pub data Answers (t : RbTree) (ks : List ℤ) (ms : ℕ → ℕ) (key : ℤ) : Option ℕ → Type 0 where
  has_it : (a : ℕ) → 0 < ms a → (t.nodes a).key ≡ key → Answers t ks ms key (some a)
  has_none : ¬ Has key ks → Answers t ks ms key (some nil)

answered :
    (t : RbTree) (s : Tree) (ks : List ℤ) (ms : ℕ → ℕ) (key : ℤ) (o : Option ℕ)
    → keys s ≡ ks
    → ((x : ℕ) → occurs x s ≡ ms x)
    → Searches t s key o
    → Answers t ks ms key o
answered t s ks ms key _ same_keys same_nodes (hit a there e) =
    has_it a (omega (arith, there, same_nodes a)) e
answered t s ks ms key _ same_keys same_nodes (miss absent) =
    has_none (λ h. absent (subst (Has key) (sym same_keys) h))

-- After each history the tree is a red-black search tree that stands for the set, rb_search answers as
-- the set does, and no call of rb_insert or rb_delete runs on for ever.
pub record Serves (n : ℕ) (t : RbTree) (ks : List ℤ) (ms : ℕ → ℕ) : Type 0 where
  pub represents : Represents n t ks ms
  pub answers : (key : ℤ) → Answers t ks ms key (search (suc n) t key)
  pub insert_ends : (new : ℕ) → new ≢ nil → ms new ≡ 0 → insert (suc n) t (some new) ≢ none
  pub delete_ends : (z : ℕ) → 0 < ms z → delete (suc n) t (some z) ≢ none

Inserts-some :
    (t : RbTree) (s : Tree) (new : ℕ) (o : Option (ℤ × RbTree)) → Inserts t s new o → o ≢ none
Inserts-some t s new _ (refuses has) e = none-ne-some _ (sym e)
Inserts-some t s new _ (inserts u s' xs ys old grown nodes is) e = none-ne-some _ (sym e)

Deletes-some :
    (t : RbTree) (s : Tree) (z : ℕ) (o : Option (ℤ × RbTree)) → Deletes t s z o → o ≢ none
Deletes-some t s z _ (deletes u s' xs ys old shrunk nodes is) e = none-ne-some _ (sym e)

-- From rb_init on, however nodes that are not in the tree are given to rb_insert and nodes that are in
-- it to rb_delete: the tree is a red-black search tree of the nodes and of the keys of an ordered
-- set, rb_search finds a node with a key exactly when the set has the key, and the calls end with one
-- more round of their loops than there were calls.
pub History-Serves :
    {memory : ℕ → RbNode} {n : ℕ} {t : RbTree} {ks : List ℤ} {ms : ℕ → ℕ}
    → History memory n t ks ms
    → Serves n t ks ms
History-Serves {n = n} {t = t} {ks = ks} {ms = ms} h =
    let rep = History-Represents h in
    record {
      represents = rep;
      answers = λ key.
          answered t rep.shape ks ms key (search (suc n) t key) rep.same_keys rep.same_nodes
            (search-Searches (suc n) t rep.shape key rep.sound (omega (arith, rep.small)));
      insert_ends = λ new some_new free.
          Inserts-some t rep.shape new (insert (suc n) t (some new)) (
            insert-Inserts (suc n) t rep.shape new rep.sound some_new (rep.same_nodes new ∙ free)
              (omega (arith, rep.small)));
      delete_ends = λ z there. Deletes-some t rep.shape z (delete (suc n) t (some z)) (
          delete-Deletes (suc n) t rep.shape z rep.sound (omega (arith, there, rep.same_nodes z))
            (omega (arith, rep.small)));
    }
