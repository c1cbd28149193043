-- ===== src/RbTree/History.antt =====
-- From rb_init on: a red-black tree keeps an ordered set of keys.
pub mod Serves
use mw_race_service_mesh_c.Base.{
  ℕ, zero, suc, ◌+◌, ◌-◌, ◌≤◌, ◌<◌, ◌≡◌, ◌≢◌, refl, sym, ap, ap₂, ◌∙◌, subst, inl, inr, Bool, true,
  false, Option, none, some, List, [], ◌∷◌, ◌++◌, arith, if◌then◌else◌, ==_iff, ==_refl, le→not_ltb,
  Bool-cases, All, length, length-append, none-ne-some, true≢false,
}
use mw_race_service_mesh_c.Base.Int.{
  ℤ, pos, negsuc, ◌<ℤ◌, eqb_ℤ, ltb_ℤ, lt→ltb_ℤ, lt→not_ltb_ℤ, pos_part, neg_part,
}
use mw_race_service_mesh_c.RbTree.{RbNode, RbTree, black, nil, init, search, insert}
use mw_race_service_mesh_c.RbTree.Shape.{Tree, leaf, node, hits, occurs, keys, size}
use mw_race_service_mesh_c.RbTree.Shape.Writes.{update_self}
use mw_race_service_mesh_c.RbTree.Balance.{bottom}
use mw_race_service_mesh_c.RbTree.Order.{IsSorted, Has, Around, IsSorted-Around, Has-middle}
use mw_race_service_mesh_c.RbTree.Insert.Correct.{
  IsRbTree, Inserts, refuses, inserts, insert-Inserts,
}
use mw_race_service_mesh_c.RbTree.Search.{Searches, hit, miss, All-Has, not_eqb_ℤ, search-Searches}
use mw_race_service_mesh_c.RbTree.Delete.{delete}
use mw_race_service_mesh_c.RbTree.Delete.Removed.{Deletes, deletes}
use mw_race_service_mesh_c.RbTree.Delete.Correct.{delete-Deletes}
use mw_race_service_mesh_c.RbTree.KeySet.{
  insert_key, delete_key, insert_key-between, insert_key-present, delete_key-middle, length-keys,
}

-- Calls of rb_insert with nodes that are not in the tree and of rb_delete with nodes that are, on a new
-- tree: how many there were, the tree, the keys of the set and how often each node is in it.
-- The loops of a call run with one more round than there were calls.
pub data History (memory : ℕ → RbNode) : ℕ → RbTree → List ℤ → (ℕ → ℕ) → Type 0 where
  begins : History memory 0 (init memory) [] (λ x. 0)
  adds :
      {n : ℕ} {t : RbTree} {ks : List ℤ} {ms : ℕ → ℕ}
      → History memory n t ks ms
      → (new : ℕ) (t' : RbTree) → new ≢ nil
      → ms new ≡ 0
      → insert (suc n) t (some new) ≡ some (pos 1, t')
      → History memory (suc n) t' (insert_key (t.nodes new).key ks) (λ x. ms x + hits x new)
  keeps :
      {n : ℕ} {t : RbTree} {ks : List ℤ} {ms : ℕ → ℕ}
      → History memory n t ks ms
      → (new : ℕ) (t' : RbTree) → new ≢ nil
      → ms new ≡ 0
      → insert (suc n) t (some new) ≡ some (negsuc 0, t')
      → History memory (suc n) t' (insert_key (t.nodes new).key ks) ms
  removes :
      {n : ℕ} {t : RbTree} {ks : List ℤ} {ms : ℕ → ℕ}
      → History memory n t ks ms
      → (z : ℕ) (e : ℤ) (t' : RbTree) → 0 < ms z
      → delete (suc n) t (some z) ≡ some (e, t')
      → History memory (suc n) t' (delete_key (t.nodes z).key ks) (λ x. ms x - hits x z)

-- The tree stands for the set.
pub record Represents (n : ℕ) (t : RbTree) (ks : List ℤ) (ms : ℕ → ℕ) : Type 0 where
  pub shape : Tree
  pub sound : IsRbTree t shape
  pub same_keys : keys shape ≡ ks
  pub same_nodes : (x : ℕ) → occurs x shape ≡ ms x
  pub small : size shape ≤ n

begins-Represents : (memory : ℕ → RbNode) → Represents 0 (init memory) [] (λ x. 0)
unfolding init
begins-Represents memory = record {
  shape = leaf;
  sound = record {
    at = record {
      subtree = tt;
      around = refl;
      distinct = λ x. omega arith;
      black_nil =
          ap (λ (x : RbNode). x.color)
            (update_self memory nil (record (memory nil) { color = black }));
    };
    balanced = record { height = 0; balanced = bottom };
    sorted = tt;
  };
  same_keys = refl;
  same_nodes = λ x. refl;
  small = omega arith;
}

-- What a call comes to.
abbrev is_refused : Option (ℤ × RbTree) → Bool
is_refused none = false
is_refused (some (pos _, t)) = false
is_refused (some (negsuc _, t)) = true

abbrev tree_or : RbTree → Option (ℤ × RbTree) → RbTree
tree_or t none = t
tree_or t (some (e, u)) = u

module _ (n : ℕ) (t : RbTree) (ks : List ℤ) (ms : ℕ → ℕ) (rep : Represents n t ks ms) where
  added :
      (new : ℕ) (t' : RbTree) (o : Option (ℤ × RbTree))
      → Inserts t rep.shape new o
      → o ≡ some (pos 1, t')
      → Represents (suc n) t' (insert_key (t.nodes new).key ks) (λ x. ms x + hits x new)
  added new t' _ (refuses has) e = absurd (true≢false (ap is_refused e))
  added new t' _ (inserts u s' xs ys old grown nodes is) e =
      let around = IsSorted-Around xs (t.nodes new).key ys (subst IsSorted grown is.sorted) in
      record {
        shape = s';
        sound = subst (λ i. IsRbTree i s') (ap (tree_or t) e) is;
        same_keys =
            grown
            ∙ sym (insert_key-between xs (t.nodes new).key ys around.all_less around.all_more)
            ∙ ap (insert_key (t.nodes new).key) (sym old ∙ rep.same_keys);
        same_nodes = λ x. nodes x ∙ ap (λ i. i + hits x new) (rep.same_nodes x);
        small = omega (
          arith,
          rep.small,
          length-keys s',
          length-keys rep.shape,
          ap length old,
          ap length grown,
          length-append xs ys,
          length-append xs ((t.nodes new).key ∷ ys),
        );
      }

  kept :
      (new : ℕ) (t' : RbTree) (o : Option (ℤ × RbTree))
      → Inserts t rep.shape new o
      → o ≡ some (negsuc 0, t')
      → Represents (suc n) t' (insert_key (t.nodes new).key ks) ms
  kept new t' _ (inserts u s' xs ys old grown nodes is) e =
      absurd (true≢false (sym (ap is_refused e)))
  kept new t' _ (refuses has) e = record {
    shape = rep.shape;
    sound = subst (λ i. IsRbTree i rep.shape) (ap (tree_or t) e) rep.sound;
    same_keys =
        sym (insert_key-present (t.nodes new).key (keys rep.shape) rep.sound.sorted has)
        ∙ ap (insert_key (t.nodes new).key) rep.same_keys;
    same_nodes = rep.same_nodes;
    small = omega (arith, rep.small);
  }

  removed :
      (z : ℕ) (e : ℤ) (t' : RbTree) (o : Option (ℤ × RbTree))
      → Deletes t rep.shape z o
      → o ≡ some (e, t')
      → Represents (suc n) t' (delete_key (t.nodes z).key ks) (λ x. ms x - hits x z)
  removed z e t' _ (deletes u s' xs ys old shrunk nodes is) same =
      let around = IsSorted-Around xs (t.nodes z).key ys (subst IsSorted old rep.sound.sorted) in
      record {
        shape = s';
        sound = subst (λ i. IsRbTree i s') (ap (tree_or t) same) is;
        same_keys =
            shrunk
            ∙ sym (delete_key-middle xs (t.nodes z).key ys around.all_less)
            ∙ ap (delete_key (t.nodes z).key) (sym old ∙ rep.same_keys);
        same_nodes = λ x. omega (arith, nodes x, rep.same_nodes x);
        small = omega (
          arith,
          rep.small,
          length-keys s',
          length-keys rep.shape,
          ap length old,
          ap length shrunk,
          length-append xs ys,
          length-append xs ((t.nodes z).key ∷ ys),
        );
      }

pub History-Represents :
    {memory : ℕ → RbNode} {n : ℕ} {t : RbTree} {ks : List ℤ} {ms : ℕ → ℕ}
    → History memory n t ks ms
    → Represents n t ks ms
History-Represents begins = begins-Represents _
History-Represents (adds {n = n} {t = t} {ks = ks} {ms = ms} h new t' some_new free e) =
    let rep = History-Represents h in
    added n t ks ms rep new t' (insert (suc n) t (some new))
      (insert-Inserts (suc n) t rep.shape new rep.sound some_new (rep.same_nodes new ∙ free)
        (omega (arith, rep.small)))
      e
History-Represents (keeps {n = n} {t = t} {ks = ks} {ms = ms} h new t' some_new free e) =
    let rep = History-Represents h in
    kept n t ks ms rep new t' (insert (suc n) t (some new))
      (insert-Inserts (suc n) t rep.shape new rep.sound some_new (rep.same_nodes new ∙ free)
        (omega (arith, rep.small)))
      e
History-Represents (removes {n = n} {t = t} {ks = ks} {ms = ms} h z e t' there same) =
    let rep = History-Represents h in
    removed n t ks ms rep z e t' (delete (suc n) t (some z))
      (delete-Deletes (suc n) t rep.shape z rep.sound (omega (arith, there, rep.same_nodes z))
        (omega (arith, rep.small)))
      same
