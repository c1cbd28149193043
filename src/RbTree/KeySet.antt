-- ===== src/RbTree/KeySet.antt =====
-- The ordered set of keys that rbtree.c keeps.
use mw_race_service_mesh_c.Base.{
  ◌+◌, ◌≡◌, refl, sym, ap, ◌∙◌, subst, inl, inr, false, List, [], ◌∷◌, ◌++◌, arith, if◌then◌else◌,
  ==_iff, ==_refl, le→not_ltb, Bool-cases, All, length, length-append,
}
use mw_race_service_mesh_c.Base.Int.{
  ℤ, ◌<ℤ◌, eqb_ℤ, ltb_ℤ, lt→ltb_ℤ, lt→not_ltb_ℤ, pos_part, neg_part,
}
use mw_race_service_mesh_c.RbTree.Shape.{Tree, leaf, node, keys, size}
use mw_race_service_mesh_c.RbTree.Order.{IsSorted, Has}
use mw_race_service_mesh_c.RbTree.Search.{All-Has}

-- The ordered set that rbtree.c promises, as a list of keys in order.
abbrev pub insert_key : ℤ → List ℤ → List ℤ
insert_key k [] = k ∷ []
insert_key k (x ∷ xs) =
    if ltb_ℤ k x then k ∷ x ∷ xs else (if ltb_ℤ x k then x ∷ insert_key k xs else x ∷ xs)

abbrev pub delete_key : ℤ → List ℤ → List ℤ
delete_key k [] = []
delete_key k (x ∷ xs) = if eqb_ℤ k x then xs else x ∷ delete_key k xs

irreflexive : (k : ℤ) → ltb_ℤ k k ≡ false
irreflexive k = le→not_ltb _ _ (omega arith)

pub insert_key-between :
    (xs : List ℤ) (k : ℤ) (ys : List ℤ)
    → All (λ x. x <ℤ k) xs
    → All (λ x. k <ℤ x) ys
    → insert_key k (xs ++ ys) ≡ xs ++ (k ∷ ys)
insert_key-between [] k [] less more = refl
insert_key-between [] k (y ∷ ys) less more = rw (lt→ltb_ℤ k y more.0) refl
insert_key-between (x ∷ xs) k ys less more =
    rw (lt→not_ltb_ℤ k x less.0)
      (rw (lt→ltb_ℤ x k less.0) (ap (λ i. x ∷ i) (insert_key-between xs k ys less.1 more)))

pub insert_key-present : (k : ℤ) (xs : List ℤ) → IsSorted xs → Has k xs → insert_key k xs ≡ xs
insert_key-present k [] sorted has = absurd has
insert_key-present k (x ∷ xs) sorted (inl e) =
    subst (λ i. insert_key i (x ∷ xs) ≡ x ∷ xs) (sym e) (rw (irreflexive x) refl)
insert_key-present k (x ∷ xs) sorted (inr has) =
    let less = All-Has (λ y. x <ℤ y) k xs sorted.0 has in
    rw (lt→not_ltb_ℤ k x less)
      (rw (lt→ltb_ℤ x k less) (ap (λ i. x ∷ i) (insert_key-present k xs sorted.1 has)))

pub delete_key-middle :
    (xs : List ℤ) (k : ℤ) (ys : List ℤ)
    → All (λ x. x <ℤ k) xs
    → delete_key k (xs ++ (k ∷ ys)) ≡ xs ++ ys
delete_key-middle [] k ys less = rw (==_refl (pos_part k + neg_part k)) refl
delete_key-middle (x ∷ xs) k ys less = elim (Bool-cases (eqb_ℤ k x)) [
  | inl same ↦ absurd (
      let e = (==_iff (pos_part k + neg_part x) (pos_part x + neg_part k)).0 same in
      let h = less.0 in omega (arith, e, h))
  | inr other ↦ rw other (ap (λ i. x ∷ i) (delete_key-middle xs k ys less.1))
]

pub length-keys : (s : Tree) → length (keys s) ≡ size s
length-keys leaf = refl
length-keys (node c l a k r) =
    length-append (keys l) (k ∷ keys r) ∙ omega (arith, length-keys l, length-keys r)
