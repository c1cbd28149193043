-- ===== src/RbTree/Search.antt =====
-- rb_search on a search tree.
use mw_race_service_mesh_c.Base.{
  ℕ, zero, suc, ◌+◌, ◌≤◌, ◌<◌, ◌≡◌, ◌≢◌, refl, sym, ap, ◌∙◌, subst, ◌⊎◌, inl, inr, true, false,
  Option, some, List, [], ◌∷◌, ◌++◌, arith, if◌then◌else◌, not_ltb→le, le→not_ltb, ==_iff, not_==→≢,
  ≢→not_==, Bool-cases, All,
}
use mw_race_service_mesh_c.Base.Int.{
  ℤ, ◌<ℤ◌, eqb_ℤ, ltb_ℤ, ltb_ℤ→lt, ltb_ℤ-equal, pos_part, neg_part,
}
use mw_race_service_mesh_c.RbTree.{RbNode, RbTree, nil, search_loop, search}
use mw_race_service_mesh_c.RbTree.Shape.{
  Tree, leaf, node, address, rb_node, Holds, occurs, keys, size,
}
use mw_race_service_mesh_c.RbTree.Shape.Writes.{hits_self}
use mw_race_service_mesh_c.RbTree.Order.{IsSorted, Has, IsSorted-Around}
use mw_race_service_mesh_c.RbTree.Insert.Correct.{IsRbTree}

-- A search ends with a node of the tree that has the key, or with NULL when no node has it.
pub data Searches (t : RbTree) (s : Tree) (key : ℤ) : Option ℕ → Type 0 where
  hit : (a : ℕ) → 0 < occurs a s → (t.nodes a).key ≡ key → Searches t s key (some a)
  miss : ¬ Has key (keys s) → Searches t s key (some nil)

pub All-Has : (P : ℤ → Type 0) (k : ℤ) (xs : List ℤ) → All P xs → Has k xs → P k
All-Has P k [] all h = elim h [ ]
All-Has P k (x ∷ xs) all (inl e) = subst P (sym e) all.0
All-Has P k (x ∷ xs) all (inr h) = All-Has P k xs all.1 h

Has-append : (k : ℤ) (xs ys : List ℤ) → Has k (xs ++ ys) → Has k xs ⊎ Has k ys
Has-append k [] ys h = inr h
Has-append k (x ∷ xs) ys (inl e) = inl (inl e)
Has-append k (x ∷ xs) ys (inr h) = elim (Has-append k xs ys h) [
  | inl a ↦ inl (inr a)
  | inr b ↦ inr b
]

eqb_ℤ→≡ : (a b : ℤ) → eqb_ℤ a b ≡ true → a ≡ b
eqb_ℤ→≡ a b h =
    let e = (==_iff (pos_part a + neg_part b) (pos_part b + neg_part a)).0 h in
    ltb_ℤ-equal a b (le→not_ltb _ _ (omega (arith, e))) (le→not_ltb _ _ (omega (arith, e)))

pub not_eqb_ℤ : (a b : ℤ) → eqb_ℤ a b ≡ false → b ≡ a → ⊥
not_eqb_ℤ a b h e = not_==→≢ (pos_part a + neg_part b) (pos_part b + neg_part a) h (rw e refl)

search_step :
    (fuel : ℕ) (t : RbTree) (key : ℤ) (a : ℕ) (v : RbNode)
    → a ≢ nil
    → t.nodes a ≡ v
    → search_loop (suc fuel) t key a ≡ (
        if eqb_ℤ v.key key
        then some a
        else search_loop fuel t key (if ltb_ℤ key v.key then v.lchild else v.rchild))
unfolding search_loop
search_step fuel t key a v some_a e = rw (≢→not_== a nil some_a) (
    ap
      (λ (n : RbNode).
        if eqb_ℤ n.key key
        then some a
        else search_loop fuel t key (if ltb_ℤ key n.key then n.lchild else n.rchild))
      e)

search_end : (fuel : ℕ) (t : RbTree) (key : ℤ) → search_loop (suc fuel) t key nil ≡ some nil
unfolding search_loop
search_end fuel t key = refl

-- What a search in a subtree means for the tree.
widen :
    (t : RbTree) (s s' : Tree) (key : ℤ) (o : Option ℕ)
    → ((a : ℕ) → occurs a s ≤ occurs a s')
    → (Has key (keys s') → Has key (keys s))
    → Searches t s key o
    → Searches t s' key o
widen t s s' key _ more narrow (hit a there e) = hit a (omega (arith, more a)) e
widen t s s' key _ more narrow (miss none_there) = miss (λ h. none_there (narrow h))

search_loop-Searches :
    (fuel : ℕ) (t : RbTree) (key : ℤ) (p : ℕ) (s : Tree)
    → Holds t.nodes p s
    → IsSorted (keys s)
    → size s < fuel
    → Searches t s key (search_loop fuel t key (address s))
search_loop-Searches zero t key p s held sorted enough = absurd (omega arith)
search_loop-Searches (suc fuel) t key p leaf held sorted enough =
    subst (Searches t leaf key) (sym (search_end fuel t key)) (miss (λ h. h))
search_loop-Searches (suc fuel) t key p (node c l a k r) held sorted enough =
    let around = IsSorted-Around (keys l) k (keys r) sorted in
    let whole = node c l a k r in
    let step = search_step fuel t key a (rb_node c k (address l) (address r) p) held.0 held.1 in
    elim (Bool-cases (eqb_ℤ k key)) [
      | inl same ↦ subst (Searches t whole key) (sym (step ∙ rw same refl)) (
          hit a (omega (arith, hits_self a))
            (ap (λ (x : RbNode). x.key) held.1 ∙ eqb_ℤ→≡ k key same))
      | inr other ↦ elim (Bool-cases (ltb_ℤ key k)) [
        | inl lt ↦ subst (Searches t whole key) (sym (step ∙ rw other (rw lt refl))) (
            widen t l whole key _ (λ x. omega arith)
              (λ h. elim (Has-append key (keys l) (k ∷ keys r) h) [
                | inl in_left ↦ in_left
                | inr (inl e) ↦ absurd (not_eqb_ℤ k key other e)
                | inr (inr in_right) ↦ absurd (
                    let more = All-Has (λ x. k <ℤ x) key (keys r) around.all_more in_right in
                    let less = ltb_ℤ→lt key k lt in omega (arith, more, less))
              ])
              (search_loop-Searches fuel t key a l held.2 around.sorted_before (omega arith)))
        | inr ge ↦ subst (Searches t whole key) (sym (step ∙ rw other (rw ge refl))) (
            widen t r whole key _ (λ x. omega arith)
              (λ h. elim (Has-append key (keys l) (k ∷ keys r) h) [
                | inl in_left ↦ absurd (
                    let less = All-Has (λ x. x <ℤ k) key (keys l) around.all_less in_left in
                    let not_less = not_ltb→le _ _ ge in omega (arith, less, not_less))
                | inr (inl e) ↦ absurd (not_eqb_ℤ k key other e)
                | inr (inr in_right) ↦ in_right
              ])
              (search_loop-Searches fuel t key a r held.3 around.sorted_behind (omega arith)))
      ]
    ]

-- rb_search in a red-black search tree gives a node of the tree that has the key, or NULL when no
-- node has it. With more fuel than there are nodes its loop ends.
pub search-Searches :
    (fuel : ℕ) (t : RbTree) (s : Tree) (key : ℤ)
    → IsRbTree t s
    → size s < fuel
    → Searches t s key (search fuel t key)
unfolding search
search-Searches fuel t s key tree enough =
    subst (λ i. Searches t s key (search_loop fuel t key i)) (sym tree.at.around)
      (search_loop-Searches fuel t key nil s tree.at.subtree tree.sorted enough)
