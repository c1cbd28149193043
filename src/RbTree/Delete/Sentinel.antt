-- ===== src/RbTree/Delete/Sentinel.antt =====
-- The sentinel while a node is deleted: what keeps its parent.
use mw_race_service_mesh_c.Base.{
  ℕ, ◌≡◌, ◌≢◌, refl, sym, ap, ◌∙◌, inl, inr, ◌==◌, not_==→≢, Bool-cases,
}
use mw_race_service_mesh_c.RbTree.{
  Color, RbNode, RbTree, nil, store, adopt, replace_left_first, replace_right_first, set_lchild,
  set_rchild, set_parent, turn_left, turn_right, left_rotate, right_rotate, parent_of,
}
use mw_race_service_mesh_c.RbTree.Shape.{Tree, leaf, node, Context, address, above, At}
use mw_race_service_mesh_c.RbTree.Shape.Writes.{update_ne}
use mw_race_service_mesh_c.RbTree.Shape.Moves.{parent_of-At}

pub store-nil : (t : RbTree) (a : ℕ) (v : RbNode) → a ≢ nil → (store t a v).nodes nil ≡ t.nodes nil
store-nil t a v some_a = update_ne t.nodes a nil v some_a

adopt-nil : (t : RbTree) (b n : ℕ) → (adopt t b n).nodes nil ≡ t.nodes nil
unfolding adopt
adopt-nil t b n = elim (Bool-cases (b == nil)) [
  | inl e ↦ rw e refl
  | inr e ↦ rw e (store-nil t b (record (t.nodes b) { parent = n }) (not_==→≢ b nil e))
]

replace_left_first-nil :
    (t : RbTree) (p n y : ℕ) → (replace_left_first t p n y).nodes nil ≡ t.nodes nil
unfolding replace_left_first
replace_left_first-nil t p n y = elim (Bool-cases (p == nil)) [
  | inl e ↦ rw e refl
  | inr e ↦ rw e (elim (Bool-cases (n == (t.nodes p).lchild)) [
    | inl first ↦ rw first (store-nil t p (record (t.nodes p) { lchild = y }) (not_==→≢ p nil e))
    | inr second ↦ rw second (store-nil t p (record (t.nodes p) { rchild = y }) (not_==→≢ p nil e))
  ])
]

replace_right_first-nil :
    (t : RbTree) (p n y : ℕ) → (replace_right_first t p n y).nodes nil ≡ t.nodes nil
unfolding replace_right_first
replace_right_first-nil t p n y = elim (Bool-cases (p == nil)) [
  | inl e ↦ rw e refl
  | inr e ↦ rw e (elim (Bool-cases (n == (t.nodes p).rchild)) [
    | inl first ↦ rw first (store-nil t p (record (t.nodes p) { rchild = y }) (not_==→≢ p nil e))
    | inr second ↦ rw second (store-nil t p (record (t.nodes p) { lchild = y }) (not_==→≢ p nil e))
  ])
]

turn_left-nil :
    (t : RbTree) (n y : ℕ) → n ≢ nil → y ≢ nil → (turn_left t n y).nodes nil ≡ t.nodes nil
unfolding turn_left
turn_left-nil t n y some_n some_y =
    let t1 = set_rchild t n (t.nodes y).lchild in
    let t2 = adopt t1 (t1.nodes y).lchild n in
    let t3 = set_parent t2 y (t2.nodes n).parent in
    let t4 = replace_left_first t3 (t3.nodes n).parent n y in
    let t5 = set_lchild t4 y n in
    store-nil t5 n (record (t5.nodes n) { parent = y }) some_n
    ∙ store-nil t4 y (record (t4.nodes y) { lchild = n }) some_y
    ∙ replace_left_first-nil t3 (t3.nodes n).parent n y
    ∙ store-nil t2 y (record (t2.nodes y) { parent = (t2.nodes n).parent }) some_y
    ∙ adopt-nil t1 (t1.nodes y).lchild n
    ∙ store-nil t n (record (t.nodes n) { rchild = (t.nodes y).lchild }) some_n

turn_right-nil :
    (t : RbTree) (n y : ℕ) → n ≢ nil → y ≢ nil → (turn_right t n y).nodes nil ≡ t.nodes nil
unfolding turn_right
turn_right-nil t n y some_n some_y =
    let t1 = set_lchild t n (t.nodes y).rchild in
    let t2 = adopt t1 (t1.nodes y).rchild n in
    let t3 = set_parent t2 y (t2.nodes n).parent in
    let t4 = replace_right_first t3 (t3.nodes n).parent n y in
    let t5 = set_rchild t4 y n in
    store-nil t5 n (record (t5.nodes n) { parent = y }) some_n
    ∙ store-nil t4 y (record (t4.nodes y) { rchild = n }) some_y
    ∙ replace_right_first-nil t3 (t3.nodes n).parent n y
    ∙ store-nil t2 y (record (t2.nodes y) { parent = (t2.nodes n).parent }) some_y
    ∙ adopt-nil t1 (t1.nodes y).rchild n
    ∙ store-nil t n (record (t.nodes n) { lchild = (t.nodes y).rchild }) some_n

pub left_rotate-nil : (t : RbTree) (n : ℕ) → n ≢ nil → (left_rotate t n).1.nodes nil ≡ t.nodes nil
unfolding left_rotate
left_rotate-nil t n some_n = elim (Bool-cases ((t.nodes n).rchild == nil)) [
  | inl e ↦ rw e refl
  | inr e ↦ rw e (turn_left-nil t n (t.nodes n).rchild some_n (not_==→≢ (t.nodes n).rchild nil e))
]

pub right_rotate-nil : (t : RbTree) (n : ℕ) → n ≢ nil → (right_rotate t n).1.nodes nil ≡ t.nodes nil
unfolding right_rotate
right_rotate-nil t n some_n = elim (Bool-cases ((t.nodes n).lchild == nil)) [
  | inl e ↦ rw e refl
  | inr e ↦ rw e (turn_right-nil t n (t.nodes n).lchild some_n (not_==→≢ (t.nodes n).lchild nil e))
]

-- An rb_tree at a subtree, or at a leaf with the sentinel's parent set to the one above.
pub record Below (t : RbTree) (fs : Context) (s : Tree) : Type 0 where
  pub at : At t fs s
  pub linked : parent_of t (address s) ≡ above fs

pub node-Below :
    {t : RbTree} {fs : Context} {c : Color} {l : Tree} {a : ℕ} {k : _} {r : Tree}
    → At t fs (node c l a k r)
    → Below t fs (node c l a k r)
node-Below at = record { at = at; linked = parent_of-At _ _ _ _ _ _ _ at }

-- What does not write to the sentinel keeps its parent.
pub Below-kept :
    (t t' : RbTree) (fs fs' : Context) (s : Tree)
    → Below t fs s
    → t'.nodes nil ≡ t.nodes nil
    → above fs' ≡ above fs
    → At t' fs' s
    → Below t' fs' s
Below-kept t t' fs fs' leaf b kept same at = record {
  at = at;
  linked = ap (λ (x : RbNode). x.parent) kept ∙ b.linked ∙ sym same;
}
Below-kept t t' fs fs' (node c l a k r) b kept same at = node-Below at
