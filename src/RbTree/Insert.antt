-- ===== src/RbTree/Insert.antt =====
-- rb_insert: where a key goes, and the tree that a new node gives.
pub mod Linked
pub mod Inserted
pub mod Correct
use mw_race_service_mesh_c.Base.{
  ℕ, zero, suc, ◌+◌, ◌-◌, ◌*◌, ◌/◌, ◌%◌, ◌^◌, ◌≤◌, ◌<◌, bit_and, bit_or, min, ◌≡◌, ◌≢◌, refl, sym,
  ap, ap₂, ◌∙◌, subst, ◌↔◌, ◌⊎◌, inl, inr, Bool, true, false, not, ◌&&◌, ◌||◌, Option, none, some,
  some-injective, none-ne-some, List, [], ◌∷◌, ◌++◌, append_assoc, append-nil, arith, ltb, leb,
  ◌==◌, if◌then◌else◌, ltb→lt, not_ltb→le, lt→ltb, le→not_ltb, leb→le, not_leb→lt, ==_iff, ==_refl,
  not_==→≢, le→leb, lt→not_leb, not_zero, pos→not_zero, both, not_both, ≢→not_==, true≢false,
  Bool-cases, Option-cases, length, get_elem?, get_or, set, take, drop, replicate, write_at, All,
  All-append, length-append, length-set, set-set, get_or-set_self, get_or-set_ne, length-take,
  length-drop, length-replicate,
}
use mw_race_service_mesh_c.Base.Int.{
  ℤ, ltb_ℤ, ◌<ℤ◌, ltb_ℤ→lt, lt→ltb_ℤ, lt→not_ltb_ℤ, ltb_ℤ-equal, pos_part, neg_part,
}
use mw_race_service_mesh_c.RbTree.{
  Color, red, black, RbNode, RbTree, nil, Place, found, below, find_place,
}
use mw_race_service_mesh_c.RbTree.Shape.{
  Tree, leaf, node, Frame, from_left, from_right, Context, address, above, rb_node, fill, plug,
  keys, size, At,
}
use mw_race_service_mesh_c.RbTree.Shape.Moves.{At-down_left, At-down_right}
use mw_race_service_mesh_c.RbTree.Balance.{
  Balanced, bottom, red_node, black_node, Hole, black_left, black_right, red_left, red_right,
}
use mw_race_service_mesh_c.RbTree.Order.{
  IsSorted, Has, before, behind, keys-plug, lt_trans, All-weaken, Around, IsSorted-Around,
  Has-middle,
}

-- The place for a key: it is there, or there is a leaf with the lesser keys before it and the greater
-- ones behind it.
pub data Places (t : RbTree) (k : ℤ) (whole : Tree) : Place → Type 0 where
  present : Has k (keys whole) → Places t k whole found
  absent :
      (fs : Context)
      → At t fs leaf
      → Hole black 0 fs
      → plug fs leaf ≡ whole
      → All (λ x. x <ℤ k) (before fs)
      → All (λ x. k <ℤ x) (behind fs)
      → Places t k whole (below (above fs))

-- The loop finds one.
pub data Finds (t : RbTree) (k : ℤ) (whole : Tree) : Option Place → Type 0 where
  finds : (p : Place) → Places t k whole p → Finds t k whole (some p)

-- A subtree that is balanced where it is.
pub record BalancedAt (fs : Context) (s : Tree) : Type 0 where
  pub color : Color
  pub height : ℕ
  pub hole : Hole color height fs
  pub balanced : Balanced color height s

pub left_child :
    {c d : Color} {n a : ℕ} {fs : Context} {l : Tree} {k : ℤ} {r : Tree}
    → Hole d n fs
    → Balanced d n (node c l a k r)
    → BalancedAt (from_left c a k r ∷ fs) l
left_child up (red_node bl br) = record {
  color = _;
  height = _;
  hole = red_left br up;
  balanced = bl;
}
left_child up (black_node bl br) = record {
  color = _;
  height = _;
  hole = black_left br up;
  balanced = bl;
}

pub right_child :
    {c d : Color} {n a : ℕ} {fs : Context} {l : Tree} {k : ℤ} {r : Tree}
    → Hole d n fs
    → Balanced d n (node c l a k r)
    → BalancedAt (from_right c a k l ∷ fs) r
right_child up (red_node bl br) = record {
  color = _;
  height = _;
  hole = red_right bl up;
  balanced = br;
}
right_child up (black_node bl br) = record {
  color = _;
  height = _;
  hole = black_right bl up;
  balanced = br;
}

leaf-Hole : {fs : Context} → BalancedAt fs leaf → Hole black 0 fs
leaf-Hole b = at_leaf b.hole b.balanced
  where
    at_leaf : {c : Color} {n : ℕ} {fs : Context} → Hole c n fs → Balanced c n leaf → Hole black 0 fs
    at_leaf up bottom = up

-- One step down.
find_step :
    (fuel : ℕ) (t : RbTree) (key : ℤ) (pre a : ℕ) (v : RbNode)
    → a ≢ nil
    → t.nodes a ≡ v
    → find_place (suc fuel) t key pre a ≡ (
        if ltb_ℤ key v.key || ltb_ℤ v.key key
        then find_place fuel t key a (if ltb_ℤ key v.key then v.lchild else v.rchild)
        else some found)
unfolding find_place
find_step fuel t key pre a v some_a e = rw (≢→not_== a nil some_a) (
    ap
      (λ (n : RbNode).
        if ltb_ℤ key n.key || ltb_ℤ n.key key
        then find_place fuel t key a (if ltb_ℤ key n.key then n.lchild else n.rchild)
        else some found)
      e)

find_end :
    (fuel : ℕ) (t : RbTree) (key : ℤ) (pre : ℕ)
    → find_place (suc fuel) t key pre nil ≡ some (below pre)
unfolding find_place
find_end fuel t key pre = refl

-- The loop of rb_insert on a tree that is sorted and balanced ends with the place for the key, when there
-- is fuel for each node on a way down.
pub find_place-Finds :
    (fuel : ℕ) (t : RbTree) (key : ℤ) (fs : Context) (s : Tree)
    → At t fs s
    → BalancedAt fs s
    → IsSorted (keys s)
    → All (λ x. x <ℤ key) (before fs)
    → All (λ x. key <ℤ x) (behind fs)
    → size s < fuel
    → Finds t key (plug fs s) (find_place fuel t key (above fs) (address s))
find_place-Finds zero t key fs s at b sorted less more enough = absurd (omega arith)
find_place-Finds (suc fuel) t key fs leaf at b sorted less more enough =
    subst (Finds t key (plug fs leaf)) (sym (find_end fuel t key (above fs)))
      (finds (below (above fs)) (absent fs at (leaf-Hole b) refl less more))
find_place-Finds (suc fuel) t key fs (node c l a k r) at b sorted less more enough =
    let around = IsSorted-Around (keys l) k (keys r) sorted in
    let step = find_step fuel t key (above fs) a _ at.subtree.0 at.subtree.1 in
    elim (Bool-cases (ltb_ℤ key k)) [
      | inl lt ↦ subst (Finds t key (plug fs (node c l a k r))) (sym (step ∙ rw lt refl)) (
          let key_less = ltb_ℤ→lt key k lt in
          find_place-Finds fuel t key (from_left c a k r ∷ fs) l (At-down_left t fs c a k l r at)
            (left_child b.hole b.balanced) around.sorted_before less
            (
              key_less,
              All-append (λ x. key <ℤ x) (keys r) (behind fs)
                  (All-weaken (λ x. k <ℤ x) (λ x. key <ℤ x) (keys r)
                    (λ x h. lt_trans key k x key_less h) around.all_more)
                  more,
            )
            (omega arith))
      | inr ge ↦ elim (Bool-cases (ltb_ℤ k key)) [
        | inl gt ↦
            subst (Finds t key (plug fs (node c l a k r))) (sym (step ∙ rw ge (rw gt refl))) (
              let key_more = ltb_ℤ→lt k key gt in
              find_place-Finds fuel t key (from_right c a k l ∷ fs) r
                (At-down_right t fs c a k l r at) (right_child b.hole b.balanced)
                around.sorted_behind
                (All-append (λ x. x <ℤ key) (before fs) (keys l ++ (k ∷ [])) less
                  (All-append (λ x. x <ℤ key) (keys l) (k ∷ [])
                    (All-weaken (λ x. x <ℤ k) (λ x. x <ℤ key) (keys l)
                      (λ x h. lt_trans x k key h key_more) around.all_less)
                    (key_more, tt)))
                more (omega arith))
        | inr le ↦
            subst (Finds t key (plug fs (node c l a k r))) (sym (step ∙ rw ge (rw le refl))) (
              finds found (
                present (
                  subst (Has key) (sym (keys-plug fs (node c l a k r))) (
                    subst (λ x. Has x (before fs ++ ((keys l ++ (k ∷ keys r)) ++ behind fs)))
                      (sym (ltb_ℤ-equal key k ge le))
                      (subst (Has k) (simp append_assoc)
                        (Has-middle (before fs ++ keys l) k (keys r ++ behind fs)))))))
      ]
    ]
