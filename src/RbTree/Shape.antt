-- ===== src/RbTree/Shape.antt =====
-- The trees that the nodes of an rb_tree make up, and the path from a node to the root.
pub mod Writes
pub mod Moves
use mw_race_service_mesh_c.Base.{
  ℕ, zero, suc, ◌+◌, ◌-◌, ◌*◌, ◌/◌, ◌%◌, ◌^◌, ◌≤◌, ◌<◌, bit_and, bit_or, min, ◌≡◌, ◌≢◌, refl, sym,
  ap, ap₂, ◌∙◌, subst, ◌↔◌, ◌⊎◌, inl, inr, Bool, true, false, not, ◌&&◌, ◌||◌, Option, none, some,
  some-injective, none-ne-some, List, [], ◌∷◌, ◌++◌, append_assoc, append-nil, arith, ltb, leb,
  ◌==◌, if◌then◌else◌, ltb→lt, not_ltb→le, lt→ltb, le→not_ltb, leb→le, not_leb→lt, ==_iff, ==_refl,
  not_==→≢, le→leb, lt→not_leb, not_zero, pos→not_zero, both, not_both, true≢false, Bool-cases,
  Option-cases, length, get_elem?, get_or, set, take, drop, replicate, write_at, All, All-append,
  length-append, length-set, set-set, get_or-set_self, get_or-set_ne, length-take, length-drop,
  length-replicate,
}
use mw_race_service_mesh_c.Base.Int.{ℤ}
use mw_race_service_mesh_c.RbTree.{Color, red, black, RbNode, RbTree, nil}

-- A node has its color, its left child, its address, its key and its right child.
pub data Tree : Type 0 where
  leaf : Tree
  node : Color → Tree → ℕ → ℤ → Tree → Tree

-- A step up from a left child and from a right child: the parent's color, address and key, and its other
-- child.
pub data Frame : Type 0 where
  from_left : Color → ℕ → ℤ → Tree → Frame
  from_right : Color → ℕ → ℤ → Tree → Frame

abbrev pub Context : Type 0
Context = List Frame

abbrev pub address : Tree → ℕ
address leaf = nil
address (node c l a k r) = a

abbrev pub frame_address : Frame → ℕ
frame_address (from_left c a k r) = a
frame_address (from_right c a k l) = a

abbrev pub frame_color : Frame → Color
frame_color (from_left c a k r) = c
frame_color (from_right c a k l) = c

-- The sentinel is black.
abbrev pub top_color : Tree → Color
top_color leaf = black
top_color (node c l a k r) = c

-- The address of the parent.
abbrev pub above : Context → ℕ
above [] = nil
above (f ∷ fs) = frame_address f

abbrev pub rb_node : Color → ℤ → ℕ → ℕ → ℕ → RbNode
rb_node c k l r p = record { color = c; key = k; lchild = l; rchild = r; parent = p }

-- The nodes hold a tree below a parent.
abbrev pub Holds : (ℕ → RbNode) → ℕ → Tree → Type 0
Holds h p leaf = Unit
Holds h p (node c l a k r) =
    (a ≢ nil) × (h a ≡ rb_node c k (address l) (address r) p) × Holds h a l × Holds h a r

-- The nodes hold what is around a subtree with an address.
abbrev pub HoldsContext : (ℕ → RbNode) → ℕ → ℕ → Context → Type 0
HoldsContext h root x [] = root ≡ x
HoldsContext h root x (from_left c a k r ∷ fs) =
    (a ≢ nil)
    × (h a ≡ rb_node c k x (address r) (above fs))
    × Holds h a r
    × HoldsContext h root a fs
HoldsContext h root x (from_right c a k l ∷ fs) =
    (a ≢ nil)
    × (h a ≡ rb_node c k (address l) x (above fs))
    × Holds h a l
    × HoldsContext h root a fs

-- How often an address occurs.
abbrev pub hits : ℕ → ℕ → ℕ
hits a b = if a == b then 1 else 0

abbrev pub occurs : ℕ → Tree → ℕ
occurs x leaf = 0
occurs x (node c l a k r) = hits x a + occurs x l + occurs x r

abbrev pub occurs_frame : ℕ → Frame → ℕ
occurs_frame x (from_left c a k r) = hits x a + occurs x r
occurs_frame x (from_right c a k l) = hits x a + occurs x l

abbrev pub occurs_around : ℕ → Context → ℕ
occurs_around x [] = 0
occurs_around x (f ∷ fs) = occurs_frame x f + occurs_around x fs

-- The tree with a subtree at its place.
abbrev pub fill : Frame → Tree → Tree
fill (from_left c a k r) t = node c t a k r
fill (from_right c a k l) t = node c l a k t

abbrev pub plug : Context → Tree → Tree
plug [] t = t
plug (f ∷ fs) t = plug fs (fill f t)

abbrev pub keys : Tree → List ℤ
keys leaf = []
keys (node c l a k r) = keys l ++ (k ∷ keys r)

abbrev pub size : Tree → ℕ
size leaf = 0
size (node c l a k r) = suc (size l + size r)

-- An rb_tree at a subtree: its nodes hold the subtree and what is around it, no node occurs twice, and
-- the sentinel is black.
pub record At (t : RbTree) (fs : Context) (s : Tree) : Type 0 where
  pub subtree : Holds t.nodes (above fs) s
  pub around : HoldsContext t.nodes t.root (address s) fs
  pub distinct : (x : ℕ) → occurs x s + occurs_around x fs ≤ 1
  pub black_nil : (t.nodes nil).color ≡ black
