-- ===== src/RbTree.antt =====
-- src/main/c/src/com/rbtree.c: red-black trees of nodes with parent pointers. An address is a number,
-- and the sentinel of the tree, whose children and parent are not set, has the address `nil`. The
-- pointer to the tree is not NULL; a node that may be NULL is an option.
pub mod Shape
pub mod Rotate
pub mod Balance
pub mod Fixup
pub mod Order
pub mod Insert
pub mod Search
pub mod Delete
pub mod Traversal
pub mod KeySet
pub mod History
mod Tests
use mw_race_service_mesh_c.Base.{
  ℕ, zero, suc, ◌+◌, ◌-◌, ◌*◌, ◌/◌, ◌%◌, ◌^◌, ◌≤◌, ◌<◌, bit_and, bit_or, min, ◌≡◌, ◌≢◌, refl, sym,
  ap, ap₂, ◌∙◌, subst, ◌↔◌, ◌⊎◌, inl, inr, Bool, true, false, not, ◌&&◌, ◌||◌, Option, none, some,
  some-injective, none-ne-some, List, [], ◌∷◌, ◌++◌, append_assoc, append-nil, arith, ltb, leb,
  ◌==◌, if◌then◌else◌, ltb→lt, not_ltb→le, lt→ltb, le→not_ltb, leb→le, not_leb→lt, ==_iff, ==_refl,
  not_==→≢, le→leb, lt→not_leb, not_zero, pos→not_zero, both, not_both, true≢false, Bool-cases,
  Option-cases, length, get_elem?, get_or, set, take, drop, replicate, write_at, All, All-append,
  length-append, length-set, set-set, get_or-set_self, get_or-set_ne, length-take, length-drop,
  length-replicate,
}
use mw_race_service_mesh_c.Base.Int.{ℤ, pos, negsuc, ltb_ℤ, eqb_ℤ}

-- RB_RED and RB_BLACK
pub data Color : Type 0 where
  red : Color
  black : Color

pub record RbNode : Type 0 where
  pub color : Color
  pub key : ℤ
  pub lchild : ℕ
  pub rchild : ℕ
  pub parent : ℕ

pub record RbTree : Type 0 where
  pub root : ℕ
  pub nodes : ℕ → RbNode

abbrev pub nil : ℕ
nil = 0

abbrev pub is_red : Color → Bool
is_red red = true
is_red black = false

unfoldable pub update : (ℕ → RbNode) → ℕ → RbNode → ℕ → RbNode
update nodes a n b = if a == b then n else nodes b

abbrev pub store : RbTree → ℕ → RbNode → RbTree
store t a n = record t { nodes = update t.nodes a n }

abbrev pub set_color : RbTree → ℕ → Color → RbTree
set_color t a c = store t a (record (t.nodes a) { color = c })

abbrev pub set_lchild : RbTree → ℕ → ℕ → RbTree
set_lchild t a x = store t a (record (t.nodes a) { lchild = x })

abbrev pub set_rchild : RbTree → ℕ → ℕ → RbTree
set_rchild t a x = store t a (record (t.nodes a) { rchild = x })

abbrev pub set_parent : RbTree → ℕ → ℕ → RbTree
set_parent t a x = store t a (record (t.nodes a) { parent = x })

-- rb_init. `memory` is what the memory of the nodes holds, the sentinel's among it.
unfoldable pub init : (ℕ → RbNode) → RbTree
init memory = set_color (record { root = nil; nodes = memory }) nil black

-- rb_search. `none` means that the fuel ran out; NULL is `nil` here.
unfoldable pub search_loop : ℕ → RbTree → ℤ → ℕ → Option ℕ
search_loop zero t key p = none
search_loop (suc fuel) t key p =
    let n = t.nodes p in
    let rest = search_loop fuel t key (if ltb_ℤ key n.key then n.lchild else n.rchild) in
    if p == nil then some nil else (if eqb_ℤ n.key key then some p else rest)

unfoldable pub search : ℕ → RbTree → ℤ → Option ℕ
unfolding search_loop
search fuel t key = search_loop fuel t key t.root

-- The parent of a child that moves to `n`, unless it is the sentinel.
unfoldable pub adopt : RbTree → ℕ → ℕ → RbTree
adopt t b n = if b == nil then t else set_parent t b n

-- The pointer to `n` in its parent `p`, or the root, becomes one to `y`. The two rotations look at
-- the children in different orders.
unfoldable pub replace_left_first : RbTree → ℕ → ℕ → ℕ → RbTree
replace_left_first t p n y =
    if p == nil
    then record t { root = y }
    else (if n == (t.nodes p).lchild then set_lchild t p y else set_rchild t p y)

unfoldable pub replace_right_first : RbTree → ℕ → ℕ → ℕ → RbTree
replace_right_first t p n y =
    if p == nil
    then record t { root = y }
    else (if n == (t.nodes p).rchild then set_rchild t p y else set_lchild t p y)

-- The left rotation at `n`, whose right child is `y`.
unfoldable pub turn_left : RbTree → ℕ → ℕ → RbTree
unfolding adopt replace_left_first
turn_left t n y =
    let t1 = set_rchild t n (t.nodes y).lchild in
    let t2 = adopt t1 (t1.nodes y).lchild n in
    let t3 = set_parent t2 y (t2.nodes n).parent in
    let t4 = replace_left_first t3 (t3.nodes n).parent n y in
    let t5 = set_lchild t4 y n in set_parent t5 n y

unfoldable pub left_rotate : RbTree → ℕ → ℤ × RbTree
unfolding turn_left
left_rotate t n =
    let y = (t.nodes n).rchild in if y == nil then (negsuc 0, t) else (pos 1, turn_left t n y)

-- The right rotation at `n`, whose left child is `y`.
unfoldable pub turn_right : RbTree → ℕ → ℕ → RbTree
unfolding adopt replace_right_first
turn_right t n y =
    let t1 = set_lchild t n (t.nodes y).rchild in
    let t2 = adopt t1 (t1.nodes y).rchild n in
    let t3 = set_parent t2 y (t2.nodes n).parent in
    let t4 = replace_right_first t3 (t3.nodes n).parent n y in
    let t5 = set_rchild t4 y n in set_parent t5 n y

unfoldable pub right_rotate : RbTree → ℕ → ℤ × RbTree
unfolding turn_right
right_rotate t n =
    let y = (t.nodes n).lchild in if y == nil then (negsuc 0, t) else (pos 1, turn_right t n y)

abbrev pub parent_of : RbTree → ℕ → ℕ
parent_of t a = (t.nodes a).parent

abbrev pub grandparent_of : RbTree → ℕ → ℕ
grandparent_of t a = parent_of t (parent_of t a)

-- The case of a red uncle, in both directions: the parent and the uncle are black, the grandparent is
-- red and the next node to look at.
unfoldable pub recolor : RbTree → ℕ → ℕ → RbTree × ℕ
recolor t z uncle =
    let t1 = set_color t (parent_of t z) black in
    let t2 = set_color t1 uncle black in
    let t3 = set_color t2 (grandparent_of t2 z) red in (t3, grandparent_of t3 z)

-- The third case, before its rotation.
unfoldable pub swap_colors : RbTree → ℕ → RbTree
swap_colors t z =
    let t1 = set_color t (parent_of t z) black in set_color t1 (grandparent_of t1 z) red

-- The third case: the colors, and the rotation at the grandparent.
unfoldable pub settle_left : RbTree → ℕ → RbTree
unfolding swap_colors right_rotate
settle_left t z = let t1 = swap_colors t z in (right_rotate t1 (grandparent_of t1 z)).1

unfoldable pub settle_right : RbTree → ℕ → RbTree
unfolding swap_colors left_rotate
settle_right t z = let t1 = swap_colors t z in (left_rotate t1 (grandparent_of t1 z)).1

unfoldable pub fixup_left : RbTree → ℕ → RbTree × ℕ
unfolding left_rotate recolor settle_left
fixup_left t z =
    let uncle = (t.nodes (grandparent_of t z)).rchild in
    let p = parent_of t z in
    let turned : RbTree × ℕ =
      if z == (t.nodes p).rchild then ((left_rotate t p).1, p) else (t, z) in
    if is_red (t.nodes uncle).color
    then recolor t z uncle
    else (settle_left turned.0 turned.1, turned.1)

unfoldable pub fixup_right : RbTree → ℕ → RbTree × ℕ
unfolding right_rotate recolor settle_right
fixup_right t z =
    let uncle = (t.nodes (grandparent_of t z)).lchild in
    let p = parent_of t z in
    let turned : RbTree × ℕ =
      if z == (t.nodes p).lchild then ((right_rotate t p).1, p) else (t, z) in
    if is_red (t.nodes uncle).color
    then recolor t z uncle
    else (settle_right turned.0 turned.1, turned.1)

unfoldable pub fixup_round : RbTree → ℕ → RbTree × ℕ
unfolding fixup_left fixup_right
fixup_round t z =
    if parent_of t z == (t.nodes (grandparent_of t z)).lchild
    then fixup_left t z
    else fixup_right t z

-- The loop of rb_insert_fixup, and the color of the root behind it.
unfoldable pub insert_fixup : ℕ → RbTree → ℕ → Option RbTree
unfolding fixup_round
insert_fixup zero t z = none
insert_fixup (suc fuel) t z =
    let rest = insert_fixup fuel (fixup_round t z).0 (fixup_round t z).1 in
    if is_red (t.nodes (parent_of t z)).color then rest else some (set_color t t.root black)

-- The loop of rb_insert: the place for a key, which is the last node that is looked at, or none when the
-- key is there.
pub data Place : Type 0 where
  found : Place
  below : ℕ → Place

unfoldable pub find_place : ℕ → RbTree → ℤ → ℕ → ℕ → Option Place
find_place zero t key pre p = none
find_place (suc fuel) t key pre p =
    let n = t.nodes p in
    let rest = find_place fuel t key p (if ltb_ℤ key n.key then n.lchild else n.rchild) in
    if p == nil
    then some (below pre)
    else (if ltb_ℤ key n.key || ltb_ℤ n.key key then rest else some found)

-- The new node, red and without children, below `pre`.
unfoldable pub link : RbTree → ℕ → ℕ → RbTree
link t pre new =
    let t1 = set_parent t new pre in
    let t2 =
      if pre == nil
      then record t1 { root = new }
      else (if ltb_ℤ (t1.nodes new).key (t1.nodes pre).key
          then set_lchild t1 pre new
          else set_rchild t1 pre new) in
    set_color (set_lchild (set_rchild t2 new nil) new nil) new red

abbrev pub inserted : Option RbTree → Option (ℤ × RbTree)
inserted none = none
inserted (some t) = some (pos 1, t)

abbrev pub insert_at : ℕ → RbTree → ℕ → Option Place → Option (ℤ × RbTree)
insert_at fuel t new none = none
insert_at fuel t new (some found) = some (negsuc 0, t)
insert_at fuel t new (some (below pre)) = inserted (insert_fixup fuel (link t pre new) new)

-- rb_insert
unfoldable pub insert : ℕ → RbTree → Option ℕ → Option (ℤ × RbTree)
unfolding insert_fixup find_place link
insert fuel t none = some (negsuc 0, t)
insert fuel t (some new) = insert_at fuel t new (find_place fuel t (t.nodes new).key nil t.root)
