-- ===== src/RbTree/Delete.antt =====
-- src/main/c/src/com/rbtree.c: rb_transplant, rb_tree_minimum, rb_delete_fixup and rb_delete. The
-- sentinel has a parent while a node is deleted.
pub mod Sentinel
pub mod Light
pub mod Left
pub mod Right
pub mod Fixed
pub mod Transplant
pub mod Least
pub mod Inherit
pub mod Moved
pub mod Detached
pub mod Vacated
pub mod Removed
pub mod Correct
use mw_race_service_mesh_c.Base.{
  ℕ, zero, suc, Bool, not, ◌&&◌, ◌||◌, Option, none, some, ◌==◌, if◌then◌else◌,
}
use mw_race_service_mesh_c.Base.Int.{ℤ, pos, negsuc}
use mw_race_service_mesh_c.RbTree.{
  Color, red, black, is_red, RbNode, RbTree, nil, store, set_color, set_lchild, set_rchild,
  set_parent, left_rotate, right_rotate, parent_of,
}

abbrev pub has_red : RbTree → ℕ → Bool
has_red t a = is_red (t.nodes a).color

-- rb_transplant: the pointer from the parent `p` or the root, and the parent.
unfoldable pub replace_root_first : RbTree → ℕ → ℕ → ℕ → RbTree
replace_root_first t p old new =
    if old == nil || old == t.root
    then record t { root = new }
    else (if old == (t.nodes p).lchild then set_lchild t p new else set_rchild t p new)

unfoldable pub transplant : RbTree → ℕ → ℕ → RbTree
unfolding replace_root_first
transplant t old new =
    let t1 = replace_root_first t (parent_of t old) old new in set_parent t1 new (parent_of t1 old)

-- rb_tree_minimum. `none` means that the fuel ran out.
unfoldable pub minimum : ℕ → RbTree → ℕ → Option ℕ
minimum zero t p = none
minimum (suc fuel) t p =
    let next = (t.nodes p).lchild in
    let rest = minimum fuel t next in if next == nil then some p else rest

-- A node with one black too many, on the left: its brother, black after the first case of
-- rb_delete_fixup.
unfoldable pub raise_left : RbTree → ℕ → ℕ → RbTree
unfolding left_rotate
raise_left t x brother =
    let t1 = set_color t brother black in
    let t2 = set_color t1 (parent_of t1 x) red in (left_rotate t2 (parent_of t2 x)).1

unfoldable pub find_brother_left : RbTree → ℕ → RbTree × ℕ
unfolding raise_left
find_brother_left t x =
    let brother = (t.nodes (parent_of t x)).rchild in
    let t3 = raise_left t x brother in
    if has_red t brother then (t3, (t3.nodes (parent_of t3 x)).rchild) else (t, brother)

-- The third case: the inner child of the brother, which is red, takes its place.
unfoldable pub turn_inner_left : RbTree → ℕ → RbTree
unfolding right_rotate
turn_inner_left t brother =
    let t1 = set_color t brother red in
    let t2 = set_color t1 (t1.nodes brother).lchild black in (right_rotate t2 brother).1

unfoldable pub turn_brother_left : RbTree → ℕ → ℕ → RbTree × ℕ
unfolding turn_inner_left
turn_brother_left t x brother =
    let t3 = turn_inner_left t brother in
    if not (has_red t (t.nodes brother).rchild)
    then (t3, (t3.nodes (parent_of t3 x)).rchild)
    else (t, brother)

-- The fourth case.
unfoldable pub share_left : RbTree → ℕ → ℕ → RbTree × ℕ
unfolding left_rotate
share_left t x brother =
    let t1 = set_color t brother (t.nodes (parent_of t x)).color in
    let t2 = set_color t1 (parent_of t1 x) black in
    let t3 = set_color t2 (t2.nodes brother).rchild black in
    let t4 = (left_rotate t3 (parent_of t3 x)).1 in (t4, t4.root)

-- The second to fourth case: the children of the brother are both black or not.
unfoldable pub spread_left : RbTree → ℕ → ℕ → RbTree × ℕ
unfolding turn_brother_left share_left
spread_left t x brother =
    let t1 = set_color t brother red in
    let turned = turn_brother_left t x brother in
    if not (has_red t (t.nodes brother).lchild) && not (has_red t (t.nodes brother).rchild)
    then (t1, parent_of t1 x)
    else share_left turned.0 x turned.1

unfoldable pub lighten_left : RbTree → ℕ → RbTree × ℕ
unfolding find_brother_left spread_left
lighten_left t x = let found = find_brother_left t x in spread_left found.0 x found.1

unfoldable pub raise_right : RbTree → ℕ → ℕ → RbTree
unfolding right_rotate
raise_right t x brother =
    let t1 = set_color t brother black in
    let t2 = set_color t1 (parent_of t1 x) red in (right_rotate t2 (parent_of t2 x)).1

unfoldable pub find_brother_right : RbTree → ℕ → RbTree × ℕ
unfolding raise_right
find_brother_right t x =
    let brother = (t.nodes (parent_of t x)).lchild in
    let t3 = raise_right t x brother in
    if has_red t brother then (t3, (t3.nodes (parent_of t3 x)).lchild) else (t, brother)

unfoldable pub turn_inner_right : RbTree → ℕ → RbTree
unfolding left_rotate
turn_inner_right t brother =
    let t1 = set_color t brother red in
    let t2 = set_color t1 (t1.nodes brother).rchild black in (left_rotate t2 brother).1

unfoldable pub turn_brother_right : RbTree → ℕ → ℕ → RbTree × ℕ
unfolding turn_inner_right
turn_brother_right t x brother =
    let t3 = turn_inner_right t brother in
    if not (has_red t (t.nodes brother).lchild)
    then (t3, (t3.nodes (parent_of t3 x)).lchild)
    else (t, brother)

unfoldable pub share_right : RbTree → ℕ → ℕ → RbTree × ℕ
unfolding right_rotate
share_right t x brother =
    let t1 = set_color t brother (t.nodes (parent_of t x)).color in
    let t2 = set_color t1 (parent_of t1 x) black in
    let t3 = set_color t2 (t2.nodes brother).lchild black in
    let t4 = (right_rotate t3 (parent_of t3 x)).1 in (t4, t4.root)

unfoldable pub spread_right : RbTree → ℕ → ℕ → RbTree × ℕ
unfolding turn_brother_right share_right
spread_right t x brother =
    let t1 = set_color t brother red in
    let turned = turn_brother_right t x brother in
    if not (has_red t (t.nodes brother).rchild) && not (has_red t (t.nodes brother).lchild)
    then (t1, parent_of t1 x)
    else share_right turned.0 x turned.1

unfoldable pub lighten_right : RbTree → ℕ → RbTree × ℕ
unfolding find_brother_right spread_right
lighten_right t x = let found = find_brother_right t x in spread_right found.0 x found.1

unfoldable pub lighten : RbTree → ℕ → RbTree × ℕ
unfolding lighten_left lighten_right
lighten t x = if x == (t.nodes (parent_of t x)).lchild then lighten_left t x else lighten_right t x

-- The loop of rb_delete_fixup, and the color of the node behind it.
unfoldable pub delete_fixup : ℕ → RbTree → ℕ → Option RbTree
unfolding lighten
delete_fixup zero t x = none
delete_fixup (suc fuel) t x =
    let rest = delete_fixup fuel (lighten t x).0 (lighten t x).1 in
    if not (x == t.root) && not (has_red t x) then rest else some (set_color t x black)

-- A node is out of the tree: the node that took the place of the one that moved, and the color that this
-- one had.
pub record Spliced : Type 0 where
  pub tree : RbTree
  pub replacing : ℕ
  pub ori_color : Color

-- The least node `y` behind `z` leaves its place to its right child, and gets that of `z`.
unfoldable pub detach : RbTree → ℕ → ℕ → RbTree
unfolding transplant
detach t z y =
    let t1 = transplant t y (t.nodes y).rchild in
    let t2 = set_rchild t1 y (t1.nodes z).rchild in set_parent t2 (t2.nodes y).rchild y

-- `y` is at the place of `z`, and gets its left child and its color.
abbrev pub inherit : RbTree → ℕ → ℕ → RbTree
inherit t z y =
    let t3 = set_lchild t y (t.nodes z).lchild in
    let t4 = set_parent t3 (t3.nodes y).lchild y in set_color t4 y (t4.nodes z).color

-- The case of two children.
unfoldable pub splice_least : RbTree → ℕ → ℕ → Spliced
unfolding transplant detach
splice_least t z y =
    let t1 = if parent_of t y == z then set_parent t (t.nodes y).rchild y else detach t z y in
    record {
      tree = inherit (transplant t1 z y) z y;
      replacing = (t.nodes y).rchild;
      ori_color = (t.nodes y).color;
    }

abbrev pub spliced_least : RbTree → ℕ → Option ℕ → Option Spliced
spliced_least t z none = none
spliced_least t z (some y) = some (splice_least t z y)

unfoldable pub splice : ℕ → RbTree → ℕ → Option Spliced
unfolding transplant minimum splice_least
splice fuel t z =
    let n = t.nodes z in
    let least = spliced_least t z (minimum fuel t n.rchild) in
    if n.lchild == nil
    then some (record { tree = transplant t z n.rchild; replacing = n.rchild; ori_color = n.color })
    else (if n.rchild == nil
        then some
            (record { tree = transplant t z n.lchild; replacing = n.lchild; ori_color = n.color })
        else least)

abbrev pub deleted : Option RbTree → Option (ℤ × RbTree)
deleted none = none
deleted (some t) = some (pos 1, t)

abbrev pub restore : ℕ → Option Spliced → Option (ℤ × RbTree)
restore fuel none = none
restore fuel (some s) =
    if is_red s.ori_color
    then some (pos 1, s.tree)
    else deleted (delete_fixup fuel s.tree s.replacing)

-- rb_delete
unfoldable pub delete : ℕ → RbTree → Option ℕ → Option (ℤ × RbTree)
unfolding delete_fixup splice
delete fuel t none = some (negsuc 0, t)
delete fuel t (some z) = restore fuel (splice fuel t z)
