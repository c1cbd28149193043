-- ===== src/RbTree/Balance.antt =====
-- The colors of a red-black tree: the children of a red node are black, and each way down meets as many
-- black nodes.
use mw_race_service_mesh_c.Base.{ℕ, suc, [], ◌∷◌}
use mw_race_service_mesh_c.Base.Int.{ℤ}
use mw_race_service_mesh_c.RbTree.{Color, red, black}
use mw_race_service_mesh_c.RbTree.Shape.{Tree, leaf, node, from_left, from_right, Context, plug}

-- A tree with the color of its root and its number of black nodes on each way down.
pub data Balanced : Color → ℕ → Tree → Type 0 where
  bottom : Balanced black 0 leaf
  red_node :
      {n a : ℕ} {k : ℤ} {l r : Tree}
      → Balanced black n l
      → Balanced black n r
      → Balanced red n (node red l a k r)
  black_node :
      {n a : ℕ} {k : ℤ} {l r : Tree} {cl cr : Color}
      → Balanced cl n l
      → Balanced cr n r
      → Balanced black (suc n) (node black l a k r)

-- A context in which a tree with a color and a number of black nodes is balanced, with a black root.
pub data Hole : Color → ℕ → Context → Type 0 where
  at_root : {n : ℕ} → Hole black n []
  black_left :
      {c cr : Color} {n a : ℕ} {k : ℤ} {r : Tree} {fs : Context}
      → Balanced cr n r
      → Hole black (suc n) fs
      → Hole c n (from_left black a k r ∷ fs)
  black_right :
      {c cl : Color} {n a : ℕ} {k : ℤ} {l : Tree} {fs : Context}
      → Balanced cl n l
      → Hole black (suc n) fs
      → Hole c n (from_right black a k l ∷ fs)
  red_left :
      {n a : ℕ} {k : ℤ} {r : Tree} {fs : Context}
      → Balanced black n r
      → Hole red n fs
      → Hole black n (from_left red a k r ∷ fs)
  red_right :
      {n a : ℕ} {k : ℤ} {l : Tree} {fs : Context}
      → Balanced black n l
      → Hole red n fs
      → Hole black n (from_right red a k l ∷ fs)

-- A tree that is balanced and has a black root.
pub record IsBalanced (s : Tree) : Type 0 where
  pub height : ℕ
  pub balanced : Balanced black height s

pub plug-IsBalanced :
    {c : Color} {n : ℕ} {fs : Context} {s : Tree}
    → Hole c n fs
    → Balanced c n s
    → IsBalanced (plug fs s)
plug-IsBalanced at_root b = record { height = _; balanced = b }
plug-IsBalanced (black_left other up) b = plug-IsBalanced up (black_node b other)
plug-IsBalanced (black_right other up) b = plug-IsBalanced up (black_node other b)
plug-IsBalanced (red_left other up) b = plug-IsBalanced up (red_node b other)
plug-IsBalanced (red_right other up) b = plug-IsBalanced up (red_node other b)

-- What a tree that is balanced has around its leaf.
pub data Opened (n : ℕ) (fs : Context) (s : Tree) : Type 0 where
  opens : {c : Color} → Hole c n fs → Balanced c n s → Opened n fs s

-- The root's color does not matter for a black subtree's place.
pub Hole-black : {c : Color} {n : ℕ} {fs : Context} → Hole c n fs → Hole black n fs
Hole-black at_root = at_root
Hole-black (black_left other up) = black_left other up
Hole-black (black_right other up) = black_right other up
Hole-black (red_left other up) = red_left other up
Hole-black (red_right other up) = red_right other up
