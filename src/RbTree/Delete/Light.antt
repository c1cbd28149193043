-- ===== src/RbTree/Delete/Light.antt =====
-- A subtree with one black node too few on its ways down, and what a round of rb_delete_fixup does
-- to it.
use mw_race_service_mesh_c.Base.{
  ℕ, suc, ◌≤◌, ◌<◌, ◌≡◌, ◌≢◌, refl, sym, ap, ◌∙◌, subst, false, [], ◌∷◌, append_assoc, arith, ◌==◌,
  ≢→not_==, length,
}
use mw_race_service_mesh_c.Base.Int.{ℤ}
use mw_race_service_mesh_c.RbTree.{Color, red, black, is_red, RbTree, nil}
use mw_race_service_mesh_c.RbTree.Shape.{
  Tree, node, from_left, from_right, Context, address, top_color, occurs, occurs_around, plug, keys,
  Holds, At,
}
use mw_race_service_mesh_c.RbTree.Shape.Writes.{address-occurs}
use mw_race_service_mesh_c.RbTree.Shape.Moves.{At-up_left, At-up_right, color-address}
use mw_race_service_mesh_c.RbTree.Balance.{
  Balanced, bottom, red_node, black_node, Hole, at_root, plug-IsBalanced,
}
use mw_race_service_mesh_c.RbTree.Fixup.Rounds.{Same}
use mw_race_service_mesh_c.RbTree.Delete.{has_red}
use mw_race_service_mesh_c.RbTree.Delete.Sentinel.{Below, node-Below}

-- A red root that becomes black makes up for it, or there is a black root; the number bounds the rounds
-- that are left.
pub data Light (fs : Context) (n : ℕ) : ℕ → Tree → Type 0 where
  darkens :
      {cl cr : Color} {l r : Tree} {a : ℕ} {k : ℤ}
      → Balanced cl n l
      → Balanced cr n r
      → Light fs n 0 (node red l a k r)
  lacks : {s : Tree} → Balanced black n s → Light fs n (length fs) s

pub record Lighter (t : RbTree) (fs : Context) (s : Tree) (n m : ℕ) : Type 0 where
  pub below : Below t fs s
  pub hole : Hole black (suc n) fs
  pub light : Light fs n m s

-- A round leaves such a subtree of the same tree, with fewer rounds to go.
pub data Lightens (whole : Tree) (m : ℕ) : RbTree × ℕ → Type 0 where
  lightens :
      (t : RbTree) (fs : Context) (s : Tree) (n rounds : ℕ)
      → Lighter t fs s n rounds
      → Same (plug fs s) whole
      → rounds < m
      → Lightens whole m (t, address s)

pub Lightens-weaken :
    (whole : Tree) (m m' : ℕ) (p : RbTree × ℕ) → m ≤ m' → Lightens whole m p → Lightens whole m' p
Lightens-weaken whole m m' _ le (lightens t fs s n rounds st same fewer) =
    lightens t fs s n rounds st same (omega arith)

-- What is around the parent, and the number of rounds that are left when the parent is looked at.
pub data Parent (rest : Context) (n : ℕ) : Color → ℕ → Type 0 where
  black_parent : Hole black (suc (suc n)) rest → Parent rest n black (length rest)
  red_parent : Hole red (suc n) rest → Parent rest n red 0

pub Same-sym : (s t : Tree) → Same s t → Same t s
Same-sym s t p = record { same_keys = sym p.same_keys; same_nodes = λ x. sym (p.same_nodes x) }

-- A rotation and new colors keep the keys and the nodes.
pub Same-rotated :
    (a b e : Tree) (n y : ℕ) (kn ky : ℤ) (c d c' d' : Color)
    → Same (node c (node d a n kn b) y ky e) (node c' a n kn (node d' b y ky e))
Same-rotated a b e n y kn ky c d c' d' = record {
  same_keys = append_assoc (keys a) (kn ∷ keys b) (ky ∷ keys e);
  same_nodes = λ x. omega arith;
}

pub Same-rotated_back :
    (a b e : Tree) (n y : ℕ) (kn ky : ℤ) (c d c' d' : Color)
    → Same (node c e y ky (node d b n kn a)) (node c' (node d' e y ky b) n kn a)
Same-rotated_back a b e n y kn ky c d c' d' = Same-sym _ _ (Same-rotated e b a y n ky kn c' d' c d)

-- The root is a node when there is one below it.
pub plug-Below :
    (t : RbTree) (fs : Context) (c : Color) (l : Tree) (a : ℕ) (k : ℤ) (r : Tree)
    → At t fs (node c l a k r)
    → Below t [] (plug fs (node c l a k r))
plug-Below t [] c l a k r at = node-Below at
plug-Below t (from_left c' a' k' o ∷ fs) c l a k r at =
    plug-Below t fs c' (node c l a k r) a' k' o (At-up_left t fs c' a' k' (node c l a k r) o at)
plug-Below t (from_right c' a' k' o ∷ fs) c l a k r at =
    plug-Below t fs c' o a' k' (node c l a k r) (At-up_right t fs c' a' k' o (node c l a k r) at)

-- A tree in balance needs no more rounds.
pub settled-Lightens :
    (t : RbTree) (fs : Context) (c : Color) (l : Tree) (a : ℕ) (k : ℤ) (r : Tree) (d : Color)
    (n m : ℕ) (whole : Tree)
    → At t fs (node c l a k r)
    → Hole d n fs
    → Balanced d n (node c l a k r)
    → Same (plug fs (node c l a k r)) whole
    → Lightens whole (suc m) (t, t.root)
settled-Lightens t fs c l a k r d n m whole at hole balanced same =
    let s = plug fs (node c l a k r) in
    let below = plug-Below t fs c l a k r at in
    let b = plug-IsBalanced hole balanced in
    subst (λ (i : ℕ). Lightens whole (suc m) (t, i)) (sym below.at.around)
      (lightens t [] s b.height 0
        (record { below = below; hole = at_root; light = lacks b.balanced }) same (omega arith))

pub top_color-Balanced : {c : Color} {n : ℕ} {s : Tree} → Balanced c n s → top_color s ≡ c
top_color-Balanced bottom = refl
top_color-Balanced (red_node bl br) = refl
top_color-Balanced (black_node bl br) = refl

-- What is read of the colors of the brother's children.
pub has_red-Holds :
    (t : RbTree) (p : ℕ) (s : Tree) (c : Color) (n : ℕ)
    → Holds t.nodes p s
    → (t.nodes nil).color ≡ black
    → Balanced c n s
    → has_red t (address s) ≡ is_red c
has_red-Holds t p s c n held dark balanced =
    ap is_red (color-address t p s held dark ∙ top_color-Balanced balanced)

-- A subtree is not the brother, a node `w` that occurs elsewhere.
pub address-apart :
    (t : RbTree) (fs : Context) (s : Tree) (w : ℕ)
    → At t fs s
    → w ≢ nil
    → 0 < occurs_around w fs
    → (address s == w) ≡ false
address-apart t fs s w at some_w there = ≢→not_== (address s) w (λ e. absurd (
    omega (
      arith,
      at.distinct w,
      there,
      address-occurs t.nodes _ s at.subtree (λ e'. some_w (sym e ∙ e')),
      ap (λ x. occurs x s) e,
    )))
