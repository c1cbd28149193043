-- ===== src/RbTree/Order.antt =====
-- The order of the keys of an rb_tree.
use mw_race_service_mesh_c.Base.{
  ◌≡◌, refl, sym, ap, ◌∙◌, ◌⊎◌, inl, inr, List, [], ◌∷◌, ◌++◌, append_assoc, append-nil, arith, All,
  All-append,
}
use mw_race_service_mesh_c.Base.Int.{ℤ, ◌<ℤ◌}
use mw_race_service_mesh_c.RbTree.Shape.{Tree, node, from_left, from_right, Context, plug, keys}

abbrev pub IsSorted : List ℤ → Type 0
IsSorted [] = Unit
IsSorted (x ∷ xs) = All (λ y. x <ℤ y) xs × IsSorted xs

abbrev pub Has : ℤ → List ℤ → Type 0
Has k [] = ⊥
Has k (x ∷ xs) = (k ≡ x) ⊎ Has k xs

-- The keys before a subtree and behind it.
abbrev pub before : Context → List ℤ
before [] = []
before (from_left c a k r ∷ fs) = before fs
before (from_right c a k l ∷ fs) = before fs ++ (keys l ++ (k ∷ []))

abbrev pub behind : Context → List ℤ
behind [] = []
behind (from_left c a k r ∷ fs) = k ∷ (keys r ++ behind fs)
behind (from_right c a k l ∷ fs) = behind fs

pub keys-plug : (fs : Context) (s : Tree) → keys (plug fs s) ≡ before fs ++ (keys s ++ behind fs)
keys-plug [] s = sym (append-nil (keys s))
keys-plug (from_left c a k r ∷ fs) s =
    keys-plug fs (node c s a k r)
    ∙ ap (λ ks. before fs ++ ks) (append_assoc (keys s) (k ∷ keys r) (behind fs))
keys-plug (from_right c a k l ∷ fs) s = keys-plug fs (node c l a k s) ∙ simp append_assoc

pub lt_trans : (a b c : ℤ) → a <ℤ b → b <ℤ c → a <ℤ c
lt_trans a b c h k = omega arith

pub All-weaken : (P Q : ℤ → Type 0) (xs : List ℤ) → ((x : ℤ) → P x → Q x) → All P xs → All Q xs
All-weaken P Q [] f h = tt
All-weaken P Q (x ∷ xs) f h = (f x h.0, All-weaken P Q xs f h.1)

pub All-parts : (P : ℤ → Type 0) (xs ys : List ℤ) → All P (xs ++ ys) → All P xs × All P ys
All-parts P [] ys h = (tt, h)
All-parts P (x ∷ xs) ys h = let (a, b) = All-parts P xs ys h.1 in ((h.0, a), b)

-- Around a key of a sorted list.
pub record Around (xs : List ℤ) (k : ℤ) (ys : List ℤ) : Type 0 where
  pub sorted_before : IsSorted xs
  pub sorted_behind : IsSorted ys
  pub all_less : All (λ x. x <ℤ k) xs
  pub all_more : All (λ x. k <ℤ x) ys

pub IsSorted-Around :
    (xs : List ℤ) (k : ℤ) (ys : List ℤ) → IsSorted (xs ++ (k ∷ ys)) → Around xs k ys
IsSorted-Around [] k ys h = record {
  sorted_before = tt;
  sorted_behind = h.1;
  all_less = tt;
  all_more = h.0;
}
IsSorted-Around (x ∷ xs) k ys (first, h) =
    let rest = IsSorted-Around xs k ys h in
    let (less, more) = All-parts (λ y. x <ℤ y) xs (k ∷ ys) first in
    record {
      sorted_before = (less, rest.sorted_before);
      sorted_behind = rest.sorted_behind;
      all_less = (more.0, rest.all_less);
      all_more = rest.all_more;
    }

-- A key goes between those that are less and those that are more.
pub IsSorted-between :
    (xs : List ℤ) (k : ℤ) (ys : List ℤ)
    → IsSorted (xs ++ ys)
    → All (λ x. x <ℤ k) xs
    → All (λ x. k <ℤ x) ys
    → IsSorted (xs ++ (k ∷ ys))
IsSorted-between [] k ys h less more = (more, h)
IsSorted-between (x ∷ xs) k ys (first, h) (x_less, less) more =
    let (a, b) = All-parts (λ y. x <ℤ y) xs ys first in
    (All-append (λ y. x <ℤ y) xs (k ∷ ys) a (x_less, b), IsSorted-between xs k ys h less more)

pub Has-middle : (xs : List ℤ) (k : ℤ) (ys : List ℤ) → Has k (xs ++ (k ∷ ys))
Has-middle [] k ys = inl refl
Has-middle (x ∷ xs) k ys = inr (Has-middle xs k ys)
