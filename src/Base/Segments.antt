-- ===== src/Base/Segments.antt =====
-- Parts of a list: what a sender has sent of it and what is left.
use Prim.Native.Nat.{ℕ, zero, suc, ◌+◌, ◌≤◌, ◌<◌}
use mathlib.Core.Path.{◌≡◌, refl, ap}
use mathlib.Core.List.{List, [], ◌∷◌, ◌++◌, append_assoc}
use native.Mathlib.Omega.{arith}
use mw_race_service_mesh_c.Base.Lists.{
  length, get_or, set, take, drop, write_at, length-append, length-take, length-drop,
}

module _ {ℓ} {A : Type ℓ} where
  -- The `n` entries from `i` on, and those behind them, make up those from `i` on.
  pub take-append-drop_at :
      (i n m : ℕ) (xs : List A) → m ≡ i + n → take n (drop i xs) ++ drop m xs ≡ drop i xs
  take-append-drop_at zero zero zero xs e = refl
  take-append-drop_at zero zero (suc m) xs e = absurd (omega arith)
  take-append-drop_at zero (suc n) zero xs e = absurd (omega arith)
  take-append-drop_at zero (suc n) (suc m) [] e = refl
  take-append-drop_at zero (suc n) (suc m) (x ∷ xs) e =
      ap (◌∷◌ x) (take-append-drop_at zero n m xs (omega arith))
  take-append-drop_at (suc i) n zero xs e = absurd (omega arith)
  take-append-drop_at (suc i) zero (suc m) [] e = refl
  take-append-drop_at (suc i) (suc n) (suc m) [] e = refl
  take-append-drop_at (suc i) n (suc m) (x ∷ xs) e = take-append-drop_at i n m xs (omega arith)

  pub take-drop_append :
      (i n : ℕ) (xs ys : List A)
      → i + n ≤ length xs
      → take n (drop i (xs ++ ys)) ≡ take n (drop i xs)
  take-drop_append zero zero xs ys h = refl
  take-drop_append zero (suc n) [] ys h = absurd (omega arith)
  take-drop_append zero (suc n) (x ∷ xs) ys h =
      ap (◌∷◌ x) (take-drop_append zero n xs ys (omega arith))
  take-drop_append (suc i) n [] ys h = absurd (omega arith)
  take-drop_append (suc i) n (x ∷ xs) ys h = take-drop_append i n xs ys (omega arith)

  pub drop-append_past :
      (i j : ℕ) (xs ys : List A) → i ≡ length xs + j → drop i (xs ++ ys) ≡ drop j ys
  drop-append_past i j [] ys e = ap (λ k. drop k ys) (omega arith)
  drop-append_past zero j (x ∷ xs) ys e = absurd (omega arith)
  drop-append_past (suc i) j (x ∷ xs) ys e = drop-append_past i j xs ys (omega arith)

  pub take-drop-take :
      (i n s : ℕ) (xs : List A) → i + n ≤ s → take n (drop i (take s xs)) ≡ take n (drop i xs)
  take-drop-take zero zero s xs h = refl
  take-drop-take zero (suc n) zero xs h = absurd (omega arith)
  take-drop-take zero (suc n) (suc s) [] h = refl
  take-drop-take zero (suc n) (suc s) (x ∷ xs) h =
      ap (◌∷◌ x) (take-drop-take zero n s xs (omega arith))
  take-drop-take (suc i) n zero xs h = absurd (omega arith)
  take-drop-take (suc i) n (suc s) [] h = refl
  take-drop-take (suc i) n (suc s) (x ∷ xs) h = take-drop-take i n s xs (omega arith)

  pub drop_all : (n : ℕ) (xs : List A) → length xs ≤ n → drop n xs ≡ []
  drop_all zero [] h = refl
  drop_all zero (x ∷ xs) h = absurd (omega arith)
  drop_all (suc n) [] h = refl
  drop_all (suc n) (x ∷ xs) h = drop_all n xs (omega arith)

  pub take_all : (n : ℕ) (xs : List A) → length xs ≤ n → take n xs ≡ xs
  take_all zero [] h = refl
  take_all zero (x ∷ xs) h = absurd (omega arith)
  take_all (suc n) [] h = refl
  take_all (suc n) (x ∷ xs) h = ap (◌∷◌ x) (take_all n xs (omega arith))

  pub take-append_exact : (m : ℕ) (xs ys : List A) → m ≡ length xs → take m (xs ++ ys) ≡ xs
  take-append_exact zero [] ys e = refl
  take-append_exact (suc m) [] ys e = absurd (omega arith)
  take-append_exact zero (x ∷ xs) ys e = absurd (omega arith)
  take-append_exact (suc m) (x ∷ xs) ys e = ap (◌∷◌ x) (take-append_exact m xs ys (omega arith))

  -- A memcpy extends the part of the array before it.
  pub take-write_at :
      (i m : ℕ) (buf bs : List A)
      → m ≡ i + length bs
      → i ≤ length buf
      → take m (write_at buf i bs) ≡ take i buf ++ bs
  take-write_at i m buf bs e h = rw (← append_assoc (take i buf) bs (drop (i + length bs) buf)) (
      take-append_exact m (take i buf ++ bs) _
        (omega (arith, length-append (take i buf) bs, length-take i buf)))

  pub length-write_at :
      (i : ℕ) (buf bs : List A)
      → i + length bs ≤ length buf
      → length (write_at buf i bs) ≡ length buf
  length-write_at i buf bs h = omega (
    arith,
    length-append (take i buf) (bs ++ drop (i + length bs) buf),
    length-append bs (drop (i + length bs) buf),
    length-take i buf,
    length-drop (i + length bs) buf,
  )

  pub drop-cons :
      (i : ℕ) (xs : List A) (d : A) → i < length xs → drop i xs ≡ get_or xs i d ∷ drop (suc i) xs
  drop-cons i [] d h = absurd (omega arith)
  drop-cons zero (x ∷ xs) d h = refl
  drop-cons (suc i) (x ∷ xs) d h = drop-cons i xs d (omega arith)

-- The entry just past a known prefix.
pub get_or-append_at {ℓ} :
    {A : Type ℓ} (p : List A) (x : A) (r : List A) (d : A) → get_or (p ++ (x ∷ r)) (length p) d ≡ x
get_or-append_at [] x r d = refl
get_or-append_at (y ∷ p) x r d = get_or-append_at p x r d

pub set-append_at {ℓ} :
    {A : Type ℓ} (p : List A) (x : A) (r : List A) (v : A)
    → set (p ++ (x ∷ r)) (length p) v ≡ p ++ (v ∷ r)
set-append_at [] x r v = refl
set-append_at (y ∷ p) x r v = ap (◌∷◌ y) (set-append_at p x r v)

pub drop-append_at {ℓ} :
    {A : Type ℓ} (p : List A) (x : A) (r : List A) → drop (suc (length p)) (p ++ (x ∷ r)) ≡ r
drop-append_at [] x r = refl
drop-append_at (y ∷ p) x r = drop-append_at p x r

-- Two stretches of an array, one behind the other.
pub take-append-take_at {ℓ} :
    {A : Type ℓ} (i n m j s : ℕ) (xs : List A)
    → j ≡ i + n
    → s ≡ n + m
    → take n (drop i xs) ++ take m (drop j xs) ≡ take s (drop i xs)
take-append-take_at zero zero m zero s xs e f = ap (λ k. take k xs) (omega arith)
take-append-take_at zero zero m (suc j) s xs e f = absurd (omega arith)
take-append-take_at zero (suc n) m zero s xs e f = absurd (omega arith)
take-append-take_at zero (suc n) m (suc j) zero xs e f = absurd (omega arith)
take-append-take_at zero (suc n) zero (suc j) (suc s) [] e f = refl
take-append-take_at zero (suc n) (suc m) (suc j) (suc s) [] e f = refl
take-append-take_at zero (suc n) m (suc j) (suc s) (x ∷ xs) e f =
    ap (◌∷◌ x) (take-append-take_at zero n m j s xs (omega arith) (omega arith))
take-append-take_at (suc i) n m zero s xs e f = absurd (omega arith)
take-append-take_at {A = A} (suc i) n m (suc j) s [] e f = empty n m s
  where
    empty : (n m s : ℕ) → take n [] ++ take m [] ≡ take {A = A} s []
    empty zero zero zero = refl
    empty zero zero (suc s) = refl
    empty zero (suc m) zero = refl
    empty zero (suc m) (suc s) = refl
    empty (suc n) zero zero = refl
    empty (suc n) zero (suc s) = refl
    empty (suc n) (suc m) zero = refl
    empty (suc n) (suc m) (suc s) = refl
take-append-take_at (suc i) n m (suc j) s (x ∷ xs) e f =
    take-append-take_at i n m j s xs (omega arith) (omega arith)
