-- ===== src/Base/Slots.antt =====
-- A C array used as a queue: counters that only grow, and the slot `counter % period`.
use Prim.Native.Nat.{ℕ, zero, suc, ◌+◌, ◌*◌, ◌/◌, ◌%◌, ◌≤◌, ◌<◌}
use mathlib.Core.Path.{◌≡◌, refl, sym, ap, ap₂}
use mathlib.Core.Logic.{◌≢◌}
use mathlib.Core.List.{List, [], ◌∷◌, ◌++◌}
use native.Mathlib.Nat.{mod-lt, div-add-mod, mul-le-mul_left}
use native.Mathlib.Decide.{dec_lt}
use native.Mathlib.Omega.{arith}
use mw_race_service_mesh_c.Base.Lists.{length, get_or, set, get_or-set_self, get_or-set_ne}

-- Counters less than a period apart have different slots.
pub slot_ne : (L i j : ℕ) → i < j → j < i + L → i % L ≢ j % L
slot_ne L i j h k e = between (i / L) (j / L) (i % L) (div-add-mod i L) (rw e (div-add-mod j L))
  where
    between : (a b r : ℕ) → L * a + r ≡ i → L * b + r ≡ j → ⊥
    between a b r p q = elim (dec_lt a b) [
      | yes lt ↦ omega (arith, mul-le-mul_left L lt, p, q)
      | no ge ↦ omega (arith, mul-le-mul_left {m = b} {n = a} L (omega arith), p, q)
    ]

module _ {ℓ} {A : Type ℓ} (d : A) (L : ℕ) where
  -- The `n` entries from counter `i` on.
  abbrev pub window : List A → ℕ → ℕ → List A
  window q i zero = []
  window q i (suc n) = get_or q (i % L) d ∷ window q (suc i) n

  pub length-window : (q : List A) (i n : ℕ) → length (window q i n) ≡ n
  length-window q i zero = refl
  length-window q i (suc n) = ap suc (length-window q (suc i) n)

  -- A write outside the window leaves it alone.
  pub window-set_ne :
      (q : List A) (j : ℕ) (x : A) (i n : ℕ)
      → ((k : ℕ) → i ≤ k → k < i + n → k % L ≢ j % L)
      → window (set q (j % L) x) i n ≡ window q i n
  window-set_ne q j x i zero out = refl
  window-set_ne q j x i (suc n) out =
      ap₂ ◌∷◌ (get_or-set_ne q x d (λ e. out i (omega arith) (omega arith) (sym e)))
        (window-set_ne q j x (suc i) n (λ k lo hi. out k (omega arith) (omega arith)))

  -- An entry written just past a window of fewer than `L` entries extends it.
  pub window-set_end :
      (q : List A) (x : A) (i n j : ℕ)
      → n < L
      → L ≤ length q
      → j ≡ i + n
      → window (set q (j % L) x) i (suc n) ≡ window q i n ++ (x ∷ [])
  window-set_end q x i zero j h hl e =
      let e' : j ≡ i = omega arith in
      rw e' (ap (λ y. y ∷ []) (get_or-set_self q (i % L) x d (omega (arith, mod-lt i {m = L} h))))
  window-set_end q x i (suc n) j h hl e =
      ap₂ ◌∷◌ (get_or-set_ne q x d (λ e'. slot_ne L i j (omega arith) (omega arith) (sym e')))
        (window-set_end q x (suc i) n j (omega arith) hl (omega arith))

  -- The first entry of a window can be rewritten in place.
  pub window-set_first :
      (q : List A) (x : A) (i n : ℕ)
      → n < L
      → L ≤ length q
      → window (set q (i % L) x) i (suc n) ≡ x ∷ window q (suc i) n
  window-set_first q x i n h hl =
      ap₂ ◌∷◌ (get_or-set_self q (i % L) x d (omega (arith, mod-lt i {m = L} (omega arith)))) (
        window-set_ne q i x (suc i) n
          (λ k lo hi e. slot_ne L i k (omega arith) (omega arith) (sym e)))
