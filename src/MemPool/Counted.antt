-- ===== src/MemPool/Counted.antt =====
-- The pool's account of its free memory, and what the operations of mmpool.c keep of it.
pub mod Releases
pub mod Gets
use mw_race_service_mesh_c.Base.{
  ℕ, zero, suc, ◌+◌, ◌-◌, ◌*◌, ◌/◌, ◌%◌, ◌^◌, ◌≤◌, ◌<◌, bit_and, bit_or, min, ◌≡◌, ◌≢◌, refl, sym,
  ap, ap₂, ◌∙◌, subst, ◌↔◌, ◌⊎◌, inl, inr, Bool, true, false, not, ◌&&◌, ◌||◌, Option, none, some,
  some-injective, none-ne-some, List, [], ◌∷◌, ◌++◌, append_assoc, append-nil, arith, ltb, leb,
  ◌==◌, if◌then◌else◌, ltb→lt, not_ltb→le, lt→ltb, le→not_ltb, leb→le, not_leb→lt, ==_iff, ==_refl,
  not_==→≢, not_zero, both, not_both, true≢false, Bool-cases, Option-cases, length, get_elem?,
  get_or, set, take, drop, replicate, write_at, All, All-append, length-append, length-set, set-set,
  get_or-set_self, get_or-set_ne, length-take, length-drop, length-replicate,
}
use native.Mathlib.Nat.{mod-eq_of_lt, mul-suc, add-mod_right}
use mw_race_service_mesh_c.MemPool.Types.{
  align, MmNode, MmPool, add32, sub32, free_list, remove_first, list_insert, max_index,
}
use mw_race_service_mesh_c.MemPool.Get.{getmem, get_from, allocate, reuse, hand_out, index_of}
use mw_race_service_mesh_c.MemPool.Release.{linked, put_back}

abbrev pub sum : List ℕ → ℕ
sum [] = 0
sum (x ∷ xs) = x + sum xs

pub get_or-le-sum : (xs : List ℕ) (i : ℕ) → get_or xs i 0 ≤ sum xs
get_or-le-sum [] i = omega arith
get_or-le-sum (x ∷ xs) zero = omega arith
get_or-le-sum (x ∷ xs) (suc i) = omega (arith, get_or-le-sum xs i)

pub sum-set :
    (xs : List ℕ) (i v : ℕ) → i < length xs → sum (set xs i v) + get_or xs i 0 ≡ sum xs + v
sum-set [] i v h = absurd (omega arith)
sum-set (x ∷ xs) zero v h = omega arith
sum-set (x ∷ xs) (suc i) v h = omega (arith, sum-set xs i v (omega arith))

-- Each index has as much free memory as its nodes make up, the total is their sum, and it is within the
-- pool's bound.
pub record IsCounted (p : MmPool) : Type 0 where
  pub slots : length p.free ≡ 11
  pub sizes : length p.free_size ≡ 11
  pub counted : (i : ℕ) → i < 11 → get_or p.free_size i 0 ≡ i * length (free_list p i)
  pub total : p.current_free_index ≡ sum p.free_size
  pub within : p.current_free_index ≤ p.max_free_index
  pub no_wrap : p.max_free_index + 10 < 2 ^ 32

abbrev pub with_list : MmPool → ℕ → List ℕ → ℕ → ℕ → MmPool
with_list p index l size current = record p {
  free = set p.free index l;
  free_size = set p.free_size index size;
  current_free_index = current;
}

-- A change of one list and of the two counts.
pub with_list-IsCounted :
    (p : MmPool) (index : ℕ) (l : List ℕ) (size current : ℕ)
    → IsCounted p
    → index < 11
    → size ≡ index * length l
    → current + get_or p.free_size index 0 ≡ p.current_free_index + size
    → current ≤ p.max_free_index
    → IsCounted (with_list p index l size current)
with_list-IsCounted p index l size current c lt es ec within = record {
  slots = length-set p.free index l ∙ c.slots;
  sizes = length-set p.free_size index size ∙ c.sizes;
  counted = λ i h. elim (Bool-cases (index == i)) [
    | inl e ↦
        subst
          (λ k.
            get_or (set p.free_size index size) k 0 ≡ k * length (get_or (set p.free index l) k []))
          ((==_iff index i).0 e)
          (get_or-set_self p.free_size index size 0 (omega (arith, c.sizes))
            ∙ es
            ∙ ap (λ m. index * length m)
                (sym (get_or-set_self p.free index l [] (omega (arith, c.slots)))))
    | inr e ↦
        let ne = not_==→≢ index i e in
        get_or-set_ne p.free_size size 0 ne
        ∙ c.counted i h
        ∙ ap (λ m. i * length m) (sym (get_or-set_ne p.free l [] ne))
  ];
  total = omega (arith, c.total, sum-set p.free_size index size (omega (arith, c.sizes)));
  within = within;
  no_wrap = c.no_wrap;
}

pub sub32-le : (a b : ℕ) → b ≤ a → a < 2 ^ 32 → sub32 a b ≡ a - b
unfolding sub32
sub32-le a b h lt =
    ap (λ x. x % 2 ^ 32) (omega arith) ∙ add-mod_right (a - b) (2 ^ 32) ∙ mod-eq_of_lt (omega arith)

pub add32-lt : (a b : ℕ) → a + b < 2 ^ 32 → add32 a b ≡ a + b
unfolding add32
add32-lt a b h = mod-eq_of_lt h

-- The memory at an index whose list has a first node.
pub first_size :
    (p : MmPool) (index addr : ℕ) (rest : List ℕ)
    → IsCounted p
    → index < 11
    → free_list p index ≡ addr ∷ rest
    → get_or p.free_size index 0 ≡ index * length rest + index
first_size p index addr rest c lt e =
    c.counted index lt ∙ ap (λ l. index * length l) e ∙ mul-suc index (length rest)

first-le :
    (p : MmPool) (index addr : ℕ) (rest : List ℕ)
    → IsCounted p
    → index < 11
    → free_list p index ≡ addr ∷ rest
    → (index ≤ get_or p.free_size index 0)
      × (get_or p.free_size index 0 ≤ p.current_free_index)
      × (p.current_free_index < 2 ^ 32)
first-le p index addr rest c lt e = (
  omega (arith, first_size p index addr rest c lt e),
  omega (arith, c.total, get_or-le-sum p.free_size index),
  omega (arith, c.within, c.no_wrap),
)

-- The first node of a list leaves it.
pub remove_first-with_list :
    (p : MmPool) (index addr : ℕ) (rest : List ℕ)
    → IsCounted p
    → index < 11
    → free_list p index ≡ addr ∷ rest
    → remove_first p index (addr ∷ rest)
      ≡ with_list p index rest (get_or p.free_size index 0 - index) (p.current_free_index - index)
unfolding remove_first
remove_first-with_list p index addr [] c lt e =
    let size = first_size p index addr [] c lt e in
    let (fits, part, small) = first-le p index addr [] c lt e in
    ap₂
      (λ s k. record p {
        free = set p.free index [];
        free_size = set p.free_size index s;
        current_free_index = k;
      })
      {x = 0} (omega (arith, size)) (sub32-le p.current_free_index index (omega arith) small)
remove_first-with_list p index addr (n ∷ rest) c lt e =
    let (fits, part, small) = first-le p index addr (n ∷ rest) c lt e in
    ap₂
      (λ s k. record p {
        free = set p.free index (n ∷ rest);
        free_size = set p.free_size index s;
        current_free_index = k;
      })
      (sub32-le (get_or p.free_size index 0) index fits (omega arith))
      (sub32-le p.current_free_index index (omega arith) small)

pub remove_first-IsCounted :
    (p : MmPool) (index addr : ℕ) (rest : List ℕ)
    → IsCounted p
    → index < 11
    → free_list p index ≡ addr ∷ rest
    → IsCounted (remove_first p index (addr ∷ rest))
remove_first-IsCounted p index addr rest c lt e =
    let size = first_size p index addr rest c lt e in
    let (fits, part, small) = first-le p index addr rest c lt e in
    subst IsCounted (sym (remove_first-with_list p index addr rest c lt e)) (
      with_list-IsCounted p index rest (get_or p.free_size index 0 - index)
        (p.current_free_index - index) c lt (omega arith) (omega arith) (omega (arith, c.within)))

-- Fields that the account does not read.
pub touched-IsCounted :
    (p : MmPool) (get_cnt : ℕ) (latest : List ℕ) (heap : List MmNode)
    → IsCounted p
    → IsCounted (record p { get_cnt = get_cnt; latest_get_cnt = latest; heap = heap })
touched-IsCounted p get_cnt latest heap c = record {
  slots = c.slots;
  sizes = c.sizes;
  counted = c.counted;
  total = c.total;
  within = c.within;
  no_wrap = c.no_wrap;
}

length-linked : (l : List ℕ) (addr : ℕ) → length (linked l addr) ≡ suc (length l)
unfolding list_insert
length-linked [] addr = refl
length-linked (h ∷ rest) addr = refl

pub put_back-IsCounted :
    (p : MmPool) (index addr : ℕ)
    → IsCounted p
    → index < 11
    → add32 p.current_free_index index ≤ p.max_free_index
    → IsCounted (put_back p index addr)
unfolding put_back
put_back-IsCounted p index addr c lt room =
    let fits = get_or-le-sum p.free_size index in
    let sum_fits : p.current_free_index + index < 2 ^ 32 = omega (arith, c.within, c.no_wrap) in
    let total = add32-lt p.current_free_index index sum_fits in
    let part : add32 (get_or p.free_size index 0) index ≡ get_or p.free_size index 0 + index =
      add32-lt _ index (omega (arith, c.total)) in
    let size : add32 (get_or p.free_size index 0) index
        ≡ index * length (linked (free_list p index) addr) =
      omega (
        arith,
        c.counted index lt,
        mul-suc index (length (free_list p index)),
        ap (λ n. index * n) (length-linked (free_list p index) addr),
      ) in
    with_list-IsCounted p index (linked (free_list p index) addr)
      (add32 (get_or p.free_size index 0) index) (add32 p.current_free_index index) c lt size
      (omega arith) room
