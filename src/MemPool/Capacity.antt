-- ===== src/MemPool/Capacity.antt =====
-- The memory behind what mmpl_getmem hands out.
use mw_race_service_mesh_c.Base.{
  ℕ, ◌+◌, ◌-◌, ◌*◌, ◌/◌, ◌^◌, ◌≤◌, ◌<◌, ◌≡◌, refl, sym, ap, subst, ◌⊎◌, inl, inr, Bool, true, false,
  Option, none, some, List, [], ◌∷◌, ◌++◌, arith, ltb, ◌==◌, Bool-cases, length, get_or, All,
  length-append, get_or-set_self,
}
use native.Mathlib.Nat.{div-add-mod'}
use mw_race_service_mesh_c.Base.Segments.{get_or-append_at}
use mw_race_service_mesh_c.MemPool.Types.{
  MmNode, MmPool, no_node, node_at, free_list, align, remove_first, max_index,
}
use mw_race_service_mesh_c.MemPool.Get.{index_of, hand_out, allocate, reuse, get_from, getmem}
use mw_race_service_mesh_c.MemPool.Align.{align-least}

-- A node of a free list is in the heap and has the memory of its index.
abbrev pub HasRoom : MmPool → ℕ → ℕ → Type 0
HasRoom p index addr = (addr < length p.heap) × (index * p.boundary ≤ (node_at p addr).capacity)

-- The node that a request got is in use and has room for it.
pub record Serves (size : ℕ) (p : MmPool) (addr : ℕ) : Type 0 where
  pub room : size ≤ (node_at p addr).capacity
  pub used : (node_at p addr).use_flg ≡ 1

-- What mmpl_getmem comes to.
pub data Gotten (size : ℕ) : Option ℕ × MmPool → Type 0 where
  refused : (p : MmPool) → Gotten size (none, p)
  served : (addr : ℕ) (p : MmPool) → Serves size p addr → Gotten size (some addr, p)

hand_out-Serves :
    (size : ℕ) (p : MmPool) (index addr : ℕ)
    → addr < length p.heap
    → size ≤ (node_at p addr).capacity
    → Serves size (hand_out p index addr) addr
unfolding hand_out
hand_out-Serves size p index addr inside room =
    let here =
      get_or-set_self p.heap addr (record (node_at p addr) { use_flg = 1 }) no_node inside in
    record {
      room = subst (λ n. size ≤ n.capacity) (sym here) room;
      used = ap (λ n. n.use_flg) here;
    }

allocate-Gotten :
    (size : ℕ) (ok : Bool) (p : MmPool) (index align_size : ℕ)
    → size ≤ align_size
    → Gotten size (allocate ok p index align_size)
unfolding allocate
allocate-Gotten size false p index align_size fits = refused p
allocate-Gotten size true p index align_size fits =
    let node : MmNode = record {
      use_flg = 0;
      index = index;
      capacity = align_size;
      allocated = true;
    } in
    let p1 = record p { heap = p.heap ++ (node ∷ []) } in
    let here : node_at p1 (length p.heap) ≡ node = get_or-append_at p.heap node [] no_node in
    served (length p.heap) (hand_out p1 index (length p.heap)) (
      hand_out-Serves size p1 index (length p.heap)
        (omega (arith, length-append p.heap (node ∷ [])))
        (subst (λ n. size ≤ n.capacity) (sym here) fits))

remove_first-heap :
    (p : MmPool) (index addr : ℕ) (rest : List ℕ)
    → (remove_first p index (addr ∷ rest)).heap ≡ p.heap
unfolding remove_first
remove_first-heap p index addr [] = refl
remove_first-heap p index addr (n ∷ rest) = refl

reuse-Gotten :
    (size : ℕ) (p : MmPool) (index addr : ℕ) (rest : List ℕ)
    → addr < length p.heap
    → size ≤ (node_at p addr).capacity
    → Gotten size (reuse p index addr rest)
unfolding reuse
reuse-Gotten size p index addr rest inside room =
    let same = remove_first-heap p index addr rest in
    let p1 = remove_first p index (addr ∷ rest) in
    served addr (hand_out p1 index addr) (
      hand_out-Serves size p1 index addr (subst (λ h. addr < length h) (sym same) inside)
        (subst (λ h. size ≤ (get_or h addr no_node).capacity) (sym same) room))

get_from-Gotten :
    (size : ℕ) (ok : Bool) (p : MmPool) (index align_size : ℕ) (l : List ℕ)
    → size ≤ align_size
    → ((index == 0) ≡ true) ⊎ (size ≤ index * p.boundary)
    → All (HasRoom p index) l
    → Gotten size (get_from ok p index align_size l)
get_from-Gotten size ok p index align_size [] fits large room =
    allocate-Gotten size ok p index align_size fits
get_from-Gotten size ok p index align_size (addr ∷ rest) fits (inl z) room =
    rw z (allocate-Gotten size ok p index align_size fits)
get_from-Gotten size ok p index align_size (addr ∷ rest) fits (inr enough) ((inside, room), _) =
    elim (Bool-cases (index == 0)) [
      | inl z ↦ rw z (allocate-Gotten size ok p index align_size fits)
      | inr nz ↦ rw nz (reuse-Gotten size p index addr rest inside (omega arith))
    ]

-- An index other than 0 is the aligned size over the boundary.
index_of-room :
    (size k : ℕ)
    → k ≤ 32
    → size + (2 ^ k - 1) < 2 ^ 32
    → ((index_of size (2 ^ k) == 0) ≡ true) ⊎ (size ≤ index_of size (2 ^ k) * 2 ^ k)
unfolding index_of
index_of-room size k small no_wrap =
    let (multiple, fits, _) = align-least k size small no_wrap in
    elim (Bool-cases (ltb max_index (align size (2 ^ k) / 2 ^ k))) [
      | inl large ↦ inl (rw large refl)
      | inr in_range ↦
          inr
            (rw in_range (omega (arith, div-add-mod' (align size (2 ^ k)) (2 ^ k), multiple, fits)))
    ]

-- On a pool whose boundary is a power of two and whose free nodes have the memory of their
-- indices, and for a size that does not wrap around with the boundary, mmpl_getmem gives NULL, or a
-- node in use that has room for the size.
pub getmem-Gotten :
    (ok : Bool) (p : MmPool) (k size : ℕ)
    → p.boundary ≡ 2 ^ k
    → k ≤ 32
    → size + (2 ^ k - 1) < 2 ^ 32
    → All (HasRoom p (index_of size p.boundary)) (free_list p (index_of size p.boundary))
    → Gotten size (getmem ok p size)
unfolding getmem
getmem-Gotten ok p k size power small no_wrap room =
    let (multiple, fits, below) = align-least k size small no_wrap in
    get_from-Gotten size ok p (index_of size p.boundary) (align size p.boundary)
      (free_list p (index_of size p.boundary)) (subst (λ b. size ≤ align size b) (sym power) fits)
      (subst (λ b. ((index_of size b == 0) ≡ true) ⊎ (size ≤ index_of size b * b)) (sym power)
        (index_of-room size k small no_wrap))
      room
