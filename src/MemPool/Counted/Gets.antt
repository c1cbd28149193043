-- ===== src/MemPool/Counted/Gets.antt =====
-- The account of free memory when mmpl_getmem hands out a node.
use mw_race_service_mesh_c.Base.{
  ℕ, ◌/◌, ◌<◌, ◌≡◌, refl, inl, inr, Bool, true, false, List, [], ◌∷◌, arith, ltb, ◌==◌, not_ltb→le,
  Bool-cases,
}
use mw_race_service_mesh_c.MemPool.Types.{align, MmPool, free_list, remove_first, max_index}
use mw_race_service_mesh_c.MemPool.Get.{getmem, get_from, allocate, reuse, hand_out, index_of}
use mw_race_service_mesh_c.MemPool.Counted.{IsCounted, touched-IsCounted, remove_first-IsCounted}

hand_out-IsCounted : (p : MmPool) (index addr : ℕ) → IsCounted p → IsCounted (hand_out p index addr)
unfolding hand_out
hand_out-IsCounted p index addr c =
    touched-IsCounted p (hand_out p index addr).get_cnt (hand_out p index addr).latest_get_cnt
      (hand_out p index addr).heap c

allocate-IsCounted :
    (ok : Bool) (p : MmPool) (index align_size : ℕ)
    → IsCounted p
    → IsCounted (allocate ok p index align_size).1
unfolding allocate
allocate-IsCounted false p index align_size c = c
allocate-IsCounted true p index align_size c =
    let p1 = (allocate true p index align_size).1 in
    touched-IsCounted p p1.get_cnt p1.latest_get_cnt p1.heap c

get_from-IsCounted :
    (ok : Bool) (p : MmPool) (index align_size : ℕ) (l : List ℕ)
    → IsCounted p
    → index < 11
    → free_list p index ≡ l
    → IsCounted (get_from ok p index align_size l).1
unfolding reuse
get_from-IsCounted ok p index align_size [] c lt e = allocate-IsCounted ok p index align_size c
get_from-IsCounted ok p index align_size (addr ∷ rest) c lt e = elim (Bool-cases (index == 0)) [
  | inl z ↦ rw z (allocate-IsCounted ok p index align_size c)
  | inr nz ↦ rw nz (
      hand_out-IsCounted (remove_first p index (addr ∷ rest)) index addr
        (remove_first-IsCounted p index addr rest c lt e))
]

index_of-lt : (size boundary : ℕ) → index_of size boundary < 11
unfolding index_of
index_of-lt size boundary = elim (Bool-cases (ltb max_index (align size boundary / boundary))) [
  | inl e ↦ rw e (omega arith)
  | inr e ↦ rw e (omega (arith, not_ltb→le _ _ e))
]

-- mmpl_getmem keeps the pool's account right: the free memory of each index is that of the nodes in its
-- list, the total is their sum, and it stays within the bound.
pub getmem-IsCounted :
    (ok : Bool) (p : MmPool) (size : ℕ) → IsCounted p → IsCounted (getmem ok p size).1
unfolding getmem
getmem-IsCounted ok p size c =
    get_from-IsCounted ok p (index_of size p.boundary) (align size p.boundary)
      (free_list p (index_of size p.boundary)) c (index_of-lt size p.boundary) refl
