-- ===== src/MemPool/Tests.antt =====
-- Concrete runs of the memory pool.
use mw_race_service_mesh_c.Base.{
  ℕ, zero, suc, ◌+◌, ◌*◌, ◌%◌, ◌^◌, ◌≤◌, ◌<◌, ◌≡◌, refl, true, some, [], ◌∷◌, arith, length, get_or,
  replicate, All,
}
use mw_race_service_mesh_c.Base.Int.{pos}
use mw_race_service_mesh_c.MemPool.Types.{add32, MmNode, MmPool, align, add32}
use mw_race_service_mesh_c.MemPool.Get.{index_of, getmem}
use mw_race_service_mesh_c.MemPool.Release.{release_all, rlsmem}
use mw_race_service_mesh_c.MemPool.Align.{align-least}
use mw_race_service_mesh_c.MemPool.Destroy.{IsFreed, destroy, destroy-IsFreed}
use mw_race_service_mesh_c.MemPool.Capacity.{Gotten, getmem-Gotten}
use mw_race_service_mesh_c.MemPool.Counted.{IsCounted}
use mw_race_service_mesh_c.MemPool.Counted.Gets.{getmem-IsCounted}
use mw_race_service_mesh_c.MemPool.Counted.Releases.{
  PutBack, assigned, release_all-IsCounted, rlsmem-IsCounted,
}

align-least_example :
    (align 5000 (2 ^ 11) % 2 ^ 11 ≡ 0)
    × (5000 ≤ align 5000 (2 ^ 11))
    × (align 5000 (2 ^ 11) < 5000 + 2 ^ 11)
align-least_example = align-least 11 5000 (omega arith) (omega arith)

abbrev free_node_of : ℕ → MmNode
free_node_of index = record {
  use_flg = 0;
  index = index;
  capacity = 1024 * index;
  allocated = true;
}

-- A node of two units and two of one unit are free, and one of two units is in use.
abbrev pool : MmPool
pool = record {
  max_free_index = 6;
  boundary = 1024;
  current_free_index = 4;
  get_cnt = 4;
  latest_get_cnt = 0 ∷ 2 ∷ 4 ∷ replicate 8 0;
  free = [] ∷ (0 ∷ 1 ∷ []) ∷ (2 ∷ []) ∷ replicate 8 [];
  free_size = 0 ∷ 2 ∷ 2 ∷ replicate 8 0;
  heap =
      free_node_of 1
      ∷ free_node_of 1
      ∷ free_node_of 2
      ∷ record (free_node_of 2) { use_flg = 1 }
      ∷ [];
}

pool-IsCounted : IsCounted pool
pool-IsCounted = record {
  slots = refl;
  sizes = refl;
  counted = by_index;
  total = refl;
  within = omega arith;
  no_wrap = omega arith;
}
  where
    by_index : (i : ℕ) → i < 11 → get_or pool.free_size i 0 ≡ i * length (get_or pool.free i [])
    by_index zero h = refl
    by_index (suc zero) h = refl
    by_index (suc (suc zero)) h = refl
    by_index (suc (suc (suc zero))) h = refl
    by_index (suc (suc (suc (suc zero)))) h = refl
    by_index (suc (suc (suc (suc (suc zero))))) h = refl
    by_index (suc (suc (suc (suc (suc (suc zero)))))) h = refl
    by_index (suc (suc (suc (suc (suc (suc (suc zero))))))) h = refl
    by_index (suc (suc (suc (suc (suc (suc (suc (suc zero)))))))) h = refl
    by_index (suc (suc (suc (suc (suc (suc (suc (suc (suc zero))))))))) h = refl
    by_index (suc (suc (suc (suc (suc (suc (suc (suc (suc (suc zero)))))))))) h = refl
    by_index (suc (suc (suc (suc (suc (suc (suc (suc (suc (suc (suc i))))))))))) h =
        absurd (omega arith)

getmem-IsCounted_example : IsCounted (getmem true pool 1000).1
getmem-IsCounted_example = getmem-IsCounted true pool 1000 pool-IsCounted

release_all-IsCounted_example :
    (p' : MmPool) × (release_all (assigned (2 ∷ 1 ∷ 1 ∷ [])) (some pool) ≡ some p') × IsCounted p'
release_all-IsCounted_example =
    release_all-IsCounted pool (2 ∷ 1 ∷ 1 ∷ []) pool-IsCounted
      ((omega arith, omega arith), ((omega arith, omega arith), ((omega arith, omega arith), tt)))

rlsmem-IsCounted_example : (p' : MmPool) × (rlsmem pool 3 ≡ some (pos 1, p')) × PutBack pool 3 p'
rlsmem-IsCounted_example =
    rlsmem-IsCounted pool 3 pool-IsCounted (omega arith) (omega arith, omega arith) (omega arith)

getmem-Gotten_example : Gotten 1500 (getmem true pool 1500)
unfolding index_of align add32
getmem-Gotten_example =
    getmem-Gotten true pool 10 1500 refl (omega arith) (omega arith)
      ((omega arith, omega arith), tt)

destroy-IsFreed_example :
    (q : MmPool) × (destroy (some pool) ≡ (pos 1, some q))
    × All (All (IsFreed q)) ((0 ∷ 1 ∷ []) ∷ (2 ∷ []) ∷ replicate 8 [])
destroy-IsFreed_example = destroy-IsFreed pool (
  (omega arith, (omega arith, tt)),
  ((omega arith, tt), (tt, (tt, (tt, (tt, (tt, (tt, (tt, (tt, tt))))))))),
)
