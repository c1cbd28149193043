-- ===== src/MemPool/Get.antt =====
-- mmpl_getmem: a node of the size's list, or a new one.
use mw_race_service_mesh_c.Base.{
  ℕ, ◌+◌, ◌/◌, ◌%◌, ◌^◌, Bool, true, false, Option, none, some, List, [], ◌∷◌, ◌++◌, ltb, ◌==◌,
  if◌then◌else◌, length, set,
}
use mw_race_service_mesh_c.MemPool.Types.{
  MmNode, MmPool, max_index, align, set_node, node_at, free_list, remove_first,
}

unfoldable pub index_of : ℕ → ℕ → ℕ
unfolding align
index_of size boundary =
    let index = align size boundary / boundary in if ltb max_index index then 0 else index

-- The statements after the branches.
unfoldable pub hand_out : MmPool → ℕ → ℕ → MmPool
hand_out p index addr =
    let p1 = set_node p addr (record (node_at p addr) { use_flg = 1 }) in
    let get_cnt = (p1.get_cnt + 1) % 2 ^ 64 in
    record p1 { get_cnt = get_cnt; latest_get_cnt = set p1.latest_get_cnt index get_cnt }

-- `ok` is the outcome of malloc.
unfoldable pub allocate : Bool → MmPool → ℕ → ℕ → Option ℕ × MmPool
unfolding hand_out
allocate false p index align_size = (none, p)
allocate true p index align_size =
    let addr = length p.heap in
    let node : MmNode = record {
      use_flg = 0;
      index = index;
      capacity = align_size;
      allocated = true;
    } in
    (some addr, hand_out (record p { heap = p.heap ++ (node ∷ []) }) index addr)

unfoldable pub reuse : MmPool → ℕ → ℕ → List ℕ → Option ℕ × MmPool
unfolding remove_first hand_out
reuse p index addr rest = (some addr, hand_out (remove_first p index (addr ∷ rest)) index addr)

abbrev pub get_from : Bool → MmPool → ℕ → ℕ → List ℕ → Option ℕ × MmPool
get_from ok p index align_size [] = allocate ok p index align_size
get_from ok p index align_size (addr ∷ rest) =
    if index == 0 then allocate ok p index align_size else reuse p index addr rest

unfoldable pub getmem : Bool → MmPool → ℕ → Option ℕ × MmPool
unfolding align index_of allocate reuse
getmem ok p size =
    let index = index_of size p.boundary in
    get_from ok p index (align size p.boundary) (free_list p index)
