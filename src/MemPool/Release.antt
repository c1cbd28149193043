-- ===== src/MemPool/Release.antt =====
-- mmpl_rlsmem and mmpl_rls_oldestfree: nodes go back to the pool or to the system.
use mw_race_service_mesh_c.Base.{
  ℕ, zero, suc, ◌+◌, ◌-◌, ◌/◌, Option, none, some, List, [], ◌∷◌, ltb, ◌==◌, if◌then◌else◌, get_or,
  set,
}
use mw_race_service_mesh_c.Base.Int.{ℤ, pos, negsuc}
use mw_race_service_mesh_c.MemPool.Types.{
  MmPool, max_index, oldest_range, add32, set_node, free_node, node_at, free_list, list_insert,
  remove_first,
}

-- The inner loop of the sort: the position of the least count from `j` on.
unfoldable pub least_from : ℕ → ℕ → MmPool → List ℕ → ℕ → ℕ → ℕ
least_from zero j p order min_getcnt min_k = min_k
least_from (suc n) j p order min_getcnt min_k =
    let cnt = get_or p.latest_get_cnt (get_or order j 0) 0 in
    let (min_getcnt1, min_k1) = if ltb cnt min_getcnt then (cnt, j) else (min_getcnt, min_k) in
    least_from n (suc j) p order min_getcnt1 min_k1

abbrev swap : List ℕ → ℕ → ℕ → List ℕ
swap order i k = set (set order i (get_or order k 0)) k (get_or order i 0)

-- The outer loop, over `n` positions from `i` on.
unfoldable pub sort_from : ℕ → ℕ → MmPool → List ℕ → List ℕ
unfolding least_from
sort_from zero i p order = order
sort_from (suc n) i p order =
    let first = get_or p.latest_get_cnt (get_or order i 0) 0 in
    let min_k = least_from n (suc i) p order first i in sort_from n (suc i) p (swap order i min_k)

abbrev first_order : List ℕ
first_order = 1 ∷ 2 ∷ 3 ∷ 4 ∷ 5 ∷ 6 ∷ 7 ∷ 8 ∷ 9 ∷ 10 ∷ []

-- The inner `while`: the first index from `j` on with free nodes, and the position behind it.
unfoldable pub next_with_free : ℕ → ℕ → MmPool → List ℕ → Option ℕ × ℕ
next_with_free zero j p order = (none, j)
next_with_free (suc n) j p order =
    let index = get_or order j 0 in
    let rest = next_with_free n (suc j) p order in
    if ltb 0 (get_or p.free_size index 0) then (some index, suc j) else rest

-- The rounds of the selection. An entry of `oldest_index_array` that is not assigned is `none`. The
-- outer `none` is the return of -1.
unfoldable pub select_oldest : ℕ → ℕ → Option ℕ → MmPool → List ℕ → List (Option ℕ)
unfolding next_with_free
select_oldest zero j before p order = []
select_oldest (suc n) j before p order =
    let (found, j1) = next_with_free (max_index - j) j p order in
    let entry = if j == max_index then before else found in entry ∷ select_oldest n j1 entry p order

-- The list is not empty, or a NULL node is used.
abbrev pub release_first : ℕ → MmPool → List ℕ → Option MmPool
release_first index p [] = none
release_first index p (addr ∷ rest) = some (free_node (remove_first p index (addr ∷ rest)) addr)

-- `rls_num` rounds at one index.
unfoldable pub release_nodes : ℕ → ℕ → Option MmPool → Option MmPool
unfolding remove_first
release_nodes zero index p = p
release_nodes (suc n) index none = none
release_nodes (suc n) index (some p) =
    release_nodes n index (release_first index p (free_list p index))

-- Half of the nodes at an index, and one more.
unfoldable pub release_half : ℕ → MmPool → Option MmPool
unfolding release_nodes
release_half index p =
    let free_node_num = get_or p.free_size index 0 / index in
    let released = release_nodes (free_node_num / 2 + 1) index (some p) in
    if free_node_num == 0 then some p else released

-- An index that was not assigned is not defined.
unfoldable pub release_all : List (Option ℕ) → Option MmPool → Option MmPool
unfolding release_half
release_all indices none = none
release_all [] (some p) = some p
release_all (none ∷ indices) (some p) = none
release_all (some index ∷ indices) (some p) = release_all indices (release_half index p)

abbrev release_selected : MmPool → List (Option ℕ) → Option (ℤ × MmPool)
release_selected p (some index ∷ indices) = with_code (release_all (some index ∷ indices) (some p))
  where
    with_code : Option MmPool → Option (ℤ × MmPool)
    with_code none = none
    with_code (some p1) = some (pos 1, p1)
release_selected p _ = some (negsuc 0, p)

-- mmpl_rls_oldestfree
unfoldable pub rls_oldestfree : MmPool → Option (ℤ × MmPool)
unfolding sort_from select_oldest release_all
rls_oldestfree p =
    release_selected p (select_oldest oldest_range 0 none p (sort_from max_index 0 p first_order))

abbrev after_oldest : Option (ℤ × MmPool) → Option (ℤ × MmPool)
after_oldest none = none
after_oldest (some (pos n, p)) = some (pos 1, p)
after_oldest (some (negsuc n, p)) = some (negsuc 1, p)

-- The node becomes the second of its list, or the only one.
abbrev pub linked : List ℕ → ℕ → List ℕ
linked [] addr = addr ∷ []
linked (h ∷ rest) addr = list_insert (h ∷ rest) addr

unfoldable pub put_back : MmPool → ℕ → ℕ → MmPool
unfolding add32 list_insert
put_back p index addr = record p {
  free = set p.free index (linked (free_list p index) addr);
  free_size = set p.free_size index (add32 (get_or p.free_size index 0) index);
  current_free_index = add32 p.current_free_index index;
}

unfoldable pub rlsmem : MmPool → ℕ → Option (ℤ × MmPool)
unfolding add32 rls_oldestfree put_back
rlsmem p addr =
    let n = node_at p addr in
    let p1 = set_node p addr (record n { use_flg = 0 }) in
    let to_system = free_node p1 addr in
    let oldest = after_oldest (rls_oldestfree to_system) in
    if n.use_flg == 0
    then some (negsuc 0, p)
    else (if n.index == 0
        then some (pos 1, to_system)
        else (if ltb p.max_free_index (add32 p.current_free_index n.index)
            then oldest
            else some (pos 1, put_back p1 n.index addr)))
