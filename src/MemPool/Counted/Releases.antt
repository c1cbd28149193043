-- ===== src/MemPool/Counted/Releases.antt =====
-- The account of free memory when nodes go back to the system.
use mw_race_service_mesh_c.Base.{
  ℕ, zero, suc, ◌+◌, ◌/◌, ◌≤◌, ◌<◌, ◌≡◌, ◌≢◌, refl, sym, ap, ◌∙◌, subst, inl, inr, false, Option,
  some, List, [], ◌∷◌, ◌++◌, min, set, get_or-set_ne, arith, ltb, ◌==◌, le→not_ltb, not_zero,
  pos→not_zero, Bool-cases, length, get_or, All, get_or-set_self,
}
use native.Mathlib.Nat.{mul-div_cancel_left}
use mw_race_service_mesh_c.Base.Int.{pos}
use mw_race_service_mesh_c.MemPool.Types.{
  MmNode, no_node, list_insert, MmPool, add32, free_list, node_at, set_node, free_node,
  remove_first,
}
use mw_race_service_mesh_c.MemPool.Release.{
  linked, release_first, release_nodes, release_half, release_all, put_back, rlsmem,
}
use mw_race_service_mesh_c.MemPool.Counted.{
  add32-lt, IsCounted, touched-IsCounted, remove_first-IsCounted, remove_first-with_list,
  put_back-IsCounted,
}

free_node-IsCounted : (p : MmPool) (addr : ℕ) → IsCounted p → IsCounted (free_node p addr)
free_node-IsCounted p addr c =
    touched-IsCounted p p.get_cnt p.latest_get_cnt (free_node p addr).heap c

-- A pool whose list at an index has lost a node.
record Lost (p : MmPool) (index : ℕ) (rest : List ℕ) (p' : MmPool) : Type 0 where
  counted : IsCounted p'
  list : free_list p' index ≡ rest

release_first-Lost :
    (p : MmPool) (index addr : ℕ) (rest : List ℕ)
    → IsCounted p
    → index < 11
    → free_list p index ≡ addr ∷ rest
    → Lost p index rest (free_node (remove_first p index (addr ∷ rest)) addr)
release_first-Lost p index addr rest c lt e = record {
  counted =
      free_node-IsCounted (remove_first p index (addr ∷ rest)) addr
        (remove_first-IsCounted p index addr rest c lt e);
  list =
      ap (λ q. free_list q index) (remove_first-with_list p index addr rest c lt e)
      ∙ get_or-set_self p.free index rest [] (omega (arith, c.slots));
}

abbrev Counted : Option MmPool → Type 0
Counted o = (p : MmPool) × (o ≡ some p) × IsCounted p

-- As many rounds as there are nodes, or fewer, do not come to a NULL node.
release_nodes-Counted :
    (n : ℕ) (p : MmPool) (index : ℕ) (l : List ℕ)
    → IsCounted p
    → index < 11
    → free_list p index ≡ l
    → n ≤ length l
    → Counted (release_nodes n index (some p))
unfolding release_nodes
release_nodes-Counted zero p index l c lt e h = (p, refl, c)
release_nodes-Counted (suc n) p index [] c lt e h = absurd (omega arith)
release_nodes-Counted (suc n) p index (addr ∷ rest) c lt e h =
    let lost = release_first-Lost p index addr rest c lt e in
    subst (λ l. Counted (release_nodes n index (release_first index p l))) (sym e)
      (release_nodes-Counted n (free_node (remove_first p index (addr ∷ rest)) addr) index rest
        lost.counted lt lost.list (omega arith))

node_num :
    (p : MmPool) (index : ℕ)
    → IsCounted p
    → 0 < index
    → index < 11
    → get_or p.free_size index 0 / index ≡ length (free_list p index)
node_num p index c above lt =
    ap (λ n. n / index) (c.counted index lt)
    ∙ mul-div_cancel_left (length (free_list p index)) above

release_half-Counted :
    (p : MmPool) (index : ℕ) → IsCounted p → 0 < index → index < 11 → Counted (release_half index p)
unfolding release_half
release_half-Counted p index c above lt =
    let num = node_num p index c above lt in
    elim (Bool-cases (get_or p.free_size index 0 / index == 0)) [
      | inl z ↦ rw z (p, refl, c)
      | inr nz ↦ rw nz (
          release_nodes-Counted (get_or p.free_size index 0 / index / 2 + 1) p index
            (free_list p index) c lt refl (omega (arith, num, not_zero _ nz)))
    ]

abbrev pub IsIndex : ℕ → Type 0
IsIndex i = (0 < i) × (i < 11)

abbrev pub assigned : List ℕ → List (Option ℕ)
assigned [] = []
assigned (i ∷ is) = some i ∷ assigned is

-- The release of nodes at indices that were all assigned finds a node in every round, and leaves the
-- pool's account right.
pub release_all-IsCounted :
    (p : MmPool) (indices : List ℕ)
    → IsCounted p
    → All IsIndex indices
    → (p' : MmPool) × (release_all (assigned indices) (some p) ≡ some p') × IsCounted p'
unfolding release_all
release_all-IsCounted p [] c all = (p, refl, c)
release_all-IsCounted p (i ∷ is) c ((above, lt), all) =
    let (p1, done, c1) = release_half-Counted p i c above lt in
    subst (λ o. Counted (release_all (assigned is) o)) (sym done)
      (release_all-IsCounted p1 is c1 all)

abbrev unused : MmPool → ℕ → MmPool
unused p addr = set_node p addr (record (node_at p addr) { use_flg = 0 })

rlsmem-put_back :
    (p : MmPool) (addr : ℕ)
    → (node_at p addr).use_flg == 0 ≡ false
    → (node_at p addr).index == 0 ≡ false
    → ltb p.max_free_index (add32 p.current_free_index (node_at p addr).index) ≡ false
    → rlsmem p addr ≡ some (pos 1, put_back (unused p addr) (node_at p addr).index addr)
unfolding rlsmem
rlsmem-put_back p addr used small room = rw used (rw small (rw room refl))

-- A pool into which a node went back: it is in the list of its index behind the first node that was
-- there, all other lists are as they were, it is not in use, and the account is right.
pub record PutBack (p : MmPool) (addr : ℕ) (p' : MmPool) : Type 0 where
  pub counted : IsCounted p'
  pub total : p'.current_free_index ≡ p.current_free_index + (node_at p addr).index
  pub front : List ℕ
  pub back : List ℕ
  pub at_second : length front ≡ min 1 (length (free_list p (node_at p addr).index))
  pub before : front ++ back ≡ free_list p (node_at p addr).index
  pub after : free_list p' (node_at p addr).index ≡ front ++ (addr ∷ back)
  pub others : (i : ℕ) → i ≢ (node_at p addr).index → free_list p' i ≡ free_list p i
  pub is_unused : (node_at p' addr).use_flg ≡ 0

-- The first node of a list stays the first.
abbrev front_of : List ℕ → List ℕ
front_of [] = []
front_of (h ∷ rest) = h ∷ []

abbrev back_of : List ℕ → List ℕ
back_of [] = []
back_of (h ∷ rest) = rest

front-back : (l : List ℕ) → front_of l ++ back_of l ≡ l
front-back [] = refl
front-back (h ∷ rest) = refl

front-length : (l : List ℕ) → length (front_of l) ≡ min 1 (length l)
front-length [] = refl
front-length (h ∷ rest) = omega arith

linked-between : (l : List ℕ) (addr : ℕ) → linked l addr ≡ front_of l ++ (addr ∷ back_of l)
unfolding list_insert
linked-between [] addr = refl
linked-between (h ∷ rest) addr = refl

-- The flag of a node that is reset, in the heap or outside of it.
reset_use :
    (heap : List MmNode) (addr : ℕ) (n : MmNode)
    → n.use_flg ≡ 0
    → (get_or (set heap addr n) addr no_node).use_flg ≡ 0
reset_use [] addr n e = refl
reset_use (x ∷ heap) zero n e = e
reset_use (x ∷ heap) (suc addr) n e = reset_use heap addr n e

-- When the pool has room, a node that is in use goes back into the list of its index, behind the first
-- node that the list has; the other lists stay, the node is no longer in use, and the account stays
-- right.
pub rlsmem-IsCounted :
    (p : MmPool) (addr : ℕ)
    → IsCounted p
    → 0 < (node_at p addr).use_flg
    → IsIndex (node_at p addr).index
    → p.current_free_index + (node_at p addr).index ≤ p.max_free_index
    → (p' : MmPool) × (rlsmem p addr ≡ some (pos 1, p')) × PutBack p addr p'
unfolding put_back
rlsmem-IsCounted p addr c used (above, lt) room =
    let index = (node_at p addr).index in
    let q = unused p addr in
    let total : add32 p.current_free_index index ≡ p.current_free_index + index =
      add32-lt _ _ (omega (arith, c.no_wrap)) in
    (
      put_back q index addr,
      rlsmem-put_back p addr (pos→not_zero _ used) (pos→not_zero _ above)
          (le→not_ltb _ _ (omega arith)),
      record {
        counted =
            put_back-IsCounted q index addr
              (touched-IsCounted p p.get_cnt p.latest_get_cnt q.heap c) lt (omega arith);
        total = total;
        front = front_of (free_list p index);
        back = back_of (free_list p index);
        at_second = front-length (free_list p index);
        before = front-back (free_list p index);
        after =
            get_or-set_self p.free index (linked (free_list p index) addr) []
              (omega (arith, c.slots, lt))
            ∙ linked-between (free_list p index) addr;
        others =
            λ i ne. get_or-set_ne p.free (linked (free_list p index) addr) [] (λ e. ne (sym e));
        is_unused = reset_use p.heap addr (record (node_at p addr) { use_flg = 0 }) refl;
      },
    )
