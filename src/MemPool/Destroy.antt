-- ===== src/MemPool/Destroy.antt =====
-- mmpl_destroy: the free nodes go back to the system. `use_head` has no nodes, since mmpl_getmem does
-- not link them in: a node in use is not given back.
use mw_race_service_mesh_c.Base.{
  ℕ, ◌<◌, ◌≡◌, refl, ap, ◌∙◌, subst, inl, inr, false, Option, none, some, List, [], ◌∷◌, arith,
  ◌==◌, ==_iff, not_==→≢, Bool-cases, length, drop, All, length-set, get_or-set_self, get_or-set_ne,
}
use mw_race_service_mesh_c.Base.Int.{ℤ, pos, negsuc}
use mw_race_service_mesh_c.MemPool.Types.{MmPool, no_node, node_at, free_node}

-- The nodes of one list: those behind the first, and then the first.
unfoldable free_nodes : MmPool → List ℕ → MmPool
free_nodes p [] = p
free_nodes p (addr ∷ rest) = free_nodes (free_node p addr) rest

abbrev free_circle : MmPool → List ℕ → MmPool
free_circle p [] = p
free_circle p (first ∷ rest) = free_node (free_nodes p rest) first

unfoldable free_lists : MmPool → List (List ℕ) → MmPool
unfolding free_nodes
free_lists p [] = p
free_lists p (l ∷ ls) = free_lists (free_circle p l) ls

-- The heap that is left; NULL is `none`. The lists are those of the indices from 1 on.
unfoldable pub destroy : Option MmPool → ℤ × Option MmPool
unfolding free_lists
destroy none = (negsuc 0, none)
destroy (some p) = (pos 1, some (free_lists p (drop 1 p.free)))

abbrev pub IsFreed : MmPool → ℕ → Type 0
IsFreed p addr = (node_at p addr).allocated ≡ false

-- The calls of free() on a heap keep its length and what was freed before.
record Keeps (p q : MmPool) : Type 0 where
  size : length q.heap ≡ length p.heap
  freed : (addr : ℕ) → IsFreed p addr → IsFreed q addr

Keeps-trans : (p q r : MmPool) → Keeps p q → Keeps q r → Keeps p r
Keeps-trans p q r a b = record {
  size = b.size ∙ a.size;
  freed = λ addr f. b.freed addr (a.freed addr f);
}

free_node-IsFreed : (p : MmPool) (addr : ℕ) → addr < length p.heap → IsFreed (free_node p addr) addr
free_node-IsFreed p addr h =
    ap (λ n. n.allocated)
      (get_or-set_self p.heap addr (record (node_at p addr) { allocated = false }) no_node h)

free_node-Keeps : (p : MmPool) (addr : ℕ) → addr < length p.heap → Keeps p (free_node p addr)
free_node-Keeps p addr h = record {
  size = length-set p.heap addr (record (node_at p addr) { allocated = false });
  freed = λ other f. elim (Bool-cases (addr == other)) [
    | inl e ↦
        subst (IsFreed (free_node p addr)) ((==_iff addr other).0 e) (free_node-IsFreed p addr h)
    | inr e ↦
        ap (λ n. n.allocated)
          (get_or-set_ne p.heap (record (node_at p addr) { allocated = false }) no_node
            (not_==→≢ addr other e))
        ∙ f
  ];
}

abbrev Inside : MmPool → List ℕ → Type 0
Inside p l = All (λ addr. addr < length p.heap) l

All-map : {P Q : ℕ → Type 0} (l : List ℕ) → ((n : ℕ) → P n → Q n) → All P l → All Q l
All-map [] f all = tt
All-map (x ∷ l) f (p, all) = (f x p, All-map l f all)

Inside-Keeps : (p q : MmPool) (l : List ℕ) → Keeps p q → Inside p l → Inside q l
Inside-Keeps p q l k all = All-map l (λ n h. omega (arith, k.size, h)) all

abbrev Frees : MmPool → MmPool → List ℕ → Type 0
Frees p q l = Keeps p q × All (IsFreed q) l

free_nodes-Frees : (p : MmPool) (l : List ℕ) → Inside p l → Frees p (free_nodes p l) l
unfolding free_nodes
free_nodes-Frees p [] all = (record { size = refl; freed = λ addr f. f }, tt)
free_nodes-Frees p (addr ∷ rest) (h, all) =
    let p1 = free_node p addr in
    let k = free_node-Keeps p addr h in
    let (keeps, freed) = free_nodes-Frees p1 rest (Inside-Keeps p p1 rest k all) in
    (
      Keeps-trans p p1 (free_nodes p1 rest) k keeps,
      (keeps.freed addr (free_node-IsFreed p addr h), freed),
    )

free_circle-Frees : (p : MmPool) (l : List ℕ) → Inside p l → Frees p (free_circle p l) l
free_circle-Frees p [] all = (record { size = refl; freed = λ addr f. f }, tt)
free_circle-Frees p (first ∷ rest) (h, all) =
    let q = free_nodes p rest in
    let (keeps, freed) = free_nodes-Frees p rest all in
    let inside : first < length q.heap = omega (arith, keeps.size) in
    let k = free_node-Keeps q first inside in
    (
      Keeps-trans p q (free_node q first) keeps k,
      (free_node-IsFreed q first inside, All-map rest k.freed freed),
    )

free_lists-Frees :
    (p : MmPool) (ls : List (List ℕ))
    → All (Inside p) ls
    → Keeps p (free_lists p ls) × All (All (IsFreed (free_lists p ls))) ls
unfolding free_lists
free_lists-Frees p [] all = (record { size = refl; freed = λ addr f. f }, tt)
free_lists-Frees p (l ∷ ls) (h, all) =
    let q = free_circle p l in
    let (keeps, freed) = free_circle-Frees p l h in
    let (later, rest) = free_lists-Frees q ls (lists_inside p q ls keeps all) in
    (Keeps-trans p q (free_lists q ls) keeps later, (All-map l later.freed freed, rest))
  where
    lists_inside :
        (p q : MmPool) (ls : List (List ℕ)) → Keeps p q → All (Inside p) ls → All (Inside q) ls
    lists_inside p q [] k all = tt
    lists_inside p q (l ∷ ls) k (h, all) = (Inside-Keeps p q l k h, lists_inside p q ls k all)

-- mmpl_destroy on a pool whose free nodes are in the heap answers 1 and gives each of them back, those
-- of all indices from 1 on.
pub destroy-IsFreed :
    (p : MmPool)
    → All (All (λ addr. addr < length p.heap)) (drop 1 p.free)
    → (q : MmPool) × (destroy (some p) ≡ (pos 1, some q)) × All (All (IsFreed q)) (drop 1 p.free)
unfolding destroy
destroy-IsFreed p all =
    (free_lists p (drop 1 p.free), refl, (free_lists-Frees p (drop 1 p.free) all).1)
