-- ===== src/MemPool/Types.antt =====
-- The structures and macros of src/main/c/inc/com/mmpool.h. A node is named by its number in the heap
-- of all that were allocated. A circular list `free[index]` is the sequence of its nodes from the
-- one that `free[index]` points to, and NULL is the empty sequence.
use mw_race_service_mesh_c.Base.{
  ℕ, ◌+◌, ◌-◌, ◌%◌, ◌^◌, bit_and, Bool, false, Option, none, some, List, [], ◌∷◌, get_or, set,
  replicate,
}

pub record MmNode : Type 0 where
  pub use_flg : ℕ
  pub index : ℕ
  pub capacity : ℕ
  pub allocated : Bool

pub record MmPool : Type 0 where
  pub max_free_index : ℕ
  pub boundary : ℕ
  pub current_free_index : ℕ
  pub get_cnt : ℕ
  pub latest_get_cnt : List ℕ
  pub free : List (List ℕ)
  pub free_size : List ℕ
  pub heap : List MmNode

-- `struct mmpl_opt`
pub record MmplOpt : Type 0 where
  pub boundary : ℕ
  pub max_free_index : ℕ

-- MMPL_MAX_INDEX
abbrev pub max_index : ℕ
max_index = 10

-- MMPL_OLDEST_RANGE
abbrev pub oldest_range : ℕ
oldest_range = 3

-- Sums and differences of `unsigned int`.
unfoldable pub add32 : ℕ → ℕ → ℕ
add32 a b = (a + b) % 2 ^ 32

unfoldable pub sub32 : ℕ → ℕ → ℕ
sub32 a b = (a + 2 ^ 32 - b) % 2 ^ 32

-- MMPL_ALIGN
unfoldable pub align : ℕ → ℕ → ℕ
unfolding add32
align size boundary = bit_and (add32 size (boundary - 1)) (2 ^ 32 - 1 - (boundary - 1))

abbrev pub no_node : MmNode
no_node = record { use_flg = 0; index = 0; capacity = 0; allocated = false }

abbrev pub node_at : MmPool → ℕ → MmNode
node_at p addr = get_or p.heap addr no_node

abbrev pub set_node : MmPool → ℕ → MmNode → MmPool
set_node p addr n = record p { heap = set p.heap addr n }

-- free() of a node.
abbrev pub free_node : MmPool → ℕ → MmPool
free_node p addr = set_node p addr (record (node_at p addr) { allocated = false })

abbrev pub free_list : MmPool → ℕ → List ℕ
free_list p index = get_or p.free index []

abbrev default_opt : MmplOpt
default_opt = record { boundary = 2 ^ 11; max_free_index = 200 }

abbrev pub empty_pool : MmplOpt → MmPool
empty_pool opt = record {
  max_free_index = opt.max_free_index;
  boundary = opt.boundary;
  current_free_index = 0;
  get_cnt = 0;
  latest_get_cnt = replicate 11 0;
  free = replicate 11 [];
  free_size = replicate 11 0;
  heap = [];
}

-- mmpl_create, whose malloc is not checked and succeeds here.
unfoldable pub create : Option MmplOpt → MmPool
create none = empty_pool default_opt
create (some opt) = empty_pool opt

-- mmpl_list_insert behind the first node of a circular list.
unfoldable pub list_insert : List ℕ → ℕ → List ℕ
list_insert [] n = []
list_insert (h ∷ rest) n = h ∷ (n ∷ rest)

-- A list whose first node leaves it, with the index's share of the free memory. It is
-- not empty, and one of a single node becomes NULL.
unfoldable pub remove_first : MmPool → ℕ → List ℕ → MmPool
unfolding sub32
remove_first p index [] = p
remove_first p index (_ ∷ []) = record p {
  free = set p.free index [];
  free_size = set p.free_size index 0;
  current_free_index = sub32 p.current_free_index index;
}
remove_first p index (_ ∷ (n ∷ rest)) = record p {
  free = set p.free index (n ∷ rest);
  free_size = set p.free_size index (sub32 (get_or p.free_size index 0) index);
  current_free_index = sub32 p.current_free_index index;
}
