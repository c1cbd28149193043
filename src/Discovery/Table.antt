-- ===== src/Discovery/Table.antt =====
-- The table of services: sd_hash_code, sd_add_and_init_service, sd_get_service_node, sd_rls_endpoints
-- and sd_init. Memory allocation, which the code does not check, succeeds here.
use mw_race_service_mesh_c.Base.{
  ℕ, suc, ◌+◌, ◌*◌, ◌%◌, ◌^◌, Bool, ◌&&◌, Option, none, some, List, [], ◌∷◌, if◌then◌else◌, get_or,
  set, replicate,
}
use mw_race_service_mesh_c.Base.CString.{str_eq}
use mw_race_service_mesh_c.Discovery.Types.{SdServiceNode, SdHandle, SdEndpoint, max_service_num}

abbrev hash_from : ℕ → List ℕ → ℕ
hash_from h [] = h
hash_from h (c ∷ cs) = hash_from ((31 * h + c) % 2 ^ 32) cs

unfoldable pub hash_code : List ℕ → ℕ
hash_code str = hash_from 0 str

abbrev pub entry_index : SdHandle → List ℕ → ℕ
entry_index h service_name = hash_code service_name % h.service_tb_size

abbrev pub bucket : SdHandle → ℕ → List SdServiceNode
bucket h i = get_or h.service_tb i []

abbrev pub set_bucket : SdHandle → ℕ → List SdServiceNode → SdHandle
set_bucket h i nodes = record h { service_tb = set h.service_tb i nodes }

-- The walk along a bucket's nodes, that compares their names.
abbrev pub find_name : List SdServiceNode → List ℕ → Option ℕ
find_name [] service_name = none
find_name (p ∷ next) service_name =
    let rest = find_name next service_name in
    if str_eq p.service_name service_name then some 0 else next_position rest
  where
    next_position : Option ℕ → Option ℕ
    next_position none = none
    next_position (some k) = some (suc k)

-- On a list that is not empty the loop does not stop at the head: it frees the head, which
-- is a part of the node. That is not defined.
unfoldable pub rls_endpoints : SdServiceNode → Option SdServiceNode
rls_endpoints p = if_empty p.comsuming_list p.saturated_list
  where
    if_empty : List SdEndpoint → List SdEndpoint → Option SdServiceNode
    if_empty [] [] = some (record p { endpoints_num = 0 })
    if_empty (_ ∷ _) _ = none
    if_empty [] (_ ∷ _) = none

abbrev pub new_node : List ℕ → SdServiceNode
new_node service_name = record {
  service_name = service_name;
  hash_code = hash_code service_name;
  endpoints_num = 0;
  comsuming_list = [];
  saturated_list = [];
  load_balance_list = [];
}

abbrev no_node : SdServiceNode
no_node = new_node []

abbrev released : SdHandle → ℕ → ℕ → Option SdServiceNode → Option (ℕ × SdHandle)
released h i k none = none
released h i k (some p) = some (k, set_bucket h i (set (bucket h i) k p))

abbrev pub add_at : SdHandle → ℕ → List ℕ → Option ℕ → Option (ℕ × SdHandle)
add_at h i service_name none = some (0, set_bucket h i (new_node service_name ∷ bucket h i))
add_at h i service_name (some k) = released h i k (rls_endpoints (get_or (bucket h i) k no_node))

-- The position of the node in its bucket.
unfoldable pub add_and_init_service : SdHandle → List ℕ → Option (ℕ × SdHandle)
add_and_init_service h service_name =
    let i = entry_index h service_name in
    add_at h i service_name (find_name (bucket h i) service_name)

abbrev pub first_node : List SdServiceNode → Option SdServiceNode
first_node [] = none
first_node (p ∷ _) = some p

-- The first node of the bucket; the comparison of the names is commented out in the source.
unfoldable pub get_service_node : SdHandle → List ℕ → Option SdServiceNode
get_service_node h service_name = first_node (bucket h (entry_index h service_name))

-- The outcomes of malloc and of etcd_init. A NULL url is `none`.
unfoldable pub init : Bool → Bool → Option (List ℕ) → Option SdHandle
init ok_handle ok_etcd none = none
init ok_handle ok_etcd (some etcd_url) =
    if ok_handle && ok_etcd
    then some
        (record { service_tb = replicate max_service_num []; service_tb_size = max_service_num })
    else none
