-- ===== src/Discovery/Find.antt =====
-- sd_service_find: the endpoints of a service come from etcd. Then the whole of
-- sd_get_optimal_endpoint.
pub mod Found
pub mod Sound
use mw_race_service_mesh_c.Base.{
  ℕ, zero, suc, ◌+◌, ◌-◌, ◌*◌, ◌/◌, ◌%◌, ◌^◌, ◌≤◌, ◌<◌, min, ◌≡◌, ◌≢◌, refl, sym, ap, ap₂, ◌∙◌,
  subst, ◌↔◌, ◌⊎◌, inl, inr, Bool, true, false, not, ◌&&◌, ◌||◌, Option, none, some, some-injective,
  none-ne-some, List, [], ◌∷◌, ◌++◌, append_assoc, append-nil, arith, ltb, leb, ◌==◌, if◌then◌else◌,
  ltb→lt, not_ltb→le, lt→ltb, le→not_ltb, leb→le, not_leb→lt, ==_iff, ==_refl, not_==→≢, not_zero,
  both, not_both, true≢false, Bool-cases, Option-cases, length, get_elem?, get_or, set, take, drop,
  replicate, write_at, All, All-append, length-append, length-set, get_or-set_self, get_or-set_ne,
  length-take, length-drop, length-replicate,
}
use mw_race_service_mesh_c.Base.Int.{ℤ, pos, negsuc, pos_part, ltb_ℤ}
use mw_race_service_mesh_c.Base.CString.{atoi, is_int}
use mw_race_service_mesh_c.Discovery.Types.{SdEndpoint, SdServiceNode, SdHandle}
use mw_race_service_mesh_c.Discovery.Endpoints.{insert_endpoint}
use mw_race_service_mesh_c.Discovery.Address.{Address, parse_ip_and_port}
use mw_race_service_mesh_c.Discovery.Balance.{FloatOps, take_optimal}
use mw_race_service_mesh_c.Discovery.Table.{
  entry_index, bucket, set_bucket, new_node, add_and_init_service, get_service_node,
}

-- An item of a JSON object: NULL, a null, a value that is no string, or a string.
pub data Item : Type 0 where
  missing : Item
  null : Item
  no_string : Item
  string : List ℕ → Item

pub record Node : Type 0 where
  pub key : Item
  pub value : Item

-- What etcd_get and the two look-ups in its result come to.
pub data Reply : Type 0 where
  no_json : Reply
  no_node : Reply
  no_nodes : Reply
  nodes : List Node → Reply

-- SERVICE_DISCOVERY_MAX_LOAD_BALANCE_LIST_LEN
abbrev pub max_load_balance_list_len : ℕ
max_load_balance_list_len = 10000

-- A service node with the requests in flight on each channel.
abbrev pub Work : Type 0
Work = SdServiceNode × List ℕ

-- One round of the loop comes to the end of the function, or to the next round.
pub data Round : Type 0 where
  returns : ℤ → Work → Round
  goes_on : Work → Round

-- An endpoint is linked in, and fills as many entries of the array as its load level; `none` is a
-- write past the array.
unfoldable pub link_endpoint : SdServiceNode → SdEndpoint → Option SdServiceNode
unfolding insert_endpoint
link_endpoint p e =
    let lb_list = p.load_balance_list ++ replicate (pos_part e.load_level) e in
    if ltb max_load_balance_list_len (length lb_list)
    then none
    else some (record p {
      comsuming_list = insert_endpoint e p.comsuming_list;
      load_balance_list = lb_list;
    })

abbrev pub continue_with : List ℕ → Option SdServiceNode → Option Round
continue_with requests none = none
continue_with requests (some p) = some (goes_on (p, requests))

-- acm_connect fails, or gives a new channel without requests. `atoi` is not defined on a number that is
-- no `int`.
unfoldable pub connect_endpoint : Work → Bool → Item → Option Round
unfolding atoi link_endpoint
connect_endpoint (p, requests) false value = some (goes_on (p, requests))
connect_endpoint (p, requests) true (string s) =
    let level = atoi s in
    let linked = continue_with (requests ++ (0 ∷ [])) (
      link_endpoint p
        (record { agent_channel = length requests; load_level = level; remain = level })) in
    if is_int level then linked else none
connect_endpoint (p, requests) true _ = none

-- The address must be there: what is in `ip` and `port` before is not initialised.
unfoldable pub use_address : Option Address → Bool
use_address none = false
use_address (some a) = complete a.ip a.port
  where
    complete : Option (List ℕ) → Option ℤ → Bool
    complete (some ip) (some port) = true
    complete _ _ = false

unfoldable pub add_node : Work → Node → Bool → Option Round
unfolding connect_endpoint use_address
add_node w n connected = by_items n.key n.value
  where
    by_items : Item → Item → Option Round
    by_items missing _ = none
    by_items null missing = none
    by_items null _ = some (returns (negsuc 4) w)
    by_items no_string missing = none
    by_items no_string null = some (returns (negsuc 4) w)
    by_items no_string _ = none
    by_items (string s) missing = none
    by_items (string s) null = some (returns (negsuc 4) w)
    by_items (string s) value =
        if use_address (parse_ip_and_port s) then connect_endpoint w connected value else none

-- cJSON_ArrayForEach, from what the round before came to. An outcome of acm_connect that is missing
-- is a failure.
unfoldable pub add_nodes : Option Round → List Node → List Bool → Option (ℤ × Work)
unfolding add_node
add_nodes none ns connected = none
add_nodes (some (returns code w)) ns connected = some (code, w)
add_nodes (some (goes_on w)) [] connected = some (pos 1, w)
add_nodes (some (goes_on w)) (n ∷ ns) [] = add_nodes (add_node w n false) ns []
add_nodes (some (goes_on w)) (n ∷ ns) (c ∷ connected) = add_nodes (add_node w n c) ns connected

-- A handle with the requests in flight on each channel.
abbrev pub Discovery : Type 0
Discovery = SdHandle × List ℕ

-- The node goes back to its place in the table.
abbrev pub store_node : SdHandle → ℕ → ℕ → Option (ℤ × Work) → Option (ℤ × Discovery)
store_node h i k none = none
store_node h i k (some (code, (p, requests))) =
    some (code, (set_bucket h i (set (bucket h i) k p), requests))

abbrev pub read_reply : Reply → List Bool → Work → Option (ℤ × Work)
read_reply no_json connected w = some (negsuc 0, w)
read_reply no_node connected w = some (negsuc 1, w)
read_reply no_nodes connected w = some (negsuc 2, w)
read_reply (nodes ns) connected w = add_nodes (some (goes_on w)) ns connected

abbrev pub find_in : Reply → List Bool → List ℕ → ℕ → Option (ℕ × SdHandle) → Option (ℤ × Discovery)
find_in reply connected requests i none = none
find_in reply connected requests i (some (k, h)) =
    store_node h i k (read_reply reply connected (get_or (bucket h i) k (new_node []), requests))

unfoldable pub service_find : Discovery → List ℕ → Reply → List Bool → Option (ℤ × Discovery)
unfolding add_and_init_service
service_find (h, requests) service_name reply connected =
    find_in reply connected requests (entry_index h service_name)
      (add_and_init_service h service_name)

module _ (F : FloatOps) where
  abbrev pub taken_from : SdHandle → Option (ℕ × List ℕ) → Option (Option ℕ × Discovery)
  taken_from h none = none
  taken_from h (some (channel, requests)) = some (some channel, (h, requests))

  abbrev pub optimal_of : Discovery → Option SdServiceNode → Option (Option ℕ × Discovery)
  optimal_of (h, requests) none = none
  optimal_of (h, requests) (some p) = taken_from h (take_optimal F requests p.comsuming_list)

  abbrev pub after_find : List ℕ → Option (ℤ × Discovery) → Option (Option ℕ × Discovery)
  after_find service_name none = none
  after_find service_name (some (code, d)) =
      let found = optimal_of d (get_service_node d.0 service_name) in
      if ltb_ℤ code (pos 0) then some (none, d) else found

  abbrev pub optimal_or_find :
      Discovery → List ℕ → Reply → List Bool → Option SdServiceNode → Option (Option ℕ × Discovery)
  optimal_or_find d service_name reply connected none =
      after_find service_name (service_find d service_name reply connected)
  optimal_or_find d service_name reply connected (some p) = optimal_of d (some p)

  -- The channel, or NULL. The reply of etcd and the outcomes of acm_connect are used when the
  -- service is not in the table.
  unfoldable pub get_optimal_endpoint :
      Discovery → List ℕ → Reply → List Bool → Option (Option ℕ × Discovery)
  unfolding get_service_node
  get_optimal_endpoint d service_name reply connected =
      optimal_or_find d service_name reply connected (get_service_node d.0 service_name)
