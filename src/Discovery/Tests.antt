-- ===== src/Discovery/Tests.antt =====
-- Concrete runs of service discovery.
use mw_race_service_mesh_c.Base.{
  ℕ, ◌*◌, ◌/◌, ◌<◌, ◌≡◌, refl, true, none, some, List, [], ◌∷◌, arith, ltb, ltb→lt, lt→ltb,
  le→not_ltb,
}
use mw_race_service_mesh_c.Base.Int.{pos, pos_part}
use mw_race_service_mesh_c.Base.CString.{atoi, signed_value, digits_value}
use mw_race_service_mesh_c.Discovery.Types.{SdEndpoint, SdHandle}
use mw_race_service_mesh_c.Discovery.Endpoints.{
  insert_endpoint, IsSorted, Placed, insert_endpoint-IsSorted,
}
use mw_race_service_mesh_c.Discovery.Address.{parse_ip_and_port}
use mw_race_service_mesh_c.Discovery.Address.Parsed.{parse_ip_and_port-key}
use mw_race_service_mesh_c.Discovery.Balance.{FloatOps, take_optimal}
use mw_race_service_mesh_c.Discovery.Balance.Least.{Taken, take_optimal-Taken}
use mw_race_service_mesh_c.Discovery.Table.{hash_code, new_node, get_service_node}
use mw_race_service_mesh_c.Discovery.Find.{
  Discovery, Work, Reply, string, no_json, nodes, add_nodes, add_node, link_endpoint, service_find,
  read_reply, get_optimal_endpoint,
}
use mw_race_service_mesh_c.Discovery.Find.Sound.{IsSound, SoundResult, read_reply-IsSound}
use mw_race_service_mesh_c.Discovery.Find.Found.{
  service_find-same_bucket, get_optimal_endpoint-after_failure,
}

abbrev weight : ℕ → ℕ → SdEndpoint
weight channel load = record { agent_channel = channel; load_level = pos load; remain = pos 0 }

insert_endpoint-IsSorted_example :
    Placed
      (record (weight 2 4) { remain = pos 4 })
      (weight 0 6 ∷ weight 1 2 ∷ [])
      (insert_endpoint (weight 2 4) (weight 0 6 ∷ weight 1 2 ∷ []))
    × IsSorted (insert_endpoint (weight 2 4) (weight 0 6 ∷ weight 1 2 ∷ []))
insert_endpoint-IsSorted_example =
    insert_endpoint-IsSorted (weight 2 4) (weight 0 6 ∷ weight 1 2 ∷ [])
      ((omega arith, tt), (tt, tt))

-- "/s/1.2:80"
eighty : digits_value 0 (56 ∷ 48 ∷ []) < 2147483648
unfolding digits_value
eighty = omega arith

parse_ip_and_port-key_example :
    parse_ip_and_port (47 ∷ 115 ∷ 47 ∷ 49 ∷ 46 ∷ 50 ∷ 58 ∷ 56 ∷ 48 ∷ [])
    ≡ some (record {
      ip = some (49 ∷ 46 ∷ 50 ∷ []);
      port = some (pos (digits_value 0 (56 ∷ 48 ∷ [])));
    })
parse_ip_and_port-key_example =
    parse_ip_and_port-key 47 (115 ∷ []) (49 ∷ 46 ∷ 50 ∷ []) 56 (48 ∷ [])
      ((refl, (refl, refl)), ((refl, (refl, refl)), ((refl, (refl, refl)), tt))) (omega arith)
      (refl, (refl, tt)) (eighty)

-- Quotients in thousandths.
abbrev thousandths : FloatOps
thousandths = record {
  Float = ℕ;
  of_int = pos_part;
  div = λ a b. a * 1000 / b;
  lt = ltb;
  lt_irrefl = λ a. le→not_ltb a a (omega arith);
  lt_trans = λ a b c h k. lt→ltb a c (omega (arith, ltb→lt a b h, ltb→lt b c k));
}

abbrev three_endpoints : List SdEndpoint
three_endpoints = weight 0 6 ∷ weight 1 2 ∷ weight 2 1 ∷ []

take_optimal-Taken_example :
    Taken thousandths
      (12 ∷ 2 ∷ 250 ∷ [])
      three_endpoints
      (take_optimal thousandths (12 ∷ 2 ∷ 250 ∷ []) three_endpoints)
take_optimal-Taken_example = take_optimal-Taken thousandths (12 ∷ 2 ∷ 250 ∷ []) three_endpoints

abbrev small_table : SdHandle
small_table = record { service_tb = [] ∷ [] ∷ []; service_tb_size = 2 }

abbrev linked : SdEndpoint
linked = record { agent_channel = 0; load_level = pos 3; remain = pos 3 }

-- The key "/a/1.2:80" with the value "3".
abbrev one_node : Reply
one_node = nodes (
    record {
      key = string (47 ∷ 97 ∷ 47 ∷ 49 ∷ 46 ∷ 50 ∷ 58 ∷ 56 ∷ 48 ∷ []);
      value = string (51 ∷ []);
    }
    ∷ [])

abbrev found_work : Work
found_work = (
  record (new_node (97 ∷ [])) {
    comsuming_list = linked ∷ [];
    load_balance_list = linked ∷ linked ∷ linked ∷ [];
  },
  0 ∷ [],
)

abbrev new_work : Work
new_work = (new_node (97 ∷ []), [])

-- "a" and "c" share a bucket of two, "b" has the other.
service_find-same_bucket_example :
    (d : Discovery) × (service_find (small_table, []) (97 ∷ []) one_node (true ∷ [])
      ≡ some (pos 1, d))
    × (get_service_node d.0 (99 ∷ []) ≡ some found_work.0)
unfolding get_service_node hash_code add_nodes add_node parse_ip_and_port atoi signed_value
    digits_value link_endpoint insert_endpoint
service_find-same_bucket_example =
    service_find-same_bucket small_table [] (97 ∷ []) (99 ∷ []) one_node (true ∷ []) (pos 1)
      found_work (omega arith, omega arith) refl refl refl

get_optimal_endpoint-after_failure_example :
    (d : Discovery) × (get_optimal_endpoint thousandths (small_table, []) (97 ∷ []) no_json []
      ≡ some (none, d))
    × (get_optimal_endpoint thousandths d (97 ∷ []) no_json [] ≡ none)
unfolding get_service_node hash_code
get_optimal_endpoint-after_failure_example =
    get_optimal_endpoint-after_failure thousandths small_table [] (97 ∷ []) no_json [] []
      (omega arith, omega arith) refl

new_work-IsSound : IsSound new_work
new_work-IsSound = record { sorted = tt; on_channels = tt; list_fits = omega arith }

read_reply-IsSound_example : SoundResult (read_reply one_node (true ∷ []) new_work)
read_reply-IsSound_example = read_reply-IsSound one_node (true ∷ []) new_work new_work-IsSound
