-- ===== src/Discovery/Types.antt =====
-- The structures of src/main/c/inc/core/service-discovery.h. A circular list with a head is the
-- sequence of its members from `head.next` on; a channel is its number.
use mw_race_service_mesh_c.Base.{ℕ, List}
use mw_race_service_mesh_c.Base.Int.{ℤ}

pub record SdEndpoint : Type 0 where
  pub agent_channel : ℕ
  pub load_level : ℤ
  pub remain : ℤ

pub record SdServiceNode : Type 0 where
  pub service_name : List ℕ
  pub hash_code : ℕ
  pub endpoints_num : ℕ
  pub comsuming_list : List SdEndpoint
  pub saturated_list : List SdEndpoint
  pub load_balance_list : List SdEndpoint

-- A bucket of the table is a linked list of nodes.
pub record SdHandle : Type 0 where
  pub service_tb : List (List SdServiceNode)
  pub service_tb_size : ℕ

-- SERVICE_DISCOVERY_MAX_SERVICE_NUM
abbrev pub max_service_num : ℕ
max_service_num = 1024
