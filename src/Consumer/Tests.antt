-- ===== src/Consumer/Tests.antt =====
-- Concrete runs of the consumer agent.
use mw_race_service_mesh_c.Base.{
  ℕ, ◌*◌, ◌/◌, ◌≡◌, refl, true, false, some, List, [], ◌∷◌, arith, ltb, ltb→lt, lt→ltb, le→not_ltb,
  replicate,
}
use mw_race_service_mesh_c.Base.Int.{pos, pos_part}
use mw_race_service_mesh_c.Acm.Request.{no_entry, no_task}
use mw_race_service_mesh_c.Acm.Connect.{Memory, new_channel}
use mw_race_service_mesh_c.Discovery.Types.{SdEndpoint, SdServiceNode}
use mw_race_service_mesh_c.Discovery.Balance.{FloatOps, take_optimal, compare_all, compare_endpoint}
use mw_race_service_mesh_c.Discovery.Table.{new_node, get_service_node, hash_code}
use mw_race_service_mesh_c.Discovery.Find.{no_json}
use mw_race_service_mesh_c.Http.Types.{HsChannel}
use mw_race_service_mesh_c.Consumer.Handler.{Agent, Outside, content_handler, listen}
use mw_race_service_mesh_c.Consumer.Handler.Listened.{Listened, listen-Listened}
use mw_race_service_mesh_c.Consumer.Handler.Forwarded.{Forwarded, content_handler-Forwarded}
use mw_race_service_mesh_c.Consumer.Form.{get_service_name}
use mw_race_service_mesh_c.Consumer.Form.Decoded.{
  ends, plain, percent, at_end, at_next, hex_digit, get_service_name-decodes,
}

-- "s=a%2Eb&m=1" has the name "a.b".
get_service_name-decodes_example :
    get_service_name
      (115 ∷ 61 ∷ 97 ∷ 37 ∷ hex_digit 2 ∷ hex_digit 14 ∷ 98 ∷ 38 ∷ 109 ∷ 61 ∷ 49 ∷ [])
    ≡ some (97 ∷ 46 ∷ 98 ∷ [])
get_service_name-decodes_example =
    get_service_name-decodes (115 ∷ []) (97 ∷ 46 ∷ 98 ∷ [])
      (97 ∷ 37 ∷ hex_digit 2 ∷ hex_digit 14 ∷ 98 ∷ []) (38 ∷ 109 ∷ 61 ∷ 49 ∷ []) ((refl, refl), tt)
      (plain 97 (refl, refl, refl)
        (percent 2 14 (omega arith) (omega arith) (plain 98 (refl, refl, refl) ends)))
      (at_next (109 ∷ 61 ∷ 49 ∷ []))

-- Quotients in thousandths.
abbrev thousandths : FloatOps
thousandths = record {
  Float = ℕ;
  of_int = pos_part;
  div = λ a b. a * 1000 / b;
  lt = ltb;
  lt_irrefl = λ a. le→not_ltb a a (omega arith);
  lt_trans = λ a b c h k. lt→ltb a c (omega (arith, ltb→lt a b h, ltb→lt b c k));
}

abbrev endpoint : ℕ → ℕ → SdEndpoint
endpoint channel load = record { agent_channel = channel; load_level = pos load; remain = pos load }

abbrev node : SdServiceNode
node = record (new_node (97 ∷ 46 ∷ 98 ∷ [])) { comsuming_list = endpoint 0 3 ∷ endpoint 1 2 ∷ [] }

abbrev memory : Memory
memory = record {
  tasks = replicate 4 no_task;
  msg = record { head = record { req_id = 0; data_size = 0 }; content = [] };
  head = replicate 12 0;
  index = 0;
}

-- Six requests are in flight on the first channel and one on the second.
abbrev agent : Agent
agent = record {
  discovery = (record { service_tb = (node ∷ []) ∷ []; service_tb_size = 1 }, 6 ∷ 1 ∷ []);
  handle = record {
    max_write_queue_len = 4;
    max_hold_req_num = 4;
    request_map = replicate 4 no_entry;
    request_id = 0;
  };
  channels = new_channel memory ∷ new_channel memory ∷ [];
}

abbrev outside : Outside
outside = record {
  reply = no_json;
  connected = [];
  memory = memory;
  epoll_ok = true;
  hs_channel = 9;
}

abbrev web_channel : HsChannel
web_channel = record {
  is_line = false;
  is_head = false;
  is_body = false;
  is_read_done = true;
  is_key = true;
  is_content_length = false;
  key_start = 0;
  value_start = 0;
  processing_end = 0;
  decode_index = 0;
  body_size = pos 5;
  body_start = 0;
  read_index = 0;
  write_index = 0;
  write_size = 0;
  buffer_size = 4;
  buffer = 0 ∷ 0 ∷ 0 ∷ 0 ∷ [];
}

-- "s=a%2Eb" for the service "a.b".
abbrev form : List ℕ
form = 115 ∷ 61 ∷ 97 ∷ 37 ∷ hex_digit 2 ∷ hex_digit 14 ∷ 98 ∷ []

content_handler-Forwarded_example :
    (a' : Agent) × (content_handler thousandths outside agent web_channel form 7
      ≡ some (a', web_channel))
    × Forwarded outside agent form 7 1 (6 ∷ 2 ∷ []) a'
unfolding get_service_node hash_code take_optimal compare_all compare_endpoint
content_handler-Forwarded_example =
    content_handler-Forwarded thousandths outside agent web_channel 7 (115 ∷ []) (97 ∷ 46 ∷ 98 ∷ [])
      (97 ∷ 37 ∷ hex_digit 2 ∷ hex_digit 14 ∷ 98 ∷ []) [] node 1 (6 ∷ 2 ∷ []) ((refl, refl), tt)
      (plain 97 (refl, refl, refl)
        (percent 2 14 (omega arith) (omega arith) (plain 98 (refl, refl, refl) ends)))
      at_end (omega arith) refl refl (omega arith) refl

-- The answer "42", with two bytes before it and a line end behind it.
abbrev roomy : HsChannel
roomy = record web_channel { buffer_size = 200; buffer = replicate 200 0 }

listen-Listened_example :
    Listened roomy (52 ∷ 50 ∷ []) (listen roomy (34 ∷ 32 ∷ 52 ∷ 50 ∷ 10 ∷ []) 5)
listen-Listened_example =
    listen-Listened roomy 34 32 10 (52 ∷ 50 ∷ []) [] refl (omega arith, (omega arith, tt))
      (omega arith)
