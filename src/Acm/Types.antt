-- ===== src/Acm/Types.antt =====
-- The structures of src/main/c/inc/core/agent-client-manager.h. Sizes and indices are numbers; a
-- 64-bit `long` is its bit pattern. A pointer to a payload stands for the bytes that it points to,
-- a function pointer and a `void *` for a number, and NULL for `none`.
use mw_race_service_mesh_c.Base.{ℕ, Bool, List, Option}

pub record RequestMapEntry : Type 0 where
  pub req_id : ℕ
  pub listening : Option ℕ
  pub arg : ℕ

-- `struct acm_handle`, without the pools and descriptors, which do not change after `acm_start`.
pub record AcmHandle : Type 0 where
  pub max_write_queue_len : ℕ
  pub max_hold_req_num : ℕ
  pub request_map : List RequestMapEntry
  pub request_id : ℕ

pub record AcmMsgHead : Type 0 where
  pub req_id : ℕ
  pub data_size : ℕ

-- `struct acm_msg`: the channel that it belongs to is the one that holds it.
pub record AcmMsg : Type 0 where
  pub head : AcmMsgHead
  pub content : List ℕ

pub record AcmWriteTask : Type 0 where
  pub write_index : ℕ
  pub head : AcmMsgHead
  pub content : List ℕ

-- `struct acm_channel`. A spin lock is the flag that it is held, and `out_armed` says that EPOLLOUT
-- is registered with EPOLLONESHOT and has not fired.
pub record AcmChannel : Type 0 where
  pub write_queue : List AcmWriteTask
  pub write_queue_head : ℕ
  pub write_queue_tail : ℕ
  pub recv_msg : AcmMsg
  pub head : List ℕ
  pub is_head : Bool
  pub head_read_index : ℕ
  pub data_read_index : ℕ
  pub request_num : ℕ
  pub consume_locked : Bool
  pub reading_locked : Bool
  pub out_armed : Bool
  pub in_armed : Bool

-- ACM_MSG_HEAD_SIZE
abbrev pub msg_head_size : ℕ
msg_head_size = 12
