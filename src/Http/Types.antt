-- ===== src/Http/Types.antt =====
-- `struct hs_channel` of src/main/c/inc/core/http-server.h, and hs_init_channel. An index into the
-- buffer that starts as -1 is 0 here until it is set: it is not read before. `processing_end` is
-- `processing_index_now + 1`.
use mw_race_service_mesh_c.Base.{
  ℕ, ◌+◌, Bool, true, false, ◌&&◌, List, [], ◌∷◌, ltb, leb, ◌==◌, if◌then◌else◌, length, set, drop,
}
use mw_race_service_mesh_c.Base.Int.{ℤ, pos}

pub record HsChannel : Type 0 where
  pub is_line : Bool
  pub is_head : Bool
  pub is_body : Bool
  pub is_read_done : Bool
  pub is_key : Bool
  pub is_content_length : Bool
  pub key_start : ℕ
  pub value_start : ℕ
  pub processing_end : ℕ
  pub decode_index : ℕ
  pub body_size : ℤ
  pub body_start : ℕ
  pub read_index : ℕ
  pub write_index : ℕ
  pub write_size : ℕ
  pub buffer_size : ℕ
  pub buffer : List ℕ

-- The fields that are not named keep what they hold, `body_start` among them.
unfoldable pub init_channel : HsChannel → HsChannel
init_channel c = record c {
  decode_index = 0;
  is_line = true;
  is_head = true;
  is_body = true;
  is_read_done = false;
  is_key = true;
  is_content_length = false;
  body_size = pos 0;
  key_start = 0;
  value_start = 0;
  write_index = 0;
  read_index = 0;
  processing_end = 0;
}

-- What the decoder calls the content handler with, or the write of a zero behind the buffer that comes
-- before such a call.
pub data Handled : Type 0 where
  content : ℤ → List ℕ → Handled
  overruns : Handled

abbrev pub set_byte : HsChannel → ℕ → ℕ → HsChannel
set_byte c i b = record c { buffer = set c.buffer i b }

abbrev pub lower : ℕ → ℕ
lower b = if leb 65 b && leb b 90 then b + 32 else b

-- hs_tolower on the string at the start of some bytes: up to its zero.
unfoldable pub tolower : List ℕ → List ℕ
tolower [] = []
tolower (b ∷ bs) = let rest = tolower bs in if b == 0 then b ∷ bs else lower b ∷ rest

-- hs_content_handler_thread
unfoldable pub content_handler_thread : HsChannel → HsChannel × List Handled
content_handler_thread c =
    if ltb c.processing_end (length c.buffer)
    then (let c1 = set_byte c c.processing_end 0 in
        (c1, content c1.body_size (drop c1.body_start c1.buffer) ∷ []))
    else (c, overruns ∷ [])
