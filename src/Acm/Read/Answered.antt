-- ===== src/Acm/Read/Answered.antt =====
-- The answer to a request: acm_hold_request, and the delivery of the message by acm_io_read_thread.
use mw_race_service_mesh_c.Base.{ℕ, ◌≡◌, true, none, List, [], ◌∷◌}
use mw_race_service_mesh_c.Acm.Types.{AcmMsg}
use mw_race_service_mesh_c.Acm.Request.{entry_of}
use mw_race_service_mesh_c.Acm.Request.Held.{Held}
use mw_race_service_mesh_c.Acm.Read.{Round, go_on}

-- A listening function is called once with its argument and the payload and its size, the entry `id` is
-- freed, and the channel is ready for the next message of the same stream.
pub record Answers (listening arg id : ℕ) (m : AcmMsg) (inc : List ℕ) (r : Round) : Type 0 where
  pub call :
      r.delivered
      ≡ (
        m,
        record {
          listening = listening;
          arg = arg;
          content = m.content;
          data_size = m.head.data_size;
        },
      )
        ∷ []
  pub free_id : (entry_of r.handle id).req_id ≡ 0
  pub free_listening : (entry_of r.handle id).listening ≡ none
  pub at_head : (r.channel.is_head ≡ true) × (r.channel.head_read_index ≡ 0)
  pub unread : r.incoming ≡ inc
  pub continues : r.next ≡ go_on
