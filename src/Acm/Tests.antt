-- ===== src/Acm/Tests.antt =====
-- Concrete runs of the link between the agents.
use mw_race_service_mesh_c.Base.{
  ℕ, ◌+◌, ◌-◌, ◌^◌, ◌≡◌, ◌≢◌, refl, subst, inl, inr, true, false, some, List, [], ◌∷◌, ◌++◌, arith,
  get_or, replicate,
}
use mw_race_service_mesh_c.Acm.Types.{RequestMapEntry, AcmHandle, AcmChannel}
use mw_race_service_mesh_c.Acm.Codec.{int2bytes, bytes2int, long2bytes, bytes2long}
use mw_race_service_mesh_c.Acm.Codec.RoundTrip.{bytes2int-int2bytes, bytes2long-long2bytes}
use mw_race_service_mesh_c.Acm.Request.{
  widened, hold_request, enqueue, no_entry, no_task, next_id, hold_request, request,
}
use mw_race_service_mesh_c.Acm.Request.Held.{Held}
use mw_race_service_mesh_c.Acm.Write.{
  SendResult, sent, again, task_of, write_step, write_head, write_data, break_loop,
}
use mw_race_service_mesh_c.Acm.Write.Queue.{tasks}
use mw_race_service_mesh_c.Acm.Write.Stream as Stream
use mw_race_service_mesh_c.Acm.Write.Stream.{frame, unsent, write_step-Conserves}
use mw_race_service_mesh_c.Acm.Write.History.{
  Link, Reach, here, next, asks, sends, InOrder, new_task, wire-InOrder,
}
use mw_race_service_mesh_c.Acm.Write.Again.{write_step-again}
use mw_race_service_mesh_c.Acm.Read.{io_read_thread, got}
use mw_race_service_mesh_c.Acm.Read.Frames as Frames
use mw_race_service_mesh_c.Acm.Read.Frames.{IsReader}
use mw_race_service_mesh_c.Acm.Read.Delivery.{io_read_thread-Conserves}
use mw_race_service_mesh_c.Acm.Connect.{ConnectCalls, Memory, new_channel, connect}
use mw_race_service_mesh_c.Acm.Protocol as Protocol
use mw_race_service_mesh_c.Acm.Protocol.{Shared, enqueues, opens, arms, add_task, release}
use mw_race_service_mesh_c.Acm.Protocol.Wakes.{Phase, connected, connected-Phase}
use mw_race_service_mesh_c.Acm.Connect.Fresh.{Connected, connect-Connected, new_channel-IsFresh}

abbrev four_entries : List RequestMapEntry
four_entries = replicate 4 no_entry

abbrev handle : AcmHandle
handle = record {
  max_write_queue_len = 4;
  max_hold_req_num = 4;
  request_map = four_entries;
  request_id = 0;
}

abbrev memory : Memory
memory = record {
  tasks = replicate 4 no_task;
  msg = record { head = record { req_id = 0; data_size = 0 }; content = [] };
  head = replicate 12 7;
  index = 5;
}

abbrev channel : AcmChannel
channel = new_channel memory

bytes2int-int2bytes_example :
    (bytes2int (int2bytes 2018915346 (9 ∷ 0 ∷ 0 ∷ 0 ∷ 0 ∷ 8 ∷ []) 1) 1 ≡ 2018915346)
    × (get_or (int2bytes 2018915346 (9 ∷ 0 ∷ 0 ∷ 0 ∷ 0 ∷ 8 ∷ []) 1) 5 0 ≡ 8)
bytes2int-int2bytes_example =
    bytes2int-int2bytes 2018915346 (9 ∷ 0 ∷ 0 ∷ 0 ∷ 0 ∷ 8 ∷ []) 1 (omega arith) (omega arith) 5
      (inr (omega arith))

bytes2long-long2bytes_example :
    (bytes2long (long2bytes (2 ^ 63 + 5) (replicate 9 3) 0) 0 ≡ 2 ^ 63 + 5)
    × (get_or (long2bytes (2 ^ 63 + 5) (replicate 9 3) 0) 8 0 ≡ 3)
bytes2long-long2bytes_example =
    bytes2long-long2bytes (2 ^ 63 + 5) (replicate 9 3) 0 (omega arith) (omega arith) 8
      (inr (omega arith))

abbrev first_held : Held
first_held = record { id = 5; listening = 70; arg = 71 }

abbrev later_held : List Held
later_held =
    record { id = 6; listening = 80; arg = 81 } ∷ record { id = 8; listening = 90; arg = 91 } ∷ []

-- A channel that has received the message with the id `n`.
abbrev received : ℕ → AcmChannel
received n = record channel {
  recv_msg = record { head = record { req_id = n; data_size = 1 }; content = 33 ∷ [] };
  is_head = false;
  data_read_index = 1;
}

-- The entry of the id that comes next is taken.
abbrev full_handle : AcmHandle
full_handle = record handle {
  request_map =
      no_entry ∷ record { req_id = 5; listening = some 1; arg = 2 } ∷ no_entry ∷ no_entry ∷ [];
  request_id = 8;
}

-- A new channel, a request on it, and a round in which the socket takes five bytes.
abbrev link0 : Link
link0 = record { handle = handle; channel = channel; wire = []; asked = [] }

abbrev payload : List ℕ
payload = 65 ∷ 66 ∷ []

abbrev link1 : Link
link1 = record {
  handle = (request true handle channel payload 2 (some 3) 4).1;
  channel = (request true handle channel payload 2 (some 3) 4).2;
  wire = [];
  asked = frame (new_task (next_id handle) payload 2);
}

abbrev link2 : Link
link2 = record {
  handle = link1.handle;
  channel = (write_step link1.handle link1.channel (sent 5)).channel;
  wire = (write_step link1.handle link1.channel (sent 5)).output;
  asked = link1.asked;
}

fresh_link : InOrder link0
fresh_link = (new_channel-IsFresh handle memory (omega arith) refl).in_order

abbrev IsSent : SendResult → Type 0
IsSent (sent k) = Unit
IsSent _ = ⊥

sent-ne-again : (k : ℕ) → sent k ≢ again
sent-ne-again k e = subst IsSent e tt

one_step : Reach link0 link1
one_step = next here (asks true payload 2 (some 3) 4 (omega arith) (omega arith) refl)

two_steps : Reach link0 link2
unfolding request enqueue hold_request widened
two_steps = next one_step (sends (sent 5) (omega arith) (inl (sent-ne-again 5)) refl)

wire-InOrder_example : InOrder link2
wire-InOrder_example = wire-InOrder fresh_link two_steps

-- The whole head, and then the payload.
abbrev link3 : Link
link3 = record {
  handle = link1.handle;
  channel = (write_step link1.handle link1.channel (sent 12)).channel;
  wire = (write_step link1.handle link1.channel (sent 12)).output;
  asked = link1.asked;
}

abbrev link4 : Link
link4 = record {
  handle = link1.handle;
  channel = (write_step link1.handle link3.channel (sent 2)).channel;
  wire = link3.wire ++ (write_step link1.handle link3.channel (sent 2)).output;
  asked = link1.asked;
}

head_steps : Reach link0 link3
unfolding request enqueue hold_request widened
head_steps = next one_step (sends (sent 12) (omega arith) (inl (sent-ne-again 12)) refl)

all_steps : Reach link0 link4
unfolding request enqueue hold_request widened write_step write_head write_data
all_steps = next head_steps (sends (sent 2) (omega arith) (inl (sent-ne-again 2)) refl)

one_task : InOrder link1
one_task = wire-InOrder fresh_link one_step

write_step-Conserves_example :
    Stream.Conserves link1.handle link1.channel (write_step link1.handle link1.channel (sent 5))
unfolding request enqueue hold_request widened
write_step-Conserves_example =
    write_step-Conserves link1.handle link1.channel one_task.queue (omega arith) one_task.valid
      (sent 5) (inl (sent-ne-again 5))

head_sent : InOrder link3
head_sent = wire-InOrder fresh_link head_steps

write_step-again_example :
    ((write_step link3.handle link3.channel again).output ≡ [])
    × ((write_step link3.handle link3.channel again).next ≡ break_loop)
    × (unsent (tasks link3.handle (write_step link3.handle link3.channel again).channel)
        ≡ get_or
            (frame (task_of link3.handle link3.channel))
            ((task_of link3.handle link3.channel).write_index - 1)
            0
          ∷ unsent (tasks link3.handle link3.channel))
unfolding request enqueue hold_request widened write_step write_head
write_step-again_example =
    write_step-again link3.handle link3.channel head_sent.queue (omega arith) head_sent.valid
      (omega arith)

-- Fifteen bytes that arrive in three pieces.
abbrev incoming : List ℕ
incoming = 0 ∷ 0 ∷ 0 ∷ 0 ∷ 0 ∷ 0 ∷ 0 ∷ 9 ∷ 0 ∷ 0 ∷ 0 ∷ 2 ∷ 65 ∷ 66 ∷ 0 ∷ []

fresh-IsReader : IsReader channel
fresh-IsReader = (new_channel-IsFresh handle memory (omega arith) refl).reader

io_read_thread-Conserves_example :
    Frames.Conserves channel incoming
      (io_read_thread true handle channel incoming (got 5 ∷ got 20 ∷ got 20 ∷ []))
io_read_thread-Conserves_example =
    io_read_thread-Conserves true handle channel incoming (got 5 ∷ got 20 ∷ got 20 ∷ [])
      fresh-IsReader (ground arith)

abbrev good_calls : ConnectCalls
good_calls = record {
  connect_ok = true;
  channel_ok = true;
  write_queue_ok = true;
  add_read_ok = true;
  add_write_ok = true;
}

connect-Connected_example : Connected good_calls handle (connect good_calls memory (some handle))
connect-Connected_example = connect-Connected good_calls memory handle (omega arith) refl

-- A request on a new channel, and the consumer that it wakes.
abbrev shared1 : Shared
shared1 = add_task handle (connected memory) 1 payload 2

abbrev shared2 : Shared
shared2 = release (record shared1 { opening = 0 })

abbrev shared3 : Shared
shared3 = record shared2 { channel = record (shared2.channel) { out_armed = true }; arming = 0 }

woken : Protocol.Reach handle (connected memory) shared3
unfolding enqueue
woken =
    Protocol.next
      (Protocol.next (Protocol.next Protocol.here (enqueues 1 payload 2 refl)) (opens 0 refl refl))
      (arms 0 refl refl)

connected-Phase_example : Phase shared3
connected-Phase_example = connected-Phase handle memory woken
