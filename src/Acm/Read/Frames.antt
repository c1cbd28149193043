-- ===== src/Acm/Read/Frames.antt =====
-- Messages on the wire, and the part of one that a channel holds between two calls of `recv`.
use mw_race_service_mesh_c.Base.{
  ℕ, ◌≤◌, ◌<◌, ◌≡◌, ◌≢◌, ap, true, false, List, [], ◌∷◌, ◌++◌, if◌then◌else◌, length, take,
}
use mw_race_service_mesh_c.Acm.Types.{AcmMsg, AcmChannel, msg_head_size}
use mw_race_service_mesh_c.Acm.Codec.Head.{parsed}
use mw_race_service_mesh_c.Acm.Request.{Call}
use mw_race_service_mesh_c.Acm.Write.{head_bytes}
use mw_race_service_mesh_c.Acm.Read.{fault, Round}

abbrev pub frame : AcmMsg → List ℕ
frame m = head_bytes m.head ++ take m.head.data_size m.content

-- The frames of the messages that were delivered.
abbrev pub frames : List (AcmMsg × Call) → List ℕ
frames [] = []
frames ((m, call) ∷ ms) = frame m ++ frames ms

-- The bytes that a channel has of the message that it is at.
abbrev pub partial : AcmChannel → List ℕ
partial c =
    if c.is_head
    then take c.head_read_index c.head
    else c.head ++ take c.data_read_index c.recv_msg.content

pub partial-head : (c : AcmChannel) → c.is_head ≡ true → partial c ≡ take c.head_read_index c.head
partial-head c e =
    ap
      (λ b.
        if b
        then take c.head_read_index c.head
        else c.head ++ take c.data_read_index c.recv_msg.content)
      e

pub partial-data :
    (c : AcmChannel)
    → c.is_head ≡ false
    → partial c ≡ c.head ++ take c.data_read_index c.recv_msg.content
partial-data c e =
    ap
      (λ b.
        if b
        then take c.head_read_index c.head
        else c.head ++ take c.data_read_index c.recv_msg.content)
      e

-- A channel between two calls of `recv`.
pub record IsReader (c : AcmChannel) : Type 0 where
  pub head_array : length c.head ≡ msg_head_size
  pub in_head : c.is_head ≡ true → c.head_read_index < msg_head_size
  pub head_parsed : c.is_head ≡ false → c.recv_msg.head ≡ parsed c.head
  pub in_data :
      c.is_head ≡ false
      → (c.data_read_index ≤ c.recv_msg.head.data_size)
        × (length c.recv_msg.content ≡ c.recv_msg.head.data_size)

-- A round gives out whole frames: with what the channel keeps and what still waits they are what the
-- channel had and what waited before.
pub record Conserves (c : AcmChannel) (inc : List ℕ) (s : Round) : Type 0 where
  pub stream : frames s.delivered ++ (partial s.channel ++ s.incoming) ≡ partial c ++ inc
  pub reader : s.next ≢ fault → IsReader s.channel
