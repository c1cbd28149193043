-- ===== src/Acm/Read/Delivery.antt =====
-- The messages that acm_io_read_thread delivers, whatever the socket gives at a time.
use mw_race_service_mesh_c.Base.{
  ℕ, ◌≡◌, refl, sym, ap, subst, ◌∙◌, inl, inr, Bool, true, false, List, [], ◌∷◌, ◌++◌, append_assoc,
  if◌then◌else◌, Bool-cases, All,
}
use mw_race_service_mesh_c.Acm.Types.{AcmHandle, AcmMsg, AcmChannel}
use mw_race_service_mesh_c.Acm.Codec.Head.{IsByte}
use mw_race_service_mesh_c.Acm.Request.{Call}
use mw_race_service_mesh_c.Acm.Read.{
  RecvResult, got, starved, again, failed, Next, go_on, break_loop, fault, Round, follow, leave,
  read_head, read_data, read_step, read_loop, io_read_thread,
}
use mw_race_service_mesh_c.Acm.Read.Frames.{frame, frames, partial, IsReader, Conserves}
use mw_race_service_mesh_c.Acm.Read.HeadRound.{read_head-Conserves}
use mw_race_service_mesh_c.Acm.Read.DataRound.{read_data-Conserves}

-- A `recv` of some bytes, with or without memory for a message.
received-Conserves :
    (h : AcmHandle) (c : AcmChannel) (inc : List ℕ) (memory : Bool) (k : ℕ)
    → IsReader c
    → All IsByte (partial c ++ inc)
    → Conserves c inc (if c.is_head then read_head h c inc memory k else read_data h c inc k)
received-Conserves h c inc memory k v bytes = elim (Bool-cases c.is_head) [
  | inl e ↦
      subst (λ b. Conserves c inc (if b then read_head h c inc memory k else read_data h c inc k))
        (sym e) (read_head-Conserves h c inc v k memory e)
  | inr e ↦
      subst (λ b. Conserves c inc (if b then read_head h c inc memory k else read_data h c inc k))
        (sym e) (read_data-Conserves h c inc v bytes k e)
]

read_step-Conserves :
    (h : AcmHandle) (c : AcmChannel) (inc : List ℕ) (r : RecvResult)
    → IsReader c
    → All IsByte (partial c ++ inc)
    → Conserves c inc (read_step h c inc r)
unfolding read_step
read_step-Conserves h c inc again v bytes = record { stream = refl; reader = λ _. v }
read_step-Conserves h c inc failed v bytes = record { stream = refl; reader = λ _. v }
read_step-Conserves h c inc (got k) v bytes = received-Conserves h c inc true k v bytes
read_step-Conserves h c inc (starved k) v bytes = received-Conserves h c inc false k v bytes

frames-append : (ms ns : List (AcmMsg × Call)) → frames (ms ++ ns) ≡ frames ms ++ frames ns
frames-append [] ns = refl
frames-append ((m, call) ∷ ms) ns =
    ap (◌++◌ (frame m)) (frames-append ms ns) ∙ sym (append_assoc (frame m) (frames ms) (frames ns))

All-drop : (P : ℕ → Type 0) (xs ys : List ℕ) → All P (xs ++ ys) → All P ys
All-drop P [] ys v = v
All-drop P (x ∷ xs) ys v = All-drop P xs ys v.1

-- Two runs of rounds in a row.
follow-Conserves :
    (c : AcmChannel) (inc : List ℕ) (n : Next) (s rest : Round)
    → s.next ≡ n
    → Conserves c inc s
    → (n ≡ go_on → Conserves s.channel s.incoming rest)
    → Conserves c inc (follow n s rest)
follow-Conserves c inc go_on s rest e first second = record {
  stream = rw (frames-append s.delivered rest.delivered) (
      append_assoc (frames s.delivered) (frames rest.delivered) _
      ∙ ap (◌++◌ (frames s.delivered)) (second refl).stream
      ∙ first.stream);
  reader = (second refl).reader;
}
follow-Conserves c inc break_loop s rest e first second = first
follow-Conserves c inc fault s rest e first second = first

read_loop-Conserves :
    (h : AcmHandle) (c : AcmChannel) (inc : List ℕ) (rs : List RecvResult)
    → IsReader c
    → All IsByte (partial c ++ inc)
    → Conserves c inc (read_loop h c inc rs)
unfolding read_loop
read_loop-Conserves h c inc [] v bytes = read_step-Conserves h c inc again v bytes
read_loop-Conserves h c inc (r ∷ rs) v bytes =
    let s = read_step h c inc r in
    let first = read_step-Conserves h c inc r v bytes in
    follow-Conserves c inc s.next s _ refl first λ e.
      read_loop-Conserves s.handle s.channel s.incoming rs (first.reader (λ f. cc))
        (All-drop IsByte (frames s.delivered) _ (subst (All IsByte) (sym first.stream) bytes))

kept :
    {c : AcmChannel} {inc : List ℕ} (ok : Bool) (s : Round)
    → Conserves c inc s
    → Conserves c inc (leave ok go_on s)
kept ok s v = record {
  stream = v.stream;
  reader = λ f. record {
    head_array = (v.reader f).head_array;
    in_head = (v.reader f).in_head;
    head_parsed = (v.reader f).head_parsed;
    in_data = (v.reader f).in_data;
  };
}

leave_Conserves :
    {c : AcmChannel} {inc : List ℕ} (ok : Bool) (s : Round) (n : Next)
    → s.next ≡ n
    → Conserves c inc s
    → Conserves c inc (leave ok n s)
leave_Conserves ok s go_on e v = kept ok s v
leave_Conserves ok s break_loop e v = kept ok s v
leave_Conserves ok s fault e v = v

-- One run of the io thread, on a channel between two calls of `recv` and a stream of bytes, whatever
-- the socket gives at a time: the frames of the messages that it delivers, in order, then the part of
-- a message that the channel keeps, then the bytes that it has not read, are what the channel had of
-- a message followed by the stream. Unless the run faults, the channel can read on.
pub io_read_thread-Conserves :
    (ok : Bool) (h : AcmHandle) (c : AcmChannel) (inc : List ℕ) (rs : List RecvResult)
    → IsReader c
    → All IsByte (partial c ++ inc)
    → Conserves c inc (io_read_thread ok h c inc rs)
unfolding io_read_thread
io_read_thread-Conserves ok h c inc rs v bytes =
    leave_Conserves ok (read_loop h c inc rs) _ refl (read_loop-Conserves h c inc rs v bytes)
