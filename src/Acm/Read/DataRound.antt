-- ===== src/Acm/Read/DataRound.antt =====
-- A `recv` while the payload of a message is read, and the delivery of the message.
use mw_race_service_mesh_c.Base.{
  ℕ, ◌+◌, ◌-◌, ◌%◌, ◌^◌, ◌≤◌, ◌<◌, ◌≡◌, refl, sym, ap, subst, ◌∙◌, inl, inr, true, false, Option,
  some, none, List, [], ◌∷◌, ◌++◌, append_assoc, append-nil, arith, tests, ltb, Bool-cases, All,
  length, take, drop, min, write_at, take-append-drop, length-take, get_or,
}
use mw_race_service_mesh_c.Base.Segments.{take-write_at, length-write_at}
use mw_race_service_mesh_c.Acm.Types.{AcmHandle, AcmChannel}
use mw_race_service_mesh_c.Acm.Codec.Head.{IsByte, head_bytes-parsed}
use mw_race_service_mesh_c.Acm.Request.{Call, called, no_entry}
use mw_race_service_mesh_c.Acm.Write.{head_bytes}
use mw_race_service_mesh_c.Acm.Read.{
  go_on, break_loop, fault, round, read_data, free_entry, answer, index_of, deliver_at, deliver,
}
use mw_race_service_mesh_c.Acm.Read.Frames.{frame, partial, partial-data, IsReader, Conserves}

All-take : (P : ℕ → Type 0) (xs ys : List ℕ) → All P (xs ++ ys) → All P xs
All-take P [] ys v = tt
All-take P (x ∷ xs) ys v = (v.0, All-take P xs ys v.1)

module _ (h : AcmHandle) (c : AcmChannel) (inc : List ℕ) (r : IsReader c)
    (bytes : All IsByte (partial c ++ inc)) (k : ℕ) (e : c.is_head ≡ false) where
  left : ℕ
  left = min k (c.recv_msg.head.data_size - c.data_read_index)

  -- The channel with what was received.
  abbrev c2 : AcmChannel
  c2 =
      let m = c.recv_msg in
      record c {
        recv_msg = record m { content = write_at m.content c.data_read_index (take left inc) };
        data_read_index = c.data_read_index + length (take left inc);
      }

  fits : c.data_read_index + length (take left inc) ≤ c.recv_msg.head.data_size
  unfolding left
  fits = omega (arith, (r.in_data e).0, length-take left inc)

  taken :
      take c2.data_read_index c2.recv_msg.content
      ≡ take c.data_read_index c.recv_msg.content ++ take left inc
  taken =
      take-write_at c.data_read_index _ c.recv_msg.content (take left inc) refl
        (omega (arith, r.in_data e))

  joined :
      (c.head ++ (take c.data_read_index c.recv_msg.content ++ take left inc)) ++ drop left inc
      ≡ partial c ++ inc
  joined = rw (partial-data c e) (
      append_assoc c.head _ (drop left inc)
      ∙ ap (◌++◌ c.head) (
          append_assoc (take c.data_read_index c.recv_msg.content) (take left inc) (drop left inc)
          ∙ ap (◌++◌ (take c.data_read_index c.recv_msg.content)) (take-append-drop left inc))
      ∙ sym (append_assoc c.head (take c.data_read_index c.recv_msg.content) inc))

  incomplete :
      c2.data_read_index < c.recv_msg.head.data_size
      → Conserves c inc (round h c2 (drop left inc) [] break_loop)
  incomplete lt = record {
    stream = rw (partial-data c2 e, taken) joined;
    reader = λ _. record {
      head_array = r.head_array;
      in_head = λ f. absurd (cc);
      head_parsed = r.head_parsed;
      in_data = λ _. (
        fits,
        length-write_at c.data_read_index c.recv_msg.content (take left inc)
              (omega (arith, fits, (r.in_data e).1))
            ∙ (r.in_data e).1,
      );
    };
  }

  head_again : head_bytes c.recv_msg.head ≡ c.head
  head_again =
      rw (r.head_parsed e)
        (head_bytes-parsed c.head r.head_array (All-take IsByte c.head _ head_first))
    where
      head_first : All IsByte (c.head ++ (take c.data_read_index c.recv_msg.content ++ inc))
      head_first =
          subst (All IsByte)
            (ap (λ xs. xs ++ inc) (partial-data c e)
              ∙ append_assoc c.head (take c.data_read_index c.recv_msg.content) inc)
            bytes

  whole :
      c.recv_msg.head.data_size ≤ c2.data_read_index
      → frame c2.recv_msg ≡ c.head ++ (take c.data_read_index c.recv_msg.content ++ take left inc)
  whole ge =
      let same : c.recv_msg.head.data_size ≡ c2.data_read_index = omega (arith, fits) in
      rw head_again (ap (λ xs. c.head ++ xs) (ap (λ j. take j c2.recv_msg.content) same ∙ taken))

  c3 : AcmChannel
  c3 = record c2 { request_num = (c2.request_num + 2 ^ 64 - 1) % 2 ^ 64 }

  delivered :
      (h' : AcmHandle) (call : Call)
      → c.recv_msg.head.data_size ≤ c2.data_read_index
      → Conserves c inc (
          round h'
            (record c3 { is_head = true; head_read_index = 0 })
            (drop left inc)
            ((c2.recv_msg, call) ∷ [])
            go_on)
  unfolding c3
  delivered h' call ge = record {
    stream = rw (append-nil (frame c2.recv_msg), whole ge) joined;
    reader = λ _. record {
      head_array = r.head_array;
      in_head = λ _. omega arith;
      head_parsed = λ f. absurd (cc);
      in_data = λ f. absurd (cc);
    };
  }

  faulty :
      c.recv_msg.head.data_size ≤ c2.data_read_index
      → Conserves c inc (round h c3 (drop left inc) [] fault)
  unfolding c3
  faulty ge = record {
    stream = rw (partial-data c2 e, taken) joined;
    reader = λ f. absurd (f refl);
  }

  answer-Conserves :
      (h' : AcmHandle) (o : Option Call)
      → c.recv_msg.head.data_size ≤ c2.data_read_index
      → Conserves c inc (answer h h' c3 (drop left inc) o)
  unfolding c3
  answer-Conserves h' none ge = faulty ge
  answer-Conserves h' (some call) ge = delivered h' call ge

  deliver-Conserves :
      c.recv_msg.head.data_size ≤ c2.data_read_index
      → Conserves c inc (deliver h c3 (drop left inc))
  unfolding deliver c3
  deliver-Conserves ge = at_index (index_of h c.recv_msg.head.req_id)
    where
      at_index : (o : Option ℕ) → Conserves c inc (deliver_at h c3 (drop left inc) o)
      at_index none = faulty ge
      at_index (some i) =
          let e = get_or h.request_map i no_entry in
          answer-Conserves (free_entry h i) (called e.listening e.arg c2.recv_msg) ge

  -- One `recv` of a payload.
  pub read_data-Conserves : Conserves c inc (read_data h c inc k)
  unfolding read_data left c3
  read_data-Conserves = elim (Bool-cases (ltb c2.data_read_index c.recv_msg.head.data_size)) [
    | inl lt ↦ rw lt (incomplete (omega (tests, lt)))
    | inr ge ↦ rw ge (deliver-Conserves (omega (tests, ge)))
  ]
