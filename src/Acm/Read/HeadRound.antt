-- ===== src/Acm/Read/HeadRound.antt =====
-- A `recv` while the head of a message is read.
use mw_race_service_mesh_c.Base.{
  ℕ, ◌+◌, ◌-◌, ◌^◌, ◌≤◌, ◌<◌, ◌≡◌, refl, sym, ap, ◌∙◌, inl, inr, Bool, true, ◌&&◌, List, [], ◌++◌,
  append_assoc, append-nil, arith, tests, ltb, Bool-cases, length, take, drop, min, write_at,
  take-append-drop, length-take, length-replicate,
}
use mw_race_service_mesh_c.Base.Segments.{take-write_at, length-write_at, take_all}
use mw_race_service_mesh_c.Acm.Types.{AcmHandle, AcmChannel, msg_head_size}
use mw_race_service_mesh_c.Acm.Codec.{bytes2int}
use mw_race_service_mesh_c.Acm.Read.{go_on, break_loop, fault, round, begin_msg, read_head}
use mw_race_service_mesh_c.Acm.Read.Frames.{partial, partial-head, IsReader, Conserves}

module _ (h : AcmHandle) (c : AcmChannel) (inc : List ℕ) (r : IsReader c) (k : ℕ) (memory : Bool)
    (e : c.is_head ≡ true) where
  n : ℕ
  n = min k (msg_head_size - c.head_read_index)

  abbrev c1 : AcmChannel
  c1 = record c {
    head = write_at c.head c.head_read_index (take n inc);
    head_read_index = c.head_read_index + length (take n inc);
  }

  fits : c.head_read_index + length (take n inc) ≤ msg_head_size
  unfolding n
  fits = omega (arith, r.in_head e, length-take n inc)

  taken : take c1.head_read_index c1.head ≡ take c.head_read_index c.head ++ take n inc
  taken =
      take-write_at c.head_read_index _ c.head (take n inc) refl
        (omega (arith, r.head_array, r.in_head e))

  joined : (take c.head_read_index c.head ++ take n inc) ++ drop n inc ≡ partial c ++ inc
  joined = rw (partial-head c e) (
      append_assoc (take c.head_read_index c.head) (take n inc) (drop n inc)
      ∙ ap (◌++◌ (take c.head_read_index c.head)) (take-append-drop n inc))

  array : length c1.head ≡ msg_head_size
  array =
      length-write_at c.head_read_index c.head (take n inc) (omega (arith, fits, r.head_array))
      ∙ r.head_array

  incomplete :
      c1.head_read_index < msg_head_size → Conserves c inc (round h c1 (drop n inc) [] break_loop)
  incomplete lt = record {
    stream = rw (partial-head c1 e, taken) joined;
    reader = λ _. record {
      head_array = array;
      in_head = λ _. lt;
      head_parsed = λ f. cc;
      in_data = λ f. absurd (cc);
    };
  }

  whole_head :
      msg_head_size ≤ c1.head_read_index → c1.head ≡ take c.head_read_index c.head ++ take n inc
  whole_head ge = sym (take_all c1.head_read_index c1.head (omega (arith, array))) ∙ taken

  complete :
      msg_head_size ≤ c1.head_read_index
      → Conserves c inc (round h (begin_msg c1) (drop n inc) [] go_on)
  unfolding begin_msg
  complete ge = record {
    stream = rw (append-nil c1.head, whole_head ge) joined;
    reader = λ _. record {
      head_array = array;
      in_head = λ f. absurd (cc);
      head_parsed = λ _. refl;
      in_data = λ _. (omega arith, length-replicate (bytes2int c1.head 8) 0);
    };
  }

  faulty : msg_head_size ≤ c1.head_read_index → Conserves c inc (round h c1 (drop n inc) [] fault)
  faulty ge = record {
    stream = rw (partial-head c1 e, taken) joined;
    reader = λ f. absurd (f refl);
  }

  -- One `recv` of a head.
  pub read_head-Conserves : Conserves c inc (read_head h c inc memory k)
  unfolding read_head n
  read_head-Conserves = elim (Bool-cases (ltb c1.head_read_index msg_head_size)) [
    | inl lt ↦ rw lt (incomplete (omega (tests, lt)))
    | inr ge ↦ rw ge (elim (Bool-cases (memory && ltb (bytes2int c1.head 8) (2 ^ 31))) [
      | inl small ↦ rw small (complete (omega (tests, ge)))
      | inr large ↦ rw large (faulty (omega (tests, ge)))
    ])
  ]
