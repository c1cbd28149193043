-- ===== src/Http/Decoder/Ends.antt =====
-- The end of the loop of hs_decoder.
use mw_race_service_mesh_c.Base.{
  ℕ, zero, suc, ◌+◌, ◌≤◌, ◌<◌, ◌≡◌, refl, ◌∙◌, inl, inr, Bool, true, false, List, [], ◌++◌, arith,
  ltb, ◌==◌, if◌then◌else◌, ltb→lt, not_ltb→le, Bool-cases, length, get_or, set, take, drop,
}
use mw_race_service_mesh_c.Base.CString.{str_eq, c_string, atoi}
use mw_race_service_mesh_c.Base.Int.{eqb_ℤ, sub_ℕ}
use mw_race_service_mesh_c.Http.Types.{
  HsChannel, Handled, set_byte, tolower, content_handler_thread,
}
use mw_race_service_mesh_c.Http.Decoder.{
  content_length_key, get_method, string_at, decode_line, decode_key, decode_value, decode_body,
  decode_byte, decode_loop,
}

-- What a round leaves of the bounds of the loop.
record Kept (c d : HsChannel) : Type 0 where
  same_end : d.processing_end ≡ c.processing_end
  forward : c.decode_index ≤ d.decode_index

Kept-if :
    (c : HsChannel) (b : Bool) (x y : HsChannel) → Kept c x → Kept c y → Kept c (if b then x else y)
Kept-if c true x y kx ky = kx
Kept-if c false x y kx ky = ky

Kept-if_pair :
    (c : HsChannel) (b : Bool) (x y : HsChannel × List Handled)
    → Kept c x.0
    → Kept c y.0
    → Kept c (if b then x else y).0
Kept-if_pair c true x y kx ky = kx
Kept-if_pair c false x y kx ky = ky

content_handler_thread-Kept : (c d : HsChannel) → Kept c d → Kept c (content_handler_thread d).0
unfolding content_handler_thread
content_handler_thread-Kept c d k = elim (Bool-cases (ltb d.processing_end (length d.buffer))) [
  | inl room ↦ rw room (record { same_end = k.same_end; forward = k.forward })
  | inr full ↦ rw full k
]

decode_line-Kept : (c : HsChannel) (b : ℕ) → Kept c (decode_line c b).0
unfolding decode_line
decode_line-Kept c b =
    let cut = set_byte (set_byte c c.decode_index 0) 3 0 in
    elim (Bool-cases (b == 13)) [
      | inl cr ↦ elim (Bool-cases (str_eq get_method (string_at cut 0))) [
        | inl get ↦
            rw (cr, get)
              (content_handler_thread-Kept c cut
                (record { same_end = refl; forward = omega arith }))
        | inr other ↦ rw (cr, other) (record { same_end = refl; forward = omega arith })
      ]
      | inr no_cr ↦ elim (Bool-cases (b == 10)) [
        | inl lf ↦ rw (no_cr, lf) (record { same_end = refl; forward = omega arith })
        | inr other ↦ rw (no_cr, other) (record { same_end = refl; forward = omega arith })
      ]
    ]

decode_key-Kept : (c : HsChannel) (b : ℕ) → Kept c (decode_key c b)
unfolding decode_key
decode_key-Kept c b =
    let cut = set c.buffer c.decode_index 0 in
    let key =
      c_string (drop c.key_start (take c.key_start cut ++ tolower (drop c.key_start cut))) in
    elim (Bool-cases (b == 58)) [
      | inl colon ↦ elim (Bool-cases (str_eq key content_length_key)) [
        | inl found ↦ rw (colon, found) (record { same_end = refl; forward = omega arith })
        | inr other ↦ rw (colon, other) (record { same_end = refl; forward = omega arith })
      ]
      | inr no_colon ↦ elim (Bool-cases (b == 10)) [
        | inl lf ↦ rw (no_colon, lf) (record { same_end = refl; forward = omega arith })
        | inr other ↦ rw (no_colon, other) (record { same_end = refl; forward = omega arith })
      ]
    ]

decode_value-Kept : (c : HsChannel) (b : ℕ) → Kept c (decode_value c b)
unfolding decode_value
decode_value-Kept c b = elim (Bool-cases (b == 13)) [
  | inl cr ↦ rw cr (
      Kept-if c c.is_content_length
        (record (set_byte c c.decode_index 0) {
          is_content_length = false;
          body_size = atoi (string_at (set_byte c c.decode_index 0) c.value_start);
        })
        c (record { same_end = refl; forward = omega arith })
        (record { same_end = refl; forward = omega arith }))
  | inr no_cr ↦ elim (Bool-cases (b == 10)) [
    | inl lf ↦ rw (no_cr, lf) (record { same_end = refl; forward = omega arith })
    | inr other ↦ rw (no_cr, other) (record { same_end = refl; forward = omega arith })
  ]
]

decode_body-Kept : (c : HsChannel) → c.decode_index < c.processing_end → Kept c (decode_body c)
unfolding decode_body
decode_body-Kept c lt =
    elim (Bool-cases (eqb_ℤ (sub_ℕ c.processing_end c.body_start) c.body_size)) [
      | inl whole ↦ rw whole (record { same_end = refl; forward = omega arith })
      | inr part ↦ rw part (record { same_end = refl; forward = omega arith })
    ]

decode_byte-Kept : (c : HsChannel) → c.decode_index < c.processing_end → Kept c (decode_byte c).0
unfolding decode_byte
decode_byte-Kept c lt =
    let b = get_or c.buffer c.decode_index 0 in
    let body : HsChannel × List Handled = if c.is_body then (decode_body c, []) else (c, []) in
    let header : HsChannel × List Handled =
      ((if c.is_key then decode_key c b else decode_value c b), []) in
    Kept-if_pair c c.is_line (decode_line c b) (if c.is_head then header else body)
      (decode_line-Kept c b)
      (Kept-if_pair c c.is_head header body
        (Kept-if c c.is_key (decode_key c b) (decode_value c b) (decode_key-Kept c b)
          (decode_value-Kept c b))
        (Kept-if_pair c c.is_body (decode_body c, []) (c, []) (decode_body-Kept c lt)
          (record { same_end = refl; forward = omega arith })))

-- The decoder's loop, with as much fuel as there are bytes to decode, has decoded them all: it does not
-- stop for lack of fuel, and the end that it ran to is the one it was given.
pub decode_loop-ends :
    (n : ℕ) (c : HsChannel)
    → c.processing_end ≤ c.decode_index + n
    → ((decode_loop n c).0.processing_end ≡ c.processing_end)
      × (c.processing_end ≤ (decode_loop n c).0.decode_index)
unfolding decode_loop
decode_loop-ends zero c enough = (refl, omega arith)
decode_loop-ends (suc n) c enough = elim (Bool-cases (ltb c.decode_index c.processing_end)) [
  | inl more ↦
      let k = decode_byte-Kept c (ltb→lt _ _ more) in
      let d = (decode_byte c).0 in
      let d1 = record d { decode_index = suc d.decode_index } in
      let (end, past) = decode_loop-ends n d1 (omega (arith, k.same_end, k.forward)) in
      rw more (end ∙ k.same_end, omega (arith, past, k.same_end))
  | inr done ↦ rw done (refl, not_ltb→le _ _ done)
]
