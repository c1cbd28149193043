-- ===== src/Http/Decoder/Body.antt =====
-- hs_decoder in the body of a request.
use mw_race_service_mesh_c.Base.{
  ℕ, zero, suc, ◌-◌, ◌≤◌, ◌<◌, ◌≡◌, refl, sym, ap, ap₂, ◌∙◌, subst, Bool, true, false, not, List,
  [], ◌∷◌, ◌++◌, arith, ltb, if◌then◌else◌, lt→ltb, le→not_ltb, length, set, drop,
}
use mw_race_service_mesh_c.Base.Int.{eqb_ℤ, sub_ℕ}
use mw_race_service_mesh_c.Http.Types.{HsChannel, Handled, content, content_handler_thread}
use mw_race_service_mesh_c.Http.Decoder.{decode_body, decode_byte, decode_loop, finish, decoder}

-- A channel whose head is decoded, with bytes of the body to look at.
pub record InBody (c : HsChannel) : Type 0 where
  pub no_line : c.is_line ≡ false
  pub no_head : c.is_head ≡ false
  pub body : c.is_body ≡ true
  pub not_done : c.is_read_done ≡ false
  pub more : c.decode_index < c.processing_end
  pub room : c.processing_end < length c.buffer

-- All of the body is read.
abbrev pub is_whole : HsChannel → Bool
is_whole c = eqb_ℤ (sub_ℕ c.processing_end c.body_start) c.body_size

-- A whole body goes to the content handler with a zero behind it, once; otherwise the channel waits for
-- more bytes behind those that it has.
pub data BodyDecoded (c : HsChannel) : HsChannel × List Handled → Type 0 where
  completes :
      (c' : HsChannel)
      → is_whole c ≡ true
      → c'.is_read_done ≡ true
      → BodyDecoded c
          (c', content c.body_size (drop c.body_start (set c.buffer c.processing_end 0)) ∷ [])
  waits :
      (c' : HsChannel)
      → is_whole c ≡ false
      → c'.is_read_done ≡ false
      → c'.is_body ≡ true
      → c'.decode_index ≡ c.processing_end
      → BodyDecoded c (c', [])

decode_loop-done :
    (n : ℕ) (c : HsChannel) → c.processing_end ≤ c.decode_index → decode_loop n c ≡ (c, [])
unfolding decode_loop
decode_loop-done zero c h = refl
decode_loop-done (suc n) c h = rw (le→not_ltb c.decode_index c.processing_end h) refl

-- The channel at the last byte, and behind it, with its flags.
abbrev pub at_end : HsChannel → Bool → HsChannel
at_end c whole = record c {
  decode_index = c.processing_end - 1;
  is_body = not whole;
  is_read_done = whole;
}

abbrev pub advanced : HsChannel → HsChannel
advanced c = record c { decode_index = suc c.decode_index }

decode_body-at_end :
    (c : HsChannel) (whole : Bool) → InBody c → is_whole c ≡ whole → decode_body c ≡ at_end c whole
unfolding decode_body
decode_body-at_end c true i e = rw e refl
decode_body-at_end c false i e = rw e (
    ap₂ (λ b d. record c { decode_index = c.processing_end - 1; is_body = b; is_read_done = d })
      i.body i.not_done)

branch :
    {A : Type 0} (line head body : Bool) (w x y z : A)
    → line ≡ false
    → head ≡ false
    → body ≡ true
    → (if line then w else (if head then x else (if body then y else z))) ≡ y
branch line head body w x y z a b c = rw a (rw b (rw c refl))

decode_byte-at_end :
    (c : HsChannel) (whole : Bool)
    → InBody c
    → is_whole c ≡ whole
    → decode_byte c ≡ (at_end c whole, [])
unfolding decode_byte
decode_byte-at_end c whole i e =
    branch c.is_line c.is_head c.is_body _ _ (decode_body c, []) (c, []) i.no_line i.no_head i.body
    ∙ ap (λ d. (d, [])) (decode_body-at_end c whole i e)

when : {A : Type 0} (b : Bool) (x y : A) → b ≡ true → (if b then x else y) ≡ x
when b x y e = rw e refl

abbrev goes_on : ℕ → HsChannel × List Handled → HsChannel × List Handled
goes_on n (c, handled) = ((decode_loop n (advanced c)).0, handled ++ (decode_loop n (advanced c)).1)

pub decode_loop-body :
    (n : ℕ) (c : HsChannel) (whole : Bool)
    → InBody c
    → is_whole c ≡ whole
    → decode_loop (suc n) c ≡ (advanced (at_end c whole), [])
unfolding decode_loop
decode_loop-body n c whole i e =
    when (ltb c.decode_index c.processing_end) (goes_on n (decode_byte c)) (c, [])
      (lt→ltb c.decode_index c.processing_end i.more)
    ∙ ap (goes_on n) (decode_byte-at_end c whole i e)
    ∙ decode_loop-done n (advanced (at_end c whole)) (omega (arith, i.more))

finish-BodyDecoded :
    (c : HsChannel) (whole : Bool)
    → InBody c
    → is_whole c ≡ whole
    → BodyDecoded c (finish (advanced (at_end c whole), []))
unfolding content_handler_thread
finish-BodyDecoded c true i e = rw (lt→ltb c.processing_end (length c.buffer) i.room) (
    completes (record (advanced (at_end c true)) { buffer = set c.buffer c.processing_end 0 }) e
      refl)
finish-BodyDecoded c false i e =
    waits (advanced (at_end c false)) e refl refl (omega (arith, i.more))

-- With bytes of a body to look at, hs_decoder calls the content handler once, with all of the body and
-- a zero behind it, when the bytes that were read make up the body's size; otherwise it calls nothing
-- and waits for more bytes.
pub decoder-BodyDecoded : (c : HsChannel) → InBody c → BodyDecoded c (decoder c)
unfolding decoder
decoder-BodyDecoded c i =
    let some_bytes : c.processing_end - c.decode_index
        ≡ suc (c.processing_end - suc c.decode_index) =
      omega (arith, i.more) in
    let loop =
      ap (λ n. decode_loop n c) some_bytes
      ∙ decode_loop-body (c.processing_end - suc c.decode_index) c (is_whole c) i refl in
    subst (λ r. BodyDecoded c (finish r)) (sym loop) (finish-BodyDecoded c (is_whole c) i refl)
