-- ===== src/Http/Io/Delivered.antt =====
-- A request that hs_io_read gets in any pieces.
use mw_race_service_mesh_c.Base.{
  ℕ, zero, suc, ◌+◌, ◌-◌, ◌<◌, ◌≡◌, refl, sym, ap, ap₂, ◌∙◌, subst, true, false, List, [], ◌∷◌,
  ◌++◌, append_assoc, append-nil, arith, ◌==◌, lt→ltb, ==_iff, length, set, drop, write_at, All,
  length-append, length-drop,
}
use mw_race_service_mesh_c.Base.Int.{pos, eqb_ℤ, sub_ℕ}
use mw_race_service_mesh_c.Base.Segments.{drop-append_past}
use mw_race_service_mesh_c.Http.Types.{HsChannel, Handled, content, content_handler_thread}
use mw_race_service_mesh_c.Http.Decoder.{decode_loop, finish, decoder}
use mw_race_service_mesh_c.Http.Decoder.Scan.{body, channel_at}
use mw_race_service_mesh_c.Http.Decoder.Body.{decode_loop-body, at_end, advanced, is_whole}
use mw_race_service_mesh_c.Http.Io.{Io, io, readable, decoded, bytes, io_read}
use mw_race_service_mesh_c.Http.Io.Pieces.{received, io_read-fits, write_at-append}

-- One hs_io_read for each piece that arrives, and the calls of the content handler.
abbrev pub reads : HsChannel → List (List ℕ) → HsChannel × List Handled
reads c [] = (c, [])
reads c (bs ∷ pieces) =
    let r = io_read c (bytes bs) in
    let (c', later) = reads r.channel pieces in (c', r.handled ++ later)

abbrev pub continue : Io → List (List ℕ) → HsChannel × List Handled
continue r pieces = ((reads r.channel pieces).0, r.handled ++ (reads r.channel pieces).1)

abbrev pub joined : List (List ℕ) → List ℕ
joined [] = []
joined (bs ∷ pieces) = bs ++ joined pieces

abbrev pub HasBytes : List ℕ → Type 0
HasBytes bs = 0 < length bs

-- The content handler is called once, with a body and a zero behind it.
abbrev pub Delivers : List ℕ → HsChannel × List Handled → Type 0
Delivers b (c, handled) =
    (rest : List ℕ) × (handled ≡ content (pos (length b)) (b ++ (0 ∷ rest)) ∷ [])

-- A channel in the body behind some bytes of the head, at an index.
abbrev pub in_body : HsChannel → ℕ → ℕ → ℕ → List ℕ → ℕ → List ℕ → HsChannel
in_body c start from n done i rest =
    record (channel_at c (body false start from (pos n) done) rest) { decode_index = i }

whole_iff : (l k n : ℕ) → eqb_ℤ (sub_ℕ (l + k) l) (pos n) ≡ (k == n)
whole_iff l k n = ground arith

finish-in_body :
    (c : HsChannel) (start from n : ℕ) (done : List ℕ) (i k m : ℕ) (rest : List ℕ)
    → i < c.processing_end
    → c.processing_end ≡ length done + k
    → k < length rest
    → decoded (finish (decode_loop (suc m) (in_body c start from n done i rest)))
      ≡ decoded (finish (advanced (at_end (in_body c start from n done i rest) (k == n)), []))
finish-in_body c start from n done i k m rest more e room =
    let d = in_body c start from n done i rest in
    let whole : is_whole d ≡ (k == n) = rw e (whole_iff (length done) k n) in
    ap (λ p. decoded (finish p))
      (decode_loop-body m d (k == n)
        (record {
          no_line = refl;
          no_head = refl;
          body = refl;
          not_done = refl;
          more = more;
          room = omega (arith, length-append done rest);
        })
        whole)

set-append_past :
    (i k : ℕ) (xs ys : List ℕ) → i ≡ length xs + k → set (xs ++ ys) i 0 ≡ xs ++ set ys k 0
set-append_past i k [] ys e = ap (λ j. set ys j 0) (omega arith)
set-append_past zero k (x ∷ xs) ys e = absurd (omega arith)
set-append_past (suc i) k (x ∷ xs) ys e = ap (◌∷◌ x) (set-append_past i k xs ys (omega arith))

rest_behind : List ℕ → List ℕ
rest_behind [] = []
rest_behind (x ∷ xs) = xs

-- A zero is written behind the body.
ends_in_zero :
    (b junk : List ℕ) (k : ℕ)
    → k ≡ length b
    → 0 < length junk
    → set (b ++ junk) k 0 ≡ b ++ (0 ∷ rest_behind junk)
unfolding rest_behind
ends_in_zero b [] k e h = absurd (omega arith)
ends_in_zero b (x ∷ junk) k e h = set-append_past k 0 b (x ∷ junk) (omega arith)

-- The last piece of a body.
last_piece :
    (c : HsChannel) (start from n : ℕ) (done : List ℕ) (i m : ℕ) (b junk : List ℕ)
    → i < c.processing_end
    → c.processing_end ≡ length done + length b
    → n ≡ length b
    → 0 < length junk
    → Delivers b (
        continue
          (decoded (finish (decode_loop (suc m) (in_body c start from n done i (b ++ junk)))))
          [])
unfolding content_handler_thread
last_piece c start from n done i m b junk more e en room =
    let d = in_body c start from n done i (b ++ junk) in
    let whole : (length b == n) ≡ true = (==_iff (length b) n).1 (sym en) in
    let inside =
      lt→ltb c.processing_end (length (done ++ (b ++ junk)))
        (omega (arith, length-append done (b ++ junk), length-append b junk)) in
    let bytes_of_body : drop (length done) (set (done ++ (b ++ junk)) c.processing_end 0)
        ≡ b ++ (0 ∷ rest_behind junk) =
      ap (drop (length done)) (set-append_past c.processing_end (length b) done (b ++ junk) e)
      ∙ drop-append_past (length done) 0 done (set (b ++ junk) (length b) 0) (omega arith)
      ∙ ends_in_zero b junk (length b) refl room in
    (
      rest_behind junk,
      ap (λ r. (continue r []).1)
            (finish-in_body c start from n done i (length b) m (b ++ junk) more e
              (omega (arith, length-append b junk)))
          ∙ ap (λ w. (finish (advanced (at_end d w), [])).1 ++ []) whole
          ∙ (rw inside refl)
          ∙ ap₂ (λ k bs. content (pos k) bs ∷ []) en bytes_of_body,
    )

-- A piece that is not the last one of a body.
more_pieces :
    (c : HsChannel) (start from n : ℕ) (done : List ℕ) (i k m : ℕ) (rest : List ℕ)
    → i < c.processing_end
    → c.processing_end ≡ length done + k
    → k < length rest
    → k < n
    → decoded (finish (decode_loop (suc m) (in_body c start from n done i rest)))
      ≡ io (in_body c start from n done c.processing_end rest) [] [] readable
unfolding content_handler_thread
more_pieces c start from n done i k m rest more e room part =
    let d = in_body c start from n done i rest in
    let not_whole : (k == n) ≡ false = ground arith in
    finish-in_body c start from n done i k m rest more e room
    ∙ ap (λ w. decoded (finish (advanced (at_end d w), []))) not_whole
    ∙ ap (λ j. io (in_body c start from n done j rest) [] [] readable) (omega arith)

io_read-in_body :
    (c : HsChannel) (start from n : ℕ) (done b junk bs : List ℕ)
    → c.read_index ≡ length done + length b
    → c.read_index + length bs < c.buffer_size
    → io_read (in_body c start from n done c.read_index (b ++ junk)) (bytes bs)
      ≡ decoded (
          finish (
            decode_loop (length bs) (
              in_body
                (received c bs)
                start
                from
                n
                done
                c.read_index
                ((b ++ bs) ++ drop (length bs) junk))))
unfolding decoder
io_read-in_body c start from n done b junk bs e room =
    let junk1 = drop (length bs) junk in
    io_read-fits (in_body c start from n done c.read_index (b ++ junk)) bs
      (done ++ ((b ++ bs) ++ junk1)) room
      (ap (λ x. write_at x c.read_index bs) (sym (append_assoc done b junk))
        ∙ write_at-append c.read_index (done ++ b) junk bs (omega (arith, length-append done b))
        ∙ append_assoc done b (bs ++ junk1)
        ∙ ap (◌++◌ done) (sym (append_assoc b bs junk1)))
    ∙ ap
        (λ m. decoded (
          finish (
            decode_loop m
              (in_body (received c bs) start from n done c.read_index ((b ++ bs) ++ junk1)))))
        {x = c.read_index + length bs - c.read_index} (omega arith)

-- The pieces behind one that has bytes of the body.
pub after :
    (pieces : List (List ℕ)) (c : HsChannel) (start from n : ℕ) (done : List ℕ) (i m : ℕ)
    (b junk : List ℕ)
    → c.read_index ≡ length done + length b
    → c.processing_end ≡ c.read_index
    → i < c.processing_end
    → n ≡ length b + length (joined pieces)
    → length (joined pieces) < length junk
    → c.read_index + length (joined pieces) < c.buffer_size
    → All HasBytes pieces
    → Delivers (b ++ joined pieces) (
        continue
          (decoded (finish (decode_loop (suc m) (in_body c start from n done i (b ++ junk)))))
          pieces)
after [] c start from n done i m b junk e pe more en room fits full =
    subst
      (λ x. Delivers x (
        continue
          (decoded (finish (decode_loop (suc m) (in_body c start from n done i (b ++ junk))))) []))
      (sym (append-nil b))
      (last_piece c start from n done i m b junk more (omega arith) (omega arith) room)
after ([] ∷ ps) c start from n done i m b junk e pe more en room fits full =
    absurd (omega (arith, full.0))
after ((x ∷ p) ∷ ps) c start from n done i m b junk e pe more en room fits full =
    let bs = x ∷ p in
    let count = length-append bs (joined ps) in
    let rest = drop (length bs) junk in
    let later =
      after ps (received c bs) start from n done c.read_index (length p) (b ++ bs) rest
        (omega (arith, length-append b bs)) refl (omega arith)
        (omega (arith, length-append b bs, count))
        (omega (arith, count, length-drop (length bs) junk)) (omega (arith, count)) full.1 in
    let now =
      more_pieces c start from n done i (length b) m (b ++ junk) more (omega arith)
        (omega (arith, length-append b junk)) (omega (arith, count)) in
    let again =
      ap (λ j. io_read (in_body c start from n done j (b ++ junk)) (bytes bs)) pe
      ∙ io_read-in_body c start from n done b junk bs e (omega (arith, count)) in
    subst
      (λ (y : List ℕ). Delivers y (
        continue
          (decoded (finish (decode_loop (suc m) (in_body c start from n done i (b ++ junk)))))
          (bs ∷ ps)))
      (append_assoc b bs (joined ps))
      (subst (λ (r : Io). Delivers ((b ++ bs) ++ joined ps) (continue r (bs ∷ ps))) (sym now)
        (subst (λ (r : Io). Delivers ((b ++ bs) ++ joined ps) (continue r ps)) (sym again) later))
