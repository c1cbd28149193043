-- ===== src/Http/Io/Pieces.antt =====
-- hs_io_read on a piece of a request.
use mw_race_service_mesh_c.Base.{
  ℕ, ◌+◌, ◌-◌, ◌<◌, min, ◌≡◌, refl, sym, ap, ap₂, ◌∙◌, subst, List, [], ◌++◌, append_assoc,
  append-nil, arith, lt→not_leb, length, drop, write_at, length-append,
}
use mw_race_service_mesh_c.Base.Segments.{take_all, drop-append_past, take-append_exact}
use mw_race_service_mesh_c.Http.Types.{HsChannel, content_handler_thread}
use mw_race_service_mesh_c.Http.Decoder.{decode_loop, finish, decoder}
use mw_race_service_mesh_c.Http.Decoder.Scan.{
  Scan, line, key, value, body, scans, channel_at, FitsAll, looked_at,
}
use mw_race_service_mesh_c.Http.Decoder.Runs.{decode_loop-scans}
use mw_race_service_mesh_c.Http.Io.{io, readable, decoded, bytes, io_read}

-- What hs_io_read does to the counters.
abbrev pub received : HsChannel → List ℕ → HsChannel
received c bs = record c {
  read_index = c.read_index + length bs;
  processing_end = c.read_index + length bs;
}

pub io_read-fits :
    (c : HsChannel) (bs buf : List ℕ)
    → c.read_index + length bs < c.buffer_size
    → write_at c.buffer c.read_index bs ≡ buf
    → io_read c (bytes bs) ≡ decoded (decoder (record (received c bs) { buffer = buf }))
unfolding io_read
io_read-fits c bs buf h e =
    let n : min (length bs) (c.buffer_size - c.read_index) ≡ length bs = omega arith in
    rw n (
      rw (take_all (length bs) bs (omega arith))
        (rw (lt→not_leb c.buffer_size (c.read_index + length bs) h) (rw e refl)))

pub write_at-append :
    (i : ℕ) (xs ys bs : List ℕ)
    → i ≡ length xs
    → write_at (xs ++ ys) i bs ≡ xs ++ (bs ++ drop (length bs) ys)
write_at-append i xs ys bs e =
    ap₂ ◌++◌ (take-append_exact i xs ys e)
      (ap (◌++◌ bs) (drop-append_past (i + length bs) (length bs) xs ys (omega arith)))

-- hs_io_read on a channel in the head writes the bytes behind those that are there.
io_read-head :
    (c : HsChannel) (s : Scan) (junk bs : List ℕ)
    → c.read_index ≡ length (looked_at s)
    → c.read_index + length bs < c.buffer_size
    → io_read (channel_at c s junk) (bytes bs)
      ≡ decoded (decoder (channel_at (received c bs) s (bs ++ drop (length bs) junk)))
io_read-head c (line done) junk bs e h =
    io_read-fits (channel_at c (line done) junk) bs _ h
      (write_at-append c.read_index done junk bs e)
io_read-head c (key len start from size done) junk bs e h =
    io_read-fits (channel_at c (key len start from size done) junk) bs _ h
      (write_at-append c.read_index done junk bs e)
io_read-head c (value len start from size done) junk bs e h =
    io_read-fits (channel_at c (value len start from size done) junk) bs _ h
      (write_at-append c.read_index done junk bs e)
io_read-head c (body len start from size done) junk bs e h =
    io_read-fits (channel_at c (body len start from size done) junk) bs _ h
      (write_at-append c.read_index done junk bs e)

not_done :
    (c : HsChannel) (s : Scan) (r : List ℕ)
    → decoded (finish (channel_at c s r, [])) ≡ io (channel_at c s r) [] [] readable
unfolding content_handler_thread
not_done c (line done) r = refl
not_done c (key len start from size done) r = refl
not_done c (value len start from size done) r = refl
not_done c (body len start from size done) r = refl

rounds :
    (c : HsChannel) (s : Scan) (r : List ℕ)
    → (channel_at c s r).processing_end - (channel_at c s r).decode_index
      ≡ c.processing_end - length (looked_at s)
rounds c (line done) r = refl
rounds c (key len start from size done) r = refl
rounds c (value len start from size done) r = refl
rounds c (body len start from size done) r = refl

-- A piece that starts in the head: the automaton runs on the part of it that belongs to the head.
pub io_read-head_part :
    (c : HsChannel) (s : Scan) (junk bs rest : List ℕ)
    → FitsAll s bs
    → c.read_index ≡ length (looked_at s)
    → c.read_index + length (bs ++ rest) < c.buffer_size
    → io_read (channel_at c s junk) (bytes (bs ++ rest))
      ≡ decoded (
          finish (
            decode_loop (length rest) (
              channel_at
                (received c (bs ++ rest))
                (scans s bs)
                (rest ++ drop (length (bs ++ rest)) junk))))
unfolding decoder
io_read-head_part c s junk bs rest fits e h =
    let c1 = received c (bs ++ rest) in
    let junk1 = drop (length (bs ++ rest)) junk in
    io_read-head c s junk (bs ++ rest) e h
    ∙ ap (λ r. decoded (decoder (channel_at c1 s r))) (append_assoc bs rest junk1)
    ∙ ap (λ p. decoded (finish p))
        (decode_loop-scans bs c1 s (rest ++ junk1) (length rest) _ fits
          (omega (arith, rounds c1 s (bs ++ (rest ++ junk1)), length-append bs rest))
          (omega (arith, length-append bs rest)))

-- A piece within the head.
pub io_read-in_head :
    (c : HsChannel) (s : Scan) (junk bs : List ℕ)
    → FitsAll s bs
    → c.read_index ≡ length (looked_at s)
    → c.read_index + length bs < c.buffer_size
    → io_read (channel_at c s junk) (bytes bs)
      ≡ io (channel_at (received c bs) (scans s bs) (drop (length bs) junk)) [] [] readable
unfolding decode_loop
io_read-in_head c s junk bs fits e h =
    ap (λ x. io_read (channel_at c s junk) (bytes x)) (sym (append-nil bs))
    ∙ io_read-head_part c s junk bs [] fits e
        (subst (λ x. c.read_index + length x < c.buffer_size) (sym (append-nil bs)) h)
    ∙ ap
        (λ x.
          decoded (
            finish (decode_loop 0 (channel_at (received c x) (scans s bs) (drop (length x) junk)))))
        (append-nil bs)
    ∙ not_done (received c bs) (scans s bs) (drop (length bs) junk)
