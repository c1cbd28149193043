-- ===== src/Http/Io/Requests.antt =====
-- A whole request that hs_io_read gets in any pieces.
use mw_race_service_mesh_c.Base.{
  ℕ, suc, ◌+◌, ◌<◌, ◌≡◌, refl, sym, ap, ◌∙◌, subst, false, List, [], ◌∷◌, ◌++◌, arith, length, drop,
  All, length-append, length-drop,
}
use mw_race_service_mesh_c.Base.Int.{pos}
use mw_race_service_mesh_c.Http.Types.{HsChannel, Handled, init_channel}
use mw_race_service_mesh_c.Http.Decoder.{decode_loop, finish}
use mw_race_service_mesh_c.Http.Decoder.Scan.{
  Scan, line, key, value, body, scan, scans, channel_at, FitsAll, looked_at,
}
use mw_race_service_mesh_c.Http.Decoder.Runs.{length-looked_at}
use mw_race_service_mesh_c.Http.Decoder.Heads.{Header, IsHead, head_bytes, content_length}
use mw_race_service_mesh_c.Http.Decoder.Heads.Parsed.{Runs}
use mw_race_service_mesh_c.Http.Decoder.Heads.Read.{head-AtBody}
use mw_race_service_mesh_c.Http.Io.{Io, decoded, bytes, io_read}
use mw_race_service_mesh_c.Http.Io.Pieces.{received, io_read-head_part, io_read-in_head}
use mw_race_service_mesh_c.Http.Io.Delivered.{
  reads, joined, HasBytes, Delivers, continue, in_body, after,
}

-- Where a first part of some bytes ends: within a part of them, or behind it.
data Splits (xs ys us vs : List ℕ) : Type 0 where
  within : (ws : List ℕ) → us ≡ xs ++ ws → ys ≡ ws ++ vs → Splits xs ys us vs
  past : (w : ℕ) (ws : List ℕ) → xs ≡ us ++ (w ∷ ws) → vs ≡ (w ∷ ws) ++ ys → Splits xs ys us vs

split : (xs ys us vs : List ℕ) → xs ++ ys ≡ us ++ vs → Splits xs ys us vs
split [] ys us vs e = within us refl e
split (x ∷ xs) ys [] vs e = past x xs refl (sym e)
split (x ∷ xs) ys (u ∷ us) vs e = elim (split xs ys us vs (cc)) [
  | within ws p q ↦ within ws (cc) q
  | past w ws p q ↦ past w ws (cc) q
]

FitsAll-split :
    (s : Scan) (xs ys : List ℕ)
    → FitsAll s (xs ++ ys)
    → FitsAll s xs × FitsAll (scans s xs) ys × (scans s (xs ++ ys) ≡ scans (scans s xs) ys)
FitsAll-split s [] ys f = (tt, f, refl)
FitsAll-split s (x ∷ xs) ys f =
    let (a, b, e) = FitsAll-split (scan s x) xs ys f.1 in ((f.0, a), b, e)

-- The piece that ends the head has bytes of the body.
deliver-past :
    (c : HsChannel) (s : Scan) (junk hd : List ℕ) (w : ℕ) (ws : List ℕ) (ps : List (List ℕ))
    (start from : ℕ) (done : List ℕ) (n : ℕ)
    → n ≡ length ((w ∷ ws) ++ joined ps)
    → Runs s hd (body false start from (pos n) done)
    → c.read_index ≡ length (looked_at s)
    → length hd + n < length junk
    → c.read_index + length hd + n < c.buffer_size
    → All HasBytes ps
    → Delivers ((w ∷ ws) ++ joined ps) (reads (channel_at c s junk) ((hd ++ (w ∷ ws)) ∷ ps))
deliver-past c s junk hd w ws ps start from done n en runs e room fits full =
    let p = hd ++ (w ∷ ws) in
    let c1 = received c p in
    let rest = drop (length p) junk in
    let size = length-append hd (w ∷ ws) in
    let count = length-append ws (joined ps) in
    let head_size : length done ≡ length (looked_at s) + length hd =
      ap (λ t. length (looked_at t)) (sym runs.ends) ∙ length-looked_at hd s runs.fits in
    let first : io_read (channel_at c s junk) (bytes p)
        ≡ decoded (
            finish (
              decode_loop (suc (length ws))
                (in_body c1 start from n done (length done) ((w ∷ ws) ++ rest)))) =
      io_read-head_part c s junk hd (w ∷ ws) runs.fits e (omega (arith, size, count))
      ∙ ap
          (λ t.
            decoded (finish (decode_loop (suc (length ws)) (channel_at c1 t ((w ∷ ws) ++ rest)))))
          runs.ends in
    subst (λ (r : Io). Delivers ((w ∷ ws) ++ joined ps) (continue r ps)) (sym first)
      (after ps c1 start from n done (length done) (length ws) (w ∷ ws) rest (omega (arith, size))
        refl (omega (arith, size)) (omega (arith, count))
        (omega (arith, size, count, length-drop (length p) junk)) (omega (arith, size, count)) full)

deliver :
    (pieces : List (List ℕ)) (c : HsChannel) (s : Scan) (junk hd b : List ℕ) (start from : ℕ)
    (done : List ℕ)
    → Runs s hd (body false start from (pos (length b)) done)
    → c.read_index ≡ length (looked_at s)
    → joined pieces ≡ hd ++ b
    → 0 < length b
    → length hd + length b < length junk
    → c.read_index + length hd + length b < c.buffer_size
    → All HasBytes pieces
    → Delivers b (reads (channel_at c s junk) pieces)
deliver [] c s junk hd b start from done runs e same some_body room fits full =
    absurd (omega (arith, ap length same, length-append hd b))
deliver (p ∷ ps) c s junk hd b start from done runs e same some_body room fits full =
    elim (split p (joined ps) hd b same) [
      | within hd' is_head rest ↦
          let (f, g, h) = FitsAll-split s p hd' (subst (FitsAll s) is_head runs.fits) in
          let size = ap length is_head ∙ length-append p hd' in
          let c1 = received c p in
          let first = io_read-in_head c s junk p f e (omega (arith, size)) in
          let later =
            deliver ps c1 (scans s p) (drop (length p) junk) hd' b start from done
              (record { fits = g; ends = sym h ∙ ap (scans s) (sym is_head) ∙ runs.ends })
              (omega (arith, length-looked_at p s f)) rest some_body
              (omega (arith, size, length-drop (length p) junk)) (omega (arith, size)) full.1 in
          subst (λ (r : Io). Delivers b (continue r ps)) (sym first) later
      | past w ws is_piece is_body ↦
          subst (λ (x : List ℕ). Delivers b (reads (channel_at c s junk) (x ∷ ps))) (sym is_piece)
            (subst
              (λ (x : List ℕ). Delivers x (reads (channel_at c s junk) ((hd ++ (w ∷ ws)) ∷ ps)))
              (sym is_body)
              (deliver-past c s junk hd w ws ps start from done (length b) (ap length is_body) runs
                e room fits full.1))
    ]

-- A request on a channel that is ready for one, in whatever pieces it arrives: the content handler is
-- called once, when all of the request is there, with the body and a zero behind it. The request
-- is no GET, has a body, and has a header for its length; the buffer has room for more than it.
pub request-Delivers :
    (c : HsChannel) (request_line : List ℕ) (hs : List Header) (b : List ℕ) (pieces : List (List ℕ))
    → IsHead request_line hs
    → content_length (pos 0) hs ≡ pos (length b)
    → 0 < length b
    → joined pieces ≡ head_bytes request_line hs ++ b
    → All HasBytes pieces
    → length (head_bytes request_line hs) + length b < c.buffer_size
    → length c.buffer ≡ c.buffer_size
    → Delivers b (reads (init_channel c) pieces)
unfolding init_channel
request-Delivers c request_line hs b pieces head size some_body same full fits sized =
    let a = head-AtBody request_line hs head in
    deliver pieces (init_channel c) (line []) c.buffer (head_bytes request_line hs) b a.start a.from
      a.done
      (subst (λ n. Runs (line []) (head_bytes request_line hs) (body false a.start a.from n a.done))
        size a.runs)
      refl same some_body (omega arith) (omega arith) full

-- The channel waits for more.
abbrev pub Silent : HsChannel × List Handled → Type 0
Silent (c, handled) = (handled ≡ []) × (c.is_read_done ≡ false)

silent :
    (pieces : List (List ℕ)) (c : HsChannel) (s : Scan) (junk hd : List ℕ)
    → FitsAll s hd
    → c.read_index ≡ length (looked_at s)
    → joined pieces ≡ hd
    → c.read_index + length hd < c.buffer_size
    → Silent (reads (channel_at c s junk) pieces)
silent [] c s junk hd f e same fits = (refl, quiet s)
  where
    quiet : (s : Scan) → (channel_at c s junk).is_read_done ≡ false
    quiet (line done) = refl
    quiet (key len start from size done) = refl
    quiet (value len start from size done) = refl
    quiet (body len start from size done) = refl
silent (p ∷ ps) c s junk hd f e same fits =
    let (g, h, q) = FitsAll-split s p (joined ps) (subst (FitsAll s) (sym same) f) in
    let size = ap length (sym same) ∙ length-append p (joined ps) in
    let first = io_read-in_head c s junk p g e (omega (arith, size)) in
    subst (λ (r : Io). Silent (continue r ps)) (sym first)
      (silent ps (received c p) (scans s p) (drop (length p) junk) (joined ps) h
        (omega (arith, length-looked_at p s g)) refl (omega (arith, size)))

-- A request that is no GET and has no body is never handled, in whatever pieces its head arrives and
-- whatever its headers say of a length: the channel waits for bytes of the body.
pub request-Silent :
    (c : HsChannel) (request_line : List ℕ) (hs : List Header) (pieces : List (List ℕ))
    → IsHead request_line hs
    → joined pieces ≡ head_bytes request_line hs
    → length (head_bytes request_line hs) < c.buffer_size
    → Silent (reads (init_channel c) pieces)
unfolding init_channel
request-Silent c request_line hs pieces head same fits =
    let a = head-AtBody request_line hs head in
    silent pieces (init_channel c) (line []) c.buffer (head_bytes request_line hs) a.runs.fits refl
      same (omega arith)
