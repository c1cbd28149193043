-- ===== src/Http/Decoder/Runs.antt =====
-- The loop of hs_decoder in the head of a request runs the automaton.
use mw_race_service_mesh_c.Base.{
  ℕ, zero, suc, ◌+◌, ◌≤◌, ◌<◌, ◌≡◌, refl, ap, ◌∙◌, inl, inr, List, [], ◌∷◌, ◌++◌, arith, ◌==◌,
  lt→ltb, Bool-cases, length, set, length-set,
}
use mw_race_service_mesh_c.Http.Types.{HsChannel, Handled}
use mw_race_service_mesh_c.Http.Decoder.{decode_byte, decode_loop}
use mw_race_service_mesh_c.Http.Decoder.Scan.{
  Scan, line, key, value, body, scan, channel_at, Fits, FitsAll, scans, looked_at, advance,
}
use mw_race_service_mesh_c.Http.Decoder.Scanned.{length-lowered, length-snoc, decode_byte-scan}

length-looked_at-scan :
    (s : Scan) (b : ℕ) → Fits s b → length (looked_at (scan s b)) ≡ suc (length (looked_at s))
length-looked_at-scan (line done) b fits = elim (Bool-cases (b == 13)) [
  | inl cr ↦ rw cr (length-snoc (set done 3 0) 0 ∙ ap suc (length-set done 3 0))
  | inr no_cr ↦ elim (Bool-cases (b == 10)) [
    | inl lf ↦ rw (no_cr, lf) (length-snoc done b)
    | inr other ↦ rw (no_cr, other) (length-snoc done b)
  ]
]
length-looked_at-scan (key len start from size done) b fits = elim (Bool-cases (b == 58)) [
  | inl colon ↦ rw colon (length-lowered start done fits)
  | inr no_colon ↦ elim (Bool-cases (b == 10)) [
    | inl lf ↦ rw (no_colon, lf) (length-snoc done b)
    | inr other ↦ rw (no_colon, other) (length-snoc done b)
  ]
]
length-looked_at-scan (value len start from size done) b fits = elim (Bool-cases (b == 13)) [
  | inl cr ↦ elim (Bool-cases len) [
    | inl yes_len ↦ rw (cr, yes_len) (length-snoc done 0)
    | inr no_len ↦ rw (cr, no_len) (length-snoc done b)
  ]
  | inr no_cr ↦ elim (Bool-cases (b == 10)) [
    | inl lf ↦ rw (no_cr, lf) (length-snoc done b)
    | inr other ↦ rw (no_cr, other) (length-snoc done b)
  ]
]
length-looked_at-scan (body len start from size done) b fits = elim fits [ ]

-- The rest of the loop, with what was called before it.
abbrev goes_on : ℕ → HsChannel × List Handled → HsChannel × List Handled
goes_on n (c, handled) = ((decode_loop n c).0, handled ++ (decode_loop n c).1)

at_index :
    (c : HsChannel) (s : Scan) (r : List ℕ) → (channel_at c s r).decode_index ≡ length (looked_at s)
at_index c (line done) r = refl
at_index c (key len start from size done) r = refl
at_index c (value len start from size done) r = refl
at_index c (body len start from size done) r = refl

at_end :
    (c : HsChannel) (s : Scan) (r : List ℕ) → (channel_at c s r).processing_end ≡ c.processing_end
at_end c (line done) r = refl
at_end c (key len start from size done) r = refl
at_end c (value len start from size done) r = refl
at_end c (body len start from size done) r = refl

loop_round :
    (n : ℕ) (c : HsChannel)
    → c.decode_index < c.processing_end
    → decode_loop (suc n) c ≡ goes_on n (advance (decode_byte c))
unfolding decode_loop
loop_round n c h = rw (lt→ltb c.decode_index c.processing_end h) refl

-- The loop of hs_decoder runs the automaton on the bytes of a head, however many were read, and calls
-- nothing.
pub decode_loop-scans :
    (bs : List ℕ) (c : HsChannel) (s : Scan) (r : List ℕ) (n m : ℕ)
    → FitsAll s bs
    → m ≡ length bs + n
    → length (looked_at s) + length bs ≤ c.processing_end
    → decode_loop m (channel_at c s (bs ++ r)) ≡ decode_loop n (channel_at c (scans s bs) r)
decode_loop-scans [] c s r n m fits e h = ap (λ k. decode_loop k (channel_at c s r)) (omega arith)
decode_loop-scans (b ∷ bs) c s r n zero fits e h = absurd (omega arith)
decode_loop-scans (b ∷ bs) c s r n (suc m) fits e h =
    loop_round m (channel_at c s (b ∷ (bs ++ r)))
      (omega (arith, at_index c s (b ∷ (bs ++ r)), at_end c s (b ∷ (bs ++ r))))
    ∙ ap (goes_on m) (decode_byte-scan c s b (bs ++ r) fits.0)
    ∙ decode_loop-scans bs c (scan s b) r n m fits.1 (omega arith)
        (omega (arith, length-looked_at-scan s b fits.0))

pub length-looked_at :
    (bs : List ℕ) (s : Scan)
    → FitsAll s bs
    → length (looked_at (scans s bs)) ≡ length (looked_at s) + length bs
length-looked_at [] s fits = omega arith
length-looked_at (b ∷ bs) s fits =
    omega (arith, length-looked_at bs (scan s b) fits.1, length-looked_at-scan s b fits.0)
