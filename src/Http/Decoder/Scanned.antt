-- ===== src/Http/Decoder/Scanned.antt =====
-- A round of hs_decoder in the head of a request is a step of the automaton.
use mw_race_service_mesh_c.Base.{
  ℕ, zero, suc, ◌+◌, ◌≤◌, ◌≡◌, refl, sym, ap, ap₂, ◌∙◌, inl, inr, Bool, true, false, List, [], ◌∷◌,
  ◌++◌, append_assoc, arith, ◌==◌, Bool-cases, length, set, take, drop, length-append, length-set,
  length-take, length-drop,
}
use mw_race_service_mesh_c.Base.Int.{ℤ, pos}
use mw_race_service_mesh_c.Base.CString.{atoi, c_string, str_eq}
use mw_race_service_mesh_c.Base.Segments.{get_or-append_at, set-append_at, drop-append_past}
use mw_race_service_mesh_c.Http.Types.{HsChannel, tolower, lower}
use mw_race_service_mesh_c.Http.Decoder.{
  get_method, content_length_key, decode_line, decode_key, decode_value, decode_byte,
}
use mw_race_service_mesh_c.Http.Decoder.Scan.{
  Scan, line, key, value, body, scan, channel_at, in_head, Fits, advance,
}

pub c_string-append_zero : (xs r : List ℕ) → c_string (xs ++ (0 ∷ r)) ≡ c_string xs
c_string-append_zero [] r = refl
c_string-append_zero (x ∷ xs) r = rw (c_string-append_zero xs r)

tolower-append_zero : (xs r : List ℕ) → tolower (xs ++ (0 ∷ r)) ≡ tolower xs ++ (0 ∷ r)
unfolding tolower
tolower-append_zero [] r = refl
tolower-append_zero (x ∷ xs) r = elim (Bool-cases (x == 0)) [
  | inl z ↦ rw z refl
  | inr n ↦ rw n (ap (◌∷◌ (lower x)) (tolower-append_zero xs r))
]

set-append_before :
    (i : ℕ) (xs r : List ℕ) → i ≤ length xs → set (xs ++ (0 ∷ r)) i 0 ≡ set xs i 0 ++ (0 ∷ r)
set-append_before zero [] r h = refl
set-append_before zero (x ∷ xs) r h = refl
set-append_before (suc i) [] r h = absurd (omega arith)
set-append_before (suc i) (x ∷ xs) r h = ap (◌∷◌ x) (set-append_before i xs r (omega arith))

pub length-snoc : (xs : List ℕ) (b : ℕ) → length (xs ++ (b ∷ [])) ≡ suc (length xs)
length-snoc xs b = omega (arith, length-append xs (b ∷ []))

-- The channel behind a byte that is left as it is, or is replaced by a zero.
behind :
    (c : HsChannel) (l h k len : Bool) (start from : ℕ) (size : ℤ) (done : List ℕ) (b : ℕ)
    (r : List ℕ)
    → record (in_head c l h k len start from size done (b ∷ r)) { decode_index = suc (length done) }
      ≡ in_head c l h k len start from size (done ++ (b ∷ [])) r
behind c l h k len start from size done b r =
    ap₂
      (λ i buf. record (in_head c l h k len start from size done (b ∷ r)) {
        decode_index = i;
        buffer = buf;
      })
      (sym (length-snoc done b)) (sym (append_assoc done (b ∷ []) r))

line_step :
    (c : HsChannel) (done : List ℕ) (b : ℕ) (r : List ℕ)
    → Fits (line done) b
    → advance (decode_line (channel_at c (line done) (b ∷ r)) b)
      ≡ (channel_at c (scan (line done) b) r, [])
unfolding decode_line
line_step c done b r fits = elim (Bool-cases (b == 13)) [
  | inl cr ↦
      let (three, no_get) = fits cr in
      let e : set (set (done ++ (b ∷ r)) (length done) 0) 3 0 ≡ set done 3 0 ++ (0 ∷ r) =
        ap (λ x. set x 3 0) (set-append_at done b r 0) ∙ set-append_before 3 done r three in
      let other : str_eq get_method (c_string (set done 3 0 ++ (0 ∷ r))) ≡ false =
        ap (str_eq get_method) (c_string-append_zero (set done 3 0) r) ∙ no_get in
      rw cr (
        rw e (
          rw other (
            ap (λ d. (d, []))
              (ap
                  (λ i. record (in_head c true true true false 0 0 (pos 0) (set done 3 0) (0 ∷ r)) {
                    decode_index = suc i;
                  })
                  (sym (length-set done 3 0))
                ∙ behind c true true true false 0 0 (pos 0) (set done 3 0) 0 r))))
  | inr no_cr ↦ elim (Bool-cases (b == 10)) [
    | inl lf ↦
        rw (no_cr, lf)
          (ap (λ d. (d, []))
            (ap
                (λ i. record (in_head c true true true false 0 0 (pos 0) done (b ∷ r)) {
                  is_line = false;
                  key_start = i;
                  decode_index = suc (length done);
                })
                (omega arith)
              ∙ behind c false true true false (length done + 1) 0 (pos 0) done b r))
    | inr other ↦
        rw (no_cr, other) (ap (λ d. (d, [])) (behind c true true true false 0 0 (pos 0) done b r))
  ]
]

take-append_before : (n : ℕ) (xs ys : List ℕ) → n ≤ length xs → take n (xs ++ ys) ≡ take n xs
take-append_before zero xs ys h = refl
take-append_before (suc n) [] ys h = absurd (omega arith)
take-append_before (suc n) (x ∷ xs) ys h = ap (◌∷◌ x) (take-append_before n xs ys (omega arith))

drop-append_before : (n : ℕ) (xs ys : List ℕ) → n ≤ length xs → drop n (xs ++ ys) ≡ drop n xs ++ ys
drop-append_before zero xs ys h = refl
drop-append_before (suc n) [] ys h = absurd (omega arith)
drop-append_before (suc n) (x ∷ xs) ys h = drop-append_before n xs ys (omega arith)

length-tolower : (xs : List ℕ) → length (tolower xs) ≡ length xs
unfolding tolower
length-tolower [] = refl
length-tolower (x ∷ xs) = elim (Bool-cases (x == 0)) [
  | inl z ↦ rw z refl
  | inr n ↦ rw n (ap suc (length-tolower xs))
]

-- The buffer that a colon leaves.
abbrev pub lowered : ℕ → List ℕ → List ℕ → List ℕ
lowered start done r = take start done ++ (tolower (drop start done) ++ (0 ∷ r))

colon_buffer :
    (start : ℕ) (done : List ℕ) (b : ℕ) (r : List ℕ)
    → start ≤ length done
    → take start (set (done ++ (b ∷ r)) (length done) 0)
        ++ tolower (drop start (set (done ++ (b ∷ r)) (length done) 0))
      ≡ lowered start done r
colon_buffer start done b r h =
    ap (λ x. take start x ++ tolower (drop start x)) (set-append_at done b r 0)
    ∙ ap₂ ◌++◌ (take-append_before start done (0 ∷ r) h) (
        ap tolower (drop-append_before start done (0 ∷ r) h)
        ∙ tolower-append_zero (drop start done) r)

colon_string :
    (start : ℕ) (done : List ℕ) (r : List ℕ)
    → start ≤ length done
    → c_string (drop start (lowered start done r)) ≡ c_string (tolower (drop start done))
colon_string start done r h =
    ap c_string
      (drop-append_past start 0 (take start done) _ (omega (arith, length-take start done)))
    ∙ c_string-append_zero (tolower (drop start done)) r

pub length-lowered :
    (start : ℕ) (done : List ℕ)
    → start ≤ length done
    → length (lowered start done []) ≡ suc (length done)
length-lowered start done h = omega (
  arith,
  length-append (take start done) (tolower (drop start done) ++ (0 ∷ [])),
  length-append (tolower (drop start done)) (0 ∷ []),
  length-tolower (drop start done),
  length-take start done,
  length-drop start done,
)

behind_colon :
    (c : HsChannel) (len : Bool) (start : ℕ) (size : ℤ) (done : List ℕ) (r : List ℕ)
    → start ≤ length done
    → record (in_head c false true false len start (length done + 1) size done r) {
      decode_index = suc (length done);
      buffer = lowered start done r;
    }
      ≡ in_head c false true false len start (length done + 1) size (lowered start done []) r
behind_colon c len start size done r h =
    ap₂
      (λ i buf. record (in_head c false true false len start (length done + 1) size done r) {
        decode_index = i;
        buffer = buf;
      })
      (sym (length-lowered start done h))
      (sym (
        append_assoc (take start done) (tolower (drop start done) ++ (0 ∷ [])) r
        ∙ ap (◌++◌ (take start done)) (append_assoc (tolower (drop start done)) (0 ∷ []) r)))

key_step :
    (c : HsChannel) (len : Bool) (start from : ℕ) (size : ℤ) (done : List ℕ) (b : ℕ) (r : List ℕ)
    → start ≤ length done
    → (let d = decode_key (channel_at c (key len start from size done) (b ∷ r)) b in
        record d { decode_index = suc d.decode_index })
      ≡ channel_at c (scan (key len start from size done) b) r
unfolding decode_key
key_step c len start from size done b r h = elim (Bool-cases (b == 58)) [
  | inl colon ↦ rw colon (
      rw (colon_buffer start done b r h) (
        rw (colon_string start done r h)
          (elim (Bool-cases (str_eq (c_string (tolower (drop start done))) content_length_key)) [
            | inl found ↦ rw found (behind_colon c true start size done r h)
            | inr other ↦ rw other (behind_colon c len start size done r h)
          ])))
  | inr no_colon ↦ elim (Bool-cases (b == 10)) [
    | inl lf ↦
        rw (no_colon, lf)
          (ap (λ (d : HsChannel). record d { is_head = false; body_start = length done + 1 })
              (behind c false true true len start from size done b r)
            ∙ ap
                (λ i. record (in_head c false false true len start from size (done ++ (b ∷ [])) r) {
                  body_start = i;
                })
                (omega (arith, length-snoc done b)))
    | inr other ↦ rw (no_colon, other) (behind c false true true len start from size done b r)
  ]
]

value_end :
    (c : HsChannel) (len : Bool) (start from : ℕ) (size : ℤ) (done : List ℕ) (b : ℕ) (r : List ℕ)
    → from ≤ length done
    → (b == 13) ≡ true
    → (let d = decode_value (channel_at c (value len start from size done) (b ∷ r)) b in
        record d { decode_index = suc d.decode_index })
      ≡ channel_at c (scan (value len start from size done) b) r
unfolding decode_value
value_end c false start from size done b r h cr =
    rw cr (behind c false true false false start from size done b r)
value_end c true start from size done b r h cr =
    let e : set (done ++ (b ∷ r)) (length done) 0 ≡ done ++ (0 ∷ r) = set-append_at done b r 0 in
    let e' : c_string (drop from (done ++ (0 ∷ r))) ≡ c_string (drop from done) =
      ap c_string (drop-append_before from done (0 ∷ r) h)
      ∙ c_string-append_zero (drop from done) r in
    rw cr (
      rw e (
        rw e'
          (behind c false true false false start from (atoi (c_string (drop from done))) done 0 r)))

value_step :
    (c : HsChannel) (len : Bool) (start from : ℕ) (size : ℤ) (done : List ℕ) (b : ℕ) (r : List ℕ)
    → from ≤ length done
    → (let d = decode_value (channel_at c (value len start from size done) (b ∷ r)) b in
        record d { decode_index = suc d.decode_index })
      ≡ channel_at c (scan (value len start from size done) b) r
unfolding decode_value
value_step c len start from size done b r h = elim (Bool-cases (b == 13)) [
  | inl cr ↦ value_end c len start from size done b r h cr
  | inr no_cr ↦ elim (Bool-cases (b == 10)) [
    | inl lf ↦
        rw (no_cr, lf)
          (ap (λ (d : HsChannel). record d { is_key = true; key_start = length done + 1 })
            (behind c false true false len start from size done b r))
    | inr other ↦ rw (no_cr, other) (behind c false true false len start from size done b r)
  ]
]

-- A round of hs_decoder in the head of a request is a step of the automaton, whatever bytes are behind.
pub decode_byte-scan :
    (c : HsChannel) (s : Scan) (b : ℕ) (r : List ℕ)
    → Fits s b
    → advance (decode_byte (channel_at c s (b ∷ r))) ≡ (channel_at c (scan s b) r, [])
unfolding decode_byte
decode_byte-scan c (line done) b r fits =
    rw (get_or-append_at done b r 0) (line_step c done b r fits)
decode_byte-scan c (key len start from size done) b r fits =
    rw (get_or-append_at done b r 0)
      (ap (λ d. (d, [])) (key_step c len start from size done b r fits))
decode_byte-scan c (value len start from size done) b r fits =
    rw (get_or-append_at done b r 0)
      (ap (λ d. (d, [])) (value_step c len start from size done b r fits))
decode_byte-scan c (body len start from size done) b r fits = elim fits [ ]
