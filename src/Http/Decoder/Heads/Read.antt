-- ===== src/Http/Decoder/Heads/Read.antt =====
-- The automaton of hs_decoder on the head of a request, from its start to the body.
use mw_race_service_mesh_c.Base.{
  ℕ, ◌+◌, ◌≡◌, refl, ap, ◌∙◌, Bool, true, false, List, [], ◌∷◌, ◌++◌, arith, if◌then◌else◌, length,
  set, drop, All, length-append,
}
use mw_race_service_mesh_c.Base.Int.{ℤ, pos}
use mw_race_service_mesh_c.Base.CString.{atoi, c_string, str_eq}
use mw_race_service_mesh_c.Base.Segments.{drop-append_past}
use mw_race_service_mesh_c.Http.Decoder.Scanned.{lowered, length-lowered, length-snoc}
use mw_race_service_mesh_c.Http.Types.{tolower}
use mw_race_service_mesh_c.Http.Decoder.{get_method, content_length_key}
use mw_race_service_mesh_c.Http.Decoder.Scan.{Scan, line, key, value, body}
use mw_race_service_mesh_c.Http.Decoder.Heads.{
  Header, crlf, header_bytes, headers_bytes, head_bytes, IsText, IsKeyText, IsHeader, lower_case,
  content_length, IsHead,
}
use mw_race_service_mesh_c.Http.Decoder.Heads.Parsed.{
  Runs, Runs-append, Runs-line, Runs-key, Runs-value, c_string-text, c_string-tolower,
  c_string-method,
}

-- The automaton is at the start of a header, with the size that the headers before gave.
pub record AtKey (s : Scan) (bs : List ℕ) (size : ℤ) : Type 0 where
  pub start : ℕ
  pub from : ℕ
  pub done : List ℕ
  pub at_start : start ≡ length done
  pub runs : Runs s bs (key false start from size done)

-- The colon.
Runs-colon :
    (start from : ℕ) (size : ℤ) (done k : List ℕ)
    → start ≡ length done
    → All IsKeyText k
    → Runs (key false start from size (done ++ k)) (58 ∷ []) (
        value
          (str_eq (lower_case k) content_length_key)
          start
          (length (done ++ k) + 1)
          size
          (lowered start (done ++ k) []))
Runs-colon start from size done k e all =
    let name : c_string (tolower (drop start (done ++ k))) ≡ lower_case k =
      ap (λ x. c_string (tolower x)) (drop-append_past start 0 done k (omega arith))
      ∙ c_string-tolower k all in
    record {
      fits = (omega (arith, length-append done k), tt);
      ends = rw name (
          ap (λ b. value b start (length (done ++ k) + 1) size (lowered start (done ++ k) []))
            (if_true (str_eq (lower_case k) content_length_key)));
    }
  where
    if_true : (b : Bool) → (if b then true else false) ≡ b
    if_true true = refl
    if_true false = refl

-- The end of a value's line.
AtKey-value_end :
    (len : Bool) (start from : ℕ) (size : ℤ) (done v : List ℕ)
    → from ≡ length done
    → All IsText v
    → AtKey (value len start from size (done ++ v)) crlf (if len then atoi v else size)
AtKey-value_end true start from size done v e all = record {
  start = length ((done ++ v) ++ (0 ∷ [])) + 1;
  from = from;
  done = ((done ++ v) ++ (0 ∷ [])) ++ (10 ∷ []);
  at_start = omega (arith, length-snoc ((done ++ v) ++ (0 ∷ [])) 10);
  runs = record {
    fits = (
      omega (arith, length-append done v),
      (omega (arith, length-append done v, length-snoc (done ++ v) 0), tt),
    );
    ends =
        ap
          (λ x.
            key false (length ((done ++ v) ++ (0 ∷ [])) + 1) from (atoi x)
              (((done ++ v) ++ (0 ∷ [])) ++ (10 ∷ [])))
          (ap c_string (drop-append_past from 0 done v (omega arith)) ∙ c_string-text v all);
  };
}
AtKey-value_end false start from size done v e all = record {
  start = length ((done ++ v) ++ (13 ∷ [])) + 1;
  from = from;
  done = ((done ++ v) ++ (13 ∷ [])) ++ (10 ∷ []);
  at_start = omega (arith, length-snoc ((done ++ v) ++ (13 ∷ [])) 10);
  runs = record {
    fits = (
      omega (arith, length-append done v),
      (omega (arith, length-append done v, length-snoc (done ++ v) 13), tt),
    );
    ends = refl;
  };
}

-- The size after a header.
abbrev sized : ℤ → Header → ℤ
sized size (k, v) = if str_eq (lower_case k) content_length_key then atoi v else size

AtKey-append :
    (s : Scan) (xs ys : List ℕ) (t : Scan) (size : ℤ)
    → Runs s xs t
    → AtKey t ys size
    → AtKey s (xs ++ ys) size
AtKey-append s xs ys t size r a = record {
  start = a.start;
  from = a.from;
  done = a.done;
  at_start = a.at_start;
  runs = Runs-append s xs ys t (key false a.start a.from size a.done) r a.runs;
}

AtKey-header :
    (start from : ℕ) (size : ℤ) (done : List ℕ) (h : Header)
    → start ≡ length done
    → IsHeader h
    → AtKey (key false start from size done) (header_bytes h) (sized size h)
AtKey-header start from size done (k, v) e (kt, vt) =
    let len = str_eq (lower_case k) content_length_key in
    let done1 = lowered start (done ++ k) [] in
    let from1 = length (done ++ k) + 1 in
    let count : from1 ≡ length done1 =
      omega (arith, length-lowered start (done ++ k) (omega (arith, length-append done k))) in
    AtKey-append (key false start from size done) k (58 ∷ (v ++ crlf))
      (key false start from size (done ++ k)) _
      (Runs-key false start from size k done (omega arith) kt)
      (AtKey-append _ (58 ∷ []) (v ++ crlf) (value len start from1 size done1) _
        (Runs-colon start from size done k e kt)
        (AtKey-append _ v crlf (value len start from1 size (done1 ++ v)) _
          (Runs-value len start from1 size v done1 (omega arith) vt)
          (AtKey-value_end len start from1 size done1 v count vt)))

-- The automaton at the body, with the size that the headers give.
pub record AtBody (s : Scan) (bs : List ℕ) (size : ℤ) : Type 0 where
  pub start : ℕ
  pub from : ℕ
  pub done : List ℕ
  pub runs : Runs s bs (body false start from size done)

AtBody-append :
    (s : Scan) (xs ys : List ℕ) (t : Scan) (size : ℤ)
    → Runs s xs t
    → AtBody t ys size
    → AtBody s (xs ++ ys) size
AtBody-append s xs ys t size r a = record {
  start = a.start;
  from = a.from;
  done = a.done;
  runs = Runs-append s xs ys t (body false a.start a.from size a.done) r a.runs;
}

AtBody-headers :
    (start from : ℕ) (size : ℤ) (done : List ℕ) (hs : List Header)
    → start ≡ length done
    → All IsHeader hs
    → AtBody (key false start from size done) (headers_bytes hs) (content_length size hs)
AtBody-headers start from size done [] e all = record {
  start = start;
  from = from;
  done = (done ++ (13 ∷ [])) ++ (10 ∷ []);
  runs = record { fits = (omega arith, (omega (arith, length-snoc done 13), tt)); ends = refl };
}
AtBody-headers start from size done (h ∷ hs) e (t, all) =
    let a = AtKey-header start from size done h e t in
    AtBody-append (key false start from size done) (header_bytes h) (headers_bytes hs) _ _ a.runs
      (AtBody-headers a.start a.from (sized size h) a.done hs a.at_start all)

-- The automaton reads a head from the start to the body, with the size that the headers give.
pub head-AtBody :
    (request_line : List ℕ) (hs : List Header)
    → IsHead request_line hs
    → AtBody (line []) (head_bytes request_line hs) (content_length (pos 0) hs)
head-AtBody l hs h =
    let done = (set l 3 0 ++ (0 ∷ [])) ++ (10 ∷ []) in
    let start = length (set l 3 0 ++ (0 ∷ [])) + 1 in
    let ends : Runs (line l) crlf (key false start 0 (pos 0) done) = record {
      fits = (
        (λ e. (h.three, ap (str_eq get_method) (c_string-method l h.text h.three) ∙ h.no_get)),
        ((λ e. cc), tt),
      );
      ends = refl;
    } in
    AtBody-append (line []) l (13 ∷ 10 ∷ headers_bytes hs) (line l) _ (Runs-line l h.text) (
      AtBody-append (line l) crlf (headers_bytes hs) _ _ ends (
        AtBody-headers start 0 (pos 0) done hs
          (omega (arith, length-snoc (set l 3 0 ++ (0 ∷ [])) 10)) h.headers))
