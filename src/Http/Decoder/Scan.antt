-- ===== src/Http/Decoder/Scan.antt =====
-- hs_decoder in the head of a request, byte by byte: an automaton on the bytes that it has looked at,
-- which knows nothing of the bytes behind them.
use mw_race_service_mesh_c.Base.{
  ℕ, suc, ◌+◌, ◌≤◌, ◌≡◌, Bool, true, false, List, [], ◌∷◌, ◌++◌, ◌==◌, if◌then◌else◌, length, set,
  take, drop,
}
use mw_race_service_mesh_c.Base.Int.{ℤ, pos}
use mw_race_service_mesh_c.Base.CString.{atoi, c_string, str_eq}
use mw_race_service_mesh_c.Http.Types.{HsChannel, Handled, tolower}
use mw_race_service_mesh_c.Http.Decoder.{get_method, content_length_key}

-- What the decoder is in, with the bytes up to where it is, as it left them: a line, a key, a value, or
-- the body behind the head. Behind the line it knows whether a value is a length, where the key
-- and the value start, and the size of the body.
pub data Scan : Type 0 where
  line : List ℕ → Scan
  key : Bool → ℕ → ℕ → ℤ → List ℕ → Scan
  value : Bool → ℕ → ℕ → ℤ → List ℕ → Scan
  body : Bool → ℕ → ℕ → ℤ → List ℕ → Scan

abbrev pub scan : Scan → ℕ → Scan
scan (line done) b =
    if b == 13
    then line (set done 3 0 ++ (0 ∷ []))
    else (if b == 10
        then key false (length done + 1) 0 (pos 0) (done ++ (b ∷ []))
        else line (done ++ (b ∷ [])))
scan (key len start from size done) b =
    let found = str_eq (c_string (tolower (drop start done))) content_length_key in
    if b == 58
    then value (if found then true else len) start (length done + 1) size
        (take start done ++ (tolower (drop start done) ++ (0 ∷ [])))
    else (if b == 10
        then body len start from size (done ++ (b ∷ []))
        else key len start from size (done ++ (b ∷ [])))
scan (value len start from size done) b =
    if b == 13
    then (if len
        then value false start from (atoi (c_string (drop from done))) (done ++ (0 ∷ []))
        else value len start from size (done ++ (b ∷ [])))
    else (if b == 10
        then key len (length done + 1) from size (done ++ (b ∷ []))
        else value len start from size (done ++ (b ∷ [])))
scan (body len start from size done) b = body len start from size (done ++ (b ∷ []))

abbrev pub scans : Scan → List ℕ → Scan
scans s [] = s
scans s (b ∷ bs) = scans (scan s b) bs

-- The channel that is in such a state, with the bytes behind.
abbrev pub in_head : HsChannel → Bool → Bool → Bool → Bool → ℕ → ℕ → ℤ → List ℕ → List ℕ → HsChannel
in_head c l h k len start from size done rest = record c {
  is_line = l;
  is_head = h;
  is_body = true;
  is_read_done = false;
  is_key = k;
  is_content_length = len;
  key_start = start;
  value_start = from;
  decode_index = length done;
  body_size = size;
  buffer = done ++ rest;
}

abbrev pub channel_at : HsChannel → Scan → List ℕ → HsChannel
channel_at c (line done) r = in_head c true true true false 0 0 (pos 0) done r
channel_at c (key len start from size done) r = in_head c false true true len start from size done r
channel_at c (value len start from size done) r =
    in_head c false true false len start from size done r
channel_at c (body len start from size done) r =
    record (in_head c false false true len start from size done r) { body_start = length done }

-- Where a byte finds the decoder in a head that it can look at: a request line ends behind its third
-- byte and is no GET, and a key and a value start before the byte.
abbrev pub Fits : Scan → ℕ → Type 0
Fits (line done) b =
    (b == 13) ≡ true → (3 ≤ length done) × (str_eq get_method (c_string (set done 3 0)) ≡ false)
Fits (key len start from size done) b = start ≤ length done
Fits (value len start from size done) b = from ≤ length done
Fits (body len start from size done) b = ⊥

abbrev pub FitsAll : Scan → List ℕ → Type 0
FitsAll s [] = Unit
FitsAll s (b ∷ bs) = Fits s b × FitsAll (scan s b) bs

-- The bytes that a state has looked at.
abbrev pub looked_at : Scan → List ℕ
looked_at (line done) = done
looked_at (key len start from size done) = done
looked_at (value len start from size done) = done
looked_at (body len start from size done) = done

abbrev pub advance : HsChannel × List Handled → HsChannel × List Handled
advance (c, handled) = (record c { decode_index = suc c.decode_index }, handled)
