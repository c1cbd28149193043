-- ===== src/Http/Decoder/Heads/Parsed.antt =====
-- What the automaton of hs_decoder makes of the head of a request.
use mw_race_service_mesh_c.Base.{
  ℕ, ◌≤◌, ◌≡◌, refl, sym, ap, ◌∙◌, subst, Bool, false, List, [], ◌∷◌, ◌++◌, append_assoc,
  append-nil, arith, ◌==◌, true≢false, length, set, take, All,
}
use mw_race_service_mesh_c.Base.Int.{ℤ}
use mw_race_service_mesh_c.Base.CString.{c_string}
use mw_race_service_mesh_c.Http.Decoder.Scanned.{length-snoc}
use mw_race_service_mesh_c.Http.Types.{tolower, lower}
use mw_race_service_mesh_c.Http.Decoder.Scan.{Scan, line, key, value, scan, Fits, FitsAll, scans}
use mw_race_service_mesh_c.Http.Decoder.Heads.{IsText, IsKeyText, lower_case}

-- The automaton can look at all of some bytes, and they take it to a state.
pub record Runs (s : Scan) (bs : List ℕ) (t : Scan) : Type 0 where
  pub fits : FitsAll s bs
  pub ends : scans s bs ≡ t

pub Runs-append :
    (s : Scan) (xs ys : List ℕ) (t u : Scan) → Runs s xs t → Runs t ys u → Runs s (xs ++ ys) u
Runs-append s [] ys t u r q = subst (λ x. Runs x ys u) (sym r.ends) q
Runs-append s (x ∷ xs) ys t u r q =
    let rest = Runs-append (scan s x) xs ys t u (record { fits = r.fits.1; ends = r.ends }) q in
    record { fits = (r.fits.0, rest.fits); ends = rest.ends }

-- Bytes that leave the decoder in the line, key or value that it is in.
module _ (f : List ℕ → Scan) (P : ℕ → Type 0) (start : ℕ)
    (stay : (done : List ℕ) (b : ℕ) → P b → scan (f done) b ≡ f (done ++ (b ∷ [])))
    (fit : (done : List ℕ) (b : ℕ) → P b → start ≤ length done → Fits (f done) b) where
  Runs-within :
      (xs done : List ℕ) → start ≤ length done → All P xs → Runs (f done) xs (f (done ++ xs))
  Runs-within [] done h all = record { fits = tt; ends = ap f (sym (append-nil done)) }
  Runs-within (x ∷ xs) done h all =
      let rest = Runs-within xs (done ++ (x ∷ [])) (omega (arith, length-snoc done x)) all.1 in
      record {
        fits = (fit done x all.0 h, subst (λ t. FitsAll t xs) (sym (stay done x all.0)) rest.fits);
        ends =
            ap (λ t. scans t xs) (stay done x all.0)
            ∙ rest.ends
            ∙ ap f (append_assoc done (x ∷ []) xs);
      }

pub Runs-line : (xs : List ℕ) → All IsText xs → Runs (line []) xs (line xs)
Runs-line xs all =
    Runs-within line IsText 0 (λ done b t. rw (t.0, t.1) refl)
      (λ done b t h e. absurd (true≢false (sym e ∙ t.0))) xs [] (omega arith) all

pub Runs-key :
    (len : Bool) (start from : ℕ) (size : ℤ) (xs done : List ℕ)
    → start ≤ length done
    → All IsKeyText xs
    → Runs (key len start from size done) xs (key len start from size (done ++ xs))
Runs-key len start from size xs done =
    Runs-within (key len start from size) IsKeyText start (λ done b t. rw (t.1, t.0.1) refl)
      (λ done b t h. h) xs done

pub Runs-value :
    (len : Bool) (start from : ℕ) (size : ℤ) (xs done : List ℕ)
    → from ≤ length done
    → All IsText xs
    → Runs (value len start from size done) xs (value len start from size (done ++ xs))
Runs-value len start from size xs done =
    Runs-within (value len start from size) IsText from (λ done b t. rw (t.0, t.1) refl)
      (λ done b t h. h) xs done

pub c_string-text : (xs : List ℕ) → All IsText xs → c_string xs ≡ xs
c_string-text [] all = refl
c_string-text (x ∷ xs) all = rw all.0.2 (ap (◌∷◌ x) (c_string-text xs all.1))

lower-not_zero : (b : ℕ) → (b == 0) ≡ false → (lower b == 0) ≡ false
lower-not_zero b h = ground arith

pub c_string-tolower : (xs : List ℕ) → All IsKeyText xs → c_string (tolower xs) ≡ lower_case xs
unfolding tolower
c_string-tolower [] all = refl
c_string-tolower (x ∷ xs) all =
    rw (all.0.0.2)
      (rw (lower-not_zero x all.0.0.2) (ap (◌∷◌ (lower x)) (c_string-tolower xs all.1)))

pub c_string-method :
    (xs : List ℕ) → All IsText xs → 3 ≤ length xs → c_string (set xs 3 0) ≡ take 3 xs
c_string-method [] all h = absurd (omega arith)
c_string-method (a ∷ []) all h = absurd (omega arith)
c_string-method (a ∷ b ∷ []) all h = absurd (omega arith)
c_string-method (a ∷ b ∷ c ∷ []) all h = rw (all.0.2) (rw (all.1.0.2) (rw (all.1.1.0.2) refl))
c_string-method (a ∷ b ∷ c ∷ d ∷ r) all h = rw (all.0.2) (rw (all.1.0.2) (rw (all.1.1.0.2) refl))
