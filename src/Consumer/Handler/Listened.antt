-- ===== src/Consumer/Handler/Listened.antt =====
-- What the client gets of the answer of a provider agent.
use mw_race_service_mesh_c.Base.{
  ℕ, suc, ◌+◌, ◌-◌, ◌<◌, ◌≡◌, ◌≢◌, refl, sym, ap, ◌∙◌, subst, true, Option, none, some, List, [],
  ◌∷◌, ◌++◌, arith, leb, ltb, ◌&&◌, if◌then◌else◌, lt→ltb, le→leb, ≢→not_==, length, set, drop, All,
}
use mw_race_service_mesh_c.Base.Segments.{set-append_at}
use mw_race_service_mesh_c.Base.Int.{ℤ}
use mw_race_service_mesh_c.Base.CString.{c_string}
use mw_race_service_mesh_c.Http.Types.{HsChannel}
use mw_race_service_mesh_c.Http.Io.{response_ok}
use mw_race_service_mesh_c.Http.Io.Answer.{Answered, response_ok-Answered}
use mw_race_service_mesh_c.Consumer.Handler.{responded, response_body, answer_with, listen}

c_string-append_zero :
    (body rest : List ℕ) → All (λ x. x ≢ 0) body → c_string (body ++ (0 ∷ rest)) ≡ body
c_string-append_zero [] rest clean = refl
c_string-append_zero (x ∷ body) rest clean =
    rw (≢→not_== x 0 clean.0) (ap (λ i. x ∷ i) (c_string-append_zero body rest clean.1))

-- The end of an answer, its last byte, becomes a zero.
last_zero :
    (a b z : ℕ) (body rest : List ℕ)
    → set (a ∷ b ∷ (body ++ (z ∷ rest))) (length body + 3 - 1) 0 ≡ a ∷ b ∷ (body ++ (0 ∷ rest))
last_zero a b z body rest =
    let at_end : length body + 3 - 1 ≡ suc (suc (length body)) = omega arith in
    ap (λ i. set (a ∷ b ∷ (body ++ (z ∷ rest))) i 0) at_end
    ∙ ap (λ i. a ∷ b ∷ i) (set-append_at body z rest 0)

-- A body of fewer than 64 bytes without a zero, between two bytes before it and one behind.
response_body-framed :
    (a b z : ℕ) (body rest : List ℕ)
    → All (λ x. x ≢ 0) body
    → length body < 64
    → response_body (a ∷ b ∷ (body ++ (z ∷ rest))) (length body + 3) ≡ some body
unfolding response_body
response_body-framed a b z body rest clean short =
    let content = a ∷ b ∷ (body ++ (z ∷ rest)) in
    let enough : leb 2 (length body + 3) ≡ true = le→leb 2 (length body + 3) (omega arith) in
    let text : c_string (drop 2 (set content (length body + 3 - 1) 0)) ≡ body =
      ap (λ i. c_string (drop 2 i)) (last_zero a b z body rest)
      ∙ c_string-append_zero body rest clean in
    ap (λ (i : List ℕ). if leb 2 (length body + 3) && ltb (length i) 64 then some i else none) text
    ∙ rw enough (rw (lt→ltb (length body) 64 short) refl)

-- The response of hs_response_ok with a body.
pub data Listened (ch : HsChannel) (body : List ℕ) : Option HsChannel → Type 0 where
  listens :
      (r : Option (ℤ × HsChannel))
      → Answered ch body (length body) r
      → Listened ch body (responded r)

-- acm_listening takes two bytes before the body and one byte behind it off an answer. When the
-- body has no zero and fewer than 64 bytes, it is the body of the response that is to be sent,
-- with its line and its length header; or the buffer has room for the line and the header only, and
-- nothing more is to be sent; or it has no room for them, and they are written past it.
pub listen-Listened :
    (ch : HsChannel) (a b z : ℕ) (body rest : List ℕ)
    → length ch.buffer ≡ ch.buffer_size
    → All (λ x. x ≢ 0) body
    → length body < 64
    → Listened ch body (listen ch (a ∷ b ∷ (body ++ (z ∷ rest))) (length body + 3))
unfolding listen
listen-Listened ch a b z body rest sized clean short =
    subst (λ i. Listened ch body (answer_with ch i))
      (sym (response_body-framed a b z body rest clean short))
      (listens (response_ok ch body (length body))
        (response_ok-Answered ch body (length body) sized (omega arith) (omega arith)))
