-- ===== src/Http/Io/Written.antt =====
-- What hs_io_write puts on the wire of a response that hs_response_ok left in the buffer.
use mw_race_service_mesh_c.Base.{
  ℕ, zero, suc, ◌∷◌, ◌∙◌, ◌+◌, ◌-◌, ◌<◌, min, ◌≡◌, refl, sym, ap, subst, inl, inr, Option, none,
  some, List, [], ◌++◌, arith, leb, leb→le, not_leb→lt, lt→not_leb, Bool-cases, take, drop,
}
use mw_race_service_mesh_c.Base.Segments.{take-append-take_at}
use mw_race_service_mesh_c.Http.Types.{HsChannel, init_channel}
use mw_race_service_mesh_c.Http.Io.{
  io, Io, readable, writable, closed, unsent, rearmed, send_rest, io_write,
}

-- What a call of `send` comes to: what it takes comes off what was unsent, and the channel waits to
-- write the rest, or, when there is none, is ready for the next request; when it fails nothing is
-- sent and the channel is closed.
pub data Sends (c : HsChannel) : Option ℕ → Io → Type 0 where
  fails : Sends c none (io c [] [] closed)
  partly :
      (k : ℕ) (c' : HsChannel) (out : List ℕ)
      → out ≡ take k (unsent c)
      → out ++ unsent c' ≡ unsent c
      → c'.write_index < c'.write_size
      → Sends c (some k) (io c' out [] writable)
  finally :
      (k : ℕ) (c' : HsChannel) (out : List ℕ)
      → out ≡ take k (unsent c)
      → out ≡ unsent c
      → c'.write_size ≡ c'.write_index
      → Sends c (some k) (io (init_channel c') out [] readable)

take-take : (k l : ℕ) (xs : List ℕ) → take (min k l) xs ≡ take k (take l xs)
take-take zero l xs = ap (λ n. take n xs) {y = 0} (omega arith)
take-take (suc k) zero xs = ap (λ n. take n xs) {y = 0} (omega arith)
take-take (suc k) (suc l) [] = ap (λ n. take n []) {y = suc (min k l)} (omega arith)
take-take (suc k) (suc l) (x ∷ xs) =
    ap (λ n. take n (x ∷ xs)) {y = suc (min k l)} (omega arith)
    ∙ ap (λ ys. x ∷ ys) (take-take k l xs)

send_rest-Sends :
    (c : HsChannel) (sent : Option ℕ)
    → c.write_index < c.write_size
    → Sends c sent (send_rest c sent)
send_rest-Sends c none more = fails
send_rest-Sends c (some k) more =
    let n = min k (c.write_size - c.write_index) in
    let c1 = record c { write_index = c.write_index + n } in
    let out = take n (drop c.write_index c.buffer) in
    let first = take-take k (c.write_size - c.write_index) (drop c.write_index c.buffer) in
    elim (Bool-cases (leb c.write_size (c.write_index + n))) [
      | inl done ↦
          let all : n ≡ c.write_size - c.write_index = omega (arith, leb→le _ _ done) in
          rw done (
            finally k c1 out first (ap (λ m. take m (drop c.write_index c.buffer)) all)
              (omega arith))
      | inr rest ↦ rw rest (
          partly k c1 out first
            (take-append-take_at c.write_index n (c.write_size - (c.write_index + n))
              (c.write_index + n) (c.write_size - c.write_index) c.buffer refl
              (omega (arith, not_leb→lt _ _ rest)))
            (not_leb→lt _ _ rest))
    ]

-- A call of hs_io_write with a response that is not written out, when `send` takes `k` bytes or what is
-- left if that is less, puts these first bytes of what is left on the wire: either all of it, and the
-- channel is ready for the next request, or less, and the channel keeps the rest and waits to write it.
-- When `send` answers -1, for EAGAIN as well, nothing is put on the wire, the channel is closed and the
-- rest is lost.
pub io_write-Sends :
    (c : HsChannel) (sent : Option ℕ)
    → c.write_index < c.write_size
    → Sends c sent (io_write c sent)
unfolding io_write
io_write-Sends c sent more =
    let same : rearmed c ≡ c = rw (lt→not_leb c.write_size c.write_index more) refl in
    subst (λ d. Sends c sent (send_rest d sent)) (sym same) (send_rest-Sends c sent more)
