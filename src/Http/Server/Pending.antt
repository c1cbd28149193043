-- ===== src/Http/Server/Pending.antt =====
-- The connection map between the accept thread and the threads that run hs_new_connection.
pub mod Held
pub mod Connects
use mw_race_service_mesh_c.Base.{
  ℕ, zero, suc, ◌+◌, ◌-◌, ◌*◌, ◌/◌, ◌%◌, ◌^◌, ◌≤◌, ◌<◌, bit_and, bit_or, min, ◌≡◌, ◌≢◌, refl, sym,
  ap, ap₂, ◌∙◌, subst, ◌↔◌, ◌⊎◌, inl, inr, Bool, true, false, not, ◌&&◌, ◌||◌, Option, none, some,
  some-injective, none-ne-some, List, [], ◌∷◌, ◌++◌, append_assoc, append-nil, arith, ltb, leb,
  ◌==◌, if◌then◌else◌, ltb→lt, not_ltb→le, lt→ltb, le→not_ltb, leb→le, not_leb→lt, ==_iff, ==_refl,
  not_==→≢, le→leb, lt→not_leb, not_zero, pos→not_zero, both, not_both, true≢false, Bool-cases,
  Option-cases, length, get_elem?, get_or, set, take, drop, replicate, write_at, All, All-append,
  length-append, length-set, set-set, get_or-set_self, get_or-set_ne, length-take, length-drop,
  length-replicate,
}
use native.Mathlib.Nat.{mod-lt}
use mw_race_service_mesh_c.Http.Types.{HsChannel, init_channel}
use mw_race_service_mesh_c.Http.Server.{HsConnectionEntry, HsHandle, HsBootstrap, StartCalls, start}
use mw_race_service_mesh_c.Acm.Connect.{made}
use mw_race_service_mesh_c.Http.Server.Accept.{
  Accepted, failed, full, refused, queued, entry, no_entry, set_entry, counted, next_entry, accept,
  Connected, registered, dropped, new_connection,
}

-- The calls of hs_new_connection that the thread pool has taken, with the sockets that they are for.
pub record Server : Type 0 where
  pub handle : HsHandle
  pub pending : List (ℕ × ℕ)

abbrev pub call_of : Accepted → List (ℕ × ℕ)
call_of failed = []
call_of (full fd) = []
call_of (refused i fd) = []
call_of (queued i fd) = (i, fd) ∷ []

-- The threads of the pool may run the calls in any order.
pub data Step : Server → Server → Type 0 where
  accepts :
      (s : Server) (socket : Option ℕ) (taken : Bool)
      → Step s (record s {
        handle = (accept s.handle socket taken).0;
        pending = s.pending ++ call_of (accept s.handle socket taken).1;
      })
  runs :
      (s : Server) (xs ys : List (ℕ × ℕ)) (i fd : ℕ) (memory : Option HsChannel) (added : Bool)
      → s.pending ≡ xs ++ ((i, fd) ∷ ys)
      → Step s
          (record s { handle = (new_connection s.handle i memory added).0; pending = xs ++ ys })

pub data Reach (s : Server) : Server → Type 0 where
  here : Reach s s
  next : {t u : Server} → Reach s t → Step t u → Reach s u

abbrev pub Held : HsHandle → ℕ × ℕ → Type 0
Held h (i, fd) =
    (i < length h.new_connection_map) × ((entry h i).taken ≡ true) × ((entry h i).socket_fd ≡ fd)

abbrev pub Apart : ℕ × ℕ → ℕ × ℕ → Type 0
Apart p q = p.0 ≢ q.0

abbrev pub Distinct : List (ℕ × ℕ) → Type 0
Distinct [] = Unit
Distinct (p ∷ ps) = All (Apart p) ps × Distinct ps

pub record IsSized (h : HsHandle) : Type 0 where
  pub size : h.new_connection_map_size ≡ length h.new_connection_map
  pub some_entry : 0 < h.new_connection_map_size

pub record IsHeld (s : Server) : Type 0 where
  pub held : All (Held s.handle) s.pending
  pub distinct : Distinct s.pending
  pub sized : IsSized s.handle

module _ {A : Type 0} (P : A → Type 0) where
  pub All-middle : (xs ys : List A) (p : A) → All P (xs ++ (p ∷ ys)) → P p × All P (xs ++ ys)
  All-middle [] ys p h = h
  All-middle (x ∷ xs) ys p h = let (a, b) = All-middle xs ys p h.1 in (a, (h.0, b))

  pub All-map : (Q : A → Type 0) (xs : List A) → ((x : A) → P x → Q x) → All P xs → All Q xs
  All-map Q [] f h = tt
  All-map Q (x ∷ xs) f h = (f x h.0, All-map Q xs f h.1)

pub All-both :
    {A : Type 0} (P Q R : A → Type 0) (xs : List A)
    → ((x : A) → P x → Q x → R x)
    → All P xs
    → All Q xs
    → All R xs
All-both P Q R [] f h k = tt
All-both P Q R (x ∷ xs) f h k = (f x h.0 k.0, All-both P Q R xs f h.1 k.1)

pub Distinct-middle :
    (xs ys : List (ℕ × ℕ)) (p : ℕ × ℕ)
    → Distinct (xs ++ (p ∷ ys))
    → All (Apart p) (xs ++ ys) × Distinct (xs ++ ys)
Distinct-middle [] ys p d = d
Distinct-middle (x ∷ xs) ys p (far, d) =
    let (off, rest) = Distinct-middle xs ys p d in
    let (x_off, others) = All-middle (Apart x) xs ys p far in
    (((λ e. x_off (sym e)), off), (others, rest))

pub Distinct-append_one :
    (xs : List (ℕ × ℕ)) (p : ℕ × ℕ) → All (Apart p) xs → Distinct xs → Distinct (xs ++ (p ∷ []))
Distinct-append_one [] p off d = (tt, tt)
Distinct-append_one (x ∷ xs) p (o, off) (far, d) =
    (All-append (Apart x) xs (p ∷ []) far ((λ e. o (sym e)), tt), Distinct-append_one xs p off d)

-- A write to one entry leaves the others.
pub Held-set_entry :
    (h : HsHandle) (i : ℕ) (e : HsConnectionEntry) (q : ℕ × ℕ)
    → Held h q
    → i ≢ q.0
    → Held (set_entry h i e) q
Held-set_entry h i e (j, fd) (inside, taken, socket) ne =
    let same : entry (set_entry h i e) j ≡ entry h j =
      get_or-set_ne h.new_connection_map e no_entry ne in
    (
      omega (arith, length-set h.new_connection_map i e),
      ap (λ (x : HsConnectionEntry). x.taken) same ∙ taken,
      ap (λ (x : HsConnectionEntry). x.socket_fd) same ∙ socket,
    )

pub IsSized-set_entry :
    (h : HsHandle) (i : ℕ) (e : HsConnectionEntry) → IsSized h → IsSized (set_entry h i e)
IsSized-set_entry h i e z = record {
  size = z.size ∙ sym (length-set h.new_connection_map i e);
  some_entry = z.some_entry;
}
