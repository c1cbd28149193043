-- ===== src/Http/Server/Pending/Held.antt =====
-- Every step of the accept thread and of hs_new_connection keeps the connections that are held.
use mw_race_service_mesh_c.Base.{
  ℕ, ◌<◌, ◌≡◌, refl, sym, ap, ◌∙◌, subst, inl, inr, Bool, true, false, Option, none, some, List, [],
  ◌∷◌, ◌++◌, append-nil, arith, if◌then◌else◌, true≢false, Bool-cases, Option-cases, length, All,
  All-append, length-set, get_or-set_self,
}
use native.Mathlib.Nat.{mod-lt}
use mw_race_service_mesh_c.Http.Types.{HsChannel}
use mw_race_service_mesh_c.Http.Server.{HsConnectionEntry, HsHandle}
use mw_race_service_mesh_c.Http.Server.Accept.{
  refused, queued, entry, no_entry, set_entry, counted, next_entry, accept, new_connection,
}
use mw_race_service_mesh_c.Http.Server.Pending.{
  Server, call_of, Step, accepts, runs, Reach, here, next, Held, Apart, Distinct, IsHeld,
  All-middle, All-map, All-both, Distinct-middle, Distinct-append_one, Held-set_entry,
  IsSized-set_entry,
}

-- The connections that are held keep their entries when another entry is written.
keep_others :
    (s : Server) (h : HsHandle) (i : ℕ) (e : HsConnectionEntry)
    → h.new_connection_map ≡ s.handle.new_connection_map
    → h.new_connection_map_size ≡ s.handle.new_connection_map_size
    → (entry s.handle i).taken ≡ false
    → IsHeld s
    → All (Apart (i, 0)) s.pending
      × IsHeld (record { handle = set_entry h i e; pending = s.pending })
keep_others s h i e same same_size free k =
    let off : All (Apart (i, 0)) s.pending =
      All-map (Held s.handle) (Apart (i, 0)) s.pending
        (λ q held e. true≢false (sym held.1 ∙ ap (λ j. (entry s.handle j).taken) (sym e) ∙ free))
        k.held in
    let moved : (q : ℕ × ℕ) → Held s.handle q → Held h q =
      λ q held. subst (λ m. Held (record s.handle { new_connection_map = m }) q) (sym same) held in
    (
      off,
      record {
        held =
            All-both (Held s.handle) (Apart (i, 0)) (Held (set_entry h i e)) s.pending
              (λ q held o. Held-set_entry h i e q (moved q held) o) k.held off;
        distinct = k.distinct;
        sized = IsSized-set_entry h i e (record {
          size = same_size ∙ k.sized.size ∙ ap length (sym same);
          some_entry = subst (λ n. 0 < n) (sym same_size) k.sized.some_entry;
        });
      },
    )

with_none :
    (s : Server) → IsHeld s → IsHeld (record { handle = s.handle; pending = s.pending ++ [] })
with_none s k =
    subst (λ ps. IsHeld (record { handle = s.handle; pending = ps })) (sym (append-nil s.pending)) k

hold :
    (s : Server) (fd : ℕ) (taken : Bool)
    → IsHeld s
    → (entry s.handle (next_entry s.handle)).taken ≡ false
    → IsHeld (record s {
      handle =
          set_entry
            (counted s.handle)
            (next_entry s.handle)
            (record { taken = true; socket_fd = fd });
      pending =
          s.pending
          ++ call_of
              (if taken then queued (next_entry s.handle) fd else refused (next_entry s.handle) fd);
    })
hold s fd false k free =
    with_none _
      (keep_others s (counted s.handle) (next_entry s.handle)
        (record { taken = true; socket_fd = fd }) refl refl free k).1
hold s fd true k free =
    let i = next_entry s.handle in
    let e : HsConnectionEntry = record { taken = true; socket_fd = fd } in
    let (off, kept) = keep_others s (counted s.handle) i e refl refl free k in
    let inside : i < length s.handle.new_connection_map =
      omega (arith, mod-lt s.handle.connection_id k.sized.some_entry, k.sized.size) in
    let written : entry (set_entry (counted s.handle) i e) i ≡ e =
      get_or-set_self s.handle.new_connection_map i e no_entry inside in
    record {
      held =
          All-append (Held (set_entry (counted s.handle) i e)) s.pending ((i, fd) ∷ []) kept.held (
            (
              omega (arith, inside, length-set s.handle.new_connection_map i e),
              ap (λ (x : HsConnectionEntry). x.taken) written,
              ap (λ (x : HsConnectionEntry). x.socket_fd) written,
            ),
            tt,
          );
      distinct = Distinct-append_one s.pending (i, fd) off k.distinct;
      sized = kept.sized;
    }

accept-IsHeld :
    (s : Server) (socket : Option ℕ) (taken : Bool)
    → IsHeld s
    → IsHeld (record s {
      handle = (accept s.handle socket taken).0;
      pending = s.pending ++ call_of (accept s.handle socket taken).1;
    })
unfolding accept
accept-IsHeld s none taken k = with_none s k
accept-IsHeld s (some fd) taken k = elim (Bool-cases (entry s.handle (next_entry s.handle)).taken) [
  | inl held ↦ rw held (
      with_none (record s { handle = counted s.handle })
        (record {
          held = k.held;
          distinct = k.distinct;
          sized = record { size = k.sized.size; some_entry = k.sized.some_entry };
        }))
  | inr free ↦ rw free (hold s fd taken k free)
]

new_connection-IsHeld :
    (s : Server) (xs ys : List (ℕ × ℕ)) (i fd : ℕ) (memory : Option HsChannel) (added : Bool)
    → s.pending ≡ xs ++ ((i, fd) ∷ ys)
    → IsHeld s
    → IsHeld (record s { handle = (new_connection s.handle i memory added).0; pending = xs ++ ys })
unfolding new_connection
new_connection-IsHeld s xs ys i fd memory added e k =
    let (own, others) =
      All-middle (Held s.handle) xs ys (i, fd) (subst (All (Held s.handle)) e k.held) in
    let (off, distinct) = Distinct-middle xs ys (i, fd) (subst Distinct e k.distinct) in
    let freed = record (entry s.handle i) { taken = false } in
    let left : IsHeld (record { handle = set_entry s.handle i freed; pending = xs ++ ys }) =
      record {
        held =
            All-both (Held s.handle) (Apart (i, fd)) (Held (set_entry s.handle i freed)) (xs ++ ys)
              (λ q held o. Held-set_entry s.handle i freed q held o) others off;
        distinct = distinct;
        sized = IsSized-set_entry s.handle i freed k.sized;
      } in
    rw own.1 (elim (Option-cases memory) [
      | inl empty ↦ rw empty left
      | inr (c, has) ↦ rw has (record {
        held = left.held;
        distinct = left.distinct;
        sized = record { size = left.sized.size; some_entry = left.sized.some_entry };
      })
    ])

Step-IsHeld : {s t : Server} → Step s t → IsHeld s → IsHeld t
Step-IsHeld (accepts s socket taken) k = accept-IsHeld s socket taken k
Step-IsHeld (runs s xs ys i fd memory added e) k =
    new_connection-IsHeld s xs ys i fd memory added e k

pub Reach-IsHeld : {s t : Server} → IsHeld s → Reach s t → IsHeld t
Reach-IsHeld k here = k
Reach-IsHeld k (next r st) = Step-IsHeld st (Reach-IsHeld k r)
