-- ===== src/Acm/Request/Held.antt =====
-- The request map of acm_hold_request, over several requests.
use mw_race_service_mesh_c.Base.{
  ℕ, ◌+◌, ◌%◌, ◌≤◌, ◌<◌, ◌≡◌, refl, sym, subst, ◌∙◌, inl, inr, true, some, List, [], ◌∷◌, arith,
  ◌==◌, Bool-cases, All, length, length-set, get_or-set_self, get_or-set_ne,
}
use mw_race_service_mesh_c.Base.Slots.{slot_ne}
use native.Mathlib.Nat.{mod-lt}
use mw_race_service_mesh_c.Acm.Types.{RequestMapEntry, AcmHandle}
use mw_race_service_mesh_c.Acm.Request.{no_entry, entry_of, hold_request}

-- A request to be held: its id, listening function and argument.
pub record Held : Type 0 where
  pub id : ℕ
  pub listening : ℕ
  pub arg : ℕ

abbrev pub entry : Held → RequestMapEntry
entry r = record { req_id = r.id; listening = some r.listening; arg = r.arg }

abbrev pub hold : AcmHandle → Held → AcmHandle
hold h r = (hold_request h r.id (some r.listening) r.arg).1

-- Requests held one after the other, the first in the list first.
unfoldable pub hold_all : AcmHandle → List Held → AcmHandle
hold_all h [] = h
hold_all h (r ∷ rs) = hold_all (hold h r) rs

-- The table is as long as the handle says.
abbrev pub IsTable : AcmHandle → Type 0
IsTable h = (0 < h.max_hold_req_num) × (h.max_hold_req_num ≤ length h.request_map)

-- `r` is after `id`, and less than a table's length away.
abbrev pub Within : AcmHandle → ℕ → Held → Type 0
Within h id r = (id < r.id) × (r.id < id + h.max_hold_req_num)

pub hold-IsTable :
    (h : AcmHandle) (r : Held)
    → IsTable h
    → ((hold h r).max_hold_req_num ≡ h.max_hold_req_num) × IsTable (hold h r)
unfolding hold_request
hold-IsTable h r v = ground (arith, length-set h.request_map (r.id % h.max_hold_req_num) (entry r))

hold-kept :
    (h : AcmHandle) (r : Held) (id : ℕ)
    → IsTable h
    → Within h id r
    → ((hold h r).max_hold_req_num ≡ h.max_hold_req_num)
      × IsTable (hold h r)
      × (entry_of (hold h r) id ≡ entry_of h id)
unfolding hold_request
hold-kept h r id v w = elim (Bool-cases ((entry_of h r.id).req_id == 0)) [
  | inl free ↦
      rw (free, hold)
        (
          refl,
          (v.0, rw length-set v.1),
          get_or-set_ne h.request_map (entry r) no_entry
              (λ e. slot_ne h.max_hold_req_num id r.id w.0 w.1 (sym e)),
        )
  | inr taken ↦ rw (taken, hold) (refl, v, refl)
]

pub hold_all-kept :
    (h : AcmHandle) (rs : List Held) (id : ℕ)
    → IsTable h
    → All (Within h id) rs
    → ((hold_all h rs).max_hold_req_num ≡ h.max_hold_req_num)
      × IsTable (hold_all h rs)
      × (entry_of (hold_all h rs) id ≡ entry_of h id)
unfolding hold_all
hold_all-kept h [] id v w = (refl, v, refl)
hold_all-kept h (r ∷ rs) id v w =
    let one = hold-kept h r id v w.0 in
    let rest =
      hold_all-kept (hold h r) rs id one.1
        (subst (λ L. All (λ q. (id < q.id) × (q.id < id + L)) rs) (sym one.0) w.1) in
    (rest.0 ∙ one.0, rest.1, rest.2 ∙ one.2)

pub entry_of-hold :
    (h : AcmHandle) (r : Held)
    → IsTable h
    → (entry_of h r.id).req_id ≡ 0
    → entry_of (hold h r) r.id ≡ entry r
unfolding hold_request
entry_of-hold h r v free =
    let zero_test : ((entry_of h r.id).req_id == 0) ≡ true = ground arith in
    rw (zero_test, hold)
      (get_or-set_self h.request_map (r.id % h.max_hold_req_num) (entry r) no_entry
        (omega (arith, mod-lt r.id {m = h.max_hold_req_num} v.0)))
