-- ===== src/Discovery/Endpoints.antt =====
-- sd_insert_endpoint, on a list and an endpoint that are not NULL.
use mw_race_service_mesh_c.Base.{
  ◌+◌, ◌≤◌, ◌≡◌, refl, ap, inl, inr, List, [], ◌∷◌, ◌++◌, arith, if◌then◌else◌, leb→le, not_leb→lt,
  Bool-cases, All,
}
use mw_race_service_mesh_c.Base.Int.{leb_ℤ, pos_part, neg_part}
use mw_race_service_mesh_c.Discovery.Types.{SdEndpoint}

-- The walk from `head.next`: it stops before the first endpoint that is not heavier.
unfoldable pub insert_before : SdEndpoint → List SdEndpoint → List SdEndpoint
insert_before e [] = e ∷ []
insert_before e (now ∷ rest) =
    let later = insert_before e rest in
    if leb_ℤ now.load_level e.load_level then e ∷ (now ∷ rest) else now ∷ later

unfoldable pub insert_endpoint : SdEndpoint → List SdEndpoint → List SdEndpoint
unfolding insert_before
insert_endpoint e list = insert_before (record e { remain = e.load_level }) list

-- `a` is at least as heavy as `b`.
abbrev pub Heavier : SdEndpoint → SdEndpoint → Type 0
Heavier a b =
    pos_part b.load_level + neg_part a.load_level ≤ pos_part a.load_level + neg_part b.load_level

abbrev pub IsSorted : List SdEndpoint → Type 0
IsSorted [] = Unit
IsSorted (e ∷ es) = All (Heavier e) es × IsSorted es

-- Where an endpoint went in a list: its place, and those that stay as they were around it.
pub record Placed (e : SdEndpoint) (list result : List SdEndpoint) : Type 0 where
  pub before : List SdEndpoint
  pub after : List SdEndpoint
  pub was : list ≡ before ++ after
  pub is : result ≡ before ++ (e ∷ after)

insert_before-Placed :
    (e : SdEndpoint) (list : List SdEndpoint) → Placed e list (insert_before e list)
unfolding insert_before
insert_before-Placed e [] = record { before = []; after = []; was = refl; is = refl }
insert_before-Placed e (now ∷ rest) = elim (Bool-cases (leb_ℤ now.load_level e.load_level)) [
  | inl h ↦ record { before = []; after = now ∷ rest; was = refl; is = rw h refl }
  | inr h ↦
      let p = insert_before-Placed e rest in
      record {
        before = now ∷ p.before;
        after = p.after;
        was = ap (◌∷◌ now) p.was;
        is = rw h (ap (◌∷◌ now) p.is);
      }
]

All-trans :
    (a b : SdEndpoint) (list : List SdEndpoint)
    → Heavier a b
    → All (Heavier b) list
    → All (Heavier a) list
All-trans a b [] h all = tt
All-trans a b (c ∷ list) h (p, all) = (omega arith, All-trans a b list h all)

All-insert_before :
    (a e : SdEndpoint) (list : List SdEndpoint)
    → Heavier a e
    → All (Heavier a) list
    → All (Heavier a) (insert_before e list)
unfolding insert_before
All-insert_before a e [] h all = (h, tt)
All-insert_before a e (now ∷ rest) h (p, all) =
    elim (Bool-cases (leb_ℤ now.load_level e.load_level)) [
      | inl c ↦ rw c (h, (p, all))
      | inr c ↦ rw c (p, All-insert_before a e rest h all)
    ]

insert_before-IsSorted :
    (e : SdEndpoint) (list : List SdEndpoint) → IsSorted list → IsSorted (insert_before e list)
unfolding insert_before
insert_before-IsSorted e [] s = (tt, tt)
insert_before-IsSorted e (now ∷ rest) (all, s) =
    elim (Bool-cases (leb_ℤ now.load_level e.load_level)) [
      | inl c ↦
          let lighter : Heavier e now = leb→le _ _ c in
          rw c ((lighter, All-trans e now rest lighter all), (all, s))
      | inr c ↦
          let heavier : Heavier now e = omega (arith, not_leb→lt _ _ c) in
          rw c (All-insert_before now e rest heavier all, insert_before-IsSorted e rest s)
    ]

-- An endpoint goes in with its `remain` set to its load level, all others stay in their order, and a
-- list from high to low load levels stays one.
pub insert_endpoint-IsSorted :
    (e : SdEndpoint) (list : List SdEndpoint)
    → IsSorted list
    → Placed (record e { remain = e.load_level }) list (insert_endpoint e list)
      × IsSorted (insert_endpoint e list)
unfolding insert_endpoint
insert_endpoint-IsSorted e list s =
    let e' = record e { remain = e.load_level } in
    (insert_before-Placed e' list, insert_before-IsSorted e' list s)
