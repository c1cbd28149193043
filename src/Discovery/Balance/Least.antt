-- ===== src/Discovery/Balance/Least.antt =====
-- The endpoint that sd_get_optimal_endpoint selects.
use mw_race_service_mesh_c.Base.{
  ℕ, suc, ◌%◌, ◌^◌, ◌≡◌, refl, sym, ◌∙◌, subst, inl, inr, true, false, ◌&&◌, Option, none, some,
  List, [], ◌∷◌, ◌++◌, append_assoc, append-nil, both, not_both, true≢false, Bool-cases, set, All,
  All-append,
}
use mw_race_service_mesh_c.Base.Int.{pos, ltb_ℤ}
use mathlib.Core.Bool.{true≢false}
use mathlib.Core.List.{Memᴰ}
use mathlib.Core.List.Memᴰ
use mw_race_service_mesh_c.Discovery.Types.{SdEndpoint}
use mw_race_service_mesh_c.Discovery.Balance.{
  FloatOps, Best, request_num, cur_req_num, ppl, max_ppl, compare_endpoint, compare_all,
  claim_endpoint, take_optimal,
}

module _ (F : FloatOps) (requests : List ℕ) where
  -- An endpoint that may be selected: fewer than 200 requests as an `int`, and a quotient below the first
  -- bound.
  abbrev pub Eligible : SdEndpoint → Type 0
  Eligible e =
      (ltb_ℤ (cur_req_num requests e) (pos 200) ≡ true)
      × (F.lt (ppl F requests e) (max_ppl F) ≡ true)

  abbrev Above : F.Float → SdEndpoint → Type 0
  Above m e = Eligible e → F.lt (ppl F requests e) m ≡ false

  abbrev Chosen : List SdEndpoint → F.Float → Option SdEndpoint → Type 0
  Chosen seen m none = m ≡ max_ppl F
  Chosen seen m (some e) = Memᴰ e seen × Eligible e × (m ≡ ppl F requests e)

  -- What holds of the best endpoint among those seen.
  record IsBest (seen : List SdEndpoint) (b : Best F) : Type 0 where
    above : All (Above b.min_ppl) seen
    chosen : Chosen seen b.min_ppl b.optimal

  Chosen-max :
      (seen : List SdEndpoint) (m : F.Float) (o : Option SdEndpoint) (x : F.Float)
      → Chosen seen m o
      → F.lt x m ≡ true
      → F.lt x (max_ppl F) ≡ true
  Chosen-max seen m none x e lt = subst (λ y. F.lt x y ≡ true) e lt
  Chosen-max seen m (some c) x (_, (_, below), e) lt =
      F.lt_trans x (ppl F requests c) (max_ppl F) (subst (λ y. F.lt x y ≡ true) e lt) below

  Chosen-snoc :
      (seen : List SdEndpoint) (m : F.Float) (o : Option SdEndpoint) (e : SdEndpoint)
      → Chosen seen m o
      → Chosen (seen ++ (e ∷ [])) m o
  Chosen-snoc seen m none e c = c
  Chosen-snoc seen m (some x) e (mem, good, is) = (Memᴰ.append_left (e ∷ []) mem, good, is)

  Above-lower :
      (m m' : F.Float) (seen : List SdEndpoint)
      → F.lt m' m ≡ true
      → All (Above m) seen
      → All (Above m') seen
  Above-lower m m' [] lt all = tt
  Above-lower m m' (x ∷ seen) lt (ax, all) = (
    (λ el. elim (Bool-cases (F.lt (ppl F requests x) m')) [
      | inl h ↦ absurd (true≢false (sym (F.lt_trans (ppl F requests x) m' m h lt) ∙ ax el))
      | inr h ↦ h
    ]),
    Above-lower m m' seen lt all,
  )

  takes-IsBest :
      (seen : List SdEndpoint) (b : Best F) (e : SdEndpoint)
      → IsBest seen b
      → F.lt (ppl F requests e) b.min_ppl ≡ true
      → ltb_ℤ (cur_req_num requests e) (pos 200) ≡ true
      → IsBest (seen ++ (e ∷ [])) (record { min_ppl = ppl F requests e; optimal = some e })
  takes-IsBest seen b e i lt few =
      let x = ppl F requests e in
      record {
        above =
            All-append (Above x) seen (e ∷ []) (Above-lower b.min_ppl x seen lt i.above)
              (λ _. F.lt_irrefl x, tt);
        chosen = (
          Memᴰ.append_right seen (Memᴰ.head refl),
          (few, Chosen-max seen b.min_ppl b.optimal x i.chosen lt),
          refl,
        );
      }

  keeps-IsBest :
      (seen : List SdEndpoint) (b : Best F) (e : SdEndpoint)
      → IsBest seen b
      → (F.lt (ppl F requests e) b.min_ppl && ltb_ℤ (cur_req_num requests e) (pos 200)) ≡ false
      → IsBest (seen ++ (e ∷ [])) b
  keeps-IsBest seen b e i no_better = record {
    above =
        All-append (Above b.min_ppl) seen (e ∷ []) i.above (λ el. not_both _ _ no_better el.0, tt);
    chosen = Chosen-snoc seen b.min_ppl b.optimal e i.chosen;
  }

  compare_endpoint-IsBest :
      (seen : List SdEndpoint) (b : Best F) (e : SdEndpoint)
      → IsBest seen b
      → IsBest (seen ++ (e ∷ [])) (compare_endpoint F requests b e)
  unfolding compare_endpoint
  compare_endpoint-IsBest seen b e i =
      elim (Bool-cases
        (F.lt (ppl F requests e) b.min_ppl && ltb_ℤ (cur_req_num requests e) (pos 200))) [
          | inl better ↦
              let (lt, few) = both _ _ better in rw better (takes-IsBest seen b e i lt few)
          | inr no_better ↦ rw no_better (keeps-IsBest seen b e i no_better)
        ]

  compare_all-IsBest :
      (seen es : List SdEndpoint) (b : Best F)
      → IsBest seen b
      → IsBest (seen ++ es) (compare_all F requests es b)
  unfolding compare_all
  compare_all-IsBest seen [] b i = subst (λ l. IsBest l b) (sym (append-nil seen)) i
  compare_all-IsBest seen (e ∷ es) b i =
      subst (λ l. IsBest l (compare_all F requests es (compare_endpoint F requests b e)))
        (append_assoc seen (e ∷ []) es)
        (compare_all-IsBest (seen ++ (e ∷ [])) es (compare_endpoint F requests b e)
          (compare_endpoint-IsBest seen b e i))

  -- The endpoint that a request goes to.
  abbrev pub IsLeast : List SdEndpoint → SdEndpoint → Type 0
  IsLeast es e = Memᴰ e es × Eligible e × All (Above (ppl F requests e)) es

  -- A request without an endpoint, or the channel of the least one with a request more.
  pub data Taken (es : List SdEndpoint) : Option (ℕ × List ℕ) → Type 0 where
    undefined : All (λ e. ¬ Eligible e) es → Taken es none
    least :
        (e : SdEndpoint)
        → IsLeast es e
        → Taken es (
            some (
              e.agent_channel,
              set requests e.agent_channel (suc (request_num requests e) % 2 ^ 64),
            ))

  not-Eligible : (es : List SdEndpoint) → All (Above (max_ppl F)) es → All (λ e. ¬ Eligible e) es
  not-Eligible [] all = tt
  not-Eligible (e ∷ es) (ae, all) = (λ el. true≢false (sym el.1 ∙ ae el), not-Eligible es all)

  claim_endpoint-Taken :
      (es : List SdEndpoint) (m : F.Float) (o : Option SdEndpoint)
      → All (Above m) es
      → Chosen es m o
      → Taken es (claim_endpoint F requests o)
  claim_endpoint-Taken es m none all e =
      undefined (not-Eligible es (subst (λ x. All (Above x) es) e all))
  claim_endpoint-Taken es m (some e) all (mem, good, is) =
      least e (mem, good, subst (λ x. All (Above x) es) is all)

  -- An endpoint is eligible when its count of requests in flight, converted to an `int`, is below 200, and
  -- that `int` for its load level is below the first bound. A request goes to an eligible endpoint of
  -- the list, and no other eligible one has fewer for its load level; the count of its channel goes up
  -- by one, modulo 2^64. When no endpoint is eligible, and only then, the uninitialised pointer is
  -- used.
  pub take_optimal-Taken : (es : List SdEndpoint) → Taken es (take_optimal F requests es)
  unfolding take_optimal
  take_optimal-Taken es =
      let b0 : Best F = record { min_ppl = max_ppl F; optimal = none } in
      let b = compare_all F requests es b0 in
      let i = compare_all-IsBest [] es b0 (record { above = tt; chosen = refl }) in
      claim_endpoint-Taken es b.min_ppl b.optimal i.above i.chosen
