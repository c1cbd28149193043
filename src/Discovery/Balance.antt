-- ===== src/Discovery/Balance.antt =====
-- sd_get_optimal_endpoint, from the spin lock on: the endpoint with the fewest requests in flight for
-- its load level. The arithmetic of C's `float` is an interface of which the laws of a strict order are used.
pub mod Least
use mw_race_service_mesh_c.Base.{
  ℕ, zero, suc, ◌+◌, ◌-◌, ◌*◌, ◌/◌, ◌%◌, ◌^◌, ◌≤◌, ◌<◌, min, ◌≡◌, ◌≢◌, refl, sym, ap, ap₂, ◌∙◌,
  subst, ◌↔◌, ◌⊎◌, inl, inr, Bool, true, false, not, ◌&&◌, ◌||◌, Option, none, some, some-injective,
  none-ne-some, List, [], ◌∷◌, ◌++◌, append_assoc, append-nil, arith, ltb, leb, ◌==◌, if◌then◌else◌,
  ltb→lt, not_ltb→le, lt→ltb, le→not_ltb, leb→le, not_leb→lt, ==_iff, ==_refl, not_==→≢, not_zero,
  Bool-cases, Option-cases, length, get_elem?, get_or, set, take, drop, replicate, write_at, All,
  All-append, length-append, length-set, get_or-set_self, get_or-set_ne, length-take, length-drop,
  length-replicate,
}
use mw_race_service_mesh_c.Base.Int.{ℤ, pos, to_int, ltb_ℤ}
use mw_race_service_mesh_c.Discovery.Types.{SdEndpoint}

-- The operations of `float`. The comparison is a strict order: one with a NaN is false.
pub record FloatOps : Type 1 where
  pub Float : Type 0
  pub of_int : ℤ → Float
  pub div : Float → Float → Float
  pub lt : Float → Float → Bool
  pub lt_irrefl : (a : Float) → lt a a ≡ false
  pub lt_trans : (a b c : Float) → lt a b ≡ true → lt b c ≡ true → lt a c ≡ true

-- The requests in flight on the channel of an endpoint, an `unsigned long`.
abbrev pub request_num : List ℕ → SdEndpoint → ℕ
request_num requests e = get_or requests e.agent_channel 0

-- `int cur_req_num = p_endpoint->p_agent_channel->request_num`
abbrev pub cur_req_num : List ℕ → SdEndpoint → ℤ
cur_req_num requests e = to_int (request_num requests e)

module _ (F : FloatOps) where
  -- `min_ppl` and `p_optimal_endpoint`, which is not initialised.
  pub record Best : Type 0 where
    pub min_ppl : F.Float
    pub optimal : Option SdEndpoint

  abbrev pub ppl : List ℕ → SdEndpoint → F.Float
  ppl requests e = F.div (F.of_int (cur_req_num requests e)) (F.of_int e.load_level)

  abbrev pub max_ppl : F.Float
  max_ppl = F.of_int (pos 999999999)

  -- One round of the loop over `comsuming_list`.
  unfoldable pub compare_endpoint : List ℕ → Best → SdEndpoint → Best
  compare_endpoint requests b e =
      if F.lt (ppl requests e) b.min_ppl && ltb_ℤ (cur_req_num requests e) (pos 200)
      then record { min_ppl = ppl requests e; optimal = some e }
      else b

  unfoldable pub compare_all : List ℕ → List SdEndpoint → Best → Best
  unfolding compare_endpoint
  compare_all requests [] b = b
  compare_all requests (e ∷ es) b = compare_all requests es (compare_endpoint requests b e)

  abbrev pub claim_endpoint : List ℕ → Option SdEndpoint → Option (ℕ × List ℕ)
  claim_endpoint requests none = none
  claim_endpoint requests (some e) =
      let counted = suc (request_num requests e) % 2 ^ 64 in
      some (e.agent_channel, set requests e.agent_channel counted)

  -- The channel, and the requests in flight on each channel with the new one. `none` is the
  -- use of the uninitialised pointer.
  unfoldable pub take_optimal : List ℕ → List SdEndpoint → Option (ℕ × List ℕ)
  unfolding compare_all
  take_optimal requests es =
      claim_endpoint requests
        (compare_all requests es (record { min_ppl = max_ppl; optimal = none })).optimal
