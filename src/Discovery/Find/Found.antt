-- ===== src/Discovery/Find/Found.antt =====
-- What sd_service_find leaves in the table for the look-ups that follow.
use mw_race_service_mesh_c.Base.{
  ℕ, ◌≤◌, ◌<◌, ◌≡◌, ◌≢◌, refl, sym, ap, ◌∙◌, subst, Bool, none, some, none-ne-some, List, [], ◌∷◌,
  arith, length, get_or, set, set-set, get_or-set_self, get_or-set_ne,
}
use native.Mathlib.Nat.{mod-lt}
use mw_race_service_mesh_c.Base.Int.{ℤ, negsuc}
use mw_race_service_mesh_c.Discovery.Types.{SdServiceNode, SdHandle}
use mw_race_service_mesh_c.Discovery.Balance.{FloatOps, take_optimal}
use mw_race_service_mesh_c.Discovery.Table.{
  hash_code, entry_index, bucket, set_bucket, new_node, add_and_init_service, get_service_node,
  find_name, first_node, add_at,
}
use mw_race_service_mesh_c.Discovery.Find.{
  optimal_or_find, after_find, Work, Discovery, Reply, no_json, read_reply, store_node,
  service_find, find_in, get_optimal_endpoint,
}

-- A bucket without a first node is empty.
first_node-empty : (nodes : List SdServiceNode) → first_node nodes ≡ none → nodes ≡ []
first_node-empty [] e = refl
first_node-empty (p ∷ nodes) e = absurd (none-ne-some p (sym e))

add_and_init_service-new :
    (h : SdHandle) (service_name : List ℕ)
    → get_service_node h service_name ≡ none
    → add_and_init_service h service_name
      ≡ some (0, set_bucket h (entry_index h service_name) (new_node service_name ∷ []))
unfolding add_and_init_service get_service_node
add_and_init_service-new h service_name e =
    let i = entry_index h service_name in
    let empty = first_node-empty (bucket h i) e in
    subst
      (λ nodes.
        add_at h i service_name (find_name nodes service_name)
        ≡ some (0, set_bucket h i (new_node service_name ∷ [])))
      (sym empty) (ap (λ nodes. some (0, set_bucket h i (new_node service_name ∷ nodes))) empty)

-- The table of a handle has all its buckets.
abbrev pub IsTable : SdHandle → Type 0
IsTable h = (0 < h.service_tb_size) × (h.service_tb_size ≤ length h.service_tb)

-- A new node, as the reply left it, alone in its bucket.
abbrev stored : SdHandle → List ℕ → ℤ → Work → ℤ × Discovery
stored h service_name code w = (code, (set_bucket h (entry_index h service_name) (w.0 ∷ []), w.1))

bucket-set_self :
    (h : SdHandle) (service_name : List ℕ) (nodes : List SdServiceNode)
    → IsTable h
    → bucket (set_bucket h (entry_index h service_name) nodes) (entry_index h service_name) ≡ nodes
bucket-set_self h service_name nodes (some_size, enough) =
    get_or-set_self h.service_tb (entry_index h service_name) nodes []
      (omega (arith, mod-lt (hash_code service_name) {m = h.service_tb_size} some_size))

service_find-new :
    (h : SdHandle) (requests : List ℕ) (service_name : List ℕ) (reply : Reply)
    (connected : List Bool) (code : ℤ) (w : Work)
    → IsTable h
    → get_service_node h service_name ≡ none
    → read_reply reply connected (new_node service_name, requests) ≡ some (code, w)
    → service_find (h, requests) service_name reply connected ≡ some (stored h service_name code w)
unfolding service_find
service_find-new h requests service_name reply connected code w t e done =
    let i = entry_index h service_name in
    let one : List SdServiceNode = new_node service_name ∷ [] in
    let h1 = set_bucket h i one in
    let at = bucket-set_self h service_name one t in
    ap (find_in reply connected requests i) (add_and_init_service-new h service_name e)
    ∙ ap
        (λ nodes.
          store_node h1 i 0 (read_reply reply connected (get_or nodes 0 (new_node []), requests)))
        at
    ∙ ap (store_node h1 i 0) done
    ∙ ap (λ nodes. some (code, (set_bucket h1 i (set nodes 0 w.0), w.1))) at
    ∙ ap (λ tb. some (code, (record h { service_tb = tb }, w.1)))
        (set-set h.service_tb i one (w.0 ∷ []))

-- A look-up whose name has the bucket of a service that was just found gets that service's node,
-- whatever its own name is.
pub service_find-same_bucket :
    (h : SdHandle) (requests : List ℕ) (service_name other : List ℕ) (reply : Reply)
    (connected : List Bool) (code : ℤ) (w : Work)
    → IsTable h
    → get_service_node h service_name ≡ none
    → entry_index h other ≡ entry_index h service_name
    → read_reply reply connected (new_node service_name, requests) ≡ some (code, w)
    → (d : Discovery) × (service_find (h, requests) service_name reply connected ≡ some (code, d))
      × (get_service_node d.0 other ≡ some w.0)
unfolding get_service_node
service_find-same_bucket h requests service_name other reply connected code w t e same done =
    let i = entry_index h service_name in
    (
      (set_bucket h i (w.0 ∷ []), w.1),
      service_find-new h requests service_name reply connected code w t e done,
      ap first_node (
          ap (bucket (set_bucket h i (w.0 ∷ []))) same
          ∙ bucket-set_self h service_name (w.0 ∷ []) t),
    )

-- Discovery of a service leaves the other buckets of the table alone.
pub service_find-other_bucket :
    (h : SdHandle) (requests : List ℕ) (service_name other : List ℕ) (reply : Reply)
    (connected : List Bool) (code : ℤ) (w : Work)
    → IsTable h
    → get_service_node h service_name ≡ none
    → entry_index h service_name ≢ entry_index h other
    → read_reply reply connected (new_node service_name, requests) ≡ some (code, w)
    → (d : Discovery) × (service_find (h, requests) service_name reply connected ≡ some (code, d))
      × (get_service_node d.0 other ≡ get_service_node h other)
unfolding get_service_node
service_find-other_bucket h requests service_name other reply connected code w t e differ done =
    let i = entry_index h service_name in
    (
      (set_bucket h i (w.0 ∷ []), w.1),
      service_find-new h requests service_name reply connected code w t e done,
      ap first_node (get_or-set_ne h.service_tb (w.0 ∷ []) [] differ),
    )

-- When etcd does not answer the first look-up of a service, that request gets NULL, and the next one
-- for the service uses the uninitialised pointer.
pub get_optimal_endpoint-after_failure :
    (F : FloatOps) (h : SdHandle) (requests : List ℕ) (service_name : List ℕ) (reply : Reply)
    (connected connected' : List Bool)
    → IsTable h
    → get_service_node h service_name ≡ none
    → (d : Discovery) × (get_optimal_endpoint F (h, requests) service_name no_json connected
        ≡ some (none, d))
      × (get_optimal_endpoint F d service_name reply connected' ≡ none)
unfolding get_optimal_endpoint take_optimal
get_optimal_endpoint-after_failure F h requests service_name reply connected connected' t e =
    let i = entry_index h service_name in
    let found =
      service_find-same_bucket h requests service_name service_name no_json connected (negsuc 0)
        (new_node service_name, requests) t e refl refl in
    (
      found.0,
      ap (optimal_or_find F (h, requests) service_name no_json connected) e
          ∙ ap (after_find F service_name) found.1,
      ap (optimal_or_find F found.0 service_name reply connected') found.2 ∙ refl,
    )
