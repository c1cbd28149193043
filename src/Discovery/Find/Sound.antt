-- ===== src/Discovery/Find/Sound.antt =====
-- The endpoints that sd_service_find links into a service.
use mw_race_service_mesh_c.Base.{
  ℕ, ◌+◌, ◌≤◌, ◌<◌, ◌≡◌, refl, inl, inr, Bool, true, false, Option, none, some, List, [], ◌∷◌, ◌++◌,
  arith, ltb, not_ltb→le, Bool-cases, length, replicate, All, length-append,
}
use mw_race_service_mesh_c.Base.Int.{ℤ, pos_part, leb_ℤ}
use mw_race_service_mesh_c.Discovery.Address.{parse_ip_and_port}
use mw_race_service_mesh_c.Base.CString.{atoi, is_int}
use mw_race_service_mesh_c.Discovery.Types.{SdEndpoint, SdServiceNode}
use mw_race_service_mesh_c.Discovery.Endpoints.{
  insert_endpoint, insert_before, IsSorted, insert_endpoint-IsSorted,
}
use mw_race_service_mesh_c.Discovery.Find.{
  Reply, no_json, no_node, no_nodes, nodes, read_reply, Item, missing, null, no_string, string,
  Node, Work, Round, returns, goes_on, link_endpoint, max_load_balance_list_len, continue_with,
  connect_endpoint, use_address, add_node, add_nodes,
}

abbrev OnChannel : ℕ → SdEndpoint → Type 0
OnChannel count e = e.agent_channel < count

-- A service node with the requests in flight on each channel.
pub record IsSound (w : Work) : Type 0 where
  pub sorted : IsSorted w.0.comsuming_list
  pub on_channels : All (OnChannel (length w.1)) w.0.comsuming_list
  pub list_fits : length w.0.load_balance_list ≤ max_load_balance_list_len

-- A result that is defined is sound.
abbrev SoundRound : Option Round → Type 0
SoundRound none = Unit
SoundRound (some (returns code w)) = IsSound w
SoundRound (some (goes_on w)) = IsSound w

abbrev pub SoundResult : Option (ℤ × Work) → Type 0
SoundResult none = Unit
SoundResult (some (code, w)) = IsSound w

more_channels :
    (n m : ℕ) (es : List SdEndpoint) → n ≤ m → All (OnChannel n) es → All (OnChannel m) es
more_channels n m [] h all = tt
more_channels n m (e ∷ es) h (c, all) = (omega arith, more_channels n m es h all)

insert_before-OnChannel :
    (n : ℕ) (e : SdEndpoint) (es : List SdEndpoint)
    → OnChannel n e
    → All (OnChannel n) es
    → All (OnChannel n) (insert_before e es)
unfolding insert_before
insert_before-OnChannel n e [] c all = (c, tt)
insert_before-OnChannel n e (now ∷ es) c (cn, all) =
    elim (Bool-cases (leb_ℤ now.load_level e.load_level)) [
      | inl stop ↦ rw stop (c, (cn, all))
      | inr on ↦ rw on (cn, insert_before-OnChannel n e es c all)
    ]

link_endpoint-SoundRound :
    (p : SdServiceNode) (requests : List ℕ) (e : SdEndpoint)
    → e.agent_channel ≡ length requests
    → IsSound (p, requests)
    → SoundRound (continue_with (requests ++ (0 ∷ [])) (link_endpoint p e))
unfolding link_endpoint insert_endpoint
link_endpoint-SoundRound p requests e new s =
    let lb = p.load_balance_list ++ replicate (pos_part e.load_level) e in
    let count : length (requests ++ (0 ∷ [])) ≡ length requests + 1 =
      length-append requests (0 ∷ []) in
    let e' = record e { remain = e.load_level } in
    elim (Bool-cases (ltb max_load_balance_list_len (length lb))) [
      | inl past ↦ rw past tt
      | inr fits ↦ rw fits (record {
        sorted = (insert_endpoint-IsSorted e p.comsuming_list s.sorted).1;
        on_channels =
            insert_before-OnChannel (length (requests ++ (0 ∷ []))) e' p.comsuming_list
              (omega (arith, count))
              (more_channels (length requests) (length (requests ++ (0 ∷ []))) p.comsuming_list
                (omega (arith, count)) s.on_channels);
        list_fits = not_ltb→le _ _ fits;
      })
    ]

connect_endpoint-SoundRound :
    (w : Work) (connected : Bool) (value : Item)
    → IsSound w
    → SoundRound (connect_endpoint w connected value)
unfolding connect_endpoint
connect_endpoint-SoundRound (p, requests) false value s = s
connect_endpoint-SoundRound (p, requests) true (string t) s =
    let level = atoi t in
    elim (Bool-cases (is_int level)) [
      | inl fits ↦ rw fits (
          link_endpoint-SoundRound p requests
            (record { agent_channel = length requests; load_level = level; remain = level }) refl s)
      | inr large ↦ rw large tt
    ]
connect_endpoint-SoundRound (p, requests) true missing s = tt
connect_endpoint-SoundRound (p, requests) true null s = tt
connect_endpoint-SoundRound (p, requests) true no_string s = tt

by_items-SoundRound :
    (w : Work) (key value : Item) (connected : Bool)
    → IsSound w
    → SoundRound (add_node w (record { key = key; value = value }) connected)
unfolding add_node
by_items-SoundRound w missing value connected s = tt
by_items-SoundRound w null missing connected s = tt
by_items-SoundRound w null null connected s = s
by_items-SoundRound w null no_string connected s = s
by_items-SoundRound w null (string v) connected s = s
by_items-SoundRound w no_string missing connected s = tt
by_items-SoundRound w no_string null connected s = s
by_items-SoundRound w no_string no_string connected s = tt
by_items-SoundRound w no_string (string v) connected s = tt
by_items-SoundRound w (string t) missing connected s = tt
by_items-SoundRound w (string t) null connected s = s
by_items-SoundRound w (string t) no_string connected s =
    elim (Bool-cases (use_address (parse_ip_and_port t))) [
      | inl ok ↦ rw ok (connect_endpoint-SoundRound w connected no_string s)
      | inr bad ↦ rw bad tt
    ]
by_items-SoundRound w (string t) (string v) connected s =
    elim (Bool-cases (use_address (parse_ip_and_port t))) [
      | inl ok ↦ rw ok (connect_endpoint-SoundRound w connected (string v) s)
      | inr bad ↦ rw bad tt
    ]

add_nodes-SoundResult :
    (r : Option Round) (ns : List Node) (connected : List Bool)
    → SoundRound r
    → SoundResult (add_nodes r ns connected)
unfolding add_nodes
add_nodes-SoundResult none ns connected s = tt
add_nodes-SoundResult (some (returns code w)) ns connected s = s
add_nodes-SoundResult (some (goes_on w)) [] connected s = s
add_nodes-SoundResult (some (goes_on w)) (n ∷ ns) [] s =
    add_nodes-SoundResult (add_node w n false) ns [] (by_items-SoundRound w n.key n.value false s)
add_nodes-SoundResult (some (goes_on w)) (n ∷ ns) (c ∷ connected) s =
    add_nodes-SoundResult (add_node w n c) ns connected (by_items-SoundRound w n.key n.value c s)

-- A reply of etcd on a sound service leaves a sound one, whatever it holds and whichever connections
-- succeed, when its result is defined: the endpoints are sorted by load level and on channels that
-- there are, and the load balance list fits its array.
pub read_reply-IsSound :
    (reply : Reply) (connected : List Bool) (w : Work)
    → IsSound w
    → SoundResult (read_reply reply connected w)
read_reply-IsSound no_json connected w s = s
read_reply-IsSound no_node connected w s = s
read_reply-IsSound no_nodes connected w s = s
read_reply-IsSound (nodes ns) connected w s =
    add_nodes-SoundResult (some (goes_on w)) ns connected s
