-- ===== src/Consumer/Handler.antt =====
-- content_handler and acm_listening: a decoded request goes to a provider agent, and what the agent
-- answers goes back to the web server.
pub mod Forwarded
pub mod Listened
use mw_race_service_mesh_c.Base.{
  ℕ, zero, suc, ◌+◌, ◌-◌, ◌*◌, ◌/◌, ◌%◌, ◌^◌, ◌≤◌, ◌<◌, bit_and, bit_or, min, ◌≡◌, ◌≢◌, refl, sym,
  ap, ap₂, ◌∙◌, subst, ◌↔◌, ◌⊎◌, inl, inr, Bool, true, false, not, ◌&&◌, ◌||◌, Option, none, some,
  some-injective, none-ne-some, List, [], ◌∷◌, ◌++◌, append_assoc, append-nil, arith, ltb, leb,
  ◌==◌, if◌then◌else◌, ltb→lt, not_ltb→le, lt→ltb, le→not_ltb, leb→le, not_leb→lt, ==_iff, ==_refl,
  not_==→≢, le→leb, lt→not_leb, not_zero, pos→not_zero, both, not_both, true≢false, Bool-cases,
  Option-cases, length, get_elem?, get_or, set, take, drop, replicate, write_at, All, All-append,
  length-append, length-set, set-set, get_or-set_self, get_or-set_ne, length-take, length-drop,
  length-replicate,
}
use mw_race_service_mesh_c.Base.Int.{ℤ, pos, ltb_ℤ}
use mw_race_service_mesh_c.Base.CString.{c_string}
use mw_race_service_mesh_c.Acm.Types.{AcmHandle, AcmChannel}
use mw_race_service_mesh_c.Acm.Request.{request}
use mw_race_service_mesh_c.Acm.Connect.{Memory, new_channel}
use mw_race_service_mesh_c.Discovery.Balance.{FloatOps}
use mw_race_service_mesh_c.Discovery.Find.{Discovery, Reply, get_optimal_endpoint}
use mw_race_service_mesh_c.Http.Types.{HsChannel}
use mw_race_service_mesh_c.Http.Io.{response_ok}
use mw_race_service_mesh_c.Consumer.Form.{get_service_name}

-- The agent's global state: `gp_sd_handle`, the handle of the manager, and the channels by number.
pub record Agent : Type 0 where
  pub discovery : Discovery
  pub handle : AcmHandle
  pub channels : List AcmChannel

-- What the calls of a request meet: etcd's reply, the outcomes of acm_connect, the memory of new
-- channels, the outcome of epoll_ctl, and the number of the web server's channel.
pub record Outside : Type 0 where
  pub reply : Reply
  pub connected : List Bool
  pub memory : Memory
  pub epoll_ok : Bool
  pub hs_channel : ℕ

-- The number of the function acm_listening.
abbrev pub acm_listening : ℕ
acm_listening = 1

-- "Failed!"
abbrev pub failed_body : List ℕ
failed_body = 70 ∷ 97 ∷ 105 ∷ 108 ∷ 101 ∷ 100 ∷ 33 ∷ []

-- The channels that discovery has added.
abbrev pub with_new : List AcmChannel → ℕ → Memory → List AcmChannel
with_new channels count m = channels ++ replicate (count - length channels) (new_channel m)

-- The channel after hs_response_ok, whose result nothing looks at.
abbrev pub responded : Option (ℤ × HsChannel) → Option HsChannel
responded none = none
responded (some (_, ch)) = some ch

abbrev pub with_channel : Agent → Option HsChannel → Option (Agent × HsChannel)
with_channel a none = none
with_channel a (some ch) = some (a, ch)

abbrev pub answer_failed : Agent → HsChannel → Option (Agent × HsChannel)
answer_failed a ch = with_channel a (responded (response_ok ch failed_body 7))

-- acm_request on the channel `k`.
unfoldable pub forward : Outside → Agent → HsChannel → List ℕ → ℕ → ℕ → Option (Agent × HsChannel)
forward o a ch content content_size k =
    let c = get_or a.channels k (new_channel o.memory) in
    let (status, h, c') =
      request o.epoll_ok a.handle c content content_size (some acm_listening) o.hs_channel in
    let a' = record a { handle = h; channels = set a.channels k c' } in
    if ltb_ℤ status (pos 0) then answer_failed a' ch else some (a', ch)

abbrev pub answer_or_forward :
    Outside
    → Agent
    → HsChannel
    → List ℕ
    → ℕ
    → Option (Option ℕ × Discovery)
    → Option (Agent × HsChannel)
answer_or_forward o a ch content content_size none = none
answer_or_forward o a ch content content_size (some (none, d)) =
    answer_failed (record a { discovery = d }) ch
answer_or_forward o a ch content content_size (some (some k, d)) =
    let a' = record a { discovery = d; channels = with_new a.channels (length d.1) o.memory } in
    forward o a' ch content content_size k

-- The look-up takes the name as a C string, that ends at its first zero.
abbrev pub handle_named :
    FloatOps
    → Outside
    → Agent
    → HsChannel
    → List ℕ
    → ℕ
    → Option (List ℕ)
    → Option (Agent × HsChannel)
handle_named F o a ch content content_size none = none
handle_named F o a ch content content_size (some service_name) =
    let found = get_optimal_endpoint F a.discovery (c_string service_name) o.reply o.connected in
    let answered = answer_or_forward o a ch content content_size found in
    if ltb (length service_name) 128 then answered else none

-- `none` is undefined: a form that ends in an escape, a name that is longer than its buffer, what
-- service discovery does not define, or an answer that hs_response_ok writes past its buffer.
unfoldable pub content_handler :
    FloatOps → Outside → Agent → HsChannel → List ℕ → ℕ → Option (Agent × HsChannel)
unfolding forward
content_handler F o a ch content content_size =
    handle_named F o a ch content content_size (get_service_name content)

-- The answer without its first two bytes and its last one; `none` is an answer that does not fit
-- `response_body`, or that has fewer than two bytes. The zero that is written behind the answer is
-- left out: it lies outside the message.
unfoldable pub response_body : List ℕ → ℕ → Option (List ℕ)
response_body content size =
    let body = c_string (drop 2 (set content (size - 1) 0)) in
    if leb 2 size && ltb (length body) 64 then some body else none

abbrev pub answer_with : HsChannel → Option (List ℕ) → Option HsChannel
answer_with ch none = none
answer_with ch (some body) = responded (response_ok ch body (length body))

-- acm_listening, on the channel of the web server that the request came from.
unfoldable pub listen : HsChannel → List ℕ → ℕ → Option HsChannel
unfolding response_body
listen ch content size = answer_with ch (response_body content size)
