-- ===== src/Consumer/Handler/Forwarded.antt =====
-- A request for a known service.
use mw_race_service_mesh_c.Base.{
  ℕ, ◌<◌, ◌≡◌, refl, sym, ap, ◌∙◌, subst, Bool, true, Option, none, some, List, ◌∷◌, ◌++◌, arith,
  ltb, if◌then◌else◌, lt→ltb, length, get_or, set, All, get_or-set_self,
}
use mw_race_service_mesh_c.Base.Int.{ℤ, pos, ltb_ℤ}
use mw_race_service_mesh_c.Base.CString.{c_string}
use mw_race_service_mesh_c.Acm.Types.{AcmHandle, AcmChannel}
use mw_race_service_mesh_c.Acm.Connect.{new_channel}
use mw_race_service_mesh_c.Acm.Request.{next_id, request}
use mw_race_service_mesh_c.Acm.Write.History.{new_task, Enqueued, request-Enqueued}
use mw_race_service_mesh_c.Discovery.Types.{SdServiceNode}
use mw_race_service_mesh_c.Discovery.Balance.{FloatOps, take_optimal}
use mw_race_service_mesh_c.Discovery.Table.{get_service_node}
use mw_race_service_mesh_c.Discovery.Find.{get_optimal_endpoint, optimal_or_find, taken_from}
use mw_race_service_mesh_c.Http.Types.{HsChannel}
use mw_race_service_mesh_c.Consumer.Form.Decoded.{
  Encoding, Ending, IsNameByte, get_service_name-decodes,
}
use mw_race_service_mesh_c.Consumer.Handler.{
  Agent, Outside, acm_listening, with_new, forward, answer_failed, answer_or_forward, handle_named,
  content_handler,
}

known_service :
    (F : FloatOps) (o : Outside) (a : Agent) (service_name : List ℕ) (p : SdServiceNode) (k : ℕ)
    (requests : List ℕ)
    → get_service_node a.discovery.0 service_name ≡ some p
    → take_optimal F a.discovery.1 p.comsuming_list ≡ some (k, requests)
    → get_optimal_endpoint F a.discovery service_name o.reply o.connected
      ≡ some (some k, (a.discovery.0, requests))
unfolding get_optimal_endpoint
known_service F o a service_name p k requests e t =
    ap (optimal_or_find F a.discovery service_name o.reply o.connected) e
    ∙ ap (taken_from F a.discovery.0) t

when : {A : Type 0} (b : Bool) (x y : A) → b ≡ true → (if b then x else y) ≡ x
when b x y e = rw e refl

request-status :
    (h : AcmHandle) (c : AcmChannel) (buf : List ℕ) (size : ℕ) (f : Option ℕ) (arg : ℕ)
    → (request true h c buf size f arg).0 ≡ pos 1
unfolding request
request-status h c buf size f arg = ground arith

taken_on :
    {A : Type 0} (status : ℤ) (x y : A)
    → status ≡ pos 1
    → (if ltb_ℤ status (pos 0) then x else y) ≡ y
taken_on status x y e = subst (λ z. (if ltb_ℤ z (pos 0) then x else y) ≡ y) (sym e) refl

-- The agent after acm_request on the channel `k`.
abbrev sent_on : Outside → Agent → List ℕ → ℕ → ℕ → Agent
sent_on o a content size k =
    let r =
      request o.epoll_ok a.handle (get_or a.channels k (new_channel o.memory)) content size
        (some acm_listening) o.hs_channel in
    record a { handle = r.1; channels = set a.channels k r.2 }

forward-sent_on :
    (o : Outside) (a : Agent) (ch : HsChannel) (content : List ℕ) (size k : ℕ)
    → o.epoll_ok ≡ true
    → forward o a ch content size k ≡ some (sent_on o a content size k, ch)
unfolding forward
forward-sent_on o a ch content size k ok =
    let c = get_or a.channels k (new_channel o.memory) in
    taken_on (request o.epoll_ok a.handle c content size (some acm_listening) o.hs_channel).0
      (answer_failed (sent_on o a content size k) ch) (some (sent_on o a content size k, ch))
      (subst (λ b. (request b a.handle c content size (some acm_listening) o.hs_channel).0 ≡ pos 1)
        (sym ok) (request-status a.handle c content size (some acm_listening) o.hs_channel))

-- What a request that was handed on leaves: the requests in flight are those that the selection
-- counted, and the channel `k` has a task with the content behind those that it had.
pub record Forwarded (o : Outside) (a : Agent) (content : List ℕ) (size k : ℕ) (requests : List ℕ)
    (a' : Agent) : Type 0 where
  pub counted : a'.discovery ≡ (a.discovery.0, requests)
  pub enqueued :
      Enqueued a.handle
        (get_or (with_new a.channels (length requests) o.memory) k (new_channel o.memory))
        (new_task (next_id a.handle) content size)
        a'.handle
        (get_or a'.channels k (new_channel o.memory))

-- A form whose first parameter has an encoded value of fewer than 128 bytes, for whose bytes before its
-- first zero byte the look-up finds a node with an endpoint to select, on a channel that there is: with
-- epoll_ctl
-- successful, content_handler puts the form as a task into that channel's write queue, keeps the
-- count of requests of the selection, and leaves the web server's channel alone.
pub content_handler-Forwarded :
    (F : FloatOps) (o : Outside) (a : Agent) (ch : HsChannel) (size : ℕ)
    (name value encoded rest : List ℕ) (p : SdServiceNode) (k : ℕ) (requests : List ℕ)
    → All IsNameByte name
    → Encoding value encoded
    → Ending rest
    → length value < 128
    → get_service_node a.discovery.0 (c_string value) ≡ some p
    → take_optimal F a.discovery.1 p.comsuming_list ≡ some (k, requests)
    → k < length (with_new a.channels (length requests) o.memory)
    → o.epoll_ok ≡ true
    → (a' : Agent) × (content_handler F o a ch (name ++ (61 ∷ (encoded ++ rest))) size
        ≡ some (a', ch))
      × Forwarded o a (name ++ (61 ∷ (encoded ++ rest))) size k requests a'
unfolding content_handler
content_handler-Forwarded F o a ch size name value encoded rest p k requests all enc ending short
      node found inside ok =
    let content = name ++ (61 ∷ (encoded ++ rest)) in
    let a1 = record a {
      discovery = (a.discovery.0, requests);
      channels = with_new a.channels (length requests) o.memory;
    } in
    let c = get_or a1.channels k (new_channel o.memory) in
    let r = request o.epoll_ok a.handle c content size (some acm_listening) o.hs_channel in
    let here = get_or-set_self a1.channels k r.2 (new_channel o.memory) inside in
    (
      sent_on o a1 content size k,
      ap (handle_named F o a ch content size)
            (get_service_name-decodes name value encoded rest all enc ending)
          ∙ when (ltb (length value) 128) _ none (lt→ltb _ _ short)
          ∙ ap (answer_or_forward o a ch content size)
              (known_service F o a (c_string value) p k requests node found)
          ∙ forward-sent_on o a1 ch content size k ok,
      record {
        counted = refl;
        enqueued =
            subst (Enqueued a.handle c (new_task (next_id a.handle) content size) r.1) (sym here) (
              request-Enqueued o.epoll_ok a.handle c content size (some acm_listening)
                o.hs_channel);
      },
    )
