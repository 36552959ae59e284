-- ===== src/Cc3220sf/Requests.antt =====
-- cc3220sf.c, HTTP requests: from SimpleLinkNetAppRequestEventHandler through the queue to the
-- handler, and the memory that they take.
use tisdk_cc32xx_issues.Prelude.{
  ℕ, ◌+◌, ◌-◌, ◌≡◌, Bool, true, List, [], ◌∷◌, length, arith, if◌then◌else◌,
}
use tisdk_cc32xx_issues.Cc3220sf.Types.{
  Device, DevCall, Host, Request, RequestType, http_get, http_delete, http_post, http_put,
  other_request, http_get_handler, http_post_handler,
}
use tisdk_cc32xx_issues.Cc3220sf.Run.{ret}
use tisdk_cc32xx_issues.Cc3220sf.Handlers.{
  response_pending, response_500_internal_server_error, net_app_request_handler, queue_http_request,
  queue_request, alloc, alloc_part, post_request,
}
use tisdk_cc32xx_issues.Cc3220sf.Serving.{
  sm_http_message, answer_request, free_request, request_bytes,
}
use tisdk_cc32xx_issues.Cc3220sf.Timeouts.{ReturnsWith}

-- The handler that a type of request is for
abbrev pub handler_call : Request → RequestType → List DevCall → List DevCall
handler_call r http_get cs = http_get_handler r ∷ cs
handler_call r http_delete cs = http_get_handler r ∷ cs
handler_call r http_post cs = http_post_handler r ∷ cs
handler_call r http_put cs = http_post_handler r ∷ cs
handler_call r other_request cs = cs

-- The device behind a request that was served, where the queue has delivered it as `q`
pub record HasServed (host : Host) (r q : Request) (d e : Device) : Type 0 where
  pub queue_empty : e.http_q ≡ []
  pub memory_back : e.allocated ≡ d.allocated + request_bytes host r - request_bytes host q
  pub called : e.calls ≡ handler_call q q.request_type d.calls

queue_request-queues :
    (host : Host) (r : Request) (d e : Device)
    → d.http_q ≡ []
    → queue_request host r d ≡ ret response_pending e
    → (e.http_q ≡ host.through_queue r ∷ [])
      × ((e.allocated ≡ d.allocated + request_bytes host r) × (e.calls ≡ d.calls))
unfolding queue_request alloc alloc_part post_request request_bytes
queue_request-queues host r d e q a = ground arith

queue_http_request-queues :
    (host : Host) (r : Request) (t : RequestType) (d e : Device)
    → d.http_q ≡ []
    → queue_http_request host r t d ≡ ret response_pending e
    → (e.http_q ≡ host.through_queue r ∷ [])
      × ((e.allocated ≡ d.allocated + request_bytes host r) × (e.calls ≡ d.calls))
unfolding queue_http_request
queue_http_request-queues host r other_request d e q a = ground arith
queue_http_request-queues host r _ d e q a = queue_request-queues host r d e q a

serve_queued :
    (host : Host) (r q : Request) (d e : Device)
    → e.http_q ≡ q ∷ []
    → e.allocated ≡ d.allocated + request_bytes host r
    → e.calls ≡ d.calls
    → ReturnsWith (HasServed host r q d) (sm_http_message host e)
unfolding sm_http_message answer_request free_request
serve_queued host r q d e h a c = ground arith

-- A request that the handler accepts while the queue is empty is served by the next run of
-- http_message: the one call made goes to the handler for the type of the request that the queue
-- delivers, with that request. The queue is empty again, and of the memory that the accepted request
-- took, as much is given back as the delivered one takes, so that none is left if they are the same.
pub request-served :
    (host : Host) (r : Request) (d e : Device)
    → d.http_q ≡ []
    → net_app_request_handler host r d ≡ ret response_pending e
    → ReturnsWith (HasServed host r (host.through_queue r) d) (sm_http_message host e)
unfolding net_app_request_handler
request-served host r d e q a =
    let p = queue_http_request-queues host r r.request_type d e q a in
    serve_queued host r (host.through_queue r) d e p.0 p.1.0 p.1.1

abbrev pub part_fits : Host → ℕ → List ℕ → Bool
part_fits host used [] = true
part_fits host used (b ∷ bs) = host.has_block used (length (b ∷ bs))

-- The bytes that a refused request keeps: which allocation failed decides.
abbrev pub kept_bytes : Host → Request → Device → ℕ
kept_bytes host r d =
    let with_item = d.allocated + host.request_size in
    if host.has_block d.allocated host.request_size
    then (if part_fits host with_item r.metadata
        then host.request_size + length r.metadata
        else host.request_size)
    else 0

-- A request that is refused because a block is missing is not queued, and what was allocated for it is
-- not given back: the block for the request itself, and the one for the metadata if the payload is
-- what had no room.
pub request-refused :
    (host : Host) (r : Request) (d e : Device)
    → queue_request host r d ≡ ret response_500_internal_server_error e
    → (e.http_q ≡ d.http_q) × (e.allocated ≡ d.allocated + kept_bytes host r d)
unfolding queue_request alloc alloc_part post_request
request-refused host r d e a = ground arith
