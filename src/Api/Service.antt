-- ===== src/Api/Service.antt =====
-- server/api/main.go: the routes and the two middlewares of the server, with the metrics of
-- server/api/handlers.go. Routing, the binding of requests and the recovery from a panic are gin's.
pub mod Silent
use facto.Base.{
  ℕ, List, [], ◌∷◌, ◌++◌, Option, none, some, Bool, true, false, ◌&&◌, if◌then◌else◌, eq_bytes,
}
use facto.Go.Text.{Bytes, codes}
use facto.Go.Time.{Time}
use facto.Go.Sha.{Digest}
use facto.Go.Sort.{Sorter}
use facto.Go.Library.{Codec}
use facto.Processor.Storage.{EventRow, SessionRow}
use facto.Api.Event.{EventResponse}
use facto.Api.Storage.{Rows, Single, Page}
use facto.Api.Verify.{Verifier}
use facto.Api.Handlers.{
  Response, failure, success, panicked, Bound, EventsQuery, SessionEventsQuery, VerifyResponse,
  handle_get_events, handle_get_event, handle_get_session_events, handle_verify_event,
}
use facto.Api.Chain.{ChainVerifyResponse, handle_verify_chain}
use facto.Api.Evidence.{EvidencePackageResponse, handle_evidence_package}

pub record Request : Type 0 where
  pub method : Bytes
  pub path : Bytes
  pub raw_query : Bytes
  pub client_ip : Bytes

pub data Route : Type 0 where
  health metrics get_events get_event get_session_events verify verify_chain evidence_package :
      Route

pub data Body : Type 0 where
  healthy metrics_text : Body
  page : Page → Body
  event : EventResponse → Body
  verified : VerifyResponse → Body
  chain : ChainVerifyResponse → Body
  exported : EvidencePackageResponse → Body

pub record Entry : Type 0 where
  pub method : Bytes
  pub pattern : Bytes
  pub route : Route

abbrev get : Bytes → Route → Entry
get pattern route = record { method = codes "GET"; pattern = pattern; route = route }

unfoldable pub routes : List Entry
routes =
    get (codes "/health") health
    ∷ get (codes "/metrics") metrics
    ∷ get (codes "/v1/events") get_events
    ∷ get (codes "/v1/events/:facto_id") get_event
    ∷ get (codes "/v1/sessions/:session_id/events") get_session_events
    ∷ record { method = codes "POST"; pattern = codes "/v1/verify"; route = verify }
    ∷ get (codes "/v1/verify/chain") verify_chain
    ∷ get (codes "/v1/evidence-package") evidence_package
    ∷ []

-- The parameters of a path, by name.
abbrev pub Params : Type 0
Params = Bytes → Bytes

-- What the handlers call: the database, the libraries, and the binding of a request.
pub record Backend : Type 0 where
  pub codec : Codec
  pub sha256 : Digest
  pub verifier : Verifier
  pub sorter : Sorter (λ (e : EventResponse). e.completed_at)
  pub parse : Bytes → Option Time
  pub query_events : Bytes → Time → Time → Time → ℕ → Rows EventRow
  pub query_event : Bytes → Single EventRow
  pub query_session : Bytes → ℕ → Rows SessionRow
  pub now : Bytes
  pub exported_at : Bytes
  pub bind_events : Request → Bound EventsQuery
  pub bind_session_events : Request → SessionEventsQuery
  pub bind_event : Request → Bound EventResponse
  pub bind_session : Request → Bound Bytes

abbrev pub with_body : {A : Type 0} → (A → Body) → Response A → Response Body
with_body f (failure status text) = failure status text
with_body f (success a) = success (f a)
with_body f panicked = panicked

-- The handler of a route.
unfoldable pub handle : Backend → Route → Params → Request → Response Body
handle b health params r = success healthy
handle b metrics params r = success metrics_text
handle b get_events params r =
    with_body page (handle_get_events b.codec b.parse b.query_events (b.bind_events r))
handle b get_event params r =
    with_body event (handle_get_event b.codec b.query_event (params (codes "facto_id")))
handle b get_session_events params r = with_body page (
    handle_get_session_events b.codec b.query_session (params (codes "session_id"))
      (b.bind_session_events r))
handle b verify params r = with_body verified (handle_verify_event b.verifier (b.bind_event r))
handle b verify_chain params r =
    with_body chain
      (handle_verify_chain b.sha256 b.verifier b.sorter b.codec b.query_session (b.bind_session r))
handle b evidence_package params r = with_body exported (
    handle_evidence_package b.sha256 b.codec b.query_session b.now b.exported_at (b.bind_session r))

-- The label `endpoint` of the two metrics, which the routes of the service itself do not have.
abbrev pub endpoint : Route → Option Bytes
endpoint health = none
endpoint metrics = none
endpoint get_events = some (codes "get_events")
endpoint get_event = some (codes "get_event")
endpoint get_session_events = some (codes "get_session_events")
endpoint verify = some (codes "verify")
endpoint verify_chain = some (codes "verify_chain")
endpoint evidence_package = some (codes "evidence_package")

-- What the logger writes of a request, without the latency.
pub record LogLine : Type 0 where
  pub method : Bytes
  pub path : Bytes
  pub status : ℕ
  pub client_ip : Bytes

-- What is left of the requests served: facto_api_requests_total by endpoint and status, the endpoints whose
-- durations were observed, and the log.
pub record Observed : Type 0 where
  pub requests_total : List (Bytes × ℕ)
  pub durations : List Bytes
  pub log : List LogLine

-- A handler counts a request with the status that it answers, when it answers.
abbrev pub count_request : Bytes → Response Body → List (Bytes × ℕ)
count_request label (failure status text) = (label, status) ∷ []
count_request label (success a) = (label, 200) ∷ []
count_request label panicked = []

-- The duration is observed by a deferred call.
unfoldable pub observe : Option Bytes → Response Body → Observed → Observed
observe none response o = o
observe (some label) response o = record o {
  requests_total = o.requests_total ++ count_request label response;
  durations = o.durations ++ label ∷ [];
}

-- `if raw != "" { path = path + "?" + raw }`
abbrev pub logged_path : Bytes → Bytes → Bytes
logged_path path [] = path
logged_path path (c ∷ cs) = path ++ codes "?" ++ c ∷ cs

abbrev pub log_line : Request → ℕ → LogLine
log_line r status = record {
  method = r.method;
  path = logged_path r.path r.raw_query;
  status = status;
  client_ip = r.client_ip;
}

-- loggerMiddleware, whose line follows `c.Next()`, which a panic leaves.
unfoldable pub logger : Request → Response Body → Observed → Observed
logger r (failure status text) o = record o { log = o.log ++ log_line r status ∷ [] }
logger r (success a) o = record o { log = o.log ++ log_line r 200 ∷ [] }
logger r panicked o = o

-- What the server takes from gin: which route of the table a request has, the answer to one without a
-- route, and the middleware Recovery.
pub record Gin : Type 0 where
  pub route : List Entry → Request → Option (Route × Params)
  pub no_route : Response Body
  pub recovery : Response Body → Response Body

module _ (gin : Gin) (b : Backend) where
  -- The middlewares around the handler: Recovery, then the logger. gin serves a request without a route
  -- within them, too.
  abbrev pub serve_route : Request → Option (Route × Params) → Observed → Response Body × Observed
  serve_route r none o = (gin.recovery gin.no_route, logger r gin.no_route o)
  serve_route r (some (route, params)) o =
      let response = handle b route params r in
      (gin.recovery response, logger r response (observe (endpoint route) response o))

  unfoldable pub serve : Request → Observed → Response Body × Observed
  unfolding routes handle observe logger
  serve r o = serve_route r (gin.route routes r) o
