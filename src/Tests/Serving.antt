-- ===== src/Tests/Serving.antt =====
-- A request to the server of server/api/main.go for the chain of a session.
use facto.Base.{◌≡◌, ◌&&◌, refl, List, [], ◌∷◌, Option, none, some, if◌then◌else◌, eq_bytes}
use facto.Base.Int.{pos}
use facto.Go.Text.{Bytes, codes}
use facto.Api.Storage.{not_found}
use facto.Api.Handlers.{Response, failure, success, panicked, refused, bound}
use facto.Api.Service.{Request, Route, Entry, Body, health, Params, Backend, Observed, routes, Gin}
use facto.Tests.Data.{toy, toy_codec}
use facto.Tests.Sorting.{insertion}
use facto.Tests.Handling.{verifier, one_row}

abbrev no_params : Params
no_params name = []

-- Patterns without parameters.
abbrev find_route : List Entry → Request → Option (Route × Params)
find_route [] r = none
find_route (e ∷ es) r =
    let rest = find_route es r in
    if eq_bytes e.method r.method && eq_bytes e.pattern r.path
    then some (e.route, no_params)
    else rest

abbrev recover : Response Body → Response Body
recover (failure status text) = failure status text
recover (success a) = success a
recover panicked = failure 500 []

abbrev gin : Gin
gin = record {
  route = find_route;
  no_route = failure 404 (codes "404 page not found");
  recovery = recover;
}

abbrev backend : Backend
backend = record {
  codec = toy_codec;
  sha256 = toy;
  verifier = verifier;
  sorter = insertion (λ e. e.completed_at);
  parse = λ s. none;
  query_events = λ agent date start end limit. record { rows = []; close = none };
  query_event = λ id. not_found;
  query_session = one_row;
  now = codes "now";
  exported_at = codes "then";
  bind_events = λ r. refused (codes "no");
  bind_session_events = λ r. record { limit = pos 0; cursor = [] };
  bind_event = λ r. refused (codes "no");
  bind_session = λ r. bound (codes "s");
}

abbrev request : Bytes → Request
request path = record {
  method = codes "GET";
  path = path;
  raw_query = codes "session_id=s";
  client_ip = codes "::1";
}

find_route-health : gin.route routes (request (codes "/health")) ≡ some (health, no_params)
unfolding routes eq_bytes
find_route-health = refl

find_route-missing : gin.route routes (request (codes "/v1/verify")) ≡ none
unfolding routes eq_bytes
find_route-missing = refl

abbrev nothing : Observed
nothing = record { requests_total = []; durations = []; log = [] }
