-- ===== src/Server/Serving/Tests.antt =====
-- Runs, and the theorems at concrete inputs: a response is its status.
use go_utilities.Base.{ℕ, ◌≡◌, refl, false, [], ◌∷◌, none}
use go_utilities.Base.Text.{Text, codes}
use go_utilities.Server.Errors.{plain}
use go_utilities.Server.Building.{Middleware, default_config, server_http, default_logger}
use go_utilities.Server.Serving.{Gin, Context, Flow, finished, panicked, serve}
use go_utilities.Server.Serving.Laws.{IsServed, serve_lem, serve-preflight}

abbrev plain_gin : Gin
plain_gin = record { Response = ℕ; status = λ r. r; abort_with_status = λ code r. code }

abbrev same_query : Text → Text
same_query q = q

abbrev Request : Type 0
Request = Context plain_gin same_query

abbrev request : Text → Request
request method = record {
  method = method;
  raw_query = [];
  request_trace = codes "t";
  origin = codes "http://a";
  profile = [];
  context_trace = [];
  trace_key = none;
  headers = [];
  response = 200;
  body_limit = none;
  errors = [];
  log = [];
  profiled = false;
}

abbrev m : Middleware
m = record { logger = default_logger; config = default_config server_http }

abbrev panicking : Request → Flow plain_gin same_query
panicking c = panicked c (codes "index out of range")

abbrev failing : Request → Flow plain_gin same_query
failing c = finished (record c { errors = plain (codes "e") ∷ []; response = 400 })

serve_lem_example :
    IsServed plain_gin same_query m
      (codes "u")
      panicking
      (request (codes "GET"))
      (serve plain_gin same_query m (codes "u") panicking (request (codes "GET")))
serve_lem_example =
    serve_lem plain_gin same_query m (codes "u") panicking (request (codes "GET")) (λ e. cc)

serve-preflight_example :
    serve plain_gin same_query m (codes "u") panicking (request (codes "OPTIONS"))
    ≡ serve plain_gin same_query m (codes "u") failing (request (codes "OPTIONS"))
serve-preflight_example =
    serve-preflight plain_gin same_query m (codes "u") panicking failing (request (codes "OPTIONS"))
      refl
