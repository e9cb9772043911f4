-- ===== src/Server/Serving.antt =====
-- The middlewares of server/Middleware.go as gin runs them: each gets the rest of the chain as
-- `next`, which stands for `c.Next()` or for the end of a middleware that does not abort.
pub mod Entered
pub mod Laws
mod Tests
use go_utilities.Base.{
  ℕ, Bool, true, false, String, List, [], ◌∷◌, ◌++◌, map, Option, none, some, if◌then◌else◌, ◌==◌,
  ◌&&◌, not, leb,
}
use go_utilities.Base.Dict.{Dict, insert}
use go_utilities.Base.Text.{Text, codes, text_eq}
use go_utilities.Server.Errors.{GoError}
use go_utilities.Server.Building.{
  Config, Middleware, Registered, pretty_log, logging, cors, recovery, error_handler, profiling,
  max_body_size, apply,
}

-- The lines of the log.
pub data Entry : Type 0 where
  incoming_request : Text → Text → Entry
  handler_error : GoError → Entry
  request_failed client_error request_completed : Entry
  recovered_panic : Text → Entry

-- gin's response, of which the status is read, and `AbortWithStatus`.
pub record Gin : Type 1 where
  pub Response : Type 0
  pub status : Response → ℕ
  pub abort_with_status : ℕ → Response → Response

module _ (gin : Gin) (redact_query : Text → Text) where
  open gin use {Response, status, abort_with_status}

  -- What the middlewares read and write of a `gin.Context`, with the process's block and mutex
  -- profiling. The keys of headers are in their canonical form.
  pub record Context : Type 0 where
    pub method : Text
    pub raw_query : Text
    pub request_trace : Text
    pub origin : Text
    pub profile : Text
    pub context_trace : Text
    pub trace_key : Option Text
    pub headers : Dict Text
    pub response : Response
    pub body_limit : Option ℕ
    pub errors : List GoError
    pub log : List Entry
    pub profiled : Bool

  -- A chain comes to its end or panics; what it did to the context stays done.
  pub data Flow : Type 0 where
    finished : Context → Flow
    panicked : Context → Text → Flow

  abbrev pub add_log : List Entry → Context → Context
  add_log entries c = record c { log = c.log ++ entries }

  abbrev pub completion : ℕ → Entry
  completion code =
      if leb 500 code
      then request_failed
      else if leb 400 code
      then client_error
      else request_completed

  abbrev pub trace_or_new : Text → Text → Text
  trace_or_new given new = if given == [] then new else given

  abbrev pub enter_logged : Middleware → Text → Context → Context
  enter_logged m new c =
      let trace = trace_or_new c.request_trace new in
      record c {
        context_trace = trace;
        trace_key = some trace;
        headers = insert "X-Version" m.config.version (insert "X-Trace-Id" trace c.headers);
        log = c.log ++ incoming_request (redact_query c.raw_query) trace ∷ [];
      }

  -- What `Logger` does after the rest of the chain; a panic goes through it.
  abbrev pub leave_logged : Flow → Flow
  leave_logged (finished d) =
      finished (add_log (map handler_error d.errors ++ completion (status d.response) ∷ []) d)
  leave_logged (panicked d value) = panicked d value

  abbrev pub allowed_origin : Text → Text
  allowed_origin origin = if origin == [] then codes "*" else origin

  unfoldable pub enter_cors : Context → Context
  enter_cors c = record c {
    headers = insert "Access-Control-Allow-Credentials" (codes "true") (
        insert "Access-Control-Allow-Headers"
          (codes
            "Origin, Content-Type, Accept, Authorization, X-Requested-With, X-Trace-ID, X-Version")
          (insert "Access-Control-Allow-Methods" (codes "GET, POST, PUT, DELETE, PATCH, OPTIONS")
            (insert "Access-Control-Allow-Origin" (allowed_origin c.origin) c.headers)));
  }

  abbrev pub enter_profiled : Middleware → Context → Context
  enter_profiled m c =
      if m.config.environment == codes "dev" && c.profile == codes "true"
      then record c { profiled = true }
      else c

  abbrev pub recover : Flow → Flow
  recover (finished d) = finished d
  recover (panicked d value) = finished (record d {
    response = abort_with_status 500 d.response;
    log = d.log ++ recovered_panic value ∷ [];
  })

  abbrev pub leave_errors : Flow → Flow
  leave_errors (finished d) = finished (add_log (map handler_error d.errors) d)
  leave_errors (panicked d value) = panicked d value

  -- One middleware of the chain; `new` is the UUID that `Logger` may draw. What `PrettyLog` prints
  -- is left out.
  unfoldable pub run_one : Middleware → Text → Registered → (Context → Flow) → Context → Flow
  unfolding enter_cors
  run_one m new pretty_log next c = next c
  run_one m new logging next c = leave_logged (next (enter_logged m new c))
  run_one m new cors next c =
      if c.method == codes "OPTIONS"
      then finished (record (enter_cors c) { response = abort_with_status 204 c.response })
      else next (enter_cors c)
  run_one m new (max_body_size limit) next c = next (record c { body_limit = some limit })
  run_one m new recovery next c = recover (next c)
  run_one m new error_handler next c = leave_errors (next c)
  run_one m new profiling next c = next (enter_profiled m c)

  unfoldable pub run_chain : Middleware → Text → List Registered → (Context → Flow) → Context → Flow
  unfolding run_one
  run_chain m new [] handler c = handler c
  run_chain m new (r ∷ rs) handler c = run_one m new r (run_chain m new rs handler) c

  -- A request through everything that `Apply` registers.
  unfoldable pub serve : Middleware → Text → (Context → Flow) → Context → Flow
  unfolding run_chain apply
  serve m new handler c = run_chain m new (apply m) handler c
