-- ===== src/Server/Serving/Entered.antt =====
-- What the middlewares of server/Middleware.go do before the handler, and after it.
use go_utilities.Base.{
  ◌≢◌, ◌≡◌, refl, sym, ◌∙◌, ℕ, ◌<◌, ◌≤◌, ◌⊎◌, String, Bool, true, false, [], ◌∷◌, ◌++◌, map, some,
  if◌then◌else◌, ◌==◌, Bool-cases, inl, inr, arith, leb, string_eq, eq_iff,
}
use go_utilities.Base.Dict.{lookup}
use go_utilities.Base.Dict.Laws.{lookup-insert}
use go_utilities.Base.Text.{Text, codes, text_eq, text_beq_iff}
use go_utilities.Server.Building.{Middleware}
use go_utilities.Server.Serving.{
  Gin, Context, Flow, finished, panicked, Entry, incoming_request, handler_error, request_failed,
  client_error, request_completed, recovered_panic, enter_logged, enter_cors, completion,
  allowed_origin, trace_or_new,
}

-- The trace of a request: the one it came with, or a new one.
pub data IsTrace (new : Text) : Text → Text → Type 0 where
  is_given : (t : Text) → t ≢ [] → IsTrace new t t
  is_new : IsTrace new [] new

-- The origin that is allowed: that of the request, or any.
pub data IsAllowed : Text → Text → Type 0 where
  this_one : (o : Text) → o ≢ [] → IsAllowed o o
  any_one : IsAllowed [] (codes "*")

-- The last line of a request, by the status of its answer.
pub data LastLine : ℕ → Entry → Type 0 where
  failed : (code : ℕ) → 500 ≤ code → LastLine code request_failed
  refused : (code : ℕ) → 400 ≤ code → code < 500 → LastLine code client_error
  fine : (code : ℕ) → code < 400 → LastLine code request_completed

-- A header that the middlewares do not set.
pub record IsOther (k : String) : Type 0 where
  pub not_trace : k ≢ "X-Trace-Id"
  pub not_version : k ≢ "X-Version"
  pub not_origin : k ≢ "Access-Control-Allow-Origin"
  pub not_methods : k ≢ "Access-Control-Allow-Methods"
  pub not_headers : k ≢ "Access-Control-Allow-Headers"
  pub not_credentials : k ≢ "Access-Control-Allow-Credentials"

filled : (t : Text) → (t == []) ≡ false → t ≢ []
filled t h e = let hit = (text_beq_iff t []).1 e in cc

differs : (a k : String) → k ≢ a → (a == k) ≡ false
differs a k n = elim (Bool-cases (a == k)) [
  | inl same ↦ absurd (n (sym ((eq_iff a k).0 same)))
  | inr other ↦ other
]

module _ (gin : Gin) (redact_query : Text → Text) where
  -- How a request ends, by how its handler ends. An error that the handler left is logged by
  -- `ErrorHandler` and again by `Logger`; a panic goes past the first.
  pub data Ends : Flow gin redact_query → Flow gin redact_query → Type 1 where
    after_return :
        (d : Context gin redact_query) (last : Entry)
        → LastLine (gin.status d.response) last
        → Ends (finished d) (
            finished (record d {
              log =
                  (d.log ++ map handler_error d.errors)
                  ++ (map handler_error d.errors ++ last ∷ []);
            }))
    after_panic :
        (d : Context gin redact_query) (value : Text) (last : Entry)
        → LastLine (gin.status (gin.abort_with_status 500 d.response)) last
        → Ends (panicked d value) (
            finished (record d {
              response = gin.abort_with_status 500 d.response;
              log =
                  (d.log ++ recovered_panic value ∷ [])
                  ++ (map handler_error d.errors ++ last ∷ []);
            }))

  -- What the handler of a request c finds.
  pub record IsEntered (m : Middleware) (new : Text) (c e : Context gin redact_query) : Type 1 where
    pub trace : Text
    pub traced : IsTrace new c.request_trace trace
    pub in_context : e.context_trace ≡ trace
    pub under_key : e.trace_key ≡ some trace
    pub trace_header : lookup "X-Trace-Id" e.headers ≡ some trace
    pub version_header : lookup "X-Version" e.headers ≡ some m.config.version
    pub origin : Text
    pub allowed : IsAllowed c.origin origin
    pub origin_header : lookup "Access-Control-Allow-Origin" e.headers ≡ some origin
    pub methods_header :
        lookup "Access-Control-Allow-Methods" e.headers
        ≡ some (codes "GET, POST, PUT, DELETE, PATCH, OPTIONS")
    pub headers_header :
        lookup "Access-Control-Allow-Headers" e.headers
        ≡ some (
            codes
              "Origin, Content-Type, Accept, Authorization, X-Requested-With, X-Trace-ID, X-Version")
    pub credentials_header :
        lookup "Access-Control-Allow-Credentials" e.headers ≡ some (codes "true")
    pub other_headers : (k : String) → IsOther k → lookup k e.headers ≡ lookup k c.headers
    pub limited : e.body_limit ≡ some m.config.max_request_size
    pub log : e.log ≡ c.log ++ incoming_request (redact_query c.raw_query) trace ∷ []
    pub is_profiled :
        m.config.environment ≡ codes "dev" → c.profile ≡ codes "true" → e.profiled ≡ true
    pub is_not_profiled :
        (m.config.environment ≢ codes "dev") ⊎ (c.profile ≢ codes "true") → e.profiled ≡ c.profiled
    pub same_method : e.method ≡ c.method
    pub same_query : e.raw_query ≡ c.raw_query
    pub same_response : e.response ≡ c.response
    pub same_errors : e.errors ≡ c.errors

  IsTrace-trace_or_new :
      (given new : Text) → IsTrace new given (trace_or_new gin redact_query given new)
  IsTrace-trace_or_new [] new = is_new
  IsTrace-trace_or_new (a ∷ t) new = is_given (a ∷ t) (λ e. cc)

  IsAllowed-allowed_origin : (o : Text) → IsAllowed o (allowed_origin gin redact_query o)
  IsAllowed-allowed_origin [] = any_one
  IsAllowed-allowed_origin (a ∷ o) = this_one (a ∷ o) (λ e. cc)

  pub LastLine-completion : (code : ℕ) → LastLine code (completion gin redact_query code)
  LastLine-completion code = elim (Bool-cases (leb 500 code)) [
    | inl high ↦ rw high (failed code (ground arith))
    | inr low ↦ elim (Bool-cases (leb 400 code)) [
      | inl high ↦ rw (low, high) (refused code (ground arith) (ground arith))
      | inr good ↦ rw (low, good) (fine code (ground arith))
    ]
  ]

  -- The context as the handler finds it, up to profiling.
  abbrev pub before_profiling :
      Middleware → Text → Context gin redact_query → Context gin redact_query
  before_profiling m new c =
      record (enter_cors gin redact_query (enter_logged gin redact_query m new c)) {
        body_limit = some m.config.max_request_size;
      }

  -- A header after all that are set.
  lookup-before :
      (m : Middleware) (new : Text) (c : Context gin redact_query) (k : String)
      → lookup k (before_profiling m new c).headers ≡ (
          if "Access-Control-Allow-Credentials" == k
          then some (codes "true")
          else if "Access-Control-Allow-Headers" == k
          then some (
              codes
                "Origin, Content-Type, Accept, Authorization, X-Requested-With, X-Trace-ID, X-Version")
          else if "Access-Control-Allow-Methods" == k
          then some (codes "GET, POST, PUT, DELETE, PATCH, OPTIONS")
          else if "Access-Control-Allow-Origin" == k
          then some (allowed_origin gin redact_query c.origin)
          else if "X-Version" == k
          then some m.config.version
          else if "X-Trace-Id" == k
          then some (trace_or_new gin redact_query c.request_trace new)
          else lookup k c.headers)
  unfolding enter_cors
  lookup-before m new c k =
      rw
        (
          lookup-insert "Access-Control-Allow-Credentials" k _ _,
          lookup-insert "Access-Control-Allow-Headers" k _ _,
          lookup-insert "Access-Control-Allow-Methods" k _ _,
          lookup-insert "Access-Control-Allow-Origin" k _ _,
          lookup-insert "X-Version" k _ _,
          lookup-insert "X-Trace-Id" k _ _,
        )
        refl

  lookup-other :
      (m : Middleware) (new : Text) (c : Context gin redact_query) (k : String)
      → IsOther k
      → lookup k (before_profiling m new c).headers ≡ lookup k c.headers
  lookup-other m new c k o =
      lookup-before m new c k
      ∙ rw
          (
            differs _ k o.not_credentials,
            differs _ k o.not_headers,
            differs _ k o.not_methods,
            differs _ k o.not_origin,
            differs _ k o.not_version,
            differs _ k o.not_trace,
          )
          refl

  pub with_profiled-IsEntered :
      (m : Middleware) (new : Text) (c : Context gin redact_query) (p : Bool)
      → (m.config.environment ≡ codes "dev" → c.profile ≡ codes "true" → p ≡ true)
      → ((m.config.environment ≢ codes "dev") ⊎ (c.profile ≢ codes "true") → p ≡ c.profiled)
      → IsEntered m new c (record (before_profiling m new c) { profiled = p })
  unfolding enter_cors
  with_profiled-IsEntered m new c p on off = record {
    trace = trace_or_new gin redact_query c.request_trace new;
    traced = IsTrace-trace_or_new c.request_trace new;
    in_context = refl;
    under_key = refl;
    trace_header = lookup-before m new c "X-Trace-Id";
    version_header = lookup-before m new c "X-Version";
    origin = allowed_origin gin redact_query c.origin;
    allowed = IsAllowed-allowed_origin c.origin;
    origin_header = lookup-before m new c "Access-Control-Allow-Origin";
    methods_header = lookup-before m new c "Access-Control-Allow-Methods";
    headers_header = lookup-before m new c "Access-Control-Allow-Headers";
    credentials_header = lookup-before m new c "Access-Control-Allow-Credentials";
    other_headers = lookup-other m new c;
    limited = refl;
    log = refl;
    is_profiled = on;
    is_not_profiled = off;
    same_method = refl;
    same_query = refl;
    same_response = refl;
    same_errors = refl;
  }
