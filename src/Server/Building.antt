-- ===== src/Server/Building.antt =====
-- server/Server.go and server/Config.go: how a server is configured and built. What is passed to an
-- option is not nil. `S` is the state of the world that handlers and shutdown functions act on.
pub mod Built
use go_utilities.Base.{
  ℕ, ◌*◌, ◌^◌, Bool, true, false, List, [], ◌∷◌, ◌++◌, Option, none, some, if◌then◌else◌, ◌==◌,
  ◌||◌, not,
}
use go_utilities.Base.Run.{Run, returns, panics}
use go_utilities.Base.Text.{Text, codes, text_eq}
use go_utilities.Server.Errors.{GoError}

pub data ServerType : Type 0 where
  server_http server_grpc : ServerType
  other_server : Text → ServerType

pub record Config : Type 0 where
  pub port : Text
  pub environment : Text
  pub version : Text
  pub max_request_size : ℕ
  pub enable_profiling : Bool
  pub shutdown_timeout : ℕ
  pub server_type : ServerType

unfoldable pub default_config : ServerType → Config
default_config t = record {
  port = codes "8080";
  environment = codes "dev";
  version = codes "dev";
  max_request_size = 10 * 2 ^ 20;
  enable_profiling = false;
  shutdown_timeout = 15 * 1_000_000_000;
  server_type = t;
}

-- A logger is the one that logs nothing or is known by a number.
pub data Logger : Type 0 where
  default_logger : Logger
  numbered : ℕ → Logger

-- `NewMiddleware` and `NewResponseWriter`
pub record Middleware : Type 0 where
  pub logger : Logger
  pub config : Config

pub record ResponseWriter : Type 0 where
  pub logger : Logger

pub data GinMode : Type 0 where
  release_mode test_mode debug_mode : GinMode

abbrev pub gin_mode : Text → GinMode
gin_mode environment =
    if environment == codes "prod"
    then release_mode
    else if environment == codes "test"
    then test_mode
    else debug_mode

-- The middlewares that `Apply` hands to the router.
pub data Registered : Type 0 where
  pretty_log logging cors recovery error_handler profiling : Registered
  max_body_size : ℕ → Registered

-- `Apply`, in the order in which they are registered.
unfoldable pub apply : Middleware → List Registered
apply m =
    (if not (m.config.environment == codes "prod") then pretty_log ∷ [] else [])
    ++ logging
      ∷ cors
      ∷ max_body_size m.config.max_request_size
      ∷ recovery
      ∷ error_handler
      ∷ (if m.config.environment == codes "dev" || m.config.enable_profiling
          then profiling ∷ []
          else [])

module _ (S : Type 0) where
  -- `Setup` and `Shutdown` of a handler.
  pub record Handler : Type 0 where
    pub setup : S → S × Option GoError
    pub shutdown : S → S × Option GoError

  pub data HttpServerOption : Type 0 where
    with_logger : Logger → HttpServerOption
    with_handler : Handler → HttpServerOption
    with_middleware : Middleware → HttpServerOption
    with_response_writer : ResponseWriter → HttpServerOption
    with_shutdown_func : (S → S) → HttpServerOption

  -- `HTTPServer` while its options are applied.
  pub record Draft : Type 0 where
    pub logger : Option Logger
    pub middleware : Option Middleware
    pub resp_writer : Option ResponseWriter
    pub handlers : List Handler
    pub shutdown_fn : List (S → S)

  abbrev pub apply_option : HttpServerOption → Draft → Draft
  apply_option (with_logger l) s = record s { logger = some l }
  apply_option (with_handler h) s = record s { handlers = s.handlers ++ h ∷ [] }
  apply_option (with_middleware m) s = record s { middleware = some m }
  apply_option (with_response_writer w) s = record s { resp_writer = some w }
  apply_option (with_shutdown_func f) s = record s { shutdown_fn = s.shutdown_fn ++ f ∷ [] }

  unfoldable pub apply_options : List HttpServerOption → Draft → Draft
  apply_options [] s = s
  apply_options (opt ∷ opts) s = apply_options opts (apply_option opt s)

  abbrev pub new_draft : Draft
  new_draft = record {
    logger = none;
    middleware = none;
    resp_writer = none;
    handlers = [];
    shutdown_fn = [];
  }

  pub record HttpServer : Type 0 where
    pub config : Config
    pub mode : GinMode
    pub chain : List Registered
    pub addr : Text
    pub logger : Logger
    pub middleware : Middleware
    pub resp_writer : ResponseWriter
    pub handlers : List Handler
    pub shutdown_fn : List (S → S)

  -- The background context holds no logger.
  abbrev pub logger_or_default : Option Logger → Logger
  logger_or_default none = default_logger
  logger_or_default (some l) = l

  abbrev pub middleware_or_new : Logger → Config → Option Middleware → Middleware
  middleware_or_new l config none = record { logger = l; config = config }
  middleware_or_new l config (some m) = m

  abbrev pub writer_or_new : Logger → Option ResponseWriter → ResponseWriter
  writer_or_new l none = record { logger = l }
  writer_or_new l (some w) = w

  abbrev pub config_or_default : Option Config → Config
  config_or_default none = default_config server_http
  config_or_default (some cfg) = cfg

  -- `ensureDefaults`, and the router with its middlewares.
  unfoldable pub complete : Config → Draft → HttpServer
  unfolding apply
  complete cfg s =
      let l = logger_or_default s.logger in
      let m = middleware_or_new l cfg s.middleware in
      record {
        config = cfg;
        mode = gin_mode cfg.environment;
        chain = apply m;
        addr = b':' ∷ cfg.port;
        logger = l;
        middleware = m;
        resp_writer = writer_or_new l s.resp_writer;
        handlers = s.handlers;
        shutdown_fn = s.shutdown_fn;
      }

  unfoldable pub new_http_server : Option Config → List HttpServerOption → HttpServer
  unfolding apply_options complete default_config
  new_http_server cfg opts = complete (config_or_default cfg) (apply_options opts new_draft)
