-- ===== src/Server/Grpc.antt =====
-- server/Grpc.go: the gRPC server, over the parts that it shares with the HTTP server.
pub mod Ignored
use go_utilities.Base.{List, [], ◌∷◌, ◌++◌, Option, none, some}
use go_utilities.Base.Run.{Run, returns, panics}
use go_utilities.Base.Text.{Text}
use go_utilities.Server.Errors.{GoError}
use go_utilities.Server.Building.{
  Config, Logger, Handler, HttpServerOption, Draft, apply_option, new_draft, logger_or_default,
}
use go_utilities.Server.Lifecycle.{
  Ran, Logged, serve_failed, failed_setup, listen_failed, starting, signal_received, shut_down,
  run_functions, shut_handlers, set_up, then_log,
}

module _ (S : Type 0) where
  -- The configuration is a pointer that may be nil.
  pub record GrpcServer : Type 0 where
    pub config : Option Config
    pub logger : Logger
    pub handlers : List (Handler S)
    pub shutdown_fn : List (S → S)

  -- The loop over the options: each one changes an HTTP server that is made for it and dropped.
  unfoldable pub try_options : List (HttpServerOption S) → Draft S → Draft S
  try_options [] s = s
  try_options (opt ∷ opts) s =
      let dropped : Draft S = apply_option S opt (record (new_draft S) {
        logger = s.logger;
        handlers = s.handlers;
        shutdown_fn = s.shutdown_fn;
      }) in
      try_options opts s

  unfoldable pub new_grpc_server : Option Config → List (HttpServerOption S) → GrpcServer
  unfolding try_options
  new_grpc_server cfg opts =
      let s = try_options opts (new_draft S) in
      record {
        config = cfg;
        logger = logger_or_default S s.logger;
        handlers = s.handlers;
        shutdown_fn = s.shutdown_fn;
      }

  -- `GRPCServer.Shutdown`; `graceful_stop` is that of the gRPC library.
  unfoldable pub shutdown_grpc : (S → S) → GrpcServer → S → Ran S
  unfolding run_functions shut_handlers
  shutdown_grpc graceful_stop s w =
      let shut = shut_handlers S s.handlers (run_functions S s.shutdown_fn w) in
      record {
        state = graceful_stop shut.0;
        log = shut.1 ++ shut_down ∷ [];
        background = [];
        error = none;
      }

  abbrev pub when_listening : (S → Ran S) → S × Option GoError → Ran S
  when_listening next (w, some e) = record {
    state = w;
    log = listen_failed e ∷ [];
    background = [];
    error = some e;
  }
  when_listening next (w, none) = next w

  abbrev pub when_configured : Option Config → (Config → Ran S) → Run (Ran S)
  when_configured none next = panics
  when_configured (some cfg) next = returns (next cfg)

  -- Where the handlers are set up, the port is read of the configuration.
  abbrev pub when_set_up_grpc : (S → Run (Ran S)) → S × Option GoError → Run (Ran S)
  when_set_up_grpc next (w, some e) = returns (failed_setup S w e)
  when_set_up_grpc next (w, none) = next w

  -- The goroutine logs every error of `Serve`.
  abbrev pub log_serve_error : Option GoError → List (Logged S)
  log_serve_error none = []
  log_serve_error (some e) = serve_failed e ∷ []

  abbrev pub serve_until_signal : (S → S × Option GoError) → (S → S) → GrpcServer → S → Ran S
  unfolding shutdown_grpc
  serve_until_signal serve graceful_stop s w =
      let up = serve w in
      record (then_log S (starting ∷ signal_received ∷ []) (shutdown_grpc graceful_stop s up.0)) {
        background = log_serve_error up.1;
      }

  -- `GRPCServer.Start`; `serve` is what happens until a signal arrives, and how `Serve` ends.
  unfoldable pub start_grpc :
      (Text → S → S × Option GoError)
      → (S → S × Option GoError)
      → (S → S)
      → GrpcServer
      → S
      → Run (Ran S)
  unfolding set_up shutdown_grpc
  start_grpc listen serve graceful_stop s w =
      when_set_up_grpc
        (λ ready. when_configured s.config (λ cfg.
          when_listening (serve_until_signal serve graceful_stop s)
            (listen (b':' ∷ cfg.port) ready)))
        (set_up S s.handlers w)
