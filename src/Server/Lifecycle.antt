-- ===== src/Server/Lifecycle.antt =====
-- server/Server.go: how the HTTP server is started and shut down.
pub mod Stopping
mod Tests
use go_utilities.Base.{
  ℕ, ◌*◌, ◌^◌, Bool, true, false, List, [], ◌∷◌, ◌++◌, Option, none, some, if◌then◌else◌, ◌==◌,
  ◌||◌, not,
}
use go_utilities.Base.Run.{Run, returns, panics}
use go_utilities.Base.Text.{Text, codes, text_eq}
use go_utilities.Server.Errors.{GoError}
use go_utilities.Server.Building.{Handler, HttpServer}

module _ (S : Type 0) where
  -- What a server logs.
  pub data Logged : Type 0 where
    setup_failed listen_failed serve_failed shutdown_error server_error : GoError → Logged
    starting signal_received shut_down : Logged

  -- How the goroutine's `ListenAndServe` ends: with nil, or not before the program does; with
  -- `http.ErrServerClosed`; or with another error.
  pub data ServeEnd : Type 0 where
    no_error server_closed : ServeEnd
    serve_error : GoError → ServeEnd

  -- A run: the state it leaves, what it logged, and its error. The lines of the serving goroutine
  -- are apart, since they come at any time after the line of the start.
  pub record Ran : Type 0 where
    pub state : S
    pub log : List Logged
    pub background : List Logged
    pub error : Option GoError

  abbrev pub logged : (GoError → Logged) → Option GoError → List Logged → List Logged
  logged f none rest = rest
  logged f (some e) rest = f e ∷ rest

  unfoldable pub run_functions : List (S → S) → S → S
  run_functions [] w = w
  run_functions (f ∷ fs) w = run_functions fs (f w)

  -- A handler that fails to shut down does not keep the next one from it.
  unfoldable pub shut_handlers : List (Handler S) → S → S × List Logged
  shut_handlers [] w = (w, [])
  shut_handlers (h ∷ hs) w =
      let rest = shut_handlers hs (h.shutdown w).0 in
      (rest.0, logged shutdown_error (h.shutdown w).1 rest.1)

  abbrev pub stopped : S × Option GoError → List Logged → Ran
  stopped (w, none) log = record {
    state = w;
    log = log ++ shut_down ∷ [];
    background = [];
    error = none;
  }
  stopped (w, some e) log = record {
    state = w;
    log = log ++ server_error e ∷ [];
    background = [];
    error = some e;
  }

  -- `HTTPServer.Shutdown`; `stop` is the `Shutdown` of net/http's server.
  unfoldable pub shutdown : (S → S × Option GoError) → HttpServer S → S → Ran
  unfolding run_functions shut_handlers
  shutdown stop s w =
      let shut = shut_handlers s.handlers (run_functions s.shutdown_fn w) in
      stopped (stop shut.0) shut.1

  unfoldable pub set_up : List (Handler S) → S → S × Option GoError
  set_up [] w = (w, none)
  set_up (h ∷ hs) w =
      let rest = set_up hs (h.setup w).0 in
      elim (h.setup w).1 [ some e ↦ ((h.setup w).0, some e) | none ↦ rest ]

  abbrev pub then_log : List Logged → Ran → Ran
  then_log first r = record r { log = first ++ r.log }

  abbrev pub failed_setup : S → GoError → Ran
  failed_setup w e = record {
    state = w;
    log = setup_failed e ∷ [];
    background = [];
    error = some e;
  }

  abbrev pub when_set_up : (S → Ran) → S × Option GoError → Ran
  when_set_up next (w, some e) = failed_setup w e
  when_set_up next (w, none) = next w

  -- `err != nil && err != http.ErrServerClosed`
  abbrev pub log_serve_end : ServeEnd → List Logged
  log_serve_end no_error = []
  log_serve_end server_closed = []
  log_serve_end (serve_error e) = serve_failed e ∷ []

  -- `HTTPServer.Start`; `serve` is what happens until a signal arrives, and how `ListenAndServe` ends.
  unfoldable pub start : (S → S × ServeEnd) → (S → S × Option GoError) → HttpServer S → S → Ran
  unfolding set_up shutdown
  start serve stop s w =
      when_set_up
        (λ ready.
          let up = serve ready in
          record (then_log (starting ∷ signal_received ∷ []) (shutdown stop s up.0)) {
            background = log_serve_end up.1;
          })
        (set_up s.handlers w)
