-- ===== src/Server/Lifecycle/Stopping.antt =====
-- `Start` and `Shutdown` of the HTTP server (server/Server.go).
use go_utilities.Base.{
  ◌≡◌, refl, ap, List, [], ◌∷◌, ◌++◌, Option, none, some, Option-cases, inl, inr,
}
use go_utilities.Server.Errors.{GoError}
use go_utilities.Server.Building.{Handler, HttpServer}
use go_utilities.Server.Lifecycle.{
  Ran, ServeEnd, no_error, server_closed, serve_error, Logged, starting, signal_received, shut_down,
  setup_failed, serve_failed, shutdown_error, server_error, set_up, shut_handlers, run_functions,
  start, stopped, log_serve_end,
}

module _ (S : Type 0) where
  -- All handlers are set up, one after the other, without an error.
  pub data SetsUp : List (Handler S) → S → S → Type 0 where
    all_done : {w : S} → SetsUp [] w w
    one_done :
        {h : Handler S} {hs : List (Handler S)} {w w' : S}
        → (h.setup w).1 ≡ none
        → SetsUp hs (h.setup w).0 w'
        → SetsUp (h ∷ hs) w w'

  set_up-SetsUp : (hs : List (Handler S)) {w w' : S} → SetsUp hs w w' → set_up S hs w ≡ (w', none)
  unfolding set_up
  set_up-SetsUp [] all_done = refl
  set_up-SetsUp (h ∷ hs) (one_done e i) = rw e (set_up-SetsUp hs i)

  set_up-fails :
      (hs : List (Handler S)) (h : Handler S) (after : List (Handler S)) {w w' : S} (e : GoError)
      → SetsUp hs w w'
      → (h.setup w').1 ≡ some e
      → set_up S (hs ++ h ∷ after) w ≡ ((h.setup w').0, some e)
  unfolding set_up
  set_up-fails [] h after e all_done f = rw f refl
  set_up-fails (g ∷ hs) h after e (one_done n i) f = rw n (set_up-fails hs h after e i f)

  -- Where the handlers before h are set up and h fails, Start logs and gives that error at once:
  -- the handlers after h are not set up, nothing is served, and nothing is shut down, not even the
  -- handlers that had been set up.
  pub start-setup_fails :
      (serve : S → S × ServeEnd S) (stop : S → S × Option GoError) (s : HttpServer S)
      (before : List (Handler S)) (h : Handler S) (after : List (Handler S)) (w w' : S)
      (e : GoError)
      → s.handlers ≡ before ++ h ∷ after
      → SetsUp before w w'
      → (h.setup w').1 ≡ some e
      → start S serve stop s w ≡ record {
        state = (h.setup w').0;
        log = setup_failed e ∷ [];
        background = [];
        error = some e;
      }
  unfolding start
  start-setup_fails serve stop s before h after w w' e hs i f =
      rw (hs, set_up-fails before h after e i f) refl

  -- The functions are called one after the other, in order.
  pub data Calls : List (S → S) → S → S → Type 0 where
    no_call : {w : S} → Calls [] w w
    one_call : {f : S → S} {fs : List (S → S)} {w v : S} → Calls fs (f w) v → Calls (f ∷ fs) w v

  -- The handlers are shut down one after the other, in order, with these lines in the log.
  pub data Shuts : List (Handler S) → S → S → List (Logged S) → Type 0 where
    none_left : {w : S} → Shuts [] w w []
    one_shut :
        {h : Handler S} {hs : List (Handler S)} {w v : S} {log : List (Logged S)}
        → (h.shutdown w).1 ≡ none
        → Shuts hs (h.shutdown w).0 v log
        → Shuts (h ∷ hs) w v log
    one_failed :
        {h : Handler S} {hs : List (Handler S)} {w v : S} {log : List (Logged S)} (e : GoError)
        → (h.shutdown w).1 ≡ some e
        → Shuts hs (h.shutdown w).0 v log
        → Shuts (h ∷ hs) w v (shutdown_error e ∷ log)

  -- The last line, by how the HTTP server stops.
  pub data LastLine : Option GoError → Logged S → Type 0 where
    cleanly : LastLine none shut_down
    badly : (e : GoError) → LastLine (some e) (server_error e)

  -- What the serving goroutine logs: an error other than that the server is closed.
  pub data ServeLog : ServeEnd S → List (Logged S) → Type 0 where
    quiet : ServeLog no_error []
    quiet_closed : ServeLog server_closed []
    loud : (e : GoError) → ServeLog (serve_error e) (serve_failed e ∷ [])

  Calls-run_functions : (fs : List (S → S)) (w : S) → Calls fs w (run_functions S fs w)
  unfolding run_functions
  Calls-run_functions [] w = no_call
  Calls-run_functions (f ∷ fs) w = one_call (Calls-run_functions fs (f w))

  Shuts-shut_handlers :
      (hs : List (Handler S)) (w : S) → Shuts hs w (shut_handlers S hs w).0 (shut_handlers S hs w).1
  unfolding shut_handlers
  Shuts-shut_handlers [] w = none_left
  Shuts-shut_handlers (h ∷ hs) w = elim (Option-cases (h.shutdown w).1) [
    | inl fine ↦ rw fine (one_shut fine (Shuts-shut_handlers hs (h.shutdown w).0))
    | inr (e, bad) ↦ rw bad (one_failed e bad (Shuts-shut_handlers hs (h.shutdown w).0))
  ]

  ServeLog-log_serve_end : (end' : ServeEnd S) → ServeLog end' (log_serve_end S end')
  ServeLog-log_serve_end no_error = quiet
  ServeLog-log_serve_end server_closed = quiet_closed
  ServeLog-log_serve_end (serve_error e) = loud e

  -- What a server does that is set up, from the state w.
  pub record Stops (serve : S → S × ServeEnd S) (stop : S → S × Option GoError) (s : HttpServer S)
      (w : S) (r : Ran S) : Type 0 where
    pub called : S
    pub calls : Calls s.shutdown_fn (serve w).0 called
    pub shut : S
    pub failures : List (Logged S)
    pub shuts : Shuts s.handlers called shut failures
    pub state : r.state ≡ (stop shut).0
    pub error : r.error ≡ (stop shut).1
    pub last : Logged S
    pub closes : LastLine (stop shut).1 last
    pub log : r.log ≡ starting ∷ signal_received ∷ failures ++ last ∷ []
    pub background : ServeLog (serve w).1 r.background

  stopped_lem :
      (p : S × Option GoError) (log : List (Logged S))
      → (last : Logged S) × LastLine p.1 last
        × ((stopped S p log).state ≡ p.0)
        × ((stopped S p log).error ≡ p.1)
        × ((stopped S p log).log ≡ log ++ last ∷ [])
  stopped_lem (w, none) log = (shut_down, cleanly, refl, refl, refl)
  stopped_lem (w, some e) log = (server_error e, badly e, refl, refl, refl)

  -- A server whose handlers are set up serves; at the signal it calls every shutdown function in
  -- order, shuts every handler down in order, whether or not one before it failed, and then stops
  -- the HTTP server. Its log is the start, the signal, a line for each handler that failed, in order,
  -- and the error of the HTTP server's stop or, without one, that it is shut down; Start gives the
  -- error of that stop alone. Apart from these, the serving goroutine logs an error that it ends with,
  -- unless it is that the server is closed.
  pub start-Stops :
      (serve : S → S × ServeEnd S) (stop : S → S × Option GoError) (s : HttpServer S) (w w' : S)
      → SetsUp s.handlers w w'
      → Stops serve stop s w' (start S serve stop s w)
  unfolding start
  start-Stops serve stop s w w' i =
      let called = run_functions S s.shutdown_fn (serve w').0 in
      let shut = shut_handlers S s.handlers called in
      let (last, closes, state, error, log) = stopped_lem (stop shut.0) shut.1 in
      rw (set_up-SetsUp s.handlers i) (record {
        called = called;
        calls = Calls-run_functions s.shutdown_fn (serve w').0;
        shut = shut.0;
        failures = shut.1;
        shuts = Shuts-shut_handlers s.handlers called;
        state = state;
        error = error;
        last = last;
        closes = closes;
        log = ap (λ l. starting ∷ signal_received ∷ l) log;
        background = ServeLog-log_serve_end (serve w').1;
      })
