-- ===== src/Server/Grpc/Ignored.antt =====
-- What the options of `NewGRPCServer` do (server/Grpc.go).
use go_utilities.Base.{◌≡◌, refl, ap, List, [], ◌∷◌, Option, none, some, Option-cases, inl, inr}
use go_utilities.Base.Run.{returns}
use go_utilities.Base.Text.{Text}
use go_utilities.Server.Errors.{GoError}
use go_utilities.Server.Building.{Config, HttpServerOption, Draft, new_draft}
use go_utilities.Server.Lifecycle.{Ran, serve_failed, starting, signal_received, shut_down}
use go_utilities.Server.Grpc.{
  GrpcServer, try_options, new_grpc_server, when_listening, serve_until_signal, shutdown_grpc,
  start_grpc,
}

module _ (S : Type 0) where
  try_options_lem : (opts : List (HttpServerOption S)) (d : Draft S) → try_options S opts d ≡ d
  unfolding try_options
  try_options_lem [] d = refl
  try_options_lem (opt ∷ opts) d = try_options_lem opts d

  -- A gRPC server that served: nothing but its own library acted on the world.
  abbrev pub served : (S → S × Option GoError) → (S → S) → S × Option GoError → Ran S
  served serve graceful_stop = when_listening S (λ w. record {
    state = graceful_stop (serve w).0;
    log = starting ∷ signal_received ∷ shut_down ∷ [];
    background = elim (serve w).1 [ none ↦ [] | some e ↦ serve_failed e ∷ [] ];
    error = none;
  })

  same_served :
      (serve : S → S × Option GoError) (graceful_stop : S → S) (s : GrpcServer S)
      (p : S × Option GoError)
      → s.handlers ≡ []
      → s.shutdown_fn ≡ []
      → when_listening S (serve_until_signal S serve graceful_stop s) p
        ≡ served serve graceful_stop p
  unfolding shutdown_grpc
  same_served serve graceful_stop s (w, some e) hs fs = refl
  same_served serve graceful_stop s (w, none) hs fs = elim (Option-cases (serve w).1) [
    | inl quiet ↦ rw (hs, fs, quiet) refl
    | inr (e, loud) ↦ rw (hs, fs, loud) refl
  ]

  -- Whatever options a gRPC server is built with, a start listens, serves and stops; no handler
  -- that was passed is set up or shut down, and no shutdown function that was passed runs. Apart
  -- from the lines of the start, the signal and the end, the log has an error that serving ends with.
  pub start_grpc-ignores :
      (cfg : Config) (opts : List (HttpServerOption S)) (listen : Text → S → S × Option GoError)
      (serve : S → S × Option GoError) (graceful_stop : S → S) (w : S)
      → start_grpc S listen serve graceful_stop (new_grpc_server S (some cfg) opts) w
        ≡ returns (served serve graceful_stop (listen (b':' ∷ cfg.port) w))
  unfolding start_grpc new_grpc_server
  start_grpc-ignores cfg opts listen serve graceful_stop w =
      rw (try_options_lem opts (new_draft S)) (
        ap returns (
          same_served serve graceful_stop (new_grpc_server S (some cfg) [])
            (listen (b':' ∷ cfg.port) w) refl refl))
