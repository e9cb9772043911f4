-- ===== src/Server/Lifecycle/Tests.antt =====
-- Runs, and the theorems at concrete inputs: the world is the list of what was done, the last first.
use go_utilities.Base.{ℕ, ◌≡◌, refl, List, [], ◌∷◌, Option, none, some}
use go_utilities.Base.Run.{returns}
use go_utilities.Base.Text.{codes}
use go_utilities.Server.Errors.{GoError, plain}
use go_utilities.Server.Building.{
  default_config, server_grpc, numbered, Handler, HttpServerOption, with_logger, with_handler,
  with_shutdown_func, new_http_server,
}
use go_utilities.Server.Lifecycle.{start, setup_failed, ServeEnd, server_closed}
use go_utilities.Server.Grpc.{new_grpc_server, start_grpc}
use go_utilities.Server.Grpc.Ignored.{served, start_grpc-ignores}
use go_utilities.Server.Lifecycle.Stopping.{
  all_done, one_done, Stops, start-setup_fails, start-Stops,
}

abbrev Done : Type 0
Done = List ℕ

abbrev broken : GoError
broken = plain (codes "broken")

-- Does n at its setup and fails if told to, and fails to shut down.
abbrev handler : ℕ → Option GoError → Handler Done
handler n e = record { setup = λ w. (n ∷ w, e); shutdown = λ w. (n ∷ w, some broken) }

abbrev options : List (HttpServerOption Done)
options =
    with_handler (handler 1 none)
    ∷ with_logger (numbered 4)
    ∷ with_handler (handler 2 (some broken))
    ∷ with_handler (handler 3 none)
    ∷ []

abbrev stop : Done → Done × Option GoError
stop w = (9 ∷ w, none)

abbrev serve : Done → Done × ServeEnd Done
serve w = (7 ∷ w, server_closed)

abbrev serve_rpc : Done → Done × Option GoError
serve_rpc w = (7 ∷ w, some broken)

abbrev graceful_stop : Done → Done
graceful_stop w = 5 ∷ w

start_grpc-ignores_example :
    start_grpc Done
      (λ addr w. (6 ∷ w, none))
      serve_rpc
      graceful_stop
      (new_grpc_server Done (some (default_config server_grpc)) options)
      []
    ≡ returns (served Done serve_rpc graceful_stop (6 ∷ [], none))
start_grpc-ignores_example =
    start_grpc-ignores Done (default_config server_grpc) options (λ addr w. (6 ∷ w, none)) serve_rpc
      graceful_stop []

start-setup_fails_example : start Done serve stop (new_http_server Done none options) [] ≡ record {
  state = 2 ∷ 1 ∷ [];
  log = setup_failed broken ∷ [];
  background = [];
  error = some broken;
}
unfolding new_http_server
start-setup_fails_example =
    start-setup_fails Done serve stop (new_http_server Done none options) (handler 1 none ∷ [])
      (handler 2 (some broken)) (handler 3 none ∷ []) [] (1 ∷ []) broken refl
      (one_done refl all_done) refl

abbrev good_options : List (HttpServerOption Done)
good_options =
    with_handler (handler 1 none)
    ∷ with_shutdown_func (λ w. 8 ∷ w)
    ∷ with_handler (handler 2 none)
    ∷ []

start-Stops_example :
    Stops Done serve stop
      (new_http_server Done none good_options)
      (2 ∷ 1 ∷ [])
      (start Done serve stop (new_http_server Done none good_options) [])
unfolding new_http_server
start-Stops_example =
    start-Stops Done serve stop (new_http_server Done none good_options) [] (2 ∷ 1 ∷ [])
      (one_done refl (one_done refl all_done))

everything_stops :
    (start Done serve stop (new_http_server Done none good_options) []).state
    ≡ 9 ∷ 2 ∷ 1 ∷ 8 ∷ 7 ∷ 2 ∷ 1 ∷ []
unfolding new_http_server start
everything_stops = refl
