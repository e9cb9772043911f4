-- ===== src/Server/Building/Built.antt =====
-- What the options of `NewHTTPServer` do (server/Server.go).
use go_utilities.Base.{◌≡◌, refl, sym, ◌∙◌, List, [], ◌∷◌, ◌++◌, Option}
use go_utilities.Server.Building.{
  Config, Logger, default_logger, HttpServerOption, with_logger, with_handler, with_middleware,
  with_response_writer, with_shutdown_func, Handler, Draft, HttpServer, apply_option, apply_options,
  new_draft, logger_or_default, new_http_server,
}
use mathlib.Core.List.{append_assoc, append-nil}

module _ (S : Type 0) where
  -- The handlers among the options, in order; likewise the shutdown functions.
  pub handlers_of : List (HttpServerOption S) → List (Handler S)
  handlers_of [] = []
  handlers_of (with_handler h ∷ opts) = h ∷ handlers_of opts
  handlers_of (with_logger l ∷ opts) = handlers_of opts
  handlers_of (with_middleware m ∷ opts) = handlers_of opts
  handlers_of (with_response_writer w ∷ opts) = handlers_of opts
  handlers_of (with_shutdown_func f ∷ opts) = handlers_of opts

  pub functions_of : List (HttpServerOption S) → List (S → S)
  functions_of [] = []
  functions_of (with_shutdown_func f ∷ opts) = f ∷ functions_of opts
  functions_of (with_handler h ∷ opts) = functions_of opts
  functions_of (with_logger l ∷ opts) = functions_of opts
  functions_of (with_middleware m ∷ opts) = functions_of opts
  functions_of (with_response_writer w ∷ opts) = functions_of opts

  -- The last logger among the options, or the given one.
  pub last_logger : List (HttpServerOption S) → Logger → Logger
  last_logger [] l = l
  last_logger (with_logger l ∷ opts) l' = last_logger opts l
  last_logger (with_handler h ∷ opts) l = last_logger opts l
  last_logger (with_middleware m ∷ opts) l = last_logger opts l
  last_logger (with_response_writer w ∷ opts) l = last_logger opts l
  last_logger (with_shutdown_func f ∷ opts) l = last_logger opts l

  -- What has been given to a draft.
  record Holds (s d : Draft S) (opts : List (HttpServerOption S)) : Type 0 where
    pub handlers : s.handlers ≡ d.handlers ++ handlers_of opts
    pub functions : s.shutdown_fn ≡ d.shutdown_fn ++ functions_of opts
    pub logger : logger_or_default S s.logger ≡ last_logger opts (logger_or_default S d.logger)

  one_more : {A : Type 0} (xs : List A) (x : A) (ys : List A) → (xs ++ x ∷ []) ++ ys ≡ xs ++ x ∷ ys
  one_more xs x ys = append_assoc xs (x ∷ []) ys

  apply_options-Holds :
      (opts : List (HttpServerOption S)) (d : Draft S) → Holds (apply_options S opts d) d opts
  unfolding apply_options handlers_of functions_of last_logger
  apply_options-Holds [] d = record {
    handlers = sym (append-nil d.handlers);
    functions = sym (append-nil d.shutdown_fn);
    logger = refl;
  }
  apply_options-Holds (with_handler h ∷ opts) d =
      let i = apply_options-Holds opts (apply_option S (with_handler h) d) in
      record {
        handlers = i.handlers ∙ one_more d.handlers h (handlers_of opts);
        functions = i.functions;
        logger = i.logger;
      }
  apply_options-Holds (with_shutdown_func f ∷ opts) d =
      let i = apply_options-Holds opts (apply_option S (with_shutdown_func f) d) in
      record {
        handlers = i.handlers;
        functions = i.functions ∙ one_more d.shutdown_fn f (functions_of opts);
        logger = i.logger;
      }
  apply_options-Holds (with_logger l ∷ opts) d =
      let i = apply_options-Holds opts (apply_option S (with_logger l) d) in
      record { handlers = i.handlers; functions = i.functions; logger = i.logger }
  apply_options-Holds (with_middleware m ∷ opts) d =
      let i = apply_options-Holds opts (apply_option S (with_middleware m) d) in
      record { handlers = i.handlers; functions = i.functions; logger = i.logger }
  apply_options-Holds (with_response_writer w ∷ opts) d =
      let i = apply_options-Holds opts (apply_option S (with_response_writer w) d) in
      record { handlers = i.handlers; functions = i.functions; logger = i.logger }

  pub record IsBuilt (s : HttpServer S) (opts : List (HttpServerOption S)) : Type 0 where
    pub handlers : s.handlers ≡ handlers_of opts
    pub functions : s.shutdown_fn ≡ functions_of opts
    pub logger : s.logger ≡ last_logger opts default_logger

  -- A new HTTP server has the handlers and the shutdown functions of its options, each in the order
  -- of the options, and the last logger of them or, without one, the logger that logs nothing.
  pub new_http_server-IsBuilt :
      (cfg : Option Config) (opts : List (HttpServerOption S))
      → IsBuilt (new_http_server S cfg opts) opts
  unfolding new_http_server
  new_http_server-IsBuilt cfg opts =
      let h = apply_options-Holds opts (new_draft S) in
      record { handlers = h.handlers; functions = h.functions; logger = h.logger }
