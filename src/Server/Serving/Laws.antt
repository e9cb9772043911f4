-- ===== src/Server/Serving/Laws.antt =====
-- What a request goes through, whatever its handler does.
use go_utilities.Base.{
  ◌≢◌, ◌≡◌, refl, sym, subst, ◌⊎◌, Bool, true, false, if◌then◌else◌, ◌==◌, ◌||◌, ◌&&◌, Bool-cases,
  inl, inr,
}
use go_utilities.Base.Text.{Text, codes, text_eq, text_beq_iff}
use go_utilities.Server.Building.{Middleware}
use go_utilities.Server.Serving.{
  Gin, Context, Flow, finished, panicked, serve, enter_cors, enter_profiled, leave_logged, recover,
  leave_errors,
}
use go_utilities.Server.Serving.Entered.{
  Ends, after_return, after_panic, IsEntered, LastLine-completion, before_profiling,
  with_profiled-IsEntered,
}

module _ (gin : Gin) (redact_query : Text → Text) where
  abbrev profiles : Middleware → Bool
  profiles m = m.config.environment == codes "dev" || m.config.enable_profiling

  -- The context as the handler finds it.
  abbrev entered : Middleware → Text → Context gin redact_query → Context gin redact_query
  entered m new c =
      let body = before_profiling gin redact_query m new c in
      if profiles m then enter_profiled gin redact_query m body else body

  abbrev ended : Flow gin redact_query → Flow gin redact_query
  ended f =
      leave_logged gin redact_query (recover gin redact_query (leave_errors gin redact_query f))

  Ends-ended : (f : Flow gin redact_query) → Ends gin redact_query f (ended f)
  Ends-ended (finished d) = after_return d _ (LastLine-completion gin redact_query _)
  Ends-ended (panicked d value) = after_panic d value _ (LastLine-completion gin redact_query _)

  serve-ended :
      (m : Middleware) (new : Text) (handler : Context gin redact_query → Flow gin redact_query)
      (c : Context gin redact_query)
      → (c.method == codes "OPTIONS") ≡ false
      → serve gin redact_query m new handler c ≡ ended (handler (entered m new c))
  unfolding serve enter_cors
  serve-ended m new handler c h = elim (Bool-cases (m.config.environment == codes "prod")) [
    | inl prod ↦ elim (Bool-cases (profiles m)) [
      | inl p ↦ rw (prod, p, h) refl
      | inr p ↦ rw (prod, p, h) refl
    ]
    | inr prod ↦ elim (Bool-cases (profiles m)) [
      | inl p ↦ rw (prod, p, h) refl
      | inr p ↦ rw (prod, p, h) refl
    ]
  ]

  -- A request is profiled in the environment "dev" where it asks for it.
  abbrev asks : Middleware → Context gin redact_query → Bool
  asks m c = m.config.environment == codes "dev" && c.profile == codes "true"

  entered-profiled :
      (m : Middleware) (new : Text) (c : Context gin redact_query)
      → record (before_profiling gin redact_query m new c) {
        profiled = if asks m c then true else c.profiled;
      }
        ≡ entered m new c
  unfolding enter_cors
  entered-profiled m new c = elim (Bool-cases (m.config.environment == codes "dev")) [
    | inl dev ↦ elim (Bool-cases (c.profile == codes "true")) [
      | inl asked ↦ rw (dev, asked) refl
      | inr silent ↦ rw (dev, silent) refl
    ]
    | inr other ↦ elim (Bool-cases m.config.enable_profiling) [
      | inl set ↦ rw (other, set) refl
      | inr unset ↦ rw (other, unset) refl
    ]
  ]

  entered-IsEntered :
      (m : Middleware) (new : Text) (c : Context gin redact_query)
      → IsEntered gin redact_query m new c (entered m new c)
  entered-IsEntered m new c =
      subst (IsEntered gin redact_query m new c) (entered-profiled m new c)
        (with_profiled-IsEntered gin redact_query m new c _ on off)
    where
      on :
          m.config.environment ≡ codes "dev"
          → c.profile ≡ codes "true"
          → (if asks m c then true else c.profiled) ≡ true
      on dev asked = rw ((text_beq_iff _ _).1 dev, (text_beq_iff _ _).1 asked) refl

      differ : (s t : Text) → s ≢ t → (s == t) ≡ false
      differ s t n = elim (Bool-cases (s == t)) [
        | inl same ↦ absurd (n ((text_beq_iff s t).0 same))
        | inr other ↦ other
      ]

      off :
          (m.config.environment ≢ codes "dev") ⊎ (c.profile ≢ codes "true")
          → (if asks m c then true else c.profiled) ≡ c.profiled
      off (inl n) = rw (differ _ _ n) refl
      off (inr n) = elim (Bool-cases (m.config.environment == codes "dev")) [
        | inl dev ↦ rw (dev, differ _ _ n) refl
        | inr other ↦ rw other refl
      ]

  -- A request that is served: what its handler finds, and how the request ends.
  pub record IsServed (m : Middleware) (new : Text)
      (handler : Context gin redact_query → Flow gin redact_query) (c : Context gin redact_query)
      (end' : Flow gin redact_query) : Type 1 where
    pub found : Context gin redact_query
    pub is_entered : IsEntered gin redact_query m new c found
    pub ends : Ends gin redact_query (handler found) end'

  -- A request that is not a preflight reaches its handler, in a context with a trace, that of the
  -- request or else a new one, which stands in the log and in the headers; with the version and the
  -- headers of CORS; with every other header as before; with the configured limit of the body; and
  -- profiled if it asks for that in the environment "dev". The request ends without a panic, whatever
  -- the handler does: where the handler panics, the answer is aborted with 500, the panic is logged,
  -- and each error it left is logged once; where it does not, each error is logged twice. The last
  -- line of the log is that of the answer's status: from 500 on, from 400 on, or below.
  pub serve_lem :
      (m : Middleware) (new : Text) (handler : Context gin redact_query → Flow gin redact_query)
      (c : Context gin redact_query)
      → c.method ≢ codes "OPTIONS"
      → IsServed m new handler c (serve gin redact_query m new handler c)
  serve_lem m new handler c n =
      subst (IsServed m new handler c) (sym (serve-ended m new handler c other)) (record {
        found = entered m new c;
        is_entered = entered-IsEntered m new c;
        ends = Ends-ended (handler (entered m new c));
      })
    where
      other : (c.method == codes "OPTIONS") ≡ false
      other = elim (Bool-cases (c.method == codes "OPTIONS")) [
        | inl same ↦ absurd (n ((text_beq_iff _ _).0 same))
        | inr differs ↦ differs
      ]

  -- A preflight is answered without its handler: the handler makes no difference.
  pub serve-preflight :
      (m : Middleware) (new : Text) (one other : Context gin redact_query → Flow gin redact_query)
      (c : Context gin redact_query)
      → c.method ≡ codes "OPTIONS"
      → serve gin redact_query m new one c ≡ serve gin redact_query m new other c
  unfolding serve
  serve-preflight m new one other c h = elim (Bool-cases (m.config.environment == codes "prod")) [
    | inl prod ↦ rw (prod, h) refl
    | inr prod ↦ rw (prod, h) refl
  ]
