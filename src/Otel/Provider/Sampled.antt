-- ===== src/Otel/Provider/Sampled.antt =====
-- What the providers are made with (otel/adapters/otel/otel_adapter.go, otel/initialize/telemetry.go).
use go_utilities.Base.{
  ◌≡◌, refl, sym, ◌∙◌, ap, ◌⊎◌, inl, inr, Bool, true, false, [], Option, none, some, ◌&&◌, not,
  Bool-cases,
}
use go_utilities.Base.Result.{
  ok, err, wrap_error, Result-cases, err-ne-ok, ok_inj, err_inj, >>=-eq-ok,
}
use go_utilities.Base.Text.{Text, text_eq}
use go_utilities.Otel.Config.{
  Environment, env_or, Floats, ExporterConfig, OtelConfig, ConfigError, validate,
}
use go_utilities.Otel.Config.Valid.{IsExportable, validate_iff}
use go_utilities.Otel.Provider.{
  UrlParser, Exporter, ProviderError, invalid_config, resource_failed, trace_exporter_failed,
  metric_exporter_failed, unsupported_trace_exporter, unsupported_metric_exporter, create_exporter,
  Sampler, always_sample, create_sampler, OtelProvider, OtelLibrary, create_resource,
  sampling_from_env, create_tracer_provider, create_meter_provider, new_otel_provider,
  telemetry_config, enabled, initialize_telemetry,
}

known-ne-err :
    (u : Text → ProviderError) (parse : UrlParser) (e : ExporterConfig) (failure : ProviderError)
    → IsExportable e
    → create_exporter u parse e ≡ err failure
    → ⊥
unfolding create_exporter
known-ne-err u parse e failure (inl console) h = err-ne-ok (sym (rw console at h))
known-ne-err u parse e failure (inr (inl (otlp, n))) h = err-ne-ok (sym (rw otlp at h))
known-ne-err u parse e failure (inr (inr (elastic, n))) h = err-ne-ok (sym (rw elastic at h))

-- An exporter of a known kind is made with something.
exporter-known :
    (u : Text → ProviderError) (parse : UrlParser) (e : ExporterConfig)
    → IsExportable e
    → (x : Exporter) × (create_exporter u parse e ≡ ok x)
exporter-known u parse e known = elim (Result-cases (create_exporter u parse e)) [
  | inr made ↦ made
  | inl (failure, h) ↦ absurd (known-ne-err u parse e failure known h)
]

module _ (f : Floats) (x : OtelLibrary f) where
  -- The error is about a kind of exporter.
  abbrev pub IsUnsupported : ProviderError → Type 0
  IsUnsupported e =
      ((k : Text) × (e ≡ unsupported_trace_exporter k))
      ⊎ ((k : Text) × (e ≡ unsupported_metric_exporter k))

  tracer-supported :
      (c : OtelConfig f) (e : ProviderError)
      → (c.enable_traces ≡ true → IsExportable c.trace_exporter)
      → create_tracer_provider f x c ≡ err e
      → IsUnsupported e
      → ⊥
  tracer-supported c e known h u = elim (Bool-cases c.enable_traces) [
    | inr off ↦ absurd (err-ne-ok (sym (rw off at h)))
    | inl on ↦
        let (made, m) =
          exporter-known unsupported_trace_exporter x.parse_url c.trace_exporter (known on) in
        elim (Bool-cases (x.trace_exporter_ok made)) [
          | inl good ↦ absurd (err-ne-ok (sym (rw (on, m, good) at h)))
          | inr bad ↦ not_failed u (err_inj (rw (on, m, bad) at h))
        ]
  ]
    where
      not_failed : IsUnsupported e → trace_exporter_failed ≡ e → ⊥
      not_failed (inl (k, i)) j = cc
      not_failed (inr (k, i)) j = cc

  meter-supported :
      (c : OtelConfig f) (e : ProviderError)
      → (c.enable_metrics ≡ true → IsExportable c.metric_exporter)
      → create_meter_provider f x c ≡ err e
      → IsUnsupported e
      → ⊥
  meter-supported c e known h u = elim (Bool-cases c.enable_metrics) [
    | inr off ↦ absurd (err-ne-ok (sym (rw off at h)))
    | inl on ↦
        let (made, m) =
          exporter-known unsupported_metric_exporter x.parse_url c.metric_exporter (known on) in
        elim (Bool-cases (x.metric_exporter_ok made)) [
          | inl good ↦ absurd (err-ne-ok (sym (rw (on, m, good) at h)))
          | inr bad ↦ not_failed u (err_inj (rw (on, m, bad) at h))
        ]
  ]
    where
      not_failed : IsUnsupported e → metric_exporter_failed ≡ e → ⊥
      not_failed (inl (k, i)) j = cc
      not_failed (inr (k, i)) j = cc

  -- The samplers of a provider that was made.
  new_otel_provider-sampler :
      (c : OtelConfig f) (p : OtelProvider f) (e : Exporter) (s : Sampler f)
      → new_otel_provider f x c ≡ ok p
      → p.tracer_provider ≡ some (e, s)
      → s ≡ create_sampler f c.sampling
  unfolding new_otel_provider
  new_otel_provider-sampler c p e s h t =
      let (u, v, h1) = >>=-eq-ok (wrap_error invalid_config (validate f c)) _ h in
      let (u', r, h2) = >>=-eq-ok (create_resource f x c) _ h1 in
      let (tracer, tr, h3) = >>=-eq-ok (create_tracer_provider f x c) _ h2 in
      let (meter, me, h4) = >>=-eq-ok (create_meter_provider f x c) _ h3 in
      traced tracer tr (ap (λ q. q.tracer_provider) (ok_inj h4) ∙ t)
    where
      some_inj : {a b : Exporter × Sampler f} → ◌≡◌ {A = Option _} (some a) (some b) → a ≡ b
      some_inj i = cc

      none-ne : {a : Exporter × Sampler f} → ◌≡◌ {A = Option _} none (some a) → ⊥
      none-ne i = cc

      traced :
          (tracer : Option (Exporter × Sampler f))
          → create_tracer_provider f x c ≡ ok tracer
          → tracer ≡ some (e, s)
          → s ≡ create_sampler f c.sampling
      traced tracer tr i = elim (Bool-cases c.enable_traces) [
        | inr off ↦ absurd (none-ne (ok_inj (rw off at tr) ∙ i))
        | inl on ↦
            let (made, m, k) =
              >>=-eq-ok (create_exporter unsupported_trace_exporter x.parse_url c.trace_exporter) _
                (rw on at tr) in
            elim (Bool-cases (x.trace_exporter_ok made)) [
              | inl good ↦ sym (ap (λ q. q.1) (some_inj (ok_inj (rw good at k) ∙ i)))
              | inr bad ↦ absurd (err-ne-ok (rw bad at k))
            ]
      ]

  sampling-unset :
      (env : Environment) (traces : Bool)
      → env "OTEL_SAMPLING_TYPE" ≡ []
      → create_sampler f (sampling_from_env f x env traces) ≡ always_sample
  unfolding create_sampler env_or
  sampling-unset env false unset = refl
  sampling-unset env true unset = rw unset refl

  -- Where the environment does not set the type of sampling, a provider that is started from it
  -- samples every trace, whatever ratio the environment sets.
  pub initialize_telemetry-samples_all :
      (env : Environment) (service : Text) (default : Bool) (p : OtelProvider f) (e : Exporter)
      (s : Sampler f)
      → env "OTEL_SAMPLING_TYPE" ≡ []
      → initialize_telemetry f x env service default ≡ ok (some p)
      → p.tracer_provider ≡ some (e, s)
      → s ≡ always_sample
  unfolding initialize_telemetry
  initialize_telemetry-samples_all env service default p e s unset h t =
      let traces = enabled f x env "OTEL_ENABLE_TRACES" default in
      let metrics = enabled f x env "OTEL_ENABLE_METRICS" default in
      let c = telemetry_config f x env service traces metrics in
      elim (Bool-cases (not traces && not metrics)) [
        | inl off ↦ absurd (none-ne (ok_inj (rw off at h)))
        | inr on ↦
            let (q, made, i) = >>=-eq-ok (new_otel_provider f x c) _ (rw on at h) in
            new_otel_provider-sampler c q e s made
              (ap (λ r. r.tracer_provider) (some_inj (ok_inj i)) ∙ t)
            ∙ sampling-unset env traces unset
      ]
    where
      some_inj : {a b : OtelProvider f} → ◌≡◌ {A = Option _} (some a) (some b) → a ≡ b
      some_inj i = cc

      none-ne : {a : OtelProvider f} → ◌≡◌ {A = Option _} none (some a) → ⊥
      none-ne i = cc

  -- The adapter never comes to a kind of exporter that it does not know: `Validate` has refused it
  -- before.
  pub new_otel_provider-supported :
      (c : OtelConfig f) (e : ProviderError) → new_otel_provider f x c ≡ err e → ¬ IsUnsupported e
  unfolding new_otel_provider
  new_otel_provider-supported c e h = λ u. elim (Result-cases (validate f c)) [
    | inl (g, v) ↦ refused u (err_inj (rw v at h))
    | inr (a, v) ↦
        let valid = (validate_iff f c).0 v in
        elim (Result-cases (create_resource f x c)) [
          | inl (g, r) ↦ elim (Bool-cases (x.resource_ok c.resource)) [
            | inl good ↦ absurd (err-ne-ok (sym (rw good at r)))
            | inr bad ↦ no_resource u (err_inj (rw (v, bad) at h))
          ]
          | inr (b, r) ↦ elim (Result-cases (create_tracer_provider f x c)) [
            | inl (g, t) ↦
                tracer-supported c e valid.traces (t ∙ ap err (err_inj (rw (v, r, t) at h))) u
            | inr (tracer, t) ↦ elim (Result-cases (create_meter_provider f x c)) [
              | inl (g, m) ↦
                  meter-supported c e valid.metrics (m ∙ ap err (err_inj (rw (v, r, t, m) at h))) u
              | inr (meter, m) ↦ absurd (err-ne-ok (sym (rw (v, r, t, m) at h)))
            ]
          ]
        ]
  ]
    where
      refused : {g : ConfigError} → IsUnsupported e → invalid_config g ≡ e → ⊥
      refused (inl (k, i)) j = cc
      refused (inr (k, i)) j = cc

      no_resource : IsUnsupported e → resource_failed ≡ e → ⊥
      no_resource (inl (k, i)) j = cc
      no_resource (inr (k, i)) j = cc
