-- ===== src/Otel/Config/Valid.antt =====
-- What `Validate` lets through (otel/config/config.go).
use go_utilities.Base.{
  ◌≡◌, ◌≢◌, refl, sym, ◌∙◌, ◌↔◌, ◌⊎◌, inl, inr, Bool, true, false, ◌||◌, [], if◌then◌else◌, ◌==◌,
  Bool-cases, arith,
}
use go_utilities.Base.Result.{Result, ok, err, wrap_error, Result-cases, err-ne-ok, >>=-eq-ok}
use go_utilities.Base.Text.{Text, codes, text_eq, text_beq_iff}
use go_utilities.Otel.Config.{
  Environment, env_or, Floats, ExporterConfig, OtelConfig, ConfigError, validate, validate_exporter,
  endpoint_required, server_url_required, trace_exporter_invalid, metric_exporter_invalid,
  exporter_console, exporter_otlp, exporter_elastic_apm, sampling_trace_id, default_config,
  development_config, production_config, new_elastic_apm_config, validate_traces, validate_metrics,
  validate_sampling,
}

-- A known kind of exporter with what it needs.
abbrev pub IsExportable : ExporterConfig → Type 0
IsExportable e =
    (e.kind ≡ exporter_console)
    ⊎ ((e.kind ≡ exporter_otlp) × (e.endpoint ≢ []))
    ⊎ ((e.kind ≡ exporter_elastic_apm) × (e.elastic_apm.server_url ≢ []))

-- A test of two texts, with what it decides.
text-cases : (s t : Text) → ((s ≡ t) × ((s == t) ≡ true)) ⊎ ((s ≢ t) × ((s == t) ≡ false))
text-cases s t = elim (Bool-cases (s == t)) [
  | inl h ↦ inl ((text_beq_iff s t).0 h, h)
  | inr h ↦ inr (λ e. ground (arith, h, (text_beq_iff s t).1 e), h)
]

given-ok :
    (s : Text) (e : ConfigError)
    → (◌≡◌ {A = Result ConfigError (Unit {0})} (if s == [] then err e else ok tt) (ok tt))
      ↔ (s ≢ [])
given-ok s e = elim (text-cases s []) [
  | inl (same, h) ↦ (λ r. absurd (err-ne-ok (rw h at r)), λ n. absurd (n same))
  | inr (n, h) ↦ (λ r. n, λ n. rw h refl)
]

IsExportable-ok : (e : ExporterConfig) → IsExportable e → validate_exporter e ≡ ok tt
unfolding validate_exporter
IsExportable-ok e (inl console) = rw console refl
IsExportable-ok e (inr (inl (otlp, n))) = rw otlp ((given-ok e.endpoint endpoint_required).1 n)
IsExportable-ok e (inr (inr (elastic, n))) =
    rw elastic ((given-ok e.elastic_apm.server_url server_url_required).1 n)

ok-IsExportable : (e : ExporterConfig) → validate_exporter e ≡ ok tt → IsExportable e
unfolding validate_exporter
ok-IsExportable e r = elim (text-cases e.kind exporter_console) [
  | inl (same, h) ↦ inl same
  | inr (n, h) ↦ elim (text-cases e.kind exporter_otlp) [
    | inl (same, i) ↦ inr (inl (same, (given-ok e.endpoint endpoint_required).0 (rw (h, i) at r)))
    | inr (m, i) ↦ elim (text-cases e.kind exporter_elastic_apm) [
      | inl (same, j) ↦ inr (
          inr (same, (given-ok e.elastic_apm.server_url server_url_required).0 (rw (h, i, j) at r)))
      | inr (k, j) ↦ absurd (err-ne-ok (rw (h, i, j) at r))
    ]
  ]
]

-- A wrapped check that is made only where it is wanted.
wanted_iff :
    (wanted : Bool) (w : ConfigError → ConfigError) (e : ExporterConfig)
    → ((if wanted then wrap_error w (validate_exporter e) else ok tt) ≡ ok tt)
      ↔ (wanted ≡ true → IsExportable e)
wanted_iff false w e = (λ r. λ t. absurd (false-ne-true t), λ h. refl)
  where
    false-ne-true : false ≡ true → ⊥
    false-ne-true h = cc
wanted_iff true w e = elim (Result-cases (validate_exporter e)) [
  | inl (f, h) ↦ (
    λ r. absurd (err-ne-ok (rw h at r)),
    λ x. absurd (err-ne-ok (sym h ∙ IsExportable-ok e (x refl))),
  )
  | inr (a, h) ↦ (λ r. λ t. ok-IsExportable e h, λ x. rw h refl)
]

module _ (f : Floats) where
  pub record IsValid (c : OtelConfig f) : Type 0 where
    pub named : c.resource.service_name ≢ []
    pub traces : c.enable_traces ≡ true → IsExportable c.trace_exporter
    pub metrics : c.enable_metrics ≡ true → IsExportable c.metric_exporter
    pub ratio :
        c.sampling.kind ≡ sampling_trace_id
        → (f.below_zero c.sampling.ratio || f.above_one c.sampling.ratio) ≡ false

  sampling_iff :
      (c : OtelConfig f)
      → (validate_sampling f c.sampling ≡ ok tt) ↔ (
          c.sampling.kind ≡ sampling_trace_id
          → (f.below_zero c.sampling.ratio || f.above_one c.sampling.ratio) ≡ false)
  sampling_iff c = elim (text-cases c.sampling.kind sampling_trace_id) [
    | inr (n, h) ↦ (λ r. λ k. absurd (n k), λ x. rw h refl)
    | inl (same, h) ↦
        elim (Bool-cases (f.below_zero c.sampling.ratio || f.above_one c.sampling.ratio)) [
          | inl out ↦ (λ r. absurd (err-ne-ok (rw (h, out) at r)), λ x. rw (h, x same) refl)
          | inr within ↦ (λ r. λ k. within, λ x. rw (h, within) refl)
        ]
  ]

  -- `Validate` lets a configuration through exactly when the service has a name, each exporter that
  -- is enabled is of a known kind with the address that this kind needs, and the ratio of sampling
  -- by trace is between 0 and 1.
  pub validate_iff : (c : OtelConfig f) → (validate f c ≡ ok tt) ↔ IsValid c
  unfolding validate
  validate_iff c = (let_through, valid)
    where
      valid : IsValid c → validate f c ≡ ok tt
      valid v = elim (text-cases c.resource.service_name []) [
        | inl (e, h) ↦ absurd (v.named e)
        | inr (n, h) ↦
            rw
              (
                h,
                (wanted_iff c.enable_traces trace_exporter_invalid c.trace_exporter).1 v.traces,
                (wanted_iff c.enable_metrics metric_exporter_invalid c.metric_exporter).1 v.metrics,
              )
              ((sampling_iff c).1 v.ratio)
      ]

      let_through : validate f c ≡ ok tt → IsValid c
      let_through r = elim (text-cases c.resource.service_name []) [
        | inl (e, h) ↦ absurd (err-ne-ok (rw h at r))
        | inr (n, h) ↦
            let (u, traces, r1) = >>=-eq-ok (validate_traces f c) _ (rw h at r) in
            let (v, metrics, r2) = >>=-eq-ok (validate_metrics f c) _ r1 in
            record {
              named = n;
              traces =
                  (wanted_iff c.enable_traces trace_exporter_invalid c.trace_exporter).0 traces;
              metrics =
                  (wanted_iff c.enable_metrics metric_exporter_invalid c.metric_exporter).0 metrics;
              ratio = (sampling_iff c).0 r2;
            }
      ]

  env_or-given : (env : Environment) (key : _) (d : Text) → d ≢ [] → env_or env key d ≢ []
  unfolding env_or
  env_or-given env key d n = elim (text-cases (env key) []) [
    | inl (e, h) ↦ rw h n
    | inr (m, h) ↦ rw h m
  ]

  -- Whatever the environment holds, each of the four configurations that the package makes is let
  -- through by `Validate`, where a tenth is between 0 and 1.
  pub validate-configs :
      (env : Environment)
      → (f.below_zero f.tenth || f.above_one f.tenth) ≡ false
      → (validate f (default_config f env) ≡ ok tt)
        × (validate f (development_config f env) ≡ ok tt)
        × (validate f (production_config f env) ≡ ok tt)
        × (validate f (new_elastic_apm_config f env) ≡ ok tt)
  unfolding development_config production_config new_elastic_apm_config
  validate-configs env tenth =
      let name = env_or-given env "OTEL_SERVICE_NAME" (codes "unknown-service") (λ e. cc) in
      let endpoint =
        env_or-given env "OTEL_EXPORTER_OTLP_ENDPOINT" (codes "localhost:4317") (λ e. cc) in
      let server =
        env_or-given env "ELASTIC_APM_SERVER_URL" (codes "http://localhost:8200") (λ e. cc) in
      (
        (validate_iff (default_config f env)).1 (always name (inl refl) (inl refl) (λ e. cc)),
        (validate_iff (development_config f env)).1 (always name (inl refl) (inl refl) (λ e. cc)),
        (validate_iff (production_config f env)).1 (record {
          named = name;
          traces = λ t. inr (inl (refl, endpoint));
          metrics = λ t. inr (inl (refl, endpoint));
          ratio = λ k. tenth;
        }),
        (validate_iff (new_elastic_apm_config f env)).1
            (always name (inr (inr (refl, server))) (inr (inr (refl, server))) (λ e. cc)),
      )
    where
      always :
          {c : OtelConfig f}
          → c.resource.service_name ≢ []
          → IsExportable c.trace_exporter
          → IsExportable c.metric_exporter
          → c.sampling.kind ≢ sampling_trace_id
          → IsValid c
      always n t m other = record {
        named = n;
        traces = λ e. t;
        metrics = λ e. m;
        ratio = λ k. absurd (other k);
      }
