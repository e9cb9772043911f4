-- ===== src/Otel/Provider.antt =====
-- otel/adapters/otel/otel_adapter.go, and otel/initialize/telemetry.go, which builds a provider from
-- the environment.
pub mod Sampled
use go_utilities.Base.{
  Bool, true, false, ◌||◌, ◌&&◌, not, String, List, [], ◌∷◌, ◌++◌, Option, none, some,
  if◌then◌else◌, ◌==◌, is_empty,
}
use go_utilities.Base.Dict.{Dict}
use go_utilities.Base.Result.{Result, ok, err, ◌>>=◌, wrap_error, or_fail}
use go_utilities.Base.Text.{Text, codes, text_eq, contains, parse_bool}
use go_utilities.Otel.Config.{
  Environment, env_or, Floats, ExporterConfig, OtelConfig, ResourceConfig, SamplingConfig,
  ConfigError, validate, exporter_console, exporter_otlp, exporter_elastic_apm, sampling_always_on,
  sampling_always_off, sampling_trace_id, no_exporter, no_elastic_apm,
}

-- net/url: the scheme and the host of a text, `none` for one that it does not parse.
abbrev pub UrlParser : Type 0
UrlParser = Text → Option (Text × Text)

-- The host and port of an endpoint, and whether it is HTTPS.
unfoldable pub parse_endpoint_url : UrlParser → Text → Text × Bool
parse_endpoint_url parse endpoint =
    if contains endpoint (codes "://")
    then (elim (parse endpoint) [
      | none ↦ (endpoint, false)
      | some (scheme, host) ↦ (host, scheme == codes "https")
    ])
    else (endpoint, false)

-- What an exporter is made with.
pub data Exporter : Type 0 where
  stdout : Exporter
  otlp_http otlp_grpc : Text → Bool → Dict Text → Exporter

abbrev pub authorization : Text → Text → Dict Text
authorization secret_token api_key =
    if not (secret_token == [])
    then ("Authorization", codes "Bearer " ++ secret_token) ∷ []
    else if not (api_key == [])
    then ("Authorization", codes "ApiKey " ++ api_key) ∷ []
    else []

pub data ProviderError : Type 0 where
  invalid_config : ConfigError → ProviderError
  resource_failed trace_exporter_failed metric_exporter_failed : ProviderError
  unsupported_trace_exporter unsupported_metric_exporter : Text → ProviderError

-- The common part of `createTraceExporter` and `createMetricExporter`, up to the call of the library.
unfoldable pub create_exporter :
    (Text → ProviderError) → UrlParser → ExporterConfig → Result ProviderError Exporter
create_exporter unsupported parse e =
    if e.kind == exporter_console
    then ok stdout
    else if e.kind == exporter_elastic_apm
    then (let target = parse_endpoint_url parse e.elastic_apm.server_url in
        ok (
          otlp_http target.0 (e.insecure || not target.1)
            (authorization e.elastic_apm.secret_token e.elastic_apm.api_key)))
    else if e.kind == exporter_otlp
    then ok (otlp_grpc e.endpoint e.insecure e.headers)
    else err (unsupported e.kind)

abbrev pub create_trace_exporter : UrlParser → ExporterConfig → Result ProviderError Exporter
create_trace_exporter parse e = create_exporter unsupported_trace_exporter parse e

abbrev pub create_metric_exporter : UrlParser → ExporterConfig → Result ProviderError Exporter
create_metric_exporter parse e = create_exporter unsupported_metric_exporter parse e

module _ (f : Floats) where
  pub data Sampler : Type 0 where
    always_sample never_sample : Sampler
    trace_id_ratio_based : f.Float → Sampler

  unfoldable pub create_sampler : SamplingConfig f → Sampler
  create_sampler s =
      if s.kind == sampling_always_on
      then always_sample
      else if s.kind == sampling_always_off
      then never_sample
      else if s.kind == sampling_trace_id
      then trace_id_ratio_based s.ratio
      else always_sample

  -- The providers that a configuration enables, and what each is made with.
  pub record OtelProvider : Type 0 where
    pub config : OtelConfig f
    pub tracer_provider : Option (Exporter × Sampler)
    pub meter_provider : Option Exporter

  -- The OpenTelemetry libraries: whether the resource and each exporter can be made. `parse_float`
  -- gives zero for what is no number.
  pub record OtelLibrary : Type 0 where
    pub parse_url : UrlParser
    pub resource_ok : ResourceConfig → Bool
    pub trace_exporter_ok : Exporter → Bool
    pub metric_exporter_ok : Exporter → Bool
    pub parse_float : Text → f.Float

  module _ (x : OtelLibrary) where
    open x use {parse_url, resource_ok, trace_exporter_ok, metric_exporter_ok, parse_float}

    abbrev pub create_tracer_provider :
        OtelConfig f → Result ProviderError (Option (Exporter × Sampler))
    create_tracer_provider c =
        if c.enable_traces
        then (create_trace_exporter parse_url c.trace_exporter >>= λ e.
            if trace_exporter_ok e
            then ok (some (e, create_sampler c.sampling))
            else err trace_exporter_failed)
        else ok none

    abbrev pub create_meter_provider : OtelConfig f → Result ProviderError (Option Exporter)
    create_meter_provider c =
        if c.enable_metrics
        then (create_metric_exporter parse_url c.metric_exporter >>= λ e.
            if metric_exporter_ok e then ok (some e) else err metric_exporter_failed)
        else ok none

    abbrev pub create_resource : OtelConfig f → Result ProviderError (Unit {0})
    create_resource c = if resource_ok c.resource then ok tt else err resource_failed

    unfoldable pub new_otel_provider : OtelConfig f → Result ProviderError OtelProvider
    unfolding create_exporter create_sampler
    new_otel_provider c = wrap_error invalid_config (validate f c) >>= λ _.
        create_resource c >>= λ _. create_tracer_provider c >>= λ tracer.
        create_meter_provider c >>= λ meter.
        ok (record { config = c; tracer_provider = tracer; meter_provider = meter })

    -- `strconv.ParseBool`, with its error dropped.
    abbrev pub flag : Text → Bool
    flag t = elim (parse_bool t) [ none ↦ false | some b ↦ b ]

    abbrev pub bool_to_string : Bool → Text
    bool_to_string b = if b then codes "true" else codes "false"

    module _ (env : Environment) where
      abbrev pub enabled : String → Bool → Bool
      enabled key default = flag (env_or env key (bool_to_string default))

      abbrev pub apm_exporter : ExporterConfig
      apm_exporter = record no_exporter {
        kind = exporter_elastic_apm;
        insecure = true;
        elastic_apm = record no_elastic_apm {
          server_url = env_or env "ELASTIC_APM_SERVER_URL" (codes "http://apm-server:8200");
          secret_token = env_or env "ELASTIC_APM_SECRET_TOKEN" [];
        };
      }

      -- The zero value, and where traces are enabled what the environment says.
      abbrev pub sampling_from_env : Bool → SamplingConfig f
      sampling_from_env traces =
          if traces
          then record {
            kind = env_or env "OTEL_SAMPLING_TYPE" (codes "traceid");
            ratio = parse_float (env_or env "OTEL_SAMPLING_RATIO" (codes "1.0"));
          }
          else record { kind = []; ratio = f.zero }

      abbrev pub telemetry_config : Text → Bool → Bool → OtelConfig f
      telemetry_config service traces metrics = record {
        resource = record {
          service_name = env_or env "OTEL_SERVICE_NAME" service;
          service_version = env_or env "OTEL_SERVICE_VERSION" (codes "1.0.0");
          service_environment = env_or env "OTEL_SERVICE_ENVIRONMENT" (codes "dev");
          service_instance_id = [];
          custom_attributes = [];
        };
        trace_exporter = if traces then apm_exporter else no_exporter;
        metric_exporter = if metrics then apm_exporter else no_exporter;
        sampling = sampling_from_env traces;
        enable_traces = traces;
        enable_metrics = metrics;
      }

      -- `InitializeTelemetryFromEnv`: no provider where both are disabled.
      unfoldable pub initialize_telemetry : Text → Bool → Result ProviderError (Option OtelProvider)
      unfolding new_otel_provider
      initialize_telemetry service default =
          let traces = enabled "OTEL_ENABLE_TRACES" default in
          let metrics = enabled "OTEL_ENABLE_METRICS" default in
          if not traces && not metrics
          then ok none
          else (new_otel_provider (telemetry_config service traces metrics) >>= λ p. ok (some p))
