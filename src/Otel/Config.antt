-- ===== src/Otel/Config.antt =====
-- otel/config/config.go. The environment is a function that gives the empty text for a variable
-- that is not set, as `os.Getenv` does.
pub mod Valid
use go_utilities.Base.{Bool, true, false, ◌||◌, ◌&&◌, String, List, [], ◌∷◌, if◌then◌else◌, ◌==◌}
use go_utilities.Base.Dict.{Dict}
use go_utilities.Base.Result.{Result, ok, err, ◌>>=◌, wrap_error}
use go_utilities.Base.Text.{Text, codes, text_eq}

abbrev pub Environment : Type 0
Environment = String → Text

-- `getEnv` and `getEnvOrDefault`
unfoldable pub env_or : Environment → String → Text → Text
env_or env key default = if env key == [] then default else env key

abbrev pub exporter_console : Text
exporter_console = codes "console"

abbrev pub exporter_otlp : Text
exporter_otlp = codes "otlp"

abbrev pub exporter_elastic_apm : Text
exporter_elastic_apm = codes "elastic-apm"

abbrev pub sampling_always_on : Text
sampling_always_on = codes "always-on"

abbrev pub sampling_always_off : Text
sampling_always_off = codes "always-off"

abbrev pub sampling_trace_id : Text
sampling_trace_id = codes "traceid-ratio"

-- float64, as far as ratios need it.
pub record Floats : Type 1 where
  pub Float : Type 0
  pub zero : Float
  pub one : Float
  pub tenth : Float
  pub below_zero : Float → Bool
  pub above_one : Float → Bool

pub record ResourceConfig : Type 0 where
  pub service_name : Text
  pub service_version : Text
  pub service_environment : Text
  pub service_instance_id : Text
  pub custom_attributes : Dict Text

pub record ElasticApmConfig : Type 0 where
  pub server_url : Text
  pub secret_token : Text
  pub api_key : Text
  pub service_name : Text
  pub environment : Text

pub record ExporterConfig : Type 0 where
  pub kind : Text
  pub endpoint : Text
  pub headers : Dict Text
  pub insecure : Bool
  pub elastic_apm : ElasticApmConfig

pub data ConfigError : Type 0 where
  service_name_required endpoint_required server_url_required ratio_out_of_range : ConfigError
  unknown_exporter : Text → ConfigError
  trace_exporter_invalid metric_exporter_invalid : ConfigError → ConfigError

abbrev pub no_elastic_apm : ElasticApmConfig
no_elastic_apm = record {
  server_url = [];
  secret_token = [];
  api_key = [];
  service_name = [];
  environment = [];
}

abbrev pub no_exporter : ExporterConfig
no_exporter = record {
  kind = [];
  endpoint = [];
  headers = [];
  insecure = false;
  elastic_apm = no_elastic_apm;
}

unfoldable pub validate_exporter : ExporterConfig → Result ConfigError (Unit {0})
validate_exporter e =
    if e.kind == exporter_console
    then ok tt
    else if e.kind == exporter_otlp
    then (if e.endpoint == [] then err endpoint_required else ok tt)
    else if e.kind == exporter_elastic_apm
    then (if e.elastic_apm.server_url == [] then err server_url_required else ok tt)
    else err (unknown_exporter e.kind)

abbrev pub console_exporter : ExporterConfig
console_exporter = record no_exporter { kind = exporter_console; insecure = true }

module _ (f : Floats) where
  pub record SamplingConfig : Type 0 where
    pub kind : Text
    pub ratio : f.Float

  pub record OtelConfig : Type 0 where
    pub resource : ResourceConfig
    pub trace_exporter : ExporterConfig
    pub metric_exporter : ExporterConfig
    pub sampling : SamplingConfig
    pub enable_traces : Bool
    pub enable_metrics : Bool

  abbrev pub validate_traces : OtelConfig → Result ConfigError (Unit {0})
  validate_traces c =
      if c.enable_traces
      then wrap_error trace_exporter_invalid (validate_exporter c.trace_exporter)
      else ok tt

  abbrev pub validate_metrics : OtelConfig → Result ConfigError (Unit {0})
  validate_metrics c =
      if c.enable_metrics
      then wrap_error metric_exporter_invalid (validate_exporter c.metric_exporter)
      else ok tt

  abbrev pub validate_sampling : SamplingConfig → Result ConfigError (Unit {0})
  validate_sampling s =
      if s.kind == sampling_trace_id && (f.below_zero s.ratio || f.above_one s.ratio)
      then err ratio_out_of_range
      else ok tt

  unfoldable pub validate : OtelConfig → Result ConfigError (Unit {0})
  unfolding validate_exporter
  validate c =
      if c.resource.service_name == []
      then err service_name_required
      else (validate_traces c >>= λ _. validate_metrics c >>= λ _. validate_sampling c.sampling)

  module _ (env : Environment) where
    unfoldable pub default_config : OtelConfig
    default_config = record {
      resource = record {
        service_name = env_or env "OTEL_SERVICE_NAME" (codes "unknown-service");
        service_version = env_or env "OTEL_SERVICE_VERSION" (codes "0.0.0");
        service_environment = env_or env "OTEL_SERVICE_ENVIRONMENT" (codes "development");
        service_instance_id = env_or env "OTEL_SERVICE_INSTANCE_ID" [];
        custom_attributes = [];
      };
      trace_exporter = console_exporter;
      metric_exporter = console_exporter;
      sampling = record { kind = sampling_always_on; ratio = f.one };
      enable_traces = true;
      enable_metrics = true;
    }

    abbrev pub in_environment : Text → ResourceConfig → ResourceConfig
    in_environment name r = record r { service_environment = name }

    unfoldable pub development_config : OtelConfig
    unfolding default_config
    development_config = record default_config {
      resource = in_environment (codes "development") default_config.resource;
      trace_exporter = record default_config.trace_exporter { kind = exporter_console };
      metric_exporter = record default_config.metric_exporter { kind = exporter_console };
      sampling = record default_config.sampling { kind = sampling_always_on };
    }

    abbrev pub otlp_exporter : ExporterConfig
    otlp_exporter = record no_exporter {
      kind = exporter_otlp;
      endpoint = env_or env "OTEL_EXPORTER_OTLP_ENDPOINT" (codes "localhost:4317");
      insecure = env_or env "OTEL_EXPORTER_OTLP_INSECURE" (codes "false") == codes "true";
    }

    unfoldable pub production_config : OtelConfig
    unfolding default_config
    production_config = record default_config {
      resource = in_environment (codes "production") default_config.resource;
      trace_exporter = otlp_exporter;
      metric_exporter = otlp_exporter;
      sampling = record { kind = sampling_trace_id; ratio = f.tenth };
    }

    abbrev pub elastic_exporter : ExporterConfig
    elastic_exporter = record no_exporter {
      kind = exporter_elastic_apm;
      elastic_apm = record {
        server_url = env_or env "ELASTIC_APM_SERVER_URL" (codes "http://localhost:8200");
        secret_token = env_or env "ELASTIC_APM_SECRET_TOKEN" [];
        api_key = env_or env "ELASTIC_APM_API_KEY" [];
        service_name = env_or env "ELASTIC_APM_SERVICE_NAME" [];
        environment = env_or env "ELASTIC_APM_ENVIRONMENT" [];
      };
    }

    unfoldable pub new_elastic_apm_config : OtelConfig
    unfolding default_config
    new_elastic_apm_config = record default_config {
      trace_exporter = elastic_exporter;
      metric_exporter = elastic_exporter;
    }
