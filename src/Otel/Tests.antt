-- ===== src/Otel/Tests.antt =====
-- Runs, and the theorems at concrete inputs: a float is a number of percents, and no library fails.
use go_utilities.Base.{ℕ, ◌≡◌, refl, ◌↔◌, true, false, [], some, ltb}
use go_utilities.Base.Result.{ok}
use go_utilities.Base.Text.{codes, parse_bool}
use go_utilities.Otel.Config.{
  Environment, env_or, Floats, OtelConfig, validate, default_config, production_config,
  service_name_required,
}
use go_utilities.Otel.Config.Valid.{IsValid, validate_iff}
use go_utilities.Otel.Provider.{
  Sampler, always_sample, OtelLibrary, new_otel_provider, invalid_config, initialize_telemetry,
}
use go_utilities.Otel.Provider.Sampled.{
  IsUnsupported, initialize_telemetry-samples_all, new_otel_provider-supported,
}

abbrev percent : Floats
percent = record {
  Float = ℕ;
  zero = 0;
  one = 100;
  tenth = 10;
  below_zero = λ n. false;
  above_one = λ n. ltb 100 n;
}

abbrev nothing_set : Environment
nothing_set key = []

validate_iff_example :
    (validate percent (production_config percent nothing_set) ≡ ok tt)
    ↔ IsValid percent (production_config percent nothing_set)
validate_iff_example = validate_iff percent (production_config percent nothing_set)

abbrev library : OtelLibrary percent
library = record {
  parse_url = λ t. some (codes "http", t);
  resource_ok = λ r. true;
  trace_exporter_ok = λ e. true;
  metric_exporter_ok = λ e. true;
  parse_float = λ t. 5;
}

-- The ratio is 5 percent, the type of sampling is not set.
initialize_telemetry-samples_all_example : ◌≡◌ {A = Sampler percent} always_sample always_sample
unfolding initialize_telemetry parse_bool env_or validate
initialize_telemetry-samples_all_example =
    initialize_telemetry-samples_all percent library nothing_set (codes "svc") true _ _
      always_sample refl refl refl

-- Without a name of the service no provider is made.
abbrev nameless : OtelConfig percent
nameless = record (default_config percent nothing_set) {
  resource = record (default_config percent nothing_set).resource { service_name = [] };
}

new_otel_provider-supported_example :
    ¬ IsUnsupported percent library (invalid_config service_name_required)
unfolding new_otel_provider validate
new_otel_provider-supported_example =
    new_otel_provider-supported percent library nameless (invalid_config service_name_required) refl
