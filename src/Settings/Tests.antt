-- ===== src/Settings/Tests.antt =====
-- Runs, and the theorems at concrete inputs: an adapter is named by a number.
use go_utilities.Base.{
  List, ◌∷◌, refl, ℕ, ◌≡◌, ◌↔◌, ◌⊎◌, true, false, [], Option, none, some, string_eq,
}
use go_utilities.Base.Run.{returns}
use go_utilities.Base.Result.{ok, err}
use go_utilities.Base.Text.{codes}
use go_utilities.Otel.Config.{Environment}
use go_utilities.Settings.Globals.{Use, gets, resets, use_all, fresh, get_global, set_global}
use go_utilities.Settings.Globals.Lasting.{GotSince, get_global-set_global_iff}
use go_utilities.Settings.Factories.{
  missing_redis_config, new_kms_provider, new_pub_sub, CryptoAdapters, RedisLibrary, PubSubConfig,
}

abbrev first_made : Option ℕ
first_made = some 1

-- What is set after a reset is lost, although a get came before the reset.
abbrev forgotten : List (Use ℕ)
forgotten = gets first_made ∷ resets ∷ []

get_global-set_global_iff_example :
    ((get_global first_made (set_global (some 2) (use_all forgotten fresh))).1 ≡ some 2)
    ↔ (GotSince forgotten ⊎ (first_made ≡ some 2))
get_global-set_global_iff_example = get_global-set_global_iff forgotten 2 first_made

abbrev adapters : CryptoAdapters
adapters = record {
  KmsProvider = ℕ;
  Service = Option ℕ;
  new_local = λ c. some 1;
  new_vault = λ c. none;
  new_service = λ p. p;
}

abbrev nothing_set : Environment
nothing_set key = []

abbrev redis : RedisLibrary
redis = record {
  Client = ℕ;
  new_client = λ r. 1;
  ping_ok = λ c. true;
  tracing_ok = λ c. true;
  metrics_ok = λ c. true;
}

-- Redis is asked for and not configured.
abbrev unconfigured : PubSubConfig
unconfigured = record {
  kind = codes "redis";
  enabled = true;
  namespace = [];
  enable_telemetry = false;
  redis = none;
}

local_is_made : new_kms_provider adapters nothing_set (codes "local") ≡ ok 1
unfolding new_kms_provider
local_is_made = refl

redis_is_missing : new_pub_sub redis unconfigured ≡ returns (err missing_redis_config)
unfolding new_pub_sub
redis_is_missing = refl
