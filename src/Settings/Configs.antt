-- ===== src/Settings/Configs.antt =====
-- crypto/config/config.go, storage/config/config.go and logger/config/config.go.
use go_utilities.Base.{ℕ, Bool, true, [], ◌==◌}
use go_utilities.Base.Dict.{Dict}
use go_utilities.Base.Text.{Text, codes, text_eq, to_lower}
use go_utilities.Otel.Config.{Environment, env_or}

pub record CryptoConfig : Type 0 where
  pub provider : Text
  pub key_name : Text

pub record VaultConfig : Type 0 where
  pub address : Text
  pub token : Text
  pub transit_path : Text
  pub key_name : Text
  pub namespace : Text

pub record LocalKeyConfig : Type 0 where
  pub key_name : Text

pub record AwsKeyConfig : Type 0 where
  pub region : Text
  pub access_key_id : Text
  pub secret_access_key : Text
  pub key_id : Text
  pub endpoint : Text

pub record MinioConfig : Type 0 where
  pub endpoint : Text
  pub access_key : Text
  pub secret_key : Text
  pub bucket_name : Text
  pub use_ssl : Bool

pub record S3Config : Type 0 where
  pub region : Text
  pub access_key_id : Text
  pub secret_access_key : Text
  pub bucket_name : Text
  pub endpoint : Text

pub record FileOptions : Type 0 where
  pub directory : Text
  pub filename : Text
  pub max_size : ℕ
  pub max_backups : ℕ
  pub max_age : ℕ
  pub compress : Bool

-- The values of the default fields are texts here.
pub record LogConfig : Type 0 where
  pub level : Text
  pub format : Text
  pub output : Text
  pub environment : Text
  pub file_options : FileOptions
  pub fields : Dict Text

abbrev pub default_crypto_config : CryptoConfig
default_crypto_config = record { provider = codes "local"; key_name = codes "kgb-local-kek" }

abbrev pub default_vault_config : VaultConfig
default_vault_config = record {
  address = codes "http://localhost:8200";
  token = codes "kgb-dev-root-token";
  transit_path = codes "transit";
  key_name = codes "kgb-messaging-kek";
  namespace = [];
}

unfoldable pub default_log_config : LogConfig
default_log_config = record {
  level = codes "info";
  format = codes "json";
  output = codes "stdout";
  environment = codes "dev";
  file_options = record {
    directory = codes "./logs";
    filename = codes "application.log";
    max_size = 100;
    max_backups = 3;
    max_age = 28;
    compress = true;
  };
  fields = [];
}

unfoldable pub development_log_config : LogConfig
unfolding default_log_config
development_log_config = record default_log_config {
  level = codes "debug";
  format = codes "pretty";
}

unfoldable pub production_log_config : LogConfig
unfolding default_log_config
production_log_config = record default_log_config {
  level = codes "info";
  output = codes "both";
  environment = codes "prod";
}

module _ (env : Environment) where
  unfoldable pub get_kms_provider_type : Text
  unfolding env_or
  get_kms_provider_type = to_lower (env_or env "CRYPTO_PROVIDER" (codes "local"))

  unfoldable pub load_crypto_config : CryptoConfig
  unfolding env_or
  load_crypto_config = record {
    provider = to_lower (env_or env "CRYPTO_PROVIDER" (codes "local"));
    key_name = env_or env "CRYPTO_KEY_NAME" (codes "kgb-messaging-kek");
  }

  unfoldable pub load_vault_config : VaultConfig
  unfolding env_or
  load_vault_config = record {
    address = env_or env "VAULT_ADDR" (codes "http://localhost:8200");
    token = env_or env "VAULT_TOKEN" [];
    transit_path = env_or env "VAULT_TRANSIT_PATH" (codes "transit");
    key_name = env_or env "VAULT_KEY_NAME" (codes "kgb-messaging-kek");
    namespace = env_or env "VAULT_NAMESPACE" [];
  }

  unfoldable pub load_local_config : LocalKeyConfig
  unfolding env_or
  load_local_config = record { key_name = env_or env "LOCAL_KEY_NAME" (codes "kgb-local-kek") }

  unfoldable pub load_aws_config : AwsKeyConfig
  unfolding env_or
  load_aws_config = record {
    region = env_or env "AWS_REGION" (codes "us-east-1");
    access_key_id = env_or env "AWS_ACCESS_KEY_ID" [];
    secret_access_key = env_or env "AWS_SECRET_ACCESS_KEY" [];
    key_id = env_or env "AWS_KMS_KEY_ID" [];
    endpoint = env_or env "AWS_KMS_ENDPOINT" [];
  }

  unfoldable pub load_minio_config : MinioConfig
  unfolding env_or
  load_minio_config = record {
    endpoint = env_or env "MINIO_ENDPOINT" (codes "localhost:9000");
    access_key = env_or env "MINIO_ACCESS_KEY" (codes "minioadmin");
    secret_key = env_or env "MINIO_SECRET_KEY" (codes "minioadmin");
    bucket_name = env_or env "MINIO_BUCKET" (codes "kgb-messaging");
    use_ssl = env_or env "MINIO_USE_SSL" (codes "false") == codes "true";
  }

  unfoldable pub load_s3_config : S3Config
  unfolding env_or
  load_s3_config = record {
    region = env_or env "AWS_REGION" (codes "us-east-1");
    access_key_id = env_or env "AWS_ACCESS_KEY_ID" [];
    secret_access_key = env_or env "AWS_SECRET_ACCESS_KEY" [];
    bucket_name = env_or env "S3_BUCKET" (codes "kgb-messaging");
    endpoint = env_or env "S3_ENDPOINT" [];
  }

  unfoldable pub get_storage_type : Text
  unfolding env_or
  get_storage_type = to_lower (env_or env "STORAGE_TYPE" (codes "minio"))
