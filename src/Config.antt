-- ===== src/Config.antt =====
-- internal/config/config.go: the environment of the receiver. `getenv` is `os.Getenv`, and
-- `parse_duration` is `time.ParseDuration`, with `none` for an error.
pub mod Defaults
use evidra_agentgateway_brid.Prelude.{String, Option, none, some, ◌==◌, if◌then◌else◌}
use evidra_agentgateway_brid.Prelude.Int.{ℤ, pos}

pub record Config : Type 0 where
  pub listen_addr : String
  pub grpc_listen_addr : String
  pub observations_path : String
  pub merge_wait : ℤ
  pub observer_id : String
  pub observer_version : String

-- `30*time.Second`
abbrev pub default_merge_wait : ℤ
default_merge_wait = pos 30000000000

-- `if err != nil { return fallback }; return parsed`
unfoldable pub parsed_or : ℤ → Option ℤ → ℤ
parsed_or fallback none = fallback
parsed_or fallback (some d) = d

module _ (getenv : String → String) where
  unfoldable pub env_or_default : String → String → String
  env_or_default key fallback = if getenv key == "" then fallback else getenv key

  module _ (parse_duration : String → Option ℤ) where
    unfoldable pub env_duration_or_default : String → ℤ → ℤ
    unfolding parsed_or
    env_duration_or_default key fallback =
        if getenv key == "" then fallback else parsed_or fallback (parse_duration (getenv key))

    unfoldable pub load_config : Config
    load_config = record {
      listen_addr = env_or_default "EVIDRA_BRIDGE_LISTEN_ADDR" ":4318";
      grpc_listen_addr = env_or_default "EVIDRA_BRIDGE_GRPC_LISTEN_ADDR" ":4317";
      observations_path = env_or_default "EVIDRA_BRIDGE_OBSERVATIONS" "output/observations.jsonl";
      merge_wait = env_duration_or_default "EVIDRA_BRIDGE_MERGE_WAIT" default_merge_wait;
      observer_id = env_or_default "EVIDRA_BRIDGE_OBSERVER_ID" "agentgateway-bridge";
      observer_version = getenv "EVIDRA_BRIDGE_OBSERVER_VERSION";
    }
