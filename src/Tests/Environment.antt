-- ===== src/Tests/Environment.antt =====
-- The configuration.
use mathlib.Core.Logic.{◌≢◌}
use evidra_agentgateway_brid.Prelude.{
  String, ◌≡◌, ◌⊎◌, refl, Option, none, some, ◌==◌, if◌then◌else◌,
}
use evidra_agentgateway_brid.Prelude.Int.{ℤ, pos}
use evidra_agentgateway_brid.Config.{
  default_merge_wait, env_or_default, parsed_or, env_duration_or_default, load_config,
}
use evidra_agentgateway_brid.Config.Defaults.{load_config-IsUsable}

-- An environment with a malformed merge wait, and nothing else.
abbrev malformed : String → String
malformed key = if key == "EVIDRA_BRIDGE_MERGE_WAIT" then "soon" else ""

abbrev parse : String → Option ℤ
parse raw = if raw == "1s" then some (pos 1000000000) else none

kept_default : (load_config malformed parse).merge_wait ≡ pos 30000000000
unfolding env_or_default parsed_or env_duration_or_default load_config
kept_default = refl

load_config-IsUsable_example :
    let c = load_config malformed parse in
    (c.listen_addr ≢ "")
    × (c.grpc_listen_addr ≢ "")
    × (c.observations_path ≢ "")
    × (c.observer_id ≢ "")
    × (((c.merge_wait ≡ default_merge_wait)
          × ((malformed "EVIDRA_BRIDGE_MERGE_WAIT" ≡ "")
              ⊎ (parse (malformed "EVIDRA_BRIDGE_MERGE_WAIT") ≡ none)))
        ⊎ (parse (malformed "EVIDRA_BRIDGE_MERGE_WAIT") ≡ some c.merge_wait))
load_config-IsUsable_example = load_config-IsUsable malformed parse
