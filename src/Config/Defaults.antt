-- ===== src/Config/Defaults.antt =====
-- What can be relied on of a configuration, whatever the environment.
use mathlib.Core.Logic.{◌≢◌}
use evidra_agentgateway_brid.Prelude.{
  String, ◌≡◌, refl, ◌⊎◌, inl, inr, Option, none, some, text_cases, Option-cases,
}
use evidra_agentgateway_brid.Prelude.Int.{ℤ}
use evidra_agentgateway_brid.Config.{
  default_merge_wait, env_or_default, parsed_or, env_duration_or_default, load_config,
}

module _ (getenv : String → String) where
  env_or_default-ne_nil :
      (key fallback : String) → fallback ≢ "" → env_or_default getenv key fallback ≢ ""
  unfolding env_or_default
  env_or_default-ne_nil key fallback h = elim (text_cases (getenv key) "") [
    | inl (t, p) ↦ rw t h
    | inr (f, n) ↦ rw f n
  ]

  module _ (parse_duration : String → Option ℤ) where
    duration_cases :
        (key : String) (fallback : ℤ)
        → let d = env_duration_or_default getenv parse_duration key fallback in
          ((d ≡ fallback) × ((getenv key ≡ "") ⊎ (parse_duration (getenv key) ≡ none)))
          ⊎ (parse_duration (getenv key) ≡ some d)
    unfolding env_duration_or_default
    duration_cases key fallback = elim (text_cases (getenv key) "") [
      | inl (t, p) ↦ rw t (inl (refl, inl p))
      | inr (f, n) ↦ elim (Option-cases (parse_duration (getenv key))) [
        | inl e ↦ rw (f, e, parsed_or) (inl (refl, inr refl))
        | inr (d, e) ↦ rw (f, e, parsed_or) (inr refl)
      ]
    ]

    -- Whatever the environment holds, both addresses, the path of the file and the observer's identity
    -- are not empty, and the merge wait is what the environment says or, where that is missing or
    -- malformed, thirty seconds.
    pub load_config-IsUsable :
        let c = load_config getenv parse_duration in
        (c.listen_addr ≢ "")
        × (c.grpc_listen_addr ≢ "")
        × (c.observations_path ≢ "")
        × (c.observer_id ≢ "")
        × (((c.merge_wait ≡ default_merge_wait)
              × ((getenv "EVIDRA_BRIDGE_MERGE_WAIT" ≡ "")
                  ⊎ (parse_duration (getenv "EVIDRA_BRIDGE_MERGE_WAIT") ≡ none)))
            ⊎ (parse_duration (getenv "EVIDRA_BRIDGE_MERGE_WAIT") ≡ some c.merge_wait))
    unfolding load_config
    load_config-IsUsable = (
      env_or_default-ne_nil "EVIDRA_BRIDGE_LISTEN_ADDR" ":4318" (λ p. cc p),
      env_or_default-ne_nil "EVIDRA_BRIDGE_GRPC_LISTEN_ADDR" ":4317" (λ p. cc p),
      env_or_default-ne_nil "EVIDRA_BRIDGE_OBSERVATIONS" "output/observations.jsonl" (λ p. cc p),
      env_or_default-ne_nil "EVIDRA_BRIDGE_OBSERVER_ID" "agentgateway-bridge" (λ p. cc p),
      duration_cases "EVIDRA_BRIDGE_MERGE_WAIT" default_merge_wait,
    )
