-- ===== src/Guard.antt =====
-- hugegraph-mcp/hugegraph_mcp/guard.py, and the predicates of config.py that it asks.
use incubator_hugegraph_ai.Prelude.{
  ℕ, String, ◌≡◌, ◌↔◌, ◌⊎◌, Bool, true, false, ◌&&◌, ◌||◌, not, Option, none, some, arith, str_eq,
  ◌==◌, if◌then◌else◌,
}
use incubator_hugegraph_ai.Envelope.{ErrorType}

-- The fields of `MCPConfig` that the write protocol reads.
pub record McpConfig : Type 0 where
  pub url : String
  pub graph : String
  pub graphspace : Option String
  pub user : String
  pub readonly : Bool
  pub plan_store_backend : String
  pub write_instance_count : ℕ

abbrev pub is_readonly : McpConfig → Bool
is_readonly cfg = cfg.readonly

unfoldable pub has_safe_write_store : McpConfig → Bool
has_safe_write_store cfg = str_eq cfg.plan_store_backend "sqlite" && (cfg.write_instance_count == 1)

pub data Capability : Type 0 where
  read generate data_write schema_write index_write debug_write : Capability

-- `READONLY_ALLOWED_CAPABILITIES`
abbrev pub is_allowed_in_readonly : Capability → Bool
is_allowed_in_readonly Capability.read = true
is_allowed_in_readonly Capability.generate = true
is_allowed_in_readonly _ = false

-- `capability in WRITE_CAPABILITIES`
abbrev pub is_write_capability : Capability → Bool
is_write_capability Capability.data_write = true
is_write_capability Capability.schema_write = true
is_write_capability Capability.index_write = true
is_write_capability Capability.debug_write = true
is_write_capability _ = false

-- `guard`: none where the capability is granted, else the kind of the envelope
unfoldable pub guard : Capability → McpConfig → Option ErrorType
guard capability cfg =
    if is_write_capability capability && not (is_readonly cfg) && not (has_safe_write_store cfg)
    then some ErrorType.feature_disabled
    else if not (is_readonly cfg) || is_allowed_in_readonly capability
    then none
    else some ErrorType.readonly_violation

-- `guard` grants a capability exactly if it is no write, or the server is not read-only and has a
-- plan store that is safe for its number of writers.
pub guard_grants :
    (capability : Capability) (cfg : McpConfig)
    → (guard capability cfg ≡ none) ↔ (
        (is_write_capability capability ≡ false)
        ⊎ ((is_readonly cfg ≡ false) × (has_safe_write_store cfg ≡ true)))
unfolding guard
guard_grants capability cfg = ground arith
