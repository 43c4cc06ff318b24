-- ===== src/Protocol/Capability.antt =====
-- worker_protocol.py: the fields of CapabilityManifest and `supports`. The validation in
-- `__post_init__` is not modelled. Sizes are natural numbers;
-- `current_load`, a float from 0 to 1, is counted in millionths. Optional texts of a requirement
-- are read for their truth in the source, so the empty text is `none` here.
use across_orchestrator.Base.{
  ℕ, String, string_Eq, Bool, true, Option, none, some, List, ◌&&◌, ◌||◌, not, ◌==◌, leb, contains,
  subset, holds,
}

abbrev pub protocol_version : String
protocol_version = "across-worker-session/1.0"

abbrev pub full_load : ℕ
full_load = 1_000_000

pub record CapabilityManifest : Type 0 where
  pub node_id : String
  pub worker_version : String
  pub os : String
  pub architecture : String
  pub cpu_count : ℕ
  pub memory_bytes : ℕ
  pub disk_available_bytes : ℕ
  pub executors : List String
  pub isolation_level : String
  pub protocol_versions : List String
  pub workflow_runtimes : List String
  pub tools : List String
  pub agents : List String
  pub labels : List String
  pub max_concurrency : ℕ
  pub current_load : ℕ
  pub verification_status : String
  pub capability_source : String
  pub last_verified_at : ℕ

-- The keys of `required_capabilities` that `supports` reads.
pub record Requirements : Type 0 where
  pub os : Option String
  pub architecture : Option String
  pub executor : Option String
  pub isolation_level : Option String
  pub labels : List String
  pub tools : List String
  pub workflow_runtimes : List String
  pub agents : List String
  pub memory_bytes : ℕ
  pub disk_bytes : ℕ

-- `required.get(key) and required[key] != value` does not hold
abbrev pub agrees : Option String → String → Bool
agrees none value = true
agrees (some want) value = want == value

abbrev pub within : Option String → List String → Bool
within none values = true
within (some want) values = contains values want

abbrev pub isolation_met : Option String → String → Bool
isolation_met wanted level = not (holds wanted "isolated") || level == "isolated"

unfoldable pub supports : CapabilityManifest → Requirements → Bool
supports c r =
    c.verification_status == "verified"
    && c.capability_source == "local-probe"
    && contains c.protocol_versions protocol_version
    && agrees r.os c.os
    && agrees r.architecture c.architecture
    && within r.executor c.executors
    && isolation_met r.isolation_level c.isolation_level
    && subset r.labels c.labels
    && subset r.tools c.tools
    && subset r.workflow_runtimes c.workflow_runtimes
    && subset r.agents c.agents
    && leb r.memory_bytes c.memory_bytes
    && leb r.disk_bytes c.disk_available_bytes
