-- ===== src/Protocol/Grant.antt =====
-- worker_protocol.py: ModelGrant. Costs, floats in the source, are counted in 10^-9 US dollars.
use across_orchestrator.Base.{
  ◌||◌, ℕ, String, string_Eq, Bool, Option, List, ◌&&◌, not, ◌==◌, leb, contains, is_some,
  if◌then◌else◌,
}
use across_orchestrator.Exec.{Result, ok, err}

pub data ProtocolError : Type 0 where
  grant_expired_or_revoked grant_binding_mismatch grant_scope_denied grant_limits_invalid :
      ProtocolError

pub record ModelGrant : Type 0 where
  pub grant_id : String
  pub run_id : String
  pub job_id : String
  pub node_id : String
  pub audience : String
  pub scopes : List String
  pub model_policy : String
  pub purposes : List String
  pub max_calls : ℕ
  pub max_tokens : ℕ
  pub max_concurrency : ℕ
  pub max_cost_usd : ℕ
  pub issued_at : ℕ
  pub expires_at : ℕ
  pub revoked_at : Option ℕ

-- The keyword arguments of `authorize`.
pub record GrantUse : Type 0 where
  pub run_id : String
  pub job_id : String
  pub node_id : String
  pub audience : String
  pub scope : String
  pub purpose : String

abbrev pub binding_matches : ModelGrant → GrantUse → Bool
binding_matches g u =
    u.run_id == g.run_id
    && u.job_id == g.job_id
    && u.node_id == g.node_id
    && u.audience == g.audience

unfoldable pub authorize : ModelGrant → GrantUse → ℕ → Result ProtocolError (Unit {0})
authorize g u now =
    if is_some g.revoked_at || leb g.expires_at now
    then err grant_expired_or_revoked
    else if not (binding_matches g u)
    then err grant_binding_mismatch
    else if not (contains g.scopes u.scope && contains g.purposes u.purpose)
    then err grant_scope_denied
    else ok tt
