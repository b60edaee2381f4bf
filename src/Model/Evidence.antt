-- ===== src/Model/Evidence.antt =====
-- Evidence, conflicts, missing evidence and the Terraform change of app/models.py.
use ghost_busters.Prelude.{ℕ, String, Bool, true, false, Option, List}
use ghost_busters.Prelude.Json.{Value, Fields}

pub data Freshness : Type 0 where
  fresh stale unavailable unknown : Freshness

abbrev pub is_unavailable : Freshness → Bool
is_unavailable Freshness.unavailable = true
is_unavailable _ = false

abbrev pub is_stale : Freshness → Bool
is_stale Freshness.stale = true
is_stale _ = false

abbrev pub is_fresh : Freshness → Bool
is_fresh Freshness.fresh = true
is_fresh _ = false

-- `reliability` counts ten-thousandths
pub record EvidenceItem : Type 0 where
  pub source : String
  pub tool_name : String
  pub claim : String
  pub value : Value
  pub resource_id : String
  pub collected_at : ℕ
  pub freshness_status : Freshness
  pub reliability : ℕ
  pub metadata : Fields
  pub source_mode : Option String

pub record TerraformResourceChange : Type 0 where
  pub address : String
  pub resource_type : String
  pub actions : List String
  pub before : Option Fields
  pub after : Option Fields
  pub environment : Option String
  pub current_instance_type : Option String
  pub proposed_instance_type : Option String
  pub destructive : Bool
  pub tags : Option Fields

pub data ConflictSeverity : Type 0 where
  low medium high : ConflictSeverity

abbrev pub is_high : ConflictSeverity → Bool
is_high ConflictSeverity.high = true
is_high _ = false

pub record ConflictRecord : Type 0 where
  pub claim : String
  pub sources : List String
  pub values : List Value
  pub severity : ConflictSeverity
  pub explanation : String

pub record MissingEvidenceRecord : Type 0 where
  pub source : String
  pub claim_needed : String
  pub critical : Bool
  pub impact : String
