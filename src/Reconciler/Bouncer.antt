-- ===== src/Reconciler/Bouncer.antt =====
-- reconciler.py: what the reconciler reads of a bouncer, and what its calls into one report.
use protek.Prelude.{ℕ, Str, Option, Bool, List}
use protek.Prelude.Dict.{Dict}
use protek.Reconcile.{MtEntry}

-- `source_filter`: None, a comma-separated text, or a list of names
pub data SourceFilter : Type 0 where
  unset : SourceFilter
  csv : Str → SourceFilter
  names : List Str → SourceFilter

-- A row of the push log that an adapter returns.
pub record Push : Type 0 where
  pub ip : Str
  pub action : Str
  pub success : Bool
  pub error : Str

pub record ApplyResult : Type 0 where
  pub errors : ℕ
  pub push_log : List Push

-- A bouncer object: its attributes, what its methods answer in this cycle (`none` where they
-- raise), and the milliseconds that the clock measures around the three stages. `raises` says
-- that an exception leaves `_run_one_bouncer`, such as for an attribute of a wrong type.
pub record Bouncer : Type 0 where
  pub name : Str
  pub kind : Str
  pub configured : Bool
  pub origins : List Str
  pub exclude_origins : List Str
  pub max_entries : ℕ
  pub min_reputation : ℕ
  pub source_filter : SourceFilter
  pub scenario_filter : Str
  pub has_firewall_rules : Bool
  pub snapshot : Option (List MtEntry)
  pub apply : Dict Str Str → List Str → Option ApplyResult
  pub snapshot_ms : ℕ
  pub diff_ms : ℕ
  pub apply_ms : ℕ
  pub raises : Bool
