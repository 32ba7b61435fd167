-- ===== src/Experiments/Trial.antt =====
-- packages/experiment-agent/src/agent.ts: what the agent reads and says, and its runs. The client and
-- the assembly of pull requests are the world: each call of a run is recorded, the newest first, and
-- may fail.
use toqar.Common.{ℕ, String, Bool, true, false, Option, none, some, List, ◌∷◌}
use toqar.Experiments.Sequential.{Floats, Decision, Interval}

pub data Direction : Type 0 where
  increase decrease : Direction

pub record Hypothesis : Type 0 where
  pub hypothesis : String
  pub target_metric : String
  pub direction : Direction
  pub from_query_ids : List String
  pub guardrails : List String
  pub flag_provider : String

pub data Status : Type 0 where
  running stopped concluded : Status

pub data Severity : Type 0 where
  critical warning positive : Severity

pub data StartResult : Type 0 where
  refused : (level : ℕ) → StartResult
  started : (experiment_id pr_url : String) → StartResult

pub data MonitorResult : Type 0 where
  undecided : MonitorResult
  decided : Decision → MonitorResult
  breached_by : List String → MonitorResult

pub record FindingMetric : Type 0 where
  pub label : String
  pub value : String
  pub query_id : String

pub record EvidenceStep : Type 0 where
  pub title : String
  pub query_id : String

pub record Finding : Type 0 where
  pub layer : String
  pub severity : Severity
  pub variant : String
  pub headline : String
  pub summary : String
  pub metrics : List FindingMetric
  pub evidence : List EvidenceStep
  pub prompt_version : String

module _ (floats : Floats) where
  open floats use {num}
  open num use {N}

  pub record ArmObservations : Type 0 where
    pub control : List N
    pub variant : List N

  pub record GuardrailOutcome : Type 0 where
    pub metric : String
    pub breached : Bool
    pub effect : N
    pub query_id : String

  -- A missing query id of a breached guardrail is `undefined`.
  pub record Verdict : Type 0 where
    pub decision : Decision
    pub effect : N
    pub interval : Interval floats
    pub control_samples : ℕ
    pub variant_samples : ℕ
    pub guardrail_outcomes : List (String × Bool)
    pub query_ids : List (Option String)

  pub record MonitorOptions : Type 0 where
    pub experiment_id : String
    pub target_metric : String
    pub direction : Direction
    pub target_query : String
    pub guardrail_queries : List (String × String)
    pub target : ArmObservations
    pub guardrails : List (String × ArmObservations)

  pub data Call : Type 0 where
    asked_level : Call
    created : Hypothesis → Call
    assembled : Call
    updated : String → Status → Option String → Call
    wrote_verdict : String → Verdict → Call
    published : Finding → Call

  -- `none` and `false` are a rejected promise.
  pub record World : Type 0 where
    pub level : Option ℕ
    pub create : Option String
    pub assemble : Option String
    pub accepts : Call → Bool

  pub data Run (A : Type 0) : Type 0 where
    returns : A → List Call → Run A
    throws : List Call → Run A

  abbrev pub Cmd : Type 0 → Type 0
  Cmd A = List Call → Run A

module _ {floats : Floats} where
  infixl 5 ◌>>=◌ ◌>>◌
  abbrev pub ◌>>=◌ : {A B : Type 0} → Cmd floats A → (A → Cmd floats B) → Cmd floats B
  ◌>>=◌ m f h = elim (m h) [ returns a h' ↦ f a h' | throws h' ↦ throws h' ]

  abbrev pub ◌>>◌ : {B : Type 0} → Cmd floats (Unit {0}) → Cmd floats B → Cmd floats B
  m >> k = m >>= λ _. k

  abbrev pub pure : {A : Type 0} → A → Cmd floats A
  pure a h = returns a h

  abbrev pub ask : {A : Type 0} → Call floats → Option A → Cmd floats A
  ask c none h = throws (c ∷ h)
  ask c (some a) h = returns a (c ∷ h)

  abbrev pub done_if : Bool → Call floats → Cmd floats (Unit {0})
  done_if true c h = returns tt (c ∷ h)
  done_if false c h = throws (c ∷ h)

  module _ (world : World floats) where
    abbrev pub tell : Call floats → Cmd floats (Unit {0})
    tell c = done_if (world.accepts c) c
