-- ===== src/Domain/Model.antt =====
-- src/causalops/domain.py: what the reasoning model writes, and what pydantic checks of it.
use Prim.Native.String.{count}
use causal_ops.Prelude.{
  ℕ, String, Bool, true, false, not, Option, List, [], ◌∷◌, ◌&&◌, leb, is_some, is_none,
  if◌then◌else◌,
}
use causal_ops.Domain.Codes.{ModelDisposition, RootCauseCode, is_undetermined}
use causal_ops.Domain.Receipts.{ToolProposal}

pub record ModelUsage : Type 0 where
  pub input_tokens : ℕ
  pub output_tokens : ℕ

pub record Hypothesis : Type 0 where
  pub root_cause : RootCauseCode
  pub rank : ℕ
  pub supporting_evidence_ids : List String
  pub contrary_evidence_ids : List String
  pub missing_evidence : String

-- `InitialPlan` and `HypothesisUpdate`, which have the same fields and validators.
pub record Plan : Type 0 where
  pub hypotheses : List Hypothesis
  pub proposal : Option ToolProposal
  pub stop_reason : Option String

-- A stage either proposes one check or explains why it stops, never both.
unfoldable pub check_proposal_or_stop : Plan → Bool
check_proposal_or_stop p =
    if is_none p.proposal then is_some p.stop_reason else is_none p.stop_reason

pub record FinalAssessment : Type 0 where
  pub disposition : ModelDisposition
  pub root_cause : RootCauseCode
  pub supporting_evidence_ids : List String
  pub contrary_evidence_ids : List String
  pub runbook_citations : List String
  pub uncertainty : String
  pub next_step : String

abbrev pub is_empty {ℓ} : {A : Type ℓ} → List A → Bool
is_empty [] = true
is_empty (_ ∷ _) = false

-- The validator on the disposition, the root cause and the citations.
unfoldable pub check_disposition : ModelDisposition → RootCauseCode → List String → Bool
check_disposition ModelDisposition.diagnosed cause cited =
    not (is_undetermined cause) && not (is_empty cited)
check_disposition ModelDisposition.insufficient_evidence cause cited = is_undetermined cause

-- `FinalAssessment.check_terminal_invariants`, with the two `max_length` bounds
unfoldable pub check_assessment : FinalAssessment → Bool
unfolding check_disposition
check_assessment a =
    check_disposition a.disposition a.root_cause a.supporting_evidence_ids
    && leb (count a.uncertainty) 600
    && leb (count a.next_step) 300
