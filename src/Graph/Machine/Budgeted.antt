-- ===== src/Graph/Machine/Budgeted.antt =====
-- How a node of src/causalops/graph.py moves the counts of model calls and repairs, and what they stay
-- within along a run.
use causal_ops.Prelude.{
  ℕ, ◌+◌, ◌≤◌, ◌≡◌, String, Option, none, some, List, [], ◌∷◌, arith, Bool-cases, inl, inr, Result,
  ok, raised,
}
use causal_ops.Domain.Receipts.{ToolReceipt}
use causal_ops.Domain.Model.{Plan, ModelUsage, FinalAssessment, check_assessment}
use causal_ops.EvidenceStore.{Store}
use causal_ops.Graph.State.{
  Env, GraphState, Sent, refused_to_send, crashed_in_call, replied, ModelRequest, ModelTurn,
  ModelResponse,
}
use causal_ops.Graph.Asking.{
  Asking, Asked, record_call, record_usage, Answer, answered, stopped, refused_request,
  crashed_request, note_stop,
}
use causal_ops.Graph.Asking.Counts.{IsCounted, CallsOnce, ask_with_repair-IsCounted}
use causal_ops.Graph.Investigate
use causal_ops.Graph.FinalAssessment
use causal_ops.Graph.Inversion.{investigate-some, final_assessment-some}

-- What one `ask_once` may do to the counts.
abbrev Once : {A : Type 0} → Asking → Asked A × Asking → Type 0
Once a r =
    (r.1.model_calls_used ≤ a.model_calls_used + 1)
    × (a.model_calls_used ≤ r.1.model_calls_used)
    × (r.1.repairs_used ≡ a.repairs_used)

-- The counts in a state are within the budgets.
abbrev pub Counted : Env → GraphState → Type 0
Counted env x = IsCounted env.budgets x.model_calls_used x.repairs_used

module _ (env : Env) (st : GraphState) where
  plan_read-Once :
      (turn : Sent ModelTurn) (digest : String) (a : Asking)
      → Once a (Investigate.read_sent turn (record_call digest a))
  unfolding Investigate.read_sent Investigate.select_call record_call record_usage
  plan_read-Once (refused_to_send r) digest a = ground arith
  plan_read-Once crashed_in_call digest a = ground arith
  plan_read-Once (replied turn) digest a = ground arith

  plan-Once :
      (request : Option ModelRequest) (a : Asking)
      → Once a (Investigate.propose_with env st request a)
  plan-Once none a = ground arith
  plan-Once (some request) a = plan_read-Once _ request.context_digest a

  pub investigate-CallsOnce :
      (receipts : List ToolReceipt) (store : Store)
      → CallsOnce (Investigate.ask_once env st receipts store)
  unfolding Investigate.ask_once
  investigate-CallsOnce receipts store = record {
    at_most_one = λ errors a. (plan-Once _ a).0;
    never_fewer = λ errors a. (plan-Once _ a).1;
    same_repairs = λ errors a. (plan-Once _ a).2;
  }

  content_read-Once :
      (content : Result String FinalAssessment) (digest : String) (usage : Option ModelUsage)
      (a : Asking)
      → Once a
          (FinalAssessment.read_content env st content (record_usage usage (record_call digest a)))
  unfolding FinalAssessment.read_content record_call record_usage
  content_read-Once (raised errors) digest usage a = ground arith
  content_read-Once (ok x) digest usage a = elim (Bool-cases (check_assessment x)) [
    | inl valid ↦ rw valid (ground arith)
    | inr bad ↦ rw bad (ground arith)
  ]

  response_read-Once :
      (response : Sent ModelResponse) (digest : String) (a : Asking)
      → Once a (FinalAssessment.read_sent env st response (record_call digest a))
  unfolding FinalAssessment.read_sent record_call
  response_read-Once (refused_to_send r) digest a = ground arith
  response_read-Once crashed_in_call digest a = ground arith
  response_read-Once (replied response) digest a =
      content_read-Once response.content digest response.usage a

  response-Once :
      (request : Option ModelRequest) (a : Asking)
      → Once a (FinalAssessment.respond_with env st request a)
  response-Once none a = ground arith
  response-Once (some request) a = response_read-Once _ request.context_digest a

  assessment-CallsOnce :
      (receipts : List ToolReceipt) (store : Store)
      → CallsOnce (FinalAssessment.ask_once env st receipts store)
  unfolding FinalAssessment.ask_once
  assessment-CallsOnce receipts store = record {
    at_most_one = λ errors a. (response-Once _ a).0;
    never_fewer = λ errors a. (response-Once _ a).1;
    same_repairs = λ errors a. (response-Once _ a).2;
  }

  planned-Counted :
      (r : Answer Plan × Asking)
      → IsCounted env.budgets r.1.model_calls_used r.1.repairs_used
      → Counted env (Investigate.conclude env st r)
  unfolding Investigate.conclude Investigate.stopped_state note_stop
  planned-Counted (answered x, a) c = c
  planned-Counted (stopped x, a) c = c
  planned-Counted (refused_request x, a) c = c
  planned-Counted (crashed_request, a) c = c

  cited-Counted :
      (x : FinalAssessment) (unknown : List String) (a : Asking)
      → IsCounted env.budgets a.model_calls_used a.repairs_used
      → Counted env (FinalAssessment.check_citations env st x unknown a)
  unfolding FinalAssessment.failed_state
  cited-Counted x [] a c = c
  cited-Counted x (_ ∷ _) a c = c

  assessed-Counted :
      (store : Store) (r : Answer FinalAssessment × Asking)
      → IsCounted env.budgets r.1.model_calls_used r.1.repairs_used
      → Counted env (FinalAssessment.conclude env st store r)
  unfolding FinalAssessment.conclude FinalAssessment.failed_state note_stop
  assessed-Counted store (answered x, a) c = cited-Counted x _ a c
  assessed-Counted store (stopped x, a) c = c
  assessed-Counted store (refused_request x, a) c = c
  assessed-Counted store (crashed_request, a) c = c

  pub investigate-Counted :
      (st' : GraphState) (now : ℕ)
      → Investigate.investigate env st now ≡ some st'
      → Counted env st
      → Counted env st'
  investigate-Counted st' now h c =
      let (receipts, store, _, _, e) = investigate-some env st st' now h in
      rw e (
        planned-Counted _ (
          ask_with_repair-IsCounted env _ _ _ (investigate-CallsOnce receipts store) now
            st.started_at (Investigate.first_asking env st) c))

  pub final_assessment-Counted :
      (st' : GraphState) (now : ℕ)
      → FinalAssessment.final_assessment env st now ≡ some st'
      → Counted env st
      → Counted env st'
  final_assessment-Counted st' now h c =
      let (receipts, store, _, _, e) = final_assessment-some env st st' now h in
      rw e (
        assessed-Counted store _ (
          ask_with_repair-IsCounted env _ _ _ (assessment-CallsOnce receipts store) now
            st.started_at (FinalAssessment.first_asking env st) c))
