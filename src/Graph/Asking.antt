-- ===== src/Graph/Asking.antt =====
-- `_StageCounters`, `_render_stage_request` and `_ask_with_repair` of src/causalops/graph.py.
pub mod Counts
use causal_ops.Prelude.{
  ℕ, zero, ◌+◌, String, Bool, Option, none, some, List, ltb, leb, if◌then◌else◌,
}
use causal_ops.Domain.Codes.{
  ReasonCode, GraphPhase, wall_clock_expired, model_call_budget_exhausted, repair_exhausted,
  model_output_invalid,
}
use causal_ops.Domain.Receipts.{Budgets, ToolReceipt, ToolProposal}
use causal_ops.Domain.Model.{ModelUsage}
use causal_ops.EvidenceStore.{Store, context_evidence, quota}
use causal_ops.Graph.State.{
  Env, GraphState, RunEvent, Stage, StageContext, ModelRequest, Refusal, event, invalid_response,
  stage_stopped, tools_left, runbook_searches_left, model_calls_left, denied_check_notes, expired,
  accumulate_usage,
}

-- The counters of one stage, with the locals that its closures share: the recorder's events and the
-- last proposal.
pub record Asking : Type 0 where
  pub model_calls_used : ℕ
  pub repairs_used : ℕ
  pub invalid_responses : ℕ
  pub usage : Option ModelUsage
  pub context_digest : String
  pub events : List RunEvent
  pub last_proposal : Option ToolProposal

abbrev pub start : GraphState → List RunEvent → Asking
start st events = record {
  model_calls_used = st.model_calls_used;
  repairs_used = st.repairs_used;
  invalid_responses = st.invalid_responses;
  usage = st.usage;
  context_digest = st.context_digest;
  events = events;
  last_proposal = none;
}

-- `record_call`, before the call that it counts
unfoldable pub record_call : String → Asking → Asking
record_call digest a = record a {
  model_calls_used = a.model_calls_used + 1;
  context_digest = digest;
}

unfoldable pub record_usage : Option ModelUsage → Asking → Asking
record_usage latest a = record a { usage = accumulate_usage a.usage latest }

unfoldable pub may_repair : Budgets → Asking → Bool
may_repair budgets a = ltb a.repairs_used budgets.repairs

abbrev pub context_of :
    Env
    → GraphState
    → Store
    → Stage
    → Option String
    → Asking
    → ℕ
    → ℕ
    → List causal_ops.Graph.State.DeniedCheckNote
    → StageContext
context_of env st store stage errors a tools searches notes =
    let (evidence, markers) = context_evidence (quota env.budgets.executed_tools) store in
    record {
      stage = stage;
      packet = env.packet;
      scope = env.scope;
      evidence = evidence;
      markers = markers;
      model_calls_left = model_calls_left a.model_calls_used a.repairs_used env.budgets;
      tools_left = tools;
      passages = st.runbook_passages;
      denied_notes = notes;
      runbook_searches_left = searches;
      repair_errors = errors;
    }

-- `none` where counting the slots or the denials raises.
unfoldable pub render_stage_request :
    Env
    → GraphState
    → List ToolReceipt
    → Store
    → Stage
    → GraphPhase
    → Option String
    → Asking
    → Option ModelRequest
render_stage_request env st receipts store stage phase errors a =
    elim (tools_left receipts env.budgets) [
      | none ↦ none
      | some tools ↦ elim (runbook_searches_left receipts env.budgets) [
        | none ↦ none
        | some searches ↦ elim (denied_check_notes receipts) [
          | none ↦ none
          | some notes ↦
              let context = context_of env st store stage errors a tools searches notes in
              some (record {
                context = context;
                run_id = st.run_id;
                graph_phase = phase;
                model_turn = st.model_turn;
                context_digest = env.digest context;
              })
        ]
      ]
    ]

-- What one `ask_once` comes to.
pub data Asked (A : Type 0) : Type 0 where
  parsed : A → Asked A
  invalid : String → Asked A
  refused : Refusal → Asked A
  crashed : Asked A

-- What `_ask_with_repair` comes to; the last two are the exceptions that pass through it.
pub data Answer (A : Type 0) : Type 0 where
  answered : A → Answer A
  stopped : ReasonCode → Answer A
  refused_request : Refusal → Answer A
  crashed_request : Answer A

module _ (env : Env) (phase : GraphPhase) (stage : Stage) where
  -- `on_invalid` and the count of invalid responses
  unfoldable pub note_invalid : String → Asking → Asking
  note_invalid errors a = record a {
    invalid_responses = a.invalid_responses + 1;
    events = event env phase (invalid_response stage errors) a.events;
  }

  -- `on_stop`
  unfoldable pub note_stop : ReasonCode → Asking → Asking
  note_stop code a = record a { events = event env phase (stage_stopped code) a.events }

module _ {A : Type 0} (env : Env) (phase : GraphPhase) (stage : Stage) where
  abbrev pub stop_with : ReasonCode → Asking → Answer A × Asking
  stop_with code a = (stopped code, note_stop env phase stage code a)

  -- The answer to the repair.
  unfoldable pub after_repair : Asked A × Asking → Answer A × Asking
  after_repair (parsed x, a) = (answered x, a)
  after_repair (invalid errors, a) =
      stop_with model_output_invalid (note_invalid env phase stage errors a)
  after_repair (refused r, a) = (refused_request r, a)
  after_repair (crashed, a) = (crashed_request, a)

  -- The answer to the first request.
  unfoldable pub after_first :
      (Option String → Asking → Asked A × Asking) → Asked A × Asking → Answer A × Asking
  after_first ask_once (parsed x, a) = (answered x, a)
  after_first ask_once (invalid errors, a) =
      let a' = note_invalid env phase stage errors a in
      if may_repair env.budgets a'
      then after_repair (ask_once (some errors) (record a' { repairs_used = a'.repairs_used + 1 }))
      else stop_with repair_exhausted a'
  after_first ask_once (refused r, a) = (refused_request r, a)
  after_first ask_once (crashed, a) = (crashed_request, a)

  unfoldable pub ask_with_repair :
      ℕ → ℕ → (Option String → Asking → Asked A × Asking) → Asking → Answer A × Asking
  ask_with_repair now started_at ask_once a =
      if expired started_at env.budgets now
      then stop_with wall_clock_expired a
      else if leb (model_calls_left a.model_calls_used a.repairs_used env.budgets) 0
      then stop_with model_call_budget_exhausted a
      else after_first ask_once (ask_once none a)
