-- ===== src/Graph/Machine.antt =====
-- The routers of src/causalops/graph.py and the wiring of `build_graph`, as a machine that visits one
-- node at a time. LangGraph runs the node, merges its update into the state and follows the edge;
-- `run` takes fuel for the visits, and Machine/Termination proves how much is enough.
pub mod Termination
pub mod Budgeted
pub mod Invariant
pub mod Runs
pub mod Reports
pub mod Scored
use causal_ops.Prelude.{
  ℕ, zero, suc, Bool, true, false, not, Option, none, some, List, ◌&&◌, ltb, leb, is_some, length,
  if◌then◌else◌,
}
use causal_ops.Domain.Codes.{EscalationReason, ReasonCode}
use causal_ops.Domain.Receipts.{ToolReceipt, ToolProposal, Budgets}
use causal_ops.Domain.Model.{FinalAssessment, check_assessment}
use causal_ops.Dispatch.{Minted}
use causal_ops.Graph.State.{
  Env, GraphState, rebuild_receipts, tools_left, model_calls_left, expired,
}
use causal_ops.Graph.Investigate.{investigate}
use causal_ops.Graph.DispatchTool.{dispatch_tool, normalize_evidence}
use causal_ops.Graph.FinalAssessment.{final_assessment}
use causal_ops.Graph.Escalation.{
  Pause, ResumeValue, escalation_reason, escalation_interrupt, Interrupted, fault, paused, resumed,
}
use causal_ops.Graph.Report.{final_report}

pub data Node : Type 0 where
  at_investigate at_dispatch_tool at_normalize_evidence at_final_assessment : Node
  at_escalation_interrupt at_final_report at_end : Node

unfoldable pub route_after_investigate : GraphState → Node
route_after_investigate st =
    if is_some st.pending_proposal
    then at_dispatch_tool
    else if is_some st.failure_reason
    then at_final_report
    else at_final_assessment

-- Whether another turn of `investigate` may follow.
unfoldable pub may_continue : GraphState → Budgets → ℕ → ℕ → Bool
may_continue st budgets tools now =
    ltb 0 tools
    && leb 2 (model_calls_left st.model_calls_used st.repairs_used budgets)
    && not (expired st.started_at budgets now)
    && ltb st.model_turn budgets.model_calls

-- `none` is an exception of the router: a corrupted checkpoint.
unfoldable pub route_after_normalize : GraphState → Budgets → ℕ → Option Node
route_after_normalize st budgets now =
    if is_some st.failure_reason then some at_final_report else elim (rebuild_receipts st) [
      | none ↦ none
      | some receipts ↦ elim (tools_left receipts budgets) [
        | none ↦ none
        | some tools ↦
            some (if may_continue st budgets tools now then at_investigate else at_final_assessment)
      ]
    ]

abbrev pub node_for : Option EscalationReason → Node
node_for none = at_final_report
node_for (some _) = at_escalation_interrupt

abbrev pub route_on : Option (Option EscalationReason) → Option Node
route_on none = none
route_on (some trigger) = some (node_for trigger)

-- `FinalAssessment.model_validate(state["assessment"])`, then the trigger.
abbrev pub route_assessed :
    GraphState → Budgets → List ToolReceipt → Option FinalAssessment → Option Node
route_assessed st budgets receipts none = none
route_assessed st budgets receipts (some x) =
    if check_assessment x
    then route_on (escalation_reason receipts x budgets (length st.runbook_passages))
    else none

unfoldable pub route_after_final_assessment : GraphState → Budgets → Bool → Option Node
route_after_final_assessment st budgets suppress_escalation =
    if is_some st.failure_reason
    then some at_final_report
    else if suppress_escalation
    then some at_final_report
    else elim (rebuild_receipts st) [
      | none ↦ none
      | some receipts ↦ route_assessed st budgets receipts st.assessment
    ]

-- What the clock and `uuid4` give during one visit: the node's reading and the router's.
pub record Visit : Type 0 where
  pub now : ℕ
  pub route_now : ℕ
  pub minted : Minted

-- One visit: an exception, a pause for the owner, or the next node with its state.
pub data Moved : Type 0 where
  raised_in : Moved
  waiting : Pause → Moved
  to : Node → GraphState → Moved

abbrev pub by_route : Option Node → GraphState → Moved
by_route none st = raised_in
by_route (some node) st = to node st

abbrev pub always : Node → Option GraphState → Moved
always node none = raised_in
always node (some st) = to node st

abbrev pub after_investigate : Option GraphState → Moved
after_investigate none = raised_in
after_investigate (some st) = to (route_after_investigate st) st

abbrev pub after_assessment : Env → Option GraphState → Moved
after_assessment env none = raised_in
after_assessment env (some st) =
    by_route (route_after_final_assessment st env.budgets env.suppress_escalation) st

abbrev pub after_interrupt : Interrupted → Moved
after_interrupt fault = raised_in
after_interrupt (paused pause) = waiting pause
after_interrupt (resumed st) = to at_final_report st

unfoldable pub visit : Env → List ResumeValue → Visit → Node → GraphState → Moved
visit env values v at_investigate st = after_investigate (investigate env st v.now)
visit env values v at_dispatch_tool st =
    always at_normalize_evidence (dispatch_tool env st v.minted)
visit env values v at_normalize_evidence st =
    let st' = normalize_evidence env st in
    by_route (route_after_normalize st' env.budgets v.route_now) st'
visit env values v at_final_assessment st = after_assessment env (final_assessment env st v.now)
visit env values v at_escalation_interrupt st = after_interrupt (escalation_interrupt env st values)
visit env values v at_final_report st = always at_end (final_report env st v.now)
visit env values v at_end st = to at_end st

-- `START`
unfoldable pub entry : Env → Node
entry env = if env.no_tool_baseline then at_final_assessment else at_investigate

-- How a run ends: an exception at a node, with the state last committed; a pause; a final state; or
-- no fuel left.
pub data Ended : Type 0 where
  failed : Node → GraphState → Ended
  awaiting : Pause → GraphState → Ended
  done : GraphState → Ended
  out_of_fuel : Ended

-- The visits of one invocation: `visits n` is what the clocks give when `n` visits are left.
module _ (env : Env) (values : List ResumeValue) (visits : ℕ → Visit) where
  abbrev pub follow : (Node → GraphState → Ended) → Node → GraphState → Moved → Ended
  follow again node st raised_in = failed node st
  follow again node st (waiting pause) = awaiting pause st
  follow again node st (to at_end st') = done st'
  follow again node st (to next st') = again next st'

  unfoldable pub run : ℕ → Node → GraphState → Ended
  run zero node st = out_of_fuel
  run (suc fuel) node st = follow (run fuel) node st (visit env values (visits fuel) node st)
