-- ===== src/Lib.antt =====
-- CausalOps investigates an incident: a language model proposes read-only checks, a deterministic
-- policy decides, a ledger counts, backends run, and the run ends in a report that an owner may have to
-- release. This library models the core of src/causalops, the package of that program.
--
-- The parts and their files:
--   Prelude, Text              Python's tests, sequence built-ins and `str.strip`, results
--   Tools                      tools.py: the five tools and their arguments
--   Domain                     domain.py: vocabularies, records, and their validators as tests
--   Policy                     policy.py: `authorize`; Policy/Permitted describes what it lets through
--   Ledger                     tool_wrappers.py: class ReservationLedger (`record` is `record_denial`)
--   Dispatch                   tool_wrappers.py: `resolve_effective_window`, the wrappers' `dispatch`
--   EvidenceStore              evidence.py: class EvidenceStore and the quotas of the context
--   Graph/State                graph.py: GraphState and the reads of it; run_records.py, models.py: the
--                              events, requests and replies
--   Graph/Asking               graph.py: _StageCounters, _render_stage_request, _ask_with_repair
--   Graph/Investigate, Graph/DispatchTool, Graph/FinalAssessment, Graph/Escalation, Graph/Report
--                              graph.py: one node each (DispatchTool has normalize_evidence as well)
--   Graph/Machine              graph.py: the routers and `build_graph`
--   Approvals                  approvals.py: class OwnerDecision, Approvals/Notes on its notes,
--                              Approvals/Store the command line's table of decisions
--   CostLedger                 cost_ledger.py: the ledger of requests, and live_model.py: `_send`
--   ControlPlane               firestore_control_plane.py: class FirestoreReplayControlPlane with the types
--                              of api.py; ControlPlane/Documents the collections, /Owner what owners ask,
--                              /Claims and /Worker the workers' side, /Deliveries the outbox
--   ControlPlane/Diagram       the life of its documents as a diagram, which every operation follows
--   ControlPlane/Requests      runs of requests and what they never break
--   Tests                      the theorems at concrete inputs, and runs of the code
--
-- How they interact: `investigate` asks the model through Graph/Asking and leaves a proposal in the
-- state; `dispatch_tool` rebuilds the ledger from the state's receipts and calls `dispatch`, which
-- resolves the window, asks the policy, reserves a slot, runs the backend and settles the receipt;
-- `final_assessment` asks again and checks the citations against the evidence store; the routers choose
-- the next node, and `final_report` builds the report.
--
-- The HTTP service keeps its jobs in the control plane: `create` queues a job, `claim_next` leases it to a
-- worker, which runs the graph and pauses, retries or finalizes the job under its token; the owner's
-- `decide` puts a paused job back; `finalize` puts the report into the outbox, which senders lease alike.
--
-- How the code is represented. A node is a function from the state to the state that LangGraph commits,
-- or to `none` (`fault`) where an exception leaves the node. Receipts and evidence are kept as values,
-- where the code keeps their JSON; what pydantic checks when it reads them back (bounds of texts and
-- arguments, validators) is a Boolean test, and `rebuild_sources` reads evidence and passages. A
-- dict is the list of its values in insertion order. An instant is a number of microseconds. A number
-- that the code compares with 0 only is cut off at 0. A message is kept as the text and the numbers it
-- quotes.
--
-- Parameters: the model, the backends, the hashes (`fingerprint`, `content_hash`, `digest`), the texts
-- of validation errors, the clocks, `uuid4` (a `Minted`, one for each visit of `dispatch_tool`), the
-- float arithmetic of `latency_ms`, and the values that the owner resumes with. Of the control plane: the
-- clock, `uuid4` (a new id or token is an argument; theorems on runs assume that no id comes twice),
-- SHA-256, `str.isalnum`, pathlib's comparison of two paths, and the text of a report's file. Of the money
-- gate: the estimates of tokens, the two prices, and the provider's reply.
--
-- In the control plane a status is the text that the document holds, so that a text that the code never
-- writes is covered. A time is a whole number of seconds, where the code has floats. A query streams the
-- documents in the order of the model's list. What a document may hold beyond its type (a number in place
-- of a text) is left out.
--
-- Fuel: `run` takes one unit for each visit of a node; 6 + 3 * model_calls units are enough from any
-- node and state, since each turn of investigate, dispatch_tool and normalize_evidence raises
-- `model_turn`, which the router bounds by the budget.
--
-- Not modelled: the settling, recovery and resumption of an invocation around the graph, the
-- pricing, the SQLite control plane, `trim_to_bytes`, the rendering of
-- prompts, the parsing of tool calls, the adapters of providers, telemetry, retrieval, the command line,
-- the web layer of the service and the evaluation: some are not reached by what is modelled, the others are input and output.
pub mod Prelude
pub mod Text
pub mod Tools
pub mod Domain
pub mod Policy
pub mod Ledger
pub mod Approvals
pub mod ControlPlane
pub mod CostLedger
pub mod Dispatch
pub mod EvidenceStore
pub mod Graph
pub mod Tests
