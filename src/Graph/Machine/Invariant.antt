-- ===== src/Graph/Machine/Invariant.antt =====
-- What every node keeps, a run keeps: the induction on the visits of src/causalops/graph.py.
use causal_ops.Prelude.{ℕ, zero, suc, List}
use causal_ops.Graph.State.{Env, GraphState}
use causal_ops.Graph.Escalation.{ResumeValue}
use causal_ops.Graph.Machine.{
  Node, at_investigate, at_dispatch_tool, at_normalize_evidence, at_final_assessment,
  at_escalation_interrupt, at_final_report, at_end, Visit, Moved, raised_in, waiting, to, visit,
  Ended, failed, awaiting, done, out_of_fuel, follow, run,
}

module _ (P : Node → GraphState → Type 0) where
  -- `P` holds where a visit goes next.
  abbrev pub MovesIn : Moved → Type 0
  MovesIn raised_in = Unit
  MovesIn (waiting _) = Unit
  MovesIn (to node st) = P node st

  -- `P` holds of the state in which a run ends, at the node where it ends.
  abbrev pub EndsIn : Ended → Type 0
  EndsIn (failed node st) = P node st
  EndsIn (awaiting reason st) = (node : Node) × P node st
  EndsIn (done st) = P at_end st
  EndsIn out_of_fuel = Unit

  module _ (env : Env) (values : List ResumeValue) (visits : ℕ → Visit) where
    follow_keeps :
        (again : Node → GraphState → Ended) (node : Node) (st : GraphState) (m : Moved)
        → ((node' : Node) (st' : GraphState) → P node' st' → EndsIn (again node' st'))
        → P node st
        → MovesIn m
        → EndsIn (follow env values visits again node st m)
    follow_keeps again node st raised_in rest p q = p
    follow_keeps again node st (waiting reason) rest p q = (node, p)
    follow_keeps again node st (to at_end st') rest p q = q
    follow_keeps again node st (to at_investigate st') rest p q = rest at_investigate st' q
    follow_keeps again node st (to at_dispatch_tool st') rest p q = rest at_dispatch_tool st' q
    follow_keeps again node st (to at_normalize_evidence st') rest p q =
        rest at_normalize_evidence st' q
    follow_keeps again node st (to at_final_assessment st') rest p q =
        rest at_final_assessment st' q
    follow_keeps again node st (to at_escalation_interrupt st') rest p q =
        rest at_escalation_interrupt st' q
    follow_keeps again node st (to at_final_report st') rest p q = rest at_final_report st' q

    pub run_keeps :
        ((v : Visit) (node : Node) (st : GraphState)
          → P node st
          → MovesIn (visit env values v node st))
        → (fuel : ℕ) (node : Node) (st : GraphState) → P node st
        → EndsIn (run env values visits fuel node st)
    unfolding run
    run_keeps keeps zero node st p = tt
    run_keeps keeps (suc fuel) node st p =
        follow_keeps (run env values visits fuel) node st _ (run_keeps keeps fuel) p
          (keeps (visits fuel) node st p)
