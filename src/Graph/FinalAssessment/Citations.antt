-- ===== src/Graph/FinalAssessment/Citations.antt =====
-- What the `final_assessment` node accepts.
use causal_ops.Prelude.{
  ℕ, ◌≡◌, refl, String, true, Option, none, some, List, [], ◌∷◌, Bool-cases, inl, inr, Result, ok,
  raised, leb,
}
use causal_ops.Domain.Codes.{GraphPhase, ReasonCode}
use causal_ops.Domain.Receipts.{ToolReceipt}
use causal_ops.Domain.Model.{FinalAssessment, check_assessment}
use causal_ops.EvidenceStore.{Store, unknown_ids}
use causal_ops.Graph.State.{
  Env, GraphState, Sent, refused_to_send, crashed_in_call, replied, ModelRequest, ModelResponse,
  rebuild_store, Stage, expired, model_calls_left,
}
use causal_ops.Graph.Asking.{
  Asking, Asked, parsed, invalid, refused, crashed, Answer, answered, stopped, refused_request,
  crashed_request, after_repair, after_first, ask_with_repair, note_invalid, may_repair,
}
use causal_ops.Graph.FinalAssessment.{
  cited, read_content, read_sent, respond_with, ask_once, check_citations, conclude,
  final_assessment, failed_state,
}
use causal_ops.Graph.Inversion.{final_assessment-some}

module _ {A : Type 0} (Q : A → Type 0) where
  -- `Q` holds of what is parsed.
  abbrev pub ParsedIn : Asked A × Asking → Type 0
  ParsedIn (parsed x, a) = Q x
  ParsedIn _ = Unit

  -- `Q` holds of the answer.
  abbrev pub AnsweredIn : Answer A × Asking → Type 0
  AnsweredIn (answered x, a) = Q x
  AnsweredIn _ = Unit

  module _ (env : Env) (phase : GraphPhase) (stage : Stage) where
    repair_answers :
        (r : Asked A × Asking) → ParsedIn r → AnsweredIn (after_repair env phase stage r)
    unfolding after_repair
    repair_answers (parsed x, a) q = q
    repair_answers (invalid errors, a) q = tt
    repair_answers (refused r, a) q = tt
    repair_answers (crashed, a) q = tt

    module _ (ask_once : Option String → Asking → Asked A × Asking)
        (good : (errors : Option String) (a : Asking) → ParsedIn (ask_once errors a)) where
      first_answers :
          (r : Asked A × Asking) → ParsedIn r → AnsweredIn (after_first env phase stage ask_once r)
      unfolding after_first
      first_answers (parsed x, a) q = q
      first_answers (refused r, a) q = tt
      first_answers (crashed, a) q = tt
      first_answers (invalid errors, a) q =
          elim (Bool-cases (may_repair env.budgets (note_invalid env phase stage errors a))) [
            | inl again ↦ rw again (repair_answers _ (good _ _))
            | inr stop ↦ rw stop tt
          ]

      pub ask_with_repair-answers :
          (now started_at : ℕ) (a : Asking)
          → AnsweredIn (ask_with_repair env phase stage now started_at ask_once a)
      unfolding ask_with_repair
      ask_with_repair-answers now started_at a =
          elim (Bool-cases (expired started_at env.budgets now)) [
            | inl late ↦ rw late tt
            | inr fresh ↦
                elim (Bool-cases
                  (leb (model_calls_left a.model_calls_used a.repairs_used env.budgets) 0)) [
                    | inl spent ↦ rw (fresh, spent) tt
                    | inr left ↦ rw (fresh, left) (first_answers _ (good _ _))
                  ]
          ]

-- The validators of the assessment pass.
abbrev IsChecked : FinalAssessment → Type 0
IsChecked x = check_assessment x ≡ true

module _ (env : Env) (st : GraphState) where
  content-IsChecked :
      (content : Result String FinalAssessment) (a : Asking)
      → ParsedIn IsChecked (read_content env st content a)
  unfolding read_content
  content-IsChecked (raised errors) a = tt
  content-IsChecked (ok x) a = elim (Bool-cases (check_assessment x)) [
    | inl valid ↦ rw valid valid
    | inr bad ↦ rw bad tt
  ]

  sent-IsChecked :
      (response : Sent ModelResponse) (a : Asking)
      → ParsedIn IsChecked (read_sent env st response a)
  unfolding read_sent
  sent-IsChecked (refused_to_send r) a = tt
  sent-IsChecked crashed_in_call a = tt
  sent-IsChecked (replied response) a = content-IsChecked response.content _

  response-IsChecked :
      (request : Option ModelRequest) (a : Asking)
      → ParsedIn IsChecked (respond_with env st request a)
  response-IsChecked none a = tt
  response-IsChecked (some request) a = sent-IsChecked _ _

  ask-IsChecked :
      (receipts : List ToolReceipt) (store : Store) (errors : Option String) (a : Asking)
      → ParsedIn IsChecked (ask_once env st receipts store errors a)
  unfolding ask_once
  ask-IsChecked receipts store errors a = response-IsChecked _ a

  -- What the node leaves: a failure without an assessment, or a valid assessment of known evidence.
  pub data Assessed (store : Store) (st' : GraphState) : Type 0 where
    failed_with :
        (code : ReasonCode)
        → st'.failure_reason ≡ some code
        → st'.assessment ≡ none
        → Assessed store st'
    accepted :
        (x : FinalAssessment)
        → st'.failure_reason ≡ none
        → st'.assessment ≡ some x
        → check_assessment x ≡ true
        → unknown_ids (cited x) store ≡ []
        → Assessed store st'

  citations-Assessed :
      (store : Store) (x : FinalAssessment) (unknown : List String) (a : Asking)
      → unknown_ids (cited x) store ≡ unknown
      → IsChecked x
      → Assessed store (check_citations env st x unknown a)
  unfolding failed_state
  citations-Assessed store x [] a known valid = accepted x refl refl valid known
  citations-Assessed store x (_ ∷ _) a forged valid = failed_with _ refl refl

  answer-Assessed :
      (store : Store) (r : Answer FinalAssessment × Asking)
      → AnsweredIn IsChecked r
      → Assessed store (conclude env st store r)
  unfolding conclude failed_state
  answer-Assessed store (answered x, a) valid = citations-Assessed store x _ a refl valid
  answer-Assessed store (stopped code, a) valid = failed_with _ refl refl
  answer-Assessed store (refused_request r, a) valid = failed_with _ refl refl
  answer-Assessed store (crashed_request, a) valid = failed_with _ refl refl

  -- When the final assessment node returns, it has done one of two things: it fails with a reason and leaves no
  -- assessment, or it leaves one that passes the validators and cites only evidence that the store of
  -- this run holds, and no failure.
  pub assessment_is_checked :
      (now : ℕ) (st' : GraphState)
      → final_assessment env st now ≡ some st'
      → (store : Store) × (rebuild_store st ≡ some store) × Assessed store st'
  assessment_is_checked now st' h =
      let (receipts, store, _, e, same) = final_assessment-some env st st' now h in
      (
        store,
        e,
        rw same (
            answer-Assessed store _
              (ask_with_repair-answers IsChecked env _ _ _ (ask-IsChecked receipts store) now _ _)),
      )
