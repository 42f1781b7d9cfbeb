-- ===== src/Graph/Asking/Counts.antt =====
-- How the counters move while one stage is asked, and what the budgets bound.
use causal_ops.Prelude.{
  ℕ, ◌+◌, ◌≤◌, ◌<◌, String, ◌≡◌, Option, none, some, arith, leb, Bool-cases, inl, inr, ◌-◌,
}
use causal_ops.Domain.Receipts.{Budgets}
use causal_ops.Domain.Codes.{GraphPhase}
use causal_ops.Graph.State.{Env, Stage, model_calls_left, expired}
use causal_ops.Graph.Asking.{
  Asking, Asked, parsed, invalid, refused, crashed, ask_with_repair, after_first, after_repair,
  note_invalid, note_stop, may_repair,
}

-- Repairs stay within their own pool, and what the calls exceed the repairs by within theirs.
pub record IsCounted (budgets : Budgets) (calls repairs : ℕ) : Type 0 where
  pub repairs_fit : repairs ≤ budgets.repairs
  pub calls_fit : calls ≤ budgets.model_calls + repairs

-- An `ask_once` makes at most one call, and leaves the repairs alone.
pub record CallsOnce {A : Type 0} (ask_once : Option String → Asking → Asked A × Asking)
    : Type 0 where
  pub at_most_one :
      (errors : Option String) (a : Asking)
      → (ask_once errors a).1.model_calls_used ≤ a.model_calls_used + 1
  pub never_fewer :
      (errors : Option String) (a : Asking)
      → a.model_calls_used ≤ (ask_once errors a).1.model_calls_used
  pub same_repairs :
      (errors : Option String) (a : Asking) → (ask_once errors a).1.repairs_used ≡ a.repairs_used

module _ {A : Type 0} (env : Env) (phase : GraphPhase) (stage : Stage) where
  repaired_counts :
      (r : Asked A × Asking)
      → ((after_repair env phase stage r).1.model_calls_used ≡ r.1.model_calls_used)
        × ((after_repair env phase stage r).1.repairs_used ≡ r.1.repairs_used)
  unfolding after_repair note_invalid note_stop
  repaired_counts r = ground arith

  module _ (ask_once : Option String → Asking → Asked A × Asking) (once : CallsOnce ask_once) where
    first-IsCounted :
        (calls repairs : ℕ) (r : Asked A × Asking)
        → IsCounted env.budgets calls repairs
        → calls < env.budgets.model_calls + repairs
        → r.1.repairs_used ≡ repairs
        → calls ≤ r.1.model_calls_used
        → r.1.model_calls_used ≤ calls + 1
        → IsCounted env.budgets
            (after_first env phase stage ask_once r).1.model_calls_used
            (after_first env phase stage ask_once r).1.repairs_used
    unfolding after_first note_invalid note_stop may_repair
    first-IsCounted calls repairs (parsed x, a) c room same lo hi = ground arith
    first-IsCounted calls repairs (refused x, a) c room same lo hi = ground arith
    first-IsCounted calls repairs (crashed, a) c room same lo hi = ground arith
    first-IsCounted calls repairs (invalid errors, a) c room same lo hi =
        let a' = note_invalid env phase stage errors a in
        let again : Asking = record a' { repairs_used = a'.repairs_used + 1 } in
        ground (
          arith,
          repaired_counts (ask_once (some errors) again),
          once.at_most_one (some errors) again,
          once.same_repairs (some errors) again,
        )

    -- Asking a stage, with its repair, keeps both counts within their budgets on every path, where they
    -- are so before and each `ask_once` makes at most one call and leaves the repairs alone.
    pub ask_with_repair-IsCounted :
        (now started_at : ℕ) (a : Asking)
        → IsCounted env.budgets a.model_calls_used a.repairs_used
        → IsCounted env.budgets
            (ask_with_repair env phase stage now started_at ask_once a).1.model_calls_used
            (ask_with_repair env phase stage now started_at ask_once a).1.repairs_used
    unfolding ask_with_repair note_stop model_calls_left
    ask_with_repair-IsCounted now started_at a c =
        elim (Bool-cases (expired started_at env.budgets now)) [
          | inl late ↦ rw late c
          | inr fresh ↦
              elim (Bool-cases
                (leb (env.budgets.model_calls + a.repairs_used - a.model_calls_used) 0)) [
                  | inl spent ↦ rw (fresh, spent) c
                  | inr left ↦
                      rw (fresh, left)
                        (first-IsCounted a.model_calls_used a.repairs_used (ask_once none a) c
                          (ground arith) (once.same_repairs none a) (once.never_fewer none a)
                          (once.at_most_one none a))
                ]
        ]
