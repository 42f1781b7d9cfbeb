-- ===== src/ControlPlane/Requests/Liveness.antt =====
-- A crashed worker blocks the queue no longer than its lease.
use causal_ops.Prelude.{
  ℕ, ◌+◌, ◌≤◌, String, ◌≡◌, refl, ◌∙◌, Bool, true, false, Option, none, some, is_some, List, [],
  ◌∷◌, arith, Bool-cases, inl, inr, leb, ok, count_if, any, keep_if, length,
}
use causal_ops.Approvals.{OwnerDecision}
use causal_ops.ControlPlane.Documents.{fetch, store}
use causal_ops.ControlPlane.Documents.Sorting.{All, keep_if-All}
use causal_ops.ControlPlane.Documents.Laws.{keep_if-Stored, fetch-store_self, count_if-store_old}
use causal_ops.ControlPlane.{
  Job, Plane, Config, Platform, validate_positive, job_ref, decision_ref, event, is_running,
  is_expired, is_unexpired,
}
use causal_ops.ControlPlane.Claims.{
  reclaim, reclaim_each, reclaim_expired_investigations, is_queued, is_due, holds_scenario,
  goes_before, candidates, read_decision, claimed, claim_of, claim_row, claim_first, claim_queued,
  claim_next,
}
use causal_ops.ControlPlane.Requests.Candidates.{candidates_first, candidates-some}
use causal_ops.ControlPlane.Diagram.Invariant.{Follows-IsWellFormed}
use causal_ops.ControlPlane.Diagram.Claims.{
  candidates-queued, reclaim_expired_investigations-Follows,
}
use causal_ops.ControlPlane.Diagram.WellFormed.{IsWellFormed}

count_if-keep_if : (p : Job → Bool) (js : List Job) → count_if p js ≡ length (keep_if p js)
count_if-keep_if p [] = refl
count_if-keep_if p (j ∷ js) = ground (arith, count_if-keep_if p js)

none_any : (js : List Job) → count_if is_running js ≡ 0 → any is_running js ≡ false
none_any [] h = refl
none_any (j ∷ js) h = ground (arith, none_any js)

unexpired-expired :
    (expires_at : Option ℕ) (now : ℕ)
    → is_some expires_at ≡ true
    → is_unexpired expires_at now ≡ false
    → is_expired expires_at now ≡ true
unfolding is_unexpired is_expired
unexpired-expired none now h k = absurd (ground arith)
unexpired-expired (some t) now h k = ground arith

stopped :
    (j j' : Job) (js : List Job)
    → fetch (λ k. k.id) j'.id js ≡ some j
    → is_running j ≡ true
    → is_running j' ≡ false
    → count_if is_running (store (λ k. k.id) j' js) + 1 ≡ count_if is_running js
stopped j j' js found on off =
    ground (arith, count_if-store_old (λ k. k.id) is_running j' j js found)

reclaim-stops :
    (c : Config) (now : ℕ) (j : Job) (p : Plane)
    → job_ref j.id p ≡ some j
    → is_running j ≡ true
    → is_expired j.claim_expires_at now ≡ true
    → count_if is_running (reclaim c now j p).jobs + 1 ≡ count_if is_running p.jobs
unfolding reclaim event is_running
reclaim-stops c now j p found on over =
    elim (Bool-cases (leb c.max_replay_attempts (j.attempt_count + 1))) [
      | inl last ↦ rw (over, last) (stopped j _ p.jobs found on refl)
      | inr again ↦ rw (over, again) (stopped j _ p.jobs found on refl)
    ]

-- No lease is left that has not run out.
abbrev pub AllExpired : ℕ → Plane → Type 0
AllExpired now p =
    (id : String) (j : Job)
    → job_ref id p ≡ some j
    → is_running j ≡ true
    → is_unexpired j.claim_expires_at now ≡ false

reclaim_each-idle :
    (c : Config) (now : ℕ) (js : List Job) (p : Plane)
    → count_if is_running p.jobs ≡ length js
    → length js ≤ 1
    → All (λ j. job_ref j.id p ≡ some j) js
    → All (λ j. is_running j ≡ true) js
    → All (λ j. is_expired j.claim_expires_at now ≡ true) js
    → any is_running (reclaim_each c now js p).jobs ≡ false
unfolding reclaim_each
reclaim_each-idle c now [] p n h s r x = none_any p.jobs n
reclaim_each-idle c now (j ∷ []) p n h (found, _) (on, _) (over, _) =
    none_any (reclaim c now j p).jobs (omega (arith, reclaim-stops c now j p found on over))
reclaim_each-idle c now (j ∷ k ∷ js) p n h s r x = absurd (omega arith)

expired-All :
    (c : Config) (w : Platform) (now : ℕ) (p : Plane)
    → IsWellFormed c w p
    → AllExpired now p
    → (js : List Job) → All (λ j. job_ref j.id p ≡ some j) js
    → All (λ j. is_running j ≡ true) js
    → All (λ j. is_expired j.claim_expires_at now ≡ true) js
expired-All c w now p v x [] s r = tt
expired-All c w now p v x (j ∷ js) (found, s) (on, r) = (
  unexpired-expired j.claim_expires_at now ((v.jobs_sound j.id j found).leased ∙ on)
      (x j.id j found on),
  expired-All c w now p v x js s r,
)

reclaim_expired_investigations-idle :
    (c : Config) (w : Platform) (now : ℕ) (p : Plane)
    → IsWellFormed c w p
    → AllExpired now p
    → any is_running (reclaim_expired_investigations c now p).jobs ≡ false
unfolding reclaim_expired_investigations
reclaim_expired_investigations-idle c w now p v x =
    let js = keep_if is_running p.jobs in
    let stored = keep_if-Stored (λ k. k.id) is_running p.jobs v.jobs_distinct in
    let on = keep_if-All is_running p.jobs in
    reclaim_each-idle c now js p (count_if-keep_if is_running p.jobs)
      (omega (arith, count_if-keep_if is_running p.jobs, v.one_running)) stored on
      (expired-All c w now p v x js stored on)

-- The decision that each waiting job would take along is one that its claim accepts.
abbrev pub DecisionsFit : Plane → Type 0
DecisionsFit p =
    (k : Job)
    → job_ref k.id p ≡ some k
    → is_queued k ≡ true
    → (o : Option OwnerDecision) × (read_decision k (decision_ref k.id p) ≡ ok o)

claim_row-claims :
    (c : Config) (token : String) (now : ℕ) (k : Job) (o : Option OwnerDecision) (p : Plane)
    → read_decision k (decision_ref k.id p) ≡ ok o
    → ((claim_row c token now k p).0 ≡ ok (some (claim_of k token o)))
      × (job_ref k.id (claim_row c token now k p).1 ≡ some (claimed c token now k))
unfolding claim_row event
claim_row-claims c token now k o p e = (
  rw (e, claim_row) refl,
  rw (e, claim_row) (fetch-store_self (λ x. x.id) (claimed c token now k) p.jobs),
)

module _ (c : Config) (token : String) (now : ℕ) (j : Job) where
  first_claims :
      (ks : List Job) (q : Plane)
      → All (λ k. (job_ref k.id q ≡ some k) × (is_queued k ≡ true)) ks
      → ¬ (ks ≡ [])
      → DecisionsFit q
      → ((k : Job) (rest : List Job) → ks ≡ k ∷ rest → goes_before k j ≡ true)
      → (k : Job) × (o : Option OwnerDecision) × ((claim_first c token now ks q).0
          ≡ ok (some (claim_of k token o)))
        × (job_ref k.id (claim_first c token now ks q).1 ≡ some (claimed c token now k))
        × (goes_before k j ≡ true)
  unfolding claim_first
  first_claims [] q h n fit first = absurd (n refl)
  first_claims (k ∷ ks) q ((stored, waits), h) n fit first =
      let (o, e) = fit k stored waits in
      let (answered, runs) = claim_row-claims c token now k o q e in
      (k, o, answered, runs, first k ks refl)

-- When every lease of a well-formed plane has run out, and of the jobs that then wait in the queue one is
-- due, none waits with a scenario of its own, and each fits the decision stored for it, `claim_next`
-- claims a job for its caller: it runs from then on with the caller's token and a full lease, and it is
-- that due job or goes before it.
pub claim_next_claims :
    (c : Config) (w : Platform) (token : String) (now : ℕ) (p : Plane) (id : String) (j : Job)
    → validate_positive c ≡ true
    → IsWellFormed c w p
    → AllExpired now p
    → any (holds_scenario now) (keep_if is_queued (reclaim_expired_investigations c now p).jobs)
      ≡ false
    → job_ref id (reclaim_expired_investigations c now p) ≡ some j
    → is_queued j ≡ true
    → is_due now j ≡ true
    → DecisionsFit (reclaim_expired_investigations c now p)
    → (k : Job) × (o : Option OwnerDecision) × ((claim_next c token now p).0
        ≡ ok (some (claim_of k token o)))
      × (job_ref k.id (claim_next c token now p).1 ≡ some (claimed c token now k))
      × (goes_before k j ≡ true)
unfolding claim_next claim_queued
claim_next_claims c w token now p id j good v x clear found waiting due fit =
    let q = reclaim_expired_investigations c now p in
    let v' : IsWellFormed c w q =
      Follows-IsWellFormed c w good
        (reclaim_expired_investigations-Follows c w now p v.jobs_distinct) v in
    let idle = reclaim_expired_investigations-idle c w now p v x in
    rw (idle, clear)
      (first_claims c token now j (candidates now q) q (candidates-queued now q v'.jobs_distinct)
        (candidates-some now q id j found waiting due) fit
        (λ k ks e. candidates_first now q k ks e id j found waiting due))
