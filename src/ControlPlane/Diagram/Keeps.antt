-- ===== src/ControlPlane/Diagram/Keeps.antt =====
-- Every write of the diagram keeps what holds of the documents.
use causal_ops.Prelude.{
  ℕ, ◌+◌, ◌≤◌, ◌<◌, String, ◌≡◌, refl, sym, ap, true, false, none, some, is_none, ◌==◌, arith,
  eq_iff, eq_refl, Option-cases, inl, inr, ok,
}
use causal_ops.Text.{is_blank, is_empty_text}
use causal_ops.ControlPlane.{Job, Config, Platform, is_running, investigation_status}
use causal_ops.ControlPlane.Owner.{is_unset, snapshot}
use causal_ops.ControlPlane.Claims.{is_queued, claimed, failed, deferred}
use causal_ops.ControlPlane.Worker.{requeued}
use causal_ops.ControlPlane.Diagram.{
  Move, renews, reserves, pauses, requeues, defers, fails, resumes, finalizes,
}
use causal_ops.ControlPlane.Diagram.WellFormed.{IsSound}

-- A text that is `s` is compared as `s` is.
pub same_text : (a s t : String) → (a == s) ≡ true → (a == t) ≡ (s == t)
same_text a s t h = ap (λ x. x == t) ((eq_iff a s).0 h)

not_blank : (s : String) → is_blank s ≡ false → is_empty_text s ≡ false
unfolding is_blank
not_blank String.[] h = h
not_blank (String.◌∷◌ c s) h = refl

pub finalized_snapshot :
    (w : Platform) (id artifact content : String)
    → is_blank artifact ≡ false
    → w.is_own_report id artifact ≡ true
    → snapshot w id (some artifact) (some content) (some (w.sha256 content)) ≡ ok content
unfolding snapshot
finalized_snapshot w id artifact content h k =
    rw (not_blank artifact h, k) (rw (eq_refl (w.sha256 content)) refl)

module _ (c : Config) (w : Platform) where
  pub Move-id : {j j' : Job} → Move c w j j' → j'.id ≡ j.id
  Move-id (renews j now h) = refl
  Move-id (reserves j i h k) = refl
  Move-id (pauses j i h k) = refl
  Move-id (requeues j h) = refl
  Move-id (defers j t h k) = refl
  Move-id (fails j r h k) = refl
  Move-id (resumes j h) = refl
  Move-id (finalizes j a t h k l) = refl

  running_unfailed : (j : Job) → IsSound c w j → is_running j ≡ true → j.failure_reason ≡ none
  unfolding is_running
  running_unfailed j s h = elim (Option-cases j.failure_reason) [
    | inl unset ↦ unset
    | inr (reason, e) ↦
        absurd (ground (arith, s.failed_queued, same_text j.status "RUNNING" "QUEUED" h))
  ]

  -- A job back in the queue: only its attempts are in question.
  pub queued-IsSound :
      (j : Job)
      → j.status ≡ "QUEUED"
      → j.claim_token ≡ none
      → j.claim_expires_at ≡ none
      → j.attempt_count ≤ c.max_replay_attempts
      → (is_none j.failure_reason ≡ true → j.attempt_count < c.max_replay_attempts)
      → IsSound c w j
  unfolding is_running investigation_status
  queued-IsSound j e t x a l = record {
    attempts_capped = a;
    attempts_left = l;
    failed_queued = λ _. rw e refl;
    held = rw (e, t) refl;
    leased = rw (e, x) refl;
    known = rw e refl;
    pausable = λ h. absurd (ground (arith, ap (λ x. x == "PAUSED_APPROVAL") e));
    reported = λ h. absurd (ground (arith, ap (λ x. x == "COMPLETED") e));
  }

  pub Move-IsSound : {j j' : Job} → Move c w j j' → IsSound c w j → IsSound c w j'
  unfolding is_running is_unset investigation_status
  Move-IsSound (renews j now h) s = record {
    attempts_capped = s.attempts_capped;
    attempts_left = s.attempts_left;
    failed_queued = s.failed_queued;
    held = s.held;
    leased = sym h;
    known = s.known;
    pausable = s.pausable;
    reported = s.reported;
  }
  Move-IsSound (reserves j i h k) s = record {
    attempts_capped = s.attempts_capped;
    attempts_left = s.attempts_left;
    failed_queued = s.failed_queued;
    held = s.held;
    leased = s.leased;
    known = s.known;
    pausable = s.pausable;
    reported = s.reported;
  }
  Move-IsSound (pauses j i h k) s = record {
    attempts_capped = s.attempts_capped;
    attempts_left = s.attempts_left;
    failed_queued = λ f. absurd (ground (arith, running_unfailed j s h));
    held = refl;
    leased = refl;
    known = refl;
    pausable = λ _. not_blank i k;
    reported = λ f. absurd (ground arith);
  }
  Move-IsSound (requeues j h) s =
      queued-IsSound (requeued j) refl refl refl s.attempts_capped s.attempts_left
  Move-IsSound (defers j t h k) s =
      queued-IsSound (deferred (j.attempt_count + 1) t j) refl refl refl (omega arith) (λ _. k)
  Move-IsSound (fails j r h k) s =
      queued-IsSound (failed (j.attempt_count + 1) r j) refl refl refl
        (ground (arith, s.attempts_left, running_unfailed j s h)) (λ f. absurd (ground arith))
  Move-IsSound (resumes j h) s =
      let off : is_running j ≡ false = same_text j.status "PAUSED_APPROVAL" "RUNNING" h in
      queued-IsSound (record j { status = "QUEUED" }) refl (ground (arith, s.held, off))
        (ground (arith, s.leased, off)) s.attempts_capped s.attempts_left
  Move-IsSound (finalizes j a t h k l) s = record {
    attempts_capped = s.attempts_capped;
    attempts_left = s.attempts_left;
    failed_queued = λ f. absurd (ground (arith, running_unfailed j s h));
    held = refl;
    leased = refl;
    known = refl;
    pausable = λ f. absurd (ground arith);
    reported = λ _. (t, refl, finalized_snapshot w j.id a t k l);
  }

  pub claimed-IsSound :
      (j : Job) (token : String) (now : ℕ)
      → is_queued j ≡ true
      → IsSound c w j
      → IsSound c w (claimed c token now j)
  unfolding is_running is_queued investigation_status
  claimed-IsSound j token now h s = record {
    attempts_capped = s.attempts_capped;
    attempts_left = s.attempts_left;
    failed_queued = λ f. absurd (ground arith);
    held = refl;
    leased = refl;
    known = refl;
    pausable = λ f. absurd (ground arith);
    reported = λ f. absurd (ground arith);
  }

  -- No write touches a finalized job, but for the claims of the queue, which touch no such job either.
  pub Move-unfinished : {j j' : Job} → Move c w j j' → (j.status == "COMPLETED") ≡ false
  unfolding is_running
  Move-unfinished (renews j now h) = same_text j.status "RUNNING" "COMPLETED" h
  Move-unfinished (reserves j i h k) = same_text j.status "RUNNING" "COMPLETED" h
  Move-unfinished (pauses j i h k) = same_text j.status "RUNNING" "COMPLETED" h
  Move-unfinished (requeues j h) = same_text j.status "RUNNING" "COMPLETED" h
  Move-unfinished (defers j t h k) = same_text j.status "RUNNING" "COMPLETED" h
  Move-unfinished (fails j r h k) = same_text j.status "RUNNING" "COMPLETED" h
  Move-unfinished (resumes j h) = same_text j.status "PAUSED_APPROVAL" "COMPLETED" h
  Move-unfinished (finalizes j a t h k l) = same_text j.status "RUNNING" "COMPLETED" h

  -- A write of the diagram starts no job that was not running.
  pub Move-running : {j j' : Job} → Move c w j j' → is_running j ≡ false → is_running j' ≡ false
  unfolding is_running
  Move-running (renews j now h) n = n
  Move-running (reserves j i h k) n = n
  Move-running (pauses j i h k) n = refl
  Move-running (requeues j h) n = refl
  Move-running (defers j t h k) n = refl
  Move-running (fails j r h k) n = refl
  Move-running (resumes j h) n = refl
  Move-running (finalizes j a t h k l) n = refl
