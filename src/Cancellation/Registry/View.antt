-- ===== src/Cancellation/Registry/View.antt =====
-- What the registry of app/orchestration/cancellation.py promises for each job: a state of its own,
-- which the operations on other jobs leave alone.
use dataforge_ai_ml_service.Prelude.{
  ℕ, Bool, true, false, ◌≡◌, Option, none, some, if◌then◌else◌, nat_eq, list_eq, ◌==◌, list_beq_iff,
  member, arith, Option-cases, inl, inr,
}
use dataforge_ai_ml_service.Prelude.Dict
use dataforge_ai_ml_service.Prelude.Dict.{get-put, get-remove}
use dataforge_ai_ml_service.Prelude.Texts.{Text}
use dataforge_ai_ml_service.Cancellation.Registry.{
  CancellationToken, fresh_token, token_cancelled, CancellationRegistry, register, cancel,
  is_cancelled, discard,
}
use dataforge_ai_ml_service.Cancellation.Registry.Invariant.{IsWellFormed, member-forget}

pub data JobState : Type 0 where
  unknown gone : JobState
  live : CancellationToken → JobState

abbrev pub view_found : Option ℕ → Bool → (ℕ → CancellationToken) → JobState
view_found (some r) discarded heap = live (heap r)
view_found none true heap = gone
view_found none false heap = unknown

abbrev pub view : CancellationRegistry → Text → JobState
view s id = view_found (Dict.get s.tokens id) (member id s.discarded_job_ids) s.heap

-- The operations on the state of their own job.
abbrev pub registered : JobState → JobState
registered (live t) = live t
registered _ = live fresh_token

abbrev pub cancelled_by : Text → JobState → JobState × Bool
cancelled_by reason unknown = (live (token_cancelled (some reason) fresh_token), true)
cancelled_by reason gone = (gone, false)
cancelled_by reason (live t) = (live (token_cancelled (some reason) t), true)

abbrev pub observed : JobState → Bool
observed (live t) = t.cancelled
observed _ = false

module _ {s : CancellationRegistry} (v : IsWellFormed s) (id : Text) where
  -- `register` makes the job live with a fresh token unless it is live already, whose token it
  -- returns as it stands, and leaves the state of every other job alone.
  pub view-register :
      (j : Text)
      → (view (register id s).0 j ≡ (if id == j then registered (view s id) else view s j))
        × (live ((register id s).0.heap (register id s).1) ≡ registered (view s id))
  unfolding register
  view-register j = (
    elim (Option-cases (Dict.get s.tokens j)) [
      | inl none_there ↦ ground (
        arith,
        get-put s.tokens id j s.next,
        list_beq_iff id j,
        list_beq_iff j id,
        member-forget id j s.discarded_job_ids,
      )
      | inr (r, there) ↦ ground (
        arith,
        get-put s.tokens id j s.next,
        list_beq_iff id j,
        list_beq_iff j id,
        member-forget id j s.discarded_job_ids,
        v.in_heap j r there,
      )
    ],
    ground arith,
  )

  -- `cancel` answers and changes the state of its own job as `cancelled_by` says: a job that is
  -- unknown or live becomes cancelled, a discarded one stays. Every other job keeps its state.
  pub view-cancel :
      (reason : Text) (j : Text)
      → (view (cancel id reason s).0 j
          ≡ (if id == j then (cancelled_by reason (view s id)).0 else view s j))
        × ((cancel id reason s).1 ≡ (cancelled_by reason (view s id)).1)
  unfolding cancel
  view-cancel reason j = (
    elim (Option-cases (Dict.get s.tokens j)) [
      | inl none_there ↦ ground (arith, get-put s.tokens id j s.next, list_beq_iff id j)
      | inr (r, there) ↦ ground (
        arith,
        get-put s.tokens id j s.next,
        list_beq_iff id j,
        v.in_heap j r there,
        v.unshared id j r,
      )
    ],
    ground arith,
  )

  -- `discard` takes the job out of use and leaves every other job alone.
  pub view-discard : (j : Text) → view (discard id s) j ≡ (if id == j then gone else view s j)
  unfolding discard
  view-discard j = ground (arith, get-remove s.tokens id j, list_beq_iff id j)

  pub view-is_cancelled : is_cancelled id s ≡ observed (view s id)
  unfolding is_cancelled
  view-is_cancelled = ground arith
