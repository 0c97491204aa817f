-- ===== src/Cancellation/Registry/Invariant.antt =====
-- The registry of app/orchestration/cancellation.py never shares a token between two jobs, and
-- never holds a job both as live and as discarded.
use dataforge_ai_ml_service.Prelude.{
  ℕ, ◌<◌, false, ◌≡◌, refl, Option, none, some, List, if◌then◌else◌, nat_eq, list_eq, ◌==◌,
  list_beq_iff, member, member-keep, arith, Option-cases, inl, inr, Bool-cases,
}
use dataforge_ai_ml_service.Prelude.Dict
use dataforge_ai_ml_service.Prelude.Dict.{get-put, get-remove}
use dataforge_ai_ml_service.Prelude.Texts.{Text}
use dataforge_ai_ml_service.Cancellation.Registry.{
  CancellationRegistry, empty_registry, allocate, register, claim, cancel_token, discard, forget,
}

pub record IsWellFormed (s : CancellationRegistry) : Type 0 where
  pub in_heap : (id : Text) (r : ℕ) → Dict.get s.tokens id ≡ some r → r < s.next
  pub unshared :
      (id job : Text) (r : ℕ)
      → Dict.get s.tokens id ≡ some r
      → Dict.get s.tokens job ≡ some r
      → id ≡ job
  pub live_or_discarded :
      (id : Text) (r : ℕ) → Dict.get s.tokens id ≡ some r → member id s.discarded_job_ids ≡ false

pub empty_registry-IsWellFormed : IsWellFormed empty_registry
unfolding Dict.get
empty_registry-IsWellFormed = record {
  in_heap = λ id r h. cc h;
  unshared = λ id job r h k. cc h;
  live_or_discarded = λ id r h. refl;
}

pub member-forget :
    (id j : Text) (ids : List Text)
    → member j (forget id ids) ≡ (if j == id then false else member j ids)
member-forget id j ids = rw member-keep (ground arith)

-- A new token for a job that has none, and that is not discarded.
allocate-IsWellFormed :
    (id : Text) {s : CancellationRegistry}
    → IsWellFormed s
    → Dict.get s.tokens id ≡ none
    → member id s.discarded_job_ids ≡ false
    → IsWellFormed (allocate id s).0
unfolding allocate
allocate-IsWellFormed id {s} v h free = record {
  in_heap = λ j r e. ground (arith, get-put s.tokens id j s.next, v.in_heap j r);
  unshared = λ j k r e f. ground (
    arith,
    get-put s.tokens id j s.next,
    get-put s.tokens id k s.next,
    v.in_heap j r,
    v.in_heap k r,
    v.unshared j k r,
    list_beq_iff id j,
    list_beq_iff id k,
  );
  live_or_discarded = λ j r e.
      ground (arith, get-put s.tokens id j s.next, v.live_or_discarded j r, list_beq_iff id j);
}

forget-IsWellFormed :
    (id : Text) {s : CancellationRegistry}
    → IsWellFormed s
    → IsWellFormed (record s { discarded_job_ids = forget id s.discarded_job_ids })
forget-IsWellFormed id {s} v = record {
  in_heap = v.in_heap;
  unshared = v.unshared;
  live_or_discarded =
      λ j r e. ground (arith, member-forget id j s.discarded_job_ids, v.live_or_discarded j r e);
}

pub register-IsWellFormed :
    (id : Text) {s : CancellationRegistry} → IsWellFormed s → IsWellFormed (register id s).0
unfolding register
register-IsWellFormed id {s} v = elim (Option-cases (Dict.get s.tokens id)) [
  | inl new ↦
      rw (new, register)
        (allocate-IsWellFormed id (forget-IsWellFormed id v) new
          (ground (arith, member-forget id id s.discarded_job_ids, list_beq_iff id id)))
  | inr (r, old) ↦ rw (old, register) (forget-IsWellFormed id v)
]

pub claim-IsWellFormed :
    (id : Text) {s : CancellationRegistry} → IsWellFormed s → IsWellFormed (claim id s).0
unfolding claim
claim-IsWellFormed id {s} v = elim (Option-cases (Dict.get s.tokens id)) [
  | inr (r, old) ↦ rw (old, claim) v
  | inl new ↦ elim (Bool-cases (member id s.discarded_job_ids)) [
    | inl gone ↦ rw (new, gone, claim) v
    | inr free ↦ rw (new, free, claim) (allocate-IsWellFormed id v new free)
  ]
]

pub cancel_token-IsWellFormed :
    (r : ℕ) (reason : Option Text) {s : CancellationRegistry}
    → IsWellFormed s
    → IsWellFormed (cancel_token r reason s)
unfolding cancel_token
cancel_token-IsWellFormed r reason v = record {
  in_heap = v.in_heap;
  unshared = v.unshared;
  live_or_discarded = v.live_or_discarded;
}

pub discard-IsWellFormed :
    (id : Text) {s : CancellationRegistry} → IsWellFormed s → IsWellFormed (discard id s)
unfolding discard
discard-IsWellFormed id {s} v = record {
  in_heap = λ j r e. ground (arith, get-remove s.tokens id j, v.in_heap j r);
  unshared = λ j k r e f.
      ground (arith, get-remove s.tokens id j, get-remove s.tokens id k, v.unshared j k r);
  live_or_discarded =
      λ j r e. ground (arith, get-remove s.tokens id j, v.live_or_discarded j r, list_beq_iff id j);
}
