-- ===== src/Cancellation/Registry/Interleavings.antt =====
-- Threads that share one registry of app/orchestration/cancellation.py, as sequences of its locked
-- sections: the platform cancels, workers register and discard, in any order.
use dataforge_ai_ml_service.Prelude.{
  ℕ, ◌<◌, true, ◌≡◌, ◌≢◌, refl, Option, some, List, [], ◌∷◌, nat_eq, list_eq, list_beq_iff, arith,
  Option-cases, inl, inr, All,
}
use dataforge_ai_ml_service.Prelude.Dict
use dataforge_ai_ml_service.Prelude.Dict.{get-put, get-remove}
use dataforge_ai_ml_service.Prelude.Texts.{Text}
use dataforge_ai_ml_service.Cancellation.Registry.{
  CancellationRegistry, register, claim, cancel_token, cancel, discard,
}
use dataforge_ai_ml_service.Cancellation.Registry.Invariant.{
  IsWellFormed, register-IsWellFormed, claim-IsWellFormed, cancel_token-IsWellFormed,
  discard-IsWellFormed,
}
use dataforge_ai_ml_service.Cancellation.Registry.View.{view, gone}

pub data Section : Type 0 where
  registering claiming discarding : Text → Section
  cancelling : ℕ → Option Text → Section

unfoldable pub after : Section → CancellationRegistry → CancellationRegistry
unfolding register claim discard cancel_token
after (registering id) s = (register id s).0
after (claiming id) s = (claim id s).0
after (discarding id) s = discard id s
after (cancelling r reason) s = cancel_token r reason s

unfoldable pub after_all : List Section → CancellationRegistry → CancellationRegistry
after_all [] s = s
after_all (x ∷ xs) s = after_all xs (after x s)

after-IsWellFormed :
    (x : Section) {s : CancellationRegistry} → IsWellFormed s → IsWellFormed (after x s)
unfolding after
after-IsWellFormed (registering id) v = register-IsWellFormed id v
after-IsWellFormed (claiming id) v = claim-IsWellFormed id v
after-IsWellFormed (discarding id) v = discard-IsWellFormed id v
after-IsWellFormed (cancelling r reason) v = cancel_token-IsWellFormed r reason v

-- No interleaving makes two jobs share a token, makes a reference dangle, or leaves a job both live
-- and discarded.
pub after_all-IsWellFormed :
    (xs : List Section) {s : CancellationRegistry} → IsWellFormed s → IsWellFormed (after_all xs s)
unfolding after_all
after_all-IsWellFormed [] v = v
after_all-IsWellFormed (x ∷ xs) v = after_all-IsWellFormed xs (after-IsWellFormed x v)

-- The token behind a reference that was handed out is cancelled.
pub record IsCancelledToken (r : ℕ) (s : CancellationRegistry) : Type 0 where
  pub handed_out : r < s.next
  pub cancelled : (s.heap r).cancelled ≡ true

after-IsCancelledToken :
    (x : Section) {r : ℕ} (s : CancellationRegistry)
    → IsCancelledToken r s
    → IsCancelledToken r (after x s)
unfolding after
after-IsCancelledToken (registering id) s c = ground arith
after-IsCancelledToken (claiming id) s c = ground arith
after-IsCancelledToken (discarding id) s c = ground arith
after-IsCancelledToken (cancelling q reason) s c = ground arith

-- A token that was cancelled stays cancelled for whoever holds it, whatever the threads do, also
-- once its job is discarded.
pub after_all-IsCancelledToken :
    (xs : List Section) {r : ℕ} (s : CancellationRegistry)
    → IsCancelledToken r s
    → IsCancelledToken r (after_all xs s)
unfolding after_all
after_all-IsCancelledToken [] s c = c
after_all-IsCancelledToken (x ∷ xs) s c =
    after_all-IsCancelledToken xs (after x s) (after-IsCancelledToken x s c)

-- A job's reference stays its own until the job is discarded.
abbrev Spares : Text → Section → Type 0
Spares id (discarding j) = j ≢ id
Spares id _ = Unit

get-after :
    (id : Text) (x : Section) {r : ℕ} (s : CancellationRegistry)
    → Spares id x
    → Dict.get s.tokens id ≡ some r
    → Dict.get (after x s).tokens id ≡ some r
unfolding after
get-after id (registering j) s spared e =
    ground (arith, get-put s.tokens j id s.next, list_beq_iff j id)
get-after id (claiming j) s spared e =
    ground (arith, get-put s.tokens j id s.next, list_beq_iff j id)
get-after id (discarding j) s spared e =
    ground (arith, get-remove s.tokens j id, list_beq_iff j id, spared)
get-after id (cancelling q reason) s spared e = e

get-after_all :
    (id : Text) (xs : List Section) {r : ℕ} (s : CancellationRegistry)
    → All (Spares id) xs
    → Dict.get s.tokens id ≡ some r
    → Dict.get (after_all xs s).tokens id ≡ some r
unfolding after_all
get-after_all id [] s spared e = e
get-after_all id (x ∷ xs) s spared e =
    get-after_all id xs (after x s) spared.1 (get-after id x s spared.0 e)

-- `cancel` on a job that is not discarded leaves it with a cancelled token.
cancel_found :
    (id : Text) (reason : Text) {s : CancellationRegistry}
    → IsWellFormed s
    → view s id ≢ gone
    → (r : ℕ) × (Dict.get (cancel id reason s).0.tokens id ≡ some r)
      × IsCancelledToken r (cancel id reason s).0
unfolding cancel
cancel_found id reason {s} v h = elim (Option-cases (Dict.get s.tokens id)) [
  | inl new ↦
      (s.next, ground (arith, get-put s.tokens id id s.next, list_beq_iff id id), ground arith)
  | inr (r, old) ↦ (r, ground arith, ground (arith, v.in_heap id r old))
]

register_found :
    (id : Text) {r : ℕ} (s : CancellationRegistry)
    → Dict.get s.tokens id ≡ some r
    → ((register id s).1 ≡ r) × ((register id s).0.heap ≡ s.heap)
unfolding register
register_found id s e = rw (e, register) (refl, refl)

-- A cancel that comes before the worker has registered is honoured: whatever the threads do in
-- between, unless they discard that very job, the token that `register` hands out is cancelled.
pub register_after_cancel :
    (id : Text) (reason : Text) (between : List Section) {s : CancellationRegistry}
    → IsWellFormed s
    → view s id ≢ gone
    → All (Spares id) between
    → let waiting = after_all between (cancel id reason s).0 in
      ((register id waiting).0.heap (register id waiting).1).cancelled ≡ true
register_after_cancel id reason between {s} v h spared =
    let (r, found, c) = cancel_found id reason v h in
    let waiting = after_all between (cancel id reason s).0 in
    let (same, kept) = register_found id waiting (get-after_all id between _ spared found) in
    let c' = after_all-IsCancelledToken between _ c in rw (same, kept) c'.cancelled
