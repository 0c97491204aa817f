-- ===== src/Cancellation/Registry.antt =====
-- Tokens and the registry of app/orchestration/cancellation.py.
--
-- A token is an object that the registry, the launcher and the platform share, so it lies on a
-- heap and is passed by reference. Each operation is the code under one lock, so a list of
-- operations is an interleaving of the threads.
pub mod View
pub mod Invariant
pub mod Interleavings
use dataforge_ai_ml_service.Prelude.{
  ℕ, suc, Bool, true, false, not, ◌&&◌, Option, none, some, List, [], ◌∷◌, if◌then◌else◌, ◌++◌,
  nat_eq, list_eq, ◌==◌, member, keep, Result, ok, raise,
}
use dataforge_ai_ml_service.Prelude.Dict
use dataforge_ai_ml_service.Prelude.Dict.{Dict}
use dataforge_ai_ml_service.Prelude.Sorting.{sorted, nat_order, list_order}
use dataforge_ai_ml_service.Prelude.Texts.{Text, codes}

pub record CancellationToken : Type 0 where
  pub reason_code : Text
  pub cancelled : Bool

-- `CancellationToken()`
abbrev pub fresh_token : CancellationToken
fresh_token = record { reason_code = codes "platform_user_cancelled"; cancelled = false }

abbrev pub new_reason : Option Text → Text → Text
new_reason none old = old
new_reason (some []) old = old
new_reason (some (c ∷ cs)) old = c ∷ cs

-- `CancellationToken.cancel`
unfoldable pub token_cancelled : Option Text → CancellationToken → CancellationToken
token_cancelled reason t = record {
  reason_code = new_reason reason t.reason_code;
  cancelled = true;
}

pub record RunCancelledError : Type 0 where
  pub reason_code : Text
  pub message : Text

-- `CancellationToken.raise_if_cancelled`
unfoldable pub raise_if_cancelled : CancellationToken → Result RunCancelledError (Unit {0})
raise_if_cancelled t =
    if t.cancelled
    then raise (record {
      reason_code = t.reason_code;
      message = codes "Compute run cancelled: " ++ t.reason_code;
    })
    else ok tt

pub record CancellationRegistry : Type 0 where
  pub heap : ℕ → CancellationToken
  pub next : ℕ
  pub tokens : Dict Text ℕ
  pub discarded_job_ids : List Text

abbrev pub empty_registry : CancellationRegistry
empty_registry = record { heap = λ _. fresh_token; next = 0; tokens = []; discarded_job_ids = [] }

-- An assignment to the object behind a reference.
abbrev pub write : (ℕ → CancellationToken) → ℕ → CancellationToken → ℕ → CancellationToken
write heap r t q = if r == q then t else heap q

-- `token = CancellationToken(); self._tokens[id] = token`
unfoldable pub allocate : Text → CancellationRegistry → CancellationRegistry × ℕ
allocate id s = (
  record s {
    heap = write s.heap s.next fresh_token;
    next = suc s.next;
    tokens = Dict.put s.tokens id s.next;
  },
  s.next,
)

-- `self._discarded_job_ids.discard(id)`
abbrev pub forget : Text → List Text → List Text
forget id ids = keep (λ j. not (j == id)) ids

-- `CancellationRegistry.register`
unfoldable pub register : Text → CancellationRegistry → CancellationRegistry × ℕ
unfolding allocate
register id s =
    let s' = record s { discarded_job_ids = forget id s.discarded_job_ids } in
    elim (Dict.get s.tokens id) [ some r ↦ (s', r) | none ↦ allocate id s' ]

-- The section of `CancellationRegistry.cancel` under the registry's lock.
unfoldable pub claim : Text → CancellationRegistry → CancellationRegistry × Option ℕ
unfolding allocate
claim id s = elim (Dict.get s.tokens id) [
  | some r ↦ (s, some r)
  | none ↦
      if member id s.discarded_job_ids
      then (s, none)
      else (let (s', r) = allocate id s in (s', some r))
]

-- `token.cancel(reason_code=reason)` through a reference, under the token's lock.
unfoldable pub cancel_token : ℕ → Option Text → CancellationRegistry → CancellationRegistry
unfolding token_cancelled
cancel_token r reason s = record s { heap = write s.heap r (token_cancelled reason (s.heap r)) }

-- The rest of `cancel`, on what the locked section found.
abbrev pub finish_cancel : Text → Option ℕ → CancellationRegistry → CancellationRegistry × Bool
finish_cancel reason none s = (s, false)
finish_cancel reason (some r) s = (cancel_token r (some reason) s, true)

-- `CancellationRegistry.cancel`
unfoldable pub cancel : Text → Text → CancellationRegistry → CancellationRegistry × Bool
unfolding claim cancel_token
cancel id reason s = let (s', found) = claim id s in finish_cancel reason found s'

-- `CancellationRegistry.is_cancelled`
unfoldable pub is_cancelled : Text → CancellationRegistry → Bool
is_cancelled id s = elim (Dict.get s.tokens id) [ none ↦ false | some r ↦ (s.heap r).cancelled ]

-- `CancellationRegistry.discard`
unfoldable pub discard : Text → CancellationRegistry → CancellationRegistry
discard id s =
    let ids = s.discarded_job_ids in
    record s {
      tokens = Dict.remove s.tokens id;
      discarded_job_ids = if member id ids then ids else id ∷ ids;
    }

-- `CancellationRegistry.known_job_ids`
unfoldable pub known_job_ids : CancellationRegistry → List Text
known_job_ids s = sorted (Dict.keys s.tokens)
