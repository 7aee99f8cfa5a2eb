-- ===== src/Agent/Push.antt =====
-- `pushMeasurements` and `pushPaths` of internal/agent/agent.go. A round of either loop takes what the
-- store, the network and the master do in it as its input; what it logs is left out.
use smokeng.Common.{
  ℕ, Bool, true, false, not, ◌&&◌, ◌||◌, Option, none, some, List, [], ◌∷◌, length, ltb, ◌==◌,
  if◌then◌else◌,
}
use smokeng.Agent.Outbox.{Row, arrive, pending, drop_submitted}

-- One round: whether the buffer could be read, whether the batch could be encoded and signed, the
-- status of the answer (`none` where the request failed), the rows saved meanwhile, and whether the
-- batch could be cleared.
pub record Round (A : Type 0) : Type 0 where
  pub read : Bool
  pub prepared : Bool
  pub answer : Option ℕ
  pub arrivals : List (Row A)
  pub cleared : Bool

-- The buffer after the loop, the requests that were made with their answers, and whether the loop
-- has returned; it has not where the rounds of the input are used up first.
pub record Outcome (A : Type 0) : Type 0 where
  pub buffer : List (Row A)
  pub requests : List (List (Row A) × Option ℕ)
  pub returned : Bool

abbrev pub push_batch : ℕ
push_batch = 2000

abbrev pub push_paths_limit : ℕ
push_paths_limit = 200

abbrev pub is_status : ℕ → Option ℕ → Bool
is_status code none = false
is_status code (some s) = s == code

abbrev pub is_empty : {A : Type 0} → List A → Bool
is_empty [] = true
is_empty (x ∷ xs) = false

-- The answers after which a batch is cleared: it is stored, or will never be.
abbrev pub is_final : Option ℕ → Bool
is_final answer = is_status 400 answer || is_status 200 answer

module _ {A : Type 0} where
  unfoldable pub returned : List (Row A) → Outcome A
  returned rows = record { buffer = rows; requests = []; returned = true }

  -- A request that was made before the rest.
  unfoldable pub after_request : List (Row A) → Option ℕ → Outcome A → Outcome A
  after_request batch answer o = record o { requests = (batch, answer) ∷ o.requests }

  -- The buffer after a request.
  unfoldable pub settle : Round A → List (Row A) → List (Row A) → List (Row A)
  settle r batch rows =
      let rows' = arrive r.arrivals rows in
      if is_final r.answer && r.cleared then drop_submitted batch rows' else rows'

  -- Whether the loop goes round again: a full batch was confirmed and cleared.
  abbrev pub goes_on : Round A → ℕ → List (Row A) → Bool
  goes_on r limit batch = is_status 200 r.answer && r.cleared && not (ltb (length batch) limit)

  unfoldable pub push_measurements : List (Round A) → List (Row A) → Outcome A
  unfolding returned after_request settle
  push_measurements [] rows = record { buffer = rows; requests = []; returned = false }
  push_measurements (r ∷ rounds) rows =
      let batch = pending push_batch rows in
      let rows' = settle r batch rows in
      let rest = push_measurements rounds rows' in
      if not r.read || is_empty batch || not r.prepared
      then returned rows
      else after_request batch r.answer
          (if goes_on r push_batch batch then rest else returned rows')

  -- A batch of path changes that is refused with 400 is cleared, and the loop goes on.
  abbrev pub paths_go_on : Round A → ℕ → List (Row A) → Bool
  paths_go_on r limit batch = is_final r.answer && r.cleared && not (ltb (length batch) limit)

  -- `pathsUnsupported` after a request.
  unfoldable pub unsupported_after : Round A → Bool → Bool
  unsupported_after r unsupported =
      if is_status 404 r.answer then true else if is_final r.answer then false else unsupported

  -- The second component is `pathsUnsupported`.
  unfoldable pub push_paths : List (Round A) → Bool → List (Row A) → Outcome A × Bool
  unfolding returned after_request settle unsupported_after
  push_paths [] unsupported rows =
      (record { buffer = rows; requests = []; returned = false }, unsupported)
  push_paths (r ∷ rounds) unsupported rows =
      let batch = pending push_paths_limit rows in
      let rows' = settle r batch rows in
      let unsupported' = unsupported_after r unsupported in
      let rest = push_paths rounds unsupported' rows' in
      if not r.read || is_empty batch || not r.prepared
      then (returned rows, unsupported)
      else if paths_go_on r push_paths_limit batch
      then (after_request batch r.answer rest.0, rest.1)
      else (after_request batch r.answer (returned rows'), unsupported')
