-- ===== src/Agent/Outbox.antt =====
-- The buffer of an agent, as the queries of internal/store/agents.go read and clear it: the rows that
-- are not submitted, in the order of `ts`. A row has the key of its table and the rest of its
-- columns.
use smokeng.Common.{ℕ, Bool, not, ◌&&◌, List, [], ◌∷◌, any, keep, take, ◌==◌, leb}
use smokeng.Common.Sort.{insert_by}

pub record Row (A : Type 0) : Type 0 where
  pub target_id : ℕ
  pub agent_id : ℕ
  pub ts : ℕ
  pub figures : A

module _ {A : Type 0} where
  -- The keys are equal.
  abbrev pub same_row : Row A → Row A → Bool
  same_row r s = r.target_id == s.target_id && r.agent_id == s.agent_id && r.ts == s.ts

  abbrev pub earlier : Row A → Row A → Bool
  earlier r s = leb r.ts s.ts

  -- The rows that the prober saves while a request is on its way, the last first: each takes its
  -- place in the order, and that of a row with its key, which it replaces.
  unfoldable pub arrive : List (Row A) → List (Row A) → List (Row A)
  unfolding keep
  arrive [] rows = rows
  arrive (r ∷ arrivals) rows =
      insert_by earlier r (keep (λ s. not (same_row r s)) (arrive arrivals rows))

  -- PendingMeasurements and PendingPaths
  unfoldable pub pending : ℕ → List (Row A) → List (Row A)
  unfolding take
  pending limit rows = take limit rows

  abbrev pub not_in : List (Row A) → Row A → Bool
  not_in batch r = not (any (same_row r) batch)

  -- DropSubmitted and PathsSubmitted, whose transaction is done as a whole.
  unfoldable pub drop_submitted : List (Row A) → List (Row A) → List (Row A)
  unfolding keep any
  drop_submitted batch rows = keep (not_in batch) rows
