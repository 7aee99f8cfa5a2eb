-- ===== src/Agent/Draining.antt =====
-- How the loop of internal/agent/agent.go that hands over the measurements ends.
use smokeng.Common.{
  ℕ, suc, ◌*◌, ◌-◌, ◌≤◌, ◌<◌, ◌≡◌, refl, sym, ap, ◌∙◌, Bool, true, false, not, ◌||◌, Option, some,
  List, [], ◌∷◌, ◌++◌, arith, any, keep, take, drop, length, All, Bool-cases, inl, inr, keep-append,
  length-keep_le, take-drop, length-take, length-drop, ltb, ltb→lt, ==_iff,
}
use mathlib.Core.Path.{subst}
use mathlib.Core.List.{append_assoc}
use smokeng.Agent.Outbox.{Row, same_row, arrive, not_in, drop_submitted, pending}
use smokeng.Agent.Push.{
  Round, Outcome, returned, after_request, settle, push_batch, goes_on, is_empty, push_measurements,
}

left_lt :
    (left rows rounds batch : ℕ)
    → ltb batch push_batch ≡ false
    → left ≤ rows - push_batch
    → batch ≤ rows
    → rows < push_batch * suc rounds
    → left < push_batch * rounds
left_lt left rows rounds batch full small within h = ground arith

module _ {A : Type 0} where
  -- A round in which all is well and the prober saves nothing.
  pub record Delivers (r : Round A) : Type 0 where
    pub read : r.read ≡ true
    pub prepared : r.prepared ≡ true
    pub answer : r.answer ≡ some 200
    pub arrivals : r.arrivals ≡ []
    pub cleared : r.cleared ≡ true

  same_row_refl : (r : Row A) → same_row r r ≡ true
  same_row_refl r = rw (
    (==_iff r.target_id r.target_id).1 refl,
    (==_iff r.agent_id r.agent_id).1 refl,
    (==_iff r.ts r.ts).1 refl,
  )

  any-cons :
      (p : Row A → Bool) (y : Row A) (ys : List (Row A)) → any p ys ≡ true → any p (y ∷ ys) ≡ true
  unfolding any
  any-cons p y ys h = ground arith

  any-append_left :
      (p : Row A → Bool) (xs : List (Row A)) (x : Row A) (ys : List (Row A))
      → p x ≡ true
      → any p (xs ++ x ∷ ys) ≡ true
  unfolding any
  any-append_left p [] x ys h = ground (arith, h)
  any-append_left p (z ∷ xs) x ys h = ground (arith, any-append_left p xs x ys h)

  -- Clearing a batch removes each of its rows.
  keep-batch : (before batch : List (Row A)) → keep (not_in (before ++ batch)) batch ≡ []
  unfolding keep
  keep-batch before [] = refl
  keep-batch before (x ∷ batch) =
      let gone = any-append_left (same_row x) before x batch (same_row_refl x) in
      let rest = keep-batch (before ++ x ∷ []) batch in
      let rest' : keep (not_in (before ++ x ∷ batch)) batch ≡ [] =
        subst (λ (b : List (Row A)). keep (not_in b) batch ≡ [])
          (append_assoc before (x ∷ []) batch) rest in
      rw gone rest'

  length-drop_submitted :
      (n : ℕ) (rows : List (Row A)) → length (drop_submitted (take n rows) rows) ≤ length rows - n
  unfolding drop_submitted
  length-drop_submitted n rows =
      let p = not_in (take n rows) in
      let split = ap (λ (xs : List (Row A)). length (keep p xs)) (sym (take-drop n rows)) in
      let apart =
        ap (λ (xs : List (Row A)). length xs) (keep-append p (take n rows) (drop n rows)) in
      let none_left =
        ap (λ (xs : List (Row A)). length (xs ++ keep p (drop n rows)))
          (keep-batch [] (take n rows)) in
      omega (arith, split, apart, none_left, length-keep_le p (drop n rows), length-drop n rows)

  settle-Delivers :
      (r : Round A) (batch rows : List (Row A))
      → Delivers r
      → settle r batch rows ≡ drop_submitted batch rows
  unfolding settle arrive
  settle-Delivers r batch rows d = rw (d.answer, d.cleared, d.arrivals) refl

  goes_on-Delivers :
      (r : Round A) (batch : List (Row A))
      → Delivers r
      → goes_on r push_batch batch ≡ not (ltb (length batch) push_batch)
  goes_on-Delivers r batch d = rw (d.answer, d.cleared) refl

  nil_of_length : (xs : List (Row A)) → length xs ≤ 0 → xs ≡ []
  nil_of_length [] h = refl
  nil_of_length (x ∷ xs) h = absurd (omega arith)

  stops : (r : Round A) → Bool → Bool
  stops r empty = not r.read || empty || not r.prepared

  stops-Delivers : (r : Round A) (empty : Bool) → Delivers r → stops r empty ≡ empty
  unfolding stops
  stops-Delivers r true d = rw d.read refl
  stops-Delivers r false d = rw (d.read, d.prepared) refl

  batch_of_cons : (x : Row A) (xs : List (Row A)) → is_empty (pending push_batch (x ∷ xs)) ≡ false
  unfolding pending take
  batch_of_cons x xs = refl

  batch_of_nil : (rows : List (Row A)) → length rows ≤ 0 → is_empty (pending push_batch rows) ≡ true
  unfolding pending take
  batch_of_nil [] h = refl
  batch_of_nil (x ∷ xs) h = absurd (omega arith)

  batch_le : (rows : List (Row A)) → length (pending push_batch rows) ≤ length rows
  unfolding pending
  batch_le rows = omega (arith, length-take push_batch rows)

  left_after :
      (rows : List (Row A))
      → length (drop_submitted (pending push_batch rows) rows) ≤ length rows - push_batch
  unfolding pending
  left_after rows = length-drop_submitted push_batch rows

  batch_short :
      (rows : List (Row A))
      → length (pending push_batch rows) < push_batch
      → length rows < push_batch
  unfolding pending
  batch_short rows h = omega (arith, length-take push_batch rows, length-drop push_batch rows)

  -- The loop has returned, and nothing is left.
  abbrev pub IsDrained : Outcome A → Type 0
  IsDrained o = (o.returned ≡ true) × (o.buffer ≡ [])

  returned-IsDrained : (rows : List (Row A)) → length rows ≤ 0 → IsDrained (returned rows)
  unfolding returned
  returned-IsDrained rows h = (refl, nil_of_length rows h)

  after_request-IsDrained :
      (batch : List (Row A)) (answer : Option ℕ) (o : Outcome A)
      → IsDrained o
      → IsDrained (after_request batch answer o)
  unfolding after_request
  after_request-IsDrained batch answer o h = h

  -- The loop of `pushMeasurements` ends, and ends with an empty buffer: where the master confirms
  -- every batch, each is cleared, and the prober saves nothing meanwhile, one round more than the
  -- buffer has full batches is enough.
  pub push_measurements-IsDrained :
      (rounds : List (Round A)) (rows : List (Row A))
      → All Delivers rounds
      → length rows < push_batch * length rounds
      → IsDrained (push_measurements rounds rows)
  unfolding push_measurements stops
  push_measurements-IsDrained [] rows d h = absurd (omega arith)
  push_measurements-IsDrained (r ∷ rounds) [] d h =
      rw
        (
          stops-Delivers r (is_empty (pending {A = A} push_batch [])) d.0,
          batch_of_nil [] (omega arith),
        )
        (returned-IsDrained [] (omega arith))
  push_measurements-IsDrained (r ∷ rounds) (x ∷ xs) d h =
      let rows = x ∷ xs in
      let batch = pending push_batch rows in
      let left = drop_submitted batch rows in
      let small = left_after rows in
      let goes = goes_on-Delivers r batch d.0 in
      rw
        (
          stops-Delivers r (is_empty batch) d.0,
          batch_of_cons x xs,
          settle-Delivers r batch rows d.0,
        )
        (elim (Bool-cases (ltb (length batch) push_batch)) [
          | inl short ↦
              let few = batch_short rows (ltb→lt _ _ short) in
              rw (goes ∙ ap not short) (returned-IsDrained left (omega arith))
          | inr full ↦
              let fewer : length left < push_batch * length rounds =
                left_lt (length left) (length rows) (length rounds) (length batch) full small
                  (batch_le rows) h in
              rw (goes ∙ ap not full) (push_measurements-IsDrained rounds left d.1 fewer)
        ])
