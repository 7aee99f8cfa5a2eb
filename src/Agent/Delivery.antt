-- ===== src/Agent/Delivery.antt =====
-- What the loops of internal/agent/agent.go that hand over the buffer keep and deliver.
use smokeng.Common.{
  ℕ, ◌==◌, ◌≡◌, refl, sym, ap, ◌∙◌, ◌⊎◌, inl, inr, Bool, true, not, ◌&&◌, ◌||◌, Option, none, some,
  List, [], ◌∷◌, arith, any, keep, In, Bool-cases, if◌then◌else◌,
}
use smokeng.Common.Sort.{insert_by}
use smokeng.Agent.Outbox.{Row, same_row, earlier, arrive, not_in, drop_submitted, pending}
use smokeng.Agent.Push.{
  Round, Outcome, is_final, returned, after_request, settle, push_batch, goes_on, is_empty,
  push_measurements, push_paths, paths_go_on, push_paths_limit, unsupported_after,
}

module _ {A : Type 0} where
  In-cons : (x z : A) (zs ys : List A) → In x (z ∷ zs) → (In x zs → In x ys) → In x (z ∷ ys)
  In-cons x z zs ys (inl e) later = inl e
  In-cons x z zs ys (inr i) later = inr (later i)

  In-insert_by : (le : A → A → Bool) (x y : A) (xs : List A) → In x xs → In x (insert_by le y xs)
  unfolding insert_by
  In-insert_by le x y [] i = absurd i
  In-insert_by le x y (z ∷ zs) i = elim (Bool-cases (le y z)) [
    | inl before ↦ rw before (inr i)
    | inr after ↦ rw after (In-cons x z zs (insert_by le y zs) i (In-insert_by le x y zs))
  ]

  In-keep : (p : A → Bool) (x : A) (xs : List A) → p x ≡ true → In x xs → In x (keep p xs)
  unfolding keep
  In-keep p x [] h i = absurd i
  In-keep p x (y ∷ ys) h (inl e) = rw (ap p e ∙ h) (inl e)
  In-keep p x (y ∷ ys) h (inr i) = elim (Bool-cases (p y)) [
    | inl kept ↦ rw kept (inr (In-keep p x ys h i))
    | inr left ↦ rw left (In-keep p x ys h i)
  ]

-- The two rows have one key.
pub record SameKey {A : Type 0} (x y : Row A) : Type 0 where
  pub target : x.target_id ≡ y.target_id
  pub agent : x.agent_id ≡ y.agent_id
  pub time : x.ts ≡ y.ts

-- A row with the key of `x` is in the list.
abbrev pub HasKey : {A : Type 0} → Row A → List (Row A) → Type 0
HasKey {A} x rows = (y : Row A) × In y rows × SameKey x y

-- The master stored the batch (200), or cannot decode it (400).
abbrev pub IsSettled : Option ℕ → Type 0
IsSettled answer = (answer ≡ some 200) ⊎ (answer ≡ some 400)

-- A request whose batch holds a row with the key of `x` was settled.
abbrev pub Confirmed : {A : Type 0} → Row A → List (List (Row A) × Option ℕ) → Type 0
Confirmed x [] = ⊥
Confirmed x ((batch, answer) ∷ rest) = (IsSettled answer × HasKey x batch) ⊎ Confirmed x rest

-- A row with the key is still in the buffer, or was in a batch that was settled.
abbrev pub IsAccounted : {A : Type 0} → Row A → Outcome A → Type 0
IsAccounted x o = HasKey x o.buffer ⊎ Confirmed x o.requests

is_final-IsSettled : (answer : Option ℕ) → is_final answer ≡ true → IsSettled answer
is_final-IsSettled none h = cc
is_final-IsSettled (some code) h = elim (Bool-cases (code == 400)) [
  | inl e ↦ let is : code ≡ 400 = ground (arith, e) in inr (ap some is)
  | inr n ↦ let is : code ≡ 200 = ground (arith, h, n) in inl (ap some is)
]

module _ {A : Type 0} where
  In-inserted : (le : A → A → Bool) (y : A) (xs : List A) → In y (insert_by le y xs)
  unfolding insert_by
  In-inserted le y [] = inl refl
  In-inserted le y (z ∷ zs) = elim (Bool-cases (le y z)) [
    | inl before ↦ rw before (inl refl)
    | inr after ↦ rw after (inr (In-inserted le y zs))
  ]

module _ {A : Type 0} where
  same_row-SameKey : (x y : Row A) → same_row x y ≡ true → SameKey x y
  same_row-SameKey x y h = record {
    target = ground (arith, h);
    agent = ground (arith, h);
    time = ground (arith, h);
  }

  SameKey-trans : (x y z : Row A) → SameKey x y → SameKey y z → SameKey x z
  SameKey-trans x y z a b = record {
    target = a.target ∙ b.target;
    agent = a.agent ∙ b.agent;
    time = a.time ∙ b.time;
  }

  SameKey-sym : (x y : Row A) → SameKey x y → SameKey y x
  SameKey-sym x y k = record { target = sym k.target; agent = sym k.agent; time = sym k.time }

  any-HasKey : (x : Row A) (rows : List (Row A)) → any (same_row x) rows ≡ true → HasKey x rows
  unfolding any
  any-HasKey x [] h = cc
  any-HasKey x (r ∷ rows) h = elim (Bool-cases (same_row x r)) [
    | inl e ↦ (r, inl refl, same_row-SameKey x r e)
    | inr n ↦ let (y, i, k) = any-HasKey x rows (rw n at h) in (y, inr i, k)
  ]

  -- What arrives replaces only what has its key.
  HasKey-arrive :
      (x : Row A) (arrivals rows : List (Row A)) → HasKey x rows → HasKey x (arrive arrivals rows)
  unfolding arrive
  HasKey-arrive x [] rows h = h
  HasKey-arrive x (r ∷ arrivals) rows h =
      let (y, i, k) = HasKey-arrive x arrivals rows h in
      let others = keep (λ s. not (same_row r s)) (arrive arrivals rows) in
      elim (Bool-cases (same_row r y)) [
        | inl e ↦ (
          r,
          In-inserted earlier r others,
          SameKey-trans x y r k (SameKey-sym r y (same_row-SameKey r y e)),
        )
        | inr n ↦ (
          y,
          In-insert_by earlier y r others
              (In-keep (λ s. not (same_row r s)) y (arrive arrivals rows) (ap not n) i),
          k,
        )
      ]

  -- A row that a request does not settle stays.
  HasKey-settle :
      (x : Row A) (r : Round A) (batch rows : List (Row A))
      → HasKey x rows
      → HasKey x (settle r batch rows) ⊎ (IsSettled r.answer × HasKey x batch)
  unfolding settle drop_submitted
  HasKey-settle x r batch rows h =
      let (y, i, k) = HasKey-arrive x r.arrivals rows h in
      elim (Bool-cases (is_final r.answer && r.cleared)) [
        | inl cleared ↦ elim (Bool-cases (any (same_row y) batch)) [
          | inl held ↦
              let (z, j, l) = any-HasKey y batch held in
              inr (
                is_final-IsSettled r.answer (ground (arith, cleared)),
                (z, j, SameKey-trans x y z k l),
              )
          | inr not_held ↦ inl (
              rw cleared
                (y, In-keep (not_in batch) y (arrive r.arrivals rows) (ap not not_held) i, k))
        ]
        | inr stays ↦ inl (rw stays (y, i, k))
      ]

  after_request-IsAccounted :
      (x : Row A) (batch : List (Row A)) (answer : Option ℕ) (o : Outcome A)
      → IsAccounted x o ⊎ (IsSettled answer × HasKey x batch)
      → IsAccounted x (after_request batch answer o)
  unfolding after_request
  after_request-IsAccounted x batch answer o (inl (inl i)) = inl i
  after_request-IsAccounted x batch answer o (inl (inr c)) = inr (inr c)
  after_request-IsAccounted x batch answer o (inr c) = inr (inl c)

  -- A round: from what the request leaves to what the rest of the loop leaves.
  round-IsAccounted :
      (x : Row A) (r : Round A) (batch rows : List (Row A)) (o : Outcome A)
      → HasKey x rows
      → (HasKey x (settle r batch rows) → IsAccounted x o)
      → IsAccounted x (after_request batch r.answer o)
  round-IsAccounted x r batch rows o i later = elim (HasKey-settle x r batch rows i) [
    | inl there ↦ after_request-IsAccounted x batch r.answer o (inl (later there))
    | inr c ↦ after_request-IsAccounted x batch r.answer o (inr c)
  ]

  returned-IsAccounted :
      (x : Row A) (rows : List (Row A)) → HasKey x rows → IsAccounted x (returned rows)
  unfolding returned
  returned-IsAccounted x rows i = inl i

  rest_or_end :
      (x : Row A) (r : Round A) (batch rows' : List (Row A)) (rest : Outcome A)
      → (HasKey x rows' → IsAccounted x rest)
      → HasKey x rows'
      → IsAccounted x (if goes_on r push_batch batch then rest else returned rows')
  rest_or_end x r batch rows' rest later there = elim (Bool-cases (goes_on r push_batch batch)) [
    | inl more ↦ rw more (later there)
    | inr done ↦ rw done (returned-IsAccounted x rows' there)
  ]

  -- A key leaves the buffer only by an answer of 200 or 400: whatever the store, the network
  -- and the master do in each round, for a key with a row in the buffer when `pushMeasurements`
  -- starts there is a row of the key in the buffer after it, or a batch with a row of the key was answered
  -- with one of the two. (After 400 the batch is dropped, and its measurements are lost.)
  pub push_measurements-IsAccounted :
      (rounds : List (Round A)) (rows : List (Row A)) (x : Row A)
      → HasKey x rows
      → IsAccounted x (push_measurements rounds rows)
  unfolding push_measurements
  push_measurements-IsAccounted [] rows x i = inl i
  push_measurements-IsAccounted (r ∷ rounds) rows x i =
      let batch = pending push_batch rows in
      let rows' = settle r batch rows in
      elim (Bool-cases (not r.read || is_empty batch || not r.prepared)) [
        | inl stops ↦ rw stops (returned-IsAccounted x rows i)
        | inr asks ↦
            let rest = push_measurements rounds rows' in
            let o = if goes_on r push_batch batch then rest else returned rows' in
            rw asks (
              round-IsAccounted x r batch rows o i
                (rest_or_end x r batch rows' rest (push_measurements-IsAccounted rounds rows' x)))
      ]

  -- The same of `pushPaths` and the path changes that are not submitted.
  pub push_paths-IsAccounted :
      (rounds : List (Round A)) (unsupported : Bool) (rows : List (Row A)) (x : Row A)
      → HasKey x rows
      → IsAccounted x (push_paths rounds unsupported rows).0
  unfolding push_paths
  push_paths-IsAccounted [] unsupported rows x i = inl i
  push_paths-IsAccounted (r ∷ rounds) unsupported rows x i =
      let batch = pending push_paths_limit rows in
      let rows' = settle r batch rows in
      elim (Bool-cases (not r.read || is_empty batch || not r.prepared)) [
        | inl stops ↦ rw stops (returned-IsAccounted x rows i)
        | inr asks ↦ elim (Bool-cases (paths_go_on r push_paths_limit batch)) [
          | inl more ↦
              let rest = push_paths rounds (unsupported_after r unsupported) rows' in
              rw (asks, more)
                (round-IsAccounted x r batch rows rest.0 i
                  (push_paths-IsAccounted rounds (unsupported_after r unsupported) rows' x))
          | inr done ↦
              rw (asks, done)
                (round-IsAccounted x r batch rows (returned rows') i (returned-IsAccounted x rows'))
        ]
      ]
