-- ===== src/Probe/Figures.antt =====
-- What the figures of a finalized measurement count, and that its samples can be stored.
use mathlib.Core.List.{append-nil, append_assoc}
use smokeng.Common.{
  ℕ, ◌+◌, ◌*◌, ◌≤◌, ◌≡◌, refl, sym, ap, ◌∙◌, Bool, true, not, ◌&&◌, List, [], ◌∷◌, ◌++◌,
  if◌then◌else◌, leb, length, keep, arith, All, All-map, Bool-cases, inl, inr,
}
use smokeng.Common.Sort.{sort_by, length-sort_by, All-sort_by, sort_by-SortedFrom}
use smokeng.Common.Int.{ℤ, pos, ltb_ℤ, pos_part, ◌-ℤ◌, wrap64}
use smokeng.Common.Result.{ok, ◌>>=◌}
use smokeng.Enc.Samples.{max_uint32, encode, decode}
use smokeng.Enc.RoundTrip.{IsSamples, decode-encode}
use smokeng.Probe.Clock.{Instant, is_zero, add}
use smokeng.Probe.Schedule.{TargetSpec}
use smokeng.Probe.Collector.{Ping, Collector}
use smokeng.Probe.Finalize.{
  Conditions, Tally, Measurement, abandoned, attempted, round_trip, sample_of, tally_reply,
  tally_failure, tally_error, tally_attempt, tally_ping, tally, tallied, timeout_of, finalize,
  start_tally, measurement_of,
}

-- The ping was sent, and its reply is there, not before its sending, and within the timeout.
abbrev pub answered : ℤ → Ping → Bool
answered timeout p =
    p.sent
    && not p.send_failed
    && not (is_zero p.rx)
    && not (ltb_ℤ (round_trip p) (pos 0))
    && not (ltb_ℤ timeout (round_trip p))

abbrev pub round_trips : List Ping → List ℕ
round_trips [] = []
round_trips (p ∷ pings) = sample_of (round_trip p) ∷ round_trips pings

module _ (timeout : ℤ) (truncated : Bool) (deadline : Instant) where
  tally_error-samples : (p : Ping) (t : Tally) → (tally_error p t).samples ≡ t.samples
  unfolding tally_error
  tally_error-samples p t = ground arith

  tally_error-sent : (p : Ping) (t : Tally) → (tally_error p t).sent ≡ t.sent
  unfolding tally_error
  tally_error-sent p t = ground arith

  tally_reply-sent : (p : Ping) (t : Tally) → (tally_reply timeout p t).sent ≡ t.sent
  unfolding tally_reply
  tally_reply-sent p t = ground arith

  tally_ping-sent :
      (p : Ping) (t : Tally)
      → (tally_ping timeout truncated deadline p t).sent
        ≡ (if attempted truncated deadline p then t.sent + 1 else t.sent)
  unfolding tally_ping tally_attempt tally_failure
  tally_ping-sent p t =
      let counted : Tally = record t { sent = t.sent + 1 } in
      ground (arith, tally_error-sent p counted, tally_reply-sent p (tally_error p counted))

  -- An abandoned ping has no reply.
  answered-attempted :
      (p : Ping) → answered timeout p ≡ true → attempted truncated deadline p ≡ true
  unfolding attempted abandoned
  answered-attempted p h = ground arith

  tally_ping-samples :
      (p : Ping) (t : Tally)
      → (tally_ping timeout truncated deadline p t).samples
        ≡ t.samples ++ round_trips (keep (answered timeout) (p ∷ []))
  unfolding tally_ping tally_attempt tally_failure tally_reply keep attempted abandoned
  tally_ping-samples p t =
      let counted : Tally = record t { sent = t.sent + 1 } in
      ground (arith, tally_error-samples p counted, append-nil t.samples)

  tally-sent :
      (pings : List Ping) (t : Tally)
      → (tally timeout truncated deadline pings t).sent
        ≡ t.sent + length (keep (attempted truncated deadline) pings)
  unfolding tally keep
  tally-sent [] t = omega arith
  tally-sent (p ∷ pings) t =
      ground
        (arith, tally_ping-sent p t, tally-sent pings (tally_ping timeout truncated deadline p t))

  keep-nil : keep (answered timeout) [] ≡ []
  unfolding keep
  keep-nil = refl

  round_trips-keep :
      (p : Ping) (pings : List Ping)
      → round_trips (keep (answered timeout) (p ∷ pings))
        ≡ round_trips (keep (answered timeout) (p ∷ []))
          ++ round_trips (keep (answered timeout) pings)
  unfolding keep
  round_trips-keep p pings = elim (Bool-cases (answered timeout p)) [ inl h ↦ rw h | inr h ↦ rw h ]

  tally-samples :
      (pings : List Ping) (t : Tally)
      → (tally timeout truncated deadline pings t).samples
        ≡ t.samples ++ round_trips (keep (answered timeout) pings)
  unfolding tally
  tally-samples [] t = rw keep-nil (sym (append-nil t.samples))
  tally-samples (p ∷ pings) t =
      let later = round_trips (keep (answered timeout) pings) in
      tally-samples pings (tally_ping timeout truncated deadline p t)
      ∙ ap (λ (s : List ℕ). s ++ later) (tally_ping-samples p t)
      ∙ append_assoc t.samples (round_trips (keep (answered timeout) (p ∷ []))) later
      ∙ ap (λ (s : List ℕ). t.samples ++ s) (sym (round_trips-keep p pings))

  keep-le :
      (pings : List Ping)
      → length (keep (answered timeout) pings) ≤ length (keep (attempted truncated deadline) pings)
  unfolding keep
  keep-le [] = omega arith
  keep-le (p ∷ pings) = ground (arith, answered-attempted p, keep-le pings)

length-round_trips : (pings : List Ping) → length (round_trips pings) ≡ length pings
length-round_trips [] = refl
length-round_trips (p ∷ pings) = omega (arith, length-round_trips pings)

-- A sample is a `uint32`, and no sample that was kept is longer than the timeout.
abbrev IsSample : ℤ → ℕ → Type 0
IsSample timeout s = (s ≤ max_uint32) × (s * 1000 ≤ pos_part timeout)

round_trips-IsSample :
    (timeout : ℤ) (pings : List Ping)
    → All (IsSample timeout) (round_trips (keep (answered timeout) pings))
unfolding keep sample_of
round_trips-IsSample timeout [] = tt
round_trips-IsSample timeout (p ∷ pings) =
    let rest = round_trips-IsSample timeout pings in
    elim (Bool-cases (answered timeout p)) [
      | inl h ↦ rw h ((ground arith, ground arith), rest)
      | inr h ↦ rw h rest
    ]

-- The pings of a collector that count as attempted at `now`.
abbrev pub attempts : Collector → TargetSpec → Conditions → Instant → List Ping
attempts c spec cond now =
    keep (attempted cond.truncated (add now (wrap64 (pos 0 -ℤ timeout_of spec)))) c.pings

-- The pings with a reply within the timeout.
abbrev pub replies : Collector → TargetSpec → List Ping
replies c spec = keep (answered (timeout_of spec)) c.pings

-- What a measurement says of the pings of its collector.
pub record IsFigures (c : Collector) (spec : TargetSpec) (cond : Conditions) (now : Instant)
    (m : Measurement) : Type 0 where
  pub sent : m.sent ≡ length (attempts c spec cond now)
  pub received : m.received ≡ length (replies c spec)
  pub samples : m.samples ≡ sort_by leb (round_trips (replies c spec))
  pub counted : m.received ≡ length m.samples
  pub bounded : m.received ≤ m.sent

tallied-samples :
    (c : Collector) (spec : TargetSpec) (cond : Conditions) (now : Instant)
    → (tallied c spec cond now).samples ≡ round_trips (replies c spec)
unfolding tallied start_tally
tallied-samples c spec cond now =
    tally-samples (timeout_of spec) cond.truncated (add now (wrap64 (pos 0 -ℤ timeout_of spec)))
      c.pings (start_tally c cond now)

tallied-sent :
    (c : Collector) (spec : TargetSpec) (cond : Conditions) (now : Instant)
    → (tallied c spec cond now).sent ≡ length (attempts c spec cond now)
unfolding tallied start_tally
tallied-sent c spec cond now =
    tally-sent (timeout_of spec) cond.truncated (add now (wrap64 (pos 0 -ℤ timeout_of spec)))
      c.pings (start_tally c cond now)
    ∙ omega arith

-- The measurement that `finalize` makes, for every collector: `Sent` counts the pings that were
-- attempted, the abandoned ones of a truncated interval left out; the samples are the round trips
-- of the pings with a reply within the timeout, in ascending order; `Received` is their number, and
-- is at most `Sent`.
pub finalize-IsFigures :
    (c : Collector) (spec : TargetSpec) (bucket : ℤ) (cond : Conditions) (now : Instant)
    → IsFigures c spec cond now (finalize c spec bucket cond now).1
unfolding finalize measurement_of
finalize-IsFigures c spec bucket cond now =
    let samples = tallied-samples c spec cond now in
    let received = ap (λ (s : List ℕ). length s) samples ∙ length-round_trips (replies c spec) in
    let sent = tallied-sent c spec cond now in
    record {
      sent = sent;
      received = received;
      samples = ap (sort_by leb) samples;
      counted = sym (length-sort_by leb (tallied c spec cond now).samples);
      bounded =
          rw (received, sent)
            (keep-le (timeout_of spec) cond.truncated (add now (wrap64 (pos 0 -ℤ timeout_of spec)))
              c.pings);
    }

-- The samples of a finalized measurement can be stored: none is longer than the timeout, and the
-- codec of the store encodes them and gives them back.
pub finalize-decode :
    (c : Collector) (spec : TargetSpec) (bucket : ℤ) (cond : Conditions) (now : Instant)
    → let samples = (finalize c spec bucket cond now).1.samples in
      All (λ s. s * 1000 ≤ pos_part (timeout_of spec)) samples
      × ((do blob ← encode samples; decode blob) ≡ ok samples)
finalize-decode c spec bucket cond now =
    let figures = finalize-IsFigures c spec bucket cond now in
    let kept = round_trips (replies c spec) in
    let each =
      All-sort_by leb (IsSample (timeout_of spec)) kept
        (round_trips-IsSample (timeout_of spec) c.pings) in
    let short =
      All-map (IsSample (timeout_of spec)) (λ s. s * 1000 ≤ pos_part (timeout_of spec)) (λ s h. h.1)
        _ each in
    let small = All-map (IsSample (timeout_of spec)) (λ s. s ≤ max_uint32) (λ s h. h.0) _ each in
    let back : IsSamples (sort_by leb kept) = (sort_by-SortedFrom kept, small) in
    rw figures.samples (short, decode-encode (sort_by leb kept) back)
