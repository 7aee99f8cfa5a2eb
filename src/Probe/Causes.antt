-- ===== src/Probe/Causes.antt =====
-- Which ICMP error, and which reason for a failed sending, a finalized measurement names.
use smokeng.Common.{ℕ, ◌+◌, ◌≡◌, refl, Bool, not, ◌&&◌, List, [], ◌∷◌, arith, ◌==◌, keep, map}
use smokeng.Common.Int.{ℤ, pos, ◌-ℤ◌, wrap64}
use smokeng.Probe.Clock.{Instant, add}
use smokeng.Probe.Schedule.{TargetSpec}
use smokeng.Probe.Collector.{Ping, Collector}
use smokeng.Probe.Finalize.{
  Conditions, Tally, attempted, tally_reply, tally_failure, tally_error, tally_attempt, tally_ping,
  tally, tallied, timeout_of, finalize, start_tally, measurement_of, icmp_error_of,
}
use smokeng.Probe.Tallies.{bump_all, Names, mode_if_any-Names}
use smokeng.Probe.Figures.{attempts}

-- The ping was put on the wire and drew an ICMP error.
abbrev pub drew_error : Ping → Bool
drew_error p = not p.send_failed && p.icmp_err

-- The sending failed, for a reason that was recorded.
abbrev pub has_reason : Ping → Bool
has_reason p = p.send_failed && not (p.send_reason == 0)

abbrev pub error_code : Ping → ℕ
error_code p = icmp_error_of p.icmp_type p.icmp_code

abbrev pub reason : Ping → ℕ
reason p = p.send_reason

module _ (timeout : ℤ) (truncated : Bool) (deadline : Instant) where
  tally_reply-causes :
      (p : Ping) (t : Tally)
      → ((tally_reply timeout p t).err_counts ≡ t.err_counts)
        × ((tally_reply timeout p t).send_counts ≡ t.send_counts)
  unfolding tally_reply
  tally_reply-causes p t = (ground arith, ground arith)

  tally_ping-errors :
      (p : Ping) (t : Tally)
      → (tally_ping timeout truncated deadline p t).err_counts
        ≡ bump_all
            (map error_code (keep drew_error (keep (attempted truncated deadline) (p ∷ []))))
            t.err_counts
  unfolding tally_ping tally_attempt tally_failure tally_error keep bump_all
  tally_ping-errors p t =
      let counted : Tally = record t { sent = t.sent + 1 } in
      ground (arith, tally_reply-causes p (tally_error p counted))

  tally_ping-sends :
      (p : Ping) (t : Tally)
      → (tally_ping timeout truncated deadline p t).send_counts
        ≡ bump_all
            (map reason (keep has_reason (keep (attempted truncated deadline) (p ∷ []))))
            t.send_counts
  unfolding tally_ping tally_attempt tally_failure tally_error keep bump_all
  tally_ping-sends p t =
      let counted : Tally = record t { sent = t.sent + 1 } in
      ground (arith, tally_reply-causes p (tally_error p counted))

  tally-errors :
      (pings : List Ping) (t : Tally)
      → (tally timeout truncated deadline pings t).err_counts
        ≡ bump_all
            (map error_code (keep drew_error (keep (attempted truncated deadline) pings)))
            t.err_counts
  unfolding tally keep bump_all
  tally-errors [] t = refl
  tally-errors (p ∷ pings) t =
      ground (
        arith,
        tally_ping-errors p t,
        tally-errors pings (tally_ping timeout truncated deadline p t),
      )

  tally-sends :
      (pings : List Ping) (t : Tally)
      → (tally timeout truncated deadline pings t).send_counts
        ≡ bump_all
            (map reason (keep has_reason (keep (attempted truncated deadline) pings)))
            t.send_counts
  unfolding tally keep bump_all
  tally-sends [] t = refl
  tally-sends (p ∷ pings) t =
      ground
        (arith, tally_ping-sends p t, tally-sends pings (tally_ping timeout truncated deadline p t))

-- The cause that a finalized measurement names, for every collector: of the codes of the ICMP
-- errors that its attempted pings drew the commonest, the lowest of those that are as common, and
-- none exactly when they drew none; and likewise of the reasons recorded for sendings that failed.
pub finalize-Names :
    (c : Collector) (spec : TargetSpec) (bucket : ℤ) (cond : Conditions) (now : Instant)
    → let pings = attempts c spec cond now in
      let m = (finalize c spec bucket cond now).1 in
      Names (map error_code (keep drew_error pings)) m.icmp_err
      × Names (map reason (keep has_reason pings)) m.send_err
unfolding finalize measurement_of tallied start_tally
finalize-Names c spec bucket cond now =
    let pings = attempts c spec cond now in
    let deadline = add now (wrap64 (pos 0 -ℤ timeout_of spec)) in
    let errors =
      tally-errors (timeout_of spec) cond.truncated deadline c.pings (start_tally c cond now) in
    let sends =
      tally-sends (timeout_of spec) cond.truncated deadline c.pings (start_tally c cond now) in
    (
      rw errors (mode_if_any-Names (map error_code (keep drew_error pings))),
      rw sends (mode_if_any-Names (map reason (keep has_reason pings))),
    )
