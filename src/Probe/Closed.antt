-- ===== src/Probe/Closed.antt =====
-- Calls of a collector that is finalized.
use smokeng.Common.{
  ℕ, ◌+◌, ◌≡◌, refl, sym, ◌∙◌, ap, modify?, Option, none, Bool, true, false, some, List, [], ◌∷◌,
  arith, length, keep, Option-cases, inl, inr, if◌then◌else◌,
}
use mathlib.Core.Path.{subst}
use smokeng.Common.Int.{ℤ}
use smokeng.Probe.Clock.{Instant}
use smokeng.Probe.Collector.{
  Ping, Collector, at_ping, add_late, record_series, mark_sent, mark_send_failed, on_rx,
  record_round_trip, on_icmp_error, on_tx_kernel,
}
use smokeng.Probe.Finalize.{finalize}
use smokeng.Probe.Runs.{
  Call, sending, send_failing, reply, measured_reply, icmp, kernel_tx, series_of, finalizing, call,
  run, some_ne_none,
}

-- What the sends of a run write into the pings, and nothing else; `none` is an index out of range.
unfoldable pub sends_only : List Call → List Ping → Option (List Ping)
sends_only [] ps = some ps
sends_only (sending idx seq tx_user ∷ calls) ps =
    elim (modify? (λ p. record p { sent = true; seq = seq; tx_user = tx_user }) ps idx) [
      | none ↦ none
      | some qs ↦ sends_only calls qs
    ]
sends_only (send_failing idx reason ∷ calls) ps =
    elim (modify? (λ p. record p { sent = true; send_failed = true; send_reason = reason }) ps
      idx) [ none ↦ none | some qs ↦ sends_only calls qs ]
sends_only (reply idx t kernel ∷ calls) ps = sends_only calls ps
sends_only (measured_reply idx rtt now ∷ calls) ps = sends_only calls ps
sends_only (icmp idx icmp_type code ∷ calls) ps = sends_only calls ps
sends_only (kernel_tx idx t ∷ calls) ps = sends_only calls ps
sends_only (series_of name vals measured ∷ calls) ps = sends_only calls ps
sends_only (finalizing spec bucket cond now ∷ calls) ps = sends_only calls ps

-- A reply, by either method.
abbrev pub is_reply : Call → Bool
is_reply (reply idx t kernel) = true
is_reply (measured_reply idx rtt now) = true
is_reply (sending idx seq tx_user) = false
is_reply (send_failing idx reason) = false
is_reply (icmp idx icmp_type code) = false
is_reply (kernel_tx idx t) = false
is_reply (series_of name vals measured) = false
is_reply (finalizing spec bucket cond now) = false

-- What a run leaves: `replies` of its calls were replies.
pub record IsClosed (calls : List Call) (c d : Collector) (replies : ℕ) : Type 0 where
  pub done : d.done ≡ true
  pub pings : sends_only calls c.pings ≡ some d.pings
  pub late : d.late ≡ c.late + replies

-- A send, as a write of the pings.
at_ping-pings :
    (f : Ping → Ping) (c d : Collector) (i : ℕ)
    → at_ping f c i ≡ some d
    → (modify? f c.pings i ≡ some d.pings) × (d.done ≡ c.done) × (d.late ≡ c.late)
unfolding at_ping
at_ping-pings f c d i h = elim (Option-cases (modify? f c.pings i)) [
  | inl stops ↦ absurd (some_ne_none (rw (stops, at_ping) at h))
  | inr (ps, e) ↦
      let is : record c { pings = ps } ≡ d = cc (rw (e, at_ping) at h) in
      subst
        (λ (x : Collector).
          (modify? f c.pings i ≡ some x.pings) × (x.done ≡ c.done) × (x.late ≡ c.late))
        is (e, refl, refl)
]

module _ (c : Collector) (closed : c.done ≡ true) where
  on_rx-done : (idx : ℕ) (t : Instant) (kernel : Bool) → on_rx idx t kernel c ≡ some (add_late c)
  unfolding on_rx
  on_rx-done idx t kernel = ground (arith, closed)

  record_round_trip-done :
      (idx : ℕ) (rtt : ℤ) (now : Instant) → record_round_trip idx rtt now c ≡ some (add_late c)
  unfolding record_round_trip
  record_round_trip-done idx rtt now = ground (arith, closed)

  on_icmp_error-done : (idx icmp_type code : ℕ) → on_icmp_error idx icmp_type code c ≡ some c
  unfolding on_icmp_error
  on_icmp_error-done idx icmp_type code = ground (arith, closed)

  on_tx_kernel-done : (idx : ℕ) (t : Instant) → on_tx_kernel idx t c ≡ some c
  unfolding on_tx_kernel
  on_tx_kernel-done idx t = ground (arith, closed)

record_series-pings :
    (name : List ℕ) (vals : List ℤ) (measured : Bool) (c : Collector)
    → ((record_series name vals measured c).pings ≡ c.pings)
      × ((record_series name vals measured c).late ≡ c.late)
      × ((record_series name vals measured c).done ≡ c.done)
unfolding record_series
record_series-pings name vals true c = (refl, refl, refl)
record_series-pings name vals false c = (refl, refl, refl)

-- What a call leaves of a collector that is finalized, of which `rest` is the rest of the run.
record Continues (m : Call) (calls : List Call) (c e : Collector) : Type 0 where
  done : e.done ≡ true
  pings :
      (ds : List Ping)
      → sends_only calls e.pings ≡ some ds
      → sends_only (m ∷ calls) c.pings ≡ some ds
  late : e.late ≡ c.late + (if is_reply m then 1 else 0)

same_pings :
    (m : Call) (calls : List Call) (c x e : Collector)
    → some x ≡ some e
    → ((ps : List Ping) → sends_only (m ∷ calls) ps ≡ sends_only calls ps)
    → x.done ≡ true
    → x.pings ≡ c.pings
    → x.late ≡ c.late + (if is_reply m then 1 else 0)
    → Continues m calls c e
same_pings m calls c x e h skip done pings late =
    let is : x ≡ e = cc h in
    subst (Continues m calls c) is (record {
      done = done;
      pings = λ ds k. skip c.pings ∙ ap (sends_only calls) (sym pings) ∙ k;
      late = late;
    })

call-Continues :
    (m : Call) (calls : List Call) (c e : Collector)
    → c.done ≡ true
    → call m c ≡ some e
    → Continues m calls c e
unfolding call mark_sent mark_send_failed finalize sends_only add_late
call-Continues (sending idx seq tx_user) calls c e closed h =
    let (wrote, done, late) =
      at_ping-pings (λ p. record p { sent = true; seq = seq; tx_user = tx_user }) c e idx h in
    record {
      done = done ∙ closed;
      pings = λ ds k. rw (wrote, sends_only) k;
      late = omega (arith, late);
    }
call-Continues (send_failing idx reason) calls c e closed h =
    let (wrote, done, late) =
      at_ping-pings (λ p. record p { sent = true; send_failed = true; send_reason = reason }) c e
        idx h in
    record {
      done = done ∙ closed;
      pings = λ ds k. rw (wrote, sends_only) k;
      late = omega (arith, late);
    }
call-Continues (reply idx t kernel) calls c e closed h =
    same_pings (reply idx t kernel) calls c (add_late c) e
      (sym (on_rx-done c closed idx t kernel) ∙ h) (λ ps. refl) closed refl refl
call-Continues (measured_reply idx rtt now) calls c e closed h =
    same_pings (measured_reply idx rtt now) calls c (add_late c) e
      (sym (record_round_trip-done c closed idx rtt now) ∙ h) (λ ps. refl) closed refl refl
call-Continues (icmp idx icmp_type code) calls c e closed h =
    same_pings (icmp idx icmp_type code) calls c c e
      (sym (on_icmp_error-done c closed idx icmp_type code) ∙ h) (λ ps. refl) closed refl
      (omega arith)
call-Continues (kernel_tx idx t) calls c e closed h =
    same_pings (kernel_tx idx t) calls c c e (sym (on_tx_kernel-done c closed idx t) ∙ h)
      (λ ps. refl) closed refl (omega arith)
call-Continues (series_of name vals measured) calls c e closed h =
    let (pings, late, done) = record_series-pings name vals measured c in
    same_pings (series_of name vals measured) calls c (record_series name vals measured c) e h
      (λ ps. refl) (done ∙ closed) pings (omega (arith, late))
call-Continues (finalizing spec bucket cond now) calls c e closed h =
    same_pings (finalizing spec bucket cond now) calls c (record c { done = true }) e h (λ ps. refl)
      refl refl (omega arith)

length-keep :
    (m : Call) (calls : List Call)
    → (if is_reply m then 1 else 0) + length (keep is_reply calls)
      ≡ length (keep is_reply (m ∷ calls))
unfolding keep
length-keep m calls = ground arith

-- After an interval is finalized, for every run of calls that does not panic: the collector stays
-- finalized, its pings are what the sends of the run alone make of them, so that no reply, ICMP
-- error or kernel stamp changes a ping in any field, and the counter of late replies has grown by
-- exactly the replies of the run.
pub run-IsClosed :
    (calls : List Call) (c d : Collector)
    → c.done ≡ true
    → run calls c ≡ some d
    → IsClosed calls c d (length (keep is_reply calls))
unfolding run keep sends_only
run-IsClosed [] c d closed h =
    let is : c ≡ d = cc h in
    subst (λ x. IsClosed [] c x 0) is (record { done = closed; pings = refl; late = omega arith })
run-IsClosed (m ∷ calls) c d closed h = elim (Option-cases (call m c)) [
  | inl stops ↦ absurd (some_ne_none (rw (stops, run) at h))
  | inr (e, first) ↦
      let step = call-Continues m calls c e closed first in
      let rest = run-IsClosed calls e d step.done (rw (first, run) at h) in
      record {
        done = rest.done;
        pings = step.pings d.pings rest.pings;
        late = omega (arith, step.late, rest.late, length-keep m calls);
      }
]
