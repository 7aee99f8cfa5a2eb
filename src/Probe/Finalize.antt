-- ===== src/Probe/Finalize.antt =====
-- `finalize` of internal/probe/scheduler.go: the measurement of an interval, with the flags of
-- internal/store/store.go. The lines that it logs are left out.
use smokeng.Common.{
  ℕ, ◌+◌, ◌*◌, ◌/◌, Bool, true, false, not, ◌&&◌, ◌||◌, Option, none, some, List, [], ◌∷◌, ◌++◌,
  if◌then◌else◌, ltb, leb, ◌==◌, length,
}
use smokeng.Common.Sort.{sort_by}
use smokeng.Common.Int.{ℤ, pos, ◌-ℤ◌, ltb_ℤ, mul64, pos_part, wrap64}
use smokeng.Enc.Samples.{max_uint32}
use smokeng.Probe.Clock.{Instant, is_zero, before, after, sub, add, strip, clock_stepped}
use smokeng.Probe.Schedule.{TargetSpec}
use smokeng.Probe.Collector.{Ping, Collector, Series}
use smokeng.Probe.Mode.{Counts, bump, mode_of}

pub record Conditions : Type 0 where
  pub raw_socket : Bool
  pub overflowed : Bool
  pub truncated : Bool

-- The bits of a measurement's `Flags`.
pub record Flags : Type 0 where
  pub userspace_tx : Bool
  pub userspace_rx : Bool
  pub raw_socket : Bool
  pub socket_overflow : Bool
  pub icmp_error : Bool
  pub clock_step : Bool
  pub send_failed : Bool
  pub truncated : Bool

pub record Measurement : Type 0 where
  pub target_id : ℤ
  pub agent_id : ℤ
  pub ts : ℤ
  pub sent : ℕ
  pub received : ℕ
  pub flags : Flags
  pub samples : List ℕ
  pub icmp_err : Option ℕ
  pub send_err : Option ℕ
  pub series : Option Series

-- The variables of the loop over the pings. The samples are those appended so far.
pub record Tally : Type 0 where
  pub sent : ℕ
  pub flags : Flags
  pub err_counts : Counts
  pub send_counts : Counts
  pub samples : List ℕ
  pub suspect_tx : ℕ

-- store.ICMPError
abbrev pub icmp_error_of : ℕ → ℕ → ℕ
icmp_error_of icmp_type code = icmp_type * 256 + code

-- Cut short by a shutdown, with its timeout still running.
unfoldable pub abandoned : Bool → Instant → Ping → Bool
abandoned truncated deadline p =
    truncated && is_zero p.rx && not p.send_failed && after p.tx_user deadline

-- A kernel transmit stamp that does not lie between the ping's own send and its reply.
unfoldable pub misfit : Ping → Bool
misfit p = not (is_zero p.tx_kern) && (before p.tx_kern p.tx_user || after p.tx_kern p.rx)

unfoldable pub no_kernel_tx : Ping → Bool
unfolding misfit
no_kernel_tx p = misfit p || is_zero p.tx_kern

unfoldable pub round_trip : Ping → ℤ
unfolding no_kernel_tx
round_trip p = sub p.rx (if no_kernel_tx p then p.tx_user else p.tx_kern)

-- rtt.Microseconds(), of a duration that is not negative, cut to a `uint32`.
unfoldable pub sample_of : ℤ → ℕ
sample_of rtt = let us = pos_part rtt / 1000 in if ltb max_uint32 us then max_uint32 else us

-- The part of a round that follows `if p.rx.IsZero()`.
unfoldable pub tally_reply : ℤ → Ping → Tally → Tally
unfolding misfit no_kernel_tx round_trip sample_of
tally_reply timeout p t =
    let rtt = round_trip p in
    let flags : Flags = record t.flags {
      userspace_tx = no_kernel_tx p || t.flags.userspace_tx;
      userspace_rx = not p.rx_kernel || t.flags.userspace_rx;
    } in
    let suspect_tx = if misfit p then t.suspect_tx + 1 else t.suspect_tx in
    if ltb_ℤ rtt (pos 0)
    then record t { suspect_tx = suspect_tx; flags = record flags { clock_step = true } }
    else if ltb_ℤ timeout rtt
    then record t { suspect_tx = suspect_tx; flags = flags }
    else record t {
      suspect_tx = suspect_tx;
      flags = flags;
      samples = t.samples ++ sample_of rtt ∷ [];
    }

unfoldable pub tally_failure : Ping → Tally → Tally
tally_failure p t = record t {
  flags = record t.flags { send_failed = true };
  send_counts = if p.send_reason == 0 then t.send_counts else bump p.send_reason t.send_counts;
}

unfoldable pub tally_error : Ping → Tally → Tally
tally_error p t =
    if p.icmp_err
    then record t { err_counts = bump (icmp_error_of p.icmp_type p.icmp_code) t.err_counts }
    else t

-- A round for a ping that counts as attempted.
unfoldable pub tally_attempt : ℤ → Ping → Tally → Tally
unfolding tally_reply tally_failure tally_error
tally_attempt timeout p t =
    if p.send_failed
    then tally_failure p t
    else if is_zero p.rx
    then tally_error p t
    else tally_reply timeout p (tally_error p t)

unfoldable pub attempted : Bool → Instant → Ping → Bool
unfolding abandoned
attempted truncated deadline p = p.sent && not (abandoned truncated deadline p)

unfoldable pub tally_ping : ℤ → Bool → Instant → Ping → Tally → Tally
unfolding attempted tally_attempt
tally_ping timeout truncated deadline p t =
    if attempted truncated deadline p
    then tally_attempt timeout p (record t { sent = t.sent + 1 })
    else t

unfoldable pub tally : ℤ → Bool → Instant → List Ping → Tally → Tally
unfolding tally_ping
tally timeout truncated deadline [] t = t
tally timeout truncated deadline (p ∷ pings) t =
    tally timeout truncated deadline pings (tally_ping timeout truncated deadline p t)

-- `if len(counts) > 0 { … = new(modeOf(counts)) }`
unfoldable pub mode_if_any : Counts → Option ℕ
mode_if_any [] = none
mode_if_any (e ∷ rest) = some (mode_of (e ∷ rest))

abbrev pub is_some : {A : Type 0} → Option A → Bool
is_some none = false
is_some (some _) = true

unfoldable pub timeout_of : TargetSpec → ℤ
timeout_of spec = mul64 spec.timeout_ms (pos 1000000)

unfoldable pub start_tally : Collector → Conditions → Instant → Tally
start_tally c cond now = record {
  sent = 0;
  flags = record {
    userspace_tx = false;
    userspace_rx = false;
    raw_socket = cond.raw_socket;
    socket_overflow = cond.overflowed;
    icmp_error = false;
    clock_step = clock_stepped (sub (strip now) c.start_wall) (sub now c.start_mono);
    send_failed = false;
    truncated = cond.truncated;
  };
  err_counts = [];
  send_counts = [];
  samples = [];
  suspect_tx = 0;
}

-- The tally after the loop.
unfoldable pub tallied : Collector → TargetSpec → Conditions → Instant → Tally
unfolding tally start_tally timeout_of
tallied c spec cond now =
    let deadline = add now (wrap64 (pos 0 -ℤ timeout_of spec)) in
    tally (timeout_of spec) cond.truncated deadline c.pings (start_tally c cond now)

unfoldable pub measurement_of : Collector → TargetSpec → ℤ → Tally → Measurement
unfolding mode_if_any
measurement_of c spec bucket t =
    let icmp_err = mode_if_any t.err_counts in
    record {
      target_id = spec.target_id;
      agent_id = pos 0;
      ts = bucket;
      sent = t.sent;
      received = length t.samples;
      flags = record t.flags { icmp_error = is_some icmp_err };
      samples = sort_by leb t.samples;
      icmp_err = icmp_err;
      send_err = mode_if_any t.send_counts;
      series = c.series;
    }

unfoldable pub finalize :
    Collector → TargetSpec → ℤ → Conditions → Instant → Collector × Measurement
unfolding tallied measurement_of
finalize c spec bucket cond now =
    (record c { done = true }, measurement_of c spec bucket (tallied c spec cond now))
