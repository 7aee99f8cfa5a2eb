-- ===== src/Scenarios/Probes.antt =====
-- The collector and the schedule of a probe at concrete pings and settings.
use smokeng.Common.{
  ℕ, ◌*◌, ◌≤◌, modify?, ◌≡◌, refl, true, false, none, some, List, [], ◌∷◌, All, any, keep,
}
use smokeng.Common.Sort.{sort_by}
use smokeng.Common.Int.{pos, pos_part, ◌*ℤ◌, ◌-ℤ◌, mul64, wrap64}
use smokeng.Common.Text.{codes}
use smokeng.Common.Result.{ok, ◌>>=◌}
use smokeng.Enc.Samples.{encode, decode}
use smokeng.Probe.Clock.{Instant, zero_time, is_zero, sub}
use smokeng.Probe.Schedule.{TargetSpec, bucket_start}
use smokeng.Probe.Collector.{Collector, Ping}
use smokeng.Probe.Finalize.{Conditions, finalize, timeout_of}
use smokeng.Probe.Mode.{bump, mode_of}
use smokeng.Probe.Tallies.{Names}
use smokeng.Probe.Figures.{IsFigures, finalize-IsFigures, finalize-decode}
use smokeng.Probe.Causes.{finalize-Names}
use smokeng.Probe.Runs.{Call, reply, icmp, kernel_tx, finalizing, run}
use smokeng.Probe.Replies.{Leaves, run-Leaves}
use smokeng.Probe.Closed.{IsClosed, run-IsClosed}

-- Three pings 20 ms apart in bursts every minute.
abbrev spec : TargetSpec
spec = record {
  target_id = pos 7;
  interval_s = pos 60;
  pings = pos 3;
  mode = codes "burst";
  burst_gap_ms = pos 20;
  timeout_ms = pos 1000;
  host = codes "9.9.9.9";
  family = codes "v4";
  packet_size = pos 56;
  dscp = pos 0;
  trace_interval_s = pos 0;
  probe_type = codes "icmp";
  probe_port = pos 0;
  dns_query = [];
  dns_rr_type = [];
  http_path = [];
  tls_skip_verify = false;
}

abbrev at : ℕ → Instant
at ns = record { wall = pos ns; mono = none }

abbrev whole : Conditions
whole = record { raw_socket = false; overflowed = false; truncated = false }

-- One ping is answered, one draws an ICMP error, and one cannot be sent.
abbrev ping : Ping
ping = record {
  token = [];
  sent = true;
  send_failed = false;
  seq = 1;
  tx_user = at 2000;
  tx_kern = zero_time;
  rx = at 702000;
  rx_kernel = true;
  icmp_err = false;
  icmp_type = 0;
  icmp_code = 0;
  send_reason = 0;
}

abbrev refused : Ping
refused = record ping {
  tx_user = at 20002000;
  rx = zero_time;
  icmp_err = true;
  icmp_type = 3;
  icmp_code = 1;
}

abbrev unsent : Ping
unsent = record ping { rx = zero_time; send_failed = true; send_reason = 3 }

abbrev collected : Collector
collected = record {
  done = false;
  pings = ping ∷ refused ∷ unsent ∷ [];
  late = 0;
  start_wall = at 1000;
  start_mono = at 1000;
  series = none;
}

finalize-IsFigures_example :
    IsFigures collected spec whole
      (at 60000000000)
      (finalize collected spec (pos 0) whole (at 60000000000)).1
finalize-IsFigures_example = finalize-IsFigures collected spec (pos 0) whole (at 60000000000)

finalize-decode_example :
    All (λ s. s * 1000 ≤ pos_part (timeout_of spec)) (700 ∷ [])
    × ((do blob ← encode (700 ∷ []); decode blob) ≡ ok (700 ∷ []))
unfolding finalize keep is_zero bump sub ◌-ℤ◌ mul64 wrap64 ◌*ℤ◌ mode_of sort_by
finalize-decode_example = finalize-decode collected spec (pos 0) whole (at 60000000000)

finalize-Names_example : Names (769 ∷ []) (some 769) × Names (3 ∷ []) (some 3)
unfolding finalize keep is_zero bump sub ◌-ℤ◌ mul64 wrap64 ◌*ℤ◌ mode_of
finalize-Names_example = finalize-Names collected spec (pos 0) whole (at 60000000000)

-- A duplicate reply and a late ICMP error, then the end of the interval and one more reply.
abbrev more : List Call
more =
    reply 0 (at 900000) true
    ∷ icmp 0 3 1
    ∷ finalizing spec (pos 0) whole (at 60000000000)
    ∷ reply 1 (at 61000000000) false
    ∷ []

run-Leaves_example : Leaves false collected (record collected { done = true; late = 1 })
unfolding run modify? finalize is_zero any
run-Leaves_example = run-Leaves more collected (record collected { done = true; late = 1 }) refl

abbrev closed : Collector
closed = record collected { done = true }

abbrev after_end : List Call
after_end = reply 1 (at 61000000000) false ∷ kernel_tx 1 (at 2500) ∷ []

run-IsClosed_example : IsClosed after_end closed (record closed { late = 1 }) 1
unfolding run keep
run-IsClosed_example = run-IsClosed after_end closed (record closed { late = 1 }) refl refl

bucket_run : bucket_start (pos 1234) 60 ≡ pos 1200
unfolding bucket_start ◌-ℤ◌
bucket_run = refl
