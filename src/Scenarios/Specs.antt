-- ===== src/Scenarios/Specs.antt =====
-- What the engine loads from a small tree.
use smokeng.Common.{
  ℕ, ◌*◌, ◌≡◌, refl, inl, false, some, List, [], ◌∷◌, All, arith, length, find, any,
}
use smokeng.Common.Int.{pos, ◌*ℤ◌}
use smokeng.Common.Text.{codes, fields, same}
use smokeng.Common.Result.{ok}
use smokeng.Tree.Model.{get}
use smokeng.Tree.Build.{resolve, ancestry_of, resolve_chain, resolve_value}
use smokeng.Probe.Clock.{Instant}
use smokeng.Probe.Schedule.{TargetSpec, second, send_times}
use smokeng.Probe.Timing.{IsTimed, Inside}
use smokeng.Probe.Specs.{load_specs}
use smokeng.Probe.Loaded.{load_specs-Inside}
use smokeng.Scenarios.Trees.{targets, built}

abbrev quad9 : TargetSpec
quad9 = record {
  target_id = pos 3;
  interval_s = pos 30;
  pings = pos 20;
  mode = codes "burst";
  burst_gap_ms = pos 100;
  timeout_ms = pos 1000;
  host = codes "9.9.9.9";
  family = codes "v4";
  packet_size = pos 56;
  dscp = pos 0;
  trace_interval_s = pos 300;
  probe_type = codes "icmp";
  probe_port = pos 0;
  dns_query = [];
  dns_rr_type = [];
  http_path = [];
  tls_skip_verify = false;
}

loaded : load_specs targets ≡ ok (quad9 ∷ [])
unfolding load_specs resolve get find ancestry_of any fields resolve_chain resolve_value same
loaded = rw built refl

load_specs-Inside_example :
    (i p g : ℕ) × IsTimed quad9 i p g
    × (times : List Instant) × (send_times quad9 (pos 1200) ≡ some times)
    × All (Inside (pos 1200 *ℤ second) (i * 1000000000)) times
    × (length times ≡ p)
load_specs-Inside_example =
    load_specs-Inside targets (quad9 ∷ []) quad9 (pos 1200) loaded (inl refl) (omega arith)
      (omega arith)
