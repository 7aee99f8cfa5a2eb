-- ===== src/Probe/Specs.antt =====
-- `loadSpecs` and `validateSpec` of internal/probe/engine.go, with `irttStep` of irttprobe.go: what the
-- local prober measures of a tree, and how. Which targets are left out, and why, is logged only.
use smokeng.Common.{
  ℕ, Bool, true, false, not, ◌&&◌, Option, none, some, List, [], ◌∷◌, any, if◌then◌else◌,
}
use smokeng.Common.Int.{ℤ, pos, leb_ℤ, ltb_ℤ, eq_ℤ, mul64}
use smokeng.Common.Text.{codes, same, fields}
use smokeng.Common.Result.{Result, ok, ◌>>=◌}
use smokeng.Tree.Model.{Target, Tree, Resolved, TreeError}
use smokeng.Tree.Build.{build, resolve}
use smokeng.Probe.Clock.{div64}
use smokeng.Probe.Schedule.{TargetSpec, second, millisecond, is_spread}

-- A host that is set, of a target that is enabled.
unfoldable pub is_measured : Target → Bool
is_measured n = elim n.host [ none ↦ false | some h ↦ n.enabled ]

-- An accepted tree has the address family beside the host, so that neither pointer is nil here.
abbrev pub text_of : Option (List ℕ) → List ℕ
text_of none = []
text_of (some v) = v

unfoldable pub is_local : Resolved → Bool
is_local res = any (same (codes "local")) (fields res.agents.effective)

unfoldable pub spec_of : Target → Resolved → TargetSpec
spec_of n res = record {
  target_id = pos n.id;
  host = text_of n.host;
  family = text_of n.address_family;
  interval_s = res.interval_s.effective;
  pings = res.pings_per_interval.effective;
  mode = res.probe_mode.effective;
  burst_gap_ms = res.burst_gap_ms.effective;
  timeout_ms = res.timeout_ms.effective;
  packet_size = res.packet_size.effective;
  dscp = res.dscp.effective;
  trace_interval_s = res.trace_interval_s.effective;
  probe_type = res.probe_type.effective;
  probe_port = res.probe_port.effective;
  dns_query = res.dns_query.effective;
  dns_rr_type = res.dns_rr_type.effective;
  http_path = res.http_path.effective;
  tls_skip_verify = res.tls_skip_verify.effective;
}

-- irttStep, whose test keeps its division from one by 0.
unfoldable pub irtt_step : TargetSpec → ℤ
unfolding is_spread
irtt_step spec =
    if is_spread spec && ltb_ℤ (pos 0) spec.pings
    then elim (div64 (mul64 spec.interval_s second) spec.pings) [ none ↦ pos 0 | some d ↦ d ]
    else mul64 spec.burst_gap_ms millisecond

abbrev pub plain_types : List (List ℕ)
plain_types = [] ∷ codes "icmp" ∷ codes "dns" ∷ codes "http" ∷ codes "https" ∷ []

-- validateSpec returns no error.
unfoldable pub is_valid_spec : TargetSpec → Bool
unfolding irtt_step
is_valid_spec spec =
    if any (same spec.probe_type) plain_types
    then true
    else if same spec.probe_type (codes "tcp")
    then not (eq_ℤ spec.probe_port (pos 0))
    else if same spec.probe_type (codes "irtt")
    then not (leb_ℤ (irtt_step spec) (pos 0))
    else false

-- The specs of the targets that are measured from here; the map is the list of its entries.
unfoldable pub specs_of : Tree → List Target → Result TreeError (List TargetSpec)
unfolding is_measured is_local spec_of is_valid_spec
specs_of t [] = ok []
specs_of t (n ∷ targets) =
    let rest = specs_of t targets in
    if is_measured n
    then (do
      res ← resolve t n.id
      specs ← rest
      ok (if is_local res && is_valid_spec (spec_of n res) then spec_of n res ∷ specs else specs))
    else rest

unfoldable pub load_specs : List Target → Result TreeError (List TargetSpec)
unfolding specs_of
load_specs targets = do t ← build targets; specs_of t targets
