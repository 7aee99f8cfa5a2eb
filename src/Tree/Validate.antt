-- ===== src/Tree/Validate.antt =====
-- `(*Target).Validate` and `(*Resolved).validateTiming` of internal/tree/tree.go.
use smokeng.Common.{
  ℕ, Bool, true, false, not, ◌&&◌, ◌||◌, Option, none, some, List, [], ◌∷◌, any, ◌==◌,
}
use smokeng.Common.Int.{pos, ltb_ℤ, leb_ℤ, mul64}
use smokeng.Common.Text.{codes, same, trim_space, to_upper}
use smokeng.Common.Result.{Result, ok, err, ◌>>◌, fail_if}
use smokeng.Series.{parse_selection}
use smokeng.Tree.Model.{
  Settings, Target, Resolved, FieldError, name_required, name_slash, host_family, family,
  probe_mode_unknown, interval_not_positive, pings_range, burst_gap_negative, timeout_not_positive,
  timeout_too_long, packet_size_range, dscp_range, probe_type_unknown, probe_port_range,
  dns_rr_type_unknown, agents_empty, graph_series_bad, trace_negative, retention_negative,
}

-- A check on a field that may be unset: `s.F != nil && bad(*s.F)`.
abbrev pub set_and : {A : Type 0} → Option A → (A → Bool) → Bool
set_and none bad = false
set_and (some v) bad = bad v

abbrev pub is_set : {A : Type 0} → Option A → Bool
is_set none = false
is_set (some _) = true

-- One of the texts.
unfoldable pub one_of : List (List ℕ) → List ℕ → Bool
one_of texts v = any (λ t. same t v) texts

abbrev pub probe_modes : List (List ℕ)
probe_modes = codes "burst" ∷ codes "spread" ∷ []

abbrev pub families : List (List ℕ)
families = codes "v4" ∷ codes "v6" ∷ []

abbrev pub probe_types : List (List ℕ)
probe_types =
    codes "icmp" ∷ codes "dns" ∷ codes "tcp" ∷ codes "http" ∷ codes "https" ∷ codes "irtt" ∷ []

abbrev pub rr_types : List (List ℕ)
rr_types =
    codes "A"
    ∷ codes "AAAA"
    ∷ codes "CNAME"
    ∷ codes "MX"
    ∷ codes "NS"
    ∷ codes "PTR"
    ∷ codes "SOA"
    ∷ codes "SRV"
    ∷ codes "TXT"
    ∷ []

abbrev selection_fails : List ℕ → Bool
selection_fails v = elim (parse_selection v) [ ok _ ↦ false | err _ ↦ true ]

abbrev differ : Bool → Bool → Bool
differ true b = not b
differ false b = b

-- The checks on the node itself.
unfoldable pub validate_node : Target → Result FieldError (Unit {0})
unfolding one_of
validate_node t = do
  fail_if (same (trim_space t.name) [] && is_set t.parent_id) name_required
  fail_if (any (λ c. c == b'/') t.name) name_slash
  fail_if (differ (is_set t.host) (is_set t.address_family)) host_family
  fail_if (set_and t.address_family (λ v. not (one_of families v))) family

-- The checks on its settings up to `dscp`.
unfoldable pub validate_timing_fields : Settings → Result FieldError (Unit {0})
unfolding one_of
validate_timing_fields s = do
  fail_if (set_and s.probe_mode (λ v. not (one_of probe_modes v))) probe_mode_unknown
  fail_if (set_and s.interval_s (λ v. leb_ℤ v (pos 0))) interval_not_positive
  fail_if (set_and s.pings_per_interval (λ v. leb_ℤ v (pos 0) || ltb_ℤ (pos 65535) v)) pings_range
  fail_if (set_and s.burst_gap_ms (λ v. ltb_ℤ v (pos 0))) burst_gap_negative
  fail_if (set_and s.timeout_ms (λ v. leb_ℤ v (pos 0))) timeout_not_positive
  fail_if (set_and s.timeout_ms (λ v. ltb_ℤ (pos 600000) v)) timeout_too_long
  fail_if (set_and s.packet_size (λ v. ltb_ℤ v (pos 12) || ltb_ℤ (pos 65000) v)) packet_size_range
  fail_if (set_and s.dscp (λ v. ltb_ℤ v (pos 0) || ltb_ℤ (pos 63) v)) dscp_range

-- The rest of them.
unfoldable pub validate_probe_fields : Settings → Result FieldError (Unit {0})
unfolding one_of
validate_probe_fields s = do
  fail_if (set_and s.probe_type (λ v. not (one_of probe_types v))) probe_type_unknown
  fail_if (set_and s.probe_port (λ v. ltb_ℤ v (pos 1) || ltb_ℤ (pos 65535) v)) probe_port_range
  fail_if (set_and s.dns_rr_type (λ v. not (one_of rr_types (to_upper v)))) dns_rr_type_unknown
  fail_if (set_and s.agents (λ v. same (trim_space v) [])) agents_empty
  fail_if (set_and s.graph_series selection_fails) graph_series_bad
  fail_if (set_and s.trace_interval_s (λ v. ltb_ℤ v (pos 0))) trace_negative
  fail_if (set_and s.retention_s (λ v. ltb_ℤ v (pos 0))) retention_negative

unfoldable pub validate : Target → Result FieldError (Unit {0})
unfolding validate_node validate_timing_fields validate_probe_fields
validate t = do validate_node t; validate_timing_fields t.settings; validate_probe_fields t.settings

-- The pings of a burst, `burst_gap_ms` apart, do not fit in the interval. The products are those of
-- a 64-bit `int`.
unfoldable pub burst_does_not_fit : Resolved → Bool
burst_does_not_fit r =
    same r.probe_mode.effective (codes "burst")
    && leb_ℤ (mul64 r.interval_s.effective (pos 1000))
        (mul64 r.pings_per_interval.effective r.burst_gap_ms.effective)
