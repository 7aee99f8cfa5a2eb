-- ===== src/Probe/Collector.antt =====
-- The collector of internal/probe/scheduler.go: the pings of one interval and the replies to them.
-- Each method is a function on its state; `none` is the panic of an index out of range. A method
-- takes the collector's lock for its whole run, so a run is a sequence of calls.
use smokeng.Common.{
  ℕ, zero, suc, ◌+◌, Bool, true, false, not, Option, none, some, List, [], ◌∷◌, if◌then◌else◌,
  modify?,
}
use mathlib.Core.Option
use smokeng.Common.Sort.{sort_by}
use smokeng.Common.Int.{ℤ, pos, ◌-ℤ◌, leb_ℤ}
use smokeng.Common.Text.{same}
use smokeng.Probe.Clock.{Instant, zero_time, is_zero, add, strip}

pub record Ping : Type 0 where
  pub token : List ℕ
  pub sent : Bool
  pub send_failed : Bool
  pub seq : ℕ
  pub tx_user : Instant
  pub tx_kern : Instant
  pub rx : Instant
  pub rx_kernel : Bool
  pub icmp_err : Bool
  pub icmp_type : ℕ
  pub icmp_code : ℕ
  pub send_reason : ℕ

abbrev pub Series : Type 0
Series = List (List ℕ × List ℤ)

-- `late` is what this collector has added to the counter that the collectors share.
pub record Collector : Type 0 where
  pub done : Bool
  pub pings : List Ping
  pub late : ℕ
  pub start_wall : Instant
  pub start_mono : Instant
  pub series : Option Series

-- A ping as `make` and `rand.Read` leave it.
unfoldable pub new_ping : List ℕ → Ping
new_ping token = record {
  token = token;
  sent = false;
  send_failed = false;
  seq = 0;
  tx_user = zero_time;
  tx_kern = zero_time;
  rx = zero_time;
  rx_kernel = false;
  icmp_err = false;
  icmp_type = 0;
  icmp_code = 0;
  send_reason = 0;
}

-- `n` pings, each with the token that the source of randomness gives it.
unfoldable pub new_pings : (ℕ → List ℕ) → ℕ → List Ping
unfolding new_ping
new_pings random zero = []
new_pings random (suc n) = new_ping (random n) ∷ new_pings random n

unfoldable pub new_collector : (ℕ → List ℕ) → ℕ → Instant → Collector
unfolding new_pings
new_collector random n now = record {
  done = false;
  pings = new_pings random n;
  late = 0;
  start_wall = strip now;
  start_mono = now;
  series = none;
}

-- `f(&c.pings[idx])`
unfoldable pub at_ping : (Ping → Ping) → Collector → ℕ → Option Collector
at_ping f c idx = Option.map (λ pings. record c { pings = pings }) (modify? f c.pings idx)

unfoldable pub add_late : Collector → Collector
add_late c = record c { late = c.late + 1 }

unfoldable pub put_series : List ℕ → List ℤ → Series → Series
put_series name vals [] = (name, vals) ∷ []
put_series name vals ((n, v) ∷ rest) =
    let rest' = put_series name vals rest in
    if same n name then (name, vals) ∷ rest else (n, v) ∷ rest'

abbrev pub or_empty : Option Series → Series
or_empty none = []
or_empty (some s) = s

unfoldable pub record_series : List ℕ → List ℤ → Bool → Collector → Collector
unfolding put_series
record_series name vals measured c =
    if not measured
    then c
    else record c { series = some (put_series name (sort_by leb_ℤ vals) (or_empty c.series)) }

unfoldable pub mark_sent : ℕ → ℕ → Instant → Collector → Option Collector
unfolding at_ping
mark_sent idx seq tx_user c =
    at_ping (λ p. record p { sent = true; seq = seq; tx_user = tx_user }) c idx

unfoldable pub mark_send_failed : ℕ → ℕ → Collector → Option Collector
unfolding at_ping
mark_send_failed idx reason c =
    at_ping (λ p. record p { sent = true; send_failed = true; send_reason = reason }) c idx

-- A write that a reply already in hand prevents.
unfoldable pub unless_answered : (Ping → Ping) → Ping → Ping
unless_answered f p = if not (is_zero p.rx) then p else f p

unfoldable pub receive : Instant → Bool → Ping → Ping
receive t kernel p = record p { rx = t; rx_kernel = kernel }

unfoldable pub on_rx : ℕ → Instant → Bool → Collector → Option Collector
unfolding at_ping add_late unless_answered receive
on_rx idx t kernel c =
    if c.done then some (add_late c) else at_ping (unless_answered (receive t kernel)) c idx

unfoldable pub round_trip_at : Instant → ℤ → Ping → Ping
round_trip_at now rtt p = record p {
  sent = true;
  tx_user = add now (pos 0 -ℤ rtt);
  rx = now;
  rx_kernel = false;
}

unfoldable pub record_round_trip : ℕ → ℤ → Instant → Collector → Option Collector
unfolding at_ping add_late unless_answered round_trip_at
record_round_trip idx rtt now c =
    if c.done then some (add_late c) else at_ping (unless_answered (round_trip_at now rtt)) c idx

unfoldable pub refuse : ℕ → ℕ → Ping → Ping
refuse icmp_type code p = record p { icmp_err = true; icmp_type = icmp_type; icmp_code = code }

unfoldable pub on_icmp_error : ℕ → ℕ → ℕ → Collector → Option Collector
unfolding at_ping unless_answered refuse
on_icmp_error idx icmp_type code c =
    if c.done then some c else at_ping (unless_answered (refuse icmp_type code)) c idx

unfoldable pub on_tx_kernel : ℕ → Instant → Collector → Option Collector
unfolding at_ping
on_tx_kernel idx t c = if not c.done then at_ping (λ p. record p { tx_kern = t }) c idx else some c
