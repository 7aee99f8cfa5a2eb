-- ===== src/Probe/Schedule.antt =====
-- `bucketStart`, `phaseOffset` and `sendTimes` of internal/probe/scheduler.go.
use smokeng.Common.{
  ℕ, zero, suc, ◌+◌, ◌*◌, ◌/◌, ◌%◌, ◌^◌, ◌-◌, Bool, Option, none, some, List, [], ◌∷◌,
  if◌then◌else◌,
}
use Prim.Native.Nat.{bit_xor}
use smokeng.Common.Int.{ℤ, pos, negsuc, ◌-ℤ◌, mul64}
use smokeng.Common.Int.{wrap64, ◌*ℤ◌}
use mathlib.Core.Option
use smokeng.Common.Text.{codes, same}
use smokeng.Probe.Clock.{Instant, add, div64}

-- What a probe is told about its target.
pub record TargetSpec : Type 0 where
  pub target_id : ℤ
  pub interval_s : ℤ
  pub pings : ℤ
  pub mode : List ℕ
  pub burst_gap_ms : ℤ
  pub timeout_ms : ℤ
  pub host : List ℕ
  pub family : List ℕ
  pub packet_size : ℤ
  pub dscp : ℤ
  pub trace_interval_s : ℤ
  pub probe_type : List ℕ
  pub probe_port : ℤ
  pub dns_query : List ℕ
  pub dns_rr_type : List ℕ
  pub http_path : List ℕ
  pub tls_skip_verify : Bool

-- t % iv of `int64`s with a positive divisor: the remainder has the sign of `t`.
abbrev pub rem : ℤ → ℕ → ℤ
rem (pos n) k = pos (n % k)
rem (negsuc n) k = pos 0 -ℤ pos ((n + 1) % k)

-- For an interval that is positive, as every accepted tree has it.
unfoldable pub bucket_start : ℤ → ℕ → ℤ
bucket_start t interval_s = t -ℤ rem t interval_s

-- The eight bytes of `binary.LittleEndian.PutUint64`.
unfoldable pub little_endian : ℕ → ℕ → List ℕ
little_endian zero v = []
little_endian (suc n) v = v % 256 ∷ little_endian n (v / 256)

-- `hash/fnv`, New64a.
unfoldable pub fnv64a : ℕ → List ℕ → ℕ
fnv64a h [] = h
fnv64a h (b ∷ bytes) = fnv64a ((bit_xor h b * 1099511628211) % 2 ^ 64) bytes

abbrev pub unsigned64 : ℤ → ℕ
unsigned64 (pos n) = n % 2 ^ 64
unsigned64 (negsuc n) = 2 ^ 64 - 1 - n % 2 ^ 64

-- The hash of a target's id.
unfoldable pub hash_of : ℤ → ℕ
unfolding little_endian fnv64a
hash_of id = fnv64a 14695981039346656037 (little_endian 8 (unsigned64 id))

abbrev pub second : ℤ
second = pos 1000000000

abbrev pub millisecond : ℤ
millisecond = pos 1000000

unfoldable pub is_spread : TargetSpec → Bool
is_spread spec = same spec.mode (codes "spread")

-- The room that a bucket leaves for its phase; `none` is the panic of a division by 0.
unfoldable pub window : TargetSpec → Option ℤ
unfolding is_spread
window spec =
    if is_spread spec
    then div64 (mul64 spec.interval_s second) spec.pings
    else some (
        wrap64 (
          mul64 spec.interval_s second -ℤ mul64 (mul64 spec.pings (spec.burst_gap_ms)) millisecond))

abbrev pub within : ℕ → ℤ → ℤ
within hash (pos zero) = pos 0
within hash (pos (suc n)) = pos (hash % suc n)
within hash (negsuc n) = pos 0

unfoldable pub phase_offset : TargetSpec → Option ℤ
unfolding window hash_of
phase_offset spec = Option.map (within (hash_of spec.target_id)) (window spec)

-- The time between two sends of a bucket.
unfoldable pub step_of : TargetSpec → Option ℤ
unfolding is_spread
step_of spec =
    if is_spread spec
    then div64 (mul64 spec.interval_s second) spec.pings
    else some (mul64 spec.burst_gap_ms millisecond)

-- The rounds of the loop from round `i`.
unfoldable pub sends_from : Instant → ℤ → ℕ → ℕ → List Instant
sends_from start step i zero = []
sends_from start step i (suc n) = add start (mul64 (pos i) step) ∷ sends_from start step (suc i) n

-- `make` with a negative length panics, as a division by 0 does.
unfoldable pub train : Instant → ℤ → ℤ → Option (List Instant)
unfolding sends_from
train start step (pos n) = some (sends_from start step 0 n)
train start step (negsuc n) = none

unfoldable pub send_times : TargetSpec → ℤ → Option (List Instant)
unfolding phase_offset step_of train
send_times spec bucket = elim (phase_offset spec) [
  | none ↦ none
  | some phase ↦ elim (step_of spec) [
    | none ↦ none
    | some step ↦
        train (add (record { wall = bucket *ℤ second; mono = none }) phase) step spec.pings
  ]
]
