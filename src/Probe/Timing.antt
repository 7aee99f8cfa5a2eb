-- ===== src/Probe/Timing.antt =====
-- Every ping of a bucket is sent inside the bucket.
use smokeng.Common.{
  ℕ, zero, suc, ◌+◌, ◌-◌, ◌*◌, ◌/◌, ◌%◌, ◌^◌, ◌≤◌, ◌<◌, ◌≡◌, ◌⊎◌, refl, sym, ◌∙◌, true, false, none,
  some, List, arith, All, length, inl, inr, Bool-cases,
}
use smokeng.Common.Int.{
  ℤ, pos, ◌+ℤ◌, ◌-ℤ◌, ◌*ℤ◌, ◌≤ℤ◌, ◌<ℤ◌, mul64, mul64-pos, wrap64, wrap64-pos, int_laws, -ℤ-pos,
}
use smokeng.Probe.Clock.{Instant, add, div64}
use smokeng.Probe.Schedule.{
  TargetSpec, second, millisecond, within, window, hash_of, is_spread, phase_offset, step_of,
  sends_from, train, send_times,
}

-- `t` lies in the `room` nanoseconds from `base` on.
pub record Inside (base : ℤ) (room : ℕ) (t : Instant) : Type 0 where
  pub from : base ≤ℤ t.wall
  pub before : t.wall <ℤ base +ℤ pos room

module _ (base : ℤ) (phase room step : ℕ) (small : room < 2 ^ 63) where
  start : Instant
  start = add (record { wall = base; mono = none }) (pos phase)

  send-Inside :
      (k : ℕ) → phase + k * step < room → Inside base room (add start (mul64 (pos k) (pos step)))
  unfolding add start
  send-Inside k h =
      let e = mul64-pos k step (omega arith) in
      rw e (record { from = omega int_laws; before = omega int_laws })

  sends_from-Inside :
      (i n : ℕ)
      → ((k : ℕ) → k < i + n → phase + k * step < room)
      → All (Inside base room) (sends_from start (pos step) i n)
        × (length (sends_from start (pos step) i n) ≡ n)
  unfolding sends_from
  sends_from-Inside i zero fits = (tt, refl)
  sends_from-Inside i (suc n) fits =
      let rest = sends_from-Inside (suc i) n (λ k h. fits k (omega arith)) in
      ((send-Inside i (fits i (omega arith)), rest.0), omega (arith, rest.1))

burst_fits :
    (phase window p step k : ℕ) → phase < window → k < p → phase + k * step < p * step + window
burst_fits phase window p step k h below = grind arith

spread_fits : (phase step p k : ℕ) → phase < step → k < p → phase + k * step < p * step
spread_fits phase step p k h below = grind arith

-- Settings that can be timed: an interval of `i` seconds, `p` pings, and `g` milliseconds between
-- those of a burst, which then fits in the interval.
pub record IsTimed (spec : TargetSpec) (i p g : ℕ) : Type 0 where
  pub interval : spec.interval_s ≡ pos i
  pub pings : spec.pings ≡ pos p
  pub gap : spec.burst_gap_ms ≡ pos g
  pub some_interval : 0 < i
  pub some_pings : 0 < p
  pub short : i * 1000000000 < 2 ^ 63
  pub fits : (is_spread spec ≡ true) ⊎ (p * g < i * 1000)

true_ne_false : ¬ (true ≡ false)
true_ne_false h = cc

burst_room :
    (spec : TargetSpec) (i p g : ℕ)
    → (is_spread spec ≡ true) ⊎ (p * g < i * 1000)
    → is_spread spec ≡ false
    → p * g < i * 1000
burst_room spec i p g (inl spread) burst = absurd (true_ne_false (sym spread ∙ burst))
burst_room spec i p g (inr fits) burst = fits

-- The phase and the step of a schedule that stays within `room`.
record IsPlan (spec : TargetSpec) (room p phase step : ℕ) : Type 0 where
  offset : phase_offset spec ≡ some (pos phase)
  apart : step_of spec ≡ some (pos step)
  bounded : (k : ℕ) → k < p → phase + k * step < room

le-mul_pos : (p g : ℕ) → 0 < p → g ≤ p * g
le-mul_pos p g h = grind arith

within-lt : (hash w : ℕ) → 0 < w → (f : ℕ) × (within hash (pos w) ≡ pos f) × (f < w)
within-lt hash zero h = absurd (omega arith)
within-lt hash (suc w) h = (hash % suc w, refl, ground arith)

within_any :
    (hash w : ℕ) → (f : ℕ) × (within hash (pos w) ≡ pos f) × ((f < w) ⊎ ((f ≡ 0) × (w ≡ 0)))
within_any hash zero = (0, refl, inr (refl, refl))
within_any hash (suc w) = (hash % suc w, refl, inl (ground arith))

div64-pos : (n p : ℕ) → 0 < p → div64 (pos n) (pos p) ≡ some (pos (n / p))
unfolding div64
div64-pos n zero h = absurd (omega arith)
div64-pos n (suc p) h = refl

div-mul-le : (n p : ℕ) → 0 < p → p * (n / p) ≤ n
div-mul-le n p h = grind arith

module _ (spec : TargetSpec) (i p g : ℕ) (timed : IsTimed spec i p g) where
  interval_ns : mul64 spec.interval_s second ≡ pos (i * 1000000000)
  interval_ns = rw timed.interval (mul64-pos i 1000000000 timed.short)

  spread_bound :
      (f s k n : ℕ) → k < p → (f < s) ⊎ ((f ≡ 0) × (s ≡ 0)) → 0 < n → p * s ≤ n → f + k * s < n
  spread_bound f s k n lt (inl below) some_ room =
      let b = spread_fits f s p k below lt in omega arith
  spread_bound f s k n lt (inr none_) some_ room = rw (none_.0, none_.1) (ground arith)

  spread-IsPlan : is_spread spec ≡ true → (f : ℕ) × (s : ℕ) × IsPlan spec (i * 1000000000) p f s
  unfolding phase_offset window step_of
  spread-IsPlan h =
      let n = i * 1000000000 in
      let quotient : div64 (mul64 spec.interval_s second) spec.pings ≡ some (pos (n / p)) =
        rw (interval_ns, timed.pings) (div64-pos n p timed.some_pings) in
      let (f, e, below) = within_any (hash_of spec.target_id) (n / p) in
      (
        f,
        n / p,
        record {
          offset = rw (h, quotient, e) refl;
          apart = rw (h, quotient) refl;
          bounded = λ k lt.
              spread_bound f (n / p) k n lt below (omega (arith, timed.some_interval))
                (div-mul-le n p timed.some_pings);
        },
      )

  burst_bound :
      (f k : ℕ)
      → k < p
      → f + p * g * 1000000 < i * 1000000000
      → f + k * (g * 1000000) < i * 1000000000
  burst_bound f k lt h =
      let steps : k * (g * 1000000) ≤ p * (g * 1000000) = grind arith in
      let regroup : p * (g * 1000000) ≡ p * g * 1000000 = grind arith in omega arith

  burst-IsPlan :
      is_spread spec ≡ false
      → p * g < i * 1000
      → (f : ℕ) × (s : ℕ) × IsPlan spec (i * 1000000000) p f s
  unfolding phase_offset window step_of
  burst-IsPlan h fits =
      let one_gap : g ≤ p * g = le-mul_pos p g timed.some_pings in
      let gap_ns : mul64 spec.burst_gap_ms millisecond ≡ pos (g * 1000000) =
        rw timed.gap (mul64-pos g 1000000 (omega (arith, timed.short))) in
      let burst : mul64 (mul64 spec.pings spec.burst_gap_ms) millisecond ≡ pos (p * g * 1000000) =
        rw (timed.pings, timed.gap, mul64-pos p g (omega (arith, timed.short)))
          (mul64-pos (p * g) 1000000 (omega (arith, timed.short))) in
      let room : wrap64 (pos (i * 1000000000) -ℤ pos (p * g * 1000000))
          ≡ pos (i * 1000000000 - p * g * 1000000) =
        rw (-ℤ-pos (i * 1000000000) (p * g * 1000000) (omega arith))
          (wrap64-pos _ (omega (arith, timed.short))) in
      let (f, e, below) =
        within-lt (hash_of spec.target_id) (i * 1000000000 - p * g * 1000000) (omega arith) in
      (
        f,
        g * 1000000,
        record {
          offset = rw (h, interval_ns, burst, room, e) refl;
          apart = rw (h, gap_ns) refl;
          bounded = λ k lt. burst_bound f k lt (omega arith);
        },
      )

send_times-IsPlan :
    (spec : TargetSpec) (bucket : ℤ) (room p f s : ℕ)
    → spec.pings ≡ pos p
    → room < 2 ^ 63
    → IsPlan spec room p f s
    → (times : List Instant) × (send_times spec bucket ≡ some times)
      × All (Inside (bucket *ℤ second) room) times
      × (length times ≡ p)
unfolding send_times train start
send_times-IsPlan spec bucket room p f s pings small plan =
    let inside =
      sends_from-Inside (bucket *ℤ second) f room s small 0 p
        (λ k h. plan.bounded k (omega arith)) in
    (_, rw (plan.offset, send_times, plan.apart, pings) refl, inside.0, inside.1)

-- Every ping of a bucket is sent inside the bucket: for settings that can be timed and every
-- bucket, the schedule exists, has as many sends as there are pings, and each of them lies in the
-- interval that starts with the bucket, whatever the phase of the target is, in both modes.
pub send_times-Inside :
    (spec : TargetSpec) (bucket : ℤ) (i p g : ℕ)
    → IsTimed spec i p g
    → (times : List Instant) × (send_times spec bucket ≡ some times)
      × All (Inside (bucket *ℤ second) (i * 1000000000)) times
      × (length times ≡ p)
send_times-Inside spec bucket i p g timed = elim (Bool-cases (is_spread spec)) [
  | inl spread ↦
      let (f, s, plan) = spread-IsPlan spec i p g timed spread in
      send_times-IsPlan spec bucket _ p f s timed.pings timed.short plan
  | inr burst ↦
      let fits : p * g < i * 1000 = burst_room spec i p g timed.fits burst in
      let (f, s, plan) = burst-IsPlan spec i p g timed burst fits in
      send_times-IsPlan spec bucket _ p f s timed.pings timed.short plan
]
