-- ===== src/Probe/Loaded.antt =====
-- What the engine loads from a tree can be scheduled: the checks of internal/tree and the schedule of
-- internal/probe together.
use smokeng.Common.{
  ℕ, ◌*◌, ◌<◌, ◌≤◌, ◌^◌, ◌≡◌, refl, sym, ap, ◌∙◌, ◌⊎◌, inl, inr, Bool, true, false, not, ◌&&◌, ◌||◌,
  some, List, [], ◌∷◌, arith, In, All, length, any, Bool-cases, Option-cases, if◌then◌else◌,
}
use mathlib.Core.Path.{subst}
use smokeng.Common.Int.{ℤ, pos, negsuc, leb_ℤ, ltb_ℤ, ◌*ℤ◌, ◌<ℤ◌, mul64, mul64-pos}
use smokeng.Common.Result.{ok, >>=-eq-ok}
use smokeng.Common.Text.{codes, same, same-eq, same_refl}
use smokeng.Tree.Model.{Target, Tree, Resolved}
use smokeng.Tree.Build.{build, resolve}
use smokeng.Tree.Validate.{one_of, probe_modes, burst_does_not_fit}
use smokeng.Tree.Sound.{resolve-IsTimely, resolve-fits}
use smokeng.Probe.Clock.{Instant}
use smokeng.Probe.Schedule.{TargetSpec, second, is_spread, send_times}
use smokeng.Probe.Timing.{IsTimed, Inside, send_times-Inside}
use smokeng.Probe.Specs.{is_measured, is_local, spec_of, is_valid_spec, specs_of, load_specs}

-- A spec comes from a target that is measured, by its settings.
record IsSpecOf (t : Tree) (targets : List Target) (spec : TargetSpec) : Type 0 where
  node : Target
  res : Resolved
  host : List ℕ
  there : In node targets
  has_host : node.host ≡ some host
  resolved : resolve t node.id ≡ ok res
  is_spec : spec ≡ spec_of node res

IsSpecOf-cons :
    (t : Tree) (n : Target) (targets : List Target) (spec : TargetSpec)
    → IsSpecOf t targets spec
    → IsSpecOf t (n ∷ targets) spec
IsSpecOf-cons t n targets spec s = record {
  node = s.node;
  res = s.res;
  host = s.host;
  there = inr s.there;
  has_host = s.has_host;
  resolved = s.resolved;
  is_spec = s.is_spec;
}

false-ne-true : ¬ (false ≡ true)
false-ne-true h = cc

is_measured-host : (n : Target) → is_measured n ≡ true → (h : List ℕ) × (n.host ≡ some h)
unfolding is_measured
is_measured-host n m = elim (Option-cases n.host) [
  | inl e ↦ absurd (false-ne-true (rw (e, is_measured) at m))
  | inr (h, e) ↦ (h, e)
]

In-kept :
    {A : Type 0} (x y : A) (b : Bool) (xs : List A)
    → In x (if b then y ∷ xs else xs)
    → (y ≡ x) ⊎ In x xs
In-kept x y true xs i = i
In-kept x y false xs i = inr i

specs_of-IsSpecOf :
    (t : Tree) (targets : List Target) (specs : List TargetSpec) (spec : TargetSpec)
    → specs_of t targets ≡ ok specs
    → In spec specs
    → IsSpecOf t targets spec
unfolding specs_of
specs_of-IsSpecOf t [] specs spec h i =
    let is : ◌≡◌ {A = List TargetSpec} [] specs = cc h in absurd (subst (In spec) (sym is) i)
specs_of-IsSpecOf t (n ∷ targets) specs spec h i = elim (Bool-cases (is_measured n)) [
  | inr idle ↦
      IsSpecOf-cons t n targets spec
        (specs_of-IsSpecOf t targets specs spec (rw (idle, specs_of) at h) i)
  | inl live ↦
      let (res, found, after) = >>=-eq-ok (resolve t n.id) _ (rw (live, specs_of) at h) in
      let (rest, more, last) = >>=-eq-ok (specs_of t targets) _ after in
      let kept = is_local res && is_valid_spec (spec_of n res) in
      let specs_are : (if kept then spec_of n res ∷ rest else rest) ≡ specs = cc last in
      elim (In-kept spec (spec_of n res) kept rest (subst (In spec) (sym specs_are) i)) [
        | inl it ↦
            let (host, has) = is_measured-host n live in
            record {
              node = n;
              res = res;
              host = host;
              there = inl refl;
              has_host = has;
              resolved = found;
              is_spec = sym it;
            }
        | inr later ↦
            IsSpecOf-cons t n targets spec (specs_of-IsSpecOf t targets rest spec more later)
      ]
]

positive : (v : ℤ) → leb_ℤ v (pos 0) ≡ false → (i : ℕ) × (v ≡ pos i) × (0 < i)
positive (pos i) h = (i, refl, ground arith)
positive (negsuc n) h = absurd (ground arith)

not_negative : (v : ℤ) → ltb_ℤ v (pos 0) ≡ false → (i : ℕ) × (v ≡ pos i)
not_negative (pos i) h = (i, refl)
not_negative (negsuc n) h = absurd (ground arith)

at_most :
    (v : ℤ) (p : ℕ)
    → v ≡ pos p
    → (leb_ℤ v (pos 0) || ltb_ℤ (pos 65535) v) ≡ false
    → (0 < p) × (p < 65536)
at_most v p e h =
    let h' : (leb_ℤ (pos p) (pos 0) || ltb_ℤ (pos 65535) (pos p)) ≡ false = rw e at h in
    (ground arith, ground arith)

mode_cases :
    (mode : List ℕ)
    → not (one_of probe_modes mode) ≡ false
    → (mode ≡ codes "burst") ⊎ (mode ≡ codes "spread")
unfolding one_of any
mode_cases mode h = elim (Bool-cases (same (codes "burst") mode)) [
  | inl burst ↦ inl (sym (same-eq (codes "burst") mode burst))
  | inr other ↦ elim (Bool-cases (same (codes "spread") mode)) [
    | inl spread ↦ inr (sym (same-eq (codes "spread") mode spread))
    | inr neither ↦ absurd (false-ne-true (sym (rw (other, neither, any) at h)))
  ]
]

burst_room :
    (i p g : ℕ)
    → i * 1000 < 2 ^ 63
    → p * g < 2 ^ 63
    → leb_ℤ (mul64 (pos i) (pos 1000)) (mul64 (pos p) (pos g)) ≡ false
    → p * g < i * 1000
burst_room i p g short few h =
    let h' : leb_ℤ (pos (i * 1000)) (pos (p * g)) ≡ false =
      rw (mul64-pos i 1000 short, mul64-pos p g few) at h in
    ground arith

left_false : (a b : Bool) → (a || b) ≡ false → a ≡ false
left_false true b h = h
left_false false b h = refl

burst_test :
    (r : Resolved) (i p g : ℕ)
    → r.interval_s.effective ≡ pos i
    → r.pings_per_interval.effective ≡ pos p
    → r.burst_gap_ms.effective ≡ pos g
    → r.probe_mode.effective ≡ codes "burst"
    → burst_does_not_fit r ≡ false
    → leb_ℤ (mul64 (pos i) (pos 1000)) (mul64 (pos p) (pos g)) ≡ false
unfolding burst_does_not_fit
burst_test r i p g ei ep eg burst fits =
    let is_burst : same r.probe_mode.effective (codes "burst") ≡ true =
      ap (λ (m : List ℕ). same m (codes "burst")) burst ∙ same_refl (codes "burst") in
    rw (is_burst, ei, ep, eg) at fits

-- The spec of a leaf whose settings are in range can be timed.
spec_of-IsTimed :
    (n : Target) (r : Resolved) (i p g : ℕ)
    → r.interval_s.effective ≡ pos i
    → r.pings_per_interval.effective ≡ pos p
    → r.burst_gap_ms.effective ≡ pos g
    → 0 < i
    → 0 < p
    → i * 1000000000 < 2 ^ 63
    → p * g < 2 ^ 63
    → (r.probe_mode.effective ≡ codes "burst") ⊎ (r.probe_mode.effective ≡ codes "spread")
    → burst_does_not_fit r ≡ false
    → IsTimed (spec_of n r) i p g
unfolding spec_of is_spread
spec_of-IsTimed n r i p g ei ep eg some_i some_p short few mode fits = record {
  interval = ei;
  pings = ep;
  gap = eg;
  some_interval = some_i;
  some_pings = some_p;
  short = short;
  fits = elim mode [
    | inr spread ↦
        inl (ap (λ (m : List ℕ). same m (codes "spread")) spread ∙ same_refl (codes "spread"))
    | inl burst ↦ inr (burst_room i p g (omega arith) few (burst_test r i p g ei ep eg burst fits))
  ];
}

product_small : (p g : ℕ) → p < 65536 → g < 2 ^ 47 → p * g < 2 ^ 63
product_small p g hp hg = let wide : p * g ≤ 65536 * g = grind arith in omega arith

-- Whatever the engine loads from a tree can be scheduled: from targets that `New` accepts, and for
-- every spec that is loaded whose interval is under 292 years and whose gap is under 2 ^ 47 ms,
-- the schedule of every bucket exists, has as many sends as there are pings, and stays inside the bucket.
pub load_specs-Inside :
    (targets : List Target) (specs : List TargetSpec) (spec : TargetSpec) (bucket : ℤ)
    → load_specs targets ≡ ok specs
    → In spec specs
    → spec.interval_s <ℤ pos 9223372036
    → spec.burst_gap_ms <ℤ pos (2 ^ 47)
    → (i p g : ℕ) × IsTimed spec i p g
      × (times : List Instant) × (send_times spec bucket ≡ some times)
      × All (Inside (bucket *ℤ second) (i * 1000000000)) times
      × (length times ≡ p)
unfolding load_specs spec_of
load_specs-Inside targets specs spec bucket h i short narrow =
    let (t, built, loaded) = >>=-eq-ok (build targets) _ h in
    let o = specs_of-IsSpecOf t targets specs spec loaded i in
    let r = o.res in
    let timely = resolve-IsTimely targets t o.node r built o.there o.resolved in
    let fits = resolve-fits targets t o.node o.host r built o.there o.has_host o.resolved in
    let (seconds, ei, some_i) = positive r.interval_s.effective timely.interval in
    let (p, ep, some_p) = positive r.pings_per_interval.effective (left_false _ _ timely.pings) in
    let (g, eg) = not_negative r.burst_gap_ms.effective timely.gap in
    let few = at_most r.pings_per_interval.effective p ep timely.pings in
    let interval : spec.interval_s ≡ pos seconds =
      ap (λ (s : TargetSpec). s.interval_s) o.is_spec ∙ ei in
    let gap : spec.burst_gap_ms ≡ pos g = ap (λ (s : TargetSpec). s.burst_gap_ms) o.is_spec ∙ eg in
    let short' : pos seconds <ℤ pos 9223372036 = subst (λ v. v <ℤ pos 9223372036) interval short in
    let narrow' : pos g <ℤ pos (2 ^ 47) = subst (λ v. v <ℤ pos (2 ^ 47)) gap narrow in
    let timed =
      subst (λ s. IsTimed s seconds p g) (sym o.is_spec)
        (spec_of-IsTimed o.node r seconds p g ei ep eg some_i some_p (omega arith)
          (product_small p g few.1 (omega arith)) (mode_cases r.probe_mode.effective timely.mode)
          fits) in
    let (times, made, inside, many) = send_times-Inside spec bucket seconds p g timed in
    (seconds, p, g, timed, times, made, inside, many)
