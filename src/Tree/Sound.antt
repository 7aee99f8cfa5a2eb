-- ===== src/Tree/Sound.antt =====
-- The effective settings of a tree that `New` of internal/tree/tree.go accepts: `Validate` checks the
-- values of each node, and the values that a node inherits are among them.
use smokeng.Common.{
  ℕ, ◌≡◌, sym, ap, ◌∙◌, Bool, false, not, ◌||◌, Option, none, some, List, [], ◌∷◌, ◌++◌, In, All,
  All-In, All-map, Option-cases, inl, inr,
}
use mathlib.Core.Path.{subst}
use smokeng.Common.Int.{pos, leb_ℤ, ltb_ℤ}
use smokeng.Common.Result.{ok, ◌>>=◌, ◌>>◌, >>=-eq-ok, fail_if, fail_if-ok}
use smokeng.Tree.Model.{
  Settings, Target, Tree, Resolved, Value, probe_mode_unknown, interval_not_positive, pings_range,
  burst_gap_negative, burst_too_long,
}
use smokeng.Tree.Validate.{
  set_and, one_of, probe_modes, validate, validate_node, validate_timing_fields, burst_does_not_fit,
}
use smokeng.Tree.Build.{build, resolve, check_timing}
use smokeng.Tree.Built.{build-Built}
use smokeng.Tree.Ancestry.{NodePass, Lineage-In, passes, nodes-build}
use smokeng.Tree.Inherit.{Inherits, resolve-Inherited}

All-middle :
    {A : Type 0} (P : A → Type 0) (below : List A) (x : A) (above : List A)
    → All P (below ++ x ∷ above)
    → P x
All-middle P [] x above h = h.0
All-middle P (b ∷ below) x above h = All-middle P below x above h.1

-- The values of a node that say when its pings are sent.
pub record HasTiming (s : Settings) : Type 0 where
  pub mode : set_and s.probe_mode (λ v. not (one_of probe_modes v)) ≡ false
  pub interval : set_and s.interval_s (λ v. leb_ℤ v (pos 0)) ≡ false
  pub pings : set_and s.pings_per_interval (λ v. leb_ℤ v (pos 0) || ltb_ℤ (pos 65535) v) ≡ false
  pub gap : set_and s.burst_gap_ms (λ v. ltb_ℤ v (pos 0)) ≡ false

timing_fields-HasTiming : (s : Settings) → validate_timing_fields s ≡ ok tt → HasTiming s
unfolding validate_timing_fields
timing_fields-HasTiming s h =
    let (mode, h1) = fail_if-ok _ probe_mode_unknown _ h in
    let (interval, h2) = fail_if-ok _ interval_not_positive _ h1 in
    let (pings, h3) = fail_if-ok _ pings_range _ h2 in
    let (gap, h4) = fail_if-ok _ burst_gap_negative _ h3 in
    record { mode = mode; interval = interval; pings = pings; gap = gap }

validate-HasTiming : (n : Target) → validate n ≡ ok tt → HasTiming n.settings
unfolding validate
validate-HasTiming n h =
    let (u, first, after) = >>=-eq-ok (validate_node n) _ h in
    let (w, timing, last) = >>=-eq-ok (validate_timing_fields n.settings) _ after in
    timing_fields-HasTiming n.settings timing

-- What every node of a lineage has is what the node inherits.
Inherits-test :
    {T : Type 0} (t : Tree) (field : Settings → Option T) (n : Target) (rest : List Target)
    (v : Value T) (bad : T → Bool)
    → Inherits t field n rest v
    → All (λ (m : Target). set_and (field m.settings) bad ≡ false) (n ∷ rest)
    → bad v.effective ≡ false
Inherits-test t field n rest v bad h all =
    let there = subst (All (λ (m : Target). set_and (field m.settings) bad ≡ false)) h.split all in
    let at = All-middle _ h.below h.setter h.above there in
    sym (ap (λ o. set_and o bad) h.sets) ∙ at

-- The effective values of a target that say when its pings are sent are in range.
pub record IsTimely (r : Resolved) : Type 0 where
  pub mode : not (one_of probe_modes r.probe_mode.effective) ≡ false
  pub interval : leb_ℤ r.interval_s.effective (pos 0) ≡ false
  pub pings :
      (leb_ℤ r.pings_per_interval.effective (pos 0)
        || ltb_ℤ (pos 65535) r.pings_per_interval.effective)
      ≡ false
  pub gap : ltb_ℤ r.burst_gap_ms.effective (pos 0) ≡ false

none-ne-some : {A : Type 0} {a : A} → ¬ (none ≡ some a)
none-ne-some h = cc

In-hosted :
    (m n : Target) (rest : List Target) (h : List ℕ)
    → In n (m ∷ rest)
    → m.host ≡ none
    → n.host ≡ some h
    → In n rest
In-hosted m n rest h (inl e) none_ host =
    absurd (none-ne-some (sym none_ ∙ ap (λ (x : Target). x.host) e ∙ host))
In-hosted m n rest h (inr i) none_ host = i

-- `check_timing` has passed each leaf.
check_timing-fits :
    (t : Tree) (ns : List Target) (n : Target) (h : List ℕ) (r : Resolved)
    → check_timing t ns ≡ ok tt
    → In n ns
    → n.host ≡ some h
    → resolve t n.id ≡ ok r
    → burst_does_not_fit r ≡ false
unfolding check_timing
check_timing-fits t [] n h r passed i host found = absurd i
check_timing-fits t (m ∷ rest) n h r passed i host found = elim (Option-cases m.host) [
  | inl none_ ↦
      check_timing-fits t rest n h r (rw (none_, check_timing) at passed)
        (In-hosted m n rest h i none_ host) host found
  | inr (k, some_) ↦
      let now : (do
        r ← resolve t m.id
        fail_if (burst_does_not_fit r) (burst_too_long m.id)
        check_timing t rest)
          ≡ ok tt =
        rw (some_, check_timing) at passed in
      let (q, at, after) = >>=-eq-ok (resolve t m.id) _ now in
      let (fits, more) =
        fail_if-ok (burst_does_not_fit q) (burst_too_long m.id) (check_timing t rest) after in
      elim i [
        | inl same_ ↦
            let is : q ≡ r = cc (sym at ∙ ap (λ (x : Target). resolve t x.id) same_ ∙ found) in
            sym (ap burst_does_not_fit is) ∙ fits
        | inr later ↦ check_timing-fits t rest n h r more later host found
      ]
]

-- On a tree that `build` accepts, the timing of every target is in range, and a burst fits in the interval.
pub resolve-IsTimely :
    (targets : List Target) (t : Tree) (n : Target) (r : Resolved)
    → build targets ≡ ok t
    → In n targets
    → resolve t n.id ≡ ok r
    → IsTimely r
resolve-IsTimely targets t n r built i found =
    let (rest, q, at, line, last, inherited) = resolve-Inherited targets t n built i in
    let is : q ≡ r = cc (sym at ∙ found) in
    let here : In n t.nodes = subst (In n) (sym (nodes-build targets built)) i in
    let each =
      All-map (λ (m : Target). In m t.nodes) (λ (m : Target). HasTiming m.settings)
        (λ m j.
          validate-HasTiming m
            (All-In (NodePass targets) targets (passes targets built)
              (subst (In m) (nodes-build targets built) j)).valid)
        (n ∷ rest) (Lineage-In t.nodes rest n here line) in
    subst IsTimely is (record {
      mode =
          Inherits-test t (λ (s : Settings). s.probe_mode) n rest q.probe_mode
            (λ v. not (one_of probe_modes v)) inherited.probe_mode
            (All-map (λ (m : Target). HasTiming m.settings)
              (λ (m : Target).
                set_and m.settings.probe_mode (λ v. not (one_of probe_modes v)) ≡ false)
              (λ m h. h.mode) (n ∷ rest) each);
      interval =
          Inherits-test t (λ (s : Settings). s.interval_s) n rest q.interval_s
            (λ v. leb_ℤ v (pos 0)) inherited.interval_s
            (All-map (λ (m : Target). HasTiming m.settings)
              (λ (m : Target). set_and m.settings.interval_s (λ v. leb_ℤ v (pos 0)) ≡ false)
              (λ m h. h.interval) (n ∷ rest) each);
      pings =
          Inherits-test t (λ (s : Settings). s.pings_per_interval) n rest q.pings_per_interval
            (λ v. leb_ℤ v (pos 0) || ltb_ℤ (pos 65535) v) inherited.pings
            (All-map (λ (m : Target). HasTiming m.settings)
              (λ (m : Target).
                set_and m.settings.pings_per_interval (λ v. leb_ℤ v (pos 0) || ltb_ℤ (pos 65535) v)
                ≡ false)
              (λ m h. h.pings) (n ∷ rest) each);
      gap =
          Inherits-test t (λ (s : Settings). s.burst_gap_ms) n rest q.burst_gap_ms
            (λ v. ltb_ℤ v (pos 0)) inherited.burst_gap_ms
            (All-map (λ (m : Target). HasTiming m.settings)
              (λ (m : Target). set_and m.settings.burst_gap_ms (λ v. ltb_ℤ v (pos 0)) ≡ false)
              (λ m h. h.gap) (n ∷ rest) each);
    })

pub resolve-fits :
    (targets : List Target) (t : Tree) (n : Target) (h : List ℕ) (r : Resolved)
    → build targets ≡ ok t
    → In n targets
    → n.host ≡ some h
    → resolve t n.id ≡ ok r
    → burst_does_not_fit r ≡ false
resolve-fits targets t n h r built i host found =
    check_timing-fits t t.nodes n h r (build-Built targets built).timing_passes
      (subst (In n) (sym (nodes-build targets built)) i) host found
