-- ===== src/Tree/Limits.antt =====
-- internal/tree/limits.go: what a write may not exceed. Of `CheckLimits` the bounds on numbers are
-- modelled, as `check_numbers`; the checks on text, which read Unicode tables, are not.
use smokeng.Common.{
  ℕ, zero, suc, Bool, true, false, not, ◌&&◌, ◌||◌, Option, none, some, List, [], ◌∷◌, reverse,
  if◌then◌else◌, length, find, ltb, leb, ◌==◌,
}
use smokeng.Common.Int.{ℤ, pos, ltb_ℤ, eq_ℤ, mul64}
use smokeng.Common.Float.{FloatOps}
use smokeng.Common.Result.{Result, ok, err, ◌>>=◌, ◌>>◌, fail_if}
use smokeng.Tree.Model.{Target, Resolved, Tree, TreeError, node_at}
use smokeng.Tree.Build.{build, resolve}
use smokeng.Tree.Validate.{is_set}

pub data LimitError : Type 0 where
  invalid_tree : TreeError → LimitError
  out_of_bounds too_many total_rate : LimitError
  too_deep : ℕ → LimitError
  timeout_longer rate_high bytes_high : LimitError

abbrev pub max_depth : ℕ
max_depth = 16

abbrev pub max_targets : ℕ
max_targets = 10000

-- differs, on an optional number
abbrev pub differs_from : Option ℤ → Option ℤ → Bool
differs_from none none = false
differs_from (some b) (some a) = not (eq_ℤ b a)
differs_from _ _ = true

unfoldable pub differs : Option Target → Target → (Target → Option ℤ) → Bool
differs none after field = true
differs (some before) after field = differs_from (field before) (field after)

abbrev pub outside : ℤ → ℤ → ℤ → Bool
outside lo hi v = ltb_ℤ v lo || ltb_ℤ hi v

-- The closures `bound` and `zeroOr`, by whether the field changed.
abbrev pub bound_value : Option ℤ → (changed : Bool) → (lo hi : ℤ) → Result LimitError (Unit {0})
bound_value none changed lo hi = ok tt
bound_value (some v) changed lo hi = fail_if (changed && outside lo hi v) out_of_bounds

abbrev pub zero_or_value : Option ℤ → (changed : Bool) → (lo hi : ℤ) → Result LimitError (Unit {0})
zero_or_value none changed lo hi = ok tt
zero_or_value (some v) changed lo hi =
    fail_if (not (eq_ℤ v (pos 0)) && changed && outside lo hi v) out_of_bounds

unfoldable pub bound :
    Option Target → Target → (Target → Option ℤ) → (lo hi : ℤ) → Result LimitError (Unit {0})
bound before after field lo hi = bound_value (field after) (differs before after field) lo hi

unfoldable pub zero_or :
    Option Target → Target → (Target → Option ℤ) → (lo hi : ℤ) → Result LimitError (Unit {0})
zero_or before after field lo hi = zero_or_value (field after) (differs before after field) lo hi

-- The numbers of `CheckLimits`.
unfoldable pub check_numbers : Option Target → Target → Result LimitError (Unit {0})
unfolding bound zero_or
check_numbers before after = do
  bound before after (λ (t : Target). t.settings.interval_s) (pos 1) (pos 86400)
  bound before after (λ (t : Target). t.settings.pings_per_interval) (pos 1) (pos 1000)
  bound before after (λ (t : Target). t.settings.burst_gap_ms) (pos 0) (pos 600000)
  bound before after (λ (t : Target). t.settings.packet_size) (pos 12) (pos 9000)
  zero_or before after (λ (t : Target). t.settings.trace_interval_s) (pos 30) (pos 604800)
  zero_or before after (λ (t : Target). t.settings.retention_s) (pos 3600) (pos 315360000)

-- depth; a way up has no more steps than there are nodes.
unfoldable pub depth_from : List Target → (fuel : ℕ) → (parent : Option ℕ) → ℕ
depth_from nodes zero parent = 0
depth_from nodes (suc fuel) none = 0
depth_from nodes (suc fuel) (some p) = elim (node_at nodes p) [
  | none ↦ 0
  | some next ↦ suc (depth_from nodes fuel next.parent_id)
]

unfoldable pub depth : Tree → Target → ℕ
unfolding depth_from
depth t n = depth_from t.nodes (length t.nodes) n.parent_id

-- `prior[id]`: the last target of the list with the id.
unfoldable pub prior_of : List Target → ℕ → Option Target
prior_of before id = find (λ (n : Target). n.id == id) (reverse before)

-- `beforeT, _ := New(before)`
unfoldable pub tree_or_nil : List Target → Option Tree
tree_or_nil targets = elim (build targets) [ ok t ↦ some t | err _ ↦ none ]

-- Whether the node sat as deep before.
unfoldable pub was_as_deep : List Target → Option Tree → Target → ℕ → Bool
unfolding prior_of
was_as_deep before none n d = false
was_as_deep before (some bt) n d = elim (prior_of before n.id) [
  | none ↦ false
  | some old ↦ leb d (depth bt old)
]

unfoldable pub check_depths :
    List Target → Option Tree → Tree → List Target → Result LimitError (Unit {0})
check_depths before bt t [] = ok tt
check_depths before bt t (n ∷ rest) =
    if leb (depth t n) max_depth || was_as_deep before bt n (depth t n)
    then check_depths before bt t rest
    else err (too_deep n.id)

-- `len(after) > MaxTargets && len(after) > len(before)`
unfoldable pub check_size : (before after : List Target) → Result LimitError (Unit {0})
check_size before after =
    fail_if (ltb max_targets (length after) && ltb (length before) (length after)) too_many

-- `n.Host != nil && n.Enabled`
abbrev pub runs : Target → Bool
runs n = is_set n.host && n.enabled

module _ {F : Type 0} (fl : FloatOps F) where
  unfoldable pub probe_rate : Resolved → F
  probe_rate r =
      fl.div (fl.of_int r.pings_per_interval.effective) (fl.of_int r.interval_s.effective)

  abbrev waiting : Resolved → F
  waiting r =
      fl.div (fl.of_int r.timeout_ms.effective)
        (fl.of_int (mul64 r.interval_s.effective (pos 1000)))

  unfoldable pub byte_rate : Resolved → F
  unfolding probe_rate
  byte_rate r = fl.mul (probe_rate r) (fl.of_int r.packet_size.effective)

  -- notWorse
  unfoldable pub not_worse : (before after : Resolved) → Bool
  unfolding byte_rate
  not_worse before after =
      fl.le (probe_rate after) (probe_rate before)
      && fl.le (byte_rate after) (byte_rate before)
      && fl.le (waiting after) (waiting before)

  -- resolvedLimits
  unfoldable pub resolved_limits : Resolved → Result LimitError (Unit {0})
  resolved_limits r = do
    fail_if (ltb_ℤ (mul64 r.interval_s.effective (pos 1000)) r.timeout_ms.effective) timeout_longer
    fail_if (fl.lt (fl.of_int (pos 100)) (probe_rate r)) rate_high
    fail_if (fl.lt (fl.of_int (pos 500000)) (byte_rate r)) bytes_high

  -- The node ran before as well, and its load is no worse.
  unfoldable pub load_kept : List Target → Option Tree → Target → Resolved → Bool
  unfolding prior_of not_worse
  load_kept before none n r = false
  load_kept before (some bt) n r = elim (prior_of before n.id) [
    | none ↦ false
    | some old ↦
        is_set old.host
        && (old.enabled || not n.enabled)
        && elim (resolve bt old.id) [ err _ ↦ false | ok rb ↦ not_worse rb r ]
  ]

  -- The loop over the targets as they would be; `rate` is `rateAfter`.
  unfoldable pub check_loads :
      List Target → Option Tree → Tree → F → List Target → Result LimitError F
  check_loads before bt t rate [] = ok rate
  check_loads before bt t rate (n ∷ rest) =
      if runs n
      then elim (resolve t n.id) [
        | err e ↦ err (invalid_tree e)
        | ok r ↦
            if load_kept before bt n r
            then check_loads before bt t (fl.add rate (probe_rate r)) rest
            else resolved_limits r >> check_loads before bt t (fl.add rate (probe_rate r)) rest
      ]
      else check_loads before bt t rate rest

  -- The sum over the stored targets, which is 0 where there is no tree.
  unfoldable pub stored_rate : Tree → F → List Target → F
  unfolding probe_rate
  stored_rate bt rate [] = rate
  stored_rate bt rate (n ∷ rest) =
      if runs n
      then elim (resolve bt n.id) [
        | err _ ↦ stored_rate bt rate rest
        | ok r ↦ stored_rate bt (fl.add rate (probe_rate r)) rest
      ]
      else stored_rate bt rate rest

  abbrev rate_before : Option Tree → List Target → F
  rate_before none before = fl.of_int (pos 0)
  rate_before (some bt) before = stored_rate bt (fl.of_int (pos 0)) before

  -- CheckTreeLimits, once the tree of the targets is built.
  unfoldable pub check_limits_of : List Target → List Target → Tree → Result LimitError (Unit {0})
  unfolding check_depths check_loads stored_rate tree_or_nil
  check_limits_of before after t = do
    check_size before after
    check_depths before (tree_or_nil before) t after
    rate ← check_loads before (tree_or_nil before) t (fl.of_int (pos 0)) after
    fail_if
        (fl.lt (fl.of_int (pos 5000)) rate && fl.lt (rate_before (tree_or_nil before) before) rate)
        total_rate

  -- CheckTreeLimits
  unfoldable pub check_tree_limits : List Target → List Target → Result LimitError (Unit {0})
  unfolding check_limits_of
  check_tree_limits before after = elim (build after) [
    | err e ↦ err (invalid_tree e)
    | ok t ↦ check_limits_of before after t
  ]
