-- ===== src/Tree/Loads.antt =====
-- What a tree that passes `CheckTreeLimits` of internal/tree/limits.go may run.
use smokeng.Common.{
  ◌≤◌, ◌≡◌, refl, ◌⊎◌, inl, inr, Bool, true, false, not, ◌&&◌, ◌||◌, none, some, List, [], ◌∷◌,
  arith, length, All, In, All-In, Bool-cases, Option-cases, leb, ◌∙◌,
}
use mathlib.Core.Path.{subst, sym}
use smokeng.Common.Int.{pos, ◌≤ℤ◌, mul64}
use smokeng.Common.Float.{FloatOps}
use smokeng.Common.Result.{ok, >>=-eq-ok, Result-cases, err-ne-ok}
use smokeng.Tree.Model.{Target, Resolved, Tree}
use smokeng.Tree.Build.{build, resolve}
use smokeng.Tree.Ancestry.{Lineage}
use smokeng.Tree.Validate.{is_set}
use smokeng.Tree.Prior.{
  depth-Lineage, false-ne-true, Before, SatAsDeep, prior_of-stored, le_of_leb,
  was_as_deep-SatAsDeep, kept_parts, runs_enabled,
}
use smokeng.Tree.Limits.{
  depth, tree_or_nil, was_as_deep, check_depths, check_size, runs, probe_rate, byte_rate,
  resolved_limits, prior_of, not_worse, load_kept, check_loads, check_limits_of, check_tree_limits,
  max_depth,
}

-- The node sits at most `max_depth` deep, or as deep as it did.
abbrev pub depth_passes : List Target → Tree → Target → Bool
depth_passes before t n =
    leb (depth t n) max_depth || was_as_deep before (tree_or_nil before) n (depth t n)

check_depths-passes :
    (before : List Target) (t : Tree) (ns : List Target)
    → check_depths before (tree_or_nil before) t ns ≡ ok tt
    → All (λ (n : Target). depth_passes before t n ≡ true) ns
unfolding check_depths
check_depths-passes before t [] h = tt
check_depths-passes before t (n ∷ rest) h = elim (Bool-cases (depth_passes before t n)) [
  | inl e ↦ (e, check_depths-passes before t rest (rw e at h))
  | inr e ↦ absurd (err-ne-ok (rw e at h))
]

module _ {F : Type 0} (fl : FloatOps F) where
  -- Pings a second, bytes a second, and the share of an interval that a probe may wait.
  abbrev pub rate_of : Resolved → F
  rate_of r = fl.div (fl.of_int r.pings_per_interval.effective) (fl.of_int r.interval_s.effective)

  abbrev pub bytes_of : Resolved → F
  bytes_of r = fl.mul (rate_of r) (fl.of_int r.packet_size.effective)

  abbrev pub wait_of : Resolved → F
  wait_of r =
      fl.div (fl.of_int r.timeout_ms.effective)
        (fl.of_int (mul64 r.interval_s.effective (pos 1000)))

  -- The load that one target may put on what it probes.
  pub record LoadWithin (r : Resolved) : Type 0 where
    pub timeout : r.timeout_ms.effective ≤ℤ mul64 r.interval_s.effective (pos 1000)
    pub rate : fl.lt (fl.of_int (pos 100)) (rate_of r) ≡ false
    pub bytes : fl.lt (fl.of_int (pos 500000)) (bytes_of r) ≡ false

  resolved_limits-LoadWithin : (r : Resolved) → resolved_limits fl r ≡ ok tt → LoadWithin r
  unfolding resolved_limits probe_rate byte_rate
  resolved_limits-LoadWithin r h = record {
    timeout = ground arith;
    rate = ground arith;
    bytes = ground arith;
  }

  -- None of the three loads has grown.
  pub record NoWorse (before after : Resolved) : Type 0 where
    pub rate : fl.le (rate_of after) (rate_of before) ≡ true
    pub bytes : fl.le (bytes_of after) (bytes_of before) ≡ true
    pub wait : fl.le (wait_of after) (wait_of before) ≡ true

  -- The target ran before as well, with loads that were no smaller.
  pub record RanBefore (before : List Target) (n : Target) (r : Resolved) : Type 0 where
    pub was : Before before n
    pub settings : Resolved
    pub host : is_set was.target.host ≡ true
    pub enabled : was.target.enabled ≡ true
    pub resolved : resolve was.tree was.target.id ≡ ok settings
    pub no_worse : NoWorse settings r

  not_worse-NoWorse : (b r : Resolved) → not_worse fl b r ≡ true → NoWorse b r
  unfolding not_worse probe_rate byte_rate
  not_worse-NoWorse b r h = record {
    rate = ground (arith, h);
    bytes = ground (arith, h);
    wait = ground (arith, h);
  }

  load_kept-RanBefore :
      (before : List Target) (n : Target) (r : Resolved)
      → runs n ≡ true
      → load_kept fl before (tree_or_nil before) n r ≡ true
      → RanBefore before n r
  unfolding load_kept tree_or_nil
  load_kept-RanBefore before n r on h = elim (Result-cases (build before)) [
    | inr (x, e) ↦ cc (rw (e, tree_or_nil, load_kept) at h)
    | inl (bt, e) ↦
        let h1 : load_kept fl before (some bt) n r ≡ true = rw (e, tree_or_nil) at h in
        elim (Option-cases (prior_of before n.id)) [
          | inl gone ↦ cc (rw (gone, load_kept) at h1)
          | inr (old, found) ↦ elim (Result-cases (resolve bt old.id)) [
            | inr (x, f) ↦ absurd (ground (arith, rw (found, f, load_kept) at h1))
            | inl (rb, f) ↦
                let h2 : (is_set old.host && (old.enabled || not n.enabled) && not_worse fl rb r)
                    ≡ true =
                  rw (found, f, load_kept) at h1 in
                record {
                  was = record {
                    tree = bt;
                    target = old;
                    built = e;
                    stored = (prior_of-stored before n old found).0;
                    same_id = (prior_of-stored before n old found).1;
                  };
                  settings = rb;
                  host =
                      (kept_parts (is_set old.host) old.enabled n.enabled _ h2
                        (runs_enabled n on)).0;
                  enabled =
                      (kept_parts (is_set old.host) old.enabled n.enabled _ h2
                        (runs_enabled n on)).1;
                  resolved = f;
                  no_worse =
                      not_worse-NoWorse rb r
                        (kept_parts (is_set old.host) old.enabled n.enabled _ h2
                          (runs_enabled n on)).2;
                }
          ]
        ]
  ]

  -- The target does not run; or its effective settings are within the limits, or it ran before and its
  -- load is no worse.
  abbrev pub LoadPasses : List Target → Tree → Target → Type 0
  LoadPasses before t n =
      (n.host ≡ none)
      ⊎ (n.enabled ≡ false)
      ⊎ ((r : Resolved) × (resolve t n.id ≡ ok r) × (RanBefore before n r ⊎ LoadWithin r))

  idle-LoadPasses :
      (before : List Target) (t : Tree) (n : Target) → runs n ≡ false → LoadPasses before t n
  idle-LoadPasses before t n idle = elim (Option-cases n.host) [
    | inl e ↦ inl e
    | inr (h, e) ↦ elim (Bool-cases n.enabled) [
      | inr off ↦ inr (inl off)
      | inl on ↦ absurd (false-ne-true (sym idle ∙ (rw (e, on) refl)))
    ]
  ]

  check_loads-LoadPasses :
      (before : List Target) (t : Tree) (ns : List Target) (rate : F) {out : F}
      → check_loads fl before (tree_or_nil before) t rate ns ≡ ok out
      → All (LoadPasses before t) ns
  unfolding check_loads
  check_loads-LoadPasses before t [] rate h = tt
  check_loads-LoadPasses before t (n ∷ rest) rate h = elim (Bool-cases (runs n)) [
    | inl e ↦ elim (Result-cases (resolve t n.id)) [
      | inr (x, f) ↦ absurd (err-ne-ok (rw (e, f) at h))
      | inl (r, f) ↦ elim (Bool-cases (load_kept fl before (tree_or_nil before) n r)) [
        | inl k ↦ (
          inr (inr (r, f, inl (load_kept-RanBefore before n r e k))),
          check_loads-LoadPasses before t rest (fl.add rate (probe_rate fl r)) (rw (e, f, k) at h),
        )
        | inr k ↦
            let (u, limits, more) = >>=-eq-ok (resolved_limits fl r) _ (rw (e, f, k) at h) in
            (
              inr (inr (r, f, inr (resolved_limits-LoadWithin r limits))),
              check_loads-LoadPasses before t rest (fl.add rate (probe_rate fl r)) more,
            )
      ]
    ]
    | inr e ↦ (idle-LoadPasses before t n e, check_loads-LoadPasses before t rest rate (rw e at h))
  ]

  check_size_lem :
      (before after : List Target)
      → check_size before after ≡ ok tt
      → (length after ≤ 10000) ⊎ (length after ≤ length before)
  unfolding check_size
  check_size_lem before after h = ground arith

  limits_of-passes :
      (before after : List Target) (t : Tree)
      → check_limits_of fl before after t ≡ ok tt
      → (check_size before after ≡ ok tt)
        × All (λ (n : Target). depth_passes before t n ≡ true) after
        × All (LoadPasses before t) after
  unfolding check_limits_of
  limits_of-passes before after t h =
      let (u, few, h1) = >>=-eq-ok (check_size before after) _ h in
      let (v, depths, h2) = >>=-eq-ok (check_depths before (tree_or_nil before) t after) _ h1 in
      let (rate, loads, total) =
        >>=-eq-ok (check_loads fl before (tree_or_nil before) t (fl.of_int (pos 0)) after) _ h2 in
      (
        few,
        check_depths-passes before t after depths,
        check_loads-LoadPasses before t after (fl.of_int (pos 0)) loads,
      )

  -- A change that `CheckTreeLimits` lets pass makes a tree of at most 10000 targets, or of no more than
  -- there were. It leaves every target of it with at most 16 nodes above it, or no more than a stored
  -- target of its id has in the tree of the stored ones. Every target of it that has a host and is
  -- enabled resolves, and either its timeout is no longer than its interval, its rate of pings at most
  -- 100 and its rate of bytes at most 500000 a second; or a stored target of its id ran, and its rate
  -- of pings, its rate of bytes and its timeout as a share of the interval are no larger than they
  -- were.
  pub check_tree_limits-passes :
      (before after : List Target) (n : Target)
      → check_tree_limits fl before after ≡ ok tt
      → In n after
      → (t : Tree) × (build after ≡ ok t)
        × ((length after ≤ 10000) ⊎ (length after ≤ length before))
        × (above : List Target) × Lineage t.nodes (n ∷ above)
        × ((length above ≤ 16) ⊎ SatAsDeep before n (length above))
        × LoadPasses before t n
  unfolding check_tree_limits
  check_tree_limits-passes before after n h i = elim (Result-cases (build after)) [
    | inr (x, e) ↦ absurd (err-ne-ok (rw (e, check_tree_limits) at h))
    | inl (t, e) ↦
        let (few, depths, loads) =
          limits_of-passes before after t (rw (e, check_tree_limits) at h) in
        let size = check_size_lem before after few in
        let d = All-In (λ (m : Target). depth_passes before t m ≡ true) after depths i in
        let (above, line, last, depth_is) = depth-Lineage after t n e i in
        let deep : (length above ≤ 16) ⊎ SatAsDeep before n (length above) =
          subst (λ k. (k ≤ 16) ⊎ SatAsDeep before n k) depth_is
            (elim (Bool-cases (leb (depth t n) max_depth)) [
              | inl few_above ↦ inl (le_of_leb (depth t n) max_depth few_above)
              | inr many ↦ inr (was_as_deep-SatAsDeep before n (depth t n) (rw many at d))
            ]) in
        (t, e, size, above, line, deep, All-In (LoadPasses before t) after loads i)
  ]
