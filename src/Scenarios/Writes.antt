-- ===== src/Scenarios/Writes.antt =====
-- A write to the small tree, and its limits.
use smokeng.Common.{◌≤◌, ◌≡◌, refl, ◌⊎◌, inl, some, List, [], ◌∷◌, length, find}
use smokeng.Common.Int.{pos, mul64, wrap64, ◌*ℤ◌}
use smokeng.Common.Result.{ok}
use smokeng.Scenarios.Fixed.{fixed}
use smokeng.Scenarios.Trees.{targets, tree, leaf, built}
use smokeng.Tree.Model.{Target, Tree, get, node_at}
use smokeng.Tree.Build.{build, resolve, index, ancestry_of, resolve_chain, resolve_value}
use smokeng.Tree.Limits.{
  check_numbers, check_tree_limits, check_limits_of, check_size, check_depths, check_loads, depth,
  tree_or_nil, differs, load_kept, resolved_limits, probe_rate, byte_rate,
}
use smokeng.Tree.Writes.{NumbersKept, check_numbers-NumbersKept}
use smokeng.Tree.Ancestry.{Lineage}
use smokeng.Tree.Prior.{SatAsDeep}
use smokeng.Tree.Loads.{LoadPasses, check_tree_limits-passes}

abbrev faster : Target
faster = record leaf { settings = record leaf.settings { interval_s = some (pos 10) } }

check_numbers-NumbersKept_example : NumbersKept (some leaf) faster
unfolding check_numbers differs
check_numbers-NumbersKept_example = check_numbers-NumbersKept (some leaf) faster refl

within : check_limits_of fixed [] targets tree ≡ ok tt
unfolding check_limits_of check_size tree_or_nil build index check_depths depth node_at find
    check_loads resolve get ancestry_of resolve_chain resolve_value load_kept resolved_limits
    probe_rate byte_rate mul64 wrap64 ◌*ℤ◌
within = refl

allowed : check_tree_limits fixed [] targets ≡ ok tt
unfolding check_tree_limits
allowed = rw (built, check_tree_limits) within

check_tree_limits-passes_example :
    (t : Tree) × (build targets ≡ ok t)
    × ((length {A = Target} targets ≤ 10000) ⊎ (length {A = Target} targets ≤ 0))
    × (above : List Target) × Lineage t.nodes (leaf ∷ above)
    × ((length above ≤ 16) ⊎ SatAsDeep [] leaf (length above))
    × LoadPasses fixed [] t leaf
check_tree_limits-passes_example = check_tree_limits-passes fixed [] targets leaf allowed (inl refl)
