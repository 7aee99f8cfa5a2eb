-- ===== src/Scenarios/Trees.antt =====
-- A small tree: the root, a group, and a target under it.
use smokeng.Common.{◌≡◌, refl, inl, true, false, none, some, List, [], ◌∷◌, find}
use smokeng.Common.Int.{pos}
use smokeng.Common.Text.{codes}
use smokeng.Common.Result.{ok, err}
use smokeng.Tree.Model.{Settings, Target, Tree, Resolved, missing_parent}
use smokeng.Common.Int.{mul64, wrap64, ◌*ℤ◌}
use smokeng.Common.Text.{same, fields, trim_space, to_upper}
use smokeng.Common.{any}
use smokeng.Series.{parse_selection}
use smokeng.Tree.Model.{get, node_at}
use smokeng.Tree.Validate.{validate, burst_does_not_fit}
use smokeng.Tree.Build.{
  build, resolve, index, check_nodes, check_siblings, check_timing, complete, ancestry_of,
  resolve_chain, resolve_value,
}
use smokeng.Tree.Ancestry.{Lineage, last_of}
use smokeng.Tree.Inherit.{Inherited, resolve-Inherited}

abbrev defaults : Settings
defaults = record {
  interval_s = some (pos 60);
  pings_per_interval = some (pos 20);
  probe_mode = some (codes "burst");
  burst_gap_ms = some (pos 100);
  timeout_ms = some (pos 1000);
  packet_size = some (pos 56);
  dscp = some (pos 0);
  agents = some (codes "local");
  probe_type = some (codes "icmp");
  probe_port = none;
  dns_query = none;
  dns_rr_type = none;
  http_path = none;
  tls_skip_verify = some false;
  trace_interval_s = some (pos 300);
  retention_s = some (pos 0);
  graph_series = some (codes "all");
}

abbrev unset : Settings
unset = record {
  interval_s = none;
  pings_per_interval = none;
  probe_mode = none;
  burst_gap_ms = none;
  timeout_ms = none;
  packet_size = none;
  dscp = none;
  agents = none;
  probe_type = none;
  probe_port = none;
  dns_query = none;
  dns_rr_type = none;
  http_path = none;
  tls_skip_verify = none;
  trace_interval_s = none;
  retention_s = none;
  graph_series = none;
}

abbrev pub root : Target
root = record {
  id = 1;
  parent_id = none;
  name = [];
  host = none;
  address_family = none;
  title = none;
  notes = none;
  hidden = false;
  enabled = true;
  sort_order = pos 0;
  settings = defaults;
}

abbrev group : Target
group = record root {
  id = 2;
  parent_id = some 1;
  name = codes "dns";
  settings = record unset { interval_s = some (pos 30) };
}

abbrev pub leaf : Target
leaf = record root {
  id = 3;
  parent_id = some 2;
  name = codes "quad9";
  host = some (codes "9.9.9.9");
  address_family = some (codes "v4");
  settings = unset;
}

abbrev pub targets : List Target
targets = leaf ∷ root ∷ group ∷ []

abbrev pub tree : Tree
tree = record { nodes = targets; root = root }

pub built : build targets ≡ ok tree
unfolding build index check_nodes check_siblings check_timing resolve complete validate
    parse_selection same fields trim_space find any to_upper get ancestry_of resolve_chain
    resolve_value burst_does_not_fit mul64 wrap64 ◌*ℤ◌ node_at
built = refl

orphan : build (root ∷ leaf ∷ []) ≡ err (missing_parent 3 2)
unfolding build index check_nodes complete validate parse_selection same fields trim_space find any
    to_upper ancestry_of node_at
orphan = refl

resolve-Inherited_example :
    (rest : List Target) × (r : Resolved) × (resolve tree 3 ≡ ok r)
    × Lineage targets (leaf ∷ rest)
    × (last_of (leaf ∷ rest) ≡ some root)
    × Inherited tree leaf rest r
resolve-Inherited_example = resolve-Inherited targets tree leaf built (inl refl)
