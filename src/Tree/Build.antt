-- ===== src/Tree/Build.antt =====
-- `New`, `ancestryOf`, `Path`, `Get` and `Resolve` of internal/tree/tree.go. The loops over the map
-- run in the order of the list of targets; Go leaves the order open, and on it depends only which
-- of several errors is reported.
use smokeng.Common.{
  ℕ, zero, suc, Bool, true, false, not, ◌&&◌, Option, none, some, List, [], ◌∷◌, ◌++◌, map, reverse,
  any, length, ◌==◌,
}
use smokeng.Common.Int.{ℤ, pos}
use smokeng.Common.Text.{same}
use smokeng.Common.Result.{Result, ok, err, ◌>>=◌, ◌>>◌, fail_if}
use smokeng.Tree.Model.{
  Settings, Target, Value, Resolved, Tree, node_at, get, TreeError, duplicate_id, multiple_roots,
  no_root, root_incomplete, missing_parent, cycle, invalid, duplicate_sibling, burst_too_long,
  unknown_id,
}
use smokeng.Tree.Validate.{is_set, validate, burst_does_not_fit}

-- The first loop of `New`: the map filled so far, and the root if one was met.
unfoldable pub index :
    List Target → Option Target → List Target → Result TreeError (List Target × Option Target)
index nodes root [] = ok (nodes, root)
index nodes root (n ∷ rest) = elim (node_at nodes n.id) [
  | some _ ↦ err (duplicate_id n.id)
  | none ↦ elim n.parent_id [
    | some _ ↦ index (nodes ++ n ∷ []) root rest
    | none ↦ elim root [
      | some r ↦ err (multiple_roots r.id n.id)
      | none ↦ index (nodes ++ n ∷ []) (some n) rest
    ]
  ]
]

-- The settings that the root has to set; the port and the texts of some probe types may be unset.
unfoldable pub complete : Settings → Bool
complete s =
    is_set s.interval_s
    && is_set s.pings_per_interval
    && is_set s.probe_mode
    && is_set s.burst_gap_ms
    && is_set s.timeout_ms
    && is_set s.packet_size
    && is_set s.dscp
    && is_set s.agents
    && is_set s.trace_interval_s
    && is_set s.retention_s
    && is_set s.probe_type
    && is_set s.tls_skip_verify
    && is_set s.graph_series

-- The loop of `ancestryOf` from the node `id`, whose parent is given and which the chain already
-- holds. `room` is `len(nodes) + 1 - len(chain)`, so that `room = 0` is the test
-- `len(chain) > len(nodes)`; `start` is the node that the error names. The result is what follows
-- the node in the chain.
unfoldable pub climb :
    List Target → (start room id : ℕ) → (parent : Option ℕ) → Result TreeError (List Target)
climb nodes start room id none = ok []
climb nodes start zero id (some p) = elim (node_at nodes p) [
  | none ↦ err (missing_parent id p)
  | some _ ↦ err (cycle start)
]
climb nodes start (suc room) id (some p) = elim (node_at nodes p) [
  | none ↦ err (missing_parent id p)
  | some next ↦ do rest ← climb nodes start room next.id next.parent_id; ok (next ∷ rest)
]

unfoldable pub ancestry_of : List Target → Target → Result TreeError (List Target)
unfolding climb
ancestry_of nodes n = do rest ← climb nodes n.id (length nodes) n.id n.parent_id; ok (n ∷ rest)

-- `chain[:len(chain)-1]`
unfoldable pub drop_root : List Target → List Target
drop_root [] = []
drop_root (n ∷ []) = []
drop_root (n ∷ m ∷ rest) = n ∷ drop_root (m ∷ rest)

-- strings.Join(parts, "/")
unfoldable pub join : List (List ℕ) → List ℕ
join [] = []
join (s ∷ []) = s
join (s ∷ t ∷ rest) = s ++ b'/' ∷ join (t ∷ rest)

unfoldable pub path_of : List Target → List ℕ
unfolding drop_root join
path_of chain = b'/' ∷ join (reverse (map (λ (n : Target). n.name) (drop_root chain)))

-- Path
unfoldable pub path : Tree → ℕ → Result TreeError (List ℕ)
unfolding path_of get ancestry_of
path t id = elim (get t id) [
  | none ↦ err (unknown_id id)
  | some n ↦ do chain ← ancestry_of t.nodes n; ok (path_of chain)
]

-- `path, _ := t.Path(id)`
unfoldable pub path_or_empty : Tree → ℕ → List ℕ
path_or_empty t id = elim (path t id) [ ok p ↦ p | err _ ↦ [] ]

-- The loop of `resolve`: the first node of the chain that sets the value. `unset` is the zero value
-- of the type.
unfoldable pub nearest :
    {T : Type 0} → Tree → Option T → T → (Settings → Option T) → List Target → Value T
unfolding path_or_empty
nearest t local unset field [] = record {
  local = local;
  effective = unset;
  source = record { id = 0; name = []; path = [] };
}
nearest t local unset field (n ∷ chain) = elim (field n.settings) [
  | some v ↦ record {
    local = local;
    effective = v;
    source = record { id = n.id; name = n.name; path = path_or_empty t n.id };
  }
  | none ↦ nearest t local unset field chain
]

-- `resolve`; a chain starts with the node itself.
unfoldable pub resolve_value :
    {T : Type 0} → Tree → T → (Settings → Option T) → List Target → Value T
unfolding nearest
resolve_value t unset field [] = nearest t none unset field []
resolve_value t unset field (n ∷ chain) = nearest t (field n.settings) unset field (n ∷ chain)

abbrev zero_int : ℤ
zero_int = pos 0

unfoldable pub resolve_chain : Tree → List Target → Resolved
resolve_chain t chain = record {
  interval_s = resolve_value t zero_int (λ (s : Settings). s.interval_s) chain;
  pings_per_interval = resolve_value t zero_int (λ (s : Settings). s.pings_per_interval) chain;
  probe_mode = resolve_value t [] (λ (s : Settings). s.probe_mode) chain;
  burst_gap_ms = resolve_value t zero_int (λ (s : Settings). s.burst_gap_ms) chain;
  timeout_ms = resolve_value t zero_int (λ (s : Settings). s.timeout_ms) chain;
  packet_size = resolve_value t zero_int (λ (s : Settings). s.packet_size) chain;
  dscp = resolve_value t zero_int (λ (s : Settings). s.dscp) chain;
  agents = resolve_value t [] (λ (s : Settings). s.agents) chain;
  trace_interval_s = resolve_value t zero_int (λ (s : Settings). s.trace_interval_s) chain;
  retention_s = resolve_value t zero_int (λ (s : Settings). s.retention_s) chain;
  graph_series = resolve_value t [] (λ (s : Settings). s.graph_series) chain;
  probe_type = resolve_value t [] (λ (s : Settings). s.probe_type) chain;
  probe_port = resolve_value t zero_int (λ (s : Settings). s.probe_port) chain;
  dns_query = resolve_value t [] (λ (s : Settings). s.dns_query) chain;
  dns_rr_type = resolve_value t [] (λ (s : Settings). s.dns_rr_type) chain;
  http_path = resolve_value t [] (λ (s : Settings). s.http_path) chain;
  tls_skip_verify = resolve_value t false (λ (s : Settings). s.tls_skip_verify) chain;
}

-- Resolve
unfoldable pub resolve : Tree → ℕ → Result TreeError Resolved
resolve t id = elim (get t id) [
  | none ↦ err (unknown_id id)
  | some n ↦ do chain ← ancestry_of t.nodes n; ok (resolve_chain t chain)
]

-- The second loop of `New`: every node has an ancestry, and passes its own checks.
unfoldable pub check_nodes : List Target → List Target → Result TreeError (Unit {0})
check_nodes nodes [] = ok tt
check_nodes nodes (n ∷ rest) = do
  chain ← ancestry_of nodes n
  elim (validate n) [ ok _ ↦ check_nodes nodes rest | err e ↦ err (invalid n.id e) ]

-- A node whose parent and name are those given; the key `"%d/%s"` of the source names both, since no
-- digit is a slash.
abbrev pub is_child_named : ℕ → List ℕ → Target → Bool
is_child_named p name m = elim m.parent_id [ none ↦ false | some q ↦ (q == p) && same m.name name ]

-- The third loop: `seen` are the nodes whose key was entered.
unfoldable pub check_siblings : List Target → List Target → Result TreeError (Unit {0})
check_siblings seen [] = ok tt
check_siblings seen (n ∷ rest) = elim n.parent_id [
  | none ↦ check_siblings seen rest
  | some p ↦ elim (any (is_child_named p n.name) seen) [
    | true ↦ err (duplicate_sibling p n.name)
    | false ↦ check_siblings (n ∷ seen) rest
  ]
]

-- The last loop: the timing of every leaf.
unfoldable pub check_timing : Tree → List Target → Result TreeError (Unit {0})
check_timing t [] = ok tt
check_timing t (n ∷ rest) = elim n.host [
  | none ↦ check_timing t rest
  | some _ ↦ do
    r ← resolve t n.id
    fail_if (burst_does_not_fit r) (burst_too_long n.id)
    check_timing t rest
]

unfoldable pub root_of : Option Target → Result TreeError Target
root_of none = err no_root
root_of (some r) = ok r

-- The rest of `New`, once the map is filled and the root known.
unfoldable pub check_tree : Tree → Result TreeError Tree
check_tree t = do
  fail_if (not (complete t.root.settings)) (root_incomplete t.root.id)
  check_nodes t.nodes t.nodes
  check_siblings [] t.nodes
  check_timing t t.nodes
  ok t

-- New
unfoldable pub build : List Target → Result TreeError Tree
unfolding root_of check_tree
build targets = do
  (nodes, last) ← index [] none targets
  root ← root_of last
  check_tree (record { nodes = nodes; root = root })
