-- ===== src/Tree/Inherit.antt =====
-- Inheritance: each effective value is that of the nearest node that sets it, with its provenance.
use smokeng.Common.{
  ℕ, true, Option, none, some, List, [], ◌∷◌, ◌++◌, ◌≡◌, ◌≢◌, refl, arith, All, In, All-In,
  Option-cases, inl, inr, ap, sym, ◌∙◌,
}
use smokeng.Common.Result.{ok}
use smokeng.Tree.Model.{Settings, Target, Value, Resolved, Tree, get, node_at}
use smokeng.Tree.Build.{
  complete, ancestry_of, path_or_empty, nearest, resolve_value, resolve_chain, resolve, build,
}
use smokeng.Tree.Built.{build-Built}
use smokeng.Tree.Ancestry.{Lineage, last_of, ancestry-build, get-build}

-- `v` is the value of the field at the first node of the chain that sets it, and says so: the value,
-- the node's id, its name and its path; and beside it the value of the chain's own first node.
pub record Inherits {T : Type 0} (t : Tree) (field : Settings → Option T) (n : Target)
    (rest : List Target) (v : Value T) : Type 0 where
  pub below : List Target
  pub setter : Target
  pub above : List Target
  pub split : n ∷ rest ≡ below ++ setter ∷ above
  pub unset_below : All (λ (m : Target). field m.settings ≡ none) below
  pub sets : field setter.settings ≡ some v.effective
  pub local_own : v.local ≡ field n.settings
  pub source_id : v.source.id ≡ setter.id
  pub source_name : v.source.name ≡ setter.name
  pub source_path : v.source.path ≡ path_or_empty t setter.id

-- The loop finds the first setter, when the last node of the chain sets the value.
record Nearest {T : Type 0} (t : Tree) (local : Option T) (field : Settings → Option T)
    (chain : List Target) (v : Value T) : Type 0 where
  below : List Target
  setter : Target
  above : List Target
  split : chain ≡ below ++ setter ∷ above
  unset_below : All (λ (m : Target). field m.settings ≡ none) below
  sets : field setter.settings ≡ some v.effective
  local_own : v.local ≡ local
  source_id : v.source.id ≡ setter.id
  source_name : v.source.name ≡ setter.name
  source_path : v.source.path ≡ path_or_empty t setter.id

module _ {T : Type 0} (t : Tree) (local : Option T) (unset : T) (field : Settings → Option T) where
  abbrev found_at : Target → T → Value T
  found_at n x = record {
    local = local;
    effective = x;
    source = record { id = n.id; name = n.name; path = path_or_empty t n.id };
  }

  nearest-set :
      (n : Target) (chain : List Target) (x : T)
      → field n.settings ≡ some x
      → nearest t local unset field (n ∷ chain) ≡ found_at n x
  unfolding nearest
  nearest-set n chain x e = rw (e, nearest)

  nearest-unset :
      (n : Target) (chain : List Target)
      → field n.settings ≡ none
      → nearest t local unset field (n ∷ chain) ≡ nearest t local unset field chain
  unfolding nearest
  nearest-unset n chain e = rw (e, nearest)

  Nearest-set :
      (n : Target) (chain : List Target) (x : T)
      → field n.settings ≡ some x
      → Nearest t local field (n ∷ chain) (nearest t local unset field (n ∷ chain))
  Nearest-set n chain x e = rw (nearest-set n chain x e) (record {
    below = [];
    setter = n;
    above = chain;
    split = refl;
    unset_below = tt;
    sets = e;
    local_own = refl;
    source_id = refl;
    source_name = refl;
    source_path = refl;
  })

  nearest-Nearest :
      (chain : List Target) (n root : Target)
      → last_of (n ∷ chain) ≡ some root
      → field root.settings ≢ none
      → Nearest t local field (n ∷ chain) (nearest t local unset field (n ∷ chain))
  nearest-Nearest [] n root last h = elim (Option-cases (field n.settings)) [
    | inl e ↦
        let root_is : n ≡ root = cc last in
        absurd (h (ap (λ (m : Target). field m.settings) (sym root_is) ∙ e))
    | inr (x, e) ↦ Nearest-set n [] x e
  ]
  nearest-Nearest (m ∷ chain) n root last h = elim (Option-cases (field n.settings)) [
    | inl e ↦
        let r = nearest-Nearest chain m root last h in
        rw (nearest-unset n (m ∷ chain) e) (record {
          below = n ∷ r.below;
          setter = r.setter;
          above = r.above;
          split = ap (λ (c : List Target). n ∷ c) r.split;
          unset_below = (e, r.unset_below);
          sets = r.sets;
          local_own = r.local_own;
          source_id = r.source_id;
          source_name = r.source_name;
          source_path = r.source_path;
        })
    | inr (x, e) ↦ Nearest-set n (m ∷ chain) x e
  ]

-- `resolve` gives each value with its provenance, wherever the root sets the field.
resolve_value-Inherits :
    {T : Type 0} (t : Tree) (unset : T) (field : Settings → Option T) (n : Target)
    (rest : List Target)
    → last_of (n ∷ rest) ≡ some t.root
    → field t.root.settings ≢ none
    → Inherits t field n rest (resolve_value t unset field (n ∷ rest))
unfolding resolve_value
resolve_value-Inherits t unset field n rest last h =
    let r = nearest-Nearest t (field n.settings) unset field rest n t.root last h in
    record {
      below = r.below;
      setter = r.setter;
      above = r.above;
      split = r.split;
      unset_below = r.unset_below;
      sets = r.sets;
      local_own = r.local_own;
      source_id = r.source_id;
      source_name = r.source_name;
      source_path = r.source_path;
    }

-- The settings that `New` wants of the root are inherited by every node.
pub record Inherited (t : Tree) (n : Target) (rest : List Target) (r : Resolved) : Type 0 where
  pub interval_s : Inherits t (λ (s : Settings). s.interval_s) n rest r.interval_s
  pub pings : Inherits t (λ (s : Settings). s.pings_per_interval) n rest r.pings_per_interval
  pub probe_mode : Inherits t (λ (s : Settings). s.probe_mode) n rest r.probe_mode
  pub burst_gap_ms : Inherits t (λ (s : Settings). s.burst_gap_ms) n rest r.burst_gap_ms
  pub timeout_ms : Inherits t (λ (s : Settings). s.timeout_ms) n rest r.timeout_ms
  pub packet_size : Inherits t (λ (s : Settings). s.packet_size) n rest r.packet_size
  pub dscp : Inherits t (λ (s : Settings). s.dscp) n rest r.dscp
  pub agents : Inherits t (λ (s : Settings). s.agents) n rest r.agents
  pub trace : Inherits t (λ (s : Settings). s.trace_interval_s) n rest r.trace_interval_s
  pub retention : Inherits t (λ (s : Settings). s.retention_s) n rest r.retention_s
  pub graph_series : Inherits t (λ (s : Settings). s.graph_series) n rest r.graph_series
  pub probe_type : Inherits t (λ (s : Settings). s.probe_type) n rest r.probe_type
  pub tls_skip_verify : Inherits t (λ (s : Settings). s.tls_skip_verify) n rest r.tls_skip_verify

record IsComplete (s : Settings) : Type 0 where
  interval_s : s.interval_s ≢ none
  pings : s.pings_per_interval ≢ none
  probe_mode : s.probe_mode ≢ none
  burst_gap_ms : s.burst_gap_ms ≢ none
  timeout_ms : s.timeout_ms ≢ none
  packet_size : s.packet_size ≢ none
  dscp : s.dscp ≢ none
  agents : s.agents ≢ none
  trace : s.trace_interval_s ≢ none
  retention : s.retention_s ≢ none
  probe_type : s.probe_type ≢ none
  tls_skip_verify : s.tls_skip_verify ≢ none
  graph_series : s.graph_series ≢ none

complete-IsComplete : (s : Settings) → complete s ≡ true → IsComplete s
unfolding complete
complete-IsComplete s h = ground arith

resolve_chain-Inherited :
    (t : Tree) (n : Target) (rest : List Target)
    → last_of (n ∷ rest) ≡ some t.root
    → IsComplete t.root.settings
    → Inherited t n rest (resolve_chain t (n ∷ rest))
unfolding resolve_chain
resolve_chain-Inherited t n rest last c = record {
  interval_s = resolve_value-Inherits t _ _ n rest last c.interval_s;
  pings = resolve_value-Inherits t _ _ n rest last c.pings;
  probe_mode = resolve_value-Inherits t _ _ n rest last c.probe_mode;
  burst_gap_ms = resolve_value-Inherits t _ _ n rest last c.burst_gap_ms;
  timeout_ms = resolve_value-Inherits t _ _ n rest last c.timeout_ms;
  packet_size = resolve_value-Inherits t _ _ n rest last c.packet_size;
  dscp = resolve_value-Inherits t _ _ n rest last c.dscp;
  agents = resolve_value-Inherits t _ _ n rest last c.agents;
  trace = resolve_value-Inherits t _ _ n rest last c.trace;
  retention = resolve_value-Inherits t _ _ n rest last c.retention;
  graph_series = resolve_value-Inherits t _ _ n rest last c.graph_series;
  probe_type = resolve_value-Inherits t _ _ n rest last c.probe_type;
  tls_skip_verify = resolve_value-Inherits t _ _ n rest last c.tls_skip_verify;
}

pub resolve_found :
    (t : Tree) (n : Target) (id : ℕ) (chain : List Target)
    → node_at t.nodes id ≡ some n
    → ancestry_of t.nodes n ≡ ok chain
    → resolve t id ≡ ok (resolve_chain t chain)
unfolding resolve get
resolve_found t n id chain e a = rw (e, a, resolve)

-- Resolving is total on a tree that `build` accepts: every target resolves, along its lineage to the
-- root, and each of the thirteen settings that the root has to set is that of the nearest node that
-- sets it, with that node's id, name and path as its source and the target's own value beside it.
pub resolve-Inherited :
    (targets : List Target) (t : Tree) (n : Target)
    → build targets ≡ ok t
    → In n targets
    → (rest : List Target) × (r : Resolved) × (resolve t n.id ≡ ok r)
      × Lineage t.nodes (n ∷ rest)
      × (last_of (n ∷ rest) ≡ some t.root)
      × Inherited t n rest r
resolve-Inherited targets t n built i =
    let (rest, a, line, last) = ancestry-build targets built n i in
    let found =
      All-In (λ (m : Target). node_at t.nodes m.id ≡ some m) targets (get-build targets built) i in
    let root_complete =
      complete-IsComplete t.root.settings (build-Built targets built).complete_root in
    (
      rest,
      resolve_chain t (n ∷ rest),
      resolve_found t n n.id (n ∷ rest) found a,
      line,
      last,
      resolve_chain-Inherited t n rest last root_complete,
    )
