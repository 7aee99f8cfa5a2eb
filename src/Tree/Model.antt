-- ===== src/Tree/Model.antt =====
-- The data of internal/tree/tree.go. A nil pointer is `none`. Ids are database row ids, which are
-- never negative; every `int` of a setting is an integer, since only `validate` refuses a negative
-- one. A text is its code points.
use smokeng.Common.{ℕ, Bool, Option, List, ◌==◌, find}
use smokeng.Common.Int.{ℤ}

pub record Settings : Type 0 where
  pub interval_s : Option ℤ
  pub pings_per_interval : Option ℤ
  pub probe_mode : Option (List ℕ)
  pub burst_gap_ms : Option ℤ
  pub timeout_ms : Option ℤ
  pub packet_size : Option ℤ
  pub dscp : Option ℤ
  pub agents : Option (List ℕ)
  pub probe_type : Option (List ℕ)
  pub probe_port : Option ℤ
  pub dns_query : Option (List ℕ)
  pub dns_rr_type : Option (List ℕ)
  pub http_path : Option (List ℕ)
  pub tls_skip_verify : Option Bool
  pub trace_interval_s : Option ℤ
  pub retention_s : Option ℤ
  pub graph_series : Option (List ℕ)

pub record Target : Type 0 where
  pub id : ℕ
  pub parent_id : Option ℕ
  pub name : List ℕ
  pub host : Option (List ℕ)
  pub address_family : Option (List ℕ)
  pub title : Option (List ℕ)
  pub notes : Option (List ℕ)
  pub hidden : Bool
  pub enabled : Bool
  pub sort_order : ℤ
  pub settings : Settings

-- The node that an effective value came from.
pub record Source : Type 0 where
  pub id : ℕ
  pub name : List ℕ
  pub path : List ℕ

-- One resolved setting with its provenance.
pub record Value (T : Type 0) : Type 0 where
  pub local : Option T
  pub effective : T
  pub source : Source

pub record Resolved : Type 0 where
  pub interval_s : Value ℤ
  pub pings_per_interval : Value ℤ
  pub probe_mode : Value (List ℕ)
  pub burst_gap_ms : Value ℤ
  pub timeout_ms : Value ℤ
  pub packet_size : Value ℤ
  pub dscp : Value ℤ
  pub agents : Value (List ℕ)
  pub trace_interval_s : Value ℤ
  pub retention_s : Value ℤ
  pub graph_series : Value (List ℕ)
  pub probe_type : Value (List ℕ)
  pub probe_port : Value ℤ
  pub dns_query : Value (List ℕ)
  pub dns_rr_type : Value (List ℕ)
  pub http_path : Value (List ℕ)
  pub tls_skip_verify : Value Bool

-- A validated snapshot; the map `nodes` is the list of its targets, whose ids are distinct.
pub record Tree : Type 0 where
  pub nodes : List Target
  pub root : Target

-- `t.nodes[id]`
unfoldable pub node_at : List Target → ℕ → Option Target
node_at nodes id = find (λ (n : Target). n.id == id) nodes

-- Get
unfoldable pub get : Tree → ℕ → Option Target
unfolding node_at
get t id = node_at t.nodes id

-- What a field-level check refuses, in the order of the checks.
pub data FieldError : Type 0 where
  name_required name_slash host_family family probe_mode_unknown : FieldError
  interval_not_positive pings_range burst_gap_negative : FieldError
  timeout_not_positive timeout_too_long packet_size_range dscp_range : FieldError
  probe_type_unknown probe_port_range dns_rr_type_unknown agents_empty : FieldError
  graph_series_bad trace_negative retention_negative : FieldError

pub data TreeError : Type 0 where
  duplicate_id : ℕ → TreeError
  multiple_roots : ℕ → ℕ → TreeError
  no_root : TreeError
  root_incomplete : ℕ → TreeError
  missing_parent : (node parent : ℕ) → TreeError
  cycle : ℕ → TreeError
  invalid : ℕ → FieldError → TreeError
  duplicate_sibling : (parent : ℕ) → (name : List ℕ) → TreeError
  burst_too_long : ℕ → TreeError
  unknown_id : ℕ → TreeError
