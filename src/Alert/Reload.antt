-- ===== src/Alert/Reload.antt =====
-- `Reload` of internal/alert/manager.go. It reads the store first, then takes the lock and replaces what
-- the manager holds; what it read is its input here. The names of the agents and the captured baselines
-- are left out: the first are for display, the second belong to the shape rules.
use smokeng.Common.{
  ℕ, zero, suc, Bool, false, Option, none, some, List, [], ◌∷◌, length, any, keep, ◌==◌,
  if◌then◌else◌,
}
use smokeng.Common.Result.{Result, ok, ◌>>=◌}
use smokeng.Tree.Model.{Target, Tree, TreeError, node_at}
use smokeng.Tree.Build.{build, resolve, path}
use smokeng.Alert.Rule.{Rule, State}
use smokeng.Alert.Silence.{Silence}
use smokeng.Alert.Manager.{Applicable, Manager, put_state}
use smokeng.Alert.Nearest.{nearest_rule_node}

-- What the store holds.
pub record Stored (F : Type 0) : Type 0 where
  pub targets : List Target
  pub rules : List (Rule F)
  pub states : List (State F)
  pub silences : List Silence

-- A host that is set, of a target that is enabled.
unfoldable pub is_probed : Target → Bool
is_probed n = elim n.host [ none ↦ false | some h ↦ n.enabled ]

-- The ids of a target and of the nodes above it; `fuel` bounds the rounds of the loop.
unfoldable pub above_from : List Target → (fuel : ℕ) → Target → List ℕ
above_from nodes zero n = n.id ∷ []
above_from nodes (suc fuel) n = elim n.parent_id [
  | none ↦ n.id ∷ []
  | some p ↦ elim (node_at nodes p) [ none ↦ n.id ∷ [] | some m ↦ n.id ∷ above_from nodes fuel m ]
]

-- An accepted tree has no cycle, so a way up meets each node once.
unfoldable pub above : List Target → Target → List ℕ
unfolding above_from
above nodes n = above_from nodes (length nodes) n

abbrev pub host_of : Option (List ℕ) → List ℕ
host_of none = []
host_of (some h) = h

-- The map `ancestors`, of all the targets.
unfoldable pub ancestors_of : List Target → List Target → List (ℕ × List ℕ)
unfolding above
ancestors_of nodes [] = []
ancestors_of nodes (n ∷ targets) = (n.id, above nodes n) ∷ ancestors_of nodes targets

module _ {F : Type 0} where
  -- byNode[id]
  unfoldable pub rules_on : List (Rule F) → ℕ → List (Rule F)
  rules_on rules id = keep (λ (r : Rule F). r.target_id == id) rules

  -- `len(byNode[id]) > 0`
  unfoldable pub has_rules : List (Rule F) → ℕ → Bool
  has_rules rules id = any (λ (r : Rule F). r.target_id == id) rules

  -- `byID[id]` exists.
  unfoldable pub is_rule : List (Rule F) → ℕ → Bool
  is_rule rules id = any (λ (r : Rule F). r.id == id) rules

  abbrev pub rules_at : List (Rule F) → Option ℕ → List (Rule F)
  rules_at rules none = []
  rules_at rules (some node) = rules_on rules node

  -- The alerting context of a target that is probed.
  unfoldable pub applicable_of : List (Rule F) → Tree → Target → Result TreeError (Applicable F)
  unfolding rules_on has_rules
  applicable_of rules t n = do
    res ← resolve t n.id
    p ← path t n.id
    ok (record {
      target = n.id;
      rules = rules_at rules (nearest_rule_node t (has_rules rules) n.id);
      interval_s = res.interval_s.effective;
      path = p;
      host = host_of n.host;
    })

  unfoldable pub applicable_all :
      List (Rule F) → Tree → List Target → Result TreeError (List (Applicable F))
  unfolding is_probed applicable_of
  applicable_all rules t [] = ok []
  applicable_all rules t (n ∷ targets) =
      let rest = applicable_all rules t targets in
      if is_probed n then (do app ← applicable_of rules t n; apps ← rest; ok (app ∷ apps)) else rest

  -- The loop over the states that were read: a later one replaces one of its key.
  unfoldable pub keep_stored : List (Rule F) → List (State F) → List (State F) → List (State F)
  unfolding is_rule
  keep_stored rules [] kept = kept
  keep_stored rules (st ∷ states) kept =
      keep_stored rules states (if is_rule rules st.rule_id then put_state st kept else kept)

  -- The loop over the map of the states in memory, whose keys are distinct.
  unfoldable pub keep_live : List (Rule F) → List (State F) → List (State F) → List (State F)
  unfolding is_rule
  keep_live rules [] kept = kept
  keep_live rules (st ∷ states) kept =
      let rest = keep_live rules states kept in
      if is_rule rules st.rule_id then put_state st rest else rest

  -- `forget` drops the shape memory of the rules that are gone.
  module _ {H : Type 0} (forget : (ℕ → Bool) → H → H) where
    unfoldable pub reload : Stored F → Manager F H → Result TreeError (Manager F H)
    unfolding applicable_all keep_stored keep_live ancestors_of
    reload s m = do
      t ← build s.targets
      apps ← applicable_all s.rules t s.targets
      ok (record m {
        by_target = apps;
        rules = s.rules;
        states = keep_live s.rules m.states (keep_stored s.rules s.states []);
        silences = s.silences;
        ancestors = ancestors_of t.nodes s.targets;
        shapes = forget (is_rule s.rules) m.shapes;
      })
