-- ===== src/Scenarios/Reloads.antt =====
-- A reload of a manager from a small store.
use smokeng.Common.{ℕ, ◌≡◌, refl, inl, Bool, some, List, [], ◌∷◌, any, find, keep}
use smokeng.Common.Int.{pos}
use smokeng.Common.Text.{codes}
use smokeng.Common.Result.{ok}
use smokeng.Tree.Model.{Target, Tree, get}
use smokeng.Tree.Build.{build, resolve, path, ancestry_of, resolve_chain, resolve_value}
use smokeng.Tree.Ancestry.{Lineage, last_of}
use smokeng.Alert.Manager.{Applicable, Manager, state_at, applicable_at, put_state, above_of}
use smokeng.Alert.Nearest.{nearest_rule_node}
use smokeng.Alert.Reload.{
  Stored, reload, ancestors_of, applicable_all, keep_live, is_rule, is_probed,
}
use smokeng.Alert.Reloaded.{last_state, or_else, reload-state_at}
use smokeng.Alert.Contexts.{IsContext, reload-IsContext}
use smokeng.Access.Chain.{ids}
use smokeng.Scenarios.Alerts.{rule, burning}
use smokeng.Scenarios.Managers.{manager}
use smokeng.Scenarios.Trees.{targets, leaf, built}

abbrev no_memory : (ℕ → Bool) → Unit {0} → Unit {0}
no_memory p h = h

-- The rule on the group, and an older copy of its state.
abbrev stored : Stored ℕ
stored = record {
  targets = targets;
  rules = record rule { target_id = 2 } ∷ [];
  states = record burning { streak = 9 } ∷ [];
  silences = [];
}

abbrev watched : Applicable ℕ
watched = record {
  target = 3;
  rules = record rule { target_id = 2 } ∷ [];
  interval_s = pos 30;
  path = codes "/dns/quad9";
  host = codes "9.9.9.9";
}

abbrev reloaded : Manager ℕ (Unit {0})
reloaded = record manager {
  by_target = watched ∷ [];
  rules = stored.rules;
  ancestors = ancestors_of targets targets;
}

reloads : reload no_memory stored manager ≡ ok reloaded
unfolding applicable_all keep_live reload ancestors_of resolve get find ancestry_of path
    nearest_rule_node resolve_chain any keep resolve_value put_state
reloads = rw (built, reload) refl

reload-state_at_example :
    state_at reloaded.states 7 3 1
    ≡ or_else (state_at manager.states 7 3 1) (last_state stored.states 7 3 1)
unfolding any state_at is_rule
reload-state_at_example = reload-state_at no_memory stored manager reloaded 7 3 1 reloads

reload-IsContext_example :
    (t : Tree) × (build targets ≡ ok t)
    × (rest : List Target) × Lineage t.nodes (leaf ∷ rest)
    × (last_of (leaf ∷ rest) ≡ some t.root)
    × (app : Applicable ℕ) × (applicable_at reloaded.by_target 3 ≡ some app)
    × IsContext stored.rules t (leaf ∷ rest) leaf app
    × (above_of reloaded 3 ≡ ids (leaf ∷ rest))
unfolding is_probed
reload-IsContext_example =
    reload-IsContext no_memory stored manager reloaded leaf reloads (inl refl) refl
