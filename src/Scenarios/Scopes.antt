-- ===== src/Scenarios/Scopes.antt =====
-- An editor of the group 2, by a grant to one of the groups of the session.
use smokeng.Common.{◌≡◌, refl, ◌||◌, some, List, [], ◌∷◌, arith, any, find, inl}
use smokeng.Common.Text.{codes}
use smokeng.Tree.Model.{Target, get, node_at}
use smokeng.Tree.Ancestry.{Lineage, last_of}
use smokeng.Access.Role.{editor, viewer, no_role, at_least}
use smokeng.Access.Scope.{
  Scope, Session, Grant, scope_for, role_on, chain, root_of, climb_ids, root_at,
}
use smokeng.Access.Reach.{gives}
use smokeng.Access.Role.{max_role}
use smokeng.Common.{false}
use smokeng.Common.Text.{same, fields}
use smokeng.Common.Result.{ok}
use smokeng.Tree.Build.{resolve, ancestry_of, resolve_chain, resolve_value}
use smokeng.Access.Scope.{
  AgentSet, has_agent, agents_in_scope, agents_seen, is_global_admin, visible, role_along,
}
use smokeng.Access.Agents.{Measures, agents_in_scope-Measures}
use smokeng.Access.Session.{scope_for-reach}
use smokeng.Access.Chain.{ids}
use smokeng.Access.Highest.{Highest, root_of-Highest}
use smokeng.Scenarios.Trees.{targets, tree, leaf, built}

abbrev editors : Session
editors = record { role = viewer; groups = codes "dns-team" ∷ [] }

abbrev grants : List Grant
grants =
    record { group = codes "web-team"; target_id = 1; role = editor }
    ∷ record { group = codes "dns-team"; target_id = 2; role = editor }
    ∷ []

scope_for-reach_example :
    (rest : List Target) × Lineage targets (leaf ∷ rest)
    × (last_of (leaf ∷ rest) ≡ some tree.root)
    × (at_least (role_on (scope_for tree no_role (some editors) grants) 3) editor ≡ (
        at_least no_role editor
        || any (λ (m : Target). any (gives editors.groups editor m.id) grants) (leaf ∷ rest)))
unfolding at_least
scope_for-reach_example =
    scope_for-reach targets tree leaf no_role editors grants editor built
      (omega arith, (omega arith, (omega arith, tt))) (inl refl) refl refl

abbrev scope : Scope
scope = record { global = no_role; roots = record { node = 2; role = editor } ∷ []; tr = tree }

root_of-Highest_example :
    (rest : List Target) × Lineage targets (leaf ∷ rest)
    × (last_of (leaf ∷ rest) ≡ some tree.root)
    × Highest (record { node = 2; role = editor } ∷ []) (ids (leaf ∷ rest)) (root_of scope 3)
unfolding at_least
root_of-Highest_example =
    root_of-Highest targets scope leaf built (omega arith, (omega arith, (omega arith, tt)))
      (inl refl) refl

root_of_run : root_of scope 3 ≡ 2
unfolding root_of chain climb_ids get node_at find at_least root_at
root_of_run = refl

abbrev seen_agents : AgentSet
seen_agents = record { all = false; names = codes "local" ∷ codes "local" ∷ [] }

collected : agents_in_scope scope targets ≡ ok seen_agents
unfolding agents_in_scope agents_seen is_global_admin visible role_on role_along root_at at_least
    max_role chain climb_ids get node_at find resolve ancestry_of resolve_chain resolve_value fields
collected = refl

agents_in_scope-Measures_example : Measures scope targets (codes "local")
unfolding is_global_admin at_least has_agent any same
agents_in_scope-Measures_example =
    agents_in_scope-Measures scope targets (codes "local") {set = seen_agents} refl collected refl
