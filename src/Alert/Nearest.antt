-- ===== src/Alert/Nearest.antt =====
-- `NearestRuleNode` of internal/alert/manager.go: the node whose rules apply to a target.
use smokeng.Common.{
  ℕ, zero, suc, ◌≤◌, ◌≡◌, Bool, true, false, Option, none, some, List, [], ◌∷◌, map, arith, length,
  find, In, All-In, Bool-cases, inl, inr, if◌then◌else◌, ap, sym, ◌∙◌,
}
use smokeng.Common.Result.{ok}
use smokeng.Tree.Model.{Target, Tree, node_at, get}
use smokeng.Tree.Build.{build}
use smokeng.Tree.Lookup.{node_at-id}
use smokeng.Tree.Ancestry.{Lineage, last_of, ancestry-build, ancestry-length, get-build}

-- The loop, from the node `id`; `fuel` bounds its rounds.
unfoldable pub nearest_from : Tree → (ℕ → Bool) → (fuel id : ℕ) → Option ℕ
nearest_from tr has_rules zero id = none
nearest_from tr has_rules (suc fuel) id = elim (get tr id) [
  | none ↦ none
  | some cur ↦
      if has_rules cur.id
      then some cur.id
      else elim cur.parent_id [ none ↦ none | some p ↦ nearest_from tr has_rules fuel p ]
]

-- NearestRuleNode: a way up meets each node once.
unfoldable pub nearest_rule_node : Tree → (ℕ → Bool) → (target_id : ℕ) → Option ℕ
unfolding nearest_from
nearest_rule_node tr has_rules target_id =
    nearest_from tr has_rules (suc (length tr.nodes)) target_id

module _ (t : Tree) (has_rules : ℕ → Bool) where
  from-set :
      (n : Target) (fuel : ℕ)
      → get t n.id ≡ some n
      → has_rules n.id ≡ true
      → nearest_from t has_rules (suc fuel) n.id ≡ some n.id
  unfolding nearest_from
  from-set n fuel e h = ground (arith, e, h)

  from-root :
      (n : Target) (fuel : ℕ)
      → get t n.id ≡ some n
      → has_rules n.id ≡ false
      → n.parent_id ≡ none
      → nearest_from t has_rules (suc fuel) n.id ≡ none
  unfolding nearest_from
  from-root n fuel e h p = ground (arith, e, h, p)

  from-above :
      (n : Target) (fuel p : ℕ)
      → get t n.id ≡ some n
      → has_rules n.id ≡ false
      → n.parent_id ≡ some p
      → nearest_from t has_rules (suc fuel) n.id ≡ nearest_from t has_rules fuel p
  unfolding nearest_from
  from-above n fuel p e h q = ground (arith, e, h, q)

  pub from-Lineage :
      (rest : List Target) (n : Target) (fuel : ℕ)
      → node_at t.nodes n.id ≡ some n
      → Lineage t.nodes (n ∷ rest)
      → length rest ≤ fuel
      → nearest_from t has_rules (suc fuel) n.id
        ≡ find has_rules (map (λ (m : Target). m.id) (n ∷ rest))
  unfolding get find
  from-Lineage [] n fuel e line short = elim (Bool-cases (has_rules n.id)) [
    | inl h ↦ from-set n fuel e h ∙ rw h
    | inr h ↦ from-root n fuel e h line ∙ rw h
  ]
  from-Lineage (m ∷ rest) n zero e line short = absurd (omega arith)
  from-Lineage (m ∷ rest) n (suc fuel) e (p, q, at, line) short =
      elim (Bool-cases (has_rules n.id)) [
        | inl h ↦ from-set n (suc fuel) e h ∙ rw h
        | inr h ↦
            let id_is : m.id ≡ p = node_at-id t.nodes p at in
            let own : node_at t.nodes m.id ≡ some m = ap (node_at t.nodes) id_is ∙ at in
            from-above n (suc fuel) p e h q
            ∙ ap (λ (i : ℕ). nearest_from t has_rules (suc fuel) i) (sym id_is)
            ∙ from-Lineage rest m fuel own line (omega arith)
            ∙ rw h
      ]

-- The nearest node that defines rules wins. On a tree that `build` accepts, the node found for a target
-- is the first of its lineage, from the target up to the root, that has rules, and none is found
-- where no node of the lineage has any.
pub nearest_rule_node-Lineage :
    (targets : List Target) (t : Tree) (n : Target) (has_rules : ℕ → Bool)
    → build targets ≡ ok t
    → In n targets
    → (rest : List Target) × Lineage t.nodes (n ∷ rest)
      × (last_of (n ∷ rest) ≡ some t.root)
      × (nearest_rule_node t has_rules n.id
          ≡ find has_rules (map (λ (m : Target). m.id) (n ∷ rest)))
unfolding nearest_rule_node
nearest_rule_node-Lineage targets t n has_rules built i =
    let (rest, a, line, last) = ancestry-build targets built n i in
    let found =
      All-In (λ (m : Target). node_at t.nodes m.id ≡ some m) targets (get-build targets built) i in
    (
      rest,
      line,
      last,
      from-Lineage t has_rules rest n (length t.nodes) found line (ancestry-length t.nodes n a),
    )
