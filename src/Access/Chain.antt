-- ===== src/Access/Chain.antt =====
-- On a tree that `New` accepts, `chain` of internal/api/scope.go is the way from the root to the node.
use smokeng.Common.{
  ℕ, zero, suc, ◌≤◌, ◌<◌, ◌≡◌, none, some, List, [], ◌∷◌, map, reverse, arith, length, All, In,
  All-In, ap, sym, ◌∙◌,
}
use mathlib.Core.Path.{subst}
use smokeng.Common.Result.{ok}
use smokeng.Tree.Model.{Target, Tree, node_at, get}
use smokeng.Tree.Build.{build}
use smokeng.Tree.Lookup.{node_at-id}
use smokeng.Tree.Ancestry.{
  Lineage, last_of, find-In, ancestry-build, ancestry-length, get-build, nodes-build,
}
use smokeng.Access.Scope.{climb_ids, chain}

abbrev pub ids : List Target → List ℕ
ids = map (λ (m : Target). m.id)

module _ (t : Tree) (nonzero : (m : Target) → In m t.nodes → 0 < m.id) where
  climb_ids-root :
      (n : Target) (fuel : ℕ)
      → get t n.id ≡ some n
      → n.parent_id ≡ none
      → 0 < n.id
      → climb_ids t (suc fuel) n.id ≡ n.id ∷ []
  unfolding climb_ids
  climb_ids-root n fuel e p h = ground (arith, e, p)

  climb_ids-above :
      (n : Target) (fuel p : ℕ)
      → get t n.id ≡ some n
      → n.parent_id ≡ some p
      → 0 < n.id
      → climb_ids t (suc fuel) n.id ≡ n.id ∷ climb_ids t fuel p
  unfolding climb_ids
  climb_ids-above n fuel p e q h = ground (arith, e, q)

  climb_ids-Lineage :
      (rest : List Target) (n : Target) (fuel : ℕ)
      → node_at t.nodes n.id ≡ some n
      → Lineage t.nodes (n ∷ rest)
      → length rest ≤ fuel
      → climb_ids t (suc fuel) n.id ≡ ids (n ∷ rest)
  unfolding get
  climb_ids-Lineage [] n fuel e line short =
      climb_ids-root n fuel e line (nonzero n (find-In t.nodes n.id e))
  climb_ids-Lineage (m ∷ rest) n zero e line short = absurd (omega arith)
  climb_ids-Lineage (m ∷ rest) n (suc fuel) e (p, q, at, line) short =
      let id_is : m.id ≡ p = node_at-id t.nodes p at in
      let own : node_at t.nodes m.id ≡ some m = ap (node_at t.nodes) id_is ∙ at in
      climb_ids-above n (suc fuel) p e q (nonzero n (find-In t.nodes n.id e))
      ∙ ap (λ (i : ℕ). n.id ∷ climb_ids t (suc fuel) i) (sym id_is)
      ∙ ap (λ (l : List ℕ). n.id ∷ l) (climb_ids-Lineage rest m fuel own line (omega arith))

-- On a tree that `build` accepts, of targets whose ids are not 0, the chain of a target is the ids of
-- its lineage, from the root down to it.
pub chain-Lineage :
    (targets : List Target) (t : Tree) (n : Target)
    → build targets ≡ ok t
    → All (λ (m : Target). 0 < m.id) targets
    → In n targets
    → (rest : List Target) × Lineage t.nodes (n ∷ rest)
      × (last_of (n ∷ rest) ≡ some t.root)
      × (chain t n.id ≡ reverse (ids (n ∷ rest)))
unfolding chain
chain-Lineage targets t n built nz i =
    let (rest, a, line, last) = ancestry-build targets built n i in
    let found =
      All-In (λ (m : Target). node_at t.nodes m.id ≡ some m) targets (get-build targets built) i in
    let positive : (m : Target) → In m t.nodes → 0 < m.id = λ m j.
      All-In (λ (m : Target). 0 < m.id) targets nz
        (subst (λ (ns : List Target). In m ns) (nodes-build targets built) j) in
    (
      rest,
      line,
      last,
      ap reverse (
          climb_ids-Lineage t positive rest n (length t.nodes) found line
            (ancestry-length t.nodes n a)),
    )
