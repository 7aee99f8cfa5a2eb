-- ===== src/Tree/Ancestry.antt =====
-- The chain that `ancestryOf` returns: from the node, parent by parent, to the root.
use smokeng.Common.{
  ℕ, zero, suc, Option, none, some, List, [], ◌∷◌, ◌≡◌, refl, arith, All, In, Option-cases, inl,
  inr, length, Bool-cases, ◌==◌, find, ap, ◌∙◌, All-In, All-map,
}
use mathlib.Core.Path.{subst, sym}
use smokeng.Common.{◌≤◌}
use smokeng.Common.Result.{Result, ok, err, >>=-eq-ok, err-ne-ok}
use smokeng.Tree.Model.{Target, Tree, FieldError, node_at, invalid}
use smokeng.Tree.Validate.{validate}
use smokeng.Tree.Build.{climb, ancestry_of, check_nodes, build}
use smokeng.Tree.Lookup.{index-nodes, index-root, index-lookup}
use smokeng.Tree.Built.{build-Built}

-- Each node is the parent of the one before it, as `nodes` has it, and the last has none.
abbrev pub Lineage : List Target → List Target → Type 0
Lineage nodes [] = ⊥
Lineage nodes (n ∷ []) = n.parent_id ≡ none
Lineage nodes (n ∷ m ∷ rest) =
    (p : ℕ) × (n.parent_id ≡ some p) × (node_at nodes p ≡ some m) × Lineage nodes (m ∷ rest)

-- A step of `climb` that succeeds: the node has no parent, or its parent is in the map.
data Climbed (nodes : List Target) (start room id : ℕ) (parent : Option ℕ) (rest : List Target)
    : Type 0 where
  at_root : parent ≡ none → rest ≡ [] → Climbed nodes start room id parent rest
  above :
      (k p : ℕ) (m : Target) (more : List Target)
      → room ≡ suc k
      → parent ≡ some p
      → node_at nodes p ≡ some m
      → climb nodes start k m.id m.parent_id ≡ ok more
      → rest ≡ m ∷ more
      → Climbed nodes start room id parent rest

climb-Climbed :
    (nodes : List Target) (start room id : ℕ) (parent : Option ℕ) {rest : List Target}
    → climb nodes start room id parent ≡ ok rest
    → Climbed nodes start room id parent rest
unfolding climb
climb-Climbed nodes start zero id none h = at_root refl (cc)
climb-Climbed nodes start (suc k) id none h = at_root refl (cc)
climb-Climbed nodes start zero id (some p) h = elim (Option-cases (node_at nodes p)) [
  | inl e ↦ absurd (err-ne-ok (rw (e, climb) at h))
  | inr (m, e) ↦ absurd (err-ne-ok (rw (e, climb) at h))
]
climb-Climbed nodes start (suc k) id (some p) {rest} h = elim (Option-cases (node_at nodes p)) [
  | inl e ↦ absurd (err-ne-ok (rw (e, climb) at h))
  | inr (m, e) ↦
      let (more, up, last) =
        >>=-eq-ok (climb nodes start k m.id m.parent_id) _ (rw (e, climb) at h) in
      above k p m more refl refl e up (cc)
]

climb-Lineage :
    (room : ℕ) (nodes : List Target) (start : ℕ) (n : Target) {rest : List Target}
    → climb nodes start room n.id n.parent_id ≡ ok rest
    → Lineage nodes (n ∷ rest)
climb-Lineage zero nodes start n h = elim (climb-Climbed nodes start zero n.id n.parent_id h) [
  | at_root e r ↦ rw r e
  | above k p m more full e found up r ↦ absurd (omega arith)
]
climb-Lineage (suc room) nodes start n h =
    elim (climb-Climbed nodes start (suc room) n.id n.parent_id h) [
      | at_root e r ↦ rw r e
      | above k p m more left e found up r ↦
          let same_room : k ≡ room = omega arith in
          rw r (p, e, found, climb-Lineage room nodes start m (rw same_room at up))
    ]

-- The chain starts with the node and is its lineage.
pub ancestry-Lineage :
    (nodes : List Target) (n : Target) {chain : List Target}
    → ancestry_of nodes n ≡ ok chain
    → (rest : List Target) × (chain ≡ n ∷ rest) × Lineage nodes (n ∷ rest)
unfolding ancestry_of
ancestry-Lineage nodes n h =
    let (rest, up, last) = >>=-eq-ok (climb nodes n.id (length nodes) n.id n.parent_id) _ h in
    (rest, cc, climb-Lineage (length nodes) nodes n.id n up)

climb-length :
    (room : ℕ) (nodes : List Target) (start id : ℕ) (parent : Option ℕ) {rest : List Target}
    → climb nodes start room id parent ≡ ok rest
    → length rest ≤ room
unfolding climb
climb-length room nodes start id none h = ground (arith, h)
climb-length zero nodes start id (some p) h = ground (arith, h)
climb-length (suc room) nodes start id (some p) {rest} h = elim (Option-cases (node_at nodes p)) [
  | inl e ↦ absurd (ground (arith, h, e))
  | inr (next, e) ↦
      let (more, up, last) =
        >>=-eq-ok (climb nodes start room next.id next.parent_id) (λ r. ok (next ∷ r))
          (rw (e, climb) at h) in
      let ih = climb-length room nodes start next.id next.parent_id up in
      let is : next ∷ more ≡ rest = cc last in ground (arith, ih, is)
]

-- No way up is longer than the map.
pub ancestry-length :
    (nodes : List Target) (n : Target) {rest : List Target}
    → ancestry_of nodes n ≡ ok (n ∷ rest)
    → length rest ≤ length nodes
unfolding ancestry_of
ancestry-length nodes n {rest} h =
    let (more, up, last) = >>=-eq-ok (climb nodes n.id (length nodes) n.id n.parent_id) _ h in
    let is : more ≡ rest = cc last in
    ground (arith, climb-length (length nodes) nodes n.id n.id n.parent_id up, is)

abbrev pub last_of : List Target → Option Target
last_of [] = none
last_of (n ∷ []) = some n
last_of (n ∷ m ∷ rest) = last_of (m ∷ rest)

pub find-In : (xs : List Target) (id : ℕ) {m : Target} → node_at xs id ≡ some m → In m xs
unfolding node_at find
find-In [] id h = cc
find-In (x ∷ xs) id {m} h = elim (Bool-cases (x.id == id)) [
  | inl e ↦ inl (ground arith)
  | inr e ↦ inr (find-In xs id (rw (e, find) at h))
]

-- In a lineage whose first node stands in the map, every node does.
pub Lineage-In :
    (nodes chain : List Target) (n : Target)
    → In n nodes
    → Lineage nodes (n ∷ chain)
    → All (λ m. In m nodes) (n ∷ chain)
Lineage-In nodes [] n i h = (i, tt)
Lineage-In nodes (m ∷ rest) n i h = (i, Lineage-In nodes rest m (find-In nodes h.0 h.2) h.3)

Lineage-last :
    (nodes chain : List Target) (n root : Target)
    → All (λ (m : Target). m.parent_id ≡ none → m ≡ root) nodes
    → In n nodes
    → Lineage nodes (n ∷ chain)
    → last_of (n ∷ chain) ≡ some root
Lineage-last nodes [] n root only i h =
    ap some (All-In (λ (m : Target). m.parent_id ≡ none → m ≡ root) nodes only i h)
Lineage-last nodes (m ∷ rest) n root only i h =
    Lineage-last nodes rest m root only (find-In nodes h.0 h.2) h.3

-- What the second loop of `New` checked of a node.
pub record NodePass (nodes : List Target) (n : Target) : Type 0 where
  pub chain : List Target
  pub ancestry : ancestry_of nodes n ≡ ok chain
  pub valid : validate n ≡ ok tt

check_nodes-NodePass :
    (nodes rest : List Target) → check_nodes nodes rest ≡ ok tt → All (NodePass nodes) rest
unfolding check_nodes
check_nodes-NodePass nodes [] h = tt
check_nodes-NodePass nodes (n ∷ rest) h =
    let (chain, e, h') = >>=-eq-ok (ancestry_of nodes n) _ h in
    let (v, more) = validated (validate n) h' in
    (record { chain = chain; ancestry = e; valid = v }, check_nodes-NodePass nodes rest more)
  where
    validated :
        (r : Result FieldError (Unit {0}))
        → elim r [ ok _ ↦ check_nodes nodes rest | err e ↦ err (invalid n.id e) ] ≡ ok tt
        → (r ≡ ok tt) × (check_nodes nodes rest ≡ ok tt)
    validated (ok u) k = (refl, k)
    validated (err e) k = cc

module _ (targets : List Target) {t : Tree} (built : build targets ≡ ok t) where
  -- The tree holds the targets it was built from.
  pub nodes-build : t.nodes ≡ targets
  nodes-build = index-nodes [] none targets (build-Built targets built).indexed

  -- Each of them is found under its id, so no two share one.
  pub get-build : All (λ (n : Target). node_at t.nodes n.id ≡ some n) targets
  get-build = index-lookup [] none targets (build-Built targets built).indexed

  pub only_root : All (λ (m : Target). m.parent_id ≡ none → m ≡ t.root) targets
  only_root =
      All-map (λ (n : Target). n.parent_id ≡ none → some t.root ≡ some n)
        (λ (n : Target). n.parent_id ≡ none → n ≡ t.root) (λ n f e. cc (f e)) targets
        (index-root [] none targets (build-Built targets built).indexed)

  pub passes : All (NodePass targets) targets
  passes =
      rw nodes-build at
        (check_nodes-NodePass t.nodes t.nodes (build-Built targets built).nodes_pass)

  -- Every target has an ancestry, which is its lineage and ends at the root.
  pub ancestry-build :
      (n : Target)
      → In n targets
      → (rest : List Target) × (ancestry_of t.nodes n ≡ ok (n ∷ rest))
        × Lineage t.nodes (n ∷ rest)
        × (last_of (n ∷ rest) ≡ some t.root)
  ancestry-build n i =
      let p = All-In (NodePass targets) targets passes i in
      let (rest, e, line) = ancestry-Lineage targets n p.ancestry in
      subst
        (λ (ns : List Target).
          (rest : List Target) × (ancestry_of ns n ≡ ok (n ∷ rest))
          × Lineage ns (n ∷ rest)
          × (last_of (n ∷ rest) ≡ some t.root))
        (sym nodes-build)
        (rest, p.ancestry ∙ ap ok e, line, Lineage-last targets rest n t.root only_root i line)
