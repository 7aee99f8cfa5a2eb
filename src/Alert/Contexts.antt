-- ===== src/Alert/Contexts.antt =====
-- The alerting context that `Reload` of internal/alert/manager.go makes for a target.
use smokeng.Common.{
  ℕ, zero, suc, ◌≤◌, ◌≡◌, refl, sym, ap, ◌∙◌, Bool, true, false, none, some, List, [], ◌∷◌, arith,
  length, find, map, ◌==◌, ==_iff, Bool-cases, inl, inr, In, All, All-In,
}
use mathlib.Core.Path.{subst}
use smokeng.Common.Result.{Result, ok, err, >>=-eq-ok}
use smokeng.Common.Int.{ℤ, pos}
use smokeng.Tree.Model.{Target, Tree, Resolved, TreeError, node_at}
use smokeng.Tree.Build.{build, resolve, path}
use smokeng.Tree.Ancestry.{
  Lineage, last_of, ancestry-build, ancestry-length, get-build, nodes-build,
}
use smokeng.Alert.Rule.{Rule}
use smokeng.Alert.Manager.{Applicable, Manager, applicable_at, above_of}
use smokeng.Alert.Nearest.{nearest_rule_node, from-Lineage}
use smokeng.Alert.Reload.{
  Stored, is_probed, above_from, above, has_rules, rules_at, applicable_of, applicable_all,
  ancestors_of, reload,
}

abbrev ids : List Target → List ℕ
ids nodes = map (λ (m : Target). m.id) nodes

above_from-Lineage :
    (nodes : List Target) (rest : List Target) (n : Target) (fuel : ℕ)
    → Lineage nodes (n ∷ rest)
    → length rest ≤ fuel
    → above_from nodes fuel n ≡ ids (n ∷ rest)
unfolding above_from
above_from-Lineage nodes [] n zero line short = refl
above_from-Lineage nodes [] n (suc fuel) line short = rw line refl
above_from-Lineage nodes (m ∷ rest) n zero line short = absurd (omega arith)
above_from-Lineage nodes (m ∷ rest) n (suc fuel) (p, q, at, line) short =
    ground (arith, q, at, above_from-Lineage nodes rest m fuel line (omega arith))

abbrev target_of : {F : Type 0} → Result TreeError (Applicable F) → ℕ
target_of (ok app) = app.target
target_of (err e) = 0

true_ne_false : ¬ (true ≡ false)
true_ne_false h = cc

In-later : (x n : Target) (xs : List Target) → In n (x ∷ xs) → (x.id == n.id) ≡ false → In n xs
In-later x n xs (inl e) ne =
    absurd (true_ne_false (sym ((==_iff x.id n.id).1 (ap (λ (m : Target). m.id) e)) ∙ ne))
In-later x n xs (inr i) ne = i

In-probed :
    (x n : Target) (xs : List Target)
    → In n (x ∷ xs)
    → is_probed x ≡ false
    → is_probed n ≡ true
    → In n xs
In-probed x n xs (inl e) idle live = absurd (true_ne_false (sym live ∙ ap is_probed (sym e) ∙ idle))
In-probed x n xs (inr i) idle live = i

abbrev rules_of : {F : Type 0} → Result TreeError (Applicable F) → List (Rule F)
rules_of (ok app) = app.rules
rules_of (err e) = []

-- The entry of a target in the map of the ancestors.
abbrev entry_of : List (ℕ × List ℕ) → ℕ → List ℕ
entry_of ancestors id = elim (find (λ (a : ℕ × List ℕ). a.0 == id) ancestors) [
  | none ↦ []
  | some a ↦ a.1
]

abbrev interval_of : {F : Type 0} → Result TreeError (Applicable F) → ℤ
interval_of (ok app) = app.interval_s
interval_of (err e) = pos 0

abbrev contexts_of : {F H : Type 0} → Result TreeError (Manager F H) → List (Applicable F)
contexts_of (ok m) = m.by_target
contexts_of (err e) = []

abbrev ancestors_in : {F H : Type 0} → Result TreeError (Manager F H) → List (ℕ × List ℕ)
ancestors_in (ok m) = m.ancestors
ancestors_in (err e) = []

ancestors_of-entry :
    (nodes xs : List Target) (id : ℕ) (n : Target)
    → node_at xs id ≡ some n
    → entry_of (ancestors_of nodes xs) id ≡ above nodes n
unfolding ancestors_of node_at find
ancestors_of-entry nodes [] id n h = cc
ancestors_of-entry nodes (x ∷ xs) id n h = elim (Bool-cases (x.id == id)) [
  | inl own ↦
      let is : x ≡ n = cc (rw own at h) in
      rw (own, entry_of, ancestors_of, find) (ap (above nodes) is)
  | inr other ↦
      rw (other, entry_of, ancestors_of, find) (ancestors_of-entry nodes xs id n (rw other at h))
]

module _ {F : Type 0} (rules : List (Rule F)) (t : Tree) where
  applicable_of-target :
      (n : Target) (app : Applicable F) → applicable_of rules t n ≡ ok app → app.target ≡ n.id
  unfolding applicable_of
  applicable_of-target n app h =
      let (res, r, after) = >>=-eq-ok (resolve t n.id) _ h in
      let (p, q, is) = >>=-eq-ok (path t n.id) _ after in sym (ap target_of is)

  applicable_at-here :
      (app : Applicable F) (rest : List (Applicable F)) (id : ℕ)
      → app.target ≡ id
      → applicable_at (app ∷ rest) id ≡ some app
  unfolding applicable_at find
  applicable_at-here app rest id e = ground (arith, e)

  applicable_at-later :
      (app : Applicable F) (rest : List (Applicable F)) (id other : ℕ)
      → app.target ≡ other
      → (other == id) ≡ false
      → applicable_at (app ∷ rest) id ≡ applicable_at rest id
  unfolding applicable_at find
  applicable_at-later app rest id other e ne = ground (arith, e)

  -- The context is in the map under the target's id.
  abbrev HasContext : Target → List (Applicable F) → Type 0
  HasContext n apps =
      (app : Applicable F) × (applicable_of rules t n ≡ ok app)
      × (applicable_at apps n.id ≡ some app)

  HasContext-cons :
      (x n : Target) (app : Applicable F) (rest : List (Applicable F)) (xs : List Target)
      → applicable_of rules t x ≡ ok app
      → node_at t.nodes x.id ≡ some x
      → node_at t.nodes n.id ≡ some n
      → In n (x ∷ xs)
      → (In n xs → HasContext n rest)
      → HasContext n (app ∷ rest)
  HasContext-cons x n app rest xs made own mine i later =
      let named = applicable_of-target x app made in
      elim (Bool-cases (x.id == n.id)) [
        | inl same_id ↦
            let id_is = (==_iff x.id n.id).0 same_id in
            let is : x ≡ n = cc (sym own ∙ ap (node_at t.nodes) id_is ∙ mine) in
            (
              app,
              ap (applicable_of rules t) (sym is) ∙ made,
              applicable_at-here app rest n.id (named ∙ id_is),
            )
        | inr other ↦
            let (a, made', at) = later (In-later x n xs i other) in
            (a, made', applicable_at-later app rest n.id x.id named other ∙ at)
      ]

  applicable_all-HasContext :
      (targets : List Target) (apps : List (Applicable F)) (n : Target)
      → applicable_all rules t targets ≡ ok apps
      → All (λ (x : Target). node_at t.nodes x.id ≡ some x) targets
      → node_at t.nodes n.id ≡ some n
      → In n targets
      → is_probed n ≡ true
      → HasContext n apps
  unfolding applicable_all
  applicable_all-HasContext [] apps n h own mine i probed = absurd i
  applicable_all-HasContext (x ∷ xs) apps n h own mine i probed = elim (Bool-cases (is_probed x)) [
    | inr idle ↦
        applicable_all-HasContext xs apps n (rw (idle, applicable_all) at h) own.1 mine
          (In-probed x n xs i idle probed) probed
    | inl live ↦
        let (app, made, after) =
          >>=-eq-ok (applicable_of rules t x) _ (rw (live, applicable_all) at h) in
        let (rest, more, is) = >>=-eq-ok (applicable_all rules t xs) _ after in
        let apps_are : (app ∷ rest) ≡ apps = cc is in
        subst (HasContext n) apps_are (
          HasContext-cons x n app rest xs made own.0 mine i
            (λ j. applicable_all-HasContext xs rest n more own.1 mine j probed))
  ]

-- The rules that apply to a target, the targets above it, and how often it is measured.
pub record IsContext {F : Type 0} (rules : List (Rule F)) (t : Tree) (line : List Target)
    (n : Target) (app : Applicable F) : Type 0 where
  pub rules_are : app.rules ≡ rules_at rules (find (has_rules rules) (ids line))
  pub resolved :
      (res : Resolved) × (resolve t n.id ≡ ok res) × (app.interval_s ≡ res.interval_s.effective)

applicable_of-IsContext :
    {F : Type 0} (rules : List (Rule F)) (t : Tree) (n : Target) (rest : List Target)
    (app : Applicable F)
    → applicable_of rules t n ≡ ok app
    → Lineage t.nodes (n ∷ rest)
    → node_at t.nodes n.id ≡ some n
    → length rest ≤ length t.nodes
    → IsContext rules t (n ∷ rest) n app
unfolding applicable_of nearest_rule_node
applicable_of-IsContext rules t n rest app h line mine short =
    let (res, r, after) = >>=-eq-ok (resolve t n.id) _ h in
    let (p, q, is) = >>=-eq-ok (path t n.id) _ after in
    record {
      rules_are =
          sym (ap rules_of is)
          ∙ ap (rules_at rules)
              (from-Lineage t (has_rules rules) rest n (length t.nodes) mine line short);
      resolved = (res, r, sym (ap interval_of is));
    }

-- After a reload that succeeds, every target that is probed has its context: the rules of the first node
-- of its lineage that has any, from the target up to the root, and none where there is no such node; and
-- the interval that its settings resolve to. Its ancestors, by which a silence on a group covers it, are
-- the ids of its lineage.
pub reload-IsContext :
    {F H : Type 0} (forget : (ℕ → Bool) → H → H) (s : Stored F) (m m' : Manager F H) (n : Target)
    → reload forget s m ≡ ok m'
    → In n s.targets
    → is_probed n ≡ true
    → (t : Tree) × (build s.targets ≡ ok t)
      × (rest : List Target) × Lineage t.nodes (n ∷ rest)
      × (last_of (n ∷ rest) ≡ some t.root)
      × (app : Applicable F) × (applicable_at m'.by_target n.id ≡ some app)
      × IsContext s.rules t (n ∷ rest) n app
      × (above_of m' n.id ≡ ids (n ∷ rest))
unfolding reload above_of above
reload-IsContext forget s m m' n h i probed =
    let (t, built, after) = >>=-eq-ok (build s.targets) _ h in
    let (apps, all_apps, is) = >>=-eq-ok (applicable_all s.rules t s.targets) _ after in
    let (rest, a, line, last) = ancestry-build s.targets built n i in
    let own = get-build s.targets built in
    let mine = All-In (λ (x : Target). node_at t.nodes x.id ≡ some x) s.targets own i in
    let listed =
      subst (λ (ns : List Target). node_at ns n.id ≡ some n) (nodes-build s.targets built) mine in
    let (app, made, at) =
      applicable_all-HasContext s.rules t s.targets apps n all_apps own mine i probed in
    (
      t,
      built,
      rest,
      line,
      last,
      app,
      ap (λ (l : List (Applicable _)). applicable_at l n.id) (sym (ap contexts_of is)) ∙ at,
      applicable_of-IsContext s.rules t n rest app made line mine (ancestry-length t.nodes n a),
      ap (λ (l : List (ℕ × List ℕ)). entry_of l n.id) (sym (ap ancestors_in is))
          ∙ ancestors_of-entry t.nodes s.targets n.id n listed
          ∙ above_from-Lineage t.nodes rest n (length t.nodes) line (ancestry-length t.nodes n a),
    )
