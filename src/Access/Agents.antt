-- ===== src/Access/Agents.antt =====
-- The agents that a caller may name are those of what the caller sees.
use smokeng.Common.{
  any-append, ℕ, ◌≡◌, refl, ◌⊎◌, inl, inr, Bool, true, false, ◌||◌, List, [], ◌∷◌, ◌++◌, arith, any,
  In, Bool-cases, ◌∙◌, sym,
}
use mathlib.Core.Path.{subst}
use smokeng.Common.Text.{same, fields}
use smokeng.Common.Result.{ok, >>=-eq-ok}
use smokeng.Tree.Model.{Target, Resolved}
use smokeng.Tree.Build.{resolve}
use smokeng.Access.Scope.{
  Scope, AgentSet, has_agent, visible, is_global_admin, agents_seen, agents_in_scope,
}

-- A target that the caller sees resolves to settings whose agents name this one.
abbrev pub Measures : Scope → List Target → List ℕ → Type 0
Measures sc targets name =
    (n : Target) × In n targets
    × (visible sc n.id ≡ true)
    × ((res : Resolved) × (resolve sc.tr n.id ≡ ok res)
        × (any (λ a. same a name) (fields res.agents.effective) ≡ true))

or_cases : (a b : Bool) → (a || b) ≡ true → (a ≡ true) ⊎ (b ≡ true)
or_cases a b h = ground (arith, h)

agents_seen-Measures :
    (sc : Scope) (names : List (List ℕ)) (targets : List Target) (name : List ℕ)
    {out : List (List ℕ)}
    → agents_seen sc names targets ≡ ok out
    → any (λ a. same a name) out ≡ true
    → (any (λ a. same a name) names ≡ true) ⊎ Measures sc targets name
unfolding agents_seen
agents_seen-Measures sc names [] name {out} h has =
    let is : names ≡ out = cc h in
    inl (subst (λ (l : List (List ℕ)). any (λ a. same a name) l ≡ true) (sym is) has)
agents_seen-Measures sc names (n ∷ rest) name {out} h has = elim (Bool-cases (visible sc n.id)) [
  | inl e ↦
      let (res, found, more) = >>=-eq-ok (resolve sc.tr n.id) _ (rw (e, agents_seen) at h) in
      elim (agents_seen-Measures sc (names ++ fields res.agents.effective) rest name more has) [
        | inl k ↦
            elim (or_cases _ _
              (sym (any-append (λ a. same a name) names (fields res.agents.effective)) ∙ k)) [
                | inl old ↦ inl old
                | inr own ↦ inr (n, inl refl, e, (res, found, own))
              ]
        | inr (m, i, sees, has_it) ↦ inr (m, inr i, sees, has_it)
      ]
  | inr e ↦ elim (agents_seen-Measures sc names rest name (rw (e, agents_seen) at h) has) [
    | inl k ↦ inl k
    | inr (m, i, sees, has_it) ↦ inr (m, inr i, sees, has_it)
  ]
]

-- A caller who is not a global administrator may name an agent only if a target that the caller sees
-- has it among its effective agents: no other agent can be named, or told to exist.
pub agents_in_scope-Measures :
    (sc : Scope) (targets : List Target) (name : List ℕ) {set : AgentSet}
    → is_global_admin sc ≡ false
    → agents_in_scope sc targets ≡ ok set
    → has_agent set name ≡ true
    → Measures sc targets name
unfolding agents_in_scope has_agent any
agents_in_scope-Measures sc targets name {set} plain h has =
    let (names, seen, last) =
      >>=-eq-ok (agents_seen sc [] targets) _ (rw (plain, agents_in_scope) at h) in
    let is : (record { all = false; names = names }) ≡ set = cc last in
    let has' : any (λ a. same a name) names ≡ true =
      subst (λ (s : AgentSet). has_agent s name ≡ true) (sym is) has in
    elim (agents_seen-Measures sc [] targets name seen has') [ inl k ↦ absurd (cc k) | inr m ↦ m ]
