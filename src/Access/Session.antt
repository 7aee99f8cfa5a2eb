-- ===== src/Access/Session.antt =====
-- What a session may do on a node, from `scopeFor` to `RoleOn`, and where its view starts.
use smokeng.Common.{
  any-append, ℕ, ◌≡◌, refl, find, Bool, false, ◌||◌, some, List, [], ◌∷◌, map, arith, any, ◌∙◌, All,
  In, ◌<◌, sym, ap, reverse,
}
use mathlib.Core.List.{reverse-cons}
use smokeng.Common.Result.{ok}
use smokeng.Tree.Model.{Target, Tree}
use smokeng.Tree.Build.{build}
use smokeng.Tree.Ancestry.{Lineage, last_of}
use smokeng.Access.Role.{Role, other, at_least}
use smokeng.Access.Scope.{
  Session, Grant, root_at, scope_for, chain, role_on, is_admin, groups_scope,
}
use smokeng.Access.Reach.{permits, gives, role_on-at_least, add_grants-permits}
use smokeng.Access.Chain.{ids, chain-Lineage}

any-ap : {A : Type 0} (p q : A → Bool) (xs : List A) → ((x : A) → p x ≡ q x) → any p xs ≡ any q xs
unfolding any
any-ap p q [] h = refl
any-ap p q (x ∷ xs) h = ground (arith, h x, any-ap p q xs h)

any-false : {A : Type 0} (p : A → Bool) (xs : List A) → ((x : A) → p x ≡ false) → any p xs ≡ false
unfolding any
any-false p [] h = refl
any-false p (x ∷ xs) h = ground (arith, h x, any-false p xs h)

any-map :
    {A B : Type 0} (f : A → B) (p : B → Bool) (xs : List A)
    → any p (map f xs) ≡ any (λ x. p (f x)) xs
unfolding any
any-map f p [] = refl
any-map f p (x ∷ xs) = ground (arith, any-map f p xs)

no_groups : (want : Role) (id : ℕ) (g : Grant) → gives [] want id g ≡ false
unfolding any
no_groups want id g = refl

groups_scope-permits :
    (t : Tree) (default_role : Role) (groups : List (List ℕ)) (grants : List Grant) (want : Role)
    (id : ℕ)
    → at_least (other []) want ≡ false
    → permits (groups_scope t default_role groups grants).roots want id
      ≡ any (gives groups want id) grants
unfolding root_at find
groups_scope-permits t default_role [] grants want id some_role =
    sym (any-false (gives [] want id) grants (no_groups want id))
groups_scope-permits t default_role (g ∷ groups) grants want id some_role =
    add_grants-permits (g ∷ groups) [] grants want id some_role

scope_for-at_least :
    (t : Tree) (default_role : Role) (s : Session) (grants : List Grant) (want : Role) (id : ℕ)
    → is_admin s.role ≡ false
    → at_least (other []) want ≡ false
    → at_least (role_on (scope_for t default_role (some s) grants) id) want
      ≡ (at_least default_role want || any (λ a. any (gives s.groups want a) grants) (chain t id))
unfolding scope_for
scope_for-at_least t default_role s grants want id plain some_role =
    let sc = groups_scope t default_role s.groups grants in
    rw plain (
      role_on-at_least sc id want
      ∙ ap (λ (b : Bool). at_least default_role want || b)
          (any-ap (permits sc.roots want) (λ a. any (gives s.groups want a) grants) (chain t id)
            (λ a. groups_scope-permits t default_role s.groups grants want a some_role)))

pub any-reverse : {A : Type 0} (p : A → Bool) (xs : List A) → any p (reverse xs) ≡ any p xs
unfolding any
any-reverse p [] = refl
any-reverse p (x ∷ xs) =
    let moved = ap (any p) (reverse-cons x xs) ∙ any-append p (reverse xs) (x ∷ []) in
    ground (arith, moved, any-reverse p xs)

-- A grant reaches exactly a subtree. On a tree that `build` accepts, of targets whose ids are not 0,
-- for a session that is not an administrator's, and a role above none: the session holds it on a
-- target exactly when the default role permits it, or a grant of one of the session's groups that
-- permits it stands on a node of the target's lineage, from the target up to the root.
pub scope_for-reach :
    (targets : List Target) (t : Tree) (n : Target) (default_role : Role) (s : Session)
    (grants : List Grant) (want : Role)
    → build targets ≡ ok t
    → All (λ (m : Target). 0 < m.id) targets
    → In n targets
    → is_admin s.role ≡ false
    → at_least (other []) want ≡ false
    → (rest : List Target) × Lineage t.nodes (n ∷ rest)
      × (last_of (n ∷ rest) ≡ some t.root)
      × (at_least (role_on (scope_for t default_role (some s) grants) n.id) want ≡ (
          at_least default_role want
          || any (λ (m : Target). any (gives s.groups want m.id) grants) (n ∷ rest)))
scope_for-reach targets t n default_role s grants want built nz i plain some_role =
    let (rest, line, last, chain_is) = chain-Lineage targets t n built nz i in
    let given : ℕ → Bool = λ a. any (gives s.groups want a) grants in
    let along : any given (chain t n.id) ≡ any (λ (m : Target). given m.id) (n ∷ rest) =
      ap (any given) chain_is
      ∙ any-reverse given (ids (n ∷ rest))
      ∙ any-map (λ (m : Target). m.id) given (n ∷ rest) in
    (
      rest,
      line,
      last,
      scope_for-at_least t default_role s grants want n.id plain some_role
          ∙ ap (λ (b : Bool). at_least default_role want || b) along,
    )
