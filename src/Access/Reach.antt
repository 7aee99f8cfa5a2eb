-- ===== src/Access/Reach.antt =====
-- What a scope permits: the global role, or a grant on the node or on one above it.
use smokeng.Common.{
  ℕ, ◌≡◌, refl, Bool, true, false, ◌&&◌, ◌||◌, Option, none, some, List, [], ◌∷◌, arith, any, find,
  inl, inr, Bool-cases, Option-cases, ◌==◌, if◌then◌else◌, sym,
}
use smokeng.Access.Role.{Role, admin, other, at_least, max_role, at_least-max_role}
use smokeng.Access.Scope.{
  Root, Scope, Grant, root_at, role_of, holds, add_grants, chain, role_along, role_on, is_empty,
}

-- The map holds a role on the node that permits what is wanted.
abbrev pub permits_entry : Role → Option Root → Bool
permits_entry want none = false
permits_entry want (some r) = at_least r.role want

abbrev pub permits : List Root → Role → ℕ → Bool
permits roots want id = permits_entry want (root_at roots id)

role_along-at_least :
    (roots : List Root) (role want : Role) (ids : List ℕ)
    → at_least (role_along roots role ids) want
      ≡ (at_least role want || any (permits roots want) ids)
unfolding role_along any
role_along-at_least roots role want [] = ground arith
role_along-at_least roots role want (a ∷ ids) = elim (Option-cases (root_at roots a)) [
  | inl e ↦ let ih = role_along-at_least roots role want ids in ground (arith, ih, e)
  | inr (r, e) ↦
      let ih = role_along-at_least roots (max_role role r.role) want ids in
      let two = at_least-max_role role r.role want in ground (arith, ih, e, two)
]

pub any_none : (want : Role) (ids : List ℕ) → any (permits [] want) ids ≡ false
unfolding any root_at find
any_none want [] = refl
any_none want (a ∷ ids) = any_none want ids

admin_all :
    (r want : Role)
    → at_least r admin ≡ true
    → (at_least r want ≡ true) × (at_least admin want ≡ true)
unfolding at_least
admin_all r want h = ground arith

role_along-none : (role : Role) (ids : List ℕ) → role_along [] role ids ≡ role
unfolding role_along root_at find
role_along-none role [] = refl
role_along-none role (a ∷ ids) = role_along-none role ids

skip_empty :
    (roots : List Root) (role : Role) (ids : List ℕ)
    → (if is_empty roots then role else role_along roots role ids) ≡ role_along roots role ids
skip_empty [] role ids = sym (role_along-none role ids)
skip_empty (r ∷ roots) role ids = refl

-- What a caller holds on a node permits what is wanted exactly when the global role does, or the role
-- granted on the node or on a node above it.
pub role_on-at_least :
    (sc : Scope) (id : ℕ) (want : Role)
    → at_least (role_on sc id) want
      ≡ (at_least sc.global want || any (permits sc.roots want) (chain sc.tr id))
unfolding role_on
role_on-at_least sc id want = elim (Bool-cases (at_least sc.global admin)) [
  | inl e ↦ let (global, top) = admin_all sc.global want e in rw (e, top, global)
  | inr e ↦
      rw (e, skip_empty sc.roots sc.global (chain sc.tr id))
        (role_along-at_least sc.roots sc.global want (chain sc.tr id))
]

-- The grants that give the role on the node, to a holder of the groups.
abbrev pub gives : List (List ℕ) → Role → ℕ → Grant → Bool
gives groups want id g = holds groups g && (g.target_id == id) && at_least g.role want

permits-cons :
    (node : ℕ) (role : Role) (roots : List Root) (want : Role) (id : ℕ)
    → permits (record { node = node; role = role } ∷ roots) want id
      ≡ (if node == id then at_least role want else permits roots want id)
unfolding root_at find
permits-cons node role roots want id = ground arith

permits-role_of :
    (roots : List Root) (want : Role) (id : ℕ)
    → at_least (other []) want ≡ false
    → at_least (role_of (root_at roots id)) want ≡ permits roots want id
permits-role_of roots want id h = ground (arith, h)

pub add_grants-permits :
    (groups : List (List ℕ)) (roots : List Root) (grants : List Grant) (want : Role) (id : ℕ)
    → at_least (other []) want ≡ false
    → permits (add_grants groups roots grants) want id
      ≡ (permits roots want id || any (gives groups want id) grants)
unfolding add_grants any
add_grants-permits groups roots [] want id some_role = ground arith
add_grants-permits groups roots (g ∷ rest) want id some_role = elim (Bool-cases (holds groups g)) [
  | inl e ↦
      let role = max_role (role_of (root_at roots g.target_id)) g.role in
      let ih =
        add_grants-permits groups (record { node = g.target_id; role = role } ∷ roots) rest want id
          some_role in
      let here = permits-cons g.target_id role roots want id in
      let two = at_least-max_role (role_of (root_at roots g.target_id)) g.role want in
      let old = permits-role_of roots want g.target_id some_role in
      ground (arith, ih, e, here, two, old)
  | inr e ↦ let ih = add_grants-permits groups roots rest want id some_role in ground (arith, ih, e)
]
