-- ===== src/Access/Scope.antt =====
-- internal/api/scope.go: what a session may see and change. The session and the grants are given; how
-- they are read, from a cookie and the store, is outside.
use smokeng.Common.{
  ℕ, zero, suc, Bool, true, false, Option, none, some, List, [], ◌∷◌, ◌++◌, ◌||◌, reverse,
  if◌then◌else◌, ◌==◌, any, find, length,
}
use smokeng.Common.Text.{same, fields}
use smokeng.Common.Result.{Result, ok, ◌>>=◌}
use smokeng.Tree.Build.{resolve}
use smokeng.Tree.Model.{Target, Tree, TreeError, get}
use smokeng.Access.Role.{Role, other, viewer, editor, admin, at_least, max_role}

-- An entry of the map `roots`; an assignment puts a new entry in front.
pub record Root : Type 0 where
  pub node : ℕ
  pub role : Role

pub record Scope : Type 0 where
  pub global : Role
  pub roots : List Root
  pub tr : Tree

-- What `scopeFor` reads of a session, and of a grant in the store.
pub record Session : Type 0 where
  pub role : Role
  pub groups : List (List ℕ)

pub record Grant : Type 0 where
  pub group : List ℕ
  pub target_id : ℕ
  pub role : Role

-- `sc.roots[id]`
unfoldable pub root_at : List Root → ℕ → Option Root
root_at roots id = find (λ (r : Root). r.node == id) roots

abbrev pub role_of : Option Root → Role
role_of none = other []
role_of (some r) = r.role

-- Unrestricted
unfoldable pub unrestricted : Tree → Scope
unrestricted tr = record { global = admin; roots = []; tr = tr }

abbrev pub holds : List (List ℕ) → Grant → Bool
holds groups g = any (λ h. same h g.group) groups

-- The loop over the grants.
unfoldable pub add_grants : List (List ℕ) → List Root → List Grant → List Root
unfolding root_at
add_grants groups roots [] = roots
add_grants groups roots (g ∷ rest) =
    let taken =
      record { node = g.target_id; role = max_role (role_of (root_at roots g.target_id)) g.role }
      ∷ roots in
    add_grants groups (if holds groups g then taken else roots) rest

abbrev pub is_empty : {A : Type 0} → List A → Bool
is_empty [] = true
is_empty (_ ∷ _) = false

abbrev pub groups_scope : Tree → Role → List (List ℕ) → List Grant → Scope
groups_scope tr default_role groups grants = record {
  global = default_role;
  roots = if is_empty groups then [] else add_grants groups [] grants;
  tr = tr;
}

abbrev pub is_admin : Role → Bool
is_admin admin = true
is_admin _ = false

-- scopeFor, with `s.auth` set, for the session if there is one.
unfoldable pub scope_for : Tree → (default_role : Role) → Option Session → List Grant → Scope
unfolding add_grants
scope_for tr default_role none grants = record { global = other []; roots = []; tr = tr }
scope_for tr default_role (some s) grants =
    if is_admin s.role
    then record { global = admin; roots = []; tr = tr }
    else groups_scope tr default_role s.groups grants

-- The loop of `chain`, which adds ids from the node up; `fuel` bounds its rounds.
unfoldable pub climb_ids : Tree → (fuel id : ℕ) → List ℕ
climb_ids tr zero id = []
climb_ids tr (suc fuel) id = if id == 0 then [] else elim (get tr id) [
  | none ↦ []
  | some n ↦ elim n.parent_id [ none ↦ id ∷ [] | some p ↦ id ∷ climb_ids tr fuel p ]
]

-- chain: a way up meets each node once.
unfoldable pub chain : Tree → ℕ → List ℕ
unfolding climb_ids
chain tr id = reverse (climb_ids tr (suc (length tr.nodes)) id)

-- The loop of `RoleOn`.
unfoldable pub role_along : List Root → Role → List ℕ → Role
role_along roots role [] = role
role_along roots role (anc ∷ rest) =
    role_along roots (elim (root_at roots anc) [ none ↦ role | some r ↦ max_role role r.role ]) rest

-- RoleOn
unfoldable pub role_on : Scope → ℕ → Role
unfolding role_along chain
role_on sc id =
    if at_least sc.global admin
    then admin
    else if is_empty sc.roots
    then sc.global
    else role_along sc.roots sc.global (chain sc.tr id)

-- Visible, CanWrite, IsGlobalAdmin
unfoldable pub visible : Scope → ℕ → Bool
visible sc id = at_least (role_on sc id) viewer

unfoldable pub can_write : Scope → ℕ → Bool
can_write sc id = at_least (role_on sc id) editor

unfoldable pub is_global_admin : Scope → Bool
is_global_admin sc = at_least sc.global admin

-- Who
unfoldable pub who : Scope → Option ℕ → List ℕ → List ℕ
unfolding is_global_admin can_write
who sc none name = if is_global_admin sc then name else []
who sc (some id) name = if can_write sc id then name else []

-- The loop of `RootOf`.
unfoldable pub first_root : List Root → List ℕ → ℕ
first_root roots [] = 0
first_root roots (anc ∷ rest) = elim (root_at roots anc) [
  | none ↦ first_root roots rest
  | some _ ↦ anc
]

-- RootOf
unfoldable pub root_of : Scope → ℕ → ℕ
unfolding first_root
root_of sc id = if at_least sc.global viewer then 0 else first_root sc.roots (chain sc.tr id)

-- Within
unfoldable pub within : Scope → (id ancestor : ℕ) → Bool
within sc id ancestor = any (λ a. a == ancestor) (chain sc.tr id)

-- agentSet
pub record AgentSet : Type 0 where
  pub all : Bool
  pub names : List (List ℕ)

unfoldable pub has_agent : AgentSet → List ℕ → Bool
has_agent a name = a.all || any (λ n. same n name) a.names

-- The loop of `agentsInScope`; the set of names is a list.
unfoldable pub agents_seen : Scope → List (List ℕ) → List Target → Result TreeError (List (List ℕ))
agents_seen sc names [] = ok names
agents_seen sc names (n ∷ rest) =
    if visible sc n.id
    then (do res ← resolve sc.tr n.id; agents_seen sc (names ++ fields res.agents.effective) rest)
    else agents_seen sc names rest

-- agentsInScope
unfoldable pub agents_in_scope : Scope → List Target → Result TreeError AgentSet
unfolding agents_seen
agents_in_scope sc targets =
    if is_global_admin sc
    then ok (record { all = true; names = [] })
    else (do names ← agents_seen sc [] targets; ok (record { all = false; names = names }))
