-- ===== src/Tree/Prior.antt =====
-- The stored target of an id, as `CheckTreeLimits` of internal/tree/limits.go looks it up.
use smokeng.Common.{
  ℕ, zero, suc, Option, none, length, ◌≤◌, ◌≡◌, refl, ◌⊎◌, inl, inr, Bool, true, false, not, ◌&&◌,
  ◌||◌, some, List, [], ◌∷◌, arith, In, Bool-cases, Option-cases, leb, ap, ◌∙◌, sym, ◌++◌, ◌==◌,
  reverse, find,
}
use mathlib.Core.Path.{subst}
use mathlib.Core.List.{reverse-cons}
use smokeng.Common.Result.{ok, >>=-eq-ok, Result-cases}
use smokeng.Tree.Model.{Target, Tree, node_at}
use smokeng.Tree.Build.{build, climb, ancestry_of}
use smokeng.Tree.Ancestry.{Lineage, last_of, ancestry-build}
use smokeng.Tree.Limits.{depth_from, depth, tree_or_nil, was_as_deep, runs, prior_of}

depth-climb :
    (nodes : List Target) (start : ℕ) (fuel id : ℕ) (parent : Option ℕ) {rest : List Target}
    → climb nodes start fuel id parent ≡ ok rest
    → depth_from nodes fuel parent ≡ length rest
unfolding climb depth_from
depth-climb nodes start zero id none h = ground (arith, h)
depth-climb nodes start zero id (some p) h = ground (arith, h)
depth-climb nodes start (suc fuel) id none h = ground (arith, h)
depth-climb nodes start (suc fuel) id (some p) {rest} h = elim (Option-cases (node_at nodes p)) [
  | inl e ↦ absurd (ground (arith, h, e))
  | inr (next, e) ↦
      let (more, up, last) =
        >>=-eq-ok (climb nodes start fuel next.id next.parent_id) (λ r. ok (next ∷ r))
          (rw (e, climb) at h) in
      let ih = depth-climb nodes start fuel next.id next.parent_id up in
      let is : next ∷ more ≡ rest = cc last in ground (arith, ih, is, e)
]

-- On a tree that `build` accepts the depth of a target is the number of nodes above it.
pub depth-Lineage :
    (targets : List Target) (t : Tree) (n : Target)
    → build targets ≡ ok t
    → In n targets
    → (rest : List Target) × Lineage t.nodes (n ∷ rest)
      × (last_of (n ∷ rest) ≡ some t.root)
      × (depth t n ≡ length rest)
unfolding depth ancestry_of
depth-Lineage targets t n built i =
    let (rest, a, line, last) = ancestry-build targets built n i in
    let (more, up, e) = >>=-eq-ok (climb t.nodes n.id (length t.nodes) n.id n.parent_id) _ a in
    let is : more ≡ rest = cc e in
    (
      rest,
      line,
      last,
      depth-climb t.nodes n.id (length t.nodes) n.id n.parent_id up
          ∙ ap (λ (l : List Target). length l) is,
    )

-- The target with this id as it was stored, in the tree of the stored targets.
pub record Before (before : List Target) (n : Target) : Type 0 where
  pub tree : Tree
  pub target : Target
  pub built : build before ≡ ok tree
  pub stored : In target before
  pub same_id : target.id ≡ n.id

-- There was such a target, and it sat at least as deep as `d`, below at least as many nodes.
abbrev pub SatAsDeep : List Target → Target → ℕ → Type 0
SatAsDeep before n d =
    (b : Before before n) × (above : List Target) × Lineage b.tree.nodes (b.target ∷ above)
    × (d ≤ length above)

In-append : {A : Type 0} (x : A) (xs ys : List A) → In x (xs ++ ys) → In x xs ⊎ In x ys
In-append x [] ys i = inr i
In-append x (y ∷ xs) ys (inl e) = inl (inl e)
In-append x (y ∷ xs) ys (inr i) = elim (In-append x xs ys i) [ inl j ↦ inl (inr j) | inr j ↦ inr j ]

reverse-In : {A : Type 0} (x : A) (xs : List A) → In x (reverse xs) → In x xs
reverse-In x [] i = i
reverse-In x (y ∷ xs) i =
    elim (In-append x (reverse xs) (y ∷ []) (subst (In x) (reverse-cons y xs) i)) [
      | inl j ↦ inr (reverse-In x xs j)
      | inr (inl e) ↦ inl e
      | inr (inr none_) ↦ absurd none_
    ]

find_found :
    {A : Type 0} (p : A → Bool) (xs : List A) (x : A) → find p xs ≡ some x → (p x ≡ true) × In x xs
unfolding find
find_found p [] x h = cc
find_found p (y ∷ xs) x h = elim (Bool-cases (p y)) [
  | inl e ↦ let is : y ≡ x = cc (rw e at h) in (ap p (sym is) ∙ e, inl is)
  | inr n ↦ let (holds, i) = find_found p xs x (rw n at h) in (holds, inr i)
]

-- What `prior` gives is a stored target of the id.
pub prior_of-stored :
    (before : List Target) (n old : Target)
    → prior_of before n.id ≡ some old
    → In old before × (old.id ≡ n.id)
unfolding prior_of
prior_of-stored before n old h =
    let (same, i) = find_found (λ (m : Target). m.id == n.id) (reverse before) old h in
    (reverse-In old before i, ground (arith, same))

pub le_of_leb : (a b : ℕ) → leb a b ≡ true → a ≤ b
le_of_leb a b h = ground (arith, h)

pub was_as_deep-SatAsDeep :
    (before : List Target) (n : Target) (d : ℕ)
    → was_as_deep before (tree_or_nil before) n d ≡ true
    → SatAsDeep before n d
unfolding was_as_deep tree_or_nil
was_as_deep-SatAsDeep before n d h = elim (Result-cases (build before)) [
  | inr (x, e) ↦ cc (rw (e, tree_or_nil, was_as_deep) at h)
  | inl (bt, e) ↦
      let h1 : was_as_deep before (some bt) n d ≡ true = rw (e, tree_or_nil) at h in
      elim (Option-cases (prior_of before n.id)) [
        | inl gone ↦ cc (rw (gone, was_as_deep) at h1)
        | inr (old, found) ↦
            let deep : leb d (depth bt old) ≡ true = rw (found, was_as_deep) at h1 in
            let (stored, same_id) = prior_of-stored before n old found in
            let (above, line, last, depth_is) = depth-Lineage before bt old e stored in
            (
              record { tree = bt; target = old; built = e; stored = stored; same_id = same_id },
              above,
              line,
              omega (arith, le_of_leb d (depth bt old) deep, depth_is),
            )
      ]
]

pub false-ne-true : ¬ (false ≡ true)
false-ne-true h = cc

pub kept_parts :
    (host enabled now worse : Bool)
    → (host && (enabled || not now) && worse) ≡ true
    → now ≡ true
    → (host ≡ true) × (enabled ≡ true) × (worse ≡ true)
kept_parts true true now worse h on = (refl, refl, h)
kept_parts true false true worse h on = absurd (false-ne-true h)
kept_parts true false false worse h on = absurd (false-ne-true on)
kept_parts false enabled now worse h on = absurd (false-ne-true h)

pub runs_enabled : (n : Target) → runs n ≡ true → n.enabled ≡ true
runs_enabled n h = elim (Bool-cases n.enabled) [
  | inl e ↦ e
  | inr off ↦ absurd (ground (arith, off, h))
]
