-- ===== src/Access/Highest.antt =====
-- Where the view of a session starts: `RootOf` of internal/api/scope.go.
use smokeng.Common.{
  ℕ, ◌<◌, ◌≡◌, ◌≢◌, refl, sym, ap, ◌∙◌, ◌⊎◌, inl, inr, false, none, some, List, [], ◌∷◌, ◌++◌,
  reverse, arith, All, In, All-map, find, Option-cases, Bool-cases, ◌==◌,
}
use mathlib.Core.List.{reverse-cons, reverse-append, reverse-reverse, append_assoc}
use mathlib.Core.Path.{subst}
use smokeng.Common.Result.{ok}
use smokeng.Tree.Model.{Target}
use smokeng.Tree.Build.{build}
use smokeng.Tree.Ancestry.{Lineage, last_of}
use smokeng.Access.Role.{viewer, at_least}
use smokeng.Access.Scope.{Root, Scope, root_at, chain, first_root, root_of}
use smokeng.Access.Chain.{ids, chain-Lineage}

-- The scope holds a grant on the node.
abbrev pub Granted : List Root → ℕ → Type 0
Granted roots id = (r : Root) × In r roots × (r.node ≡ id)

-- Of a way up, the last node that the scope holds a grant on, and none above it; or 0, and no node of
-- the way is one.
abbrev pub Highest : List Root → List ℕ → ℕ → Type 0
Highest roots up root =
    ((root ≡ 0) × All (λ (a : ℕ). ¬ Granted roots a) up)
    ⊎ ((below : List ℕ) × (above : List ℕ) × (up ≡ below ++ root ∷ above)
        × Granted roots root
        × All (λ (a : ℕ). ¬ Granted roots a) above)

-- The first id of the list that the map holds, and none before it; or 0, and none is held.
abbrev First : List Root → List ℕ → ℕ → Type 0
First roots way root =
    ((root ≡ 0) × All (λ (a : ℕ). root_at roots a ≡ none) way)
    ⊎ ((above : List ℕ) × (below : List ℕ) × (way ≡ above ++ root ∷ below)
        × All (λ (a : ℕ). root_at roots a ≡ none) above
        × (root_at roots root ≢ none))

first_root-none :
    (roots : List Root) (a : ℕ) (rest : List ℕ)
    → root_at roots a ≡ none
    → first_root roots (a ∷ rest) ≡ first_root roots rest
unfolding first_root
first_root-none roots a rest e = rw (e, first_root)

first_root-some :
    (roots : List Root) (a : ℕ) (rest : List ℕ) (r : Root)
    → root_at roots a ≡ some r
    → first_root roots (a ∷ rest) ≡ a
unfolding first_root
first_root-some roots a rest r e = rw (e, first_root)

First-cons :
    (roots : List Root) (a : ℕ) (rest : List ℕ) (root : ℕ)
    → root_at roots a ≡ none
    → First roots rest root
    → First roots (a ∷ rest) root
First-cons roots a rest root e (inl (zero_is, all_none)) = inl (zero_is, (e, all_none))
First-cons roots a rest root e (inr (above, below, split, all_none, held)) =
    inr (a ∷ above, below, ap (λ (l : List ℕ). a ∷ l) split, (e, all_none), held)

first_root-First : (roots : List Root) (way : List ℕ) → First roots way (first_root roots way)
unfolding first_root
first_root-First roots [] = inl (refl, tt)
first_root-First roots (a ∷ rest) = elim (Option-cases (root_at roots a)) [
  | inl e ↦
      subst (First roots (a ∷ rest)) (sym (first_root-none roots a rest e))
        (First-cons roots a rest (first_root roots rest) e (first_root-First roots rest))
  | inr (r, e) ↦
      subst (First roots (a ∷ rest)) (sym (first_root-some roots a rest r e))
        (inr ([], rest, refl, tt, λ n. cc))
]

root_at-none : (roots : List Root) (a : ℕ) → root_at roots a ≡ none → ¬ Granted roots a
unfolding root_at find
root_at-none [] a h g = absurd g.1
root_at-none (r ∷ roots) a h (q, i, e) = elim (Bool-cases (r.node == a)) [
  | inl own ↦ cc (rw own at h)
  | inr other ↦ elim i [
    | inl is ↦
        let same : r.node ≡ a = ap (λ (x : Root). x.node) is ∙ e in
        absurd (ground (arith, other, same))
    | inr later ↦ root_at-none roots a (rw other at h) (q, later, e)
  ]
]

root_at-some : (roots : List Root) (a : ℕ) → root_at roots a ≢ none → Granted roots a
unfolding root_at find
root_at-some [] a h = absurd (h refl)
root_at-some (r ∷ roots) a h = elim (Bool-cases (r.node == a)) [
  | inl own ↦ (r, inl refl, ground (arith, own))
  | inr other ↦ let (q, i, e) = root_at-some roots a (rw other at h) in (q, inr i, e)
]

All-snoc :
    {A : Type 0} (P : A → Type 0) (xs : List A) (y : A) → All P xs → P y → All P (xs ++ y ∷ [])
All-snoc P [] y h p = (p, tt)
All-snoc P (x ∷ xs) y h p = (h.0, All-snoc P xs y h.1 p)

All-reverse : {A : Type 0} (P : A → Type 0) (xs : List A) → All P xs → All P (reverse xs)
All-reverse P [] h = tt
All-reverse P (x ∷ xs) h =
    subst (All P) (sym (reverse-cons x xs)) (All-snoc P (reverse xs) x (All-reverse P xs h.1) h.0)

-- A way down, turned round.
First-Highest :
    (roots : List Root) (up : List ℕ) (root : ℕ)
    → First roots (reverse up) root
    → Highest roots up root
First-Highest roots up root (inl (zero_is, all_none)) = inl (
  zero_is,
  subst (All (λ (a : ℕ). ¬ Granted roots a)) (reverse-reverse up) (
      All-reverse (λ (a : ℕ). ¬ Granted roots a) (reverse up)
        (All-map (λ a. root_at roots a ≡ none) (λ a. ¬ Granted roots a) (root_at-none roots)
          (reverse up) all_none)),
)
First-Highest roots up root (inr (above, below, split, all_none, held)) = inr (
  reverse below,
  reverse above,
  sym (reverse-reverse up)
      ∙ ap reverse split
      ∙ reverse-append above (root ∷ below)
      ∙ ap (λ (l : List ℕ). l ++ reverse above) (reverse-cons root below)
      ∙ append_assoc (reverse below) (root ∷ []) (reverse above),
  root_at-some roots root held,
  All-reverse (λ (a : ℕ). ¬ Granted roots a) above
      (All-map (λ a. root_at roots a ≡ none) (λ a. ¬ Granted roots a) (root_at-none roots) above
        all_none),
)

-- On a tree that `build` accepts, of targets whose ids are not 0, and without a global role that may
-- view: the view of a target starts at the node of its lineage, from the target up to the root, that
-- the scope holds a grant on and that has no granted node above it; it is 0 where no node of the
-- lineage is granted.
pub root_of-Highest :
    (targets : List Target) (sc : Scope) (n : Target)
    → build targets ≡ ok sc.tr
    → All (λ (m : Target). 0 < m.id) targets
    → In n targets
    → at_least sc.global viewer ≡ false
    → (rest : List Target) × Lineage sc.tr.nodes (n ∷ rest)
      × (last_of (n ∷ rest) ≡ some sc.tr.root)
      × Highest sc.roots (ids (n ∷ rest)) (root_of sc n.id)
unfolding root_of
root_of-Highest targets sc n built nz i h =
    let (rest, line, last, chain_is) = chain-Lineage targets sc.tr n built nz i in
    (
      rest,
      line,
      last,
      rw h (
          First-Highest sc.roots (ids (n ∷ rest)) (first_root sc.roots (chain sc.tr n.id)) (
            subst (λ (w : List ℕ). First sc.roots w (first_root sc.roots (chain sc.tr n.id)))
              chain_is (first_root-First sc.roots (chain sc.tr n.id)))),
    )
