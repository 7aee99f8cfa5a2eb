-- ===== src/Tree/Lookup.antt =====
-- What the map that `New` fills answers: every target is found under its id, and one has no parent.
use smokeng.Common.{
  ℕ, Option, none, some, List, [], ◌∷◌, ◌++◌, ◌≡◌, refl, arith, All, Option-cases, inl, inr, find,
}
use mathlib.Core.List.{append_assoc, append-nil}
use smokeng.Common.Result.{ok, err-ne-ok}
use smokeng.Tree.Model.{Target, node_at}
use smokeng.Tree.Build.{index}

node_at-append_some :
    (xs ys : List Target) (id : ℕ) {m : Target}
    → node_at xs id ≡ some m
    → node_at (xs ++ ys) id ≡ some m
unfolding node_at find
node_at-append_some [] ys id h = cc
node_at-append_some (x ∷ xs) ys id {m} h = ground (arith, node_at-append_some xs ys id {m = m})

node_at-append_none :
    (xs : List Target) (n : Target) → node_at xs n.id ≡ none → node_at (xs ++ n ∷ []) n.id ≡ some n
unfolding node_at find
node_at-append_none [] n h = ground arith
node_at-append_none (x ∷ xs) n h = ground (arith, node_at-append_none xs n)

-- A node that is found has the id that was asked for.
pub node_at-id : (xs : List Target) (id : ℕ) {m : Target} → node_at xs id ≡ some m → m.id ≡ id
unfolding node_at find
node_at-id [] id h = cc
node_at-id (x ∷ xs) id {m} h = ground (arith, node_at-id xs id {m = m})

-- One step of `index`, taken apart.
record IndexStep (nodes : List Target) (root : Option Target) (n : Target) (rest : List Target)
    (out : List Target) (last : Option Target) : Type 0 where
  fresh : node_at nodes n.id ≡ none
  root' : Option Target
  more : index (nodes ++ n ∷ []) root' rest ≡ ok (out, last)
  keeps : (r : Target) → root ≡ some r → root' ≡ some r
  takes : n.parent_id ≡ none → root' ≡ some n

index-inv :
    (nodes : List Target) (root : Option Target) (n : Target) (rest : List Target)
    {out : List Target} {last : Option Target}
    → index nodes root (n ∷ rest) ≡ ok (out, last)
    → IndexStep nodes root n rest out last
unfolding index
index-inv nodes root n rest h = elim (Option-cases (node_at nodes n.id)) [
  | inr (_, e) ↦ absurd (err-ne-ok (rw (e, index) at h))
  | inl e ↦ elim (Option-cases n.parent_id) [
    | inr (p, pe) ↦ record {
      fresh = e;
      root' = root;
      more = rw (e, pe, index) at h;
      keeps = λ r x. x;
      takes = λ x. cc;
    }
    | inl pe ↦ elim (Option-cases root) [
      | inl re ↦ record {
        fresh = e;
        root' = some n;
        more = rw (e, pe, re, index) at h;
        keeps = λ r x. cc;
        takes = λ x. refl;
      }
      | inr (r, re) ↦ absurd (err-ne-ok (rw (e, pe, re, index) at h))
    ]
  ]
]

index-keeps :
    (nodes : List Target) (root : Option Target) (rest : List Target) {out : List Target}
    {last : Option Target} (id : ℕ) {m : Target}
    → index nodes root rest ≡ ok (out, last)
    → node_at nodes id ≡ some m
    → node_at out id ≡ some m
unfolding index
index-keeps nodes root [] id h e = ground (arith, h, e)
index-keeps nodes root (n ∷ rest) id h e =
    let s = index-inv nodes root n rest h in
    index-keeps (nodes ++ n ∷ []) s.root' rest id s.more (node_at-append_some nodes (n ∷ []) id e)

-- The map holds every target of the list, under its id.
pub index-lookup :
    (nodes : List Target) (root : Option Target) (rest : List Target) {out : List Target}
    {last : Option Target}
    → index nodes root rest ≡ ok (out, last)
    → All (λ (n : Target). node_at out n.id ≡ some n) rest
index-lookup nodes root [] h = tt
index-lookup nodes root (n ∷ rest) h =
    let s = index-inv nodes root n rest h in
    (
      index-keeps (nodes ++ n ∷ []) s.root' rest n.id s.more (node_at-append_none nodes n s.fresh),
      index-lookup (nodes ++ n ∷ []) s.root' rest s.more,
    )

-- It holds nothing else, in the order of the list.
pub index-nodes :
    (nodes : List Target) (root : Option Target) (rest : List Target) {out : List Target}
    {last : Option Target}
    → index nodes root rest ≡ ok (out, last)
    → out ≡ nodes ++ rest
unfolding index
index-nodes nodes root [] h = ground (arith, h, append-nil nodes)
index-nodes nodes root (n ∷ rest) h =
    let s = index-inv nodes root n rest h in
    cc (index-nodes (nodes ++ n ∷ []) s.root' rest s.more, append_assoc nodes (n ∷ []) rest)

index-root_kept :
    (nodes : List Target) (root : Option Target) (rest : List Target) {out : List Target}
    {last : Option Target} (r : Target)
    → index nodes root rest ≡ ok (out, last)
    → root ≡ some r
    → last ≡ some r
unfolding index
index-root_kept nodes root [] r h e = ground (arith, h, e)
index-root_kept nodes root (n ∷ rest) r h e =
    let s = index-inv nodes root n rest h in
    index-root_kept (nodes ++ n ∷ []) s.root' rest r s.more (s.keeps r e)

-- A target without a parent is the root.
pub index-root :
    (nodes : List Target) (root : Option Target) (rest : List Target) {out : List Target}
    {last : Option Target}
    → index nodes root rest ≡ ok (out, last)
    → All (λ (n : Target). n.parent_id ≡ none → last ≡ some n) rest
index-root nodes root [] h = tt
index-root nodes root (n ∷ rest) h =
    let s = index-inv nodes root n rest h in
    (
      λ e. index-root_kept (nodes ++ n ∷ []) s.root' rest n s.more (s.takes e),
      index-root (nodes ++ n ∷ []) s.root' rest s.more,
    )
