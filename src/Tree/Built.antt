-- ===== src/Tree/Built.antt =====
-- A tree that `New` accepts: what its loops have established.
use smokeng.Common.{true, Option, none, some, List, [], ◌≡◌, refl, arith}
use smokeng.Common.Result.{Result, ok, err, ◌>>=◌}
use smokeng.Tree.Model.{Target, Tree, TreeError}
use smokeng.Tree.Build.{
  index, root_of, complete, check_nodes, check_siblings, check_timing, check_tree, build,
}

-- The checks of `New`, each passed.
pub record Built (targets : List Target) (t : Tree) : Type 0 where
  pub indexed : index [] none targets ≡ ok (t.nodes, some t.root)
  pub complete_root : complete t.root.settings ≡ true
  pub nodes_pass : check_nodes t.nodes t.nodes ≡ ok tt
  pub siblings_pass : check_siblings [] t.nodes ≡ ok tt
  pub timing_passes : check_timing t t.nodes ≡ ok tt

record Checked (t t' : Tree) : Type 0 where
  same_tree : t' ≡ t
  complete_root : complete t.root.settings ≡ true
  nodes_pass : check_nodes t.nodes t.nodes ≡ ok tt
  siblings_pass : check_siblings [] t.nodes ≡ ok tt
  timing_passes : check_timing t t.nodes ≡ ok tt

check_tree-Checked : (t t' : Tree) → check_tree t ≡ ok t' → Checked t t'
unfolding check_tree
check_tree-Checked t t' h = ground arith

build_from :
    (targets : List Target) (t : Tree) (i : Result TreeError (List Target × Option Target))
    → index [] none targets ≡ i
    → (do
      (nodes, last) ← i
      root ← root_of last
      check_tree (record { nodes = nodes; root = root }))
      ≡ ok t
    → Built targets t
unfolding root_of
build_from targets t (err e) h k = cc
build_from targets t (ok (nodes, none)) h k = cc
build_from targets t (ok (nodes, some root)) h k =
    let c = check_tree-Checked (record { nodes = nodes; root = root }) t k in
    rw c.same_tree (record {
      indexed = h;
      complete_root = c.complete_root;
      nodes_pass = c.nodes_pass;
      siblings_pass = c.siblings_pass;
      timing_passes = c.timing_passes;
    })

pub build-Built : (targets : List Target) {t : Tree} → build targets ≡ ok t → Built targets t
unfolding build
build-Built targets {t} h = build_from targets t (index [] none targets) refl h
