-- ===== src/Probe/Tallies.antt =====
-- The tallies of `finalize` in internal/probe/scheduler.go: the mode of the counts of some keys is the
-- commonest of the keys.
use smokeng.Common.{
  ℕ, zero, suc, ◌+◌, ◌<◌, ◌≤◌, ◌≡◌, ◌≢◌, refl, ◌⊎◌, inl, inr, Option, none, some, List, [], ◌∷◌,
  arith, if◌then◌else◌, ◌==◌, ==_iff, In, All, All-In, Bool-cases, sym, ◌∙◌, ap,
}
use mathlib.Core.Path.{subst}
use smokeng.Probe.Finalize.{mode_if_any}
use smokeng.Probe.Mode.{Counts, bump, Behind, mode_of, mode_of-IsMode}

pub count : ℕ → List ℕ → ℕ
count k [] = 0
count k (j ∷ keys) = (if j == k then 1 else 0) + count k keys

-- `counts` after `counts[k]++` for each key.
unfoldable pub bump_all : List ℕ → Counts → Counts
bump_all [] counts = counts
bump_all (k ∷ keys) counts = bump_all keys (bump k counts)

-- The entry of a key, 0 where it is missing.
entry_of : ℕ → Counts → ℕ
entry_of k [] = 0
entry_of k ((j, n) ∷ rest) = if j == k then n else entry_of k rest

abbrev Lacks : ℕ → Counts → Type 0
Lacks k counts = All (λ (e : ℕ × ℕ). e.0 ≢ k) counts

abbrev Distinct : Counts → Type 0
Distinct [] = Unit
Distinct ((k, n) ∷ rest) = Lacks k rest × Distinct rest

bump-Lacks : (j k : ℕ) (counts : Counts) → j ≢ k → Lacks k counts → Lacks k (bump j counts)
unfolding bump
bump-Lacks j k [] ne h = (ne, tt)
bump-Lacks j k ((i, n) ∷ rest) ne h = ground (arith, bump-Lacks j k rest ne h.1)

bump-Distinct : (j : ℕ) (counts : Counts) → Distinct counts → Distinct (bump j counts)
unfolding bump
bump-Distinct j [] h = (tt, tt)
bump-Distinct j ((i, n) ∷ rest) h = elim (Bool-cases (i == j)) [
  | inl e ↦ rw e h
  | inr e ↦ rw e (bump-Lacks j i rest (ground arith) h.0, bump-Distinct j rest h.1)
]

entry_of-bump :
    (k j : ℕ) (counts : Counts)
    → entry_of k (bump j counts) ≡ (if j == k then 1 else 0) + entry_of k counts
unfolding entry_of bump
entry_of-bump k j [] = ground arith
entry_of-bump k j ((i, n) ∷ rest) = ground (arith, entry_of-bump k j rest)

bump_all-Distinct :
    (keys : List ℕ) (counts : Counts) → Distinct counts → Distinct (bump_all keys counts)
unfolding bump_all
bump_all-Distinct [] counts h = h
bump_all-Distinct (k ∷ keys) counts h =
    bump_all-Distinct keys (bump k counts) (bump-Distinct k counts h)

entry_of-bump_all :
    (k : ℕ) (keys : List ℕ) (counts : Counts)
    → entry_of k (bump_all keys counts) ≡ count k keys + entry_of k counts
unfolding bump_all count
entry_of-bump_all k [] counts = omega arith
entry_of-bump_all k (j ∷ keys) counts =
    ground (arith, entry_of-bump_all k keys (bump j counts), entry_of-bump k j counts)

-- With each key once, the entries are those that a lookup finds.
Lacks-ne : (k n : ℕ) (counts : Counts) → Lacks k counts → ¬ In (k, n) counts
Lacks-ne k n [] h i = i
Lacks-ne k n (e ∷ rest) h (inl same_) = h.0 (ap (λ (x : ℕ × ℕ). x.0) same_)
Lacks-ne k n (e ∷ rest) h (inr i) = Lacks-ne k n rest h.1 i

In-entry_of :
    (k n : ℕ) (counts : Counts) → Distinct counts → In (k, n) counts → entry_of k counts ≡ n
unfolding entry_of
In-entry_of k n [] h i = absurd i
In-entry_of k n ((j, m) ∷ rest) h (inl e) =
    ground (arith, ap (λ (x : ℕ × ℕ). x.0) e, ap (λ (x : ℕ × ℕ). x.1) e)
In-entry_of k n ((j, m) ∷ rest) h (inr i) = elim (Bool-cases (j == k)) [
  | inl same_ ↦
      absurd (Lacks-ne j n rest h.0 (subst (λ x. In (x, n) rest) (sym ((==_iff j k).0 same_)) i))
  | inr other_ ↦ rw other_ (In-entry_of k n rest h.1 i)
]

entry_of-In : (k n : ℕ) (counts : Counts) → entry_of k counts ≡ n → 0 < n → In (k, n) counts
unfolding entry_of
entry_of-In k n [] e h = absurd (omega arith)
entry_of-In k n ((j, m) ∷ rest) e h = elim (Bool-cases (j == k)) [
  | inl same_ ↦ inl (ground (arith, (==_iff j k).0 same_))
  | inr other_ ↦ inr (entry_of-In k n rest (ground arith) h)
]

-- `k` is one of the keys, none comes more often, and none that comes as often is lower.
pub record IsCommonest (keys : List ℕ) (k : ℕ) : Type 0 where
  pub occurs : 0 < count k keys
  pub most : (j : ℕ) → (count j keys < count k keys) ⊎ ((count j keys ≡ count k keys) × (k ≤ j))

-- `o` names the commonest of the keys, and is nothing exactly when there are none.
abbrev pub Names : List ℕ → Option ℕ → Type 0
Names keys none = keys ≡ []
Names keys (some k) = IsCommonest keys k

count_self : (k : ℕ) (keys : List ℕ) → 0 < count k (k ∷ keys)
unfolding count
count_self k keys = ground (arith, (==_iff k k).1 refl)

Behind-pos : (k n j m : ℕ) → Behind k n (j, m) → 0 < m → 0 < n
Behind-pos k n j m (inl h) some_ = omega arith
Behind-pos k n j m (inr h) some_ = omega arith

Behind-most : (k n j m : ℕ) → 0 < n → (0 < m → Behind k n (j, m)) → (m < n) ⊎ ((m ≡ n) × (k ≤ j))
Behind-most k n j zero h b = inl h
Behind-most k n j (suc m) h b = b (omega arith)

-- The mode of counts that are the tally of some keys.
mode-IsCommonest :
    (x : ℕ) (keys : List ℕ) (e : ℕ × ℕ) (rest : Counts)
    → Distinct (e ∷ rest)
    → ((k : ℕ) → entry_of k (e ∷ rest) ≡ count k (x ∷ keys))
    → IsCommonest (x ∷ keys) (mode_of (e ∷ rest))
mode-IsCommonest x keys e rest distinct entries =
    let (n, mode) = mode_of-IsMode e rest in
    let k = mode_of (e ∷ rest) in
    let exact : n ≡ count k (x ∷ keys) =
      sym (In-entry_of k n (e ∷ rest) distinct mode.entry) ∙ entries k in
    let behind = λ (j m : ℕ) (is : entry_of j (e ∷ rest) ≡ m) (some_ : 0 < m).
      All-In (Behind k n) (e ∷ rest) mode.most (entry_of-In j m (e ∷ rest) is some_) in
    let first = behind x (count x (x ∷ keys)) (entries x) (count_self x keys) in
    let occurs : 0 < n = Behind-pos k n x (count x (x ∷ keys)) first (count_self x keys) in
    record {
      occurs = omega arith;
      most = λ j.
          rw (← exact) (Behind-most k n j (count j (x ∷ keys)) occurs (behind j _ (entries j)));
    }

nothing : (x : ℕ) (keys : List ℕ) → ¬ (entry_of x [] ≡ count x (x ∷ keys))
unfolding entry_of
nothing x keys e = let more = count_self x keys in omega (arith, more)

none_of : (k : ℕ) → entry_of k [] ≡ count k []
unfolding entry_of count
none_of k = refl

no_entry : (k n : ℕ) → n + entry_of k [] ≡ n
unfolding entry_of
no_entry k n = omega arith

cons_ne : {A : Type 0} (x : A) (xs : List A) → ¬ ((x ∷ xs) ≡ [])
cons_ne x xs e = cc

mode_if_any-entries :
    (keys : List ℕ) (counts : Counts)
    → Distinct counts
    → ((k : ℕ) → entry_of k counts ≡ count k keys)
    → (keys ≡ [] → counts ≡ [])
    → Names keys (mode_if_any counts)
unfolding mode_if_any
mode_if_any-entries [] [] distinct entries empty = refl
mode_if_any-entries (x ∷ keys) [] distinct entries empty = absurd (nothing x keys (entries x))
mode_if_any-entries [] (e ∷ rest) distinct entries empty = absurd (cons_ne e rest (empty refl))
mode_if_any-entries (x ∷ keys) (e ∷ rest) distinct entries empty =
    mode-IsCommonest x keys e rest distinct entries

-- What is made of the tally of some keys names the commonest of them.
pub mode_if_any-Names : (keys : List ℕ) → Names keys (mode_if_any (bump_all keys []))
unfolding bump_all
mode_if_any-Names [] = mode_if_any-entries [] [] tt (λ k. none_of k) (λ _. refl)
mode_if_any-Names (x ∷ keys) =
    mode_if_any-entries (x ∷ keys) (bump_all (x ∷ keys) []) (bump_all-Distinct (x ∷ keys) [] tt)
      (λ k. entry_of-bump_all k (x ∷ keys) [] ∙ no_entry k (count k (x ∷ keys)))
      (λ e. absurd (cons_ne x keys e))
