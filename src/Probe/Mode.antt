-- ===== src/Probe/Mode.antt =====
-- The tallies of `finalize` and `modeOf` of internal/probe/scheduler.go. A Go map is an association
-- list of its entries; what a range over it yields may come in any order.
use smokeng.Common.{
  ℕ, ◌+◌, ◌<◌, ◌≤◌, ◌≡◌, refl, ◌⊎◌, inl, inr, Bool, true, false, ◌↔◌, List, [], ◌∷◌, arith,
  if◌then◌else◌, ltb, ◌==◌, ◌||◌, ◌&&◌, In, All, All-In, Bool-cases,
}
use smokeng.Common.Int.{ℤ, pos, negsuc, ltb_ℤ, eq_ℤ}

abbrev pub Counts : Type 0
Counts = List (ℕ × ℕ)

-- counts[k]++
unfoldable pub bump : ℕ → Counts → Counts
bump k [] = (k, 1) ∷ []
bump k ((j, n) ∷ rest) =
    let rest' = bump k rest in if j == k then (j, n + 1) ∷ rest else (j, n) ∷ rest'

-- The loop of `modeOf`, over the entries in the order of the range.
unfoldable pub mode_from : ℕ → ℤ → Counts → ℕ
mode_from best best_n [] = best
mode_from best best_n ((k, n) ∷ rest) =
    let better = ltb_ℤ best_n (pos n) || (eq_ℤ (pos n) best_n && ltb k best) in
    mode_from (if better then k else best) (if better then pos n else best_n) rest

unfoldable pub mode_of : Counts → ℕ
unfolding mode_from
mode_of counts = mode_from 0 (negsuc 0) counts

-- An entry that does not come before `(k, n)`: it is counted less often, or as often and not lower.
abbrev pub Behind : ℕ → ℕ → ℕ × ℕ → Type 0
Behind k n e = (e.1 < n) ⊎ ((e.1 ≡ n) × (k ≤ e.0))

-- `k` is counted `n` times, and every entry is behind it.
pub record IsMode (counts : Counts) (k n : ℕ) : Type 0 where
  pub entry : In (k, n) counts
  pub most : All (Behind k n) counts

Behind-trans : (k n j i : ℕ) (e : ℕ × ℕ) → Behind k n (j, i) → Behind j i e → Behind k n e
Behind-trans k n j i e (inl a) (inl b) = inl (omega arith)
Behind-trans k n j i e (inl a) (inr b) = inl (omega arith)
Behind-trans k n j i e (inr a) (inl b) = inl (omega arith)
Behind-trans k n j i e (inr a) (inr b) = inr (omega arith, omega arith)

-- The test of the loop.
abbrev better : ℕ → ℤ → ℕ → ℕ → Bool
better best best_n k n = ltb_ℤ best_n (pos n) || (eq_ℤ (pos n) best_n && ltb k best)

better-Behind : (best b k n : ℕ) → better best (pos b) k n ≡ true → Behind k n (best, b)
better-Behind best b k n h = elim (Bool-cases (ltb b n)) [
  | inl more ↦ inl (ground arith)
  | inr same_ ↦ inr (ground arith, ground arith)
]

not_better-Behind : (best b k n : ℕ) → better best (pos b) k n ≡ false → Behind best b (k, n)
not_better-Behind best b k n h = elim (Bool-cases (ltb n b)) [
  | inl less ↦ inl (ground arith)
  | inr same_ ↦ inr (ground arith, ground arith)
]

In-skip : {A : Type 0} (a x y : A) (xs : List A) → In a (x ∷ xs) → In a (x ∷ y ∷ xs)
In-skip a x y xs (inl e) = inl e
In-skip a x y xs (inr i) = inr (inr i)

-- The loop in progress: what it returns is a mode of its best entry and those that are left.
mode_from-IsMode :
    (best b : ℕ) (rest : Counts)
    → (n : ℕ) × IsMode ((best, b) ∷ rest) (mode_from best (pos b) rest) n
unfolding mode_from
mode_from-IsMode best b [] = (b, record { entry = inl refl; most = (inr (refl, omega arith), tt) })
mode_from-IsMode best b ((k, n) ∷ rest) = elim (Bool-cases (better best (pos b) k n)) [
  | inl wins ↦
      let (m, r) = mode_from-IsMode k n rest in
      rw wins (
        m,
        record {
          entry = inr r.entry;
          most = (Behind-trans _ m k n (best, b) r.most.0 (better-Behind best b k n wins), r.most);
        },
      )
  | inr stays ↦
      let (m, r) = mode_from-IsMode best b rest in
      rw stays (
        m,
        record {
          entry = In-skip _ _ (k, n) rest r.entry;
          most = (
            r.most.0,
            (
              Behind-trans _ m best b (k, n) r.most.0 (not_better-Behind best b k n stays),
              r.most.1,
            ),
          );
        },
      )
]

-- What `mode_of` returns for counts that are not empty.
pub mode_of-IsMode :
    (e : ℕ × ℕ) (rest : Counts) → (n : ℕ) × IsMode (e ∷ rest) (mode_of (e ∷ rest)) n
unfolding mode_of
mode_of-IsMode (k, n) rest =
    let wins : better 0 (negsuc 0) k n ≡ true = ground arith in rw wins (mode_from-IsMode k n rest)

Behind-antisym : (j m k n : ℕ) → Behind j m (k, n) → Behind k n (j, m) → j ≡ k
Behind-antisym j m k n (inl a) (inl b) = absurd (omega arith)
Behind-antisym j m k n (inl a) (inr b) = absurd (omega arith)
Behind-antisym j m k n (inr a) (inl b) = absurd (omega arith)
Behind-antisym j m k n (inr a) (inr b) = omega arith

IsMode-unique :
    (xs ys : Counts) (j k m n : ℕ)
    → ((e : ℕ × ℕ) → In e xs ↔ In e ys)
    → IsMode xs j m
    → IsMode ys k n
    → j ≡ k
IsMode-unique xs ys j k m n same_entries a b =
    let p = All-In (Behind j m) xs a.most ((same_entries (k, n)).1 b.entry) in
    let q = All-In (Behind k n) ys b.most ((same_entries (j, m)).0 a.entry) in
    Behind-antisym j m k n p q

-- The range over a map yields its entries in any order, and each of these gives the same mode.
pub mode_of-any_order :
    (xs ys : Counts) → ((e : ℕ × ℕ) → In e xs ↔ In e ys) → mode_of xs ≡ mode_of ys
mode_of-any_order [] [] h = refl
mode_of-any_order [] (y ∷ ys) h = absurd ((h y).1 (inl refl))
mode_of-any_order (x ∷ xs) [] h = absurd ((h x).0 (inl refl))
mode_of-any_order (x ∷ xs) (y ∷ ys) h =
    let (m, a) = mode_of-IsMode x xs in
    let (n, b) = mode_of-IsMode y ys in IsMode-unique _ _ _ _ m n h a b
