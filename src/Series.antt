-- ===== src/Series.antt =====
-- The names of the extra per-packet series and the `graph_series` setting (internal/series/series.go).
use smokeng.Common.{ℕ, ◌≡◌, refl, Bool, true, false, List, [], ◌∷◌, ◌++◌, if◌then◌else◌, arith, any}
use mathlib.Core.List.{append_assoc, append-nil}
use smokeng.Common.{inl, inr, Bool-cases, In, ◌⊎◌, ◌≢◌}
use mathlib.Core.Path.{subst, sym, ap, ◌∙◌}
use smokeng.Common.Result.{Result, ok, err, ◌>>=◌, >>=-eq-ok, err-ne-ok}
use smokeng.Common.Text.{codes, same, same-eq, same_refl, fields, trim_space}

pub data SeriesError : Type 0 where
  unknown_series : List ℕ → SeriesError
  listed_twice : List ℕ → SeriesError

abbrev pub ipdv_send : List ℕ
ipdv_send = codes "ipdv_send"

abbrev pub ipdv_receive : List ℕ
ipdv_receive = codes "ipdv_receive"

abbrev pub server_processing : List ℕ
server_processing = codes "server_processing"

abbrev pub all_series : List (List ℕ)
all_series = ipdv_send ∷ ipdv_receive ∷ server_processing ∷ []

unfoldable pub valid : List ℕ → Bool
valid name = any (λ s. same s name) all_series

-- What a setting selects: the names, and whether it is `all`.
pub record Selection : Type 0 where
  pub names : List (List ℕ)
  pub all : Bool

-- The loop over the fields; `names` is also the set `seen`, since each name enters both.
unfoldable pub select : List (List ℕ) → List (List ℕ) → Result SeriesError (List (List ℕ))
select names [] = ok names
select names (f ∷ rest) =
    let more = select (names ++ f ∷ []) rest in
    if valid f
    then (if any (λ s. same s f) names then err (listed_twice f) else more)
    else err (unknown_series f)

unfoldable pub parse_selection : List ℕ → Result SeriesError Selection
unfolding select valid
parse_selection v =
    let v' = trim_space v in
    if same v' (codes "all")
    then ok (record { names = []; all = true })
    else if same v' []
    then ok (record { names = []; all = false })
    else do names ← select [] (fields v'); ok (record { names = names; all = false })

parse_run :
    parse_selection (codes " ipdv_send  server_processing")
    ≡ ok (record { names = ipdv_send ∷ server_processing ∷ []; all = false })
unfolding parse_selection any same fields trim_space
parse_run = refl

-- Each name of the list is a known series, and none is one before it or of `seen`.
abbrev pub Distinct : List (List ℕ) → List (List ℕ) → Type 0
Distinct seen [] = Unit
Distinct seen (f ∷ rest) = In f all_series × (¬ In f seen) × Distinct (seen ++ f ∷ []) rest

any-same : (f : List ℕ) (names : List (List ℕ)) → any (λ s. same s f) names ≡ true → In f names
unfolding any
any-same f [] h = cc
any-same f (s ∷ names) h = elim (Bool-cases (same s f)) [
  | inl e ↦ inl (same-eq s f e)
  | inr n ↦ inr (any-same f names (rw n at h))
]

same-any : (f : List ℕ) (names : List (List ℕ)) → In f names → any (λ s. same s f) names ≡ true
unfolding any
same-any f [] i = absurd i
same-any f (s ∷ names) (inl e) =
    let is : same s f ≡ true = ap (λ t. same t f) e ∙ same_refl f in ground (arith, is)
same-any f (s ∷ names) (inr i) = ground (arith, same-any f names i)

-- The fields that pass are returned as they stand, and each is a known series given once.
select-Distinct :
    (names fs : List (List ℕ)) {out : List (List ℕ)}
    → select names fs ≡ ok out
    → (out ≡ names ++ fs) × Distinct names fs
unfolding select valid
select-Distinct names [] h = (cc (append-nil names), tt)
select-Distinct names (f ∷ rest) {out} h = elim (Bool-cases (valid f)) [
  | inr unknown ↦ absurd (err-ne-ok (rw (unknown, select) at h))
  | inl known ↦ elim (Bool-cases (any (λ s. same s f) names)) [
    | inl twice ↦ absurd (err-ne-ok (rw (known, twice, select) at h))
    | inr new ↦
        let (is, distinct) =
          select-Distinct (names ++ f ∷ []) rest {out = out} (rw (known, new, select) at h) in
        (
          is ∙ append_assoc names (f ∷ []) rest,
          (any-same f all_series known, λ i. cc (sym new ∙ same-any f names i), distinct),
        )
  ]
]

same-[] : (s : List ℕ) → same s [] ≡ true → s ≡ []
unfolding same
same-[] [] h = refl
same-[] (c ∷ s) h = cc

fields_nil : fields [] ≡ []
unfolding fields
fields_nil = refl

-- What a fresh selection of the fields of a text holds.
select_fields :
    (fs : List (List ℕ)) {s : Selection}
    → (do names ← select [] fs; ok (record { names = names; all = false })) ≡ ok s
    → Distinct [] s.names × (s.all ≡ false) × (s.names ≡ fs)
select_fields fs {s} h =
    let (names, e, k) = >>=-eq-ok (select [] fs) _ h in
    let (out, distinct) = select-Distinct [] fs e in
    let is : (record { names = names; all = false }) ≡ s = cc k in
    subst (λ (x : Selection). Distinct [] x.names × (x.all ≡ false) × (x.names ≡ fs)) is
      (subst (λ f. Distinct [] f) (sym out) distinct, refl, out)

-- The text `all` selects everything; any other that parses selects its fields.
abbrev pub Selects : List ℕ → Selection → Type 0
Selects text s =
    ((text ≡ codes "all") × (s.all ≡ true) × (s.names ≡ []))
    ⊎ ((text ≢ codes "all") × (s.all ≡ false) × (s.names ≡ fields text) × Distinct [] s.names)

-- A `graph_series` value that parses, with the space around it taken off, is `all` and selects
-- everything, or is not `all` and selects its fields, in their order: each is one of the three
-- series, and none is given twice. The empty text has no field, and selects none.
pub parse_selection-Distinct :
    (v : List ℕ) {s : Selection} → parse_selection v ≡ ok s → Selects (trim_space v) s
unfolding parse_selection
parse_selection-Distinct v {s} h = elim (Bool-cases (same (trim_space v) (codes "all"))) [
  | inl e ↦
      let is : (record { names = []; all = true }) ≡ s = cc (rw e at h) in
      let text : trim_space v ≡ codes "all" = same-eq (trim_space v) (codes "all") e in
      inl (text, ap (λ (x : Selection). x.all) (sym is), ap (λ (x : Selection). x.names) (sym is))
  | inr e ↦
      let other : trim_space v ≢ codes "all" =
        λ is. cc (sym e ∙ ap (λ t. same t (codes "all")) is ∙ same_refl (codes "all")) in
      elim (Bool-cases (same (trim_space v) [])) [
        | inl n ↦
            let is : (record { names = []; all = false }) ≡ s = cc (rw (e, n) at h) in
            let empty : trim_space v ≡ [] = same-[] (trim_space v) n in
            subst (Selects (trim_space v)) is
              (inr (other, refl, sym (ap fields empty ∙ fields_nil), tt))
        | inr n ↦
            let (distinct, all_is, names_are) =
              select_fields (fields (trim_space v)) (rw (e, n) at h) in
            inr (other, all_is, names_are, distinct)
      ]
]
