-- ===== src/Alert/Silenced.antt =====
-- Which alerts the silences of internal/alert/silence.go cover, against `silencedLocked` of manager.go.
use smokeng.Common.{
  ℕ, ◌≤◌, ◌<◌, ◌≡◌, refl, sym, ap, ◌∙◌, ◌⊎◌, inl, inr, Bool, true, false, ◌&&◌, Option, none, some,
  List, [], ◌∷◌, arith, if◌then◌else◌, ◌==◌, ltb, any, In, All, Bool-cases, ◌↔◌,
}
use mathlib.Core.Path.{subst}
use smokeng.Alert.Silence.{
  Silence, active_at, names, covers_target, covers, silenced_from, silenced,
}

-- The field of a scope is unset, or names the id.
abbrev pub Names : Option ℕ → ℕ → Type 0
Names field id = (field ≡ none) ⊎ (field ≡ some id)

-- The silence covers an alert of this rule, agent and target at `now`.
pub record Covers (now rule_id agent_id : ℕ) (above : List ℕ) (s : Silence) : Type 0 where
  pub begun : s.starts_at ≤ now
  pub not_over : now < s.ends_at
  pub rule : Names s.rule_id rule_id
  pub agent : Names s.agent_id agent_id
  pub target : (s.target_id ≡ none) ⊎ ((x : ℕ) × (s.target_id ≡ some x) × In x above)

-- Some silence of the list covers the alert.
abbrev pub Covered : (now rule_id agent_id : ℕ) → List ℕ → List Silence → Type 0
Covered now rule_id agent_id above silences =
    (s : Silence) × In s silences × Covers now rule_id agent_id above s

names-Names : (field : Option ℕ) (id : ℕ) → names field id ≡ true → Names field id
names-Names none id h = inl refl
names-Names (some x) id h = let is : x ≡ id = ground (arith, h) in inr (ap some is)

Names-names : (field : Option ℕ) (id : ℕ) → Names field id → names field id ≡ true
Names-names none id h = refl
Names-names (some x) id (inl e) = cc
Names-names (some x) id (inr e) = let is : x ≡ id = cc e in ground (arith, is)

any-above : (x : ℕ) (above : List ℕ) → any (λ a. a == x) above ≡ true → In x above
unfolding any
any-above x [] h = cc
any-above x (a ∷ above) h = elim (Bool-cases (a == x)) [
  | inl e ↦ let is : a ≡ x = ground (arith, e) in inl is
  | inr n ↦ inr (any-above x above (rw n at h))
]

above-any : (x : ℕ) (above : List ℕ) → In x above → any (λ a. a == x) above ≡ true
unfolding any
above-any x [] i = absurd i
above-any x (a ∷ above) (inl e) = ground (arith, e)
above-any x (a ∷ above) (inr i) = ground (arith, above-any x above i)

target-covers :
    (field : Option ℕ) (above : List ℕ)
    → covers_target field above ≡ true
    → (field ≡ none) ⊎ ((x : ℕ) × (field ≡ some x) × In x above)
target-covers none above h = inl refl
target-covers (some x) above h = inr (x, refl, any-above x above h)

covers-target :
    (field : Option ℕ) (above : List ℕ)
    → (field ≡ none) ⊎ ((x : ℕ) × (field ≡ some x) × In x above)
    → covers_target field above ≡ true
covers-target none above h = refl
covers-target (some x) above (inl e) = cc
covers-target (some x) above (inr (y, e, i)) =
    let is : y ≡ x = cc (sym e) in above-any x above (subst (λ z. In z above) is i)

and_true : (a b : Bool) → (a && b) ≡ true → (a ≡ true) × (b ≡ true)
and_true true b h = (refl, h)
and_true false b h = cc

module _ (now rule_id agent_id : ℕ) (above : List ℕ) (s : Silence) where
  covers-Covers : covers now rule_id agent_id above s ≡ true → Covers now rule_id agent_id above s
  unfolding covers active_at
  covers-Covers h =
      let (h1, target) = and_true _ (covers_target s.target_id above) h in
      let (h2, agent) = and_true _ (names s.agent_id agent_id) h1 in
      let (active, rule) = and_true (active_at s now) (names s.rule_id rule_id) h2 in
      record {
        begun = ground (arith, active);
        not_over = ground (arith, active);
        rule = names-Names s.rule_id rule_id rule;
        agent = names-Names s.agent_id agent_id agent;
        target = target-covers s.target_id above target;
      }

  Covers-covers : Covers now rule_id agent_id above s → covers now rule_id agent_id above s ≡ true
  unfolding covers active_at
  Covers-covers c =
      let rule = Names-names s.rule_id rule_id c.rule in
      let agent = Names-names s.agent_id agent_id c.agent in
      let target = covers-target s.target_id above c.target in
      let active : active_at s now ≡ true = ground (arith, c.begun, c.not_over) in
      rw (active, rule, agent, target) refl

module _ (now rule_id agent_id : ℕ) (above : List ℕ) where
  from_true :
      (until : ℕ) (silences : List Silence)
      → (silenced_from now rule_id agent_id above true until silences).0 ≡ true
  unfolding silenced_from
  from_true until [] = refl
  from_true until (s ∷ rest) = elim (Bool-cases (covers now rule_id agent_id above s)) [
    | inl e ↦
        rw (e, silenced_from) (from_true (if ltb until s.ends_at then s.ends_at else until) rest)
    | inr e ↦ rw (e, silenced_from) (from_true until rest)
  ]

  until-le :
      (b : Bool) (until : ℕ) (silences : List Silence)
      → until ≤ (silenced_from now rule_id agent_id above b until silences).1
  unfolding silenced_from
  until-le b until [] = omega arith
  until-le b until (s ∷ rest) = elim (Bool-cases (covers now rule_id agent_id above s)) [
    | inl e ↦
        rw (e, silenced_from)
          (ground (arith, until-le true (if ltb until s.ends_at then s.ends_at else until) rest))
    | inr e ↦ rw (e, silenced_from) (until-le b until rest)
  ]

  covered-silenced :
      (b : Bool) (until : ℕ) (silences : List Silence) (s : Silence)
      → In s silences
      → covers now rule_id agent_id above s ≡ true
      → ((silenced_from now rule_id agent_id above b until silences).0 ≡ true)
        × (s.ends_at ≤ (silenced_from now rule_id agent_id above b until silences).1)
  unfolding silenced_from
  covered-silenced b until [] s i c = absurd i
  covered-silenced b until (x ∷ rest) s (inl e) c =
      let hit : covers now rule_id agent_id above x ≡ true = rw (← e) at c in
      rw (← e, hit, silenced_from)
        (
          from_true (if ltb until x.ends_at then x.ends_at else until) rest,
          ground (arith, until-le true (if ltb until x.ends_at then x.ends_at else until) rest),
        )
  covered-silenced b until (x ∷ rest) s (inr i) c =
      covered-silenced (if covers now rule_id agent_id above x then true else b)
        (if covers now rule_id agent_id above x
          then (if ltb until x.ends_at then x.ends_at else until)
          else until)
        rest s i c

  silenced-covered :
      (until : ℕ) (silences : List Silence)
      → (silenced_from now rule_id agent_id above false until silences).0 ≡ true
      → (s : Silence) × In s silences × (covers now rule_id agent_id above s ≡ true)
  unfolding silenced_from
  silenced-covered until [] h = cc
  silenced-covered until (x ∷ rest) h = elim (Bool-cases (covers now rule_id agent_id above x)) [
    | inl e ↦ (x, inl refl, e)
    | inr e ↦
        let (s, i, c) = silenced-covered until rest (rw (e, silenced_from) at h) in (s, inr i, c)
  ]

  until-from :
      (b : Bool) (until : ℕ) (silences : List Silence)
      → ((silenced_from now rule_id agent_id above b until silences).1 ≡ until)
        ⊎ ((s : Silence) × In s silences
            × Covers now rule_id agent_id above s
            × ((silenced_from now rule_id agent_id above b until silences).1 ≡ s.ends_at))
  unfolding silenced_from
  until-from b until [] = inl refl
  until-from b until (x ∷ rest) = elim (Bool-cases (covers now rule_id agent_id above x)) [
    | inr e ↦
        rw (e, silenced_from)
          (elim (until-from b until rest) [
            | inl same ↦ inl same
            | inr (s, i, c, is) ↦ inr (s, inr i, c, is)
          ])
    | inl e ↦ elim (Bool-cases (ltb until x.ends_at)) [
      | inl later ↦
          rw (e, later, silenced_from)
            (elim (until-from true x.ends_at rest) [
              | inl same ↦ inr (x, inl refl, covers-Covers now rule_id agent_id above x e, same)
              | inr (s, i, c, is) ↦ inr (s, inr i, c, is)
            ])
      | inr no_later ↦
          rw (e, no_later, silenced_from)
            (elim (until-from true until rest) [
              | inl same ↦ inl same
              | inr (s, i, c, is) ↦ inr (s, inr i, c, is)
            ])
    ]
  ]

  abbrev EndsBy : ℕ → Silence → Type 0
  EndsBy until s = (¬ Covers now rule_id agent_id above s) ⊎ (s.ends_at ≤ until)

  ends-le :
      (all silences : List Silence)
      → ((s : Silence) → In s silences → In s all)
      → All (EndsBy (silenced_from now rule_id agent_id above false 0 all).1) silences
  ends-le all [] sub = tt
  ends-le all (x ∷ rest) sub = (
    elim (Bool-cases (covers now rule_id agent_id above x)) [
      | inl e ↦ inr (covered-silenced false 0 all x (sub x (inl refl)) e).1
      | inr e ↦ inl (λ c. cc (sym e ∙ Covers-covers now rule_id agent_id above x c))
    ],
    ends-le all rest (λ s i. sub s (inr i)),
  )

  -- An alert is silenced exactly when some silence of the list covers it: the time lies in its window
  -- [start, end), and each field of its scope is unset or names the alert's rule, its agent, or one
  -- of its target's ancestors. The time reported is 0 or the end of one that covers the alert, and no
  -- earlier than the end of any that does.
  pub silenced-exact :
      (silences : List Silence)
      → let r = silenced now rule_id agent_id above silences in
        ((r.0 ≡ true) ↔ Covered now rule_id agent_id above silences)
        × All (λ s. (¬ Covers now rule_id agent_id above s) ⊎ (s.ends_at ≤ r.1)) silences
        × ((r.1 ≡ 0)
            ⊎ ((s : Silence) × In s silences
                × Covers now rule_id agent_id above s
                × (r.1 ≡ s.ends_at)))
  unfolding silenced
  silenced-exact silences = (
    (
      λ h.
          let (s, i, c) = silenced-covered 0 silences h in
          (s, i, covers-Covers now rule_id agent_id above s c),
      λ c.
          (covered-silenced false 0 silences c.0 c.1
            (Covers-covers now rule_id agent_id above c.0 c.2)).0,
    ),
    ends-le silences silences (λ s i. i),
    until-from false 0 silences,
  )
