-- ===== src/Alert/Reloaded.antt =====
-- What `Reload` of internal/alert/manager.go leaves in the manager.
use smokeng.Common.{
  ℕ, ◌≡◌, refl, sym, ap, ◌∙◌, Bool, true, false, ◌&&◌, Option, none, some, List, [], ◌∷◌, arith,
  find, ==_iff, if◌then◌else◌, Bool-cases, inl, inr,
}
use smokeng.Common.Result.{Result, ok, err, >>=-eq-ok}
use smokeng.Tree.Model.{TreeError}
use smokeng.Tree.Build.{build}
use smokeng.Alert.Rule.{Rule, State}
use smokeng.Alert.Manager.{Manager, has_key, state_at, put_state}
use smokeng.Alert.States.{state_at-put_state}
use smokeng.Alert.Reload.{Stored, is_rule, keep_stored, keep_live, applicable_all, reload}

abbrev pub or_else : {A : Type 0} → Option A → Option A → Option A
or_else none o = o
or_else (some a) o = some a

and_false : (b : Bool) → (b && false) ≡ false
and_false true = refl
and_false false = refl

module _ {F : Type 0} where
  -- The last state of a key in the order of the rows.
  abbrev pub last_state : List (State F) → (rule target agent : ℕ) → Option (State F)
  last_state [] rule target agent = none
  last_state (st ∷ states) rule target agent =
      or_else (last_state states rule target agent)
        (if has_key rule target agent st then some st else none)

  -- A state of a key has the key's rule.
  key-rule :
      (rules : List (Rule F)) (rule target agent : ℕ) (st : State F)
      → has_key rule target agent st ≡ true
      → is_rule rules st.rule_id ≡ is_rule rules rule
  unfolding has_key
  key-rule rules rule target agent st h =
      let is : st.rule_id ≡ rule = (==_iff st.rule_id rule).0 (ground arith) in
      ap (is_rule rules) is

  -- One state that is kept if its rule exists.
  one_kept :
      (rules : List (Rule F)) (st : State F) (kept : List (State F)) (rule target agent : ℕ)
      → state_at (if is_rule rules st.rule_id then put_state st kept else kept) rule target agent
        ≡ (if is_rule rules rule && has_key rule target agent st
            then some st
            else state_at kept rule target agent)
  one_kept rules st kept rule target agent = elim (Bool-cases (has_key rule target agent st)) [
    | inl its ↦
        let same_rule = key-rule rules rule target agent st its in
        let put = state_at-put_state st kept rule target agent in
        elim (Bool-cases (is_rule rules rule)) [
          | inl there ↦ rw (same_rule, there, its) (put ∙ rw its refl)
          | inr gone ↦ rw (same_rule, gone) refl
        ]
    | inr other ↦
        let put = state_at-put_state st kept rule target agent in
        elim (Bool-cases (is_rule rules st.rule_id)) [
          | inl there ↦ rw (there, other, and_false (is_rule rules rule)) (put ∙ rw other refl)
          | inr gone ↦ rw (gone, other, and_false (is_rule rules rule)) refl
        ]
  ]

  or_else-if :
      (last old : Option (State F)) (st : State F) (its : Bool)
      → or_else last (if its then some st else old)
        ≡ or_else (or_else last (if its then some st else none)) old
  or_else-if none old st true = refl
  or_else-if none old st false = refl
  or_else-if (some a) old st its = refl

  -- The stored states: the last of a key, if its rule exists.
  keep_stored-state_at :
      (rules : List (Rule F)) (states kept : List (State F)) (rule target agent : ℕ)
      → state_at (keep_stored rules states kept) rule target agent
        ≡ or_else
            (if is_rule rules rule then last_state states rule target agent else none)
            (state_at kept rule target agent)
  unfolding keep_stored
  keep_stored-state_at rules [] kept rule target agent = elim (Bool-cases (is_rule rules rule)) [
    | inl there ↦ rw there refl
    | inr gone ↦ rw gone refl
  ]
  keep_stored-state_at rules (st ∷ states) kept rule target agent =
      let kept' = if is_rule rules st.rule_id then put_state st kept else kept in
      let one = one_kept rules st kept rule target agent in
      let rest = keep_stored-state_at rules states kept' rule target agent in
      elim (Bool-cases (is_rule rules rule)) [
        | inl there ↦
            rest
            ∙ rw (there, one, there)
                (or_else-if (last_state states rule target agent) (state_at kept rule target agent)
                  st (has_key rule target agent st))
        | inr gone ↦ rest ∙ rw (gone, one, gone) refl
      ]

  if-or_else :
      (last old : Option (State F)) (st : State F) (its : Bool)
      → (if its then some st else or_else last old) ≡ or_else (if its then some st else last) old
  if-or_else last old st true = refl
  if-or_else last old st false = refl

  no_live : (rule target agent : ℕ) → state_at {F = F} [] rule target agent ≡ none
  unfolding state_at find
  no_live rule target agent = refl

  first_live :
      (st : State F) (live : List (State F)) (rule target agent : ℕ)
      → state_at (st ∷ live) rule target agent
        ≡ (if has_key rule target agent st then some st else state_at live rule target agent)
  unfolding state_at find
  first_live st live rule target agent = refl

  -- The states in memory, over those.
  keep_live-state_at :
      (rules : List (Rule F)) (live kept : List (State F)) (rule target agent : ℕ)
      → state_at (keep_live rules live kept) rule target agent
        ≡ or_else
            (if is_rule rules rule then state_at live rule target agent else none)
            (state_at kept rule target agent)
  unfolding keep_live
  keep_live-state_at rules [] kept rule target agent = elim (Bool-cases (is_rule rules rule)) [
    | inl there ↦ rw (there, no_live rule target agent) refl
    | inr gone ↦ rw gone refl
  ]
  keep_live-state_at rules (st ∷ live) kept rule target agent =
      let one = one_kept rules st (keep_live rules live kept) rule target agent in
      let rest = keep_live-state_at rules live kept rule target agent in
      elim (Bool-cases (is_rule rules rule)) [
        | inl there ↦
            one
            ∙ rw (there, rest, there, first_live st live rule target agent)
                (if-or_else (state_at live rule target agent) (state_at kept rule target agent) st
                  (has_key rule target agent st))
        | inr gone ↦ one ∙ rw (gone, rest, gone) refl
      ]

  abbrev states_of : {H : Type 0} → Result TreeError (Manager F H) → List (State F)
  states_of (ok m) = m.states
  states_of (err e) = []

  or_else-none :
      (there : Bool) (live stored : Option (State F))
      → or_else (if there then live else none) (or_else (if there then stored else none) none)
        ≡ (if there then or_else live stored else none)
  or_else-none false live stored = refl
  or_else-none true none none = refl
  or_else-none true none (some st) = refl
  or_else-none true (some st) stored = refl

  -- A reload loses no progress of a rule and leaves no state of a rule that is gone. For every key of a
  -- rule that exists, the state is the one in memory, and where there is none the last one that was
  -- stored; for a rule that does not exist there is none.
  pub reload-state_at :
      {H : Type 0} (forget : (ℕ → Bool) → H → H) (s : Stored F) (m m' : Manager F H)
      (rule target agent : ℕ)
      → reload forget s m ≡ ok m'
      → state_at m'.states rule target agent ≡ (
          if is_rule s.rules rule
          then or_else (state_at m.states rule target agent) (last_state s.states rule target agent)
          else none)
  unfolding reload
  reload-state_at forget s m m' rule target agent h =
      let (t, built, after) = >>=-eq-ok (build s.targets) _ h in
      let (apps, all_apps, is) = >>=-eq-ok (applicable_all s.rules t s.targets) _ after in
      let stored = keep_stored s.rules s.states [] in
      let states = sym (ap states_of is) in
      ap (λ (x : List (State F)). state_at x rule target agent) states
      ∙ keep_live-state_at s.rules m.states stored rule target agent
      ∙ ap (or_else (if is_rule s.rules rule then state_at m.states rule target agent else none)) (
          keep_stored-state_at s.rules s.states [] rule target agent
          ∙ ap
              (or_else
                (if is_rule s.rules rule then last_state s.states rule target agent else none))
              (no_live rule target agent))
      ∙ or_else-none (is_rule s.rules rule) (state_at m.states rule target agent)
          (last_state s.states rule target agent)
