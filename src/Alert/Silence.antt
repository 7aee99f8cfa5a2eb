-- ===== src/Alert/Silence.antt =====
-- internal/alert/silence.go, and `silencedLocked` of manager.go. `ancestors` is the manager's map
-- from a target to its ancestors, itself included; a target that it does not hold has none.
use smokeng.Common.{
  ℕ, Bool, true, false, ◌&&◌, Option, none, some, List, [], ◌∷◌, if◌then◌else◌, ◌==◌, ltb, leb, any,
}
use smokeng.Common.Result.{Result, fail_if}

pub record Silence : Type 0 where
  pub id : ℕ
  pub target_id : Option ℕ
  pub agent_id : Option ℕ
  pub rule_id : Option ℕ
  pub starts_at : ℕ
  pub ends_at : ℕ
  pub reason : List ℕ
  pub created_by : List ℕ
  pub created_at : ℕ

pub data SilenceError : Type 0 where
  ends_before_start : SilenceError

-- activeAt
unfoldable pub active_at : Silence → ℕ → Bool
active_at s t = leb s.starts_at t && ltb t s.ends_at

-- Validate
unfoldable pub validate : Silence → Result SilenceError (Unit {0})
validate s = fail_if (leb s.ends_at s.starts_at) ends_before_start

-- A scope field that is unset, or names the id.
abbrev pub names : Option ℕ → ℕ → Bool
names none id = true
names (some x) id = x == id

abbrev pub covers_target : Option ℕ → List ℕ → Bool
covers_target none above = true
covers_target (some x) above = any (λ a. a == x) above

-- The body of the loop: the silence covers an alert of this rule, agent and target at `now`.
unfoldable pub covers : (now rule_id agent_id : ℕ) → (above : List ℕ) → Silence → Bool
unfolding active_at
covers now rule_id agent_id above s =
    active_at s now
    && names s.rule_id rule_id
    && names s.agent_id agent_id
    && covers_target s.target_id above

-- silencedLocked, `silenced` and `until` being its loop's variables.
unfoldable pub silenced_from :
    (now rule_id agent_id : ℕ) → (above : List ℕ) → Bool → ℕ → List Silence → Bool × ℕ
silenced_from now rule_id agent_id above silenced until [] = (silenced, until)
silenced_from now rule_id agent_id above silenced until (s ∷ rest) =
    let hit = covers now rule_id agent_id above s in
    silenced_from now rule_id agent_id above (if hit then true else silenced)
      (if hit then (if ltb until s.ends_at then s.ends_at else until) else until) rest

unfoldable pub silenced : (now rule_id agent_id : ℕ) → (above : List ℕ) → List Silence → Bool × ℕ
unfolding silenced_from
silenced now rule_id agent_id above silences =
    silenced_from now rule_id agent_id above false 0 silences
