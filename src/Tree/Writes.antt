-- ===== src/Tree/Writes.antt =====
-- What a write that passes the limits of internal/tree/limits.go may hold.
use smokeng.Common.{
  zero, suc, ◌≡◌, refl, ap, Bool-cases, ◌⊎◌, inl, inr, Bool, true, false, Option, none, some, arith,
}
use smokeng.Common.Int.{ℤ, pos, negsuc, ◌≤ℤ◌, eq_ℤ}
use smokeng.Common.Result.{ok, >>=-eq-ok}
use smokeng.Tree.Model.{Target}
use smokeng.Tree.Limits.{
  bound_value, zero_or_value, differs, differs_from, bound, zero_or, check_numbers,
}

abbrev pub Bounded : Option ℤ → ℤ → ℤ → Type 0
Bounded none lo hi = Unit
Bounded (some v) lo hi = (lo ≤ℤ v) × (v ≤ℤ hi)

-- There was a node before, and its field was the same.
abbrev pub AsBefore : Option Target → Target → (Target → Option ℤ) → Type 0
AsBefore before after field = (b : Target) × (before ≡ some b) × (field b ≡ field after)

-- The field is as it was, or in its bounds; or 0, where that turns it off.
abbrev pub Kept : Option Target → Target → (Target → Option ℤ) → ℤ → ℤ → Type 0
Kept before after field lo hi = AsBefore before after field ⊎ Bounded (field after) lo hi

abbrev pub KeptOrOff : Option Target → Target → (Target → Option ℤ) → ℤ → ℤ → Type 0
KeptOrOff before after field lo hi = (field after ≡ some (pos 0)) ⊎ Kept before after field lo hi

eq_ℤ-eq : (a b : ℤ) → eq_ℤ a b ≡ true → a ≡ b
eq_ℤ-eq (pos m) (pos n) h = let is : m ≡ n = ground (arith, h) in ap pos is
eq_ℤ-eq (pos m) (negsuc n) h = absurd (ground (arith, h))
eq_ℤ-eq (negsuc m) (pos n) h = absurd (ground (arith, h))
eq_ℤ-eq (negsuc m) (negsuc n) h = let is : m ≡ n = ground (arith, h) in ap negsuc is

differs_from-eq : (f g : Option ℤ) → differs_from f g ≡ false → f ≡ g
differs_from-eq none none h = refl
differs_from-eq none (some v) h = cc
differs_from-eq (some v) none h = cc
differs_from-eq (some v) (some w) h = elim (Bool-cases (eq_ℤ v w)) [
  | inl e ↦ ap some (eq_ℤ-eq v w e)
  | inr n ↦ cc (rw n at h)
]

differs-AsBefore :
    (before : Option Target) (after : Target) (field : Target → Option ℤ)
    → differs before after field ≡ false
    → AsBefore before after field
unfolding differs
differs-AsBefore none after field h = cc
differs-AsBefore (some b) after field h = (b, refl, differs_from-eq (field b) (field after) h)

in_bounds :
    (f : Option ℤ) (changed : Bool) (lo hi : ℤ)
    → bound_value f changed lo hi ≡ ok tt
    → (changed ≡ false) ⊎ Bounded f lo hi
in_bounds none changed lo hi h = inr tt
in_bounds (some v) false lo hi h = inl refl
in_bounds (some v) true lo hi h = inr (ground arith)

off_or_in_bounds :
    (f : Option ℤ) (changed : Bool) (lo hi : ℤ)
    → zero_or_value f changed lo hi ≡ ok tt
    → (f ≡ some (pos 0)) ⊎ ((changed ≡ false) ⊎ Bounded f lo hi)
off_or_in_bounds none changed lo hi h = inr (inr tt)
off_or_in_bounds (some v) false lo hi h = inr (inl refl)
off_or_in_bounds (some (pos zero)) true lo hi h = inl refl
off_or_in_bounds (some (pos (suc n))) true lo hi h = inr (inr (ground arith))
off_or_in_bounds (some (negsuc n)) true lo hi h = inr (inr (ground arith))

bound-Kept :
    (before : Option Target) (after : Target) (field : Target → Option ℤ) (lo hi : ℤ)
    → bound before after field lo hi ≡ ok tt
    → Kept before after field lo hi
unfolding bound
bound-Kept before after field lo hi h =
    elim (in_bounds (field after) (differs before after field) lo hi h) [
      | inl same ↦ inl (differs-AsBefore before after field same)
      | inr within ↦ inr within
    ]

zero_or-KeptOrOff :
    (before : Option Target) (after : Target) (field : Target → Option ℤ) (lo hi : ℤ)
    → zero_or before after field lo hi ≡ ok tt
    → KeptOrOff before after field lo hi
unfolding zero_or
zero_or-KeptOrOff before after field lo hi h =
    elim (off_or_in_bounds (field after) (differs before after field) lo hi h) [
      | inl off ↦ inl off
      | inr (inl same) ↦ inr (inl (differs-AsBefore before after field same))
      | inr (inr within) ↦ inr (inr within)
    ]

-- The numbers of a node that a write leaves within what smokeng will run.
pub record NumbersKept (before : Option Target) (after : Target) : Type 0 where
  pub interval_s : Kept before after (λ (t : Target). t.settings.interval_s) (pos 1) (pos 86400)
  pub pings : Kept before after (λ (t : Target). t.settings.pings_per_interval) (pos 1) (pos 1000)
  pub burst_gap : Kept before after (λ (t : Target). t.settings.burst_gap_ms) (pos 0) (pos 600000)
  pub packet : Kept before after (λ (t : Target). t.settings.packet_size) (pos 12) (pos 9000)
  pub trace :
      KeptOrOff before after (λ (t : Target). t.settings.trace_interval_s) (pos 30) (pos 604800)
  pub retention :
      KeptOrOff before after (λ (t : Target). t.settings.retention_s) (pos 3600) (pos 315360000)

-- A node that passes the bounds on numbers has each of its six bounded settings either as the node
-- had it before the write, where there was one, or unset or within its bounds, or, for the trace
-- interval and the retention, 0.
pub check_numbers-NumbersKept :
    (before : Option Target) (after : Target)
    → check_numbers before after ≡ ok tt
    → NumbersKept before after
unfolding check_numbers
check_numbers-NumbersKept before after h =
    let (u1, a, h1) =
      >>=-eq-ok (bound before after (λ (t : Target). t.settings.interval_s) (pos 1) (pos 86400)) _
        h in
    let (u2, b, h2) =
      >>=-eq-ok
        (bound before after (λ (t : Target). t.settings.pings_per_interval) (pos 1) (pos 1000)) _
        h1 in
    let (u3, c, h3) =
      >>=-eq-ok (bound before after (λ (t : Target). t.settings.burst_gap_ms) (pos 0) (pos 600000))
        _ h2 in
    let (u4, d, h4) =
      >>=-eq-ok (bound before after (λ (t : Target). t.settings.packet_size) (pos 12) (pos 9000)) _
        h3 in
    let (u5, e, f) =
      >>=-eq-ok
        (zero_or before after (λ (t : Target). t.settings.trace_interval_s) (pos 30) (pos 604800)) _
        h4 in
    record {
      interval_s = bound-Kept before after _ (pos 1) (pos 86400) a;
      pings = bound-Kept before after _ (pos 1) (pos 1000) b;
      burst_gap = bound-Kept before after _ (pos 0) (pos 600000) c;
      packet = bound-Kept before after _ (pos 12) (pos 9000) d;
      trace = zero_or-KeptOrOff before after _ (pos 30) (pos 604800) e;
      retention = zero_or-KeptOrOff before after _ (pos 3600) (pos 315360000) f;
    }
