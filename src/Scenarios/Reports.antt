-- ===== src/Scenarios/Reports.antt =====
-- A report over a window that a blackout and a gap fall into.
use smokeng.Common.{ℕ, ◌+◌, ◌*◌, ◌≡◌, List, [], ◌∷◌, arith, if◌then◌else◌, ltb}
use smokeng.Common.Int.{pos}
use smokeng.Scenarios.Fixed.{fixed}
use smokeng.Report.Model.{Point, availability}
use smokeng.Report.Accounting.{availability-seconds}

abbrev answered : ℕ → Point
answered ts = record { ts = ts; sent = 20; received = 20 }

abbrev lost : ℕ → Point
lost ts = record { ts = ts; sent = 20; received = 0 }

-- Two intervals down, a gap, and two more, the last of which answers.
abbrev points : List Point
points = answered 0 ∷ lost 60 ∷ lost 120 ∷ lost 600 ∷ answered 660 ∷ []

availability-seconds_example :
    let r = availability fixed points (pos 60) 0 720 100000 in
    (covered : ℕ) × (unknown : ℕ) × (r.covered_s ≡ pos covered)
    × (r.unknown_s ≡ pos unknown)
    × (r.window_s ≡ 720)
    × (covered + unknown ≡ 720)
    × (r.up_s ≡ pos (r.up_intervals * 60))
    × (r.down_s ≡ pos (r.down_intervals * 60))
    × (covered ≡ (
        if ltb 720 ((r.up_intervals + r.down_intervals) * 60)
        then 720
        else (r.up_intervals + r.down_intervals) * 60))
availability-seconds_example =
    availability-seconds fixed 100000 60 points 0 720 (omega arith) (omega arith) (omega arith)
      (omega arith)
