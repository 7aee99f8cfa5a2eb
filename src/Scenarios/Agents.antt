-- ===== src/Scenarios/Agents.antt =====
-- The buffer of an agent, and the checks of its requests, at concrete rounds and requests.
use smokeng.Common.{
  ℕ, ◌≡◌, refl, true, none, some, Option, Bool, List, [], ◌∷◌, arith, inl, inr, ◌==◌, keep,
}
use smokeng.Common.Int.{ℤ, pos, ◌-ℤ◌, ◌*ℤ◌}
use smokeng.Common.Text.{codes}
use smokeng.Common.Result.{err}
use smokeng.Agent.Outbox.{Row}
use smokeng.Agent.Push.{Round, push_measurements}
use smokeng.Agent.Delivery.{IsAccounted, push_measurements-IsAccounted}
use smokeng.Agent.Draining.{IsDrained, push_measurements-IsDrained}
use smokeng.Probe.Clock.{Instant, sub}
use smokeng.Ingest.Canonical.{Signed}
use smokeng.Ingest.Verify.{Agent, Verifier, Rejection, check}
use smokeng.Ingest.Gate.{check-IsForged}
use smokeng.Ingest.Replay.{after_checks, check-replayed}
use smokeng.Scenarios.Fixed.{fixed}

abbrev row : ℕ → Row ℕ
row ts = record { target_id = 1; agent_id = 0; ts = ts; figures = ts }

abbrev rows : List (Row ℕ)
rows = row 60 ∷ row 120 ∷ []

abbrev refused : Round ℕ
refused = record {
  read = true;
  prepared = true;
  answer = some 503;
  arrivals = row 180 ∷ [];
  cleared = true;
}

abbrev fine : Round ℕ
fine = record { read = true; prepared = true; answer = some 200; arrivals = []; cleared = true }

push_measurements-IsAccounted_example :
    IsAccounted (row 120) (push_measurements (refused ∷ []) rows)
push_measurements-IsAccounted_example =
    push_measurements-IsAccounted (refused ∷ []) rows (row 120)
      (row 120, inr (inl refl), record { target = refl; agent = refl; time = refl })

push_measurements-IsDrained_example : IsDrained (push_measurements (fine ∷ []) rows)
push_measurements-IsDrained_example =
    push_measurements-IsDrained (fine ∷ []) rows
      (record { read = refl; prepared = refl; answer = refl; arrivals = refl; cleared = refl }, tt)
      (omega arith)

abbrev prober : Agent ℕ
prober = record { id = pos 3; name = codes "ams"; pub_key = 42; enabled = true }

abbrev enrolled : ℤ → Option (Agent ℕ)
enrolled id = some prober

-- A stand-in for a signature: the number of the key.
abbrev key_verifies : ℕ → List ℕ → ℕ → Bool
key_verifies key message signature = key == signature

abbrev no_hash : List ℕ → List ℕ
no_hash body = body

abbrev request : Signed (List ℕ) ℕ
request = record {
  method = codes "POST";
  path = codes "/api/v1/ingest";
  agent_id = pos 3;
  timestamp = pos 1000;
  nonce = codes "n1";
  signature = 42;
  body = [];
}

abbrev at : ℕ → Instant
at ns = record { wall = pos ns; mono = none }

abbrev started : Verifier ℕ
started = record { seen = []; swept = at 0; buckets = []; accepted = 0; rejected = 0 }

check-IsForged_example :
    let forged = record request { signature = 41 } in
    ((check fixed enrolled no_hash key_verifies forged (at 1000000000000) started).0 ≡ started)
    × (e : Rejection) × ((check fixed enrolled no_hash key_verifies forged
          (at 1000000000000)
          started).1
        ≡ err e)
check-IsForged_example =
    check-IsForged fixed enrolled no_hash key_verifies (record request { signature = 41 })
      (at 1000000000000) started (inr (prober, refl, refl))

check-replayed_example :
    let w =
      after_checks fixed enrolled no_hash key_verifies []
        (check fixed enrolled no_hash key_verifies request (at 1000000000000) started).0 in
    (e : Rejection) × ((check fixed enrolled no_hash key_verifies request (at 1001000000000) w).1
      ≡ err e)
unfolding check ◌-ℤ◌ sub ◌*ℤ◌ keep
check-replayed_example =
    check-replayed fixed enrolled no_hash key_verifies request request (at 1000000000000)
      (at 1001000000000) started prober [] refl refl refl refl tt
