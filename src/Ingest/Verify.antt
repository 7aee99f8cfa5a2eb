-- ===== src/Ingest/Verify.antt =====
-- `Verifier.Check` of internal/ingest/sign.go with the nonce cache and the rate limiters. What the
-- store knows of an agent, the hash and the check of a signature are parameters; a check holds the
-- locks of what it reads and writes, so a run is a sequence of checks.
use smokeng.Common.{
  ℕ, ◌+◌, Bool, true, false, not, ◌||◌, Option, none, some, List, [], ◌∷◌, if◌then◌else◌, keep,
}
use smokeng.Common.Int.{ℤ, pos, negsuc, ltb_ℤ, leb_ℤ, eq_ℤ, ◌*ℤ◌}
use smokeng.Common.Float.{FloatOps}
use smokeng.Common.Text.{same}
use smokeng.Common.Result.{Result, ok, err}
use smokeng.Probe.Clock.{Instant, sub, quot}
use smokeng.Probe.Schedule.{rem}
use smokeng.Ingest.Canonical.{Signed, canonical_string}

abbrev pub max_skew : ℤ
max_skew = pos 300000000000

abbrev pub min_skew : ℤ
min_skew = negsuc 299999999999

abbrev pub nonce_ttl : ℤ
nonce_ttl = pos 600000000000

abbrev pub nonce_sweep_every : ℤ
nonce_sweep_every = pos 60000000000

pub record Agent (Key : Type 0) : Type 0 where
  pub id : ℤ
  pub name : List ℕ
  pub pub_key : Key
  pub enabled : Bool

pub data Rejection : Type 0 where
  unknown disabled skewed bad_signature replayed limited : Rejection

pub record Bucket (F : Type 0) : Type 0 where
  pub tokens : F
  pub last : Instant

-- The state behind the locks: `nonces`, `limits` and the two counters.
pub record Verifier (F : Type 0) : Type 0 where
  pub seen : List (List ℕ × Instant)
  pub swept : Instant
  pub buckets : List (ℤ × Bucket F)
  pub accepted : ℕ
  pub rejected : ℕ

-- An entry of the map of nonces.
unfoldable pub seen_at : List ℕ → List (List ℕ × Instant) → Option Instant
seen_at n [] = none
seen_at n ((m, t) ∷ seen) = if same m n then some t else seen_at n seen

-- Whether a nonce that was seen at `at` is held no longer.
unfoldable pub expired : Instant → Instant → Bool
expired now at = ltb_ℤ nonce_ttl (sub now at)

-- The loop that deletes the nonces that have expired.
unfoldable pub sweep : Instant → List (List ℕ × Instant) → List (List ℕ × Instant)
unfolding expired
sweep now seen = keep (λ (e : List ℕ × Instant). not (expired now e.1)) seen

pub data Admission : Type 0 where
  admit_ok admit_replay admit_limited : Admission

abbrev pub is_some : {A : Type 0} → Option A → Bool
is_some none = false
is_some (some _) = true

-- `at, ok := c.seen[nonce]; ok && now.Sub(at) <= NonceTTL`
abbrev pub still_held : Instant → Option Instant → Bool
still_held now none = false
still_held now (some at) = not (expired now at)

abbrev pub judged : {Key : Type 0} → Agent Key → Admission → Result Rejection (Agent Key)
judged a admit_ok = ok a
judged a admit_replay = err replayed
judged a admit_limited = err limited

-- skew := now.Sub(time.Unix(s.Timestamp, 0))
unfoldable pub skew_of : {Body Signature : Type 0} → Signed Body Signature → Instant → ℤ
skew_of s now = sub now (record { wall = s.timestamp *ℤ pos 1000000000; mono = none })

module _ {F : Type 0} (fl : FloatOps F) where
  abbrev pub burst_size : F
  burst_size = fl.of_int (pos 30)

  -- d.Seconds()
  unfoldable pub seconds : ℤ → F
  seconds d =
      fl.add (fl.of_int (quot d 1000000000))
        (fl.div (fl.of_int (rem d 1000000000)) (fl.of_int (pos 1000000000)))

  abbrev pub refill_rate : F
  refill_rate = fl.div (fl.of_int (pos 30)) (fl.of_int (pos 60))

  -- min(a, b)
  abbrev pub min_float : F → F → F
  min_float a b = if fl.lt b a || fl.is_nan b then b else a

  unfoldable pub refilled : Bucket F → Instant → F
  unfolding seconds
  refilled b now =
      min_float burst_size (fl.add b.tokens (fl.mul (seconds (sub now b.last)) refill_rate))

  -- The bucket after a request, and whether the request may pass.
  unfoldable pub spend : Instant → Option (Bucket F) → Bucket F × Bool
  unfolding refilled
  spend now none = (record { tokens = fl.sub burst_size (fl.of_int (pos 1)); last = now }, true)
  spend now (some b) =
      let tokens = refilled b now in
      if fl.lt tokens (fl.of_int (pos 1))
      then (record { tokens = tokens; last = now }, false)
      else (record { tokens = fl.sub tokens (fl.of_int (pos 1)); last = now }, true)

  unfoldable pub bucket_at : ℤ → List (ℤ × Bucket F) → Option (Bucket F)
  bucket_at id [] = none
  bucket_at id ((j, b) ∷ rest) = if eq_ℤ j id then some b else bucket_at id rest

  unfoldable pub put_bucket : ℤ → Bucket F → List (ℤ × Bucket F) → List (ℤ × Bucket F)
  put_bucket id b [] = (id, b) ∷ []
  put_bucket id b ((j, c) ∷ rest) =
      let rest' = put_bucket id b rest in if eq_ℤ j id then (id, b) ∷ rest else (j, c) ∷ rest'

  -- rateLimiters.allow
  unfoldable pub allow : ℤ → Instant → Verifier F → Verifier F × Bool
  unfolding spend bucket_at put_bucket
  allow id now v =
      let (b, passes) = spend now (bucket_at id v.buckets) in
      (record v { buckets = put_bucket id b v.buckets }, passes)

  unfoldable pub swept_if_due : Instant → Verifier F → Verifier F
  unfolding sweep
  swept_if_due now v =
      if leb_ℤ nonce_sweep_every (sub now v.swept)
      then record v { seen = sweep now v.seen; swept = now }
      else v

  -- c.seen[nonce] = now, which hides an older entry of the nonce.
  abbrev pub remember : List ℕ → Instant → Verifier F → Verifier F
  remember nonce now v = record v { seen = (nonce, now) ∷ v.seen }

  -- nonceCache.admit, with the call of `allow` that it is given.
  unfoldable pub admit : List ℕ → ℤ → Instant → Verifier F → Verifier F × Admission
  unfolding seen_at allow swept_if_due
  admit nonce id now v =
      let v1 = swept_if_due now v in
      if still_held now (seen_at nonce v1.seen)
      then (v1, admit_replay)
      else let (v2, passes) = allow id now v1 in
        if not passes then (v2, admit_limited) else (remember nonce now v2, admit_ok)

  module _ {Key Body Signature : Type 0} (lookup : ℤ → Option (Agent Key)) (hash : Body → List ℕ)
      (verify : Key → List ℕ → Signature → Bool) where
    -- The rest of `check` for an agent that is known.
    unfoldable pub check_agent :
        Signed Body Signature
        → Instant
        → Verifier F
        → Agent Key
        → Verifier F × Result Rejection (Agent Key)
    unfolding skew_of admit canonical_string
    check_agent s now v a =
        if not a.enabled
        then (v, err disabled)
        else if ltb_ℤ (skew_of s now) min_skew || ltb_ℤ max_skew (skew_of s now)
        then (v, err skewed)
        else if not (verify a.pub_key (canonical_string hash s) s.signature)
        then (v, err bad_signature)
        else let (v', admission) = admit s.nonce s.agent_id now v in (v', judged a admission)

    unfoldable pub check :
        Signed Body Signature → Instant → Verifier F → Verifier F × Result Rejection (Agent Key)
    unfolding check_agent
    check s now v = elim (lookup s.agent_id) [
      | none ↦ (v, err unknown)
      | some a ↦ check_agent s now v a
    ]

    abbrev pub counted : Verifier F × Result Rejection (Agent Key) → Verifier F
    counted (v, ok a) = record v { accepted = v.accepted + 1 }
    counted (v, err e) = record v { rejected = v.rejected + 1 }

    -- Check
    unfoldable pub check_counted :
        Signed Body Signature → Instant → Verifier F → Verifier F × Result Rejection (Agent Key)
    unfolding check
    check_counted s now v = let r = check s now v in (counted r, r.1)
