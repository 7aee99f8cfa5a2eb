-- ===== src/Ingest/Replay.antt =====
-- A captured request cannot be used again: the nonce cache and the window for timestamps of
-- internal/ingest/sign.go together.
use smokeng.Common.{
  ℕ, ◌≡◌, refl, sym, ap, ◌∙◌, inl, inr, Bool, false, Option, none, some, List, [], ◌∷◌, arith, All,
  Option-cases,
}
use mathlib.Core.Path.{subst}
use smokeng.Common.Int.{ℤ, pos, ltb_ℤ, ◌*ℤ◌, ◌-ℤ◌, ◌≤ℤ◌, -ℤ_parts}
use smokeng.Common.Float.{FloatOps}
use smokeng.Common.Result.{ok, err, Result-cases}
use smokeng.Probe.Clock.{Instant, sub, since, saturate, apart}
use smokeng.Ingest.Canonical.{Signed}
use smokeng.Ingest.Verify.{
  Agent, Rejection, Verifier, max_skew, min_skew, nonce_ttl, expired, skew_of, check, judged,
  replayed,
}
use smokeng.Ingest.Nonces.{Holds, admit-replay, admit-Holds}
use smokeng.Ingest.Gate.{IsProven, check-IsProven, check_agent_cases, check-known, check-unknown}

saturate_bounds :
    (d : ℤ)
    → ltb_ℤ (saturate d) min_skew ≡ false
    → ltb_ℤ max_skew (saturate d) ≡ false
    → (ltb_ℤ d min_skew ≡ false) × (ltb_ℤ max_skew d ≡ false)
unfolding saturate
saturate_bounds d early late = (ground arith, ground arith)

apart_wall : (m : Option ℤ) (wall : ℤ) → saturate (apart m none wall) ≡ saturate wall
unfolding apart
apart_wall none wall = refl
apart_wall (some a) wall = refl

skew_exact :
    {Body Signature : Type 0} (s : Signed Body Signature) (t : Instant)
    → skew_of s t ≡ saturate (t.wall -ℤ s.timestamp *ℤ pos 1000000000)
unfolding skew_of sub since apart
skew_exact s t = apart_wall t.mono (t.wall -ℤ s.timestamp *ℤ pos 1000000000)

-- Two instants that are both near a third are near one another.
near_again :
    (a b w : ℤ)
    → ltb_ℤ (a -ℤ w) min_skew ≡ false
    → ltb_ℤ max_skew (b -ℤ w) ≡ false
    → ltb_ℤ nonce_ttl (b -ℤ a) ≡ false
near_again a b w early late = ground (arith, -ℤ_parts a w, -ℤ_parts b w, -ℤ_parts b a)

saturate_ttl : (d : ℤ) → ltb_ℤ nonce_ttl d ≡ false → ltb_ℤ nonce_ttl (saturate d) ≡ false
unfolding saturate
saturate_ttl d h = ground arith

-- The instant that a time is compared with does not decide: less than a fresh time is fresh.
expired-le : (a b t : Instant) → sub a t ≤ℤ sub b t → expired b t ≡ false → expired a t ≡ false
unfolding expired
expired-le a b t h fresh = ground arith

module _ {F Key Body Signature : Type 0} (fl : FloatOps F) (lookup : ℤ → Option (Agent Key))
    (hash : Body → List ℕ) (verify : Key → List ℕ → Signature → Bool) where
  -- The state after some checks, one after the other.
  unfoldable pub after_checks : List (Signed Body Signature × Instant) → Verifier F → Verifier F
  unfolding check
  after_checks [] v = v
  after_checks ((s, now) ∷ checks) v = after_checks checks (check fl lookup hash verify s now v).0

  check-Holds :
      (n : List ℕ) (t : Instant) (s : Signed Body Signature) (now : Instant) (v : Verifier F)
      → expired now t ≡ false
      → Holds n t v
      → Holds n t (check fl lookup hash verify s now v).0
  check-Holds n t s now v fresh h = elim (Option-cases (lookup s.agent_id)) [
    | inl e ↦
        subst (Holds n t) (sym (ap (λ x. x.0) (check-unknown fl lookup hash verify s now v e))) h
    | inr (a, e) ↦
        let known = check-known fl lookup hash verify s now v a e in
        elim (check_agent_cases fl lookup hash verify s now v a) [
          | inl (r, stops) ↦ subst (Holds n t) (sym (ap (λ x. x.0) (known ∙ stops))) h
          | inr (on, near, signed, goes) ↦
              subst (Holds n t) (sym (ap (λ x. x.0) (known ∙ goes)))
                (admit-Holds fl n s.nonce s.agent_id now t v fresh h)
        ]
  ]

  after_checks-Holds :
      (n : List ℕ) (t last : Instant) (checks : List (Signed Body Signature × Instant))
      (v : Verifier F)
      → expired last t ≡ false
      → All (λ (e : Signed Body Signature × Instant). sub e.1 t ≤ℤ sub last t) checks
      → Holds n t v
      → Holds n t (after_checks checks v)
  unfolding after_checks
  after_checks-Holds n t last [] v fresh times h = h
  after_checks-Holds n t last ((s, now) ∷ checks) v fresh times h =
      after_checks-Holds n t last checks (check fl lookup hash verify s now v).0 fresh times.1
        (check-Holds n t s now v (expired-le now last t times.0 fresh) h)

  -- With the nonce held, the request fails one test or another.
  check-held :
      (t : Instant) (s : Signed Body Signature) (now : Instant) (v : Verifier F)
      → expired now t ≡ false
      → Holds s.nonce t v
      → (e : Rejection) × ((check fl lookup hash verify s now v).1 ≡ err e)
  check-held t s now v fresh h = elim (Option-cases (lookup s.agent_id)) [
    | inl e ↦ (_, ap (λ x. x.1) (check-unknown fl lookup hash verify s now v e))
    | inr (a, e) ↦
        let known = check-known fl lookup hash verify s now v a e in
        elim (check_agent_cases fl lookup hash verify s now v a) [
          | inl (r, stops) ↦ (r, ap (λ x. x.1) (known ∙ stops))
          | inr (on, near, signed, goes) ↦ (
            replayed,
            ap (λ x. x.1) (known ∙ goes)
                ∙ ap (judged a) (admit-replay fl s.nonce s.agent_id now t v fresh h),
          )
        ]
  ]

  same_window :
      (s r : Signed Body Signature) (t last : Instant) (v w : Verifier F) (a b : Agent Key)
      → IsProven fl lookup hash verify s t v a
      → IsProven fl lookup hash verify r last w b
      → r.timestamp ≡ s.timestamp
      → since last t ≡ last.wall -ℤ t.wall
      → expired last t ≡ false
  unfolding expired sub
  same_window s r t last v w a b p q stamp steady =
      let stamp_wall = s.timestamp *ℤ pos 1000000000 in
      let first =
        saturate_bounds (t.wall -ℤ stamp_wall) (rw (skew_exact s t) at p.early)
          (rw (skew_exact s t) at p.late) in
      let moved : skew_of r last ≡ saturate (last.wall -ℤ stamp_wall) =
        skew_exact r last ∙ ap (λ (x : ℤ). saturate (last.wall -ℤ x *ℤ pos 1000000000)) stamp in
      let second =
        saturate_bounds (last.wall -ℤ stamp_wall) (rw moved at q.early) (rw moved at q.late) in
      rw steady (
        saturate_ttl (last.wall -ℤ t.wall)
          (near_again t.wall last.wall stamp_wall first.0 second.1))

  -- A captured request is never accepted again. Once a request was accepted at `t`, then after any
  -- run of other checks, a request with its nonce and its timestamp that comes at `last` is rejected;
  -- provided that none of the checks between comes later than `last`, and that the clock is not set
  -- between `t` and `last`.
  pub check-replayed :
      (s r : Signed Body Signature) (t last : Instant) (v : Verifier F) (a : Agent Key)
      (checks : List (Signed Body Signature × Instant))
      → (check fl lookup hash verify s t v).1 ≡ ok a
      → r.nonce ≡ s.nonce
      → r.timestamp ≡ s.timestamp
      → since last t ≡ last.wall -ℤ t.wall
      → All (λ (e : Signed Body Signature × Instant). sub e.1 t ≤ℤ sub last t) checks
      → let w = after_checks checks (check fl lookup hash verify s t v).0 in
        (e : Rejection) × ((check fl lookup hash verify r last w).1 ≡ err e)
  check-replayed s r t last v a checks accepted nonce stamp steady times =
      let w = after_checks checks (check fl lookup hash verify s t v).0 in
      let p = check-IsProven fl lookup hash verify s t v a accepted in
      elim (Result-cases (check fl lookup hash verify r last w).1) [
        | inr (e, is) ↦ (e, is)
        | inl (b, is) ↦
            let q = check-IsProven fl lookup hash verify r last w b is in
            let fresh = same_window s r t last v w a b p q stamp steady in
            let held : Holds r.nonce t w =
              subst (λ n. Holds n t w) (sym nonce)
                (after_checks-Holds s.nonce t last checks _ fresh times p.held) in
            check-held t r last w fresh held
      ]
