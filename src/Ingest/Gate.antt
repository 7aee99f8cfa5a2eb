-- ===== src/Ingest/Gate.antt =====
-- What passes `Verifier.check` of internal/ingest/sign.go, and what a request that does not pass
-- leaves as it was.
use smokeng.Common.{
  ℕ, ◌≡◌, refl, sym, ap, ◌∙◌, ◌⊎◌, inl, inr, Bool, true, false, not, ◌||◌, Option, none, some, List,
  Bool-cases, Option-cases,
}
use smokeng.Common.Int.{ℤ, ltb_ℤ}
use smokeng.Common.Float.{FloatOps}
use smokeng.Common.Text.{same_refl}
use smokeng.Common.Result.{ok, err, err-ne-ok}
use smokeng.Probe.Clock.{Instant}
use smokeng.Ingest.Canonical.{Signed, canonical_string}
use smokeng.Ingest.Verify.{
  Agent, Rejection, bad_signature, unknown, disabled, skewed, Verifier, Admission, admit_ok,
  admit_replay, admit_limited, max_skew, min_skew, seen_at, swept_if_due, still_held, allow, admit,
  skew_of, check_agent, check, judged,
}
use smokeng.Ingest.Nonces.{Holds}

replay-ne-ok : ¬ (admit_replay ≡ admit_ok)
replay-ne-ok h = cc

limited-ne-ok : ¬ (admit_limited ≡ admit_ok)
limited-ne-ok h = cc

judged-ok :
    {Key : Type 0} (a b : Agent Key) (adm : Admission)
    → judged a adm ≡ ok b
    → (adm ≡ admit_ok) × (a ≡ b)
judged-ok a b admit_ok h = (refl, cc h)
judged-ok a b admit_replay h = absurd (err-ne-ok h)
judged-ok a b admit_limited h = absurd (err-ne-ok h)

not-not : (b : Bool) → not b ≡ false → b ≡ true
not-not true h = refl
not-not false h = cc

or_false : (a b : Bool) → (a || b) ≡ false → (a ≡ false) × (b ≡ false)
or_false true b h = (cc, cc)
or_false false b h = (refl, h)

true_ne_false : ¬ (true ≡ false)
true_ne_false h = cc

module _ {F : Type 0} (fl : FloatOps F) where
  -- An admitted request has its nonce held.
  admit-ok :
      (n : List ℕ) (id : ℤ) (now : Instant) (v : Verifier F)
      → (admit fl n id now v).1 ≡ admit_ok
      → Holds n now (admit fl n id now v).0
  unfolding admit seen_at
  admit-ok n id now v h =
      let v1 = swept_if_due fl now v in
      elim (Bool-cases (still_held now (seen_at n v1.seen))) [
        | inl again ↦ absurd (replay-ne-ok (rw (again, admit) at h))
        | inr new_ ↦ elim (Bool-cases (not (allow fl id now v1).1)) [
          | inl over ↦ absurd (limited-ne-ok (rw (new_, over, admit) at h))
          | inr passes ↦ rw (new_, passes, same_refl n) refl
        ]
      ]

module _ {F Key Body Signature : Type 0} (fl : FloatOps F) (lookup : ℤ → Option (Agent Key))
    (hash : Body → List ℕ) (verify : Key → List ℕ → Signature → Bool) where
  -- The tests that a request has passed, with the agent that it is from; its nonce is held after it.
  pub record IsProven (s : Signed Body Signature) (now : Instant) (v : Verifier F) (a : Agent Key)
      : Type 0 where
    pub known : lookup s.agent_id ≡ some a
    pub enabled : a.enabled ≡ true
    pub early : ltb_ℤ (skew_of s now) min_skew ≡ false
    pub late : ltb_ℤ max_skew (skew_of s now) ≡ false
    pub signed : verify a.pub_key (canonical_string hash s) s.signature ≡ true
    pub held : Holds s.nonce now (check fl lookup hash verify s now v).0

  abbrev skewed_out : Signed Body Signature → Instant → Bool
  skewed_out s now = ltb_ℤ (skew_of s now) min_skew || ltb_ℤ max_skew (skew_of s now)

  abbrev unsigned : Signed Body Signature → Agent Key → Bool
  unsigned s a = not (verify a.pub_key (canonical_string hash s) s.signature)

  -- A test fails before the state is touched, or all pass.
  pub check_agent_cases :
      (s : Signed Body Signature) (now : Instant) (v : Verifier F) (a : Agent Key)
      → ((e : Rejection) × (check_agent fl lookup hash verify s now v a ≡ (v, err e)))
        ⊎ ((not a.enabled ≡ false)
            × (skewed_out s now ≡ false)
            × (unsigned s a ≡ false)
            × (check_agent fl lookup hash verify s now v a ≡ (
              (admit fl s.nonce s.agent_id now v).0,
              judged a (admit fl s.nonce s.agent_id now v).1,
            )))
  unfolding check_agent
  check_agent_cases s now v a = elim (Bool-cases (not a.enabled)) [
    | inl off ↦ inl (disabled, rw off refl)
    | inr on ↦ elim (Bool-cases (skewed_out s now)) [
      | inl away ↦ inl (skewed, rw (on, away) refl)
      | inr near ↦ elim (Bool-cases (unsigned s a)) [
        | inl forged ↦ inl (bad_signature, rw (on, near, forged) refl)
        | inr signed ↦ inr (on, near, signed, rw (on, near, signed) refl)
      ]
    ]
  ]

  pub check-known :
      (s : Signed Body Signature) (now : Instant) (v : Verifier F) (a : Agent Key)
      → lookup s.agent_id ≡ some a
      → check fl lookup hash verify s now v ≡ check_agent fl lookup hash verify s now v a
  unfolding check
  check-known s now v a e = rw (e, check) refl

  pub check-unknown :
      (s : Signed Body Signature) (now : Instant) (v : Verifier F)
      → lookup s.agent_id ≡ none
      → check fl lookup hash verify s now v ≡ (v, err unknown)
  unfolding check
  check-unknown s now v e = rw (e, check) refl

  check_agent-IsProven :
      (s : Signed Body Signature) (now : Instant) (v : Verifier F) (a b : Agent Key)
      → lookup s.agent_id ≡ some a
      → (check_agent fl lookup hash verify s now v a).1 ≡ ok b
      → IsProven s now v b
  check_agent-IsProven s now v a b e h = elim (check_agent_cases s now v a) [
    | inl (r, stops) ↦ absurd (err-ne-ok (sym (ap (λ x. x.1) stops) ∙ h))
    | inr (on, near, signed, goes) ↦
        let (admitted, is) = judged-ok a b _ (sym (ap (λ x. x.1) goes) ∙ h) in
        let state = ap (λ x. x.0) (check-known s now v a e ∙ goes) in
        record {
          known = e ∙ ap some is;
          enabled = sym (ap (λ (x : Agent Key). x.enabled) is) ∙ not-not a.enabled on;
          early = (or_false _ _ near).0;
          late = (or_false _ _ near).1;
          signed =
              ap (λ (x : Agent Key). verify x.pub_key (canonical_string hash s) s.signature)
                (sym is)
              ∙ not-not _ signed;
          held =
              ap (λ (x : Verifier F). seen_at s.nonce x.seen) state
              ∙ admit-ok fl s.nonce s.agent_id now v admitted;
        }
  ]

  -- A request is accepted only from an agent that the store knows and that is enabled, with a
  -- timestamp at most five minutes away and a signature that verifies under this agent's key over the
  -- canonical string of the request; its nonce is held from then on.
  pub check-IsProven :
      (s : Signed Body Signature) (now : Instant) (v : Verifier F) (a : Agent Key)
      → (check fl lookup hash verify s now v).1 ≡ ok a
      → IsProven s now v a
  check-IsProven s now v a h = elim (Option-cases (lookup s.agent_id)) [
    | inl e ↦ absurd (err-ne-ok (sym (ap (λ x. x.1) (check-unknown s now v e)) ∙ h))
    | inr (b, e) ↦
        check_agent-IsProven s now v b a e (sym (ap (λ x. x.1) (check-known s now v b e)) ∙ h)
  ]

  -- No agent that the store knows under the id of the request has signed it.
  abbrev pub IsForged : Signed Body Signature → Type 0
  IsForged s =
      (lookup s.agent_id ≡ none)
      ⊎ (a : Agent Key) × (lookup s.agent_id ≡ some a)
        × (verify a.pub_key (canonical_string hash s) s.signature ≡ false)

  -- A request that its agent has not signed is rejected, and spends neither a nonce nor any of the
  -- agent's rate: the state of the verifier stays as it was.
  pub check-IsForged :
      (s : Signed Body Signature) (now : Instant) (v : Verifier F)
      → IsForged s
      → ((check fl lookup hash verify s now v).0 ≡ v)
        × (e : Rejection) × ((check fl lookup hash verify s now v).1 ≡ err e)
  check-IsForged s now v (inl e) =
      let is = check-unknown s now v e in (ap (λ x. x.0) is, unknown, ap (λ x. x.1) is)
  check-IsForged s now v (inr (a, e, forged)) = elim (check_agent_cases s now v a) [
    | inl (r, stops) ↦
        let is = check-known s now v a e ∙ stops in (ap (λ x. x.0) is, r, ap (λ x. x.1) is)
    | inr (on, near, signed, goes) ↦ absurd (true_ne_false (sym (ap not forged) ∙ signed))
  ]
