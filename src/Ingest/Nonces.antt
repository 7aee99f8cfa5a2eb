-- ===== src/Ingest/Nonces.antt =====
-- The nonce cache of internal/ingest/sign.go: no request is accepted twice.
use smokeng.Common.{
  ℕ, ◌≡◌, refl, sym, ap, ◌∙◌, inl, inr, true, false, not, some, List, [], ◌∷◌, keep, Bool-cases,
}
use smokeng.Common.Int.{ℤ, leb_ℤ}
use smokeng.Common.Float.{FloatOps}
use smokeng.Common.Text.{same, same-eq}
use smokeng.Probe.Clock.{Instant, sub}
use smokeng.Ingest.Verify.{
  Verifier, admit_replay, nonce_sweep_every, seen_at, expired, sweep, swept_if_due, still_held,
  allow, remember, admit,
}

-- The nonce is held since `t`.
abbrev pub Holds : {F : Type 0} → List ℕ → Instant → Verifier F → Type 0
Holds n t v = seen_at n v.seen ≡ some t

seen_at-sweep :
    (n : List ℕ) (now t : Instant) (seen : List (List ℕ × Instant))
    → expired now t ≡ false
    → seen_at n seen ≡ some t
    → seen_at n (sweep now seen) ≡ some t
unfolding seen_at sweep keep
seen_at-sweep n now t [] fresh h = h
seen_at-sweep n now t ((m, u) ∷ seen) fresh h = elim (Bool-cases (same m n)) [
  | inl it ↦
      let is : u ≡ t = cc (rw (it, seen_at) at h) in
      let kept : expired now u ≡ false = ap (expired now) is ∙ fresh in rw (kept, it) (ap some is)
  | inr other ↦
      let rest = seen_at-sweep n now t seen fresh (rw (other, seen_at) at h) in
      elim (Bool-cases (expired now u)) [
        | inl gone ↦ rw gone rest
        | inr kept ↦ rw (kept, other) rest
      ]
]

true_ne_false : ¬ (true ≡ false)
true_ne_false h = cc

-- A nonce that is not held is another one.
other_nonce :
    (n m : List ℕ) (now t : Instant) (seen : List (List ℕ × Instant))
    → seen_at n seen ≡ some t
    → expired now t ≡ false
    → still_held now (seen_at m seen) ≡ false
    → same m n ≡ false
other_nonce n m now t seen held fresh new_ = elim (Bool-cases (same m n)) [
  | inl it ↦
      let now_held : still_held now (seen_at m seen) ≡ true =
        ap (λ (x : List ℕ). still_held now (seen_at x seen)) (same-eq m n it)
        ∙ ap (still_held now) held
        ∙ ap not fresh in
      absurd (true_ne_false (sym now_held ∙ new_))
  | inr other ↦ other
]

module _ {F : Type 0} (fl : FloatOps F) where
  swept_if_due-Holds :
      (n : List ℕ) (now t : Instant) (v : Verifier F)
      → expired now t ≡ false
      → Holds n t v
      → Holds n t (swept_if_due fl now v)
  unfolding swept_if_due
  swept_if_due-Holds n now t v fresh h =
      elim (Bool-cases (leb_ℤ nonce_sweep_every (sub now v.swept))) [
        | inl due ↦ rw due (seen_at-sweep n now t v.seen fresh h)
        | inr early ↦ rw early h
      ]

  allow-Holds :
      (n : List ℕ) (id : ℤ) (now t : Instant) (v : Verifier F)
      → Holds n t v
      → Holds n t (allow fl id now v).0
  unfolding allow
  allow-Holds n id now t v h = h

  remember-Holds :
      (n m : List ℕ) (now t : Instant) (v : Verifier F)
      → same m n ≡ false
      → Holds n t v
      → Holds n t (remember fl m now v)
  unfolding seen_at
  remember-Holds n m now t v other h = rw other h

  -- A request with the nonce that is held is a replay.
  pub admit-replay :
      (n : List ℕ) (id : ℤ) (now t : Instant) (v : Verifier F)
      → expired now t ≡ false
      → Holds n t v
      → (admit fl n id now v).1 ≡ admit_replay
  unfolding admit
  admit-replay n id now t v fresh h = rw (swept_if_due-Holds n now t v fresh h, fresh) refl

  pub admit-Holds :
      (n m : List ℕ) (id : ℤ) (now t : Instant) (v : Verifier F)
      → expired now t ≡ false
      → Holds n t v
      → Holds n t (admit fl m id now v).0
  unfolding admit
  admit-Holds n m id now t v fresh h =
      let v1 = swept_if_due fl now v in
      let held = swept_if_due-Holds n now t v fresh h in
      elim (Bool-cases (still_held now (seen_at m v1.seen))) [
        | inl again ↦ rw again held
        | inr new_ ↦ elim (Bool-cases (not (allow fl id now v1).1)) [
          | inl over ↦ rw (new_, over) (allow-Holds n id now t v1 held)
          | inr passes ↦
              rw (new_, passes)
                (remember-Holds n m now t (allow fl id now v1).0
                  (other_nonce n m now t v1.seen held fresh new_) (allow-Holds n id now t v1 held))
        ]
      ]
