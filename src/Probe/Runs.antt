-- ===== src/Probe/Runs.antt =====
-- Runs of a collector: the calls of its methods in the order in which they take its lock.
use smokeng.Common.{
  ℕ, zero, suc, ◌≡◌, refl, Bool, Option, none, some, List, [], ◌∷◌, modify?, Option-cases, inl, inr,
}
use mathlib.Core.Path.{subst}
use smokeng.Common.Int.{ℤ}
use smokeng.Probe.Clock.{Instant}
use smokeng.Probe.Schedule.{TargetSpec}
use smokeng.Probe.Collector.{
  Ping, Collector, at_ping, record_series, mark_sent, mark_send_failed, on_rx, record_round_trip,
  on_icmp_error, on_tx_kernel,
}
use smokeng.Probe.Finalize.{Conditions, finalize}

-- A call of a method.
pub data Call : Type 0 where
  sending : (idx seq : ℕ) (tx_user : Instant) → Call
  send_failing : (idx reason : ℕ) → Call
  reply : (idx : ℕ) (t : Instant) (kernel : Bool) → Call
  measured_reply : (idx : ℕ) (rtt : ℤ) (now : Instant) → Call
  icmp : (idx icmp_type code : ℕ) → Call
  kernel_tx : (idx : ℕ) (t : Instant) → Call
  series_of : (name : List ℕ) (vals : List ℤ) (measured : Bool) → Call
  finalizing : (spec : TargetSpec) (bucket : ℤ) (cond : Conditions) (now : Instant) → Call

-- The state after a call, unless it panics.
unfoldable pub call : Call → Collector → Option Collector
unfolding mark_sent mark_send_failed on_rx record_round_trip on_icmp_error on_tx_kernel
    record_series
call (sending idx seq tx_user) c = mark_sent idx seq tx_user c
call (send_failing idx reason) c = mark_send_failed idx reason c
call (reply idx t kernel) c = on_rx idx t kernel c
call (measured_reply idx rtt now) c = record_round_trip idx rtt now c
call (icmp idx icmp_type code) c = on_icmp_error idx icmp_type code c
call (kernel_tx idx t) c = on_tx_kernel idx t c
call (series_of name vals measured) c = some (record_series name vals measured c)
call (finalizing spec bucket cond now) c = some (finalize c spec bucket cond now).0

-- The state after some calls, one after the other.
unfoldable pub run : List Call → Collector → Option Collector
unfolding call
run [] c = some c
run (m ∷ calls) c = elim (call m c) [ none ↦ none | some d ↦ run calls d ]

pub some_ne_none {ℓ} : {A : Type ℓ} {a : A} → ¬ (none ≡ some a)
some_ne_none h = cc

-- The pings of two lists are related one by one.
abbrev pub Each : (Ping → Ping → Type 0) → List Ping → List Ping → Type 0
Each R [] [] = Unit
Each R [] (q ∷ qs) = ⊥
Each R (p ∷ ps) [] = ⊥
Each R (p ∷ ps) (q ∷ qs) = R p q × Each R ps qs

module _ (R : Ping → Ping → Type 0) where
  pub Each-refl : ((p : Ping) → R p p) → (ps : List Ping) → Each R ps ps
  Each-refl same_ [] = tt
  Each-refl same_ (p ∷ ps) = (same_ p, Each-refl same_ ps)

  pub Each-trans :
      ((p q r : Ping) → R p q → R q r → R p r)
      → (ps qs rs : List Ping) → Each R ps qs
      → Each R qs rs
      → Each R ps rs
  Each-trans t [] [] [] a b = tt
  Each-trans t [] [] (r ∷ rs) a b = absurd b
  Each-trans t [] (q ∷ qs) rs a b = absurd a
  Each-trans t (p ∷ ps) [] rs a b = absurd a
  Each-trans t (p ∷ ps) (q ∷ qs) [] a b = absurd b
  Each-trans t (p ∷ ps) (q ∷ qs) (r ∷ rs) a b = (t p q r a.0 b.0, Each-trans t ps qs rs a.1 b.1)

  modify?-Each :
      ((p : Ping) → R p p)
      → (f : Ping → Ping) → ((p : Ping) → R p (f p))
      → (ps qs : List Ping) (i : ℕ) → modify? f ps i ≡ some qs
      → Each R ps qs
  unfolding modify?
  modify?-Each same_ f keeps [] qs i h = cc
  modify?-Each same_ f keeps (p ∷ ps) qs zero h =
      let is : (f p ∷ ps) ≡ qs = cc h in subst (Each R (p ∷ ps)) is (keeps p, Each-refl same_ ps)
  modify?-Each same_ f keeps (p ∷ ps) qs (suc i) h = elim (Option-cases (modify? f ps i)) [
    | inl stops ↦ absurd (some_ne_none (rw (stops, modify?) at h))
    | inr (rest, e) ↦
        let moved : some (p ∷ rest) ≡ some qs = rw (e, modify?) at h in
        let is : (p ∷ rest) ≡ qs = cc moved in
        subst (Each R (p ∷ ps)) is (same_ p, modify?-Each same_ f keeps ps rest i e)
  ]

  pub at_ping-Each :
      ((p : Ping) → R p p)
      → (f : Ping → Ping) → ((p : Ping) → R p (f p))
      → (c d : Collector) (i : ℕ) → at_ping f c i ≡ some d
      → Each R c.pings d.pings × (d.done ≡ c.done) × (d.late ≡ c.late)
  unfolding at_ping
  at_ping-Each same_ f keeps c d i h = elim (Option-cases (modify? f c.pings i)) [
    | inl stops ↦ absurd (some_ne_none (rw (stops, at_ping) at h))
    | inr (ps, e) ↦
        let is : record c { pings = ps } ≡ d = cc (rw (e, at_ping) at h) in
        subst (λ (x : Collector). Each R c.pings x.pings × (x.done ≡ c.done) × (x.late ≡ c.late)) is
          (modify?-Each same_ f keeps c.pings ps i e, refl, refl)
  ]
