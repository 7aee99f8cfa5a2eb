-- ===== src/Probe/Replies.antt =====
-- What no run of a collector changes: a reply in hand, and a collector that is finalized.
use smokeng.Common.{
  ℕ, ◌≡◌, refl, sym, ◌∙◌, Bool, true, false, some, List, [], ◌∷◌, arith, Bool-cases, Option-cases,
  inl, inr, ◌⊎◌, ap, any, if◌then◌else◌,
}
use mathlib.Core.Path.{subst}
use smokeng.Common.Int.{ℤ}
use smokeng.Probe.Clock.{Instant, is_zero}
use smokeng.Probe.Collector.{
  Ping, Collector, at_ping, add_late, record_series, unless_answered, receive, round_trip_at,
  refuse, on_tx_kernel,
}
use smokeng.Probe.Finalize.{finalize}
use smokeng.Probe.Runs.{
  Call, sending, send_failing, reply, measured_reply, icmp, kernel_tx, series_of, finalizing, call,
  run, Each, Each-refl, at_ping-Each, some_ne_none,
}

-- Calls that record a send or its kernel stamp, which a reply does not hold up.
abbrev pub is_write : Call → Bool
is_write (sending idx seq tx_user) = true
is_write (send_failing idx reason) = true
is_write (kernel_tx idx t) = true
is_write (reply idx t kernel) = false
is_write (measured_reply idx rtt now) = false
is_write (icmp idx icmp_type code) = false
is_write (series_of name vals measured) = false
is_write (finalizing spec bucket cond now) = false

-- The reply, and the ICMP error beside it, are the same; so is the whole ping, unless `written`.
pub record Settled (written : Bool) (p q : Ping) : Type 0 where
  pub rx : q.rx ≡ p.rx
  pub rx_kernel : q.rx_kernel ≡ p.rx_kernel
  pub icmp_err : q.icmp_err ≡ p.icmp_err
  pub icmp_type : q.icmp_type ≡ p.icmp_type
  pub icmp_code : q.icmp_code ≡ p.icmp_code
  pub whole : (written ≡ true) ⊎ (q ≡ p)

-- A ping that has a reply keeps it.
abbrev pub Keeps : Bool → Ping → Ping → Type 0
Keeps written p q = (is_zero p.rx ≡ true) ⊎ Settled written p q

Settled-refl : (w : Bool) (p : Ping) → Settled w p p
Settled-refl w p = record {
  rx = refl;
  rx_kernel = refl;
  icmp_err = refl;
  icmp_type = refl;
  icmp_code = refl;
  whole = inr refl;
}

either_written :
    (v w : Bool) (p q r : Ping)
    → (v ≡ true) ⊎ (q ≡ p)
    → (w ≡ true) ⊎ (r ≡ q)
    → ((if v then true else w) ≡ true) ⊎ (r ≡ p)
either_written true w p q r a b = inl refl
either_written false true p q r a b = inl refl
either_written false false p q r (inl e) b = inl e
either_written false false p q r (inr a) (inl e) = inl e
either_written false false p q r (inr a) (inr b) = inr (b ∙ a)

Settled-trans :
    (v w : Bool) (p q r : Ping)
    → Settled v p q
    → Settled w q r
    → Settled (if v then true else w) p r
Settled-trans v w p q r a b = record {
  rx = b.rx ∙ a.rx;
  rx_kernel = b.rx_kernel ∙ a.rx_kernel;
  icmp_err = b.icmp_err ∙ a.icmp_err;
  icmp_type = b.icmp_type ∙ a.icmp_type;
  icmp_code = b.icmp_code ∙ a.icmp_code;
  whole = either_written v w p q r a.whole b.whole;
}

Keeps-refl : (w : Bool) (p : Ping) → Keeps w p p
Keeps-refl w p = inr (Settled-refl w p)

Keeps-trans :
    (v w : Bool) (p q r : Ping) → Keeps v p q → Keeps w q r → Keeps (if v then true else w) p r
Keeps-trans v w p q r (inl none_) b = inl none_
Keeps-trans v w p q r (inr a) (inl none_) = inl (ap is_zero (sym a.rx) ∙ none_)
Keeps-trans v w p q r (inr a) (inr b) = inr (Settled-trans v w p q r a b)

unless_answered-Keeps : (w : Bool) (f : Ping → Ping) (p : Ping) → Keeps w p (unless_answered f p)
unfolding unless_answered
unless_answered-Keeps w f p = elim (Bool-cases (is_zero p.rx)) [
  | inl none_ ↦ inl none_
  | inr has ↦ inr (rw has (Settled-refl w p))
]

-- What a call leaves of the pings, of `done`, and of the replies that came late.
pub record Leaves (written : Bool) (c d : Collector) : Type 0 where
  pub pings : Each (Keeps written) c.pings d.pings
  pub done : (c.done ≡ false) ⊎ (d.done ≡ true)

at_ping-Leaves :
    (w : Bool) (f : Ping → Ping)
    → ((p : Ping) → Keeps w p (f p))
    → (c d : Collector) (i : ℕ) → at_ping f c i ≡ some d
    → Leaves w c d
at_ping-Leaves w f keeps c d i h =
    let k = at_ping-Each (Keeps w) (Keeps-refl w) f keeps c d i h in
    record {
      pings = k.0;
      done = elim (Bool-cases c.done) [ inl y ↦ inr (k.1 ∙ y) | inr n ↦ inl n ];
    }

same-Leaves : (w : Bool) (c d : Collector) → d.pings ≡ c.pings → d.done ≡ c.done → Leaves w c d
same-Leaves w c d pings done = record {
  pings = rw pings (Each-refl (Keeps w) (Keeps-refl w) c.pings);
  done = elim (Bool-cases c.done) [ inl y ↦ inr (done ∙ y) | inr n ↦ inl n ];
}

late-Leaves : (w : Bool) (c d : Collector) → some (add_late c) ≡ some d → Leaves w c d
unfolding add_late
late-Leaves w c d h =
    let is : add_late c ≡ d = cc h in subst (Leaves w c) is (same-Leaves w c _ refl refl)

some-Leaves : (w : Bool) (c d e : Collector) → some d ≡ some e → Leaves w c d → Leaves w c e
some-Leaves w c d e h l = let is : d ≡ e = cc h in subst (Leaves w c) is l

-- A write that waits for the collector to be open and the ping to have no reply.
guarded-Leaves :
    (w : Bool) (f : Ping → Ping) (c d e : Collector) (idx : ℕ)
    → Leaves w c e
    → (if c.done then some e else at_ping (unless_answered f) c idx) ≡ some d
    → Leaves w c d
guarded-Leaves w f c d e idx l h = elim (Bool-cases c.done) [
  | inl closed ↦
      some-Leaves w c e d
        (sym (ap (λ (b : Bool). if b then some e else at_ping (unless_answered f) c idx) closed)
          ∙ h)
        l
  | inr open_ ↦
      at_ping-Leaves w (unless_answered f) (unless_answered-Keeps w f) c d idx
        (sym (ap (λ (b : Bool). if b then some e else at_ping (unless_answered f) c idx) open_) ∙ h)
]

tx_closed : (idx : ℕ) (t : Instant) (c : Collector) → c.done ≡ true → on_tx_kernel idx t c ≡ some c
unfolding on_tx_kernel
tx_closed idx t c closed = ground arith

tx_open :
    (idx : ℕ) (t : Instant) (c : Collector)
    → c.done ≡ false
    → on_tx_kernel idx t c ≡ at_ping (λ p. record p { tx_kern = t }) c idx
unfolding on_tx_kernel
tx_open idx t c open_ = ground (arith, open_)

record_series-Leaves :
    (w : Bool) (name : List ℕ) (vals : List ℤ) (measured : Bool) (c : Collector)
    → Leaves w c (record_series name vals measured c)
unfolding record_series
record_series-Leaves w name vals true c = same-Leaves w c _ refl refl
record_series-Leaves w name vals false c = same-Leaves w c _ refl refl

call-Leaves : (m : Call) (c d : Collector) → call m c ≡ some d → Leaves (is_write m) c d
unfolding call add_late finalize
call-Leaves (sending idx seq tx_user) c d h =
    at_ping-Leaves true (λ p. record p { sent = true; seq = seq; tx_user = tx_user })
      (λ p. inr (record {
        rx = refl;
        rx_kernel = refl;
        icmp_err = refl;
        icmp_type = refl;
        icmp_code = refl;
        whole = inl refl;
      }))
      c d idx h
call-Leaves (send_failing idx reason) c d h =
    at_ping-Leaves true (λ p. record p { sent = true; send_failed = true; send_reason = reason })
      (λ p. inr (record {
        rx = refl;
        rx_kernel = refl;
        icmp_err = refl;
        icmp_type = refl;
        icmp_code = refl;
        whole = inl refl;
      }))
      c d idx h
call-Leaves (reply idx t kernel) c d h =
    guarded-Leaves false (receive t kernel) c d (add_late c) idx (same-Leaves false c _ refl refl) h
call-Leaves (measured_reply idx rtt now) c d h =
    guarded-Leaves false (round_trip_at now rtt) c d (add_late c) idx
      (same-Leaves false c _ refl refl) h
call-Leaves (icmp idx icmp_type code) c d h =
    guarded-Leaves false (refuse icmp_type code) c d c idx (same-Leaves false c _ refl refl) h
call-Leaves (kernel_tx idx t) c d h = elim (Bool-cases c.done) [
  | inl closed ↦
      some-Leaves true c c d (sym (tx_closed idx t c closed) ∙ h) (same-Leaves true c c refl refl)
  | inr open_ ↦
      at_ping-Leaves true (λ p. record p { tx_kern = t })
        (λ p. inr (record {
          rx = refl;
          rx_kernel = refl;
          icmp_err = refl;
          icmp_type = refl;
          icmp_code = refl;
          whole = inl refl;
        }))
        c d idx (sym (tx_open idx t c open_) ∙ h)
]
call-Leaves (series_of name vals measured) c d h =
    some-Leaves false c _ d h (record_series-Leaves false name vals measured c)
call-Leaves (finalizing spec bucket cond now) c d h =
    some-Leaves false c (record c { done = true }) d h
      (record { pings = Each-refl (Keeps false) (Keeps-refl false) c.pings; done = inr refl })

Each-trans-Keeps :
    (v w : Bool) (xs ys zs : List Ping)
    → Each (Keeps v) xs ys
    → Each (Keeps w) ys zs
    → Each (Keeps (if v then true else w)) xs zs
Each-trans-Keeps v w [] [] [] a b = tt
Each-trans-Keeps v w (x ∷ xs) (y ∷ ys) (z ∷ zs) a b =
    (Keeps-trans v w x y z a.0 b.0, Each-trans-Keeps v w xs ys zs a.1 b.1)
Each-trans-Keeps v w [] [] (z ∷ zs) a b = b
Each-trans-Keeps v w [] (y ∷ ys) zs a b = absurd a
Each-trans-Keeps v w (x ∷ xs) [] zs a b = absurd a
Each-trans-Keeps v w (x ∷ xs) (y ∷ ys) [] a b = absurd b

Leaves-trans :
    (v w : Bool) (c d e : Collector)
    → Leaves v c d
    → Leaves w d e
    → Leaves (if v then true else w) c e
Leaves-trans v w c d e a b = record {
  pings = Each-trans-Keeps v w c.pings d.pings e.pings a.pings b.pings;
  done = elim a.done [
    | inl open_ ↦ inl open_
    | inr closed ↦ elim b.done [ inl open_ ↦ inl (cc) | inr still ↦ inr still ]
  ];
}

-- What a run of calls that does not panic leaves, for every order of the calls: a ping that has a
-- reply keeps this reply and the ICMP error that stands beside it; it is left as it was in every
-- field where no call of the run records a send or a kernel stamp, so that duplicates and errors
-- change nothing; and a collector that is finalized stays so.
pub run-Leaves :
    (calls : List Call) (c d : Collector) → run calls c ≡ some d → Leaves (any is_write calls) c d
unfolding run any
run-Leaves [] c d h = some-Leaves false c c d h (same-Leaves false c c refl refl)
run-Leaves (m ∷ calls) c d h = elim (Option-cases (call m c)) [
  | inl stops ↦ absurd (some_ne_none (rw (stops, run) at h))
  | inr (e, first) ↦
      Leaves-trans (is_write m) (any is_write calls) c e d (call-Leaves m c e first)
        (run-Leaves calls e d (rw (first, run) at h))
]
