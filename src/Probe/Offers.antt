-- ===== src/Probe/Offers.antt =====
-- What `resolve` of internal/probe/dnscache makes of the answers, and the keys of its map.
use smokeng.Common.{
  ℕ, ◌≡◌, refl, sym, ap, ◌∙◌, inl, inr, Bool, true, false, none, some, List, [], ◌∷◌, arith, In,
  Bool-cases, if◌then◌else◌,
}
use mathlib.Core.Path.{subst}
use smokeng.Common.Int.{ℤ, ◌≤ℤ◌}
use smokeng.Common.Result.{Result, ok, err-ne-ok}
use smokeng.Common.Text.{codes, same, same-eq, same_refl}
use smokeng.Probe.Clock.{after}
use smokeng.Probe.DnsCache.{
  Key, same_key, Record, a, aaaa, other_type, Answers, LookupError, min_ttl, max_ttl, clamp_ttl,
  remove_one, first_record, resolve,
}

pub same_key-eq : (k l : Key) → same_key k l ≡ true → k ≡ l
unfolding same_key
same_key-eq k l h = elim (Bool-cases (same k.host l.host)) [
  | inr apart ↦ absurd (ground (arith, apart, h))
  | inl host ↦ elim (Bool-cases (same k.family l.family)) [
    | inr apart ↦ absurd (ground (arith, apart, host, h))
    | inl family ↦
        let h' = same-eq k.host l.host host in
        let f' = same-eq k.family l.family family in λ i. record { host = h' i; family = f' i }
  ]
]

pub same_key_refl : (k : Key) → same_key k k ≡ true
unfolding same_key
same_key_refl k = rw (same_refl k.host, same_refl k.family) refl

In-if :
    (b : Bool) (l m : Key) (keys rest : List Key)
    → (b ≡ true → ¬ (m ≡ l))
    → (In l keys → In l rest)
    → In l (m ∷ keys)
    → In l (if b then keys else m ∷ rest)
In-if true l m keys rest apart after (inl e) = absurd (apart refl e)
In-if true l m keys rest apart after (inr i) = i
In-if false l m keys rest apart after (inl e) = inl e
In-if false l m keys rest apart after (inr i) = inr (after i)

pub false-ne-true : ¬ (false ≡ true)
false-ne-true h = cc

pub In-remove_one :
    (k l : Key) (keys : List Key) → same_key k l ≡ false → In l keys → In l (remove_one k keys)
unfolding remove_one
In-remove_one k l [] apart i = i
In-remove_one k l (m ∷ keys) apart i =
    In-if (same_key k m) l m keys (remove_one k keys)
      (λ found e. false-ne-true (sym apart ∙ subst (λ n. same_key k n ≡ true) e found))
      (In-remove_one k l keys apart) i

if-In :
    (b : Bool) (l m : Key) (keys rest : List Key)
    → (In l rest → In l keys)
    → In l (if b then keys else m ∷ rest)
    → In l (m ∷ keys)
if-In true l m keys rest before i = inr i
if-In false l m keys rest before (inl e) = inl e
if-In false l m keys rest before (inr i) = inr (before i)

-- What is left was there before.
pub remove_one-In : (k l : Key) (keys : List Key) → In l (remove_one k keys) → In l keys
unfolding remove_one
remove_one-In k l [] i = i
remove_one-In k l (m ∷ keys) i =
    if-In (same_key k m) l m keys (remove_one k keys) (remove_one-In k l keys) i

clamp_ttl-within : (ttl : ℕ) → (min_ttl ≤ℤ clamp_ttl ttl) × (clamp_ttl ttl ≤ℤ max_ttl)
unfolding clamp_ttl
clamp_ttl-within ttl = ground arith

clamped : (ttl : ℕ) (d : ℤ) → clamp_ttl ttl ≡ d → (min_ttl ≤ℤ d) × (d ≤ℤ max_ttl)
clamped ttl d e = subst (λ v. (min_ttl ≤ℤ v) × (v ≤ℤ max_ttl)) e (clamp_ttl-within ttl)

-- What was asked of the servers, and what they answered.
pub record Query (Addr : Type 0) : Type 0 where
  pub key : Key
  pub answers : Answers Addr

module _ {Addr : Type 0} where
  -- A record of the family's type, of this address.
  abbrev pub IsRecordOf : List ℕ → Addr → Record Addr → Type 0
  IsRecordOf family x (a y ttl) = (family ≡ codes "v4") × (x ≡ y)
  IsRecordOf family x (aaaa y ttl) = (family ≡ codes "v6") × (x ≡ y)
  IsRecordOf family x other_type = ⊥

  abbrev pub Offered : List ℕ → Addr → Answers Addr → Type 0
  Offered family x answers =
      (records : List (Record Addr)) × In (some records) answers
      × (r : Record Addr) × In r records
      × IsRecordOf family x r

  -- An address that a query for the key was answered with.
  abbrev pub Known : Key → Addr → List (Query Addr) → Type 0
  Known k x history = (q : Query Addr) × In q history × (q.key ≡ k) × Offered k.family x q.answers

  abbrev IsFirst : List ℕ → List (Record Addr) → Addr → ℤ → Type 0
  IsFirst family records x ttl =
      (r : Record Addr) × In r records × IsRecordOf family x r × (min_ttl ≤ℤ ttl) × (ttl ≤ℤ max_ttl)

  -- What a successful result returns is what it was made of.
  pub ok_pair :
      {B : Type 0} (y x : Addr) (s t : B)
      → ◌≡◌ {A = Result LookupError (Addr × B)} (ok (y, s)) (ok (x, t))
      → (x ≡ y) × (s ≡ t)
  ok_pair {B} y x s t h =
      let e : ◌≡◌ {A = Addr × B} (y, s) (x, t) = cc h in
      (sym (ap (λ (v : Addr × B). v.0) e), ap (λ (v : Addr × B). v.1) e)

  first_record-IsFirst :
      (family : List ℕ) (records : List (Record Addr)) (x : Addr) (ttl : ℤ)
      → first_record family records ≡ ok (x, ttl)
      → IsFirst family records x ttl
  unfolding first_record
  first_record-IsFirst family [] x ttl h = absurd (err-ne-ok h)
  first_record-IsFirst family (other_type ∷ records) x ttl h =
      let (r, i, is, low, high) = first_record-IsFirst family records x ttl h in
      (r, inr i, is, low, high)
  first_record-IsFirst family (a y s ∷ records) x ttl h =
      elim (Bool-cases (same family (codes "v4"))) [
        | inl e ↦
            let (is, d) = ok_pair y x (clamp_ttl s) ttl (rw (e, first_record) at h) in
            let v4 : family ≡ codes "v4" = same-eq family (codes "v4") e in
            (a y s, inl refl, (v4, is), (clamped s ttl d).0, (clamped s ttl d).1)
        | inr e ↦
            let (r, i, is, low, high) =
              first_record-IsFirst family records x ttl (rw (e, first_record) at h) in
            (r, inr i, is, low, high)
      ]
  first_record-IsFirst family (aaaa y s ∷ records) x ttl h =
      elim (Bool-cases (same family (codes "v6"))) [
        | inl e ↦
            let (is, d) = ok_pair y x (clamp_ttl s) ttl (rw (e, first_record) at h) in
            let v6 : family ≡ codes "v6" = same-eq family (codes "v6") e in
            (aaaa y s, inl refl, (v6, is), (clamped s ttl d).0, (clamped s ttl d).1)
        | inr e ↦
            let (r, i, is, low, high) =
              first_record-IsFirst family records x ttl (rw (e, first_record) at h) in
            (r, inr i, is, low, high)
      ]

  -- What `resolve` gives was offered, and is kept from 30 s to a day.
  pub resolve-Offered :
      (family : List ℕ) (answers : Answers Addr) (x : Addr) (ttl : ℤ)
      → resolve family answers ≡ ok (x, ttl)
      → Offered family x answers × (min_ttl ≤ℤ ttl) × (ttl ≤ℤ max_ttl)
  unfolding resolve
  resolve-Offered family [] x ttl h = absurd (err-ne-ok h)
  resolve-Offered family (none ∷ answers) x ttl h =
      let ((records, i, r, j, is), low, high) = resolve-Offered family answers x ttl h in
      ((records, inr i, r, j, is), low, high)
  resolve-Offered family (some records ∷ answers) x ttl h =
      let (r, i, is, low, high) = first_record-IsFirst family records x ttl h in
      ((records, inl refl, r, i, is), low, high)
