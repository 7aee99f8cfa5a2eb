-- ===== src/Enc/Decoding.antt =====
-- What `Decode` gives for any bytes whatever, those of a corrupt blob included.
use smokeng.Common.{
  ℕ, zero, suc, ◌+◌, ◌≤◌, ◌≡◌, ◌≢◌, refl, some, List, [], ◌∷◌, arith, All, SortedFrom, length,
  Option-cases, inl, inr,
}
use native.Mathlib.Numerals.{add-one}
use smokeng.Common.Result.{Result, ok, err, ◌>>=◌, >>=-eq-ok}
use smokeng.Enc.Varint.{uvarint, length-uvarint, count_varints, count_varints-uvarint}
use smokeng.Enc.Samples.{
  EncError, no_fuel, bad_varint, max_uint32, next_sample, decode_loop, decode,
}
use smokeng.Enc.RoundTrip.{IsSamples}

-- The value of a round is at least the one before it, and fits 32 bits, unless the round fails.
next_sample_bounds :
    (i cur v : ℕ) {s : ℕ}
    → cur ≤ max_uint32
    → next_sample (suc i) cur v ≡ ok s
    → (cur ≤ s) × (s ≤ max_uint32)
unfolding next_sample
next_sample_bounds i cur v k h = ground arith

next_sample_first : (v : ℕ) {s : ℕ} → next_sample 0 0 v ≡ ok s → s ≤ max_uint32
unfolding next_sample
next_sample_first v h = ground arith

next_sample-ne-no_fuel : (i cur v : ℕ) → next_sample i cur v ≢ err no_fuel
unfolding next_sample
next_sample-ne-no_fuel i cur v = ground arith

-- A successful round, taken apart.
record Round (f i cur : ℕ) (bytes samples : List ℕ) : Type 0 where
  v : ℕ
  rest : List ℕ
  s : ℕ
  out : List ℕ
  read : uvarint bytes ≡ some (v, rest)
  next : next_sample i cur v ≡ ok s
  more : decode_loop f (i + 1) s rest ≡ ok out
  result : samples ≡ s ∷ out

decode_loop-inv :
    (f i cur b : ℕ) (bytes : List ℕ) {samples : List ℕ}
    → decode_loop (suc f) i cur (b ∷ bytes) ≡ ok samples
    → Round f i cur (b ∷ bytes) samples
unfolding decode_loop
decode_loop-inv f i cur b bytes {samples} h = elim (Option-cases (uvarint (b ∷ bytes))) [
  | inl e ↦ let failed : err (bad_varint i) ≡ ok samples = rw (e, decode_loop) at h in cc
  | inr ((v, rest), e) ↦
      let chain : (do s ← next_sample i cur v; out ← decode_loop f (i + 1) s rest; ok (s ∷ out))
          ≡ ok samples =
        rw (e, decode_loop) at h in
      let (s, next, chain') = >>=-eq-ok (next_sample i cur v) _ chain in
      let (out, more, last) = >>=-eq-ok (decode_loop f (i + 1) s rest) _ chain' in
      record {
        v = v;
        rest = rest;
        s = s;
        out = out;
        read = e;
        next = next;
        more = more;
        result = cc;
      }
]

-- Whatever follows the first sample: ascending from it, and within 32 bits.
decode_loop-sorted :
    (f i cur : ℕ) (bytes : List ℕ) {samples : List ℕ}
    → cur ≤ max_uint32
    → decode_loop f (suc i) cur bytes ≡ ok samples
    → SortedFrom cur samples × All (λ s. s ≤ max_uint32) samples
unfolding decode_loop
decode_loop-sorted zero i cur [] {samples} k h = let e : samples ≡ [] = cc in rw e (tt, tt)
decode_loop-sorted (suc f) i cur [] {samples} k h = let e : samples ≡ [] = cc in rw e (tt, tt)
decode_loop-sorted zero i cur (b ∷ bytes) k h = cc
decode_loop-sorted (suc f) i cur (b ∷ bytes) k h =
    let r = decode_loop-inv f (suc i) cur b bytes h in
    let bounds = next_sample_bounds i cur r.v k r.next in
    let below = decode_loop-sorted f (suc i) r.s r.rest bounds.1 (rw add-one at r.more) in
    rw r.result ((bounds.0, below.0), (bounds.1, below.1))

loop-sorted :
    (f : ℕ) (bytes : List ℕ) {samples : List ℕ}
    → decode_loop f 0 0 bytes ≡ ok samples
    → IsSamples samples
unfolding decode_loop
loop-sorted zero [] {samples} h = let e : samples ≡ [] = cc in rw e (tt, tt)
loop-sorted (suc f) [] {samples} h = let e : samples ≡ [] = cc in rw e (tt, tt)
loop-sorted zero (b ∷ bytes) h = cc
loop-sorted (suc f) (b ∷ bytes) h =
    let r = decode_loop-inv f 0 0 b bytes h in
    let fits = next_sample_first r.v r.next in
    let below = decode_loop-sorted f 0 r.s r.rest fits (rw add-one at r.more) in
    rw r.result ((omega arith, below.0), (fits, below.1))

-- Whatever the bytes are, samples that `decode` returns are ascending and within 32 bits: no delta
-- of a corrupt blob wraps the accumulator.
pub decode-IsSamples :
    (blob : List ℕ) {samples : List ℕ} → decode blob ≡ ok samples → IsSamples samples
unfolding decode
decode-IsSamples [] h = cc
decode-IsSamples (v ∷ bytes) h = loop-sorted (length bytes) bytes (ground arith)

loop-count :
    (f i cur : ℕ) (bytes : List ℕ) {samples : List ℕ}
    → decode_loop f i cur bytes ≡ ok samples
    → length samples ≡ count_varints bytes
unfolding decode_loop count_varints
loop-count zero i cur [] {samples} h = let e : samples ≡ [] = cc in rw e refl
loop-count (suc f) i cur [] {samples} h = let e : samples ≡ [] = cc in rw e refl
loop-count zero i cur (b ∷ bytes) h = cc
loop-count (suc f) i cur (b ∷ bytes) h =
    let r = decode_loop-inv f i cur b bytes h in
    rw r.result (
      omega
        (arith, loop-count f (i + 1) r.s r.rest r.more, count_varints-uvarint (b ∷ bytes) r.read))

-- A blob that decodes holds as many samples as `count_varints` counted in it, which is the size of
-- the one allocation that `decode` makes.
decode-count :
    (v : ℕ) (bytes : List ℕ) {samples : List ℕ}
    → decode (v ∷ bytes) ≡ ok samples
    → length samples ≡ count_varints bytes
unfolding decode
decode-count v bytes h = loop-count (length bytes) 0 0 bytes (ground arith)

chain-total :
    (i cur v f : ℕ) (rest : List ℕ)
    → ((s : ℕ) → decode_loop f (i + 1) s rest ≢ err no_fuel)
    → (do s ← next_sample i cur v; out ← decode_loop f (i + 1) s rest; ok (s ∷ out)) ≢ err no_fuel
chain-total i cur v f rest ih h = go (next_sample i cur v) (next_sample-ne-no_fuel i cur v) h
  where
    go :
        (r : Result EncError ℕ)
        → r ≢ err no_fuel
        → (do s ← r; out ← decode_loop f (i + 1) s rest; ok (s ∷ out)) ≢ err no_fuel
    go (ok s) n e = ground (arith, ih s)
    go (err x) n e = n (cc)

loop-total :
    (f i cur : ℕ) (bytes : List ℕ) → length bytes ≤ f → decode_loop f i cur bytes ≢ err no_fuel
unfolding decode_loop
loop-total zero i cur [] fits h = cc
loop-total (suc f) i cur [] fits h = cc
loop-total zero i cur (b ∷ bytes) fits h = absurd (omega arith)
loop-total (suc f) i cur (b ∷ bytes) fits h = elim (Option-cases (uvarint (b ∷ bytes))) [
  | inl e ↦
      let bad : Result EncError (List ℕ) = err (bad_varint i) in
      let failed : bad ≡ err no_fuel = rw (e, decode_loop) at h in cc
  | inr ((v, rest), e) ↦
      let chain : (do s ← next_sample i cur v; out ← decode_loop f (i + 1) s rest; ok (s ∷ out))
          ≡ err no_fuel =
        rw (e, decode_loop) at h in
      let left : length rest ≤ f = omega (arith, length-uvarint (b ∷ bytes) e) in
      chain-total i cur v f rest (λ s. loop-total f (i + 1) s rest left) chain
]

-- `decode` answers every blob: its loop never runs out of rounds.
decode-ne-no_fuel : (blob : List ℕ) → decode blob ≢ err no_fuel
unfolding decode
decode-ne-no_fuel [] h = cc
decode-ne-no_fuel (v ∷ bytes) h = loop-total (length bytes) 0 0 bytes (omega arith) (ground arith)
