-- ===== src/Enc/RoundTrip.antt =====
-- Decoding after encoding, for both versions.
use smokeng.Common.{
  ◌∙◌, ℕ, zero, suc, ◌+◌, ◌-◌, ◌^◌, ◌≤◌, ◌<◌, ◌≡◌, refl, some, List, [], ◌∷◌, ◌++◌, arith, All,
  SortedFrom, length, length-append, Bool-cases, leb, inl, inr, ◌%◌, ◌/◌,
}
use native.Mathlib.Numerals.{add-one}
use smokeng.Common.Result.{ok, ◌>>=◌}
use smokeng.Enc.Varint.{uvarint_bytes, put_uvarint, uvarint, uvarint_from-bytes}
use smokeng.Enc.Samples.{max_uint32, encode_deltas, encode, next_sample, decode_loop, decode}

-- The samples that the source can hold: `uint32`, ascending.
abbrev pub IsSamples : List ℕ → Type 0
IsSamples samples = SortedFrom 0 samples × All (λ s. s ≤ max_uint32) samples

pub uvarint-put :
    (v : ℕ) (rest : List ℕ) → v < 2 ^ 35 → uvarint (put_uvarint v ++ rest) ≡ some (v, rest)
unfolding put_uvarint uvarint
uvarint-put v rest h = ground (arith, uvarint_from-bytes 4 10 0 1 0 v rest)

-- What is written holds at least one byte.
pub put_uvarint-cons : (v : ℕ) → (b : ℕ) × (more : List ℕ) × (put_uvarint v ≡ b ∷ more)
unfolding put_uvarint
put_uvarint-cons v = elim (Bool-cases (leb 128 v)) [
  | inl big ↦ (v % 128 + 128, uvarint_bytes 9 (v / 128), rw big)
  | inr small ↦ (v, [], rw small)
]

-- A round of the decoder over what the encoder wrote.
decode_loop-put :
    (f i cur v : ℕ) (rest : List ℕ)
    → v < 2 ^ 35
    → decode_loop (suc f) i cur (put_uvarint v ++ rest)
      ≡ (do s ← next_sample i cur v; out ← decode_loop f (i + 1) s rest; ok (s ∷ out))
unfolding decode_loop
decode_loop-put f i cur v rest h =
    let (b, more, e) = put_uvarint-cons v in
    let read : uvarint (b ∷ more ++ rest) ≡ some (v, rest) = rw e at (uvarint-put v rest h) in
    rw (e, read, decode_loop)

pub decode_loop-nil : (fuel i cur : ℕ) → decode_loop fuel i cur [] ≡ ok []
unfolding decode_loop
decode_loop-nil zero i cur = refl
decode_loop-nil (suc f) i cur = refl

pub length-put : (v : ℕ) (rest : List ℕ) → length rest < length (put_uvarint v ++ rest)
length-put v rest =
    let (b, more, e) = put_uvarint-cons v in rw e (omega (arith, length-append more rest))

-- One sample and what follows it, with the round's own test left to the caller.
round :
    (fuel i cur v s : ℕ) (bytes samples : List ℕ)
    → v < 2 ^ 35
    → next_sample i cur v ≡ ok s
    → length (put_uvarint v ++ bytes) ≤ fuel
    → ((f : ℕ) → length bytes ≤ f → decode_loop f (i + 1) s bytes ≡ ok samples)
    → decode_loop fuel i cur (put_uvarint v ++ bytes) ≡ ok (s ∷ samples)
round zero i cur v s bytes samples small next fits back = absurd (omega (arith, length-put v bytes))
round (suc f) i cur v s bytes samples small next fits back =
    let left : length bytes ≤ f = omega (arith, length-put v bytes) in
    decode_loop-put f i cur v bytes small ∙ rw (next, back f left)

next_sample-delta :
    (i prev s : ℕ) → prev ≤ s → s ≤ max_uint32 → next_sample (suc i) prev (s - prev) ≡ ok s
unfolding next_sample
next_sample-delta i prev s h k = ground arith

next_sample-first : (s : ℕ) → s ≤ max_uint32 → next_sample 0 0 s ≡ ok s
unfolding next_sample
next_sample-first s h = ground arith

-- Sorted samples are written, and every loop with enough rounds reads them back.
deltas :
    (i prev : ℕ) (samples : List ℕ)
    → SortedFrom prev samples
    → All (λ s. s ≤ max_uint32) samples
    → (bytes : List ℕ) × (encode_deltas prev samples ≡ ok bytes)
      × ((fuel : ℕ) → length bytes ≤ fuel → decode_loop fuel (i + 1) prev bytes ≡ ok samples)
unfolding encode_deltas
deltas i prev [] h k = ([], refl, λ fuel _. decode_loop-nil fuel (i + 1) prev)
deltas i prev (s ∷ samples) h k =
    let (bytes, e, back) = deltas (i + 1) s samples h.1 k.1 in
    let next : next_sample (i + 1) prev (s - prev) ≡ ok s =
      rw add-one (next_sample-delta i prev s h.0 k.0) in
    (
      put_uvarint (s - prev) ++ bytes,
      ground (arith, e),
      λ fuel fits. round fuel (i + 1) prev (s - prev) s bytes samples (omega arith) next fits back,
    )

-- Every ascending list of `uint32` samples is encoded, and decoding the blob gives it back.
pub decode-encode :
    (samples : List ℕ) → IsSamples samples → (do blob ← encode samples; decode blob) ≡ ok samples
unfolding encode decode
decode-encode [] h = refl
decode-encode (s ∷ samples) h =
    let (bytes, e, back) = deltas 0 s samples h.0.1 h.1.1 in
    rw e (
      round (length (put_uvarint s ++ bytes)) 0 0 s s bytes samples (omega arith)
        (next_sample-first s h.1.0) (omega arith) back)
