-- ===== src/Enc/Signed.antt =====
-- The signed series of version 2: decoding after encoding.
use smokeng.Common.{
  ◌∙◌, ℕ, zero, suc, ◌+◌, ◌^◌, ◌≤◌, ◌<◌, ◌≡◌, refl, some, List, [], ◌∷◌, ◌++◌, arith, length, All,
}
use native.Mathlib.Numerals.{add-one}
use smokeng.Common.Int.{ℤ, pos, negsuc, ◌+ℤ◌, ◌-ℤ◌, ◌≤ℤ◌, pos_part}
use smokeng.Common.Result.{ok, ◌>>=◌}
use smokeng.Enc.Varint.{put_uvarint, uvarint}
use smokeng.Enc.Samples.{
  max_int32, min_int32, zigzag, unzigzag, next_signed, encode_signed_deltas, encode_signed,
  decode_signed_loop, decode_signed,
}
use smokeng.Enc.RoundTrip.{uvarint-put, put_uvarint-cons, length-put}

abbrev pub SignedFrom : ℤ → List ℤ → Type 0
SignedFrom lo [] = Unit
SignedFrom lo (s ∷ samples) = (lo ≤ℤ s) × SignedFrom s samples

abbrev pub InInt32 : ℤ → Type 0
InInt32 s = (min_int32 ≤ℤ s) × (s ≤ℤ max_int32)

-- The series that the source can hold: `int32`, ascending.
abbrev pub IsSeries : List ℤ → Type 0
IsSeries samples = SignedFrom min_int32 samples × All InInt32 samples

unzigzag-zigzag : (s : ℤ) → unzigzag (zigzag s) ≡ s
unfolding zigzag unzigzag
unzigzag-zigzag (pos n) = ground arith
unzigzag-zigzag (negsuc n) = ground arith

zigzag-lt : (s : ℤ) → InInt32 s → zigzag s < 2 ^ 32
unfolding zigzag
zigzag-lt (pos n) h = omega arith
zigzag-lt (negsuc n) h = omega arith

next_signed-first : (s : ℤ) → InInt32 s → next_signed 0 (pos 0) (zigzag s) ≡ ok s
unfolding next_signed
next_signed-first s h = rw unzigzag-zigzag (ground arith)

delta-lt : (prev s : ℤ) → InInt32 prev → InInt32 s → pos_part (s -ℤ prev) < 2 ^ 33
unfolding ◌-ℤ◌
delta-lt prev s h k = ground arith

next_signed-delta :
    (i : ℕ) (prev s : ℤ)
    → prev ≤ℤ s
    → InInt32 prev
    → InInt32 s
    → next_signed (suc i) prev (pos_part (s -ℤ prev)) ≡ ok s
unfolding next_signed ◌-ℤ◌ ◌+ℤ◌
next_signed-delta i prev s le h k = ground arith

decode_signed_loop-nil : (fuel i : ℕ) (cur : ℤ) → decode_signed_loop fuel i cur [] ≡ ok []
unfolding decode_signed_loop
decode_signed_loop-nil zero i cur = refl
decode_signed_loop-nil (suc f) i cur = refl

-- A round of the decoder over what the encoder wrote.
decode_signed_loop-put :
    (f i : ℕ) (cur : ℤ) (v : ℕ) (rest : List ℕ)
    → v < 2 ^ 35
    → decode_signed_loop (suc f) i cur (put_uvarint v ++ rest)
      ≡ (do s ← next_signed i cur v; out ← decode_signed_loop f (i + 1) s rest; ok (s ∷ out))
unfolding decode_signed_loop
decode_signed_loop-put f i cur v rest h =
    let (b, more, e) = put_uvarint-cons v in
    let read : uvarint (b ∷ more ++ rest) ≡ some (v, rest) = rw e at (uvarint-put v rest h) in
    rw (e, read, decode_signed_loop)

round :
    (fuel i : ℕ) (cur : ℤ) (v : ℕ) (s : ℤ) (bytes : List ℕ) (samples : List ℤ)
    → v < 2 ^ 35
    → next_signed i cur v ≡ ok s
    → length (put_uvarint v ++ bytes) ≤ fuel
    → ((f : ℕ) → length bytes ≤ f → decode_signed_loop f (i + 1) s bytes ≡ ok samples)
    → decode_signed_loop fuel i cur (put_uvarint v ++ bytes) ≡ ok (s ∷ samples)
round zero i cur v s bytes samples small next fits back = absurd (omega (arith, length-put v bytes))
round (suc f) i cur v s bytes samples small next fits back =
    let left : length bytes ≤ f = omega (arith, length-put v bytes) in
    decode_signed_loop-put f i cur v bytes small ∙ rw (next, back f left)

deltas :
    (i : ℕ) (prev : ℤ) (samples : List ℤ)
    → InInt32 prev
    → SignedFrom prev samples
    → All InInt32 samples
    → (bytes : List ℕ) × (encode_signed_deltas prev samples ≡ ok bytes)
      × ((fuel : ℕ) → length bytes ≤ fuel → decode_signed_loop fuel (i + 1) prev bytes ≡ ok samples)
unfolding encode_signed_deltas
deltas i prev [] p h k = ([], refl, λ fuel _. decode_signed_loop-nil fuel (i + 1) prev)
deltas i prev (s ∷ samples) p h k =
    let (bytes, e, back) = deltas (i + 1) s samples k.0 h.1 k.1 in
    let v = pos_part (s -ℤ prev) in
    let small : v < 2 ^ 35 = omega (arith, delta-lt prev s p k.0) in
    let next : next_signed (i + 1) prev v ≡ ok s =
      rw add-one (next_signed-delta i prev s h.0 p k.0) in
    (
      put_uvarint v ++ bytes,
      ground (arith, e),
      λ fuel fits. round fuel (i + 1) prev v s bytes samples small next fits back,
    )

-- Every ascending list of `int32` values, negative ones included, is encoded, and decoding the blob
-- gives it back.
pub decode_signed-encode_signed :
    (samples : List ℤ)
    → IsSeries samples
    → (do blob ← encode_signed samples; decode_signed blob) ≡ ok samples
unfolding encode_signed decode_signed
decode_signed-encode_signed [] h = refl
decode_signed-encode_signed (s ∷ samples) h =
    let (bytes, e, back) = deltas 0 s samples h.1.0 h.0.1 h.1.1 in
    rw e (
      round (length (put_uvarint (zigzag s) ++ bytes)) 0 (pos 0) (zigzag s) s bytes samples
        (omega (arith, zigzag-lt s h.1.0)) (next_signed-first s h.1.0) (omega arith) back)
