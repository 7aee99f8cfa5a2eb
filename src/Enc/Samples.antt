-- ===== src/Enc/Samples.antt =====
-- `Encode`, `Decode`, `EncodeSigned` and `DecodeSigned` of internal/store/enc/enc.go. Samples of
-- version 1 are `uint32`, those of version 2 `int32`; a blob is its bytes.
use smokeng.Common.{
  ℕ, zero, suc, ◌+◌, ◌-◌, ◌*◌, ◌/◌, ◌%◌, ◌^◌, ◌≡◌, refl, ◌||◌, none, some, List, [], ◌∷◌, ◌++◌, ltb,
  ◌==◌, if◌then◌else◌, length,
}
use smokeng.Common.Int.{ℤ, pos, negsuc, ◌+ℤ◌, ◌-ℤ◌, ltb_ℤ, pos_part}
use smokeng.Common.Result.{Result, ok, err, ◌>>=◌}
use smokeng.Enc.Varint.{put_uvarint, uvarint}

-- The errors; `sample` is the index that the message names.
pub data EncError : Type 0 where
  empty unsorted : EncError
  unsupported_version : ℕ → EncError
  bad_varint : (sample : ℕ) → EncError
  delta_overflow : (sample : ℕ) → EncError
  sample_overflow : (sample : ℕ) → EncError
  -- No error of the source: the loop of the model ran out of rounds, which never happens.
  no_fuel : EncError

abbrev pub version1 : ℕ
version1 = 1

abbrev pub version2 : ℕ
version2 = 2

abbrev pub max_uint32 : ℕ
max_uint32 = 4294967295

abbrev pub max_int32 : ℤ
max_int32 = pos 2147483647

abbrev pub min_int32 : ℤ
min_int32 = negsuc 2147483647

-- The rounds of the loop of `Encode` after the first; `s - prev` does not wrap past the test.
unfoldable pub encode_deltas : ℕ → List ℕ → Result EncError (List ℕ)
encode_deltas prev [] = ok []
encode_deltas prev (s ∷ samples) =
    if ltb s prev
    then err unsorted
    else do rest ← encode_deltas s samples; ok (put_uvarint (s - prev) ++ rest)

unfoldable pub encode_first : List ℕ → Result EncError (List ℕ)
unfolding encode_deltas
encode_first [] = ok []
encode_first (s ∷ samples) = do rest ← encode_deltas s samples; ok (put_uvarint s ++ rest)

unfoldable pub encode : List ℕ → Result EncError (List ℕ)
unfolding encode_first
encode samples = do bytes ← encode_first samples; ok (version1 ∷ bytes)

-- The sample of round `i`, from the one before it: the tests on the value that was read. The
-- accumulator is a `uint64`; `max_uint32 - cur` does not wrap, since `cur` is at most `max_uint32`.
unfoldable pub next_sample : ℕ → ℕ → ℕ → Result EncError ℕ
next_sample i cur v =
    if i == 0
    then (if ltb max_uint32 v then err (sample_overflow i) else ok v)
    else if ltb (max_uint32 - cur) v
    then err (delta_overflow i)
    else (let sum = (cur + v) % 2 ^ 64 in
        if ltb max_uint32 sum then err (sample_overflow i) else ok sum)

-- The loop of `Decode`, `i` rounds in. Every round takes a byte, so the bytes left are fuel enough.
unfoldable pub decode_loop : ℕ → ℕ → ℕ → List ℕ → Result EncError (List ℕ)
decode_loop fuel i cur [] = ok []
decode_loop zero i cur (b ∷ rest) = err no_fuel
decode_loop (suc f) i cur (b ∷ rest) = elim (uvarint (b ∷ rest)) [
  | none ↦ err (bad_varint i)
  | some (v, rest') ↦ do s ← next_sample i cur v; out ← decode_loop f (i + 1) s rest'; ok (s ∷ out)
]

unfoldable pub decode : List ℕ → Result EncError (List ℕ)
unfolding decode_loop next_sample
decode [] = err empty
decode (v ∷ rest) =
    if v == version1 then decode_loop (length rest) 0 0 rest else err (unsupported_version v)

-- binary.PutVarint and binary.Varint: `ux := uint64(x) << 1; if x < 0 { ux = ^ux }` and back.
unfoldable pub zigzag : ℤ → ℕ
zigzag (pos n) = 2 * n
zigzag (negsuc n) = 2 * n + 1

unfoldable pub unzigzag : ℕ → ℤ
unzigzag u = if u % 2 == 0 then pos (u / 2) else negsuc (u / 2)

-- The rounds of the loop of `EncodeSigned` after the first; the difference is taken in `int64` and
-- is not negative there.
unfoldable pub encode_signed_deltas : ℤ → List ℤ → Result EncError (List ℕ)
encode_signed_deltas prev [] = ok []
encode_signed_deltas prev (s ∷ samples) =
    if ltb_ℤ s prev
    then err unsorted
    else do rest ← encode_signed_deltas s samples; ok (put_uvarint (pos_part (s -ℤ prev)) ++ rest)

unfoldable pub encode_signed_first : List ℤ → Result EncError (List ℕ)
unfolding encode_signed_deltas
encode_signed_first [] = ok []
encode_signed_first (s ∷ samples) = do
  rest ← encode_signed_deltas s samples
  ok (put_uvarint (zigzag s) ++ rest)

unfoldable pub encode_signed : List ℤ → Result EncError (List ℕ)
unfolding encode_signed_first zigzag
encode_signed samples = do bytes ← encode_signed_first samples; ok (version2 ∷ bytes)

-- `v` is what `binary.Varint` of the first round or `binary.Uvarint` of a later one read, before the
-- zig-zag of the first is undone. `cur` lies in the range of `int32`, so `max_int32 - cur` is not
-- negative and its `uint64` is itself.
unfoldable pub next_signed : ℕ → ℤ → ℕ → Result EncError ℤ
next_signed i cur v =
    let first = unzigzag v in
    if i == 0
    then (if ltb_ℤ first min_int32 || ltb_ℤ max_int32 first
        then err (sample_overflow i)
        else ok first)
    else if ltb (pos_part (max_int32 -ℤ cur)) v
    then err (delta_overflow i)
    else (let s = cur +ℤ pos v in
        if ltb_ℤ s min_int32 || ltb_ℤ max_int32 s then err (sample_overflow i) else ok s)

unfoldable pub decode_signed_loop : ℕ → ℕ → ℤ → List ℕ → Result EncError (List ℤ)
decode_signed_loop fuel i cur [] = ok []
decode_signed_loop zero i cur (b ∷ rest) = err no_fuel
decode_signed_loop (suc f) i cur (b ∷ rest) = elim (uvarint (b ∷ rest)) [
  | none ↦ err (bad_varint i)
  | some (v, rest') ↦ do
    s ← next_signed i cur v
    out ← decode_signed_loop f (i + 1) s rest'
    ok (s ∷ out)
]

unfoldable pub decode_signed : List ℕ → Result EncError (List ℤ)
unfolding decode_signed_loop next_signed unzigzag
decode_signed [] = err empty
decode_signed (v ∷ rest) =
    if v == version2
    then decode_signed_loop (length rest) 0 (pos 0) rest
    else err (unsupported_version v)

samples_run : (do b ← encode (5 ∷ 5 ∷ 300 ∷ []); decode b) ≡ ok (5 ∷ 5 ∷ 300 ∷ [])
unfolding encode decode put_uvarint uvarint
samples_run = refl

signed_run :
    (do b ← encode_signed (negsuc 4 ∷ pos 0 ∷ pos 300 ∷ []); decode_signed b)
    ≡ ok (negsuc 4 ∷ pos 0 ∷ pos 300 ∷ [])
unfolding encode_signed decode_signed put_uvarint uvarint ◌+ℤ◌ ◌-ℤ◌
signed_run = refl
