-- ===== src/Enc/Varint.antt =====
-- Go's encoding/binary as enc.go uses it: `PutUvarint`, `Uvarint`, and the zig-zag `PutVarint`,
-- `Varint`. The shift `s` of the source is kept as its weight, `w = 2^s`.
use smokeng.Common.{
  ℕ, zero, suc, ◌+◌, ◌*◌, ◌/◌, ◌%◌, ◌^◌, ◌<◌, ◌≡◌, refl, ap, Option, none, some, List, [], ◌∷◌,
  ◌++◌, arith, ltb, leb, ◌==◌, if◌then◌else◌, length,
}
use native.Mathlib.Nat.{pow-suc}
use mathlib.Core.Bool.{◌&&◌}

-- `for x >= 0x80 { buf[i] = byte(x) | 0x80; x >>= 7 }`, then the last byte. A `uint64` takes ten
-- rounds at most.
unfoldable pub uvarint_bytes : ℕ → ℕ → List ℕ
uvarint_bytes zero x = []
uvarint_bytes (suc f) x =
    let more = (x % 128 + 128) ∷ uvarint_bytes f (x / 128) in if leb 128 x then more else x ∷ []

unfoldable pub put_uvarint : ℕ → List ℕ
unfolding uvarint_bytes
put_uvarint x = uvarint_bytes 10 x

-- The value and what follows it; `none` stands for a count that is not positive: the bytes end too
-- soon, or the value does not fit 64 bits.
unfoldable pub uvarint_from : ℕ → ℕ → ℕ → List ℕ → Option (ℕ × List ℕ)
uvarint_from i w x [] = none
uvarint_from i w x (b ∷ buf) =
    let more = uvarint_from (i + 1) (w * 128) (x + b % 128 * w) buf in
    if i == 10
    then none
    else if ltb b 128
    then (if (i == 9) && ltb 1 b then none else some (x + b * w, buf))
    else more

unfoldable pub uvarint : List ℕ → Option (ℕ × List ℕ)
unfolding uvarint_from
uvarint buf = uvarint_from 0 1 0 buf

pub uvarint_run : uvarint (put_uvarint 300 ++ 7 ∷ []) ≡ some (300, 7 ∷ [])
unfolding uvarint put_uvarint
uvarint_run = refl

regroup : (v w x : ℕ) → x + (v % 128 + 128) % 128 * w + v / 128 * (w * 128) ≡ x + v * w
regroup v w x =
    let low : (v % 128 + 128) % 128 ≡ v % 128 = omega arith in
    let split : v ≡ 128 * (v / 128) + v % 128 = omega arith in
    omega (arith, ap (λ (t : ℕ). t * w) low, ap (λ (t : ℕ). t * w) split)

-- A value below 128^(k+1) is written in at most k + 1 bytes and read back, whatever follows.
pub uvarint_from-bytes :
    (k f i w x v : ℕ) (rest : List ℕ)
    → v < 128 * 128 ^ k
    → k < f
    → i + k < 9
    → uvarint_from i w x (uvarint_bytes f v ++ rest) ≡ some (x + v * w, rest)
unfolding uvarint_from uvarint_bytes
uvarint_from-bytes k zero i w x v rest hv hk hi = absurd (omega arith)
uvarint_from-bytes zero (suc f) i w x v rest hv hk hi = ground arith
uvarint_from-bytes (suc k) (suc f) i w x v rest hv hk hi =
    let below : v / 128 < 128 * 128 ^ k = omega (arith, pow-suc 128 k) in
    ground (
      arith,
      regroup v w x,
      uvarint_from-bytes k f (i + 1) (w * 128) (x + (v % 128 + 128) % 128 * w) (v / 128) rest below
          (omega arith) (omega arith),
    )

-- Reading takes at least one byte.
pub length-uvarint_from :
    (i w x : ℕ) (buf : List ℕ) {v : ℕ} {rest : List ℕ}
    → uvarint_from i w x buf ≡ some (v, rest)
    → length rest < length buf
unfolding uvarint_from
length-uvarint_from i w x [] h = cc
length-uvarint_from i w x (b ∷ buf) {v} {rest} h =
    ground
      (arith, length-uvarint_from (i + 1) (w * 128) (x + b % 128 * w) buf {v = v} {rest = rest})

pub length-uvarint :
    (buf : List ℕ) {v : ℕ} {rest : List ℕ} → uvarint buf ≡ some (v, rest) → length rest < length buf
unfolding uvarint
length-uvarint buf h = length-uvarint_from 0 1 0 buf h

-- How many varints the bytes hold: each ends at the first byte below 0x80.
unfoldable pub count_varints : List ℕ → ℕ
count_varints [] = 0
count_varints (c ∷ b) = let n = count_varints b in if ltb c 128 then suc n else n

count_varints-uvarint_from :
    (i w x : ℕ) (buf : List ℕ) {v : ℕ} {rest : List ℕ}
    → uvarint_from i w x buf ≡ some (v, rest)
    → count_varints buf ≡ suc (count_varints rest)
unfolding uvarint_from count_varints
count_varints-uvarint_from i w x [] h = cc
count_varints-uvarint_from i w x (b ∷ buf) {v} {rest} h = ground (
  arith,
  count_varints-uvarint_from (i + 1) (w * 128) (x + b % 128 * w) buf {v = v} {rest = rest},
)

pub count_varints-uvarint :
    (buf : List ℕ) {v : ℕ} {rest : List ℕ}
    → uvarint buf ≡ some (v, rest)
    → count_varints buf ≡ suc (count_varints rest)
unfolding uvarint
count_varints-uvarint buf h = count_varints-uvarint_from 0 1 0 buf h
