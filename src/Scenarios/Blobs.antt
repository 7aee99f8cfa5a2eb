-- ===== src/Scenarios/Blobs.antt =====
-- The samples codec at concrete blobs.
use smokeng.Common.{ℕ, ◌≡◌, refl, List, [], ◌∷◌, arith}
use smokeng.Common.Int.{ℤ, pos, negsuc}
use smokeng.Common.{any, false}
use smokeng.Common.Text.{codes, same, fields, trim_space}
use smokeng.Series.{
  Selects, ipdv_send, server_processing, parse_selection, parse_selection-Distinct,
}
use smokeng.Common.Result.{ok, ◌>>=◌}
use smokeng.Enc.Varint.{uvarint}
use smokeng.Enc.Samples.{encode, decode, encode_signed, decode_signed}
use smokeng.Enc.RoundTrip.{IsSamples, decode-encode}
use smokeng.Enc.Decoding.{decode-IsSamples}
use smokeng.Enc.Signed.{decode_signed-encode_signed}

abbrev rtts : List ℕ
rtts = 812 ∷ 812 ∷ 40300 ∷ 4294967295 ∷ []

decode-encode_example : (do blob ← encode rtts; decode blob) ≡ ok rtts
decode-encode_example = decode-encode rtts (omega arith)

-- A version byte, 300 in two bytes, and a delta of 2.
abbrev blob : List ℕ
blob = 1 ∷ 172 ∷ 2 ∷ 2 ∷ []

decode-IsSamples_example : IsSamples (300 ∷ 302 ∷ [])
unfolding decode uvarint
decode-IsSamples_example = decode-IsSamples blob {samples = 300 ∷ 302 ∷ []} refl

abbrev variation : List ℤ
variation = negsuc 120 ∷ negsuc 3 ∷ pos 0 ∷ pos 95 ∷ []

decode_signed-encode_signed_example :
    (do blob ← encode_signed variation; decode_signed blob) ≡ ok variation
decode_signed-encode_signed_example = decode_signed-encode_signed variation (omega arith)

parse_selection-Distinct_example :
    Selects
      (trim_space (codes " ipdv_send server_processing "))
      (record { names = ipdv_send ∷ server_processing ∷ []; all = false })
unfolding parse_selection fields same trim_space any
parse_selection-Distinct_example =
    parse_selection-Distinct (codes " ipdv_send server_processing ")
      {s = record { names = ipdv_send ∷ server_processing ∷ []; all = false }} refl
