-- ===== src/Tests/CodecTests.antt =====
-- The field codecs on the field of two elements, and pairs of them as an extension.
use stark_backend.Prelude.{
  ℕ, zero, suc, ◌<◌, ◌≡◌, refl, Bool, true, false, List, [], ◌∷◌, ◌++◌, Option, none, some, ◌==◌,
  not, arith,
}
use stark_backend.Prelude.Outcome.{ok}
use stark_backend.Codec.Bytes.{Bytes, read_exact}
use stark_backend.Codec.Compound.{encode_iter}
use stark_backend.Codec.Field.{
  PrimeField32, IsPrimeField32, ExtensionField, IsExtensionField, encode_prime_field32,
  decode_prime_field32, encode_extension_field32, decode_extension_field32,
}
use stark_backend.Codec.Canonical.{decode_prime_field32_canonical, decode-encode_extension_field32}

abbrev number : Bool → ℕ
number true = 1
number false = 0

abbrev two : PrimeField32
two = record { F = Bool; order_u32 = 2; as_canonical_u32 = number; from_u32 = λ n. not (n == 0) }

number-lt : (b : Bool) → number b < 2
number-lt true = omega arith
number-lt false = omega arith

from-number : (b : Bool) → two.from_u32 (number b) ≡ b
from-number true = refl
from-number false = refl

number-from : (v : ℕ) → v < 2 → number (two.from_u32 v) ≡ v
number-from zero h = refl
number-from (suc zero) h = refl
number-from (suc (suc v)) h = absurd (omega arith)

two-IsPrimeField32 : IsPrimeField32 two
two-IsPrimeField32 = record {
  order-le = omega arith;
  canonical-lt = number-lt;
  from-canonical = from-number;
  canonical-from = number-from;
}

abbrev pair_of : List Bool → Option (Bool × Bool)
pair_of (a ∷ b ∷ []) = some (a, b)
pair_of _ = none

abbrev four : ExtensionField two
four = record {
  EF = Bool × Bool;
  dimension = 2;
  as_basis_coefficients = λ p. p.0 ∷ p.1 ∷ [];
  from_basis_coefficients = pair_of;
}

four-IsExtensionField : IsExtensionField two four
four-IsExtensionField = record { length-coefficients = λ x. refl; from-coefficients = λ x. refl }

decode_prime_field32_canonical_example :
    (front : Bytes) × (encode_prime_field32 two true ≡ ok front)
    × ((1 ∷ 0 ∷ 0 ∷ 0 ∷ 9 ∷ []) ≡ front ++ 9 ∷ [])
unfolding decode_prime_field32 read_exact
decode_prime_field32_canonical_example =
    decode_prime_field32_canonical two two-IsPrimeField32 (1 ∷ 0 ∷ 0 ∷ 0 ∷ 9 ∷ []) (9 ∷ []) true
      (omega arith, (omega arith, (omega arith, (omega arith, (omega arith, tt))))) refl

decode-encode_extension_field32_example :
    decode_extension_field32 two four (0 ∷ 0 ∷ 0 ∷ 0 ∷ 1 ∷ 0 ∷ 0 ∷ 0 ∷ 7 ∷ [])
    ≡ ok ((false, true), 7 ∷ [])
unfolding encode_extension_field32 encode_iter encode_prime_field32
decode-encode_extension_field32_example =
    decode-encode_extension_field32 two two-IsPrimeField32 four four-IsExtensionField (false, true)
      (0 ∷ 0 ∷ 0 ∷ 0 ∷ 1 ∷ 0 ∷ 0 ∷ 0 ∷ []) (7 ∷ []) refl
