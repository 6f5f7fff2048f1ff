-- ===== src/Codec/Field.antt =====
-- The field codecs of crates/stark-backend/src/codec.rs. The fields themselves are those of the
-- `p3-field` crate, and enter as parameters with the documented behaviour that the codec rests on.
use stark_backend.Prelude.{
  ℕ, ◌^◌, ◌≤◌, ◌<◌, ◌≡◌, List, [], ◌∷◌, Option, none, some, length, All, ltb, if◌then◌else◌, arith,
}
use stark_backend.Prelude.Outcome.{ok}
use stark_backend.Codec.Bytes.{
  other, Writer, Reader, ◌>>=◌, pure, fail, read_exact, to_le_bytes, from_le_bytes,
}
use stark_backend.Codec.Reads.{Reads, Reads-end}
use stark_backend.Codec.Compound.{encode_iter, decode_into_vec}
use stark_backend.Codec.RoundTrip.{from_le_bytes-to_le_bytes, iter-Reads}

-- `p3_field::PrimeField32`.
pub record PrimeField32 : Type 1 where
  pub F : Type 0
  pub order_u32 : ℕ
  pub as_canonical_u32 : F → ℕ
  pub from_u32 : ℕ → F

-- Elements and their canonical representatives below the order correspond.
pub record IsPrimeField32 (p : PrimeField32) : Type 0 where
  pub order-le : p.order_u32 ≤ 2 ^ 32
  pub canonical-lt : (x : p.F) → p.as_canonical_u32 x < p.order_u32
  pub from-canonical : (x : p.F) → p.from_u32 (p.as_canonical_u32 x) ≡ x
  pub canonical-from : (v : ℕ) → v < p.order_u32 → p.as_canonical_u32 (p.from_u32 v) ≡ v

-- `p3_field::BasedVectorSpace` over such a field.
pub record ExtensionField (p : PrimeField32) : Type 1 where
  pub EF : Type 0
  pub dimension : ℕ
  pub as_basis_coefficients : EF → List p.F
  pub from_basis_coefficients : List p.F → Option EF

pub record IsExtensionField (p : PrimeField32) (e : ExtensionField p) : Type 0 where
  pub length-coefficients : (x : e.EF) → length (e.as_basis_coefficients x) ≡ e.dimension
  pub from-coefficients :
      (x : e.EF) → e.from_basis_coefficients (e.as_basis_coefficients x) ≡ some x

module _ (p : PrimeField32) where
  open p use {F, order_u32, as_canonical_u32, from_u32}

  unfoldable pub encode_prime_field32 : F → Writer
  encode_prime_field32 val = ok (to_le_bytes (as_canonical_u32 val))

  unfoldable pub decode_prime_field32 : Reader F
  decode_prime_field32 = do
    bytes ← read_exact 4
    if ltb (from_le_bytes bytes) order_u32
        then pure (from_u32 (from_le_bytes bytes))
        else fail other

module _ (p : PrimeField32) (e : ExtensionField p) where
  open e use {EF, dimension, as_basis_coefficients, from_basis_coefficients}

  unfoldable pub encode_extension_field32 : EF → Writer
  encode_extension_field32 val = encode_iter (encode_prime_field32 p) (as_basis_coefficients val)

  abbrev or_fail : Option EF → Reader EF
  or_fail none = fail other
  or_fail (some x) = pure x

  unfoldable pub decode_extension_field32 : Reader EF
  decode_extension_field32 = do
    base_vec ← decode_into_vec (decode_prime_field32 p) dimension
    or_fail (from_basis_coefficients base_vec)

module _ (p : PrimeField32) (h : IsPrimeField32 p) where
  pub prime_field32-Reads : (x : p.F) → Reads (encode_prime_field32 p x) (decode_prime_field32 p) x
  unfolding encode_prime_field32 decode_prime_field32 read_exact
  prime_field32-Reads x = record {
    reads = λ bs rest w. ground (
      arith,
      h.order-le,
      h.canonical-lt x,
      h.from-canonical x,
      from_le_bytes-to_le_bytes (p.as_canonical_u32 x),
    );
  }

module _ (p : PrimeField32) (h : IsPrimeField32 p) (e : ExtensionField p)
    (he : IsExtensionField p e) where
  All-base :
      (xs : List p.F) → All (λ x. Reads (encode_prime_field32 p x) (decode_prime_field32 p) x) xs
  All-base [] = tt
  All-base (x ∷ xs) = (prime_field32-Reads p h x, All-base xs)

  pub extension_field32-Reads :
      (x : e.EF) → Reads (encode_extension_field32 p e x) (decode_extension_field32 p e) x
  unfolding encode_extension_field32 decode_extension_field32
  extension_field32-Reads x = rw (← he.length-coefficients x) (
      Reads-end _
        (iter-Reads (encode_prime_field32 p) (decode_prime_field32 p) (e.as_basis_coefficients x)
          (All-base (e.as_basis_coefficients x)))
        (λ rest. rw (he.from-coefficients x)))
