-- ===== src/Codec/Canonical.antt =====
-- What a field decoder accepts: exactly the bytes that the encoder writes.
use stark_backend.Prelude.{ℕ, ◌<◌, ◌≡◌, refl, [], ◌∷◌, ◌++◌, All, arith}
use stark_backend.Prelude.Outcome.{ok}
use stark_backend.Codec.Bytes.{Bytes, read_exact, to_le_bytes, from_le_bytes}
use stark_backend.Codec.Field.{
  PrimeField32, IsPrimeField32, ExtensionField, IsExtensionField, encode_prime_field32,
  decode_prime_field32, encode_extension_field32, decode_extension_field32, extension_field32-Reads,
}

abbrev pub IsByte : ℕ → Type 0
IsByte b = b < 256

to_le_bytes-from_le_bytes :
    (a b c d : ℕ)
    → a < 256
    → b < 256
    → c < 256
    → d < 256
    → to_le_bytes (from_le_bytes (a ∷ b ∷ c ∷ d ∷ [])) ≡ a ∷ b ∷ c ∷ d ∷ []
to_le_bytes-from_le_bytes a b c d ha hb hc hd = ground arith

module _ (p : PrimeField32) (h : IsPrimeField32 p) where
  -- A field element has one encoding: bytes, each below 256, that decode to `x` are what `x` encodes to
  -- and then what is left of them, in a field of at most 2^32 elements that correspond to their canonical
  -- representatives, the numbers below the order.
  pub decode_prime_field32_canonical :
      (bs rest : Bytes) (x : p.F)
      → All IsByte bs
      → decode_prime_field32 p bs ≡ ok (x, rest)
      → (front : Bytes) × (encode_prime_field32 p x ≡ ok front) × (bs ≡ front ++ rest)
  unfolding encode_prime_field32 decode_prime_field32 read_exact
  decode_prime_field32_canonical [] rest x hb e = cc
  decode_prime_field32_canonical (a ∷ []) rest x hb e = cc
  decode_prime_field32_canonical (a ∷ b ∷ []) rest x hb e = cc
  decode_prime_field32_canonical (a ∷ b ∷ c ∷ []) rest x hb e = cc
  decode_prime_field32_canonical (a ∷ b ∷ c ∷ d ∷ bs) rest x hb e =
      let v : ℕ = from_le_bytes (a ∷ b ∷ c ∷ d ∷ []) in
      (
        to_le_bytes (p.as_canonical_u32 x),
        refl,
        ground (
          arith,
          h.canonical-from v,
          to_le_bytes-from_le_bytes a b c d hb.0 hb.1.0 hb.1.1.0 hb.1.1.1.0,
        ),
      )

module _ (p : PrimeField32) (h : IsPrimeField32 p) (e : ExtensionField p)
    (he : IsExtensionField p e) where
  -- An extension element is read back from what is written of it, and what follows is left, over a
  -- field of at most 2^32 elements that correspond to their canonical representatives, the numbers below
  -- the order, and in an extension whose elements have as many coefficients as its dimension and are
  -- given by them.
  pub decode-encode_extension_field32 :
      (x : e.EF) (bytes rest : Bytes)
      → encode_extension_field32 p e x ≡ ok bytes
      → decode_extension_field32 p e (bytes ++ rest) ≡ ok (x, rest)
  decode-encode_extension_field32 x bytes rest w =
      (extension_field32-Reads p h e he x).reads bytes rest w
