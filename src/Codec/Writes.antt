-- ===== src/Codec/Writes.antt =====
-- Writers that return, and what makes them: the encoders of crates/stark-backend/src/codec.rs fail
-- only on lengths from 2^32 on.
use stark_backend.Prelude.{ℕ, ◌^◌, ◌<◌, ◌≡◌, refl, List, [], ◌∷◌, ◌++◌, length, All, lt→ltb}
use stark_backend.Prelude.Outcome.{ok}
use stark_backend.Codec.Bytes.{Bytes, Writer, ◌⨾◌, encode_usize, encode_u32, encode_u8, to_le_bytes}
use stark_backend.Codec.Compound.{encode_iter, encode_slice}

abbrev pub Writes : Writer → Type 0
Writes w = (bytes : Bytes) × (w ≡ ok bytes)

-- A number that the encoding of a `usize` has room for.
abbrev pub Fits32 : ℕ → Type 0
Fits32 n = n < 2 ^ 32

pub Writes-⨾ : (w v : Writer) → Writes w → Writes v → Writes (w ⨾ v)
Writes-⨾ w v (a, e) (b, f) = (a ++ b, rw (e, f))

pub Writes-u8 : (n : ℕ) → Writes (encode_u8 n)
unfolding encode_u8
Writes-u8 n = (_, refl)

pub Writes-u32 : (n : ℕ) → Writes (encode_u32 n)
unfolding encode_u32
Writes-u32 n = (_, refl)

pub Writes-usize : (n : ℕ) → Fits32 n → Writes (encode_usize n)
unfolding encode_usize encode_u32
Writes-usize n h = (to_le_bytes n, rw (lt→ltb n (2 ^ 32) h))

module _ {T : Type 0} (enc : T → Writer) where
  pub Writes-iter : (xs : List T) → All (λ x. Writes (enc x)) xs → Writes (encode_iter enc xs)
  unfolding encode_iter
  Writes-iter [] a = ([], refl)
  Writes-iter (x ∷ xs) a = Writes-⨾ (enc x) (encode_iter enc xs) a.0 (Writes-iter xs a.1)

  pub Writes-slice :
      (xs : List T)
      → Fits32 (length xs)
      → All (λ x. Writes (enc x)) xs
      → Writes (encode_slice enc xs)
  unfolding encode_slice
  Writes-slice xs h a = Writes-⨾ _ _ (Writes-usize (length xs) h) (Writes-iter xs a)

  -- Where every element is written.
  module _ (total : (x : T) → Writes (enc x)) where
    pub Writes-each : (xs : List T) → All (λ x. Writes (enc x)) xs
    Writes-each [] = tt
    Writes-each (x ∷ xs) = (total x, Writes-each xs)

    pub Writes-all : (xs : List T) → Writes (encode_iter enc xs)
    Writes-all xs = Writes-iter xs (Writes-each xs)

    pub Writes-vec : (xs : List T) → Fits32 (length xs) → Writes (encode_slice enc xs)
    Writes-vec xs h = Writes-slice xs h (Writes-each xs)

    pub Writes-rows :
        (xs : List (List T))
        → All (λ ys. Fits32 (length ys)) xs
        → All (λ ys. Writes (encode_slice enc ys)) xs
    Writes-rows [] a = tt
    Writes-rows (ys ∷ xs) a = (Writes-vec ys a.0, Writes-rows xs a.1)
