-- ===== src/Codec/RoundTrip.antt =====
-- What the codecs of codec.rs write is what they read.
use stark_backend.Prelude.{
  ℕ, ◌^◌, ◌<◌, ◌≡◌, refl, Bool, true, false, List, [], ◌∷◌, Option, none, some, length, All, ltb,
  ltb→lt, Bool-cases, inl, inr, arith,
}
use stark_backend.Codec.Bytes.{
  other, Writer, Reader, read_exact, encode_bool, encode_u8, encode_u32, encode_usize, decode_bool,
  decode_u8, decode_u32, decode_usize, to_le_bytes, from_le_bytes,
}
use stark_backend.Codec.Reads.{Reads, Reads-pure, Reads-bind, Reads-map, Reads-end, Reads-err}
use stark_backend.Codec.Compound.{
  encode_iter, encode_slice, decode_into_vec, decode_vec, encode_option, decode_option, encode_pair,
  decode_pair,
}

pub bool-Reads : (b : Bool) → Reads (encode_bool b) decode_bool b
unfolding encode_bool decode_bool read_exact
bool-Reads true = record { reads = λ bs rest h. ground arith }
bool-Reads false = record { reads = λ bs rest h. ground arith }

pub u8-Reads : (x : ℕ) → Reads (encode_u8 x) decode_u8 x
unfolding encode_u8 decode_u8 read_exact
u8-Reads x = record { reads = λ bs rest h. ground arith }

-- The four bytes of a `u32` stand for it.
pub from_le_bytes-to_le_bytes : (x : ℕ) → x < 2 ^ 32 → from_le_bytes (to_le_bytes x) ≡ x
from_le_bytes-to_le_bytes x h = omega arith

pub u32-Reads : (x : ℕ) → x < 2 ^ 32 → Reads (encode_u32 x) decode_u32 x
unfolding encode_u32 decode_u32 read_exact
u32-Reads x h = record { reads = λ bs rest e. ground (arith, from_le_bytes-to_le_bytes x h) }

pub usize-Reads : (x : ℕ) → Reads (encode_usize x) decode_usize x
unfolding encode_usize decode_usize
usize-Reads x = elim (Bool-cases (ltb x (2 ^ 32))) [
  | inl small ↦ rw small (Reads-map (λ v. v) (u32-Reads x (ltb→lt _ _ small)))
  | inr big ↦ rw big (Reads-err other)
]

module _ {T : Type 0} (enc : T → Writer) (dec : Reader T) where
  pub iter-Reads :
      (xs : List T)
      → All (λ x. Reads (enc x) dec x) xs
      → Reads (encode_iter enc xs) (decode_into_vec dec (length xs)) xs
  unfolding encode_iter decode_into_vec
  iter-Reads [] h = Reads-pure []
  iter-Reads (x ∷ xs) h = Reads-bind _ h.0 (Reads-map (◌∷◌ x) (iter-Reads xs h.1))

  pub slice-Reads :
      (xs : List T)
      → All (λ x. Reads (enc x) dec x) xs
      → Reads (encode_slice enc xs) (decode_vec dec) xs
  unfolding encode_slice decode_vec
  slice-Reads xs h = Reads-bind _ (usize-Reads (length xs)) (iter-Reads xs h)

  pub option-Reads :
      (o : Option T)
      → ((x : T) → o ≡ some x → Reads (enc x) dec x)
      → Reads (encode_option enc o) (decode_option dec) o
  unfolding encode_option decode_option
  option-Reads none h = Reads-end _ (bool-Reads false) (λ rest. refl)
  option-Reads (some x) h = Reads-bind _ (bool-Reads true) (Reads-map some (h x refl))

module _ {S T : Type 0} (enc_s : S → Writer) (dec_s : Reader S) (enc_t : T → Writer)
    (dec_t : Reader T) where
  pub pair-Reads :
      (p : S × T)
      → Reads (enc_s p.0) dec_s p.0
      → Reads (enc_t p.1) dec_t p.1
      → Reads (encode_pair enc_s enc_t p) (decode_pair dec_s dec_t) p
  unfolding encode_pair decode_pair
  pair-Reads p hs ht = Reads-bind _ hs (Reads-map (λ t. (p.0, t)) ht)
