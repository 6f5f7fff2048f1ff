-- ===== src/Codec/Compound.antt =====
-- The generic implementations of crates/stark-backend/src/codec.rs: slices, arrays, vectors, pairs
-- and options over element codecs.
use stark_backend.Prelude.{
  ℕ, zero, suc, Bool, true, false, List, [], ◌∷◌, Option, none, some, length,
}
use stark_backend.Prelude.Outcome.{ok}
use stark_backend.Codec.Bytes.{
  Writer, Reader, ◌⨾◌, ◌>>=◌, pure, encode_bool, encode_usize, decode_bool, decode_usize,
}

module _ {T : Type 0} where
  -- Each element in turn, with no length.
  unfoldable pub encode_iter : (T → Writer) → List T → Writer
  encode_iter enc [] = ok []
  encode_iter enc (x ∷ xs) = enc x ⨾ encode_iter enc xs

  -- The length, then each element.
  unfoldable pub encode_slice : (T → Writer) → List T → Writer
  encode_slice enc xs = encode_usize (length xs) ⨾ encode_iter enc xs

  -- `for _ in 0..len { vec.push(T::decode(reader)?) }`
  unfoldable pub decode_into_vec : Reader T → ℕ → Reader (List T)
  decode_into_vec dec zero = pure []
  decode_into_vec dec (suc n) = do x ← dec; xs ← decode_into_vec dec n; pure (x ∷ xs)

  unfoldable pub decode_vec : Reader T → Reader (List T)
  decode_vec dec = do len ← decode_usize; decode_into_vec dec len

  unfoldable pub encode_option : (T → Writer) → Option T → Writer
  encode_option enc none = encode_bool false
  encode_option enc (some x) = encode_bool true ⨾ enc x

  -- What follows the flag.
  abbrev decode_payload : Reader T → Bool → Reader (Option T)
  decode_payload dec true = do x ← dec; pure (some x)
  decode_payload dec false = pure none

  unfoldable pub decode_option : Reader T → Reader (Option T)
  decode_option dec = do is_some ← decode_bool; decode_payload dec is_some

module _ {S T : Type 0} where
  unfoldable pub encode_pair : (S → Writer) → (T → Writer) → S × T → Writer
  encode_pair enc_s enc_t p = enc_s p.0 ⨾ enc_t p.1

  unfoldable pub decode_pair : Reader S → Reader T → Reader (S × T)
  decode_pair dec_s dec_t = do s ← dec_s; t ← dec_t; pure (s, t)
