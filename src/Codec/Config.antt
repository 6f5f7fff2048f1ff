-- ===== src/Codec/Config.antt =====
-- The traits `EncodableConfig` and `DecodableConfig` of crates/stark-backend/src/codec.rs: a
-- protocol configuration's types, with a codec for each.
use stark_backend.Prelude.{ℕ, ◌≡◌, List, [], ◌∷◌, All, length}
use stark_backend.Codec.Bytes.{Writer, Reader}
use stark_backend.Codec.Reads.{Reads}
use stark_backend.Codec.Compound.{encode_iter, encode_slice, decode_into_vec, decode_vec}
use stark_backend.Codec.RoundTrip.{iter-Reads, slice-Reads}

pub record Config : Type 1 where
  pub F : Type 0
  pub EF : Type 0
  pub Digest : Type 0
  pub encode_base_field : F → Writer
  pub encode_extension_field : EF → Writer
  pub encode_digest : Digest → Writer
  pub decode_base_field : Reader F
  pub decode_extension_field : Reader EF
  pub decode_digest : Reader Digest

-- Each of the three readers undoes its writer.
pub record IsLawful (c : Config) : Type 0 where
  pub base : (x : c.F) → Reads (c.encode_base_field x) c.decode_base_field x
  pub ext : (x : c.EF) → Reads (c.encode_extension_field x) c.decode_extension_field x
  pub digest : (x : c.Digest) → Reads (c.encode_digest x) c.decode_digest x

-- The provided methods of the two traits, as they are used: element by element, and with a length.
module _ (c : Config) where
  abbrev pub encode_base_field_iter : List c.F → Writer
  encode_base_field_iter = encode_iter c.encode_base_field

  abbrev pub encode_extension_field_iter : List c.EF → Writer
  encode_extension_field_iter = encode_iter c.encode_extension_field

  abbrev pub encode_digest_iter : List c.Digest → Writer
  encode_digest_iter = encode_iter c.encode_digest

  abbrev pub encode_base_field_slice : List c.F → Writer
  encode_base_field_slice = encode_slice c.encode_base_field

  abbrev pub encode_extension_field_slice : List c.EF → Writer
  encode_extension_field_slice = encode_slice c.encode_extension_field

  abbrev pub encode_digest_slice : List c.Digest → Writer
  encode_digest_slice = encode_slice c.encode_digest

  abbrev pub decode_base_field_n : ℕ → Reader (List c.F)
  decode_base_field_n = decode_into_vec c.decode_base_field

  abbrev pub decode_extension_field_n : ℕ → Reader (List c.EF)
  decode_extension_field_n = decode_into_vec c.decode_extension_field

  abbrev pub decode_digest_n : ℕ → Reader (List c.Digest)
  decode_digest_n = decode_into_vec c.decode_digest

  abbrev pub decode_base_field_vec : Reader (List c.F)
  decode_base_field_vec = decode_vec c.decode_base_field

  abbrev pub decode_extension_field_vec : Reader (List c.EF)
  decode_extension_field_vec = decode_vec c.decode_extension_field

  abbrev pub decode_digest_vec : Reader (List c.Digest)
  decode_digest_vec = decode_vec c.decode_digest

-- The rules of Codec/RoundTrip for element codecs that undo each other on every value.
module _ {T : Type 0} (enc : T → Writer) (dec : Reader T) (h : (x : T) → Reads (enc x) dec x) where
  All-of : (xs : List T) → All (λ x. Reads (enc x) dec x) xs
  All-of [] = tt
  All-of (x ∷ xs) = (h x, All-of xs)

  -- Any number of elements, read back by their count.
  pub count-Reads :
      (n : ℕ) (xs : List T) → length xs ≡ n → Reads (encode_iter enc xs) (decode_into_vec dec n) xs
  count-Reads n xs e = rw (← e) (iter-Reads enc dec xs (All-of xs))

  pub vec-Reads : (xs : List T) → Reads (encode_slice enc xs) (decode_vec dec) xs
  vec-Reads xs = slice-Reads enc dec xs (All-of xs)
