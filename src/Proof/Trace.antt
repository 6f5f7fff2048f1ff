-- ===== src/Proof/Trace.antt =====
-- `TraceVData` of crates/stark-backend/src/proof.rs, and the part of a proof that says which AIRs
-- are present: a bitmap of eight AIRs to a byte, and the data of those present.
use stark_backend.Prelude.{
  ℕ, zero, suc, ◌+◌, ◌*◌, ◌/◌, ◌%◌, ◌^◌, true, false, List, [], ◌∷◌, ◌++◌, Option, none, some,
  length, map, if◌then◌else◌, leb, ◌==◌,
}
use stark_backend.Codec.Bytes.{
  other, Writer, Reader, ◌⨾◌, ◌>>=◌, pure, fail, encode_u8, decode_u8, encode_usize, decode_usize,
}
use stark_backend.Codec.Compound.{encode_iter, decode_into_vec}
use stark_backend.Codec.Config.{Config, encode_digest_slice, decode_digest_vec}

module _ (c : Config) where
  pub record TraceVData : Type 0 where
    pub log_height : ℕ
    pub cached_commitments : List c.Digest

  unfoldable pub encode_vdata : TraceVData → Writer
  encode_vdata x = encode_usize x.log_height ⨾ encode_digest_slice c x.cached_commitments

  unfoldable pub decode_vdata : Reader TraceVData
  decode_vdata = do
    log_height ← decode_usize
    cached_commitments ← decode_digest_vec c
    pure (record { log_height = log_height; cached_commitments = cached_commitments })

  -- `slice::chunks(8)`.
  unfoldable pub chunks : List (Option TraceVData) → List (List (Option TraceVData))
  chunks [] = []
  chunks (x0 ∷ x1 ∷ x2 ∷ x3 ∷ x4 ∷ x5 ∷ x6 ∷ x7 ∷ xs) =
      (x0 ∷ x1 ∷ x2 ∷ x3 ∷ x4 ∷ x5 ∷ x6 ∷ x7 ∷ []) ∷ chunks xs
  chunks xs = xs ∷ []

  abbrev pub is_some : Option TraceVData → ℕ
  is_some none = 0
  is_some (some x) = 1

  -- The byte of a chunk: bit `i` for its element of index `i`. The bits are disjoint, so `|=` adds.
  unfoldable pub chunk_byte : List (Option TraceVData) → ℕ
  chunk_byte [] = 0
  chunk_byte (x ∷ xs) = is_some x + 2 * chunk_byte xs

  -- `iter().flatten()`
  unfoldable pub present : List (Option TraceVData) → List TraceVData
  present [] = []
  present (none ∷ xs) = present xs
  present (some x ∷ xs) = x ∷ present xs

  unfoldable pub encode_trace_vdata : List (Option TraceVData) → Writer
  encode_trace_vdata xs =
      encode_usize (length xs)
      ⨾ encode_iter encode_u8 (map chunk_byte (chunks xs))
      ⨾ encode_iter encode_vdata (present xs)

  -- The loop over the bits of `byte` from bit `i` on, `k` bits in all, with its `break`.
  unfoldable pub decode_bits :
      ℕ → ℕ → ℕ → ℕ → List (Option TraceVData) → Reader (List (Option TraceVData))
  decode_bits zero i byte num_airs vec = pure vec
  decode_bits (suc k) i byte num_airs vec = elim (leb num_airs (length vec)) [
    | true ↦ if byte / 2 ^ i == 0 then pure vec else fail other
    | false ↦ elim (byte / 2 ^ i % 2 == 0) [
      | true ↦ decode_bits k (i + 1) byte num_airs (vec ++ none ∷ [])
      | false ↦ do
        vdata ← decode_vdata
        decode_bits k (i + 1) byte num_airs (vec ++ some vdata ∷ [])
    ]
  ]

  unfoldable pub decode_bitmap :
      List ℕ → ℕ → List (Option TraceVData) → Reader (List (Option TraceVData))
  decode_bitmap [] num_airs vec = pure vec
  decode_bitmap (byte ∷ bitmap) num_airs vec = do
    vec' ← decode_bits 8 0 byte num_airs vec
    decode_bitmap bitmap num_airs vec'

  unfoldable pub decode_trace_vdata : Reader (List (Option TraceVData))
  decode_trace_vdata = do
    num_airs ← decode_usize
    bitmap ← decode_into_vec decode_u8 ((num_airs + 7) / 8)
    decode_bitmap bitmap num_airs []
