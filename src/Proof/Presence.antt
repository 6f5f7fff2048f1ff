-- ===== src/Proof/Presence.antt =====
-- The bitmap of present AIRs, and the data behind it, read back.
use stark_backend.Prelude.{
  ℕ, zero, suc, ◌+◌, ◌/◌, ◌%◌, ◌^◌, ◌≤◌, ◌<◌, ◌≡◌, refl, sym, ap, ◌∙◌, List, [], ◌∷◌, ◌++◌, Option,
  none, some, length, map, le→leb, lt→leb_false, eq→==, ne→==, arith, append_assoc, append-nil,
  length-append, ◌⊎◌, inl, inr,
}
use stark_backend.Prelude.Outcome.{ok, err, panic}
use stark_backend.Codec.Bytes.{Writer, ◌⨾◌, ◌>>=◌, pure}
use stark_backend.Codec.Reads.{Reads, Reads-pure, Reads-bind, Reads-map, Reads-end}
use stark_backend.Codec.Compound.{encode_iter}
use stark_backend.Codec.RoundTrip.{usize-Reads, u8-Reads}
use stark_backend.Codec.Config.{Config, IsLawful, count-Reads, vec-Reads}
use stark_backend.Proof.Trace.{
  TraceVData, encode_vdata, decode_vdata, chunks, chunk_byte, present, encode_trace_vdata,
  decode_bits, decode_bitmap, decode_trace_vdata,
}
use native.Mathlib.Nat.{div-div-eq-div-mul, pow-suc}
use native.Mathlib.Numerals.{add-one}

module _ (c : Config) where
  length-chunks :
      (xs : List (Option (TraceVData c)))
      → length (map (chunk_byte c) (chunks c xs)) ≡ (length xs + 7) / 8
  unfolding chunks
  length-chunks [] = omega arith
  length-chunks (x0 ∷ x1 ∷ x2 ∷ x3 ∷ x4 ∷ x5 ∷ x6 ∷ x7 ∷ xs) = omega (arith, length-chunks xs)
  length-chunks _ = omega arith

⨾_assoc : (u v w : Writer) → ((u ⨾ v) ⨾ w) ≡ (u ⨾ (v ⨾ w))
⨾_assoc (ok a) (ok b) (ok d) = ap ok (append_assoc a b d)
⨾_assoc (ok a) (ok b) (err e) = refl
⨾_assoc (ok a) (ok b) panic = refl
⨾_assoc (ok a) (err e) w = refl
⨾_assoc (ok a) panic w = refl
⨾_assoc (err e) v w = refl
⨾_assoc panic v w = refl

ok_nil-⨾ : (w : Writer) → (ok [] ⨾ w) ≡ w
ok_nil-⨾ (ok a) = refl
ok_nil-⨾ (err e) = refl
ok_nil-⨾ panic = refl

shift : (b i : ℕ) → b / 2 ^ (i + 1) ≡ b / 2 ^ i / 2
shift b i = rw (add-one, pow-suc) (sym (div-div-eq-div-mul b (2 ^ i) 2))

module _ (c : Config) (h : IsLawful c) where
  vdata-Reads : (x : TraceVData c) → Reads (encode_vdata c x) (decode_vdata c) x
  unfolding encode_vdata decode_vdata
  vdata-Reads x =
      Reads-bind _ (usize-Reads x.log_height)
        (Reads-map _ (vec-Reads _ _ h.digest x.cached_commitments))

  encode_present-append :
      (xs ys : List (Option (TraceVData c)))
      → encode_iter (encode_vdata c) (present c (xs ++ ys)) ≡ (
          encode_iter (encode_vdata c) (present c xs) ⨾ encode_iter (encode_vdata c) (present c ys))
  unfolding encode_iter present
  encode_present-append [] ys = sym (ok_nil-⨾ _)
  encode_present-append (none ∷ xs) ys = encode_present-append xs ys
  encode_present-append (some x ∷ xs) ys =
      ap (◌⨾◌ (encode_vdata c x)) (encode_present-append xs ys)
      ∙ sym (⨾_assoc (encode_vdata c x) _ _)

  -- One round of the loop over bits, on each of its three ways.
  bits_done :
      (k i byte num : ℕ) (vec : List (Option (TraceVData c)))
      → num ≤ length vec
      → byte / 2 ^ i ≡ 0
      → decode_bits c (suc k) i byte num vec ≡ pure vec
  unfolding decode_bits
  bits_done k i byte num vec p e = rw (le→leb _ _ p, eq→== _ _ e, decode_bits)

  bits_absent :
      (k i byte num : ℕ) (vec : List (Option (TraceVData c)))
      → length vec < num
      → byte / 2 ^ i % 2 ≡ 0
      → decode_bits c (suc k) i byte num vec ≡ decode_bits c k (i + 1) byte num (vec ++ none ∷ [])
  unfolding decode_bits
  bits_absent k i byte num vec p e = rw (lt→leb_false _ _ p, eq→== _ _ e, decode_bits)

  bits_present :
      (k i byte num : ℕ) (vec : List (Option (TraceVData c)))
      → length vec < num
      → byte / 2 ^ i % 2 ≡ 1
      → decode_bits c (suc k) i byte num vec
        ≡ (decode_vdata c >>= λ vdata. decode_bits c k (i + 1) byte num (vec ++ some vdata ∷ []))
  unfolding decode_bits
  bits_present k i byte num vec p e =
      rw (lt→leb_false _ _ p, ne→== (byte / 2 ^ i % 2) 0 (omega arith), decode_bits)

  -- The bits of one byte, from bit `i` on, for the rest `xs` of its chunk.
  bits-Reads :
      (k i byte num : ℕ) (vec xs : List (Option (TraceVData c)))
      → byte / 2 ^ i ≡ chunk_byte c xs
      → length vec + length xs ≤ num
      → ((length xs ≡ k) ⊎ ((length xs ≤ k) × (length vec + length xs ≡ num)))
      → Reads
          (encode_iter (encode_vdata c) (present c xs))
          (decode_bits c k i byte num vec)
          (vec ++ xs)
  unfolding decode_bits encode_iter present chunk_byte
  bits-Reads zero i byte num vec [] e l s = rw append-nil (Reads-pure vec)
  bits-Reads zero i byte num vec (x ∷ xs) e l s = absurd (omega arith)
  bits-Reads (suc k) i byte num vec [] e l s =
      rw (append-nil, bits_done k i byte num vec (omega arith) e) (Reads-pure vec)
  bits-Reads (suc k) i byte num vec (none ∷ xs) e l s =
      rw
        (
          bits_absent k i byte num vec (omega arith) (omega arith),
          ← append_assoc vec (none ∷ []) xs,
        )
        (bits-Reads k (i + 1) byte num (vec ++ none ∷ []) xs (omega (arith, shift byte i))
          (omega (arith, length-append vec (none ∷ [])))
          (omega (arith, length-append vec (none ∷ []))))
  bits-Reads (suc k) i byte num vec (some x ∷ xs) e l s =
      rw
        (
          bits_present k i byte num vec (omega arith) (omega arith),
          ← append_assoc vec (some x ∷ []) xs,
        )
        (Reads-bind _ (vdata-Reads x) (
          bits-Reads k (i + 1) byte num (vec ++ some x ∷ []) xs (omega (arith, shift byte i))
            (omega (arith, length-append vec (some x ∷ [])))
            (omega (arith, length-append vec (some x ∷ [])))))

  bitmap-Reads :
      (num : ℕ) (vec xs : List (Option (TraceVData c)))
      → length vec + length xs ≡ num
      → Reads
          (encode_iter (encode_vdata c) (present c xs))
          (decode_bitmap c (map (chunk_byte c) (chunks c xs)) num vec)
          (vec ++ xs)
  unfolding chunks decode_bitmap
  bitmap-Reads num vec [] e = rw append-nil (unfold present encode_iter in Reads-pure vec)
  bitmap-Reads num vec (x0 ∷ x1 ∷ x2 ∷ x3 ∷ x4 ∷ x5 ∷ x6 ∷ x7 ∷ xs) e =
      let chunk : List (Option (TraceVData c)) = x0 ∷ x1 ∷ x2 ∷ x3 ∷ x4 ∷ x5 ∷ x6 ∷ x7 ∷ [] in
      rw (encode_present-append chunk xs, ← append_assoc vec chunk xs)
        (Reads-bind _ (bits-Reads 8 0 _ num vec chunk (omega arith) (omega arith) (inl refl))
          (bitmap-Reads num (vec ++ chunk) xs (omega (arith, length-append vec chunk))))
  bitmap-Reads num vec xs e =
      Reads-end _ (bits-Reads 8 0 _ num vec xs (omega arith) (omega arith) (inr (omega arith, e)))
        (λ rest. refl)

  pub trace_vdata-Reads :
      (xs : List (Option (TraceVData c)))
      → Reads (encode_trace_vdata c xs) (decode_trace_vdata c) xs
  unfolding encode_trace_vdata decode_trace_vdata
  trace_vdata-Reads xs = Reads-bind _ (usize-Reads (length xs)) (
      Reads-bind _ (count-Reads _ _ u8-Reads _ _ (length-chunks c xs))
        (bitmap-Reads (length xs) [] xs (omega arith)))
