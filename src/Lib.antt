-- ===== src/Lib.antt =====
-- The stark-backend repository: the core of a STARK backend (crates/stark-backend), its CPU and
-- CUDA provers, and their CUDA runtime. Modelled here are the parts that prover and verifier have to
-- agree on.
--
-- Parts, and how they interact. An AIR gives its constraints and interactions as trees of symbolic
-- expressions; key generation compiles them to one DAG of interned nodes, and prover and verifier
-- evaluate that DAG node by node. Prover and verifier draw all challenges from a Fiat-Shamir
-- transcript over a duplex sponge. The prover stacks the columns of the traces into one matrix and
-- commits to it with a Merkle tree, whose paths the verifier checks. What the prover has made is a `Proof`, which travels as bytes.
--
-- Files.
--   Codec: crates/stark-backend/src/codec.rs. `encode` returns the bytes that it appends, `decode`
--     takes the bytes left and returns a value and what is left (Bytes); compound types (Compound);
--     field elements (Field, Canonical); the configuration traits (Config). `Reads` (Reads,
--     RoundTrip) relates a writer and the reader that undoes it.
--   Proof: crates/stark-backend/src/proof.rs, a file for each part of a proof: Trace and Presence
--     (the bitmap of the AIRs present), Gkr, Batch, Stacking, Whir with WhirParts and WhirRead, and
--     Whole. Parts restates the readings for single parts; Writing
--     and Encodes say which proofs encode at all (Codec/Writes for single writers).
--   Transcript: crates/stark-backend/src/transcript/duplex_sponge.rs and traits.rs. The sponge
--     (Sponge, SpongeInvariant); a duplex with two buffers as its specification (Duplex,
--     DuplexRefinement); the log, the recorder, the validator and the transcript that is read from a
--     log (Log, LogExtend, RecorderLog, RecorderTotal, Replay); bits and proof of work (Pow).
--   Symbolic: crates/stark-backend/src/air_builders/symbolic/. Expressions and their evaluation
--     (Expr); the DAG builder and the evaluation of nodes (Dag, Eval); the builder's invariant
--     (Values), one step of it (Interning), simplification (Simplify), expressions (Compile);
--     `build_symbolic_constraints_dag` (Constraints, Sorting, Meaning), `max_rotation` (Rotation), and
--     the way back from a DAG to expressions (Expand, Conversion). New expressions are stored at
--     addresses that `fresh` gives out.
--   Poly: crates/stark-backend/src/poly_common.rs. Multilinear extensions and interpolation (Mle);
--     ring identities (Algebra); the weights of the points of the hypercube (Hypercube) and the
--     evaluation by folding (Folding).
--   Verifier: crates/stark-backend/src/verifier/fractional_sumcheck_gkr.rs. `verify_gkr` over any
--     transcript (Gkr); transcripts that do not panic (GkrRuns), the sumcheck of a round
--     (GkrSumcheck), all rounds (GkrLayers). The WHIR section of `verify_proof_shape`,
--     crates/stark-backend/src/verifier/proof_shape.rs, with the parameters of
--     crates/stark-backend/src/config.rs that it reads (WhirShape), its loops (WhirShapeRuns,
--     WhirShapeRounds), and what it establishes (WhirShapeLaws).
--   Stacked: crates/stark-backend/src/prover/stacked_pcs.rs and matrix.rs. The layout of the
--     columns (Layout); a column placed (Fitting), the loops (Placing), their result (Placement),
--     lookups (Lookup); matrices and views (Matrix), `stacked_matrix` and `mat_view` (Stacking); the
--     writes (Spread, Filling), what the traces hold (Reading), the sizes (Size), the result
--     (StackedMatrix), and the way back to the traces (View, TraceRoundTrip).
--   Merkle: the trees of crates/stark-backend/src/prover/stacked_pcs.rs, `tree_compress` of
--     crates/stark-backend/src/hasher.rs and `merkle_verify` of
--     crates/stark-backend/src/verifier/whir.rs (Tree); the digests by their place in the tree
--     (Nodes); queries (Opening); what a path binds (Binding).
--   Ring: the ring interface that symbolic expressions are evaluated in. Prelude: shared notation,
--     machine arithmetic (Machine), runs without a panic (Ends).
--   Tests: runs at concrete inputs.
--
-- Conventions. A `usize`, `u64`, `u32` or `u8` is a native natural number; where the code can
-- leave its range, the model says what happens there: `usize` values from 2^32 on do not encode;
-- in the codec of WHIR proofs, `merkle_depth -= 1` below zero and `1 << k_whir` from 64 on are
-- panics; in the layout, in the size of the stacked matrix and in the WHIR proof shape, a sum, a
-- product or a difference that leaves 64 bits and a shift by 64 or more are panics, as in builds
-- with overflow checks (Prelude/Machine); other powers of two are lengths of lists, or bounded by
-- what the code asserts. What counts the elements of a list fits in a `usize`, and a range of a
-- list whose end would overflow is out of range. A mutable receiver is passed and returned.
-- `Outcome` holds a value, an `Err` with its kind (messages are left out), or a panic. A hash map
-- is an association list. An `Arc` pointer is an address that an expression carries; `deref` says
-- what stands at an address. All loops are structural but those of Merkle trees, whose rounds,
-- layers and doublings run on fuel: the number of digests, more than the logarithm that they
-- need. `grind`, which searches in parallel, takes the order in which candidates are tried as an
-- argument. `Ends` (Prelude/Ends) says that code does not panic and what holds of the value that
-- it returns.
--
-- Parameters. The fields, extensions and permutations of the Plonky3 crates enter as records of
-- operations (PrimeField32, ExtensionField, PrimeField64, Ring, FieldOps) and as a function on
-- states, with their documented laws as hypotheses: canonical representatives below the order,
-- elements given by their coefficients, the laws of a commutative ring, an embedding that is a
-- map of rings, a permutation that keeps the width, inverses of what is not zero and halves where
-- 2 is not zero (both operations panic otherwise), the logarithm of a power of two. The hash
-- functions of `MerkleHasher` are parameters without laws.
--
-- Not modelled: the provers, the verifier but for its GKR part, its Merkle paths and the shape of
-- WHIR proofs, the univariate skip domain and Reed-Solomon codes, key generation, soundness
-- calculations, the derive macros, the CUDA code and its memory manager;
-- `String` codecs, capacity hints (`vec_with_capped_capacity`) and debug assertions of the encoder;
-- `observe_commit` and accessors of the transcripts; operators on expressions.
pub mod Prelude
pub mod Codec
pub mod Proof
pub mod Transcript
pub mod Ring
pub mod Symbolic
pub mod Poly
pub mod Stacked
pub mod Merkle
pub mod Verifier
pub mod Tests
