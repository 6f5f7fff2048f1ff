-- ===== src/Tests/TranscriptTests.antt =====
-- The transcripts over a small permutation of a state of three numbers, of which two are the rate.
use stark_backend.Prelude.{
  ℕ, ◌+◌, ◌^◌, ◌<◌, ◌≡◌, refl, Bool, true, false, List, [], ◌∷◌, ◌++◌, length, length-append, ◌==◌,
  ==_refl, arith,
}
use stark_backend.Prelude.Outcome.{ok}
use stark_backend.Transcript.Sponge.{DuplexSponge, new_sponge, absorb, squeeze, ready}
use stark_backend.Transcript.SpongeInvariant.{
  IsValid, new_sponge-IsValid, absorb-IsValid, squeeze-IsValid,
}
use stark_backend.Transcript.Duplex.{Op, observe, sample, run_sponge, run_duplex}
use stark_backend.Transcript.DuplexRefinement.{run_sponge-run_duplex}
use stark_backend.Transcript.Log.{
  Transcript, run_ops, recorder_transcript, readonly_transcript, validator_transcript, new_recorder,
  recorder_observe, recorder_sample, push_observe, push_sample, push_perm_result, Recorder,
}
use stark_backend.Transcript.RecorderTotal.{recorder_total}
use stark_backend.Transcript.Replay.{readonly-recorder, validator-recorder}
use stark_backend.Transcript.Pow.{
  PrimeField64, sample_bits, check_witness, grind_witness, find_any, search_witness, sample_bits-lt,
  check_witness-grind_witness, grind_witness_total,
}

-- Turns the state and counts up.
abbrev turn : List ℕ → List ℕ
turn [] = []
turn (x ∷ xs) = xs ++ (x + 1) ∷ []

length-turn : (xs : List ℕ) → length (turn xs) ≡ length xs
length-turn [] = refl
length-turn (x ∷ xs) = omega (arith, length-append xs ((x + 1) ∷ []))

abbrev ops : List (Op ℕ)
ops = observe 5 ∷ sample ∷ observe 6 ∷ observe 7 ∷ sample ∷ sample ∷ sample ∷ []

absorb-IsValid_example :
    (s : DuplexSponge ℕ) × (absorb turn 2 (new_sponge 0 3) 5 ≡ ok s) × IsValid 2 3 s
absorb-IsValid_example =
    absorb-IsValid turn 2 3 (omega arith) (omega arith) length-turn (new_sponge 0 3) 5
      (new_sponge-IsValid turn 2 3 (omega arith) (omega arith) length-turn 0)

squeeze-IsValid_example :
    (s : DuplexSponge ℕ) × (x : ℕ) × (squeeze turn 2 (new_sponge 0 3) ≡ ok (s, x)) × IsValid 2 3 s
squeeze-IsValid_example =
    squeeze-IsValid turn 2 3 (omega arith) (omega arith) length-turn (new_sponge 0 3)
      (new_sponge-IsValid turn 2 3 (omega arith) (omega arith) length-turn 0)

run_sponge-run_duplex_example :
    (xs : List ℕ) × (run_sponge turn 2 (new_sponge 0 3) ops ≡ ok xs)
    × (run_duplex turn 2 (record { core = 0 ∷ 0 ∷ 0 ∷ []; inputs = []; outputs = [] }) ops ≡ ok xs)
run_sponge-run_duplex_example =
    run_sponge-run_duplex turn 2 3 (omega arith) (omega arith) length-turn 0 ops

abbrev recorded : Recorder ℕ
recorded = record {
  inner = record { state = 6 ∷ 7 ∷ 8 ∷ []; absorb_idx = 0; sample_idx = 1; last_op_perm = true };
  log = record {
    values = 5 ∷ 0 ∷ 6 ∷ 7 ∷ 6 ∷ 7 ∷ 7 ∷ [];
    is_sample = false ∷ true ∷ false ∷ false ∷ true ∷ true ∷ true ∷ [];
    perm_results = (0 ∷ 0 ∷ 0 ∷ []) ∷ (0 ∷ 0 ∷ 6 ∷ []) ∷ (7 ∷ 6 ∷ 7 ∷ []) ∷ (6 ∷ 7 ∷ 8 ∷ []) ∷ [];
  };
}

abbrev samples : List ℕ
samples = 0 ∷ 6 ∷ 7 ∷ 7 ∷ []

ops-recorded :
    run_ops (recorder_transcript turn 2) (new_recorder turn 2 0 3) ops ≡ ok (recorded, samples)
unfolding run_ops new_recorder recorder_observe recorder_sample push_observe push_sample
    push_perm_result new_sponge absorb squeeze ready
ops-recorded = refl

readonly-recorder_example :
    run_ops (readonly_transcript ◌==◌) (record { log = recorded.log; position = 0 }) ops
    ≡ ok (record { log = recorded.log; position = 7 }, samples)
readonly-recorder_example =
    readonly-recorder turn 2 3 0 ◌==◌ ==_refl ops recorded samples ops-recorded

validator-recorder_example :
    run_ops
      (validator_transcript turn 2 ◌==◌)
      (record { recorder = new_recorder turn 2 0 3; idx = 0; expected = recorded.log })
      ops
    ≡ ok (record { recorder = recorded; idx = 7; expected = recorded.log }, samples)
validator-recorder_example =
    validator-recorder turn 2 3 0 ◌==◌ ==_refl ops recorded samples ops-recorded

-- A transcript that adds what it observes and samples the sum.
abbrev adding : Transcript ℕ
adding = record { State = ℕ; observe_value = λ s x. ok (s + x); sample_value = λ s. ok (s + 1, s) }

abbrev numbers : PrimeField64 ℕ
numbers = record { order_u64 = 101; as_canonical_u64 = λ x. x; from_u64 = λ x. x }

sample_bits-lt_example : 2 < 2 ^ 2
unfolding sample_bits
sample_bits-lt_example = sample_bits-lt numbers adding 6 7 2 2 refl

check_witness-grind_witness_example : check_witness numbers adding 1 2 3 ≡ ok (5, true)
unfolding grind_witness search_witness find_any check_witness sample_bits
check_witness-grind_witness_example =
    check_witness-grind_witness numbers adding 1 5 2 (1 ∷ 2 ∷ 3 ∷ []) 0 3 refl

checks_total : (w : ℕ) → (q : ℕ × Bool) × (check_witness numbers adding 1 2 w ≡ ok q)
unfolding check_witness sample_bits
checks_total w = (_, refl)

checks_three : check_witness numbers adding 1 2 (numbers.from_u64 3) ≡ ok (5, true)
unfolding check_witness sample_bits
checks_three = refl

grind_witness_total_example :
    (q : ℕ × ℕ) × (grind_witness numbers adding 1 2 (1 ∷ 2 ∷ 3 ∷ 4 ∷ []) 0 ≡ ok q)
grind_witness_total_example =
    grind_witness_total numbers adding 1 2 (1 ∷ 2 ∷ []) (4 ∷ []) 3 0 5 (omega arith) (omega arith)
      checks_total checks_three

recorder_total_example :
    (q : Recorder ℕ × List ℕ) × (run_ops (recorder_transcript turn 2) (new_recorder turn 2 0 3) ops
      ≡ ok q)
    × IsValid 2 3 q.0.inner
recorder_total_example = recorder_total turn 2 3 (omega arith) (omega arith) length-turn 0 ops
