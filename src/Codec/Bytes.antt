-- ===== src/Codec/Bytes.antt =====
-- Writers and readers of bytes, and the basic types of crates/stark-backend/src/codec.rs.
-- `encode` returns the bytes that it appends to the writer, a `Vec<u8>`; `decode` takes what is
-- left of its reader, a `Cursor`, and returns what is left after it.
use stark_backend.Prelude.{
  ℕ, zero, suc, ◌+◌, ◌*◌, ◌/◌, ◌%◌, ◌^◌, Bool, List, [], ◌∷◌, ◌++◌, if◌then◌else◌, ltb, ◌==◌, not,
}
use stark_backend.Prelude.Outcome.{Outcome, ok, err, panic, ◌>>=◌ as bind}

abbrev pub Bytes : Type 0
Bytes = List ℕ

pub data IoError : Type 0 where
  unexpected_eof other invalid_data : IoError

abbrev pub Writer : Type 0
Writer = Outcome IoError Bytes

abbrev pub Reader : Type 0 → Type 0
Reader A = Bytes → Outcome IoError (A × Bytes)

-- One write after another: an error of the first ends the encoding.
infixr 6 ◌⨾◌
abbrev pub ◌⨾◌ : Writer → Writer → Writer
ok a ⨾ ok b = ok (a ++ b)
ok a ⨾ err e = err e
ok a ⨾ panic = panic
err e ⨾ w = err e
panic ⨾ w = panic

infixl 5 ◌>>=◌
abbrev pub ◌>>=◌ : {A B : Type 0} → Reader A → (A → Reader B) → Reader B
◌>>=◌ r f bs = bind (r bs) (λ p. f p.0 p.1)

abbrev pub pure : {A : Type 0} → A → Reader A
pure a bs = ok (a, bs)

abbrev pub fail : {A : Type 0} → IoError → Reader A
fail e bs = err e

-- `Read::read_exact` into a buffer of `n` bytes.
unfoldable pub read_exact : ℕ → Reader Bytes
read_exact zero bs = ok ([], bs)
read_exact (suc n) [] = err unexpected_eof
read_exact (suc n) (b ∷ bs) = bind (read_exact n bs) (λ p. ok (b ∷ p.0, p.1))

-- `u32::to_le_bytes` and `u32::from_le_bytes`.
abbrev pub to_le_bytes : ℕ → Bytes
to_le_bytes x = (x % 256) ∷ (x / 256 % 256) ∷ (x / 65536 % 256) ∷ (x / 16777216 % 256) ∷ []

abbrev pub from_le_bytes : Bytes → ℕ
from_le_bytes [] = 0
from_le_bytes (b ∷ bs) = b + 256 * from_le_bytes bs

-- The first byte of a buffer of one.
abbrev pub first_byte : Bytes → ℕ
first_byte [] = 0
first_byte (b ∷ bs) = b

unfoldable pub encode_bool : Bool → Writer
encode_bool b = ok ((if b then 1 else 0) ∷ [])

unfoldable pub encode_u8 : ℕ → Writer
encode_u8 x = ok (x ∷ [])

unfoldable pub encode_u32 : ℕ → Writer
encode_u32 x = ok (to_le_bytes x)

-- `usize::try_into::<u32>` fails from 2^32 on.
unfoldable pub encode_usize : ℕ → Writer
encode_usize x = if ltb x (2 ^ 32) then encode_u32 x else err other

unfoldable pub decode_bool : Reader Bool
decode_bool = do bytes ← read_exact 1; pure (not (first_byte bytes == 0))

unfoldable pub decode_u8 : Reader ℕ
decode_u8 = do bytes ← read_exact 1; pure (first_byte bytes)

unfoldable pub decode_u32 : Reader ℕ
decode_u32 = do bytes ← read_exact 4; pure (from_le_bytes bytes)

unfoldable pub decode_usize : Reader ℕ
decode_usize = do val ← decode_u32; pure val
