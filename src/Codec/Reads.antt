-- ===== src/Codec/Reads.antt =====
-- The relation between a writer and the reader that undoes it, and its rules.
use stark_backend.Prelude.{◌≡◌, refl, [], ◌++◌, append_assoc}
use stark_backend.Prelude.Outcome.{ok, err, panic}
use stark_backend.Codec.Bytes.{Bytes, IoError, Writer, Reader, ◌⨾◌, ◌>>=◌, pure}

-- Whenever `w` writes bytes, `r` reads `a` from them and leaves what stands behind them.
pub record Reads {A : Type 0} (w : Writer) (r : Reader A) (a : A) : Type 0 where
  pub reads : (bs rest : Bytes) → w ≡ ok bs → r (bs ++ rest) ≡ ok (a, rest)

-- What two writes in a row have written.
pub ⨾-eq-ok :
    (w v : Writer) {bs : Bytes}
    → (w ⨾ v) ≡ ok bs
    → (xs : Bytes) × (ys : Bytes) × (w ≡ ok xs) × (v ≡ ok ys) × (bs ≡ xs ++ ys)
⨾-eq-ok (ok a) (ok b) h = (a, b, refl, refl, cc)
⨾-eq-ok (ok a) (err e) h = cc
⨾-eq-ok (ok a) panic h = cc
⨾-eq-ok (err e) v h = cc
⨾-eq-ok panic v h = cc

pub Reads-pure : {A : Type 0} (a : A) → Reads (ok []) (pure a) a
Reads-pure a = record { reads = λ bs rest h. cc }

pub Reads-bind :
    {A B : Type 0} {w v : Writer} {r : Reader A} (k : A → Reader B) {a : A} {b : B}
    → Reads w r a
    → Reads v (k a) b
    → Reads (w ⨾ v) (r >>= k) b
Reads-bind {w} {v} k p q = record {
  reads = λ bs rest h.
      let (xs, ys, hw, hv, e) = ⨾-eq-ok w v h in
      rw (e, append_assoc, p.reads xs (ys ++ rest) hw) (q.reads ys rest hv);
}

pub Reads-map :
    {A B : Type 0} {w : Writer} {r : Reader A} {a : A} (f : A → B)
    → Reads w r a
    → Reads w (r >>= λ x. pure (f x)) (f a)
Reads-map f p = record { reads = λ bs rest h. rw (p.reads bs rest h) }

-- A reader that ends without reading more.
pub Reads-end :
    {A B : Type 0} {w : Writer} {r : Reader A} (k : A → Reader B) {a : A} {b : B}
    → Reads w r a
    → ((rest : Bytes) → k a rest ≡ ok (b, rest))
    → Reads w (r >>= k) b
Reads-end k p e = record { reads = λ bs rest h. rw (p.reads bs rest h) (e rest) }

-- A writer that fails has written nothing to read back.
pub Reads-err : {A : Type 0} {r : Reader A} {a : A} (e : IoError) → Reads (err e) r a
Reads-err e = record { reads = λ bs rest h. cc }

pub Reads-panic : {A : Type 0} {r : Reader A} {a : A} → Reads panic r a
Reads-panic = record { reads = λ bs rest h. cc }
