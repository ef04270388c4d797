-- ===== src/Buffer/Trace.antt =====
-- The buffer of buffer.rs over a sequence of calls.
use snell_rs.Prelude.{ℕ, ◌≡◌, ap, ◌∙◌, List, [], ◌∷◌, ◌++◌, drop, replicate, arith}
use snell_rs.Kernel.Error.{Result, ok, ◌>>=◌, >>=-eq-ok}
use snell_rs.Kernel.Slice.{Bytes}
use snell_rs.Buffer.{
  Buffer, Allocation, filled, extend_from_slice, reserve_zeroed, consume, replace_storage,
}
use snell_rs.Buffer.Invariant.{IsValid}
use snell_rs.Buffer.Stream.{
  filled-extend_from_slice, filled-consume, filled-replace_storage, filled-reserve_zeroed,
}

-- A request to the buffer.
pub data Op : Type 0 where
  extend : Bytes → Op
  zeroes gone : ℕ → Op
  move_to : Allocation → Op

unfoldable pub exec : Buffer → Op → Result Buffer
exec b (extend bytes) = extend_from_slice b bytes
exec b (zeroes n) = reserve_zeroed b n >>= λ r. ok r.1
exec b (gone n) = consume b n
exec b (move_to a) = replace_storage b a >>= λ r. ok r.1

unfoldable pub run : Buffer → List Op → Result Buffer
run b [] = ok b
run b (op ∷ ops) = exec b op >>= λ b'. run b' ops

-- What a request does to a queue of bytes.
unfoldable pub step : Bytes → Op → Bytes
step q (extend bytes) = q ++ bytes
step q (zeroes n) = q ++ replicate n 0
step q (gone n) = drop n q
step q (move_to a) = q

unfoldable pub queue : Bytes → List Op → Bytes
queue q [] = q
queue q (op ∷ ops) = queue (step q op) ops

exec-step :
    (b b' : Buffer) (op : Op)
    → IsValid b
    → exec b op ≡ ok b'
    → (filled b' ≡ step (filled b) op) × IsValid b'
unfolding exec step
exec-step b b' (extend bytes) v h = filled-extend_from_slice b b' bytes v h
exec-step b b' (zeroes n) v h =
    let (r, e, same) = >>=-eq-ok (reserve_zeroed b n) (λ r. ok r.1) h in
    ground (arith, filled-reserve_zeroed b n r v e, same)
exec-step b b' (gone n) v h = filled-consume b b' n v h
exec-step b b' (move_to a) v h =
    let (r, e, same) = >>=-eq-ok (replace_storage b a) (λ r. ok r.1) h in
    ground (arith, filled-replace_storage b a r v e, same)

-- A valid buffer is a queue of bytes: after any sequence of `extend_from_slice`, `reserve_zeroed`,
-- `consume` and `replace_storage` that the buffer accepts, its live bytes are those that the queue
-- has after the same sequence, and the buffer is still valid.
pub run-queue :
    (b b' : Buffer) (ops : List Op)
    → IsValid b
    → run b ops ≡ ok b'
    → (filled b' ≡ queue (filled b) ops) × IsValid b'
unfolding run queue
run-queue b b' [] v h = ground (arith, v)
run-queue b b' (op ∷ ops) v h =
    let (b1, e, rest) = >>=-eq-ok (exec b op) (λ b1. run b1 ops) h in
    let (same, v1) = exec-step b b1 op v e in
    let (after, v') = run-queue b1 b' ops v1 rest in (after ∙ ap (λ q. queue q ops) same, v')
