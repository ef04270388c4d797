-- ===== src/V4/Padding.antt =====
-- `swap_even_indices` of crates/snell-protocol/src/codec/v4/padding.rs.
use Prim.Native.Nat.{bit_and, bit_xor}
use snell_rs.Prelude.{[], ◌∷◌, ◌++◌, length, take, drop, min}
use snell_rs.Kernel.Slice.{Bytes}

-- A `u64` by its eight bytes in memory order, on which `^` and `&` go byte by byte.
unfoldable pub xor_word : Bytes → Bytes → Bytes
xor_word [] b = []
xor_word (x ∷ a) [] = []
xor_word (x ∷ a) (y ∷ b) = bit_xor x y ∷ xor_word a b

unfoldable pub and_word : Bytes → Bytes → Bytes
and_word [] b = []
and_word (x ∷ a) [] = []
and_word (x ∷ a) (y ∷ b) = bit_and x y ∷ and_word a b

abbrev pub mask : Bytes
mask = 0xff ∷ 0 ∷ 0xff ∷ 0 ∷ 0xff ∷ 0 ∷ 0xff ∷ 0 ∷ []

-- The two new words.
unfoldable pub swap_word : Bytes → Bytes → Bytes × Bytes
swap_word a b = let diff = and_word (xor_word a b) mask in (xor_word a diff, xor_word b diff)

-- `for i in (0..p_tail.len()).step_by(2)`
unfoldable pub swap_tail : Bytes → Bytes → Bytes × Bytes
swap_tail [] c = ([], c)
swap_tail (x ∷ p) [] = (x ∷ p, [])
swap_tail (x ∷ []) (y ∷ c) = (y ∷ [], x ∷ c)
swap_tail (x ∷ x' ∷ p) (y ∷ []) = (y ∷ x' ∷ p, x ∷ [])
swap_tail (x ∷ x' ∷ p) (y ∷ y' ∷ c) = let (p', c') = swap_tail p c in (y ∷ x' ∷ p', x ∷ y' ∷ c')

-- `as_chunks_mut::<8>` of two slices of one length: the chunks, and then the tails.
unfoldable pub swap_chunks : Bytes → Bytes → Bytes × Bytes
swap_chunks (x0 ∷ x1 ∷ x2 ∷ x3 ∷ x4 ∷ x5 ∷ x6 ∷ x7 ∷ p)
      (y0 ∷ y1 ∷ y2 ∷ y3 ∷ y4 ∷ y5 ∷ y6 ∷ y7 ∷ c) =
    let (a, b) =
      swap_word (x0 ∷ x1 ∷ x2 ∷ x3 ∷ x4 ∷ x5 ∷ x6 ∷ x7 ∷ [])
        (y0 ∷ y1 ∷ y2 ∷ y3 ∷ y4 ∷ y5 ∷ y6 ∷ y7 ∷ []) in
    let (p', c') = swap_chunks p c in (a ++ p', b ++ c')
swap_chunks p c = swap_tail p c

-- Behind the shorter length nothing changes.
unfoldable pub swap_even_indices : Bytes → Bytes → Bytes × Bytes
swap_even_indices padding payload_cipher =
    let limit = min (length padding) (length payload_cipher) in
    let (p, c) = swap_chunks (take limit padding) (take limit payload_cipher) in
    (p ++ drop limit padding, c ++ drop limit payload_cipher)
