-- ===== src/V4/Swap.antt =====
-- The masked exchange of padding.rs and the loop over single bytes.
use Prim.Native.Nat.{bit_xor}
use snell_rs.Prelude.{
  ℕ, zero, suc, ◌<◌, ◌≡◌, refl, ap, ◌∙◌, [], ◌∷◌, ◌++◌, length, take, drop, min, All, Bool, true,
  false, arith, length-take, length-drop, length-append,
}
use snell_rs.Kernel.Slice.{Bytes, IsByte}
use snell_rs.Kernel.Bits.{exchanged, kept}
use snell_rs.V4.Padding.{xor_word, and_word, swap_word, swap_tail, swap_chunks, swap_even_indices}

-- Byte by byte as far as both slices go: every second byte is exchanged.
abbrev pub scalar : Bool → Bytes → Bytes → Bytes × Bytes
scalar even [] c = ([], c)
scalar even (x ∷ p) [] = (x ∷ p, [])
scalar true (x ∷ p) (y ∷ c) = (y ∷ (scalar false p c).0, x ∷ (scalar false p c).1)
scalar false (x ∷ p) (y ∷ c) = (x ∷ (scalar true p c).0, y ∷ (scalar true p c).1)

swap_tail-scalar : (p c : Bytes) → swap_tail p c ≡ scalar true p c
unfolding swap_tail
swap_tail-scalar [] c = refl
swap_tail-scalar (x ∷ p) [] = refl
swap_tail-scalar (x ∷ []) (y ∷ c) = refl
swap_tail-scalar (x ∷ x' ∷ p) (y ∷ []) = refl
swap_tail-scalar (x ∷ x' ∷ p) (y ∷ y' ∷ c) = rw (swap_tail-scalar p c)

abbrev Pairs : Bytes → Bytes → Type 0
Pairs [] c = Unit {0}
Pairs (x ∷ p) [] = Unit {0}
Pairs (x ∷ p) (y ∷ c) = (x < 256) × (y < 256) × Pairs p c

swap_word-scalar :
    (x0 x1 x2 x3 x4 x5 x6 x7 y0 y1 y2 y3 y4 y5 y6 y7 : ℕ)
    → x0 < 256
    → x1 < 256
    → x2 < 256
    → x3 < 256
    → x4 < 256
    → x5 < 256
    → x6 < 256
    → x7 < 256
    → y0 < 256
    → y1 < 256
    → y2 < 256
    → y3 < 256
    → y4 < 256
    → y5 < 256
    → y6 < 256
    → y7 < 256
    → swap_word
        (x0 ∷ x1 ∷ x2 ∷ x3 ∷ x4 ∷ x5 ∷ x6 ∷ x7 ∷ [])
        (y0 ∷ y1 ∷ y2 ∷ y3 ∷ y4 ∷ y5 ∷ y6 ∷ y7 ∷ [])
      ≡ (y0 ∷ x1 ∷ y2 ∷ x3 ∷ y4 ∷ x5 ∷ y6 ∷ x7 ∷ [], x0 ∷ y1 ∷ x2 ∷ y3 ∷ x4 ∷ y5 ∷ x6 ∷ y7 ∷ [])
unfolding swap_word xor_word and_word
swap_word-scalar x0 x1 x2 x3 x4 x5 x6 x7 y0 y1 y2 y3 y4 y5 y6 y7 a0 a1 a2 a3 a4 a5 a6 a7 b0 b1 b2 b3
      b4 b5 b6 b7 =
    let e0 = exchanged x0 y0 a0 b0 in
    let e2 = exchanged x2 y2 a2 b2 in
    let e4 = exchanged x4 y4 a4 b4 in
    let e6 = exchanged x6 y6 a6 b6 in
    rw (
      e0.0,
      e0.1,
      e2.0,
      e2.1,
      e4.0,
      e4.1,
      e6.0,
      e6.1,
      kept x1 (bit_xor x1 y1),
      kept y1 (bit_xor x1 y1),
      kept x3 (bit_xor x3 y3),
      kept y3 (bit_xor x3 y3),
      kept x5 (bit_xor x5 y5),
      kept y5 (bit_xor x5 y5),
      kept x7 (bit_xor x7 y7),
      kept y7 (bit_xor x7 y7),
    )

swap_chunks-scalar : (p c : Bytes) → All IsByte p → All IsByte c → swap_chunks p c ≡ scalar true p c
unfolding swap_chunks
swap_chunks-scalar (x0 ∷ x1 ∷ x2 ∷ x3 ∷ x4 ∷ x5 ∷ x6 ∷ x7 ∷ p)
      (y0 ∷ y1 ∷ y2 ∷ y3 ∷ y4 ∷ y5 ∷ y6 ∷ y7 ∷ c) (a0, (a1, (a2, (a3, (a4, (a5, (a6, (a7, a))))))))
      (b0, (b1, (b2, (b3, (b4, (b5, (b6, (b7, b)))))))) =
    rw (
      swap_word-scalar x0 x1 x2 x3 x4 x5 x6 x7 y0 y1 y2 y3 y4 y5 y6 y7 a0 a1 a2 a3 a4 a5 a6 a7 b0 b1
          b2 b3 b4 b5 b6 b7,
      swap_chunks-scalar p c a b,
    )
swap_chunks-scalar p c a b = swap_tail-scalar p c

length-scalar :
    (even : Bool) (p c : Bytes)
    → (length (scalar even p c).0 ≡ length p) × (length (scalar even p c).1 ≡ length c)
length-scalar even [] c = (refl, refl)
length-scalar even (x ∷ p) [] = (refl, refl)
length-scalar true (x ∷ p) (y ∷ c) =
    (ap suc (length-scalar false p c).0, ap suc (length-scalar false p c).1)
length-scalar false (x ∷ p) (y ∷ c) =
    (ap suc (length-scalar true p c).0, ap suc (length-scalar true p c).1)

-- A cut at the shorter length changes nothing.
abbrev CutAt : Bool → ℕ → Bytes → Bytes → Type 0
CutAt even n p c =
    ((scalar even (take n p) (take n c)).0 ++ drop n p ≡ (scalar even p c).0)
    × ((scalar even (take n p) (take n c)).1 ++ drop n c ≡ (scalar even p c).1)

scalar_cut : (even : Bool) (n : ℕ) (p c : Bytes) → n ≡ min (length p) (length c) → CutAt even n p c
scalar_cut even zero [] c e = (refl, refl)
scalar_cut even zero (x ∷ p) [] e = (refl, refl)
scalar_cut even zero (x ∷ p) (y ∷ c) e = absurd (omega arith)
scalar_cut even (suc n) [] c e = absurd (omega arith)
scalar_cut even (suc n) (x ∷ p) [] e = absurd (omega arith)
scalar_cut true (suc n) (x ∷ p) (y ∷ c) e =
    let r : CutAt false n p c = scalar_cut false n p c (omega arith) in
    (ap (λ t. y ∷ t) r.0, ap (λ t. x ∷ t) r.1)
scalar_cut false (suc n) (x ∷ p) (y ∷ c) e =
    let r : CutAt true n p c = scalar_cut true n p c (omega arith) in
    (ap (λ t. x ∷ t) r.0, ap (λ t. y ∷ t) r.1)

scalar-twice :
    (even : Bool) (p c : Bytes) → scalar even (scalar even p c).0 (scalar even p c).1 ≡ (p, c)
scalar-twice even [] c = refl
scalar-twice even (x ∷ p) [] = refl
scalar-twice true (x ∷ p) (y ∷ c) = rw (scalar-twice false p c)
scalar-twice false (x ∷ p) (y ∷ c) = rw (scalar-twice true p c)

All-take : (n : ℕ) (xs : Bytes) → All IsByte xs → All IsByte (take n xs)
All-take zero xs h = tt
All-take (suc n) [] h = tt
All-take (suc n) (x ∷ xs) h = (h.0, All-take n xs h.1)

All-scalar :
    (even : Bool) (p c : Bytes)
    → All IsByte p
    → All IsByte c
    → All IsByte (scalar even p c).0 × All IsByte (scalar even p c).1
All-scalar even [] c h k = (h, k)
All-scalar even (x ∷ p) [] h k = (h, k)
All-scalar true (x ∷ p) (y ∷ c) h k =
    let r = All-scalar false p c h.1 k.1 in ((k.0, r.0), (h.0, r.1))
All-scalar false (x ∷ p) (y ∷ c) h k =
    let r = All-scalar true p c h.1 k.1 in ((h.0, r.0), (k.0, r.1))

-- On bytes, the word-wise `swap_even_indices` exchanges exactly the bytes at the even indices that
-- both slices have, as a loop over single bytes does.
pub swap_even_indices-scalar :
    (padding payload_cipher : Bytes)
    → All IsByte padding
    → All IsByte payload_cipher
    → swap_even_indices padding payload_cipher ≡ scalar true padding payload_cipher
unfolding swap_even_indices
swap_even_indices-scalar p c h k =
    let n = min (length p) (length c) in
    let e = scalar_cut true n p c refl in
    rw (swap_chunks-scalar (take n p) (take n c) (All-take n p h) (All-take n c k))
      (λ i. (e.0 i, e.1 i))

pub swap_even_indices-twice :
    (padding payload_cipher : Bytes)
    → All IsByte padding
    → All IsByte payload_cipher
    → swap_even_indices
        (swap_even_indices padding payload_cipher).0
        (swap_even_indices padding payload_cipher).1
      ≡ (padding, payload_cipher)
swap_even_indices-twice p c h k =
    let b = All-scalar true p c h k in
    rw (swap_even_indices-scalar p c h k)
      (swap_even_indices-scalar _ _ b.0 b.1 ∙ scalar-twice true p c)

pub swap_even_indices-nil : (c : Bytes) → All IsByte c → swap_even_indices [] c ≡ ([], c)
swap_even_indices-nil c h = swap_even_indices-scalar [] c tt h

pub length-swap_even_indices :
    (p c : Bytes)
    → All IsByte p
    → All IsByte c
    → (length (swap_even_indices p c).0 ≡ length p) × (length (swap_even_indices p c).1 ≡ length c)
length-swap_even_indices p c h k = rw (swap_even_indices-scalar p c h k) (length-scalar true p c)

-- The lengths do not need the slices to hold bytes.
length-swap_tail :
    (p c : Bytes) → (length (swap_tail p c).0 ≡ length p) × (length (swap_tail p c).1 ≡ length c)
length-swap_tail p c = rw (swap_tail-scalar p c) (length-scalar true p c)

length-swap_chunks :
    (p c : Bytes)
    → (length (swap_chunks p c).0 ≡ length p) × (length (swap_chunks p c).1 ≡ length c)
unfolding swap_chunks swap_word xor_word and_word
length-swap_chunks (x0 ∷ x1 ∷ x2 ∷ x3 ∷ x4 ∷ x5 ∷ x6 ∷ x7 ∷ p)
      (y0 ∷ y1 ∷ y2 ∷ y3 ∷ y4 ∷ y5 ∷ y6 ∷ y7 ∷ c) =
    let r = length-swap_chunks p c in
    (
      ap (λ n. suc (suc (suc (suc (suc (suc (suc (suc n)))))))) r.0,
      ap (λ n. suc (suc (suc (suc (suc (suc (suc (suc n)))))))) r.1,
    )
length-swap_chunks p c = length-swap_tail p c

pub length-swap :
    (p c : Bytes)
    → (length (swap_even_indices p c).0 ≡ length p) × (length (swap_even_indices p c).1 ≡ length c)
unfolding swap_even_indices
length-swap p c =
    let n = min (length p) (length c) in
    let r = length-swap_chunks (take n p) (take n c) in
    (
      omega (
        arith,
        r.0,
        length-append (swap_chunks (take n p) (take n c)).0 (drop n p),
        length-take n p,
        length-drop n p,
      ),
      omega (
        arith,
        r.1,
        length-append (swap_chunks (take n p) (take n c)).1 (drop n c),
        length-take n c,
        length-drop n c,
      ),
    )
