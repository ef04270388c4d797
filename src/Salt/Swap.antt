-- ===== src/Salt/Swap.antt =====
-- What the swaps and writes of salt.rs do to the bytes at each index.
use snell_rs.Prelude.{
  ℕ, zero, suc, ◌<◌, ◌≡◌, ◌≢◌, refl, sym, ap, ◌∙◌, [], ◌∷◌, length, ◌==◌, arith, Bool-cases, inl,
  inr,
}
use snell_rs.Kernel.Error.{ok}
use snell_rs.Kernel.Slice.{Bytes, index}
use snell_rs.Salt.{set, swap}

-- A byte that is there.
pub index_in : (xs : Bytes) (i : ℕ) → i < length xs → (x : ℕ) × (index xs i ≡ ok x)
unfolding index
index_in [] i h = absurd (omega arith)
index_in (x ∷ xs) zero h = (x, refl)
index_in (x ∷ xs) (suc i) h = index_in xs i (omega arith)

pub index-lt : (xs : Bytes) (i : ℕ) {x : ℕ} → index xs i ≡ ok x → i < length xs
unfolding index
index-lt [] i h = cc
index-lt (x ∷ xs) zero h = omega arith
index-lt (x ∷ xs) (suc i) h = omega (arith, index-lt xs i h)

-- What a write leaves: the byte at its index, and all others as they were.
pub record Written (xs : Bytes) (i v : ℕ) (ys : Bytes) : Type 0 where
  pub size : length ys ≡ length xs
  pub here : index ys i ≡ ok v
  pub elsewhere : (k : ℕ) → k ≢ i → index ys k ≡ index xs k

elsewhere_cons :
    (x : ℕ) (xs ys : Bytes) (i : ℕ)
    → ((k : ℕ) → k ≢ i → index ys k ≡ index xs k)
    → (k : ℕ) → k ≢ suc i
    → index (x ∷ ys) k ≡ index (x ∷ xs) k
unfolding index
elsewhere_cons x xs ys i same zero ne = refl
elsewhere_cons x xs ys i same (suc k) ne = same k (λ e. ne (ap suc e))

elsewhere_head : (x v : ℕ) (xs : Bytes) (k : ℕ) → k ≢ 0 → index (v ∷ xs) k ≡ index (x ∷ xs) k
unfolding index
elsewhere_head x v xs zero ne = absurd (ne refl)
elsewhere_head x v xs (suc k) ne = refl

Written-cons :
    (x : ℕ) (xs : Bytes) (i v : ℕ) (ys : Bytes)
    → Written xs i v ys
    → Written (x ∷ xs) (suc i) v (x ∷ ys)
unfolding index
Written-cons x xs i v ys w = record {
  size = omega (arith, w.size);
  here = w.here;
  elsewhere = elsewhere_cons x xs ys i w.elsewhere;
}

pub set-Written :
    (xs : Bytes) (i v : ℕ) → i < length xs → (ys : Bytes) × (set xs i v ≡ ok ys) × Written xs i v ys
unfolding set index
set-Written [] i v h = absurd (omega arith)
set-Written (x ∷ xs) zero v h =
    (v ∷ xs, refl, record { size = refl; here = refl; elsewhere = elsewhere_head x v xs })
set-Written (x ∷ xs) (suc i) v h =
    let (ys, e, w) = set-Written xs i v (omega arith) in
    (x ∷ ys, rw e refl, Written-cons x xs i v ys w)

-- What a swap leaves: each byte is one that was there, at the other index or its own.
pub record Swapped (xs : Bytes) (i j : ℕ) (ys : Bytes) : Type 0 where
  pub size : length ys ≡ length xs
  pub at_left : index ys i ≡ index xs j
  pub at_right : index ys j ≡ index xs i
  pub elsewhere : (k : ℕ) → k ≢ i → k ≢ j → index ys k ≡ index xs k

Written-left :
    (xs ys zs : Bytes) (i j a b : ℕ)
    → index xs i ≡ ok a
    → index xs j ≡ ok b
    → Written xs i b ys
    → Written ys j a zs
    → index zs i ≡ ok b
Written-left xs ys zs i j a b ea eb w u = elim (Bool-cases (i == j)) [
  | inl same ↦
      let p : i ≡ j = ground arith in ap (index zs) p ∙ u.here ∙ sym ea ∙ ap (index xs) p ∙ eb
  | inr other ↦ u.elsewhere i (ground arith) ∙ w.here
]

pub swap-Swapped :
    (xs : Bytes) (i j : ℕ)
    → i < length xs
    → j < length xs
    → (ys : Bytes) × (swap xs i j ≡ ok ys) × Swapped xs i j ys
unfolding swap
swap-Swapped xs i j hi hj =
    let (a, ea) = index_in xs i hi in
    let (b, eb) = index_in xs j hj in
    let (ys, wrote_left, w) = set-Written xs i b hi in
    let (zs, wrote_right, u) = set-Written ys j a (omega (arith, w.size)) in
    (
      zs,
      rw (ea, eb, wrote_left, wrote_right) refl,
      record {
        size = omega (arith, w.size, u.size);
        at_left = Written-left xs ys zs i j a b ea eb w u ∙ sym eb;
        at_right = u.here ∙ sym ea;
        elsewhere = λ k ni nj. u.elsewhere k nj ∙ w.elsewhere k ni;
      },
    )
