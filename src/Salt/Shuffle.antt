-- ===== src/Salt/Shuffle.antt =====
-- `shuffle_perm` of codec/v6/salt.rs.
use snell_rs.Prelude.{
  ℕ, zero, suc, ◌+◌, ◌%◌, ◌≤◌, ◌<◌, ◌≡◌, refl, sym, ap, ◌∙◌, length, ◌==◌, if◌then◌else◌, arith,
  Bool-cases, inl, inr,
}
use Prim.Native.Nat.{max}
use native.Mathlib.Nat.{mod-lt}
use snell_rs.Kernel.Error.{ok}
use snell_rs.Kernel.Slice.{Bytes, index}
use snell_rs.Salt.{
  identity, shuffle_round, shuffle_rounds, shuffle_perm, salt_shuffle_prf, mix_handshake_domain,
}
use snell_rs.Salt.Swap.{Swapped, swap-Swapped, index-lt}

-- The numbers below `n`, each once.
pub record IsPerm (n : ℕ) (xs : Bytes) : Type 0 where
  pub size : length xs ≡ n
  pub bounded : (i v : ℕ) → index xs i ≡ ok v → v < n
  pub distinct : (i j v : ℕ) → index xs i ≡ ok v → index xs j ≡ ok v → i ≡ j

abbrev other : ℕ → ℕ → ℕ → ℕ
other i j k = if k == i then j else if k == j then i else k

other_injective : (i j k l : ℕ) → other i j k ≡ other i j l → k ≡ l
other_injective i j k l e = ground arith

index-other : (xs ys : Bytes) (i j k : ℕ) → Swapped xs i j ys → index ys k ≡ index xs (other i j k)
index-other xs ys i j k s = elim (Bool-cases (k == i)) [
  | inl left ↦ let p : k ≡ i = ground arith in rw left (ap (index ys) p ∙ s.at_left)
  | inr not_left ↦ elim (Bool-cases (k == j)) [
    | inl right ↦
        let p : k ≡ j = ground arith in rw (not_left, right) (ap (index ys) p ∙ s.at_right)
    | inr not_right ↦ rw (not_left, not_right) (s.elsewhere k (ground arith) (ground arith))
  ]
]

Swapped-IsPerm : (n : ℕ) (xs ys : Bytes) (i j : ℕ) → Swapped xs i j ys → IsPerm n xs → IsPerm n ys
Swapped-IsPerm n xs ys i j s p = record {
  size = s.size ∙ p.size;
  bounded = λ k v e. p.bounded (other i j k) v (sym (index-other xs ys i j k s) ∙ e);
  distinct = λ k l v e f. other_injective i j k l (
      p.distinct (other i j k) (other i j l) v (sym (index-other xs ys i j k s) ∙ e)
        (sym (index-other xs ys i j l s) ∙ f));
}

length-identity : (i n : ℕ) → length (identity i n) ≡ n
unfolding identity
length-identity i zero = refl
length-identity i (suc n) = ap suc (length-identity (i + 1) n)

index-identity : (i n k v : ℕ) → i + n ≤ 256 → index (identity i n) k ≡ ok v → v ≡ i + k
unfolding identity index
index-identity i zero k v h e = cc
index-identity i (suc n) zero v h e = ground arith
index-identity i (suc n) (suc k) v h e = omega (arith, index-identity (i + 1) n k v (omega arith) e)

identity-IsPerm : (n : ℕ) → n ≤ 256 → IsPerm n (identity 0 n)
identity-IsPerm n h = record {
  size = length-identity 0 n;
  bounded = λ i v e. omega (
    arith,
    index-identity 0 n i v (omega arith) e,
    index-lt (identity 0 n) i e,
    length-identity 0 n,
  );
  distinct = λ i j v e f.
      omega (arith, index-identity 0 n i v (omega arith) e, index-identity 0 n j v (omega arith) f);
}

mod_below : (a m : ℕ) → a % suc m < suc m
mod_below a m = mod-lt a (omega arith)

shuffle_round-IsPerm :
    (ns domain n i left : ℕ) (xs : Bytes)
    → IsPerm n xs
    → i + left ≡ n
    → (ys : Bytes) × (shuffle_round ns domain i left xs ≡ ok ys) × IsPerm n ys
unfolding shuffle_round
shuffle_round-IsPerm ns domain n i zero xs p h = (xs, refl, p)
shuffle_round-IsPerm ns domain n i (suc left) xs p h =
    let j : ℕ = i + salt_shuffle_prf ns domain i % suc left in
    let (ys, swapped, s) =
      swap-Swapped xs i j (omega (arith, p.size))
        (omega (arith, p.size, mod_below (salt_shuffle_prf ns domain i) left)) in
    let (zs, rest, q) =
      shuffle_round-IsPerm ns domain n (i + 1) left ys (Swapped-IsPerm n xs ys i j s p)
        (omega arith) in
    (zs, rw swapped rest, q)

shuffle_rounds-IsPerm :
    (ns round left n : ℕ) (xs : Bytes)
    → IsPerm n xs
    → (ys : Bytes) × (shuffle_rounds ns round left xs ≡ ok ys) × IsPerm n ys
unfolding shuffle_rounds
shuffle_rounds-IsPerm ns round zero n xs p = (xs, refl, p)
shuffle_rounds-IsPerm ns round (suc left) n xs p =
    let (ys, once, q) =
      shuffle_round-IsPerm ns ((mix_handshake_domain + round) % 4294967296) n 0 (length xs) xs p
        (omega (arith, p.size)) in
    let (zs, rest, r) = shuffle_rounds-IsPerm ns (round + 1) left n ys q in (zs, rw once rest, r)

-- For a block of at most 256 bytes the shuffle ends without a panic in a permutation of the
-- indices of the block: as many numbers, each below the length, and none twice.
pub shuffle_perm-IsPerm :
    (ns rounds n : ℕ)
    → n ≤ 256
    → (perm : Bytes) × (shuffle_perm ns rounds n ≡ ok perm) × IsPerm n perm
unfolding shuffle_perm
shuffle_perm-IsPerm ns rounds n h =
    shuffle_rounds-IsPerm ns 0 (max rounds 1) n (identity 0 n) (identity-IsPerm n h)
