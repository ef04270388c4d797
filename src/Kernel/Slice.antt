-- ===== src/Kernel/Slice.antt =====
-- Rust's operations on byte slices, and `dst_prefix` of crates/snell-protocol/src/error.rs.
-- A slice that the code writes through is a list, and the function returns its new content.
use snell_rs.Prelude.{
  ℕ, zero, suc, ◌+◌, ◌*◌, ◌/◌, ◌%◌, ◌≤◌, ◌<◌, ◌≡◌, refl, ◌∙◌, length-drop, List, [], ◌∷◌, ◌++◌,
  Option, none, some, Bool, false, ◌||◌, length, take, drop, leb, ◌==◌, if◌then◌else◌, arith,
  le→leb, length-take, length-append, take-append-drop, take-append_le, drop-append_le,
  take-append_length, drop-append_length, length-take_of_le, ==_refl,
}
use snell_rs.Kernel.Error.{buffer_too_small, Result, ok, err, panic, ◌>>=◌}

abbrev pub Bytes : Type 0
Bytes = List ℕ

abbrev pub IsByte : ℕ → Type 0
IsByte b = b < 256

-- `split_first`
abbrev pub split_first : Bytes → Option (ℕ × Bytes)
split_first [] = none
split_first (x ∷ xs) = some (x, xs)

-- `xs[i]`
unfoldable pub index : Bytes → ℕ → Result ℕ
index [] i = panic
index (x ∷ xs) zero = ok x
index (x ∷ xs) (suc i) = index xs i

-- `split_at_checked`, and `split_first_chunk` of a constant length.
unfoldable pub split_at_checked : ℕ → Bytes → Option (Bytes × Bytes)
split_at_checked n xs = if leb n (length xs) then some (take n xs, drop n xs) else none

-- `xs.get(..n)`
unfoldable pub get_to : Bytes → ℕ → Option Bytes
get_to xs n = if leb n (length xs) then some (take n xs) else none

-- `xs.get(n..)`
unfoldable pub get_from : Bytes → ℕ → Option Bytes
get_from xs n = if leb n (length xs) then some (drop n xs) else none

-- `&xs[n..]`
unfoldable pub index_from : Bytes → ℕ → Result Bytes
index_from xs n = if leb n (length xs) then ok (drop n xs) else panic

-- `&xs[..n]`
unfoldable pub index_to : Bytes → ℕ → Result Bytes
index_to xs n = if leb n (length xs) then ok (take n xs) else panic

-- `xs[0] = b`
unfoldable pub set_first : Bytes → ℕ → Result Bytes
set_first [] b = panic
set_first (_ ∷ xs) b = ok (b ∷ xs)

-- `split_at_mut`
unfoldable pub split_at_mut : Bytes → ℕ → Result (Bytes × Bytes)
split_at_mut xs n = if leb n (length xs) then ok (take n xs, drop n xs) else panic

-- `dst.copy_from_slice(src)`: the new content of `dst`.
unfoldable pub copy_from_slice : Bytes → Bytes → Result Bytes
copy_from_slice dst src = if length dst == length src then ok src else panic

-- The first `needed` bytes of a destination, and the bytes behind them.
unfoldable pub dst_prefix : Bytes → ℕ → Result (Bytes × Bytes)
dst_prefix dst needed =
    if leb needed (length dst)
    then ok (take needed dst, drop needed dst)
    else err (buffer_too_small needed (length dst))

-- `xs.contains(&b)`
unfoldable pub contains : Bytes → ℕ → Bool
contains [] b = false
contains (x ∷ xs) b = x == b || contains xs b

-- `u16::from_be_bytes` and `to_be_bytes`
unfoldable pub from_be_bytes : Bytes → ℕ
from_be_bytes [] = 0
from_be_bytes (a ∷ []) = a
from_be_bytes (a ∷ b ∷ _) = a * 256 + b

unfoldable pub to_be_bytes : ℕ → Bytes
to_be_bytes n = (n / 256 % 256) ∷ (n % 256) ∷ []

pub length-to_be_bytes : (n : ℕ) → length (to_be_bytes n) ≡ 2
unfolding to_be_bytes
length-to_be_bytes n = refl

pub from_be_bytes-to_be_bytes : (n : ℕ) → n < 65536 → from_be_bytes (to_be_bytes n) ≡ n
unfolding from_be_bytes to_be_bytes
from_be_bytes-to_be_bytes n h = omega arith

-- A checked split at the length of the front.
pub split_at_checked-append_length :
    (n : ℕ) (xs ys : Bytes) → length xs ≡ n → split_at_checked n (xs ++ ys) ≡ some (xs, ys)
unfolding split_at_checked
split_at_checked-append_length n xs ys e = rw (
  ← e,
  le→leb (length xs) (length (xs ++ ys)) (omega (arith, length-append xs ys)),
  take-append_length xs ys,
  drop-append_length xs ys,
)

-- Bytes added behind a slice that could be split join the rest.
pub split_at_checked-append :
    (n : ℕ) (xs more : Bytes) {a b : Bytes}
    → split_at_checked n xs ≡ some (a, b)
    → split_at_checked n (xs ++ more) ≡ some (a, b ++ more)
unfolding split_at_checked
split_at_checked-append n xs more h =
    ground (arith, length-append xs more, take-append_le n xs more, drop-append_le n xs more)

pub split_at_checked-parts :
    (n : ℕ) (xs : Bytes) {a b : Bytes}
    → split_at_checked n xs ≡ some (a, b)
    → (length a ≡ n) × (xs ≡ a ++ b) × (length xs ≡ n + length b)
unfolding split_at_checked
split_at_checked-parts n xs {a} {b} h =
    ground (arith, length-take n xs, take-append-drop n xs, length-append a b)

-- The one step of every encoder: cut off as many bytes as there are to write, and write them.
pub split_copy {ℓ} :
    {A : Type ℓ} (d s : Bytes) (k : Bytes → Bytes → Result A)
    → length s ≤ length d
    → (split_at_mut d (length s) >>= λ p. copy_from_slice p.0 s >>= λ w. k w p.1)
      ≡ k s (drop (length s) d)
unfolding split_at_mut copy_from_slice
split_copy d s k h =
    rw (le→leb (length s) (length d) h)
      (rw (length-take_of_le (length s) d h) (rw (==_refl (length s))))

pub copy_from_slice-eq : (d s : Bytes) → length d ≡ length s → copy_from_slice d s ≡ ok s
unfolding copy_from_slice
copy_from_slice-eq d s e = rw (e, ==_refl (length s))

-- A destination that is filled by two fields, and by three: the last takes what is left.
pub fill_two {ℓ} :
    {A : Type ℓ} (front a b : Bytes) (k : Bytes → Bytes → Result A)
    → length front ≡ length a + length b
    → (split_at_mut front (length a) >>= λ p.
        copy_from_slice p.0 a >>= λ a'. copy_from_slice p.1 b >>= λ b'. k a' b')
      ≡ k a b
fill_two front a b k e =
    split_copy front a (λ a' r. copy_from_slice r b >>= λ b'. k a' b') (omega arith)
    ∙ rw
        (copy_from_slice-eq (drop (length a) front) b (omega (arith, length-drop (length a) front)))

pub fill_three {ℓ} :
    {A : Type ℓ} (front a b c : Bytes) (k : Bytes → Bytes → Bytes → Result A)
    → length front ≡ length a + length b + length c
    → (split_at_mut front (length a) >>= λ p. copy_from_slice p.0 a >>= λ a'.
        split_at_mut p.1 (length b) >>= λ q.
        copy_from_slice q.0 b >>= λ b'. copy_from_slice q.1 c >>= λ c'. k a' b' c')
      ≡ k a b c
fill_three front a b c k e =
    split_copy front a
      (λ a' r. split_at_mut r (length b) >>= λ q.
        copy_from_slice q.0 b >>= λ b'. copy_from_slice q.1 c >>= λ c'. k a' b' c')
      (omega arith)
    ∙ fill_two (drop (length a) front) b c (k a) (omega (arith, length-drop (length a) front))

pub split_at_mut_le :
    (xs : Bytes) (n : ℕ) → n ≤ length xs → split_at_mut xs n ≡ ok (take n xs, drop n xs)
unfolding split_at_mut
split_at_mut_le xs n h = ground arith

pub index_to_le : (xs : Bytes) (n : ℕ) → n ≤ length xs → index_to xs n ≡ ok (take n xs)
unfolding index_to
index_to_le xs n h = ground arith

-- A field of one byte that is written through its index.
pub split_set {ℓ} :
    {A : Type ℓ} (d : Bytes) (b : ℕ) (k : Bytes → Bytes → Result A)
    → 1 ≤ length d
    → (split_at_mut d 1 >>= λ p. set_first p.0 b >>= λ t. k t p.1) ≡ k (b ∷ []) (drop 1 d)
unfolding split_at_mut set_first
split_set [] b k h = absurd (omega arith)
split_set (x ∷ d) b k h = rw (le→leb 1 (suc (length d)) (omega arith))

pub split_at_mut-append :
    (n : ℕ) (xs ys : Bytes) → length xs ≡ n → split_at_mut (xs ++ ys) n ≡ ok (xs, ys)
unfolding split_at_mut
split_at_mut-append n xs ys e = rw (
  ← e,
  le→leb (length xs) (length (xs ++ ys)) (omega (arith, length-append xs ys)),
  take-append_length xs ys,
  drop-append_length xs ys,
)
