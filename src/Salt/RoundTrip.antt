-- ===== src/Salt/RoundTrip.antt =====
-- `write` and `extract` of codec/v6/salt.rs on the same block.
use snell_rs.Prelude.{
  ℕ, zero, suc, ◌+◌, ◌≤◌, ◌<◌, ◌≡◌, ◌≢◌, refl, sym, ap, ◌∙◌, [], ◌∷◌, length, take, arith, All,
  le→leb, length-take_of_le,
}
use Prim.Native.Nat.{bit_xor}
use snell_rs.Kernel.Error.{ok}
use snell_rs.Kernel.Consts.{salt_len}
use snell_rs.Kernel.Slice.{Bytes, index}
use snell_rs.Salt.{mask, salt_positions, extract_from, extract, write_from, write}
use snell_rs.Salt.Xor.{bit_xor-twice}
use snell_rs.Salt.Swap.{set-Written}
use snell_rs.Salt.Shuffle.{shuffle_perm-IsPerm}

-- Positions in a block of `n` bytes, each once.
abbrev Places : ℕ → Bytes → Type 0
Places n [] = Unit {0}
Places n (p ∷ ps) = (p < n) × All (λ q. p ≢ q) ps × Places n ps

-- Injective lists
apart : (p : ℕ) (ps : Bytes) → ((i : ℕ) → index ps i ≢ ok p) → All (λ q. p ≢ q) ps
unfolding index
apart p [] h = tt
apart p (q ∷ ps) h = ((λ e. h 0 (ap ok (sym e))), apart p ps (λ i. h (suc i)))

perm-Places :
    (n : ℕ) (ps : Bytes)
    → ((i v : ℕ) → index ps i ≡ ok v → v < n)
    → ((i j v : ℕ) → index ps i ≡ ok v → index ps j ≡ ok v → i ≡ j)
    → Places n ps
unfolding index
perm-Places n [] b d = tt
perm-Places n (p ∷ ps) b d = (
  b 0 p refl,
  apart p ps (λ i e. absurd (omega (arith, d 0 (suc i) p refl e))),
  perm-Places n ps (λ i v e. b (suc i) v e) (λ i j v e f. omega (arith, d (suc i) (suc j) v e f)),
)

All-take : (p k : ℕ) (ps : Bytes) → All (λ q. p ≢ q) ps → All (λ q. p ≢ q) (take k ps)
All-take p zero ps h = tt
All-take p (suc k) [] h = tt
All-take p (suc k) (q ∷ ps) h = (h.0, All-take p k ps h.1)

Places-take : (n k : ℕ) (ps : Bytes) → Places n ps → Places n (take k ps)
Places-take n zero ps h = tt
Places-take n (suc k) [] h = tt
Places-take n (suc k) (p ∷ ps) h = (h.0, All-take p k ps h.1, Places-take n k ps h.2)

-- What a write of the salt leaves: the salt at its places, and every other byte.
record Holds (ns stride i : ℕ) (salt ps block block' : Bytes) : Type 0 where
  size : length block' ≡ length block
  found : extract_from ns stride i ps block' ≡ ok salt
  elsewhere : (k : ℕ) → All (λ q. k ≢ q) ps → index block' k ≡ index block k

extracted :
    (ns stride i b p : ℕ) (salt ps block : Bytes)
    → index block p ≡ ok (bit_xor (mask ns stride i) b)
    → extract_from ns stride (i + 1) ps block ≡ ok salt
    → extract_from ns stride i (p ∷ ps) block ≡ ok (b ∷ salt)
unfolding extract_from
extracted ns stride i b p salt ps block at rest =
    rw (at, rest, bit_xor-twice (mask ns stride i) b) refl

write_from-Holds :
    (ns stride i : ℕ) (salt ps block : Bytes)
    → length salt ≡ length ps
    → Places (length block) ps
    → (block' : Bytes) × (write_from ns stride i salt ps block ≡ ok block')
      × Holds ns stride i salt ps block block'
unfolding write_from
write_from-Holds ns stride i [] [] block l h = (
  block,
  refl,
  record { size = refl; found = unfold extract_from in refl; elsewhere = λ k a. refl },
)
write_from-Holds ns stride i (b ∷ salt) [] block l h = absurd (omega arith)
write_from-Holds ns stride i [] (p ∷ ps) block l h = absurd (omega arith)
write_from-Holds ns stride i (b ∷ salt) (p ∷ ps) block l h =
    let (block1, wrote, w) = set-Written block p (bit_xor (mask ns stride i) b) h.0 in
    let (block2, rest, held) =
      write_from-Holds ns stride (i + 1) salt ps block1 (omega arith) (rw w.size h.2) in
    (
      block2,
      rw wrote rest,
      record {
        size = held.size ∙ w.size;
        found = extracted ns stride i b p salt ps block2 (held.elsewhere p h.1 ∙ w.here) held.found;
        elsewhere = λ k a. held.elsewhere k a.1 ∙ w.elsewhere k a.0;
      },
    )

salt_positions-Places :
    (ns rounds n : ℕ)
    → salt_len ≤ n
    → n ≤ 256
    → (ps : Bytes) × (salt_positions ns rounds n ≡ ok ps) × (length ps ≡ salt_len) × Places n ps
unfolding salt_positions
salt_positions-Places ns rounds n lo hi =
    let (perm, made, p) = shuffle_perm-IsPerm ns rounds n hi in
    (
      take salt_len perm,
      rw (made, le→leb salt_len (length perm) (omega (arith, p.size))) refl,
      length-take_of_le salt_len perm (omega (arith, p.size)),
      Places-take n salt_len perm (perm-Places n perm p.bounded p.distinct),
    )

-- A salt of 16 bytes that was written into a block of 16 to 256 bytes is extracted from it again,
-- for every namespace, stride and number of rounds. Neither call panics, and the block keeps its
-- length.
pub extract-write :
    (ns stride rounds : ℕ) (block salt : Bytes)
    → length salt ≡ salt_len
    → salt_len ≤ length block
    → length block ≤ 256
    → (block' : Bytes) × (write ns stride rounds block salt ≡ ok block')
      × (length block' ≡ length block)
      × (extract ns stride rounds block' ≡ ok salt)
unfolding write extract
extract-write ns stride rounds block salt l lo hi =
    let (ps, made, count, places) = salt_positions-Places ns rounds (length block) lo hi in
    let (block', wrote, held) = write_from-Holds ns stride 0 salt ps block (l ∙ sym count) places in
    (block', rw made wrote, held.size, rw (held.size, made) held.found)
