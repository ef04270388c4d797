-- ===== src/Salt.antt =====
-- crates/snell-protocol/src/codec/v6/salt.rs and the generators of prf.rs that it uses: the salt of a
-- v6 session is spread over a block of random bytes. Machine words keep their wrap-around.
pub mod Xor
pub mod Swap
pub mod Shuffle
pub mod RoundTrip
use snell_rs.Prelude.{
  ℕ, zero, suc, ◌+◌, ◌*◌, ◌/◌, ◌%◌, ◌^◌, List, [], ◌∷◌, leb, length, take, if◌then◌else◌,
}
use Prim.Native.Nat.{bit_xor, max}
use snell_rs.Kernel.Error.{Result, ok, err, panic, ◌>>=◌}
use snell_rs.Kernel.Slice.{Bytes, index}
use snell_rs.Kernel.Consts.{salt_len}

-- `u64`
abbrev pub wrap : ℕ → ℕ
wrap x = x % 2 ^ 64

abbrev pub wrapping_mul : ℕ → ℕ → ℕ
wrapping_mul a b = wrap (a * b)

abbrev pub wrapping_add : ℕ → ℕ → ℕ
wrapping_add a b = wrap (a + b)

abbrev pub golden_gamma : ℕ
golden_gamma = 0x9e3779b97f4a7c15

abbrev pub splitmix_mul1 : ℕ
splitmix_mul1 = 0xbf58476d1ce4e5b9

abbrev pub splitmix_mul2 : ℕ
splitmix_mul2 = 0x94d049bb133111eb

abbrev pub prf_coef_b : ℕ
prf_coef_b = 0x589965cc75374cc3

abbrev pub prf_add_b : ℕ
prf_add_b = 0x33a213ec50ffe2e9

abbrev pub prf_coef_a : ℕ
prf_coef_a = 0xe7037ed1a0b428db

abbrev pub prf_add_a : ℕ
prf_add_a = 0x8f3907f7b2b80c35

-- `x ^= x >> n`
abbrev pub xor_shift : ℕ → ℕ → ℕ
xor_shift n x = bit_xor x (x / 2 ^ n)

unfoldable pub splitmix64 : ℕ → ℕ
splitmix64 x =
    xor_shift 31
      (wrapping_mul (xor_shift 27 (wrapping_mul (xor_shift 30 x) splitmix_mul1)) splitmix_mul2)

-- `(y ^ (y >> 32)) as u32`
abbrev pub fold32 : ℕ → ℕ
fold32 y = xor_shift 32 y % 2 ^ 32

unfoldable pub prf32 : ℕ → ℕ → ℕ → ℕ → ℕ
prf32 namespace label a b =
    let x =
      bit_xor
        (bit_xor (bit_xor namespace (wrapping_add (wrapping_mul b prf_coef_b) prf_add_b))
          (wrapping_mul label golden_gamma))
        (wrapping_add (wrapping_mul a prf_coef_a) prf_add_a) in
    fold32 (splitmix64 x)

abbrev pub mix_handshake_domain : ℕ
mix_handshake_domain = 0x51a7

abbrev pub salt_ns_xor : ℕ
salt_ns_xor = 0xdaa66d2c7ddf743f

unfoldable pub salt_shuffle_prf : ℕ → ℕ → ℕ → ℕ
salt_shuffle_prf ns_salt domain i =
    let rdx = wrapping_add (wrapping_mul i prf_coef_b) prf_add_b in
    let rdi = bit_xor ns_salt salt_ns_xor in
    let rsi = wrapping_add (wrapping_mul domain prf_coef_a) prf_add_a in
    fold32 (splitmix64 (bit_xor (bit_xor rdx rdi) rsi))

-- `xs[i] = v`
unfoldable pub set : Bytes → ℕ → ℕ → Result Bytes
set [] i v = panic
set (x ∷ xs) zero v = ok (v ∷ xs)
set (x ∷ xs) (suc i) v = set xs i v >>= λ ys. ok (x ∷ ys)

-- `out.swap(i, j)`
unfoldable pub swap : Bytes → ℕ → ℕ → Result Bytes
swap xs i j = do a ← index xs i; b ← index xs j; ys ← set xs i b; set ys j a

-- The numbers from `i` on, as bytes.
unfoldable pub identity : ℕ → ℕ → Bytes
identity i zero = []
identity i (suc n) = (i % 256) ∷ identity (i + 1) n

-- The inner `for`, from `i` on with `left` rounds to go: `len - i` is `left`.
unfoldable pub shuffle_round : ℕ → ℕ → ℕ → ℕ → Bytes → Result Bytes
shuffle_round ns_salt domain i zero out = ok out
shuffle_round ns_salt domain i (suc left) out =
    swap out i (i + salt_shuffle_prf ns_salt domain i % suc left) >>= λ out'.
    shuffle_round ns_salt domain (i + 1) left out'

-- The outer `for`, from `round` on with `left` rounds to go.
unfoldable pub shuffle_rounds : ℕ → ℕ → ℕ → Bytes → Result Bytes
shuffle_rounds ns_salt round zero out = ok out
shuffle_rounds ns_salt round (suc left) out =
    shuffle_round ns_salt ((mix_handshake_domain + round) % 2 ^ 32) 0 (length out) out >>= λ out'.
    shuffle_rounds ns_salt (round + 1) left out'

unfoldable pub shuffle_perm : ℕ → ℕ → ℕ → Result Bytes
shuffle_perm ns_salt rounds len = shuffle_rounds ns_salt 0 (max rounds 1) (identity 0 len)

unfoldable pub mask : ℕ → ℕ → ℕ → ℕ
mask ns_salt mix_stride i =
    bit_xor (i % 256 * mix_stride % 256) (prf32 ns_salt 2 mix_handshake_domain i % 256)

-- `first_chunk().expect(..)`: the block holds the salt.
unfoldable pub salt_positions : ℕ → ℕ → ℕ → Result Bytes
salt_positions ns_salt rounds len = shuffle_perm ns_salt rounds len >>= λ perm.
    if leb salt_len (length perm) then ok (take salt_len perm) else panic

unfoldable pub extract_from : ℕ → ℕ → ℕ → Bytes → Bytes → Result Bytes
extract_from ns_salt mix_stride i [] block = ok []
extract_from ns_salt mix_stride i (position ∷ positions) block = do
  byte ← index block position
  rest ← extract_from ns_salt mix_stride (i + 1) positions block
  ok (bit_xor (mask ns_salt mix_stride i) byte ∷ rest)

unfoldable pub extract : ℕ → ℕ → ℕ → Bytes → Result Bytes
extract ns_salt mix_stride rounds block =
    salt_positions ns_salt rounds (length block) >>= λ positions.
    extract_from ns_salt mix_stride 0 positions block

-- `salt.iter().zip(positions)`
unfoldable pub write_from : ℕ → ℕ → ℕ → Bytes → Bytes → Bytes → Result Bytes
write_from ns_salt mix_stride i (byte ∷ salt) (position ∷ positions) block =
    set block position (bit_xor (mask ns_salt mix_stride i) byte) >>= λ block'.
    write_from ns_salt mix_stride (i + 1) salt positions block'
write_from ns_salt mix_stride i _ _ block = ok block

unfoldable pub write : ℕ → ℕ → ℕ → Bytes → Bytes → Result Bytes
write ns_salt mix_stride rounds block salt =
    salt_positions ns_salt rounds (length block) >>= λ positions.
    write_from ns_salt mix_stride 0 salt positions block
