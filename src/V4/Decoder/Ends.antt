-- ===== src/V4/Decoder/Ends.antt =====
-- The loop of `decode` of codec/v4/mod.rs.
use snell_rs.Prelude.{ℕ, zero, suc, ◌≤◌, ◌<◌, ◌≢◌, Option, none, arith}
use snell_rs.Kernel.Error.{Result, ok, err, panic}
use snell_rs.Kernel.Slice.{Bytes}
use snell_rs.Header.{RecordHeader}
use snell_rs.Record.{DecodeStatus}
use snell_rs.Crypto.Aead.{Ring}
use snell_rs.V4.Decoder.{
  ReadStep, salt, header, body, State, Round, again, returned, unless_need, read_salt,
  accept_header, open_header, read_header, open_body, read_body, round_at, go_on, loop, decode,
}

-- The rounds that are left at a step.
abbrev pub rank : ReadStep → ℕ
rank salt = 3
rank header = 2
rank (body _ _) = 1

abbrev Falls : ℕ → Result Round × State → Type 0
Falls n (ok again, (d, buf)) = rank d.step < n
Falls n (ok (returned _), s) = Unit {0}
Falls n (err _, s) = Unit {0}
Falls n (panic, s) = Unit {0}

rank_pos : (step : ReadStep) → rank step ≤ 0 → ⊥
rank_pos salt h = omega arith
rank_pos header h = omega arith
rank_pos (body _ _) h = omega arith

rank_le : (step : ReadStep) → rank step ≤ 3
rank_le salt = omega arith
rank_le header = omega arith
rank_le (body _ _) = omega arith

module _ (ring : Ring) where
  read_salt-Falls : (s : State) → Falls 3 (read_salt ring s)
  unfolding read_salt unless_need
  read_salt-Falls (d, buf) = ground arith

  accept_header-Falls : (s : State) (end : ℕ) (hdr : Bytes) → Falls 2 (accept_header ring s end hdr)
  unfolding accept_header
  accept_header-Falls (d, buf) end hdr = ground arith

  read_header-Falls : (s : State) → Falls 2 (read_header ring s)
  unfolding read_header unless_need open_header
  read_header-Falls (d, buf) = grind (arith, accept_header-Falls)

  read_body-Falls : (h : RecordHeader) (n : ℕ) (s : State) → Falls 1 (read_body ring h n s)
  unfolding read_body unless_need open_body
  read_body-Falls h n (d, buf) = ground arith

  round_at-Falls : (step : ReadStep) (s : State) → Falls (rank step) (round_at ring step s)
  unfolding round_at
  round_at-Falls salt s = read_salt-Falls s
  round_at-Falls header s = read_header-Falls s
  round_at-Falls (body h n) s = read_body-Falls h n s

  go_on-ne-none :
      (rest : State → Option (Result DecodeStatus × State)) (n : ℕ) (r : Result Round × State)
      → Falls n r
      → ((s : State) → rank s.0.step < n → rest s ≢ none)
      → go_on ring rest r ≢ none
  unfolding go_on
  go_on-ne-none rest n (ok again, s) f h = h s f
  go_on-ne-none rest n (ok (returned _), s) f h = λ e. cc
  go_on-ne-none rest n (err _, s) f h = λ e. cc
  go_on-ne-none rest n (panic, s) f h = λ e. cc

  loop-ne-none : (rounds : ℕ) (s : State) → rank s.0.step ≤ rounds → loop ring rounds s ≢ none
  unfolding loop
  loop-ne-none zero s h = absurd (rank_pos s.0.step h)
  loop-ne-none (suc rounds) s h =
      go_on-ne-none (loop ring rounds) (rank s.0.step) (round_at ring s.0.step s)
        (round_at-Falls s.0.step s) (λ s' lt. loop-ne-none rounds s' (omega arith))

  pub decode-ne-none : (s : State) → decode ring s ≢ none
  unfolding decode
  decode-ne-none s = loop-ne-none 3 s (rank_le s.0.step)
