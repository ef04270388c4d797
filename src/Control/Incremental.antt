-- ===== src/Control/Incremental.antt =====
-- The prefixes of control/mod.rs and control/stream.rs that arrive in pieces.
use snell_rs.Prelude.{
  ℕ, ◌≤◌, ◌<◌, ◌≡◌, [], ◌∷◌, ◌++◌, arith, length, length-append, ◌≢◌, take-append_le,
}
use snell_rs.Kernel.Error.{Error, truncated, Result, ok, err, ParseState, need, done, Returns}
use snell_rs.Kernel.Slice.{Bytes, get_to}
use snell_rs.Kernel.Incremental.{IsIncremental, CutOf, cut}
use snell_rs.Control.{ServerReply, error_reply, decode_server_reply}
use snell_rs.Control.Stream.{need_more_on_truncated}

-- What a decoder of a whole prefix owes to `need_more_on_truncated`.
pub record IsPrefixDecoder {ℓ} {A : Type ℓ} (decode : Bytes → Result A) (size : A → ℕ)
    : Type ℓ where
  pub returns : (buf : Bytes) → Returns (decode buf)
  pub stands : (buf more : Bytes) (a : A) → decode buf ≡ ok a → decode (buf ++ more) ≡ ok a
  pub refuses :
      (buf more : Bytes) (e : Error)
      → e ≢ truncated
      → decode buf ≡ err e
      → decode (buf ++ more) ≡ err e
  pub within : (buf : Bytes) (a : A) → decode buf ≡ ok a → size a ≤ length buf
  -- It is truncated only where bytes of the message are missing.
  pub missing :
      (buf more : Bytes) (a : A)
      → decode buf ≡ err truncated
      → decode (buf ++ more) ≡ ok a
      → length buf < size a

module _ {ℓ} {A : Type ℓ} (decode : Bytes → Result A) (size : A → ℕ)
    (d : IsPrefixDecoder decode size) where
  abbrev pub parse : Bytes → Result (ParseState A)
  parse buf = need_more_on_truncated (length buf) (decode buf)

  pub parse-IsIncremental : IsIncremental parse size
  unfolding need_more_on_truncated
  parse-IsIncremental = record {
    returns = λ buf. ground (arith, d.returns buf);
    asks_more = λ buf n h. ground arith;
    stands = λ buf more a h. ground (arith, d.stands buf more a);
    refuses = λ buf more e h. grind (arith, d.refuses buf more e);
    within = λ buf a h. ground (arith, d.within buf a);
    no_more_than = λ buf more n a h k. ground (arith, d.missing buf more a, d.stands buf more);
  }

-- `decode_server_reply` is an incremental parser.
reply-Returns : (buf : Bytes) → Returns (decode_server_reply buf)
unfolding decode_server_reply error_reply
reply-Returns [] = tt
reply-Returns (a ∷ []) = ground arith
reply-Returns (a ∷ b ∷ []) = ground arith
reply-Returns (a ∷ b ∷ c ∷ rest) = ground arith

reply_asks_more : (buf : Bytes) (n : ℕ) → decode_server_reply buf ≡ ok (need n) → length buf < n
unfolding decode_server_reply error_reply get_to
reply_asks_more [] n h = ground arith
reply_asks_more (a ∷ []) n h = ground arith
reply_asks_more (a ∷ b ∷ []) n h = ground arith
reply_asks_more (a ∷ b ∷ c ∷ rest) n h = ground arith

reply_stands :
    (buf more : Bytes) (r : ServerReply × ℕ)
    → decode_server_reply buf ≡ ok (done r)
    → decode_server_reply (buf ++ more) ≡ ok (done r)
unfolding decode_server_reply error_reply get_to
reply_stands [] more r h = ground arith
reply_stands (a ∷ []) more r h = ground arith
reply_stands (a ∷ b ∷ []) more r h = ground arith
reply_stands (a ∷ b ∷ c ∷ rest) more r h =
    ground (arith, length-append rest more, take-append_le c rest more)

reply_refuses :
    (buf more : Bytes) (e : Error)
    → decode_server_reply buf ≡ err e
    → decode_server_reply (buf ++ more) ≡ err e
unfolding decode_server_reply error_reply get_to
reply_refuses [] more r h = ground arith
reply_refuses (a ∷ rest) more r h = ground arith

reply_within :
    (buf : Bytes) (r : ServerReply × ℕ) → decode_server_reply buf ≡ ok (done r) → r.1 ≤ length buf
unfolding decode_server_reply error_reply get_to
reply_within [] r h = ground arith
reply_within (a ∷ []) r h = ground arith
reply_within (a ∷ b ∷ []) r h = ground arith
reply_within (a ∷ b ∷ c ∷ rest) r h = ground arith

reply_no_more_than :
    (buf more : Bytes) (n : ℕ) (r : ServerReply × ℕ)
    → decode_server_reply buf ≡ ok (need n)
    → decode_server_reply (buf ++ more) ≡ ok (done r)
    → n ≤ r.1
unfolding decode_server_reply error_reply get_to
reply_no_more_than [] [] n r h k = ground arith
reply_no_more_than [] (x ∷ []) n r h k = ground arith
reply_no_more_than [] (x ∷ y ∷ []) n r h k = ground arith
reply_no_more_than [] (x ∷ y ∷ z ∷ more) n r h k = ground arith
reply_no_more_than (a ∷ []) [] n r h k = ground arith
reply_no_more_than (a ∷ []) (x ∷ []) n r h k = ground arith
reply_no_more_than (a ∷ []) (x ∷ y ∷ more) n r h k = ground arith
reply_no_more_than (a ∷ b ∷ []) [] n r h k = ground arith
reply_no_more_than (a ∷ b ∷ []) (x ∷ more) n r h k = ground arith
reply_no_more_than (a ∷ b ∷ c ∷ rest) more n r h k = ground arith

pub decode_server_reply-IsIncremental : IsIncremental decode_server_reply (λ r. r.1)
decode_server_reply-IsIncremental = record {
  returns = reply-Returns;
  asks_more = reply_asks_more;
  stands = reply_stands;
  refuses = reply_refuses;
  within = reply_within;
  no_more_than = reply_no_more_than;
}

-- However a server's reply is cut, the decoder finishes with the same reply if the front holds all
-- of it, and otherwise asks for more bytes than there are and for none behind the reply.
pub decode_server_reply_cut :
    (front more : Bytes) (message : ServerReply × ℕ)
    → decode_server_reply (front ++ more) ≡ ok (done message)
    → CutOf decode_server_reply (λ r. r.1) front message
decode_server_reply_cut front more message h =
    cut decode_server_reply (λ r. r.1) decode_server_reply-IsIncremental front more message h
