-- ===== src/ReusePool/Laws.antt =====
-- `take` of pool.rs, and the pool over a sequence of calls.
use snell_rs.Prelude.{
  ℕ, ◌≤◌, ◌≡◌, sym, ap, ◌∙◌, List, [], ◌∷◌, ◌++◌, Bool, true, false, ◌&&◌, not, Option, none, some,
  length, arith, All, length-append, Bool-cases, inl, inr,
}
use snell_rs.ReusePool.{PooledEntry, ReusePool, take_from, take, put, retain, expire, is_fresh}

-- A request to the pool: its kind, the time, the sockets that are dead, the connection to put.
pub data Op (Conn : Type 0) : Type 0 where
  take_op : ℕ → (Conn → Bool) → Op Conn
  put_op : ℕ → (Conn → Bool) → Conn → Op Conn
  expire_op : ℕ → Op Conn

module _ {Conn : Type 0} where
  -- An entry that a session can be given.
  abbrev pub usable : ℕ → ℕ → (Conn → Bool) → PooledEntry Conn → Bool
  usable now max_idle dead entry = is_fresh now max_idle entry && not (dead entry.conn)

  abbrev pub Useless : ℕ → ℕ → (Conn → Bool) → PooledEntry Conn → Type 0
  Useless now max_idle dead entry = usable now max_idle dead entry ≡ false

  -- What `take` has found: the entries in front of it are useless, and those behind it are kept.
  pub record Taken (now max_idle : ℕ) (dead : Conn → Bool) (entries left : List (PooledEntry Conn))
      (c : Conn) : Type 0 where
    pub front : List (PooledEntry Conn)
    pub entry : PooledEntry Conn
    pub split : entries ≡ front ++ (entry ∷ left)
    pub skipped : All (Useless now max_idle dead) front
    pub usable_entry : usable now max_idle dead entry ≡ true
    pub is_conn : entry.conn ≡ c

  put_behind :
      {now max_idle : ℕ} {dead : Conn → Bool} {x : PooledEntry Conn}
      {xs left : List (PooledEntry Conn)} {c : Conn}
      → Useless now max_idle dead x
      → Taken now max_idle dead xs left c
      → Taken now max_idle dead (x ∷ xs) left c
  put_behind {x = x} bad t = record {
    front = x ∷ t.front;
    entry = t.entry;
    split = ap (λ l. x ∷ l) t.split;
    skipped = (bad, t.skipped);
    usable_entry = t.usable_entry;
    is_conn = t.is_conn;
  }

  take_from-usable :
      (now max_idle : ℕ) (dead : Conn → Bool) (x : PooledEntry Conn) (xs : List (PooledEntry Conn))
      → usable now max_idle dead x ≡ true
      → take_from now max_idle dead (x ∷ xs) ≡ (some x.conn, xs)
  unfolding take_from
  take_from-usable now max_idle dead x xs good = simp good

  take_from-useless :
      (now max_idle : ℕ) (dead : Conn → Bool) (x : PooledEntry Conn) (xs : List (PooledEntry Conn))
      → usable now max_idle dead x ≡ false
      → take_from now max_idle dead (x ∷ xs) ≡ take_from now max_idle dead xs
  unfolding take_from
  take_from-useless now max_idle dead x xs bad = simp bad

  Taken-here :
      (now max_idle : ℕ) (dead : Conn → Bool) (x : PooledEntry Conn)
      (xs left : List (PooledEntry Conn)) (c : Conn)
      → usable now max_idle dead x ≡ true
      → Path (Option Conn × List (PooledEntry Conn)) (some x.conn, xs) (some c, left)
      → Taken now max_idle dead (x ∷ xs) left c
  Taken-here now max_idle dead x xs left c good e = record {
    front = [];
    entry = x;
    split = ap (λ l. x ∷ l) (ap (λ p. p.1) e);
    skipped = tt;
    usable_entry = good;
    is_conn = cc;
  }

  take_from-some :
      (now max_idle : ℕ) (dead : Conn → Bool) (entries left : List (PooledEntry Conn)) (c : Conn)
      → take_from now max_idle dead entries ≡ (some c, left)
      → Taken now max_idle dead entries left c
  unfolding take_from
  take_from-some now max_idle dead [] left c h = cc
  take_from-some now max_idle dead (x ∷ xs) left c h =
      elim (Bool-cases (usable now max_idle dead x)) [
        | inl good ↦
            Taken-here now max_idle dead x xs left c good
              (sym (take_from-usable now max_idle dead x xs good) ∙ h)
        | inr bad ↦
            let rest = sym (take_from-useless now max_idle dead x xs bad) ∙ h in
            put_behind bad (take_from-some now max_idle dead xs left c rest)
      ]

  take_from-none :
      (now max_idle : ℕ) (dead : Conn → Bool) (entries left : List (PooledEntry Conn))
      → take_from now max_idle dead entries ≡ (none, left)
      → All (Useless now max_idle dead) entries × left ≡ []
  unfolding take_from
  take_from-none now max_idle dead [] left h = (tt, cc)
  take_from-none now max_idle dead (x ∷ xs) left h =
      elim (Bool-cases (usable now max_idle dead x)) [
        | inl good ↦ let found = sym (take_from-usable now max_idle dead x xs good) ∙ h in cc
        | inr bad ↦
            let rest =
              take_from-none now max_idle dead xs left
                (sym (take_from-useless now max_idle dead x xs bad) ∙ h) in
            ((bad, rest.0), rest.1)
      ]

  found_left :
      (pool left : ReusePool Conn) (now : ℕ) (dead : Conn → Bool) (found : Option Conn)
      → take pool now dead ≡ (found, left)
      → take_from now pool.max_idle dead pool.entries ≡ (found, left.entries)
  unfolding take
  found_left pool left now dead found h = ap (λ r. (r.0, r.1.entries)) h

  -- If `take` returns a connection, it is the oldest in the pool that is fresh and alive: every
  -- entry in front of it is too old or dead and leaves the pool with it, and the entries behind it
  -- stay in their order.
  pub take_oldest :
      (pool left : ReusePool Conn) (now : ℕ) (dead : Conn → Bool) (c : Conn)
      → take pool now dead ≡ (some c, left)
      → Taken now pool.max_idle dead pool.entries left.entries c
  take_oldest pool left now dead c h =
      take_from-some now pool.max_idle dead pool.entries left.entries c
        (found_left pool left now dead (some c) h)

  -- If `take` returns no connection, every entry of the pool was too old or dead, and the pool is
  -- left empty.
  pub take_nothing :
      (pool left : ReusePool Conn) (now : ℕ) (dead : Conn → Bool)
      → take pool now dead ≡ (none, left)
      → All (Useless now pool.max_idle dead) pool.entries × left.entries ≡ []
  take_nothing pool left now dead h =
      take_from-none now pool.max_idle dead pool.entries left.entries
        (found_left pool left now dead none h)

  unfoldable pub after : ReusePool Conn → List (Op Conn) → ReusePool Conn
  after pool [] = pool
  after pool (take_op now dead ∷ ops) = after (take pool now dead).1 ops
  after pool (put_op now dead c ∷ ops) = after (put pool now dead c).1 ops
  after pool (expire_op now ∷ ops) = after (expire pool now) ops

  take_from-length :
      (now max_idle : ℕ) (dead : Conn → Bool) (entries : List (PooledEntry Conn))
      → length (take_from now max_idle dead entries).1 ≤ length entries
  unfolding take_from
  take_from-length now max_idle dead [] = omega arith
  take_from-length now max_idle dead (x ∷ xs) =
      ground (arith, take_from-length now max_idle dead xs)

  length-retain :
      (keep : PooledEntry Conn → Bool) (xs : List (PooledEntry Conn))
      → length (retain keep xs) ≤ length xs
  unfolding retain
  length-retain keep [] = omega arith
  length-retain keep (x ∷ xs) = ground (arith, length-retain keep xs)

  abbrev pub IsBounded : ReusePool Conn → Type 0
  IsBounded pool = length pool.entries ≤ pool.max_size

  take-IsBounded :
      (pool : ReusePool Conn) (now : ℕ) (dead : Conn → Bool)
      → IsBounded pool
      → IsBounded (take pool now dead).1
  unfolding take
  take-IsBounded pool now dead h =
      omega (arith, take_from-length now pool.max_idle dead pool.entries)

  put-IsBounded :
      (pool : ReusePool Conn) (now : ℕ) (dead : Conn → Bool) (c : Conn)
      → IsBounded pool
      → IsBounded (put pool now dead c).1
  unfolding put
  put-IsBounded pool now dead c h =
      ground (arith, length-append pool.entries (record { conn = c; returned_at = now } ∷ []))

  expire-IsBounded :
      (pool : ReusePool Conn) (now : ℕ) → IsBounded pool → IsBounded (expire pool now)
  unfolding expire
  expire-IsBounded pool now h =
      omega (arith, length-retain (is_fresh now pool.max_idle) pool.entries)

  -- A pool of at most `max_size` connections holds at most `max_size` after any sequence of
  -- `take`, `put` and `expire`, at any times and with any sockets dead.
  pub after-IsBounded :
      (pool : ReusePool Conn) (ops : List (Op Conn)) → IsBounded pool → IsBounded (after pool ops)
  unfolding after
  after-IsBounded pool [] h = h
  after-IsBounded pool (take_op now dead ∷ ops) h =
      after-IsBounded (take pool now dead).1 ops (take-IsBounded pool now dead h)
  after-IsBounded pool (put_op now dead c ∷ ops) h =
      after-IsBounded (put pool now dead c).1 ops (put-IsBounded pool now dead c h)
  after-IsBounded pool (expire_op now ∷ ops) h =
      after-IsBounded (expire pool now) ops (expire-IsBounded pool now h)
