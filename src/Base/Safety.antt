-- ===== src/Base/Safety.antt =====
-- Rely and guarantee for coroutines that share a database: what a call guarantees of every state it
-- leaves, provided that all others guarantee the same between its statements.
use productline_agent.Base.{
  ℕ, suc, ◌≡◌, refl, Bool, true, false, Result, ok, err, Exec, lift, raise_if, or_raise, continue,
  ◌>>=◌, ◌>>◌, Env, World, Instant, aware, naive, aware_time, reads, writes, timestamp, Option,
  some, none,
}

-- An invariant of the database, and the changes that are admitted.
pub record Protocol (Db : Type 0) : Type 1 where
  pub Valid : Db → Type 0
  pub Evolves : Db → Db → Type 0
  pub evolves_refl : (db : Db) → Evolves db db
  pub evolves_trans : (a b c : Db) → Evolves a b → Evolves b c → Evolves a c

module _ {Db : Type 0} (p : Protocol Db) where
  open p use {Valid, Evolves, evolves_refl, evolves_trans}

  abbrev pub Rely : Env Db → Type 0
  Rely env = (n : ℕ) (db : Db) → Valid db → Valid (env.others n db) × Evolves db (env.others n db)

  abbrev pub Reaches : Db → Db → Type 0
  Reaches a b = Valid b × Evolves a b

  -- From the state `db` on, the call `m` keeps the protocol, whether it returns or raises.
  abbrev pub SafeAt : {E A : Type 0} → Db → Exec (World Db) E A → Type 0
  SafeAt db m =
      (turn ticks : ℕ)
      → Valid db
      → Reaches db (m (record { db = db; turn = turn; ticks = ticks })).1.db

  abbrev pub Safe : {E A : Type 0} → Exec (World Db) E A → Type 0
  Safe m = (db : Db) → SafeAt db m

  pub Reaches-trans : (a b c : Db) → Evolves a b → Reaches b c → Reaches a c
  Reaches-trans a b c ab (valid, bc) = (valid, evolves_trans a b c ab bc)

  module _ {E A : Type 0} (env : Env Db) (rely : Rely env) where
    pub SafeAt-return : (db : Db) (r : Result E A) → SafeAt db (lift {S = World Db} r)
    SafeAt-return db r turn ticks valid = (valid, evolves_refl db)

    -- A value that is at hand.
    pub SafeAt-lift :
        {B : Type 0} (db : Db) (r : Result E A) (k : A → Exec (World Db) E B)
        → ((a : A) → r ≡ ok a → SafeAt db (k a))
        → SafeAt db (lift r >>= k)
    SafeAt-lift db (ok a) k safe turn ticks valid = safe a refl turn ticks valid
    SafeAt-lift db (err e) k safe turn ticks valid = (valid, evolves_refl db)

    pub SafeAt-or_raise :
        {B : Type 0} (db : Db) (o : Option A) (e : E) (k : A → Exec (World Db) E B)
        → ((a : A) → o ≡ some a → SafeAt db (k a))
        → SafeAt db (or_raise o e >>= k)
    SafeAt-or_raise db none e k safe turn ticks valid = (valid, evolves_refl db)
    SafeAt-or_raise db (some a) e k safe turn ticks valid = safe a refl turn ticks valid

    pub SafeAt-guard :
        (db : Db) (b : Bool) (e : E) (k : Exec (World Db) E A)
        → (b ≡ false → SafeAt db k)
        → SafeAt db (raise_if b e >> k)
    SafeAt-guard db true e k safe turn ticks valid = (valid, evolves_refl db)
    SafeAt-guard db false e k safe turn ticks valid = safe refl turn ticks valid

    pub SafeAt-instant :
        (db : Db) (e : E) (k : ℕ → Exec (World Db) E A)
        → ((t : ℕ) → SafeAt db (k t))
        → SafeAt db (timestamp env e >>= k)
    SafeAt-instant db e k safe turn ticks valid = go (env.now ticks)
      where
        go :
            (i : Instant)
            → Reaches db
                (continue
                  (aware_time e i)
                  k
                  (record { db = db; turn = turn; ticks = suc ticks })).1.db
        go (aware t) = safe t turn (suc ticks) valid
        go naive = (valid, evolves_refl db)

    -- A statement that reads: the rest starts from what it read.
    pub SafeAt-reads :
        {B : Type 0} (db : Db) (f : Db → A) (k : A → Exec (World Db) E B)
        → ((later : Db) → Reaches db later → SafeAt later (k (f later)))
        → SafeAt db (reads env f >>= k)
    SafeAt-reads db f k safe turn ticks valid =
        let reached = rely turn db valid in
        Reaches-trans db (env.others turn db) _ reached.1
          (safe (env.others turn db) reached (suc turn) ticks reached.0)

    -- A statement that writes.
    pub SafeAt-writes :
        {B : Type 0} (db : Db) (f : Db → Result E A × Db) (k : A → Exec (World Db) E B)
        → ((later : Db) → Reaches db later → Reaches later (f later).1)
        → ((a : A) (after : Db) → SafeAt after (k a))
        → SafeAt db (writes env f >>= k)
    SafeAt-writes db f k keeps safe turn ticks valid =
        let before = rely turn db valid in
        let after = keeps (env.others turn db) before in
        Reaches-trans db (env.others turn db) _ before.1 (
          Reaches-trans (env.others turn db) (f (env.others turn db)).1 _ after.1
            (go (f (env.others turn db)).0 (f (env.others turn db)).1 after.0))
      where
        go :
            (r : Result E A) (after : Db)
            → Valid after
            → Reaches after
                (continue r k (record { db = after; turn = suc turn; ticks = ticks })).1.db
        go (ok a) after valid_after = safe a after (suc turn) ticks valid_after
        go (err e) after valid_after = (valid_after, evolves_refl after)

  -- A call within a call: its statements come first.
  pub SafeAt-assoc :
      {E A B C : Type 0} (db : Db) (m : Exec (World Db) E A) (f : A → Exec (World Db) E B)
      (k : B → Exec (World Db) E C)
      → SafeAt db (m >>= λ a. f a >>= k)
      → SafeAt db (m >>= f >>= k)
  SafeAt-assoc {E} {A} db m f k safe turn ticks valid =
      go (m (record { db = db; turn = turn; ticks = ticks })).0
        (m (record { db = db; turn = turn; ticks = ticks })).1 (safe turn ticks valid)
    where
      go :
          (r : Result E A) (w : World Db)
          → Reaches db (continue r (λ a. f a >>= k) w).1.db
          → Reaches db (let (x, w') = continue r f w in continue x k w').1.db
      go (ok a) w h = h
      go (err e) w h = h
