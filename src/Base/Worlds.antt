-- ===== src/Base/Worlds.antt =====
-- A coroutine that shares a database with others. At each `await` on the database the transactions
-- of others may have changed it, so an access first lets them act; what they do, and what the clock
-- reads, is the environment's choice.
use Prim.Native.Nat.{ℕ, suc}
use productline_agent.Base.Results.{Result, ok, err, Exec}

-- A `datetime`, in microseconds, with or without a time zone.
pub data Instant : Type 0 where
  aware : ℕ → Instant
  naive : Instant

pub record Env (Db : Type 0) : Type 0 where
  pub others : ℕ → Db → Db
  pub now : ℕ → Instant

pub record World (Db : Type 0) : Type 0 where
  pub db : Db
  pub turn : ℕ
  pub ticks : ℕ

module _ {Db E A : Type 0} (env : Env Db) where
  -- A statement that reads.
  abbrev pub reads : (Db → A) → Exec (World Db) E A
  reads f w =
      let db = env.others w.turn w.db in (ok (f db), record w { db = db; turn = suc w.turn })

  -- A statement that writes, and returns.
  abbrev pub writes : (Db → Result E A × Db) → Exec (World Db) E A
  writes f w =
      let (r, db) = f (env.others w.turn w.db) in (r, record w { db = db; turn = suc w.turn })

abbrev pub aware_time : {E : Type 0} → E → Instant → Result E ℕ
aware_time e (aware t) = ok t
aware_time e naive = err e

-- `self._now()`, and the test of its time zone: `e` is raised for a naive time.
abbrev pub timestamp : {Db E : Type 0} → Env Db → E → Exec (World Db) E ℕ
timestamp env e w = (aware_time e (env.now w.ticks), record w { ticks = suc w.ticks })
