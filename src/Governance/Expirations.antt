-- ===== src/Governance/Expirations.antt =====
-- src/formulas/formulas/utils.ts and types.ts: expirations of proposals.
--
-- `at_time` is a decimal string of nanoseconds. The code compares and adds times as floats, which
-- round; here they are exact: `ms >= Number(ns) / 1e6` is `ns <= ms * 10^6`.
use dao_dao_indexer.Prelude.{
  ℕ, ◌+◌, ◌*◌, ◌≤◌, ◌≡◌, Bool, true, false, Option, none, some, leb, arith,
}

pub data Expiration : Type 0 where
  at_height at_time : ℕ → Expiration
  never : Expiration

pub data Duration : Type 0 where
  height time : ℕ → Duration

-- `env.block.height` and `env.date.getTime()`.
pub record Env : Type 0 where
  pub block_height : ℕ
  pub date_ms : ℕ

abbrev pub nanos_per_milli : ℕ
nanos_per_milli = 1000000

abbrev pub nanos_per_second : ℕ
nanos_per_second = 1000000000

unfoldable pub is_expiration_expired : Env → Expiration → Bool
is_expiration_expired env (at_height h) = leb h env.block_height
is_expiration_expired env (at_time t) = leb t (env.date_ms * nanos_per_milli)
is_expiration_expired env never = false

-- `none` is the error of units that do not match.
unfoldable pub expiration_plus_duration : Expiration → Duration → Option Expiration
expiration_plus_duration (at_height h) (height d) = some (at_height (h + d))
expiration_plus_duration (at_time t) (time d) = some (at_time (t + d * nanos_per_second))
expiration_plus_duration _ _ = none

-- Time only goes on.
pub record IsLaterEnv (env later : Env) : Type 0 where
  pub height_grows : env.block_height ≤ later.block_height
  pub date_grows : env.date_ms ≤ later.date_ms

-- What has expired stays expired.
pub is_expiration_expired_mono :
    (env later : Env) (e : Expiration)
    → IsLaterEnv env later
    → is_expiration_expired env e ≡ true
    → is_expiration_expired later e ≡ true
unfolding is_expiration_expired
is_expiration_expired_mono env later (at_height h) l e = ground arith
is_expiration_expired_mono env later (at_time t) l e = ground arith
is_expiration_expired_mono env later never l e = e

-- An expiration that a duration was added to and that has expired had expired before it was added.
pub is_expiration_expired-plus :
    (env : Env) (e : Expiration) (d : Duration) {e' : Expiration}
    → expiration_plus_duration e d ≡ some e'
    → is_expiration_expired env e' ≡ true
    → is_expiration_expired env e ≡ true
unfolding is_expiration_expired expiration_plus_duration
is_expiration_expired-plus env (at_height h) (height d) p x = ground arith
is_expiration_expired-plus env (at_time t) (time d) p x = ground arith
is_expiration_expired-plus env _ _ p x = ground arith
