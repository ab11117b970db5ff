-- ===== src/Limiters.antt =====
-- packages/node/src/rate-limiter.ts and new-name-limiter.ts: the limits of a node on snapshots, requests
-- and new names. A time is a natural number, and `t > now - window` is `now < t + window`, which also
-- holds of a cutoff below 0. The clock is an argument.
pub mod Windows
pub mod Rates
pub mod Names
use Prim.Native.String.{◌++◌}
use pokapali.Prelude.{
  ℕ, suc, ◌+◌, String, Bool, true, false, Option, none, some, List, [], ◌∷◌, Map, map_get, map_set,
  string_eq, length, ltb, leb, if◌then◌else◌, decimal,
}
use mathlib.Core.List.{◌++◌ as append}

abbrev pub hour_ms : ℕ
hour_ms = 3600000

abbrev pub ip_window_ms : ℕ
ip_window_ms = 60000

-- `timestamps.filter((t) => t > cutoff)`
unfoldable pub recent : (window now : ℕ) → List ℕ → List ℕ
recent window now [] = []
recent window now (t ∷ ts) =
    let rest = recent window now ts in if ltb now (t + window) then t ∷ rest else rest

abbrev pub or_empty : Option (List ℕ) → List ℕ
or_empty none = []
or_empty (some ts) = ts

pub record RateLimiterConfig : Type 0 where
  pub max_snapshots_per_hour : ℕ
  pub max_block_size_bytes : ℕ

abbrev pub default_rate_limits : RateLimiterConfig
default_rate_limits = record { max_snapshots_per_hour = 60; max_block_size_bytes = 5000000 }

-- `{ allowed, reason }`
pub data Verdict : Type 0 where
  allowed : Verdict
  refused : (reason : String) → Verdict

-- The times recorded for each name
abbrev pub Entries : Type 0
Entries = Map String (List ℕ)

-- `getEntry` and `pruneOld`
unfoldable pub pruned : (window now : ℕ) → String → Entries → List ℕ
unfolding recent
pruned window now name entries = recent window now (or_empty (map_get name entries))

-- `check` and `record` of `createRateLimiter`
unfoldable pub check_rate :
    RateLimiterConfig → String → (block_size now : ℕ) → Entries → Verdict × Entries
unfolding pruned
check_rate config name block_size now entries =
    let timestamps = pruned hour_ms now name entries in
    if ltb config.max_block_size_bytes block_size
    then (
      Verdict.refused (
          "block size "
          ++ (decimal block_size ++ (" exceeds limit " ++ decimal config.max_block_size_bytes))),
      entries,
    )
    else if leb config.max_snapshots_per_hour (length timestamps)
    then (
      Verdict.refused (
          "rate limit exceeded: "
          ++ (decimal (length timestamps)
              ++ ("/" ++ (decimal config.max_snapshots_per_hour ++ " per hour")))),
      map_set name timestamps entries,
    )
    else (Verdict.allowed, map_set name timestamps entries)

unfoldable pub record_rate : String → (now : ℕ) → Entries → Entries
unfolding pruned
record_rate name now entries =
    map_set name (append (pruned hour_ms now name entries) (now ∷ [])) entries

-- `check` and `record` of `createIpRateLimiter`
unfoldable pub check_ip : (rpm : ℕ) → String → (now : ℕ) → Entries → Bool × Entries
unfolding pruned
check_ip rpm ip now entries =
    let ts = pruned ip_window_ms now ip entries in (ltb (length ts) rpm, map_set ip ts entries)

unfoldable pub record_ip : String → (now : ℕ) → Entries → Entries
unfolding pruned
record_ip ip now entries =
    map_set ip (append (pruned ip_window_ms now ip entries) (now ∷ [])) entries

pub record NewNameLimiter : Type 0 where
  pub timestamps : List ℕ
  pub admitted : ℕ
  pub rejected : ℕ

abbrev pub new_limiter : NewNameLimiter
new_limiter = record { timestamps = []; admitted = 0; rejected = 0 }

-- The loop of `prune`, which stops at the first time that is recent.
unfoldable pub shift_old : (now : ℕ) → List ℕ → List ℕ
shift_old now [] = []
shift_old now (t ∷ ts) =
    let rest = shift_old now ts in if leb (t + hour_ms) now then rest else t ∷ ts

unfoldable pub try_admit : (max_per_hour now : ℕ) → NewNameLimiter → Bool × NewNameLimiter
unfolding shift_old
try_admit max_per_hour now s =
    let timestamps = shift_old now s.timestamps in
    if leb max_per_hour (length timestamps)
    then (false, record s { timestamps = timestamps; rejected = s.rejected + 1 })
    else (true, record s { timestamps = append timestamps (now ∷ []); admitted = s.admitted + 1 })
