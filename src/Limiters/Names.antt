-- ===== src/Limiters/Names.antt =====
-- packages/node/src/new-name-limiter.ts: the limiter of new names against the log of its admissions.
use pokapali.Prelude.{
  ℕ, ◌+◌, ◌≤◌, ◌≡◌, refl, sym, ap, ◌∙◌, subst, true, List, [], ◌∷◌, ◌++◌, length, length-append,
  ltb, leb, Bool-cases, inl, inr, arith, if◌then◌else◌,
}
use pokapali.Limiters.{hour_ms, recent, shift_old, NewNameLimiter, new_limiter, try_admit}
use pokapali.Limiters.Windows.{
  AllUpTo, AllFrom, Ascending, shift_old-eq-recent, recent-recent, recent-append,
}

AllUpTo-weaken : (n k : ℕ) (ts : List ℕ) → n ≤ k → AllUpTo n ts → AllUpTo k ts
AllUpTo-weaken n k [] le h = tt
AllUpTo-weaken n k (t ∷ ts) le h = (omega arith, AllUpTo-weaken n k ts le h.1)

AllUpTo-append : (n : ℕ) (ts : List ℕ) → AllUpTo n ts → AllUpTo n (ts ++ n ∷ [])
AllUpTo-append n [] h = (omega arith, tt)
AllUpTo-append n (t ∷ ts) h = (h.0, AllUpTo-append n ts h.1)

AllFrom-append : (n t : ℕ) (ts : List ℕ) → t ≤ n → AllFrom t ts → AllFrom t (ts ++ n ∷ [])
AllFrom-append n t [] le h = (le, tt)
AllFrom-append n t (x ∷ ts) le h = (h.0, AllFrom-append n t ts le h.1)

Ascending-append : (n : ℕ) (ts : List ℕ) → Ascending ts → AllUpTo n ts → Ascending (ts ++ n ∷ [])
Ascending-append n [] h u = (tt, tt)
Ascending-append n (t ∷ ts) h u = (AllFrom-append n t ts u.0 h.0, Ascending-append n ts h.1 u.1)

AllFrom-recent : (now t : ℕ) (ts : List ℕ) → AllFrom t ts → AllFrom t (recent hour_ms now ts)
unfolding recent
AllFrom-recent now t [] h = tt
AllFrom-recent now t (x ∷ ts) h = elim (Bool-cases (ltb now (x + hour_ms))) [
  | inl r ↦ rw r (h.0, AllFrom-recent now t ts h.1)
  | inr r ↦ rw r (AllFrom-recent now t ts h.1)
]

Ascending-recent : (now : ℕ) (ts : List ℕ) → Ascending ts → Ascending (recent hour_ms now ts)
unfolding recent
Ascending-recent now [] h = tt
Ascending-recent now (x ∷ ts) h = elim (Bool-cases (ltb now (x + hour_ms))) [
  | inl r ↦ rw r (AllFrom-recent now x ts h.0, Ascending-recent now ts h.1)
  | inr r ↦ rw r (Ascending-recent now ts h.1)
]

recent_now : (now : ℕ) → recent hour_ms now (now ∷ []) ≡ now ∷ []
unfolding recent
recent_now now = let fresh : ltb now (now + hour_ms) ≡ true = ground arith in rw fresh

-- The limiter at the time `last` against the times of all admissions so far: it holds those of the
-- last hour, which are at most `max`, and counts them all.
pub record Windowed (max last : ℕ) (s : NewNameLimiter) (log : List ℕ) : Type 0 where
  pub past : AllUpTo last log
  pub ascending : Ascending log
  pub window : s.timestamps ≡ recent hour_ms last log
  pub within : length s.timestamps ≤ max
  pub counted : s.admitted ≡ length log

pruned_log :
    (max last now : ℕ) (s : NewNameLimiter) (log : List ℕ)
    → Windowed max last s log
    → last ≤ now
    → shift_old now s.timestamps ≡ recent hour_ms now log
pruned_log max last now s log h le =
    let asc : Ascending s.timestamps =
      subst Ascending (sym h.window) (Ascending-recent last log h.ascending) in
    shift_old-eq-recent now s.timestamps asc
    ∙ ap (recent hour_ms now) h.window
    ∙ recent-recent hour_ms last now log le

length-shift_old : (now : ℕ) (ts : List ℕ) → length (shift_old now ts) ≤ length ts
unfolding shift_old
length-shift_old now [] = omega arith
length-shift_old now (t ∷ ts) =
    let ih = length-shift_old now ts in
    elim (Bool-cases (leb (t + hour_ms) now)) [
      | inl r ↦ rw r (omega arith)
      | inr r ↦ rw r (omega arith)
    ]

-- A call at a time that is not before the last one admits exactly if fewer than `max` names were
-- admitted in the hour up to it, and leaves the limiter in step with the log of admissions.
try_admit-Windowed :
    (max last now : ℕ) (s : NewNameLimiter) (log : List ℕ)
    → Windowed max last s log
    → last ≤ now
    → ((try_admit max now s).0 ≡ ltb (length (recent hour_ms now log)) max)
      × Windowed max now
          (try_admit max now s).1
          (if (try_admit max now s).0 then log ++ now ∷ [] else log)
unfolding try_admit
try_admit-Windowed max last now s log h le =
    let e = pruned_log max last now s log h le in
    let n : length (shift_old now s.timestamps) ≡ length (recent hour_ms now log) = ap length e in
    let past = AllUpTo-weaken last now log le h.past in
    elim (Bool-cases (leb max (length (shift_old now s.timestamps)))) [
      | inl full ↦
          rw (full, try_admit)
            (
              ground arith,
              record {
                past = past;
                ascending = h.ascending;
                window = e;
                within = omega (arith, length-shift_old now s.timestamps, h.within);
                counted = h.counted;
              },
            )
      | inr free ↦
          rw (free, try_admit)
            (
              ground arith,
              record {
                past = AllUpTo-append now log past;
                ascending = Ascending-append now log h.ascending past;
                window =
                    rw (recent-append hour_ms now log (now ∷ []), recent_now now)
                      (ap (λ ts. ts ++ now ∷ []) e);
                within = rw (length-append (shift_old now s.timestamps) (now ∷ [])) (ground arith);
                counted = rw (length-append log (now ∷ []), h.counted);
              },
            )
    ]

-- The limiter and the times of its admissions after a list of calls.
abbrev pub admit_all : (max : ℕ) → NewNameLimiter → List ℕ → List ℕ → NewNameLimiter × List ℕ
admit_all max s log [] = (s, log)
admit_all max s log (now ∷ rest) =
    admit_all max (try_admit max now s).1 (if (try_admit max now s).0 then log ++ now ∷ [] else log)
      rest

abbrev pub last_of : ℕ → List ℕ → ℕ
last_of last [] = last
last_of last (now ∷ rest) = last_of now rest

admit_all-Windowed :
    (max last : ℕ) (s : NewNameLimiter) (log calls : List ℕ)
    → Windowed max last s log
    → AllFrom last calls
    → Ascending calls
    → Windowed max (last_of last calls) (admit_all max s log calls).0 (admit_all max s log calls).1
admit_all-Windowed max last s log [] h from asc = h
admit_all-Windowed max last s log (now ∷ rest) h from asc =
    admit_all-Windowed max now (try_admit max now s).1
      (if (try_admit max now s).0 then log ++ now ∷ [] else log) rest
      (try_admit-Windowed max last now s log h from.0).1 asc.0 asc.1

from_zero : (ts : List ℕ) → AllFrom 0 ts
from_zero [] = tt
from_zero (t ∷ ts) = (omega arith, from_zero ts)

-- After calls at times that never fall, at most `max` names were admitted in the hour up to the last
-- call, the limiter has counted every admission, and a next call, not before the last one, admits
-- exactly if fewer than `max` names were admitted in the hour up to it.
pub admit_all-recent :
    (max : ℕ) (calls : List ℕ) (next : ℕ)
    → Ascending calls
    → last_of 0 calls ≤ next
    → let (s, log) = admit_all max new_limiter [] calls in
      (length (recent hour_ms (last_of 0 calls) log) ≤ max)
      × (s.admitted ≡ length log)
      × ((try_admit max next s).0 ≡ ltb (length (recent hour_ms next log)) max)
unfolding recent
admit_all-recent max calls next asc le =
    let h =
      admit_all-Windowed max 0 new_limiter [] calls
        (record { past = tt; ascending = tt; window = refl; within = omega arith; counted = refl })
        (from_zero calls) asc in
    let (s, log) = admit_all max new_limiter [] calls in
    (
      subst (λ ts. length ts ≤ max) h.window h.within,
      h.counted,
      (try_admit-Windowed max (last_of 0 calls) next s log h le).0,
    )
