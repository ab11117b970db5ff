-- ===== src/Limiters/Rates.antt =====
-- packages/node/src/rate-limiter.ts: the limiters against the log of their records.
use pokapali.Prelude.{
  ℕ, ◌≤◌, ◌<◌, ◌≡◌, ◌↔◌, refl, ap, ◌∙◌, String, true, List, [], ◌∷◌, ◌++◌, append-nil, map_get,
  map_set, map_get-map_set, string_eq, ◌===◌, length, ltb, leb, Bool-cases, inl, inr, arith,
  if◌then◌else◌,
}
use pokapali.Limiters.{
  hour_ms, ip_window_ms, recent, or_empty, Entries, pruned, allowed, RateLimiterConfig, check_rate,
  record_rate, check_ip, record_ip,
}
use pokapali.Limiters.Windows.{recent-recent, recent-append}

-- The times recorded for a name, in the order of the records.
abbrev pub times_of : String → List (String × ℕ) → List ℕ
times_of name [] = []
times_of name ((n, t) ∷ log) = if n === name then t ∷ times_of name log else times_of name log

times_of-append :
    (name : String) (log more : List (String × ℕ))
    → times_of name (log ++ more) ≡ times_of name log ++ times_of name more
times_of-append name [] more = refl
times_of-append name ((n, t) ∷ log) more =
    let ih = times_of-append name log more in
    elim (Bool-cases (n === name)) [ inl r ↦ rw (r, ih) | inr r ↦ rw (r, ih) ]

-- The entries, at the time `last`, know of the log of records what any later window shows.
pub record Tracks (window last : ℕ) (entries : Entries) (log : List (String × ℕ)) : Type 0 where
  pub later :
      (name : String) (now : ℕ)
      → last ≤ now
      → recent window now (or_empty (map_get name entries)) ≡ recent window now (times_of name log)

get_set :
    (name q : String) (ts : List ℕ) (entries : Entries)
    → or_empty (map_get q (map_set name ts entries))
      ≡ (if name === q then ts else or_empty (map_get q entries))
get_set name q ts entries = elim (Bool-cases (name === q)) [
  | inl r ↦ rw (map_get-map_set name q ts entries, r)
  | inr r ↦ rw (map_get-map_set name q ts entries, r)
]

module _ (window last now : ℕ) (entries : Entries) (log : List (String × ℕ))
    (h : Tracks window last entries log) (le : last ≤ now) where
  pruned-times_of :
      (name : String) → pruned window now name entries ≡ recent window now (times_of name log)
  unfolding pruned
  pruned-times_of name = h.later name now le

  pruned_later :
      (name q : String) (u : ℕ)
      → now ≤ u
      → (name === q) ≡ true
      → recent window u (pruned window now name entries) ≡ recent window u (times_of q log)
  pruned_later name q u later r =
      ap (recent window u) (pruned-times_of name)
      ∙ recent-recent window now u (times_of name log) later
      ∙ ap (λ x. recent window u (times_of x log)) ((string_eq.beq_iff name q).0 r)

  pruning-Tracks :
      (name : String)
      → Tracks window now (map_set name (pruned window now name entries) entries) log
  pruning-Tracks name = record {
    later = λ q u later.
        rw (get_set name q (pruned window now name entries) entries)
          (elim (Bool-cases (name === q)) [
            | inl r ↦ rw r (pruned_later name q u later r)
            | inr r ↦ rw r (h.later q u (omega arith))
          ]);
  }

  recording-Tracks :
      (name : String)
      → Tracks window now
          (map_set name (pruned window now name entries ++ now ∷ []) entries)
          (log ++ (name, now) ∷ [])
  recording-Tracks name = record {
    later = λ q u later.
        rw
          (
            get_set name q (pruned window now name entries ++ now ∷ []) entries,
            times_of-append q log ((name, now) ∷ []),
          )
          (elim (Bool-cases (name === q)) [
            | inl r ↦
                rw
                  (
                    r,
                    recent-append window u (pruned window now name entries) (now ∷ []),
                    recent-append window u (times_of q log) (now ∷ []),
                  )
                  (ap (λ x. x ++ recent window u (now ∷ [])) (pruned_later name q u later r))
            | inr r ↦ rw (r, append-nil (times_of q log)) (h.later q u (omega arith))
          ]);
  }

-- The call of a limiter: a check of a block's size, or a record.
pub data Call : Type 0 where
  checks : (name : String) (block_size now : ℕ) → Call
  records : (name : String) (now : ℕ) → Call

abbrev time_of : Call → ℕ
time_of (checks name size now) = now
time_of (records name now) = now

unfoldable pub run_call : RateLimiterConfig → Call → Entries → Entries
unfolding check_rate record_rate
run_call config (checks name size now) entries = (check_rate config name size now entries).1
run_call config (records name now) entries = record_rate name now entries

abbrev log_call : Call → List (String × ℕ) → List (String × ℕ)
log_call (checks name size now) log = log
log_call (records name now) log = log ++ (name, now) ∷ []

Tracks-weaken :
    (window last now : ℕ) (entries : Entries) (log : List (String × ℕ))
    → Tracks window last entries log
    → last ≤ now
    → Tracks window now entries log
Tracks-weaken window last now entries log h le = record {
  later = λ q u later. h.later q u (omega arith);
}

run_call-Tracks :
    (config : RateLimiterConfig) (c : Call) (last : ℕ) (entries : Entries) (log : List (String × ℕ))
    → Tracks hour_ms last entries log
    → last ≤ time_of c
    → Tracks hour_ms (time_of c) (run_call config c entries) (log_call c log)
unfolding run_call check_rate
run_call-Tracks config (records name now) last entries log h le =
    unfold record_rate in recording-Tracks hour_ms last now entries log h le name
run_call-Tracks config (checks name size now) last entries log h le =
    elim (Bool-cases (ltb config.max_block_size_bytes size)) [
      | inl big ↦ rw (big, run_call, check_rate) (Tracks-weaken hour_ms last now entries log h le)
      | inr small ↦
          elim (Bool-cases
            (leb config.max_snapshots_per_hour (length (pruned hour_ms now name entries)))) [
              | inl full ↦
                  rw (small, full, run_call, check_rate)
                    (pruning-Tracks hour_ms last now entries log h le name)
              | inr free ↦
                  rw (small, free, run_call, check_rate)
                    (pruning-Tracks hour_ms last now entries log h le name)
            ]
    ]

-- The entries and the records after a list of calls.
abbrev pub run_calls : RateLimiterConfig → Entries → List Call → Entries
run_calls config entries [] = entries
run_calls config entries (c ∷ cs) = run_calls config (run_call config c entries) cs

abbrev pub log_calls : List (String × ℕ) → List Call → List (String × ℕ)
log_calls log [] = log
log_calls log (c ∷ cs) = log_calls (log_call c log) cs

-- The times of the calls never fall, from `last` on, and are at most `now`.
abbrev InOrder : (last now : ℕ) → List Call → Type 0
InOrder last now [] = last ≤ now
InOrder last now (c ∷ cs) = (last ≤ time_of c) × InOrder (time_of c) now cs

run_calls-Tracks :
    (config : RateLimiterConfig) (last now : ℕ) (entries : Entries) (log : List (String × ℕ))
    (cs : List Call)
    → Tracks hour_ms last entries log
    → InOrder last now cs
    → Tracks hour_ms now (run_calls config entries cs) (log_calls log cs)
run_calls-Tracks config last now entries log [] h o = Tracks-weaken hour_ms last now entries log h o
run_calls-Tracks config last now entries log (c ∷ cs) h o =
    run_calls-Tracks config (time_of c) now (run_call config c entries) (log_call c log) cs
      (run_call-Tracks config c last entries log h o.0) o.1

-- After calls at times that never fall, a check allows a block exactly if the block is not too large
-- and fewer records of the name than the limit were made in the hour up to the check.
pub check_rate-allowed :
    (config : RateLimiterConfig) (cs : List Call) (name : String) (block_size now : ℕ)
    → InOrder 0 now cs
    → ((check_rate config name block_size now (run_calls config [] cs)).0 ≡ allowed) ↔ (
        (block_size ≤ config.max_block_size_bytes)
        × (length (recent hour_ms now (times_of name (log_calls [] cs)))
            < config.max_snapshots_per_hour))
unfolding check_rate pruned map_get
check_rate-allowed config cs name block_size now o =
    let h = run_calls-Tracks config 0 now [] [] cs (record { later = λ q u le. refl }) o in
    let e = h.later name now (omega arith) in
    let n : length (pruned hour_ms now name (run_calls config [] cs))
        ≡ length (recent hour_ms now (times_of name (log_calls [] cs))) =
      ap length e in
    elim (Bool-cases (ltb config.max_block_size_bytes block_size)) [
      | inl big ↦ rw big ((λ q. cc), λ ok. ground arith)
      | inr small ↦
          elim (Bool-cases (
            leb config.max_snapshots_per_hour
              (length (pruned hour_ms now name (run_calls config [] cs))))) [
                | inl full ↦ rw (small, full) ((λ q. cc), λ ok. ground arith)
                | inr free ↦ rw (small, free) ((λ q. (ground arith, ground arith)), λ ok. refl)
              ]
    ]

-- The limiter of requests, in step with the log of its records, allows a request exactly if fewer than
-- `rpm` requests of the address were recorded in the minute up to it; a check and a record, at a time
-- that is not before the last one, keep it in step.
pub check_ip-Tracks :
    (rpm last now : ℕ) (ip : String) (entries : Entries) (log : List (String × ℕ))
    → Tracks ip_window_ms last entries log
    → last ≤ now
    → ((check_ip rpm ip now entries).0
        ≡ ltb (length (recent ip_window_ms now (times_of ip log))) rpm)
      × Tracks ip_window_ms now (check_ip rpm ip now entries).1 log
      × Tracks ip_window_ms now (record_ip ip now entries) (log ++ (ip, now) ∷ [])
unfolding check_ip record_ip
check_ip-Tracks rpm last now ip entries log h le = (
  ap (λ ts. ltb (length ts) rpm) (pruned-times_of ip_window_ms last now entries log h le ip),
  pruning-Tracks ip_window_ms last now entries log h le ip,
  recording-Tracks ip_window_ms last now entries log h le ip,
)
