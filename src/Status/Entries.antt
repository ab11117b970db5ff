-- ===== src/Status/Entries.antt =====
-- packages/core/src/doc-status.ts: what the loops of `deriveLoadingState` find among the entries of a chain.
use pokapali.Prelude.{
  ℕ, ◌+◌, ◌≡◌, ◌≢◌, ◌≤◌, ◌<◌, refl, ap, ◌∙◌, subst, String, Option, none, some, [], ◌∷◌, Map,
  AllEntries, string_eq, some_inj, Option-cases, inl, inr, arith, Bool-cases, if◌then◌else◌, ltb,
  ◌==◌,
}
use pokapali.Facts.Types.{ChainEntry, BlockStatus, LoadingState}
use pokapali.Reducers.Chain.Newest.{SomeEntry}
use pokapali.Status.{
  started, or_unknown, fetching_entry, retry_delay, failed_entry, first_entry,
  max_interpreter_retries,
}

pub first_some :
    (f : ChainEntry → Option LoadingState) (m : Map String ChainEntry) (l : LoadingState)
    → first_entry f m ≡ some l
    → SomeEntry (λ e. f e ≡ some l) m
unfolding first_entry
first_some f [] l h = cc
first_some f ((k, e) ∷ m) l h = elim (Option-cases (f e)) [
  | inl q ↦ inr (first_some f m l (rw (q, first_entry) at h))
  | inr (l', q) ↦ inl (q ∙ (rw (q, first_entry) at h))
]

pub first_none :
    (f : ChainEntry → Option LoadingState) (m : Map String ChainEntry)
    → first_entry f m ≡ none
    → AllEntries (λ k e. f e ≡ none) m
unfolding first_entry
first_none f [] h = tt
first_none f ((k, e) ∷ m) h = elim (Option-cases (f e)) [
  | inl q ↦ (q, first_none f m (rw (q, first_entry) at h))
  | inr (l, q) ↦ cc (rw (q, first_entry) at h)
]

-- An entry whose fetch has a start, which is not the time 0.
abbrev pub BeingFetched : String → ℕ → ChainEntry → Type 0
BeingFetched c t e =
    (e.cid ≡ c) × (e.block_status ≡ BlockStatus.fetching) × (e.fetch_started_at ≡ some t) × (t ≢ 0)

abbrev pub WillRetry : ℕ → String → ℕ → ℕ → ChainEntry → Type 0
WillRetry now c attempt at e =
    (e.cid ≡ c)
    × (e.block_status ≡ BlockStatus.failed)
    × (e.fetch_attempt ≡ attempt)
    × (attempt < max_interpreter_retries)
    × (at ≡ now + retry_delay attempt)

abbrev pub GaveUp : String → String → ChainEntry → Type 0
GaveUp c error e =
    (e.cid ≡ c)
    × (e.block_status ≡ BlockStatus.failed)
    × (max_interpreter_retries ≤ e.fetch_attempt)
    × (error ≡ or_unknown e.last_error)

-- What an entry must be for the two loops to name it.
abbrev pub NamesFetching : LoadingState → ChainEntry → Type 0
NamesFetching (LoadingState.fetching c t) e = BeingFetched c t e
NamesFetching _ e = ⊥

abbrev pub NamesFailed : ℕ → LoadingState → ChainEntry → Type 0
NamesFailed now (LoadingState.retrying c attempt at) e = WillRetry now c attempt at e
NamesFailed now (LoadingState.failed c error) e = GaveUp c error e
NamesFailed now _ e = ⊥

started-some : (o : Option ℕ) (t : ℕ) → started o ≡ some t → (o ≡ some t) × (t ≢ 0)
started-some none t h = cc
started-some (some n) t h = elim (Bool-cases (n == 0)) [
  | inl z ↦ cc (rw (z, started) at h)
  | inr nz ↦
      let e : n ≡ t = some_inj (rw (nz, started) at h) in
      (ap some e, subst (λ x. x ≢ 0) e (λ z. ground arith))
]

fetching_case :
    (e : ChainEntry) (l : LoadingState) (b : BlockStatus) (o : Option ℕ)
    → e.block_status ≡ b
    → started e.fetch_started_at ≡ o
    → (elim b [
      | BlockStatus.fetching ↦ elim o [
        | none ↦ none
        | some t ↦ some (LoadingState.fetching e.cid t)
      ]
      | _ ↦ none
    ])
      ≡ some l
    → NamesFetching l e
fetching_case e l BlockStatus.fetching none q r h = cc
fetching_case e l BlockStatus.fetching (some t) q r h =
    let (s, nz) = started-some e.fetch_started_at t r in
    subst (λ x. NamesFetching x e) (some_inj h) (refl, q, s, nz)
fetching_case e l _ o q r h = cc

failed_case :
    (now : ℕ) (e : ChainEntry) (l : LoadingState) (b : BlockStatus)
    → e.block_status ≡ b
    → (elim b [
      | BlockStatus.failed ↦ some (
          if ltb e.fetch_attempt max_interpreter_retries
          then LoadingState.retrying e.cid e.fetch_attempt (now + retry_delay e.fetch_attempt)
          else LoadingState.failed e.cid (or_unknown e.last_error))
      | _ ↦ none
    ])
      ≡ some l
    → NamesFailed now l e
failed_case now e l BlockStatus.failed q h =
    elim (Bool-cases (ltb e.fetch_attempt max_interpreter_retries)) [
      | inl lt ↦
          subst (λ x. NamesFailed now x e) (some_inj (rw lt at h))
            (refl, q, refl, ground arith, refl)
      | inr ge ↦
          subst (λ x. NamesFailed now x e) (some_inj (rw ge at h)) (refl, q, ground arith, refl)
    ]
failed_case now e l _ q h = cc

pub fetching_entry-Names :
    (e : ChainEntry) (l : LoadingState) → fetching_entry e ≡ some l → NamesFetching l e
unfolding fetching_entry
fetching_entry-Names e l h =
    fetching_case e l e.block_status (started e.fetch_started_at) refl refl h

pub failed_entry-Names :
    (now : ℕ) (e : ChainEntry) (l : LoadingState)
    → failed_entry now e ≡ some l
    → NamesFailed now l e
unfolding failed_entry
failed_entry-Names now e l h = failed_case now e l e.block_status refl h

pub SomeEntry-map :
    {P Q : ChainEntry → Type 0} (m : Map String ChainEntry)
    → ((e : ChainEntry) → P e → Q e)
    → SomeEntry P m
    → SomeEntry Q m
SomeEntry-map ((k, e) ∷ m) f (inl h) = inl (f e h)
SomeEntry-map ((k, e) ∷ m) f (inr h) = inr (SomeEntry-map m f h)
SomeEntry-map [] f h = h

abbrev pub NotFetched : String → ChainEntry → Type 0
NotFetched k e = (c : String) (t : ℕ) → BeingFetched c t e → ⊥

abbrev pub NotFailed : String → ChainEntry → Type 0
NotFailed k e = e.block_status ≢ BlockStatus.failed

start_found : (o : Option ℕ) (t : ℕ) → o ≡ some t → t ≢ 0 → started o ≡ some t
start_found o t h nz =
    rw h (elim (Bool-cases (t == 0)) [ inl z ↦ absurd (nz (ground arith)) | inr n ↦ rw n ])

pub fetching_none : (e : ChainEntry) → fetching_entry e ≡ none → NotFetched "" e
unfolding fetching_entry
fetching_none e h c t (a, b, d, nz) =
    cc (rw (start_found (some t) t refl nz, fetching_entry) at (rw (b, d) at h))

pub failed_none : (now : ℕ) (e : ChainEntry) → failed_entry now e ≡ none → NotFailed "" e
unfolding failed_entry
failed_none now e h q = cc (rw q at h)
