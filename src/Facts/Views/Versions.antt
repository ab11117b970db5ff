-- ===== src/Facts/Views/Versions.antt =====
-- packages/core/src/facts.ts: what `versionHistory` lists.
use pokapali.Prelude.{
  ◌⊎◌, ◌↔◌, ℕ, suc, ◌≡◌, refl, sym, ap, ◌∙◌, subst, String, Bool, true, false, Option, none, some,
  List, [], ◌∷◌, Map, length, Option-cases, inl, inr, some_inj,
}
use pokapali.Facts.Types.{BlockStatus, ChainEntry, ChainState}
use pokapali.Reducers.Chain.Newest.{SomeEntry}
use pokapali.Facts.Views.{
  is_available, or_zero, with_seq, sort_desc, pair_seq, summary, summaries, version_history,
  VersionSummary,
}
use pokapali.Facts.Views.Sorting.{
  AllBelow, Any, Descending, sort_desc-Descending, sort-Any, length-sort_desc,
}

AllBelow-summaries :
    (n : ℕ) (ps : List (ChainEntry × ℕ))
    → AllBelow pair_seq n ps
    → AllBelow (λ (v : VersionSummary). v.seq) n (summaries ps)
unfolding summaries summary
AllBelow-summaries n [] h = tt
AllBelow-summaries n ((e, k) ∷ ps) h = (h.0, AllBelow-summaries n ps h.1)

Descending-summaries :
    (ps : List (ChainEntry × ℕ))
    → Descending pair_seq ps
    → Descending (λ (v : VersionSummary). v.seq) (summaries ps)
unfolding summaries summary
Descending-summaries [] h = tt
Descending-summaries ((e, k) ∷ ps) h = (AllBelow-summaries k ps h.0, Descending-summaries ps h.1)

-- The time of an entry, which is 0 where it has none.
abbrev pub TimeOf : Option ℕ → ℕ → Type 0
TimeOf none ts = ts ≡ 0
TimeOf (some t) ts = ts ≡ t

pub TimeOf-or_zero : (o : Option ℕ) → TimeOf o (or_zero o)
TimeOf-or_zero none = refl
TimeOf-or_zero (some t) = refl

pub or_zero-TimeOf : (o : Option ℕ) (ts : ℕ) → TimeOf o ts → or_zero o ≡ ts
or_zero-TimeOf none ts h = sym h
or_zero-TimeOf (some t) ts h = sym h

abbrev pub IsHeld : BlockStatus → Type 0
IsHeld b = (b ≡ BlockStatus.fetched) ⊎ (b ≡ BlockStatus.applied)

-- The summary is the entry's: its number, CID and time, and whether its block is held.
abbrev pub Summarises : VersionSummary → ChainEntry → Type 0
Summarises v e =
    (e.seq ≡ some v.seq)
    × (e.cid ≡ v.cid)
    × TimeOf e.ts v.ts
    × ((v.available ≡ true) ↔ IsHeld e.block_status)

is_available_iff : (b : BlockStatus) → (is_available b ≡ true) ↔ IsHeld b
is_available_iff BlockStatus.fetched = (λ h. inl refl, λ h. refl)
is_available_iff BlockStatus.applied = (λ h. inr refl, λ h. refl)
is_available_iff BlockStatus.failed = (λ h. cc, λ h. elim h [ inl e ↦ cc | inr e ↦ cc ])
is_available_iff BlockStatus.unknown = (λ h. cc, λ h. elim h [ inl e ↦ cc | inr e ↦ cc ])
is_available_iff BlockStatus.fetching = (λ h. cc, λ h. elim h [ inl e ↦ cc | inr e ↦ cc ])

same_truth : {X : Type 0} (a b : Bool) → ((a ≡ true) ↔ X) → ((b ≡ true) ↔ X) → a ≡ b
same_truth true b h k = sym (k.1 (h.0 refl))
same_truth false true h k = h.1 (k.0 refl)
same_truth false false h k = refl

summary-Summarises : (e : ChainEntry) (n : ℕ) → e.seq ≡ some n → Summarises (summary (e, n)) e
unfolding summary
summary-Summarises e n h = (h, refl, TimeOf-or_zero e.ts, is_available_iff e.block_status)

Summarises-summary :
    (v : VersionSummary) (e : ChainEntry) (n : ℕ)
    → e.seq ≡ some n
    → Summarises v e
    → summary (e, n) ≡ v
unfolding summary
Summarises-summary v e n h (seq, cid, ts, held) =
    let number : n ≡ v.seq = some_inj (sym h ∙ seq) in
    let time : or_zero e.ts ≡ v.ts = or_zero-TimeOf e.ts v.ts ts in
    let kept : is_available e.block_status ≡ v.available =
      same_truth (is_available e.block_status) v.available (is_available_iff e.block_status) held in
    λ i. record { cid = cid i; seq = number i; ts = time i; available = kept i }

with_seq-none :
    (k : String) (e : ChainEntry) (m : Map String ChainEntry)
    → e.seq ≡ none
    → with_seq ((k, e) ∷ m) ≡ with_seq m
unfolding with_seq
with_seq-none k e m q = rw (q, with_seq)

with_seq-some :
    (k : String) (e : ChainEntry) (n : ℕ) (m : Map String ChainEntry)
    → e.seq ≡ some n
    → with_seq ((k, e) ∷ m) ≡ (e, n) ∷ with_seq m
unfolding with_seq
with_seq-some k e n m q = ap (λ o. elim o [ none ↦ with_seq m | some n ↦ (e, n) ∷ with_seq m ]) q

Any-summaries :
    (v : VersionSummary) (m : Map String ChainEntry)
    → Any (λ x. x ≡ v) (summaries (with_seq m)) ↔ SomeEntry (Summarises v) m
unfolding with_seq summaries
Any-summaries v [] = (λ h. h, λ h. h)
Any-summaries v ((k, e) ∷ m) =
    let (to, from) = Any-summaries v m in
    let Goal : List (ChainEntry × ℕ) → Type 0 =
      λ ps. Any (λ x. x ≡ v) (summaries ps) ↔ SomeEntry (Summarises v) ((k, e) ∷ m) in
    elim (Option-cases e.seq) [
      | inl q ↦ subst Goal (sym (with_seq-none k e m q)) (λ h. inr (to h), drop (numberless q) from)
      | inr (n, q) ↦ subst Goal (sym (with_seq-some k e n m q)) (
        both (λ s. subst (λ x. Summarises x e) s (summary-Summarises e n q)) to,
        both (Summarises-summary v e n q) from,
      )
    ]
  where
    drop : {X Y Z : Type 0} → (X → ⊥) → (Y → Z) → X ⊎ Y → Z
    drop f g (inl x) = absurd (f x)
    drop f g (inr y) = g y

    both : {X Y Z W : Type 0} → (X → Z) → (Y → W) → X ⊎ Y → Z ⊎ W
    both f g (inl x) = inl (f x)
    both f g (inr y) = inr (g y)

    numberless : e.seq ≡ none → Summarises v e → ⊥
    numberless q h = let g : e.seq ≡ some v.seq = h.0 in cc

-- The number of entries with a number
abbrev pub numbered : Map String ChainEntry → ℕ
numbered [] = 0
numbered ((k, e) ∷ m) = let rest = numbered m in elim e.seq [ none ↦ rest | some n ↦ suc rest ]

length-numbered : (m : Map String ChainEntry) → length (with_seq m) ≡ numbered m
unfolding with_seq
length-numbered [] = refl
length-numbered ((k, e) ∷ m) = elim (Option-cases e.seq) [
  | inl q ↦ rw (q, with_seq) (length-numbered m)
  | inr (n, q) ↦ rw (q, with_seq) (ap suc (length-numbered m))
]

length-summaries : (ps : List (ChainEntry × ℕ)) → length (summaries ps) ≡ length ps
unfolding summaries
length-summaries [] = refl
length-summaries (p ∷ ps) = ap suc (length-summaries ps)

Any-map_summary :
    (v : VersionSummary) (ps : List (ChainEntry × ℕ))
    → Any (λ x. x ≡ v) (summaries ps) ≡ Any (λ p. summary p ≡ v) ps
unfolding summaries
Any-map_summary v [] = refl
Any-map_summary v (p ∷ ps) = ap (λ T. (summary p ≡ v) ⊎ T) (Any-map_summary v ps)

-- The version history is sorted from the newest number down. A summary is listed exactly if it is that
-- of an entry with a number: its CID, its number, its time, or 0 where it has none, and available
-- exactly if its block is fetched or applied. There are as many summaries as entries with a number.
pub version_history_lem :
    (chain : ChainState) (v : VersionSummary)
    → Descending (λ (x : VersionSummary). x.seq) (version_history chain)
      × (Any (λ x. x ≡ v) (version_history chain) ↔ SomeEntry (Summarises v) chain.entries)
      × (length (version_history chain) ≡ numbered chain.entries)
unfolding version_history
version_history_lem chain v =
    let pairs = with_seq chain.entries in
    let (to, from) = sort-Any pair_seq (λ p. summary p ≡ v) pairs in
    let (listed, shown) = Any-summaries v chain.entries in
    let sorted = Any-map_summary v (sort_desc pair_seq pairs) in
    let before = Any-map_summary v pairs in
    (
      Descending-summaries _ (sort_desc-Descending pair_seq pairs),
      (
        λ h. listed (subst (λ T. T) (sym before) (from (subst (λ T. T) sorted h))),
        λ h. subst (λ T. T) (sym sorted) (to (subst (λ T. T) before (shown h))),
      ),
      length-summaries (sort_desc pair_seq pairs)
          ∙ length-sort_desc pair_seq pairs
          ∙ length-numbered chain.entries,
    )
