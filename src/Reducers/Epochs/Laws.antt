-- ===== src/Reducers/Epochs/Laws.antt =====
-- packages/core/src/reducers.ts: what the reducers of epochs and snapshots do over time.
use pokapali.Prelude.{
  map_get, ◌==◌, ℕ, ◌+◌, ◌≡◌, refl, sym, ap, ◌∙◌, String, Bool, true, false, some, List, [], ◌∷◌,
  set_delete, map_get-map_set, string_eq, ◌===◌, Bool-cases, inl, inr, arith, if◌then◌else◌,
}
use pokapali.Facts.Types.{
  OpenCount, counted, undefined, nan, initial_epochs, ChannelEpochState, EpochState, Fact, Payload,
  epoch_closed, convergence_detected, snapshot_materialized, edit_received, view_cache_loaded,
  view_cache_written,
}
use pokapali.Reducers.Epochs.{
  plus_one, is_inherited, ensure_channel, with_channel, epochs_step, reduce_epochs,
}

ensure-with_channel :
    (s : EpochState) (c q : String) (ch : ChannelEpochState)
    → ensure_channel (with_channel s c ch) q ≡ (if c === q then ch else ensure_channel s q)
unfolding ensure_channel with_channel
ensure-with_channel s c q ch = elim (Bool-cases (c === q)) [
  | inl r ↦ rw (map_get-map_set c q ch s.channels, r, ensure_channel)
  | inr r ↦ rw (map_get-map_set c q ch s.channels, r, ensure_channel)
]

ensure_cong :
    (s : EpochState) (c q : String) → (c === q) ≡ true → ensure_channel s c ≡ ensure_channel s q
ensure_cong s c q h = ap (ensure_channel s) ((string_eq.beq_iff c q).0 h)

-- What a fact about a channel leaves of the channel.
abbrev channel_step : Payload → String → ChannelEpochState → ChannelEpochState
channel_step (epoch_closed c n) q ch =
    if c === q
    then record ch { open_epoch_count = plus_one ch.open_epoch_count; dirty = true }
    else ch
channel_step (convergence_detected c hash) q ch =
    if c === q then record ch { last_convergence_hash = some (some hash); dirty = false } else ch
channel_step (edit_received c hash origin) q ch = if c === q then record ch { dirty = true } else ch
channel_step _ q ch = ch

set_one :
    (s : EpochState) (c q : String) (f : ChannelEpochState → ChannelEpochState)
    → ensure_channel (with_channel s c (f (ensure_channel s c))) q
      ≡ (if c === q then f (ensure_channel s q) else ensure_channel s q)
set_one s c q f = elim (Bool-cases (c === q)) [
  | inl r ↦ rw (ensure-with_channel s c q (f (ensure_channel s c)), r) (ap f (ensure_cong s c q r))
  | inr r ↦ rw (ensure-with_channel s c q (f (ensure_channel s c)), r)
]

stays_dirty : (ch : ChannelEpochState) → ch.dirty ≡ true → record ch { dirty = true } ≡ ch
stays_dirty ch h = λ i. record ch { dirty = sym h i }

edit_one :
    (s : EpochState) (c q : String)
    → ensure_channel
        (if (ensure_channel s c).dirty
          then s
          else with_channel s c (record (ensure_channel s c) { dirty = true }))
        q
      ≡ (if c === q then record (ensure_channel s q) { dirty = true } else ensure_channel s q)
edit_one s c q = elim (Bool-cases (ensure_channel s c).dirty) [
  | inr clean ↦ rw clean (set_one s c q (λ ch. record ch { dirty = true }))
  | inl dirty ↦ elim (Bool-cases (c === q)) [
    | inl r ↦
        rw (dirty, r) (sym (stays_dirty (ensure_channel s q) (rw (ensure_cong s c q r) at dirty)))
    | inr r ↦ rw (dirty, r)
  ]
]

-- A fact takes the state of a channel, found or initial, where `channel_step` says.
channel_of_step :
    (p : Payload) (s : EpochState) (q : String)
    → ensure_channel (epochs_step p s) q ≡ channel_step p q (ensure_channel s q)
unfolding epochs_step
channel_of_step (epoch_closed c n) s q =
    set_one s c q
      (λ ch. record ch { open_epoch_count = plus_one ch.open_epoch_count; dirty = true })
channel_of_step (convergence_detected c hash) s q =
    set_one s c q (λ ch. record ch { last_convergence_hash = some (some hash); dirty = false })
channel_of_step (edit_received c hash origin) s q = edit_one s c q
channel_of_step (snapshot_materialized c n cid seq) s q = unfold ensure_channel in refl
channel_of_step (view_cache_loaded v n) s q = unfold ensure_channel in refl
channel_of_step (view_cache_written v n) s q = unfold ensure_channel in refl
channel_of_step _ s q = refl

-- The epochs after a list of facts.
abbrev pub epochs_after : EpochState → List Fact → EpochState
epochs_after s [] = s
epochs_after s (f ∷ fs) = epochs_after (reduce_epochs s f) fs

-- The number of facts that closed an epoch of the channel.
abbrev pub closed_count : List Fact → String → ℕ
closed_count [] q = 0
closed_count (f ∷ fs) q =
    let rest = closed_count fs q in
    elim f.payload [ epoch_closed c n ↦ (if c === q then 1 + rest else rest) | _ ↦ rest ]

-- Whether the last fact about the channel is a closed epoch or an edit, rather than a convergence.
abbrev pub last_dirty : Bool → List Fact → String → Bool
last_dirty b [] q = b
last_dirty b (f ∷ fs) q =
    last_dirty
      (elim f.payload [
        | epoch_closed c n ↦ if c === q then true else b
        | convergence_detected c hash ↦ if c === q then false else b
        | edit_received c hash origin ↦ if c === q then true else b
        | _ ↦ b
      ])
      fs q

-- A count that epochs were added to, one by one.
abbrev pub grown : OpenCount → ℕ → OpenCount
grown (counted n) k = counted (n + k)
grown nan k = nan
grown undefined k = if k == 0 then undefined else nan

grown-zero : (c : OpenCount) → grown c 0 ≡ c
grown-zero (counted n) = ap counted (omega arith)
grown-zero nan = refl
grown-zero undefined = refl

grown-plus_one : (c : OpenCount) (k : ℕ) → grown (plus_one c) k ≡ grown c (1 + k)
grown-plus_one (counted n) k = ap counted (omega arith)
grown-plus_one nan k = refl
grown-plus_one undefined k = ground arith

count_step :
    (p : Payload) (ch : ChannelEpochState) (f : Fact) (fs : List Fact) (q : String)
    → f.payload ≡ p
    → grown (channel_step p q ch).open_epoch_count (closed_count fs q)
      ≡ grown ch.open_epoch_count (closed_count (f ∷ fs) q)
count_step (epoch_closed c n) ch f fs q h = rw h (elim (Bool-cases (c === q)) [
  | inl r ↦ rw r (grown-plus_one ch.open_epoch_count (closed_count fs q))
  | inr r ↦ rw r
])
count_step (convergence_detected c hash) ch f fs q h =
    rw h (elim (Bool-cases (c === q)) [ inl r ↦ rw r | inr r ↦ rw r ])
count_step (edit_received c hash origin) ch f fs q h =
    rw h (elim (Bool-cases (c === q)) [ inl r ↦ rw r | inr r ↦ rw r ])
count_step _ ch f fs q h = rw h

dirty_step :
    (p : Payload) (ch : ChannelEpochState) (f : Fact) (fs : List Fact) (q : String)
    → f.payload ≡ p
    → last_dirty (channel_step p q ch).dirty fs q ≡ last_dirty ch.dirty (f ∷ fs) q
dirty_step (epoch_closed c n) ch f fs q h =
    rw h (elim (Bool-cases (c === q)) [ inl r ↦ rw r | inr r ↦ rw r ])
dirty_step (convergence_detected c hash) ch f fs q h =
    rw h (elim (Bool-cases (c === q)) [ inl r ↦ rw r | inr r ↦ rw r ])
dirty_step (edit_received c hash origin) ch f fs q h =
    rw h (elim (Bool-cases (c === q)) [ inl r ↦ rw r | inr r ↦ rw r ])
dirty_step _ ch f fs q h = rw h

channel_after :
    (facts : List Fact) (s : EpochState) (q : String)
    → ((ensure_channel (epochs_after s facts) q).open_epoch_count
        ≡ grown (ensure_channel s q).open_epoch_count (closed_count facts q))
      × ((ensure_channel (epochs_after s facts) q).dirty
          ≡ last_dirty (ensure_channel s q).dirty facts q)
unfolding reduce_epochs
channel_after [] s q = (sym (grown-zero (ensure_channel s q).open_epoch_count), refl)
channel_after (f ∷ fs) s q =
    let (count, dirty) = channel_after fs (reduce_epochs s f) q in
    let e = channel_of_step f.payload s q in
    (
      count
          ∙ ap (λ (ch : ChannelEpochState). grown ch.open_epoch_count (closed_count fs q)) e
          ∙ count_step f.payload (ensure_channel s q) f fs q refl,
      dirty
          ∙ ap (λ (ch : ChannelEpochState). last_dirty ch.dirty fs q) e
          ∙ dirty_step f.payload (ensure_channel s q) f fs q refl,
    )

-- The count of a channel that had no record, after closed epochs.
abbrev pub fresh_count : String → ℕ → OpenCount
fresh_count q k = if is_inherited q then (if k == 0 then undefined else nan) else counted k

fresh_channel :
    (s : EpochState) (q : String) (k : ℕ)
    → s.channels ≡ []
    → grown (ensure_channel s q).open_epoch_count k ≡ fresh_count q k
unfolding ensure_channel map_get
fresh_channel s q k h = rw h (elim (Bool-cases (is_inherited q)) [
  | inl r ↦ rw (ensure_channel, r)
  | inr r ↦ rw (ensure_channel, r) (ap counted (omega arith))
])

-- After any facts, from the state of a new document, the open epoch count of a channel is the number of
-- facts that closed an epoch of it, except for a name that every object inherits, such as
-- `constructor`: its count is NaN from the first closed epoch on. From any state the count that is
-- there grows by the number of closed epochs, and the channel is dirty exactly if the last fact about
-- it closed an epoch or was an edit, or there was none about it and it was dirty before.
pub channels-epochs_after :
    (facts : List Fact) (s : EpochState) (q : String)
    → ((ensure_channel (epochs_after initial_epochs facts) q).open_epoch_count
        ≡ fresh_count q (closed_count facts q))
      × ((ensure_channel (epochs_after s facts) q).open_epoch_count
          ≡ grown (ensure_channel s q).open_epoch_count (closed_count facts q))
      × ((ensure_channel (epochs_after s facts) q).dirty
          ≡ last_dirty (ensure_channel s q).dirty facts q)
channels-epochs_after facts s q = (
  (channel_after facts initial_epochs q).0
      ∙ fresh_channel initial_epochs q (closed_count facts q) refl,
  (channel_after facts s q).0,
  (channel_after facts s q).1,
)

-- Nothing is waiting for a snapshot, and no cache of a view is stale.
pub record NothingPending (s : EpochState) : Type 0 where
  pub no_snapshots : s.pending_snapshots ≡ []
  pub no_stale : s.view_cache_stale ≡ []

delete_none : (k : String) (xs : List String) → xs ≡ [] → set_delete k xs ≡ []
unfolding set_delete
delete_none k xs h = rw h

step-NothingPending :
    (p : Payload) (s : EpochState) → NothingPending s → NothingPending (epochs_step p s)
unfolding epochs_step with_channel
step-NothingPending (epoch_closed c n) s h = record {
  no_snapshots = h.no_snapshots;
  no_stale = h.no_stale;
}
step-NothingPending (convergence_detected c hash) s h = record {
  no_snapshots = h.no_snapshots;
  no_stale = h.no_stale;
}
step-NothingPending (edit_received c hash origin) s h =
    elim (Bool-cases (ensure_channel s c).dirty) [
      | inl d ↦ rw d h
      | inr d ↦ rw d (record { no_snapshots = h.no_snapshots; no_stale = h.no_stale })
    ]
step-NothingPending (snapshot_materialized c n cid seq) s h = record {
  no_snapshots = delete_none _ s.pending_snapshots h.no_snapshots;
  no_stale = h.no_stale;
}
step-NothingPending (view_cache_loaded v n) s h = record {
  no_snapshots = h.no_snapshots;
  no_stale = delete_none v s.view_cache_stale h.no_stale;
}
step-NothingPending (view_cache_written v n) s h = record {
  no_snapshots = h.no_snapshots;
  no_stale = delete_none v s.view_cache_stale h.no_stale;
}
step-NothingPending _ s h = h

-- No facts ever add a pending snapshot or a stale cache: where there are none, there are none after
-- any facts.
pub epochs_after-NothingPending :
    (facts : List Fact) (s : EpochState) → NothingPending s → NothingPending (epochs_after s facts)
unfolding reduce_epochs
epochs_after-NothingPending [] s h = h
epochs_after-NothingPending (f ∷ fs) s h =
    epochs_after-NothingPending fs (reduce_epochs s f) (step-NothingPending f.payload s h)
