-- ===== src/Reducers/Document/Consistency.antt =====
-- packages/core/src/reducers.ts: `reduce` against the reducers of the slices, with and without its early
-- return, and the derived fields of the state.
use pokapali.Prelude.{
  and_true, ◌⊎◌, subst, Option, ℕ, ◌≡◌, refl, sym, ap, ap₂, ◌∙◌, String, true, List, [], ◌∷◌, Map,
  Bool-cases, inl, inr,
}
use pokapali.Facts.Types.{
  ChainState, Connectivity, ContentState, AnnounceState, EpochState, SnapshotHistory, Identity,
  IpnsResolutionStatus, DocState, Fact,
}
use pokapali.Status.{derive_status}
use pokapali.Reducers.Chain.{reduce_chain}
use pokapali.Reducers.Chain.Invariant.{after}
use pokapali.Reducers.Slices.{
  reduce_connectivity, reduce_content, reduce_announce, reduce_pending_queries, reduce_ipns_status,
  derive_save_state,
}
use pokapali.Reducers.Epochs.{reduce_epochs, reduce_snapshot_history}
use pokapali.Reducers.Slices.Laws.{connectivity_after}
use pokapali.Reducers.Epochs.Laws.{epochs_after}
use pokapali.Reducers.Document.{runtime_doc_state, SameObject, with_slices, unchanged, reduce}

-- The status is derived from the connectivity at the clock `t`, and the save state from the content and
-- the chain.
pub record IsConsistent (t : ℕ) (s : DocState) : Type 0 where
  pub status : s.status ≡ derive_status t s.connectivity
  pub save_state : s.save_state ≡ derive_save_state s.content s.chain

with_slices-IsConsistent :
    (now : ℕ) (s : DocState) (fact : Fact) → IsConsistent now (with_slices now s fact)
with_slices-IsConsistent now s fact = record { status = refl; save_state = refl }

-- What the eight comparisons of the early return say.
record Unmoved (s : DocState) (fact : Fact) : Type 0 where
  chain : reduce_chain s.chain fact ≡ s.chain
  connectivity : reduce_connectivity s.connectivity fact ≡ s.connectivity
  content : reduce_content s.content fact ≡ s.content
  announce : reduce_announce s.announce fact ≡ s.announce
  epochs : reduce_epochs s.epochs fact ≡ s.epochs
  history : reduce_snapshot_history s.snapshot_history fact ≡ s.snapshot_history
  queries : reduce_pending_queries s.pending_queries fact ≡ s.pending_queries
  ipns : reduce_ipns_status s.ipns_status fact ≡ s.ipns_status

Unmoved-eq :
    (t : ℕ) (s : DocState) (fact : Fact)
    → IsConsistent t s
    → Unmoved s fact
    → s ≡ with_slices t s fact
Unmoved-eq t s fact h u =
    let status : derive_status t (reduce_connectivity s.connectivity fact) ≡ s.status =
      ap (derive_status t) u.connectivity ∙ sym h.status in
    let save : derive_save_state (reduce_content s.content fact) (reduce_chain s.chain fact)
        ≡ s.save_state =
      ap₂ derive_save_state u.content u.chain ∙ sym h.save_state in
    sym λ i. record {
      identity = s.identity;
      chain = u.chain i;
      connectivity = u.connectivity i;
      content = u.content i;
      announce = u.announce i;
      epochs = u.epochs i;
      pending_queries = u.queries i;
      ipns_status = u.ipns i;
      snapshot_history = u.history i;
      status = status i;
      save_state = save i;
    }

module _ (js : SameObject) where
  unchanged-Unmoved : (s : DocState) (fact : Fact) → unchanged js s fact ≡ true → Unmoved s fact
  unfolding unchanged
  unchanged-Unmoved s fact h =
      let (e₁, h₁) = and_true _ _ h in
      let (e₂, h₂) = and_true _ _ h₁ in
      let (e₃, h₃) = and_true _ _ h₂ in
      let (e₄, h₄) = and_true _ _ h₃ in
      let (e₅, h₅) = and_true _ _ h₄ in
      let (e₆, h₆) = and_true _ _ h₅ in
      let (e₇, e₈) = and_true _ _ h₆ in
      record {
        chain = js.same_eq ChainState _ _ e₁;
        connectivity = js.same_eq Connectivity _ _ e₂;
        content = js.same_eq ContentState _ _ e₃;
        announce = js.same_eq AnnounceState _ _ e₄;
        epochs = js.same_eq EpochState _ _ e₅;
        history = js.same_eq SnapshotHistory _ _ e₆;
        queries = js.same_eq (Map String ℕ) _ _ e₇;
        ipns = js.same_eq IpnsResolutionStatus _ _ e₈;
      }

  -- On a state whose derived fields are those at the clock `t`, `reduce` gives what it gives without
  -- its early return, at its own clock or, where it returns early, at `t`.
  pub reduce-eq-with_slices :
      (t now : ℕ) (s : DocState) (fact : Fact)
      → IsConsistent t s
      → (u : ℕ) × ((u ≡ t) ⊎ (u ≡ now)) × (reduce js now s fact ≡ with_slices u s fact)
  unfolding reduce
  reduce-eq-with_slices t now s fact h = elim (Bool-cases (unchanged js s fact)) [
    | inl same ↦
        (t, inl refl, rw (reduce, same) (Unmoved-eq t s fact h (unchanged-Unmoved s fact same)))
    | inr differs ↦ (now, inr refl, rw (reduce, differs))
  ]

-- A fact to reduce, with the clock and what `===` says of the objects of that call: it compares
-- identities, and so may answer differently on equal objects of different calls.
abbrev pub Step : Type 1
Step = SameObject × ℕ × Fact

-- The state after a list of steps.
abbrev pub reduce_all : DocState → List Step → DocState
reduce_all s [] = s
reduce_all s ((js, now, fact) ∷ rest) = reduce_all (reduce js now s fact) rest

abbrev pub Among : ℕ → List ℕ → Type 0
Among t [] = ⊥
Among t (x ∷ xs) = (t ≡ x) ⊎ Among t xs

abbrev pub clocks_of : List Step → List ℕ
clocks_of [] = []
clocks_of ((js, now, fact) ∷ rest) = now ∷ clocks_of rest

abbrev pub facts_of : List Step → List Fact
facts_of [] = []
facts_of ((js, now, fact) ∷ rest) = fact ∷ facts_of rest

Among-earlier :
    (t u now : ℕ) (xs : List ℕ)
    → (u ≡ t) ⊎ (u ≡ now)
    → (r : ℕ) → Among r (u ∷ xs)
    → Among r (t ∷ now ∷ xs)
Among-earlier t u now xs (inl e) r (inl q) = inl (q ∙ e)
Among-earlier t u now xs (inr e) r (inl q) = inr (inl (q ∙ e))
Among-earlier t u now xs _ r (inr q) = inr (inr q)

reduce_all-IsConsistent :
    (t : ℕ) (s : DocState) (facts : List Step)
    → IsConsistent t s
    → (r : ℕ) × Among r (t ∷ clocks_of facts) × IsConsistent r (reduce_all s facts)
reduce_all-IsConsistent t s [] h = (t, inl refl, h)
reduce_all-IsConsistent t s ((js, now, fact) ∷ rest) h =
    let (u, which, e) = reduce-eq-with_slices js t now s fact h in
    let (r, among, c) =
      reduce_all-IsConsistent u (reduce js now s fact) rest
        (subst (IsConsistent u) (sym e) (with_slices-IsConsistent u s fact)) in
    (r, Among-earlier t u now (clocks_of rest) which r among, c)

-- In every state that steps lead to from the state in which a document is opened, the save state is
-- derived from the content and the chain, and the status from the connectivity at a clock that was
-- read: when the document was opened or when one of the facts was reduced.
pub derived_fields :
    (opened : ℕ) (created : Option ℕ) (identity : Identity) (facts : List Step)
    → let s = reduce_all (runtime_doc_state opened created identity) facts in
      ((t : ℕ) × Among t (opened ∷ clocks_of facts) × (s.status ≡ derive_status t s.connectivity))
      × (s.save_state ≡ derive_save_state s.content s.chain)
unfolding derive_save_state
derived_fields opened created identity facts =
    let (r, among, h) =
      reduce_all-IsConsistent opened (runtime_doc_state opened created identity) facts
        (record { status = refl; save_state = refl }) in
    ((r, among, h.status), h.save_state)

reduce_slices :
    (js : SameObject) (now : ℕ) (s : DocState) (fact : Fact)
    → ((reduce js now s fact).chain ≡ reduce_chain s.chain fact)
      × ((reduce js now s fact).connectivity ≡ reduce_connectivity s.connectivity fact)
      × ((reduce js now s fact).epochs ≡ reduce_epochs s.epochs fact)
      × ((reduce js now s fact).identity ≡ s.identity)
unfolding reduce
reduce_slices js now s fact = elim (Bool-cases (unchanged js s fact)) [
  | inl same ↦
      let u = unchanged-Unmoved js s fact same in
      rw (reduce, same) (sym u.chain, sym u.connectivity, sym u.epochs, refl)
  | inr differs ↦ rw (reduce, differs) (refl, refl, refl, refl)
]

-- After any steps, from any state, the chain, the connectivity and the epochs of a document are what
-- their own reducers make of their facts, and the identity is the same.
pub slices-reduce_all :
    (s : DocState) (facts : List Step)
    → let r = reduce_all s facts in
      (r.chain ≡ after s.chain (facts_of facts))
      × (r.connectivity ≡ connectivity_after s.connectivity (facts_of facts))
      × (r.epochs ≡ epochs_after s.epochs (facts_of facts))
      × (r.identity ≡ s.identity)
slices-reduce_all s [] = (refl, refl, refl, refl)
slices-reduce_all s ((js, now, fact) ∷ rest) =
    let (c, n, e, d) = slices-reduce_all (reduce js now s fact) rest in
    let (c', n', e', d') = reduce_slices js now s fact in
    (
      c ∙ ap (λ x. after x (facts_of rest)) c',
      n ∙ ap (λ x. connectivity_after x (facts_of rest)) n',
      e ∙ ap (λ x. epochs_after x (facts_of rest)) e',
      d ∙ d',
    )
