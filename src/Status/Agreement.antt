-- ===== src/Status/Agreement.antt =====
-- packages/core/src/doc-status.ts: the save state from single values and from the state, and the
-- changes of the loading state.
use pokapali.Prelude.{
  not, ◌↔◌, ◌==◌, str_eq, eq_iff, String, ap, Bool-cases, inl, inr, some_inj, ℕ, ◌≡◌, refl, true,
  false, some, if◌then◌else◌, arith,
}
use pokapali.Facts.Types.{LoadingState, ContentState, ChainState, SaveState}
use pokapali.Status.{
  compute_save_state, loading_state_changed, loading_status, loading_cid, loading_attempt,
}
use pokapali.Reducers.Chain.{is_some}
use pokapali.Reducers.Slices.{derive_save_state}

-- The derived save state is the one computed from the three content fields, except that a document
-- with no tip whose computed state is `saved` is `unpublished`.
pub derive_save_state-compute_save_state :
    (c : ContentState) (chain : ChainState)
    → derive_save_state c chain
      ≡ elim (compute_save_state c.is_dirty c.is_saving c.last_save_error) [
        | SaveState.saved ↦ if is_some chain.tip then SaveState.saved else SaveState.unpublished
        | other ↦ other
      ]
unfolding derive_save_state compute_save_state
derive_save_state-compute_save_state c chain = ground arith

same_cid : (c d : String) → ((if not (str_eq c d) then true else false) ≡ false) ↔ (c ≡ d)
same_cid c d = elim (Bool-cases (str_eq c d)) [
  | inl e ↦ rw e ((λ _. (eq_iff c d).0 e), λ _. refl)
  | inr e ↦ rw e ((λ h. cc), λ h. cc ((eq_iff c d).1 h))
]

same_retry :
    (c d : String) (x y : ℕ)
    → ((if not (str_eq c d) then true else not (x == y)) ≡ false) ↔ ((c ≡ d) × (x ≡ y))
same_retry c d x y = elim (Bool-cases (str_eq c d)) [
  | inl e ↦ rw e ((λ h. ((eq_iff c d).0 e, ground arith)), λ h. ground arith)
  | inr e ↦ rw e ((λ h. cc), λ h. cc ((eq_iff c d).1 h.0))
]

-- A change of the loading state is reported exactly where the status, the CID or the number of the
-- attempt differ; a change of times or of the text of an error is not.
pub loading_state_changed_lem :
    (a b : LoadingState)
    → (loading_state_changed a b ≡ false) ↔ (
        (loading_status a ≡ loading_status b)
        × (loading_cid a ≡ loading_cid b)
        × (loading_attempt a ≡ loading_attempt b))
unfolding loading_state_changed
loading_state_changed_lem LoadingState.idle LoadingState.idle = (λ _. (refl, refl, refl), λ _. refl)
loading_state_changed_lem (LoadingState.resolving t) (LoadingState.resolving u) =
    (λ _. (refl, refl, refl), λ _. refl)
loading_state_changed_lem (LoadingState.retrying c x t) (LoadingState.retrying d y u) =
    let (to, from) = same_retry c d x y in
    (λ h. (refl, ap some (to h).0, ap some (to h).1), λ h. from (some_inj h.1, some_inj h.2))
loading_state_changed_lem (LoadingState.fetching c t) (LoadingState.fetching d u) =
    (λ h. (refl, ap some ((same_cid c d).0 h), refl), λ h. (same_cid c d).1 (some_inj h.1))
loading_state_changed_lem (LoadingState.failed c t) (LoadingState.failed d u) =
    (λ h. (refl, ap some ((same_cid c d).0 h), refl), λ h. (same_cid c d).1 (some_inj h.1))
loading_state_changed_lem _ _ = (λ h. cc, λ h. cc)
