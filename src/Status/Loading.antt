-- ===== src/Status/Loading.antt =====
-- packages/core/src/doc-status.ts: what `deriveLoadingState` shows.
use pokapali.Prelude.{ℕ, ◌≡◌, ◌≢◌, String, Map, AllEntries, string_eq, ◌⊎◌}
use pokapali.Facts.Types.{ChainEntry, BlockStatus, LoadingState, IpnsResolutionStatus}
use pokapali.Reducers.Chain.Newest.{SomeEntry}
use pokapali.Status.Entries.{BeingFetched, WillRetry, GaveUp, NotFetched, NotFailed}

abbrev NotUnknown : String → ChainEntry → Type 0
NotUnknown k e = e.block_status ≢ BlockStatus.unknown

-- Nothing is left to resolve: no resolution runs, and after one that ended no entry is unknown.
abbrev pub NothingToResolve : IpnsResolutionStatus → Map String ChainEntry → Type 0
NothingToResolve IpnsResolutionStatus.idle m = Unit
NothingToResolve (IpnsResolutionStatus.resolving t) m = ⊥
NothingToResolve (IpnsResolutionStatus.resolved c t) m = AllEntries NotUnknown m

abbrev pub Explained : ℕ → IpnsResolutionStatus → Map String ChainEntry → LoadingState → Type 0
Explained now ipns m (LoadingState.resolving t) =
    (ipns ≡ IpnsResolutionStatus.resolving t)
    ⊎ ((c : String) × (ipns ≡ IpnsResolutionStatus.resolved c t)
        × SomeEntry (λ e. e.block_status ≡ BlockStatus.unknown) m
        × AllEntries NotFetched m
        × AllEntries NotFailed m)
Explained now ipns m LoadingState.idle =
    NothingToResolve ipns m × AllEntries NotFetched m × AllEntries NotFailed m
Explained now ipns m (LoadingState.fetching c t) = SomeEntry (BeingFetched c t) m
Explained now ipns m (LoadingState.retrying c attempt at) =
    SomeEntry (WillRetry now c attempt at) m × AllEntries NotFetched m
Explained now ipns m (LoadingState.failed c error) =
    SomeEntry (GaveUp c error) m × AllEntries NotFetched m

abbrev IsUnknown : ChainEntry → Type 0
IsUnknown e = e.block_status ≡ BlockStatus.unknown
