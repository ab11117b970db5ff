-- ===== src/Reducers/Slices/Laws.antt =====
-- packages/core/src/reducers.ts: what the reducers of gossip, of relays and of the content do over time.
use pokapali.Prelude.{
  ℕ, ◌+◌, ◌≤◌, ◌≡◌, ◌≢◌, ◌↔◌, refl, ap, ◌∙◌, subst, String, Bool, true, false, Option, none, some,
  List, [], ◌∷◌, set_has, set_add, set_delete, set_has-set_add, set_has-set_delete, string_eq,
  ◌===◌, str_eq, eq_iff, Bool-cases, inl, inr, arith, if◌then◌else◌,
}
use pokapali.Facts.Types.{
  GossipActivity, GossipState, Connectivity, ContentState, ChainState, SaveState, Fact, Payload,
  gossip_subscribed, gossip_message, sync_status_changed, pinner_discovered, relay_connected,
  relay_disconnected, publish_failed, initial_gossip,
}
use pokapali.Reducers.Slices.{
  gossip_decay_ms, gossip_step, reduce_gossip, connectivity_step, reduce_connectivity,
  reduce_content, derive_save_state,
}
use pokapali.Reducers.Chain.{is_some}

-- The activity agrees with the subscription.
pub record IsGossip (s : GossipState) : Type 0 where
  pub subscribed_activity : s.activity ≡ GossipActivity.subscribed → s.subscribed ≡ true
  pub inactive_activity : s.activity ≡ GossipActivity.inactive → s.subscribed ≡ false

pub initial_gossip-IsGossip : IsGossip initial_gossip
initial_gossip-IsGossip = ground arith

-- Every fact keeps the activity in agreement with the subscription. After any fact that is not a
-- subscription, the activity is `receiving` only if the last message is at most a minute old.
pub reduce_gossip-IsGossip :
    (s : GossipState) (fact : Fact)
    → IsGossip s
    → IsGossip (reduce_gossip s fact)
      × (fact.payload ≢ gossip_subscribed
          → (reduce_gossip s fact).activity ≡ GossipActivity.receiving
          → fact.ts ≤ (reduce_gossip s fact).last_message_at + gossip_decay_ms)
unfolding reduce_gossip
reduce_gossip-IsGossip s fact h = step fact.payload
  where
    step :
        (p : Payload)
        → IsGossip (gossip_step fact.ts p s)
          × (p ≢ gossip_subscribed
              → (gossip_step fact.ts p s).activity ≡ GossipActivity.receiving
              → fact.ts ≤ (gossip_step fact.ts p s).last_message_at + gossip_decay_ms)
    step gossip_subscribed = (ground arith, λ n. absurd (n refl))
    step gossip_message = (ground arith, λ n r. ground arith)
    step _ = (ground arith, λ n r. ground arith)

add_if_missing :
    (x q : String) (xs : List String) (c : Connectivity)
    → c.relay_peers ≡ xs
    → set_has q (if set_has x xs then c else record c { relay_peers = set_add x xs }).relay_peers
      ≡ (if x === q then true else set_has q xs)
add_if_missing x q xs c e = elim (Bool-cases (set_has x xs)) [
  | inl h ↦ elim (Bool-cases (x === q)) [
    | inl r ↦ rw (h, e, r) (subst (λ y. set_has y xs ≡ true) ((string_eq.beq_iff x q).0 r) h)
    | inr r ↦ rw (h, e, r)
  ]
  | inr h ↦ rw h (set_has-set_add x q xs)
]

delete_if_there :
    (x q : String) (xs : List String) (c : Connectivity)
    → c.relay_peers ≡ xs
    → set_has q (if set_has x xs then record c { relay_peers = set_delete x xs } else c).relay_peers
      ≡ (if x === q then false else set_has q xs)
delete_if_there x q xs c e = elim (Bool-cases (set_has x xs)) [
  | inr h ↦ elim (Bool-cases (x === q)) [
    | inl r ↦ rw (h, e, r) (subst (λ y. set_has y xs ≡ false) ((string_eq.beq_iff x q).0 r) h)
    | inr r ↦ rw (h, e, r)
  ]
  | inl h ↦ rw h (set_has-set_delete x q xs)
]

-- What a fact says of the connection to a relay, if anything.
abbrev relay_news : Payload → String → Option Bool
relay_news (relay_connected x) q = if x === q then some true else none
relay_news (relay_disconnected x) q = if x === q then some false else none
relay_news _ q = none

abbrev or_before : Option Bool → Bool → Bool
or_before none b = b
or_before (some a) b = a

relay_step_has :
    (fact : Fact) (p : Payload) (c : Connectivity) (q : String)
    → set_has q (connectivity_step fact p c).relay_peers
      ≡ or_before (relay_news p q) (set_has q c.relay_peers)
unfolding connectivity_step
relay_step_has fact (relay_connected x) c q =
    add_if_missing x q c.relay_peers c refl
    ∙ elim (Bool-cases (x === q)) [ inl r ↦ rw r | inr r ↦ rw r ]
relay_step_has fact (relay_disconnected x) c q =
    delete_if_there x q c.relay_peers c refl
    ∙ elim (Bool-cases (x === q)) [ inl r ↦ rw r | inr r ↦ rw r ]
relay_step_has fact (sync_status_changed status) c q = refl
relay_step_has fact (pinner_discovered x) c q = ground arith
relay_step_has fact _ c q = refl

-- The connectivity after a list of facts.
abbrev pub connectivity_after : Connectivity → List Fact → Connectivity
connectivity_after c [] = c
connectivity_after c (f ∷ fs) = connectivity_after (reduce_connectivity c f) fs

-- What the last fact about a relay says, starting from what held before.
abbrev pub last_relay_news : Bool → List Fact → String → Bool
last_relay_news b [] q = b
last_relay_news b (f ∷ fs) q = last_relay_news (or_before (relay_news f.payload q) b) fs q

-- After any facts, a relay is among the connected ones exactly if the last fact about it was that it
-- connected, or there was no fact about it and it was among them before.
pub relay_peers-connectivity_after :
    (facts : List Fact) (c : Connectivity) (q : String)
    → set_has q (connectivity_after c facts).relay_peers
      ≡ last_relay_news (set_has q c.relay_peers) facts q
unfolding reduce_connectivity
relay_peers-connectivity_after [] c q = refl
relay_peers-connectivity_after (f ∷ fs) c q =
    relay_peers-connectivity_after fs (reduce_connectivity c f) q
    ∙ ap (λ b. last_relay_news b fs q) (relay_step_has f f.payload c q)

clean_not_error :
    (d t : Bool)
    → (if d then SaveState.dirty else if t then SaveState.saved else SaveState.unpublished)
      ≢ SaveState.save_error
clean_not_error d t = ground arith

-- After a publish that failed, the save state is `save-error` exactly if the text of the error is not
-- empty, whatever the content and the chain were before.
pub publish_failed-derive_save_state :
    (ts : ℕ) (error : String) (c : ContentState) (chain : ChainState)
    → let save =
        derive_save_state
          (reduce_content c (record { ts = ts; payload = publish_failed error }))
          chain in
      (save ≡ SaveState.save_error) ↔ (error ≢ "")
unfolding reduce_content derive_save_state
publish_failed-derive_save_state ts error c chain = elim (Bool-cases (str_eq error "")) [
  | inl e ↦ rw e (
    (λ saved. absurd (clean_not_error c.is_dirty (is_some chain.tip) saved)),
    λ ne. absurd (ne ((eq_iff error "").0 e)),
  )
  | inr ne ↦ rw ne ((λ _ e. cc ((eq_iff error "").1 e)), λ _. refl)
]
