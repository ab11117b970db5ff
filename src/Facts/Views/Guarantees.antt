-- ===== src/Facts/Views/Guarantees.antt =====
-- packages/core/src/facts.ts: the best guarantee of a chain and the guarantees of its entries.
use pokapali.Prelude.{
  ℕ, ◌≡◌, refl, ◌∙◌, ap, max, String, Bool, true, false, ◌||◌, [], ◌∷◌, Map, arith,
}
use pokapali.Facts.Types.{Guarantee, ChainEntry, ChainState}
use pokapali.Facts.Views.{best_of, best_from, best_guarantee, is_guarantee_active}

-- Some guarantee of the map is active at `now`; some guarantee of an entry is.
abbrev any_active : ℕ → Map String Guarantee → Bool
any_active now [] = false
any_active now ((peer, g) ∷ m) = is_guarantee_active g.guarantee_until now || any_active now m

abbrev pub any_entry_active : ℕ → Map String ChainEntry → Bool
any_entry_active now [] = false
any_entry_active now ((k, e) ∷ m) = any_active now e.guarantees || any_entry_active now m

active-max :
    (a b now : ℕ)
    → is_guarantee_active (max a b) now ≡ (is_guarantee_active a now || is_guarantee_active b now)
unfolding is_guarantee_active
active-max a b now = ground arith

or_assoc : (a b c : Bool) → ((a || b) || c) ≡ (a || (b || c))
or_assoc true b c = refl
or_assoc false b c = refl

best_of_active :
    (now : ℕ) (g : Guarantee) (m : Map String Guarantee)
    → is_guarantee_active (best_of g m).guarantee_until now
      ≡ (is_guarantee_active g.guarantee_until now || any_active now m)
unfolding best_of
best_of_active now g [] = ground arith
best_of_active now g ((peer, x) ∷ m) =
    best_of_active now
      (record {
        guarantee_until = max g.guarantee_until x.guarantee_until;
        retain_until = max g.retain_until x.retain_until;
      })
      m
    ∙ ap (λ b. b || any_active now m) (active-max g.guarantee_until x.guarantee_until now)
    ∙ or_assoc (is_guarantee_active g.guarantee_until now)
        (is_guarantee_active x.guarantee_until now) (any_active now m)

best_from_active :
    (now : ℕ) (g : Guarantee) (m : Map String ChainEntry)
    → is_guarantee_active (best_from g m).guarantee_until now
      ≡ (is_guarantee_active g.guarantee_until now || any_entry_active now m)
unfolding best_from
best_from_active now g [] = ground arith
best_from_active now g ((k, e) ∷ m) =
    best_from_active now (best_of g e.guarantees) m
    ∙ ap (λ b. b || any_entry_active now m) (best_of_active now g e.guarantees)
    ∙ or_assoc (is_guarantee_active g.guarantee_until now) (any_active now e.guarantees)
        (any_entry_active now m)

-- The best guarantee of a chain is active at a time exactly where some peer's guarantee for some
-- entry of the chain is active then.
pub best_guarantee-is_guarantee_active :
    (chain : ChainState) (now : ℕ)
    → is_guarantee_active (best_guarantee chain).guarantee_until now
      ≡ any_entry_active now chain.entries
unfolding best_guarantee is_guarantee_active
best_guarantee-is_guarantee_active chain now = best_from_active now _ chain.entries
