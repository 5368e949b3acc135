-- ===== src/Select/Pick.antt =====
-- upstream/src/pool/routing.rs, `pick_balanced_account`: what is picked and that something is.
use codex_provider.Base.{
  ◌≡◌, refl, sym, ◌∙◌, subst, String, Bool, true, false, none, some, List, [], ◌∷◌, Mem, mem_first,
  mem_rest, mem-nil, head-Perm, head?, arith, if◌then◌else◌, Bool-cases, List-cases, inl, inr, ◌&&◌,
  ◌||◌, str_lt,
}
use mathlib.Core.List.Perm
use codex_provider.Time.{Timestamp}
use codex_provider.State.{Pool, Account}
use codex_provider.GoSort.{slice_stable}
use codex_provider.GoSort.Perm.{slice_stable-perm}
use codex_provider.Eligibility.{preferred_before}
use codex_provider.Select.{Draw, is_failover, placement_tier}
use codex_provider.Select.Choice.{account_score, best_score, first_best, pick_balanced_account}
use codex_provider.Select.Best.{
  placed_before, placed_first, placement_tier-Mem, placement_tier_nonempty,
}

head_none : (xs : List Account) → head? xs ≡ none → xs ≡ []
head_none [] e = refl
head_none (x ∷ xs) e = cc

if_some :
    (c : Bool) {xs : List Account} {a b : Account}
    → Mem a xs
    → Mem b xs
    → Mem (if c then a else b) xs
if_some true m n = m
if_some false m n = n

module _ (draw : Draw) where
  open draw use {Score, placement_score, above, same}

  best_score-Mem :
      (score : Account → Score) (items : List Account) (chosen : Account) (all : List Account)
      → Mem chosen all
      → ((b : Account) → Mem b items → Mem b all)
      → Mem (best_score draw score chosen items) all
  unfolding best_score
  best_score-Mem score [] chosen all m sub = m
  best_score-Mem score (item ∷ items) chosen all m sub =
      best_score-Mem score items _ all
        (if_some
          (above (score item) (score chosen)
            || (same (score item) (score chosen) && str_lt item.id chosen.id))
          (sub item (mem_first item items)) m)
        (λ b n. sub b (mem_rest n))

  first_best-Mem :
      (score : Account → Score) (items : List Account) (a : Account)
      → first_best draw score items ≡ some a
      → Mem a items
  unfolding first_best
  first_best-Mem score [] a e = cc
  first_best-Mem score (item ∷ items) a e =
      let here : best_score draw score item items ≡ a = ground arith in
      subst (λ b. Mem b (item ∷ items)) here
        (best_score-Mem score items item (item ∷ items) (mem_first item items) (λ b n. mem_rest n))

  first_best-none :
      (score : Account → Score) (items : List Account)
      → first_best draw score items ≡ none
      → items ≡ []
  unfolding first_best
  first_best-none score [] e = refl
  first_best-none score (item ∷ items) e = cc

  module _ (p : Pool) (now : Timestamp) (key : String) (eligible : List Account) where
    pick_first :
        is_failover p ≡ true
        → pick_balanced_account draw p now key eligible
          ≡ head? (slice_stable (preferred_before p now) eligible)
    unfolding pick_balanced_account
    pick_first e = rw e refl

    pick_drawn :
        is_failover p ≡ false
        → pick_balanced_account draw p now key eligible
          ≡ first_best draw (account_score draw p now key) (placement_tier p now key eligible)
    unfolding pick_balanced_account
    pick_drawn e = rw e refl

    pub pick-Mem :
        (a : Account) → pick_balanced_account draw p now key eligible ≡ some a → Mem a eligible
    pick-Mem a e = elim (Bool-cases (is_failover p)) [
      | inl f ↦
          head-Perm (slice_stable-perm (preferred_before p now) eligible) (sym (pick_first f) ∙ e)
      | inr f ↦
          placement_tier-Mem p now key eligible (first_best-Mem _ _ a (sym (pick_drawn f) ∙ e))
    ]

    -- Under balanced placement no eligible account goes before the picked one: an account whose reset
    -- credit is about to expire is never passed over for one without, with Use Pro last a lower tier
    -- is never passed over for a higher one, nor a higher priority for a lower one, nor an idle
    -- account for one that carries a session, whatever the draw.
    pub pick-placed_before :
        (a b : Account)
        → is_failover p ≡ false
        → pick_balanced_account draw p now key eligible ≡ some a
        → Mem b eligible
        → placed_before p now key b a ≡ false
    pick-placed_before a b f e n =
        placed_first p now key eligible (first_best-Mem _ _ a (sym (pick_drawn f) ∙ e)) n

    pub nothing_picked : pick_balanced_account draw p now key eligible ≡ none → eligible ≡ []
    nothing_picked e = elim (List-cases eligible) [
      | inl empty ↦ empty
      | inr (x, xs, shape) ↦ elim (Bool-cases (is_failover p)) [
        | inl f ↦ absurd (
            mem-nil (head_none _ (sym (pick_first f) ∙ e)) (
              Perm.subset (Perm.symm (slice_stable-perm (preferred_before p now) eligible)) x
                (subst (Mem x) (sym shape) (mem_first x xs))))
        | inr f ↦ absurd (
            placement_tier_nonempty p now key eligible (λ empty. cc (shape, empty))
              (first_best-none _ _ (sym (pick_drawn f) ∙ e)))
      ]
    ]
