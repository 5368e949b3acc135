-- ===== src/Select/Best.antt =====
-- upstream/src/pool/routing.rs, `pick_balanced_account`: the order that the tiers amount to.
use codex_provider.Base.Int.{ℤ, ltb_ℤ, eq_ℤ}
use codex_provider.Base.{
  ℕ, ◌≡◌, ◌≢◌, refl, sym, ◌∙◌, subst, String, Bool, true, false, ◌&&◌, not, List, [], All-mono,
  All-Mem, Mem, mem-filter, mem-nil, filter-Mem, filter-passes, filter, arith, ltb, ◌==◌,
  if◌then◌else◌, Bool-cases, List-cases, inl, inr,
}
use codex_provider.Time.{Timestamp}
use codex_provider.State.{Pool, Account}
use codex_provider.Eligibility.{expiring_reset_credit, pro_tier}
use codex_provider.Select.{
  narrow, lowest_tier, highest_priority, placement_tier, active_session_count,
}
use codex_provider.Select.Tiers.{
  narrow-Mem, narrow-passes, mem-narrow, narrow_nonempty, lowest_tier-All, lowest_tier-attained,
  highest_priority-All, highest_priority-attained,
}

abbrev pub is_idle : Pool → Timestamp → String → Account → Bool
is_idle p now key a = active_session_count p now key a.id == 0

-- Of two accounts, the first goes before the second: by priority, then an idle one first.
unfoldable pub priority_before : Pool → Timestamp → String → Account → Account → Bool
unfolding active_session_count
priority_before p now key b a =
    if eq_ℤ b.priority a.priority
    then is_idle p now key b && not (is_idle p now key a)
    else ltb_ℤ a.priority b.priority

-- By Use Pro last, then by priority.
unfoldable pub tier_before : Pool → Timestamp → String → Account → Account → Bool
unfolding pro_tier priority_before
tier_before p now key b a =
    if p.preserve_pro_quota && not (pro_tier p b == pro_tier p a)
    then ltb (pro_tier p b) (pro_tier p a)
    else priority_before p now key b a

-- By the expiring reset credit, then by tier.
unfoldable pub placed_before : Pool → Timestamp → String → Account → Account → Bool
unfolding expiring_reset_credit tier_before
placed_before p now key b a =
    let red_b = expiring_reset_credit p b now in
    let red_a = expiring_reset_credit p a now in
    if red_b && not red_a
    then true
    else if red_a && not red_b
    then false
    else tier_before p now key b a

eq_ℤ-trans : (x y z : ℤ) → eq_ℤ x y ≡ true → eq_ℤ y z ≡ true → eq_ℤ x z ≡ true
eq_ℤ-trans x y z h k = ground arith

higher : (x y z : ℤ) → eq_ℤ x y ≡ true → ltb_ℤ y z ≡ false → ltb_ℤ x z ≡ false
higher x y z h k = ground arith

not_lower : (x y z : ℕ) → x == z ≡ true → ltb y z ≡ false → ltb y x ≡ false
not_lower x y z h k = ground arith

module _ (p : Pool) (now : Timestamp) (key : String) (eligible : List Account) where
  red_list : List Account
  red_list = narrow (λ item. expiring_reset_credit p item now) eligible

  -- The accounts that Use Pro last spares.
  is_spared : Account → Bool
  is_spared item = pro_tier p item == lowest_tier p red_list

  spared : List Account
  spared = if p.preserve_pro_quota then filter is_spared red_list else red_list

  is_top : Account → Bool
  is_top item = eq_ℤ item.priority (highest_priority spared)

  tiers : placement_tier p now key eligible ≡ narrow (is_idle p now key) (filter is_top spared)
  unfolding placement_tier red_list is_spared spared is_top
  tiers = refl

  spared-Mem : {a : Account} → Mem a spared → Mem a red_list
  unfolding spared
  spared-Mem {a} m = elim (Bool-cases p.preserve_pro_quota) [
    | inl e ↦
        filter-Mem is_spared red_list
          (subst (λ b. Mem a (if b then filter is_spared red_list else red_list)) e m)
    | inr e ↦ subst (λ b. Mem a (if b then filter is_spared red_list else red_list)) e m
  ]

  module _ {a : Account} (m : Mem a (placement_tier p now key eligible)) where
    in_top : Mem a (filter is_top spared)
    in_top = narrow-Mem (is_idle p now key) _ (subst (Mem a) tiers m)

    in_spared : Mem a spared
    in_spared = filter-Mem is_top spared in_top

    pub placement_tier-Mem : Mem a eligible
    unfolding red_list
    placement_tier-Mem = narrow-Mem _ eligible (spared-Mem in_spared)

    idle_first :
        {b : Account}
        → Mem b (filter is_top spared)
        → is_idle p now key b && not (is_idle p now key a) ≡ false
    idle_first {b} n = elim (Bool-cases (is_idle p now key b)) [
      | inl e ↦ rw (e, narrow-passes (is_idle p now key) _ (subst (Mem a) tiers m) n e) refl
      | inr e ↦ rw e refl
    ]

    priority_first : {b : Account} → Mem b spared → priority_before p now key b a ≡ false
    unfolding priority_before is_top
    priority_first {b} n =
        let top_a = filter-passes is_top spared in_top in
        let top_b =
          All-Mem (λ c. ltb_ℤ (highest_priority spared) c.priority) false spared
            (highest_priority-All spared) n in
        elim (Bool-cases (eq_ℤ b.priority a.priority)) [
          | inl e ↦
              rw e (
                idle_first
                  (mem-filter is_top spared n (eq_ℤ-trans b.priority a.priority _ e top_a)))
          | inr e ↦ rw e (higher a.priority (highest_priority spared) b.priority top_a top_b)
        ]

    lowest_first :
        {b : Account} → Mem b red_list → ltb (pro_tier p b) (lowest_tier p red_list) ≡ false
    lowest_first n =
        All-Mem (λ c. ltb (pro_tier p c) (lowest_tier p red_list)) false red_list
          (All-mono (λ c le. ground (arith, le)) red_list (lowest_tier-All p red_list)) n

    tier_first : {b : Account} → Mem b red_list → tier_before p now key b a ≡ false
    unfolding tier_before spared is_spared
    tier_first {b} n = elim (Bool-cases p.preserve_pro_quota) [
      | inr e ↦ rw e (
          priority_first {b = b}
            (subst (λ c. Mem b (if c then filter is_spared red_list else red_list)) (sym e) n))
      | inl e ↦
          let kept =
            subst (λ c. Mem a (if c then filter is_spared red_list else red_list)) e in_spared in
          let tier_a = filter-passes is_spared red_list kept in
          let above = lowest_first n in
          elim (Bool-cases (pro_tier p b == pro_tier p a)) [
            | inl same ↦
                let here = mem-filter is_spared red_list n (ground arith) in
                rw (e, same)
                  (priority_first (
                    subst (λ c. Mem b (if c then filter is_spared red_list else red_list)) (sym e)
                      here))
            | inr other ↦ rw (e, other) (not_lower _ _ _ tier_a above)
          ]
    ]

    pub placed_first : {b : Account} → Mem b eligible → placed_before p now key b a ≡ false
    unfolding placed_before red_list
    placed_first {b} n =
        let test : Account → Bool = λ item. expiring_reset_credit p item now in
        let mem_a = spared-Mem in_spared in
        elim (Bool-cases (expiring_reset_credit p b now)) [
          | inl e ↦
              let same = narrow-passes test eligible mem_a n e in
              rw (e, same) (tier_first (mem-narrow test eligible mem_a n (e ∙ sym same)))
          | inr e ↦ elim (Bool-cases (expiring_reset_credit p a now)) [
            | inl f ↦ rw (e, f) refl
            | inr f ↦ rw (e, f) (tier_first (mem-narrow test eligible mem_a n (e ∙ sym f)))
          ]
        ]

  spared_nonempty : red_list ≢ [] → spared ≢ []
  unfolding spared is_spared
  spared_nonempty full empty = elim (Bool-cases p.preserve_pro_quota) [
    | inr e ↦ full (subst (λ c. (if c then filter is_spared red_list else red_list) ≡ []) e empty)
    | inl e ↦ elim (List-cases red_list) [
      | inl none_left ↦ full none_left
      | inr (x, xs, shape) ↦
          let (b, m, low) = lowest_tier-attained p x xs in
          mem-nil (subst (λ c. (if c then filter is_spared red_list else red_list) ≡ []) e empty) (
            mem-filter is_spared red_list {a = b} (subst (Mem b) (sym shape) ∣ m ∣₁) (rw shape low))
    ]
  ]

  top_nonempty : spared ≢ [] → filter is_top spared ≢ []
  unfolding is_top
  top_nonempty full empty = elim (List-cases spared) [
    | inl none_left ↦ full none_left
    | inr (x, xs, shape) ↦
        let (b, m, high) = highest_priority-attained x xs in
        mem-nil empty
          (mem-filter is_top spared {a = b} (subst (Mem b) (sym shape) ∣ m ∣₁) (rw shape high))
  ]

  pub placement_tier_nonempty : eligible ≢ [] → placement_tier p now key eligible ≢ []
  unfolding red_list
  placement_tier_nonempty full empty =
      narrow_nonempty (is_idle p now key) (filter is_top spared)
        (top_nonempty (
          spared_nonempty
            (narrow_nonempty (λ item. expiring_reset_credit p item now) eligible full)))
        (sym tiers ∙ empty)
