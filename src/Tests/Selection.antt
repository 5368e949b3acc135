-- ===== src/Tests/Selection.antt =====
-- The selections of routing.rs on a pool of two logins.
use codex_provider.Base.Maps.{get}
use codex_provider.Identity.{account, upstream_identity_key}
use codex_provider.Eligibility.{usable}
use codex_provider.Affinity.{sticky_session_expired, lineage_account_id}
use codex_provider.Select.{
  is_excluded, is_failover, selectable_account, eligible_accounts, bound_session_moves_to,
  overloaded_fallback_account,
}
use codex_provider.Select.Choice.{
  pick_balanced_account, lineage_selection, select_account_with_preference,
  select_account_for_route,
}
use codex_provider.Select.Best.{placed_before}
use codex_provider.Select.Red.{rank}
use codex_provider.Base.{
  ◌≤◌, ◌<◌, ◌≡◌, ◌≢◌, refl, true, false, none, some, [], ◌∷◌, Memᴰ, ◌⊎◌, ok, err,
}
use codex_provider.Base.Text.{is_empty}
use codex_provider.Base.Int.{pos}
use codex_provider.State.{Pool, Account}
use codex_provider.Select.{no_eligible_account}
use codex_provider.Select.Red.{Moves, Moves-le}
use codex_provider.Select.Pick.{pick-placed_before}
use codex_provider.Select.Serves.{Serves}
use codex_provider.Select.Answers.{select-Serves, select-no_eligible_account}
use codex_provider.Select.Stays.{lineage_selection-stays, sticky_session-stays}
use codex_provider.Eligibility.Representative.{usable-same_identity}
use codex_provider.Tests.{moment, ann, bob, login, bound_pool, no_pool, even, route_of, ann_session}

-- The lineage is bound to `ann`, who keeps it although `bob` has the higher priority.
ann_answers :
    select_account_for_route even bound_pool (route_of "t" "root") "m" [] moment
    ≡ (bound_pool, record (route_of "t" "root") { lineage_account_id = "ann" }, ok ann)
unfolding select_account_for_route
ann_answers = refl

select-Serves_example : Serves bound_pool "m" [] moment ann
select-Serves_example =
    select-Serves even "m" [] moment bound_pool bound_pool (route_of "t" "root")
      (record (route_of "t" "root") { lineage_account_id = "ann" }) ann ann_answers

nobody_answers :
    select_account_for_route even no_pool (route_of "t" "root") "m" [] moment
    ≡ (no_pool, route_of "t" "root", err no_eligible_account)
unfolding select_account_for_route
nobody_answers = refl

select-no_eligible_account_example :
    (eligible_accounts no_pool "m" [] moment ≡ [])
    × (overloaded_fallback_account no_pool "m" [] moment ≡ none)
select-no_eligible_account_example =
    select-no_eligible_account even "m" [] moment no_pool no_pool (route_of "t" "root")
      (route_of "t" "root") nobody_answers

ann_bound : lineage_account_id bound_pool "root" moment ≡ some "ann"
unfolding lineage_account_id
ann_bound = refl

ann_found : account bound_pool "ann" ≡ some ann
unfolding account
ann_found = refl

ann_selectable : selectable_account bound_pool ann "m" [] moment ≡ true
unfolding selectable_account
ann_selectable = refl

lineage_selection-stays_example :
    (b : Account) × (lineage_selection even bound_pool "root" "key" "m" [] moment ≡ ok b)
    × ((b ≡ ann) ⊎ (rank bound_pool moment b < rank bound_pool moment ann))
lineage_selection-stays_example =
    lineage_selection-stays even bound_pool moment "root" "key" "m" [] "ann" ann ann_bound refl
      ann_found ann_selectable

session_found : get "s" bound_pool.sticky_sessions ≡ some ann_session
unfolding get
session_found = refl

session_live : sticky_session_expired bound_pool ann_session moment ≡ false
unfolding sticky_session_expired
session_live = refl

not_tried : is_excluded [] "ann" ≡ false
unfolding is_excluded
not_tried = refl

ann-usable : usable bound_pool ann "m" moment ≡ true
unfolding usable
ann-usable = refl

sticky_session-stays_example :
    (b : Account) × (select_account_with_preference even bound_pool "s" "key" "m" "" [] moment
      ≡ (bound_pool, ok b))
    × ((b ≡ ann) ⊎ (rank bound_pool moment b < rank bound_pool moment ann))
sticky_session-stays_example =
    sticky_session-stays even bound_pool moment "s" "key" "m" "" [] ann_session ann session_found
      not_tried session_live ann_found ann-usable

bob_picked : pick_balanced_account even bound_pool moment "key" (ann ∷ bob ∷ []) ≡ some bob
unfolding pick_balanced_account
bob_picked = refl

is_balanced : is_failover bound_pool ≡ false
unfolding is_failover
is_balanced = refl

pick-placed_before_example : placed_before bound_pool moment "key" ann bob ≡ false
pick-placed_before_example =
    pick-placed_before even bound_pool moment "key" (ann ∷ bob ∷ []) bob ann is_balanced bob_picked
      ∣ Memᴰ.head refl ∣₁

-- A session on a Pro account moves to an ordinary one.
abbrev pat : Account
pat = record (login "pat" (pos 0)) { plan_type = "pro" }

pat_moves : bound_session_moves_to bound_pool pat ann moment ≡ true
unfolding bound_session_moves_to
pat_moves = refl

Moves-le_example : (1 ≤ 5) × (pat ≢ ann)
Moves-le_example =
    Moves-le bound_pool moment pat ann 0 (Moves.moves pat ann ann 0 pat_moves (Moves.stays ann))

-- Two slots of one login.
abbrev twin_pool : Pool
twin_pool = record bound_pool { accounts = ann ∷ record ann { id = "twin" } ∷ [] }

twin_named : is_empty (upstream_identity_key twin_pool ann) ≡ false
unfolding upstream_identity_key
twin_named = refl

twin_usable : usable twin_pool ann "m" moment ≡ true
unfolding usable
twin_usable = refl

usable-same_identity_example : ann.id ≡ ann.id
usable-same_identity_example =
    usable-same_identity twin_pool ann ann "m" moment (refl, (refl, tt)) ∣ Memᴰ.head refl ∣₁
      twin_named refl twin_usable twin_usable
