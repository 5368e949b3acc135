-- ===== src/Select/Red.antt =====
-- upstream/src/pool/routing.rs: sessions with a bound account, and what moves them to another one.
use codex_provider.Base.{
  ℕ, suc, ◌+◌, ◌≤◌, ◌<◌, ◌≡◌, Bool, true, false, ◌&&◌, not, arith, ltb, if◌then◌else◌, str_eq, ◌≢◌,
  ap,
}
use codex_provider.Time.{Timestamp}
use codex_provider.State.{Pool, Account}
use codex_provider.Eligibility.{expiring_reset_credit, pro_tier}
use codex_provider.Select.{bound_session_moves_to}

-- How far an account is from the first to be spent: an expiring reset credit comes before all
-- else, then Use Pro last.
unfoldable pub rank : Pool → Timestamp → Account → ℕ
unfolding expiring_reset_credit pro_tier
rank p now a =
    (if expiring_reset_credit p a now then 0 else 3)
    + (if p.preserve_pro_quota then pro_tier p a else 0)

pro_tier-le : (p : Pool) (a : Account) → pro_tier p a ≤ 2
unfolding pro_tier
pro_tier-le p a = ground arith

rank_falls :
    (same red_b red_a preserve : Bool) (tier_b tier_a : ℕ)
    → tier_b ≤ 2
    → (if same
        then false
        else if red_b && not red_a
        then true
        else if red_a && not red_b
        then false
        else preserve && ltb tier_b tier_a)
      ≡ true
    → (if red_b then 0 else 3) + (if preserve then tier_b else 0)
      < (if red_a then 0 else 3) + (if preserve then tier_a else 0)
rank_falls true red_b red_a preserve tier_b tier_a le h = ground arith
rank_falls false true true preserve tier_b tier_a le h = ground arith
rank_falls false false false preserve tier_b tier_a le h = ground arith
rank_falls false true false preserve tier_b tier_a le h = ground arith
rank_falls false false true preserve tier_b tier_a le h = ground arith

pub move-rank :
    (p : Pool) (now : Timestamp) (a b : Account)
    → bound_session_moves_to p a b now ≡ true
    → rank p now b < rank p now a
unfolding bound_session_moves_to rank
move-rank p now a b h =
    rank_falls (str_eq b.id a.id) (expiring_reset_credit p b now) (expiring_reset_credit p a now)
      p.preserve_pro_quota (pro_tier p b) (pro_tier p a) (pro_tier-le p b) h

-- `n` moves of a session, which are all judged in one pool and at one instant.
pub data Moves (p : Pool) (now : Timestamp) : Account → Account → ℕ → Type 0 where
  stays : (a : Account) → Moves p now a a 0
  moves :
      (a b c : Account) (n : ℕ)
      → bound_session_moves_to p a b now ≡ true
      → Moves p now b c n
      → Moves p now a c (suc n)

Moves-rank :
    (p : Pool) (now : Timestamp) (a b : Account) (n : ℕ)
    → Moves p now a b n
    → n + rank p now b ≤ rank p now a
Moves-rank p now a b n (stays _) = omega arith
Moves-rank p now a c _ (moves _ b _ n h rest) =
    omega (arith, move-rank p now a b h, Moves-rank p now b c n rest)

rank-le : (p : Pool) (now : Timestamp) (a : Account) → rank p now a ≤ 5
unfolding rank
rank-le p now a = ground (arith, pro_tier-le p a)

-- A bound session does not swing between accounts: in one pool and at one instant, moves from account
-- to account that `bound_session_moves_to` all allows, at least one of them, are at most five and do
-- not end at the account where they began.
pub Moves-le :
    (p : Pool) (now : Timestamp) (a b : Account) (n : ℕ)
    → Moves p now a b (suc n)
    → (suc n ≤ 5) × (a ≢ b)
Moves-le p now a b n m =
    let le = Moves-rank p now a b (suc n) m in
    (omega (arith, le, rank-le p now a), λ same. omega (arith, le, ap (rank p now) same))
