-- ===== src/ClientLimit/Effect.antt =====
-- What each call does to the entries of the limits: of its own key, and of every other key.
use codex_provider.Base.Maps.{get, get-insert_self, get-insert_ne}
use codex_provider.Base.{
  ℕ, ◌+◌, ◌-◌, ◌<◌, ◌≡◌, refl, ap, ◌∙◌, String, subst, sym, head?, false, ◌⊎◌, inl, inr, [], ◌∷◌,
  ◌++◌, length, arith, str_eq, leb, Bool-cases, Option-cases, unwrap_or, Result, ok, err,
}
use codex_provider.ClientLimit.{
  ClientLimits, KeyUse, Over, in_flight_over, per_minute, window, Held, Permit, entry, store, prune,
  start, admit, count, answer, hold_client, log_due, drop_permit, admit_client, count_client,
  admit_started,
}

-- Nothing but the entry of `key` changes.
pub record Only (key : String) (l l' : ClientLimits) : Type 0 where
  pub flight_limit : l'.max_in_flight ≡ l.max_in_flight
  pub minute_limit : l'.max_per_minute ≡ l.max_per_minute
  pub others : (k : String) → str_eq key k ≡ false → entry l' k ≡ entry l k

pub entry-store_self :
    (l : ClientLimits) (key : String) (e : KeyUse) → entry (store l key e) key ≡ e
entry-store_self l key e = rw (get-insert_self key e l.keys)

pub store-Only : (l : ClientLimits) (key : String) (e : KeyUse) → Only key l (store l key e)
store-Only l key e = record {
  flight_limit = refl;
  minute_limit = refl;
  others = λ k h. rw (get-insert_ne key k e l.keys h);
}

pub Only-trans : {key : String} {l m n : ClientLimits} → Only key l m → Only key m n → Only key l n
Only-trans a b = record {
  flight_limit = cc (a.flight_limit, b.flight_limit);
  minute_limit = cc (a.minute_limit, b.minute_limit);
  others = λ k h. cc (a.others k h, b.others k h);
}

-- A granted start: the window had room, and the start is its newest entry.
pub record Grants (limit now : ℕ) (e e' : KeyUse) : Type 0 where
  pub starts : e'.started ≡ prune now e.started ++ now ∷ []
  pub room : length (prune now e.started) < limit

-- No start: at most the starts that have left the window are forgotten.
abbrev pub Keeps : ℕ → KeyUse → KeyUse → Type 0
Keeps now e e' = (e'.started ≡ e.started) ⊎ (e'.started ≡ prune now e.started)

pub start_cases :
    (limit : ℕ) (e : KeyUse) (now : ℕ)
    → let kept = prune now e.started in
      ((length kept < limit)
        × (start limit e now ≡ (record e { started = kept ++ now ∷ [] }, ok tt)))
      ⊎ ((o : Over) × (start limit e now ≡ (record e { started = kept }, err o)))
unfolding start
start_cases limit e now = elim (Bool-cases (leb limit (length (prune now e.started)))) [
  | inl full ↦
      let kept = prune now e.started in
      inr (per_minute (window - (now - unwrap_or (head? kept) now)), rw full)
  | inr room ↦ inl (ground arith, rw room)
]

log_due_effect :
    (l : ClientLimits) (key : String) (now : ℕ)
    → let l' = (log_due l key now).0 in
      Only key l l'
      × ((entry l' key).started ≡ (entry l key).started)
      × ((entry l' key).in_flight ≡ (entry l key).in_flight)
unfolding log_due
log_due_effect l key now = (
  store-Only l key _,
  ap (λ (e : KeyUse). e.started) (entry-store_self l key _) ∙ ground arith,
  ap (λ (e : KeyUse). e.in_flight) (entry-store_self l key _) ∙ ground arith,
)

-- Refusals go through `hold_client`, which writes the log time.
answer_err :
    (l : ClientLimits) (key : String) (now : ℕ) (o : Over) (e : KeyUse)
    → let l' = (hold_client (store l key e) key o now).0 in
      Only key l l'
      × ((entry l' key).started ≡ e.started)
      × ((entry l' key).in_flight ≡ e.in_flight)
unfolding hold_client
answer_err l key now o e =
    let (only, s, f) = log_due_effect (store l key e) key now in
    let own = entry-store_self l key e in
    (
      Only-trans (store-Only l key e) only,
      s ∙ ap (λ (e : KeyUse). e.started) own,
      f ∙ ap (λ (e : KeyUse). e.in_flight) own,
    )

pub count_client_effect :
    (l : ClientLimits) (key : String) (now : ℕ)
    → let l' = (count_client l key now).0 in
      let e = entry l key in
      let e' = entry l' key in
      Only key l l'
      × (e'.in_flight ≡ e.in_flight)
      × ((((count_client l key now).1 ≡ ok tt) × Grants l.max_per_minute now e e')
          ⊎ ((h : Held) × ((count_client l key now).1 ≡ err h) × Keeps now e e'))
unfolding count_client count answer
count_client_effect l key now = elim (start_cases l.max_per_minute (entry l key) now) [
  | inl (room, e) ↦
      let own = entry-store_self l key _ in
      rw (e, count)
        (
          store-Only l key _,
          ap (λ (e : KeyUse). e.in_flight) own,
          inl (refl, record { starts = ap (λ (e : KeyUse). e.started) own; room = room }),
        )
  | inr (o, e) ↦
      let (only, s, f) = answer_err l key now o _ in rw (e, count) (only, f, inr (_, refl, inr s))
]

-- What `admit_client` may return.
abbrev pub AdmitSpec : ClientLimits → String → ℕ → ClientLimits × Result Held Permit → Type 0
AdmitSpec l key now r =
    let e = entry l key in
    let e' = entry r.0 key in
    Only key l r.0
    × (((r.1 ≡ ok (record { key = key }))
          × Grants l.max_per_minute now e e'
          × (e'.in_flight ≡ e.in_flight + 1)
          × (e.in_flight < l.max_in_flight))
        ⊎ ((h : Held) × (r.1 ≡ err h) × Keeps now e e' × (e'.in_flight ≡ e.in_flight)))

pub admit_client_effect :
    (l : ClientLimits) (key : String) (now : ℕ) → AdmitSpec l key now (admit_client l key now)
unfolding admit_client admit answer admit_started
admit_client_effect l key now = elim (Bool-cases (leb l.max_in_flight (entry l key).in_flight)) [
  | inl full ↦
      let (only, s, f) = answer_err l key now in_flight_over _ in
      rw full (only, inr (_, refl, inl s, f))
  | inr room ↦ rw room (elim (start_cases l.max_per_minute (entry l key) now) [
    | inl (small, e) ↦
        let own = entry-store_self l key _ in
        subst (λ s. AdmitSpec l key now (answer key now (admit_started l key s))) (sym e)
          (
            store-Only l key _,
            inl (
              refl,
              record { starts = ap (λ (e : KeyUse). e.started) own; room = small },
              ap (λ (e : KeyUse). e.in_flight) own,
              ground arith,
            ),
          )
    | inr (o, e) ↦
        let (only, s, f) = answer_err l key now o _ in
        subst (λ s. AdmitSpec l key now (answer key now (admit_started l key s))) (sym e)
          (only, inr (_, refl, inr s, f))
  ])
]

pub drop_permit_effect :
    (l : ClientLimits) (key : String)
    → let l' = drop_permit l (record { key = key }) in
      Only key l l'
      × ((entry l' key).started ≡ (entry l key).started)
      × ((entry l' key).in_flight ≡ (entry l key).in_flight - 1)
unfolding drop_permit
drop_permit_effect l key = elim (Option-cases (get key l.keys)) [
  | inl e ↦
      rw (e, drop_permit)
        (
          record { flight_limit = refl; minute_limit = refl; others = λ k h. refl },
          rw e,
          rw e (omega arith),
        )
  | inr (u, e) ↦
      let own = entry-store_self l key (record u { in_flight = u.in_flight - 1 }) in
      rw (e, drop_permit)
        (
          store-Only l key _,
          ap (λ (e : KeyUse). e.started) own,
          ap (λ (e : KeyUse). e.in_flight) own,
        )
]
