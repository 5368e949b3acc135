-- ===== src/Outcome/Watch.antt =====
-- upstream/src/pool/outcome.rs, `note_capacity_event`: the capacity watch stays small.
use codex_provider.Base.{
  ℕ, ◌+◌, ◌-◌, ◌≤◌, ◌≡◌, refl, String, true, not, List, [], ◌∷◌, ◌++◌, length, length-drop, filter,
  All, All-append, All-drop, All-mono, All-filter, arith, if◌then◌else◌, Bool-cases, inl, inr,
}
use codex_provider.Time.{Timestamp, before}
use codex_provider.State.{Pool, CapacityEvent}
use codex_provider.Outcome.{
  capacity_event_limit, capacity_event_ttl, capacity_watch_code, note_capacity_event,
}

always : (xs : List CapacityEvent) → All (λ e. Unit {0}) xs
always [] = tt
always (x ∷ xs) = (tt, always xs)

-- After an event of a watched code the watch holds at most 1000 events, none of them older than a
-- week, and after any other event it is as it was.
pub note_capacity_event-bounded :
    (p : Pool) (id model code : String) (now : Timestamp)
    → let q = note_capacity_event p id model code now in
      if capacity_watch_code code
      then (length q.capacity_events ≤ capacity_event_limit)
        × All (λ e. now ≤ e.timestamp + capacity_event_ttl) q.capacity_events
      else q ≡ p
unfolding note_capacity_event
note_capacity_event-bounded p id model code now = elim (Bool-cases (capacity_watch_code code)) [
  | inr e ↦ rw e refl
  | inl e ↦
      let event : CapacityEvent = record {
        timestamp = now;
        account_id = id;
        model_id = model;
        code = code;
      } in
      let kept =
        filter (λ c. not (before c.timestamp (now - capacity_event_ttl))) p.capacity_events in
      let events = kept ++ event ∷ [] in
      let extra = length events - capacity_event_limit in
      let young =
        All-append (λ c. now ≤ c.timestamp + capacity_event_ttl) kept (event ∷ [])
          (All-mono (λ c h. recent c.timestamp h.1) kept
            (All-filter (λ c. Unit {0}) (λ c. not (before c.timestamp (now - capacity_event_ttl)))
              p.capacity_events (always p.capacity_events)))
          (omega arith, tt) in
      rw e (omega (arith, length-drop extra events), All-drop _ extra events young)
]
  where
    recent :
        (t : ℕ) → not (before t (now - capacity_event_ttl)) ≡ true → now ≤ t + capacity_event_ttl
    recent t h = ground arith
