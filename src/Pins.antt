-- ===== src/Pins.antt =====
-- upstream/src/pool/routing_pin.rs: the routing pin that a reviewer's socket carries. The table is a
-- function of the account and the thread; its lock makes each call one step. A pin is codex-http-client's
-- (`ChatGptRoutingAffinity`), any type here. Of the headers the code reads the values that are text.
use codex_provider.Base.Text.{is_empty, trim}
use codex_provider.Base.{
  ℕ, ◌-◌, ◌≡◌, refl, String, Bool, true, false, ◌&&◌, ◌||◌, not, Option, none, some, List, [], ◌∷◌,
  arith, ltb, if◌then◌else◌, str_eq, eq_refl, unwrap_or,
}
use codex_provider.Time.{Timestamp, hours}

-- `KEEP`.
abbrev pub keep : ℕ
keep = hours 6

abbrev pub Headers : Type 0
Headers = String → Option String

unfoldable pub is_guardian_reviewer : Headers → Bool
is_guardian_reviewer headers = elim (headers "x-codex-guardian") [
  | none ↦ false
  | some value ↦ str_eq value "reviewer"
]

unfoldable pub header : Headers → String → String
unfolding trim
header headers name = trim (unwrap_or (headers name) "")

module _ {ℓ} (Pin : Type ℓ) where
  -- The pin of a thread's latest socket, none if it got no routing cookie, and when it opened.
  abbrev pub Entry : Type ℓ
  Entry = Option Pin × Timestamp

  abbrev pub Pins : Type ℓ
  Pins = String → String → Option Entry

  abbrev pub no_pins : Pins
  no_pins account thread = none

  -- `retain(|_, (_, at)| now - at < KEEP)`, at one key.
  unfoldable pub retained : Timestamp → Option Entry → Option Entry
  retained now none = none
  retained now (some (pin, at)) = if ltb (now - at) keep then some (pin, at) else none

  abbrev pub leaves_pin : Headers → Bool
  leaves_pin handshake =
      not (is_empty (header handshake "thread-id") || is_guardian_reviewer handshake)

  abbrev pub is_key : String → String → String → String → Bool
  is_key account thread other_account other_thread =
      str_eq account other_account && str_eq thread other_thread

  unfoldable pub note : Pins → String → Headers → Option Pin → Timestamp → Pins
  unfolding header is_guardian_reviewer retained
  note pins account_id handshake pin now account thread =
      if not (leaves_pin handshake)
      then pins account thread
      else if is_key account_id (header handshake "thread-id") account thread
      then some (pin, now)
      else retained now (pins account thread)

  abbrev pin_of : Option Entry → Option Pin
  pin_of none = none
  pin_of (some (pin, at)) = pin

  unfoldable pub for_reviewer : Pins → String → Headers → Option Pin
  unfolding header is_guardian_reviewer
  for_reviewer pins account_id handshake =
      let parent = header handshake "x-codex-parent-thread-id" in
      if not (is_guardian_reviewer handshake) || is_empty parent
      then none
      else pin_of (pins account_id parent)

  -- A socket that was opened: the account, the handshake, its pin and the time.
  pub record Socket : Type ℓ where
    pub account_id : String
    pub handshake : Headers
    pub pin : Option Pin
    pub opened_at : Timestamp

  -- The table after the sockets, the latest first.
  unfoldable pub after_sockets : List Socket → Pins
  unfolding note
  after_sockets [] = no_pins
  after_sockets (s ∷ ss) = note (after_sockets ss) s.account_id s.handshake s.pin s.opened_at

  -- The latest of the sockets of a thread on an account that is not a reviewer's: its pin.
  unfoldable pub latest_pin : List Socket → String → String → Option Pin
  unfolding header is_guardian_reviewer
  latest_pin [] account thread = none
  latest_pin (s ∷ ss) account thread =
      let rest = latest_pin ss account thread in
      if leaves_pin s.handshake
        && is_key s.account_id (header s.handshake "thread-id") account thread
      then s.pin
      else rest

  -- What is kept was there.
  retained-same :
      (now : Timestamp) (leaves : Bool) (entry : Option Entry) (pin : Pin)
      → pin_of (if leaves then retained now entry else entry) ≡ some pin
      → pin_of entry ≡ some pin
  unfolding retained
  retained-same now false entry pin e = e
  retained-same now true none pin e = e
  retained-same now true (some (p, at)) pin e = ground (arith, e)

  pin_after :
      (leaves own : Bool) (now : Timestamp) (new : Option Pin) (entry : Option Entry)
      (rest : Option Pin) (pin : Pin)
      → (pin_of entry ≡ some pin → rest ≡ some pin)
      → pin_of (if not leaves then entry else if own then some (new, now) else retained now entry)
        ≡ some pin
      → (if leaves && own then new else rest) ≡ some pin
  pin_after false own now new entry rest pin f e = f e
  pin_after true true now new entry rest pin f e = e
  pin_after true false now new entry rest pin f e = f (retained-same now true entry pin e)

  pins-latest :
      (sockets : List Socket) (account thread : String) (pin : Pin)
      → pin_of (after_sockets sockets account thread) ≡ some pin
      → latest_pin sockets account thread ≡ some pin
  unfolding after_sockets latest_pin note
  pins-latest [] account thread pin e = cc
  pins-latest (s ∷ ss) account thread pin e =
      pin_after (leaves_pin s.handshake)
        (is_key s.account_id (header s.handshake "thread-id") account thread) s.opened_at s.pin _ _
        pin (pins-latest ss account thread pin) e

  -- Whatever sockets were opened, a pin is given only to a reviewer, and it is the one that its parent
  -- thread's latest socket on the same account left: never another account's, and never an earlier one.
  pub for_reviewer-latest :
      (sockets : List Socket) (account : String) (handshake : Headers) (pin : Pin)
      → for_reviewer (after_sockets sockets) account handshake ≡ some pin
      → (is_guardian_reviewer handshake ≡ true)
        × (latest_pin sockets account (header handshake "x-codex-parent-thread-id") ≡ some pin)
  unfolding for_reviewer
  for_reviewer-latest sockets account handshake pin e =
      let parent = header handshake "x-codex-parent-thread-id" in
      let (reviewer, found) = given (is_guardian_reviewer handshake) (is_empty parent) _ pin e in
      (reviewer, pins-latest sockets account parent pin found)
    where
      given :
          (reviewer empty : Bool) (o : Option Pin) (pin : Pin)
          → (if not reviewer || empty then none else o) ≡ some pin
          → (reviewer ≡ true) × (o ≡ some pin)
      given false empty o pin e = cc
      given true true o pin e = cc
      given true false o pin e = (refl, e)

  -- The pin that a socket leaves is the one that the next reviewer of its thread on its account is given,
  -- none where the socket got none; the thread is named, and the socket is not itself a reviewer's.
  pub for_reviewer-note :
      (pins : Pins) (account : String) (socket reviewer : Headers) (pin : Option Pin)
      (now : Timestamp)
      → is_empty (header socket "thread-id") ≡ false
      → is_guardian_reviewer socket ≡ false
      → is_guardian_reviewer reviewer ≡ true
      → header reviewer "x-codex-parent-thread-id" ≡ header socket "thread-id"
      → for_reviewer (note pins account socket pin now) account reviewer ≡ pin
  unfolding for_reviewer note
  for_reviewer-note pins account socket reviewer pin now named own asks parent =
      rw (asks, parent, named, own, eq_refl account, eq_refl (header socket "thread-id")) refl
