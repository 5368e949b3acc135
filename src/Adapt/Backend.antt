-- ===== src/Adapt/Backend.antt =====
-- The request that upstream/src/pool/proxy.rs sends to the Codex backend: what it is, and when it is sent
-- as it came.
use codex_provider.Base.{
  ◌≡◌, ◌∙◌, refl, ap, subst, Bool, String, true, false, Option, none, some, inl, inr, ◌⊎◌, List, [],
  ◌∷◌, All, any, arith, Bool-cases, str_eq,
}
use codex_provider.Base.Text.{ends_with}
use codex_provider.Base.Json.{
  Value, Fields, null, boolean, number, string, array, object, get_field,
}
use codex_provider.Adapt.{
  codex_backend_unsupported_fields, Adapted, with_list_input, with_stream, without_store,
  without_fields, any_system, with_developer, adapt, Body, as_it_came, printed, adapted_body,
  codex_backend_request_body,
}
use codex_provider.Adapt.Quiet.{start, adapt-quiet}
use codex_provider.Adapt.Accepts.{
  is_input, not_text, Accepted, Settled, text_or_list, with_list_input-list, with_developer-list,
  with_stream-other, without_store-other, with_developer-other, with_stream-ok, without_store-ok,
  without_fields-other, without_fields-none, without_fields-same, with_list_input-is_input,
  with_developer-is_input,
}

abbrev before_fields : Fields → Adapted
before_fields fs = without_store (with_stream (with_list_input (get_field "input" fs) (start fs)))

abbrev before_developer : Fields → Adapted
before_developer fs = without_fields codex_backend_unsupported_fields (before_fields fs)

before_developer-other :
    (fs : Fields) (j : String)
    → any (λ k. str_eq k j) codex_backend_unsupported_fields ≡ false
    → get_field j (before_developer fs).payload ≡ get_field j (before_fields fs).payload
before_developer-other fs j =
    without_fields-other j codex_backend_unsupported_fields (before_fields fs)

supported_after :
    (ks : List String) (o : Option Value) (a : Adapted)
    → All (λ k. str_eq "input" k ≡ false) ks
    → All (λ k. get_field k a.payload ≡ none) ks
    → All (λ k. get_field k (with_developer o a).payload ≡ none) ks
supported_after [] o a apart h = tt
supported_after (k ∷ ks) o a apart h =
    (with_developer-other k a o apart.0 ∙ h.0, supported_after ks o a apart.1 h.1)

input_supported : All (λ k. str_eq "input" k ≡ false) codex_backend_unsupported_fields
input_supported =
    (refl, (refl, (refl, (refl, (refl, (refl, (refl, (refl, (refl, (refl, (refl, tt)))))))))))

adapt-Settled : (fs : Fields) → Settled (adapt fs).payload
unfolding adapt any
adapt-Settled fs =
    let a = before_fields fs in
    let c = before_developer fs in
    let o = get_field "input" c.payload in
    let streamed = with_stream (with_list_input (get_field "input" fs) (start fs)) in
    record {
      streams =
          rw
            (
              with_developer-other "stream" c o refl,
              before_developer-other fs "stream" refl,
              without_store-other "stream" streamed refl,
            )
            (with_stream-ok (with_list_input (get_field "input" fs) (start fs)));
      not_stored =
          rw (with_developer-other "store" c o refl, before_developer-other fs "store" refl)
            (without_store-ok streamed);
      supported =
          supported_after codex_backend_unsupported_fields o c input_supported
            (without_fields-none codex_backend_unsupported_fields a);
      input = with_developer-is_input o c refl (
          rw
            (
              before_developer-other fs "input" refl,
              without_store-other "input" streamed refl,
              with_stream-other "input" (with_list_input (get_field "input" fs) (start fs)) refl,
            )
            (with_list_input-is_input (get_field "input" fs) (start fs) refl));
    }

-- Whatever else is in the request: where its input is a text or a list, what the adaptation makes of it
-- is a payload that the backend accepts, whose input is a list.
pub adapt-Accepted :
    (fs : Fields) → text_or_list (get_field "input" fs) ≡ true → Accepted (adapt fs).payload
unfolding adapt any
adapt-Accepted fs given =
    let c = before_developer fs in
    let streamed = with_stream (with_list_input (get_field "input" fs) (start fs)) in
    record {
      settled = adapt-Settled fs;
      listed = with_developer-list (get_field "input" c.payload) c refl (
          rw
            (
              before_developer-other fs "input" refl,
              without_store-other "input" streamed refl,
              with_stream-other "input" (with_list_input (get_field "input" fs) (start fs)) refl,
            )
            (with_list_input-list (get_field "input" fs) (start fs) refl given));
    }

with_list_input-same :
    (o : Option Value) (a : Adapted) → not_text o ≡ true → with_list_input o a ≡ a
unfolding with_list_input
with_list_input-same none a h = refl
with_list_input-same (some null) a h = refl
with_list_input-same (some (boolean b)) a h = refl
with_list_input-same (some (number n)) a h = refl
with_list_input-same (some (string s)) a h = cc
with_list_input-same (some (object fs)) a h = refl
with_list_input-same (some (array vs)) a h = refl

with_developer-same : (o : Option Value) (a : Adapted) → is_input o ≡ true → with_developer o a ≡ a
unfolding with_developer is_input
with_developer-same none a h = refl
with_developer-same (some null) a h = refl
with_developer-same (some (boolean b)) a h = refl
with_developer-same (some (number n)) a h = refl
with_developer-same (some (string s)) a h = refl
with_developer-same (some (object fs)) a h = refl
with_developer-same (some (array vs)) a h = elim (Bool-cases (any_system vs)) [
  | inl e ↦ absurd (ground (arith, h, e))
  | inr e ↦ rw e refl
]

input-not_text : (o : Option Value) → is_input o ≡ true → not_text o ≡ true
unfolding is_input
input-not_text none h = refl
input-not_text (some null) h = refl
input-not_text (some (boolean b)) h = refl
input-not_text (some (number n)) h = refl
input-not_text (some (string s)) h = cc
input-not_text (some (object fs)) h = refl
input-not_text (some (array vs)) h = refl

before_developer-same : (fs : Fields) → Settled fs → before_developer fs ≡ start fs
unfolding with_stream without_store
before_developer-same fs ok =
    let listed : with_list_input (get_field "input" fs) (start fs) ≡ start fs =
      with_list_input-same (get_field "input" fs) (start fs)
        (input-not_text (get_field "input" fs) ok.input) in
    let streamed : with_stream (start fs) ≡ start fs = rw ok.streams refl in
    let stored : without_store (start fs) ≡ start fs = rw ok.not_stored refl in
    ap (λ a. without_fields codex_backend_unsupported_fields (without_store (with_stream a))) listed
    ∙ ap (λ a. without_fields codex_backend_unsupported_fields (without_store a)) streamed
    ∙ ap (without_fields codex_backend_unsupported_fields) stored
    ∙ without_fields-same codex_backend_unsupported_fields (start fs) refl ok.supported

-- A settled payload is left as it is.
pub adapt-same : (fs : Fields) → Settled fs → adapt fs ≡ start fs
unfolding adapt
adapt-same fs ok =
    ap (λ c. with_developer (get_field "input" c.payload) c) (before_developer-same fs ok)
    ∙ with_developer-same (get_field "input" fs) (start fs) ok.input

adapted_body-Settled : (fs : Fields) → Settled fs → adapted_body fs ≡ (as_it_came, false)
unfolding adapted_body
adapted_body-Settled fs ok = rw (adapt-same fs ok) refl

-- What is sent for a request, `sent`, where `resend` is what would be sent for a printed payload.
abbrev pub Sends : Fields → Body × Bool → (Fields → Body × Bool) → Type 0
Sends fs sent resend =
    (Settled fs × (sent ≡ (as_it_came, false)))
    ⊎ (¬ Settled fs
        × (printout : Fields) × (sent.0 ≡ printed printout)
        × (resend printout ≡ (as_it_came, false)))

adapted_body-Sends : (fs : Fields) → Sends fs (adapted_body fs) adapted_body
unfolding adapted_body
adapted_body-Sends fs = elim (Bool-cases (adapt fs).changed) [
  | inr f ↦ inl (subst (λ a. Settled a.payload) (adapt-quiet fs f) (adapt-Settled fs), rw f refl)
  | inl f ↦ inr (
    (λ ok. cc (ap (λ a. a.changed) (adapt-same fs ok), f)),
    (adapt fs).payload,
    rw f refl,
    adapted_body-Settled (adapt fs).payload (adapt-Settled fs),
  )
]

-- A request to another endpoint than the compact one whose body is a JSON object: where the adaptation
-- finds nothing to change in it, it is sent as it came and its answer is not assembled. Otherwise a
-- payload is printed for it, and that payload, if it came in as a request, would be sent as it came.
pub codex_backend_request_body-sent :
    (endpoint : String) (fs : Fields)
    → ends_with "/responses/compact" endpoint ≡ false
    → Sends fs
        (codex_backend_request_body endpoint (some fs))
        (λ printout. codex_backend_request_body endpoint (some printout))
unfolding codex_backend_request_body
codex_backend_request_body-sent endpoint fs apart = rw apart (adapted_body-Sends fs)
