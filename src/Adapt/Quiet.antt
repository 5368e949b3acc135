-- ===== src/Adapt/Quiet.antt =====
-- Where the adaptation of upstream/src/pool/proxy.rs reports no change, it made none.
use codex_provider.Base.{
  ◌≡◌, ◌∙◌, refl, sym, ap, if◌then◌else◌, String, Bool, true, false, ◌||◌, Option, none, some, inl,
  inr, List, [], ◌∷◌, Bool-cases,
}
use codex_provider.Base.Json.{
  Value, Fields, null, boolean, number, string, array, object, get_field, remove-absent,
}
use codex_provider.Adapt.{
  codex_backend_unsupported_fields, Adapted, with_list_input, is_boolean, with_stream,
  without_store, without_fields, drop_field, is_there, any_system, with_developer, adapt,
}

abbrev pub start : Fields → Adapted
start fs = record { payload = fs; changed = false; aggregate = false }

with_list_input-quiet :
    (o : Option Value) (a : Adapted)
    → (with_list_input o a).changed ≡ false
    → with_list_input o a ≡ a
unfolding with_list_input
with_list_input-quiet none a h = refl
with_list_input-quiet (some null) a h = refl
with_list_input-quiet (some (boolean b)) a h = refl
with_list_input-quiet (some (number n)) a h = refl
with_list_input-quiet (some (string s)) a h = cc
with_list_input-quiet (some (object fs)) a h = refl
with_list_input-quiet (some (array vs)) a h = refl

either-quiet :
    (b : Bool) (a c : Adapted)
    → c.changed ≡ true
    → (if b then a else c).changed ≡ false
    → (if b then a else c) ≡ a
either-quiet true a c e h = refl
either-quiet false a c e h = cc

with_stream-quiet : (a : Adapted) → (with_stream a).changed ≡ false → with_stream a ≡ a
unfolding with_stream
with_stream-quiet a h = either-quiet (is_boolean true (get_field "stream" a.payload)) a _ refl h

without_store-quiet : (a : Adapted) → (without_store a).changed ≡ false → without_store a ≡ a
unfolding without_store
without_store-quiet a h = either-quiet (is_boolean false (get_field "store" a.payload)) a _ refl h

with_developer-quiet :
    (o : Option Value) (a : Adapted) → (with_developer o a).changed ≡ false → with_developer o a ≡ a
unfolding with_developer
with_developer-quiet none a h = refl
with_developer-quiet (some null) a h = refl
with_developer-quiet (some (boolean b)) a h = refl
with_developer-quiet (some (number n)) a h = refl
with_developer-quiet (some (string s)) a h = refl
with_developer-quiet (some (object fs)) a h = refl
with_developer-quiet (some (array vs)) a h = elim (Bool-cases (any_system vs)) [
  | inl e ↦ absurd (cc (rw e at h))
  | inr e ↦ rw e refl
]

absent : (o : Option Value) → is_there o ≡ false → o ≡ none
absent none h = refl
absent (some v) h = cc

neither : (a b : Bool) → a || b ≡ false → (a ≡ false) × (b ≡ false)
neither true b e = cc
neither false b e = (refl, e)

drop_field-quiet :
    (k : String) (a : Adapted) → (drop_field k a).changed ≡ false → drop_field k a ≡ a
drop_field-quiet k a h =
    let (same, gone) = neither a.changed (is_there (get_field k a.payload)) h in
    let e = absent (get_field k a.payload) gone in rw (e, remove-absent k a.payload e, same) refl

without_fields-quiet :
    (ks : List String) (a : Adapted)
    → (without_fields ks a).changed ≡ false
    → without_fields ks a ≡ a
unfolding without_fields
without_fields-quiet [] a h = refl
without_fields-quiet (k ∷ ks) a h =
    let rest = without_fields-quiet ks (drop_field k a) h in
    rest ∙ drop_field-quiet k a (rw (rest) at h)

pub adapt-quiet : (fs : Fields) → (adapt fs).changed ≡ false → adapt fs ≡ start fs
unfolding adapt
adapt-quiet fs h =
    let a = with_list_input (get_field "input" fs) (start fs) in
    let b = without_store (with_stream a) in
    let c = without_fields codex_backend_unsupported_fields b in
    let developed = with_developer-quiet (get_field "input" c.payload) c h in
    let fielded =
      without_fields-quiet codex_backend_unsupported_fields b
        (ap (λ x. x.changed) (sym developed) ∙ h) in
    let stored =
      without_store-quiet (with_stream a)
        (ap (λ x. x.changed) (sym fielded) ∙ ap (λ x. x.changed) (sym developed) ∙ h) in
    let streamed = with_stream-quiet a (
      ap (λ x. x.changed) (sym stored)
      ∙ ap (λ x. x.changed) (sym fielded)
      ∙ ap (λ x. x.changed) (sym developed)
      ∙ h) in
    let whole = developed ∙ fielded ∙ stored ∙ streamed in
    whole
    ∙ with_list_input-quiet (get_field "input" fs) (start fs) (ap (λ x. x.changed) (sym whole) ∙ h)
