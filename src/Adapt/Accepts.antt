-- ===== src/Adapt/Accepts.antt =====
-- What the Codex backend accepts, and what each rewriting of upstream/src/pool/proxy.rs does to it.
use codex_provider.Base.{
  ◌≡◌, ◌∙◌, refl, ap, String, Bool, true, false, ◌||◌, not, Option, none, some, inl, inr, List, [],
  ◌∷◌, All, any, Bool-cases, if◌then◌else◌, str_eq, eq_refl,
}
use codex_provider.Base.Json.{
  Value, Items, Fields, null, boolean, number, string, array, object, no_elements, element,
  get_field, text_of, get-insert_field, get-remove_field, remove-absent,
}
use codex_provider.Adapt.{
  codex_backend_unsupported_fields, Adapted, with_list_input, is_boolean, with_stream,
  without_store, without_fields, drop_field, one_item, user_message, as_developer, is_system,
  developer_items, any_system, with_developer,
}

-- An input that is no text, and of which no item has the role "system".
unfoldable pub is_input : Option Value → Bool
unfolding any_system
is_input (some (string s)) = false
is_input (some (array vs)) = not (any_system vs)
is_input _ = true

abbrev pub not_text : Option Value → Bool
not_text (some (string s)) = false
not_text _ = true

-- A payload in which the adaptation finds nothing to change: it streams, is not stored, has none of the
-- fields that the backend does not know, and its input is no text and has no system role.
pub record Settled (fs : Fields) : Type 0 where
  pub streams : is_boolean true (get_field "stream" fs) ≡ true
  pub not_stored : is_boolean false (get_field "store" fs) ≡ true
  pub supported : All (λ k. get_field k fs ≡ none) codex_backend_unsupported_fields
  pub input : is_input (get_field "input" fs) ≡ true

-- A list of which no item has the role "system".
unfoldable pub is_list_input : Option Value → Bool
unfolding any_system
is_list_input (some (array vs)) = not (any_system vs)
is_list_input _ = false

-- A payload that the backend does not reject, which accepts list input only.
pub record Accepted (fs : Fields) : Type 0 where
  pub settled : Settled fs
  pub listed : is_list_input (get_field "input" fs) ≡ true

abbrev pub text_or_list : Option Value → Bool
text_or_list (some (string s)) = true
text_or_list (some (array vs)) = true
text_or_list _ = false

abbrev pub is_list : Option Value → Bool
is_list (some (array vs)) = true
is_list _ = false

module _ (j : String) (a : Adapted) where
  pub with_stream-other :
      str_eq "stream" j ≡ false → get_field j (with_stream a).payload ≡ get_field j a.payload
  unfolding with_stream
  with_stream-other apart = elim (Bool-cases (is_boolean true (get_field "stream" a.payload))) [
    | inl e ↦ rw e refl
    | inr e ↦ rw e (get-insert_field "stream" j (boolean true) a.payload ∙ rw apart refl)
  ]

  pub without_store-other :
      str_eq "store" j ≡ false → get_field j (without_store a).payload ≡ get_field j a.payload
  unfolding without_store
  without_store-other apart = elim (Bool-cases (is_boolean false (get_field "store" a.payload))) [
    | inl e ↦ rw e refl
    | inr e ↦ rw e (get-insert_field "store" j (boolean false) a.payload ∙ rw apart refl)
  ]

  pub with_developer-other :
      (o : Option Value)
      → str_eq "input" j ≡ false
      → get_field j (with_developer o a).payload ≡ get_field j a.payload
  unfolding with_developer
  with_developer-other none apart = refl
  with_developer-other (some null) apart = refl
  with_developer-other (some (boolean b)) apart = refl
  with_developer-other (some (number n)) apart = refl
  with_developer-other (some (string s)) apart = refl
  with_developer-other (some (object fs)) apart = refl
  with_developer-other (some (array vs)) apart = elim (Bool-cases (any_system vs)) [
    | inl e ↦
        rw e (get-insert_field "input" j (array (developer_items vs)) a.payload ∙ rw apart refl)
    | inr e ↦ rw e refl
  ]

pub with_stream-ok :
    (a : Adapted) → is_boolean true (get_field "stream" (with_stream a).payload) ≡ true
unfolding with_stream
with_stream-ok a = elim (Bool-cases (is_boolean true (get_field "stream" a.payload))) [
  | inl e ↦ rw e e
  | inr e ↦ rw (e, get-insert_field "stream" "stream" (boolean true) a.payload) refl
]

pub without_store-ok :
    (a : Adapted) → is_boolean false (get_field "store" (without_store a).payload) ≡ true
unfolding without_store
without_store-ok a = elim (Bool-cases (is_boolean false (get_field "store" a.payload))) [
  | inl e ↦ rw e e
  | inr e ↦ rw (e, get-insert_field "store" "store" (boolean false) a.payload) refl
]

neither : (a b : Bool) → a || b ≡ false → (a ≡ false) × (b ≡ false)
neither true b e = cc
neither false b e = (refl, e)

pub without_fields-other :
    (j : String) (ks : List String) (a : Adapted)
    → any (λ k. str_eq k j) ks ≡ false
    → get_field j (without_fields ks a).payload ≡ get_field j a.payload
unfolding without_fields any
without_fields-other j [] a e = refl
without_fields-other j (k ∷ ks) a e =
    let (apart, rest) = neither (str_eq k j) (any (λ k. str_eq k j) ks) e in
    without_fields-other j ks (drop_field k a) rest ∙ get-remove_field k j a.payload ∙ rw apart refl

without_fields-absent :
    (j : String) (ks : List String) (a : Adapted)
    → get_field j a.payload ≡ none
    → get_field j (without_fields ks a).payload ≡ none
unfolding without_fields
without_fields-absent j [] a e = e
without_fields-absent j (k ∷ ks) a e =
    without_fields-absent j ks (drop_field k a)
      (get-remove_field k j a.payload ∙ either (str_eq k j))
  where
    either : (b : Bool) → (if b then none else get_field j a.payload) ≡ none
    either true = refl
    either false = e

pub without_fields-none :
    (ks : List String) (a : Adapted)
    → All (λ k. get_field k (without_fields ks a).payload ≡ none) ks
unfolding without_fields
without_fields-none [] a = tt
without_fields-none (k ∷ ks) a = (
  without_fields-absent k ks (drop_field k a)
      (get-remove_field k k a.payload ∙ rw (eq_refl k) refl),
  without_fields-none ks (drop_field k a),
)

-- Fields that are not there are dropped without effect.
pub without_fields-same :
    (ks : List String) (a : Adapted)
    → a.changed ≡ false
    → All (λ k. get_field k a.payload ≡ none) ks
    → without_fields ks a ≡ a
unfolding without_fields
without_fields-same [] a e h = refl
without_fields-same (k ∷ ks) a e h =
    let same : drop_field k a ≡ a = rw (h.0, remove-absent k a.payload h.0, e) refl in
    ap (without_fields ks) same ∙ without_fields-same ks a e h.1

-- An item whose role was "system" has another one.
not_system : (v : Value) → is_system (if is_system v then as_developer v else v) ≡ false
unfolding is_system
not_system null = refl
not_system (boolean b) = refl
not_system (number n) = refl
not_system (string s) = refl
not_system (array vs) = refl
not_system (object fs) = elim (Bool-cases (str_eq (text_of (get_field "role" fs)) "system")) [
  | inl e ↦ rw (e, get-insert_field "role" "role" (string "developer") fs) refl
  | inr e ↦ rw (e, e) refl
]

developer_items-none : (vs : Items) → any_system (developer_items vs) ≡ false
unfolding developer_items any_system
developer_items-none no_elements = refl
developer_items-none (element v vs) = rw (not_system v, developer_items-none vs) refl

pub with_list_input-is_input :
    (o : Option Value) (a : Adapted)
    → get_field "input" a.payload ≡ o
    → not_text (get_field "input" (with_list_input o a).payload) ≡ true
unfolding with_list_input
with_list_input-is_input none a e = rw e refl
with_list_input-is_input (some null) a e = rw e refl
with_list_input-is_input (some (boolean b)) a e = rw e refl
with_list_input-is_input (some (number n)) a e = rw e refl
with_list_input-is_input (some (object fs)) a e = rw e refl
with_list_input-is_input (some (array vs)) a e = rw e refl
with_list_input-is_input (some (string s)) a e =
    rw (get-insert_field "input" "input" (one_item (user_message s)) a.payload) refl

pub with_developer-is_input :
    (o : Option Value) (a : Adapted)
    → get_field "input" a.payload ≡ o
    → not_text o ≡ true
    → is_input (get_field "input" (with_developer o a).payload) ≡ true
unfolding with_developer is_input
with_developer-is_input none a e h = rw e refl
with_developer-is_input (some null) a e h = rw e refl
with_developer-is_input (some (boolean b)) a e h = rw e refl
with_developer-is_input (some (number n)) a e h = rw e refl
with_developer-is_input (some (string s)) a e h = cc
with_developer-is_input (some (object fs)) a e h = rw e refl
with_developer-is_input (some (array vs)) a e h = elim (Bool-cases (any_system vs)) [
  | inl s ↦
      rw
        (
          s,
          get-insert_field "input" "input" (array (developer_items vs)) a.payload,
          developer_items-none vs,
        )
        refl
  | inr s ↦ rw (s, e, s) refl
]

pub with_list_input-list :
    (o : Option Value) (a : Adapted)
    → get_field "input" a.payload ≡ o
    → text_or_list o ≡ true
    → is_list (get_field "input" (with_list_input o a).payload) ≡ true
unfolding with_list_input
with_list_input-list none a e h = cc
with_list_input-list (some null) a e h = cc
with_list_input-list (some (boolean b)) a e h = cc
with_list_input-list (some (number n)) a e h = cc
with_list_input-list (some (object fs)) a e h = cc
with_list_input-list (some (array vs)) a e h = rw e refl
with_list_input-list (some (string s)) a e h =
    rw (get-insert_field "input" "input" (one_item (user_message s)) a.payload) refl

pub with_developer-list :
    (o : Option Value) (a : Adapted)
    → get_field "input" a.payload ≡ o
    → is_list o ≡ true
    → is_list_input (get_field "input" (with_developer o a).payload) ≡ true
unfolding with_developer is_list_input
with_developer-list none a e h = cc
with_developer-list (some null) a e h = cc
with_developer-list (some (boolean b)) a e h = cc
with_developer-list (some (number n)) a e h = cc
with_developer-list (some (string s)) a e h = cc
with_developer-list (some (object fs)) a e h = cc
with_developer-list (some (array vs)) a e h = elim (Bool-cases (any_system vs)) [
  | inl s ↦
      rw
        (
          s,
          get-insert_field "input" "input" (array (developer_items vs)) a.payload,
          developer_items-none vs,
        )
        refl
  | inr s ↦ rw (s, e, s) refl
]
