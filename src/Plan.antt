-- ===== src/Plan.antt =====
-- upstream/src/pool/plan.rs, as far as routing reads it: which account may serve a model, which plan
-- an account has, and what its weekly allowance weighs. A weight is in millionths of the base one.
use Prim.Native.Char.{code}
use Prim.Native.String.{len, count, ◌++◌ as ◌<>◌}
use codex_provider.Base.Text.{
  is_empty, trim, to_lowercase, filter_chars, all_chars, contains, is_whitespace, is_control,
}
use codex_provider.Base.{
  ℕ, zero, suc, ◌*◌, String, Bool, true, false, ◌&&◌, ◌||◌, not, List, [], ◌∷◌, any, ltb, leb, ◌==◌,
  if◌then◌else◌, str_eq, unwrap_or, find,
}
use codex_provider.State.{Account}

unfoldable pub is_codex_device_auth : Account → Bool
is_codex_device_auth item = str_eq item.auth_type "codex_device_auth"

abbrev pub among : String → List String → Bool
among s = any (λ t. str_eq t s)

unfoldable pub allowed_model : Account → String → Bool
unfolding any
allowed_model item model =
    if among model item.excluded_models
    then false
    else (elim item.allowed_models [ [] ↦ true | _ ∷ _ ↦ among model item.allowed_models ])

unfoldable pub is_ascii_lowercase_or_digit : ℕ → Bool
is_ascii_lowercase_or_digit c = (leb b'a' c && leb c b'z') || (leb b'0' c && leb c b'9')

unfoldable pub compact_plan_limit_text : String → String
unfolding trim to_lowercase filter_chars is_ascii_lowercase_or_digit
compact_plan_limit_text value = filter_chars is_ascii_lowercase_or_digit (to_lowercase (trim value))

-- `replace(['-', ' '], "_")`.
unfoldable pub underscores : String → String
underscores String.[] = String.[]
underscores (String.◌∷◌ c s) =
    if code c == b'-' || code c == b' ' then "_" <> underscores s else String.◌∷◌ c (underscores s)

unfoldable pub normalize_plan_type : String → String
unfolding trim to_lowercase underscores any compact_plan_limit_text contains find
normalize_plan_type raw =
    let value = underscores (to_lowercase (trim raw)) in
    if among value (
      "free" ∷ "go" ∷ "plus" ∷ "pro" ∷ "pro_lite" ∷ "pro_max" ∷ "team" ∷ "business" ∷ "enterprise"
      ∷ "edu" ∷ [])
    then value
    else if str_eq value "chatgpt_plus"
    then "plus"
    else if str_eq value "chatgpt_pro"
    then "pro"
    else if str_eq value "chatgpt_team"
    then "team"
    else if str_eq value "chatgpt_business"
    then "business"
    else if str_eq value "chatgpt_enterprise"
    then "enterprise"
    else if str_eq value "chatgpt_edu"
    then "edu"
    else if is_empty value
    then "unknown"
    else unwrap_or
        (find (contains (compact_plan_limit_text value))
          ("enterprise" ∷ "business" ∷ "team" ∷ "plus" ∷ "pro" ∷ "free" ∷ "edu" ∷ []))
        value

unfoldable pub normalize_email : String → String
unfolding trim to_lowercase
normalize_email value = to_lowercase (trim value)

unfoldable pub clean_plan_limit : String → String
unfolding trim to_lowercase any
clean_plan_limit raw =
    let value = to_lowercase (trim raw) in
    if among value ("5x" ∷ "10x" ∷ "20x" ∷ "25x" ∷ []) then value else ""

unfoldable pub clean_metadata_token : String → String
unfolding trim to_lowercase all_chars is_ascii_lowercase_or_digit
clean_metadata_token raw =
    let value = to_lowercase (trim raw) in
    if is_empty value || ltb 80 (len value)
    then ""
    else if all_chars (λ c. is_ascii_lowercase_or_digit c || c == b'_' || c == b'-' || c == b'.')
        value
    then value
    else ""

-- `value.chars().take(n).collect()`.
unfoldable pub truncate_runes : String → ℕ → String
truncate_runes String.[] n = String.[]
truncate_runes (String.◌∷◌ c s) zero = String.[]
truncate_runes (String.◌∷◌ c s) (suc n) = String.◌∷◌ c (truncate_runes s n)

-- `split_whitespace` joined by single spaces: each run of whitespace that a word follows is one
-- space, and there is none before the first word.
unfoldable pub collapse_from : Bool → Bool → String → String
unfolding is_whitespace
collapse_from started gap String.[] = String.[]
collapse_from started gap (String.◌∷◌ c s) =
    let blank = collapse_from started true s in
    let word = String.◌∷◌ c (collapse_from true false s) in
    if is_whitespace (code c) then blank else if started && gap then " " <> word else word

unfoldable pub collapse_fields : String → String
unfolding collapse_from
collapse_fields = collapse_from false false

unfoldable pub clean_organization_name : String → String
unfolding trim filter_chars is_control collapse_fields truncate_runes
clean_organization_name raw =
    let value = trim raw in
    if is_empty value
    then ""
    else let joined = collapse_fields (filter_chars (λ c. not (is_control c)) value) in
      if ltb 120 (count joined) then truncate_runes joined 120 else joined

abbrev pub base_weekly_weight : ℕ
base_weekly_weight = 1000000

-- The weight alone: the source also says whether it was assumed, for the dashboard.
unfoldable pub account_weekly_weight : String → String → String → ℕ → ℕ
unfolding normalize_plan_type clean_plan_limit clean_metadata_token
account_weekly_weight plan_family plan_limit seat_type premium_seat_weight =
    let family = normalize_plan_type plan_family in
    let limit = clean_plan_limit plan_limit in
    if str_eq family "pro"
    then (if str_eq limit "5x"
        then 5 * base_weekly_weight
        else if str_eq limit "10x"
        then 10 * base_weekly_weight
        else if str_eq limit "20x"
        then 20 * base_weekly_weight
        else if str_eq limit "25x"
        then 25 * base_weekly_weight
        else 10 * base_weekly_weight)
    else if str_eq family "pro_lite"
    then 5 * base_weekly_weight
    else if str_eq family "pro_max"
    then 25 * base_weekly_weight
    else if str_eq family "business" && str_eq (clean_metadata_token seat_type) "premium"
    then premium_seat_weight
    else base_weekly_weight
