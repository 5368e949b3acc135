-- ===== src/Base/Json.antt =====
-- serde_json's `Value`. A number is its text; an object is in the order of its keys, as a BTreeMap is.
use Prim.Native.String.{String}
use mathlib.Core.Path.{◌≡◌, refl, ap}
use mathlib.Core.Bool.{Bool}
use mathlib.Core.Option.{Option, none, some}
use mathlib.Core.Logic.{inl, inr}
use native.Mathlib.Omega.{arith}
use text.Mathlib.Text.{◌==◌ as str_eq}
use text.Mathlib.TextEquality.{eq_iff}
use codex_provider.Base.Tests.{if◌then◌else◌, str_lt, Bool-cases}

mutual
  pub data Fields : Type 0 where
    member : (key : String) (value : Value) → Fields → Fields
    no_members : Fields

  pub data Items : Type 0 where
    element : (first : Value) → Items → Items
    no_elements : Items

  pub data Value : Type 0 where
    object : Fields → Value
    array : Items → Value
    string number : String → Value
    boolean : Bool → Value
    null : Value

-- `Map::get`, `insert` and `remove`.
unfoldable pub get_field : String → Fields → Option Value
get_field k no_members = none
get_field k (member j v fs) = if str_eq j k then some v else get_field k fs

unfoldable pub insert_field : String → Value → Fields → Fields
insert_field k v no_members = member k v no_members
insert_field k v (member j w fs) =
    if str_eq j k
    then member k v fs
    else if str_lt k j
    then member k v (member j w fs)
    else member j w (insert_field k v fs)

unfoldable pub remove_field : String → Fields → Fields
remove_field k no_members = no_members
remove_field k (member j v fs) =
    if str_eq j k then remove_field k fs else member j v (remove_field k fs)

-- `Value::as_str` and `as_bool` of a field.
abbrev pub text_of : Option Value → String
text_of (some (string s)) = s
text_of _ = ""

pub get-insert_field :
    (k j : String) (v : Value) (fs : Fields)
    → get_field j (insert_field k v fs) ≡ (if str_eq k j then some v else get_field j fs)
unfolding get_field insert_field
get-insert_field k j v no_members = refl
get-insert_field k j v (member i w fs) =
    ground (arith, eq_iff k j, eq_iff i k, eq_iff i j, get-insert_field k j v fs)

pub get-remove_field :
    (k j : String) (fs : Fields)
    → get_field j (remove_field k fs) ≡ (if str_eq k j then none else get_field j fs)
unfolding get_field remove_field
get-remove_field k j no_members = ground arith
get-remove_field k j (member i w fs) =
    ground (arith, eq_iff k j, eq_iff i k, eq_iff i j, get-remove_field k j fs)

-- A field that is not there is removed without effect.
pub remove-absent : (k : String) (fs : Fields) → get_field k fs ≡ none → remove_field k fs ≡ fs
unfolding get_field remove_field
remove-absent k no_members e = refl
remove-absent k (member i w fs) e = elim (Bool-cases (str_eq i k)) [
  | inl h ↦ absurd (ground arith)
  | inr h ↦ rw h (ap (member i w) (remove-absent k fs (rw h at e)))
]
