-- ===== src/Adapt/Tools.antt =====
-- upstream/src/pool/proxy.rs: `drop_hosted_tool_conflicts`, which removes the tools that a client
-- declares in a namespace that the backend reserves.
use Prim.Native.Char.{code}
use Prim.Native.String.{◌∷◌ as ◌∷ₛ◌, [] as []ₛ}
use codex_provider.Base.{
  String, Bool, true, false, ◌&&◌, ◌||◌, not, Option, none, some, List, [], ◌∷◌, ◌++◌, any,
  if◌then◌else◌, ◌==◌, str_eq,
}
use codex_provider.Base.Json.{
  Value, Items, Fields, array, object, no_elements, element, get_field, insert_field, text_of,
}
use codex_provider.Plan.{among}

unfoldable pub hosted_tool_namespace : String → Option String
unfolding any
hosted_tool_namespace type_name =
    if among type_name ("image_generation" ∷ "image_gen" ∷ [])
    then some "image_gen"
    else if among type_name ("web_search" ∷ "web_search_preview" ∷ [])
    then some "web_search"
    else none

abbrev pub always_reserved_tool_namespaces : List String
always_reserved_tool_namespaces = "image_gen" ∷ []

-- `Value::get`, and then `as_str().unwrap_or_default()`.
unfoldable pub text_at : String → Value → String
unfolding get_field
text_at key (object fs) = text_of (get_field key fs)
text_at key _ = ""

abbrev pub add_reserved : Option String → List String → List String
add_reserved none names = names
add_reserved (some name) names = name ∷ names

-- The namespaces of the hosted tools that are declared.
unfoldable pub declared : Items → List String
unfolding hosted_tool_namespace text_at
declared no_elements = []
declared (element v vs) = add_reserved (hosted_tool_namespace (text_at "type" v)) (declared vs)

abbrev pub declared_in : Option Value → List String
declared_in (some (array vs)) = always_reserved_tool_namespaces ++ declared vs
declared_in _ = always_reserved_tool_namespaces

-- The part before the first dot, if there is one (`split_once`).
unfoldable pub before_dot : String → Option String
before_dot []ₛ = none
before_dot (c ∷ₛ s) =
    let rest : Option String = (elim (before_dot s) [ none ↦ none | some t ↦ some (c ∷ₛ t) ]) in
    if code c == 46 then some "" else rest

abbrev among_some : Option String → List String → Bool
among_some none names = false
among_some (some name) names = among name names

abbrev pub is_hosted : Option String → Bool
is_hosted none = false
is_hosted (some name) = true

-- A tool that is removed: no hosted one, and named for a reserved namespace or in one.
unfoldable pub is_conflict : List String → Value → Bool
unfolding hosted_tool_namespace text_at before_dot any
is_conflict reserved tool =
    let name = text_at "name" tool in
    not (is_hosted (hosted_tool_namespace (text_at "type" tool)))
    && (among name reserved || among_some (before_dot name) reserved)

unfoldable pub without_conflicts : List String → Items → Items
unfolding is_conflict
without_conflicts reserved no_elements = no_elements
without_conflicts reserved (element v vs) =
    let rest = without_conflicts reserved vs in
    if is_conflict reserved v then rest else element v rest

unfoldable pub any_conflict : List String → Items → Bool
unfolding is_conflict
any_conflict reserved no_elements = false
any_conflict reserved (element v vs) = is_conflict reserved v || any_conflict reserved vs

-- `filter_reserved_tools` of the field "tools", written back where it removed any.
unfoldable pub filter_tools : List String → Option Value → Fields → Fields
unfolding without_conflicts any_conflict insert_field
filter_tools reserved (some (array vs)) fs =
    if any_conflict reserved vs
    then insert_field "tools" (array (without_conflicts reserved vs)) fs
    else fs
filter_tools reserved _ fs = fs

unfoldable pub filter_additional : List String → Value → Value
unfolding text_at filter_tools get_field
filter_additional reserved (object fs) =
    if str_eq (text_at "type" (object fs)) "additional_tools"
    then object (filter_tools reserved (get_field "tools" fs) fs)
    else object fs
filter_additional reserved v = v

unfoldable pub filter_input : List String → Items → Items
unfolding filter_additional
filter_input reserved no_elements = no_elements
filter_input reserved (element v vs) =
    element (filter_additional reserved v) (filter_input reserved vs)

-- No client's tool of the list is in a reserved namespace.
abbrev pub is_free : List String → Option Value → Bool
is_free reserved (some (array vs)) = not (any_conflict reserved vs)
is_free reserved _ = true

unfoldable pub is_free_item : List String → Value → Bool
unfolding text_at get_field any_conflict
is_free_item reserved (object fs) =
    not (str_eq (text_at "type" (object fs)) "additional_tools")
    || is_free reserved (get_field "tools" fs)
is_free_item reserved _ = true

unfoldable pub are_free_items : List String → Items → Bool
unfolding is_free_item
are_free_items reserved no_elements = true
are_free_items reserved (element v vs) = is_free_item reserved v && are_free_items reserved vs

abbrev pub is_free_input : List String → Option Value → Bool
is_free_input reserved (some (array vs)) = are_free_items reserved vs
is_free_input reserved _ = true

-- The items of the input are changed in place, where there is anything to change.
unfoldable pub filter_items : List String → Option Value → Fields → Fields
unfolding filter_input insert_field are_free_items
filter_items reserved (some (array vs)) fs =
    if are_free_items reserved vs
    then fs
    else insert_field "input" (array (filter_input reserved vs)) fs
filter_items reserved _ fs = fs

unfoldable pub drop_hosted_tool_conflicts : Fields → Fields
unfolding get_field declared filter_tools filter_items
drop_hosted_tool_conflicts fs =
    let reserved = declared_in (get_field "tools" fs) in
    let kept = filter_tools reserved (get_field "tools" fs) fs in
    filter_items reserved (get_field "input" kept) kept
