-- ===== src/Adapt.antt =====
-- upstream/src/pool/proxy.rs: the adaptations of a request that the Codex backend would reject, and of
-- the tools that it reserves. What serde_json reads of a
-- body is an argument, and a payload stands for the bytes that gojson.rs prints of it.
pub mod Accepts
pub mod Quiet
pub mod Backend
pub mod Tools
pub mod Free
use codex_provider.Base.{
  ℕ, String, Bool, true, false, ◌&&◌, ◌||◌, not, Option, none, some, List, [], ◌∷◌, any,
  if◌then◌else◌, str_eq,
}
use codex_provider.Base.Text.{ends_with}
use codex_provider.Base.Json.{
  Value, Items, Fields, null, boolean, number, string, array, object, no_elements, element,
  no_members, member, get_field, insert_field, remove_field, text_of,
}
use codex_provider.Plan.{among}

abbrev pub codex_backend_unsupported_fields : List String
codex_backend_unsupported_fields =
    "max_output_tokens" ∷ "max_completion_tokens" ∷ "temperature" ∷ "top_p" ∷ "truncation" ∷ "user"
    ∷ "context_management" ∷ "safety_identifier" ∷ "stream_options" ∷ "previous_response_id"
    ∷ "prompt_cache_retention" ∷ []

-- The payload, whether it was changed, and whether the answer has to be assembled from the stream.
pub record Adapted : Type 0 where
  pub payload : Fields
  pub changed : Bool
  pub aggregate : Bool

abbrev pub one_item : Value → Value
one_item v = array (element v no_elements)

abbrev pub user_message : String → Value
user_message s = object (
    member "content"
      (one_item
        (object (member "text" (string s) (member "type" (string "input_text") no_members))))
      (member "role" (string "user") (member "type" (string "message") no_members)))

unfoldable pub with_list_input : Option Value → Adapted → Adapted
unfolding insert_field
with_list_input (some (string s)) a = record a {
  payload = insert_field "input" (one_item (user_message s)) a.payload;
  changed = true;
}
with_list_input _ a = a

abbrev pub is_boolean : Bool → Option Value → Bool
is_boolean b (some (boolean c)) = if b then c else not c
is_boolean b _ = false

unfoldable pub with_stream : Adapted → Adapted
unfolding get_field insert_field
with_stream a = if is_boolean true (get_field "stream" a.payload) then a else record {
  payload = insert_field "stream" (boolean true) a.payload;
  changed = true;
  aggregate = true;
}

unfoldable pub without_store : Adapted → Adapted
unfolding get_field insert_field
without_store a =
    if is_boolean false (get_field "store" a.payload)
    then a
    else record a { payload = insert_field "store" (boolean false) a.payload; changed = true }

abbrev pub is_there : Option Value → Bool
is_there none = false
is_there (some v) = true

abbrev pub drop_field : String → Adapted → Adapted
drop_field k a = record a {
  payload = remove_field k a.payload;
  changed = a.changed || is_there (get_field k a.payload);
}

unfoldable pub without_fields : List String → Adapted → Adapted
unfolding get_field remove_field
without_fields [] a = a
without_fields (k ∷ ks) a = without_fields ks (drop_field k a)

-- An item of the input whose role is "system".
unfoldable pub is_system : Value → Bool
unfolding get_field
is_system (object fs) = str_eq (text_of (get_field "role" fs)) "system"
is_system _ = false

abbrev pub as_developer : Value → Value
as_developer (object fs) = object (insert_field "role" (string "developer") fs)
as_developer v = v

unfoldable pub developer_items : Items → Items
unfolding is_system insert_field
developer_items no_elements = no_elements
developer_items (element v vs) =
    element (if is_system v then as_developer v else v) (developer_items vs)

unfoldable pub any_system : Items → Bool
unfolding is_system
any_system no_elements = false
any_system (element v vs) = is_system v || any_system vs

unfoldable pub with_developer : Option Value → Adapted → Adapted
unfolding developer_items any_system insert_field
with_developer (some (array vs)) a =
    if any_system vs
    then record a {
      payload = insert_field "input" (array (developer_items vs)) a.payload;
      changed = true;
    }
    else a
with_developer _ a = a

-- The changes of `codex_backend_request_body`, in order.
unfoldable pub adapt : Fields → Adapted
unfolding get_field with_list_input with_stream without_store without_fields with_developer
adapt fs =
    let a : Adapted = record { payload = fs; changed = false; aggregate = false } in
    let b = without_store (with_stream (with_list_input (get_field "input" fs) a)) in
    let c = without_fields codex_backend_unsupported_fields b in
    with_developer (get_field "input" c.payload) c

-- The body that is sent: the one that came, or a payload that `gojson::marshal` prints.
pub data Body : Type 0 where
  as_it_came : Body
  printed : Fields → Body

unfoldable pub adapted_body : Fields → Body × Bool
unfolding adapt
adapted_body fs =
    let a = adapt fs in if a.changed then (printed a.payload, a.aggregate) else (as_it_came, false)

-- `read` is what serde_json reads of the body, if it is a JSON object.
unfoldable pub codex_backend_request_body : String → Option Fields → Body × Bool
unfolding ends_with adapted_body
codex_backend_request_body endpoint none = (as_it_came, false)
codex_backend_request_body endpoint (some fs) =
    if ends_with "/responses/compact" endpoint then (as_it_came, false) else adapted_body fs
