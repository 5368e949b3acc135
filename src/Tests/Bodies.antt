-- ===== src/Tests/Bodies.antt =====
-- Requests' bodies and routing pins.
use codex_provider.Base.{◌≡◌, refl, String, true, none, some, List, [], ◌∷◌, str_eq, if◌then◌else◌}
use codex_provider.Base.Json.{
  Value, Fields, string, array, object, no_elements, element, no_members, member, get_field,
}
use codex_provider.Base.Text.{ends_with}
use codex_provider.Adapt.{adapt, codex_backend_request_body}
use codex_provider.Adapt.Accepts.{Accepted}
use codex_provider.Adapt.Backend.{Sends, adapt-Accepted, codex_backend_request_body-sent}
use codex_provider.Adapt.Tools.{declared_in, drop_hosted_tool_conflicts}
use codex_provider.Adapt.Free.{Free, drop_hosted_tool_conflicts-Free}
use codex_provider.Pins.{
  Headers, is_guardian_reviewer, header, Socket, after_sockets, latest_pin, for_reviewer, note,
  no_pins, for_reviewer-latest, for_reviewer-note,
}
use codex_provider.Tests.{moment}

-- A chat app's request: a text as input, and a temperature.
abbrev app_request : Fields
app_request = member "input" (string "hi") (member "temperature" (string "1") no_members)

adapt-Accepted_example : Accepted (adapt app_request).payload
unfolding get_field
adapt-Accepted_example = adapt-Accepted app_request refl

codex_backend_request_body-sent_example :
    Sends app_request
      (codex_backend_request_body "/responses" (some app_request))
      (λ printout. codex_backend_request_body "/responses" (some printout))
unfolding ends_with
codex_backend_request_body-sent_example =
    codex_backend_request_body-sent "/responses" app_request refl

abbrev tool : String → String → Value
tool kind name = object (member "name" (string name) (member "type" (string kind) no_members))

-- A hosted search, a client's own image tool and a harmless one.
abbrev tools_request : Fields
tools_request =
    member "tools"
      (array (
        element (tool "web_search" "") (
          element (tool "function" "image_gen.imagegen")
            (element (tool "function" "shell") no_elements))))
      no_members

one_is_dropped :
    drop_hosted_tool_conflicts tools_request
    ≡ member "tools"
        (array (element (tool "web_search" "") (element (tool "function" "shell") no_elements)))
        no_members
unfolding drop_hosted_tool_conflicts
one_is_dropped = refl

drop_hosted_tool_conflicts-Free_example :
    Free (declared_in (get_field "tools" tools_request)) (drop_hosted_tool_conflicts tools_request)
drop_hosted_tool_conflicts-Free_example = drop_hosted_tool_conflicts-Free tools_request

abbrev parent_socket : Headers
parent_socket name = if str_eq name "thread-id" then some "t1" else none

abbrev reviewer_socket : Headers
reviewer_socket name =
    if str_eq name "x-codex-guardian"
    then some "reviewer"
    else if str_eq name "x-codex-parent-thread-id"
    then some "t1"
    else none

for_reviewer-note_example :
    for_reviewer String
      (note String (no_pins String) "a" parent_socket (some "pin") moment)
      "a"
      reviewer_socket
    ≡ some "pin"
unfolding header is_guardian_reviewer
for_reviewer-note_example =
    for_reviewer-note String (no_pins String) "a" parent_socket reviewer_socket (some "pin") moment
      refl refl refl refl

abbrev sockets : List (Socket String)
sockets =
    record { account_id = "a"; handshake = parent_socket; pin = some "new"; opened_at = moment }
    ∷ record { account_id = "a"; handshake = parent_socket; pin = some "old"; opened_at = moment }
    ∷ []

the_new_one : for_reviewer String (after_sockets String sockets) "a" reviewer_socket ≡ some "new"
unfolding for_reviewer after_sockets
the_new_one = refl

for_reviewer-latest_example :
    (is_guardian_reviewer reviewer_socket ≡ true)
    × (latest_pin String sockets "a" (header reviewer_socket "x-codex-parent-thread-id")
        ≡ some "new")
for_reviewer-latest_example =
    for_reviewer-latest String sockets "a" reviewer_socket "new" the_new_one
