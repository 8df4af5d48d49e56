-- ===== src/Assistant/Chat/ToolCalls.antt =====
-- The tool calls that a stream collects, against the history of each id.
use exobrain.Prelude.{
  String, ◌≡◌, refl, sym, ◌∙◌, ap, Bool, true, false, Option, none, some, List, [], ◌∷◌, ◌==◌,
  if◌then◌else◌, arith, eq_iff, Option-cases, inl, inr,
}
use exobrain.Prelude.Dict
use exobrain.Assistant.Chat.{
  Event, tool_call, tool_response, error, message_chunk, done, ToolCall, set_response, set_error,
  new_call, change, add_event, Collected, collect,
}

abbrev on_known : (ToolCall → ToolCall) → Option ToolCall → Option ToolCall
on_known f none = none
on_known f (some call) = some (f call)

-- A call that was just started has neither a response nor an error.
abbrev started : String → String → String → ToolCall
started id title description = record {
  tool_call_id = id;
  title = title;
  description = description;
  response = none;
  error_text = none;
}

-- The last response takes the place of the one before, and leaves the error; and so for an error.
abbrev responded : String → ToolCall → ToolCall
responded message call = record {
  tool_call_id = call.tool_call_id;
  title = call.title;
  description = call.description;
  response = some message;
  error_text = call.error_text;
}

abbrev failed_with : String → ToolCall → ToolCall
failed_with message call = record {
  tool_call_id = call.tool_call_id;
  title = call.title;
  description = call.description;
  response = call.response;
  error_text = some message;
}

-- What an event makes of the tool call with an id: a call of the id starts it anew, and a response
-- or an error with the id belongs to it if it was started.
abbrev step_of : String → Option ToolCall → Event → Option ToolCall
step_of id call (tool_call j title description) =
    if j == "" then call else if j == id then some (started id title description) else call
step_of id call (tool_response j message) =
    if j == id then on_known (responded message) call else call
step_of id call (error message none) = call
step_of id call (error message (some j)) =
    if j == id then on_known (failed_with message) call else call
step_of id call (message_chunk text) = call
step_of id call (done reason) = call

abbrev pub history_of : String → Option ToolCall → List Event → Option ToolCall
history_of id call [] = call
history_of id call (e ∷ events) = history_of id (step_of id call e) events

-- The loop over the agent's events, without the queue.
abbrev pub collect_all : Collected → List Event → Collected
collect_all c [] = c
collect_all c (e ∷ events) = collect_all (collect c e) events

get-change :
    (f : ToolCall → ToolCall) (calls : List (String × ToolCall)) (j id : String)
    → Dict.get (change f calls j (Dict.get calls j)) id
      ≡ (if j == id then on_known f (Dict.get calls id) else Dict.get calls id)
get-change f calls j id = elim (Option-cases (Dict.get calls j)) [
  | inl unknown ↦ rw unknown (of_none (j == id) (λ t. at_id t unknown))
  | inr (call, known) ↦
      rw known (Dict.get-put calls j (f call) id ∙ of_some call (j == id) (λ t. at_id t known))
]
  where
    at_id : {o : Option ToolCall} → (j == id) ≡ true → Dict.get calls j ≡ o → Dict.get calls id ≡ o
    at_id t e = ap (Dict.get calls) (sym (ground (arith, eq_iff j id))) ∙ e

    of_none :
        (b : Bool)
        → (b ≡ true → Dict.get calls id ≡ none)
        → Dict.get calls id ≡ (if b then on_known f (Dict.get calls id) else Dict.get calls id)
    of_none true h = h refl ∙ sym (ap (on_known f) (h refl))
    of_none false h = refl

    of_some :
        (call : ToolCall) (b : Bool)
        → (b ≡ true → Dict.get calls id ≡ some call)
        → (if b then some (f call) else Dict.get calls id)
          ≡ (if b then on_known f (Dict.get calls id) else Dict.get calls id)
    of_some call true h = sym (ap (on_known f) (h refl))
    of_some call false h = refl

get-add_event :
    (calls : List (String × ToolCall)) (e : Event) (id : String)
    → Dict.get (add_event calls e) id ≡ step_of id (Dict.get calls id) e
unfolding add_event
get-add_event calls (tool_call j title description) id = split (j == "")
  where
    split :
        (b : Bool)
        → Dict.get (if b then calls else Dict.put calls j (new_call j title description)) id ≡ (
            if b
            then Dict.get calls id
            else if j == id
            then some (started id title description)
            else Dict.get calls id)
    split true = refl
    split false = Dict.get-put calls j (new_call j title description) id ∙ own (j == id) refl
      where
        own :
            (b : Bool)
            → (j == id) ≡ b
            → (if b then some (new_call j title description) else Dict.get calls id)
              ≡ (if b then some (started id title description) else Dict.get calls id)
        own true e = ap (λ k. some (started k title description)) ((eq_iff j id).0 e)
        own false e = refl
get-add_event calls (tool_response j message) id = get-change (set_response message) calls j id
get-add_event calls (error message none) id = refl
get-add_event calls (error message (some j)) id = get-change (set_error message) calls j id
get-add_event calls (message_chunk text) id = refl
get-add_event calls (done reason) id = refl

-- Of each id the collected tool call is the one of its history: started by the last call of the id,
-- with the last response and the last error that came after it; none for an id that was not called.
pub get-collect_all :
    (events : List Event) (c : Collected) (id : String)
    → Dict.get (collect_all c events).tool_calls id
      ≡ history_of id (Dict.get c.tool_calls id) events
unfolding collect
get-collect_all [] c id = refl
get-collect_all (e ∷ events) c id =
    get-collect_all events (collect c e) id
    ∙ ap (λ call. history_of id call events) (get-add_event c.tool_calls e id)
