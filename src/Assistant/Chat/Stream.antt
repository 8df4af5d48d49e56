-- ===== src/Assistant/Chat/Stream.antt =====
-- What a client receives of a stream, and what the journal keeps of it.
use exobrain.Prelude.{
  ℕ, String, ◌≡◌, ◌⊎◌, inl, inr, refl, sym, ◌∙◌, ap, Option, none, true, List, [], ◌∷◌, ◌++◌, ◌==◌,
  length, map, Option-cases, if_ind, subst,
}
use exobrain.Prelude.Text.{concat, strip_text}
use exobrain.Assistant.Calls.{Answer, Call, returned, failed, continue, ◌>>=◌}
use exobrain.Assistant.Sequences.Splitting.{append_nil, append_assoc}
use exobrain.Assistant.Chat.{
  Event, QueueItem, event, sentinel, error, done, ToolCall, State, Collected, Reading, read_event,
  collect, put_event, finish, create_journal_message, create_journal_tool_call, forward,
  create_tool_calls, persist, run_stream, produce_journal_stream, stream_events,
}

abbrev items : List Event → List QueueItem
items = map event

stream_events-items :
    (sent : List Event) (rest : List QueueItem)
    → stream_events (items sent ++ rest)
      ≡ record { events = sent ++ (stream_events rest).events; ended = (stream_events rest).ended }
unfolding stream_events
stream_events-items [] rest = refl
stream_events-items (e ∷ sent) rest = ap (read_event e) (stream_events-items sent rest)

KeepsQueue : {A : Type 0} → Call State String A → Type 0
KeepsQueue m = (w : State) → (m w).1.queue ≡ w.queue

queue-continue :
    {A B : Type 0} (f : A → Call State String B) (o : Answer String A × State)
    → ((a : A) → KeepsQueue (f a))
    → (continue f o).1.queue ≡ o.1.queue
unfolding KeepsQueue
queue-continue f (returned a, w) h = h a w
queue-continue f (failed e, w) h = refl

-- How the try block leaves the queue: it put all of the agent's events, or none and failed.
record IsSent (events : List Event) (w : State) (o : Answer String (Unit {0}) × State)
    : Type 0 where
  sent : List Event
  queued : o.1.queue ≡ w.queue ++ items sent
  extent : (sent ≡ events) ⊎ ((sent ≡ []) × (exc : String) × (o.0 ≡ failed exc))

abbrev tail_of : {A : Type 0} → Answer String A → List Event
tail_of (returned a) = done "complete" ∷ []
tail_of (failed exc) = error "Assistant stream failed" none ∷ done "complete" ∷ []

stream_events-finish :
    (sent : List Event) (o : Answer String (Unit {0}) × State)
    → o.1.queue ≡ items sent
    → stream_events (finish o).queue ≡ record { events = sent ++ tail_of o.0; ended = true }
unfolding finish stream_events
stream_events-finish sent (returned u, w) h = rw h (
    ap stream_events (append_assoc (items sent) (event (done "complete") ∷ []) (sentinel ∷ []))
    ∙ stream_events-items sent (event (done "complete") ∷ sentinel ∷ []))
stream_events-finish sent (failed exc, w) h = rw h (
    ap stream_events (
      append_assoc _ (event (done "complete") ∷ []) (sentinel ∷ [])
      ∙ append_assoc (items sent) (event (error "Assistant stream failed" none) ∷ [])
          (event (done "complete") ∷ sentinel ∷ []))
    ∙ stream_events-items sent
        (event (error "Assistant stream failed" none) ∷ event (done "complete") ∷ sentinel ∷ []))

-- What a client reads of a stream whose agent yields `events`, by how the work behind it ended: if it
-- returned, all of them and then that the stream is done; if it raised, all or none of them, then an
-- error, and then that it is done; and then the stream ends.
pub data IsReceived (events : List Event) : Answer String (Unit {0}) → Reading → Type 0 where
  completed :
      IsReceived events
        (returned tt)
        (record { events = events ++ (done "complete" ∷ []); ended = true })
  broken :
      (exc : String) (sent : List Event)
      → (sent ≡ events) ⊎ (sent ≡ [])
      → IsReceived events (failed exc) (record {
        events = sent ++ (error "Assistant stream failed" none ∷ done "complete" ∷ []);
        ended = true;
      })

tail-IsReceived :
    (events sent : List Event) (a : Answer String (Unit {0}))
    → (sent ≡ events) ⊎ ((sent ≡ []) × (exc : String) × (a ≡ failed exc))
    → IsReceived events a (record { events = sent ++ tail_of a; ended = true })
tail-IsReceived events sent (returned tt) (inl e) =
    subst
      (λ s.
        IsReceived events (returned tt)
          (record { events = s ++ (done "complete" ∷ []); ended = true }))
      (sym e) completed
tail-IsReceived events sent (returned u) (inr (_, exc, e)) = cc
tail-IsReceived events sent (failed exc) (inl e) = broken exc sent (inl e)
tail-IsReceived events sent (failed exc) (inr (e, _, _)) = broken exc sent (inr e)

module _ (ensure_fault : Option String) (message_fault : String → Option String)
    (message_id : ℕ → String) (tool_call_fault : ℕ → Option String) (agent_events : List Event)
    (agent_fault : Option String) where
  abbrev run : String → String → State → Answer String (Unit {0}) × State
  run = run_stream ensure_fault message_fault message_id tool_call_fault agent_events agent_fault

  abbrev create : String → String → Option String → Call State String String
  create =
      create_journal_message ensure_fault message_fault message_id tool_call_fault agent_events
        agent_fault

  create_journal_message-KeepsQueue :
      (role content : String) (client_message_id : Option String)
      → KeepsQueue (
          create_journal_message ensure_fault message_fault message_id tool_call_fault agent_events
            agent_fault role content client_message_id)
  unfolding KeepsQueue
  create_journal_message-KeepsQueue role content client_message_id w =
      elim (Option-cases (message_fault role)) [
        | inl none_raised ↦ rw none_raised refl
        | inr (exc, raised) ↦ rw raised refl
      ]

  create_journal_tool_call-KeepsQueue :
      (id : String) (call : ToolCall)
      → KeepsQueue (
          create_journal_tool_call ensure_fault message_fault message_id tool_call_fault
            agent_events agent_fault id call)
  unfolding KeepsQueue
  create_journal_tool_call-KeepsQueue id call w =
      elim (Option-cases (tool_call_fault (length w.journal.tool_calls))) [
        | inl none_raised ↦ rw none_raised refl
        | inr (exc, raised) ↦ rw raised refl
      ]

  create_tool_calls-KeepsQueue :
      (id : String) (calls : List (String × ToolCall))
      → KeepsQueue (
          create_tool_calls ensure_fault message_fault message_id tool_call_fault agent_events
            agent_fault id calls)
  unfolding KeepsQueue create_tool_calls ◌>>=◌
  create_tool_calls-KeepsQueue id [] w = refl
  create_tool_calls-KeepsQueue id ((k, call) ∷ calls) w =
      queue-continue _ _ (λ u. create_tool_calls-KeepsQueue id calls)
      ∙ create_journal_tool_call-KeepsQueue id call w

  persist-KeepsQueue :
      (c : Collected)
      → KeepsQueue
          (persist ensure_fault message_fault message_id tool_call_fault agent_events agent_fault c)
  unfolding KeepsQueue persist ◌>>=◌
  persist-KeepsQueue c w =
      if_ind (λ (m : Call State String (Unit {0})). (m w).1.queue ≡ w.queue)
        (strip_text (concat c.chunks) == "") (λ t. refl)
        λ f.
          queue-continue _ (create "assistant" (strip_text (concat c.chunks)) none w)
            (λ id. create_tool_calls-KeepsQueue id c.tool_calls)
          ∙ create_journal_message-KeepsQueue "assistant" (strip_text (concat c.chunks)) none w

  queue-forward :
      (events : List Event) (c : Collected) (w : State)
      → (forward ensure_fault message_fault message_id tool_call_fault agent_events agent_fault c
          events w).1.queue
        ≡ w.queue ++ items events
  unfolding forward
  queue-forward [] c w = elim (Option-cases agent_fault) [
    | inl none_raised ↦ rw none_raised (sym (append_nil _))
    | inr (exc, raised) ↦ rw raised (sym (append_nil _))
  ]
  queue-forward (e ∷ events) c w =
      queue-forward events (collect c e) (put_event (event e) w)
      ∙ append_assoc w.queue (event e ∷ []) (items events)

  run_stream-IsSent :
      (message client_message_id : String) (w : State)
      → IsSent agent_events w (run message client_message_id w)
  unfolding run_stream ◌>>=◌
  run_stream-IsSent message client_message_id w = elim (Option-cases ensure_fault) [
    | inr (exc, raised) ↦
        rw raised
          (record { sent = []; queued = sym (append_nil _); extent = inr (refl, exc, refl) })
    | inl none_raised ↦ rw none_raised (elim (Option-cases (message_fault "user")) [
      | inr (exc, raised) ↦
          rw raised
            (record { sent = []; queued = sym (append_nil _); extent = inr (refl, exc, refl) })
      | inl none_raised ↦ rw none_raised (record {
        sent = agent_events;
        queued = queue-continue _ _ persist-KeepsQueue ∙ queue-forward agent_events _ _;
        extent = inl refl;
      })
    ])
  ]

  -- However the journal and the agent answer, a client that reads a new stream receives, if no call
  -- raises, all events that the agent yields and then `done`, and if one raises, all or none of
  -- them, then one error, and then `done`; and after it the stream ends.
  pub produce_journal_stream-IsReceived :
      (message client_message_id : String) (w : State)
      → w.queue ≡ []
      → IsReceived agent_events
          (run_stream ensure_fault message_fault message_id tool_call_fault agent_events agent_fault
            message client_message_id w).0
          (stream_events
            (produce_journal_stream ensure_fault message_fault message_id tool_call_fault
              agent_events agent_fault message client_message_id w).queue)
  unfolding produce_journal_stream
  produce_journal_stream-IsReceived message client_message_id w fresh =
      let x = run_stream-IsSent message client_message_id w in
      let o = run message client_message_id w in
      subst (IsReceived agent_events o.0)
        (sym (stream_events-finish x.sent o (x.queued ∙ ap (λ q. q ++ items x.sent) fresh)))
        (tail-IsReceived agent_events x.sent o.0 x.extent)
