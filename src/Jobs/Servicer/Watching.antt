-- ===== src/Jobs/Servicer/Watching.antt =====
-- What a client of WatchJobStatus receives.
use exobrain.Prelude.{
  String, ◌≡◌, ◌≢◌, refl, ◌∙◌, subst, Bool, true, false, not, Option, none, some, List, [], ◌∷◌,
  ◌==◌, arith, eq_iff, All, All-map_to, if_ind, ◌⊎◌, inl, inr, ap, sym, ◌++◌,
}
use exobrain.Prelude.Result.{Result, ok, raised, ◌>>=◌}
use exobrain.Prelude.Text.{concat}
use exobrain.Jobs.Contracts.{JobStatusEvent}
use exobrain.Jobs.Action.{Row}
use exobrain.Jobs.Lifecycle.{StatusReply, status_snapshot_to_event, job_status_event_to_proto}
use exobrain.Jobs.Servicer.{
  Fetch, Subscription, found, released, not_subscribed, follow_subscription, failed, Ending, closed,
  Stream, Delivery, after_reply, on_event, forward, require_job_id, validate_job_id, look_up,
  follow, send_current, watch_valid, watch_configured, watch_job_status,
}

-- Only the last reply may be terminal. The stream is closed only if it is, and ends no other way
-- then, but by an exception.
abbrev pub StopsAtTerminal : List StatusReply → Ending → Type 0
StopsAtTerminal [] ending = ending ≢ closed
StopsAtTerminal (r ∷ []) ending =
    (ending ≡ closed → r.terminal ≡ true)
    × (r.terminal ≡ true → (ending ≡ closed) ⊎ ((e : String) × (ending ≡ failed e)))
StopsAtTerminal (r ∷ s ∷ rest) ending = (r.terminal ≡ false) × StopsAtTerminal (s ∷ rest) ending

failed-StopsAtTerminal :
    (rs : List StatusReply) (ending : Ending) (e : String)
    → StopsAtTerminal rs ending
    → StopsAtTerminal rs (failed e)
failed-StopsAtTerminal [] ending e h = λ c. cc
failed-StopsAtTerminal (r ∷ []) ending e h = ((λ c. absurd (cc)), λ t. inr (e, refl))
failed-StopsAtTerminal (r ∷ s ∷ rest) ending e h =
    (h.0, failed-StopsAtTerminal (s ∷ rest) ending e h.1)

released-StopsAtTerminal :
    (rs : List StatusReply) (u : Option (Option String)) (ending : Ending)
    → StopsAtTerminal rs ending
    → StopsAtTerminal rs (released u ending).0
released-StopsAtTerminal rs none ending h = h
released-StopsAtTerminal rs (some none) ending h = h
released-StopsAtTerminal rs (some (some e)) ending h = failed-StopsAtTerminal rs ending e h

prepend-StopsAtTerminal :
    (r : StatusReply) (rest : List StatusReply) (ending : Ending)
    → r.terminal ≡ false
    → StopsAtTerminal rest ending
    → StopsAtTerminal (r ∷ rest) ending
prepend-StopsAtTerminal r [] ending open_still h = ((λ e. absurd (h e)), λ t. absurd (cc))
prepend-StopsAtTerminal r (s ∷ rest) ending open_still h = (open_still, h)

-- The part of a stream that `forward` gives: its replies are about the job, and it stops right.
abbrev Proper : String → List StatusReply × Ending → Type 0
Proper job_id (replies, ending) =
    All (λ r. r.job_id ≡ job_id) replies × StopsAtTerminal replies ending

after_reply-Proper :
    (job_id : String) (r : Result StatusReply) (rest : List StatusReply × Ending)
    → ((reply : StatusReply) → r ≡ ok reply → reply.job_id ≡ job_id)
    → Proper job_id rest
    → Proper job_id (after_reply r rest)
after_reply-Proper job_id (raised e) rest named h = (tt, λ e'. cc)
after_reply-Proper job_id (ok reply) (replies, ending) named h =
    if_ind (Proper job_id) reply.terminal (λ t. ((named reply refl, tt), ((λ _. t), λ _. inl refl)))
      (λ f. ((named reply refl, h.0), prepend-StopsAtTerminal reply replies ending f h.1))

proto-job_id :
    (event : JobStatusEvent) (reply : StatusReply)
    → job_status_event_to_proto event ≡ ok reply
    → reply.job_id ≡ event.job_id
unfolding job_status_event_to_proto
proto-job_id event reply h = ground arith

on_event-Proper :
    (job_id : String) (r : Result JobStatusEvent) (rest : List StatusReply × Ending)
    → Proper job_id rest
    → Proper job_id (on_event job_id r rest)
on_event-Proper job_id (raised e) rest h = (tt, λ e'. cc)
on_event-Proper job_id (ok event) rest h =
    if_ind (Proper job_id) (not (event.job_id == job_id)) (λ _. h)
      λ same.
        after_reply-Proper job_id (job_status_event_to_proto event) rest
          (λ reply e. proto-job_id event reply e ∙ own same) h
  where
    own : not (event.job_id == job_id) ≡ false → event.job_id ≡ job_id
    own same = ground (arith, eq_iff event.job_id job_id)

forward-Proper :
    (job_id : String) (subscription : List Delivery) → Proper job_id (forward job_id subscription)
unfolding forward
forward-Proper job_id [] = (tt, λ e. cc)
forward-Proper job_id (d ∷ subscription) =
    if_ind (Proper job_id) d.is_cancelled (λ _. (tt, λ e. cc))
      (λ _. on_event-Proper job_id d.event _ (forward-Proper job_id subscription))

valid-job_id :
    (is_uuid : String → Bool) (requested job_id : String)
    → require_job_id is_uuid requested ≡ ok job_id
    → job_id ≡ requested
unfolding require_job_id validate_job_id
valid-job_id is_uuid requested job_id h = ground arith

module _ {P : Type 0} (fetch : Fetch P) (subscribe : Option (String → Result Subscription)) where
  -- The text is the one that was asked for, or that of the id of the row that the lookup gives for it.
  abbrev pub IsNamed : String → String → Type 0
  IsNamed requested name =
      (name ≡ requested)
      ⊎ ((f : String → Result (Option (String × Row P))) × (row : Row P) × (fetch ≡ some f)
          × (f requested ≡ ok (some (name, row))))

  pub record IsProper (requested : String) (s : Stream) : Type 0 where
    pub named : All (λ r. IsNamed requested r.job_id) s.replies
    pub stops : StopsAtTerminal s.replies s.ending
    pub given_up :
        (subscription : Subscription) (exc : Option String) (f : String → Result Subscription)
        → s.subscribed ≡ true
        → subscribe ≡ some f
        → f (concat ("jobs.status." ∷ requested ∷ [])) ≡ ok subscription
        → subscription.unsubscribe ≡ some exc
        → s.unsubscribed ≡ true

  IsProper-not_subscribed :
      (requested : String) (replies : List StatusReply) (ending : Ending)
      → All (λ r. IsNamed requested r.job_id) replies
      → StopsAtTerminal replies ending
      → IsProper requested (not_subscribed replies ending)
  IsProper-not_subscribed requested replies ending named stops = record {
    named = named;
    stops = stops;
    given_up = λ subscription exc f opened. absurd (cc);
  }

  -- What was sent before the subscription: nothing, or one reply that is not terminal.
  abbrev IsStart : String → List StatusReply → Type 0
  IsStart requested [] = Unit
  IsStart requested (r ∷ []) = IsNamed requested r.job_id × (r.terminal ≡ false)
  IsStart requested _ = ⊥

  start-Proper :
      (requested : String) (sent : List StatusReply) (o : List StatusReply × Ending)
      → IsStart requested sent
      → Proper requested o
      → All (λ r. IsNamed requested r.job_id) (sent ++ o.0) × StopsAtTerminal (sent ++ o.0) o.1
  start-Proper requested [] o start p = (All-map_to _ _ (λ r e. inl e) o.0 p.0, p.1)
  start-Proper requested (r ∷ []) o start p = (
    (start.0, All-map_to _ _ (λ r e. inl e) o.0 p.0),
    prepend-StopsAtTerminal r o.0 o.1 start.1 p.1,
  )
  start-Proper requested (r ∷ s ∷ rest) o start p = elim start [ ]

  -- `n` is not none, as an `unsubscribe` that is callable is called.
  called :
      (u : Option (Option String)) (exc : Option String) (ending : Ending)
      → u ≡ some exc
      → (released u ending).1 ≡ true
  called none exc ending e = cc
  called (some none) exc ending e = refl
  called (some (some x)) exc ending e = refl

  follow-IsProper :
      (requested : String) (f : String → Result Subscription) (sent : List StatusReply)
      → subscribe ≡ some f
      → IsStart requested sent
      → IsProper requested (follow requested f sent)
  unfolding follow
  follow-IsProper requested f sent given start =
      answered (f (concat ("jobs.status." ∷ requested ∷ []))) refl
    where
      sent-Stops :
          (rs : List StatusReply)
          → IsStart requested rs
          → (e : String) → StopsAtTerminal rs (failed e)
      sent-Stops [] start e = λ c. cc
      sent-Stops (r ∷ []) start e = ((λ c. absurd (cc)), λ t. inr (e, refl))
      sent-Stops (r ∷ s ∷ rest) start e = elim start [ ]

      sent-named :
          (rs : List StatusReply) → IsStart requested rs → All (λ r. IsNamed requested r.job_id) rs
      sent-named [] start = tt
      sent-named (r ∷ []) start = (start.0, tt)
      sent-named (r ∷ s ∷ rest) start = elim start [ ]

      answered :
          (o : Result Subscription)
          → f (concat ("jobs.status." ∷ requested ∷ [])) ≡ o
          → IsProper requested (follow_subscription requested sent o)
      answered (raised e) is =
          IsProper-not_subscribed requested sent (failed e) (sent-named sent start)
            (sent-Stops sent start e)
      answered (ok subscription) is =
          let o = forward requested subscription.deliveries in
          let p =
            start-Proper requested sent o start
              (forward-Proper requested subscription.deliveries) in
          record {
            named = p.0;
            stops = released-StopsAtTerminal (sent ++ o.0) subscription.unsubscribe o.1 p.1;
            given_up = λ other exc g opened is_given is_other callable.
                let same_f : g ≡ f = cc in
                let same : subscription ≡ other = cc in
                called subscription.unsubscribe exc o.1 (ap (λ s. s.unsubscribe) same ∙ callable);
          }

  send_current-IsProper :
      (requested : String) (f : String → Result Subscription) (r : Result StatusReply)
      → subscribe ≡ some f
      → ((current : StatusReply) → r ≡ ok current → IsNamed requested current.job_id)
      → IsProper requested (send_current requested f r)
  unfolding send_current
  send_current-IsProper requested f (raised e) given name =
      IsProper-not_subscribed requested [] (failed e) tt (λ e'. cc)
  send_current-IsProper requested f (ok current) given name =
      if_ind (IsProper requested) current.terminal
        (λ t.
          IsProper-not_subscribed requested (current ∷ []) closed (name current refl, tt)
            ((λ _. t), λ _. inl refl))
        (λ still_open.
          follow-IsProper requested f (current ∷ []) given (name current refl, still_open))

  event-job_id :
      (k : String) (row : Row P) (current : StatusReply)
      → status_snapshot_to_event k row ≡ ok current
      → current.job_id ≡ k
  unfolding status_snapshot_to_event
  event-job_id k row current h = ground arith

  current-IsNamed :
      (requested : String) (o : Fetch P) (current : StatusReply)
      → fetch ≡ o
      → (look_up o requested >>= λ (k, row). status_snapshot_to_event k row) ≡ ok current
      → IsNamed requested current.job_id
  unfolding look_up
  current-IsNamed requested none current given h = absurd (cc)
  current-IsNamed requested (some f) current given h = looked_up (f requested) refl h
    where
      looked_up :
          (r : Result (Option (String × Row P)))
          → f requested ≡ r
          → ((r >>= found) >>= λ (k, row). status_snapshot_to_event k row) ≡ ok current
          → IsNamed requested current.job_id
      looked_up (raised e) is h = absurd (cc)
      looked_up (ok none) is h = absurd (cc)
      looked_up (ok (some (k, row))) is h =
          inr
            (f, row, given, is ∙ ap (λ n. ok (some (n, row))) (sym (event-job_id k row current h)))

  watch_configured-IsProper :
      (requested : String) (include_current : Bool) (s : Option (String → Result Subscription))
      → subscribe ≡ s
      → IsProper requested (watch_configured fetch subscribe requested include_current s)
  unfolding watch_configured
  watch_configured-IsProper requested include_current none given =
      IsProper-not_subscribed requested [] _ tt (λ e. cc)
  watch_configured-IsProper requested include_current (some f) given =
      if_ind (IsProper requested) include_current
        (λ _.
          send_current-IsProper requested f _ given
            (λ current. current-IsNamed requested fetch current refl))
        (λ _. follow-IsProper requested f [] given tt)

  watch_valid-IsProper :
      (include_current : Bool) (requested : String) (r : Result String)
      → ((job_id : String) → r ≡ ok job_id → job_id ≡ requested)
      → IsProper requested (watch_valid fetch subscribe include_current r)
  unfolding watch_valid
  watch_valid-IsProper include_current requested (raised e) same =
      IsProper-not_subscribed requested [] (failed e) tt (λ e'. cc)
  watch_valid-IsProper include_current requested (ok job_id) same =
      subst
        (λ name. IsProper name (watch_configured fetch subscribe job_id include_current subscribe))
        (same job_id refl) (watch_configured-IsProper job_id include_current subscribe refl)

  -- Every reply of a stream names the job as it was asked for, or as the row that the lookup gives for
  -- it; none follows a terminal one; the stream is closed only after a terminal reply, and after
  -- one it is closed or an exception ends it; and a subscription that was opened is given up,
  -- however the stream ends, where its `unsubscribe` is callable.
  pub watch_job_status-IsProper :
      (is_uuid : String → Bool) (requested : String) (include_current : Bool)
      → IsProper requested (watch_job_status fetch subscribe is_uuid requested include_current)
  unfolding watch_job_status
  watch_job_status-IsProper is_uuid requested include_current =
      watch_valid-IsProper include_current requested _ (valid-job_id is_uuid requested)
