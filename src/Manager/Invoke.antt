-- ===== src/Manager/Invoke.antt =====
-- Invocations in manager/service.go: invokeOnProplet waits at a channel of its own, which stands in
-- the map `pendingInvokes` under a new id; updateInvokeResultsHandler takes the message of a proplet,
-- looks the channel up and sends the result without waiting. A channel has room for one result, and is
-- known by the id, which is a new UUID for each call. Each function here is one atomic step of the
-- two: what is done under the mutex, one operation on a channel, or one outcome of the `select`.
pub mod Pending
pub mod Answered
pub mod Broadcast
use propeller.Prelude.{
  ℕ, String, Bool, true, false, not, Option, none, some, List, [], ◌∷◌, str_eq, if◌then◌else◌,
  contains, keep, inl, inr, ◌⊎◌,
}
use propeller.Value.{Value, text, nil, Fields, get_field}
use propeller.Errors.{Err, invalid_message}
use propeller.Outcome.{Result, ok, err}
use propeller.Storage.{lookup, put, remove}

pub record InvokeResult : Type 0 where
  pub results : String
  pub error : String

-- How a call of invokeOnProplet ends: with the result of a message, or without one, where the
-- publication failed, the timer went off or the context was done.
pub data Ended : Type 0 where
  returned : InvokeResult → Ended
  unpublished timed_out cancelled : Ended

-- `returned` as the method's pair of results: an error text in the message is an error.
unfoldable pub value_of : InvokeResult → String ⊎ String
value_of r = if str_eq r.error "" then inl r.results else inr r.error

pub record Invokes : Type 0 where
  -- the keys of `pendingInvokes`
  pub pending : List String
  -- the results in channels
  pub buffers : List (String × InvokeResult)
  -- the calls that are registered and have not ended
  pub waiting : List String
  -- the handlers that found a channel and have not sent yet
  pub sending : List (String × InvokeResult)
  -- what was handled and how calls ended, the newest first
  pub handled : List (String × InvokeResult)
  pub ended : List (String × Ended)

abbrev pub no_invokes : Invokes
no_invokes = record {
  pending = [];
  buffers = [];
  waiting = [];
  sending = [];
  handled = [];
  ended = [];
}

-- `svc.pendingInvokes[invocationID] = resultCh`.
unfoldable pub register : String → Invokes → Invokes
register id s = record s { pending = id ∷ s.pending; waiting = id ∷ s.waiting }

unfoldable pub without : String → List String → List String
without id xs = keep (λ x. not (str_eq x id)) xs

-- The end of the call: its result, and the deferred deletion of the channel from the map.
unfoldable pub end_call : String → Ended → Invokes → Invokes
unfolding without
end_call id how s = record s {
  pending = without id s.pending;
  waiting = without id s.waiting;
  ended = (id, how) ∷ s.ended;
}

-- `case res := <-resultCh`: possible where the channel has a result.
unfoldable pub receive : String → Invokes → Invokes
unfolding end_call
receive id s = elim (lookup s.buffers id) [
  | none ↦ s
  | some r ↦ end_call id (returned r) (record s { buffers = remove id s.buffers })
]

-- The check of a message; nothing is to be done for one without an id.
results_of : Option Value → Result String
results_of none = ok ""
results_of (some (text r)) = ok r
results_of (some v) = err invalid_message

error_of : Option Value → Result String
error_of none = ok ""
error_of (some nil) = ok ""
error_of (some (text e)) = ok e
error_of (some v) = err invalid_message

id_of : Option Value → Option String
id_of (some (text id)) = if str_eq id "" then none else some id
id_of _ = none

unfoldable pub read_invoke_result : Fields → Result (Option (String × InvokeResult))
unfolding results_of error_of id_of get_field
read_invoke_result msg = elim (id_of (get_field msg "invocation_id")) [
  | none ↦ ok none
  | some id ↦ elim (results_of (get_field msg "results")) [
    | err e ↦ err e
    | ok results ↦ elim (error_of (get_field msg "error")) [
      | err e ↦ err e
      | ok error ↦ ok (some (id, record { results = results; error = error }))
    ]
  ]
]

-- `ch, waiting := svc.pendingInvokes[invocationID]`.
unfoldable pub look_up : String → InvokeResult → Invokes → Invokes
unfolding contains
look_up id r s = elim (contains s.pending id) [
  | true ↦ record s { handled = (id, r) ∷ s.handled; sending = (id, r) ∷ s.sending }
  | false ↦ record s { handled = (id, r) ∷ s.handled }
]

-- The handler up to there, for a message.
unfoldable pub handle_message : Fields → Invokes → Result (Unit {0}) × Invokes
unfolding read_invoke_result look_up
handle_message msg s = elim (read_invoke_result msg) [
  | err e ↦ (err e, s)
  | ok none ↦ (ok tt, s)
  | ok (some (id, r)) ↦ (ok tt, look_up id r s)
]

-- `select { case ch <- …: default: }`: dropped where the channel is full.
unfoldable pub send : String → InvokeResult → Invokes → Invokes
send id r s = elim (lookup s.buffers id) [
  | none ↦ record s { buffers = put id r s.buffers }
  | some old ↦ s
]
