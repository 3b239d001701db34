-- ===== src/Manager/Invoke/Answered.antt =====
-- An invocation that is answered in time (manager/service.go, invokeOnProplet and
-- updateInvokeResultsHandler): how a call that waits comes to its end.
use propeller.Prelude.{
  ◌≡◌, refl, ◌∙◌, ap, subst, String, true, false, none, some, inl, inr, List, [], ◌∷◌, str_eq,
  contains, Bool-cases,
}
use propeller.Value.{Fields}
use propeller.Outcome.{ok}
use propeller.Storage
use propeller.Manager.Start.Effect.{lookup-put_same}
use propeller.Manager.Invoke.{
  Invokes, InvokeResult, returned, without, end_call, receive, read_invoke_result, look_up,
  handle_message, send,
}
use propeller.Manager.Invoke.Pending.{handled, sent, received, Reach, next, Reach-IsSound}

contains-without : (id : String) (xs : List String) → contains (without id xs) id ≡ false
unfolding contains without
contains-without id [] = refl
contains-without id (x ∷ xs) = elim (Bool-cases (str_eq x id)) [
  | inl y ↦ rw y (contains-without id xs)
  | inr n ↦ rw (n, n) (contains-without id xs)
]

-- The state after the look at the map, with the handler about to send.
abbrev looked : String → InvokeResult → Invokes → Invokes
looked id r s = record s { handled = (id, r) ∷ s.handled; sending = (id, r) ∷ s.sending }

-- The state after the send, where the channel was empty.
abbrev filled : String → InvokeResult → Invokes → Invokes
filled id r s = record s { handled = (id, r) ∷ s.handled; buffers = Storage.put id r s.buffers }

-- The state after the receipt.
abbrev answered : String → InvokeResult → Invokes → Invokes
answered id r s =
    let f = filled id r s in
    end_call id (returned r) (record f { buffers = Storage.remove id f.buffers })

module _ (id : String) (r : InvokeResult) (s : Invokes) where
  handle_message-looked :
      (msg : Fields)
      → read_invoke_result msg ≡ ok (some (id, r))
      → contains s.pending id ≡ true
      → (handle_message msg s).1 ≡ looked id r s
  unfolding handle_message look_up
  handle_message-looked msg q y = rw (handle_message, q, look_up, y) refl

  send-filled :
      Storage.lookup s.buffers id ≡ none
      → send id r (record (looked id r s) { sending = s.sending }) ≡ filled id r s
  unfolding send
  send-filled e = rw (send, e) refl

  receive-answered : receive id (filled id r s) ≡ answered id r s
  unfolding receive
  receive-answered = rw (receive, lookup-put_same id r s.buffers) refl

-- From every reachable state in which a call waits at an empty channel, a message for it can be
-- handled, sent and received, one step after the other, with nothing else in between: the call then
-- ends with the result of the message, its entry is gone from the map of pending calls, and the
-- handlers that are still to send are those of before.
pub answered_in_time :
    {s : Invokes} (msg : Fields) (id : String) (r : InvokeResult)
    → Reach s
    → read_invoke_result msg ≡ ok (some (id, r))
    → contains s.waiting id ≡ true
    → Storage.lookup s.buffers id ≡ none
    → (let t = receive id (send id r (record (handle_message msg s).1 { sending = s.sending })) in
        Reach t
        × (t.ended ≡ (id, returned r) ∷ s.ended)
        × (contains t.pending id ≡ false)
        × (t.sending ≡ s.sending))
unfolding end_call
answered_in_time {s} msg id r reach q w e =
    let held : contains s.pending id ≡ true =
      ap (λ xs. contains xs id) (Reach-IsSound reach).held ∙ w in
    let l = handle_message-looked id r s msg q held in
    let first : Reach (looked id r s) = subst Reach l (next reach (handled msg)) in
    let second : Reach (filled id r s) =
      subst Reach (send-filled id r s e) (next first (sent id r [] s.sending refl)) in
    let third : Reach (answered id r s) =
      subst Reach (receive-answered id r s) (next second (received id w)) in
    rw (l, send-filled id r s e, receive-answered id r s)
      (third, refl, contains-without id s.pending, refl)
