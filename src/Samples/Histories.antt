-- ===== src/Samples/Histories.antt =====
-- Histories of invocations and of fetches, as sequences of steps; and the chunks of an image.
use propeller.Prelude.{◌≡◌, refl, false, some, List, [], ◌∷◌, contains, length, arith}
use propeller.Value.{Fields, field, end, text}
use propeller.Storage
use propeller.Manager.Invoke.{
  Invokes, InvokeResult, returned, no_invokes, register, receive, send, handle_message,
  read_invoke_result, look_up,
}
use propeller.Manager.Invoke.Pending as Pending
use propeller.Manager.Invoke.Answered.{answered_in_time}
use propeller.Proxy.{ChunkPayload, Service, new_service, request, finish, create_chunks}
use propeller.Proxy.Fetches as Fetches
use propeller.Proxy.Chunks.{joined, AreNumbered, create_chunks_lem}

-- The message of a proplet with the result of invocation "i".
abbrev answer : Fields
answer = field "invocation_id" (text "i") (field "results" (text "42") end)

abbrev forty_two : InvokeResult
forty_two = record { results = "42"; error = "" }

-- The call registers, the message is handled while it waits, and the call returns the result.
abbrev registered_call : Invokes
registered_call = register "i" no_invokes

abbrev looked_up : Invokes
looked_up = (handle_message answer registered_call).1

abbrev sent_result : Invokes
sent_result = send "i" forty_two (record looked_up { sending = [] })

abbrev returned_call : Invokes
returned_call = receive "i" sent_result

waited : Pending.Reach sent_result
unfolding contains register handle_message read_invoke_result look_up
waited =
    Pending.next
      (Pending.next (Pending.next Pending.here (Pending.registered "i" refl refl))
        (Pending.handled answer))
      (Pending.sent "i" forty_two [] [] refl)

Reach-IsSound_example : Pending.IsSound returned_call
unfolding contains register handle_message read_invoke_result look_up send Storage.lookup
Reach-IsSound_example = Pending.Reach-IsSound (Pending.next waited (Pending.received "i" refl))

answered_in_time_example :
    let t =
      receive "i"
        (send "i" forty_two (record (handle_message answer registered_call).1 { sending = [] })) in
    Pending.Reach t
    × (t.ended ≡ ("i", returned forty_two) ∷ [])
    × (contains t.pending "i" ≡ false)
    × (t.sending ≡ [])
unfolding contains register read_invoke_result Storage.lookup
answered_in_time_example =
    answered_in_time answer "i" forty_two
      (Pending.next Pending.here (Pending.registered "i" refl refl)) refl refl refl

-- Two images are fetched, one of them asked for twice, and the first ends.
abbrev after_first : Service
after_first = finish "a" (request "a" (request "b" (request "a" new_service)))

Reach-IsFaithful_example : Fetches.IsFaithful after_first
unfolding contains request
Reach-IsFaithful_example = Fetches.Reach-IsFaithful (
    Fetches.next
      (Fetches.next
        (Fetches.next (Fetches.next Fetches.here (Fetches.requested "a")) (Fetches.requested "b"))
        (Fetches.requested "a"))
      (Fetches.finished "a" refl))

create_chunks_example :
    (cs : List ChunkPayload) × (create_chunks (1 ∷ 2 ∷ 3 ∷ 4 ∷ 5 ∷ []) "img" 2 ≡ some cs)
    × (joined cs ≡ (1 ∷ 2 ∷ 3 ∷ 4 ∷ 5 ∷ []))
    × AreNumbered 2 (length cs) 0 cs
create_chunks_example =
    create_chunks_lem (1 ∷ 2 ∷ 3 ∷ 4 ∷ 5 ∷ []) "img" 1 (omega arith) (omega arith)
