-- ===== src/Manager/Invoke/Pending.antt =====
-- Invocations (manager/service.go) under every interleaving of calls, messages, timers and contexts: what
-- the results of calls come from, and what is left in the map of pending calls.
use propeller.Prelude.{
  ◌≡◌, refl, sym, ◌∙◌, ap, subst, String, true, false, none, some, List, [], ◌∷◌, ◌++◌, map, str_eq,
  eq_iff, Elem, contains, inl, inr, Bool-cases, Option-cases, arith,
}
use propeller.Value.{Fields}
use propeller.Outcome.{Result-cases}
use propeller.Storage
use propeller.Storage.Laws.{lookup-put, lookup-remove}
use propeller.Manager.Invoke.{
  Invokes, InvokeResult, Ended, returned, unpublished, timed_out, cancelled, no_invokes, register,
  without, end_call, receive, read_invoke_result, look_up, handle_message, send,
}

-- A step: a call registers under an id that was never used, and ends in one of four ways; a message
-- is handled up to the look at the map; a handler sends what it has.
pub data Step : Invokes → Invokes → Type 0 where
  registered :
      {s : Invokes} (id : String)
      → contains s.waiting id ≡ false
      → contains (map (λ e. e.0) s.ended) id ≡ false
      → Step s (register id s)
  failed :
      {s : Invokes} (id : String)
      → contains s.waiting id ≡ true
      → Step s (end_call id unpublished s)
  late :
      {s : Invokes} (id : String) → contains s.waiting id ≡ true → Step s (end_call id timed_out s)
  undone :
      {s : Invokes} (id : String) → contains s.waiting id ≡ true → Step s (end_call id cancelled s)
  received : {s : Invokes} (id : String) → contains s.waiting id ≡ true → Step s (receive id s)
  handled : {s : Invokes} (msg : Fields) → Step s (handle_message msg s).1
  sent :
      {s : Invokes} (id : String) (r : InvokeResult) (before after : List (String × InvokeResult))
      → s.sending ≡ before ++ (id, r) ∷ after
      → Step s (send id r (record s { sending = before ++ after }))

pub data Reach : Invokes → Type 0 where
  here : Reach no_invokes
  next : {s t : Invokes} → Reach s → Step s t → Reach t

-- The pending entries are those of the calls that have not ended, and every result on its way, in a
-- channel or returned is one of a message for that id.
pub record IsSound (s : Invokes) : Type 0 where
  pub held : s.pending ≡ s.waiting
  pub on_way : (id : String) (r : InvokeResult) → Elem (id, r) s.sending → Elem (id, r) s.handled
  pub in_channel :
      (id : String) (r : InvokeResult)
      → Storage.lookup s.buffers id ≡ some r
      → Elem (id, r) s.handled
  pub told :
      (id : String) (r : InvokeResult) → Elem (id, returned r) s.ended → Elem (id, r) s.handled

module _ (s : Invokes) (inv : IsSound s) where
  register-IsSound : (id : String) → IsSound (register id s)
  unfolding register
  register-IsSound id = record {
    held = ap (λ xs. id ∷ xs) inv.held;
    on_way = inv.on_way;
    in_channel = inv.in_channel;
    told = inv.told;
  }

  -- A call ends without a result, or with one of a message for it.
  end_call-IsSound :
      (id : String) (how : Ended)
      → ((r : InvokeResult) → how ≡ returned r → Elem (id, r) s.handled)
      → IsSound (end_call id how s)
  unfolding end_call
  end_call-IsSound id how from = record {
    held = ap (without id) inv.held;
    on_way = inv.on_way;
    in_channel = inv.in_channel;
    told = last;
  }
    where
      last :
          (i : String) (r : InvokeResult)
          → Elem (i, returned r) ((id, how) ∷ s.ended)
          → Elem (i, r) s.handled
      last i r (inr m) = inv.told i r m
      last i r (inl e) =
          let same : id ≡ i = ap (λ (p : String × Ended). p.0) e in
          subst (λ j. Elem (j, r) s.handled) same (from r (ap (λ (p : String × Ended). p.1) e))

  take_out-IsSound : (id : String) → IsSound (record s { buffers = Storage.remove id s.buffers })
  take_out-IsSound id = record {
    held = inv.held;
    on_way = inv.on_way;
    in_channel = λ i r e.
        (let f = lookup-remove id i s.buffers in
          elim (Bool-cases (str_eq id i)) [
            | inl q ↦ (let g = rw q at f in absurd (ground arith))
            | inr n ↦ inv.in_channel i r (sym (rw n at f) ∙ e)
          ]);
    told = inv.told;
  }

  look_up-IsSound : (id : String) (r : InvokeResult) → IsSound (look_up id r s)
  unfolding look_up
  look_up-IsSound id r = elim (Bool-cases (contains s.pending id)) [
    | inr n ↦
        rw (look_up, n)
          (record {
            held = inv.held;
            on_way = λ i q m. inr (inv.on_way i q m);
            in_channel = λ i q e. inr (inv.in_channel i q e);
            told = λ i q m. inr (inv.told i q m);
          })
    | inl y ↦
        rw (look_up, y)
          (record {
            held = inv.held;
            on_way = new;
            in_channel = λ i q e. inr (inv.in_channel i q e);
            told = λ i q m. inr (inv.told i q m);
          })
  ]
    where
      new :
          (i : String) (q : InvokeResult)
          → Elem (i, q) ((id, r) ∷ s.sending)
          → Elem (i, q) ((id, r) ∷ s.handled)
      new i q (inl e) = inl e
      new i q (inr m) = inr (inv.on_way i q m)

  send-IsSound : (id : String) (r : InvokeResult) → Elem (id, r) s.handled → IsSound (send id r s)
  unfolding send
  send-IsSound id r known = elim (Option-cases (Storage.lookup s.buffers id)) [
    | inr (old, e) ↦ rw (send, e) inv
    | inl e ↦
        rw (send, e)
          (record {
            held = inv.held;
            on_way = inv.on_way;
            in_channel = λ i q g.
                (let f = lookup-put id i r s.buffers in
                  elim (Bool-cases (str_eq id i)) [
                    | inl y ↦ filled i q ((eq_iff id i).0 y) (sym (rw y at f) ∙ g)
                    | inr n ↦ inv.in_channel i q (sym (rw n at f) ∙ g)
                  ]);
            told = inv.told;
          })
  ]
    where
      filled : (i : String) (q : InvokeResult) → id ≡ i → some r ≡ some q → Elem (i, q) s.handled
      filled i q a b =
          subst (λ j. Elem (j, q) s.handled) a
            (subst (λ x. Elem (id, x) s.handled) (let e = b in cc) known)

handle_message-IsSound : (msg : Fields) (s : Invokes) → IsSound s → IsSound (handle_message msg s).1
unfolding handle_message
handle_message-IsSound msg s inv = elim (Result-cases (read_invoke_result msg)) [
  | inr (e, q) ↦ rw (handle_message, q) inv
  | inl (none, q) ↦ rw (handle_message, q) inv
  | inl (some (id, r), q) ↦ rw (handle_message, q) (look_up-IsSound s inv id r)
]

receive-IsSound : (id : String) (s : Invokes) → IsSound s → IsSound (receive id s)
unfolding receive
receive-IsSound id s inv = elim (Option-cases (Storage.lookup s.buffers id)) [
  | inl e ↦ rw (receive, e) inv
  | inr (r, e) ↦
      rw (receive, e)
        (end_call-IsSound (record s { buffers = Storage.remove id s.buffers })
          (take_out-IsSound s inv id) id (returned r)
          λ q same.
            subst (λ x. Elem (id, x) s.handled) (let p = same in cc) (inv.in_channel id r e))
]

Elem-middle : {A : Type 0} (a : A) (xs ys : List A) → Elem a (xs ++ a ∷ ys)
Elem-middle a [] ys = inl refl
Elem-middle a (x ∷ xs) ys = inr (Elem-middle a xs ys)

Elem-around : {A : Type 0} (a b : A) (xs ys : List A) → Elem b (xs ++ ys) → Elem b (xs ++ a ∷ ys)
Elem-around a b [] ys m = inr m
Elem-around a b (x ∷ xs) ys (inl e) = inl e
Elem-around a b (x ∷ xs) ys (inr m) = inr (Elem-around a b xs ys m)

sent-IsSound :
    (s : Invokes) (id : String) (r : InvokeResult) (before after : List (String × InvokeResult))
    → s.sending ≡ before ++ (id, r) ∷ after
    → IsSound s
    → IsSound (send id r (record s { sending = before ++ after }))
sent-IsSound s id r before after e inv =
    send-IsSound (record s { sending = before ++ after })
      (record {
        held = inv.held;
        on_way = λ i q m.
            inv.on_way i q
              (subst (λ xs. Elem (i, q) xs) (sym e) (Elem-around (id, r) (i, q) before after m));
        in_channel = inv.in_channel;
        told = inv.told;
      })
      id r
      (inv.on_way id r (subst (λ xs. Elem (id, r) xs) (sym e) (Elem-middle (id, r) before after)))

-- However calls, messages, timers and cancellations follow each other: the map of pending calls holds
-- exactly the calls that have not ended, so none is left behind by one that ended in whatever way,
-- and a result that a call returns is that of a message which the manager handled for the call's id.
pub Reach-IsSound : {s : Invokes} → Reach s → IsSound s
unfolding Storage.lookup
Reach-IsSound here = record {
  held = refl;
  on_way = λ id r m. absurd m;
  in_channel = λ id r e. empty_channels id r e;
  told = λ id r m. absurd m;
}
  where
    empty_channels :
        (id : String) (r : InvokeResult)
        → Storage.lookup [] id ≡ some r
        → Elem {A = String × InvokeResult} (id, r) []
    empty_channels id r e = cc
Reach-IsSound (next {s} r (registered id a b)) = register-IsSound s (Reach-IsSound r) id
Reach-IsSound (next {s} r (failed id w)) =
    end_call-IsSound s (Reach-IsSound r) id unpublished (λ q e. cc)
Reach-IsSound (next {s} r (late id w)) =
    end_call-IsSound s (Reach-IsSound r) id timed_out (λ q e. cc)
Reach-IsSound (next {s} r (undone id w)) =
    end_call-IsSound s (Reach-IsSound r) id cancelled (λ q e. cc)
Reach-IsSound (next {s} r (received id w)) = receive-IsSound id s (Reach-IsSound r)
Reach-IsSound (next {s} r (handled msg)) = handle_message-IsSound msg s (Reach-IsSound r)
Reach-IsSound (next {s} r (sent id q before after e)) =
    sent-IsSound s id q before after e (Reach-IsSound r)
