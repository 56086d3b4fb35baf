-- ===== src/Worker/Consume.antt =====
-- What the consumers of Worker in app/queue.go do with the messages that Pop hands them.
use go_hypercube.Common.{
  ℕ, ◌≡◌, ◌≢◌, ◌⊎◌, inl, inr, refl, ap, ◌∙◌, subst, sym, Bool, true, false, Option, none, some,
  List, [], ◌∷◌, ◌++◌, if◌then◌else◌, Text, text_eq, nat_eq, All, All-append, if_cases,
}
use go_hypercube.Namespaced.{Namespaced}
use go_hypercube.Worker.{Job, Message, Command, Cause}
use go_hypercube.Worker.Errors.{GoError, empty, errors_is}
use go_hypercube.Worker.Settle.{commands, IsSettled, process_message_lem}
use go_hypercube.Worker.Loop.{
  Popped, messages, pop_failed, Round, Act, processed, pop_reported, nil_reported, waited,
  is_context_error, handle_messages, after_pop_error, consume_round, consume_queue,
}

-- The messages of a Pop that are not nil.
abbrev pub present : List (Option Message) → List Message
present [] = []
present (none ∷ msgs) = present msgs
present (some msg ∷ msgs) = msg ∷ present msgs

-- The messages that a consumer has processed.
unfoldable pub messages_of : List Act → List Message
messages_of [] = []
messages_of (processed msg events ∷ acts) = msg ∷ messages_of acts
messages_of (pop_reported e ∷ acts) = messages_of acts
messages_of (nil_reported ∷ acts) = messages_of acts
messages_of (waited delay ∷ acts) = messages_of acts

-- The loop ends in this round: Pop returns the context's error, or another error than an empty queue
-- and the context ends during the wait.
abbrev pub Ends : Round → Type 0
Ends r =
    (e : GoError) × (r.popped ≡ pop_failed e)
    × ((is_context_error e r.context_error ≡ true)
        ⊎ (errors_is e empty ≡ false) × (r.timer_fires ≡ false))

-- The messages that Pop hands to a consumer until its loop ends, or in all of the rounds.
pub data Served : List Round → List Message → Type 0 where
  no_more : Served [] []
  handed :
      (r : Round) (rounds : List Round) (msgs : List (Option Message)) (rest : List Message)
      → r.popped ≡ messages msgs
      → Served rounds rest
      → Served (r ∷ rounds) (present msgs ++ rest)
  idle :
      (r : Round) (rounds : List Round) (e : GoError) (rest : List Message)
      → r.popped ≡ pop_failed e
      → (is_context_error e r.context_error ≡ false)
      → ((errors_is e empty ≡ true) ⊎ (r.timer_fires ≡ true))
      → Served rounds rest
      → Served (r ∷ rounds) rest
  ended : (r : Round) (rounds : List Round) → Ends r → Served (r ∷ rounds) []

messages_of-append : (xs ys : List Act) → messages_of (xs ++ ys) ≡ messages_of xs ++ messages_of ys
unfolding messages_of
messages_of-append [] ys = refl
messages_of-append (processed msg events ∷ xs) ys = ap (λ l. msg ∷ l) (messages_of-append xs ys)
messages_of-append (pop_reported e ∷ xs) ys = messages_of-append xs ys
messages_of-append (nil_reported ∷ xs) ys = messages_of-append xs ys
messages_of-append (waited delay ∷ xs) ys = messages_of-append xs ys

module _ (jobs : List (Namespaced Job)) (queue : Command → Option GoError)
    (encode : Cause → Text → Option Text) where
  -- A message that was processed was settled by exactly one command.
  abbrev pub IsDone : Act → Type 0
  IsDone (processed msg events) = IsSettled jobs queue encode msg (commands events)
  IsDone (pop_reported e) = Unit
  IsDone nil_reported = Unit
  IsDone (waited delay) = Unit

  messages_of-handle :
      (msgs : List (Option Message))
      → messages_of (handle_messages jobs queue encode msgs) ≡ present msgs
  unfolding messages_of handle_messages
  messages_of-handle [] = refl
  messages_of-handle (none ∷ msgs) = messages_of-handle msgs
  messages_of-handle (some msg ∷ msgs) = ap (λ l. msg ∷ l) (messages_of-handle msgs)

  module _ (total : (cause : Cause) (extra : Text) → encode cause extra ≢ none) where
    handle_messages-IsDone :
        (msgs : List (Option Message)) → All IsDone (handle_messages jobs queue encode msgs)
    unfolding handle_messages
    handle_messages-IsDone [] = tt
    handle_messages-IsDone (none ∷ msgs) = (tt, handle_messages-IsDone msgs)
    handle_messages-IsDone (some msg ∷ msgs) =
        (process_message_lem jobs queue encode msg total, handle_messages-IsDone msgs)

    -- What a round and the ones behind it come to.
    abbrev Fits : Round → List Round → List Act → List Act × Bool → Type 0
    Fits r rounds rest (acts, on) =
        let all : List Act = elim on [ true ↦ acts ++ rest | false ↦ acts ] in
        Served (r ∷ rounds) (messages_of all) × All IsDone all

    after_pop_error-Fits :
        (delay : ℕ) (e : GoError) (r : Round) (rounds : List Round) (rest : List Act)
        → r.popped ≡ pop_failed e
        → Served rounds (messages_of rest)
        → All IsDone rest
        → Fits r rounds rest (after_pop_error jobs queue encode delay e r)
    unfolding after_pop_error messages_of
    after_pop_error-Fits delay e r rounds rest q served done =
        if_cases (Fits r rounds rest) (is_context_error e r.context_error) ([], false)
          (if errors_is e empty
            then ([], true)
            else (pop_reported e ∷ waited delay ∷ [], r.timer_fires))
          (λ over. (ended r rounds (e, q, inl over), tt))
          (λ live.
            if_cases (Fits r rounds rest) (errors_is e empty) ([], true)
              (pop_reported e ∷ waited delay ∷ [], r.timer_fires)
              (λ none_there.
                (idle r rounds e (messages_of rest) q live (inl none_there) served, done))
              (λ failed. go r.timer_fires refl live failed))
      where
        go :
            (fires : Bool)
            → r.timer_fires ≡ fires
            → is_context_error e r.context_error ≡ false
            → errors_is e empty ≡ false
            → Fits r rounds rest (pop_reported e ∷ waited delay ∷ [], fires)
        go true h live failed =
            (idle r rounds e (messages_of rest) q live (inr h) served, (tt, (tt, done)))
        go false h live failed = (ended r rounds (e, q, inr (failed, h)), (tt, (tt, tt)))

    consume_round-Fits :
        (delay : ℕ) (r : Round) (rounds : List Round) (rest : List Act)
        → Served rounds (messages_of rest)
        → All IsDone rest
        → Fits r rounds rest (consume_round jobs queue encode delay r)
    unfolding consume_round
    consume_round-Fits delay r rounds rest served done = go r.popped refl
      where
        go :
            (p : Popped)
            → r.popped ≡ p
            → Fits r rounds rest (elim p as (λ _. List Act × Bool) [
              | messages msgs ↦ (handle_messages jobs queue encode msgs, true)
              | pop_failed e ↦ after_pop_error jobs queue encode delay e r
            ])
        go (messages msgs) q = (
          subst (Served (r ∷ rounds))
              (sym (
                messages_of-append (handle_messages jobs queue encode msgs) rest
                ∙ ap (λ l. l ++ messages_of rest) (messages_of-handle msgs)))
              (handed r rounds msgs (messages_of rest) q served),
          All-append IsDone (handle_messages jobs queue encode msgs) rest
              (handle_messages-IsDone msgs) done,
        )
        go (pop_failed e) q = after_pop_error-Fits delay e r rounds rest q served done

    -- Where failures can be encoded, a consumer processes, in order, exactly the messages that Pop
    -- hands it until its loop ends, whether or not the context has ended when it gets them, and
    -- settles each of them by exactly one command.
    pub consume_queue_lem :
        (delay : ℕ) (rounds : List Round)
        → Served rounds (messages_of (consume_queue jobs queue encode delay rounds))
          × All IsDone (consume_queue jobs queue encode delay rounds)
    unfolding consume_queue messages_of
    consume_queue_lem delay [] = (no_more, tt)
    consume_queue_lem delay (r ∷ rounds) =
        let (served, done) = consume_queue_lem delay rounds in
        consume_round-Fits delay r rounds (consume_queue jobs queue encode delay rounds) served done
