-- ===== src/Publish/Submitted.antt =====
-- A task is decorated, a call of it is submitted, and the service reads what was published.
use dispatcher_fork.Base.{
  ℕ, ◌≡◌, refl, sym, ap, ◌∙◌, subst, Option, none, some, String, if◌then◌else◌, arith, Option-cases,
  inl, inr, Result, ok, raises,
}
use dispatcher_fork.Json.{Value, object, Fields, end}
use dispatcher_fork.Message.{Message}
use dispatcher_fork.Utils.{serialize_task}
use dispatcher_fork.Config.{Settings}
use dispatcher_fork.Factories.{get_publisher_from_settings}
use dispatcher_fork.Dispatcher.{Dispatcher}
use dispatcher_fork.Dispatcher.Routing.{Check, text, process_message, process_value, process_dict}
use dispatcher_fork.Registry.{Method, Queue, Submission, get_async_body}
use dispatcher_fork.Publish.{
  Callable, Tasks, Decorator, decorate, apply_async, answered, channel_of, has_queue,
}
use dispatcher_fork.Publish.Delivery.{Delivered, submitted_to}
use dispatcher_fork.Publish.Decorated.{process_dict-submitted, carried-path, carried-queue}

answered-ok :
    {E S A : Type 0} (a b : A) (r : Result E (Unit {0}) × S) (s' : S)
    → answered a r ≡ (ok b, s')
    → (a ≡ b) × (r ≡ (ok tt, s'))
answered-ok a b (ok tt, s) s' h = (ground (arith, h), ground (arith, h))
answered-ok a b (raises e, s) s' h = absurd (ground (arith, h))

module _ {E S : Type 0} (dumps : Value → String) (call : ℕ → Option String)
    (publish_message : String × Fields → Option String → String → S → Result E (Unit {0}) × S)
    (settings : Settings) where
  -- The broker was handed one text on this channel.
  abbrev pub Published : Option String → String → S → S → Type 0
  Published channel message s s' =
      (broker : String × Fields) × (get_publisher_from_settings none settings end ≡ some broker)
      × (publish_message broker channel message s ≡ (ok tt, s'))

  apply_async-Published :
      (sent_at : ℕ) (fresh : String) (m : Method) (queue : Queue) (submission : Submission)
      (body : Fields) (channel : Option String) (s s' : S)
      → apply_async dumps call publish_message sent_at fresh settings m queue submission s
        ≡ (ok (body, channel), s')
      → (body ≡ get_async_body sent_at fresh m submission)
        × (channel ≡ channel_of call (if has_queue queue then queue else m.queue))
        × Published channel (dumps (object body)) s s'
  unfolding apply_async
  apply_async-Published sent_at fresh m queue submission body channel s s' h =
      let obj = get_async_body sent_at fresh m submission in
      let c = channel_of call (if has_queue queue then queue else m.queue) in
      elim (Option-cases (get_publisher_from_settings none settings end)) [
        | inl e ↦ absurd (ground (arith, h, e))
        | inr (broker, e) ↦
            let sends = publish_message broker c (dumps (object obj)) s in
            let opened : apply_async dumps call publish_message sent_at fresh settings m queue
                  submission s
                ≡ answered (obj, c) sends =
              rw (e, apply_async) refl in
            let (same, sent) = answered-ok (obj, c) (body, channel) sends s' (sym opened ∙ h) in
            (
              sym (ap (λ x. x.0) same),
              sym (ap (λ x. x.1) same),
              (
                broker,
                e,
                subst (λ x. publish_message broker x.1 (dumps (object x.0)) s ≡ (ok tt, s')) same
                    sent,
              ),
            )
      ]

  -- A callable with a name is decorated and submitted. If its apply_async returns, the broker of
  -- the settings was handed the JSON of the body, on the channel of the queue that is given,
  -- else of that of the decorator. When the service reads this text back as it was written, on
  -- any channel, it counts one more message and delays it, if the submission has a true delay,
  -- and else dispatches it to the pool; the message has the dotted name of the callable under
  -- task, the uuid, args and kwargs that were given or their defaults, and on_duplicate and
  -- timeout of the submission, else of the decorator.
  pub apply_async-Submitted :
      (loads : String → Option Value) (deco : Decorator) (fn : Callable) (name : String) (p : Tasks)
      (m : Method) (sent_at : ℕ) (fresh : String) (queue : Queue) (submission : Submission)
      (body : Fields) (channel : Option String) (s s' : S) (aio : Value → Option Fields)
      (now ident capsule_id : ℕ) (check : Check) (from : Option String) (d : Dispatcher)
      → fn.qualname ≡ some name
      → (decorate deco fn p).1.glued fn.identity ≡ some m
      → apply_async dumps call publish_message sent_at fresh settings m queue submission s
        ≡ (ok (body, channel), s')
      → loads (dumps (object body)) ≡ some (object body)
      → Published channel (dumps (object body)) s s'
        × (channel ≡ channel_of call (if has_queue queue then queue else deco.queue))
        × ((received : Message) × Delivered
              (serialize_task fn.module_name name)
              fresh
              deco
              submission
              received
            × (process_message aio loads now ident capsule_id check from
                  (text (dumps (object body)))
                  d
                ≡ submitted_to now capsule_id submission received d))
  unfolding process_message process_value
  apply_async-Submitted loads deco fn name p m sent_at fresh queue submission body channel s s' aio
        now ident capsule_id check from d has_name carried returns reads =
      let (made, on_channel, published) =
        apply_async-Published sent_at fresh m queue submission body channel s s' returns in
      let (received, delivered, same) =
        process_dict-submitted deco fn name p m has_name carried aio sent_at now ident capsule_id
          fresh check from submission d in
      let path = carried-path deco fn name p m has_name carried in
      let read : process_message aio loads now ident capsule_id check from
            (text (dumps (object body))) d
          ≡ process_dict aio now capsule_id check from (record { ident = ident; body = body }) d =
        rw (reads, process_message) refl in
      (
        published,
        on_channel
            ∙ ap (λ q. channel_of call (if has_queue queue then queue else q))
                (carried-queue deco fn name p m has_name carried),
        (
          received,
          subst (λ t. Delivered t fresh deco submission received) path delivered,
          read
              ∙ ap
                  (λ b.
                    process_dict aio now capsule_id check from (record { ident = ident; body = b })
                      d)
                  made
              ∙ same,
        ),
      )
