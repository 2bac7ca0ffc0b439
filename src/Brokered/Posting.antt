-- ===== src/Brokered/Posting.antt =====
-- What the producer makes of one message, over any broker that keeps its protocol.
use dispatcher_fork.Base.{
  ◌+◌, ◌≡◌, refl, true, false, ◌&&◌, Option, [], ◌∷◌, ◌++◌, String, ok, Method,
}
use dispatcher_fork.Brokered.{
  Origin, Protocol, Service, Answer, is_text, text_of, produce, answer, notify,
}

-- The producer's count goes up before the dispatcher gets the message.
abbrev pub counted : {S D : Type 0} → Service S D → Service S D
counted s = record s {
  producer = record (s.producer) { produced_count = s.producer.produced_count + 1 };
}

module _ {E S Destination D : Type 0} (broker : Protocol E S Destination)
    (process : Origin → String → Method E (Service S D) Answer) where
  -- The producer counts a message and has the dispatcher process it. If the dispatcher answers
  -- with a channel and a text, both not empty, and the broker listens to the origin of the
  -- message, then exactly this text is posted behind all others for its destination; nothing but
  -- the broker changes on the way.
  pub produce-Posted :
      (o : Origin) (payload : String) (reply_to reply_payload : Option String) (s s' : Service S D)
      → process o payload (counted s) ≡ (ok (reply_to, reply_payload), s')
      → (is_text reply_to && is_text reply_payload) ≡ true
      → broker.listens_to s'.broker o ≡ true
      → (b : S) × (produce broker process o payload s ≡ (ok tt, record s' { broker = b }))
        × (broker.outbox b (broker.destination reply_to o)
            ≡ broker.outbox s'.broker (broker.destination reply_to o) ++ text_of reply_payload ∷ [])
  unfolding produce answer notify
  produce-Posted o payload reply_to reply_payload s s' answers texts listens =
      let (b, posted, grown) = broker.posts s'.broker reply_to o (text_of reply_payload) listens in
      (b, rw (answers, texts, posted) refl, grown)

  -- Without such an answer the broker is left alone.
  pub produce-quiet :
      (o : Origin) (payload : String) (reply_to reply_payload : Option String) (s s' : Service S D)
      → process o payload (counted s) ≡ (ok (reply_to, reply_payload), s')
      → (is_text reply_to && is_text reply_payload) ≡ false
      → produce broker process o payload s ≡ (ok tt, s')
  unfolding produce answer
  produce-quiet o payload reply_to reply_payload s s' answers texts = rw (answers, texts) refl
