-- ===== src/ControlClient/Answers.antt =====
-- The replies that a call of the control client returns.
use dispatcher_fork.Base.{
  ℕ, zero, suc, ◌+◌, ◌<◌, ◌≡◌, refl, ap, ◌∙◌, Bool, true, false, Option, none, some, List, [], ◌∷◌,
  ◌++◌, String, map, length, leb, take, arith, append_assoc, append-nil, length-append, Result, ok,
  raises, Method,
}
use dispatcher_fork.Json.{Value, str, object, Fields, end, field}
use dispatcher_fork.ControlClient.{
  listen_for_replies, parse_reply, parse_replies, create_message, Failure, of_broker,
  acontrol_with_reply, closing,
}

-- The first n of the payloads, behind those that were received before; returned when there were n.
listen_for_replies-take :
    (n m : ℕ) (received payloads : List String)
    → length received + suc m ≡ n
    → listen_for_replies n received payloads
      ≡ (received ++ take (suc m) payloads, leb (suc m) (length payloads))
unfolding listen_for_replies
listen_for_replies-take n m received [] h = ground (arith, append-nil received)
listen_for_replies-take n zero received (p ∷ ps) h =
    let full : leb n (length (received ++ p ∷ [])) ≡ true =
      ground (arith, h, length-append {0} received (p ∷ [])) in
    rw full (ground arith)
listen_for_replies-take n (suc m) received (p ∷ ps) h =
    let size = length-append {0} received (p ∷ []) in
    let short : leb n (length (received ++ p ∷ [])) ≡ false = ground (arith, h, size) in
    let rest = listen_for_replies-take n m (received ++ p ∷ []) ps (omega (arith, h, size)) in
    rw short (rest ∙ ground (arith, append_assoc received (p ∷ []) (take (suc m) ps)))

-- A reply as acontrol_with_reply reports it: what its JSON says, or the text itself under an
-- error.
abbrev pub reported : (String → Option Value) → String → Value
reported loads payload = elim (loads payload) [
  | some v ↦ v
  | none ↦ object (field "error" (str "JSON parse error") (field "original" (str payload) end))
]

abbrev pub answered :
    {E : Type 0} → Result E (Unit {0}) → List Value → Result (Failure E) (List Value)
answered (ok _) replies = ok replies
answered (raises e) replies = raises (of_broker e)

parse_replies-take :
    (dumps : Value → String) (loads : String → Option Value) (n : ℕ) (payloads : List String)
    → 0 < n
    → parse_replies dumps loads (listen_for_replies n [] payloads).0
      ≡ map (reported loads) (take n payloads)
unfolding parse_replies parse_reply
parse_replies-take dumps loads zero payloads h = absurd (omega (arith, h))
parse_replies-take dumps loads (suc m) payloads h =
    ap (λ (t : List String × Bool). map (reported loads) t.0)
      (listen_for_replies-take (suc m) m [] payloads (omega arith))

module _ {E B : Type 0} (dumps : Value → String) (loads : String → Option Value)
    (publish : Option String → String → Method E B (Unit {0})) (close : B → B)
    (queuename : Option String) where
  closing-answered :
      (replies : List Value) (r : Result E (Unit {0}) × B)
      → closing dumps loads publish close queuename (λ _. ok replies) r
        ≡ (answered r.0 replies, close r.1)
  closing-answered replies (ok a, b) = refl
  closing-answered replies (raises e, b) = refl

  -- Once its message is published, acontrol_with_reply that expects n > 0 replies returns the
  -- first n of those that come in time, or all if they are fewer, in their order, each as its
  -- JSON says or under an error if it is none; if the broker raises, so does the call. In both
  -- cases the broker is closed.
  pub acontrol_with_reply-take :
      (reply_queue command : String) (n : ℕ) (send_data : Option Fields) (payloads : List String)
      (b : B)
      → 0 < n
      → let sent =
          publish queuename (create_message dumps loads command (some reply_queue) send_data) b in
        acontrol_with_reply dumps loads publish close queuename reply_queue command n send_data
          payloads b
        ≡ (answered sent.0 (map (reported loads) (take n payloads)), close sent.1)
  unfolding acontrol_with_reply
  acontrol_with_reply-take reply_queue command n send_data payloads b h =
      rw (← parse_replies-take dumps loads n payloads h) (
        closing-answered (parse_replies dumps loads (listen_for_replies n [] payloads).0)
          (publish queuename (create_message dumps loads command (some reply_queue) send_data) b))
