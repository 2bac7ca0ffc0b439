-- ===== src/Socket/Receive/Chunks.antt =====
-- What `process_notify` of the socket broker makes of the chunks that it receives.
use dispatcher_fork.Base.{
  ℕ, zero, suc, ◌+◌, ◌<◌, ◌≡◌, refl, Bool, Option, List, [], ◌∷◌, ◌++◌, length, leb, arith,
  Bool-cases, inl, inr, append-nil, length-append,
}
use dispatcher_fork.Socket.{extract_json, new_buffer}
use dispatcher_fork.Socket.Receive.{
  returned, waits, Yielded, strip, deliver, receive, process_chunks,
}

abbrev pub replicate : {A : Type 0} → ℕ → A → List A
replicate zero x = []
replicate (suc n) x = x ∷ replicate n x

-- `n` messages are asked for, `k` were counted before.
abbrev pub Counted : {A : Type 0} → ℕ → ℕ → Yielded A → Type 0
Counted n k (ys, returned) = k + length ys ≡ n
Counted n k (ys, waits k' buffer) = (k' ≡ k + length ys) × (k' < n)

module _ {A : Type 0} where
  cons-Counted :
      (n k : ℕ) (y : List A) (r : Yielded A) → Counted n (k + 1) r → Counted n k (y ∷ r.0, r.1)
  cons-Counted n k y (ys, returned) h = omega (arith, h)
  cons-Counted n k y (ys, waits k' buffer) h = (omega (arith, h.0), h.1)

  deliver-Counted :
      (n : ℕ) (buffer : List A) (k : ℕ) (pieces : List (List A))
      → k < n
      → Counted n k (deliver n buffer k pieces)
  unfolding deliver
  deliver-Counted n buffer k [] h = (omega arith, h)
  deliver-Counted n buffer k (piece ∷ pieces) h = elim (Bool-cases (leb n (k + 1))) [
    | inl e ↦ rw e (ground (arith, e))
    | inr e ↦ rw e (
        cons-Counted n k piece (deliver n buffer (k + 1) pieces)
          (deliver-Counted n buffer (k + 1) pieces (ground (arith, e))))
  ]

  append-Counted :
      (n k k' : ℕ) (ys : List (List A)) (r : Yielded A)
      → k' ≡ k + length ys
      → Counted n k' r
      → Counted n k (ys ++ r.0, r.1)
  append-Counted n k k' ys (more, returned) e h = omega (arith, h, e, length-append {0} ys more)
  append-Counted n k k' ys (more, waits k'' buffer) e h =
      (omega (arith, h.0, e, length-append {0} ys more), h.1)

  module _ (is_space : A → Bool) (raw_decode : List A → ℕ → Option ℕ) (n : ℕ) where
    more-Counted :
        (k : ℕ) (chunks : List (List A)) (r : Yielded A)
        → ((k' : ℕ) (buffer : List A)
            → k' < n
            → Counted n k' (process_chunks is_space raw_decode n chunks (waits k' buffer)))
        → Counted n k r
        → Counted n k (
          r.0 ++ (process_chunks is_space raw_decode n chunks r.1).0,
          (process_chunks is_space raw_decode n chunks r.1).1,
        )
    unfolding process_chunks
    more-Counted k chunks (ys, returned) ih h = omega (arith, h, length-append {0} ys [])
    more-Counted k chunks (ys, waits k' buffer) ih h =
        append-Counted n k k' ys (process_chunks is_space raw_decode n chunks (waits k' buffer)) h.0
          (ih k' buffer h.1)

    -- However its chunks come, process_notify of the socket broker that is to give n messages
    -- returns exactly when it has yielded n, and until then counts what it yielded.
    pub process_chunks-Counted :
        (chunks : List (List A)) (k : ℕ) (buffer : List A)
        → k < n
        → Counted n k (process_chunks is_space raw_decode n chunks (waits k buffer))
    unfolding process_chunks receive
    process_chunks-Counted [] k buffer h = (omega arith, h)
    process_chunks-Counted (chunk ∷ chunks) k buffer h =
        more-Counted k chunks (receive is_space raw_decode n chunk k buffer)
          (process_chunks-Counted chunks) (deliver-Counted n _ k _ h)

    -- After the server has closed the connection, when each read gives the empty text at once,
    -- process_notify with an incomplete message in its buffer goes on for ever: no number of
    -- rounds changes its state or makes it return.
    pub process_chunks-closed :
        (rounds k : ℕ) (buffer : List A)
        → extract_json raw_decode buffer ≡ []
        → process_chunks is_space raw_decode n (replicate rounds []) (waits k buffer)
          ≡ ([], waits k buffer)
    unfolding process_chunks receive strip deliver new_buffer
    process_chunks-closed zero k buffer h = refl
    process_chunks-closed (suc rounds) k buffer h =
        rw (append-nil buffer, h) (process_chunks-closed rounds k buffer h)
