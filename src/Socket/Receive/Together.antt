-- ===== src/Socket/Receive/Together.antt =====
-- No character but blanks at the ends of chunks is lost while `process_notify` waits.
use dispatcher_fork.Base.{
  ℕ, ◌+◌, ◌≤◌, ◌<◌, ◌≡◌, refl, sym, ap, ◌∙◌, Bool, Option, some, List, [], ◌∷◌, ◌++◌, length, leb,
  map, Bool-cases, inl, inr, append_assoc, append-nil, subst,
}
use dispatcher_fork.Socket.{extract_json, new_buffer, joined}
use dispatcher_fork.Socket.Extract.{extract_json-Answered}
use dispatcher_fork.Socket.Receive.{
  returned, waits, Yielded, strip, deliver, receive, process_chunks,
}

-- The messages yielded and the buffer make up a text, while more is waited for.
abbrev pub MakesUp : {A : Type 0} → List A → Yielded A → Type 0
MakesUp text (ys, returned) = Unit {0}
MakesUp text (ys, waits k buffer) = joined ys ++ buffer ≡ text

module _ {A : Type 0} where
  joined-append : (xs ys : List (List A)) → joined (xs ++ ys) ≡ joined xs ++ joined ys
  joined-append [] ys = refl
  joined-append (x ∷ xs) ys =
      ap (λ t. x ++ t) (joined-append xs ys) ∙ sym (append_assoc x (joined xs) (joined ys))

  cons-MakesUp :
      (y text : List A) (r : Yielded A) → MakesUp text r → MakesUp (y ++ text) (y ∷ r.0, r.1)
  cons-MakesUp y text (ys, returned) h = tt
  cons-MakesUp y text (ys, waits k buffer) h =
      append_assoc y (joined ys) buffer ∙ ap (λ t. y ++ t) h

  deliver-MakesUp :
      (n : ℕ) (buffer : List A) (k : ℕ) (pieces : List (List A))
      → MakesUp (joined pieces ++ buffer) (deliver n buffer k pieces)
  unfolding deliver
  deliver-MakesUp n buffer k [] = refl
  deliver-MakesUp n buffer k (piece ∷ pieces) = elim (Bool-cases (leb n (k + 1))) [
    | inl e ↦ rw e tt
    | inr e ↦
        rw (e, append_assoc piece (joined pieces) buffer)
          (cons-MakesUp piece (joined pieces ++ buffer) (deliver n buffer (k + 1) pieces)
            (deliver-MakesUp n buffer (k + 1) pieces))
  ]

  append-MakesUp :
      (text later buffer : List A) (ys : List (List A)) (r : Yielded A)
      → joined ys ++ buffer ≡ text
      → MakesUp (buffer ++ later) r
      → MakesUp (text ++ later) (ys ++ r.0, r.1)
  append-MakesUp text later buffer ys (more, returned) e h = tt
  append-MakesUp text later buffer ys (more, waits k kept) e h =
      ap (λ t. t ++ kept) (joined-append ys more)
      ∙ append_assoc (joined ys) (joined more) kept
      ∙ ap (λ t. joined ys ++ t) h
      ∙ sym (append_assoc (joined ys) buffer later)
      ∙ ap (λ t. t ++ later) e

  module _ (is_space : A → Bool) (raw_decode : List A → ℕ → Option ℕ)
      (advances : (message : List A) (i j : ℕ)
        → raw_decode message i ≡ some j
        → (i < j) × (j ≤ length message))
      (n : ℕ) where
    receive-MakesUp :
        (chunk : List A) (k : ℕ) (buffer : List A)
        → MakesUp (buffer ++ strip is_space chunk) (receive is_space raw_decode n chunk k buffer)
    unfolding receive
    receive-MakesUp chunk k buffer =
        let message = buffer ++ strip is_space chunk in
        subst (λ t. MakesUp t (receive is_space raw_decode n chunk k buffer))
          (extract_json-Answered raw_decode message (advances message)).together
          (deliver-MakesUp n (new_buffer raw_decode message) k (extract_json raw_decode message))

    more-MakesUp :
        (text later : List A) (chunks : List (List A)) (r : Yielded A)
        → ((k : ℕ) (buffer : List A)
            → MakesUp
                (buffer ++ later)
                (process_chunks is_space raw_decode n chunks (waits k buffer)))
        → MakesUp text r
        → MakesUp (text ++ later) (
          r.0 ++ (process_chunks is_space raw_decode n chunks r.1).0,
          (process_chunks is_space raw_decode n chunks r.1).1,
        )
    unfolding process_chunks
    more-MakesUp text later chunks (ys, returned) ih h = tt
    more-MakesUp text later chunks (ys, waits k buffer) ih h =
        append-MakesUp text later buffer ys
          (process_chunks is_space raw_decode n chunks (waits k buffer)) h (ih k buffer)

    -- If the JSON decoder ends each value behind its beginning and within the message, then
    -- while process_notify of the socket broker waits, the messages that it yielded and its
    -- buffer are, one behind the other, the chunks that came, each without the blanks at its
    -- ends.
    pub process_chunks-MakesUp :
        (chunks : List (List A)) (k : ℕ) (buffer : List A)
        → MakesUp
            (buffer ++ joined (map (strip is_space) chunks))
            (process_chunks is_space raw_decode n chunks (waits k buffer))
    unfolding process_chunks
    process_chunks-MakesUp [] k buffer = sym (append-nil buffer)
    process_chunks-MakesUp (chunk ∷ chunks) k buffer =
        let later = joined (map (strip is_space) chunks) in
        subst
          (λ t. MakesUp t (process_chunks is_space raw_decode n (chunk ∷ chunks) (waits k buffer)))
          (append_assoc buffer (strip is_space chunk) later)
          (more-MakesUp (buffer ++ strip is_space chunk) later chunks
            (receive is_space raw_decode n chunk k buffer) (process_chunks-MakesUp chunks)
            (receive-MakesUp chunk k buffer))
