-- ===== src/Socket/Extract.antt =====
-- `extract_json` takes complete values from the front of a message, and stops at a newline.
use dispatcher_fork.Base.{
  ℕ, zero, suc, ◌+◌, ◌-◌, ◌≤◌, ◌<◌, ◌≡◌, refl, sym, ◌∙◌, ap, ◌⊎◌, inl, inr, Option, none, some,
  List, [], ◌∷◌, ◌++◌, arith, length, ltb, drop, take-append-drop, drop-drop, length-take-drop,
  length-append, append_assoc, Bool-cases, Option-cases,
}
use dispatcher_fork.Socket.{slice, extract_from, extract_json, joined, new_buffer}

module _ {A : Type 0} (raw_decode : List A → ℕ → Option ℕ) (message : List A)
    (advances : (i j : ℕ) → raw_decode message i ≡ some j → (i < j) × (j ≤ length message)) where
  -- The pieces and the rest are what stood from `pos` on; the loop has stopped for a reason.
  record Extracted (pos : ℕ) (pieces : List (List A)) : Type 0 where
    together : joined pieces ++ drop (pos + length (joined pieces)) message ≡ drop pos message
    stopped :
        (length message ≤ pos + length (joined pieces))
        ⊎ (raw_decode message (pos + length (joined pieces)) ≡ none)

  Extracted-nil :
      (pos : ℕ) → (length message ≤ pos) ⊎ (raw_decode message pos ≡ none) → Extracted pos []
  Extracted-nil pos h =
      let here : pos ≡ pos + 0 = omega arith in
      record {
        together = ap (λ j. drop j message) (sym here);
        stopped = elim h [
          | inl past ↦ inl (omega (arith, past))
          | inr fails ↦ inr (ap (raw_decode message) (sym here) ∙ fails)
        ];
      }

  Extracted-cons :
      (pos index : ℕ) (pieces : List (List A))
      → raw_decode message pos ≡ some index
      → Extracted index pieces
      → Extracted pos (slice pos index message ∷ pieces)
  Extracted-cons pos index pieces e x =
      let (below, inside) = advances pos index e in
      let piece = slice pos index message in
      let size : length piece ≡ index - pos =
        length-take-drop pos (index - pos) message (omega (arith, below, inside)) in
      let whole = length-append piece (joined pieces) in
      let at : pos + length (piece ++ joined pieces) ≡ index + length (joined pieces) =
        omega (arith, size, whole, below) in
      record {
        together =
            append_assoc piece (joined pieces)
              (drop (pos + length (piece ++ joined pieces)) message)
            ∙ ap (λ t. piece ++ t)
                (ap (λ j. joined pieces ++ drop j message) at
                  ∙ x.together
                  ∙ sym (drop-drop pos (index - pos) index message (omega (arith, below))))
            ∙ take-append-drop (index - pos) (drop pos message);
        stopped = elim x.stopped [
          | inl past ↦ inl (omega (arith, at, past))
          | inr fails ↦ inr (ap (raw_decode message) at ∙ fails)
        ];
      }

  extract_from-Extracted :
      (fuel pos : ℕ)
      → length message ≤ pos + fuel
      → Extracted pos (extract_from raw_decode fuel pos message)
  unfolding extract_from
  extract_from-Extracted zero pos h = Extracted-nil pos (inl (omega (arith, h)))
  extract_from-Extracted (suc fuel) pos h = elim (Bool-cases (ltb pos (length message))) [
    | inr past ↦ rw (past, extract_from) (Extracted-nil pos (inl (ground (arith, past))))
    | inl more ↦
        rw (more, extract_from)
          (elim (Option-cases (raw_decode message pos)) [
            | inl fails ↦ rw fails (Extracted-nil pos (inr fails))
            | inr (index, e) ↦ rw e (
                Extracted-cons pos index _ e
                  (extract_from-Extracted fuel index (omega (arith, h, (advances pos index e).0))))
          ])
  ]

-- The front of a message is answered piece by piece, and `process_notify` keeps exactly the rest.
pub record Answered {A : Type 0} (raw_decode : List A → ℕ → Option ℕ) (message : List A)
    : Type 0 where
  pub together : joined (extract_json raw_decode message) ++ new_buffer raw_decode message ≡ message
  pub stopped :
      (new_buffer raw_decode message ≡ [])
      ⊎ (raw_decode message (length (joined (extract_json raw_decode message))) ≡ none)

drop-all : {A : Type 0} (n : ℕ) (xs : List A) → length xs ≤ n → drop n xs ≡ []
drop-all zero [] h = refl
drop-all zero (x ∷ xs) h = absurd (omega (arith, h))
drop-all (suc n) [] h = refl
drop-all (suc n) (x ∷ xs) h = drop-all n xs (omega (arith, h))

-- If the JSON decoder ends each value behind its beginning and within the message, the pieces
-- that extract_json yields and the buffer that process_notify keeps make up the message again,
-- and extract_json has stopped at the end of the message or at a place where the decoder fails.
pub extract_json-Answered :
    {A : Type 0} (raw_decode : List A → ℕ → Option ℕ) (message : List A)
    → ((i j : ℕ) → raw_decode message i ≡ some j → (i < j) × (j ≤ length message))
    → Answered raw_decode message
unfolding extract_json new_buffer
extract_json-Answered raw_decode message advances =
    let x = extract_from-Extracted raw_decode message advances (length message) 0 (omega arith) in
    let size = length (joined (extract_from raw_decode (length message) 0 message)) in
    let same : 0 + size ≡ size = omega arith in
    record {
      together =
          ap (λ j. joined (extract_from raw_decode (length message) 0 message) ++ drop j message)
            (sym same)
          ∙ x.together;
      stopped = elim x.stopped [
        | inl past ↦ inl (drop-all size message (omega (arith, past)))
        | inr fails ↦ inr (ap (raw_decode message) (sym same) ∙ fails)
      ];
    }
