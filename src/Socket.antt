-- ===== src/Socket.antt =====
-- `extract_json` of dispatcherd/brokers/socket.py, and what its caller does with its answers.
pub mod Extract
pub mod Receive
pub mod Server
mod Tests
use dispatcher_fork.Base.{
  ℕ, zero, suc, ◌+◌, ◌-◌, Option, none, some, List, [], ◌∷◌, ◌++◌, length, ltb, take, drop,
  if◌then◌else◌,
}

-- `message[pos:index]`
abbrev pub slice : {A : Type 0} → ℕ → ℕ → List A → List A
slice pos index message = take (index - pos) (drop pos message)

-- `raw_decode` is that of a `JSONDecoder`: the place where the JSON value that begins at a place
-- ends, or none where it raises JSONDecodeError. A message is the list of its characters.
module _ {A : Type 0} (raw_decode : List A → ℕ → Option ℕ) where
  -- The loop of `extract_json` on fuel.
  pub extract_from : ℕ → ℕ → List A → List (List A)
  extract_from zero pos message = []
  extract_from (suc fuel) pos message =
      if ltb pos (length message)
      then elim (raw_decode message pos) [
        | none ↦ []
        | some index ↦ slice pos index message ∷ extract_from fuel index message
      ]
      else []

  -- Each round goes on by a character at least.
  unfoldable pub extract_json : List A → List (List A)
  unfolding extract_from
  extract_json message = extract_from (length message) 0 message

-- `yielded_chars` of `process_notify`, and the buffer that it keeps.
abbrev pub joined : {A : Type 0} → List (List A) → List A
joined [] = []
joined (piece ∷ pieces) = piece ++ joined pieces

unfoldable pub new_buffer : {A : Type 0} → (List A → ℕ → Option ℕ) → List A → List A
unfolding extract_json
new_buffer raw_decode message = drop (length (joined (extract_json raw_decode message))) message
