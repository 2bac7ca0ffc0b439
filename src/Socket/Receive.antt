-- ===== src/Socket/Receive.antt =====
-- The synchronous client of dispatcherd/brokers/socket.py: the loop of `process_notify` over the
-- chunks that the socket gives, and `publish_message`.
pub mod Chunks
pub mod Together
use dispatcher_fork.Base.{
  ℕ, zero, suc, ◌+◌, ◌≤◌, ◌<◌, ◌≡◌, refl, sym, ap, ◌∙◌, Bool, true, false, not, Option, none, some,
  List, [], ◌∷◌, ◌++◌, length, leb, arith, if◌then◌else◌, Bool-cases, inl, inr, append_assoc,
}
use dispatcher_fork.Socket.{extract_from, extract_json, new_buffer}

-- What a call of `process_notify` has yielded, and whether it returned or still waits, with its
-- count of messages and its buffer.
pub data Progress (A : Type 0) : Type 0 where
  returned : Progress A
  waits : ℕ → List A → Progress A

abbrev pub Yielded : Type 0 → Type 0
Yielded A = List (List A) × Progress A

module _ {A : Type 0} where
  -- `is_space` is `str.isspace` of one character.
  abbrev pub lstrip : (A → Bool) → List A → List A
  lstrip is_space [] = []
  lstrip is_space (x ∷ xs) = if is_space x then lstrip is_space xs else x ∷ xs

  abbrev keep_last : (A → Bool) → A → List A → List A
  keep_last is_space x [] = if is_space x then [] else x ∷ []
  keep_last is_space x (y ∷ ys) = x ∷ y ∷ ys

  abbrev pub rstrip : (A → Bool) → List A → List A
  rstrip is_space [] = []
  rstrip is_space (x ∷ xs) = keep_last is_space x (rstrip is_space xs)

  -- `s.strip()`
  pub strip : (A → Bool) → List A → List A
  strip is_space xs = lstrip is_space (rstrip is_space xs)

  -- The loop over the complete messages of a chunk; `buffer` is what is kept at its end.
  pub deliver : ℕ → List A → ℕ → List (List A) → Yielded A
  deliver max_messages buffer received_ct [] = ([], waits received_ct buffer)
  deliver max_messages buffer received_ct (complete_msg ∷ rest) =
      let (more, progress) = deliver max_messages buffer (received_ct + 1) rest in
      if leb max_messages (received_ct + 1)
      then (complete_msg ∷ [], returned)
      else (complete_msg ∷ more, progress)

  module _ (is_space : A → Bool) (raw_decode : List A → ℕ → Option ℕ) (max_messages : ℕ) where
    -- One round of `while True`, for the text of one chunk.
    pub receive : List A → ℕ → List A → Yielded A
    unfolding strip deliver
    receive chunk received_ct buffer =
        let current_message = buffer ++ strip is_space chunk in
        deliver max_messages (new_buffer raw_decode current_message) received_ct
          (extract_json raw_decode current_message)

    -- The loop over the chunks that come before the socket times out.
    pub process_chunks : List (List A) → Progress A → Yielded A
    unfolding receive
    process_chunks chunks returned = ([], returned)
    process_chunks [] (waits received_ct buffer) = ([], waits received_ct buffer)
    process_chunks (chunk ∷ chunks) (waits received_ct buffer) =
        let (yielded, progress) = receive chunk received_ct buffer in
        let (more, last) = process_chunks chunks progress in (yielded ++ more, last)
