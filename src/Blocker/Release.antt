-- ===== src/Blocker/Release.antt =====
-- `pop_unblocked_messages`: the loop with its removals against a plain filter of the held messages.
use dispatcher_fork.Base.{
  ℕ, ◌≤◌, ◌≡◌, refl, sym, ap, ◌∙◌, subst, inl, inr, Bool, true, false, not, ◌||◌, List, [], ◌∷◌,
  ◌++◌, arith, any, All, All-right, All-zip, any-false, any-append, count, count-append, select,
  Bool-cases, ◌==◌, ==_refl,
}
use mathlib.Core.List.{append_assoc}
use dispatcher_fork.Message.{Message, is_or_equals, same_call_comm, same_call_of_equal, remove}
use dispatcher_fork.Worker.{Worker}
use dispatcher_fork.Blocker.{
  Blocker, is_duplicate, already_running, already_queued, release_loop, pop_unblocked_messages,
}

-- Every object occurs once in a list of messages.
abbrev pub Distinct : List Message → Type 0
Distinct ms = (i : ℕ) → count (λ x. x.ident == i) ms ≤ 1

-- A held message stays held while its call runs, or while another held message is for its call.
abbrev pub stays : List Worker → List Message → Message → Bool
stays ws held m = already_running ws m || any (is_duplicate m) held

abbrev leaves : List Worker → List Message → Message → Bool
leaves ws held m = not (stays ws held m)

pub is_duplicate_comm : (a b : Message) → is_duplicate a b ≡ is_duplicate b a
unfolding is_duplicate
is_duplicate_comm a b = ground (arith, same_call_comm a b)

-- `remove` takes the message itself, if no held message before it is for the same call.
remove-middle :
    (m : Message) (kept ms : List Message)
    → count (λ x. x.ident == m.ident) (kept ++ m ∷ ms) ≤ 1
    → any (is_duplicate m) kept ≡ false
    → remove m (kept ++ m ∷ ms) ≡ kept ++ ms
unfolding is_or_equals is_duplicate
remove-middle m [] ms d h = ground (arith, ==_refl m.ident)
remove-middle m (x ∷ kept) ms d h = ground (
  arith,
  ==_refl m.ident,
  count-append (λ x. x.ident == m.ident) kept (m ∷ ms),
  same_call_of_equal x m,
  remove-middle m kept ms,
)

alone_of :
    (ws : List Worker) (full : List Message) (m : Message) (held : List Message)
    → stays ws full m ≡ false
    → any (is_duplicate m) held ≡ any (is_duplicate m) full
    → any (is_duplicate m) held ≡ false
alone_of ws full m held leave h = ground arith

module _ (ws : List Worker) (m : Message) (ms : List Message) (b : Blocker) where
  release_loop-stay :
      stays ws b.blocked_messages m ≡ true → release_loop ws (m ∷ ms) b ≡ release_loop ws ms b
  unfolding release_loop already_queued
  release_loop-stay h = rw h

  release_loop-leave :
      stays ws b.blocked_messages m ≡ false
      → let (out, b') =
          release_loop ws ms (record b { blocked_messages = remove m b.blocked_messages }) in
        release_loop ws (m ∷ ms) b ≡ (m ∷ out, b')
  unfolding release_loop already_queued
  release_loop-leave h = rw h

-- What the loop has held so far and what it has yet to see agree with the start on who waits.
abbrev Agrees : List Message → List Message → List Message → Type 0
Agrees full held ms = All (λ x. any (is_duplicate x) held ≡ any (is_duplicate x) full) ms

Agrees-drop :
    (full kept : List Message) (m : Message) (ms : List Message)
    → any (is_duplicate m) (kept ++ m ∷ ms) ≡ false
    → Agrees full (kept ++ m ∷ ms) ms
    → Agrees full (kept ++ ms) ms
Agrees-drop full kept m ms alone h =
    All-zip (λ x. is_duplicate m x ≡ false)
      (λ x. any (is_duplicate x) (kept ++ m ∷ ms) ≡ any (is_duplicate x) full)
      (λ x. any (is_duplicate x) (kept ++ ms) ≡ any (is_duplicate x) full) ms
      (λ x apart same. ground (
        arith,
        is_duplicate_comm m x,
        any-append (is_duplicate x) kept (m ∷ ms),
        any-append (is_duplicate x) kept ms,
      ))
      (All-right _ (m ∷ []) ms (All-right _ kept (m ∷ ms) (any-false (is_duplicate m) _ alone))) h

Distinct-drop :
    (kept : List Message) (m : Message) (ms : List Message)
    → Distinct (kept ++ m ∷ ms)
    → Distinct (kept ++ ms)
Distinct-drop kept m ms d i = ground (
  arith,
  d i,
  count-append (λ x. x.ident == i) kept (m ∷ ms),
  count-append (λ x. x.ident == i) kept ms,
)

set_blocked : Blocker → List Message → Blocker
set_blocked b ms = record b { blocked_messages = ms }

release_loop-nil :
    (ws : List Worker) (kept : List Message) (b : Blocker)
    → b.blocked_messages ≡ kept ++ []
    → release_loop ws [] b ≡ ([], set_blocked b (kept ++ []))
unfolding set_blocked release_loop
release_loop-nil ws kept b e = ap (λ t. ([], record b { blocked_messages = t })) e

release_loop-select :
    (ws : List Worker) (full kept ms : List Message) (b : Blocker)
    → b.blocked_messages ≡ kept ++ ms
    → Distinct (kept ++ ms)
    → Agrees full (kept ++ ms) ms
    → release_loop ws ms b
      ≡ (select (leaves ws full) ms, set_blocked b (kept ++ select (stays ws full) ms))
unfolding set_blocked
release_loop-select ws full kept [] b e d h = release_loop-nil ws kept b e
release_loop-select ws full kept (m ∷ ms) b e d h =
    let here : stays ws b.blocked_messages m ≡ stays ws full m =
      rw e (ap (λ t. already_running ws m || t) h.0) in
    let regroup = append_assoc kept (m ∷ []) ms in
    elim (Bool-cases (stays ws full m)) [
      | inl stay ↦
          release_loop-stay ws m ms b (here ∙ stay)
          ∙ release_loop-select ws full (kept ++ m ∷ []) ms b (e ∙ sym regroup)
              (subst Distinct (sym regroup) d) (subst (λ t. Agrees full t ms) (sym regroup) h.1)
          ∙ rw (stay, append_assoc)
      | inr leave ↦
          let alone : any (is_duplicate m) (kept ++ m ∷ ms) ≡ false =
            alone_of ws full m _ leave h.0 in
          let removed : remove m b.blocked_messages ≡ kept ++ ms = rw e (
            remove-middle m kept ms (d m.ident)
              (ground (arith, any-append (is_duplicate m) kept (m ∷ ms)))) in
          release_loop-leave ws m ms b (here ∙ leave)
          ∙ rw (
            removed,
            release_loop-select ws full kept ms (record b { blocked_messages = kept ++ ms }) refl
                (Distinct-drop kept m ms d) (Agrees-drop full kept m ms alone h.1),
            leave,
          )
    ]

Agrees-refl : (held ms : List Message) → Agrees held held ms
Agrees-refl held [] = tt
Agrees-refl held (m ∷ ms) = (refl, Agrees-refl held ms)

-- While every held object is held once, the loop of pop_unblocked_messages, which changes the
-- list that it tests against, releases exactly the messages whose call neither runs nor is held
-- a second time, and keeps the others, both in their order.
pub pop_unblocked_messages-eq-select :
    (ws : List Worker) (b : Blocker)
    → Distinct b.blocked_messages
    → pop_unblocked_messages ws b ≡ (
      select (λ m. not (already_running ws m || already_queued m b)) b.blocked_messages,
      record b {
        blocked_messages =
            select (λ m. already_running ws m || already_queued m b) b.blocked_messages;
      },
    )
unfolding pop_unblocked_messages already_queued set_blocked
pop_unblocked_messages-eq-select ws b d =
    release_loop-select ws b.blocked_messages [] b.blocked_messages b refl d
      (Agrees-refl b.blocked_messages b.blocked_messages)
