-- ===== src/Blocker.antt =====
-- dispatcherd/service/blocker.py and `DuplicateBehavior` of dispatcherd/utils.py: messages held
-- back because the same task already runs or waits. The queuer that a `Blocker` keeps a reference
-- to is asked only for the running tasks, so its workers are an argument of the methods.
pub mod Release
pub mod Outcome
mod Tests
use dispatcher_fork.Base.{
  ℕ, suc, ◌+◌, ◌≡◌, refl, Bool, true, false, not, ◌&&◌, ◌||◌, Option, none, some, List, [], ◌∷◌,
  ◌++◌, ◌==◌, length, any, str_eq, if◌then◌else◌,
}
use dispatcher_fork.Json.{Value, str, get_or, equal}
use dispatcher_fork.Message.{
  Message, is_same, is_or_equals, same_call, same_call_of_same_body, remove,
}
use dispatcher_fork.Worker.{Worker}
use dispatcher_fork.Queuer.{running_tasks}

pub data DuplicateBehavior : Type 0 where
  parallel discard serial queue_one : DuplicateBehavior

-- The comparisons of `on_duplicate` with the values of the enum; none is an unexpected value.
behavior_of : Value → Option DuplicateBehavior
behavior_of v =
    if equal v (str "serial")
    then some serial
    else if equal v (str "discard")
    then some discard
    else if equal v (str "queue_one")
    then some queue_one
    else if equal v (str "parallel")
    then some parallel
    else none

-- `message.get('on_duplicate', DuplicateBehavior.parallel.value)`
pub on_duplicate : Message → Option DuplicateBehavior
unfolding behavior_of
on_duplicate m = behavior_of (get_or "on_duplicate" (str "parallel") m.body)

pub record Blocker : Type 0 where
  pub blocked_messages : List Message
  pub discard_count : ℕ
  pub shutting_down : Bool

abbrev pub new_blocker : Blocker
new_blocker = record { blocked_messages = []; discard_count = 0; shutting_down = false }

unfoldable pub count : Blocker → ℕ
count b = length b.blocked_messages

-- Another message object for the same call.
pub is_duplicate : Message → Message → Bool
is_duplicate m other = not (is_same other m) && same_call other m

-- Two dicts with equal items are duplicates of one another.
pub is_duplicate-twins :
    (m other : Message)
    → (other.ident == m.ident) ≡ false
    → other.body ≡ m.body
    → is_duplicate m other ≡ true
unfolding is_duplicate
is_duplicate-twins m other apart e = rw (apart, same_call_of_same_body other m e)

unfoldable pub duplicate_in_list : Message → List Message → Bool
duplicate_in_list m others = any (is_duplicate m) others

unfoldable pub already_running : List Worker → Message → Bool
unfolding duplicate_in_list
already_running ws m = duplicate_in_list m (running_tasks ws)

unfoldable pub already_queued : Message → Blocker → Bool
unfolding duplicate_in_list
already_queued m b = duplicate_in_list m b.blocked_messages

-- `remove_task`; none is a ValueError.
pub remove_task : Message → Blocker → Option Blocker
remove_task m b =
    if any (is_or_equals m) b.blocked_messages
    then some (record b { blocked_messages = remove m b.blocked_messages })
    else none

hold : Message → Blocker → Option Message × Blocker
hold m b = (none, record b { blocked_messages = b.blocked_messages ++ m ∷ [] })

throw_away : Blocker → Option Message × Blocker
throw_away b = (none, record b { discard_count = b.discard_count + 1 })

-- The branches of `process_task` on `on_duplicate`, for a message that another one runs for or not,
-- and that another one is held for or not.
process_as : Option DuplicateBehavior → Bool → Bool → Message → Blocker → Option Message × Blocker
unfolding hold throw_away
process_as (some serial) runs held m b = if runs then hold m b else (some m, b)
process_as (some discard) runs held m b = if runs || held then throw_away b else (some m, b)
process_as (some queue_one) runs held m b =
    if held then throw_away b else if runs then hold m b else (some m, b)
process_as (some parallel) runs held m b = (some m, b)
process_as none runs held m b = (some m, b)

-- Hands the message back, or keeps or drops it.
pub process_task : List Worker → Message → Blocker → Option Message × Blocker
unfolding process_as
process_task ws m b =
    if b.shutting_down
    then hold m b
    else process_as (on_duplicate m) (already_running ws m) (already_queued m b) m b

-- The loop of `pop_unblocked_messages` over a copy of the blocked messages.
release_loop : List Worker → List Message → Blocker → List Message × Blocker
release_loop ws [] b = ([], b)
release_loop ws (m ∷ ms) b =
    let stays = already_running ws m || already_queued m b in
    let b' = if stays then b else record b { blocked_messages = remove m b.blocked_messages } in
    let (out, b'') = release_loop ws ms b' in (if stays then out else m ∷ out, b'')

pub pop_unblocked_messages : List Worker → Blocker → List Message × Blocker
unfolding release_loop
pop_unblocked_messages ws b = release_loop ws b.blocked_messages b

pub shutdown : Blocker → Blocker
shutdown b = record b { shutting_down = true }

-- After a shutdown every message is held, whatever it asks for.
pub process_task-shutdown :
    (ws : List Worker) (m : Message) (b : Blocker)
    → process_task ws m (shutdown b)
      ≡ (none, record (shutdown b) { blocked_messages = b.blocked_messages ++ m ∷ [] })
unfolding process_task shutdown hold
process_task-shutdown ws m b = refl
