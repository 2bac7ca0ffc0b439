-- ===== src/Socket/Tests.antt =====
-- The texts of the socket broker at concrete messages: two values of one character each, a
-- newline, and chunks that cut a message.
use dispatcher_fork.Base.{
  ℕ, zero, suc, ◌+◌, ◌≤◌, ◌<◌, ◌≡◌, refl, Bool, Option, none, some, List, [], ◌∷◌, ◌++◌, arith, leb,
  ◌==◌, length, map, get_elem?, if◌then◌else◌, Bool-cases, Option-cases, inl, inr,
}
use dispatcher_fork.Socket.{extract_json, joined}
use dispatcher_fork.Socket.Receive.{waits, strip, process_chunks}
use dispatcher_fork.Socket.Receive.Chunks.{
  replicate, Counted, process_chunks-Counted, process_chunks-closed,
}
use dispatcher_fork.Socket.Receive.Together.{MakesUp, process_chunks-MakesUp}

-- Two values in the first chunk, and a blank and a third value in the second one.
abbrev chunks : List (List ℕ)
chunks = (1 ∷ 2 ∷ []) ∷ (32 ∷ 1 ∷ []) ∷ []

abbrev is_blank : ℕ → Bool
is_blank c = c == 32

-- Each of the digits 1 and 2 is a value.
abbrev digit_at : List ℕ → ℕ → Option ℕ
digit_at message i = elim (get_elem? i message) [
  | none ↦ none
  | some c ↦ if leb c 2 then some (i + 1) else none
]

in_range : (message : List ℕ) (i c : ℕ) → get_elem? i message ≡ some c → i < length message
in_range [] i c h = absurd (ground (arith, h))
in_range (x ∷ xs) zero c h = omega arith
in_range (x ∷ xs) (suc i) c h = omega (arith, in_range xs i c h)

digit_at-advances :
    (message : List ℕ) (i j : ℕ) → digit_at message i ≡ some j → (i < j) × (j ≤ length message)
digit_at-advances message i j h = elim (Option-cases (get_elem? i message)) [
  | inl e ↦ absurd (ground (arith, h, e))
  | inr (c, e) ↦ elim (Bool-cases (leb c 2)) [
    | inl f ↦
        let same : i + 1 ≡ j = ground (arith, h, e, f) in
        (omega (arith, same), omega (arith, same, in_range message i c e))
    | inr f ↦ absurd (ground (arith, h, e, f))
  ]
]

process_chunks-Counted_example :
    Counted 3 0 (process_chunks is_blank digit_at 3 chunks (waits 0 []))
process_chunks-Counted_example =
    process_chunks-Counted is_blank digit_at 3 chunks 0 [] (omega arith)

process_chunks-MakesUp_example :
    MakesUp
      ([] ++ joined (map (strip is_blank) chunks))
      (process_chunks is_blank digit_at 3 chunks (waits 0 []))
process_chunks-MakesUp_example =
    process_chunks-MakesUp is_blank digit_at digit_at-advances 3 chunks 0 []

-- The buffer holds the beginning of a value.
incomplete : extract_json digit_at (7 ∷ []) ≡ []
unfolding extract_json
incomplete = refl

process_chunks-closed_example :
    process_chunks is_blank digit_at 3 (replicate 100 []) (waits 1 (7 ∷ []))
    ≡ ([], waits 1 (7 ∷ []))
process_chunks-closed_example = process_chunks-closed is_blank digit_at 3 100 1 (7 ∷ []) incomplete
