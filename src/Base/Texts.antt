-- ===== src/Base/Texts.antt =====
-- Python's texts: concatenation, prefixes, and the decimal digits that `str` gives an integer.
use Prim.Native.Nat.{ℕ, zero, suc, ◌+◌, ◌/◌, ◌%◌}
use Prim.Native.String.{String, ◌++◌ as text_append, slice}
use mathlib.Core.Bool.{Bool}
use text.Mathlib.Text.{starts_with as text_starts_with, find? as text_find}
use dispatcher_fork.Base.Tests.{if◌then◌else◌, ltb, is_some}

abbrev pub concat : String → String → String
concat s t = text_append s t

-- `s.startswith(t)`
abbrev pub starts_with : String → String → Bool
starts_with s t = text_starts_with s t

abbrev digit : ℕ → String
digit d = slice "0123456789" d (d + 1)

-- The digits of a number before those of `acc`; a number has fewer digits than its successor.
digits : ℕ → ℕ → String → String
digits zero n acc = acc
digits (suc fuel) n acc =
    let more = digits fuel (n / 10) (concat (digit (n % 10)) acc) in
    if ltb n 10 then concat (digit n) acc else more

pub decimal : ℕ → String
decimal n = digits (suc n) n ""

-- `t in s`
abbrev pub has_text : String → String → Bool
has_text t s = is_some (text_find s t)
