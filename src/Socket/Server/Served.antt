-- ===== src/Socket/Server/Served.antt =====
-- What holds for each client of the socket server between two steps.
use dispatcher_fork.Base.{
  ℕ, ◌+◌, ◌≤◌, ◌≡◌, refl, sym, ◌∙◌, subst, Bool, true, false, Option, none, some, List, [], ◌++◌,
  ◌==◌, if◌then◌else◌, arith, count, Bool-cases, inl, inr,
}
use dispatcher_fork.Socket.Server.{
  Client, Item, line, stop, Server, Phase, reading, waiting, draining, set_client, new_server,
}

abbrev pub is_from : ℕ → Item → Bool
is_from i (line j m) = j == i
is_from i stop = false

abbrev pub is_current : ℕ → Option ℕ → ℕ
is_current i none = 0
is_current i (some j) = if j == i then 1 else 0

-- The messages of a client that the producer has not done with.
abbrev pub pending : ℕ → Server → ℕ
pending i s = count (is_from i) s.incoming_queue + is_current i s.current

abbrev pub ByPhase : Phase → Client → ℕ → Type 0
ByPhase reading c n =
    (n ≡ 0) × (c.yield_clear ≡ false) × (c.answered ≡ c.written) × (c.replies_to_send ≡ [])
ByPhase waiting c n =
    (c.answered ≡ c.written ++ c.replies_to_send) × (n + (if c.yield_clear then 1 else 0) ≡ 1)
ByPhase draining c n = (n ≡ 0) × (c.yield_clear ≡ false) × (c.answered ≡ c.written)

-- A client with `n` messages under way.
pub record IsServed (i : ℕ) (c : Client) (n : ℕ) : Type 0 where
  pub numbered : c.client_id ≡ i
  pub active : c.listen_loop_active ≡ true
  pub phased : ByPhase c.phase c n

abbrev pub ServedAt : ℕ → Option Client → ℕ → Type 0
ServedAt i none n = Unit {0}
ServedAt i (some c) n = IsServed i c n

pub record IsFair (s : Server) : Type 0 where
  pub each : (i : ℕ) → ServedAt i (s.clients i) (pending i s)
  pub beyond : (i : ℕ) → s.client_ct ≤ i → (s.clients i ≡ none) × (pending i s ≡ 0)

pub new_server-IsFair : IsFair new_server
new_server-IsFair = record { each = λ i. tt; beyond = λ i h. (refl, refl) }

pub ==-eq : (i j : ℕ) → (i == j) ≡ true → i ≡ j
==-eq i j e = ground (arith, e)

pub ServedAt-if :
    (i j : ℕ) (o o' : Option Client) (n : ℕ)
    → ((i ≡ j) → ServedAt j o n)
    → (((i == j) ≡ false) → ServedAt j o' n)
    → ServedAt j (if i == j then o else o') n
ServedAt-if i j o o' n h k = elim (Bool-cases (i == j)) [
  | inl e ↦ rw e (h (ground (arith, e)))
  | inr e ↦ rw e (k e)
]

module _ (s : Server) (fair : IsFair s) (i : ℕ) (c : Client) (here_is : s.clients i ≡ some c) where
  pub served : IsServed i c (pending i s)
  served = subst (λ o. ServedAt i o (pending i s)) here_is (fair.each i)

  pub not-beyond : s.client_ct ≤ i → ⊥
  not-beyond h = let (gone, _) = fair.beyond i h in cc (gone, here_is)

  -- A step that changes one client, and the messages under way for no other one.
  pub changed-IsFair :
      (o : Option Client) (queue : List Item) (current : Option ℕ)
      → ServedAt i o (count (is_from i) queue + is_current i current)
      → ((j : ℕ) → (i == j) ≡ false → count (is_from j) queue + is_current j current ≡ pending j s)
      → IsFair (set_client i o (record s { incoming_queue = queue; current = current }))
  changed-IsFair o queue current good same = record {
    each = λ j.
        ServedAt-if i j o (s.clients j) (count (is_from j) queue + is_current j current)
          (λ e. subst (λ k. ServedAt k o (count (is_from k) queue + is_current k current)) e good)
          (λ e. subst (ServedAt j (s.clients j)) (sym (same j e)) (fair.each j));
    beyond = λ j h. elim (Bool-cases (i == j)) [
      | inl e ↦ absurd (not-beyond (omega (arith, h, ==-eq i j e)))
      | inr e ↦ let (gone, idle) = fair.beyond j h in (rw e gone, same j e ∙ idle)
    ];
  }
