-- ===== src/Socket/Server/Clients.antt =====
-- What the steps of the socket server do to a client that has messages under way.
use dispatcher_fork.Base.{
  ℕ, ◌+◌, ◌≡◌, refl, sym, ap, ◌∙◌, subst, true, false, Option, some, List, [], ◌∷◌, ◌++◌, String,
  ==_refl, arith, append_assoc, append-nil,
}
use dispatcher_fork.Socket.Server.{
  Client, Phase, reading, waiting, draining, write, give, write_all,
}
use dispatcher_fork.Socket.Server.Served.{is_current, ByPhase, IsServed}

pub write_all-written :
    (ms : List String) (c : Client) → write_all ms c ≡ record c { written = c.written ++ ms }
unfolding write_all
write_all-written [] c = ground (arith, append-nil c.written)
write_all-written (m ∷ ms) c =
    write_all-written ms (write m c)
    ∙ ap (λ t. record c { written = t }) (append_assoc c.written (m ∷ []) ms)

is_current_self : (i : ℕ) (current : Option ℕ) → current ≡ some i → is_current i current ≡ 1
is_current_self i current now = ground (arith, now, ==_refl i)

-- A client whose message is at hand waits, and `yield_clear` is not set.
busy-waiting :
    (p : Phase) (c : Client) (n k : ℕ)
    → k ≡ 1
    → ByPhase p c (n + k)
    → (p ≡ waiting)
      × (c.answered ≡ c.written ++ c.replies_to_send)
      × (c.yield_clear ≡ false)
      × (n ≡ 0)
busy-waiting reading c n k one h = absurd (omega (arith, one, h.0))
busy-waiting draining c n k one h = absurd (omega (arith, one, h.0))
busy-waiting waiting c n k one h = (refl, h.0, ground (arith, one, h.1), ground (arith, one, h.1))

module _ (i : ℕ) (c : Client) (n : ℕ) (current : Option ℕ) (now : current ≡ some i)
    (known : IsServed i c (n + is_current i current)) where
  abbrev busy :
      (c.phase ≡ waiting)
      × (c.answered ≡ c.written ++ c.replies_to_send)
      × (c.yield_clear ≡ false)
      × (n ≡ 0)
  busy =
      busy-waiting c.phase c n (is_current i current) (is_current_self i current now) known.phased

  -- A reply to the client whose message is at hand.
  pub give-IsServed : (m : String) → IsServed i (give m c) (n + is_current i current)
  give-IsServed m =
      let (waits, same, quiet, idle) = busy in
      let one = is_current_self i current now in
      let noted = record c {
        answered = c.answered ++ m ∷ [];
        replies_to_send = c.replies_to_send ++ m ∷ [];
      } in
      let given : give m c ≡ noted = ground (arith, known.active) in
      subst (λ x. IsServed i x (n + is_current i current)) (sym given)
        (record {
          numbered = known.numbered;
          active = known.active;
          phased =
              subst (λ p. ByPhase p noted (n + is_current i current)) (sym waits)
                (
                  ap (λ t. t ++ m ∷ []) same ∙ append_assoc c.written c.replies_to_send (m ∷ []),
                  ground (arith, quiet, idle, one),
                );
        })

  pub finish-IsServed : IsServed i (record c { yield_clear = true }) (n + 0)
  finish-IsServed =
      let (waits, same, quiet, idle) = busy in
      record {
        numbered = known.numbered;
        active = known.active;
        phased =
            subst (λ p. ByPhase p (record c { yield_clear = true }) (n + 0)) (sym waits)
              (same, omega (arith, idle));
      }
