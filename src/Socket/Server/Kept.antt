-- ===== src/Socket/Server/Kept.antt =====
-- Every step of the socket server keeps what holds for its clients.
use dispatcher_fork.Base.{
  ℕ, ◌+◌, ◌≡◌, refl, sym, ap, ◌∙◌, subst, true, false, Option, none, some, List, [], ◌∷◌, ◌++◌,
  String, ◌==◌, if◌then◌else◌, arith, count, count-append, Bool-cases, Option-cases, inl, inr,
  append-nil,
}
use dispatcher_fork.Brokered.{client}
use dispatcher_fork.Socket.Server.{
  Client, Item, line, stop, Server, Phase, reading, waiting, draining, new_client, add_client,
  read_line, remove_client, aclose, after_yield, forget_clients, apublish_message, begin_send,
  end_send, update_client, set_client, give,
}
use dispatcher_fork.Socket.Server.Served.{
  is_from, is_current, pending, ByPhase, ServedAt, IsFair, ==-eq, served, changed-IsFair,
  ServedAt-if,
}
use dispatcher_fork.Socket.Server.Clients.{write_all-written, give-IsServed, finish-IsServed}

module _ (s : Server) (fair : IsFair s) where
  pub add_client-IsFair : IsFair (add_client s)
  unfolding add_client
  add_client-IsFair =
      let (_, idle) = fair.beyond s.client_ct (omega arith) in
      record {
        each = λ j.
            ServedAt-if s.client_ct j (some (new_client s.client_ct)) (s.clients j) (pending j s)
              (λ e. record {
                numbered = e;
                active = refl;
                phased = (rw (← e) idle, refl, refl, refl);
              })
              (λ _. fair.each j);
        beyond = λ j h.
            let (gone, nothing) = fair.beyond j (omega (arith, h)) in
            let other : (s.client_ct == j) ≡ false = ground (arith, h) in (rw other gone, nothing);
      }

  pub remove_client-IsFair : (i : ℕ) → IsFair (remove_client i s)
  unfolding remove_client
  remove_client-IsFair i = record {
    each = λ j. ServedAt-if i j none (s.clients j) (pending j s) (λ _. tt) (λ _. fair.each j);
    beyond = λ j h. let (gone, nothing) = fair.beyond j h in (ground (arith, gone), nothing);
  }

  pub aclose-IsFair : IsFair (aclose s)
  unfolding aclose
  aclose-IsFair =
      let same = λ (j : ℕ). count-append (is_from j) s.incoming_queue (stop ∷ []) in
      record {
        each = λ j. subst (ServedAt j (s.clients j)) (omega (arith, same j)) (fair.each j);
        beyond =
            λ j h. let (gone, nothing) = fair.beyond j h in (gone, omega (arith, same j, nothing));
      }

update_client-set :
    (i : ℕ) (f : Client → Client) (c : Client) (s : Server)
    → s.clients i ≡ some c
    → update_client i f s ≡ set_client i (some (f c)) s
update_client-set i f c s e = rw (e, update_client) refl

count-line :
    (i j : ℕ) (m : String) (queue : List Item)
    → count (is_from j) (queue ++ line i m ∷ [])
      ≡ count (is_from j) queue + (if i == j then 1 else 0)
count-line i j m queue = ground (arith, count-append (is_from j) queue (line i m ∷ []))

module _ (s : Server) (fair : IsFair s) (i : ℕ) (c : Client) (here_is : s.clients i ≡ some c) where
  abbrev phase_of : (p : Phase) → c.phase ≡ p → ByPhase p c (pending i s)
  phase_of p e = subst (λ q. ByPhase q c (pending i s)) e (served s fair i c here_is).phased

  pub read_line-IsFair : (m : String) → c.phase ≡ reading → IsFair (read_line i m s)
  unfolding read_line
  read_line-IsFair m e =
      let queue = s.incoming_queue ++ line i m ∷ [] in
      let t = record s { incoming_queue = queue } in
      let (idle, quiet, same, clear) = phase_of reading e in
      let known = served s fair i c here_is in
      rw (update_client-set i (λ x. record x { phase = waiting }) c t here_is) (
        changed-IsFair s fair i c here_is (some (record c { phase = waiting })) queue s.current
          (record {
            numbered = known.numbered;
            active = known.active;
            phased = (
              same ∙ sym (ap (λ r. c.written ++ r) clear ∙ append-nil c.written),
              rw quiet (ground (arith, idle, count-line i i m s.incoming_queue)),
            );
          })
          (λ j other. ground (arith, other, count-line i j m s.incoming_queue)))

  pub begin_send-IsFair :
      c.phase ≡ waiting → c.yield_clear ≡ true → IsFair (update_client i begin_send s)
  unfolding begin_send
  begin_send-IsFair e set =
      let (same, busy) = phase_of waiting e in
      let known = served s fair i c here_is in
      let sent = record c {
        yield_clear = false;
        phase = draining;
        written = c.written ++ c.replies_to_send;
      } in
      let written : begin_send c ≡ sent =
        write_all-written c.replies_to_send (record c { yield_clear = false; phase = draining }) in
      rw (update_client-set i begin_send c s here_is, written)
        (changed-IsFair s fair i c here_is (some sent) s.incoming_queue s.current
          (record {
            numbered = known.numbered;
            active = known.active;
            phased = (ground (arith, busy, set), refl, same);
          })
          (λ j other. refl))

  pub end_send-IsFair : c.phase ≡ draining → IsFair (update_client i end_send s)
  unfolding end_send
  end_send-IsFair e =
      let (idle, quiet, same) = phase_of draining e in
      let known = served s fair i c here_is in
      rw (update_client-set i end_send c s here_is) (
        changed-IsFair s fair i c here_is (some (end_send c)) s.incoming_queue s.current
          (record {
            numbered = known.numbered;
            active = known.active;
            phased = (idle, quiet, same, refl);
          })
          (λ j other. refl))

  answer-IsFair : (m : String) → s.current ≡ some i → IsFair (update_client i (give m) s)
  answer-IsFair m now =
      let known = served s fair i c here_is in
      rw (update_client-set i (give m) c s here_is) (
        changed-IsFair s fair i c here_is (some (give m c)) s.incoming_queue s.current
          (give-IsServed i c (count (is_from i) s.incoming_queue) s.current now known m)
          (λ j other. refl))

  finish-IsFair : s.current ≡ some i → IsFair (after_yield i s)
  unfolding after_yield
  finish-IsFair now =
      let known = served s fair i c here_is in
      rw
        (update_client-set i (λ x. record x { yield_clear = true }) c (record s { current = none })
          here_is)
        (changed-IsFair s fair i c here_is (some (record c { yield_clear = true })) s.incoming_queue
          none (finish-IsServed i c (count (is_from i) s.incoming_queue) s.current now known)
          (λ j other. ground (arith, now, other)))

module _ (s : Server) (fair : IsFair s) where
  same-IsFair :
      (queue : List Item) (current : Option ℕ)
      → ((j : ℕ) → count (is_from j) queue + is_current j current ≡ pending j s)
      → IsFair (record s { incoming_queue = queue; current = current })
  same-IsFair queue current same = record {
    each = λ j. subst (ServedAt j (s.clients j)) (sym (same j)) (fair.each j);
    beyond = λ j h. let (gone, nothing) = fair.beyond j h in (gone, same j ∙ nothing);
  }

  pub take-IsFair :
      (i : ℕ) (m : String) (rest : List Item)
      → s.current ≡ none
      → s.incoming_queue ≡ line i m ∷ rest
      → IsFair (record s { incoming_queue = rest; current = some i })
  take-IsFair i m rest none_is head = same-IsFair rest (some i) (λ j. ground (arith, none_is, head))

  finish-gone-IsFair :
      (i : ℕ) → s.clients i ≡ none → s.current ≡ some i → IsFair (record s { current = none })
  finish-gone-IsFair i gone now = record {
    each = λ j. elim (Bool-cases (i == j)) [
      | inl e ↦
          let lost : s.clients j ≡ none = ap s.clients (sym (==-eq i j e)) ∙ gone in
          subst (λ o. ServedAt j o (pending j (record s { current = none }))) (sym lost) tt
      | inr e ↦ subst (ServedAt j (s.clients j)) (ground (arith, now, e)) (fair.each j)
    ];
    beyond = λ j h. let (lost, nothing) = fair.beyond j h in (lost, ground (arith, nothing, now));
  }

  pub forget-IsFair :
      (rest : List Item)
      → s.current ≡ none
      → s.incoming_queue ≡ stop ∷ rest
      → IsFair (forget_clients (record s { incoming_queue = rest }))
  unfolding forget_clients
  forget-IsFair rest none_is head = record {
    each = λ j. tt;
    beyond =
        λ j h. let (_, nothing) = fair.beyond j h in (refl, ground (arith, nothing, none_is, head));
  }

pub apublish_message-IsFair :
    (s : Server) (i : ℕ) (m : String)
    → IsFair s
    → s.current ≡ some i
    → IsFair (apublish_message (client i) m s)
unfolding apublish_message
apublish_message-IsFair s i m fair now = elim (Option-cases (s.clients i)) [
  | inl gone ↦ rw (gone, update_client) fair
  | inr (c, e) ↦ answer-IsFair s fair i c e m now
]

pub after_yield-IsFair :
    (s : Server) (i : ℕ) → IsFair s → s.current ≡ some i → IsFair (after_yield i s)
unfolding after_yield
after_yield-IsFair s i fair now = elim (Option-cases (s.clients i)) [
  | inl gone ↦ rw (gone, update_client) (finish-gone-IsFair s fair i gone now)
  | inr (c, e) ↦ finish-IsFair s fair i c e now
]
