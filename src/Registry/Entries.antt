-- ===== src/Registry/Entries.antt =====
-- The lookup dict finds what is registered.
use dispatcher_fork.Base.{
  ◌≡◌, refl, sym, ◌∙◌, ap, subst, ◌⊎◌, inl, inr, Bool, true, false, Option, none, some, List, [],
  ◌∷◌, arith, String, str_eq, eq_iff, if◌then◌else◌, is_some, any, In, Bool-cases, Option-cases,
}
use dispatcher_fork.Registry.{
  Method, Registry, found, register, put_method, get_entry, fill, close, get_method,
}

abbrev pub has_path : String → Method → Bool
has_path task m = str_eq m.path task

get_entry-put_method :
    (task : String) (m : Method) (d : List (String × Method))
    → get_entry task (put_method m d) ≡ (if has_path task m then some m else get_entry task d)
unfolding get_entry put_method
get_entry-put_method task m [] = refl
get_entry-put_method task m ((k, n) ∷ d) = elim (Bool-cases (str_eq k m.path)) [
  | inl e ↦ ground (arith, e, eq_iff k m.path, eq_iff k task, eq_iff m.path task)
  | inr e ↦
      ground (
        arith,
        e,
        eq_iff k m.path,
        eq_iff k task,
        eq_iff m.path task,
        get_entry-put_method task m d,
      )
]

put_method-hit :
    (task : String) (x m : Method) (d : List (String × Method))
    → has_path task x ≡ true
    → get_entry task (put_method x d) ≡ some m
    → m ≡ x
put_method-hit task x m d e k =
    let hit : get_entry task (put_method x d) ≡ some x =
      ground (arith, get_entry-put_method task x d, e) in
    sym (ap (λ o. elim o [ none ↦ x | some y ↦ y ]) (sym hit ∙ k))

-- An entry is a method of the list with this path, or was there before.
record Filled (task : String) (ms : List Method) (d : List (String × Method)) (o : Option Method)
    : Type 0 where
  sound :
      (m : Method) → o ≡ some m → (In m ms × (has_path task m ≡ true)) ⊎ (get_entry task d ≡ some m)
  complete : any (has_path task) ms ≡ true → is_some o ≡ true
  kept : is_some (get_entry task d) ≡ true → is_some o ≡ true

fill-Filled :
    (task : String) (ms : List Method) (d : List (String × Method))
    → Filled task ms d (get_entry task (fill ms d))
unfolding fill
fill-Filled task [] d = record {
  sound = λ m e. inr e;
  complete = λ h. absurd (ground (arith, h));
  kept = λ h. h;
}
fill-Filled task (x ∷ ms) d =
    let f = fill-Filled task ms (put_method x d) in
    let p = get_entry-put_method task x d in
    elim (Bool-cases (has_path task x)) [
      | inl e ↦ record {
        sound = λ m h. elim (f.sound m h) [
          | inl (i, k) ↦ inl (inr i, k)
          | inr k ↦
              let same = put_method-hit task x m d e k in
              inl (inl same, subst (λ y. has_path task y ≡ true) (sym same) e)
        ];
        complete = λ h. f.kept (rw (p, e) refl);
        kept = λ h. f.kept (rw (p, e) refl);
      }
      | inr e ↦ record {
        sound = λ m h. elim (f.sound m h) [
          | inl (i, k) ↦ inl (inr i, k)
          | inr k ↦ inr (ground (arith, p, e, k))
        ];
        complete = λ h. f.complete (ground (arith, h, e));
        kept = λ h. f.kept (rw (p, e) h);
      }
    ]

-- What a lookup relies on: before the registration is closed the dict is empty, and after it the
-- dict has a registered method for each path for which there is one, and no other.
pub record IsIndexed (r : Registry) : Type 0 where
  pub open_empty : r.registration_closed ≡ false → r.lookup_dict ≡ []
  pub sound :
      r.registration_closed ≡ true
      → (task : String) (m : Method) → get_entry task r.lookup_dict ≡ some m
      → In m r.registry × (has_path task m ≡ true)
  pub complete :
      r.registration_closed ≡ true
      → (task : String) → any (has_path task) r.registry ≡ true
      → is_some (get_entry task r.lookup_dict) ≡ true

no_entry :
    (task : String) (m : Method) (d : List (String × Method))
    → d ≡ []
    → get_entry task d ≡ some m
    → none ≡ some m
unfolding get_entry
no_entry task m d e h = subst (λ x. get_entry task x ≡ some m) e h

close-closed : (r : Registry) → r.registration_closed ≡ true → close r ≡ r
unfolding close
close-closed r e = ground (arith, e)

pub close-IsIndexed :
    (r : Registry)
    → IsIndexed r
    → IsIndexed (close r)
      × ((close r).registration_closed ≡ true)
      × ((close r).registry ≡ r.registry)
unfolding close
close-IsIndexed r v = elim (Bool-cases r.registration_closed) [
  | inl e ↦
      subst (λ x. IsIndexed x × (x.registration_closed ≡ true) × (x.registry ≡ r.registry))
        (sym (close-closed r e)) (v, e, refl)
  | inr e ↦
      let f = λ (task : String). fill-Filled task r.registry r.lookup_dict in
      let nothing = v.open_empty e in
      rw (e, close)
        (
          record {
            open_empty = λ h. absurd (ground (arith, h));
            sound = λ _ task m h. elim ((f task).sound m h) [
              | inl there ↦ there
              | inr before ↦ absurd (ground (arith, no_entry task m r.lookup_dict nothing before))
            ];
            complete = λ _ task h. (f task).complete h;
          },
          refl,
          refl,
        )
]

pub register-IsIndexed : (m : Method) (r : Registry) → IsIndexed r → IsIndexed (register m r)
unfolding register
register-IsIndexed m r v = elim (Bool-cases r.registration_closed) [
  | inl e ↦
      rw (e, register)
        (record {
          open_empty = λ _. refl;
          sound = λ h. absurd (ground (arith, h));
          complete = λ h. absurd (ground (arith, h));
        })
  | inr e ↦
      rw (e, register)
        (record {
          open_empty = λ _. v.open_empty e;
          sound = λ h. absurd (ground (arith, h));
          complete = λ h. absurd (ground (arith, h));
        })
]

-- The method that a name stands for, with no import.
module _ (resolve : String → Registry → Option Method × Registry) where
  -- In a registry whose lookup dict is empty while it is open, and after it is closed holds a
  -- registered method for each path that has one and nothing else, get_method finds for the path
  -- of a registered method, whenever it was registered, a registered method with this path,
  -- without an import.
  pub get_method-found :
      (task : String) (allow_unregistered : Bool) (r : Registry)
      → IsIndexed r
      → any (has_path task) r.registry ≡ true
      → (m : Method) × (get_method resolve task allow_unregistered r ≡ (found m, close r))
        × In m r.registry
        × (m.path ≡ task)
  unfolding get_method
  get_method-found task allow_unregistered r v h =
      let (v', closed, same) = close-IsIndexed r v in
      elim (Option-cases (get_entry task (close r).lookup_dict)) [
        | inl e ↦ absurd (ground (arith, e, v'.complete closed task (rw same h)))
        | inr (m, e) ↦
            let (there, path) = v'.sound closed task m e in
            (
              m,
              rw (e, get_method) refl,
              subst (λ ms. In m ms) same there,
              (eq_iff m.path task).0 path,
            )
      ]
