-- ===== src/Admission/Claims.antt =====
-- The interleavings of the threads of AdmissionServer (cdn/src/admission.cpp), and an invariant
-- of them.
use pacetun.Base.{
  ℕ, ◌+◌, ◌≤◌, ◌<◌, ◌≡◌, refl, ap, ◌⊎◌, if◌then◌else◌, leb, ◌==◌, false, List, [], ◌∷◌, ◌++◌, Bool,
  true, ◌||◌, Option, none, some, length, length-append, Bool-cases, inl, inr, arith,
}
use pacetun.Admission.{
  Limits, Connection, Server, new_server, accept_one, begin, busy, finish, take_from, take_ready,
  closed,
}

-- The steps of the threads.
pub data Step (l : Limits) : Server → Server → Type 0 where
  accepts : (s : Server) (fd : ℕ) → Step l s (accept_one l s fd)
  begins : (s : Server) → length s.working < l.workers → Step l s (begin s)
  finishes :
      (s : Server) (fd : ℕ) (before after : List ℕ) (result : Option Bool)
      → s.working ≡ before ++ fd ∷ after
      → Step l s (finish l s fd (before ++ after) result)
  takes : (s : Server) → Step l s (take_ready s).0
  closes :
      (s : Server) (c : Connection) (before after : List Connection)
      → s.taken ≡ before ++ c ∷ after
      → Step l s (closed s (before ++ after))
  stops : (s : Server) → Step l s (record s { stop = true })

pub data Reached (l : Limits) : Server → Type 0 where
  begun : Reached l new_server
  later : {s t : Server} → Reached l s → Step l s t → Reached l t

List-cases : {A : Type 0} (xs : List A) → (xs ≡ []) ⊎ ((y : A) × (ys : List A) × (xs ≡ y ∷ ys))
List-cases [] = inl refl
List-cases (y ∷ ys) = inr (y, ys, refl)

-- How many of the connections were not confirmed.
abbrev pub unconfirmed : List Connection → ℕ
unconfirmed [] = 0
unconfirmed (c ∷ cs) = if c.confirmed then unconfirmed cs else unconfirmed cs + 1

unconfirmed-append :
    (xs ys : List Connection) → unconfirmed (xs ++ ys) ≡ unconfirmed xs + unconfirmed ys
unconfirmed-append [] ys = omega arith
unconfirmed-append (x ∷ xs) ys = ground (arith, unconfirmed-append xs ys)

unconfirmed_le : (xs : List Connection) → unconfirmed xs ≤ length xs
unconfirmed_le [] = omega arith
unconfirmed_le (x ∷ xs) = ground (arith, unconfirmed_le xs)

pub record IsValid (l : Limits) (s : Server) : Type 0 where
  pub counted : s.claimed ≡ length s.ready + length s.taken
  pub lone : unconfirmed s.ready + unconfirmed s.taken ≤ 1
  pub active : s.claimed ≤ l.max_active
  pub waiting : length s.pending ≤ l.limit
  pub at_work : length s.working ≤ l.workers

module _ (l : Limits) where
  finished :
      (s : Server) (fd : ℕ) (working : List ℕ) (result : Option Bool)
      → length working ≤ l.workers
      → IsValid l s
      → IsValid l (finish l s fd working result)
  unfolding finish
  finished s fd working none h v = record {
    counted = v.counted;
    lone = v.lone;
    active = v.active;
    waiting = v.waiting;
    at_work = h;
  }
  finished s fd working (some confirmed) h v = elim (Bool-cases (busy l s confirmed)) [
    | inl refused ↦ rw refused (record {
      counted = v.counted;
      lone = v.lone;
      active = v.active;
      waiting = v.waiting;
      at_work = h;
    })
    | inr free ↦ rw free (record {
      counted = omega (
        arith,
        v.counted,
        length-append s.ready (record { fd = fd; confirmed = confirmed } ∷ []),
      );
      lone = ground (
        arith,
        unconfirmed-append s.ready (record { fd = fd; confirmed = confirmed } ∷ []),
        unconfirmed_le s.ready,
        unconfirmed_le s.taken,
      );
      active = ground arith;
      waiting = v.waiting;
      at_work = h;
    })
  ]

  new_server-IsValid : IsValid l new_server
  unfolding new_server
  new_server-IsValid = record {
    counted = refl;
    lone = omega arith;
    active = omega arith;
    waiting = omega arith;
    at_work = omega arith;
  }

  accept_one-IsValid : (s : Server) (fd : ℕ) → IsValid l s → IsValid l (accept_one l s fd)
  unfolding accept_one
  accept_one-IsValid s fd v = elim (Bool-cases (s.stop || leb l.limit (length s.pending))) [
    | inl full ↦ rw full (record {
      counted = v.counted;
      lone = v.lone;
      active = v.active;
      waiting = v.waiting;
      at_work = v.at_work;
    })
    | inr room ↦ rw room (record {
      counted = v.counted;
      lone = v.lone;
      active = v.active;
      waiting = ground (arith, length-append s.pending (fd ∷ []));
      at_work = v.at_work;
    })
  ]

  begin-IsValid : (s : Server) → length s.working < l.workers → IsValid l s → IsValid l (begin s)
  unfolding begin
  begin-IsValid s h v = elim (Bool-cases s.stop) [
    | inl stopped ↦ rw stopped (record {
      counted = v.counted;
      lone = v.lone;
      active = v.active;
      waiting = v.waiting;
      at_work = v.at_work;
    })
    | inr runs ↦ elim (List-cases s.pending) [
      | inl e ↦ rw (runs, e) v
      | inr (fd, fds, e) ↦
          rw (runs, e)
            (record {
              counted = v.counted;
              lone = v.lone;
              active = v.active;
              waiting = omega (arith, v.waiting, ap length e);
              at_work = omega arith;
            })
    ]
  ]

  finish-IsValid :
      (s : Server) (fd : ℕ) (before after : List ℕ) (result : Option Bool)
      → s.working ≡ before ++ fd ∷ after
      → IsValid l s
      → IsValid l (finish l s fd (before ++ after) result)
  unfolding finish
  finish-IsValid s fd before after result e v =
      let n = length-append before (fd ∷ after) in
      let m = length-append before after in
      let fewer : length (before ++ after) ≤ l.workers =
        omega (arith, n, m, ap length e, v.at_work) in
      finished s fd (before ++ after) result fewer v

  take_from-IsValid :
      (s : Server) (cs : List Connection)
      → s.ready ≡ cs
      → IsValid l s
      → IsValid l (take_from s cs).0
  take_from-IsValid s [] e v = v
  take_from-IsValid s (c ∷ cs) e v = record {
    counted = omega (arith, v.counted, ap length e, length-append s.taken (c ∷ []));
    lone = ground (arith, v.lone, ap unconfirmed e, unconfirmed-append s.taken (c ∷ []));
    active = v.active;
    waiting = v.waiting;
    at_work = v.at_work;
  }

  take_ready-IsValid : (s : Server) → IsValid l s → IsValid l (take_ready s).0
  unfolding take_ready
  take_ready-IsValid s v = take_from-IsValid s s.ready refl v

  closed-IsValid :
      (s : Server) (c : Connection) (before after : List Connection)
      → s.taken ≡ before ++ c ∷ after
      → IsValid l s
      → IsValid l (closed s (before ++ after))
  unfolding closed
  closed-IsValid s c before after e v =
      let n = length-append before (c ∷ after) in
      let m = length-append before after in
      let some_left : (s.claimed == 0) ≡ false = ground (arith, v.counted, n, ap length e) in
      record {
        counted = rw some_left (omega (arith, v.counted, n, m, ap length e));
        lone = ground (
          arith,
          v.lone,
          ap unconfirmed e,
          unconfirmed-append before (c ∷ after),
          unconfirmed-append before after,
        );
        active = rw some_left (omega (arith, v.active));
        waiting = v.waiting;
        at_work = v.at_work;
      }

  -- In every interleaving of the threads the claimed connections are those ready and those taken
  -- and not closed, no more than the limit of active ones and at most one of them not confirmed;
  -- the pending sockets are within their limit and the handshakes within the number of workers.
  pub Reached-IsValid : (s : Server) → Reached l s → IsValid l s
  Reached-IsValid _ begun = new_server-IsValid
  Reached-IsValid _ (later r (accepts s fd)) = accept_one-IsValid s fd (Reached-IsValid s r)
  Reached-IsValid _ (later r (begins s h)) = begin-IsValid s h (Reached-IsValid s r)
  Reached-IsValid _ (later r (finishes s fd before after result e)) =
      finish-IsValid s fd before after result e (Reached-IsValid s r)
  Reached-IsValid _ (later r (takes s)) = take_ready-IsValid s (Reached-IsValid s r)
  Reached-IsValid _ (later r (closes s c before after e)) =
      closed-IsValid s c before after e (Reached-IsValid s r)
  Reached-IsValid _ (later r (stops s)) =
      let v = Reached-IsValid s r in
      record {
        counted = v.counted;
        lone = v.lone;
        active = v.active;
        waiting = v.waiting;
        at_work = v.at_work;
      }
