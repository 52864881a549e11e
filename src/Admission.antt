-- ===== src/Admission.antt =====
-- AdmissionServer of cdn/src/admission.cpp. Each step is what one thread does under the lock; the
-- handshake of a worker stands between two steps, and its result is an argument of the second.
pub mod Claims
use pacetun.Base.{
  ℕ, zero, suc, ◌+◌, ◌-◌, List, [], ◌∷◌, ◌++◌, Bool, true, false, not, ◌&&◌, ◌||◌, Option, none,
  some, ltb, leb, ◌==◌, if◌then◌else◌, length, add64,
}

-- limit_ and max_active_, and the number of worker threads.
pub record Limits : Type 0 where
  pub workers : ℕ
  pub limit : ℕ
  pub max_active : ℕ

-- An AdmittedConnection that counts in claimed_, and whether its handshake was confirmed.
pub record Connection : Type 0 where
  pub fd : ℕ
  pub confirmed : Bool

-- `working` are the sockets in a handshake, `taken` the connections that left by `take` and live on.
pub record Server : Type 0 where
  pub pending : List ℕ
  pub working : List ℕ
  pub ready : List Connection
  pub taken : List Connection
  pub claimed : ℕ
  pub stop : Bool
  pub rejected : ℕ
  pub overloaded : ℕ

-- The checks of the constructor; `none` is its exception.
unfoldable pub new_limits : ℕ → ℕ → ℕ → ℕ → Option Limits
new_limits timeout workers limit pool_connections =
    if ltb workers 1
      || ltb 16 workers
      || ltb limit 1
      || ltb 128 limit
      || ltb timeout 100
      || ltb 120000 timeout
      || ltb pool_connections 1
      || ltb 4 pool_connections
    then none
    else some (record {
      workers = workers;
      limit = limit;
      max_active = if ltb 1 pool_connections then pool_connections + 1 else 2;
    })

unfoldable pub new_server : Server
new_server = record {
  pending = [];
  working = [];
  ready = [];
  taken = [];
  claimed = 0;
  stop = false;
  rejected = 0;
  overloaded = 0;
}

-- accept_loop, with a socket accepted.
unfoldable pub accept_one : Limits → Server → ℕ → Server
accept_one l s fd =
    if s.stop || leb l.limit (length s.pending)
    then record s { overloaded = add64 s.overloaded 1 }
    else record s { pending = s.pending ++ fd ∷ [] }

-- The first lines of worker: the front of the queue goes to an idle worker.
unfoldable pub begin : Server → Server
begin s =
    if s.stop
    then s
    else elim s.pending [ [] ↦ s | fd ∷ fds ↦ record s { pending = fds; working = fd ∷ s.working } ]

-- `stop_||count>=max_active_||(count>0&&!confirmed)`
abbrev pub busy : Limits → Server → Bool → Bool
busy l s confirmed = s.stop || leb l.max_active s.claimed || (not (s.claimed == 0) && not confirmed)

-- The rest of worker, with the sockets still at work: `none` is a handshake that failed, `some` tells
-- whether it was confirmed.
unfoldable pub finish : Limits → Server → ℕ → List ℕ → Option Bool → Server
finish l s fd working none = record s { working = working; rejected = add64 s.rejected 1 }
finish l s fd working (some confirmed) =
    if busy l s confirmed
    then record s { working = working; rejected = add64 s.rejected 1 }
    else record s {
      working = working;
      claimed = s.claimed + 1;
      ready = s.ready ++ record { fd = fd; confirmed = confirmed } ∷ [];
    }

-- The end of take: the front of the connections that are ready.
abbrev pub take_from : Server → List Connection → Server × Option Connection
take_from s [] = (s, none)
take_from s (c ∷ cs) = (record s { ready = cs; taken = s.taken ++ c ∷ [] }, some c)

unfoldable pub take_ready : Server → Server × Option Connection
take_ready s = take_from s s.ready

-- The destructor of a connection that was taken; `taken` are the others. fetch_sub wraps at zero.
unfoldable pub closed : Server → List Connection → Server
closed s taken = record s {
  taken = taken;
  claimed = if s.claimed == 0 then 4294967295 else s.claimed - 1;
}
