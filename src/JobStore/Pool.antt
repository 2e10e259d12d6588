-- ===== src/JobStore/Pool.antt =====
-- cerise/job_store/sqlite_job_store.py, `__enter__` and `__exit__`: the connections to the database
-- that the threads share. The n-th call of `sqlite3.connect` opens connection n. A connection is for
-- the thread that opened it: its methods raise ProgrammingError on any other thread, since `connect` is
-- called without `check_same_thread=False`. Otherwise the database is assumed to answer. The pool lock
-- is held while the pool is looked at and changed, and the rest is local to a thread, so a call is one
-- step. An exception leaves it locked by its thread, which can acquire it again, since it is an RLock;
-- any other thread then waits for ever: such a call has the result `none`.
pub mod Laws
pub mod Limits
pub mod Refinement
use simple_cwl_xenon_service.Prelude.{
  ℕ, zero, suc, Bool, true, false, not, Option, none, some, List, [], ◌∷◌, ◌==◌, if◌then◌else◌,
}
use simple_cwl_xenon_service.Prelude.Int.{ℤ, pos, negsuc, ◌+ℤ◌}
use simple_cwl_xenon_service.Exception.{
  Outcome, ok, raised, attribute_error, key_error, programming_error,
}

-- `_thread_local_data` of one thread; `none` for an attribute that it does not have.
pub record Local : Type 0 where
  pub conn : Option ℕ
  pub recursion_depth : Option ℤ

abbrev pub no_data : Local
no_data = record { conn = none; recursion_depth = none }

-- The calls on connections, the last one first.
pub data DbCall : Type 0 where
  connects executes rolls_back : ℕ → DbCall

-- The store's own fields: the last connection of the Python list is the first of `connection_pool`,
-- `opened` counts the connections made, `opener` is the thread that made each of them, `locked_by` is
-- the thread that left the pool lock locked, and thread i has the i-th element of `threads`.
pub record Pool : Type 0 where
  pub connection_pool : List ℕ
  pub opened : ℕ
  pub opener : ℕ → ℕ
  pub locked_by : Option ℕ
  pub threads : List Local
  pub calls : List DbCall

-- `opener` says nothing of connections that are not opened yet.
abbrev pub init : Pool
init = record {
  connection_pool = [];
  opened = 0;
  opener = λ c. 0;
  locked_by = none;
  threads = [];
  calls = [];
}

unfoldable pub local : ℕ → List Local → Local
local i [] = no_data
local zero (l ∷ ls) = l
local (suc i) (l ∷ ls) = local i ls

unfoldable pub set_local : ℕ → Local → List Local → List Local
set_local zero l [] = l ∷ []
set_local (suc i) l [] = no_data ∷ set_local i l []
set_local zero l (_ ∷ ls) = l ∷ ls
set_local (suc i) l (k ∷ ls) = k ∷ set_local i l ls

abbrev pub with_local : ℕ → Local → Pool → Pool
with_local i l p = record p { threads = set_local i l p.threads }

-- `self._pool_lock.acquire()` on thread i never returns.
abbrev pub waits : ℕ → Option ℕ → Bool
waits i none = false
waits i (some j) = not (j == i)

-- How a call ends: it waits for ever, or returns or raises.
abbrev pub Reply : Type 0
Reply = Option (Outcome Unit × Pool)

-- A connection from the pool, or a new one, which thread i opens.
abbrev pub grab_from : ℕ → List ℕ → Pool → ℕ × Pool
grab_from i [] p = (
  p.opened,
  record p {
    connection_pool = [];
    opened = suc p.opened;
    opener = λ c. if c == p.opened then i else p.opener c;
    calls = connects p.opened ∷ p.calls;
  },
)
grab_from i (c ∷ cs) p = (c, record p { connection_pool = cs })

abbrev pub grab : ℕ → Pool → ℕ × Pool
grab i p = grab_from i p.connection_pool p

abbrev pub enter_first : ℕ → Pool → Pool
enter_first i p =
    with_local i (record { conn = some (grab i p).0; recursion_depth = some (pos 1) }) (grab i p).1

abbrev pub enter_again : ℕ → Local → Option ℤ → Pool → Reply
enter_again i l none p = some (raised attribute_error, p)
enter_again i l (some depth) p =
    some (ok tt, with_local i (record { conn = l.conn; recursion_depth = some (depth +ℤ pos 1) }) p)

-- `__enter__` on thread i
abbrev pub enter_as : ℕ → Local → Option ℕ → Pool → Reply
enter_as i l none p = if waits i p.locked_by then none else some (ok tt, enter_first i p)
enter_as i l (some c) p = enter_again i l l.recursion_depth p

unfoldable pub enter : ℕ → Pool → Reply
unfolding local set_local ◌+ℤ◌
enter i p = enter_as i (local i p.threads) (local i p.threads).conn p

-- `recursion_depth == 1`
abbrev pub is_one : ℤ → Bool
is_one (pos n) = n == 1
is_one (negsuc n) = false

-- The connection is rolled back and put at the end of the pool.
abbrev pub return_to_pool : ℕ → Pool → Pool
return_to_pool c p = record p {
  connection_pool = c ∷ p.connection_pool;
  calls = rolls_back c ∷ p.calls;
}

-- `connection.rollback()` and what follows; an exception leaves the lock locked and the connection in
-- neither place.
abbrev pub give_back : ℕ → ℤ → ℕ → Pool → Reply
give_back i depth c p =
    if p.opener c == i
    then some (
      ok tt,
      with_local i (record { conn = none; recursion_depth = some (depth +ℤ negsuc 0) })
          (return_to_pool c p),
    )
    else some (
      raised programming_error,
      with_local i (record { conn = none; recursion_depth = some depth })
          (record p { locked_by = some i }),
    )

-- Under the lock; `pop('conn')` raises KeyError where there is no connection.
abbrev pub leave_last : ℕ → ℤ → Option ℕ → Pool → Reply
leave_last i depth none p = some (raised key_error, record p { locked_by = some i })
leave_last i depth (some c) p = give_back i depth c p

abbrev pub leave_inner : ℕ → Local → ℤ → Pool → Reply
leave_inner i l depth p =
    some
      (ok tt, with_local i (record { conn = l.conn; recursion_depth = some (depth +ℤ negsuc 0) }) p)

abbrev pub leave : ℕ → Local → Option ℤ → Pool → Reply
leave i l none p = some (raised attribute_error, p)
leave i l (some depth) p =
    if is_one depth
    then if waits i p.locked_by then none else leave_last i depth l.conn p
    else leave_inner i l depth p

-- `__exit__` on thread i
unfoldable pub exit : ℕ → Pool → Reply
unfolding local set_local ◌+ℤ◌
exit i p = leave i (local i p.threads) (local i p.threads).recursion_depth p

abbrev execute_on : ℕ → Option ℕ → Pool → Reply
execute_on i none p = some (raised attribute_error, p)
execute_on i (some c) p =
    if p.opener c == i
    then some (ok tt, record p { calls = executes c ∷ p.calls })
    else some (raised programming_error, p)

-- `self._thread_local_data.conn.execute(...)`, as in every other method, on thread i
unfoldable pub execute : ℕ → Pool → Reply
unfolding local
execute i p = execute_on i (local i p.threads).conn p

-- The calls of all threads, in the order in which they happen.
pub data Call : Type 0 where
  enters exits statements : (thread : ℕ) → Call

abbrev pub thread_of : Call → ℕ
thread_of (enters i) = i
thread_of (exits i) = i
thread_of (statements i) = i

unfoldable pub step : Call → Pool → Reply
unfolding enter exit execute
step (enters i) p = enter i p
step (exits i) p = exit i p
step (statements i) p = execute i p

-- What follows a call that returned.
abbrev pub and_then : (Pool → Reply) → Reply → Reply
and_then f none = none
and_then f (some (ok u, p)) = f p
and_then f (some (raised e, p)) = some (raised e, p)

-- The calls up to the first one that raises or never returns.
unfoldable pub run : List Call → Pool → Reply
unfolding step
run [] p = some (ok tt, p)
run (c ∷ cs) p = and_then (run cs) (step c p)
