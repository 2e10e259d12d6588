-- ===== src/JobStore/Pool/Refinement.antt =====
-- What `with self._store:` promises to the one thread of a process such as the back end: blocks that
-- nest.
use simple_cwl_xenon_service.Prelude.{
  ℕ, zero, suc, ◌≡◌, refl, false, Option, none, some, List, [], ◌∷◌, ◌==◌, if◌then◌else◌, arith,
  inl, inr, Bool-cases, subst, ==_refl, ltb, true, ap,
}
use mathlib.Core.Option.{some-injective}
use simple_cwl_xenon_service.Prelude.Int.{pos, +ℤ-succ, +ℤ-pred}
use simple_cwl_xenon_service.Exception.{ok}
use simple_cwl_xenon_service.JobStore.Pool.{
  Pool, Local, Call, enters, exits, statements, local, set_local, with_local, return_to_pool,
  grab_from, enter, exit, execute, step, run, enter_as, leave, enter_first, thread_of, and_then,
  Reply,
}
use simple_cwl_xenon_service.JobStore.Pool.Laws.{
  Tracked, Clean, with_local-Tracked, grab-Tracked, return_to_pool-Tracked, grab-Clean,
  return_to_pool-Clean, executes-Clean, with_local-Clean, threads-grab, executes-Tracked,
  held-opened,
}
use simple_cwl_xenon_service.JobStore.Pool.Limits.{
  Limited, with_local-Limited, grab-Limited, return_to_pool-Limited, executes-Limited,
}

-- The abstract view: the number of blocks that each thread is in.
abbrev pub Nesting : Type 0
Nesting = ℕ → ℕ

abbrev pub deepen : ℕ → ℕ → Nesting → Nesting
deepen i n d = λ j. if j == i then n else d j

abbrev pub leave_block : ℕ → ℕ → Nesting → Option Nesting
leave_block i zero d = none
leave_block i (suc n) d = some (deepen i n d)

abbrev pub in_block : ℕ → Nesting → Option Nesting
in_block zero d = none
in_block (suc n) d = some d

-- A block is left after it was entered, and statements run inside of one.
unfoldable pub nest : Call → Nesting → Option Nesting
nest (enters i) d = some (deepen i (suc (d i)) d)
nest (exits i) d = leave_block i (d i) d
nest (statements i) d = in_block (d i) d

abbrev then_nest : Option Nesting → (Nesting → Option Nesting) → Option Nesting
then_nest none f = none
then_nest (some d) f = f d

unfoldable pub nest_all : List Call → Nesting → Option Nesting
unfolding nest
nest_all [] d = some d
nest_all (c ∷ cs) d = then_nest (nest c d) (nest_all cs)

-- The data of a thread that is in that many blocks: a connection if and only if it is in one.
abbrev pub AtDepth : ℕ → Local → Type 0
AtDepth zero l = l.conn ≡ none
AtDepth (suc n) l = (c : ℕ) × (l.conn ≡ some c) × (l.recursion_depth ≡ some (pos (suc n)))

-- Thread i has opened every connection.
abbrev pub AllOpened : ℕ → Pool → Type 0
AllOpened i p = (c : ℕ) → ltb c p.opened ≡ true → p.opener c ≡ i

abbrev pub AllBy : ℕ → List Call → Type 0
AllBy i [] = Unit
AllBy i (call ∷ calls) = (thread_of call ≡ i) × AllBy i calls

-- The pool while only thread i uses it.
pub record Sound (i : ℕ) (d : Nesting) (p : Pool) : Type 0 where
  pub unlocked : p.locked_by ≡ none
  pub all_opened : AllOpened i p
  pub depths : (j : ℕ) → AtDepth (d j) (local j p.threads)
  pub tracked : Tracked p
  pub clean : Clean p
  pub limited : Limited p

local-set_local :
    (i j : ℕ) (l : Local) (ls : List Local)
    → local j (set_local i l ls) ≡ (if j == i then l else local j ls)
unfolding local set_local
local-set_local zero zero l [] = ground arith
local-set_local zero (suc j) l [] = ground arith
local-set_local (suc i) zero l [] = ground arith
local-set_local (suc i) (suc j) l [] = ground (arith, local-set_local i j l [])
local-set_local zero zero l (k ∷ ls) = ground arith
local-set_local zero (suc j) l (k ∷ ls) = ground arith
local-set_local (suc i) zero l (k ∷ ls) = ground arith
local-set_local (suc i) (suc j) l (k ∷ ls) = ground (arith, local-set_local i j l ls)

-- Changing one thread's data, and its depth.
depths-set_local :
    (i n : ℕ) (l : Local) (d : Nesting) (ls : List Local)
    → ((j : ℕ) → AtDepth (d j) (local j ls))
    → AtDepth n l
    → (j : ℕ) → AtDepth (deepen i n d j) (local j (set_local i l ls))
depths-set_local i n l d ls h k j =
    rw (local-set_local i j l ls)
      (elim (Bool-cases (j == i)) [ inl e ↦ rw e k | inr e ↦ rw e (h j) ])

-- The call returns, and keeps the pool in order.
abbrev Steps : ℕ → Call → Nesting → Pool → Type 0
Steps i call d p = (after : Pool) × (step call p ≡ some (ok tt, after)) × Sound i d after

unlocked-grab :
    (i : ℕ) (cs : List ℕ) (p : Pool) → p.locked_by ≡ none → (grab_from i cs p).1.locked_by ≡ none
unlocked-grab i [] p h = h
unlocked-grab i (c ∷ cs) p h = h

grab-AllOpened : (i : ℕ) (cs : List ℕ) (p : Pool) → AllOpened i p → AllOpened i (grab_from i cs p).1
grab-AllOpened i [] p h c less = elim (Bool-cases (c == p.opened)) [
  | inl e ↦ rw e refl
  | inr n ↦ rw n (h c (ground arith))
]
grab-AllOpened i (d ∷ ds) p h c less = h c less

enter_as-free :
    (i : ℕ) (l : Local) (p : Pool)
    → l.conn ≡ none
    → p.locked_by ≡ none
    → enter_as i l l.conn p ≡ some (ok tt, enter_first i p)
enter_as-free i l p free unlocked = rw (free, unlocked) refl

enter_as-again :
    (i c n : ℕ) (l : Local) (p : Pool)
    → l.conn ≡ some c
    → l.recursion_depth ≡ some (pos (suc n))
    → enter_as i l l.conn p
      ≡ some (
        ok tt,
        with_local i (record { conn = l.conn; recursion_depth = some (pos (suc (suc n))) }) p,
      )
enter_as-again i c n l p had depth = rw (conn_is l.conn had, depth, +ℤ-succ (suc n)) refl
  where
    conn_is : (o : Option ℕ) → o ≡ some c → enter_as i l o p ≡ enter_as i l (some c) p
    conn_is o e = ap (λ x. enter_as i l x p) e

leave-last :
    (i c : ℕ) (l : Local) (p : Pool)
    → l.conn ≡ some c
    → l.recursion_depth ≡ some (pos 1)
    → p.locked_by ≡ none
    → p.opener c ≡ i
    → leave i l l.recursion_depth p
      ≡ some (
        ok tt,
        with_local i (record { conn = none; recursion_depth = some (pos 0) }) (return_to_pool c p),
      )
leave-last i c l p had depth unlocked own =
    rw (depth, unlocked, had, own, ==_refl i, +ℤ-pred 0) refl

leave-inner :
    (i n : ℕ) (l : Local) (p : Pool)
    → l.recursion_depth ≡ some (pos (suc (suc n)))
    → leave i l l.recursion_depth p
      ≡ some
          (ok tt, with_local i (record { conn = l.conn; recursion_depth = some (pos (suc n)) }) p)
leave-inner i n l p depth = rw (depth, not_one, +ℤ-pred (suc n)) refl
  where
    not_one : (suc (suc n) == 1) ≡ false
    not_one = ground arith

enter-Steps :
    (i n : ℕ) (d : Nesting) (p : Pool)
    → AtDepth n (local i p.threads)
    → Sound i d p
    → Steps i (enters i) (deepen i (suc n) d) p
unfolding step enter
enter-Steps i zero d p free h = (
  _,
  enter_as-free i (local i p.threads) p free h.unlocked,
  record {
    unlocked = unlocked-grab i p.connection_pool p h.unlocked;
    all_opened = grab-AllOpened i p.connection_pool p h.all_opened;
    depths = λ j.
        rw (threads-grab i p.connection_pool p)
          (depths-set_local i 1 _ d p.threads h.depths (_, refl, refl) j);
    tracked = grab-Tracked i _ p free refl h.tracked;
    clean = grab-Clean i _ p.connection_pool p h.clean;
    limited = grab-Limited i _ p.connection_pool p free refl h.limited;
  },
)
enter-Steps i (suc n) d p (c, had, depth) h = (
  _,
  enter_as-again i c n (local i p.threads) p had depth,
  record {
    unlocked = h.unlocked;
    all_opened = h.all_opened;
    depths = depths-set_local i (suc (suc n)) _ d p.threads h.depths (c, had, refl);
    tracked = with_local-Tracked i _ p refl h.tracked;
    clean = with_local-Clean i _ p h.clean;
    limited = with_local-Limited i _ p refl h.limited;
  },
)

-- Leaving the outermost block gives the connection back, and leaving an inner one keeps it.
exit-Steps :
    (i n : ℕ) (d : Nesting) (p : Pool)
    → AtDepth (suc n) (local i p.threads)
    → Sound i d p
    → Steps i (exits i) (deepen i n d) p
unfolding step exit
exit-Steps i zero d p (c, had, depth) h = (
  _,
  leave-last i c (local i p.threads) p had depth h.unlocked
      (h.all_opened c (held-opened c i p had h.tracked)),
  record {
    unlocked = h.unlocked;
    all_opened = h.all_opened;
    depths = depths-set_local i 0 _ d p.threads h.depths refl;
    tracked = return_to_pool-Tracked i c _ p had refl h.tracked;
    clean = return_to_pool-Clean i c _ p h.clean;
    limited = return_to_pool-Limited i c _ p had refl h.limited;
  },
)
exit-Steps i (suc n) d p (c, had, depth) h = (
  _,
  leave-inner i n (local i p.threads) p depth,
  record {
    unlocked = h.unlocked;
    all_opened = h.all_opened;
    depths = depths-set_local i (suc n) _ d p.threads h.depths (c, had, refl);
    tracked = with_local-Tracked i _ p refl h.tracked;
    clean = with_local-Clean i _ p h.clean;
    limited = with_local-Limited i _ p refl h.limited;
  },
)

execute-Steps :
    (i n : ℕ) (d : Nesting) (p : Pool)
    → AtDepth (suc n) (local i p.threads)
    → Sound i d p
    → Steps i (statements i) d p
unfolding step execute
execute-Steps i n d p (c, had, depth) h = (
  _,
  rw (had, h.all_opened c (held-opened c i p had h.tracked), ==_refl i) refl,
  record {
    unlocked = h.unlocked;
    all_opened = h.all_opened;
    depths = h.depths;
    tracked = executes-Tracked c p h.tracked;
    clean = executes-Clean i c p had h.tracked h.clean;
    limited = executes-Limited c p h.limited;
  },
)

-- A call of the thread, whose own depth is known.
step-Steps :
    (i : ℕ) (call : Call) (d after : Nesting) (p : Pool)
    → thread_of call ≡ i
    → Sound i d p
    → nest call d ≡ some after
    → Steps i call after p
unfolding nest
step-Steps i (enters j) d after p same h e = rw same (
    subst (λ x. Steps i (enters i) x p) (some-injective _ _ (rw same at e))
      (enter-Steps i (d i) d p (h.depths i) h))
step-Steps i (exits j) d after p same h e = rw same (at_depth (d i) (h.depths i) (rw same at e))
  where
    at_depth :
        (n : ℕ)
        → AtDepth n (local i p.threads)
        → leave_block i n d ≡ some after
        → Steps i (exits i) after p
    at_depth zero k e = ground arith
    at_depth (suc n) k e =
        subst (λ x. Steps i (exits i) x p) (some-injective _ _ e) (exit-Steps i n d p k h)
step-Steps i (statements j) d after p same h e =
    rw same (at_depth (d i) (h.depths i) (rw same at e))
  where
    at_depth :
        (n : ℕ)
        → AtDepth n (local i p.threads)
        → in_block n d ≡ some after
        → Steps i (statements i) after p
    at_depth zero k e = ground arith
    at_depth (suc n) k e =
        subst (λ x. Steps i (statements i) x p) (some-injective _ _ e) (execute-Steps i n d p k h)

-- A sequence of calls returns, into a pool in order.
abbrev Runs : ℕ → Nesting → Reply → Type 0
Runs i after reply = (result : Pool) × (reply ≡ some (ok tt, result)) × Sound i after result

by_nesting :
    (i : ℕ) (call : Call) (calls : List Call) (d after : Nesting) (p : Pool)
    → thread_of call ≡ i
    → Sound i d p
    → (o : Option Nesting) → nest call d ≡ o
    → then_nest o (nest_all calls) ≡ some after
    → ((between : Nesting) (q : Pool)
        → Sound i between q
        → nest_all calls between ≡ some after
        → Runs i after (run calls q))
    → Runs i after (and_then (run calls) (step call p))
by_nesting i call calls d after p same h none f e rest = ground arith
by_nesting i call calls d after p same h (some between) f e rest =
    let (q, returns, sound) = step-Steps i call d between p same h f in
    rw returns (rest between q sound e)

-- As long as one thread uses the store, as in the back end: if it leaves only blocks that it is in and
-- runs its statements inside of one, in whatever order, then every call returns, without an exception
-- and without waiting for ever; the thread has one connection while it is in a block, which it keeps
-- until it leaves the outermost one, every connection is in the pool or with the thread, none in
-- the pool has an open transaction, and there are no more connections than threads. The database is
-- assumed to answer.
pub run-Sound :
    (i : ℕ) (calls : List Call) (d after : Nesting) (p : Pool)
    → AllBy i calls
    → Sound i d p
    → nest_all calls d ≡ some after
    → (result : Pool) × (run calls p ≡ some (ok tt, result)) × Sound i after result
unfolding nest_all run
run-Sound i [] d after p by h e = (p, refl, subst (λ x. Sound i x p) (some-injective _ _ e) h)
run-Sound i (call ∷ calls) d after p by h e =
    by_nesting i call calls d after p by.0 h (nest call d) refl e
      λ between q sound f. run-Sound i calls between after q by.1 sound f
