-- ===== src/JobStore/Pool/Limits.antt =====
-- How many connections there are.
use simple_cwl_xenon_service.Prelude.{
  ℕ, zero, suc, ◌+◌, ◌≤◌, ◌≡◌, Option, none, some, List, [], ◌∷◌, arith, ap, length,
}
use simple_cwl_xenon_service.JobStore.Pool.{
  Pool, Local, executes, local, set_local, with_local, return_to_pool, grab_from,
}

abbrev pub one_held : Option ℕ → ℕ
one_held none = 0
one_held (some d) = 1

-- The number of threads that have a connection.
unfoldable pub holders : List Local → ℕ
holders [] = 0
holders (l ∷ ls) = one_held l.conn + holders ls

-- All connections are in the pool or with a thread, and there are no more of them than threads.
unfoldable pub Limited : Pool → Type 0
unfolding holders
Limited p =
    (length p.connection_pool + holders p.threads ≡ p.opened) × (p.opened ≤ length p.threads)

holders-set_local :
    (i : ℕ) (l : Local) (ls : List Local)
    → holders (set_local i l ls) + one_held (local i ls).conn ≡ holders ls + one_held l.conn
unfolding holders set_local local
holders-set_local zero l [] = omega arith
holders-set_local (suc i) l [] = omega (arith, holders-set_local i l [])
holders-set_local zero l (k ∷ ls) = omega arith
holders-set_local (suc i) l (k ∷ ls) = omega (arith, holders-set_local i l ls)

length-set_local : (i : ℕ) (l : Local) (ls : List Local) → length ls ≤ length (set_local i l ls)
unfolding set_local
length-set_local zero l [] = omega arith
length-set_local (suc i) l [] = omega arith
length-set_local zero l (k ∷ ls) = omega arith
length-set_local (suc i) l (k ∷ ls) = omega (arith, length-set_local i l ls)

one_held_le : (o : Option ℕ) → one_held o ≤ 1
one_held_le none = omega arith
one_held_le (some d) = omega arith

holders_le : (ls : List Local) → holders ls ≤ length ls
unfolding holders
holders_le [] = omega arith
holders_le (l ∷ ls) = omega (arith, holders_le ls, one_held_le l.conn)

pub with_local-Limited :
    (i : ℕ) (l : Local) (p : Pool)
    → l.conn ≡ (local i p.threads).conn
    → Limited p
    → Limited (with_local i l p)
unfolding Limited
with_local-Limited i l p same h = (
  omega (arith, h.0, holders-set_local i l p.threads, ap one_held same),
  omega (arith, h.1, length-set_local i l p.threads),
)

pub grab-Limited :
    (i : ℕ) (l : Local) (cs : List ℕ) (p : Pool)
    → (local i p.threads).conn ≡ none
    → l.conn ≡ some (grab_from i cs p).0
    → Limited (record p { connection_pool = cs })
    → Limited (with_local i l (grab_from i cs p).1)
unfolding Limited
grab-Limited i l [] p free got h = (
  omega (arith, h.0, holders-set_local i l p.threads, ap one_held free, ap one_held got),
  omega (
    arith,
    h.0,
    holders-set_local i l p.threads,
    ap one_held free,
    ap one_held got,
    holders_le (set_local i l p.threads),
  ),
)
grab-Limited i l (d ∷ ds) p free got h = (
  omega (arith, h.0, holders-set_local i l p.threads, ap one_held free, ap one_held got),
  omega (arith, h.1, length-set_local i l p.threads),
)

pub return_to_pool-Limited :
    (i d : ℕ) (l : Local) (p : Pool)
    → (local i p.threads).conn ≡ some d
    → l.conn ≡ none
    → Limited p
    → Limited (with_local i l (return_to_pool d p))
unfolding Limited
return_to_pool-Limited i d l p had gone h = (
  omega (arith, h.0, holders-set_local i l p.threads, ap one_held had, ap one_held gone),
  omega (arith, h.1, length-set_local i l p.threads),
)

pub executes-Limited :
    (d : ℕ) (p : Pool) → Limited p → Limited (record p { calls = executes d ∷ p.calls })
unfolding Limited
executes-Limited d p h = h
