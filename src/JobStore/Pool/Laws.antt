-- ===== src/JobStore/Pool/Laws.antt =====
-- Where the connections of the pool are.
use simple_cwl_xenon_service.Prelude.{
  ℕ, zero, suc, ◌+◌, ◌≤◌, ◌≡◌, refl, Bool, true, false, Option, none, some, List, [], ◌∷◌, ◌==◌,
  ltb, if◌then◌else◌, arith, ap,
}
use simple_cwl_xenon_service.JobStore.Pool.{
  Pool, Local, DbCall, connects, executes, rolls_back, local, set_local, with_local, return_to_pool,
  grab_from, grab,
}

abbrev pub one_if : Bool → ℕ
one_if true = 1
one_if false = 0

unfoldable pub occurrences : ℕ → List ℕ → ℕ
occurrences c [] = 0
occurrences c (d ∷ ds) = one_if (c == d) + occurrences c ds

abbrev pub holds : ℕ → Option ℕ → ℕ
holds c none = 0
holds c (some d) = one_if (c == d)

-- The threads that hold a connection.
unfoldable pub held : ℕ → List Local → ℕ
held c [] = 0
held c (l ∷ ls) = holds c l.conn + held c ls

-- Each connection that was opened is in one place: in the pool, or with one thread.
unfoldable pub Tracked : Pool → Type 0
unfolding occurrences held
Tracked p = (c : ℕ) → occurrences c p.connection_pool + held c p.threads ≡ one_if (ltb c p.opened)

abbrev pub subject : DbCall → ℕ
subject (connects c) = c
subject (executes c) = c
subject (rolls_back c) = c

abbrev pub ends_clean : DbCall → Bool
ends_clean (executes c) = false
ends_clean _ = true

-- The last call on the connection is not a statement, so that no transaction is open.
unfoldable pub is_clean : ℕ → List DbCall → Bool
is_clean c [] = true
is_clean c (call ∷ calls) = if c == subject call then ends_clean call else is_clean c calls

-- No connection in the pool has an open transaction.
unfoldable pub Clean : Pool → Type 0
unfolding occurrences is_clean
Clean p = (c : ℕ) → 1 ≤ occurrences c p.connection_pool → is_clean c p.calls ≡ true

pub held-set_local :
    (c i : ℕ) (l : Local) (ls : List Local)
    → held c (set_local i l ls) + holds c (local i ls).conn ≡ held c ls + holds c l.conn
unfolding held set_local local
held-set_local c zero l [] = omega arith
held-set_local c (suc i) l [] = omega (arith, held-set_local c i l [])
held-set_local c zero l (k ∷ ls) = omega arith
held-set_local c (suc i) l (k ∷ ls) = omega (arith, held-set_local c i l ls)

pub held-local : (c i : ℕ) (ls : List Local) → holds c (local i ls).conn ≤ held c ls
unfolding held local
held-local c i [] = omega arith
held-local c zero (k ∷ ls) = omega arith
held-local c (suc i) (k ∷ ls) = omega (arith, held-local c i ls)

holds_ap : (c : ℕ) {o q : Option ℕ} → o ≡ q → holds c o ≡ holds c q
holds_ap c = ap (holds c)

-- A thread that keeps its connection.
pub with_local-Tracked :
    (i : ℕ) (l : Local) (p : Pool)
    → l.conn ≡ (local i p.threads).conn
    → Tracked p
    → Tracked (with_local i l p)
unfolding Tracked
with_local-Tracked i l p same t c =
    omega (arith, t c, held-set_local c i l p.threads, holds_ap c same)

occurrences-grab :
    (c i : ℕ) (cs : List ℕ) (p : Pool)
    → occurrences c (grab_from i cs p).1.connection_pool
        + one_if (c == (grab_from i cs p).0)
        + one_if (ltb c p.opened)
      ≡ occurrences c cs + one_if (ltb c (grab_from i cs p).1.opened)
unfolding occurrences
occurrences-grab c i [] p = ground arith
occurrences-grab c i (d ∷ ds) p = omega arith

pub threads-grab : (i : ℕ) (cs : List ℕ) (p : Pool) → (grab_from i cs p).1.threads ≡ p.threads
threads-grab i [] p = refl
threads-grab i (d ∷ ds) p = refl

-- A thread without a connection that gets one.
pub grab-Tracked :
    (i : ℕ) (l : Local) (p : Pool)
    → (local i p.threads).conn ≡ none
    → l.conn ≡ some (grab i p).0
    → Tracked p
    → Tracked (with_local i l (grab i p).1)
unfolding Tracked
grab-Tracked i l p free got t c = rw (threads-grab i p.connection_pool p) (
    omega (
      arith,
      t c,
      held-set_local c i l p.threads,
      holds_ap c free,
      holds_ap c got,
      occurrences-grab c i p.connection_pool p,
    ))

-- A thread that gives its connection back.
pub return_to_pool-Tracked :
    (i d : ℕ) (l : Local) (p : Pool)
    → (local i p.threads).conn ≡ some d
    → l.conn ≡ none
    → Tracked p
    → Tracked (with_local i l (return_to_pool d p))
unfolding Tracked occurrences
return_to_pool-Tracked i d l p had gone t c =
    omega (arith, t c, held-set_local c i l p.threads, holds_ap c had, holds_ap c gone)

pub with_local-Clean : (i : ℕ) (l : Local) (p : Pool) → Clean p → Clean (with_local i l p)
unfolding Clean
with_local-Clean i l p h c k = h c k

pub grab-Clean :
    (i : ℕ) (l : Local) (cs : List ℕ) (p : Pool)
    → Clean (record p { connection_pool = cs })
    → Clean (with_local i l (grab_from i cs p).1)
unfolding Clean occurrences is_clean
grab-Clean i l [] p h c k = ground arith
grab-Clean i l (d ∷ ds) p h c k = h c (omega arith)

pub return_to_pool-Clean :
    (i d : ℕ) (l : Local) (p : Pool) → Clean p → Clean (with_local i l (return_to_pool d p))
unfolding Clean occurrences is_clean
return_to_pool-Clean i d l p h c k = ground (arith, h c)

-- A thread uses only its own connection, which is not in the pool.
pub executes-Clean :
    (i d : ℕ) (p : Pool)
    → (local i p.threads).conn ≡ some d
    → Tracked p
    → Clean p
    → Clean (record p { calls = executes d ∷ p.calls })
unfolding Tracked Clean is_clean
executes-Clean i d p had t h c k =
    ground (arith, h c k, t c, held-local c i p.threads, holds_ap c had)

pub executes-Tracked :
    (d : ℕ) (p : Pool) → Tracked p → Tracked (record p { calls = executes d ∷ p.calls })
unfolding Tracked
executes-Tracked d p h c = h c

-- A connection that a thread holds was opened.
pub held-opened :
    (c i : ℕ) (p : Pool) → (local i p.threads).conn ≡ some c → Tracked p → ltb c p.opened ≡ true
unfolding Tracked
held-opened c i p had t = ground (arith, t c, held-local c i p.threads, holds_ap c had)
