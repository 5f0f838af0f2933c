-- ===== src/Replay/Pool/Counts.antt =====
-- pkg/replay/recovery.go: where the entries and the errors of `Recover` are, while its workers run.
use tieredcache.Base.{
  ℕ, ◌+◌, ◌≡◌, ◌≤◌, refl, true, List, [], ◌∷◌, ◌++◌, Option, none, some, length, set, get_elem?,
  arith, ◌≢◌, suc, zero,
}
use tieredcache.Common.Entry.{error_channel_buffer}
use tieredcache.Replay.Entry.{WalEntry}
use tieredcache.Replay.Pool.{Pool, Worker, idle, failing, finished, worker_after, collected}

abbrev pub held_list : Option WalEntry → List WalEntry
held_list none = []
held_list (some e) = e ∷ []

module _ {E : Type 0} where
  -- The number of errors: of an application, of a worker, and of lists of them.
  abbrev pub of_result : Option E → ℕ
  of_result none = 0
  of_result (some err) = 1

  abbrev pub failures : (WalEntry → Option E) → List WalEntry → ℕ
  failures apply [] = 0
  failures apply (e ∷ es) = of_result (apply e) + failures apply es

  abbrev pub of_worker : Worker E → ℕ
  of_worker idle = 0
  of_worker (failing err) = 1
  of_worker finished = 0

  abbrev pub unsent : List (Worker E) → ℕ
  unsent [] = 0
  unsent (w ∷ ws) = of_worker w + unsent ws

  -- The entries are somewhere on their way, in order; each failure is in the channel or waits to
  -- be sent; the channel is no longer than it may be; and a worker leaves when all is taken.
  pub record IsPool (apply : WalEntry → Option E) (n : ℕ) (entries : List WalEntry) (p : Pool E)
      : Type 0 where
    pub order : p.applied ++ (p.entry_chan ++ (held_list p.held ++ p.waiting)) ≡ entries
    pub errors : failures apply p.applied ≡ length (collected p.error_chan) + unsent p.workers
    pub room : length p.error_chan ≤ error_channel_buffer
    pub size : length p.workers ≡ n
    pub at_end : p.closed ≡ true → held_list p.held ++ p.waiting ≡ []
    pub left :
        (i : ℕ) → get_elem? p.workers i ≡ some finished → (p.closed ≡ true) × (p.entry_chan ≡ [])

  pub failures-append :
      (apply : WalEntry → Option E) (xs : List WalEntry) (e : WalEntry)
      → failures apply (xs ++ e ∷ []) ≡ failures apply xs + of_result (apply e)
  failures-append apply [] e = omega arith
  failures-append apply (x ∷ xs) e = omega (arith, failures-append apply xs e)

  pub collected-append :
      (xs : List (Option E)) (o : Option E)
      → length (collected (xs ++ o ∷ [])) ≡ length (collected xs) + of_result o
  unfolding collected
  collected-append [] none = refl
  collected-append [] (some err) = refl
  collected-append (none ∷ xs) o = collected-append xs o
  collected-append (some x ∷ xs) o = omega (arith, collected-append xs o)

  pub length-collected : (xs : List (Option E)) → length (collected xs) ≤ length xs
  unfolding collected
  length-collected [] = omega arith
  length-collected (none ∷ xs) = omega (arith, length-collected xs)
  length-collected (some x ∷ xs) = omega (arith, length-collected xs)

  pub unsent-set :
      (ws : List (Worker E)) (i : ℕ) (w v : Worker E)
      → get_elem? ws i ≡ some w
      → unsent (set ws i v) + of_worker w ≡ unsent ws + of_worker v
  unsent-set [] i w v at = cc
  unsent-set (x ∷ ws) zero w v at = ground (arith, at)
  unsent-set (x ∷ ws) (suc i) w v at = omega (arith, unsent-set ws i w v at)

  pub of_worker-after : (o : Option E) → of_worker (worker_after o) ≡ of_result o
  of_worker-after none = refl
  of_worker-after (some err) = refl

  pub after_unfinished : (o : Option E) → worker_after o ≢ finished
  after_unfinished none = λ q. cc
  after_unfinished (some err) = λ q. cc

  pub set-left :
      (ws : List (Worker E)) (j : ℕ) (v : Worker E)
      → v ≢ finished
      → (i : ℕ) → get_elem? (set ws j v) i ≡ some finished
      → get_elem? ws i ≡ some finished
  set-left [] j v ne i fin = fin
  set-left (x ∷ ws) zero v ne zero fin = absurd (ne (cc fin))
  set-left (x ∷ ws) zero v ne (suc i) fin = fin
  set-left (x ∷ ws) (suc j) v ne zero fin = fin
  set-left (x ∷ ws) (suc j) v ne (suc i) fin = set-left ws j v ne i fin
