-- ===== src/Replay/Pool/Shrinks.antt =====
-- pkg/replay/recovery.go: each step of the goroutines of `Recover` takes from the work that is left.
use tieredcache.Base.{
  ℕ, ◌+◌, ◌*◌, ◌≡◌, ◌≤◌, ◌<◌, refl, Bool, true, false, List, [], ◌∷◌, Option, none, some, length,
  set, get_elem?, arith, length-append, Bool-cases, inl, inr, suc, zero, ap,
}
use tieredcache.Replay.Entry.{WalEntry}
use tieredcache.Replay.Pool.{
  Pool, Worker, idle, failing, finished, Choice, enter, send, close_entries, work, report, leave,
  step, enter_loop, send_entry, close_chan, take_entry, send_error, leave_loop, error_room,
  worker_after,
}
use tieredcache.Replay.Pool.Counts.{held_list}

abbrev unclosed : Bool → ℕ
unclosed true = 0
unclosed false = 1

module _ {E : Type 0} where
  -- What a worker has still to do before it leaves.
  abbrev steps_of : Worker E → ℕ
  steps_of idle = 1
  steps_of (failing err) = 2
  steps_of finished = 0

  abbrev steps_left : List (Worker E) → ℕ
  steps_left [] = 0
  steps_left (w ∷ ws) = steps_of w + steps_left ws

  -- More than the number of steps that can follow.
  abbrev pub work_left : Pool E → ℕ
  work_left p =
      4 * length p.waiting
      + 3 * length (held_list p.held)
      + 2 * length p.entry_chan
      + unclosed p.closed
      + steps_left p.workers

  steps_left-set :
      (ws : List (Worker E)) (i : ℕ) (w v : Worker E)
      → get_elem? ws i ≡ some w
      → steps_left (set ws i v) + steps_of w ≡ steps_left ws + steps_of v
  steps_left-set [] i w v at = cc
  steps_left-set (x ∷ ws) zero w v at = ground (arith, at)
  steps_left-set (x ∷ ws) (suc i) w v at = omega (arith, steps_left-set ws i w v at)

  steps_of-after : (o : Option E) → steps_of (worker_after o) ≤ 2
  steps_of-after none = omega arith
  steps_of-after (some err) = omega arith

  abbrev pub Shrinks : ℕ → Option (Pool E) → Type 0
  Shrinks n none = Unit
  Shrinks n (some q) = work_left q < n

  module _ (apply : WalEntry → Option E) (p : Pool E) where
    enter_loop-Shrinks :
        (ws : List WalEntry) (o : Option WalEntry)
        → p.waiting ≡ ws
        → p.held ≡ o
        → Shrinks (work_left p) (enter_loop ws o p)
    unfolding enter_loop
    enter_loop-Shrinks [] o ew eh = tt
    enter_loop-Shrinks (e ∷ es) (some x) ew eh = tt
    enter_loop-Shrinks (e ∷ es) none ew eh =
        ground (arith, ap length ew, ap (λ x. length (held_list x)) eh)

    send_entry-Shrinks : (o : Option WalEntry) → p.held ≡ o → Shrinks (work_left p) (send_entry o p)
    unfolding send_entry
    send_entry-Shrinks none eh = tt
    send_entry-Shrinks (some e) eh =
        ground (arith, ap (λ x. length (held_list x)) eh, length-append p.entry_chan (e ∷ []))

    close_chan-Shrinks :
        (ws : List WalEntry) (o : Option WalEntry) (b : Bool)
        → p.closed ≡ b
        → Shrinks (work_left p) (close_chan ws o b p)
    unfolding close_chan
    close_chan-Shrinks [] none false eb = omega (arith, ap unclosed eb)
    close_chan-Shrinks [] none true eb = tt
    close_chan-Shrinks [] (some x) b eb = tt
    close_chan-Shrinks (e ∷ es) o b eb = tt

    take_entry-Shrinks :
        (j : ℕ) (o : Option (Worker E)) (es : List WalEntry)
        → get_elem? p.workers j ≡ o
        → p.entry_chan ≡ es
        → Shrinks (work_left p) (take_entry apply j o es p)
    unfolding take_entry
    take_entry-Shrinks j none es at ec = tt
    take_entry-Shrinks j (some idle) [] at ec = tt
    take_entry-Shrinks j (some idle) (e ∷ es) at ec = omega (
      arith,
      ap length ec,
      steps_left-set p.workers j idle (worker_after (apply e)) at,
      steps_of-after (apply e),
    )
    take_entry-Shrinks j (some (failing x)) es at ec = tt
    take_entry-Shrinks j (some finished) es at ec = tt

    send_error-Shrinks :
        (j : ℕ) (o : Option (Worker E))
        → get_elem? p.workers j ≡ o
        → Shrinks (work_left p) (send_error j o p)
    unfolding send_error
    send_error-Shrinks j none at = tt
    send_error-Shrinks j (some idle) at = tt
    send_error-Shrinks j (some finished) at = tt
    send_error-Shrinks j (some (failing x)) at = elim (Bool-cases (error_room p)) [
      | inl space ↦ rw space (omega (arith, steps_left-set p.workers j (failing x) idle at))
      | inr full ↦ rw full tt
    ]

    leave_loop-Shrinks :
        (j : ℕ) (o : Option (Worker E)) (es : List WalEntry) (b : Bool)
        → get_elem? p.workers j ≡ o
        → Shrinks (work_left p) (leave_loop j o es b p)
    unfolding leave_loop
    leave_loop-Shrinks j none es b at = tt
    leave_loop-Shrinks j (some idle) [] false at = tt
    leave_loop-Shrinks j (some idle) [] true at =
        omega (arith, steps_left-set p.workers j idle finished at)
    leave_loop-Shrinks j (some idle) (e ∷ es) b at = tt
    leave_loop-Shrinks j (some (failing x)) es b at = tt
    leave_loop-Shrinks j (some finished) es b at = tt

    pub step-Shrinks : (c : Choice) → Shrinks (work_left p) (step apply c p)
    unfolding step
    step-Shrinks enter = enter_loop-Shrinks p.waiting p.held refl refl
    step-Shrinks send = send_entry-Shrinks p.held refl
    step-Shrinks close_entries = close_chan-Shrinks p.waiting p.held p.closed refl
    step-Shrinks (work j) = take_entry-Shrinks j (get_elem? p.workers j) p.entry_chan refl refl
    step-Shrinks (report j) = send_error-Shrinks j (get_elem? p.workers j) refl
    step-Shrinks (leave j) = leave_loop-Shrinks j (get_elem? p.workers j) p.entry_chan p.closed refl
