-- ===== src/Replay/Pool/Stuck.antt =====
-- pkg/replay/recovery.go: a worker of `Recover` that cannot send its error.
use tieredcache.Base.{
  ℕ, ◌≡◌, ◌≤◌, refl, Bool, true, false, List, [], ◌∷◌, Option, none, some, length, ltb, set,
  get_elem?, arith, get_elem?-set_ne, Bool-cases, inl, inr, ◌≢◌, suc, zero, ap, ◌∙◌, subst,
}
use tieredcache.Common.Entry.{error_channel_buffer}
use tieredcache.Replay.Entry.{WalEntry}
use tieredcache.Replay.Pool.{
  Pool, Worker, idle, failing, finished, Choice, enter, send, close_entries, work, report, leave,
  step, enter_loop, send_entry, close_chan, take_entry, send_error, leave_loop, Leads, here,
  and_then, IsOver, error_room, worker_after,
}

module _ {E : Type 0} where
  -- The channel of errors is full, and the worker has one to send.
  abbrev pub Stuck : ℕ → E → Pool E → Type 0
  Stuck i err p =
      (error_channel_buffer ≤ length p.error_chan) × (get_elem? p.workers i ≡ some (failing err))

  -- What holds of the state after a step, if the step is taken.
  abbrev Stays : ℕ → E → Option (Pool E) → Type 0
  Stays i err none = Unit
  Stays i err (some q) = Stuck i err q

  module _ (apply : WalEntry → Option E) (i : ℕ) (err : E) (p : Pool E) (h : Stuck i err p) where
    no_room : error_room p ≡ false
    no_room = ground (arith, h.0)

    enter_loop-Stays : (ws : List WalEntry) (o : Option WalEntry) → Stays i err (enter_loop ws o p)
    unfolding enter_loop
    enter_loop-Stays [] o = tt
    enter_loop-Stays (e ∷ es) (some x) = tt
    enter_loop-Stays (e ∷ es) none = rw no_room h

    send_entry-Stays : (o : Option WalEntry) → Stays i err (send_entry o p)
    unfolding send_entry
    send_entry-Stays none = tt
    send_entry-Stays (some e) = elim (Bool-cases (ltb (length p.entry_chan) 100)) [
      | inl room ↦ rw room h
      | inr full ↦ rw full tt
    ]

    close_chan-Stays :
        (ws : List WalEntry) (o : Option WalEntry) (b : Bool) → Stays i err (close_chan ws o b p)
    unfolding close_chan
    close_chan-Stays [] none false = h
    close_chan-Stays [] none true = tt
    close_chan-Stays [] (some x) b = tt
    close_chan-Stays (e ∷ es) o b = tt

    other :
        (j : ℕ) (w v : Worker E)
        → get_elem? p.workers j ≡ some w
        → w ≢ failing err
        → get_elem? (set p.workers j v) i ≡ some (failing err)
    other j w v at ne =
        get_elem?-set_ne p.workers j i v (λ e. ne (cc (ap (get_elem? p.workers) e))) ∙ h.1

    take_entry-Stays :
        (j : ℕ) (o : Option (Worker E)) (es : List WalEntry)
        → get_elem? p.workers j ≡ o
        → Stays i err (take_entry apply j o es p)
    unfolding take_entry
    take_entry-Stays j none es at = tt
    take_entry-Stays j (some idle) [] at = tt
    take_entry-Stays j (some idle) (e ∷ es) at =
        (h.0, other j idle (worker_after (apply e)) at (λ q. cc))
    take_entry-Stays j (some (failing x)) es at = tt
    take_entry-Stays j (some finished) es at = tt

    send_error-Stays : (j : ℕ) (o : Option (Worker E)) → Stays i err (send_error j o p)
    unfolding send_error
    send_error-Stays j none = tt
    send_error-Stays j (some idle) = tt
    send_error-Stays j (some finished) = tt
    send_error-Stays j (some (failing x)) = rw no_room tt

    leave_loop-Stays :
        (j : ℕ) (o : Option (Worker E)) (es : List WalEntry) (b : Bool)
        → get_elem? p.workers j ≡ o
        → Stays i err (leave_loop j o es b p)
    unfolding leave_loop
    leave_loop-Stays j none es b at = tt
    leave_loop-Stays j (some idle) [] false at = tt
    leave_loop-Stays j (some idle) [] true at = (h.0, other j idle finished at (λ q. cc))
    leave_loop-Stays j (some idle) (e ∷ es) b at = tt
    leave_loop-Stays j (some (failing x)) es b at = tt
    leave_loop-Stays j (some finished) es b at = tt

    step-Stays : (c : Choice) → Stays i err (step apply c p)
    unfolding step
    step-Stays enter = enter_loop-Stays p.waiting p.held
    step-Stays send = send_entry-Stays p.held
    step-Stays close_entries = close_chan-Stays p.waiting p.held p.closed
    step-Stays (work j) = take_entry-Stays j (get_elem? p.workers j) p.entry_chan refl
    step-Stays (report j) = send_error-Stays j (get_elem? p.workers j)
    step-Stays (leave j) = leave_loop-Stays j (get_elem? p.workers j) p.entry_chan p.closed refl

  Leads-Stuck :
      (apply : WalEntry → Option E) (i : ℕ) (err : E) (p q : Pool E)
      → Stuck i err p
      → Leads apply p q
      → Stuck i err q
  Leads-Stuck apply i err p q h (here _) = h
  Leads-Stuck apply i err p q h (and_then _ m _ c l e) =
      subst (Stays i err) e (step-Stays apply i err m (Leads-Stuck apply i err p m h l) c)

  Stuck-not-IsOver :
      (ws : List (Worker E)) (i : ℕ) (err : E) → get_elem? ws i ≡ some (failing err) → ¬ (IsOver ws)
  Stuck-not-IsOver [] i err at = λ over. cc
  Stuck-not-IsOver (idle ∷ ws) i err at = λ over. over
  Stuck-not-IsOver (failing x ∷ ws) i err at = λ over. over
  Stuck-not-IsOver (finished ∷ ws) zero err at = λ over. cc
  Stuck-not-IsOver (finished ∷ ws) (suc i) err at = Stuck-not-IsOver ws i err at

  -- Nothing is taken from the channel of errors before all workers have left. Once it is full,
  -- which the `nil` that is sent for each entry makes it after ten entries, a worker whose entry
  -- fails never gets on: however the goroutines interleave, `Recover` waits for it forever.
  pub Leads-not-IsOver :
      (apply : WalEntry → Option E) (i : ℕ) (err : E) (p q : Pool E)
      → error_channel_buffer ≤ length p.error_chan
      → get_elem? p.workers i ≡ some (failing err)
      → Leads apply p q
      → ¬ (IsOver q.workers)
  Leads-not-IsOver apply i err p q full at l =
      Stuck-not-IsOver q.workers i err (Leads-Stuck apply i err p q (full, at) l).1
