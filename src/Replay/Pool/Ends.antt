-- ===== src/Replay/Pool/Ends.antt =====
-- pkg/replay/recovery.go: the goroutines of `Recover` end if no entry fails.
use tieredcache.Base.{
  ℕ, ◌≡◌, ◌≤◌, ◌<◌, refl, Bool, true, false, List, [], ◌∷◌, ◌++◌, Option, none, some, length,
  get_elem?, arith, inl, inr, ◌⊎◌, suc, zero, ap, sym, subst, lt→ltb,
}
use tieredcache.Common.Entry.{wal_entry_channel_buffer}
use tieredcache.Replay.Entry.{WalEntry}
use tieredcache.Replay.Pool.{
  Pool, Worker, idle, failing, finished, Choice, enter, send, close_entries, work, leave, step,
  enter_loop, send_entry, close_chan, take_entry, leave_loop, Leads, IsOver, start,
}
use tieredcache.Replay.Pool.Counts.{held_list, failures, unsent}
use tieredcache.Replay.Pool.Invariant.{start-IsPool, Leads-IsPool}
use tieredcache.Replay.Pool.Shrinks.{work_left, Shrinks, step-Shrinks}

module _ {E : Type 0} where
  abbrev Possible : Option (Pool E) → Type 0
  Possible o = (q : Pool E) × (o ≡ some q)

  module _ (apply : WalEntry → Option E) (p : Pool E) where
    take-Possible :
        (j : ℕ) (o : Option (Worker E)) (es : List WalEntry)
        → o ≡ some idle
        → 0 < length es
        → Possible (take_entry apply j o es p)
    unfolding take_entry
    take-Possible j none es at more = cc
    take-Possible j (some idle) [] at more = absurd (omega arith)
    take-Possible j (some idle) (e ∷ es) at more = (_, refl)
    take-Possible j (some (failing x)) es at more = cc
    take-Possible j (some finished) es at more = cc

    leave-Possible :
        (j : ℕ) (o : Option (Worker E)) (es : List WalEntry)
        → o ≡ some idle
        → length es ≡ 0
        → Possible (leave_loop j o es true p)
    unfolding leave_loop
    leave-Possible j none es at over = cc
    leave-Possible j (some idle) [] at over = (_, refl)
    leave-Possible j (some idle) (e ∷ es) at over = absurd (omega arith)
    leave-Possible j (some (failing x)) es at over = cc
    leave-Possible j (some finished) es at over = cc

    send-Possible : (e : WalEntry) → length p.entry_chan ≡ 0 → Possible (send_entry (some e) p)
    unfolding send_entry
    send-Possible e none_there = (
      record p { held = none; entry_chan = p.entry_chan ++ e ∷ [] },
      rw (lt→ltb (length p.entry_chan) wal_entry_channel_buffer (omega (arith, none_there))) refl,
    )

    enter-Possible : (e : WalEntry) (es : List WalEntry) → Possible (enter_loop (e ∷ es) none p)
    unfolding enter_loop
    enter-Possible e es = (_, refl)

    close-Possible : Possible (close_chan [] none false p)
    unfolding close_chan
    close-Possible = (_, refl)

    -- With an idle worker and an empty channel, one goroutine or another can go on.
    abbrev Goes : Type 0
    Goes = (c : Choice) × Possible (step apply c p)

    idle-Goes :
        (j : ℕ) (ws : List WalEntry) (o : Option WalEntry) (b : Bool)
        → p.waiting ≡ ws
        → p.held ≡ o
        → p.closed ≡ b
        → get_elem? p.workers j ≡ some idle
        → length p.entry_chan ≡ 0
        → Goes
    unfolding step
    idle-Goes j ws (some e) b ew eh eb at over =
        (send, subst (λ x. Possible (send_entry x p)) (sym eh) (send-Possible e over))
    idle-Goes j (e ∷ es) none b ew eh eb at over = (
      enter,
      subst (λ x. Possible (enter_loop x p.held p)) (sym ew)
          (subst (λ x. Possible (enter_loop (e ∷ es) x p)) (sym eh) (enter-Possible e es)),
    )
    idle-Goes j [] none false ew eh eb at over = (
      close_entries,
      subst (λ x. Possible (close_chan x p.held p.closed p)) (sym ew)
          (subst (λ x. Possible (close_chan [] x p.closed p)) (sym eh)
            (subst (λ x. Possible (close_chan [] none x p)) (sym eb) close-Possible)),
    )
    idle-Goes j [] none true ew eh eb at over = (
      leave j,
      subst (λ x. Possible (leave_loop j (get_elem? p.workers j) p.entry_chan x p)) (sym eb)
          (leave-Possible j (get_elem? p.workers j) p.entry_chan at over),
    )

    -- Is the channel empty?
    chan-Goes : (j : ℕ) (n : ℕ) → length p.entry_chan ≡ n → get_elem? p.workers j ≡ some idle → Goes
    unfolding step
    chan-Goes j zero over at = idle-Goes j p.waiting p.held p.closed refl refl refl at over
    chan-Goes j (suc n) more at =
        (work j, take-Possible j (get_elem? p.workers j) p.entry_chan at (omega (arith, more)))

  find_idle :
      (ws : List (Worker E)) → unsent ws ≡ 0 → IsOver ws ⊎ ((j : ℕ) × (get_elem? ws j ≡ some idle))
  find_idle [] none_failing = inl tt
  find_idle (idle ∷ ws) none_failing = inr (0, refl)
  find_idle (failing x ∷ ws) none_failing = absurd (omega arith)
  find_idle (finished ∷ ws) none_failing = elim (find_idle ws (omega arith)) [
    | inl over ↦ inl over
    | inr (j, at) ↦ inr (suc j, at)
  ]

  failures-prefix :
      (apply : WalEntry → Option E) (xs ys : List WalEntry)
      → failures apply xs ≤ failures apply (xs ++ ys)
  failures-prefix apply [] ys = omega arith
  failures-prefix apply (x ∷ xs) ys = omega (arith, failures-prefix apply xs ys)

  -- If no entry fails, the goroutines of `Recover` do not block one another: in every state that is
  -- reached, either all workers have left, or some goroutine can take a step; and each step,
  -- whichever it is, takes from the work that is left, so a run of steps ends with all workers gone.
  pub Leads-goes_on :
      (apply : WalEntry → Option E) (n : ℕ) (entries : List WalEntry) (q : Pool E)
      → failures apply entries ≡ 0
      → Leads apply (start n entries) q
      → (IsOver q.workers ⊎ ((c : Choice) × (r : Pool E) × (step apply c q ≡ some r)))
        × ((c : Choice) (r : Pool E) → step apply c q ≡ some r → work_left r < work_left q)
  Leads-goes_on apply n entries q none_fail l =
      let h = Leads-IsPool apply n entries (start n entries) q (start-IsPool apply n entries) l in
      let applied =
        failures-prefix apply q.applied (q.entry_chan ++ (held_list q.held ++ q.waiting)) in
      let none_failing : unsent q.workers ≡ 0 =
        omega (arith, h.errors, none_fail, applied, ap (failures apply) h.order) in
      (
        elim (find_idle q.workers none_failing) [
          | inl over ↦ inl over
          | inr (j, at) ↦
              let g = chan-Goes apply q j (length q.entry_chan) refl at in inr (g.0, g.1.0, g.1.1)
        ],
        λ c r taken. subst (Shrinks (work_left q)) taken (step-Shrinks apply q c),
      )
