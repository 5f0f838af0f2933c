-- ===== src/Replay/Pool/Invariant.antt =====
-- pkg/replay/recovery.go: which entries the workers of `Recover` apply, and which errors it
-- collects.
use mathlib.Core.List.{append_assoc, append-nil}
use tieredcache.Base.{
  ℕ, ◌≡◌, ◌≤◌, refl, Bool, true, false, List, [], ◌∷◌, ◌++◌, Option, none, some, length, ltb,
  get_elem?, arith, length-append, length-set, Bool-cases, inl, inr, ◌≢◌, suc, zero, ap, ◌∙◌, sym,
  subst, replicate, length-replicate, ltb→lt,
}
use tieredcache.Common.Entry.{wal_entry_channel_buffer, error_channel_buffer}
use tieredcache.Replay.Entry.{WalEntry}
use tieredcache.Replay.Pool.{
  Pool, Worker, idle, failing, finished, Choice, enter, send, close_entries, work, report, leave,
  step, enter_loop, send_entry, close_chan, take_entry, send_error, leave_loop, Leads, here,
  and_then, IsOver, error_room, worker_after, start, collected,
}
use tieredcache.Replay.Pool.Counts.{
  held_list, failures, unsent, IsPool, failures-append, collected-append, length-collected,
  unsent-set, of_worker-after, after_unfinished, set-left,
}

module _ {E : Type 0} where
  module _ (apply : WalEntry → Option E) (n : ℕ) (entries : List WalEntry) where
    abbrev Stays : Option (Pool E) → Type 0
    Stays none = Unit
    Stays (some q) = IsPool apply n entries q

    module _ (p : Pool E) (h : IsPool apply n entries p) where
      enter_loop-Stays :
          (ws : List WalEntry) (o : Option WalEntry)
          → p.waiting ≡ ws
          → p.held ≡ o
          → Stays (enter_loop ws o p)
      unfolding enter_loop
      enter_loop-Stays [] o ew eh = tt
      enter_loop-Stays (e ∷ es) (some x) ew eh = tt
      enter_loop-Stays (e ∷ es) none ew eh =
          let open_yet : p.closed ≢ true = λ c. cc (rw (ew, eh) at (h.at_end c)) in
          let moved = simp (ew, eh) at h.order in
          elim (Bool-cases (error_room p)) [
            | inl space ↦ rw space (record {
              order = moved;
              errors = omega (arith, h.errors, collected-append p.error_chan none);
              room = omega (arith, ltb→lt _ _ space, length-append p.error_chan (none ∷ []));
              size = h.size;
              at_end = λ c. absurd (open_yet c);
              left = h.left;
            })
            | inr full ↦ rw full (record {
              order = moved;
              errors = h.errors;
              room = h.room;
              size = h.size;
              at_end = λ c. absurd (open_yet c);
              left = h.left;
            })
          ]

      send_entry-Stays : (o : Option WalEntry) → p.held ≡ o → Stays (send_entry o p)
      unfolding send_entry
      send_entry-Stays none eh = tt
      send_entry-Stays (some e) eh =
          let open_yet : p.closed ≢ true = λ c. cc (rw eh at (h.at_end c)) in
          elim (Bool-cases (ltb (length p.entry_chan) wal_entry_channel_buffer)) [
            | inl space ↦ rw space (record {
              order =
                  ap (λ l. p.applied ++ l) (append_assoc p.entry_chan (e ∷ []) p.waiting)
                  ∙ (rw eh at h.order);
              errors = h.errors;
              room = h.room;
              size = h.size;
              at_end = λ c. absurd (open_yet c);
              left = λ i at. absurd (open_yet (h.left i at).0);
            })
            | inr full ↦ rw full tt
          ]

      close_chan-Stays :
          (ws : List WalEntry) (o : Option WalEntry) (b : Bool)
          → p.waiting ≡ ws
          → p.held ≡ o
          → Stays (close_chan ws o b p)
      unfolding close_chan
      close_chan-Stays [] none false ew eh = record {
        order = h.order;
        errors = h.errors;
        room = h.room;
        size = h.size;
        at_end = λ _. simp (ew, eh) refl;
        left = λ i at. (refl, (h.left i at).1);
      }
      close_chan-Stays [] none true ew eh = tt
      close_chan-Stays [] (some x) b ew eh = tt
      close_chan-Stays (e ∷ es) o b ew eh = tt

      take_entry-Stays :
          (j : ℕ) (o : Option (Worker E)) (es : List WalEntry)
          → get_elem? p.workers j ≡ o
          → p.entry_chan ≡ es
          → Stays (take_entry apply j o es p)
      unfolding take_entry
      take_entry-Stays j none es at ec = tt
      take_entry-Stays j (some idle) [] at ec = tt
      take_entry-Stays j (some idle) (e ∷ es) at ec = record {
        order =
            append_assoc p.applied (e ∷ []) (es ++ (held_list p.held ++ p.waiting))
            ∙ (rw ec at h.order);
        errors = omega (
          arith,
          h.errors,
          failures-append apply p.applied e,
          unsent-set p.workers j idle (worker_after (apply e)) at,
          of_worker-after (apply e),
        );
        room = h.room;
        size = length-set p.workers j _ ∙ h.size;
        at_end = h.at_end;
        left = λ i fin. absurd (
            let before =
              set-left p.workers j (worker_after (apply e)) (after_unfinished (apply e)) i fin in
            cc (ec, (h.left i before).1));
      }
      take_entry-Stays j (some (failing x)) es at ec = tt
      take_entry-Stays j (some finished) es at ec = tt

      send_error-Stays :
          (j : ℕ) (o : Option (Worker E)) → get_elem? p.workers j ≡ o → Stays (send_error j o p)
      unfolding send_error
      send_error-Stays j none at = tt
      send_error-Stays j (some idle) at = tt
      send_error-Stays j (some finished) at = tt
      send_error-Stays j (some (failing x)) at = elim (Bool-cases (error_room p)) [
        | inl space ↦ rw space (record {
          order = h.order;
          errors = omega (
            arith,
            h.errors,
            collected-append p.error_chan (some x),
            unsent-set p.workers j (failing x) idle at,
          );
          room = omega (arith, ltb→lt _ _ space, length-append p.error_chan (some x ∷ []));
          size = length-set p.workers j _ ∙ h.size;
          at_end = h.at_end;
          left = λ i fin. h.left i (set-left p.workers j idle (λ q. cc) i fin);
        })
        | inr full ↦ rw full tt
      ]

      leave_loop-Stays :
          (j : ℕ) (o : Option (Worker E)) (es : List WalEntry) (b : Bool)
          → get_elem? p.workers j ≡ o
          → p.entry_chan ≡ es
          → p.closed ≡ b
          → Stays (leave_loop j o es b p)
      unfolding leave_loop
      leave_loop-Stays j none es b at ec eb = tt
      leave_loop-Stays j (some idle) [] false at ec eb = tt
      leave_loop-Stays j (some idle) [] true at ec eb = record {
        order = h.order;
        errors = omega (arith, h.errors, unsent-set p.workers j idle finished at);
        room = h.room;
        size = length-set p.workers j _ ∙ h.size;
        at_end = h.at_end;
        left = λ i fin. (eb, ec);
      }
      leave_loop-Stays j (some idle) (e ∷ es) b at ec eb = tt
      leave_loop-Stays j (some (failing x)) es b at ec eb = tt
      leave_loop-Stays j (some finished) es b at ec eb = tt

      step-Stays : (c : Choice) → Stays (step apply c p)
      unfolding step
      step-Stays enter = enter_loop-Stays p.waiting p.held refl refl
      step-Stays send = send_entry-Stays p.held refl
      step-Stays close_entries = close_chan-Stays p.waiting p.held p.closed refl refl
      step-Stays (work j) = take_entry-Stays j (get_elem? p.workers j) p.entry_chan refl refl
      step-Stays (report j) = send_error-Stays j (get_elem? p.workers j) refl
      step-Stays (leave j) =
          leave_loop-Stays j (get_elem? p.workers j) p.entry_chan p.closed refl refl refl

    -- However the goroutines interleave, the entries that were taken, those on their way and
    -- those not reached make up the list in order, and each failure is in the channel or with
    -- the worker that has it.
    pub Leads-IsPool :
        (p q : Pool E) → IsPool apply n entries p → Leads apply p q → IsPool apply n entries q
    Leads-IsPool p q h (here _) = h
    Leads-IsPool p q h (and_then _ m _ c l e) =
        subst Stays e (step-Stays m (Leads-IsPool p m h l) c)

    unsent-replicate : (k : ℕ) → unsent {E = E} (replicate k idle) ≡ 0
    unsent-replicate zero = refl
    unsent-replicate (suc k) = omega (arith, unsent-replicate k)

    none_left : (k i : ℕ) → get_elem? {A = Worker E} (replicate k idle) i ≢ some finished
    none_left zero i = λ q. cc
    none_left (suc k) zero = λ q. cc
    none_left (suc k) (suc i) = none_left k i

    pub start-IsPool : IsPool apply n entries (start n entries)
    unfolding start collected
    start-IsPool = record {
      order = refl;
      errors = omega (arith, unsent-replicate n);
      room = omega arith;
      size = length-replicate n idle;
      at_end = λ c. cc;
      left = λ i at. absurd (none_left n i at);
    }

    IsOver-unsent : (ws : List (Worker E)) → IsOver ws → unsent ws ≡ 0
    IsOver-unsent [] over = refl
    IsOver-unsent (idle ∷ ws) over = absurd over
    IsOver-unsent (failing x ∷ ws) over = absurd over
    IsOver-unsent (finished ∷ ws) over = omega (arith, IsOver-unsent ws over)

    IsOver-first :
        (ws : List (Worker E)) → IsOver ws → 1 ≤ length ws → get_elem? ws 0 ≡ some finished
    IsOver-first [] over some_left = absurd (omega arith)
    IsOver-first (idle ∷ ws) over some_left = absurd over
    IsOver-first (failing x ∷ ws) over some_left = absurd over
    IsOver-first (finished ∷ ws) over some_left = refl

    -- If `Recover` gets past its workers, of which it has one at least, every entry was applied
    -- once, taken in the order of the log, and one error is collected for each application that
    -- failed; so no more failed than the channel of errors holds.
    pub Leads-applied :
        (q : Pool E)
        → 1 ≤ n
        → Leads apply (start n entries) q
        → IsOver q.workers
        → (q.applied ≡ entries)
          × (length (collected q.error_chan) ≡ failures apply entries)
          × (failures apply entries ≤ error_channel_buffer)
    Leads-applied q some_left l over =
        let h = Leads-IsPool (start n entries) q start-IsPool l in
        let (closed, empty) = h.left 0 (IsOver-first q.workers over (omega (arith, h.size))) in
        let all : q.applied ≡ entries =
          sym (append-nil q.applied) ∙ (rw (empty, h.at_end closed) at h.order) in
        let reported : length (collected q.error_chan) ≡ failures apply entries =
          omega (arith, h.errors, IsOver-unsent q.workers over, ap (failures apply) all) in
        (all, reported, omega (arith, reported, h.room, length-collected q.error_chan))
