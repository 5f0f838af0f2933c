-- ===== src/Replay/Pool/Room.antt =====
-- pkg/replay/recovery.go: how the `nil` that `Recover` sends for each entry fills the channel of errors.
use tieredcache.Base.{
  ℕ, ◌+◌, ◌≡◌, ◌≤◌, ◌<◌, refl, Bool, true, false, List, [], ◌∷◌, ◌++◌, Option, none, some, length,
  ltb, get_elem?, arith, length-append, Bool-cases, inl, inr, suc, zero, ap, subst, ◌⊎◌, ltb→le,
}
use tieredcache.Common.Entry.{wal_entry_channel_buffer, error_channel_buffer}
use tieredcache.Replay.Entry.{WalEntry}
use tieredcache.Replay.Pool.{
  Pool, Worker, idle, failing, finished, Choice, enter, send, close_entries, work, report, leave,
  step, enter_loop, send_entry, close_chan, take_entry, send_error, leave_loop, Leads, here,
  and_then, IsOver, error_room, start, collected,
}
use tieredcache.Replay.Pool.Counts.{failures, unsent}
use tieredcache.Replay.Pool.Invariant.{Leads-IsPool, start-IsPool}
use tieredcache.Replay.Pool.Stuck.{Stuck, Leads-not-IsOver}

module _ {E : Type 0} where
  abbrev nils : List (Option E) → ℕ
  nils [] = 0
  nils (none ∷ es) = suc (nils es)
  nils (some _ ∷ es) = nils es

  nils-append_none : (es : List (Option E)) → nils (es ++ none ∷ []) ≡ suc (nils es)
  nils-append_none [] = refl
  nils-append_none (none ∷ es) = ap suc (nils-append_none es)
  nils-append_none (some _ ∷ es) = nils-append_none es

  nils-append_some : (es : List (Option E)) (x : E) → nils (es ++ some x ∷ []) ≡ nils es
  nils-append_some [] x = refl
  nils-append_some (none ∷ es) x = ap suc (nils-append_some es x)
  nils-append_some (some _ ∷ es) x = nils-append_some es x

  nils-collected : (es : List (Option E)) → length es ≡ nils es + length (collected es)
  unfolding collected
  nils-collected [] = refl
  nils-collected (none ∷ es) = omega (arith, nils-collected es)
  nils-collected (some _ ∷ es) = omega (arith, nils-collected es)

  module _ (apply : WalEntry → Option E) (total : ℕ) where
    -- There is at most one nil for each entry that was reached, and one for each unless the channel is full.
    record Fills (p : Pool E) : Type 0 where
      few : nils p.error_chan + length p.waiting ≤ total
      fills :
          (total ≤ length p.waiting + length p.error_chan)
          ⊎ (error_channel_buffer ≤ length p.error_chan)

    abbrev Stays : Option (Pool E) → Type 0
    Stays none = Unit
    Stays (some q) = Fills q

    module _ (p : Pool E) (h : Fills p) where
      enter_loop-Stays :
          (ws : List WalEntry) (o : Option WalEntry) → p.waiting ≡ ws → Stays (enter_loop ws o p)
      unfolding enter_loop
      enter_loop-Stays [] o ew = tt
      enter_loop-Stays (e ∷ es) (some x) ew = tt
      enter_loop-Stays (e ∷ es) none ew =
          let shorter = ap length ew in
          elim (Bool-cases (error_room p)) [
            | inl space ↦
                let longer = length-append p.error_chan (none ∷ []) in
                rw space (record {
                  few = omega (arith, h.few, nils-append_none p.error_chan, shorter);
                  fills = elim h.fills [
                    | inl more ↦ inl (omega (arith, more, longer, shorter))
                    | inr full ↦ inr (omega (arith, full, longer))
                  ];
                })
            | inr full ↦
                rw full
                  (record { few = omega (arith, h.few, shorter); fills = inr (ltb→le _ _ full) })
          ]

      send_entry-Stays : (o : Option WalEntry) → Stays (send_entry o p)
      unfolding send_entry
      send_entry-Stays none = tt
      send_entry-Stays (some e) =
          elim (Bool-cases (ltb (length p.entry_chan) wal_entry_channel_buffer)) [
            | inl room ↦ rw room (record { few = h.few; fills = h.fills })
            | inr full ↦ rw full tt
          ]

      close_chan-Stays :
          (ws : List WalEntry) (o : Option WalEntry) (b : Bool) → Stays (close_chan ws o b p)
      unfolding close_chan
      close_chan-Stays [] none false = record { few = h.few; fills = h.fills }
      close_chan-Stays [] none true = tt
      close_chan-Stays [] (some x) b = tt
      close_chan-Stays (e ∷ es) o b = tt

      take_entry-Stays :
          (j : ℕ) (o : Option (Worker E)) (es : List WalEntry) → Stays (take_entry apply j o es p)
      unfolding take_entry
      take_entry-Stays j none es = tt
      take_entry-Stays j (some idle) [] = tt
      take_entry-Stays j (some idle) (e ∷ es) = record { few = h.few; fills = h.fills }
      take_entry-Stays j (some (failing x)) es = tt
      take_entry-Stays j (some finished) es = tt

      send_error-Stays : (j : ℕ) (o : Option (Worker E)) → Stays (send_error j o p)
      unfolding send_error
      send_error-Stays j none = tt
      send_error-Stays j (some idle) = tt
      send_error-Stays j (some finished) = tt
      send_error-Stays j (some (failing x)) = elim (Bool-cases (error_room p)) [
        | inl space ↦
            let longer = length-append p.error_chan (some x ∷ []) in
            rw space (record {
              few = omega (arith, h.few, nils-append_some p.error_chan x);
              fills = elim h.fills [
                | inl more ↦ inl (omega (arith, more, longer))
                | inr full ↦ inr (omega (arith, full, longer))
              ];
            })
        | inr full ↦ rw full tt
      ]

      leave_loop-Stays :
          (j : ℕ) (o : Option (Worker E)) (es : List WalEntry) (b : Bool)
          → Stays (leave_loop j o es b p)
      unfolding leave_loop
      leave_loop-Stays j none es b = tt
      leave_loop-Stays j (some idle) [] false = tt
      leave_loop-Stays j (some idle) [] true = record { few = h.few; fills = h.fills }
      leave_loop-Stays j (some idle) (e ∷ es) b = tt
      leave_loop-Stays j (some (failing x)) es b = tt
      leave_loop-Stays j (some finished) es b = tt

      step-Stays : (c : Choice) → Stays (step apply c p)
      unfolding step
      step-Stays enter = enter_loop-Stays p.waiting p.held refl
      step-Stays send = send_entry-Stays p.held
      step-Stays close_entries = close_chan-Stays p.waiting p.held p.closed
      step-Stays (work j) = take_entry-Stays j (get_elem? p.workers j) p.entry_chan
      step-Stays (report j) = send_error-Stays j (get_elem? p.workers j)
      step-Stays (leave j) = leave_loop-Stays j (get_elem? p.workers j) p.entry_chan p.closed

    Leads-Fills : (p q : Pool E) → Fills p → Leads apply p q → Fills q
    Leads-Fills p q h (here _) = h
    Leads-Fills p q h (and_then _ m _ c l e) = subst Stays e (step-Stays m (Leads-Fills p m h l) c)

  failures-part :
      (apply : WalEntry → Option E) (es rest : List WalEntry)
      → failures apply es ≤ failures apply (es ++ rest)
  failures-part apply [] rest = omega arith
  failures-part apply (e ∷ es) rest = omega (arith, failures-part apply es rest)

  unsent-failing :
      (ws : List (Worker E)) (i : ℕ) (err : E) → get_elem? ws i ≡ some (failing err) → 1 ≤ unsent ws
  unsent-failing [] i err at = cc
  unsent-failing (w ∷ ws) zero err at = ground (arith, at)
  unsent-failing (w ∷ ws) (suc i) err at = omega (arith, unsent-failing ws i err at)

  module _ (apply : WalEntry → Option E) (n : ℕ) (entries : List WalEntry) where
    start-Fills : Fills apply (length entries) (start n entries)
    unfolding start
    start-Fills = record { few = omega arith; fills = inl (omega arith) }

    -- A worker finds no room for its error only if the entries and those that fail are more than ten.
    pub Stuck-many :
        (i : ℕ) (err : E) (p : Pool E)
        → Leads apply (start n entries) p
        → Stuck i err p
        → 10 < length entries + failures apply entries
    Stuck-many i err p l stuck =
        let h = Leads-IsPool apply n entries (start n entries) p (start-IsPool apply n entries) l in
        let f = Leads-Fills apply (length entries) (start n entries) p start-Fills l in
        let applied : failures apply p.applied ≤ failures apply entries =
          subst (λ es. failures apply p.applied ≤ failures apply es) h.order
            (failures-part apply p.applied _) in
        omega (
          arith,
          applied,
          h.errors,
          f.few,
          nils-collected p.error_chan,
          unsent-failing p.workers i err stuck.1,
          stuck.0,
        )

    -- Once the loop of `Recover` has reached ten entries, and a worker's entry fails then, `Recover` never
    -- gets past its workers, however the goroutines went on before and go on after: the `nil` that is sent
    -- for each entry, if there is room, and the errors have filled the channel, and nothing is taken from it
    -- before all workers have left.
    pub start-not-IsOver :
        (i : ℕ) (err : E) (p q : Pool E)
        → Leads apply (start n entries) p
        → length p.waiting + 10 ≤ length entries
        → get_elem? p.workers i ≡ some (failing err)
        → Leads apply p q
        → ¬ (IsOver q.workers)
    start-not-IsOver i err p q before reached at after =
        let f = Leads-Fills apply (length entries) (start n entries) p start-Fills before in
        let full : error_channel_buffer ≤ length p.error_chan = elim f.fills [
          | inl more ↦ omega (arith, more)
          | inr full ↦ full
        ] in
        Leads-not-IsOver apply i err p q full at after
