-- ===== src/Replay/Pool.antt =====
-- pkg/replay/recovery.go: the goroutine of `Recover` that hands out entries, and its workers, as
-- steps that can interleave in any order. The context is not cancelled on the way.
pub mod Counts
pub mod Invariant
pub mod Stuck
pub mod Room
pub mod Shrinks
pub mod Ends
use tieredcache.Base.{
  ℕ, ◌+◌, ◌≡◌, Bool, true, false, List, [], ◌∷◌, ◌++◌, Option, none, some, length, ltb, set,
  get_elem?, replicate, if◌then◌else◌,
}
use tieredcache.Common.Entry.{wal_entry_channel_buffer, error_channel_buffer}
use tieredcache.Replay.Entry.{WalEntry}

-- A worker waits for an entry, or waits to send the error of one, or has left its loop.
pub data Worker (E : Type 0) : Type 0 where
  idle : Worker E
  failing : E → Worker E
  finished : Worker E

-- `waiting` are the entries the loop has not reached, `held` is the one it has and has not sent,
-- `closed` is of `entryChan`, `applied` are the entries that workers took, in that order.
pub record Pool (E : Type 0) : Type 0 where
  pub waiting : List WalEntry
  pub held : Option WalEntry
  pub entry_chan : List WalEntry
  pub closed : Bool
  pub error_chan : List (Option E)
  pub workers : List (Worker E)
  pub applied : List WalEntry

-- Which goroutine goes on, the workers by number.
pub data Choice : Type 0 where
  enter send close_entries : Choice
  work report leave : ℕ → Choice

module _ {E : Type 0} where
  abbrev pub error_room : Pool E → Bool
  error_room p = ltb (length p.error_chan) error_channel_buffer

  -- The `select` at the head of the loop.
  unfoldable pub enter_loop : List WalEntry → Option WalEntry → Pool E → Option (Pool E)
  enter_loop (e ∷ es) none p =
      let p' = record p { waiting = es; held = some e } in
      some (if error_room p then record p' { error_chan = p.error_chan ++ none ∷ [] } else p')
  enter_loop _ _ p = none

  -- `entryChan <- entry`
  unfoldable pub send_entry : Option WalEntry → Pool E → Option (Pool E)
  send_entry (some e) p =
      if ltb (length p.entry_chan) wal_entry_channel_buffer
      then some (record p { held = none; entry_chan = p.entry_chan ++ e ∷ [] })
      else none
  send_entry none p = none

  -- `close(entryChan)`
  unfoldable pub close_chan : List WalEntry → Option WalEntry → Bool → Pool E → Option (Pool E)
  close_chan [] none false p = some (record p { closed = true })
  close_chan _ _ _ p = none

  -- A worker after the call of `applyFunc`.
  abbrev pub worker_after : Option E → Worker E
  worker_after none = idle
  worker_after (some err) = failing err

  -- `for entry := range entryChan`
  unfoldable pub take_entry :
      (WalEntry → Option E) → ℕ → Option (Worker E) → List WalEntry → Pool E → Option (Pool E)
  take_entry apply i (some idle) (e ∷ es) p = some (record p {
    entry_chan = es;
    workers = set p.workers i (worker_after (apply e));
    applied = p.applied ++ e ∷ [];
  })
  take_entry apply i _ _ p = none

  -- `errorChan <- err`
  unfoldable pub send_error : ℕ → Option (Worker E) → Pool E → Option (Pool E)
  send_error i (some (failing err)) p =
      if error_room p
      then some
          (record p { error_chan = p.error_chan ++ some err ∷ []; workers = set p.workers i idle })
      else none
  send_error i _ p = none

  -- The range ends: the channel is closed and empty.
  unfoldable pub leave_loop :
      ℕ → Option (Worker E) → List WalEntry → Bool → Pool E → Option (Pool E)
  leave_loop i (some idle) [] true p = some (record p { workers = set p.workers i finished })
  leave_loop i _ _ _ p = none

  -- A step, or `none` if that goroutine is blocked or does not do this.
  unfoldable pub step : (WalEntry → Option E) → Choice → Pool E → Option (Pool E)
  step apply enter p = enter_loop p.waiting p.held p
  step apply send p = send_entry p.held p
  step apply close_entries p = close_chan p.waiting p.held p.closed p
  step apply (work i) p = take_entry apply i (get_elem? p.workers i) p.entry_chan p
  step apply (report i) p = send_error i (get_elem? p.workers i) p
  step apply (leave i) p = leave_loop i (get_elem? p.workers i) p.entry_chan p.closed p

  -- The pool before the loop.
  unfoldable pub start : ℕ → List WalEntry → Pool E
  start workers entries = record {
    waiting = entries;
    held = none;
    entry_chan = [];
    closed = false;
    error_chan = [];
    workers = replicate workers idle;
    applied = [];
  }

  -- A run: the steps that are taken lead from one state to the other.
  pub data Leads (apply : WalEntry → Option E) : Pool E → Pool E → Type 0 where
    here : (p : Pool E) → Leads apply p p
    and_then :
        (p q r : Pool E) (c : Choice) → Leads apply p q → step apply c q ≡ some r → Leads apply p r

  -- `wg.Wait()` is over.
  abbrev pub IsOver : List (Worker E) → Type 0
  IsOver [] = Unit
  IsOver (finished ∷ ws) = IsOver ws
  IsOver (idle ∷ ws) = ⊥
  IsOver (failing _ ∷ ws) = ⊥

  -- The errors that are collected at the end.
  unfoldable pub collected : List (Option E) → List E
  collected [] = []
  collected (none ∷ es) = collected es
  collected (some err ∷ es) = err ∷ collected es
