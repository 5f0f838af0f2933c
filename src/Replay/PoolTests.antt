-- ===== src/Replay/PoolTests.antt =====
-- pkg/replay/recovery.go: runs of the workers of `Recover`.
use tieredcache.Base.{
  ℕ, ◌+◌, ◌≡◌, ◌≤◌, ◌<◌, ◌⊎◌, refl, true, false, List, [], ◌∷◌, Option, none, some, str, length,
  replicate, arith, if◌then◌else◌, ltb, subst, zero, suc,
}
use tieredcache.Common.Entry.{error_channel_buffer}
use tieredcache.Replay.Entry.{WalEntry, op_set}
use tieredcache.Replay.Pool.{
  Pool, idle, failing, finished, Choice, enter, send, close_entries, work, report, leave, step,
  enter_loop, send_entry, close_chan, take_entry, send_error, leave_loop, start, collected, Leads,
  here, and_then, IsOver,
}
use tieredcache.Replay.Pool.Counts.{failures}
use tieredcache.Replay.Pool.Invariant.{Leads-applied}
use tieredcache.Replay.Pool.Shrinks.{work_left}
use tieredcache.Replay.Pool.Ends.{Leads-goes_on}
use tieredcache.Replay.Pool.Room.{start-not-IsOver}

-- An entry of a number, and a call that fails for the numbers above 10.
abbrev entry_of : ℕ → WalEntry
entry_of n = record {
  sequence = n;
  timestamp = record { wall = []; monotonic = none };
  operation = op_set;
  key = str "k";
  value = [];
  metadata = [];
  tier = 0;
  checksum = 0;
}

abbrev apply_a : WalEntry → Option ℕ
apply_a e = if ltb 10 e.sequence then some e.sequence else none

-- Several steps, which must all be possible.
abbrev run : List Choice → Pool ℕ → Option (Pool ℕ)
run [] p = some p
run (c ∷ cs) p = elim (step apply_a c p) [ none ↦ none | some q ↦ run cs q ]

run-Leads :
    (cs : List Choice) (p m q : Pool ℕ) → Leads apply_a p m → run cs m ≡ some q → Leads apply_a p q
run-Leads [] p m q l e = subst (Leads apply_a p) (cc e) l
run-Leads (c ∷ cs) p m q l e =
    after_step (step apply_a c m) refl e (λ r at e'. run-Leads cs p r q (and_then p m r c l at) e')
  where
    after_step :
        (o : Option (Pool ℕ))
        → step apply_a c m ≡ o
        → elim o as (λ _. Option (Pool ℕ)) [ none ↦ none | some r ↦ run cs r ] ≡ some q
        → ((r : Pool ℕ) → step apply_a c m ≡ some r → run cs r ≡ some q → Leads apply_a p q)
        → Leads apply_a p q
    after_step none at e again = cc
    after_step (some r) at e again = again r at e

abbrev entries_a : List WalEntry
entries_a = entry_of 10 ∷ entry_of 11 ∷ []

abbrev end_a : Pool ℕ
end_a = record {
  waiting = [];
  held = none;
  entry_chan = [];
  closed = true;
  error_chan = none ∷ none ∷ some 11 ∷ [];
  workers = finished ∷ finished ∷ [];
  applied = entries_a;
}

abbrev steps_a : List Choice
steps_a =
    enter
    ∷ send
    ∷ enter
    ∷ send
    ∷ close_entries
    ∷ work 1
    ∷ work 0
    ∷ report 0
    ∷ leave 1
    ∷ leave 0
    ∷ []

run_a : run steps_a (start 2 entries_a) ≡ some end_a
unfolding step enter_loop send_entry close_chan take_entry send_error leave_loop start
run_a = refl

Leads-applied_example :
    (end_a.applied ≡ entries_a)
    × (length (collected end_a.error_chan) ≡ failures apply_a entries_a)
    × (failures apply_a entries_a ≤ error_channel_buffer)
Leads-applied_example =
    Leads-applied apply_a 2 entries_a end_a (omega arith)
      (run-Leads steps_a (start 2 entries_a) (start 2 entries_a) end_a (here (start 2 entries_a))
        run_a)
      tt

-- The numbers from `n` on.
abbrev entries_from : ℕ → ℕ → List WalEntry
entries_from n zero = []
entries_from n (suc k) = entry_of n ∷ entries_from (n + 1) k

-- Eleven entries, of which the last one fails, and one worker.
abbrev each : ℕ → List Choice
each zero = []
each (suc k) = enter ∷ send ∷ work 0 ∷ each k

abbrev stuck_a : Pool ℕ
stuck_a = record {
  waiting = [];
  held = none;
  entry_chan = [];
  closed = false;
  error_chan = replicate 10 none;
  workers = failing 11 ∷ [];
  applied = entries_from 1 11;
}

run_b : run (each 11) (start 1 (entries_from 1 11)) ≡ some stuck_a
unfolding step enter_loop send_entry close_chan take_entry send_error leave_loop start
run_b = refl

close_b : run (close_entries ∷ []) stuck_a ≡ some (record stuck_a { closed = true })
unfolding step enter_loop send_entry close_chan take_entry send_error leave_loop
close_b = refl

start-not-IsOver_example : ¬ (IsOver {E = ℕ} (failing 11 ∷ []))
start-not-IsOver_example =
    start-not-IsOver apply_a 1 (entries_from 1 11) 0 11 stuck_a (record stuck_a { closed = true })
      (run-Leads (each 11) (start 1 (entries_from 1 11)) (start 1 (entries_from 1 11)) stuck_a
        (here (start 1 (entries_from 1 11))) run_b)
      (omega arith) refl
      (run-Leads (close_entries ∷ []) stuck_a stuck_a (record stuck_a { closed = true })
        (here stuck_a) close_b)

-- Two workers, an entry on its way and an entry that waits.
abbrev entries_b : List WalEntry
entries_b = entry_of 1 ∷ entry_of 2 ∷ []

abbrev middle_b : Pool ℕ
middle_b = record {
  waiting = entry_of 2 ∷ [];
  held = none;
  entry_chan = entry_of 1 ∷ [];
  closed = false;
  error_chan = none ∷ [];
  workers = idle ∷ idle ∷ [];
  applied = [];
}

middle_b_reached : run (enter ∷ send ∷ []) (start 2 entries_b) ≡ some middle_b
unfolding step enter_loop send_entry close_chan take_entry send_error leave_loop start
middle_b_reached = refl

Leads-goes_on_example :
    (IsOver middle_b.workers ⊎ ((c : Choice) × (r : Pool ℕ) × (step apply_a c middle_b ≡ some r)))
    × ((c : Choice) (r : Pool ℕ)
        → step apply_a c middle_b ≡ some r
        → work_left r < work_left middle_b)
Leads-goes_on_example = Leads-goes_on apply_a 2 entries_b middle_b refl (
    run-Leads (enter ∷ send ∷ []) (start 2 entries_b) (start 2 entries_b) middle_b
      (here (start 2 entries_b)) middle_b_reached)
