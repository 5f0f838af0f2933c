-- ===== src/L2/SinkTests.antt =====
-- pkg/l2/sinks.go: runs on two sinks, and instances of the theorems.
use tieredcache.Base.{
  ℕ, ◌≡◌, ◌≢◌, refl, ◌↔◌, ◌⊎◌, true, false, [], ◌∷◌, none, some, Bytes, str, bytes_eq, lookup,
  insert, if◌then◌else◌, arith, bytes_eq_iff,
}
use tieredcache.Common.Errors.{nil, code, timeout}
use tieredcache.L2.Sinks.{
  Sink, SinkManager, Answers, new_stats, new_sink_manager, register_sink, get_sink, write_sinks,
  write_each, count_write, update_stats, ping_all, ping_each, delete_sinks, close_sinks,
}
use tieredcache.L2.Counted.{
  mem, is_registered, changed, counts, write_sinks-Counts, register_sink-Registers,
}

abbrev sink_at : Bytes → Sink
sink_at name = record { name = name; sink_type = str "kafka" }

abbrev manager_a : SinkManager
manager_a = record {
  sinks = (str "a", sink_at (str "a")) ∷ (str "b", sink_at (str "b")) ∷ [];
  stats = (str "a", new_stats (sink_at (str "a"))) ∷ (str "b", new_stats (sink_at (str "b"))) ∷ [];
  closed = false;
}

-- The sink "b" fails.
abbrev answers_a : Answers
answers_a q = if bytes_eq q (str "b") then code timeout else nil

abbrev durations_a : Bytes → ℕ
durations_a q = 10

registered_a : (q : Bytes) → mem q (str "b" ∷ str "a" ∷ []) ≡ is_registered q manager_a
unfolding lookup
registered_a q = ground (
  arith,
  bytes_eq_iff q (str "a"),
  bytes_eq_iff q (str "b"),
  bytes_eq_iff (str "a") q,
  bytes_eq_iff (str "b") q,
)

names_apart : (bytes_eq (str "b") (str "a") ≡ false)
unfolding bytes_eq
names_apart = refl

write_sinks-Counts_example :
    let (m', err) =
      write_sinks (1 ∷ 2 ∷ []) answers_a durations_a (str "b" ∷ str "a" ∷ []) manager_a in
    ((q : Bytes)
      → lookup q m'.stats ≡ (
          if is_registered q manager_a
          then changed (counts 2 answers_a durations_a q) (lookup q manager_a.stats)
          else lookup q manager_a.stats))
    × ((err ≡ nil) ↔ ((q : Bytes) → is_registered q manager_a ≡ true → answers_a q ≡ nil))
    × (m'.sinks ≡ manager_a.sinks)
write_sinks-Counts_example =
    write_sinks-Counts 2 answers_a durations_a (1 ∷ 2 ∷ []) (str "b" ∷ str "a" ∷ []) manager_a refl
      refl (rw names_apart refl, (refl, tt)) registered_a

register_sink-Registers_example :
    let (m', err) = register_sink (some (sink_at (str "c"))) manager_a in
    ((str "c" ≢ [])
      × (get_sink (str "c") manager_a ≡ none)
      × (err ≡ nil)
      × ((q : Bytes)
          → lookup q m'.stats ≡ (
              if bytes_eq (str "c") q
              then some (new_stats (sink_at (str "c")))
              else lookup q manager_a.stats))
      × ((q : Bytes)
          → get_sink q m'
            ≡ (if bytes_eq (str "c") q then some (sink_at (str "c")) else get_sink q manager_a))
      × (m'.closed ≡ manager_a.closed))
    ⊎ (((str "c" ≡ []) ⊎ (get_sink (str "c") manager_a ≢ none)) × (err ≢ nil) × (m' ≡ manager_a))
register_sink-Registers_example = register_sink-Registers (sink_at (str "c")) manager_a

-- Two registrations and a write: the counter of writes says 2 after one write of "a".
one_write_counts_two :
    (s : _) × (lookup
        (str "a")
        (write_sinks
          (7 ∷ [])
          (λ q. nil)
          durations_a
          (str "a" ∷ [])
          (register_sink (some (sink_at (str "a"))) new_sink_manager).0).0.stats
      ≡ some s)
    × (s.writes ≡ 2)
    × (s.latency_avg ≡ 5)
unfolding write_sinks write_each count_write update_stats register_sink lookup insert bytes_eq
one_write_counts_two = (_, refl, refl, refl)

ping_has_both :
    ping_all answers_a (str "a" ∷ str "b" ∷ []) manager_a
    ≡ (str "a", nil) ∷ (str "b", code timeout) ∷ []
unfolding ping_all ping_each insert bytes_eq
ping_has_both = refl

last_error_of_delete : delete_sinks answers_a (str "b" ∷ str "a" ∷ []) manager_a ≡ code timeout
unfolding delete_sinks bytes_eq
last_error_of_delete = refl

closes_once :
    close_sinks (λ es. str "[]") answers_a (record manager_a { closed = true })
    ≡ (record manager_a { closed = true }, nil)
unfolding close_sinks
closes_once = refl
