-- ===== src/L2/Sinks.antt =====
-- pkg/l2/sinks.go: the sink manager. A sink is what lies behind the interface `Sink`: here its name and
-- its type; what the sinks answer to a call, and the order in which the goroutines of the call end, are
-- arguments of the call.
use tieredcache.Base.{
  ℕ, ◌+◌, ◌-◌, ◌*◌, ◌/◌, ◌^◌, Bool, true, false, List, [], ◌∷◌, ◌++◌, Option, none, some, Bytes,
  str, ltb, if◌then◌else◌, is_empty, lookup, insert, length, add64, u64,
}
use tieredcache.Common.Errors.{GoError, nil, text, wrap, is_nil}

pub record Sink : Type 0 where
  pub name : Bytes
  pub sink_type : Bytes

-- `SinkStats`. The average latency is an int64, by its 64-bit pattern.
pub record SinkStats : Type 0 where
  pub name : Bytes
  pub sink_type : Bytes
  pub writes : ℕ
  pub reads : ℕ
  pub deletes : ℕ
  pub errors : ℕ
  pub bytes_written : ℕ
  pub bytes_read : ℕ
  pub latency_avg : ℕ

pub record SinkManager : Type 0 where
  pub sinks : List (Bytes × Sink)
  pub stats : List (Bytes × SinkStats)
  pub closed : Bool

-- `NewSinkManager`
abbrev pub new_sink_manager : SinkManager
new_sink_manager = record { sinks = []; stats = []; closed = false }

abbrev pub new_stats : Sink → SinkStats
new_stats s = record {
  name = s.name;
  sink_type = s.sink_type;
  writes = 0;
  reads = 0;
  deletes = 0;
  errors = 0;
  bytes_written = 0;
  bytes_read = 0;
  latency_avg = 0;
}

-- The rest of `RegisterSink`, on what the manager has under the name.
abbrev pub register_new : Sink → SinkManager → Option Sink → SinkManager × GoError
register_new s m (some _) = (m, text (str "sink " ++ (s.name ++ str " already registered")))
register_new s m none =
    (record m { sinks = insert s.name s m.sinks; stats = insert s.name (new_stats s) m.stats }, nil)

-- `RegisterSink`; a nil sink is `none`.
unfoldable pub register_sink : Option Sink → SinkManager → SinkManager × GoError
register_sink none m = (m, text (str "sink cannot be nil"))
register_sink (some s) m =
    if is_empty s.name
    then (m, text (str "sink name cannot be empty"))
    else register_new s m (lookup s.name m.sinks)

-- `GetSink`
unfoldable pub get_sink : Bytes → SinkManager → Option Sink
get_sink name m = lookup name m.sinks

-- A division of int64 values by a positive one, towards 0.
abbrev pub div_int64 : ℕ → ℕ → ℕ
div_int64 x n = if ltb x (2 ^ 63) then x / n else u64 (2 ^ 64 - (2 ^ 64 - x) / n)

-- What the goroutine of `Write` does to the statistics of its sink: `Writes` is counted twice. The count
-- is not 0 again before 2^64 writes.
unfoldable pub count_write : ℕ → GoError → ℕ → SinkStats → SinkStats
count_write n err duration s =
    let once = add64 s.writes 1 in
    let errors' = if is_nil err then s.errors else add64 s.errors 1 in
    let count = add64 once 1 in
    record s {
      writes = count;
      bytes_written = add64 s.bytes_written n;
      errors = errors';
      latency_avg = div_int64 (u64 (s.latency_avg * (count - 1) + duration)) count;
    }

-- `if stats, ok := m.stats[name]; ok`
unfoldable pub update_stats :
    Bytes → (SinkStats → SinkStats) → List (Bytes × SinkStats) → List (Bytes × SinkStats)
update_stats q f stats = elim (lookup q stats) [ none ↦ stats | some s ↦ insert q (f s) stats ]

-- `if err != nil { lastErr = err }`
abbrev pub newer_error : GoError → GoError → GoError
newer_error last err = if is_nil err then last else err

-- What each sink answers, by its name.
abbrev pub Answers : Type 0
Answers = Bytes → GoError

-- The goroutines of `Write`, in the order in which they end.
unfoldable pub write_each :
    ℕ → Answers → (Bytes → ℕ) → List Bytes → SinkManager → GoError → SinkManager × GoError
write_each n answers durations [] m last = (m, last)
write_each n answers durations (q ∷ order) m last =
    write_each n answers durations order
      (record m { stats = update_stats q (count_write n (answers q) (durations q)) m.stats })
      (newer_error last (answers q))

abbrev pub has_sinks : List (Bytes × Sink) → Bool
has_sinks [] = false
has_sinks (_ ∷ _) = true

abbrev pub no_sinks : GoError
no_sinks = text (str "no sinks registered")

-- `Write` of a value
unfoldable pub write_sinks :
    Bytes → Answers → (Bytes → ℕ) → List Bytes → SinkManager → SinkManager × GoError
write_sinks value answers durations order m =
    if has_sinks m.sinks
    then write_each (length value) answers durations order m nil
    else (m, no_sinks)

-- The goroutines of `WriteBatch` and of `Delete`
abbrev pub errors_of : Answers → List Bytes → GoError → GoError
errors_of answers [] last = last
errors_of answers (q ∷ order) last = errors_of answers order (newer_error last (answers q))

-- `WriteBatch` of some number of items
unfoldable pub write_batch : ℕ → Answers → List Bytes → SinkManager → GoError
write_batch items answers order m =
    if ltb 0 items then if has_sinks m.sinks then errors_of answers order nil else no_sinks else nil

-- `Delete`
unfoldable pub delete_sinks : Answers → List Bytes → SinkManager → GoError
delete_sinks answers order m = errors_of answers order nil

-- `PingAll`
unfoldable pub ping_each : Answers → List Bytes → List (Bytes × GoError) → List (Bytes × GoError)
ping_each answers [] results = results
ping_each answers (q ∷ order) results = ping_each answers order (insert q (answers q) results)

unfoldable pub ping_all : Answers → List Bytes → SinkManager → List (Bytes × GoError)
ping_all answers order m = ping_each answers order []

-- The loop of `Close`: the errors, each with the name of its sink.
unfoldable pub close_errors : Answers → List (Bytes × Sink) → List GoError
close_errors answers [] = []
close_errors answers ((name, _) ∷ sinks) =
    let rest = close_errors answers sinks in
    if is_nil (answers name) then rest else wrap (name ++ str ": ") (answers name) ∷ rest

abbrev pub closing_error : (List GoError → Bytes) → List GoError → GoError
closing_error shown [] = nil
closing_error shown errors = text (str "errors closing sinks: " ++ shown errors)

-- `Close`; `shown` is `%v` of a list of errors.
unfoldable pub close_sinks : (List GoError → Bytes) → Answers → SinkManager → SinkManager × GoError
close_sinks shown answers m =
    if m.closed
    then (m, nil)
    else (record m { closed = true }, closing_error shown (close_errors answers m.sinks))
