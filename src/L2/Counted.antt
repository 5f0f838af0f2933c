-- ===== src/L2/Counted.antt =====
-- pkg/l2/sinks.go: which sinks are registered, and what `Write` counts, in any order of its goroutines.
use tieredcache.Base.{
  ℕ, ◌+◌, ◌-◌, ◌*◌, u64, add64, ◌≡◌, ◌≢◌, refl, ◌↔◌, ◌∙◌, ap, subst, sym, Bool, true, false, inl,
  inr, ◌⊎◌, List, [], ◌∷◌, Option, none, some, Bytes, bytes_eq, bytes_eq_refl, bytes_eq_iff,
  is_empty, lookup, lookup-insert, length, ◌||◌, ◌&&◌, if◌then◌else◌, Bool-cases, Option-cases,
  arith,
}
use tieredcache.Common.Errors.{GoError, nil, is_nil}
use tieredcache.L2.Sinks.{
  Sink, SinkStats, SinkManager, Answers, new_stats, register_sink, get_sink, count_write, div_int64,
  update_stats, newer_error, write_each, write_sinks, has_sinks,
}

abbrev pub mem : Bytes → List Bytes → Bool
mem q [] = false
mem q (p ∷ order) = bytes_eq q p || mem q order

-- A sink is registered under the name.
abbrev pub is_registered : Bytes → SinkManager → Bool
is_registered q m = elim (lookup q m.sinks) [ none ↦ false | some _ ↦ true ]

-- Each name once.
abbrev pub Distinct : List Bytes → Type 0
Distinct [] = Unit
Distinct (q ∷ order) = (mem q order ≡ false) × Distinct order

abbrev pub changed : (SinkStats → SinkStats) → Option SinkStats → Option SinkStats
changed f none = none
changed f (some s) = some (f s)

update_stats_self :
    (q : Bytes) (f : SinkStats → SinkStats) (stats : List (Bytes × SinkStats))
    → lookup q (update_stats q f stats) ≡ changed f (lookup q stats)
unfolding update_stats
update_stats_self q f stats = elim (Option-cases (lookup q stats)) [
  | inl absent ↦ ground (arith, absent)
  | inr (s, found) ↦ ground (arith, found, bytes_eq_refl q, lookup-insert q q (f s) stats)
]

update_stats-ne :
    (p q : Bytes) (f : SinkStats → SinkStats) (stats : List (Bytes × SinkStats))
    → bytes_eq p q ≡ false
    → lookup q (update_stats p f stats) ≡ lookup q stats
unfolding update_stats
update_stats-ne p q f stats ne = elim (Option-cases (lookup p stats)) [
  | inl absent ↦ ground (arith, absent)
  | inr (s, found) ↦ ground (arith, found, ne, lookup-insert p q (f s) stats)
]

is_nil→nil : (e : GoError) → is_nil e ≡ true → e ≡ nil
is_nil→nil e h = ground arith

module _ (n : ℕ) (answers : Answers) (durations : Bytes → ℕ) where
  abbrev step_of : Bytes → SinkStats → SinkStats
  step_of q = count_write n (answers q) (durations q)

  -- The statistics of a sink after a `Write`: two writes more, the bytes of the value, an error if the sink
  -- has answered with one, and an average over the new count.
  abbrev pub counts : Bytes → SinkStats → SinkStats
  counts q s =
      let count = u64 (s.writes + 2) in
      record {
        name = s.name;
        sink_type = s.sink_type;
        writes = count;
        reads = s.reads;
        deletes = s.deletes;
        errors = if is_nil (answers q) then s.errors else u64 (s.errors + 1);
        bytes_written = u64 (s.bytes_written + n);
        bytes_read = s.bytes_read;
        latency_avg = div_int64 (u64 (s.latency_avg * (count - 1) + durations q)) count;
      }

  step_of-counts : (q : Bytes) (s : SinkStats) → step_of q s ≡ counts q s
  unfolding count_write
  step_of-counts q s =
      let twice : add64 (add64 s.writes 1) 1 ≡ u64 (s.writes + 2) = omega arith in rw twice refl

  changed-counts : (q : Bytes) (o : Option SinkStats) → changed (step_of q) o ≡ changed (counts q) o
  changed-counts q none = refl
  changed-counts q (some s) = ap some (step_of-counts q s)

  write_each-lookup :
      (order : List Bytes) (m : SinkManager) (last : GoError) (q : Bytes)
      → Distinct order
      → lookup q (write_each n answers durations order m last).0.stats
        ≡ (if mem q order then changed (step_of q) (lookup q m.stats) else lookup q m.stats)
  unfolding write_each
  write_each-lookup [] m last q d = refl
  write_each-lookup (p ∷ order) m last q d =
      let stats = update_stats p (step_of p) m.stats in
      let rest =
        write_each-lookup order (record m { stats = stats }) (newer_error last (answers p)) q d.1 in
      elim (Bool-cases (bytes_eq q p)) [
        | inl same ↦
            let e : q ≡ p = (bytes_eq_iff q p).0 same in
            let left : mem q order ≡ false = rw e d.0 in
            rw same (
              rest
              ∙ rw left (
                  subst
                    (λ x.
                      lookup q (update_stats x (step_of x) m.stats)
                      ≡ changed (step_of q) (lookup q m.stats))
                    e (update_stats_self q (step_of q) m.stats)))
        | inr other ↦
            let apart : bytes_eq p q ≡ false = ground (arith, bytes_eq_iff q p, bytes_eq_iff p q) in
            rw other (rest ∙ rw (update_stats-ne p q (step_of p) m.stats apart) refl)
      ]

  -- All answers of the order are nil, and there was no error before.
  abbrev all_nil : List Bytes → Bool
  all_nil [] = true
  all_nil (q ∷ order) = is_nil (answers q) && all_nil order

  write_each-is_nil :
      (order : List Bytes) (m : SinkManager) (last : GoError)
      → is_nil (write_each n answers durations order m last).1 ≡ (is_nil last && all_nil order)
  unfolding write_each
  write_each-is_nil [] m last = ground arith
  write_each-is_nil (p ∷ order) m last =
      write_each-is_nil order _ (newer_error last (answers p)) ∙ ground arith

  all_nil_iff :
      (order : List Bytes)
      → (all_nil order ≡ true) ↔ ((q : Bytes) → mem q order ≡ true → is_nil (answers q) ≡ true)
  all_nil_iff [] = (λ _ q h. cc, λ _. refl)
  all_nil_iff (p ∷ order) =
      let (only, if_all) = all_nil_iff order in
      (
        λ e q h. elim (Bool-cases (bytes_eq q p)) [
          | inl same ↦ ground (arith, bytes_eq_iff q p)
          | inr other ↦ only (ground arith) q (ground arith)
        ],
        λ h.
            let first : is_nil (answers p) ≡ true = h p (rw (bytes_eq_refl p) refl) in
            let rest : all_nil order ≡ true = if_all (λ q k. h q (ground arith)) in
            rw (first, rest) refl,
      )

  write_each-sinks :
      (order : List Bytes) (m : SinkManager) (last : GoError)
      → (write_each n answers durations order m last).0.sinks ≡ m.sinks
  unfolding write_each
  write_each-sinks [] m last = refl
  write_each-sinks (p ∷ order) m last = write_each-sinks order _ (newer_error last (answers p))

  -- `Write`, where at least one sink is registered and the goroutine of each registered sink ends once,
  -- in any order: the statistics of each registered sink count two writes, the bytes of the value, and
  -- one error if the sink answered with one, and those of every other name stay; the result is nil exactly
  -- if every registered sink answered nil. The sinks stay.
  pub write_sinks-Counts :
      (value : Bytes) (order : List Bytes) (m : SinkManager)
      → length value ≡ n
      → has_sinks m.sinks ≡ true
      → Distinct order
      → ((q : Bytes) → mem q order ≡ is_registered q m)
      → let (m', err) = write_sinks value answers durations order m in
        ((q : Bytes)
          → lookup q m'.stats ≡ (
              if is_registered q m
              then changed (counts q) (lookup q m.stats)
              else lookup q m.stats))
        × ((err ≡ nil) ↔ ((q : Bytes) → is_registered q m ≡ true → answers q ≡ nil))
        × (m'.sinks ≡ m.sinks)
  unfolding write_sinks
  write_sinks-Counts value order m e some_sink d runs =
      rw (e, some_sink)
        (
          λ q.
              rw (← runs q, ← changed-counts q (lookup q m.stats))
                (write_each-lookup order m nil q d),
          (
            λ ok q h. is_nil→nil (answers q) (
                (all_nil_iff order).0 (sym (write_each-is_nil order m nil) ∙ ap is_nil ok) q
                  (runs q ∙ h)),
            λ h. is_nil→nil _ (
                write_each-is_nil order m nil
                ∙ (all_nil_iff order).1 (λ q k. rw (h q (sym (runs q) ∙ k)) refl)),
          ),
          write_each-sinks order m nil,
        )

-- `RegisterSink` of a sink: with a name that is not empty and that no sink has, it returns nil, the sink is
-- found under its name with its statistics all 0, and every other name has the sink and the statistics that
-- it had; the manager is closed or open as before. Otherwise it returns an error and changes nothing.
pub register_sink-Registers :
    (s : Sink) (m : SinkManager)
    → let (m', err) = register_sink (some s) m in
      ((s.name ≢ [])
        × (get_sink s.name m ≡ none)
        × (err ≡ nil)
        × ((q : Bytes)
            → lookup q m'.stats
              ≡ (if bytes_eq s.name q then some (new_stats s) else lookup q m.stats))
        × ((q : Bytes) → get_sink q m' ≡ (if bytes_eq s.name q then some s else get_sink q m))
        × (m'.closed ≡ m.closed))
      ⊎ (((s.name ≡ []) ⊎ (get_sink s.name m ≢ none)) × (err ≢ nil) × (m' ≡ m))
unfolding register_sink get_sink
register_sink-Registers s m = elim (Bool-cases (is_empty s.name)) [
  | inl no_name ↦ inr (inl (ground arith), rw no_name (λ e. cc), rw no_name refl)
  | inr name ↦ elim (Option-cases (lookup s.name m.sinks)) [
    | inr (old, found) ↦ rw (name, found) (inr (inr (λ e. cc), (λ e. cc), refl))
    | inl absent ↦
        rw (name, absent)
          (inl (
            (ground arith),
            refl,
            refl,
            λ q. lookup-insert s.name q (new_stats s) m.stats,
            λ q. lookup-insert s.name q s m.sinks,
            refl,
          ))
  ]
]
