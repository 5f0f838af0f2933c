-- ===== src/L0/Spec/Refines.antt =====
-- pkg/l0/l0_cache.go: the calls of the cache are steps of its specification.
use tieredcache.Base.{
  ℕ, ◌≡◌, refl, ◌∙◌, subst, false, inl, inr, List, [], ◌∷◌, Bytes, Bool-cases, Option-cases, arith,
  ℤ, Returns, Returns-bind,
}
use tieredcache.L0.State.{Cache}
use tieredcache.L0.Shard.{IsCache}
use tieredcache.L0.Ops.{get_or_set}
use tieredcache.L0.Ops.Written.{SameConfig-trans}
use tieredcache.L0.Ops.Total.{Call, get_call, set_call, delete_call, get_or_set_call, demote_call}
use tieredcache.L0.Spec.{bad_key, bad_value, Trace, stay, then_call, kept, newly_stored, not_stored}
use tieredcache.L0.Spec.Answers.{answer, answer_all}
use tieredcache.L0.Spec.Steps.{
  view, Done, same_config, Stored-after, set_result-fail, set_value-Stored, set_value-bad, get-bad,
  get-good, answer-get, answer-set, answer-delete, answer-demote,
}

module _ (c : Cache) (h : IsCache c) (is_open : c.closed ≡ false) where
  answer-get_or_set :
      (key value : Bytes) (ttl : ℤ) (now : ℕ)
      → Returns
          (answer (get_or_set_call key value ttl now) c)
          (Done c (get_or_set_call key value ttl now))
  unfolding answer get_or_set
  answer-get_or_set key value ttl now = elim (Bool-cases (bad_key c.max_payload key)) [
    | inl bad ↦
        let (err, ran, not_nil, other) = get-bad c h is_open key now bad in
        rw ran (
          rw other (record {
            valid = h;
            config = same_config c;
            step = not_stored key value ttl now err (rw bad refl) not_nil (λ t q. refl);
          }))
    | inr good ↦
        let (c1, ran, reads) = get-good c h is_open key now good in
        elim (Option-cases (view c now key)) [
          | inr (v, shown) ↦
              rw (ran, shown)
                (record {
                  valid = reads.valid;
                  config = reads.config;
                  step = kept key value v ttl now good shown reads.shows;
                })
          | inl absent ↦
              rw (ran, absent)
                (elim (Bool-cases (bad_value c.max_payload value)) [
                  | inl bad ↦
                      let (err, ran1, not_nil) =
                        set_value-bad c1 reads.valid (reads.config.closed ∙ is_open) key value ttl
                          now (rw reads.config.max_payload (ground arith)) in
                      rw (ran1, set_result-fail value err not_nil)
                        (record {
                          valid = reads.valid;
                          config = reads.config;
                          step =
                              not_stored key value ttl now err (ground arith) not_nil reads.shows;
                        })
                  | inr fine ↦
                      let (c2, ran1, h2, config, s) =
                        set_value-Stored c1 reads.valid (reads.config.closed ∙ is_open) key value
                          ttl now (rw reads.config.max_payload (ground arith)) in
                      rw ran1 (record {
                        valid = h2;
                        config = SameConfig-trans c c1 c2 reads.config config;
                        step =
                            newly_stored key value ttl now (ground arith) absent
                              (Stored-after reads.shows s);
                      })
                ])
        ]
  ]

  answer-Done : (x : Call) → Returns (answer x c) (Done c x)
  answer-Done (get_call key now) = answer-get c h is_open key now
  answer-Done (set_call key value ttl now) = answer-set c h is_open key value ttl now
  answer-Done (delete_call key) = answer-delete c h is_open key
  answer-Done (get_or_set_call key value ttl now) = answer-get_or_set key value ttl now
  answer-Done (demote_call key) = answer-demote c h is_open key

-- The cache refines its specification: on an open, well-formed cache any calls, in any order and with
-- any arguments, come to an end without a panic, and what they return and leave is a trace of the map
-- that shows values until they expire and that may lose other keys when a value is stored.
pub answer_all-Trace :
    (calls : List Call) (c : Cache)
    → IsCache c
    → c.closed ≡ false
    → Returns (answer_all calls c) (λ r. Trace c.max_payload (view c) calls r.1 (view r.0))
unfolding answer_all
answer_all-Trace [] c h is_open = stay (view c)
answer_all-Trace (x ∷ calls) c h is_open =
    Returns-bind (answer x c) _ (Done c x) _ (answer-Done c h is_open x) (λ (c', r) d.
      Returns-bind (answer_all calls c') _ _ _
        (answer_all-Trace calls c' d.valid (d.config.closed ∙ is_open))
        (λ (c'', rs) trace.
          then_call (view c) (view c') (view c'') x r calls rs d.step
            (subst (λ n. Trace n (view c') calls rs (view c'')) d.config.max_payload trace)))
