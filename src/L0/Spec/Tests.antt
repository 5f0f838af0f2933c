-- ===== src/L0/Spec/Tests.antt =====
-- A run of calls on a small cache, against the specification.
use tieredcache.Base.{refl, List, [], ◌∷◌, str, pos, Returns}
use tieredcache.L0.Sample.{cache_a, cache_a-IsCache}
use tieredcache.L0.Ops.Total.{Call, get_call, set_call, delete_call}
use tieredcache.L0.Spec.{Trace}
use tieredcache.L0.Spec.Answers.{answer_all}
use tieredcache.L0.Spec.Steps.{view}
use tieredcache.L0.Spec.Refines.{answer_all-Trace}

abbrev calls_a : List Call
calls_a =
    set_call (str "b") (1 ∷ []) (pos 0) 200
    ∷ get_call (str "b") 300
    ∷ delete_call (str "b")
    ∷ get_call (str "b") 400
    ∷ []

answer_all-Trace_example :
    Returns (answer_all calls_a cache_a) (λ r. Trace 3 (view cache_a) calls_a r.1 (view r.0))
answer_all-Trace_example = answer_all-Trace calls_a cache_a cache_a-IsCache refl
