-- ===== src/L0/Spec/Answers.antt =====
-- pkg/l0/l0_cache.go: the calls of a program on the cache, with what each returns.
use tieredcache.Base.{List, [], ◌∷◌, Run, done, ◌>>=◌}
use tieredcache.L0.State.{Cache}
use tieredcache.L0.Ops.{get, set_value, delete, get_or_set, demote}
use tieredcache.L0.Ops.Total.{Call, get_call, set_call, delete_call, get_or_set_call, demote_call}
use tieredcache.L0.Spec.{Reply, value_reply, error_reply, stored_reply}

unfoldable pub answer : Call → Cache → Run (Cache × Reply)
answer (get_call key now) c = do (c', r) ← get c key now; done (c', value_reply r)
answer (set_call key value ttl now) c = do
  (c', err) ← set_value c key value ttl now
  done (c', error_reply err)
answer (delete_call key) c = do (c', err) ← delete c key; done (c', error_reply err)
answer (get_or_set_call key value ttl now) c = do
  (c', r) ← get_or_set c key value ttl now
  done (c', stored_reply r)
answer (demote_call key) c = do (c', err) ← demote c key; done (c', error_reply err)

unfoldable pub answer_all : List Call → Cache → Run (Cache × List Reply)
answer_all [] c = done (c, [])
answer_all (x ∷ calls) c = do
  (c', r) ← answer x c
  (c'', rs) ← answer_all calls c'
  done (c'', r ∷ rs)
