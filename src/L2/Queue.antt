-- ===== src/L2/Queue.antt =====
-- pkg/l2/retry.go: the retry queue and the dead letter queue. The files of a queue are a list, by
-- name; a file that cannot be read or parsed stands as `none`.
use tieredcache.Base.{
  ℕ, Bool, List, [], ◌∷◌, ◌++◌, Option, none, some, Bytes, str, ltb, leb, length, if◌then◌else◌,
  decimal, ◌&&◌, insert,
}
use tieredcache.Common.Errors.{GoError, nil, text, error_text}

-- `SinkItem`. A nil map of metadata is an empty list.
pub record SinkItem : Type 0 where
  pub key : Bytes
  pub value : Bytes
  pub metadata : List (Bytes × Bytes)
  pub timestamp : Bytes

abbrev pub Files : Type 0
Files = List (Bytes × Option SinkItem)

-- `RetryQueue` and `DeadLetterQueue` have the same fields. A `max_size` that is not positive is 0.
pub record Queue : Type 0 where
  pub items : List SinkItem
  pub max_size : ℕ
  pub has_disk : Bool
  pub files : Files

-- `NewRetryQueue` and `NewDeadLetterQueue`, when the directory can be made.
unfoldable pub new_queue : Bool → ℕ → Files → Queue
new_queue has_disk max_size files = record {
  items = [];
  max_size = max_size;
  has_disk = has_disk;
  files = files;
}

abbrev pub is_full : Queue → Bool
is_full q = ltb 0 q.max_size && leb q.max_size (length q.items)

-- `persistToDisk` at a time in nanoseconds; a failure is dropped.
unfoldable pub persist_to_disk : ℕ → Bool → SinkItem → Queue → Queue
persist_to_disk nano written item q =
    if q.has_disk && written
    then record q {
      files = insert (str "retry_" ++ (decimal nano ++ str ".json")) (some item) q.files;
    }
    else q

-- `RetryQueue.Add`
unfoldable pub add : ℕ → Bool → SinkItem → Queue → Queue × GoError
add nano written item q =
    if is_full q
    then (q, text (str "retry queue is full (" ++ (decimal q.max_size ++ str " items)")))
    else (persist_to_disk nano written item (record q { items = q.items ++ item ∷ [] }), nil)

-- `GetAll`. The files stay.
unfoldable pub get_all : Queue → Queue × List SinkItem
get_all q = (record q { items = [] }, q.items)

-- `Size`
unfoldable pub size : Queue → ℕ
size q = length q.items

-- The loop of `LoadFromDisk`: the items that can be read, and the files that are left.
unfoldable pub load_files : Files → List SinkItem × Files
load_files [] = ([], [])
load_files ((name, none) ∷ files) = let rest = load_files files in (rest.0, (name, none) ∷ rest.1)
load_files ((name, some item) ∷ files) = let rest = load_files files in (item ∷ rest.0, rest.1)

-- `LoadFromDisk`, when the directory can be listed. The queue's limit is not looked at.
unfoldable pub load_from_disk : Queue → Queue
load_from_disk q =
    let loaded = load_files q.files in
    if q.has_disk then record q { items = q.items ++ loaded.0; files = loaded.1 } else q

-- The item as `DeadLetterQueue.Add` marks it.
unfoldable pub mark : GoError → Bytes → SinkItem → SinkItem
mark reason now item = record item {
  metadata =
      insert (str "dlq_timestamp") now
        (insert (str "dlq_reason") (error_text reason) item.metadata);
}

-- The end of `DeadLetterQueue.Add`: the write of the file, of which an error is returned.
unfoldable pub persist_dead : ℕ → GoError → SinkItem → Queue → Queue × GoError
persist_dead nano failure item q =
    if q.has_disk
    then elim failure as (λ _. Queue × GoError) [
      | nil ↦ (
        record q {
          files = insert (str "dlq_" ++ (decimal nano ++ str ".json")) (some item) q.files;
        },
        nil,
      )
      | err ↦ (q, err)
    ]
    else (q, nil)

-- `DeadLetterQueue.Add`
unfoldable pub add_dead : ℕ → GoError → Bytes → SinkItem → GoError → Queue → Queue × GoError
add_dead nano failure now item reason q =
    let item' = mark reason now item in
    if is_full q
    then (q, text (str "dead letter queue is full (" ++ (decimal q.max_size ++ str " items)")))
    else persist_dead nano failure item' (record q { items = q.items ++ item' ∷ [] })
