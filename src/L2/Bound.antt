-- ===== src/L2/Bound.antt =====
-- pkg/l2/retry.go: what a queue accepts, gives back and finds on disk.
use mathlib.Core.List.{append_assoc, append-nil}
use tieredcache.Base.{
  ℕ, zero, suc, ◌+◌, ◌-◌, ◌≤◌, ◌<◌, ◌≡◌, refl, Bool, true, false, List, [], ◌∷◌, ◌++◌, none, some,
  Bytes, str, length, if◌then◌else◌, take, arith, ap, sym, ◌∙◌, Bool-cases, inl, inr, decimal,
  lookup, insert, length-append, bytes_eq,
}
use tieredcache.L2.Queue.{
  SinkItem, Files, Queue, new_queue, is_full, persist_to_disk, add, get_all, load_files,
  load_from_disk,
}

-- Several calls of `Add`: the time and the outcome of the write to disk, and the item.
abbrev pub add_all : List (ℕ × Bool × SinkItem) → Queue → Queue
add_all [] q = q
add_all ((nano, written, item) ∷ xs) q = add_all xs (add nano written item q).0

abbrev pub items_of : List (ℕ × Bool × SinkItem) → List SinkItem
items_of [] = []
items_of ((_, _, item) ∷ xs) = item ∷ items_of xs

persist_same :
    (nano : ℕ) (written : Bool) (item : SinkItem) (q : Queue)
    → ((persist_to_disk nano written item q).items ≡ q.items)
      × ((persist_to_disk nano written item q).max_size ≡ q.max_size)
unfolding persist_to_disk
persist_same nano written item q = ground arith

add-items :
    (nano : ℕ) (written : Bool) (item : SinkItem) (q : Queue)
    → ((add nano written item q).0.items ≡ (if is_full q then q.items else q.items ++ item ∷ []))
      × ((add nano written item q).0.max_size ≡ q.max_size)
unfolding add
add-items nano written item q =
    ground (arith, persist_same nano written item (record q { items = q.items ++ item ∷ [] }))

take_none : (n : ℕ) (xs : List SinkItem) → n ≡ 0 → take n xs ≡ []
take_none n xs e = ap (λ k. take k xs) e

take_of_nil : (n : ℕ) → take {A = SinkItem} n [] ≡ []
take_of_nil zero = refl
take_of_nil (suc n) = refl

-- From a queue with a limit, and not over it, calls of `Add` keep the first items that there is room
-- for, in the order of the calls, and refuse the others; `GetAll` then gives back exactly these.
pub add_all-items :
    (xs : List (ℕ × Bool × SinkItem)) (q : Queue)
    → 0 < q.max_size
    → length q.items ≤ q.max_size
    → (get_all (add_all xs q)).1 ≡ q.items ++ take (q.max_size - length q.items) (items_of xs)
unfolding get_all
add_all-items [] q limited fits =
    sym (ap (λ l. q.items ++ l) (take_of_nil (q.max_size - length q.items)) ∙ append-nil q.items)
add_all-items ((nano, written, item) ∷ xs) q limited fits =
    let q' = (add nano written item q).0 in
    let (items, limit) = add-items nano written item q in
    let m = q.max_size - length q.items in
    let m' = q'.max_size - length q'.items in
    elim (Bool-cases (is_full q)) [
      | inl full ↦
          let same : q'.items ≡ q.items = rw full at items in
          let over : q.max_size ≤ length q.items = ground (arith, full) in
          let none_now : m ≡ 0 = omega (arith, over) in
          let none_then : m' ≡ 0 = omega (arith, over, limit, ap length same) in
          add_all-items xs q' (omega (arith, limit)) (omega (arith, limit, ap length same, fits))
          ∙ ap (λ l. q'.items ++ l) (take_none m' (items_of xs) none_then)
          ∙ append-nil q'.items
          ∙ same
          ∙ sym (
              ap (λ l. q.items ++ l) (take_none m (item ∷ items_of xs) none_now)
              ∙ append-nil q.items)
      | inr room ↦
          let more : q'.items ≡ q.items ++ item ∷ [] = rw room at items in
          let longer : length q'.items ≡ length q.items + 1 =
            ap length more ∙ length-append q.items (item ∷ []) in
          let under : length q.items < q.max_size = ground (arith, room, limited) in
          let one_less : suc m' ≡ m = omega (arith, under, limit, longer) in
          add_all-items xs q' (omega (arith, limit)) (omega (arith, limit, longer, under))
          ∙ ap (λ l. l ++ take m' (items_of xs)) more
          ∙ append_assoc q.items (item ∷ []) (take m' (items_of xs))
          ∙ ap (λ n. q.items ++ take n (item ∷ items_of xs)) one_less
    ]

load_files-insert :
    (name : Bytes) (item : SinkItem) (files : Files)
    → lookup name files ≡ none
    → (load_files (insert name (some item) files)).0 ≡ (load_files files).0 ++ item ∷ []
unfolding load_files insert lookup
load_files-insert name item [] absent = refl
load_files-insert name item ((other, none) ∷ files) absent =
    elim (Bool-cases (bytes_eq other name)) [
      | inl hit ↦ cc (rw hit at absent)
      | inr ne ↦ rw ne (load_files-insert name item files (rw ne at absent))
    ]
load_files-insert name item ((other, some x) ∷ files) absent =
    elim (Bool-cases (bytes_eq other name)) [
      | inl hit ↦ cc (rw hit at absent)
      | inr ne ↦ rw ne (ap (◌∷◌ x) (load_files-insert name item files (rw ne at absent)))
    ]

added_files :
    (nano : ℕ) (item : SinkItem) (q : Queue)
    → q.has_disk ≡ true
    → is_full q ≡ false
    → (get_all (add nano true item q).0).0.files
      ≡ insert (str "retry_" ++ (decimal nano ++ str ".json")) (some item) q.files
unfolding get_all add persist_to_disk
added_files nano item q disk room = ground (arith, disk, room)

loaded :
    (limit : ℕ) (files : Files)
    → (load_from_disk (new_queue true limit files)).items ≡ (load_files files).0
unfolding load_from_disk new_queue
loaded limit files = refl

-- An item that was added with its file written, and then taken by `GetAll`, is still on disk: a
-- queue that is opened on the files and loads them has it again, after those that were there.
pub get_all-load_from_disk :
    (nano limit : ℕ) (item : SinkItem) (q : Queue)
    → q.has_disk ≡ true
    → is_full q ≡ false
    → lookup (str "retry_" ++ (decimal nano ++ str ".json")) q.files ≡ none
    → (load_from_disk (new_queue true limit (get_all (add nano true item q).0).0.files)).items
      ≡ (load_files q.files).0 ++ item ∷ []
get_all-load_from_disk nano limit item q disk room absent =
    loaded limit (get_all (add nano true item q).0).0.files
    ∙ ap (λ files. (load_files files).0) (added_files nano item q disk room)
    ∙ load_files-insert _ item q.files absent
