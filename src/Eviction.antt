-- ===== src/Eviction.antt =====
-- storage/eviction/: the policies and the hooks that the store calls around its writes, reads and
-- deletes. A hook gets the policy's state and, where the source passes it, the shard's memory.
pub mod Consistency
pub mod Room
pub mod Sampling
use keva.Prelude.{
  ℕ, zero, suc, ◌+◌, Bool, true, false, not, ◌&&◌, ◌||◌, Option, none, some, List, [], ◌∷◌, Bytes,
  length, ◌==◌, bytes_eq, if◌then◌else◌,
}
use keva.Map.{Map, lookup, insert, remove}
use keva.Time.{Time, before}
use keva.Int64.{add64, gt64}
use keva.Shard.{Record, Memory, RangeOrder, len, evict}

-- `s.Bytes() + needed > s.Budget()`
unfoldable pub over_budget : ℕ → Memory → Bool
over_budget needed s = gt64 (add64 s.bytes needed) s.budget

-- `LRUEvict`: a list element has an identity, by which `elems` refers to it, and a key; `next` is an
-- identity that no element has had.
pub record Lru : Type 0 where
  pub order : List (ℕ × Bytes)
  pub elems : Map ℕ
  pub next : ℕ

abbrev pub new_lru : Lru
new_lru = record { order = []; elems = []; next = 0 }

-- `order.Remove(elem)`
unfoldable pub remove_element : ℕ → List (ℕ × Bytes) → List (ℕ × Bytes)
remove_element e [] = []
remove_element e ((i, k) ∷ l) = if i == e then l else (i, k) ∷ remove_element e l

-- `order.Back()`
unfoldable pub back : List (ℕ × Bytes) → Option (ℕ × Bytes)
back [] = none
back (x ∷ []) = some x
back (x ∷ y ∷ l) = back (y ∷ l)

unfoldable pub forget_found : Bytes → Option ℕ → Lru → Lru
forget_found key none p = p
forget_found key (some e) p = record p {
  order = remove_element e p.order;
  elems = remove key p.elems;
}

unfoldable pub forget : Bytes → Lru → Lru
unfolding forget_found
forget key p = forget_found key (lookup key p.elems) p

-- `p.elems[key] = p.order.PushFront(key)`
unfoldable pub push_front : Bytes → Lru → Lru
push_front key p = record {
  order = (p.next, key) ∷ p.order;
  elems = insert key p.next p.elems;
  next = suc p.next;
}

-- `order.MoveToFront(elem)`; an element keeps its key.
unfoldable pub move_found : Bytes → Option ℕ → Lru → Lru
move_found key none p = p
move_found key (some e) p = record p { order = (e, key) ∷ remove_element e p.order }

unfoldable pub move_to_front : Bytes → Lru → Lru
unfolding move_found
move_to_front key p = move_found key (lookup key p.elems) p

-- One round of the loop of `LRUEvict.BeforeWrite`; `more` is the other rounds.
unfoldable pub lru_round :
    (Lru → Memory → Lru × Memory) → ℕ → Lru → Memory → Option (ℕ × Bytes) → Lru × Memory
lru_round more needed p s none = (p, s)
lru_round more needed p s (some (i, victim)) =
    if over_budget needed s then more (forget victim p) (evict victim s) else (p, s)

-- A round takes an element off the list, so the length of the list is fuel enough.
unfoldable pub lru_make_room : ℕ → ℕ → Lru → Memory → Lru × Memory
unfolding lru_round
lru_make_room zero needed p s = (p, s)
lru_make_room (suc fuel) needed p s =
    lru_round (lru_make_room fuel needed) needed p s (back p.order)

unfoldable pub lru_before_write : Bytes → ℕ → Lru → Memory → Lru × Memory
lru_before_write key needed p s =
    let q = forget key p in
    if s.budget == 0 then (q, s) else lru_make_room (length q.order) needed q s

abbrev pub sample_n : ℕ
sample_n = 5

-- The loop of `evictSoonestOfSample` over the entries that `Range` visits: at most `sampleN`.
unfoldable pub soonest : ℕ → Option (Bytes × Time) → List (Bytes × Record) → Option (Bytes × Time)
soonest zero best es = best
soonest (suc n) best [] = best
soonest (suc n) none ((k, r) ∷ es) = soonest n (some (k, r.expired_at)) es
soonest (suc n) (some (v, t)) ((k, r) ∷ es) =
    soonest n (if before r.expired_at t then some (k, r.expired_at) else some (v, t)) es

unfoldable pub evict_best : Option (Bytes × Time) → Memory → Memory
evict_best none s = s
evict_best (some (victim, t)) s = evict victim s

unfoldable pub evict_soonest_of_sample : RangeOrder → Memory → Memory
unfolding evict_best
evict_soonest_of_sample range s = evict_best (soonest sample_n none (range s.records)) s

-- The loop of `SamplingEvict.BeforeWrite`; a round drops an entry.
unfoldable pub sample_round : (Memory → Memory) → RangeOrder → ℕ → Memory → Memory
sample_round more range needed s =
    if over_budget needed s && not (len s == 0) then more (evict_soonest_of_sample range s) else s

unfoldable pub sample_make_room : ℕ → RangeOrder → ℕ → Memory → Memory
unfolding sample_round
sample_make_room zero range needed s = s
sample_make_room (suc fuel) range needed s =
    sample_round (sample_make_room fuel range needed) range needed s

unfoldable pub sampling_before_write : RangeOrder → ℕ → Memory → Memory
sampling_before_write range needed s =
    if s.budget == 0 then s else sample_make_room (len s) range needed s

-- `NoEvict.BeforeWrite`
unfoldable pub no_evict_before_write : ℕ → Memory → Bool
no_evict_before_write needed s = if s.budget == 0 then true else not (over_budget needed s)

-- The dynamic types that implement `Policy`, with their state.
pub data Policy : Type 0 where
  no_evict sampling_evict : Policy
  lru_evict : Lru → Policy

-- `BeforeWrite`: whether the write may go on, and the policy and the memory that it leaves.
unfoldable pub before_write : RangeOrder → Bytes → ℕ → Policy → Memory → Bool × Policy × Memory
unfolding lru_before_write sampling_before_write no_evict_before_write
before_write range key needed no_evict s = (no_evict_before_write needed s, no_evict, s)
before_write range key needed sampling_evict s =
    (true, sampling_evict, sampling_before_write range needed s)
before_write range key needed (lru_evict p) s =
    let (q, t) = lru_before_write key needed p s in (true, lru_evict q, t)

unfoldable pub after_write : Bytes → Policy → Policy
after_write key (lru_evict p) = lru_evict (push_front key p)
after_write key p = p

unfoldable pub after_read : Bytes → Policy → Policy
after_read key (lru_evict p) = lru_evict (move_to_front key p)
after_read key p = p

unfoldable pub after_delete : Bytes → Policy → Policy
after_delete key (lru_evict p) = lru_evict (forget key p)
after_delete key p = p

-- "relaxed" and "strict"
abbrev pub name_relaxed : Bytes
name_relaxed = 0x72 ∷ 0x65 ∷ 0x6c ∷ 0x61 ∷ 0x78 ∷ 0x65 ∷ 0x64 ∷ []

abbrev pub name_strict : Bytes
name_strict = 0x73 ∷ 0x74 ∷ 0x72 ∷ 0x69 ∷ 0x63 ∷ 0x74 ∷ []

-- `ByName`: the policy that the factory makes for a shard
unfoldable pub by_name : Bytes → Policy
by_name name =
    if bytes_eq name name_relaxed
    then sampling_evict
    else if bytes_eq name name_strict
    then lru_evict new_lru
    else no_evict
