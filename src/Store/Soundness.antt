-- ===== src/Store/Soundness.antt =====
-- What every operation on a shard keeps: an exact byte counter, and a policy that knows its keys.
use keva.Prelude.{
  ℕ, ◌≡◌, inl, inr, refl, ◌∙◌, Bool, true, false, Bool-cases, none, some, Option-cases, arith,
  Bytes, length, ◌==◌, bytes_eq, bytes_eq_refl,
}
use keva.Map.{lookup, lookup-insert}
use keva.Time.{Time, after}
use keva.Shard.{Record, Memory, RangeOrder, entry_size, drop_record, put_record, evict}
use keva.Shard.Accounting.{
  IsExact, evict-IsExact, lookup-evict, put_record-IsExact, drop_record-IsExact,
}
use keva.Eviction.{
  Policy, no_evict, sampling_evict, lru_evict, Lru, forget, push_front, move_to_front, before_write,
  after_write, after_read, after_delete,
}
use keva.Eviction.Consistency.{
  IsConsistent, forget-IsConsistent, push_front-IsConsistent, move_to_front-IsConsistent,
}
use keva.Eviction.Room.{Tracks, Tracks-forget, has_key, MadeRoom, lru_make_room-MadeRoom}
use keva.Eviction.Sampling.{Shrunk, Shrunk-refl, Shrunk-sample_make_room}
use keva.Store.{Shard, restore, finish_set, shard_set, shard_get, drop_entry, shard_delete}

-- The LRU list is one of the keys stored, each once.
abbrev pub Follows : Policy → Memory → Type 0
Follows no_evict s = Unit
Follows sampling_evict s = Unit
Follows (lru_evict p) s = IsConsistent p × Tracks p s

pub record IsSound (sh : Shard) : Type 0 where
  pub exact : IsExact sh.memory
  pub follows : Follows sh.policy sh.memory

-- What `BeforeWrite` leaves, called on `s` without `key`.
pub record Prepared (key : Bytes) (s : Memory) (b : Bool) (p : Policy) (t : Memory) : Type 0 where
  pub shrunk : Shrunk (evict key s) t
  pub follows : Follows p t
  pub rejected : b ≡ false → (p ≡ no_evict) × (t ≡ evict key s)

lru-Shrunk :
    (needed : ℕ) (p : Lru) (s : Memory) (q : Lru) (t : Memory)
    → MadeRoom needed p s q t
    → Shrunk s t
lru-Shrunk needed p s q t m = record {
  exact = m.exact;
  budget = m.budget;
  kept = λ j. elim (Bool-cases (has_key j m.dropped)) [
    | inl e ↦ inr (m.kept j ∙ rw e)
    | inr e ↦ inl (m.kept j ∙ rw e)
  ];
}

pub before_write-Prepared :
    (range : RangeOrder) (key : Bytes) (needed : ℕ) (p : Policy) (s : Memory)
    → IsExact s
    → Follows p s
    → let r = before_write range key needed p (evict key s) in Prepared key s r.0 r.1 r.2
unfolding before_write
before_write-Prepared range key needed no_evict s x f = record {
  shrunk = Shrunk-refl (evict key s) (evict-IsExact key s x);
  follows = tt;
  rejected = λ h. (refl, refl);
}
before_write-Prepared range key needed sampling_evict s x f =
    elim (Bool-cases ((evict key s).budget == 0)) [
      | inl e ↦ rw e (record {
        shrunk = Shrunk-refl (evict key s) (evict-IsExact key s x);
        follows = tt;
        rejected = λ h. absurd (cc h);
      })
      | inr e ↦ rw e (record {
        shrunk =
            Shrunk-sample_make_room range (length (evict key s).records) needed (evict key s)
              (evict-IsExact key s x);
        follows = tt;
        rejected = λ h. absurd (cc h);
      })
    ]
before_write-Prepared range key needed (lru_evict p) s x f =
    let c = forget-IsConsistent key p f.0 in
    let t = Tracks-forget key p s f.1 in
    let y = evict-IsExact key s x in
    elim (Bool-cases ((evict key s).budget == 0)) [
      | inl e ↦ rw e (record {
        shrunk = Shrunk-refl (evict key s) y;
        follows = (c, t);
        rejected = λ h. absurd (cc h);
      })
      | inr e ↦
          let m =
            lru_make_room-MadeRoom (length (forget key p).order) needed (forget key p) (evict key s)
              (omega arith) c t y in
          rw e (record {
            shrunk = lru-Shrunk needed (forget key p) (evict key s) _ _ m;
            follows = (m.consistent, m.tracks);
            rejected = λ h. absurd (cc h);
          })
    ]

-- The key that is written is not there when the new entry is put in.
pub Prepared-absent :
    {key : Bytes} {s : Memory} {b : Bool} {p : Policy} {t : Memory}
    → Prepared key s b p t
    → lookup key t.records ≡ none
Prepared-absent {key} {s} r =
    let gone : lookup key (evict key s).records ≡ none =
      rw (lookup-evict key key s, bytes_eq_refl key) in
    elim (r.shrunk.kept key) [ inl e ↦ e ∙ gone | inr e ↦ e ]

Follows-after_write :
    (key : Bytes) (rec : Record) (p : Policy) (t : Memory)
    → lookup key t.records ≡ none
    → Follows p t
    → Follows (after_write key p) (put_record key rec t)
unfolding after_write
Follows-after_write key rec no_evict t h f = tt
Follows-after_write key rec sampling_evict t h f = tt
Follows-after_write key rec (lru_evict p) t h (c, tr) = (
  push_front-IsConsistent key p ((tr key).1 h) c,
  λ k.
      unfold push_front put_record in
      rw (lookup-insert key k p.next p.elems, lookup-insert key k rec t.records)
        (elim (Bool-cases (bytes_eq key k)) [
          | inl e ↦ rw e (λ g. absurd (cc g), λ g. absurd (cc g))
          | inr e ↦ rw e (tr k)
        ]),
)

restore-IsExact :
    (key : Bytes) (s t : Memory)
    → t ≡ evict key s
    → IsExact s
    → IsExact (restore key (lookup key s.records) t)
unfolding restore
restore-IsExact key s t same x =
    let gone : lookup key (evict key s).records ≡ none =
      rw (lookup-evict key key s, bytes_eq_refl key) in
    elim (Option-cases (lookup key s.records)) [
      | inl e ↦ rw (e, same) (evict-IsExact key s x)
      | inr (old, e) ↦
          rw (e, same) (put_record-IsExact key old (evict key s) gone (evict-IsExact key s x))
    ]

-- A write keeps a shard sound, its byte counter exact and its policy aware of its keys, whether
-- the policy lets it through or rejects it.
pub shard_set-IsSound :
    (range : RangeOrder) (key : Bytes) (rec : Record) (sh : Shard)
    → IsSound sh
    → IsSound (shard_set range key rec sh).1
unfolding shard_set
shard_set-IsSound range key rec sh h = dispatch _ _ _ (
    before_write-Prepared range key (entry_size key rec.value) sh.policy sh.memory h.exact
      h.follows)
  where
    dispatch :
        (b : Bool) (p : Policy) (t : Memory)
        → Prepared key sh.memory b p t
        → IsSound (finish_set key rec (lookup key sh.memory.records) (b, p, t)).1
    dispatch false p t r =
        unfold finish_set in
        record {
          exact = restore-IsExact key sh.memory t (r.rejected refl).1 h.exact;
          follows = rw (r.rejected refl).0 tt;
        }
    dispatch true p t r =
        unfold finish_set in
        record {
          exact = put_record-IsExact key rec t (Prepared-absent r) r.shrunk.exact;
          follows = Follows-after_write key rec p t (Prepared-absent r) r.follows;
        }

lookup-move_to_front : (key : Bytes) (p : Lru) → (move_to_front key p).elems ≡ p.elems
unfolding move_to_front
lookup-move_to_front key p = elim (Option-cases (lookup key p.elems)) [
  | inl e ↦ rw e
  | inr (i, e) ↦ rw e
]

Follows-after_read :
    (key : Bytes) (p : Policy) (s : Memory) → Follows p s → Follows (after_read key p) s
unfolding after_read
Follows-after_read key no_evict s f = tt
Follows-after_read key sampling_evict s f = tt
Follows-after_read key (lru_evict p) s (c, t) =
    (move_to_front-IsConsistent key p c, λ k. rw (lookup-move_to_front key p) (t k))

-- A read keeps a shard sound, whether it finds the key or not.
pub shard_get-IsSound :
    (now : Time) (key : Bytes) (sh : Shard) → IsSound sh → IsSound (shard_get now key sh).1
unfolding shard_get
shard_get-IsSound now key sh h = elim (Option-cases (lookup key sh.memory.records)) [
  | inl e ↦ rw e h
  | inr (rec, e) ↦ elim (Bool-cases (after now rec.expired_at)) [
    | inl late ↦ rw (e, late) h
    | inr early ↦
        rw (e, early)
          (record {
            exact = h.exact;
            follows = Follows-after_read key sh.policy sh.memory h.follows;
          })
  ]
]

Follows-after_delete :
    (key : Bytes) (rec : Record) (p : Policy) (s : Memory)
    → lookup key s.records ≡ some rec
    → Follows p s
    → Follows (after_delete key p) (drop_record key rec s)
unfolding after_delete
Follows-after_delete key rec no_evict s e f = tt
Follows-after_delete key rec sampling_evict s e f = tt
Follows-after_delete key rec (lru_evict p) s e (c, t) =
    (forget-IsConsistent key p c, unfold evict in rw e at (Tracks-forget key p s t))

pub drop_entry-IsSound :
    (key : Bytes) (rec : Record) (sh : Shard)
    → lookup key sh.memory.records ≡ some rec
    → IsSound sh
    → IsSound (drop_entry key rec sh)
unfolding drop_entry
drop_entry-IsSound key rec sh e h = record {
  exact = drop_record-IsExact key rec sh.memory e h.exact;
  follows = Follows-after_delete key rec sh.policy sh.memory e h.follows;
}

-- So does a delete, of a key that is there or not.
pub shard_delete-IsSound : (key : Bytes) (sh : Shard) → IsSound sh → IsSound (shard_delete key sh).1
unfolding shard_delete
shard_delete-IsSound key sh h = elim (Option-cases (lookup key sh.memory.records)) [
  | inl e ↦ rw e h
  | inr (rec, e) ↦ rw e (drop_entry-IsSound key rec sh e h)
]
