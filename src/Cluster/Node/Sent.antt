-- ===== src/Cluster/Node/Sent.antt =====
-- cluster/leader.go and node.go: whom a broadcast reaches, and the expiry that a set asks for.
use keva.Prelude.{
  ℕ, ◌+◌, ◌^◌, ◌≤◌, ◌<◌, ◌≡◌, ◌⊎◌, inl, inr, refl, ap, ◌∙◌, Bool, Bool-cases, Option, none, some,
  List, [], ◌∷◌, ◌++◌, arith, Bytes, bytes_eq, bytes_eq→eq, if◌then◌else◌,
}
use keva.Time.{Time, add_duration}
use keva.Protocol.Cluster.{ReplicationSync}
use keva.Cluster.Node.{Follower, send_all, expiry}

-- The follower with an address.
abbrev pub find_follower : Bytes → List Follower → Option Follower
find_follower addr [] = none
find_follower addr (f ∷ fs) = if bytes_eq f.addr addr then some f else find_follower addr fs

-- A follower to which one more sync has been written.
abbrev pub sent_to : ReplicationSync → Option Follower → Option Follower
sent_to m none = none
sent_to m (some f) = some (record f { sent = f.sent ++ (m ∷ []) })

-- Every follower gets the sync, wherever it is in the list, unless the write to it fails.
pub find_follower-send_all :
    (alive : Bytes → Bool) (m : ReplicationSync) (addr : Bytes) (fs : List Follower)
    → find_follower addr (send_all alive m fs)
      ≡ (if alive addr then sent_to m (find_follower addr fs) else none)
unfolding send_all
find_follower-send_all alive m addr [] = elim (Bool-cases (alive addr)) [
  | inl e ↦ rw e refl
  | inr e ↦ rw e refl
]
find_follower-send_all alive m addr (f ∷ fs) =
    let rest = find_follower-send_all alive m addr fs in
    elim (Bool-cases (bytes_eq f.addr addr)) [
      | inl same ↦
          let at : alive f.addr ≡ alive addr = ap alive (bytes_eq→eq f.addr addr same) in
          elim (Bool-cases (alive addr)) [
            | inl up ↦ rw (at ∙ up, up, same) refl
            | inr down ↦ rw (at ∙ down, down) (rest ∙ rw down refl)
          ]
      | inr other ↦ elim (Bool-cases (alive f.addr)) [
        | inl up ↦ rw (up, other) rest
        | inr down ↦ rw (down, other) rest
      ]
    ]

-- The time until which a set asks for its value to be kept: the time to live asked for, if that is
-- positive as an `int64`, or the node's own.
pub data Deadline (now ttl default_ttl : ℕ) (t : Time) : Type 0 where
  asked : 0 < ttl → ttl < 2 ^ 63 → t ≡ now + ttl → Deadline now ttl default_ttl t
  default :
      (ttl ≡ 0) ⊎ (2 ^ 63 ≤ ttl)
      → default_ttl < 2 ^ 63
      → t ≡ now + default_ttl
      → Deadline now ttl default_ttl t

pub expiry-Deadline :
    (now ttl default_ttl : ℕ) (t : Time)
    → Deadline now ttl default_ttl t
    → expiry now ttl default_ttl ≡ t
unfolding expiry add_duration
expiry-Deadline now ttl default_ttl t (asked pos small e) = ground (arith, pos, small, e)
expiry-Deadline now ttl default_ttl t (default (inl z) small e) = ground (arith, z, small, e)
expiry-Deadline now ttl default_ttl t (default (inr neg) small e) = ground (arith, neg, small, e)
