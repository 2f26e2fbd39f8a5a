-- ===== src/Cluster/Quorums.antt =====
-- Two nodes that win an election of the same term are one node: their quorums share a voter.
use keva.Prelude.{
  ℕ, suc, ◌+◌, ◌≤◌, ◌<◌, ◌≡◌, refl, sym, subst, inl, inr, Bool, true, not, ◌||◌, Bool-cases, List,
  [], ◌∷◌, arith, Bytes, length, leb, leb→le, ◌==◌, if◌then◌else◌,
}
use keva.Cluster.Raft.{RaftState, quorum, is_candidate, finish_election}
use keva.Cluster.Votes.{Event, Vote, In, AllNamed, run, run-one_vote}

-- The peers whose votes have been counted.
unfoldable pub count : (Bytes → Bool) → List Bytes → ℕ
count voted [] = 0
count voted (p ∷ ps) = if voted p then suc (count voted ps) else count voted ps

count-le : (v : Bytes → Bool) (ps : List Bytes) → count v ps ≤ length ps
unfolding count
count-le v [] = omega arith
count-le v (p ∷ ps) = ground (arith, count-le v ps)

-- Two sets that are larger together than the whole share an element.
shared :
    (v w : Bytes → Bool) (ps : List Bytes)
    → length ps < count v ps + count w ps
    → (p : Bytes) × (v p ≡ true) × (w p ≡ true)
unfolding count
shared v w [] h = absurd (omega arith)
shared v w (p ∷ ps) h = elim (Bool-cases (v p)) [
  | inl a ↦ elim (Bool-cases (w p)) [
    | inl b ↦ (p, a, b)
    | inr b ↦ shared v w ps (let g = rw (a, b) at h in omega (arith, g))
  ]
  | inr a ↦ elim (Bool-cases (w p)) [
    | inl b ↦ shared v w ps (let g = rw (a, b) at h in omega (arith, g))
    | inr b ↦ shared v w ps (let g = rw (a, b) at h in omega (arith, g))
  ]
]

won-quorum :
    (term votes : ℕ) (r : RaftState)
    → (finish_election term votes r).0 ≡ true
    → quorum r.peers ≤ votes
unfolding finish_election
won-quorum term votes r h =
    elim (Bool-cases (not (is_candidate r.role) || not (r.current_term == term))) [
      | inl out ↦ absurd (cc (rw out at h))
      | inr in_race ↦ elim (Bool-cases (leb (quorum r.peers) votes)) [
        | inl enough ↦ leb→le (quorum r.peers) votes enough
        | inr few ↦ absurd (cc (rw (in_race, few) at h))
      ]
    ]

two_quorums : (ps : List Bytes) (a b : ℕ) → quorum ps ≤ a → quorum ps ≤ b → length ps < a + b
unfolding quorum
two_quorums ps a b h k = omega (arith, h, k)

module _ (events : Bytes → List Event) (starts : Bytes → RaftState)
    (named : (p : Bytes) → AllNamed (events p) (starts p)) where
  -- the votes that `p` has cast
  abbrev votes_of : Bytes → List Vote
  votes_of p = (run (events p) (starts p)).0

  -- Two nodes with the same peers that win the election of one term, each with votes of peers that
  -- have cast them in runs with named candidates and terms that do not wrap round, have the same
  -- address.
  pub finish_election-one_leader :
      (term : ℕ) (v w : Bytes → Bool) (r s : RaftState)
      → r.peers ≡ s.peers
      → ((p : Bytes) → v p ≡ true → In (term, r.node_addr) (votes_of p))
      → ((p : Bytes) → w p ≡ true → In (term, s.node_addr) (votes_of p))
      → (finish_election term (count v r.peers) r).0 ≡ true
      → (finish_election term (count w s.peers) s).0 ≡ true
      → r.node_addr ≡ s.node_addr
  finish_election-one_leader term v w r s same for_r for_s won_r won_s =
      let q : quorum r.peers ≤ count v r.peers = won-quorum term (count v r.peers) r won_r in
      let q' : quorum s.peers ≤ count w s.peers = won-quorum term (count w s.peers) s won_s in
      let q'' : quorum r.peers ≤ count w r.peers =
        subst (λ ps. quorum ps ≤ count w ps) (sym same) q' in
      let (p, a, b) =
        shared v w r.peers (two_quorums r.peers (count v r.peers) (count w r.peers) q q'') in
      run-one_vote (events p) (starts p) (named p) (term, r.node_addr) (term, s.node_addr)
        (for_r p a) (for_s p b) refl
