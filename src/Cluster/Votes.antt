-- ===== src/Cluster/Votes.antt =====
-- A node votes at most once in a term, whatever happens to it and in whatever order.
use keva.Prelude.{
  ℕ, ◌+◌, ◌%◌, ◌^◌, ◌<◌, ◌≡◌, ◌≢◌, ◌⊎◌, inl, inr, refl, ap, sym, ◌∙◌, Bool, true, false, ◌&&◌, ◌||◌,
  Bool-cases, List, [], ◌∷◌, ◌++◌, arith, Bytes, ltb, ltb→lt, ◌==◌, bytes_eq, bytes_eq→eq,
}
use keva.Protocol.Cluster.{VoteRequest, VoteResponse}
use keva.Cluster.Raft.{
  Role, follower, RaftState, adopt_term, handle_heartbeat, cast_vote, handle_vote_request,
  take_signal, election_timeout, start_election, receive_vote, step_back, finish_election,
  is_leader,
}

-- What happens to a node; the votes counted by an election are those of its own goroutines.
pub data Event : Type 0 where
  heartbeat : ℕ → Bytes → Event
  vote_request : VoteRequest → Event
  vote_response : VoteResponse → Event
  signal timeout elect back : Event
  counted : ℕ → ℕ → Event

-- A vote: the term, and the candidate.
abbrev pub Vote : Type 0
Vote = ℕ × Bytes

unfoldable pub vote_if : Bool → Vote → List Vote
vote_if true v = v ∷ []
vote_if false v = []

-- The votes that an event makes the node cast, and the state after it.
unfoldable pub step : Event → RaftState → List Vote × RaftState
unfolding vote_if
step (heartbeat term leader_id) r = ([], (handle_heartbeat term leader_id r).1)
step (vote_request req) r =
    let (reply, s) = handle_vote_request req r in
    (vote_if reply.granted (reply.term, req.candidate_id), s)
step (vote_response resp) r = ([], receive_vote resp r)
step signal r = ([], take_signal r)
step timeout r = ([], election_timeout r)
step elect r = let s = start_election r in ((s.current_term, s.voted_for) ∷ [], s)
step back r = ([], step_back r)
step (counted term votes) r = ([], (finish_election term votes r).1)

unfoldable pub run : List Event → RaftState → List Vote × RaftState
unfolding step
run [] r = ([], r)
run (e ∷ es) r = let (v, s) = step e r in let (vs, t) = run es s in (v ++ vs, t)

abbrev pub In : Vote → List Vote → Type 0
In v [] = ⊥
In v (w ∷ vs) = (v ≡ w) ⊎ In v vs

-- The terms are those of a `uint64` that has not wrapped round, and the candidates have names.
abbrev pub IsNamed : Event → RaftState → Type 0
IsNamed (vote_request req) r = req.candidate_id ≢ []
IsNamed elect r = (r.node_addr ≢ []) × (r.current_term + 1 < 2 ^ 64)
IsNamed _ r = Unit

abbrev pub AllNamed : List Event → RaftState → Type 0
AllNamed [] r = Unit
AllNamed (e ∷ es) r = IsNamed e r × AllNamed es (step e r).1

-- The term grows, or the vote of the term stays.
abbrev Keeps : RaftState → RaftState → Type 0
Keeps r s =
    (r.current_term < s.current_term)
    ⊎ ((r.current_term ≡ s.current_term) × ((r.voted_for ≡ []) ⊎ (s.voted_for ≡ r.voted_for)))

-- A vote cast is that of the state after it.
abbrev Casts : List Vote → RaftState → Type 0
Casts vs s =
    (v : Vote) → In v vs → (v.0 ≡ s.current_term) × (v.1 ≡ s.voted_for) × (s.voted_for ≢ [])

same : (r s : RaftState) → s.current_term ≡ r.current_term → s.voted_for ≡ r.voted_for → Keeps r s
same r s t v = inr (sym t, inr v)

Keeps-adopt_term : (term : ℕ) (role : Role) (r : RaftState) → Keeps r (adopt_term term role r)
unfolding adopt_term
Keeps-adopt_term term role r = elim (Bool-cases (ltb r.current_term term)) [
  | inl e ↦ rw e (inl (ltb→lt r.current_term term e))
  | inr e ↦ rw e (inr (refl, inr refl))
]

Keeps-handle_heartbeat :
    (term : ℕ) (leader_id : Bytes) (r : RaftState) → Keeps r (handle_heartbeat term leader_id r).1
unfolding handle_heartbeat
Keeps-handle_heartbeat term leader_id r = elim (Bool-cases (ltb term r.current_term)) [
  | inl e ↦ rw e (inr (refl, inr refl))
  | inr e ↦ rw e (Keeps-adopt_term term r.role r)
]

Keeps-finish_election : (term votes : ℕ) (r : RaftState) → Keeps r (finish_election term votes r).1
unfolding finish_election
Keeps-finish_election term votes r = ground arith

Keeps-trans : (r s t : RaftState) → Keeps r s → Keeps s t → Keeps r t
Keeps-trans r s t (inl a) (inl b) = inl (omega (arith, a, b))
Keeps-trans r s t (inl a) (inr (e, v)) = inl (omega (arith, a, e))
Keeps-trans r s t (inr (d, u)) (inl b) = inl (omega (arith, d, b))
Keeps-trans r s t (inr (d, inl u)) (inr (e, v)) = inr (d ∙ e, inl u)
Keeps-trans r s t (inr (d, inr u)) (inr (e, inl v)) = inr (d ∙ e, inl (sym u ∙ v))
Keeps-trans r s t (inr (d, inr u)) (inr (e, inr v)) = inr (d ∙ e, inr (v ∙ u))

cast_vote-lem :
    (candidate_id : Bytes) (w : Bool) (s : RaftState)
    → candidate_id ≢ []
    → let (reply, t) = cast_vote candidate_id w s in
      Keeps s t × Casts (vote_if reply.granted (reply.term, candidate_id)) t
unfolding cast_vote vote_if
cast_vote-lem candidate_id w s named = elim (Bool-cases (bytes_eq s.voted_for [])) [
  | inl free ↦ rw free (inr (refl, inl (bytes_eq→eq s.voted_for [] free)), cast)
  | inr taken ↦ elim (Bool-cases (bytes_eq s.voted_for candidate_id)) [
    | inl again ↦
        rw (taken, again) (inr (refl, inr (sym (bytes_eq→eq s.voted_for candidate_id again))), cast)
    | inr other ↦ rw (taken, other) (inr (refl, inr refl), λ v h. absurd h)
  ]
]
  where
    cast :
        Casts
          ((s.current_term, candidate_id) ∷ [])
          (record s { voted_for = candidate_id; signal = true })
    cast v (inl e) = (ap (λ x. x.0) e, ap (λ x. x.1) e, named)
    cast v (inr h) = absurd h

vote_request-lem :
    (req : VoteRequest) (r : RaftState)
    → req.candidate_id ≢ []
    → let (reply, t) = handle_vote_request req r in
      Keeps r t × Casts (vote_if reply.granted (reply.term, req.candidate_id)) t
unfolding handle_vote_request
vote_request-lem req r named =
    elim (Bool-cases
      (ltb req.term r.current_term || (is_leader r.role && (req.term == r.current_term)))) [
        | inl refused ↦ rw refused (inr (refl, inr refl), unfold vote_if in λ v h. absurd h)
        | inr heard ↦
            let s : RaftState = adopt_term req.term follower r in
            let (k, c) = cast_vote-lem req.candidate_id (is_leader r.role) s named in
            rw heard (
              Keeps-trans r s (cast_vote req.candidate_id (is_leader r.role) s).1
                  (Keeps-adopt_term req.term follower r) k,
              c,
            )
      ]

step-lem :
    (e : Event) (r : RaftState)
    → IsNamed e r
    → Keeps r (step e r).1 × Casts (step e r).0 (step e r).1
unfolding step
step-lem (heartbeat term leader_id) r n = (Keeps-handle_heartbeat term leader_id r, λ v h. absurd h)
step-lem (vote_request req) r n = vote_request-lem req r n
step-lem (vote_response resp) r n =
    (unfold receive_vote in Keeps-adopt_term resp.term follower r, λ v h. absurd h)
step-lem signal r n = (unfold take_signal in inr (refl, inr refl), λ v h. absurd h)
step-lem timeout r n = (unfold election_timeout in inr (refl, inr refl), λ v h. absurd h)
step-lem elect r n = unfold start_election in (inl (omega (arith, n.1)), cast)
  where
    cast : Casts (((r.current_term + 1) % 2 ^ 64, r.node_addr) ∷ []) (start_election r)
    cast v (inl e) = unfold start_election in (ap (λ x. x.0) e, ap (λ x. x.1) e, n.0)
    cast v (inr h) = absurd h
step-lem back r n = (unfold step_back in inr (refl, inr refl), λ v h. absurd h)
step-lem (counted term votes) r n = (Keeps-finish_election term votes r, λ v h. absurd h)

In-append : (v : Vote) (vs ws : List Vote) → In v (vs ++ ws) → In v vs ⊎ In v ws
In-append v [] ws h = inr h
In-append v (w ∷ vs) ws (inl e) = inl (inl e)
In-append v (w ∷ vs) ws (inr h) = elim (In-append v vs ws h) [ inl g ↦ inl (inr g) | inr g ↦ inr g ]

-- A later vote is in a later term, or the vote of this one.
abbrev Later : RaftState → Vote → Type 0
Later r v =
    (r.current_term < v.0) ⊎ ((r.current_term ≡ v.0) × ((r.voted_for ≡ []) ⊎ (v.1 ≡ r.voted_for)))

Later-Keeps : (r s : RaftState) (v : Vote) → Keeps r s → Later s v → Later r v
Later-Keeps r s v (inl a) (inl b) = inl (omega (arith, a, b))
Later-Keeps r s v (inl a) (inr (e, u)) = inl (omega (arith, a, e))
Later-Keeps r s v (inr (d, u)) (inl b) = inl (omega (arith, d, b))
Later-Keeps r s v (inr (d, inl u)) (inr (e, w)) = inr (d ∙ e, inl u)
Later-Keeps r s v (inr (d, inr u)) (inr (e, inl w)) = inr (d ∙ e, inl (sym u ∙ w))
Later-Keeps r s v (inr (d, inr u)) (inr (e, inr w)) = inr (d ∙ e, inr (w ∙ u))

run-Later :
    (es : List Event) (r : RaftState) → AllNamed es r → (v : Vote) → In v (run es r).0 → Later r v
unfolding run
run-Later [] r n v h = absurd h
run-Later (e ∷ es) r n v h =
    let (k, c) = step-lem e r n.0 in
    elim (In-append v (step e r).0 (run es (step e r).1).0 h) [
      | inl now ↦ let (t, w, x) = c v now in Later-Keeps r (step e r).1 v k (inr (sym t, inr w))
      | inr late ↦ Later-Keeps r (step e r).1 v k (run-Later es (step e r).1 n.1 v late)
    ]

-- After a vote, a later one in the same term is for the same candidate.
agree :
    (s : RaftState) (v w : Vote)
    → (v.0 ≡ s.current_term) × (v.1 ≡ s.voted_for) × (s.voted_for ≢ [])
    → Later s w
    → v.0 ≡ w.0
    → v.1 ≡ w.1
agree s v w (t, c, n) (inl later) e = absurd (omega (arith, t, later, e))
agree s v w (t, c, n) (inr (d, inl free)) e = absurd (n free)
agree s v w (t, c, n) (inr (d, inr u)) e = c ∙ sym u

-- Two votes that a node casts in one term are for the same candidate, through any sequence of
-- heartbeats, vote requests, responses, timeouts and elections of its own, for candidates that
-- have a name and terms that do not wrap round.
pub run-one_vote :
    (es : List Event) (r : RaftState)
    → AllNamed es r
    → (v w : Vote) → In v (run es r).0
    → In w (run es r).0
    → v.0 ≡ w.0
    → v.1 ≡ w.1
unfolding run
run-one_vote [] r n v w hv hw e = absurd hv
run-one_vote (a ∷ es) r n v w hv hw e =
    let (k, c) = step-lem a r n.0 in
    let s = (step a r).1 in
    elim (In-append v (step a r).0 (run es s).0 hv) [
      | inl now ↦ elim (In-append w (step a r).0 (run es s).0 hw) [
        | inl too ↦ let (t, x, y) = c v now in let (t', x', y') = c w too in x ∙ sym x'
        | inr late ↦ agree s v w (c v now) (run-Later es s n.1 w late) e
      ]
      | inr late ↦ elim (In-append w (step a r).0 (run es s).0 hw) [
        | inl now ↦ sym (agree s w v (c w now) (run-Later es s n.1 v late) (sym e))
        | inr too ↦ run-one_vote es s n.1 v w late too e
      ]
    ]
