-- ===== src/Cli/Liveness.antt =====
-- A client that outlives the leader: once the cluster has another, its command is answered.
use keva.Prelude.{
  ℕ, suc, ◌≡◌, ◌≢◌, ◌⊎◌, refl, sym, ap, ◌∙◌, true, false, Bool, inl, inr, Bool-cases, Option, none,
  some, List, [], ◌∷◌, Bytes, length, bytes_eq, bytes_eq_refl, bytes_eq→eq, ok,
}
use keva.Protocol.Client.{TopologyResponse}
use keva.Protocol.Message.{Message, topology_response}
use keva.Cli.{
  Network, Client, as_topology, ask, send_to_node, fetch_topology, take_topology, after_fetch,
  connect_by, connect, wait_rounds, wait_for_leader, pick_target, Executed, is_write, after_wait,
  attempts, execute,
}
use keva.Cli.Routing.{back}

abbrev pub IsAmong : Bytes → List Bytes → Type 0
IsAmong a [] = ⊥
IsAmong a (b ∷ l) = (a ≡ b) ⊎ IsAmong a l

-- A cluster with a leader: `contact` names it, no node names another, and it answers the message.
pub record IsUp (net : Network) (contact leader : Bytes) (msg resp : Message) : Type 0 where
  pub has_name : leader ≢ []
  pub topology : TopologyResponse
  pub names : topology.leader_addr ≡ leader
  pub tells : (i : ℕ) → net i contact ask ≡ some (topology_response topology)
  pub no_other :
      (i : ℕ) (a : Bytes) (t : TopologyResponse)
      → net i a ask ≡ some (topology_response t)
      → (t.leader_addr ≡ []) ⊎ (t.leader_addr ≡ leader)
  pub answers : (i : ℕ) → net i leader msg ≡ some resp

-- A client that has found the leader, or has not.
abbrev Found : Bytes → Bool × Client → Type 0
Found leader (b, d) = (b ≡ true) × (d.leader_addr ≡ leader)

after_wait_found :
    (more : Client → Executed) (q : Bool × Client) → q.0 ≡ true → after_wait more q ≡ more q.1
after_wait_found more (true, d) e = refl
after_wait_found more (false, d) e = absurd (cc e)

module _ (net : Network) (contact leader : Bytes) (msg resp : Message)
    (up : IsUp net contact leader msg resp) where
  named : bytes_eq leader [] ≡ false
  named = elim (Bool-cases (bytes_eq leader [])) [
    | inl e ↦ absurd (up.has_name (bytes_eq→eq leader [] e))
    | inr e ↦ e
  ]

  connect_by-Found :
      (addrs : List Bytes) (c : Client)
      → IsAmong contact addrs
      → Found leader (connect_by net addrs c)
  unfolding connect_by fetch_topology send_to_node take_topology
  connect_by-Found [] c h = absurd h
  connect_by-Found (addr ∷ addrs) c (inl e) =
      let asks : net (length c.made) addr ask ≡ some (topology_response up.topology) =
        ap (λ a. net (length c.made) a ask) (sym e) ∙ up.tells (length c.made) in
      let has_leader : bytes_eq up.topology.leader_addr [] ≡ false = rw up.names named in
      rw (asks, has_leader) (refl, up.names)
  connect_by-Found (addr ∷ addrs) c (inr h) =
      by_topology (as_topology (net (length c.made) addr ask))
        (λ t q. up.no_other (length c.made) addr t (back (net (length c.made) addr ask) t q))
        (λ d. connect_by-Found addrs d h)
    where
      asked : Client
      asked = record c { made = (addr, ask) ∷ c.made }

      by_topology :
          (o : Option TopologyResponse)
          → ((t : TopologyResponse) → o ≡ some t → (t.leader_addr ≡ []) ⊎ (t.leader_addr ≡ leader))
          → ((d : Client) → Found leader (connect_by net addrs d))
          → Found leader (after_fetch (connect_by net addrs) (o, asked))
      by_topology none said more = more asked
      by_topology (some t) said more = elim (said t refl) [
        | inl nobody ↦
            rw (ap (λ x. bytes_eq x []) nobody ∙ bytes_eq_refl []) (more (take_topology t asked))
        | inr somebody ↦ rw (ap (λ x. bytes_eq x []) somebody ∙ named) (refl, somebody)
      ]

  wait_for_leader-Found :
      (c : Client) → IsAmong contact c.known_addrs → Found leader (wait_for_leader net c)
  unfolding wait_rounds connect
  wait_for_leader-Found c h =
      let f = connect_by-Found c.known_addrs c h in rw (f.0, f.1, named) (refl, f.1)

  module _ (rand : ℕ → ℕ → ℕ) (writes : is_write msg ≡ true) where
    -- A client that knows the leader is answered at once.
    attempt_leader :
        (n : ℕ) (c : Client)
        → c.leader_addr ≡ leader
        → (attempts (suc n) net rand msg c).0 ≡ ok resp
    unfolding attempts pick_target send_to_node
    attempt_leader n c e = rw (writes, e, named, up.answers (length c.made)) refl

    waits :
        (n : ℕ) (c : Client)
        → bytes_eq c.leader_addr [] ≡ true
        → attempts (suc n) net rand msg c
          ≡ after_wait (attempts n net rand msg) (wait_for_leader net c)
    unfolding attempts pick_target
    waits n c e = rw (writes, e) refl

    attempt_nobody :
        (n : ℕ) (c : Client)
        → bytes_eq c.leader_addr [] ≡ true
        → IsAmong contact c.known_addrs
        → (attempts (suc (suc n)) net rand msg c).0 ≡ ok resp
    attempt_nobody n c e h =
        let f = wait_for_leader-Found c h in
        ap (λ x. x.0) (waits (suc n) c e ∙ after_wait_found (attempts (suc n) net rand msg) _ f.0)
        ∙ attempt_leader n (wait_for_leader net c).1 f.1

    attempt_gone :
        (n : ℕ) (c : Client)
        → bytes_eq c.leader_addr [] ≡ false
        → ((i : ℕ) → net i c.leader_addr msg ≡ none)
        → IsAmong contact c.known_addrs
        → (attempts (suc (suc n)) net rand msg c).0 ≡ ok resp
    unfolding attempts pick_target send_to_node
    attempt_gone n c e gone h =
        let d : Client = record c { leader_addr = []; made = (c.leader_addr, msg) ∷ c.made } in
        rw (writes, e, gone (length c.made))
          (attempt_leader n (wait_for_leader net d).1 (wait_for_leader-Found d h).1)

    -- A client one of whose known nodes names a leader, which no node contradicts and which
    -- answers the command, has a write answered by it, whether it remembers that leader, none, or
    -- one that has gone.
    pub execute-answered :
        (c : Client)
        → IsAmong contact c.known_addrs
        → (c.leader_addr ≡ leader) ⊎ ((i : ℕ) → net i c.leader_addr msg ≡ none)
        → (execute net rand msg c).0 ≡ ok resp
    unfolding execute
    execute-answered c h (inl e) = attempt_leader 7 c e
    execute-answered c h (inr gone) = elim (Bool-cases (bytes_eq c.leader_addr [])) [
      | inl e ↦ attempt_nobody 6 c e h
      | inr e ↦ attempt_gone 6 c e gone h
    ]
