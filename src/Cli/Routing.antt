-- ===== src/Cli/Routing.antt =====
-- Where the client sends a command, and how often.
use keva.Prelude.{
  ℕ, zero, suc, ◌≡◌, ◌⊎◌, refl, sym, ap, ◌∙◌, true, false, not, ◌&&◌, Bool, inl, inr, Bool-cases,
  Option, none, some, List, [], ◌∷◌, All, Bytes, length, bytes_eq, bytes_eq_refl,
}
use keva.Protocol.Client.{TopologyResponse}
use keva.Protocol.Message.{
  Message, get_request, set_request, delete_request, get_response, set_response, delete_response,
  topology_request, topology_response, replication_sync, replication_ack, replication_join,
  heartbeat, heartbeat_ack, vote_request, vote_response, error_message,
}
use keva.Cli.{
  Network, Client, as_topology, ask, send_to_node, fetch_topology, take_topology, after_fetch,
  connect_by, connect, after_connect, wait_rounds, wait_for_leader, pick_target, is_write,
  after_wait, after_send, attempts, execute,
}

-- An address that a node has named as the leader, in answer to some request.
abbrev pub IsNamed : Network → Bytes → Type 0
IsNamed net addr =
    (i : ℕ) × ((a : Bytes) × ((t : TopologyResponse) × ((net i a ask ≡ some (topology_response t))
          × (t.leader_addr ≡ addr))))

-- Where a request may go: anywhere if it asks for the topology, to a leader otherwise.
abbrev pub IsRouted : Network → Bytes × Message → Type 0
IsRouted net (addr, msg) = (msg ≡ ask) ⊎ IsNamed net addr

-- A client that knows its leader from a node, and has kept to this.
pub record IsFaithful (net : Network) (c : Client) : Type 0 where
  pub leader : (c.leader_addr ≡ []) ⊎ IsNamed net c.leader_addr
  pub routed : All (IsRouted net) c.made

pub back :
    (r : Option Message) (t : TopologyResponse)
    → as_topology r ≡ some t
    → r ≡ some (topology_response t)
back none t q = absurd (cc q)
back (some (get_request x)) t q = absurd (cc q)
back (some (set_request x)) t q = absurd (cc q)
back (some (delete_request x)) t q = absurd (cc q)
back (some (get_response x)) t q = absurd (cc q)
back (some (set_response x)) t q = absurd (cc q)
back (some (delete_response x)) t q = absurd (cc q)
back (some (topology_request x)) t q = absurd (cc q)
back (some (topology_response x)) t q = cc q
back (some (replication_sync x)) t q = absurd (cc q)
back (some (replication_ack x)) t q = absurd (cc q)
back (some (replication_join x)) t q = absurd (cc q)
back (some (heartbeat x)) t q = absurd (cc q)
back (some (heartbeat_ack x)) t q = absurd (cc q)
back (some (vote_request x)) t q = absurd (cc q)
back (some (vote_response x)) t q = absurd (cc q)
back (some (error_message x)) t q = absurd (cc q)

module _ (net : Network) where
  send_to_node-IsFaithful :
      (addr : Bytes) (msg : Message) (c : Client)
      → IsRouted net (addr, msg)
      → IsFaithful net c
      → IsFaithful net (send_to_node net addr msg c).1
  unfolding send_to_node
  send_to_node-IsFaithful addr msg c r f = record { leader = f.leader; routed = (r, f.routed) }

  connect_by-IsFaithful :
      (addrs : List Bytes) (c : Client)
      → IsFaithful net c
      → IsFaithful net (connect_by net addrs c).1
  unfolding connect_by fetch_topology send_to_node take_topology
  connect_by-IsFaithful [] c f = f
  connect_by-IsFaithful (addr ∷ addrs) c f =
      by_answer (net (length c.made) addr ask) refl (connect_by-IsFaithful addrs)
    where
      asked : Client
      asked = record c { made = (addr, ask) ∷ c.made }

      by_topology :
          (o : Option TopologyResponse)
          → ((t : TopologyResponse) → o ≡ some t → IsNamed net t.leader_addr)
          → ((d : Client) → IsFaithful net d → IsFaithful net (connect_by net addrs d).1)
          → IsFaithful net (after_fetch (connect_by net addrs) (o, asked)).1
      by_topology none named more =
          more asked (record { leader = f.leader; routed = (inl refl, f.routed) })
      by_topology (some t) named more =
          let g : IsFaithful net (take_topology t asked) = record {
            leader = inr (named t refl);
            routed = (inl refl, f.routed);
          } in
          elim (Bool-cases (bytes_eq t.leader_addr [])) [
            | inl e ↦ rw e (more (take_topology t asked) g)
            | inr e ↦ rw e g
          ]

      by_answer :
          (r : Option Message)
          → net (length c.made) addr ask ≡ r
          → ((d : Client) → IsFaithful net d → IsFaithful net (connect_by net addrs d).1)
          → IsFaithful net (after_fetch (connect_by net addrs) (as_topology r, asked)).1
      by_answer r e more =
          by_topology (as_topology r) (λ t q. (length c.made, (addr, (t, (e ∙ back r t q, refl)))))
            more

  after_connect-IsFaithful :
      (more : Client → Bool × Client)
      → ((d : Client) → IsFaithful net d → IsFaithful net (more d).1)
      → (b : Bool) (d : Client) → IsFaithful net d
      → IsFaithful net (after_connect more (b, d)).1
  after_connect-IsFaithful more h b d f = elim (Bool-cases (b && not (bytes_eq d.leader_addr []))) [
    | inl e ↦ rw e f
    | inr e ↦ rw e (h d f)
  ]

  wait_rounds-IsFaithful :
      (n : ℕ) (c : Client) → IsFaithful net c → IsFaithful net (wait_rounds n net c).1
  unfolding wait_rounds connect
  wait_rounds-IsFaithful zero c f = f
  wait_rounds-IsFaithful (suc n) c f =
      after_connect-IsFaithful (wait_rounds n net) (wait_rounds-IsFaithful n) _ _
        (connect_by-IsFaithful c.known_addrs c f)

  module _ (rand : ℕ → ℕ → ℕ) (msg : Message) (writes : is_write msg ≡ true) where
    attempts-IsFaithful :
        (n : ℕ) (c : Client) → IsFaithful net c → IsFaithful net (attempts n net rand msg c).1
    unfolding attempts pick_target send_to_node
    attempts-IsFaithful zero c f = f
    attempts-IsFaithful (suc n) c f = rw writes (elim (Bool-cases (bytes_eq c.leader_addr [])) [
      | inl e ↦ rw e (waited _ _ (attempts-IsFaithful n) (wait_rounds-IsFaithful 15 c f))
      | inr e ↦ rw e (sent _ (attempts-IsFaithful n) (tried e))
    ])
      where
        waited :
            (b : Bool) (d : Client)
            → ((x : Client) → IsFaithful net x → IsFaithful net (attempts n net rand msg x).1)
            → IsFaithful net d
            → IsFaithful net (after_wait (attempts n net rand msg) (b, d)).1
        waited true d more g = more d g
        waited false d more g = g

        tried :
            bytes_eq c.leader_addr [] ≡ false
            → IsFaithful net (send_to_node net c.leader_addr msg c).1
        tried e = send_to_node-IsFaithful c.leader_addr msg c (inr (named f.leader)) f
          where
            named : (c.leader_addr ≡ []) ⊎ IsNamed net c.leader_addr → IsNamed net c.leader_addr
            named (inl q) = absurd (cc (sym e ∙ ap (λ x. bytes_eq x []) q ∙ bytes_eq_refl []))
            named (inr h) = h

        sent :
            (r : Option Message)
            → ((x : Client) → IsFaithful net x → IsFaithful net (attempts n net rand msg x).1)
            → IsFaithful net (record c { made = (c.leader_addr, msg) ∷ c.made })
            → IsFaithful net
                (after_send
                  (attempts n net rand msg)
                  net
                  (r, record c { made = (c.leader_addr, msg) ∷ c.made })).1
        sent (some resp) more g = g
        sent none more g =
            let d : Client = record c { leader_addr = []; made = (c.leader_addr, msg) ∷ c.made } in
            more (wait_for_leader net d).1
              (wait_rounds-IsFaithful 15 d (record { leader = inl refl; routed = g.routed }))

    -- A client sends a write to no address but one that some node has named as the leader,
    -- whatever the network does; everything else that it sends on the way asks for the topology.
    pub execute-IsFaithful :
        (c : Client) → IsFaithful net c → IsFaithful net (execute net rand msg c).1
    unfolding execute
    execute-IsFaithful c f = attempts-IsFaithful 8 c f
