-- ===== src/Kad/Traversal/Sanitize.antt =====
-- crates/overlord-kad-dht/src/traversal.rs: which contacts of an answer are taken.
use p2p_overlord_agents.Base.{
  ℕ, ◌+◌, ◌≤◌, ◌<◌, ◌≡◌, refl, ap, ◌⊎◌, inl, inr, Bool, true, not, ◌&&◌, ◌||◌, Option, none, some,
  List, [], ◌∷◌, ltb, leb, ◌==◌, if◌then◌else◌, same, length, any, count_if, arith, All, bool_to_ℕ,
  Bool-cases, same_refl,
}
use p2p_overlord_agents.Kad.Routing.Contact.{
  Ipv4Addr, Ipv4Addr-discrete, Subnet24, Subnet24-discrete, subnet24,
}
use p2p_overlord_agents.Kad.Packet.{ContactEntry, ip_addr}
use p2p_overlord_agents.Kad.Traversal.{v4, v6, SocketAddr}

unfoldable pub prefix_count : Subnet24 → List Subnet24 → ℕ
prefix_count p ps = count_if (λ q. same Subnet24-discrete q p) ps

abbrev pub holds_ip : Ipv4Addr → List Ipv4Addr → Bool
holds_ip ip ips = any (λ x. same Ipv4Addr-discrete x ip) ips

-- Not zero, and of an address that was not seen.
abbrev pub is_fresh_entry : List Ipv4Addr → ContactEntry → Bool
is_fresh_entry ips e = not (e.ip == 0 || e.udp_port == 0) && not (holds_ip (ip_addr e) ips)

-- The loop of `sanitize_res_contacts`: a fresh address stays in `ips`, also where its prefix is full.
unfoldable pub sanitize_loop : List Ipv4Addr → List Subnet24 → List ContactEntry → List ContactEntry
unfolding ip_addr subnet24 prefix_count
sanitize_loop ips prefixes [] = []
sanitize_loop ips prefixes (e ∷ es) =
    let ip = ip_addr e in
    let fresh = is_fresh_entry ips e in
    let room = fresh && not (leb 2 (prefix_count (subnet24 ip) prefixes)) in
    let rest =
      sanitize_loop (if fresh then ip ∷ ips else ips)
        (if room then subnet24 ip ∷ prefixes else prefixes) es in
    if room then e ∷ rest else rest

unfoldable pub sanitize_res_contacts :
    List ContactEntry → SocketAddr → ℕ → Option (List ContactEntry)
unfolding sanitize_loop subnet24
sanitize_res_contacts contacts responder_addr max_contacts =
    if ltb max_contacts (length contacts)
    then none
    else some (elim responder_addr.ip [
      | v4 ip ↦ sanitize_loop (ip ∷ []) (subnet24 ip ∷ []) contacts
      | v6 _ ↦ sanitize_loop [] [] contacts
    ])

abbrev entry_has_ip : Ipv4Addr → ContactEntry → Bool
entry_has_ip ip e = same Ipv4Addr-discrete (ip_addr e) ip

abbrev entry_has_prefix : Subnet24 → ContactEntry → Bool
entry_has_prefix p e = same Subnet24-discrete (subnet24 (ip_addr e)) p

abbrev is_usable : ContactEntry → Bool
is_usable e = not (e.ip == 0 || e.udp_port == 0)

-- The addresses of a list and those of the entries that the loop lets in are different.
loop_ips :
    (ip : Ipv4Addr) (ips : List Ipv4Addr) (prefixes : List Subnet24) (es : List ContactEntry)
    → count_if (entry_has_ip ip) (sanitize_loop ips prefixes es) + bool_to_ℕ (holds_ip ip ips) ≤ 1
unfolding sanitize_loop
loop_ips ip ips prefixes [] = ground arith
loop_ips ip ips prefixes (e ∷ es) =
    let fresh = is_fresh_entry ips e in
    let room = fresh && not (leb 2 (prefix_count (subnet24 (ip_addr e)) prefixes)) in
    let rest =
      loop_ips ip (if fresh then ip_addr e ∷ ips else ips)
        (if room then subnet24 (ip_addr e) ∷ prefixes else prefixes) es in
    ground (arith, rest)

loop_prefixes :
    (p : Subnet24) (ips : List Ipv4Addr) (prefixes : List Subnet24) (es : List ContactEntry)
    → prefix_count p prefixes ≤ 2
    → count_if (entry_has_prefix p) (sanitize_loop ips prefixes es) + prefix_count p prefixes ≤ 2
unfolding sanitize_loop prefix_count
loop_prefixes p ips prefixes [] h = ground arith
loop_prefixes p ips prefixes (e ∷ es) h =
    let fresh = is_fresh_entry ips e in
    let room = fresh && not (leb 2 (prefix_count (subnet24 (ip_addr e)) prefixes)) in
    let rest =
      loop_prefixes p (if fresh then ip_addr e ∷ ips else ips)
        (if room then subnet24 (ip_addr e) ∷ prefixes else prefixes) es in
    ground (arith, rest, ap (λ q. prefix_count q prefixes) {x = subnet24 (ip_addr e)} {y = p})

loop_usable :
    (ips : List Ipv4Addr) (prefixes : List Subnet24) (es : List ContactEntry)
    → All (λ e. is_usable e ≡ true) (sanitize_loop ips prefixes es)
      × (length (sanitize_loop ips prefixes es) ≤ length es)
unfolding sanitize_loop
loop_usable ips prefixes [] = (tt, omega arith)
loop_usable ips prefixes (e ∷ es) =
    let fresh = is_fresh_entry ips e in
    let room = fresh && not (leb 2 (prefix_count (subnet24 (ip_addr e)) prefixes)) in
    let (us, n) =
      loop_usable (if fresh then ip_addr e ∷ ips else ips)
        (if room then subnet24 (ip_addr e) ∷ prefixes else prefixes) es in
    elim (Bool-cases room) [
      | inl b ↦ rw b ((ground (arith, b), rw b at us), ground (arith, rw b at n))
      | inr b ↦ rw b (rw b at us, ground (arith, rw b at n))
    ]

-- What is taken of an answer from a node with a version 4 address: at most as many contacts as were
-- asked for, each with an address and a port, no address twice and not that of the node, at most two
-- of one /24 and at most one of the node's own /24.
pub record IsSanitized (ip : Ipv4Addr) (max_contacts : ℕ) (out : List ContactEntry) : Type 0 where
  pub is_limited : length out ≤ max_contacts
  pub are_usable : All (λ e. is_usable e ≡ true) out
  pub are_distinct : (a : Ipv4Addr) → count_if (entry_has_ip a) out ≤ 1
  pub not_responder : count_if (entry_has_ip ip) out ≡ 0
  pub are_spread : (p : Subnet24) → count_if (entry_has_prefix p) out ≤ 2
  pub own_prefix : count_if (entry_has_prefix (subnet24 ip)) out ≤ 1

-- An answer with more contacts than were asked for is dropped; of any other, what is taken is at most
-- as many contacts as were asked for, each with an address and a port, no address twice and not that
-- of the node that answered, at most two of one /24 and at most one of that node's own /24.
pub sanitize_res_contacts-IsSanitized :
    (contacts : List ContactEntry) (ip : Ipv4Addr) (port max_contacts : ℕ)
    → ((max_contacts < length contacts)
        × (sanitize_res_contacts contacts (record { ip = v4 ip; port = port }) max_contacts ≡ none))
      ⊎ ((out : List ContactEntry) × (sanitize_res_contacts contacts
              (record { ip = v4 ip; port = port })
              max_contacts
            ≡ some out)
          × IsSanitized ip max_contacts out)
unfolding sanitize_res_contacts
sanitize_res_contacts-IsSanitized contacts ip port max_contacts =
    let out = sanitize_loop (ip ∷ []) (subnet24 ip ∷ []) contacts in
    let (us, n) = loop_usable (ip ∷ []) (subnet24 ip ∷ []) contacts in
    let start : (p : Subnet24) → prefix_count p (subnet24 ip ∷ []) ≤ 2 =
      λ p. unfold prefix_count in ground arith in
    let own : prefix_count (subnet24 ip) (subnet24 ip ∷ []) ≡ 1 =
      unfold prefix_count in ground (arith, same_refl Subnet24-discrete (subnet24 ip)) in
    let seen : bool_to_ℕ (holds_ip ip (ip ∷ [])) ≡ 1 =
      ground (arith, same_refl Ipv4Addr-discrete ip) in
    elim (Bool-cases (ltb max_contacts (length contacts))) [
      | inl b ↦ inl (ground (arith, b), rw b refl)
      | inr b ↦ inr (
        out,
        rw b refl,
        record {
          is_limited = ground (arith, b, n);
          are_usable = us;
          are_distinct = λ a. omega (arith, loop_ips a (ip ∷ []) (subnet24 ip ∷ []) contacts);
          not_responder = omega (arith, loop_ips ip (ip ∷ []) (subnet24 ip ∷ []) contacts, seen);
          are_spread =
              λ p. omega (arith, loop_prefixes p (ip ∷ []) (subnet24 ip ∷ []) contacts (start p));
          own_prefix = omega (
            arith,
            loop_prefixes (subnet24 ip) (ip ∷ []) (subnet24 ip ∷ []) contacts (start (subnet24 ip)),
            own,
          );
        },
      )
    ]
