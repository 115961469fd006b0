-- ===== src/DockerApi/Addressing.antt =====
-- Which address `IP` returns, and what a client is made of.
use mailcow_watchdog.Prelude.{
  ◌≡◌, ◌≢◌, ◌⊎◌, inl, inr, sym, Bool, true, String, List, [], ◌∷◌, some, Result-cases, Bool-cases,
  ok, select, Some, str_eq, eq_iff, arith,
}
use mailcow_watchdog.Prelude.Text.{codes, has_prefix}
use mailcow_watchdog.DockerApi.{
  Fields, Container, Transport, Client, list, pick_address, first_address, address_among, ip,
}

-- What `rand.Shuffle` promises: whatever some container of the result has, some container of the given
-- list has.
abbrev pub IsShuffle : (List Container → List Container) → Type 1
IsShuffle shuffle = (P : Container → Type 0) (ks : List Container) → Some P (shuffle ks) → Some P ks

-- An attachment with the given address, which begins, as a text, with the configured network; any
-- attachment will do if none is configured.
abbrev pub HasNetworkPrefix : Client → String → String × String → Type 0
HasNetworkPrefix c address n =
    (n.1 ≡ address)
    × ((c.ipv4_network ≡ "") ⊎ (has_prefix (codes n.1) (codes c.ipv4_network) ≡ true))

module _ (c : Client) where
  pick_address-HasNetworkPrefix :
      (networks : Fields) (address : String)
      → pick_address c networks ≡ address
      → address ≢ ""
      → Some (HasNetworkPrefix c address) networks
  unfolding pick_address
  pick_address-HasNetworkPrefix [] address h ne = absurd (ne (sym h))
  pick_address-HasNetworkPrefix ((name, a) ∷ networks) address h ne =
      elim (Bool-cases (str_eq c.ipv4_network "")) [
        | inl e ↦ inl (ground (arith, h, e), inl ((eq_iff c.ipv4_network "").0 e))
        | inr e ↦ elim (Bool-cases (has_prefix (codes a) (codes c.ipv4_network))) [
          | inl p ↦ inl (ground (arith, h, e, p), inr p)
          | inr p ↦
              inr (pick_address-HasNetworkPrefix networks address (ground (arith, h, e, p)) ne)
        ]
      ]

  first_address-Some :
      (ks : List Container) (address : String)
      → first_address c ks ≡ some address
      → Some (λ k. Some (HasNetworkPrefix c address) k.networks) ks
  unfolding first_address
  first_address-Some [] address h = absurd (ground (arith, h))
  first_address-Some (k ∷ ks) address h =
      elim (Bool-cases (str_eq (pick_address c k.networks) "")) [
        | inl e ↦ inr (first_address-Some ks address (ground (arith, h, e)))
        | inr e ↦
            let same : pick_address c k.networks ≡ address = ground (arith, h, e) in
            inl (
              pick_address-HasNetworkPrefix k.networks address same
                (λ z. ground (arith, same, e, z, eq_iff (pick_address c k.networks) "")))
      ]

  chosen :
      (shuffle : List Container → List Container) (service : String) (ms : List Container)
      (address : String)
      → address_among shuffle c service ms ≡ ok address
      → first_address c (shuffle ms) ≡ some address
  chosen shuffle service [] address h = absurd (ground (arith, h))
  chosen shuffle service (m ∷ ms) address h = ground (arith, h)

  selected :
      (P : Container → Type 0) (p : Container → Bool) (ks : List Container)
      → Some P (select p ks)
      → Some (λ k. (p k ≡ true) × P k) ks
  selected P p [] h = absurd h.1
  selected P p (k ∷ ks) h = elim (Bool-cases (p k)) [
    | inl e ↦ elim (rw e at h) [ inl x ↦ inl (e, x) | inr r ↦ inr (selected P p ks r) ]
    | inr e ↦ inr (selected P p ks (rw e at h))
  ]

  -- However the replicas are shuffled, an address that `IP` returns is that of a listed container which
  -- runs the given service, and begins, as a text, with the configured network, if one is configured.
  pub ip_lem :
      {World : Type 0} (io : Transport World) (shuffle : List Container → List Container)
      (service : String) (w : World) (address : String)
      → IsShuffle shuffle
      → (ip io shuffle c service w).0 ≡ ok address
      → (ks : List Container) × ((list io c w).0 ≡ ok ks)
        × Some
            (λ k. (str_eq k.service service ≡ true) × Some (HasNetworkPrefix c address) k.networks)
            ks
  unfolding ip
  ip_lem io shuffle service w address fair h =
      let runs = λ (k : Container). str_eq k.service service in
      elim (Result-cases (list io c w).0) [
        | inl (e, l) ↦ absurd (ground (arith, h, l))
        | inr (ks, l) ↦
            let found = chosen shuffle service (select runs ks) address (rw l at h) in
            let P = λ (k : Container). Some (HasNetworkPrefix c address) k.networks in
            (
              ks,
              l,
              selected P runs ks (
                  fair P (select runs ks)
                    (first_address-Some (shuffle (select runs ks)) address found)),
            )
      ]
