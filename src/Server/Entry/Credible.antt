-- ===== src/Server/Entry/Credible.antt =====
-- src/tunnel/server.rs: which connections go on, and what is left of the others.
use ezvpn.Prelude.{
  sym, ◌∙◌, not, nat_eq, ℕ, ◌<◌, ◌≡◌, ◌↔◌, refl, ap, true, Option, none, some, Eq, ◌==◌, arith,
  Bool-cases, inl, inr, if_holds, Bytes, leb, leb→le, leb_false→lt,
}
use ezvpn.Error.{
  >>=-eq-ok, reject_if-eq-ok, ok-injective, Result, ok, err, signaling, ip_assignment,
}
use ezvpn.Signaling.{Codec, ClientAuthPayload, VpnHandshake, or_fail, decode_handshake}
use ezvpn.Signaling.Framing.{read_message}
use ezvpn.Server.{Server, u64_mod, enter, leave, is_full}
use ezvpn.Server.Entry.{
  max_handshake_size, Credentials, Entry, failed, denied, entered, signed, claimed,
  verify_client_auth, admit, authenticate, decoded, handle_entry,
}

decoded-version :
    (codec : Codec VpnHandshake) (r : Result (Bytes × Bytes)) (handshake : VpnHandshake)
    → decoded codec r ≡ ok handshake
    → handshake.version ≡ 8
unfolding decoded decode_handshake
decoded-version codec (err problem) handshake h = cc
decoded-version codec (ok (handshake_data, rest)) handshake h =
    let (parsed, at_parsed, checked) =
      >>=-eq-ok (or_fail (codec.from_slice handshake_data) (signaling "Failed to decode handshake"))
        _ h in
    let (same_version, same) = reject_if-eq-ok (not (nat_eq parsed.version 8)) _ _ checked in
    ap (λ k. k.version) (sym (ok-injective same)) ∙ ground (arith, same_version)

module _ {E Key : Type 0} ⦃e : Eq E⦄ (c : Credentials E Key) where
  -- The payload claims the endpoint of the connection, and bears the signature of that endpoint by a
  -- key that is authorized.
  abbrev pub IsCredible : ClientAuthPayload → E → Type 0
  IsCredible auth remote_id =
      (c.parse_id auth.endpoint_id ≡ some remote_id)
      × ((key : Key) × (c.parse_key auth.public_key ≡ some key)
          × (c.authorized key ≡ true)
          × (c.verify key remote_id auth.signature ≡ true))

  signed-credible :
      (o : Option Key) (auth : ClientAuthPayload) (remote_id : E)
      → signed c o auth remote_id ≡ true
      → (key : Key) × (o ≡ some key)
        × (c.authorized key ≡ true)
        × (c.verify key remote_id auth.signature ≡ true)
  unfolding signed
  signed-credible none auth remote_id h = cc
  signed-credible (some key) auth remote_id h = (key, refl, ground arith, ground arith)

  claimed-credible :
      (o : Option E) (auth : ClientAuthPayload) (remote_id : E)
      → claimed c o auth remote_id ≡ true
      → (o ≡ some remote_id) × (signed c (c.parse_key auth.public_key) auth remote_id ≡ true)
  unfolding claimed
  claimed-credible none auth remote_id h = cc
  claimed-credible (some id) auth remote_id h = elim (Bool-cases (id == remote_id)) [
    | inl same ↦ (ap some ((e.beq_iff id remote_id).0 same), ground (arith, same))
    | inr other ↦ absurd (ground (arith, other))
  ]

  pub verify_iff :
      (auth : ClientAuthPayload) (remote_id : E)
      → (verify_client_auth c auth remote_id ≡ true) ↔ IsCredible auth remote_id
  unfolding verify_client_auth
  verify_iff auth remote_id = (
    λ h.
        let (id, rest) = claimed-credible (c.parse_id auth.endpoint_id) auth remote_id h in
        (id, signed-credible (c.parse_key auth.public_key) auth remote_id rest),
    λ h. rw (h.0, claimed, (e.beq_iff remote_id remote_id).1 refl, h.1.1, signed, h.1.2) h.1.3,
  )

  module _ {Net4 Net6 : Type 0} where
    -- What an entry says of a connection, whose handshake was read with a result, and of the state.
    abbrev pub Admits :
        Result VpnHandshake → E → Server Net4 Net6 E → Entry × Server Net4 Net6 E → Type 0
    Admits read remote_id s (entered handshake, s') =
        (read ≡ ok handshake)
        × (handshake.version ≡ 8)
        × IsCredible handshake.auth remote_id
        × (s.active_connections < s.max_clients)
        × (s' ≡ (enter s).1)
    Admits read remote_id s (failed problem, s') = (read ≡ err problem) × (s' ≡ s)
    Admits read remote_id s (denied reason problem, s') =
        (handshake : VpnHandshake) × (read ≡ ok handshake)
        × (¬ (IsCredible handshake.auth remote_id × (s.active_connections < s.max_clients)))
        × (s' ≡ s)

    leave-enter : (s : Server Net4 Net6 E) → s.active_connections < u64_mod → leave (enter s).1 ≡ s
    unfolding leave enter
    leave-enter s small = ap (λ (n : ℕ). record s { active_connections = n }) (omega arith)

    admit-Admits :
        (handshake : VpnHandshake) (remote_id : E) (s : Server Net4 Net6 E)
        → handshake.version ≡ 8
        → IsCredible handshake.auth remote_id
        → s.active_connections < u64_mod
        → Admits (ok handshake) remote_id s (admit handshake s)
    unfolding admit is_full
    admit-Admits handshake remote_id s version credible small =
        if_holds (Admits (ok handshake) remote_id s) (leb (enter s).1.max_clients (enter s).0)
          (denied "Server full" (ip_assignment "Server full"), leave (enter s).1)
          (entered handshake, (enter s).1)
          (λ full. (
            handshake,
            refl,
            (λ h. unfold enter in absurd (omega (arith, leb→le _ _ full, h.1))),
            leave-enter s small,
          ))
          (λ room. (refl, version, credible, unfold enter in leb_false→lt _ _ room, refl))

    -- Of a server that counts fewer than 2 ^ 64 connections: a connection goes on exactly if its
    -- handshake is read, is of version 8 and credible, and the server has room; it is then
    -- counted. Any other leaves the state of the server as it was.
    pub handle_entry-Admits :
        (codec : Codec VpnHandshake) (stream : Bytes) (remote_id : E) (s : Server Net4 Net6 E)
        → s.active_connections < u64_mod
        → Admits
            (decoded codec (read_message max_handshake_size stream))
            remote_id
            s
            (handle_entry c codec stream remote_id s)
    unfolding handle_entry
    handle_entry-Admits codec stream remote_id s small =
        read (decoded codec (read_message max_handshake_size stream))
          (decoded-version codec (read_message max_handshake_size stream))
      where
        read :
            (r : Result VpnHandshake)
            → ((h : VpnHandshake) → r ≡ ok h → h.version ≡ 8)
            → Admits r remote_id s (authenticate c r remote_id s)
        read (err problem) v = unfold authenticate in (refl, refl)
        read (ok handshake) v =
            unfold authenticate in
            if_holds (Admits (ok handshake) remote_id s)
              (verify_client_auth c handshake.auth remote_id) (admit handshake s)
              (
                denied "Public-key authentication failed"
                    (signaling "Public-key authentication failed"),
                s,
              )
              (λ good.
                admit-Admits handshake remote_id s (v handshake refl)
                  ((verify_iff handshake.auth remote_id).0 good) small)
              (λ bad. (
                handshake,
                refl,
                (λ h. cc (bad, (verify_iff handshake.auth remote_id).1 h.0)),
                refl,
              ))
