-- ===== src/Proxy/Listening.antt =====
-- Where the plain listener listens.
use dnsproxy_rs.Bootstrap.{Addresses}
use dnsproxy_rs.Prelude.{
  ℕ, ◌≡◌, ◌↔◌, refl, true, false, List, [], ◌∷◌, Option, none, some, Bool, ◌||◌, ◌⊎◌, inl, inr,
  if◌then◌else◌,
}
use dnsproxy_rs.Proxy.{
  Wildcards, Listen, Args, port_or, listen_or, some_addr, some_port, is_requested,
  secure_listener_enabled, listen_addrs,
}
use dnsproxy_rs.Sockets.{SocketAddr}

module _ (a : Addresses) (wild : Wildcards a) where
  nowhere :
      (port : Option ℕ) (listen : List (SocketAddr a)) (secure : Bool)
      → (port_or a wild port
            (listen_or a wild listen (if secure then [] else (wild.loopback, 53) ∷ []))
          ≡ [])
        ↔ ((port ≡ none) × (listen ≡ []) × (secure ≡ true))
  nowhere none [] true = (λ e. (refl, refl, refl), λ e. refl)
  nowhere none [] false = (λ e. absurd (cc e), λ (p, l, s). absurd (cc s))
  nowhere none (addr ∷ addrs) secure = (λ e. absurd (cc e), λ (p, l, s). absurd (cc l))
  nowhere (some port) listen secure = (λ e. absurd (cc e), λ (p, l, s). absurd (cc p))

  -- A pair of flags asks for a listener: by an address, or by a port.
  pub data Requested (l : Listen a) : Type 0 where
    by_addr :
        (addr : SocketAddr a) (addrs : List (SocketAddr a)) → l.listen ≡ addr ∷ addrs → Requested l
    by_port : (port : ℕ) → l.port ≡ some port → Requested l

  flags_iff :
      (l : Listen a) (listen : List (SocketAddr a)) (port : Option ℕ)
      → l.listen ≡ listen
      → l.port ≡ port
      → ((some_addr a wild listen || some_port a wild port) ≡ true) ↔ Requested l
  flags_iff l (addr ∷ addrs) port el ep = (λ e. by_addr addr addrs el, λ r. refl)
  flags_iff l [] (some port) el ep = (λ e. by_port port ep, λ r. refl)
  flags_iff l [] none el ep = (λ e. absurd (cc e), unasked)
    where
      unasked : Requested l → false ≡ true
      unasked (by_addr addr addrs some_addr) = absurd (cc (el, some_addr))
      unasked (by_port port some_port) = absurd (cc (ep, some_port))

  is_requested_iff : (l : Listen a) → (is_requested a wild l ≡ true) ↔ Requested l
  unfolding is_requested
  is_requested_iff l = flags_iff l l.listen l.port refl refl

  -- Some listener for DoQ, DoT, DoH or DNSCrypt is asked for.
  abbrev pub SomeSecure : Args a → Type 0
  SomeSecure args =
      Requested args.quic ⊎ Requested args.tls ⊎ Requested args.https ⊎ Requested args.dnscrypt

  or_true : (b d : Bool) → (b || d) ≡ true → (b ≡ true) ⊎ (d ≡ true)
  or_true true d e = inl refl
  or_true false d e = inr e

  or_right : (b d : Bool) → d ≡ true → (b || d) ≡ true
  or_right true d e = refl
  or_right false d e = e

  secure_listener_enabled_iff :
      (args : Args a) → (secure_listener_enabled a wild args ≡ true) ↔ SomeSecure args
  unfolding secure_listener_enabled
  secure_listener_enabled_iff args = (asked, enabled)
    where
      asked : secure_listener_enabled a wild args ≡ true → SomeSecure args
      asked e = elim (or_true (is_requested a wild args.quic) _ e) [
        | inl quic ↦ inl ((is_requested_iff args.quic).0 quic)
        | inr e ↦ elim (or_true (is_requested a wild args.tls) _ e) [
          | inl tls ↦ inr (inl ((is_requested_iff args.tls).0 tls))
          | inr e ↦ elim (or_true (is_requested a wild args.https) _ e) [
            | inl https ↦ inr (inr (inl ((is_requested_iff args.https).0 https)))
            | inr dnscrypt ↦ inr (inr (inr ((is_requested_iff args.dnscrypt).0 dnscrypt)))
          ]
        ]
      ]

      enabled : SomeSecure args → secure_listener_enabled a wild args ≡ true
      enabled (inl quic) = rw ((is_requested_iff args.quic).1 quic) refl
      enabled (inr (inl tls)) =
          or_right (is_requested a wild args.quic) _ (rw ((is_requested_iff args.tls).1 tls) refl)
      enabled (inr (inr (inl https))) = or_right (is_requested a wild args.quic) _ (
          or_right (is_requested a wild args.tls) _
            (rw ((is_requested_iff args.https).1 https) refl))
      enabled (inr (inr (inr dnscrypt))) = or_right (is_requested a wild args.quic) _ (
          or_right (is_requested a wild args.tls) _ (
            or_right (is_requested a wild args.https) _
              ((is_requested_iff args.dnscrypt).1 dnscrypt)))

  -- The plain listener is left out exactly if neither an address nor a port is given for it, and an
  -- address or a port is given for one of the listeners for DoQ, DoT, DoH and DNSCrypt.
  pub listen_addrs-nil_iff :
      (args : Args a)
      → (listen_addrs a wild args ≡ [])
        ↔ ((args.plain.port ≡ none) × (args.plain.listen ≡ []) × SomeSecure args)
  unfolding listen_addrs
  listen_addrs-nil_iff args =
      let none_left =
        nowhere args.plain.port args.plain.listen (secure_listener_enabled a wild args) in
      let secure = secure_listener_enabled_iff args in
      (
        λ e. let (port, listen, enabled) = none_left.0 e in (port, listen, secure.0 enabled),
        λ (port, listen, asked). none_left.1 (port, listen, secure.1 asked),
      )
