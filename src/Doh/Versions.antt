-- ===== src/Doh/Versions.antt =====
-- Which HTTP version an exchange uses.
use dnsproxy_rs.Bootstrap.{Addresses}
use dnsproxy_rs.Client.{Formats}
use dnsproxy_rs.Doh.Client.{
  Kept, allows_http3, http2_supported, first_addr, probe, preferred_or, should_use_http3,
}
use dnsproxy_rs.Doh.Http3
use dnsproxy_rs.Client.Plain.{within}
use dnsproxy_rs.Exec.{timed}
use dnsproxy_rs.Doh.Http3.{or_false, prefers_quic, first_probe, probe_h3}
use dnsproxy_rs.Doh.Https.{alpns}
use dnsproxy_rs.Doh.{Http, DohUpstream}
use dnsproxy_rs.Error.{Result, ok, err, panic, is_ok}
use dnsproxy_rs.Options.{HttpVersion, http11, http2, http3, is_http3}
use dnsproxy_rs.Prelude.{
  ℕ, not, Option-cases, ◌≡◌, ◌≢◌, ◌⊎◌, refl, ap, subst, ◌∙◌, Bool, true, false, List, [], ◌∷◌,
  Option, none, some, Any, Bool-cases, inl, inr,
}
use dnsproxy_rs.Sockets.{Sockets, SocketAddr}

-- HTTP/3 is in the list, or another version is.
abbrev pub HasHttp3 : List HttpVersion → Type 0
HasHttp3 = Any (λ v. v ≡ http3)

abbrev pub HasOther : List HttpVersion → Type 0
HasOther = Any (λ v. v ≢ http3)

allows_http3-HasHttp3 : (vs : List HttpVersion) → allows_http3 vs ≡ true → HasHttp3 vs
unfolding allows_http3 is_http3
allows_http3-HasHttp3 [] e = absurd (cc e)
allows_http3-HasHttp3 (http11 ∷ vs) e = inr (allows_http3-HasHttp3 vs e)
allows_http3-HasHttp3 (http2 ∷ vs) e = inr (allows_http3-HasHttp3 vs e)
allows_http3-HasHttp3 (http3 ∷ vs) e = inl refl

HasHttp3-allows_http3 : (vs : List HttpVersion) → HasHttp3 vs → allows_http3 vs ≡ true
unfolding allows_http3 is_http3
HasHttp3-allows_http3 [] any = absurd any
HasHttp3-allows_http3 (http11 ∷ vs) (inl same) = absurd (cc same)
HasHttp3-allows_http3 (http2 ∷ vs) (inl same) = absurd (cc same)
HasHttp3-allows_http3 (http3 ∷ vs) (inl same) = refl
HasHttp3-allows_http3 (http11 ∷ vs) (inr any) = HasHttp3-allows_http3 vs any
HasHttp3-allows_http3 (http2 ∷ vs) (inr any) = HasHttp3-allows_http3 vs any
HasHttp3-allows_http3 (http3 ∷ vs) (inr any) = refl

http2_supported-HasOther : (vs : List HttpVersion) → http2_supported vs ≡ true → HasOther vs
unfolding http2_supported is_http3
http2_supported-HasOther [] e = absurd (cc e)
http2_supported-HasOther (http11 ∷ vs) e = inl (λ same. cc same)
http2_supported-HasOther (http2 ∷ vs) e = inl (λ same. cc same)
http2_supported-HasOther (http3 ∷ vs) e = inr (http2_supported-HasOther vs e)

HasOther-http2_supported : (vs : List HttpVersion) → HasOther vs → http2_supported vs ≡ true
unfolding http2_supported is_http3
HasOther-http2_supported [] any = absurd any
HasOther-http2_supported (http11 ∷ vs) any = refl
HasOther-http2_supported (http2 ∷ vs) any = refl
HasOther-http2_supported (http3 ∷ vs) (inl other) = absurd (other refl)
HasOther-http2_supported (http3 ∷ vs) (inr any) = HasOther-http2_supported vs any

-- another version than HTTP/3 gives a protocol to offer
alpns-ne-nil : (vs : List HttpVersion) → HasOther vs → alpns vs ≢ []
unfolding alpns is_http3
alpns-ne-nil [] any e = absurd any
alpns-ne-nil (http11 ∷ vs) any e = cc e
alpns-ne-nil (http2 ∷ vs) any e = cc e
alpns-ne-nil (http3 ∷ vs) (inl other) e = absurd (other refl)
alpns-ne-nil (http3 ∷ vs) (inr any) e = alpns-ne-nil vs any e

-- a list that is not empty has HTTP/3 or another version
some_version : (vs : List HttpVersion) → vs ≢ [] → ¬ HasHttp3 vs → HasOther vs
some_version [] some_v none_v = absurd (some_v refl)
some_version (v ∷ vs) some_v none_v = inl (λ same. none_v (inl same))

module _ (a : Addresses) (f : Formats a) {W : Type 0} (net : Sockets a W) (lib : Http a net)
    (u : DohUpstream a f net) (k : Kept a f net lib) (w : W) where
  -- No timeout is set, or it is not over before the race.
  pub data InTime (w' : W) : Type 0 where
    without_limit : u.timeout ≡ none → InTime w'
    within_limit : (d : ℕ) → u.timeout ≡ some d → net.expires d w' ≡ none → InTime w'

  -- What the race for the address `addr`, begun in the world `w'`, says: HTTP/3 is preferred if the
  -- handshake over QUIC ends first and succeeds, or that over TLS ends first and fails; it is not if
  -- neither ends in time.
  pub data Raced (addr : SocketAddr a) (w' : W) : Bool → Type 0 where
    quic_first :
        (r : Result net.Quic) (w'' : W)
        → InTime w'
        → first_probe a f net lib u addr w' ≡ (inl r, w'')
        → Raced addr w' (is_ok r)
    tls_first :
        (r : Result (Unit {0})) (w'' : W)
        → InTime w'
        → first_probe a f net lib u addr w' ≡ (inr r, w'')
        → Raced addr w' (not (is_ok r))
    neither :
        (d : ℕ) (w'' : W) → u.timeout ≡ some d → net.expires d w' ≡ some w'' → Raced addr w' false

  -- Why HTTP/3 is used, or is not.
  pub data Chosen : Bool → Type 0 where
    only_http3 : HasHttp3 u.http_versions → ¬ HasOther u.http_versions → Chosen true
    not_allowed : ¬ HasHttp3 u.http_versions → Chosen false
    -- both are allowed: what the race said in an earlier exchange
    known :
        (prefer : Bool)
        → HasHttp3 u.http_versions
        → HasOther u.http_versions
        → k.prefer_h3 ≡ some prefer
        → Chosen prefer
    -- what it says now, for the first address of the host; that is kept
    raced :
        (prefer : Bool) (addr : SocketAddr a) (w' : W)
        → HasHttp3 u.http_versions
        → HasOther u.http_versions
        → k.prefer_h3 ≡ none
        → first_addr a f net lib u w ≡ (ok addr, w')
        → Raced addr w' prefer
        → (should_use_http3 a f net lib u k w).1.prefer_h3 ≡ some prefer
        → Chosen prefer

  probe-kept :
      (r : Result (SocketAddr a)) (w' : W) (prefer : Bool)
      → (probe a f net lib u (r, w') k).0 ≡ ok prefer
      → (probe a f net lib u (r, w') k).1.prefer_h3 ≡ some prefer
  unfolding probe
  probe-kept panic w' prefer e = absurd (cc e)
  probe-kept (err x) w' prefer e = absurd (cc e)
  probe-kept (ok addr) w' prefer e =
      let same : (probe_h3 a f net lib u addr w').0 ≡ prefer = cc e in ap some same

  abbrev probed : Result Bool × Kept a f net lib × W
  probed = probe a f net lib u (first_addr a f net lib u w) k

  race_of :
      (addr : SocketAddr a) (w' : W) (first : (Result net.Quic ⊎ Result (Unit {0})) × W)
      → InTime w'
      → first_probe a f net lib u addr w' ≡ first
      → Raced addr w' (prefers_quic a f net lib first.0)
  race_of addr w' (inl r, w'') in_time e = quic_first r w'' in_time e
  race_of addr w' (inr r, w'') in_time e = tls_first r w'' in_time e

  probe_h3-Raced :
      (addr : SocketAddr a) (w' : W) (timeout : Option ℕ)
      → u.timeout ≡ timeout
      → Raced addr w'
          (or_false a f net lib (within net.expires timeout (Http3.raced a f net lib u addr) w')).0
  unfolding timed
  probe_h3-Raced addr w' none e =
      race_of addr w' (first_probe a f net lib u addr w') (without_limit e) refl
  probe_h3-Raced addr w' (some d) e = elim (Option-cases (net.expires d w')) [
    | inl in_time ↦
        rw (in_time, or_false)
          (race_of addr w' (first_probe a f net lib u addr w') (within_limit d e in_time) refl)
    | inr (w'', over) ↦ rw (over, or_false) (neither d w'' e over)
  ]

  probe-raced :
      (r : Result (SocketAddr a)) (w' : W) (prefer : Bool)
      → HasHttp3 u.http_versions
      → HasOther u.http_versions
      → k.prefer_h3 ≡ none
      → first_addr a f net lib u w ≡ (r, w')
      → (probe a f net lib u (r, w') k).0 ≡ ok prefer
      → (should_use_http3 a f net lib u k w).1.prefer_h3 ≡ some prefer
      → Chosen prefer
  unfolding probe probe_h3
  probe-raced panic w' prefer allowed other unknown found e kept = absurd (cc e)
  probe-raced (err x) w' prefer allowed other unknown found e kept = absurd (cc e)
  probe-raced (ok addr) w' prefer allowed other unknown found e kept =
      let same : (probe_h3 a f net lib u addr w').0 ≡ prefer = cc e in
      raced prefer addr w' allowed other unknown found
        (subst (Raced addr w') same (probe_h3-Raced addr w' u.timeout refl)) kept

  chosen_by_race :
      (o : Option Bool) (prefer : Bool)
      → k.prefer_h3 ≡ o
      → HasHttp3 u.http_versions
      → HasOther u.http_versions
      → (preferred_or a f net lib o k w probed).0 ≡ ok prefer
      → (should_use_http3 a f net lib u k w).1.prefer_h3
        ≡ (preferred_or a f net lib o k w probed).1.prefer_h3
      → Chosen prefer
  chosen_by_race (some kept) prefer earlier allowed other e same =
      let it : kept ≡ prefer = cc e in known prefer allowed other (earlier ∙ ap some it)
  chosen_by_race none prefer unknown allowed other e same =
      let (r, w') = first_addr a f net lib u w in
      probe-raced r w' prefer allowed other unknown refl e (same ∙ probe-kept r w' prefer e)

  Chosen-protocols :
      {prefer : Bool}
      → u.http_versions ≢ []
      → Chosen prefer
      → prefer ≡ false
      → alpns u.http_versions ≢ []
  Chosen-protocols some_v (only_http3 allowed none_other) same = absurd (cc same)
  Chosen-protocols some_v (not_allowed forbidden) same =
      alpns-ne-nil u.http_versions (some_version u.http_versions some_v forbidden)
  Chosen-protocols some_v (known prefer allowed other earlier) same =
      alpns-ne-nil u.http_versions other
  Chosen-protocols some_v (raced prefer addr w' allowed other unknown found race kept) same =
      alpns-ne-nil u.http_versions other

  -- HTTP/3 is used if it is the only version that is allowed, and is not if it is not allowed; if
  -- others are allowed too, the race of handshakes decides, whose result is kept: HTTP/3 is used if the
  -- handshake over QUIC ends first and succeeds, or that over TLS ends first and fails, in time.
  pub should_use_http3-Chosen :
      (prefer : Bool) → (should_use_http3 a f net lib u k w).0 ≡ ok prefer → Chosen prefer
  unfolding should_use_http3
  should_use_http3-Chosen prefer e = elim (Bool-cases (allows_http3 u.http_versions)) [
    | inr forbidden ↦
        let same : ok false ≡ ok prefer = rw (should_use_http3, forbidden) at e in
        let it : false ≡ prefer = cc same in
        subst Chosen it
          (not_allowed λ has. absurd (cc (forbidden, HasHttp3-allows_http3 u.http_versions has)))
    | inl allowed ↦ elim (Bool-cases (http2_supported u.http_versions)) [
      | inr none_other ↦
          let same : ok true ≡ ok prefer = rw (should_use_http3, allowed, none_other) at e in
          let it : true ≡ prefer = cc same in
          subst Chosen it (
            only_http3 (allows_http3-HasHttp3 u.http_versions allowed)
              λ has. absurd (cc (none_other, HasOther-http2_supported u.http_versions has)))
      | inl other ↦
          chosen_by_race k.prefer_h3 prefer refl (allows_http3-HasHttp3 u.http_versions allowed)
            (http2_supported-HasOther u.http_versions other)
            (rw (should_use_http3, allowed, other) at e)
            (rw (should_use_http3, allowed, other) refl)
    ]
  ]

  -- Where HTTP/3 is not used and some version is allowed, there is a protocol to offer.
  should_use_http3-alpns :
      (some_v : u.http_versions ≢ [])
      → (should_use_http3 a f net lib u k w).0 ≡ ok false
      → alpns u.http_versions ≢ []
  should_use_http3-alpns some_v e = Chosen-protocols some_v (should_use_http3-Chosen false e) refl
