-- ===== src/Bootstrap/Queries/Found.antt =====
-- The addresses that a lookup by two queries finds.
use dnsproxy_rs.Bootstrap.Queries.{Lookups, type_a, type_aaaa, plain_query, plain_resolver}
use dnsproxy_rs.Bootstrap.{Addresses, join_answers}
use dnsproxy_rs.Dns.{Hickory, Codec}
use dnsproxy_rs.Error.{Result, ok, err, panic}
use dnsproxy_rs.Prelude.Text.{Text}
use dnsproxy_rs.Prelude.{ℕ, ◌≡◌, ◌≢◌, refl, List, [], ◌∷◌, ◌++◌, Option, append-nil}
use dnsproxy_rs.Sockets.{Sockets, SocketAddr}

module _ {A : Type 0} where
  -- what a query found, an error counting as nothing
  abbrev pub found : Result (List A) → List A
  found panic = []
  found (err e) = []
  found (ok ips) = ips

  join_answers-found :
      (r r' : Result (List A))
      → r ≢ panic
      → r' ≢ panic
      → found r ++ found r' ≢ []
      → join_answers r r' ≡ ok (found r ++ found r')
  unfolding join_answers
  join_answers-found panic r' safe safe' some_ip = absurd (safe refl)
  join_answers-found (ok ips) panic safe safe' some_ip = absurd (safe' refl)
  join_answers-found (err e) panic safe safe' some_ip = absurd (safe' refl)
  join_answers-found (ok ips) (ok ips') safe safe' some_ip = refl
  join_answers-found (ok []) (err e) safe safe' some_ip = absurd (some_ip refl)
  join_answers-found (ok (ip ∷ ips)) (err e) safe safe' some_ip = rw (append-nil ips) refl
  join_answers-found (err e) (ok []) safe safe' some_ip = absurd (some_ip refl)
  join_answers-found (err e) (ok (ip ∷ ips)) safe safe' some_ip = refl
  join_answers-found (err e) (err e') safe safe' some_ip = absurd (some_ip refl)

module _ (a : Addresses) {W : Type 0} (net : Sockets a W) {h : Hickory} (lib : Lookups a h W)
    (c : Codec h) (addr : SocketAddr a) (timeout : Option ℕ) (host : Text) (w : W) where
  -- Where one of the two queries finds an address, and neither panics, the lookup finds those of the
  -- query for A and then those of the query for AAAA, an error of one of them counting as nothing.
  plain_resolver-found :
      (r r' : Result (List a.IpAddr)) (w' w'' : W)
      → plain_query a net lib c addr timeout host type_a w ≡ (r, w')
      → plain_query a net lib c addr timeout host type_aaaa w' ≡ (r', w'')
      → r ≢ panic
      → r' ≢ panic
      → found r ++ found r' ≢ []
      → plain_resolver a net lib c addr timeout host w ≡ (ok (found r ++ found r'), w'')
  unfolding plain_resolver
  plain_resolver-found r r' w' w'' first second safe safe' some_ip =
      rw (first, second, join_answers-found r r' safe safe' some_ip) refl
