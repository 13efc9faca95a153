-- ===== src/Bootstrap/Preferred.antt =====
-- The order that resolved addresses are dialed in.
use dnsproxy_rs.Bootstrap.{Addresses, sort_key, order_addrs, resolve_addrs}
use dnsproxy_rs.Error.{Result, ok}
use dnsproxy_rs.Prelude.Sort.{insert_by, sort_by}
use dnsproxy_rs.Prelude.Text.{Text}
use dnsproxy_rs.Prelude.{
  ℕ, ◌≡◌, ◌≢◌, refl, Bool, true, false, not, ◌||◌, List, [], ◌∷◌, ◌++◌, map, none, if◌then◌else◌,
  ap, ◌∙◌, Bool-cases, inl, inr,
}

module _ {A : Type 0} (key : A → Bool) where
  -- the elements whose key is `b`, in their order
  abbrev pub with_key : Bool → List A → List A
  with_key b [] = []
  with_key false (x ∷ xs) = if key x then with_key false xs else x ∷ with_key false xs
  with_key true (x ∷ xs) = if key x then x ∷ with_key true xs else with_key true xs

  abbrev by_key : A → A → Bool
  by_key x y = not (key x) || key y

  insert_by-first : (x : A) (ys : List A) → key x ≡ false → insert_by by_key x ys ≡ x ∷ ys
  unfolding insert_by
  insert_by-first x [] e = refl
  insert_by-first x (y ∷ ys) e = rw e refl

  insert_by-last :
      (x : A) (ys zs : List A)
      → key x ≡ true
      → insert_by by_key x (with_key false ys ++ with_key true zs)
        ≡ with_key false ys ++ x ∷ with_key true zs
  unfolding insert_by
  insert_by-last x [] [] e = refl
  insert_by-last x [] (z ∷ zs) e = elim (Bool-cases (key z)) [
    | inl late ↦ rw (late, insert_by, e, late) refl
    | inr early ↦ rw early (insert_by-last x [] zs e)
  ]
  insert_by-last x (y ∷ ys) zs e = elim (Bool-cases (key y)) [
    | inl late ↦ rw late (insert_by-last x ys zs e)
    | inr early ↦ rw (early, insert_by, e, early) (ap (◌∷◌ y) (insert_by-last x ys zs e))
  ]

  sort_by-with_key : (xs : List A) → sort_by by_key xs ≡ with_key false xs ++ with_key true xs
  unfolding sort_by
  sort_by-with_key [] = refl
  sort_by-with_key (x ∷ xs) = elim (Bool-cases (key x)) [
    | inl late ↦
        rw late (ap (insert_by by_key x) (sort_by-with_key xs) ∙ insert_by-last x xs xs late)
    | inr early ↦
        rw early (ap (insert_by by_key x) (sort_by-with_key xs) ∙ insert_by-first x _ early)
  ]

module _ (a : Addresses) where
  open a use {IpAddr, parse_ip}

  order_addrs-with_key :
      (prefer_v6 : Bool) (port : ℕ) (ips : List IpAddr)
      → ips ≢ []
      → order_addrs a prefer_v6 port ips
        ≡ ok (
            map
              (λ x. (x, port))
              (with_key (sort_key a prefer_v6) false ips
                ++ with_key (sort_key a prefer_v6) true ips))
  unfolding order_addrs
  order_addrs-with_key prefer_v6 port [] some_ip = absurd (some_ip refl)
  order_addrs-with_key prefer_v6 port (ip ∷ ips) some_ip =
      ap (λ xs. ok (map (λ x. (x, port)) xs)) (sort_by-with_key (sort_key a prefer_v6) (ip ∷ ips))

  -- A host that is no literal address, and for which the lookup finds addresses, is dialed at all of
  -- them: first those of the preferred family, then the others, each in the order of the lookup.
  pub resolve_addrs-with_key :
      (lookup : Text → Result (List IpAddr)) (host : Text) (port : ℕ) (prefer_v6 : Bool)
      {ips : List IpAddr}
      → parse_ip host ≡ none
      → lookup host ≡ ok ips
      → ips ≢ []
      → resolve_addrs a lookup host port prefer_v6
        ≡ ok (
            map
              (λ x. (x, port))
              (with_key (sort_key a prefer_v6) false ips
                ++ with_key (sort_key a prefer_v6) true ips))
  unfolding resolve_addrs
  resolve_addrs-with_key lookup host port prefer_v6 {ips} no_literal answered some_ip =
      rw (no_literal, resolve_addrs, answered) (order_addrs-with_key prefer_v6 port ips some_ip)
