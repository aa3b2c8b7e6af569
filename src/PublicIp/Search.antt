-- ===== src/PublicIp/Search.antt =====
-- The two searches of a refresh as one search for the first public address.
use Prim.Native.String.{String}
use text.Mathlib.Text.{◌==◌ as str_eq}
use nexusroom.Base.{
  ◌≡◌, refl, sym, ap, ◌∙◌, inl, inr, Bool, true, false, not, Option, none, some, List, [], ◌∷◌,
  ◌++◌, if◌then◌else◌, Bool-cases,
}
use nexusroom.PublicIp.{
  Ipv4, Ip, Resolver, public_of, is_none, try_interfaces, probed, try_servers, outcome, or_else,
  settled, listed, refresh,
}

abbrev pub with_answer : Option Ip → List Ip → List Ip
with_answer none ips = ips
with_answer (some ip) ips = ip ∷ ips

-- The addresses that the servers with a name answer with.
abbrev pub answers : (String → String) → (String → Option Ip) → List String → List Ip
answers trim_space probe [] = []
answers trim_space probe (name ∷ names) =
    let server = trim_space name in
    let rest = answers trim_space probe names in
    if str_eq server "" then rest else with_answer (probe server) rest

unfoldable pub first_public : List Ip → Option Ipv4
unfolding public_of
first_public [] = none
first_public (ip ∷ ips) = or_else (public_of ip) (first_public ips)

or_else_assoc : {A : Type 0} (a b c : Option A) → or_else (or_else a b) c ≡ or_else a (or_else b c)
or_else_assoc none b c = refl
or_else_assoc (some x) b c = refl

settled-or_else :
    (a b : Option Ipv4) (r : Resolver)
    → settled (or_else a b) r ≡ or_else (settled a r) (settled b r)
unfolding settled
settled-or_else none b r = refl
settled-or_else (some x) b r = refl

module _ (trim_space : String → String) (probe : String → Option Ip) (r : Resolver) where
  answer_lem :
      (o : Option Ip) (ips : List Ip)
      → or_else (settled (probed o) r) (settled (first_public ips) r)
        ≡ settled (first_public (with_answer o ips)) r
  unfolding probed first_public settled
  answer_lem none ips = refl
  answer_lem (some ip) ips = sym (settled-or_else (public_of ip) (first_public ips) r)

  servers_lem :
      (names : List String)
      → try_servers trim_space probe names r
        ≡ settled (first_public (answers trim_space probe names)) r
  unfolding try_servers first_public settled
  servers_lem [] = refl
  servers_lem (name ∷ names) = elim (Bool-cases (str_eq (trim_space name) "")) [
    | inl e ↦ rw e (servers_lem names)
    | inr e ↦
        rw (e, servers_lem names)
          (answer_lem (probe (trim_space name)) (answers trim_space probe names))
  ]

  interfaces_lem :
      (ips : List Ip) (names : List String)
      → or_else (try_interfaces ips r) (try_servers trim_space probe names r)
        ≡ settled (first_public (ips ++ answers trim_space probe names)) r
  unfolding try_interfaces first_public
  interfaces_lem [] names = servers_lem names
  interfaces_lem (ip ∷ ips) names =
      or_else_assoc (settled (public_of ip) r) (try_interfaces ips r) _
      ∙ ap (or_else (settled (public_of ip) r)) (interfaces_lem ips names)
      ∙ sym
          (settled-or_else (public_of ip) (first_public (ips ++ answers trim_space probe names)) r)

  guards :
      (manual enabled : Bool) (z : Bool × Resolver)
      → manual ≡ true
      → enabled ≡ true
      → (if not manual then (true, r) else if not enabled then (false, r) else z) ≡ z
  guards manual enabled z m e = rw (m, e) refl

  -- A refresh without a configured address and with the search enabled settles on the first public
  -- address among those of the interfaces, followed by those that the named servers answer with; it
  -- fails, and changes nothing, just where there is none.
  pub refresh_lem :
      (interfaces : Option (List Ip))
      → r.manual ≡ none
      → r.enabled ≡ true
      → refresh trim_space interfaces probe r
        ≡ outcome r (
            settled (first_public (listed interfaces ++ answers trim_space probe r.stun_servers)) r)
  unfolding refresh
  refresh_lem interfaces m e =
      guards (is_none r.manual) r.enabled _ (ap is_none m) e
      ∙ ap (outcome r) (interfaces_lem (listed interfaces) r.stun_servers)
