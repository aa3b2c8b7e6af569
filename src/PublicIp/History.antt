-- ===== src/PublicIp/History.antt =====
-- The address over any number of refreshes, and what the observer of its changes is told.
use Prim.Native.String.{String}
use text.Mathlib.Text.{◌==◌ as str_eq}
use nexusroom.Base.{
  ◌≡◌, ◌≢◌, refl, sym, ap, subst, ◌∙◌, ◌⊎◌, inl, inr, Bool, true, false, not, Option, none, some,
  List, [], ◌∷◌, ◌++◌, if◌then◌else◌, Bool-cases, Option-cases, arith, ==-refl,
}
use nexusroom.PublicIp.{
  Ipv4, Ip, v4, v6, Options, Resolver, resolver, resolver_of, new, is_public, public_of, is_none,
  is_current, set_current, outcome, settled, listed, refresh,
}
use nexusroom.PublicIp.Search.{answers, first_public, refresh_lem}

-- A chain of changes from one address to another, each to a public address that is a different one.
abbrev pub IsChain : Option Ipv4 → List (Option Ipv4 × Option Ipv4) → Option Ipv4 → Type 0
IsChain from [] to = from ≡ to
IsChain from ((before, after) ∷ cs) to =
    (before ≡ from)
    × (before ≢ after)
    × ((x : Ipv4) × (after ≡ some x) × (is_public x ≡ true))
    × IsChain after cs to

chain_snoc :
    (from to : Option Ipv4) (cs : List (Option Ipv4 × Option Ipv4)) (x : Ipv4)
    → IsChain from cs to
    → to ≢ some x
    → is_public x ≡ true
    → IsChain from (cs ++ (to, some x) ∷ []) (some x)
chain_snoc from to [] x h ne ok = (sym h, ne, (x, refl, ok), refl)
chain_snoc from to ((b, a) ∷ cs) x (same, differs, good, rest) ne ok =
    (same, differs, good, chain_snoc a to cs x rest ne ok)

pub record IsSound (r : Resolver) : Type 0 where
  pub chain : IsChain r.manual r.changes r.current
  pub fixed : (x : Ipv4) → r.manual ≡ some x → (r.current ≡ some x) × (r.changes ≡ [])

is_current_refl : (x : Ipv4) → is_current (some x) x ≡ true
is_current_refl x = rw (==-refl x.a, ==-refl x.b, ==-refl x.c, ==-refl x.d) refl

set_current-IsSound :
    (x : Ipv4) (r : Resolver)
    → r.manual ≡ none
    → is_public x ≡ true
    → IsSound r
    → IsSound (set_current x r)
unfolding set_current
set_current-IsSound x r m ok s = elim (Bool-cases (is_current r.current x)) [
  | inl e ↦ rw e s
  | inr e ↦ rw e record {
    chain =
        chain_snoc r.manual r.current r.changes x s.chain
          (λ same. cc (ap (λ (o : Option Ipv4). is_current o x) same, is_current_refl x, e)) ok;
    fixed = λ y h. cc (m, h);
  }
]

public_of-IsPublic : (ip : Ip) (x : Ipv4) → public_of ip ≡ some x → is_public x ≡ true
unfolding public_of
public_of-IsPublic v6 x h = cc
public_of-IsPublic (v4 y) x h = elim (Bool-cases (is_public y)) [
  | inl e ↦ let same : y ≡ x = ground (arith, (rw e at h)) in rw (← same) e
  | inr e ↦ cc (rw e at h)
]

first_public-IsPublic : (ips : List Ip) (x : Ipv4) → first_public ips ≡ some x → is_public x ≡ true
unfolding first_public
first_public-IsPublic [] x h = cc
first_public-IsPublic (ip ∷ ips) x h = elim (Option-cases (public_of ip)) [
  | inl e ↦ first_public-IsPublic ips x (rw e at h)
  | inr (y, e) ↦ public_of-IsPublic ip x (e ∙ (rw e at h))
]

settled-IsSound :
    (o : Option Ipv4) (r : Resolver)
    → r.manual ≡ none
    → ((x : Ipv4) → o ≡ some x → is_public x ≡ true)
    → IsSound r
    → IsSound (outcome r (settled o r)).1
unfolding settled
settled-IsSound none r m ok s = s
settled-IsSound (some x) r m ok s = set_current-IsSound x r m (ok x refl) s

idle :
    (manual enabled : Bool) (r : Resolver) (z : Bool × Resolver)
    → (manual ≡ false) ⊎ (enabled ≡ false)
    → IsSound r
    → IsSound (if not manual then (true, r) else if not enabled then (false, r) else z).1
idle false enabled r z h s = s
idle true false r z h s = s
idle true true r z (inl h) s = cc
idle true true r z (inr h) s = cc

refresh-IsSound :
    (trim_space : String → String) (interfaces : Option (List Ip)) (probe : String → Option Ip)
    (r : Resolver)
    → IsSound r
    → IsSound (refresh trim_space interfaces probe r).1
unfolding refresh
refresh-IsSound trim_space interfaces probe r s = elim (Option-cases r.manual) [
  | inr (x, m) ↦ idle (is_none r.manual) r.enabled r _ (inl (ap is_none m)) s
  | inl m ↦ elim (Bool-cases r.enabled) [
    | inr e ↦ idle (is_none r.manual) r.enabled r _ (inr e) s
    | inl e ↦
        let found = listed interfaces ++ answers trim_space probe r.stun_servers in
        subst (λ (y : Bool × Resolver). IsSound y.1)
          (sym (refresh_lem trim_space probe r interfaces m e))
          (settled-IsSound (first_public found) r m (λ x h. first_public-IsPublic found x h) s)
  ]
]

unfoldable pub refreshes :
    (String → String) → List (Option (List Ip) × (String → Option Ip)) → Resolver → Resolver
unfolding refresh
refreshes trim_space [] r = r
refreshes trim_space ((interfaces, probe) ∷ rounds) r =
    refreshes trim_space rounds (refresh trim_space interfaces probe r).1

refreshes_lem :
    (trim_space : String → String) (rounds : List (Option (List Ip) × (String → Option Ip)))
    (r : Resolver)
    → IsSound r
    → IsSound (refreshes trim_space rounds r)
unfolding refreshes
refreshes_lem trim_space [] r s = s
refreshes_lem trim_space ((interfaces, probe) ∷ rounds) r s =
    refreshes_lem trim_space rounds _ (refresh-IsSound trim_space interfaces probe r s)

start-IsSound : (o : Options) (manual : Option Ipv4) → IsSound (resolver o manual)
start-IsSound o manual = record { chain = refl; fixed = λ x h. (h, refl) }

resolver_of-IsSound :
    (o : Options) (ip : Option Ip) (r : Resolver) → resolver_of o ip ≡ some r → IsSound r
resolver_of-IsSound o none r h = cc
resolver_of-IsSound o (some v6) r h = cc
resolver_of-IsSound o (some (v4 x)) r h =
    let same : resolver o (some x) ≡ r = ground (arith, h) in
    subst IsSound same (start-IsSound o (some x))

-- From a resolver that New made, through any rounds of refreshing: the changes that the observer was
-- told lead from the configured address, or from none, to the current one, each from the address
-- before it to a different and public one; and a configured address stays current, without changes.
pub refreshes-IsSound :
    (trim_space : String → String) (parse : String → Option Ip) (o : Options) (r : Resolver)
    (rounds : List (Option (List Ip) × (String → Option Ip)))
    → new trim_space parse o ≡ some r
    → IsSound (refreshes trim_space rounds r)
unfolding new
refreshes-IsSound trim_space parse o r rounds h =
    refreshes_lem trim_space rounds r (elim (Bool-cases (str_eq (trim_space o.manual_ip) "")) [
      | inl e ↦
          let same : resolver o none ≡ r = ground (arith, (rw e at h)) in
          subst IsSound same (start-IsSound o none)
      | inr e ↦ resolver_of-IsSound o (parse (trim_space o.manual_ip)) r (rw e at h)
    ])
