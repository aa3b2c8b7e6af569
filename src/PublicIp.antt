-- ===== src/PublicIp.antt =====
-- server/internal/network/publicip/resolver.go: the choice of the server's public address. The
-- calls of the network (interfaces, STUN servers) and the parsing of an address are parameters. An
-- address is kept as itself instead of its text, and `none` stands for the empty text.
pub mod Search
pub mod History
pub mod Tests
use Prim.Native.String.{String}
use text.Mathlib.Text.{◌==◌ as str_eq}
use nexusroom.Base.{
  ℕ, Bool, true, false, not, ◌&&◌, ◌||◌, Option, none, some, List, [], ◌∷◌, ◌++◌, ◌==◌,
  if◌then◌else◌, leb,
}

pub record Ipv4 : Type 0 where
  pub a : ℕ
  pub b : ℕ
  pub c : ℕ
  pub d : ℕ

abbrev pub same_ip : Ipv4 → Ipv4 → Bool
same_ip x y = x.a == y.a && (x.b == y.b && (x.c == y.c && x.d == y.d))

-- A `net.IP`: what To4 makes of it.
pub data Ip : Type 0 where
  v4 : Ipv4 → Ip
  v6 : Ip

abbrev pub is_loopback : Ipv4 → Bool
is_loopback x = x.a == 127

abbrev pub is_link_local_unicast : Ipv4 → Bool
is_link_local_unicast x = x.a == 169 && x.b == 254

abbrev pub is_multicast : Ipv4 → Bool
is_multicast x = leb 224 x.a && leb x.a 239

abbrev pub is_private : Ipv4 → Bool
is_private x = x.a == 10 || (x.a == 172 && (leb 16 x.b && leb x.b 31) || x.a == 192 && x.b == 168)

abbrev pub all_are : ℕ → Ipv4 → Bool
all_are n x = same_ip x (record { a = n; b = n; c = n; d = n })

-- Go's `IsGlobalUnicast`.
abbrev pub is_global_unicast : Ipv4 → Bool
is_global_unicast x =
    not (all_are 255 x)
    && (not (all_are 0 x)
        && (not (is_loopback x) && (not (is_multicast x) && not (is_link_local_unicast x))))

-- `isPublicIPv4`
unfoldable pub is_public : Ipv4 → Bool
is_public x =
    if not (is_global_unicast x) || (is_private x || (is_loopback x || is_link_local_unicast x))
    then false
    else not (x.a == 100 && (leb 64 x.b && leb x.b 127))

-- The address that `isPublicIPv4` accepts.
unfoldable pub public_of : Ip → Option Ipv4
unfolding is_public
public_of v6 = none
public_of (v4 x) = if is_public x then some x else none

-- `changes` is what `onChange` has been told.
pub record Resolver : Type 0 where
  pub manual : Option Ipv4
  pub enabled : Bool
  pub stun_servers : List String
  pub current : Option Ipv4
  pub changes : List (Option Ipv4 × Option Ipv4)

pub record Options : Type 0 where
  pub manual_ip : String
  pub enabled : Bool
  pub stun_servers : List String

abbrev pub resolver : Options → Option Ipv4 → Resolver
resolver o manual = record {
  manual = manual;
  enabled = o.enabled;
  stun_servers = o.stun_servers;
  current = manual;
  changes = [];
}

abbrev pub resolver_of : Options → Option Ip → Option Resolver
resolver_of o (some (v4 x)) = some (resolver o (some x))
resolver_of o (some v6) = none
resolver_of o none = none

-- `New`; `none` is the error.
unfoldable pub new :
    (trim_space : String → String) → (parse : String → Option Ip) → Options → Option Resolver
new trim_space parse o =
    let manual = trim_space o.manual_ip in
    if str_eq manual "" then some (resolver o none) else resolver_of o (parse manual)

abbrev pub is_none : Option Ipv4 → Bool
is_none none = true
is_none (some x) = false

unfoldable pub automatic : Resolver → Bool
automatic r = is_none r.manual && r.enabled

abbrev pub is_current : Option Ipv4 → Ipv4 → Bool
is_current none x = false
is_current (some y) x = same_ip y x

unfoldable pub set_current : Ipv4 → Resolver → Resolver
set_current x r =
    if is_current r.current x
    then r
    else record r { current = some x; changes = r.changes ++ (r.current, some x) ∷ [] }

-- `interfaceIPv4s` of the addresses that the system lists.
unfoldable pub interface_ipv4s : List Ip → List Ip
interface_ipv4s [] = []
interface_ipv4s (v6 ∷ ips) = interface_ipv4s ips
interface_ipv4s (v4 x ∷ ips) = v4 x ∷ interface_ipv4s ips

abbrev pub or_else {ℓ} : {A : Type ℓ} → Option A → Option A → Option A
or_else (some a) o = some a
or_else none o = o

-- A public address that was found is set.
unfoldable pub settled : Option Ipv4 → Resolver → Option Resolver
unfolding set_current
settled none r = none
settled (some x) r = some (set_current x r)

unfoldable pub try_interfaces : List Ip → Resolver → Option Resolver
unfolding public_of settled
try_interfaces [] r = none
try_interfaces (ip ∷ ips) r = or_else (settled (public_of ip) r) (try_interfaces ips r)

unfoldable pub probed : Option Ip → Option Ipv4
unfolding public_of
probed none = none
probed (some ip) = public_of ip

unfoldable pub try_servers :
    (trim_space : String → String) (probe : String → Option Ip)
    → List String
    → Resolver
    → Option Resolver
unfolding probed settled
try_servers trim_space probe [] r = none
try_servers trim_space probe (name ∷ names) r =
    let server = trim_space name in
    let rest = try_servers trim_space probe names r in
    if str_eq server "" then rest else or_else (settled (probed (probe server)) r) rest

abbrev pub outcome : Resolver → Option Resolver → Bool × Resolver
outcome r none = (false, r)
outcome r (some r') = (true, r')

-- The interfaces' addresses where `interfaceIPs` succeeds, and nothing to try where it fails.
abbrev pub listed : Option (List Ip) → List Ip
listed none = []
listed (some ips) = ips

-- `Refresh`; the flag tells whether there was no error.
unfoldable pub refresh :
    (trim_space : String → String)
    → Option (List Ip)
    → (probe : String → Option Ip) → Resolver
    → Bool × Resolver
unfolding try_interfaces try_servers
refresh trim_space interfaces probe r =
    if not (is_none r.manual)
    then (true, r)
    else if not r.enabled
    then (false, r)
    else outcome r (
        or_else (try_interfaces (listed interfaces) r)
          (try_servers trim_space probe r.stun_servers r))
