-- ===== src/PublicIp/Tests.antt =====
-- A server behind a carrier's address, with two STUN servers, one of which does not answer.
use Prim.Native.String.{String}
use text.Mathlib.Text.{◌==◌ as str_eq}
use nexusroom.Base.{◌≡◌, refl, true, Option, none, some, List, [], ◌∷◌, ◌++◌, if◌then◌else◌}
use nexusroom.PublicIp.{
  Ipv4, Ip, v4, v6, Options, Resolver, new, listed, outcome, settled, refresh, resolver,
}
use nexusroom.PublicIp.Search.{answers, first_public, refresh_lem}
use nexusroom.PublicIp.History.{refreshes, IsSound, refreshes-IsSound}

abbrev carrier : Ipv4
carrier = record { a = 100; b = 64; c = 1; d = 1 }

abbrev outside : Ipv4
outside = record { a = 81; b = 2; c = 3; d = 4 }

abbrev options : Options
options = record { manual_ip = ""; enabled = true; stun_servers = "one" ∷ "two" ∷ [] }

abbrev resolver_none : Resolver
resolver_none = resolver options none

abbrev trim : String → String
trim s = s

abbrev parse : String → Option Ip
parse s = none

abbrev probe : String → Option Ip
probe s = if str_eq s "two" then some (v4 outside) else none

abbrev interfaces : Option (List Ip)
interfaces = some (v6 ∷ v4 carrier ∷ [])

refresh_lem_example :
    refresh trim interfaces probe resolver_none
    ≡ outcome resolver_none (
        settled
          (first_public (listed interfaces ++ answers trim probe ("one" ∷ "two" ∷ [])))
          resolver_none)
refresh_lem_example = refresh_lem trim probe resolver_none interfaces refl refl

made : new trim parse options ≡ some resolver_none
unfolding new
made = refl

refreshes-IsSound_example :
    IsSound (refreshes trim ((interfaces, probe) ∷ (none, probe) ∷ []) resolver_none)
refreshes-IsSound_example =
    refreshes-IsSound trim parse options resolver_none ((interfaces, probe) ∷ (none, probe) ∷ [])
      made
