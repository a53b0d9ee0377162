-- ===== src/Fetcher/RoundTrip.antt =====
-- Endpoints as they are written, an address and a port, and the servers of src/web/cmfetcher.cpp.
use steam_min_cpp.Prelude.{
  ℕ, ◌^◌, ◌<◌, ◌≡◌, ◌≢◌, true, Option, none, some, List, [], ◌∷◌, ◌++◌, All,
}
use steam_min_cpp.Prelude.Results.{Result}
use steam_min_cpp.Vdf.Text.Stringify.{to_string}
use steam_min_cpp.Fetcher.{is_digit, stoi, Servers, add_port, add_servers}

StartsDigit : List ℕ → Type 0
StartsDigit [] = ⊥
StartsDigit (c ∷ s) = is_digit c ≡ true

abbrev pub NotColon : ℕ → Type 0
NotColon c = c ≢ 58

-- "ip:port".
abbrev pub endpoint_of : List ℕ × ℕ → List ℕ
endpoint_of (ip, port) = ip ++ 58 ∷ to_string port

abbrev pub endpoints_of : Servers → List (List ℕ)
endpoints_of [] = []
endpoints_of (server ∷ servers) = endpoint_of server ∷ endpoints_of servers

abbrev pub IsServer : List ℕ × ℕ → Type 0
IsServer (ip, port) = All NotColon ip × (port < 2 ^ 31)

-- What a split endpoint adds.
abbrev add_split : Option (List ℕ × List ℕ) → List (List ℕ) → Servers → Servers × Result (Unit {0})
add_split parts endpoints servers = elim parts [
  | none ↦ add_servers endpoints servers
  | some (ip, port) ↦ add_port (add_servers endpoints) ip servers (stoi port)
]
