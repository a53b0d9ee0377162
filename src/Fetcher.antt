-- ===== src/Fetcher.antt =====
-- src/web/cmfetcher.cpp: the list of servers. What libcurl and the JSON parser make of the answer is a
-- parameter, the strings under "endpoint" in "serverlist", or none where a request or the parse fails.
pub mod RoundTrip
use steam_min_cpp.Prelude.{
  ℕ, ◌+◌, ◌-◌, ◌*◌, ◌%◌, ◌^◌, Bool, true, false, ◌&&◌, Option, none, some, List, [], ◌∷◌, ◌++◌, ltb,
  leb, ◌==◌, if◌then◌else◌,
}
use steam_min_cpp.Prelude.Results.{Result, ok, throws, undefined}
use steam_min_cpp.Vdf.Text.{is_space, skip_spaces}

unfoldable pub is_digit : ℕ → Bool
is_digit c = leb 48 c && leb c 57

-- The number that the leading digits continue.
unfoldable pub scan : List ℕ → ℕ → ℕ
unfolding is_digit
scan [] n = n
scan (c ∷ s) n = let more = scan s (n * 10 + (c - 48)) in if is_digit c then more else n

-- The range of an `int`, a bit pattern.
unfoldable pub in_range : Bool → ℕ → Result ℕ
in_range false n = if ltb n (2 ^ 31) then ok n else throws "stoi"
in_range true n = if leb n (2 ^ 31) then ok ((2 ^ 32 - n) % 2 ^ 32) else throws "stoi"

unfoldable pub number : Bool → List ℕ → Result ℕ
unfolding is_digit scan in_range
number negative [] = throws "stoi"
number negative (c ∷ s) = if is_digit c then in_range negative (scan (c ∷ s) 0) else throws "stoi"

unfoldable pub signed : List ℕ → Result ℕ
unfolding number
signed [] = throws "stoi"
signed (c ∷ s) =
    if c == 45 then number true s else (if c == 43 then number false s else number false (c ∷ s))

-- `std::stoi`: white space, a sign and digits, which anything may follow.
unfoldable pub stoi : List ℕ → Result ℕ
unfolding signed
stoi s = signed (skip_spaces s)

-- `find(':')`, with `substr(0, pos)` and `substr(pos + 1)`.
unfoldable pub split_at_colon : List ℕ → Option (List ℕ × List ℕ)
split_at_colon [] = none
split_at_colon (c ∷ s) = elim (c == 58) [
  | true ↦ some ([], s)
  | false ↦ elim (split_at_colon s) [ none ↦ none | some (ip, port) ↦ some (c ∷ ip, port) ]
]

abbrev pub Servers : Type 0
Servers = List (List ℕ × ℕ)

-- What follows the conversion of a port: `emplace_back` and the rest of the loop, or the exception,
-- which leaves the servers that were added.
unfoldable pub add_port :
    (Servers → Servers × Result (Unit {0}))
    → List ℕ
    → Servers
    → Result ℕ
    → Servers × Result (Unit {0})
add_port next ip servers (ok port) = next (servers ++ (ip, port) ∷ [])
add_port next ip servers (throws e) = (servers, throws e)
add_port next ip servers undefined = (servers, undefined)

-- The loop over the endpoints; one without a colon is left out.
unfoldable pub add_servers : List (List ℕ) → Servers → Servers × Result (Unit {0})
unfolding split_at_colon stoi add_port
add_servers [] servers = (servers, ok tt)
add_servers (endpoint ∷ endpoints) servers = elim (split_at_colon endpoint) [
  | none ↦ add_servers endpoints servers
  | some (ip, port) ↦ add_port (add_servers endpoints) ip servers (stoi port)
]

unfoldable pub is_empty : Servers → Bool
is_empty [] = true
is_empty (server ∷ servers) = false

-- `return !servers_.empty()`.
unfoldable pub fetched : Servers × Result (Unit {0}) → Servers × Result Bool
unfolding is_empty
fetched (servers, ok t) = (servers, ok (if is_empty servers then false else true))
fetched (servers, throws e) = (servers, throws e)
fetched (servers, undefined) = (servers, undefined)

-- `fetch_cm_servers` on the servers that were there.
unfoldable pub fetch_cm_servers : Option (List (List ℕ)) → Servers → Servers × Result Bool
unfolding add_servers fetched
fetch_cm_servers none servers = (servers, ok false)
fetch_cm_servers (some endpoints) servers = fetched (add_servers endpoints [])
