-- ===== src/Mcp/Auth.antt =====
-- internal/mcpserver/auth.go: who may call the server. A request holds what the standard library reads
-- from it: whether the remote address splits and is a loopback address, the Host header, the Origin
-- header and the Authorization header. A time is a number of nanoseconds.
pub mod Limiter
pub mod Decimal
pub mod Gate
use lab_remote_go.Common.{
  ℕ, zero, suc, ◌+◌, ◌-◌, ◌*◌, ◌/◌, ◌%◌, ◌^◌, Bool, true, false, not, ◌&&◌, ◌||◌, List, [], ◌∷◌,
  ◌++◌, Option, none, some, map, if◌then◌else◌, ltb, leb, ◌==◌, length, take, drop,
}
use lab_remote_go.Common.Texts.{Text, text_eq, is_empty}

pub record RateLimiter : Type 0 where
  pub window : ℕ
  pub count : ℕ
  pub limit : ℕ

abbrev pub new_rate_limiter : ℕ → ℕ → RateLimiter
new_rate_limiter now limit = record { window = now; count = 0; limit = limit }

abbrev pub minute : ℕ
minute = 60000000000

abbrev pub admit : RateLimiter → RateLimiter × Bool
admit l = if leb l.limit l.count then (l, false) else (record l { count = l.count + 1 }, true)

-- `now.Sub(l.window)` is negative when the clock went back, and then below a minute.
unfoldable pub allow : ℕ → RateLimiter → RateLimiter × Bool
allow now l =
    if leb minute (now - l.window) then admit (record l { window = now; count = 0 }) else admit l

-- `itoa`, on fuel for the digits: the buffer is filled from its end
unfoldable pub itoa_digits : ℕ → ℕ → Text → Text
itoa_digits zero value buffer = buffer
itoa_digits (suc fuel) value buffer =
    let rest = itoa_digits fuel (value / 10) ((48 + value % 10) ∷ buffer) in
    if value == 0 then buffer else rest

unfoldable pub itoa : ℕ → Text
itoa value = if value == 0 then 48 ∷ [] else itoa_digits 20 value []

pub data Origin : Type 0 where
  no_origin malformed : Origin
  from_host : Text → Origin

pub record Request : Type 0 where
  pub remote_loopback : Bool
  pub host : Text
  pub origin : Origin
  pub authorization : Text

-- What the client gets; `panics` is a nil dereference in the handler.
pub data Response : Type 0 where
  forbidden forbidden_host forbidden_origin unauthorized rate_limited served panics : Response

-- "127.0.0.1" and "localhost"
abbrev pub loopback_name : Text
loopback_name = 49 ∷ 50 ∷ 55 ∷ 46 ∷ 48 ∷ 46 ∷ 48 ∷ 46 ∷ 49 ∷ []

abbrev pub local_name : Text
local_name = 108 ∷ 111 ∷ 99 ∷ 97 ∷ 108 ∷ 104 ∷ 111 ∷ 115 ∷ 116 ∷ []

-- `net.JoinHostPort` of a name without a colon
abbrev pub join_host_port : Text → Text → Text
join_host_port host port = host ++ (58 ∷ port)

abbrev pub allowed_host : ℕ → Text → Bool
allowed_host port host =
    text_eq host (join_host_port loopback_name (itoa port))
    || text_eq host (join_host_port local_name (itoa port))

-- "Bearer "
abbrev pub bearer : Text
bearer = 66 ∷ 101 ∷ 97 ∷ 114 ∷ 101 ∷ 114 ∷ 32 ∷ []

abbrev pub authorized : Text → Text → Bool
authorized token header = text_eq (take 7 header) bearer && text_eq (drop 7 header) token

abbrev pub limited : RateLimiter × Bool → RateLimiter × Response
limited (l, admitted) = (l, if admitted then served else rate_limited)

abbrev pub check_token : ℕ → Text → Request → RateLimiter → RateLimiter × Response
check_token now token r l =
    if not (authorized token r.authorization) then (l, unauthorized) else limited (allow now l)

module _ (to_lower : Text → Text) where
  abbrev pub local_origin : Text → Bool
  local_origin host = text_eq (to_lower host) loopback_name || text_eq (to_lower host) local_name

  -- `parsed.Hostname()` is called before the error is looked at, and `parsed` is nil then.
  abbrev pub check_origin : ℕ → Text → Request → Origin → RateLimiter → RateLimiter × Response
  check_origin now token r no_origin l = check_token now token r l
  check_origin now token r malformed l = (l, panics)
  check_origin now token r (from_host host) l =
      if not (local_origin host) then (l, forbidden_origin) else check_token now token r l

  unfoldable pub security_middleware : ℕ → Text → ℕ → Request → RateLimiter → RateLimiter × Response
  security_middleware now token port r l =
      if not r.remote_loopback
      then (l, forbidden)
      else if not (allowed_host port r.host)
      then (l, forbidden_host)
      else check_origin now token r r.origin l
