-- ===== src/Endpoint.antt =====
-- `Endpoint` of src/ASIO.hpp and src/ASIO.cpp: an address as text, and a port.
pub mod Order
pub mod Text
mod Examples
use icon.Prelude.{
  ℕ, zero, suc, ◌+◌, ◌-◌, ◌*◌, ◌/◌, ◌%◌, ◌^◌, ◌≡◌, Bool, true, false, ◌&&◌, ◌||◌, Option, none,
  some, List, [], ◌∷◌, ◌++◌, ltb, leb, ◌==◌, if◌then◌else◌,
}

pub record Endpoint : Type 0 where
  pub ip : List ℕ
  pub port : ℕ

-- Endpoint()
unfoldable pub no_endpoint : Endpoint
no_endpoint = record { ip = []; port = 0 }

-- Endpoint(const char* ip, uint16_t port)
unfoldable pub endpoint_of_parts : List ℕ → ℕ → Endpoint
endpoint_of_parts ip port = record { ip = ip; port = port }

-- `operator bool`, `ip != ""`
unfoldable pub is_set : Endpoint → Bool
is_set e = elim e.ip [ [] ↦ false | _ ∷ _ ↦ true ]

-- `==` and `<` of `std::string`
unfoldable pub text_eq : List ℕ → List ℕ → Bool
text_eq [] [] = true
text_eq [] (b ∷ bs) = false
text_eq (a ∷ as') [] = false
text_eq (a ∷ as') (b ∷ bs) = a == b && text_eq as' bs

unfoldable pub text_lt : List ℕ → List ℕ → Bool
text_lt as' [] = false
text_lt [] (b ∷ bs) = true
text_lt (a ∷ as') (b ∷ bs) = ltb a b || (a == b && text_lt as' bs)

-- `operator ==` and `operator <`
unfoldable pub equals : Endpoint → Endpoint → Bool
unfolding text_eq
equals a b = text_eq a.ip b.ip && a.port == b.port

unfoldable pub less : Endpoint → Endpoint → Bool
unfolding text_eq text_lt
less a b = text_lt a.ip b.ip || (text_eq a.ip b.ip && ltb a.port b.port)

-- `std::to_string` of a number of at most five digits: `fuel` counts those beyond the first.
unfoldable pub decimal : ℕ → ℕ → List ℕ
decimal zero n = (n + b'0') ∷ []
decimal (suc fuel) n =
    let front = decimal fuel (n / 10) in
    if ltb n 10 then (n + b'0') ∷ [] else front ++ ((n % 10 + b'0') ∷ [])

-- `ToString`
unfoldable pub to_string : Endpoint → List ℕ
unfolding decimal
to_string e = e.ip ++ (b':' ∷ decimal 4 e.port)

abbrev pub is_digit : ℕ → Bool
is_digit c = leb b'0' c && leb c b'9'

-- ' ', and \t to \r
abbrev pub is_space : ℕ → Bool
is_space c = c == 32 || (leb 9 c && leb c 13)

-- `atoi`, its result a sign and a magnitude that is not bounded (a number that does not fit `int` has
-- no meaning in C).
unfoldable pub digits_value : ℕ → List ℕ → ℕ
digits_value acc [] = acc
digits_value acc (c ∷ cs) =
    let rest = digits_value (acc * 10 + (c - b'0')) cs in if is_digit c then rest else acc

unfoldable pub signed_value : List ℕ → Bool × ℕ
unfolding digits_value
signed_value [] = (false, 0)
signed_value (c ∷ cs) =
    if c == b'-'
    then (true, digits_value 0 cs)
    else if c == b'+'
    then (false, digits_value 0 cs)
    else (false, digits_value 0 (c ∷ cs))

unfoldable pub atoi : List ℕ → Bool × ℕ
unfolding signed_value
atoi [] = (false, 0)
atoi (c ∷ cs) = let rest = atoi cs in if is_space c then rest else signed_value (c ∷ cs)

-- The text before the first ':', and what follows that, if there is one before the first zero byte.
unfoldable pub split_colon : List ℕ → List ℕ × Option (List ℕ)
split_colon [] = ([], none)
split_colon (c ∷ cs) =
    let (front, rest) = split_colon cs in
    if c == b':' then ([], some cs) else if c == 0 then ([], none) else (c ∷ front, rest)

-- Endpoint(const char* ipport), a text that ends at its first zero byte or at the end of the list
unfoldable pub endpoint_of_text : List ℕ → Endpoint
unfolding split_colon atoi
endpoint_of_text ipport =
    let (front, rest) = split_colon ipport in
    elim rest [
      | none ↦ record { ip = []; port = 0 }
      | some tail ↦
          let (negative, p) = atoi tail in
          if leb (2 ^ 16) p || (negative && ltb 0 p)
          then record { ip = []; port = 0 }
          else record { ip = front; port = p }
    ]

-- Boost's addresses, with the laws of their text: what is printed is read back, and is not empty.
pub record AddressApi : Type 1 where
  pub Address : Type 0
  pub any_v4 : Address
  pub address_to_string : Address → List ℕ
  pub from_string : List ℕ → Option Address
  pub from_string-to_string : (a : Address) → from_string (address_to_string a) ≡ some a
  pub printed : (a : Address) → is_set (record { ip = address_to_string a; port = 0 }) ≡ true

module _ (api : AddressApi) where
  open api use {Address, any_v4, address_to_string, from_string}

  -- `Endpoint(tcp::endpoint)` and `Endpoint(udp::endpoint)`
  unfoldable pub of_boost : Address × ℕ → Endpoint
  of_boost (a, port) = record { ip = address_to_string a; port = port }

  -- `UdpEndpoint` and `TcpEndpoint`; `none` is the exception of `from_string`.
  unfoldable pub to_boost : Endpoint → Option (Address × ℕ)
  unfolding is_set
  to_boost e =
      if is_set e
      then elim (from_string e.ip) [ none ↦ none | some a ↦ some (a, e.port) ]
      else some (any_v4, e.port)
