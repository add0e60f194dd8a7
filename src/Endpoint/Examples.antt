-- ===== src/Endpoint/Examples.antt =====
-- Concrete endpoints.
use icon.Prelude.{arith, ◌≡◌, ◌⊎◌, refl, true, false, not, ◌&&◌, ◌||◌, [], ◌∷◌}
use mathlib.Core.Logic.{◌↔◌}
use icon.Endpoint.{
  Endpoint, equals, less, to_string, decimal, endpoint_of_text, split_colon, atoi, signed_value,
  digits_value,
}
use icon.Endpoint.Text.{endpoint_of_text-to_string}
use icon.Endpoint.Order.{less-StrictTotal}

abbrev web : Endpoint
web = record { ip = b'1' ∷ b'.' ∷ b'2' ∷ []; port = 80 }

abbrev tls : Endpoint
tls = record { ip = b'1' ∷ b'.' ∷ b'2' ∷ []; port = 443 }

abbrev far : Endpoint
far = record { ip = b'2' ∷ []; port = 1 }

to_string-web : to_string web ≡ b'1' ∷ b'.' ∷ b'2' ∷ b':' ∷ b'8' ∷ b'0' ∷ []
unfolding to_string decimal
to_string-web = refl

less-StrictTotal_example :
    (less web web ≡ false)
    × ((less web tls ≡ true) ⊎ (web ≡ tls) ⊎ (less tls web ≡ true))
    × (not (less web tls && less tls far) || less web far ≡ true)
    × ((equals web tls ≡ true) ↔ (web ≡ tls))
less-StrictTotal_example = less-StrictTotal web tls far

endpoint_of_text-to_string_example : endpoint_of_text (to_string tls) ≡ tls
endpoint_of_text-to_string_example = endpoint_of_text-to_string tls (omega arith) (omega arith)

-- The text of an IPv6 address has colons of its own, and is not read back.
six :
    endpoint_of_text (to_string (record { ip = b':' ∷ b':' ∷ b'1' ∷ []; port = 80 }))
    ≡ record { ip = []; port = 0 }
unfolding endpoint_of_text to_string decimal split_colon atoi signed_value digits_value
six = refl
