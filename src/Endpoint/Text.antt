-- ===== src/Endpoint/Text.antt =====
-- `ToString` of `Endpoint` in src/ASIO.cpp against the constructor that reads such a text.
use icon.Prelude.{
  ℕ, zero, suc, ◌+◌, ◌-◌, ◌*◌, ◌/◌, ◌%◌, ◌^◌, ◌<◌, ◌≡◌, ◌≢◌, refl, ap, ◌∙◌, true, false, some, List,
  [], ◌∷◌, ◌++◌, All, All-append, ltb, ◌==◌, Bool-cases, lt→leb, inl, inr, arith,
}
use icon.Endpoint.{
  Endpoint, decimal, to_string, is_digit, is_space, digits_value, signed_value, atoi, split_colon,
  endpoint_of_text,
}

abbrev IsDigit : ℕ → Type 0
IsDigit c = is_digit c ≡ true

decimal-IsDigit : (k n : ℕ) → n < 10 ^ suc k → All IsDigit (decimal k n)
unfolding decimal
decimal-IsDigit zero n h = (ground arith, tt)
decimal-IsDigit (suc k) n h = elim (Bool-cases (ltb n 10)) [
  | inl t ↦ rw t (ground arith, tt)
  | inr f ↦ rw f (
      All-append IsDigit (decimal k (n / 10)) ((n % 10 + b'0') ∷ [])
        (decimal-IsDigit k (n / 10) (omega arith)) (ground arith, tt))
]

digits_value-snoc :
    (acc : ℕ) (xs : List ℕ) (d : ℕ)
    → All IsDigit xs
    → IsDigit d
    → digits_value acc (xs ++ (d ∷ [])) ≡ digits_value acc xs * 10 + (d - b'0')
unfolding digits_value
digits_value-snoc acc [] d hs h = rw h refl
digits_value-snoc acc (x ∷ xs) d (h, hs) hd =
    rw h (digits_value-snoc (acc * 10 + (x - b'0')) xs d hs hd)

digits_value-decimal : (k n : ℕ) → n < 10 ^ suc k → digits_value 0 (decimal k n) ≡ n
unfolding decimal digits_value
digits_value-decimal zero n h = ground arith
digits_value-decimal (suc k) n h = elim (Bool-cases (ltb n 10)) [
  | inl t ↦ rw t (ground arith)
  | inr f ↦ rw f (
      digits_value-snoc 0 (decimal k (n / 10)) (n % 10 + b'0')
        (decimal-IsDigit k (n / 10) (omega arith)) (ground arith)
      ∙ omega (arith, digits_value-decimal k (n / 10) (omega arith)))
]

digit_only :
    (c : ℕ) → IsDigit c → (is_space c ≡ false) × ((c == b'-') ≡ false) × ((c == b'+') ≡ false)
digit_only c h = (ground (arith, h), ground (arith, h), ground (arith, h))

-- `atoi` of digits alone
atoi-IsDigit : (xs : List ℕ) → All IsDigit xs → atoi xs ≡ (false, digits_value 0 xs)
unfolding atoi signed_value
atoi-IsDigit [] h = refl
atoi-IsDigit (x ∷ xs) (h, hs) =
    let digits = digits_value 0 (x ∷ xs) in
    let (space, minus, plus) = digit_only x h in rw (space, minus, plus) refl

split_colon-append :
    (ip tail : List ℕ)
    → All (λ c. (c ≢ b':') × (c ≢ 0)) ip
    → split_colon (ip ++ (b':' ∷ tail)) ≡ (ip, some tail)
unfolding split_colon
split_colon-append [] tail h = refl
split_colon-append (c ∷ cs) tail ((h, z), hs) = rw (split_colon-append cs tail hs) (ground arith)

endpoint_of_text-append :
    (ip tail : List ℕ) (port : ℕ)
    → All (λ c. (c ≢ b':') × (c ≢ 0)) ip
    → atoi tail ≡ (false, port)
    → port < 2 ^ 16
    → endpoint_of_text (ip ++ (b':' ∷ tail)) ≡ record { ip = ip; port = port }
unfolding endpoint_of_text
endpoint_of_text-append ip tail port no_colon e small =
    let parts = split_colon-append ip tail no_colon in
    let front = ap (λ r. r.0) parts in
    rw (endpoint_of_text, parts, e, lt→leb (2 ^ 16) port small)
      (ap (λ f. record { ip = f; port = port }) front)

-- What `ToString` writes of an endpoint whose address has no ':' and no zero byte, and whose port has 16 bits, is read back by the
-- constructor that takes a text.
pub endpoint_of_text-to_string :
    (e : Endpoint)
    → All (λ c. (c ≢ b':') × (c ≢ 0)) e.ip
    → e.port < 2 ^ 16
    → endpoint_of_text (to_string e) ≡ e
unfolding to_string
endpoint_of_text-to_string e no_colon small =
    let port : atoi (decimal 4 e.port) ≡ (false, e.port) =
      atoi-IsDigit (decimal 4 e.port) (decimal-IsDigit 4 e.port (omega arith))
      ∙ ap (λ (n : ℕ). (false, n)) (digits_value-decimal 4 e.port (omega arith)) in
    endpoint_of_text-append e.ip (decimal 4 e.port) e.port no_colon port small
