-- ===== src/Concurrent/Memory.antt =====
-- The nodes of src/Concurrent.hpp at their addresses, and programs that read and write them. A node has
-- the field `__m_next` that the containers use, and a value that is the user's.
pub mod Links
pub mod Calls
use icon.Prelude.{ℕ, Option, none, some, List, [], ◌∷◌, ◌==◌, if◌then◌else◌}

abbrev pub Ptr : Type 0
Ptr = ℕ

abbrev pub null : Ptr
null = 0

pub record Node (V : Type 0) : Type 0 where
  pub value : V
  pub next : Ptr

-- `supply` holds the addresses that `operator new` gives next.
pub record Heap (V : Type 0) : Type 0 where
  pub cell : Ptr → Option (Node V)
  pub supply : List Ptr

unfoldable pub put :
    {V : Type 0} → (Ptr → Option (Node V)) → Ptr → Option (Node V) → Ptr → Option (Node V)
put cell p c a = if a == p then c else cell a

-- How a program ends: with a result; by a read or write through a pointer to no node; with no memory
-- left; or not within the rounds that a loop was given.
pub data Run (V A : Type 0) : Type 0 where
  returns : A → Heap V → Run V A
  fault : Run V A
  no_memory : Run V A
  running : Run V A

abbrev pub Program : Type 0 → Type 0 → Type 0
Program V A = Heap V → Run V A

abbrev pub pure : {V A : Type 0} → A → Program V A
pure = returns

abbrev pub continue : {V A B : Type 0} → Run V A → (A → Program V B) → Run V B
continue (returns a h) f = f a h
continue fault f = fault
continue no_memory f = no_memory
continue running f = running

infixl 5 ◌>>=◌ ◌>>◌
abbrev pub ◌>>=◌ : {V A B : Type 0} → Program V A → (A → Program V B) → Program V B
m >>= f = λ h. continue (m h) f

abbrev pub ◌>>◌ : {V A B : Type 0} → Program V A → Program V B → Program V B
m >> n = m >>= λ _. n

-- `p->__m_next`
unfoldable pub get_next : {V : Type 0} → Ptr → Program V Ptr
get_next p h = elim (h.cell p) [ none ↦ fault | some n ↦ returns n.next h ]

-- `p->__m_next = q`
unfoldable pub set_next : {V : Type 0} → Ptr → Ptr → Program V (Unit {0})
set_next p q h = elim (h.cell p) [
  | none ↦ fault
  | some n ↦ returns tt (record h { cell = put h.cell p (some (record n { next = q })) })
]

-- `new T(args...)`: the constructor of `node` sets `__m_next` to NULL.
unfoldable pub new : {V : Type 0} → V → Program V Ptr
new v h = elim h.supply [
  | [] ↦ no_memory
  | p ∷ ps ↦
      returns p
        (record { cell = put h.cell p (some (record { value = v; next = null })); supply = ps })
]

-- `delete p`
unfoldable pub delete : {V : Type 0} → Ptr → Program V (Unit {0})
delete p h = if p == null then returns tt h else elim (h.cell p) [
  | none ↦ fault
  | some n ↦ returns tt (record h { cell = put h.cell p none })
]

-- The program returns, and what it returns and leaves satisfies `P`.
abbrev pub Ensures : {V A : Type 0} → (A → Heap V → Type 0) → Run V A → Type 0
Ensures P (returns a h) = P a h
Ensures P fault = ⊥
Ensures P no_memory = ⊥
Ensures P running = ⊥
