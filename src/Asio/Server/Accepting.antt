-- ===== src/Asio/Server/Accepting.antt =====
-- The accept loop of `asio::Server`, for any protocol whose servers make a socket while they have an
-- acceptor and accept every socket. An event `e` is one completed `async_accept` and what Boost gives
-- to the handler that runs then.
use icon.Prelude.{
  ◌≡◌, refl, sym, ◌∙◌, ap, true, false, none, some, List, [], ◌∷◌, ◌++◌, append-nil, append_assoc,
  arith,
}
use icon.Message.{Outcome, done, ◌>>=◌}
use icon.Asio.Server.{
  Server, Protocol, is_listening, begin_accept, start_listening, accepted, do_accept,
}

pub record Accepts {A S E : Type 0} (p : E → Protocol A S) (make : E → S) (greet : E → S → S)
    : Type 0 where
  pub when_open : (e : E) (s : Server A S) (a : A) → s.acceptor ≡ some a → (p e).is_valid s ≡ true
  pub makes :
      (e : E) (s : Server A S) (a : A)
      → s.acceptor ≡ some a
      → (p e).create_empty_accepting_socket s ≡ some (make e)
  pub takes : (e : E) (x : S) → (p e).accept x ≡ (greet e x, true)

-- The handlers of a list of completed accepts, one after the other.
unfoldable pub accept_each :
    {A S E : Type 0} → (E → Protocol A S) → Server A S → List E → Outcome (Server A S)
accept_each p s [] = done s
accept_each p s (e ∷ es) = do (s', begun) ← do_accept (p e) s false; accept_each p s' es

module _ {S E : Type 0} (make : E → S) (greet : E → S → S) where
  -- The sockets handed to the user where `x` waits for the first connection, and the one that waits then.
  unfoldable pub greeted : S → List E → List S
  greeted x [] = []
  greeted x (e ∷ es) = greet e x ∷ greeted (make e) es

  unfoldable pub waiting : S → List E → S
  waiting x [] = x
  waiting x (e ∷ es) = waiting (make e) es

unfoldable pub listening : {A S : Type 0} → A → List S → S → Server A S
listening a xs x = record { acceptor = some a; new_sockets = xs; current_accepting_socket = some x }

-- A server with an acceptor between two accepts.
unfoldable pub idle : {A S : Type 0} → A → List S → Server A S
idle a xs = record { acceptor = some a; new_sockets = xs; current_accepting_socket = none }

module _ {A S E : Type 0} (p : E → Protocol A S) (make : E → S) (greet : E → S → S)
    (h : Accepts p make greet) where
  pub start_listening-idle :
      (a : A) (xs : List S) (e : E)
      → start_listening (p e) (idle a xs) ≡ done (listening a xs (make e), true)
  unfolding start_listening is_listening begin_accept listening idle
  start_listening-idle a xs e = grind (arith, h.makes e (idle a xs) a, h.when_open e (idle a xs) a)

  pub accepted-listening :
      (a : A) (xs : List S) (x : S) (e : E)
      → accepted (p e) (some x) (listening a xs x) ≡ idle a (xs ++ (greet e x ∷ []))
  unfolding accepted listening idle
  accepted-listening a xs x e = ground (arith, h.takes e x)

  do_accept_greet :
      (a : A) (xs : List S) (x : S) (e : E)
      → do_accept (p e) (listening a xs x) false
        ≡ start_listening (p e) (accepted (p e) (some x) (listening a xs x))
  unfolding do_accept listening
  do_accept_greet a xs x e = refl

  pub do_accept-listening :
      (a : A) (xs : List S) (x : S) (e : E)
      → do_accept (p e) (listening a xs x) false
        ≡ done (listening a (xs ++ (greet e x ∷ [])) (make e), true)
  do_accept-listening a xs x e =
      do_accept_greet a xs x e
      ∙ ap (start_listening (p e)) (accepted-listening a xs x e)
      ∙ start_listening-idle a (xs ++ (greet e x ∷ [])) e

  pub accept_each-queue :
      (a : A) (xs : List S) (x : S) (es : List E)
      → accept_each p (listening a xs x) es
        ≡ done (listening a (xs ++ greeted make greet x es) (waiting make greet x es))
  unfolding accept_each greeted waiting
  accept_each-queue a xs x [] = ap (λ ys. done (listening a ys x)) (sym (append-nil xs))
  accept_each-queue a xs x (e ∷ es) =
      ap (λ o. o >>= (λ r. accept_each p r.0 es)) (do_accept-listening a xs x e)
      ∙ accept_each-queue a (xs ++ (greet e x ∷ [])) (make e) es
      ∙ ap (λ ys. done (listening a ys (waiting make greet (make e) es)))
          (append_assoc xs (greet e x ∷ []) (greeted make greet (make e) es))
