-- ===== src/Asio/Socket/Sending.antt =====
-- `Send` of src/Socket.cpp. What Boost's `write_some` does in each round is an argument.
pub mod Wire
mod Examples
use icon.Prelude.{
  ℕ, ◌+◌, ◌-◌, ◌≤◌, ◌≡◌, not, Bool, true, false, Option, none, some, List, [], ◌∷◌, ◌++◌, length,
  take, drop, ltb, if◌then◌else◌, min,
}
use icon.Message.{Message, create_optimal_buffer}
use icon.Asio.Socket.{Socket, valid, max_single_packet_size}

-- A round of the loop: what `IoContextPollOne` does to the socket, how many bytes `write_some` takes, and
-- whether it reports an error.
pub record Write (T : Type 0) : Type 0 where
  pub poll : Socket T → Socket T
  pub written : ℕ
  pub failed : Bool

-- The bytes that were taken, and what `Send` returns, or `none` where its loop is not at its end, or would write through
-- NULL since `IoContextPollOne` has closed the socket.
pub record Sent (T : Type 0) : Type 0 where
  pub socket : Socket T
  pub wire : List ℕ
  pub answer : Option Bool

-- What a round asks `write_some` to take
abbrev pub to_write : ℕ → ℕ → ℕ
to_write size i = min (size - i) max_single_packet_size

module _ {T : Type 0} where
  -- The loop, from the byte `i` on.
  unfoldable pub send_loop : List (Write T) → List ℕ → ℕ → Socket T → Sent T
  unfolding valid
  send_loop [] buffer i s = record {
    socket = s;
    wire = [];
    answer = if ltb i (length buffer) then none else some true;
  }
  send_loop (w ∷ ws) buffer i s =
      let chunk = take w.written (take (to_write (length buffer) i) (drop i buffer)) in
      let rest = send_loop ws buffer (i + w.written) (w.poll s) in
      if ltb i (length buffer)
      then if not (valid (w.poll s))
        then record { socket = w.poll s; wire = []; answer = none }
        else if w.failed
        then record { socket = w.poll s; wire = chunk; answer = some false }
        else record { socket = rest.socket; wire = chunk ++ rest.wire; answer = rest.answer }
      else record { socket = s; wire = []; answer = some true }

  -- `Send` of bytes
  unfoldable pub send : List (Write T) → Socket T → List ℕ → Sent T
  unfolding send_loop valid
  send ws s buffer =
      if valid s
      then send_loop ws buffer 0 s
      else record { socket = s; wire = []; answer = some false }

  -- `Send` of a message
  unfoldable pub send_message : List (Write T) → Socket T → Message → Sent T
  unfolding send valid
  send_message ws s msg =
      if valid s
      then send ws s (create_optimal_buffer msg [])
      else record { socket = s; wire = []; answer = some false }

  -- No poll on the way closes the socket.
  unfoldable pub StaysValid : List (Write T) → Socket T → Type 0
  StaysValid [] s = Unit
  StaysValid (w ∷ ws) s = (valid (w.poll s) ≡ true) × StaysValid ws (w.poll s)

  -- What Boost documents of `write_some`: it takes no more than it is given.
  unfoldable pub Documented : List (Write T) → (size i : ℕ) → Type 0
  Documented [] size i = Unit
  Documented (w ∷ ws) size i = (w.written ≤ to_write size i) × Documented ws size (i + w.written)
