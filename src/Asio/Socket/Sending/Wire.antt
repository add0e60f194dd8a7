-- ===== src/Asio/Socket/Sending/Wire.antt =====
-- The bytes that `Send` of src/Socket.cpp puts on the wire, against what it returns.
use icon.Prelude.{
  not, none, take-drop, drop-drop, ℕ, ◌+◌, ◌≤◌, ◌≡◌, sym, ap, ◌∙◌, zero, suc, append_assoc, lt→ltb,
  le→ltb, All, Bool-cases, ◌≢◌, ◌⊎◌, inl, inr, refl, Bool, if◌then◌else◌, true, false, some, List,
  [], ◌∷◌, ◌++◌, length, take, drop, arith,
}
use icon.Message.{Message, create_optimal_buffer}
use icon.Asio.Socket.{Socket, valid}
use icon.Asio.Socket.Sending.{
  Write, Sent, send_loop, send, send_message, Documented, to_write, StaysValid,
}
use native.Mathlib.Decide.{dec_lt}

take-take : (n m : ℕ) (xs : List ℕ) → n ≤ m → take n (take m xs) ≡ take n xs
take-take zero m xs h = refl
take-take (suc n) zero xs h = absurd (omega arith)
take-take (suc n) (suc m) [] h = refl
take-take (suc n) (suc m) (x ∷ xs) h = ap (◌∷◌ x) (take-take n m xs (omega arith))

drop_past : (xs : List ℕ) (n : ℕ) → length xs ≤ n → drop n xs ≡ []
drop_past [] zero h = refl
drop_past [] (suc n) h = refl
drop_past (x ∷ xs) zero h = absurd (omega arith)
drop_past (x ∷ xs) (suc n) h = drop_past xs n (omega arith)

split-drop : (n i : ℕ) (xs : List ℕ) → take n (drop i xs) ++ drop (i + n) xs ≡ drop i xs
split-drop n i xs =
    ap (λ ys. take n (drop i xs) ++ ys) (sym (drop-drop n i xs)) ∙ take-drop n (drop i xs)

module _ {T : Type 0} where
  -- Either `true` is returned and all of `bytes` went out, or it is not and a part from the front did.
  abbrev pub Tells : List ℕ → Sent T → Type 0
  Tells bytes r =
      (r.answer ≡ some true) × (r.wire ≡ bytes)
      ⊎ (r.answer ≢ some true) × ((more : List ℕ) × (r.wire ++ more ≡ bytes))

  Tells-more :
      (n i : ℕ) (buffer : List ℕ) (r : Sent T)
      → Tells (drop (i + n) buffer) r
      → Tells (drop i buffer) (record r { wire = take n (drop i buffer) ++ r.wire })
  Tells-more n i buffer r (inl (says, all)) =
      inl (says, ap (λ ys. take n (drop i buffer) ++ ys) all ∙ split-drop n i buffer)
  Tells-more n i buffer r (inr (says, (more, part))) = inr (
    says,
    (
      more,
      append_assoc (take n (drop i buffer)) r.wire more
          ∙ ap (λ ys. take n (drop i buffer) ++ ys) part
          ∙ split-drop n i buffer,
    ),
  )

  -- A round in which `n` bytes are taken
  Tells-round :
      (open' failed : Bool) (n i : ℕ) (buffer : List ℕ) (s : Socket T) (rest : Sent T)
      → Tells (drop (i + n) buffer) rest
      → Tells (drop i buffer) (
          if not open'
          then record { socket = s; wire = []; answer = none }
          else if failed
          then record { socket = s; wire = take n (drop i buffer); answer = some false }
          else record rest { wire = take n (drop i buffer) ++ rest.wire })
  Tells-round false failed n i buffer s rest h = inr (λ e. cc, (drop i buffer, refl))
  Tells-round true true n i buffer s rest h =
      inr (λ e. cc, (drop (i + n) buffer, split-drop n i buffer))
  Tells-round true false n i buffer s rest h = Tells-more n i buffer rest h

  send_loop-Tells :
      (ws : List (Write T)) (buffer : List ℕ) (i : ℕ) (s : Socket T)
      → Documented ws (length buffer) i
      → Tells (drop i buffer) (send_loop ws buffer i s)
  unfolding send_loop Documented
  send_loop-Tells [] buffer i s h = elim (dec_lt i (length buffer)) [
    | yes less ↦ rw (lt→ltb i (length buffer) less) (inr (λ e. cc, (drop i buffer, refl)))
    | no past ↦
        rw (le→ltb i (length buffer) (omega arith), drop_past buffer i (omega arith))
          (inl (refl, refl))
  ]
  send_loop-Tells (w ∷ ws) buffer i s (fits, h) = elim (dec_lt i (length buffer)) [
    | yes less ↦
        rw
          (
            lt→ltb i (length buffer) less,
            take-take w.written (to_write (length buffer) i) (drop i buffer) fits,
          )
          (Tells-round (valid (w.poll s)) w.failed w.written i buffer (w.poll s)
            (send_loop ws buffer (i + w.written) (w.poll s))
            (send_loop-Tells ws buffer (i + w.written) (w.poll s) h))
    | no past ↦
        rw (le→ltb i (length buffer) (omega arith), drop_past buffer i (omega arith))
          (inl (refl, refl))
  ]

  send_message-valid :
      (ws : List (Write T)) (s : Socket T) (msg : Message)
      → valid s ≡ true
      → send_message ws s msg ≡ send_loop ws (create_optimal_buffer msg []) 0 s
  unfolding send_message send valid
  send_message-valid ws s msg h = ground arith

  send_message-invalid :
      (ws : List (Write T)) (s : Socket T) (msg : Message)
      → valid s ≡ false
      → send_message ws s msg ≡ record { socket = s; wire = []; answer = some false }
  unfolding send_message send valid
  send_message-invalid ws s msg h = ground arith

  -- If `write_some` takes no more than it is given: where `Send` of a message returns true, the frame of the
  -- message went out, all of it and nothing else; where it returns false, or its loop is not at its end,
  -- a part from the front of the frame did.
  pub send_message-Tells :
      (ws : List (Write T)) (s : Socket T) (msg : Message)
      → Documented ws (length (create_optimal_buffer msg [])) 0
      → Tells (create_optimal_buffer msg []) (send_message ws s msg)
  send_message-Tells ws s msg h = elim (Bool-cases (valid s)) [
    | inl e ↦
        rw (send_message-valid ws s msg e) (send_loop-Tells ws (create_optimal_buffer msg []) 0 s h)
    | inr e ↦
        rw (send_message-invalid ws s msg e) (inr (λ k. cc, (create_optimal_buffer msg [], refl)))
  ]

  unfoldable pub total : List (Write T) → ℕ
  total [] = 0
  total (w ∷ ws) = w.written + total ws

  send_loop-ends :
      (ws : List (Write T)) (buffer : List ℕ) (i : ℕ) (s : Socket T)
      → StaysValid ws s
      → All (λ w. w.failed ≡ false) ws
      → length buffer ≤ i + total ws
      → (send_loop ws buffer i s).answer ≡ some true
  unfolding send_loop total StaysValid valid
  send_loop-ends [] buffer i s stays ok h = rw (le→ltb i (length buffer) (omega arith)) refl
  send_loop-ends (w ∷ ws) buffer i s (here, stays) (fine, ok) h =
      let rest = send_loop-ends ws buffer (i + w.written) (w.poll s) stays ok (omega arith) in
      elim (dec_lt i (length buffer)) [
        | yes less ↦ rw (lt→ltb i (length buffer) less, here, fine) rest
        | no past ↦ rw (le→ltb i (length buffer) (omega arith)) refl
      ]

  -- If the socket is valid and no poll on the way closes it, no `write_some` fails or takes more than it is given, and
  -- together they take as many bytes as the frame of the message has, `Send` ends with true and the frame went out.
  pub send_message-ends :
      (ws : List (Write T)) (s : Socket T) (msg : Message)
      → valid s ≡ true
      → StaysValid ws s
      → Documented ws (length (create_optimal_buffer msg [])) 0
      → All (λ w. w.failed ≡ false) ws
      → length (create_optimal_buffer msg []) ≤ total ws
      → ((send_message ws s msg).answer ≡ some true)
        × ((send_message ws s msg).wire ≡ create_optimal_buffer msg [])
  send_message-ends ws s msg is stays h ok enough =
      let ends : (send_message ws s msg).answer ≡ some true =
        rw (send_message-valid ws s msg is)
          (send_loop-ends ws (create_optimal_buffer msg []) 0 s stays ok (omega arith)) in
      elim (send_message-Tells ws s msg h) [
        | inl (says, all) ↦ (says, all)
        | inr (no_end, part) ↦ absurd (no_end ends)
      ]
