-- ===== src/Websocket/Reading.antt =====
-- The frame loop of `ReadMessage` of backend/internal/wsserver/websocket.go: what its reads take of the
-- input, and that it ends.
use nyc_taxi_real_time_eta_p.Common.{
  ℕ, zero, suc, ◌+◌, ◌^◌, ◌≤◌, ◌<◌, ◌≡◌, ◌≢◌, refl, ap, ◌∙◌, inl, inr, true, false, Bool, List, [],
  ◌∷◌, Option, none, some, arith, ltb, ◌==◌, length, length-drop, Bool-cases, Option-cases,
}
use nyc_taxi_real_time_eta_p.Common.Bytes.{Bytes}
use nyc_taxi_real_time_eta_p.Websocket.Frame.{
  Conn, Outcome, ok, err, panics, stuck, ◌>>=◌, read_full, read_length, read_mask, read_payload,
  read_frame, frame_header, write_with, write_frame, handle_frame, big_endian, read_loop,
  read_message, op_pong,
}

-- A read from `n` bytes that succeeds takes `k` at least, and none is stuck.
abbrev Takes {ℓ} : {A : Type ℓ} → ℕ → ℕ → (A → Bytes) → Outcome A → Type 0
Takes k n rest (ok a) = length (rest a) + k ≤ n
Takes k n rest (err e) = Unit
Takes k n rest panics = Unit
Takes k n rest stuck = ⊥

>>=-Takes {ℓ κ} :
    {A : Type ℓ} {B : Type κ} (k n : ℕ) (rest : A → Bytes) (rest' : B → Bytes) (m : Outcome A)
    (f : A → Outcome B)
    → Takes k n rest m
    → ((a : A) → Takes 0 (length (rest a)) rest' (f a))
    → Takes k n rest' (m >>= f)
>>=-Takes k n rest rest' (ok a) f h g = go (f a) (g a)
  where
    go : (o : Outcome _) → Takes 0 (length (rest a)) rest' o → Takes k n rest' o
    go (ok b) t = omega arith
    go (err e) t = tt
    go panics t = tt
    go stuck t = t
>>=-Takes k n rest rest' (err e) f h g = tt
>>=-Takes k n rest rest' panics f h g = tt
>>=-Takes k n rest rest' stuck f h g = h

read_full-Takes : (k : ℕ) (s : Bytes) → Takes k (length s) (λ x. x.1) (read_full k s)
unfolding read_full
read_full-Takes k s = ground (arith, length-drop k s)

read_full-Takes_any : (k : ℕ) (s : Bytes) → Takes 0 (length s) (λ x. x.1) (read_full k s)
unfolding read_full
read_full-Takes_any k s = ground (arith, length-drop k s)

read_length-Takes : (n : ℕ) (s : Bytes) → Takes 0 (length s) (λ x. x.1) (read_length n s)
unfolding read_length
read_length-Takes n s = elim (Bool-cases (n == 126)) [
  | inl e ↦ rw e (extended 2)
  | inr e ↦ elim (Bool-cases (n == 127)) [
    | inl e' ↦ rw (e, e') (extended 8)
    | inr e' ↦ rw (e, e') (omega arith)
  ]
]
  where
    extended :
        (k : ℕ)
        → Takes {A = ℕ × Bytes} 0
            (length s)
            (λ x. x.1)
            (read_full k s >>= λ x. ok (big_endian 0 x.0, x.1))
    extended k =
        >>=-Takes 0 _ (λ x. x.1) _ (read_full k s) _ (read_full-Takes_any k s) λ x. omega arith

read_mask-Takes : (b : Bool) (s : Bytes) → Takes 0 (length s) (λ x. x.1) (read_mask b s)
unfolding read_mask
read_mask-Takes true s = read_full-Takes_any 4 s
read_mask-Takes false s = omega arith

read_payload-Takes : (n : ℕ) (s : Bytes) → Takes 0 (length s) (λ x. x.1) (read_payload n s)
unfolding read_payload
read_payload-Takes n s = elim (Bool-cases (ltb n (2 ^ 63))) [
  | inl e ↦ rw e (read_full-Takes_any n s)
  | inr e ↦ rw e tt
]

read_frame-Takes : (s : Bytes) → Takes 2 (length s) (λ x. x.2) (read_frame s)
unfolding read_frame
read_frame-Takes s =
    >>=-Takes 2 _ (λ x. x.1) _ (read_full 2 s) _ (read_full-Takes 2 s)
      λ head.
        >>=-Takes 0 _ (λ x. x.1) _ (read_length _ head.1) _ (read_length-Takes _ head.1)
          λ l.
            >>=-Takes 0 _ (λ x. x.1) _ (read_mask _ l.1) _ (read_mask-Takes _ l.1)
              λ key.
                >>=-Takes 0 _ (λ x. x.1) _ (read_payload l.0 key.1) _ (read_payload-Takes l.0 key.1)
                  λ p. omega arith

-- A frame that is read takes two bytes at least.
read_frame_shrinks :
    (s : Bytes) (opcode : ℕ) (p rest : Bytes)
    → read_frame s ≡ ok (opcode, p, rest)
    → length rest + 2 ≤ length s
read_frame_shrinks s opcode p rest e = rw e at (read_frame-Takes s)

read_frame-ne-stuck : (s : Bytes) → read_frame s ≢ stuck
read_frame-ne-stuck s e = rw e at (read_frame-Takes s)

write-input : (b : Bytes) (c : Conn) (ws : List Bool) → (write_with b c ws).0.input ≡ c.input
unfolding write_with
write-input b c [] = refl
write-input b c (true ∷ ws) = refl
write-input b c (false ∷ ws) = refl

write_frame-input : (opcode : ℕ) (p : Bytes) (c : Conn) → (write_frame opcode p c).0.input ≡ c.input
unfolding write_frame
write_frame-input opcode p c =
    let header = frame_header opcode (length p) in
    let (c', failed) = write_with header c c.writes in
    let first : c'.input ≡ c.input = write-input header c c.writes in
    elim (Option-cases failed) [
      | inl e ↦ rw (e, write_frame) (write-input p c' c'.writes ∙ first)
      | inr (x, e) ↦ rw (e, write_frame) first
    ]

handle_frame-input :
    (opcode : ℕ) (p : Bytes) (c : Conn) → (handle_frame opcode p c).0.input ≡ c.input
unfolding handle_frame
handle_frame-input opcode p c = ground (arith, write_frame-input op_pong p c)

handle_frame-ne-stuck :
    (opcode : ℕ) (p : Bytes) (c : Conn) → (handle_frame opcode p c).1 ≢ some stuck
unfolding handle_frame
handle_frame-ne-stuck opcode p c = ground arith

module _ (fuel : ℕ) (c : Conn) (opcode : ℕ) (p rest : Bytes) where
  pub read_loop_more :
      (c' : Conn)
      → read_frame c.input ≡ ok (opcode, p, rest)
      → handle_frame opcode p (record c { input = rest }) ≡ (c', none)
      → read_loop (suc fuel) c ≡ read_loop fuel c'
  unfolding read_loop
  read_loop_more c' e d =
      rw (e, read_loop) (rw (ap (λ x. x.1) d, read_loop) (ap (λ x. read_loop fuel x.0) d))

  pub read_loop_done :
      (c' : Conn) (r : Outcome Bytes)
      → read_frame c.input ≡ ok (opcode, p, rest)
      → handle_frame opcode p (record c { input = rest }) ≡ (c', some r)
      → read_loop (suc fuel) c ≡ (c', r)
  unfolding read_loop
  read_loop_done c' r e d =
      rw (e, read_loop) (rw (ap (λ x. x.1) d, read_loop) (ap (λ x. (x.0, r)) d))

read_loop-ne-stuck : (fuel : ℕ) (c : Conn) → length c.input < fuel → (read_loop fuel c).1 ≢ stuck
unfolding read_loop
read_loop-ne-stuck zero c h = elim h [ ]
read_loop-ne-stuck (suc fuel) c h =
    go (read_frame c.input) refl λ c' h'. read_loop-ne-stuck fuel c' h'
  where
    handled :
        (opcode : ℕ) (p rest : Bytes) (c' : Conn) (done : Option (Outcome Bytes))
        → read_frame c.input ≡ ok (opcode, p, rest)
        → handle_frame opcode p (record c { input = rest }) ≡ (c', done)
        → ((d : Conn) → length d.input < fuel → (read_loop fuel d).1 ≢ stuck)
        → (read_loop (suc fuel) c).1 ≢ stuck
    handled opcode p rest c' none e d ih =
        let same : c'.input ≡ rest =
          rw d at (handle_frame-input opcode p (record c { input = rest })) in
        rw (read_loop_more fuel c opcode p rest c' e d)
          (ih c' (omega (arith, read_frame_shrinks _ opcode p rest e, ap length same)))
    handled opcode p rest c' (some r) e d ih =
        rw (read_loop_done fuel c opcode p rest c' r e d)
          λ q. handle_frame-ne-stuck opcode p (record c { input = rest }) (cc)

    go :
        (o : Outcome (ℕ × Bytes × Bytes))
        → read_frame c.input ≡ o
        → ((d : Conn) → length d.input < fuel → (read_loop fuel d).1 ≢ stuck)
        → (read_loop (suc fuel) c).1 ≢ stuck
    go (ok (opcode, p, rest)) e ih = handled opcode p rest _ _ e refl ih
    go (err x) e ih = rw (e, read_loop) (λ q. cc)
    go panics e ih = rw (e, read_loop) (λ q. cc)
    go stuck e ih = absurd (read_frame-ne-stuck c.input e)

-- `ReadMessage` ends on every connection: each round of its loop takes two bytes of the input at
-- least, so the fuel never runs out.
pub read_message-ne-stuck : (c : Conn) → (read_message c).1 ≢ stuck
unfolding read_message
read_message-ne-stuck c = read_loop-ne-stuck (suc (length c.input)) c (omega arith)
