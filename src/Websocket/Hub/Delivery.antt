-- ===== src/Websocket/Hub/Delivery.antt =====
-- One client of backend/internal/wsserver/hub.go: what its buffer and its connection hold.
use nyc_taxi_real_time_eta_p.Common.{
  ◌≤◌, ◌<◌, ◌≡◌, refl, ap, Bool, false, List, [], ◌∷◌, ◌++◌, append_assoc, arith, ltb, ltb→lt,
  length, length-append, Bool-cases, inl, inr,
}
use nyc_taxi_real_time_eta_p.Common.Bytes.{Bytes}
use nyc_taxi_real_time_eta_p.Websocket.Hub.{
  Phase, Client, ok, send_capacity, is_closed, new_client, offer,
}

-- The first list is the second with some elements left out.
pub data Sublist {ℓ} {A : Type ℓ} : List A → List A → Type ℓ where
  nil : Sublist [] []
  skip : (x : A) {xs ys : List A} → Sublist xs ys → Sublist xs (x ∷ ys)
  keep : (x : A) {xs ys : List A} → Sublist xs ys → Sublist (x ∷ xs) (x ∷ ys)

module _ {ℓ} {A : Type ℓ} where
  Sublist-keep_last :
      (x : A) {xs ys : List A} → Sublist xs ys → Sublist (xs ++ (x ∷ [])) (ys ++ (x ∷ []))
  Sublist-keep_last x Sublist.nil = Sublist.keep x Sublist.nil
  Sublist-keep_last x (Sublist.skip y s) = Sublist.skip y (Sublist-keep_last x s)
  Sublist-keep_last x (Sublist.keep y s) = Sublist.keep y (Sublist-keep_last x s)

  Sublist-skip_last : (x : A) {xs ys : List A} → Sublist xs ys → Sublist xs (ys ++ (x ∷ []))
  Sublist-skip_last x Sublist.nil = Sublist.skip x Sublist.nil
  Sublist-skip_last x (Sublist.skip y s) = Sublist.skip y (Sublist-skip_last x s)
  Sublist-skip_last x (Sublist.keep y s) = Sublist.keep y (Sublist-skip_last x s)

pub record IsServed (c : Client) : Type 0 where
  pub bounded : length c.buffer ≤ send_capacity
  -- Written first, then buffered: in the order of the offers, none twice, none made up.
  pub in_order : Sublist (c.written ++ c.buffer) c.offered

-- The two ways of an offer that does not panic.
data Offers (m : Bytes) (c c' : Client) : Type 0 where
  buffers :
      length c.buffer < send_capacity
      → c' ≡ record c { offered = c.offered ++ (m ∷ []); buffer = c.buffer ++ (m ∷ []) }
      → Offers m c c'
  skips : c' ≡ record c { offered = c.offered ++ (m ∷ []) } → Offers m c c'

offer-Offers : (m : Bytes) (c c' : Client) → offer m c ≡ ok c' → Offers m c c'
unfolding offer
offer-Offers m c c' h = elim (Bool-cases (is_closed c.phase)) [
  | inl e ↦ cc
  | inr e ↦ elim (Bool-cases (ltb (length c.buffer) send_capacity)) [
    | inl room ↦ buffers (ltb→lt _ _ room) (cc)
    | inr full ↦ skips (cc)
  ]
]

pub offer-IsServed :
    (m : Bytes) (c c' : Client)
    → IsServed c
    → offer m c ≡ ok c'
    → IsServed c' × (c'.phase ≡ c.phase)
offer-IsServed m c c' v h = elim (offer-Offers m c c' h) [
  | buffers room q ↦ rw q (
    record {
      bounded = omega (arith, length-append c.buffer (m ∷ []), room);
      in_order = rw⁻¹ (append_assoc c.written c.buffer (m ∷ [])) (Sublist-keep_last m v.in_order);
    },
    refl,
  )
  | skips q ↦ rw q (record { bounded = v.bounded; in_order = Sublist-skip_last m v.in_order }, refl)
]

-- A client whose channel is open takes or skips a message without waiting.
pub offer_open :
    (m : Bytes) (c : Client) → is_closed c.phase ≡ false → (c' : Client) × (offer m c ≡ ok c')
unfolding offer
offer_open m c e = elim (Bool-cases (ltb (length c.buffer) send_capacity)) [
  | inl room ↦
      (record c { offered = c.offered ++ (m ∷ []); buffer = c.buffer ++ (m ∷ []) }, ground arith)
  | inr full ↦ (record c { offered = c.offered ++ (m ∷ []) }, ground arith)
]

pub write-IsServed :
    (c : Client) (m : Bytes) (rest : List Bytes)
    → IsServed c
    → c.buffer ≡ m ∷ rest
    → IsServed (record c { buffer = rest; written = c.written ++ (m ∷ []) })
write-IsServed c m rest v e = record {
  bounded = omega (arith, v.bounded, ap length e);
  in_order = rw (append_assoc c.written (m ∷ []) rest) (rw e at v.in_order);
}

pub new_client-IsServed : IsServed new_client
new_client-IsServed = record { bounded = omega arith; in_order = Sublist.nil }

pub same-IsServed :
    (c : Client) (p : Phase) (b : Bool)
    → IsServed c
    → IsServed (record c { phase = p; pumping = b })
same-IsServed c p b v = record { bounded = v.bounded; in_order = v.in_order }
