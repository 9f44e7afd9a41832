-- ===== src/Websocket/Hub/Reachable.antt =====
-- What holds in every state of backend/internal/wsserver/hub.go.
use nyc_taxi_real_time_eta_p.Common.{
  ℕ, zero, suc, ◌≡◌, ap, ◌∙◌, ◌⊎◌, inl, inr, true, false, List, [], ◌∷◌, ◌++◌, some, arith, ◌==◌,
  length, get_elem?, set, All, All-mono, Bool-cases,
}
use nyc_taxi_real_time_eta_p.Common.Bytes.{Bytes}
use nyc_taxi_real_time_eta_p.Common.Elements.{get_elem?-set, lt_of_get_elem?, get_elem?-concat}
use nyc_taxi_real_time_eta_p.Websocket.Hub.{
  listed, removed, closed, Client, Flight, Hub, ok, is_closed, new_client, offer, remove,
  close_send, IsListed, IsUnlocked, Step, Reaches,
}
use nyc_taxi_real_time_eta_p.Websocket.Hub.Delivery.{
  IsServed, offer-IsServed, offer_open, write-IsServed, new_client-IsServed, same-IsServed,
}

pub record IsSound (h : Hub) : Type 0 where
  pub served : (i : ℕ) (c : Client) → get_elem? h.clients i ≡ some c → IsServed c
  -- The clients that a `Broadcast` has still to visit are in the map.
  pub visits :
      (k : ℕ) (f : Flight)
      → get_elem? h.flights k ≡ some f
      → f.under_way ≡ true
      → All (IsListed h) f.left

get_elem?-set_cases :
    {A : Type 0} (xs : List A) (i j : ℕ) (x v y : A)
    → get_elem? xs i ≡ some x
    → get_elem? (set xs i v) j ≡ some y
    → ((i ≡ j) × (y ≡ v)) ⊎ (((i == j) ≡ false) × (get_elem? xs j ≡ some y))
get_elem?-set_cases xs i j x v y h k = elim (Bool-cases (i == j)) [
  | inl e ↦ inl (ground arith, ground (arith, get_elem?-set xs i j v (lt_of_get_elem? xs i x h)))
  | inr e ↦ inr (e, ground (arith, get_elem?-set xs i j v (lt_of_get_elem? xs i x h)))
]

unlocked_flight :
    (fs : List Flight) (k : ℕ) (f : Flight)
    → All (λ f. f.under_way ≡ false) fs
    → get_elem? fs k ≡ some f
    → f.under_way ≡ false
unlocked_flight [] k f a h = cc
unlocked_flight (g ∷ fs) zero f a h = ground (arith, a.0)
unlocked_flight (g ∷ fs) (suc k) f a h = unlocked_flight fs k f a.1 h

-- A change of one client that leaves it in the map if it was there keeps the others there.
set-IsListed :
    (h : Hub) (fs : List Flight) (i : ℕ) (c v : Client) (j : ℕ)
    → get_elem? h.clients i ≡ some c
    → (c.phase ≡ listed → v.phase ≡ listed)
    → IsListed h j
    → IsListed (record { clients = set h.clients i v; flights = fs }) j
set-IsListed h fs i c v j here same l = elim (Bool-cases (i == j)) [
  | inl e ↦ record {
    client = v;
    here = ground (arith, get_elem?-set h.clients i j v (lt_of_get_elem? h.clients i c here));
    in_map =
        let q : c ≡ l.client = ground (arith, here, l.here) in
        same (ap (λ x. x.phase) q ∙ l.in_map);
  }
  | inr e ↦ record {
    client = l.client;
    here =
        ground (arith, l.here, get_elem?-set h.clients i j v (lt_of_get_elem? h.clients i c here));
    in_map = l.in_map;
  }
]

set-IsServed :
    (h : Hub) (i : ℕ) (c v : Client)
    → IsSound h
    → get_elem? h.clients i ≡ some c
    → IsServed v
    → (j : ℕ) (x : Client) → get_elem? (set h.clients i v) j ≡ some x
    → IsServed x
set-IsServed h i c v s here ok_v j x k = elim (get_elem?-set_cases h.clients i j c v x here k) [
  | inl (_, q) ↦ rw q ok_v
  | inr (_, k') ↦ s.served j x k'
]

-- A client changes, and stays in the map if it was there.
set-IsSound :
    (h : Hub) (i : ℕ) (c v : Client)
    → IsSound h
    → get_elem? h.clients i ≡ some c
    → IsServed v
    → (c.phase ≡ listed → v.phase ≡ listed)
    → IsSound (record h { clients = set h.clients i v })
set-IsSound h i c v s here ok_v same = record {
  served = set-IsServed h i c v s here ok_v;
  visits = λ k f g u.
      All-mono (IsListed h) _ (λ j l. set-IsListed h h.flights i c v j here same l) f.left
        (s.visits k f g u);
}

-- A client changes while no `Broadcast` is under way.
unlocked-IsSound :
    (h : Hub) (i : ℕ) (c v : Client)
    → IsSound h
    → IsUnlocked h
    → get_elem? h.clients i ≡ some c
    → IsServed v
    → IsSound (record h { clients = set h.clients i v })
unlocked-IsSound h i c v s free here ok_v = record {
  served = set-IsServed h i c v s here ok_v;
  visits = λ k f g u. cc (unlocked_flight h.flights k f free g);
}

offers-IsSound :
    (h : Hub) (k i : ℕ) (f : Flight) (rest : List ℕ) (c c' : Client)
    → IsSound h
    → get_elem? h.flights k ≡ some f
    → f.under_way ≡ true
    → f.left ≡ i ∷ rest
    → get_elem? h.clients i ≡ some c
    → IsServed c' × (c'.phase ≡ c.phase)
    → IsSound (record {
      clients = set h.clients i c';
      flights = set h.flights k (record f { left = rest });
    })
offers-IsSound h k i f rest c c' s g u e here (ok_c, same) = record {
  served = set-IsServed h i c c' s here ok_c;
  visits = λ j x g' u'.
      All-mono (IsListed h) _
        (λ n l.
          set-IsListed h (set h.flights k (record f { left = rest })) i c c' n here (λ q. same ∙ q)
            l)
        x.left (before j x g' u');
}
  where
    before :
        (j : ℕ) (x : Flight)
        → get_elem? (set h.flights k (record f { left = rest })) j ≡ some x
        → x.under_way ≡ true
        → All (IsListed h) x.left
    before j x g' u' = elim (get_elem?-set_cases h.flights k j f _ x g g') [
      | inl (_, q) ↦ rw q ((rw e at (s.visits k f g u)).1)
      | inr (_, g'') ↦ s.visits j x g'' u'
    ]

grow-IsListed :
    (h : Hub) (j : ℕ)
    → IsListed h j
    → IsListed (record h { clients = h.clients ++ (new_client ∷ []) }) j
grow-IsListed h j l = record {
  client = l.client;
  here = ground (
    arith,
    get_elem?-concat h.clients new_client j,
    lt_of_get_elem? h.clients j l.client l.here,
    l.here,
  );
  in_map = l.in_map;
}

registers-IsSound :
    (h : Hub) → IsSound h → IsSound (record h { clients = h.clients ++ (new_client ∷ []) })
registers-IsSound h s = record {
  served = λ i c k. elim (Bool-cases (length h.clients == i)) [
    | inl e ↦
        let q : new_client ≡ c = ground (arith, get_elem?-concat h.clients new_client i) in
        rw⁻¹ q new_client-IsServed
    | inr e ↦ s.served i c (ground (arith, get_elem?-concat h.clients new_client i))
  ];
  visits = λ k f g u. All-mono (IsListed h) _ (grow-IsListed h) f.left (s.visits k f g u);
}

flight-IsSound :
    (h : Hub) (fs : List Flight)
    → IsSound h
    → ((k : ℕ) (f : Flight)
        → get_elem? fs k ≡ some f
        → f.under_way ≡ true
        → All (IsListed h) f.left)
    → IsSound (record h { flights = fs })
flight-IsSound h fs s a = record {
  served = s.served;
  visits = λ k f g u.
      All-mono (IsListed h) _
        (λ j l. record { client = l.client; here = l.here; in_map = l.in_map }) f.left (a k f g u);
}

broadcasts_visits :
    (h : Hub) (m : Bytes) (order : List ℕ)
    → IsSound h
    → All (IsListed h) order
    → (k : ℕ) (f : Flight)
    → get_elem? (h.flights ++ (record { message = m; left = order; under_way = true } ∷ [])) k
      ≡ some f
    → f.under_way ≡ true
    → All (IsListed h) f.left
broadcasts_visits h m order s a k f g u = elim (Bool-cases (length h.flights == k)) [
  | inl e ↦
      let q : record { message = m; left = order; under_way = true } ≡ f = ground (
        arith,
        get_elem?-concat h.flights (record { message = m; left = order; under_way = true }) k,
      ) in
      rw⁻¹ q a
  | inr e ↦
      s.visits k f
        (ground (
          arith,
          get_elem?-concat h.flights (record { message = m; left = order; under_way = true }) k,
        ))
        u
]

returns_visits :
    (h : Hub) (k : ℕ) (f : Flight)
    → IsSound h
    → get_elem? h.flights k ≡ some f
    → (j : ℕ) (x : Flight) → get_elem? (set h.flights k (record f { under_way = false })) j ≡ some x
    → x.under_way ≡ true
    → All (IsListed h) x.left
returns_visits h k f s g j x g' u = elim (get_elem?-set_cases h.flights k j f _ x g g') [
  | inl (_, q) ↦ cc
  | inr (_, g'') ↦ s.visits j x g'' u
]

Step-IsSound : (h h' : Hub) → IsSound h → Step h h' → IsSound h'
unfolding remove close_send
Step-IsSound h h' s (Step.registers free q) = rw q (registers-IsSound h s)
Step-IsSound h h' s (Step.broadcasts m order a q) =
    rw q (flight-IsSound h _ s (broadcasts_visits h m order s a))
Step-IsSound h h' s (Step.offers k i f rest c c' g u e here o q) = rw q (
    offers-IsSound h k i f rest c c' s g u e here
      (offer-IsServed f.message c c' (s.served i c here) o))
Step-IsSound h h' s (Step.returns k f g e q) =
    rw q (flight-IsSound h _ s (returns_visits h k f s g))
Step-IsSound h h' s (Step.writes i c m rest here p e q) =
    rw q (set-IsSound h i c _ s here (write-IsServed c m rest (s.served i c here) e) (λ x. x))
Step-IsSound h h' s (Step.stops i c here q) =
    rw q (set-IsSound h i c _ s here (same-IsServed c c.phase false (s.served i c here)) (λ x. x))
Step-IsSound h h' s (Step.deletes i c free here p q) =
    rw q
      (unlocked-IsSound h i c _ s free here (same-IsServed c removed c.pumping (s.served i c here)))
Step-IsSound h h' s (Step.closes i c here p q) =
    rw q
      (set-IsSound h i c _ s here (same-IsServed c closed c.pumping (s.served i c here)) (λ x. cc))

reaches-IsSound : (h : Hub) → Reaches h → IsSound h
reaches-IsSound h Reaches.start = record { served = λ i c k. cc; visits = λ k f g u. cc }
reaches-IsSound h (Reaches.next r t) = Step-IsSound _ h (reaches-IsSound _ r) t

-- In every state that the hub can reach, a client has at most 32 messages in its buffer; what was
-- written to it, and then what is buffered, are messages that were offered to it, in the order of
-- the offers and none twice, so that only skipped ones are missing.
pub reaches-IsServed :
    (h : Hub) (i : ℕ) (c : Client) → Reaches h → get_elem? h.clients i ≡ some c → IsServed c
reaches-IsServed h i c r k = (reaches-IsSound h r).served i c k

-- In every state that the hub can reach, the next turn of a `Broadcast` under way finds its client
-- in the map with an open channel, so that its send neither panics nor waits, however `Register`,
-- `Broadcast` and the writers interleave.
pub broadcast_never_panics :
    (h : Hub) (k i : ℕ) (f : Flight) (rest : List ℕ)
    → Reaches h
    → get_elem? h.flights k ≡ some f
    → f.under_way ≡ true
    → f.left ≡ i ∷ rest
    → (c c' : Client) × (get_elem? h.clients i ≡ some c) × (offer f.message c ≡ ok c')
broadcast_never_panics h k i f rest r g u e =
    let l = (rw e at ((reaches-IsSound h r).visits k f g u)).0 in
    let (c', o) = offer_open f.message l.client (ap is_closed l.in_map) in (l.client, c', l.here, o)
