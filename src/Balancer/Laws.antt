-- ===== src/Balancer/Laws.antt =====
-- Which service answers a request.
use spacegate.Common.{
  ℕ, ◌%◌, ◌<◌, ◌≡◌, ◌≢◌, refl, sym, ap, ◌∙◌, Str, length, get_elem?, get_elem?_total, none, some,
  List, [], ◌∷◌, arith,
}
use spacegate.Balancer.{
  Request, Balancer, BalancePolicy, ip_hash_pick, mcp_session_pick, session_hash, random_pick,
  serve,
}

session_hash-session :
    (hash_ip : ℕ → ℕ) (hash_bytes : Str → ℕ) (req : Request) (id : Str)
    → req.session ≡ some id
    → session_hash hash_ip hash_bytes req ≡ some (hash_bytes id)
unfolding session_hash
session_hash-session hash_ip hash_bytes req id e = rw (e, session_hash) refl

module _ {S : Type 0} where
  in_range : (x : S) (xs : List S) (hash : ℕ) → hash % length (x ∷ xs) < length (x ∷ xs)
  in_range x xs hash = omega arith

  -- The service is one of the instances.
  abbrev pub Instance : Balancer S → S → Type 0
  Instance b s = (i : ℕ) × ((i < length b.instances) × (get_elem? b.instances i ≡ some s))

  served :
      (b : Balancer S) (pick : BalancePolicy S) (req : Request) (i : ℕ) (a : S)
      → pick b.instances req ≡ get_elem? b.instances i
      → get_elem? b.instances i ≡ some a
      → get_elem? b.instances i ≡ some (serve pick b req)
  unfolding serve
  served b pick req i a e at = rw (e, at, serve) refl

  picked :
      (b : Balancer S) (pick : BalancePolicy S) (req : Request)
      → ((i : ℕ) × ((i < length b.instances) × (pick b.instances req ≡ get_elem? b.instances i)))
      → Instance b (serve pick b req)
  picked b pick req (i, (lt, e)) =
      let (a, at) = get_elem?_total b.instances i lt in (i, (lt, served b pick req i a e at))

  mcp_session_pick_at :
      (hash_ip : ℕ → ℕ) (hash_bytes : Str → ℕ) (instances : List S) (req : Request) (hash : ℕ)
      → session_hash hash_ip hash_bytes req ≡ some hash
      → instances ≢ []
      → (i : ℕ) × ((i < length instances)
          × (mcp_session_pick hash_ip hash_bytes instances req ≡ get_elem? instances i))
  unfolding mcp_session_pick
  mcp_session_pick_at hash_ip hash_bytes [] req hash e h = elim (h refl) [ ]
  mcp_session_pick_at hash_ip hash_bytes (x ∷ []) req hash e h = (0, (omega arith, refl))
  mcp_session_pick_at hash_ip hash_bytes (x ∷ y ∷ xs) req hash e h =
      (hash % length (x ∷ y ∷ xs), (in_range x (y ∷ xs) hash, rw (e, mcp_session_pick) refl))

  mcp_session_pick_same :
      (hash_ip : ℕ → ℕ) (hash_bytes : Str → ℕ) (instances : List S) (req req' : Request)
      → session_hash hash_ip hash_bytes req' ≡ session_hash hash_ip hash_bytes req
      → mcp_session_pick hash_ip hash_bytes instances req'
        ≡ mcp_session_pick hash_ip hash_bytes instances req
  unfolding mcp_session_pick
  mcp_session_pick_same hash_ip hash_bytes [] req req' e = refl
  mcp_session_pick_same hash_ip hash_bytes (x ∷ []) req req' e = refl
  mcp_session_pick_same hash_ip hash_bytes (x ∷ y ∷ xs) req req' e = rw (e, mcp_session_pick) refl

  -- Where a balancer has instances, all requests of one MCP session are answered by the same
  -- service, one of the instances, whatever their peers.
  serve-mcp_session_pick :
      (hash_ip : ℕ → ℕ) (hash_bytes : Str → ℕ) (b : Balancer S) (req req' : Request) (id : Str)
      → b.instances ≢ []
      → req.session ≡ some id
      → req'.session ≡ some id
      → Instance b (serve (mcp_session_pick hash_ip hash_bytes) b req)
        × (serve (mcp_session_pick hash_ip hash_bytes) b req'
            ≡ serve (mcp_session_pick hash_ip hash_bytes) b req)
  unfolding serve
  serve-mcp_session_pick hash_ip hash_bytes b req req' id some_there s s' = (
    picked b (mcp_session_pick hash_ip hash_bytes) req (
        mcp_session_pick_at hash_ip hash_bytes b.instances req (hash_bytes id)
          (session_hash-session hash_ip hash_bytes req id s) some_there),
    ap (λ o. elim o [ none ↦ b.fallback | some x ↦ x ])
        (mcp_session_pick_same hash_ip hash_bytes b.instances req req' (
          session_hash-session hash_ip hash_bytes req' id s'
          ∙ sym (session_hash-session hash_ip hash_bytes req id s))),
  )

  ip_hash_pick_at :
      (hash_ip : ℕ → ℕ) (instances : List S) (req : Request) (ip : ℕ)
      → req.peer ≡ some ip
      → instances ≢ []
      → (i : ℕ) × ((i < length instances)
          × (ip_hash_pick hash_ip instances req ≡ get_elem? instances i))
  unfolding ip_hash_pick
  ip_hash_pick_at hash_ip [] req ip e h = elim (h refl) [ ]
  ip_hash_pick_at hash_ip (x ∷ []) req ip e h = (0, (omega arith, refl))
  ip_hash_pick_at hash_ip (x ∷ y ∷ xs) req ip e h = (
    hash_ip ip % length (x ∷ y ∷ xs),
    (in_range x (y ∷ xs) (hash_ip ip), rw (e, ip_hash_pick) refl),
  )

  ip_hash_pick_unknown :
      (hash_ip : ℕ → ℕ) (instances : List S) (req : Request)
      → req.peer ≡ none
      → 1 < length instances
      → ip_hash_pick hash_ip instances req ≡ none
  unfolding ip_hash_pick
  ip_hash_pick_unknown hash_ip [] req e h = refl
  ip_hash_pick_unknown hash_ip (x ∷ []) req e h = ground arith
  ip_hash_pick_unknown hash_ip (x ∷ y ∷ xs) req e h = rw (e, ip_hash_pick) refl

  -- Where a balancer by IP hash has instances, a request with a known peer is answered by one of
  -- them; one without goes to the fallback where there are several instances.
  serve-ip_hash_pick :
      (hash_ip : ℕ → ℕ) (b : Balancer S) (req : Request)
      → b.instances ≢ []
      → ((ip : ℕ) → req.peer ≡ some ip → Instance b (serve (ip_hash_pick hash_ip) b req))
        × (req.peer ≡ none
            → 1 < length b.instances
            → serve (ip_hash_pick hash_ip) b req ≡ b.fallback)
  unfolding serve
  serve-ip_hash_pick hash_ip b req some_there = (
    λ ip e.
        picked b (ip_hash_pick hash_ip) req
          (ip_hash_pick_at hash_ip b.instances req ip e some_there),
    λ e h.
        ap (λ o. elim o [ none ↦ b.fallback | some x ↦ x ])
          (ip_hash_pick_unknown hash_ip b.instances req e h),
  )

  random_pick_at :
      (instances : List S) (req : Request) (sample : ℕ)
      → sample < length instances
      → (i : ℕ) × ((i < length instances)
          × (random_pick sample instances req ≡ get_elem? instances i))
  unfolding random_pick
  random_pick_at [] req sample h = ground arith
  random_pick_at (x ∷ []) req sample h = (0, (omega arith, refl))
  random_pick_at (x ∷ y ∷ xs) req sample h = (sample, (h, refl))

  -- A random balancer whose sampler gives an index below the number of instances never answers by
  -- the fallback, but by one of the instances.
  serve-random_pick :
      (sample : ℕ) (b : Balancer S) (req : Request)
      → sample < length b.instances
      → Instance b (serve (random_pick sample) b req)
  serve-random_pick sample b req h =
      picked b (random_pick sample) req (random_pick_at b.instances req sample h)
