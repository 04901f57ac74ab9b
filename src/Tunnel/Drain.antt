-- ===== src/Tunnel/Drain.antt =====
-- `setDrain`, `configured` and `tunnels` of internal/provider/tunnel.go: a draining tunnel is
-- listed, and never one that a hostname resolves to.
use mathlib.Core.Path.{subst}
use external_dns_cloudflare.Prelude.{
  ◌∙◌, refl, sym, eq_iff, contains-append, ◌==◌, ◌++◌, Result-cases, add, contains, Text, inr,
  eq_refl, [], inl, arith, ok, Bool-cases, contains-add, trim_space, some, true, false, ◌≡◌, ◌∷◌,
  List, map, ◌||◌, ◌≢◌,
}
use external_dns_cloudflare.Tunnel.{
  TunnelEntry, TunnelResolver, first_match, resolve, distinct_ids, configured, drain_ids, set_drain,
  tunnels, normal_hostname, carries,
}
pub mod Nonempty

-- No text stands twice in the list.
abbrev pub Nodup : List Text → Type 0
Nodup [] = Unit
Nodup (x ∷ xs) = (contains x xs ≡ false) × Nodup xs

Nodup-snoc : (x : Text) (xs : List Text) → Nodup xs → contains x xs ≡ false → Nodup (xs ++ x ∷ [])
unfolding contains
Nodup-snoc x [] _ _ = (refl, tt)
Nodup-snoc x (y ∷ ys) (fresh, u) h =
    (rw contains-append (ground (arith, eq_iff x y, eq_iff y x)), Nodup-snoc x ys u (ground arith))

Nodup-add : (x : Text) (xs : List Text) → Nodup xs → Nodup (add x xs)
unfolding add
Nodup-add x xs u = elim (Bool-cases (contains x xs)) [
  | inl old ↦ rw old u
  | inr new ↦ rw new (Nodup-snoc x xs u new)
]

Nodup-append :
    (xs ys : List Text)
    → Nodup xs
    → Nodup ys
    → ((x : Text) → contains x ys ≡ true → contains x xs ≡ false)
    → Nodup (xs ++ ys)
unfolding contains
Nodup-append [] ys _ v apart = v
Nodup-append (x ∷ xs) ys (fresh, u) v apart = (
  rw contains-append (elim (Bool-cases (contains x ys)) [
    | inl e ↦ cc (apart x e, eq_refl x, e)
    | inr e ↦ rw (fresh, e)
  ]),
  Nodup-append xs ys u v (λ y h. ground (arith, apart y h)),
)

distinct_ids-Nodup :
    (es : List TunnelEntry) (out : List Text) → Nodup out → Nodup (distinct_ids es out)
unfolding distinct_ids
distinct_ids-Nodup [] out u = u
distinct_ids-Nodup (e ∷ es) out u =
    distinct_ids-Nodup es (add e.tunnel_id out) (Nodup-add e.tunnel_id out u)

configured-Nodup : (r : TunnelResolver) → Nodup (configured r)
unfolding configured contains
configured-Nodup r = elim (Bool-cases (r.fallback == [])) [
  | inl e ↦ rw e (distinct_ids-Nodup r.entries [] tt)
  | inr e ↦ rw e (refl, tt)
]

contains-distinct_ids_old :
    (k : Text) (es : List TunnelEntry) (out : List Text)
    → contains k out ≡ true
    → contains k (distinct_ids es out) ≡ true
unfolding distinct_ids
contains-distinct_ids_old k [] out h = h
contains-distinct_ids_old k (e ∷ es) out h =
    contains-distinct_ids_old k es (add e.tunnel_id out) (rw contains-add (ground arith))

first_match-distinct_ids :
    (h tid : Text) (es : List TunnelEntry) (out : List Text)
    → first_match h es ≡ some tid
    → contains tid (distinct_ids es out) ≡ true
unfolding first_match distinct_ids
first_match-distinct_ids h tid [] out p = cc
first_match-distinct_ids h tid (e ∷ es) out p = elim (Bool-cases (carries h e.domain)) [
  | inl hit ↦
      let same : e.tunnel_id ≡ tid = ground arith in
      contains-distinct_ids_old tid es (add e.tunnel_id out) (rw (contains-add, same, eq_refl))
  | inr miss ↦ first_match-distinct_ids h tid es (add e.tunnel_id out) (ground arith)
]

-- What a hostname resolves to is among the configured tunnels.
pub resolve-configured :
    (r : TunnelResolver) (hostname tid : Text)
    → resolve r hostname ≡ some tid
    → contains tid (configured r) ≡ true
unfolding resolve configured contains
resolve-configured r hostname tid h = elim (Bool-cases (r.fallback == [])) [
  | inl e ↦ rw e (first_match-distinct_ids (normal_hostname hostname) tid r.entries [] (rw e at h))
  | inr e ↦ rw e (ground (arith, eq_refl tid, eq_iff r.fallback tid))
]

-- What the loop has put out so far: no id twice, and none that is configured.
record IsDrain (conf drain : List Text) : Type 0 where
  nodup : Nodup drain
  apart : (id : Text) → contains id drain ≡ true → contains id conf ≡ false

IsDrain-snoc :
    (conf drain : List Text) (id : Text)
    → IsDrain conf drain
    → contains id conf ≡ false
    → contains id drain ≡ false
    → IsDrain conf (drain ++ id ∷ [])
unfolding contains
IsDrain-snoc conf drain id d free fresh = record {
  nodup = Nodup-snoc id drain d.nodup fresh;
  apart = λ k. rw contains-append λ h. elim (Bool-cases (contains k drain)) [
    | inl e ↦ d.apart k e
    | inr e ↦ rw (← (eq_iff id k).0 (ground arith)) free
  ];
}

drain_ids-IsDrain :
    (conf ids drain out : List Text)
    → IsDrain conf drain
    → drain_ids conf ids drain ≡ ok out
    → IsDrain conf out
unfolding drain_ids
drain_ids-IsDrain conf [] drain out d h = let e : drain ≡ out = ground arith in rw (← e) d
drain_ids-IsDrain conf (raw ∷ ids) drain out d h = elim (Bool-cases (trim_space raw == [])) [
  | inl blank ↦ drain_ids-IsDrain conf ids drain out d (ground arith)
  | inr word ↦ elim (Bool-cases (contains (trim_space raw) conf)) [
    | inl taken ↦ ground arith
    | inr free ↦ elim (Bool-cases (contains (trim_space raw) drain)) [
      | inl old ↦ drain_ids-IsDrain conf ids drain out d (ground arith)
      | inr new ↦
          drain_ids-IsDrain conf ids (drain ++ trim_space raw ∷ []) out
            (IsDrain-snoc conf drain (trim_space raw) d free new) (ground arith)
    ]
  ]
]

drained :
    (r r' : TunnelResolver) (ids : List Text)
    → set_drain r ids ≡ ok r'
    → (drain : List Text) × (drain_ids (configured r) ids [] ≡ ok drain)
      × (r' ≡ record r { drain = drain })
unfolding set_drain
drained r r' ids h = elim (Result-cases (drain_ids (configured r) ids [])) [
  | inl (drain, e) ↦ (drain, ground arith, ground arith)
  | inr (x, e) ↦ ground arith
]

-- The loop puts out what it has put out, and the ids, trimmed.
contains-drain_ids :
    (conf ids drain out : List Text) (id : Text)
    → id ≢ []
    → drain_ids conf ids drain ≡ ok out
    → contains id out ≡ (contains id drain || contains id (map trim_space ids))
unfolding drain_ids contains
contains-drain_ids conf [] drain out id full h =
    let e : drain ≡ out = ground arith in rw (← e) (ground arith)
contains-drain_ids conf (raw ∷ ids) drain out id full h =
    let other : (trim_space raw == []) ≡ true → (trim_space raw == id) ≡ false = λ blank.
      elim (Bool-cases (trim_space raw == id)) [
        | inl same ↦ absurd (
            full (sym ((eq_iff (trim_space raw) id).0 same) ∙ (eq_iff (trim_space raw) []).0 blank))
        | inr differs ↦ differs
      ] in
    elim (Bool-cases (trim_space raw == [])) [
      | inl blank ↦
          ground (arith, other blank, contains-drain_ids conf ids drain out id full (ground arith))
      | inr word ↦ elim (Bool-cases (contains (trim_space raw) conf)) [
        | inl taken ↦ ground arith
        | inr free ↦ elim (Bool-cases (contains (trim_space raw) drain)) [
          | inl old ↦ ground (
            arith,
            eq_iff (trim_space raw) id,
            contains-drain_ids conf ids drain out id full (ground arith),
          )
          | inr new ↦ ground (
            arith,
            contains-append id drain (trim_space raw ∷ []),
            contains-drain_ids conf ids (drain ++ trim_space raw ∷ []) out id full (ground arith),
          )
        ]
      ]
    ]

IsDrain-empty : (conf : List Text) → IsDrain conf []
unfolding contains
IsDrain-empty conf = record { nodup = tt; apart = λ id h. cc }

-- What `set_drain` leaves of the resolver.
record SetDrain (ids : List Text) (r r' : TunnelResolver) : Type 0 where
  drain : IsDrain (configured r) r'.drain
  same_configured : configured r' ≡ configured r
  same_resolve : (hostname : Text) → resolve r' hostname ≡ resolve r hostname
  drains : (id : Text) → id ≢ [] → contains id r'.drain ≡ contains id (map trim_space ids)

set_drain-SetDrain :
    (r r' : TunnelResolver) (ids : List Text) → set_drain r ids ≡ ok r' → SetDrain ids r r'
unfolding configured resolve contains
set_drain-SetDrain r r' ids h =
    let out = drained r r' ids h in
    let kept = drain_ids-IsDrain (configured r) ids [] out.0 (IsDrain-empty _) out.1 in
    let after : SetDrain ids r (record r { drain = out.0 }) = record {
      drain = kept;
      same_configured = refl;
      same_resolve = λ hostname. refl;
      drains = λ id full. contains-drain_ids (configured r) ids [] out.0 id full out.1;
    } in
    subst (λ s. SetDrain ids r s) (sym out.2) after

module _ (r r' : TunnelResolver) (ids : List Text) (done : set_drain r ids ≡ ok r') where
  pub resolve-set_drain :
      ((hostname : Text) → resolve r' hostname ≡ resolve r hostname)
      × ((hostname tid : Text) → resolve r' hostname ≡ some tid → contains tid r'.drain ≡ false)
      × ((id : Text) → id ≢ [] → contains id r'.drain ≡ contains id (map trim_space ids))
  resolve-set_drain =
      let after = set_drain-SetDrain r r' ids done in
      (
        after.same_resolve,
        (λ hostname tid h. elim (Bool-cases (contains tid r'.drain)) [
          | inl e ↦ cc (
            after.drain.apart tid e,
            resolve-configured r hostname tid (sym (after.same_resolve hostname) ∙ h),
          )
          | inr e ↦ e
        ]),
        after.drains,
      )

  -- If `setDrain` succeeds, then no tunnel is listed twice.
  pub tunnels-Nodup : Nodup (tunnels r')
  unfolding tunnels
  tunnels-Nodup =
      let after = set_drain-SetDrain r r' ids done in
      rw after.same_configured (
        Nodup-append (configured r) r'.drain (configured-Nodup r) after.drain.nodup
          after.drain.apart)

  -- If `setDrain` succeeds, then every tunnel that a hostname resolves to is listed.
  pub resolve-tunnels :
      (hostname tid : Text) → resolve r' hostname ≡ some tid → contains tid (tunnels r') ≡ true
  unfolding tunnels
  resolve-tunnels hostname tid h = rw (contains-append, resolve-configured r' hostname tid h)
