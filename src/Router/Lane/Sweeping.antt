-- ===== src/Router/Lane/Sweeping.antt =====
-- internal/router/lane.go: what Cleanup does with the lane of each key.
use sclaw.Prelude.{
  ℕ, ◌≡◌, ◌≢◌, refl, sym, ap, ◌∙◌, subst, ◌⊎◌, inl, inr, Bool, true, false, not, ◌&&◌, none, some,
  List, [], ◌∷◌, ◌==◌, get_elem?, arith, Bool-cases, Option-cases, get_some, get_elem?-modify_self,
  get_elem?-modify_ne,
}
use sclaw.Prelude.Dict.{Dict, Entry, delete, lookup, lookup-delete_ne, lookup-delete_self}
use sclaw.Router.Lane.{Lane, Locks, on_lane, sweep, sweep_all, cleanup}
use sclaw.Router.Lane.Invariant.{Inv}
use sclaw.Router.Lane.Cleaning.{sweep_unknown, sweep_active, sweep_free, sweep_used}

module _ {K : Type 0} (dec : Discrete K) where
  -- No two keys share a lane.
  abbrev pub Separate : Locks K → Type 0
  Separate s =
      (k j : K) (l : ℕ) → lookup dec k s.lanes ≡ some l → lookup dec j s.lanes ≡ some l → k ≡ j

  -- No key gets a lane, or another one.
  abbrev pub Shrinks : Locks K → Locks K → Type 0
  Shrinks s t = (k : K) (l : ℕ) → lookup dec k t.lanes ≡ some l → lookup dec k s.lanes ≡ some l

  pub Shrinks-Separate : (s t : Locks K) → Shrinks s t → Separate s → Separate t
  Shrinks-Separate s t h v k j l a b = v k j l (h k l a) (h j l b)

  pub delete-Shrinks :
      (k : K) (lanes : Dict K ℕ) (j : K) (l : ℕ)
      → lookup dec j (delete dec k lanes) ≡ some l
      → lookup dec j lanes ≡ some l
  delete-Shrinks k lanes j l e = elim (dec j k) [
    | yes p ↦
        absurd
          (cc (lookup-delete_self dec k lanes, ap (λ i. lookup dec i (delete dec k lanes)) p, e))
    | no p ↦ sym (lookup-delete_ne dec k j lanes p) ∙ e
  ]

  module _ (active : K → Bool) where
    pub sweep-Shrinks : (k : K) (s : Locks K) → Shrinks s (sweep dec active k s)
    unfolding sweep on_lane
    sweep-Shrinks k s j m = elim (Option-cases (lookup dec k s.lanes)) [
      | inl e ↦ rw (sweep_unknown dec active k s e) (λ h. h)
      | inr (l, e) ↦ elim (Bool-cases (active k)) [
        | inl a ↦ rw (sweep_active dec active k s l e a) (λ h. h)
        | inr a ↦ elim (Option-cases (get_elem? s.heap l)) [
          | inl g ↦ rw (e, sweep) (rw a (rw (g, sweep) (λ h. h)))
          | inr (x, g) ↦ elim (Bool-cases (x.refs == 0)) [
            | inl z ↦ rw (sweep_free dec active k s l x e a g z) (delete-Shrinks k s.lanes j m)
            | inr z ↦ rw (sweep_used dec active k s l x e a g z) (λ h. h)
          ]
        ]
      ]
    ]

    none-stays :
        (j k : K) (s : Locks K)
        → lookup dec k s.lanes ≡ none
        → lookup dec k (sweep dec active j s).lanes ≡ none
    none-stays j k s e = elim (Option-cases (lookup dec k (sweep dec active j s).lanes)) [
      | inl f ↦ f
      | inr (l, f) ↦ absurd (cc (sweep-Shrinks j s k l f, e))
    ]

    module _ (k : K) (l : ℕ) (x : Lane) where
      -- The lane goes: its key is not active and nobody is counted in it.
      abbrev goes : Bool
      goes = not (active k) && (x.refs == 0)

      Has : Bool → Locks K → Type 0
      Has b s =
          (lookup dec k s.lanes ≡ some l) × (get_elem? s.heap l ≡ some (record x { stale = b }))

      Fate : Locks K → Type 0
      Fate s =
          ((goes ≡ true) × (lookup dec k s.lanes ≡ none))
          ⊎ ((goes ≡ false)
              × (lookup dec k s.lanes ≡ some l)
              × (get_elem? s.heap l ≡ some (record x { stale = not (active k) })))

      sweep-own : (b : Bool) (s : Locks K) → Has b s → Fate (sweep dec active k s)
      unfolding Has Fate on_lane
      sweep-own b s (e, g) = elim (Bool-cases (active k)) [
        | inl a ↦ rw (sweep_active dec active k s l e a) (
            inr (
              ground (arith, a),
              e,
              get_elem?-modify_self s.heap l (λ y. record y { stale = false }) g ∙ (rw a refl),
            ))
        | inr a ↦ elim (Bool-cases (x.refs == 0)) [
          | inl z ↦
              rw (sweep_free dec active k s l (record x { stale = b }) e a g z)
                (inl (ground (arith, a, z), lookup-delete_self dec k s.lanes))
          | inr z ↦ rw (sweep_used dec active k s l (record x { stale = b }) e a g z) (
              inr (
                ground (arith, a, z),
                e,
                get_elem?-modify_self s.heap l (λ y. record y { stale = true }) g ∙ (rw a refl),
              ))
        ]
      ]

      sweep-other :
          (j : K) (b : Bool) (s : Locks K)
          → j ≢ k
          → Separate s
          → Has b s
          → Has b (sweep dec active j s)
      unfolding Has sweep on_lane
      sweep-other j b s n v (e, g) = elim (Option-cases (lookup dec j s.lanes)) [
        | inl u ↦ rw (sweep_unknown dec active j s u) (e, g)
        | inr (m, u) ↦
            let apart : m ≢ l = λ q. n (v j k l (u ∙ ap some q) e) in
            elim (Bool-cases (active j)) [
              | inl a ↦
                  rw (sweep_active dec active j s m u a)
                    (e, get_elem?-modify_ne s.heap m l (λ y. record y { stale = false }) apart ∙ g)
              | inr a ↦ elim (Option-cases (get_elem? s.heap m)) [
                | inl w ↦ rw (u, sweep) (rw a (rw (w, sweep) (e, g)))
                | inr (y, w) ↦ elim (Bool-cases (y.refs == 0)) [
                  | inl z ↦ rw (sweep_free dec active j s m y u a w z) (
                    lookup-delete_ne dec j k s.lanes (λ q. n (sym q)) ∙ e,
                    get_elem?-modify_ne s.heap m l (λ y. record y { stale = true }) apart ∙ g,
                  )
                  | inr z ↦
                      rw (sweep_used dec active j s m y u a w z) (
                        e,
                        get_elem?-modify_ne s.heap m l (λ y. record y { stale = true }) apart ∙ g,
                      )
                ]
              ]
            ]
      ]

      sweep-Fate : (j : K) (s : Locks K) → Separate s → Fate s → Fate (sweep dec active j s)
      unfolding Fate Has
      sweep-Fate j s v (inl (q, e)) = inl (q, none-stays j k s e)
      sweep-Fate j s v (inr (q, e, g)) = elim (dec j k) [
        | yes p ↦
            subst (λ i. Fate (sweep dec active i s)) (sym p) (sweep-own (not (active k)) s (e, g))
        | no n ↦ let (at, has) = sweep-other j (not (active k)) s n v (e, g) in inr (q, at, has)
      ]

      stays :
          (es : List (Entry K ℕ)) (s : Locks K)
          → Separate s
          → Fate s
          → Fate (sweep_all dec active es s)
      unfolding sweep_all
      stays [] s v f = f
      stays (e ∷ es) s v f =
          stays es (sweep dec active e.key s)
            (Shrinks-Separate s (sweep dec active e.key s) (sweep-Shrinks e.key s) v)
            (sweep-Fate e.key s v f)

      reaches :
          (es : List (Entry K ℕ)) (b : Bool) (s : Locks K)
          → lookup dec k es ≡ some l
          → Separate s
          → Has b s
          → Fate (sweep_all dec active es s)
      unfolding sweep_all lookup
      reaches [] b s i v h = absurd (cc i)
      reaches (e ∷ es) b s i v h =
          let w = Shrinks-Separate s (sweep dec active e.key s) (sweep-Shrinks e.key s) v in
          elim (dec k e.key) [
            | yes p ↦
                stays es (sweep dec active e.key s) w
                  (subst (λ i. Fate (sweep dec active i s)) p (sweep-own b s h))
            | no n ↦
                reaches es b (sweep dec active e.key s) (ground (arith, i, n)) w
                  (sweep-other e.key b s (λ q. n (sym q)) v h)
          ]

  -- What Cleanup makes of the lane of a key: no lane comes; a lane that no active key has and that
  -- counts nobody goes; every other lane stays, marked stale exactly if its key is not active.
  abbrev pub CleanedAt : (K → Bool) → Locks K → Locks K → K → Type 0
  CleanedAt active s t k =
      ((lookup dec k s.lanes ≡ none) × (lookup dec k t.lanes ≡ none))
      ⊎ ((l : ℕ) × ((x : Lane) × (lookup dec k s.lanes ≡ some l)
            × (get_elem? s.heap l ≡ some x)
            × (((not (active k) && (x.refs == 0)) ≡ true × (lookup dec k t.lanes ≡ none))
                ⊎ ((not (active k) && (x.refs == 0)) ≡ false
                    × (lookup dec k t.lanes ≡ some l)
                    × (get_elem? t.heap l ≡ some (record x { stale = not (active k) }))))))

  module _ (active : K → Bool) where
    none-stays_all :
        (es : List (Entry K ℕ)) (k : K) (s : Locks K)
        → lookup dec k s.lanes ≡ none
        → lookup dec k (sweep_all dec active es s).lanes ≡ none
    unfolding sweep_all
    none-stays_all [] k s e = e
    none-stays_all (x ∷ es) k s e =
        none-stays_all es k (sweep dec active x.key s) (none-stays active x.key k s e)

    pub cleanup-CleanedAt :
        (s : Locks K)
        → Inv dec s
        → Separate s
        → (k : K) → CleanedAt active s (cleanup dec active s) k
    unfolding cleanup Fate Has
    cleanup-CleanedAt s v w k = elim (Option-cases (lookup dec k s.lanes)) [
      | inl e ↦ inl (e, none-stays_all s.lanes k s e)
      | inr (l, e) ↦
          let (x, g) = get_some s.heap l (v.placed k l e) in
          inr (l, (x, e, g, reaches active k l x s.lanes x.stale s e w (e, g)))
    ]

    pub cleanup-Shrinks : (s : Locks K) → Shrinks s (cleanup dec active s)
    unfolding cleanup
    cleanup-Shrinks s = all s.lanes s
      where
        all : (es : List (Entry K ℕ)) (u : Locks K) → Shrinks u (sweep_all dec active es u)
        all [] u = unfold sweep_all in (λ k l e. e)
        all (x ∷ es) u =
            unfold sweep_all in
            (λ k l e. sweep-Shrinks active x.key u k l (all es (sweep dec active x.key u) k l e))
