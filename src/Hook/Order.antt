-- ===== src/Hook/Order.antt =====
-- internal/hook/pipeline.go: the order of the hooks.
use sclaw.Prelude.{
  ℕ, ◌+◌, ◌≡◌, refl, sym, ap, ◌∙◌, inl, inr, true, false, List, [], ◌∷◌, ◌++◌, ◌||◌, ltb,
  if◌then◌else◌, All, is_yes, All-weaken, All-append, total, total-append, arith, Bool, Bool-cases,
}
use sclaw.Hook.{
  Position, same_position, Hook, Pipeline, new_pipeline, precedes, insert_hook, sort_onto,
  sort_stable, ranked, register,
}
use sclaw.Hook.Priorities.{ltz, ltz_trans, ltz_asym, IsSmall, compared}

module _ {H W : Type 0} (hook : Hook H W) where
  -- `a` is to run before `b`: its priority is lower, or the same and its rank is lower.
  abbrev pub earlier : (H → ℕ) → H → H → Bool
  earlier rank a b =
      ltz (hook.priority a) (hook.priority b)
      || (if ltz (hook.priority b) (hook.priority a) then false else ltb (rank a) (rank b))

  -- In order: no hook stands before one that is to run earlier.
  abbrev pub Ordered : (H → ℕ) → List H → Type 0
  Ordered rank [] = Unit
  Ordered rank (h ∷ hs) = All (λ k. earlier rank k h ≡ false) hs × Ordered rank hs

  -- The priorities are far from the ends of int.
  abbrev pub Small : List H → Type 0
  Small hs = All (λ h. IsSmall (hook.priority h)) hs

  precedes-eq :
      (rank : H → ℕ) (a b : H)
      → IsSmall (hook.priority a)
      → IsSmall (hook.priority b)
      → precedes hook rank a b ≡ earlier rank a b
  precedes-eq rank a b p q =
      compared (hook.priority a) (hook.priority b) (ltb (rank a) (rank b)) p q

  earlier_asym : (rank : H → ℕ) (a b : H) → earlier rank a b ≡ true → earlier rank b a ≡ false
  earlier_asym rank a b h = ground (arith, h, ltz_asym (hook.priority a) (hook.priority b))

  earlier_trans :
      (rank : H → ℕ) (a b c : H)
      → earlier rank b a ≡ false
      → earlier rank c b ≡ false
      → earlier rank c a ≡ false
  earlier_trans rank a b c h k = ground (
    arith,
    h,
    k,
    ltz_trans (hook.priority a) (hook.priority b) (hook.priority c),
    ltz_trans (hook.priority c) (hook.priority b) (hook.priority a),
  )

  All-insert_hook :
      (P : H → Type 0) (rank : H → ℕ) (h : H) (ks : List H)
      → P h
      → All P ks
      → All P (insert_hook hook rank h ks)
  unfolding insert_hook
  All-insert_hook P rank h [] p a = (p, tt)
  All-insert_hook P rank h (k ∷ ks) p a = elim (Bool-cases (precedes hook rank h k)) [
    | inl b ↦ rw (b, insert_hook) (p, a)
    | inr b ↦ rw (b, insert_hook) (a.0, All-insert_hook P rank h ks p a.1)
  ]

  All-sort_onto :
      (P : H → Type 0) (rank : H → ℕ) (sorted hs : List H)
      → All P sorted
      → All P hs
      → All P (sort_onto hook rank sorted hs)
  unfolding sort_onto
  All-sort_onto P rank sorted [] a b = a
  All-sort_onto P rank sorted (h ∷ hs) a b =
      All-sort_onto P rank (insert_hook hook rank h sorted) hs
        (All-insert_hook P rank h sorted b.0 a) b.1

  insert_hook-Ordered :
      (rank : H → ℕ) (h : H) (ks : List H)
      → IsSmall (hook.priority h)
      → Small ks
      → Ordered rank ks
      → Ordered rank (insert_hook hook rank h ks)
  unfolding insert_hook
  insert_hook-Ordered rank h [] p s o = (tt, tt)
  insert_hook-Ordered rank h (k ∷ ks) p s o = elim (Bool-cases (precedes hook rank h k)) [
    | inl b ↦
        let later = earlier_asym rank h k (sym (precedes-eq rank h k p s.0) ∙ b) in
        rw (b, insert_hook)
          (
            (
              later,
              All-weaken (λ x. earlier rank x k ≡ false) (λ x. earlier rank x h ≡ false) ks
                  (λ x e. earlier_trans rank h k x later e) o.0,
            ),
            o,
          )
    | inr b ↦
        rw (b, insert_hook)
          (
            All-insert_hook (λ x. earlier rank x k ≡ false) rank h ks
                (sym (precedes-eq rank h k p s.0) ∙ b) o.0,
            insert_hook-Ordered rank h ks p s.1 o.1,
          )
  ]

  sort_onto-Ordered :
      (rank : H → ℕ) (sorted hs : List H)
      → Small sorted
      → Small hs
      → Ordered rank sorted
      → Ordered rank (sort_onto hook rank sorted hs)
  unfolding sort_onto
  sort_onto-Ordered rank sorted [] p q o = o
  sort_onto-Ordered rank sorted (h ∷ hs) p q o =
      sort_onto-Ordered rank (insert_hook hook rank h sorted) hs
        (All-insert_hook (λ k. IsSmall (hook.priority k)) rank h sorted q.0 p) q.1
        (insert_hook-Ordered rank h sorted q.0 p o)

  total-insert_hook :
      (t : H → ℕ) (rank : H → ℕ) (h : H) (ks : List H)
      → total t (insert_hook hook rank h ks) ≡ t h + total t ks
  unfolding insert_hook
  total-insert_hook t rank h [] = refl
  total-insert_hook t rank h (k ∷ ks) = elim (Bool-cases (precedes hook rank h k)) [
    | inl b ↦ rw (b, insert_hook) refl
    | inr b ↦ rw (b, insert_hook) (omega (arith, total-insert_hook t rank h ks))
  ]

  total-sort_onto :
      (t : H → ℕ) (rank : H → ℕ) (sorted hs : List H)
      → total t (sort_onto hook rank sorted hs) ≡ total t sorted + total t hs
  unfolding sort_onto
  total-sort_onto t rank sorted [] = omega arith
  total-sort_onto t rank sorted (h ∷ hs) = omega (
    arith,
    total-sort_onto t rank (insert_hook hook rank h sorted) hs,
    total-insert_hook t rank h sorted,
  )

  -- An order by ranks is one by other ranks that agree on its hooks.
  Ordered-same : (r q : H → ℕ) (hs : List H) → All (λ k. r k ≡ q k) hs → Ordered r hs → Ordered q hs
  Ordered-same r q [] a o = tt
  Ordered-same r q (h ∷ hs) a o = (firsts hs a.1 o.0, Ordered-same r q hs a.1 o.1)
    where
      firsts :
          (ks : List H)
          → All (λ k. r k ≡ q k) ks
          → All (λ k. earlier r k h ≡ false) ks
          → All (λ k. earlier q k h ≡ false) ks
      firsts [] b u = tt
      firsts (k ∷ ks) b u = (ground (arith, b.0, a.0, u.0), firsts ks b.1 u.1)

  module _ (dec : Discrete H) where
    -- Hooks registered one after the other.
    unfoldable pub register_all : List H → Pipeline H → Pipeline H
    register_all [] p = p
    register_all (h ∷ hs) p = register_all hs (register hook dec h p)

    -- The hooks of a position, in the order of the list.
    unfoldable pub at_position : Position → List H → List H
    at_position position [] = []
    at_position position (h ∷ hs) =
        let rest = at_position position hs in
        if same_position position (hook.position h) then h ∷ rest else rest

    -- The place of the last registration of a hook, from `n` on, or else `before`.
    unfoldable pub last_place : ℕ → ℕ → H → List H → ℕ
    last_place before n h [] = before
    last_place before n h (k ∷ ks) =
        last_place (if is_yes (dec h k) then n else before) (n + 1) h ks

    -- The hooks of a position are of that position, small, and in order.
    Sorted : Pipeline H → Position → Type 0
    Sorted p position =
        All (λ k. same_position position (hook.position k) ≡ true) (p.hooks position)
        × Small (p.hooks position)
        × Ordered p.order (p.hooks position)

    untouched :
        (h : H) (p : Pipeline H) (position : Position) (ks : List H)
        → same_position position (hook.position h) ≡ false
        → All (λ k. same_position position (hook.position k) ≡ true) ks
        → All (λ k. p.order k ≡ ranked hook dec h p k) ks
    untouched h p position [] n a = tt
    untouched h p position (k ∷ ks) n a = (same (dec k h), untouched h p position ks n a.1)
      where
        same : (d : Dec (k ≡ h)) → p.order k ≡ (if is_yes d then p.seq else p.order k)
        same (yes e) = absurd (cc (a.0, n, ap (λ x. same_position position (hook.position x)) e))
        same (no e) = refl

    register-Sorted :
        (h : H) (p : Pipeline H) (position : Position)
        → IsSmall (hook.priority h)
        → Sorted p position
        → Sorted (register hook dec h p) position
    unfolding register sort_stable Sorted
    register-Sorted h p position s (a, m, o) =
        elim (Bool-cases (same_position position (hook.position h))) [
          | inl b ↦ rw b (
            All-sort_onto (λ k. same_position position (hook.position k) ≡ true)
                (ranked hook dec h p) [] (p.hooks position ++ h ∷ []) tt
                (All-append (λ k. same_position position (hook.position k) ≡ true)
                  (p.hooks position) (h ∷ []) a (b, tt)),
            All-sort_onto (λ k. IsSmall (hook.priority k)) (ranked hook dec h p) []
                (p.hooks position ++ h ∷ []) tt
                (All-append (λ k. IsSmall (hook.priority k)) (p.hooks position) (h ∷ []) m (s, tt)),
            sort_onto-Ordered (ranked hook dec h p) [] (p.hooks position ++ h ∷ []) tt
                (All-append (λ k. IsSmall (hook.priority k)) (p.hooks position) (h ∷ []) m (s, tt))
                tt,
          )
          | inr b ↦ rw b (
            a,
            m,
            Ordered-same p.order (ranked hook dec h p) (p.hooks position)
                (untouched h p position (p.hooks position) b a) o,
          )
        ]

    register-total :
        (t : H → ℕ) (h : H) (hs : List H) (p : Pipeline H) (position : Position)
        → total t ((register hook dec h p).hooks position) + total t (at_position position hs)
          ≡ total t (p.hooks position) + total t (at_position position (h ∷ hs))
    unfolding register sort_stable at_position
    register-total t h hs p position =
        elim (Bool-cases (same_position position (hook.position h))) [
          | inl b ↦ rw b (
              omega (
                arith,
                total-sort_onto t (ranked hook dec h p) [] (p.hooks position ++ h ∷ []),
                total-append t (p.hooks position) (h ∷ []),
              ))
          | inr b ↦ rw b refl
        ]

    register_all-from :
        (hs : List H) (p : Pipeline H) (position : Position)
        → Small hs
        → Sorted p position
        → Sorted (register_all hs p) position
          × ((h : H) → (register_all hs p).order h ≡ last_place (p.order h) p.seq h hs)
          × ((t : H → ℕ)
              → total t ((register_all hs p).hooks position)
                ≡ total t (p.hooks position) + total t (at_position position hs))
    unfolding register_all last_place at_position register
    register_all-from [] p position s v = (v, (λ h. refl), λ t. omega arith)
    register_all-from (h ∷ hs) p position s v =
        let (w, ranks, same) =
          register_all-from hs (register hook dec h p) position s.1
            (register-Sorted h p position s.0 v) in
        (w, ranks, λ t. same t ∙ register-total t h hs p position)

    -- After any registrations of hooks whose priorities are from -2^62 to 2^62 - 1, each position
    -- holds exactly its hooks, each as often as it was registered (every measure of them agrees), by
    -- ascending priority, and hooks of one priority by the place of their last registration.
    pub register_all-Ordered :
        (hs : List H) (position : Position)
        → Small hs
        → Ordered (λ h. last_place 0 0 h hs) ((register_all hs new_pipeline).hooks position)
          × ((t : H → ℕ)
              → total t ((register_all hs new_pipeline).hooks position)
                ≡ total t (at_position position hs))
    unfolding Sorted
    register_all-Ordered hs position s =
        let (v, ranks, same) =
          register_all-from hs new_pipeline position s (unfold Sorted in (tt, tt, tt)) in
        (
          Ordered-same (register_all hs new_pipeline).order (λ h. last_place 0 0 h hs)
              ((register_all hs new_pipeline).hooks position)
              (all ranks ((register_all hs new_pipeline).hooks position)) (v.2),
          λ t. omega (arith, same t),
        )
      where
        all : {P : H → Type 0} → ((h : H) → P h) → (ks : List H) → All P ks
        all f [] = tt
        all f (k ∷ ks) = (f k, all f ks)
