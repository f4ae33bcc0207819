-- ===== src/Router/Lane/Cleaning.antt =====
-- internal/router/lane.go: Cleanup and the invariant of the lanes.
use sclaw.Prelude.{
  ℕ, ◌≡◌, sym, subst, inl, inr, Bool, true, false, none, some, List, [], ◌∷◌, ◌==◌, get_elem?,
  arith, Bool-cases, Option-cases, get_some, get_elem?-modify_self,
}
use sclaw.Prelude.Dict.{Entry, delete, lookup}
use sclaw.Router.Lane.{Lane, Locks, on_lane, sweep, sweep_all}
use sclaw.Router.Lane.Invariant.{Inv, mark-Inv, delete-Inv}

module _ {K : Type 0} (dec : Discrete K) where
  module _ (active : K → Bool) (k : K) (s : Locks K) where
    pub sweep_unknown : lookup dec k s.lanes ≡ none → sweep dec active k s ≡ s
    unfolding sweep
    sweep_unknown e = rw (e, sweep)

    pub sweep_active :
        (l : ℕ)
        → lookup dec k s.lanes ≡ some l
        → active k ≡ true
        → sweep dec active k s ≡ on_lane l (λ x. record x { stale = false }) s
    unfolding sweep
    sweep_active l e a = rw (e, sweep) (rw a)

    pub sweep_free :
        (l : ℕ) (x : Lane)
        → lookup dec k s.lanes ≡ some l
        → active k ≡ false
        → get_elem? s.heap l ≡ some x
        → (x.refs == 0) ≡ true
        → let marked = on_lane l (λ y. record y { stale = true }) s in
          sweep dec active k s ≡ record marked { lanes = delete dec k marked.lanes }
    unfolding sweep
    sweep_free l x e a h z = rw (e, sweep) (rw a (rw (h, sweep) (rw z)))

    pub sweep_used :
        (l : ℕ) (x : Lane)
        → lookup dec k s.lanes ≡ some l
        → active k ≡ false
        → get_elem? s.heap l ≡ some x
        → (x.refs == 0) ≡ false
        → sweep dec active k s ≡ on_lane l (λ y. record y { stale = true }) s
    unfolding sweep
    sweep_used l x e a h z = rw (e, sweep) (rw a (rw (h, sweep) (rw z)))

    sweep-Inv : Inv dec s → Inv dec (sweep dec active k s)
    sweep-Inv v = elim (Option-cases (lookup dec k s.lanes)) [
      | inl e ↦ subst (Inv dec) (sym (sweep_unknown e)) v
      | inr (l, e) ↦ elim (Bool-cases (active k)) [
        | inl a ↦ subst (Inv dec) (sym (sweep_active l e a)) (mark-Inv dec l false s v)
        | inr a ↦
            let (x, has) = get_some s.heap l (v.placed k l e) in
            let marked = mark-Inv dec l true s v in
            elim (Bool-cases (x.refs == 0)) [
              | inl z ↦ subst (Inv dec) (sym (sweep_free l x e a has z)) (
                  delete-Inv dec k l (on_lane l (λ y. record y { stale = true }) s)
                    (record x { stale = true }) (unfold on_lane in e)
                    (unfold on_lane in
                      get_elem?-modify_self s.heap l (λ y. record y { stale = true }) has)
                    (ground arith) marked)
              | inr z ↦ subst (Inv dec) (sym (sweep_used l x e a has z)) marked
            ]
      ]
    ]

  pub sweep_all-Inv :
      (active : K → Bool) (es : List (Entry K ℕ)) (s : Locks K)
      → Inv dec s
      → Inv dec (sweep_all dec active es s)
  unfolding sweep_all
  sweep_all-Inv active [] s v = v
  sweep_all-Inv active (e ∷ es) s v =
      sweep_all-Inv active es (sweep dec active e.key s) (sweep-Inv active e.key s v)
