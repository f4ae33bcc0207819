-- ===== src/Router/Lane/Invariant.antt =====
-- What holds of the lanes between any two steps (internal/router/lane.go).
use sclaw.Prelude.{
  ℕ, ◌+◌, ◌<◌, ◌≡◌, ◌≢◌, refl, sym, ap, ◌∙◌, Bool, none, some, length, get_elem?, length-modify,
  total, total-modify, All, All-set, arith,
}
use sclaw.Prelude.Dict.{
  Dict, lookup, insert, delete, lookup-insert_ne, lookup-delete_ne, lookup-delete_self,
}
use sclaw.Router.Lane.{
  Lane, Pc, idle, waiting, inside, trying, backing, leaving, Locks, goto, on_lane,
}
use sclaw.Router.Lane.Measures.{
  refs_of, holds_of, Within, bit, move-exact, All-zero, All-with, same-exact,
}

module _ {K : Type 0} (dec : Discrete K) where
  -- A counted goroutine's lane is the one that the map holds for its key.
  abbrev pub Linked : Dict K ℕ → Pc K → Type 0
  Linked lanes (waiting k m) = lookup dec k lanes ≡ some m
  Linked lanes (inside k m) = lookup dec k lanes ≡ some m
  Linked lanes (trying k m) = lookup dec k lanes ≡ some m
  Linked lanes (backing k m) = lookup dec k lanes ≡ some m
  Linked lanes _ = Unit

  -- The refs of a lane are the goroutines that are counted in it, and its mutex is held by exactly
  -- one goroutine if it is locked and by none if not; one past the map part of Release still holds it
  -- and is not counted.
  pub record Inv (s : Locks K) : Type 0 where
    pub linked : All (Linked s.lanes) s.threads
    pub within : All (Within (length s.heap)) s.threads
    pub placed : (k : K) (l : ℕ) → lookup dec k s.lanes ≡ some l → l < length s.heap
    pub refs_exact :
        (l : ℕ) (x : Lane) → get_elem? s.heap l ≡ some x → x.refs ≡ total (refs_of l) s.threads
    pub held_exact :
        (l : ℕ) (x : Lane) → get_elem? s.heap l ≡ some x → bit x.held ≡ total (holds_of l) s.threads

  -- A goroutine moves from `p` to `q` while a lane that only it concerns is changed by `f`.
  pub move-Inv :
      (i : ℕ) (p q : Pc K) (l : ℕ) (f : Lane → Lane) (s : Locks K)
      → get_elem? s.threads i ≡ some p
      → Linked s.lanes q
      → Within (length s.heap) q
      → ((m : ℕ) → l ≢ m → (refs_of m p ≡ refs_of m q) × (holds_of m p ≡ holds_of m q))
      → ((x : Lane)
          → get_elem? s.heap l ≡ some x
          → ((f x).refs + refs_of l p ≡ x.refs + refs_of l q)
            × (bit (f x).held + holds_of l p ≡ bit x.held + holds_of l q))
      → Inv s
      → Inv (goto i q (on_lane l f s))
  unfolding goto on_lane
  move-Inv i p q l f s at link room elsewhere here v = record {
    linked = All-set (Linked s.lanes) s.threads i q link v.linked;
    within =
        rw (length-modify s.heap l f)
          (All-set (Within (length s.heap)) s.threads i q room v.within);
    placed = λ k m e. rw (length-modify s.heap l f) (v.placed k m e);
    refs_exact =
        move-exact (λ x. x.refs) refs_of s.heap s.threads i l p q f at (λ m n. (elsewhere m n).0)
          (λ x e. (here x e).0) v.refs_exact;
    held_exact =
        move-exact (λ x. bit x.held) holds_of s.heap s.threads i l p q f at
          (λ m n. (elsewhere m n).1) (λ x e. (here x e).1) v.held_exact;
  }

  -- A goroutine moves alone.
  pub goto-Inv :
      (i : ℕ) (p q : Pc K) (s : Locks K)
      → get_elem? s.threads i ≡ some p
      → Linked s.lanes q
      → Within (length s.heap) q
      → ((m : ℕ) → (refs_of m p ≡ refs_of m q) × (holds_of m p ≡ holds_of m q))
      → Inv s
      → Inv (goto i q s)
  unfolding goto
  goto-Inv i p q s at link room same v = record {
    linked = All-set (Linked s.lanes) s.threads i q link v.linked;
    within = All-set (Within (length s.heap)) s.threads i q room v.within;
    placed = v.placed;
    refs_exact = λ m x e.
        omega (arith, v.refs_exact m x e, total-modify (refs_of m) s.threads i q at, (same m).0);
    held_exact = λ m x e.
        omega (arith, v.held_exact m x e, total-modify (holds_of m) s.threads i q at, (same m).1);
  }

  -- Only the stale mark of a lane changes.
  pub mark-Inv :
      (l : ℕ) (b : Bool) (s : Locks K) → Inv s → Inv (on_lane l (λ x. record x { stale = b }) s)
  unfolding on_lane
  mark-Inv l b s v =
      let f = λ (x : Lane). let y : Lane = record x { stale = b } in y in
      record {
        linked = v.linked;
        within = rw (length-modify s.heap l f) v.within;
        placed = λ k m e. rw (length-modify s.heap l f) (v.placed k m e);
        refs_exact =
            same-exact (λ x. x.refs) (λ m. total (refs_of m) s.threads) s.heap l f (λ x. refl)
              v.refs_exact;
        held_exact =
            same-exact (λ x. bit x.held) (λ m. total (holds_of m) s.threads) s.heap l f (λ x. refl)
              v.held_exact;
      }

  delete_link :
      (k j : K) (l m : ℕ) (lanes : Dict K ℕ)
      → lookup dec k lanes ≡ some l
      → m ≢ l
      → lookup dec j lanes ≡ some m
      → lookup dec j (delete dec k lanes) ≡ some m
  delete_link k j l m lanes at other link = elim (dec j k) [
    | yes p ↦ absurd (other (ground (arith, ap (λ i. lookup dec i lanes) p)))
    | no p ↦ lookup-delete_ne dec k j lanes p ∙ link
  ]

  -- A goroutine that no lane `l` counts keeps its link when the key of `l` is deleted.
  delete-Linked :
      (k : K) (l : ℕ) (lanes : Dict K ℕ) (pc : Pc K)
      → lookup dec k lanes ≡ some l
      → refs_of l pc ≡ 0
      → Linked lanes pc
      → Linked (delete dec k lanes) pc
  delete-Linked k l lanes idle at free link = tt
  delete-Linked k l lanes (leaving m) at free link = tt
  delete-Linked k l lanes (waiting j m) at free link =
      delete_link k j l m lanes at (ground arith) link
  delete-Linked k l lanes (inside j m) at free link =
      delete_link k j l m lanes at (ground arith) link
  delete-Linked k l lanes (trying j m) at free link =
      delete_link k j l m lanes at (ground arith) link
  delete-Linked k l lanes (backing j m) at free link =
      delete_link k j l m lanes at (ground arith) link

  -- The key of a lane that counts nobody is deleted.
  pub delete-Inv :
      (k : K) (l : ℕ) (s : Locks K) (x : Lane)
      → lookup dec k s.lanes ≡ some l
      → get_elem? s.heap l ≡ some x
      → x.refs ≡ 0
      → Inv s
      → Inv (record s { lanes = delete dec k s.lanes })
  delete-Inv k l s x at has free v = record {
    linked =
        All-with (λ pc. refs_of l pc ≡ 0) (Linked s.lanes) (Linked (delete dec k s.lanes)) s.threads
          (λ pc. delete-Linked k l s.lanes pc at)
          (All-zero (refs_of l) s.threads (sym (v.refs_exact l x has) ∙ free)) v.linked;
    within = v.within;
    placed = λ j m e. elim (dec j k) [
      | yes p ↦ absurd (
          cc (lookup-delete_self dec k s.lanes, ap (λ i. lookup dec i (delete dec k s.lanes)) p, e))
      | no p ↦ v.placed j m (sym (lookup-delete_ne dec k j s.lanes p) ∙ e)
    ];
    refs_exact = v.refs_exact;
    held_exact = v.held_exact;
  }

  insert_link :
      (k j : K) (n m : ℕ) (lanes : Dict K ℕ)
      → lookup dec k lanes ≡ none
      → lookup dec j lanes ≡ some m
      → lookup dec j (insert dec k n lanes) ≡ some m
  insert_link k j n m lanes free link = elim (dec j k) [
    | yes p ↦ absurd (cc (ap (λ i. lookup dec i lanes) p))
    | no p ↦ lookup-insert_ne dec k j n lanes p ∙ link
  ]

  pub insert-Linked :
      (k : K) (n : ℕ) (lanes : Dict K ℕ) (pc : Pc K)
      → lookup dec k lanes ≡ none
      → Linked lanes pc
      → Linked (insert dec k n lanes) pc
  insert-Linked k n lanes idle free link = tt
  insert-Linked k n lanes (leaving m) free link = tt
  insert-Linked k n lanes (waiting j m) free link = insert_link k j n m lanes free link
  insert-Linked k n lanes (inside j m) free link = insert_link k j n m lanes free link
  insert-Linked k n lanes (trying j m) free link = insert_link k j n m lanes free link
  insert-Linked k n lanes (backing j m) free link = insert_link k j n m lanes free link
