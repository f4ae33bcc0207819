-- ===== src/Memory/Index.antt =====
-- internal/memory/store_mem.go: the facts and their index.
use native.Mathlib.Decide.{ℕ_discrete}
use sclaw.Prelude.{
  ℕ, zero, suc, ◌-◌, ◌≤◌, ◌<◌, ◌≡◌, ◌≢◌, refl, sym, ap, ◌∙◌, subst, ◌⊎◌, inl, inr, String,
  String-discrete, ◌==◌, Option, none, some, List, [], ◌∷◌, ◌++◌, ltb, length, get_elem?, modify,
  take, get_elem?-modify_ne, get_elem?-modify_self, get_elem?-append_cases, get_elem?-append_left,
  get_elem?-append_at, get_elem?-lt, get_some, arith, Bool-cases, Option-cases,
  get_elem?-modify_cases,
}
use sclaw.Prelude.Dict.{
  Dict, lookup, insert, delete, lookup-insert_self, lookup-insert_ne, lookup-delete_self,
  lookup-delete_ne,
}
use sclaw.Memory.{Fact, InMemoryStore, new_store, index_fact, delete_fact, swap_delete}

-- The index has exactly the positions of the facts.
pub record Indexed (s : InMemoryStore) : Type 0 where
  pub sound :
      (k : String) (i : ℕ)
      → lookup String-discrete k s.index ≡ some i
      → (f : Fact) × (get_elem? s.facts i ≡ some f) × (f.id ≡ k)
  pub whole :
      (i : ℕ) (f : Fact)
      → get_elem? s.facts i ≡ some f
      → lookup String-discrete f.id s.index ≡ some i

-- The fact of an id, by the index.
abbrev pub fact_at : String → InMemoryStore → Option Fact
fact_at k s = elim (lookup String-discrete k s.index) [ none ↦ none | some i ↦ get_elem? s.facts i ]

get_elem?-take : (n i : ℕ) (xs : List Fact) → i < n → get_elem? (take n xs) i ≡ get_elem? xs i
get_elem?-take zero i xs h = absurd (omega (arith, h))
get_elem?-take (suc n) i [] h = refl
get_elem?-take (suc n) zero (x ∷ xs) h = refl
get_elem?-take (suc n) (suc i) (x ∷ xs) h = get_elem?-take n i xs (omega (arith, h))

get_elem?-take_ge : (n i : ℕ) (xs : List Fact) → n ≤ i → get_elem? (take n xs) i ≡ none
get_elem?-take_ge zero i xs h = refl
get_elem?-take_ge (suc n) i [] h = refl
get_elem?-take_ge (suc n) zero (x ∷ xs) h = absurd (omega (arith, h))
get_elem?-take_ge (suc n) (suc i) (x ∷ xs) h = get_elem?-take_ge n i xs (omega (arith, h))

-- A fact that is new to the index.
append-Indexed :
    (f : Fact) (facts : List Fact) (index : Dict String ℕ)
    → lookup String-discrete f.id index ≡ none
    → Indexed (record { facts = facts; index = index })
    → Indexed (record {
      facts = facts ++ f ∷ [];
      index = insert String-discrete f.id (length facts) index;
    })
append-Indexed f facts index new v = record {
  sound = λ k i e. elim (String-discrete k f.id) [
    | yes q ↦
        let at : i ≡ length facts =
          cc (q, e, lookup-insert_self String-discrete f.id (length facts) index) in
        (f, ap (get_elem? (facts ++ f ∷ [])) at ∙ get_elem?-append_at facts f, sym q)
    | no n ↦
        let (g, has, named) =
          v.sound k i (sym (lookup-insert_ne String-discrete f.id k (length facts) index n) ∙ e) in
        (g, get_elem?-append_left facts (f ∷ []) i (get_elem?-lt facts i has) ∙ has, named)
  ];
  whole = λ i g e. elim (get_elem?-append_cases facts f i e) [
    | inl old ↦
        lookup-insert_ne String-discrete f.id g.id (length facts) index
          (λ q. unknown i g q (v.whole i g old))
        ∙ v.whole i g old
    | inr (at, is) ↦
        ap
          (λ (x : Fact).
            lookup String-discrete x.id (insert String-discrete f.id (length facts) index))
          is
        ∙ lookup-insert_self String-discrete f.id (length facts) index
        ∙ ap some (sym at)
  ];
}
  where
    unknown : (i : ℕ) (g : Fact) → g.id ≡ f.id → lookup String-discrete g.id index ≡ some i → ⊥
    unknown i g q e = cc (q, e, new)

-- A fact in the place of one with its id.
update-Indexed :
    (f : Fact) (i : ℕ) (facts : List Fact) (index : Dict String ℕ)
    → lookup String-discrete f.id index ≡ some i
    → Indexed (record { facts = facts; index = index })
    → Indexed (record { facts = modify facts i (λ _. f); index = index })
update-Indexed f i facts index at v = record {
  sound = λ k j e. elim (ℕ_discrete i j) [
    | yes q ↦
        let (g, has, named) = v.sound k j e in
        let (h, has_i, named_i) = v.sound f.id i at in
        let same : g ≡ h = cc (has, has_i, q) in
        (
          f,
          subst (λ l. get_elem? (modify facts i (λ _. f)) l ≡ some f) q
              (get_elem?-modify_self facts i (λ _. f) has_i),
          sym named_i ∙ ap (λ (x : Fact). x.id) (sym same) ∙ named,
        )
    | no n ↦
        let (g, has, named) = v.sound k j e in
        (g, get_elem?-modify_ne facts i j (λ _. f) n ∙ has, named)
  ];
  whole = λ j g e. elim (get_elem?-modify_cases facts i j (λ _. f) e) [
    | inl (n, old) ↦ v.whole j g old
    | inr (q, (x, old, is)) ↦
        ap (λ (y : Fact). lookup String-discrete y.id index) is ∙ at ∙ ap some q
  ];
}

-- A fact that a list holds.
abbrev pub Holds : List Fact → Fact → Type 0
Holds facts g = (j : ℕ) × (get_elem? facts j ≡ some g)

module _ (id : String) (i last : ℕ) (f : Fact) (s : InMemoryStore) (v : Indexed s)
    (at : lookup String-discrete id s.index ≡ some i) (end : get_elem? s.facts last ≡ some f)
    (long : length s.facts ≡ suc last) where
  -- Only the fact at `i` has the deleted id.
  here_only : (j : ℕ) (g : Fact) → get_elem? s.facts j ≡ some g → g.id ≡ id → j ≡ i
  here_only j g has q = cc (v.whole j g has, at, q)

  below : (j : ℕ) (g : Fact) → get_elem? s.facts j ≡ some g → j ≢ last → j < last
  below j g has n = omega (arith, get_elem?-lt s.facts j has, long, n)

  gone :
      (k : String) (j : ℕ) (m : Dict String ℕ)
      → k ≡ id
      → lookup String-discrete k (delete String-discrete id m) ≡ some j
      → ⊥
  gone k j m q e = cc (q, e, lookup-delete_self String-discrete id m)

  past : (xs : List Fact) (j : ℕ) (g : Fact) → last ≤ j → get_elem? (take last xs) j ≡ some g → ⊥
  past xs j g h e = cc (e, get_elem?-take_ge last j xs h)

  in_take : (xs : List Fact) (j : ℕ) (g : Fact) → get_elem? (take last xs) j ≡ some g → j < last
  in_take xs j g e = elim (Bool-cases (ltb j last)) [
    | inl b ↦ ground (arith, b)
    | inr b ↦ absurd (past xs j g (ground (arith, b)) e)
  ]

  last-Indexed :
      i ≡ last
      → Indexed (record { facts = take last s.facts; index = delete String-discrete id s.index })
  last-Indexed same = record {
    sound = λ k j e. elim (String-discrete k id) [
      | yes q ↦ absurd (gone k j s.index q e)
      | no n ↦
          let (g, has, named) =
            v.sound k j (sym (lookup-delete_ne String-discrete id k s.index n) ∙ e) in
          let (h, has_i, named_i) = v.sound id i at in
          (
            g,
            get_elem?-take last j s.facts
                  (below j g has (λ q. n (sym named ∙ other j g h q has has_i named_i)))
                ∙ has,
            named,
          )
    ];
    whole = λ j g e.
        let inside = in_take s.facts j g e in
        let has : get_elem? s.facts j ≡ some g = sym (get_elem?-take last j s.facts inside) ∙ e in
        lookup-delete_ne String-discrete id g.id s.index
          (λ q. absurd (omega (arith, inside, here_only j g has q, same)))
        ∙ v.whole j g has;
  }
    where
      other :
          (j : ℕ) (g h : Fact)
          → j ≡ last
          → get_elem? s.facts j ≡ some g
          → get_elem? s.facts i ≡ some h
          → h.id ≡ id
          → g.id ≡ id
      other j g h q has has_i named_i =
          let gh : g ≡ h = cc (has, has_i, q, same) in ap (λ (x : Fact). x.id) gh ∙ named_i

  swap-Indexed :
      i ≢ last
      → Indexed (record {
        facts = take last (modify s.facts i (λ _. f));
        index = delete String-discrete id (insert String-discrete f.id i s.index);
      })
  swap-Indexed differ = record {
    sound = λ k j e. elim (String-discrete k id) [
      | yes q ↦ absurd (gone k j (insert String-discrete f.id i s.index) q e)
      | no n ↦
          let e1 : lookup String-discrete k (insert String-discrete f.id i s.index) ≡ some j =
            sym (lookup-delete_ne String-discrete id k (insert String-discrete f.id i s.index) n)
            ∙ e in
          elim (String-discrete k f.id) [
            | yes q ↦
                (f, moved j (cc (q, e1, lookup-insert_self String-discrete f.id i s.index)), sym q)
            | no m ↦
                let (g, has, named) =
                  v.sound k j (sym (lookup-insert_ne String-discrete f.id k i s.index m) ∙ e1) in
                (
                  g,
                  get_elem?-take last j (modify s.facts i (λ _. f))
                        (below j g has (λ q. m (sym named ∙ is_last j g q has)))
                      ∙ get_elem?-modify_ne s.facts i j (λ _. f)
                          (λ q. n (sym named ∙ is_id j g q has))
                      ∙ has,
                  named,
                )
          ]
    ];
    whole = λ j g e.
        let inside = in_take (modify s.facts i (λ _. f)) j g e in
        let has : get_elem? (modify s.facts i (λ _. f)) j ≡ some g =
          sym (get_elem?-take last j (modify s.facts i (λ _. f)) inside) ∙ e in
        elim (get_elem?-modify_cases s.facts i j (λ _. f) has) [
          | inl (n, old) ↦
              lookup-delete_ne String-discrete id g.id (insert String-discrete f.id i s.index)
                (λ q. n (sym (here_only j g old q)))
              ∙ lookup-insert_ne String-discrete f.id g.id i s.index
                  (λ q. absurd (omega (arith, inside, at_last j g old q)))
              ∙ v.whole j g old
          | inr (q, (x, old, is)) ↦
              ap
                (λ (y : Fact).
                  lookup String-discrete y.id
                    (delete String-discrete id (insert String-discrete f.id i s.index)))
                is
              ∙ lookup-delete_ne String-discrete id f.id (insert String-discrete f.id i s.index)
                  (λ p. differ (sym (here_only last f end p)))
              ∙ lookup-insert_self String-discrete f.id i s.index
              ∙ ap some q
        ];
  }
    where
      small : i < last
      small = let (h, has_i, named_i) = v.sound id i at in below i h has_i differ

      moved : (j : ℕ) → j ≡ i → get_elem? (take last (modify s.facts i (λ _. f))) j ≡ some f
      moved j q =
          let (h, has_i, named_i) = v.sound id i at in
          ap (get_elem? (take last (modify s.facts i (λ _. f)))) q
          ∙ get_elem?-take last i (modify s.facts i (λ _. f)) small
          ∙ get_elem?-modify_self s.facts i (λ _. f) has_i

      is_last : (j : ℕ) (g : Fact) → j ≡ last → get_elem? s.facts j ≡ some g → g.id ≡ f.id
      is_last j g q has = let gf : g ≡ f = cc (has, end, q) in ap (λ (x : Fact). x.id) gf

      is_id : (j : ℕ) (g : Fact) → i ≡ j → get_elem? s.facts j ≡ some g → g.id ≡ id
      is_id j g q has =
          let (h, has_i, named_i) = v.sound id i at in
          let gh : g ≡ h = cc (has, has_i, q) in ap (λ (x : Fact). x.id) gh ∙ named_i

      at_last : (j : ℕ) (g : Fact) → get_elem? s.facts j ≡ some g → g.id ≡ f.id → j ≡ last
      at_last j g has q = cc (v.whole j g has, v.whole last f end, q)

  swap_delete-Indexed : Indexed (swap_delete id i last f s)
  unfolding swap_delete
  swap_delete-Indexed = elim (Bool-cases (i == last)) [
    | inl b ↦ rw b (last-Indexed (ground (arith, b)))
    | inr b ↦ rw b (swap-Indexed (λ e. absurd (ground (arith, b, e))))
  ]

  held_last :
      i ≡ last
      → (g : Fact)
      → (Holds (take last s.facts) g → Holds s.facts g × (g.id ≢ id))
        × (Holds s.facts g → g.id ≢ id → Holds (take last s.facts) g)
  held_last same g = (
    λ (j, e).
        let inside = in_take s.facts j g e in
        let has : get_elem? s.facts j ≡ some g = sym (get_elem?-take last j s.facts inside) ∙ e in
        ((j, has), λ q. absurd (omega (arith, inside, same, here_only j g has q))),
    λ (j, has) n. (
      j,
      get_elem?-take last j s.facts (below j g has (λ q. n (named_id j g (q ∙ sym same) has)))
          ∙ has,
    ),
  )
    where
      named_id : (j : ℕ) (g : Fact) → j ≡ i → get_elem? s.facts j ≡ some g → g.id ≡ id
      named_id j g q has =
          let (h, has_i, named_i) = v.sound id i at in
          let gh : g ≡ h = cc (has, has_i, q) in ap (λ (x : Fact). x.id) gh ∙ named_i

  held_swap :
      i ≢ last
      → (g : Fact)
      → (Holds (take last (modify s.facts i (λ _. f))) g → Holds s.facts g × (g.id ≢ id))
        × (Holds s.facts g → g.id ≢ id → Holds (take last (modify s.facts i (λ _. f))) g)
  held_swap differ g = (
    λ (j, e).
        let inside = in_take (modify s.facts i (λ _. f)) j g e in
        let has : get_elem? (modify s.facts i (λ _. f)) j ≡ some g =
          sym (get_elem?-take last j (modify s.facts i (λ _. f)) inside) ∙ e in
        elim (get_elem?-modify_cases s.facts i j (λ _. f) has) [
          | inl (n, old) ↦ ((j, old), λ q. n (sym (here_only j g old q)))
          | inr (q, (x, old, is)) ↦ (
            (last, end ∙ ap some (sym is)),
            λ p. differ (sym (here_only last g (end ∙ ap some (sym is)) p)),
          )
        ],
    λ (j, has) n. elim (ℕ_discrete j last) [
      | yes q ↦ (i, top j g q has)
      | no m ↦ (
        j,
        get_elem?-take last j (modify s.facts i (λ _. f)) (below j g has m)
            ∙ get_elem?-modify_ne s.facts i j (λ _. f) (λ q. n (named_id j g (sym q) has))
            ∙ has,
      )
    ],
  )
    where
      named_id : (j : ℕ) (g : Fact) → j ≡ i → get_elem? s.facts j ≡ some g → g.id ≡ id
      named_id j g q has =
          let (h, has_i, named_i) = v.sound id i at in
          let gh : g ≡ h = cc (has, has_i, q) in ap (λ (x : Fact). x.id) gh ∙ named_i

      top :
          (j : ℕ) (g : Fact)
          → j ≡ last
          → get_elem? s.facts j ≡ some g
          → get_elem? (take last (modify s.facts i (λ _. f))) i ≡ some g
      top j g q has =
          let (h, has_i, named_i) = v.sound id i at in
          let fg : f ≡ g = cc (has, end, q) in
          get_elem?-take last i (modify s.facts i (λ _. f)) (below i h has_i differ)
          ∙ get_elem?-modify_self s.facts i (λ _. f) has_i
          ∙ ap some fg

  -- What the deletion of an indexed fact leaves.
  swap_delete-Holds :
      (g : Fact)
      → (Holds (swap_delete id i last f s).facts g → Holds s.facts g × (g.id ≢ id))
        × (Holds s.facts g → g.id ≢ id → Holds (swap_delete id i last f s).facts g)
  unfolding swap_delete
  swap_delete-Holds g = elim (Bool-cases (i == last)) [
    | inl b ↦ rw b (held_last (ground (arith, b)) g)
    | inr b ↦ rw b (held_swap (λ e. absurd (ground (arith, b, e))) g)
  ]

index_fact-Indexed : (f : Fact) (s : InMemoryStore) → Indexed s → Indexed (index_fact f s)
unfolding index_fact
index_fact-Indexed f s v = elim (Option-cases (lookup String-discrete f.id s.index)) [
  | inl e ↦ rw (e, index_fact) (append-Indexed f s.facts s.index e v)
  | inr (i, e) ↦ rw (e, index_fact) (update-Indexed f i s.facts s.index e v)
]

delete_fact-Indexed :
    (id : String) (s : InMemoryStore)
    → Indexed s
    → ((delete_fact id s ≡ none) × ((g : Fact) → Holds s.facts g → g.id ≢ id))
      ⊎ ((t : InMemoryStore) × (delete_fact id s ≡ some t)
          × Indexed t
          × ((g : Fact)
              → (Holds t.facts g → Holds s.facts g × (g.id ≢ id))
                × (Holds s.facts g → g.id ≢ id → Holds t.facts g)))
unfolding delete_fact
delete_fact-Indexed id s v = elim (Option-cases (lookup String-discrete id s.index)) [
  | inl e ↦ rw (e, delete_fact) (inl (refl, λ g (j, has) q. unknown e g j (v.whole j g has) q))
  | inr (i, e) ↦
      let (h, has, named) = v.sound id i e in
      let some_there : length s.facts ≡ suc (length s.facts - 1) =
        omega (arith, get_elem?-lt s.facts i has) in
      let (f, end) =
        get_some s.facts (length s.facts - 1) (omega (arith, get_elem?-lt s.facts i has)) in
      rw (e, delete_fact)
        (rw (end, delete_fact)
          (inr (
            swap_delete id i (length s.facts - 1) f s,
            refl,
            swap_delete-Indexed id i (length s.facts - 1) f s v e end some_there,
            swap_delete-Holds id i (length s.facts - 1) f s v e end some_there,
          )))
]
  where
    unknown :
        lookup String-discrete id s.index ≡ none
        → (g : Fact) (j : ℕ) → lookup String-discrete g.id s.index ≡ some j
        → g.id ≡ id
        → ⊥
    unknown e g j w q = cc (e, w, q)

-- A store whose index has exactly the positions of its facts keeps this under Index and Delete.
-- Delete fails exactly for an id that no fact has; otherwise it removes the fact of that id and
-- keeps every other, though it moves the last one into the gap.
pub store-Indexed :
    (s : InMemoryStore)
    → Indexed s
    → ((f : Fact) → Indexed (index_fact f s))
      × ((id : String)
          → ((delete_fact id s ≡ none) × ((g : Fact) → Holds s.facts g → g.id ≢ id))
            ⊎ ((t : InMemoryStore) × (delete_fact id s ≡ some t)
                × Indexed t
                × ((g : Fact)
                    → (Holds t.facts g → Holds s.facts g × (g.id ≢ id))
                      × (Holds s.facts g → g.id ≢ id → Holds t.facts g))))
store-Indexed s v = (λ f. index_fact-Indexed f s v, λ id. delete_fact-Indexed id s v)

-- A new store is so.
pub new_store-Indexed : Indexed new_store
unfolding lookup
new_store-Indexed = record { sound = λ k i e. cc; whole = λ i f e. cc }
