-- ===== src/Security/RateLimit/Window.antt =====
-- internal/security/ratelimit.go: calls on one bucket.
use mathlib.Core.List.{append_assoc}
use mathlib.Core.Path.{subst₂}
use sclaw.Prelude.{
  ℕ, ◌+◌, ◌-◌, ◌≤◌, ◌<◌, ◌≡◌, refl, sym, ap, ◌∙◌, true, false, ◌&&◌, List, [], ◌∷◌, ◌++◌, ltb, leb,
  if◌then◌else◌, subst, Bool-cases, inl, inr, length, length-replicate, replicate, All, All-append,
  arith,
}
use sclaw.Security.RateLimit.{Bucket, drop_before, evict, allow_bucket, allow_n_bucket}
use sclaw.Security.RateLimit.Eviction.{
  count_between, count_between-append, count_between-le-length, count_between_old,
  count_between-replicate_out, dropped, dropped-append-drop_before, All-dropped, Ascending, since,
  drop_before-eq-since,
}

pub record Call : Type 0 where
  pub at : ℕ
  pub tokens : ℕ

-- The calls on one bucket in turn; `passed` collects a time for each token that was let through.
unfoldable pub serve_calls : List Call → Bucket → List ℕ → Bucket × List ℕ
serve_calls [] b passed = (b, passed)
serve_calls (c ∷ cs) b passed =
    let (b', admitted) = allow_n_bucket c.at c.tokens b in
    serve_calls cs b' (if admitted then passed ++ replicate c.tokens c.at else passed)

-- The clock does not run backwards, from a last reading on.
abbrev pub FromOn : ℕ → List Call → Type 0
FromOn now [] = Unit
FromOn now (c ∷ cs) = (now ≤ c.at) × FromOn c.at cs

-- The history of a bucket: what was let through, with the part that was evicted in front.
record Bounded (now : ℕ) (b : Bucket) (passed : List ℕ) : Type 0 where
  old : List ℕ
  split : passed ≡ old ++ b.events
  gone : All (λ e. e < now - b.window) old
  bounded : (from : ℕ) → count_between from (from + b.window) passed ≤ b.limit

All-lt_mono : (a b : ℕ) (xs : List ℕ) → a ≤ b → All (λ e. e < a) xs → All (λ e. e < b) xs
All-lt_mono a b [] h k = tt
All-lt_mono a b (x ∷ xs) h k = (omega arith, All-lt_mono a b xs h k.1)

-- The history after an eviction.
evict-Bounded :
    (now later : ℕ) (b : Bucket) (passed : List ℕ)
    → now ≤ later
    → Bounded now b passed
    → Bounded later (evict later b) passed
unfolding evict
evict-Bounded now later b passed le v =
    let cutoff = later - b.window in
    record {
      old = v.old ++ dropped cutoff b.events;
      split =
          v.split
          ∙ ap (λ es. v.old ++ es) (sym (dropped-append-drop_before cutoff b.events))
          ∙ sym (append_assoc v.old (dropped cutoff b.events) (drop_before cutoff b.events));
      gone =
          All-append (λ e. e < cutoff) v.old (dropped cutoff b.events)
            (All-lt_mono (now - b.window) cutoff v.old (omega arith) v.gone)
            (All-dropped cutoff b.events);
      bounded = v.bounded;
    }

-- The step of the bound: `n` more events at `now` after an eviction.
count_admitted :
    (now n from : ℕ) (b : Bucket) (passed : List ℕ)
    → Bounded now b passed
    → length b.events + n ≤ b.limit
    → count_between from (from + b.window) (passed ++ replicate n now) ≤ b.limit
count_admitted now n from b passed v fits =
    elim (Bool-cases (leb from now && leb now (from + b.window))) [
      | inl near ↦ omega (
        arith,
        count_between-append from (from + b.window) passed (replicate n now),
        count_between-le-length from (from + b.window) (replicate n now),
        length-replicate n now,
        ap (count_between from (from + b.window)) v.split,
        count_between-append from (from + b.window) v.old b.events,
        count_between-le-length from (from + b.window) b.events,
        count_between_old from (from + b.window) v.old
            (All-lt_mono (now - b.window) from v.old (ground arith) v.gone),
      )
      | inr far ↦ omega (
        arith,
        count_between-append from (from + b.window) passed (replicate n now),
        v.bounded from,
        count_between-replicate_out from (from + b.window) n now far,
      )
    ]

refused :
    (now n : ℕ) (b : Bucket)
    → ltb (evict now b).limit (length (evict now b).events + n) ≡ true
    → allow_n_bucket now n b ≡ (evict now b, false)
unfolding allow_n_bucket
refused now n b h = rw h

admitted :
    (now n : ℕ) (b : Bucket)
    → ltb (evict now b).limit (length (evict now b).events + n) ≡ false
    → allow_n_bucket now n b
      ≡ (record (evict now b) { events = (evict now b).events ++ replicate n now }, true)
unfolding allow_n_bucket
admitted now n b h = rw h

allow_n-Bounded :
    (now later n : ℕ) (b : Bucket) (passed : List ℕ)
    → now ≤ later
    → Bounded now b passed
    → let (b', admitted) = allow_n_bucket later n b in
      Bounded later b' (if admitted then passed ++ replicate n later else passed)
allow_n-Bounded now later n b passed le v =
    let fresh = evict later b in
    let w = evict-Bounded now later b passed le v in
    elim (Bool-cases (ltb fresh.limit (length fresh.events + n))) [
      | inl over ↦
          subst (λ r. Bounded later r.0 (if r.1 then passed ++ replicate n later else passed))
            (sym (refused later n b over)) w
      | inr fits ↦
          subst (λ r. Bounded later r.0 (if r.1 then passed ++ replicate n later else passed))
            (sym (admitted later n b fits))
            (record {
              old = w.old;
              split =
                  ap (λ xs. xs ++ replicate n later) w.split
                  ∙ append_assoc w.old fresh.events (replicate n later);
              gone = w.gone;
              bounded = λ from. count_admitted later n from fresh passed w (ground arith);
            })
    ]

serve_calls-Bounded :
    (now : ℕ) (cs : List Call) (b : Bucket) (passed : List ℕ)
    → FromOn now cs
    → Bounded now b passed
    → (last : ℕ) × Bounded last (serve_calls cs b passed).0 (serve_calls cs b passed).1
unfolding serve_calls
serve_calls-Bounded now [] b passed f v = (now, v)
serve_calls-Bounded now (c ∷ cs) b passed f v =
    serve_calls-Bounded c.at cs (allow_n_bucket c.at c.tokens b).0
      (if (allow_n_bucket c.at c.tokens b).1 then passed ++ replicate c.tokens c.at else passed) f.1
      (allow_n-Bounded now c.at c.tokens b passed f.0 v)

allow_n_bucket-cfg :
    (now n : ℕ) (b : Bucket)
    → ((allow_n_bucket now n b).0.limit ≡ b.limit) × ((allow_n_bucket now n b).0.window ≡ b.window)
unfolding allow_n_bucket
allow_n_bucket-cfg now n b = ground arith

serve_calls-cfg :
    (cs : List Call) (b : Bucket) (passed : List ℕ)
    → ((serve_calls cs b passed).0.limit ≡ b.limit)
      × ((serve_calls cs b passed).0.window ≡ b.window)
unfolding serve_calls
serve_calls-cfg [] b passed = (refl, refl)
serve_calls-cfg (c ∷ cs) b passed =
    let rest =
      serve_calls-cfg cs (allow_n_bucket c.at c.tokens b).0 (
        if (allow_n_bucket c.at c.tokens b).1 then passed ++ replicate c.tokens c.at else passed) in
    let here = allow_n_bucket-cfg c.at c.tokens b in (rest.0 ∙ here.0, rest.1 ∙ here.1)

-- Whatever calls are made on a fresh bucket, while the clock does not run backwards, in no stretch
-- of time as long as the window are more than `limit` tokens let through.
pub window_bound :
    (cs : List Call) (start : ℕ) (b : Bucket)
    → b.events ≡ []
    → FromOn start cs
    → (from : ℕ) → count_between from (from + b.window) (serve_calls cs b []).1 ≤ b.limit
window_bound cs start b empty f from =
    let (last, v) = serve_calls-Bounded start cs b [] f (record {
      old = [];
      split = sym empty;
      gone = tt;
      bounded = λ a. unfold count_between in omega arith;
    }) in
    let cfg = serve_calls-cfg cs b [] in
    subst₂ (λ w l. count_between from (from + w) (serve_calls cs b []).1 ≤ l) cfg.1 cfg.0
      (v.bounded from)

-- A call on a bucket whose events ascend is refused only if it must be: it is let through exactly if the events of its window and
-- its own tokens are together within the limit. `Allow` is `AllowN` of one token.
pub admission_exact :
    (now n : ℕ) (b : Bucket)
    → Ascending b.events
    → ((allow_n_bucket now n b).1 ≡ leb (length (since (now - b.window) b.events) + n) b.limit)
      × (allow_bucket now b ≡ allow_n_bucket now 1 b)
unfolding allow_n_bucket allow_bucket
admission_exact now n b asc =
    let kept = drop_before-eq-since (now - b.window) b.events asc in ground arith
